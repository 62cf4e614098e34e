-- ===== src/Tests/Agent.antt =====
-- Runs of the guest agent of crates/hyperbox-agent over a guest whose entries are a table.
use hyperbox.Prelude.{
  true, false, Option, none, some, List, [], ◌∷◌, ◌++◌, reverse, Text, codes, all, Assoc, lookup,
  insert, lookup-insert, text_eq, text_beq, Bool-cases, Option-cases, inl, inr, pos, ◌≡◌, ◌≢◌, refl,
  ap,
}
use hyperbox.Core.Error.{Result, ok, err}
use hyperbox.Server.Monad.{◌>>=◌}
use hyperbox.Server.LocalBackend.{split_slash, is_absolute}
use hyperbox.Server.LocalBackend.Paths.{walk}
use hyperbox.Agent.{
  FileType, regular, directory, IoError, Guest, Agent, finished, normalize_pieces,
  normalize_relative_path, read_file, write_file, sandbox_root, known_root, put_root, on_guest,
  resolve_safe_path, resolve_from, check_entry, missing_entry,
}
use hyperbox.Agent.Paths.{is_name, normalize_relative_path-walk}
use hyperbox.Agent.Resolve.{MakesDirs, target}
use hyperbox.Agent.Files.{Located, read_file_lem, write_file_lem}
use hyperbox.Agent.Shell.{Children, child, Ends, shell, shell-Ends, stdin}

abbrev raw_path : Text
raw_path = codes "./a//b"

abbrev raw_names : List Text
raw_names = codes "a" ∷ codes "b" ∷ []

raw_path_normal : normalize_relative_path raw_path ≡ ok raw_names
unfolding normalize_relative_path normalize_pieces split_slash
raw_path_normal = refl

normalize_relative_path-walk_example :
    (is_absolute raw_path ≡ false)
    × (raw_names ≢ [])
    × (walk [] (split_slash [] raw_path) ≡ some (reverse raw_names ++ []))
    × (all is_name raw_names ≡ true)
normalize_relative_path-walk_example =
    normalize_relative_path-walk raw_path raw_names [] raw_path_normal

-- The entries of the guest by their paths.
abbrev Entries : Type 0
Entries = Assoc Text FileType

abbrev absent : IoError
absent = record { is_not_found = true; message = codes "no such file" }

abbrev present : IoError
present = record { is_not_found = false; message = codes "file exists" }

abbrev kind_of : Option FileType → Result IoError FileType
kind_of none = err absent
kind_of (some k) = ok k

abbrev made_in : Text → Entries → Option FileType → Result IoError (Unit {0}) × Entries
made_in path f none = (ok tt, insert path directory f)
made_in path f (some k) = (err present, f)

abbrev guest : Guest Entries
guest = record {
  symlink_metadata = λ f path. kind_of (lookup path f);
  create_dir = λ path f. made_in path f (lookup path f);
  create_dir_all = λ path f. (ok tt, insert path directory f);
  read = λ path f. (ok (path ++ codes "!"), f);
  write = λ path bytes f. (ok tt, insert path regular f);
  run = λ program args dir seconds f.
      (finished (record { exit_code = pos 0; stdout = []; stderr = []; duration_ms = 0 }), f);
  join = λ dir path. dir ++ (codes "/" ++ path);
}

made_in-created :
    (path : Text) (f g : Entries) (o : Option FileType)
    → made_in path f o ≡ (ok tt, g)
    → kind_of (lookup path g) ≡ ok directory
made_in-created path f g none h =
    let same : insert path directory f ≡ g =
      ap (λ (x : Result IoError (Unit {0}) × Entries). x.1) h in
    let found : lookup path g ≡ some directory =
      rw (← same) (rw (lookup-insert path path directory f, text_eq.same_self path) refl) in
    ap kind_of found
made_in-created path f g (some k) h = cc

made_in-keeps :
    (path : Text) (f : Entries) (other : Text) (kind : FileType)
    → kind_of (lookup other f) ≡ ok kind
    → kind_of (lookup other (made_in path f (lookup path f)).1) ≡ ok kind
made_in-keeps path f other kind h = elim (Option-cases (lookup path f)) [
  | inl missing ↦ elim (Bool-cases (text_beq path other)) [
    | inl t ↦
        let same : path ≡ other = text_eq.same_to path other t in
        let none_there : kind_of (lookup other f) ≡ err absent = rw (← same, missing) refl in cc
    | inr f' ↦ rw (missing, lookup-insert path other directory f, f') h
  ]
  | inr (k, there) ↦ rw there h
]

guest-MakesDirs : MakesDirs guest
guest-MakesDirs = record {
  created = λ path f g h. made_in-created path f g (lookup path f) h;
  keeps = made_in-keeps;
}

abbrev empty : Agent Entries
empty = record { sandboxes = []; files = [] }

abbrev written : Agent Entries
written = record {
  sandboxes = (codes "default", codes "r/default") ∷ [];
  files =
      (codes "r/default", directory)
      ∷ (codes "r/default/a", directory)
      ∷ (codes "r/default/a/b", regular)
      ∷ [];
}

write_run : write_file guest (codes "r") [] raw_path (codes "hi") empty ≡ (ok tt, written)
unfolding write_file sandbox_root known_root put_root on_guest resolve_safe_path resolve_from
    check_entry missing_entry normalize_relative_path normalize_pieces split_slash ◌>>=◌ lookup
    insert
write_run = refl

read_run : read_file guest (codes "r") [] raw_path written ≡ (ok (codes "r/default/a/b!"), written)
unfolding read_file sandbox_root known_root put_root on_guest resolve_safe_path resolve_from
    check_entry missing_entry normalize_relative_path normalize_pieces split_slash ◌>>=◌ lookup
    insert
read_run = refl

write_file_lem_example :
    (u : Agent Entries) × (l : Located guest (codes "r") (codes "default") raw_path true empty u)
    × (lookup (codes "default") written.sandboxes ≡ some l.root)
    × (guest.write (target guest l.root l.names) (codes "hi") u.files ≡ (ok tt, written.files))
write_file_lem_example =
    write_file_lem guest guest-MakesDirs (codes "r") [] raw_path (codes "hi") empty written
      write_run

read_file_lem_example :
    (u : Agent Entries) × (l : Located guest (codes "r") (codes "default") raw_path false written u)
    × (lookup (codes "default") written.sandboxes ≡ some l.root)
    × (guest.read (target guest l.root l.names) u.files
        ≡ (ok (codes "r/default/a/b!"), written.files))
read_file_lem_example =
    read_file_lem guest guest-MakesDirs (codes "r") [] raw_path written written
      (codes "r/default/a/b!") read_run

abbrev children : Children Entries
children = record {
  spawn = λ program args dir f. (child, f);
  write_stdin = λ bytes f. (err (codes "broken pipe"), f);
  flush_stdin = λ f. (ok tt, f);
  wait = λ f. (some (pos 3), f);
  kill = λ f. f;
}

shell-Ends_example :
    Ends (shell children guest (codes "r") (ok none ∷ ok (some (stdin [])) ∷ []) empty).0
shell-Ends_example =
    shell-Ends children guest (codes "r") (ok none ∷ ok (some (stdin [])) ∷ []) empty
