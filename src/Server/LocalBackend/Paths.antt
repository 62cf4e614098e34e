-- ===== src/Server/LocalBackend/Paths.antt =====
-- Where a path leads that `validate_relative_path` of crates/hyperbox-server/src/local_backend.rs
-- accepts. Symbolic links are not looked at.
use mathlib.Core.List.{append_assoc}
use hyperbox.Prelude.{
  Bool, true, false, ◌||◌, Option, none, some, List, [], ◌∷◌, ◌++◌, Text, codes, any, is_empty,
  text_beq, text_eq, if◌then◌else◌, ◌≡◌, refl, sym, ap, ◌∙◌, arith,
}
use hyperbox.Core.Error.{ok, err, invalid_config}
use hyperbox.Server.LocalBackend.{validate_relative_path, split_slash, is_parent_dir, is_absolute}

abbrev pub pop : List Text → Option (List Text)
pop [] = none
pop (dir ∷ above) = some above

abbrev pub on_some : Option (List Text) → (List Text → Option (List Text)) → Option (List Text)
on_some none f = none
on_some (some dirs) f = f dirs

-- The directory that a path leads to from one that is given by its names, the last first: a name
-- goes down, `..` goes up, and an empty piece or `.` stays.
unfoldable pub walk : List Text → List Text → Option (List Text)
walk dirs [] = some dirs
walk dirs (piece ∷ path) =
    if is_parent_dir piece
    then on_some (pop dirs) (λ above. walk above path)
    else if is_empty piece || text_beq piece (codes ".")
    then walk dirs path
    else walk (piece ∷ dirs) path

-- The walk ends below where it began.
abbrev pub Below : List Text → Option (List Text) → Type 0
Below dirs o = (below : List Text) × (o ≡ some (below ++ dirs))

Below-cons :
    (piece : Text) (dirs : List Text) (o : Option (List Text))
    → Below (piece ∷ dirs) o
    → Below dirs o
Below-cons piece dirs o (below, e) =
    (below ++ (piece ∷ []), e ∙ ap some (sym (append_assoc below (piece ∷ []) dirs)))

walk-Below :
    (path : List Text) (dirs : List Text)
    → any is_parent_dir path ≡ false
    → Below dirs (walk dirs path)
unfolding walk
walk-Below [] dirs h = ([], refl)
walk-Below (piece ∷ path) dirs h =
    let name : is_parent_dir piece ≡ false = ground arith in
    let rest : any is_parent_dir path ≡ false = ground arith in
    rw name (
      by_test (is_empty piece || text_beq piece (codes ".")) (walk-Below path dirs rest)
        (walk-Below path (piece ∷ dirs) rest))
  where
    by_test :
        (b : Bool)
        → Below dirs (walk dirs path)
        → Below (piece ∷ dirs) (walk (piece ∷ dirs) path)
        → Below dirs (if b then walk dirs path else walk (piece ∷ dirs) path)
    by_test true stay down = stay
    by_test false stay down = Below-cons piece dirs _ down

-- A relative path that is accepted comes back as it was given, and leads from any directory to that
-- directory or to one below it.
pub validate_relative_path-Below :
    (path : Text) (r : Text) (dirs : List Text)
    → validate_relative_path path ≡ ok r
    → (r ≡ path) × Below dirs (walk dirs (split_slash [] path))
unfolding validate_relative_path
validate_relative_path-Below path r dirs h =
    by_tests (is_absolute path) (any is_parent_dir (split_slash [] path)) refl h
  where
    by_tests :
        (a b : Bool)
        → any is_parent_dir (split_slash [] path) ≡ b
        → (if a
            then err
                (invalid_config (codes "file path must be relative to sandbox working directory"))
            else if b
            then err (invalid_config (codes "file path cannot escape sandbox working directory"))
            else ok path)
          ≡ ok r
        → (r ≡ path) × Below dirs (walk dirs (split_slash [] path))
    by_tests true b e g = cc
    by_tests false true e g = cc
    by_tests false false e g = (cc, walk-Below (split_slash [] path) dirs e)
