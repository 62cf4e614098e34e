-- ===== src/Agent.antt =====
-- `AgentService` of crates/hyperbox-agent/src/daemon.rs, the service that runs inside a guest. The
-- file system and the processes of the guest are a parameter with the state `F`; paths are those of
-- Unix. A normalized path is the list of its components.
pub mod Paths
pub mod Resolve
pub mod Files
pub mod Shell
use hyperbox.Prelude.{
  ℕ, Bool, true, false, ◌||◌, Option, none, some, List, [], ◌∷◌, ◌++◌, Text, codes, is_empty,
  text_eq, ◌==◌, if◌then◌else◌, Assoc, lookup, insert, leb, ℤ,
}
use hyperbox.Core.Error.{Result, ok, err}
use hyperbox.Server.Monad.{Action, ◌>>=◌, ◌>>◌, pure, throw, lift, gets}
use hyperbox.Server.LocalBackend.{split_slash, is_absolute, is_parent_dir}
use hyperbox.Status.{
  Status, status, invalid_argument, not_found, deadline_exceeded, permission_denied,
  failed_precondition, internal,
}

-- What `symlink_metadata` tells of an entry, and `std::io::Error` with its kind and its text.
pub data FileType : Type 0 where
  regular directory symlink : FileType

pub record IoError : Type 0 where
  pub is_not_found : Bool
  pub message : Text

pub record Output : Type 0 where
  pub exit_code : ℤ
  pub stdout : Text
  pub stderr : Text
  pub duration_ms : ℕ

-- How a command under a time limit ends.
pub data Ended : Type 0 where
  timed_out : Ended
  not_run : Text → Ended
  finished : Output → Ended

pub record Guest (F : Type 0) : Type 0 where
  pub symlink_metadata : F → Text → Result IoError FileType
  pub create_dir : Text → F → Result IoError (Unit {0}) × F
  pub create_dir_all : Text → F → Result IoError (Unit {0}) × F
  pub read : Text → F → Result IoError (List ℕ) × F
  pub write : Text → List ℕ → F → Result IoError (Unit {0}) × F
  -- the program, its arguments, its directory and the limit in seconds
  pub run : Text → List Text → Text → ℕ → F → Ended × F
  pub join : Text → Text → Text

-- `sandboxes` and the state of the guest; `root` never changes and is a parameter.
pub record Agent (F : Type 0) : Type 0 where
  pub sandboxes : Assoc Text Text
  pub files : F

abbrev pub Served : Type 0 → Type 0 → Type 0
Served F B = Action Status (Agent F) B

abbrev pub push_name : Text → Result Status (List Text) → Result Status (List Text)
push_name name (ok names) = ok (name ∷ names)
push_name name (err e) = err e

-- The loop over the components: `.` and empty pieces are left out.
unfoldable pub normalize_pieces : List Text → Result Status (List Text)
normalize_pieces [] = ok []
normalize_pieces (piece ∷ pieces) =
    let others = normalize_pieces pieces in
    if is_parent_dir piece
    then err (status invalid_argument (codes "path traversal outside sandbox root is not allowed"))
    else if is_empty piece || piece == codes "."
    then others
    else push_name piece others

abbrev pub not_empty : Result Status (List Text) → Result Status (List Text)
not_empty (ok []) = err (status invalid_argument (codes "path cannot be empty"))
not_empty (ok (name ∷ names)) = ok (name ∷ names)
not_empty (err e) = err e

unfoldable pub normalize_relative_path : Text → Result Status (List Text)
normalize_relative_path path =
    if is_absolute path
    then err (status invalid_argument (codes "path must be relative to sandbox root"))
    else not_empty (normalize_pieces (split_slash [] path))

abbrev pub mapped : {B : Type 0} → (IoError → Status) → Result IoError B → Result Status B
mapped f (ok b) = ok b
mapped f (err e) = err (f e)

abbrev pub internal_error : IoError → Status
internal_error e = status internal e.message

abbrev pub create_failed : IoError → Status
create_failed e = status internal (codes "create directory failed: " ++ e.message)

abbrev pub sandbox_id_or_default : Text → Text
sandbox_id_or_default id = if is_empty id then codes "default" else id

abbrev pub ended : Ended → Result Status Output
ended timed_out = err (status deadline_exceeded (codes "command timed out"))
ended (not_run e) = err (status internal e)
ended (finished output) = ok output

abbrev pub read_failed : IoError → Status
read_failed e = if e.is_not_found then status not_found e.message else status internal e.message

module _ {F : Type 0} (guest : Guest F) where
  -- A call of the guest, with `map_err`.
  unfoldable pub on_guest :
      {B : Type 0} → (IoError → Status) → (F → Result IoError B × F) → Served F B
  on_guest f call w = let (r, g) = call w.files in (mapped f r, record w { files = g })

  unfoldable pub put_root : Text → Text → Served F (Unit {0})
  put_root id path w = (ok tt, record w { sandboxes = insert id path w.sandboxes })

  unfoldable pub known_root : Text → Text → Option Text → Served F Text
  known_root root id (some existing) = pure existing
  known_root root id none = do
    on_guest internal_error (guest.create_dir_all (guest.join root id))
    put_root id (guest.join root id)
    pure (guest.join root id)

  unfoldable pub sandbox_root : Text → Text → Served F Text
  sandbox_root root id = do
    existing ← gets (λ w. lookup id w.sandboxes)
    known_root root id existing

  unfoldable pub missing_entry : Bool → Text → Bool → Served F (Unit {0})
  missing_entry create_parents next is_last =
      if is_last
      then pure tt
      else if create_parents
      then on_guest create_failed (guest.create_dir next)
      else throw (status not_found (codes "path not found"))

  -- The cases of `match fs::symlink_metadata(&next).await`
  unfoldable pub check_entry : Bool → Text → Bool → Result IoError FileType → Served F (Unit {0})
  check_entry create_parents next is_last (ok symlink) =
      throw (
        status permission_denied (codes "symlink paths are not allowed in sandbox file operations"))
  check_entry create_parents next is_last (ok directory) = pure tt
  check_entry create_parents next is_last (ok regular) =
      if is_last
      then pure tt
      else throw (status failed_precondition (codes "path component is not a directory"))
  check_entry create_parents next is_last (err e) =
      if e.is_not_found
      then missing_entry create_parents next is_last
      else throw (status internal (codes "inspect path failed: " ++ e.message))

  unfoldable pub resolve_from : Bool → Text → List Text → Served F Text
  resolve_from create_parents cursor [] = pure cursor
  resolve_from create_parents cursor (part ∷ rest) = do
    meta ← gets (λ w. guest.symlink_metadata w.files (guest.join cursor part))
    check_entry create_parents (guest.join cursor part) (is_empty rest) meta
    resolve_from create_parents (guest.join cursor part) rest

  unfoldable pub resolve_safe_path : Text → Text → Bool → Served F Text
  resolve_safe_path root raw_path create_parents = do
    normalized ← lift (normalize_relative_path raw_path)
    resolve_from create_parents root normalized

  unfoldable pub run_in : Text → List Text → Text → ℕ → Served F Output
  run_in program args dir timeout_secs w =
      let (e, g) =
        guest.run program args dir (if leb 1 timeout_secs then timeout_secs else 1) w.files in
      (ended e, record w { files = g })

  unfoldable pub exec : Text → Text → List Text → ℕ → Served F Output
  exec root id [] timeout_secs = throw (status invalid_argument (codes "command cannot be empty"))
  exec root id (program ∷ args) timeout_secs = do
    dir ← sandbox_root root (sandbox_id_or_default id)
    run_in program args dir timeout_secs

  unfoldable pub read_file : Text → Text → Text → Served F (List ℕ)
  read_file root id path = do
    dir ← sandbox_root root (sandbox_id_or_default id)
    full ← resolve_safe_path dir path false
    on_guest read_failed (guest.read full)

  unfoldable pub write_file : Text → Text → Text → List ℕ → Served F (Unit {0})
  write_file root id path bytes = do
    dir ← sandbox_root root (sandbox_id_or_default id)
    full ← resolve_safe_path dir path true
    on_guest internal_error (guest.write full bytes)
