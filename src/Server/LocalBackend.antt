-- ===== src/Server/LocalBackend.antt =====
-- `LocalBackend` of crates/hyperbox-server/src/local_backend.rs. The file system and the processes of
-- the host are a parameter with the state `F`; an error of theirs comes as the `HyperboxError` that
-- the source turns it into. Paths are those of Unix.
pub mod Paths
pub mod Forgetting
pub mod Fresh
use hyperbox.Prelude.{
  ℕ, suc, Bool, true, false, not, ◌||◌, Option, none, some, List, [], ◌∷◌, ◌++◌, Text, codes,
  nat_beq, nat_eq, text_eq, ◌==◌, any, starts_with, to_ascii_lowercase, is_some, if◌then◌else◌,
  Assoc, lookup, insert, remove,
}
use hyperbox.Core.Error.{
  Result, ok, err, ok_or, HyperboxError, invalid_config, execution_failed, sandbox_not_found,
}
use hyperbox.Core.Config.{
  SandboxConfig, SandboxId, SandboxInfo, SandboxLease, ready, ExecRequest, ExecOutcome, FilePayload,
  NetworkMode, none_mode, full_mode, allowlist_mode, Time,
}
use hyperbox.Core.Snapshot.{SnapshotId}
use hyperbox.Server.Monad.{M, ◌>>=◌, ◌>>◌, pure, throw, lift, gets, attempt}
use hyperbox.Server.Environment.{Backend}

-- The host. `run` is the command with its program, arguments, directory, variables and time limit.
pub record Host (F : Type 0) : Type 0 where
  pub create_dir_all : Text → F → Result HyperboxError (Unit {0}) × F
  pub remove_dir_all : Text → F → Result HyperboxError (Unit {0}) × F
  pub remove_file : Text → F → Result HyperboxError (Unit {0}) × F
  pub read : Text → F → Result HyperboxError (List ℕ) × F
  pub write : Text → List ℕ → F → Result HyperboxError (Unit {0}) × F
  pub run : Text → List Text → Text → Assoc Text Text → ℕ → F → Result HyperboxError ExecOutcome × F
  pub archive_workdir : Text → Text → F → Result HyperboxError (Unit {0}) × F
  pub unpack_workdir : Text → Text → F → Result HyperboxError (Unit {0}) × F
  pub exists : F → Text → Bool
  pub current_dir : F → Result HyperboxError Text
  pub join : Text → Text → Text
  pub parent : Text → Option Text
  pub network_json : NetworkMode → Text
  pub allow_unenforced : Option Text
  pub uuid : ℕ → ℕ
  pub show_uuid : ℕ → Text
  pub clock : ℕ → Time

pub record SandboxRecord : Type 0 where
  pub config : SandboxConfig
  pub info : SandboxInfo
  pub working_dir : Text
  pub managed_working_dir : Bool

-- The table of sandboxes, the host's state, and the count of the identifiers drawn.
pub record Local (F : Type 0) : Type 0 where
  pub state : Assoc SandboxId SandboxRecord
  pub files : F
  pub draws : ℕ

-- The pieces of a path between its slashes.
unfoldable pub split_slash : Text → Text → List Text
split_slash piece [] = piece ∷ []
split_slash piece (c ∷ s) =
    let next = split_slash [] s in
    let more = split_slash (piece ++ (c ∷ [])) s in if nat_beq c b'/' then piece ∷ next else more

abbrev pub is_parent_dir : Text → Bool
is_parent_dir piece = piece == codes ".."

abbrev pub is_absolute : Text → Bool
is_absolute path = starts_with (codes "/") path

unfoldable pub validate_relative_path : Text → Result HyperboxError Text
unfolding split_slash
validate_relative_path path =
    if is_absolute path
    then err (invalid_config (codes "file path must be relative to sandbox working directory"))
    else if any is_parent_dir (split_slash [] path)
    then err (invalid_config (codes "file path cannot escape sandbox working directory"))
    else ok path

module _ {F : Type 0} (host : Host F) (root_dir : Text) where
  unfoldable pub on_host : {A : Type 0} → (F → Result HyperboxError A × F) → M (Local F) A
  on_host call w = let (r, f) = call w.files in (r, record w { files = f })

  unfoldable pub sandbox_workdir : SandboxId → Text
  sandbox_workdir id = host.join root_dir (host.show_uuid id)

  abbrev pub allows_unsafe : Option Text → Bool
  allows_unsafe none = false
  allows_unsafe (some v) = v == codes "1" || to_ascii_lowercase v == codes "true"

  abbrev pub unenforced : Result HyperboxError (Unit {0})
  unenforced =
      if allows_unsafe host.allow_unenforced
      then ok tt
      else err (
          invalid_config (
            codes
              "local backend does not enforce network policy; set HYPERBOX_BACKEND=firecracker for allowlist/full network"))

  abbrev pub validate_network : NetworkMode → Result HyperboxError (Unit {0})
  validate_network none_mode = ok tt
  validate_network full_mode = unenforced
  validate_network (allowlist_mode domains) = unenforced

  unfoldable pub validate_config : SandboxConfig → Result HyperboxError (Unit {0})
  validate_config config = validate_network config.network

  -- `SandboxId::new()`, and `Utc::now()` right after it.
  unfoldable pub draw_info : Text → M (Local F) SandboxInfo
  draw_info template w = (
    ok (record {
      id = host.uuid w.draws;
      template = template;
      state = ready;
      created_at = host.clock w.draws;
    }),
    record w { draws = suc w.draws },
  )

  unfoldable pub resolve_workspace : Text → M (Local F) Text
  resolve_workspace candidate =
      if is_absolute candidate
      then pure candidate
      else (do here ← on_host (λ f. (host.current_dir f, f)); pure (host.join here candidate))

  -- The working directory, and whether the backend made it.
  unfoldable pub prepare_dir : Option Text → SandboxId → M (Local F) (Text × Bool)
  prepare_dir (some workspace_dir) id = do
    resolved ← resolve_workspace workspace_dir
    on_host (host.create_dir_all resolved)
    pure (resolved, false)
  prepare_dir none id = do
    on_host (host.create_dir_all (sandbox_workdir id))
    pure (sandbox_workdir id, true)

  unfoldable pub put_record : SandboxId → SandboxRecord → M (Local F) (Unit {0})
  put_record id r w = (ok tt, record w { state = insert id r w.state })

  unfoldable pub create : SandboxConfig → M (Local F) SandboxLease
  create config = do
    lift (validate_config config)
    on_host (host.create_dir_all root_dir)
    info ← draw_info config.template
    dir ← prepare_dir config.workspace_dir info.id
    put_record info.id
        (record { config = config; info = info; working_dir = dir.0; managed_working_dir = dir.1 })
    pure (record { id = info.id; info = info })

  unfoldable pub find_record : SandboxId → M (Local F) SandboxRecord
  find_record id w = (ok_or (lookup id w.state) (sandbox_not_found (host.show_uuid id)), w)

  abbrev variables : SandboxConfig → Assoc Text Text
  variables config =
      (codes "HYPERBOX_TEMPLATE", config.template)
      ∷ (codes "HYPERBOX_NETWORK_MODE", host.network_json config.network)
      ∷ config.env

  unfoldable pub run_command : SandboxRecord → ExecRequest → List Text → M (Local F) ExecOutcome
  run_command r req [] = throw (invalid_config (codes "command cannot be empty"))
  run_command r req (program ∷ args) =
      on_host (host.run program args r.working_dir (variables r.config) req.timeout_secs)

  unfoldable pub exec : SandboxId → ExecRequest → M (Local F) ExecOutcome
  exec id req = do r ← find_record id; run_command r req req.command

  unfoldable pub read_file : SandboxId → Text → M (Local F) FilePayload
  read_file id path = do
    r ← find_record id
    relative ← lift (validate_relative_path path)
    bytes ← on_host (host.read (host.join r.working_dir relative))
    pure (record { path = path; bytes = bytes })

  unfoldable pub make_parent : Option Text → M (Local F) (Unit {0})
  make_parent none = pure tt
  make_parent (some dir) = on_host (host.create_dir_all dir)

  unfoldable pub write_file : SandboxId → FilePayload → M (Local F) (Unit {0})
  write_file id payload = do
    r ← find_record id
    relative ← lift (validate_relative_path payload.path)
    make_parent (host.parent (host.join r.working_dir relative))
    on_host (host.write (host.join r.working_dir relative) payload.bytes)

  unfoldable pub take_record : SandboxId → M (Local F) SandboxRecord
  take_record id w = (
    ok_or (lookup id w.state) (sandbox_not_found (host.show_uuid id)),
    record w { state = remove id w.state },
  )

  unfoldable pub clear_dir : Text → M (Local F) (Unit {0})
  clear_dir dir = do
    present ← gets (λ w. host.exists w.files dir)
    if present then on_host (host.remove_dir_all dir) else pure tt

  unfoldable pub destroy : SandboxId → M (Local F) (Unit {0})
  destroy id = do
    r ← take_record id
    if r.managed_working_dir then clear_dir r.working_dir else pure tt

  unfoldable pub inspect : SandboxId → M (Local F) SandboxInfo
  inspect id = do r ← find_record id; pure r.info

  unfoldable pub create_snapshot : SandboxId → SnapshotId → Text → M (Local F) (Unit {0})
  create_snapshot id snapshot_id artifact_path = do
    r ← find_record id
    make_parent (host.parent artifact_path)
    present ← gets (λ w. host.exists w.files artifact_path)
    if present then on_host (host.remove_file artifact_path) else pure tt
    on_host (host.archive_workdir r.working_dir artifact_path)

  unfoldable pub missing : SnapshotId → Text → HyperboxError
  missing id path =
      execution_failed
        (codes "snapshot artifact missing for " ++ (host.show_uuid id ++ (codes " at " ++ path)))

  abbrev shared : HyperboxError
  shared =
      execution_failed (codes "local snapshot restore into shared workspace_dir is not supported")

  -- The message ends in the error of the unpacking.
  abbrev unpacked : SnapshotId → HyperboxError
  unpacked id = execution_failed (codes "local snapshot restore failed for " ++ host.show_uuid id)

  -- A sandbox that cannot be restored is destroyed again.
  unfoldable pub give_up : {A : Type 0} → SandboxId → HyperboxError → M (Local F) A
  give_up id e = attempt (destroy id) >> throw e

  unfoldable pub finish_restore :
      SnapshotId → SandboxLease → Result HyperboxError (Unit {0}) → M (Local F) SandboxLease
  finish_restore id lease (ok u) = pure lease
  finish_restore id lease (err e) = give_up lease.id (unpacked id)

  unfoldable pub restore_into :
      SnapshotId → Text → SandboxLease → SandboxRecord → M (Local F) SandboxLease
  restore_into id artifact_path lease r =
      if not r.managed_working_dir then give_up lease.id shared else (do
        clear_dir r.working_dir
        on_host (host.create_dir_all r.working_dir)
        done ← attempt (on_host (host.unpack_workdir artifact_path r.working_dir))
        finish_restore id lease done)

  unfoldable pub restore_snapshot : SnapshotId → Text → SandboxConfig → M (Local F) SandboxLease
  restore_snapshot id artifact_path config = do
    present ← gets (λ w. host.exists w.files artifact_path)
    if not present then throw (missing id artifact_path) else (do
      lease ← create config
      r ← find_record lease.id
      restore_into id artifact_path lease r)

  -- `impl SandboxBackend for LocalBackend`
  unfoldable pub local_backend : Backend (Local F)
  local_backend = record {
    validate_config = λ w config. validate_config config;
    create = λ w config. create config w;
    exec = λ w id req. exec id req w;
    read_file = λ w id path. read_file id path w;
    write_file = λ w id payload. write_file id payload w;
    destroy = λ w id. destroy id w;
    inspect = λ w id. inspect id w;
    create_snapshot = λ w id snapshot_id path. create_snapshot id snapshot_id path w;
    restore_snapshot = λ w id path config. restore_snapshot id path config w;
  }
