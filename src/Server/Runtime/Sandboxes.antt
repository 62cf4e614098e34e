-- ===== src/Server/Runtime/Sandboxes.antt =====
-- Hydration, the life of sandboxes, snapshots and affinities in
-- crates/hyperbox-server/src/runtime.rs.
use hyperbox.Prelude.{
  Bool, true, false, not, ◌||◌, Option, none, some, List, [], ◌∷◌, ◌++◌, Text, codes, if◌then◌else◌,
  lookup, nat_eq, contains_text,
}
use hyperbox.Core.Error.{
  Result, ok, err, ok_or, HyperboxError, execution_failed, sandbox_not_found, display,
}
use hyperbox.Core.Config.{
  SandboxConfig, SandboxId, SandboxInfo, SandboxLease, ExecRequest, ExecOutcome, FilePayload, Time,
}
use hyperbox.Core.Snapshot.{SnapshotId, SnapshotMetadata, AffinityRecord, ActiveSandboxRecord}
use hyperbox.Core.Template.{with_defaults, ensure_exists}
use hyperbox.Server.Monad.{M, ◌>>=◌, ◌>>◌, pure, throw, lift, gets, attempt}
use hyperbox.Server.Environment.{Environment}
use hyperbox.Server.Metrics.{inc_create, inc_exec, inc_exec_failure, record_exec_latency}
use hyperbox.Server.Store
use hyperbox.Server.Store.{
  SnapshotStore, list_active_sandboxes, bind_sandbox, clear_sandbox_binding, upsert_active_sandbox,
  get_snapshot, get_affinity, set_affinity_snapshot, list_for_template,
}
use hyperbox.Server.Runtime.{
  World, on_backend, on_store, put_sandbox, set_hydrated, on_metrics, now, new_uuid, exec_in,
  inspect_in,
}

module _ {S : Type 0} (env : Environment S) where
  -- The body of the hydration loop; the result is `retry_needed`.
  unfoldable pub hydrate_one :
      ActiveSandboxRecord → Bool → Result HyperboxError SandboxInfo → M (World S) Bool
  hydrate_one r retry (ok info) = put_sandbox r.sandbox_id r.config >> pure retry
  hydrate_one r retry (err (sandbox_not_found m)) = pure retry
  hydrate_one r retry (err e) = pure true

  unfoldable pub hydrate_all : List ActiveSandboxRecord → Bool → M (World S) Bool
  hydrate_all [] retry = pure retry
  hydrate_all (r ∷ rest) retry = do
    seen ← attempt (inspect_in env r.sandbox_id)
    retry' ← hydrate_one r retry seen
    hydrate_all rest retry'

  pub hydration_incomplete : HyperboxError
  hydration_incomplete = execution_failed (codes "hydration incomplete; retrying on next request")

  -- `get_or_try_init` of a `OnceCell`: the cell is set only if the initialiser succeeds.
  unfoldable pub hydrate : M (World S) (Unit {0})
  hydrate = do
    records ← gets (λ w. list_active_sandboxes w.store)
    retry ← hydrate_all records false
    if retry then throw hydration_incomplete else set_hydrated

  unfoldable pub ensure_hydrated : M (World S) (Unit {0})
  ensure_hydrated = do done ← gets (λ w. w.hydrated); if done then pure tt else hydrate

  unfoldable pub bind_affinity : Option Text → SandboxId → M (World S) (Unit {0})
  bind_affinity none id = pure tt
  bind_affinity (some name) id = do time ← now env; on_store (λ s. bind_sandbox s time name id)

  -- What creation and restoration do with a lease.
  unfoldable pub register : SandboxConfig → SandboxLease → M (World S) SandboxInfo
  register config lease = do
    bind_affinity config.affinity_name lease.id
    on_store (λ s. upsert_active_sandbox s lease.id config lease.info.created_at)
    put_sandbox lease.id config
    on_metrics inc_create
    pure lease.info

  unfoldable pub validate : SandboxConfig → M (World S) (Unit {0})
  validate config = on_backend λ s. (env.backend.validate_config s config, s)

  unfoldable pub create_sandbox : SandboxConfig → M (World S) SandboxInfo
  create_sandbox config = do
    ensure_hydrated
    lift (ensure_exists with_defaults config.template)
    validate config
    lease ← on_backend (λ s. env.backend.create s config)
    register config lease

  -- The `match` of `exec` on the outcome.
  unfoldable pub record_outcome : Result HyperboxError ExecOutcome → M (World S) ExecOutcome
  record_outcome (ok outcome) =
      on_metrics (λ m. record_exec_latency m outcome.duration_ms) >> pure outcome
  record_outcome (err e) = on_metrics inc_exec_failure >> throw e

  unfoldable pub exec : SandboxId → ExecRequest → M (World S) ExecOutcome
  exec id request = do
    ensure_hydrated
    on_metrics inc_exec
    outcome ← attempt (exec_in env id request)
    record_outcome outcome

  unfoldable pub inspect : SandboxId → M (World S) SandboxInfo
  inspect id = do ensure_hydrated; inspect_in env id

  unfoldable pub not_found : SandboxId → HyperboxError
  not_found id = sandbox_not_found (env.show_uuid id)

  unfoldable pub config_of : SandboxId → M (World S) SandboxConfig
  config_of id w = (ok_or (lookup id w.sandboxes) (not_found id), w)

  unfoldable pub sandbox_config : SandboxId → M (World S) SandboxConfig
  sandbox_config id = do ensure_hydrated; config_of id

  unfoldable pub read_file : SandboxId → Text → M (World S) FilePayload
  read_file id path = do ensure_hydrated; on_backend (λ s. env.backend.read_file s id path)

  unfoldable pub write_file : SandboxId → FilePayload → M (World S) (Unit {0})
  write_file id payload = do ensure_hydrated; on_backend (λ s. env.backend.write_file s id payload)

  unfoldable pub store_snapshot :
      SandboxId → SandboxConfig → Option Text → SnapshotId → Time → M (World S) SnapshotMetadata
  store_snapshot id config note snapshot_id time w =
      let (snapshot, store) = Store.create_snapshot w.store snapshot_id time id config note in
      (ok snapshot, record w { store = store })

  unfoldable pub name_snapshot : Option Text → SnapshotId → M (World S) (Unit {0})
  name_snapshot none id = pure tt
  name_snapshot (some name) id = do
    time ← now env
    on_store (λ s. set_affinity_snapshot s time name id)

  unfoldable pub create_snapshot : SandboxId → Option Text → M (World S) SnapshotMetadata
  create_snapshot id note = do
    ensure_hydrated
    sandbox ← config_of id
    snapshot_id ← new_uuid env
    time ← now env
    snapshot ← store_snapshot id sandbox note snapshot_id time
    path ← lift (env.artifact_path snapshot_id)
    on_backend (λ s. env.backend.create_snapshot s id snapshot_id path)
    name_snapshot sandbox.affinity_name snapshot_id
    pure snapshot

  unfoldable pub find_snapshot : SnapshotId → M (World S) SnapshotMetadata
  find_snapshot id w =
      (ok_or (get_snapshot w.store id) (execution_failed (codes "snapshot not found")), w)

  pub artifact_missing : SnapshotId → Text → HyperboxError
  artifact_missing id path =
      execution_failed
        (codes "snapshot artifact missing for " ++ (env.show_uuid id ++ (codes " at " ++ path)))

  unfoldable pub restore_snapshot : SnapshotId → M (World S) SandboxInfo
  restore_snapshot id = do
    ensure_hydrated
    snapshot ← find_snapshot id
    path ← lift (env.artifact_path id)
    present ← gets (λ w. env.exists w.backend_state path)
    if present
        then (do
          lease ← on_backend (λ s. env.backend.restore_snapshot s id path snapshot.config)
          register snapshot.config lease)
        else throw (artifact_missing id path)

  unfoldable pub list_snapshots : Text → M (World S) (List SnapshotMetadata)
  list_snapshots template = do ensure_hydrated; gets (λ w. list_for_template w.store template)

  unfoldable pub affinity_not_found : Text → HyperboxError
  affinity_not_found name = execution_failed (codes "affinity not found: " ++ name)

  unfoldable pub no_active_sandbox : Text → HyperboxError
  no_active_sandbox name =
      execution_failed (codes "affinity `" ++ (name ++ codes "` has no active sandbox"))

  pub no_snapshot : Text → HyperboxError
  no_snapshot name =
      execution_failed (codes "affinity `" ++ (name ++ codes "` has no snapshot to restore"))

  unfoldable pub find_affinity : Text → M (World S) AffinityRecord
  find_affinity name w = (ok_or (get_affinity w.store name) (affinity_not_found name), w)

  -- From where no live sandbox carries the name.
  unfoldable pub restore_affinity : Text → AffinityRecord → Bool → M (World S) (SandboxInfo × Bool)
  restore_affinity name affinity restore_if_needed =
      if not restore_if_needed then throw (no_active_sandbox name) else do
        id ← lift (ok_or affinity.snapshot_id (no_snapshot name))
        info ← restore_snapshot id
        pure (info, true)

  -- The `match` on the inspection of the bound sandbox.
  unfoldable pub reuse_bound :
      Text
      → AffinityRecord
      → Bool
      → SandboxId
      → Result HyperboxError SandboxInfo
      → M (World S) (SandboxInfo × Bool)
  reuse_bound name affinity restore_if_needed id (ok info) = pure (info, false)
  reuse_bound name affinity restore_if_needed id (err e) = do
    time ← now env
    on_store (λ s. clear_sandbox_binding s time id)
    restore_affinity name affinity restore_if_needed

  unfoldable pub resolve_record :
      Text → AffinityRecord → Bool → Option SandboxId → M (World S) (SandboxInfo × Bool)
  resolve_record name affinity restore_if_needed none =
      restore_affinity name affinity restore_if_needed
  resolve_record name affinity restore_if_needed (some id) = do
    seen ← attempt (inspect id)
    reuse_bound name affinity restore_if_needed id seen

  unfoldable pub resolve_affinity : Text → Bool → M (World S) (SandboxInfo × Bool)
  resolve_affinity name restore_if_needed = do
    ensure_hydrated
    affinity ← find_affinity name
    resolve_record name affinity restore_if_needed affinity.sandbox_id

-- The error's message is searched, as the source does.
unfoldable pub is_affinity_absent_error : HyperboxError → Bool
unfolding display
is_affinity_absent_error e =
    contains_text (codes "affinity not found") (display e)
    || contains_text (codes "has no active sandbox") (display e)
