-- ===== src/Server/Runtime.antt =====
-- `HyperboxServer` of crates/hyperbox-server/src/runtime.rs: the state that its methods share, and
-- the calls that they make of the backend, the store, the clock and the UUID generator. The store
-- is the in-memory one, so its calls do not fail.
pub mod Table
pub mod Processes
pub mod Sandboxes
pub mod Runs
pub mod StartRun
pub mod Watch
pub mod Destroy
pub mod Consistency
pub mod Exclusive
pub mod Waiting
use hyperbox.Prelude.{
  ℕ, suc, ◌+◌, Bool, true, false, Option, none, some, List, [], Text, Assoc, insert, remove, nat_eq,
}
use hyperbox.Core.Error.{Result, ok, err, HyperboxError}
use hyperbox.Core.Config.{
  SandboxConfig, SandboxId, SandboxInfo, SandboxLease, ExecRequest, ExecOutcome, FilePayload, Time,
}
use hyperbox.Core.Process.{ProcessInfo, ProcessId}
use hyperbox.Core.Snapshot.{SnapshotId}
use hyperbox.Core.Template.{TemplateRegistry, with_defaults}
use hyperbox.Server.Monad.{M, ◌>>=◌, ◌>>◌, pure, modify, gets}
use hyperbox.Server.Environment.{Environment, Backend}
use hyperbox.Server.Metrics.{MetricsCollector, new_metrics}
use hyperbox.Server.Store.{
  SnapshotStore, empty_store, clear_sandbox_binding, remove_active_sandbox, upsert_process,
  remove_process,
}

-- `struct HyperboxServer`, with the backend's own state and the counts of the clock's readings and
-- of the UUIDs drawn. `templates` never changes and is the constant `with_defaults`.
pub record World (S : Type 0) : Type 0 where
  pub backend_state : S
  pub store : SnapshotStore
  pub sandboxes : Assoc SandboxId SandboxConfig
  pub metrics : MetricsCollector
  pub hydrated : Bool
  pub readings : ℕ
  pub draws : ℕ

-- `new_with_snapshots`
abbrev pub new_with_snapshots : {S : Type 0} → S → SnapshotStore → World S
new_with_snapshots s store = record {
  backend_state = s;
  store = store;
  sandboxes = [];
  metrics = new_metrics;
  hydrated = false;
  readings = 0;
  draws = 0;
}

-- A call of the backend changes the backend's state only.
unfoldable pub on_backend : {S A : Type 0} → (S → Result HyperboxError A × S) → M (World S) A
on_backend call w = let (r, s) = call w.backend_state in (r, record w { backend_state = s })

unfoldable pub on_store : {S : Type 0} → (SnapshotStore → SnapshotStore) → M (World S) (Unit {0})
on_store f w = (ok tt, record w { store = f w.store })

unfoldable pub put_sandbox : {S : Type 0} → SandboxId → SandboxConfig → M (World S) (Unit {0})
put_sandbox id config w = (ok tt, record w { sandboxes = insert id config w.sandboxes })

unfoldable pub drop_sandbox : {S : Type 0} → SandboxId → M (World S) (Unit {0})
drop_sandbox id w = (ok tt, record w { sandboxes = remove id w.sandboxes })

unfoldable pub set_hydrated : {S : Type 0} → M (World S) (Unit {0})
set_hydrated w = (ok tt, record w { hydrated = true })

unfoldable pub on_metrics :
    {S : Type 0} → (MetricsCollector → MetricsCollector) → M (World S) (Unit {0})
on_metrics f w = (ok tt, record w { metrics = f w.metrics })

module _ {S : Type 0} (env : Environment S) where
  -- `Utc::now()`
  unfoldable pub now : M (World S) Time
  now w = (ok (env.clock w.readings), record w { readings = suc w.readings })

  -- `Instant::now()`
  unfoldable pub instant_now : M (World S) ℕ
  instant_now w = (ok (env.instant w.readings), record w { readings = suc w.readings })

  -- `Uuid::new_v4()`
  unfoldable pub new_uuid : M (World S) ℕ
  new_uuid w = (ok (env.uuid w.draws), record w { draws = suc w.draws })

  unfoldable pub exec_in : SandboxId → ExecRequest → M (World S) ExecOutcome
  exec_in id request = on_backend λ s. env.backend.exec s id request

  unfoldable pub inspect_in : SandboxId → M (World S) SandboxInfo
  inspect_in id = on_backend λ s. env.backend.inspect s id
