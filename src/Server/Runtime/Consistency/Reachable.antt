-- ===== src/Server/Runtime/Consistency/Reachable.antt =====
-- The states that the methods of `HyperboxServer` lead to from a new server.
use hyperbox.Prelude.{
  [], inr, false, sym, ◌∙◌, ℕ, Bool, Option, none, some, List, Text, AllEntries-lookup, nat_eq, ◌≡◌,
}
use hyperbox.Server.Runtime.Table.{IsEntry, empty-IsTable}
use hyperbox.Core.Error.{Result, ok, err, HyperboxError}
use hyperbox.Core.Config.{SandboxConfig, SandboxId, ExecRequest, ExecOutcome, FilePayload, Time}
use hyperbox.Core.Process.{is_terminal, ProcessInfo, ProcessId, ProcessDisposition, StreamName}
use hyperbox.Core.Snapshot.{SnapshotId}
use hyperbox.Server.Monad.{M, ◌>>=◌, pure, Preserves, Preserves-bind, Preserves-pure}
use hyperbox.Server.Environment.{Environment}
use hyperbox.Server.Probe.Settled.{IsSettled}
use hyperbox.Server.Store.{empty_store, get_process, create_snapshot}
use hyperbox.Server.Runtime.{World, new_with_snapshots}
use hyperbox.Server.Runtime.Sandboxes
use hyperbox.Server.Runtime.Sandboxes.{
  create_sandbox, exec, record_outcome, inspect, sandbox_config, read_file, write_file,
  store_snapshot, name_snapshot, config_of, restore_snapshot, list_snapshots, resolve_affinity,
}
use hyperbox.Server.Runtime.Runs.{
  StartRunRequest, start_process, prepare_run_sandbox, fetch_process,
}
use hyperbox.Server.Runtime.StartRun.{start_run}
use hyperbox.Server.Runtime.Watch.{list_processes, wait_process, cancel_process, read_process_log}
use hyperbox.Server.Runtime.Destroy.{destroy_sandbox, list_sandboxes}
use hyperbox.Server.Runtime.Consistency.{IsConsistent}
use hyperbox.Server.Runtime.Consistency.Sandboxes.{
  sandbox_rules, create_sandbox-IsConsistent, inspect-IsConsistent, sandbox_config-IsConsistent,
  restore_snapshot-IsConsistent, resolve_affinity-IsConsistent,
}
use hyperbox.Server.Runtime.Consistency.Runs.{
  start_process-IsConsistent, prepare_run_sandbox-IsConsistent, start_run-IsConsistent,
}
use hyperbox.Server.Runtime.Consistency.Watch.{
  list_processes-IsConsistent, wait_process-IsConsistent, cancel_process-IsConsistent,
  read_process_log-IsConsistent, destroy_sandbox-IsConsistent, list_sandboxes-IsConsistent,
  fetch_process-IsConsistent,
}

-- A call of a public method, with its arguments, and the fuel of those that poll.
pub data Call : Type 0 where
  creating : SandboxConfig → Call
  executing : SandboxId → ExecRequest → Call
  inspecting asking_config : SandboxId → Call
  reading : SandboxId → Text → Call
  writing : SandboxId → FilePayload → Call
  snapshotting : SandboxId → Option Text → Call
  restoring : SnapshotId → Call
  listing_snapshots : Text → Call
  resolving : Text → Bool → Call
  preparing : SandboxId → Option SandboxConfig → Call
  starting_process : SandboxId → List Text → Option SandboxId → ProcessDisposition → Bool → Call
  starting_run : StartRunRequest → Call
  getting : ProcessId → Call
  listing_processes listing_sandboxes : Call
  waiting : ℕ → ProcessId → ℕ → Call
  cancelling : ℕ → ProcessId → Call
  reading_log : ProcessId → StreamName → ℕ → ℕ → Call
  destroying : ℕ → SandboxId → Call

module _ {S : Type 0} (env : Environment S) where
  abbrev quiet : {A : Type 0} → M (World S) A → M (World S) (Unit {0})
  quiet m = m >>= λ _. pure tt

  unfoldable pub perform : Call → M (World S) (Unit {0})
  perform (creating config) = quiet (create_sandbox env config)
  perform (executing id request) = quiet (exec env id request)
  perform (inspecting id) = quiet (inspect env id)
  perform (asking_config id) = quiet (sandbox_config env id)
  perform (reading id path) = quiet (read_file env id path)
  perform (writing id payload) = write_file env id payload
  perform (snapshotting id note) = quiet (Sandboxes.create_snapshot env id note)
  perform (restoring id) = quiet (restore_snapshot env id)
  perform (listing_snapshots template) = quiet (list_snapshots env template)
  perform (resolving name restore) = quiet (resolve_affinity env name restore)
  perform (preparing id config) = quiet (prepare_run_sandbox env id config)
  perform (starting_process id command requested disposition destroy) =
      quiet (start_process env id command requested disposition destroy)
  perform (starting_run request) = quiet (start_run env request)
  perform (getting id) = quiet (fetch_process env id)
  perform listing_processes = quiet (list_processes env)
  perform listing_sandboxes = quiet (list_sandboxes env)
  perform (waiting fuel id timeout_secs) = quiet (wait_process env fuel id timeout_secs)
  perform (cancelling fuel id) = quiet (cancel_process env fuel id)
  perform (reading_log id stream offset limit) = quiet (read_process_log env id stream offset limit)
  perform (destroying fuel id) = destroy_sandbox env fuel id

  pub data Reachable : World S → Type 0 where
    new : (s : S) → Reachable (new_with_snapshots s empty_store)
    after : (w : World S) (call : Call) → Reachable w → Reachable (perform call w).1

  quiet-IsConsistent :
      {A : Type 0} (m : M (World S) A)
      → Preserves (IsConsistent []) m
      → Preserves (IsConsistent []) (quiet m)
  quiet-IsConsistent m k = Preserves-bind _ _ k λ _. Preserves-pure tt

  record_outcome-IsConsistent :
      (r : Result HyperboxError ExecOutcome) → Preserves (IsConsistent []) (record_outcome env r)
  unfolding record_outcome
  record_outcome-IsConsistent (ok o) = search sandbox_rules
  record_outcome-IsConsistent (err e) = search sandbox_rules

  exec-IsConsistent :
      (id : SandboxId) (r : ExecRequest) → Preserves (IsConsistent []) (exec env id r)
  unfolding exec
  exec-IsConsistent id r = search (sandbox_rules, record_outcome-IsConsistent)

  read_file-IsConsistent :
      (id : SandboxId) (path : Text) → Preserves (IsConsistent []) (read_file env id path)
  unfolding read_file
  read_file-IsConsistent id path = search sandbox_rules

  write_file-IsConsistent :
      (id : SandboxId) (p : FilePayload) → Preserves (IsConsistent []) (write_file env id p)
  unfolding write_file
  write_file-IsConsistent id p = search sandbox_rules

  list_snapshots-IsConsistent :
      (template : Text) → Preserves (IsConsistent []) (list_snapshots env template)
  unfolding list_snapshots
  list_snapshots-IsConsistent template = search sandbox_rules

  store_snapshot-IsConsistent :
      (id : SandboxId) (c : SandboxConfig) (note : Option Text) (snapshot : SnapshotId)
      (time : Time)
      → Preserves (IsConsistent []) (store_snapshot env id c note snapshot time)
  unfolding store_snapshot create_snapshot
  store_snapshot-IsConsistent id c text snapshot time = record {
    holds_at = λ w h. record { table = h.table };
  }

  name_snapshot-IsConsistent :
      (o : Option Text) (id : SnapshotId) → Preserves (IsConsistent []) (name_snapshot env o id)
  unfolding name_snapshot
  name_snapshot-IsConsistent none id = search sandbox_rules
  name_snapshot-IsConsistent (some name) id = search sandbox_rules

  config_of-IsConsistent : (id : SandboxId) → Preserves (IsConsistent []) (config_of env id)
  unfolding config_of
  config_of-IsConsistent id = record { holds_at = λ w h. h }

  create_snapshot-IsConsistent :
      (id : SandboxId) (note : Option Text)
      → Preserves (IsConsistent []) (Sandboxes.create_snapshot env id note)
  unfolding Sandboxes.create_snapshot
  create_snapshot-IsConsistent id text =
      search
        (
          sandbox_rules, config_of-IsConsistent, store_snapshot-IsConsistent,
          name_snapshot-IsConsistent,
        )
        depth 12

  perform-IsConsistent : (call : Call) → Preserves (IsConsistent []) (perform call)
  unfolding perform
  perform-IsConsistent (creating config) =
      quiet-IsConsistent _ (create_sandbox-IsConsistent env config)
  perform-IsConsistent (executing id request) = quiet-IsConsistent _ (exec-IsConsistent id request)
  perform-IsConsistent (inspecting id) = quiet-IsConsistent _ (inspect-IsConsistent env id)
  perform-IsConsistent (asking_config id) =
      quiet-IsConsistent _ (sandbox_config-IsConsistent env id)
  perform-IsConsistent (reading id path) = quiet-IsConsistent _ (read_file-IsConsistent id path)
  perform-IsConsistent (writing id payload) = write_file-IsConsistent id payload
  perform-IsConsistent (snapshotting id note) =
      quiet-IsConsistent _ (create_snapshot-IsConsistent id note)
  perform-IsConsistent (restoring id) = quiet-IsConsistent _ (restore_snapshot-IsConsistent env id)
  perform-IsConsistent (listing_snapshots template) =
      quiet-IsConsistent _ (list_snapshots-IsConsistent template)
  perform-IsConsistent (resolving name restore) =
      quiet-IsConsistent _ (resolve_affinity-IsConsistent env name restore)
  perform-IsConsistent (preparing id config) =
      quiet-IsConsistent _ (prepare_run_sandbox-IsConsistent env id config)
  perform-IsConsistent (starting_process id command requested disposition destroy) =
      quiet-IsConsistent _ (start_process-IsConsistent env id command requested disposition destroy)
  perform-IsConsistent (starting_run request) =
      quiet-IsConsistent _ (start_run-IsConsistent env request)
  perform-IsConsistent (getting id) = quiet-IsConsistent _ (fetch_process-IsConsistent env id)
  perform-IsConsistent listing_processes = quiet-IsConsistent _ (list_processes-IsConsistent env)
  perform-IsConsistent listing_sandboxes = quiet-IsConsistent _ (list_sandboxes-IsConsistent env)
  perform-IsConsistent (waiting fuel id timeout_secs) =
      quiet-IsConsistent _ (wait_process-IsConsistent env fuel id timeout_secs)
  perform-IsConsistent (cancelling fuel id) =
      quiet-IsConsistent _ (cancel_process-IsConsistent env fuel id)
  perform-IsConsistent (reading_log id stream offset limit) =
      quiet-IsConsistent _ (read_process_log-IsConsistent env id stream offset limit)
  perform-IsConsistent (destroying fuel id) = destroy_sandbox-IsConsistent env fuel id

  Reachable-IsConsistent : (w : World S) → Reachable w → IsConsistent [] w
  Reachable-IsConsistent _ (new s) = record { table = empty-IsTable }
  Reachable-IsConsistent _ (after w call r) =
      (perform-IsConsistent call).holds_at w (Reachable-IsConsistent w r)

  -- In every state that the server's methods lead to from a new server, calls that fail among them,
  -- each record of the process table stands under its own identifier, and it has an end and an
  -- expiry exactly if its status is terminal.
  pub Reachable-entry :
      (w : World S) (k : ProcessId) (p : ProcessInfo)
      → Reachable w
      → get_process w.store k ≡ some p
      → (p.id ≡ k) × IsSettled p
  unfolding get_process
  Reachable-entry w k p r h =
      AllEntries-lookup IsEntry k p w.store.processes (Reachable-IsConsistent w r).table.entries h

  -- In every state that the server's methods lead to from a new server, calls that fail among them,
  -- a sandbox has one live process at most: two live records of one sandbox are the same entry of
  -- the process table.
  pub Reachable-exclusive :
      (w : World S) (k j : ProcessId) (p q : ProcessInfo)
      → Reachable w
      → get_process w.store k ≡ some p
      → get_process w.store j ≡ some q
      → is_terminal p.status ≡ false
      → is_terminal q.status ≡ false
      → p.sandbox_id ≡ q.sandbox_id
      → k ≡ j
  unfolding get_process
  Reachable-exclusive w k j p q r g h a b s =
      let table = (Reachable-IsConsistent w r).table in
      sym (Reachable-entry w k p r g).0
      ∙ (table.exclusive p q (inr (k, g)) (inr (j, h))).one a b s
      ∙ (Reachable-entry w j q r h).0
