-- ===== src/Server/Runtime/Consistency.antt =====
-- A consistent process table: every record stands under its own identifier, and its end and expiry
-- are set exactly if it has ended.
pub mod Processes
pub mod Sandboxes
pub mod Runs
pub mod Watch
pub mod Reachable
use hyperbox.Prelude.{
  inl, List, false, ◌≡◌, ℕ, Bool, true, false, Option, none, some, List, [], ◌∷◌, Text, All,
  AllEntries, AllEntries-insert, AllEntries-remove, AllEntries-lookup, All-values, nat_eq, nat_beq,
  values, insert, remove, lookup, ◌≡◌, refl, arith, trim, if◌then◌else◌, Assoc, Bool-cases, inl,
  inr, is_some, leb, sym, ap, ◌∙◌,
}
use hyperbox.Server.Runtime.Table.{InList, IsTable, insert-IsTable, remove-IsTable}
use hyperbox.Core.Error.{Result, ok, err, HyperboxError, sandbox_not_found}
use hyperbox.Core.Config.{SandboxConfig, SandboxId, SandboxInfo, ExecOutcome, Time}
use hyperbox.Core.Process.{ProcessInfo, ProcessId, is_terminal, ProcessInfo-discrete}
use hyperbox.Server.Monad.{
  M, ◌>>=◌, ◌>>◌, pure, throw, lift, gets, attempt, Preserves, preserves_rules, Preserves-bind,
  Preserves-if, Preserves-pure, Preserves-gets, continue,
}
use hyperbox.Server.Environment.{Environment, Backend}
use hyperbox.Server.Scripts.{process_expiry_at}
use hyperbox.Server.Probe.{parse_process_probe}
use hyperbox.Server.Probe.Settled.{
  IsSettled, parse_process_probe-IsSettled, parse_process_probe_ids,
}
use hyperbox.Server.Metrics.{MetricsCollector}
use hyperbox.Server.Store.{
  SnapshotStore, bind_sandbox, clear_sandbox_binding, remove_active_sandbox, upsert_active_sandbox,
  set_affinity_snapshot, list_processes, upsert_process, remove_process, get_process,
}
use hyperbox.Server.Runtime.{
  World, on_backend, on_store, put_sandbox, drop_sandbox, set_hydrated, on_metrics, now,
  instant_now, new_uuid, exec_in, inspect_in,
}
use hyperbox.Server.Runtime.Processes.{
  store_if_changed, apply_probe, refresh_process, forget_sandbox, destroy_owned, remove_files,
  purge_sandbox, purge_process, cleanup_each, cleanup_expired_processes, active_among,
  active_process_for_sandbox,
}

-- The table of a state is in order, beside the records `l` that a method holds.
pub record IsConsistent {S : Type 0} (l : List ProcessInfo) (w : World S) : Type 0 where
  pub table : IsTable l w.store.processes

-- A write to the store that keeps the table in order.
abbrev pub PreservesTable : List ProcessInfo → (SnapshotStore → SnapshotStore) → Type 0
PreservesTable l f = (s : SnapshotStore) → IsTable l s.processes → IsTable l (f s).processes

module _ {S : Type 0} {l : List ProcessInfo} where
  pub on_store-IsConsistent :
      (f : SnapshotStore → SnapshotStore)
      → PreservesTable l f
      → Preserves {W = World S} (IsConsistent l) (on_store f)
  unfolding on_store
  on_store-IsConsistent f k = record { holds_at = λ w h. record { table = k w.store h.table } }

  -- The calls that do not touch the store.
  pub on_backend-IsConsistent :
      {A : Type 0} (call : S → Result HyperboxError A × S)
      → Preserves (IsConsistent l) (on_backend call)
  unfolding on_backend
  on_backend-IsConsistent call = record { holds_at = λ w h. record { table = h.table } }

  pub put_sandbox-IsConsistent :
      (id : SandboxId) (c : SandboxConfig)
      → Preserves {W = World S} (IsConsistent l) (put_sandbox id c)
  unfolding put_sandbox
  put_sandbox-IsConsistent id c = record { holds_at = λ w h. record { table = h.table } }

  pub drop_sandbox-IsConsistent :
      (id : SandboxId) → Preserves {W = World S} (IsConsistent l) (drop_sandbox id)
  unfolding drop_sandbox
  drop_sandbox-IsConsistent id = record { holds_at = λ w h. record { table = h.table } }

  pub now-IsConsistent : (env : Environment S) → Preserves (IsConsistent l) (now env)
  unfolding now
  now-IsConsistent env = record { holds_at = λ w h. record { table = h.table } }

  pub instant_now-IsConsistent :
      (env : Environment S) → Preserves (IsConsistent l) (instant_now env)
  unfolding instant_now
  instant_now-IsConsistent env = record { holds_at = λ w h. record { table = h.table } }

  pub new_uuid-IsConsistent : (env : Environment S) → Preserves (IsConsistent l) (new_uuid env)
  unfolding new_uuid
  new_uuid-IsConsistent env = record { holds_at = λ w h. record { table = h.table } }

  pub set_hydrated-IsConsistent : Preserves {W = World S} (IsConsistent l) set_hydrated
  unfolding set_hydrated
  set_hydrated-IsConsistent = record { holds_at = λ w h. record { table = h.table } }

  pub on_metrics-IsConsistent :
      (f : MetricsCollector → MetricsCollector)
      → Preserves {W = World S} (IsConsistent l) (on_metrics f)
  unfolding on_metrics
  on_metrics-IsConsistent f = record { holds_at = λ w h. record { table = h.table } }

-- The writes of the store that leave the process table alone.
module _ {l : List ProcessInfo} where
  pub bind_sandbox-PreservesTable :
      (time : Time) (name : Text) (id : SandboxId)
      → PreservesTable l (λ s. bind_sandbox s time name id)
  unfolding bind_sandbox
  bind_sandbox-PreservesTable time name id s h = h

  pub clear_sandbox_binding-PreservesTable :
      (time : Time) (id : SandboxId) → PreservesTable l (λ s. clear_sandbox_binding s time id)
  unfolding clear_sandbox_binding
  clear_sandbox_binding-PreservesTable time id s h = h

  pub remove_active_sandbox-PreservesTable :
      (id : SandboxId) → PreservesTable l (λ s. remove_active_sandbox s id)
  unfolding remove_active_sandbox
  remove_active_sandbox-PreservesTable id s h = h

  pub upsert_active_sandbox-PreservesTable :
      (id : SandboxId) (c : SandboxConfig) (time : Time)
      → PreservesTable l (λ s. upsert_active_sandbox s id c time)
  unfolding upsert_active_sandbox
  upsert_active_sandbox-PreservesTable id c time s h = h

  pub set_affinity_snapshot-PreservesTable :
      (time : Time) (name : Text) (id : ℕ)
      → PreservesTable l (λ s. set_affinity_snapshot s time name id)
  unfolding set_affinity_snapshot
  set_affinity_snapshot-PreservesTable time name id s h = h

  -- The two that write it.
  pub upsert_process-PreservesTable :
      (p q : ProcessInfo)
      → InList p l
      → is_terminal p.status ≡ false
      → q.id ≡ p.id
      → q.sandbox_id ≡ p.sandbox_id
      → IsSettled q
      → PreservesTable l (λ s. upsert_process s q)
  unfolding upsert_process
  upsert_process-PreservesTable p q i alive id sandbox settled s t =
      insert-IsTable l s.processes p q (inl i) alive id sandbox settled t

  pub remove_process-PreservesTable : (id : ProcessId) → PreservesTable l (λ s. remove_process s id)
  unfolding remove_process
  remove_process-PreservesTable id s t = remove-IsTable l s.processes id t

pub ruleset consistency_rules = (
  preserves_rules, on_store-IsConsistent, on_backend-IsConsistent, put_sandbox-IsConsistent,
  drop_sandbox-IsConsistent, now-IsConsistent, instant_now-IsConsistent, new_uuid-IsConsistent,
  set_hydrated-IsConsistent, on_metrics-IsConsistent, bind_sandbox-PreservesTable,
  clear_sandbox_binding-PreservesTable, remove_active_sandbox-PreservesTable,
  upsert_active_sandbox-PreservesTable, set_affinity_snapshot-PreservesTable,
  remove_process-PreservesTable,
)
