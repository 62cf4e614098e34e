-- ===== src/Server/Runtime/Waiting/Readings.antt =====
-- No method of crates/hyperbox-server/src/runtime.rs sets the clock back: the count of its readings
-- does not fall.
use hyperbox.Prelude.{ℕ, ◌≤◌, Bool, List, [], ◌∷◌, arith}
use hyperbox.Core.Error.{Result, ok, err, HyperboxError, sandbox_not_found}
use hyperbox.Core.Config.{SandboxConfig, SandboxId, SandboxInfo, ExecOutcome, ExecRequest, Time}
use hyperbox.Core.Process.{ProcessInfo, ProcessId}
use hyperbox.Core.Snapshot.{ActiveSandboxRecord}
use hyperbox.Server.Monad.{Preserves, preserves_rules, Preserves-bind, Preserves-if, Preserves-pure}
use hyperbox.Server.Environment.{Environment}
use hyperbox.Server.Store.{SnapshotStore}
use hyperbox.Server.Runtime.{
  World, on_backend, on_store, put_sandbox, drop_sandbox, set_hydrated, now, instant_now, exec_in,
  inspect_in,
}
use hyperbox.Server.Runtime.Processes.{
  store_if_changed, apply_probe, refresh_process, forget_sandbox, destroy_owned, remove_files,
  purge_sandbox, purge_process, cleanup_each, cleanup_expired_processes,
}
use hyperbox.Server.Runtime.Sandboxes.{hydrate_one, hydrate_all, hydrate, ensure_hydrated}
use hyperbox.Server.Runtime.Runs.{get_process_of, fetch_process}
use hyperbox.Server.Runtime.Watch.{pause_by_elapsed, pause_fixed}

-- At least `k` readings were made.
pub record HasRead {S : Type 0} (k : ℕ) (w : World S) : Type 0 where
  pub read : k ≤ w.readings

module _ {S : Type 0} {k : ℕ} where
  on_backend-HasRead :
      {A : Type 0} (f : S → Result HyperboxError A × S) → Preserves (HasRead k) (on_backend f)
  unfolding on_backend
  on_backend-HasRead f = record { holds_at = λ w h. record { read = h.read } }

  on_store-HasRead :
      (f : SnapshotStore → SnapshotStore) → Preserves (HasRead {S = S} k) (on_store f)
  unfolding on_store
  on_store-HasRead f = record { holds_at = λ w h. record { read = h.read } }

  put_sandbox-HasRead :
      (id : SandboxId) (c : SandboxConfig) → Preserves (HasRead {S = S} k) (put_sandbox id c)
  unfolding put_sandbox
  put_sandbox-HasRead id c = record { holds_at = λ w h. record { read = h.read } }

  drop_sandbox-HasRead : (id : SandboxId) → Preserves (HasRead {S = S} k) (drop_sandbox id)
  unfolding drop_sandbox
  drop_sandbox-HasRead id = record { holds_at = λ w h. record { read = h.read } }

  set_hydrated-HasRead : Preserves (HasRead {S = S} k) set_hydrated
  unfolding set_hydrated
  set_hydrated-HasRead = record { holds_at = λ w h. record { read = h.read } }

module _ {S : Type 0} (env : Environment S) {k : ℕ} where
  now-HasRead : Preserves (HasRead k) (now env)
  unfolding now
  now-HasRead = record { holds_at = λ w h. record { read = omega arith } }

  instant_now-HasRead : Preserves (HasRead k) (instant_now env)
  unfolding instant_now
  instant_now-HasRead = record { holds_at = λ w h. record { read = omega arith } }

  get_process_of-HasRead : (id : ProcessId) → Preserves (HasRead k) (get_process_of env id)
  unfolding get_process_of
  get_process_of-HasRead id = record { holds_at = λ w h. record { read = h.read } }

ruleset readings_rules = (
  preserves_rules, on_backend-HasRead, on_store-HasRead, put_sandbox-HasRead, drop_sandbox-HasRead,
  set_hydrated-HasRead, now-HasRead, instant_now-HasRead, get_process_of-HasRead,
)

module _ {S : Type 0} (env : Environment S) {k : ℕ} where
  exec_in-HasRead : (id : SandboxId) (r : ExecRequest) → Preserves (HasRead k) (exec_in env id r)
  unfolding exec_in
  exec_in-HasRead id r = search readings_rules

  inspect_in-HasRead : (id : SandboxId) → Preserves (HasRead k) (inspect_in env id)
  unfolding inspect_in
  inspect_in-HasRead id = search readings_rules

  store_if_changed-HasRead :
      (p q : ProcessInfo) → Preserves (HasRead {S = S} k) (store_if_changed p q)
  unfolding store_if_changed
  store_if_changed-HasRead p q = search readings_rules

  apply_probe-HasRead :
      (p : ProcessInfo) (o : ExecOutcome) → Preserves (HasRead k) (apply_probe env p o)
  unfolding apply_probe
  apply_probe-HasRead p o = search (readings_rules, store_if_changed-HasRead)

  refresh_process-HasRead : (p : ProcessInfo) → Preserves (HasRead k) (refresh_process env p)
  unfolding refresh_process
  refresh_process-HasRead p = search (readings_rules, exec_in-HasRead, apply_probe-HasRead)

  forget_sandbox-HasRead : (id : SandboxId) → Preserves (HasRead k) (forget_sandbox env id)
  unfolding forget_sandbox
  forget_sandbox-HasRead id = search readings_rules

  destroy_owned-HasRead : (id : SandboxId) → Preserves (HasRead k) (destroy_owned env id)
  unfolding destroy_owned
  destroy_owned-HasRead id = search (readings_rules, forget_sandbox-HasRead)

  remove_files-HasRead : (p : ProcessInfo) → Preserves (HasRead k) (remove_files env p)
  unfolding remove_files
  remove_files-HasRead p = search (readings_rules, exec_in-HasRead)

  purge_sandbox-HasRead :
      (p : ProcessInfo) (r : Result HyperboxError SandboxInfo)
      → Preserves (HasRead k) (purge_sandbox env p r)
  unfolding purge_sandbox
  purge_sandbox-HasRead p (ok i) =
      search (readings_rules, destroy_owned-HasRead, remove_files-HasRead)
  purge_sandbox-HasRead p (err (sandbox_not_found m)) =
      search (readings_rules, forget_sandbox-HasRead)
  purge_sandbox-HasRead p (err e) = search readings_rules

  purge_process-HasRead : (p : ProcessInfo) → Preserves (HasRead k) (purge_process env p)
  unfolding purge_process
  purge_process-HasRead p = search (readings_rules, inspect_in-HasRead, purge_sandbox-HasRead)

  cleanup_each-HasRead :
      (t : Time) (l : List ProcessInfo) → Preserves (HasRead k) (cleanup_each env t l)
  unfolding cleanup_each
  cleanup_each-HasRead t [] = search readings_rules
  cleanup_each-HasRead t (p ∷ l) =
      Preserves-bind _ _
        (Preserves-if _ _ _ (λ _. purge_process-HasRead p) (λ _. Preserves-pure tt))
        λ _. cleanup_each-HasRead t l

  cleanup_expired_processes-HasRead : Preserves (HasRead k) (cleanup_expired_processes env)
  unfolding cleanup_expired_processes
  cleanup_expired_processes-HasRead = search (readings_rules, cleanup_each-HasRead)

  hydrate_one-HasRead :
      (r : ActiveSandboxRecord) (b : Bool) (o : Result HyperboxError SandboxInfo)
      → Preserves (HasRead k) (hydrate_one env r b o)
  unfolding hydrate_one
  hydrate_one-HasRead r b (ok i) = search readings_rules
  hydrate_one-HasRead r b (err (sandbox_not_found m)) = search readings_rules
  hydrate_one-HasRead r b (err e) = search readings_rules

  hydrate_all-HasRead :
      (l : List ActiveSandboxRecord) (b : Bool) → Preserves (HasRead k) (hydrate_all env l b)
  unfolding hydrate_all
  hydrate_all-HasRead [] b = search readings_rules
  hydrate_all-HasRead (r ∷ l) b =
      search (readings_rules, inspect_in-HasRead, hydrate_one-HasRead, hydrate_all-HasRead l)

  hydrate-HasRead : Preserves (HasRead k) (hydrate env)
  unfolding hydrate
  hydrate-HasRead = search (readings_rules, hydrate_all-HasRead)

  pub ensure_hydrated-HasRead : Preserves (HasRead k) (ensure_hydrated env)
  unfolding ensure_hydrated
  ensure_hydrated-HasRead = search (readings_rules, hydrate-HasRead)

  pub fetch_process-HasRead : (id : ProcessId) → Preserves (HasRead k) (fetch_process env id)
  unfolding fetch_process
  fetch_process-HasRead id =
      search
        (
          readings_rules, ensure_hydrated-HasRead, cleanup_expired_processes-HasRead,
          refresh_process-HasRead,
        )
        depth 12

  pub pause_by_elapsed-HasRead : Preserves (HasRead k) (pause_by_elapsed env)
  unfolding pause_by_elapsed
  pause_by_elapsed-HasRead = search readings_rules

  pub pause_fixed-HasRead : Preserves (HasRead k) (pause_fixed env)
  unfolding pause_fixed
  pause_fixed-HasRead = search preserves_rules
