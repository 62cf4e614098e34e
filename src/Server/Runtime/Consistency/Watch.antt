-- ===== src/Server/Runtime/Consistency/Watch.antt =====
-- The process table under the methods for watching and ending processes.
use hyperbox.Prelude.{
  ℕ, zero, suc, Option, none, some, List, [], ◌∷◌, Text, Assoc, lookup, inl, inr, ◌≡◌, refl, nat_eq,
  leb,
}
use hyperbox.Server.Runtime.Table.{
  InList, InList-left, InList-keep, Known, more-IsTable, fewer-IsTable,
}
use hyperbox.Core.Error.{ok_or}
use hyperbox.Core.Config.{SandboxConfig, SandboxId}
use hyperbox.Core.Process.{ProcessInfo, ProcessId, StreamName, is_terminal}
use hyperbox.Server.Monad.{
  M, ◌>>=◌, Preserves, Preserves-bind, Preserves-if, Preserves-pure, Preserves-throw,
  Preserves-attempt, continue,
}
use hyperbox.Server.Environment.{Environment}
use hyperbox.Server.Scripts.{process_not_found}
use hyperbox.Server.Store
use hyperbox.Server.Runtime.{World}
use hyperbox.Server.Runtime.Runs.{get_process_of, fetch_process}
use hyperbox.Server.Runtime.Watch.{
  refresh_each, list_processes, poll, pause_by_elapsed, pause_fixed, wait_process, cancel_running,
  cancel_process, read_log_size, read_chunk, read_past_end, read_process_log, path_of,
}
use hyperbox.Server.Runtime.Destroy.{
  end_process, end_each, destroy_sandbox, inspect_each, list_sandboxes,
}
use hyperbox.Server.Runtime.Consistency.{IsConsistent, instant_now-IsConsistent}
use hyperbox.Server.Runtime.Consistency.Processes.{
  process_rules, Preserves-bind-listed, refresh_process-IsConsistent,
  cleanup_expired_processes-IsConsistent, purge_process-IsConsistent, inspect_in-IsConsistent,
}
use hyperbox.Server.Runtime.Consistency.Sandboxes.{sandbox_rules, ensure_hydrated-IsConsistent}

module _ {S : Type 0} (env : Environment S) {held : List ProcessInfo} where
  refresh_each-IsConsistent :
      (l : List ProcessInfo)
      → ((p : ProcessInfo) → InList p l → InList p held)
      → Preserves (IsConsistent held) (refresh_each env l)
  unfolding refresh_each
  refresh_each-IsConsistent [] sub = search process_rules
  refresh_each-IsConsistent (p ∷ l) sub =
      Preserves-bind _ _
        (Preserves-attempt _ (refresh_process-IsConsistent env p (sub p (inl refl))))
        λ r.
          Preserves-bind _ _ (refresh_each-IsConsistent l (λ q i. sub q (inr i)))
            λ others. Preserves-pure _

module _ {S : Type 0} (env : Environment S) {held : List ProcessInfo} where
  pub list_processes-IsConsistent : Preserves (IsConsistent held) (list_processes env)
  unfolding list_processes
  list_processes-IsConsistent = Preserves-bind _ _ (ensure_hydrated-IsConsistent env) λ _.
      Preserves-bind _ _ (cleanup_expired_processes-IsConsistent env) λ _.
        Preserves-bind-listed _ _ (λ w p i. i)
          λ read.
            Preserves-bind _ _
              (refresh_each-IsConsistent env read (λ p i. InList-left p read held i))
              λ l. Preserves-pure _

  -- A method may hold the record that it finds in the table.
  Preserves-bind-found :
      {A : Type 0} (id : ProcessId) (f : ProcessInfo → M (World S) A)
      → ((p : ProcessInfo) → Preserves (IsConsistent (p ∷ held)) (f p))
      → Preserves (IsConsistent held) (get_process_of env id >>= f)
  unfolding get_process_of ◌>>=◌ Store.get_process
  Preserves-bind-found id f k = record {
    holds_at = λ w c. by_lookup w c (lookup id w.store.processes) refl;
  }
    where
      known :
          (w : World S) (p : ProcessInfo)
          → lookup id w.store.processes ≡ some p
          → (q : ProcessInfo) → InList q (p ∷ held)
          → Known held w.store.processes q
      known w p e q (inl same) = inr (id, rw same e)
      known w p e q (inr i) = inl i

      by_lookup :
          (w : World S)
          → IsConsistent held w
          → (o : Option ProcessInfo) → lookup id w.store.processes ≡ o
          → IsConsistent held (continue (ok_or o (process_not_found env id)) f w).1
      by_lookup w c none e = c
      by_lookup w c (some p) e =
          let more : IsConsistent (p ∷ held) w = record {
            table = more-IsTable held (p ∷ held) w.store.processes (known w p e) c.table;
          } in
          record {
            table = fewer-IsTable (p ∷ held) held _ (λ q i. inr i) ((k p).holds_at w more).table;
          }

module _ {S : Type 0} (env : Environment S) {held : List ProcessInfo} where
  pub fetch_process-IsConsistent :
      (id : ProcessId) → Preserves (IsConsistent held) (fetch_process env id)
  unfolding fetch_process
  fetch_process-IsConsistent id = Preserves-bind _ _ (ensure_hydrated-IsConsistent env) λ _.
      Preserves-bind _ _ (cleanup_expired_processes-IsConsistent env)
        λ _. Preserves-bind-found env id _ λ p. refresh_process-IsConsistent env p (inl refl)

  poll-IsConsistent :
      (pause : M (World S) (Unit {0})) (doing : Text) (id : ProcessId) (deadline fuel : ℕ)
      → Preserves (IsConsistent held) pause
      → Preserves (IsConsistent held) (poll env pause doing id deadline fuel)
  unfolding poll
  poll-IsConsistent pause doing id deadline zero k = search process_rules
  poll-IsConsistent pause doing id deadline (suc fuel) k =
      let more = poll-IsConsistent pause doing id deadline fuel k in
      Preserves-bind _ _ (fetch_process-IsConsistent id) λ p.
        Preserves-if (is_terminal p.status) _ _ (λ _. Preserves-pure _)
          λ _. Preserves-bind _ _ (instant_now-IsConsistent env) λ i.
            Preserves-if (leb deadline i) _ _ (λ _. Preserves-throw _)
              λ _. Preserves-bind _ _ k λ _. more

  pause_by_elapsed-IsConsistent : Preserves (IsConsistent held) (pause_by_elapsed env)
  unfolding pause_by_elapsed
  pause_by_elapsed-IsConsistent = search process_rules

  pause_fixed-IsConsistent : Preserves (IsConsistent held) (pause_fixed env)
  unfolding pause_fixed
  pause_fixed-IsConsistent = search process_rules

  pub wait_process-IsConsistent :
      (fuel : ℕ) (id : ProcessId) (timeout_secs : ℕ)
      → Preserves (IsConsistent held) (wait_process env fuel id timeout_secs)
  unfolding wait_process
  wait_process-IsConsistent fuel id timeout_secs =
      search (sandbox_rules, poll-IsConsistent, pause_by_elapsed-IsConsistent)

  cancel_running-IsConsistent :
      (fuel : ℕ) (p : ProcessInfo) → Preserves (IsConsistent held) (cancel_running env fuel p)
  unfolding cancel_running
  cancel_running-IsConsistent fuel p =
      search (process_rules, poll-IsConsistent, pause_fixed-IsConsistent)

  pub cancel_process-IsConsistent :
      (fuel : ℕ) (id : ProcessId) → Preserves (IsConsistent held) (cancel_process env fuel id)
  unfolding cancel_process
  cancel_process-IsConsistent fuel id =
      search (sandbox_rules, fetch_process-IsConsistent, cancel_running-IsConsistent)

  read_log_size-IsConsistent :
      (id : SandboxId) (path : Text) → Preserves (IsConsistent held) (read_log_size env id path)
  unfolding read_log_size
  read_log_size-IsConsistent id path = search process_rules

  read_chunk-IsConsistent :
      (id : SandboxId) (path : Text) (stream : StreamName) (offset limit total : ℕ)
      → Preserves (IsConsistent held) (read_chunk env id path stream offset limit total)
  unfolding read_chunk
  read_chunk-IsConsistent id path stream offset limit total = search process_rules

  read_past_end-IsConsistent :
      (p : ProcessInfo) (path : Text) (stream : StreamName) (offset limit : ℕ)
      → InList p held
      → Preserves (IsConsistent held) (read_past_end env p path stream offset limit)
  unfolding read_past_end
  read_past_end-IsConsistent p path stream offset limit i =
      Preserves-bind _ _ (refresh_process-IsConsistent env p i)
        λ q. search (process_rules, read_log_size-IsConsistent, read_chunk-IsConsistent)

module _ {S : Type 0} (env : Environment S) {held : List ProcessInfo} where
  pub read_process_log-IsConsistent :
      (id : ProcessId) (stream : StreamName) (offset limit : ℕ)
      → Preserves (IsConsistent held) (read_process_log env id stream offset limit)
  unfolding read_process_log
  read_process_log-IsConsistent id stream offset limit =
      Preserves-bind _ _ (ensure_hydrated-IsConsistent env) λ _. Preserves-bind-found env id _ λ p.
        Preserves-bind _ _ (read_log_size-IsConsistent env p.sandbox_id (path_of env stream p)) λ n.
          Preserves-if (leb n offset) _ _
            (λ _.
              read_past_end-IsConsistent env p (path_of env stream p) stream offset limit
                (inl refl))
            (λ _.
              read_chunk-IsConsistent env p.sandbox_id (path_of env stream p) stream offset limit n)

  inspect_each-IsConsistent :
      (l : Assoc SandboxId SandboxConfig) → Preserves (IsConsistent held) (inspect_each env l)
  unfolding inspect_each
  inspect_each-IsConsistent [] = search process_rules
  inspect_each-IsConsistent ((id, c) ∷ l) =
      Preserves-bind _ _ (Preserves-attempt _ (inspect_in-IsConsistent env id))
        λ r. Preserves-bind _ _ (inspect_each-IsConsistent l) λ others. Preserves-pure _

  pub list_sandboxes-IsConsistent : Preserves (IsConsistent held) (list_sandboxes env)
  unfolding list_sandboxes
  list_sandboxes-IsConsistent = search (sandbox_rules, inspect_each-IsConsistent)

  end_process-IsConsistent :
      (fuel : ℕ) (p : ProcessInfo)
      → InList p held
      → Preserves (IsConsistent held) (end_process env fuel p)
  unfolding end_process
  end_process-IsConsistent fuel p i =
      Preserves-bind _ _ (refresh_process-IsConsistent env p i)
        λ q. search (process_rules, cancel_process-IsConsistent, purge_process-IsConsistent) depth 8

  end_each-IsConsistent :
      (fuel : ℕ) (l : List ProcessInfo)
      → ((p : ProcessInfo) → InList p l → InList p held)
      → Preserves (IsConsistent held) (end_each env fuel l)
  unfolding end_each
  end_each-IsConsistent fuel [] sub = search process_rules
  end_each-IsConsistent fuel (p ∷ l) sub =
      Preserves-bind _ _ (end_process-IsConsistent fuel p (sub p (inl refl)))
        λ _. end_each-IsConsistent fuel l (λ q i. sub q (inr i))

module _ {S : Type 0} (env : Environment S) {held : List ProcessInfo} where
  pub destroy_sandbox-IsConsistent :
      (fuel : ℕ) (id : SandboxId) → Preserves (IsConsistent held) (destroy_sandbox env fuel id)
  unfolding destroy_sandbox
  destroy_sandbox-IsConsistent fuel id = Preserves-bind _ _ (ensure_hydrated-IsConsistent env) λ _.
      Preserves-bind-listed _ _ (λ w p i. InList-keep _ p (Store.list_processes w.store) i)
        λ read.
          Preserves-bind _ _
            (end_each-IsConsistent env fuel read (λ p i. InList-left p read held i))
            λ _. search process_rules
