-- ===== src/Server/Runtime/Consistency/Processes.antt =====
-- The process table under the methods for the bookkeeping of processes.
use hyperbox.Prelude.{List, [], ◌∷◌, ◌++◌, nat_eq, ◌≡◌, refl, false, inl, inr, trim}
use hyperbox.Server.Runtime.Table.{
  InList, Known, more-IsTable, fewer-IsTable, values-Held, InList-append, InList-left, InList-right,
}
use hyperbox.Core.Error.{Result, ok, err, HyperboxError, sandbox_not_found}
use hyperbox.Core.Config.{SandboxId, SandboxInfo, ExecRequest, ExecOutcome, Time}
use hyperbox.Core.Process.{ProcessInfo}
use hyperbox.Server.Monad.{
  M, ◌>>=◌, gets, Preserves, Preserves-bind, Preserves-bind-gets, Preserves-if, Preserves-ite,
  Preserves-pure,
}
use hyperbox.Server.Environment.{Environment}
use hyperbox.Server.Scripts.{process_expiry_at}
use hyperbox.Server.Probe.{parse_process_probe}
use hyperbox.Server.Probe.Settled.{
  IsSettled, parse_process_probe-IsSettled, parse_process_probe_ids,
}
use hyperbox.Server.Store.{list_processes}
use hyperbox.Server.Runtime.{World, exec_in, inspect_in}
use hyperbox.Core.Process.{is_terminal, ProcessInfo-discrete}
use hyperbox.Server.Runtime.Processes.{
  is_zero, store_if_changed, apply_probe, refresh_process, forget_sandbox, destroy_owned,
  remove_files, purge_sandbox, purge_process, cleanup_each, cleanup_expired_processes, active_among,
  active_process_for_sandbox,
}
use hyperbox.Server.Runtime.Consistency.{
  IsConsistent, consistency_rules, now-IsConsistent, on_store-IsConsistent,
  upsert_process-PreservesTable,
}

store_if_changed-IsConsistent :
    {S : Type 0} {l : List ProcessInfo} (p q : ProcessInfo)
    → InList p l
    → is_terminal p.status ≡ false
    → q.id ≡ p.id
    → q.sandbox_id ≡ p.sandbox_id
    → IsSettled q
    → Preserves {W = World S} (IsConsistent l) (store_if_changed p q)
unfolding store_if_changed
store_if_changed-IsConsistent p q i alive id sandbox settled =
    let write = upsert_process-PreservesTable p q i alive id sandbox settled in
    Preserves-ite (ProcessInfo-discrete q p) _ _ (Preserves-pure q)
      (Preserves-bind _ _ (on_store-IsConsistent _ write) λ _. Preserves-pure q)

-- A method may hold what it reads from the table.
pub listed-IsConsistent :
    {S : Type 0} (l read : List ProcessInfo) (w : World S)
    → ((p : ProcessInfo) → InList p read → InList p (list_processes w.store))
    → IsConsistent l w
    → IsConsistent (read ++ l) w
unfolding list_processes
listed-IsConsistent l read w sub c = record {
  table = more-IsTable l (read ++ l) w.store.processes known c.table;
}
  where
    known : (p : ProcessInfo) → InList p (read ++ l) → Known l w.store.processes p
    known p i = elim (InList-append p read l i) [
      | inl j ↦ inr (values-Held w.store.processes c.table.entries c.table.distinct p (sub p j))
      | inr j ↦ inl j
    ]

pub Preserves-bind-listed :
    {S A : Type 0} {l : List ProcessInfo} (g : World S → List ProcessInfo)
    (f : List ProcessInfo → M (World S) A)
    → ((w : World S) (p : ProcessInfo) → InList p (g w) → InList p (list_processes w.store))
    → ((read : List ProcessInfo) → Preserves (IsConsistent (read ++ l)) (f read))
    → Preserves (IsConsistent l) (gets g >>= f)
Preserves-bind-listed {l = l} g f sub k = Preserves-bind-gets g f λ w c.
    let read = listed-IsConsistent l (g w) w (sub w) c in
    record {
      table =
          fewer-IsTable (g w ++ l) l _ (λ p i. InList-right p (g w) l i)
            ((k (g w)).holds_at w read).table;
    }

module _ {S : Type 0} (env : Environment S) {held : List ProcessInfo} where
  pub exec_in-IsConsistent :
      (id : SandboxId) (r : ExecRequest) → Preserves (IsConsistent held) (exec_in env id r)
  unfolding exec_in
  exec_in-IsConsistent id r = search consistency_rules

  pub inspect_in-IsConsistent : (id : SandboxId) → Preserves (IsConsistent held) (inspect_in env id)
  unfolding inspect_in
  inspect_in-IsConsistent id = search consistency_rules

  apply_probe-IsConsistent :
      (p : ProcessInfo) (o : ExecOutcome)
      → InList p held
      → is_terminal p.status ≡ false
      → IsSettled p
      → Preserves (IsConsistent held) (apply_probe env p o)
  unfolding apply_probe
  apply_probe-IsConsistent p o i alive settled =
      Preserves-if (is_zero o.exit_code) _ _
        (λ _. Preserves-bind _ _ (now-IsConsistent env) λ time.
          let q = parse_process_probe (process_expiry_at env) time p (trim o.stdout) in
          let ids = parse_process_probe_ids (process_expiry_at env) time p (trim o.stdout) in
          store_if_changed-IsConsistent p q i alive ids.0 ids.1
            (parse_process_probe-IsSettled (process_expiry_at env) time p (trim o.stdout) settled))
        (λ _. Preserves-pure p)

  -- A held record is settled as long as the table is in order.
  pub refresh_process-IsConsistent :
      (p : ProcessInfo) → InList p held → Preserves (IsConsistent held) (refresh_process env p)
  unfolding refresh_process
  refresh_process-IsConsistent p i = record {
    holds_at = λ w c. (of_settled (c.table.settled p i)).holds_at w c;
  }
    where
      of_settled : IsSettled p → Preserves (IsConsistent held) (refresh_process env p)
      of_settled settled =
          Preserves-if (is_terminal p.status) _ _ (λ _. Preserves-pure p)
            λ alive.
              Preserves-bind _ _ (exec_in-IsConsistent p.sandbox_id _)
                λ o. apply_probe-IsConsistent p o i alive settled

  pub forget_sandbox-IsConsistent :
      (id : SandboxId) → Preserves (IsConsistent held) (forget_sandbox env id)
  unfolding forget_sandbox
  forget_sandbox-IsConsistent id = search consistency_rules

  destroy_owned-IsConsistent :
      (id : SandboxId) → Preserves (IsConsistent held) (destroy_owned env id)
  unfolding destroy_owned
  destroy_owned-IsConsistent id = search (consistency_rules, forget_sandbox-IsConsistent)

  remove_files-IsConsistent : (p : ProcessInfo) → Preserves (IsConsistent held) (remove_files env p)
  unfolding remove_files
  remove_files-IsConsistent p = search (consistency_rules, exec_in-IsConsistent)

  purge_sandbox-IsConsistent :
      (p : ProcessInfo) (r : Result HyperboxError SandboxInfo)
      → Preserves (IsConsistent held) (purge_sandbox env p r)
  unfolding purge_sandbox
  purge_sandbox-IsConsistent p (ok info) =
      search (consistency_rules, destroy_owned-IsConsistent, remove_files-IsConsistent)
  purge_sandbox-IsConsistent p (err (sandbox_not_found m)) =
      search (consistency_rules, forget_sandbox-IsConsistent)
  purge_sandbox-IsConsistent p (err e) = search consistency_rules

  pub purge_process-IsConsistent :
      (p : ProcessInfo) → Preserves (IsConsistent held) (purge_process env p)
  unfolding purge_process
  purge_process-IsConsistent p =
      search (consistency_rules, inspect_in-IsConsistent, purge_sandbox-IsConsistent)

  cleanup_each-IsConsistent :
      (time : Time) (l : List ProcessInfo) → Preserves (IsConsistent held) (cleanup_each env time l)
  unfolding cleanup_each
  cleanup_each-IsConsistent time [] = search consistency_rules
  cleanup_each-IsConsistent time (p ∷ l) =
      Preserves-bind _ _ (search (consistency_rules, purge_process-IsConsistent))
        λ _. cleanup_each-IsConsistent time l

  pub cleanup_expired_processes-IsConsistent :
      Preserves (IsConsistent held) (cleanup_expired_processes env)
  unfolding cleanup_expired_processes
  cleanup_expired_processes-IsConsistent = search (consistency_rules, cleanup_each-IsConsistent)

  active_among-IsConsistent :
      (id : SandboxId) (rest : List ProcessInfo)
      → ((p : ProcessInfo) → InList p rest → InList p held)
      → Preserves (IsConsistent held) (active_among env id rest)
  unfolding active_among
  active_among-IsConsistent id [] sub = search consistency_rules
  active_among-IsConsistent id (p ∷ rest) sub =
      let others = active_among-IsConsistent id rest (λ q i. sub q (inr i)) in
      let head = refresh_process-IsConsistent p (sub p (inl refl)) in
      search (consistency_rules, others, head)

module _ {S : Type 0} (env : Environment S) {held : List ProcessInfo} where
  pub active_process_for_sandbox-IsConsistent :
      (id : SandboxId) → Preserves (IsConsistent held) (active_process_for_sandbox env id)
  unfolding active_process_for_sandbox
  active_process_for_sandbox-IsConsistent id =
      Preserves-bind-listed _ _ (λ w p i. i)
        λ read. active_among-IsConsistent env id read (λ p i. InList-left p read held i)

pub ruleset process_rules = (
  consistency_rules, exec_in-IsConsistent, inspect_in-IsConsistent,
  cleanup_expired_processes-IsConsistent, active_process_for_sandbox-IsConsistent,
  forget_sandbox-IsConsistent,
)
