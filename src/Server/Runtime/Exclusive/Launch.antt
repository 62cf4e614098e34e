-- ===== src/Server/Runtime/Exclusive/Launch.antt =====
-- `start_process` of crates/hyperbox-server/src/runtime.rs, when it succeeds: the new process, and
-- what else its sandbox runs.
use hyperbox.Prelude.{
  [], suc, Bool, true, false, Option, none, some, List, Text, codes, is_empty, ◌≡◌, refl, sym, ap,
  ◌∙◌, arith, inl, inr, if◌then◌else◌, nat_eq, nat_beq, Bool-cases, Assoc, lookup, insert,
  lookup-insert, beq_refl,
}
use hyperbox.Core.Error.{Result, ok, err, HyperboxError, invalid_config}
use hyperbox.Core.Config.{SandboxId, ExecOutcome}
use hyperbox.Core.Process.{ProcessInfo, ProcessId, ProcessDisposition, is_terminal, running}
use hyperbox.Server.Monad.{◌>>=◌, throw, Preserves-to, bind-Returned, continue}
use hyperbox.Server.Environment.{Environment}
use hyperbox.Server.Scripts.{sh_request, process_launch_command}
use hyperbox.Server.Store.{upsert_process, get_process}
use hyperbox.Server.Runtime.{World, on_backend, on_store, now, new_uuid, exec_in}
use hyperbox.Server.Runtime.Processes.{
  is_zero, cleanup_expired_processes, active_process_for_sandbox,
}
use hyperbox.Server.Runtime.Sandboxes.{ensure_hydrated}
use hyperbox.Server.Runtime.Runs.{
  new_process, fail_launch, confirm_launch, launch_process, start_unless, start_process,
}
use hyperbox.Server.Runtime.Consistency.{IsConsistent}
use hyperbox.Server.Runtime.Consistency.Processes.{cleanup_expired_processes-IsConsistent}
use hyperbox.Server.Runtime.Consistency.Sandboxes.{ensure_hydrated-IsConsistent}
use hyperbox.Server.Runtime.Exclusive.{IsIdle, active_process_for_sandbox-IsIdle}

abbrev live_of : ProcessInfo → ProcessInfo
live_of p = record p { status = running }

lookup-insert-insert :
    (i k : ProcessId) (a b : ProcessInfo) (m : Assoc ProcessId ProcessInfo)
    → lookup k (insert i a (insert i b m)) ≡ (if nat_beq i k then some a else lookup k m)
lookup-insert-insert i k a b m =
    ground (arith, lookup-insert i k a (insert i b m), lookup-insert i k b m)

-- What a launch of `p` that returns leaves behind.
abbrev IsLaunched : {S : Type 0} → ProcessInfo → ProcessInfo → World S → World S → Type 0
IsLaunched p q w v =
    (q ≡ live_of p)
    × (v.store.processes ≡ insert p.id (live_of p) (insert p.id p w.store.processes))

module _ {S : Type 0} (env : Environment S) where
  launch_process-ok :
      (p q : ProcessInfo) (w v : World S) → launch_process env p w ≡ (ok q, v) → IsLaunched p q w v
  unfolding launch_process confirm_launch fail_launch ◌>>=◌ on_store exec_in on_backend
      upsert_process now
  launch_process-ok p q w v h =
      by_exec
        (env.backend.exec w.backend_state p.sandbox_id
          (sh_request (process_launch_command env p) 5))
        h
    where
      stored : S → World S
      stored s = record w { backend_state = s; store = upsert_process w.store p }

      by_code :
          (o : ExecOutcome) (s : S) (b : Bool)
          → (if b then confirm_launch env p else fail_launch env p o) (stored s) ≡ (ok q, v)
          → IsLaunched p q w v
      by_code o s true g =
          (cc, ap (λ (x : Result HyperboxError ProcessInfo × World S). x.1.store.processes) (sym g))
      by_code o s false g = cc

      by_exec :
          (r : Result HyperboxError ExecOutcome × S)
          → continue r.0
              (λ o. if is_zero o.exit_code then confirm_launch env p else fail_launch env p o)
              (stored r.1)
            ≡ (ok q, v)
          → IsLaunched p q w v
      by_exec (ok o, s) g = by_code o s (is_zero o.exit_code) g
      by_exec (err e, s) g = cc

  -- What a successful start makes of a state in which the sandbox is idle.
  pub record IsStarted (id : SandboxId) (q : ProcessInfo) (v : World S) : Type 0 where
    pub is_running : q.status ≡ running
    pub is_here : q.sandbox_id ≡ id
    pub is_stored : get_process v.store q.id ≡ some q
    pub is_alone :
        (k : ProcessId) (r : ProcessInfo)
        → get_process v.store k ≡ some r
        → r.sandbox_id ≡ id
        → is_terminal r.status ≡ false
        → r ≡ q

  launched-IsStarted :
      (id : SandboxId) (p q : ProcessInfo) (w v : World S)
      → IsIdle id w
      → p.sandbox_id ≡ id
      → IsLaunched p q w v
      → IsStarted id q v
  unfolding get_process
  launched-IsStarted id p q w v idle here launched =
      let table = launched.1 in
      let eq = launched.0 in
      record {
        is_running = ap (λ (x : ProcessInfo). x.status) eq;
        is_here = ap (λ (x : ProcessInfo). x.sandbox_id) eq ∙ here;
        is_stored =
            rw eq (rw table (lookup-insert p.id p.id (live_of p) _ ∙ rw (beq_refl p.id) refl));
        is_alone = λ k r g s t. elim (Bool-cases (nat_beq p.id k)) [
          | inl same ↦ ground (arith, at_key k)
          | inr differ ↦
              let old : lookup k w.store.processes ≡ some r = ground (arith, at_key k) in
              absurd (ground (arith, idle.ended k r old s))
        ];
      }
    where
      at_key :
          (k : ProcessId)
          → lookup k v.store.processes
            ≡ (if nat_beq p.id k then some (live_of p) else lookup k w.store.processes)
      at_key k = rw launched.1 (lookup-insert-insert p.id k (live_of p) p w.store.processes)

  start_unless-IsStarted :
      (o : Option ProcessInfo) (id : SandboxId) (command : List Text) (requested : Option SandboxId)
      (disposition : ProcessDisposition) (destroy : Bool) (q : ProcessInfo) (w v : World S)
      → (o ≡ none → IsIdle id w)
      → start_unless env o id command requested disposition destroy w ≡ (ok q, v)
      → IsStarted id q v
  unfolding start_unless ◌>>=◌ new_uuid now new_process
  start_unless-IsStarted (some e) id command requested disposition destroy q w v idle h = cc
  start_unless-IsStarted none id command requested disposition destroy q w v idle h =
      let drawn : World S = record w { readings = suc w.readings; draws = suc w.draws } in
      let p =
        new_process env (env.uuid w.draws) (env.clock w.readings) id command requested disposition
          destroy in
      launched-IsStarted id p q drawn v (record { ended = (idle refl).ended }) refl
        (launch_process-ok p q drawn v h)

  start_process-IsStarted :
      (id : SandboxId) (command : List Text) (requested : Option SandboxId)
      (disposition : ProcessDisposition) (destroy : Bool) (q : ProcessInfo) (w v : World S)
      → IsConsistent [] w
      → start_process env id command requested disposition destroy w ≡ (ok q, v)
      → IsStarted id q v
  unfolding start_process ◌>>=◌
  start_process-IsStarted id command requested disposition destroy q w v c h =
      let hydrating = bind-Returned (ensure_hydrated env) _ w v q h in
      let cleaning =
        bind-Returned (cleanup_expired_processes env) _ hydrating.state v q hydrating.rest in
      let cleaned =
        Preserves-to (cleanup_expired_processes-IsConsistent env)
          (Preserves-to (ensure_hydrated-IsConsistent env) c hydrating.first) cleaning.first in
      by_command (is_empty command) cleaning.state cleaned cleaning.rest
    where
      by_command :
          (b : Bool) (u : World S)
          → IsConsistent [] u
          → (if b
                then throw (invalid_config (codes "managed process command cannot be empty"))
                else active_process_for_sandbox env id
                  >>= (λ active. start_unless env active id command requested disposition destroy))
              u
            ≡ (ok q, v)
          → IsStarted id q v
      by_command true u cu g = cc
      by_command false u cu g =
          let found = bind-Returned (active_process_for_sandbox env id) _ u v q g in
          start_unless-IsStarted found.value id command requested disposition destroy q found.state
            v (λ e. active_process_for_sandbox-IsIdle env id u found.state cu (rw e at found.first))
            found.rest

  module _ (id : SandboxId) (command : List Text) (requested : Option SandboxId)
      (disposition : ProcessDisposition) (destroy : Bool) (q : ProcessInfo) (w v : World S) where
    -- A start that succeeds, from a consistent process table, returns a running process of the
    -- sandbox asked for, and the store holds that record under the process's identifier.
    pub start_process-running :
        IsConsistent [] w
        → start_process env id command requested disposition destroy w ≡ (ok q, v)
        → (q.status ≡ running) × (q.sandbox_id ≡ id) × (get_process v.store q.id ≡ some q)
    start_process-running c h =
        let s = start_process-IsStarted id command requested disposition destroy q w v c h in
        (s.is_running, s.is_here, s.is_stored)

    -- A start that succeeds, from a consistent process table, leaves the sandbox with one live
    -- process at most: a record of the sandbox that has not ended is the one returned.
    pub start_process-alone :
        (k : ProcessId) (r : ProcessInfo)
        → IsConsistent [] w
        → start_process env id command requested disposition destroy w ≡ (ok q, v)
        → get_process v.store k ≡ some r
        → r.sandbox_id ≡ id
        → is_terminal r.status ≡ false
        → r ≡ q
    start_process-alone k r c h =
        (start_process-IsStarted id command requested disposition destroy q w v c h).is_alone k r
