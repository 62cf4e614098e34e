-- ===== src/Server/Runtime/Consistency/Runs.antt =====
-- The process table under the methods for starting processes.
use hyperbox.Prelude.{
  suc, inl, if◌then◌else◌, ℕ, Bool, true, false, Option, none, some, List, [], ◌∷◌, Text, ◌≡◌, refl,
  arith, ℤ,
}
use hyperbox.Server.Runtime.Table.{claim-IsTable, fewer-IsTable}
use hyperbox.Server.Runtime.Exclusive.{IsIdle, active_process_for_sandbox-IsIdle}
use hyperbox.Server.Runtime.{World, now, new_uuid, on_store}
use hyperbox.Server.Runtime.Processes.{is_zero, active_process_for_sandbox}
use hyperbox.Server.Store.{upsert_process}
use hyperbox.Server.Scripts.{process_expiry_at}
use hyperbox.Server.Runtime.Consistency.Processes.{
  exec_in-IsConsistent, active_process_for_sandbox-IsConsistent,
}
use hyperbox.Core.Error.{Result, ok, err, HyperboxError}
use hyperbox.Core.Config.{SandboxConfig, SandboxId, SandboxInfo, ExecOutcome, Time}
use hyperbox.Core.Process.{ProcessInfo, ProcessId, ProcessDisposition, is_terminal, running, failed}
use hyperbox.Server.Monad.{
  M, ◌>>=◌, continue, Preserves, Preserves-bind, Preserves-if, Preserves-pure, Preserves-throw,
  Preserves-to,
}
use hyperbox.Server.Environment.{Environment}
use hyperbox.Server.Probe.Settled.{IsSettled}
use hyperbox.Server.Runtime.Runs.{
  Prepared, StartRunRequest, new_process, fail_launch, confirm_launch, launch_process, start_unless,
  start_process, overflow, prepare_idle_or, prepare_run_sandbox, created,
}
use hyperbox.Server.Runtime.StartRun.{
  run_ensure_commands, write_all, prepare_by_id, prepare_by_name, prepare_session, prepare_new,
  prepare_target, run_prepared, start_run,
}
use hyperbox.Server.Runtime.Consistency.{
  IsConsistent, now-IsConsistent, on_store-IsConsistent, upsert_process-PreservesTable,
}
use hyperbox.Server.Runtime.Consistency.Sandboxes.{sandbox_rules}

-- A process that is alive and has neither an end nor an expiry.
abbrev IsFresh : ProcessInfo → Type 0
IsFresh p = (is_terminal p.status ≡ false) × (p.finished_at ≡ none) × (p.expires_at ≡ none)

fresh-IsSettled : (p : ProcessInfo) → IsFresh p → IsSettled p
fresh-IsSettled p f = ground arith

dead-IsSettled :
    (p : ProcessInfo) (code : Option ℤ) (finished expiring : Time)
    → IsSettled (record p {
      status = failed;
      exit_code = code;
      finished_at = some finished;
      expires_at = some expiring;
    })
dead-IsSettled p code finished expiring = record { finished = refl; expiring = refl }

live-IsSettled : (p : ProcessInfo) → IsFresh p → IsSettled (record p { status = running })
live-IsSettled p f = ground arith

module _ {S : Type 0} (env : Environment S) where
  new_process-IsFresh :
      (id : ProcessId) (time : Time) (sandbox_id : SandboxId) (command : List Text)
      (requested : Option SandboxId) (disposition : ProcessDisposition) (destroy : Bool)
      → IsFresh (new_process env id time sandbox_id command requested disposition destroy)
  unfolding new_process
  new_process-IsFresh id time sandbox_id command requested disposition destroy = (refl, refl, refl)

  -- The record of the process that is launched is held from its first write on.
  module _ (p : ProcessInfo) (fresh : IsFresh p) where
    fail_launch-IsConsistent :
        (o : ExecOutcome) → Preserves (IsConsistent (p ∷ [])) (fail_launch env p o)
    unfolding fail_launch
    fail_launch-IsConsistent o = Preserves-bind _ _ (now-IsConsistent env) λ finished.
        Preserves-bind _ _ (now-IsConsistent env) λ expiring.
          Preserves-bind _ _
            (on_store-IsConsistent _ (
              upsert_process-PreservesTable p _ (inl refl) fresh.0 refl refl
                (dead-IsSettled p (some o.exit_code) finished (process_expiry_at env expiring))))
            λ _. Preserves-throw _

    confirm_launch-IsConsistent : Preserves (IsConsistent (p ∷ [])) (confirm_launch env p)
    unfolding confirm_launch
    confirm_launch-IsConsistent =
        Preserves-bind _ _
          (on_store-IsConsistent _ (
            upsert_process-PreservesTable p _ (inl refl) fresh.0 refl refl
              (live-IsSettled p fresh)))
          λ _. Preserves-pure _

    run_launch-IsConsistent :
        (m : M (World S) ExecOutcome)
        → Preserves (IsConsistent (p ∷ [])) m
        → Preserves (IsConsistent (p ∷ [])) (
            m >>= (λ launch.
              if is_zero launch.exit_code then confirm_launch env p else fail_launch env p launch))
    run_launch-IsConsistent m k = Preserves-bind _ _ k λ launch.
        Preserves-if (is_zero launch.exit_code) _ _ (λ _. confirm_launch-IsConsistent)
          λ _. fail_launch-IsConsistent launch

    -- The launch is made in an idle sandbox.
    launch_process-IsConsistent :
        (w : World S)
        → IsIdle p.sandbox_id w
        → IsConsistent [] w
        → IsConsistent [] (launch_process env p w).1
    unfolding launch_process ◌>>=◌ on_store upsert_process
    launch_process-IsConsistent w idle c =
        let stored : World S = record w { store = upsert_process w.store p } in
        let claimed : IsConsistent (p ∷ []) stored = record {
          table =
              claim-IsTable w.store.processes p (fresh-IsSettled p fresh)
                (λ r h s. idle.ended h.0 r h.1 s) c.table;
        } in
        let launched =
          (run_launch-IsConsistent _ (exec_in-IsConsistent env p.sandbox_id _)).holds_at stored
            claimed in
        record { table = fewer-IsTable (p ∷ []) [] _ (λ q i. absurd i) launched.table }

  start_unless-IsConsistent :
      (o : Option ProcessInfo) (sandbox_id : SandboxId) (command : List Text)
      (requested : Option SandboxId) (disposition : ProcessDisposition) (destroy : Bool)
      (w : World S)
      → (o ≡ none → IsIdle sandbox_id w)
      → IsConsistent [] w
      → IsConsistent [] (start_unless env o sandbox_id command requested disposition destroy w).1
  unfolding start_unless ◌>>=◌ new_uuid now
  start_unless-IsConsistent (some p) sandbox_id command requested disposition destroy w idle c = c
  start_unless-IsConsistent none sandbox_id command requested disposition destroy w idle c =
      let drawn : World S = record w { readings = suc w.readings; draws = suc w.draws } in
      let id = env.uuid w.draws in
      let time = env.clock w.readings in
      launch_process-IsConsistent
        (new_process env id time sandbox_id command requested disposition destroy)
        (new_process-IsFresh id time sandbox_id command requested disposition destroy) drawn
        (unfold new_process in record { ended = (idle refl).ended }) (record { table = c.table })

  -- The search for an active process, and the start that its outcome allows.
  search_then_start-IsConsistent :
      (sandbox_id : SandboxId) (command : List Text) (requested : Option SandboxId)
      (disposition : ProcessDisposition) (destroy : Bool)
      → Preserves (IsConsistent []) (
          active_process_for_sandbox env sandbox_id
          >>= (λ active. start_unless env active sandbox_id command requested disposition destroy))
  unfolding ◌>>=◌
  search_then_start-IsConsistent sandbox_id command requested disposition destroy = record {
    holds_at = λ w c. by_search w c (active_process_for_sandbox env sandbox_id w) refl;
  }
    where
      by_search :
          (w : World S)
          → IsConsistent [] w
          → (r : Result HyperboxError (Option ProcessInfo) × World S)
          → active_process_for_sandbox env sandbox_id w ≡ r
          → IsConsistent []
              (continue r.0
                (λ active. start_unless env active sandbox_id command requested disposition destroy)
                r.1).1
      by_search w c (err e, v) g =
          Preserves-to (active_process_for_sandbox-IsConsistent env sandbox_id) c g
      by_search w c (ok o, v) g =
          start_unless-IsConsistent o sandbox_id command requested disposition destroy v
            (λ e. active_process_for_sandbox-IsIdle env sandbox_id w v c (rw e at g))
            (Preserves-to (active_process_for_sandbox-IsConsistent env sandbox_id) c g)

  pub start_process-IsConsistent :
      (sandbox_id : SandboxId) (command : List Text) (requested : Option SandboxId)
      (disposition : ProcessDisposition) (destroy : Bool)
      → Preserves
          (IsConsistent [])
          (start_process env sandbox_id command requested disposition destroy)
  unfolding start_process
  start_process-IsConsistent sandbox_id command requested disposition destroy =
      search (sandbox_rules, search_then_start-IsConsistent) depth 8

  overflow-IsConsistent :
      (id : SandboxId) (c : Option SandboxConfig) → Preserves (IsConsistent []) (overflow env id c)
  unfolding overflow
  overflow-IsConsistent id none = search sandbox_rules
  overflow-IsConsistent id (some c) = search sandbox_rules

  prepare_idle_or-IsConsistent :
      (id : SandboxId) (c : Option SandboxConfig) (o : Option ProcessInfo)
      → Preserves (IsConsistent []) (prepare_idle_or env id c o)
  unfolding prepare_idle_or
  prepare_idle_or-IsConsistent id c none = search sandbox_rules
  prepare_idle_or-IsConsistent id c (some p) = search (sandbox_rules, overflow-IsConsistent)

  pub prepare_run_sandbox-IsConsistent :
      (id : SandboxId) (c : Option SandboxConfig)
      → Preserves (IsConsistent []) (prepare_run_sandbox env id c)
  unfolding prepare_run_sandbox
  prepare_run_sandbox-IsConsistent id c =
      search (sandbox_rules, prepare_idle_or-IsConsistent) depth 8

  created-IsConsistent : (c : SandboxConfig) → Preserves (IsConsistent []) (created env c)
  unfolding created
  created-IsConsistent c = search sandbox_rules

  run_ensure_commands-IsConsistent :
      (id : SandboxId) (l : List Text) (t : ℕ)
      → Preserves (IsConsistent []) (run_ensure_commands env id l t)
  unfolding run_ensure_commands
  run_ensure_commands-IsConsistent id [] t = search sandbox_rules
  run_ensure_commands-IsConsistent id (e ∷ l) t =
      Preserves-bind _ _ (search sandbox_rules)
        λ o. Preserves-bind _ _ (search sandbox_rules) λ _. run_ensure_commands-IsConsistent id l t

  write_all-IsConsistent :
      (id : SandboxId) (l : List (Text × List ℕ)) → Preserves (IsConsistent []) (write_all env id l)
  unfolding write_all
  write_all-IsConsistent id [] = search sandbox_rules
  write_all-IsConsistent id ((path, bytes) ∷ l) =
      Preserves-bind _ _ (search sandbox_rules) λ _. write_all-IsConsistent id l

  prepare_by_id-IsConsistent : (id : SandboxId) → Preserves (IsConsistent []) (prepare_by_id env id)
  unfolding prepare_by_id
  prepare_by_id-IsConsistent id = search (sandbox_rules, prepare_run_sandbox-IsConsistent)

  prepare_by_name-IsConsistent :
      (name : Text) → Preserves (IsConsistent []) (prepare_by_name env name)
  unfolding prepare_by_name
  prepare_by_name-IsConsistent name = search (sandbox_rules, prepare_by_id-IsConsistent)

  prepare_session-IsConsistent :
      (name : Text) (c : SandboxConfig) (r : Result HyperboxError (SandboxInfo × Bool))
      → Preserves (IsConsistent []) (prepare_session env name c r)
  unfolding prepare_session
  prepare_session-IsConsistent name c (ok found) =
      search (sandbox_rules, prepare_run_sandbox-IsConsistent) depth 8
  prepare_session-IsConsistent name c (err e) = search (sandbox_rules, created-IsConsistent) depth 8

  prepare_new-IsConsistent :
      (c : SandboxConfig) (b : Bool) → Preserves (IsConsistent []) (prepare_new env c b)
  unfolding prepare_new
  prepare_new-IsConsistent c true = search (sandbox_rules, prepare_session-IsConsistent)
  prepare_new-IsConsistent c false = search (sandbox_rules, created-IsConsistent)

  prepare_target-IsConsistent :
      (id : Option SandboxId) (name : Option Text) (c : Option SandboxConfig) (b : Bool)
      → Preserves (IsConsistent []) (prepare_target env id name c b)
  unfolding prepare_target
  prepare_target-IsConsistent (some id) name c b =
      search (sandbox_rules, prepare_by_id-IsConsistent)
  prepare_target-IsConsistent none (some name) c b =
      search (sandbox_rules, prepare_by_name-IsConsistent)
  prepare_target-IsConsistent none none (some c) b =
      search (sandbox_rules, prepare_new-IsConsistent)
  prepare_target-IsConsistent none none none b = search sandbox_rules

  run_prepared-IsConsistent :
      (request : StartRunRequest) (prepared : Prepared)
      → Preserves (IsConsistent []) (run_prepared env request prepared)
  unfolding run_prepared
  run_prepared-IsConsistent request prepared =
      search
        (
          sandbox_rules, write_all-IsConsistent, run_ensure_commands-IsConsistent,
          start_process-IsConsistent,
        )
        depth 9

  -- `start_run`, whatever the request and however it ends, keeps every record of the process table
  -- under its identifier and settled.
  pub start_run-IsConsistent :
      (request : StartRunRequest) → Preserves (IsConsistent []) (start_run env request)
  unfolding start_run
  start_run-IsConsistent request =
      search (sandbox_rules, prepare_target-IsConsistent, run_prepared-IsConsistent) depth 9
