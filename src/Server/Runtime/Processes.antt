-- ===== src/Server/Runtime/Processes.antt =====
-- The bookkeeping of managed processes in crates/hyperbox-server/src/runtime.rs: refreshing,
-- purging, expiry, and the search for a sandbox's active process.
use mathlib.Core.Logic.{ite}
use hyperbox.Prelude.{
  Bool, true, false, Option, none, some, List, [], ◌∷◌, leb, if◌then◌else◌, ℤ, pos, negsuc, zero,
  suc, trim, nat_eq, ◌==◌,
}
use hyperbox.Core.Error.{Result, ok, err, HyperboxError, sandbox_not_found}
use hyperbox.Core.Config.{SandboxId, SandboxInfo, ExecOutcome, Time}
use hyperbox.Core.Process.{ProcessInfo, is_terminal, ProcessInfo-discrete}
use hyperbox.Server.Monad.{M, ◌>>=◌, ◌>>◌, pure, throw, gets, attempt}
use hyperbox.Server.Environment.{Environment}
use hyperbox.Server.Scripts.{sh_request, inspect_script, remove_dir_script, process_expiry_at}
use hyperbox.Server.Probe.{parse_process_probe}
use hyperbox.Server.Store.{
  list_processes, upsert_process, remove_process, clear_sandbox_binding, remove_active_sandbox,
}
use hyperbox.Server.Runtime.{World, on_backend, on_store, drop_sandbox, now, exec_in, inspect_in}

-- `exit_code != 0`
abbrev pub is_zero : ℤ → Bool
is_zero (pos zero) = true
is_zero (pos (suc n)) = false
is_zero (negsuc n) = false

-- `if inspected != process`
unfoldable pub store_if_changed : {S : Type 0} → ProcessInfo → ProcessInfo → M (World S) ProcessInfo
store_if_changed process inspected =
    ite (ProcessInfo-discrete inspected process) (pure inspected)
      (on_store (λ s. upsert_process s inspected) >> pure inspected)

module _ {S : Type 0} (env : Environment S) where
  -- What `refresh_process` makes of the inspect script's outcome. The clock is read once; a process
  -- that runs does not use the reading.
  unfoldable pub apply_probe : ProcessInfo → ExecOutcome → M (World S) ProcessInfo
  apply_probe process outcome =
      if is_zero outcome.exit_code
      then (do
        time ← now env
        store_if_changed process
            (parse_process_probe (process_expiry_at env) time process (trim outcome.stdout)))
      else pure process

  unfoldable pub refresh_process : ProcessInfo → M (World S) ProcessInfo
  refresh_process process = if is_terminal process.status then pure process else do
    outcome ← exec_in env process.sandbox_id (sh_request (inspect_script env process) 5)
    apply_probe process outcome

  -- The records of a sandbox that is gone.
  unfoldable pub forget_sandbox : SandboxId → M (World S) (Unit {0})
  forget_sandbox id = do
    drop_sandbox id
    time ← now env
    on_store (λ s. clear_sandbox_binding s time id)
    on_store (λ s. remove_active_sandbox s id)

  unfoldable pub destroy_owned : SandboxId → M (World S) (Unit {0})
  destroy_owned id = do on_backend (λ s. env.backend.destroy s id); forget_sandbox id

  unfoldable pub remove_files : ProcessInfo → M (World S) (Unit {0})
  remove_files process = do
    attempt (exec_in env process.sandbox_id (sh_request (remove_dir_script env process.id) 5))
    pure tt

  -- The `match` of `purge_process` on what `inspect` returned.
  unfoldable pub purge_sandbox :
      ProcessInfo → Result HyperboxError SandboxInfo → M (World S) (Unit {0})
  purge_sandbox process (ok info) =
      if process.destroy_sandbox_on_expiry
      then destroy_owned process.sandbox_id
      else remove_files process
  purge_sandbox process (err (sandbox_not_found m)) =
      if process.destroy_sandbox_on_expiry then forget_sandbox process.sandbox_id else pure tt
  purge_sandbox process (err e) = throw e

  unfoldable pub purge_process : ProcessInfo → M (World S) (Unit {0})
  purge_process process = do
    seen ← attempt (inspect_in env process.sandbox_id)
    purge_sandbox process seen
    on_store (λ s. remove_process s process.id)

  -- `expires_at.is_some_and(|expires_at| expires_at <= now)`
  abbrev pub is_expired : Time → Option Time → Bool
  is_expired time none = false
  is_expired time (some expires_at) = leb expires_at time

  unfoldable pub cleanup_each : Time → List ProcessInfo → M (World S) (Unit {0})
  cleanup_each time [] = pure tt
  cleanup_each time (process ∷ rest) = do
    if is_expired time process.expires_at then purge_process process else pure tt
    cleanup_each time rest

  unfoldable pub cleanup_expired_processes : M (World S) (Unit {0})
  cleanup_expired_processes = do
    time ← now env
    processes ← gets (λ w. list_processes w.store)
    cleanup_each time processes

  -- The loop of `active_process_for_sandbox`.
  unfoldable pub active_among : SandboxId → List ProcessInfo → M (World S) (Option ProcessInfo)
  active_among id [] = pure none
  active_among id (process ∷ rest) =
      let others = active_among id rest in
      if process.sandbox_id == id
      then (do
        refreshed ← refresh_process process
        if is_terminal refreshed.status then others else pure (some refreshed))
      else others

  unfoldable pub active_process_for_sandbox : SandboxId → M (World S) (Option ProcessInfo)
  active_process_for_sandbox id = do
    processes ← gets (λ w. list_processes w.store)
    active_among id processes
