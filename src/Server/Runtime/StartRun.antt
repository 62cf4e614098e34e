-- ===== src/Server/Runtime/StartRun.antt =====
-- `start_run` in crates/hyperbox-server/src/runtime.rs.
use hyperbox.Prelude.{
  ℕ, Bool, true, false, ◌||◌, Option, none, some, List, [], ◌∷◌, ◌++◌, Text, codes, is_empty, trim,
  if◌then◌else◌, print_i32,
}
use hyperbox.Core.Error.{Result, ok, err, HyperboxError, execution_failed, invalid_config}
use hyperbox.Core.Config.{SandboxConfig, SandboxId, SandboxInfo, ExecOutcome}
use hyperbox.Core.Process.{ProcessDisposition, reused_existing, created_new, created_due_to_busy}
use hyperbox.Server.Monad.{M, ◌>>=◌, ◌>>◌, pure, throw, attempt}
use hyperbox.Server.Environment.{Environment}
use hyperbox.Server.Scripts.{sh_request}
use hyperbox.Server.Naming.{derive_auto_run_affinity_name, fnv1a64, utf8, hex16}
use hyperbox.Server.Runtime.{World, on_backend, exec_in}
use hyperbox.Server.Runtime.Processes.{is_zero, cleanup_expired_processes}
use hyperbox.Server.Runtime.Sandboxes.{
  ensure_hydrated, sandbox_config, resolve_affinity, is_affinity_absent_error,
}
use hyperbox.Server.Runtime.Runs.{
  PreparedRunSandbox, Prepared, StartRunRequest, StartedRun, prepare_run_sandbox, created,
  start_process,
}

-- The marker file of an ensure command, and the script that runs the command once.
pub ensure_script : Text → Text
ensure_script ensure =
    let marker = codes ".hyperbox/ensure/" ++ (hex16 (fnv1a64 (utf8 ensure)) ++ codes ".done") in
    codes "set -e\nmkdir -p .hyperbox/ensure\nif [ ! -f \""
    ++ (marker
        ++ (codes "\" ]; then\n" ++ (ensure ++ (codes "\ntouch \"" ++ (marker ++ codes "\"\nfi")))))

pub ensure_failed : ExecOutcome → HyperboxError
ensure_failed outcome =
    let stderr = trim outcome.stderr in
    let message = codes "--ensure step failed with exit code " ++ print_i32 outcome.exit_code in
    execution_failed (if is_empty stderr then message else message ++ (codes ": " ++ stderr))

abbrev plain : PreparedRunSandbox → Prepared
plain sandbox = record { sandbox = sandbox; session_name = none; session_created = false }

abbrev is_overflow : ProcessDisposition → Bool
is_overflow created_due_to_busy = true
is_overflow created_new = false
is_overflow reused_existing = false

module _ {S : Type 0} (env : Environment S) where
  unfoldable pub run_ensure_commands : SandboxId → List Text → ℕ → M (World S) (Unit {0})
  run_ensure_commands id [] timeout_secs = pure tt
  run_ensure_commands id (ensure ∷ rest) timeout_secs = do
    outcome ← exec_in env id (sh_request (ensure_script ensure) timeout_secs)
    if is_zero outcome.exit_code then pure tt else throw (ensure_failed outcome)
    run_ensure_commands id rest timeout_secs

  unfoldable pub write_all : SandboxId → List (Text × List ℕ) → M (World S) (Unit {0})
  write_all id [] = pure tt
  write_all id ((path, bytes) ∷ rest) = do
    on_backend (λ s. env.backend.write_file s id (record { path = path; bytes = bytes }))
    write_all id rest

  unfoldable pub prepare_by_id : SandboxId → M (World S) Prepared
  prepare_by_id id = do
    config ← sandbox_config env id
    sandbox ← prepare_run_sandbox env id (some config)
    pure (plain sandbox)

  unfoldable pub prepare_by_name : Text → M (World S) Prepared
  prepare_by_name name = do found ← resolve_affinity env name true; prepare_by_id found.0.id

  -- The `match` on the resolution of the automatic session.
  unfoldable pub prepare_session :
      Text → SandboxConfig → Result HyperboxError (SandboxInfo × Bool) → M (World S) Prepared
  prepare_session name config (ok found) = do
    overflow_config ← sandbox_config env found.0.id
    sandbox ←
        prepare_run_sandbox env found.0.id (some (record overflow_config { affinity_name = none }))
    pure (record { sandbox = sandbox; session_name = some name; session_created = false })
  prepare_session name config (err e) =
      if is_affinity_absent_error e
      then (do
        sandbox ← created env config
        pure (record { sandbox = sandbox; session_name = some name; session_created = true }))
      else throw e

  unfoldable pub prepare_new : SandboxConfig → Bool → M (World S) Prepared
  prepare_new config true = do
    let name = derive_auto_run_affinity_name config.template config.workspace_dir config.network
    found ← attempt (resolve_affinity env name false)
    prepare_session name (record config { affinity_name = some name }) found
  prepare_new config false = do sandbox ← created env config; pure (plain sandbox)

  pub no_target : HyperboxError
  no_target =
      invalid_config (codes "run target requires sandbox_id, affinity_name, or create_config")

  -- The sandbox, else the name, else the configuration of the request.
  unfoldable pub prepare_target :
      Option SandboxId → Option Text → Option SandboxConfig → Bool → M (World S) Prepared
  prepare_target (some id) name config reuse = prepare_by_id id
  prepare_target none (some name) config reuse = prepare_by_name name
  prepare_target none none (some config) reuse = prepare_new config reuse
  prepare_target none none none reuse = throw no_target

  unfoldable pub run_prepared : StartRunRequest → Prepared → M (World S) StartedRun
  run_prepared request prepared = do
    let target = prepared.sandbox
    write_all target.info.id request.writes
    config ← sandbox_config env target.info.id
    run_ensure_commands target.info.id request.ensure_commands config.timeout_secs
    process ←
        start_process env target.info.id (codes "/bin/sh" ∷ codes "-lc" ∷ request.command ∷ [])
          target.requested_sandbox_id target.disposition
          (request.destroy_sandbox_on_expiry || is_overflow target.disposition)
    pure (record {
      process = process;
      sandbox = target.info;
      session_name = prepared.session_name;
      session_created = prepared.session_created;
    })

  unfoldable pub start_run : StartRunRequest → M (World S) StartedRun
  start_run request = do
    ensure_hydrated env
    cleanup_expired_processes env
    if is_empty (trim request.command)
        then throw (invalid_config (codes "run command cannot be empty"))
        else (do
          prepared ←
              prepare_target request.sandbox_id request.affinity_name request.create_config
                request.reuse_auto_session
          run_prepared request prepared)
