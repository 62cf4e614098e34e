-- ===== src/Server/Runtime/Runs.antt =====
-- Starting managed processes in crates/hyperbox-server/src/runtime.rs.
use hyperbox.Prelude.{
  ℕ, Bool, Option, none, some, List, ◌++◌, Text, codes, is_empty, trim, if◌then◌else◌,
}
use hyperbox.Core.Error.{ok_or, HyperboxError, execution_failed, invalid_config}
use hyperbox.Core.Config.{SandboxConfig, SandboxId, SandboxInfo, ExecOutcome, Time}
use hyperbox.Core.Process.{
  ProcessInfo, ProcessId, starting, running, failed, ProcessDisposition, reused_existing,
  created_new, created_due_to_busy,
}
use hyperbox.Server.Monad.{M, ◌>>=◌, ◌>>◌, pure, throw, lift}
use hyperbox.Server.Environment.{Environment}
use hyperbox.Server.Scripts.{
  sh_request, process_launch_command, process_stdout_path, process_stderr_path, process_expiry_at,
  process_not_found,
}
use hyperbox.Server.Store.{get_process, upsert_process}
use hyperbox.Server.Runtime.{World, on_store, now, new_uuid, exec_in}
use hyperbox.Server.Runtime.Processes.{
  is_zero, refresh_process, cleanup_expired_processes, active_process_for_sandbox,
}
use hyperbox.Server.Runtime.Sandboxes.{ensure_hydrated, create_sandbox, inspect}

pub record PreparedRunSandbox : Type 0 where
  pub info : SandboxInfo
  pub requested_sandbox_id : Option SandboxId
  pub disposition : ProcessDisposition

pub record StartRunRequest : Type 0 where
  pub sandbox_id : Option SandboxId
  pub affinity_name : Option Text
  pub create_config : Option SandboxConfig
  pub reuse_auto_session : Bool
  pub ensure_commands : List Text
  pub writes : List (Text × List ℕ)
  pub command : Text
  pub destroy_sandbox_on_expiry : Bool

pub record StartedRun : Type 0 where
  pub process : ProcessInfo
  pub sandbox : SandboxInfo
  pub session_name : Option Text
  pub session_created : Bool

-- A prepared sandbox with what `start_run` remembers of the session.
pub record Prepared : Type 0 where
  pub sandbox : PreparedRunSandbox
  pub session_name : Option Text
  pub session_created : Bool

module _ {S : Type 0} (env : Environment S) where
  unfoldable pub already_running : SandboxId → ProcessInfo → HyperboxError
  already_running id existing = execution_failed (
      codes "sandbox "
      ++ (env.show_uuid id
          ++ (codes " already has a running managed process ("
              ++ (env.show_uuid existing.id ++ codes ")"))))

  pub launch_failed : ExecOutcome → HyperboxError
  launch_failed launch =
      execution_failed (codes "failed to launch managed process: " ++ trim launch.stderr)

  -- The record of a process that is about to start.
  unfoldable pub new_process :
      ProcessId
      → Time
      → SandboxId
      → List Text
      → Option SandboxId
      → ProcessDisposition
      → Bool
      → ProcessInfo
  new_process id time sandbox_id command requested disposition destroy = record {
    id = id;
    sandbox_id = sandbox_id;
    requested_sandbox_id = requested;
    disposition = disposition;
    destroy_sandbox_on_expiry = destroy;
    command = command;
    status = starting;
    stdout_path = process_stdout_path env id;
    stderr_path = process_stderr_path env id;
    backend_pid = none;
    exit_code = none;
    started_at = time;
    finished_at = none;
    expires_at = none;
  }

  -- The clock is read twice for a failed launch.
  unfoldable pub fail_launch : ProcessInfo → ExecOutcome → M (World S) ProcessInfo
  fail_launch process launch = do
    finished ← now env
    expiring ← now env
    let dead : ProcessInfo = record process {
      status = failed;
      exit_code = some launch.exit_code;
      finished_at = some finished;
      expires_at = some (process_expiry_at env expiring);
    }
    on_store (λ s. upsert_process s dead)
    throw (launch_failed launch)

  unfoldable pub confirm_launch : ProcessInfo → M (World S) ProcessInfo
  confirm_launch process = do
    let live : ProcessInfo = record process { status = running }
    on_store (λ s. upsert_process s live)
    pure live

  unfoldable pub launch_process : ProcessInfo → M (World S) ProcessInfo
  launch_process process = do
    on_store (λ s. upsert_process s process)
    launch ← exec_in env process.sandbox_id (sh_request (process_launch_command env process) 5)
    if is_zero launch.exit_code then confirm_launch process else fail_launch process launch

  -- From where the sandbox was searched for an active process.
  unfoldable pub start_unless :
      Option ProcessInfo
      → SandboxId
      → List Text
      → Option SandboxId
      → ProcessDisposition
      → Bool
      → M (World S) ProcessInfo
  start_unless (some existing) sandbox_id command requested disposition destroy =
      throw (already_running sandbox_id existing)
  start_unless none sandbox_id command requested disposition destroy = do
    id ← new_uuid env
    time ← now env
    launch_process (new_process id time sandbox_id command requested disposition destroy)

  unfoldable pub start_process :
      SandboxId → List Text → Option SandboxId → ProcessDisposition → Bool → M (World S) ProcessInfo
  start_process sandbox_id command requested disposition destroy = do
    ensure_hydrated env
    cleanup_expired_processes env
    if is_empty command
        then throw (invalid_config (codes "managed process command cannot be empty"))
        else (do
          active ← active_process_for_sandbox env sandbox_id
          start_unless active sandbox_id command requested disposition destroy)

  pub became_idle : SandboxId → HyperboxError
  became_idle id =
      execution_failed
        (codes "sandbox " ++ (env.show_uuid id ++ codes " became idle while preparing run target"))

  -- From where the sandbox is busy: an overflow sandbox, or the refusal.
  unfoldable pub overflow : SandboxId → Option SandboxConfig → M (World S) PreparedRunSandbox
  overflow id none = do
    active ← active_process_for_sandbox env id
    existing ← lift (ok_or active (became_idle id))
    throw (already_running id existing)
  overflow id (some config) = do
    info ← create_sandbox env (record config { affinity_name = none })
    pure (record { info = info; requested_sandbox_id = some id; disposition = created_due_to_busy })

  unfoldable pub prepare_idle_or :
      SandboxId → Option SandboxConfig → Option ProcessInfo → M (World S) PreparedRunSandbox
  prepare_idle_or id config (some existing) = overflow id config
  prepare_idle_or id config none = do
    info ← inspect env id
    pure (record { info = info; requested_sandbox_id = none; disposition = reused_existing })

  unfoldable pub prepare_run_sandbox :
      SandboxId → Option SandboxConfig → M (World S) PreparedRunSandbox
  prepare_run_sandbox id config = do
    ensure_hydrated env
    cleanup_expired_processes env
    active ← active_process_for_sandbox env id
    prepare_idle_or id config active

  unfoldable pub created : SandboxConfig → M (World S) PreparedRunSandbox
  created config = do
    info ← create_sandbox env config
    pure (record { info = info; requested_sandbox_id = none; disposition = created_new })

  unfoldable pub get_process_of : ProcessId → M (World S) ProcessInfo
  get_process_of id w = (ok_or (get_process w.store id) (process_not_found env id), w)

  -- `HyperboxServer::get_process`
  unfoldable pub fetch_process : ProcessId → M (World S) ProcessInfo
  fetch_process id = do
    ensure_hydrated env
    cleanup_expired_processes env
    process ← get_process_of id
    refresh_process env process
