-- ===== src/Server/Client.antt =====
-- The conversions of crates/hyperbox-server/src/client.rs, which read what the service sends.
pub mod RoundTrip
pub mod Configs
pub mod Calls
pub mod Service
pub mod Methods
use hyperbox.Prelude.{
  ℕ, ◌%◌, Bool, true, false, Option, none, some, List, [], ◌∷◌, Text, codes, is_empty, text_eq,
  ◌==◌, if◌then◌else◌,
}
use hyperbox.Core.Error.{Result, ok, err, ◌>>=◌}
use hyperbox.Core.Allowlist.{ParseError}
use hyperbox.Core.Config.{
  SandboxConfig, SandboxId, SandboxState, provisioning, ready, busy, stopped, failed, SandboxInfo,
  Time,
}
use hyperbox.Core.Process.{
  StreamName, stdout, stderr, ProcessDisposition, reused_existing, created_new, created_due_to_busy,
  ProcessStatus, starting, running, succeeded, cancelled, lost, ProcessInfo, ProcessLogRead,
}
use hyperbox.Status.{Status}
use hyperbox.Server.Wire.{
  Codec, ProtoConfig, ProtoInfo, ProtoProcess, ProtoLog, map_err, map_ok, not_empty, network_of,
}

-- `anyhow::Error`: a status, a field that the message lacks, or a text that does not parse.
pub data ClientError : Type 0 where
  refused : Status → ClientError
  missing invalid_text : Text → ClientError
  invalid_allowlist : ParseError → ClientError

abbrev pub R : Type 0 → Type 0
R A = Result ClientError A

unfoldable pub state_of : Text → SandboxState
state_of s =
    if s == codes "Provisioning"
    then provisioning
    else if s == codes "Busy"
    then busy
    else if s == codes "Stopped"
    then stopped
    else if s == codes "Failed"
    then SandboxState.failed
    else ready

unfoldable pub disposition_of : Text → ProcessDisposition
disposition_of s =
    if s == codes "CreatedNew"
    then created_new
    else if s == codes "CreatedDueToBusy"
    then created_due_to_busy
    else reused_existing

unfoldable pub status_of : Text → ProcessStatus
status_of s =
    if s == codes "Starting"
    then starting
    else if s == codes "Running"
    then running
    else if s == codes "Succeeded"
    then succeeded
    else if s == codes "Cancelled"
    then cancelled
    else if s == codes "Lost"
    then lost
    else ProcessStatus.failed

-- `then_some`
abbrev pub then_some {ℓ} : {A : Type ℓ} → Bool → A → Option A
then_some b a = if b then some a else none

unfoldable pub parse_log : ProtoLog → ProcessLogRead
parse_log log = record {
  stream = if log.stream == codes "stderr" then stderr else stdout;
  offset = log.offset;
  next_offset = log.next_offset;
  eof = log.eof;
  contents = log.contents;
}

module _ (codec : Codec) where
  -- The configuration that `inspect_sandbox_details` reads: unlike the service's, it fills in no
  -- default.
  unfoldable pub parse_config : ProtoConfig → R SandboxConfig
  parse_config config =
      map_ok
        (λ network. record {
          affinity_name = not_empty config.affinity_name;
          template = config.template;
          memory_mb = config.memory_mb;
          vcpu_count = config.vcpu_count % 256;
          workspace_dir = not_empty config.workspace_dir;
          network = network;
          env = codec.entries config.env;
          timeout_secs = config.timeout_secs;
        })
        (map_err invalid_allowlist (network_of config.network_mode config.network_allowlist))

  unfoldable pub uuid_of : Text → R ℕ
  uuid_of s = map_err invalid_text (codec.parse_uuid s)

  unfoldable pub time_of : Text → R Time
  time_of s = map_err invalid_text (codec.parse_rfc3339 s)

  abbrev pub optional : {A : Type 0} → (Text → R A) → Text → R (Option A)
  optional f s = if is_empty s then ok none else map_ok some (f s)

  unfoldable pub parse_sandbox_info : ProtoInfo → R SandboxInfo
  parse_sandbox_info info = do
    id ← uuid_of info.id
    created_at ← time_of info.created_at
    ok (record {
      id = id;
      template = info.template;
      state = state_of info.state;
      created_at = created_at;
    })

  unfoldable pub parse_process_info : ProtoProcess → R ProcessInfo
  parse_process_info info = do
    id ← uuid_of info.process_id
    sandbox_id ← uuid_of info.sandbox_id
    requested_sandbox_id ← optional uuid_of info.requested_sandbox_id
    started_at ← time_of info.started_at
    finished_at ← optional time_of info.finished_at
    expires_at ← optional time_of info.expires_at
    ok (record {
      id = id;
      sandbox_id = sandbox_id;
      requested_sandbox_id = requested_sandbox_id;
      disposition = disposition_of info.disposition;
      destroy_sandbox_on_expiry = info.destroy_sandbox_on_expiry;
      command = info.command;
      status = status_of info.status;
      stdout_path = info.stdout_path;
      stderr_path = info.stderr_path;
      backend_pid = then_some info.has_backend_pid info.backend_pid;
      exit_code = then_some info.has_exit_code info.exit_code;
      started_at = started_at;
      finished_at = finished_at;
      expires_at = expires_at;
    })
