-- ===== src/Server/Wire.antt =====
-- The messages of src/proto/hyperbox/v1/control.proto that crates/hyperbox-server/src/grpc.rs and
-- client.rs exchange, and the conversions of grpc.rs. The texts of UUIDs and of times are those of
-- the crates uuid and chrono, a parameter. The map of a message is unordered: the order in which it
-- gives its entries back is a parameter too.
use hyperbox.Prelude.{
  ℕ, ◌%◌, Bool, Option, none, some, List, [], ◌++◌, Text, codes, is_empty, is_some, text_eq, ◌==◌,
  nat_beq, if◌then◌else◌, Assoc, ℤ, pos, negsuc,
}
use hyperbox.Core.Error.{Result, ok, err}
use hyperbox.Core.Allowlist.{
  ParseError, empty_domain, not_bare_domain, invalid_wildcard, not_a_domain, unsupported_characters,
  parse_all, to_strings,
}
use hyperbox.Core.Config.{
  NetworkMode, none_mode, full_mode, allowlist_mode, SandboxConfig, default_config, SandboxId,
  SandboxState, provisioning, ready, busy, stopped, SandboxInfo, Time,
}
use hyperbox.Core.Process.{
  StreamName, stdout, stderr, ProcessId, ProcessDisposition, reused_existing, created_new,
  created_due_to_busy, ProcessStatus, starting, running, succeeded, cancelled, lost, ProcessInfo,
  ProcessLogRead,
}
use hyperbox.Status.{Status, status, invalid_argument}

-- `Uuid`'s and `DateTime`'s `Display` and parsers; the error of a parser as its text. `entries` is
-- the order in which a message's `HashMap` gives the entries back that were put into it, which may
-- be any.
pub record Codec : Type 0 where
  pub show_uuid : ℕ → Text
  pub parse_uuid : Text → Result Text ℕ
  pub to_rfc3339 : Time → Text
  pub parse_rfc3339 : Text → Result Text Time
  pub entries : Assoc Text Text → Assoc Text Text

pub record ProtoConfig : Type 0 where
  pub template : Text
  pub memory_mb : ℕ
  pub vcpu_count : ℕ
  pub timeout_secs : ℕ
  pub env : Assoc Text Text
  pub network_mode : ℤ
  pub network_allowlist : List Text
  pub workspace_dir : Text
  pub affinity_name : Text

pub record ProtoInfo : Type 0 where
  pub id : Text
  pub template : Text
  pub state : Text
  pub created_at : Text

pub record ProtoProcess : Type 0 where
  pub process_id : Text
  pub sandbox_id : Text
  pub requested_sandbox_id : Text
  pub disposition : Text
  pub destroy_sandbox_on_expiry : Bool
  pub command : List Text
  pub status : Text
  pub stdout_path : Text
  pub stderr_path : Text
  pub backend_pid : ℕ
  pub has_backend_pid : Bool
  pub exit_code : ℤ
  pub has_exit_code : Bool
  pub started_at : Text
  pub finished_at : Text
  pub expires_at : Text

pub record ProtoLog : Type 0 where
  pub stream : Text
  pub offset : ℕ
  pub next_offset : ℕ
  pub eof : Bool
  pub contents : Text

-- `unwrap_or_default`
abbrev pub or_default {ℓ} : {A : Type ℓ} → A → Option A → A
or_default d none = d
or_default d (some a) = a

-- `map(f).unwrap_or_default()` into a text
abbrev pub shown {ℓ} : {A : Type ℓ} → (A → Text) → Option A → Text
shown f none = []
shown f (some a) = f a

-- `if s.is_empty() { None } else { Some(s) }`
abbrev pub not_empty : Text → Option Text
not_empty s = if is_empty s then none else some s

-- The `Debug` forms
unfoldable pub debug_state : SandboxState → Text
debug_state provisioning = codes "Provisioning"
debug_state ready = codes "Ready"
debug_state busy = codes "Busy"
debug_state stopped = codes "Stopped"
debug_state SandboxState.failed = codes "Failed"

unfoldable pub debug_disposition : ProcessDisposition → Text
debug_disposition reused_existing = codes "ReusedExisting"
debug_disposition created_new = codes "CreatedNew"
debug_disposition created_due_to_busy = codes "CreatedDueToBusy"

unfoldable pub debug_status : ProcessStatus → Text
debug_status starting = codes "Starting"
debug_status running = codes "Running"
debug_status succeeded = codes "Succeeded"
debug_status ProcessStatus.failed = codes "Failed"
debug_status cancelled = codes "Cancelled"
debug_status lost = codes "Lost"

unfoldable pub parse_process_disposition : Text → Result Status ProcessDisposition
parse_process_disposition raw =
    if is_empty raw
    then ok reused_existing
    else if raw == codes "ReusedExisting"
    then ok reused_existing
    else if raw == codes "CreatedNew"
    then ok created_new
    else if raw == codes "CreatedDueToBusy"
    then ok created_due_to_busy
    else err (status invalid_argument (codes "invalid process disposition: " ++ raw))

unfoldable pub parse_stream_name : Text → Result Status StreamName
parse_stream_name raw =
    if raw == codes "stdout"
    then ok stdout
    else if raw == codes "Stdout"
    then ok stdout
    else if raw == codes "stderr"
    then ok stderr
    else if raw == codes "Stderr"
    then ok stderr
    else err (status invalid_argument (codes "invalid stream: " ++ raw))

abbrev pub stream_text : StreamName → Text
stream_text stdout = codes "stdout"
stream_text stderr = codes "stderr"

unfoldable pub into_proto_process_log : ProcessLogRead → ProtoLog
into_proto_process_log log = record {
  stream = stream_text log.stream;
  offset = log.offset;
  next_offset = log.next_offset;
  eof = log.eof;
  contents = log.contents;
}

-- `pb::NetworkMode as i32` with the patterns of an allowlist, and `try_from` with what `match` makes
-- of its variants.
abbrev pub network_code : NetworkMode → ℤ
network_code none_mode = pos 1
network_code (allowlist_mode domains) = pos 2
network_code full_mode = pos 3

abbrev pub network_patterns : NetworkMode → List Text
network_patterns none_mode = []
network_patterns (allowlist_mode domains) = to_strings domains
network_patterns full_mode = []

-- The messages of `AllowlistEntry::parse`
unfoldable pub parse_message : ParseError → Text
parse_message empty_domain = codes "allowlist domains must be non-empty"
parse_message (not_bare_domain d) =
    codes "allowlist entry `"
    ++ (d ++ codes "` must be a bare domain (no scheme, port, path, or spaces)")
parse_message (invalid_wildcard d) =
    codes "allowlist entry `" ++ (d ++ codes "` has an invalid wildcard; use leading `*.` only")
parse_message (not_a_domain d) = codes "allowlist entry `" ++ (d ++ codes "` is not a valid domain")
parse_message (unsupported_characters d) =
    codes "allowlist entry `" ++ (d ++ codes "` contains unsupported characters")

abbrev pub map_err {ℓ} : {E F A : Type ℓ} → (E → F) → Result E A → Result F A
map_err f (ok a) = ok a
map_err f (err e) = err (f e)

abbrev pub map_ok {ℓ} : {E A B : Type ℓ} → (A → B) → Result E A → Result E B
map_ok f (ok a) = ok (f a)
map_ok f (err e) = err e

unfoldable pub network_of : ℤ → List Text → Result ParseError NetworkMode
network_of (negsuc n) patterns = ok none_mode
network_of (pos n) patterns =
    if nat_beq n 2
    then map_ok allowlist_mode (parse_all patterns)
    else if nat_beq n 3
    then ok full_mode
    else ok none_mode

abbrev pub non_zero : ℕ → ℕ → ℕ
non_zero d n = if nat_beq n 0 then d else n

module _ (codec : Codec) where
  -- `config.vcpu_count as u8` keeps the low eight bits; the variables come out of the message's map.
  unfoldable pub from_proto_config : ProtoConfig → Result Status SandboxConfig
  from_proto_config config =
      map_ok
        (λ network. record {
          affinity_name = not_empty config.affinity_name;
          template = if is_empty config.template then default_config.template else config.template;
          memory_mb = non_zero default_config.memory_mb config.memory_mb;
          vcpu_count =
              if nat_beq config.vcpu_count 0
              then default_config.vcpu_count
              else config.vcpu_count % 256;
          workspace_dir = not_empty config.workspace_dir;
          network = network;
          env = codec.entries config.env;
          timeout_secs = non_zero default_config.timeout_secs config.timeout_secs;
        })
        (map_err (λ e. status invalid_argument (parse_message e))
          (network_of config.network_mode config.network_allowlist))

  -- The variables go into the message's map.
  unfoldable pub into_proto_config : SandboxConfig → ProtoConfig
  into_proto_config config = record {
    template = config.template;
    memory_mb = config.memory_mb;
    vcpu_count = config.vcpu_count;
    timeout_secs = config.timeout_secs;
    env = codec.entries config.env;
    network_mode = network_code config.network;
    network_allowlist = network_patterns config.network;
    workspace_dir = or_default [] config.workspace_dir;
    affinity_name = or_default [] config.affinity_name;
  }

  unfoldable pub parse_sandbox_id : Text → Result Status SandboxId
  parse_sandbox_id raw =
      map_err (λ e. status invalid_argument (codes "invalid sandbox_id: " ++ e))
        (codec.parse_uuid raw)

  unfoldable pub parse_process_id : Text → Result Status ProcessId
  parse_process_id raw =
      map_err (λ e. status invalid_argument (codes "invalid process_id: " ++ e))
        (codec.parse_uuid raw)

  unfoldable pub into_proto_info : SandboxInfo → ProtoInfo
  into_proto_info info = record {
    id = codec.show_uuid info.id;
    template = info.template;
    state = debug_state info.state;
    created_at = codec.to_rfc3339 info.created_at;
  }

  unfoldable pub into_proto_process : ProcessInfo → ProtoProcess
  into_proto_process process = record {
    process_id = codec.show_uuid process.id;
    sandbox_id = codec.show_uuid process.sandbox_id;
    requested_sandbox_id = shown codec.show_uuid process.requested_sandbox_id;
    disposition = debug_disposition process.disposition;
    destroy_sandbox_on_expiry = process.destroy_sandbox_on_expiry;
    command = process.command;
    status = debug_status process.status;
    stdout_path = process.stdout_path;
    stderr_path = process.stderr_path;
    backend_pid = or_default 0 process.backend_pid;
    has_backend_pid = is_some process.backend_pid;
    exit_code = or_default (pos 0) process.exit_code;
    has_exit_code = is_some process.exit_code;
    started_at = codec.to_rfc3339 process.started_at;
    finished_at = shown codec.to_rfc3339 process.finished_at;
    expires_at = shown codec.to_rfc3339 process.expires_at;
  }
