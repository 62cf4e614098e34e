-- ===== src/Server/Grpc.antt =====
-- `GrpcControlService` of crates/hyperbox-server/src/grpc.rs: the methods of the service over the
-- server's. `Control` is the service as its client sees it: the generated trait, without the calls
-- that no client makes (`get_metrics`) or that read no state of the server (`get_server_info`,
-- `list_templates`). Where a loop of the server runs out of its fuel, the reply is `none`.
use hyperbox.Prelude.{
  ℕ, Bool, Option, none, some, List, [], ◌++◌, map, Text, codes, is_empty, trim, leb, if◌then◌else◌,
}
use hyperbox.Core.Error.{Result, ok, HyperboxError, display}
use hyperbox.Core.Config.{SandboxConfig, SandboxId, default_config}
use hyperbox.Core.Process.{ProcessInfo}
use hyperbox.Core.Snapshot.{SnapshotMetadata}
use hyperbox.Status.{Status, status, invalid_argument, internal}
use hyperbox.Server.Monad.{Action, M, ◌>>=◌, pure, throw, lift}
use hyperbox.Server.Environment.{Environment}
use hyperbox.Server.Runtime.{World}
use hyperbox.Server.Runtime.Runs
use hyperbox.Server.Runtime.Runs.{
  StartRunRequest, StartedRun, PreparedRunSandbox, prepare_run_sandbox,
}
use hyperbox.Server.Runtime.StartRun
use hyperbox.Server.Runtime.Sandboxes
use hyperbox.Server.Runtime.Watch
use hyperbox.Server.Runtime.Destroy
use hyperbox.Server.Runtime.Destroy.{ActiveSandboxInfo}
use hyperbox.Server.Wire.{
  Codec, ProtoConfig, ProtoInfo, ProtoProcess, ProtoLog, or_default, shown, not_empty, map_err,
  map_ok, debug_disposition, parse_process_disposition, parse_stream_name, into_proto_process_log,
  parse_sandbox_id, parse_process_id, into_proto_info, into_proto_process, into_proto_config,
  from_proto_config,
}

pub record StartProcessMessage : Type 0 where
  pub sandbox_id : Text
  pub command : List Text
  pub requested_sandbox_id : Text
  pub disposition : Text
  pub destroy_sandbox_on_expiry : Bool

pub record StartRunMessage : Type 0 where
  pub sandbox_id : Text
  pub affinity_name : Text
  pub create_config : Option ProtoConfig
  pub reuse_auto_session : Bool
  pub ensure_commands : List Text
  pub writes : List (Text × List ℕ)
  pub command : Text
  pub destroy_sandbox_on_expiry : Bool

pub record StartRunReply : Type 0 where
  pub process : Option ProtoProcess
  pub sandbox : Option ProtoInfo
  pub session_name : Text
  pub session_created : Bool

pub record PrepareReply : Type 0 where
  pub info : Option ProtoInfo
  pub requested_sandbox_id : Text
  pub disposition : Text

pub record InspectReply : Type 0 where
  pub info : Option ProtoInfo
  pub config : Option ProtoConfig

pub record ProtoActive : Type 0 where
  pub info : Option ProtoInfo
  pub affinity_name : Text

pub record ProtoSnapshot : Type 0 where
  pub snapshot_id : Text
  pub sandbox_id : Text
  pub template : Text
  pub created_at : Text
  pub note : Text
  pub affinity_name : Text

abbrev pub Reply : Type 0 → Type 0 → Type 0
Reply W A = Action Status W A

-- `trait HyperboxControl`, by the fields of the request messages
pub record Control (W : Type 0) : Type 0 where
  pub start_process : StartProcessMessage → Reply W (Option ProtoProcess)
  pub start_run : StartRunMessage → Reply W StartRunReply
  pub prepare_run_sandbox : Text → Option ProtoConfig → Reply W PrepareReply
  pub get_process : Text → Reply W (Option ProtoProcess)
  pub list_processes : Reply W (List ProtoProcess)
  pub read_process_log : Text → Text → ℕ → ℕ → Reply W ProtoLog
  pub wait_process : ℕ → Text → ℕ → Reply W (Option (Option ProtoProcess))
  pub cancel_process : ℕ → Text → Reply W (Option (Option ProtoProcess))
  pub create_sandbox : Option ProtoConfig → Reply W (Option ProtoInfo)
  pub destroy_sandbox : ℕ → Text → Reply W (Unit {0})
  pub inspect_sandbox : Text → Reply W InspectReply
  pub list_sandboxes : Reply W (List ProtoActive)
  pub read_file : Text → Text → Reply W (List ℕ)
  pub write_file : Text → Text → List ℕ → Reply W (Unit {0})
  pub create_snapshot : Text → Text → Reply W (Text × Text)
  pub restore_snapshot : Text → Reply W (Option ProtoInfo)
  pub list_snapshots : Text → Reply W (List ProtoSnapshot)
  pub resolve_affinity : Text → Bool → Reply W (Option ProtoInfo × Bool)

-- `map_err(|e| Status::internal(e.to_string()))`
abbrev pub internal_error : HyperboxError → Status
internal_error e = status internal (display e)

unfoldable pub served : {W A : Type 0} → M W A → Reply W A
served m w = let (r, v) = m w in (map_err internal_error r, v)

module _ {S : Type 0} (env : Environment S) (codec : Codec) where
  -- `map(..).transpose()?`
  abbrev pub optional_config : Option ProtoConfig → Result Status (Option SandboxConfig)
  optional_config none = ok none
  optional_config (some c) = map_ok some (from_proto_config codec c)

  abbrev pub optional_id : Text → Result Status (Option SandboxId)
  optional_id s = if is_empty s then ok none else map_ok some (parse_sandbox_id codec s)

  unfoldable pub start_process : StartProcessMessage → Reply (World S) (Option ProtoProcess)
  start_process request = do
    sandbox_id ← lift (parse_sandbox_id codec request.sandbox_id)
    requested ← lift (optional_id request.requested_sandbox_id)
    disposition ← lift (parse_process_disposition request.disposition)
    process ← served (
        Runs.start_process env sandbox_id request.command requested disposition
          request.destroy_sandbox_on_expiry)
    pure (some (into_proto_process codec process))

  unfoldable pub into_proto_started_run : StartedRun → StartRunReply
  into_proto_started_run started = record {
    process = some (into_proto_process codec started.process);
    sandbox = some (into_proto_info codec started.sandbox);
    session_name = or_default [] started.session_name;
    session_created = started.session_created;
  }

  unfoldable pub start_run : StartRunMessage → Reply (World S) StartRunReply
  start_run request = do
    sandbox_id ← lift (optional_id request.sandbox_id)
    create_config ← lift (optional_config request.create_config)
    started ← served (
        StartRun.start_run env (record {
          sandbox_id = sandbox_id;
          affinity_name = not_empty request.affinity_name;
          create_config = create_config;
          reuse_auto_session = request.reuse_auto_session;
          ensure_commands = request.ensure_commands;
          writes = request.writes;
          command = request.command;
          destroy_sandbox_on_expiry = request.destroy_sandbox_on_expiry;
        }))
    pure (into_proto_started_run started)

  unfoldable pub into_proto_prepared_run_sandbox : PreparedRunSandbox → PrepareReply
  into_proto_prepared_run_sandbox prepared = record {
    info = some (into_proto_info codec prepared.info);
    requested_sandbox_id = shown codec.show_uuid prepared.requested_sandbox_id;
    disposition = debug_disposition prepared.disposition;
  }

  unfoldable pub prepare_run : Text → Option ProtoConfig → Reply (World S) PrepareReply
  prepare_run id overflow_config = do
    sandbox_id ← lift (parse_sandbox_id codec id)
    config ← lift (optional_config overflow_config)
    prepared ← served (prepare_run_sandbox env sandbox_id config)
    pure (into_proto_prepared_run_sandbox prepared)

  unfoldable pub get_process : Text → Reply (World S) (Option ProtoProcess)
  get_process id = do
    process_id ← lift (parse_process_id codec id)
    process ← served (Runs.fetch_process env process_id)
    pure (some (into_proto_process codec process))

  unfoldable pub list_processes : Reply (World S) (List ProtoProcess)
  list_processes = do
    processes ← served (Watch.list_processes env)
    pure (map (into_proto_process codec) processes)

  unfoldable pub read_process_log : Text → Text → ℕ → ℕ → Reply (World S) ProtoLog
  read_process_log id name offset limit = do
    process_id ← lift (parse_process_id codec id)
    stream ← lift (parse_stream_name name)
    log ← served (Watch.read_process_log env process_id stream offset limit)
    pure (into_proto_process_log log)

  abbrev pub sent_process : Option ProcessInfo → Option (Option ProtoProcess)
  sent_process none = none
  sent_process (some p) = some (some (into_proto_process codec p))

  unfoldable pub wait_process : ℕ → Text → ℕ → Reply (World S) (Option (Option ProtoProcess))
  wait_process fuel id timeout_secs = do
    process_id ← lift (parse_process_id codec id)
    process ←
        served
          (Watch.wait_process env fuel process_id (if leb timeout_secs 1 then 1 else timeout_secs))
    pure (sent_process process)

  unfoldable pub cancel_process : ℕ → Text → Reply (World S) (Option (Option ProtoProcess))
  cancel_process fuel id = do
    process_id ← lift (parse_process_id codec id)
    process ← served (Watch.cancel_process env fuel process_id)
    pure (sent_process process)

  unfoldable pub create_sandbox : Option ProtoConfig → Reply (World S) (Option ProtoInfo)
  create_sandbox request = do
    config ← lift (optional_config request)
    info ← served (Sandboxes.create_sandbox env (or_default default_config config))
    pure (some (into_proto_info codec info))

  unfoldable pub destroy_sandbox : ℕ → Text → Reply (World S) (Unit {0})
  destroy_sandbox fuel id = do
    sandbox_id ← lift (parse_sandbox_id codec id)
    served (Destroy.destroy_sandbox env fuel sandbox_id)

  unfoldable pub inspect_sandbox : Text → Reply (World S) InspectReply
  inspect_sandbox id = do
    sandbox_id ← lift (parse_sandbox_id codec id)
    info ← served (Sandboxes.inspect env sandbox_id)
    config ← served (Sandboxes.sandbox_config env sandbox_id)
    pure (record {
      info = some (into_proto_info codec info);
      config = some (into_proto_config codec config);
    })

  abbrev pub sent_row : ActiveSandboxInfo → ProtoActive
  sent_row row = record {
    info = some (into_proto_info codec row.info);
    affinity_name = or_default [] row.affinity_name;
  }

  unfoldable pub list_sandboxes : Reply (World S) (List ProtoActive)
  list_sandboxes = do rows ← served (Destroy.list_sandboxes env); pure (map sent_row rows)

  unfoldable pub read_file : Text → Text → Reply (World S) (List ℕ)
  read_file id path = do
    sandbox_id ← lift (parse_sandbox_id codec id)
    file ← served (Sandboxes.read_file env sandbox_id path)
    pure file.bytes

  unfoldable pub write_file : Text → Text → List ℕ → Reply (World S) (Unit {0})
  write_file id path bytes = do
    sandbox_id ← lift (parse_sandbox_id codec id)
    served (Sandboxes.write_file env sandbox_id (record { path = path; bytes = bytes }))

  unfoldable pub create_snapshot : Text → Text → Reply (World S) (Text × Text)
  create_snapshot id note = do
    sandbox_id ← lift (parse_sandbox_id codec id)
    snapshot ← served (Sandboxes.create_snapshot env sandbox_id (not_empty note))
    pure (codec.show_uuid snapshot.id, codec.to_rfc3339 snapshot.created_at)

  abbrev pub bad_snapshot_id : Text → Status
  bad_snapshot_id e = status invalid_argument (codes "invalid snapshot_id: " ++ e)

  unfoldable pub restore_snapshot : Text → Reply (World S) (Option ProtoInfo)
  restore_snapshot id = do
    snapshot_id ← lift (map_err bad_snapshot_id (codec.parse_uuid id))
    info ← served (Sandboxes.restore_snapshot env snapshot_id)
    pure (some (into_proto_info codec info))

  abbrev pub sent_snapshot : SnapshotMetadata → ProtoSnapshot
  sent_snapshot s = record {
    snapshot_id = codec.show_uuid s.id;
    sandbox_id = codec.show_uuid s.sandbox_id;
    template = s.template;
    created_at = codec.to_rfc3339 s.created_at;
    note = or_default [] s.note;
    affinity_name = or_default [] s.affinity_name;
  }

  unfoldable pub list_snapshots : Text → Reply (World S) (List ProtoSnapshot)
  list_snapshots template = do
    snapshots ← served (
        Sandboxes.list_snapshots env
          (if is_empty template then default_config.template else template))
    pure (map sent_snapshot snapshots)

  unfoldable pub resolve_affinity : Text → Bool → Reply (World S) (Option ProtoInfo × Bool)
  resolve_affinity name restore_if_needed =
      if is_empty (trim name)
      then throw (status invalid_argument (codes "name must not be empty"))
      else (do
        found ← served (Sandboxes.resolve_affinity env name restore_if_needed)
        pure (some (into_proto_info codec found.0), found.1))

  -- `impl HyperboxControl for GrpcControlService`
  unfoldable pub control_service : Control (World S)
  control_service = record {
    start_process = start_process;
    start_run = start_run;
    prepare_run_sandbox = prepare_run;
    get_process = get_process;
    list_processes = list_processes;
    read_process_log = read_process_log;
    wait_process = wait_process;
    cancel_process = cancel_process;
    create_sandbox = create_sandbox;
    destroy_sandbox = destroy_sandbox;
    inspect_sandbox = inspect_sandbox;
    list_sandboxes = list_sandboxes;
    read_file = read_file;
    write_file = write_file;
    create_snapshot = create_snapshot;
    restore_snapshot = restore_snapshot;
    list_snapshots = list_snapshots;
    resolve_affinity = resolve_affinity;
  }
