-- ===== src/Server/Client/Calls.antt =====
-- `GrpcControlClient` of crates/hyperbox-server/src/client.rs: its calls over a service. The
-- transport hands a request to the service and its reply back; a failure of its own is a status.
use hyperbox.Prelude.{ℕ, Bool, Option, none, some, List, [], ◌∷◌, ◌++◌, Text, codes, text_eq}
use hyperbox.Core.Error
use hyperbox.Core.Error.{Result, ok, err, ok_or}
use hyperbox.Core.Config.{SandboxConfig, SandboxId, SandboxInfo, default_config}
use hyperbox.Core.Process.{StreamName, ProcessDisposition, ProcessId, ProcessInfo, ProcessLogRead}
use hyperbox.Core.Snapshot.{SnapshotId, SnapshotMetadata}
use hyperbox.Server.Monad.{Action, ◌>>=◌, pure, lift}
use hyperbox.Server.Runtime.Runs.{StartRunRequest, StartedRun, PreparedRunSandbox}
use hyperbox.Server.Runtime.Destroy.{ActiveSandboxInfo}
use hyperbox.Server.Wire.{
  Codec, ProtoConfig, ProtoInfo, ProtoProcess, or_default, shown, not_empty, map_err, map_ok,
  debug_disposition, stream_text, into_proto_config,
}
use hyperbox.Server.Grpc.{Control, Reply, ProtoActive, ProtoSnapshot}
use hyperbox.Server.Client.{
  R, ClientError, refused, missing, uuid_of, time_of, optional, disposition_of, parse_log,
  parse_config, parse_sandbox_info, parse_process_info,
}

abbrev pub Call : Type 0 → Type 0 → Type 0
Call W A = Action ClientError W A

pub record SandboxDetails : Type 0 where
  pub info : SandboxInfo
  pub config : SandboxConfig

-- `.await?`
unfoldable pub called : {W A : Type 0} → Reply W A → Call W A
called m w = let (r, v) = m w in (map_err refused r, v)

-- `ok_or_else(|| anyhow!("missing .."))`, and what is read from the field.
abbrev pub given : {A B : Type 0} → Text → Option A → (A → R B) → R B
given what none f = err (missing (codes "missing " ++ what))
given what (some a) f = f a

abbrev pub push : {A : Type 0} → R A → R (List A) → R (List A)
push (err e) rest = err e
push (ok a) (err e) = err e
push (ok a) (ok l) = ok (a ∷ l)

-- `map(f).collect::<Result<_>>()`
unfoldable pub collect : {A B : Type 0} → (A → R B) → List A → R (List B)
collect f [] = ok []
collect f (x ∷ xs) = push (f x) (collect f xs)

-- A loop that ran out of fuel sends nothing.
abbrev pub polled : {A B : Type 0} → (A → R B) → Option A → R (Option B)
polled f none = ok none
polled f (some a) = map_ok some (f a)

module _ (codec : Codec) where
  abbrev pub process_from : Option ProtoProcess → R ProcessInfo
  process_from o = given (codes "process info") o (parse_process_info codec)

  abbrev pub info_from : Option ProtoInfo → R SandboxInfo
  info_from o = given (codes "sandbox info") o (parse_sandbox_info codec)

  -- The rows of `list_sandboxes`
  unfoldable pub row_from : ProtoActive → R ActiveSandboxInfo
  row_from row =
      map_ok (λ info. record { info = info; affinity_name = not_empty row.affinity_name })
        (info_from row.info)

  -- The rows of `list_snapshots`: the configuration is the default one with the template.
  unfoldable pub snapshot_from : ProtoSnapshot → R SnapshotMetadata
  snapshot_from s = Error.◌>>=◌ (uuid_of codec s.snapshot_id) λ id.
      Error.◌>>=◌ (uuid_of codec s.sandbox_id) λ sandbox_id.
        map_ok
          (λ created_at. record {
            id = id;
            sandbox_id = sandbox_id;
            affinity_name = not_empty s.affinity_name;
            template = s.template;
            config = record default_config { template = s.template };
            created_at = created_at;
            note = not_empty s.note;
          })
          (time_of codec s.created_at)

  module _ {W : Type 0} (inner : Control W) where
    unfoldable pub start_process :
        SandboxId → List Text → Option SandboxId → ProcessDisposition → Bool → Call W ProcessInfo
    start_process id command requested disposition destroy = do
      reply ← called (
          inner.start_process (record {
            sandbox_id = codec.show_uuid id;
            command = command;
            requested_sandbox_id = shown codec.show_uuid requested;
            disposition = debug_disposition disposition;
            destroy_sandbox_on_expiry = destroy;
          }))
      lift (process_from reply)

    abbrev pub message_config : Option SandboxConfig → Option ProtoConfig
    message_config none = none
    message_config (some c) = some (into_proto_config codec c)

    unfoldable pub start_run : StartRunRequest → Call W StartedRun
    start_run request = do
      reply ← called (
          inner.start_run (record {
            sandbox_id = shown codec.show_uuid request.sandbox_id;
            affinity_name = or_default [] request.affinity_name;
            create_config = message_config request.create_config;
            reuse_auto_session = request.reuse_auto_session;
            ensure_commands = request.ensure_commands;
            writes = request.writes;
            command = request.command;
            destroy_sandbox_on_expiry = request.destroy_sandbox_on_expiry;
          }))
      process ← lift (process_from reply.process)
      sandbox ← lift (info_from reply.sandbox)
      pure (record {
        process = process;
        sandbox = sandbox;
        session_name = not_empty reply.session_name;
        session_created = reply.session_created;
      })

    unfoldable pub prepare_run_sandbox :
        SandboxId → Option SandboxConfig → Call W PreparedRunSandbox
    prepare_run_sandbox id overflow_config = do
      reply ←
          called (inner.prepare_run_sandbox (codec.show_uuid id) (message_config overflow_config))
      info ← lift (info_from reply.info)
      requested ← lift (optional codec (uuid_of codec) reply.requested_sandbox_id)
      pure (record {
        info = info;
        requested_sandbox_id = requested;
        disposition = disposition_of reply.disposition;
      })

    unfoldable pub get_process : ProcessId → Call W ProcessInfo
    get_process id = do
      reply ← called (inner.get_process (codec.show_uuid id))
      lift (process_from reply)

    unfoldable pub list_processes : Call W (List ProcessInfo)
    list_processes = do
      reply ← called inner.list_processes
      lift (collect (parse_process_info codec) reply)

    unfoldable pub read_process_log : ProcessId → StreamName → ℕ → ℕ → Call W ProcessLogRead
    read_process_log id stream offset limit = do
      reply ← called (inner.read_process_log (codec.show_uuid id) (stream_text stream) offset limit)
      pure (parse_log reply)

    unfoldable pub wait_process : ℕ → ProcessId → ℕ → Call W (Option ProcessInfo)
    wait_process fuel id timeout_secs = do
      reply ← called (inner.wait_process fuel (codec.show_uuid id) timeout_secs)
      lift (polled process_from reply)

    unfoldable pub cancel_process : ℕ → ProcessId → Call W (Option ProcessInfo)
    cancel_process fuel id = do
      reply ← called (inner.cancel_process fuel (codec.show_uuid id))
      lift (polled process_from reply)

    unfoldable pub create_sandbox : SandboxConfig → Call W SandboxInfo
    create_sandbox config = do
      reply ← called (inner.create_sandbox (some (into_proto_config codec config)))
      lift (info_from reply)

    unfoldable pub destroy_sandbox : ℕ → SandboxId → Call W (Unit {0})
    destroy_sandbox fuel id = called (inner.destroy_sandbox fuel (codec.show_uuid id))

    unfoldable pub inspect_sandbox_details : SandboxId → Call W SandboxDetails
    inspect_sandbox_details id = do
      reply ← called (inner.inspect_sandbox (codec.show_uuid id))
      sent_info ← lift (given (codes "sandbox info") reply.info λ i. ok i)
      sent_config ← lift (given (codes "sandbox config") reply.config λ c. ok c)
      info ← lift (parse_sandbox_info codec sent_info)
      config ← lift (parse_config codec sent_config)
      pure (record { info = info; config = config })

    unfoldable pub inspect_sandbox : SandboxId → Call W SandboxInfo
    inspect_sandbox id = do details ← inspect_sandbox_details id; pure details.info

    unfoldable pub list_sandboxes : Call W (List ActiveSandboxInfo)
    list_sandboxes = do reply ← called inner.list_sandboxes; lift (collect row_from reply)

    unfoldable pub write_file : SandboxId → Text → List ℕ → Call W (Unit {0})
    write_file id path bytes = called (inner.write_file (codec.show_uuid id) path bytes)

    unfoldable pub read_file : SandboxId → Text → Call W (List ℕ)
    read_file id path = called (inner.read_file (codec.show_uuid id) path)

    unfoldable pub create_snapshot : SandboxId → Option Text → Call W (SnapshotId × Text)
    create_snapshot id note = do
      reply ← called (inner.create_snapshot (codec.show_uuid id) (or_default [] note))
      snapshot_id ← lift (uuid_of codec reply.0)
      pure (snapshot_id, reply.1)

    unfoldable pub restore_snapshot : SnapshotId → Call W SandboxInfo
    restore_snapshot id = do
      reply ← called (inner.restore_snapshot (codec.show_uuid id))
      lift (info_from reply)

    unfoldable pub list_snapshots : Text → Call W (List SnapshotMetadata)
    list_snapshots template = do
      reply ← called (inner.list_snapshots template)
      lift (collect snapshot_from reply)

    unfoldable pub resolve_affinity : Text → Bool → Call W (SandboxInfo × Bool)
    resolve_affinity name restore_if_needed = do
      reply ← called (inner.resolve_affinity name restore_if_needed)
      info ← lift (info_from reply.0)
      pure (info, reply.1)
