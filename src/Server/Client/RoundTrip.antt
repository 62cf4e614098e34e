-- ===== src/Server/Client/RoundTrip.antt =====
-- What crosses the wire between crates/hyperbox-server/src/grpc.rs and client.rs comes back as it
-- was.
use hyperbox.Prelude.{
  text_beq, is_some, ℕ, false, Option, none, some, Text, codes, is_empty, if◌then◌else◌, ◌≡◌, refl,
  ap,
}
use hyperbox.Core.Error.{ok}
use hyperbox.Core.Config.{SandboxState, provisioning, ready, busy, stopped, SandboxInfo}
use hyperbox.Core.Process.{
  StreamName, stdout, stderr, ProcessDisposition, reused_existing, created_new, created_due_to_busy,
  ProcessStatus, starting, running, succeeded, cancelled, lost, ProcessInfo, ProcessLogRead,
}
use hyperbox.Server.Wire.{
  Codec, shown, or_default, debug_state, debug_disposition, debug_status, parse_process_disposition,
  parse_stream_name, stream_text, into_proto_process_log, into_proto_info, into_proto_process,
}
use hyperbox.Server.Client.{
  R, state_of, disposition_of, status_of, parse_log, uuid_of, time_of, optional, parse_sandbox_info,
  parse_process_info,
}

-- The printed forms are read back, and none is empty.
pub record IsCodec (codec : Codec) : Type 0 where
  pub uuid_back : (id : ℕ) → codec.parse_uuid (codec.show_uuid id) ≡ ok id
  pub uuid_some : (id : ℕ) → is_empty (codec.show_uuid id) ≡ false
  pub time_back : (t : ℕ) → codec.parse_rfc3339 (codec.to_rfc3339 t) ≡ ok t
  pub time_some : (t : ℕ) → is_empty (codec.to_rfc3339 t) ≡ false

state_of-debug : (s : SandboxState) → state_of (debug_state s) ≡ s
unfolding state_of debug_state
state_of-debug provisioning = refl
state_of-debug ready = refl
state_of-debug busy = refl
state_of-debug stopped = refl
state_of-debug SandboxState.failed = refl

disposition_of-debug : (d : ProcessDisposition) → disposition_of (debug_disposition d) ≡ d
unfolding disposition_of debug_disposition
disposition_of-debug reused_existing = refl
disposition_of-debug created_new = refl
disposition_of-debug created_due_to_busy = refl

status_of-debug : (s : ProcessStatus) → status_of (debug_status s) ≡ s
unfolding status_of debug_status
status_of-debug starting = refl
status_of-debug running = refl
status_of-debug succeeded = refl
status_of-debug ProcessStatus.failed = refl
status_of-debug cancelled = refl
status_of-debug lost = refl

-- The service reads the dispositions and the names of streams that the client writes.
pub parse_process_disposition-debug :
    (d : ProcessDisposition) → parse_process_disposition (debug_disposition d) ≡ ok d
unfolding parse_process_disposition debug_disposition
parse_process_disposition-debug reused_existing = refl
parse_process_disposition-debug created_new = refl
parse_process_disposition-debug created_due_to_busy = refl

pub parse_stream_name-text : (s : StreamName) → parse_stream_name (stream_text s) ≡ ok s
unfolding parse_stream_name
parse_stream_name-text stdout = refl
parse_stream_name-text stderr = refl

pub parse_log-into : (log : ProcessLogRead) → parse_log (into_proto_process_log log) ≡ log
unfolding parse_log into_proto_process_log
parse_log-into log = ap (λ s. record log { stream = s }) (stream_back log.stream)
  where
    stream_back :
        (s : StreamName)
        → (if text_beq (stream_text s) (codes "stderr") then stderr else stdout) ≡ s
    stream_back stdout = refl
    stream_back stderr = refl

then_some-back :
    {A : Type 0} (d : A) (o : Option A) → (if is_some o then some (or_default d o) else none) ≡ o
then_some-back d none = refl
then_some-back d (some a) = refl

module _ (codec : Codec) (laws : IsCodec codec) where
  optional-shown :
      {A : Type 0} (f : A → Text) (g : Text → R A)
      → ((a : A) → g (f a) ≡ ok a)
      → ((a : A) → is_empty (f a) ≡ false)
      → (o : Option A) → optional codec g (shown f o) ≡ ok o
  optional-shown f g back full none = refl
  optional-shown f g back full (some a) = rw (full a, back a) refl

  uuid_of-show : (id : ℕ) → uuid_of codec (codec.show_uuid id) ≡ ok id
  unfolding uuid_of
  uuid_of-show id = rw (laws.uuid_back id) refl

  time_of-show : (t : ℕ) → time_of codec (codec.to_rfc3339 t) ≡ ok t
  unfolding time_of
  time_of-show t = rw (laws.time_back t) refl

  -- The client reads the very description of a sandbox that the service sends.
  pub parse_sandbox_info-into :
      (info : SandboxInfo) → parse_sandbox_info codec (into_proto_info codec info) ≡ ok info
  unfolding parse_sandbox_info into_proto_info
  parse_sandbox_info-into info =
      rw (uuid_of-show info.id, time_of-show info.created_at, state_of-debug info.state) refl

  -- The client reads the very record of a process that the service sends.
  pub parse_process_info-into :
      (p : ProcessInfo) → parse_process_info codec (into_proto_process codec p) ≡ ok p
  unfolding parse_process_info into_proto_process
  parse_process_info-into p =
      rw
        (
          uuid_of-show p.id,
          uuid_of-show p.sandbox_id,
          optional-shown codec.show_uuid (uuid_of codec) uuid_of-show laws.uuid_some
              p.requested_sandbox_id,
          time_of-show p.started_at,
          optional-shown codec.to_rfc3339 (time_of codec) time_of-show laws.time_some p.finished_at,
          optional-shown codec.to_rfc3339 (time_of codec) time_of-show laws.time_some p.expires_at,
          disposition_of-debug p.disposition,
          status_of-debug p.status,
          then_some-back _ p.backend_pid,
          then_some-back _ p.exit_code,
        )
        refl
