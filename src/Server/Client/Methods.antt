-- ===== src/Server/Client/Methods.antt =====
-- More calls of crates/hyperbox-server/src/client.rs over the service of grpc.rs.
use hyperbox.Prelude.{
  ℕ, Option, none, some, List, [], ◌∷◌, map, leb, if◌then◌else◌, ◌≡◌, ◌≢◌, refl, ap, arith,
}
use hyperbox.Core.Error.{ok}
use hyperbox.Core.Config.{SandboxConfig}
use hyperbox.Core.Process.{StreamName, ProcessId, ProcessInfo}
use hyperbox.Server.Monad.{◌>>=◌, pure, lift}
use hyperbox.Server.Environment.{Environment}
use hyperbox.Server.Runtime.{World}
use hyperbox.Server.Runtime.Runs.{StartRunRequest, StartedRun}
use hyperbox.Server.Runtime.StartRun
use hyperbox.Server.Runtime.Sandboxes
use hyperbox.Server.Runtime.Watch
use hyperbox.Server.Wire.{
  Codec, or_default, not_empty, into_proto_process, into_proto_info, into_proto_process_log,
}
use hyperbox.Server.Grpc
use hyperbox.Server.Grpc.{
  Control, served, internal_error, control_service, optional_id, optional_config,
  into_proto_started_run, sent_process,
}
use hyperbox.Server.Client.{R, parse_process_info, parse_log}
use hyperbox.Server.Client.RoundTrip.{
  IsCodec, parse_process_info-into, parse_sandbox_info-into, parse_stream_name-text, parse_log-into,
}
use hyperbox.Server.Client.Configs.{
  IsSayable, IsFilled, KeepsEntries, IsReordered, IsReorderedOption, crossed, crossed-IsReordered,
  from_proto_config-into, not_empty-or_default,
}
use hyperbox.Server.Client.Calls
use hyperbox.Server.Client.Calls.{
  Call, called, process_from, info_from, collect, push, polled, message_config,
}
use hyperbox.Server.Client.Service.{
  through, passes, passes_to, parse_process_id-show, optional_id-shown,
}

-- A reply in which every record is sent is read back whole.
collect-map :
    {A B : Type 0} (f : A → B) (g : B → R A)
    → ((a : A) → g (f a) ≡ ok a)
    → (l : List A) → collect g (map f l) ≡ ok l
unfolding collect
collect-map f g back [] = refl
collect-map f g back (a ∷ l) = rw (back a, collect-map f g back l) refl

-- What the client makes of the session's name: an empty one is none.
abbrev pub read_run : StartedRun → StartedRun
read_run started = record started { session_name = not_empty (or_default [] started.session_name) }

abbrev pub IsConfig : Option SandboxConfig → Type 0
IsConfig none = Unit {0}
IsConfig (some c) = IsSayable c × IsFilled c

at_least_one : (t : ℕ) → Watch.max (if leb t 1 then 1 else t) 1 ≡ Watch.max t 1
unfolding Watch.max
at_least_one t = ground arith

module _ {S : Type 0} (env : Environment S) (codec : Codec) (laws : IsCodec codec) where
  abbrev client : Control (World S)
  client = control_service env codec

  pub list_processes-through :
      (w : World S) → Calls.list_processes codec client w ≡ through (Watch.list_processes env) w
  unfolding Calls.list_processes control_service Grpc.list_processes
  list_processes-through w =
      passes (Watch.list_processes env) (map (into_proto_process codec))
        (collect (parse_process_info codec))
        (collect-map (into_proto_process codec) (parse_process_info codec)
          (parse_process_info-into codec laws))
        w

  -- The client's creation of a sandbox is the server's with the same configuration, its variables in
  -- some order, if it is one that a message can say, with a value in each field that stands for a
  -- default. The printed forms of identifiers and times are read back, and none is empty; the maps
  -- of messages give back the entries that were put into them.
  pub create_sandbox-through :
      KeepsEntries codec
      → (config : SandboxConfig) (w : World S) → IsSayable config
      → IsFilled config
      → (c : SandboxConfig) × IsReordered c config
        × (Calls.create_sandbox codec client config w ≡ through (Sandboxes.create_sandbox env c) w)
  unfolding Calls.create_sandbox control_service Grpc.create_sandbox ◌>>=◌ called
  create_sandbox-through keeps config w said filled = (
    crossed codec config,
    crossed-IsReordered codec keeps config said,
    rw (from_proto_config-into codec config said filled) (
        passes (Sandboxes.create_sandbox env (crossed codec config))
          (λ i. some (into_proto_info codec i)) (info_from codec)
          (parse_sandbox_info-into codec laws) w),
  )

  pub read_process_log-through :
      (id : ProcessId) (stream : StreamName) (offset limit : ℕ) (w : World S)
      → Calls.read_process_log codec client id stream offset limit w
        ≡ through (Watch.read_process_log env id stream offset limit) w
  unfolding Calls.read_process_log control_service Grpc.read_process_log ◌>>=◌ called
  read_process_log-through id stream offset limit w =
      rw (parse_process_id-show env codec laws id, parse_stream_name-text stream)
        (passes (Watch.read_process_log env id stream offset limit) into_proto_process_log
          (λ l. ok (parse_log l)) (λ l. ap ok (parse_log-into l)) w)

  wait_process-max :
      (fuel : ℕ) (id : ProcessId) (t : ℕ)
      → Watch.wait_process env fuel id (if leb t 1 then 1 else t) ≡ Watch.wait_process env fuel id t
  unfolding Watch.wait_process
  wait_process-max fuel id t = rw (at_least_one t) refl

  sent-polled :
      (o : Option ProcessInfo) → polled (process_from codec) (sent_process env codec o) ≡ ok o
  sent-polled none = refl
  sent-polled (some p) = rw (parse_process_info-into codec laws p) refl

  -- The client's wait is the server's, whatever the limit: a limit of zero is one second to both.
  pub wait_process-through :
      (fuel : ℕ) (id : ProcessId) (timeout_secs : ℕ) (w : World S)
      → Calls.wait_process codec client fuel id timeout_secs w
        ≡ through (Watch.wait_process env fuel id timeout_secs) w
  unfolding Calls.wait_process control_service Grpc.wait_process ◌>>=◌ called
  wait_process-through fuel id t w =
      rw (parse_process_id-show env codec laws id, wait_process-max fuel id t)
        (passes (Watch.wait_process env fuel id t) (sent_process env codec)
          (polled (process_from codec)) sent-polled w)

  optional_config-message :
      KeepsEntries codec
      → (o : Option SandboxConfig) → IsConfig o
      → (c : Option SandboxConfig) × IsReorderedOption c o
        × (optional_config env codec (message_config codec client o) ≡ ok c)
  optional_config-message keeps none h = (none, tt, refl)
  optional_config-message keeps (some c) (said, filled) = (
    some (crossed codec c),
    crossed-IsReordered codec keeps c said,
    rw (from_proto_config-into codec c said filled) refl,
  )

  run_back :
      (a : StartedRun) (v : World S)
      → (lift (process_from codec (into_proto_started_run env codec a).process) >>= λ process.
            lift (info_from codec (into_proto_started_run env codec a).sandbox) >>= λ sandbox.
            pure (record {
              process = process;
              sandbox = sandbox;
              session_name = not_empty (into_proto_started_run env codec a).session_name;
              session_created = (into_proto_started_run env codec a).session_created;
            }))
          v
        ≡ (ok (read_run a), v)
  unfolding into_proto_started_run ◌>>=◌
  run_back a v =
      rw
        (parse_process_info-into codec laws a.process, parse_sandbox_info-into codec laws a.sandbox)
        refl

  -- The client's start of a run is the server's, with the session's name none where the server gives
  -- an empty one and the variables of the request's configuration in some order, if the name in the
  -- request is not empty and its configuration, if there is one, is one that a message can say, with
  -- a value in each field that stands for a default. The printed forms of identifiers and times are
  -- read back, and none is empty; the maps of messages give back the entries that were put into them.
  pub start_run-through :
      KeepsEntries codec
      → (request : StartRunRequest) (w : World S) → request.affinity_name ≢ some []
      → IsConfig request.create_config
      → (c : Option SandboxConfig) × IsReorderedOption c request.create_config
        × (Calls.start_run codec client request w
            ≡ through
                (StartRun.start_run env (record request { create_config = c }) >>= λ started.
                  pure (read_run started))
                w)
  unfolding Calls.start_run control_service Grpc.start_run ◌>>=◌ called
  start_run-through keeps request w named configured =
      let (c, same, read) = optional_config-message keeps request.create_config configured in
      (
        c,
        same,
        rw
            (
              optional_id-shown env codec laws request.sandbox_id,
              not_empty-or_default request.affinity_name named,
              read,
            )
            (passes_to (StartRun.start_run env (record request { create_config = c }))
              (into_proto_started_run env codec) _ read_run run_back w),
      )
