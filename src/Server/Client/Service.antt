-- ===== src/Server/Client/Service.antt =====
-- A client of crates/hyperbox-server/src/client.rs over the service of grpc.rs does what the server
-- does.
use hyperbox.Prelude.{Bool, Option, none, some, List, Text, ◌≡◌, refl}
use hyperbox.Core.Error.{Result, ok, err, HyperboxError}
use hyperbox.Core.Config.{SandboxId}
use hyperbox.Core.Process.{ProcessDisposition, ProcessId}
use hyperbox.Server.Monad.{M, ◌>>=◌, pure, lift}
use hyperbox.Server.Environment.{Environment}
use hyperbox.Server.Runtime.{World}
use hyperbox.Server.Runtime.Runs
use hyperbox.Server.Wire.{
  Codec, map_err, shown, parse_sandbox_id, parse_process_id, into_proto_process,
}
use hyperbox.Server.Grpc
use hyperbox.Server.Grpc.{served, internal_error, control_service, optional_id, optional_config}
use hyperbox.Server.Client.{R, refused}
use hyperbox.Server.Client.RoundTrip.{
  IsCodec, parse_process_info-into, parse_process_disposition-debug,
}
use hyperbox.Server.Client.Calls.{Call, called, process_from, start_process, get_process}

-- What a client sees of a method of the server: its value, or its error as an internal status.
unfoldable pub through : {W A : Type 0} → M W A → Call W A
through m w = let (r, v) = m w in (map_err (λ e. refused (internal_error e)) r, v)

-- A method whose value is sent and read back.
pub passes :
    {W A B : Type 0} (m : M W A) (f : A → B) (g : B → R A)
    → ((a : A) → g (f a) ≡ ok a)
    → (w : W) → (called (served m >>= λ a. pure (f a)) >>= λ b. lift (g b)) w ≡ through m w
unfolding called served through ◌>>=◌
passes {W} {A} {B} m f g back w = by_result (m w)
  where
    by_result :
        (o : Result HyperboxError A × W)
        → (called (served (λ (v : W). o) >>= λ a. pure (f a)) >>= λ b. lift (g b)) w
          ≡ through (λ (v : W). o) w
    by_result (ok a, v) = rw (back a) refl
    by_result (err e, v) = refl

-- A method whose value is sent, and of which the client reads a part.
pub passes_to :
    {W A B C : Type 0} (m : M W A) (f : A → B) (k : B → Call W C) (h : A → C)
    → ((a : A) (v : W) → k (f a) v ≡ (ok (h a), v))
    → (w : W) → (called (served m >>= λ a. pure (f a)) >>= k) w ≡ through (m >>= λ a. pure (h a)) w
unfolding called served through ◌>>=◌
passes_to {W} {A} m f k h back w = by_result (m w)
  where
    by_result :
        (o : Result HyperboxError A × W)
        → (called (served (λ (v : W). o) >>= λ a. pure (f a)) >>= k) w
          ≡ through ((λ (v : W). o) >>= λ a. pure (h a)) w
    by_result (ok a, v) = back a v
    by_result (err e, v) = refl

module _ {S : Type 0} (env : Environment S) (codec : Codec) (laws : IsCodec codec) where
  pub parse_sandbox_id-show : (id : SandboxId) → parse_sandbox_id codec (codec.show_uuid id) ≡ ok id
  unfolding parse_sandbox_id
  parse_sandbox_id-show id = rw (laws.uuid_back id) refl

  pub parse_process_id-show : (id : ProcessId) → parse_process_id codec (codec.show_uuid id) ≡ ok id
  unfolding parse_process_id
  parse_process_id-show id = rw (laws.uuid_back id) refl

  pub optional_id-shown :
      (o : Option SandboxId) → optional_id env codec (shown codec.show_uuid o) ≡ ok o
  optional_id-shown none = refl
  optional_id-shown (some id) = rw (laws.uuid_some id, parse_sandbox_id-show id) refl

  pub get_process-through :
      (id : ProcessId) (w : World S)
      → get_process codec (control_service env codec) id w ≡ through (Runs.fetch_process env id) w
  unfolding get_process control_service Grpc.get_process ◌>>=◌ called
  get_process-through id w = rw (parse_process_id-show id) (
      passes (Runs.fetch_process env id) (λ p. some (into_proto_process codec p))
        (process_from codec) (parse_process_info-into codec laws) w)

  pub start_process-through :
      (id : SandboxId) (command : List Text) (requested : Option SandboxId)
      (disposition : ProcessDisposition) (destroy : Bool) (w : World S)
      → start_process codec (control_service env codec) id command requested disposition destroy w
        ≡ through (Runs.start_process env id command requested disposition destroy) w
  unfolding start_process control_service Grpc.start_process ◌>>=◌ called
  start_process-through id command requested disposition destroy w =
      rw
        (
          parse_sandbox_id-show id,
          optional_id-shown requested,
          parse_process_disposition-debug disposition,
        )
        (passes (Runs.start_process env id command requested disposition destroy)
          (λ p. some (into_proto_process codec p)) (process_from codec)
          (parse_process_info-into codec laws) w)
