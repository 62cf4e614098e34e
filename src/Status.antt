-- ===== src/Status.antt =====
-- `tonic::Status`, the errors of the gRPC services: a code and a message.
use hyperbox.Prelude.{Text}

pub data Code : Type 0 where
  invalid_argument not_found deadline_exceeded permission_denied failed_precondition internal
        cancelled :
      Code

pub record Status : Type 0 where
  pub code : Code
  pub message : Text

abbrev pub status : Code → Text → Status
status code message = record { code = code; message = message }
