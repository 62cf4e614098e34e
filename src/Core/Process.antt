-- ===== src/Core/Process.antt =====
-- crates/hyperbox-core/src/process.rs: managed processes and their states.
use native.Mathlib.Decide.{ℕ_discrete}
use hyperbox.Prelude.{ℕ, Bool, true, false, Option, List, Text, ℤ}
use hyperbox.Core.Config.{SandboxId, Time}

pub data StreamName : Type 0 where
  stdout stderr : StreamName

abbrev pub ProcessId : Type 0
ProcessId = ℕ

pub data ProcessDisposition : Type 0 where
  reused_existing created_new created_due_to_busy : ProcessDisposition

pub data ProcessStatus : Type 0 where
  starting running succeeded failed cancelled lost : ProcessStatus

abbrev pub is_terminal : ProcessStatus → Bool
is_terminal succeeded = true
is_terminal failed = true
is_terminal cancelled = true
is_terminal lost = true
is_terminal starting = false
is_terminal running = false

unfoldable pub can_transition_to : ProcessStatus → ProcessStatus → Bool
can_transition_to starting running = true
can_transition_to starting failed = true
can_transition_to starting _ = false
can_transition_to running succeeded = true
can_transition_to running failed = true
can_transition_to running cancelled = true
can_transition_to running lost = true
can_transition_to running _ = false
can_transition_to _ _ = false

pub record ProcessInfo : Type 0 where
  pub id : ProcessId
  pub sandbox_id : SandboxId
  pub requested_sandbox_id : Option SandboxId
  pub disposition : ProcessDisposition
  pub destroy_sandbox_on_expiry : Bool
  pub command : List Text
  pub status : ProcessStatus
  pub stdout_path : Text
  pub stderr_path : Text
  pub backend_pid : Option ℕ
  pub exit_code : Option ℤ
  pub started_at : Time
  pub finished_at : Option Time
  pub expires_at : Option Time

abbrev ℤ-discrete : Discrete ℤ
ℤ-discrete = hlevel ℕ_discrete

ProcessStatus-discrete : Discrete ProcessStatus
ProcessStatus-discrete = hlevel

-- The derived `PartialEq`
unfoldable pub ProcessInfo-discrete : Discrete ProcessInfo
ProcessInfo-discrete = hlevel (ℕ_discrete, ℤ-discrete)

pub record ProcessLogRead : Type 0 where
  pub stream : StreamName
  pub offset : ℕ
  pub next_offset : ℕ
  pub eof : Bool
  pub contents : Text
