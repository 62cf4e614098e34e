-- ===== src/Core/Config.antt =====
-- crates/hyperbox-core/src/config.rs and model.rs: network modes, sandbox configurations, and the
-- data of sandboxes. An identifier is the number of its UUID; a time is a number of milliseconds.
use hyperbox.Prelude.{ℕ, Option, none, List, [], Text, codes, Assoc, ℤ}
use hyperbox.Core.Allowlist.{Allowlist}

-- `None`, `Full`, `Allowlist`
pub data NetworkMode : Type 0 where
  none_mode full_mode : NetworkMode
  allowlist_mode : Allowlist → NetworkMode

pub record SandboxConfig : Type 0 where
  pub affinity_name : Option Text
  pub template : Text
  pub memory_mb : ℕ
  pub vcpu_count : ℕ
  pub workspace_dir : Option Text
  pub network : NetworkMode
  pub env : Assoc Text Text
  pub timeout_secs : ℕ

abbrev pub default_config : SandboxConfig
default_config = record {
  affinity_name = none;
  template = codes "python:3.12";
  memory_mb = 512;
  vcpu_count = 1;
  workspace_dir = none;
  network = none_mode;
  env = [];
  timeout_secs = 60;
}

abbrev pub SandboxId : Type 0
SandboxId = ℕ

-- Times of `chrono` in milliseconds
abbrev pub Time : Type 0
Time = ℕ

pub data SandboxState : Type 0 where
  provisioning ready busy stopped failed : SandboxState

pub record SandboxInfo : Type 0 where
  pub id : SandboxId
  pub template : Text
  pub state : SandboxState
  pub created_at : Time

pub record ExecRequest : Type 0 where
  pub command : List Text
  pub timeout_secs : ℕ

pub record ExecOutcome : Type 0 where
  pub exit_code : ℤ
  pub stdout : Text
  pub stderr : Text
  pub duration_ms : ℕ

-- backend.rs
pub record FilePayload : Type 0 where
  pub path : Text
  pub bytes : List ℕ

pub record SandboxLease : Type 0 where
  pub id : SandboxId
  pub info : SandboxInfo
