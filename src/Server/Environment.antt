-- ===== src/Server/Environment.antt =====
-- What the server takes from outside its own code: a backend behind the trait of
-- crates/hyperbox-core/src/backend.rs, the wall clock, the UUID generator, environment variables,
-- and the file system's answer on snapshot artifacts.
use hyperbox.Prelude.{ℕ, Bool, Option, Text}
use hyperbox.Core.Error.{Result, HyperboxError}
use hyperbox.Core.Config.{
  SandboxConfig, SandboxId, SandboxInfo, SandboxLease, ExecRequest, ExecOutcome, FilePayload, Time,
}
use hyperbox.Core.Snapshot.{SnapshotId}

-- `trait SandboxBackend` over the state `S` that the implementation keeps.
pub record Backend (S : Type 0) : Type 0 where
  pub validate_config : S → SandboxConfig → Result HyperboxError (Unit {0})
  pub create : S → SandboxConfig → Result HyperboxError SandboxLease × S
  pub exec : S → SandboxId → ExecRequest → Result HyperboxError ExecOutcome × S
  pub read_file : S → SandboxId → Text → Result HyperboxError FilePayload × S
  pub write_file : S → SandboxId → FilePayload → Result HyperboxError (Unit {0}) × S
  pub destroy : S → SandboxId → Result HyperboxError (Unit {0}) × S
  pub inspect : S → SandboxId → Result HyperboxError SandboxInfo × S
  pub create_snapshot : S → SandboxId → SnapshotId → Text → Result HyperboxError (Unit {0}) × S
  pub restore_snapshot :
      S → SnapshotId → Text → SandboxConfig → Result HyperboxError SandboxLease × S

pub record Environment (S : Type 0) : Type 0 where
  pub backend : Backend S
  -- the `n`-th reading of `Utc::now()`
  pub clock : ℕ → Time
  -- `Instant::now()`, in nanoseconds, at the `n`-th reading of either clock
  pub instant : ℕ → ℕ
  -- the `n`-th `Uuid::new_v4()`
  pub uuid : ℕ → ℕ
  -- `Display` of a UUID
  pub show_uuid : ℕ → Text
  -- `HYPERBOX_PROCESS_TTL_DAYS`
  pub process_ttl_days : Option Text
  -- the artifact's path, or the error of making its directory; whether a path exists
  pub artifact_path : SnapshotId → Result HyperboxError Text
  pub exists : S → Text → Bool
