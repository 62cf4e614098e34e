-- ===== src/Core/Snapshot.antt =====
-- crates/hyperbox-core/src/snapshot.rs: the records of the snapshot store.
use hyperbox.Prelude.{ℕ, Option, Text}
use hyperbox.Core.Config.{SandboxConfig, SandboxId, Time}

abbrev pub SnapshotId : Type 0
SnapshotId = ℕ

pub record SnapshotMetadata : Type 0 where
  pub id : SnapshotId
  pub sandbox_id : SandboxId
  pub affinity_name : Option Text
  pub template : Text
  pub config : SandboxConfig
  pub created_at : Time
  pub note : Option Text

pub record AffinityRecord : Type 0 where
  pub name : Text
  pub sandbox_id : Option SandboxId
  pub snapshot_id : Option SnapshotId
  pub updated_at : Time

pub record ActiveSandboxRecord : Type 0 where
  pub sandbox_id : SandboxId
  pub config : SandboxConfig
  pub created_at : Time
