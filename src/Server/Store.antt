-- ===== src/Server/Store.antt =====
-- `InMemorySnapshotStore` of crates/hyperbox-server/src/snapshot_store.rs. Its methods never fail;
-- each is a function of the four maps. The identifier and the time that a method draws are
-- arguments.
pub mod Laws
use hyperbox.Prelude.{
  ℕ, Bool, true, false, ◌&&◌, Option, none, some, List, [], ◌∷◌, map, Text, text_eq, nat_eq, ◌==◌,
  nat_beq, if◌then◌else◌, Assoc, lookup, insert, remove, values, keep,
}
use mathlib.Core.Option
use hyperbox.Core.Config.{SandboxConfig, SandboxId, Time}
use hyperbox.Core.Process.{ProcessInfo, ProcessId}
use hyperbox.Core.Snapshot.{SnapshotId, SnapshotMetadata, AffinityRecord, ActiveSandboxRecord}

pub record SnapshotStore : Type 0 where
  pub snapshots : Assoc SnapshotId SnapshotMetadata
  pub affinities : Assoc Text AffinityRecord
  pub active : Assoc SandboxId ActiveSandboxRecord
  pub processes : Assoc ProcessId ProcessInfo

abbrev pub empty_store : SnapshotStore
empty_store = record { snapshots = []; affinities = []; active = []; processes = [] }

unfoldable pub create_snapshot :
    SnapshotStore
    → SnapshotId
    → Time
    → SandboxId
    → SandboxConfig
    → Option Text
    → SnapshotMetadata × SnapshotStore
unfolding insert
create_snapshot s id now sandbox_id config note =
    let snapshot : SnapshotMetadata = record {
      id = id;
      sandbox_id = sandbox_id;
      affinity_name = config.affinity_name;
      template = config.template;
      config = config;
      created_at = now;
      note = note;
    } in
    (snapshot, record s { snapshots = insert id snapshot s.snapshots })

unfoldable pub get_snapshot : SnapshotStore → SnapshotId → Option SnapshotMetadata
unfolding lookup
get_snapshot s id = lookup id s.snapshots

unfoldable pub list_for_template : SnapshotStore → Text → List SnapshotMetadata
unfolding values
list_for_template s template = keep (λ snapshot. snapshot.template == template) (values s.snapshots)

abbrev pub snapshot_of : Option AffinityRecord → Option SnapshotId
snapshot_of none = none
snapshot_of (some r) = r.snapshot_id

abbrev pub sandbox_of : Option AffinityRecord → Option SandboxId
sandbox_of none = none
sandbox_of (some r) = r.sandbox_id

unfoldable pub bind_sandbox : SnapshotStore → Time → Text → SandboxId → SnapshotStore
unfolding insert lookup
bind_sandbox s now name sandbox_id =
    let affinity : AffinityRecord = record {
      name = name;
      sandbox_id = some sandbox_id;
      snapshot_id = snapshot_of (lookup name s.affinities);
      updated_at = now;
    } in
    record s { affinities = insert name affinity s.affinities }

abbrev pub holds : SandboxId → Option SandboxId → Bool
holds id none = false
holds id (some j) = nat_beq j id

-- The body of the loop over `values_mut`.
unfoldable pub clear_record : SandboxId → Time → AffinityRecord → AffinityRecord
clear_record id now r =
    if holds id r.sandbox_id then record r { sandbox_id = none; updated_at = now } else r

unfoldable pub map_values {ℓ} : {K V : Type ℓ} → (V → V) → Assoc K V → Assoc K V
map_values f [] = []
map_values f ((k, v) ∷ m) = (k, f v) ∷ map_values f m

unfoldable pub clear_sandbox_binding : SnapshotStore → Time → SandboxId → SnapshotStore
unfolding map_values clear_record
clear_sandbox_binding s now sandbox_id = record s {
  affinities = map_values (clear_record sandbox_id now) s.affinities;
}

unfoldable pub set_affinity_snapshot : SnapshotStore → Time → Text → SnapshotId → SnapshotStore
unfolding insert lookup
set_affinity_snapshot s now name snapshot_id =
    let affinity : AffinityRecord = record {
      name = name;
      sandbox_id = sandbox_of (lookup name s.affinities);
      snapshot_id = some snapshot_id;
      updated_at = now;
    } in
    record s { affinities = insert name affinity s.affinities }

unfoldable pub get_affinity : SnapshotStore → Text → Option AffinityRecord
unfolding lookup
get_affinity s name = lookup name s.affinities

unfoldable pub upsert_active_sandbox :
    SnapshotStore → SandboxId → SandboxConfig → Time → SnapshotStore
unfolding insert
upsert_active_sandbox s id config created_at =
    let active : ActiveSandboxRecord = record {
      sandbox_id = id;
      config = config;
      created_at = created_at;
    } in
    record s { active = insert id active s.active }

unfoldable pub remove_active_sandbox : SnapshotStore → SandboxId → SnapshotStore
unfolding remove
remove_active_sandbox s id = record s { active = remove id s.active }

unfoldable pub list_active_sandboxes : SnapshotStore → List ActiveSandboxRecord
unfolding values
list_active_sandboxes s = values s.active

unfoldable pub upsert_process : SnapshotStore → ProcessInfo → SnapshotStore
unfolding insert
upsert_process s process = record s { processes = insert process.id process s.processes }

unfoldable pub get_process : SnapshotStore → ProcessId → Option ProcessInfo
unfolding lookup
get_process s id = lookup id s.processes

unfoldable pub list_processes : SnapshotStore → List ProcessInfo
unfolding values
list_processes s = values s.processes

unfoldable pub remove_process : SnapshotStore → ProcessId → SnapshotStore
unfolding remove
remove_process s id = record s { processes = remove id s.processes }
