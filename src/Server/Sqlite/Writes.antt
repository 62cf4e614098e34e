-- ===== src/Server/Sqlite/Writes.antt =====
-- The writes of the store of crates/hyperbox-server/src/snapshot_store.rs, on the in-memory store and
-- on the database.
use hyperbox.Prelude.{
  Option, none, List, [], ◌∷◌, Text, text_eq, nat_eq, Bool-cases, inl, inr, Assoc, AllEntries, All,
  AllEntries-insert, AllEntries-remove, lookup, ◌≡◌, refl,
}
use hyperbox.Core.Error.{Result, ok, HyperboxError, ◌>>=◌}
use hyperbox.Server.Wire.{map_ok}
use hyperbox.Core.Config.{SandboxConfig, SandboxId, Time}
use hyperbox.Core.Process.{ProcessInfo, ProcessId}
use hyperbox.Core.Snapshot.{SnapshotId, SnapshotMetadata, AffinityRecord, ActiveSandboxRecord}
use hyperbox.Server.Stored.Back.{IsStorable}
use hyperbox.Server.Store
use hyperbox.Server.Store.{
  SnapshotStore, empty_store, map_values, clear_record, snapshot_of, sandbox_of, holds,
}
use hyperbox.Server.Sqlite
use hyperbox.Server.Sqlite.{
  Format, Database, AffinityRow, ProcessRow, ActiveRow, upsert, merged, clear_row, process_row,
  active_row, column_is,
}

-- Every record stands under its own key.
pub record IsKeyed (s : SnapshotStore) : Type 0 where
  pub affinities : AllEntries (λ name (r : AffinityRecord). r.name ≡ name) s.affinities
  pub active : AllEntries (λ id (r : ActiveSandboxRecord). r.sandbox_id ≡ id) s.active
  pub processes : AllEntries (λ id (p : ProcessInfo). p.id ≡ id) s.processes

pub data Write : Type 0 where
  create : SnapshotId → Time → SandboxId → SandboxConfig → Option Text → Write
  bind : Time → Text → SandboxId → Write
  clear : Time → SandboxId → Write
  set_snapshot : Time → Text → SnapshotId → Write
  upsert_active : SandboxId → SandboxConfig → Time → Write
  remove_active : SandboxId → Write
  upsert_process : ProcessInfo → Write
  remove_process : ProcessId → Write

-- A write on the in-memory store, and the same on the database.
unfoldable pub write : SnapshotStore → Write → SnapshotStore
write s (create id now sandbox_id config remark) =
    (Store.create_snapshot s id now sandbox_id config remark).1
write s (bind now name id) = Store.bind_sandbox s now name id
write s (clear now id) = Store.clear_sandbox_binding s now id
write s (set_snapshot now name id) = Store.set_affinity_snapshot s now name id
write s (upsert_active id config time) = Store.upsert_active_sandbox s id config time
write s (remove_active id) = Store.remove_active_sandbox s id
write s (upsert_process p) = Store.upsert_process s p
write s (remove_process id) = Store.remove_process s id

module _ {Json : Type 0} (format : Format Json) where
  unfoldable pub execute : Database Json → Write → Result HyperboxError (Database Json)
  execute db (create id now sandbox_id config remark) =
      map_ok (λ stored. stored.1) (Sqlite.create_snapshot format db id now sandbox_id config remark)
  execute db (bind now name id) = ok (Sqlite.bind_sandbox format db now name id)
  execute db (clear now id) = ok (Sqlite.clear_sandbox_binding format db now id)
  execute db (set_snapshot now name id) = ok (Sqlite.set_affinity_snapshot format db now name id)
  execute db (upsert_active id config time) =
      ok (Sqlite.upsert_active_sandbox format db id config time)
  execute db (remove_active id) = ok (Sqlite.remove_active_sandbox format db id)
  execute db (upsert_process p) = ok (Sqlite.upsert_process format db p)
  execute db (remove_process id) = ok (Sqlite.remove_process format db id)

  -- Writes one after the other.
  unfoldable pub execute_all : Database Json → List Write → Result HyperboxError (Database Json)
  execute_all db [] = ok db
  execute_all db (op ∷ ops) = execute db op >>= (λ after. execute_all after ops)

unfoldable pub write_all : SnapshotStore → List Write → SnapshotStore
write_all s [] = s
write_all s (op ∷ ops) = write_all (write s op) ops

-- A snapshot is created under an identifier that no snapshot has.
abbrev pub IsFresh : SnapshotStore → Write → Type 0
IsFresh s (create id now sandbox_id config remark) = lookup id s.snapshots ≡ none
IsFresh s (bind now name id) = Unit
IsFresh s (clear now id) = Unit
IsFresh s (set_snapshot now name id) = Unit
IsFresh s (upsert_active id config time) = Unit
IsFresh s (remove_active id) = Unit
IsFresh s (upsert_process p) = Unit
IsFresh s (remove_process id) = Unit

abbrev pub AreFresh : SnapshotStore → List Write → Type 0
AreFresh s [] = Unit
AreFresh s (op ∷ ops) = IsFresh s op × AreFresh (write s op) ops

-- The configuration that is written, if there is one, is read back.
abbrev pub IsStorableWrite : Write → Type 0
IsStorableWrite (create id now sandbox_id config remark) = IsStorable config
IsStorableWrite (bind now name id) = Unit
IsStorableWrite (clear now id) = Unit
IsStorableWrite (set_snapshot now name id) = Unit
IsStorableWrite (upsert_active id config time) = IsStorable config
IsStorableWrite (remove_active id) = Unit
IsStorableWrite (upsert_process p) = Unit
IsStorableWrite (remove_process id) = Unit

-- Every configuration in the store is read back.
pub record IsStored (s : SnapshotStore) : Type 0 where
  pub snapshots : AllEntries (λ id (m : SnapshotMetadata). IsStorable m.config) s.snapshots
  pub active : AllEntries (λ id (r : ActiveSandboxRecord). IsStorable r.config) s.active

clear-AllEntries :
    (id : SandboxId) (now : Time) (m : Assoc Text AffinityRecord)
    → AllEntries (λ name (r : AffinityRecord). r.name ≡ name) m
    → AllEntries (λ name (r : AffinityRecord). r.name ≡ name) (map_values (clear_record id now) m)
unfolding map_values clear_record
clear-AllEntries id now [] h = tt
clear-AllEntries id now ((name, r) ∷ m) h = elim (Bool-cases (holds id r.sandbox_id)) [
  | inl t ↦ rw t (h.0, clear-AllEntries id now m h.1)
  | inr f ↦ rw f (h.0, clear-AllEntries id now m h.1)
]

pub write-IsKeyed : (s : SnapshotStore) (op : Write) → IsKeyed s → IsKeyed (write s op)
unfolding write Store.create_snapshot Store.bind_sandbox Store.clear_sandbox_binding
    Store.set_affinity_snapshot Store.upsert_active_sandbox Store.remove_active_sandbox
    Store.upsert_process Store.remove_process
write-IsKeyed s (create id now sandbox_id config remark) k = record {
  affinities = k.affinities;
  active = k.active;
  processes = k.processes;
}
write-IsKeyed s (bind now name id) k = record {
  affinities =
      AllEntries-insert (λ n (r : AffinityRecord). r.name ≡ n) name _ s.affinities refl
        k.affinities;
  active = k.active;
  processes = k.processes;
}
write-IsKeyed s (clear now id) k = record {
  affinities = clear-AllEntries id now s.affinities k.affinities;
  active = k.active;
  processes = k.processes;
}
write-IsKeyed s (set_snapshot now name id) k = record {
  affinities =
      AllEntries-insert (λ n (r : AffinityRecord). r.name ≡ n) name _ s.affinities refl
        k.affinities;
  active = k.active;
  processes = k.processes;
}
write-IsKeyed s (upsert_active id config time) k = record {
  affinities = k.affinities;
  active =
      AllEntries-insert (λ i (r : ActiveSandboxRecord). r.sandbox_id ≡ i) id _ s.active refl
        k.active;
  processes = k.processes;
}
write-IsKeyed s (remove_active id) k = record {
  affinities = k.affinities;
  active = AllEntries-remove (λ i (r : ActiveSandboxRecord). r.sandbox_id ≡ i) id s.active k.active;
  processes = k.processes;
}
write-IsKeyed s (upsert_process p) k = record {
  affinities = k.affinities;
  active = k.active;
  processes =
      AllEntries-insert (λ i (q : ProcessInfo). q.id ≡ i) p.id p s.processes refl k.processes;
}
write-IsKeyed s (remove_process id) k = record {
  affinities = k.affinities;
  active = k.active;
  processes = AllEntries-remove (λ i (q : ProcessInfo). q.id ≡ i) id s.processes k.processes;
}

write-IsStored :
    (s : SnapshotStore) (op : Write) → IsStored s → IsStorableWrite op → IsStored (write s op)
unfolding write Store.create_snapshot Store.bind_sandbox Store.clear_sandbox_binding
    Store.set_affinity_snapshot Store.upsert_active_sandbox Store.remove_active_sandbox
    Store.upsert_process Store.remove_process
write-IsStored s (create id now sandbox_id config remark) k h = record {
  snapshots =
      AllEntries-insert (λ i (m : SnapshotMetadata). IsStorable m.config) id _ s.snapshots h
        k.snapshots;
  active = k.active;
}
write-IsStored s (bind now name id) k h = record { snapshots = k.snapshots; active = k.active }
write-IsStored s (clear now id) k h = record { snapshots = k.snapshots; active = k.active }
write-IsStored s (set_snapshot now name id) k h = record {
  snapshots = k.snapshots;
  active = k.active;
}
write-IsStored s (upsert_active id config time) k h = record {
  snapshots = k.snapshots;
  active =
      AllEntries-insert (λ i (r : ActiveSandboxRecord). IsStorable r.config) id _ s.active h
        k.active;
}
write-IsStored s (remove_active id) k h = record {
  snapshots = k.snapshots;
  active =
      AllEntries-remove (λ i (r : ActiveSandboxRecord). IsStorable r.config) id s.active k.active;
}
write-IsStored s (upsert_process p) k h = record { snapshots = k.snapshots; active = k.active }
write-IsStored s (remove_process id) k h = record { snapshots = k.snapshots; active = k.active }

pub write_all-IsStored :
    (s : SnapshotStore) (ops : List Write)
    → IsStored s
    → All IsStorableWrite ops
    → IsStored (write_all s ops)
unfolding write_all
write_all-IsStored s [] k h = k
write_all-IsStored s (op ∷ ops) k h =
    write_all-IsStored (write s op) ops (write-IsStored s op k h.0) h.1
