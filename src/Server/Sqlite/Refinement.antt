-- ===== src/Server/Sqlite/Refinement.antt =====
-- The SQLite store of crates/hyperbox-server/src/snapshot_store.rs beside the in-memory store, through
-- sequences of writes.
use mathlib.Core.Option
use hyperbox.Prelude.{
  Option, none, some, List, [], ◌∷◌, Text, text_eq, nat_eq, Keyed, ◌==◌, Bool-cases, inl, inr, All,
  Assoc, AllEntries-lookup, lookup, insert, ◌≡◌, refl, ap,
}
use hyperbox.Core.Error.{ok}
use hyperbox.Core.Config.{SandboxConfig, SandboxId, Time}
use hyperbox.Core.Process.{ProcessInfo}
use hyperbox.Core.Snapshot.{SnapshotId, AffinityRecord, ActiveSandboxRecord}
use hyperbox.Server.Store
use hyperbox.Server.Store.{
  SnapshotStore, empty_store, map_values, clear_record, snapshot_of, sandbox_of, holds,
}
use hyperbox.Server.Sqlite
use hyperbox.Server.Sqlite.{
  Format, config_text, Database, empty_database, AffinityRow, ProcessRow, ActiveRow, upsert, merged,
  clear_row, process_row, active_row, column_is,
}
use hyperbox.Server.Sqlite.Encoding.{
  IsFormat, map_entries, lookup-map_entries, insert-map_entries, remove-map_entries, affinity_row,
  row_of_active, snapshot_row, encode, show_uuid-same,
}
use hyperbox.Server.Sqlite.Reads.{Agrees, encode-Agrees}
use hyperbox.Server.Sqlite.Writes.{
  IsKeyed, Write, bind, clear, set_snapshot, upsert_active, remove_active, upsert_process,
  remove_process, write, execute, write_all, execute_all, IsFresh, AreFresh, IsStorableWrite,
  write_all-IsStored, create, write-IsKeyed,
}

name-same : (a b : Text) → (a == b) ≡ (a == b)
name-same a b = refl

-- An upsert whose row stands for a value is the insertion of the value.
upsert-map_entries :
    {K V R : Type 0} ⦃keyed : Keyed K⦄ (f : K → Text) (g : V → R)
    (same : (a b : K) → (f a == f b) ≡ (a == b)) (k : K) (v : V) (new : R) (update : R → R)
    (m : Assoc K V)
    → merged new update (Option.map g (lookup k m)) ≡ g v
    → upsert (f k) new update (map_entries f g m) ≡ map_entries f g (insert k v m)
unfolding upsert
upsert-map_entries f g same k v new update m h =
    rw (lookup-map_entries f g same k m, h, insert-map_entries f g same k v m) refl

map_values-map_entries :
    {K V R : Type 0} (f : K → Text) (g : V → R) (b : R → R) (a : V → V)
    → ((v : V) → b (g v) ≡ g (a v))
    → (m : Assoc K V) → map_values b (map_entries f g m) ≡ map_entries f g (map_values a m)
unfolding map_values map_entries
map_values-map_entries f g b a h [] = refl
map_values-map_entries f g b a h ((k, v) ∷ m) = rw (h v, map_values-map_entries f g b a h m) refl

module _ {Json : Type 0} (format : Format Json) (laws : IsFormat format) where
  column_is-holds :
      (id : SandboxId) (o : Option SandboxId)
      → column_is format (format.show_uuid id) (Option.map format.show_uuid o) ≡ holds id o
  column_is-holds id none = refl
  column_is-holds id (some j) = show_uuid-same format laws j id

  clear_row-affinity_row :
      (id : SandboxId) (now : Time) (r : AffinityRecord)
      → clear_row format id now (affinity_row format r)
        ≡ affinity_row format (clear_record id now r)
  unfolding clear_row affinity_row clear_record
  clear_row-affinity_row id now r = elim (Bool-cases (holds id r.sandbox_id)) [
    | inl t ↦ rw (column_is-holds id r.sandbox_id, t) refl
    | inr f ↦ rw (column_is-holds id r.sandbox_id, f) refl
  ]

  bind-row :
      (now : Time) (name : Text) (id : SandboxId) (o : Option AffinityRecord)
      → ((r : AffinityRecord) → o ≡ some r → r.name ≡ name)
      → merged
          (record {
            name = name;
            sandbox_id = some (format.show_uuid id);
            snapshot_id = none;
            updated_at = format.to_rfc3339 now;
          })
          (λ (old : AffinityRow). record old {
            sandbox_id = some (format.show_uuid id);
            updated_at = format.to_rfc3339 now;
          })
          (Option.map (affinity_row format) o)
        ≡ affinity_row format (record {
          name = name;
          sandbox_id = some id;
          snapshot_id = snapshot_of o;
          updated_at = now;
        })
  unfolding affinity_row
  bind-row now name id none own = refl
  bind-row now name id (some r) own = rw (own r refl) refl

  snapshot-row :
      (now : Time) (name : Text) (id : SnapshotId) (o : Option AffinityRecord)
      → ((r : AffinityRecord) → o ≡ some r → r.name ≡ name)
      → merged
          (record {
            name = name;
            sandbox_id = none;
            snapshot_id = some (format.show_uuid id);
            updated_at = format.to_rfc3339 now;
          })
          (λ (old : AffinityRow). record old {
            snapshot_id = some (format.show_uuid id);
            updated_at = format.to_rfc3339 now;
          })
          (Option.map (affinity_row format) o)
        ≡ affinity_row format (record {
          name = name;
          sandbox_id = sandbox_of o;
          snapshot_id = some id;
          updated_at = now;
        })
  unfolding affinity_row
  snapshot-row now name id none own = refl
  snapshot-row now name id (some r) own = rw (own r refl) refl

  active-row :
      (id : SandboxId) (config : SandboxConfig) (time : Time) (o : Option ActiveSandboxRecord)
      → ((r : ActiveSandboxRecord) → o ≡ some r → r.sandbox_id ≡ id)
      → merged
          (active_row format id config time)
          (λ (old : ActiveRow Json). record old {
            config_json = config_text format config;
            created_at = format.to_rfc3339 time;
          })
          (Option.map (row_of_active format) o)
        ≡ row_of_active format (record { sandbox_id = id; config = config; created_at = time })
  unfolding row_of_active active_row
  active-row id config time none own = refl
  active-row id config time (some r) own = rw (own r refl) refl

  process-row :
      (p : ProcessInfo) (o : Option ProcessInfo)
      → ((q : ProcessInfo) → o ≡ some q → q.id ≡ p.id)
      → merged
          (process_row format p)
          (λ (old : ProcessRow Json). record (process_row format p) { process_id = old.process_id })
          (Option.map (process_row format) o)
        ≡ process_row format p
  unfolding process_row
  process-row p none own = refl
  process-row p (some q) own = rw (own q refl) refl

  pub execute-encode :
      (s : SnapshotStore) (op : Write)
      → IsKeyed s
      → IsFresh s op
      → execute format (encode format s) op ≡ ok (encode format (write s op))
  unfolding execute write encode Sqlite.create_snapshot Store.create_snapshot snapshot_row
      Sqlite.bind_sandbox Store.bind_sandbox Sqlite.clear_sandbox_binding
      Store.clear_sandbox_binding Sqlite.set_affinity_snapshot Store.set_affinity_snapshot
      Sqlite.upsert_active_sandbox Store.upsert_active_sandbox Sqlite.remove_active_sandbox
      Store.remove_active_sandbox Sqlite.upsert_process Store.upsert_process Sqlite.remove_process
      Store.remove_process active_row
  execute-encode s (create id now sandbox_id config remark) k fresh =
      rw
        (
          lookup-map_entries format.show_uuid (snapshot_row format) (show_uuid-same format laws) id
              s.snapshots,
          fresh,
        )
        (ap (λ t. ok (record (encode format s) { snapshots = t }))
          (insert-map_entries format.show_uuid (snapshot_row format) (show_uuid-same format laws) id
            (Store.create_snapshot s id now sandbox_id config remark).0 s.snapshots))
  execute-encode s (bind now name id) k fresh =
      ap (λ t. ok (record (encode format s) { affinities = t }))
        (upsert-map_entries (λ n. n) (affinity_row format) name-same name _ _ _ s.affinities
          (bind-row now name id (lookup name s.affinities)
            (λ r e. AllEntries-lookup _ name r s.affinities k.affinities e)))
  execute-encode s (clear now id) k fresh =
      ap (λ t. ok (record (encode format s) { affinities = t }))
        (map_values-map_entries (λ n. n) (affinity_row format) _ _ (clear_row-affinity_row id now)
          s.affinities)
  execute-encode s (set_snapshot now name id) k fresh =
      ap (λ t. ok (record (encode format s) { affinities = t }))
        (upsert-map_entries (λ n. n) (affinity_row format) name-same name _ _ _ s.affinities
          (snapshot-row now name id (lookup name s.affinities)
            (λ r e. AllEntries-lookup _ name r s.affinities k.affinities e)))
  execute-encode s (upsert_active id config time) k fresh =
      ap (λ t. ok (record (encode format s) { active_sandboxes = t }))
        (upsert-map_entries format.show_uuid (row_of_active format) (show_uuid-same format laws) id
          _ _ _ s.active
          (active-row id config time (lookup id s.active)
            (λ r e. AllEntries-lookup _ id r s.active k.active e)))
  execute-encode s (remove_active id) k fresh =
      ap (λ t. ok (record (encode format s) { active_sandboxes = t }))
        (remove-map_entries format.show_uuid (row_of_active format) (show_uuid-same format laws) id
          s.active)
  execute-encode s (upsert_process p) k fresh =
      ap (λ t. ok (record (encode format s) { processes = t }))
        (upsert-map_entries format.show_uuid (process_row format) (show_uuid-same format laws) p.id
          _ _ _ s.processes
          (process-row p (lookup p.id s.processes)
            (λ q e. AllEntries-lookup _ p.id q s.processes k.processes e)))
  execute-encode s (remove_process id) k fresh =
      ap (λ t. ok (record (encode format s) { processes = t }))
        (remove-map_entries format.show_uuid (process_row format) (show_uuid-same format laws) id
          s.processes)

  execute_all-encode :
      (s : SnapshotStore) (ops : List Write)
      → IsKeyed s
      → AreFresh s ops
      → execute_all format (encode format s) ops ≡ ok (encode format (write_all s ops))
  unfolding execute_all write_all
  execute_all-encode s [] k fresh = refl
  execute_all-encode s (op ∷ ops) k fresh =
      rw (execute-encode s op k fresh.0)
        (execute_all-encode (write s op) ops (write-IsKeyed s op k) fresh.1)

  -- Writes, each snapshot created under an identifier that no snapshot has, and of configurations
  -- whose allowlists have parsed entries only, succeed on a new database if what a column is written
  -- as is read back; and then every read of the database returns what the in-memory store holds: the
  -- snapshot, the name's record and the process of each key, and the lists in the order of their
  -- times' texts.
  pub writes-Agree :
      (ops : List Write)
      → AreFresh empty_store ops
      → All IsStorableWrite ops
      → (db : Database Json) × ((execute_all format empty_database ops ≡ ok db)
          × Agrees format db (write_all empty_store ops))
  unfolding encode map_entries
  writes-Agree ops fresh storable =
      let start : IsKeyed empty_store = record { affinities = tt; active = tt; processes = tt } in
      (
        encode format (write_all empty_store ops),
        (
          execute_all-encode empty_store ops start fresh,
          encode-Agrees format laws (write_all empty_store ops) (
              write_all-IsStored empty_store ops (record { snapshots = tt; active = tt }) storable),
        ),
      )
