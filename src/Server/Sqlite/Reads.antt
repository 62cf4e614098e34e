-- ===== src/Server/Sqlite/Reads.antt =====
-- The reads of the SQLite store of crates/hyperbox-server/src/snapshot_store.rs beside those of the
-- in-memory store.
use mathlib.Core.Option
use hyperbox.Prelude.{
  Bool, Option, none, some, List, [], ◌∷◌, map, Text, text_eq, nat_eq, ◌==◌, Bool-cases, inl, inr,
  All, All-keep, AllEntries, AllEntries-lookup, Assoc, values, keep, ◌≡◌, refl, ap,
}
use hyperbox.Core.Error.{Result, ok}
use hyperbox.Core.Process.{ProcessInfo, ProcessId}
use hyperbox.Core.Snapshot.{SnapshotId, SnapshotMetadata, ActiveSandboxRecord}
use hyperbox.Server.Wire.{map_err}
use hyperbox.Server.Stored.Back.{IsStorable}
use hyperbox.Server.Sqlite.Writes.{IsStored}
use hyperbox.Server.Store
use hyperbox.Server.Store.{SnapshotStore, empty_store}
use hyperbox.Server.Sqlite
use hyperbox.Server.Sqlite.{
  Format, Database, SnapshotRow, ActiveRow, ProcessRow, AffinityRow, optional, collect, push,
  insert_desc, order_desc, order_asc, sql_err, process_row, snapshot_from_row, affinity_from_row,
  active_from_row, process_from_row,
}
use hyperbox.Server.Sqlite.Encoding.{
  IsFormat, lookup-map_entries, values-map_entries, affinity_row, row_of_active, snapshot_row,
  encode, show_uuid-same, snapshot_from_row-back, affinity_from_row-back, active_from_row-back,
  process_from_row-back,
}

-- What a table holds under a key, read.
optional-back :
    {V R : Type 0} (P : V → Type 0) (g : V → R) (f : R → Result Text V)
    → ((v : V) → P v → f (g v) ≡ ok v)
    → (o : Option V) → ((v : V) → o ≡ some v → P v)
    → map_err sql_err (optional f (Option.map g o)) ≡ ok o
optional-back P g f back none h = refl
optional-back P g f back (some v) h = rw (back v (h v refl)) refl

module _ {V R : Type 0} (g : V → R) where
  insert_desc-map :
      (le : Text → Text → Bool) (key : R → Text) (v : V) (l : List V)
      → insert_desc le key (g v) (map g l) ≡ map g (insert_desc le (λ w. key (g w)) v l)
  unfolding insert_desc
  insert_desc-map le key v [] = refl
  insert_desc-map le key v (w ∷ l) = elim (Bool-cases (le (key (g w)) (key (g v)))) [
    | inl t ↦ rw t refl
    | inr n ↦ rw (n, insert_desc-map le key v l) refl
  ]

  order_desc-map :
      (le : Text → Text → Bool) (key : R → Text) (l : List V)
      → order_desc le key (map g l) ≡ map g (order_desc le (λ w. key (g w)) l)
  unfolding order_desc
  order_desc-map le key [] = refl
  order_desc-map le key (v ∷ l) =
      rw (order_desc-map le key l) (insert_desc-map le key v (order_desc le (λ w. key (g w)) l))

  keep-map : (p : R → Bool) (l : List V) → keep p (map g l) ≡ map g (keep (λ v. p (g v)) l)
  keep-map p [] = refl
  keep-map p (v ∷ l) = elim (Bool-cases (p (g v))) [
    | inl t ↦ rw t (ap (◌∷◌ (g v)) (keep-map p l))
    | inr n ↦ rw n (keep-map p l)
  ]

  module _ (P : V → Type 0) (f : R → Result Text V) (back : (v : V) → P v → f (g v) ≡ ok v) where
    All-insert_desc :
        (le : Text → Text → Bool) (key : V → Text) (v : V) (l : List V)
        → P v
        → All P l
        → All P (insert_desc le key v l)
    unfolding insert_desc
    All-insert_desc le key v [] p h = (p, tt)
    All-insert_desc le key v (w ∷ l) p h = elim (Bool-cases (le (key w) (key v))) [
      | inl t ↦ rw t (p, h)
      | inr n ↦ rw n (h.0, All-insert_desc le key v l p h.1)
    ]

    All-order_desc :
        (le : Text → Text → Bool) (key : V → Text) (l : List V)
        → All P l
        → All P (order_desc le key l)
    unfolding order_desc
    All-order_desc le key [] h = tt
    All-order_desc le key (v ∷ l) h =
        All-insert_desc le key v (order_desc le key l) h.0 (All-order_desc le key l h.1)

    collect-map : (l : List V) → All P l → collect f (map g l) ≡ ok l
    unfolding collect
    collect-map [] h = refl
    collect-map (v ∷ l) h = rw (back v h.0, collect-map l h.1) refl

    ordered-back :
        (le : Text → Text → Bool) (key : R → Text) (l : List V)
        → All P l
        → map_err sql_err (collect f (order_desc le key (map g l)))
          ≡ ok (order_desc le (λ w. key (g w)) l)
    ordered-back le key l h =
        rw
          (
            order_desc-map le key l,
            collect-map (order_desc le (λ w. key (g w)) l) (All-order_desc le (λ w. key (g w)) l h),
          )
          refl

All-trivial : {V : Type 0} (l : List V) → All (λ v. Unit {0}) l
All-trivial [] = tt
All-trivial (v ∷ l) = (tt, All-trivial l)

All-kept :
    {K V : Type 0} (P : V → Type 0) (m : Assoc K V) → AllEntries (λ k v. P v) m → All P (values m)
unfolding values
All-kept P [] h = tt
All-kept P ((k, v) ∷ m) h = (h.0, All-kept P m h.1)

module _ {Json : Type 0} (format : Format Json) where
  -- The database answers as the store does, with lists in the order of their times' texts.
  pub record Agrees (db : Database Json) (s : SnapshotStore) : Type 0 where
    pub snapshot :
        (id : SnapshotId) → Sqlite.get_snapshot format db id ≡ ok (Store.get_snapshot s id)
    pub of_template :
        (template : Text)
        → Sqlite.list_for_template format db template
          ≡ ok (
              order_desc format.text_le
                (λ (m : SnapshotMetadata). format.to_rfc3339 m.created_at)
                (Store.list_for_template s template))
    pub affinity :
        (name : Text) → Sqlite.get_affinity format db name ≡ ok (Store.get_affinity s name)
    pub active :
        Sqlite.list_active_sandboxes format db
        ≡ ok (
            order_asc format.text_le
              (λ (r : ActiveSandboxRecord). format.to_rfc3339 r.created_at)
              (Store.list_active_sandboxes s))
    pub process : (id : ProcessId) → Sqlite.get_process format db id ≡ ok (Store.get_process s id)
    pub processes :
        Sqlite.list_processes format db
        ≡ ok (
            order_desc format.text_le
              (λ (p : ProcessInfo). format.to_rfc3339 p.started_at)
              (Store.list_processes s))

  module _ (laws : IsFormat format) (s : SnapshotStore) (stored : IsStored s) where
    pub encode-Agrees : Agrees (encode format s) s
    unfolding encode order_asc Sqlite.get_snapshot Store.get_snapshot Sqlite.list_for_template
        Store.list_for_template Sqlite.get_affinity Store.get_affinity Sqlite.list_active_sandboxes
        Store.list_active_sandboxes Sqlite.get_process Store.get_process Sqlite.list_processes
        Store.list_processes snapshot_row row_of_active Sqlite.active_row process_row
    encode-Agrees = record {
      snapshot = λ id.
          rw
            (lookup-map_entries format.show_uuid (snapshot_row format) (show_uuid-same format laws)
              id s.snapshots)
            (optional-back (λ (m : SnapshotMetadata). IsStorable m.config) (snapshot_row format)
              (snapshot_from_row format) (snapshot_from_row-back format laws) _
              (λ m e.
                AllEntries-lookup (λ i (x : SnapshotMetadata). IsStorable x.config) id m s.snapshots
                  stored.snapshots e));
      of_template = λ template.
          rw
            (
              values-map_entries format.show_uuid (snapshot_row format) s.snapshots,
              keep-map (snapshot_row format) (λ (r : SnapshotRow Json). r.template == template)
                  (values s.snapshots),
            )
            (ordered-back (snapshot_row format) (λ (m : SnapshotMetadata). IsStorable m.config)
              (snapshot_from_row format) (snapshot_from_row-back format laws) format.text_le _ _
              (All-keep (λ (m : SnapshotMetadata). IsStorable m.config) _ _
                (All-kept (λ (m : SnapshotMetadata). IsStorable m.config) s.snapshots
                  stored.snapshots)));
      affinity = λ name.
          rw (lookup-map_entries (λ n. n) (affinity_row format) (λ a b. refl) name s.affinities) (
            optional-back (λ v. Unit {0}) (affinity_row format) (affinity_from_row format)
              (λ v h. affinity_from_row-back format laws v) _ (λ v e. tt));
      active = rw (values-map_entries format.show_uuid (row_of_active format) s.active) (
          ordered-back (row_of_active format) (λ (r : ActiveSandboxRecord). IsStorable r.config)
            (active_from_row format) (active_from_row-back format laws) _ _ _
            (All-kept (λ (r : ActiveSandboxRecord). IsStorable r.config) s.active stored.active));
      process = λ id.
          rw
            (lookup-map_entries format.show_uuid (process_row format) (show_uuid-same format laws)
              id s.processes)
            (optional-back (λ v. Unit {0}) (process_row format) (process_from_row format)
              (λ v h. process_from_row-back format laws v) _ (λ v e. tt));
      processes = rw (values-map_entries format.show_uuid (process_row format) s.processes) (
          ordered-back (process_row format) (λ v. Unit {0}) (process_from_row format)
            (λ v h. process_from_row-back format laws v) format.text_le _ _
            (All-trivial (values s.processes)));
    }
