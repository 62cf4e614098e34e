-- ===== src/Server/Sqlite/Encoding.antt =====
-- The rows of the SQLite store of crates/hyperbox-server/src/snapshot_store.rs for what the in-memory
-- store holds, and their readers.
use mathlib.Core.Option
use hyperbox.Prelude.{
  ℕ, Option, none, some, List, [], ◌∷◌, map, Text, text_eq, nat_eq, Keyed, ◌==◌, Bool-cases,
  beq_refl, eq_of_beq, inl, inr, Assoc, lookup, insert, remove, values, ◌≡◌, refl, sym, ap, ◌∙◌,
}
use hyperbox.Core.Error.{Result, ok}
use hyperbox.Core.Config.{SandboxConfig}
use hyperbox.Server.Stored.{StoredConfig, serialize_config}
use hyperbox.Server.Stored.Back.{IsStorable, deserialize_config-serialize}
use hyperbox.Core.Process.{ProcessInfo, ProcessDisposition, ProcessStatus}
use hyperbox.Core.Snapshot.{SnapshotMetadata, AffinityRecord, ActiveSandboxRecord}
use hyperbox.Server.Store.{SnapshotStore}
use hyperbox.Server.Sqlite.{
  Format, config_text, read_config, SnapshotRow, AffinityRow, ActiveRow, Database, optional,
  process_row, active_row, snapshot_from_row, affinity_from_row, active_from_row, process_from_row,
}

-- What is stored is read back.
pub record IsFormat {Json : Type 0} (format : Format Json) : Type 0 where
  pub uuid_back : (id : ℕ) → format.parse_uuid (format.show_uuid id) ≡ ok id
  pub time_back : (t : ℕ) → format.parse_rfc3339 (format.to_rfc3339 t) ≡ ok t
  pub config_back : (c : StoredConfig) → format.parse_config (format.config_json c) ≡ ok c
  pub disposition_back :
      (d : ProcessDisposition) → format.parse_disposition (format.disposition_json d) ≡ ok d
  pub command_back : (c : List Text) → format.parse_command (format.command_json c) ≡ ok c
  pub status_back : (s : ProcessStatus) → format.parse_status (format.status_json s) ≡ ok s

-- The keys and the values of a map, each put into another form.
unfoldable pub map_entries : {K V L R : Type 0} → (K → L) → (V → R) → Assoc K V → Assoc L R
map_entries f g [] = []
map_entries f g ((k, v) ∷ m) = (f k, g v) ∷ map_entries f g m

module _ {K V L R : Type 0} ⦃keyed : Keyed K⦄ ⦃stored : Keyed L⦄ (f : K → L) (g : V → R)
    (same : (a b : K) → (f a == f b) ≡ (a == b)) where
  pub lookup-map_entries :
      (k : K) (m : Assoc K V) → lookup (f k) (map_entries f g m) ≡ Option.map g (lookup k m)
  unfolding lookup map_entries
  lookup-map_entries k [] = refl
  lookup-map_entries k ((j, v) ∷ m) = elim (Bool-cases (j == k)) [
    | inl t ↦ rw (same j k, t) refl
    | inr n ↦ rw (same j k, n) (lookup-map_entries k m)
  ]

  pub insert-map_entries :
      (k : K) (v : V) (m : Assoc K V)
      → insert (f k) (g v) (map_entries f g m) ≡ map_entries f g (insert k v m)
  unfolding insert map_entries
  insert-map_entries k v [] = refl
  insert-map_entries k v ((j, w) ∷ m) = elim (Bool-cases (j == k)) [
    | inl t ↦ rw (same j k, t) refl
    | inr n ↦ rw (same j k, n) (ap (◌∷◌ (f j, g w)) (insert-map_entries k v m))
  ]

  pub remove-map_entries :
      (k : K) (m : Assoc K V) → remove (f k) (map_entries f g m) ≡ map_entries f g (remove k m)
  unfolding remove map_entries
  remove-map_entries k [] = refl
  remove-map_entries k ((j, w) ∷ m) = elim (Bool-cases (j == k)) [
    | inl t ↦ rw (same j k, t) (remove-map_entries k m)
    | inr n ↦ rw (same j k, n) (ap (◌∷◌ (f j, g w)) (remove-map_entries k m))
  ]

pub values-map_entries :
    {K V L R : Type 0} (f : K → L) (g : V → R) (m : Assoc K V)
    → values (map_entries f g m) ≡ map g (values m)
unfolding values map_entries
values-map_entries f g [] = refl
values-map_entries f g ((k, v) ∷ m) = ap (◌∷◌ (g v)) (values-map_entries f g m)

optional-map :
    {A : Type 0} (f : A → Text) (g : Text → Result Text A)
    → ((a : A) → g (f a) ≡ ok a)
    → (o : Option A) → optional g (Option.map f o) ≡ ok o
optional-map f g back none = refl
optional-map f g back (some a) = rw (back a) refl

module _ {Json : Type 0} (format : Format Json) where
  unfoldable pub snapshot_row : SnapshotMetadata → SnapshotRow Json
  snapshot_row s = record {
    snapshot_id = format.show_uuid s.id;
    sandbox_id = format.show_uuid s.sandbox_id;
    affinity_name = s.affinity_name;
    template = s.template;
    config_json = config_text format s.config;
    created_at = format.to_rfc3339 s.created_at;
    note = s.note;
  }

  unfoldable pub affinity_row : AffinityRecord → AffinityRow
  affinity_row r = record {
    name = r.name;
    sandbox_id = Option.map format.show_uuid r.sandbox_id;
    snapshot_id = Option.map format.show_uuid r.snapshot_id;
    updated_at = format.to_rfc3339 r.updated_at;
  }

  unfoldable pub row_of_active : ActiveSandboxRecord → ActiveRow Json
  row_of_active r = active_row format r.sandbox_id r.config r.created_at

  -- The database that holds a store.
  unfoldable pub encode : SnapshotStore → Database Json
  encode s = record {
    snapshots = map_entries format.show_uuid snapshot_row s.snapshots;
    affinities = map_entries (λ name. name) affinity_row s.affinities;
    active_sandboxes = map_entries format.show_uuid row_of_active s.active;
    processes = map_entries format.show_uuid (process_row format) s.processes;
  }

  module _ (laws : IsFormat format) where
    -- Two identifiers are the same if their texts are.
    pub show_uuid-same : (a b : ℕ) → (format.show_uuid a == format.show_uuid b) ≡ (a == b)
    show_uuid-same a b = elim (Bool-cases (a == b)) [
      | inl t ↦ let e : a ≡ b = eq_of_beq a b t in rw (t, e) (beq_refl (format.show_uuid b))
      | inr f ↦ elim (Bool-cases (format.show_uuid a == format.show_uuid b)) [
        | inl t ↦
            let e : format.show_uuid a ≡ format.show_uuid b = eq_of_beq _ _ t in
            let parsed : ◌≡◌ {A = Result Text ℕ} (ok a) (ok b) =
              sym (laws.uuid_back a) ∙ ap format.parse_uuid e ∙ laws.uuid_back b in
            let same : a ≡ b = cc in cc (beq_refl b)
        | inr g ↦ rw (f, g) refl
      ]
    ]

    read_config-text :
        (c : SandboxConfig) → IsStorable c → read_config format (config_text format c) ≡ ok c
    unfolding read_config config_text
    read_config-text c h =
        rw (laws.config_back (serialize_config c), deserialize_config-serialize c h) refl

    pub snapshot_from_row-back :
        (s : SnapshotMetadata)
        → IsStorable s.config
        → snapshot_from_row format (snapshot_row s) ≡ ok s
    unfolding snapshot_from_row snapshot_row
    snapshot_from_row-back s h =
        rw
          (
            laws.uuid_back s.id,
            laws.uuid_back s.sandbox_id,
            read_config-text s.config h,
            laws.time_back s.created_at,
          )
          refl

    pub affinity_from_row-back :
        (r : AffinityRecord) → affinity_from_row format (affinity_row r) ≡ ok r
    unfolding affinity_from_row affinity_row
    affinity_from_row-back r =
        rw
          (
            optional-map format.show_uuid format.parse_uuid laws.uuid_back r.sandbox_id,
            optional-map format.show_uuid format.parse_uuid laws.uuid_back r.snapshot_id,
            laws.time_back r.updated_at,
          )
          refl

    pub active_from_row-back :
        (r : ActiveSandboxRecord)
        → IsStorable r.config
        → active_from_row format (row_of_active r) ≡ ok r
    unfolding active_from_row row_of_active active_row
    active_from_row-back r h =
        rw (laws.uuid_back r.sandbox_id, read_config-text r.config h, laws.time_back r.created_at)
          refl

    pub process_from_row-back :
        (p : ProcessInfo) → process_from_row format (process_row format p) ≡ ok p
    unfolding process_from_row process_row
    process_from_row-back p =
        rw
          (
            laws.uuid_back p.id,
            laws.uuid_back p.sandbox_id,
            optional-map format.show_uuid format.parse_uuid laws.uuid_back p.requested_sandbox_id,
            laws.disposition_back p.disposition,
            laws.command_back p.command,
            laws.status_back p.status,
            laws.time_back p.started_at,
            optional-map format.to_rfc3339 format.parse_rfc3339 laws.time_back p.finished_at,
            optional-map format.to_rfc3339 format.parse_rfc3339 laws.time_back p.expires_at,
          )
          refl
