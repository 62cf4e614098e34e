-- ===== src/Server/Sqlite.antt =====
-- `SqliteSnapshotStore` of crates/hyperbox-server/src/snapshot_store.rs: its statements on tables of
-- rows. A table is keyed by its primary key; the text that a value is stored as is a parameter.
-- The failures of the file are left out. A column with `NULL` is `none`.
pub mod Encoding
pub mod Reads
pub mod Writes
pub mod Refinement
use hyperbox.Prelude.{
  ℕ, Bool, true, false, Option, none, some, List, [], ◌∷◌, ◌++◌, map, Text, codes, text_eq, ◌==◌,
  text_beq, if◌then◌else◌, Assoc, lookup, insert, remove, values, keep, ℤ,
}
use mathlib.Core.Option
use hyperbox.Core.Error.{Result, ok, err, ◌>>=◌, HyperboxError, execution_failed}
use hyperbox.Core.Config.{SandboxConfig, SandboxId, Time}
use hyperbox.Core.Process.{ProcessInfo, ProcessId, ProcessDisposition, ProcessStatus}
use hyperbox.Core.Snapshot.{SnapshotId, SnapshotMetadata, AffinityRecord, ActiveSandboxRecord}
use hyperbox.Server.Store.{map_values}
use hyperbox.Server.Wire.{map_ok, map_err}
use hyperbox.Server.Stored.{StoredConfig, serialize_config, deserialize_config}

-- How values are stored: UUIDs and times as texts, and the texts that serde_json writes, whose type
-- is `Json` since nothing looks into them; of a configuration it writes what the program's own
-- serializer makes of it. A reader gives the text of its error; `custom` is what it makes of an error
-- that the program's deserializer reports of a text.
pub record Format (Json : Type 0) : Type 0 where
  pub show_uuid : ℕ → Text
  pub parse_uuid : Text → Result Text ℕ
  pub to_rfc3339 : Time → Text
  pub parse_rfc3339 : Text → Result Text Time
  pub config_json : StoredConfig → Json
  pub parse_config : Json → Result Text StoredConfig
  pub custom : Json → Text → Text
  pub disposition_json : ProcessDisposition → Json
  pub parse_disposition : Json → Result Text ProcessDisposition
  pub command_json : List Text → Json
  pub parse_command : Json → Result Text (List Text)
  pub status_json : ProcessStatus → Json
  pub parse_status : Json → Result Text ProcessStatus
  -- the order of `ORDER BY` on texts
  pub text_le : Text → Text → Bool

pub record SnapshotRow (Json : Type 0) : Type 0 where
  pub snapshot_id : Text
  pub sandbox_id : Text
  pub affinity_name : Option Text
  pub template : Text
  pub config_json : Json
  pub created_at : Text
  pub note : Option Text

pub record AffinityRow : Type 0 where
  pub name : Text
  pub sandbox_id : Option Text
  pub snapshot_id : Option Text
  pub updated_at : Text

pub record ActiveRow (Json : Type 0) : Type 0 where
  pub sandbox_id : Text
  pub config_json : Json
  pub created_at : Text

pub record ProcessRow (Json : Type 0) : Type 0 where
  pub process_id : Text
  pub sandbox_id : Text
  pub requested_sandbox_id : Option Text
  pub disposition : Json
  pub destroy_sandbox_on_expiry : Bool
  pub command_json : Json
  pub status : Json
  pub stdout_path : Text
  pub stderr_path : Text
  pub backend_pid : Option ℕ
  pub exit_code : Option ℤ
  pub started_at : Text
  pub finished_at : Option Text
  pub expires_at : Option Text

pub record Database (Json : Type 0) : Type 0 where
  pub snapshots : Assoc Text (SnapshotRow Json)
  pub affinities : Assoc Text AffinityRow
  pub active_sandboxes : Assoc Text (ActiveRow Json)
  pub processes : Assoc Text (ProcessRow Json)

-- The tables that `init_schema` creates.
abbrev pub empty_database : {Json : Type 0} → Database Json
empty_database = record { snapshots = []; affinities = []; active_sandboxes = []; processes = [] }

-- `sql_err`
unfoldable pub sql_err : Text → HyperboxError
sql_err e = execution_failed (codes "sqlite state store error: " ++ e)

-- The new row, or what the update makes of the old.
abbrev pub merged {ℓ} : {R : Type ℓ} → R → (R → R) → Option R → R
merged new update none = new
merged new update (some old) = update old

-- `INSERT .. ON CONFLICT(key) DO UPDATE`
unfoldable pub upsert : {R : Type 0} → Text → R → (R → R) → Assoc Text R → Assoc Text R
upsert key new update table = insert key (merged new update (lookup key table)) table

-- `ORDER BY key DESC`, which keeps the order of rows with equal keys
unfoldable pub insert_desc {ℓ} :
    {R : Type ℓ} → (Text → Text → Bool) → (R → Text) → R → List R → List R
insert_desc le key r [] = r ∷ []
insert_desc le key r (q ∷ l) =
    let rest = insert_desc le key r l in if le (key q) (key r) then r ∷ q ∷ l else q ∷ rest

unfoldable pub order_desc {ℓ} : {R : Type ℓ} → (Text → Text → Bool) → (R → Text) → List R → List R
order_desc le key [] = []
order_desc le key (r ∷ l) = insert_desc le key r (order_desc le key l)

-- `ORDER BY key ASC`
unfoldable pub order_asc {ℓ} : {R : Type ℓ} → (Text → Text → Bool) → (R → Text) → List R → List R
order_asc le key l = order_desc (λ a b. le b a) key l

abbrev pub push : {A : Type 0} → Result Text A → Result Text (List A) → Result Text (List A)
push (err e) rest = err e
push (ok a) (err e) = err e
push (ok a) (ok l) = ok (a ∷ l)

-- `rows.collect::<Result<Vec<_>, _>>()`
unfoldable pub collect : {R A : Type 0} → (R → Result Text A) → List R → Result Text (List A)
collect f [] = ok []
collect f (r ∷ l) = push (f r) (collect f l)

-- `INSERT` of a key that stands in the table fails.
abbrev pub unless_taken : {R A : Type 0} → Option R → A → Result HyperboxError A
unless_taken none stored = ok stored
unless_taken (some row) stored =
    err (sql_err (codes "UNIQUE constraint failed: snapshots.snapshot_id"))

-- `.optional()`
abbrev pub optional : {R A : Type 0} → (R → Result Text A) → Option R → Result Text (Option A)
optional f none = ok none
optional f (some r) = map_ok some (f r)

module _ {Json : Type 0} (format : Format Json) where
  -- `serde_json::to_string(config)` and `from_str`
  unfoldable pub config_text : SandboxConfig → Json
  config_text config = format.config_json (serialize_config config)

  unfoldable pub read_config : Json → Result Text SandboxConfig
  read_config json = do
    stored ← format.parse_config json
    map_err (format.custom json) (deserialize_config stored)

  unfoldable pub create_snapshot :
      Database Json
      → SnapshotId
      → Time
      → SandboxId
      → SandboxConfig
      → Option Text
      → Result HyperboxError (SnapshotMetadata × Database Json)
  create_snapshot db id now sandbox_id config note =
      let snapshot : SnapshotMetadata = record {
        id = id;
        sandbox_id = sandbox_id;
        affinity_name = config.affinity_name;
        template = config.template;
        config = config;
        created_at = now;
        note = note;
      } in
      let row : SnapshotRow Json = record {
        snapshot_id = format.show_uuid id;
        sandbox_id = format.show_uuid sandbox_id;
        affinity_name = config.affinity_name;
        template = config.template;
        config_json = config_text config;
        created_at = format.to_rfc3339 now;
        note = note;
      } in
      unless_taken (lookup (format.show_uuid id) db.snapshots)
        (snapshot, record db { snapshots = insert (format.show_uuid id) row db.snapshots })

  unfoldable pub snapshot_from_row : SnapshotRow Json → Result Text SnapshotMetadata
  snapshot_from_row row = do
    id ← format.parse_uuid row.snapshot_id
    sandbox_id ← format.parse_uuid row.sandbox_id
    config ← read_config row.config_json
    created_at ← format.parse_rfc3339 row.created_at
    ok (record {
      id = id;
      sandbox_id = sandbox_id;
      affinity_name = row.affinity_name;
      template = row.template;
      config = config;
      created_at = created_at;
      note = row.note;
    })

  unfoldable pub get_snapshot :
      Database Json → SnapshotId → Result HyperboxError (Option SnapshotMetadata)
  get_snapshot db id =
      map_err sql_err (optional snapshot_from_row (lookup (format.show_uuid id) db.snapshots))

  unfoldable pub list_for_template :
      Database Json → Text → Result HyperboxError (List SnapshotMetadata)
  list_for_template db template = map_err sql_err (
      collect snapshot_from_row (
        order_desc format.text_le (λ (r : SnapshotRow Json). r.created_at)
          (keep (λ (r : SnapshotRow Json). r.template == template) (values db.snapshots))))

  unfoldable pub bind_sandbox : Database Json → Time → Text → SandboxId → Database Json
  bind_sandbox db now name id = record db {
    affinities =
        upsert name
          (record {
            name = name;
            sandbox_id = some (format.show_uuid id);
            snapshot_id = none;
            updated_at = format.to_rfc3339 now;
          })
          (λ (old : AffinityRow). record old {
            sandbox_id = some (format.show_uuid id);
            updated_at = format.to_rfc3339 now;
          })
          db.affinities;
  }

  -- `sandbox_id = ?1`, which is not true of `NULL`
  abbrev pub column_is : Text → Option Text → Bool
  column_is s none = false
  column_is s (some t) = text_beq t s

  unfoldable pub clear_row : SandboxId → Time → AffinityRow → AffinityRow
  clear_row id now row =
      if column_is (format.show_uuid id) row.sandbox_id
      then record row { sandbox_id = none; updated_at = format.to_rfc3339 now }
      else row

  unfoldable pub clear_sandbox_binding : Database Json → Time → SandboxId → Database Json
  clear_sandbox_binding db now id = record db {
    affinities = map_values (clear_row id now) db.affinities;
  }

  unfoldable pub set_affinity_snapshot : Database Json → Time → Text → SnapshotId → Database Json
  set_affinity_snapshot db now name id = record db {
    affinities =
        upsert name
          (record {
            name = name;
            sandbox_id = none;
            snapshot_id = some (format.show_uuid id);
            updated_at = format.to_rfc3339 now;
          })
          (λ (old : AffinityRow). record old {
            snapshot_id = some (format.show_uuid id);
            updated_at = format.to_rfc3339 now;
          })
          db.affinities;
  }

  unfoldable pub affinity_from_row : AffinityRow → Result Text AffinityRecord
  affinity_from_row row = do
    sandbox_id ← optional format.parse_uuid row.sandbox_id
    snapshot_id ← optional format.parse_uuid row.snapshot_id
    updated_at ← format.parse_rfc3339 row.updated_at
    ok (record {
      name = row.name;
      sandbox_id = sandbox_id;
      snapshot_id = snapshot_id;
      updated_at = updated_at;
    })

  unfoldable pub get_affinity : Database Json → Text → Result HyperboxError (Option AffinityRecord)
  get_affinity db name = map_err sql_err (optional affinity_from_row (lookup name db.affinities))

  unfoldable pub active_row : SandboxId → SandboxConfig → Time → ActiveRow Json
  active_row id config created_at = record {
    sandbox_id = format.show_uuid id;
    config_json = config_text config;
    created_at = format.to_rfc3339 created_at;
  }

  unfoldable pub upsert_active_sandbox :
      Database Json → SandboxId → SandboxConfig → Time → Database Json
  upsert_active_sandbox db id config created_at =
      let row : ActiveRow Json = active_row id config created_at in
      record db {
        active_sandboxes =
            upsert (format.show_uuid id) row
              (λ (old : ActiveRow Json). record old {
                config_json = row.config_json;
                created_at = row.created_at;
              })
              db.active_sandboxes;
      }

  unfoldable pub remove_active_sandbox : Database Json → SandboxId → Database Json
  remove_active_sandbox db id = record db {
    active_sandboxes = remove (format.show_uuid id) db.active_sandboxes;
  }

  unfoldable pub active_from_row : ActiveRow Json → Result Text ActiveSandboxRecord
  active_from_row row = do
    id ← format.parse_uuid row.sandbox_id
    config ← read_config row.config_json
    created_at ← format.parse_rfc3339 row.created_at
    ok (record { sandbox_id = id; config = config; created_at = created_at })

  unfoldable pub list_active_sandboxes :
      Database Json → Result HyperboxError (List ActiveSandboxRecord)
  list_active_sandboxes db = map_err sql_err (
      collect active_from_row (
        order_asc format.text_le (λ (r : ActiveRow Json). r.created_at)
          (values db.active_sandboxes)))

  unfoldable pub process_row : ProcessInfo → ProcessRow Json
  process_row p = record {
    process_id = format.show_uuid p.id;
    sandbox_id = format.show_uuid p.sandbox_id;
    requested_sandbox_id = Option.map format.show_uuid p.requested_sandbox_id;
    disposition = format.disposition_json p.disposition;
    destroy_sandbox_on_expiry = p.destroy_sandbox_on_expiry;
    command_json = format.command_json p.command;
    status = format.status_json p.status;
    stdout_path = p.stdout_path;
    stderr_path = p.stderr_path;
    backend_pid = p.backend_pid;
    exit_code = p.exit_code;
    started_at = format.to_rfc3339 p.started_at;
    finished_at = Option.map format.to_rfc3339 p.finished_at;
    expires_at = Option.map format.to_rfc3339 p.expires_at;
  }

  -- On a conflict every column but the key is replaced.
  unfoldable pub upsert_process : Database Json → ProcessInfo → Database Json
  upsert_process db p =
      let row : ProcessRow Json = process_row p in
      record db {
        processes =
            upsert (format.show_uuid p.id) row
              (λ (old : ProcessRow Json). record row { process_id = old.process_id }) db.processes;
      }

  unfoldable pub process_from_row : ProcessRow Json → Result Text ProcessInfo
  process_from_row row = do
    id ← format.parse_uuid row.process_id
    sandbox_id ← format.parse_uuid row.sandbox_id
    requested_sandbox_id ← optional format.parse_uuid row.requested_sandbox_id
    disposition ← format.parse_disposition row.disposition
    command ← format.parse_command row.command_json
    status ← format.parse_status row.status
    started_at ← format.parse_rfc3339 row.started_at
    finished_at ← optional format.parse_rfc3339 row.finished_at
    expires_at ← optional format.parse_rfc3339 row.expires_at
    ok (record {
      id = id;
      sandbox_id = sandbox_id;
      requested_sandbox_id = requested_sandbox_id;
      disposition = disposition;
      destroy_sandbox_on_expiry = row.destroy_sandbox_on_expiry;
      command = command;
      status = status;
      stdout_path = row.stdout_path;
      stderr_path = row.stderr_path;
      backend_pid = row.backend_pid;
      exit_code = row.exit_code;
      started_at = started_at;
      finished_at = finished_at;
      expires_at = expires_at;
    })

  unfoldable pub get_process : Database Json → ProcessId → Result HyperboxError (Option ProcessInfo)
  get_process db id =
      map_err sql_err (optional process_from_row (lookup (format.show_uuid id) db.processes))

  unfoldable pub list_processes : Database Json → Result HyperboxError (List ProcessInfo)
  list_processes db = map_err sql_err (
      collect process_from_row
        (order_desc format.text_le (λ (r : ProcessRow Json). r.started_at) (values db.processes)))

  unfoldable pub remove_process : Database Json → ProcessId → Database Json
  remove_process db id = record db { processes = remove (format.show_uuid id) db.processes }
