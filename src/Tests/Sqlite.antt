-- ===== src/Tests/Sqlite.antt =====
-- A run of the SQLite store of crates/hyperbox-server/src/snapshot_store.rs, with a unary code of
-- numbers and a type for what serde_json writes.
use hyperbox.Prelude.{none, some, List, [], ◌∷◌, Text, codes, ◌++◌, leb, length, ◌≡◌, refl, ap}
use hyperbox.Core.Error.{Result, ok, err}
use hyperbox.Core.Allowlist.{exact, wildcard_subdomain, parse as parse_entry}
use hyperbox.Core.Config.{SandboxConfig, allowlist_mode, default_config}
use hyperbox.Server.Stored.{StoredConfig}
use hyperbox.Server.Stored.Back.{IsStorable}
use hyperbox.Core.Process.{ProcessDisposition, ProcessStatus}
use hyperbox.Server.Store
use hyperbox.Server.Store.{empty_store}
use hyperbox.Server.Sqlite.{Format, Database, empty_database}
use hyperbox.Server.Sqlite.Encoding.{IsFormat}
use hyperbox.Server.Sqlite.Reads.{Agrees}
use hyperbox.Server.Sqlite.Writes.{
  Write, create, bind, clear, set_snapshot, upsert_active, remove_active, upsert_process,
  execute_all, write_all, write,
}
use hyperbox.Server.Sqlite.Refinement.{writes-Agree}
use hyperbox.Tests.Client.{show, parse, length-ones}
use hyperbox.Tests.Server.{process}

data Stored : Type 0 where
  config : StoredConfig → Stored
  disposition : ProcessDisposition → Stored
  command : List Text → Stored
  status : ProcessStatus → Stored

abbrev unreadable : {A : Type 0} → Result Text A
unreadable = err (codes "invalid type")

abbrev read_config : Stored → Result Text StoredConfig
read_config (config c) = ok c
read_config (disposition d) = unreadable
read_config (command c) = unreadable
read_config (status s) = unreadable

abbrev read_disposition : Stored → Result Text ProcessDisposition
read_disposition (config c) = unreadable
read_disposition (disposition d) = ok d
read_disposition (command c) = unreadable
read_disposition (status s) = unreadable

abbrev read_command : Stored → Result Text (List Text)
read_command (config c) = unreadable
read_command (disposition d) = unreadable
read_command (command c) = ok c
read_command (status s) = unreadable

abbrev read_status : Stored → Result Text ProcessStatus
read_status (config c) = unreadable
read_status (disposition d) = unreadable
read_status (command c) = unreadable
read_status (status s) = ok s

abbrev format : Format Stored
format = record {
  show_uuid = show;
  parse_uuid = parse;
  to_rfc3339 = show;
  parse_rfc3339 = parse;
  config_json = config;
  parse_config = read_config;
  custom = λ json e. e ++ codes " at line 1";
  disposition_json = disposition;
  parse_disposition = read_disposition;
  command_json = command;
  parse_command = read_command;
  status_json = status;
  parse_status = read_status;
  text_le = λ s t. leb (length s) (length t);
}

format-IsFormat : IsFormat format
format-IsFormat = record {
  uuid_back = λ n. ap ok (length-ones n);
  time_back = λ n. ap ok (length-ones n);
  config_back = λ c. refl;
  disposition_back = λ d. refl;
  command_back = λ c. refl;
  status_back = λ s. refl;
}

abbrev listed : SandboxConfig
listed = record default_config {
  network = allowlist_mode (exact (codes "pypi.org") ∷ wildcard_subdomain (codes "x.org") ∷ []);
}

listed-IsStorable : IsStorable listed
unfolding parse_entry
listed-IsStorable = ((codes "PyPI.org ", refl), ((codes "*.x.org", refl), tt))

abbrev writes : List Write
writes =
    bind 1 (codes "dev") 5
    ∷ create 9 1 5 listed (some (codes "a note"))
    ∷ set_snapshot 2 (codes "dev") 9
    ∷ upsert_active 5 listed 2
    ∷ upsert_process process
    ∷ clear 3 5
    ∷ remove_active 5
    ∷ create 10 4 5 default_config none
    ∷ []

writes-Agree_example :
    (db : Database Stored) × ((execute_all format empty_database writes ≡ ok db)
      × Agrees format db (write_all empty_store writes))
unfolding write Store.create_snapshot Store.bind_sandbox Store.clear_sandbox_binding
    Store.set_affinity_snapshot Store.upsert_active_sandbox Store.remove_active_sandbox
    Store.upsert_process
writes-Agree_example =
    writes-Agree format format-IsFormat writes
      (tt, (refl, (tt, (tt, (tt, (tt, (tt, (refl, tt))))))))
      (tt, (listed-IsStorable, (tt, (listed-IsStorable, (tt, (tt, (tt, (tt, tt))))))))
