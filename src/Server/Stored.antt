-- ===== src/Server/Stored.antt =====
-- What serde makes of a configuration: `Serialize` and `Deserialize` of the entries of an allowlist in
-- crates/hyperbox-core/src/config.rs, inside the derived forms of the other types, which keep fields
-- and variants as they are. An allowlist is the list of its entries' texts.
pub mod Back
use hyperbox.Prelude.{ℕ, Option, List, [], ◌∷◌, map, Text, Assoc}
use hyperbox.Core.Error.{Result, ok, err, ◌>>=◌}
use hyperbox.Core.Allowlist.{AllowlistEntry, ParseError, parse, to_pattern_string}
use hyperbox.Core.Config.{NetworkMode, none_mode, full_mode, allowlist_mode, SandboxConfig}
use hyperbox.Server.Wire.{map_ok, map_err, parse_message}

pub data StoredMode : Type 0 where
  stored_none stored_full : StoredMode
  stored_allowlist : List Text → StoredMode

pub record StoredConfig : Type 0 where
  pub affinity_name : Option Text
  pub template : Text
  pub memory_mb : ℕ
  pub vcpu_count : ℕ
  pub workspace_dir : Option Text
  pub network : StoredMode
  pub env : Assoc Text Text
  pub timeout_secs : ℕ

-- `serialize` and `deserialize` of an entry
unfoldable pub serialize_entry : AllowlistEntry → Text
serialize_entry entry = to_pattern_string entry

unfoldable pub deserialize_entry : Text → Result Text AllowlistEntry
deserialize_entry value = map_err parse_message (parse value)

-- The entries one after the other; the first that does not parse is the error.
unfoldable pub deserialize_entries : List Text → Result Text (List AllowlistEntry)
deserialize_entries [] = ok []
deserialize_entries (value ∷ values) = do
  entry ← deserialize_entry value
  rest ← deserialize_entries values
  ok (entry ∷ rest)

unfoldable pub serialize_mode : NetworkMode → StoredMode
serialize_mode none_mode = stored_none
serialize_mode full_mode = stored_full
serialize_mode (allowlist_mode entries) = stored_allowlist (map serialize_entry entries)

unfoldable pub deserialize_mode : StoredMode → Result Text NetworkMode
deserialize_mode stored_none = ok none_mode
deserialize_mode stored_full = ok full_mode
deserialize_mode (stored_allowlist values) = map_ok allowlist_mode (deserialize_entries values)

unfoldable pub serialize_config : SandboxConfig → StoredConfig
serialize_config config = record {
  affinity_name = config.affinity_name;
  template = config.template;
  memory_mb = config.memory_mb;
  vcpu_count = config.vcpu_count;
  workspace_dir = config.workspace_dir;
  network = serialize_mode config.network;
  env = config.env;
  timeout_secs = config.timeout_secs;
}

unfoldable pub deserialize_config : StoredConfig → Result Text SandboxConfig
deserialize_config stored = do
  network ← deserialize_mode stored.network
  ok (record {
    affinity_name = stored.affinity_name;
    template = stored.template;
    memory_mb = stored.memory_mb;
    vcpu_count = stored.vcpu_count;
    workspace_dir = stored.workspace_dir;
    network = network;
    env = stored.env;
    timeout_secs = stored.timeout_secs;
  })
