-- ===== src/Server/Stored/Back.antt =====
-- The configurations that serde reads back as they were written, in crates/hyperbox-core/src/config.rs.
use hyperbox.Prelude.{List, [], ◌∷◌, map, Text, All, ◌≡◌, refl}
use hyperbox.Core.Error.{ok}
use hyperbox.Core.Allowlist.{AllowlistEntry, parse}
use hyperbox.Core.Allowlist.Syntax.{parse-to_pattern_string}
use hyperbox.Core.Config.{NetworkMode, none_mode, full_mode, allowlist_mode, SandboxConfig}
use hyperbox.Server.Stored.{
  serialize_entry, deserialize_entry, deserialize_entries, serialize_mode, deserialize_mode,
  serialize_config, deserialize_config,
}

-- An entry that some text parses to. The others are not all read back: the pattern of the exact name
-- `*.x` is that of the wildcard of `x`.
abbrev pub IsParsedEntry : AllowlistEntry → Type 0
IsParsedEntry entry = (raw : Text) × (parse raw ≡ ok entry)

abbrev pub IsStorableMode : NetworkMode → Type 0
IsStorableMode none_mode = Unit {0}
IsStorableMode full_mode = Unit {0}
IsStorableMode (allowlist_mode entries) = All IsParsedEntry entries

-- Every entry of the configuration's allowlist was parsed.
abbrev pub IsStorable : SandboxConfig → Type 0
IsStorable config = IsStorableMode config.network

deserialize_entry-serialize :
    (e : AllowlistEntry) → IsParsedEntry e → deserialize_entry (serialize_entry e) ≡ ok e
unfolding deserialize_entry serialize_entry
deserialize_entry-serialize e (raw, parsed) = rw (parse-to_pattern_string raw e parsed) refl

deserialize_entries-serialize :
    (l : List AllowlistEntry)
    → All IsParsedEntry l
    → deserialize_entries (map serialize_entry l) ≡ ok l
unfolding deserialize_entries
deserialize_entries-serialize [] h = refl
deserialize_entries-serialize (e ∷ l) (p, h) =
    rw (deserialize_entry-serialize e p, deserialize_entries-serialize l h) refl

deserialize_mode-serialize :
    (m : NetworkMode) → IsStorableMode m → deserialize_mode (serialize_mode m) ≡ ok m
unfolding deserialize_mode serialize_mode
deserialize_mode-serialize none_mode h = refl
deserialize_mode-serialize full_mode h = refl
deserialize_mode-serialize (allowlist_mode l) h = rw (deserialize_entries-serialize l h) refl

pub deserialize_config-serialize :
    (config : SandboxConfig)
    → IsStorable config
    → deserialize_config (serialize_config config) ≡ ok config
unfolding deserialize_config serialize_config
deserialize_config-serialize config h = rw (deserialize_mode-serialize config.network h) refl
