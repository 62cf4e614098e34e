-- ===== src/Server/Client/Configs.antt =====
-- The configurations that cross the wire between crates/hyperbox-server/src/grpc.rs and client.rs.
use mathlib.Core.List.{Nodup, Perm}
use mathlib.Core.List.Perm
use hyperbox.Prelude.{
  ℕ, ◌%◌, ◌<◌, false, Option, none, some, List, [], ◌∷◌, map, Assoc, Text, is_empty, nat_beq, ◌≡◌,
  ◌≢◌, refl, arith,
}
use hyperbox.Core.Error.{ok}
use hyperbox.Core.Allowlist.{parse_all}
use hyperbox.Core.Allowlist.Dedup.{parse_all-to_strings}
use hyperbox.Core.Config.{NetworkMode, none_mode, full_mode, allowlist_mode, SandboxConfig}
use hyperbox.Server.Wire.{
  Codec, or_default, not_empty, network_of, network_code, network_patterns, into_proto_config,
  from_proto_config,
}
use hyperbox.Server.Client.{parse_config}

-- An allowlist that some patterns parse to.
abbrev pub IsParsed : NetworkMode → Type 0
IsParsed none_mode = Unit {0}
IsParsed full_mode = Unit {0}
IsParsed (allowlist_mode l) = (domains : List Text) × (parse_all domains ≡ ok l)

abbrev pub variables : Assoc Text Text → List Text
variables m = map (λ e. e.0) m

-- A configuration that a message can say: no name is empty, the allowlist is a parsed one, the count
-- of processors is one of `u8`, and no variable is named twice.
pub record IsSayable (config : SandboxConfig) : Type 0 where
  pub named : config.affinity_name ≢ some []
  pub placed : config.workspace_dir ≢ some []
  pub parsed : IsParsed config.network
  pub narrow : config.vcpu_count < 256
  pub distinct : Nodup (variables config.env)

-- The fields that the service replaces by a default have a value.
pub record IsFilled (config : SandboxConfig) : Type 0 where
  pub template : is_empty config.template ≡ false
  pub memory : 0 < config.memory_mb
  pub processors : 0 < config.vcpu_count
  pub timeout : 0 < config.timeout_secs

pub not_empty-or_default : (o : Option Text) → o ≢ some [] → not_empty (or_default [] o) ≡ o
not_empty-or_default none h = refl
not_empty-or_default (some []) h = absurd (h refl)
not_empty-or_default (some (c ∷ s)) h = refl

network_of-code :
    (n : NetworkMode) → IsParsed n → network_of (network_code n) (network_patterns n) ≡ ok n
unfolding network_of
network_of-code none_mode h = refl
network_of-code full_mode h = refl
network_of-code (allowlist_mode l) (domains, e) = rw (parse_all-to_strings domains l e) refl

-- A message's map gives back the entries that were put into it, each once, in some order.
pub record KeepsEntries (codec : Codec) : Type 0 where
  pub same_entries : (m : Assoc Text Text) → Nodup (variables m) → Perm (codec.entries m) m

-- The same configuration with the same variables, in another order.
abbrev pub IsReordered : SandboxConfig → SandboxConfig → Type 0
IsReordered c config = (c ≡ record config { env = c.env }) × Perm c.env config.env

abbrev pub IsReorderedOption : Option SandboxConfig → Option SandboxConfig → Type 0
IsReorderedOption none none = Unit
IsReorderedOption (some c) (some config) = IsReordered c config
IsReorderedOption none (some config) = ⊥
IsReorderedOption (some c) none = ⊥

module _ (codec : Codec) where
  -- What a configuration is after it crossed the wire: its variables went into a message's map when
  -- it was sent, and came out of it when it was read.
  abbrev pub crossed : SandboxConfig → SandboxConfig
  crossed config = record config { env = codec.entries (codec.entries config.env) }

  pub crossed-IsReordered :
      KeepsEntries codec
      → (config : SandboxConfig) → IsSayable config
      → IsReordered (crossed config) config
  crossed-IsReordered keeps config said =
      let sent = keeps.same_entries config.env said.distinct in
      (
        refl,
        Perm.trans
            (keeps.same_entries (codec.entries config.env)
              (Perm.nodup (Perm.symm (Perm.map (λ e. e.0) sent)) said.distinct))
            sent,
      )

  module _ (config : SandboxConfig) (said : IsSayable config) where
    -- The client reads back the configuration that the service sends, its variables reordered, if it is one that a message
    -- can say.
    pub parse_config-into :
        parse_config codec (into_proto_config codec config) ≡ ok (crossed config)
    unfolding parse_config into_proto_config
    parse_config-into =
        let small : config.vcpu_count < 256 = said.narrow in
        let narrow : config.vcpu_count % 256 ≡ config.vcpu_count = grind arith in
        rw
          (
            network_of-code config.network said.parsed,
            not_empty-or_default config.affinity_name said.named,
            not_empty-or_default config.workspace_dir said.placed,
            narrow,
          )
          refl

    -- The service reads the configuration that the client sends, its variables reordered, if it is one that a message can
    -- say and the fields that stand for a default when they are empty or zero are not.
    pub from_proto_config-into :
        IsFilled config
        → from_proto_config codec (into_proto_config codec config) ≡ ok (crossed config)
    unfolding from_proto_config into_proto_config
    from_proto_config-into filled =
        let small : config.vcpu_count < 256 = said.narrow in
        let narrow : config.vcpu_count % 256 ≡ config.vcpu_count = grind arith in
        let memory : nat_beq config.memory_mb 0 ≡ false = positive config.memory_mb filled.memory in
        let processors : nat_beq config.vcpu_count 0 ≡ false =
          positive config.vcpu_count filled.processors in
        let timeout : nat_beq config.timeout_secs 0 ≡ false =
          positive config.timeout_secs filled.timeout in
        rw
          (
            network_of-code config.network said.parsed,
            not_empty-or_default config.affinity_name said.named,
            not_empty-or_default config.workspace_dir said.placed,
            filled.template,
            memory,
            processors,
            timeout,
            narrow,
          )
          refl
      where
        positive : (n : ℕ) → 0 < n → nat_beq n 0 ≡ false
        positive n h = ground arith
