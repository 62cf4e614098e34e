-- ===== src/Network/Firewall/Verdict.antt =====
-- What nft makes of the plan of crates/hyperbox-network/src/firewall.rs, and what the forward chain
-- that the plan sets up decides on a packet. nft is described by its manual, as far as the plan uses
-- it: the state of one table of the family inet, its chain `forward`, and the rules of that chain.
use hyperbox.Prelude.{
  Bool, true, false, Option, none, some, List, [], ◌∷◌, ◌++◌, Text, codes, nat_beq, text_beq,
  text_eq, if◌then◌else◌, ◌&&◌, ◌≡◌,
}
use hyperbox.Core.Config.{NetworkMode, none_mode, full_mode, allowlist_mode}
use hyperbox.Network.Firewall.{VmNetworkSpec, CommandSpec, table_of, set_of}

pub data Verdict : Type 0 where
  accept drop : Verdict

-- The interface by which a packet comes in, and the sets of the table that hold its destination.
pub record Packet : Type 0 where
  pub iifname : Text
  pub daddr_in : Text → Bool

pub data Test : Type 0 where
  from_interface to_set : Text → Test

pub record Rule : Type 0 where
  pub tests : List Test
  pub verdict : Verdict

-- Whether the table exists, whether its chain `forward` stands at the forward hook, and the rules of
-- that chain in the order in which they were added.
pub record Ruleset : Type 0 where
  pub table : Bool
  pub hooked : Bool
  pub rules : List Rule

-- `strip_prefix` on arguments
abbrev strip_args : List Text → List Text → Option (List Text)
strip_args [] args = some args
strip_args (p ∷ ps) [] = none
strip_args (p ∷ ps) (a ∷ args) = if text_beq p a then strip_args ps args else none

abbrev verdict_of : Text → Option Rule
verdict_of word =
    if text_beq word (codes "accept")
    then some (record { tests = []; verdict = accept })
    else if text_beq word (codes "drop")
    then some (record { tests = []; verdict = drop })
    else none

abbrev with_test : Option Test → Option Rule → Option Rule
with_test none rule = none
with_test (some t) none = none
with_test (some t) (some rule) = some (record rule { tests = t ∷ rule.tests })

module _ (vm_id : Text) (defined : Text → Bool) where
  -- `@name` is a set of the table, which nft refuses if the table has none of that name.
  abbrev set_test : Text → Option Test
  set_test [] = none
  set_test (c ∷ name) = if nat_beq c b'@' && defined name then some (to_set name) else none

  -- The statements `iifname X` and `ip daddr @S` before a verdict.
  abbrev read_rule : List Text → Option Rule
  read_rule [] = none
  read_rule (word ∷ []) = verdict_of word
  read_rule (word ∷ name ∷ []) = none
  read_rule (word ∷ name ∷ next ∷ rest) =
      let after_name = read_rule (next ∷ rest) in
      let after_set = read_rule rest in
      if text_beq word (codes "iifname")
      then with_test (some (from_interface name)) after_name
      else if text_beq word (codes "ip") && text_beq name (codes "daddr")
      then with_test (set_test next) after_set
      else none

  abbrev chain : List Text
  chain =
      codes "{"
      ∷ codes "type"
      ∷ codes "filter"
      ∷ codes "hook"
      ∷ codes "forward"
      ∷ codes "priority"
      ∷ codes "0"
      ∷ codes ";"
      ∷ codes "}"
      ∷ []

  abbrev same_args : List Text → List Text → Bool
  same_args [] [] = true
  same_args [] (a ∷ args) = false
  same_args (p ∷ ps) [] = false
  same_args (p ∷ ps) (a ∷ args) = text_beq p a && same_args ps args

  -- A rule goes to the end of a chain that exists; a chain into a table that exists.
  abbrev add_rule : Ruleset → Option Rule → Option Ruleset
  add_rule s none = none
  add_rule s (some rule) =
      if s.hooked then some (record s { rules = s.rules ++ (rule ∷ []) }) else none

  abbrev add_chain : Ruleset → Option (List Text) → Option Ruleset
  add_chain s none = none
  add_chain s (some properties) =
      if s.table && same_args chain properties then some (record s { hooked = true }) else none

  abbrev add_table : Ruleset → Option (List Text) → Option Ruleset
  add_table s none = none
  add_table s (some rest) = if same_args [] rest then some (record s { table = true }) else none

  abbrev or_else : Option Ruleset → Option Ruleset → Option Ruleset
  or_else none o = o
  or_else (some s) o = some s

  abbrev read_args : Option (List Text) → Option Rule
  read_args none = none
  read_args (some args) = read_rule args

  -- What a command makes of the table, or none if nft refuses it. Other programs leave it alone.
  abbrev execute : Ruleset → CommandSpec → Option Ruleset
  execute s cmd =
      let words = λ (kind : Text) (more : List Text).
        strip_args (codes "add" ∷ kind ∷ codes "inet" ∷ table_of vm_id ∷ more) cmd.args in
      if text_beq cmd.program (codes "nft")
      then or_else (add_table s (words (codes "table") [])) (
          or_else (add_chain s (words (codes "chain") (codes "forward" ∷ [])))
            (add_rule s (read_args (words (codes "rule") (codes "forward" ∷ [])))))
      else some s

  -- The plan is left at the first command that is refused.
  abbrev execute_all : Ruleset → List CommandSpec → Ruleset
  execute_all s [] = s
  execute_all s (cmd ∷ plan) = elim (execute s cmd) [ none ↦ s | some next ↦ execute_all next plan ]

  module _ (packet : Packet) where
    abbrev passes : List Test → Bool
    passes [] = true
    passes (from_interface name ∷ rest) = text_beq packet.iifname name && passes rest
    passes (to_set name ∷ rest) = packet.daddr_in name && passes rest

    -- The first rule whose tests the packet passes decides; a chain without policy accepts the rest.
    abbrev first_match : List Rule → Verdict
    first_match [] = accept
    first_match (rule ∷ rest) = if passes rule.tests then rule.verdict else first_match rest

    abbrev verdict_in : Ruleset → Verdict
    verdict_in s = if s.hooked then first_match s.rules else accept

    -- The verdict on the packet once the plan has been run on a host without the table.
    abbrev pub decide : List CommandSpec → Verdict
    decide plan =
        verdict_in (execute_all (record { table = false; hooked = false; rules = [] }) plan)

module _ (spec : VmNetworkSpec) (defined : Text → Bool) (packet : Packet) where
  -- What the mode says of the packet.
  abbrev pub policy : NetworkMode → Verdict
  policy none_mode = if text_beq packet.iifname spec.tap_name then drop else accept
  policy full_mode = accept
  policy (allowlist_mode entries) =
      if text_beq packet.iifname spec.tap_name
      then if packet.daddr_in (set_of spec.vm_id) then accept else drop
      else accept

  -- The table has the set that the rule of an allowlist names.
  abbrev pub HasSet : NetworkMode → Type 0
  HasSet none_mode = Unit {0}
  HasSet full_mode = Unit {0}
  HasSet (allowlist_mode entries) = defined (set_of spec.vm_id) ≡ true
