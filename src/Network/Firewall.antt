-- ===== src/Network/Firewall.antt =====
-- crates/hyperbox-network/src/firewall.rs: the commands that set up and take down the firewall of a
-- virtual machine, and their execution. An IP address is the text that it displays as.
pub mod Verdict
pub mod Execution
use hyperbox.Prelude.{List, [], ◌∷◌, ◌++◌, map, Text, codes}
use hyperbox.Core.Error.{Result, ok, err}
use hyperbox.Core.Config.{NetworkMode, none_mode, full_mode, allowlist_mode}

pub record VmNetworkSpec : Type 0 where
  pub vm_id : Text
  pub tap_name : Text
  pub host_iface : Text
  pub guest_cidr : Text
  pub guest_ip : Text

pub record CommandSpec : Type 0 where
  pub program : Text
  pub args : List Text

-- `format!("vm_{}", vm_id)`, `format!("vm_{}_allowed", vm_id)` and the reference to that set
abbrev pub table_of : Text → Text
table_of vm_id = codes "vm_" ++ vm_id

abbrev pub set_of : Text → Text
set_of vm_id = codes "vm_" ++ (vm_id ++ codes "_allowed")

abbrev pub nft : List Text → CommandSpec
nft args = record { program = codes "nft"; args = args }

abbrev pub ipset : List Text → CommandSpec
ipset args = record { program = codes "ipset"; args = args }

-- A rule of the machine's `forward` chain.
abbrev pub forward_rule : VmNetworkSpec → List Text → CommandSpec
forward_rule spec rule =
    nft (codes "add" ∷ codes "rule" ∷ codes "inet" ∷ table_of spec.vm_id ∷ codes "forward" ∷ rule)

abbrev pub mode_rules : VmNetworkSpec → NetworkMode → List CommandSpec
mode_rules spec none_mode =
    forward_rule spec (codes "iifname" ∷ spec.tap_name ∷ codes "drop" ∷ []) ∷ []
mode_rules spec full_mode =
    forward_rule spec (codes "iifname" ∷ spec.tap_name ∷ codes "accept" ∷ []) ∷ []
mode_rules spec (allowlist_mode entries) =
    forward_rule spec (
      codes "iifname"
      ∷ spec.tap_name
      ∷ codes "ip"
      ∷ codes "daddr"
      ∷ (codes "@" ++ set_of spec.vm_id)
      ∷ codes "accept"
      ∷ [])
    ∷ forward_rule spec (codes "iifname" ∷ spec.tap_name ∷ codes "drop" ∷ [])
    ∷ []

unfoldable pub build_apply_plan : VmNetworkSpec → NetworkMode → List CommandSpec
build_apply_plan spec mode =
    (ipset (
        codes "create"
        ∷ set_of spec.vm_id
        ∷ codes "hash:ip"
        ∷ codes "timeout"
        ∷ codes "300"
        ∷ codes "-exist"
        ∷ [])
      ∷ nft (codes "add" ∷ codes "table" ∷ codes "inet" ∷ table_of spec.vm_id ∷ [])
      ∷ nft (
          codes "add"
          ∷ codes "chain"
          ∷ codes "inet"
          ∷ table_of spec.vm_id
          ∷ codes "forward"
          ∷ codes "{"
          ∷ codes "type"
          ∷ codes "filter"
          ∷ codes "hook"
          ∷ codes "forward"
          ∷ codes "priority"
          ∷ codes "0"
          ∷ codes ";"
          ∷ codes "}"
          ∷ [])
      ∷ [])
    ++ (mode_rules spec mode
        ++ (nft (
              codes "add"
              ∷ codes "rule"
              ∷ codes "nat"
              ∷ codes "postrouting"
              ∷ codes "ip"
              ∷ codes "saddr"
              ∷ spec.guest_ip
              ∷ codes "oifname"
              ∷ spec.host_iface
              ∷ codes "masquerade"
              ∷ [])
            ∷ []))

unfoldable pub build_teardown_plan : VmNetworkSpec → List CommandSpec
build_teardown_plan spec =
    nft (codes "delete" ∷ codes "table" ∷ codes "inet" ∷ table_of spec.vm_id ∷ [])
    ∷ ipset (codes "destroy" ∷ set_of spec.vm_id ∷ [])
    ∷ []

unfoldable pub build_allowlist_population_plan : Text → List Text → List CommandSpec
build_allowlist_population_plan vm_id ips =
    map
      (λ ip.
        ipset
          (codes "add" ∷ set_of vm_id ∷ ip ∷ codes "timeout" ∷ codes "300" ∷ codes "-exist" ∷ []))
      ips

-- `FirewallManager` over an executor with state `E`.
module _ {E F : Type 0} (run : CommandSpec → E → Result F (Unit {0}) × E) where
  -- The loop `for cmd in plan`, which a failed command leaves.
  abbrev pub run_next :
      Result F (Unit {0}) → (E → Result F (Unit {0}) × E) → E → Result F (Unit {0}) × E
  run_next (ok u) rest e = rest e
  run_next (err f) rest e = (err f, e)

  unfoldable pub run_plan : List CommandSpec → E → Result F (Unit {0}) × E
  run_plan [] e = (ok tt, e)
  run_plan (cmd ∷ plan) e = let (r, e') = run cmd e in run_next r (run_plan plan) e'

  unfoldable pub apply : VmNetworkSpec → NetworkMode → E → Result F (Unit {0}) × E
  apply spec mode = run_plan (build_apply_plan spec mode)

  unfoldable pub teardown : VmNetworkSpec → E → Result F (Unit {0}) × E
  teardown spec = run_plan (build_teardown_plan spec)

-- `RecordingExecutor`
unfoldable pub record_command :
    {F : Type 0} → CommandSpec → List CommandSpec → Result F (Unit {0}) × List CommandSpec
record_command cmd commands = (ok tt, commands ++ (cmd ∷ []))
