-- ===== src/Network.antt =====
-- crates/hyperbox-network: which domains a sandbox may resolve, the DNS proxy, and the firewall.
pub mod Dns
pub mod Firewall
use hyperbox.Prelude.{Bool, true, false, not, Option, none, some, Text, if◌then◌else◌}
use hyperbox.Core.Allowlist.{Allowlist, allows}
use hyperbox.Core.Config.{NetworkMode, none_mode, full_mode, allowlist_mode}

-- `NetworkPolicyEvaluator`; the regular expression stands outside, as its test on a text.
pub record NetworkPolicyEvaluator : Type 0 where
  pub allowlist : Option Allowlist
  pub domain_re : Text → Bool

abbrev allowlist_of : NetworkMode → Option Allowlist
allowlist_of none_mode = none
allowlist_of full_mode = none
allowlist_of (allowlist_mode entries) = some entries

unfoldable pub new_evaluator : (Text → Bool) → NetworkMode → NetworkPolicyEvaluator
new_evaluator domain_re mode = record { allowlist = allowlist_of mode; domain_re = domain_re }

abbrev allows_by : Option Allowlist → Text → Bool
allows_by none domain = false
allows_by (some entries) domain = allows entries domain

-- The `match` on the mode.
abbrev allows_in : NetworkPolicyEvaluator → NetworkMode → Text → Bool
allows_in e none_mode domain = false
allows_in e full_mode domain = true
allows_in e (allowlist_mode entries) domain = allows_by e.allowlist domain

unfoldable pub allows_domain : NetworkPolicyEvaluator → NetworkMode → Text → Bool
allows_domain e mode domain = if not (e.domain_re domain) then false else allows_in e mode domain
