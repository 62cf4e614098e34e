-- ===== src/Tests/Network.antt =====
-- Runs of crates/hyperbox-network.
use mathlib.Core.List.{foldr}
use hyperbox.Prelude.{
  ℕ, ◌+◌, Bool, true, false, Option, none, some, List, [], ◌∷◌, ◌++◌, Text, codes, text_beq, ◌≡◌,
  ◌≢◌, refl,
}
use hyperbox.Core.Error.{Result, ok, ◌>>=◌}
use hyperbox.Core.Config.{full_mode, allowlist_mode}
use hyperbox.Core.Allowlist.{exact, allows}
use hyperbox.Network.{new_evaluator, allows_domain}
use hyperbox.Network.Dns.{
  Codec, a_record, v4, DnsAllowlistProxy, ResolvedIp, query_domain, resolve_answers, relay,
  answer_request, handle_query,
}
use hyperbox.Network.Dns.Policy.{Allowed, IsVouched, handle_query-IsVouched}
use hyperbox.Network.Dns.Denial.{MessageView, IsMessages, handle_query-denied}
use hyperbox.Network.Firewall.{VmNetworkSpec, CommandSpec, build_apply_plan, apply}
use hyperbox.Network.Firewall.Verdict.{Packet}
use hyperbox.Network.Firewall.Execution.{
  outcome, observe, until_failure, first_failure, apply-observe,
}

abbrev spec : VmNetworkSpec
spec = record {
  vm_id = codes "abc";
  tap_name = codes "tap0";
  host_iface = codes "eth0";
  guest_cidr = codes "172.16.0.0/30";
  guest_ip = codes "172.16.0.2";
}

-- A packet from the machine to a destination that is not in its set, which the table has.
abbrev packet : Packet
packet = record { iifname = codes "tap0"; daddr_in = λ name. false }

abbrev defined : Text → Bool
defined name = text_beq name (codes "vm_abc_allowed")

abbrev no_ipset : CommandSpec → Option Text
no_ipset cmd = elim (text_beq cmd.program (codes "ipset")) [
  | true ↦ some (codes "no ipset")
  | false ↦ none
]

apply-observe_example :
    ((apply (observe no_ipset) spec full_mode []).0
      ≡ outcome (first_failure no_ipset (build_apply_plan spec full_mode)))
    × ((apply (observe no_ipset) spec full_mode []).1
        ≡ [] ++ until_failure no_ipset (build_apply_plan spec full_mode))
apply-observe_example = apply-observe no_ipset spec full_mode []

-- A codec that makes of bytes a question for the name that they are, with one answer, and of a
-- message the names of its questions; a message is what it holds.
abbrev with_name : List Text → MessageView Text ℕ
with_name names = record {
  id = 7;
  is_response = false;
  is_op_query = false;
  is_nx_domain = false;
  queries = names;
  answers = [];
}

abbrev codec : Codec
codec = record {
  Message = MessageView Text ℕ;
  Query = Text;
  Answer = ℕ;
  Failure = Text;
  read = λ bytes. ok (record (with_name (bytes ∷ [])) { answers = 1 ∷ [] });
  emit = λ m. ok (foldr (λ (a b : Text). a ++ b) [] m.queries);
  queries = λ m. m.queries;
  name_to_ascii = λ q. q;
  answers = λ m. m.answers;
  data_of = λ n. some (a_record n);
  ttl = λ n. 60;
  new_message = record (with_name []) { id = 0 };
  id = λ m. m.id;
  set_id = λ m i. record m { id = i };
  set_response = λ m. record m { is_response = true };
  set_op_query = λ m. record m { is_op_query = true };
  set_nx_domain = λ m. record m { is_nx_domain = true };
  add_query = λ m q. record m { queries = m.queries ++ (q ∷ []) };
}

abbrev codec-IsMessages : IsMessages codec
codec-IsMessages = record {
  view = λ m. m;
  new_queries = refl;
  new_answers = refl;
  view-set_id = λ m i. refl;
  view-set_response = λ m. refl;
  view-set_op_query = λ m. refl;
  view-set_nx_domain = λ m. refl;
  view-add_query = λ m q. refl;
}

-- The upstream counts its packets.
abbrev upstream : Text → List ℕ → ℕ → Result Text (List ℕ) × ℕ
upstream address packet n = (ok packet, n + 1)

abbrev proxy : DnsAllowlistProxy
proxy = record {
  mode = allowlist_mode (exact (codes "pypi.org") ∷ []);
  upstream = codes "1.1.1.1:53";
}

abbrev any_domain : Text → Bool
any_domain domain = true

abbrev question : MessageView Text ℕ
question = record (with_name (codes "example.com." ∷ [])) { answers = 1 ∷ [] }

denied_domain : ¬ (
    (any_domain (query_domain codec question) ≡ true)
    × Allowed proxy.mode (query_domain codec question))
unfolding query_domain allows
denied_domain (e, a) = cc

handle_query-denied_example :
    (response : MessageView Text ℕ) × (response ≡ record {
      id = 7;
      is_response = true;
      is_op_query = true;
      is_nx_domain = true;
      queries = codes "example.com." ∷ [];
      answers = [];
    })
    × (handle_query codec any_domain upstream proxy (codes "example.com.") 0
        ≡ ((do bytes ← codec.emit response; ok (bytes, [])), 0))
handle_query-denied_example =
    handle_query-denied codec codec-IsMessages any_domain upstream proxy (codes "example.com.") 0
      question refl denied_domain

abbrev ips : List ResolvedIp
ips = record { ip = v4 1; ttl_secs = 60 } ∷ []

query_allowed :
    handle_query codec any_domain upstream proxy (codes "pypi.org.") 0
    ≡ (ok (codes "pypi.org.", ips), 1)
unfolding handle_query answer_request relay resolve_answers allows_domain new_evaluator query_domain
    allows
query_allowed = refl

some_ips : ips ≢ []
some_ips h = cc

handle_query-IsVouched_example :
    IsVouched codec any_domain upstream proxy (codes "pypi.org.") (codes "pypi.org.") ips 0 1
handle_query-IsVouched_example =
    handle_query-IsVouched codec any_domain upstream proxy (codes "pypi.org.") (codes "pypi.org.")
      ips 0 1 query_allowed some_ips
