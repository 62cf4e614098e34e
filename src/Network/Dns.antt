-- ===== src/Network/Dns.antt =====
-- `DnsAllowlistProxy::handle_query` of crates/hyperbox-network/src/dns_proxy.rs. The codec of DNS
-- messages is a library's: its types and functions are a parameter. The upstream resolver is a
-- function of the outside's state `S`, which the exchange of one packet changes.
pub mod Policy
pub mod Denial
use hyperbox.Prelude.{
  ℕ, Bool, true, false, Option, none, some, List, [], ◌∷◌, Text, nat_beq, trim_end_matches,
  if◌then◌else◌, not,
}
use hyperbox.Core.Error.{Result, ok, err, ◌>>=◌}
use hyperbox.Core.Config.{NetworkMode}
use hyperbox.Network.{NetworkPolicyEvaluator, new_evaluator, allows_domain}

pub data IpAddr : Type 0 where
  v4 v6 : ℕ → IpAddr

pub data RData : Type 0 where
  a_record aaaa_record : ℕ → RData
  other_data : RData

pub record ResolvedIp : Type 0 where
  pub ip : IpAddr
  pub ttl_secs : ℕ

-- What the proxy uses of the message library: `read` and `emit` are the binary codec.
pub record Codec : Type 1 where
  pub Message : Type 0
  pub Query : Type 0
  pub Answer : Type 0
  pub Failure : Type 0
  pub read : List ℕ → Result Failure Message
  pub emit : Message → Result Failure (List ℕ)
  pub queries : Message → List Query
  pub name_to_ascii : Query → Text
  pub answers : Message → List Answer
  pub data_of : Answer → Option RData
  pub ttl : Answer → ℕ
  pub new_message : Message
  pub id : Message → ℕ
  pub set_id : Message → ℕ → Message
  pub set_response : Message → Message
  pub set_op_query : Message → Message
  pub set_nx_domain : Message → Message
  pub add_query : Message → Query → Message

pub record DnsAllowlistProxy : Type 0 where
  pub mode : NetworkMode
  pub upstream : Text

abbrev is_dot : ℕ → Bool
is_dot c = nat_beq c b'.'

module _ (codec : Codec) where
  open codec use {
    Message, Query, Answer, Failure, read, emit, queries, name_to_ascii, answers, data_of, ttl,
    new_message, id, set_id, set_response, set_op_query, set_nx_domain, add_query,
  }

  unfoldable add_queries : Message → List Query → Message
  add_queries response [] = response
  add_queries response (query ∷ rest) = add_queries (add_query response query) rest

  unfoldable pub denied_response : Message → Message
  unfolding add_queries
  denied_response request =
      add_queries (set_nx_domain (set_op_query (set_response (set_id new_message (id request)))))
        (queries request)

  domain_of : List Query → Text
  domain_of [] = []
  domain_of (query ∷ rest) = trim_end_matches is_dot (name_to_ascii query)

  -- The first question's name without its final dots, or the empty text.
  unfoldable pub query_domain : Message → Text
  unfolding domain_of
  query_domain request = domain_of (queries request)

  resolved_by : Answer → Option RData → List ResolvedIp → List ResolvedIp
  resolved_by answer (some (a_record ip)) rest = record { ip = v4 ip; ttl_secs = ttl answer } ∷ rest
  resolved_by answer (some (aaaa_record ip)) rest =
      record { ip = v6 ip; ttl_secs = ttl answer } ∷ rest
  resolved_by answer (some other_data) rest = rest
  resolved_by answer none rest = rest

  unfoldable pub resolve_answers : List Answer → List ResolvedIp
  unfolding resolved_by
  resolve_answers [] = []
  resolve_answers (answer ∷ rest) = resolved_by answer (data_of answer) (resolve_answers rest)

  module _ {S : Type 0} (domain_re : Text → Bool)
      (forward_udp : Text → List ℕ → S → Result Failure (List ℕ) × S) where
    -- What becomes of the upstream's answer.
    unfoldable pub relay : Result Failure (List ℕ) → Result Failure (List ℕ × List ResolvedIp)
    relay upstream_response = do
      bytes ← upstream_response
      parsed ← read bytes
      ok (bytes, resolve_answers (answers parsed))

    unfoldable pub deny : Message → Result Failure (List ℕ × List ResolvedIp)
    deny request = do bytes ← emit (denied_response request); ok (bytes, [])

    unfoldable pub answer_request :
        DnsAllowlistProxy
        → List ℕ
        → S
        → Result Failure Message
        → Result Failure (List ℕ × List ResolvedIp) × S
    answer_request proxy packet s (err e) = (err e, s)
    answer_request proxy packet s (ok request) =
        if not
          (allows_domain (new_evaluator domain_re proxy.mode) proxy.mode (query_domain request))
        then (deny request, s)
        else (let (response, t) = forward_udp proxy.upstream packet s in (relay response, t))

    unfoldable pub handle_query :
        DnsAllowlistProxy → List ℕ → S → Result Failure (List ℕ × List ResolvedIp) × S
    handle_query proxy packet s = answer_request proxy packet s (read packet)
