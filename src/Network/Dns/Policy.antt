-- ===== src/Network/Dns/Policy.antt =====
-- The DNS proxy of crates/hyperbox-network/src/dns_proxy.rs against the policy of its mode.
use hyperbox.Prelude.{
  ℕ, Bool, true, List, [], Text, ◌≡◌, ◌≢◌, refl, ap, arith, Bool-cases, inl, inr,
}
use hyperbox.Core.Error.{Result, ok, err, Result-cases}
use hyperbox.Core.Config.{NetworkMode, none_mode, full_mode, allowlist_mode}
use hyperbox.Core.Allowlist.{allows}
use hyperbox.Network.{new_evaluator, allows_domain}
use hyperbox.Network.Dns.{
  Codec, DnsAllowlistProxy, ResolvedIp, query_domain, denied_response, resolve_answers, relay, deny,
  answer_request, handle_query,
}

-- The policy that a mode states, for a name that the regular expression accepts.
abbrev pub Allowed : NetworkMode → Text → Type 0
Allowed none_mode domain = ⊥
Allowed full_mode domain = Unit
Allowed (allowlist_mode entries) domain = allows entries domain ≡ true

allows_domain-Allowed :
    (domain_re : Text → Bool) (mode : NetworkMode) (domain : Text)
    → allows_domain (new_evaluator domain_re mode) mode domain ≡ true
    → Allowed mode domain
unfolding allows_domain new_evaluator
allows_domain-Allowed domain_re none_mode domain h = ground arith
allows_domain-Allowed domain_re full_mode domain h = tt
allows_domain-Allowed domain_re (allowlist_mode entries) domain h = ground arith

module _ (codec : Codec) {S : Type 0} (domain_re : Text → Bool)
    (forward_udp : Text → List ℕ → S → Result codec.Failure (List ℕ) × S) where
  open codec use {Message, Failure, read, emit, answers}

  -- The addresses come from the upstream's answer to an allowed question.
  pub record IsVouched (proxy : DnsAllowlistProxy) (packet bytes : List ℕ) (ips : List ResolvedIp)
      (s t : S) : Type 0 where
    pub request : Message
    pub upstream : Message
    pub asked : read packet ≡ ok request
    pub allowed : Allowed proxy.mode (query_domain codec request)
    pub forwarded : forward_udp proxy.upstream packet s ≡ (ok bytes, t)
    pub answered : read bytes ≡ ok upstream
    pub resolved : ips ≡ resolve_answers codec (answers upstream)

  module _ (proxy : DnsAllowlistProxy) (packet bytes : List ℕ) (ips : List ResolvedIp)
      (s t : S) where
    abbrev first :
        Result Failure (List ℕ × List ResolvedIp) × S → Result Failure (List ℕ × List ResolvedIp)
    first r = r.0

    abbrev second : Result Failure (List ℕ × List ResolvedIp) × S → S
    second r = r.1

    relay-IsVouched :
        (request : Message)
        → read packet ≡ ok request
        → Allowed proxy.mode (query_domain codec request)
        → (r : Result Failure (List ℕ) × S) → forward_udp proxy.upstream packet s ≡ r
        → relay codec domain_re forward_udp r.0 ≡ ok (bytes, ips)
        → r.1 ≡ t
        → IsVouched proxy packet bytes ips s t
    unfolding relay
    relay-IsVouched request e a (err x, u) f h i = cc
    relay-IsVouched request e a (ok b, u) f h i = elim (Result-cases (read b)) [
      | inr (x, k) ↦ absurd (cc (rw k at h))
      | inl (upstream, k) ↦
          let g = rw k at h in
          record {
            request = request;
            upstream = upstream;
            asked = e;
            allowed = a;
            forwarded = cc;
            answered = cc;
            resolved = cc;
          }
    ]

    answer_request-IsVouched :
        (r : Result Failure Message)
        → read packet ≡ r
        → ips ≢ []
        → answer_request codec domain_re forward_udp proxy packet s r ≡ (ok (bytes, ips), t)
        → IsVouched proxy packet bytes ips s t
    unfolding answer_request deny
    answer_request-IsVouched (err x) e some_ip h = cc
    answer_request-IsVouched (ok request) e some_ip h =
        elim (Bool-cases (
          allows_domain (new_evaluator domain_re proxy.mode) proxy.mode
            (query_domain codec request))) [
              | inl yes_ ↦
                  relay-IsVouched request e (allows_domain-Allowed domain_re proxy.mode _ yes_)
                    (forward_udp proxy.upstream packet s) refl (ap first (rw yes_ at h))
                    (ap second (rw yes_ at h))
              | inr no_ ↦ elim (Result-cases (emit (denied_response codec request))) [
                | inl (b, k) ↦ absurd (some_ip (cc (rw k at rw no_ at h)))
                | inr (x, k) ↦ absurd (cc (rw k at rw no_ at h))
              ]
            ]

    -- A call that reports addresses was a well-formed question for a name that the mode allows; the
    -- packet went upstream as it came, the upstream's bytes are the reply, and the addresses are
    -- those of the upstream's answers.
    pub handle_query-IsVouched :
        handle_query codec domain_re forward_udp proxy packet s ≡ (ok (bytes, ips), t)
        → ips ≢ []
        → IsVouched proxy packet bytes ips s t
    unfolding handle_query
    handle_query-IsVouched h some_ip = answer_request-IsVouched (read packet) refl some_ip h
