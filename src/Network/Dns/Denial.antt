-- ===== src/Network/Dns/Denial.antt =====
-- The answer of crates/hyperbox-network/src/dns_proxy.rs to a question that it does not forward.
use mathlib.Core.List.{append_assoc, append-nil}
use hyperbox.Prelude.{
  ℕ, Bool, true, false, List, [], ◌∷◌, ◌++◌, Text, ◌≡◌, refl, arith, Bool-cases, inl, inr,
}
use hyperbox.Core.Error.{Result, ok, ◌>>=◌}
use hyperbox.Core.Config.{NetworkMode, none_mode, full_mode, allowlist_mode}
use hyperbox.Network.{new_evaluator, allows_domain}
use hyperbox.Network.Dns.{
  Codec, DnsAllowlistProxy, query_domain, add_queries, denied_response, deny, answer_request,
  handle_query,
}
use hyperbox.Network.Dns.Policy.{Allowed}

-- What a message holds.
pub record MessageView (Query Answer : Type 0) : Type 0 where
  pub id : ℕ
  pub is_response : Bool
  pub is_op_query : Bool
  pub is_nx_domain : Bool
  pub queries : List Query
  pub answers : List Answer

-- The message library's documentation: a setter sets its field and no other, `add_query` adds a
-- question after the others, and a new message has neither questions nor answers.
pub record IsMessages (codec : Codec) : Type 0 where
  pub view : codec.Message → MessageView codec.Query codec.Answer
  pub new_queries : (view codec.new_message).queries ≡ []
  pub new_answers : (view codec.new_message).answers ≡ []
  pub view-set_id :
      (m : codec.Message) (i : ℕ) → view (codec.set_id m i) ≡ record (view m) { id = i }
  pub view-set_response :
      (m : codec.Message) → view (codec.set_response m) ≡ record (view m) { is_response = true }
  pub view-set_op_query :
      (m : codec.Message) → view (codec.set_op_query m) ≡ record (view m) { is_op_query = true }
  pub view-set_nx_domain :
      (m : codec.Message) → view (codec.set_nx_domain m) ≡ record (view m) { is_nx_domain = true }
  pub view-add_query :
      (m : codec.Message) (q : codec.Query)
      → view (codec.add_query m q) ≡ record (view m) { queries = (view m).queries ++ (q ∷ []) }

allows_domain-denied :
    (domain_re : Text → Bool) (mode : NetworkMode) (domain : Text)
    → ¬ ((domain_re domain ≡ true) × Allowed mode domain)
    → allows_domain (new_evaluator domain_re mode) mode domain ≡ false
unfolding allows_domain new_evaluator
allows_domain-denied domain_re mode domain h = elim (Bool-cases (domain_re domain)) [
  | inl yes_ ↦ by_mode mode (λ a. h (yes_, a)) yes_
  | inr no_ ↦ rw no_ refl
]
  where
    by_mode :
        (m : NetworkMode)
        → ¬ Allowed m domain
        → domain_re domain ≡ true
        → allows_domain (new_evaluator domain_re m) m domain ≡ false
    by_mode none_mode k e = ground arith
    by_mode full_mode k e = absurd (k tt)
    by_mode (allowlist_mode entries) k e = ground arith

module _ (codec : Codec) (laws : IsMessages codec) where
  open codec use {Message, Query, Failure, read, emit, queries, id}

  view-add_queries :
      (m : Message) (qs : List Query)
      → laws.view (add_queries codec m qs)
        ≡ record (laws.view m) { queries = (laws.view m).queries ++ qs }
  unfolding add_queries
  view-add_queries m [] = rw (append-nil (laws.view m).queries) refl
  view-add_queries m (q ∷ qs) =
      rw
        (
          view-add_queries (codec.add_query m q) qs,
          laws.view-add_query m q,
          append_assoc (laws.view m).queries (q ∷ []) qs,
        )
        refl

  view-denied_response :
      (request : Message)
      → laws.view (denied_response codec request) ≡ record {
        id = id request;
        is_response = true;
        is_op_query = true;
        is_nx_domain = true;
        queries = queries request;
        answers = [];
      }
  unfolding denied_response
  view-denied_response request =
      let built = codec.set_response (codec.set_id codec.new_message (id request)) in
      rw
        (
          view-add_queries (codec.set_nx_domain (codec.set_op_query built)) (queries request),
          laws.view-set_nx_domain (codec.set_op_query built),
          laws.view-set_op_query built,
          laws.view-set_response (codec.set_id codec.new_message (id request)),
          laws.view-set_id codec.new_message (id request),
          laws.new_queries,
          laws.new_answers,
        )
        refl

  -- A well-formed question whose name the regular expression refuses or the mode does not allow is
  -- answered by a message with the question's identifier and its queries that says that there is no
  -- such domain and holds no answer; no address is reported and nothing is sent upstream. It is
  -- assumed that the message library's setters set their fields.
  pub handle_query-denied :
      {S : Type 0} (domain_re : Text → Bool)
      (forward_udp : Text → List ℕ → S → Result Failure (List ℕ) × S) (proxy : DnsAllowlistProxy)
      (packet : List ℕ) (s : S) (request : Message)
      → read packet ≡ ok request
      → ¬ (
          (domain_re (query_domain codec request) ≡ true)
          × Allowed proxy.mode (query_domain codec request))
      → (response : Message) × (laws.view response ≡ record {
        id = id request;
        is_response = true;
        is_op_query = true;
        is_nx_domain = true;
        queries = queries request;
        answers = [];
      })
        × (handle_query codec domain_re forward_udp proxy packet s
            ≡ ((do bytes ← emit response; ok (bytes, [])), s))
  unfolding handle_query answer_request deny
  handle_query-denied domain_re forward_udp proxy packet s request e refused = (
    denied_response codec request,
    view-denied_response request,
    rw e (rw (allows_domain-denied domain_re proxy.mode (query_domain codec request) refused) refl),
  )
