-- ===== src/Server/Pool/Partition.antt =====
-- Where the sandboxes of the pool of crates/hyperbox-server/src/pool.rs stand: in the queue or in
-- the set.
use hyperbox.Prelude.{
  ℕ, zero, suc, ◌+◌, ◌≤◌, ◌<◌, Bool, true, false, List, [], ◌∷◌, ◌++◌, contains, nat_beq, nat_eq,
  if◌then◌else◌, ◌≡◌, refl, arith, Bool-cases, inl, inr, ◌⊎◌,
}
use hyperbox.Core.Error.{Result, ok, err, HyperboxError}
use hyperbox.Core.Config.{SandboxConfig, SandboxId, SandboxLease}
use hyperbox.Server.Monad.{
  M, ◌>>=◌, ◌>>◌, continue, Preserves, preserves_rules, Preserves-bind, Preserves-if,
  Preserves-gets, Preserves-pure,
}
use hyperbox.Server.Environment.{Backend}
use hyperbox.Server.Pool.{
  Pool, set_insert, set_remove, push_back, pop_queue, pop_front, hold, create_lease, fill_loop,
  fill, take_front, checkout, release,
}

-- How often an identifier stands in a list.
abbrev pub count : SandboxId → List SandboxId → ℕ
count i [] = 0
count i (j ∷ l) = if nat_beq j i then suc (count i l) else count i l

count-append : (i : SandboxId) (l m : List SandboxId) → count i (l ++ m) ≡ count i l + count i m
count-append i [] m = omega arith
count-append i (j ∷ l) m = ground (arith, count-append i l m)

count-set_remove :
    (i id : SandboxId) (l : List SandboxId)
    → count i (set_remove id l) ≡ (if nat_beq id i then 0 else count i l)
unfolding set_remove
count-set_remove i id [] = ground arith
count-set_remove i id (j ∷ l) = ground (arith, count-set_remove i id l)

count-contains : (id : SandboxId) (l : List SandboxId) → contains l id ≡ true → 1 ≤ count id l
count-contains id [] h = cc
count-contains id (j ∷ l) h = ground (arith, count-contains id l)

count-set_insert :
    (i id : SandboxId) (l : List SandboxId)
    → count i (set_insert id l) ≤ (if nat_beq id i then suc (count i l) else count i l)
unfolding set_insert
count-set_insert i id l = elim (Bool-cases (contains l id)) [
  | inl t ↦ rw t (ground arith)
  | inr f ↦ rw f (ground arith)
]

-- What the pool relies on in a backend: `create` draws an identifier that it never drew before.
pub record Issues {S : Type 0} (backend : Backend S) (config : SandboxConfig) : Type 0 where
  pub issued : S → SandboxId → Bool
  pub fresh :
      (s t : S) (lease : SandboxLease)
      → backend.create s config ≡ (ok lease, t)
      → (issued s lease.id ≡ false) × (issued t lease.id ≡ true)
  pub stays :
      (s t : S) (r : Result HyperboxError SandboxLease) (id : SandboxId)
      → backend.create s config ≡ (r, t)
      → issued s id ≡ true
      → issued t id ≡ true

module _ {S : Type 0} (backend : Backend S) (config : SandboxConfig)
    (issues : Issues backend config) where
  -- In the queue and the set together, a sandbox stands once at most, and only if it was issued.
  pub record IsPartitioned (p : Pool S) : Type 0 where
    pub once :
        (id : SandboxId)
        → count id p.available + count id p.in_use
          ≤ (if issues.issued p.backend_state id then 1 else 0)

  -- A sandbox that was taken from the queue or made, and is in neither place.
  pub record IsLoose (id : SandboxId) (p : Pool S) : Type 0 where
    pub partitioned : IsPartitioned p
    pub apart :
        count id p.available + count id p.in_use
        < (if issues.issued p.backend_state id then 1 else 0)

  push_back-IsPartitioned :
      (id : SandboxId) (p : Pool S) → IsLoose id p → IsPartitioned (push_back id p).1
  unfolding push_back
  push_back-IsPartitioned id p loose = record {
    once = λ i.
        ground (arith, count-append i p.available (id ∷ []), loose.partitioned.once i, loose.apart);
  }

  hold-IsPartitioned : (id : SandboxId) (p : Pool S) → IsLoose id p → IsPartitioned (hold id p).1
  unfolding hold
  hold-IsPartitioned id p loose = record {
    once =
        λ i. ground (arith, count-set_insert i id p.in_use, loose.partitioned.once i, loose.apart);
  }

  -- Creation changes what is issued.
  module _ (p : Pool S) (s : S) (part : IsPartitioned p) where
    abbrev created : Pool S
    created = record p { backend_state = s }

    stays-IsPartitioned :
        (r : Result HyperboxError SandboxLease)
        → backend.create p.backend_state config ≡ (r, s)
        → IsPartitioned created
    stays-IsPartitioned r e = record {
      once = λ i. ground (arith, part.once i, issues.stays p.backend_state s r i e);
    }

    created-IsLoose :
        (lease : SandboxLease)
        → backend.create p.backend_state config ≡ (ok lease, s)
        → IsLoose lease.id created
    created-IsLoose lease e =
        let new = issues.fresh p.backend_state s lease e in
        record {
          partitioned = stays-IsPartitioned (ok lease) e;
          apart = ground (arith, new.0, new.1, part.once lease.id);
        }

  module _ (target_size : ℕ) where
    add_lease-IsPartitioned :
        (n : M (Pool S) (Unit {0}))
        → Preserves IsPartitioned n
        → Preserves IsPartitioned
            (create_lease backend config target_size >>= (λ lease. push_back lease.id >> n))
    unfolding create_lease ◌>>=◌ push_back
    add_lease-IsPartitioned n kept = record {
      holds_at = λ p part. after_create p part (backend.create p.backend_state config) refl;
    }
      where
        after_create :
            (p : Pool S)
            → IsPartitioned p
            → (r : Result HyperboxError SandboxLease × S)
            → backend.create p.backend_state config ≡ r
            → IsPartitioned
                (continue r.0
                  (λ lease. push_back lease.id >> n)
                  (record p { backend_state = r.1 })).1
        after_create p part (ok lease, s) e =
            kept.holds_at _ (push_back-IsPartitioned lease.id _ (created-IsLoose p s part lease e))
        after_create p part (err x, s) e = stays-IsPartitioned p s part (err x) e

    fill_loop-IsPartitioned :
        (fuel : ℕ) → Preserves IsPartitioned (fill_loop backend config target_size fuel)
    unfolding fill_loop
    fill_loop-IsPartitioned zero = search preserves_rules
    fill_loop-IsPartitioned (suc fuel) =
        let more = add_lease-IsPartitioned _ (fill_loop-IsPartitioned fuel) in
        Preserves-bind _ _ (Preserves-gets _)
          λ _. Preserves-if _ _ _ (λ _. Preserves-pure tt) (λ _. more)

    pub fill-IsPartitioned : Preserves IsPartitioned (fill backend config target_size)
    unfolding fill
    fill-IsPartitioned = fill_loop-IsPartitioned (suc target_size)

    take_queue-IsPartitioned :
        (l : List SandboxId) (p : Pool S)
        → p.available ≡ l
        → IsPartitioned p
        → IsPartitioned ((pop_queue l >>= take_front backend config target_size) p).1
    unfolding ◌>>=◌ take_front hold
    take_queue-IsPartitioned [] p e part = part
    take_queue-IsPartitioned (id ∷ l) p e part = hold-IsPartitioned id _ (record {
      partitioned = record { once = λ i. ground (arith, part.once i, e) };
      apart = ground (arith, part.once id, e);
    })

    take-IsPartitioned :
        Preserves IsPartitioned (pop_front >>= take_front backend config target_size)
    unfolding pop_front ◌>>=◌
    take-IsPartitioned = record { holds_at = λ p. take_queue-IsPartitioned p.available p refl }

    pub checkout-IsPartitioned : Preserves IsPartitioned (checkout backend config target_size)
    unfolding checkout
    checkout-IsPartitioned = search (preserves_rules, fill-IsPartitioned, take-IsPartitioned)

    pub release-IsPartitioned :
        (id : SandboxId) → Preserves IsPartitioned (release backend config target_size id)
    unfolding release
    release-IsPartitioned id = record {
      holds_at = λ p part. by_test p part (Bool-cases (contains p.in_use id));
    }
      where
        by_test :
            (p : Pool S)
            → IsPartitioned p
            → (contains p.in_use id ≡ true) ⊎ (contains p.in_use id ≡ false)
            → IsPartitioned (release backend config target_size id p).1
        by_test p part (inr f) = rw f part
        by_test p part (inl t) =
            let back : Pool S = record p { in_use = set_remove id p.in_use } in
            let held = count-contains id p.in_use t in
            rw t (
              push_back-IsPartitioned id back (record {
                partitioned = record {
                  once = λ i. ground (arith, part.once i, count-set_remove i id p.in_use);
                };
                apart = ground (arith, part.once id, count-set_remove id id p.in_use, held);
              }))

  -- What the methods do to a pool, one call after another, and calls that fail among them.
  pub data Reachable (target_size : ℕ) : Pool S → Type 0 where
    new :
        (s : S) → Reachable target_size (record { backend_state = s; available = []; in_use = [] })
    filled :
        (p : Pool S)
        → Reachable target_size p
        → Reachable target_size (fill backend config target_size p).1
    checked_out :
        (p : Pool S)
        → Reachable target_size p
        → Reachable target_size (checkout backend config target_size p).1
    released :
        (p : Pool S) (id : SandboxId)
        → Reachable target_size p
        → Reachable target_size (release backend config target_size id p).1

  Reachable-IsPartitioned :
      (target_size : ℕ) (p : Pool S) → Reachable target_size p → IsPartitioned p
  Reachable-IsPartitioned n _ (new s) = record { once = λ i. ground arith }
  Reachable-IsPartitioned n _ (filled p r) =
      (fill-IsPartitioned n).holds_at p (Reachable-IsPartitioned n p r)
  Reachable-IsPartitioned n _ (checked_out p r) =
      (checkout-IsPartitioned n).holds_at p (Reachable-IsPartitioned n p r)
  Reachable-IsPartitioned n _ (released p id r) =
      (release-IsPartitioned n id).holds_at p (Reachable-IsPartitioned n p r)

  -- In a pool reached from a new one by fills, checkouts and releases, over a backend that never
  -- issues an identifier twice, every sandbox stands once at most in the queue and the set together:
  -- none is handed out twice or handed out while it is in the queue.
  pub Reachable-once :
      (target_size : ℕ) (p : Pool S) (id : SandboxId)
      → Reachable target_size p
      → count id p.available + count id p.in_use ≤ 1
  Reachable-once n p id r = ground (arith, (Reachable-IsPartitioned n p r).once id)
