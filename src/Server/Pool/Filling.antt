-- ===== src/Server/Pool/Filling.antt =====
-- The refill of the pool in crates/hyperbox-server/src/pool.rs, and the checkout that relies on it.
use hyperbox.Prelude.{
  ℕ, zero, suc, ◌+◌, ◌<◌, Bool, true, false, Option, none, List, [], ◌∷◌, ◌++◌, length,
  length-append, leb, is_empty, if◌then◌else◌, ◌≡◌, ◌≢◌, refl, ap, arith,
}
use mathlib.Core.Path.{subst}
use hyperbox.Core.Error.{Result, ok, err, HyperboxError}
use hyperbox.Core.Config.{SandboxConfig, SandboxId, SandboxLease}
use hyperbox.Server.Monad.{M, ◌>>=◌, ◌>>◌, pure, continue, bind-Returned}
use hyperbox.Server.Environment.{Backend}
use hyperbox.Server.Pool.{
  Pool, push_back, pop_queue, pop_front, hold, create_lease, fill_loop, fill, take_front, checkout,
}

some_left : (l : List SandboxId) → is_empty l ≡ false → 0 < length l
some_left [] e = cc
some_left (id ∷ l) e = omega arith

module _ {S : Type 0} (backend : Backend S) (config : SandboxConfig) (target_size : ℕ) where
  -- The number of sandboxes available is the target, or what it was if that was no less.
  abbrev HasFilled : Pool S → Pool S → Type 0
  HasFilled p q =
      length q.available
      ≡ (if leb target_size (length p.available) then length p.available else target_size)

  fill_loop-HasFilled :
      (fuel : ℕ) (p q : Pool S)
      → target_size < length p.available + fuel
      → fill_loop backend config target_size fuel p ≡ (ok tt, q)
      → HasFilled p q
  unfolding fill_loop ◌>>=◌ create_lease push_back
  fill_loop-HasFilled zero p q le h =
      let e : p ≡ q = ap (λ (x : Result HyperboxError (Unit {0}) × Pool S). x.1) h in
      subst (HasFilled p) e (ground arith)
  fill_loop-HasFilled (suc fuel) p q le h =
      by_test (leb target_size (length p.available)) refl (λ r. fill_loop-HasFilled fuel r q) h
    where
      Next : Type 0
      Next =
          (r : Pool S)
          → target_size < length r.available + fuel
          → fill_loop backend config target_size fuel r ≡ (ok tt, q)
          → HasFilled r q

      add_one : M (Pool S) (Unit {0})
      add_one = create_lease backend config target_size >>= λ lease.
          push_back lease.id >> fill_loop backend config target_size fuel

      by_create :
          (r : Result HyperboxError SandboxLease × S)
          → leb target_size (length p.available) ≡ false
          → Next
          → continue r.0
              (λ lease. push_back lease.id >> fill_loop backend config target_size fuel)
              (record p { backend_state = r.1 })
            ≡ (ok tt, q)
          → HasFilled p q
      by_create (ok lease, s) f next g =
          let pushed : Pool S = record p {
            backend_state = s;
            available = p.available ++ (lease.id ∷ []);
          } in
          let more = length-append p.available (lease.id ∷ []) in
          let filled = next pushed (omega (arith, more, le)) g in ground (arith, more, filled)
      by_create (err e, s) f next g = cc

      by_test :
          (b : Bool)
          → leb target_size (length p.available) ≡ b
          → Next
          → (if b then pure tt else add_one) p ≡ (ok tt, q)
          → HasFilled p q
      by_test true t next g =
          let e : p ≡ q = ap (λ (x : Result HyperboxError (Unit {0}) × Pool S). x.1) g in
          subst (HasFilled p) e (ground arith)
      by_test false f next g = by_create (backend.create p.backend_state config) f next g

  -- A fill that returns leaves exactly the target number of sandboxes available, or, if there were
  -- more, as many as there were.
  pub fill-length :
      (p q : Pool S)
      → fill backend config target_size p ≡ (ok tt, q)
      → length q.available
        ≡ (if leb target_size (length p.available) then length p.available else target_size)
  unfolding fill
  fill-length p q h = fill_loop-HasFilled (suc target_size) p q (omega arith) h

  -- With a target of at least one, a checkout that returns hands out a sandbox: the `expect` does
  -- not panic.
  pub checkout-some :
      (p q : Pool S) (o : Option SandboxId)
      → 0 < target_size
      → checkout backend config target_size p ≡ (ok o, q)
      → o ≢ none
  unfolding checkout ◌>>=◌ pop_front take_front hold
  checkout-some p q o some_target h =
      let filled =
        bind-Returned (if is_empty p.available then fill backend config target_size else pure tt) _
          p q o h in
      by_queue filled.state.available filled.state
        (filled_some (is_empty p.available) refl filled.state filled.first) filled.rest
    where
      filled_some :
          (b : Bool)
          → is_empty p.available ≡ b
          → (u : Pool S) → (if b then fill backend config target_size else pure tt) p ≡ (ok tt, u)
          → 0 < length u.available
      filled_some true e u g = ground (arith, fill-length p u g)
      filled_some false e u g =
          let same : p ≡ u = ap (λ (x : Result HyperboxError (Unit {0}) × Pool S). x.1) g in
          subst (λ (x : Pool S). 0 < length x.available) same (some_left p.available e)

      by_queue :
          (l : List SandboxId) (u : Pool S)
          → 0 < length l
          → (pop_queue l >>= take_front backend config target_size) u ≡ (ok o, q)
          → o ≢ none
      by_queue [] u most g e = absurd (ground arith)
      by_queue (id ∷ rest) u most g e = cc
