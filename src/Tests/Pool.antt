-- ===== src/Tests/Pool.antt =====
-- Runs of the warm pool over a backend that counts up.
use hyperbox.Prelude.{
  ℕ, suc, ◌+◌, ◌≤◌, Option, none, some, [], ◌∷◌, length, leb, ltb, ◌≡◌, ◌≢◌, refl, ap, arith,
  if◌then◌else◌,
}
use hyperbox.Core.Error.{Result, ok, err, HyperboxError, execution_failed}
use hyperbox.Core.Config.{SandboxId, SandboxLease, ready, default_config}
use hyperbox.Server.Monad.{◌>>=◌}
use hyperbox.Server.Environment.{Backend}
use hyperbox.Server.Pool.{
  Pool, fill, fill_loop, create_lease, push_back, checkout, release, take_front, pop_front, hold,
  set_insert,
}
use hyperbox.Server.Pool.Filling.{fill-length, checkout-some}
use hyperbox.Server.Pool.Partition.{Issues, new, checked_out, released, count, Reachable-once}

abbrev lease : ℕ → SandboxLease
lease n = record { id = n; info = record { id = n; template = []; state = ready; created_at = 0 } }

abbrev unused : {A : Type 0} → Result HyperboxError A
unused = err (execution_failed [])

abbrev counting : Backend ℕ
counting = record {
  validate_config = λ s c. ok tt;
  create = λ s c. (ok (lease s), suc s);
  exec = λ s id r. (unused, s);
  read_file = λ s id path. (unused, s);
  write_file = λ s id p. (unused, s);
  destroy = λ s id. (unused, s);
  inspect = λ s id. (unused, s);
  create_snapshot = λ s id i path. (unused, s);
  restore_snapshot = λ s i path c. (unused, s);
}

-- The identifiers below the count are issued.
counting-Issues : Issues counting default_config
counting-Issues = record {
  issued = λ s id. ltb id s;
  fresh = λ s t l e.
      let count_up : suc s ≡ t = ap (λ (r : Result HyperboxError SandboxLease × ℕ). r.1) e in
      let drawn : ok (lease s) ≡ ok l = ap (λ (r : Result HyperboxError SandboxLease × ℕ). r.0) e in
      let same : s ≡ l.id = ap id_of drawn in (ground arith, ground arith);
  stays = λ s t r id e h.
      let count_up : suc s ≡ t = ap (λ (r : Result HyperboxError SandboxLease × ℕ). r.1) e in
      ground arith;
}
  where
    id_of : Result HyperboxError SandboxLease → ℕ
    id_of (ok l) = l.id
    id_of (err e) = 0

abbrev new_pool : Pool ℕ
new_pool = record { backend_state = 10; available = []; in_use = [] }

abbrev filled_pool : Pool ℕ
filled_pool = record { backend_state = 12; available = 10 ∷ 11 ∷ []; in_use = [] }

fill_new : fill counting default_config 2 new_pool ≡ (ok tt, filled_pool)
unfolding fill fill_loop create_lease push_back ◌>>=◌
fill_new = refl

fill-length_example :
    length filled_pool.available
    ≡ (if leb 2 (length new_pool.available) then length new_pool.available else 2)
fill-length_example = fill-length counting default_config 2 new_pool filled_pool fill_new

abbrev used_pool : Pool ℕ
used_pool = record { backend_state = 12; available = 11 ∷ []; in_use = 10 ∷ [] }

checkout_new : checkout counting default_config 2 new_pool ≡ (ok (some 10), used_pool)
unfolding checkout fill fill_loop create_lease push_back ◌>>=◌ take_front pop_front hold set_insert
checkout_new = refl

abbrev handed_out : Option SandboxId
handed_out = some 10

checkout-some_example : handed_out ≢ none
checkout-some_example =
    checkout-some counting default_config 2 new_pool used_pool handed_out (omega arith) checkout_new

Reachable-once_example :
    count 10
        (release counting default_config 2 10
          (checkout counting default_config 2 new_pool).1).1.available
      + count 10
          (release counting default_config 2 10
            (checkout counting default_config 2 new_pool).1).1.in_use
    ≤ 1
Reachable-once_example =
    Reachable-once counting default_config counting-Issues 2
      (release counting default_config 2 10 (checkout counting default_config 2 new_pool).1).1 10
      (released (checkout counting default_config 2 new_pool).1 10 (checked_out new_pool (new 10)))
