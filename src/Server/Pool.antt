-- ===== src/Server/Pool.antt =====
-- `WarmPoolManager` of crates/hyperbox-server/src/pool.rs: sandboxes made ahead of their use. The
-- refill task is a sequence of `fill` calls; each method runs without interleaving.
pub mod Partition
pub mod Filling
use hyperbox.Prelude.{
  ℕ, zero, suc, ◌+◌, ◌-◌, Bool, true, false, Option, none, some, List, [], ◌∷◌, ◌++◌, length, leb,
  nat_beq, is_empty, if◌then◌else◌, contains, nat_eq,
}
use hyperbox.Core.Error.{Result, ok, err, HyperboxError}
use hyperbox.Core.Config.{SandboxConfig, SandboxId, SandboxLease}
use hyperbox.Server.Monad.{M, ◌>>=◌, ◌>>◌, pure, gets}
use hyperbox.Server.Environment.{Backend}

-- The queue and the set behind the two locks, and the backend's own state.
pub record Pool (S : Type 0) : Type 0 where
  pub backend_state : S
  pub available : List SandboxId
  pub in_use : List SandboxId

-- `HashSet::insert` and `HashSet::remove`
unfoldable pub set_insert : SandboxId → List SandboxId → List SandboxId
set_insert id s = if contains s id then s else id ∷ s

unfoldable pub set_remove : SandboxId → List SandboxId → List SandboxId
set_remove id [] = []
set_remove id (j ∷ s) = let rest = set_remove id s in if nat_beq j id then rest else j ∷ rest

pub record PoolStats : Type 0 where
  pub available : ℕ
  pub in_use : ℕ
  pub target : ℕ

module _ {S : Type 0} where
  unfoldable pub push_back : SandboxId → M (Pool S) (Unit {0})
  push_back id p = (ok tt, record p { available = p.available ++ (id ∷ []) })

  unfoldable pub hold : SandboxId → M (Pool S) (Unit {0})
  hold id p = (ok tt, record p { in_use = set_insert id p.in_use })

  abbrev pub pop_queue : List SandboxId → M (Pool S) (Option SandboxId)
  pop_queue [] p = (ok none, p)
  pop_queue (id ∷ rest) p = (ok (some id), record p { available = rest })

  unfoldable pub pop_front : M (Pool S) (Option SandboxId)
  pop_front p = pop_queue p.available p

module _ {S : Type 0} (backend : Backend S) (config : SandboxConfig) (target_size : ℕ) where
  unfoldable pub create_lease : M (Pool S) SandboxLease
  create_lease p =
      let (r, s) = backend.create p.backend_state config in (r, record p { backend_state = s })

  -- The loop on fuel: a turn that does not break adds a sandbox.
  unfoldable pub fill_loop : ℕ → M (Pool S) (Unit {0})
  fill_loop zero = pure tt
  fill_loop (suc fuel) = do
    current ← gets (λ p. length p.available)
    if leb target_size current
        then pure tt
        else (do lease ← create_lease; push_back lease.id; fill_loop fuel)

  unfoldable pub fill : M (Pool S) (Unit {0})
  fill = fill_loop (suc target_size)

  -- `none` is the panic of `expect`.
  unfoldable pub take_front : Option SandboxId → M (Pool S) (Option SandboxId)
  take_front none = pure none
  take_front (some id) = hold id >> pure (some id)

  unfoldable pub checkout : M (Pool S) (Option SandboxId)
  checkout = do
    empty ← gets (λ p. is_empty p.available)
    if empty then fill else pure tt
    front ← pop_front
    take_front front

  unfoldable pub restore_unless : M (Pool S) SandboxId → Option SandboxId → M (Pool S) SandboxId
  restore_unless restore (some id) = hold id >> pure id
  restore_unless restore none = do restored ← restore; hold restored; pure restored

  unfoldable pub checkout_or_restore : M (Pool S) SandboxId → M (Pool S) SandboxId
  checkout_or_restore restore = do front ← pop_front; restore_unless restore front

  unfoldable pub release : SandboxId → M (Pool S) (Unit {0})
  release id p =
      if contains p.in_use id
      then push_back id (record p { in_use = set_remove id p.in_use })
      else (ok tt, p)

  unfoldable pub stats : Pool S → PoolStats
  stats p = record {
    available = length p.available;
    in_use = length p.in_use;
    target = target_size;
  }
