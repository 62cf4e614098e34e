-- ===== src/Tests/LocalBackend.antt =====
-- Runs of the local backend of crates/hyperbox-server.
use hyperbox.Prelude.{
  lookup, if◌then◌else◌, nat_beq, nat_eq, ℕ, suc, ◌+◌, ◌≤◌, true, none, List, [], ◌∷◌, ◌++◌, Text,
  codes, ◌≡◌, refl, arith,
}
use hyperbox.Core.Error.{ok, err, execution_failed, sandbox_not_found}
use hyperbox.Core.Config.{default_config}
use hyperbox.Server.Environment.{Backend}
use hyperbox.Server.Monad.{◌>>=◌}
use hyperbox.Server.Pool.{
  Pool, fill, fill_loop, create_lease, push_back, checkout, take_front, pop_front, hold, set_insert,
}
use hyperbox.Server.Pool.Partition.{new, checked_out, count}
use hyperbox.Server.LocalBackend.{
  Host, Local, validate_relative_path, split_slash, local_backend, create, validate_config, on_host,
  draw_info, prepare_dir, put_record, destroy,
}
use hyperbox.Server.LocalBackend.Forgetting.{destroy_lem}
use hyperbox.Server.LocalBackend.Fresh.{IsInjective, local_pool-once}
use hyperbox.Server.LocalBackend.Paths.{walk, Below, validate_relative_path-Below}

abbrev script : Text
script = codes "./work//run..sh"

abbrev here : List Text
here = codes "sandbox" ∷ []

script_accepted : validate_relative_path script ≡ ok script
unfolding validate_relative_path
script_accepted = refl

validate_relative_path-Below_example :
    (script ≡ script) × Below here (walk here (split_slash [] script))
validate_relative_path-Below_example =
    validate_relative_path-Below script script here script_accepted

-- A host on which every call succeeds and which counts its calls.
abbrev host : Host ℕ
host = record {
  create_dir_all = λ path f. (ok tt, suc f);
  remove_dir_all = λ path f. (ok tt, suc f);
  remove_file = λ path f. (ok tt, suc f);
  read = λ path f. (ok [], suc f);
  write = λ path bytes f. (ok tt, suc f);
  run = λ program args dir env seconds f. (err (execution_failed []), suc f);
  archive_workdir = λ dir path f. (ok tt, suc f);
  unpack_workdir = λ path dir f. (ok tt, suc f);
  exists = λ f path. true;
  current_dir = λ f. ok (codes "/srv");
  join = λ dir path. dir ++ (b'/' ∷ path);
  parent = λ path. none;
  network_json = λ network. [];
  allow_unenforced = none;
  uuid = λ n. n + 100;
  show_uuid = λ id. codes "id";
  clock = λ n. n;
}

abbrev backend : Backend (Local ℕ)
backend = local_backend host (codes "/tmp/hyperbox")

abbrev empty : Local ℕ
empty = record { state = []; files = 0; draws = 0 }

abbrev empty_pool : Pool (Local ℕ)
empty_pool = record { backend_state = empty; available = []; in_use = [] }

host-IsInjective : IsInjective host (codes "/tmp/hyperbox")
host-IsInjective i j e = omega arith

abbrev used_pool : Pool (Local ℕ)
used_pool = (checkout backend default_config 2 empty_pool).1

used_pool_lem : (used_pool.available ≡ 101 ∷ []) × (used_pool.in_use ≡ 100 ∷ [])
unfolding checkout fill fill_loop create_lease push_back ◌>>=◌ take_front pop_front hold set_insert
    local_backend create validate_config on_host draw_info prepare_dir put_record
used_pool_lem = (refl, refl)

local_pool-once_example : count 100 used_pool.available + count 100 used_pool.in_use ≤ 1
local_pool-once_example =
    local_pool-once host (codes "/tmp/hyperbox") default_config 2 used_pool 100 host-IsInjective
      (checked_out empty_pool (new empty))

-- The state after the pool has made its two sandboxes.
abbrev two_sandboxes : Local ℕ
two_sandboxes = used_pool.backend_state

destroy_lem_example :
    (lookup 101 (destroy host (codes "/tmp/hyperbox") 100 two_sandboxes).1.state
      ≡ (if nat_beq 100 101 then none else lookup 101 two_sandboxes.state))
    × ((destroy host
          (codes "/tmp/hyperbox")
          100
          (destroy host (codes "/tmp/hyperbox") 100 two_sandboxes).1).0
        ≡ err (sandbox_not_found (codes "id")))
destroy_lem_example = destroy_lem host (codes "/tmp/hyperbox") 100 101 two_sandboxes
