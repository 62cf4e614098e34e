-- ===== src/Tests/BackendFactory.antt =====
-- A choice of a backend by crates/hyperbox-server/src/backend_factory.rs.
use hyperbox.Prelude.{
  split_whitespace, trim, to_ascii_lowercase, true, false, none, some, [], ◌∷◌, ◌++◌, codes,
  text_eq, ◌==◌, if◌then◌else◌, ◌≡◌, refl,
}
use hyperbox.Server.BackendFactory.{Surroundings, apple, kind_of, from_env}
use hyperbox.Server.BackendFactory.Apple.{
  choose_apple, apple_supported, apple_runtime_is_implemented_for_host, is_builtin_apple_helper,
  resolve_apple_helper_command, resolve_apple_runtime,
}
use hyperbox.Server.BackendFactory.Selection.{resolve_backend, auto_backend_selection}
use hyperbox.Server.BackendFactory.Justified.{Justified, built_kind, from_env-Justified}

-- A Mac with a helper of its own, and no variable but the one that names it.
abbrev host : Surroundings
host = record {
  os = codes "macos";
  variable =
      λ name. if name == codes "HYPERBOX_APPLE_HELPER" then some (codes " helper  --vm ") else none;
  linux = record {
    has_kvm_device = false;
    kvm_read_write = false;
    kvm_modules_loaded = false;
    has_nft = false;
    has_ipset = false;
  };
  macos = record {
    supports_virtualization_framework = true;
    supports_containerization_framework = false;
  };
  current_exe = none;
  succeeds = λ command. false;
  temp_dir = codes "/tmp";
  join = λ dir path. dir ++ (b'/' ∷ path);
}

helper_test : resolve_apple_helper_command host ≡ some (codes "helper" ∷ codes "--vm" ∷ [])
unfolding resolve_apple_helper_command split_whitespace trim
helper_test = refl

from_env-Justified_example :
    Justified host none (resolve_backend host (from_env host)).backend
    × (built_kind (resolve_backend host (from_env host)).backend
        ≡ (resolve_backend host (from_env host)).selected)
from_env-Justified_example = from_env-Justified host

selected_test : (resolve_backend host (from_env host)).selected ≡ apple
unfolding resolve_backend from_env kind_of auto_backend_selection choose_apple apple_supported
    resolve_apple_helper_command split_whitespace apple_runtime_is_implemented_for_host
    is_builtin_apple_helper resolve_apple_runtime trim to_ascii_lowercase
selected_test = refl
