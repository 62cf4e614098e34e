-- ===== src/Server/BackendFactory.antt =====
-- crates/hyperbox-server/src/backend_factory.rs: which backend a server runs on. The environment and
-- the probes of the host are a parameter.
pub mod Apple
pub mod Selection
pub mod Justified
use hyperbox.Prelude.{
  ℕ, Bool, true, false, not, ◌&&◌, Option, none, some, List, [], ◌∷◌, ◌++◌, map, Text, codes, leb,
  length, nat_beq, text_eq, ◌==◌, is_empty, is_whitespace, to_ascii_lowercase, trim, if◌then◌else◌,
  Assoc,
}
use hyperbox.Core.Error.{Result, ok, err, HyperboxError, invalid_config, execution_failed}
use hyperbox.Server.Environment.{Backend}
use hyperbox.Firecracker.{FirecrackerBackendConfig}

-- `Auto`, `Local`, `Firecracker`, `Apple`, `Unavailable`
pub data BackendKind : Type 0 where
  auto local firecracker apple unavailable : BackendKind

unfoldable pub as_str : BackendKind → Text
as_str auto = codes "auto"
as_str local = codes "local"
as_str firecracker = codes "firecracker"
as_str apple = codes "apple"
as_str unavailable = codes "unavailable"

-- `AppleRuntimeKind`
pub data AppleRuntimeKind : Type 0 where
  containerization virtualization : AppleRuntimeKind

pub record LinuxCapabilities : Type 0 where
  pub has_kvm_device : Bool
  pub kvm_read_write : Bool
  pub kvm_modules_loaded : Bool
  pub has_nft : Bool
  pub has_ipset : Bool

unfoldable pub supports_firecracker : LinuxCapabilities → Bool
supports_firecracker caps = caps.has_kvm_device && (caps.kvm_read_write && caps.kvm_modules_loaded)

pub record MacOsCapabilities : Type 0 where
  pub supports_virtualization_framework : Bool
  pub supports_containerization_framework : Bool

-- The environment variables, the constant `OS`, the probes, and whether a command runs with success.
pub record Surroundings : Type 0 where
  pub os : Text
  pub variable : Text → Option Text
  pub linux : LinuxCapabilities
  pub macos : MacOsCapabilities
  pub current_exe : Option Text
  pub succeeds : List Text → Bool
  pub temp_dir : Text
  pub join : Text → Text → Text

-- The backend that is built, with what it is built from.
pub data Built : Type 0 where
  local_backend : Built
  firecracker_backend : FirecrackerBackendConfig → Built
  apple_backend : Text → Text → Option (List Text) → AppleRuntimeKind → Built
  unavailable_backend : Text → Built

pub record BackendSelection : Type 0 where
  pub requested : BackendKind
  pub selected : BackendKind
  pub reason : Text
  pub apple_runtime : Option AppleRuntimeKind
  pub apple_helper_command : Option (List Text)
  pub backend : Built

-- `UnavailableBackend`, with the default methods of the trait.
unfoldable pub refusing : {S : Type 0} → Text → Backend S
refusing reason =
    let e = invalid_config reason in
    record {
      validate_config = λ s config. err e;
      create = λ s config. (err e, s);
      exec = λ s id req. (err e, s);
      read_file = λ s id path. (err e, s);
      write_file = λ s id payload. (err e, s);
      destroy = λ s id. (err e, s);
      inspect = λ s id. (err e, s);
      create_snapshot = λ s id snapshot_id path.
          (err (execution_failed (codes "snapshot create is not supported by this backend")), s);
      restore_snapshot = λ s id path config.
          (err (execution_failed (codes "snapshot restore is not supported by this backend")), s);
    }

abbrev pub or_default : Option Text → Text → Text
or_default none d = d
or_default (some v) d = v

-- A selection without a helper.
abbrev pub plain : BackendKind → BackendKind → Text → Built → BackendSelection
plain requested selected reason backend = record {
  requested = requested;
  selected = selected;
  reason = reason;
  apple_runtime = none;
  apple_helper_command = none;
  backend = backend;
}

-- A colon becomes a dash.
abbrev pub dash : ℕ → ℕ
dash c = if nat_beq c b':' then b'-' else c

abbrev pub templates : List Text
templates =
    codes "python:3.11"
    ∷ codes "python:3.12"
    ∷ codes "node:18"
    ∷ codes "node:20"
    ∷ codes "golang:1.22"
    ∷ codes "rust:1.75"
    ∷ codes "ubuntu:22.04"
    ∷ []

-- `v != "0"` and not `false` in any case
abbrev pub is_on : Bool → Option Text → Bool
is_on default none = default
is_on default (some v) = not (v == codes "0") && not (to_ascii_lowercase v == codes "false")

-- The `match` of `from_env`.
unfoldable pub kind_of : Text → BackendKind
kind_of v =
    if v == codes "local"
    then local
    else if v == codes "firecracker"
    then firecracker
    else if v == codes "apple"
    then apple
    else auto

module _ (host : Surroundings) where
  unfoldable pub from_env : BackendKind
  from_env = kind_of (or_default (host.variable (codes "HYPERBOX_BACKEND")) (codes "auto"))

  unfoldable pub build_firecracker_backend : Built
  build_firecracker_backend =
      let root_template_dir =
        or_default (host.variable (codes "HYPERBOX_FIRECRACKER_TEMPLATE_DIR"))
          (codes "templates") in
      firecracker_backend (record {
        work_dir =
            or_default (host.variable (codes "HYPERBOX_FIRECRACKER_WORKDIR"))
              (host.join host.temp_dir (codes "hyperbox-firecracker"));
        firecracker_path = codes "firecracker";
        kernel_image =
            or_default (host.variable (codes "HYPERBOX_FIRECRACKER_KERNEL"))
              (codes "/var/lib/hyperbox/vmlinux");
        agent_endpoint =
            or_default (host.variable (codes "HYPERBOX_AGENT_ENDPOINT"))
              (codes "http://127.0.0.1:60061");
        agent_root =
            or_default (host.variable (codes "HYPERBOX_AGENT_ROOT"))
              (host.join host.temp_dir (codes "hyperbox-agentd"));
        auto_start_agent = is_on true (host.variable (codes "HYPERBOX_AGENT_AUTOSTART"));
        rootfs_by_template =
            map
              (λ (template : Text). (
                template,
                host.join (host.join root_template_dir (map dash template)) (codes "rootfs.ext4"),
              ))
              templates;
        host_iface = or_default (host.variable (codes "HYPERBOX_HOST_IFACE")) (codes "eth0");
        network_dry_run = is_on false (host.variable (codes "HYPERBOX_NETWORK_DRY_RUN"));
      })
