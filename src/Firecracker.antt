-- ===== src/Firecracker.antt =====
-- crates/hyperbox-firecracker: the backend that runs each sandbox in a virtual machine. The host
-- (files, processes, sockets, the resolver, the guest agent) is a parameter with the state `F`.
-- Paths are those of Unix.
pub mod Api
pub mod Vm
pub mod Workspace
pub mod Allowlist
pub mod Setup
pub mod Backend
pub mod Table
pub mod Methods
pub mod Calls
pub mod Enforcement
pub mod Waiting
pub mod Forgetting
use hyperbox.Prelude.{ℕ, zero, Bool, true, false, Option, List, [], ◌∷◌, ◌++◌, Text, codes, Assoc}
use hyperbox.Core.Error.{Result, ok, err, HyperboxError, execution_failed, io}
use hyperbox.Core.Config.{SandboxConfig, SandboxId, SandboxInfo, ExecOutcome, Time}
use hyperbox.Core.Allowlist.{AllowlistEntry}
use hyperbox.Network.Firewall.{VmNetworkSpec, CommandSpec}
use hyperbox.Server.Monad.{Action, M}

-- `serde_json::Value` as far as the bodies of the API use it.
mutual
  pub data Json : Type 0 where
    string : Text → Json
    number : ℕ → Json
    bool : Bool → Json
    object : Fields → Json

  pub data Fields : Type 0 where
    no_field : Fields
    field : Text → Json → Fields → Fields

pub record ApiResponse : Type 0 where
  pub status_code : ℕ
  pub body : Text

pub record IoError : Type 0 where
  pub is_not_found : Bool
  pub message : Text

pub data FileType : Type 0 where
  symlink regular directory other : FileType

-- `exchange` connects to a socket, sends a request, and reads the response to its end; `run` is
-- `ShellExecutor::run`; `connect` and the calls after it are the client of the guest agent.
pub record Host (F : Type 0) : Type 0 where
  pub create_dir_all : Text → F → Result IoError (Unit {0}) × F
  pub remove_dir_all : Text → F → Result IoError (Unit {0}) × F
  pub remove_file : Text → F → Result IoError (Unit {0}) × F
  pub symlink_metadata : F → Text → Result IoError FileType
  pub symlink : Text → Text → F → Result IoError (Unit {0}) × F
  pub canonicalize : F → Text → Result IoError Text
  pub is_dir : F → Text → Result IoError Bool
  pub exists : F → Text → Bool
  pub current_dir : F → Result IoError Text
  pub join : Text → Text → Text
  pub parent : Text → Option Text
  pub spawn : Text → List Text → F → Result Text ℕ × F
  pub kill : ℕ → F → Result Text (Unit {0}) × F
  pub exchange : Text → Text → F → Result Text (List ℕ) × F
  pub utf8_lossy : List ℕ → Text
  pub json_text : Json → Text
  -- the milliseconds of `Instant::now()`, and a sleep of as many
  pub now : F → ℕ
  pub sleep : ℕ → F → F
  pub run : CommandSpec → F → Result Text (Unit {0}) × F
  pub lookup_host : Text → F → Result Text (List Text) × F
  -- the order of IP addresses
  pub ip_ltb : Text → Text → Bool
  pub connect : Text → F → Result Text (Unit {0}) × F
  pub parse_socket_addr : Text → Result Text Text
  pub serve_agent : Text → Text → F → F
  pub agent_exec : Text → List Text → ℕ → F → Result Text ExecOutcome × F
  pub agent_read_file : Text → Text → F → Result Text (List ℕ) × F
  pub agent_write_file : Text → Text → List ℕ → F → Result Text (Unit {0}) × F
  pub archive_workspace : Text → Text → F → Result HyperboxError (Unit {0}) × F
  pub unpack_workspace : Text → Text → F → Result HyperboxError (Unit {0}) × F
  pub uuid : ℕ → ℕ
  pub show_uuid : ℕ → Text
  pub clock : ℕ → Time

pub record FirecrackerBackendConfig : Type 0 where
  pub work_dir : Text
  pub firecracker_path : Text
  pub kernel_image : Text
  pub agent_endpoint : Text
  pub agent_root : Text
  pub auto_start_agent : Bool
  pub rootfs_by_template : Assoc Text Text
  pub host_iface : Text
  pub network_dry_run : Bool

pub record FirecrackerVmConfig : Type 0 where
  pub vm_id : Text
  pub socket_path : Text
  pub kernel_image_path : Text
  pub rootfs_path : Text
  pub log_path : Text
  pub memory_mb : ℕ
  pub vcpu_count : ℕ
  pub boot_args : Text
  pub tap_name : Option Text
  pub vsock_guest_cid : ℕ
  pub vsock_uds_path : Text

-- A running machine, with the number of its process.
pub record RunningVm : Type 0 where
  pub config : FirecrackerVmConfig
  pub child : ℕ

pub record AgentWorkspaceBinding : Type 0 where
  pub path : Text
  pub managed : Bool
  pub linked_workspace : Bool

-- The task that keeps an allowlist's addresses up to date is the machine and the entries that it
-- works on.
pub record FirecrackerSandbox : Type 0 where
  pub config : SandboxConfig
  pub info : SandboxInfo
  pub vm : RunningVm
  pub network_spec : Option VmNetworkSpec
  pub allowlist_sync_task : Option (Text × List AllowlistEntry)
  pub agent_workspace : AgentWorkspaceBinding

-- The table of sandboxes, whether the agent was started, the host's state, and the count of the
-- identifiers drawn.
pub record Firecracker (F : Type 0) : Type 0 where
  pub sandboxes : Assoc SandboxId FirecrackerSandbox
  pub agent_started : Bool
  pub files : F
  pub draws : ℕ

-- `FirecrackerBackend::new`
abbrev pub new_backend : {F : Type 0} → F → Firecracker F
new_backend f = record { sandboxes = []; agent_started = false; files = f; draws = zero }

-- A call of the host, and the same where the caller turns the error into one of its own.
unfoldable pub on_host : {F E A : Type 0} → (F → Result E A × F) → Action E (Firecracker F) A
on_host call w = let (r, f) = call w.files in (r, record w { files = f })

abbrev pub with_err : {E A : Type 0} → (E → HyperboxError) → Result E A → Result HyperboxError A
with_err f (ok a) = ok a
with_err f (err e) = err (f e)

unfoldable pub or_fail : {W E A : Type 0} → (E → HyperboxError) → Action E W A → M W A
or_fail f m w = let (r, v) = m w in (with_err f r, v)

-- `?` on an error of the file system
abbrev pub io_error : IoError → HyperboxError
io_error e = io e.message

-- `ExecutionFailed(format!("..: {e}"))`
abbrev pub failed : Text → Text → HyperboxError
failed doing e = execution_failed (doing ++ (codes ": " ++ e))

-- `sleep(Duration::from_millis(ms))`
unfoldable pub pause : {F E : Type 0} → Host F → ℕ → Action E (Firecracker F) (Unit {0})
pause host ms w = (ok tt, record w { files = host.sleep ms w.files })
