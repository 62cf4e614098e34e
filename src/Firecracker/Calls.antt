-- ===== src/Firecracker/Calls.antt =====
-- The states that the methods of crates/hyperbox-firecracker/src/backend.rs lead to.
use hyperbox.Prelude.{List, Text}
use hyperbox.Core.Config.{SandboxConfig, SandboxId, ExecRequest, FilePayload}
use hyperbox.Core.Snapshot.{SnapshotId}
use hyperbox.Core.Allowlist.{AllowlistEntry}
use hyperbox.Firecracker.{Host, Firecracker, FirecrackerBackendConfig, new_backend}
use hyperbox.Firecracker.Backend.{
  create, exec, read_file, write_file, create_snapshot, destroy, restore_snapshot,
}
use hyperbox.Firecracker.Allowlist.{refresh_turn}

module _ {F : Type 0} (host : Host F) (config : FirecrackerBackendConfig) where
  -- What the methods do to the backend, one call after another, calls that fail among them, with
  -- the turns of the tasks that refresh addresses, and what the host does by itself.
  pub data IsReachable : Firecracker F → Type 0 where
    new : (f : F) → IsReachable (new_backend f)
    moved : (w : Firecracker F) (f : F) → IsReachable w → IsReachable (record w { files = f })
    created :
        (w : Firecracker F) (c : SandboxConfig)
        → IsReachable w
        → IsReachable (create host config c w).1
    executed :
        (w : Firecracker F) (id : SandboxId) (req : ExecRequest)
        → IsReachable w
        → IsReachable (exec host config id req w).1
    read :
        (w : Firecracker F) (id : SandboxId) (path : Text)
        → IsReachable w
        → IsReachable (read_file host config id path w).1
    written :
        (w : Firecracker F) (id : SandboxId) (payload : FilePayload)
        → IsReachable w
        → IsReachable (write_file host config id payload w).1
    snapshotted :
        (w : Firecracker F) (id : SandboxId) (snapshot : SnapshotId) (path : Text)
        → IsReachable w
        → IsReachable (create_snapshot host config id snapshot path w).1
    restored :
        (w : Firecracker F) (snapshot : SnapshotId) (path : Text) (c : SandboxConfig)
        → IsReachable w
        → IsReachable (restore_snapshot host config snapshot path c w).1
    destroyed :
        (w : Firecracker F) (id : SandboxId)
        → IsReachable w
        → IsReachable (destroy host config id w).1
    refreshed :
        (w : Firecracker F) (vm_id : Text) (entries : List AllowlistEntry)
        → IsReachable w
        → IsReachable (refresh_turn host vm_id entries w).1
