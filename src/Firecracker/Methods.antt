-- ===== src/Firecracker/Methods.antt =====
-- Which methods of crates/hyperbox-firecracker/src/backend.rs leave the table of sandboxes as it is.
use hyperbox.Prelude.{Option, none, some, Text, Assoc}
use hyperbox.Core.Error.{Result, HyperboxError}
use hyperbox.Core.Config.{
  SandboxConfig, SandboxId, ExecRequest, FilePayload, NetworkMode, none_mode, full_mode,
  allowlist_mode,
}
use hyperbox.Core.Snapshot.{SnapshotId}
use hyperbox.Network.Firewall.{VmNetworkSpec}
use hyperbox.Server.Monad.{Action, preserves_rules}
use hyperbox.Firecracker.{
  Host, Firecracker, FirecrackerBackendConfig, FirecrackerSandbox, RunningVm, on_host, or_fail,
}
use hyperbox.Firecracker.Setup.{apply_firewall, teardown_firewall, fill_allowlist, set_up_network}
use hyperbox.Firecracker.Backend.{
  draw_id, make_parent, boot, prepare, info_of, find_sandbox, agent_of, exec, read_file, write_file,
  create_snapshot,
}
use hyperbox.Firecracker.Table.{
  Keeps, on_host-Keeps, or_fail-Keeps, start_vm-Keeps, connect_agent-Keeps,
  resolve_allowlist_ips-Keeps, populate_allowlist_set-Keeps,
}

module _ {F : Type 0} (host : Host F) (config : FirecrackerBackendConfig)
    (T : Assoc SandboxId FirecrackerSandbox → Type 0) where
  call-Keeps : {E A : Type 0} (call : F → Result E A × F) → Keeps T (on_host call)
  call-Keeps = on_host-Keeps T

  fail-Keeps :
      {E A : Type 0} (f : E → HyperboxError) (m : Action E (Firecracker F) A)
      → Keeps T m
      → Keeps T (or_fail f m)
  fail-Keeps = or_fail-Keeps T

  ruleset table_rules = (preserves_rules, call-Keeps, fail-Keeps)

  apply_firewall-Keeps :
      (spec : VmNetworkSpec) (mode : NetworkMode) → Keeps T (apply_firewall host config spec mode)
  unfolding apply_firewall
  apply_firewall-Keeps spec mode = search table_rules

  pub teardown_firewall-Keeps :
      (spec : Option VmNetworkSpec) → Keeps T (teardown_firewall host config spec)
  unfolding teardown_firewall
  teardown_firewall-Keeps none = search table_rules
  teardown_firewall-Keeps (some spec) = search table_rules

  fill_allowlist-Keeps :
      (id : Text) (mode : NetworkMode) → Keeps T (fill_allowlist host config id mode)
  unfolding fill_allowlist
  fill_allowlist-Keeps id none_mode = search table_rules
  fill_allowlist-Keeps id full_mode = search table_rules
  fill_allowlist-Keeps id (allowlist_mode entries) =
      search (table_rules, resolve_allowlist_ips-Keeps T, populate_allowlist_set-Keeps T)

  pub set_up_network-Keeps :
      (id : SandboxId) (vm : RunningVm) (mode : NetworkMode)
      → Keeps T (set_up_network host config id vm mode)
  unfolding set_up_network
  set_up_network-Keeps id vm mode = search (table_rules, apply_firewall-Keeps, fill_allowlist-Keeps)

  pub draw_id-Keeps : Keeps T (draw_id host config)
  unfolding draw_id
  draw_id-Keeps = record { holds_at = λ w h. h }

  pub make_parent-Keeps : (dir : Option Text) → Keeps T (make_parent host config dir)
  unfolding make_parent
  make_parent-Keeps none = search table_rules
  make_parent-Keeps (some dir) = search table_rules

  pub boot-Keeps : (id : SandboxId) (c : SandboxConfig) → Keeps T (boot host config id c)
  unfolding boot
  boot-Keeps id c = search (table_rules, start_vm-Keeps T)

  pub prepare-Keeps : (c : SandboxConfig) → Keeps T (prepare host config c)
  unfolding prepare
  prepare-Keeps c = search (table_rules, draw_id-Keeps, make_parent-Keeps, boot-Keeps) depth 10

  pub info_of-Keeps : (c : SandboxConfig) (id : SandboxId) → Keeps T (info_of host config c id)
  unfolding info_of
  info_of-Keeps c id = search table_rules

  pub find_sandbox-Keeps : (id : SandboxId) → Keeps T (find_sandbox host config id)
  unfolding find_sandbox
  find_sandbox-Keeps id = record { holds_at = λ w h. h }

  agent_of-Keeps : (id : SandboxId) → Keeps T (agent_of host config id)
  unfolding agent_of
  agent_of-Keeps id = search (table_rules, find_sandbox-Keeps, connect_agent-Keeps T)

  pub exec-Keeps : (id : SandboxId) (req : ExecRequest) → Keeps T (exec host config id req)
  unfolding exec
  exec-Keeps id req = search (table_rules, agent_of-Keeps)

  pub read_file-Keeps : (id : SandboxId) (path : Text) → Keeps T (read_file host config id path)
  unfolding read_file
  read_file-Keeps id path = search (table_rules, agent_of-Keeps)

  pub write_file-Keeps :
      (id : SandboxId) (payload : FilePayload) → Keeps T (write_file host config id payload)
  unfolding write_file
  write_file-Keeps id payload = search (table_rules, agent_of-Keeps)

  pub create_snapshot-Keeps :
      (id : SandboxId) (s : SnapshotId) (path : Text)
      → Keeps T (create_snapshot host config id s path)
  unfolding create_snapshot
  create_snapshot-Keeps id s path =
      search (table_rules, find_sandbox-Keeps, make_parent-Keeps) depth 12
