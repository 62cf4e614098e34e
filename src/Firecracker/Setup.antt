-- ===== src/Firecracker/Setup.antt =====
-- What `create` and `destroy` of crates/hyperbox-firecracker/src/backend.rs set up and take down: the
-- checks of a configuration, the machine's configuration and its network.
use hyperbox.Prelude.{
  Bool, true, false, not, ◌&&◌, Option, none, some, List, [], ◌++◌, Text, codes, take, nat_eq,
  text_eq, is_empty, if◌then◌else◌, lookup,
}
use hyperbox.Core.Error.{Result, ok, err, ok_or, HyperboxError, invalid_config, template_not_found}
use hyperbox.Core.Config.{
  SandboxConfig, SandboxId, NetworkMode, none_mode, full_mode, allowlist_mode,
}
use hyperbox.Core.Allowlist.{AllowlistEntry}
use hyperbox.Network.Firewall.{VmNetworkSpec, apply, teardown, record_command}
use hyperbox.Server.Monad.{M, ◌>>=◌, ◌>>◌, pure, lift}
use hyperbox.Firecracker.{
  Host, Firecracker, FirecrackerBackendConfig, FirecrackerVmConfig, RunningVm, on_host, or_fail,
  failed,
}
use hyperbox.Firecracker.Allowlist.{
  find_wildcard, no_wildcard, resolve_allowlist_ips, populate_allowlist_set,
}

-- `matches!(network, NetworkMode::None)`
abbrev pub is_none_mode : NetworkMode → Bool
is_none_mode none_mode = true
is_none_mode full_mode = false
is_none_mode (allowlist_mode entries) = false

abbrev pub check_allowlist : NetworkMode → Result HyperboxError (Unit {0})
check_allowlist none_mode = ok tt
check_allowlist full_mode = ok tt
check_allowlist (allowlist_mode entries) =
    if is_empty entries
    then err (invalid_config (codes "allowlist mode requires at least one --allow domain"))
    else no_wildcard (find_wildcard entries)

module _ {F : Type 0} (host : Host F) (config : FirecrackerBackendConfig) where
  unfoldable pub validate_config : SandboxConfig → Result HyperboxError (Unit {0})
  validate_config sandbox_config =
      if not (is_none_mode sandbox_config.network) && config.network_dry_run
      then err (
          invalid_config (
            codes
              "network policy requires real firewall enforcement; set HYPERBOX_NETWORK_DRY_RUN=0"))
      else check_allowlist sandbox_config.network

  unfoldable pub resolve_rootfs : Text → Result HyperboxError Text
  resolve_rootfs template =
      ok_or (lookup template config.rootfs_by_template)
        (template_not_found (template ++ codes " (missing firecracker rootfs mapping)"))

  unfoldable pub tap_name_of : SandboxId → NetworkMode → Option Text
  tap_name_of id mode =
      if is_none_mode mode then none else some (codes "hbx" ++ take 8 (host.show_uuid id))

  -- `vm_paths`: the socket, the one of the guest, and the log
  unfoldable pub vm_paths : SandboxId → Text × (Text × Text)
  vm_paths id =
      let base = host.join config.work_dir (host.show_uuid id) in
      (
        host.join base (codes "firecracker.sock"),
        (host.join base (codes "vsock.sock"), host.join base (codes "firecracker.log")),
      )

  unfoldable pub vm_config_of : SandboxId → SandboxConfig → Text → FirecrackerVmConfig
  vm_config_of id sandbox_config rootfs_path =
      let (socket_path, (vsock_path, log_path)) = vm_paths id in
      record {
        vm_id = host.show_uuid id;
        socket_path = socket_path;
        kernel_image_path = config.kernel_image;
        rootfs_path = rootfs_path;
        log_path = log_path;
        memory_mb = sandbox_config.memory_mb;
        vcpu_count = sandbox_config.vcpu_count;
        boot_args = codes "console=ttyS0 reboot=k panic=1 pci=off";
        tap_name = tap_name_of id sandbox_config.network;
        vsock_guest_cid = 3;
        vsock_uds_path = vsock_path;
      }

  abbrev or_unknown : Option Text → Text
  or_unknown none = codes "hbxunknown"
  or_unknown (some tap) = tap

  unfoldable pub spec_of : SandboxId → RunningVm → VmNetworkSpec
  spec_of id vm = record {
    vm_id = host.show_uuid id;
    tap_name = or_unknown vm.config.tap_name;
    host_iface = config.host_iface;
    guest_cidr = codes "172.16.0.0/30";
    guest_ip = codes "172.16.0.2";
  }

  -- A dry run records its commands and forgets them.
  unfoldable pub apply_firewall : VmNetworkSpec → NetworkMode → M (Firecracker F) (Unit {0})
  apply_firewall spec mode =
      if config.network_dry_run
      then or_fail (failed (codes "dry-run firewall apply"))
          (lift (apply (record_command {F = Text}) spec mode []).0)
      else or_fail (failed (codes "firewall apply")) (on_host (apply host.run spec mode))

  unfoldable pub teardown_firewall : Option VmNetworkSpec → M (Firecracker F) (Unit {0})
  teardown_firewall none = pure tt
  teardown_firewall (some spec) =
      if config.network_dry_run
      then or_fail (failed (codes "dry-run firewall teardown"))
          (lift (teardown (record_command {F = Text}) spec []).0)
      else or_fail (failed (codes "firewall teardown")) (on_host (teardown host.run spec))

  unfoldable pub fill_allowlist :
      Text → NetworkMode → M (Firecracker F) (Option (Text × List AllowlistEntry))
  fill_allowlist vm_id none_mode = pure none
  fill_allowlist vm_id full_mode = pure none
  fill_allowlist vm_id (allowlist_mode entries) = do
    ips ← resolve_allowlist_ips host entries
    populate_allowlist_set host vm_id ips
    pure (some (vm_id, entries))

  -- The machine's network: its specification and the task that refreshes its addresses.
  unfoldable pub set_up_network :
      SandboxId
      → RunningVm
      → NetworkMode
      → M (Firecracker F) (Option VmNetworkSpec × Option (Text × List AllowlistEntry))
  set_up_network id vm mode = if is_none_mode mode then pure (none, none) else (do
    apply_firewall (spec_of id vm) mode
    task ← fill_allowlist (spec_of id vm).vm_id mode
    pure (some (spec_of id vm), task))
