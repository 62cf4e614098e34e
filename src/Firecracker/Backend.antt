-- ===== src/Firecracker/Backend.antt =====
-- `FirecrackerBackend` of crates/hyperbox-firecracker/src/backend.rs: its methods.
use hyperbox.Prelude.{
  suc, not, Option, none, some, List, ◌++◌, Text, codes, nat_eq, text_eq, is_empty, if◌then◌else◌,
  lookup, insert, remove,
}
use hyperbox.Core.Error.{
  Result, ok, err, ok_or, HyperboxError, invalid_config, sandbox_not_found, execution_failed,
}
use hyperbox.Core.Config.{
  SandboxConfig, SandboxId, SandboxInfo, SandboxLease, ready, ExecRequest, ExecOutcome, FilePayload,
}
use hyperbox.Core.Snapshot.{SnapshotId}
use hyperbox.Core.Allowlist.{AllowlistEntry}
use hyperbox.Network.Firewall.{VmNetworkSpec}
use hyperbox.Server.Monad.{M, ◌>>=◌, ◌>>◌, pure, throw, lift, gets, attempt}
use hyperbox.Server.Environment.{Backend}
use hyperbox.Firecracker.{
  Host, Firecracker, FirecrackerBackendConfig, FirecrackerSandbox, RunningVm, AgentWorkspaceBinding,
  on_host, or_fail, failed,
}
use hyperbox.Firecracker.Vm.{start_vm, terminate}
use hyperbox.Firecracker.Workspace.{
  on_files, on_files_or, prepare_agent_workspace, cleanup_agent_workspace, connect_agent,
}
use hyperbox.Firecracker.Setup.{
  validate_config, resolve_rootfs, vm_paths, vm_config_of, teardown_firewall, set_up_network,
}

module _ {F : Type 0} (host : Host F) (config : FirecrackerBackendConfig) where
  -- `SandboxId::new()`
  unfoldable pub draw_id : M (Firecracker F) SandboxId
  draw_id w = (ok (host.uuid w.draws), record w { draws = suc w.draws })

  unfoldable pub make_parent : Option Text → M (Firecracker F) (Unit {0})
  make_parent none = pure tt
  make_parent (some dir) = on_files host (host.create_dir_all dir)

  unfoldable pub put_sandbox : SandboxId → FirecrackerSandbox → M (Firecracker F) (Unit {0})
  put_sandbox id sandbox w = (ok tt, record w { sandboxes = insert id sandbox w.sandboxes })

  unfoldable pub boot : SandboxId → SandboxConfig → M (Firecracker F) RunningVm
  boot id sandbox_config = do
    rootfs_path ← lift (resolve_rootfs host config sandbox_config.template)
    or_fail (failed (codes "start firecracker vm")) (
        start_vm host config.firecracker_path
          (vm_config_of host config id sandbox_config rootfs_path))

  unfoldable pub info_of : SandboxConfig → SandboxId → M (Firecracker F) SandboxInfo
  info_of sandbox_config id = gets (λ w. record {
    id = id;
    template = sandbox_config.template;
    state = ready;
    created_at = host.clock w.draws;
  })

  -- The first part of `create`, up to the start of the machine.
  unfoldable pub prepare : SandboxConfig → M (Firecracker F) (SandboxId × RunningVm)
  prepare sandbox_config = do
    lift (validate_config host config sandbox_config)
    on_files host (host.create_dir_all config.work_dir)
    id ← draw_id
    make_parent (host.parent (vm_paths host config id).0)
    vm ← boot id sandbox_config
    pure (id, vm)

  -- The last part of `create`, once the network is set up.
  unfoldable pub enlist :
      SandboxConfig
      → SandboxId
      → RunningVm
      → Option VmNetworkSpec × Option (Text × List AllowlistEntry)
      → M (Firecracker F) SandboxLease
  enlist sandbox_config id vm network = do
    info ← info_of sandbox_config id
    agent_workspace ← prepare_agent_workspace host config id sandbox_config
    put_sandbox id (record {
      config = sandbox_config;
      info = info;
      vm = vm;
      network_spec = network.0;
      allowlist_sync_task = network.1;
      agent_workspace = agent_workspace;
    })
    pure (record { id = id; info = info })

  unfoldable pub create : SandboxConfig → M (Firecracker F) SandboxLease
  create sandbox_config = do
    started ← prepare sandbox_config
    network ← set_up_network host config started.0 started.1 sandbox_config.network
    enlist sandbox_config started.0 started.1 network

  unfoldable pub find_sandbox : SandboxId → M (Firecracker F) FirecrackerSandbox
  find_sandbox id w = (ok_or (lookup id w.sandboxes) (sandbox_not_found (host.show_uuid id)), w)

  -- The agent, if the sandbox exists.
  unfoldable pub agent_of : SandboxId → M (Firecracker F) (Unit {0})
  agent_of id = do find_sandbox id; connect_agent host config

  unfoldable pub exec : SandboxId → ExecRequest → M (Firecracker F) ExecOutcome
  exec id req =
      if is_empty req.command then throw (invalid_config (codes "command cannot be empty")) else (do
        agent_of id
        or_fail (failed (codes "exec via agent"))
            (on_host (host.agent_exec (host.show_uuid id) req.command req.timeout_secs)))

  unfoldable pub read_file : SandboxId → Text → M (Firecracker F) FilePayload
  read_file id path = do
    agent_of id
    bytes ←
        or_fail (failed (codes "read file via agent"))
          (on_host (host.agent_read_file (host.show_uuid id) path))
    pure (record { path = path; bytes = bytes })

  unfoldable pub write_file : SandboxId → FilePayload → M (Firecracker F) (Unit {0})
  write_file id payload = do
    agent_of id
    or_fail (failed (codes "write file via agent"))
        (on_host (host.agent_write_file (host.show_uuid id) payload.path payload.bytes))

  unfoldable pub create_snapshot : SandboxId → SnapshotId → Text → M (Firecracker F) (Unit {0})
  create_snapshot id snapshot_id artifact_path = do
    sandbox ← find_sandbox id
    source ←
        on_files_or host
          (codes "snapshot source does not exist `" ++ (sandbox.agent_workspace.path ++ codes "`"))
          (λ f. (host.canonicalize f sandbox.agent_workspace.path, f))
    is_directory ← on_files host (λ f. (host.is_dir f source, f))
    if is_directory
        then (do
          make_parent (host.parent artifact_path)
          present ← gets (λ w. host.exists w.files artifact_path)
          if present then on_files host (host.remove_file artifact_path) else pure tt
          on_host (host.archive_workspace source artifact_path))
        else throw (execution_failed (codes "snapshot source is not a directory: " ++ source))

  unfoldable pub take_sandbox : SandboxId → M (Firecracker F) FirecrackerSandbox
  take_sandbox id w = (
    ok_or (lookup id w.sandboxes) (sandbox_not_found (host.show_uuid id)),
    record w { sandboxes = remove id w.sandboxes },
  )

  unfoldable pub destroy : SandboxId → M (Firecracker F) (Unit {0})
  destroy id = do
    sandbox ← take_sandbox id
    teardown_firewall host config sandbox.network_spec
    or_fail (failed (codes "terminate vm")) (terminate host sandbox.vm)
    cleanup_agent_workspace host sandbox.agent_workspace

  unfoldable pub inspect : SandboxId → M (Firecracker F) SandboxInfo
  inspect id = do sandbox ← find_sandbox id; pure sandbox.info

  -- A sandbox that cannot be restored is destroyed again.
  unfoldable pub give_up : {A : Type 0} → SandboxId → HyperboxError → M (Firecracker F) A
  give_up id e = attempt (destroy id) >> throw e

  -- The message ends in the error of the unpacking.
  unfoldable pub finish_restore :
      SnapshotId → SandboxLease → Result HyperboxError (Unit {0}) → M (Firecracker F) SandboxLease
  finish_restore id lease (ok u) = pure lease
  finish_restore id lease (err e) =
      give_up lease.id
        (execution_failed (codes "firecracker snapshot restore failed for " ++ host.show_uuid id))

  unfoldable pub restore_into :
      SnapshotId → Text → SandboxLease → AgentWorkspaceBinding → M (Firecracker F) SandboxLease
  restore_into id artifact_path lease binding =
      if binding.linked_workspace
      then give_up lease.id (
          execution_failed
            (codes "firecracker snapshot restore into shared workspace_dir is not supported"))
      else (do
        present ← gets (λ w. host.exists w.files binding.path)
        if present then on_files host (host.remove_dir_all binding.path) else pure tt
        on_files host (host.create_dir_all binding.path)
        done ← attempt (on_host (host.unpack_workspace artifact_path binding.path))
        finish_restore id lease done)

  unfoldable pub restore_snapshot :
      SnapshotId → Text → SandboxConfig → M (Firecracker F) SandboxLease
  restore_snapshot id artifact_path sandbox_config = do
    present ← gets (λ w. host.exists w.files artifact_path)
    if not present
        then throw (
            execution_failed (
              codes "snapshot artifact missing for "
              ++ (host.show_uuid id ++ (codes " at " ++ artifact_path))))
        else (do
          lease ← create sandbox_config
          sandbox ← find_sandbox lease.id
          restore_into id artifact_path lease sandbox.agent_workspace)

  -- `impl SandboxBackend for FirecrackerBackend`
  unfoldable pub firecracker_backend : Backend (Firecracker F)
  firecracker_backend = record {
    validate_config = λ w sandbox_config. validate_config host config sandbox_config;
    create = λ w sandbox_config. create sandbox_config w;
    exec = λ w id req. exec id req w;
    read_file = λ w id path. read_file id path w;
    write_file = λ w id payload. write_file id payload w;
    destroy = λ w id. destroy id w;
    inspect = λ w id. inspect id w;
    create_snapshot = λ w id snapshot_id path. create_snapshot id snapshot_id path w;
    restore_snapshot = λ w id path sandbox_config. restore_snapshot id path sandbox_config w;
  }
