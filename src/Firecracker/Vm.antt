-- ===== src/Firecracker/Vm.antt =====
-- crates/hyperbox-firecracker/src/vm.rs: starting a machine and ending it.
use hyperbox.Prelude.{
  ℕ, zero, suc, ◌+◌, false, Option, none, some, [], ◌∷◌, ◌++◌, Text, codes, ltb, if◌then◌else◌,
}
use hyperbox.Core.Error.{Result, ok, err}
use hyperbox.Server.Monad.{Action, ◌>>=◌, ◌>>◌, pure, throw, gets, attempt}
use hyperbox.Firecracker.{
  pause, Host, Firecracker, FirecrackerVmConfig, RunningVm, IoError, on_host,
}
use hyperbox.Firecracker.Api.{
  set_machine_config, set_boot_source, set_rootfs, set_vsock, attach_network, start_instance,
}

-- `?` into an `anyhow::Error`, of which the text is kept
abbrev pub message_of : {A : Type 0} → Result IoError A → Result Text A
message_of (ok a) = ok a
message_of (err e) = err e.message

module _ {F : Type 0} (host : Host F) where
  abbrev on_files : {A : Type 0} → (F → Result IoError A × F) → Action Text (Firecracker F) A
  on_files call = on_host (λ f. let (r, g) = call f in (message_of r, g))

  unfoldable pub make_dir : Option Text → Action Text (Firecracker F) (Unit {0})
  make_dir none = pure tt
  make_dir (some dir) = on_host (λ f. let (r, g) = host.create_dir_all dir f in (message_of r, g))

  unfoldable pub timed_out : Text → Text
  timed_out path = codes "timed out waiting for firecracker socket: " ++ path

  unfoldable pub wait_turn :
      Text → Action Text (Firecracker F) (Unit {0}) → Action Text (Firecracker F) (Unit {0})
  wait_turn path rest = do
    present ← gets (λ w. host.exists w.files path)
    if present then pure tt else pause host 30 >> rest

  -- The loop of `wait_for_socket`, with the end of its time. A turn that does not find the socket
  -- sleeps for 30 milliseconds.
  unfoldable pub wait_turns : Text → ℕ → ℕ → Action Text (Firecracker F) (Unit {0})
  wait_turns path end zero = throw (timed_out path)
  wait_turns path end (suc turns) = do
    instant ← gets (λ w. host.now w.files)
    if ltb instant end then wait_turn path (wait_turns path end turns) else throw (timed_out path)

  -- With a limit of 3 seconds the loop is left after 101 turns.
  unfoldable pub wait_for_socket : Text → Action Text (Firecracker F) (Unit {0})
  wait_for_socket path = do start ← gets (λ w. host.now w.files); wait_turns path (start + 3000) 101

  unfoldable pub attach : Text → Option Text → Action Text (Firecracker F) (Unit {0})
  attach socket_path none = pure tt
  attach socket_path (some tap) = attach_network host socket_path tap

  unfoldable pub start_vm : Text → FirecrackerVmConfig → Action Text (Firecracker F) RunningVm
  start_vm firecracker_path config = do
    make_dir (host.parent config.socket_path)
    attempt (on_files (host.remove_file config.socket_path))
    child ← on_host (
        host.spawn firecracker_path
          (codes "--api-sock" ∷ config.socket_path ∷ codes "--log-path" ∷ config.log_path ∷ []))
    wait_for_socket config.socket_path
    set_machine_config host config.socket_path config.vcpu_count config.memory_mb
    set_boot_source host config.socket_path config.kernel_image_path config.boot_args
    set_rootfs host config.socket_path config.rootfs_path false
    set_vsock host config.socket_path config.vsock_guest_cid config.vsock_uds_path
    attach config.socket_path config.tap_name
    start_instance host config.socket_path
    pure (record { config = config; child = child })

  unfoldable pub terminate : RunningVm → Action Text (Firecracker F) (Unit {0})
  terminate vm = on_host (host.kill vm.child)
