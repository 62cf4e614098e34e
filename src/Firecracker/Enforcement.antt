-- ===== src/Firecracker/Enforcement.antt =====
-- The firewall of every machine that the table of crates/hyperbox-firecracker/src/backend.rs holds.
pub mod Reachable
use mathlib.Core.Path.{subst}
use hyperbox.Prelude.{
  codes, false, Option, none, some, List, Text, nat_eq, Assoc, lookup, AllEntries,
  AllEntries-insert, AllEntries-remove, AllEntries-lookup, ◌≡◌, refl, ap, arith,
}
use hyperbox.Core.Error.{Result, ok, err, HyperboxError}
use hyperbox.Core.Config.{
  SandboxConfig, SandboxId, SandboxLease, ExecRequest, FilePayload, NetworkMode, none_mode,
  full_mode, allowlist_mode,
}
use hyperbox.Core.Snapshot.{SnapshotId}
use hyperbox.Core.Allowlist.{AllowlistEntry}
use hyperbox.Network.Firewall.{VmNetworkSpec, apply}
use hyperbox.Server.Monad.{
  Yields, Yields-bind, Yields-pure, Action, M, ◌>>=◌, ◌>>◌, Preserves, Preserves-bind, Preserves-if,
  Preserves-lift, Preserves-pure, preserves_rules, Returned, bind-Returned, pure, lift,
  pure-Returned, lift-Returned,
}
use hyperbox.Firecracker.{
  Host, Firecracker, FirecrackerBackendConfig, FirecrackerSandbox, FirecrackerVmConfig, RunningVm,
  new_backend, on_host, or_fail, with_err, failed,
}
use hyperbox.Firecracker.Calls.{IsReachable}
use hyperbox.Firecracker.Vm.{start_vm}
use hyperbox.Firecracker.Setup.{
  tap_name_of, vm_config_of, is_none_mode, validate_config, spec_of, apply_firewall, fill_allowlist,
  set_up_network,
}
use hyperbox.Firecracker.Backend.{
  boot, prepare, put_sandbox, create, exec, read_file, write_file, create_snapshot, take_sandbox,
  destroy, give_up, finish_restore, restore_into, restore_snapshot,
}
use hyperbox.Firecracker.Allowlist.{refresh_turn}
use hyperbox.Firecracker.Table.{
  Keeps, on_host-Keeps, or_fail-Keeps, terminate-Keeps, cleanup_agent_workspace-Keeps,
  prepare_agent_workspace-Keeps, refresh_turn-Keeps,
}
use hyperbox.Firecracker.Methods.{
  draw_id-Keeps, make_parent-Keeps, boot-Keeps, set_up_network-Keeps, info_of-Keeps,
  teardown_firewall-Keeps, find_sandbox-Keeps, exec-Keeps, read_file-Keeps, write_file-Keeps,
  create_snapshot-Keeps,
}

module _ {F : Type 0} (host : Host F) (config : FirecrackerBackendConfig) where
  -- A state that the methods lead to, in which `create` was called, and the one in which the machine
  -- that this call started was running.
  pub record IsBooted (c : SandboxConfig) (id : SandboxId) (vm : RunningVm) : Type 0 where
    pub origin : Firecracker F
    pub reachable : IsReachable host config origin
    pub booted : Firecracker F
    pub prepared : prepare host config c origin ≡ (ok (id, vm), booted)

  -- The specification is that of the machine, and the commands of the mode's plan for it have run,
  -- all with success, on the host as it was when the machine had been started.
  pub record IsWalled (c : SandboxConfig) (id : SandboxId) (vm : RunningVm) (mode : NetworkMode)
      (spec : VmNetworkSpec) : Type 0 where
    pub named : spec.vm_id ≡ host.show_uuid id
    pub attached : vm.config.tap_name ≡ some spec.tap_name
    pub routed : spec.host_iface ≡ config.host_iface
    pub started : IsBooted c id vm
    pub after : F
    pub done : apply host.run spec mode started.booted.files ≡ (ok tt, after)

  abbrev pub EnforcedBy :
      SandboxConfig → SandboxId → RunningVm → NetworkMode → Option VmNetworkSpec → Type 0
  EnforcedBy c id vm mode none = mode ≡ none_mode
  EnforcedBy c id vm mode (some spec) = IsWalled c id vm mode spec

  abbrev pub IsEnforced : SandboxId → FirecrackerSandbox → Type 0
  IsEnforced id sandbox =
      EnforcedBy sandbox.config id sandbox.vm sandbox.config.network sandbox.network_spec

  -- A mode that is accepted has no network, or the firewall is real.
  validate_config-real :
      (c : SandboxConfig)
      → validate_config host config c ≡ ok tt
      → is_none_mode c.network ≡ false
      → config.network_dry_run ≡ false
  unfolding validate_config
  validate_config-real c h f = ground (arith, h, f)

  or_fail-Returned :
      {A E : Type 0} (f : E → HyperboxError) (call : F → Result E A × F) (w u : Firecracker F)
      (a : A)
      → or_fail f (on_host call) w ≡ (ok a, u)
      → call w.files ≡ (ok a, u.files)
  unfolding or_fail on_host
  or_fail-Returned {A} {E} f call w u a h = by_result (call w.files) h
    where
      by_result :
          (r : Result E A × F)
          → ◌≡◌ {A = Result HyperboxError A × Firecracker F}
              (with_err f r.0, record w { files = r.1 })
              (ok a, u)
          → r ≡ (ok a, u.files)
      by_result (ok b, g) e = cc
      by_result (err x, g) e = cc

  apply_firewall-run :
      (spec : VmNetworkSpec) (mode : NetworkMode) (w u : Firecracker F) (a : Unit {0})
      → config.network_dry_run ≡ false
      → apply_firewall host config spec mode w ≡ (ok a, u)
      → apply host.run spec mode w.files ≡ (ok tt, u.files)
  unfolding apply_firewall
  apply_firewall-run spec mode w u tt real h =
      or_fail-Returned (failed (codes "firewall apply")) (apply host.run spec mode) w u tt
        (cc (real, h))

  or_fail-Yields :
      {A E : Type 0} {P : A → Type 0} (f : E → HyperboxError) (m : Action E (Firecracker F) A)
      → Yields P m
      → Yields P (or_fail f m)
  unfolding or_fail
  or_fail-Yields {A} {E} {P} f m k = record { yields = λ w u a h. by_result w u a (m w) refl h }
    where
      by_result :
          (w u : Firecracker F) (a : A) (r : Result E A × Firecracker F)
          → m w ≡ r
          → ◌≡◌ {A = Result HyperboxError A × Firecracker F} (with_err f r.0, r.1) (ok a, u)
          → P a
      by_result w u a (ok b, v) e h = subst P (cc h) (k.yields w v b e)
      by_result w u a (err x, v) e h = absurd (cc h)

  -- A machine that was started has the configuration that it was started with.
  start_vm-config :
      (path : Text) (c : FirecrackerVmConfig)
      → Yields (λ (vm : RunningVm). vm.config ≡ c) (start_vm host path c)
  unfolding start_vm
  start_vm-config path c = Yields-bind _ _ λ _. Yields-bind _ _ λ _. Yields-bind _ _ λ child.
      Yields-bind _ _ λ _. Yields-bind _ _ λ _. Yields-bind _ _ λ _. Yields-bind _ _ λ _.
        Yields-bind _ _ λ _.
          Yields-bind _ _
            λ _. Yields-bind _ _ λ _. Yields-pure (record { config = c; child = child }) refl

  boot-tap :
      (id : SandboxId) (c : SandboxConfig)
      → Yields
          (λ (vm : RunningVm). vm.config.tap_name ≡ tap_name_of host config id c.network)
          (boot host config id c)
  unfolding boot vm_config_of
  boot-tap id c = Yields-bind _ _ λ rootfs_path. or_fail-Yields _ _ (record {
    yields = λ w u vm h.
        ap (λ (k : FirecrackerVmConfig). k.tap_name)
          ((start_vm-config _ (vm_config_of host config id c rootfs_path)).yields w u vm h);
  })

  prepare-tap :
      (c : SandboxConfig)
      → Yields
          (λ (p : SandboxId × RunningVm).
            p.1.config.tap_name ≡ tap_name_of host config p.0 c.network)
          (prepare host config c)
  unfolding prepare
  prepare-tap c = Yields-bind _ _ λ _. Yields-bind _ _ λ _. Yields-bind _ _ λ id.
      Yields-bind _ _ λ _. record {
        yields = λ w u p h.
            let r = bind-Returned (boot host config id c) (λ vm. pure (id, vm)) w u p h in
            subst
              (λ (q : SandboxId × RunningVm).
                q.1.config.tap_name ≡ tap_name_of host config q.0 c.network)
              (pure-Returned (id, r.value) p r.state u r.rest).0
              ((boot-tap id c).yields w r.state r.value r.first);
      }

  prepare-validated :
      (c : SandboxConfig) (w u : Firecracker F) (p : SandboxId × RunningVm)
      → prepare host config c w ≡ (ok p, u)
      → validate_config host config c ≡ ok tt
  unfolding prepare
  prepare-validated c w u p h =
      let r = bind-Returned (lift (validate_config host config c)) _ w u p h in
      (lift-Returned (validate_config host config c) r.value w r.state r.first).0

  attached_to :
      (id : SandboxId) (vm : RunningVm) (mode : NetworkMode)
      → is_none_mode mode ≡ false
      → vm.config.tap_name ≡ tap_name_of host config id mode
      → vm.config.tap_name ≡ some (spec_of host config id vm).tap_name
  unfolding tap_name_of spec_of
  attached_to id vm mode networked tap = let e = rw networked at tap in rw e refl

  -- What `set_up_network` does under a mode with a network.
  networked-EnforcedBy :
      (c : SandboxConfig) (id : SandboxId) (vm : RunningVm) (mode : NetworkMode)
      → config.network_dry_run ≡ false
      → vm.config.tap_name ≡ some (spec_of host config id vm).tap_name
      → (start : IsBooted c id vm) (n : Option VmNetworkSpec × Option (Text × List AllowlistEntry))
        (u : Firecracker F)
      → (apply_firewall host config (spec_of host config id vm) mode >>= λ _.
            fill_allowlist host config (spec_of host config id vm).vm_id mode >>= λ task.
            pure (some (spec_of host config id vm), task))
          start.booted
        ≡ (ok n, u)
      → EnforcedBy c id vm mode n.0
  unfolding spec_of
  networked-EnforcedBy c id vm mode real tap start n u h =
      let applied = bind-Returned _ _ start.booted u n h in
      let filled = bind-Returned _ _ applied.state u n applied.rest in
      let same = (pure-Returned _ n filled.state u filled.rest).0 in
      subst
        (λ (m : Option VmNetworkSpec × Option (Text × List AllowlistEntry)).
          EnforcedBy c id vm mode m.0)
        same
        (record {
          named = refl;
          attached = tap;
          routed = refl;
          started = start;
          after = applied.state.files;
          done =
              apply_firewall-run _ mode start.booted applied.state applied.value real applied.first;
        })

  by_mode-EnforcedBy :
      (c : SandboxConfig) (id : SandboxId) (vm : RunningVm) (mode : NetworkMode)
      → (is_none_mode mode ≡ false → config.network_dry_run ≡ false)
      → vm.config.tap_name ≡ tap_name_of host config id mode
      → (start : IsBooted c id vm) (n : Option VmNetworkSpec × Option (Text × List AllowlistEntry))
        (u : Firecracker F)
      → set_up_network host config id vm mode start.booted ≡ (ok n, u)
      → EnforcedBy c id vm mode n.0
  unfolding set_up_network
  by_mode-EnforcedBy c id vm none_mode real tap start n u h =
      subst
        (λ (m : Option VmNetworkSpec × Option (Text × List AllowlistEntry)).
          EnforcedBy c id vm none_mode m.0)
        (pure-Returned _ n start.booted u h).0 refl
  by_mode-EnforcedBy c id vm full_mode real tap start n u h =
      networked-EnforcedBy c id vm full_mode (real refl) (attached_to id vm full_mode refl tap)
        start n u h
  by_mode-EnforcedBy c id vm (allowlist_mode entries) real tap start n u h =
      networked-EnforcedBy c id vm (allowlist_mode entries) (real refl)
        (attached_to id vm (allowlist_mode entries) refl tap) start n u h

  pub set_up_network-EnforcedBy :
      (c : SandboxConfig) (id : SandboxId) (vm : RunningVm) (start : IsBooted c id vm)
      (n : Option VmNetworkSpec × Option (Text × List AllowlistEntry)) (u : Firecracker F)
      → set_up_network host config id vm c.network start.booted ≡ (ok n, u)
      → EnforcedBy c id vm c.network n.0
  set_up_network-EnforcedBy c id vm start n u h =
      by_mode-EnforcedBy c id vm c.network
        (validate_config-real c
          (prepare-validated c start.origin start.booted (id, vm) start.prepared))
        ((prepare-tap c).yields start.origin start.booted (id, vm) start.prepared) start n u h
