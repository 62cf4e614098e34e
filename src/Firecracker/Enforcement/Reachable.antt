-- ===== src/Firecracker/Enforcement/Reachable.antt =====
-- The states that the methods of crates/hyperbox-firecracker/src/backend.rs lead to, and the firewalls
-- of their sandboxes.
use hyperbox.Prelude.{
  Bool, true, false, not, Option, codes, ◌++◌, if◌then◌else◌, some, List, Text, nat_eq, Assoc,
  lookup, AllEntries, AllEntries-insert, AllEntries-remove, AllEntries-lookup, ◌≡◌,
}
use hyperbox.Core.Error.{Result, ok, err, HyperboxError, execution_failed}
use hyperbox.Core.Config.{SandboxConfig, SandboxId, SandboxLease}
use hyperbox.Core.Snapshot.{SnapshotId}
use hyperbox.Core.Allowlist.{AllowlistEntry}
use hyperbox.Server.Monad.{
  ◌>>=◌, throw, Preserves-bind, Preserves-pure, Preserves-to, preserves_rules, bind-elim_state,
}
use hyperbox.Firecracker.{
  Host, Firecracker, FirecrackerBackendConfig, FirecrackerSandbox, RunningVm,
}
use hyperbox.Firecracker.Backend.{
  enlist, put_sandbox, prepare, create, find_sandbox, take_sandbox, destroy, give_up,
  finish_restore, restore_into, restore_snapshot,
}
use hyperbox.Firecracker.Table.{
  Keeps, on_host-Keeps, or_fail-Keeps, terminate-Keeps, cleanup_agent_workspace-Keeps,
  prepare_agent_workspace-Keeps, refresh_turn-Keeps,
}
use hyperbox.Firecracker.Methods.{
  prepare-Keeps, set_up_network-Keeps, info_of-Keeps, teardown_firewall-Keeps, find_sandbox-Keeps,
  exec-Keeps, read_file-Keeps, write_file-Keeps, create_snapshot-Keeps,
}
use hyperbox.Firecracker.Calls.{
  IsReachable, new, moved, created, executed, read, written, snapshotted, restored, destroyed,
  refreshed,
}
use hyperbox.Firecracker.Enforcement.{EnforcedBy, IsEnforced, set_up_network-EnforcedBy}
use hyperbox.Firecracker.Setup.{set_up_network}
use hyperbox.Network.Firewall.{VmNetworkSpec}
use mathlib.Core.Path.{subst}

module _ {F : Type 0} (host : Host F) (config : FirecrackerBackendConfig) where
  abbrev AllEnforced : Assoc SandboxId FirecrackerSandbox → Type 0
  AllEnforced m = AllEntries (IsEnforced host config) m

  put_sandbox-Enforced :
      (id : SandboxId) (sandbox : FirecrackerSandbox)
      → IsEnforced host config id sandbox
      → Keeps AllEnforced (put_sandbox host config id sandbox)
  unfolding put_sandbox
  put_sandbox-Enforced id sandbox k = record {
    holds_at = λ w h. AllEntries-insert (IsEnforced host config) id sandbox w.sandboxes k h;
  }

  take_sandbox-Enforced : (id : SandboxId) → Keeps AllEnforced (take_sandbox host config id)
  unfolding take_sandbox
  take_sandbox-Enforced id = record {
    holds_at = λ w h. AllEntries-remove (IsEnforced host config) id w.sandboxes h;
  }

  enlist-Enforced :
      (c : SandboxConfig) (id : SandboxId) (vm : RunningVm)
      (n : Option VmNetworkSpec × Option (Text × List AllowlistEntry))
      → EnforcedBy host config c id vm c.network n.0
      → Keeps AllEnforced (enlist host config c id vm n)
  unfolding enlist
  enlist-Enforced c id vm n enforced =
      Preserves-bind _ _ (info_of-Keeps host config AllEnforced c id) λ info.
        Preserves-bind _ _ (prepare_agent_workspace-Keeps AllEnforced host config id c)
          λ workspace. Preserves-bind _ _ (put_sandbox-Enforced id _ enforced) λ _. Preserves-pure _

  create-Enforced :
      (c : SandboxConfig) (w : Firecracker F)
      → IsReachable host config w
      → AllEnforced w.sandboxes
      → AllEnforced (create host config c w).1.sandboxes
  unfolding create
  create-Enforced c w r h =
      let prepared_keeps = prepare-Keeps host config AllEnforced c in
      bind-elim_state (λ (x : Firecracker F). AllEnforced x.sandboxes) (prepare host config c) _ w
        (prepared_keeps.holds_at w h)
        λ p u prepared.
          let network_keeps = set_up_network-Keeps host config AllEnforced p.0 p.1 c.network in
          let kept = Preserves-to prepared_keeps h prepared in
          bind-elim_state (λ (x : Firecracker F). AllEnforced x.sandboxes)
            (set_up_network host config p.0 p.1 c.network) _ u (network_keeps.holds_at u kept)
            λ n x set_up.
              (enlist-Enforced c p.0 p.1 n (
                  set_up_network-EnforcedBy host config c p.0 p.1
                    (record { origin = w; reachable = r; booted = u; prepared = prepared }) n x
                    set_up)).holds_at
                x (Preserves-to network_keeps kept set_up)

  destroy-Enforced : (id : SandboxId) → Keeps AllEnforced (destroy host config id)
  unfolding destroy
  destroy-Enforced id = search (
    preserves_rules,
    take_sandbox-Enforced,
    or_fail-Keeps AllEnforced,
    teardown_firewall-Keeps host config AllEnforced,
    terminate-Keeps AllEnforced host,
    cleanup_agent_workspace-Keeps AllEnforced host,
  )

  finish_restore-Enforced :
      (id : SnapshotId) (lease : SandboxLease) (r : Result HyperboxError (Unit {0}))
      → Keeps AllEnforced (finish_restore host config id lease r)
  unfolding finish_restore give_up
  finish_restore-Enforced id lease (ok u) = search preserves_rules
  finish_restore-Enforced id lease (err e) = search (preserves_rules, destroy-Enforced)

  restore_into-Enforced :
      (id : SnapshotId) (path : Text) (lease : SandboxLease)
      → Keeps AllEnforced (
          find_sandbox host config lease.id >>= λ sandbox.
          restore_into host config id path lease sandbox.agent_workspace)
  unfolding restore_into give_up
  restore_into-Enforced id path lease =
      search
        (
          preserves_rules,
          destroy-Enforced,
          finish_restore-Enforced,
          find_sandbox-Keeps host config AllEnforced,
          on_host-Keeps AllEnforced,
          or_fail-Keeps AllEnforced,
        )
        depth 14

  restore_snapshot-Enforced :
      (id : SnapshotId) (path : Text) (c : SandboxConfig) (w : Firecracker F)
      → IsReachable host config w
      → AllEnforced w.sandboxes
      → AllEnforced (restore_snapshot host config id path c w).1.sandboxes
  unfolding restore_snapshot ◌>>=◌
  restore_snapshot-Enforced id path c w r h = by_present (host.exists w.files path)
    where
      by_present :
          (present : Bool)
          → AllEnforced
              ((if not present
                  then throw (
                      execution_failed (
                        codes "snapshot artifact missing for "
                        ++ (host.show_uuid id ++ (codes " at " ++ path))))
                  else (create host config c >>= λ lease.
                      find_sandbox host config lease.id >>= λ sandbox.
                      restore_into host config id path lease sandbox.agent_workspace))
                w).1.sandboxes
      by_present false = h
      by_present true =
          bind-elim_state (λ (x : Firecracker F). AllEnforced x.sandboxes) (create host config c) _
            w (create-Enforced c w r h)
            λ lease u made. (restore_into-Enforced id path lease).holds_at u (
              subst
                (λ (o : Result HyperboxError SandboxLease × Firecracker F).
                  AllEnforced o.1.sandboxes)
                made (create-Enforced c w r h))

  Reachable-AllEnforced : (w : Firecracker F) → IsReachable host config w → AllEnforced w.sandboxes
  Reachable-AllEnforced w (new f) = tt
  Reachable-AllEnforced w (moved v f r) = Reachable-AllEnforced v r
  Reachable-AllEnforced w (created v c r) = create-Enforced c v r (Reachable-AllEnforced v r)
  Reachable-AllEnforced w (executed v id req r) =
      (exec-Keeps host config AllEnforced id req).holds_at v (Reachable-AllEnforced v r)
  Reachable-AllEnforced w (read v id path r) =
      (read_file-Keeps host config AllEnforced id path).holds_at v (Reachable-AllEnforced v r)
  Reachable-AllEnforced w (written v id payload r) =
      (write_file-Keeps host config AllEnforced id payload).holds_at v (Reachable-AllEnforced v r)
  Reachable-AllEnforced w (snapshotted v id snapshot path r) =
      (create_snapshot-Keeps host config AllEnforced id snapshot path).holds_at v
        (Reachable-AllEnforced v r)
  Reachable-AllEnforced w (restored v snapshot path c r) =
      restore_snapshot-Enforced snapshot path c v r (Reachable-AllEnforced v r)
  Reachable-AllEnforced w (destroyed v id r) =
      (destroy-Enforced id).holds_at v (Reachable-AllEnforced v r)
  Reachable-AllEnforced w (refreshed v vm_id entries r) =
      (refresh_turn-Keeps AllEnforced host vm_id entries).holds_at v (Reachable-AllEnforced v r)

  -- In every state that the methods lead to from a new backend, calls that fail among them and
  -- whatever the host does between them, a sandbox of the table that has a network specification was
  -- made by a call of `create` in such a state, on which all commands of the mode's plan for that
  -- specification ran with success on the host as it was when the machine had been started; and the
  -- specification names the sandbox's identifier and the interface of its own machine. A sandbox
  -- without a specification has the mode without network.
  pub Reachable-IsEnforced :
      (w : Firecracker F) (id : SandboxId) (sandbox : FirecrackerSandbox)
      → IsReachable host config w
      → lookup id w.sandboxes ≡ some sandbox
      → IsEnforced host config id sandbox
  Reachable-IsEnforced w id sandbox r found =
      AllEntries-lookup (IsEnforced host config) id sandbox w.sandboxes (Reachable-AllEnforced w r)
        found
