-- ===== src/Firecracker/Forgetting.antt =====
-- What `destroy` of crates/hyperbox-firecracker/src/backend.rs leaves of a sandbox in the table.
use hyperbox.Prelude.{
  none, Assoc, lookup, remove, lookup-remove, nat_eq, ◌==◌, beq_refl, if◌then◌else◌, ◌≡◌, refl, ap,
  ◌∙◌,
}
use hyperbox.Core.Error.{err, ok_or, sandbox_not_found}
use hyperbox.Core.Config.{SandboxId}
use hyperbox.Server.Monad.{◌>>=◌, Preserves-continue, preserves_rules}
use hyperbox.Firecracker.{Host, Firecracker, FirecrackerBackendConfig, FirecrackerSandbox}
use hyperbox.Firecracker.Backend.{destroy, take_sandbox}
use hyperbox.Firecracker.Table.{or_fail-Keeps, terminate-Keeps, cleanup_agent_workspace-Keeps}
use hyperbox.Firecracker.Methods.{teardown_firewall-Keeps}

module _ {F : Type 0} (host : Host F) (config : FirecrackerBackendConfig) where
  destroy-sandboxes :
      (id : SandboxId) (w : Firecracker F)
      → (destroy host config id w).1.sandboxes ≡ remove id w.sandboxes
  unfolding destroy ◌>>=◌ take_sandbox
  destroy-sandboxes id w =
      let T : Assoc SandboxId FirecrackerSandbox → Type 0 = λ m. m ≡ remove id w.sandboxes in
      Preserves-continue {P = λ (v : Firecracker F). T v.sandboxes}
        (ok_or (lookup id w.sandboxes) (sandbox_not_found (host.show_uuid id))) _
        (record w { sandboxes = remove id w.sandboxes })
        (λ r. search (
          preserves_rules,
          or_fail-Keeps T,
          teardown_firewall-Keeps host config T,
          terminate-Keeps T host,
          cleanup_agent_workspace-Keeps T host,
        ))
        refl

  destroy-missing :
      (id : SandboxId) (w : Firecracker F)
      → lookup id w.sandboxes ≡ none
      → (destroy host config id w).0 ≡ err (sandbox_not_found (host.show_uuid id))
  unfolding destroy ◌>>=◌ take_sandbox
  destroy-missing id w h = rw h refl

  -- A destroy forgets its sandbox and no other, whether or not its firewall, its machine and its
  -- directory can be taken down, and another destroy of that sandbox reports that it is not found.
  destroy-forgets :
      (id other : SandboxId) (w : Firecracker F)
      → (lookup other (destroy host config id w).1.sandboxes
          ≡ (if id == other then none else lookup other w.sandboxes))
        × ((destroy host config id (destroy host config id w).1).0
            ≡ err (sandbox_not_found (host.show_uuid id)))
  destroy-forgets id other w =
      let gone : (i : SandboxId)
          → lookup i (destroy host config id w).1.sandboxes
            ≡ (if id == i then none else lookup i w.sandboxes) =
        λ i. ap (lookup i) (destroy-sandboxes id w) ∙ lookup-remove id i w.sandboxes in
      let here : lookup id (destroy host config id w).1.sandboxes ≡ none =
        rw (gone id, beq_refl id) refl in
      (gone other, destroy-missing id _ here)
