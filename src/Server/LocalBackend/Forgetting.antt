-- ===== src/Server/LocalBackend/Forgetting.antt =====
-- What `destroy` of crates/hyperbox-server/src/local_backend.rs leaves of a sandbox in the table.
use hyperbox.Prelude.{
  none, Text, Assoc, lookup, remove, lookup-remove, nat_eq, ◌==◌, beq_refl, if◌then◌else◌, ◌≡◌,
  refl, ap, ◌∙◌,
}
use hyperbox.Core.Error.{Result, err, ok_or, HyperboxError, sandbox_not_found}
use hyperbox.Core.Config.{SandboxId}
use hyperbox.Server.Monad.{◌>>=◌, Preserves, Preserves-continue, preserves_rules}
use hyperbox.Server.LocalBackend.{
  Host, Local, SandboxRecord, destroy, take_record, clear_dir, on_host,
}

module _ {F : Type 0} (host : Host F) (root_dir : Text) where
  on_host-state :
      {A : Type 0} {m : Assoc SandboxId SandboxRecord} (call : F → Result HyperboxError A × F)
      → Preserves (λ w. w.state ≡ m) (on_host host root_dir call)
  unfolding on_host
  on_host-state call = record { holds_at = λ w h. h }

  clear_dir-state :
      {m : Assoc SandboxId SandboxRecord} (dir : Text)
      → Preserves (λ w. w.state ≡ m) (clear_dir host root_dir dir)
  unfolding clear_dir
  clear_dir-state dir = search (preserves_rules, on_host-state)

  destroy-state :
      (id : SandboxId) (w : Local F) → (destroy host root_dir id w).1.state ≡ remove id w.state
  unfolding destroy ◌>>=◌ take_record
  destroy-state id w =
      Preserves-continue {P = λ (v : Local F). v.state ≡ remove id w.state}
        (ok_or (lookup id w.state) (sandbox_not_found (host.show_uuid id))) _
        (record w { state = remove id w.state }) (λ r. search (preserves_rules, clear_dir-state))
        refl

  destroy-missing :
      (id : SandboxId) (w : Local F)
      → lookup id w.state ≡ none
      → (destroy host root_dir id w).0 ≡ err (sandbox_not_found (host.show_uuid id))
  unfolding destroy ◌>>=◌ take_record
  destroy-missing id w h = rw h refl

  -- A destroy forgets its sandbox and no other, whether or not the sandbox's directory can be
  -- removed, and another destroy of that sandbox reports that it is not found.
  pub destroy_lem :
      (id other : SandboxId) (w : Local F)
      → (lookup other (destroy host root_dir id w).1.state
          ≡ (if id == other then none else lookup other w.state))
        × ((destroy host root_dir id (destroy host root_dir id w).1).0
            ≡ err (sandbox_not_found (host.show_uuid id)))
  destroy_lem id other w =
      let gone : (i : SandboxId)
          → lookup i (destroy host root_dir id w).1.state
            ≡ (if id == i then none else lookup i w.state) =
        λ i. ap (lookup i) (destroy-state id w) ∙ lookup-remove id i w.state in
      let here : lookup id (destroy host root_dir id w).1.state ≡ none =
        rw (gone id, beq_refl id) refl in
      (gone other, destroy-missing id _ here)
