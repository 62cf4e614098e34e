-- ===== src/Server/Store/Laws.antt =====
-- The store seen through its `get` methods: what each write changes, and what it leaves.
use hyperbox.Prelude.{
  Option, none, some, [], ◌∷◌, Text, text_eq, nat_eq, text_beq, if◌then◌else◌, Assoc, lookup,
  lookup-insert, ◌≡◌, refl, arith, text_beq_iff,
}
use mathlib.Core.Option
use hyperbox.Core.Config.{SandboxId, Time}
use hyperbox.Core.Snapshot.{SnapshotId}
use hyperbox.Server.Store.{
  SnapshotStore, sandbox_of, snapshot_of, bind_sandbox, clear_sandbox_binding, map_values, holds,
  set_affinity_snapshot, get_affinity,
}

lookup-map_values :
    {V : Type 0} (f : V → V) (k : Text) (m : Assoc Text V)
    → lookup k (map_values f m) ≡ Option.map f (lookup k m)
unfolding lookup map_values
lookup-map_values f k [] = refl
lookup-map_values f k ((j, v) ∷ m) = ground (arith, lookup-map_values f k m)

-- What a name resolves to.
abbrev pub bound_sandbox : SnapshotStore → Text → Option SandboxId
bound_sandbox s name = sandbox_of (get_affinity s name)

abbrev pub bound_snapshot : SnapshotStore → Text → Option SnapshotId
bound_snapshot s name = snapshot_of (get_affinity s name)

module _ (s : SnapshotStore) (now : Time) where
  -- Binding a name to a sandbox sets that name's sandbox, leaves the sandboxes of all other names,
  -- and leaves the snapshots of all names.
  pub bind_sandbox_lem :
      (name other : Text) (id : SandboxId)
      → (bound_sandbox (bind_sandbox s now name id) other
          ≡ (if text_beq name other then some id else bound_sandbox s other))
        × (bound_snapshot (bind_sandbox s now name id) other ≡ bound_snapshot s other)
  unfolding bind_sandbox get_affinity
  bind_sandbox_lem name other id = (
    simp lookup-insert (ground arith),
    simp lookup-insert (ground (arith, text_beq_iff name other)),
  )

  -- Giving a name a snapshot sets that name's snapshot, leaves the snapshots of all other names, and
  -- leaves the sandboxes of all names.
  pub set_affinity_snapshot_lem :
      (name other : Text) (id : SnapshotId)
      → (bound_snapshot (set_affinity_snapshot s now name id) other
          ≡ (if text_beq name other then some id else bound_snapshot s other))
        × (bound_sandbox (set_affinity_snapshot s now name id) other ≡ bound_sandbox s other)
  unfolding set_affinity_snapshot get_affinity
  set_affinity_snapshot_lem name other id = (
    simp lookup-insert (ground arith),
    simp lookup-insert (ground (arith, text_beq_iff name other)),
  )

  -- Clearing a sandbox unbinds exactly the names that are bound to it, and leaves the snapshots of
  -- all names.
  pub clear_sandbox_binding_lem :
      (name : Text) (id : SandboxId)
      → (bound_sandbox (clear_sandbox_binding s now id) name
          ≡ (if holds id (bound_sandbox s name) then none else bound_sandbox s name))
        × (bound_snapshot (clear_sandbox_binding s now id) name ≡ bound_snapshot s name)
  unfolding clear_sandbox_binding get_affinity
  clear_sandbox_binding_lem name id =
      (simp lookup-map_values (ground arith), simp lookup-map_values (ground arith))
