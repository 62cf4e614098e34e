-- ===== src/Agent/Files.antt =====
-- The files that `read_file` and `write_file` of crates/hyperbox-agent/src/daemon.rs reach.
use mathlib.Core.Path.{subst}
use hyperbox.Prelude.{
  ℕ, Option, lookup, lookup-insert, text_eq, beq_refl, Bool, true, false, none, some, List, Text,
  ◌≡◌, refl, sym, ap, ◌∙◌,
}
use hyperbox.Core.Error.{Result, ok, err}
use hyperbox.Server.Monad.{
  ◌>>=◌, lift, gets, bind-Returned, pure-Returned, lift-Returned, gets-Returned, Preserves,
  Preserves-to,
}
use hyperbox.Status.{Status}
use hyperbox.Agent.Resolve.{MakesDirs, target, Clear, resolve_from-Clear, resolve_from-Preserves}
use hyperbox.Agent.{
  read_file, write_file, read_failed, sandbox_id_or_default, IoError, Guest, Agent, Served, mapped,
  on_guest, resolve_safe_path, normalize_relative_path, known_root, put_root, sandbox_root,
  internal_error,
}

module _ {F : Type 0} (guest : Guest F) where
  -- The root that the agent's map gives for a sandbox, or the one that it makes below `root`.
  abbrev pub kept_root : Text → Text → Option Text → Text
  kept_root root id none = guest.join root id
  kept_root root id (some existing) = existing

  module _ (id dir : Text) where
    known_root-kept :
        (root : Text) (o : Option Text) (w v : Agent F)
        → known_root guest root id o w ≡ (ok dir, v)
        → dir ≡ kept_root root id o
    unfolding known_root
    known_root-kept root (some existing) w v h = sym (pure-Returned existing dir w v h).0
    known_root-kept root none w v h =
        let made =
          bind-Returned (on_guest guest internal_error (guest.create_dir_all (guest.join root id)))
            _ w v dir h in
        let stored =
          bind-Returned (put_root guest id (guest.join root id)) _ made.state v dir made.rest in
        sym (pure-Returned (guest.join root id) dir stored.state v stored.rest).0

    sandbox_root-kept :
        (root : Text) (w v : Agent F)
        → sandbox_root guest root id w ≡ (ok dir, v)
        → dir ≡ kept_root root id (lookup id w.sandboxes)
    unfolding sandbox_root
    sandbox_root-kept root w v h =
        let read = bind-Returned (gets (λ u. lookup id u.sandboxes)) _ w v dir h in
        let (found, same) =
          gets-Returned (λ u. lookup id u.sandboxes) read.value w read.state read.first in
        known_root-kept root read.value read.state v read.rest ∙ ap (kept_root root id) (sym found)

    on_guest-sandboxes :
        {B : Type 0} (f : IoError → Status) (call : F → Result IoError B × F)
        → Preserves (λ w. lookup id w.sandboxes ≡ some dir) (on_guest guest f call)
    unfolding on_guest
    on_guest-sandboxes f call = record { holds_at = λ w h. h }

    known_root-sandboxes :
        (root : Text) (o : Option Text) (w v : Agent F)
        → lookup id w.sandboxes ≡ o
        → known_root guest root id o w ≡ (ok dir, v)
        → lookup id v.sandboxes ≡ some dir
    unfolding known_root put_root
    known_root-sandboxes root (some existing) w v e h =
        let (same, stays) = pure-Returned existing dir w v h in
        subst (λ (x : Agent F). lookup id x.sandboxes ≡ some dir) stays (e ∙ ap some same)
    known_root-sandboxes root none w v e h =
        let made =
          bind-Returned (on_guest guest internal_error (guest.create_dir_all (guest.join root id)))
            _ w v dir h in
        let stored =
          bind-Returned (put_root guest id (guest.join root id)) _ made.state v dir made.rest in
        let (same, stays) = pure-Returned (guest.join root id) dir stored.state v stored.rest in
        let there : lookup id stored.state.sandboxes ≡ some (guest.join root id) =
          ap (λ (x : Result Status (Unit {0}) × Agent F). lookup id x.1.sandboxes)
            (sym stored.first)
          ∙ lookup-insert id id (guest.join root id) made.state.sandboxes
          ∙ rw (beq_refl id) refl in
        subst (λ (x : Agent F). lookup id x.sandboxes ≡ some dir) stays (there ∙ ap some same)

    sandbox_root-sandboxes :
        (root : Text) (w v : Agent F)
        → sandbox_root guest root id w ≡ (ok dir, v)
        → lookup id v.sandboxes ≡ some dir
    unfolding sandbox_root
    sandbox_root-sandboxes root w v h =
        let read = bind-Returned (gets (λ u. lookup id u.sandboxes)) _ w v dir h in
        let (found, same) =
          gets-Returned (λ u. lookup id u.sandboxes) read.value w read.state read.first in
        known_root-sandboxes root read.value read.state v
          (subst (λ (u : Agent F). lookup id u.sandboxes ≡ read.value) same found) read.rest

  bind-ok :
      {A B : Type 0} (m : Served F A) (f : A → Served F B) (a : A) (w u : Agent F)
      → m w ≡ (ok a, u)
      → (m >>= f) w ≡ f a u
  unfolding ◌>>=◌
  bind-ok m f a w u e = rw e refl

  on_guest-ok :
      {B : Type 0} (f : IoError → Status) (call : F → Result IoError B × F) (b : B) (w v : Agent F)
      → on_guest guest f call w ≡ (ok b, v)
      → call w.files ≡ (ok b, v.files)
  unfolding on_guest
  on_guest-ok {B} f call b w v h = by_result (call w.files) h
    where
      by_result :
          (o : Result IoError B × F)
          → ◌≡◌ {A = Result Status B × Agent F} (mapped f o.0, record w { files = o.1 }) (ok b, v)
          → o ≡ (ok b, v.files)
      by_result (ok c, g) k = cc
      by_result (err x, g) k = cc

  abbrev pub locating : Text → Text → Text → Bool → Served F Text
  locating root id path create =
      sandbox_root guest root id >>= λ dir. resolve_safe_path guest dir path create

  -- What an operation of a sandbox that starts in `w` knows of the path on which it ends, in the
  -- state `u` that resolving the path leaves.
  pub record Located (root_dir id path : Text) (create : Bool) (w u : Agent F) : Type 0 where
    pub root : Text
    pub names : List Text
    pub own : root ≡ kept_root root_dir id (lookup id w.sandboxes)
    pub bound : lookup id u.sandboxes ≡ some root
    pub normal : normalize_relative_path path ≡ ok names
    pub reached : locating root_dir id path create w ≡ (ok (target guest root names), u)
    pub clear : Clear guest u.files root names

  module _ (laws : MakesDirs guest) where
    locate :
        {B : Type 0} (root id path : Text) (create : Bool) (k : Text → Served F B) (w v : Agent F)
        (b : B)
        → (sandbox_root guest root id >>= λ dir. resolve_safe_path guest dir path create >>= k) w
          ≡ (ok b, v)
        → (u : Agent F) × (l : Located root id path create w u) × (k (target guest l.root l.names) u
            ≡ (ok b, v))
    unfolding resolve_safe_path
    locate root id path create k w v b h =
        let rooted = bind-Returned (sandbox_root guest root id) _ w v b h in
        let resolved =
          bind-Returned (resolve_safe_path guest rooted.value path create) k rooted.state v b
            rooted.rest in
        let lifted =
          bind-Returned (lift (normalize_relative_path path)) _ rooted.state resolved.state
            resolved.value resolved.first in
        let (normal, same) =
          lift-Returned (normalize_relative_path path) lifted.value rooted.state lifted.state
            lifted.first in
        let (full, clear) =
          resolve_from-Clear guest laws create rooted.value lifted.value lifted.state resolved.state
            resolved.value lifted.rest in
        let bound : lookup id lifted.state.sandboxes ≡ some rooted.value =
          subst (λ (x : Agent F). lookup id x.sandboxes ≡ some rooted.value) same
            (sandbox_root-sandboxes id rooted.value root w rooted.state rooted.first) in
        (
          resolved.state,
          record {
            root = rooted.value;
            names = lifted.value;
            own = sandbox_root-kept id rooted.value root w rooted.state rooted.first;
            reached =
                subst (λ (p : Text). locating root id path create w ≡ (ok p, resolved.state)) full
                  (bind-ok (sandbox_root guest root id)
                      (λ dir. resolve_safe_path guest dir path create) rooted.value w rooted.state
                      rooted.first
                    ∙ resolved.first);
            bound =
                Preserves-to
                  (resolve_from-Preserves guest (λ x. lookup id x.sandboxes ≡ some rooted.value)
                    (λ f p. on_guest-sandboxes id rooted.value f (guest.create_dir p)) create
                    rooted.value lifted.value)
                  bound lifted.rest;
            normal = normal;
            clear = clear;
          },
          subst (λ p. k p resolved.state ≡ (ok b, v)) full resolved.rest,
        )

    -- A read that returns has read the file below the root that the agent's map gave for the request's
    -- sandbox, or below the agent's root joined with the identifier if it gave none, at the names of
    -- the normalized path; the map holds that root afterwards. When the file was read, every entry on
    -- the way to it was a directory, and the file was no symbolic link. It is assumed that making a
    -- directory makes one, and leaves what exists as it is.
    pub read_file_lem :
        (root id path : Text) (w v : Agent F) (bytes : List ℕ)
        → read_file guest root id path w ≡ (ok bytes, v)
        → (u : Agent F) × (l : Located root (sandbox_id_or_default id) path false w u) × (lookup
              (sandbox_id_or_default id)
              v.sandboxes
            ≡ some l.root)
          × (guest.read (target guest l.root l.names) u.files ≡ (ok bytes, v.files))
    unfolding read_file
    read_file_lem root id path w v bytes h =
        let (u, l, done) =
          locate root (sandbox_id_or_default id) path false
            (λ full. on_guest guest read_failed (guest.read full)) w v bytes h in
        (
          u,
          l,
          Preserves-to
              (on_guest-sandboxes (sandbox_id_or_default id) l.root read_failed
                (guest.read (target guest l.root l.names)))
              l.bound done,
          on_guest-ok read_failed (guest.read (target guest l.root l.names)) bytes u v done,
        )

    -- A write that returns has written the bytes below the root that the agent's map gave for the
    -- request's sandbox, or below the agent's root joined with the identifier if it gave none, at the
    -- names of the normalized path; the map holds that root afterwards. Before the bytes were written,
    -- every entry on the way to the file was a directory, and the file was no symbolic link. It is
    -- assumed that making a directory makes one, and leaves what exists as it is.
    pub write_file_lem :
        (root id path : Text) (bytes : List ℕ) (w v : Agent F)
        → write_file guest root id path bytes w ≡ (ok tt, v)
        → (u : Agent F) × (l : Located root (sandbox_id_or_default id) path true w u) × (lookup
              (sandbox_id_or_default id)
              v.sandboxes
            ≡ some l.root)
          × (guest.write (target guest l.root l.names) bytes u.files ≡ (ok tt, v.files))
    unfolding write_file
    write_file_lem root id path bytes w v h =
        let (u, l, done) =
          locate root (sandbox_id_or_default id) path true
            (λ full. on_guest guest internal_error (guest.write full bytes)) w v tt h in
        (
          u,
          l,
          Preserves-to
              (on_guest-sandboxes (sandbox_id_or_default id) l.root internal_error
                (guest.write (target guest l.root l.names) bytes))
              l.bound done,
          on_guest-ok internal_error (guest.write (target guest l.root l.names) bytes) tt u v done,
        )
