-- ===== src/Agent/Resolve.antt =====
-- What `resolve_safe_path` of crates/hyperbox-agent/src/daemon.rs has seen of the path that it
-- returns.
use mathlib.Core.Path.{subst}
use hyperbox.Prelude.{
  text_eq, Bool, true, false, List, [], ◌∷◌, Text, is_empty, Bool-cases, inl, inr, ◌≡◌, ◌≢◌, refl,
  sym, ap, arith,
}
use hyperbox.Core.Error.{Result, ok, err}
use hyperbox.Server.Monad.{
  ◌>>=◌, pure, gets, bind-Returned, pure-Returned, gets-Returned, ◌>>◌, Preserves, Preserves-to,
  preserves_rules, Preserves-bind, Preserves-gets,
}
use hyperbox.Status.{Status}
use hyperbox.Agent.{
  FileType, regular, directory, symlink, IoError, Guest, Agent, Served, mapped, on_guest,
  missing_entry, check_entry, resolve_from,
}

module _ {F : Type 0} (guest : Guest F) where
  -- `create_dir` that succeeds leaves a directory, and a call of it leaves what exists as it is.
  pub record MakesDirs : Type 0 where
    pub created :
        (path : Text) (f g : F)
        → guest.create_dir path f ≡ (ok tt, g)
        → guest.symlink_metadata g path ≡ ok directory
    pub keeps :
        (path : Text) (f : F) (other : Text) (kind : FileType)
        → guest.symlink_metadata f other ≡ ok kind
        → guest.symlink_metadata (guest.create_dir path f).1 other ≡ ok kind

  -- The path below a directory by its names.
  unfoldable pub target : Text → List Text → Text
  target cursor [] = cursor
  target cursor (part ∷ rest) = target (guest.join cursor part) rest

  -- Along the names, every entry but the last is a directory, and the last is no symbolic link.
  pub Clear : F → Text → List Text → Type 0
  Clear f cursor [] = Unit {0}
  Clear f cursor (part ∷ []) = guest.symlink_metadata f (guest.join cursor part) ≢ ok symlink
  Clear f cursor (part ∷ next ∷ rest) =
      (guest.symlink_metadata f (guest.join cursor part) ≡ ok directory)
      × Clear f (guest.join cursor part) (next ∷ rest)

  -- The loop keeps what making a directory keeps.
  module _ (P : Agent F → Type 0)
      (k : (f : IoError → Status) (p : Text)
        → Preserves P (on_guest guest f (guest.create_dir p))) where
    check_entry-Preserves :
        (create is_last : Bool) (p : Text) (r : Result IoError FileType)
        → Preserves P (check_entry guest create p is_last r)
    unfolding check_entry missing_entry
    check_entry-Preserves create is_last p (ok regular) = search preserves_rules
    check_entry-Preserves create is_last p (ok directory) = search preserves_rules
    check_entry-Preserves create is_last p (ok symlink) = search preserves_rules
    check_entry-Preserves create is_last p (err e) = search (preserves_rules, k) depth 12

    pub resolve_from-Preserves :
        (create : Bool) (cursor : Text) (names : List Text)
        → Preserves P (resolve_from guest create cursor names)
    unfolding resolve_from
    resolve_from-Preserves create cursor [] = search preserves_rules
    resolve_from-Preserves create cursor (part ∷ rest) =
        Preserves-bind _ _ (Preserves-gets _) λ meta.
          Preserves-bind _ _
            (check_entry-Preserves create (is_empty rest) (guest.join cursor part) meta)
            λ _. resolve_from-Preserves create (guest.join cursor part) rest

  module _ (laws : MakesDirs) where
    abbrev Stands : Text → Agent F → Type 0
    Stands path w = guest.symlink_metadata w.files path ≡ ok directory

    module _ (path : Text) where
      create_dir-Stands :
          (f : IoError → Status) (p : Text)
          → Preserves (Stands path) (on_guest guest f (guest.create_dir p))
      unfolding on_guest
      create_dir-Stands f p = record { holds_at = λ w h. laws.keeps p w.files path directory h }

      resolve_from-Stands :
          (create : Bool) (cursor : Text) (names : List Text)
          → Preserves (Stands path) (resolve_from guest create cursor names)
      resolve_from-Stands = resolve_from-Preserves (Stands path) create_dir-Stands

    create_dir_lem :
        (f : IoError → Status) (path : Text) (w v : Agent F)
        → on_guest guest f (guest.create_dir path) w ≡ (ok tt, v)
        → Stands path v
    unfolding on_guest
    create_dir_lem f path w v h = by_result (guest.create_dir path w.files) refl h
      where
        by_result :
            (o : Result IoError (Unit {0}) × F)
            → guest.create_dir path w.files ≡ o
            → ◌≡◌ {A = Result Status (Unit {0}) × Agent F}
                (mapped f o.0, record w { files = o.1 })
                (ok tt, v)
            → Stands path v
        by_result (ok t, g) e k =
            let same : g ≡ v.files = ap (λ (x : Result Status (Unit {0}) × Agent F). x.1.files) k in
            subst (λ h. guest.symlink_metadata h path ≡ ok directory) same
              (laws.created path w.files g e)
        by_result (err x, g) e k = cc

    abbrev Seen : Bool → Text → Agent F → Type 0
    Seen true path w = guest.symlink_metadata w.files path ≢ ok symlink
    Seen false path w = Stands path w

    check_entry-Seen :
        (create is_last : Bool) (path : Text) (r : Result IoError FileType) (w v : Agent F)
        → guest.symlink_metadata w.files path ≡ r
        → check_entry guest create path is_last r w ≡ (ok tt, v)
        → Seen is_last path v
    unfolding check_entry missing_entry on_guest ◌>>=◌
    check_entry-Seen create is_last path (ok symlink) w v e h = cc
    check_entry-Seen create true path (ok directory) w v e h = ground arith
    check_entry-Seen create false path (ok directory) w v e h = ground arith
    check_entry-Seen create true path (ok regular) w v e h = ground arith
    check_entry-Seen create false path (ok regular) w v e h = cc
    check_entry-Seen create true path (err x) w v e h = ground arith
    check_entry-Seen true false path (err x) w v e h = elim (Bool-cases x.is_not_found) [
      | inl t ↦ create_dir_lem _ path w v (rw t at h)
      | inr f ↦ cc (rw f at h)
    ]
    check_entry-Seen false false path (err x) w v e h = ground arith

    -- The rest of the loop after an entry has been inspected.
    entry-Seen :
        (create is_last : Bool) (path : Text) (k : Served F Text) (w v : Agent F) (full : Text)
        → (gets (λ u. guest.symlink_metadata u.files path) >>= λ meta.
              check_entry guest create path is_last meta >> k)
            w
          ≡ (ok full, v)
        → (u : Agent F) × Seen is_last path u × (k u ≡ (ok full, v))
    entry-Seen create is_last path k w v full h =
        let read = bind-Returned (gets (λ u. guest.symlink_metadata u.files path)) _ w v full h in
        let checked =
          bind-Returned (check_entry guest create path is_last read.value) _ read.state v full
            read.rest in
        let (kind, same) =
          gets-Returned (λ u. guest.symlink_metadata u.files path) read.value w read.state
            read.first in
        let now : guest.symlink_metadata read.state.files path ≡ read.value =
          subst (λ (u : Agent F). guest.symlink_metadata u.files path ≡ read.value) same kind in
        (
          checked.state,
          check_entry-Seen create is_last path read.value read.state checked.state now
              checked.first,
          checked.rest,
        )

    pub resolve_from-Clear :
        (create : Bool) (cursor : Text) (names : List Text) (w v : Agent F) (full : Text)
        → resolve_from guest create cursor names w ≡ (ok full, v)
        → (full ≡ target cursor names) × Clear v.files cursor names
    unfolding resolve_from target Clear
    resolve_from-Clear create cursor [] w v full h = (sym (pure-Returned cursor full w v h).0, tt)
    resolve_from-Clear create cursor (part ∷ []) w v full h =
        let (u, seen, rest) =
          entry-Seen create true (guest.join cursor part) (pure (guest.join cursor part)) w v full
            h in
        let (here, same) = pure-Returned (guest.join cursor part) full u v rest in
        (
          sym here,
          subst
              (λ (x : Agent F).
                guest.symlink_metadata x.files (guest.join cursor part) ≢ ok symlink)
              same seen,
        )
    resolve_from-Clear create cursor (part ∷ next ∷ rest) w v full h =
        let (u, seen, later) =
          entry-Seen create false (guest.join cursor part)
            (resolve_from guest create (guest.join cursor part) (next ∷ rest)) w v full h in
        let (there, clear) =
          resolve_from-Clear create (guest.join cursor part) (next ∷ rest) u v full later in
        (
          there,
          (
            Preserves-to
                (resolve_from-Stands (guest.join cursor part) create (guest.join cursor part)
                  (next ∷ rest))
                seen later,
            clear,
          ),
        )
