-- ===== src/Agent/Paths.antt =====
-- What `normalize_relative_path` of crates/hyperbox-agent/src/daemon.rs makes of a path.
use mathlib.Core.List.{append_assoc, reverse-cons}
use hyperbox.Prelude.{
  Bool, true, false, ◌||◌, not, some, List, [], ◌∷◌, ◌++◌, reverse, Text, codes, all, is_empty,
  text_eq, ◌==◌, Bool-cases, inl, inr, ◌≡◌, ◌≢◌, refl, sym, ap, ◌∙◌, arith,
}
use hyperbox.Core.Error.{Result, ok, err, Result-cases}
use hyperbox.Status.{Status}
use hyperbox.Server.LocalBackend.{split_slash, is_absolute, is_parent_dir}
use hyperbox.Server.LocalBackend.Paths.{walk}
use hyperbox.Agent.{normalize_pieces, not_empty, normalize_relative_path}

-- A name of an entry in a directory: not empty, `.` or `..`.
abbrev pub is_name : Text → Bool
is_name piece = not (is_parent_dir piece || is_empty piece || piece == codes ".")

reverse-push :
    (piece : Text) (names dirs : List Text)
    → reverse names ++ (piece ∷ dirs) ≡ reverse (piece ∷ names) ++ dirs
reverse-push piece names dirs = sym (
    ap (λ t. t ++ dirs) (reverse-cons piece names) ∙ append_assoc (reverse names) (piece ∷ []) dirs)

-- The names found lead where the pieces lead.
normalize_pieces-walk :
    (pieces dirs names : List Text)
    → normalize_pieces pieces ≡ ok names
    → (walk dirs pieces ≡ some (reverse names ++ dirs)) × (all is_name names ≡ true)
unfolding normalize_pieces walk
normalize_pieces-walk [] dirs names h = let e : [] ≡ names = cc in rw (← e) (refl, refl)
normalize_pieces-walk (piece ∷ pieces) dirs names h = elim (Bool-cases (is_parent_dir piece)) [
  | inl up ↦ cc (rw up at h)
  | inr not_up ↦ elim (Bool-cases (is_empty piece || piece == codes ".")) [
    | inl skipped ↦
        let rest : normalize_pieces pieces ≡ ok names = rw (not_up, skipped) at h in
        rw (not_up, skipped) (normalize_pieces-walk pieces dirs names rest)
    | inr name ↦ elim (Result-cases (normalize_pieces pieces)) [
      | inl (others, found) ↦
          let e : piece ∷ others ≡ names = ground arith in
          let (led, named) = normalize_pieces-walk pieces (piece ∷ dirs) others found in
          rw (not_up, name)
            (rw (← e) (led ∙ ap some (reverse-push piece others dirs), ground arith))
      | inr (e, failed) ↦ absurd (ground arith)
    ]
  ]
]

-- A path that is accepted is relative, and its names, of which there is at least one, lead where the
-- path leads from any directory; each is the name of an entry.
pub normalize_relative_path-walk :
    (path : Text) (names dirs : List Text)
    → normalize_relative_path path ≡ ok names
    → (is_absolute path ≡ false)
      × (names ≢ [])
      × (walk dirs (split_slash [] path) ≡ some (reverse names ++ dirs))
      × (all is_name names ≡ true)
unfolding normalize_relative_path
normalize_relative_path-walk path names dirs h = elim (Bool-cases (is_absolute path)) [
  | inl a ↦ cc (rw a at h)
  | inr relative ↦
      let found : not_empty (normalize_pieces (split_slash [] path)) ≡ ok names =
        rw relative at h in
      let (kept, some_name) = not_empty-ok (normalize_pieces (split_slash [] path)) names found in
      let (led, named) = normalize_pieces-walk (split_slash [] path) dirs names kept in
      (relative, some_name, led, named)
]
  where
    not_empty-ok :
        (r : Result Status (List Text)) (l : List Text) → not_empty r ≡ ok l → (r ≡ ok l) × (l ≢ [])
    not_empty-ok (ok []) l g = cc
    not_empty-ok (ok (n ∷ ns)) l g = (g, cc)
    not_empty-ok (err e) l g = cc
