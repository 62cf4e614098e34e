-- ===== src/Prelude/Maps.antt =====
-- Rust's maps as association lists. `insert` writes in place, or at the end for a new key; the
-- order of a `HashMap` is not specified, and the list fixes one.
use mathlib.Core.Path.{◌≡◌, refl, subst, subst₂}
use mathlib.Core.Logic.{inl, inr}
use mathlib.Core.Bool.{false}
use hyperbox.Prelude.Lists.{All}
use mathlib.Core.Option.{Option, none, some}
use mathlib.Core.List.{List, [], ◌∷◌, map}
use native.Mathlib.Omega.{arith}
use hyperbox.Prelude.Tests.{Bool-cases, eq_of_beq, if◌then◌else◌, Keyed, ◌==◌}

abbrev pub Assoc {ℓ} : Type ℓ → Type ℓ → Type ℓ
Assoc K V = List (K × V)

module _ {ℓ} {K V : Type ℓ} where
  unfoldable pub values : Assoc K V → List V
  values m = map (λ p. p.1) m

module _ {ℓ} {K V : Type ℓ} ⦃keyed : Keyed K⦄ where
  unfoldable pub lookup : K → Assoc K V → Option V
  lookup wanted [] = none
  lookup wanted ((key, value) ∷ rest) =
      let further = lookup wanted rest in if key == wanted then some value else further

  unfoldable pub insert : K → V → Assoc K V → Assoc K V
  insert new x [] = (new, x) ∷ []
  insert new x ((key, value) ∷ rest) =
      let further = insert new x rest in
      if key == new then (new, x) ∷ rest else (key, value) ∷ further

  unfoldable pub remove : K → Assoc K V → Assoc K V
  remove gone [] = []
  remove gone ((key, value) ∷ rest) =
      let further = remove gone rest in if key == gone then further else (key, value) ∷ further

  pub lookup-insert :
      (new wanted : K) (x : V) (entries : Assoc K V)
      → lookup wanted (insert new x entries)
        ≡ (if new == wanted then some x else lookup wanted entries)
  unfolding lookup insert
  lookup-insert new wanted x [] = refl
  lookup-insert new wanted x ((key, value) ∷ rest) = ground (
    arith,
    keyed.same_to new wanted,
    keyed.same_to key new,
    keyed.same_to key wanted,
    keyed.same_self new,
    keyed.same_self wanted,
    keyed.same_self key,
    lookup-insert new wanted x rest,
  )

  pub lookup-remove :
      (gone wanted : K) (entries : Assoc K V)
      → lookup wanted (remove gone entries)
        ≡ (if gone == wanted then none else lookup wanted entries)
  unfolding lookup remove
  lookup-remove gone wanted [] = ground arith
  lookup-remove gone wanted ((key, value) ∷ rest) = ground (
    arith,
    keyed.same_to gone wanted,
    keyed.same_to key gone,
    keyed.same_to key wanted,
    keyed.same_self gone,
    keyed.same_self wanted,
    keyed.same_self key,
    lookup-remove gone wanted rest,
  )

-- A property of every entry of a map.
abbrev pub AllEntries {ℓ κ} : {K V : Type ℓ} → (K → V → Type κ) → Assoc K V → Type κ
AllEntries P m = All (λ e. P e.0 e.1) m

module _ {ℓ κ} {K V : Type ℓ} (P : K → V → Type κ) where
  pub All-values : (m : Assoc K V) → AllEntries P m → All (λ v. (k : K) × P k v) (values m)
  unfolding values
  All-values [] h = tt
  All-values ((k, v) ∷ m) h = ((k, h.0), All-values m h.1)

module _ {ℓ κ} {K V : Type ℓ} ⦃keyed : Keyed K⦄ (P : K → V → Type κ) where
  pub AllEntries-insert :
      (k : K) (v : V) (m : Assoc K V) → P k v → AllEntries P m → AllEntries P (insert k v m)
  unfolding insert
  AllEntries-insert k v [] p h = (p, tt)
  AllEntries-insert k v ((j, w) ∷ m) p h = elim (Bool-cases (j == k)) [
    | inl t ↦ rw t (p, h.1)
    | inr f ↦ rw f (h.0, AllEntries-insert k v m p h.1)
  ]

  pub AllEntries-remove : (k : K) (m : Assoc K V) → AllEntries P m → AllEntries P (remove k m)
  unfolding remove
  AllEntries-remove k [] h = tt
  AllEntries-remove k ((j, w) ∷ m) h = elim (Bool-cases (j == k)) [
    | inl t ↦ rw t (AllEntries-remove k m h.1)
    | inr f ↦ rw f (h.0, AllEntries-remove k m h.1)
  ]

  pub AllEntries-lookup :
      (k : K) (v : V) (m : Assoc K V) → AllEntries P m → lookup k m ≡ some v → P k v
  unfolding lookup
  AllEntries-lookup k v [] h p = cc
  AllEntries-lookup k v ((j, w) ∷ m) h p = elim (Bool-cases (j == k)) [
    | inl t ↦ let q : w ≡ v = ground arith in subst₂ P (eq_of_beq j k t) q h.0
    | inr f ↦ AllEntries-lookup k v m h.1 (ground arith)
  ]

-- No key stands twice.
module _ {ℓ} {K V : Type ℓ} ⦃keyed : Keyed K⦄ where
  abbrev pub Distinct : Assoc K V → Type ℓ
  Distinct [] = Unit
  Distinct ((key, value) ∷ rest) = (lookup key rest ≡ none) × Distinct rest

  pub Distinct-insert :
      (new : K) (x : V) (entries : Assoc K V) → Distinct entries → Distinct (insert new x entries)
  unfolding lookup insert
  Distinct-insert new x [] d = (refl, tt)
  Distinct-insert new x ((key, value) ∷ rest) d = elim (Bool-cases (key == new)) [
    | inl t ↦
        let e : key ≡ new = keyed.same_to key new t in
        rw t (subst (λ k. lookup k rest ≡ none) e d.0, d.1)
    | inr f ↦
        let other : (new == key) ≡ false =
          ground (arith, keyed.same_to new key, keyed.same_self key) in
        rw f (rw (lookup-insert new key x rest, other) d.0, Distinct-insert new x rest d.1)
  ]

  pub Distinct-remove :
      (gone : K) (entries : Assoc K V) → Distinct entries → Distinct (remove gone entries)
  unfolding lookup remove
  Distinct-remove gone [] d = tt
  Distinct-remove gone ((key, value) ∷ rest) d = elim (Bool-cases (key == gone)) [
    | inl t ↦ rw t (Distinct-remove gone rest d.1)
    | inr f ↦
        let other : (gone == key) ≡ false =
          ground (arith, keyed.same_to gone key, keyed.same_self key) in
        rw f (rw (lookup-remove gone key rest, other) d.0, Distinct-remove gone rest d.1)
  ]
