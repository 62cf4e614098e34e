-- ===== src/Prelude/TextLaws.antt =====
-- What the string operations split and keep.
use mathlib.Core.List.{reverse-cons, reverse-reverse, reverse-append}
use Prim.Native.Nat.{ℕ}
use mathlib.Core.Path.{◌≡◌, refl, sym, ap, ◌∙◌}
use mathlib.Core.Logic.{inl, inr}
use mathlib.Core.Bool.{Bool, false}
use mathlib.Core.Option
use mathlib.Core.Option.{Option, none, some}
use mathlib.Core.List.{[], ◌∷◌, ◌++◌, reverse}
use native.Mathlib.Omega.{arith}
use hyperbox.Prelude.Tests.{Option-cases}
use hyperbox.Prelude.Lists.{any, any-append}
use hyperbox.Prelude.Texts.{
  Text, strip_prefix, strip_suffix, trim_start_matches, trim_matches, trim, is_whitespace,
  lower_char, to_ascii_lowercase,
}

-- `strip_prefix` finds exactly the texts that begin with the prefix.
pub strip_prefix-append : (p r : Text) → strip_prefix p (p ++ r) ≡ some r
strip_prefix-append [] r = refl
strip_prefix-append (c ∷ p) r = ground (arith, strip_prefix-append p r)

pub strip_prefix_to : (p s : Text) {r : Text} → strip_prefix p s ≡ some r → s ≡ p ++ r
strip_prefix_to [] s h = ground arith
strip_prefix_to (c ∷ p) [] h = cc
strip_prefix_to (c ∷ p) (d ∷ s) {r} h = ground (arith, strip_prefix_to p s {r = r})

pub strip_suffix-append : (p r : Text) → strip_suffix p (r ++ p) ≡ some r
strip_suffix-append p r =
    rw (reverse-append r p, strip_prefix-append (reverse p) (reverse r), reverse-reverse r)

pub strip_suffix_to : (p s : Text) {r : Text} → strip_suffix p s ≡ some r → s ≡ r ++ p
strip_suffix_to p s {r} h = elim (Option-cases (strip_prefix (reverse p) (reverse s))) [
  | inl e ↦ cc (ap (Option.map reverse) e)
  | inr (q, e) ↦
      sym (reverse-reverse s)
      ∙ ap reverse (strip_prefix_to (reverse p) (reverse s) e)
      ∙ reverse-append (reverse p) q
      ∙ rw (reverse-reverse p) (ap (λ t. t ++ p) (found q e))
]
  where
    found : (q : Text) → strip_prefix (reverse p) (reverse s) ≡ some q → reverse q ≡ r
    found q e = cc (ap (Option.map reverse) e)

module _ (p : ℕ → Bool) where
  pub any-reverse : (s : Text) → any p (reverse s) ≡ any p s
  any-reverse [] = refl
  any-reverse (c ∷ s) =
      rw (reverse-cons c s, any-append p (reverse s) (c ∷ []), any-reverse s) (ground arith)

  pub trim_start_matches_none : (s : Text) → any p s ≡ false → trim_start_matches p s ≡ s
  trim_start_matches_none [] h = refl
  trim_start_matches_none (c ∷ s) h = ground arith

  pub trim_matches_none : (s : Text) → any p s ≡ false → trim_matches p s ≡ s
  trim_matches_none s h =
      rw (trim_start_matches_none s h, trim_start_matches_none (reverse s) (any-reverse s ∙ h))
        (reverse-reverse s)

-- A text with no white space is its own trimming.
pub trim_none : (s : Text) → any is_whitespace s ≡ false → trim s ≡ s
unfolding trim
trim_none s h = trim_matches_none is_whitespace s h

lower_char_idem : (c : ℕ) → lower_char (lower_char c) ≡ lower_char c
unfolding lower_char
lower_char_idem c = ground arith

pub lower_idem : (s : Text) → to_ascii_lowercase (to_ascii_lowercase s) ≡ to_ascii_lowercase s
unfolding to_ascii_lowercase
lower_idem [] = refl
lower_idem (c ∷ s) = rw (lower_char_idem c) (ap (◌∷◌ (lower_char c)) (lower_idem s))
