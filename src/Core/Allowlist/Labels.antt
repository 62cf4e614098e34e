-- ===== src/Core/Allowlist/Labels.antt =====
-- The texts of the entries that the allowlist of crates/hyperbox-core/src/config.rs accepts, by a
-- grammar.
use mathlib.Core.List.{append_assoc}
use mathlib.Core.Path.{subst}
use hyperbox.Prelude.{
  ℕ, Bool, true, false, ◌&&◌, ◌||◌, [], ◌∷◌, ◌++◌, Text, codes, leb, nat_beq, all, is_some,
  starts_with, ends_with, contains_text, lower_char, to_ascii_lowercase, is_ascii_alphanumeric,
  is_ascii_uppercase, strip_suffix-append, Bool-cases, inl, inr, ◌≡◌, sym, ap, ◌∙◌, arith,
}
use hyperbox.Core.Error.{ok}
use hyperbox.Core.Allowlist.{AllowlistEntry, as_str, hostname_char, parse}
use hyperbox.Core.Allowlist.Syntax.{IsChecked, parse-IsChecked}

-- A small letter, a digit or a dash
abbrev pub is_label_char : ℕ → Bool
is_label_char c = (leb 97 c && leb c 122) || (leb 48 c && leb c 57) || nat_beq c b'-'

-- One such character or more
pub data IsLabel : Text → Type 0 where
  last : {c : ℕ} → is_label_char c ≡ true → IsLabel (c ∷ [])
  more : {c : ℕ} {s : Text} → is_label_char c ≡ true → IsLabel s → IsLabel (c ∷ s)

-- One label or more, with a dot between two of them
pub data IsDomain : Text → Type 0 where
  single : {s : Text} → IsLabel s → IsDomain s
  dotted : {s t : Text} → IsLabel s → IsDomain t → IsDomain (s ++ (b'.' ∷ t))

cons-IsDomain : {c : ℕ} {s : Text} → is_label_char c ≡ true → IsDomain s → IsDomain (c ∷ s)
cons-IsDomain h (single l) = single (more h l)
cons-IsDomain h (dotted l d) = dotted (more h l) d

label_char :
    (c : ℕ)
    → hostname_char c ≡ true
    → lower_char c ≡ c
    → nat_beq c b'.' ≡ false
    → is_label_char c ≡ true
unfolding lower_char is_ascii_alphanumeric is_ascii_uppercase
label_char c h l d = ground arith

-- A text whose characters were checked, and that was put into lower case.
record IsWritten (s : Text) : Type 0 where
  characters : all hostname_char s ≡ true
  lower_case : to_ascii_lowercase s ≡ s
  no_leading_dot : starts_with (codes ".") s ≡ false
  no_empty_label : contains_text (codes "..") s ≡ false

tail-IsWritten :
    (c d : ℕ) (s : Text) → IsWritten (c ∷ d ∷ s) → nat_beq d b'.' ≡ false → IsWritten (d ∷ s)
unfolding to_ascii_lowercase
tail-IsWritten c d s w h = record {
  characters = ground (arith, w.characters);
  lower_case = cc (w.lower_case);
  no_leading_dot = ground (arith, h);
  no_empty_label = ground (arith, w.no_empty_label);
}

-- What stands after a dot.
rest-IsWritten :
    (c d e : ℕ) (s : Text) → IsWritten (c ∷ d ∷ e ∷ s) → nat_beq d b'.' ≡ true → IsWritten (e ∷ s)
unfolding to_ascii_lowercase
rest-IsWritten c d e s w h = record {
  characters = ground (arith, w.characters);
  lower_case = cc (w.lower_case);
  no_leading_dot = ground (arith, h, w.no_empty_label);
  no_empty_label = ground (arith, w.no_empty_label);
}

head-label : (c : ℕ) (s : Text) → IsWritten (c ∷ s) → is_label_char c ≡ true
unfolding to_ascii_lowercase
head-label c s w =
    label_char c (ground (arith, w.characters)) (cc (w.lower_case))
      (ground (arith, w.no_leading_dot))

no_final_dot :
    (r : Text) (c d : ℕ) → nat_beq d b'.' ≡ true → ends_with (codes ".") (r ++ (c ∷ d ∷ [])) ≡ true
no_final_dot r c d h =
    let dot : d ≡ b'.' = ground arith in
    let e : r ++ (c ∷ d ∷ []) ≡ (r ++ (c ∷ [])) ++ codes "." =
      ap (λ x. r ++ (c ∷ x ∷ [])) dot ∙ sym (append_assoc r (c ∷ []) (codes ".")) in
    ap (λ t. ends_with (codes ".") t) e
    ∙ ap is_some (strip_suffix-append (codes ".") (r ++ (c ∷ [])))

-- `r` is what stood before.
written-IsDomain :
    (r : Text) (c : ℕ) (s : Text)
    → IsWritten (c ∷ s)
    → ends_with (codes ".") (r ++ (c ∷ s)) ≡ false
    → IsDomain (c ∷ s)
written-IsDomain r c [] w h = single (last (head-label c [] w))
written-IsDomain r c (d ∷ []) w h = elim (Bool-cases (nat_beq d b'.')) [
  | inl t ↦ absurd (cc (h, no_final_dot r c d t))
  | inr f ↦ cons-IsDomain (head-label c (d ∷ []) w) (
      written-IsDomain (r ++ (c ∷ [])) d [] (tail-IsWritten c d [] w f)
        (ap (λ t. ends_with (codes ".") t) (append_assoc r (c ∷ []) (d ∷ [])) ∙ h))
]
written-IsDomain r c (d ∷ e ∷ s) w h = elim (Bool-cases (nat_beq d b'.')) [
  | inl t ↦
      let dot : b'.' ≡ d = ground arith in
      subst (λ (x : ℕ). IsDomain (c ∷ x ∷ e ∷ s)) dot
        (dotted (last (head-label c (d ∷ e ∷ s) w)) (
          written-IsDomain (r ++ (c ∷ d ∷ [])) e s (rest-IsWritten c d e s w t)
            (ap (λ t. ends_with (codes ".") t) (append_assoc r (c ∷ d ∷ []) (e ∷ s)) ∙ h)))
  | inr f ↦ cons-IsDomain (head-label c (d ∷ e ∷ s) w) (
      written-IsDomain (r ++ (c ∷ [])) d (e ∷ s) (tail-IsWritten c d (e ∷ s) w f)
        (ap (λ t. ends_with (codes ".") t) (append_assoc r (c ∷ []) (d ∷ e ∷ s)) ∙ h))
]

checked-IsDomain : (s : Text) → IsChecked s → IsDomain s
checked-IsDomain [] k = absurd (cc (k.nonempty))
checked-IsDomain (c ∷ s) k =
    written-IsDomain [] c s
      (record {
        characters = k.characters;
        lower_case = k.lower_case;
        no_leading_dot = k.no_leading_dot;
        no_empty_label = k.no_empty_label;
      })
      k.no_trailing_dot

-- The name that an accepted entry holds is made of labels with a dot between two of them, each of
-- one or more small letters, digits and dashes.
pub parse-IsDomain : (raw : Text) (e : AllowlistEntry) → parse raw ≡ ok e → IsDomain (as_str e)
parse-IsDomain raw e h = checked-IsDomain (as_str e) (parse-IsChecked raw e h)
