-- ===== src/Server/Naming/Shape.antt =====
-- The shape of the names of automatic sessions in crates/hyperbox-server/src/runtime.rs.
use mathlib.Core.List.{reverse-cons}
use hyperbox.Prelude.{
  ℕ, zero, suc, ◌+◌, ◌/◌, ◌%◌, ◌≤◌, ◌<◌, Bool, true, false, ◌&&◌, ◌||◌, Option, [], ◌∷◌, ◌++◌, map,
  reverse, Text, codes, length, length-append, length-take-le, all, all-append, take,
  trim_start_matches, trim_matches, is_ascii_uppercase, leb, nat_beq, is_empty, if◌then◌else◌,
  Bool-cases, inl, inr, ◌≡◌, refl, ◌∙◌, arith,
}
use hyperbox.Core.Config.{NetworkMode}
use hyperbox.Server.Naming.{
  hex_digit, hex_digits, hex16, sanitize_char, is_dash, sanitize_affinity_component,
  derive_auto_run_affinity_name, fnv1a64, utf8, auto_run_scope,
}

-- The characters of a name.
abbrev pub name_char : ℕ → Bool
name_char c = (leb b'a' c && leb c b'z') || (leb b'0' c && leb c b'9') || nat_beq c b'-'

-- A text of at most `n` characters, all of them a name's.
abbrev Fits : ℕ → Text → Type 0
Fits n s = (length s ≤ n) × (all name_char s ≡ true)

sanitize_char-name : (c : ℕ) → name_char (sanitize_char c) ≡ true
unfolding sanitize_char is_ascii_uppercase
sanitize_char-name c = ground arith

sanitize-all : (s : Text) → all name_char (map sanitize_char s) ≡ true
sanitize-all [] = refl
sanitize-all (c ∷ s) = ground (arith, sanitize_char-name c, sanitize-all s)

length-sanitize : (s : Text) → length (map sanitize_char s) ≡ length s
length-sanitize [] = refl
length-sanitize (c ∷ s) = omega (arith, length-sanitize s)

Fits-append : (m n : ℕ) (s t : Text) → Fits m s → Fits n t → Fits (m + n) (s ++ t)
Fits-append m n s t a b =
    (omega (arith, length-append s t, a.0, b.0), ground (arith, all-append name_char s t, a.1, b.1))

Fits-trim_start : (n : ℕ) (p : ℕ → Bool) (s : Text) → Fits n s → Fits n (trim_start_matches p s)
Fits-trim_start n p [] a = a
Fits-trim_start n p (c ∷ s) a = elim (Bool-cases (p c)) [
  | inl t ↦ rw t (Fits-trim_start n p s (omega arith, ground arith))
  | inr f ↦ rw f a
]

length-reverse : (s : Text) → length (reverse s) ≡ length s
length-reverse [] = refl
length-reverse (c ∷ s) =
    rw (reverse-cons c s, length-append (reverse s) (c ∷ [])) (omega (arith, length-reverse s))

all-reverse : (s : Text) → all name_char (reverse s) ≡ all name_char s
all-reverse [] = refl
all-reverse (c ∷ s) =
    rw (reverse-cons c s, all-append name_char (reverse s) (c ∷ []), all-reverse s) (ground arith)

Fits-reverse : (n : ℕ) (s : Text) → Fits n s → Fits n (reverse s)
Fits-reverse n s a = (omega (arith, length-reverse s, a.0), all-reverse s ∙ a.1)

Fits-trim : (n : ℕ) (p : ℕ → Bool) (s : Text) → Fits n s → Fits n (trim_matches p s)
Fits-trim n p s a =
    Fits-reverse n _ (Fits-trim_start n p _ (Fits-reverse n _ (Fits-trim_start n p s a)))

all-take : (n : ℕ) (s : Text) → all name_char s ≡ true → all name_char (take n s) ≡ true
all-take zero s h = refl
all-take (suc n) [] h = refl
all-take (suc n) (c ∷ s) h = ground (arith, all-take n s)

Fits-take : (m n : ℕ) (s : Text) → Fits m s → Fits n (take n s)
Fits-take m n s a = (length-take-le n s, all-take n s a.1)

sanitize_affinity_component-Fits :
    (raw : Text) (n : ℕ) → 7 ≤ n → Fits n (sanitize_affinity_component raw n)
unfolding sanitize_affinity_component
sanitize_affinity_component-Fits raw n le = by_test (is_empty trimmed)
  where
    trimmed : Text
    trimmed = trim_matches is_dash (take n (trim_matches is_dash (map sanitize_char raw)))

    fits : Fits n trimmed
    fits = Fits-trim n is_dash _ (
        Fits-take (length raw) n _ (
          Fits-trim (length raw) is_dash (map sanitize_char raw)
            (omega (arith, length-sanitize raw), sanitize-all raw)))

    by_test : (b : Bool) → Fits n (if b then codes "sandbox" else trimmed)
    by_test true = (omega arith, refl)
    by_test false = fits

hex_digit-name : (d : ℕ) → d < 16 → name_char (hex_digit d) ≡ true
unfolding hex_digit
hex_digit-name d h = ground arith

length-hex_digits :
    (count n : ℕ) (out : Text) → length (hex_digits count n out) ≡ count + length out
unfolding hex_digits
length-hex_digits zero n out = omega arith
length-hex_digits (suc count) n out =
    omega (arith, length-hex_digits count (n / 16) (hex_digit (n % 16) ∷ out))

hex_digits-name :
    (count n : ℕ) (out : Text)
    → all name_char out ≡ true
    → all name_char (hex_digits count n out) ≡ true
unfolding hex_digits
hex_digits-name zero n out h = h
hex_digits-name (suc count) n out h =
    hex_digits-name count (n / 16) _ (ground (arith, hex_digit-name (n % 16) (omega arith)))

hex16-Fits : (n : ℕ) → Fits 16 (hex16 n)
unfolding hex16
hex16-Fits n = (omega (arith, length-hex_digits 16 n []), hex_digits-name 16 n [] refl)

-- The name of an automatic session has at most 40 characters, each a lower-case letter, a digit or
-- a dash, whatever the template, the workspace and the network mode are.
pub derive_auto_run_affinity_name-Fits :
    (template : Text) (workspace_dir : Option Text) (network : NetworkMode)
    → (length (derive_auto_run_affinity_name template workspace_dir network) ≤ 40)
      × (all name_char (derive_auto_run_affinity_name template workspace_dir network) ≡ true)
unfolding derive_auto_run_affinity_name
derive_auto_run_affinity_name-Fits template workspace_dir network =
    let hash = fnv1a64 (utf8 (auto_run_scope template workspace_dir network)) in
    let component = sanitize_affinity_component template 18 in
    Fits-append 5 35 (codes "auto-") (component ++ (codes "-" ++ hex16 hash)) (omega arith, refl)
      (Fits-append 18 17 component (codes "-" ++ hex16 hash)
        (sanitize_affinity_component-Fits template 18 (omega arith))
        (Fits-append 1 16 (codes "-") (hex16 hash) (omega arith, refl) (hex16-Fits hash)))
