-- ===== src/Prelude/Texts.antt =====
-- Texts as lists of code points, with the string operations of Rust's standard library that the
-- program calls.
use Prim.Native.Nat.{ℕ, ◌+◌}
use Prim.Native.Char.{code}
use Prim.Native.String.{String}
use mathlib.Core.Path.{◌≡◌, refl}
use mathlib.Core.Logic.{◌↔◌}
use mathlib.Core.Bool.{Bool, true, false, ◌&&◌, ◌||◌}
use mathlib.Core.Option
use mathlib.Core.Option.{Option, none, some}
use mathlib.Core.List.{List, [], ◌∷◌, ◌++◌, map, reverse}
use native.Mathlib.Omega.{arith}
use hyperbox.Prelude.Tests.{leb, nat_beq, if◌then◌else◌, Keyed}
use hyperbox.Prelude.Lists.{any}

abbrev pub Text : Type 0
Text = List ℕ

-- A literal.
abbrev pub codes : String → Text
codes String.[] = []
codes (String.◌∷◌ c s) = code c ∷ codes s

-- `==` on strings
abbrev pub text_beq : Text → Text → Bool
text_beq [] [] = true
text_beq [] (d ∷ t) = false
text_beq (c ∷ s) [] = false
text_beq (c ∷ s) (d ∷ t) = nat_beq c d && text_beq s t

pub text_beq_to : (s t : Text) → text_beq s t ≡ true → s ≡ t
text_beq_to [] [] h = refl
text_beq_to [] (d ∷ t) h = cc
text_beq_to (c ∷ s) [] h = cc
text_beq_to (c ∷ s) (d ∷ t) h = ground (arith, text_beq_to s t)

pub text_beq_refl : (s : Text) → text_beq s s ≡ true
text_beq_refl [] = refl
text_beq_refl (c ∷ s) = ground (arith, text_beq_refl s)

pub text_beq_iff : (s t : Text) → (text_beq s t ≡ true) ↔ (s ≡ t)
text_beq_iff s t = (text_beq_to s t, λ h. ground (arith, text_beq_refl s))

instance abbrev pub text_eq : Keyed Text
text_eq = record { same = text_beq; same_to = text_beq_to; same_self = text_beq_refl }

abbrev pub is_empty {ℓ} : {A : Type ℓ} → List A → Bool
is_empty [] = true
is_empty (x ∷ xs) = false

-- `str::strip_prefix`, the prefix first
abbrev pub strip_prefix : Text → Text → Option Text
strip_prefix [] s = some s
strip_prefix (p ∷ ps) [] = none
strip_prefix (p ∷ ps) (c ∷ s) = if nat_beq p c then strip_prefix ps s else none

abbrev pub is_some {ℓ} : {A : Type ℓ} → Option A → Bool
is_some none = false
is_some (some a) = true

abbrev pub starts_with : Text → Text → Bool
starts_with p s = is_some (strip_prefix p s)

-- `str::strip_suffix`, the suffix first
abbrev pub strip_suffix : Text → Text → Option Text
strip_suffix p s = Option.map reverse (strip_prefix (reverse p) (reverse s))

abbrev pub ends_with : Text → Text → Bool
ends_with p s = is_some (strip_suffix p s)

-- `str::contains` with a character, with a predicate, and with a text
abbrev pub contains_char : ℕ → Text → Bool
contains_char c s = any (λ d. nat_beq d c) s

abbrev pub contains_text : Text → Text → Bool
contains_text p [] = is_empty p
contains_text p (c ∷ s) = starts_with p (c ∷ s) || contains_text p s

-- `char::is_whitespace`: Unicode's White_Space
unfoldable pub is_whitespace : ℕ → Bool
is_whitespace c =
    (leb 9 c && leb c 13)
    || nat_beq c 32
    || nat_beq c 133
    || nat_beq c 160
    || nat_beq c 5760
    || (leb 8192 c && leb c 8202)
    || nat_beq c 8232
    || nat_beq c 8233
    || nat_beq c 8239
    || nat_beq c 8287
    || nat_beq c 12288

-- `trim_start_matches` and `trim_matches` by a test on characters
abbrev pub trim_start_matches : (ℕ → Bool) → Text → Text
trim_start_matches p [] = []
trim_start_matches p (c ∷ s) = if p c then trim_start_matches p s else c ∷ s

abbrev pub trim_end_matches : (ℕ → Bool) → Text → Text
trim_end_matches p s = reverse (trim_start_matches p (reverse s))

abbrev pub trim_matches : (ℕ → Bool) → Text → Text
trim_matches p s = trim_end_matches p (trim_start_matches p s)

unfoldable pub trim : Text → Text
unfolding is_whitespace
trim = trim_matches is_whitespace

unfoldable pub is_ascii_uppercase : ℕ → Bool
is_ascii_uppercase c = leb 65 c && leb c 90

-- `char::to_ascii_lowercase` and `str::to_ascii_lowercase`
unfoldable pub lower_char : ℕ → ℕ
unfolding is_ascii_uppercase
lower_char c = if is_ascii_uppercase c then c + 32 else c

unfoldable pub to_ascii_lowercase : Text → Text
unfolding lower_char
to_ascii_lowercase = map lower_char

unfoldable pub is_ascii_alphanumeric : ℕ → Bool
is_ascii_alphanumeric c =
    (leb 48 c && leb c 57) || (leb 65 c && leb c 90) || (leb 97 c && leb c 122)

-- `split_whitespace`: the words between white space, with the characters of the word begun.
unfoldable pub split_whitespace : Text → Text → List Text
split_whitespace word [] = if is_empty word then [] else word ∷ []
split_whitespace word (c ∷ s) =
    let next = split_whitespace [] s in
    let more = split_whitespace (word ++ (c ∷ [])) s in
    if is_whitespace c then (if is_empty word then next else word ∷ next) else more

-- `split_once`, for a separator that is not empty
abbrev keep_char : ℕ → Option (Text × Text) → Option (Text × Text)
keep_char c none = none
keep_char c (some (head, tail)) = some (c ∷ head, tail)

abbrev found_or : Option Text → Option (Text × Text) → Option (Text × Text)
found_or none rest = rest
found_or (some tail) rest = some ([], tail)

unfoldable pub split_once : Text → Text → Option (Text × Text)
split_once sep [] = none
split_once sep (c ∷ s) = found_or (strip_prefix sep (c ∷ s)) (keep_char c (split_once sep s))

-- `lines().next().unwrap_or_default()`
abbrev without : Text → Option Text → Text
without line none = line
without line (some shorter) = shorter

abbrev line_of : Text → Option (Text × Text) → Text
line_of s none = s
line_of s (some (line, rest)) = without line (strip_suffix (13 ∷ []) line)

unfoldable pub first_line : Text → Text
unfolding split_once
first_line s = line_of s (split_once (10 ∷ []) s)
