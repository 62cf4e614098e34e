-- ===== src/Prelude/Numbers.antt =====
-- Integers, and the decimal parsers of Rust's standard library that the program calls.
use Prim.Native.Nat.{ℕ, zero, suc, ◌+◌, ◌-◌, ◌*◌, ◌/◌, ◌%◌, ◌^◌}
use mathlib.Core.Path.{◌≡◌, refl}
use mathlib.Core.Bool.{◌&&◌}
use mathlib.Core.Option.{Option, none, some}
use mathlib.Core.List.{[], ◌∷◌}
use hyperbox.Prelude.Tests.{ltb, leb, nat_beq, if◌then◌else◌}
use hyperbox.Prelude.Texts.{Text, codes}

-- `negsuc n` is -(n + 1).
pub data ℤ : Type 0 where
  pos negsuc : ℕ → ℤ

-- Digits after `acc`; `none` at a character that is no digit.
pub parse_digits : ℕ → Text → Option ℕ
parse_digits acc [] = some acc
parse_digits acc (c ∷ s) =
    let rest = parse_digits (acc * 10 + (c - b'0')) s in
    if leb b'0' c && leb c b'9' then rest else none

-- At least one digit.
pub parse_decimal : Text → Option ℕ
unfolding parse_digits
parse_decimal [] = none
parse_decimal (c ∷ s) = parse_digits 0 (c ∷ s)

abbrev below : ℕ → Option ℕ → Option ℕ
below bound none = none
below bound (some n) = if ltb n bound then some n else none

-- `parse::<uN>()`: an optional `+`, digits, and a value below `bound`.
unfoldable pub parse_unsigned : ℕ → Text → Option ℕ
unfolding parse_decimal
parse_unsigned bound [] = none
parse_unsigned bound (c ∷ s) =
    below bound (if nat_beq c b'+' then parse_decimal s else parse_decimal (c ∷ s))

abbrev to_pos : Option ℕ → Option ℤ
to_pos none = none
to_pos (some n) = some (pos n)

abbrev to_neg : Option ℕ → Option ℤ
to_neg none = none
to_neg (some zero) = some (pos 0)
to_neg (some (suc n)) = some (negsuc n)

-- `parse::<iN>()` for an integer from `-bound` to `bound - 1`
unfoldable pub parse_signed : ℕ → Text → Option ℤ
unfolding parse_unsigned
parse_signed bound [] = none
parse_signed bound (c ∷ s) =
    if nat_beq c b'-'
    then to_neg (below (bound + 1) (parse_decimal s))
    else to_pos (parse_unsigned bound (c ∷ s))

abbrev pub parse_i32 : Text → Option ℤ
parse_i32 = parse_signed (2 ^ 31)

-- `x.to_string()` for an unsigned number, most significant digit first; `fuel` bounds the digits.
print_digits : ℕ → ℕ → Text → Text
print_digits zero n out = out
print_digits (suc fuel) n out =
    let shorter = print_digits fuel (n / 10) ((b'0' + n % 10) ∷ out) in
    if ltb n 10 then (b'0' + n) ∷ out else shorter

-- A number below 10 ^ 40, which holds every `u128`.
unfoldable pub print : ℕ → Text
unfolding print_digits
print n = print_digits 40 n []

unfoldable pub print_i32 : ℤ → Text
unfolding print
print_i32 (pos n) = print n
print_i32 (negsuc n) = b'-' ∷ print (suc n)

parse_tests :
    (parse_i32 (codes "-15") ≡ some (negsuc 14))
    × (parse_i32 (codes "2147483648") ≡ none)
    × (parse_i32 (codes "-2147483648") ≡ some (negsuc 2147483647))
    × (parse_unsigned (2 ^ 32) (codes "+7") ≡ some 7)
    × (parse_unsigned (2 ^ 32) (codes "") ≡ none)
    × (print 1050 ≡ codes "1050")
unfolding parse_signed print
parse_tests = (refl, refl, refl, refl, refl, refl)
