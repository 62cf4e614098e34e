-- ===== src/Core/Error.antt =====
-- crates/hyperbox-core/src/error.rs, and Rust's `Result`.
use hyperbox.Prelude.{
  ◌⊎◌, inl, inr, ◌++◌, Bool, true, false, Option, none, some, Text, codes, ◌≡◌, refl,
}

pub data Result {ℓ} (E A : Type ℓ) : Type ℓ where
  ok : A → Result E A
  err : E → Result E A

infixl 5 ◌>>=◌
abbrev pub ◌>>=◌ {ℓ} : {E A B : Type ℓ} → Result E A → (A → Result E B) → Result E B
ok a >>= f = f a
err e >>= f = err e

abbrev pub is_ok {ℓ} : {E A : Type ℓ} → Result E A → Bool
is_ok (ok a) = true
is_ok (err e) = false

pub Result-cases {ℓ} :
    {E A : Type ℓ} (r : Result E A) → ((a : A) × (r ≡ ok a)) ⊎ ((e : E) × (r ≡ err e))
Result-cases (ok a) = inl (a, refl)
Result-cases (err e) = inr (e, refl)

-- `Result::ok`
abbrev pub to_option {ℓ} : {E A : Type ℓ} → Result E A → Option A
to_option (ok a) = some a
to_option (err e) = none

-- `Option::ok_or_else`
abbrev pub ok_or {ℓ} : {E A : Type ℓ} → Option A → E → Result E A
ok_or none e = err e
ok_or (some a) e = ok a

-- The payload of `io` and `serde` is the text that the wrapped error displays.
pub data HyperboxError : Type 0 where
  invalid_config template_not_found sandbox_not_found execution_failed io serde :
      Text → HyperboxError

-- The `Display` that `thiserror` derives from the `#[error]` attributes.
unfoldable pub display : HyperboxError → Text
display (invalid_config m) = codes "invalid config: " ++ m
display (template_not_found m) = codes "template not found: " ++ m
display (sandbox_not_found m) = codes "sandbox not found: " ++ m
display (execution_failed m) = codes "execution failed: " ++ m
display (io m) = codes "io error: " ++ m
display (serde m) = codes "serialization error: " ++ m
