-- ===== src/Server/Monad.antt =====
-- Async methods that change shared state and may fail: an action takes the state of the world and
-- returns its result beside the state that it leaves, also when it fails. A method runs without
-- interleaving; the `.await` points are not scheduling points here.
use mathlib.Core.Logic.{ite}
use mathlib.Core.Path.{subst}
use hyperbox.Prelude.{ap, ◌≡◌, refl, Bool, true, false, if◌then◌else◌}
use hyperbox.Core.Error.{Result, ok, err, HyperboxError}

abbrev pub Action : Type 0 → Type 0 → Type 0 → Type 0
Action E W A = W → Result E A × W

-- A method of the server
abbrev pub M : Type 0 → Type 0 → Type 0
M = Action HyperboxError

module _ {E W A : Type 0} where
  pub pure : A → Action E W A
  pure a w = (ok a, w)

  -- `return Err(e)`
  pub throw : E → Action E W A
  throw e w = (err e, w)

  pub lift : Result E A → Action E W A
  lift r w = (r, w)

  pub gets : (W → A) → Action E W A
  gets f w = (ok (f w), w)

  -- The result of a call that the caller matches on instead of passing its error up.
  pub attempt : Action E W A → Action E W (Result E A)
  attempt m w = let (r, w') = m w in (ok r, w')

pub modify : {E W : Type 0} → (W → W) → Action E W (Unit {0})
modify f w = (ok tt, f w)

module _ {E W A B : Type 0} where
  abbrev pub continue : Result E A → (A → Action E W B) → Action E W B
  continue (ok a) f w = f a w
  continue (err e) f w = (err e, w)

  infixl 10 ◌>>=◌ ◌>>◌
  unfoldable pub ◌>>=◌ : Action E W A → (A → Action E W B) → Action E W B
  unfolding pure throw lift gets attempt modify
  ◌>>=◌ m f w = let (r, w') = m w in continue r f w'

  abbrev pub ◌>>◌ : Action E W A → Action E W B → Action E W B
  m >> n = m >>= λ _. n

-- A method that keeps a property of the state, whether it returns or fails.
pub record Preserves {E W A : Type 0} (P : W → Type 0) (m : Action E W A) : Type 0 where
  pub holds_at : (w : W) → P w → P (m w).1

module _ {E W A : Type 0} {P : W → Type 0} where
  pub Preserves-pure : (a : A) → Preserves {E = E} P (pure a)
  unfolding pure
  Preserves-pure a = record { holds_at = λ w h. h }

  pub Preserves-throw : (e : E) → Preserves P (throw {A = A} e)
  unfolding throw
  Preserves-throw e = record { holds_at = λ w h. h }

  pub Preserves-lift : (r : Result E A) → Preserves P (lift r)
  unfolding lift
  Preserves-lift r = record { holds_at = λ w h. h }

  pub Preserves-gets : (f : W → A) → Preserves {E = E} P (gets f)
  unfolding gets
  Preserves-gets f = record { holds_at = λ w h. h }

  pub Preserves-attempt : (m : Action E W A) → Preserves P m → Preserves P (attempt m)
  unfolding attempt
  Preserves-attempt m k = record { holds_at = λ w h. k.holds_at w h }

  pub Preserves-if :
      (b : Bool) (m n : Action E W A)
      → (b ≡ true → Preserves P m)
      → (b ≡ false → Preserves P n)
      → Preserves P (if b then m else n)
  Preserves-if true m n k l = k refl
  Preserves-if false m n k l = l refl

module _ {κ} {E W A : Type 0} {P : W → Type 0} {Q : Type κ} where
  pub Preserves-ite :
      (d : Dec Q) (m n : Action E W A) → Preserves P m → Preserves P n → Preserves P (ite d m n)
  Preserves-ite (yes q) m n k l = k
  Preserves-ite (no q) m n k l = l

module _ {E W A B : Type 0} {P : W → Type 0} where
  pub Preserves-continue :
      (r : Result E A) (f : A → Action E W B) (w : W)
      → ((a : A) → Preserves P (f a))
      → P w
      → P (continue r f w).1
  Preserves-continue (ok a) f w k h = (k a).holds_at w h
  Preserves-continue (err e) f w k h = h

  pub Preserves-bind :
      (m : Action E W A) (f : A → Action E W B)
      → Preserves P m
      → ((a : A) → Preserves P (f a))
      → Preserves P (m >>= f)
  unfolding ◌>>=◌
  Preserves-bind m f k l = record {
    holds_at = λ w h. let (r, w') = m w in Preserves-continue r f w' l (k.holds_at w h);
  }

  -- The rest may use the state in which a value was read.
  pub Preserves-bind-gets :
      (g : W → A) (f : A → Action E W B)
      → ((w : W) → P w → P (f (g w) w).1)
      → Preserves P (gets g >>= f)
  unfolding ◌>>=◌
  Preserves-bind-gets g f k = record { holds_at = k }

  -- The rest may use that the first part returned its value.
  pub Preserves-bind-seen :
      (m : Action E W A) (f : A → Action E W B)
      → Preserves P m
      → ((a : A) (w u : W) → m w ≡ (ok a, u) → Preserves P (f a))
      → Preserves P (m >>= f)
  unfolding ◌>>=◌
  Preserves-bind-seen m f k l = record { holds_at = λ w h. by_result (m w) w refl (k.holds_at w h) }
    where
      by_result : (r : Result E A × W) (w : W) → m w ≡ r → P r.1 → P (continue r.0 f r.1).1
      by_result (ok a, u) w e h = (l a w u e).holds_at u h
      by_result (err x, u) w e h = h

pub ruleset preserves_rules = (
  Preserves-pure, Preserves-throw, Preserves-lift, Preserves-gets, Preserves-attempt, Preserves-if,
  Preserves-ite, Preserves-bind,
)

-- A chain that returns has a first part that returns, in a state from which the rest returns.
pub record Returned {E W A B : Type 0} (m : Action E W A) (f : A → Action E W B) (w : W) (b : B)
    (v : W) : Type 0 where
  pub value : A
  pub state : W
  pub first : m w ≡ (ok value, state)
  pub rest : f value state ≡ (ok b, v)

module _ {E W A B : Type 0} where
  pub bind-Returned :
      (m : Action E W A) (f : A → Action E W B) (w v : W) (b : B)
      → (m >>= f) w ≡ (ok b, v)
      → Returned m f w b v
  unfolding ◌>>=◌
  bind-Returned m f w v b h = by_result (m w) refl h
    where
      by_result :
          (r : Result E A × W) → m w ≡ r → continue r.0 f r.1 ≡ (ok b, v) → Returned m f w b v
      by_result (ok a, u) e g = record { value = a; state = u; first = e; rest = g }
      by_result (err x, u) e g = cc

-- A state reached by a method that keeps a property has it.
pub Preserves-to :
    {E W A : Type 0} {P : W → Type 0} {m : Action E W A} {w u : W} {r : Result E A}
    → Preserves P m
    → P w
    → m w ≡ (r, u)
    → P u
Preserves-to {E = E} {P = P} {w = w} k h e =
    subst (λ (x : Result E _ × _). P x.1) e (k.holds_at w h)

pub pure-Returned :
    {E W A : Type 0} (a b : A) (w v : W) → pure {E = E} a w ≡ (ok b, v) → (a ≡ b) × (w ≡ v)
unfolding pure
pure-Returned a b w v h = (cc, cc)

pub lift-Returned :
    {E W A : Type 0} (r : Result E A) (a : A) (w v : W)
    → lift r w ≡ (ok a, v)
    → (r ≡ ok a) × (w ≡ v)
unfolding lift
lift-Returned {E = E} {W = W} {A = A} r a w v h =
    (ap (λ (x : Result E A × W). x.0) h, ap (λ (x : Result E A × W). x.1) h)

pub gets-Returned :
    {E W A : Type 0} (f : W → A) (a : A) (w v : W)
    → gets {E = E} f w ≡ (ok a, v)
    → (f w ≡ a) × (w ≡ v)
unfolding gets
gets-Returned f a w v h = (cc, cc)

-- What holds of every error, and of what the rest returns from each value and state of the first
-- part, holds of the result of the chain.
pub bind-elim :
    {E W A B : Type 0} (C : Result E B → Type 0) (m : Action E W A) (f : A → Action E W B) (w : W)
    → ((e : E) → C (err e))
    → ((a : A) (u : W) → m w ≡ (ok a, u) → C (f a u).0)
    → C ((m >>= f) w).0
unfolding ◌>>=◌
bind-elim {E} {W} {A} C m f w on_err on_ok = by_result (m w) refl
  where
    by_result : (o : Result E A × W) → m w ≡ o → C (continue o.0 f o.1).0
    by_result (ok a, u) e = on_ok a u e
    by_result (err x, u) e = on_err x

-- What holds of the state after two parts, by that after the first or after both.
pub bind-elim_state :
    {E W A B : Type 0} (C : W → Type 0) (m : Action E W A) (f : A → Action E W B) (w : W)
    → C (m w).1
    → ((a : A) (u : W) → m w ≡ (ok a, u) → C (f a u).1)
    → C ((m >>= f) w).1
unfolding ◌>>=◌
bind-elim_state {E} {W} {A} C m f w h k = by_result (m w) refl h
  where
    by_result : (o : Result E A × W) → m w ≡ o → C o.1 → C (continue o.0 f o.1).1
    by_result (ok a, u) e g = k a u e
    by_result (err x, u) e g = g

-- A value that is returned has a property.
pub record Yields {E W A : Type 0} (P : A → Type 0) (m : Action E W A) : Type 0 where
  pub yields : (w u : W) (a : A) → m w ≡ (ok a, u) → P a

pub Yields-pure :
    {E W B : Type 0} {P : B → Type 0} (b : B) → P b → Yields {E = E} {W = W} P (pure b)
Yields-pure {P = P} b p = record { yields = λ w u a h. subst P (pure-Returned b a w u h).0 p }

pub Yields-bind :
    {E W A B : Type 0} {P : B → Type 0} (m : Action E W A) (f : A → Action E W B)
    → ((a : A) → Yields P (f a))
    → Yields P (m >>= f)
Yields-bind m f k = record {
  yields = λ w u b h. let r = bind-Returned m f w u b h in (k r.value).yields r.state u b r.rest;
}
