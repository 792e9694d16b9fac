-- ===== src/Prelude/Try.antt =====
-- Chains of guards: `?` on `Result`, and `if cond { return Err(e); }`.
use ptpsim.Prelude.Outcome.{Result, ok, err}
use mathlib.Core.Path.{◌≡◌, refl}
use mathlib.Core.Bool.{Bool, true, false}
use mathlib.Core.Option.{Option, none, some}

module _ {ℓ κ μ} {E : Type ℓ} {A : Type κ} {B : Type μ} where
  infixl 5 ◌>>=◌
  abbrev pub ◌>>=◌ : Result E A → (A → Result E B) → Result E B
  ok a >>= f = f a
  err e >>= f = err e

infixl 5 ◌>>◌
abbrev pub ◌>>◌ {ℓ μ} : {E : Type ℓ} {B : Type μ} → Result E (Unit {0}) → Result E B → Result E B
m >> k = m >>= λ _. k

module _ {ℓ} {E : Type ℓ} where
  abbrev pub fail_if : Bool → E → Result E (Unit {0})
  fail_if true e = err e
  fail_if false e = ok tt

  abbrev pub ok_or {κ} : {A : Type κ} → Option A → E → Result E A
  ok_or none e = err e
  ok_or (some a) e = ok a

-- What a chain that succeeded has passed.
pub fail_if_ok {ℓ κ} :
    {E : Type ℓ} {B : Type κ} (b : Bool) (e : E) (k : Result E B) {x : B}
    → (fail_if b e >> k) ≡ ok x
    → (b ≡ false) × (k ≡ ok x)
fail_if_ok true e k h = absurd (cc h)
fail_if_ok false e k h = (refl, h)

pub fail_if_pass {ℓ κ} :
    {E : Type ℓ} {B : Type κ} (b : Bool) (e : E) {k : Result E B} {r : Result E B}
    → b ≡ false
    → k ≡ r
    → (fail_if b e >> k) ≡ r
fail_if_pass true e h s = absurd (cc h)
fail_if_pass false e h s = s
