-- ===== src/Prelude/Result.antt =====
-- Go's `(value, error)`: a value or an error, with the bind of `if err != nil { return err }`.
use mathlib.Core.Bool.{Bool, true, false}
use mathlib.Core.Option.{Option, none, some}
use mathlib.Core.Path.{◌≡◌, refl}
use mathlib.Core.Logic.{◌⊎◌, inl, inr}

pub data Result {ℓ κ} (E : Type ℓ) (A : Type κ) : Type (ℓ ⊔ κ) where
  ok : A → Result E A
  err : E → Result E A

infixl 5 ◌>>=◌ ◌>>◌
abbrev pub ◌>>=◌ {ℓ κ ι} :
    {E : Type ℓ} {A : Type κ} {B : Type ι} → Result E A → (A → Result E B) → Result E B
ok a >>= f = f a
err e >>= f = err e

abbrev pub ◌>>◌ {ℓ ι} : {E : Type ℓ} {B : Type ι} → Result E (Unit {0}) → Result E B → Result E B
m >> k = m >>= λ _. k

-- `if cond { return err }`
abbrev pub refuse_if {ℓ} : {E : Type ℓ} → Bool → E → Result E (Unit {0})
refuse_if true e = err e
refuse_if false e = ok tt

abbrev pub or_fail {ℓ κ} : {E : Type ℓ} {A : Type κ} → Option A → E → Result E A
or_fail none e = err e
or_fail (some a) e = ok a

pub err_not_ok {ℓ κ ι} :
    {E : Type ℓ} {A : Type κ} {C : Type ι} {e : E} {a : A} → Result.err e ≡ Result.ok a → C
err_not_ok h = absurd cc

-- A result that is two values shows them equal.
pub ok_unique {ℓ κ} :
    {E : Type ℓ} {A : Type κ} {r : Result E A} {a b : A} → r ≡ ok a → r ≡ ok b → a ≡ b
ok_unique g h = cc

pub Result-cases {ℓ κ} :
    {E : Type ℓ} {A : Type κ} (r : Result E A) → ((e : E) × (r ≡ err e)) ⊎ ((a : A) × (r ≡ ok a))
Result-cases (ok a) = inr (a, refl)
Result-cases (err e) = inl (e, refl)

-- A check that was passed, and what follows it.
pub passed {ℓ κ} :
    {E : Type ℓ} {A : Type κ} {a : A} (b : Bool) (e : E) (k : Result E A)
    → (refuse_if b e >> k) ≡ ok a
    → (b ≡ false) × (k ≡ ok a)
passed true e k h = err_not_ok h
passed false e k h = (refl, h)

pub succeeded {ℓ κ} :
    {E : Type ℓ} {A : Type κ} {a : A} (r : Result E (Unit {0})) (k : Result E A)
    → (r >> k) ≡ ok a
    → (r ≡ ok tt) × (k ≡ ok a)
succeeded (ok tt) k h = (refl, h)
succeeded (err e) k h = err_not_ok h
