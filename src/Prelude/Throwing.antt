-- ===== src/Prelude/Throwing.antt =====
-- A computation that returns a value or throws, and its `do` blocks.
use mathlib.Core.Path.{◌≡◌, refl}
use mathlib.Core.Logic.{◌⊎◌, inl, inr}

pub data Result {ℓ κ} (Error : Type ℓ) (Value : Type κ) : Type (ℓ ⊔ κ) where
  ok : Value → Result Error Value
  throw : Error → Result Error Value

module _ {ℓ κ} {Error : Type ℓ} {Value : Type κ} where
  pub ok-injective : {v w : Value} → ◌≡◌ {A = Result Error Value} (ok v) (ok w) → v ≡ w
  ok-injective same = cc

  pub Result-cases :
      (r : Result Error Value) → ((v : Value) × (r ≡ ok v)) ⊎ ((e : Error) × (r ≡ throw e))
  Result-cases (ok v) = inl (v, refl)
  Result-cases (throw e) = inr (e, refl)

  pub throw-injective : {d e : Error} → ◌≡◌ {A = Result Error Value} (throw d) (throw e) → d ≡ e
  throw-injective same = cc

module _ {ℓ κ μ} {Error : Type ℓ} {Value : Type κ} {Next : Type μ} where
  infixl 5 ◌>>◌ ◌>>=◌
  abbrev pub ◌>>=◌ : Result Error Value → (Value → Result Error Next) → Result Error Next
  throw thrown >>= next = throw thrown
  ok v >>= next = next v

  abbrev pub ◌>>◌ : Result Error Value → Result Error Next → Result Error Next
  throw thrown >> next = throw thrown
  ok v >> next = next

  -- A bind that throws did so in its first part or in its second.
  pub >>=-eq-throw :
      (first : Result Error Value) (next : Value → Result Error Next) {thrown : Error}
      → (first >>= next) ≡ throw thrown
      → (first ≡ throw thrown) ⊎ ((v : Value) × (first ≡ ok v) × (next v ≡ throw thrown))
  >>=-eq-throw (throw d) next together = inl cc
  >>=-eq-throw (ok v) next together = inr (v, refl, together)

  -- A bind that returns did so in both.
  pub >>=-eq-ok :
      (first : Result Error Value) (next : Value → Result Error Next) {w : Next}
      → (first >>= next) ≡ ok w
      → (v : Value) × (first ≡ ok v) × (next v ≡ ok w)
  >>=-eq-ok (throw d) next together = cc
  >>=-eq-ok (ok v) next together = (v, refl, together)

  pub >>-eq-ok :
      (first : Result Error Value) (next : Result Error Next) {w : Next}
      → (first >> next) ≡ ok w
      → (v : Value) × (first ≡ ok v) × (next ≡ ok w)
  >>-eq-ok (throw d) next together = cc
  >>-eq-ok (ok v) next together = (v, refl, together)
