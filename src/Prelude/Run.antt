-- ===== src/Prelude/Run.antt =====
-- The outcome of a piece of code: a value, a thrown `EngineException`, an access to an object that
-- is not there, or a loop that has used up the rounds that the model gives it.
use mathlib.Core.Path.{◌≡◌, refl}

pub data Run {ℓ} (Value : Type ℓ) : Type ℓ where
  exception fault out_of_fuel : Run Value
  ok : Value → Run Value

module _ {ℓ κ} {V : Type ℓ} {W : Type κ} where
  infixl 5 ◌>>=◌
  abbrev pub ◌>>=◌ : Run V → (V → Run W) → Run W
  r >>= next = elim r [
    | exception ↦ exception
    | fault ↦ fault
    | out_of_fuel ↦ out_of_fuel
    | ok v ↦ next v
  ]

  -- When two steps return, the first one did, and the second one did on its value.
  pub steps-ok :
      (r : Run V) (next : V → Run W) (w : W)
      → (r >>= next) ≡ ok w
      → (v : V) × (r ≡ ok v) × (next v ≡ ok w)
  steps-ok exception next w e = cc
  steps-ok fault next w e = cc
  steps-ok out_of_fuel next w e = cc
  steps-ok (ok v) next w e = (v, refl, e)

pub ok-injective {ℓ} : {V : Type ℓ} (v w : V) → ok v ≡ ok w → v ≡ w
ok-injective v w e = cc
