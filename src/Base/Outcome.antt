-- ===== src/Base/Outcome.antt =====
-- Results of code that can run into undefined behaviour or go on for ever.

use mathlib.Core.Path.{◌≡◌, refl}

-- Undefined behaviour that the models show instead of a value.
pub data Fault : Type 0 where
  bad_read bad_write bad_delete division_by_zero null_call : Fault

-- `stuck` is no value of the program: the rounds that the model allows are used up.
pub data Result {ℓ} (V : Type ℓ) : Type ℓ where
  stuck : Result V
  fault : (why : Fault) → Result V
  ok : (value : V) → Result V

module _ {ℓ κ} {V : Type ℓ} {W : Type κ} where
  infixl 5 ◌>>=◌
  abbrev pub ◌>>=◌ : Result V → (V → Result W) → Result W
  stuck >>= next = stuck
  fault why >>= next = fault why
  ok v >>= next = next v

  -- A chain that succeeds has succeeded at each step.
  pub >>=-eq-ok :
      (first : Result V) (next : V → Result W) {w : W}
      → (first >>= next) ≡ ok w
      → (v : V) × (first ≡ ok v) × (next v ≡ ok w)
  >>=-eq-ok stuck next e = cc
  >>=-eq-ok (fault why) next e = cc
  >>=-eq-ok (ok v) next e = (v, refl, e)

pub ok-injective {ℓ} : {V : Type ℓ} (v w : V) → ok v ≡ ok w → v ≡ w
ok-injective v w e = cc
