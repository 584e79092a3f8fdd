-- ===== src/Prelude/Errors.antt =====
-- Exceptions as values.
use mathlib.Core.Path.{◌≡◌, refl}
use mathlib.Core.Bool.{Bool, true, false}

-- A call that returns, or raises an exception of the type `E`.
pub data Result {ℓ κ} (E : Type ℓ) (A : Type κ) : Type (ℓ ⊔ κ) where
  ok : A → Result E A
  err : E → Result E A

module _ {ℓ} {E : Type ℓ} where
  -- `if test: raise e`
  abbrev pub raise_if : Bool → E → Result E (Unit {0})
  raise_if false e = ok tt
  raise_if true e = err e

  module _ {κ μ} {X : Type κ} {Y : Type μ} where
    infixl 5 ◌>>=◌
    abbrev pub ◌>>=◌ : Result E X → (X → Result E Y) → Result E Y
    err raised >>= next = err raised
    ok x >>= next = next x

    -- A chain that returns has returned at its first call.
    pub >>=-eq-ok :
        (call : Result E X) (next : X → Result E Y) {y : Y}
        → (call >>= next) ≡ ok y
        → (x : X) × (call ≡ ok x) × (next x ≡ ok y)
    >>=-eq-ok (err raised) next h = cc
    >>=-eq-ok (ok x) next h = (x, refl, h)

  infixl 5 ◌>>◌
  abbrev pub ◌>>◌ {κ} : {Y : Type κ} → Result E (Unit {0}) → Result E Y → Result E Y
  check >> rest = check >>= λ _. rest

  -- A check that raises ends the chain.
  pub raise_if-eq-ok {κ} :
      {Y : Type κ} (test : Bool) (e : E) (rest : Result E Y) {y : Y}
      → (raise_if test e >> rest) ≡ ok y
      → (test ≡ false) × (rest ≡ ok y)
  raise_if-eq-ok true e rest h = cc
  raise_if-eq-ok false e rest h = (refl, h)
