-- ===== src/Errors/Results.antt =====
-- Chains of results without a state, as the code that runs before the service starts has them.
use vcalm_status_service.Common.{◌≡◌, refl, Bool, true, false, Option, none, some}
use vcalm_status_service.Errors.{Error, Result, ok, err}

module _ {ℓ κ} {A : Type ℓ} {B : Type κ} where
  infixl 10 ◌>>=◌
  abbrev pub ◌>>=◌ : Result A → (A → Result B) → Result B
  err failed >>= next = err failed
  ok value >>= next = next value

  -- A chain that succeeds has a first step that did.
  pub >>=-eq-ok :
      (r : Result A) (next : A → Result B) {b : B}
      → r >>= next ≡ ok b
      → (value : A) × (r ≡ ok value) × (next value ≡ ok b)
  >>=-eq-ok (err failed) next done = cc
  >>=-eq-ok (ok value) next done = (value, refl, done)

module _ {B : Type 0} where
  infixl 10 ◌>>◌
  abbrev pub ◌>>◌ : Result (Unit {0}) → Result B → Result B
  m >> k = m >>= λ _. k

  -- A chain that succeeds after a check passed the check.
  pub check-eq-ok :
      (m : Result (Unit {0})) (k : Result B) {b : B} → (m >> k) ≡ ok b → (m ≡ ok tt) × (k ≡ ok b)
  check-eq-ok (ok tt) k h = (refl, h)
  check-eq-ok (err e) k h = cc

-- `if (c) throw e`
abbrev pub refuse_if : Bool → Error → Result (Unit {0})
refuse_if true e = err e
refuse_if false e = ok tt

pub refuse_if-eq-ok : (c : Bool) (e : Error) → refuse_if c e ≡ ok tt → c ≡ false
refuse_if-eq-ok true e h = cc
refuse_if-eq-ok false e h = refl

-- `if (o === undefined) throw e`
abbrev pub found_or : {A : Type 0} → Option A → Error → Result A
found_or none e = err e
found_or (some a) e = ok a
