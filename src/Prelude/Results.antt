-- ===== src/Prelude/Results.antt =====
-- Python's exceptions: a call returns a value, or raises an error of type `E`.
use mathlib.Core.Path.{◌≡◌, refl}
use mathlib.Core.Bool.{Bool, true, false}
use mathlib.Core.Logic.{◌⊎◌, inl, inr}

pub data Result {ℓ} (E : Type 0) (A : Type ℓ) : Type ℓ where
  ok : A → Result E A
  err : E → Result E A

module _ {ℓ κ} {E : Type 0} {A : Type ℓ} {B : Type κ} where
  infixl 5 ◌>>=◌
  abbrev pub ◌>>=◌ : Result E A → (A → Result E B) → Result E B
  ok x >>= k = k x
  err raised >>= k = err raised

  -- A chain that ends well has ended well at each step.
  pub >>=-eq-ok :
      (call : Result E A) (k : A → Result E B) {y : B}
      → (call >>= k) ≡ ok y
      → (x : A) × (call ≡ ok x) × (k x ≡ ok y)
  >>=-eq-ok (ok x) k h = (x, refl, h)
  >>=-eq-ok (err raised) k h = cc

module _ {ℓ} {E : Type 0} {A : Type ℓ} where
  pub >>=-ok : (m : Result E A) → (m >>= λ a. ok a) ≡ m
  >>=-ok (ok a) = refl
  >>=-ok (err e) = refl

module _ {ℓ} {E : Type 0} {B : Type ℓ} where
  infixl 5 ◌>>◌
  abbrev pub ◌>>◌ : Result E (Unit {0}) → Result E B → Result E B
  m >> k = m >>= λ _. k

-- `if c: raise e`
abbrev pub raise_if : {E : Type 0} → Bool → E → Result E (Unit {0})
raise_if true e = err e
raise_if false e = ok tt

pub raise_if-eq-ok :
    {E : Type 0} (c : Bool) (e : E) {u : Unit {0}} → raise_if c e ≡ ok u → c ≡ false
raise_if-eq-ok true e h = cc
raise_if-eq-ok false e h = refl

pub Result-cases {ℓ} :
    {E : Type 0} {A : Type ℓ} (r : Result E A) → ((a : A) × (r ≡ ok a)) ⊎ ((e : E) × (r ≡ err e))
Result-cases (ok a) = inl (a, refl)
Result-cases (err e) = inr (e, refl)
