-- ===== src/Prelude/Classes.antt =====
-- Python's `==` on the types that the program compares.
use Prim.Native.Nat.{ℕ}
use mathlib.Core.Path.{◌≡◌, refl, sym, ◌∙◌}
use mathlib.Core.Logic.{◌↔◌, ◌⊎◌, ◌≢◌, inl, inr}
use mathlib.Core.Bool.{Bool, true, false, ◌&&◌}
use mathlib.Core.List.{List, [], ◌∷◌}
use native.Mathlib.Omega.{arith}
use mesh_compute.Prelude.Tests.{nat_beq, nat_beq_iff, Bool-cases}
use mesh_compute.Prelude.Lists.{any, Elem}

pub record Eq {ℓ} (A : Type ℓ) : Type ℓ where
  pub beq : A → A → Bool
  pub beq_iff : (x y : A) → (beq x y ≡ true) ↔ (x ≡ y)

module _ {ℓ} {A : Type ℓ} ⦃e : Eq A⦄ where
  infix 50 ◌==◌
  abbrev pub ◌==◌ : A → A → Bool
  x == y = e.beq x y

instance abbrev pub nat_eq : Eq ℕ
nat_eq = record { beq = nat_beq; beq_iff = nat_beq_iff }

module _ {ℓ} {A : Type ℓ} ⦃e : Eq A⦄ where
  unfoldable pub list_beq : List A → List A → Bool
  list_beq [] [] = true
  list_beq (x ∷ xs) (y ∷ ys) = x == y && list_beq xs ys
  list_beq _ _ = false

  pub list_beq→eq : (xs ys : List A) → list_beq xs ys ≡ true → xs ≡ ys
  unfolding list_beq
  list_beq→eq [] [] h = refl
  list_beq→eq [] (y ∷ ys) h = cc
  list_beq→eq (x ∷ xs) [] h = cc
  list_beq→eq (x ∷ xs) (y ∷ ys) h = ground (arith, e.beq_iff x y, list_beq→eq xs ys)

  pub list_beq_refl : (xs : List A) → list_beq xs xs ≡ true
  unfolding list_beq
  list_beq_refl [] = refl
  list_beq_refl (x ∷ xs) = ground (arith, e.beq_iff x x, list_beq_refl xs)

  pub list_beq_iff : (xs ys : List A) → (list_beq xs ys ≡ true) ↔ (xs ≡ ys)
  list_beq_iff xs ys = (list_beq→eq xs ys, λ h. subst_right h)
    where
      subst_right : xs ≡ ys → list_beq xs ys ≡ true
      subst_right h = rw (← h) (list_beq_refl xs)

  -- `x in l`
  abbrev pub contains : A → List A → Bool
  contains a = any (λ x. a == x)

instance abbrev pub list_eq {ℓ} : {A : Type ℓ} ⦃e : Eq A⦄ → Eq (List A)
list_eq = record { beq = list_beq; beq_iff = list_beq_iff }

module _ {A : Type 0} ⦃e : Eq A⦄ where
  -- Equality of the two values, or a proof that they differ, by the test.
  pub eq_cases : (a b : A) → (a ≡ b) ⊎ (a ≢ b)
  eq_cases a b = elim (Bool-cases (a == b)) [
    | inl same ↦ inl ((e.beq_iff a b).0 same)
    | inr other ↦ inr (λ h. ground (arith, (e.beq_iff a b).1 h))
  ]

  pub beq→eq : (a b : A) → (a == b) ≡ true → a ≡ b
  beq→eq a b = (e.beq_iff a b).0

  pub eq→beq : (a b : A) → a ≡ b → (a == b) ≡ true
  eq→beq a b = (e.beq_iff a b).1

  -- A split on the test, with what it means.
  pub beq_cases : (a b : A) → (((a == b) ≡ true) × (a ≡ b)) ⊎ (((a == b) ≡ false) × (a ≢ b))
  beq_cases a b = elim (Bool-cases (a == b)) [
    | inl same ↦ inl (same, (e.beq_iff a b).0 same)
    | inr other ↦ inr (other, λ h. ground (arith, (e.beq_iff a b).1 h))
  ]

  pub ne_of_beq : (a b : A) → (a == b) ≡ false → a ≢ b
  ne_of_beq a b h k = ground (arith, (e.beq_iff a b).1 k)

  pub beq_comm : (a b : A) → (a == b) ≡ (b == a)
  beq_comm a b = elim (beq_cases a b) [
    | inl (same, eq) ↦ rw eq refl
    | inr (other, ne) ↦ elim (beq_cases b a) [
      | inl (same, eq) ↦ absurd (ne (sym eq))
      | inr (other2, _) ↦ other ∙ sym other2
    ]
  ]

  pub beq_self : (a : A) → (a == a) ≡ true
  beq_self a = (e.beq_iff a a).1 refl

  pub contains→Elem : (a : A) (xs : List A) → contains a xs ≡ true → Elem a xs
  contains→Elem a [] h = cc
  contains→Elem a (x ∷ xs) h = ground (arith, e.beq_iff a x, contains→Elem a xs)

  pub Elem→contains : (a : A) (xs : List A) → Elem a xs → contains a xs ≡ true
  Elem→contains a [] h = absurd h
  Elem→contains a (x ∷ xs) h = ground (arith, e.beq_iff a x, Elem→contains a xs)
