-- ===== src/Prelude/Sort.antt =====
-- Python's stable `sorted(l, key=...)` and `min`, over a Boolean test for "not after".
use mathlib.Core.Path.{◌≡◌, refl}
use mathlib.Core.Logic.{◌⊎◌, inl, inr}
use mathlib.Core.Bool.{Bool, true}
use mathlib.Core.List.{List, [], ◌∷◌}
use native.Mathlib.Omega.{arith}
use mesh_compute.Prelude.Tests.{if◌then◌else◌, Bool-cases}
use mesh_compute.Prelude.Lists.{Elem, All}

-- A total preorder, given by its test.
pub record IsOrder {ℓ} {A : Type ℓ} (le : A → A → Bool) : Type ℓ where
  pub total : (a b : A) → (le a b ≡ true) ⊎ (le b a ≡ true)
  pub trans : (a b c : A) → le a b ≡ true → le b c ≡ true → le a c ≡ true

module _ {A : Type 0} (le : A → A → Bool) where
  -- An element goes before those that are not less, so equal ones keep their order.
  unfoldable pub insert_sorted : A → List A → List A
  insert_sorted x [] = x ∷ []
  insert_sorted x (y ∷ ys) = if le x y then x ∷ y ∷ ys else y ∷ insert_sorted x ys

  unfoldable pub sort : List A → List A
  unfolding insert_sorted
  sort [] = []
  sort (x ∷ xs) = insert_sorted x (sort xs)

  pub Elem-insert_sorted :
      (a x : A) (ys : List A) → Elem a (insert_sorted x ys) → (a ≡ x) ⊎ Elem a ys
  unfolding insert_sorted
  Elem-insert_sorted a x [] m = m
  Elem-insert_sorted a x (y ∷ ys) m = ground (arith, Elem-insert_sorted a x ys)

  -- What is in the sorted list was in the list.
  pub Elem-sort : (a : A) (xs : List A) → Elem a (sort xs) → Elem a xs
  unfolding sort
  Elem-sort a [] m = m
  Elem-sort a (x ∷ xs) m = elim (Elem-insert_sorted a x (sort xs) m) [
    | inl e ↦ inl e
    | inr k ↦ inr (Elem-sort a xs k)
  ]

  module _ (o : IsOrder le) where
    -- The order holds between an element and itself.
    pub le_self : (a : A) → le a a ≡ true
    le_self a = elim (o.total a a) [ inl h ↦ h | inr h ↦ h ]

    All-trans :
        (x y : A) (l : List A)
        → le x y ≡ true
        → All (λ z. le y z ≡ true) l
        → All (λ z. le x z ≡ true) l
    All-trans x y [] h a = tt
    All-trans x y (z ∷ l) h a = (o.trans x y z h a.0, All-trans x y l h a.1)

    -- A nonempty list sorts to a nonempty one, whose head is not after any element.
    pub sort-cons :
        (x : A) (xs : List A)
        → (b : A) × (r : List A) × (sort (x ∷ xs) ≡ b ∷ r) × All (λ z. le b z ≡ true) (x ∷ xs)
    unfolding sort
    sort-cons x [] = (x, [], refl, (le_self x, tt))
    sort-cons x (y ∷ ys) =
        let (b, r, e, h) = sort-cons y ys in
        elim (Bool-cases (le x b)) [
          | inl first ↦
              (x, b ∷ r, rw (e, insert_sorted, first), (le_self x, All-trans x b (y ∷ ys) first h))
          | inr later ↦
              (b, insert_sorted x r, rw (e, insert_sorted, later), (ground (arith, o.total x b), h))
        ]
