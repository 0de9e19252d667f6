-- ===== src/Prelude/Dict.antt =====
-- A Python dict: keys in the order of their first insertion.
use mathlib.Core.Path.{◌≡◌, refl, sym, ap, ◌∙◌}
use mathlib.Core.Logic.{◌≢◌}
use mathlib.Core.Bool.{Bool, true, false}
use mathlib.Core.Option.{Option, none, some}
use mathlib.Core.List.{List, [], ◌∷◌}
use native.Mathlib.Omega.{arith}
use mathlib.Core.Logic.{inl, inr}
use mesh_compute.Prelude.Tests.{if◌then◌else◌, Option-cases, Bool-cases}
use mesh_compute.Prelude.Lists.{Elem}
use mesh_compute.Prelude.Classes.{Eq, ◌==◌}

abbrev pub Dict {ℓ} : Type ℓ → Type ℓ → Type ℓ
Dict K V = List (K × V)

module _ {ℓ} {V : Type ℓ} where
  abbrev pub or_else : V → Option V → V
  or_else v none = v
  or_else v (some w) = w

  abbrev pub is_some : Option V → Bool
  is_some none = false
  is_some (some w) = true

module _ {ℓ} {K V : Type ℓ} ⦃e : Eq K⦄ where
  -- `d.get(k)`
  abbrev pub lookup : K → Dict K V → Option V
  lookup k [] = none
  lookup k ((j, v) ∷ d) = if k == j then some v else lookup k d

  -- `d.get(k, v)`
  abbrev pub lookup_or : V → K → Dict K V → V
  lookup_or v k d = or_else v (lookup k d)

  -- `k in d`
  abbrev pub has_key : K → Dict K V → Bool
  has_key k d = is_some (lookup k d)

  -- `d[k] = v`
  abbrev pub insert : K → V → Dict K V → Dict K V
  insert k v [] = (k, v) ∷ []
  insert k v ((j, w) ∷ d) = if k == j then (j, v) ∷ d else (j, w) ∷ insert k v d

  -- `d.setdefault(k, v)`
  abbrev pub set_default : K → V → Dict K V → Dict K V
  set_default k v d = if has_key k d then d else insert k v d

  -- `d.pop(k, None)`
  abbrev pub erase : K → Dict K V → Dict K V
  erase k [] = []
  erase k ((j, w) ∷ d) = if k == j then d else (j, w) ∷ erase k d

  pub lookup-insert :
      (j k : K) (v : V) (d : Dict K V)
      → lookup j (insert k v d) ≡ (if j == k then some v else lookup j d)
  lookup-insert j k v [] = refl
  lookup-insert j k v ((i, w) ∷ d) =
      ground (arith, e.beq_iff j k, e.beq_iff k i, e.beq_iff j i, lookup-insert j k v d)

  pub lookup-insert_self : (k : K) (v : V) (d : Dict K V) → lookup k (insert k v d) ≡ some v
  lookup-insert_self k v d = ground (arith, e.beq_iff k k, lookup-insert k k v d)

  pub lookup-insert_ne :
      (j k : K) (v : V) (d : Dict K V) → j ≢ k → lookup j (insert k v d) ≡ lookup j d
  lookup-insert_ne j k v d h = ground (arith, e.beq_iff j k, lookup-insert j k v d)

  pub lookup-erase_ne : (j k : K) (d : Dict K V) → j ≢ k → lookup j (erase k d) ≡ lookup j d
  lookup-erase_ne j k [] h = refl
  lookup-erase_ne j k ((i, w) ∷ d) h =
      ground (arith, e.beq_iff k i, e.beq_iff j i, lookup-erase_ne j k d h)

module _ {K V : Type 0} ⦃e : Eq K⦄ where
  -- A value that is found stands in the dict under its key.
  pub lookup-Elem : (k : K) (v : V) (d : Dict K V) → lookup k d ≡ some v → Elem (k, v) d
  lookup-Elem k v [] h = cc
  lookup-Elem k v ((i, w) ∷ d) h = ground (arith, e.beq_iff k i, lookup-Elem k v d)

module _ {ℓ} {K V : Type ℓ} ⦃e : Eq K⦄ where
  pub lookup-set_default_self :
      (k : K) (v : V) (d : Dict K V) → lookup k (set_default k v d) ≡ some (lookup_or v k d)
  lookup-set_default_self k v d = elim (Option-cases (lookup k d)) [
    | inl gone ↦ rw gone (lookup-insert_self k v d)
    | inr (w, found) ↦ rw (found, found) refl
  ]

  pub lookup-set_default_ne :
      (j k : K) (v : V) (d : Dict K V) → j ≢ k → lookup j (set_default k v d) ≡ lookup j d
  lookup-set_default_ne j k v d h = elim (Option-cases (lookup k d)) [
    | inl gone ↦ rw gone (lookup-insert_ne j k v d h)
    | inr (w, found) ↦ rw found refl
  ]

module _ {K V : Type 0} ⦃e : Eq K⦄ where
  -- The entries of other keys are those of before.
  pub insert-Elem_ne :
      (k : K) (v : V) (d : Dict K V) (x : K × V) → x.0 ≢ k → Elem x (insert k v d) → Elem x d
  insert-Elem_ne k v [] x h m = elim m [
    | inl same ↦ absurd (h (ap (λ z. z.0) same))
    | inr nothing ↦ absurd nothing
  ]
  insert-Elem_ne k v ((j, w) ∷ d) x h m = elim (Bool-cases (k == j)) [
    | inl same ↦ elim (rw same at m) [
      | inl here ↦ absurd (h (ap (λ z. z.0) here ∙ sym ((e.beq_iff k j).0 same)))
      | inr later ↦ inr later
    ]
    | inr other ↦ elim (rw other at m) [
      | inl here ↦ inl here
      | inr later ↦ inr (insert-Elem_ne k v d x h later)
    ]
  ]

  pub Elem-insert_ne :
      (k : K) (v : V) (d : Dict K V) (x : K × V) → x.0 ≢ k → Elem x d → Elem x (insert k v d)
  Elem-insert_ne k v [] x h m = absurd m
  Elem-insert_ne k v ((j, w) ∷ d) x h m = elim (Bool-cases (k == j)) [
    | inl same ↦ rw same (elim m [
      | inl here ↦ absurd (h (ap (λ z. z.0) here ∙ sym ((e.beq_iff k j).0 same)))
      | inr later ↦ inr later
    ])
    | inr other ↦
        rw other (elim m [ inl here ↦ inl here | inr later ↦ inr (Elem-insert_ne k v d x h later) ])
  ]
