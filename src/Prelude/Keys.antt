-- ===== src/Prelude/Keys.antt =====
-- The keys of a dict, in its order, through insertion and removal.
use Prim.Native.Nat.{suc, ◌≤◌}
use mathlib.Core.Path.{◌≡◌, refl, ap}
use mathlib.Core.Logic.{inl, inr}
use mathlib.Core.Bool.{true, false}
use mathlib.Core.List.{List, [], ◌∷◌}
use native.Mathlib.Omega.{arith}
use mesh_compute.Prelude.Tests.{if◌then◌else◌, Bool-cases}
use mesh_compute.Prelude.Lists.{length, All}
use mesh_compute.Prelude.Classes.{Eq, ◌==◌, contains, beq_self}
use mesh_compute.Prelude.Dict.{Dict, has_key, insert, erase}

module _ {K : Type 0} ⦃e : Eq K⦄ where
  abbrev pub IsDistinct : List K → Type 0
  IsDistinct [] = Unit {0}
  IsDistinct (x ∷ xs) = (contains x xs ≡ false) × IsDistinct xs

  abbrev pub add_key : K → List K → List K
  add_key k [] = k ∷ []
  add_key k (j ∷ ks) = if k == j then j ∷ ks else j ∷ add_key k ks

  abbrev pub remove_key : K → List K → List K
  remove_key k [] = []
  remove_key k (j ∷ ks) = if k == j then ks else j ∷ remove_key k ks

  contains-add_key_other :
      (x k : K) (ks : List K)
      → (x == k) ≡ false
      → contains x ks ≡ false
      → contains x (add_key k ks) ≡ false
  contains-add_key_other x k [] h g = rw h refl
  contains-add_key_other x k (j ∷ ks) h g = ground (arith, contains-add_key_other x k ks)

  contains-remove_key :
      (x k : K) (ks : List K) → contains x ks ≡ false → contains x (remove_key k ks) ≡ false
  contains-remove_key x k [] g = refl
  contains-remove_key x k (j ∷ ks) g = ground (arith, contains-remove_key x k ks)

  pub IsDistinct-add_key : (k : K) (ks : List K) → IsDistinct ks → IsDistinct (add_key k ks)
  IsDistinct-add_key k [] h = (refl, tt)
  IsDistinct-add_key k (j ∷ ks) h = elim (Bool-cases (k == j)) [
    | inl same ↦ rw same h
    | inr other ↦ rw other (
      contains-add_key_other j k ks (ground (arith, e.beq_iff j k, e.beq_iff k j)) h.0,
      IsDistinct-add_key k ks h.1,
    )
  ]

  pub IsDistinct-remove_key : (k : K) (ks : List K) → IsDistinct ks → IsDistinct (remove_key k ks)
  IsDistinct-remove_key k [] h = tt
  IsDistinct-remove_key k (j ∷ ks) h = elim (Bool-cases (k == j)) [
    | inl same ↦ rw same h.1
    | inr other ↦ rw other (contains-remove_key j k ks h.0, IsDistinct-remove_key k ks h.1)
  ]

  -- A key that was removed is gone.
  pub contains-remove_key_self :
      (k : K) (ks : List K) → IsDistinct ks → contains k (remove_key k ks) ≡ false
  contains-remove_key_self k [] h = refl
  contains-remove_key_self k (j ∷ ks) h =
      ground (
        arith,
        e.beq_iff k j,
        contains-remove_key_self k ks,
        ap (λ i. contains i ks) {x = k} {y = j},
      )

  pub length-add_key : (k : K) (ks : List K) → length (add_key k ks) ≤ suc (length ks)
  length-add_key k [] = omega arith
  length-add_key k (j ∷ ks) = ground (arith, length-add_key k ks)

  pub length-remove_key :
      (k : K) (ks : List K) → contains k ks ≡ true → suc (length (remove_key k ks)) ≡ length ks
  length-remove_key k [] h = cc
  length-remove_key k (j ∷ ks) h = ground (arith, length-remove_key k ks)

  pub add_key_present : (k : K) (ks : List K) → contains k ks ≡ true → add_key k ks ≡ ks
  add_key_present k [] h = cc
  add_key_present k (j ∷ ks) h = ground (arith, add_key_present k ks)

  module _ {V : Type 0} where
    abbrev pub keys : Dict K V → List K
    keys [] = []
    keys ((k, v) ∷ d) = k ∷ keys d

    pub length-keys : (d : Dict K V) → length (keys d) ≡ length d
    length-keys [] = refl
    length-keys ((k, v) ∷ d) = ap suc (length-keys d)

    pub keys-insert : (k : K) (v : V) (d : Dict K V) → keys (insert k v d) ≡ add_key k (keys d)
    keys-insert k v [] = refl
    keys-insert k v ((j, w) ∷ d) = ground (arith, keys-insert k v d)

    pub keys-erase : (k : K) (d : Dict K V) → keys (erase k d) ≡ remove_key k (keys d)
    keys-erase k [] = refl
    keys-erase k ((j, w) ∷ d) = ground (arith, keys-erase k d)

    pub has_key-keys : (k : K) (d : Dict K V) → has_key k d ≡ contains k (keys d)
    has_key-keys k [] = refl
    has_key-keys k ((j, w) ∷ d) = ground (arith, has_key-keys k d)

    pub All-insert {κ} :
        (P : K × V → Type κ) (k : K) (v : V) (d : Dict K V)
        → ((j : K) → (k == j) ≡ true → P (j, v))
        → All P d
        → All P (insert k v d)
    All-insert P k v [] p h = (p k (beq_self k), tt)
    All-insert P k v ((j, w) ∷ d) p h = elim (Bool-cases (k == j)) [
      | inl same ↦ rw same (p j same, h.1)
      | inr other ↦ rw other (h.0, All-insert P k v d p h.1)
    ]

    pub All-erase {κ} : (P : K × V → Type κ) (k : K) (d : Dict K V) → All P d → All P (erase k d)
    All-erase P k [] h = tt
    All-erase P k ((j, w) ∷ d) h = elim (Bool-cases (k == j)) [
      | inl same ↦ rw same h.1
      | inr other ↦ rw other (h.0, All-erase P k d h.1)
    ]
