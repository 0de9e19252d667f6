-- ===== src/Ledger/ForkChoice.antt =====
-- The choice between chains.
use mesh_compute.Prelude.{
  ◌≡◌, ◌⊎◌, inl, inr, refl, sym, subst, ◌∙◌, true, List, [], ◌∷◌, arith, All, Elem, ok, err, ◌>>=◌,
  >>=-eq-ok, Result-cases, nat_eq, list_eq,
}
use mesh_compute.Ledger.Block.{value_error, chain_error, ChainFault, LedgerError}
use mesh_compute.Prelude.Sort.{Elem-sort, sort-cons, IsOrder}
use mesh_compute.Prelude.Bytes.{lex_le-IsOrder, Str}
use mesh_compute.Ledger.Chain.{
  first_of_sorted, pick_best_chain, head_hash, verify_full, Chain, valid_chains, chain_le,
}
use mesh_compute.Protocol.Identity.{Crypto}
use mesh_compute.Python.{Floats}

module _ {F : Type 0} ⦃fl : Floats F⦄ ⦃cr : Crypto⦄ where
  pub chain_le-IsOrder : IsOrder (chain_le {F = F})
  unfolding chain_le
  chain_le-IsOrder = record {
    total = λ a b. ground (arith, lex_le-IsOrder.total (head_hash a) (head_hash b));
    trans =
        λ a b c h k. ground (arith, lex_le-IsOrder.trans (head_hash a) (head_hash b) (head_hash c));
  }

  abbrev pub Verifies : Chain F → Type 0
  Verifies c = (seen : List Str) × (verify_full c ≡ ok seen)

  abbrev Raises : Chain F → LedgerError → Type 0
  Raises c e = verify_full c ≡ err e

  -- One round of the loop.
  valid_chains-step :
      (d : Chain F) (cs : List (Chain F))
      → (Verifies d × (valid_chains (d ∷ cs) ≡ (valid_chains cs >>= λ valid. ok (d ∷ valid))))
        ⊎ ((f : ChainFault) × Raises d (chain_error f) × (valid_chains (d ∷ cs) ≡ valid_chains cs))
        ⊎ (Raises d value_error × (valid_chains (d ∷ cs) ≡ err value_error))
  unfolding valid_chains
  valid_chains-step d cs = elim (Result-cases (verify_full d)) [
    | inl (s, good) ↦ inl ((s, good), rw (good, valid_chains))
    | inr (chain_error f, bad) ↦ inr (inl (f, bad, rw (bad, valid_chains)))
    | inr (value_error, bad) ↦ inr (inr (bad, rw (bad, valid_chains)))
  ]

  -- The loop keeps every chain of the list that verifies.
  valid_chains_complete :
      (c : Chain F) (cs : List (Chain F)) {valid : List (Chain F)}
      → valid_chains cs ≡ ok valid
      → Elem c cs
      → Verifies c
      → Elem c valid
  valid_chains_complete c [] h m q = absurd m
  valid_chains_complete c (d ∷ cs) {valid} h m q = elim (valid_chains-step d cs) [
    | inl (verifies, step) ↦
        let (v, rest, built) = >>=-eq-ok (valid_chains cs) _ (rw step at h) in
        subst (Elem c) {x = d ∷ v} {y = valid} (cc built) (elim m [
          | inl same ↦ inl same
          | inr later ↦ inr (valid_chains_complete c cs rest later q)
        ])
    | inr (inl (f, bad, step)) ↦ elim m [
      | inl same ↦ absurd (let (s, good) = q in cc)
      | inr later ↦ valid_chains_complete c cs (rw step at h) later q
    ]
    | inr (inr (bad, step)) ↦ cc
  ]

  -- A chain whose verification raises a `ValueError` stops the loop.
  valid_chains-Raises :
      (c : Chain F) (cs : List (Chain F))
      → Elem c cs
      → Raises c value_error
      → valid_chains cs ≡ err value_error
  valid_chains-Raises c [] m r = absurd m
  valid_chains-Raises c (d ∷ cs) m r = elim (valid_chains-step d cs) [
    | inl ((s, good), step) ↦ elim m [
      | inl same ↦ cc
      | inr later ↦ step ∙ rw (valid_chains-Raises c cs later r)
    ]
    | inr (inl (f, bad, step)) ↦ elim m [
      | inl same ↦ cc
      | inr later ↦ step ∙ valid_chains-Raises c cs later r
    ]
    | inr (inr (bad, step)) ↦ step
  ]

  -- The choice among chains that were kept: the first after sorting.
  first_of_sorted_lem :
      (c : Chain F) (cs : List (Chain F))
      → (b : Chain F) × (first_of_sorted (c ∷ cs) ≡ ok b)
        × Elem b (c ∷ cs)
        × All (λ d. chain_le b d ≡ true) (c ∷ cs)
  unfolding first_of_sorted
  first_of_sorted_lem c cs =
      let (b, r, sorted, least) = sort-cons chain_le chain_le-IsOrder c cs in
      (
        b,
        rw (sorted, first_of_sorted),
        Elem-sort chain_le b (c ∷ cs) (subst (Elem b) (sym sorted) (inl refl)),
        least,
      )

  valid_chains-ok :
      (cs : List (Chain F))
      → ((d : Chain F) → Elem d cs → ¬ Raises d value_error)
      → (valid : List (Chain F)) × (valid_chains cs ≡ ok valid)
  valid_chains-ok [] h = ([], unfold valid_chains in refl)
  valid_chains-ok (d ∷ cs) h =
      let (v, rest) = valid_chains-ok cs (λ e m. h e (inr m)) in
      elim (valid_chains-step d cs) [
        | inl (verifies, step) ↦ (d ∷ v, step ∙ rw rest)
        | inr (inl (f, bad, step)) ↦ (v, step ∙ rest)
        | inr (inr (bad, step)) ↦ absurd (h d (inl refl) bad)
      ]

  -- A candidate that verifies is enough for a choice, where no verification raises a `ValueError`.
  pub pick_best_chain-ok :
      (c : Chain F) (cs : List (Chain F))
      → Elem c cs
      → Verifies c
      → ((d : Chain F) → Elem d cs → ¬ Raises d value_error)
      → (b : Chain F) × (pick_best_chain cs ≡ ok b)
  unfolding pick_best_chain
  pick_best_chain-ok c cs m w h =
      let (valid, kept) = valid_chains-ok cs h in
      choose valid kept (valid_chains_complete c cs kept m w)
    where
      choose :
          (valid : List (Chain F))
          → valid_chains cs ≡ ok valid
          → Elem c valid
          → (b : Chain F) × (pick_best_chain cs ≡ ok b)
      choose [] kept k = absurd k
      choose (v ∷ vs) kept k =
          let (b, chosen, _, _) = first_of_sorted_lem v vs in (b, rw kept chosen)

  -- One candidate whose verification raises a `ValueError`, such as a block with a producer key
  -- that cannot be read, stops the choice for all, valid ones included: it is not discarded.
  pub pick_best_chain-value_error :
      (c : Chain F) (cs : List (Chain F))
      → Elem c cs
      → verify_full c ≡ err value_error
      → pick_best_chain cs ≡ err value_error
  unfolding pick_best_chain
  pick_best_chain-value_error c cs m r = rw (valid_chains-Raises c cs m r)
