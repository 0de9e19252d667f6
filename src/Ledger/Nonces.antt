-- ===== src/Ledger/Nonces.antt =====
-- A nonce is credited at most once in a chain, and what that does not prevent.
use mesh_compute.Prelude.{
  ℕ, suc, ◌≡◌, ◌≢◌, inl, inr, refl, ap, ◌∙◌, true, false, ◌||◌, List, [], ◌∷◌, ◌++◌, arith,
  if◌then◌else◌, All, ok, >>=-eq-ok, ◌==◌, nat_eq, list_eq, contains, beq_cases, eq→beq,
}
use mesh_compute.Ledger.Minting.{verify_block-parts}
use mesh_compute.Ledger.Chain.{genesis_prev, Chain, verify_full, verify_from}
use mesh_compute.Ledger.Merkle.{LedgerEntry}
use mesh_compute.Ledger.Block.{
  block_hash, check_receipt, verify_block, check_backing, check_entries, verified_work, Block,
  check_entry,
}
use mesh_compute.Protocol.Identity.{Crypto}
use mesh_compute.Prelude.Bytes.{Str}
use mesh_compute.Python.{Floats}

-- No element stands twice.
abbrev pub Distinct : List Str → Type 0
Distinct [] = Unit {0}
Distinct (x ∷ xs) = (contains x xs ≡ false) × Distinct xs

-- Nonces that are all given, and all different.
abbrev pub IsFresh : List Str → Type 0
IsFresh l = Distinct l × All (λ n. n ≢ []) l

module _ {F : Type 0} where
  -- An entry for verified work brings its nonce.
  abbrev pub note : List Str → LedgerEntry F → List Str
  note acc e = if e.reason == verified_work then e.challenge_nonce ∷ acc else acc

  -- The nonces of the entries for verified work, onto `acc`, the last one first.
  abbrev pub earned_entries : List Str → List (LedgerEntry F) → List Str
  earned_entries acc [] = acc
  earned_entries acc (e ∷ es) = earned_entries (note acc e) es

  -- The same over blocks.
  abbrev pub earned : List Str → List (Block F) → List Str
  earned acc [] = acc
  earned acc (b ∷ bs) = earned (earned_entries [] b.entries ++ acc) bs

contains-append :
    (n : Str) (xs ys : List Str) → (contains n xs || contains n ys) ≡ contains n (xs ++ ys)
contains-append n [] ys = refl
contains-append n (x ∷ xs) ys = ground (arith, contains-append n xs ys)

module _ {F : Type 0} ⦃fl : Floats F⦄ ⦃cr : Crypto⦄ where
  -- One accepted entry adds its nonce exactly when it is for verified work, and then the nonce
  -- is new and not empty.
  check_entry-nonce :
      (seen local : List Str) (e : LedgerEntry F) {local' : List Str}
      → check_entry true seen local e ≡ ok local'
      → (local' ≡ note local e)
        × (e.reason ≡ verified_work
            → (e.challenge_nonce ≢ []) × (contains e.challenge_nonce (local ++ seen) ≡ false))
  unfolding check_entry
  check_entry-nonce seen local e h = elim (beq_cases e.reason verified_work) [
    | inr (test, other) ↦ (rw test (ground arith), λ w. absurd (other w))
    | inl (test, work) ↦ (
      rw test (ground arith),
      λ _. (
        λ (none_given : e.challenge_nonce ≡ []).
            absurd (ground (arith, eq→beq e.challenge_nonce [] none_given)),
        ground (arith, contains-append e.challenge_nonce local seen),
      ),
    )
  ]

  check_entry-IsFresh :
      (seen local : List Str) (e : LedgerEntry F) {local' : List Str}
      → check_entry true seen local e ≡ ok local'
      → IsFresh (local ++ seen)
      → IsFresh (note local e ++ seen)
  check_entry-IsFresh seen local e h f = elim (beq_cases e.reason verified_work) [
    | inr (test, other) ↦ rw test f
    | inl (test, work) ↦
        let (given, new) = (check_entry-nonce seen local e h).1 work in
        rw test ((new, f.0), (given, f.1))
  ]

  check_entries-nonces :
      (seen local : List Str) (es : List (LedgerEntry F)) {local' : List Str}
      → check_entries true seen local es ≡ ok local'
      → IsFresh (local ++ seen)
      → (local' ≡ earned_entries local es) × IsFresh (earned_entries local es ++ seen)
  unfolding check_entries
  check_entries-nonces seen local [] h f = (ground arith, f)
  check_entries-nonces seen local (e ∷ es) h f =
      let (l, first, rest) = >>=-eq-ok (check_entry true seen local e) _ h in
      check_entries-nonces seen (note local e) es
        (rw (check_entry-nonce seen local e first).0 at rest)
        (check_entry-IsFresh seen local e first f)

  pub verify_block-nonces :
      (b : Block F) (prev : Str) (i : ℕ) (seen : List Str) {seen' : List Str}
      → verify_block b prev i seen true ≡ ok seen'
      → IsFresh seen
      → (seen' ≡ earned_entries [] b.entries ++ seen)
        × IsFresh (earned_entries [] b.entries ++ seen)
  verify_block-nonces b prev i seen h f =
      let (local, _, looped, joined) = verify_block-parts b prev i seen h in
      let (same, fresh) = check_entries-nonces seen [] b.entries looped f in
      (joined ∙ ap (λ l. l ++ seen) same, fresh)

  verify_from-nonces :
      (i : ℕ) (prev : Str) (seen : List Str) (bs : List (Block F)) {seen' : List Str}
      → verify_from i prev seen bs ≡ ok seen'
      → IsFresh seen
      → (seen' ≡ earned seen bs) × IsFresh (earned seen bs)
  unfolding verify_from
  verify_from-nonces i prev seen [] h f = (ground arith, f)
  verify_from-nonces i prev seen (b ∷ bs) h f =
      let (s, first, rest) = >>=-eq-ok (verify_block b prev i seen true) _ h in
      let (same, fresh) = verify_block-nonces b prev i seen first f in
      verify_from-nonces (suc i) (block_hash b) (earned_entries [] b.entries ++ seen) bs
        (rw same at rest) fresh

  -- A chain that verifies credits every nonce at most once: the nonces of all its entries for
  -- verified work are the set that the verification returns, and they are given and all different.
  pub verify_full-nonces :
      (c : Chain F) {seen : List Str}
      → verify_full c ≡ ok seen
      → (seen ≡ earned [] c.blocks)
        × Distinct (earned [] c.blocks)
        × All (λ n. n ≢ []) (earned [] c.blocks)
  unfolding verify_full
  verify_full-nonces c h =
      let (same, fresh) = verify_from-nonces 0 genesis_prev [] c.blocks h (tt, tt) in
      (same, fresh.0, fresh.1)

  backing_ignores_nonce :
      (e : LedgerEntry F) (n : Str)
      → check_backing true (record e { challenge_nonce = n }) ≡ check_backing true e
  unfolding check_backing check_receipt
  backing_ignores_nonce e n = refl

  -- The nonce that is tracked is the entry's, which is compared with nothing in the receipt: an
  -- entry that is accepted for verified work is accepted again, with the same receipt, under any
  -- other nonce that was not used.
  pub check_entry-reuse :
      (seen local : List Str) (e : LedgerEntry F) (n : Str) {local' : List Str}
      → e.reason ≡ verified_work
      → check_entry true seen local e ≡ ok local'
      → n ≢ []
      → contains n (local' ++ seen) ≡ false
      → check_entry true seen local' (record e { challenge_nonce = n }) ≡ ok (n ∷ local')
  unfolding check_entry
  check_entry-reuse seen local e n {local'} work h given new = elim (beq_cases n []) [
    | inl (_, none_given) ↦ absurd (given none_given)
    | inr (test, _) ↦ ground (
      arith,
      eq→beq e.reason verified_work work,
      backing_ignores_nonce e n,
      contains-append n local' seen,
    )
  ]
