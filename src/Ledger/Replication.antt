-- ===== src/Ledger/Replication.antt =====
-- A chain built block by block, a chain verified from its first block, and the choice between chains.
use mesh_compute.Ledger.Minting.{IsLawful, verify_block_sound, IsSealed}
use mesh_compute.Prelude.{
  ℕ, suc, ◌+◌, ◌≡◌, inl, inr, refl, subst, ◌∙◌, true, List, [], ◌∷◌, ◌++◌, arith, length, All, ok,
  ◌>>=◌, >>=-eq-ok, Result-cases, nat_eq, list_eq, >>=-ok, length-append,
}
use mesh_compute.Ledger.Block.{block_hash, verify_block, Block}
use mesh_compute.Prelude.Bytes.{Str}
use mesh_compute.Ledger.Chain.{
  append_all, genesis_prev, head_hash, verify_full, init, verify_from, append, Chain, last_hash,
}
use mesh_compute.Protocol.Identity.{Crypto}
use mesh_compute.Python.{Floats}
use native.Mathlib.Numerals.{add-one}
use mathlib.Core.List.{append-nil, append_assoc}

module _ {F : Type 0} ⦃fl : Floats F⦄ ⦃cr : Crypto⦄ where
  -- What `verify_full` returns for a chain is the set of nonces that the chain keeps.
  abbrev pub IsSynced : Chain F → Type 0
  IsSynced c = verify_full c ≡ ok c.seen_nonces

  last_hash-append :
      (prev : Str) (bs : List (Block F)) (b : Block F)
      → last_hash prev (bs ++ b ∷ []) ≡ block_hash b
  unfolding last_hash
  last_hash-append prev [] b = refl
  last_hash-append prev (a ∷ bs) b = last_hash-append (block_hash a) bs b

  -- One more block at the end is verified against the last hash and the next index.
  verify_from-append :
      (i : ℕ) (prev : Str) (seen : List Str) (bs : List (Block F)) (b : Block F)
      → verify_from i prev seen (bs ++ b ∷ []) ≡ (
          verify_from i prev seen bs >>= λ s.
          verify_block b (last_hash prev bs) (i + length bs) s true)
  unfolding verify_from last_hash
  verify_from-append i prev seen [] b =
      let same : i + 0 ≡ i = omega arith in rw same (>>=-ok (verify_block b prev i seen true))
  verify_from-append i prev seen (a ∷ bs) b =
      elim (Result-cases (verify_block a prev i seen true)) [
        | inr (e, bad) ↦ rw bad
        | inl (s, good) ↦
            let shift : suc i + length bs ≡ i + suc (length bs) = omega arith in
            rw good (rw (← shift) (verify_from-append (suc i) (block_hash a) s bs b))
      ]

  -- Appending keeps a chain such that a joining peer's verification from the first block
  -- succeeds and finds the same nonces.
  pub append-IsSynced :
      (c : Chain F) (b : Block F) {c' : Chain F} → append c b ≡ ok c' → IsSynced c → IsSynced c'
  unfolding append verify_full head_hash
  append-IsSynced c b {c'} h s =
      let (seen, accepted, built) =
        >>=-eq-ok (verify_block b (head_hash c) (length c.blocks) c.seen_nonces true) _ h in
      let start : 0 + length c.blocks ≡ length c.blocks = omega arith in
      let verified : verify_from 0 genesis_prev [] (c.blocks ++ b ∷ []) ≡ ok seen =
        verify_from-append 0 genesis_prev [] c.blocks b ∙ rw (s, start) accepted in
      subst IsSynced {x = record { blocks = c.blocks ++ b ∷ []; seen_nonces = seen }} {y = c'}
        (cc built) verified

  -- The loop of the constructor from a chain that it has built already.
  append_all-verify_from :
      (pre : List (Block F)) (s : List Str) (bs : List (Block F))
      → append_all (record { blocks = pre; seen_nonces = s }) bs ≡ (
          verify_from (length pre) (last_hash genesis_prev pre) s bs >>= λ s'.
          ok (record { blocks = pre ++ bs; seen_nonces = s' }))
  unfolding append_all append verify_from head_hash
  append_all-verify_from pre s [] = rw append-nil
  append_all-verify_from pre s (b ∷ bs) =
      elim (Result-cases (verify_block b (last_hash genesis_prev pre) (length pre) s true)) [
        | inr (e, bad) ↦ rw bad
        | inl (s', good) ↦ rw good (
            append_all-verify_from (pre ++ b ∷ []) s' bs
            ∙ rw (length-append, last_hash-append, append_assoc, add-one))
      ]

  -- The constructor accepts a list of blocks exactly when the verification from the first block
  -- accepts it, raises the same error when it does not, and keeps the nonces that it finds.
  pub init-verify_from :
      (bs : List (Block F))
      → init bs
        ≡ (verify_from 0 genesis_prev [] bs >>= λ s. ok (record { blocks = bs; seen_nonces = s }))
  unfolding init last_hash
  init-verify_from bs = append_all-verify_from [] [] bs

  -- Every block is sealed at its place, behind the hash of the block before it, and holds lawful
  -- entries only.
  abbrev pub IsLedger : ℕ → Str → List (Block F) → Type 0
  IsLedger i prev [] = Unit {0}
  IsLedger i prev (b ∷ bs) =
      (IsSealed b prev i × All IsLawful b.entries) × IsLedger (suc i) (block_hash b) bs

  verify_from-IsLedger :
      (i : ℕ) (prev : Str) (seen : List Str) (bs : List (Block F)) {seen' : List Str}
      → verify_from i prev seen bs ≡ ok seen'
      → IsLedger i prev bs
  unfolding verify_from
  verify_from-IsLedger i prev seen [] h = tt
  verify_from-IsLedger i prev seen (b ∷ bs) h =
      let (s, first, rest) = >>=-eq-ok (verify_block b prev i seen true) _ h in
      (
        verify_block_sound b prev i seen first,
        verify_from-IsLedger (suc i) (block_hash b) s bs rest,
      )

  -- In a chain that verifies, block number i has index i and names the hash of block i - 1, the
  -- first one 64 zeros; each is signed by the key that its producer id is derived from, its root
  -- and count are those of its entries, and a positive amount stands only in an entry for
  -- verified work, behind a receipt that the credited account signed. The credit of that receipt
  -- does not compare as more than 1e-6 away from the amount, which says nothing of the amount where
  -- the difference is NaN.
  pub verify_full-IsLedger :
      (c : Chain F) {seen : List Str} → verify_full c ≡ ok seen → IsLedger 0 genesis_prev c.blocks
  unfolding verify_full
  verify_full-IsLedger c h = verify_from-IsLedger 0 genesis_prev [] c.blocks h
