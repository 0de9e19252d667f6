-- ===== src/Ledger/Minting.antt =====
-- What an accepted block has been checked for: its header, and the receipts behind its credits.
use mesh_compute.Prelude.{
  ℕ, ◌≡◌, ◌≢◌, ◌⊎◌, inl, inr, refl, sym, ◌∙◌, true, false, some, List, [], ◌∷◌, ◌++◌, arith,
  Option-cases, length, All, ok, >>=-eq-ok, Result-cases, nat_eq, list_eq, beq_cases, beq→eq,
  eq→beq, list_beq, ne_of_beq,
}
use mesh_compute.Protocol.Receipts.{dump_receipt, SignedReceipt}
use mesh_compute.Prelude.Int.{pos, int_eq}
use mesh_compute.Prelude.Bytes.{Bytes, Str}
use mesh_compute.Python.{Floats}
use mesh_compute.Protocol.Identity.{Crypto, node_id_from_public, verify_json}
use mesh_compute.Ledger.Merkle.{LedgerEntry, merkle_root}
use mesh_compute.Ledger.Block.{
  verify_block, check_entries, is_nonneg, credit_for_receipt, differs, is_positive, correction,
  consumption, check_receipt, check_backing, verified_work, check_entry, Block, pub_key,
  check_header, dump_header, protocol_version,
}

-- The reasons differ.
work-ne-consumption : verified_work ≢ consumption
unfolding list_beq
work-ne-consumption = ne_of_beq verified_work consumption refl

module _ {F : Type 0} ⦃fl : Floats F⦄ ⦃cr : Crypto⦄ where
  -- What the checks before the loop establish.
  pub record IsSealed (b : Block F) (prev : Str) (i : ℕ) : Type 0 where
    pub version : b.header.protocol_version ≡ protocol_version
    pub indexed : b.header.index ≡ pos i
    pub linked : b.header.prev_hash ≡ prev
    pub counted : b.header.entry_count ≡ pos (length b.entries)
    pub rooted : merkle_root b.entries ≡ b.header.merkle_root
    pub key : Bytes
    pub keyed : pub_key b.producer_public_b64 ≡ ok key
    pub produced : node_id_from_public key ≡ b.header.producer_node_id
    pub signed :
        verify_json b.producer_public_b64 (dump_header b.header) b.producer_signature_b64 ≡ true

  pub check_header-IsSealed :
      (b : Block F) (prev : Str) (i : ℕ) → check_header b prev i ≡ ok tt → IsSealed b prev i
  unfolding check_header
  check_header-IsSealed b prev i h = elim (Result-cases (pub_key b.producer_public_b64)) [
    | inr (e, bad) ↦ absurd (ground arith)
    | inl (raw, good) ↦ record {
      version = beq→eq _ _ (ground arith);
      indexed = beq→eq _ _ (ground arith);
      linked = beq→eq _ _ (ground arith);
      counted = beq→eq _ _ (ground arith);
      rooted = beq→eq _ _ (ground arith);
      key = raw;
      keyed = good;
      produced = beq→eq _ _ (ground arith);
      signed = ground arith;
    }
  ]

  -- The signed receipt behind a credit: its key derives the credited account, its signature
  -- holds, it is the receipt that the entry names, and its credit does not compare as more than
  -- 1e-6 away from the amount, a test that NaN passes.
  pub record IsBacked (e : LedgerEntry F) : Type 0 where
    pub signed_receipt : SignedReceipt F
    pub key : Bytes
    pub attached : e.receipt ≡ some signed_receipt
    pub keyed : pub_key signed_receipt.public_b64 ≡ ok key
    pub derived : node_id_from_public key ≡ e.account
    pub owned : signed_receipt.receipt.node_id ≡ e.account
    pub signed :
        verify_json signed_receipt.public_b64
          (dump_receipt signed_receipt.receipt)
          signed_receipt.signature_b64
        ≡ true
    pub named : signed_receipt.receipt.receipt_id ≡ e.ref_receipt_id
    pub measured : differs (credit_for_receipt signed_receipt) e.delta ≡ false

  -- What the loop establishes of one entry.
  pub record IsLawful (e : LedgerEntry F) : Type 0 where
    pub known : (e.reason ≡ verified_work) ⊎ (e.reason ≡ consumption) ⊎ (e.reason ≡ correction)
    pub minted : is_positive e.delta ≡ true → e.reason ≡ verified_work
    pub backed : e.reason ≡ verified_work → IsBacked e
    pub spent : e.reason ≡ consumption → is_nonneg e.delta ≡ false

  check_backing-IsBacked : (e : LedgerEntry F) → check_backing true e ≡ ok tt → IsBacked e
  unfolding check_backing check_receipt
  check_backing-IsBacked e h = elim (Option-cases e.receipt) [
    | inl missing ↦ absurd (ground arith)
    | inr (sr, found) ↦ elim (Result-cases (pub_key sr.public_b64)) [
      | inr (x, bad) ↦ absurd (ground arith)
      | inl (raw, good) ↦
          let own : sr.receipt.node_id ≡ e.account = beq→eq _ _ (ground arith) in
          let from_key : node_id_from_public raw ≡ sr.receipt.node_id = beq→eq _ _ (ground arith) in
          record {
            signed_receipt = sr;
            key = raw;
            attached = found;
            keyed = good;
            derived = from_key ∙ own;
            owned = own;
            signed = ground arith;
            named = beq→eq _ _ (ground arith);
            measured = ground arith;
          }
    ]
  ]

  check_entry-IsLawful :
      (seen local : List Str) (e : LedgerEntry F) {local' : List Str}
      → check_entry true seen local e ≡ ok local'
      → IsLawful e
  unfolding check_entry
  check_entry-IsLawful seen local e h = elim (beq_cases e.reason verified_work) [
    | inl (test, work) ↦ record {
      known = inl work;
      minted = λ _. work;
      backed = λ _. check_backing-IsBacked e (ground arith);
      spent = λ c. absurd (work-ne-consumption (sym work ∙ c));
    }
    | inr (test, other) ↦ record {
      known = inr (ground (arith, beq→eq e.reason consumption, beq→eq e.reason correction));
      minted = λ (p : is_positive e.delta ≡ true). absurd (ground arith);
      backed = λ w. absurd (other w);
      spent = λ c. ground (arith, eq→beq e.reason consumption c);
    }
  ]

  check_entries-IsLawful :
      (seen local : List Str) (es : List (LedgerEntry F)) {local' : List Str}
      → check_entries true seen local es ≡ ok local'
      → All IsLawful es
  unfolding check_entries
  check_entries-IsLawful seen local [] h = tt
  check_entries-IsLawful seen local (e ∷ es) h =
      let (l, first, rest) = >>=-eq-ok (check_entry true seen local e) _ h in
      (check_entry-IsLawful seen local e first, check_entries-IsLawful seen l es rest)

  -- The parts of an accepted verification.
  pub verify_block-parts :
      (b : Block F) (prev : Str) (i : ℕ) (seen : List Str) {seen' : List Str}
      → verify_block b prev i seen true ≡ ok seen'
      → (local : List Str) × (check_header b prev i ≡ ok tt)
        × (check_entries true seen [] b.entries ≡ ok local)
        × (seen' ≡ local ++ seen)
  unfolding verify_block
  verify_block-parts b prev i seen h =
      let (u, sealed, rest) = >>=-eq-ok (check_header b prev i) _ h in
      let (local, looped, last) = >>=-eq-ok (check_entries true seen [] b.entries) _ rest in
      (local, sealed, looped, ground arith)

  -- What an accepted block has been checked for: the header is sealed by its producer and fits
  -- its place in the chain, every entry has a known reason, a positive amount only as verified
  -- work, and verified work only behind a receipt that the credited account signed. The credit of
  -- that receipt does not compare as more than 1e-6 away from the amount, which says nothing of the
  -- amount where the difference is NaN.
  pub verify_block_sound :
      (b : Block F) (prev : Str) (i : ℕ) (seen : List Str) {seen' : List Str}
      → verify_block b prev i seen true ≡ ok seen'
      → IsSealed b prev i × All IsLawful b.entries
  verify_block_sound b prev i seen h =
      let (local, sealed, looped, _) = verify_block-parts b prev i seen h in
      (check_header-IsSealed b prev i sealed, check_entries-IsLawful seen [] b.entries looped)
