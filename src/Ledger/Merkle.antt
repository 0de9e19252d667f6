-- ===== src/Ledger/Merkle.antt =====
-- The Merkle root over the entry hashes of a block.
use mesh_compute.Prelude.{ℕ, zero, suc, List, [], ◌∷◌, ◌++◌, map, length}
use mesh_compute.Prelude.Bytes.{Bytes, Str, codes, hex, from_hex}
use mesh_compute.Python.{Floats}
use mesh_compute.Protocol.Identity.{Crypto, blake3_hex}
use mesh_compute.Protocol.Json.{Json, Fields, canonical_json}
use mesh_compute.Protocol.Receipts.{SignedReceipt}
use mesh_compute.Prelude.{Option}

-- One credit event.
pub record LedgerEntry (F : Type 0) : Type 0 where
  pub entry_id : Str
  pub account : Str
  pub delta : F
  pub reason : Str
  pub ref_receipt_id : Str
  pub challenge_nonce : Str
  pub receipt : Option (SignedReceipt F)

-- What `entry_hash` hashes: the receipt is left out.
unfoldable pub dump_entry : {F : Type 0} → LedgerEntry F → Json F
dump_entry e = Json.obj (
    Fields.field (codes "entry_id") (Json.str e.entry_id) (
      Fields.field (codes "account") (Json.str e.account) (
        Fields.field (codes "delta") (Json.float e.delta) (
          Fields.field (codes "reason") (Json.str e.reason) (
            Fields.field (codes "ref_receipt_id") (Json.str e.ref_receipt_id)
              (Fields.field (codes "challenge_nonce") (Json.str e.challenge_nonce) Fields.end))))))

module _ {F : Type 0} ⦃fl : Floats F⦄ ⦃cr : Crypto⦄ where
  unfoldable pub entry_hash : LedgerEntry F → Str
  entry_hash e = blake3_hex (canonical_json (dump_entry e))

module _ ⦃cr : Crypto⦄ where
  -- One round of the loop: neighbours are hashed together, and a last one without a neighbour
  -- with itself.
  unfoldable pub next_level : List Bytes → List Bytes
  next_level [] = []
  next_level (a ∷ []) = cr.blake3 (a ++ a) ∷ []
  next_level (a ∷ b ∷ rest) = cr.blake3 (a ++ b) ∷ next_level rest

  -- `while len(level) > 1`; a round halves the level, so its length is fuel enough.
  unfoldable pub fold_levels : ℕ → List Bytes → Bytes
  unfolding next_level
  fold_levels fuel [] = []
  fold_levels fuel (a ∷ []) = a
  fold_levels zero (a ∷ b ∷ rest) = []
  fold_levels (suc fuel) (a ∷ b ∷ rest) = fold_levels fuel (next_level (a ∷ b ∷ rest))

  -- The root over digests that are there already.
  unfoldable pub root_of_level : List Bytes → Str
  unfolding fold_levels
  root_of_level [] = blake3_hex []
  root_of_level (a ∷ rest) = hex (fold_levels (length (a ∷ rest)) (a ∷ rest))

module _ {F : Type 0} ⦃fl : Floats F⦄ ⦃cr : Crypto⦄ where
  unfoldable pub merkle_root : List (LedgerEntry F) → Str
  merkle_root entries = root_of_level (map (λ e. from_hex (entry_hash e)) entries)
