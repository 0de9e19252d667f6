-- ===== src/Ledger/Block.antt =====
-- Blocks of the ledger: production and verification.
use mesh_compute.Prelude.{
  ℕ, Bool, true, false, not, ◌&&◌, ◌||◌, none, some, List, [], ◌∷◌, ◌++◌, length, if◌then◌else◌,
  Result, ok, err, ◌>>=◌, ◌>>◌, raise_if, ◌==◌, contains, nat_eq, list_eq,
}
use mesh_compute.Prelude.Int.{ℤ, pos, int_eq}
use mesh_compute.Prelude.Bytes.{Bytes, Str, codes}
use mesh_compute.Python.{Floats}
use mesh_compute.Protocol.Identity.{
  Crypto, NodeIdentity, blake3_hex, public_key, node_id_from_public, verify_json, node_id,
  public_b64, sign_json,
}
use mesh_compute.Protocol.Json.{Json, Fields, canonical_json}
use mesh_compute.Protocol.Receipts.{Outcome, SignedReceipt, dump_receipt}
use mesh_compute.Ledger.Merkle.{LedgerEntry, merkle_root}

-- Why a `ChainError` is raised, in the order of the checks.
pub data ChainFault : Type 0 where
  bad_version bad_index prev_mismatch bad_count root_mismatch wrong_producer bad_signature :
      ChainFault
  unauthorised_mint missing_receipt receipt_key_mismatch bad_receipt_signature : ChainFault
  account_mismatch ref_mismatch delta_mismatch missing_nonce nonce_reused : ChainFault
  consumption_sign unknown_reason no_valid_chain : ChainFault

-- The exceptions of this module; a key that cannot be read is a `ValueError`.
pub data LedgerError : Type 0 where
  chain_error : ChainFault → LedgerError
  value_error : LedgerError

abbrev pub protocol_version : ℤ
protocol_version = pos 1

abbrev pub verified_work : Str
verified_work = codes "verified_work"

abbrev pub consumption : Str
consumption = codes "consumption"

abbrev pub correction : Str
correction = codes "correction"

pub record BlockHeader (F : Type 0) : Type 0 where
  pub protocol_version : ℤ
  pub index : ℤ
  pub prev_hash : Str
  pub timestamp : F
  pub merkle_root : Str
  pub producer_node_id : Str
  pub entry_count : ℤ

pub record Block (F : Type 0) : Type 0 where
  pub header : BlockHeader F
  pub entries : List (LedgerEntry F)
  pub producer_public_b64 : Str
  pub producer_signature_b64 : Str

unfoldable pub dump_header : {F : Type 0} → BlockHeader F → Json F
dump_header h = Json.obj (
    Fields.field (codes "protocol_version") (Json.int h.protocol_version) (
      Fields.field (codes "index") (Json.int h.index) (
        Fields.field (codes "prev_hash") (Json.str h.prev_hash) (
          Fields.field (codes "timestamp") (Json.float h.timestamp) (
            Fields.field (codes "merkle_root") (Json.str h.merkle_root) (
              Fields.field (codes "producer_node_id") (Json.str h.producer_node_id)
                (Fields.field (codes "entry_count") (Json.int h.entry_count) Fields.end)))))))

-- `_pub`
unfoldable pub pub_key : ⦃cr : Crypto⦄ → Str → Result LedgerError Bytes
pub_key s = elim (public_key s) [ ok raw ↦ ok raw | err e ↦ err value_error ]

abbrev pub fail_if : Bool → ChainFault → Result LedgerError (Unit {0})
fail_if c f = raise_if c (chain_error f)

-- `r.outcome not in (Outcome.OK, Outcome.PARTIAL)`
unfoldable pub earns : Outcome → Bool
earns Outcome.ok_outcome = true
earns Outcome.partial = true
earns Outcome.failed = false
earns Outcome.cancelled = false

module _ {F : Type 0} ⦃fl : Floats F⦄ where
  unfoldable pub credit_for_receipt : SignedReceipt F → F
  credit_for_receipt sr =
      let w = sr.receipt.measured_work in
      if not (earns sr.receipt.outcome)
      then fl.decimal (pos 0) 0
      else if not (w.tokens_generated == pos 0)
      then fl.of_int w.tokens_generated
      else fl.round (fl.div w.gpu_active_ms (fl.decimal (pos 1000) 0)) 3

  -- `delta > 0` and `delta >= 0`
  unfoldable pub is_positive : F → Bool
  is_positive delta = fl.lt (fl.decimal (pos 0) 0) delta

  unfoldable pub is_nonneg : F → Bool
  is_nonneg delta = fl.le (fl.decimal (pos 0) 0) delta

  -- `abs(expected - delta) > 1e-6`
  unfoldable pub differs : F → F → Bool
  differs expected delta = fl.lt (fl.decimal (pos 1) 6) (fl.abs (fl.sub expected delta))

module _ {F : Type 0} ⦃fl : Floats F⦄ ⦃cr : Crypto⦄ where
  unfoldable pub block_hash : Block F → Str
  block_hash b = blake3_hex (canonical_json (dump_header b.header))

  unfoldable pub produce : NodeIdentity → ℤ → Str → F → List (LedgerEntry F) → Block F
  produce identity index prev_hash timestamp entries =
      let header : BlockHeader F = record {
        protocol_version = protocol_version;
        index = index;
        prev_hash = prev_hash;
        timestamp = timestamp;
        merkle_root = merkle_root entries;
        producer_node_id = node_id identity;
        entry_count = pos (length entries);
      } in
      record {
        header = header;
        entries = entries;
        producer_public_b64 = public_b64 identity;
        producer_signature_b64 = sign_json identity (dump_header header);
      }

  -- The checks on the receipt behind a `verified_work` entry.
  unfoldable pub check_receipt : LedgerEntry F → SignedReceipt F → Result LedgerError (Unit {0})
  check_receipt e sr = do
    raw ← pub_key sr.public_b64
    fail_if (not (node_id_from_public raw == sr.receipt.node_id)) receipt_key_mismatch
    fail_if (not (verify_json sr.public_b64 (dump_receipt sr.receipt) sr.signature_b64))
        bad_receipt_signature
    fail_if (not (sr.receipt.node_id == e.account)) account_mismatch
    fail_if (not (sr.receipt.receipt_id == e.ref_receipt_id)) ref_mismatch
    fail_if (differs (credit_for_receipt sr) e.delta) delta_mismatch

  unfoldable pub check_backing : Bool → LedgerEntry F → Result LedgerError (Unit {0})
  check_backing require_receipts e =
      if require_receipts
      then elim e.receipt [
        | none ↦ err (chain_error missing_receipt)
        | some sr ↦ check_receipt e sr
      ]
      else ok tt

  -- One round of the loop over the entries; the result is `local_nonces`.
  unfoldable pub check_entry :
      Bool → List Str → List Str → LedgerEntry F → Result LedgerError (List Str)
  check_entry require_receipts seen local e = do
    fail_if (is_positive e.delta && not (e.reason == verified_work)) unauthorised_mint
    if e.reason == verified_work
        then (do
          check_backing require_receipts e
          fail_if (e.challenge_nonce == []) missing_nonce
          fail_if (contains e.challenge_nonce seen || contains e.challenge_nonce local) nonce_reused
          ok (e.challenge_nonce ∷ local))
        else (if e.reason == consumption || e.reason == correction
            then (do
              fail_if (e.reason == consumption && is_nonneg e.delta) consumption_sign
              ok local)
            else err (chain_error unknown_reason))

  unfoldable pub check_entries :
      Bool → List Str → List Str → List (LedgerEntry F) → Result LedgerError (List Str)
  check_entries require_receipts seen local [] = ok local
  check_entries require_receipts seen local (e ∷ es) = do
    local' ← check_entry require_receipts seen local e
    check_entries require_receipts seen local' es

  -- The checks before the loop.
  unfoldable pub check_header : Block F → Str → ℕ → Result LedgerError (Unit {0})
  check_header b expected_prev_hash expected_index = do
    fail_if (not (b.header.protocol_version == protocol_version)) bad_version
    fail_if (not (b.header.index == pos expected_index)) bad_index
    fail_if (not (b.header.prev_hash == expected_prev_hash)) prev_mismatch
    fail_if (not (b.header.entry_count == pos (length b.entries))) bad_count
    fail_if (not (merkle_root b.entries == b.header.merkle_root)) root_mismatch
    raw ← pub_key b.producer_public_b64
    fail_if (not (node_id_from_public raw == b.header.producer_node_id)) wrong_producer
    fail_if
        (not (verify_json b.producer_public_b64 (dump_header b.header) b.producer_signature_b64))
        bad_signature

  -- `verify_block`: the result is `seen_nonces` after the call; an error leaves it as it was.
  unfoldable pub verify_block : Block F → Str → ℕ → List Str → Bool → Result LedgerError (List Str)
  verify_block b expected_prev_hash expected_index seen require_receipts = do
    check_header b expected_prev_hash expected_index
    local ← check_entries require_receipts seen [] b.entries
    ok (local ++ seen)
