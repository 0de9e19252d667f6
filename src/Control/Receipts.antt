-- ===== src/Control/Receipts.antt =====
-- The handler of `/api/v1/work-receipts`: what a receipt must be before its work is credited.
use mesh_compute.Prelude.Bytes.{codes, Str}
use mesh_compute.Python.{Floats}
use mesh_compute.Prelude.{
  Bool, true, false, not, ◌||◌, Option, none, some, List, [], ◌∷◌, if◌then◌else◌, Result, ok, err,
  ◌>>=◌, ◌>>◌, raise_if, ◌==◌, nat_eq, list_eq, contains,
}
use mesh_compute.Prelude.Int.{pos}
use mesh_compute.Prelude.Dict.{lookup_or, insert}
use mesh_compute.Protocol.Json.{Fields, str, Json}
use mesh_compute.Protocol.Identity.{Crypto, verify_json}
use mesh_compute.Protocol.Receipts.{SignedReceipt, WorkReceipt, dump_receipt}
use mesh_compute.Ledger.Block.{credit_for_receipt}
use mesh_compute.Store.Tables.{Store, get_node, get_session, put_receipt, append_ledger}
use mesh_compute.Control.Read.{get, strs_of}
use mesh_compute.Control.Requests.{
  HttpFault, key_mismatch, bad_signature, unknown_plan, not_in_plan, wrong_model, not_issued,
  implausible_work, duplicate_receipt,
}
use mesh_compute.Control.Nodes.{App, known_node}

-- `set.discard`
unfoldable pub discard : Str → List Str → List Str
discard x [] = []
discard x (y ∷ ys) = if x == y then ys else y ∷ discard x ys

module _ {F : Type 0} where
  -- `sr.model_dump(mode="json")`
  unfoldable pub dump_signed : SignedReceipt F → Json F
  dump_signed sr = Json.obj (
      Fields.field (codes "receipt") (dump_receipt sr.receipt) (
        Fields.field (codes "public_b64") (str sr.public_b64)
          (Fields.field (codes "signature_b64") (str sr.signature_b64) Fields.end)))

  abbrev pub require_plan : Option (Json F) → Result HttpFault (Json F)
  require_plan none = err unknown_plan
  require_plan (some plan) = ok plan

  -- `plan.get("model_manifest_hash") == hash`
  abbrev pub is_hash : Str → Option (Json F) → Bool
  is_hash hash (some (str h)) = hash == h
  is_hash hash _ = false

  unfoldable pub use_nonce : Str → Str → App F → App F
  use_nonce id nonce app = record app {
    issued_nonces = insert id (discard nonce (lookup_or [] id app.issued_nonces)) app.issued_nonces;
  }

module _ {F : Type 0} ⦃fl : Floats F⦄ where
  -- The receipt ends in the future, before it starts, or claims more work than fits in between.
  unfoldable pub is_implausible : F → WorkReceipt F → Bool
  is_implausible now r =
      let elapsed_ms = fl.mul (fl.sub r.finished_at r.started_at) (fl.decimal (pos 1000) 0) in
      fl.lt (fl.add now (fl.of_int (pos 60))) r.finished_at
      || fl.lt elapsed_ms (fl.of_int (pos 0))
      || fl.lt (fl.add (fl.mul elapsed_ms (fl.decimal (pos 105) 2)) (fl.of_int (pos 1000)))
          r.measured_work.gpu_active_ms

  -- The nonce is spent, and the ledger has the credit.
  abbrev pub paid : F → SignedReceipt F → App F → Store F → App F
  paid now sr app store =
      let r = sr.receipt in
      record (use_nonce r.node_id r.challenge_nonce app) {
        store =
            (append_ledger r.node_id (credit_for_receipt sr) (codes "work_receipt") r.receipt_id now
              store).0;
      }

  -- `store.put_receipt`, with its refusal.
  unfoldable pub credit :
      F → SignedReceipt F → App F → Store F × Bool → Result HttpFault (App F × F)
  credit now sr app (store, false) = err duplicate_receipt
  credit now sr app (store, true) = ok (paid now sr app store, credit_for_receipt sr)

  -- The store with the receipt in it, if it is new.
  abbrev pub with_receipt : SignedReceipt F → Store F → Store F × Bool
  with_receipt sr store =
      let r = sr.receipt in
      put_receipt r.receipt_id r.node_id r.plan_id r.challenge_nonce (dump_signed sr) store

  module _ ⦃cr : Crypto⦄ where
    -- Every check before the receipt is stored, in the order of the code.
    unfoldable pub check_work : F → SignedReceipt F → App F → Result HttpFault (Unit {0})
    check_work now sr app = do
      let r = sr.receipt
      node ← known_node (get_node r.node_id app.store)
      raise_if (not (sr.public_b64 == node.public_b64)) key_mismatch
      raise_if (not (verify_json sr.public_b64 (dump_receipt r) sr.signature_b64)) bad_signature
      plan ← require_plan (get_session r.plan_id app.store)
      raise_if (not (contains r.node_id (strs_of (get (codes "peer_chain") plan)))) not_in_plan
      raise_if (not (is_hash r.model_manifest_hash (get (codes "model_manifest_hash") plan)))
          wrong_model
      raise_if (not (contains r.challenge_nonce (lookup_or [] r.node_id app.issued_nonces)))
          not_issued
      raise_if (is_implausible now r) implausible_work

    -- The credit is the answer.
    unfoldable pub submit_receipt : F → SignedReceipt F → App F → Result HttpFault (App F × F)
    submit_receipt now sr app =
        check_work now sr app >> credit now sr app (with_receipt sr app.store)
