-- ===== src/Control/Credit.antt =====
-- From a plan to the credit for its work: what a receipt needs, and that an honest one has it.
use mesh_compute.Control.Accounts.{put_receipt-ledger}
use mesh_compute.Python.{Floats}
use mesh_compute.Prelude.Bytes.{codes, Str}
use mesh_compute.Prelude.{
  list_beq, ◌≡◌, refl, sym, ap, subst, ◌∙◌, true, false, some, List, [], ◌∷◌, ◌++◌, map, any, ok,
  nat_eq, list_eq, contains, eq→beq,
}
use mesh_compute.Prelude.Dict.{lookup_or, lookup-insert_self}
use mesh_compute.Protocol.Identity.{
  Crypto, IsCrypto, NodeIdentity, verify_json, verify-sign, public_b64, sign_json,
}
use mesh_compute.Protocol.Receipts.{SignedReceipt, WorkReceipt, dump_receipt}
use mesh_compute.Ledger.Block.{credit_for_receipt}
use mesh_compute.Rendezvous.Peers.{str_items}
use mesh_compute.Scheduler.Cost.{CostModel}
use mesh_compute.Scheduler.Plan.{ExecutionPlan}
use mesh_compute.Store.Tables.{
  NodeRow, LedgerRow, get_node, get_session, put_session, put_receipt, append_ledger, conflicts,
}
use mesh_compute.Control.Read.{get, strs_of, items_of, str_of}
use mesh_compute.Control.Requests.{ScheduleRequest}
use mesh_compute.Control.Nodes.{App}
use mesh_compute.Control.Scheduling.{schedule, dump_plan, keep_session}
use mesh_compute.Control.Receipts.{
  with_receipt, paid, dump_signed, submit_receipt, credit, is_hash, is_implausible,
}
use mesh_compute.Control.Served.{IsCreditable, check_work-ok, submit_receipt-eq-ok, schedule-eq-ok}
use mesh_compute.Control.Buckets.{AreBuckets, use_nonce-spent}

strs-str_items :
    (F : Type 0) (l : List Str) → map (λ x. str_of (some x)) (items_of (str_items {F = F} l)) ≡ l
strs-str_items F [] = refl
strs-str_items F (s ∷ l) = ap (λ m. s ∷ m) (strs-str_items F l)

module _ {F : Type 0} where
  -- A stored plan reads back.
  chain-dump_plan :
      (p : ExecutionPlan F) → strs_of (get (codes "peer_chain") (dump_plan p)) ≡ p.peer_chain
  unfolding dump_plan list_beq
  chain-dump_plan p = strs-str_items F p.peer_chain

  hash-dump_plan :
      (p : ExecutionPlan F) (hash : Str)
      → hash ≡ p.model_manifest_hash
      → is_hash hash (get (codes "model_manifest_hash") (dump_plan p)) ≡ true
  unfolding dump_plan list_beq
  hash-dump_plan p hash e = eq→beq hash p.model_manifest_hash e

module _ {F : Type 0} ⦃fl : Floats F⦄ ⦃cr : Crypto⦄ where
  -- The signed receipt of a node for its work.
  abbrev pub receipt_by : NodeIdentity → WorkReceipt F → SignedReceipt F
  receipt_by id r = record {
    receipt = r;
    public_b64 = public_b64 id;
    signature_b64 = sign_json id (dump_receipt r);
  }

  submit_receipt-fresh :
      (now : F) (sr : SignedReceipt F) (app : App F)
      → IsCreditable now sr app
      → any
          (conflicts sr.receipt.receipt_id sr.receipt.node_id sr.receipt.challenge_nonce)
          app.store.receipts
        ≡ false
      → submit_receipt now sr app
        ≡ ok (paid now sr app (with_receipt sr app.store).0, credit_for_receipt sr)
  unfolding submit_receipt put_receipt credit
  submit_receipt-fresh now sr app c fresh = rw (check_work-ok now sr app c, fresh) refl

  -- A receipt is credited only for work that the control plane gave out: the node is registered
  -- with the key that signed it, took part in a stored plan for that model, and holds the nonce.
  -- The ledger then has one row more, for the amount of `credit_for_receipt`, and the nonce is
  -- spent.
  pub submit_receipt-earned :
      (now : F) (sr : SignedReceipt F) (app : App F) {app2 : App F} {delta : F}
      → AreBuckets app
      → submit_receipt now sr app ≡ ok (app2, delta)
      → IsCreditable now sr app
        × ((row : LedgerRow F) × (app2.store.ledger ≡ app.store.ledger ++ row ∷ [])
            × (row.node_id ≡ sr.receipt.node_id)
            × (row.delta ≡ delta)
            × (row.ref_receipt ≡ sr.receipt.receipt_id))
        × (delta ≡ credit_for_receipt sr)
        × (contains sr.receipt.challenge_nonce (lookup_or [] sr.receipt.node_id app2.issued_nonces)
            ≡ false)
  unfolding append_ledger
  submit_receipt-earned now sr app {app2} b e =
      let r = sr.receipt in
      let (c, stored, amount, after) = submit_receipt-eq-ok now sr app e in
      let books =
        put_receipt-ledger r.receipt_id r.node_id r.plan_id r.challenge_nonce (dump_signed sr)
          app.store in
      let row : LedgerRow F = record {
        node_id = r.node_id;
        delta = credit_for_receipt sr;
        reason = codes "work_receipt";
        ref_receipt = r.receipt_id;
        ts = now;
      } in
      (
        c,
        (
          row,
          ap (λ a. a.store.ledger) after ∙ ap (λ l. l ++ row ∷ []) books,
          refl,
          sym amount,
          refl,
        ),
        amount,
        subst (λ a. contains r.challenge_nonce (lookup_or [] r.node_id a.issued_nonces) ≡ false)
            (sym after) (use_nonce-spent r.node_id r.challenge_nonce app b),
      )

  session_kept :
      (now : F) (app : App F) (p : ExecutionPlan F)
      → get_session p.plan_id (keep_session now app p).store ≡ some (dump_plan p)
  unfolding get_session put_session
  session_kept now app p = rw (lookup-insert_self p.plan_id _ app.store.sessions) refl

  -- A node that does its part of a plan is paid for it: after a request that was scheduled, the
  -- first receipt that a registered node of the plan's chain signs for it, with a nonce that it was
  -- given and work that fits the time, is credited with `credit_for_receipt`.
  pub schedule-submit_receipt :
      (laws : IsCrypto cr) (cost : CostModel F) (now : F) (plan_id : Str) (req : ScheduleRequest)
      (app : App F) (id : NodeIdentity) (now2 : F) (r : WorkReceipt F) {app2 : App F}
      {p : ExecutionPlan F} {row : NodeRow F}
      → schedule cost now plan_id req app ≡ ok (app2, p)
      → get_node r.node_id app.store ≡ some row
      → row.public_b64 ≡ public_b64 id
      → r.plan_id ≡ p.plan_id
      → contains r.node_id p.peer_chain ≡ true
      → r.model_manifest_hash ≡ p.model_manifest_hash
      → contains r.challenge_nonce (lookup_or [] r.node_id app.issued_nonces) ≡ true
      → is_implausible now2 r ≡ false
      → any (conflicts r.receipt_id r.node_id r.challenge_nonce) app.store.receipts ≡ false
      → (app3 : App F) × (submit_receipt now2 (receipt_by id r) app2
          ≡ ok (app3, credit_for_receipt (receipt_by id r)))
  unfolding get_node put_session verify_json sign_json
  schedule-submit_receipt laws cost now plan_id req app id now2 r {app2} {p} {row} e known key named
        member model nonce fits fresh =
      let (_, _, _, after) = schedule-eq-ok cost now plan_id req app e in
      let sr = receipt_by id r in
      let c : IsCreditable now2 sr (keep_session now app p) = record {
        row = row;
        plan = dump_plan p;
        registered = known;
        own_key = sym key;
        verifies = verify-sign laws id _;
        scheduled = rw named (session_kept now app p);
        took_part = rw (chain-dump_plan p) member;
        same_model = hash-dump_plan p r.model_manifest_hash model;
        issued = nonce;
        plausible = fits;
      } in
      (
        paid now2 sr app2 (with_receipt sr app2.store).0,
        rw after (submit_receipt-fresh now2 sr (keep_session now app p) c fresh),
      )
