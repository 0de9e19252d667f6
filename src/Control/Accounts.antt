-- ===== src/Control/Accounts.antt =====
-- The books of the control plane: receipts and credits.
use mesh_compute.Protocol.Json.{Json}
use mesh_compute.Control.Meetings.{strip_left, strip_right}
use mesh_compute.Prelude.Bytes.{Str, codes}
use mesh_compute.Python.{Floats}
use mesh_compute.Prelude.{
  ◌≡◌, inl, inr, refl, sym, subst, Bool, true, List, [], ◌∷◌, ◌++◌, Bool-cases, any, nat_eq,
  list_eq,
}
use mesh_compute.Prelude.Dict.{has_key}
use mesh_compute.Protocol.Identity.{Crypto, NodeIdentity, verify_json}
use mesh_compute.Protocol.Receipts.{SignedReceipt, dump_receipt}
use mesh_compute.Ledger.Block.{credit_for_receipt}
use mesh_compute.Store.Tables.{
  ReceiptRow, LedgerRow, Store, put_receipt, append_ledger, create_pool, conflicts, upsert_node,
  touch_node, put_capability, put_session,
}
use mesh_compute.Store.Replay.{IsReplayFree, put_receipt_lem}
use mesh_compute.Control.Nodes.{App, issue_nonce}
use mesh_compute.Control.Receipts.{with_receipt, dump_signed}
use mesh_compute.Control.Served.{
  register_node-eq-ok, post_capabilities-eq-ok, heartbeat-eq-ok, schedule-eq-ok,
  submit_receipt-eq-ok, create_pool_handler-eq-ok, rendezvous_announce-eq-ok,
  rendezvous_connect-eq-ok,
}
use mesh_compute.Control.Scanning.{scan_manifests-IsCatalogStep}
use mesh_compute.Control.Steps.{
  registered, advertised, beaten, scanned, scheduled, credited, pooled, met, connected, Step, Reach,
}

module _ {F : Type 0} ⦃fl : Floats F⦄ ⦃cr : Crypto⦄ where
  -- The credit is what the formula gives for the receipt, which is stored and signed.
  abbrev pub Pays : ReceiptRow F → LedgerRow F → Type 0
  Pays x l =
      (sr : SignedReceipt F) × (x.json ≡ dump_signed sr)
      × (verify_json sr.public_b64 (dump_receipt sr.receipt) sr.signature_b64 ≡ true)
      × (x.receipt_id ≡ sr.receipt.receipt_id)
      × (x.node_id ≡ sr.receipt.node_id)
      × (x.nonce ≡ sr.receipt.challenge_nonce)
      × (l.ref_receipt ≡ sr.receipt.receipt_id)
      × (l.node_id ≡ sr.receipt.node_id)
      × (l.delta ≡ credit_for_receipt sr)

  -- One credit for each receipt, in the same order.
  abbrev pub PaysAll : List (ReceiptRow F) → List (LedgerRow F) → Type 0
  PaysAll [] [] = Unit {0}
  PaysAll [] (l ∷ ls) = ⊥
  PaysAll (x ∷ xs) [] = ⊥
  PaysAll (x ∷ xs) (l ∷ ls) = Pays x l × PaysAll xs ls

  abbrev pub IsAccounted : Store F → Type 0
  IsAccounted s = IsReplayFree s.receipts × PaysAll s.receipts s.ledger

  PaysAll-append :
      (xs : List (ReceiptRow F)) (ls : List (LedgerRow F)) (x : ReceiptRow F) (l : LedgerRow F)
      → PaysAll xs ls
      → Pays x l
      → PaysAll (xs ++ x ∷ []) (ls ++ l ∷ [])
  PaysAll-append [] [] x l h p = (p, tt)
  PaysAll-append [] (k ∷ ls) x l h p = absurd h
  PaysAll-append (y ∷ xs) [] x l h p = absurd h
  PaysAll-append (y ∷ xs) (k ∷ ls) x l h p = (h.0, PaysAll-append xs ls x l h.1 p)

  kept-IsAccounted :
      (s : Store F) {receipts : List (ReceiptRow F)} {ledger : List (LedgerRow F)}
      → receipts ≡ s.receipts
      → ledger ≡ s.ledger
      → IsAccounted s
      → IsReplayFree receipts × PaysAll receipts ledger
  kept-IsAccounted s receipts ledger a =
      (subst IsReplayFree (sym receipts) a.0, rw (receipts, ledger) a.1)

  pub put_receipt-ledger :
      (id node plan nonce : Str) (body : Json F) (s : Store F)
      → (put_receipt id node plan nonce body s).0.ledger ≡ s.ledger
  unfolding put_receipt
  put_receipt-ledger id node plan nonce body s =
      elim (Bool-cases (any (conflicts id node nonce) s.receipts)) [
        | inl clash ↦ rw clash refl
        | inr fresh ↦ rw fresh refl
      ]

  create_pool-books :
      (id : Str) (private : Bool) (created : F) (s : Store F)
      → ((create_pool id private created s).0.receipts ≡ s.receipts)
        × ((create_pool id private created s).0.ledger ≡ s.ledger)
  unfolding create_pool
  create_pool-books id private created s = elim (Bool-cases (has_key id s.pools)) [
    | inl there ↦ rw there (refl, refl)
    | inr fresh ↦ rw fresh (refl, refl)
  ]

  credited-IsAccounted :
      (now : F) (sr : SignedReceipt F) (s : Store F)
      → verify_json sr.public_b64 (dump_receipt sr.receipt) sr.signature_b64 ≡ true
      → (with_receipt sr s).1 ≡ true
      → IsAccounted s
      → IsAccounted
          (append_ledger sr.receipt.node_id
            (credit_for_receipt sr)
            (codes "work_receipt")
            sr.receipt.receipt_id
            now
            (with_receipt sr s).0).0
  unfolding append_ledger
  credited-IsAccounted now sr s good stored (f, p) =
      let r = sr.receipt in
      let (free, what) =
        put_receipt_lem r.receipt_id r.node_id r.plan_id r.challenge_nonce (dump_signed sr) s f in
      let books =
        put_receipt-ledger r.receipt_id r.node_id r.plan_id r.challenge_nonce (dump_signed sr) s in
      elim what [
        | inr (refused, _, _) ↦ absurd (cc (stored, refused))
        | inl (_, _, (x, grown, id, node, nonce, json)) ↦ (
          free,
          rw (grown, books)
              (PaysAll-append s.receipts s.ledger x _ p
                (sr, json, good, id, node, nonce, refl, refl, refl)),
        )
      ]

module _ {F : Type 0} ⦃fl : Floats F⦄ ⦃cr : Crypto⦄ (identity : NodeIdentity) where
  Step-IsAccounted :
      {app app2 : App F} → Step identity app app2 → IsAccounted app.store → IsAccounted app2.store
  unfolding issue_nonce upsert_node touch_node put_capability put_session
  Step-IsAccounted {app} (registered now victim nonce req e) a =
      let (_, _, after) = register_node-eq-ok now victim nonce req app e in
      subst (λ b. IsAccounted b.store) (sym after) a
  Step-IsAccounted {app} (advertised now id cap e) a =
      let (_, _, _, _, _, _, after) = post_capabilities-eq-ok now id cap app e in
      subst (λ b. IsAccounted b.store) (sym after) a
  Step-IsAccounted {app} (beaten now victim nonce id req e) a =
      let (_, _, _, _, after) = heartbeat-eq-ok now victim nonce id req app e in
      subst (λ b. IsAccounted b.store) (sym after) a
  Step-IsAccounted {app} (scanned files) a =
      let kept = scan_manifests-IsCatalogStep identity files app in
      kept-IsAccounted app.store kept.receipts kept.ledger a
  Step-IsAccounted {app} (scheduled cost now plan_id req e) a =
      let (_, _, _, after) = schedule-eq-ok cost now plan_id req app e in
      subst (λ b. IsAccounted b.store) (sym after) a
  Step-IsAccounted {app} (credited now sr e) a =
      let (c, stored, _, after) = submit_receipt-eq-ok now sr app e in
      subst (λ b. IsAccounted b.store) (sym after)
        (credited-IsAccounted now sr app.store c.verifies stored a)
  Step-IsAccounted {app} (pooled now id private e) a =
      let (receipts, ledger) =
        create_pool-books (strip_right (strip_left id)) private now app.store in
      subst (λ b. IsAccounted b.store) (sym (create_pool_handler-eq-ok now id private app e))
        (kept-IsAccounted app.store receipts ledger a)
  Step-IsAccounted {app} (met req source_addr now e) a =
      let (_, after) = rendezvous_announce-eq-ok req source_addr now app e in
      subst (λ b. IsAccounted b.store) (sym after) a
  Step-IsAccounted {app} (connected session_id req plan_id signature now ttl_s e) a =
      let (_, after) =
        rendezvous_connect-eq-ok identity session_id req plan_id signature now ttl_s app e in
      subst (λ b. IsAccounted b.store) (sym after) a

  -- Through any requests and scans the ledger holds one credit for each stored receipt, in the same
  -- order: it pays the receipt's node what `credit_for_receipt` gives for it, and the receipt is
  -- signed. No receipt id, and no nonce of a node, is stored twice.
  pub Reach-IsAccounted :
      {app app2 : App F} → Reach identity app app2 → IsAccounted app.store → IsAccounted app2.store
  Reach-IsAccounted Reach.here a = a
  Reach-IsAccounted (Reach.next r s) a = Step-IsAccounted s (Reach-IsAccounted r a)
