-- ===== src/Store/History.antt =====
-- The ledger and the receipts over any sequence of calls.
use mesh_compute.Prelude.{
  ◌≡◌, inl, inr, refl, sym, ap, subst, ◌∙◌, Bool, true, false, ◌&&◌, ◌||◌, List, [], ◌∷◌, ◌++◌,
  arith, Bool-cases, any, Elem, ◌==◌, nat_eq, list_eq, beq_self, Elem-append_left,
  Elem-append_right,
}
use mesh_compute.Prelude.Dict.{has_key}
use mesh_compute.Protocol.Json.{Json}
use mesh_compute.Prelude.Bytes.{Str}
use mesh_compute.Store.Tables.{
  put_session, append_ledger, put_manifest, ReceiptRow, put_capability, touch_node, conflicts,
  Store, put_receipt, upsert_node, create_pool,
}
use mathlib.Core.List.{append-nil, append_assoc}

-- The methods of `Store` that write.
pub data Op (F : Type 0) : Type 0 where
  op_upsert_node : Str → Str → List Str → F → Bool → Op F
  op_touch_node : Str → F → Bool → Op F
  op_put_capability : Str → Json F → F → Op F
  op_put_manifest : Str → Str → Json F → Op F
  op_put_receipt : Str → Str → Str → Str → Json F → Op F
  op_append_ledger : Str → F → Str → Str → F → Op F
  op_put_session : Str → Json F → F → Op F
  op_create_pool : Str → Bool → F → Op F

or_right : (a b : Bool) → b ≡ true → (a || b) ≡ true
or_right a b h = ground arith

module _ {A : Type 0} where
  -- One list is the other with rows after it.
  abbrev pub Extends : List A → List A → Type 0
  Extends old new = (more : List A) × (new ≡ old ++ more)

  Extends-refl : (l : List A) → Extends l l
  Extends-refl l = ([], sym (append-nil l))

  Extends-trans : (a b c : List A) → Extends a b → Extends b c → Extends a c
  Extends-trans a b c (m, e) (n, f) = (m ++ n, f ∙ ap (λ l. l ++ n) e ∙ append_assoc a m n)

  Elem-any : (p : A → Bool) (x : A) (l : List A) → Elem x l → p x ≡ true → any p l ≡ true
  Elem-any p x [] m h = absurd m
  Elem-any p x (y ∷ l) (inl e) h = rw (ap p (sym e) ∙ h) refl
  Elem-any p x (y ∷ l) (inr m) h = ground (arith, Elem-any p x l m h)

module _ {F : Type 0} where
  unfoldable pub apply : Op F → Store F → Store F
  apply (op_upsert_node id key pools seen online) s = upsert_node id key pools seen online s
  apply (op_touch_node id seen online) s = touch_node id seen online s
  apply (op_put_capability id signed updated) s = put_capability id signed updated s
  apply (op_put_manifest alias hash signed) s = put_manifest alias hash signed s
  apply (op_put_receipt id node plan nonce body) s = (put_receipt id node plan nonce body s).0
  apply (op_append_ledger node delta reason receipt ts) s =
      (append_ledger node delta reason receipt ts s).0
  apply (op_put_session id plan created) s = put_session id plan created s
  apply (op_create_pool id private created) s = (create_pool id private created s).0

  -- Calls one after the other.
  unfoldable pub run : List (Op F) → Store F → Store F
  run [] s = s
  run (o ∷ os) s = run os (apply o s)

  put_receipt-Extends :
      (id node plan nonce : Str) (body : Json F) (s : Store F)
      → Extends s.receipts (put_receipt id node plan nonce body s).0.receipts
        × ((put_receipt id node plan nonce body s).0.ledger ≡ s.ledger)
  unfolding put_receipt
  put_receipt-Extends id node plan nonce body s =
      elim (Bool-cases (any (conflicts id node nonce) s.receipts)) [
        | inl clash ↦ rw clash (Extends-refl s.receipts, refl)
        | inr fresh ↦ rw fresh ((_, refl), refl)
      ]

  create_pool-Extends :
      (id : Str) (private : Bool) (created : F) (s : Store F)
      → ((create_pool id private created s).0.receipts ≡ s.receipts)
        × ((create_pool id private created s).0.ledger ≡ s.ledger)
  unfolding create_pool
  create_pool-Extends id private created s = elim (Bool-cases (has_key id s.pools)) [
    | inl there ↦ rw there (refl, refl)
    | inr fresh ↦ rw fresh (refl, refl)
  ]

  apply-Extends :
      (o : Op F) (s : Store F)
      → Extends s.receipts (apply o s).receipts × Extends s.ledger (apply o s).ledger
  unfolding apply upsert_node touch_node put_capability put_manifest append_ledger put_session
  apply-Extends (op_put_receipt id node plan nonce body) s =
      let (r, l) = put_receipt-Extends id node plan nonce body s in
      (r, ([], l ∙ sym (append-nil s.ledger)))
  apply-Extends (op_append_ledger node delta reason receipt ts) s = (Extends-refl _, (_, refl))
  apply-Extends (op_create_pool id private created) s =
      let (r, l) = create_pool-Extends id private created s in
      (([], r ∙ sym (append-nil s.receipts)), ([], l ∙ sym (append-nil s.ledger)))
  apply-Extends _ s = (Extends-refl _, Extends-refl _)

  -- No sequence of calls takes a row out of the ledger or the receipts, changes one, or puts one
  -- before another: the rows of before are the first ones after it.
  pub run-Extends :
      (os : List (Op F)) (s : Store F)
      → Extends s.ledger (run os s).ledger × Extends s.receipts (run os s).receipts
  unfolding run
  run-Extends [] s = (Extends-refl _, Extends-refl _)
  run-Extends (o ∷ os) s =
      let (r, l) = apply-Extends o s in
      let (l2, r2) = run-Extends os (apply o s) in
      (Extends-trans _ _ _ l l2, Extends-trans _ _ _ r r2)

  put_receipt-accepted :
      (id node plan nonce : Str) (body : Json F) (s : Store F)
      → (put_receipt id node plan nonce body s).1 ≡ true
      → (x : ReceiptRow F) × Elem x (put_receipt id node plan nonce body s).0.receipts
        × (x.node_id ≡ node)
        × (x.nonce ≡ nonce)
  unfolding put_receipt
  put_receipt-accepted id node plan nonce body s accepted =
      elim (Bool-cases (any (conflicts id node nonce) s.receipts)) [
        | inl clash ↦ absurd (let e = rw clash at accepted in cc)
        | inr fresh ↦ rw fresh (_, Elem-append_right _ s.receipts (_ ∷ []) (inl refl), refl, refl)
      ]

  refused_lem :
      (id node plan nonce : Str) (body : Json F) (t : Store F) (x : ReceiptRow F)
      → Elem x t.receipts
      → x.node_id ≡ node
      → x.nonce ≡ nonce
      → put_receipt id node plan nonce body t ≡ (t, false)
  unfolding put_receipt conflicts
  refused_lem id node plan nonce body t x m e f =
      let same : ((node == x.node_id) && (nonce == x.nonce)) ≡ true =
        rw (e, f, beq_self node, beq_self nonce) refl in
      let clash : any (conflicts id node nonce) t.receipts ≡ true =
        Elem-any (conflicts id node nonce) x t.receipts m (unfold conflicts in or_right _ _ same) in
      rw clash refl

  -- Once a node's receipt with a nonce was accepted, one of that node with that nonce is refused
  -- after whatever calls come in between, under any receipt id, plan and content, and the refusal
  -- leaves the store as it is.
  pub put_receipt-replay :
      (id node plan nonce : Str) (body : Json F) (s : Store F) (os : List (Op F)) (id2 plan2 : Str)
      (body2 : Json F)
      → (put_receipt id node plan nonce body s).1 ≡ true
      → put_receipt id2 node plan2 nonce body2 (run os (put_receipt id node plan nonce body s).0)
        ≡ (run os (put_receipt id node plan nonce body s).0, false)
  put_receipt-replay id node plan nonce body s os id2 plan2 body2 accepted =
      let s2 = (put_receipt id node plan nonce body s).0 in
      let (x, m, e, f) = put_receipt-accepted id node plan nonce body s accepted in
      let (_, (more, grown)) = run-Extends os s2 in
      refused_lem id2 node plan2 nonce body2 (run os s2) x
        (subst (Elem x) (sym grown) (Elem-append_left x s2.receipts more m)) e f
