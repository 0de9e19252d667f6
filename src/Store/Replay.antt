-- ===== src/Store/Replay.antt =====
-- `put_receipt`: a receipt id, and a node's nonce, are stored once.
use mesh_compute.Prelude.{
  ◌≡◌, ◌⊎◌, inl, inr, refl, true, false, List, [], ◌∷◌, ◌++◌, Bool-cases, any, All, Elem, nat_eq,
  list_eq, All-append, any-All, any-Elem, beq_comm,
}
use mesh_compute.Protocol.Json.{Json}
use mesh_compute.Prelude.Bytes.{Str}
use mesh_compute.Store.Tables.{conflicts, put_receipt, ReceiptRow, Store}

module _ {F : Type 0} where
  -- No row has the id of another, nor its node and nonce.
  abbrev pub IsReplayFree : List (ReceiptRow F) → Type 0
  IsReplayFree [] = Unit {0}
  IsReplayFree (x ∷ xs) =
      All (λ y. conflicts x.receipt_id x.node_id x.nonce y ≡ false) xs × IsReplayFree xs

  conflicts_comm :
      (x y : ReceiptRow F)
      → conflicts x.receipt_id x.node_id x.nonce y ≡ false
      → conflicts y.receipt_id y.node_id y.nonce x ≡ false
  unfolding conflicts
  conflicts_comm x y h =
      rw
        (beq_comm y.receipt_id x.receipt_id, beq_comm y.node_id x.node_id, beq_comm y.nonce x.nonce)
        h

  append-IsReplayFree :
      (xs : List (ReceiptRow F)) (y : ReceiptRow F)
      → All (λ x. conflicts y.receipt_id y.node_id y.nonce x ≡ false) xs
      → IsReplayFree xs
      → IsReplayFree (xs ++ y ∷ [])
  append-IsReplayFree [] y h f = (tt, tt)
  append-IsReplayFree (x ∷ xs) y h f =
      (All-append _ xs (y ∷ []) f.0 (conflicts_comm y x h.0, tt), append-IsReplayFree xs y h.1 f.1)

  -- A receipt is stored, and the answer is yes, when no stored one has its id, nor its node and
  -- nonce; else the store is as before and the answer is no. Either way no id, and no nonce of a
  -- node, is stored twice if none was.
  pub put_receipt_lem :
      (id node plan nonce : Str) (body : Json F) (s : Store F)
      → IsReplayFree s.receipts
      → IsReplayFree (put_receipt id node plan nonce body s).0.receipts
        × ((((put_receipt id node plan nonce body s).1 ≡ true)
              × All (λ x. conflicts id node nonce x ≡ false) s.receipts
              × ((x : ReceiptRow F) × ((put_receipt id node plan nonce body s).0.receipts
                    ≡ s.receipts ++ x ∷ [])
                  × (x.receipt_id ≡ id)
                  × (x.node_id ≡ node)
                  × (x.nonce ≡ nonce)
                  × (x.json ≡ body)))
            ⊎ (((put_receipt id node plan nonce body s).1 ≡ false)
                × ((x : ReceiptRow F) × Elem x s.receipts × (conflicts id node nonce x ≡ true))
                × ((put_receipt id node plan nonce body s).0 ≡ s)))
  unfolding put_receipt
  put_receipt_lem id node plan nonce body s f =
      elim (Bool-cases (any (conflicts id node nonce) s.receipts)) [
        | inl clash ↦ rw clash (f, inr (refl, any-Elem _ s.receipts clash, refl))
        | inr fresh ↦ rw fresh (
          append-IsReplayFree s.receipts _ (any-All _ s.receipts fresh) f,
          inl (refl, any-All _ s.receipts fresh, (_, refl, refl, refl, refl, refl)),
        )
      ]
