-- ===== src/Control/Buckets.antt =====
-- The nonces that are out: how many there are, and that one is spent by its receipt.
use mesh_compute.Python.{Floats}
use mesh_compute.Prelude.Keys.{IsDistinct}
use mesh_compute.Prelude.{
  All-elem, ℕ, zero, suc, ◌+◌, ◌%◌, ◌≤◌, ◌<◌, ◌≡◌, inl, inr, refl, sym, subst, false, List, [], ◌∷◌,
  arith, leb, Bool-cases, Option-cases, length, All, ◌==◌, nat_eq, list_eq, contains, beq_cases,
}
use mesh_compute.Prelude.Bytes.{Str}
use mesh_compute.Prelude.Dict.{Dict, lookup, lookup_or, lookup-Elem, lookup-insert_self}
use mesh_compute.Protocol.Identity.{Crypto, NodeIdentity}
use mesh_compute.Control.Nodes.{App, delete_at, set_add, make_room, issue_nonce, max_outstanding}
use mesh_compute.Control.Receipts.{discard, use_nonce}
use mesh_compute.Control.Trust.{All-insert}
use mesh_compute.Control.Served.{
  register_node-eq-ok, post_capabilities-eq-ok, heartbeat-eq-ok, schedule-eq-ok,
  submit_receipt-eq-ok, create_pool_handler-eq-ok, rendezvous_announce-eq-ok,
  rendezvous_connect-eq-ok,
}
use mesh_compute.Control.Scanning.{scan_manifests-IsCatalogStep}
use mesh_compute.Control.Steps.{
  registered, advertised, beaten, scanned, scheduled, credited, pooled, met, connected, Step, Reach,
}

abbrev pub IsBucket : List Str → Type 0
IsBucket l = (length l ≤ max_outstanding) × IsDistinct l

delete_at-contains :
    (y : Str) (i : ℕ) (l : List Str) → contains y l ≡ false → contains y (delete_at i l) ≡ false
delete_at-contains y i [] h = refl
delete_at-contains y zero (x ∷ xs) h = ground arith
delete_at-contains y (suc i) (x ∷ xs) h = ground (arith, delete_at-contains y i xs)

delete_at-IsDistinct : (i : ℕ) (l : List Str) → IsDistinct l → IsDistinct (delete_at i l)
delete_at-IsDistinct i [] h = tt
delete_at-IsDistinct zero (x ∷ xs) h = h.1
delete_at-IsDistinct (suc i) (x ∷ xs) h =
    (delete_at-contains x i xs h.0, delete_at-IsDistinct i xs h.1)

length-delete_at : (i : ℕ) (l : List Str) → i < length l → length (delete_at i l) + 1 ≡ length l
length-delete_at i [] h = absurd (omega arith)
length-delete_at zero (x ∷ xs) h = omega arith
length-delete_at (suc i) (x ∷ xs) h = omega (arith, length-delete_at i xs (omega arith))

-- There is room for one more.
make_room-IsBucket :
    (victim : ℕ) (l : List Str)
    → IsBucket l
    → (length (make_room victim l) < max_outstanding) × IsDistinct (make_room victim l)
unfolding make_room
make_room-IsBucket victim l h = elim (Bool-cases (leb max_outstanding (length l))) [
  | inl full ↦
      let some : 0 < length l = ground arith in
      let cut = length-delete_at (victim % length l) l (grind arith) in
      rw full (omega (arith, cut, h.0), delete_at-IsDistinct (victim % length l) l h.1)
  | inr free ↦ rw free (ground arith, h.1)
]

set_add-IsBucket :
    (x : Str) (l : List Str) → length l < max_outstanding → IsDistinct l → IsBucket (set_add x l)
unfolding set_add
set_add-IsBucket x l h d = elim (Bool-cases (contains x l)) [
  | inl old ↦ rw old (omega arith, d)
  | inr new ↦ rw new (omega arith, (new, d))
]

discard-contains :
    (y x : Str) (l : List Str) → contains y l ≡ false → contains y (discard x l) ≡ false
unfolding discard
discard-contains y x [] h = refl
discard-contains y x (z ∷ l) h = elim (Bool-cases (x == z)) [
  | inl same ↦ rw same (ground arith)
  | inr other ↦ rw other (ground (arith, discard-contains y x l))
]

length-discard : (x : Str) (l : List Str) → length (discard x l) ≤ length l
unfolding discard
length-discard x [] = omega arith
length-discard x (y ∷ l) = elim (Bool-cases (x == y)) [
  | inl same ↦ rw same (omega arith)
  | inr other ↦ rw other (omega (arith, length-discard x l))
]

discard-IsBucket : (x : Str) (l : List Str) → IsBucket l → IsBucket (discard x l)
unfolding discard
discard-IsBucket x [] h = h
discard-IsBucket x (y ∷ l) h = elim (Bool-cases (x == y)) [
  | inl same ↦ rw same (omega arith, h.1.1)
  | inr other ↦
      let (short, distinct) = discard-IsBucket x l (omega arith, h.1.1) in
      rw other (omega (arith, length-discard x l, h.0), (discard-contains y x l h.1.0, distinct))
]

-- What is discarded is gone.
discard_self : (x : Str) (l : List Str) → IsDistinct l → contains x (discard x l) ≡ false
unfolding discard
discard_self x [] h = refl
discard_self x (y ∷ l) h = elim (beq_cases x y) [
  | inl (same, eq) ↦ rw same (subst (λ z. contains z l ≡ false) (sym eq) h.0)
  | inr (other, _) ↦ rw other (ground (arith, discard_self x l h.1))
]

IsBucket-of :
    (id : Str) (d : Dict Str (List Str)) → All (λ e. IsBucket e.1) d → IsBucket (lookup_or [] id d)
IsBucket-of id d h = elim (Option-cases (lookup id d)) [
  | inl gone ↦ rw gone (omega arith, tt)
  | inr (l, found) ↦ rw found (All-elem (λ e. IsBucket e.1) (id, l) d h (lookup-Elem id l d found))
]

module _ {F : Type 0} where
  abbrev pub AreBuckets : App F → Type 0
  AreBuckets app = All (λ e. IsBucket e.1) app.issued_nonces

  issue_nonce-AreBuckets :
      (victim : ℕ) (nonce id : Str) (app : App F)
      → AreBuckets app
      → AreBuckets (issue_nonce victim nonce id app)
  unfolding issue_nonce
  issue_nonce-AreBuckets victim nonce id app h =
      let l = lookup_or [] id app.issued_nonces in
      let (room, distinct) = make_room-IsBucket victim l (IsBucket-of id app.issued_nonces h) in
      All-insert (λ e. IsBucket e.1) id _ app.issued_nonces
        (set_add-IsBucket nonce (make_room victim l) room distinct) h

  use_nonce-AreBuckets :
      (id nonce : Str) (app : App F) → AreBuckets app → AreBuckets (use_nonce id nonce app)
  unfolding use_nonce
  use_nonce-AreBuckets id nonce app h =
      All-insert (λ e. IsBucket e.1) id _ app.issued_nonces
        (discard-IsBucket nonce _ (IsBucket-of id app.issued_nonces h)) h

  -- A nonce that was used is no longer out.
  pub use_nonce-spent :
      (id nonce : Str) (app : App F)
      → AreBuckets app
      → contains nonce (lookup_or [] id (use_nonce id nonce app).issued_nonces) ≡ false
  unfolding use_nonce
  use_nonce-spent id nonce app h =
      rw
        (lookup-insert_self id (discard nonce (lookup_or [] id app.issued_nonces))
          app.issued_nonces)
        (discard_self nonce _ (IsBucket-of id app.issued_nonces h).1)

module _ {F : Type 0} ⦃fl : Floats F⦄ ⦃cr : Crypto⦄ (identity : NodeIdentity) where
  Step-AreBuckets : {app app2 : App F} → Step identity app app2 → AreBuckets app → AreBuckets app2
  Step-AreBuckets {app} (registered now victim nonce req e) h =
      let (_, _, after) = register_node-eq-ok now victim nonce req app e in
      subst AreBuckets (sym after) (issue_nonce-AreBuckets victim nonce req.node_id _ h)
  Step-AreBuckets {app} (advertised now id cap e) h =
      let (_, _, _, _, _, _, after) = post_capabilities-eq-ok now id cap app e in
      subst AreBuckets (sym after) h
  Step-AreBuckets {app} (beaten now victim nonce id req e) h =
      let (_, _, _, _, after) = heartbeat-eq-ok now victim nonce id req app e in
      subst AreBuckets (sym after) (issue_nonce-AreBuckets victim nonce id _ h)
  Step-AreBuckets {app} (scanned files) h =
      subst (All (λ e. IsBucket e.1)) (sym (scan_manifests-IsCatalogStep identity files app).issued)
        h
  Step-AreBuckets {app} (scheduled cost now plan_id req e) h =
      let (_, _, _, after) = schedule-eq-ok cost now plan_id req app e in
      subst AreBuckets (sym after) h
  Step-AreBuckets {app} (credited now sr e) h =
      let (_, _, _, after) = submit_receipt-eq-ok now sr app e in
      subst AreBuckets (sym after)
        (use_nonce-AreBuckets sr.receipt.node_id sr.receipt.challenge_nonce app h)
  Step-AreBuckets {app} (pooled now id private e) h =
      subst AreBuckets (sym (create_pool_handler-eq-ok now id private app e)) h
  Step-AreBuckets {app} (met req source_addr now e) h =
      let (_, after) = rendezvous_announce-eq-ok req source_addr now app e in
      subst AreBuckets (sym after) h
  Step-AreBuckets {app} (connected session_id req plan_id signature now ttl_s e) h =
      let (_, after) =
        rendezvous_connect-eq-ok identity session_id req plan_id signature now ttl_s app e in
      subst AreBuckets (sym after) h

  -- Through any requests and scans, no node has more than 64 nonces out, and none twice.
  pub Reach-AreBuckets :
      {app app2 : App F} → Reach identity app app2 → AreBuckets app → AreBuckets app2
  Reach-AreBuckets Reach.here h = h
  Reach-AreBuckets (Reach.next r s) h = Step-AreBuckets s (Reach-AreBuckets r h)
