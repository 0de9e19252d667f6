-- ===== src/Control/Trust.antt =====
-- Who is in the registry, and whose capabilities are believed.
use mesh_compute.Control.Meetings.{strip_left, strip_right}
use mesh_compute.Control.Scanning.{scan_manifests-IsCatalogStep}
use mesh_compute.Control.Served.{
  rendezvous_connect-eq-ok, rendezvous_announce-eq-ok, create_pool_handler-eq-ok,
  submit_receipt-eq-ok, schedule-eq-ok, heartbeat-eq-ok, post_capabilities-eq-ok,
  register_node-eq-ok,
}
use mesh_compute.Control.Receipts.{dump_signed, use_nonce}
use mesh_compute.Protocol.Json.{Json}
use mesh_compute.Prelude.{
  ◌≡◌, inl, inr, refl, sym, subst, Bool, true, [], ◌∷◌, Bool-cases, any, All, Eq, ◌==◌, nat_eq,
  list_eq, beq→eq,
}
use mesh_compute.Prelude.Bytes.{Str}
use mesh_compute.Python.{Floats}
use mesh_compute.Prelude.Dict.{has_key, Dict, insert}
use mesh_compute.Protocol.Identity.{Crypto, NodeIdentity, verify_json}
use mesh_compute.Store.Tables.{
  conflicts, append_ledger, create_pool, put_session, put_receipt, NodeRow, CapabilityRow, Store,
  upsert_node, touch_row, touch_node, put_capability,
}
use mesh_compute.Control.Read.{capability_of}
use mesh_compute.Control.Requests.{SignedCapability, dump_capability}
use mesh_compute.Control.Nodes.{App, node_id_from_public_b64, issue_nonce}
use mesh_compute.Control.Steps.{
  registered, advertised, beaten, scanned, scheduled, credited, pooled, met, connected, Step, Reach,
}

module _ {K V : Type 0} ⦃e : Eq K⦄ where
  pub All-insert {κ} :
      (P : K × V → Type κ) (k : K) (v : V) (d : Dict K V)
      → P (k, v)
      → All P d
      → All P (insert k v d)
  All-insert P k v [] p h = (p, tt)
  All-insert P k v ((j, w) ∷ d) p h = elim (Bool-cases (k == j)) [
    | inl same ↦ rw same (subst (λ i. P (i, v)) (beq→eq k j same) p, h.1)
    | inr other ↦ rw other (h.0, All-insert P k v d p h.1)
  ]

module _ {F : Type 0} ⦃fl : Floats F⦄ ⦃cr : Crypto⦄ where
  -- The key of the row derives the id of the node.
  abbrev pub HasOwnKey : Str × NodeRow F → Type 0
  HasOwnKey (id, row) = node_id_from_public_b64 row.public_b64 ≡ id

  -- The row holds a capability record of that node, signed with a key that derives its id.
  abbrev pub IsVouched : Str × CapabilityRow F → Type 0
  IsVouched (id, row) =
      (cap : SignedCapability F) × (row.signed_capability ≡ dump_capability cap)
      × ((capability_of cap.body).node_id ≡ id)
      × (node_id_from_public_b64 cap.public_b64 ≡ id)
      × (verify_json cap.public_b64 cap.body cap.signature_b64 ≡ true)

  abbrev pub IsTrusted : App F → Type 0
  IsTrusted app = All HasOwnKey app.store.nodes × All IsVouched app.store.capabilities

  touch_row-HasOwnKey :
      (seen : F) (online : Bool) (id : Str) (d : Dict Str (NodeRow F))
      → All HasOwnKey d
      → All HasOwnKey (touch_row seen online id d)
  unfolding touch_row
  touch_row-HasOwnKey seen online id [] h = tt
  touch_row-HasOwnKey seen online id ((k, row) ∷ d) h = elim (Bool-cases (id == k)) [
    | inl same ↦ rw same (h.0, touch_row-HasOwnKey seen online id d h.1)
    | inr other ↦ rw other (h.0, touch_row-HasOwnKey seen online id d h.1)
  ]

  kept-IsTrusted :
      (app : App F) {nodes : Dict Str (NodeRow F)} {capabilities : Dict Str (CapabilityRow F)}
      → nodes ≡ app.store.nodes
      → capabilities ≡ app.store.capabilities
      → IsTrusted app
      → All HasOwnKey nodes × All IsVouched capabilities
  kept-IsTrusted app nodes capabilities t =
      (subst (All HasOwnKey) (sym nodes) t.0, subst (All IsVouched) (sym capabilities) t.1)

module _ {F : Type 0} ⦃fl : Floats F⦄ ⦃cr : Crypto⦄ (identity : NodeIdentity) where
  put_receipt-keeps :
      (id node plan nonce : Str) (body : Json F) (s : Store F)
      → ((put_receipt id node plan nonce body s).0.nodes ≡ s.nodes)
        × ((put_receipt id node plan nonce body s).0.capabilities ≡ s.capabilities)
  unfolding put_receipt
  put_receipt-keeps id node plan nonce body s =
      elim (Bool-cases (any (conflicts id node nonce) s.receipts)) [
        | inl clash ↦ rw clash (refl, refl)
        | inr fresh ↦ rw fresh (refl, refl)
      ]

  create_pool-keeps :
      (id : Str) (private : Bool) (created : F) (s : Store F)
      → ((create_pool id private created s).0.nodes ≡ s.nodes)
        × ((create_pool id private created s).0.capabilities ≡ s.capabilities)
  unfolding create_pool
  create_pool-keeps id private created s = elim (Bool-cases (has_key id s.pools)) [
    | inl there ↦ rw there (refl, refl)
    | inr fresh ↦ rw fresh (refl, refl)
  ]

  Step-IsTrusted : {app app2 : App F} → Step identity app app2 → IsTrusted app → IsTrusted app2
  unfolding issue_nonce upsert_node touch_node put_capability put_session append_ledger use_nonce
  Step-IsTrusted {app} (registered now victim nonce req e) t =
      let (derives, _, after) = register_node-eq-ok now victim nonce req app e in
      subst IsTrusted (sym after) (All-insert HasOwnKey _ _ app.store.nodes derives t.0, t.1)
  Step-IsTrusted {app} (advertised now id cap e) t =
      let (_, _, derives, named, _, good, after) = post_capabilities-eq-ok now id cap app e in
      subst IsTrusted (sym after)
        (t.0, All-insert IsVouched _ _ app.store.capabilities (cap, refl, named, derives, good) t.1)
  Step-IsTrusted {app} (beaten now victim nonce id req e) t =
      let (_, _, _, _, after) = heartbeat-eq-ok now victim nonce id req app e in
      subst IsTrusted (sym after) (touch_row-HasOwnKey now true id app.store.nodes t.0, t.1)
  Step-IsTrusted {app} (scanned files) t =
      let kept = scan_manifests-IsCatalogStep identity files app in
      kept-IsTrusted app kept.nodes kept.capabilities t
  Step-IsTrusted {app} (scheduled cost now plan_id req e) t =
      let (_, _, _, after) = schedule-eq-ok cost now plan_id req app e in
      subst IsTrusted (sym after) t
  Step-IsTrusted {app} (credited now sr e) t =
      let (_, _, _, after) = submit_receipt-eq-ok now sr app e in
      let r = sr.receipt in
      let (nodes, capabilities) =
        put_receipt-keeps r.receipt_id r.node_id r.plan_id r.challenge_nonce (dump_signed sr)
          app.store in
      subst IsTrusted (sym after) (kept-IsTrusted app nodes capabilities t)
  Step-IsTrusted {app} (pooled now id private e) t =
      let (nodes, capabilities) =
        create_pool-keeps (strip_right (strip_left id)) private now app.store in
      subst IsTrusted (sym (create_pool_handler-eq-ok now id private app e))
        (kept-IsTrusted app nodes capabilities t)
  Step-IsTrusted {app} (met req source_addr now e) t =
      let (_, after) = rendezvous_announce-eq-ok req source_addr now app e in
      subst IsTrusted (sym after) t
  Step-IsTrusted {app} (connected session_id req plan_id signature now ttl_s e) t =
      let (_, after) =
        rendezvous_connect-eq-ok identity session_id req plan_id signature now ttl_s app e in
      subst IsTrusted (sym after) t

  -- Through any requests and scans: each registered node's key derives its id, and each stored
  -- capability is a record of the node that it is stored for, signed with a key that derives that
  -- node's id.
  pub Reach-IsTrusted :
      {app app2 : App F} → Reach identity app app2 → IsTrusted app → IsTrusted app2
  Reach-IsTrusted Reach.here t = t
  Reach-IsTrusted (Reach.next r s) t = Step-IsTrusted s (Reach-IsTrusted r t)
