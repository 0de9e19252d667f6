-- ===== src/Control/Served.antt =====
-- What a handler checked and wrote when it answers without an error, one lemma for each.
use mesh_compute.Prelude.Bytes.{codes, Str}
use mesh_compute.Python.{Floats}
use mesh_compute.Prelude.{
  ℕ, ◌≡◌, refl, sym, subst, Bool, true, false, not, ◌||◌, Option, none, some, [], Result, ok, err,
  ◌>>◌, raise_if, >>=-eq-ok, ◌==◌, nat_eq, list_eq, contains, beq→eq, eq→beq,
}
use mesh_compute.Prelude.Dict.{lookup_or, insert}
use mesh_compute.Protocol.Json.{Json}
use mesh_compute.Protocol.Identity.{Crypto, NodeIdentity, verify_json}
use mesh_compute.Protocol.Receipts.{SignedReceipt, dump_receipt}
use mesh_compute.Ledger.Block.{credit_for_receipt}
use mesh_compute.Rendezvous.Tracker.{Rendezvous, TrackerError, ConnectRequest, ConnectTicket}
use mesh_compute.Rendezvous.Peers.{RendezvousAnnounce, RendezvousPeers}
use mesh_compute.Scheduler.Cost.{CostModel}
use mesh_compute.Scheduler.Plan.{ExecutionPlan, plan, PlanError}
use mesh_compute.Store.Tables.{
  NodeRow, Store, upsert_node, touch_node, put_capability, get_node, get_session, create_pool,
}
use mesh_compute.Control.Read.{capability_of, get, strs_of}
use mesh_compute.Control.Requests.{
  SignedCapability, dump_capability, dump_register, dump_heartbeat, RegisterRequest,
  RegisterResponse, HeartbeatRequest, HttpFault, ScheduleRequest,
}
use mesh_compute.Control.Nodes.{
  App, node_id_from_public_b64, register_node, post_capabilities, heartbeat, known_node,
  issue_nonce, signed,
}
use mesh_compute.Control.Scheduling.{
  schedule, planned, require_model, find_model, request_for, keep_session,
}
use mesh_compute.Control.Receipts.{
  paid, with_receipt, submit_receipt, credit, check_work, is_hash, is_implausible, require_plan,
}
use mesh_compute.Control.Meetings.{
  create_pool_handler, made_pool, rendezvous_announce, rendezvous_connect, with_rendezvous,
  strip_left, strip_right,
}

-- A check that passed, and what came after it.
check-eq-ok :
    {E A : Type 0} (c : Bool) (fault : E) (k : Result E A) {a : A}
    → (raise_if c fault >> k) ≡ ok a
    → (c ≡ false) × (k ≡ ok a)
check-eq-ok true fault k e = cc
check-eq-ok false fault k e = (refl, e)

require-eq-ok :
    {E A : Type 0} (c : Bool) (fault : E) (k : Result E A) {a : A}
    → (raise_if (not c) fault >> k) ≡ ok a
    → (c ≡ true) × (k ≡ ok a)
require-eq-ok true fault k e = (refl, e)
require-eq-ok false fault k e = cc

last-eq-ok :
    {E : Type 0} (c : Bool) (fault : E) {u : Unit {0}} → raise_if c fault ≡ ok u → c ≡ false
last-eq-ok true fault e = cc
last-eq-ok false fault e = refl

neither : (a b : Bool) → (not a || not b) ≡ false → (a ≡ true) × (b ≡ true)
neither true true e = (refl, refl)
neither true false e = cc
neither false b e = cc

pair_left :
    {E A B : Type 0} (a a2 : A) (b b2 : B)
    → ◌≡◌ {A = Result E (A × B)} (ok (a, b)) (ok (a2, b2))
    → a ≡ a2
pair_left a a2 b b2 e = cc

pair_right :
    {E A B : Type 0} (a a2 : A) (b b2 : B)
    → ◌≡◌ {A = Result E (A × B)} (ok (a, b)) (ok (a2, b2))
    → b ≡ b2
pair_right a a2 b b2 e = cc

module _ {F : Type 0} where
  known_node-eq-ok :
      (o : Option (NodeRow F)) {row : NodeRow F} → known_node o ≡ ok row → o ≡ some row
  known_node-eq-ok none e = cc
  known_node-eq-ok (some x) e = cc

  require_plan-eq-ok : (o : Option (Json F)) {j : Json F} → require_plan o ≡ ok j → o ≡ some j
  require_plan-eq-ok none e = cc
  require_plan-eq-ok (some x) e = cc

  planned-eq-ok :
      (r : Result PlanError (ExecutionPlan F)) {p : ExecutionPlan F} → planned r ≡ ok p → r ≡ ok p
  planned-eq-ok (ok q) e = cc
  planned-eq-ok (err f) e = cc

module _ {F : Type 0} ⦃fl : Floats F⦄ ⦃cr : Crypto⦄ where
  pub register_node-eq-ok :
      (now : F) (victim : ℕ) (nonce : Str) (req : RegisterRequest) (app : App F) {app2 : App F}
      {r : RegisterResponse}
      → register_node now victim nonce req app ≡ ok (app2, r)
      → (node_id_from_public_b64 req.public_b64 ≡ req.node_id)
        × (signed req.public_b64 (dump_register {F = F} req) req.signature_b64 ≡ true)
        × (app2
            ≡ issue_nonce victim nonce req.node_id (record app {
              store = upsert_node req.node_id req.public_b64 req.pool_ids now true app.store;
            }))
  unfolding register_node
  register_node-eq-ok now victim nonce req app e =
      let (derives, e1) = require-eq-ok _ _ _ e in
      let (good, e2) = require-eq-ok _ _ _ e1 in
      (beq→eq _ _ derives, good, sym (pair_left _ _ _ _ e2))

  pub post_capabilities-eq-ok :
      (now : F) (id : Str) (cap : SignedCapability F) (app : App F) {app2 : App F} {r : Unit {0}}
      → post_capabilities now id cap app ≡ ok (app2, r)
      → (row : NodeRow F) × (get_node id app.store ≡ some row)
        × (node_id_from_public_b64 cap.public_b64 ≡ id)
        × ((capability_of cap.body).node_id ≡ id)
        × (cap.public_b64 ≡ row.public_b64)
        × (verify_json cap.public_b64 cap.body cap.signature_b64 ≡ true)
        × (app2 ≡ record app { store = put_capability id (dump_capability cap) now app.store })
  unfolding post_capabilities
  post_capabilities-eq-ok now id cap app e =
      let (row, known, e1) = >>=-eq-ok (known_node (get_node id app.store)) _ e in
      let (ids, e2) = check-eq-ok _ _ _ e1 in
      let (derives, named) = neither _ _ ids in
      let (same_key, e3) = require-eq-ok _ _ _ e2 in
      let (good, e4) = require-eq-ok _ _ _ e3 in
      (
        row,
        known_node-eq-ok _ known,
        beq→eq _ _ derives,
        beq→eq _ _ named,
        beq→eq _ _ same_key,
        good,
        sym (pair_left _ _ _ _ e4),
      )

  pub heartbeat-eq-ok :
      (now : F) (victim : ℕ) (nonce id : Str) (req : HeartbeatRequest F) (app : App F)
      {app2 : App F} {r : Str}
      → heartbeat now victim nonce id req app ≡ ok (app2, r)
      → (row : NodeRow F) × (get_node id app.store ≡ some row)
        × (req.node_id ≡ id)
        × (signed row.public_b64 (dump_heartbeat req) req.signature_b64 ≡ true)
        × (app2
            ≡ issue_nonce victim nonce id (record app {
              live_heartbeats = insert id req app.live_heartbeats;
              store = touch_node id now true app.store;
            }))
  unfolding heartbeat
  heartbeat-eq-ok now victim nonce id req app e =
      let (row, known, e1) = >>=-eq-ok (known_node (get_node id app.store)) _ e in
      let (bad, e2) = check-eq-ok _ _ _ e1 in
      let (named, good) = neither _ _ bad in
      (row, known_node-eq-ok _ known, beq→eq _ _ named, good, sym (pair_left _ _ _ _ e2))

  pub schedule-eq-ok :
      (cost : CostModel F) (now : F) (plan_id : Str) (req : ScheduleRequest) (app : App F)
      {app2 : App F} {p : ExecutionPlan F}
      → schedule cost now plan_id req app ≡ ok (app2, p)
      → (manifest : Json F) × (require_model (find_model req.model_id app) ≡ ok manifest)
        × (plan cost (request_for now plan_id req manifest app) ≡ ok p)
        × (app2 ≡ keep_session now app p)
  unfolding schedule
  schedule-eq-ok cost now plan_id req app {app2} e =
      let (manifest, found, e1) = >>=-eq-ok (require_model (find_model req.model_id app)) _ e in
      let (p, made, e2) =
        >>=-eq-ok (planned (plan cost (request_for now plan_id req manifest app))) _ e1 in
      let same = pair_right _ _ _ _ e2 in
      (
        manifest,
        found,
        subst (λ q. plan cost (request_for now plan_id req manifest app) ≡ ok q) same
            (planned-eq-ok _ made),
        sym (subst (λ q. keep_session now app q ≡ app2) same (pair_left _ _ _ _ e2)),
      )

  credit-eq-ok :
      (now : F) (sr : SignedReceipt F) (app : App F) (put : Store F × Bool) {app2 : App F}
      {delta : F}
      → credit now sr app put ≡ ok (app2, delta)
      → (put.1 ≡ true) × (delta ≡ credit_for_receipt sr) × (app2 ≡ paid now sr app put.0)
  unfolding credit
  credit-eq-ok now sr app (store, false) e = cc
  credit-eq-ok now sr app (store, true) e =
      (refl, sym (pair_right _ _ _ _ e), sym (pair_left _ _ _ _ e))

  -- What `submit_receipt` requires.
  pub record IsCreditable (now : F) (sr : SignedReceipt F) (app : App F) : Type 0 where
    pub row : NodeRow F
    pub plan : Json F
    pub registered : get_node sr.receipt.node_id app.store ≡ some row
    pub own_key : sr.public_b64 ≡ row.public_b64
    pub verifies : verify_json sr.public_b64 (dump_receipt sr.receipt) sr.signature_b64 ≡ true
    pub scheduled : get_session sr.receipt.plan_id app.store ≡ some plan
    pub took_part : contains sr.receipt.node_id (strs_of (get (codes "peer_chain") plan)) ≡ true
    pub same_model :
        is_hash sr.receipt.model_manifest_hash (get (codes "model_manifest_hash") plan) ≡ true
    pub issued :
        contains sr.receipt.challenge_nonce (lookup_or [] sr.receipt.node_id app.issued_nonces)
        ≡ true
    pub plausible : is_implausible now sr.receipt ≡ false

  pub check_work-eq-ok :
      (now : F) (sr : SignedReceipt F) (app : App F) {u : Unit {0}}
      → check_work now sr app ≡ ok u
      → IsCreditable now sr app
  unfolding check_work
  check_work-eq-ok now sr app e =
      let (row, known, e1) = >>=-eq-ok (known_node (get_node sr.receipt.node_id app.store)) _ e in
      let (key, e2) = require-eq-ok _ _ _ e1 in
      let (good, e3) = require-eq-ok _ _ _ e2 in
      let (plan, found, e4) =
        >>=-eq-ok (require_plan (get_session sr.receipt.plan_id app.store)) _ e3 in
      let (took_part, e5) = require-eq-ok _ _ _ e4 in
      let (same_model, e6) = require-eq-ok _ _ _ e5 in
      let (issued, e7) = require-eq-ok _ _ _ e6 in
      record {
        row = row;
        plan = plan;
        registered = known_node-eq-ok _ known;
        own_key = beq→eq _ _ key;
        verifies = good;
        scheduled = require_plan-eq-ok _ found;
        took_part = took_part;
        same_model = same_model;
        issued = issued;
        plausible = last-eq-ok _ _ e7;
      }

  pub check_work-ok :
      (now : F) (sr : SignedReceipt F) (app : App F)
      → IsCreditable now sr app
      → check_work now sr app ≡ ok tt
  unfolding check_work
  check_work-ok now sr app c =
      let key : (sr.public_b64 == c.row.public_b64) ≡ true = eq→beq _ _ c.own_key in
      rw
        (
          c.registered, key, c.verifies, c.scheduled, c.took_part, c.same_model, c.issued,
          c.plausible,
        )
        refl

  pub submit_receipt-eq-ok :
      (now : F) (sr : SignedReceipt F) (app : App F) {app2 : App F} {delta : F}
      → submit_receipt now sr app ≡ ok (app2, delta)
      → IsCreditable now sr app
        × ((with_receipt sr app.store).1 ≡ true)
        × (delta ≡ credit_for_receipt sr)
        × (app2 ≡ paid now sr app (with_receipt sr app.store).0)
  unfolding submit_receipt
  submit_receipt-eq-ok now sr app e =
      let (u, checked, e1) = >>=-eq-ok (check_work now sr app) _ e in
      let (stored, earned, after) = credit-eq-ok now sr app _ e1 in
      (check_work-eq-ok now sr app checked, stored, earned, after)

  made_pool-eq-ok :
      (app : App F) (id : Str) (made : Store F × Bool) {app2 : App F} {r : Str}
      → made_pool app id made ≡ ok (app2, r)
      → app2 ≡ record app { store = made.0 }
  made_pool-eq-ok app id (store, false) e = cc
  made_pool-eq-ok app id (store, true) e = sym (pair_left _ _ _ _ e)

  pub create_pool_handler-eq-ok :
      (now : F) (id : Str) (private : Bool) (app : App F) {app2 : App F} {r : Str}
      → create_pool_handler now id private app ≡ ok (app2, r)
      → app2
        ≡ record app { store = (create_pool (strip_right (strip_left id)) private now app.store).0 }
  unfolding create_pool_handler
  create_pool_handler-eq-ok now id private app e =
      let (fine, e1) = require-eq-ok _ _ _ e in made_pool-eq-ok app _ _ e1

  with_rendezvous-eq-ok :
      {A : Type 0} (app : App F) (fault : TrackerError → HttpFault)
      (r : Result TrackerError (Rendezvous F × A)) {app2 : App F} {a : A}
      → with_rendezvous app fault r ≡ ok (app2, a)
      → (rv : Rendezvous F) × (app2 ≡ record app { rendezvous = rv })
  with_rendezvous-eq-ok app fault (ok (rv, a)) e = (rv, sym (pair_left _ _ _ _ e))
  with_rendezvous-eq-ok app fault (err f) e = cc

  pub rendezvous_announce-eq-ok :
      (req : RendezvousAnnounce) (source_addr : Str) (now : F) (app : App F) {app2 : App F}
      {r : RendezvousPeers}
      → rendezvous_announce req source_addr now app ≡ ok (app2, r)
      → (rv : Rendezvous F) × (app2 ≡ record app { rendezvous = rv })
  unfolding rendezvous_announce
  rendezvous_announce-eq-ok req source_addr now app e = with_rendezvous-eq-ok app _ _ e

  pub rendezvous_connect-eq-ok :
      (identity : NodeIdentity) (session_id : Str) (req : ConnectRequest) (plan_id signature : Str)
      (now ttl_s : F) (app : App F) {app2 : App F} {r : ConnectTicket F}
      → rendezvous_connect identity session_id req plan_id signature now ttl_s app ≡ ok (app2, r)
      → (rv : Rendezvous F) × (app2 ≡ record app { rendezvous = rv })
  unfolding rendezvous_connect
  rendezvous_connect-eq-ok identity session_id req plan_id signature now ttl_s app e =
      let (row, known, e1) = >>=-eq-ok (known_node (get_node req.from_node_id app.store)) _ e in
      let (good, e2) = require-eq-ok _ _ _ e1 in with_rendezvous-eq-ok app _ _ e2
