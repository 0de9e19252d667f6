-- ===== src/Control/Nodes.antt =====
-- The state of the application, and the handlers of nodes: registration, capabilities, heartbeats.
-- The clock, the fresh nonces and the member that `set.pop` takes are arguments. A handler gives
-- the new state with its answer; an error leaves the state as it was.
use mesh_compute.Python.{Floats}
use mesh_compute.Prelude.Bytes.{Str}
use mesh_compute.Prelude.{
  ℕ, zero, suc, ◌%◌, Bool, true, not, ◌&&◌, ◌||◌, Option, none, some, List, [], ◌∷◌, map,
  if◌then◌else◌, leb, length, Result, ok, err, ◌>>=◌, ◌>>◌, raise_if, ◌==◌, nat_eq, list_eq,
  contains,
}
use mesh_compute.Prelude.Int.{pos}
use mesh_compute.Prelude.Dict.{Dict, lookup_or, insert}
use mesh_compute.Protocol.Json.{Json}
use mesh_compute.Protocol.Identity.{Crypto, public_key, node_id_from_public, verify_json}
use mesh_compute.Store.Tables.{
  Store, NodeRow, upsert_node, put_capability, touch_node, get_node, list_nodes, get_capability,
}
use mesh_compute.Control.Read.{capability_of}
use mesh_compute.Control.Requests.{
  RegisterRequest, RegisterResponse, HeartbeatRequest, SignedCapability, HttpFault, NodeView,
  dump_register, dump_heartbeat, dump_capability, unknown_node, wrong_node_id, bad_signature,
  key_mismatch,
}
use mesh_compute.Rendezvous.Tracker.{Rendezvous}

-- What `create_app` closes over; a set is a list without repeats.
pub record App (F : Type 0) : Type 0 where
  pub store : Store F
  pub rendezvous : Rendezvous F
  pub measured_rtts : Dict Str F
  pub live_heartbeats : Dict Str (HeartbeatRequest F)
  pub seen_manifest_files : Dict Str F
  pub issued_nonces : Dict Str (List Str)

-- `MAX_OUTSTANDING_NONCES`
abbrev pub max_outstanding : ℕ
max_outstanding = 64

abbrev pub delete_at : ℕ → List Str → List Str
delete_at i [] = []
delete_at zero (x ∷ xs) = xs
delete_at (suc i) (x ∷ xs) = x ∷ delete_at i xs

-- `set.add`
unfoldable pub set_add : Str → List Str → List Str
set_add x xs = if contains x xs then xs else x ∷ xs

-- `set.pop` on a full bucket takes any member: `victim` counts to it.
unfoldable pub make_room : ℕ → List Str → List Str
make_room victim bucket =
    if leb max_outstanding (length bucket)
    then delete_at (victim % length bucket) bucket
    else bucket

module _ {F : Type 0} where
  -- `_issue_nonce`
  unfoldable pub issue_nonce : ℕ → Str → Str → App F → App F
  issue_nonce victim nonce id app = record app {
    issued_nonces =
        insert id (set_add nonce (make_room victim (lookup_or [] id app.issued_nonces)))
          app.issued_nonces;
  }

-- `_node_id_from_public_b64`
unfoldable pub node_id_from_public_b64 : ⦃cr : Crypto⦄ → Str → Str
node_id_from_public_b64 public_b64 = elim (public_key public_b64) [
  | ok raw ↦ node_id_from_public raw
  | err e ↦ []
]

-- `node = store.get_node(node_id)`, and the 404 without one.
abbrev pub known_node : {F : Type 0} → Option (NodeRow F) → Result HttpFault (NodeRow F)
known_node none = err unknown_node
known_node (some row) = ok row

module _ {F : Type 0} ⦃fl : Floats F⦄ where
  -- `HEARTBEAT_TIMEOUT_S`
  abbrev pub heartbeat_timeout_s : F
  heartbeat_timeout_s = fl.decimal (pos 90) 0

module _ {F : Type 0} ⦃fl : Floats F⦄ ⦃cr : Crypto⦄ where
  -- A signature that is not empty and verifies.
  unfoldable pub signed : Str → Json F → Str → Bool
  signed key body signature = not (signature == []) && verify_json key body signature

  unfoldable pub register_node :
      F → ℕ → Str → RegisterRequest → App F → Result HttpFault (App F × RegisterResponse)
  register_node now victim nonce req app = do
    raise_if (not (node_id_from_public_b64 req.public_b64 == req.node_id)) wrong_node_id
    raise_if (not (signed req.public_b64 (dump_register req) req.signature_b64)) bad_signature
    ok (
      issue_nonce victim nonce req.node_id (record app {
        store = upsert_node req.node_id req.public_b64 req.pool_ids now true app.store;
      }),
      record { node_id = req.node_id; challenge_nonce = nonce },
    )

  unfoldable pub post_capabilities :
      F → Str → SignedCapability F → App F → Result HttpFault (App F × Unit {0})
  post_capabilities now id cap app = do
    node ← known_node (get_node id app.store)
    raise_if
        (not (node_id_from_public_b64 cap.public_b64 == id)
          || not ((capability_of cap.body).node_id == id))
        wrong_node_id
    raise_if (not (cap.public_b64 == node.public_b64)) key_mismatch
    raise_if (not (verify_json cap.public_b64 cap.body cap.signature_b64)) bad_signature
    ok (record app { store = put_capability id (dump_capability cap) now app.store }, tt)

  -- The new nonce is the answer.
  unfoldable pub heartbeat :
      F → ℕ → Str → Str → HeartbeatRequest F → App F → Result HttpFault (App F × Str)
  heartbeat now victim nonce id req app = do
    node ← known_node (get_node id app.store)
    raise_if
        (not (req.node_id == id)
          || not (signed node.public_b64 (dump_heartbeat req) req.signature_b64))
        bad_signature
    ok (
      issue_nonce victim nonce id (record app {
        live_heartbeats = insert id req app.live_heartbeats;
        store = touch_node id now true app.store;
      }),
      nonce,
    )

  unfoldable pub view_of : F → App F → Str × NodeRow F → NodeView F
  view_of now app (id, row) = record {
    node_id = id;
    online = row.online && fl.lt (fl.sub now row.last_seen) heartbeat_timeout_s;
    pool_ids = row.pool_ids;
    capability = get_capability id app.store;
    last_seen = row.last_seen;
  }

  unfoldable pub list_node_views : F → App F → List (NodeView F)
  list_node_views now app = map (view_of now app) (list_nodes app.store)
