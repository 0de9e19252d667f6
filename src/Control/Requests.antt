-- ===== src/Control/Requests.antt =====
-- The messages of packages/protocol/meshcompute_protocol/api_models.py that the handlers take, and
-- the errors with which they answer.
use mesh_compute.Prelude.Dict.{Dict}
use mesh_compute.Prelude.Bytes.{codes, Str}
use mesh_compute.Prelude.{ℕ, Bool, Option, List, [], ◌∷◌, nat_eq, list_eq}
use mesh_compute.Prelude.Int.{ℤ}
use mesh_compute.Protocol.Json.{int, float, str, arr, obj, end, field, Json, Fields}
use mesh_compute.Rendezvous.Peers.{str_items}

pub record RegisterRequest : Type 0 where
  pub protocol_version : ℤ
  pub node_id : Str
  pub public_b64 : Str
  pub pool_ids : List Str
  pub signature_b64 : Str

pub record RegisterResponse : Type 0 where
  pub node_id : Str
  pub challenge_nonce : Str

pub record HeartbeatRequest (F : Type 0) : Type 0 where
  pub node_id : Str
  pub free_vram_bytes : ℤ
  pub ram_free_bytes : ℤ
  pub queue_depth : ℤ
  pub active_sessions : ℤ
  pub cached_manifest_hashes : List Str
  pub peer_rtt_ms : Dict Str F
  pub signature_b64 : Str

-- The record as the JSON of its dump.
pub record SignedCapability (F : Type 0) : Type 0 where
  pub body : Json F
  pub public_b64 : Str
  pub signature_b64 : Str

pub record ScheduleRequest : Type 0 where
  pub model_id : Str
  pub pool_id : Str
  pub client_node_id : Str
  pub context_length : ℤ
  pub prompt_tokens : ℤ
  pub executable_strategies : List Str

pub record NodeView (F : Type 0) : Type 0 where
  pub node_id : Str
  pub online : Bool
  pub pool_ids : List Str
  pub capability : Option (Json F)
  pub last_seen : F

pub record ModelView (F : Type 0) : Type 0 where
  pub id : Str
  pub manifest_hash : Str
  pub display_name : Str
  pub context_length : ℤ
  pub version : ℤ
  pub size_bytes : ℤ

-- Why an `HTTPException` is raised; `invalid_data` is an error of another kind.
pub data HttpFault : Type 0 where
  unknown_node wrong_node_id bad_signature key_mismatch unknown_model infeasible_plan : HttpFault
  unknown_plan not_in_plan wrong_model not_issued implausible_work duplicate_receipt : HttpFault
  bad_pool_id pool_exists unknown_peer invalid_data : HttpFault

unfoldable pub status_code : HttpFault → ℕ
status_code unknown_node = 404
status_code wrong_node_id = 400
status_code bad_signature = 400
status_code key_mismatch = 400
status_code unknown_model = 404
status_code infeasible_plan = 500
status_code unknown_plan = 400
status_code not_in_plan = 400
status_code wrong_model = 400
status_code not_issued = 400
status_code implausible_work = 400
status_code duplicate_receipt = 409
status_code bad_pool_id = 400
status_code pool_exists = 409
status_code unknown_peer = 404
status_code invalid_data = 500

module _ {F : Type 0} where
  -- `_signed_body`: the dump without the signature.
  unfoldable pub dump_register : RegisterRequest → Json F
  dump_register req = obj (
      field (codes "protocol_version") (int req.protocol_version) (
        field (codes "node_id") (str req.node_id) (
          field (codes "public_b64") (str req.public_b64)
            (field (codes "pool_ids") (arr (str_items req.pool_ids)) end))))

  abbrev pub float_fields : Dict Str F → Fields F
  float_fields [] = end
  float_fields ((k, x) ∷ d) = field k (float x) (float_fields d)

  unfoldable pub dump_heartbeat : HeartbeatRequest F → Json F
  dump_heartbeat req = obj (
      field (codes "node_id") (str req.node_id) (
        field (codes "free_vram_bytes") (int req.free_vram_bytes) (
          field (codes "ram_free_bytes") (int req.ram_free_bytes) (
            field (codes "queue_depth") (int req.queue_depth) (
              field (codes "active_sessions") (int req.active_sessions) (
                field (codes "cached_manifest_hashes") (arr (str_items req.cached_manifest_hashes))
                  (field (codes "peer_rtt_ms") (obj (float_fields req.peer_rtt_ms)) end)))))))

  unfoldable pub dump_capability : SignedCapability F → Json F
  dump_capability cap = obj (
      field (codes "record") cap.body (
        field (codes "public_b64") (str cap.public_b64)
          (field (codes "signature_b64") (str cap.signature_b64) end)))

  -- `SignedManifest(...).model_dump(mode="json")`
  unfoldable pub dump_manifest : Json F → Str → Str → Str → Json F
  dump_manifest manifest hash public signature = obj (
      field (codes "manifest") manifest (
        field (codes "manifest_hash") (str hash) (
          field (codes "public_b64") (str public)
            (field (codes "signature_b64") (str signature) end))))
