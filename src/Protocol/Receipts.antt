-- ===== src/Protocol/Receipts.antt =====
-- packages/protocol/meshcompute_protocol/receipts.py: signed work receipts.
use mesh_compute.Prelude.Int.{ℤ}
use mesh_compute.Prelude.Bytes.{Str, codes}
use mesh_compute.Protocol.Json.{Json, Fields}

pub data Outcome : Type 0 where
  ok_outcome partial failed cancelled : Outcome

pub record MeasuredWork (F : Type 0) : Type 0 where
  pub gpu_active_ms : F
  pub layers_processed : ℤ
  pub tokens_generated : ℤ
  pub activation_bytes : ℤ
  pub model_shard_bytes_served : ℤ
  pub draft_tokens_accepted : ℤ

pub record WorkReceipt (F : Type 0) : Type 0 where
  pub protocol_version : ℤ
  pub receipt_id : Str
  pub session_id : Str
  pub plan_id : Str
  pub node_id : Str
  pub model_manifest_hash : Str
  pub role : Str
  pub measured_work : MeasuredWork F
  pub started_at : F
  pub finished_at : F
  pub outcome : Outcome
  pub challenge_nonce : Str

pub record SignedReceipt (F : Type 0) : Type 0 where
  pub receipt : WorkReceipt F
  pub public_b64 : Str
  pub signature_b64 : Str

abbrev outcome_value : Outcome → Str
outcome_value ok_outcome = codes "ok"
outcome_value partial = codes "partial"
outcome_value failed = codes "failed"
outcome_value cancelled = codes "cancelled"

-- `model_dump(mode="json")`
module _ {F : Type 0} where
  unfoldable pub dump_work : MeasuredWork F → Json F
  dump_work w = Json.obj (
      Fields.field (codes "gpu_active_ms") (Json.float w.gpu_active_ms) (
        Fields.field (codes "layers_processed") (Json.int w.layers_processed) (
          Fields.field (codes "tokens_generated") (Json.int w.tokens_generated) (
            Fields.field (codes "activation_bytes") (Json.int w.activation_bytes) (
              Fields.field (codes "model_shard_bytes_served") (Json.int w.model_shard_bytes_served)
                (Fields.field (codes "draft_tokens_accepted") (Json.int w.draft_tokens_accepted)
                  Fields.end))))))

  unfoldable pub dump_receipt : WorkReceipt F → Json F
  unfolding dump_work
  dump_receipt r = Json.obj (
      Fields.field (codes "protocol_version") (Json.int r.protocol_version) (
        Fields.field (codes "receipt_id") (Json.str r.receipt_id) (
          Fields.field (codes "session_id") (Json.str r.session_id) (
            Fields.field (codes "plan_id") (Json.str r.plan_id) (
              Fields.field (codes "node_id") (Json.str r.node_id) (
                Fields.field (codes "model_manifest_hash") (Json.str r.model_manifest_hash) (
                  Fields.field (codes "role") (Json.str r.role) (
                    Fields.field (codes "measured_work") (dump_work r.measured_work) (
                      Fields.field (codes "started_at") (Json.float r.started_at) (
                        Fields.field (codes "finished_at") (Json.float r.finished_at) (
                          Fields.field (codes "outcome") (Json.str (outcome_value r.outcome)) (
                            Fields.field (codes "challenge_nonce") (Json.str r.challenge_nonce)
                              Fields.end))))))))))))
