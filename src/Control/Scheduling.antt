-- ===== src/Control/Scheduling.antt =====
-- The handler of `/api/v1/schedule`: the nodes that may serve, the links that were measured, and the
-- plan, which is stored as a session.
use mesh_compute.Python.{Floats}
use mesh_compute.Prelude.Bytes.{Str, codes}
use mesh_compute.Prelude.{
  ℕ, Bool, not, ◌&&◌, Option, none, some, List, [], ◌∷◌, if◌then◌else◌, Result, ok, err, ◌>>=◌,
  ◌==◌, nat_eq, list_eq, contains,
}
use mesh_compute.Prelude.Int.{ℤ, pos, int_eq}
use mesh_compute.Prelude.Dict.{lookup, insert, has_key, Dict}
use mesh_compute.Protocol.Json.{int, float, str, arr, obj, end, field, null, nil, cons, Json, Items}
use mesh_compute.Protocol.Identity.{Crypto}
use mesh_compute.Rendezvous.Peers.{str_items}
use mesh_compute.Store.Tables.{
  NodeRow, get_manifest, get_manifest_by_hash, get_capability, list_nodes, put_session,
}
use mesh_compute.Scheduler.Topology.{Graph, LinkMetrics, set_link}
use mesh_compute.Scheduler.Node.{CapabilityRecord, ShardAssignment, strategy_value}
use mesh_compute.Scheduler.Cost.{CostModel}
use mesh_compute.Scheduler.Plan.{Request, ExecutionPlan, plan, PlanError}
use mesh_compute.Control.Read.{or_null, get, int_of, capability_of, manifest_of}
use mesh_compute.Control.Requests.{
  HeartbeatRequest, HttpFault, ScheduleRequest, unknown_model, infeasible_plan,
}
use mesh_compute.Control.Nodes.{App, heartbeat_timeout_s}
use mesh_compute.Control.Catalog.{manifest_in}

-- `nodes` and `graph` while the registry is read.
pub record Gathered (F : Type 0) : Type 0 where
  pub nodes : Dict Str (CapabilityRecord F)
  pub graph : Graph F

module _ {F : Type 0} where
  abbrev pub or_try : Option (Json F) → Option (Json F) → Option (Json F)
  or_try none o = o
  or_try (some j) o = some j

  -- By alias, or by hash.
  unfoldable pub find_model : Str → App F → Option (Json F)
  find_model id app = or_try (get_manifest id app.store) (get_manifest_by_hash id app.store)

  -- The heartbeat's reading of the free memory is newer than the record's.
  abbrev pub refresh : Option (HeartbeatRequest F) → CapabilityRecord F → CapabilityRecord F
  refresh none rec = rec
  refresh (some hb) rec = record rec { ram_free_bytes = hb.ram_free_bytes }

  abbrev opt_int : Option ℕ → Json F
  opt_int none = null
  opt_int (some n) = int (pos n)

  abbrev shard_json : ShardAssignment → Json F
  shard_json s = obj (
      field (codes "node_id") (str s.node_id) (
        field (codes "role") (str (strategy_value s.role)) (
          field (codes "layer_start") (opt_int s.layer_start) (
            field (codes "layer_end") (opt_int s.layer_end)
              (field (codes "backend") (str s.backend) end)))))

  abbrev shard_items : List ShardAssignment → Items F
  shard_items [] = nil
  shard_items (s ∷ ss) = cons (shard_json s) (shard_items ss)

  -- `plan.model_dump(mode="json")`, without the texts of the trace and of the rejections.
  unfoldable pub dump_plan : ExecutionPlan F → Json F
  dump_plan p = obj (
      field (codes "plan_id") (str p.plan_id) (
        field (codes "model_manifest_hash") (str p.model_manifest_hash) (
          field (codes "model_id") (str p.model_id) (
            field (codes "strategy") (str (strategy_value p.strategy)) (
              field (codes "peer_chain") (arr (str_items p.peer_chain)) (
                field (codes "shard_assignment") (arr (shard_items p.shard_assignment)) (
                  field (codes "context_length") (int p.context_length) (
                    field (codes "predicted_ttft_s") (float p.predicted_ttft_s) (
                      field (codes "predicted_decode_tps") (float p.predicted_decode_tps)
                        end)))))))))

  -- `req.context_length or manifest.context_length_configured`
  abbrev pub context_of : ℤ → Json F → ℤ
  context_of asked manifest =
      if asked == pos 0
      then int_of (pos 0) (get (codes "context_length_configured") manifest)
      else asked

  abbrev pub require_model : Option (Json F) → Result HttpFault (Json F)
  require_model none = err unknown_model
  require_model (some raw) = ok (manifest_in raw)

  -- A `ValueError` of the scheduler is a 500.
  abbrev pub planned : Result PlanError (ExecutionPlan F) → Result HttpFault (ExecutionPlan F)
  planned (ok p) = ok p
  planned (err e) = err infeasible_plan

  abbrev pub keep_session : F → App F → ExecutionPlan F → App F
  keep_session now app p = record app { store = put_session p.plan_id (dump_plan p) now app.store }

module _ {F : Type 0} ⦃fl : Floats F⦄ where
  -- Seen within the timeout, and in the pool.
  unfoldable pub is_eligible : F → Str → NodeRow F → Bool
  is_eligible now pool_id row =
      row.online
      && not (fl.lt heartbeat_timeout_s (fl.sub now row.last_seen))
      && contains pool_id row.pool_ids

  -- What is measured of a link here: its time.
  abbrev pub direct : F → LinkMetrics F
  direct rtt_ms = record {
    rtt_ms = rtt_ms;
    throughput_mbps = fl.decimal (pos 1000) 0;
    packet_loss = fl.decimal (pos 0) 0;
    path_type = codes "direct";
    stability = fl.decimal (pos 1) 0;
  }

  -- A link is set where a time is known.
  abbrev pub measured : Str → Str → Option F → Graph F → Graph F
  measured a b none g = g
  measured a b (some rtt) g = set_link a b (direct rtt) g

  abbrev pub take_in : Str → App F → Str → Option (Json F) → Gathered F → Gathered F
  take_in client app id none s = s
  take_in client app id (some raw) s = record {
    nodes =
        insert id
          (refresh (lookup id app.live_heartbeats)
            (capability_of (or_null (get (codes "record") raw))))
          s.nodes;
    graph = measured client id (lookup id app.measured_rtts) s.graph;
  }

  -- The loop over `store.list_nodes()`.
  unfoldable pub gather : F → Str → Str → App F → List (Str × NodeRow F) → Gathered F → Gathered F
  gather now pool_id client app [] s = s
  gather now pool_id client app ((id, row) ∷ rows) s = gather now pool_id client app rows (
      if is_eligible now pool_id row
      then take_in client app id (get_capability id app.store) s
      else s)

  -- The times that a node measured to the other nodes.
  unfoldable pub peer_links : Str → Dict Str (CapabilityRecord F) → Dict Str F → Graph F → Graph F
  peer_links id nodes [] g = g
  peer_links id nodes ((peer, rtt) ∷ d) g = peer_links id nodes d (
      if has_key peer nodes && fl.le (fl.decimal (pos 0) 0) rtt
      then set_link id peer (direct rtt) g
      else g)

  abbrev pub rtts_of : Option (HeartbeatRequest F) → Dict Str F
  rtts_of none = []
  rtts_of (some hb) = hb.peer_rtt_ms

  unfoldable pub all_peer_links :
      App F → Dict Str (CapabilityRecord F) → List (Str × CapabilityRecord F) → Graph F → Graph F
  all_peer_links app nodes [] g = g
  all_peer_links app nodes ((id, _) ∷ rest) g =
      all_peer_links app nodes rest
        (peer_links id nodes (rtts_of (lookup id app.live_heartbeats)) g)

  abbrev pub add_load : Str → Option (HeartbeatRequest F) → Dict Str ℤ → Dict Str ℤ
  add_load id none load = load
  add_load id (some hb) load = insert id hb.queue_depth load

  unfoldable pub load_of : App F → List (Str × CapabilityRecord F) → Dict Str ℤ → Dict Str ℤ
  load_of app [] load = load
  load_of app ((id, _) ∷ rest) load =
      load_of app rest (add_load id (lookup id app.live_heartbeats) load)

  module _ ⦃cr : Crypto⦄ where
    abbrev pub candidates_for : F → ScheduleRequest → App F → Gathered F
    candidates_for now req app =
        gather now req.pool_id req.client_node_id app (list_nodes app.store)
          (record { nodes = []; graph = [] })

    -- What `scheduler.plan` is called with.
    unfoldable pub request_for : F → Str → ScheduleRequest → Json F → App F → Request F
    request_for now plan_id req manifest app =
        let s = candidates_for now req app in
        record {
          model = manifest_of manifest;
          nodes = s.nodes;
          graph = all_peer_links app s.nodes s.nodes s.graph;
          client_node_id = req.client_node_id;
          context_length = context_of req.context_length manifest;
          prompt_tokens = req.prompt_tokens;
          load = load_of app s.nodes [];
          executable_strategies = req.executable_strategies;
          plan_id = plan_id;
        }

    unfoldable pub schedule :
        CostModel F → F → Str → ScheduleRequest → App F → Result HttpFault (App F × ExecutionPlan F)
    schedule cost now plan_id req app = do
      manifest ← require_model (find_model req.model_id app)
      p ← planned (plan cost (request_for now plan_id req manifest app))
      ok (keep_session now app p, p)
