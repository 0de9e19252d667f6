-- ===== src/Control/Tests.antt =====
-- One node from its registration to the credit for its work, and a catalog that is scanned twice.
use mesh_compute.Rendezvous.Tracker.{new_relay, queues_for}
use mesh_compute.Control.Delivery.{Turns-IsDelivered, IsDelivered}
use mesh_compute.Control.Relay.{
  went_out, came_in, start_relay, none_yet, then_turn, put, pump_in, pump_out, Relay,
}
use mesh_compute.Control.Steps.{
  next, here, registered, advertised, beaten, scanned, scheduled, credited,
}
use mesh_compute.Control.Assigned.{schedule-IsAssignable, IsAssignable}
use mesh_compute.Control.Served.{IsCreditable}
use mesh_compute.Prelude.Dict.{lookup_or}
use mesh_compute.Control.Versions.{scan_manifests-Advances}
use mesh_compute.Control.Buckets.{Reach-AreBuckets, AreBuckets}
use mesh_compute.Control.Accounts.{IsAccounted}
use mesh_compute.Control.Trust.{Reach-IsTrusted, IsTrusted}
use mesh_compute.Scheduler.Assign.{assign, assign_chain, slices}
use mesh_compute.Scheduler.Topology.{is_lan_class, link}
use mesh_compute.Ledger.Block.{earns, credit_for_receipt}
use mesh_compute.Prelude.Sort.{sort, insert_sorted}
use mesh_compute.Control.Read.{
  file_of, quantization_of, manifest_of, gpu_of, capability_of, version_of, manifest_hash, alias_of,
}
use mesh_compute.Store.Tables.{
  LedgerRow, NodeRow, migrated, conflicts, append_ledger, put_receipt, get_session, put_session,
  row_by_hash, get_manifest_by_hash, list_nodes, touch_row, touch_node, get_capability,
  put_capability, get_manifest, put_manifest, upsert_node, get_node,
}
use mesh_compute.Scheduler.Node.{total_vram_bytes, free_vram_bytes, single}
use mesh_compute.Scheduler.Plan.{
  plan_of, queued, score_le, candidate, single_candidate, pipeline_candidate, refused, note_refusal,
  executable, model_bytes, compatible, fits, replicas, splitters, offer_pipeline, tensor_capable,
  offer_pod, offer_tensor, drafts, offer_draft, offer_speculative, add_single, add_pipeline,
  add_tensor, add_speculative, all_candidates, first_candidate, choose, plan_among, plan,
  ExecutionPlan,
}
use mesh_compute.Control.Credit.{submit_receipt-earned, receipt_by}
use mesh_compute.Rendezvous.Peers.{str_items}
use mesh_compute.Control.Scheduling.{
  dump_plan, load_of, peer_links, all_peer_links, is_eligible, gather, request_for, find_model,
  schedule,
}
use mesh_compute.Protocol.Receipts.{ok_outcome, WorkReceipt}
use mesh_compute.Control.Catalog.{
  sign_manifest, judge, current_version, settle, load_file, is_seen, scan_file, scan_files,
  ManifestFile, scan_manifests,
}
use mesh_compute.Prelude.Bytes.{lex_le, hex, codes, Str}
use mesh_compute.Control.Receipts.{
  dump_signed, is_implausible, discard, use_nonce, credit, check_work, submit_receipt,
}
use mesh_compute.Control.Requests.{
  dump_capability, dump_manifest, SignedCapability, RegisterRequest, ScheduleRequest, HttpFault,
  HeartbeatRequest,
}
use mesh_compute.Prelude.{
  list_beq, ℕ, ◌≡◌, refl, true, false, Option, some, List, [], ◌∷◌, ◌++◌, take, any, All, Result,
  ok, err, nat_eq, list_eq, contains,
}
use mesh_compute.Prelude.Int.{pos, ◌+ℤ◌, sum, ◌≤ℤ◌}
use mesh_compute.Protocol.Json.{Json, Fields, Items}
use mesh_compute.Protocol.Identity.{
  sign, blake3_hex, verify, node_id_from_public, public_key, NodeIdentity, verify_json, sign_json,
  public_b64,
}
use mesh_compute.Sample.{nat_floats, sample_crypto}
use mesh_compute.Scheduler.Cost.{
  lan_with_all, mutually_lan_class, worst_from, worst_link, node_prefill_tps, node_decode_tps,
  predict_pipeline, predict_single, queue_wait, score, can, quant_bytes, kv_allowance, usable_bytes,
  fits_single, CostModel,
}
use mesh_compute.Control.Nodes.{
  set_add, make_room, issue_nonce, signed, node_id_from_public_b64, heartbeat, register_node,
  post_capabilities, App,
}
use mesh_compute.Control.Steps.{here, next, create_app, Reach}

abbrev cost : CostModel ℕ
cost = record {
  rtt_multiplier_per_hop = 2;
  activation_bytes_per_token = pos 16;
  pipeline_efficiency = 1;
  reliability_penalty_s = 3;
  default_decode_tps = 20;
  default_prefill_tps = 40;
  tensor_parallel_efficiency = 1;
  speculative_speedup = 2;
  speculative_max_rtt_ms = 10;
  prefill_parallel_efficiency = 1;
}

abbrev key : Str
key =
    0 ∷ 0 ∷ 0 ∷ 0 ∷ 0 ∷ 0 ∷ 0 ∷ 0 ∷ 0 ∷ 0 ∷ 0 ∷ 0 ∷ 0 ∷ 0 ∷ 0 ∷ 0 ∷ 0 ∷ 0 ∷ 0 ∷ 0 ∷ 0 ∷ 0 ∷ 0 ∷ 0
    ∷ 0 ∷ 0 ∷ 0 ∷ 0 ∷ 0 ∷ 0 ∷ 0 ∷ 0 ∷ []

abbrev node : Str
node = codes "nd_00000000000000000000000000000000"

abbrev me : NodeIdentity
me = record { private_key = [] }

abbrev obj1 : Str → Json ℕ → Fields ℕ → Fields ℕ
obj1 k v fs = Fields.field k v fs

abbrev strings : List Str → Json ℕ
strings l = Json.arr (str_items l)

abbrev manifest_of_version : ℕ → Json ℕ
manifest_of_version v = Json.obj (
    obj1 (codes "id") (Json.str (codes "m")) (
      obj1 (codes "version") (Json.int (pos v)) (
        obj1 (codes "context_length_configured") (Json.int (pos 100)) (
          obj1 (codes "runtime")
            (Json.obj (obj1 (codes "backends") (strings (codes "llama" ∷ [])) Fields.end))
            Fields.end))))

abbrev capability : Json ℕ
capability = Json.obj (
    obj1 (codes "node_id") (Json.str node) (
      obj1 (codes "gpus")
        (Json.arr (
          Items.cons
            (Json.obj (
              obj1 (codes "vram_bytes") (Json.int (pos 60))
                (obj1 (codes "free_vram_bytes") (Json.int (pos 60)) Fields.end)))
            Items.nil))
        (obj1 (codes "backends") (strings (codes "llama" ∷ []))
          (obj1 (codes "strategies") (strings (codes "single" ∷ [])) Fields.end))))

abbrev registration : RegisterRequest
registration = record {
  protocol_version = pos 1;
  node_id = node;
  public_b64 = key;
  pool_ids = codes "public" ∷ [];
  signature_b64 = codes "s";
}

abbrev signed_capability : SignedCapability ℕ
signed_capability = record { body = capability; public_b64 = key; signature_b64 = codes "s" }

abbrev beat : HeartbeatRequest ℕ
beat = record {
  node_id = node;
  free_vram_bytes = pos 60;
  ram_free_bytes = pos 10;
  queue_depth = pos 0;
  active_sessions = pos 0;
  cached_manifest_hashes = [];
  peer_rtt_ms = [];
  signature_b64 = codes "s";
}

abbrev files_of_version : ℕ → ℕ → Option (List (ManifestFile ℕ))
files_of_version mtime v = some (
    record { path = codes "m.yaml"; mtime = some mtime; manifest = some (manifest_of_version v) }
    ∷ [])

abbrev request : ScheduleRequest
request = record {
  model_id = codes "m";
  pool_id = codes "public";
  client_node_id = codes "c";
  context_length = pos 0;
  prompt_tokens = pos 80;
  executable_strategies = [];
}

abbrev work : WorkReceipt ℕ
work = record {
  protocol_version = pos 1;
  receipt_id = codes "r1";
  session_id = codes "s1";
  plan_id = codes "p1";
  node_id = node;
  model_manifest_hash = codes "0000000000000000000000000000000000000000000000000000000000000000";
  role = codes "single";
  measured_work = record {
    gpu_active_ms = 5;
    layers_processed = pos 1;
    tokens_generated = pos 7;
    activation_bytes = pos 0;
    model_shard_bytes_served = pos 0;
    draft_tokens_accepted = pos 0;
  };
  started_at = 100;
  finished_at = 101;
  outcome = ok_outcome;
  challenge_nonce = codes "n1";
}

abbrev state_of : {A : Type 0} → App ℕ → Result HttpFault (App ℕ × A) → App ℕ
state_of app (ok (app2, a)) = app2
state_of app (err fault) = app

abbrev app0 : App ℕ
app0 = create_app []

abbrev app1 : App ℕ
app1 = (scan_manifests me (files_of_version 1 2) app0).0

abbrev app2 : App ℕ
app2 = state_of app1 (register_node 100 0 (codes "n1") registration app1)

abbrev app3 : App ℕ
app3 = state_of app2 (post_capabilities 100 node signed_capability app2)

abbrev app4 : App ℕ
app4 = state_of app3 (heartbeat 100 0 (codes "n2") node beat app3)

abbrev app5 : App ℕ
app5 = state_of app4 (schedule cost 101 (codes "p1") request app4)

abbrev app6 : App ℕ
app6 = state_of app5 (submit_receipt 102 (receipt_by me work) app5)

abbrev no_plan : ExecutionPlan ℕ
no_plan = record {
  plan_id = [];
  model_manifest_hash = [];
  model_id = [];
  strategy = single;
  peer_chain = [];
  shard_assignment = [];
  context_length = pos 0;
  predicted_ttft_s = 0;
  predicted_decode_tps = 0;
  rejected_alternatives = [];
}

abbrev planned_by : Result HttpFault (App ℕ × ExecutionPlan ℕ) → ExecutionPlan ℕ
planned_by (ok (app, p)) = p
planned_by (err fault) = no_plan

abbrev plan5 : ExecutionPlan ℕ
plan5 = planned_by (schedule cost 101 (codes "p1") request app4)

program : Unit {0}
unfolding register_node post_capabilities heartbeat schedule submit_receipt scan_manifests list_beq
    node_id_from_public_b64 public_key node_id_from_public take hex signed verify_json verify
    get_node issue_nonce upsert_node scan_files scan_file is_seen load_file settle current_version
    judge sign_manifest make_room set_add alias_of manifest_hash version_of dump_manifest lex_le
    insert_sorted sort blake3_hex public_b64 sign sign_json put_manifest get_manifest put_capability
    get_capability dump_capability capability_of gpu_of touch_node touch_row list_nodes find_model
    get_manifest_by_hash row_by_hash manifest_of quantization_of file_of request_for gather
    is_eligible all_peer_links peer_links load_of migrated dump_plan put_session get_session
    check_work credit put_receipt append_ledger conflicts use_nonce discard is_implausible
    credit_for_receipt earns dump_signed plan plan_among choose first_candidate all_candidates
    add_speculative add_tensor add_pipeline add_single offer_speculative offer_draft drafts
    offer_tensor offer_pod tensor_capable offer_pipeline splitters replicas fits compatible
    model_bytes fits_single usable_bytes kv_allowance quant_bytes free_vram_bytes total_vram_bytes
    can executable note_refusal refused pipeline_candidate single_candidate candidate score_le score
    queue_wait queued predict_single predict_pipeline node_decode_tps node_prefill_tps worst_link
    worst_from link is_lan_class mutually_lan_class lan_with_all slices assign_chain ◌+ℤ◌ plan_of
    assign sum
program = tt

app2-registered :
    register_node 100 0 (codes "n1") registration app1
    ≡ ok (app2, record { node_id = node; challenge_nonce = codes "n1" })
unfolding program
app2-registered = refl

app3-advertised : post_capabilities 100 node signed_capability app2 ≡ ok (app3, tt)
unfolding program
app3-advertised = refl

app4-beaten : heartbeat 100 0 (codes "n2") node beat app3 ≡ ok (app4, codes "n2")
unfolding program
app4-beaten = refl

app5-scheduled : schedule cost 101 (codes "p1") request app4 ≡ ok (app5, plan5)
unfolding program
app5-scheduled = refl

app6-credited : submit_receipt 102 (receipt_by me work) app5 ≡ ok (app6, 7)
unfolding program
app6-credited = refl

journey : Reach me app0 app6
journey =
    next
      (next
        (next
          (next
            (next (next here (scanned (files_of_version 1 2)))
              (registered 100 0 (codes "n1") registration app2-registered))
            (advertised 100 node signed_capability app3-advertised))
          (beaten 100 0 (codes "n2") node beat app4-beaten))
        (scheduled cost 101 (codes "p1") request app5-scheduled))
      (credited 102 (receipt_by me work) app6-credited)

app0-IsTrusted : IsTrusted app0
unfolding migrated
app0-IsTrusted = (tt, tt)

app0-IsAccounted : IsAccounted app0.store
unfolding migrated
app0-IsAccounted = (tt, tt)

Reach-IsTrusted_example : IsTrusted app6
Reach-IsTrusted_example = Reach-IsTrusted me journey app0-IsTrusted

Reach-AreBuckets_example : AreBuckets app6
Reach-AreBuckets_example = Reach-AreBuckets me journey tt

to_app4 : Reach me app0 app4
to_app4 =
    next
      (next
        (next (next here (scanned (files_of_version 1 2)))
          (registered 100 0 (codes "n1") registration app2-registered))
        (advertised 100 node signed_capability app3-advertised))
      (beaten 100 0 (codes "n2") node beat app4-beaten)

app4-IsTrusted : IsTrusted app4
app4-IsTrusted = Reach-IsTrusted me to_app4 app0-IsTrusted

schedule-IsAssignable_example :
    All (IsAssignable 101 (codes "public") (codes "c") app4) plan5.peer_chain
schedule-IsAssignable_example =
    schedule-IsAssignable cost 101 (codes "p1") request app4 app4-IsTrusted app5-scheduled

app5-AreBuckets : AreBuckets app5
app5-AreBuckets =
    Reach-AreBuckets me (next to_app4 (scheduled cost 101 (codes "p1") request app5-scheduled)) tt

submit_receipt-earned_example :
    IsCreditable 102 (receipt_by me work) app5
    × ((row : LedgerRow ℕ) × (app6.store.ledger ≡ app5.store.ledger ++ row ∷ [])
        × (row.node_id ≡ node)
        × (row.delta ≡ 7)
        × (row.ref_receipt ≡ codes "r1"))
    × (◌≡◌ {A = ℕ} 7 (credit_for_receipt (receipt_by me work)))
    × (contains (codes "n1") (lookup_or [] node app6.issued_nonces) ≡ false)
submit_receipt-earned_example =
    submit_receipt-earned 102 (receipt_by me work) app5 app5-AreBuckets app6-credited

abbrev row4 : NodeRow ℕ
row4 = record { public_b64 = key; pool_ids = codes "public" ∷ []; last_seen = 100; online = true }

app4-node : get_node node app4.store ≡ some row4
unfolding program
app4-node = refl

key-me : row4.public_b64 ≡ public_b64 me
unfolding program
key-me = refl

plan5-id : work.plan_id ≡ plan5.plan_id
unfolding program
plan5-id = refl

plan5-node : contains node plan5.peer_chain ≡ true
unfolding program
plan5-node = refl

plan5-model : work.model_manifest_hash ≡ plan5.model_manifest_hash
unfolding program
plan5-model = refl

app4-nonce : contains (codes "n1") (lookup_or [] node app4.issued_nonces) ≡ true
unfolding program
app4-nonce = refl

work-plausible : is_implausible 102 work ≡ false
unfolding program
work-plausible = refl

app4-fresh : any (conflicts (codes "r1") node (codes "n1")) app4.store.receipts ≡ false
unfolding program
app4-fresh = refl

app1-published :
    get_manifest (codes "m") app1.store ≡ some (sign_manifest me (manifest_of_version 2))
unfolding program
app1-published = refl

-- A file with a lower version is there.
scan_manifests-Advances_example :
    (later : Json ℕ) × (get_manifest
        (codes "m")
        (scan_manifests me (files_of_version 2 1) app1).0.store
      ≡ some later)
    × (current_version (sign_manifest me (manifest_of_version 2)) ≤ℤ current_version later)
scan_manifests-Advances_example =
    scan_manifests-Advances me (files_of_version 2 1) app1 (codes "m") app1-published

abbrev carried : Relay
carried = record {
  pair = record { to_a = []; to_b = (2 ∷ []) ∷ []; claimed = [] };
  in_a = (1 ∷ []) ∷ (2 ∷ []) ∷ [];
  out_a = [];
  in_b = [];
  out_b = (1 ∷ []) ∷ [];
}

abbrev one_in : Relay
one_in = record {
  pair = record { to_a = []; to_b = (1 ∷ []) ∷ []; claimed = [] };
  in_a = (1 ∷ []) ∷ [];
  out_a = [];
  in_b = [];
  out_b = [];
}

abbrev two_in : Relay
two_in = record {
  pair = record { to_a = []; to_b = (1 ∷ []) ∷ (2 ∷ []) ∷ []; claimed = [] };
  in_a = (1 ∷ []) ∷ (2 ∷ []) ∷ [];
  out_a = [];
  in_b = [];
  out_b = [];
}

one_in-came : pump_in (codes "a") (1 ∷ []) (start_relay new_relay) ≡ some one_in
unfolding pump_in queues_for put list_beq
one_in-came = refl

two_in-came : pump_in (codes "a") (2 ∷ []) one_in ≡ some two_in
unfolding pump_in queues_for put list_beq
two_in-came = refl

carried-went : pump_out (codes "b") two_in ≡ some carried
unfolding pump_out queues_for list_beq
carried-went = refl

Turns-IsDelivered_example : IsDelivered carried
Turns-IsDelivered_example = Turns-IsDelivered (
    then_turn
      (then_turn (then_turn none_yet (came_in (codes "a") (1 ∷ []) one_in-came))
        (came_in (codes "a") (2 ∷ []) two_in-came))
      (went_out (codes "b") carried-went))
