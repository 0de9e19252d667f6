-- ===== src/Scheduler/Tests.antt =====
-- A model that no node holds alone, split over two nodes, and one that both hold.
use mesh_compute.Prelude.{
  ℕ, ◌≡◌, ◌≢◌, refl, true, none, some, [], ◌∷◌, map, take, any, ok, nat_eq, list_eq, contains,
  list_beq, ne_of_beq,
}
use mesh_compute.Prelude.Sort.{insert_sorted, sort}
use mesh_compute.Prelude.Int.{sum, ◌+ℤ◌, pos}
use mesh_compute.Scheduler.Assign.{slices, assign_chain}
use mesh_compute.Scheduler.Node.{
  total_vram_bytes, free_vram_bytes, single, pipeline, ModelManifest, CapabilityRecord,
}
use mesh_compute.Scheduler.Cost.{
  lan_with_all, mutually_lan_class, worst_from, worst_link, node_prefill_tps, node_decode_tps,
  predict_pipeline, predict_single, queue_wait, score, can, quant_bytes, kv_allowance, usable_bytes,
  fits_single, CostModel,
}
use mesh_compute.Prelude.Bytes.{Str, codes}
use mesh_compute.Scheduler.Layers.{plan-Covers, Covers}
use mesh_compute.Scheduler.Plan.{
  queued, candidate, refused, note_refusal, model_bytes, compatible, replicas, splitters,
  offer_pipeline, tensor_capable, offer_pod, offer_tensor, drafts, offer_draft, offer_speculative,
  add_single, add_pipeline, add_tensor, add_speculative, first_candidate, choose, plan_among,
  single_candidate, all_candidates, pipeline_candidate, Request, fits, plan_of, ExecutionPlan, plan,
  executable, score_le,
}
use mesh_compute.Scheduler.Topology.{is_lan_class, LinkMetrics, link}
use mesh_compute.Sample.{nat_floats}
use mesh_compute.Scheduler.Feasible.{plan-feasible, CanRun}

abbrev cost : CostModel ℕ
cost = record {
  rtt_multiplier_per_hop = 2;
  activation_bytes_per_token = pos 16;
  pipeline_efficiency = 1;
  reliability_penalty_s = 3;
  default_decode_tps = 20;
  default_prefill_tps = 40;
  tensor_parallel_efficiency = 1;
  speculative_speedup = 2;
  speculative_max_rtt_ms = 10;
  prefill_parallel_efficiency = 1;
}

abbrev node_of : Str → ℕ → CapabilityRecord ℕ
node_of id vram = record {
  node_id = id;
  gpus = record { vram_bytes = pos vram; free_vram_bytes = pos vram } ∷ [];
  ram_free_bytes = pos 0;
  backends = codes "llama" ∷ [];
  strategies = codes "single" ∷ codes "pipeline" ∷ [];
  benchmark = record { decode_tokens_per_sec = some 10; prefill_tokens_per_sec = none };
}

abbrev left : CapabilityRecord ℕ
left = node_of (codes "a") 60

abbrev right : CapabilityRecord ℕ
right = node_of (codes "b") 50

abbrev model_of : ℕ → ModelManifest
model_of size = record {
  model_id = codes "m";
  manifest_hash = codes "h";
  backends = codes "llama" ∷ [];
  quantizations =
      record { files = record { rfilename = codes "m.gguf"; size_bytes = pos size } ∷ [] } ∷ [];
}

abbrev request_of : ℕ → Request ℕ
request_of size = record {
  model = model_of size;
  nodes = (codes "a", left) ∷ (codes "b", right) ∷ [];
  graph = [];
  client_node_id = codes "c";
  context_length = pos 100;
  prompt_tokens = pos 80;
  load = [];
  executable_strategies = [];
  plan_id = codes "p1";
}

abbrev split : Request ℕ
split = request_of 100

abbrev whole_model : Request ℕ
whole_model = request_of 40

program : Unit {0}
unfolding plan plan_among choose first_candidate sort insert_sorted all_candidates add_speculative
    add_tensor add_pipeline add_single offer_speculative offer_draft drafts offer_tensor offer_pod
    tensor_capable offer_pipeline splitters replicas fits compatible model_bytes fits_single
    usable_bytes kv_allowance quant_bytes free_vram_bytes total_vram_bytes can executable
    note_refusal refused pipeline_candidate single_candidate candidate score_le score queue_wait
    queued predict_single predict_pipeline node_decode_tps node_prefill_tps worst_link worst_from
    link is_lan_class mutually_lan_class lan_with_all list_beq take slices assign_chain ◌+ℤ◌
program = tt

abbrev split_plan : ExecutionPlan ℕ
split_plan = plan_of cost split (pipeline_candidate cost split left right)

plan-split : plan cost split ≡ ok split_plan
unfolding program sum
plan-split = refl

plan-feasible_example :
    (executable split.executable_strategies split_plan.strategy ≡ true)
    × CanRun cost split split_plan.strategy split_plan.peer_chain
plan-feasible_example = plan-feasible cost split plan-split

split_plan-strategy : split_plan.strategy ≡ pipeline
unfolding program plan_of
split_plan-strategy = refl

plan-Covers_example :
    Covers 0 split_plan.shard_assignment
    × (map (λ s. s.node_id) split_plan.shard_assignment ≡ split_plan.peer_chain)
plan-Covers_example = plan-Covers cost split plan-split split_plan-strategy

right-matches : any (λ b. contains b whole_model.model.backends) right.backends ≡ true
unfolding program
right-matches = refl

right-fits : fits cost whole_model right ≡ true
unfolding program sum
right-fits = refl

single-allowed : executable whole_model.executable_strategies single ≡ true
unfolding program
single-allowed = refl

abbrev fast : LinkMetrics ℕ
fast = record {
  rtt_ms = 1;
  throughput_mbps = 900;
  packet_loss = 0;
  path_type = codes "direct";
  stability = 1;
}

a-ne-b : codes "a" ≢ codes "b"
unfolding program
a-ne-b = ne_of_beq (codes "a") (codes "b") refl
