-- ===== src/Scheduler/Cost.antt =====
-- The cost model of scheduler.py: memory fit, predicted times and score. The trace texts, which
-- nothing reads, are left out.
use mesh_compute.Prelude.{
  ◌-◌, Bool, true, false, Option, none, some, List, [], ◌∷◌, map, if◌then◌else◌, length, ◌==◌,
  nat_eq, list_eq, contains,
}
use mesh_compute.Scheduler.Topology.{link, loopback, is_lan_class, Graph, LinkMetrics}
use mesh_compute.Prelude.Bytes.{codes, Str}
use mesh_compute.Python.{Floats}
use mesh_compute.Scheduler.Node.{total_vram_bytes, free_vram_bytes, CapabilityRecord, ModelManifest}
use mesh_compute.Prelude.Int.{int_eq, sum, max_ℤ, leb_ℤ, pos, ◌+ℤ◌, ℤ}

pub record CostModel (F : Type 0) : Type 0 where
  pub rtt_multiplier_per_hop : F
  pub activation_bytes_per_token : ℤ
  pub pipeline_efficiency : F
  pub reliability_penalty_s : F
  pub default_decode_tps : F
  pub default_prefill_tps : F
  pub tensor_parallel_efficiency : F
  pub speculative_speedup : F
  pub speculative_max_rtt_ms : F
  pub prefill_parallel_efficiency : F

-- A predicted time to the first token, and a decode rate.
pub record Prediction (F : Type 0) : Type 0 where
  pub ttft : F
  pub decode_tps : F

unfoldable pub quant_bytes : ModelManifest → ℤ
quant_bytes m = elim m.quantizations [ [] ↦ pos 0 | q ∷ _ ↦ sum (map (λ f. f.size_bytes) q.files) ]

-- `x or y` on integers.
abbrev or_int : ℤ → ℤ → ℤ
or_int x y = if x == pos 0 then y else x

unfoldable pub usable_bytes : {F : Type 0} → CapabilityRecord F → ℤ
usable_bytes n = or_int (or_int (free_vram_bytes n) (total_vram_bytes n)) n.ram_free_bytes

-- An empty list of strategies stands for whole-model work.
unfoldable pub can : {F : Type 0} → CapabilityRecord F → Str → Bool
can n strategy =
    contains strategy
      (elim n.strategies [ [] ↦ codes "single" ∷ codes "replica" ∷ [] | s ∷ ss ↦ s ∷ ss ])

-- `int(model_bytes * 0.20 * max(ctx, 1) / 32768)`
unfoldable pub kv_allowance : {F : Type 0} → Floats F → ℤ → ℤ → ℤ
kv_allowance fl model_bytes ctx = fl.trunc (
    fl.div
      (fl.mul (fl.mul (fl.of_int model_bytes) (fl.decimal (pos 20) 2))
        (fl.of_int (max_ℤ ctx (pos 1))))
      (fl.of_int (pos 32768)))

-- The memory that weights and KV cache take.
abbrev pub needed_bytes : {F : Type 0} → Floats F → ℤ → ℤ → ℤ
needed_bytes fl model_bytes ctx = model_bytes +ℤ kv_allowance fl model_bytes ctx

module _ {F : Type 0} ⦃fl : Floats F⦄ where
  abbrev pub zero_f : F
  zero_f = fl.decimal (pos 0) 0

  abbrev pub one_f : F
  one_f = fl.decimal (pos 1) 0

  unfoldable pub fits_single : CapabilityRecord F → ℤ → ℤ → Bool
  fits_single n model_bytes ctx = leb_ℤ (needed_bytes fl model_bytes ctx) (usable_bytes n)

  -- `x or default` on an optional float: none and 0.0 give the default.
  abbrev or_float : Option F → F → F
  or_float none d = d
  or_float (some x) d = if fl.is_zero x then d else x

  -- `min(f(n) for n in nodes)` and `sum(...)`, from the left.
  abbrev min_from : F → List F → F
  min_from best [] = best
  min_from best (x ∷ xs) = min_from (if fl.lt x best then x else best) xs

  abbrev min_of : List F → F
  min_of [] = zero_f
  min_of (x ∷ xs) = min_from x xs

  abbrev sum_from : F → List F → F
  sum_from acc [] = acc
  sum_from acc (x ∷ xs) = sum_from (fl.add acc x) xs

  -- `rtt / 1000.0`
  abbrev seconds : F → F
  seconds ms = fl.div ms (fl.decimal (pos 1000) 0)

  -- The loop of `_worst_link`: the slowest link from one node of the chain to the next.
  unfoldable pub worst_from : Graph F → LinkMetrics F → List Str → LinkMetrics F
  worst_from g worst [] = worst
  worst_from g worst (a ∷ []) = worst
  worst_from g worst (a ∷ b ∷ rest) =
      let lk = link g a b in
      worst_from g (if fl.lt worst.rtt_ms lk.rtt_ms then lk else worst) (b ∷ rest)

  unfoldable pub worst_link : Graph F → List Str → LinkMetrics F
  worst_link g chain =
      worst_from g (record loopback { throughput_mbps = fl.decimal (pos 1000000000) 0 }) chain

  -- Every pair of the chain, a node and one behind it, has a LAN-class link.
  unfoldable pub lan_with_all : Graph F → Str → List Str → Bool
  lan_with_all g a [] = true
  lan_with_all g a (b ∷ rest) = if is_lan_class (link g a b) then lan_with_all g a rest else false

  unfoldable pub mutually_lan_class : Graph F → List Str → Bool
  mutually_lan_class g [] = true
  mutually_lan_class g (a ∷ rest) =
      if lan_with_all g a rest then mutually_lan_class g rest else false

  module _ (cost : CostModel F) where
    unfoldable pub node_decode_tps : CapabilityRecord F → F
    node_decode_tps n = or_float n.benchmark.decode_tokens_per_sec cost.default_decode_tps

    unfoldable pub node_prefill_tps : CapabilityRecord F → F
    node_prefill_tps n = or_float n.benchmark.prefill_tokens_per_sec cost.default_prefill_tps

    unfoldable pub predict_single : CapabilityRecord F → LinkMetrics F → ℤ → Prediction F
    predict_single n client_link prompt_tokens =
        let prefill = fl.div (fl.of_int prompt_tokens) (node_prefill_tps n) in
        record {
          ttft = fl.add prefill (seconds client_link.rtt_ms);
          decode_tps = node_decode_tps n;
        }

    unfoldable pub predict_pipeline :
        List (CapabilityRecord F) → Graph F → LinkMetrics F → ℤ → Prediction F
    predict_pipeline nodes g client_link prompt_tokens =
        let worst = worst_link g (map (λ n. n.node_id) nodes) in
        let hops = fl.of_int (pos (length nodes - 1)) in
        let rtt_s = fl.mul (fl.mul (seconds worst.rtt_ms) cost.rtt_multiplier_per_hop) hops in
        let bw_s =
          fl.mul
            (fl.div (fl.mul (fl.of_int cost.activation_bytes_per_token) (fl.of_int (pos 8)))
              (fl.mul worst.throughput_mbps (fl.decimal (pos 1000000) 0)))
            hops in
        let per_token_net = fl.add rtt_s bw_s in
        let slice_tps = fl.mul (min_of (map node_decode_tps nodes)) cost.pipeline_efficiency in
        let eff_per_token = fl.add (fl.div one_f slice_tps) per_token_net in
        let decode_tps =
          if fl.lt zero_f eff_per_token then fl.div one_f eff_per_token else zero_f in
        let prefill = fl.div (fl.of_int prompt_tokens) (min_of (map node_prefill_tps nodes)) in
        record {
          ttft = fl.add (fl.add prefill per_token_net) (seconds client_link.rtt_ms);
          decode_tps = decode_tps;
        }

    unfoldable pub predict_tensor : List (CapabilityRecord F) → LinkMetrics F → ℤ → Prediction F
    predict_tensor nodes client_link prompt_tokens =
        let base = min_of (map node_decode_tps nodes) in
        let added = fl.of_int (pos (length nodes - 1)) in
        let prefill = fl.div (fl.of_int prompt_tokens) (
          fl.mul (sum_from (fl.of_int (pos 0)) (map node_prefill_tps nodes))
            cost.prefill_parallel_efficiency) in
        record {
          ttft = fl.add prefill (seconds client_link.rtt_ms);
          decode_tps =
              fl.mul base
                (fl.add (fl.of_int (pos 1)) (fl.mul added cost.tensor_parallel_efficiency));
        }

    unfoldable pub predict_speculative : CapabilityRecord F → LinkMetrics F → ℤ → Prediction F
    predict_speculative strong client_link prompt_tokens =
        let prefill = fl.div (fl.of_int prompt_tokens) (node_prefill_tps strong) in
        record {
          ttft = fl.add prefill (seconds client_link.rtt_ms);
          decode_tps = fl.mul (node_decode_tps strong) cost.speculative_speedup;
        }

    -- `256 / tps if tps > 0 else otherwise`
    abbrev generation : F → F → F
    generation tps otherwise =
        if fl.lt zero_f tps then fl.div (fl.of_int (pos 256)) tps else otherwise

    unfoldable pub queue_wait : ℤ → F → F
    queue_wait q tps = fl.mul (fl.of_int q) (generation tps zero_f)

    unfoldable pub score : Prediction F → Graph F → List Str → F → F
    score p g chain queue_wait_s =
        let total =
          fl.add (fl.add queue_wait_s p.ttft)
            (generation p.decode_tps (fl.decimal (pos 1000000000) 0)) in
        let worst = worst_link g chain in
        fl.add total (fl.mul (fl.sub one_f worst.stability) cost.reliability_penalty_s)
