-- ===== src/Scheduler/Plan.antt =====
-- `Scheduler.plan`: the candidates in the order of the code, and the choice between them.
use mesh_compute.Prelude.{
  ℕ, Bool, true, false, not, ◌&&◌, ◌||◌, List, [], ◌∷◌, ◌++◌, map, if◌then◌else◌, leb, nat_beq,
  length, take, filter, any, Result, ok, err, ◌>>=◌, ◌==◌, nat_eq, list_eq, contains,
}
use mesh_compute.Prelude.Sort.{sort}
use mesh_compute.Prelude.Int.{pos, ◌+ℤ◌, max_ℤ, leb_ℤ, ℤ, ltb_ℤ}
use mesh_compute.Scheduler.Topology.{link, Graph, LinkMetrics}
use mesh_compute.Prelude.Dict.{lookup_or, Dict}
use mesh_compute.Scheduler.Cost.{
  score, needed_bytes, usable_bytes, quant_bytes, queue_wait, zero_f, node_decode_tps,
  mutually_lan_class, predict_speculative, can, predict_tensor, fits_single, Prediction,
  predict_single, predict_pipeline, CostModel,
}
use mesh_compute.Python.{Floats}
use mesh_compute.Prelude.Bytes.{codes, Str}
use mesh_compute.Scheduler.Assign.{assign, Candidate}
use mesh_compute.Scheduler.Node.{
  free_vram_bytes, tensor, speculative, single, pipeline, strategy_value, CapabilityRecord,
  ShardAssignment, Strategy, ModelManifest,
}

-- The lines of `rejected`, by what they name.
pub data Rejection : Type 0 where
  not_executable : Strategy → Rejection
  does_not_fit : Str → Rejection
  short_of_memory : List Str → Rejection

pub data PlanError : Type 0 where
  no_backend infeasible : PlanError

-- What `plan` is called with.
pub record Request (F : Type 0) : Type 0 where
  pub model : ModelManifest
  pub nodes : Dict Str (CapabilityRecord F)
  pub graph : Graph F
  pub client_node_id : Str
  pub context_length : ℤ
  pub prompt_tokens : ℤ
  pub load : Dict Str ℤ
  pub executable_strategies : List Str
  pub plan_id : Str

pub record ExecutionPlan (F : Type 0) : Type 0 where
  pub plan_id : Str
  pub model_manifest_hash : Str
  pub model_id : Str
  pub strategy : Strategy
  pub peer_chain : List Str
  pub shard_assignment : List ShardAssignment
  pub context_length : ℤ
  pub predicted_ttft_s : F
  pub predicted_decode_tps : F
  pub rejected_alternatives : List Rejection

-- The lists `candidates` and `rejected` while `plan` runs.
pub record Progress (F : Type 0) : Type 0 where
  pub candidates : List (Candidate F)
  pub rejected : List Rejection

-- `not allowed or s.value in allowed`
unfoldable pub executable : List Str → Strategy → Bool
executable allowed s = if allowed == [] then true else contains (strategy_value s) allowed

abbrev strategy_beq : Strategy → Strategy → Bool
strategy_beq s t = strategy_value s == strategy_value t

-- `line in rejected`, for the line of a strategy.
unfoldable pub refused : Strategy → List Rejection → Bool
refused s [] = false
refused s (not_executable t ∷ rest) = if strategy_beq s t then true else refused s rest
refused s (does_not_fit _ ∷ rest) = refused s rest
refused s (short_of_memory _ ∷ rest) = refused s rest

-- The line that a call of `executable` adds when it says no; it is added once.
unfoldable pub note_refusal : List Str → Strategy → List Rejection → List Rejection
note_refusal allowed s rejected =
    if executable allowed s
    then rejected
    else if refused s rejected
    then rejected
    else rejected ++ not_executable s ∷ []

module _ {F : Type 0} ⦃fl : Floats F⦄ where
  -- `self.nodes.values()`, those with a backend that the model can run on.
  unfoldable pub compatible : Request F → List (CapabilityRecord F)
  compatible r =
      filter (λ n. any (λ b. contains b r.model.backends) n.backends) (map (λ e. e.1) r.nodes)

  module _ (cost : CostModel F) (r : Request F) where
    unfoldable pub model_bytes : ℤ
    model_bytes = quant_bytes r.model

    unfoldable pub fits : CapabilityRecord F → Bool
    fits n = fits_single n model_bytes r.context_length

    unfoldable pub replicas : List (CapabilityRecord F)
    replicas = filter fits (compatible r)

    -- `load.get(node_id, 0)`
    unfoldable pub queued : Str → ℤ
    queued id = lookup_or (pos 0) id r.load

    unfoldable pub candidate : Strategy → List Str → Prediction F → List Str → F → Candidate F
    candidate s chain p scored wait = record {
      strategy = s;
      peer_chain = chain;
      predicted_ttft_s = p.ttft;
      predicted_decode_tps = p.decode_tps;
      score = score cost p r.graph scored wait;
    }

    -- The link from the client to a node.
    abbrev pub client_link : Str → LinkMetrics F
    client_link id = link r.graph r.client_node_id id

    unfoldable pub single_candidate : CapabilityRecord F → Candidate F
    single_candidate n =
        let p = predict_single cost n (client_link n.node_id) r.prompt_tokens in
        candidate single (n.node_id ∷ []) p (n.node_id ∷ [])
          (queue_wait cost (queued n.node_id) p.decode_tps)

    -- The nodes that do not fit the model, and a candidate for each that does.
    unfoldable pub add_single : Progress F
    add_single =
        let misfits =
          map (λ n. does_not_fit n.node_id) (filter (λ n. not (fits n)) (compatible r)) in
        let allowed = executable r.executable_strategies single in
        record {
          candidates = if allowed then map single_candidate replicas else [];
          rejected = note_refusal r.executable_strategies single misfits;
        }

    -- `sorted(splitters, key=free_vram_bytes, reverse=True)`
    abbrev pub more_vram : CapabilityRecord F → CapabilityRecord F → Bool
    more_vram a b = leb_ℤ (free_vram_bytes b) (free_vram_bytes a)

    unfoldable pub splitters : List (CapabilityRecord F)
    splitters = filter (λ n. can n (codes "pipeline")) (compatible r)

    unfoldable pub pipeline_candidate : CapabilityRecord F → CapabilityRecord F → Candidate F
    pipeline_candidate a b =
        let chain = a.node_id ∷ b.node_id ∷ [] in
        let p =
          predict_pipeline cost (a ∷ b ∷ []) r.graph (client_link a.node_id) r.prompt_tokens in
        candidate pipeline chain p chain zero_f

    -- The split over two nodes: only if they hold weights and KV cache together.
    unfoldable pub offer_pipeline : List (CapabilityRecord F) → Progress F → Progress F
    offer_pipeline (a ∷ b ∷ rest) s =
        if ltb_ℤ (usable_bytes a +ℤ usable_bytes b) (needed_bytes fl model_bytes r.context_length)
        then record s { rejected = s.rejected ++ short_of_memory (a.node_id ∷ b.node_id ∷ []) ∷ [] }
        else record s { candidates = s.candidates ++ pipeline_candidate a b ∷ [] }
    offer_pipeline _ s = s

    -- `len(splitters) >= 2 and executable(PIPELINE)`
    unfoldable pub add_pipeline : Progress F → Progress F
    add_pipeline s =
        if leb 2 (length splitters)
        then (if executable r.executable_strategies pipeline
            then offer_pipeline (sort more_vram splitters) s
            else record s { rejected = note_refusal r.executable_strategies pipeline s.rejected })
        else s

    unfoldable pub tensor_capable : List (CapabilityRecord F)
    tensor_capable = filter (λ n. can n (codes "tensor")) replicas

    -- `max(load.get(n.node_id, 0) for n in pod)`
    abbrev max_queued : ℤ → List (CapabilityRecord F) → ℤ
    max_queued q [] = q
    max_queued q (n ∷ ns) = max_queued (max_ℤ q (queued n.node_id)) ns

    unfoldable pub tensor_candidate : CapabilityRecord F → List (CapabilityRecord F) → Candidate F
    tensor_candidate n ns =
        let chain = map (λ m. m.node_id) (n ∷ ns) in
        let p = predict_tensor cost (n ∷ ns) (client_link n.node_id) r.prompt_tokens in
        candidate tensor chain p chain
          (queue_wait cost (max_queued (queued n.node_id) ns) p.decode_tps)

    -- One round of `for size in (3, 2)`, on the first `size` capable nodes; `later` is what the next
    -- rounds do.
    unfoldable pub offer_pod :
        ℕ → (Progress F → Progress F) → List (CapabilityRecord F) → Progress F → Progress F
    offer_pod size later [] s = later s
    offer_pod size later (n ∷ ns) s =
        if nat_beq (length (n ∷ ns)) size
          && mutually_lan_class r.graph (map (λ m. m.node_id) (n ∷ ns))
        then (if executable r.executable_strategies tensor
            then record s { candidates = s.candidates ++ tensor_candidate n ns ∷ [] }
            else later
                (record s { rejected = note_refusal r.executable_strategies tensor s.rejected }))
        else later s

    unfoldable pub offer_tensor : ℕ → (Progress F → Progress F) → Progress F → Progress F
    offer_tensor size later = offer_pod size later (take size tensor_capable)

    unfoldable pub add_tensor : Progress F → Progress F
    add_tensor = offer_tensor 3 (offer_tensor 2 (λ s. s))

    -- `max(replicas, key=self._node_decode_tps)`: the first of the fastest.
    abbrev pub fastest_from : CapabilityRecord F → List (CapabilityRecord F) → CapabilityRecord F
    fastest_from best [] = best
    fastest_from best (n ∷ ns) =
        fastest_from
          (if fl.lt (node_decode_tps cost best) (node_decode_tps cost n) then n else best) ns

    unfoldable pub drafts : CapabilityRecord F → List (CapabilityRecord F)
    drafts strong =
        filter
          (λ n.
            not (n.node_id == strong.node_id)
            && (can n (codes "speculative") || can n (codes "draft"))
            && fl.le (link r.graph strong.node_id n.node_id).rtt_ms cost.speculative_max_rtt_ms)
          (compatible r)

    unfoldable pub speculative_candidate : CapabilityRecord F → CapabilityRecord F → Candidate F
    speculative_candidate strong draft =
        let p = predict_speculative cost strong (client_link strong.node_id) r.prompt_tokens in
        candidate speculative (strong.node_id ∷ draft.node_id ∷ []) p (strong.node_id ∷ [])
          (queue_wait cost (queued strong.node_id) p.decode_tps)

    -- The first draft peer of the strong replica.
    unfoldable pub offer_draft :
        CapabilityRecord F → List (CapabilityRecord F) → Progress F → Progress F
    offer_draft strong [] s = s
    offer_draft strong (draft ∷ _) s = record s {
      candidates = s.candidates ++ speculative_candidate strong draft ∷ [];
    }

    -- `replicas and executable(SPECULATIVE)`, on the list of the replicas.
    unfoldable pub offer_speculative : List (CapabilityRecord F) → Progress F → Progress F
    offer_speculative [] s = s
    offer_speculative (n ∷ ns) s =
        if executable r.executable_strategies speculative
        then (let strong = fastest_from n ns in offer_draft strong (drafts strong) s)
        else record s { rejected = note_refusal r.executable_strategies speculative s.rejected }

    unfoldable pub add_speculative : Progress F → Progress F
    add_speculative = offer_speculative replicas

    unfoldable pub all_candidates : Progress F
    all_candidates = add_speculative (add_tensor (add_pipeline add_single))

    -- `candidates.sort(key=lambda c: c.score)` keeps a before b unless b's score is less.
    unfoldable pub score_le : Candidate F → Candidate F → Bool
    score_le a b = not (fl.lt b.score a.score)

    unfoldable pub plan_of : Candidate F → ExecutionPlan F
    plan_of best = record {
      plan_id = r.plan_id;
      model_manifest_hash = r.model.manifest_hash;
      model_id = r.model.model_id;
      strategy = best.strategy;
      peer_chain = best.peer_chain;
      shard_assignment = assign best r.model;
      context_length = r.context_length;
      predicted_ttft_s = fl.round best.predicted_ttft_s 3;
      predicted_decode_tps = fl.round best.predicted_decode_tps 2;
      rejected_alternatives = all_candidates.rejected;
    }

    -- `candidates[0]`, where there is one.
    unfoldable pub first_candidate : List (Candidate F) → Result PlanError (Candidate F)
    first_candidate [] = err infeasible
    first_candidate (best ∷ _) = ok best

    unfoldable pub choose : List (Candidate F) → Result PlanError (Candidate F)
    choose cs = first_candidate (sort score_le cs)

    unfoldable pub plan_among : List (CapabilityRecord F) → Result PlanError (ExecutionPlan F)
    plan_among [] = err no_backend
    plan_among (_ ∷ _) = choose all_candidates.candidates >>= λ best. ok (plan_of best)

    unfoldable pub plan : Result PlanError (ExecutionPlan F)
    plan = plan_among (compatible r)
