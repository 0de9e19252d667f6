-- ===== src/Scheduler/Assign.antt =====
-- `_assign`: which node of the chosen chain holds which layers.
use mesh_compute.Prelude.Bytes.{Str}
use mesh_compute.Scheduler.Node.{
  replica, expert, speculative, tensor, pipeline, single, ShardAssignment, ModelManifest, Strategy,
}
use mesh_compute.Prelude.{
  ℕ, ◌+◌, ◌*◌, ◌/◌, none, some, List, [], ◌∷◌, map, if◌then◌else◌, nat_beq, length, nat_eq, list_eq,
}

pub record Candidate (F : Type 0) : Type 0 where
  pub strategy : Strategy
  pub peer_chain : List Str
  pub predicted_ttft_s : F
  pub predicted_decode_tps : F
  pub score : F

abbrev pub layers : ℕ
layers = 64

-- The loop over the chain from position `i`: node `i` of `n` starts at layer `i * per`, and the
-- last one takes what is left.
unfoldable pub slices : ℕ → ℕ → ℕ → List Str → List ShardAssignment
slices n per i [] = []
slices n per i (id ∷ ids) =
    record {
      node_id = id;
      role = pipeline;
      layer_start = some (i * per);
      layer_end = some (if nat_beq (i + 1) n then layers else (i + 1) * per);
      backend = [];
    }
    ∷ slices n per (i + 1) ids

-- A node that holds every layer.
unfoldable pub whole : Strategy → Str → Str → ShardAssignment
whole role backend id = record {
  node_id = id;
  role = role;
  layer_start = none;
  layer_end = none;
  backend = backend;
}

unfoldable pub first_backend : ModelManifest → Str
first_backend m = elim m.backends [ [] ↦ [] | b ∷ _ ↦ b ]

-- By the strategy of the chain. A single or speculative plan reads the first one or two nodes of
-- its chain, which its candidate always has; for a shorter chain, where the code raises an
-- `IndexError`, the list is empty.
unfoldable pub assign_chain : Strategy → List Str → Str → List ShardAssignment
unfolding slices whole
assign_chain single (a ∷ rest) backend = whole single backend a ∷ []
assign_chain single [] backend = []
assign_chain tensor chain backend = map (whole tensor backend) chain
assign_chain speculative (a ∷ b ∷ rest) backend =
    whole single backend a ∷ whole speculative backend b ∷ []
assign_chain speculative _ backend = []
assign_chain pipeline chain backend = slices (length chain) (layers / length chain) 0 chain
assign_chain expert chain backend = slices (length chain) (layers / length chain) 0 chain
assign_chain replica chain backend = slices (length chain) (layers / length chain) 0 chain

unfoldable pub assign : {F : Type 0} → Candidate F → ModelManifest → List ShardAssignment
assign cand model = assign_chain cand.strategy cand.peer_chain (first_backend model)
