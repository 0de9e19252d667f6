-- ===== src/Scheduler/Layers.antt =====
-- `_assign`: the slices of a pipeline are all the layers, each once.
use mesh_compute.Prelude.{
  ℕ, ◌+◌, ◌*◌, ◌/◌, ◌≤◌, ◌<◌, ◌≡◌, refl, sym, ap, subst, ◌∙◌, true, false, some, List, [], ◌∷◌, map,
  arith, nat_beq, length, ok, nat_eq, list_eq,
}
use mesh_compute.Scheduler.Plan.{plan_of, compatible, plan, ExecutionPlan, Request}
use mesh_compute.Scheduler.Cost.{CostModel}
use mesh_compute.Python.{Floats}
use mesh_compute.Scheduler.Node.{pipeline}
use mesh_compute.Prelude.Bytes.{Str}
use mesh_compute.Scheduler.Node.{ShardAssignment}
use native.Mathlib.Nat.{le-div_iff_mul-le, mul-div-le}
use mesh_compute.Scheduler.Feasible.{CanRun, plan-feasible, plan_among-chosen}
use mesh_compute.Scheduler.Assign.{assign, first_backend, assign_chain, slices, layers}

-- The slices lie end to end from a layer on to the last one, and none is empty.
abbrev pub Covers : ℕ → List ShardAssignment → Type 0
Covers from [] = ⊥
Covers from (s ∷ []) = (from < layers) × (s.layer_start ≡ some from) × (s.layer_end ≡ some layers)
Covers from (s ∷ t ∷ rest) =
    (mid : ℕ) × (from < mid)
    × (s.layer_start ≡ some from)
    × (s.layer_end ≡ some mid)
    × Covers mid (t ∷ rest)

nat_beq_self : (n : ℕ) → nat_beq n n ≡ true
nat_beq_self n = ground arith

nat_beq_later : (n i : ℕ) → i + 2 ≤ n → nat_beq (i + 1) n ≡ false
nat_beq_later n i h = ground arith

last_slice : (i per : ℕ) → (i + 1) * per ≤ layers → 1 ≤ per → i * per < layers
last_slice i per h p = omega (arith, h, p)

next_slice : (i per : ℕ) → 1 ≤ per → i * per < (i + 1) * per
next_slice i per p = omega (arith, p)

-- From position `i` of a chain of `n` nodes, with `per` layers to a node.
slices-Covers :
    (n per i : ℕ) (id : Str) (ids : List Str)
    → i + length (id ∷ ids) ≡ n
    → 1 ≤ per
    → n * per ≤ layers
    → Covers (i * per) (slices n per i (id ∷ ids))
unfolding slices
slices-Covers n per i id [] e pos_per small =
    let here : n ≡ i + 1 = omega arith in
    rw (here, nat_beq_self)
      (last_slice i per (subst (λ k. k * per ≤ layers) here small) pos_per, refl, refl)
slices-Covers n per i id (id2 ∷ ids) e pos_per small = rw (nat_beq_later n i (omega arith)) (
  (i + 1) * per,
  next_slice i per pos_per,
  refl,
  refl,
  slices-Covers n per (i + 1) id2 ids (omega arith) pos_per small,
)

slices-node_id : (n per i : ℕ) (ids : List Str) → map (λ s. s.node_id) (slices n per i ids) ≡ ids
unfolding slices
slices-node_id n per i [] = refl
slices-node_id n per i (id ∷ ids) = ap (◌∷◌ id) (slices-node_id n per (i + 1) ids)

per_node : (n : ℕ) → 1 ≤ n → n ≤ layers → 1 ≤ layers / n
per_node n some_node short =
    (le-div_iff_mul-le {k = n} {x = 1} {y = layers} (omega arith)).1 (omega arith)

-- For a chain of up to 64 nodes, `_assign` gives its nodes, in order, slices that lie end to end
-- from layer 0 to layer 64, none empty.
pub assign_chain-Covers :
    (id : Str) (ids : List Str) (backend : Str)
    → length (id ∷ ids) ≤ layers
    → Covers 0 (assign_chain pipeline (id ∷ ids) backend)
      × (map (λ s. s.node_id) (assign_chain pipeline (id ∷ ids) backend) ≡ id ∷ ids)
unfolding assign_chain
assign_chain-Covers id ids backend short =
    let n = length (id ∷ ids) in
    let from_zero : 0 * (layers / n) ≡ 0 = omega arith in
    (
      subst (λ k. Covers k (slices n (layers / n) 0 (id ∷ ids))) from_zero
          (slices-Covers n (layers / n) 0 id ids (omega arith) (per_node n (omega arith) short)
            (mul-div-le layers n)),
      slices-node_id n (layers / n) 0 (id ∷ ids),
    )

module _ {F : Type 0} ⦃fl : Floats F⦄ (cost : CostModel F) (r : Request F) where
  -- The assignment of a plan is that of its strategy and its chain.
  plan-assign :
      {p : ExecutionPlan F}
      → plan cost r ≡ ok p
      → p.shard_assignment ≡ assign_chain p.strategy p.peer_chain (first_backend r.model)
  unfolding plan
  plan-assign {p} e =
      let (c, chosen, made) = plan_among-chosen cost r (compatible r) e in
      subst (λ q. q.shard_assignment ≡ assign_chain q.strategy q.peer_chain (first_backend r.model))
        made (unfold plan_of assign in refl)

  -- A pipeline plan gives the nodes of its chain, in order, slices of the layers that lie end to
  -- end from layer 0 to layer 64, none empty.
  pub plan-Covers :
      {p : ExecutionPlan F}
      → plan cost r ≡ ok p
      → p.strategy ≡ pipeline
      → Covers 0 p.shard_assignment × (map (λ s. s.node_id) p.shard_assignment ≡ p.peer_chain)
  plan-Covers {p} e split =
      let (allowed, runs) = plan-feasible cost r e in
      let (a, b, _, _, _, _, _, chain) = subst (λ s. CanRun cost r s p.peer_chain) split runs in
      let assigned : p.shard_assignment
          ≡ assign_chain pipeline (a.node_id ∷ b.node_id ∷ []) (first_backend r.model) =
        plan-assign e ∙ rw (split, chain) in
      let (covers, nodes) =
        assign_chain-Covers a.node_id (b.node_id ∷ []) (first_backend r.model) (omega arith) in
      (
        subst (Covers 0) (sym assigned) covers,
        ap (map (λ s. s.node_id)) assigned ∙ nodes ∙ sym chain,
      )
