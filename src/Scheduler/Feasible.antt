-- ===== src/Scheduler/Feasible.antt =====
-- Every candidate can run: its nodes are there, they take the model, and the caller allows it.
use mesh_compute.Prelude.{
  ℕ, ◌≤◌, ◌≡◌, ◌≢◌, inl, inr, refl, ap, subst, true, false, not, ◌&&◌, ◌||◌, List, [], ◌∷◌, map,
  arith, leb, nat_beq, Bool-cases, length, filter, any, All, Elem, ok, >>=-eq-ok, ◌==◌, nat_eq,
  list_eq, contains, All-append, All-elem, All-intro, All-map, All-take, Elem-filter, ne_of_beq,
}
use mesh_compute.Prelude.Sort.{Elem-sort, sort}
use mesh_compute.Prelude.Int.{◌+ℤ◌, ltb_ℤ}
use mesh_compute.Prelude.Dict.{Dict}
use mesh_compute.Scheduler.Assign.{Candidate}
use mesh_compute.Scheduler.Plan.{
  offer_pod, offer_draft, first_candidate, plan_among, plan_of, score_le, ExecutionPlan, plan,
  choose, add_speculative, all_candidates, drafts, speculative_candidate, add_tensor, more_vram,
  fastest_from, offer_speculative, candidate, Progress, single_candidate, tensor_candidate,
  pipeline_candidate, tensor_capable, offer_tensor, splitters, offer_pipeline, add_pipeline,
  model_bytes, executable, replicas, compatible, fits, add_single, Request,
}
use mesh_compute.Scheduler.Topology.{link, is_lan_class, Graph}
use mesh_compute.Prelude.Bytes.{codes, Str}
use mesh_compute.Scheduler.Cost.{
  node_decode_tps, needed_bytes, usable_bytes, can, lan_with_all, mutually_lan_class, CostModel,
}
use mesh_compute.Scheduler.Node.{
  replica, expert, speculative, tensor, pipeline, single, Strategy, CapabilityRecord,
}
use mesh_compute.Python.{Floats}

abbrev ids : {F : Type 0} → List (CapabilityRecord F) → List Str
ids = map (λ n. n.node_id)

module _ {F : Type 0} ⦃fl : Floats F⦄ where
  -- Every pair of a pod, a node and one behind it, has a LAN-class link.
  abbrev pub IsLanPod : Graph F → List Str → Type 0
  IsLanPod g [] = Unit {0}
  IsLanPod g (a ∷ rest) = All (λ b. is_lan_class (link g a b) ≡ true) rest × IsLanPod g rest

  lan_with_all-All :
      (g : Graph F) (a : Str) (rest : List Str)
      → lan_with_all g a rest ≡ true
      → All (λ b. is_lan_class (link g a b) ≡ true) rest
  unfolding lan_with_all
  lan_with_all-All g a [] h = tt
  lan_with_all-All g a (b ∷ rest) h = ground (arith, lan_with_all-All g a rest)

  mutually_lan_class-IsLanPod :
      (g : Graph F) (chain : List Str) → mutually_lan_class g chain ≡ true → IsLanPod g chain
  unfolding mutually_lan_class
  mutually_lan_class-IsLanPod g [] h = tt
  mutually_lan_class-IsLanPod g (a ∷ rest) h =
      (lan_with_all-All g a rest (ground arith), mutually_lan_class-IsLanPod g rest (ground arith))

  module _ (cost : CostModel F) (r : Request F) where
    -- A node of the registry that advertises a backend of the model.
    abbrev pub IsCompatible : CapabilityRecord F → Type 0
    IsCompatible n =
        (id : Str) × Elem (id, n) r.nodes
        × (any (λ b. contains b r.model.backends) n.backends ≡ true)

    -- A compatible node that holds the whole model with its KV cache.
    abbrev pub IsReplica : CapabilityRecord F → Type 0
    IsReplica n = IsCompatible n × (fits cost r n ≡ true)

    -- What a chain must satisfy, by strategy.
    abbrev pub CanRun : Strategy → List Str → Type 0
    CanRun single chain = (n : CapabilityRecord F) × IsReplica n × (chain ≡ n.node_id ∷ [])
    CanRun pipeline chain =
        (a : CapabilityRecord F) × (b : CapabilityRecord F) × IsCompatible a
        × IsCompatible b
        × (can a (codes "pipeline") ≡ true)
        × (can b (codes "pipeline") ≡ true)
        × (ltb_ℤ (usable_bytes a +ℤ usable_bytes b)
              (needed_bytes fl (model_bytes cost r) r.context_length)
            ≡ false)
        × (chain ≡ a.node_id ∷ b.node_id ∷ [])
    CanRun tensor chain =
        (pod : List (CapabilityRecord F)) × All (λ n. IsReplica n × (can n (codes "tensor") ≡ true))
          pod
        × (2 ≤ length pod)
        × IsLanPod r.graph (ids pod)
        × (chain ≡ ids pod)
    CanRun speculative chain =
        (strong : CapabilityRecord F) × (draft : CapabilityRecord F) × IsReplica strong
        × IsCompatible draft
        × (draft.node_id ≢ strong.node_id)
        × ((can draft (codes "speculative") || can draft (codes "draft")) ≡ true)
        × (fl.le (link r.graph strong.node_id draft.node_id).rtt_ms cost.speculative_max_rtt_ms
            ≡ true)
        × (chain ≡ strong.node_id ∷ draft.node_id ∷ [])
    CanRun expert chain = ⊥
    CanRun replica chain = ⊥

    abbrev pub IsFeasible : Candidate F → Type 0
    IsFeasible c =
        (executable r.executable_strategies c.strategy ≡ true) × CanRun c.strategy c.peer_chain

    Elem-values :
        (n : CapabilityRecord F) (d : Dict Str (CapabilityRecord F))
        → Elem n (map (λ e. e.1) d)
        → (id : Str) × Elem (id, n) d
    Elem-values n [] m = absurd m
    Elem-values n ((id, v) ∷ d) (inl e) = (id, inl (ap (λ x. (id, x)) e))
    Elem-values n (e ∷ d) (inr m) = let (id, k) = Elem-values n d m in (id, inr k)

    compatible-IsCompatible : (n : CapabilityRecord F) → Elem n (compatible r) → IsCompatible n
    unfolding compatible
    compatible-IsCompatible n m =
        let (inside, matches) =
          Elem-filter n (λ v. any (λ b. contains b r.model.backends) v.backends)
            (map (λ e. e.1) r.nodes) m in
        let (id, k) = Elem-values n r.nodes inside in (id, k, matches)

    replicas-IsReplica : (n : CapabilityRecord F) → Elem n (replicas cost r) → IsReplica n
    unfolding replicas
    replicas-IsReplica n m =
        let (inside, takes) = Elem-filter n (fits cost r) (compatible r) m in
        (compatible-IsCompatible n inside, takes)

    add_single-IsFeasible : All IsFeasible (add_single cost r).candidates
    unfolding add_single
    add_single-IsFeasible = elim (Bool-cases (executable r.executable_strategies single)) [
      | inr refused ↦ rw refused tt
      | inl allowed ↦ rw allowed (
          All-map IsFeasible (single_candidate cost r) (replicas cost r) (λ n m.
            unfold single_candidate candidate in (allowed, (n, replicas-IsReplica n m, refl))))
    ]

    offer_pipeline-IsFeasible :
        (l : List (CapabilityRecord F)) (s : Progress F)
        → ((n : CapabilityRecord F) → Elem n l → IsCompatible n × (can n (codes "pipeline") ≡ true))
        → executable r.executable_strategies pipeline ≡ true
        → All IsFeasible s.candidates
        → All IsFeasible (offer_pipeline cost r l s).candidates
    unfolding offer_pipeline pipeline_candidate candidate
    offer_pipeline-IsFeasible [] s h allowed k = k
    offer_pipeline-IsFeasible (a ∷ []) s h allowed k = k
    offer_pipeline-IsFeasible (a ∷ b ∷ rest) s h allowed k =
        elim (Bool-cases (
          ltb_ℤ (usable_bytes a +ℤ usable_bytes b)
            (needed_bytes fl (model_bytes cost r) r.context_length))) [
              | inl short ↦ rw short k
              | inr enough ↦
                  let (ca, pa) = h a (inl refl) in
                  let (cb, pb) = h b (inr (inl refl)) in
                  rw enough (
                    All-append IsFeasible s.candidates _ k
                      ((allowed, (a, b, ca, cb, pa, pb, enough, refl)), tt))
            ]

    splitters-can :
        (n : CapabilityRecord F)
        → Elem n (sort (more_vram cost r) (splitters cost r))
        → IsCompatible n × (can n (codes "pipeline") ≡ true)
    unfolding splitters
    splitters-can n m =
        let (inside, takes) =
          Elem-filter n (λ v. can v (codes "pipeline")) (compatible r)
            (Elem-sort (more_vram cost r) n (filter (λ v. can v (codes "pipeline")) (compatible r))
              m) in
        (compatible-IsCompatible n inside, takes)

    add_pipeline-IsFeasible :
        (s : Progress F)
        → All IsFeasible s.candidates
        → All IsFeasible (add_pipeline cost r s).candidates
    unfolding add_pipeline
    add_pipeline-IsFeasible s k = elim (Bool-cases (leb 2 (length (splitters cost r)))) [
      | inr few ↦ rw few k
      | inl enough ↦ elim (Bool-cases (executable r.executable_strategies pipeline)) [
        | inr refused ↦ rw (enough, refused) k
        | inl allowed ↦
            rw (enough, allowed)
              (offer_pipeline-IsFeasible (sort (more_vram cost r) (splitters cost r)) s
                splitters-can allowed k)
      ]
    ]

    tensor_capable-All :
        All (λ n. IsReplica n × (can n (codes "tensor") ≡ true)) (tensor_capable cost r)
    unfolding tensor_capable
    tensor_capable-All = All-intro _ _ (λ n m.
        let (inside, takes) = Elem-filter n (λ v. can v (codes "tensor")) (replicas cost r) m in
        (replicas-IsReplica n inside, takes))

    -- One round for a pod of two nodes or more, before rounds that keep the property.
    offer_pod-IsFeasible :
        (size : ℕ) (later : Progress F → Progress F) (pod : List (CapabilityRecord F))
        (s : Progress F)
        → 2 ≤ size
        → ((t : Progress F) → All IsFeasible t.candidates → All IsFeasible (later t).candidates)
        → All (λ n. IsReplica n × (can n (codes "tensor") ≡ true)) pod
        → All IsFeasible s.candidates
        → All IsFeasible (offer_pod cost r size later pod s).candidates
    unfolding offer_pod tensor_candidate candidate
    offer_pod-IsFeasible size later [] s big next good k = next s k
    offer_pod-IsFeasible size later (n ∷ ns) s big next good k =
        elim (Bool-cases
          (nat_beq (length (n ∷ ns)) size && mutually_lan_class r.graph (ids (n ∷ ns)))) [
            | inr no_pod ↦ rw no_pod (next s k)
            | inl yes_pod ↦ elim (Bool-cases (executable r.executable_strategies tensor)) [
              | inr refused ↦ rw (yes_pod, refused) (next _ k)
              | inl allowed ↦
                  rw (yes_pod, allowed)
                    (All-append IsFeasible s.candidates _ k (
                      (
                        allowed,
                        (
                          n ∷ ns,
                          good,
                          ground arith,
                          mutually_lan_class-IsLanPod r.graph (ids (n ∷ ns)) (ground arith),
                          refl,
                        ),
                      ),
                      tt,
                    ))
            ]
          ]

    offer_tensor-IsFeasible :
        (size : ℕ) (later : Progress F → Progress F) (s : Progress F)
        → 2 ≤ size
        → ((t : Progress F) → All IsFeasible t.candidates → All IsFeasible (later t).candidates)
        → All IsFeasible s.candidates
        → All IsFeasible (offer_tensor cost r size later s).candidates
    unfolding offer_tensor
    offer_tensor-IsFeasible size later s big next =
        offer_pod-IsFeasible size later _ s big next (All-take _ size _ tensor_capable-All)

    add_tensor-IsFeasible :
        (s : Progress F)
        → All IsFeasible s.candidates
        → All IsFeasible (add_tensor cost r s).candidates
    unfolding add_tensor
    add_tensor-IsFeasible s =
        offer_tensor-IsFeasible 3 _ s (omega arith)
          (λ t. offer_tensor-IsFeasible 2 (λ u. u) t (omega arith) (λ u k. k))

    -- The fastest is one of the nodes.
    fastest_from-Elem :
        (best : CapabilityRecord F) (l pool : List (CapabilityRecord F))
        → Elem best pool
        → ((n : CapabilityRecord F) → Elem n l → Elem n pool)
        → Elem (fastest_from cost r best l) pool
    fastest_from-Elem best [] pool m k = m
    fastest_from-Elem best (n ∷ ns) pool m k =
        elim (Bool-cases (fl.lt (node_decode_tps cost best) (node_decode_tps cost n))) [
          | inl faster ↦
              rw faster (fastest_from-Elem n ns pool (k n (inl refl)) (λ x i. k x (inr i)))
          | inr slower ↦ rw slower (fastest_from-Elem best ns pool m (λ x i. k x (inr i)))
        ]

    -- What the test of `drafts` says of the two nodes.
    drafts-passes :
        (strong n : CapabilityRecord F)
        → Elem n (drafts cost r strong)
        → Elem n (compatible r)
          × ((n.node_id == strong.node_id) ≡ false)
          × ((can n (codes "speculative") || can n (codes "draft")) ≡ true)
          × (fl.le (link r.graph strong.node_id n.node_id).rtt_ms cost.speculative_max_rtt_ms
              ≡ true)
    unfolding drafts
    drafts-passes strong n m =
        let (inside, passes) =
          Elem-filter n
            (λ v.
              not (v.node_id == strong.node_id)
              && (can v (codes "speculative") || can v (codes "draft"))
              && fl.le (link r.graph strong.node_id v.node_id).rtt_ms cost.speculative_max_rtt_ms)
            (compatible r) m in
        (inside, ground arith, ground arith, ground arith)

    offer_draft-IsFeasible :
        (strong : CapabilityRecord F) (l : List (CapabilityRecord F)) (s : Progress F)
        → ((n : CapabilityRecord F) → Elem n l → Elem n (drafts cost r strong))
        → IsReplica strong
        → executable r.executable_strategies speculative ≡ true
        → All IsFeasible s.candidates
        → All IsFeasible (offer_draft cost r strong l s).candidates
    unfolding offer_draft speculative_candidate candidate
    offer_draft-IsFeasible strong [] s among whole allowed k = k
    offer_draft-IsFeasible strong (draft ∷ others) s among whole allowed k =
        let (inside, differ, helps, near) = drafts-passes strong draft (among draft (inl refl)) in
        All-append IsFeasible s.candidates _ k (
          (
            allowed,
            (
              strong,
              draft,
              whole,
              compatible-IsCompatible draft inside,
              ne_of_beq draft.node_id strong.node_id differ,
              helps,
              near,
              refl,
            ),
          ),
          tt,
        )

    offer_speculative-IsFeasible :
        (l : List (CapabilityRecord F)) (s : Progress F)
        → ((n : CapabilityRecord F) → Elem n l → Elem n (replicas cost r))
        → All IsFeasible s.candidates
        → All IsFeasible (offer_speculative cost r l s).candidates
    unfolding offer_speculative
    offer_speculative-IsFeasible [] s among k = k
    offer_speculative-IsFeasible (n ∷ ns) s among k =
        elim (Bool-cases (executable r.executable_strategies speculative)) [
          | inr refused ↦ rw refused k
          | inl allowed ↦ rw allowed (
              offer_draft-IsFeasible (fastest_from cost r n ns) _ s (λ v m. m)
                (replicas-IsReplica _ (
                  fastest_from-Elem n ns (replicas cost r) (among n (inl refl))
                    (λ x m. among x (inr m))))
                allowed k)
        ]

    pub all_candidates-IsFeasible : All IsFeasible (all_candidates cost r).candidates
    unfolding all_candidates add_speculative
    all_candidates-IsFeasible =
        offer_speculative-IsFeasible (replicas cost r) _ (λ n m. m)
          (add_tensor-IsFeasible _ (add_pipeline-IsFeasible _ add_single-IsFeasible))

    first_candidate-Elem :
        (l : List (Candidate F)) {c : Candidate F} → first_candidate cost r l ≡ ok c → Elem c l
    unfolding first_candidate
    first_candidate-Elem [] e = cc
    first_candidate-Elem (best ∷ rest) e = inl (cc e)

    -- What is chosen is one of the candidates.
    pub choose-Elem :
        (cs : List (Candidate F)) {c : Candidate F} → choose cost r cs ≡ ok c → Elem c cs
    unfolding choose
    choose-Elem cs {c} e = Elem-sort (score_le cost r) c cs (first_candidate-Elem _ e)

    -- A plan is made of one of the candidates.
    pub plan_among-chosen :
        (l : List (CapabilityRecord F)) {p : ExecutionPlan F}
        → plan_among cost r l ≡ ok p
        → (c : Candidate F) × (choose cost r (all_candidates cost r).candidates ≡ ok c)
          × (plan_of cost r c ≡ p)
    unfolding plan_among
    plan_among-chosen [] e = cc
    plan_among-chosen (_ ∷ _) e =
        let (c, chosen, made) = >>=-eq-ok (choose cost r (all_candidates cost r).candidates) _ e in
        (c, chosen, cc made)

    -- The strategy of a plan is one that the caller's peers can run, and its chain fits that
    -- strategy: the nodes are in the registry, they advertise a backend of the model, they hold it
    -- (together, for a pipeline), and the links between them are fast enough.
    pub plan-feasible :
        {p : ExecutionPlan F}
        → plan cost r ≡ ok p
        → (executable r.executable_strategies p.strategy ≡ true) × CanRun p.strategy p.peer_chain
    unfolding plan
    plan-feasible {p} e =
        let (c, chosen, made) = plan_among-chosen (compatible r) e in
        subst
          (λ q.
            (executable r.executable_strategies q.strategy ≡ true) × CanRun q.strategy q.peer_chain)
          made
          (unfold plan_of in
            All-elem IsFeasible c _ all_candidates-IsFeasible (choose-Elem _ chosen))
