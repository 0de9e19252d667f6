-- ===== src/Scheduler/Best.antt =====
-- `Scheduler.plan` takes a candidate of the lowest score, and finds one where a node can serve.
use mesh_compute.Prelude.Int.{◌+ℤ◌, ltb_ℤ}
use mesh_compute.Prelude.Dict.{Dict}
use mesh_compute.Scheduler.Node.{tensor, pipeline, speculative, single, CapabilityRecord}
use mesh_compute.Prelude.Bytes.{Str}
use mesh_compute.Scheduler.Assign.{Candidate}
use mesh_compute.Prelude.Sort.{sort-cons, IsOrder}
use mesh_compute.Scheduler.Plan.{
  model_bytes, drafts, fastest_from, offer_pipeline, plan_among, offer_pod, splitters,
  single_candidate, executable, replicas, add_single, first_candidate, fits, compatible, plan_of,
  add_speculative, score_le, offer_draft, add_tensor, Progress, offer_speculative, add_pipeline,
  choose, offer_tensor, all_candidates, plan, Request,
}
use mesh_compute.Scheduler.Cost.{needed_bytes, usable_bytes, mutually_lan_class, CostModel}
use mesh_compute.Python.{Floats}
use mesh_compute.Prelude.{
  All-elem, Elem-filter_intro, Elem-append_left, Elem-map, ℕ, ◌≡◌, inl, inr, refl, true, ◌&&◌, List,
  [], ◌∷◌, map, leb, nat_beq, Bool-cases, length, any, All, Elem, ok, ◌>>=◌, nat_eq, list_eq,
  contains,
}

module _ {F : Type 0} ⦃fl : Floats F⦄ (cost : CostModel F) (r : Request F) where
  -- The comparison of floats by `<` is a total order.
  abbrev pub ScoresOrdered : Type 0
  ScoresOrdered = IsOrder (score_le {F = F} cost r)

  -- A list that is not empty has a choice, and nothing in it has a lower score.
  choose_lem :
      ScoresOrdered
      → (x : Candidate F) (xs : List (Candidate F))
      → (b : Candidate F) × (choose cost r (x ∷ xs) ≡ ok b)
        × All (λ d. score_le cost r b d ≡ true) (x ∷ xs)
  unfolding choose first_candidate
  choose_lem o x xs =
      let (b, rest, sorted, least) = sort-cons (score_le cost r) o x xs in (b, rw sorted, least)

  -- What is a candidate stays one through the steps after it.
  abbrev Grows : (Progress F → Progress F) → Type 0
  Grows f = (s : Progress F) (c : Candidate F) → Elem c s.candidates → Elem c (f s).candidates

  offer_pipeline-Grows : (l : List (CapabilityRecord F)) → Grows (offer_pipeline cost r l)
  unfolding offer_pipeline
  offer_pipeline-Grows [] s c m = m
  offer_pipeline-Grows (a ∷ []) s c m = m
  offer_pipeline-Grows (a ∷ b ∷ rest) s c m =
      elim (Bool-cases (
        ltb_ℤ (usable_bytes a +ℤ usable_bytes b)
          (needed_bytes fl (model_bytes cost r) r.context_length))) [
            | inl short ↦ rw short m
            | inr enough ↦ rw enough (Elem-append_left c s.candidates _ m)
          ]

  add_pipeline-Grows : Grows (add_pipeline cost r)
  unfolding add_pipeline
  add_pipeline-Grows s c m = elim (Bool-cases (leb 2 (length (splitters cost r)))) [
    | inr few ↦ rw few m
    | inl enough ↦ elim (Bool-cases (executable r.executable_strategies pipeline)) [
      | inr refused ↦ rw (enough, refused) m
      | inl allowed ↦ rw (enough, allowed) (offer_pipeline-Grows _ s c m)
    ]
  ]

  offer_pod-Grows :
      (size : ℕ) (later : Progress F → Progress F) (pod : List (CapabilityRecord F))
      → Grows later
      → Grows (offer_pod cost r size later pod)
  unfolding offer_pod
  offer_pod-Grows size later [] next s c m = next s c m
  offer_pod-Grows size later (n ∷ ns) next s c m =
      elim (Bool-cases (
        nat_beq (length (n ∷ ns)) size
        && mutually_lan_class r.graph (map (λ v. v.node_id) (n ∷ ns)))) [
          | inr no_pod ↦ rw no_pod (next s c m)
          | inl yes_pod ↦ elim (Bool-cases (executable r.executable_strategies tensor)) [
            | inr refused ↦ rw (yes_pod, refused) (next _ c m)
            | inl allowed ↦ rw (yes_pod, allowed) (Elem-append_left c s.candidates _ m)
          ]
        ]

  add_tensor-Grows : Grows (add_tensor cost r)
  unfolding add_tensor offer_tensor
  add_tensor-Grows = offer_pod-Grows 3 _ _ (offer_pod-Grows 2 _ _ (λ s c m. m))

  offer_draft-Grows :
      (strong : CapabilityRecord F) (l : List (CapabilityRecord F))
      → Grows (offer_draft cost r strong l)
  unfolding offer_draft
  offer_draft-Grows strong [] s c m = m
  offer_draft-Grows strong (draft ∷ _) s c m = Elem-append_left c s.candidates _ m

  offer_speculative-Grows : (l : List (CapabilityRecord F)) → Grows (offer_speculative cost r l)
  unfolding offer_speculative
  offer_speculative-Grows [] s c m = m
  offer_speculative-Grows (n ∷ ns) s c m =
      elim (Bool-cases (executable r.executable_strategies speculative)) [
        | inr refused ↦ rw refused m
        | inl allowed ↦ rw allowed (
            offer_draft-Grows (fastest_from cost r n ns) (drafts cost r (fastest_from cost r n ns))
              s c m)
      ]

  single-candidates :
      (n : CapabilityRecord F)
      → Elem n (replicas cost r)
      → executable r.executable_strategies single ≡ true
      → Elem (single_candidate cost r n) (all_candidates cost r).candidates
  unfolding all_candidates add_speculative add_single
  single-candidates n m allowed = offer_speculative-Grows (replicas cost r) _ _ (
      add_tensor-Grows _ _
        (add_pipeline-Grows _ _ (rw allowed (Elem-map (single_candidate cost r) n _ m))))

  Elem-values :
      (d : Dict Str (CapabilityRecord F)) (id : Str) (n : CapabilityRecord F)
      → Elem (id, n) d
      → Elem n (map (λ e. e.1) d)
  Elem-values d id n m = Elem-map (λ e. e.1) (id, n) d m

  -- A list with a candidate in it is decided.
  plan_among_lem :
      ScoresOrdered
      → (l : List (CapabilityRecord F)) (n : CapabilityRecord F) → Elem n l
      → (d : Candidate F) → Elem d (all_candidates cost r).candidates
      → (c : Candidate F) × (plan_among cost r l ≡ ok (plan_of cost r c))
        × (score_le cost r c d ≡ true)
  unfolding plan_among
  plan_among_lem o [] n m d k = absurd m
  plan_among_lem o (_ ∷ _) n m d k = chosen_among (all_candidates cost r).candidates refl k
    where
      chosen_among :
          (cs : List (Candidate F))
          → (all_candidates cost r).candidates ≡ cs
          → Elem d cs
          → (c : Candidate F) × ((choose cost r (all_candidates cost r).candidates >>= λ best.
                ok (plan_of cost r best))
              ≡ ok (plan_of cost r c))
            × (score_le cost r c d ≡ true)
      chosen_among [] e k = absurd k
      chosen_among (x ∷ xs) e k =
          let (c, chosen, least) = choose_lem o x xs in
          (c, rw (e, chosen), All-elem (λ z. score_le cost r c z ≡ true) d (x ∷ xs) least k)

  -- Where a node of the registry advertises a backend of the model and holds the whole model, and
  -- the caller can run a single plan, planning succeeds, and with a candidate whose score is not
  -- above the one of that node alone.
  pub plan-serves :
      ScoresOrdered
      → (id : Str) (n : CapabilityRecord F) → Elem (id, n) r.nodes
      → any (λ b. contains b r.model.backends) n.backends ≡ true
      → fits cost r n ≡ true
      → executable r.executable_strategies single ≡ true
      → (c : Candidate F) × (plan cost r ≡ ok (plan_of cost r c))
        × (score_le cost r c (single_candidate cost r n) ≡ true)
  unfolding plan
  plan-serves o id n inside matches takes allowed =
      let matching : Elem n (compatible r) =
        unfold compatible in
        Elem-filter_intro n (λ v. any (λ b. contains b r.model.backends) v.backends)
          (map (λ e. e.1) r.nodes) (Elem-values r.nodes id n inside) matches in
      let whole : Elem n (replicas cost r) =
        unfold replicas in Elem-filter_intro n (fits cost r) (compatible r) matching takes in
      plan_among_lem o (compatible r) n matching (single_candidate cost r n)
        (single-candidates n whole allowed)
