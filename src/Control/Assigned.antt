-- ===== src/Control/Assigned.antt =====
-- To whom `schedule` gives work.
use mesh_compute.Prelude.Int.{pos}
use mesh_compute.Prelude.{
  ◌≡◌, inl, inr, refl, sym, subst, ◌∙◌, true, false, Option, none, some, List, [], ◌∷◌, arith,
  if◌then◌else◌, Bool-cases, Option-cases, All, Elem, ok, nat_eq, list_eq, contains, All-elem,
  All-intro, All-map, list_beq,
}
use mesh_compute.Prelude.Bytes.{codes, Str}
use mesh_compute.Python.{Floats}
use mesh_compute.Prelude.Dict.{lookup, lookup-Elem}
use mesh_compute.Protocol.Identity.{Crypto}
use mesh_compute.Protocol.Json.{Json}
use mesh_compute.Scheduler.Cost.{CostModel}
use mesh_compute.Scheduler.Node.{
  CapabilityRecord, Strategy, single, pipeline, tensor, expert, speculative, replica,
}
use mesh_compute.Scheduler.Plan.{Request, ExecutionPlan}
use mesh_compute.Scheduler.Feasible.{CanRun, IsCompatible, plan-feasible}
use mesh_compute.Store.Tables.{NodeRow, get_capability, list_nodes}
use mesh_compute.Control.Read.{get, or_null, capability_of}
use mesh_compute.Control.Requests.{HeartbeatRequest, ScheduleRequest, dump_capability}
use mesh_compute.Control.Nodes.{App}
use mesh_compute.Control.Scheduling.{
  Gathered, is_eligible, refresh, take_in, gather, candidates_for, request_for, schedule,
}
use mesh_compute.Control.Trust.{IsTrusted, IsVouched, All-insert}
use mesh_compute.Control.Served.{schedule-eq-ok}

module _ {F : Type 0} where
  refresh-node_id :
      (hb : Option (HeartbeatRequest F)) (rec : CapabilityRecord F)
      → (refresh hb rec).node_id ≡ rec.node_id
  refresh-node_id none rec = refl
  refresh-node_id (some hb) rec = refl

module _ {F : Type 0} ⦃fl : Floats F⦄ (now : F) (pool_id client : Str) (app : App F) where
  -- A node that the registry has online, seen at most 90 seconds ago, and in the pool.
  abbrev pub IsPresent : NodeRow F → Type 0
  IsPresent row =
      (row.online ≡ true)
      × (fl.lt (fl.decimal (pos 90) 0) (fl.sub now row.last_seen) ≡ false)
      × (contains pool_id row.pool_ids ≡ true)

  is_eligible-IsPresent : (row : NodeRow F) → is_eligible now pool_id row ≡ true → IsPresent row
  unfolding is_eligible
  is_eligible-IsPresent row e = (ground arith, ground arith, ground arith)

  -- A node that is present, with a capability record of that node.
  abbrev pub IsAssignable : Str → Type 0
  IsAssignable id =
      (row : NodeRow F) × Elem (id, row) app.store.nodes
      × IsPresent row
      × ((raw : Json F) × (get_capability id app.store ≡ some raw)
          × ((capability_of (or_null (get (codes "record") raw))).node_id ≡ id))

  abbrev IsTaken : Str × CapabilityRecord F → Type 0
  IsTaken (id, rec) = IsAssignable id × (rec.node_id ≡ id)

  take_in-IsTaken :
      (id : Str) (row : NodeRow F) (o : Option (Json F)) (s : Gathered F)
      → Elem (id, row) app.store.nodes
      → IsPresent row
      → get_capability id app.store ≡ o
      → ((raw : Json F)
          → o ≡ some raw
          → (capability_of (or_null (get (codes "record") raw))).node_id ≡ id)
      → All IsTaken s.nodes
      → All IsTaken (take_in client app id o s).nodes
  take_in-IsTaken id row none s m fit known named h = h
  take_in-IsTaken id row (some raw) s m fit known named h =
      let named_id = named raw refl in
      All-insert IsTaken id _ s.nodes
        ((row, m, fit, (raw, known, named_id)), refresh-node_id _ _ ∙ named_id) h

  module _ ⦃cr : Crypto⦄ (vouched : All IsVouched app.store.capabilities) where
    -- The stored record names the node that it is stored for.
    vouched-named :
        (id : Str) (raw : Json F)
        → get_capability id app.store ≡ some raw
        → (capability_of (or_null (get (codes "record") raw))).node_id ≡ id
    unfolding get_capability dump_capability list_beq
    vouched-named id raw e = elim (Option-cases (lookup id app.store.capabilities)) [
      | inl gone ↦ absurd (let f = rw gone at e in cc)
      | inr (row, found) ↦
          let same : row.signed_capability ≡ raw = (let f = rw found at e in cc) in
          let (cap, dumped, named, _, _) =
            All-elem IsVouched (id, row) app.store.capabilities vouched
              (lookup-Elem id row app.store.capabilities found) in
          subst (λ j. (capability_of (or_null (get (codes "record") j))).node_id ≡ id)
            (sym dumped ∙ same) named
    ]

    row-IsTaken :
        (id : Str) (row : NodeRow F) (s : Gathered F)
        → Elem (id, row) app.store.nodes
        → All IsTaken s.nodes
        → All IsTaken
            (if is_eligible now pool_id row
              then take_in client app id (get_capability id app.store) s
              else s).nodes
    row-IsTaken id row s m h = elim (Bool-cases (is_eligible now pool_id row)) [
      | inl fit ↦
          rw fit
            (take_in-IsTaken id row _ s m (is_eligible-IsPresent row fit) refl (vouched-named id) h)
      | inr unfit ↦ rw unfit h
    ]

    gather-IsTaken :
        (rows : List (Str × NodeRow F)) (s : Gathered F)
        → All (λ e. Elem e app.store.nodes) rows
        → All IsTaken s.nodes
        → All IsTaken (gather now pool_id client app rows s).nodes
    unfolding gather
    gather-IsTaken [] s m h = h
    gather-IsTaken ((id, row) ∷ rows) s m h = gather-IsTaken rows _ m.1 (row-IsTaken id row s m.0 h)

module _ {F : Type 0} ⦃fl : Floats F⦄ (cost : CostModel F) (r : Request F) (P : Str → Type 0)
    (good : (id : Str) (n : CapabilityRecord F) → Elem (id, n) r.nodes → P n.node_id) where
  compatible-good : (n : CapabilityRecord F) → IsCompatible cost r n → P n.node_id
  compatible-good n (id, m, _) = good id n m

  -- Every node of a chain that can run is one of the request's.
  CanRun-good : (s : Strategy) (chain : List Str) → CanRun cost r s chain → All P chain
  CanRun-good single chain (n, c, e) = subst (All P) (sym e) (compatible-good n c.0, tt)
  CanRun-good pipeline chain (a, b, ca, cb, _, _, _, e) =
      subst (All P) (sym e) (compatible-good a ca, (compatible-good b cb, tt))
  CanRun-good tensor chain (pod, each, _, _, e) =
      subst (All P) (sym e)
        (All-map P (λ n. n.node_id) pod (λ n m. compatible-good n (All-elem _ n pod each m).0.0))
  CanRun-good speculative chain (strong, draft, cs, cd, _, _, _, e) =
      subst (All P) (sym e) (compatible-good strong cs.0, (compatible-good draft cd, tt))
  CanRun-good expert chain c = absurd c
  CanRun-good replica chain c = absurd c

Elem-self : {A : Type 0} (xs : List A) → All (λ x. Elem x xs) xs
Elem-self xs = All-intro _ xs (λ x m. m)

module _ {F : Type 0} ⦃fl : Floats F⦄ ⦃cr : Crypto⦄ where
  -- Where the capabilities are vouched for, a plan is given only to registered nodes that are
  -- online, were seen at most 90 seconds ago and are in the pool that the request names, and each
  -- has a stored record of its own.
  pub schedule-IsAssignable :
      (cost : CostModel F) (now : F) (plan_id : Str) (req : ScheduleRequest) (app : App F)
      {app2 : App F} {p : ExecutionPlan F}
      → IsTrusted app
      → schedule cost now plan_id req app ≡ ok (app2, p)
      → All (IsAssignable now req.pool_id req.client_node_id app) p.peer_chain
  unfolding request_for list_nodes
  schedule-IsAssignable cost now plan_id req app {app2} {p} t e =
      let (manifest, _, planned, _) = schedule-eq-ok cost now plan_id req app e in
      let (_, chain) = plan-feasible cost (request_for now plan_id req manifest app) planned in
      let taken =
        gather-IsTaken now req.pool_id req.client_node_id app t.1 app.store.nodes
          (record { nodes = []; graph = [] }) (Elem-self app.store.nodes) tt in
      let good =
        λ (id : Str) (n : CapabilityRecord F) (m : Elem (id, n) (candidates_for now req app).nodes).
          let (assignable, named) = All-elem _ (id, n) _ taken m in
          subst (IsAssignable now req.pool_id req.client_node_id app) (sym named) assignable in
      CanRun-good cost (request_for now plan_id req manifest app)
        (IsAssignable now req.pool_id req.client_node_id app) good p.strategy p.peer_chain chain
