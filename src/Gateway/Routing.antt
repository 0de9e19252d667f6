-- ===== src/Gateway/Routing.antt =====
-- What the gateway serves a request with, and what it answers when the control plane says no.
use mesh_compute.Prelude.{
  ℕ, ◌≤◌, ◌≡◌, ◌≢◌, ◌⊎◌, inl, inr, refl, ap, subst, true, Option, none, some, List, [], ◌∷◌, arith,
  if◌then◌else◌, leb, nat_beq, Bool-cases, Result, ok, err, ◌>>◌, >>=-eq-ok, nat_eq, list_eq,
}
use mesh_compute.Prelude.Dict.{lookup}
use mesh_compute.Prelude.Int.{ℤ}
use mesh_compute.Scheduler.Node.{replica, speculative, expert, tensor, pipeline, single, Strategy}
use mesh_compute.Prelude.Bytes.{Str}
use mesh_compute.Scheduler.Plan.{ExecutionPlan}
use mesh_compute.Python.{Floats}
use mesh_compute.Gateway.Router.{
  plan_in, dev_plan, backend_for, no_fallback, assert_serves, route, control_error, direct_fallback,
  no_endpoint, infeasible, unreachable, Gateway, unknown_model, or_fault, answered, status_code,
  NodeEndpoint, RouteFault, schedule, serve_route, ScheduleReply, endpoint_of_chain, Settings,
  resolve_backend,
}

-- The status of the gateway for an error status of the control plane.
abbrev pub mapped : ℕ → ℕ
mapped status = if nat_beq status 404 then 404 else if nat_beq status 500 then 503 else 502

or_fault-eq-ok :
    (fault : RouteFault) (o : Option NodeEndpoint) {ep : NodeEndpoint}
    → or_fault fault o ≡ ok ep
    → o ≡ some ep
or_fault-eq-ok fault none e = cc
or_fault-eq-ok fault (some x) e = cc

endpoint_of_chain-eq-ok :
    (s : Settings) (st : Strategy) (chain : List Str) {ep : NodeEndpoint}
    → endpoint_of_chain s st chain ≡ ok ep
    → (st ≡ single) × (id : Str) × (chain ≡ id ∷ []) × (lookup id s.nodes ≡ some ep)
unfolding endpoint_of_chain
endpoint_of_chain-eq-ok s single (id ∷ []) e = (refl, id, refl, or_fault-eq-ok no_endpoint _ e)
endpoint_of_chain-eq-ok s single [] e = cc
endpoint_of_chain-eq-ok s single (_ ∷ _ ∷ _) e = cc
endpoint_of_chain-eq-ok s pipeline chain e = cc
endpoint_of_chain-eq-ok s tensor chain e = cc
endpoint_of_chain-eq-ok s expert chain e = cc
endpoint_of_chain-eq-ok s speculative chain e = cc
endpoint_of_chain-eq-ok s replica chain e = cc

module _ {F : Type 0} ⦃fl : Floats F⦄ (s : Settings) where
  schedule-rejected :
      (status : ℕ) (body : Option (ExecutionPlan F))
      → 400 ≤ status
      → (fault : RouteFault) × (schedule (answered status body) ≡ err fault)
        × (status_code fault ≡ mapped status)
  unfolding schedule status_code
  schedule-rejected status body bad = elim (Bool-cases (nat_beq status 404)) [
    | inl missing ↦ (unknown_model, rw missing refl, rw missing refl)
    | inr known ↦ elim (Bool-cases (nat_beq status 500)) [
      | inl failed ↦ (infeasible, rw (known, failed) refl, rw (known, failed) refl)
      | inr other ↦
          let refused : leb 400 status ≡ true = ground arith in
          (control_error, rw (known, other, refused) refl, rw (known, other) refl)
    ]
  ]

  -- A control plane that answers with an error is never passed by: whatever the settings and the
  -- backends are, the request fails with 404 for its 404, 503 for its 500 and 502 for any other,
  -- and no cache changes.
  pub resolve_backend-rejected :
      (now : F) (plan_id model_id : Str) (ctx : ℤ) (status : ℕ) (body : Option (ExecutionPlan F))
      (models : Option (List Str)) (g : Gateway F)
      → 400 ≤ status
      → (fault : RouteFault) × (resolve_backend s now plan_id model_id ctx
            (answered status body)
            models
            g
          ≡ (g, err fault))
        × (status_code fault ≡ mapped status)
  unfolding resolve_backend serve_route
  resolve_backend-rejected now plan_id model_id ctx status body models g bad =
      let (fault, refused, code) = schedule-rejected status body bad in
      (fault, rw refused refl, code)

  -- The endpoint stands for the one node of a single-node plan: as the settings have it, or as the
  -- fallback for a control plane that cannot be reached.
  abbrev pub IsRouted : ScheduleReply F → ExecutionPlan F × NodeEndpoint → Type 0
  IsRouted reply out =
      (out.0.strategy ≡ single)
      × (id : Str) × (out.0.peer_chain ≡ id ∷ [])
      × ((lookup id s.nodes ≡ some out.1)
          ⊎ ((reply ≡ unreachable) × (direct_fallback s ≡ some out.1) × (id ≡ out.1.node_id)))

  checked_cases :
      (c : Result RouteFault (Unit {0})) (routed out : ExecutionPlan F × NodeEndpoint)
      → (c >> ok routed) ≡ ok out
      → routed ≡ out
  checked_cases (ok u) routed out f = cc
  checked_cases (err fault) routed out f = cc

  serve_route-eq-ok :
      (now : F) (model_id : Str) (models : Option (List Str)) (g : Gateway F)
      (r : Result RouteFault (ExecutionPlan F × NodeEndpoint)) {g2 : Gateway F}
      {out : ExecutionPlan F × NodeEndpoint}
      → serve_route now model_id models g r ≡ (g2, ok out)
      → r ≡ ok out
  unfolding serve_route
  serve_route-eq-ok now model_id models g (err fault) e = absurd (let f = ap (λ x. x.1) e in cc)
  serve_route-eq-ok now model_id models g (ok routed) {g2} {out} e =
      ap (λ x. ok x)
        (checked_cases
          (assert_serves now routed.1.backend_url model_id models
            (backend_for routed.1.backend_url routed.1.backend g)).1
          routed out (ap (λ x. x.1) e))

  plan_in-ne-none : (body : Option (ExecutionPlan F)) → plan_in body ≢ ok none
  plan_in-ne-none none e = cc
  plan_in-ne-none (some p) e = cc

  schedule-none : (reply : ScheduleReply F) → schedule reply ≡ ok none → reply ≡ unreachable
  unfolding schedule
  schedule-none unreachable e = refl
  schedule-none (answered status body) e = elim (Bool-cases (nat_beq status 404)) [
    | inl missing ↦ absurd (let f = rw missing at e in cc)
    | inr known ↦ elim (Bool-cases (nat_beq status 500)) [
      | inl failed ↦ absurd (let f = rw (known, failed) at e in cc)
      | inr other ↦ elim (Bool-cases (leb 400 status)) [
        | inl refused ↦ absurd (let f = rw (known, other, refused) at e in cc)
        | inr fine ↦ absurd (plan_in-ne-none body (rw (known, other, fine) at e))
      ]
    ]
  ]

  route-IsRouted :
      (plan_id model_id : Str) (ctx : ℤ) (reply : ScheduleReply F) (plan : Option (ExecutionPlan F))
      {out : ExecutionPlan F × NodeEndpoint}
      → schedule reply ≡ ok plan
      → route s plan_id model_id ctx plan ≡ ok out
      → IsRouted reply out
  unfolding route
  route-IsRouted plan_id model_id ctx reply none {out} given e =
      let (ep, found, made) = >>=-eq-ok (or_fault no_fallback (direct_fallback s)) _ e in
      let same : (dev_plan plan_id model_id ctx ep, ep) ≡ out = (cc made) in
      subst (IsRouted reply) same (
        unfold dev_plan in
        (
          refl,
          ep.node_id,
          refl,
          inr (schedule-none reply given, or_fault-eq-ok no_fallback _ found, refl),
        ))
  route-IsRouted plan_id model_id ctx reply (some p) {out} given e =
      let (ep, found, made) = >>=-eq-ok (endpoint_of_chain s p.strategy p.peer_chain) _ e in
      let same : (p, ep) ≡ out = (cc made) in
      let (is_single, id, chain, known) = endpoint_of_chain-eq-ok s p.strategy p.peer_chain found in
      subst (IsRouted reply) same (is_single, id, chain, inl known)

  -- A request that is served runs a plan for a single node, at that node's endpoint: the one of the
  -- settings, or the fallback's, and that only when the control plane cannot be reached.
  pub resolve_backend-IsRouted :
      (now : F) (plan_id model_id : Str) (ctx : ℤ) (reply : ScheduleReply F)
      (models : Option (List Str)) (g : Gateway F) {g2 : Gateway F}
      {out : ExecutionPlan F × NodeEndpoint}
      → resolve_backend s now plan_id model_id ctx reply models g ≡ (g2, ok out)
      → IsRouted reply out
  unfolding resolve_backend
  resolve_backend-IsRouted now plan_id model_id ctx reply models g e =
      let (plan, given, routed) =
        >>=-eq-ok (schedule reply) (λ plan. route s plan_id model_id ctx plan)
          (serve_route-eq-ok now model_id models g _ e) in
      route-IsRouted plan_id model_id ctx reply plan given routed
