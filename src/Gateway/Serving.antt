-- ===== src/Gateway/Serving.antt =====
-- What the backend that serves a request reports: `_assert_serves`.
use mesh_compute.Prelude.{
  ◌≡◌, ◌⊎◌, inl, inr, refl, sym, ◌∙◌, ap, subst, true, false, Option, none, some, List, [],
  Bool-cases, Result, ok, err, ◌>>◌, ◌==◌, nat_eq, list_eq, contains, beq→eq,
}
use mesh_compute.Prelude.Dict.{lookup, lookup-insert_self}
use mesh_compute.Prelude.Int.{ℤ}
use mesh_compute.Prelude.Bytes.{Str}
use mesh_compute.Scheduler.Plan.{ExecutionPlan}
use mesh_compute.Python.{Floats}
use mesh_compute.Gateway.Router.{
  Gateway, NodeEndpoint, RouteFault, ScheduleReply, Settings, strip_slashes, judge_models,
  judge_cached, ask_models, is_outdated, assert_serves, backend_for, serve_route, resolve_backend,
}

-- The list of models, which is empty when the backend does not tell, names the model.
abbrev pub Names : Str → List Str → Type 0
Names model_id models = (models ≡ []) ⊎ (contains model_id models ≡ true)

judge_models-Names :
    (model_id : Str) (models : List Str) {u : Unit {0}}
    → judge_models model_id models ≡ ok u
    → Names model_id models
unfolding judge_models
judge_models-Names model_id models e = elim (Bool-cases (models == [])) [
  | inl is_nil ↦ inl (beq→eq models [] is_nil)
  | inr other ↦ elim (Bool-cases (contains model_id models)) [
    | inl found ↦ inr found
    | inr missing ↦ absurd (let f = rw (other, missing) at e in cc)
  ]
]

>>-eq-ok :
    {A : Type 0} (c : Result RouteFault (Unit {0})) (a : A) {b : A}
    → (c >> ok a) ≡ ok b
    → (c ≡ ok tt) × (a ≡ b)
>>-eq-ok (ok u) a e = (refl, cc)
>>-eq-ok (err fault) a e = absurd cc

module _ {F : Type 0} ⦃fl : Floats F⦄ where
  -- The list that the cache holds for the backend names the model, or the list was out of date
  -- and the backend could not be asked.
  abbrev pub IsServing : F → Str → Str → Option (List Str) → Gateway F → Gateway F → Type 0
  IsServing now url model_id models g g2 =
      ((models ≡ none) × (is_outdated now (lookup (strip_slashes url) g.models_cache) ≡ true))
      ⊎ ((c : F × List Str) × (lookup (strip_slashes url) g2.models_cache ≡ some c)
          × Names model_id c.1)

  judge_cached-Names :
      (now : F) (model_id : Str) (o : Option (F × List Str)) {u : Unit {0}}
      → is_outdated now o ≡ false
      → judge_cached model_id o ≡ ok u
      → (c : F × List Str) × (o ≡ some c) × Names model_id c.1
  unfolding judge_cached is_outdated
  judge_cached-Names now model_id none fresh e = cc
  judge_cached-Names now model_id (some c) fresh e = (c, refl, judge_models-Names model_id c.1 e)

  ask_models-IsServing :
      (now : F) (url model_id : Str) (models : Option (List Str)) (g : Gateway F) {g2 : Gateway F}
      {u : Unit {0}}
      → is_outdated now (lookup (strip_slashes url) g.models_cache) ≡ true
      → ask_models now (strip_slashes url) model_id models g ≡ (g2, ok u)
      → IsServing now url model_id models g g2
  unfolding ask_models
  ask_models-IsServing now url model_id none g old e = inl (refl, old)
  ask_models-IsServing now url model_id (some list) g {g2} old e = inr (
    (now, list),
    sym (ap (λ x. lookup (strip_slashes url) x.0.models_cache) e)
        ∙ lookup-insert_self (strip_slashes url) (now, list) g.models_cache,
    judge_models-Names model_id list (ap (λ x. x.1) e),
  )

  assert_serves-IsServing :
      (now : F) (url model_id : Str) (models : Option (List Str)) (g : Gateway F) {g2 : Gateway F}
      {u : Unit {0}}
      → assert_serves now url model_id models g ≡ (g2, ok u)
      → IsServing now url model_id models g g2
  unfolding assert_serves
  assert_serves-IsServing now url model_id models g {g2} e =
      elim (Bool-cases (is_outdated now (lookup (strip_slashes url) g.models_cache))) [
        | inl old ↦ ask_models-IsServing now url model_id models g old (rw old at e)
        | inr fresh ↦
            let f = rw fresh at e in
            let (c, held, named) = judge_cached-Names now model_id _ fresh (ap (λ x. x.1) f) in
            inr (c, sym (ap (λ x. lookup (strip_slashes url) x.0.models_cache) f) ∙ held, named)
      ]

  serve_route-IsServing :
      (now : F) (model_id : Str) (models : Option (List Str)) (g : Gateway F)
      (r : Result RouteFault (ExecutionPlan F × NodeEndpoint)) {g2 : Gateway F}
      {out : ExecutionPlan F × NodeEndpoint}
      → serve_route now model_id models g r ≡ (g2, ok out)
      → IsServing now out.1.backend_url model_id models g g2
  unfolding serve_route backend_for
  serve_route-IsServing now model_id models g (err fault) e = absurd (let f = ap (λ x. x.1) e in cc)
  serve_route-IsServing now model_id models g (ok routed) {g2} {out} e =
      let known = backend_for routed.1.backend_url routed.1.backend g in
      let run = assert_serves now routed.1.backend_url model_id models known in
      let (passed, same) = >>-eq-ok run.1 routed (ap (λ x. x.1) e) in
      let f : run ≡ (g2, ok tt) = λ i. ((ap (λ x. x.0) e) i, passed i) in
      subst (λ o. IsServing now o.1.backend_url model_id models g g2) same
        (assert_serves-IsServing now routed.1.backend_url model_id models known f)

  -- A request that is served has a backend that was found to serve the model: the list that the
  -- cache then holds under its URL is empty or names the model. The one exception is a list that
  -- was out of date, or not there, when the backend could not be asked.
  pub resolve_backend-IsServing :
      (s : Settings) (now : F) (plan_id model_id : Str) (ctx : ℤ) (reply : ScheduleReply F)
      (models : Option (List Str)) (g : Gateway F) {g2 : Gateway F}
      {out : ExecutionPlan F × NodeEndpoint}
      → resolve_backend s now plan_id model_id ctx reply models g ≡ (g2, ok out)
      → IsServing now out.1.backend_url model_id models g g2
  unfolding resolve_backend
  resolve_backend-IsServing s now plan_id model_id ctx reply models g e =
      serve_route-IsServing now model_id models g _ e
