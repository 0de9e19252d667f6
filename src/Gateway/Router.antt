-- ===== src/Gateway/Router.antt =====
-- `resolve_backend`: a plan from the control plane, or the fallback when it cannot be reached, and
-- the backend of the plan's node. What the network answers is given: `ScheduleReply` and `models`.
use mesh_compute.Prelude.{
  ℕ, Bool, true, not, ◌&&◌, Option, none, some, List, [], ◌∷◌, if◌then◌else◌, leb, nat_beq, Result,
  ok, err, ◌>>=◌, ◌>>◌, raise_if, ◌==◌, nat_eq, list_eq, contains,
}
use mesh_compute.Prelude.Int.{pos, ℤ}
use mesh_compute.Python.{Floats}
use mesh_compute.Prelude.Dict.{set_default, lookup, insert, Dict}
use mesh_compute.Prelude.Bytes.{codes, Str}
use mesh_compute.Scheduler.Node.{single, Strategy}
use mesh_compute.Scheduler.Plan.{ExecutionPlan}

pub record NodeEndpoint : Type 0 where
  pub node_id : Str
  pub backend_url : Str
  pub backend : Str

-- The two caches of the module: adapters by URL, and what a backend reported, with the time.
pub record Gateway (F : Type 0) : Type 0 where
  pub backend_cache : Dict Str Str
  pub models_cache : Dict Str (F × List Str)

-- `MESH_GW_DIRECT_BACKEND_URL`, empty when it is not set, and the file of endpoints.
pub record Settings : Type 0 where
  pub direct_backend_url : Str
  pub nodes : Dict Str NodeEndpoint

-- Why `SchedulerUnavailable` is raised; `invalid_plan` is the error of pydantic instead.
pub data RouteFault : Type 0 where
  unknown_model infeasible control_error no_fallback not_executable no_endpoint : RouteFault
  wrong_model invalid_plan : RouteFault

-- Its `status_code`; an error that is not caught is a 500.
unfoldable pub status_code : RouteFault → ℕ
status_code unknown_model = 404
status_code infeasible = 503
status_code control_error = 502
status_code no_fallback = 503
status_code not_executable = 501
status_code no_endpoint = 503
status_code wrong_model = 409
status_code invalid_plan = 500

-- The control plane's answer: its status, and the plan in the body, if there is one.
pub data ScheduleReply (F : Type 0) : Type 0 where
  unreachable : ScheduleReply F
  answered : ℕ → Option (ExecutionPlan F) → ScheduleReply F

-- `url.rstrip("/")`
unfoldable pub strip_slashes : Str → Str
strip_slashes [] = []
strip_slashes (c ∷ cs) =
    let rest = strip_slashes cs in if nat_beq c 47 && (rest == []) then [] else c ∷ rest

-- `len(nodes) == 1`
abbrev pub sole : Dict Str NodeEndpoint → Option NodeEndpoint
sole [] = none
sole ((id, ep) ∷ []) = some ep
sole (_ ∷ _ ∷ _) = none

-- `_direct_fallback`.
unfoldable pub direct_fallback : Settings → Option NodeEndpoint
direct_fallback s =
    if not (s.direct_backend_url == [])
    then some (record {
      node_id = codes "dev-direct";
      backend_url = s.direct_backend_url;
      backend = codes "lmstudio";
    })
    else sole s.nodes

abbrev pub or_fault : RouteFault → Option NodeEndpoint → Result RouteFault NodeEndpoint
or_fault fault none = err fault
or_fault fault (some ep) = ok ep

-- The endpoint of a plan that this gateway can execute: a single node.
unfoldable pub endpoint_of_chain : Settings → Strategy → List Str → Result RouteFault NodeEndpoint
endpoint_of_chain s single (id ∷ []) = or_fault no_endpoint (lookup id s.nodes)
endpoint_of_chain s _ _ = err not_executable

-- `models and model_id not in models`
unfoldable pub judge_models : Str → List Str → Result RouteFault (Unit {0})
judge_models model_id models =
    raise_if (not (models == []) && not (contains model_id models)) wrong_model

module _ {F : Type 0} where
  abbrev pub plan_in : Option (ExecutionPlan F) → Result RouteFault (Option (ExecutionPlan F))
  plan_in none = err invalid_plan
  plan_in (some p) = ok (some p)

  -- `_schedule_via_control_plane`: none when it cannot be reached.
  unfoldable pub schedule : ScheduleReply F → Result RouteFault (Option (ExecutionPlan F))
  schedule unreachable = ok none
  schedule (answered status body) =
      if nat_beq status 404
      then err unknown_model
      else if nat_beq status 500
      then err infeasible
      else if leb 400 status
      then err control_error
      else plan_in body

module _ {F : Type 0} ⦃fl : Floats F⦄ where
  -- `_backend_for`: the adapter's name by its URL.
  unfoldable pub backend_for : Str → Str → Gateway F → Gateway F
  backend_for url name g = record g {
    backend_cache = set_default (strip_slashes url) name g.backend_cache;
  }

  -- `cached is None or (now - cached[0]) > 60`
  unfoldable pub is_outdated : F → Option (F × List Str) → Bool
  is_outdated now none = true
  is_outdated now (some c) = fl.lt (fl.decimal (pos 60) 0) (fl.sub now c.0)

  -- What the cached entry says, when it is recent enough.
  unfoldable pub judge_cached : Str → Option (F × List Str) → Result RouteFault (Unit {0})
  judge_cached model_id none = ok tt
  judge_cached model_id (some c) = judge_models model_id c.1

  -- The backend is asked; an HTTP error, none, ends the check.
  unfoldable pub ask_models :
      F → Str → Str → Option (List Str) → Gateway F → Gateway F × Result RouteFault (Unit {0})
  ask_models now key model_id none g = (g, ok tt)
  ask_models now key model_id (some models) g = (
    record g { models_cache = insert key (now, models) g.models_cache },
    judge_models model_id models,
  )

  -- `_assert_serves`
  unfoldable pub assert_serves :
      F → Str → Str → Option (List Str) → Gateway F → Gateway F × Result RouteFault (Unit {0})
  assert_serves now url model_id models g =
      let key = strip_slashes url in
      if is_outdated now (lookup key g.models_cache)
      then ask_models now key model_id models g
      else (g, judge_cached model_id (lookup key g.models_cache))

  -- The plan that stands for the fallback; `plan_id` is the random one.
  unfoldable pub dev_plan : Str → Str → ℤ → NodeEndpoint → ExecutionPlan F
  dev_plan plan_id model_id ctx ep = record {
    plan_id = plan_id;
    model_manifest_hash = codes "dev-unsigned";
    model_id = model_id;
    strategy = single;
    peer_chain = ep.node_id ∷ [];
    shard_assignment = [];
    context_length = ctx;
    predicted_ttft_s = fl.decimal (pos 0) 0;
    predicted_decode_tps = fl.decimal (pos 0) 0;
    rejected_alternatives = [];
  }

  -- The plan and its endpoint, from what the control plane gave.
  unfoldable pub route :
      Settings
      → Str
      → Str
      → ℤ
      → Option (ExecutionPlan F)
      → Result RouteFault (ExecutionPlan F × NodeEndpoint)
  route s plan_id model_id ctx none =
      or_fault no_fallback (direct_fallback s) >>= λ ep. ok (dev_plan plan_id model_id ctx ep, ep)
  route s plan_id model_id ctx (some p) =
      endpoint_of_chain s p.strategy p.peer_chain >>= λ ep. ok (p, ep)

  abbrev pub answer_with :
      Gateway F × Result RouteFault (Unit {0})
      → ExecutionPlan F × NodeEndpoint
      → Gateway F × Result RouteFault (ExecutionPlan F × NodeEndpoint)
  answer_with (g, checked) routed = (g, checked >> ok routed)

  -- The backend of the endpoint is looked up, then asked what it serves.
  unfoldable pub serve_route :
      F
      → Str
      → Option (List Str)
      → Gateway F
      → Result RouteFault (ExecutionPlan F × NodeEndpoint)
      → Gateway F × Result RouteFault (ExecutionPlan F × NodeEndpoint)
  serve_route now model_id models g (err fault) = (g, err fault)
  serve_route now model_id models g (ok (p, ep)) =
      answer_with
        (assert_serves now ep.backend_url model_id models (backend_for ep.backend_url ep.backend g))
        (p, ep)

  unfoldable pub resolve_backend :
      Settings
      → F
      → Str
      → Str
      → ℤ
      → ScheduleReply F
      → Option (List Str)
      → Gateway F
      → Gateway F × Result RouteFault (ExecutionPlan F × NodeEndpoint)
  resolve_backend s now plan_id model_id ctx reply models g =
      serve_route now model_id models g
        (schedule reply >>= λ plan. route s plan_id model_id ctx plan)
