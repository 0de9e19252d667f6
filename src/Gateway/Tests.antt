-- ===== src/Gateway/Tests.antt =====
-- A plan for the node "a", and a control plane that answers with 500.
use mesh_compute.Gateway.Sessions.{
  CreateSessionRequest, Message, Sessions, no_sessions, new_session, create_session, evict,
  get_session, delete_session, forget_session, append_event, session_messages, ends_with, key_error,
}
use mesh_compute.Gateway.Posting.{begin_message, record_reply}
use mesh_compute.Gateway.Kept.{IsKept}
use mesh_compute.Gateway.Changes.{Changes, unchanged, then_change, created, posted, Changes-IsKept}
use mesh_compute.Gateway.Conversation.{IsAsked, begin_message-IsAsked, record_reply-key_error}
use mesh_compute.Gateway.Relaying.{TokenChunk}
use mesh_compute.Gateway.Serving.{resolve_backend-IsServing, IsServing}
use mesh_compute.Prelude.{
  none, List, err, drop, ℕ, ◌≡◌, refl, some, [], ◌∷◌, ok, nat_eq, list_eq, list_beq,
}
use mesh_compute.Prelude.Int.{pos}
use mesh_compute.Scheduler.Node.{single}
use mesh_compute.Gateway.Routing.{resolve_backend-IsRouted, IsRouted}
use mesh_compute.Scheduler.Plan.{ExecutionPlan}
use mesh_compute.Prelude.Bytes.{codes}
use mesh_compute.Sample.{nat_floats}
use mesh_compute.Gateway.Router.{
  strip_slashes, backend_for, is_outdated, judge_cached, judge_models, ask_models, assert_serves,
  endpoint_of_chain, route, schedule, serve_route, answered, Gateway, resolve_backend, NodeEndpoint,
  Settings,
}

abbrev endpoint : NodeEndpoint
endpoint = record { node_id = codes "a"; backend_url = codes "http://a/"; backend = codes "llama" }

abbrev settings : Settings
settings = record { direct_backend_url = []; nodes = (codes "a", endpoint) ∷ [] }

abbrev plan : ExecutionPlan ℕ
plan = record {
  plan_id = codes "p";
  model_manifest_hash = codes "h";
  model_id = codes "m";
  strategy = single;
  peer_chain = codes "a" ∷ [];
  shard_assignment = [];
  context_length = pos 100;
  predicted_ttft_s = 1;
  predicted_decode_tps = 9;
  rejected_alternatives = [];
}

abbrev empty : Gateway ℕ
empty = record { backend_cache = []; models_cache = [] }

abbrev full : Gateway ℕ
full = record {
  backend_cache = (codes "http://a", codes "llama") ∷ [];
  models_cache = (codes "http://a", (5, codes "m" ∷ [])) ∷ [];
}

program : Unit {0}
unfolding resolve_backend serve_route schedule route endpoint_of_chain assert_serves ask_models
    judge_models judge_cached is_outdated backend_for strip_slashes list_beq
program = tt

resolve_backend-plan :
    resolve_backend settings 5
      (codes "d")
      (codes "m")
      (pos 100)
      (answered 200 (some plan))
      (some (codes "m" ∷ []))
      empty
    ≡ (full, ok (plan, endpoint))
unfolding program
resolve_backend-plan = refl

resolve_backend-IsRouted_example : IsRouted settings (answered 200 (some plan)) (plan, endpoint)
resolve_backend-IsRouted_example =
    resolve_backend-IsRouted settings 5 (codes "d") (codes "m") (pos 100) (answered 200 (some plan))
      (some (codes "m" ∷ [])) empty resolve_backend-plan

resolve_backend-IsServing_example :
    IsServing 5 (codes "http://a/") (codes "m") (some (codes "m" ∷ [])) empty full
resolve_backend-IsServing_example =
    resolve_backend-IsServing settings 5 (codes "d") (codes "m") (pos 100)
      (answered 200 (some plan)) (some (codes "m" ∷ [])) empty resolve_backend-plan

abbrev asked_for : CreateSessionRequest
asked_for = record {
  model_id = codes "m";
  harness_id = codes "native";
  pool_id = codes "public";
  tools = [];
  memory_mode = codes "session";
}

abbrev hello : Message
hello = record { role = codes "user"; content = codes "hello" }

-- One session, before and after a post.
abbrev begun : Sessions ℕ
begun = (create_session 1 (codes "s1") asked_for no_sessions).0

abbrev after_post : Sessions ℕ
after_post = (begin_message {R = Unit {0}} 2 (codes "e1") (codes "s1") hello (ok tt) begun).0

begun-Changes : Changes no_sessions begun
begun-Changes = then_change unchanged (created 1 (codes "s1") asked_for)

after_post-Changes : Changes no_sessions after_post
after_post-Changes = then_change begun-Changes (posted 2 (codes "e1") (codes "s1") hello (ok tt))

sessions_program : Unit {0}
unfolding create_session evict get_session delete_session forget_session begin_message append_event
    session_messages ends_with drop list_beq
sessions_program = tt

get_session-begun : get_session (codes "s1") begun ≡ ok (new_session 1 (codes "s1") asked_for)
unfolding sessions_program
get_session-begun = refl

get_session-after_post :
    get_session (codes "s1") after_post ≡ ok (new_session 1 (codes "s1") asked_for)
unfolding sessions_program
get_session-after_post = refl

delete_session-after_post :
    delete_session (codes "s1") after_post ≡ ok (forget_session (codes "s1") after_post)
unfolding sessions_program
delete_session-after_post = refl

Changes-IsKept_example : IsKept after_post
Changes-IsKept_example = Changes-IsKept after_post-Changes

begin_message-IsAsked_example :
    (old : List Message) × (session_messages (codes "s1") begun ≡ ok old)
    × IsAsked {R = Unit {0}}
        (codes "s1")
        hello
        begun
        old
        after_post
        (begin_message {R = Unit {0}} 2 (codes "e1") (codes "s1") hello (ok tt) begun).1
begin_message-IsAsked_example =
    begin_message-IsAsked 2 (codes "e1") (codes "s1") hello (ok tt) begun
      (Changes-IsKept begun-Changes) get_session-begun

record_reply-key_error_example :
    record_reply 3
      (codes "e2")
      (new_session 1 (codes "s1") asked_for)
      (codes "hi")
      (forget_session (codes "s1") after_post)
    ≡ err key_error
record_reply-key_error_example =
    record_reply-key_error 3 (codes "e2") (codes "s1") (codes "hi") after_post
      (Changes-IsKept after_post-Changes) get_session-after_post delete_session-after_post

abbrev first_chunk : TokenChunk ℕ
first_chunk = record { text = codes "he"; tool_call_delta = none; finish_reason = none }

abbrev last_chunk : TokenChunk ℕ
last_chunk = record {
  text = codes "y";
  tool_call_delta = some 4;
  finish_reason = some (codes "stop");
}
