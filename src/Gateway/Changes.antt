-- ===== src/Gateway/Changes.antt =====
-- What the native sessions keep through any requests.
use mesh_compute.Python.{Floats}
use mesh_compute.Prelude.Bytes.{Str}
use mesh_compute.Prelude.Dict.{insert}
use mesh_compute.Prelude.{◌≡◌, refl, subst, true, arith, Result, ok, >>=-eq-ok, nat_eq, list_eq}
use mesh_compute.Gateway.Router.{RouteFault}
use mesh_compute.Gateway.Sessions.{
  CreateSessionRequest, Message, Session, Sessions, forget_session, get_session, delete_session,
  cancel_session, create_session, no_sessions,
}
use mesh_compute.Gateway.Posting.{begin_message, record_reply}
use mesh_compute.Gateway.Kept.{
  IsKept, IsKept-logs, append_event-IsKept, forget_session-IsKept, create_session-IsKept,
  opened-IsKept,
}

-- What can happen to the sessions; a request that fails without a change is no step.
module _ {F : Type 0} ⦃fl : Floats F⦄ where
  pub data Change (st : Sessions F) : Sessions F → Type 1 where
    created :
        (now : F) (id : Str) (body : CreateSessionRequest)
        → Change st (create_session now id body st).0
    deleted : (id : Str) {st2 : Sessions F} → delete_session id st ≡ ok st2 → Change st st2
    cancelled : (id : Str) {st2 : Sessions F} → cancel_session id st ≡ ok st2 → Change st st2
    posted :
        {R : Type 0} (now : F) (event_id id : Str) (body : Message) (routed : Result RouteFault R)
        → Change st (begin_message now event_id id body routed st).0
    replied :
        (now : F) (event_id : Str) (session : Session F) (content : Str) {st2 : Sessions F}
        → record_reply now event_id session content st ≡ ok st2
        → Change st st2

  pub data Changes (st : Sessions F) : Sessions F → Type 1 where
    unchanged : Changes st st
    then_change : {st2 st3 : Sessions F} → Changes st st2 → Change st2 st3 → Changes st st3

  Change-IsKept : {st st2 : Sessions F} → Change st st2 → IsKept st → IsKept st2
  unfolding delete_session cancel_session begin_message record_reply
  Change-IsKept {st} (created now id body) k = create_session-IsKept now id body st k
  Change-IsKept {st} {st2} (deleted id h) k =
      let (session, there, e) = >>=-eq-ok (get_session id st) _ h in
      subst IsKept {x = forget_session id st} {y = st2} (cc e) (forget_session-IsKept id st k)
  Change-IsKept {st} {st2} (cancelled id h) k =
      let (session, there, e) = >>=-eq-ok (get_session id st) _ h in
      subst IsKept {x = record st { cancel_events = insert id true st.cancel_events }} {y = st2}
        (cc e) (IsKept-logs st st.events (insert id true st.cancel_events) refl k)
  Change-IsKept {st} (posted now event_id id body routed) k =
      opened-IsKept now event_id id body routed st (get_session id st) k
  Change-IsKept {st} (replied now event_id session content h) k =
      append_event-IsKept now event_id session _ _ st h k

  -- Whatever requests come, from the start on: every session has its log and every log its session,
  -- in the same order and under the session's own id, no id is there twice, and there are at most
  -- 500 sessions.
  pub Changes-IsKept : {st : Sessions F} → Changes no_sessions st → IsKept st
  Changes-IsKept unchanged = (refl, omega arith, tt, tt)
  Changes-IsKept (then_change cs c) = Change-IsKept c (Changes-IsKept cs)
