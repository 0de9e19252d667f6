-- ===== src/Gateway/Posting.antt =====
-- apps/gateway/meshcompute_gateway/app.py: a message to a native session, up to the request to the
-- backend, and the reply. What `resolve_backend` gives is an argument.
use mesh_compute.Prelude.Bytes.{codes, Str}
use mesh_compute.Prelude.Dict.{insert}
use mesh_compute.Prelude.{false, List, Result, ok, err, nat_eq, list_eq}
use mesh_compute.Gateway.Router.{RouteFault}
use mesh_compute.Gateway.Sessions.{
  Message, Session, Sessions, SessionFault, unavailable, append_event, session_messages,
  get_session,
}

-- What a request to the backend is made of: the session, its messages, and where it is routed to.
pub record Begun (F R : Type 0) : Type 0 where
  pub session : Session F
  pub messages : List Message
  pub routed : R

module _ {F R : Type 0} where
  -- The route, if there is one: the cancel event is there, and not set.
  abbrev pub routed_to :
      Str
      → Session F
      → List Message
      → Sessions F
      → Result RouteFault R
      → Sessions F × Result SessionFault (Begun F R)
  routed_to id session messages st (err e) = (st, err (unavailable e))
  routed_to id session messages st (ok r) = (
    record st { cancel_events = insert id false st.cancel_events },
    ok (record { session = session; messages = messages; routed = r }),
  )

  abbrev pub asked :
      Str
      → Session F
      → Result RouteFault R
      → Sessions F
      → Result SessionFault (List Message)
      → Sessions F × Result SessionFault (Begun F R)
  asked id session routed st (err e) = (st, err e)
  asked id session routed st (ok messages) = routed_to id session messages st routed

  abbrev pub noted :
      Str
      → Session F
      → Result RouteFault R
      → Sessions F
      → Result SessionFault (Sessions F)
      → Sessions F × Result SessionFault (Begun F R)
  noted id session routed st (err e) = (st, err e)
  noted id session routed st (ok st2) = asked id session routed st2 (session_messages id st2)

  abbrev pub opened :
      F
      → Str
      → Str
      → Message
      → Result RouteFault R
      → Sessions F
      → Result SessionFault (Session F)
      → Sessions F × Result SessionFault (Begun F R)
  opened now event_id id body routed st (err e) = (st, err e)
  opened now event_id id body routed st (ok session) =
      noted id session routed st (append_event now event_id session (codes "user_message") body st)

  -- `post_session_message` up to the request to the backend.
  unfoldable pub begin_message :
      F
      → Str
      → Str
      → Message
      → Result RouteFault R
      → Sessions F
      → Sessions F × Result SessionFault (Begun F R)
  begin_message now event_id id body routed st =
      opened now event_id id body routed st (get_session id st)

module _ {F : Type 0} where
  -- The reply of the backend, at the end of the stream or as a whole.
  unfoldable pub record_reply :
      F → Str → Session F → Str → Sessions F → Result SessionFault (Sessions F)
  record_reply now event_id session content st =
      append_event now event_id session (codes "assistant_message")
        (record { role = codes "assistant"; content = content }) st
