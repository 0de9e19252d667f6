-- ===== src/Gateway/Sessions.antt =====
-- apps/gateway/meshcompute_gateway/app.py: the native sessions, kept in memory. The clock and the
-- fresh ids are arguments, and so is what `resolve_backend` gives. An operation that fails after a
-- change gives the changed state with its fault.
use mesh_compute.Python.{Floats}
use mesh_compute.Prelude.Bytes.{codes, Str}
use mesh_compute.Prelude.Dict.{Dict, lookup, insert, erase}
use mesh_compute.Prelude.{
  ℕ, zero, suc, ◌-◌, Bool, true, Option, none, some, List, [], ◌∷◌, ◌++◌, map, filter,
  if◌then◌else◌, leb, length, drop, Result, ok, err, ◌>>=◌, ◌==◌, nat_eq, list_eq,
}
use mesh_compute.Gateway.Router.{RouteFault}

pub record CreateSessionRequest : Type 0 where
  pub model_id : Str
  pub harness_id : Str
  pub pool_id : Str
  pub tools : List Str
  pub memory_mode : Str

-- A message of the chat: of a request, and the payload of an event.
pub record Message : Type 0 where
  pub role : Str
  pub content : Str

pub record Session (F : Type 0) : Type 0 where
  pub session_id : Str
  pub model_id : Str
  pub harness_id : Str
  pub pool_id : Str
  pub tools : List Str
  pub memory_mode : Str
  pub created_at : F
  pub status : Str

pub record Event (F : Type 0) : Type 0 where
  pub event_id : Str
  pub session_id : Str
  pub timestamp : F
  pub harness_id : Str
  pub model_id : Str
  pub content_type : Str
  pub payload : Message

-- `_sessions`, `_events` and `_cancel_events`: whether each event is set.
pub record Sessions (F : Type 0) : Type 0 where
  pub sessions : Dict Str (Session F)
  pub events : Dict Str (List (Event F))
  pub cancel_events : Dict Str Bool

-- An HTTPException, or the KeyError of `_events[...]`.
pub data SessionFault : Type 0 where
  session_not_found key_error backend_error : SessionFault
  unavailable : RouteFault → SessionFault

abbrev pub max_sessions : ℕ
max_sessions = 500

-- `s.endswith(suffix)`
unfoldable pub ends_with : Str → Str → Bool
ends_with suffix s = drop (length s - length suffix) s == suffix

module _ {F : Type 0} where
  abbrev pub no_sessions : Sessions F
  no_sessions = record { sessions = []; events = []; cancel_events = [] }

  abbrev pub new_event : F → Str → Session F → Str → Message → Event F
  new_event now event_id session content_type payload = record {
    event_id = event_id;
    session_id = session.session_id;
    timestamp = now;
    harness_id = session.harness_id;
    model_id = session.model_id;
    content_type = content_type;
    payload = payload;
  }

  abbrev pub push :
      Str → Event F → Sessions F → Option (List (Event F)) → Result SessionFault (Sessions F)
  push id event st none = err key_error
  push id event st (some log) = ok (record st { events = insert id (log ++ event ∷ []) st.events })

  unfoldable pub append_event :
      F → Str → Session F → Str → Message → Sessions F → Result SessionFault (Sessions F)
  append_event now event_id session content_type payload st =
      push session.session_id (new_event now event_id session content_type payload) st
        (lookup session.session_id st.events)

  abbrev pub is_message : Event F → Bool
  is_message event = ends_with (codes "_message") event.content_type

  -- The messages of a log.
  abbrev pub messages_of : List (Event F) → List Message
  messages_of log = map (λ event. event.payload) (filter is_message log)

  abbrev pub messages_in : Option (List (Event F)) → Result SessionFault (List Message)
  messages_in none = err key_error
  messages_in (some log) = ok (messages_of log)

  unfoldable pub session_messages : Str → Sessions F → Result SessionFault (List Message)
  session_messages id st = messages_in (lookup id st.events)

  unfoldable pub forget_session : Str → Sessions F → Sessions F
  forget_session id st = record {
    sessions = erase id st.sessions;
    events = erase id st.events;
    cancel_events = erase id st.cancel_events;
  }

  abbrev pub found : Option (Session F) → Result SessionFault (Session F)
  found none = err session_not_found
  found (some session) = ok session

  -- `_get_session_or_404`
  unfoldable pub get_session : Str → Sessions F → Result SessionFault (Session F)
  get_session id st = found (lookup id st.sessions)

  unfoldable pub delete_session : Str → Sessions F → Result SessionFault (Sessions F)
  delete_session id st = do session ← get_session id st; ok (forget_session id st)

  unfoldable pub cancel_session : Str → Sessions F → Result SessionFault (Sessions F)
  cancel_session id st = do
    session ← get_session id st
    ok (record st { cancel_events = insert id true st.cancel_events })

  abbrev pub log_in : Option (List (Event F)) → Result SessionFault (List (Event F))
  log_in none = err key_error
  log_in (some log) = ok log

  unfoldable pub get_session_events : Str → Sessions F → Result SessionFault (List (Event F))
  get_session_events id st = do session ← get_session id st; log_in (lookup id st.events)

module _ {F : Type 0} ⦃fl : Floats F⦄ where
  -- `min(_sessions, key=...)`: the first of those that were created first.
  unfoldable pub oldest_from : Str → F → Dict Str (Session F) → Str
  oldest_from id created [] = id
  oldest_from id created ((other, session) ∷ d) =
      if fl.lt session.created_at created
      then oldest_from other session.created_at d
      else oldest_from id created d

  abbrev pub forget_oldest : Dict Str (Session F) → Sessions F → Sessions F
  forget_oldest [] st = st
  forget_oldest ((id, session) ∷ d) st = forget_session (oldest_from id session.created_at d) st

  -- Every round forgets a session, so their number is fuel enough.
  unfoldable pub evict : ℕ → Sessions F → Sessions F
  evict zero st = st
  evict (suc fuel) st =
      let rest = evict fuel (forget_oldest st.sessions st) in
      if leb max_sessions (length st.sessions) then rest else st

  abbrev pub new_session : F → Str → CreateSessionRequest → Session F
  new_session now id body = record {
    session_id = id;
    model_id = body.model_id;
    harness_id = body.harness_id;
    pool_id = body.pool_id;
    tools = body.tools;
    memory_mode = body.memory_mode;
    created_at = now;
    status = codes "active";
  }

  unfoldable pub create_session :
      F → Str → CreateSessionRequest → Sessions F → Sessions F × Session F
  create_session now id body st =
      let room = evict (length st.sessions) st in
      let session = new_session now id body in
      (
        record room {
          sessions = insert id session room.sessions;
          events = insert id [] room.events;
        },
        session,
      )
