-- ===== src/Gateway/Kept.antt =====
-- What the native sessions keep through each operation.
use mesh_compute.Python.{Floats}
use mesh_compute.Prelude.Bytes.{codes, Str}
use mesh_compute.Prelude.Dict.{Dict, lookup, is_some, insert, erase}
use mesh_compute.Prelude.Keys.{
  IsDistinct, keys, add_key, remove_key, add_key_present, IsDistinct-add_key, IsDistinct-remove_key,
  length-add_key, length-remove_key, length-keys, keys-insert, keys-erase, has_key-keys, All-insert,
  All-erase,
}
use mesh_compute.Prelude.{
  ℕ, zero, suc, ◌-◌, ◌≤◌, ◌<◌, ◌≡◌, refl, sym, ap, subst, ◌∙◌, inl, inr, Bool, Bool-cases, true,
  false, Option, none, some, List, [], ◌∷◌, ◌++◌, All, arith, leb, length, Result, ok, err, nat_eq,
  list_eq, contains, beq→eq, beq_self,
}
use mesh_compute.Gateway.Router.{RouteFault}
use mesh_compute.Gateway.Sessions.{
  CreateSessionRequest, Message, Session, Event, Sessions, max_sessions, push, append_event,
  forget_session, oldest_from, forget_oldest, evict, new_session, create_session, SessionFault,
  session_messages,
}
use mesh_compute.Gateway.Posting.{opened, noted, asked, routed_to}

-- Every session has its log and every log its session, under the session's id; no id twice; and
-- there are at most 500.
abbrev pub IsKept : {F : Type 0} → Sessions F → Type 0
IsKept st =
    (keys st.sessions ≡ keys st.events)
    × (length st.sessions ≤ max_sessions)
    × All (λ x. x.1.session_id ≡ x.0) st.sessions
    × IsDistinct (keys st.sessions)

length-erase : {V : Type 0} (k : Str) (d : Dict Str V) → length (erase k d) ≤ length d
length-erase k [] = omega arith
length-erase k ((j, v) ∷ d) = ground (arith, length-erase k d)

module _ {F : Type 0} where
  -- Other logs of the same ids, and any cancel events.
  pub IsKept-logs :
      (st : Sessions F) (logs : Dict Str (List (Event F))) (cancels : Dict Str Bool)
      → keys logs ≡ keys st.events
      → IsKept st
      → IsKept (record { sessions = st.sessions; events = logs; cancel_events = cancels })
  IsKept-logs st logs cancels same (matched, bounded, named, distinct) =
      (matched ∙ sym same, bounded, named, distinct)

  push-IsKept :
      (id : Str) (event : Event F) (st : Sessions F) (log : Option (List (Event F)))
      {st2 : Sessions F}
      → lookup id st.events ≡ log
      → push id event st log ≡ ok st2
      → IsKept st
      → IsKept st2
  push-IsKept id event st none there h k = absurd cc
  push-IsKept id event st (some log) {st2} there h k =
      let present : contains id (keys st.events) ≡ true =
        sym (has_key-keys id st.events) ∙ ap is_some there in
      subst IsKept {x = record st { events = insert id (log ++ event ∷ []) st.events }} {y = st2}
        (cc h)
        (IsKept-logs st (insert id (log ++ event ∷ []) st.events) st.cancel_events
          (keys-insert id (log ++ event ∷ []) st.events
            ∙ add_key_present id (keys st.events) present)
          k)

  pub append_event-IsKept :
      (now : F) (event_id : Str) (session : Session F) (content_type : Str) (payload : Message)
      (st : Sessions F) {st2 : Sessions F}
      → append_event now event_id session content_type payload st ≡ ok st2
      → IsKept st
      → IsKept st2
  unfolding append_event
  append_event-IsKept now event_id session content_type payload st h k =
      push-IsKept session.session_id _ st (lookup session.session_id st.events) refl h k

  pub forget_session-IsKept :
      (id : Str) (st : Sessions F) → IsKept st → IsKept (forget_session id st)
  unfolding forget_session
  forget_session-IsKept id st (matched, bounded, named, distinct) = (
    keys-erase id st.sessions ∙ ap (remove_key id) matched ∙ sym (keys-erase id st.events),
    omega (arith, length-erase id st.sessions, bounded),
    All-erase (λ x. x.1.session_id ≡ x.0) id st.sessions named,
    subst IsDistinct (sym (keys-erase id st.sessions))
        (IsDistinct-remove_key id (keys st.sessions) distinct),
  )

module _ {F : Type 0} ⦃fl : Floats F⦄ where
  oldest_from-contains :
      (id : Str) (created : F) (d : Dict Str (Session F))
      → contains (oldest_from id created d) (id ∷ keys d) ≡ true
  unfolding oldest_from
  oldest_from-contains id created [] = rw (beq_self id) refl
  oldest_from-contains id created ((other, session) ∷ d) =
      ground
        (arith, oldest_from-contains other session.created_at d, oldest_from-contains id created d)

  -- One session fewer, where there is one.
  forget_oldest_lem :
      (d : Dict Str (Session F)) (st : Sessions F)
      → st.sessions ≡ d
      → IsKept st
      → IsKept (forget_oldest d st)
        × (length (forget_oldest d st).sessions ≡ length st.sessions - 1)
  unfolding forget_session
  forget_oldest_lem [] st e k = (k, rw e refl)
  forget_oldest_lem ((id, session) ∷ d) st e k =
      let old = oldest_from id session.created_at d in
      let present : contains old (keys st.sessions) ≡ true =
        ap (λ s. contains old (keys s)) e ∙ oldest_from-contains id session.created_at d in
      (
        forget_session-IsKept old st k,
        omega (
          arith,
          length-keys (erase old st.sessions),
          length-keys st.sessions,
          ap length (keys-erase old st.sessions),
          length-remove_key old (keys st.sessions) present,
        ),
      )

  evict_lem :
      (fuel : ℕ) (st : Sessions F)
      → length st.sessions ≤ fuel
      → IsKept st
      → IsKept (evict fuel st) × (length (evict fuel st).sessions < max_sessions)
  unfolding evict
  evict_lem zero st enough k = (k, omega arith)
  evict_lem (suc fuel) st enough k = elim (Bool-cases (leb max_sessions (length st.sessions))) [
    | inl full ↦
        let (kept, fewer) = forget_oldest_lem st.sessions st refl k in
        let many : max_sessions ≤ length st.sessions = ground arith in
        rw full
          (evict_lem fuel (forget_oldest st.sessions st) (omega (arith, fewer, enough, many)) kept)
    | inr room ↦ rw room (k, ground arith)
  ]

  pub create_session-IsKept :
      (now : F) (id : Str) (body : CreateSessionRequest) (st : Sessions F)
      → IsKept st
      → IsKept (create_session now id body st).0
  unfolding create_session
  create_session-IsKept now id body st k =
      let room = evict (length st.sessions) st in
      let session = new_session now id body in
      let ((matched, bounded, named, distinct), small) =
        evict_lem (length st.sessions) st (omega arith) k in
      (
        keys-insert id session room.sessions
            ∙ ap (add_key id) matched
            ∙ sym (keys-insert id [] room.events),
        omega (
          arith,
          small,
          length-keys (insert id session room.sessions),
          length-keys room.sessions,
          ap length (keys-insert id session room.sessions),
          length-add_key id (keys room.sessions),
        ),
        All-insert (λ x. x.1.session_id ≡ x.0) id session room.sessions (λ j same. beq→eq id j same)
            named,
        subst IsDistinct (sym (keys-insert id session room.sessions))
            (IsDistinct-add_key id (keys room.sessions) distinct),
      )

module _ {F R : Type 0} where
  routed_to-IsKept :
      (id : Str) (session : Session F) (messages : List Message) (st : Sessions F)
      (routed : Result RouteFault R)
      → IsKept st
      → IsKept (routed_to id session messages st routed).0
  routed_to-IsKept id session messages st (err e) k = k
  routed_to-IsKept id session messages st (ok r) k =
      IsKept-logs st st.events (insert id false st.cancel_events) refl k

  asked-IsKept :
      (id : Str) (session : Session F) (routed : Result RouteFault R) (st : Sessions F)
      (messages : Result SessionFault (List Message))
      → IsKept st
      → IsKept (asked id session routed st messages).0
  asked-IsKept id session routed st (err e) k = k
  asked-IsKept id session routed st (ok messages) k =
      routed_to-IsKept id session messages st routed k

  noted-IsKept :
      (id : Str) (session : Session F) (routed : Result RouteFault R) (st : Sessions F)
      (appended : Result SessionFault (Sessions F))
      → ((st2 : Sessions F) → appended ≡ ok st2 → IsKept st2)
      → IsKept st
      → IsKept (noted id session routed st appended).0
  noted-IsKept id session routed st (err e) h k = k
  noted-IsKept id session routed st (ok st2) h k =
      asked-IsKept id session routed st2 (session_messages id st2) (h st2 refl)

  pub opened-IsKept :
      (now : F) (event_id id : Str) (body : Message) (routed : Result RouteFault R)
      (st : Sessions F) (session : Result SessionFault (Session F))
      → IsKept st
      → IsKept (opened now event_id id body routed st session).0
  opened-IsKept now event_id id body routed st (err e) k = k
  opened-IsKept now event_id id body routed st (ok session) k =
      noted-IsKept id session routed st
        (append_event now event_id session (codes "user_message") body st)
        (λ st2 h. append_event-IsKept now event_id session (codes "user_message") body st h k) k
