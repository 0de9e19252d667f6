-- ===== src/Gateway/Conversation.antt =====
-- What the backend is asked with: the whole conversation.
use mesh_compute.Prelude.Bytes.{codes, Str}
use mesh_compute.Prelude.Dict.{
  lookup, is_some, has_key, insert, erase, lookup-insert_self, lookup-Elem,
}
use mesh_compute.Prelude.Keys.{keys, has_key-keys, keys-erase, remove_key, contains-remove_key_self}
use mesh_compute.Prelude.{
  ◌≡◌, refl, sym, ap, subst, ◌∙◌, inl, inr, Option-cases, true, false, Option, none, some, List, [],
  ◌∷◌, ◌++◌, All-elem, arith, drop, Result, ok, err, nat_eq, list_eq, list_beq, contains,
}
use mesh_compute.Gateway.Router.{RouteFault}
use mesh_compute.Gateway.Sessions.{
  Message, Session, Event, Sessions, SessionFault, key_error, unavailable, push, append_event,
  new_event, is_message, messages_of, session_messages, found, get_session, ends_with,
  delete_session, forget_session,
}
use mesh_compute.Gateway.Posting.{Begun, begin_message, routed_to, record_reply}
use mesh_compute.Gateway.Kept.{IsKept}

is_some-eq-false : {V : Type 0} (o : Option V) → is_some o ≡ false → o ≡ none
is_some-eq-false none h = refl
is_some-eq-false (some v) h = cc

module _ {F : Type 0} where
  -- A message that is logged comes last.
  messages_of-append :
      (log : List (Event F)) (event : Event F)
      → is_message event ≡ true
      → messages_of (log ++ event ∷ []) ≡ messages_of log ++ event.payload ∷ []
  messages_of-append [] event h = rw h refl
  messages_of-append (e ∷ log) event h = ground (arith, messages_of-append log event h)

  user_is_message :
      (now : F) (event_id : Str) (session : Session F) (body : Message)
      → is_message (new_event now event_id session (codes "user_message") body) ≡ true
  unfolding ends_with drop list_beq
  user_is_message now event_id session body = refl

  -- What a post leaves of the log, and what it asks with.
  abbrev pub IsAsked :
      {R : Type 0}
      → Str
      → Message
      → Sessions F
      → List Message
      → Sessions F
      → Result SessionFault (Begun F R)
      → Type 0
  IsAsked id body st old st2 (ok begun) =
      (begun.messages ≡ old ++ body ∷ [])
      × (session_messages id st2 ≡ ok begun.messages)
      × (get_session id st ≡ ok begun.session)
  IsAsked id body st old st2 (err (unavailable e)) = session_messages id st2 ≡ ok (old ++ body ∷ [])
  IsAsked id body st old st2 (err _) = ⊥

  -- A session that is there has a log, under its own id.
  IsKept-log :
      (id : Str) (st : Sessions F) (session : Session F)
      → IsKept st
      → lookup id st.sessions ≡ some session
      → (log : List (Event F)) × (lookup id st.events ≡ some log) × (session.session_id ≡ id)
  IsKept-log id st session (matched, bounded, named, distinct) there =
      let name : session.session_id ≡ id =
        All-elem (λ x. x.1.session_id ≡ x.0) (id, session) st.sessions named
          (lookup-Elem id session st.sessions there) in
      let present : has_key id st.events ≡ true =
        has_key-keys id st.events
        ∙ ap (contains id) (sym matched)
        ∙ sym (has_key-keys id st.sessions)
        ∙ ap is_some there in
      elim (Option-cases (lookup id st.events)) [
        | inl gone ↦ absurd (let f = rw gone at present in cc)
        | inr (log, here) ↦ (log, here, name)
      ]

  routed_to-IsAsked :
      {R : Type 0} (id : Str) (body : Message) (st0 : Sessions F) (session : Session F)
      (old : List Message) (st : Sessions F) (routed : Result RouteFault R)
      → session_messages id st ≡ ok (old ++ body ∷ [])
      → get_session id st0 ≡ ok session
      → IsAsked id body st0 old
          (routed_to id session (old ++ body ∷ []) st routed).0
          (routed_to id session (old ++ body ∷ []) st routed).1
  unfolding session_messages
  routed_to-IsAsked id body st0 session old st (err e) h g = h
  routed_to-IsAsked id body st0 session old st (ok r) h g = (refl, h, g)

  found-eq-ok :
      (o : Option (Session F)) {session : Session F} → found o ≡ ok session → o ≡ some session
  found-eq-ok none h = cc
  found-eq-ok (some s) h = cc

  -- What is appended to a log that is there.
  pub append_event-ok :
      (now : F) (event_id id : Str) (session : Session F) (content_type : Str) (body : Message)
      (st : Sessions F) (log : List (Event F))
      → lookup id st.events ≡ some log
      → session.session_id ≡ id
      → append_event now event_id session content_type body st
        ≡ ok (record st {
          events =
              insert id (log ++ new_event now event_id session content_type body ∷ []) st.events;
        })
  unfolding append_event
  append_event-ok now event_id id session content_type body st log here name =
      let event = new_event now event_id session content_type body in
      subst
        (λ j.
          push j event st (lookup j st.events)
          ≡ ok (record st { events = insert id (log ++ event ∷ []) st.events }))
        {x = id} {y = session.session_id} (sym name) (rw here refl)

  -- A post, up to the route.
  begin_message-eq :
      {R : Type 0} (now : F) (event_id id : Str) (body : Message) (routed : Result RouteFault R)
      (st : Sessions F) (session : Session F) (log : List (Event F))
      → lookup id st.sessions ≡ some session
      → lookup id st.events ≡ some log
      → session.session_id ≡ id
      → begin_message now event_id id body routed st
        ≡ routed_to id session
            (messages_of log ++ body ∷ [])
            (record st {
              events =
                  insert id
                    (log ++ new_event now event_id session (codes "user_message") body ∷ [])
                    st.events;
            })
            routed
  unfolding begin_message session_messages get_session
  begin_message-eq now event_id id body routed st session log there here name =
      let event = new_event now event_id session (codes "user_message") body in
      rw
        (
          there,
          append_event-ok now event_id id session (codes "user_message") body st log here name,
          lookup-insert_self id (log ++ event ∷ []) st.events,
          messages_of-append log event (user_is_message now event_id session body),
        )
        refl

  -- In sessions that are kept, a post to a session that exists asks the backend with the messages
  -- of its log and then the new one, which is then also logged; if no route is found, the message
  -- stays in the log. No KeyError is raised.
  pub begin_message-IsAsked :
      {R : Type 0} (now : F) (event_id id : Str) (body : Message) (routed : Result RouteFault R)
      (st : Sessions F) {session : Session F}
      → IsKept st
      → get_session id st ≡ ok session
      → (old : List Message) × (session_messages id st ≡ ok old)
        × IsAsked id body st old
            (begin_message now event_id id body routed st).0
            (begin_message now event_id id body routed st).1
  unfolding begin_message append_event session_messages get_session
  begin_message-IsAsked now event_id id body routed st {session} k h =
      let there = found-eq-ok (lookup id st.sessions) h in
      let (log, here, name) = IsKept-log id st session k there in
      let event = new_event now event_id session (codes "user_message") body in
      let st2 = record st { events = insert id (log ++ event ∷ []) st.events } in
      let logged : session_messages id st2 ≡ ok (messages_of log ++ body ∷ []) =
        rw
          (
            lookup-insert_self id (log ++ event ∷ []) st.events,
            messages_of-append log event (user_is_message now event_id session body),
          )
          refl in
      (
        messages_of log,
        rw here refl,
        subst (λ p. IsAsked id body st (messages_of log) p.0 p.1)
            (sym (begin_message-eq now event_id id body routed st session log there here name))
            (routed_to-IsAsked id body st session (messages_of log) st2 routed logged h),
      )

  -- In sessions that are kept, the reply to a session that was deleted while the backend answered
  -- is not recorded: the end of its stream raises a KeyError.
  pub record_reply-key_error :
      (now : F) (event_id id content : Str) (st : Sessions F) {session : Session F}
      {st2 : Sessions F}
      → IsKept st
      → get_session id st ≡ ok session
      → delete_session id st ≡ ok st2
      → record_reply now event_id session content st2 ≡ err key_error
  unfolding record_reply append_event get_session delete_session forget_session
  record_reply-key_error now event_id id content st {session} {st2}
        (matched, bounded, named, distinct) h d =
      let there = found-eq-ok (lookup id st.sessions) h in
      let (log, here, name) = IsKept-log id st session (matched, bounded, named, distinct) there in
      let gone : lookup id (erase id st.events) ≡ none =
        is_some-eq-false (lookup id (erase id st.events)) (
          has_key-keys id (erase id st.events)
          ∙ ap (contains id) (keys-erase id st.events ∙ ap (remove_key id) (sym matched))
          ∙ contains-remove_key_self id (keys st.sessions) distinct) in
      let left : forget_session id st ≡ st2 = (let f = rw there at d in cc) in
      rw (← left, name, gone) refl
