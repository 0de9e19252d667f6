-- ===== src/Gateway/Relayed.antt =====
-- The client has the same of a stream as of a whole reply, and so has the log.
use mesh_compute.Prelude.Bytes.{Str}
use mesh_compute.Prelude.{
  ◌≡◌, refl, sym, ap, subst, ◌∙◌, inl, inr, Bool, Bool-cases, true, false, Option, none, some, List,
  [], ◌∷◌, ◌++◌, ◌==◌, nat_eq, list_eq,
}
use mesh_compute.Gateway.Relaying.{
  TokenChunk, Upstream, ended, blew_up, client_left, token, Piece, chunk, is_finish, text_of,
  add_text, delta_of, sse_chunks, add_call, or_last, aggregate, aggregate_chat,
}

-- `"".join(content_out)`
abbrev pub join : List Str → Str
join [] = []
join (s ∷ out) = s ++ join out

abbrev or_nothing : Option Str → Str
or_nothing none = []
or_nothing (some text) = text

join-add_text :
    (text : Str) (out : List Str) → join (add_text text out) ≡ or_nothing (text_of text) ++ join out
join-add_text text out = elim (Bool-cases (text == [])) [
  | inl empty ↦ rw empty refl
  | inr full ↦ rw full refl
]

module _ {T : Type 0} where
  -- What a client has of the pieces: the text, the tool calls, and the last reason to finish.
  abbrev pub text_in : List (Piece T) → Str
  text_in [] = []
  text_in (chunk d ∷ pieces) = or_nothing d.content ++ text_in pieces
  text_in (_ ∷ pieces) = text_in pieces

  abbrev pub calls_in : List (Piece T) → List T
  calls_in [] = []
  calls_in (chunk d ∷ pieces) = add_call d.tool_calls (calls_in pieces)
  calls_in (_ ∷ pieces) = calls_in pieces

  abbrev pub finish_in : Option Str → List (Piece T) → Option Str
  finish_in reason [] = reason
  finish_in reason (chunk d ∷ pieces) = finish_in (or_last d.finish_reason reason) pieces
  finish_in reason (_ ∷ pieces) = finish_in reason pieces

  -- Whatever the backend yields, whether or not the stream is cancelled, fails or is left: the text
  -- that the handler records is the text of the pieces that it sent.
  pub sse_chunks-join :
      (sent_role : Bool) (up : Upstream T)
      → join (sse_chunks sent_role up).1 ≡ text_in (sse_chunks sent_role up).0
  unfolding sse_chunks
  sse_chunks-join sent_role ended = refl
  sse_chunks-join sent_role blew_up = refl
  sse_chunks-join sent_role client_left = refl
  sse_chunks-join sent_role (token true tc rest) = refl
  sse_chunks-join sent_role (token false tc rest) = elim (Bool-cases (is_finish tc.finish_reason)) [
    | inl last ↦ rw last (join-add_text tc.text [])
    | inr more ↦ rw more (
        join-add_text tc.text (sse_chunks true rest).1
        ∙ ap (λ l. or_nothing (text_of tc.text) ++ l) (sse_chunks-join true rest))
  ]

  -- A backend that is not cancelled, and ends.
  abbrev pub steady : List (TokenChunk T) → Upstream T
  steady [] = ended
  steady (tc ∷ tcs) = token false tc (steady tcs)

  -- Only the last chunk may have a reason to finish.
  abbrev pub IsClosed : List (TokenChunk T) → Type 0
  IsClosed [] = Unit
  IsClosed (tc ∷ []) = Unit
  IsClosed (tc ∷ tcs) = (is_finish tc.finish_reason ≡ false) × IsClosed tcs

  -- The client's view of the pieces, and the log's, is the aggregate.
  abbrev IsSame : Option Str → List (Piece T) × List Str → List Str × (Option Str × List T) → Type 0
  IsSame reason (pieces, out) (content, (last, calls)) =
      (out ≡ content) × (finish_in reason pieces ≡ last) × (calls_in pieces ≡ calls)

  -- A chunk that does not finish, in front of others.
  sse_chunks-more :
      (sent_role : Bool) (tc : TokenChunk T) (rest : Upstream T)
      → is_finish tc.finish_reason ≡ false
      → sse_chunks sent_role (token false tc rest) ≡ (
        chunk (delta_of sent_role tc) ∷ (sse_chunks true rest).0,
        add_text tc.text (sse_chunks true rest).1,
      )
  unfolding sse_chunks
  sse_chunks-more sent_role tc rest more = rw more refl

  sse_chunks-aggregate :
      (sent_role : Bool) (reason : Option Str) (tcs : List (TokenChunk T))
      → IsClosed tcs
      → IsSame reason (sse_chunks sent_role (steady tcs)) (aggregate tcs reason)
  unfolding sse_chunks aggregate
  sse_chunks-aggregate sent_role reason [] h = (refl, refl, refl)
  sse_chunks-aggregate sent_role reason (tc ∷ []) h =
      elim (Bool-cases (is_finish tc.finish_reason)) [
        | inl last ↦ rw last (refl, rw last refl, refl)
        | inr more ↦ rw more (refl, rw more refl, refl)
      ]
  sse_chunks-aggregate sent_role reason (tc ∷ tc2 ∷ tcs) (more, h) =
      let (out, last, calls) =
        sse_chunks-aggregate true (or_last tc.finish_reason reason) (tc2 ∷ tcs) h in
      subst (λ r. IsSame reason r (aggregate (tc ∷ tc2 ∷ tcs) reason))
        (sym (sse_chunks-more sent_role tc (steady (tc2 ∷ tcs)) more))
        (ap (add_text tc.text) out, last, ap (add_call tc.tool_call_delta) calls)

  -- Where only the last chunk of the backend has a reason to finish, and nothing is cancelled or
  -- fails: a stream gives the client the text, the tool calls and the reason that a whole reply
  -- would have, and records that text.
  pub sse_chunks-aggregate_chat :
      (tcs : List (TokenChunk T))
      → IsClosed tcs
      → (text_in (sse_chunks false (steady tcs)).0 ≡ join (aggregate_chat tcs).0)
        × (calls_in (sse_chunks false (steady tcs)).0 ≡ (aggregate_chat tcs).1.1)
        × (finish_in none (sse_chunks false (steady tcs)).0 ≡ (aggregate_chat tcs).1.0)
        × (join (sse_chunks false (steady tcs)).1 ≡ join (aggregate_chat tcs).0)
  unfolding aggregate_chat
  sse_chunks-aggregate_chat tcs h =
      let (out, last, calls) = sse_chunks-aggregate false none tcs h in
      (sym (sse_chunks-join false (steady tcs)) ∙ ap join out, calls, last, ap join out)
