-- ===== src/Gateway/Relaying.antt =====
-- apps/gateway/meshcompute_gateway/app.py: the backend's chunks on their way to the client, as
-- server-sent events or as one reply. What the backend yields is an argument.
use mesh_compute.Prelude.Bytes.{Str}
use mesh_compute.Prelude.{
  Bool, true, false, not, Option, none, some, List, [], ◌∷◌, if◌then◌else◌, ◌==◌, nat_eq, list_eq,
}

-- `TokenChunk`; `T` is a delta of a tool call, a dict that is not empty.
pub record TokenChunk (T : Type 0) : Type 0 where
  pub text : Str
  pub tool_call_delta : Option T
  pub finish_reason : Option Str

-- What arrives from the backend, with whether the cancel event is set by then.
pub data Upstream (T : Type 0) : Type 0 where
  ended blew_up client_left : Upstream T
  token : Bool → TokenChunk T → Upstream T → Upstream T

-- What `_chunk_obj` takes of a chunk: the role comes first, once.
pub record Delta (T : Type 0) : Type 0 where
  pub has_role : Bool
  pub content : Option Str
  pub tool_calls : Option T
  pub finish_reason : Option Str

pub data Piece (T : Type 0) : Type 0 where
  chunk : Delta T → Piece T
  done error : Piece T

-- `if reason:`
abbrev pub is_finish : Option Str → Bool
is_finish none = false
is_finish (some reason) = not (reason == [])

abbrev pub text_of : Str → Option Str
text_of text = if text == [] then none else some text

-- `content_out.append(tc.text)`, for a text that is not empty.
abbrev pub add_text : Str → List Str → List Str
add_text text out = if text == [] then out else text ∷ out

-- `if tc.finish_reason: finish_reason = ...`
abbrev pub or_last : Option Str → Option Str → Option Str
or_last later reason = if is_finish later then later else reason

module _ {T : Type 0} where
  abbrev pub delta_of : Bool → TokenChunk T → Delta T
  delta_of sent_role tc = record {
    has_role = not sent_role;
    content = text_of tc.text;
    tool_calls = tc.tool_call_delta;
    finish_reason = tc.finish_reason;
  }

  -- The pieces that are yielded, and `content_out`.
  unfoldable pub sse_chunks : Bool → Upstream T → List (Piece T) × List Str
  sse_chunks sent_role ended = (done ∷ [], [])
  sse_chunks sent_role blew_up = (error ∷ [], [])
  sse_chunks sent_role client_left = ([], [])
  sse_chunks sent_role (token true tc rest) = (done ∷ [], [])
  sse_chunks sent_role (token false tc rest) =
      let later = sse_chunks true rest in
      let (pieces, out) = if is_finish tc.finish_reason then (done ∷ [], []) else later in
      (chunk (delta_of sent_role tc) ∷ pieces, add_text tc.text out)

  abbrev pub add_call : Option T → List T → List T
  add_call none calls = calls
  add_call (some call) calls = call ∷ calls

  -- `content`, the last finish reason and `tool_calls` of `_aggregate_chat`.
  unfoldable pub aggregate : List (TokenChunk T) → Option Str → List Str × (Option Str × List T)
  aggregate [] reason = ([], (reason, []))
  aggregate (tc ∷ tcs) reason =
      let (content, (last, calls)) = aggregate tcs (or_last tc.finish_reason reason) in
      (add_text tc.text content, (last, add_call tc.tool_call_delta calls))

  -- `_aggregate_chat`
  unfoldable pub aggregate_chat : List (TokenChunk T) → List Str × (Option Str × List T)
  aggregate_chat tcs = aggregate tcs none
