-- ===== src/Daemon/Delivered.antt =====
-- What is sent on a stream is received, whichever side opened it.
use mesh_compute.Prelude.{
  some, none, ℕ, zero, suc, ◌+◌, ◌*◌, ◌≤◌, ◌≡◌, refl, sym, ap, subst, ◌∙◌, inl, inr, false, List,
  [], ◌∷◌, ◌++◌, map, All, arith, ltb, Bool-cases, length, take, drop, Result, ok, err, raise_if,
  >>=-eq-ok, nat_eq, list_eq, length-append, take-append, drop-append,
}
use mesh_compute.Prelude.Int.{pos}
use mesh_compute.Prelude.Bytes.{codes, Bytes, from_be}
use mesh_compute.Frames.Struct.{
  zlib_error, struct_error, value_error, payload_exceeds, ndim_exceeds, pack, unpack, calcsize,
  unpack-pack_values,
}
use mesh_compute.Frames.Frame.{
  Frame, Zlib, IsZlib, encode, max_payload, max_ndim, fixed, words, head_values, wire_payload,
}
use mesh_compute.Frames.RoundTrip.{decode-encode, received}
use mesh_compute.Daemon.Wire.{
  oversized, eof_error, is_control, undecodable, WireFault, dispatch_frame, enqueued,
  dispatch_stream, Stream, max_frame_on_wire, read_body, read_frame, write_frame, send_frames,
  recv_frame, recv_frames,
}
use mathlib.Core.List.{append_assoc}

calcsize-words : (n : ℕ) → calcsize (words n) ≡ 4 * n
calcsize-words zero = refl
calcsize-words (suc n) = omega (arith, calcsize-words n)

-- What the receiver needs of a frame, to have it as it was sent.
abbrev pub IsSendable : Frame → Type 0
IsSendable f = (f.protocol_version ≡ pos 1) × (length f.payload ≤ max_payload)

module _ (z : Zlib) where
  -- The slack behind the cap on payloads holds any header.
  length-encode : (f : Frame) {buf : Bytes} → encode z f ≡ ok buf → length buf ≤ max_payload + 64
  unfolding encode
  length-encode f {buf} h =
      let (u, under_cap, h1) =
        >>=-eq-ok
          (raise_if (ltb max_payload (length (wire_payload z f))) (value_error payload_exceeds)) _
          h in
      let (u', under_dims, h2) =
        >>=-eq-ok (raise_if (ltb max_ndim (length f.shape)) (value_error ndim_exceeds)) _ h1 in
      let (head, packed, h3) = >>=-eq-ok (pack fixed (head_values z f)) _ h2 in
      let (shape_bytes, shape_packed, built) =
        >>=-eq-ok (pack (words (length f.shape)) f.shape) _ h3 in
      let (_, _, size) = unpack-pack_values fixed (head_values z f) [] packed in
      let (_, _, shape_size) =
        unpack-pack_values (words (length f.shape)) f.shape [] shape_packed in
      let cap : length (wire_payload z f) ≤ max_payload = ground arith in
      let dims : length f.shape ≤ max_ndim = ground arith in
      subst (λ b. length b ≤ max_payload + 64) {x = head ++ (shape_bytes ++ wire_payload z f)}
        {y = buf} (cc built)
        (omega (
          arith,
          cap,
          dims,
          size,
          shape_size,
          calcsize-words (length f.shape),
          length-append head (shape_bytes ++ wire_payload z f),
          length-append shape_bytes (wire_payload z f),
        ))

  -- One frame in front of any bytes.
  pub read_frame-write_frame :
      (f : Frame) (rest : Bytes) {bytes : Bytes}
      → IsZlib z
      → IsSendable f
      → write_frame z f ≡ ok bytes
      → read_frame z (bytes ++ rest) ≡ (rest, ok (received z f))
  unfolding write_frame read_frame read_body unpack
  read_frame-write_frame f rest {bytes} laws (version, fits) h =
      let (body, encoded, h1) = >>=-eq-ok (encode z f) _ h in
      let (prefix, packed, built) = >>=-eq-ok (pack (4 ∷ []) (pos (length body) ∷ [])) _ h1 in
      let (_, reads, size) =
        unpack-pack_values (4 ∷ []) (pos (length body) ∷ []) (body ++ rest) packed in
      let number : from_be 0 (take 4 (prefix ++ (body ++ rest))) ≡ length body = cc reads in
      let left : drop 4 (prefix ++ (body ++ rest)) ≡ body ++ rest = cc reads in
      let whole : bytes ++ rest ≡ prefix ++ (body ++ rest) =
        ap (λ l. l ++ rest) (sym (cc built)) ∙ append_assoc prefix body rest in
      let long_enough : ltb (length (prefix ++ (body ++ rest))) 4 ≡ false =
        ground (arith, length-append prefix (body ++ rest), size) in
      let bounded : ltb max_frame_on_wire (length body) ≡ false =
        ground (arith, length-encode f encoded) in
      let all_there : ltb (length (body ++ rest)) (length body) ≡ false =
        ground (arith, length-append body rest) in
      rw
        (
          whole,
          long_enough,
          number,
          left,
          bounded,
          all_there,
          take-append body rest,
          drop-append body rest,
          decode-encode z f laws version fits encoded,
        )
        refl

  -- Frames that are sent one after the other on a stream, each at the protocol version in use and
  -- with a payload under the cap, are returned by as many calls of recv_frame, in that order and as
  -- they were sent but for session id and compression, whatever follows on the stream: the bound on
  -- the length prefix refuses none of them.
  pub recv_frames-send_frames :
      (frames : List Frame) (rest : Bytes) {bytes : Bytes}
      → IsZlib z
      → All IsSendable frames
      → send_frames z frames ≡ ok bytes
      → recv_frames z (length frames) (record { reader = bytes ++ rest; preloaded = none })
        ≡ map (λ f. ok (received z f)) frames
  unfolding send_frames recv_frames recv_frame
  recv_frames-send_frames [] rest laws sendable h = refl
  recv_frames-send_frames (f ∷ frames) rest {bytes} laws (good, sendable) h =
      let (first, written, h1) = >>=-eq-ok (write_frame z f) _ h in
      let (more, sent, built) = >>=-eq-ok (send_frames z frames) _ h1 in
      let whole : bytes ++ rest ≡ first ++ (more ++ rest) =
        ap (λ l. l ++ rest) (sym (cc built)) ∙ append_assoc first more rest in
      rw (whole, read_frame-write_frame f (more ++ rest) laws good written)
        (ap (◌∷◌ (ok (received z f))) (recv_frames-send_frames frames rest laws sendable sent))

-- What is enqueued had a first frame.
dispatch_frame-enqueued :
    (z : Zlib) (rest : Bytes) (r : Result WireFault Frame) {s : Stream}
    → dispatch_frame z rest r ≡ enqueued s
    → (frame : Frame) × (r ≡ ok frame) × (record { reader = rest; preloaded = some frame } ≡ s)
unfolding dispatch_frame
dispatch_frame-enqueued z rest (err eof_error) h = cc
dispatch_frame-enqueued z rest (err oversized) h = cc
dispatch_frame-enqueued z rest (err (undecodable (value_error e))) h = cc
dispatch_frame-enqueued z rest (err (undecodable struct_error)) h = cc
dispatch_frame-enqueued z rest (err (undecodable zlib_error)) h = cc
dispatch_frame-enqueued z rest (ok frame) {s} h =
    elim (Bool-cases (is_control (codes "PING") frame)) [
      | inl pinged ↦ absurd (let f = rw pinged at h in cc)
      | inr other ↦ let f = rw other at h in (frame, refl, cc)
    ]

-- The dispatcher reads the first frame of a stream that a peer opens, and loses none: unless that
-- frame is a ping, the stream that it queues returns from any number of calls of recv_frame what
-- the stream itself would have returned.
pub dispatch_stream-recv_frames :
    (z : Zlib) (reader : Bytes) (s : Stream) (n : ℕ)
    → dispatch_stream z reader ≡ enqueued s
    → recv_frames z n s ≡ recv_frames z n (record { reader = reader; preloaded = none })
unfolding dispatch_stream recv_frames recv_frame
dispatch_stream-recv_frames z reader s zero h = refl
dispatch_stream-recv_frames z reader s (suc n) h =
    let (frame, first, same) =
      dispatch_frame-enqueued z (read_frame z reader).0 (read_frame z reader).1 h in
    rw (← same, first) refl
