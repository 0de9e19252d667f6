-- ===== src/Daemon/Pings.antt =====
-- A ping is answered, and its pong ends the measurement.
use mathlib.Core.List.{append-nil}
use mesh_compute.Prelude.{
  none, ℕ, ◌%◌, ◌^◌, ◌≤◌, ◌<◌, ◌≡◌, refl, sym, ap, ◌∙◌, false, List, [], ◌∷◌, ◌++◌, map, arith, ltb,
  lt→ltb, length, ok, nat_eq, list_eq, list_beq, length-append,
}
use mesh_compute.Prelude.Int.{pos}
use mesh_compute.Prelude.Bytes.{codes, Bytes, be_bytes, length-be_bytes}
use mesh_compute.Frames.Struct.{pack_field, pack, calcsize}
use mesh_compute.Frames.Frame.{
  Zlib, IsZlib, control, class_code, dtype_code, compression_code, encode, max_payload, fixed,
  head_values, wire_payload,
}
use mesh_compute.Frames.RoundTrip.{received}
use mesh_compute.Swarm.Seeder.{plain_frame}
use mesh_compute.Daemon.Wire.{
  ponged, dispatch_frame, dispatch_stream, is_control, pong, ping, rtt, answered, judge_pong,
  read_frame, write_frame, recv_frame,
}
use mesh_compute.Daemon.Delivered.{read_frame-write_frame}

-- Numbers that fit their fields.
abbrev AreFitting : List ℕ → List ℕ → Type 0
AreFitting [] [] = Unit
AreFitting (w ∷ ws) (n ∷ ns) = (n < 256 ^ w) × AreFitting ws ns
AreFitting _ _ = ⊥

pack_ok :
    (ws ns : List ℕ)
    → AreFitting ws ns
    → (bs : Bytes) × (pack ws (map pos ns) ≡ ok bs) × (length bs ≡ calcsize ws)
unfolding pack pack_field
pack_ok [] [] h = ([], refl, refl)
pack_ok [] (n ∷ ns) h = absurd h
pack_ok (w ∷ ws) [] h = absurd h
pack_ok (w ∷ ws) (n ∷ ns) (small, h) =
    let (bs, packed, size) = pack_ok ws ns h in
    (
      be_bytes w n ++ bs,
      rw (lt→ltb n (256 ^ w) small, packed) refl,
      omega (arith, length-append (be_bytes w n) bs, length-be_bytes w n, size),
    )

module _ (z : Zlib) where
  -- A short control frame is written whatever its request id.
  write_frame-control :
      (rid : ℕ) (text : Bytes)
      → rid < 2 ^ 64
      → length text ≤ 64
      → (bytes : Bytes) × (write_frame z (plain_frame control (pos rid) text) ≡ ok bytes)
  unfolding write_frame encode head_values wire_payload class_code dtype_code compression_code
  write_frame-control rid text small short =
      let (head, packed, size) =
        pack_ok fixed
          (1
            ∷ 0
            ∷ 255
            ∷ 0
            ∷ (z.crc32 [] % 2 ^ 32)
            ∷ rid
            ∷ 0
            ∷ 0
            ∷ 0
            ∷ 0
            ∷ 0
            ∷ (z.crc32 text % 2 ^ 16)
            ∷ length text
            ∷ [])
          (ground arith) in
      let (prefix, counted, _) =
        pack_ok (4 ∷ []) (length (head ++ text) ∷ [])
          (ground (arith, size, length-append head text)) in
      let capped : ltb max_payload (length text) ≡ false = ground arith in
      (prefix ++ (head ++ text), rw capped (rw packed (unfold pack in rw counted refl)))

  -- The other end reads a control frame as it was sent.
  reads_control :
      (rid : ℕ) (text : Bytes) {bytes : Bytes}
      → IsZlib z
      → length text ≤ 64
      → write_frame z (plain_frame control (pos rid) text) ≡ ok bytes
      → read_frame z bytes ≡ ([], ok (received z (plain_frame control (pos rid) text)))
  reads_control rid text {bytes} laws short h =
      ap (read_frame z) (sym (append-nil bytes))
      ∙ read_frame-write_frame z (plain_frame control (pos rid) text) [] laws
          (refl, omega (arith, short)) h

  -- The frame that rtt_ms sends can be written; the dispatcher of the peer that reads it answers
  -- with a frame that can be written, in place of a stream for accept_stream; and rtt_ms, reading
  -- that answer, has a pong.
  pub dispatch_stream-rtt :
      IsZlib z
      → (sent : Bytes) × (answer : Bytes) × (write_frame z ping ≡ ok sent)
        × (dispatch_stream z sent ≡ ponged (ok answer))
        × (rtt z (record { reader = answer; preloaded = none }) ≡ answered)
  unfolding dispatch_stream dispatch_frame is_control pong rtt judge_pong recv_frame received
      class_code list_beq
  dispatch_stream-rtt laws =
      let (sent, written) = write_frame-control 0 (codes "PING") (omega arith) (omega arith) in
      let (answer, replied) = write_frame-control 0 (codes "PONG") (omega arith) (omega arith) in
      (
        sent,
        answer,
        written,
        rw (reads_control 0 (codes "PING") laws (omega arith) written) (rw replied refl),
        rw (reads_control 0 (codes "PONG") laws (omega arith) replied) refl,
      )
