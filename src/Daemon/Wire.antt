-- ===== src/Daemon/Wire.antt =====
-- Frames on a stream of transport_quic.py: `_read_frame`, `_write_frame`, `QuicStream`, the
-- dispatcher of the streams that a peer opens, and the check of a ping. A reader is the list of the
-- bytes that arrive before the stream ends.
use mesh_compute.Prelude.{
  ℕ, zero, suc, ◌+◌, Bool, ◌&&◌, Option, none, some, List, [], ◌∷◌, ◌++◌, if◌then◌else◌, ltb,
  nat_beq, length, take, drop, Result, ok, err, ◌>>=◌, ◌==◌, nat_eq, list_eq,
}
use mesh_compute.Prelude.Int.{pos}
use mesh_compute.Prelude.Bytes.{codes, Bytes, from_be}
use mesh_compute.Frames.Struct.{FrameError, value_error, struct_error, zlib_error, pack}
use mesh_compute.Frames.Frame.{Frame, Zlib, encode, decode, max_payload, control, class_code}
use mesh_compute.Swarm.Seeder.{plain_frame}

-- An EOFError, the ValueError of the bound, or what `Frame.decode` raises.
pub data WireFault : Type 0 where
  eof_error oversized : WireFault
  undecodable : FrameError → WireFault

-- `_MAX_FRAME_ON_WIRE`
abbrev pub max_frame_on_wire : ℕ
max_frame_on_wire = max_payload + 4096

abbrev pub decoded : Result FrameError Frame → Result WireFault Frame
decoded (ok frame) = ok frame
decoded (err e) = err (undecodable e)

module _ (z : Zlib) where
  -- The body of a frame of that length, and what the reader still holds.
  unfoldable pub read_body : ℕ → Bytes → Bytes × Result WireFault Frame
  read_body n rest =
      if ltb max_frame_on_wire n
      then (rest, err oversized)
      else if ltb (length rest) n
      then ([], err eof_error)
      else (drop n rest, decoded (decode z (take n rest)))

  unfoldable pub read_frame : Bytes → Bytes × Result WireFault Frame
  read_frame reader =
      if ltb (length reader) 4
      then ([], err eof_error)
      else read_body (from_be 0 (take 4 reader)) (drop 4 reader)

  -- The bytes that are written.
  unfoldable pub write_frame : Frame → Result FrameError Bytes
  write_frame frame = do
    data_bytes ← encode z frame
    prefix ← pack (4 ∷ []) (pos (length data_bytes) ∷ [])
    ok (prefix ++ data_bytes)

  -- The bytes of a number of calls of `send_frame`.
  unfoldable pub send_frames : List Frame → Result FrameError Bytes
  send_frames [] = ok []
  send_frames (frame ∷ frames) = do
    first ← write_frame frame
    more ← send_frames frames
    ok (first ++ more)

-- A `QuicStream`, as its receiver sees it.
pub record Stream : Type 0 where
  pub reader : Bytes
  pub preloaded : Option Frame

module _ (z : Zlib) where
  abbrev pub take_preloaded : Stream → Option Frame → Stream × Result WireFault Frame
  take_preloaded s none =
      let (rest, result) = read_frame z s.reader in (record s { reader = rest }, result)
  take_preloaded s (some frame) = (record s { preloaded = none }, ok frame)

  unfoldable pub recv_frame : Stream → Stream × Result WireFault Frame
  recv_frame s = take_preloaded s s.preloaded

  -- What a number of calls of `recv_frame` return.
  unfoldable pub recv_frames : ℕ → Stream → List (Result WireFault Frame)
  recv_frames zero s = []
  recv_frames (suc n) s = let (s2, result) = recv_frame s in result ∷ recv_frames n s2

-- A CONTROL frame with that text.
unfoldable pub is_control : Bytes → Frame → Bool
is_control text frame = nat_beq (class_code frame.packet_class) 0 && frame.payload == text

-- What becomes of a stream that the peer opens.
pub data Dispatched : Type 0 where
  -- logged, and closed
  dropped : Dispatched
  -- answered, and ended
  ponged : Result FrameError Bytes → Dispatched
  -- put into `inbound_streams`
  enqueued : Stream → Dispatched
  -- the exception leaves the task
  raised : WireFault → Dispatched

module _ (z : Zlib) where
  unfoldable pub pong : Frame → Frame
  pong frame = plain_frame control frame.request_id (codes "PONG")

  -- EOFError and ValueError are caught.
  unfoldable pub dispatch_frame : Bytes → Result WireFault Frame → Dispatched
  dispatch_frame rest (err eof_error) = dropped
  dispatch_frame rest (err oversized) = dropped
  dispatch_frame rest (err (undecodable (value_error e))) = dropped
  dispatch_frame rest (err (undecodable struct_error)) = raised (undecodable struct_error)
  dispatch_frame rest (err (undecodable zlib_error)) = raised (undecodable zlib_error)
  dispatch_frame rest (ok frame) =
      if is_control (codes "PING") frame
      then ponged (write_frame z (pong frame))
      else enqueued (record { reader = rest; preloaded = some frame })

  unfoldable pub dispatch_stream : Bytes → Dispatched
  dispatch_stream reader = let (rest, result) = read_frame z reader in dispatch_frame rest result

-- The frame that `rtt_ms` sends.
abbrev pub ping : Frame
ping = plain_frame control (pos 0) (codes "PING")

-- What `rtt_ms` makes of the stream: a time, unless no pong came.
pub data Pinged : Type 0 where
  answered no_pong : Pinged
  failed : WireFault → Pinged

unfoldable pub judge_pong : Result WireFault Frame → Pinged
judge_pong (ok frame) = if is_control (codes "PONG") frame then answered else no_pong
judge_pong (err e) = failed e

module _ (z : Zlib) where
  unfoldable pub rtt : Stream → Pinged
  rtt s = judge_pong (recv_frame z s).1
