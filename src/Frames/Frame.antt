-- ===== src/Frames/Frame.antt =====
-- `Frame.encode` and `Frame.decode`. `session_id` is given as its UTF-8 bytes; zlib is library code.
use mesh_compute.Prelude.{
  ℕ, zero, suc, ◌+◌, ◌*◌, ◌%◌, ◌^◌, ◌≤◌, ◌≡◌, not, ◌||◌, List, [], ◌∷◌, ◌++◌, map, if◌then◌else◌,
  ltb, nat_beq, length, take, Result, ok, err, ◌>>=◌, ◌>>◌, raise_if, nat_eq, list_eq,
}
use mesh_compute.Prelude.Bytes.{Bytes}
use mesh_compute.Prelude.Int.{pos, ℤ}
use mesh_compute.Frames.Struct.{
  value_error, crc_mismatch, truncated, struct_error, pack, length_exceeds, ndim_too_large, unpack,
  ndim_exceeds, bad_class, decompressed_exceeds, payload_exceeds, unsupported_version, too_short,
  bad_dtype, calcsize, FrameError,
}

-- CRC-32, and the two directions of zlib. `decompress buf max` gives at most `max` bytes and what
-- was not consumed; a broken stream is a `zlib.error`.
pub record Zlib : Type 0 where
  pub crc32 : Bytes → ℕ
  pub compress : Bytes → Bytes
  pub decompress : Bytes → ℕ → Result FrameError (Bytes × Bytes)

-- What zlib documents.
pub record IsZlib (z : Zlib) : Type 0 where
  pub decompress-compress :
      (p : Bytes) (max : ℕ) → length p ≤ max → z.decompress (z.compress p) max ≡ ok (p, [])
  pub decompress_bounded :
      (buf : Bytes) (max : ℕ) (p tail : Bytes)
      → z.decompress buf max ≡ ok (p, tail)
      → length p ≤ max

pub data PacketClass : Type 0 where
  control activation kv_op token_result model_chunk telemetry cancel work_receipt : PacketClass

pub data Dtype : Type 0 where
  f32 f16 bf16 i32 u8 raw : Dtype

pub data Compression : Type 0 where
  none_compression zlib_compression : Compression

unfoldable pub class_code : PacketClass → ℕ
class_code control = 0
class_code activation = 1
class_code kv_op = 2
class_code token_result = 3
class_code model_chunk = 4
class_code telemetry = 5
class_code cancel = 6
class_code work_receipt = 7

-- `PacketClass(n)`
unfoldable pub class_of : ℕ → Result FrameError PacketClass
class_of n =
    if nat_beq n 0
    then ok control
    else if nat_beq n 1
    then ok activation
    else if nat_beq n 2
    then ok kv_op
    else if nat_beq n 3
    then ok token_result
    else if nat_beq n 4
    then ok model_chunk
    else if nat_beq n 5
    then ok telemetry
    else if nat_beq n 6
    then ok cancel
    else if nat_beq n 7
    then ok work_receipt
    else err (value_error bad_class)

unfoldable pub dtype_code : Dtype → ℕ
dtype_code f32 = 0
dtype_code f16 = 1
dtype_code bf16 = 2
dtype_code i32 = 3
dtype_code u8 = 4
dtype_code raw = 255

-- `Dtype(n)`
unfoldable pub dtype_of : ℕ → Result FrameError Dtype
dtype_of n =
    if nat_beq n 0
    then ok f32
    else if nat_beq n 1
    then ok f16
    else if nat_beq n 2
    then ok bf16
    else if nat_beq n 3
    then ok i32
    else if nat_beq n 4
    then ok u8
    else if nat_beq n 255
    then ok raw
    else err (value_error bad_dtype)

unfoldable pub compression_code : Compression → ℕ
compression_code none_compression = 0
compression_code zlib_compression = 1

-- `_FIXED`, ">BBBB I Q I H H B B H I"
abbrev pub fixed : List ℕ
fixed = 1 ∷ 1 ∷ 1 ∷ 1 ∷ 4 ∷ 8 ∷ 4 ∷ 2 ∷ 2 ∷ 1 ∷ 1 ∷ 2 ∷ 4 ∷ []

abbrev pub max_ndim : ℕ
max_ndim = 8

abbrev pub max_payload : ℕ
max_payload = 64 * 1024 * 1024

abbrev pub protocol_version : ℕ
protocol_version = 1

pub record Frame : Type 0 where
  pub packet_class : PacketClass
  pub request_id : ℤ
  pub session_id : Bytes
  pub step : ℤ
  pub microbatch : ℤ
  pub tensor_id : ℤ
  pub dtype : Dtype
  pub shape : List ℤ
  pub payload : Bytes
  pub compression : Compression
  pub protocol_version : ℤ
  pub sid_crc : ℤ

-- `f">{n}I"`
abbrev pub words : ℕ → List ℕ
words zero = []
words (suc n) = 4 ∷ words n

module _ (z : Zlib) where
  -- `self.payload`, compressed if the frame says so.
  unfoldable pub wire_payload : Frame → Bytes
  wire_payload f = elim f.compression [
    | none_compression ↦ f.payload
    | zlib_compression ↦ z.compress f.payload
  ]

  unfoldable pub head_values : Frame → List ℤ
  head_values f =
      let payload = wire_payload f in
      f.protocol_version
      ∷ pos (class_code f.packet_class)
      ∷ pos (dtype_code f.dtype)
      ∷ pos (compression_code f.compression)
      ∷ pos (z.crc32 f.session_id % 2 ^ 32)
      ∷ f.request_id
      ∷ f.step
      ∷ f.microbatch
      ∷ f.tensor_id
      ∷ pos (length f.shape)
      ∷ pos 0
      ∷ pos (z.crc32 payload % 2 ^ 16)
      ∷ pos (length payload)
      ∷ []

  unfoldable pub encode : Frame → Result FrameError Bytes
  encode f = do
    raise_if (ltb max_payload (length (wire_payload f))) (value_error payload_exceeds)
    raise_if (ltb max_ndim (length f.shape)) (value_error ndim_exceeds)
    head ← pack fixed (head_values f)
    shape_bytes ← pack (words (length f.shape)) f.shape
    ok (head ++ (shape_bytes ++ wire_payload f))

  -- The bounded decompression of `decode`.
  unfoldable pub inflate : ℕ → Bytes → Result FrameError Bytes
  inflate comp payload =
      if nat_beq comp 1
      then (do
        (out, tail) ← z.decompress payload (max_payload + 1)
        raise_if (ltb max_payload (length out) || not (nat_beq (length tail) 0))
            (value_error decompressed_exceeds)
        ok out)
      else ok payload

  -- `decode` from the fields of the fixed header and the bytes behind it.
  unfoldable pub decode_fields : List ℕ → Bytes → Result FrameError Frame
  decode_fields
        (pv ∷ pc ∷ dt ∷ comp ∷ sid_crc ∷ rid ∷ step ∷ mb ∷ tid ∷ ndim ∷ res ∷ pcrc ∷ plen ∷ [])
        rest =
      do
        raise_if (not (nat_beq pv protocol_version)) (value_error unsupported_version)
        raise_if (ltb max_ndim ndim) (value_error ndim_too_large)
        raise_if (ltb max_payload plen) (value_error length_exceeds)
        raise_if (ltb (length rest) (calcsize (words ndim))) struct_error
        let (shape, behind) = unpack (words ndim) rest
        let payload = take plen behind
        raise_if (not (nat_beq (length payload) plen)) (value_error truncated)
        raise_if (not (nat_beq (z.crc32 payload % 2 ^ 16) pcrc)) (value_error crc_mismatch)
        body ← inflate comp payload
        packet_class ← class_of pc
        dtype ← dtype_of dt
        ok (record {
          packet_class = packet_class;
          request_id = pos rid;
          session_id = [];
          step = pos step;
          microbatch = pos mb;
          tensor_id = pos tid;
          dtype = dtype;
          shape = map pos shape;
          payload = body;
          compression = none_compression;
          protocol_version = pos pv;
          sid_crc = pos sid_crc;
        })
  decode_fields _ rest = err struct_error

  unfoldable pub decode : Bytes → Result FrameError Frame
  decode buf = do
    raise_if (ltb (length buf) (calcsize fixed)) (value_error too_short)
    let (values, rest) = unpack fixed buf
    decode_fields values rest
