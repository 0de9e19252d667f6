-- ===== src/Swarm/Seeder.antt =====
-- `seed_file`: the answers to the requests for chunks that arrive on a stream, up to the one that
-- ends it. A stream is the list of the frames that arrive before it closes or times out.
use mesh_compute.Prelude.{
  ℕ, ◌+◌, ◌-◌, ◌%◌, min, Bool, not, ◌||◌, Option, none, some, List, [], ◌∷◌, ◌++◌, if◌then◌else◌,
  ltb, leb, nat_beq, length, take, drop, nat_eq, list_eq,
}
use mesh_compute.Protocol.Content.{chunk_id}
use mesh_compute.Prelude.Int.{pos, ℤ}
use mesh_compute.Prelude.Bytes.{be_bytes, Str, Bytes, from_be}
use mesh_compute.Protocol.Identity.{Crypto}
use mesh_compute.Frames.Frame.{PacketClass, class_code, Frame, model_chunk, raw, none_compression}

-- The fields of `ShardFile` that the transfer reads; the name as its UTF-8 bytes.
pub record Shard : Type 0 where
  pub rfilename : Str
  pub size_bytes : ℕ
  pub chunk_bytes : ℕ
  pub artifact_root_hash : Str

-- `Frame(packet_class=..., request_id=..., payload=...)`, the other fields by default.
abbrev pub plain_frame : PacketClass → ℤ → Bytes → Frame
plain_frame cls rid payload = record {
  packet_class = cls;
  request_id = rid;
  session_id = [];
  step = pos 0;
  microbatch = pos 0;
  tensor_id = pos 0;
  dtype = raw;
  shape = [];
  payload = payload;
  compression = none_compression;
  protocol_version = pos 1;
  sid_crc = pos 0;
}

unfoldable pub is_model_chunk : Frame → Bool
is_model_chunk f = nat_beq (class_code f.packet_class) 4

-- `f.seek(offset)` and `f.read(length)`
abbrev pub read_at : ℕ → ℕ → Bytes → Bytes
read_at offset n file = take n (drop offset file)

-- The length of the chunk at an offset.
abbrev pub chunk_length : Shard → ℕ → ℕ
chunk_length shard offset = min shard.chunk_bytes (shard.size_bytes - offset)

-- The offset that a request names; for anything else the seeder stops.
unfoldable pub requested : Shard → Frame → Option ℕ
requested shard req =
    if not (is_model_chunk req) || ltb (length req.payload) 8
    then none
    else let offset = from_be 0 (take 8 req.payload) in
      if leb shard.size_bytes offset || not (nat_beq (offset % shard.chunk_bytes) 0)
      then none
      else some offset

module _ ⦃cr : Crypto⦄ (manifest_hash : Str) (shard : Shard) where
  unfoldable pub chunk_frame : ℤ → ℕ → Bytes → Frame
  chunk_frame rid offset chunk =
      plain_frame model_chunk rid
        (be_bytes 8 offset ++ (chunk_id manifest_hash shard.rfilename offset chunk ++ chunk))

  -- The frames that are sent, and the number of bytes served.
  unfoldable pub serve : Bytes → Frame → Option ℕ → List Frame × ℕ → List Frame × ℕ
  serve file req none later = ([], 0)
  serve file req (some offset) later =
      let chunk = read_at offset (chunk_length shard offset) file in
      (chunk_frame req.request_id offset chunk ∷ later.0, length chunk + later.1)

  unfoldable pub seed_file : Bytes → List Frame → List Frame × ℕ
  seed_file file [] = ([], 0)
  seed_file file (req ∷ reqs) =
      let later = seed_file file reqs in serve file req (requested shard req) later
