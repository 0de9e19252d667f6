-- ===== src/Swarm/Leecher.antt =====
-- `leech_file`: the chunks that the sidecar vouches for are kept, the others are fetched, and the
-- whole file is hashed. An error carries the state that it leaves.
use mesh_compute.Prelude.{
  ℕ, zero, suc, ◌+◌, ◌-◌, ◌*◌, ◌/◌, Bool, false, not, ◌&&◌, ◌||◌, Option, none, some, List, [], ◌∷◌,
  ◌++◌, if◌then◌else◌, ltb, nat_beq, length, take, drop, Result, ok, err, ◌>>=◌, ◌==◌, nat_eq,
  list_eq,
}
use mesh_compute.Protocol.Content.{verify_chunk}
use mesh_compute.Prelude.Int.{pos}
use mesh_compute.Prelude.Dict.{erase, insert, lookup, Dict}
use mesh_compute.Frames.Frame.{class_code, model_chunk, Frame}
use mesh_compute.Prelude.Bytes.{be_bytes, from_be, codes, Bytes, Str}
use mesh_compute.Protocol.Identity.{blake3_hex, Crypto}
use mesh_compute.Swarm.Seeder.{read_at, chunk_length, is_model_chunk, plain_frame, Shard}

-- The file on disk, the record of its chunks in memory and in the sidecar, and the stream.
pub record Leecher : Type 0 where
  pub dest : Bytes
  pub progress : Dict ℕ Str
  pub sidecar : Dict ℕ Str
  pub inbox : List Frame
  pub outbox : List Frame
  pub req_id : ℕ

pub data LeechFault : Type 0 where
  peer_lacks_file stream_ended chunk_unverified digest_mismatch : LeechFault

abbrev pub Leeching : Type 0 → Type 0
Leeching A = Result (LeechFault × Leecher) A

-- `-(-size // chunk)`
unfoldable pub num_chunks_for : ℕ → ℕ → ℕ
num_chunks_for size chunk = if nat_beq size 0 then 0 else (size + chunk - 1) / chunk

abbrev pub nulls : ℕ → Bytes
nulls zero = []
nulls (suc n) = 0 ∷ nulls n

-- `root_hash.startswith("PENDING")`
unfoldable pub is_pending : Str → Bool
is_pending root = take 7 root == codes "PENDING"

-- `out.seek(offset); out.write(data)` inside the file.
unfoldable pub write_at : ℕ → Bytes → Bytes → Bytes
write_at offset bytes file = take offset file ++ (bytes ++ drop (offset + length bytes) file)

-- The file and the record that the fetch starts from: a file of another size is replaced.
unfoldable pub prepare : Shard → Option Bytes → Dict ℕ Str → List Frame → Leecher
prepare shard none sidecar inbox = record {
  dest = nulls shard.size_bytes;
  progress = [];
  sidecar = sidecar;
  inbox = inbox;
  outbox = [];
  req_id = 0;
}
prepare shard (some file) sidecar inbox =
    if nat_beq (length file) shard.size_bytes
    then record {
      dest = file;
      progress = sidecar;
      sidecar = sidecar;
      inbox = inbox;
      outbox = [];
      req_id = 0;
    }
    else record {
      dest = nulls shard.size_bytes;
      progress = [];
      sidecar = sidecar;
      inbox = inbox;
      outbox = [];
      req_id = 0;
    }

-- The file that is not there is the empty one.
abbrev pub on_disk : Option Bytes → Bytes
on_disk none = []
on_disk (some file) = file

-- When the request is sent, nothing has been read or written yet.
abbrev pub greeting : Frame → Option Bytes → Dict ℕ Str → List Frame → Leecher
greeting want file sidecar inbox = record {
  dest = on_disk file;
  progress = [];
  sidecar = sidecar;
  inbox = inbox;
  outbox = want ∷ [];
  req_id = 0;
}

module _ ⦃cr : Crypto⦄ (manifest_hash : Str) (shard : Shard) where
  -- The chunk id and the bytes of a response, if it is the chunk that was asked for.
  unfoldable pub accepted : ℕ → Frame → Option (Str × Bytes)
  accepted offset resp =
      if not (is_model_chunk resp) || ltb (length resp.payload) 72
      then none
      else let cid = take 64 (drop 8 resp.payload) in
        let chunk = drop 72 resp.payload in
        if nat_beq (from_be 0 (take 8 resp.payload)) offset
          && nat_beq (length chunk) (chunk_length shard offset)
          && verify_chunk cid manifest_hash shard.rfilename offset chunk
        then some (cid, chunk)
        else none

  -- The request for a chunk.
  abbrev ask : ℕ → Leecher → Leecher
  ask offset st = record st {
    req_id = st.req_id + 1;
    outbox = st.outbox ++ plain_frame model_chunk (pos (st.req_id + 1)) (be_bytes 8 offset) ∷ [];
  }

  -- What one response leads to; `later` is what the attempts that are left do.
  unfoldable pub judge :
      (Leecher → Leeching ((Str × Bytes) × Leecher))
      → Leecher
      → Option (Str × Bytes)
      → Leeching ((Str × Bytes) × Leecher)
  judge later st (some got) = ok (got, st)
  judge later st none = later st

  -- A stream that has ended raises.
  unfoldable pub respond :
      (Leecher → Leeching ((Str × Bytes) × Leecher))
      → ℕ
      → Leecher
      → List Frame
      → Leeching ((Str × Bytes) × Leecher)
  respond later offset st [] = err (stream_ended, st)
  respond later offset st (resp ∷ inbox) =
      judge later (record st { inbox = inbox }) (accepted offset resp)

  -- The loop over the attempts that are left.
  unfoldable pub attempt : ℕ → ℕ → Leecher → Leeching ((Str × Bytes) × Leecher)
  attempt offset zero st = err (chunk_unverified, st)
  attempt offset (suc n) st = respond (attempt offset n) offset (ask offset st) st.inbox

  -- A verified chunk is written, recorded, and the record saved.
  unfoldable pub commit : ℕ → (Str × Bytes) × Leecher → Leecher
  commit offset ((cid, chunk), st) =
      let progress = insert offset cid st.progress in
      record st { dest = write_at offset chunk st.dest; progress = progress; sidecar = progress }

  -- A recorded chunk that is still intact on disk.
  unfoldable pub intact : ℕ → Bytes → Option Str → Bool
  intact offset file none = false
  intact offset file (some cid) =
      verify_chunk cid manifest_hash shard.rfilename offset
        (read_at offset (chunk_length shard offset) file)

  unfoldable pub leech_chunk : ℕ → ℕ → Leecher → Leeching Leecher
  leech_chunk retries idx st =
      let offset = idx * shard.chunk_bytes in
      if intact offset st.dest (lookup offset st.progress)
      then ok st
      else (attempt offset retries (record st { progress = erase offset st.progress }) >>= λ got.
          ok (commit offset got))

  -- The chunks from `idx` on, `n` of them.
  unfoldable pub leech_chunks : ℕ → ℕ → ℕ → Leecher → Leeching Leecher
  leech_chunks retries zero idx st = ok st
  leech_chunks retries (suc n) idx st =
      leech_chunk retries idx st >>= λ st2. leech_chunks retries n (idx + 1) st2

  -- The hash of the whole file; the sidecar goes when it is the one of the manifest.
  unfoldable pub finish : Leecher → Leeching (Leecher × Str)
  finish st =
      let digest = blake3_hex st.dest in
      if not (is_pending shard.artifact_root_hash) && not (digest == shard.artifact_root_hash)
      then err (digest_mismatch, st)
      else ok (record st { sidecar = [] }, digest)

  -- `says_have` reads the JSON of the handshake's answer, `json.loads(payload)["op"] == "have"`.
  unfoldable pub handshake : (Bytes → Bool) → Leecher → List Frame → Leeching Leecher
  handshake says_have st [] = err (stream_ended, st)
  handshake says_have st (reply ∷ inbox) =
      if nat_beq (class_code reply.packet_class) 0 && says_have reply.payload
      then ok (record st { inbox = inbox })
      else err (peer_lacks_file, record st { inbox = inbox })

  -- `want` is the frame that asks for the file; the file on disk, if there is one.
  unfoldable pub leech_file :
      (Bytes → Bool) → Frame → ℕ → Option Bytes → Dict ℕ Str → List Frame → Leeching (Leecher × Str)
  leech_file says_have want retries file sidecar inbox =
      handshake says_have (greeting want file sidecar inbox) inbox >>= λ st.
      leech_chunks retries (num_chunks_for shard.size_bytes shard.chunk_bytes) 0
        (record (prepare shard file sidecar st.inbox) { outbox = st.outbox })
      >>= λ st2. finish st2
