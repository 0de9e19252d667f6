-- ===== src/Swarm/Tests.antt =====
-- A file of three bytes in two chunks, one of them served wrongly first.
use mesh_compute.Swarm.Resume.{leech_file-stuck}
use mesh_compute.Prelude.{
  ℕ, ◌≡◌, ◌≢◌, refl, Bool, none, some, err, List, [], ◌∷◌, take, drop, ok, ◌==◌, nat_eq, list_eq,
  list_beq,
}
use mesh_compute.Protocol.Content.{verify_chunk, chunk_id}
use mesh_compute.Prelude.Int.{pos}
use mesh_compute.Protocol.Identity.{blake3_hex}
use mesh_compute.Prelude.Bytes.{from_be, hex, be_bytes, codes, Bytes}
use mesh_compute.Swarm.Digest.{leech_file-IsWhole, IsWhole}
use mesh_compute.Frames.Frame.{class_code, control, model_chunk, Frame}
use mesh_compute.Swarm.Leecher.{
  digest_mismatch, write_at, is_pending, num_chunks_for, finish, intact, commit, accepted, judge,
  respond, attempt, leech_chunk, leech_chunks, prepare, handshake, leech_file, Leecher,
}
use mesh_compute.Sample.{sample_crypto}
use mesh_compute.Swarm.Seeder.{is_model_chunk, chunk_frame, plain_frame, Shard}

abbrev shard : Shard
shard = record {
  rfilename = codes "f";
  size_bytes = 3;
  chunk_bytes = 2;
  artifact_root_hash = blake3_hex [];
}

abbrev have : Bytes → Bool
have payload = payload == codes "have"

abbrev served : ℕ → Bytes → Frame
served offset bytes = chunk_frame (codes "m") shard (pos 0) offset bytes

abbrev inbox : List Frame
inbox =
    plain_frame control (pos 0) (codes "have")
    ∷ served 0 (7 ∷ 8 ∷ [])
    ∷ served 0 (9 ∷ [])
    ∷ served 2 (9 ∷ [])
    ∷ []

abbrev want : Frame
want = plain_frame control (pos 0) (codes "want")

abbrev ask : ℕ → ℕ → Frame
ask n offset = plain_frame model_chunk (pos n) (be_bytes 8 offset)

abbrev fetched : Leecher
fetched = record {
  dest = 7 ∷ 8 ∷ 9 ∷ [];
  progress = (0, blake3_hex []) ∷ (2, blake3_hex []) ∷ [];
  sidecar = [];
  inbox = [];
  outbox = want ∷ ask 1 0 ∷ ask 2 2 ∷ ask 3 2 ∷ [];
  req_id = 3;
}

program : Unit {0}
unfolding leech_file handshake prepare leech_chunks leech_chunk attempt respond judge accepted
    commit intact finish num_chunks_for is_pending write_at is_model_chunk class_code chunk_frame
    chunk_id verify_chunk blake3_hex hex list_beq take drop be_bytes from_be
program = tt

leech_file-fetched :
    leech_file (codes "m") shard have want 3 none [] inbox ≡ ok (fetched, blake3_hex [])
unfolding program
leech_file-fetched = refl

leech_file-IsWhole_example : IsWhole (codes "m") shard (fetched, blake3_hex [])
leech_file-IsWhole_example =
    leech_file-IsWhole (codes "m") shard have want 3 none [] inbox leech_file-fetched

-- The same file, where the manifest wants another digest.
abbrev other_shard : Shard
other_shard = record {
  rfilename = codes "f";
  size_bytes = 3;
  chunk_bytes = 2;
  artifact_root_hash = codes "x";
}

other_shard-digest : blake3_hex (7 ∷ 8 ∷ 9 ∷ []) ≢ codes "x"
unfolding program
other_shard-digest e = absurd cc

leech_file-stuck_example :
    (st : Leecher) × (leech_file
        (codes "m")
        other_shard
        have
        want
        3
        (some (7 ∷ 8 ∷ 9 ∷ []))
        fetched.progress
        inbox
      ≡ err (digest_mismatch, st))
    × (st.dest ≡ 7 ∷ 8 ∷ 9 ∷ [])
    × (st.sidecar ≡ fetched.progress)
    × (st.outbox ≡ want ∷ [])
unfolding program
leech_file-stuck_example =
    leech_file-stuck (codes "m") other_shard have want 3 (7 ∷ 8 ∷ 9 ∷ []) fetched.progress
      (plain_frame control (pos 0) (codes "have"))
      (served 0 (7 ∷ 8 ∷ []) ∷ served 0 (9 ∷ []) ∷ served 2 (9 ∷ []) ∷ []) refl (refl, (refl, tt))
      refl other_shard-digest refl refl
