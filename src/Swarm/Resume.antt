-- ===== src/Swarm/Resume.antt =====
-- What `leech_file` does with a file whose recorded chunks are all intact.
use mesh_compute.Prelude.{
  ℕ, zero, suc, ◌+◌, ◌*◌, ◌≡◌, ◌≢◌, inl, inr, refl, Bool, true, false, ◌&&◌, some, List, [], ◌∷◌,
  arith, nat_beq, Bool-cases, length, ok, err, ◌==◌, nat_eq, list_eq, beq→eq,
}
use mesh_compute.Prelude.Dict.{lookup, Dict}
use mesh_compute.Frames.Frame.{class_code, Frame}
use mesh_compute.Swarm.Seeder.{Shard}
use mesh_compute.Prelude.Bytes.{Bytes, Str}
use mesh_compute.Protocol.Identity.{blake3_hex, Crypto}
use mesh_compute.Swarm.Leecher.{
  intact, is_pending, num_chunks_for, prepare, handshake, leech_chunk, leech_chunks, finish,
  Leecher, leech_file, digest_mismatch,
}

module _ ⦃cr : Crypto⦄ (manifest_hash : Str) (shard : Shard) where
  -- The `n` chunks from `idx` on are recorded, and the bytes in the file have the recorded ids.
  abbrev pub AreIntact : ℕ → ℕ → Bytes → Dict ℕ Str → Type 0
  AreIntact zero idx file sidecar = Unit {0}
  AreIntact (suc n) idx file sidecar =
      (intact manifest_hash shard (idx * shard.chunk_bytes) file
          (lookup (idx * shard.chunk_bytes) sidecar)
        ≡ true)
      × AreIntact n (idx + 1) file sidecar

  leech_chunks-AreIntact :
      (retries n idx : ℕ) (st : Leecher)
      → AreIntact n idx st.dest st.progress
      → leech_chunks manifest_hash shard retries n idx st ≡ ok st
  unfolding leech_chunks leech_chunk
  leech_chunks-AreIntact retries zero idx st h = refl
  leech_chunks-AreIntact retries (suc n) idx st (kept, rest) =
      rw kept (leech_chunks-AreIntact retries n (idx + 1) st rest)

  finish-mismatch :
      (st : Leecher)
      → is_pending shard.artifact_root_hash ≡ false
      → blake3_hex st.dest ≢ shard.artifact_root_hash
      → finish manifest_hash shard st ≡ err (digest_mismatch, st)
  unfolding finish
  finish-mismatch st final other =
      elim (Bool-cases (blake3_hex st.dest == shard.artifact_root_hash)) [
        | inl same ↦ absurd (other (beq→eq (blake3_hex st.dest) shard.artifact_root_hash same))
        | inr differs ↦ rw (final, differs) refl
      ]

  -- A file of the right size, whose chunks are all recorded and intact while its digest is not the
  -- one of the manifest, stays as it is: with every peer that has the file, and for every number of
  -- retries, `leech_file` asks for no chunk, fails on the digest, and leaves the file and the
  -- record of before, so the next run fails too.
  pub leech_file-stuck :
      (says_have : Bytes → Bool) (want : Frame) (retries : ℕ) (file : Bytes) (sidecar : Dict ℕ Str)
      (reply : Frame) (inbox : List Frame)
      → length file ≡ shard.size_bytes
      → AreIntact (num_chunks_for shard.size_bytes shard.chunk_bytes) 0 file sidecar
      → is_pending shard.artifact_root_hash ≡ false
      → blake3_hex file ≢ shard.artifact_root_hash
      → class_code reply.packet_class ≡ 0
      → says_have reply.payload ≡ true
      → (st : Leecher) × (leech_file manifest_hash shard says_have want retries
            (some file)
            sidecar
            (reply ∷ inbox)
          ≡ err (digest_mismatch, st))
        × (st.dest ≡ file)
        × (st.sidecar ≡ sidecar)
        × (st.outbox ≡ want ∷ [])
  unfolding leech_file handshake prepare
  leech_file-stuck says_have want retries file sidecar reply inbox sized whole final other control
        has =
      let st : Leecher = record {
        dest = file;
        progress = sidecar;
        sidecar = sidecar;
        inbox = inbox;
        outbox = want ∷ [];
        req_id = 0;
      } in
      let same : nat_beq (length file) shard.size_bytes ≡ true = ground (arith, sized) in
      let greeted : nat_beq (class_code reply.packet_class) 0 && says_have reply.payload ≡ true =
        ground (arith, control, has) in
      let n = num_chunks_for shard.size_bytes shard.chunk_bytes in
      (
        st,
        rw (same, greeted)
            (rw (leech_chunks-AreIntact retries n 0 st whole) (finish-mismatch st final other)),
        refl,
        refl,
        refl,
      )
