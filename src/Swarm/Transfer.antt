-- ===== src/Swarm/Transfer.antt =====
-- A whole file from a seeder that holds it: `leech_file` on the answers of `seed_file`.
use mesh_compute.Prelude.{
  ℕ, zero, suc, ◌+◌, ◌-◌, ◌*◌, ◌%◌, ◌^◌, ◌≤◌, ◌<◌, ◌≡◌, ◌≢◌, refl, sym, ap, subst, ◌∙◌, inl, inr,
  Bool, true, false, ◌&&◌, none, some, List, [], ◌∷◌, ◌++◌, arith, nat_beq, min, length, take, ok,
  nat_eq, list_eq, eq→beq, Bool-cases,
}
use mesh_compute.Prelude.Int.{pos}
use mesh_compute.Prelude.Dict.{Dict, lookup, insert, erase, lookup-insert_ne, lookup-erase_ne}
use mesh_compute.Prelude.Bytes.{Bytes, Str, be_bytes}
use mesh_compute.Protocol.Identity.{blake3_hex, Crypto, IsCrypto}
use mesh_compute.Protocol.Content.{chunk_id}
use mesh_compute.Frames.Frame.{Frame, model_chunk, class_code}
use mesh_compute.Swarm.Seeder.{Shard, plain_frame, read_at, chunk_length, seed_file}
use mesh_compute.Swarm.Leecher.{
  Leecher, nulls, num_chunks_for, is_pending, accepted, attempt, respond, judge, commit, intact,
  leech_chunk, leech_chunks, finish, handshake, prepare, leech_file, write_at,
}
use mesh_compute.Swarm.Exchange.{seed_file-accepted}
use mesh_compute.Swarm.Written.{front, front_whole, write_at-front}
use mathlib.Core.List.{append_assoc, append-nil}
use native.Mathlib.Nat.{mul-mod_left}

module _ ⦃cr : Crypto⦄ (manifest_hash : Str) (shard : Shard) where
  -- The requests for `n` chunks from `idx` on.
  abbrev pub requests : ℕ → ℕ → List Frame
  requests zero idx = []
  requests (suc n) idx =
      plain_frame model_chunk (pos (idx + 1)) (be_bytes 8 (idx * shard.chunk_bytes))
      ∷ requests n (idx + 1)

  -- The first `idx` chunks are there, and nothing is recorded of the others.
  abbrev IsUpTo : Bytes → ℕ → Leecher → Type 0
  IsUpTo file idx st =
      (st.dest ≡ front (idx * shard.chunk_bytes) file)
      × ((j : ℕ) → idx ≤ j → lookup (j * shard.chunk_bytes) st.progress ≡ none)
      × (st.req_id ≡ idx)

  -- The state after a chunk that was accepted.
  abbrev after_chunk : ℕ → Str → Bytes → List Frame → Leecher → Leecher
  after_chunk offset cid chunk inbox st = record {
    dest = write_at offset chunk st.dest;
    progress = insert offset cid (erase offset st.progress);
    sidecar = insert offset cid (erase offset st.progress);
    inbox = inbox;
    outbox = st.outbox ++ plain_frame model_chunk (pos (st.req_id + 1)) (be_bytes 8 offset) ∷ [];
    req_id = st.req_id + 1;
  }

  leech_chunk-accepted :
      (retries idx : ℕ) (cid : Str) (chunk : Bytes) (resp : Frame) (inbox : List Frame)
      (st : Leecher)
      → st.inbox ≡ resp ∷ inbox
      → lookup (idx * shard.chunk_bytes) st.progress ≡ none
      → accepted manifest_hash shard (idx * shard.chunk_bytes) resp ≡ some (cid, chunk)
      → leech_chunk manifest_hash shard (suc retries) idx st
        ≡ ok (after_chunk (idx * shard.chunk_bytes) cid chunk inbox st)
  unfolding leech_chunk intact attempt respond judge commit
  leech_chunk-accepted retries idx cid chunk resp inbox st arrived unknown good =
      rw (unknown, arrived, good) refl

  after_chunk-IsUpTo :
      (file : Bytes) (idx : ℕ) (cid : Str) (inbox : List Frame) (st : Leecher)
      → length file ≡ shard.size_bytes
      → idx * shard.chunk_bytes < shard.size_bytes
      → 0 < shard.chunk_bytes
      → IsUpTo file idx st
      → IsUpTo file (idx + 1) (
          after_chunk
            (idx * shard.chunk_bytes)
            cid
            (read_at (idx * shard.chunk_bytes) (chunk_length shard (idx * shard.chunk_bytes)) file)
            inbox
            st)
  after_chunk-IsUpTo file idx cid inbox st sized inside positive (dest, unknown, counted) =
      let c = shard.chunk_bytes in
      let offset = idx * c in
      (
        ap (λ k. write_at offset (read_at offset (min c (k - offset)) file) st.dest) (sym sized)
            ∙ ap (write_at offset (read_at offset (min c (length file - offset)) file)) dest
            ∙ write_at-front offset c file (omega (arith, sized, inside))
            ∙ ap (λ k. front k file) {x = offset + c} {y = (idx + 1) * c} (grind arith),
        (λ j later.
            let other : j * c ≢ offset = λ same. absurd (grind (arith, later, positive, same)) in
            lookup-insert_ne (j * c) offset cid (erase offset st.progress) other
            ∙ lookup-erase_ne (j * c) offset st.progress other
            ∙ unknown j (omega (arith, later))),
        omega (arith, counted),
      )

module _ ⦃cr : Crypto⦄ (laws : IsCrypto cr) (manifest_hash : Str) (shard : Shard) where
  -- The chunks from `idx` on, which all start inside the file.
  leech_chunks-fetched :
      (retries n idx : ℕ) (file : Bytes) (st : Leecher)
      → length file ≡ shard.size_bytes
      → shard.size_bytes < 256 ^ 8
      → 0 < shard.chunk_bytes
      → (idx + n) * shard.chunk_bytes < shard.size_bytes + shard.chunk_bytes
      → IsUpTo manifest_hash shard file idx st
      → st.inbox ≡ (seed_file manifest_hash shard file (requests manifest_hash shard n idx)).0
      → (st2 : Leecher) × (leech_chunks manifest_hash shard (suc retries) n idx st ≡ ok st2)
        × IsUpTo manifest_hash shard file (idx + n) st2
        × (st2.outbox ≡ st.outbox ++ requests manifest_hash shard n idx)
  unfolding leech_chunks
  leech_chunks-fetched retries zero idx file st sized small positive inside up arrived = (
    st,
    refl,
    subst (λ k. IsUpTo manifest_hash shard file k st) {x = idx} {y = idx + 0} (omega arith) up,
    sym (append-nil st.outbox),
  )
  leech_chunks-fetched retries (suc n) idx file st sized small positive inside up arrived =
      let c = shard.chunk_bytes in
      let offset = idx * c in
      let starts : offset < shard.size_bytes = grind (arith, inside, positive) in
      let aligned : offset % c ≡ 0 = mul-mod_left idx c in
      let (resp, served, good) =
        seed_file-accepted laws manifest_hash shard file (pos (idx + 1)) offset
          (requests manifest_hash shard n (idx + 1)) sized (omega (arith, starts, small)) starts
          aligned in
      let chunk = read_at offset (chunk_length shard offset) file in
      let cid = chunk_id manifest_hash shard.rfilename offset chunk in
      let inbox =
        (seed_file manifest_hash shard file (requests manifest_hash shard n (idx + 1))).0 in
      let step =
        leech_chunk-accepted manifest_hash shard retries idx cid chunk resp inbox st
          (arrived ∙ served) (up.1 idx (omega arith)) good in
      let next = after_chunk manifest_hash shard offset cid chunk inbox st in
      let (st2, rest, up2, asked) =
        leech_chunks-fetched retries n (idx + 1) file next sized small positive
          (grind (arith, inside))
          (after_chunk-IsUpTo manifest_hash shard file idx cid inbox st sized starts positive up)
          refl in
      (
        st2,
        rw step rest,
        subst (λ k. IsUpTo manifest_hash shard file k st2) {x = idx + 1 + n} {y = idx + suc n}
            (omega arith) up2,
        asked
            ∙ append_assoc st.outbox
                (plain_frame model_chunk (pos (st.req_id + 1)) (be_bytes 8 offset) ∷ [])
                (requests manifest_hash shard n (idx + 1))
            ∙ ap
                (λ i.
                  st.outbox
                  ++ plain_frame model_chunk (pos (i + 1)) (be_bytes 8 offset)
                    ∷ requests manifest_hash shard n (idx + 1))
                up.2,
      )

  -- Chunks enough for the file, and the last one starts inside it.
  num_chunks_for_lem :
      (size c : ℕ)
      → 0 < c
      → (size ≤ num_chunks_for size c * c) × (num_chunks_for size c * c < size + c)
  unfolding num_chunks_for
  num_chunks_for_lem size c positive = elim (Bool-cases (nat_beq size 0)) [
    | inl empty ↦ rw empty (ground arith, ground arith)
    | inr some_bytes ↦ rw some_bytes (grind arith, grind arith)
  ]

  finish-ok :
      (st : Leecher)
      → (is_pending shard.artifact_root_hash ≡ false
          → blake3_hex st.dest ≡ shard.artifact_root_hash)
      → finish manifest_hash shard st ≡ ok (record st { sidecar = [] }, blake3_hex st.dest)
  unfolding finish
  finish-ok st h = elim (Bool-cases (is_pending shard.artifact_root_hash)) [
    | inl pending ↦ rw pending refl
    | inr named ↦ rw (named, eq→beq (blake3_hex st.dest) shard.artifact_root_hash (h named)) refl
  ]

  -- A seeder that holds the file of the manifest and a leecher that has nothing of it: when the
  -- seeder says that it has the file and then answers the requests for all chunks in turn, these are
  -- the requests that the leecher sends, and leech_file returns the hash of the file with the whole
  -- file on disk. The file has the size and the hash of the manifest, or its hash is pending; the
  -- size is below 2 ^ 64, the chunks are not empty, and one try for each is enough.
  pub leech_file-seed_file :
      (says_have : Bytes → Bool) (want greet : Frame) (retries : ℕ) (file : Bytes)
      (sidecar : Dict ℕ Str)
      → length file ≡ shard.size_bytes
      → shard.size_bytes < 256 ^ 8
      → 0 < shard.chunk_bytes
      → (is_pending shard.artifact_root_hash ≡ false → blake3_hex file ≡ shard.artifact_root_hash)
      → (nat_beq (class_code greet.packet_class) 0 && says_have greet.payload) ≡ true
      → (st : Leecher) × (leech_file manifest_hash shard says_have want (suc retries) none sidecar (
            greet
            ∷ (seed_file manifest_hash shard file (
                requests manifest_hash shard
                  (num_chunks_for shard.size_bytes shard.chunk_bytes)
                  0)).0)
          ≡ ok (st, blake3_hex file))
        × (st.dest ≡ file)
        × (st.outbox
            ≡ want
              ∷ requests manifest_hash shard (num_chunks_for shard.size_bytes shard.chunk_bytes) 0)
  unfolding leech_file handshake prepare take
  leech_file-seed_file says_have want greet retries file sidecar sized small positive named
        greeted =
      let c = shard.chunk_bytes in
      let n = num_chunks_for shard.size_bytes c in
      let (enough, inside) = num_chunks_for_lem shard.size_bytes c positive in
      let inbox = (seed_file manifest_hash shard file (requests manifest_hash shard n 0)).0 in
      let start : Leecher = record (prepare shard none sidecar inbox) { outbox = want ∷ [] } in
      let blank : nulls shard.size_bytes ≡ front (0 * c) file =
        ap nulls {x = shard.size_bytes} {y = length file - 0} (omega (arith, sized))
        ∙ ap (λ k. front k file) {x = 0} {y = 0 * c} (omega arith) in
      let (st, fetched, (dest, _, _), asked) =
        leech_chunks-fetched retries n 0 file start sized small positive (omega (arith, inside))
          (blank, (λ j h. refl), refl) refl in
      let whole : st.dest ≡ file =
        dest ∙ front_whole ((0 + n) * c) file (omega (arith, enough, sized)) in
      (
        record st { sidecar = [] },
        rw (greeted, fetched)
            (finish-ok st (λ final. ap blake3_hex whole ∙ named final)
              ∙ ap (λ f. ok (record st { sidecar = [] }, blake3_hex f)) whole),
        whole,
        asked,
      )
