-- ===== src/Swarm/Digest.antt =====
-- What `leech_file` promises of the file that it returns.
use mesh_compute.Prelude.{
  ℕ, zero, suc, ◌+◌, ◌-◌, ◌*◌, ◌≤◌, ◌≡◌, inl, inr, refl, sym, ap, subst, ◌∙◌, Bool, false, not,
  ◌&&◌, ◌||◌, Option, none, some, List, [], ◌∷◌, ◌++◌, arith, ltb, nat_beq, Bool-cases,
  Option-cases, length, take, drop, ok, >>=-eq-ok, ◌==◌, nat_eq, list_eq, beq→eq, length-append,
  length-drop, length-take,
}
use mesh_compute.Protocol.Content.{verify_chunk}
use mesh_compute.Prelude.Dict.{lookup, erase, Dict}
use mesh_compute.Frames.Frame.{Frame}
use mesh_compute.Swarm.Seeder.{is_model_chunk, chunk_length, Shard}
use mesh_compute.Prelude.Bytes.{from_be, Bytes, Str}
use mesh_compute.Protocol.Identity.{blake3_hex, Crypto}
use mesh_compute.Swarm.Leecher.{
  greeting, intact, commit, is_pending, num_chunks_for, prepare, Leeching, handshake, nulls,
  leech_chunk, leech_chunks, finish, judge, respond, accepted, attempt, Leecher, write_at,
  leech_file,
}

length-write_at :
    (offset : ℕ) (bytes file : Bytes)
    → length bytes ≤ length file - offset
    → length (write_at offset bytes file) ≡ length file
unfolding write_at
length-write_at offset bytes file h = omega (
  arith,
  length-append (take offset file) (bytes ++ drop (offset + length bytes) file),
  length-append bytes (drop (offset + length bytes) file),
  length-take offset file,
  length-drop (offset + length bytes) file,
  h,
)

length-nulls : (n : ℕ) → length (nulls n) ≡ n
length-nulls zero = refl
length-nulls (suc n) = ap suc (length-nulls n)

module _ ⦃cr : Crypto⦄ (manifest_hash : Str) (shard : Shard) where
  -- An accepted response is as long as the chunk, and is the chunk that its own id names.
  accepted-length :
      (offset : ℕ) (resp : Frame) {cid : Str} {chunk : Bytes}
      → accepted manifest_hash shard offset resp ≡ some (cid, chunk)
      → length chunk ≡ chunk_length shard offset
  unfolding accepted
  accepted-length offset resp {cid} {chunk} e =
      elim (Bool-cases (not (is_model_chunk resp) || ltb (length resp.payload) 72)) [
        | inl other ↦ absurd (let e2 = rw other at e in cc)
        | inr whole ↦
            let body = drop 72 resp.payload in
            elim (Bool-cases (
              nat_beq (from_be 0 (take 8 resp.payload)) offset
              && nat_beq (length body) (chunk_length shard offset)
              && verify_chunk (take 64 (drop 8 resp.payload)) manifest_hash shard.rfilename offset
                  body)) [
                    | inr wrong ↦ absurd (let e2 = rw (whole, wrong) at e in cc)
                    | inl right ↦
                        let same : body ≡ chunk = (let e2 = rw (whole, right) at e in cc) in
                        ap length (sym same) ∙ ground arith
                  ]
      ]

  abbrev IsSized : Leecher → Type 0
  IsSized st = length st.dest ≡ shard.size_bytes

  abbrev IsFetched : ℕ → (Str × Bytes) × Leecher → Type 0
  IsFetched offset got = IsSized got.1 × (length got.0.1 ≡ chunk_length shard offset)

  respond-IsFetched :
      (later : Leecher → Leeching ((Str × Bytes) × Leecher)) (offset : ℕ) (st : Leecher)
      (inbox : List Frame) {got : (Str × Bytes) × Leecher}
      → IsSized st
      → ((st2 : Leecher) → IsSized st2 → later st2 ≡ ok got → IsFetched offset got)
      → respond manifest_hash shard later offset st inbox ≡ ok got
      → IsFetched offset got
  unfolding respond judge
  respond-IsFetched later offset st [] s k e = cc
  respond-IsFetched later offset st (resp ∷ inbox) {got} s k e =
      elim (Option-cases (accepted manifest_hash shard offset resp)) [
        | inl refused ↦ k (record st { inbox = inbox }) s (rw refused at e)
        | inr ((cid, chunk), good) ↦
            let same : ((cid, chunk), record st { inbox = inbox }) ≡ got =
              (let e2 = rw good at e in cc) in
            subst (IsFetched offset) same (s, accepted-length offset resp good)
      ]

  attempt-IsFetched :
      (offset n : ℕ) (st : Leecher) {got : (Str × Bytes) × Leecher}
      → IsSized st
      → attempt manifest_hash shard offset n st ≡ ok got
      → IsFetched offset got
  unfolding attempt
  attempt-IsFetched offset zero st s e = cc
  attempt-IsFetched offset (suc n) st s e =
      respond-IsFetched _ offset _ st.inbox s (λ st2 s2 e2. attempt-IsFetched offset n st2 s2 e2) e

  leech_chunk-IsSized :
      (retries idx : ℕ) (st : Leecher) {st2 : Leecher}
      → IsSized st
      → leech_chunk manifest_hash shard retries idx st ≡ ok st2
      → IsSized st2
  unfolding leech_chunk commit
  leech_chunk-IsSized retries idx st {st2} s e =
      let offset = idx * shard.chunk_bytes in
      let from = record st { progress = erase offset st.progress } in
      elim (Bool-cases (intact manifest_hash shard offset st.dest (lookup offset st.progress))) [
        | inl kept ↦ subst IsSized {x = st} {y = st2} (let e2 = rw kept at e in cc) s
        | inr gone ↦
            let (got, fetched, written) =
              >>=-eq-ok (attempt manifest_hash shard offset retries from)
                (λ got. ok (commit manifest_hash shard offset got)) (rw gone at e) in
            let (sized, fits) = attempt-IsFetched offset retries from s fetched in
            subst IsSized {x = commit manifest_hash shard offset got} {y = st2} (cc written)
              (length-write_at offset got.0.1 got.1.dest (omega (arith, sized, fits)) ∙ sized)
      ]

  leech_chunks-IsSized :
      (retries n idx : ℕ) (st : Leecher) {st2 : Leecher}
      → IsSized st
      → leech_chunks manifest_hash shard retries n idx st ≡ ok st2
      → IsSized st2
  unfolding leech_chunks
  leech_chunks-IsSized retries zero idx st {st2} s e = subst IsSized {x = st} {y = st2} (cc e) s
  leech_chunks-IsSized retries (suc n) idx st s e =
      let (st3, first, rest) = >>=-eq-ok (leech_chunk manifest_hash shard retries idx st) _ e in
      leech_chunks-IsSized retries n (idx + 1) st3 (leech_chunk-IsSized retries idx st s first) rest

  prepare-IsSized :
      (file : Option Bytes) (sidecar : Dict ℕ Str) (inbox : List Frame)
      → IsSized (prepare shard file sidecar inbox)
  unfolding prepare
  prepare-IsSized none sidecar inbox = length-nulls shard.size_bytes
  prepare-IsSized (some file) sidecar inbox =
      elim (Bool-cases (nat_beq (length file) shard.size_bytes)) [
        | inl same ↦ rw same (ground arith)
        | inr other ↦ rw other (length-nulls shard.size_bytes)
      ]

  -- What the caller is given.
  abbrev pub IsWhole : Leecher × Str → Type 0
  IsWhole out =
      IsSized out.0
      × (out.1 ≡ blake3_hex out.0.dest)
      × (is_pending shard.artifact_root_hash ≡ false → out.1 ≡ shard.artifact_root_hash)
      × (out.0.sidecar ≡ [])

  finish-IsWhole :
      (st : Leecher) {out : Leecher × Str}
      → IsSized st
      → finish manifest_hash shard st ≡ ok out
      → IsWhole out
  unfolding finish
  finish-IsWhole st {out} s e =
      let digest = blake3_hex st.dest in
      elim (Bool-cases
        (not (is_pending shard.artifact_root_hash) && not (digest == shard.artifact_root_hash))) [
          | inl wrong ↦ absurd (let e2 = rw wrong at e in cc)
          | inr right ↦
              let same : (record st { sidecar = [] }, digest) ≡ out =
                (let e2 = rw right at e in cc) in
              subst IsWhole same
                (s, refl, (λ final. beq→eq digest shard.artifact_root_hash (ground arith)), refl)
        ]

  -- When `leech_file` returns a digest, whatever the peer sent and whatever was on disk, the file
  -- has the size of the manifest, the digest is that of the file, it is the one of the manifest
  -- unless the manifest's is pending, and no sidecar is left.
  pub leech_file-IsWhole :
      (says_have : Bytes → Bool) (want : Frame) (retries : ℕ) (file : Option Bytes)
      (sidecar : Dict ℕ Str) (inbox : List Frame) {out : Leecher × Str}
      → leech_file manifest_hash shard says_have want retries file sidecar inbox ≡ ok out
      → IsWhole out
  unfolding leech_file
  leech_file-IsWhole says_have want retries file sidecar inbox e =
      let (st, greeted, rest) =
        >>=-eq-ok (handshake manifest_hash shard says_have (greeting want file sidecar inbox) inbox)
          _ e in
      let n = num_chunks_for shard.size_bytes shard.chunk_bytes in
      let start = record (prepare shard file sidecar st.inbox) { outbox = st.outbox } in
      let (st2, fetched, done) =
        >>=-eq-ok (leech_chunks manifest_hash shard retries n 0 start) _ rest in
      let sized : IsSized start = prepare-IsSized file sidecar st.inbox in
      finish-IsWhole st2 (leech_chunks-IsSized retries n 0 start sized fetched) done
