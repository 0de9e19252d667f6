-- ===== src/Swarm/Exchange.antt =====
-- `seed_file` and `leech_file` together: what a seeder answers to the request of a leecher.
use mathlib.Core.List.{append_assoc, append-nil}
use mesh_compute.Prelude.{
  take_prefix, drop_prefix, ℕ, ◌*◌, ◌%◌, ◌^◌, ◌<◌, ◌≡◌, refl, sym, ap, ◌∙◌, true, false, some, List,
  [], ◌∷◌, ◌++◌, arith, ltb, leb, nat_beq, length, take, drop, nat_eq, list_eq, beq_self,
  length-append, length-drop, length-take,
}
use mesh_compute.Prelude.Int.{ℤ}
use mesh_compute.Protocol.Content.{chunk_id, chunk_preimage, verify_chunk}
use mesh_compute.Frames.Frame.{model_chunk, class_code, Frame}
use mesh_compute.Frames.Struct.{from_be-be_bytes}
use mesh_compute.Swarm.Seeder.{
  Shard, plain_frame, is_model_chunk, read_at, chunk_length, requested, chunk_frame, serve,
  seed_file,
}
use mesh_compute.Prelude.Bytes.{Bytes, Str, from_be, be_bytes, length-be_bytes, hex}
use mesh_compute.Protocol.Identity.{blake3_hex, Crypto, IsCrypto}
use mesh_compute.Swarm.Leecher.{accepted}

length-read_at :
    (shard : Shard) (offset : ℕ) (file : Bytes)
    → length file ≡ shard.size_bytes
    → length (read_at offset (chunk_length shard offset) file) ≡ chunk_length shard offset
length-read_at shard offset file sized =
    let cut = length-take (chunk_length shard offset) (drop offset file) in
    let left = length-drop offset file in ground (arith, cut, left, sized)

length-hex : (bs : Bytes) → length (hex bs) ≡ 2 * length bs
unfolding hex
length-hex [] = refl
length-hex (b ∷ bs) = omega (arith, length-hex bs)

chunk_id-length :
    ⦃cr : Crypto⦄ (laws : IsCrypto cr) (manifest_hash path : Str) (offset : ℕ) (chunk : Bytes)
    → length (chunk_id manifest_hash path offset chunk) ≡ 64
unfolding chunk_id blake3_hex
chunk_id-length ⦃cr⦄ laws manifest_hash path offset chunk =
    let bytes = chunk_preimage manifest_hash path offset chunk in
    omega (arith, length-hex (cr.blake3 bytes), laws.digest_length bytes)

module _ ⦃cr : Crypto⦄ (laws : IsCrypto cr) (manifest_hash : Str) (shard : Shard) where
  chunk_frame-accepted :
      (rid : ℤ) (offset : ℕ) (chunk : Bytes)
      → offset < 256 ^ 8
      → length chunk ≡ chunk_length shard offset
      → accepted manifest_hash shard offset (chunk_frame manifest_hash shard rid offset chunk)
        ≡ some (chunk_id manifest_hash shard.rfilename offset chunk, chunk)
  unfolding accepted chunk_frame is_model_chunk class_code verify_chunk
  chunk_frame-accepted rid offset chunk small sized =
      let cid = chunk_id manifest_hash shard.rfilename offset chunk in
      let at8 = length-be_bytes 8 offset in
      let at64 : length cid ≡ 64 =
        chunk_id-length laws manifest_hash shard.rfilename offset chunk in
      let head = be_bytes 8 offset in
      let whole : ltb (length (head ++ (cid ++ chunk))) 72 ≡ false =
        ground (arith, length-append head (cid ++ chunk), length-append cid chunk, at8, at64) in
      let named : take 64 (drop 8 (head ++ (cid ++ chunk))) ≡ cid =
        ap (take 64) (drop_prefix 8 head (cid ++ chunk) at8) ∙ take_prefix 64 cid chunk at64 in
      let rest : drop 72 (head ++ (cid ++ chunk)) ≡ chunk =
        ap (drop 72) (sym (append_assoc head cid chunk))
        ∙ drop_prefix 72 (head ++ cid) chunk (omega (arith, length-append head cid, at8, at64)) in
      let back : from_be 0 (take 8 (head ++ (cid ++ chunk))) ≡ offset =
        ap (from_be 0) (take_prefix 8 head (cid ++ chunk) at8) ∙ from_be-be_bytes 8 offset small in
      let same_offset : nat_beq offset offset ≡ true = ground arith in
      let same_length : nat_beq (length chunk) (chunk_length shard offset) ≡ true =
        ground (arith, sized) in
      rw (whole, named, rest, back, same_offset, same_length, beq_self cid) refl

  requested-ask :
      (rid : ℤ) (offset : ℕ)
      → offset < 256 ^ 8
      → offset < shard.size_bytes
      → offset % shard.chunk_bytes ≡ 0
      → requested shard (plain_frame model_chunk rid (be_bytes 8 offset)) ≡ some offset
  unfolding requested is_model_chunk class_code
  requested-ask rid offset small inside aligned =
      let at8 = length-be_bytes 8 offset in
      let field : take 8 (be_bytes 8 offset ++ []) ≡ be_bytes 8 offset =
        take_prefix 8 (be_bytes 8 offset) [] at8 in
      let whole : ltb (length (be_bytes 8 offset)) 8 ≡ false = ground (arith, at8) in
      let back : from_be 0 (take 8 (be_bytes 8 offset)) ≡ offset =
        ap (λ bs. from_be 0 (take 8 bs)) (sym (append-nil (be_bytes 8 offset)))
        ∙ ap (from_be 0) field
        ∙ from_be-be_bytes 8 offset small in
      let before : leb shard.size_bytes offset ≡ false = ground (arith, inside) in
      let on_edge : nat_beq (offset % shard.chunk_bytes) 0 ≡ true = ground (arith, aligned) in
      rw (whole, back, before, on_edge) refl

  -- A seeder that holds a file of the manifest's size answers the request of a leecher for a chunk
  -- inside it, at a multiple of the chunk size and below 2 ^ 64, with a frame that the leecher
  -- accepts, and what it accepts is the bytes of the file there, under their chunk id.
  pub seed_file-accepted :
      (file : Bytes) (rid : ℤ) (offset : ℕ) (reqs : List Frame)
      → length file ≡ shard.size_bytes
      → offset < 256 ^ 8
      → offset < shard.size_bytes
      → offset % shard.chunk_bytes ≡ 0
      → (resp : Frame) × ((seed_file manifest_hash shard file
            (plain_frame model_chunk rid (be_bytes 8 offset) ∷ reqs)).0
          ≡ resp ∷ (seed_file manifest_hash shard file reqs).0)
        × (accepted manifest_hash shard offset resp
            ≡ some (
              chunk_id manifest_hash shard.rfilename offset
                  (read_at offset (chunk_length shard offset) file),
              read_at offset (chunk_length shard offset) file,
            ))
  unfolding seed_file serve
  seed_file-accepted file rid offset reqs sized small inside aligned =
      let chunk = read_at offset (chunk_length shard offset) file in
      (
        chunk_frame manifest_hash shard rid offset chunk,
        rw (requested-ask rid offset small inside aligned) refl,
        chunk_frame-accepted rid offset chunk small (length-read_at shard offset file sized),
      )
