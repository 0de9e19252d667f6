-- ===== src/Frames/Bounds.antt =====
-- What holds of every frame that a receiver accepts.
use mesh_compute.Prelude.{
  lt→ltb, ℕ, zero, suc, ◌≤◌, ◌<◌, ◌≡◌, inl, inr, refl, ap, false, List, [], ◌∷◌, map, arith, ltb,
  length, take, drop, ok, err, raise_if, >>=-eq-ok, Result-cases, nat_eq, list_eq, length-take,
}
use mesh_compute.Prelude.Bytes.{Bytes}
use mesh_compute.Frames.Struct.{struct_error, too_short, value_error, calcsize, unpack}
use mesh_compute.Prelude.Int.{pos}
use mesh_compute.Frames.Frame.{
  protocol_version, dtype_of, class_of, fixed, none_compression, words, max_ndim, decode,
  decode_fields, max_payload, inflate, Zlib, Frame,
}

pub record IsBounded (f : Frame) : Type 0 where
  pub payload : length f.payload ≤ max_payload
  pub shape : length f.shape ≤ max_ndim
  pub version : f.protocol_version ≡ pos 1
  pub uncompressed : f.compression ≡ none_compression

length-map : (ns : List ℕ) → length (map pos ns) ≡ length ns
length-map [] = refl
length-map (n ∷ ns) = ap suc (length-map ns)

length-unpack : (n : ℕ) (buf : Bytes) → length (unpack (words n) buf).0 ≡ n
unfolding unpack
length-unpack zero buf = refl
length-unpack (suc n) buf = ap suc (length-unpack n (drop 4 buf))

module _ (z : Zlib) where
  -- Whatever the bytes are, inflating gives no more than the cap.
  inflate_bounded :
      (comp : ℕ) (payload : Bytes) {out : Bytes}
      → length payload ≤ max_payload
      → inflate z comp payload ≡ ok out
      → length out ≤ max_payload
  unfolding inflate
  inflate_bounded comp payload {out} h e = ground arith

  decode_fields-IsBounded :
      (vs : List ℕ) (rest : Bytes) {f : Frame} → decode_fields z vs rest ≡ ok f → IsBounded f
  unfolding decode_fields
  decode_fields-IsBounded
        (pv ∷ pc ∷ dt ∷ comp ∷ sid_crc ∷ rid ∷ step ∷ mb ∷ tid ∷ ndim ∷ res ∷ pcrc ∷ plen ∷ []) rest
        {f} h =
      let behind = (unpack (words ndim) rest).1 in
      elim (Result-cases (inflate z comp (take plen behind))) [
        | inr (e, bad) ↦ absurd (ground arith)
        | inl (body, inflated) ↦ elim (Result-cases (class_of pc)) [
          | inr (e, bad) ↦ absurd (ground arith)
          | inl (c, classed) ↦ elim (Result-cases (dtype_of dt)) [
            | inr (e, bad) ↦ absurd (ground arith)
            | inl (d, typed) ↦ record {
              payload = ground (
                arith,
                inflate_bounded comp (take plen behind) {out = body},
                length-take plen behind,
              );
              shape =
                  ground (arith, length-map (unpack (words ndim) rest).0, length-unpack ndim rest);
              version = ground arith;
              uncompressed = ground arith;
            }
          ]
        ]
      ]
  decode_fields-IsBounded vs rest h = cc

  -- Every accepted frame has a payload under the cap, also after decompression, at most eight
  -- dimensions, the protocol version in use, and no compression left, whatever bytes arrived.
  pub decode-IsBounded : (buf : Bytes) {f : Frame} → decode z buf ≡ ok f → IsBounded f
  unfolding decode
  decode-IsBounded buf h =
      let (u, long_enough, more) =
        >>=-eq-ok (raise_if (ltb (length buf) (calcsize fixed)) (value_error too_short)) _ h in
      decode_fields-IsBounded (unpack fixed buf).0 (unpack fixed buf).1 more

  -- A header with a supported version that claims up to eight dimensions, and behind which fewer
  -- bytes come than its shape takes, makes `decode` raise `struct.error`, which is no `ValueError`.
  pub decode-struct_error :
      (buf rest : Bytes) (pc dt comp sid rid step mb tid ndim res pcrc plen : ℕ)
      → calcsize fixed ≤ length buf
      → unpack fixed buf ≡ (
        protocol_version ∷ pc ∷ dt ∷ comp ∷ sid ∷ rid ∷ step ∷ mb ∷ tid ∷ ndim ∷ res ∷ pcrc ∷ plen
            ∷ [],
        rest,
      )
      → ndim ≤ max_ndim
      → plen ≤ max_payload
      → length rest < calcsize (words ndim)
      → decode z buf ≡ err struct_error
  unfolding decode decode_fields
  decode-struct_error buf rest pc dt comp sid rid step mb tid ndim res pcrc plen long e dims cap
        short =
      let start : ltb (length buf) (calcsize fixed) ≡ false = ground arith in
      let many : ltb max_ndim ndim ≡ false = ground arith in
      let large : ltb max_payload plen ≡ false = ground arith in
      rw (start, e, many, large, lt→ltb _ _ short)
