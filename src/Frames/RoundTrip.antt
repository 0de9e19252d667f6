-- ===== src/Frames/RoundTrip.antt =====
-- What is encoded is decoded again.
use mesh_compute.Prelude.{
  ◌+◌, ◌%◌, ◌^◌, ◌≤◌, ◌≡◌, refl, sym, subst, false, [], ◌++◌, map, arith, ltb, length, ok, raise_if,
  >>=-eq-ok, nat_eq, list_eq, length-append, take-length,
}
use mesh_compute.Frames.Struct.{
  calcsize, unpack-pack_values, ndim_exceeds, payload_exceeds, pack, value_error,
}
use mesh_compute.Prelude.Bytes.{Bytes}
use mesh_compute.Prelude.Int.{pos_part, pos}
use mesh_compute.Frames.Frame.{
  work_receipt, cancel, raw, telemetry, model_chunk, u8, token_result, i32, kv_op, bf16, f16,
  activation, f32, control, fixed, words, max_ndim, max_payload, IsZlib, wire_payload,
  compression_code, none_compression, Dtype, head_values, PacketClass, decode, decode_fields,
  class_code, encode, Frame, inflate, dtype_code, dtype_of, class_of, Zlib,
}

class_of-class_code : (c : PacketClass) → class_of (class_code c) ≡ ok c
unfolding class_of class_code
class_of-class_code control = refl
class_of-class_code activation = refl
class_of-class_code kv_op = refl
class_of-class_code token_result = refl
class_of-class_code model_chunk = refl
class_of-class_code telemetry = refl
class_of-class_code cancel = refl
class_of-class_code work_receipt = refl

dtype_of-dtype_code : (d : Dtype) → dtype_of (dtype_code d) ≡ ok d
unfolding dtype_of dtype_code
dtype_of-dtype_code f32 = refl
dtype_of-dtype_code f16 = refl
dtype_of-dtype_code bf16 = refl
dtype_of-dtype_code i32 = refl
dtype_of-dtype_code u8 = refl
dtype_of-dtype_code raw = refl

module _ (z : Zlib) where
  -- What a receiver has of a frame: the payload uncompressed, and of the session id its CRC only.
  unfoldable pub received : Frame → Frame
  received f = record f {
    session_id = [];
    compression = none_compression;
    sid_crc = pos (z.crc32 f.session_id % 2 ^ 32);
  }

  inflate-wire_payload :
      IsZlib z
      → (f : Frame) → length f.payload ≤ max_payload
      → inflate z (compression_code f.compression) (wire_payload z f) ≡ ok f.payload
  unfolding inflate compression_code wire_payload
  inflate-wire_payload laws f h =
      ground (arith, laws.decompress-compress f.payload (max_payload + 1))

  decode_fields-received :
      (f : Frame) (shape_bytes : Bytes)
      → IsZlib z
      → length f.payload ≤ max_payload
      → f.protocol_version ≡ pos 1
      → head_values z f ≡ map pos (map pos_part (head_values z f))
      → pack (words (length f.shape)) f.shape ≡ ok shape_bytes
      → length (wire_payload z f) ≤ max_payload
      → length f.shape ≤ max_ndim
      → decode_fields z (map pos_part (head_values z f)) (shape_bytes ++ wire_payload z f)
        ≡ ok (received f)
  unfolding decode_fields head_values received
  decode_fields-received f shape_bytes laws fits version values packed small dims =
      let (shape_values, reads, size) =
        unpack-pack_values (words (length f.shape)) f.shape (wire_payload z f) packed in
      let rid : pos (pos_part f.request_id) ≡ f.request_id = sym (cc values) in
      let step : pos (pos_part f.step) ≡ f.step = sym (cc values) in
      let mb : pos (pos_part f.microbatch) ≡ f.microbatch = sym (cc values) in
      let tid : pos (pos_part f.tensor_id) ≡ f.tensor_id = sym (cc values) in
      ground (
        arith,
        reads,
        sym shape_values,
        rid,
        step,
        mb,
        tid,
        take-length (wire_payload z f),
        class_of-class_code f.packet_class,
        dtype_of-dtype_code f.dtype,
        inflate-wire_payload laws f fits,
        length-append shape_bytes (wire_payload z f),
        size,
      )

  -- A frame that encodes, at the protocol version in use and with a payload under the cap,
  -- decodes to the frame as it was sent, but for the session id, of which the CRC arrives, and
  -- the compression, which is undone.
  pub decode-encode :
      (f : Frame) {buf : Bytes}
      → IsZlib z
      → f.protocol_version ≡ pos 1
      → length f.payload ≤ max_payload
      → encode z f ≡ ok buf
      → decode z buf ≡ ok (received f)
  unfolding encode decode
  decode-encode f {buf} laws version fits h =
      let (u, under_cap, h1) =
        >>=-eq-ok
          (raise_if (ltb max_payload (length (wire_payload z f))) (value_error payload_exceeds)) _
          h in
      let (u', under_dims, h2) =
        >>=-eq-ok (raise_if (ltb max_ndim (length f.shape)) (value_error ndim_exceeds)) _ h1 in
      let (head, packed, h3) = >>=-eq-ok (pack fixed (head_values z f)) _ h2 in
      let (shape_bytes, shape_packed, built) =
        >>=-eq-ok (pack (words (length f.shape)) f.shape) _ h3 in
      let (values, reads, size) =
        unpack-pack_values fixed (head_values z f) (shape_bytes ++ wire_payload z f) packed in
      let long_enough : ltb (length (head ++ (shape_bytes ++ wire_payload z f))) (calcsize fixed)
          ≡ false =
        ground (arith, length-append head (shape_bytes ++ wire_payload z f), size) in
      let decoded : decode z (head ++ (shape_bytes ++ wire_payload z f)) ≡ ok (received f) =
        rw (long_enough, reads)
          (decode_fields-received f shape_bytes laws fits version values shape_packed (ground arith)
            (ground arith)) in
      subst (λ b. decode z b ≡ ok (received f)) (cc built) decoded
