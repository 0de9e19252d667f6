-- ===== src/Frames/Tests.antt =====
-- A small frame through both directions, and a frame that ends inside its shape.
use mesh_compute.Prelude.{◌≡◌, refl, [], ◌∷◌, ◌++◌, arith, take, drop, ok, nat_eq, list_eq}
use mesh_compute.Prelude.Int.{pos}
use mesh_compute.Frames.Struct.{unpack, pack_field, pack}
use mesh_compute.Frames.Bounds.{decode-IsBounded, IsBounded}
use mesh_compute.Prelude.Bytes.{from_be, be_bytes, codes, Bytes}
use mesh_compute.Frames.Frame.{
  inflate, dtype_of, class_of, compression_code, dtype_code, class_code, zlib_compression, f16,
  wire_payload, head_values, activation, decode_fields, decode, Frame, encode,
}
use mesh_compute.Sample.{sample_zlib, sample_zlib-IsZlib}
use mesh_compute.Frames.RoundTrip.{decode-encode, received}

abbrev frame : Frame
frame = record {
  packet_class = activation;
  request_id = pos 9;
  session_id = codes "s1";
  step = pos 2;
  microbatch = pos 0;
  tensor_id = pos 3;
  dtype = f16;
  shape = pos 1 ∷ pos 2 ∷ [];
  payload = 10 ∷ 20 ∷ 30 ∷ 40 ∷ [];
  compression = zlib_compression;
  protocol_version = pos 1;
  sid_crc = pos 0;
}

-- The header of that frame: 32 bytes.
abbrev header_bytes : Bytes
header_bytes =
    1 ∷ 1 ∷ 1 ∷ 1 ∷ 0 ∷ 0 ∷ 0 ∷ 2 ∷ 0 ∷ 0 ∷ 0 ∷ 0 ∷ 0 ∷ 0 ∷ 0 ∷ 9 ∷ 0 ∷ 0 ∷ 0 ∷ 2 ∷ 0 ∷ 0 ∷ 0 ∷ 3
    ∷ 2 ∷ 0 ∷ 0 ∷ 5 ∷ 0 ∷ 0 ∷ 0 ∷ 5 ∷ []

abbrev wire : Bytes
wire = header_bytes ++ (0 ∷ 0 ∷ 0 ∷ 1 ∷ 0 ∷ 0 ∷ 0 ∷ 2 ∷ 120 ∷ 10 ∷ 20 ∷ 30 ∷ 40 ∷ [])

-- A frame whose shape is cut off.
abbrev cut : Bytes
cut = header_bytes ++ (0 ∷ 0 ∷ 0 ∷ 1 ∷ [])

program : Unit {0}
unfolding encode decode decode_fields head_values wire_payload pack pack_field unpack be_bytes
    from_be class_code dtype_code compression_code class_of dtype_of inflate take drop received
program = tt

encode-frame : encode sample_zlib frame ≡ ok wire
unfolding program
encode-frame = refl

decode-wire : decode sample_zlib wire ≡ ok (received sample_zlib frame)
unfolding program
decode-wire = refl

decode-encode_example : decode sample_zlib wire ≡ ok (received sample_zlib frame)
decode-encode_example =
    decode-encode sample_zlib frame sample_zlib-IsZlib refl (omega arith) encode-frame

decode-IsBounded_example : IsBounded (received sample_zlib frame)
decode-IsBounded_example = decode-IsBounded sample_zlib wire decode-wire
