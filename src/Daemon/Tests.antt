-- ===== src/Daemon/Tests.antt =====
-- Two frames on a stream, a stream that the dispatcher queues, an answer of a STUN server, and a fetch.
use mesh_compute.Swarm.Seeder.{Shard}
use mesh_compute.Daemon.Fetch.{Round, Disk, fetch, to_origin, try_seeders}
use mesh_compute.Daemon.Fetched.{IsOutcome, fetch-IsOutcome}
use mesh_compute.Prelude.{
  ℕ, true, ◌^◌, Option, ◌<◌, Elem, List, length, ◌≡◌, refl, none, some, [], ◌∷◌, ◌++◌, arith, take,
  drop, ok, nat_eq, list_eq, list_beq,
}
use mesh_compute.Prelude.Int.{pos}
use mesh_compute.Prelude.Bytes.{codes, Bytes, be_bytes, from_be}
use mesh_compute.Frames.Struct.{pack, pack_field, unpack}
use mesh_compute.Frames.Frame.{
  Frame, token_result, encode, decode, decode_fields, head_values, wire_payload, class_code,
  dtype_code, compression_code, class_of, dtype_of, inflate,
}
use mesh_compute.Frames.RoundTrip.{received}
use mesh_compute.Swarm.Seeder.{plain_frame}
use mesh_compute.Sample.{nat_floats, sample_crypto, sample_zlib, sample_zlib-IsZlib}
use mesh_compute.Daemon.Wire.{
  Stream, enqueued, ping, rtt, is_control, pong, judge_pong, dispatch_stream, dispatch_frame,
  read_frame, read_body, write_frame, send_frames, recv_frame, recv_frames,
}
use mesh_compute.Daemon.Delivered.{recv_frames-send_frames}
use mesh_compute.Daemon.Stun.{
  address_text, mapped_address, xor_bytes, read_attributes, parse_binding_response,
  discover_reflexive,
}
use mesh_compute.Daemon.Attributes.{
  Attribute, attribute_bytes, attributes_bytes, read_attributes_fuel,
}
use mesh_compute.Daemon.Masks.{xor_attribute}
use mesh_compute.Daemon.Responses.{binding_response}
use mesh_compute.Daemon.Reflexive.{parse_binding_response-reflexive}
use mesh_compute.Daemon.Answers.{IsAnswer, discover_reflexive-IsAnswer}

program : Unit {0}
unfolding encode decode decode_fields head_values wire_payload pack pack_field unpack be_bytes
    from_be class_code dtype_code compression_code class_of dtype_of inflate take drop received
    read_frame read_body write_frame send_frames recv_frame recv_frames is_control dispatch_frame
    dispatch_stream pong rtt judge_pong list_beq
program = tt

abbrev token : Frame
token = plain_frame token_result (pos 5) (7 ∷ 8 ∷ 9 ∷ [])

abbrev token_wire : Bytes
token_wire =
    0 ∷ 0 ∷ 0 ∷ 35 ∷ 1 ∷ 3 ∷ 255 ∷ 0 ∷ 0 ∷ 0 ∷ 0 ∷ 0 ∷ 0 ∷ 0 ∷ 0 ∷ 0 ∷ 0 ∷ 0 ∷ 0 ∷ 5 ∷ 0 ∷ 0 ∷ 0 ∷ 0
    ∷ 0 ∷ 0 ∷ 0 ∷ 0 ∷ 0 ∷ 0 ∷ 0 ∷ 3 ∷ 0 ∷ 0 ∷ 0 ∷ 3 ∷ 7 ∷ 8 ∷ 9 ∷ []

abbrev ping_wire : Bytes
ping_wire =
    0 ∷ 0 ∷ 0 ∷ 36 ∷ 1 ∷ 0 ∷ 255 ∷ 0 ∷ 0 ∷ 0 ∷ 0 ∷ 0 ∷ 0 ∷ 0 ∷ 0 ∷ 0 ∷ 0 ∷ 0 ∷ 0 ∷ 0 ∷ 0 ∷ 0 ∷ 0 ∷ 0
    ∷ 0 ∷ 0 ∷ 0 ∷ 0 ∷ 0 ∷ 0 ∷ 0 ∷ 4 ∷ 0 ∷ 0 ∷ 0 ∷ 4 ∷ 80 ∷ 73 ∷ 78 ∷ 71 ∷ []

abbrev wire : Bytes
wire = token_wire ++ ping_wire

send_frames-wire : send_frames sample_zlib (token ∷ ping ∷ []) ≡ ok wire
unfolding program
send_frames-wire = refl

recv_frames-send_frames_example :
    recv_frames sample_zlib 2 (record { reader = wire ++ 1 ∷ []; preloaded = none })
    ≡ ok (received sample_zlib token) ∷ ok (received sample_zlib ping) ∷ []
recv_frames-send_frames_example =
    recv_frames-send_frames sample_zlib (token ∷ ping ∷ []) (1 ∷ []) sample_zlib-IsZlib
      ((refl, omega arith), ((refl, omega arith), tt)) send_frames-wire

-- The stream that is enqueued when the token comes first.
abbrev opened_stream : Stream
opened_stream = record { reader = ping_wire; preloaded = some (received sample_zlib token) }

dispatch_stream-opened : dispatch_stream sample_zlib wire ≡ enqueued opened_stream
unfolding program
dispatch_stream-opened = refl

abbrev txn_id : Bytes
txn_id = 1 ∷ 2 ∷ 3 ∷ 4 ∷ 5 ∷ 6 ∷ 7 ∷ 8 ∷ 9 ∷ 10 ∷ 11 ∷ 12 ∷ []

-- 203.0.113.42
abbrev addr : Bytes
addr = 203 ∷ 0 ∷ 113 ∷ 42 ∷ []

-- SOFTWARE, of five bytes with three of padding.
abbrev software : Attribute
software = record { atype = 0x8022; value = codes "mesh1" }

abbrev mapped : Attribute
mapped = record { atype = mapped_address; value = 0 ∷ 1 ∷ 0 ∷ 80 ∷ 10 ∷ 0 ∷ 0 ∷ 1 ∷ [] }

abbrev response : Bytes
response = binding_response txn_id (software ∷ xor_attribute addr 51820 ∷ mapped ∷ [])

response_size :
    length (attributes_bytes (software ∷ xor_attribute addr 51820 ∷ mapped ∷ [])) < 256 ^ 2
unfolding attribute_bytes be_bytes xor_bytes
response_size = omega arith

parse_binding_response-reflexive_example :
    parse_binding_response response txn_id ≡ some (address_text addr 51820)
parse_binding_response-reflexive_example =
    parse_binding_response-reflexive txn_id addr 51820 (software ∷ []) (mapped ∷ []) refl refl
      (omega arith) ((omega arith, omega arith), tt) ((omega arith, omega arith), tt) (refl, tt)
      response_size

abbrev servers : List (Bytes × Option Bytes)
servers = (txn_id, none) ∷ (txn_id, some response) ∷ []

discover-servers : discover_reflexive servers ≡ some (address_text addr 51820)
unfolding discover_reflexive
discover-servers = rw parse_binding_response-reflexive_example refl

discover_reflexive-IsAnswer_example :
    (t : Bytes) × (d : Bytes) × Elem (t, some d) servers
    × IsAnswer t d
    × (parse_binding_response d t ≡ some (address_text addr 51820))
discover_reflexive-IsAnswer_example = discover_reflexive-IsAnswer servers discover-servers

read_attributes_fuel_example :
    read_attributes 2 [] (0 ∷ []) (record { mapped = none; xor_mapped = none })
    ≡ read_attributes 1 [] (0 ∷ []) (record { mapped = none; xor_mapped = none })
read_attributes_fuel_example =
    read_attributes_fuel 2 1 [] (0 ∷ []) (record { mapped = none; xor_mapped = none }) (omega arith)
      (omega arith)

abbrev file_shard : Shard
file_shard = record {
  rfilename = codes "m.gguf";
  size_bytes = 4;
  chunk_bytes = 2;
  artifact_root_hash = codes "PENDING";
}

-- First another node leads, and then this one.
abbrev rounds : List (Round ℕ)
rounds =
    record {
      answer =
          some
            (record { peers = []; your_reflexive_addr = none; origin_leader = some (codes "b") });
      attempts = λ peer. [];
      clock = 5;
    }
    ∷ record {
      answer =
          some
            (record { peers = []; your_reflexive_addr = none; origin_leader = some (codes "a") });
      attempts = λ peer. [];
      clock = 9;
    }
    ∷ []

abbrev empty_disk : Disk
empty_disk = record { file = none; sidecar = [] }

fetch-IsOutcome_example :
    IsOutcome
      (codes "h")
      file_shard
      (λ bytes. true)
      ping
      (codes "a")
      60
      rounds
      (fetch (codes "h") file_shard (λ bytes. true) ping (codes "a") 60 rounds empty_disk)
fetch-IsOutcome_example =
    fetch-IsOutcome (codes "h") file_shard (λ bytes. true) ping (codes "a") 60 rounds empty_disk

fetch-rounds :
    fetch (codes "h") file_shard (λ bytes. true) ping (codes "a") 60 rounds empty_disk
    ≡ (empty_disk, to_origin)
unfolding fetch try_seeders list_beq
fetch-rounds = refl
