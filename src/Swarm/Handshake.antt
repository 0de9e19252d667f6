-- ===== src/Swarm/Handshake.antt =====
-- `serve_chunk_stream` of node/runtime/meshcompute_runtime/swarm.py: the seeder's side of the
-- handshake. How the greeting's JSON is read is an argument.
use mesh_compute.Prelude.{
  ℕ, Bool, not, ◌&&◌, ◌||◌, Option, none, some, List, [], ◌∷◌, if◌then◌else◌, nat_beq, ◌==◌, nat_eq,
  list_eq,
}
use mesh_compute.Prelude.Bytes.{codes, Str, Bytes}
use mesh_compute.Prelude.Int.{ℤ}
use mesh_compute.Protocol.Identity.{Crypto}
use mesh_compute.Frames.Frame.{Frame, control, class_code}
use mesh_compute.Swarm.Seeder.{Shard, plain_frame, seed_file}

-- What the greeting asks for; `is_want` is `want.get("op") == "want"`.
pub record Want : Type 0 where
  pub manifest_hash : Str
  pub rfilename : Str
  pub is_want : Bool

-- An entry of the index, with the bytes of its file.
pub record Indexed : Type 0 where
  pub manifest_hash : Str
  pub name : Str
  pub shard : Shard
  pub file : Bytes

-- `index.get(key)`
unfoldable pub hit : Want → List Indexed → Option Indexed
hit want [] = none
hit want (entry ∷ index) =
    let later = hit want index in
    if want.manifest_hash == entry.manifest_hash && want.rfilename == entry.name
    then some entry
    else later

abbrev pub have : ℤ → Frame
have rid = plain_frame control rid (codes "{\"op\": \"have\"}")

abbrev pub nack : ℤ → Frame
nack rid = plain_frame control rid (codes "{\"op\": \"nack\"}")

module _ ⦃cr : Crypto⦄ where
  abbrev pub serve_hit : Frame → Want → List Frame → Option Indexed → List Frame × ℕ
  serve_hit hello want requests none = (nack hello.request_id ∷ [], 0)
  serve_hit hello want requests (some entry) =
      let (answers, served) = seed_file want.manifest_hash entry.shard entry.file requests in
      if not (nat_beq (class_code hello.packet_class) 0) || not want.is_want
      then (nack hello.request_id ∷ [], 0)
      else (have hello.request_id ∷ answers, served)

  abbrev pub serve_want : List Indexed → Frame → List Frame → Option Want → List Frame × ℕ
  serve_want index hello requests none = ([], 0)
  serve_want index hello requests (some want) = serve_hit hello want requests (hit want index)

  -- The frames that are sent, and the number of bytes served.
  unfoldable pub serve_chunk_stream :
      (Bytes → Option Want) → List Indexed → List Frame → List Frame × ℕ
  serve_chunk_stream read_want index [] = ([], 0)
  serve_chunk_stream read_want index (hello ∷ requests) =
      serve_want index hello requests (read_want hello.payload)
