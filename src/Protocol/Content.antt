-- ===== src/Protocol/Content.antt =====
-- packages/protocol/meshcompute_protocol/content.py: a chunk id binds the manifest, the path, the
-- offset and the bytes.
use mesh_compute.Prelude.{ℕ, Bool, ◌∷◌, ◌++◌, ◌==◌, nat_eq, list_eq}
use mesh_compute.Prelude.Bytes.{Bytes, Str, be_bytes}
use mesh_compute.Protocol.Identity.{Crypto, blake3_hex}

-- What is hashed: the fields with a zero byte between them. `manifest_hash` and `file_path` are
-- given as their UTF-8 bytes.
unfoldable pub chunk_preimage : Str → Str → ℕ → Bytes → Bytes
chunk_preimage manifest_hash file_path offset chunk_bytes =
    manifest_hash ++ (0 ∷ (file_path ++ (0 ∷ (be_bytes 8 offset ++ (0 ∷ chunk_bytes)))))

module _ ⦃cr : Crypto⦄ where
  unfoldable pub chunk_id : Str → Str → ℕ → Bytes → Str
  chunk_id manifest_hash file_path offset chunk_bytes =
      blake3_hex (chunk_preimage manifest_hash file_path offset chunk_bytes)

  unfoldable pub verify_chunk : Str → Str → Str → ℕ → Bytes → Bool
  verify_chunk expected_id manifest_hash file_path offset chunk_bytes =
      chunk_id manifest_hash file_path offset chunk_bytes == expected_id
