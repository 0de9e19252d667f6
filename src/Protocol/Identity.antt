-- ===== src/Protocol/Identity.antt =====
-- packages/protocol/meshcompute_protocol/identity.py: node ids and signatures. Ed25519, BLAKE3 and
-- base64 are library code: the operations of a record, with what they document as its laws.
use mesh_compute.Prelude.{
  ◌≡◌, Bool, true, false, Option, none, some, ◌++◌, arith, if◌then◌else◌, nat_beq, length, take,
  All, Result, ok, err, nat_eq, list_eq,
}
use mesh_compute.Prelude.Bytes.{Bytes, Str, codes, hex, IsByte}
use mesh_compute.Python.{Floats}
use mesh_compute.Protocol.Json.{Json, canonical_json}

pub record Crypto : Type 0 where
  -- a 32-byte digest
  pub blake3 : Bytes → Bytes
  -- raw public key, message, signature
  pub ed25519_verify : Bytes → Bytes → Bytes → Bool
  pub ed25519_sign : Bytes → Bytes → Bytes
  pub ed25519_public : Bytes → Bytes
  -- `_b64` and `_unb64`; `none` is a `ValueError`
  pub b64 : Bytes → Str
  pub unb64 : Str → Option Bytes

-- What BLAKE3, Ed25519 and base64 document.
pub record IsCrypto (cr : Crypto) : Type 0 where
  pub digest_length : (m : Bytes) → length (cr.blake3 m) ≡ 32
  pub digest_bytes : (m : Bytes) → All IsByte (cr.blake3 m)
  pub key_length : (sk : Bytes) → length (cr.ed25519_public sk) ≡ 32
  pub sign_verifies :
      (sk m : Bytes) → cr.ed25519_verify (cr.ed25519_public sk) m (cr.ed25519_sign sk m) ≡ true
  pub unb64-b64 : (b : Bytes) → cr.unb64 (cr.b64 b) ≡ some b

-- What the calls below raise.
pub data ValueError : Type 0 where
  bad_key : ValueError

module _ ⦃cr : Crypto⦄ where
  unfoldable pub blake3_hex : Bytes → Str
  blake3_hex b = hex (cr.blake3 b)

  -- `Ed25519PublicKey.from_public_bytes(_unb64(s))`: a key has 32 bytes.
  unfoldable pub public_key : Str → Result ValueError Bytes
  public_key s = elim (cr.unb64 s) [
    | none ↦ err bad_key
    | some raw ↦ if nat_beq (length raw) 32 then ok raw else err bad_key
  ]

  unfoldable pub node_id_from_public : Bytes → Str
  unfolding blake3_hex
  node_id_from_public raw = codes "nd_" ++ take 32 (blake3_hex raw)

  -- `verify`: a key that cannot be read or a wrong signature is `False`, never an error.
  unfoldable pub verify : Str → Bytes → Str → Bool
  unfolding public_key
  verify public_b64 msg signature_b64 = elim (public_key public_b64) [
    | err e ↦ false
    | ok raw ↦ elim (cr.unb64 signature_b64) [
      | none ↦ false
      | some sig ↦ cr.ed25519_verify raw msg sig
    ]
  ]

  module _ {F : Type 0} ⦃fl : Floats F⦄ where
    unfoldable pub verify_json : Str → Json F → Str → Bool
    verify_json public_b64 v signature_b64 = verify public_b64 (canonical_json v) signature_b64

-- `NodeIdentity`: the private key stays on the node.
pub record NodeIdentity : Type 0 where
  pub private_key : Bytes

module _ ⦃cr : Crypto⦄ (id : NodeIdentity) where
  unfoldable pub node_id : Str
  node_id = node_id_from_public (cr.ed25519_public id.private_key)

  unfoldable pub public_b64 : Str
  public_b64 = cr.b64 (cr.ed25519_public id.private_key)

  unfoldable pub sign : Bytes → Str
  sign m = cr.b64 (cr.ed25519_sign id.private_key m)

  module _ {F : Type 0} ⦃fl : Floats F⦄ where
    unfoldable pub sign_json : Json F → Str
    unfolding sign
    sign_json v = sign (canonical_json v)

-- The key that a node publishes reads back, and its id is derived from it.
pub public_key-public_b64 :
    ⦃cr : Crypto⦄ (h : IsCrypto cr) (id : NodeIdentity)
    → public_key (public_b64 id) ≡ ok (cr.ed25519_public id.private_key)
unfolding public_key public_b64
public_key-public_b64 ⦃cr⦄ h id =
    ground (arith, h.unb64-b64 (cr.ed25519_public id.private_key), h.key_length id.private_key)

-- What a node signs verifies under the key that it publishes.
pub verify-sign :
    ⦃cr : Crypto⦄ (h : IsCrypto cr) (id : NodeIdentity) (m : Bytes)
    → verify (public_b64 id) m (sign id m) ≡ true
unfolding verify sign
verify-sign ⦃cr⦄ h id m = ground (
  arith,
  public_key-public_b64 h id,
  h.unb64-b64 (cr.ed25519_sign id.private_key m),
  h.sign_verifies id.private_key m,
)
