-- ===== src/Ledger/Production.antt =====
-- A block that a node produces passes the checks on its header.
use mesh_compute.Prelude.{
  ℕ, ◌≡◌, refl, Bool, true, List, [], ◌∷◌, ◌++◌, arith, ok, ◌>>=◌, nat_eq, list_eq, beq_self,
}
use mesh_compute.Protocol.Json.{canonical_json}
use mesh_compute.Prelude.Int.{pos}
use mesh_compute.Ledger.Merkle.{merkle_root, LedgerEntry}
use mesh_compute.Prelude.Bytes.{Str}
use mesh_compute.Ledger.Chain.{genesis_prev, last_hash, head_hash, append, new}
use mesh_compute.Ledger.Block.{
  dump_header, check_entries, pub_key, produce, check_header, verify_block,
}
use mesh_compute.Protocol.Identity.{
  verify-sign, node_id_from_public, public_key-public_b64, verify_json, sign_json, node_id,
  NodeIdentity, IsCrypto, Crypto,
}
use mesh_compute.Python.{Floats}

module _ {F : Type 0} ⦃fl : Floats F⦄ ⦃cr : Crypto⦄ (laws : IsCrypto cr)
    (identity : NodeIdentity) where
  produce-check_header :
      (i : ℕ) (prev : Str) (ts : F) (es : List (LedgerEntry F))
      → check_header (produce identity (pos i) prev ts es) prev i ≡ ok tt
  unfolding check_header produce pub_key node_id sign_json verify_json
  produce-check_header i prev ts es =
      let header = (produce identity (pos i) prev ts es).header in
      ground (
        arith,
        beq_self prev,
        beq_self (merkle_root es),
        public_key-public_b64 laws identity,
        beq_self (node_id_from_public (cr.ed25519_public identity.private_key)),
        verify-sign laws identity (canonical_json (dump_header header)),
      )

  -- A block that a node produces for its place is accepted exactly when the loop accepts its
  -- entries, and raises what the loop raises otherwise.
  pub produce-verify_block :
      (i : ℕ) (prev : Str) (ts : F) (es : List (LedgerEntry F)) (seen : List Str) (rr : Bool)
      → verify_block (produce identity (pos i) prev ts es) prev i seen rr
        ≡ (check_entries rr seen [] es >>= λ local. ok (local ++ seen))
  unfolding verify_block produce
  produce-verify_block i prev ts es seen rr = rw (produce-check_header i prev ts es) refl

  -- `Chain.new` raises no error: it is the chain of one genesis block, with no nonce used.
  pub new_lem :
      (ts : F)
      → new identity ts
        ≡ ok
            (record { blocks = produce identity (pos 0) genesis_prev ts [] ∷ []; seen_nonces = [] })
  unfolding new append head_hash last_hash check_entries
  new_lem ts = rw (produce-verify_block 0 genesis_prev ts [] [] true) refl
