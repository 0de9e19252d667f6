-- ===== src/Ledger/Tests.antt =====
-- A chain of two blocks, made by one node, with one entry for verified work.
use mesh_compute.Ledger.Balances.{balances-account_sum, all_entries, account_sum, zero_credit}
use mesh_compute.Ledger.Production.{produce-verify_block}
use mesh_compute.Prelude.Dict.{lookup_or}
use mesh_compute.Ledger.Minting.{verify_block_sound, IsLawful, IsSealed}
use mesh_compute.Ledger.Replication.{verify_full-IsLedger, IsSynced, IsLedger}
use mesh_compute.Prelude.{
  ne_of_beq, ℕ, ◌≡◌, ◌≢◌, inl, inr, refl, subst, true, false, none, some, [], ◌∷◌, ◌++◌, take, All,
  Elem, ok, err, ◌>>=◌, nat_eq, list_eq, contains, list_beq,
}
use mesh_compute.Prelude.Int.{int_eq, pos}
use mesh_compute.Ledger.Chain.{
  balances, last_hash, head_hash, append, genesis_prev, verify_from, verify_full, Chain,
}
use mesh_compute.Prelude.Bytes.{from_hex, hex, codes, Str}
use mesh_compute.Protocol.Identity.{
  sign, sign_json, blake3_hex, node_id_from_public, verify, verify_json, public_key, public_b64,
  node_id, NodeIdentity,
}
use mesh_compute.Protocol.Receipts.{ok_outcome, MeasuredWork, SignedReceipt}
use mesh_compute.Ledger.Merkle.{
  entry_hash, next_level, fold_levels, root_of_level, merkle_root, LedgerEntry,
}
use mesh_compute.Ledger.Block.{
  earns, credit_for_receipt, differs, is_nonneg, is_positive, pub_key, check_receipt, check_backing,
  check_entry, check_entries, check_header, verified_work, block_hash, produce, value_error, Block,
  verify_block,
}
use mesh_compute.Sample.{nat_floats, sample_crypto, sample_crypto-IsCrypto}
use mesh_compute.Ledger.Nonces.{verify_full-nonces, check_entry-reuse, earned, Distinct}

abbrev identity : NodeIdentity
identity = record { private_key = 1 ∷ [] }

abbrev account : Str
account = node_id identity

abbrev work : MeasuredWork ℕ
work = record {
  gpu_active_ms = 0;
  layers_processed = pos 0;
  tokens_generated = pos 7;
  activation_bytes = pos 0;
  model_shard_bytes_served = pos 0;
  draft_tokens_accepted = pos 0;
}

abbrev receipt : SignedReceipt ℕ
receipt = record {
  receipt = record {
    protocol_version = pos 1;
    receipt_id = codes "r1";
    session_id = [];
    plan_id = [];
    node_id = account;
    model_manifest_hash = [];
    role = codes "single";
    measured_work = work;
    started_at = 0;
    finished_at = 1;
    outcome = ok_outcome;
    challenge_nonce = codes "n1";
  };
  public_b64 = public_b64 identity;
  signature_b64 = [];
}

abbrev entry : LedgerEntry ℕ
entry = record {
  entry_id = codes "e1";
  account = account;
  delta = 7;
  reason = verified_work;
  ref_receipt_id = codes "r1";
  challenge_nonce = codes "n1";
  receipt = some receipt;
}

abbrev genesis : Block ℕ
genesis = produce identity (pos 0) genesis_prev 5 []

abbrev next : Block ℕ
next = produce identity (pos 1) (block_hash genesis) 6 (entry ∷ [])

abbrev chain : Chain ℕ
chain = record { blocks = genesis ∷ next ∷ []; seen_nonces = codes "n1" ∷ [] }

-- A block whose key has no 32 bytes.
abbrev unreadable : Chain ℕ
unreadable = record { blocks = record genesis { producer_public_b64 = [] } ∷ []; seen_nonces = [] }

program : Unit {0}
unfolding verify_full verify_from verify_block check_header check_entries check_entry check_backing
    check_receipt pub_key public_key verify_json verify node_id_from_public node_id public_b64
    produce merkle_root root_of_level fold_levels next_level entry_hash blake3_hex block_hash
    sign_json sign is_positive is_nonneg differs credit_for_receipt earns list_beq hex from_hex take
    append head_hash last_hash
program = tt

verify_full-chain : verify_full chain ≡ ok (codes "n1" ∷ [])
unfolding program
verify_full-chain = refl

next-verify_block : verify_block next (block_hash genesis) 1 [] true ≡ ok (codes "n1" ∷ [])
unfolding program
next-verify_block = refl

unreadable-raises : verify_full unreadable ≡ err value_error
unfolding program
unreadable-raises = refl

verify_block_sound_example : IsSealed next (block_hash genesis) 1 × All IsLawful (entry ∷ [])
unfolding produce
verify_block_sound_example = verify_block_sound next (block_hash genesis) 1 [] next-verify_block

verify_full-nonces_example :
    (codes "n1" ∷ [] ≡ earned [] chain.blocks)
    × Distinct (earned [] chain.blocks)
    × All (λ n. n ≢ []) (earned [] chain.blocks)
verify_full-nonces_example = verify_full-nonces chain verify_full-chain

verify_full-IsLedger_example : IsLedger 0 genesis_prev (genesis ∷ next ∷ [])
verify_full-IsLedger_example = verify_full-IsLedger chain verify_full-chain

check_entry-entry : check_entry true [] [] entry ≡ ok (codes "n1" ∷ [])
unfolding program
check_entry-entry = refl

n2-ne-empty : codes "n2" ≢ []
unfolding program
n2-ne-empty = ne_of_beq (codes "n2") [] refl

n2-unused : contains (codes "n2") (codes "n1" ∷ []) ≡ false
unfolding program
n2-unused = refl

-- The one receipt pays twice.
check_entry-reuse_example :
    check_entry true [] (codes "n1" ∷ []) (record entry { challenge_nonce = codes "n2" })
    ≡ ok (codes "n2" ∷ codes "n1" ∷ [])
check_entry-reuse_example =
    check_entry-reuse [] [] entry (codes "n2") refl check_entry-entry n2-ne-empty n2-unused

abbrev bare : Block ℕ
bare = record next { entries = record entry { receipt = none } ∷ [] }

next-check_header : check_header next (block_hash genesis) 1 ≡ ok tt
unfolding program
next-check_header = refl

bare-check_header : check_header bare (block_hash genesis) 1 ≡ ok tt
unfolding program
bare-check_header = refl

abbrev short : Chain ℕ
short = record { blocks = genesis ∷ []; seen_nonces = [] }

append-next : append short next ≡ ok chain
unfolding program
append-next = refl

short-IsSynced : IsSynced short
unfolding program
short-IsSynced = refl

produce-verify_block_example :
    verify_block
      (produce identity (pos 1) (block_hash genesis) 6 (entry ∷ []))
      (block_hash genesis)
      1
      []
      true
    ≡ (check_entries true [] [] (entry ∷ []) >>= λ local. ok (local ++ []))
produce-verify_block_example =
    produce-verify_block sample_crypto-IsCrypto identity 1 (block_hash genesis) 6 (entry ∷ []) []
      true

balances-account_sum_example :
    lookup_or (zero_credit account) account (balances chain)
    ≡ account_sum account (zero_credit account) (all_entries account chain.blocks)
balances-account_sum_example = balances-account_sum account chain

chain-raises_nothing : (d : Chain ℕ) → Elem d (chain ∷ []) → ¬ (verify_full d ≡ err value_error)
chain-raises_nothing d (inl same) h =
    absurd (
      let e = verify_full-chain in
      let g = subst (λ c. verify_full c ≡ err value_error) same h in cc)
chain-raises_nothing d (inr nothing) h = absurd nothing
