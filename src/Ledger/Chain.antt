-- ===== src/Ledger/Chain.antt =====
-- `Chain` and the fork choice.
use mesh_compute.Prelude.{
  ℕ, zero, suc, Bool, true, false, List, [], ◌∷◌, ◌++◌, length, nat_beq, ltb, if◌then◌else◌, Result,
  ok, err, ◌>>=◌, nat_eq, list_eq,
}
use mesh_compute.Prelude.Int.{pos}
use mesh_compute.Prelude.Bytes.{Str, lex_le}
use mesh_compute.Prelude.Dict.{Dict, insert, lookup_or}
use mesh_compute.Prelude.Sort.{sort}
use mesh_compute.Python.{Floats}
use mesh_compute.Protocol.Identity.{Crypto, NodeIdentity}
use mesh_compute.Ledger.Merkle.{LedgerEntry}
use mesh_compute.Ledger.Block.{
  Block, LedgerError, chain_error, value_error, no_valid_chain, block_hash, produce, verify_block,
}

abbrev zeros : ℕ → Str
zeros zero = []
zeros (suc n) = b'0' ∷ zeros n

-- `"0" * 64`
abbrev pub genesis_prev : Str
genesis_prev = zeros 64

pub record Chain (F : Type 0) : Type 0 where
  pub blocks : List (Block F)
  pub seen_nonces : List Str

module _ {F : Type 0} ⦃fl : Floats F⦄ ⦃cr : Crypto⦄ where
  -- `blocks[-1].block_hash()`, or `prev` for no blocks.
  unfoldable pub last_hash : Str → List (Block F) → Str
  last_hash prev [] = prev
  last_hash prev (b ∷ bs) = last_hash (block_hash b) bs

  unfoldable pub head_hash : Chain F → Str
  head_hash c = last_hash genesis_prev c.blocks

  unfoldable pub height : Chain F → ℕ
  height c = length c.blocks

  -- `append`: verified first, so an error leaves the chain as it was.
  unfoldable pub append : Chain F → Block F → Result LedgerError (Chain F)
  append c b = do
    seen ← verify_block b (head_hash c) (length c.blocks) c.seen_nonces true
    ok (record { blocks = c.blocks ++ b ∷ []; seen_nonces = seen })

  unfoldable pub append_all : Chain F → List (Block F) → Result LedgerError (Chain F)
  append_all c [] = ok c
  append_all c (b ∷ bs) = do c' ← append c b; append_all c' bs

  abbrev pub empty_chain : Chain F
  empty_chain = record { blocks = []; seen_nonces = [] }

  -- `Chain(blocks)`
  unfoldable pub init : List (Block F) → Result LedgerError (Chain F)
  init blocks = append_all empty_chain blocks

  -- `Chain.new`
  unfoldable pub new : NodeIdentity → F → Result LedgerError (Chain F)
  new identity timestamp = append empty_chain (produce identity (pos 0) genesis_prev timestamp [])

  -- The loop of `verify_full`; the result is its set `seen`.
  unfoldable pub verify_from : ℕ → Str → List Str → List (Block F) → Result LedgerError (List Str)
  verify_from i prev seen [] = ok seen
  verify_from i prev seen (b ∷ bs) = do
    seen' ← verify_block b prev i seen true
    verify_from (suc i) (block_hash b) seen' bs

  unfoldable pub verify_full : Chain F → Result LedgerError (List Str)
  verify_full c = verify_from 0 genesis_prev [] c.blocks

  unfoldable pub credit : Dict Str F → LedgerEntry F → Dict Str F
  credit out e =
      insert e.account
        (fl.round (fl.add (lookup_or (fl.decimal (pos 0) 0) e.account out) e.delta) 6) out

  unfoldable pub credit_entries : Dict Str F → List (LedgerEntry F) → Dict Str F
  credit_entries out [] = out
  credit_entries out (e ∷ es) = credit_entries (credit out e) es

  unfoldable pub credit_blocks : Dict Str F → List (Block F) → Dict Str F
  credit_blocks out [] = out
  credit_blocks out (b ∷ bs) = credit_blocks (credit_entries out b.entries) bs

  unfoldable pub balances : Chain F → Dict Str F
  balances c = credit_blocks [] c.blocks

  -- The loop of `pick_best_chain`: it catches a `ChainError`, and lets a `ValueError` through.
  unfoldable pub valid_chains : List (Chain F) → Result LedgerError (List (Chain F))
  valid_chains [] = ok []
  valid_chains (c ∷ cs) = elim (verify_full c) [
    | ok _ ↦ valid_chains cs >>= λ valid. ok (c ∷ valid)
    | err e ↦ elim e [ chain_error _ ↦ valid_chains cs | value_error ↦ err value_error ]
  ]

  -- `(-c.height, c.head_hash)`, compared as Python compares tuples.
  unfoldable pub chain_le : Chain F → Chain F → Bool
  chain_le a b =
      if ltb (height b) (height a)
      then true
      else if nat_beq (height a) (height b)
      then lex_le (head_hash a) (head_hash b)
      else false

  unfoldable pub first_of_sorted : List (Chain F) → Result LedgerError (Chain F)
  first_of_sorted valid = elim (sort chain_le valid) [
    | [] ↦ err (chain_error no_valid_chain)
    | c ∷ _ ↦ ok c
  ]

  unfoldable pub pick_best_chain : List (Chain F) → Result LedgerError (Chain F)
  pick_best_chain chains = do valid ← valid_chains chains; first_of_sorted valid
