-- ===== src/Ledger/Balances.antt =====
-- The balance of an account.
use mesh_compute.Prelude.{
  ◌≡◌, refl, sym, ap, ◌∙◌, List, [], ◌∷◌, ◌++◌, arith, if◌then◌else◌, ◌==◌, nat_eq, list_eq, beq→eq,
}
use mesh_compute.Prelude.Dict.{lookup-insert, lookup_or, Dict}
use mesh_compute.Ledger.Merkle.{LedgerEntry}
use mesh_compute.Prelude.Int.{pos}
use mesh_compute.Ledger.Block.{Block}
use mesh_compute.Ledger.Chain.{Chain, credit_blocks, balances, credit, credit_entries}
use mesh_compute.Prelude.Bytes.{Str}
use mesh_compute.Protocol.Identity.{Crypto}
use mesh_compute.Python.{Floats}

module _ {F : Type 0} ⦃fl : Floats F⦄ ⦃cr : Crypto⦄ (account : Str) where
  -- The rounded running sum of the amounts of one account, in the order of the entries.
  abbrev pub account_sum : F → List (LedgerEntry F) → F
  account_sum x [] = x
  account_sum x (e ∷ es) =
      account_sum (if account == e.account then fl.round (fl.add x e.delta) 6 else x) es

  abbrev pub all_entries : List (Block F) → List (LedgerEntry F)
  all_entries [] = []
  all_entries (b ∷ bs) = b.entries ++ all_entries bs

  abbrev pub zero_credit : F
  zero_credit = fl.decimal (pos 0) 0

  credit-balance :
      (out : Dict Str F) (e : LedgerEntry F)
      → lookup_or zero_credit account (credit out e) ≡ (
          if account == e.account
          then fl.round (fl.add (lookup_or zero_credit account out) e.delta) 6
          else lookup_or zero_credit account out)
  unfolding credit
  credit-balance out e = ground (
    arith,
    lookup-insert account e.account
        (fl.round (fl.add (lookup_or zero_credit e.account out) e.delta) 6) out,
    beq→eq account e.account,
  )

  credit_entries-balance :
      (out : Dict Str F) (es : List (LedgerEntry F))
      → lookup_or zero_credit account (credit_entries out es)
        ≡ account_sum (lookup_or zero_credit account out) es
  unfolding credit_entries
  credit_entries-balance out [] = refl
  credit_entries-balance out (e ∷ es) =
      credit_entries-balance (credit out e) es ∙ ap (λ x. account_sum x es) (credit-balance out e)

  account_sum-append :
      (x : F) (es fs : List (LedgerEntry F))
      → account_sum x (es ++ fs) ≡ account_sum (account_sum x es) fs
  account_sum-append x [] fs = refl
  account_sum-append x (e ∷ es) fs =
      account_sum-append (if account == e.account then fl.round (fl.add x e.delta) 6 else x) es fs

  credit_blocks-balance :
      (out : Dict Str F) (bs : List (Block F))
      → lookup_or zero_credit account (credit_blocks out bs)
        ≡ account_sum (lookup_or zero_credit account out) (all_entries bs)
  unfolding credit_blocks
  credit_blocks-balance out [] = refl
  credit_blocks-balance out (b ∷ bs) =
      credit_blocks-balance (credit_entries out b.entries) bs
      ∙ ap (λ x. account_sum x (all_entries bs)) (credit_entries-balance out b.entries)
      ∙ sym (account_sum-append (lookup_or zero_credit account out) b.entries (all_entries bs))

  -- The balance of an account is the rounded running sum over its own entries, in the order of
  -- the blocks and of the entries in them; the entries of other accounts do not count.
  pub balances-account_sum :
      (c : Chain F)
      → lookup_or zero_credit account (balances c) ≡ account_sum zero_credit (all_entries c.blocks)
  unfolding balances
  balances-account_sum c = credit_blocks-balance [] c.blocks
