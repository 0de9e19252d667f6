-- ===== src/Ledger/Tamper.antt =====
-- What the Merkle root of a block fixes, with a hash collision as the only way out.
use mesh_compute.Prelude.{
  ℕ, zero, suc, ◌≤◌, ◌≡◌, ◌≢◌, ◌⊎◌, inl, inr, refl, sym, ap, ◌∙◌, List, [], ◌∷◌, ◌++◌, map, arith,
  length, All, ok, nat_eq, list_eq, eq_cases,
}
use mesh_compute.Ledger.Minting.{check_header-IsSealed}
use mesh_compute.Protocol.Json.{canonical_json}
use mesh_compute.Ledger.Block.{check_header, Block}
use mesh_compute.Python.{Floats}
use mesh_compute.Prelude.Bytes.{Str, from_hex, from_hex-hex, hex, IsByte, Bytes}
use mesh_compute.Protocol.Identity.{blake3_hex, Crypto, IsCrypto}
use mesh_compute.Ledger.Merkle.{
  dump_entry, entry_hash, LedgerEntry, merkle_root, root_of_level, next_level, fold_levels,
}

-- Two messages with one digest.
abbrev pub Collision : Crypto → Type 0
Collision cr = (a : Bytes) × (b : Bytes) × (a ≢ b) × (cr.blake3 a ≡ cr.blake3 b)

append_split : (a b c d : Bytes) → length a ≡ length c → a ++ b ≡ c ++ d → (a ≡ c) × (b ≡ d)
append_split [] b [] d h e = (refl, e)
append_split [] b (y ∷ c) d h e = absurd (omega arith)
append_split (x ∷ a) b [] d h e = absurd (omega arith)
append_split (x ∷ a) b (y ∷ c) d h e = ground (arith, append_split a b c d)

abbrev IsDigest : Bytes → Type 0
IsDigest b = length b ≡ 32

module _ ⦃cr : Crypto⦄ where
  same_or_Collision : (a b : Bytes) → cr.blake3 a ≡ cr.blake3 b → (a ≡ b) ⊎ Collision cr
  same_or_Collision a b h = elim (eq_cases a b) [ inl e ↦ inl e | inr ne ↦ inr (a, b, ne, h) ]

  pair_step :
      (a b c d : Bytes)
      → IsDigest a
      → IsDigest c
      → cr.blake3 (a ++ b) ≡ cr.blake3 (c ++ d)
      → ((a ≡ c) × (b ≡ d)) ⊎ Collision cr
  pair_step a b c d ha hc h = elim (same_or_Collision (a ++ b) (c ++ d) h) [
    | inl e ↦ inl (append_split a b c d (omega arith) e)
    | inr k ↦ inr k
  ]

  -- Levels of one length that lead to one next level are equal.
  next_level_fixes :
      (xs ys : List Bytes)
      → All IsDigest xs
      → All IsDigest ys
      → length xs ≡ length ys
      → next_level xs ≡ next_level ys
      → (xs ≡ ys) ⊎ Collision cr
  unfolding next_level
  next_level_fixes [] [] hx hy hl e = inl refl
  next_level_fixes (a ∷ []) (c ∷ []) hx hy hl e = ground (arith, pair_step a a c c hx.0 hy.0)
  next_level_fixes (a ∷ b ∷ xs) (c ∷ d ∷ ys) hx hy hl e = elim (pair_step a b c d hx.0 hy.0 (cc)) [
    | inr k ↦ inr k
    | inl p ↦ elim (next_level_fixes xs ys hx.1.1 hy.1.1 (omega arith) (cc)) [
      | inr k ↦ inr k
      | inl q ↦ inl (cc (p.0, p.1, q))
    ]
  ]
  next_level_fixes xs ys hx hy hl e = absurd (omega arith)

  length-next_level : (xs : List Bytes) → length (next_level xs) ≤ length xs
  unfolding next_level
  length-next_level [] = omega arith
  length-next_level (a ∷ []) = omega arith
  length-next_level (a ∷ b ∷ xs) = omega (arith, length-next_level xs)

  length-next_level_eq :
      (xs ys : List Bytes) → length xs ≡ length ys → length (next_level xs) ≡ length (next_level ys)
  unfolding next_level
  length-next_level_eq [] [] h = refl
  length-next_level_eq (a ∷ []) (c ∷ []) h = refl
  length-next_level_eq (a ∷ b ∷ xs) (c ∷ d ∷ ys) h =
      omega (arith, length-next_level_eq xs ys (omega arith))
  length-next_level_eq xs ys h = absurd (omega arith)

  module _ (laws : IsCrypto cr) where
    next_level-IsDigest : (xs : List Bytes) → All IsDigest (next_level xs)
    unfolding next_level
    next_level-IsDigest [] = tt
    next_level-IsDigest (a ∷ []) = (laws.digest_length (a ++ a), tt)
    next_level-IsDigest (a ∷ b ∷ xs) = (laws.digest_length (a ++ b), next_level-IsDigest xs)

    -- With fuel for every round, levels of one length that fold to one root are equal.
    fold_levels_fixes :
        (fuel : ℕ) (xs ys : List Bytes)
        → length xs ≤ suc fuel
        → length xs ≡ length ys
        → All IsDigest xs
        → All IsDigest ys
        → fold_levels fuel xs ≡ fold_levels fuel ys
        → (xs ≡ ys) ⊎ Collision cr
    unfolding fold_levels
    fold_levels_fixes fuel [] [] hf hl hx hy e = inl refl
    fold_levels_fixes fuel (a ∷ []) (c ∷ []) hf hl hx hy e = inl (ap (λ z. z ∷ []) e)
    fold_levels_fixes zero (a ∷ b ∷ xs) (c ∷ d ∷ ys) hf hl hx hy e = absurd (omega arith)
    fold_levels_fixes (suc fuel) (a ∷ b ∷ xs) (c ∷ d ∷ ys) hf hl hx hy e =
        elim (fold_levels_fixes fuel (next_level (a ∷ b ∷ xs)) (next_level (c ∷ d ∷ ys))
          (omega (arith, length-next_level xs))
          (omega (arith, length-next_level_eq xs ys (omega arith)))
          (next_level-IsDigest (a ∷ b ∷ xs)) (next_level-IsDigest (c ∷ d ∷ ys)) e) [
            | inr k ↦ inr k
            | inl q ↦ next_level_fixes (a ∷ b ∷ xs) (c ∷ d ∷ ys) hx hy hl q
          ]
    fold_levels_fixes fuel xs ys hf hl hx hy e = absurd (omega arith)

    fold_levels-bytes :
        (fuel : ℕ) (xs : List Bytes) → All (All IsByte) xs → All IsByte (fold_levels fuel xs)
    unfolding fold_levels next_level
    fold_levels-bytes fuel [] h = tt
    fold_levels-bytes fuel (a ∷ []) h = h.0
    fold_levels-bytes zero (a ∷ b ∷ xs) h = tt
    fold_levels-bytes (suc fuel) (a ∷ b ∷ xs) h =
        fold_levels-bytes fuel (next_level (a ∷ b ∷ xs)) (next_level-bytes (a ∷ b ∷ xs))
      where
        next_level-bytes : (ys : List Bytes) → All (All IsByte) (next_level ys)
        next_level-bytes [] = tt
        next_level-bytes (c ∷ []) = (laws.digest_bytes (c ++ c), tt)
        next_level-bytes (c ∷ d ∷ ys) = (laws.digest_bytes (c ++ d), next_level-bytes ys)

    hex_injective : (a b : Bytes) → All IsByte a → All IsByte b → hex a ≡ hex b → a ≡ b
    hex_injective a b ha hb h = sym (from_hex-hex a ha) ∙ ap from_hex h ∙ from_hex-hex b hb

    -- Two levels of one length with one root are equal.
    root_of_level_fixes :
        (xs ys : List Bytes)
        → length xs ≡ length ys
        → All IsDigest xs
        → All IsDigest ys
        → All (All IsByte) xs
        → All (All IsByte) ys
        → root_of_level xs ≡ root_of_level ys
        → (xs ≡ ys) ⊎ Collision cr
    unfolding root_of_level
    root_of_level_fixes [] [] hl hx hy bx by e = inl refl
    root_of_level_fixes (x ∷ xs) (y ∷ ys) hl hx hy bx by e =
        let fuel = length (x ∷ xs) in
        let e' : hex (fold_levels fuel (x ∷ xs)) ≡ hex (fold_levels fuel (y ∷ ys)) =
          e ∙ ap (λ n. hex (fold_levels n (y ∷ ys))) (sym hl) in
        fold_levels_fixes fuel (x ∷ xs) (y ∷ ys) (omega arith) hl hx hy (
          hex_injective _ _ (fold_levels-bytes fuel (x ∷ xs) bx)
            (fold_levels-bytes fuel (y ∷ ys) by) e')
    root_of_level_fixes xs ys hl hx hy bx by e = absurd (omega arith)

module _ {F : Type 0} ⦃fl : Floats F⦄ where
  -- What an entry says, as it is hashed.
  abbrev pub payload : LedgerEntry F → Bytes
  payload e = canonical_json (dump_entry e)

module _ {F : Type 0} ⦃fl : Floats F⦄ ⦃cr : Crypto⦄ (laws : IsCrypto cr) where
  entry_digest : (e : LedgerEntry F) → from_hex (entry_hash e) ≡ cr.blake3 (payload e)
  unfolding entry_hash blake3_hex
  entry_digest e = from_hex-hex (cr.blake3 (payload e)) (laws.digest_bytes (payload e))

  abbrev leaves : List (LedgerEntry F) → List Bytes
  leaves = map (λ e. from_hex (entry_hash e))

  leaves-IsDigest : (es : List (LedgerEntry F)) → All IsDigest (leaves es)
  leaves-IsDigest [] = tt
  leaves-IsDigest (e ∷ es) =
      (rw (entry_digest e) (laws.digest_length (payload e)), leaves-IsDigest es)

  leaves-bytes : (es : List (LedgerEntry F)) → All (All IsByte) (leaves es)
  leaves-bytes [] = tt
  leaves-bytes (e ∷ es) = (rw (entry_digest e) (laws.digest_bytes (payload e)), leaves-bytes es)

  leaves_fix :
      (es fs : List (LedgerEntry F))
      → leaves es ≡ leaves fs
      → (map payload es ≡ map payload fs) ⊎ Collision cr
  leaves_fix [] [] h = inl refl
  leaves_fix [] (f ∷ fs) h = cc
  leaves_fix (e ∷ es) [] h = cc
  leaves_fix (e ∷ es) (f ∷ fs) h =
      elim (same_or_Collision (payload e) (payload f) (cc (entry_digest e, entry_digest f))) [
        | inr k ↦ inr k
        | inl p ↦ elim (leaves_fix es fs (cc)) [ inr k ↦ inr k | inl q ↦ inl (cc) ]
      ]

  length-leaves : (es : List (LedgerEntry F)) → length (leaves es) ≡ length es
  length-leaves [] = refl
  length-leaves (e ∷ es) = ap suc (length-leaves es)

  -- For a fixed number of entries the root fixes what they say.
  pub merkle_root_fixes :
      (es fs : List (LedgerEntry F))
      → length es ≡ length fs
      → merkle_root es ≡ merkle_root fs
      → (map payload es ≡ map payload fs) ⊎ Collision cr
  unfolding merkle_root
  merkle_root_fixes es fs hl h =
      elim (root_of_level_fixes laws (leaves es) (leaves fs)
        (omega (arith, length-leaves es, length-leaves fs)) (leaves-IsDigest es)
        (leaves-IsDigest fs) (leaves-bytes es) (leaves-bytes fs) h) [
          | inr k ↦ inr k
          | inl q ↦ leaves_fix es fs q
        ]

  -- Two blocks with one header that both pass the checks before the loop hold entries that say
  -- the same, in the same order, or a hash collision is at hand.
  pub check_header_fixes_entries :
      (b c : Block F) (prev prev' : Str) (i j : ℕ)
      → b.header ≡ c.header
      → check_header b prev i ≡ ok tt
      → check_header c prev' j ≡ ok tt
      → (map payload b.entries ≡ map payload c.entries) ⊎ Collision cr
  check_header_fixes_entries b c prev prev' i j same hb hc =
      let kb = check_header-IsSealed b prev i hb in
      let kc = check_header-IsSealed c prev' j hc in
      merkle_root_fixes b.entries c.entries
        (ground (arith, kb.counted, kc.counted, ap (λ h. h.entry_count) same))
        (kb.rooted ∙ ap (λ h. h.merkle_root) same ∙ sym kc.rooted)

-- The root alone does not fix the number of entries: an odd level repeats its last digest. So
-- `verify_block` compares `entry_count` too.
pub root_of_level_repeats :
    ⦃cr : Crypto⦄ (a b c : Bytes)
    → root_of_level (a ∷ b ∷ c ∷ []) ≡ root_of_level (a ∷ b ∷ c ∷ c ∷ [])
unfolding root_of_level fold_levels next_level
root_of_level_repeats a b c = refl
