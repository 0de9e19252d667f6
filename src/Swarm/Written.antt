-- ===== src/Swarm/Written.antt =====
-- A file of which the front is there and the rest is zeros, and the next chunk written behind it.
use mesh_compute.Prelude.{
  ℕ, zero, suc, ◌+◌, ◌-◌, ◌≤◌, ◌≡◌, refl, sym, ap, ◌∙◌, inl, inr, Bool-cases, [], ◌∷◌, ◌++◌, arith,
  min, leb, length, take, drop, nat_eq, list_eq, length-take, length-drop, take-append,
}
use mesh_compute.Prelude.Bytes.{Bytes}
use mesh_compute.Swarm.Seeder.{read_at}
use mesh_compute.Swarm.Leecher.{nulls, write_at}
use mathlib.Core.List.{append_assoc, append-nil}

take_over : (n : ℕ) (l : Bytes) → length l ≤ n → take n l ≡ l
unfolding take
take_over zero [] h = refl
take_over zero (x ∷ l) h = absurd (omega arith)
take_over (suc n) [] h = refl
take_over (suc n) (x ∷ l) h = ap (◌∷◌ x) (take_over n l (omega arith))

take_nil : (n : ℕ) → take {A = ℕ} n [] ≡ []
unfolding take
take_nil zero = refl
take_nil (suc n) = refl

take_add : (n m : ℕ) (l : Bytes) → take n l ++ take m (drop n l) ≡ take (n + m) l
unfolding take drop
take_add zero m l = ap (λ k. take k l) {x = m} {y = 0 + m} (omega arith)
take_add (suc n) m [] = take_nil m ∙ sym (take_nil (suc n + m))
take_add (suc n) m (x ∷ l) =
    ap (◌∷◌ x) (take_add n m l)
    ∙ ap (λ k. take k (x ∷ l)) {x = suc (n + m)} {y = suc n + m} (omega arith)

drop-nulls : (m k : ℕ) → drop m (nulls k) ≡ nulls (k - m)
unfolding drop
drop-nulls zero k = ap nulls {x = k} {y = k - 0} (omega arith)
drop-nulls (suc m) zero = ap nulls {x = 0} {y = 0 - suc m} (omega arith)
drop-nulls (suc m) (suc k) = drop-nulls m k ∙ ap nulls {x = k - m} {y = suc k - suc m} (omega arith)

drop_behind : (m : ℕ) (xs ys : Bytes) → drop (length xs + m) (xs ++ ys) ≡ drop m ys
unfolding drop
drop_behind m [] ys = ap (λ k. drop k ys) {x = 0 + m} {y = m} (omega arith)
drop_behind m (x ∷ xs) ys =
    ap (λ k. drop k (x ∷ xs ++ ys)) {x = suc (length xs) + m} {y = suc (length xs + m)}
      (omega arith)
    ∙ drop_behind m xs ys

-- The front of the file up to there, and zeros.
abbrev pub front : ℕ → Bytes → Bytes
front n file = take n file ++ nulls (length file - n)

pub front_whole : (n : ℕ) (file : Bytes) → length file ≤ n → front n file ≡ file
front_whole n file h =
    ap (λ l. l ++ nulls (length file - n)) (take_over n file h)
    ∙ ap (λ k. file ++ nulls k) {x = length file - n} {y = 0} (omega (arith, h))
    ∙ append-nil file

-- What is written of a chunk that reaches beyond the end.
cut_short :
    (offset size : ℕ) (file : Bytes)
    → take (offset + min size (length file - offset)) file
        ++ nulls (length file - offset - min size (length file - offset))
      ≡ front (offset + size) file
cut_short offset size file = elim (Bool-cases (leb size (length file - offset))) [
  | inl whole ↦
      let same : min size (length file - offset) ≡ size = ground arith in
      rw same (
        ap (λ k. take (offset + size) file ++ nulls k) {x = length file - offset - size}
          {y = length file - (offset + size)} (omega arith))
  | inr short ↦
      let over : length file ≤ offset + size = ground arith in
      let reached : length file ≤ offset + min size (length file - offset) = ground arith in
      let none_left : length file - offset - min size (length file - offset) ≡ 0 = ground arith in
      ap (λ l. l ++ nulls (length file - offset - min size (length file - offset)))
        (take_over _ file reached)
      ∙ ap (λ k. file ++ nulls k) none_left
      ∙ append-nil file
      ∙ sym (front_whole (offset + size) file over)
]

-- A chunk is cut at the end of the file.
pub write_at-front :
    (offset size : ℕ) (file : Bytes)
    → offset ≤ length file
    → write_at offset (read_at offset (min size (length file - offset)) file) (front offset file)
      ≡ front (offset + size) file
unfolding write_at
write_at-front offset size file inside =
    let head = take offset file in
    let cut = min size (length file - offset) in
    let chunk = take cut (drop offset file) in
    let zeros_left = nulls (length file - offset) in
    let head_size : length head ≡ offset = omega (arith, length-take offset file, inside) in
    let chunk_size : length chunk ≡ cut =
      omega (arith, length-take cut (drop offset file), length-drop offset file) in
    let kept : take offset (head ++ zeros_left) ≡ head =
      ap (λ k. take k (head ++ zeros_left)) (sym head_size) ∙ take-append head zeros_left in
    let behind : drop (offset + length chunk) (head ++ zeros_left)
        ≡ nulls (length file - offset - length chunk) =
      ap (λ k. drop (k + length chunk) (head ++ zeros_left)) (sym head_size)
      ∙ drop_behind (length chunk) head zeros_left
      ∙ drop-nulls (length chunk) (length file - offset) in
    let joined : head ++ (chunk ++ nulls (length file - offset - length chunk))
        ≡ take (offset + cut) file ++ nulls (length file - offset - cut) =
      sym (append_assoc head chunk (nulls (length file - offset - length chunk)))
      ∙ ap (λ l. l ++ nulls (length file - offset - length chunk)) (take_add offset cut file)
      ∙ ap (λ k. take (offset + cut) file ++ nulls (length file - offset - k)) chunk_size in
    rw (kept, behind) (joined ∙ cut_short offset size file)
