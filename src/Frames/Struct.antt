-- ===== src/Frames/Struct.antt =====
-- Python's `struct` with big-endian unsigned fields: a format is the list of the widths in bytes.
use mesh_compute.Prelude.{
  ℕ, zero, suc, ◌+◌, ◌*◌, ◌/◌, ◌%◌, ◌^◌, ◌<◌, ◌≡◌, inl, inr, refl, sym, ap, ◌∙◌, List, [], ◌∷◌,
  ◌++◌, map, arith, if◌then◌else◌, ltb, Bool-cases, length, take, drop, Result, ok, err, ◌>>=◌,
  >>=-eq-ok, nat_eq, list_eq, drop-append, length-append, ltb→lt, take-append,
}
use mesh_compute.Prelude.Int.{pos_part, negsuc, pos, ℤ}
use mesh_compute.Prelude.Bytes.{length-be_bytes, be_bytes, Bytes, from_be}
use native.Mathlib.Nat.{pow-suc}
use mathlib.Core.List.{append_assoc}

-- `struct.error`, or an error of the caller's own.
pub data FrameFault : Type 0 where
  payload_exceeds ndim_exceeds too_short unsupported_version ndim_too_large length_exceeds :
      FrameFault
  truncated crc_mismatch decompressed_exceeds bad_class bad_dtype : FrameFault

pub data FrameError : Type 0 where
  value_error : FrameFault → FrameError
  struct_error zlib_error : FrameError

-- A field holds the numbers below 256 ^ w; anything else is a `struct.error`.
unfoldable pub pack_field : ℕ → ℤ → Result FrameError Bytes
pack_field w (pos n) = if ltb n (256 ^ w) then ok (be_bytes w n) else err struct_error
pack_field w (negsuc n) = err struct_error

unfoldable pub pack : List ℕ → List ℤ → Result FrameError Bytes
pack [] [] = ok []
pack (w ∷ ws) (v ∷ vs) = do b ← pack_field w v; bs ← pack ws vs; ok (b ++ bs)
pack _ _ = err struct_error

-- The values of the fields, and the bytes that come behind them.
unfoldable pub unpack : List ℕ → Bytes → List ℕ × Bytes
unpack [] buf = ([], buf)
unpack (w ∷ ws) buf = let (ns, rest) = unpack ws (drop w buf) in (from_be 0 (take w buf) ∷ ns, rest)

-- `struct.calcsize`
abbrev pub calcsize : List ℕ → ℕ
calcsize [] = 0
calcsize (w ∷ ws) = w + calcsize ws

from_be-append :
    (acc : ℕ) (bs : Bytes) (b : ℕ) → from_be acc (bs ++ b ∷ []) ≡ from_be acc bs * 256 + b
unfolding from_be
from_be-append acc [] b = refl
from_be-append acc (c ∷ bs) b = from_be-append (acc * 256 + c) bs b

-- A number that fits its field reads back.
pub from_be-be_bytes : (w n : ℕ) → n < 256 ^ w → from_be 0 (be_bytes w n) ≡ n
unfolding be_bytes
from_be-be_bytes zero n h = unfold from_be in omega arith
from_be-be_bytes (suc w) n h =
    from_be-append 0 (be_bytes w (n / 256)) (n % 256)
    ∙ omega (arith, from_be-be_bytes w (n / 256) (omega (arith, pow-suc 256 w)))

-- One packed field in front of any bytes.
pack_field-reads :
    (w : ℕ) (v : ℤ) (rest : Bytes) {b : Bytes}
    → pack_field w v ≡ ok b
    → (n : ℕ) × (v ≡ pos n)
      × (from_be 0 (take w (b ++ rest)) ≡ n)
      × (drop w (b ++ rest) ≡ rest)
      × (length b ≡ w)
unfolding pack_field
pack_field-reads w (pos n) rest {b} h = elim (Bool-cases (ltb n (256 ^ w))) [
  | inr big ↦ absurd (ground arith)
  | inl small ↦
      let built : be_bytes w n ≡ b = ground arith in
      let size : length b ≡ w = ap length (sym built) ∙ length-be_bytes w n in
      let cut : take w (b ++ rest) ≡ b =
        ap (λ k. take k (b ++ rest)) (sym size) ∙ take-append b rest in
      let left : drop w (b ++ rest) ≡ rest =
        ap (λ k. drop k (b ++ rest)) (sym size) ∙ drop-append b rest in
      (
        n,
        refl,
        ap (from_be 0) (cut ∙ sym built) ∙ from_be-be_bytes w n (ltb→lt n (256 ^ w) small),
        left,
        size,
      )
]
pack_field-reads w (negsuc n) rest h = absurd (cc h)

-- What was packed is unpacked again, whatever bytes follow.
pub unpack-pack :
    (ws : List ℕ) (vs : List ℤ) (rest : Bytes) {bs : Bytes}
    → pack ws vs ≡ ok bs
    → (ns : List ℕ) × (vs ≡ map pos ns)
      × (unpack ws (bs ++ rest) ≡ (ns, rest))
      × (length bs ≡ calcsize ws)
unfolding pack unpack
unpack-pack [] [] rest {bs} h = ([], refl, (ground arith), ground arith)
unpack-pack [] (v ∷ vs) rest h = absurd (cc h)
unpack-pack (w ∷ ws) [] rest h = absurd (cc h)
unpack-pack (w ∷ ws) (v ∷ vs) rest {bs} h =
    let (b, first, more) = >>=-eq-ok (pack_field w v) _ h in
    let (cs, second, built) = >>=-eq-ok (pack ws vs) _ more in
    let (n, value, reads, left, size) = pack_field-reads w v (cs ++ rest) first in
    let (ns, values, rest_reads, rest_size) = unpack-pack ws vs rest second in
    let same : b ++ cs ≡ bs = cc built in
    let whole : bs ++ rest ≡ b ++ (cs ++ rest) =
      ap (λ l. l ++ rest) (sym same) ∙ append_assoc b cs rest in
    (
      n ∷ ns,
      cc (value, values),
      rw (whole, reads, left, rest_reads),
      ap length (sym same) ∙ omega (arith, length-append b cs, size, rest_size),
    )

pos_part-map : (ns : List ℕ) → map pos_part (map pos ns) ≡ ns
pos_part-map [] = refl
pos_part-map (n ∷ ns) = ap (◌∷◌ n) (pos_part-map ns)

-- The same with the values read off what was packed.
pub unpack-pack_values :
    (ws : List ℕ) (vs : List ℤ) (rest : Bytes) {bs : Bytes}
    → pack ws vs ≡ ok bs
    → (vs ≡ map pos (map pos_part vs))
      × (unpack ws (bs ++ rest) ≡ (map pos_part vs, rest))
      × (length bs ≡ calcsize ws)
unpack-pack_values ws vs rest h =
    let (ns, values, reads, size) = unpack-pack ws vs rest h in
    let back : map pos_part vs ≡ ns = ap (map pos_part) values ∙ pos_part-map ns in
    (values ∙ ap (map pos) (sym back), reads ∙ ap (λ l. (l, rest)) (sym back), size)
