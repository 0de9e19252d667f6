-- ===== src/Prelude/Bytes.antt =====
-- Byte strings as lists of numbers, and the big-endian fields of `struct`.
use Prim.Native.Nat.{ℕ, zero, suc, ◌+◌, ◌-◌, ◌*◌, ◌/◌, ◌%◌, ◌<◌}
use Prim.Native.Char.{code}
use Prim.Native.String.{String}
use mathlib.Core.Path.{◌≡◌, refl}
use mathlib.Core.Logic.{◌⊎◌, inl, inr}
use mathlib.Core.Bool.{Bool, true, false}
use mathlib.Core.List.{List, [], ◌∷◌, ◌++◌}
use native.Mathlib.Omega.{arith}
use mesh_compute.Prelude.Tests.{if◌then◌else◌, ltb}
use mesh_compute.Prelude.Sort.{IsOrder}
use mesh_compute.Prelude.Lists.{All}
use mesh_compute.Prelude.Lists.{length, length-append}

abbrev pub Bytes : Type 0
Bytes = List ℕ

-- The code points of a text.
abbrev pub codes : String → List ℕ
codes String.[] = []
codes (String.◌∷◌ c s) = code c ∷ codes s

-- `struct.pack` of one unsigned field of `w` bytes.
unfoldable pub be_bytes : ℕ → ℕ → Bytes
be_bytes zero n = []
be_bytes (suc w) n = be_bytes w (n / 256) ++ (n % 256) ∷ []

-- `struct.unpack` of one unsigned field: the bytes that come first weigh more.
unfoldable pub from_be : ℕ → Bytes → ℕ
from_be acc [] = acc
from_be acc (b ∷ bs) = from_be (acc * 256 + b) bs

pub length-be_bytes : (w n : ℕ) → length (be_bytes w n) ≡ w
unfolding be_bytes
length-be_bytes zero n = refl
length-be_bytes (suc w) n =
    omega
      (arith, length-append (be_bytes w (n / 256)) ((n % 256) ∷ []), length-be_bytes w (n / 256))

-- A Python `str` is the list of its code points.
abbrev pub Str : Type 0
Str = List ℕ

-- Python's `<=` on strings: by code points, the shorter first.
unfoldable pub lex_le : List ℕ → List ℕ → Bool
lex_le [] ys = true
lex_le (x ∷ xs) [] = false
lex_le (x ∷ xs) (y ∷ ys) = if ltb x y then true else if ltb y x then false else lex_le xs ys

lex_le_total : (xs ys : List ℕ) → (lex_le xs ys ≡ true) ⊎ (lex_le ys xs ≡ true)
unfolding lex_le
lex_le_total [] ys = inl refl
lex_le_total (x ∷ xs) [] = inr refl
lex_le_total (x ∷ xs) (y ∷ ys) = ground (arith, lex_le_total xs ys)

lex_le_trans : (xs ys zs : List ℕ) → lex_le xs ys ≡ true → lex_le ys zs ≡ true → lex_le xs zs ≡ true
unfolding lex_le
lex_le_trans [] ys zs h k = refl
lex_le_trans (x ∷ xs) [] zs h k = cc
lex_le_trans (x ∷ xs) (y ∷ ys) [] h k = cc
lex_le_trans (x ∷ xs) (y ∷ ys) (z ∷ zs) h k = ground (arith, lex_le_trans xs ys zs)

pub lex_le-IsOrder : IsOrder lex_le
lex_le-IsOrder = record { total = lex_le_total; trans = lex_le_trans }

abbrev pub IsByte : ℕ → Type 0
IsByte b = b < 256

-- `bytes.hex()`
hex_digit : ℕ → ℕ
hex_digit d = if ltb d 10 then 48 + d else 87 + d

unfoldable pub hex : Bytes → Str
unfolding hex_digit
hex [] = []
hex (b ∷ bs) = hex_digit (b / 16) ∷ hex_digit (b % 16) ∷ hex bs

-- `bytes.fromhex(s)`, on the output of `hex`.
unhex_digit : ℕ → ℕ
unhex_digit c = if ltb c 58 then c - 48 else c - 87

unfoldable pub from_hex : Str → Bytes
unfolding unhex_digit
from_hex (c ∷ d ∷ cs) = (unhex_digit c * 16 + unhex_digit d) ∷ from_hex cs
from_hex _ = []

hex_digit_back : (d : ℕ) → d < 16 → unhex_digit (hex_digit d) ≡ d
unfolding hex_digit unhex_digit
hex_digit_back d h = ground arith

-- Printing bytes in hex loses nothing.
pub from_hex-hex : (bs : Bytes) → All IsByte bs → from_hex (hex bs) ≡ bs
unfolding hex from_hex
from_hex-hex [] h = refl
from_hex-hex (b ∷ bs) h =
    ground (arith, hex_digit_back (b / 16), hex_digit_back (b % 16), from_hex-hex bs h.1)
