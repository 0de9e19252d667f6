-- ===== src/Prelude/Bits.antt =====
-- Exclusive or of numbers, digit by digit: it undoes itself, and stays in the range of a word.
use Prim.Native.Nat.{
  ℕ, zero, suc, ◌+◌, ◌*◌, ◌/◌, ◌%◌, ◌^◌, ◌≤◌, ◌<◌, differ, digits, bit_xor, bit_xor-bitwise,
}
use mathlib.Core.Path.{◌≡◌, refl}
use native.Mathlib.Omega.{arith}
use native.Mathlib.Nat.{pow-suc}

-- `bit_xor` with a count of its own for the digits to go.
abbrev xor_within : ℕ → ℕ → ℕ → ℕ
xor_within n a b = digits (λ b. b) differ n a b

xor_within_any : (n m a b : ℕ) → a ≤ n → a ≤ m → xor_within n a b ≡ xor_within m a b
xor_within_any zero zero a b p q = refl
xor_within_any zero (suc m) zero b p q = refl
xor_within_any zero (suc m) (suc a) b p q = absurd (omega arith)
xor_within_any (suc n) zero zero b p q = refl
xor_within_any (suc n) zero (suc a) b p q = absurd (omega arith)
xor_within_any (suc n) (suc m) zero b p q = refl
xor_within_any (suc n) (suc m) (suc a) b p q =
    omega (arith, xor_within_any n m (suc a / 2) (b / 2) (omega arith) (omega arith))

bit_xor_zero : (b : ℕ) → bit_xor 0 b ≡ b
bit_xor_zero b = bit_xor-bitwise 0 b

differ_digits :
    (a b : ℕ) → a < 2 → b < 2 → (differ a b < 2) × (differ (differ a b) b ≡ a) × (differ 0 b ≡ b)
differ_digits zero zero p q = (omega arith, refl, refl)
differ_digits zero (suc zero) p q = (omega arith, refl, refl)
differ_digits zero (suc (suc b)) p q = absurd (omega arith)
differ_digits (suc zero) zero p q = (omega arith, refl, refl)
differ_digits (suc zero) (suc zero) p q = (omega arith, refl, refl)
differ_digits (suc zero) (suc (suc b)) p q = absurd (omega arith)
differ_digits (suc (suc a)) b p q = absurd (omega arith)

-- The lowest digits apart from the others.
bit_xor_halves : (a b : ℕ) → bit_xor a b ≡ bit_xor (a / 2) (b / 2) * 2 + differ (a % 2) (b % 2)
bit_xor_halves zero b = omega (
  arith,
  bit_xor_zero b,
  bit_xor_zero (b / 2),
  (differ_digits 0 (b % 2) (omega arith) (omega arith)).2,
)
bit_xor_halves (suc a) b = omega (
  arith,
  bit_xor-bitwise (suc a) b,
  bit_xor-bitwise (suc a / 2) (b / 2),
  xor_within_any a (suc a / 2) (suc a / 2) (b / 2) (omega arith) (omega arith),
)

bit_xor_twice_within : (n a b : ℕ) → a ≤ n → b ≤ n → bit_xor (bit_xor a b) b ≡ a
bit_xor_twice_within zero zero zero p q = refl
bit_xor_twice_within zero zero (suc b) p q = absurd (omega arith)
bit_xor_twice_within zero (suc a) b p q = absurd (omega arith)
bit_xor_twice_within (suc n) a b p q =
    let (small, undone, _) = differ_digits (a % 2) (b % 2) (omega arith) (omega arith) in
    let high : bit_xor a b / 2 ≡ bit_xor (a / 2) (b / 2) =
      omega (arith, bit_xor_halves a b, small) in
    let low : bit_xor a b % 2 ≡ differ (a % 2) (b % 2) = omega (arith, bit_xor_halves a b, small) in
    let again = rw (high, low) at (bit_xor_halves (bit_xor a b) b) in
    omega (arith, again, undone, bit_xor_twice_within n (a / 2) (b / 2) (omega arith) (omega arith))

pub bit_xor_twice : (a b : ℕ) → bit_xor (bit_xor a b) b ≡ a
bit_xor_twice a b = bit_xor_twice_within (a + b) a b (omega arith) (omega arith)

pub bit_xor_bounded : (w a b : ℕ) → a < 2 ^ w → b < 2 ^ w → bit_xor a b < 2 ^ w
bit_xor_bounded zero zero b p q = omega (arith, bit_xor_zero b)
bit_xor_bounded zero (suc a) b p q = absurd (omega arith)
bit_xor_bounded (suc w) a b p q = omega (
  arith,
  bit_xor_halves a b,
  pow-suc 2 w,
  bit_xor_bounded w (a / 2) (b / 2) (omega (arith, pow-suc 2 w)) (omega (arith, pow-suc 2 w)),
  (differ_digits (a % 2) (b % 2) (omega arith) (omega arith)).0,
)
