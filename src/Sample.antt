-- ===== src/Sample.antt =====
-- Small instances of the parameters, on which the tests of the other modules run: numbers in the
-- place of floats, a hash and a signature scheme with one value each, and a compression that adds
-- a byte in front.
use mesh_compute.Python.{Floats}
use mesh_compute.Prelude.Int.{negsuc, pos, ℤ}
use mesh_compute.Prelude.Bytes.{IsByte, Bytes}
use mesh_compute.Prelude.{
  ℕ, zero, suc, ◌+◌, ◌-◌, ◌*◌, ◌/◌, ◌^◌, ◌≤◌, max, ◌≡◌, inl, inr, refl, subst, true, ◌&&◌, some, [],
  ◌∷◌, arith, if◌then◌else◌, ltb, leb, nat_beq, Bool-cases, length, All, Result, ok, err, nat_eq,
  list_eq,
}
use mesh_compute.Protocol.Identity.{Crypto, IsCrypto}
use mesh_compute.Frames.Frame.{Zlib, IsZlib}
use mesh_compute.Frames.Struct.{FrameError}

abbrev pos_or_zero : ℤ → ℕ
pos_or_zero (pos n) = n
pos_or_zero (negsuc n) = 0

instance abbrev pub nat_floats : Floats ℕ
nat_floats = record {
  decimal = λ m k. pos_or_zero m / 10 ^ k;
  of_int = pos_or_zero;
  add = λ x y. x + y;
  sub = λ x y. x - y;
  mul = λ x y. x * y;
  div = λ x y. x / y;
  abs = λ x. x;
  round = λ x n. x;
  trunc = λ x. pos x;
  lt = ltb;
  le = leb;
  is_zero = λ x. nat_beq x 0;
  repr = λ x. [];
}

abbrev nulls : ℕ → Bytes
nulls zero = []
nulls (suc n) = 0 ∷ nulls n

instance abbrev pub sample_crypto : Crypto
sample_crypto = record {
  blake3 = λ m. nulls 32;
  ed25519_verify = λ key m sig. true;
  ed25519_sign = λ sk m. [];
  ed25519_public = λ sk. nulls 32;
  b64 = λ b. b;
  unb64 = λ s. some s;
}

nulls-IsByte : (n : ℕ) → All IsByte (nulls n)
nulls-IsByte zero = tt
nulls-IsByte (suc n) = (omega arith, nulls-IsByte n)

pub sample_crypto-IsCrypto : IsCrypto sample_crypto
sample_crypto-IsCrypto = record {
  digest_length = λ m. refl;
  digest_bytes = λ m. nulls-IsByte 32;
  key_length = λ sk. refl;
  sign_verifies = λ sk m. refl;
  unb64-b64 = λ b. refl;
}

-- What does not begin with the byte 120, or is too long, is a broken stream.
abbrev sample_decompress : Bytes → ℕ → Result FrameError (Bytes × Bytes)
sample_decompress [] max = err FrameError.zlib_error
sample_decompress (b ∷ p) max =
    if nat_beq b 120 && leb (length p) max then ok (p, []) else err FrameError.zlib_error

abbrev pub sample_zlib : Zlib
sample_zlib = record {
  crc32 = λ b. length b;
  compress = λ b. 120 ∷ b;
  decompress = sample_decompress;
}

sample_decompress_bounded :
    (buf : Bytes) (max : ℕ) (p tail : Bytes)
    → sample_decompress buf max ≡ ok (p, tail)
    → length p ≤ max
sample_decompress_bounded [] max p tail h = cc
sample_decompress_bounded (b ∷ q) max p tail h =
    elim (Bool-cases (nat_beq b 120 && leb (length q) max)) [
      | inr bad ↦ absurd (let e = rw bad at h in cc)
      | inl good ↦
          let same : q ≡ p = (let e = rw good at h in cc) in
          subst (λ r. length r ≤ max) same (ground arith)
    ]

pub sample_zlib-IsZlib : IsZlib sample_zlib
sample_zlib-IsZlib = record {
  decompress-compress = λ p max h. ground arith;
  decompress_bounded = sample_decompress_bounded;
}
