-- ===== src/Python.antt =====
-- Python floats, as a parameter of the models: a type `F` with the operations that the program
-- uses. No model computes with IEEE rounding; what a theorem needs of a comparison it names.
use mesh_compute.Prelude.{ℕ, Bool}
use mesh_compute.Prelude.Int.{ℤ}
use mesh_compute.Prelude.Bytes.{Str}

pub record Floats (F : Type 0) : Type 0 where
  -- the literal m * 10 ^ -k
  pub decimal : ℤ → ℕ → F
  pub of_int : ℤ → F
  pub add : F → F → F
  pub sub : F → F → F
  pub mul : F → F → F
  pub div : F → F → F
  pub abs : F → F
  -- `round(x, n)`
  pub round : F → ℕ → F
  -- `int(x)`
  pub trunc : F → ℤ
  pub lt : F → F → Bool
  pub le : F → F → Bool
  -- `x == 0.0`
  pub is_zero : F → Bool
  -- `repr(x)`, which `json.dumps` prints
  pub repr : F → Str
