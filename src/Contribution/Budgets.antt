-- ===== src/Contribution/Budgets.antt =====
-- The resource budgets: a share of the machine as numbers that a launch is given.
use mesh_compute.Prelude.{
  ℕ, ◌*◌, ◌/◌, ◌^◌, ◌≤◌, min, max, ◌≡◌, ◌⊎◌, ◌||◌, Option, none, some, arith, if◌then◌else◌,
  nat_beq, nat_eq, list_eq,
}
use mesh_compute.Prelude.Int.{pos, ltb_ℤ, leb_ℤ, max_ℤ, ℤ}
use mesh_compute.Python.{Floats}

-- `min` and `max` of the integers.
abbrev min_ℤ : ℤ → ℤ → ℤ
min_ℤ a b = if ltb_ℤ b a then b else a

unfoldable pub vram_budget_bytes : {F : Type 0} → Floats F → ℤ → ℤ → ℤ
vram_budget_bytes fl total_vram max_vram_percent =
    fl.trunc
      (fl.div (fl.mul (fl.of_int total_vram) (fl.of_int max_vram_percent)) (fl.of_int (pos 100)))

module _ {F : Type 0} ⦃fl : Floats F⦄ where
  -- `ncores` is what `ncores or os.cpu_count() or 1` gives; `round_int` is Python's `round` to an
  -- integer.
  unfoldable pub cpu_thread_budget : (F → ℤ) → ℤ → ℤ → ℤ
  cpu_thread_budget round_int max_cpu_percent ncores = max_ℤ (pos 1) (
      round_int
        (fl.div (fl.mul (fl.of_int ncores) (fl.of_int max_cpu_percent)) (fl.of_int (pos 100))))

  -- `int(vram_budget // (model_file_bytes / max(1, hint)))`; `floor_div` is `//` on floats.
  unfoldable pub bound_n_gpu_layers : (F → F → F) → ℤ → ℤ → ℤ → ℤ → ℤ
  bound_n_gpu_layers floor_div requested_ngl vram_budget model_file_bytes total_layers_hint =
      if leb_ℤ requested_ngl (pos 0) || leb_ℤ vram_budget (pos 0) || leb_ℤ model_file_bytes (pos 0)
      then requested_ngl
      else let bytes_per_layer =
          fl.div (fl.of_int model_file_bytes) (fl.of_int (max_ℤ (pos 1) total_layers_hint)) in
        max_ℤ (pos 0)
          (min_ℤ requested_ngl (fl.trunc (floor_div (fl.of_int vram_budget) bytes_per_layer)))

-- A cap in GiB, or all of it.
unfoldable pub ram_budget_bytes : ℕ → Option ℕ → ℕ
ram_budget_bytes total_ram none = total_ram
ram_budget_bytes total_ram (some gb) =
    let cap = gb * 2 ^ 30 in if nat_beq total_ram 0 then cap else min total_ram cap

abbrev pub kv_bytes_per_token : ℕ
kv_bytes_per_token = 128 * 1024

-- On what is left of a requested context when the RAM budget is small. The budget of a machine is
-- never negative; 0 stands for one that is not known.
unfoldable pub bound_ctx_size : ℕ → ℕ → ℕ → ℕ
bound_ctx_size requested_ctx ram_budget min_ctx =
    if nat_beq ram_budget 0
    then requested_ctx
    else let budget_ctx = ram_budget / kv_bytes_per_token in
      if nat_beq budget_ctx 0 then min_ctx else max min_ctx (min requested_ctx budget_ctx)

-- With a known budget, the bounded context has at least the minimum, it is the minimum or no more
-- than was asked for, and it is the minimum or its KV cache fits the budget.
pub bound_ctx_size_lem :
    (requested budget min_ctx : ℕ)
    → 1 ≤ budget
    → (min_ctx ≤ bound_ctx_size requested budget min_ctx)
      × ((bound_ctx_size requested budget min_ctx ≡ min_ctx)
          ⊎ ((bound_ctx_size requested budget min_ctx ≤ requested)
              × (bound_ctx_size requested budget min_ctx * kv_bytes_per_token ≤ budget)))
unfolding bound_ctx_size
bound_ctx_size_lem requested budget min_ctx known = ground arith
