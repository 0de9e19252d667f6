-- ===== src/Control/Read.antt =====
-- What the control plane reads out of the JSON that it stores: `dict.get`, and the models of
-- capability.py and manifest.py as `model_validate` gives them back from their own dump.
use mesh_compute.Python.{Floats}
use mesh_compute.Prelude.Bytes.{Str, codes}
use mesh_compute.Prelude.{
  Option, none, some, List, [], ◌∷◌, map, if◌then◌else◌, ◌==◌, nat_eq, list_eq,
}
use mesh_compute.Prelude.Int.{ℤ, pos}
use mesh_compute.Protocol.Json.{
  null, int, float, str, arr, obj, nil, cons, end, field, canonical_json, Json, Items, Fields,
}
use mesh_compute.Protocol.Identity.{blake3_hex, Crypto}
use mesh_compute.Scheduler.Node.{
  BenchmarkResult, CapabilityRecord, GpuInfo, ModelManifest, Quantization, ShardFile,
}

module _ {F : Type 0} where
  abbrev pub member : Str → Fields F → Option (Json F)
  member k end = none
  member k (field j v fs) = if k == j then some v else member k fs

  -- `d.get(k)`
  abbrev pub get : Str → Json F → Option (Json F)
  get k (obj fs) = member k fs
  get k _ = none

  -- The value of a field that is there.
  abbrev pub or_null : Option (Json F) → Json F
  or_null none = null
  or_null (some j) = j

  abbrev pub str_of : Option (Json F) → Str
  str_of (some (str s)) = s
  str_of _ = []

  abbrev pub int_of : ℤ → Option (Json F) → ℤ
  int_of d (some (int n)) = n
  int_of d _ = d

  -- A number that may be `None`.
  abbrev pub float_of : Option (Json F) → Option F
  float_of (some (float x)) = some x
  float_of _ = none

  abbrev pub items_of : Items F → List (Json F)
  items_of nil = []
  items_of (cons x xs) = x ∷ items_of xs

  -- `d.get(k, [])`
  abbrev pub list_of : Option (Json F) → List (Json F)
  list_of (some (arr xs)) = items_of xs
  list_of _ = []

  abbrev pub strs_of : Option (Json F) → List Str
  strs_of o = map (λ x. str_of (some x)) (list_of o)

  unfoldable pub gpu_of : Json F → GpuInfo
  gpu_of j = record {
    vram_bytes = int_of (pos 0) (get (codes "vram_bytes") j);
    free_vram_bytes = int_of (pos 0) (get (codes "free_vram_bytes") j);
  }

  abbrev benchmark_of : Option (Json F) → BenchmarkResult F
  benchmark_of none = record { decode_tokens_per_sec = none; prefill_tokens_per_sec = none }
  benchmark_of (some j) = record {
    decode_tokens_per_sec = float_of (get (codes "decode_tokens_per_sec") j);
    prefill_tokens_per_sec = float_of (get (codes "prefill_tokens_per_sec") j);
  }

  -- `CapabilityRecord`, in the fields that the scheduler reads.
  unfoldable pub capability_of : Json F → CapabilityRecord F
  unfolding gpu_of
  capability_of j = record {
    node_id = str_of (get (codes "node_id") j);
    gpus = map gpu_of (list_of (get (codes "gpus") j));
    ram_free_bytes = int_of (pos 0) (get (codes "ram_free_bytes") j);
    backends = strs_of (get (codes "backends") j);
    strategies = strs_of (get (codes "strategies") j);
    benchmark = benchmark_of (get (codes "benchmark") j);
  }

  unfoldable pub file_of : Json F → ShardFile
  file_of j = record {
    rfilename = str_of (get (codes "rfilename") j);
    size_bytes = int_of (pos 0) (get (codes "size_bytes") j);
  }

  unfoldable pub quantization_of : Json F → Quantization
  unfolding file_of
  quantization_of j = record { files = map file_of (list_of (get (codes "files") j)) }

  abbrev runtime_backends : Option (Json F) → List Str
  runtime_backends none = []
  runtime_backends (some j) = strs_of (get (codes "backends") j)

  -- `manifest.get("version", 1)`
  unfoldable pub version_of : Json F → ℤ
  version_of j = int_of (pos 1) (get (codes "version") j)

  unfoldable pub alias_of : Json F → Str
  alias_of j = str_of (get (codes "id") j)

  module _ ⦃fl : Floats F⦄ ⦃cr : Crypto⦄ where
    -- `ModelManifest.manifest_hash`
    unfoldable pub manifest_hash : Json F → Str
    manifest_hash j = blake3_hex (canonical_json j)

    -- `ModelManifest`, in the fields that the scheduler reads.
    unfoldable pub manifest_of : Json F → ModelManifest
    unfolding quantization_of alias_of manifest_hash
    manifest_of j = record {
      model_id = alias_of j;
      manifest_hash = manifest_hash j;
      backends = runtime_backends (get (codes "runtime") j);
      quantizations = map quantization_of (list_of (get (codes "quantizations") j));
    }
