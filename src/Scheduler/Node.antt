-- ===== src/Scheduler/Node.antt =====
-- What the scheduler reads of a node, a model and a plan: capability.py, manifest.py and session.py
-- of packages/protocol/meshcompute_protocol. Fields that it does not read are left out.
use mesh_compute.Prelude.Int.{sum, ℤ}
use mesh_compute.Prelude.Bytes.{codes, Str}
use mesh_compute.Prelude.{ℕ, Option, List, map, nat_eq, list_eq}

pub data Strategy : Type 0 where
  single pipeline tensor expert speculative replica : Strategy

-- `Strategy.value`
abbrev pub strategy_value : Strategy → Str
strategy_value single = codes "single"
strategy_value pipeline = codes "pipeline"
strategy_value tensor = codes "tensor"
strategy_value expert = codes "expert"
strategy_value speculative = codes "speculative"
strategy_value replica = codes "replica"

pub record GpuInfo : Type 0 where
  pub vram_bytes : ℤ
  pub free_vram_bytes : ℤ

pub record BenchmarkResult (F : Type 0) : Type 0 where
  pub decode_tokens_per_sec : Option F
  pub prefill_tokens_per_sec : Option F

pub record CapabilityRecord (F : Type 0) : Type 0 where
  pub node_id : Str
  pub gpus : List GpuInfo
  pub ram_free_bytes : ℤ
  pub backends : List Str
  pub strategies : List Str
  pub benchmark : BenchmarkResult F

unfoldable pub total_vram_bytes : {F : Type 0} → CapabilityRecord F → ℤ
total_vram_bytes n = sum (map (λ g. g.vram_bytes) n.gpus)

unfoldable pub free_vram_bytes : {F : Type 0} → CapabilityRecord F → ℤ
free_vram_bytes n = sum (map (λ g. g.free_vram_bytes) n.gpus)

pub record ShardFile : Type 0 where
  pub rfilename : Str
  pub size_bytes : ℤ

pub record Quantization : Type 0 where
  pub files : List ShardFile

-- `manifest_hash` is the value of the method of that name.
pub record ModelManifest : Type 0 where
  pub model_id : Str
  pub manifest_hash : Str
  pub backends : List Str
  pub quantizations : List Quantization

pub record ShardAssignment : Type 0 where
  pub node_id : Str
  pub role : Strategy
  pub layer_start : Option ℕ
  pub layer_end : Option ℕ
  pub backend : Str
