-- ===== src/Scheduler/Topology.antt =====
-- apps/control-plane/meshcompute_control/topology.py: the measured links between nodes.
use mesh_compute.Prelude.Int.{pos}
use mesh_compute.Python.{Floats}
use mesh_compute.Prelude.Dict.{insert, set_default, lookup_or, lookup, Dict}
use mesh_compute.Prelude.Bytes.{codes, Str}
use mesh_compute.Prelude.{
  Bool, ◌&&◌, none, some, [], ◌∷◌, if◌then◌else◌, ◌==◌, nat_eq, list_eq, contains,
}

pub record LinkMetrics (F : Type 0) : Type 0 where
  pub rtt_ms : F
  pub throughput_mbps : F
  pub packet_loss : F
  pub path_type : Str
  pub stability : F

pub record Vertex (F : Type 0) : Type 0 where
  pub node_id : Str
  pub links : Dict Str (LinkMetrics F)

-- `TopologyGraph`, by its field `_vertices`.
abbrev pub Graph : Type 0 → Type 0
Graph F = Dict Str (Vertex F)

module _ {F : Type 0} ⦃fl : Floats F⦄ where
  unfoldable pub is_lan_class : LinkMetrics F → Bool
  is_lan_class m =
      fl.le m.rtt_ms (fl.decimal (pos 5) 0)
      && fl.le (fl.decimal (pos 500) 0) m.throughput_mbps
      && contains m.path_type (codes "direct" ∷ codes "loopback" ∷ codes "pcie" ∷ [])

  -- The link of a node with itself.
  abbrev pub loopback : LinkMetrics F
  loopback = record {
    rtt_ms = fl.decimal (pos 5) 2;
    throughput_mbps = fl.decimal (pos 100000) 0;
    packet_loss = fl.decimal (pos 0) 0;
    path_type = codes "loopback";
    stability = fl.decimal (pos 1) 0;
  }

  -- What is assumed of a link that was not measured.
  abbrev pub unmeasured : LinkMetrics F
  unmeasured = record {
    rtt_ms = fl.decimal (pos 120) 0;
    throughput_mbps = fl.decimal (pos 100) 0;
    packet_loss = fl.decimal (pos 0) 0;
    path_type = codes "relay";
    stability = fl.decimal (pos 7) 1;
  }

  unfoldable pub upsert_node : Str → Graph F → Graph F
  upsert_node id g = set_default id (record { node_id = id; links = [] }) g

  -- The vertex that `upsert_node` returns.
  unfoldable pub vertex : Str → Graph F → Vertex F
  vertex id g = lookup_or (record { node_id = id; links = [] }) id g

  -- The link from `a` is set; the one back only if none was measured.
  unfoldable pub set_link : Str → Str → LinkMetrics F → Graph F → Graph F
  set_link a b m g =
      let g1 = upsert_node a g in
      let from = vertex a g1 in
      let g2 = insert a (record from { links = insert b m from.links }) g1 in
      let g3 = upsert_node b g2 in
      let to = vertex b g3 in insert b (record to { links = set_default a m to.links }) g3

  unfoldable pub link : Graph F → Str → Str → LinkMetrics F
  link g a b = if a == b then loopback else elim (lookup a g) [
    | none ↦ unmeasured
    | some v ↦ elim (lookup b v.links) [ none ↦ unmeasured | some m ↦ m ]
  ]
