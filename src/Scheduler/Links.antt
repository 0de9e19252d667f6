-- ===== src/Scheduler/Links.antt =====
-- What `TopologyGraph.link` answers after `TopologyGraph.set_link`.
use mesh_compute.Prelude.{
  ◌≡◌, ◌≢◌, inl, inr, refl, sym, ap, ◌∙◌, Option, none, some, [], Option-cases, nat_eq, list_eq,
  beq_cases, eq_cases, beq_self,
}
use mesh_compute.Prelude.Dict.{
  lookup-set_default_self, lookup-set_default_ne, or_else, set_default, lookup-insert_ne,
  lookup-insert_self, insert, lookup_or, Dict, lookup,
}
use mesh_compute.Prelude.Bytes.{Str}
use mesh_compute.Python.{Floats}
use mesh_compute.Scheduler.Topology.{
  unmeasured, LinkMetrics, Vertex, link, Graph, upsert_node, vertex, set_link,
}

module _ {F : Type 0} ⦃fl : Floats F⦄ where
  abbrev pub links_or : Option (Vertex F) → Dict Str (LinkMetrics F)
  links_or none = []
  links_or (some v) = v.links

  -- The links measured from a node; none for a node that is not in the graph.
  abbrev pub links_of : Graph F → Str → Dict Str (LinkMetrics F)
  links_of g a = links_or (lookup a g)

  link_lem : (g : Graph F) (a b : Str) → a ≢ b → link g a b ≡ lookup_or unmeasured b (links_of g a)
  unfolding link
  link_lem g a b h = elim (beq_cases a b) [
    | inl (_, same) ↦ absurd (h same)
    | inr (other, _) ↦ elim (Option-cases (lookup a g)) [
      | inl gone ↦ rw (other, gone) refl
      | inr (v, found) ↦ rw (other, found) refl
    ]
  ]

  links_of-insert_self :
      (a : Str) (v : Vertex F) (g : Graph F) → links_of (insert a v g) a ≡ v.links
  links_of-insert_self a v g = ap links_or (lookup-insert_self a v g)

  links_of-insert_ne :
      (a c : Str) (v : Vertex F) (g : Graph F) → c ≢ a → links_of (insert a v g) c ≡ links_of g c
  links_of-insert_ne a c v g h = ap links_or (lookup-insert_ne c a v g h)

  links_of-upsert_node : (a c : Str) (g : Graph F) → links_of (upsert_node a g) c ≡ links_of g c
  unfolding upsert_node
  links_of-upsert_node a c g = elim (Option-cases (lookup a g)) [
    | inr (v, found) ↦ rw found refl
    | inl gone ↦ elim (beq_cases c a) [
      | inl (_, same) ↦ rw (gone, same, gone) (links_of-insert_self a _ g)
      | inr (_, other) ↦ rw gone (links_of-insert_ne a c _ g other)
    ]
  ]

  vertex-links : (a : Str) (g : Graph F) → (vertex a g).links ≡ links_of g a
  unfolding vertex
  vertex-links a g = elim (Option-cases (lookup a g)) [
    | inl gone ↦ rw gone refl
    | inr (v, found) ↦ rw found refl
  ]

  -- The links from each node once the link from `a` to `b` is set.
  set_link-links_of :
      (a b c : Str) (m : LinkMetrics F) (g : Graph F)
      → a ≢ b
      → (links_of (set_link a b m g) a ≡ insert b m (links_of g a))
        × (links_of (set_link a b m g) b ≡ set_default a m (links_of g b))
        × (c ≢ a → c ≢ b → links_of (set_link a b m g) c ≡ links_of g c)
  unfolding set_link
  set_link-links_of a b c m g h =
      let g1 = upsert_node a g in
      let g2 = insert a (record (vertex a g1) { links = insert b m (vertex a g1).links }) g1 in
      let g3 = upsert_node b g2 in
      let v = record (vertex b g3) { links = set_default a m (vertex b g3).links } in
      let other : (d : Str) → d ≢ b → links_of (insert b v g3) d ≡ links_of g2 d =
        λ d k. links_of-insert_ne b d v g3 k ∙ links_of-upsert_node b d g2 in
      (
        other a h
            ∙ links_of-insert_self a _ g1
            ∙ ap (insert b m) (vertex-links a g1 ∙ links_of-upsert_node a a g),
        links_of-insert_self b v g3
            ∙ ap (set_default a m) (
                vertex-links b g3
                ∙ links_of-upsert_node b b g2
                ∙ links_of-insert_ne a b _ g1 (λ e. h (sym e))
                ∙ links_of-upsert_node a b g),
        λ k l. other c l ∙ links_of-insert_ne a c _ g1 k ∙ links_of-upsert_node a c g,
      )

  -- The link of any other pair is kept.
  other_pairs :
      (a b : Str) (m : LinkMetrics F) (g : Graph F)
      → a ≢ b
      → (c d : Str) → ¬ ((c ≡ a) × (d ≡ b))
      → ¬ ((c ≡ b) × (d ≡ a))
      → link (set_link a b m g) c d ≡ link g c d
  other_pairs a b m g h c d k l = elim (eq_cases c d) [
    | inl self ↦ unfold link in rw (self, beq_self d) refl
    | inr far ↦
        let (from_a, from_b, from_c) = set_link-links_of a b c m g h in
        let kept : lookup d (links_of (set_link a b m g) c) ≡ lookup d (links_of g c) =
          elim (eq_cases c a) [
            | inl is_a ↦
                rw (is_a, from_a) (lookup-insert_ne d b m (links_of g a) (λ e. k (is_a, e)))
            | inr not_a ↦ elim (eq_cases c b) [
              | inl is_b ↦
                  rw (is_b, from_b) (lookup-set_default_ne d a m (links_of g b) (λ e. l (is_b, e)))
              | inr not_b ↦ ap (lookup d) (from_c not_a not_b)
            ]
          ] in
        link_lem (set_link a b m g) c d far
        ∙ ap (or_else unmeasured) kept
        ∙ sym (link_lem g c d far)
  ]

  -- After the link from one node to another is set, `link` answers with it for that direction; for
  -- the reverse with what was measured there before, or with the same if nothing was; and for any
  -- other pair of nodes as before.
  pub set_link-link :
      (a b : Str) (m : LinkMetrics F) (g : Graph F)
      → a ≢ b
      → (link (set_link a b m g) a b ≡ m)
        × (link (set_link a b m g) b a ≡ lookup_or m a (links_of g b))
        × ((c d : Str)
            → ¬ ((c ≡ a) × (d ≡ b))
            → ¬ ((c ≡ b) × (d ≡ a))
            → link (set_link a b m g) c d ≡ link g c d)
  set_link-link a b m g h =
      let new = set_link a b m g in
      let (from_a, from_b, _) = set_link-links_of a b a m g h in
      (
        link_lem new a b h
            ∙ ap (λ l. lookup_or unmeasured b l) from_a
            ∙ ap (or_else unmeasured) (lookup-insert_self b m (links_of g a)),
        link_lem new b a (λ e. h (sym e))
            ∙ ap (λ l. lookup_or unmeasured a l) from_b
            ∙ ap (or_else unmeasured) (lookup-set_default_self a m (links_of g b)),
        other_pairs a b m g h,
      )
