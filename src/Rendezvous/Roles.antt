-- ===== src/Rendezvous/Roles.antt =====
-- The peers that `announce` reports: who holds the content, and who is fetching it.
use mesh_compute.Prelude.{
  ◌≡◌, ◌≢◌, ◌↔◌, ◌⊎◌, inl, inr, refl, sym, ap, subst, ◌∙◌, true, false, Option, none, some, List,
  [], ◌∷◌, Bool-cases, Elem, ok, ◌==◌, nat_eq, list_eq, beq_cases,
}
use mesh_compute.Rendezvous.Tracker.{told, announced, announce, Rendezvous}
use mesh_compute.Protocol.Identity.{Crypto}
use mesh_compute.Prelude.Dict.{Elem-insert_ne, insert-Elem_ne, Dict}
use mesh_compute.Prelude.Bytes.{codes, Str}
use mesh_compute.Rendezvous.Peers.{
  RendezvousPeers, RendezvousAnnounce, overlap, add_option, Peer, PeerCandidate, report, others,
}
use mesh_compute.Python.{Floats}
use mesh_compute.Rendezvous.Leader.{announce-parts}

add_option_cases :
    (r : Option PeerCandidate) (l : List PeerCandidate) (c : PeerCandidate)
    → Elem c (add_option r l)
    → (r ≡ some c) ⊎ Elem c l
add_option_cases none l c m = inr m
add_option_cases (some w) l c (inl e) = inl (ap (λ z. some z) (sym e))
add_option_cases (some w) l c (inr m) = inr m

add_option_intro :
    (r : Option PeerCandidate) (l : List PeerCandidate) (c : PeerCandidate)
    → (r ≡ some c) ⊎ Elem c l
    → Elem c (add_option r l)
add_option_intro none l c (inl e) = cc
add_option_intro none l c (inr m) = m
add_option_intro (some w) l c (inl e) = inl (cc)
add_option_intro (some w) l c (inr m) = inr m

module _ {F : Type 0} ⦃fl : Floats F⦄ where
  -- What a candidate says of a peer, to an announcer that wants something.
  abbrev pub TellsRole : List Str → PeerCandidate → Peer F → Type 0
  TellsRole wanted c p =
      ((overlap p.seeding wanted ≡ true) × (c ≡ record p.candidate { role = codes "seeder" }))
      ⊎ ((overlap p.seeding wanted ≡ false)
          × (overlap p.wanted wanted ≡ true)
          × (c ≡ record p.candidate { role = codes "leecher" }))

  report_sound :
      (wanted seeding : List Str) (p : Peer F) (c : PeerCandidate)
      → (wanted == []) ≡ false
      → report wanted seeding p ≡ some c
      → TellsRole wanted c p
  unfolding report
  report_sound wanted seeding p c some_wanted e = elim (Bool-cases (overlap p.seeding wanted)) [
    | inl holds ↦ inl (holds, let e2 = rw (some_wanted, holds) at e in cc)
    | inr lacks ↦ elim (Bool-cases (overlap p.wanted wanted)) [
      | inl fetches ↦ inr (lacks, fetches, let e2 = rw (some_wanted, lacks, fetches) at e in cc)
      | inr neither ↦ absurd (let e2 = rw (some_wanted, lacks, neither) at e in cc)
    ]
  ]

  report_complete :
      (wanted seeding : List Str) (p : Peer F) (c : PeerCandidate)
      → (wanted == []) ≡ false
      → TellsRole wanted c p
      → report wanted seeding p ≡ some c
  unfolding report
  report_complete wanted seeding p c some_wanted (inl (holds, made)) =
      rw (some_wanted, holds, made) refl
  report_complete wanted seeding p c some_wanted (inr (lacks, fetches, made)) =
      rw (some_wanted, lacks, fetches, made) refl

  others_sound :
      (id : Str) (wanted seeding : List Str) (d : Dict Str (Peer F)) (c : PeerCandidate)
      → Elem c (others id wanted seeding d)
      → (e : Str × Peer F) × Elem e d × (e.0 ≢ id) × (report wanted seeding e.1 ≡ some c)
  unfolding others
  others_sound id wanted seeding [] c m = absurd m
  others_sound id wanted seeding ((nid, p) ∷ d) c m = elim (beq_cases nid id) [
    | inl (same, _) ↦
        let (e, k, differs, told) = others_sound id wanted seeding d c (rw same at m) in
        (e, inr k, differs, told)
    | inr (other, differs) ↦
        elim (add_option_cases (report wanted seeding p) (others id wanted seeding d) c
          (rw other at m)) [
            | inl told ↦ ((nid, p), inl refl, differs, told)
            | inr later ↦
                let (e, k, far, told) = others_sound id wanted seeding d c later in
                (e, inr k, far, told)
          ]
  ]

  others_complete :
      (id : Str) (wanted seeding : List Str) (d : Dict Str (Peer F)) (c : PeerCandidate)
      (e : Str × Peer F)
      → Elem e d
      → e.0 ≢ id
      → report wanted seeding e.1 ≡ some c
      → Elem c (others id wanted seeding d)
  unfolding others
  others_complete id wanted seeding [] c e m differs told = absurd m
  others_complete id wanted seeding ((nid, p) ∷ d) c e m differs told = elim (beq_cases nid id) [
    | inl (same, is_id) ↦ rw same (elim m [
      | inl here ↦ absurd (differs (ap (λ z. z.0) here ∙ is_id))
      | inr later ↦ others_complete id wanted seeding d c e later differs told
    ])
    | inr (other, _) ↦ rw other (
        add_option_intro (report wanted seeding p) (others id wanted seeding d) c (elim m [
          | inl here ↦ inl (subst (λ z. report wanted seeding z.1 ≡ some c) here told)
          | inr later ↦ inr (others_complete id wanted seeding d c e later differs told)
        ]))
  ]

  -- An announcer that wants something is told of every other peer that seeds a wanted hash, as a
  -- seeder, of every other one that does not but wants one too, as a leecher, and of nobody else.
  pub announce-roles :
      ⦃cr : Crypto⦄ (req : RendezvousAnnounce) (a : Str) (now : F) (rv : Rendezvous F)
      → req.wanted_manifest_hashes ≢ []
      → {rv2 : Rendezvous F} {reply : RendezvousPeers} → announce req a now rv ≡ ok (rv2, reply)
      → (c : PeerCandidate)
      → Elem c reply.peers ↔ (
          (e : Str × Peer F) × Elem e rv.peers
          × (e.0 ≢ req.node_id)
          × TellsRole req.wanted_manifest_hashes c e.1)
  announce-roles req a now rv wants {rv2} {reply} e c =
      let (_, l, _, made) = announce-parts req a now rv e in
      let d = announced req a now rv.peers in
      let told_all : reply.peers ≡ told req d = ap (λ out. out.1.peers) (sym made) in
      let wanted = req.wanted_manifest_hashes in
      let seeding = req.seeding_manifest_hashes in
      let some_wanted : (wanted == []) ≡ false = elim (beq_cases wanted []) [
        | inl (_, empty) ↦ absurd (wants empty)
        | inr (h, _) ↦ h
      ] in
      (
        (λ m.
            let (x, k, far, r) =
              others_sound req.node_id wanted seeding d c (subst (Elem c) told_all m) in
            (
              x,
              unfold announced in insert-Elem_ne req.node_id _ rv.peers x far k,
              far,
              report_sound wanted seeding x.1 c some_wanted r,
            )),
        λ (x, k, far, role). subst (Elem c) (sym told_all) (
            others_complete req.node_id wanted seeding d c x
              (unfold announced in Elem-insert_ne req.node_id _ rv.peers x far k) far
              (report_complete wanted seeding x.1 c some_wanted role)),
      )
