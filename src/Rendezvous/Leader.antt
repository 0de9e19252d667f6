-- ===== src/Rendezvous/Leader.antt =====
-- `announce` names the earliest node that wants the content as its origin leader, and never fails
-- on a table that `announce` itself has built.
use mesh_compute.Prelude.{
  ◌≡◌, ◌⊎◌, inl, inr, refl, sym, ap, subst, ◌∙◌, Bool, true, false, not, ◌&&◌, Option, none, some,
  List, [], ◌∷◌, arith, if◌then◌else◌, Bool-cases, any, All, Elem, ok, >>=-eq-ok, ◌==◌, nat_eq,
  list_eq, contains, eq_cases, All-elem, All-intro, contains→Elem,
}
use mesh_compute.Protocol.Identity.{verify_json, Crypto}
use mesh_compute.Prelude.Sort.{sort, le_self, IsOrder}
use mesh_compute.Prelude.Dict.{lookup-insert_self, lookup-insert_ne, insert, lookup, Dict}
use mesh_compute.Prelude.Bytes.{lex_le, codes, Str}
use mesh_compute.Rendezvous.Peers.{
  announce_payload, RendezvousPeers, PeerCandidate, first_wanted, RendezvousAnnounce, Peer, peer_of,
  since_of,
}
use mesh_compute.Python.{Floats}
use mesh_compute.Rendezvous.Tracker.{
  answer, told, origin_leader_of, Rendezvous, announced, announce, leader_among, earliest, min_pair,
  wanting, pair_lt,
}

module _ {F : Type 0} ⦃fl : Floats F⦄ where
  -- Every hash that a peer wants has a start.
  abbrev pub IsStarted : Str × Peer F → Type 0
  IsStarted e = All (λ h. (t : F) × (lookup h e.1.wanted_since ≡ some t)) e.1.wanted

  abbrev pub IsTracked : Dict Str (Peer F) → Type 0
  IsTracked = All IsStarted

  since_of-lookup :
      (prev : Option (Peer F)) (now : F) (h : Str) (l : List Str)
      → Elem h l
      → lookup h (since_of prev now l) ≡ some (first_wanted prev now h)
  unfolding since_of
  since_of-lookup prev now h [] m = absurd m
  since_of-lookup prev now h (x ∷ xs) m = elim (eq_cases h x) [
    | inl same ↦
        subst
          (λ y.
            lookup h (insert y (first_wanted prev now y) (since_of prev now xs))
            ≡ some (first_wanted prev now h))
          same (lookup-insert_self h _ (since_of prev now xs))
    | inr other ↦ elim m [
      | inl same ↦ absurd (other same)
      | inr later ↦
          lookup-insert_ne h x _ (since_of prev now xs) other ∙ since_of-lookup prev now h xs later
    ]
  ]

  -- A new entry has a start for everything that it wants.
  peer_of-IsStarted :
      (prev : Option (Peer F)) (req : RendezvousAnnounce) (a : Str) (now : F)
      → IsStarted (req.node_id, peer_of prev req a now)
  unfolding peer_of
  peer_of-IsStarted prev req a now =
      All-intro _ req.wanted_manifest_hashes
        (λ h m. (first_wanted prev now h, since_of-lookup prev now h _ m))

  insert-IsTracked :
      (k : Str) (p : Peer F) (d : Dict Str (Peer F))
      → IsStarted (k, p)
      → IsTracked d
      → IsTracked (insert k p d)
  insert-IsTracked k p [] h t = (h, tt)
  insert-IsTracked k p ((j, q) ∷ d) h t = elim (Bool-cases (k == j)) [
    | inl same ↦ rw same (h, t.1)
    | inr other ↦ rw other (t.0, insert-IsTracked k p d h t.1)
  ]

  -- With all starts there, looking for who wants a hash succeeds; what it finds are the entries
  -- that want it and do not seed it.
  abbrev Waits : Str → F × Str → Str × Peer F → Type 0
  Waits h x e =
      (contains h e.1.wanted ≡ true)
      × (contains h e.1.seeding ≡ false)
      × (lookup h e.1.wanted_since ≡ some x.0)
      × (x.1 ≡ e.0)

  abbrev Found : Str → Dict Str (Peer F) → List (F × Str) → Type 0
  Found h d l =
      ((x : F × Str) → Elem x l → (e : Str × Peer F) × Elem e d × Waits h x e)
      × ((e : Str × Peer F)
          → Elem e d
          → contains h e.1.wanted ≡ true
          → contains h e.1.seeding ≡ false
          → (x : F × Str) × Elem x l × Waits h x e)

  Found-skip :
      (h : Str) (e : Str × Peer F) (d : Dict Str (Peer F)) (l : List (F × Str))
      → Found h d l
      → (contains h e.1.wanted && not (contains h e.1.seeding)) ≡ false
      → Found h (e ∷ d) l
  Found-skip h e d l (sound, complete) idle = (
    (λ x m. let (e2, k, w) = sound x m in (e2, inr k, w)),
    λ e2 k a b. elim k [
      | inl same ↦ absurd (
          no_wait (subst (λ z. contains h z.1.wanted ≡ true) same a)
            (subst (λ z. contains h z.1.seeding ≡ false) same b))
      | inr later ↦ complete e2 later a b
    ],
  )
    where
      no_wait : contains h e.1.wanted ≡ true → contains h e.1.seeding ≡ false → ⊥
      no_wait a b = ground arith

  Found-take :
      (h : Str) (e : Str × Peer F) (d : Dict Str (Peer F)) (l : List (F × Str)) (x : F × Str)
      → Found h d l
      → Waits h x e
      → Found h (e ∷ d) (x ∷ l)
  Found-take h e d l x (sound, complete) w = (
    (λ y m. elim m [
      | inl same ↦ (e, inl refl, subst (λ z. Waits h z e) (sym same) w)
      | inr later ↦ let (e2, k, v) = sound y later in (e2, inr k, v)
    ]),
    λ e2 k a b. elim k [
      | inl same ↦ (x, inl refl, subst (λ z. Waits h x z) (sym same) w)
      | inr later ↦ let (y, m, v) = complete e2 later a b in (y, inr m, v)
    ],
  )

  wanting-ok :
      (h : Str) (d : Dict Str (Peer F))
      → IsTracked d
      → (l : List (F × Str)) × (wanting h d ≡ ok l) × Found h d l
  unfolding wanting
  wanting-ok h [] t = ([], refl, ((λ x m. absurd m), λ e m a b. absurd m))
  wanting-ok h ((nid, p) ∷ d) t =
      let (l, rest, found) = wanting-ok h d t.1 in
      elim (Bool-cases (contains h p.wanted && not (contains h p.seeding))) [
        | inr idle ↦ (l, rw idle rest, Found-skip h (nid, p) d l found idle)
        | inl waits ↦
            let wants : contains h p.wanted ≡ true = ground arith in
            let (s, start) = All-elem _ h p.wanted t.0 (contains→Elem h p.wanted wants) in
            (
              (s, nid) ∷ l,
              rw (waits, start, rest) refl,
              Found-take h (nid, p) d l (s, nid) found (wants, ground arith, start, refl),
            )
      ]

  -- Tuples of a start and a node id are totally ordered.
  abbrev pub pair_le : F × Str → F × Str → Bool
  pair_le a b = not (pair_lt b a)

  -- Which of two is kept.
  smaller :
      IsOrder pair_le
      → (b x : F × Str)
      → (y : F × Str) × ((if pair_lt x b then x else b) ≡ y)
        × ((y ≡ x) ⊎ (y ≡ b))
        × (pair_le y b ≡ true)
        × (pair_le y x ≡ true)
  smaller o b x = elim (Bool-cases (pair_lt x b)) [
    | inl less ↦ (
      x,
      rw less refl,
      inl refl,
      elim (o.total x b) [ inl h ↦ h | inr h ↦ absurd (ground arith) ],
      le_self pair_le o x,
    )
    | inr not_less ↦ (b, rw not_less refl, inr refl, le_self pair_le o b, ground arith)
  ]

  min_pair-least :
      IsOrder pair_le
      → (b : F × Str) (l : List (F × Str))
      → Elem (min_pair b l) (b ∷ l) × All (λ x. pair_le (min_pair b l) x ≡ true) (b ∷ l)
  min_pair-least o b [] = (inl refl, (le_self pair_le o b, tt))
  min_pair-least o b (x ∷ xs) =
      let (y, kept, which, le_b, le_x) = smaller o b x in
      let (m, least) = min_pair-least o y xs in
      subst
        (λ z.
          Elem (min_pair z xs) (b ∷ x ∷ xs)
          × All (λ w. pair_le (min_pair z xs) w ≡ true) (b ∷ x ∷ xs))
        (sym kept)
        (
          elim m [
            | inl e ↦ elim which [ inl k ↦ inr (inl (e ∙ k)) | inr k ↦ inl (e ∙ k) ]
            | inr k ↦ inr (inr k)
          ],
          (o.trans _ y b least.0 le_b, (o.trans _ y x least.0 le_x, least.1)),
        )

  -- A node that wants the hash and does not seed it, and no such node is before it.
  abbrev pub Leads : Str → Str → Dict Str (Peer F) → Type 0
  Leads h leader d =
      (t : F) × (e : Str × Peer F) × Elem e d
      × Waits h (t, leader) e
      × ((e2 : Str × Peer F)
          → Elem e2 d
          → contains h e2.1.wanted ≡ true
          → contains h e2.1.seeding ≡ false
          → (u : F) × (lookup h e2.1.wanted_since ≡ some u)
            × (pair_le (t, leader) (u, e2.0) ≡ true))

  earliest-Leads :
      IsOrder pair_le
      → (h : Str) (d : Dict Str (Peer F)) (l : List (F × Str)) → Found h d l
      → {leader : Str} → earliest l ≡ some leader
      → Leads h leader d
  unfolding earliest
  earliest-Leads o h d [] found e = cc
  earliest-Leads o h d (x ∷ xs) (sound, complete) {leader} e =
      let (m, least) = min_pair-least o x xs in
      let best = min_pair x xs in
      let is_leader : best.1 ≡ leader = cc in
      let (e2, k, w) = sound best m in
      subst (λ n. Leads h n d) is_leader
        (
          best.0,
          e2,
          k,
          w,
          λ e3 j a b.
              let (y, n, (_, _, start, node)) = complete e3 j a b in
              (
                y.0,
                start,
                subst (λ s. pair_le best (y.0, s) ≡ true) node
                    (All-elem (λ z. pair_le best z ≡ true) y (x ∷ xs) least n),
              ),
        )

  -- The leader is named for the least of the wanted hashes.
  leader_among-Leads :
      IsOrder pair_le
      → (l : List Str) (told : List PeerCandidate) (d : Dict Str (Peer F)) → IsTracked d
      → {leader : Str} → leader_among l told d ≡ ok (some leader)
      → (h : Str) × (hs : List Str) × (l ≡ h ∷ hs) × Leads h leader d
  unfolding leader_among
  leader_among-Leads o [] told d t e = cc
  leader_among-Leads o (h ∷ hs) told d t e =
      let (l, got, found) = wanting-ok h d t in
      elim (Bool-cases (any (λ c. c.role == codes "seeder") told)) [
        | inl seeded ↦ absurd (let e2 = rw seeded at e in cc)
        | inr none_seeds ↦
            (h, hs, refl, earliest-Leads o h d l found (let e2 = rw (none_seeds, got) at e in cc))
      ]

  leader_among-ok :
      (l : List Str) (told : List PeerCandidate) (d : Dict Str (Peer F))
      → IsTracked d
      → (leader : Option Str) × (leader_among l told d ≡ ok leader)
  unfolding leader_among
  leader_among-ok [] told d t = (none, refl)
  leader_among-ok (h ∷ hs) told d t =
      let (l, got, found) = wanting-ok h d t in
      elim (Bool-cases (any (λ c. c.role == codes "seeder") told)) [
        | inl seeded ↦ (none, rw seeded refl)
        | inr none_seeds ↦ (earliest l, rw (none_seeds, got) refl)
      ]

  announced-IsTracked :
      (req : RendezvousAnnounce) (a : Str) (now : F) (d : Dict Str (Peer F))
      → IsTracked d
      → IsTracked (announced req a now d)
  unfolding announced
  announced-IsTracked req a now d =
      insert-IsTracked req.node_id _ d (peer_of-IsStarted (lookup req.node_id d) req a now)

  -- An announcement with a good signature succeeds on a table where every wanted hash has a start,
  -- which is then so of the new table: looking up a start never raises a `KeyError`. The table is
  -- the old one with the announcer's entry set.
  pub announce-ok :
      ⦃cr : Crypto⦄ (req : RendezvousAnnounce) (a : Str) (now : F) (rv : Rendezvous F)
      → IsTracked rv.peers
      → verify_json {F = F} req.public_b64 (announce_payload req) req.signature_b64 ≡ true
      → (rv2 : Rendezvous F) × (reply : RendezvousPeers) × (announce req a now rv ≡ ok (rv2, reply))
        × (rv2.peers ≡ announced req a now rv.peers)
        × IsTracked rv2.peers
  unfolding announce origin_leader_of
  announce-ok req a now rv t good =
      let d = announced req a now rv.peers in
      let t2 = announced-IsTracked req a now rv.peers t in
      let (leader, named) =
        leader_among-ok (sort lex_le req.wanted_manifest_hashes) (told req d) d t2 in
      let (rv2, reply) = answer req a d rv leader in (rv2, reply, rw (good, named) refl, refl, t2)

  -- What an accepted announcement leaves and answers.
  pub announce-parts :
      ⦃cr : Crypto⦄ (req : RendezvousAnnounce) (a : Str) (now : F) (rv : Rendezvous F)
      → {out : Rendezvous F × RendezvousPeers} → announce req a now rv ≡ ok out
      → (verify_json {F = F} req.public_b64 (announce_payload req) req.signature_b64 ≡ true)
        × (leader : Option Str) × (origin_leader_of req.wanted_manifest_hashes
              (told req (announced req a now rv.peers))
              (announced req a now rv.peers)
            ≡ ok leader)
        × (answer req a (announced req a now rv.peers) rv leader ≡ out)
  unfolding announce
  announce-parts req a now rv e =
      elim (Bool-cases
        (verify_json {F = F} req.public_b64 (announce_payload req) req.signature_b64)) [
          | inr bad ↦ absurd (let e2 = rw bad at e in cc)
          | inl good ↦
              let d = announced req a now rv.peers in
              let (leader, named, made) =
                >>=-eq-ok (origin_leader_of req.wanted_manifest_hashes (told req d) d)
                  (λ leader. ok (answer req a d rv leader)) (rw good at e) in
              (good, leader, named, cc made)
        ]

  -- The origin leader that an announcement is told of: in the new table it wants the first of the
  -- announcer's wanted hashes in order, it does not seed it, and no node that wants and does not
  -- seed that hash began to want it earlier, nor at the same time with a lower node id.
  pub announce-leader :
      ⦃cr : Crypto⦄
      → IsOrder pair_le
      → (req : RendezvousAnnounce) (a : Str) (now : F) (rv : Rendezvous F) → IsTracked rv.peers
      → {rv2 : Rendezvous F} {reply : RendezvousPeers} {leader : Str}
      → announce req a now rv ≡ ok (rv2, reply)
      → reply.origin_leader ≡ some leader
      → (h : Str) × (hs : List Str) × (sort lex_le req.wanted_manifest_hashes ≡ h ∷ hs)
        × Leads h leader rv2.peers
  unfolding origin_leader_of
  announce-leader o req a now rv t {rv2} {reply} {leader} e named =
      let d = announced req a now rv.peers in
      let (_, l, found, made) = announce-parts req a now rv e in
      let same : l ≡ some leader = ap (λ out. out.1.origin_leader) made ∙ named in
      let (h, hs, first, leads) =
        unfolded (told req d) d (announced-IsTracked req a now rv.peers t) (rw same at found) in
      (h, hs, first, subst (Leads h leader) (ap (λ out. out.0.peers) made) leads)
    where
      unfolded :
          (c : List PeerCandidate) (d : Dict Str (Peer F))
          → IsTracked d
          → origin_leader_of req.wanted_manifest_hashes c d ≡ ok (some leader)
          → (h : Str) × (hs : List Str) × (sort lex_le req.wanted_manifest_hashes ≡ h ∷ hs)
            × Leads h leader d
      unfolded c d t f = leader_among-Leads o (sort lex_le req.wanted_manifest_hashes) c d t f
