-- ===== src/Daemon/Fetched.antt =====
-- What `fetch` leaves, when it goes to the origin, and that it ends.
use mesh_compute.Python.{Floats}
use mesh_compute.Prelude.{
  beq→eq, ◌≡◌, ◌⊎◌, refl, sym, ap, ◌∙◌, inl, inr, Bool, Bool-cases, Elem, true, false, Option, none,
  some, List, [], ◌∷◌, map, length, ok, err, nat_eq, list_eq,
}
use mesh_compute.Prelude.Bytes.{Str, Bytes}
use mesh_compute.Protocol.Identity.{Crypto, blake3_hex}
use mesh_compute.Frames.Frame.{Frame}
use mesh_compute.Rendezvous.Peers.{RendezvousPeers}
use mesh_compute.Swarm.Seeder.{Shard}
use mesh_compute.Swarm.Leecher.{Leecher, Leeching, is_pending}
use mesh_compute.Swarm.Digest.{IsWhole, leech_file-IsWhole}
use mesh_compute.Daemon.Fetch.{
  Attempt, undialled, unopened, streamed, Disk, leeched, Round, Outcome, fetched, to_origin,
  waiting, leads, decide, answered_round, seeders_of, try_addrs, try_seeders, fetch,
}

leads-eq-true :
    (me : Str) (leader : Option Str) → leads me leader ≡ true → (leader ≡ none) ⊎ (leader ≡ some me)
leads-eq-true me none h = inl refl
leads-eq-true me (some leader) h = inr (ap some (beq→eq leader me h))

module _ ⦃cr : Crypto⦄ (manifest_hash : Str) (shard : Shard) (says_have : Bytes → Bool)
    (want : Frame) where
  -- The whole file is there, with the hash of the manifest, and no sidecar.
  abbrev pub IsComplete : Disk → Type 0
  IsComplete disk =
      (file : Bytes) × (disk.file ≡ some file)
      × (length file ≡ shard.size_bytes)
      × (is_pending shard.artifact_root_hash ≡ false → blake3_hex file ≡ shard.artifact_root_hash)
      × (disk.sidecar ≡ [])

  leeched-IsComplete :
      (disk : Disk) (result : Leeching (Leecher × Str))
      → ((out : Leecher × Str) → result ≡ ok out → IsWhole manifest_hash shard out)
      → (leeched disk result).1 ≡ true
      → IsComplete (leeched disk result).0
  leeched-IsComplete disk (err (fault, st)) h d = cc
  leeched-IsComplete disk (ok (st, digest)) h d =
      let (sized, hashed, named, gone) = h (st, digest) refl in
      (st.dest, refl, sized, (λ final. sym hashed ∙ named final), gone)

  try_addrs-IsComplete :
      (attempts : List Attempt) (disk : Disk)
      → (try_addrs manifest_hash shard says_have want attempts disk).1 ≡ true
      → IsComplete (try_addrs manifest_hash shard says_have want attempts disk).0
  unfolding try_addrs
  try_addrs-IsComplete [] disk d = cc
  try_addrs-IsComplete (undialled ∷ attempts) disk d = try_addrs-IsComplete attempts disk d
  try_addrs-IsComplete (unopened ∷ attempts) disk d = cc
  try_addrs-IsComplete (streamed inbox ∷ attempts) disk d =
      leeched-IsComplete disk _
        (λ out e.
          leech_file-IsWhole manifest_hash shard says_have want 3 disk.file disk.sidecar inbox e)
        d

  try_seeders-IsComplete :
      (peers : List (List Attempt)) (disk : Disk)
      → (try_seeders manifest_hash shard says_have want peers disk).1 ≡ true
      → IsComplete (try_seeders manifest_hash shard says_have want peers disk).0
  unfolding try_seeders
  try_seeders-IsComplete [] disk d = cc
  try_seeders-IsComplete (attempts ∷ peers) disk d =
      elim (Bool-cases (try_addrs manifest_hash shard says_have want attempts disk).1) [
        | inl done ↦ rw done (try_addrs-IsComplete attempts disk done)
        | inr failed ↦ rw failed (
            try_seeders-IsComplete peers
              (try_addrs manifest_hash shard says_have want attempts disk).0 (rw failed at d))
      ]

  module _ {F : Type 0} ⦃fl : Floats F⦄ (me : Str) (deadline : F) where
    -- Why a node goes to the origin after a round: the tracker cannot be asked, no other node leads,
    -- or the deadline has passed.
    abbrev pub IsReason : Round F → Type 0
    IsReason round =
        (round.answer ≡ none)
        ⊎ ((resp : RendezvousPeers) × (round.answer ≡ some resp)
            × ((resp.origin_leader ≡ none) ⊎ (resp.origin_leader ≡ some me)))
        ⊎ (fl.lt deadline round.clock ≡ true)

    -- What each outcome means.
    abbrev pub IsOutcome : List (Round F) → Disk × Outcome → Type 0
    IsOutcome rounds (disk, fetched) = IsComplete disk
    IsOutcome rounds (disk, to_origin) = (round : Round F) × Elem round rounds × IsReason round
    IsOutcome rounds (disk, waiting) =
        (round : Round F) → Elem round rounds → fl.lt deadline round.clock ≡ false

    later-IsOutcome :
        (round : Round F) (rounds : List (Round F)) (r : Disk × Outcome)
        → fl.lt deadline round.clock ≡ false
        → IsOutcome rounds r
        → IsOutcome (round ∷ rounds) r
    later-IsOutcome round rounds (disk, fetched) early h = h
    later-IsOutcome round rounds (disk, to_origin) early (at_round, m, why) = (at_round, inr m, why)
    later-IsOutcome round rounds (disk, waiting) early h = λ other m. elim m [
      | inl same ↦ ap (λ r. fl.lt deadline r.clock) same ∙ early
      | inr later ↦ h other later
    ]

    decide-IsOutcome :
        (round : Round F) (rounds : List (Round F)) (resp : RendezvousPeers)
        (later : Disk → Disk × Outcome) (tried : Disk × Bool)
        → round.answer ≡ some resp
        → ((disk : Disk) → IsOutcome rounds (later disk))
        → (tried.1 ≡ true → IsComplete tried.0)
        → IsOutcome (round ∷ rounds) (
            decide manifest_hash shard says_have want me deadline round.clock resp.origin_leader
              later tried)
    decide-IsOutcome round rounds resp later (disk, true) e h done = done refl
    decide-IsOutcome round rounds resp later (disk, false) e h done =
        elim (Bool-cases (leads me resp.origin_leader)) [
          | inl lead ↦
              rw lead
                (round, inl refl, inr (inl (resp, e, leads-eq-true me resp.origin_leader lead)))
          | inr other ↦ rw other (elim (Bool-cases (fl.lt deadline round.clock)) [
            | inl late ↦ rw late (round, inl refl, inr (inr late))
            | inr early ↦ rw early (later-IsOutcome round rounds (later disk) early (h disk))
          ])
        ]

    answered_round-IsOutcome :
        (round : Round F) (rounds : List (Round F)) (later : Disk → Disk × Outcome) (disk : Disk)
        (answer : Option RendezvousPeers)
        → round.answer ≡ answer
        → ((next : Disk) → IsOutcome rounds (later next))
        → IsOutcome
            (round ∷ rounds)
            (answered_round manifest_hash shard says_have want me deadline round later disk answer)
    answered_round-IsOutcome round rounds later disk none e h = (round, inl refl, inl e)
    answered_round-IsOutcome round rounds later disk (some resp) e h =
        let peers =
          map round.attempts (seeders_of manifest_hash shard says_have want me deadline resp) in
        decide-IsOutcome round rounds resp later
          (try_seeders manifest_hash shard says_have want peers disk) e h
          (try_seeders-IsComplete peers disk)

    -- When fetch returns true, the file at the destination has the size of the manifest, and its
    -- hash unless that is pending, and no sidecar is left. When it returns false, in some round the
    -- tracker could not be asked, no other node was named as the one that fetches from the origin,
    -- or the deadline had passed. It goes on waiting only through rounds before the deadline.
    pub fetch-IsOutcome :
        (rounds : List (Round F)) (disk : Disk)
        → IsOutcome rounds (fetch manifest_hash shard says_have want me deadline rounds disk)
    unfolding fetch
    fetch-IsOutcome [] disk = λ round m. absurd m
    fetch-IsOutcome (round ∷ rounds) disk =
        answered_round-IsOutcome round rounds
          (fetch manifest_hash shard says_have want me deadline rounds) disk round.answer refl
          (fetch-IsOutcome rounds)
