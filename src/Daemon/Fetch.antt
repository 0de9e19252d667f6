-- ===== src/Daemon/Fetch.antt =====
-- `PeerSwarm.fetch` of node/daemon/meshcompute_node/daemon.py: a file from the peers that seed it, or
-- else from the origin. What comes of each address, what the tracker answers in each round, and the
-- clock are arguments.
use mesh_compute.Python.{Floats}
use mesh_compute.Prelude.{
  ℕ, Bool, true, false, not, ◌&&◌, ◌||◌, Option, none, some, List, [], ◌∷◌, map, filter,
  if◌then◌else◌, ok, err, ◌==◌, nat_eq, list_eq,
}
use mesh_compute.Prelude.Bytes.{codes, Str, Bytes}
use mesh_compute.Prelude.Dict.{Dict}
use mesh_compute.Prelude.Int.{pos}
use mesh_compute.Protocol.Identity.{Crypto}
use mesh_compute.Frames.Frame.{Frame}
use mesh_compute.Rendezvous.Peers.{PeerCandidate, RendezvousPeers}
use mesh_compute.Swarm.Seeder.{Shard}
use mesh_compute.Swarm.Leecher.{Leecher, Leeching, leech_file}

-- What comes of an address: no connection, no stream, or the frames that the peer sends on one.
pub data Attempt : Type 0 where
  undialled unopened : Attempt
  streamed : List Frame → Attempt

-- The file at the destination, and its sidecar.
pub record Disk : Type 0 where
  pub file : Option Bytes
  pub sidecar : Dict ℕ Str

-- A file that a fetch left empty counts as none.
abbrev pub left : Option Bytes → Bytes → Option Bytes
left none [] = none
left _ dest = some dest

abbrev pub left_on_disk : Disk → Leecher → Disk
left_on_disk disk st = record { file = left disk.file st.dest; sidecar = st.sidecar }

abbrev pub leeched : Disk → Leeching (Leecher × Str) → Disk × Bool
leeched disk (err (fault, st)) = (left_on_disk disk st, false)
leeched disk (ok (st, digest)) = (record { file = some st.dest; sidecar = st.sidecar }, true)

-- The tracker's answer in a round, if it could be asked; what comes of the addresses of a peer; and
-- the clock when the deadline is looked at.
pub record Round (F : Type 0) : Type 0 where
  pub answer : Option RendezvousPeers
  pub attempts : PeerCandidate → List Attempt
  pub clock : F

-- How `fetch` ends: true, false, or not within the rounds.
pub data Outcome : Type 0 where
  fetched to_origin waiting : Outcome

abbrev pub is_seeder : Str → PeerCandidate → Bool
is_seeder me peer = not (peer.node_id == me) && not (peer.role == codes "leecher")

-- `leader in (None, self.identity.node_id)`
abbrev pub leads : Str → Option Str → Bool
leads me none = true
leads me (some leader) = leader == me

module _ {F : Type 0} ⦃fl : Floats F⦄ where
  -- `min(self.WAIT_MAX_S, max(60.0, size / self.WAIT_RATE_BPS))` from now on.
  unfoldable pub deadline_of : F → ℕ → F
  deadline_of now size =
      let minute = fl.decimal (pos 60) 0 in
      let wait_max = fl.decimal (pos 1800) 0 in
      let rate = fl.div (fl.of_int (pos size)) (fl.of_int (pos 2097152)) in
      let wait = if fl.lt minute rate then rate else minute in
      fl.add now (if fl.lt wait wait_max then wait else wait_max)

module _ ⦃cr : Crypto⦄ (manifest_hash : Str) (shard : Shard) (says_have : Bytes → Bool)
    (want : Frame) where
  -- The addresses of one peer: the first that gives a connection decides.
  unfoldable pub try_addrs : List Attempt → Disk → Disk × Bool
  try_addrs [] disk = (disk, false)
  try_addrs (undialled ∷ attempts) disk = try_addrs attempts disk
  try_addrs (unopened ∷ attempts) disk = (disk, false)
  try_addrs (streamed inbox ∷ attempts) disk =
      leeched disk (leech_file manifest_hash shard says_have want 3 disk.file disk.sidecar inbox)

  -- `_try_seeders`
  unfoldable pub try_seeders : List (List Attempt) → Disk → Disk × Bool
  try_seeders [] disk = (disk, false)
  try_seeders (attempts ∷ peers) disk =
      let (disk2, done) = try_addrs attempts disk in
      let later = try_seeders peers disk2 in if done then (disk2, true) else later

  module _ {F : Type 0} ⦃fl : Floats F⦄ (me : Str) (deadline : F) where
    abbrev pub seeders_of : RendezvousPeers → List PeerCandidate
    seeders_of resp = filter (is_seeder me) resp.peers

    -- A round with an answer; `later` is what the next rounds lead to.
    abbrev pub decide : F → Option Str → (Disk → Disk × Outcome) → Disk × Bool → Disk × Outcome
    decide clock leader later (disk, true) = (disk, fetched)
    decide clock leader later (disk, false) =
        let next = later disk in
        if leads me leader || fl.lt deadline clock then (disk, to_origin) else next

    abbrev pub answered_round :
        Round F → (Disk → Disk × Outcome) → Disk → Option RendezvousPeers → Disk × Outcome
    answered_round round later disk none = (disk, to_origin)
    answered_round round later disk (some resp) =
        decide round.clock resp.origin_leader later
          (try_seeders (map round.attempts (seeders_of resp)) disk)

    unfoldable pub fetch : List (Round F) → Disk → Disk × Outcome
    fetch [] disk = (disk, waiting)
    fetch (round ∷ rounds) disk = answered_round round (fetch rounds) disk round.answer
