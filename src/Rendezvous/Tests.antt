-- ===== src/Rendezvous/Tests.antt =====
-- Two nodes that fetch what a third one holds, and a ticket between them.
use mesh_compute.Rendezvous.Takeover.{announce-takeover, announce_as}
use mesh_compute.Prelude.{
  ℕ, ◌≡◌, ◌≢◌, refl, true, none, some, List, [], ◌∷◌, arith, ok, nat_eq, list_eq, list_beq,
  ne_of_beq,
}
use mesh_compute.Prelude.Sort.{insert_sorted, sort, IsOrder}
use mesh_compute.Prelude.Int.{pos}
use mesh_compute.Prelude.Bytes.{lex_le-IsOrder, lex_le, codes, Str}
use mesh_compute.Rendezvous.Peers.{
  overlap, report, others, truthy, reflexive_of, since_of, peer_of, candidate_of, Peer,
  announce_payload, RendezvousPeers, RendezvousAnnounce, PeerCandidate,
}
use mesh_compute.Protocol.Identity.{public_key, verify, public_b64, NodeIdentity, verify_json}
use mesh_compute.Rendezvous.Tracker.{
  earliest, wanting, leader_among, origin_leader_of, answer, announced, announce, Rendezvous,
  pair_lt, ConnectRequest,
}
use mesh_compute.Prelude.Dict.{lookup}
use mesh_compute.Sample.{nat_floats, sample_crypto, sample_crypto-IsCrypto}
use mesh_compute.Rendezvous.Leader.{announce-leader, Leads, pair_le, IsTracked}

abbrev request : Str → List Str → List Str → RendezvousAnnounce
request id seeding wanted = record {
  protocol_version = pos 1;
  node_id = id;
  public_b64 = public_b64 (record { private_key = [] });
  local_addrs = [];
  reflexive_addr = none;
  quic_port = pos 4000;
  nat_type = codes "unknown";
  seeding_manifest_hashes = seeding;
  wanted_manifest_hashes = wanted;
  signature_b64 = [];
}

abbrev first : RendezvousAnnounce
first = request (codes "a") [] (codes "h" ∷ [])

abbrev second : RendezvousAnnounce
second = request (codes "b") [] (codes "h" ∷ [])

abbrev holder : RendezvousAnnounce
holder = request (codes "c") (codes "h" ∷ []) []

abbrev empty : Rendezvous ℕ
empty = record { peers = []; relays = []; issued = [] }

abbrev one : Rendezvous ℕ
one = record empty { peers = announced first (codes "1.1.1.1:1") 4 [] }

abbrev two : Rendezvous ℕ
two = record empty { peers = announced second (codes "2.2.2.2:2") 5 one.peers }

program : Unit {0}
unfolding announce announced peer_of since_of candidate_of reflexive_of truthy others report overlap
    origin_leader_of leader_among wanting earliest pair_lt sort insert_sorted lex_le verify_json
    verify public_key public_b64 list_beq
program = tt

signed : verify_json {F = ℕ} second.public_b64 (announce_payload second) second.signature_b64 ≡ true
unfolding program
signed = refl

one-IsTracked : IsTracked one.peers
unfolding program
one-IsTracked = ((((4, refl), tt)), tt)

pairs-ordered : IsOrder (pair_le {F = ℕ})
unfolding pair_lt
pairs-ordered = record {
  total = λ a b. ground (arith, lex_le-IsOrder.total a.1 b.1);
  trans = λ a b c h k. ground (arith, lex_le-IsOrder.trans a.1 b.1 c.1);
}

abbrev reply_two : RendezvousPeers
reply_two = (answer second (codes "2.2.2.2:2") two.peers one (some (codes "a"))).1

announce-second : announce second (codes "2.2.2.2:2") 5 one ≡ ok (two, reply_two)
unfolding program
announce-second = refl

announce-leader_example :
    (h : Str) × (hs : List Str) × (sort lex_le second.wanted_manifest_hashes ≡ h ∷ hs)
    × Leads h (codes "a") two.peers
announce-leader_example =
    announce-leader pairs-ordered second (codes "2.2.2.2:2") 5 one one-IsTracked announce-second
      refl

wants-some : second.wanted_manifest_hashes ≢ []
unfolding program
wants-some = ne_of_beq second.wanted_manifest_hashes [] refl

abbrev told_first : PeerCandidate
told_first = record (candidate_of first (codes "1.1.1.1:1")) { role = codes "leecher" }

abbrev control : NodeIdentity
control = record { private_key = 7 ∷ [] }

abbrev ask : ConnectRequest
ask = record { from_node_id = codes "b"; to_node_id = codes "a" }

abbrev target : Peer ℕ
target = peer_of none first (codes "1.1.1.1:1") 4

target-known : lookup ask.to_node_id two.peers ≡ some target
unfolding program
target-known = refl

-- "a" has announced; the control plane's own key takes its place.
announce-takeover_example :
    (rv2 : Rendezvous ℕ) × (out : RendezvousPeers) × (p : Peer ℕ) × (announce
        (announce_as ℕ control first)
        (codes "6.6.6.6:6")
        5
        one
      ≡ ok (rv2, out))
    × (lookup (codes "a") rv2.peers ≡ some p)
    × (p.candidate.public_b64 ≡ public_b64 control)
    × (p.candidate.local_addrs ≡ first.local_addrs)
announce-takeover_example =
    announce-takeover ℕ sample_crypto-IsCrypto control first (codes "6.6.6.6:6") 5 one
