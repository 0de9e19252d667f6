-- ===== src/Rendezvous/Tracker.antt =====
-- The class `Rendezvous`: announcing, tickets, and the relays' sides.
use mesh_compute.Prelude.{
  Bool, true, false, not, ◌&&◌, Option, none, some, List, [], ◌∷◌, ◌++◌, if◌then◌else◌, any, Result,
  ok, err, ◌>>=◌, ◌==◌, nat_eq, list_eq, contains,
}
use mesh_compute.Prelude.Sort.{sort}
use mesh_compute.Protocol.Json.{end, int, float, arr, str, bool, field, obj, Json}
use mesh_compute.Rendezvous.Peers.{
  reflexive_of, str_items, others, opt_str, announce_payload, peer_of, truthy, RendezvousPeers,
  Peer, RendezvousAnnounce, PeerCandidate,
}
use mesh_compute.Prelude.Int.{pos}
use mesh_compute.Protocol.Identity.{sign_json, verify_json, NodeIdentity, Crypto}
use mesh_compute.Python.{Floats}
use mesh_compute.Prelude.Dict.{insert, lookup_or, lookup, erase, set_default, has_key, Dict}
use mesh_compute.Prelude.Bytes.{codes, Str, Bytes, lex_le}

-- `RelayPair`: the bytes that wait for each side, and the sides that are taken.
pub record RelayPair : Type 0 where
  pub to_a : List Bytes
  pub to_b : List Bytes
  pub claimed : List Str

abbrev pub new_relay : RelayPair
new_relay = record { to_a = []; to_b = []; claimed = [] }

unfoldable pub claim_among : List Str → RelayPair → RelayPair × Option Str
claim_among [] pair = (pair, none)
claim_among (side ∷ sides) pair =
    if contains side pair.claimed
    then claim_among sides pair
    else (record pair { claimed = side ∷ pair.claimed }, some side)

unfoldable pub claim_side : RelayPair → RelayPair × Option Str
claim_side = claim_among (codes "a" ∷ codes "b" ∷ [])

-- What a side reads, and where it writes.
unfoldable pub queues_for : Str → RelayPair → List Bytes × List Bytes
queues_for side pair = if side == codes "a" then (pair.to_a, pair.to_b) else (pair.to_b, pair.to_a)

pub record Rendezvous (F : Type 0) : Type 0 where
  pub peers : Dict Str (Peer F)
  pub relays : Dict Str RelayPair
  pub issued : Dict Str F

-- What `announce` and `connect` raise.
pub data TrackerError : Type 0 where
  bad_signature key_error unknown_peer : TrackerError

pub record ConnectRequest : Type 0 where
  pub from_node_id : Str
  pub to_node_id : Str

pub record ConnectTicket (F : Type 0) : Type 0 where
  pub session_id : Str
  pub peer : PeerCandidate
  pub method : Str
  pub relay_url : Option Str
  pub expires_at : F
  pub control_signature_b64 : Str

module _ {F : Type 0} ⦃fl : Floats F⦄ where
  -- `a < b` on pairs: the second components decide where the first are equal.
  unfoldable pub pair_lt : F × Str → F × Str → Bool
  pair_lt (t, n) (u, m) = if fl.le t u && fl.le u t then not (lex_le m n) else fl.lt t u

  -- An entry's start, and its node; a missing start is a `KeyError`.
  abbrev pub start_of : Str → Option F → Result TrackerError (F × Str)
  start_of nid none = err key_error
  start_of nid (some t) = ok (t, nid)

  -- The entries that want a hash and do not seed it.
  unfoldable pub wanting : Str → Dict Str (Peer F) → Result TrackerError (List (F × Str))
  wanting h [] = ok []
  wanting h ((nid, p) ∷ d) =
      let rest = wanting h d in
      if contains h p.wanted && not (contains h p.seeding)
      then (start_of nid (lookup h p.wanted_since) >>= λ x. rest >>= λ l. ok (x ∷ l))
      else rest

  -- `min(l)`: the first of the least.
  abbrev pub min_pair : F × Str → List (F × Str) → F × Str
  min_pair best [] = best
  min_pair best (x ∷ xs) = min_pair (if pair_lt x best then x else best) xs

  unfoldable pub earliest : List (F × Str) → Option Str
  earliest [] = none
  earliest (x ∷ xs) = some (min_pair x xs).1

  -- `sorted(wanted)[0]` decides which content the leader is for.
  unfoldable pub leader_among :
      List Str → List PeerCandidate → Dict Str (Peer F) → Result TrackerError (Option Str)
  leader_among [] told peers = ok none
  leader_among (h ∷ _) told peers =
      if any (λ c. c.role == codes "seeder") told
      then ok none
      else wanting h peers >>= λ l. ok (earliest l)

  unfoldable pub origin_leader_of :
      List Str → List PeerCandidate → Dict Str (Peer F) → Result TrackerError (Option Str)
  origin_leader_of wanted told peers = leader_among (sort lex_le wanted) told peers

  -- The table once the announcer is in it.
  unfoldable pub announced : RendezvousAnnounce → Str → F → Dict Str (Peer F) → Dict Str (Peer F)
  announced req source_addr now peers =
      insert req.node_id (peer_of (lookup req.node_id peers) req source_addr now) peers

  -- The peers that the announcer is told of, from the new table.
  abbrev pub told : RendezvousAnnounce → Dict Str (Peer F) → List PeerCandidate
  told req peers = others req.node_id req.wanted_manifest_hashes req.seeding_manifest_hashes peers

  abbrev pub answer :
      RendezvousAnnounce
      → Str
      → Dict Str (Peer F)
      → Rendezvous F
      → Option Str
      → Rendezvous F × RendezvousPeers
  answer req source_addr peers rv leader = (
    record rv { peers = peers },
    record {
      peers = told req peers;
      your_reflexive_addr = reflexive_of req source_addr;
      origin_leader = leader;
    },
  )

  unfoldable pub announce :
      ⦃cr : Crypto⦄
      → RendezvousAnnounce
      → Str
      → F
      → Rendezvous F
      → Result TrackerError (Rendezvous F × RendezvousPeers)
  announce req source_addr now rv =
      if not (verify_json {F = F} req.public_b64 (announce_payload req) req.signature_b64)
      then err bad_signature
      else let peers = announced req source_addr now rv.peers in
        origin_leader_of req.wanted_manifest_hashes (told req peers) peers >>= λ leader.
        ok (answer req source_addr peers rv leader)

  -- `bool(source and source.candidate.reflexive_addr)`
  abbrev has_reflexive : Option (Peer F) → Bool
  has_reflexive none = false
  has_reflexive (some p) = truthy p.candidate.reflexive_addr

  abbrev peer_json : PeerCandidate → Json F
  peer_json c = obj (
      field (codes "node_id") (str c.node_id) (
        field (codes "public_b64") (str c.public_b64) (
          field (codes "local_addrs") (arr (str_items c.local_addrs)) (
            field (codes "reflexive_addr") (opt_str c.reflexive_addr) (
              field (codes "quic_port") (int c.quic_port) (
                field (codes "nat_type") (str c.nat_type) (
                  field (codes "relay_addr") (opt_str c.relay_addr)
                    (field (codes "role") (str c.role) end))))))))

  -- `ticket.model_dump(mode="json", exclude={"control_signature_b64"})`
  unfoldable pub ticket_payload : ConnectTicket F → Json F
  ticket_payload t = obj (
      field (codes "ok") (bool true) (
        field (codes "session_id") (str t.session_id) (
          field (codes "peer") (peer_json t.peer) (
            field (codes "method") (str t.method) (
              field (codes "relay_url") (opt_str t.relay_url)
                (field (codes "expires_at") (float t.expires_at) end))))))

  -- The ticket before it is signed.
  unfoldable pub ticket_for : Option (Peer F) → Peer F → Str → F → ConnectTicket F
  ticket_for source target session_id expires_at =
      let direct = has_reflexive source && truthy target.candidate.reflexive_addr in
      record {
        session_id = session_id;
        peer = target.candidate;
        method = if direct then codes "holepunch" else codes "relay";
        relay_url = if direct then none else some (codes "/api/v1/rendezvous/relay/" ++ session_id);
        expires_at = expires_at;
        control_signature_b64 = [];
      }

  -- Sessions that expired more than an hour ago are forgotten.
  unfoldable pub purge : F → Dict Str F → Dict Str F
  purge now [] = []
  purge now ((sid, exp) ∷ d) =
      if fl.lt exp (fl.sub now (fl.of_int (pos 3600)))
      then purge now d
      else (sid, exp) ∷ purge now d

  -- `session_id` is the fresh one that `uuid4` gives; the target is what the table holds.
  unfoldable pub connect_to :
      ⦃cr : Crypto⦄
      → NodeIdentity
      → Str
      → Option (Peer F)
      → Option (Peer F)
      → F
      → F
      → Rendezvous F
      → Result TrackerError (Rendezvous F × ConnectTicket F)
  connect_to identity session_id none source now ttl_s rv = err unknown_peer
  connect_to identity session_id (some target) source now ttl_s rv =
      let ticket = ticket_for source target session_id (fl.add now ttl_s) in
      ok (
        record rv { issued = purge now (insert session_id (fl.add now ttl_s) rv.issued) },
        record ticket { control_signature_b64 = sign_json identity (ticket_payload ticket) },
      )

  unfoldable pub connect :
      ⦃cr : Crypto⦄
      → NodeIdentity
      → Str
      → ConnectRequest
      → F
      → F
      → Rendezvous F
      → Result TrackerError (Rendezvous F × ConnectTicket F)
  connect identity session_id req now ttl_s rv =
      connect_to identity session_id (lookup req.to_node_id rv.peers)
        (lookup req.from_node_id rv.peers) now ttl_s rv

  unfoldable pub session_known : Str → Rendezvous F → Bool
  session_known session_id rv = has_key session_id rv.issued

  -- The table with the session's pair in it, and the pair.
  unfoldable pub relay_session : Str → Rendezvous F → Rendezvous F × RelayPair
  relay_session session_id rv = (
    record rv { relays = set_default session_id new_relay rv.relays },
    lookup_or new_relay session_id rv.relays,
  )

  unfoldable pub drop_relay : Str → Rendezvous F → Rendezvous F
  drop_relay session_id rv = record rv { relays = erase session_id rv.relays }
