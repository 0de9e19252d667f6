-- ===== src/Rendezvous/Peers.antt =====
-- apps/control-plane/meshcompute_control/rendezvous.py: who has announced, and the messages of
-- packages/protocol/meshcompute_protocol/api_models.py that announce and answer. A Python set is a
-- list here; it is only asked for members.
use mesh_compute.Prelude.{
  Bool, false, not, ◌&&◌, Option, none, some, List, [], ◌∷◌, if◌then◌else◌, any, ◌==◌, nat_eq,
  list_eq, contains,
}
use mesh_compute.Prelude.Dict.{insert, lookup_or, Dict}
use mesh_compute.Prelude.Bytes.{codes, Str}
use mesh_compute.Prelude.Int.{ℤ}
use mesh_compute.Protocol.Json.{end, arr, cons, field, nil, str, obj, Items, null, Json, int}

pub record PeerCandidate : Type 0 where
  pub node_id : Str
  pub public_b64 : Str
  pub local_addrs : List Str
  pub reflexive_addr : Option Str
  pub quic_port : ℤ
  pub nat_type : Str
  pub relay_addr : Option Str
  pub role : Str

pub record RendezvousAnnounce : Type 0 where
  pub protocol_version : ℤ
  pub node_id : Str
  pub public_b64 : Str
  pub local_addrs : List Str
  pub reflexive_addr : Option Str
  pub quic_port : ℤ
  pub nat_type : Str
  pub seeding_manifest_hashes : List Str
  pub wanted_manifest_hashes : List Str
  pub signature_b64 : Str

pub record RendezvousPeers : Type 0 where
  pub peers : List PeerCandidate
  pub your_reflexive_addr : Option Str
  pub origin_leader : Option Str

-- `_Peer`
pub record Peer (F : Type 0) : Type 0 where
  pub candidate : PeerCandidate
  pub seeding : List Str
  pub last_announce : F
  pub wanted : List Str
  pub wanted_since : Dict Str F

-- `a & b` has a member.
unfoldable pub overlap : List Str → List Str → Bool
overlap a b = any (λ h. contains h b) a

-- A string is false when it is empty.
unfoldable pub truthy : Option Str → Bool
truthy none = false
truthy (some s) = not (s == [])

-- `req.reflexive_addr or source_addr or None`
unfoldable pub reflexive_of : RendezvousAnnounce → Str → Option Str
unfolding truthy
reflexive_of req source_addr =
    if truthy req.reflexive_addr
    then req.reflexive_addr
    else if truthy (some source_addr)
    then some source_addr
    else none

unfoldable pub candidate_of : RendezvousAnnounce → Str → PeerCandidate
candidate_of req source_addr = record {
  node_id = req.node_id;
  public_b64 = req.public_b64;
  local_addrs = req.local_addrs;
  reflexive_addr = reflexive_of req source_addr;
  quic_port = req.quic_port;
  nat_type = req.nat_type;
  relay_addr = none;
  role = codes "seeder";
}

abbrev pub add_option : Option PeerCandidate → List PeerCandidate → List PeerCandidate
add_option none l = l
add_option (some c) l = c ∷ l

module _ {F : Type 0} where
  abbrev pub str_items : List Str → Items F
  str_items [] = nil
  str_items (s ∷ ss) = cons (str s) (str_items ss)

  abbrev pub opt_str : Option Str → Json F
  opt_str none = null
  opt_str (some s) = str s

  -- `req.model_dump(mode="json", exclude={"signature_b64"})`
  unfoldable pub announce_payload : RendezvousAnnounce → Json F
  announce_payload req = obj (
      field (codes "protocol_version") (int req.protocol_version) (
        field (codes "node_id") (str req.node_id) (
          field (codes "public_b64") (str req.public_b64) (
            field (codes "local_addrs") (arr (str_items req.local_addrs)) (
              field (codes "reflexive_addr") (opt_str req.reflexive_addr) (
                field (codes "quic_port") (int req.quic_port) (
                  field (codes "nat_type") (str req.nat_type) (
                    field (codes "seeding_manifest_hashes")
                      (arr (str_items req.seeding_manifest_hashes))
                      (field (codes "wanted_manifest_hashes")
                        (arr (str_items req.wanted_manifest_hashes)) end)))))))))

  -- When the announcer began to want a hash: as before if it wanted it already, else now.
  abbrev pub first_wanted : Option (Peer F) → F → Str → F
  first_wanted none now h = now
  first_wanted (some p) now h = lookup_or now h p.wanted_since

  unfoldable pub since_of : Option (Peer F) → F → List Str → Dict Str F
  since_of prev now [] = []
  since_of prev now (h ∷ hs) = insert h (first_wanted prev now h) (since_of prev now hs)

  unfoldable pub peer_of : Option (Peer F) → RendezvousAnnounce → Str → F → Peer F
  peer_of prev req source_addr now = record {
    candidate = candidate_of req source_addr;
    seeding = req.seeding_manifest_hashes;
    last_announce = now;
    wanted = req.wanted_manifest_hashes;
    wanted_since = since_of prev now req.wanted_manifest_hashes;
  }

  -- What the announcer is told of another peer, if anything.
  unfoldable pub report : List Str → List Str → Peer F → Option PeerCandidate
  report wanted seeding p =
      if not (wanted == []) && overlap p.seeding wanted
      then some (record p.candidate { role = codes "seeder" })
      else if not (wanted == []) && overlap p.wanted wanted
      then some (record p.candidate { role = codes "leecher" })
      else if (wanted == []) && overlap p.seeding seeding
      then some p.candidate
      else none

  -- The loop over the peers that are not the announcer.
  unfoldable pub others : Str → List Str → List Str → Dict Str (Peer F) → List PeerCandidate
  others id wanted seeding [] = []
  others id wanted seeding ((nid, p) ∷ d) =
      if nid == id
      then others id wanted seeding d
      else add_option (report wanted seeding p) (others id wanted seeding d)
