-- ===== src/Rendezvous/Takeover.antt =====
-- `announce` checks the signature with the key that the request brings, and nothing ties that key
-- to the node id.
use mesh_compute.Protocol.Json.{canonical_json}
use mesh_compute.Prelude.{◌≡◌, refl, none, some, [], ok, nat_eq, list_eq}
use mesh_compute.Prelude.Bytes.{Str}
use mesh_compute.Prelude.Sort.{sort}
use mesh_compute.Python.{Floats}
use mesh_compute.Prelude.Dict.{lookup, lookup-insert_self}
use mesh_compute.Protocol.Identity.{
  Crypto, IsCrypto, NodeIdentity, public_b64, sign_json, verify_json, verify-sign,
}
use mesh_compute.Rendezvous.Peers.{
  RendezvousPeers, RendezvousAnnounce, Peer, announce_payload, peer_of, candidate_of,
}
use mesh_compute.Rendezvous.Tracker.{
  Rendezvous, announce, announced, origin_leader_of, answer, leader_among,
}

module _ (F : Type 0) ⦃fl : Floats F⦄ ⦃cr : Crypto⦄ where
  -- An announce under any node id, signed by the announcer's own key.
  abbrev pub announce_as : NodeIdentity → RendezvousAnnounce → RendezvousAnnounce
  announce_as me req =
      let body = record req { public_b64 = public_b64 me; wanted_manifest_hashes = [] } in
      record body { signature_b64 = sign_json me (announce_payload {F = F} body) }

  -- A stranger takes a node's place: whoever the node is, and whatever the tracker holds for it, an
  -- announce in its name that wants nothing and is signed with another key is accepted, and right
  -- after it the tracker's entry for that node holds the stranger's key and local addresses.
  pub announce-takeover :
      (laws : IsCrypto cr) (me : NodeIdentity) (req : RendezvousAnnounce) (source_addr : Str)
      (now : F) (rv : Rendezvous F)
      → (rv2 : Rendezvous F) × (out : RendezvousPeers) × (p : Peer F) × (announce
            (announce_as me req)
            source_addr
            now
            rv
          ≡ ok (rv2, out))
        × (lookup req.node_id rv2.peers ≡ some p)
        × (p.candidate.public_b64 ≡ public_b64 me)
        × (p.candidate.local_addrs ≡ req.local_addrs)
  unfolding announce verify_json sign_json announced origin_leader_of leader_among announce_payload
      peer_of candidate_of sort
  announce-takeover laws me req source_addr now rv =
      let q = announce_as me req in
      let peers = announced q source_addr now rv.peers in
      let out = answer q source_addr peers rv none in
      (
        out.0,
        out.1,
        peer_of (lookup req.node_id rv.peers) q source_addr now,
        rw (verify-sign laws me (canonical_json (announce_payload {F = F} q))) refl,
        lookup-insert_self req.node_id _ rv.peers,
        refl,
        refl,
      )
