-- ===== src/Control/Meetings.antt =====
-- The handlers of pools and of the rendezvous.
use mesh_compute.Python.{Floats}
use mesh_compute.Prelude.Bytes.{codes, Str}
use mesh_compute.Prelude.{
  ℕ, Bool, true, false, not, ◌&&◌, ◌||◌, [], ◌∷◌, if◌then◌else◌, leb, length, Result, ok, err,
  ◌>>=◌, ◌>>◌, raise_if, ◌==◌, nat_eq, list_eq, contains,
}
use mesh_compute.Protocol.Json.{str, obj, end, field, Json}
use mesh_compute.Protocol.Identity.{Crypto, NodeIdentity, verify_json}
use mesh_compute.Rendezvous.Peers.{RendezvousAnnounce, RendezvousPeers}
use mesh_compute.Rendezvous.Tracker.{
  Rendezvous, TrackerError, ConnectRequest, ConnectTicket, announce, connect, key_error,
}
use mesh_compute.Store.Tables.{Store, get_node, create_pool}
use mesh_compute.Control.Requests.{HttpFault, bad_pool_id, pool_exists, bad_signature, invalid_data}
use mesh_compute.Control.Nodes.{App, known_node}

-- `str.strip` takes away what is `str.isspace`, by code point.
abbrev is_blank : ℕ → Bool
is_blank c =
    leb 9 c && leb c 13
    || leb 28 c && leb c 32
    || contains c (133 ∷ 160 ∷ 5760 ∷ 8232 ∷ 8233 ∷ 8239 ∷ 8287 ∷ 12288 ∷ [])
    || leb 8192 c && leb c 8202

unfoldable pub strip_left : Str → Str
strip_left [] = []
strip_left (c ∷ cs) = if is_blank c then strip_left cs else c ∷ cs

unfoldable pub strip_right : Str → Str
strip_right [] = []
strip_right (c ∷ cs) =
    let rest = strip_right cs in if is_blank c && (rest == []) then [] else c ∷ rest

unfoldable pub is_pool_id : Str → Bool
is_pool_id id = not (id == []) && not (contains b'/' id) && leb (length id) 64

-- A `ValueError` of `announce` is a 400; a `KeyError` is not caught.
abbrev pub announce_fault : TrackerError → HttpFault
announce_fault TrackerError.bad_signature = bad_signature
announce_fault key_error = invalid_data
announce_fault TrackerError.unknown_peer = HttpFault.unknown_peer

-- Of `connect` it is a 404.
abbrev pub connect_fault : TrackerError → HttpFault
connect_fault key_error = invalid_data
connect_fault _ = HttpFault.unknown_peer

module _ {F : Type 0} where
  abbrev pub made_pool : App F → Str → Store F × Bool → Result HttpFault (App F × Str)
  made_pool app id (store, false) = err pool_exists
  made_pool app id (store, true) = ok (record app { store = store }, id)

  -- `id` is `str(body.get("id", ""))`
  unfoldable pub create_pool_handler : F → Str → Bool → App F → Result HttpFault (App F × Str)
  create_pool_handler now id private app =
      let pool_id = strip_right (strip_left id) in
      raise_if (not (is_pool_id pool_id)) bad_pool_id
      >> made_pool app pool_id (create_pool pool_id private now app.store)

  module _ {A : Type 0} (app : App F) (fault : TrackerError → HttpFault) where
    abbrev pub with_rendezvous :
        Result TrackerError (Rendezvous F × A) → Result HttpFault (App F × A)
    with_rendezvous (ok (rv, a)) = ok (record app { rendezvous = rv }, a)
    with_rendezvous (err e) = err (fault e)

  -- `req.model_dump(mode="json", exclude={"signature_b64"})`
  unfoldable pub dump_connect : ConnectRequest → Str → Json F
  dump_connect req plan_id = obj (
      field (codes "from_node_id") (str req.from_node_id) (
        field (codes "to_node_id") (str req.to_node_id)
          (field (codes "plan_id") (str plan_id) end)))

module _ {F : Type 0} ⦃fl : Floats F⦄ ⦃cr : Crypto⦄ where
  unfoldable pub rendezvous_announce :
      RendezvousAnnounce → Str → F → App F → Result HttpFault (App F × RendezvousPeers)
  rendezvous_announce req source_addr now app =
      with_rendezvous app announce_fault (announce req source_addr now app.rendezvous)

  -- The ticket is good for `ttl_s` seconds; only a registered node may ask for one.
  unfoldable pub rendezvous_connect :
      NodeIdentity
      → Str
      → ConnectRequest
      → Str
      → Str
      → F
      → F
      → App F
      → Result HttpFault (App F × ConnectTicket F)
  rendezvous_connect identity session_id req plan_id signature now ttl_s app = do
    node ← known_node (get_node req.from_node_id app.store)
    raise_if (not (verify_json node.public_b64 (dump_connect {F = F} req plan_id) signature))
        bad_signature
    with_rendezvous app connect_fault (connect identity session_id req now ttl_s app.rendezvous)
