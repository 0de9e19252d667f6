-- ===== src/Control/Steps.antt =====
-- What the application goes through: a request that is served, or a scan of the catalog, is one
-- step. A request that is refused, and the handlers that only read, change nothing.
use mesh_compute.Prelude.Dict.{Dict}
use mesh_compute.Prelude.Bytes.{Str}
use mesh_compute.Python.{Floats}
use mesh_compute.Prelude.{ℕ, ◌≡◌, Bool, Option, List, [], ok, nat_eq, list_eq}
use mesh_compute.Protocol.Identity.{Crypto, NodeIdentity}
use mesh_compute.Protocol.Receipts.{SignedReceipt}
use mesh_compute.Rendezvous.Peers.{RendezvousAnnounce, RendezvousPeers}
use mesh_compute.Rendezvous.Tracker.{ConnectRequest, ConnectTicket}
use mesh_compute.Scheduler.Cost.{CostModel}
use mesh_compute.Scheduler.Plan.{ExecutionPlan}
use mesh_compute.Store.Tables.{migrated}
use mesh_compute.Control.Requests.{
  RegisterRequest, RegisterResponse, SignedCapability, HeartbeatRequest, ScheduleRequest,
}
use mesh_compute.Control.Nodes.{App, register_node, post_capabilities, heartbeat}
use mesh_compute.Control.Catalog.{ManifestFile, scan_manifests}
use mesh_compute.Control.Scheduling.{schedule}
use mesh_compute.Control.Receipts.{submit_receipt}
use mesh_compute.Control.Meetings.{create_pool_handler, rendezvous_announce, rendezvous_connect}

module _ {F : Type 0} ⦃fl : Floats F⦄ ⦃cr : Crypto⦄ (identity : NodeIdentity) where
  pub data Step (app : App F) : App F → Type 0 where
    registered :
        (now : F) (victim : ℕ) (nonce : Str) (req : RegisterRequest) {app2 : App F}
        {r : RegisterResponse}
        → register_node now victim nonce req app ≡ ok (app2, r)
        → Step app app2
    advertised :
        (now : F) (id : Str) (cap : SignedCapability F) {app2 : App F} {r : Unit {0}}
        → post_capabilities now id cap app ≡ ok (app2, r)
        → Step app app2
    beaten :
        (now : F) (victim : ℕ) (nonce id : Str) (req : HeartbeatRequest F) {app2 : App F} {r : Str}
        → heartbeat now victim nonce id req app ≡ ok (app2, r)
        → Step app app2
    scanned :
        (files : Option (List (ManifestFile F))) → Step app (scan_manifests identity files app).0
    scheduled :
        (cost : CostModel F) (now : F) (plan_id : Str) (req : ScheduleRequest) {app2 : App F}
        {p : ExecutionPlan F}
        → schedule cost now plan_id req app ≡ ok (app2, p)
        → Step app app2
    credited :
        (now : F) (sr : SignedReceipt F) {app2 : App F} {delta : F}
        → submit_receipt now sr app ≡ ok (app2, delta)
        → Step app app2
    pooled :
        (now : F) (id : Str) (private : Bool) {app2 : App F} {r : Str}
        → create_pool_handler now id private app ≡ ok (app2, r)
        → Step app app2
    met :
        (req : RendezvousAnnounce) (source_addr : Str) (now : F) {app2 : App F}
        {r : RendezvousPeers}
        → rendezvous_announce req source_addr now app ≡ ok (app2, r)
        → Step app app2
    connected :
        (session_id : Str) (req : ConnectRequest) (plan_id signature : Str) (now ttl_s : F)
        {app2 : App F} {r : ConnectTicket F}
        → rendezvous_connect identity session_id req plan_id signature now ttl_s app ≡ ok (app2, r)
        → Step app app2

  pub data Reach (app : App F) : App F → Type 0 where
    here : Reach app app
    next : {app2 app3 : App F} → Reach app app2 → Step app2 app3 → Reach app app3

module _ {F : Type 0} ⦃fl : Floats F⦄ where
  -- `create_app`, on an empty database.
  abbrev pub create_app : Dict Str F → App F
  create_app measured_rtts = record {
    store = migrated;
    rendezvous = record { peers = []; relays = []; issued = [] };
    measured_rtts = measured_rtts;
    live_heartbeats = [];
    seen_manifest_files = [];
    issued_nonces = [];
  }
