-- ===== src/Store/Tables.antt =====
-- The tables of `Store` and its methods. A table with a primary key is a dict in the order of
-- insertion, which an upsert keeps; `json.loads` gives back what `json.dumps` was given. SQLite adds
-- a column's floats from the first row on.
use mesh_compute.Prelude.{
  ℕ, ◌+◌, Bool, true, false, not, ◌&&◌, ◌||◌, Option, none, some, List, [], ◌∷◌, ◌++◌, map,
  if◌then◌else◌, length, any, ◌==◌, nat_eq, list_eq,
}
use mesh_compute.Prelude.Int.{pos}
use mesh_compute.Prelude.Sort.{sort}
use mesh_compute.Python.{Floats}
use mesh_compute.Prelude.Bytes.{codes, Str}
use mesh_compute.Prelude.Dict.{lookup, has_key, insert, Dict}
use mathlib.Core.Option.{map as option_map}
use mesh_compute.Protocol.Json.{Json}

pub record NodeRow (F : Type 0) : Type 0 where
  pub public_b64 : Str
  pub pool_ids : List Str
  pub last_seen : F
  pub online : Bool

pub record CapabilityRow (F : Type 0) : Type 0 where
  pub signed_capability : Json F
  pub updated : F

pub record ManifestRow (F : Type 0) : Type 0 where
  pub manifest_hash : Str
  pub signed_manifest : Json F

pub record ReceiptRow (F : Type 0) : Type 0 where
  pub receipt_id : Str
  pub node_id : Str
  pub plan_id : Str
  pub nonce : Str
  pub json : Json F

-- The column `id` counts the rows from 1.
pub record LedgerRow (F : Type 0) : Type 0 where
  pub node_id : Str
  pub delta : F
  pub reason : Str
  pub ref_receipt : Str
  pub ts : F

pub record SessionRow (F : Type 0) : Type 0 where
  pub plan : Json F
  pub created : F

pub record PoolRow (F : Type 0) : Type 0 where
  pub private : Bool
  pub created : F

pub record Store (F : Type 0) : Type 0 where
  pub nodes : Dict Str (NodeRow F)
  pub capabilities : Dict Str (CapabilityRow F)
  pub manifests : Dict Str (ManifestRow F)
  pub receipts : List (ReceiptRow F)
  pub ledger : List (LedgerRow F)
  pub sessions : Dict Str (SessionRow F)
  pub pools : Dict Str (PoolRow F)

module _ {F : Type 0} where
  unfoldable pub upsert_node : Str → Str → List Str → F → Bool → Store F → Store F
  upsert_node id public_b64 pool_ids last_seen online s = record s {
    nodes =
        insert id
          (record {
            public_b64 = public_b64;
            pool_ids = pool_ids;
            last_seen = last_seen;
            online = online;
          })
          s.nodes;
  }

  -- `UPDATE ... WHERE node_id=?`: nothing where there is no such node.
  unfoldable pub touch_row : F → Bool → Str → Dict Str (NodeRow F) → Dict Str (NodeRow F)
  touch_row last_seen online id [] = []
  touch_row last_seen online id ((k, row) ∷ d) =
      (k, if id == k then record row { last_seen = last_seen; online = online } else row)
      ∷ touch_row last_seen online id d

  unfoldable pub touch_node : Str → F → Bool → Store F → Store F
  touch_node id last_seen online s = record s { nodes = touch_row last_seen online id s.nodes }

  unfoldable pub get_node : Str → Store F → Option (NodeRow F)
  get_node id s = lookup id s.nodes

  unfoldable pub list_nodes : Store F → List (Str × NodeRow F)
  list_nodes s = s.nodes

  unfoldable pub put_capability : Str → Json F → F → Store F → Store F
  put_capability id signed updated s = record s {
    capabilities =
        insert id (record { signed_capability = signed; updated = updated }) s.capabilities;
  }

  unfoldable pub get_capability : Str → Store F → Option (Json F)
  get_capability id s = option_map (λ row. row.signed_capability) (lookup id s.capabilities)

  unfoldable pub put_manifest : Str → Str → Json F → Store F → Store F
  put_manifest alias hash signed s = record s {
    manifests =
        insert alias (record { manifest_hash = hash; signed_manifest = signed }) s.manifests;
  }

  unfoldable pub get_manifest : Str → Store F → Option (Json F)
  get_manifest alias s = option_map (λ row. row.signed_manifest) (lookup alias s.manifests)

  -- The first row with the hash.
  unfoldable pub row_by_hash : Str → Dict Str (ManifestRow F) → Option (Json F)
  row_by_hash hash [] = none
  row_by_hash hash ((alias, row) ∷ d) =
      if row.manifest_hash == hash then some row.signed_manifest else row_by_hash hash d

  unfoldable pub get_manifest_by_hash : Str → Store F → Option (Json F)
  get_manifest_by_hash hash s = row_by_hash hash s.manifests

  unfoldable pub list_manifests : Store F → List (Str × ManifestRow F)
  list_manifests s = s.manifests

  -- A row that breaks `PRIMARY KEY (receipt_id)` or `UNIQUE (node_id, nonce)`.
  unfoldable pub conflicts : Str → Str → Str → ReceiptRow F → Bool
  conflicts receipt_id node_id nonce row =
      (receipt_id == row.receipt_id) || (node_id == row.node_id) && (nonce == row.nonce)

  -- An `IntegrityError` is the answer `false`.
  unfoldable pub put_receipt : Str → Str → Str → Str → Json F → Store F → Store F × Bool
  put_receipt receipt_id node_id plan_id nonce body s =
      if any (conflicts receipt_id node_id nonce) s.receipts then (s, false) else (
        record s {
          receipts =
              s.receipts
              ++ record {
                receipt_id = receipt_id;
                node_id = node_id;
                plan_id = plan_id;
                nonce = nonce;
                json = body;
              }
                ∷ [];
        },
        true,
      )

  -- The new row's id is the answer.
  unfoldable pub append_ledger : Str → F → Str → Str → F → Store F → Store F × ℕ
  append_ledger node_id delta reason ref_receipt ts s = (
    record s {
      ledger =
          s.ledger
          ++ record {
            node_id = node_id;
            delta = delta;
            reason = reason;
            ref_receipt = ref_receipt;
            ts = ts;
          }
            ∷ [];
    },
    length s.ledger + 1,
  )

  unfoldable pub put_session : Str → Json F → F → Store F → Store F
  put_session id plan created s = record s {
    sessions = insert id (record { plan = plan; created = created }) s.sessions;
  }

  unfoldable pub get_session : Str → Store F → Option (Json F)
  get_session id s = option_map (λ row. row.plan) (lookup id s.sessions)

  unfoldable pub create_pool : Str → Bool → F → Store F → Store F × Bool
  create_pool id private created s = if has_key id s.pools then (s, false) else (
    record s { pools = insert id (record { private = private; created = created }) s.pools },
    true,
  )

module _ {F : Type 0} ⦃fl : Floats F⦄ where
  -- `_migrate` on a new file, with the pool that it makes.
  unfoldable pub migrated : Store F
  migrated = record {
    nodes = [];
    capabilities = [];
    manifests = [];
    receipts = [];
    ledger = [];
    sessions = [];
    pools = (codes "public", record { private = false; created = fl.of_int (pos 0) }) ∷ [];
  }

  -- `COALESCE(SUM(delta), 0) ... WHERE node_id=?`
  unfoldable pub sum_deltas : Str → F → List (LedgerRow F) → F
  sum_deltas id acc [] = acc
  sum_deltas id acc (row ∷ rows) =
      sum_deltas id (if id == row.node_id then fl.add acc row.delta else acc) rows

  unfoldable pub balance : Str → Store F → F
  balance id s = sum_deltas id (fl.of_int (pos 0)) s.ledger

  -- `ORDER BY created`
  abbrev created_le : Str × PoolRow F → Str × PoolRow F → Bool
  created_le a b = not (fl.lt b.1.created a.1.created)

  unfoldable pub list_pools : Store F → List (Str × Bool)
  list_pools s = map (λ e. (e.0, e.1.private)) (sort created_le s.pools)
