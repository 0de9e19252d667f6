-- ===== src/Control/Scanning.antt =====
-- What a scan of the catalog leaves alone: everything but the manifests and the files seen.
use mesh_compute.Prelude.Bytes.{Str}
use mesh_compute.Prelude.Dict.{lookup}
use mesh_compute.Python.{Floats}
use mesh_compute.Prelude.{
  ◌≡◌, inl, inr, refl, ◌∙◌, Option, none, some, List, [], ◌∷◌, Bool-cases, nat_eq, list_eq,
}
use mesh_compute.Prelude.Sort.{sort}
use mesh_compute.Protocol.Identity.{Crypto, NodeIdentity}
use mesh_compute.Protocol.Json.{Json}
use mesh_compute.Store.Tables.{put_manifest}
use mesh_compute.Control.Nodes.{App}
use mesh_compute.Control.Catalog.{
  ManifestFile, Verdict, settle, load_file, is_seen, scan_file, scan_files, scan_manifests, path_le,
}

module _ {F : Type 0} where
  pub record IsCatalogStep (a b : App F) : Type 0 where
    pub nodes : b.store.nodes ≡ a.store.nodes
    pub capabilities : b.store.capabilities ≡ a.store.capabilities
    pub receipts : b.store.receipts ≡ a.store.receipts
    pub ledger : b.store.ledger ≡ a.store.ledger
    pub issued : b.issued_nonces ≡ a.issued_nonces

  IsCatalogStep-refl : (a : App F) → IsCatalogStep a a
  IsCatalogStep-refl a = record {
    nodes = refl;
    capabilities = refl;
    receipts = refl;
    ledger = refl;
    issued = refl;
  }

  IsCatalogStep-trans : (a b c : App F) → IsCatalogStep a b → IsCatalogStep b c → IsCatalogStep a c
  IsCatalogStep-trans a b c s t = record {
    nodes = t.nodes ∙ s.nodes;
    capabilities = t.capabilities ∙ s.capabilities;
    receipts = t.receipts ∙ s.receipts;
    ledger = t.ledger ∙ s.ledger;
    issued = t.issued ∙ s.issued;
  }

module _ {F : Type 0} ⦃fl : Floats F⦄ ⦃cr : Crypto⦄ (identity : NodeIdentity) where
  settle-IsCatalogStep :
      (v : Verdict) (path : Str) (mtime : F) (manifest : Json F) (app : App F)
      → IsCatalogStep app (settle identity v path mtime manifest app).0
  unfolding settle put_manifest
  settle-IsCatalogStep Verdict.same path mtime manifest app = record {
    nodes = refl;
    capabilities = refl;
    receipts = refl;
    ledger = refl;
    issued = refl;
  }
  settle-IsCatalogStep Verdict.rollback path mtime manifest app = record {
    nodes = refl;
    capabilities = refl;
    receipts = refl;
    ledger = refl;
    issued = refl;
  }
  settle-IsCatalogStep Verdict.publish path mtime manifest app = record {
    nodes = refl;
    capabilities = refl;
    receipts = refl;
    ledger = refl;
    issued = refl;
  }

  load_file-IsCatalogStep :
      (path : Str) (mtime : F) (manifest : Option (Json F)) (app : App F)
      → IsCatalogStep app (load_file identity path mtime manifest app).0
  unfolding load_file
  load_file-IsCatalogStep path mtime none app = IsCatalogStep-refl app
  load_file-IsCatalogStep path mtime (some manifest) app =
      settle-IsCatalogStep _ path mtime manifest app

  scan_file-IsCatalogStep :
      (file : ManifestFile F) (mtime : Option F) (app : App F)
      → IsCatalogStep app (scan_file identity file mtime app).0
  unfolding scan_file
  scan_file-IsCatalogStep file none app = IsCatalogStep-refl app
  scan_file-IsCatalogStep file (some mtime) app =
      elim (Bool-cases (is_seen (lookup file.path app.seen_manifest_files) mtime)) [
        | inl old ↦ rw old (IsCatalogStep-refl app)
        | inr new ↦ rw new (load_file-IsCatalogStep file.path mtime file.manifest app)
      ]

  scan_files-IsCatalogStep :
      (files : List (ManifestFile F)) (app : App F)
      → IsCatalogStep app (scan_files identity files app).0
  unfolding scan_files
  scan_files-IsCatalogStep [] app = IsCatalogStep-refl app
  scan_files-IsCatalogStep (file ∷ files) app =
      let app2 = (scan_file identity file file.mtime app).0 in
      IsCatalogStep-trans app app2 _ (scan_file-IsCatalogStep file file.mtime app)
        (scan_files-IsCatalogStep files app2)

  pub scan_manifests-IsCatalogStep :
      (files : Option (List (ManifestFile F))) (app : App F)
      → IsCatalogStep app (scan_manifests identity files app).0
  unfolding scan_manifests
  scan_manifests-IsCatalogStep none app = IsCatalogStep-refl app
  scan_manifests-IsCatalogStep (some files) app = scan_files-IsCatalogStep (sort path_le files) app
