-- ===== src/Control/Catalog.antt =====
-- The model catalog: `scan_manifests`, which publishes the manifests of a directory, and the
-- handlers that list them. A file is its path, its time, and what `model_validate` makes of it.
use mesh_compute.Python.{Floats}
use mesh_compute.Prelude.{
  Bool, false, not, ◌&&◌, Option, none, some, List, [], ◌∷◌, map, if◌then◌else◌, Result, ok, err,
  ◌==◌, nat_eq, list_eq,
}
use mesh_compute.Prelude.Int.{ℤ, pos, sum, ltb_ℤ}
use mesh_compute.Prelude.Dict.{lookup, insert}
use mesh_compute.Prelude.Bytes.{codes, Str, lex_le}
use mesh_compute.Prelude.Sort.{sort}
use mesh_compute.Protocol.Json.{Json}
use mesh_compute.Protocol.Identity.{Crypto, NodeIdentity, public_b64, sign_json}
use mesh_compute.Store.Tables.{ManifestRow, get_manifest, put_manifest, list_manifests}
use mesh_compute.Control.Read.{
  or_null, get, str_of, int_of, list_of, version_of, alias_of, manifest_hash, file_of,
}
use mesh_compute.Control.Requests.{ModelView, HttpFault, dump_manifest, unknown_model}
use mesh_compute.Control.Nodes.{App}

-- `mtime` is none where `stat` fails, `manifest` where reading or validating raises.
pub record ManifestFile (F : Type 0) : Type 0 where
  pub path : Str
  pub mtime : Option F
  pub manifest : Option (Json F)

-- What a manifest is to the current one of its alias.
pub data Verdict : Type 0 where
  same rollback publish : Verdict

abbrev pub note_change : Option Str → List Str → List Str
note_change none changed = changed
note_change (some alias) changed = alias ∷ changed

module _ {F : Type 0} where
  -- `current["manifest"]`, and its version.
  abbrev pub manifest_in : Json F → Json F
  manifest_in signed = or_null (get (codes "manifest") signed)

  unfoldable pub current_version : Json F → ℤ
  unfolding version_of
  current_version signed = version_of (manifest_in signed)

  unfoldable pub judge : Option (Json F) → Json F → Str → Verdict
  judge none manifest hash = publish
  judge (some current) manifest hash =
      if str_of (get (codes "manifest_hash") current) == hash
      then same
      else if ltb_ℤ (version_of manifest) (current_version current)
      then rollback
      else publish

  abbrev pub path_le : ManifestFile F → ManifestFile F → Bool
  path_le a b = lex_le a.path b.path

  abbrev mark_seen : Str → F → App F → App F
  mark_seen path mtime app = record app {
    seen_manifest_files = insert path mtime app.seen_manifest_files;
  }

module _ {F : Type 0} ⦃fl : Floats F⦄ where
  -- `seen_manifest_files.get(str(path)) == mtime`
  unfoldable pub is_seen : Option F → F → Bool
  is_seen none mtime = false
  is_seen (some t) mtime = not (fl.lt t mtime) && not (fl.lt mtime t)

module _ {F : Type 0} ⦃fl : Floats F⦄ ⦃cr : Crypto⦄ (identity : NodeIdentity) where
  -- `SignedManifest(...)`, signed by the control plane.
  unfoldable pub sign_manifest : Json F → Json F
  sign_manifest manifest =
      dump_manifest manifest (manifest_hash manifest) (public_b64 identity)
        (sign_json identity manifest)

  -- The app, and the alias if its manifest changed.
  unfoldable pub settle : Verdict → Str → F → Json F → App F → App F × Option Str
  settle same path mtime manifest app = (mark_seen path mtime app, none)
  settle rollback path mtime manifest app = (mark_seen path mtime app, none)
  settle publish path mtime manifest app = (
    mark_seen path mtime (record app {
      store =
          put_manifest (alias_of manifest) (manifest_hash manifest) (sign_manifest manifest)
            app.store;
    }),
    some (alias_of manifest),
  )

  -- A file that raises is logged, and tried again by the next scan.
  unfoldable pub load_file : Str → F → Option (Json F) → App F → App F × Option Str
  load_file path mtime none app = (app, none)
  load_file path mtime (some manifest) app =
      settle (judge (get_manifest (alias_of manifest) app.store) manifest (manifest_hash manifest))
        path mtime manifest app

  unfoldable pub scan_file : ManifestFile F → Option F → App F → App F × Option Str
  scan_file file none app = (app, none)
  scan_file file (some mtime) app =
      if is_seen (lookup file.path app.seen_manifest_files) mtime
      then (app, none)
      else load_file file.path mtime file.manifest app

  unfoldable pub scan_files : List (ManifestFile F) → App F → App F × List Str
  scan_files [] app = (app, [])
  scan_files (file ∷ files) app =
      let (app2, changed) = scan_file file file.mtime app in
      let (app3, more) = scan_files files app2 in (app3, note_change changed more)

  -- None is a directory that does not exist.
  unfoldable pub scan_manifests : Option (List (ManifestFile F)) → App F → App F × List Str
  scan_manifests none app = (app, [])
  scan_manifests (some files) app = scan_files (sort path_le files) app

module _ {F : Type 0} where
  -- The files of the first quantization.
  abbrev first_files : List (Json F) → List (Json F)
  first_files [] = []
  first_files (q ∷ qs) = list_of (get (codes "files") q)

  unfoldable pub model_view : Str × ManifestRow F → ModelView F
  unfolding file_of
  model_view (alias, row) =
      let manifest = manifest_in row.signed_manifest in
      record {
        id = alias;
        manifest_hash = row.manifest_hash;
        display_name = str_of (get (codes "display_name") manifest);
        context_length = int_of (pos 0) (get (codes "context_length_configured") manifest);
        version = version_of manifest;
        size_bytes = sum (
            map (λ f. (file_of f).size_bytes)
              (first_files (list_of (get (codes "quantizations") manifest))));
      }

  unfoldable pub list_models : App F → List (ModelView F)
  list_models app = map model_view (list_manifests app.store)

  abbrev found_model : Option (Json F) → Result HttpFault (Json F)
  found_model none = err unknown_model
  found_model (some raw) = ok raw

  unfoldable pub get_model : Str → App F → Result HttpFault (Json F)
  get_model alias app = found_model (get_manifest alias app.store)
