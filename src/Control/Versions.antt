-- ===== src/Control/Versions.antt =====
-- The channels of the catalog: a scan never publishes a lower version than the one that is out.
use mesh_compute.Prelude.Bytes.{codes, Str}
use mesh_compute.Python.{Floats}
use mesh_compute.Prelude.{
  list_beq, ◌≡◌, inl, inr, refl, sym, ap, subst, ◌∙◌, false, Option, none, some, List, [], ◌∷◌,
  arith, Bool-cases, ◌==◌, nat_eq, list_eq, beq_cases,
}
use mesh_compute.Prelude.Dict.{lookup, lookup-insert}
use mesh_compute.Prelude.Sort.{sort}
use mesh_compute.Prelude.Int.{ℤ, ltb_ℤ, ◌≤ℤ◌}
use mesh_compute.Protocol.Identity.{Crypto, NodeIdentity}
use mesh_compute.Protocol.Json.{Json}
use mesh_compute.Store.Tables.{put_manifest, get_manifest}
use mesh_compute.Control.Read.{alias_of, manifest_hash, version_of, get, str_of}
use mesh_compute.Control.Requests.{dump_manifest}
use mesh_compute.Control.Nodes.{App}
use mesh_compute.Control.Catalog.{
  ManifestFile, Verdict, settle, judge, load_file, is_seen, scan_file, scan_files, scan_manifests,
  path_le, sign_manifest, current_version,
}

≤ℤ_refl : (a : ℤ) → a ≤ℤ a
≤ℤ_refl a = omega arith

≤ℤ_trans : (a b c : ℤ) → a ≤ℤ b → b ≤ℤ c → a ≤ℤ c
≤ℤ_trans a b c h k = omega (arith, h, k)

not_lt_ℤ : (a b : ℤ) → ltb_ℤ a b ≡ false → b ≤ℤ a
not_lt_ℤ a b h = ground arith

module _ {F : Type 0} where
  -- What is out under the alias is still out, or something of a version that is not lower.
  abbrev pub Advances : Str → App F → App F → Type 0
  Advances alias a b =
      (current : Json F)
      → get_manifest alias a.store ≡ some current
      → (later : Json F) × (get_manifest alias b.store ≡ some later)
        × (current_version current ≤ℤ current_version later)

  Advances-refl : (alias : Str) (a : App F) → Advances alias a a
  Advances-refl alias a current e = (current, e, ≤ℤ_refl (current_version current))

  Advances-trans :
      (alias : Str) (a b c : App F) → Advances alias a b → Advances alias b c → Advances alias a c
  Advances-trans alias a b c s t current e =
      let (mid, e2, h) = s current e in
      let (last, e3, k) = t mid e2 in
      (
        last,
        e3,
        ≤ℤ_trans (current_version current) (current_version mid) (current_version last) h k,
      )

  judge-publish :
      (current manifest : Json F) (hash : Str)
      → judge (some current) manifest hash ≡ Verdict.publish
      → current_version current ≤ℤ version_of manifest
  unfolding judge
  judge-publish current manifest hash e =
      elim (Bool-cases (str_of (get (codes "manifest_hash") current) == hash)) [
        | inl equal ↦ absurd (let f = rw equal at e in cc)
        | inr other ↦ elim (Bool-cases (ltb_ℤ (version_of manifest) (current_version current))) [
          | inl lower ↦ absurd (let f = rw (other, lower) at e in cc)
          | inr fine ↦ not_lt_ℤ (version_of manifest) (current_version current) fine
        ]
      ]

module _ {F : Type 0} ⦃fl : Floats F⦄ ⦃cr : Crypto⦄ (identity : NodeIdentity) where
  version-sign_manifest :
      (manifest : Json F) → current_version (sign_manifest identity manifest) ≡ version_of manifest
  unfolding current_version sign_manifest dump_manifest list_beq
  version-sign_manifest manifest = refl

  settle-Advances :
      (v : Verdict) (path : Str) (mtime : F) (manifest : Json F) (app : App F) (alias : Str)
      → judge (get_manifest (alias_of manifest) app.store) manifest (manifest_hash manifest) ≡ v
      → Advances alias app (settle identity v path mtime manifest app).0
  unfolding settle
  settle-Advances Verdict.same path mtime manifest app alias j = Advances-refl alias app
  settle-Advances Verdict.rollback path mtime manifest app alias j = Advances-refl alias app
  settle-Advances Verdict.publish path mtime manifest app alias j = λ current e.
      elim (beq_cases alias (alias_of manifest)) [
        | inl (same, eq) ↦ (
          sign_manifest identity manifest,
          unfold get_manifest put_manifest in
              rw (lookup-insert alias (alias_of manifest) _ app.store.manifests, same) refl,
          rw (version-sign_manifest manifest) (
              judge-publish current manifest (manifest_hash manifest) (
                subst (λ o. judge o manifest (manifest_hash manifest) ≡ Verdict.publish)
                  (ap (λ a. get_manifest a app.store) (sym eq) ∙ e) j)),
        )
        | inr (other, _) ↦ (
          current,
          (unfold get_manifest put_manifest in
              rw (lookup-insert alias (alias_of manifest) _ app.store.manifests, other) e),
          ≤ℤ_refl (current_version current),
        )
      ]

  load_file-Advances :
      (path : Str) (mtime : F) (manifest : Option (Json F)) (app : App F) (alias : Str)
      → Advances alias app (load_file identity path mtime manifest app).0
  unfolding load_file
  load_file-Advances path mtime none app alias = Advances-refl alias app
  load_file-Advances path mtime (some manifest) app alias =
      settle-Advances _ path mtime manifest app alias refl

  scan_file-Advances :
      (file : ManifestFile F) (mtime : Option F) (app : App F) (alias : Str)
      → Advances alias app (scan_file identity file mtime app).0
  unfolding scan_file
  scan_file-Advances file none app alias = Advances-refl alias app
  scan_file-Advances file (some mtime) app alias =
      elim (Bool-cases (is_seen (lookup file.path app.seen_manifest_files) mtime)) [
        | inl old ↦ rw old (Advances-refl alias app)
        | inr new ↦ rw new (load_file-Advances file.path mtime file.manifest app alias)
      ]

  scan_files-Advances :
      (files : List (ManifestFile F)) (app : App F) (alias : Str)
      → Advances alias app (scan_files identity files app).0
  unfolding scan_files
  scan_files-Advances [] app alias = Advances-refl alias app
  scan_files-Advances (file ∷ files) app alias =
      let app2 = (scan_file identity file file.mtime app).0 in
      Advances-trans alias app app2 (scan_files identity files app2).0
        (scan_file-Advances file file.mtime app alias) (scan_files-Advances files app2 alias)

  -- A scan rolls no channel back: an alias with a published manifest has one after the scan of any
  -- directory, and its version is not lower.
  pub scan_manifests-Advances :
      (files : Option (List (ManifestFile F))) (app : App F) (alias : Str) {current : Json F}
      → get_manifest alias app.store ≡ some current
      → (later : Json F) × (get_manifest alias (scan_manifests identity files app).0.store
          ≡ some later)
        × (current_version current ≤ℤ current_version later)
  unfolding scan_manifests
  scan_manifests-Advances none app alias {current} e = Advances-refl alias app current e
  scan_manifests-Advances (some files) app alias {current} e =
      scan_files-Advances (sort path_le files) app alias current e
