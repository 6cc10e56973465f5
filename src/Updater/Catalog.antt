-- ===== src/Updater/Catalog.antt =====
-- updater/catalog.ts: the catalog of official releases. What `download` answers to each address, and
-- how the answer is decoded, are parameters (`Downloads`).
pub mod Official
use Prim.Native.Nat.{Ordering}
use Prim.Native.String
use rustdesk_console.Common.{
  ℕ, zero, suc, ◌+◌, String, Bool, true, false, not, ◌&&◌, Option, none, some, List, [], ◌∷◌, ◌++◌,
  ◌==◌, string_eq, if◌then◌else◌, ltb, filter, find?, length,
}
use rustdesk_console.Common.Effects.{Result, ok, err}
use rustdesk_console.Common.Results.{◌>>=◌, ◌>>◌}
use rustdesk_console.Updater.Contracts.{
  Component, official_repository, ReleaseManifest, UpdateError, conflict, Thrown, update_error,
}
use rustdesk_console.Updater.Version.{compare_versions, is_newer}
use rustdesk_console.Updater.Manifest.{
  OfficialRelease, ReleaseAsset, is_stable_release, is_safe_integer, validate_manifest, without_v,
}

-- The interface that the planner uses.
pub record Catalog : Type 0 where
  pub latest : Component → Result Thrown ReleaseManifest
  pub exact : Component → ℕ → Result Thrown ReleaseManifest

pub record Downloads : Type 0 where
  -- the batch of a page, or nothing if it is no array
  pub releases : Component → ℕ → Result Thrown (Option (List OfficialRelease))
  pub release : Component → ℕ → Result Thrown OfficialRelease
  pub manifest : String → Result Thrown ReleaseManifest
  -- the commit of a tag
  pub commit : Component → String → Result Thrown String

abbrev pub lifted {ℓ} : {A : Type ℓ} → Result UpdateError A → Result Thrown A
lifted (ok a) = ok a
lifted (err e) = err (update_error e)

abbrev pub require : Bool → String → String → Result Thrown (Unit {0})
require true code message = ok tt
require false code message = err (update_error (conflict code message))

abbrev pub required : {A : Type 0} → Option A → String → String → Result Thrown A
required (some a) code message = ok a
required none code message = err (update_error (conflict code message))

abbrev pub branch_on {ℓ} : {A : Type ℓ} → Bool → A → A → A
branch_on b x y = if b then x else y

abbrev pub manifest_url : Component → String → String
manifest_url component tag = String.◌++◌ "https://github.com/" (
    String.◌++◌ (official_repository component)
      (String.◌++◌ "/releases/download/" (String.◌++◌ tag "/update-manifest.json")))

abbrev pub is_at : String → Option ReleaseAsset → Bool
is_at url none = false
is_at url (some asset) = asset.browser_download_url == url

module _ (downloads : Downloads) where
  unfoldable pub read : Component → OfficialRelease → Result Thrown ReleaseManifest
  read component release = do
    require (is_stable_release release) "NON_STABLE_RELEASE"
        "Only official stable releases may be installed."
    require
        (is_at (manifest_url component release.tag_name)
          (find? (λ a. a.name == "update-manifest.json") release.assets))
        "MANIFEST_PENDING" "The latest official release is not yet ready for automatic updating."
    manifest ← downloads.manifest (manifest_url component release.tag_name)
    commit ← downloads.commit component release.tag_name
    lifted (validate_manifest manifest component release commit)

  -- The stable releases of the pages from `page` on, at most `left` of them: the loop over ten pages.
  unfoldable pub stable_from : ℕ → ℕ → Component → Result Thrown (List OfficialRelease)
  stable_from zero page component = ok []
  stable_from (suc left) page component =
      let rest = stable_from left (page + 1) component in
      do
        answer ← downloads.releases component page
        batch ← required answer "CATALOG_UNAVAILABLE" "The official release catalog is invalid."
        branch_on (ltb (length batch) 100) (ok (filter is_stable_release batch)) (do
          require (ltb page 10) "CATALOG_LIMIT" "The release catalog requires a newer updater."
          more ← rest
          ok (filter is_stable_release batch ++ more))

-- `releases.sort(...)[0]`: the first of the releases with the newest version. Every release has a
-- stable version, so that no comparison throws.
abbrev pub better : OfficialRelease → OfficialRelease → OfficialRelease
better a b =
    if is_newer (compare_versions (without_v b.tag_name) (without_v a.tag_name)) then b else a

unfoldable pub newest_of : OfficialRelease → List OfficialRelease → OfficialRelease
newest_of a [] = a
newest_of a (b ∷ bs) = newest_of (better a b) bs

abbrev pub newest : List OfficialRelease → Option OfficialRelease
newest [] = none
newest (r ∷ rs) = some (newest_of r rs)

module _ (downloads : Downloads) where
  unfoldable pub latest : Component → Result Thrown ReleaseManifest
  latest component = do
    releases ← stable_from downloads 10 1 component
    release ←
        required (newest releases) "RELEASE_UNAVAILABLE" "No official stable release is available."
    read downloads component release

  unfoldable pub exact : Component → ℕ → Result Thrown ReleaseManifest
  exact component release_id = do
    require (is_safe_integer release_id && ltb 0 release_id) "INVALID_MANIFEST"
        "The release identity is invalid."
    release ← downloads.release component release_id
    read downloads component release

  abbrev pub official_catalog : Catalog
  official_catalog = record { latest = latest; exact = exact }
