-- ===== src/Updater/Manifest.antt =====
-- updater/manifest.ts: which releases, manifests and artifacts the updater trusts. The manifest has
-- the types that contracts.ts gives it.
pub mod Trust
use Prim.Native.String
use Prim.Native.Char.{code}
use rustdesk_console.Common.{
  ℕ, ◌-◌, ◌^◌, String, Bool, true, false, not, ◌&&◌, ◌||◌, List, [], ◌∷◌, ◌==◌, nat_eq, string_eq,
  if◌then◌else◌, ltb, leb, all, any, length, filter, includes,
}
use rustdesk_console.Common.Chars.{codes, utf16_length, is_hex, is_alphanumeric}
use rustdesk_console.Common.Effects.{Result, ok, err}
use rustdesk_console.Updater.Contracts.{
  Component, backend, web, official_repository, ArtifactKind, oci, archive, Platform,
  ReleaseArtifact, ReleaseManifest, UpdateError, conflict,
}
use rustdesk_console.Updater.Version.{is_stable_version, is_term, terms}

pub record ReleaseAsset : Type 0 where
  pub name : String
  pub browser_download_url : String
  pub size : ℕ

pub record OfficialRelease : Type 0 where
  pub id : ℕ
  pub tag_name : String
  pub draft : Bool
  pub prerelease : Bool
  pub published_at : String
  pub assets : List ReleaseAsset

-- `Number.isSafeInteger`, of a natural number.
abbrev pub is_safe_integer : ℕ → Bool
is_safe_integer n = ltb n (2 ^ 53)

-- `tag.replace(/^v/, '')`.
abbrev pub without_v : String → String
without_v String.[] = String.[]
without_v (String.◌∷◌ c s) = if code c == 118 then s else String.◌∷◌ c s

unfoldable pub is_stable_release : OfficialRelease → Bool
is_stable_release release =
    not release.draft
    && (not release.prerelease
        && (is_stable_version (codes (without_v release.tag_name))
            && (is_safe_integer release.id
                && (ltb 0 release.id && not (release.published_at == "")))))

abbrev pub assert : Bool → String → String → Result UpdateError (Unit {0})
assert true code message = ok tt
assert false code message = err (conflict code message)

infixr 6 ◌and◌
abbrev pub ◌and◌ :
    Result UpdateError (Unit {0}) → Result UpdateError (Unit {0}) → Result UpdateError (Unit {0})
ok a and rest = rest
err e and rest = err e

-- `/^[a-f0-9]{n}$/`.
abbrev pub is_hex_of : ℕ → List ℕ → Bool
is_hex_of n cs = length cs == n && all is_hex cs

abbrev pub codes_equal : List ℕ → List ℕ → Bool
codes_equal [] [] = true
codes_equal (c ∷ cs) (d ∷ ds) = (c == d) && codes_equal cs ds
codes_equal _ _ = false

-- `[A-Za-z0-9._-]*\.tar\.gz`.
abbrev pub is_archive_rest : List ℕ → Bool
is_archive_rest [] = false
is_archive_rest (c ∷ cs) =
    codes_equal (c ∷ cs) (codes ".tar.gz")
    || ((is_alphanumeric c || (c == 46 || (c == 95 || c == 45))) && is_archive_rest cs)

abbrev pub is_archive_name : List ℕ → Bool
is_archive_name [] = false
is_archive_name (c ∷ cs) = is_alphanumeric c && is_archive_rest cs

abbrev pub is_supported_platform : Platform → Bool
is_supported_platform p =
    (p.os == "linux")
    && (includes {A = String} ("x64" ∷ "arm64" ∷ []) p.arch
        && includes {A = String} ("glibc" ∷ "musl" ∷ []) p.libc)

abbrev pub image_url : Component → String → String
image_url component sha256 =
    String.◌++◌ "ghcr.io/"
      (String.◌++◌ (official_repository component) (String.◌++◌ "@sha256:" sha256))

abbrev pub archive_url : Component → String → String → String
archive_url component tag name = String.◌++◌ "https://github.com/" (
    String.◌++◌ (official_repository component)
      (String.◌++◌ "/releases/download/" (String.◌++◌ tag (String.◌++◌ "/" name))))

abbrev pub assert_source :
    ArtifactKind → ReleaseArtifact → Component → String → Result UpdateError (Unit {0})
assert_source oci artifact component tag =
    assert (artifact.url == image_url component artifact.sha256) "UNTRUSTED_SOURCE"
      "Only digest-pinned official images are accepted."
assert_source archive artifact component tag =
    assert (is_archive_name (codes artifact.name)) "INVALID_ARTIFACT"
      "The release archive format is unsupported."
    and assert (artifact.url == archive_url component tag artifact.name) "UNTRUSTED_SOURCE"
        "Only official release archives are accepted."

unfoldable pub assert_artifact :
    ReleaseArtifact → Component → String → Result UpdateError (Unit {0})
assert_artifact artifact component tag =
    assert (is_supported_platform artifact.platform) "INVALID_ARTIFACT"
      "The release platform is unsupported."
    and assert
        (is_hex_of 64 (codes artifact.sha256)
          && (is_safe_integer artifact.size && ltb 0 artifact.size))
        "INVALID_ARTIFACT" "The release artifact has no valid integrity metadata."
    and assert_source artifact.kind artifact component tag

abbrev pub is_component : Component → Component → Bool
is_component backend backend = true
is_component web web = true
is_component _ _ = false

abbrev pub is_kind : ArtifactKind → ArtifactKind → Bool
is_kind oci oci = true
is_kind archive archive = true
is_kind _ _ = false

abbrev pub is_asset_of : ReleaseArtifact → ReleaseAsset → Bool
is_asset_of artifact asset =
    (asset.name == artifact.name)
    && ((asset.browser_download_url == artifact.url) && (asset.size == artifact.size))

-- Each artifact is trusted, and an archive is among the release's assets.
unfoldable pub assert_artifacts :
    List ReleaseArtifact → Component → OfficialRelease → Result UpdateError (Unit {0})
assert_artifacts [] component release = ok tt
assert_artifacts (a ∷ as') component release =
    assert_artifact a component release.tag_name
    and assert (not (is_kind a.kind archive) || any (is_asset_of a) release.assets)
        "ARTIFACTS_PENDING" "A declared release archive is missing."
    and assert_artifacts as' component release

unfoldable pub check_manifest :
    ReleaseManifest → Component → OfficialRelease → String → Result UpdateError (Unit {0})
check_manifest manifest component release commit =
    assert (is_stable_release release) "NON_STABLE_RELEASE"
      "The selected release is not an official stable release."
    and assert
        (manifest.schema_version == 1
          && (is_component manifest.component component
              && (manifest.repository == official_repository component)))
        "INVALID_MANIFEST" "The official update manifest is invalid."
    and assert
        (manifest.release_id == release.id
          && ((manifest.tag == release.tag_name)
              && ((manifest.version == without_v release.tag_name)
                  && (manifest.published_at == release.published_at))))
        "RELEASE_CHANGED" "The release identity changed. Preview the update again."
    and assert (is_hex_of 40 (codes manifest.source_commit) && (manifest.source_commit == commit))
        "RELEASE_CHANGED" "The release source does not match its tag."
    and assert
        (manifest.updater_protocol == 1
          && (manifest.maintenance_protocol == 1 && manifest.bundle_format == 1))
        "PROTOCOL_UNSUPPORTED" "The release requires an unsupported updater protocol."
    and assert
        (ltb (utf16_length (codes manifest.peer_version_range)) 200
          && all is_term (terms manifest.peer_version_range))
        "COMPATIBILITY_MISSING" "The release has no supported explicit compatibility range."
    and assert (ltb 0 (length manifest.artifacts) && leb (length manifest.artifacts) 32)
        "ARTIFACTS_PENDING" "The release artifacts are not complete."
    and assert_artifacts manifest.artifacts component release

abbrev pub returning :
    ReleaseManifest → Result UpdateError (Unit {0}) → Result UpdateError ReleaseManifest
returning manifest (ok a) = ok manifest
returning manifest (err e) = err e

unfoldable pub validate_manifest :
    ReleaseManifest → Component → OfficialRelease → String → Result UpdateError ReleaseManifest
validate_manifest manifest component release commit =
    returning manifest (check_manifest manifest component release commit)

abbrev pub suits : Platform → ArtifactKind → ReleaseArtifact → Bool
suits platform kind a =
    is_kind a.kind kind
    && ((a.platform.os == platform.os)
        && ((a.platform.arch == platform.arch) && (a.platform.libc == platform.libc)))

abbrev pub only : List ReleaseArtifact → Result UpdateError ReleaseArtifact
only (a ∷ []) = ok a
only _ = err (
    conflict "ARTIFACTS_PENDING" "Exactly one artifact for this installation platform is required.")

unfoldable pub select_artifact :
    ReleaseManifest → Platform → ArtifactKind → Result UpdateError ReleaseArtifact
select_artifact manifest platform kind = only (filter (suits platform kind) manifest.artifacts)
