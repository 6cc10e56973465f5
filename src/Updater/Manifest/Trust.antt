-- ===== src/Updater/Manifest/Trust.antt =====
-- What a manifest that was accepted guarantees of itself and of the artifact that is chosen from it.
use rustdesk_console.Common.{
  all-filter, String, ◌≡◌, refl, sym, subst, Bool, true, ◌&&◌, List, [], ◌∷◌, ◌==◌, string_eq,
  nat_eq, all, all-filter_of_all, filter, ltb, arith, ==_iff,
}
use rustdesk_console.Common.Chars.{codes}
use rustdesk_console.Common.Effects.{ok}
use rustdesk_console.Updater.Contracts.{
  Component, ArtifactKind, oci, archive, Platform, ReleaseArtifact, ReleaseManifest,
}
use rustdesk_console.Updater.Version.{is_stable_version, is_term, terms}
use rustdesk_console.Updater.Manifest.{
  OfficialRelease, assert_source, assert_artifact, assert_artifacts, check_manifest,
  validate_manifest, select_artifact, only, suits, is_supported_platform, is_hex_of, image_url,
  archive_url, is_archive_name, is_stable_release, without_v,
}

-- The address of an artifact is the one that its digest, or the release's tag, determines.
abbrev pub has_official_url : ArtifactKind → Component → String → ReleaseArtifact → Bool
has_official_url oci component tag a = a.url == image_url component a.sha256
has_official_url archive component tag a =
    (a.url == archive_url component tag a.name) && is_archive_name (codes a.name)

abbrev pub is_official : Component → String → ReleaseArtifact → Bool
is_official component tag a =
    is_supported_platform a.platform
    && (is_hex_of 64 (codes a.sha256) && (ltb 0 a.size && has_official_url a.kind component tag a))

assert_source-official :
    (kind : ArtifactKind) (a : ReleaseArtifact) (component : Component) (tag : String)
    → assert_source kind a component tag ≡ ok tt
    → has_official_url kind component tag a ≡ true
assert_source-official oci a component tag h = ground arith
assert_source-official archive a component tag h = ground arith

assert_artifact-official :
    (a : ReleaseArtifact) (component : Component) (tag : String)
    → assert_artifact a component tag ≡ ok tt
    → is_official component tag a ≡ true
unfolding assert_artifact
assert_artifact-official a component tag h =
    ground (arith, assert_source-official a.kind a component tag)

assert_artifacts-official :
    (as' : List ReleaseArtifact) (component : Component) (release : OfficialRelease)
    → assert_artifacts as' component release ≡ ok tt
    → all (is_official component release.tag_name) as' ≡ true
unfolding assert_artifacts
assert_artifacts-official [] component release h = refl
assert_artifacts-official (a ∷ as') component release h = ground (
  arith,
  assert_artifact-official a component release.tag_name,
  assert_artifacts-official as' component release,
)

-- What the planner relies on.
pub record IsTrusted (component : Component) (release : OfficialRelease) (commit : String)
    (m : ReleaseManifest) : Type 0 where
  pub tag : m.tag ≡ release.tag_name
  pub version : m.version ≡ without_v release.tag_name
  pub source : m.source_commit ≡ commit
  pub stable : is_stable_version (codes m.version) ≡ true
  pub range : all is_term (terms m.peer_version_range) ≡ true
  pub official : all (is_official component m.tag) m.artifacts ≡ true

-- The facts that the checks establish, in the order of the checks.
check_manifest-facts :
    (m : ReleaseManifest) (component : Component) (release : OfficialRelease) (commit : String)
    → check_manifest m component release commit ≡ ok tt
    → (is_stable_version (codes (without_v release.tag_name)) ≡ true)
      × ((m.tag == release.tag_name) ≡ true)
      × ((m.version == without_v release.tag_name) ≡ true)
      × ((m.source_commit == commit) ≡ true)
      × (all is_term (terms m.peer_version_range) ≡ true)
      × (all (is_official component release.tag_name) m.artifacts ≡ true)
unfolding check_manifest is_stable_release
check_manifest-facts m component release commit h = (
  ground arith,
  ground arith,
  ground arith,
  ground arith,
  ground arith,
  assert_artifacts-official m.artifacts component release (ground arith),
)

check_manifest-IsTrusted :
    (m : ReleaseManifest) (component : Component) (release : OfficialRelease) (commit : String)
    → check_manifest m component release commit ≡ ok tt
    → IsTrusted component release commit m
check_manifest-IsTrusted m component release commit h =
    let (stable, tag, version, source, range, official) =
      check_manifest-facts m component release commit h in
    let same_tag = (==_iff m.tag release.tag_name).0 tag in
    let same_version = (==_iff m.version (without_v release.tag_name)).0 version in
    record {
      tag = same_tag;
      version = same_version;
      source = (==_iff m.source_commit commit).0 source;
      stable = subst (λ v. is_stable_version (codes v) ≡ true) (sym same_version) stable;
      range = range;
      official =
          subst (λ t. all (is_official component t) m.artifacts ≡ true) (sym same_tag) official;
    }

-- If a manifest is accepted for a release and a commit, it is returned as it is, its tag, its
-- version and its source are those of the release and the commit, its version is stable, each word of its range of
-- peer versions is a term, and each of its artifacts has a digest, a size and an official address.
pub validate_manifest-IsTrusted :
    (m m' : ReleaseManifest) (component : Component) (release : OfficialRelease) (commit : String)
    → validate_manifest m component release commit ≡ ok m'
    → (m' ≡ m) × IsTrusted component release commit m
unfolding validate_manifest
validate_manifest-IsTrusted m m' component release commit h =
    (ground arith, check_manifest-IsTrusted m component release commit (ground arith))

only-single : (as' : List ReleaseArtifact) (a : ReleaseArtifact) → only as' ≡ ok a → as' ≡ a ∷ []
only-single [] a h = cc
only-single (b ∷ []) a h = cc
only-single (b ∷ (c ∷ as')) a h = cc

-- What holds of all the artifacts, and of those that suit, holds of the one that is selected.
select_artifact-holds :
    (p : ReleaseArtifact → Bool) (m : ReleaseManifest) (platform : Platform) (kind : ArtifactKind)
    (a : ReleaseArtifact)
    → all p m.artifacts ≡ true
    → select_artifact m platform kind ≡ ok a
    → (p a ≡ true) × (suits platform kind a ≡ true)
unfolding select_artifact
select_artifact-holds p m platform kind a h k =
    let one = only-single (filter (suits platform kind) m.artifacts) a k in
    let good = all-filter_of_all p (suits platform kind) m.artifacts h in
    let fit = all-filter (suits platform kind) m.artifacts in
    (
      holds p (subst (λ l. all p l ≡ true) one good),
      holds (suits platform kind) (subst (λ l. all (suits platform kind) l ≡ true) one fit),
    )
  where
    holds : (q : ReleaseArtifact → Bool) → all q (a ∷ []) ≡ true → q a ≡ true
    holds q e = ground arith

-- An artifact that is selected from a trusted manifest is official, and suits.
pub select_artifact-trusted :
    (component : Component) (release : OfficialRelease) (commit : String) (m : ReleaseManifest)
    (platform : Platform) (kind : ArtifactKind) (a : ReleaseArtifact)
    → IsTrusted component release commit m
    → select_artifact m platform kind ≡ ok a
    → (is_official component m.tag a ≡ true) × (suits platform kind a ≡ true)
select_artifact-trusted component release commit m platform kind a trusted k =
    select_artifact-holds (is_official component m.tag) m platform kind a trusted.official k

-- If a manifest is accepted, an artifact that is then selected from it for a platform and a kind is
-- of that platform and kind, with a digest, a size and an official address.
pub select_artifact-official :
    (m m' : ReleaseManifest) (component : Component) (release : OfficialRelease) (commit : String)
    (platform : Platform) (kind : ArtifactKind) (a : ReleaseArtifact)
    → validate_manifest m component release commit ≡ ok m'
    → select_artifact m' platform kind ≡ ok a
    → (is_official component m'.tag a ≡ true) × (suits platform kind a ≡ true)
select_artifact-official m m' component release commit platform kind a h k =
    let (same, trusted) = validate_manifest-IsTrusted m m' component release commit h in
    select_artifact-trusted component release commit m' platform kind a
      (subst (IsTrusted component release commit) (sym same) trusted) k
