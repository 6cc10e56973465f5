-- ===== src/Updater/Catalog/Official.antt =====
-- What the official catalog guarantees: each manifest that it returns is trusted, and the latest one
-- belongs to a release than which no stable release is newer.
use Prim.Native.Nat.{Ordering}
use rustdesk_console.Common.Results.{bind-ok}
use rustdesk_console.Common.{
  ℕ, String, ◌≡◌, refl, sym, ap, ◌∙◌, subst, Bool, true, false, not, if◌then◌else◌, List, [], ◌∷◌,
  all, find?, ◌==◌, string_eq, arith,
}
use rustdesk_console.Common.Effects.{Result, ok, err}
use rustdesk_console.Updater.Contracts.{Component, ReleaseManifest, UpdateError}
use rustdesk_console.Updater.Version.{compare_versions, is_newer}
use rustdesk_console.Updater.Version.Order.{
  compare_versions-reversed, compare_versions_trans, compare_versions_irrefl, reversed,
}
use rustdesk_console.Updater.Manifest.{
  OfficialRelease, is_stable_release, validate_manifest, without_v,
}
use rustdesk_console.Updater.Manifest.Trust.{IsTrusted, validate_manifest-IsTrusted}
use rustdesk_console.Updater.Catalog.{
  Catalog, Downloads, read, stable_from, better, newest_of, newest, latest, exact, official_catalog,
  required, lifted, require, manifest_url, is_at,
}

-- Is the release one of the list?
pub data IsListed (release : OfficialRelease) : List OfficialRelease → Type 0 where
  here : (rs : List OfficialRelease) → IsListed release (release ∷ rs)
  there :
      (r : OfficialRelease) (rs : List OfficialRelease)
      → IsListed release rs
      → IsListed release (r ∷ rs)

-- A manifest that was downloaded from the address of a stable release's asset, and was validated for
-- this release and for the commit that was downloaded for its tag.
pub record IsDownloaded (downloads : Downloads) (component : Component) (release : OfficialRelease)
    (m : ReleaseManifest) : Type 0 where
  pub stable : is_stable_release release ≡ true
  pub asset :
      is_at
        (manifest_url component release.tag_name)
        (find? (λ a. a.name == "update-manifest.json") release.assets)
      ≡ true
  pub manifest : downloads.manifest (manifest_url component release.tag_name) ≡ ok m
  pub commit : String
  pub tagged : downloads.commit component release.tag_name ≡ ok commit
  pub trusted : IsTrusted component release commit m

-- The manifest of a release that the pages list.
pub record IsLatest (downloads : Downloads) (component : Component) (m : ReleaseManifest)
    : Type 0 where
  pub releases : List OfficialRelease
  pub pages : stable_from downloads 10 1 component ≡ ok releases
  pub release : OfficialRelease
  pub listed : IsListed release releases
  pub downloaded : IsDownloaded downloads component release m

-- The manifest of the release with an identifier.
pub record IsExact (downloads : Downloads) (component : Component) (id : ℕ) (m : ReleaseManifest)
    : Type 0 where
  pub release : OfficialRelease
  pub answered : downloads.release component id ≡ ok release
  pub downloaded : IsDownloaded downloads component release m

-- Where all manifests of a catalog come from.
pub record IsGenuine (downloads : Downloads) (catalog : Catalog) : Type 0 where
  pub latest :
      (component : Component) (m : ReleaseManifest)
      → catalog.latest component ≡ ok m
      → IsLatest downloads component m
  pub exact :
      (component : Component) (id : ℕ) (m : ReleaseManifest)
      → catalog.exact component id ≡ ok m
      → IsExact downloads component id m

-- A manifest that was validated for some release and commit.
pub record IsVouched (component : Component) (m : ReleaseManifest) : Type 0 where
  pub release : OfficialRelease
  pub commit : String
  pub trusted : IsTrusted component release commit m

-- The part of it that the planner relies on.
pub record IsOfficial (catalog : Catalog) : Type 0 where
  pub latest :
      (component : Component) (m : ReleaseManifest)
      → catalog.latest component ≡ ok m
      → IsVouched component m
  pub exact :
      (component : Component) (id : ℕ) (m : ReleaseManifest)
      → catalog.exact component id ≡ ok m
      → IsVouched component m

downloaded-IsVouched :
    (downloads : Downloads) (component : Component) (release : OfficialRelease)
    (m : ReleaseManifest)
    → IsDownloaded downloads component release m
    → IsVouched component m
downloaded-IsVouched downloads component release m d = record {
  release = release;
  commit = d.commit;
  trusted = d.trusted;
}

pub genuine-IsOfficial :
    (downloads : Downloads) (catalog : Catalog) → IsGenuine downloads catalog → IsOfficial catalog
genuine-IsOfficial downloads catalog g = record {
  latest = λ component m h.
      let l = g.latest component m h in
      downloaded-IsVouched downloads component l.release m l.downloaded;
  exact = λ component id m h.
      let x = g.exact component id m h in
      downloaded-IsVouched downloads component x.release m x.downloaded;
}

pub lifted-ok : {A : Type 0} (r : Result UpdateError A) (a : A) → lifted r ≡ ok a → r ≡ ok a
lifted-ok (ok b) a h = ground arith
lifted-ok (err e) a h = cc

require-ok :
    (b : Bool) (code message : String) (a : Unit {0}) → require b code message ≡ ok a → b ≡ true
require-ok true code message a h = refl
require-ok false code message a h = cc

listed_behind :
    (a b : OfficialRelease) (bs : List OfficialRelease) (x : OfficialRelease)
    → IsListed x (a ∷ bs)
    → IsListed x (a ∷ (b ∷ bs))
listed_behind a b bs _ (here rs) = here (b ∷ bs)
listed_behind a b bs x (there r rs h) = there a (b ∷ bs) (there b bs h)

listed-better :
    (second : Bool) (a b : OfficialRelease) (bs : List OfficialRelease) (x : OfficialRelease)
    → IsListed x ((if second then b else a) ∷ bs)
    → IsListed x (a ∷ (b ∷ bs))
listed-better true a b bs x h = there a (b ∷ bs) h
listed-better false a b bs x h = listed_behind a b bs x h

newest_of-IsListed :
    (a : OfficialRelease) (bs : List OfficialRelease) → IsListed (newest_of a bs) (a ∷ bs)
unfolding newest_of
newest_of-IsListed a [] = here []
newest_of-IsListed a (b ∷ bs) = listed-better _ a b bs _ (newest_of-IsListed (better a b) bs)

required-IsListed :
    (releases : List OfficialRelease) (code message : String) (x : OfficialRelease)
    → required (newest releases) code message ≡ ok x
    → IsListed x releases
required-IsListed [] code message x h = cc
required-IsListed (r ∷ rs) code message x h =
    let same : newest_of r rs ≡ x = cc in
    subst (λ y. IsListed y (r ∷ rs)) same (newest_of-IsListed r rs)

module _ (downloads : Downloads) where
  read-IsDownloaded :
      (component : Component) (release : OfficialRelease) (m : ReleaseManifest)
      → read downloads component release ≡ ok m
      → IsDownloaded downloads component release m
  unfolding read
  read-IsDownloaded component release m h =
      let (u, p1, h1) = bind-ok h in
      let (v, p2, h2) = bind-ok h1 in
      let (found, e, h3) = bind-ok h2 in
      let (commit, tagged, h4) = bind-ok h3 in
      let checked = lifted-ok (validate_manifest found component release commit) m h4 in
      let (same, trusted) = validate_manifest-IsTrusted found m component release commit checked in
      record {
        stable = require-ok _ _ _ u p1;
        asset = require-ok _ _ _ v p2;
        manifest = e ∙ ap ok (sym same);
        commit = commit;
        tagged = tagged;
        trusted = subst (IsTrusted component release commit) (sym same) trusted;
      }

  -- The catalog returns only manifests that were downloaded from the address of a stable release and
  -- validated for this release and for the commit that was downloaded for its tag. For `latest` the
  -- release is one of those that the pages list, and for `exact` it is the one that was downloaded
  -- for the identifier.
  pub official_catalog-IsGenuine : IsGenuine downloads (official_catalog downloads)
  unfolding latest exact
  official_catalog-IsGenuine = record {
    latest = λ component m h.
        let (releases, pages, h1) = bind-ok h in
        let (release, chosen, h2) = bind-ok h1 in
        record {
          releases = releases;
          pages = pages;
          release = release;
          listed = required-IsListed releases _ _ release chosen;
          downloaded = read-IsDownloaded component release m h2;
        };
    exact = λ component id m h.
        let (u, p, h1) = bind-ok h in
        let (release, answered, h2) = bind-ok h1 in
        record {
          release = release;
          answered = answered;
          downloaded = read-IsDownloaded component release m h2;
        };
  }

is_newer-gt : (r : Result UpdateError Ordering) → is_newer r ≡ true → r ≡ ok Ordering.gt
is_newer-gt (ok Ordering.lt) h = cc
is_newer-gt (ok Ordering.eq) h = cc
is_newer-gt (ok Ordering.gt) h = refl
is_newer-gt (err e) h = cc

abbrev pub newer : OfficialRelease → OfficialRelease → Bool
newer a b = is_newer (compare_versions (without_v a.tag_name) (without_v b.tag_name))

older :
    (a b : OfficialRelease)
    → newer a b ≡ true
    → compare_versions (without_v b.tag_name) (without_v a.tag_name) ≡ ok Ordering.lt
older a b h =
    compare_versions-reversed (without_v a.tag_name) (without_v b.tag_name)
    ∙ ap reversed (is_newer-gt _ h)

newer_trans : (a b c : OfficialRelease) → newer a b ≡ true → newer b c ≡ true → newer a c ≡ true
newer_trans a b c h k = ap is_newer (
    compare_versions-reversed (without_v c.tag_name) (without_v a.tag_name)
    ∙ ap reversed (compare_versions_trans _ (without_v b.tag_name) _ (older b c k) (older a b h)))

newer_irrefl : (a : OfficialRelease) → newer a a ≡ false
newer_irrefl a = compare_versions_irrefl (without_v a.tag_name)

-- A release that is not newer than the best so far is not newer than the best of all.
newest_of-keeps :
    (y a : OfficialRelease) (bs : List OfficialRelease)
    → newer y a ≡ false
    → newer y (newest_of a bs) ≡ false
unfolding newest_of
newest_of-keeps y a [] h = h
newest_of-keeps y a (b ∷ bs) h =
    newest_of-keeps y (better a b) bs (ground (arith, newer_trans y b a))

-- No release is newer than the best of them.
newest_of-newest :
    (a : OfficialRelease) (bs : List OfficialRelease) (x : OfficialRelease)
    → newest_of a bs ≡ x
    → all (λ y. not (newer y x)) (a ∷ bs) ≡ true
unfolding newest_of
newest_of-newest a [] x e = ground (arith, newer_irrefl a, ap (newer a) e)
newest_of-newest a (b ∷ bs) x e = ground (
  arith,
  newest_of-newest (better a b) bs x e,
  kept a (ground (arith, newer_irrefl a, newer_trans a b a)),
  kept b (ground (arith, newer_irrefl b)),
)
  where
    kept : (y : OfficialRelease) → newer y (better a b) ≡ false → newer y x ≡ false
    kept y h = sym (ap (newer y) e) ∙ newest_of-keeps y (better a b) bs h

newest-required :
    (releases : List OfficialRelease) (code message : String) (x : OfficialRelease)
    → required (newest releases) code message ≡ ok x
    → all (λ y. not (newer y x)) releases ≡ true
newest-required [] code message x h = refl
newest-required (r ∷ rs) code message x h = newest_of-newest r rs x (cc)

-- If the catalog names a latest manifest, it belongs to a release that is among the stable ones that
-- were listed for the component: it was downloaded and validated for this release, it has the
-- release's version, and no listed release has a newer one.
pub latest-newest :
    (downloads : Downloads) (component : Component) (m : ReleaseManifest)
    (releases : List OfficialRelease)
    → stable_from downloads 10 1 component ≡ ok releases
    → latest downloads component ≡ ok m
    → (release : OfficialRelease) × IsListed release releases
      × IsDownloaded downloads component release m
      × (m.version ≡ without_v release.tag_name)
      × (all (λ y. not (is_newer (compare_versions (without_v y.tag_name) m.version))) releases
          ≡ true)
unfolding latest
latest-newest downloads component m releases h k =
    let (found, e, k1) = bind-ok k in
    let (release, chosen, k2) = bind-ok k1 in
    let downloaded = read-IsDownloaded downloads component release m k2 in
    let version = downloaded.trusted.version in
    let same : found ≡ releases = cc in
    let best = newest-required found _ _ release chosen in
    (
      release,
      subst (IsListed release) same (required-IsListed found _ _ release chosen),
      downloaded,
      version,
      subst
          (λ v.
            all
              (λ (y : OfficialRelease). not (is_newer (compare_versions (without_v y.tag_name) v)))
              releases
            ≡ true)
          (sym version) (subst (λ l. all (λ y. not (newer y release)) l ≡ true) same best),
    )
