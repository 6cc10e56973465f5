-- ===== src/Updater/Planner/Soundness.antt =====
-- What the planner guarantees of a plan that may be carried out.
use Prim.Native.Nat.{Ordering}
use rustdesk_console.Common.{
  and-true, String, ◌≡◌, refl, sym, ap, ◌∙◌, subst, ◌⊎◌, inl, inr, Bool, true, false, not, ◌&&◌,
  List, [], ◌∷◌, ◌++◌, any, arith, ◌==◌, string_eq, ==_iff, ==_refl, Bool-cases,
}
use rustdesk_console.Common.Effects.{Result, ok, err}
use rustdesk_console.Common.Results.{bind-ok}
use rustdesk_console.Updater.Contracts.{
  Component, backend, web, InstalledComponent, ReleaseManifest, PerComponent, at, Installation,
  PersistedPlan, Thrown,
}
use rustdesk_console.Updater.Version.{compare_versions, satisfies, is_newer}
use rustdesk_console.Updater.Version.Order.{compare_versions_irrefl}
use rustdesk_console.Updater.Manifest.Trust.{is_official, select_artifact-trusted}
use rustdesk_console.Updater.Catalog.{lifted}
use rustdesk_console.Updater.Catalog.Official.{IsOfficial, lifted-ok}
use rustdesk_console.Updater.Planner.{
  Host, all_blockers, find_target, upgrade, target_or, targets_of, are_compatible, both, is_empty,
  plan_of, create, change_of, is_update, changes_of, blocker_of, blockers, artifact_kind,
  installed_from,
}

-- A newer version, whose artifact has a digest, a size and an official address.
abbrev pub IsUpgradeOf : Component → InstalledComponent → InstalledComponent → Type 0
IsUpgradeOf component installed target =
    (compare_versions target.version installed.version ≡ ok Ordering.gt)
    × (is_official component target.manifest.tag target.artifact ≡ true)

abbrev pub IsTarget : Component → InstalledComponent → InstalledComponent → Type 0
IsTarget component installed target = (target ≡ installed) ⊎ IsUpgradeOf component installed target

module _ (host : Host) (installation : Installation) (trusted : IsOfficial host.catalog) where
  upgrade-IsTarget :
      (component : Component) (installed : InstalledComponent) (m : ReleaseManifest) (o : Ordering)
      (t : InstalledComponent)
      → host.catalog.latest component ≡ ok m
      → compare_versions m.version installed.version ≡ ok o
      → upgrade installation installed m o ≡ ok t
      → IsTarget component installed t
  unfolding upgrade
  upgrade-IsTarget component installed m Ordering.lt t f c h = inl (cc)
  upgrade-IsTarget component installed m Ordering.eq t f c h = inl (cc)
  upgrade-IsTarget component installed m Ordering.gt t f c h =
      let (a, selected, h1) = bind-ok h in
      let made : installed_from m a ≡ t = cc in
      let vouched = trusted.latest component m f in
      let official =
        select_artifact-trusted component vouched.release vouched.commit m installation.platform
          (artifact_kind installation.deployment) a vouched.trusted (lifted-ok _ a selected) in
      inr (subst (IsUpgradeOf component installed) made (c, official.0))

  find_target-IsTarget :
      (component : Component) (t : InstalledComponent)
      → find_target host installation component ≡ ok t
      → IsTarget component (at installation.current component) t
  unfolding find_target
  find_target-IsTarget component t h =
      let (m, f, h1) = bind-ok h in
      let (o, c, h2) = bind-ok h1 in
      upgrade-IsTarget component (at installation.current component) m o t f (lifted-ok _ o c) h2

  target_or-IsTarget :
      (component : Component) (installed : InstalledComponent)
      (r : Result Thrown InstalledComponent)
      → ((t : InstalledComponent) → r ≡ ok t → IsTarget component installed t)
      → IsTarget component installed (target_or installed r)
  target_or-IsTarget component installed (ok t) h = h t refl
  target_or-IsTarget component installed (err e) h = inl refl

  targets_of-IsTarget :
      (component : Component)
      → IsTarget component
          (at installation.current component)
          (at (targets_of host installation) component)
  unfolding targets_of
  targets_of-IsTarget backend =
      target_or-IsTarget backend installation.current.backend
        (find_target host installation backend) (find_target-IsTarget backend)
  targets_of-IsTarget web =
      target_or-IsTarget web installation.current.web (find_target host installation web)
        (find_target-IsTarget web)

-- A version that is the same or newer differs exactly when it is newer.
differs-newer :
    (v w : String)
    → (v ≡ w) ⊎ (compare_versions v w ≡ ok Ordering.gt)
    → not (v == w) ≡ is_newer (compare_versions v w)
differs-newer v w (inl same) =
    subst (λ x. not (v == x) ≡ is_newer (compare_versions v x)) same
      (ground (arith, ==_refl v, compare_versions_irrefl v))
differs-newer v w (inr newer) = elim (Bool-cases (v == w)) [
  | inl equal ↦
      let same = (==_iff v w).0 equal in
      let impossible =
        subst (λ x. is_newer (compare_versions v x) ≡ false) same (compare_versions_irrefl v) in
      absurd (cc (impossible, newer))
  | inr different ↦ rw (different, newer) refl
]

versions_of :
    (component : Component) (installed target : InstalledComponent)
    → IsTarget component installed target
    → (target.version ≡ installed.version)
      ⊎ (compare_versions target.version installed.version ≡ ok Ordering.gt)
versions_of component installed target (inl same) =
    inl (ap (λ (c : InstalledComponent). c.version) same)
versions_of component installed target (inr (newer, official)) = inr newer

is_empty-append :
    {A : Type 0} (xs ys : List A)
    → is_empty (xs ++ ys) ≡ true
    → (is_empty xs ≡ true) × (is_empty ys ≡ true)
is_empty-append [] ys h = (refl, h)
is_empty-append (x ∷ xs) ys h = cc

is_empty-nil : {A : Type 0} (xs : List A) → is_empty xs ≡ true → xs ≡ []
is_empty-nil [] h = refl
is_empty-nil (x ∷ xs) h = cc

are_compatible-both :
    (t : PerComponent InstalledComponent)
    → are_compatible t ≡ ok true
    → (satisfies t.web.version t.backend.manifest.peer_version_range ≡ ok true)
      × (satisfies t.backend.version t.web.manifest.peer_version_range ≡ ok true)
unfolding are_compatible
are_compatible-both t h = first_then (bind-ok h)
  where
    first_then :
        (b : Bool) × (lifted (satisfies t.web.version t.backend.manifest.peer_version_range) ≡ ok b)
          × (both b (lifted (satisfies t.backend.version t.web.manifest.peer_version_range))
              ≡ ok true)
        → (satisfies t.web.version t.backend.manifest.peer_version_range ≡ ok true)
          × (satisfies t.backend.version t.web.manifest.peer_version_range ≡ ok true)
    first_then (true, e, k) = (lifted-ok _ true e, lifted-ok _ true k)
    first_then (false, e, k) = cc

-- What a plan promises that may be carried out.
pub record IsSound (installation : Installation) (plan : PersistedPlan) : Type 0 where
  pub unblocked : plan.view.blockers ≡ []
  pub targets :
      (component : Component)
      → IsTarget component (at installation.current component) (at plan.targets component)
  pub actions :
      (component : Component)
      → is_update (change_of installation plan.targets component)
        ≡ is_newer (
            compare_versions
              (at plan.targets component).version
              (at installation.current component).version)
  pub listed : plan.view.components ≡ changes_of installation plan.targets
  pub some_update : any is_update plan.view.components ≡ true
  pub web_fits :
      satisfies plan.targets.web.version plan.targets.backend.manifest.peer_version_range ≡ ok true
  pub backend_fits :
      satisfies plan.targets.backend.version plan.targets.web.manifest.peer_version_range ≡ ok true

module _ (host : Host) (installation : Installation) (trusted : IsOfficial host.catalog) where
  is_update-newer :
      (component : Component)
      → is_update (change_of installation (targets_of host installation) component)
        ≡ is_newer (
            compare_versions
              (at (targets_of host installation) component).version
              (at installation.current component).version)
  is_update-newer component = ground (
    arith,
    differs-newer (at (targets_of host installation) component).version
        (at installation.current component).version
        (versions_of component _ _ (targets_of-IsTarget host installation trusted component)),
  )

  unblocked-compatible :
      (compatible : Bool)
      → is_empty (all_blockers host installation compatible) ≡ true
      → compatible ≡ true
  unblocked-compatible true h = refl
  unblocked-compatible false h =
      let (_, h1) = is_empty-append (blockers host) _ h in
      let (_, h2) = is_empty-append (blocker_of (find_target host installation backend)) _ h1 in
      let (_, h3) = is_empty-append (blocker_of (find_target host installation web)) _ h2 in
      absurd (cc h3)

  plan_of-IsSound :
      (compatible : Bool) (fingerprint : String)
      → are_compatible (targets_of host installation) ≡ ok compatible
      → (any is_update (changes_of installation (targets_of host installation))
          && is_empty (all_blockers host installation compatible))
        ≡ true
      → IsSound installation (
          plan_of host installation
            (targets_of host installation)
            (all_blockers host installation compatible)
            fingerprint)
  plan_of-IsSound compatible fingerprint fits h =
      let (changed, unblocked) = and-true _ _ h in
      let (web_fits, backend_fits) =
        are_compatible-both (targets_of host installation)
          (fits ∙ ap ok (unblocked-compatible compatible unblocked)) in
      record {
        unblocked = is_empty-nil (all_blockers host installation compatible) unblocked;
        targets = targets_of-IsTarget host installation trusted;
        actions = is_update-newer;
        listed = refl;
        some_update = changed;
        web_fits = web_fits;
        backend_fits = backend_fits;
      }

  -- With a catalog that returns only manifests that were validated for an official release: if a
  -- plan is created and may be carried out, it has no blockers; the target of each component is what
  -- is installed, or a newer version with an official artifact; a component is listed as an update
  -- exactly when its target is newer, and some component is; and each target's version is within
  -- the range of peer versions of the other.
  pub create-IsSound :
      (plan : PersistedPlan)
      → create host installation ≡ ok plan
      → plan.view.executable ≡ true
      → IsSound installation plan
  unfolding create
  create-IsSound plan h executable =
      let (compatible, fits, h1) = bind-ok h in
      let (fingerprint, _, h2) = bind-ok h1 in
      let (_, _, h3) = bind-ok h2 in
      let made : plan_of host installation (targets_of host installation)
            (all_blockers host installation compatible) fingerprint
          ≡ plan =
        ground arith in
      subst (IsSound installation) made (
        plan_of-IsSound compatible fingerprint fits
          (subst (λ (p : PersistedPlan). p.view.executable ≡ true) (sym made) executable))
