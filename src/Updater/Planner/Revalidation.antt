-- ===== src/Updater/Planner/Revalidation.antt =====
-- What holds when a plan has been validated again.
use rustdesk_console.Common.{
  String, ◌≡◌, refl, sym, ◌∙◌, ap, Bool, true, false, ◌||◌, List, [], ◌∷◌, string_eq, ==_iff, ltb,
  and-true,
}
use rustdesk_console.Common.Effects.{ok}
use rustdesk_console.Common.Results.{bind-ok}
use rustdesk_console.Updater.Contracts.{
  Component, backend, web, ReleaseManifest, at, Installation, PersistedPlan, Blocker,
}
use rustdesk_console.Updater.Catalog.{require}
use rustdesk_console.Updater.Planner.{Host, same_release, no_blockers, blockers, revalidate}

require-true :
    (b : Bool) (code message : String) (a : Unit {0}) → require b code message ≡ ok a → b ≡ true
require-true true code message a h = refl
require-true false code message a h = cc

no_blockers-nil : (bs : List Blocker) → no_blockers bs ≡ ok tt → bs ≡ []
no_blockers-nil [] h = refl
no_blockers-nil (b ∷ bs) h = cc

-- The catalog still has the release, with a manifest of the same digest.
abbrev pub IsUnchanged : Host → PersistedPlan → Component → Type 0
IsUnchanged host plan component =
    (m : ReleaseManifest) × (host.catalog.exact component
        (at plan.targets component).manifest.release_id
      ≡ ok m)
    × (host.digest m ≡ at plan.manifest_digests component)

same_release-IsUnchanged :
    (host : Host) (plan : PersistedPlan) (component : Component)
    → same_release host plan component ≡ ok tt
    → IsUnchanged host plan component
unfolding same_release
same_release-IsUnchanged host plan component h =
    let (m, found, h1) = bind-ok h in
    (
      m,
      found,
      (==_iff (host.digest m) (at plan.manifest_digests component)).0 (require-true _ _ _ tt h1),
    )

pub record IsCurrent (host : Host) (installation : Installation) (plan : PersistedPlan)
    (execution : Bool) : Type 0 where
  pub installation_id : plan.view.installation_id ≡ installation.installation_id
  pub executable : plan.view.executable ≡ true
  pub in_time : (execution || ltb host.now plan.view.expires_at) ≡ true
  pub same_installation : host.fingerprint ≡ ok plan.installation_fingerprint
  pub same_releases : (component : Component) → IsUnchanged host plan component
  pub unblocked : blockers host ≡ []

-- If a plan is found valid again, it is a plan of this installation that may be carried out, it has
-- not expired unless it is being carried out, the installation's fingerprint is the plan's, the
-- catalog answers for the release of each target with a manifest of the digest that the plan holds,
-- and the preflights report no blocker.
pub revalidate-IsCurrent :
    (host : Host) (installation : Installation) (plan : PersistedPlan) (execution : Bool)
    → revalidate host installation plan execution ≡ ok tt
    → IsCurrent host installation plan execution
unfolding revalidate
revalidate-IsCurrent host installation plan execution h =
    let (_, may, h1) = bind-ok h in
    let (_, timely, h2) = bind-ok h1 in
    let (fingerprint, read, h3) = bind-ok h2 in
    let (_, same, h4) = bind-ok h3 in
    let (_, backend_same, h5) = bind-ok h4 in
    let (_, web_same, h6) = bind-ok h5 in
    let (owner, executable) = and-true _ _ (require-true _ _ _ _ may) in
    record {
      installation_id = (==_iff plan.view.installation_id installation.installation_id).0 owner;
      executable = executable;
      in_time = require-true _ _ _ _ timely;
      same_installation =
          read
          ∙ ap ok (
              sym
                ((==_iff plan.installation_fingerprint fingerprint).0 (require-true _ _ _ _ same)));
      same_releases = each backend_same web_same;
      unblocked = no_blockers-nil (blockers host) h6;
    }
  where
    each :
        same_release host plan backend ≡ ok tt
        → same_release host plan web ≡ ok tt
        → (component : Component) → IsUnchanged host plan component
    each b w backend = same_release-IsUnchanged host plan backend b
    each b w web = same_release-IsUnchanged host plan web w
