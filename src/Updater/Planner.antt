-- ===== src/Updater/Planner.antt =====
-- updater/planner.ts: what an update would do, and whether a plan may still be carried out. What the
-- planner calls is asked once in each operation, so that the answers are values (`Host`).
pub mod Soundness
pub mod Revalidation
use Prim.Native.Nat.{Ordering}
use Prim.Native.String
use rustdesk_console.Common.{
  ℕ, ◌+◌, ◌*◌, String, Bool, true, false, not, ◌&&◌, ◌||◌, Option, none, some, List, [], ◌∷◌, ◌++◌,
  ◌==◌, string_eq, nat_eq, ltb, length, any,
}
use rustdesk_console.Common.Effects.{Result, ok, err}
use rustdesk_console.Common.Results.{◌>>=◌, ◌>>◌}
use rustdesk_console.Updater.Contracts.{
  Component, backend, web, DeploymentKind, managed_compose, managed_linux, DatabaseKind, sqlite,
  mysql, ArtifactKind, oci, archive, Blocker, ReleaseManifest, ReleaseArtifact, InstalledComponent,
  PerComponent, at, Action, update, unchanged, ComponentChange, UpdatePlan, PersistedPlan,
  Installation, JobRecord, UpdateError, conflict, Thrown, update_error, safe_error, to_blocker,
}
use rustdesk_console.Updater.Version.{compare_versions, satisfies}
use rustdesk_console.Updater.Manifest.{select_artifact}
use rustdesk_console.Updater.Catalog.{Catalog, lifted, require}
use rustdesk_console.Updater.Store.{terminal, current}

-- The adapters' answers, the clock, the next identifier, and the digest of a manifest.
pub record Host : Type 0 where
  pub deployment_preflight : Result Thrown (List Blocker)
  pub backup_preflight : Result Thrown (List Blocker)
  pub fingerprint : Result Thrown String
  pub catalog : Catalog
  pub now : ℕ
  pub random_uuid : String
  pub digest : ReleaseManifest → String
  pub save_plan : Result Thrown (Unit {0})

abbrev pub blocker_of_error : Thrown → Blocker
blocker_of_error e = to_blocker (safe_error e)

abbrev pub both_preflights :
    Result Thrown (List Blocker) → Result Thrown (List Blocker) → List Blocker
both_preflights (ok a) (ok b) = a ++ b
both_preflights (ok a) (err e) = blocker_of_error e ∷ []
both_preflights (err e) b = blocker_of_error e ∷ []

unfoldable pub blockers : Host → List Blocker
blockers host = both_preflights host.deployment_preflight host.backup_preflight

abbrev pub artifact_kind : DeploymentKind → ArtifactKind
artifact_kind managed_compose = oci
artifact_kind managed_linux = archive

abbrev pub installed_from : ReleaseManifest → ReleaseArtifact → InstalledComponent
installed_from m a = record {
  version = m.version;
  source_commit = m.source_commit;
  artifact = a;
  manifest = m;
}

unfoldable pub upgrade :
    Installation
    → InstalledComponent
    → ReleaseManifest
    → Ordering
    → Result Thrown InstalledComponent
upgrade installation installed m Ordering.gt = do
  a ← lifted (select_artifact m installation.platform (artifact_kind installation.deployment))
  ok (installed_from m a)
upgrade installation installed m _ = ok installed

-- The body of the loop over the components.
unfoldable pub find_target : Host → Installation → Component → Result Thrown InstalledComponent
find_target host installation component = do
  m ← host.catalog.latest component
  o ← lifted (compare_versions m.version (at installation.current component).version)
  upgrade installation (at installation.current component) m o

-- A failure leaves the target as it is and adds a blocker.
abbrev pub target_or : InstalledComponent → Result Thrown InstalledComponent → InstalledComponent
target_or installed (ok t) = t
target_or installed (err e) = installed

abbrev pub blocker_of {ℓ} : {A : Type ℓ} → Result Thrown A → List Blocker
blocker_of (ok t) = []
blocker_of (err e) = blocker_of_error e ∷ []

unfoldable pub targets_of : Host → Installation → PerComponent InstalledComponent
targets_of host installation = record {
  backend = target_or installation.current.backend (find_target host installation backend);
  web = target_or installation.current.web (find_target host installation web);
}

-- `a && b` of calls that may throw.
abbrev pub both : Bool → Result Thrown Bool → Result Thrown Bool
both true b = b
both false b = ok false

unfoldable pub are_compatible : PerComponent InstalledComponent → Result Thrown Bool
are_compatible t = do
  first ← lifted (satisfies t.web.version t.backend.manifest.peer_version_range)
  both first (lifted (satisfies t.backend.version t.web.manifest.peer_version_range))

abbrev pub incompatible : Bool → List Blocker
incompatible true = []
incompatible false =
    record {
      code = "INCOMPATIBLE_RELEASES";
      message = "The latest official frontend and backend releases are not mutually compatible.";
    }
    ∷ []

abbrev pub action_of : Bool → Action
action_of true = unchanged
action_of false = update

abbrev pub change_of : Installation → PerComponent InstalledComponent → Component → ComponentChange
change_of installation targets component = record {
  component = component;
  action =
      action_of ((at targets component).version == (at installation.current component).version);
  current = (at installation.current component).version;
  target = (at targets component).version;
  release_url = String.◌++◌ "https://github.com/" (
      String.◌++◌ (at targets component).manifest.repository
        (String.◌++◌ "/releases/tag/" (at targets component).manifest.tag));
}

abbrev pub is_update : ComponentChange → Bool
is_update change = elim change.action [ update ↦ true | unchanged ↦ false ]

abbrev pub method_of : DatabaseKind → String
method_of sqlite = "consistent-sqlite-and-business-files"
method_of mysql = "dedicated-schema-dump-and-business-files"

abbrev pub is_empty {ℓ} : {A : Type ℓ} → List A → Bool
is_empty [] = true
is_empty (x ∷ xs) = false

abbrev pub changes_of : Installation → PerComponent InstalledComponent → List ComponentChange
changes_of installation targets =
    change_of installation targets backend ∷ change_of installation targets web ∷ []

abbrev pub plan_of :
    Host → Installation → PerComponent InstalledComponent → List Blocker → String → PersistedPlan
plan_of host installation targets blocked fingerprint =
    let components = changes_of installation targets in
    let changes = any is_update components in
    record {
      view = record {
        installation_id = installation.installation_id;
        plan_id = host.random_uuid;
        created_at = host.now;
        expires_at = host.now + 15 * 60000;
        components = components;
        changes = changes;
        downtime = changes;
        database = installation.database;
        method = method_of installation.database;
        blockers = blocked;
        executable = changes && is_empty blocked;
      };
      installation_fingerprint = fingerprint;
      targets = targets;
      manifest_digests = record {
        backend = host.digest targets.backend.manifest;
        web = host.digest targets.web.manifest;
      };
    }

abbrev pub all_blockers : Host → Installation → Bool → List Blocker
all_blockers host installation compatible =
    blockers host
    ++ (blocker_of (find_target host installation backend)
        ++ (blocker_of (find_target host installation web) ++ incompatible compatible))

-- The plan that is saved; its view is returned.
unfoldable pub create : Host → Installation → Result Thrown PersistedPlan
create host installation = do
  compatible ← are_compatible (targets_of host installation)
  fingerprint ← host.fingerprint
  let plan =
      plan_of host installation (targets_of host installation)
        (all_blockers host installation compatible) fingerprint
  host.save_plan
  ok plan

unfoldable pub same_release : Host → PersistedPlan → Component → Result Thrown (Unit {0})
same_release host plan component = do
  m ← host.catalog.exact component (at plan.targets component).manifest.release_id
  require (host.digest m == at plan.manifest_digests component) "RELEASE_CHANGED"
      "An official release changed. Preview the update again."

abbrev pub no_blockers : List Blocker → Result Thrown (Unit {0})
no_blockers [] = ok tt
no_blockers (b ∷ bs) = err (update_error (conflict b.code b.message))

unfoldable pub revalidate : Host → Installation → PersistedPlan → Bool → Result Thrown (Unit {0})
revalidate host installation plan execution = do
  require ((plan.view.installation_id == installation.installation_id) && plan.view.executable)
      "PLAN_NOT_EXECUTABLE" "The update plan cannot be executed."
  require (execution || ltb host.now plan.view.expires_at) "PLAN_EXPIRED"
      "The update plan expired. Preview the update again."
  fingerprint ← host.fingerprint
  require (plan.installation_fingerprint == fingerprint) "INSTALLATION_DRIFT"
      "The running installation changed. Preview the update again."
  same_release host plan backend
  same_release host plan web
  no_blockers (blockers host)

pub record Capabilities : Type 0 where
  pub installation_id : String
  pub ready : Bool
  pub deployment : DeploymentKind
  pub database : DatabaseKind
  pub current : PerComponent String
  pub blockers : List Blocker
  pub active_job_id : Option String

-- `current && !terminal(current)`.
abbrev pub active_job : Option JobRecord → Option JobRecord
active_job none = none
active_job (some r) = elim (terminal r) [ true ↦ none | false ↦ some r ]

abbrev pub active_blocker : Option JobRecord → List Blocker
active_blocker none = []
active_blocker (some r) =
    record { code = "JOB_ACTIVE"; message = "An update or recovery is already active." } ∷ []

abbrev pub job_id_of : Option JobRecord → Option String
job_id_of none = none
job_id_of (some r) = some r.view.job_id

unfoldable pub capabilities : Host → Installation → List JobRecord → Result Thrown Capabilities
capabilities host installation jobs = do
  job ← lifted (current jobs)
  let blocked = blockers host ++ active_blocker (active_job job)
  ok (record {
    installation_id = installation.installation_id;
    ready = is_empty blocked;
    deployment = installation.deployment;
    database = installation.database;
    current = record {
      backend = installation.current.backend.version;
      web = installation.current.web.version;
    };
    blockers = blocked;
    active_job_id = job_id_of (active_job job);
  })
