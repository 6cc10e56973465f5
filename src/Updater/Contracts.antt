-- ===== src/Updater/Contracts.antt =====
-- updater/contracts.ts and updater/errors.ts: the types that the updater's parts share. An instant
-- is its number of milliseconds; the text of a digest, a path or an identifier is a text.
use rustdesk_console.Common.{ℕ, String, Bool, Option, List}

pub data Component : Type 0 where
  backend web : Component

pub data DeploymentKind : Type 0 where
  managed_compose managed_linux : DeploymentKind

pub data DatabaseKind : Type 0 where
  sqlite mysql : DatabaseKind

pub data ArtifactKind : Type 0 where
  oci archive : ArtifactKind

abbrev pub official_repository : Component → String
official_repository backend = "databk/rustdesk-console"
official_repository web = "databk/rustdesk-console-web"

pub record Blocker : Type 0 where
  pub code : String
  pub message : String

pub record Platform : Type 0 where
  pub os : String
  pub arch : String
  pub libc : String

pub record ReleaseArtifact : Type 0 where
  pub kind : ArtifactKind
  pub platform : Platform
  pub name : String
  pub url : String
  pub sha256 : String
  pub size : ℕ

pub record ReleaseManifest : Type 0 where
  pub schema_version : ℕ
  pub repository : String
  pub component : Component
  pub version : String
  pub release_id : ℕ
  pub tag : String
  pub source_commit : String
  pub published_at : String
  pub peer_version_range : String
  pub updater_protocol : ℕ
  pub maintenance_protocol : ℕ
  pub bundle_format : ℕ
  pub artifacts : List ReleaseArtifact

pub record InstalledComponent : Type 0 where
  pub version : String
  pub source_commit : String
  pub artifact : ReleaseArtifact
  pub manifest : ReleaseManifest

-- `Record<Component, A>`.
pub record PerComponent (A : Type 0) : Type 0 where
  pub backend : A
  pub web : A

abbrev pub at : {A : Type 0} → PerComponent A → Component → A
at r Component.backend = r.backend
at r Component.web = r.web

pub data Action : Type 0 where
  update unchanged : Action

pub record ComponentChange : Type 0 where
  pub component : Component
  pub action : Action
  pub current : String
  pub target : String
  pub release_url : String

pub record UpdatePlan : Type 0 where
  pub installation_id : String
  pub plan_id : String
  pub created_at : ℕ
  pub expires_at : ℕ
  pub components : List ComponentChange
  pub changes : Bool
  pub downtime : Bool
  pub database : DatabaseKind
  pub method : String
  pub blockers : List Blocker
  pub executable : Bool

pub record PersistedPlan : Type 0 where
  pub view : UpdatePlan
  pub installation_fingerprint : String
  pub targets : PerComponent InstalledComponent
  pub manifest_digests : PerComponent String

-- The fields that the planner, the worker and the control service read.
pub record Installation : Type 0 where
  pub installation_id : String
  pub deployment : DeploymentKind
  pub platform : Platform
  pub current : PerComponent InstalledComponent
  pub database : DatabaseKind

pub data JobStatus : Type 0 where
  queued running succeeded failed rolled_back recovery_required : JobStatus

pub data JobPhase : Type 0 where
  preparing maintenance backing_up switching verifying updating_helper committing restoring :
      JobPhase

pub record JobView : Type 0 where
  pub installation_id : String
  pub job_id : String
  pub plan_id : String
  pub status : JobStatus
  pub phase : JobPhase
  pub components : List ComponentChange
  pub created_at : ℕ
  pub updated_at : ℕ
  pub finished_at : Option ℕ
  pub result_code : Option String
  pub safe_message : String
  pub recovery_guidance : Option String

pub record BackupSnapshot : Type 0 where
  pub job_id : String
  pub database : DatabaseKind
  pub path : String
  pub created_at : ℕ

pub data Decision : Type 0 where
  commit_decided restore_decided : Decision

-- What is noted before and after an operation.
pub data Mark : Type 0 where
  intent done : Mark

pub record JobRecord : Type 0 where
  pub view : JobView
  -- a text; a value of another kind is never `===` to that of a request, and is left out
  pub idempotency_key : Option String
  pub request_digest : String
  pub actor_id : String
  pub plan : PersistedPlan
  pub original_installation : Installation
  pub snapshot : Option BackupSnapshot
  pub decision : Option Decision
  pub operations : List (String × Mark)

pub record UpdateError : Type 0 where
  pub code : String
  pub message : String
  pub status : ℕ

-- What a call can throw: an `UpdateError`, its subclass `JournalError`, or anything else.
pub data Thrown : Type 0 where
  update_error : UpdateError → Thrown
  journal_error : Thrown
  other_error : Thrown

abbrev pub conflict : String → String → UpdateError
conflict code message = record { code = code; message = message; status = 409 }

abbrev pub journal_unavailable : UpdateError
journal_unavailable = record {
  code = "JOURNAL_UNAVAILABLE";
  message =
      "The durable task journal could not be written. Keep the maintenance fence and recover from the host.";
  status = 503;
}

unfoldable pub safe_error : Thrown → UpdateError
safe_error (update_error e) = e
safe_error journal_error = journal_unavailable
safe_error other_error = record {
  code = "EXECUTION_FAILED";
  message = "The update operation failed. Consult the protected host recovery log.";
  status = 503;
}

abbrev pub to_blocker : UpdateError → Blocker
to_blocker e = record { code = e.code; message = e.message }
