-- ===== src/Updater/Worker/Tests.antt =====
-- A task on sample data, and the worker's theorems on it.
use rustdesk_console.Common.{ℕ, ◌≡◌, refl, true, false, none, some, List, [], ◌∷◌}
use rustdesk_console.Common.Effects.{After}
use rustdesk_console.Updater.Contracts.{
  oci, backend, managed_compose, sqlite, ReleaseArtifact, InstalledComponent, PerComponent,
  PersistedPlan, JobRecord, BackupSnapshot, UpdateError, queued, preparing, running, commit_decided,
  succeeded, rolled_back, failed, conflict, done,
}
use rustdesk_console.Updater.Worker.Machine.{World, Env, Call}
use rustdesk_console.Updater.Worker.{run, runs, opened}
use rustdesk_console.Updater.Worker.Decided.{DecidedOnDisk, runs-DecidedOnDisk}
use rustdesk_console.Updater.Worker.Fence.{Backed, runs-Backed}
use rustdesk_console.Updater.Worker.Ending.{SettledOnDisk, Threw, run_settles}
use rustdesk_console.Updater.Worker.Environments.{
  calm, failing, accepted, is_switch, is_prepare, adapter_calls,
}

abbrev artifact : ReleaseArtifact
artifact = record {
  kind = oci;
  platform = record { os = "linux"; arch = "x64"; libc = "glibc" };
  name = "backend";
  url = "ghcr.io/databk/rustdesk-console@sha256:00";
  sha256 = "00";
  size = 1;
}

abbrev installed : InstalledComponent
installed = record {
  version = "1.0.0";
  source_commit = "aa";
  artifact = artifact;
  manifest = record {
    schema_version = 1;
    repository = "databk/rustdesk-console";
    component = backend;
    version = "1.0.0";
    release_id = 1;
    tag = "v1.0.0";
    source_commit = "aa";
    published_at = "2026";
    peer_version_range = ">=1.0.0";
    updater_protocol = 1;
    maintenance_protocol = 1;
    bundle_format = 1;
    artifacts = artifact ∷ [];
  };
}

abbrev components : PerComponent InstalledComponent
components = record { backend = installed; web = installed }

abbrev plan : PersistedPlan
plan = record {
  view = record {
    installation_id = "i";
    plan_id = "p";
    created_at = 1;
    expires_at = 2;
    components = [];
    changes = true;
    downtime = true;
    database = sqlite;
    method = "consistent-sqlite-and-business-files";
    blockers = [];
    executable = true;
  };
  installation_fingerprint = "f";
  targets = components;
  manifest_digests = record { backend = "d"; web = "d" };
}

abbrev task : JobRecord
task = record {
  view = record {
    installation_id = "i";
    job_id = "j";
    plan_id = "p";
    status = queued;
    phase = preparing;
    components = [];
    created_at = 1;
    updated_at = 1;
    finished_at = none;
    result_code = none;
    safe_message = "The update request is durably accepted.";
    recovery_guidance = none;
  };
  idempotency_key = some "k";
  request_digest = "r";
  actor_id = "a";
  plan = plan;
  original_installation = record {
    installation_id = "i";
    deployment = managed_compose;
    platform = artifact.platform;
    current = components;
    database = sqlite;
  };
  snapshot = none;
  decision = none;
  operations = [];
}

abbrev snapshot : BackupSnapshot
snapshot = record { job_id = "j"; database = sqlite; path = "/b"; created_at = 5 }

abbrev broken : UpdateError
broken = conflict "SWITCH_FAILED" "The switch failed."

abbrev counting : ℕ → ℕ
counting n = n

-- A task that was decided, and whose worker was started again.
abbrev decided_task : JobRecord
decided_task = record task {
  view = record (task.view) { status = running };
  decision = some commit_decided;
  operations = ("switch", done) ∷ [];
}

abbrev decided : World
decided = record { job = task; journal = some decided_task; trace = [] }

abbrev environments : List Env
environments = failing is_switch broken counting snapshot ∷ calm counting snapshot ∷ []

runs-DecidedOnDisk_example : DecidedOnDisk commit_decided (runs environments decided)
runs-DecidedOnDisk_example = runs-DecidedOnDisk commit_decided environments decided (refl, refl)

runs-Backed_example : Backed (runs environments (accepted task))
runs-Backed_example = runs-Backed environments (accepted task) refl

run_settles_example :
    After (λ _. SettledOnDisk) (Threw decided) (run (calm counting snapshot) decided)
run_settles_example = run_settles (calm counting snapshot) decided

-- The calls of runs in which nothing, the switch, or the preparation fails.
update_test :
    let w = (run (calm counting snapshot) (accepted task)).1 in
    (w.journal ≡ some w.job)
    × (w.job.view.status ≡ succeeded)
    × (adapter_calls w
        ≡ Call.read_job
          ∷ Call.revalidate true
          ∷ Call.prepare
          ∷ Call.write_maintenance true false
          ∷ Call.stop_applications
          ∷ Call.backup
          ∷ Call.validate_snapshot snapshot
          ∷ Call.switch_applications
          ∷ Call.write_maintenance true true
          ∷ Call.start_applications
          ∷ Call.verify false
          ∷ Call.update_helper
          ∷ Call.commit
          ∷ Call.verify false
          ∷ Call.write_maintenance false true
          ∷ [])
unfolding opened
update_test = (refl, refl, refl)

failing_switch_test :
    let w = (run (failing is_switch broken counting snapshot) (accepted task)).1 in
    (w.journal ≡ some w.job)
    × (w.job.view.status ≡ rolled_back)
    × (adapter_calls w
        ≡ Call.read_job
          ∷ Call.revalidate true
          ∷ Call.prepare
          ∷ Call.write_maintenance true false
          ∷ Call.stop_applications
          ∷ Call.backup
          ∷ Call.validate_snapshot snapshot
          ∷ Call.switch_applications
          ∷ Call.write_maintenance true false
          ∷ Call.stop_applications
          ∷ Call.restore_deployment
          ∷ Call.validate_snapshot snapshot
          ∷ Call.restore_data snapshot
          ∷ Call.write_maintenance true true
          ∷ Call.start_applications
          ∷ Call.verify true
          ∷ Call.verify true
          ∷ Call.write_maintenance false true
          ∷ [])
unfolding opened
failing_switch_test = (refl, refl, refl)

failing_preparation_test :
    let w = (run (failing is_prepare broken counting snapshot) (accepted task)).1 in
    (w.journal ≡ some w.job)
    × (w.job.view.status ≡ failed)
    × (adapter_calls w
        ≡ Call.read_job
          ∷ Call.revalidate true
          ∷ Call.prepare
          ∷ Call.write_maintenance false true
          ∷ [])
unfolding opened
failing_preparation_test = (refl, refl, refl)
