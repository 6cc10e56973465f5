-- ===== src/Updater/Tests.antt =====
-- A catalog, an installation and requests on sample data, and the theorems on them.
use Prim.Native.Nat.{Ordering}
use rustdesk_console.Updater.Control.Keys.{has_key_of}
use rustdesk_console.Common.{
  List, find?, ◌==◌, string_eq, if◌then◌else◌, ℕ, String, ◌≡◌, refl, true, false, not, some, [],
  ◌∷◌, all, arith,
}
use rustdesk_console.Common.Chars.{codes, split}
use rustdesk_console.Common.Effects.{
  ok, err, pure, throw, branch, get, catching, ◌>>=◌ as bind_call,
}
use rustdesk_console.Common.Results.{◌>>=◌}
use rustdesk_console.Updater.Contracts.{
  Component, oci, backend, web, managed_compose, sqlite, ReleaseArtifact, ReleaseManifest,
  InstalledComponent, Installation, PersistedPlan, JobRecord, running, conflict,
}
use rustdesk_console.Updater.Version.{
  is_stable_version, number_from, compare_parts, compare_codes, compare_versions, satisfies_term,
  satisfies_all, words, terms, satisfies, is_newer,
}
use rustdesk_console.Updater.Version.Ranges.{meets, satisfies-meets}
use rustdesk_console.Updater.Manifest.{
  OfficialRelease, is_stable_release, assert_artifact, assert_artifacts, check_manifest,
  validate_manifest, select_artifact, image_url, without_v, suits,
}
use rustdesk_console.Updater.Manifest.Trust.{is_official, select_artifact-official}
use rustdesk_console.Updater.Catalog.{
  Downloads, read, stable_from, newest_of, latest, exact, official_catalog, manifest_url,
}
use rustdesk_console.Updater.Catalog.Official.{
  IsGenuine, IsListed, IsDownloaded, genuine-IsOfficial, official_catalog-IsGenuine, latest-newest,
}
use rustdesk_console.Updater.Planner.{
  Host, blockers, upgrade, find_target, targets_of, are_compatible, create, same_release,
  revalidate, plan_of,
}
use rustdesk_console.Updater.Planner.Soundness.{IsSound, create-IsSound}
use rustdesk_console.Updater.Planner.Revalidation.{IsCurrent, revalidate-IsCurrent}
use rustdesk_console.Updater.Store.{is_uuid, sort_jobs, put_job, read_plan}
use rustdesk_console.Updater.Worker.Machine.{returns}
use rustdesk_console.Updater.Control.{
  Desk, Visit, Fields, text, boolean, other, update_halt, with_job, is_request, response, save_job,
  start_worker, accept_new, accept_again, accept, new_record,
}
use rustdesk_console.Updater.Control.Acceptance.{
  HasOneActive, stay, after_step, accepts, Steps-HasOneActive,
}
use rustdesk_console.Updater.Control.Retry.{accept-accept}
use rustdesk_console.Updater.Control.Events.{afterwards, worker_writes, at_once}
use rustdesk_console.Rbac.Authorization.Access.{is_ok}

abbrev sha : String
sha = "00112233445566778899aabbccddeeff00112233445566778899aabbccddeeff"

abbrev commit : String
commit = "0123456789abcdef0123456789abcdef01234567"

abbrev image : Component → ReleaseArtifact
image component = record {
  kind = oci;
  platform = record { os = "linux"; arch = "x64"; libc = "glibc" };
  name = "image";
  url = image_url component sha;
  sha256 = sha;
  size = 1;
}

abbrev repository : Component → String
repository backend = "databk/rustdesk-console"
repository web = "databk/rustdesk-console-web"

abbrev manifest_of : String → String → ℕ → Component → ReleaseManifest
manifest_of version tag id component = record {
  schema_version = 1;
  repository = repository component;
  component = component;
  version = version;
  release_id = id;
  tag = tag;
  source_commit = commit;
  published_at = "2026";
  peer_version_range = ">=1.0.0 <2.0.0";
  updater_protocol = 1;
  maintenance_protocol = 1;
  bundle_format = 1;
  artifacts = image component ∷ [];
}

abbrev release_of : String → ℕ → Component → OfficialRelease
release_of tag id component = record {
  id = id;
  tag_name = tag;
  draft = false;
  prerelease = false;
  published_at = "2026";
  assets =
      record {
        name = "update-manifest.json";
        browser_download_url = manifest_url component tag;
        size = 1;
      }
      ∷ [];
}

abbrev downloads : Downloads
downloads = record {
  releases = λ component page.
      ok (some (release_of "v1.0.0" 1 component ∷ release_of "v1.2.0" 2 component ∷ []));
  release = λ component id. ok (release_of "v1.2.0" 2 component);
  manifest = λ url. ok (
      manifest_of "1.2.0" "v1.2.0" 2
        (if url == manifest_url backend "v1.2.0" then backend else web));
  commit = λ component tag. ok commit;
}

pub opened : Unit {0}
unfolding split is_stable_version number_from compare_parts compare_codes compare_versions
    satisfies_term satisfies_all words terms satisfies is_stable_release assert_artifact
    assert_artifacts check_manifest validate_manifest select_artifact read stable_from newest_of
    latest exact blockers upgrade find_target targets_of are_compatible create same_release
    revalidate ◌>>=◌
opened = tt

-- Numbers are compared, not digits.
older_test : compare_versions "1.2.9" "1.10.1" ≡ ok Ordering.lt
unfolding opened
older_test = refl

satisfies-meets_example :
    satisfies "1.10.0" ">=1.2.0 <2.0.0" ≡ ok (all (meets (codes "1.10.0")) (terms ">=1.2.0 <2.0.0"))
unfolding opened
satisfies-meets_example = satisfies-meets "1.10.0" ">=1.2.0 <2.0.0" refl

select_artifact-official_example :
    (is_official backend "v1.2.0" (image backend) ≡ true)
    × (suits (image backend).platform oci (image backend) ≡ true)
unfolding opened
select_artifact-official_example =
    select_artifact-official (manifest_of "1.2.0" "v1.2.0" 2 backend)
      (manifest_of "1.2.0" "v1.2.0" 2 backend) backend (release_of "v1.2.0" 2 backend) commit
      (image backend).platform oci (image backend) refl refl

abbrev listed_releases : List OfficialRelease
listed_releases = release_of "v1.0.0" 1 backend ∷ release_of "v1.2.0" 2 backend ∷ []

official_catalog-IsGenuine_example : IsGenuine downloads (official_catalog downloads)
official_catalog-IsGenuine_example = official_catalog-IsGenuine downloads

latest-newest_example :
    (release : OfficialRelease) × IsListed release listed_releases
    × IsDownloaded downloads backend release (manifest_of "1.2.0" "v1.2.0" 2 backend)
    × ("1.2.0" ≡ without_v release.tag_name)
    × (all
          (λ (y : OfficialRelease).
            not (is_newer (compare_versions (without_v y.tag_name) "1.2.0")))
          listed_releases
        ≡ true)
unfolding opened
latest-newest_example =
    latest-newest downloads backend (manifest_of "1.2.0" "v1.2.0" 2 backend) listed_releases refl
      refl

abbrev component_of : Component → InstalledComponent
component_of c = record {
  version = "1.0.0";
  source_commit = commit;
  artifact = image c;
  manifest = manifest_of "1.0.0" "v1.0.0" 1 c;
}

abbrev installation : Installation
installation = record {
  installation_id = "i";
  deployment = managed_compose;
  platform = (image backend).platform;
  current = record { backend = component_of backend; web = component_of web };
  database = sqlite;
}

abbrev host : Host
host = record {
  deployment_preflight = ok [];
  backup_preflight = ok [];
  fingerprint = ok "f";
  catalog = official_catalog downloads;
  now = 1000;
  random_uuid = "11111111-1111-4111-8111-111111111111";
  digest = λ m. m.version;
  save_plan = ok tt;
}

abbrev upgraded : Component → InstalledComponent
upgraded c = record {
  version = "1.2.0";
  source_commit = commit;
  artifact = image c;
  manifest = manifest_of "1.2.0" "v1.2.0" 2 c;
}

abbrev plan : PersistedPlan
plan = plan_of host installation (record { backend = upgraded backend; web = upgraded web }) [] "f"

create-IsSound_example : IsSound installation plan
unfolding opened
create-IsSound_example =
    create-IsSound host installation
      (genuine-IsOfficial downloads (official_catalog downloads)
        (official_catalog-IsGenuine downloads))
      plan refl refl

revalidate-IsCurrent_example : IsCurrent host installation plan false
unfolding opened
revalidate-IsCurrent_example = revalidate-IsCurrent host installation plan false refl

abbrev body : Fields
body =
    ("planId", text "11111111-1111-4111-8111-111111111111")
    ∷ ("acknowledgeDowntime", boolean true)
    ∷ ("idempotencyKey", text "22222222-2222-4222-8222-222222222222")
    ∷ []

abbrev visit : Visit
visit = record {
  planner = ok (host, installation);
  now = 2000;
  saved_at = 2001;
  job_id = "33333333-3333-4333-8333-333333333333";
  save = returns;
  persisted = true;
  start = returns;
  worker_alive = ok true;
}

abbrev desk : Desk
desk = record { jobs = []; plans = plan ∷ []; started = [] }

abbrev task : JobRecord
task =
    new_record visit installation "11111111-1111-4111-8111-111111111111"
      (some "22222222-2222-4222-8222-222222222222") "d" "admin" plan

pub control_opened : Unit {0}
unfolding opened is_uuid sort_jobs put_job read_plan is_request response save_job start_worker
    accept_new accept_again accept pure throw branch get catching bind_call
control_opened = tt

abbrev accepted_desk : Desk
accepted_desk = record { jobs = task ∷ []; plans = plan ∷ []; started = task.view.job_id ∷ [] }

-- The worker has started on the task before the request is sent again.
abbrev running_task : JobRecord
running_task = record task { view = record (task.view) { status = running } }

accept-accept_example :
    (again : JobRecord) × (find?
        (has_key_of body)
        (sort_jobs (with_job running_task accepted_desk).jobs)
      ≡ some again)
    × (accept (λ v. "d") visit body "another" (with_job running_task accepted_desk)
        ≡ (ok (response again), with_job running_task accepted_desk))
    × (again.view.job_id ≡ (response task).job_id)
unfolding control_opened
accept-accept_example =
    accept-accept (λ v. "d") visit visit body "22222222-2222-4222-8222-222222222222" "admin"
      "another" desk desk accepted_desk (with_job running_task accepted_desk) (response task)
      (host, installation) refl refl (at_once desk) refl
      (afterwards accepted_desk _ _ (worker_writes task running_task accepted_desk refl refl refl)
        (at_once _))
      refl refl

-- A key in an array is accepted, and the same request is then refused.
abbrev wrapped_body : Fields
wrapped_body =
    ("planId", text "11111111-1111-4111-8111-111111111111")
    ∷ ("acknowledgeDowntime", boolean true)
    ∷ (
      "idempotencyKey",
      other "[\"22222222-2222-4222-8222-222222222222\"]" "22222222-2222-4222-8222-222222222222",
    )
    ∷ []

wrapped_test :
    let first = accept (λ v. "d") visit wrapped_body "admin" desk in
    (is_ok first ≡ true)
    × ((accept (λ v. "d") visit wrapped_body "admin" first.1).0
        ≡ err (update_halt (conflict "JOB_ACTIVE" "Another update or recovery is already active.")))
unfolding control_opened
wrapped_test = (refl, refl)

Steps-HasOneActive_example : HasOneActive (accept (λ v. "d") visit body "admin" desk).1
Steps-HasOneActive_example =
    Steps-HasOneActive (λ v. "d") desk (accept (λ v. "d") visit body "admin" desk).1
      (after_step desk _ _ (accepts visit body "admin" desk) (stay _)) (omega arith)
