-- ===== src/Updater/Control.antt =====
-- updater/control.ts: the service that accepts tasks, one at a time, and keeps a worker running for
-- the one that is unfinished. Each operation runs alone (`serialized`).
pub mod Acceptance
pub mod Keys
pub mod Events
pub mod Kept
pub mod Retry
use Prim.Native.String
use rustdesk_console.Common.{
  ℕ, String, Bool, true, false, not, ◌&&◌, ◌||◌, Option, none, some, List, [], ◌∷◌, ◌==◌, nat_eq,
  string_eq, ltb, leb, length, all, any, find?, lookup, if◌then◌else◌,
}
use rustdesk_console.Common.Chars.{codes, utf16_length}
use rustdesk_console.Common.Effects.{
  M, catching, Result, ok, err, pure, throw, get, modify, branch, when, ◌>>=◌, ◌>>◌,
}
use rustdesk_console.Updater.Contracts.{
  Installation, PersistedPlan, JobView, JobRecord, queued, recovery_required, preparing,
  UpdateError, conflict, Thrown, update_error, journal_error, other_error,
}
use rustdesk_console.Updater.Store.{
  is_uuid, terminal, sort_jobs, put_job, read_plan, read_task, current,
}
use rustdesk_console.Updater.Planner.{Host, revalidate, create, capabilities, Capabilities}
use rustdesk_console.Updater.Worker.Machine.{Halt, thrown, crashed, Outcome, returns, throws, dies}
use rustdesk_console.Updater.Worker.{is_recovery_required}

-- A value of a JSON object: a text, a boolean, or any other, with its JSON and the text that
-- JavaScript turns it into.
pub data Value : Type 0 where
  text : String → Value
  boolean : Bool → Value
  other : (json coerced : String) → Value

abbrev pub Fields : Type 0
Fields = List (String × Value)

-- The stored tasks and plans, and the tasks that a worker was started for, the last one first.
pub record Desk : Type 0 where
  pub jobs : List JobRecord
  pub plans : List PersistedPlan
  pub started : List String

-- What one operation is answered: the planner that `reload` makes, the clock, the next identifier,
-- and how the write of the journal and the calls of the deployment end.
pub record Visit : Type 0 where
  pub planner : Result Thrown (Host × Installation)
  pub now : ℕ
  pub saved_at : ℕ
  pub job_id : String
  pub save : Outcome
  -- whether a write that failed has reached the disk
  pub persisted : Bool
  pub start : Outcome
  pub worker_alive : Result Halt Bool

abbrev pub Control : Type 0 → Type 0
Control A = M Desk Halt A

abbrev pub from {ℓ} : {A : Type 0} {E : Type ℓ} → (E → Halt) → Result E A → Control A
from f (ok a) = pure a
from f (err e) = throw (f e)

abbrev pub update_halt : UpdateError → Halt
update_halt e = thrown (update_error e)

abbrev pub demand : Bool → String → String → Control (Unit {0})
demand b code message = branch b (pure tt) (throw (update_halt (conflict code message)))

-- `String(body.key)`, which `UUID.test` and the path of a file turn the value into.
abbrev pub coerced : Option Value → String
coerced none = "undefined"
coerced (some (text s)) = s
coerced (some (boolean b)) = if b then "true" else "false"
coerced (some (other json s)) = s

abbrev pub text_of : Option Value → Option String
text_of (some (text s)) = some s
text_of _ = none

abbrev pub is_true : Option Value → Bool
is_true (some (boolean true)) = true
is_true _ = false

abbrev pub has_key : Fields → String → Bool
has_key fields key = any (λ f. f.0 == key) fields

-- The keys of an object differ, so that these three sorted keys are all of them.
abbrev pub has_request_keys : Fields → Bool
has_request_keys body =
    length body == 3
    && (has_key body "acknowledgeDowntime"
        && (has_key body "idempotencyKey" && has_key body "planId"))

abbrev pub is_actor : String → Bool
is_actor actor_id = ltb 0 (utf16_length (codes actor_id)) && leb (utf16_length (codes actor_id)) 100

unfoldable pub is_request : Fields → String → Bool
is_request body actor_id =
    has_request_keys body
    && (is_uuid (coerced (lookup "planId" body))
        && (is_uuid (coerced (lookup "idempotencyKey" body))
            && (is_true (lookup "acknowledgeDowntime" body) && is_actor actor_id)))

abbrev pub plan_value : Fields → Option Value
plan_value body = lookup "planId" body

-- The identifier of the plan, as the text that its file is named by.
abbrev pub plan_id_of : Fields → String
plan_id_of body = coerced (plan_value body)

abbrev pub key_of : Fields → Option String
key_of body = text_of (lookup "idempotencyKey" body)

-- `job.idempotencyKey === body.idempotencyKey`: values that are no texts are objects of their own.
abbrev pub is_same_key : Option String → Option String → Bool
is_same_key (some a) (some b) = a == b
is_same_key _ _ = false

pub record JobResponse : Type 0 where
  pub job_id : String
  pub status_url : String
  pub job : JobView

unfoldable pub response : JobRecord → JobResponse
response r = record {
  job_id = r.view.job_id;
  status_url = String.◌++◌ "/api/system-update/jobs/" r.view.job_id;
  job = r.view;
}

-- `createJob`'s record, as `saveJob` stamps it.
abbrev pub new_record :
    Visit → Installation → String → Option String → String → String → PersistedPlan → JobRecord
new_record visit installation plan_id key digest actor_id plan = record {
  view = record {
    installation_id = installation.installation_id;
    job_id = visit.job_id;
    plan_id = plan_id;
    status = queued;
    phase = preparing;
    components = plan.view.components;
    created_at = visit.now;
    updated_at = visit.saved_at;
    finished_at = none;
    result_code = none;
    safe_message = "The update request is durably accepted.";
    recovery_guidance = none;
  };
  idempotency_key = key;
  request_digest = digest;
  actor_id = actor_id;
  plan = plan;
  original_installation = installation;
  snapshot = none;
  decision = none;
  operations = [];
}

abbrev pub with_job : JobRecord → Desk → Desk
with_job r d = record d { jobs = put_job r d.jobs }

abbrev pub with_job_if : Bool → JobRecord → Desk → Desk
with_job_if true r d = with_job r d
with_job_if false r d = d

unfoldable pub save_job : Outcome → Bool → JobRecord → Control (Unit {0})
save_job returns persisted r d = (ok tt, with_job r d)
save_job (throws e) persisted r d = (err (thrown journal_error), with_job_if persisted r d)
save_job dies persisted r d = (err crashed, with_job_if persisted r d)

-- The supervisor retries a start that fails.
unfoldable pub start_worker : Outcome → String → Control (Unit {0})
start_worker returns id d = (ok tt, record d { started = id ∷ d.started })
start_worker (throws e) id d = (err (thrown e), d)
start_worker dies id d = (err crashed, d)

abbrev pub ignore_throw : Halt → Control (Unit {0})
ignore_throw (thrown e) = pure tt
ignore_throw crashed = throw crashed

-- The digest of `{ planId, acknowledgeDowntime: true }` is a parameter.
module _ (digest : Option Value → String) where
  unfoldable pub accept_new : Visit → Host → Installation → Fields → String → Control JobResponse
  accept_new visit host installation body actor_id = do
    desk ← get
    demand (all terminal (sort_jobs desk.jobs)) "JOB_ACTIVE"
        "Another update or recovery is already active."
    plan ← from update_halt (read_plan desk.plans (plan_id_of body))
    from thrown (revalidate host installation plan false)
    let r =
        new_record visit installation (plan_id_of body) (key_of body) (digest (plan_value body))
          actor_id plan
    save_job visit.save visit.persisted r
    catching (start_worker visit.start visit.job_id) ignore_throw
    pure (response r)

  unfoldable pub accept_again : JobRecord → Fields → Control JobResponse
  accept_again duplicate body = do
    demand (duplicate.request_digest == digest (plan_value body)) "IDEMPOTENCY_CONFLICT"
        "This idempotency key belongs to a different request."
    pure (response duplicate)

  abbrev pub accept_found :
      Option JobRecord → Visit → Host → Installation → Fields → String → Control JobResponse
  accept_found none visit host installation body actor_id =
      accept_new visit host installation body actor_id
  accept_found (some duplicate) visit host installation body actor_id = accept_again duplicate body

  unfoldable pub accept : Visit → Fields → String → Control JobResponse
  accept visit body actor_id = do
    planner ← from thrown visit.planner
    demand (is_request body actor_id) "INVALID_REQUEST" "The update request is invalid."
    desk ← get
    accept_found
        (find? (λ job. is_same_key job.idempotency_key (key_of body)) (sort_jobs desk.jobs)) visit
        planner.0 planner.1 body actor_id

-- `!record || terminal(record) || record.view.status === 'recovery_required'` returns.
abbrev pub needs_worker : Option JobRecord → Option JobRecord
needs_worker none = none
needs_worker (some r) = elim (terminal r || is_recovery_required r.view.status) [
  | true ↦ none
  | false ↦ some r
]

abbrev pub answer_of : Result Halt Bool → Control Bool
answer_of (ok alive) = pure alive
answer_of (err h) = throw h

abbrev pub ensure_worker : Visit → Option JobRecord → Control (Unit {0})
ensure_worker visit none = pure tt
ensure_worker visit (some r) = do
  alive ← answer_of visit.worker_alive
  branch alive (pure tt) (start_worker visit.start r.view.job_id)

unfoldable pub reconcile : Visit → Control (Unit {0})
reconcile visit = do
  planner ← from thrown visit.planner
  desk ← get
  record' ← from update_halt (current (sort_jobs desk.jobs))
  ensure_worker visit (needs_worker record')
