-- ===== src/Updater/Control/Events.antt =====
-- What happens between two requests, and what of the stored tasks it keeps.
use rustdesk_console.Updater.Control.Keys.{has_key_of}
use rustdesk_console.Updater.Control.Acceptance.{from-Triple, demand-Triple}
use rustdesk_console.Common.{
  String, ◌≡◌, refl, sym, ap, ◌∙◌, subst, Bool, true, false, Option, none, some, ◌==◌, List,
  string_eq, find?, any,
}
use rustdesk_console.Common.Effects.{
  err, Triple, Triple-get, Triple-then, Triple-bind, Triple-branch, Triple-pure, Triple-throw,
  Triple-weaken, Triple-catching, After, Result, ok,
}
use rustdesk_console.Updater.Contracts.{JobRecord, Installation}
use rustdesk_console.Updater.Store.{sort_jobs, put_job, read_plan, current}
use rustdesk_console.Updater.Planner.{Host, revalidate}
use rustdesk_console.Updater.Worker.Machine.{Halt, thrown, crashed, Outcome, returns, throws, dies}
use rustdesk_console.Updater.Control.{
  Value, Desk, Visit, Fields, Control, with_job, reconcile, ensure_worker, needs_worker, answer_of,
  update_halt, save_job, start_worker, ignore_throw, accept_new, accept_again, accept_found, accept,
  plan_id_of, key_of,
}

-- What happens between two requests: the service handles others, or looks after the worker, or a
-- worker writes the record of its task, which it does not give another key or digest. A task that is
-- made has an identifier that no stored one has.
pub data Event (digest : Option Value → String) : Desk → Desk → Type 0 where
  serves :
      (visit : Visit) (body : Fields) (actor_id : String) (d : Desk)
      → any (λ x. x.view.job_id == visit.job_id) d.jobs ≡ false
      → Event digest d (accept digest visit body actor_id d).1
  looks_after : (visit : Visit) (d : Desk) → Event digest d (reconcile visit d).1
  worker_writes :
      (r r' : JobRecord) (d : Desk)
      → find? (λ x. x.view.job_id == r'.view.job_id) d.jobs ≡ some r
      → r'.idempotency_key ≡ r.idempotency_key
      → r'.request_digest ≡ r.request_digest
      → Event digest d (with_job r' d)

pub data Later (digest : Option Value → String) : Desk → Desk → Type 0 where
  at_once : (d : Desk) → Later digest d d
  afterwards : (d e f : Desk) → Event digest d e → Later digest e f → Later digest d f

-- A property of the stored tasks that a new task and the writes of workers keep is kept by everything
-- that happens.
module _ (digest : Option Value → String) (Q : List JobRecord → Type 0) where
  abbrev Holds : Desk → Type 0
  Holds d = Q d.jobs

  abbrev Keeps : {A : Type 0} → Control A → Type 0
  Keeps m = Triple Holds m (λ _. Holds) (λ _. Holds)

  start_worker-Keeps : (o : Outcome) (job_id : String) → Keeps (start_worker o job_id)
  unfolding start_worker
  start_worker-Keeps returns job_id = record { holds = λ s p. p }
  start_worker-Keeps (throws e) job_id = record { holds = λ s p. p }
  start_worker-Keeps dies job_id = record { holds = λ s p. p }

  ignore_throw-Keeps : (h : Halt) → Keeps (ignore_throw h)
  ignore_throw-Keeps (thrown e) = Triple-pure tt (λ s p. p)
  ignore_throw-Keeps crashed = Triple-throw crashed (λ s p. p)

  save_job-Keeps :
      (o : Outcome) (persisted : Bool) (r : JobRecord) (d : Desk)
      → Holds d
      → Holds (with_job r d)
      → Triple (λ s. s ≡ d) (save_job o persisted r) (λ _. Holds) (λ _. Holds)
  unfolding save_job
  save_job-Keeps returns persisted r d p q = record {
    holds = λ s e. subst (λ t. Holds (with_job r t)) (sym e) q;
  }
  save_job-Keeps (throws e) true r d p q = record {
    holds = λ s e. subst (λ t. Holds (with_job r t)) (sym e) q;
  }
  save_job-Keeps (throws e) false r d p q = record { holds = λ s e. subst Holds (sym e) p }
  save_job-Keeps dies true r d p q = record {
    holds = λ s e. subst (λ t. Holds (with_job r t)) (sym e) q;
  }
  save_job-Keeps dies false r d p q = record { holds = λ s e. subst Holds (sym e) p }

  -- A new task of a request keeps the property.
  abbrev pub IsKept : Visit → Fields → List JobRecord → Type 0
  IsKept visit other jobs =
      (r : JobRecord)
      → r.view.job_id ≡ visit.job_id
      → r.idempotency_key ≡ key_of other
      → find? (has_key_of other) (sort_jobs jobs) ≡ none
      → Q (put_job r jobs)

  module _ (visit : Visit) (other : Fields) (actor_id : String) (d : Desk) (p : Holds d)
      (kept : IsKept visit other d.jobs) where
    abbrev unchanged : (s : Desk) → s ≡ d → Holds s
    unchanged s e = subst Holds (sym e) p

    accept_new-Keeps :
        (host : Host) (installation : Installation)
        → find? (has_key_of other) (sort_jobs d.jobs) ≡ none
        → Triple
            (λ s. s ≡ d)
            (accept_new digest visit host installation other actor_id)
            (λ _. Holds)
            (λ _. Holds)
    unfolding accept_new
    accept_new-Keeps host installation h = Triple-get _ λ d'.
        Triple-then (demand-Triple (λ s e. unchanged s e.0) _ _ _) (
          Triple-bind
            (from-Triple (λ s e. unchanged s e.0) update_halt
              (read_plan d'.plans (plan_id_of other)))
            λ plan.
              Triple-then
                (from-Triple (λ s e. unchanged s e.0) thrown
                  (revalidate host installation plan false))
                (Triple-then
                  (Triple-weaken
                    (save_job-Keeps visit.save visit.persisted _ d p (kept _ refl refl h))
                    (λ s e. e.0) (λ a s q. q) (λ e s q. q))
                  (Triple-then
                    (Triple-catching (start_worker-Keeps visit.start visit.job_id)
                      ignore_throw-Keeps)
                    (Triple-pure _ (λ s q. q)))))

    accept_found-Keeps :
        (found : Option JobRecord) (host : Host) (installation : Installation)
        → find? (has_key_of other) (sort_jobs d.jobs) ≡ found
        → Triple
            (λ s. s ≡ d)
            (accept_found digest found visit host installation other actor_id)
            (λ _. Holds)
            (λ _. Holds)
    unfolding accept_again
    accept_found-Keeps none host installation h = accept_new-Keeps host installation h
    accept_found-Keeps (some r) host installation h =
        Triple-then (demand-Triple unchanged _ _ _) (Triple-pure _ unchanged)

    accept-Keeps :
        Triple (λ s. s ≡ d) (accept digest visit other actor_id) (λ _. Holds) (λ _. Holds)
    unfolding accept
    accept-Keeps = Triple-bind (from-Triple unchanged thrown visit.planner) λ planner.
        Triple-then (demand-Triple unchanged _ _ _) (
          Triple-get _ λ d'. record {
            holds = λ s e.
                let same : d ≡ d' = sym e.0 ∙ e.1 in
                (accept_found-Keeps (find? (has_key_of other) (sort_jobs d'.jobs)) planner.0
                    planner.1
                    (ap (λ (t : Desk). find? (has_key_of other) (sort_jobs t.jobs)) same)).holds
                  s e.0;
          })

  reconcile-Keeps : (visit : Visit) → Keeps (reconcile visit)
  unfolding reconcile
  reconcile-Keeps visit = Triple-bind (from-Triple (λ s p. p) thrown visit.planner) λ planner.
      Triple-get _ λ d.
        Triple-weaken
          (Triple-bind (from-Triple (λ s p. p) update_halt (current (sort_jobs d.jobs)))
            λ r. ensured (needs_worker r))
          (λ s p. p.0) (λ a s p. p) (λ e s p. p)
    where
      answered : (r : Result Halt Bool) → Keeps (answer_of r)
      answered (ok alive) = Triple-pure alive (λ s p. p)
      answered (err h) = Triple-throw h (λ s p. p)

      ensured : (r : Option JobRecord) → Keeps (ensure_worker visit r)
      ensured none = Triple-pure tt (λ s p. p)
      ensured (some r) = Triple-bind (answered visit.worker_alive) λ alive.
          Triple-branch alive (λ _. Triple-pure tt (λ s p. p))
            (λ _. start_worker-Keeps visit.start r.view.job_id)

  After-Holds :
      {A : Type 0} (r : Result Halt A × Desk) → After (λ _. Holds) (λ _. Holds) r → Holds r.1
  After-Holds (ok a, s) p = p
  After-Holds (err e, s) p = p

  module _
      (serve : (visit : Visit) (other : Fields) (jobs : List JobRecord)
        → any (λ x. x.view.job_id == visit.job_id) jobs ≡ false
        → Q jobs
        → IsKept visit other jobs)
      (write : (r r' : JobRecord) (jobs : List JobRecord)
        → find? (λ x. x.view.job_id == r'.view.job_id) jobs ≡ some r
        → r'.idempotency_key ≡ r.idempotency_key
        → r'.request_digest ≡ r.request_digest
        → Q jobs
        → Q (put_job r' jobs)) where
    event-Holds : (d e : Desk) → Event digest d e → Holds d → Holds e
    event-Holds _ _ (serves visit other actor_id d fresh) p =
        After-Holds _
          ((accept-Keeps visit other actor_id d p (serve visit other d.jobs fresh p)).holds d refl)
    event-Holds _ _ (looks_after visit d) p = After-Holds _ ((reconcile-Keeps visit).holds d p)
    event-Holds _ _ (worker_writes r r' d found key request) p =
        write r r' d.jobs found key request p

    pub Later-Holds : (d e : Desk) → Later digest d e → Holds d → Holds e
    Later-Holds _ _ (at_once d) p = p
    Later-Holds _ _ (afterwards d e f step rest) p = Later-Holds e f rest (event-Holds d e step p)
