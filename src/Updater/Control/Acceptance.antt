-- ===== src/Updater/Control/Acceptance.antt =====
-- At most one task is unfinished, over any interleaving of the service and of the workers.
use rustdesk_console.Common.{
  ℕ, ◌+◌, ◌≤◌, String, ◌≡◌, refl, sym, ap, ◌∙◌, Bool, true, false, not, Option, none, some, List,
  [], ◌∷◌, ◌==◌, string_eq, nat_eq, filter, find?, length, all, arith,
}
use rustdesk_console.Common.Effects.{
  Result, ok, err, Triple, Triple-bind, Triple-then, Triple-get, Triple-branch, Triple-pure,
  Triple-throw, Triple-weaken, Triple-catching, After,
}
use rustdesk_console.Updater.Contracts.{JobRecord, Installation}
use rustdesk_console.Updater.Store.{terminal, sort_jobs, insert_job, put_job, read_plan, current}
use rustdesk_console.Updater.Planner.{Host, revalidate}
use rustdesk_console.Updater.Worker.Machine.{Halt, thrown, crashed, Outcome, returns, throws, dies}
use rustdesk_console.Updater.Control.{
  Value, Desk, Visit, Fields, Control, from, demand, update_halt, with_job, save_job, start_worker,
  ignore_throw, accept_new, accept_again, accept_found, accept, reconcile, ensure_worker,
  needs_worker, answer_of, plan_id_of,
}

abbrev is_unfinished : JobRecord → Bool
is_unfinished r = not (terminal r)

abbrev pub unfinished : List JobRecord → ℕ
unfinished jobs = length (filter is_unfinished jobs)

unfinished-put_job :
    (r : JobRecord) (xs : List JobRecord) → unfinished (put_job r xs) ≤ unfinished xs + 1
unfolding put_job
unfinished-put_job r [] = ground arith
unfinished-put_job r (x ∷ xs) = ground (arith, unfinished-put_job r xs)

unfinished_none : (xs : List JobRecord) → all terminal xs ≡ true → unfinished xs ≡ 0
unfinished_none [] h = refl
unfinished_none (x ∷ xs) h = ground (arith, unfinished_none xs)

unfinished-insert_job :
    (r : JobRecord) (xs : List JobRecord) → unfinished (insert_job r xs) ≡ unfinished (r ∷ xs)
unfinished-insert_job r [] = refl
unfinished-insert_job r (x ∷ xs) = ground (arith, unfinished-insert_job r xs)

unfinished-sort_jobs : (xs : List JobRecord) → unfinished (sort_jobs xs) ≡ unfinished xs
unfolding sort_jobs
unfinished-sort_jobs [] = refl
unfinished-sort_jobs (x ∷ xs) =
    ground (arith, unfinished-insert_job x (sort_jobs xs), unfinished-sort_jobs xs)

-- A worker replaces the record of the unfinished task that it carries out.
unfinished-replaced :
    (r r' : JobRecord) (xs : List JobRecord)
    → find? (λ x. x.view.job_id == r'.view.job_id) xs ≡ some r
    → terminal r ≡ false
    → unfinished (put_job r' xs) ≤ unfinished xs
unfolding put_job
unfinished-replaced r r' [] h k = cc
unfinished-replaced r r' (x ∷ xs) h k = ground (arith, unfinished-replaced r r' xs)

abbrev pub HasOneActive : Desk → Type 0
HasOneActive d = unfinished d.jobs ≤ 1

abbrev HasNoneActive : Desk → Type 0
HasNoneActive d = unfinished d.jobs ≡ 0

abbrev Keeps : (Desk → Type 0) → {A : Type 0} → Control A → Type 0
Keeps P m = Triple P m (λ _. P) (λ _. P)

-- Reading and testing keep what holds; an error leaves what follows from it.
module _ {P R : Desk → Type 0} (weaker : (d : Desk) → P d → R d) where
  pub from-Triple :
      {A E : Type 0} (f : E → Halt) (r : Result E A) → Triple P (from f r) (λ _. P) (λ _. R)
  from-Triple f (ok a) = Triple-pure a (λ s p. p)
  from-Triple f (err e) = Triple-throw (f e) weaker

  pub demand-Triple :
      (b : Bool) (code message : String) → Triple P (demand b code message) (λ _. P) (λ _. R)
  demand-Triple b code message =
      Triple-branch b (λ _. Triple-pure tt (λ s p. p)) (λ _. Triple-throw _ weaker)

at_most_one : (d : Desk) → HasNoneActive d → HasOneActive d
at_most_one d h = omega (arith, h)

start_worker-Keeps : (o : Outcome) (id : String) → Keeps HasOneActive (start_worker o id)
unfolding start_worker
start_worker-Keeps returns id = record { holds = λ s p. p }
start_worker-Keeps (throws e) id = record { holds = λ s p. p }
start_worker-Keeps dies id = record { holds = λ s p. p }

ignore_throw-Keeps : (h : Halt) → Keeps HasOneActive (ignore_throw h)
ignore_throw-Keeps (thrown e) = Triple-pure tt (λ s p. p)
ignore_throw-Keeps crashed = Triple-throw crashed (λ s p. p)

one_more : (r : JobRecord) (d : Desk) → HasNoneActive d → HasOneActive (with_job r d)
one_more r d h = ground (arith, unfinished-put_job r d.jobs)

save_job-HasOneActive :
    (o : Outcome) (persisted : Bool) (r : JobRecord)
    → Triple HasNoneActive (save_job o persisted r) (λ _. HasOneActive) (λ _. HasOneActive)
unfolding save_job
save_job-HasOneActive returns persisted r = record { holds = λ s p. one_more r s p }
save_job-HasOneActive (throws e) true r = record { holds = λ s p. one_more r s p }
save_job-HasOneActive (throws e) false r = record { holds = at_most_one }
save_job-HasOneActive dies true r = record { holds = λ s p. one_more r s p }
save_job-HasOneActive dies false r = record { holds = at_most_one }

none_active_after : (d s : Desk) → s ≡ d → all terminal (sort_jobs d.jobs) ≡ true → HasNoneActive s
none_active_after d s same h =
    ap (λ (t : Desk). unfinished t.jobs) same
    ∙ sym (unfinished-sort_jobs d.jobs)
    ∙ unfinished_none (sort_jobs d.jobs) h

module _ (digest : Option Value → String) (visit : Visit) where
  accept_new-Keeps :
      (host : Host) (installation : Installation) (body : Fields) (actor_id : String)
      → Keeps HasOneActive (accept_new digest visit host installation body actor_id)
  unfolding accept_new
  accept_new-Keeps host installation body actor_id = Triple-get _ λ d.
      Triple-then
        (Triple-branch (all terminal (sort_jobs d.jobs))
          (λ h. Triple-pure tt (λ s p. none_active_after d s p.1 h))
          (λ h. Triple-throw _ (λ s p. p.0)))
        (Triple-bind (from-Triple at_most_one update_halt (read_plan d.plans (plan_id_of body)))
          λ plan.
            Triple-then (from-Triple at_most_one thrown (revalidate host installation plan false)) (
              Triple-then (save_job-HasOneActive visit.save visit.persisted _) (
                Triple-then
                  (Triple-catching (start_worker-Keeps visit.start visit.job_id) ignore_throw-Keeps)
                  (Triple-pure _ (λ s p. p)))))

  accept_found-Keeps :
      (found : Option JobRecord) (host : Host) (installation : Installation) (body : Fields)
      (actor_id : String)
      → Keeps HasOneActive (accept_found digest found visit host installation body actor_id)
  unfolding accept_again
  accept_found-Keeps none host installation body actor_id =
      accept_new-Keeps host installation body actor_id
  accept_found-Keeps (some r) host installation body actor_id =
      Triple-then (demand-Triple (λ s p. p) _ _ _) (Triple-pure _ (λ s p. p))

  accept-Keeps :
      (body : Fields) (actor_id : String) → Keeps HasOneActive (accept digest visit body actor_id)
  unfolding accept
  accept-Keeps body actor_id = Triple-bind (from-Triple (λ s p. p) thrown visit.planner) λ planner.
      Triple-then (demand-Triple (λ s p. p) _ _ _) (
        Triple-get _ λ d.
          Triple-weaken (accept_found-Keeps _ planner.0 planner.1 body actor_id) (λ s p. p.0)
            (λ a s p. p) (λ e s p. p))

  reconcile-Keeps : Keeps HasOneActive (reconcile visit)
  unfolding reconcile
  reconcile-Keeps = Triple-bind (from-Triple (λ s p. p) thrown visit.planner) λ planner.
      Triple-get _ λ d.
        Triple-weaken
          (Triple-bind (from-Triple (λ s p. p) update_halt (current (sort_jobs d.jobs)))
            λ r. ensured (needs_worker r))
          (λ s p. p.0) (λ a s p. p) (λ e s p. p)
    where
      answered : (r : Result Halt Bool) → Keeps HasOneActive (answer_of r)
      answered (ok alive) = Triple-pure alive (λ s p. p)
      answered (err h) = Triple-throw h (λ s p. p)

      ensured : (r : Option JobRecord) → Keeps HasOneActive (ensure_worker visit r)
      ensured none = Triple-pure tt (λ s p. p)
      ensured (some r) = Triple-bind (answered visit.worker_alive) λ alive.
          Triple-branch alive (λ _. Triple-pure tt (λ s p. p))
            (λ _. start_worker-Keeps visit.start r.view.job_id)

-- One step of the updater: the service handles a request, or looks after the worker, or a worker writes
-- the record of the unfinished task that it carries out.
pub data Step (digest : Option Value → String) : Desk → Desk → Type 0 where
  accepts :
      (visit : Visit) (body : Fields) (actor_id : String) (d : Desk)
      → Step digest d (accept digest visit body actor_id d).1
  reconciles : (visit : Visit) (d : Desk) → Step digest d (reconcile visit d).1
  works :
      (r r' : JobRecord) (d : Desk)
      → find? (λ x. x.view.job_id == r'.view.job_id) d.jobs ≡ some r
      → terminal r ≡ false
      → Step digest d (with_job r' d)

pub data Steps (digest : Option Value → String) : Desk → Desk → Type 0 where
  stay : (d : Desk) → Steps digest d d
  after_step : (d e f : Desk) → Step digest d e → Steps digest e f → Steps digest d f

After-same :
    {A : Type 0} (r : Result Halt A × Desk)
    → After (λ _. HasOneActive) (λ _. HasOneActive) r
    → HasOneActive r.1
After-same (ok a, s) p = p
After-same (err e, s) p = p

Step-HasOneActive :
    (digest : Option Value → String) (d e : Desk)
    → Step digest d e
    → HasOneActive d
    → HasOneActive e
Step-HasOneActive digest _ _ (accepts visit body actor_id d) p =
    After-same (accept digest visit body actor_id d)
      ((accept-Keeps digest visit body actor_id).holds d p)
Step-HasOneActive digest _ _ (reconciles visit d) p =
    After-same (reconcile visit d) ((reconcile-Keeps digest visit).holds d p)
Step-HasOneActive digest _ _ (works r r' d found active) p =
    omega (arith, unfinished-replaced r r' d.jobs found active, p)

-- If at most one task is unfinished, the same holds after any sequence of steps, in which the service
-- handles requests and looks after the worker, and workers write the records of unfinished tasks,
-- whatever fails in each step.
pub Steps-HasOneActive :
    (digest : Option Value → String) (d e : Desk)
    → Steps digest d e
    → HasOneActive d
    → HasOneActive e
Steps-HasOneActive digest _ _ (stay d) p = p
Steps-HasOneActive digest _ _ (after_step d e f step rest) p =
    Steps-HasOneActive digest e f rest (Step-HasOneActive digest d e step p)
