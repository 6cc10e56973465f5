-- ===== src/Updater/Control/Retry.antt =====
-- A request that is sent again, at any time, is answered by the task that it made the first time.
use rustdesk_console.Updater.Control.Keys.{
  any-sort_jobs, all-sort_jobs, all-put_job, any-put_job_hit, all-found, any-found, same_key_refl,
  task_parts, has_key_of, is_task_of,
}
use rustdesk_console.Updater.Control.Events.{Later}
use rustdesk_console.Updater.Control.Kept.{
  IsTaken, IsSingle, unmade-all, Later-IsTaken, Later-IsSingle,
}
use rustdesk_console.Updater.Control.Acceptance.{from-Triple, demand-Triple}
use rustdesk_console.Common.{
  String, ◌≡◌, refl, sym, ap, ◌∙◌, subst, inl, inr, Bool, true, false, Option, none, some, List, [],
  ◌==◌, string_eq, ==_refl, ==_iff, find?, find?-some, any, all, find?-none, arith, Option-cases,
}
use rustdesk_console.Common.Effects.{
  Triple, Triple-get, Triple-then, Triple-bind, Triple-branch, Triple-pure, Triple-throw,
  Triple-weaken, Triple-catching, After, Result, ok, pure, throw, branch, ◌>>=◌, get,
}
use rustdesk_console.Updater.Contracts.{JobRecord, Installation, PersistedPlan}
use rustdesk_console.Updater.Store.{sort_jobs, put_job, read_plan}
use rustdesk_console.Updater.Planner.{Host, revalidate}
use rustdesk_console.Updater.Worker.Machine.{Halt, thrown, crashed, Outcome, returns, throws, dies}
use rustdesk_console.Updater.Control.{
  Value, Desk, Visit, Fields, is_same_key, plan_value, save_job, start_worker, ignore_throw,
  accept_new, accept_again, accept_found, accept, plan_id_of, key_of, new_record, is_request,
  JobResponse, response,
}

abbrev Anywhere : Desk → Type 0
Anywhere d = Unit {0}

-- The first request.
module _ (digest : Option Value → String) (body : Fields) (key : String)
    (keyed : key_of body ≡ some key) where
  abbrev Taken : JobResponse → Desk → Type 0
  Taken answer s = IsTaken body answer.job_id (digest (plan_value body)) s.jobs

  own_key : is_same_key (key_of body) (key_of body) ≡ true
  own_key = same_key_refl key (key_of body) keyed

  save_job-puts :
      (o : Outcome) (persisted : Bool) (r : JobRecord) (d : Desk)
      → Triple
          (λ s. s ≡ d)
          (save_job o persisted r)
          (λ _ s. s.jobs ≡ put_job r d.jobs)
          (λ _. Anywhere)
  unfolding save_job
  save_job-puts returns persisted r d = record {
    holds = λ s p. ap (λ (t : Desk). put_job r t.jobs) p;
  }
  save_job-puts (throws e) persisted r d = record { holds = λ s p. tt }
  save_job-puts dies persisted r d = record { holds = λ s p. tt }

  start_worker-keeps_jobs :
      (o : Outcome) (id : String) (jobs : List JobRecord)
      → Triple
          (λ s. s.jobs ≡ jobs)
          (start_worker o id)
          (λ _ s. s.jobs ≡ jobs)
          (λ _ s. s.jobs ≡ jobs)
  unfolding start_worker
  start_worker-keeps_jobs returns id jobs = record { holds = λ s p. p }
  start_worker-keeps_jobs (throws e) id jobs = record { holds = λ s p. p }
  start_worker-keeps_jobs dies id jobs = record { holds = λ s p. p }

  ignore_throw-keeps_jobs :
      (jobs : List JobRecord) (h : Halt)
      → Triple (λ s. s.jobs ≡ jobs) (ignore_throw h) (λ _ s. s.jobs ≡ jobs) (λ _. Anywhere)
  ignore_throw-keeps_jobs jobs (thrown e) = Triple-pure tt (λ s p. p)
  ignore_throw-keeps_jobs jobs crashed = Triple-throw crashed (λ s p. tt)

  module _ (visit : Visit) where
    accept_new-Taken :
        (host : Host) (installation : Installation) (actor_id : String) (d : Desk)
        → find? (has_key_of body) (sort_jobs d.jobs) ≡ none
        → Triple
            (λ s. s ≡ d)
            (accept_new digest visit host installation body actor_id)
            Taken
            (λ _. Anywhere)
    unfolding accept_new response
    accept_new-Taken host installation actor_id d h = Triple-get _ λ d'.
        Triple-then (demand-Triple (λ s p. tt) _ _ _) (
          Triple-bind (from-Triple (λ s p. tt) _ (read_plan d'.plans (plan_id_of body))) λ plan.
            Triple-then (from-Triple (λ s p. tt) thrown (revalidate host installation plan false)) (
              Triple-then
                (Triple-weaken (save_job-puts visit.save visit.persisted _ d) (λ s p. p.0)
                  (λ a s p. p) (λ e s p. p))
                (Triple-then
                  (Triple-catching (start_worker-keeps_jobs visit.start visit.job_id _)
                    (ignore_throw-keeps_jobs _))
                  (Triple-pure _ (λ s p. stored s plan p)))))
      where
        stored :
            (s : Desk) (plan : PersistedPlan)
            → s.jobs
              ≡ put_job
                  (new_record visit installation
                    (plan_id_of body)
                    (key_of body)
                    (digest (plan_value body))
                    actor_id
                    plan)
                  d.jobs
            → IsTaken body visit.job_id (digest (plan_value body)) s.jobs
        stored s plan p =
            let unmade : any (has_key_of body) d.jobs ≡ false =
              sym (any-sort_jobs (has_key_of body) d.jobs)
              ∙ find?-none (has_key_of body) (sort_jobs d.jobs) h in
            record {
              made = ap (any (has_key_of body)) p ∙ any-put_job_hit _ _ d.jobs own_key;
              only =
                  ap (all (is_task_of body visit.job_id (digest (plan_value body)))) p
                  ∙ all-put_job _ _ d.jobs
                      (ground (arith, ==_refl visit.job_id, ==_refl (digest (plan_value body))))
                      (unmade-all body visit.job_id (digest (plan_value body)) d.jobs unmade);
            }

    found-Taken :
        (r : JobRecord) (d : Desk)
        → IsSingle body d.jobs
        → find? (has_key_of body) (sort_jobs d.jobs) ≡ some r
        → (r.request_digest == digest (plan_value body)) ≡ true
        → IsTaken body r.view.job_id (digest (plan_value body)) d.jobs
    found-Taken r d single found request =
        let hit = find?-some (has_key_of body) (sort_jobs d.jobs) r found in
        let task =
          all-found (is_task_of body single.id single.request_digest) (has_key_of body) r
            (sort_jobs d.jobs) found
            (all-sort_jobs (is_task_of body single.id single.request_digest) d.jobs
              ∙ single.only) in
        let (ident, made_for) = task_parts body single.id single.request_digest r task hit in
        let same_id : single.id ≡ r.view.job_id = sym ((==_iff r.view.job_id single.id).0 ident) in
        let same_digest : single.request_digest ≡ digest (plan_value body) =
          sym ((==_iff r.request_digest single.request_digest).0 made_for)
          ∙ (==_iff r.request_digest (digest (plan_value body))).0 request in
        record {
          made =
              sym (any-sort_jobs (has_key_of body) d.jobs)
              ∙ any-found (has_key_of body) r (sort_jobs d.jobs) found;
          only =
              subst (λ x. all (is_task_of body x (digest (plan_value body))) d.jobs ≡ true) same_id
                (subst (λ x. all (is_task_of body single.id x) d.jobs ≡ true) same_digest
                  single.only);
        }

    accept_found-Taken :
        (o : Option JobRecord) (host : Host) (installation : Installation) (actor_id : String)
        (d : Desk)
        → IsSingle body d.jobs
        → find? (has_key_of body) (sort_jobs d.jobs) ≡ o
        → Triple
            (λ s. s ≡ d)
            (accept_found digest o visit host installation body actor_id)
            Taken
            (λ _. Anywhere)
    unfolding accept_again response
    accept_found-Taken none host installation actor_id d single h =
        accept_new-Taken host installation actor_id d h
    accept_found-Taken (some r) host installation actor_id d single h =
        Triple-then
          (Triple-branch (r.request_digest == digest (plan_value body))
            (λ k.
              Triple-pure
                {Q = λ _ s. (s ≡ d) × ((r.request_digest == digest (plan_value body)) ≡ true)} tt
                (λ s p. (p, k)))
            (λ k. Triple-throw _ (λ s p. tt)))
          (Triple-pure _ λ s p.
            subst (λ (t : Desk). IsTaken body r.view.job_id (digest (plan_value body)) t.jobs)
              (sym p.0) (found-Taken r d single h p.1))

    accept-Taken :
        (actor_id : String)
        → Triple
            (λ s. IsSingle body s.jobs)
            (accept digest visit body actor_id)
            Taken
            (λ _. Anywhere)
    unfolding accept
    accept-Taken actor_id = Triple-bind (from-Triple (λ s p. tt) thrown visit.planner) λ planner.
        Triple-then (demand-Triple (λ s p. tt) _ _ _) (
          Triple-get _ λ d. record {
            holds = λ s p.
                (accept_found-Taken _ planner.0 planner.1 actor_id d
                    (subst (λ (t : Desk). IsSingle body t.jobs) p.1 p.0) refl).holds
                  s p.1;
          })

    -- A valid request whose task is stored is answered by it, and changes nothing.
    found-accept :
        (actor_id : String) (planner : Host × Installation) (d : Desk) (r : JobRecord)
        → visit.planner ≡ ok planner
        → is_request body actor_id ≡ true
        → find? (has_key_of body) (sort_jobs d.jobs) ≡ some r
        → (r.request_digest == digest (plan_value body)) ≡ true
        → accept digest visit body actor_id d ≡ (ok (response r), d)
    unfolding accept accept_again pure throw get branch ◌>>=◌
    found-accept actor_id planner d r e h found same = rw (e, h, found, same) refl

    taken-accept :
        (actor_id id : String) (planner : Host × Installation) (d : Desk)
        → visit.planner ≡ ok planner
        → is_request body actor_id ≡ true
        → IsTaken body id (digest (plan_value body)) d.jobs
        → (task : JobRecord) × (find? (has_key_of body) (sort_jobs d.jobs) ≡ some task)
          × (accept digest visit body actor_id d ≡ (ok (response task), d))
          × (task.view.job_id ≡ id)
    taken-accept actor_id id planner d e h p =
        elim (Option-cases (find? (has_key_of body) (sort_jobs d.jobs))) [
          | inl nothing ↦
              let unmade = find?-none (has_key_of body) (sort_jobs d.jobs) nothing in
              ground (arith, unmade, any-sort_jobs (has_key_of body) d.jobs, p.made)
          | inr (r, found) ↦
              let hit = find?-some (has_key_of body) (sort_jobs d.jobs) r found in
              let task =
                all-found (is_task_of body id (digest (plan_value body))) (has_key_of body) r
                  (sort_jobs d.jobs) found
                  (all-sort_jobs (is_task_of body id (digest (plan_value body))) d.jobs ∙ p.only) in
              let (ident, same) = task_parts body id (digest (plan_value body)) r task hit in
              (
                r,
                found,
                found-accept actor_id planner d r e h found same,
                (==_iff r.view.job_id id).0 ident,
              )
        ]

After-ok :
    {A : Type 0} (Q : A → Desk → Type 0) (r : Result Halt A × Desk) (a : A) (d : Desk)
    → After Q (λ _. Anywhere) r
    → r ≡ (ok a, d)
    → Q a d
After-ok Q r a d p h = subst (After Q (λ _. Anywhere)) h p

-- From a service without tasks, anything happens: requests are handled, the supervisor visits, and
-- workers write their tasks. Then a request with a text as its key is answered. It is sent again at
-- any later time, after anything else has happened, while the planner can be loaded and by an actor
-- that a request may have: it is answered with the task that answered it before, as that is stored
-- now, and the second request changes nothing. Other requests make tasks with new identifiers, and
-- workers keep the key and the digest of their task.
pub accept-accept :
    (digest : Option Value → String) (first second : Visit) (body : Fields) (key : String)
    (actor_id again_id : String) (start d d' e : Desk) (answer : JobResponse)
    (planner : Host × Installation)
    → key_of body ≡ some key
    → start.jobs ≡ []
    → Later digest start d
    → accept digest first body actor_id d ≡ (ok answer, d')
    → Later digest d' e
    → second.planner ≡ ok planner
    → is_request body again_id ≡ true
    → (task : JobRecord) × (find? (has_key_of body) (sort_jobs e.jobs) ≡ some task)
      × (accept digest second body again_id e ≡ (ok (response task), e))
      × (task.view.job_id ≡ answer.job_id)
accept-accept digest first second body key actor_id again_id start d d' e answer planner keyed empty
      before h later f k =
    let nothing : IsSingle body start.jobs =
      subst (IsSingle body) (sym empty) (record { id = ""; request_digest = ""; only = refl }) in
    let single = Later-IsSingle body digest start d before nothing in
    taken-accept digest body key keyed second again_id answer.job_id planner e f k (
      Later-IsTaken body digest answer.job_id (digest (plan_value body)) d' e later (
        After-ok (Taken digest body key keyed) (accept digest first body actor_id d) answer d'
          ((accept-Taken digest body key keyed first actor_id).holds d single) h))
