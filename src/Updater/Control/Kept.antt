-- ===== src/Updater/Control/Kept.antt =====
-- The tasks that were made for one key stay one, whatever happens.
use rustdesk_console.Updater.Control.Events.{Later, Later-Holds}
use rustdesk_console.Updater.Control.Keys.{
  any-sort_jobs, all-put_job, any-put_job_new, any-put_job_same, all-found, same_key_eq, has_key_of,
  is_task_of,
}
use rustdesk_console.Common.{
  String, ◌≡◌, refl, sym, ap, ◌∙◌, subst, inl, inr, true, false, Option, none, some, ◌==◌, List, [],
  ◌∷◌, string_eq, ==_refl, ==_iff, find?, find?-some, any, all, find?-none, arith, Bool-cases,
}
use rustdesk_console.Updater.Contracts.{JobRecord}
use rustdesk_console.Updater.Store.{sort_jobs, put_job}
use rustdesk_console.Updater.Control.{Value, Desk, Fields, is_same_key, key_of}

module _ (body : Fields) where
  -- All tasks with the key of the request are one.
  pub record IsSingle (jobs : List JobRecord) : Type 0 where
    pub id : String
    pub request_digest : String
    pub only : all (is_task_of body id request_digest) jobs ≡ true

  -- The one task with the key of the request, which is stored.
  pub record IsTaken (id request_digest : String) (jobs : List JobRecord) : Type 0 where
    pub made : any (has_key_of body) jobs ≡ true
    pub only : all (is_task_of body id request_digest) jobs ≡ true

  -- When no task has the key, all are other tasks.
  pub unmade-all :
      (id request_digest : String) (xs : List JobRecord)
      → any (has_key_of body) xs ≡ false
      → all (is_task_of body id request_digest) xs ≡ true
  unmade-all id request_digest [] h = refl
  unmade-all id request_digest (x ∷ xs) h = ground (arith, unmade-all id request_digest xs)

  -- The key of a request for which no task was made is not that of a task.
  unmade-other :
      (other : Fields) (r : JobRecord) (jobs : List JobRecord)
      → r.idempotency_key ≡ key_of other
      → any (has_key_of body) jobs ≡ true
      → find? (has_key_of other) (sort_jobs jobs) ≡ none
      → has_key_of body r ≡ false
  unmade-other other r jobs named made h =
      ap (λ k. is_same_key k (key_of body)) named
      ∙ elim (Bool-cases (is_same_key (key_of other) (key_of body))) [
        | inl same ↦
            let key = same_key_eq (key_of other) (key_of body) same in
            let unmade : any (has_key_of other) jobs ≡ false =
              sym (any-sort_jobs (has_key_of other) jobs)
              ∙ find?-none (has_key_of other) (sort_jobs jobs) h in
            let unmade' =
              subst (λ k. any (λ (job : JobRecord). is_same_key job.idempotency_key k) jobs ≡ false)
                key unmade in
            ground (arith, unmade', made)
        | inr different ↦ different
      ]

  -- A worker writes its task.
  written-only :
      (id request_digest : String) (r r' : JobRecord) (jobs : List JobRecord)
      → find? (λ x. x.view.job_id == r'.view.job_id) jobs ≡ some r
      → r'.idempotency_key ≡ r.idempotency_key
      → r'.request_digest ≡ r.request_digest
      → all (is_task_of body id request_digest) jobs ≡ true
      → all (is_task_of body id request_digest) (put_job r' jobs) ≡ true
  written-only id request_digest r r' jobs found key request only =
      let same_id = (==_iff r.view.job_id r'.view.job_id).0 (find?-some _ jobs r found) in
      let same_key : has_key_of body r' ≡ has_key_of body r =
        ap (λ k. is_same_key k (key_of body)) key in
      let same_task : is_task_of body id request_digest r' ≡ is_task_of body id request_digest r =
        rw (same_key, request, same_id) refl in
      all-put_job _ r' jobs (same_task ∙ all-found _ _ r jobs found only) only

  module _ (digest : Option Value → String) where
    pub Later-IsTaken :
        (id request_digest : String) (d e : Desk)
        → Later digest d e
        → IsTaken id request_digest d.jobs
        → IsTaken id request_digest e.jobs
    Later-IsTaken id request_digest =
        Later-Holds digest (IsTaken id request_digest)
          (λ visit other jobs fresh p r same_id named unmade.
            let different = unmade-other other r jobs named p.made unmade in
            let new = subst (λ i. any (λ x. x.view.job_id == i) jobs ≡ false) (sym same_id) fresh in
            record {
              made = ground (arith, any-put_job_new (has_key_of body) r jobs new, p.made);
              only = all-put_job _ r jobs (ground (arith, different)) p.only;
            })
          (λ r r' jobs found key request p. record {
            made =
                any-put_job_same (has_key_of body) r r' jobs found
                  (ap (λ k. is_same_key k (key_of body)) key)
                ∙ p.made;
            only = written-only id request_digest r r' jobs found key request p.only;
          })

    pub Later-IsSingle : (d e : Desk) → Later digest d e → IsSingle d.jobs → IsSingle e.jobs
    Later-IsSingle =
        Later-Holds digest IsSingle
          (λ visit other jobs fresh p r same_id named unmade.
            elim (Bool-cases (any (has_key_of body) jobs)) [
              | inl made ↦
                  let different = unmade-other other r jobs named made unmade in
                  record {
                    id = p.id;
                    request_digest = p.request_digest;
                    only = all-put_job _ r jobs (ground (arith, different)) p.only;
                  }
              | inr none_made ↦ record {
                id = r.view.job_id;
                request_digest = r.request_digest;
                only =
                    all-put_job _ r jobs
                      (ground (arith, ==_refl r.view.job_id, ==_refl r.request_digest))
                      (unmade-all r.view.job_id r.request_digest jobs none_made);
              }
            ])
          (λ r r' jobs found key request p. record {
            id = p.id;
            request_digest = p.request_digest;
            only = written-only p.id p.request_digest r r' jobs found key request p.only;
          })
