-- ===== src/Updater/Control/Keys.antt =====
-- The tasks that were made for a request, by the key of the request, in the list of stored tasks.
use rustdesk_console.Common.{
  String, ◌≡◌, refl, ap, inl, inr, Bool, true, false, not, ◌&&◌, ◌||◌, Option, none, some, List, [],
  ◌∷◌, ◌==◌, string_eq, ==_refl, ==_iff, find?, any, all, arith, Bool-cases,
}
use rustdesk_console.Updater.Contracts.{JobRecord}
use rustdesk_console.Updater.Store.{sort_jobs, insert_job, put_job}
use rustdesk_console.Updater.Control.{Fields, is_same_key, key_of}

module _ (p : JobRecord → Bool) where
  pub any-insert_job :
      (r : JobRecord) (xs : List JobRecord) → any p (insert_job r xs) ≡ any p (r ∷ xs)
  any-insert_job r [] = refl
  any-insert_job r (x ∷ xs) = ground (arith, any-insert_job r xs)

  pub any-sort_jobs : (xs : List JobRecord) → any p (sort_jobs xs) ≡ any p xs
  unfolding sort_jobs
  any-sort_jobs [] = refl
  any-sort_jobs (x ∷ xs) = ground (arith, any-insert_job x (sort_jobs xs), any-sort_jobs xs)

  all-insert_job : (r : JobRecord) (xs : List JobRecord) → all p (insert_job r xs) ≡ all p (r ∷ xs)
  all-insert_job r [] = refl
  all-insert_job r (x ∷ xs) = ground (arith, all-insert_job r xs)

  pub all-sort_jobs : (xs : List JobRecord) → all p (sort_jobs xs) ≡ all p xs
  unfolding sort_jobs
  all-sort_jobs [] = refl
  all-sort_jobs (x ∷ xs) = ground (arith, all-insert_job x (sort_jobs xs), all-sort_jobs xs)

  pub all-put_job :
      (r : JobRecord) (xs : List JobRecord)
      → p r ≡ true
      → all p xs ≡ true
      → all p (put_job r xs) ≡ true
  unfolding put_job
  all-put_job r [] h k = ground arith
  all-put_job r (x ∷ xs) h k = ground (arith, all-put_job r xs)

  -- A task with an identifier of its own is added, and others stay.
  pub any-put_job_new :
      (r : JobRecord) (xs : List JobRecord)
      → any (λ x. x.view.job_id == r.view.job_id) xs ≡ false
      → any p (put_job r xs) ≡ (p r || any p xs)
  unfolding put_job
  any-put_job_new r [] h = ground arith
  any-put_job_new r (x ∷ xs) h = ground (arith, any-put_job_new r xs)

  pub any-put_job_hit :
      (r : JobRecord) (xs : List JobRecord) → p r ≡ true → any p (put_job r xs) ≡ true
  unfolding put_job
  any-put_job_hit r [] h = ground arith
  any-put_job_hit r (x ∷ xs) h = ground (arith, any-put_job_hit r xs)

  -- A task is replaced by one of the same kind.
  pub any-put_job_same :
      (r r' : JobRecord) (xs : List JobRecord)
      → find? (λ x. x.view.job_id == r'.view.job_id) xs ≡ some r
      → p r' ≡ p r
      → any p (put_job r' xs) ≡ any p xs
  unfolding put_job
  any-put_job_same r r' [] h k = cc
  any-put_job_same r r' (x ∷ xs) h k = elim (Bool-cases (x.view.job_id == r'.view.job_id)) [
    | inl hit ↦ let same : x ≡ r = ground arith in ground (arith, ap p same)
    | inr miss ↦ ground (arith, any-put_job_same r r' xs)
  ]

  pub all-found :
      (q : JobRecord → Bool) (r : JobRecord) (xs : List JobRecord)
      → find? q xs ≡ some r
      → all p xs ≡ true
      → p r ≡ true
  all-found q r [] h k = cc
  all-found q r (x ∷ xs) h k = elim (Bool-cases (q x)) [
    | inl hit ↦ let same : x ≡ r = ground arith in ground (arith, ap p same)
    | inr miss ↦ all-found q r xs (ground arith) (ground arith)
  ]

pub any-found :
    (q : JobRecord → Bool) (r : JobRecord) (xs : List JobRecord)
    → find? q xs ≡ some r
    → any q xs ≡ true
any-found q r [] h = cc
any-found q r (x ∷ xs) h = ground (arith, any-found q r xs)

pub same_key_eq : (a b : Option String) → is_same_key a b ≡ true → a ≡ b
same_key_eq none none h = cc
same_key_eq none (some y) h = cc
same_key_eq (some x) none h = cc
same_key_eq (some x) (some y) h = ap some ((==_iff x y).0 h)

pub same_key_refl : (key : String) (o : Option String) → o ≡ some key → is_same_key o o ≡ true
same_key_refl key none e = cc
same_key_refl key (some x) e = ==_refl x

-- The task was made for the request's key.
abbrev pub has_key_of : Fields → JobRecord → Bool
has_key_of body job = is_same_key job.idempotency_key (key_of body)

-- Unless it has another key, the task is the one with the identifier, and was made for a request with
-- the digest.
abbrev pub is_task_of : Fields → String → String → JobRecord → Bool
is_task_of body id digest job =
    not (has_key_of body job) || ((job.view.job_id == id) && (job.request_digest == digest))

pub task_parts :
    (body : Fields) (id request_digest : String) (r : JobRecord)
    → is_task_of body id request_digest r ≡ true
    → has_key_of body r ≡ true
    → ((r.view.job_id == id) ≡ true) × ((r.request_digest == request_digest) ≡ true)
task_parts body id request_digest r t h = (ground arith, ground arith)
