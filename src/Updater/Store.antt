-- ===== src/Updater/Store.antt =====
-- updater/store.ts: the durable plans and tasks. The directory of tasks is the list of its records,
-- and a task's file is found by the task's identifier.
use rustdesk_console.Common.{
  ℕ, String, Bool, true, false, not, ◌&&◌, ◌||◌, List, [], ◌∷◌, Option, none, some, if◌then◌else◌,
  filter, find?, length, leb, all, any, ◌==◌, nat_eq, string_eq,
}
use rustdesk_console.Common.Chars.{codes, between, is_digit, split}
use rustdesk_console.Common.Effects.{Result, ok, err}
use rustdesk_console.Updater.Contracts.{
  JobStatus, succeeded, failed, rolled_back, JobRecord, PersistedPlan, UpdateError, conflict,
}

-- `/[a-f0-9]/i`.
abbrev is_hex_digit : ℕ → Bool
is_hex_digit c = is_digit c || (between 97 102 c || between 65 70 c)

abbrev is_hex_block : ℕ → List ℕ → Bool
is_hex_block n cs = length cs == n && all is_hex_digit cs

abbrev starts_with_one_of : List ℕ → List ℕ → Bool
starts_with_one_of firsts [] = false
starts_with_one_of firsts (c ∷ cs) = any (λ x. x == c) firsts

abbrev are_uuid_blocks : List (List ℕ) → Bool
are_uuid_blocks (a ∷ (b ∷ (c ∷ (d ∷ (e ∷ []))))) =
    is_hex_block 8 a
    && (is_hex_block 4 b
        && ((is_hex_block 4 c && starts_with_one_of (52 ∷ []) c)
            && ((is_hex_block 4 d && starts_with_one_of (56 ∷ 57 ∷ 97 ∷ 98 ∷ 65 ∷ 66 ∷ []) d)
                && is_hex_block 12 e)))
are_uuid_blocks _ = false

-- `UUID.test(id)`: five blocks with dashes between them.
unfoldable pub is_uuid : String → Bool
is_uuid id = are_uuid_blocks (split 45 (codes id))

abbrev pub is_terminal_status : JobStatus → Bool
is_terminal_status succeeded = true
is_terminal_status failed = true
is_terminal_status rolled_back = true
is_terminal_status _ = false

abbrev pub terminal : JobRecord → Bool
terminal r = is_terminal_status r.view.status

-- `jobs()`: the newest first, those of one instant as the directory has them.
abbrev pub insert_job : JobRecord → List JobRecord → List JobRecord
insert_job r [] = r ∷ []
insert_job r (x ∷ xs) =
    if leb x.view.created_at r.view.created_at then r ∷ (x ∷ xs) else x ∷ insert_job r xs

unfoldable pub sort_jobs : List JobRecord → List JobRecord
sort_jobs [] = []
sort_jobs (r ∷ rs) = insert_job r (sort_jobs rs)

-- The file of a task is written anew.
unfoldable pub put_job : JobRecord → List JobRecord → List JobRecord
put_job r [] = r ∷ []
put_job r (x ∷ xs) = if x.view.job_id == r.view.job_id then r ∷ xs else x ∷ put_job r xs

abbrev pub resource_not_found : UpdateError
resource_not_found = record {
  code = "RESOURCE_NOT_FOUND";
  message = "The update resource was not found.";
  status = 404;
}

abbrev invalid_id : UpdateError
invalid_id = conflict "INVALID_ID" "The update resource identifier is invalid."

abbrev pub or_not_found {ℓ} : {A : Type ℓ} → Option A → Result UpdateError A
or_not_found none = err resource_not_found
or_not_found (some a) = ok a

unfoldable pub read_plan : List PersistedPlan → String → Result UpdateError PersistedPlan
read_plan plans id =
    if is_uuid id then or_not_found (find? (λ p. p.view.plan_id == id) plans) else err invalid_id

unfoldable pub read_task : List JobRecord → String → Result UpdateError JobRecord
read_task jobs id =
    if is_uuid id then or_not_found (find? (λ r. r.view.job_id == id) jobs) else err invalid_id

abbrev pub first_of_jobs : List JobRecord → Option JobRecord
first_of_jobs [] = none
first_of_jobs (r ∷ rs) = some r

abbrev pub or_else : Option JobRecord → Option JobRecord → Option JobRecord
or_else none b = b
or_else (some a) b = some a

-- `jobs` is what `jobs()` returns, the newest first.
unfoldable pub current : List JobRecord → Result UpdateError (Option JobRecord)
current jobs =
    let active = filter (λ job. not (terminal job)) jobs in
    if leb (length active) 1
    then ok (or_else (first_of_jobs active) (first_of_jobs jobs))
    else err (conflict "OWNERSHIP_UNCERTAIN" "Multiple unfinished jobs require host recovery.")
