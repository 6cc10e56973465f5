-- ===== src/Updater/Worker/Machine.antt =====
-- The worker's record in memory, the journal on disk, and the calls that leave the process.
pub mod Rules
use rustdesk_console.Common.{
  ℕ, String, Bool, true, false, Option, none, some, List, [], ◌∷◌, if◌then◌else◌, ◌==◌, string_eq,
}
use rustdesk_console.Common.Effects.{M, Result, ok, err, get, ◌>>=◌, ◌>>◌}
use rustdesk_console.Updater.Contracts.{
  JobRecord, JobStatus, JobPhase, Decision, Mark, intent, done, BackupSnapshot, Thrown,
  journal_error,
}

pub data Call : Type 0 where
  read_job : Call
  save : JobRecord → Call
  observe : String → Call
  revalidate : Bool → Call
  -- (active, allowStart)
  write_maintenance : Bool → Bool → Call
  -- whether the restored applications are expected
  verify : Bool → Call
  validate_snapshot restore_data : BackupSnapshot → Call
  prepare stop_applications start_applications backup switch_applications update_helper commit
        restore_deployment :
      Call

-- A call, with what the journal holds when it is made.
pub record Event : Type 0 where
  pub call : Call
  pub journal : Option JobRecord

pub record World : Type 0 where
  pub job : JobRecord
  pub journal : Option JobRecord
  pub trace : List Event

pub data Outcome : Type 0 where
  returns : Outcome
  throws : Thrown → Outcome
  dies : Outcome

-- Each answer depends on the calls so far, the newest first and the one to answer among them.
pub record Env : Type 0 where
  pub outcome : List Event → Outcome
  -- whether a write of the journal that failed has reached the disk
  pub persisted : List Event → Bool
  pub clock : List Event → ℕ
  pub snapshot : List Event → BackupSnapshot

pub data Halt : Type 0 where
  thrown : Thrown → Halt
  crashed : Halt

abbrev pub logged : Call → World → World
logged c w = record w { trace = record { call = c; journal = w.journal } ∷ w.trace }

abbrev pub answer : Outcome → World → Result Halt (Unit {0}) × World
answer returns w = (ok tt, w)
answer (throws e) w = (err (thrown e), w)
answer dies w = (err crashed, w)

unfoldable pub perform : Env → Call → M World Halt (Unit {0})
perform env c w = answer (env.outcome (logged c w).trace) (logged c w)

abbrev pub saved : JobRecord → World → World
saved r w = record w { journal = some r }

abbrev pub if_persisted : Bool → JobRecord → World → World
if_persisted true r w = saved r w
if_persisted false r w = w

-- The write of the journal: its failure is a `JournalError`, and leaves the old record or the new.
abbrev pub answer_save : Outcome → Bool → JobRecord → World → Result Halt (Unit {0}) × World
answer_save returns kept r w = (ok tt, saved r w)
answer_save (throws e) kept r w = (err (thrown journal_error), if_persisted kept r w)
answer_save dies kept r w = (err crashed, if_persisted kept r w)

unfoldable pub write_job : Env → JobRecord → M World Halt (Unit {0})
write_job env r w =
    let w' = logged (save r) w in answer_save (env.outcome w'.trace) (env.persisted w'.trace) r w'

-- `record.operations[key]`, and its assignment.
abbrev pub mark_of : String → List (String × Mark) → Option Mark
mark_of key [] = none
mark_of key ((k, m) ∷ ops) = if k == key then some m else mark_of key ops

abbrev pub put_mark : String → Mark → List (String × Mark) → List (String × Mark)
put_mark key mark [] = (key, mark) ∷ []
put_mark key mark ((k, m) ∷ ops) =
    if k == key then (k, mark) ∷ ops else (k, m) ∷ put_mark key mark ops

abbrev pub on_job : (JobRecord → JobRecord) → World → World
on_job f w = record w { job = f w.job }

abbrev pub set_mark : String → Mark → World → World
set_mark key mark = on_job λ r. record r { operations = put_mark key mark r.operations }

abbrev pub set_snapshot : BackupSnapshot → World → World
set_snapshot s = on_job λ r. record r { snapshot = some s }

abbrev pub set_decision : Decision → World → World
set_decision d = on_job λ r. record r { decision = some d }

abbrev pub touch : ℕ → World → World
touch now = on_job λ r. record r { view = record (r.view) { updated_at = now } }

abbrev pub set_phase : JobPhase → World → World
set_phase p = on_job λ r. record r { view = record (r.view) { phase = p } }

abbrev pub set_status : JobStatus → String → String → ℕ → Option String → World → World
set_status status code message now guidance = on_job λ r. record r {
  view = record (r.view) {
    status = status;
    result_code = some code;
    safe_message = message;
    finished_at = some now;
    recovery_guidance = guidance;
  };
}

abbrev pub is_some {ℓ} : {A : Type ℓ} → Option A → Bool
is_some none = false
is_some (some a) = true

abbrev pub is_intent : Option Mark → Bool
is_intent (some intent) = true
is_intent (some done) = false
is_intent none = false

abbrev pub is_done : Option Mark → Bool
is_done (some done) = true
is_done (some intent) = false
is_done none = false

-- An assignment that reads the clock.
unfoldable pub stamp : Env → (ℕ → World → World) → M World Halt (Unit {0})
stamp env f w = (ok tt, f (env.clock w.trace) w)

-- `saveJob` of updater/store.ts, of the record in memory.
unfoldable pub write_current : Env → M World Halt (Unit {0})
write_current env = do w ← get; write_job env w.job

unfoldable pub save_job : Env → M World Halt (Unit {0})
unfolding write_current
save_job env = do stamp env touch; write_current env
