-- ===== src/Updater/Worker/Environments.antt =====
-- Environments for the tests of the worker, and the calls of a run besides the journal.
use mathlib.Core.List.{reverse}
use rustdesk_console.Common.{
  ℕ, Bool, true, false, none, some, List, [], ◌∷◌, map, filter, length, if◌then◌else◌,
}
use rustdesk_console.Updater.Contracts.{
  JobRecord, update_error, UpdateError, queued, BackupSnapshot,
}
use rustdesk_console.Updater.Worker.Machine.{World, Env, Call, returns, throws, Outcome, Event}

-- What is called besides the journal and the observer.
abbrev pub is_adapter : Call → Bool
is_adapter (Call.save r) = false
is_adapter (Call.observe key) = false
is_adapter _ = true

abbrev pub adapter_calls : World → List Call
adapter_calls w = filter is_adapter (reverse (map (λ e. e.call) w.trace))

-- An environment in which nothing fails.
abbrev pub calm : (ℕ → ℕ) → BackupSnapshot → Env
calm clock s = record {
  outcome = λ _. returns;
  persisted = λ _. true;
  clock = λ events. clock (length events);
  snapshot = λ _. s;
}

abbrev pub accepted : JobRecord → World
accepted r = record { job = queued_job r; journal = some (queued_job r); trace = [] }
  where
    queued_job : JobRecord → JobRecord
    queued_job r = record r {
      view = record (r.view) { status = queued };
      decision = none;
      operations = [];
    }

-- An environment in which only some calls throw, and always.
abbrev pub is_switch : Call → Bool
is_switch Call.switch_applications = true
is_switch _ = false

abbrev pub is_prepare : Call → Bool
is_prepare Call.prepare = true
is_prepare _ = false

abbrev pub answer_to : (Call → Bool) → UpdateError → List Event → Outcome
answer_to bad e [] = returns
answer_to bad e (ev ∷ evs) = if bad ev.call then throws (update_error e) else returns

abbrev pub failing : (Call → Bool) → UpdateError → (ℕ → ℕ) → BackupSnapshot → Env
failing bad e clock s = record {
  outcome = answer_to bad e;
  persisted = λ _. true;
  clock = λ events. clock (length events);
  snapshot = λ _. s;
}
