-- ===== src/Updater/Worker.antt =====
-- updater/worker.ts: the worker that carries out one accepted task, and `saveJob` of
-- updater/store.ts. What the worker calls (the deployment and backup adapters, the maintenance
-- file, the journal's file) is an environment: it answers every call as it likes, from all the calls
-- so far, by a return, a throw, or the death of the process.
pub mod Machine
pub mod Decided
pub mod Fence
pub mod Ending
pub mod Environments
mod Tests
use Prim.Native.String
use rustdesk_console.Common.{ℕ, String, Bool, true, false, Option, none, some, List, ◌||◌, [], ◌∷◌}
use rustdesk_console.Common.Effects.{
  M, Result, ok, err, pure, throw, catching, get, modify, branch, when, ◌>>=◌, ◌>>◌,
}
use rustdesk_console.Updater.Contracts.{
  JobRecord, JobStatus, running, succeeded, failed, rolled_back, recovery_required, JobPhase,
  maintenance, backing_up, switching, verifying, updating_helper, committing, restoring, Decision,
  commit_decided, restore_decided, Mark, intent, done, BackupSnapshot, UpdateError, conflict,
  Thrown, update_error, journal_error, other_error, safe_error,
}
use rustdesk_console.Updater.Store.{terminal}
use Machine.{
  World, Env, Halt, thrown, crashed, Call, read_job, observe, revalidate, prepare,
  write_maintenance, stop_applications, start_applications, verify, backup, validate_snapshot,
  restore_data, switch_applications, update_helper, commit, restore_deployment, perform, write_job,
  save_job, stamp, on_job, mark_of, set_mark, set_phase, set_status, set_snapshot, set_decision,
  touch, is_some, is_intent, is_done,
}

abbrev pub W : Type 0
W = M World Halt (Unit {0})

-- `if (error instanceof JournalError) throw error;` before a handler. A dead process handles nothing.
unfoldable pub unless_journal : (Thrown → W) → Halt → W
unless_journal handler crashed = throw crashed
unless_journal handler (thrown journal_error) = throw (thrown journal_error)
unless_journal handler (thrown (update_error e)) = handler (update_error e)
unless_journal handler (thrown other_error) = handler other_error

abbrev pub decision_text : Decision → String
decision_text commit_decided = "commit_decided"
decision_text restore_decided = "restore_decided"

abbrev pub is_restore : Option Decision → Bool
is_restore (some restore_decided) = true
is_restore (some commit_decided) = false
is_restore none = false

abbrev pub is_running : JobStatus → Bool
is_running running = true
is_running _ = false

abbrev pub is_recovery_required : JobStatus → Bool
is_recovery_required recovery_required = true
is_recovery_required _ = false

abbrev pub set_running : World → World
set_running = on_job λ r. record r { view = record (r.view) { status = running } }

abbrev pub not_found : Halt
not_found = thrown (
    update_error (record {
      code = "RESOURCE_NOT_FOUND";
      message = "The update resource was not found.";
      status = 404;
    }))

abbrev pub adopt : Option JobRecord → W
adopt none = throw not_found
adopt (some r) = modify λ w. record w { job = r }

module _ (env : Env) where
  unfoldable pub operation : String → W → W
  operation key action = do
    modify (set_mark key intent)
    save_job env
    perform env (observe (String.◌++◌ key ":intent"))
    action
    modify (set_mark key done)
    save_job env
    perform env (observe (String.◌++◌ key ":done"))

  unfoldable pub phase : JobPhase → W
  phase p = do modify (set_phase p); save_job env

  abbrev pub guidance : JobStatus → String → Option String
  guidance recovery_required job_id = some (
      String.◌++◌
        "Keep business services isolated. Use the installed host recovery command with job "
        (String.◌++◌ job_id "; retain the protected updater state and backup."))
  guidance _ job_id = none

  unfoldable pub finish : JobStatus → String → String → W
  finish status code message = do
    stamp env (λ now w. set_status status code message now (guidance status w.job.view.job_id) w)
    save_job env

  -- `saveJob` of a copy of the record, with the decision.
  unfoldable pub save_decided : Decision → W
  save_decided d = do w ← get; write_job env (touch (env.clock w.trace) (set_decision d w)).job

  unfoldable pub decide : Decision → W
  decide d = do
    perform env (observe (String.◌++◌ "before:" (decision_text d)))
    save_decided d
    modify (set_decision d)
    perform env (observe (String.◌++◌ "after:" (decision_text d)))

  unfoldable pub conclude : Bool → W
  conclude true =
      finish rolled_back "RESTORED"
        "The previous applications, database and business files were restored and verified."
  conclude false = finish succeeded "UPDATED" "The system update was verified and committed."

  unfoldable pub reopen : Bool → W
  reopen restored = do
    save_job env
    perform env (verify restored)
    perform env (write_maintenance false true)
    perform env (observe "business_reopened")
    conclude restored

  unfoldable pub repair_later : W
  repair_later =
      finish recovery_required "POST_DECISION_REPAIR_REQUIRED"
        "The durable decision is preserved. Repair service availability without restoring an older database snapshot."

  unfoldable pub complete_decision : W
  complete_decision = do
    w ← get
    catching (reopen (is_restore w.job.decision)) (unless_journal λ _. repair_later)

  -- The snapshot is taken by the call, kept in the record, and then validated.
  unfoldable pub take_backup : W
  take_backup = do
    perform env backup
    w ← get
    let s = env.snapshot w.trace
    modify (set_snapshot s)
    perform env (validate_snapshot s)

  unfoldable pub start_validation : W
  start_validation = do perform env (write_maintenance true true); perform env start_applications

  unfoldable pub restore_snapshot : BackupSnapshot → W
  restore_snapshot s = do perform env (validate_snapshot s); perform env (restore_data s)

  abbrev pub uncertain : Halt
  uncertain = thrown (
      update_error (
        conflict "RESTORE_UNCERTAIN"
          "Interrupted data restoration needs manual verification before retrying."))

  unfoldable pub restore_with : BackupSnapshot → List (String × Mark) → W
  restore_with s operations = do
    operation "restore_deployment" (perform env restore_deployment)
    branch (is_done (mark_of "restore_data" operations)) (pure tt)
        (operation "restore_data" (restore_snapshot s))

  -- Undo the switch, unless the snapshot is missing or a restoration was interrupted.
  unfoldable pub restore_switched : Option BackupSnapshot → List (String × Mark) → W
  restore_switched none operations = throw uncertain
  restore_switched (some s) operations =
      branch (is_intent (mark_of "restore_data" operations)) (throw uncertain)
        (restore_with s operations)

  unfoldable pub fence_again : W
  fence_again = do perform env (write_maintenance true false); perform env stop_applications

  unfoldable pub start_restored : W
  start_restored = do
    perform env (write_maintenance true true)
    perform env start_applications
    perform env (verify true)

  unfoldable pub conclude_recovery : Bool → Thrown → W
  conclude_recovery true cause = do decide restore_decided; complete_decision
  conclude_recovery false cause = do
    perform env (write_maintenance false true)
    finish failed (safe_error cause).code (safe_error cause).message

  unfoldable pub restore_phase : Option BackupSnapshot → List (String × Mark) → W
  restore_phase snapshot operations = do phase restoring; restore_switched snapshot operations

  -- `fenced` and `switched` say which marks the record has, `snapshot` and `operations` are the
  -- record's when the recovery begins.
  unfoldable pub recovery : Bool → Bool → Option BackupSnapshot → List (String × Mark) → Thrown → W
  recovery fenced switched snapshot operations cause = do
    when fenced fence_again
    when switched (restore_phase snapshot operations)
    when fenced start_restored
    conclude_recovery switched cause

  unfoldable pub recover_undecided : JobRecord → Thrown → W
  recover_undecided r cause =
      recovery (is_some (mark_of "fence" r.operations)) (is_some (mark_of "switch" r.operations))
        r.snapshot r.operations cause

  unfoldable pub give_up : W
  give_up =
      finish recovery_required "RECOVERY_REQUIRED"
        "Automatic recovery could not be proved. Business access remains fenced; preserve backups and use host recovery."

  unfoldable pub recover : Thrown → W
  recover cause = do
    w ← get
    branch (is_some w.job.decision) complete_decision
        (catching (recover_undecided w.job cause) (unless_journal λ _. give_up))

  unfoldable pub prepare_and_stop : W
  prepare_and_stop = do
    perform env (revalidate true)
    operation "prepare" (perform env prepare)
    phase maintenance
    operation "fence" (perform env (write_maintenance true false))
    operation "stop" (perform env stop_applications)

  unfoldable pub switch_over : W
  switch_over = do
    phase backing_up
    operation "backup" take_backup
    phase switching
    operation "switch" (perform env switch_applications)
    operation "validation_start" start_validation

  unfoldable pub verify_and_commit : W
  verify_and_commit = do
    phase verifying
    operation "verify" (perform env (verify false))
    phase updating_helper
    operation "helper" (perform env update_helper)
    phase committing
    operation "persist_installation" (perform env commit)
    decide commit_decided
    complete_decision

  unfoldable pub attempt : W
  attempt = do prepare_and_stop; switch_over; verify_and_commit

  unfoldable pub execute : W
  execute = do modify (set_running); save_job env; catching attempt (unless_journal recover)

  abbrev pub interrupted : Thrown
  interrupted =
      update_error
        (conflict "WORKER_INTERRUPTED" "The update was interrupted before its commit decision.")

  -- What is done with the record that was read.
  unfoldable pub resume : JobRecord → W
  resume r = branch (terminal r || is_recovery_required r.view.status) (pure tt) (
      branch (is_some r.decision) complete_decision
        (branch (is_running r.view.status) (recover interrupted) execute))

  -- `store.job(jobId)`: the record in memory is the one on disk.
  unfoldable pub load : W
  load = do perform env read_job; w ← get; adopt w.journal

  unfoldable pub run : W
  run = do load; w ← get; resume w.job

-- Any number of runs, each with an environment of its own that may end it anywhere: by an error or
-- by the death of the process.
unfoldable pub runs : List Env → World → World
runs [] w = w
runs (env ∷ envs) w = runs envs (run env w).1

-- Everything that a run computes with, for the proofs that follow one run from end to end.
pub opened : Unit {0}
unfolding run load resume execute attempt prepare_and_stop switch_over verify_and_commit
    start_validation take_backup operation phase decide save_decided complete_decision reopen
    conclude finish recover recover_undecided recovery fence_again restore_phase restore_switched
    restore_with restore_snapshot start_restored conclude_recovery give_up repair_later
    unless_journal save_job perform write_job stamp catching get modify pure throw branch when ◌>>=◌
    safe_error
opened = tt
