-- ===== src/Updater/Worker/Fence.antt =====
-- When the worker lifts the maintenance fence, so that business is let in again.
pub mod Steps
pub use Steps.*
use rustdesk_console.Common.{
  ℕ, String, ◌≡◌, refl, ap, sym, ◌∙◌, Bool, true, false, not, ◌||◌, Option, none, some, List, [],
  ◌∷◌, all, arith,
}
use mathlib.Core.Bool.{false≢true}
use rustdesk_console.Common.Effects.{
  modify, ◌>>◌, Result, ok, err, Triple, After, Triple-then, Triple-modify, Triple-get,
  Triple-catching, Triple-weaken, Triple-throw, Triple-pure, Triple-branch, Triple-when,
}
use rustdesk_console.Updater.Contracts.{
  JobRecord, JobStatus, JobPhase, Decision, Thrown, update_error, journal_error, other_error, Mark,
  BackupSnapshot, restore_decided, commit_decided,
}
use rustdesk_console.Updater.Worker.Machine.{
  World, Env, Event, Halt, thrown, crashed, Call, perform, observe, verify, write_maintenance,
  backup, read_job, is_some, save_job, mark_of, touch, set_phase, set_decision, logged,
}
use rustdesk_console.Updater.Worker.Machine.Rules.{
  perform-Triple, save_job-Triple, stamp-Triple, write_job-Triple,
}
use rustdesk_console.Updater.Worker.Decided.{decision_of}
use rustdesk_console.Updater.Worker.{
  W, finish, reopen, complete_decision, unless_journal, resume, load, run, adopt, is_restore,
  conclude, repair_later, give_up, operation, phase, decide, save_decided, take_backup,
  start_validation, restore_snapshot, restore_with, restore_switched, fence_again, start_restored,
  conclude_recovery, restore_phase, recovery, recover, prepare_and_stop, switch_over,
  verify_and_commit, attempt, execute, recover_undecided, runs,
}

module _ (env : Env) where
  abbrev DecidedAs : Decision → World → Type 0
  DecidedAs d w = Agrees w.journal (set_decision d w).job

  save_decided-Backed :
      (d : Decision)
      → Triple (Kept Anything) (save_decided env d) (λ _ w. Backed w × DecidedAs d w) Failed
  unfolding save_decided
  save_decided-Backed d = Triple-get _ λ w.
      write_job-Triple env _
        (λ s p. (p.0.0, (refl, ap (λ (t : World). t.job.operations) (sym p.1))))
        (λ s k p. ground arith) λ s k p. ground arith

  decide-IsDecided :
      (d : Decision)
      → Triple (Kept Anything) (decide env d) (λ _ w. Backed w × IsDecided w.job) Failed
  unfolding decide
  decide-IsDecided d = Triple-then (call-Step env (observe _) refl) (
      Triple-then {Q = λ w. Backed w × DecidedAs d w} (save_decided-Backed d) (
        Triple-then {Q = λ w. Kept IsDecided w} (Triple-modify _ λ w p. (p.0, p.1, refl)) (
          Triple-weaken (perform-Kept env IsDecided (observe _) refl) (λ s p. p)
            (λ a s p. (p.0, p.2)) λ e s p. p)))

  conclude_recovery-switched :
      (cause : Thrown)
      → Triple (Kept Anything) (conclude_recovery env true cause) (λ _. Backed) Failed
  unfolding conclude_recovery
  conclude_recovery-switched cause =
      Triple-then (decide-IsDecided restore_decided) (complete_decision-Backed env)

  conclude_recovery-untouched :
      (ops : List (String × Mark)) (cause : Thrown)
      → is_some (mark_of "switch" ops) ≡ false
      → Triple (Kept (HasOperations ops)) (conclude_recovery env false cause) (λ _. Backed) Failed
  unfolding conclude_recovery
  conclude_recovery-untouched ops cause h =
      Triple-then
        (lift-Kept env (HasOperations ops)
          λ r e. ground (arith, ap (λ o. is_some (mark_of "switch" o)) e))
        (finish-Backed-Kept env (HasOperations ops) _ _ _)

  fence_again-Kept :
      (Φ : JobRecord → Type 0) → Triple (Kept Φ) (fence_again env) (λ _. Kept Φ) Failed
  unfolding fence_again
  fence_again-Kept Φ = Triple-then (perform-Kept env Φ _ refl) (perform-Kept env Φ _ refl)

  start_restored-Kept :
      (Φ : JobRecord → Type 0) → Triple (Kept Φ) (start_restored env) (λ _. Kept Φ) Failed
  unfolding start_restored
  start_restored-Kept Φ =
      Triple-then (perform-Kept env Φ _ refl)
        (Triple-then (perform-Kept env Φ _ refl) (perform-Kept env Φ _ refl))

  restore_snapshot-Step : (s : BackupSnapshot) → Step env (restore_snapshot env s)
  unfolding restore_snapshot
  restore_snapshot-Step s = Triple-then (call-Step env _ refl) (call-Step env _ refl)

  restore_with-Step :
      (s : BackupSnapshot) (ops : List (String × Mark)) → Step env (restore_with env s ops)
  unfolding restore_with
  restore_with-Step s ops = Triple-then (operation-Step env _ _ (call-Step env _ refl)) (
      Triple-branch _ (λ _. Triple-pure tt λ w p. p)
        λ _. operation-Step env _ _ (restore_snapshot-Step s))

  restore_switched-Step :
      (s : Option BackupSnapshot) (ops : List (String × Mark))
      → Step env (restore_switched env s ops)
  unfolding restore_switched
  restore_switched-Step none ops = Triple-throw _ λ w p. p
  restore_switched-Step (some s) ops =
      Triple-branch _ (λ _. Triple-throw _ λ w p. p) λ _. restore_with-Step s ops

  restore_phase-Step :
      (s : Option BackupSnapshot) (ops : List (String × Mark)) → Step env (restore_phase env s ops)
  unfolding restore_phase
  restore_phase-Step s ops = Triple-then (phase-Step env _) (restore_switched-Step s ops)

  forget : (Φ : JobRecord → Type 0) (w : World) → Kept Φ w → Kept Anything w
  forget Φ w p = (p.0, p.1, tt)

  recovery-Backed :
      (fenced switched : Bool) (s : Option BackupSnapshot) (ops : List (String × Mark))
      (cause : Thrown)
      → is_some (mark_of "switch" ops) ≡ switched
      → Triple
          (Kept (HasOperations ops))
          (recovery env fenced switched s ops cause)
          (λ _. Backed)
          Failed
  unfolding recovery
  recovery-Backed fenced true s ops cause h =
      Triple-then {Q = Kept Anything}
        (Triple-when fenced
          (λ _. Triple-weaken (fence_again-Kept Anything) (forget _) (λ a s p. p) (λ e s p. p))
          λ _. forget _)
        (Triple-then {Q = Kept Anything}
          (Triple-when true (λ _. restore_phase-Step s ops) (λ e s p. p))
          (Triple-then {Q = Kept Anything}
            (Triple-when fenced (λ _. start_restored-Kept Anything) (λ e s p. p))
            (conclude_recovery-switched cause)))
  recovery-Backed fenced false s ops cause h =
      Triple-then {Q = Kept (HasOperations ops)}
        (Triple-when fenced (λ _. fence_again-Kept _) (λ e s p. p))
        (Triple-then {Q = Kept (HasOperations ops)}
          (Triple-when false (λ e. absurd (false≢true e)) (λ e s p. p))
          (Triple-then {Q = Kept (HasOperations ops)}
            (Triple-when fenced (λ _. start_restored-Kept _) (λ e s p. p))
            (conclude_recovery-untouched ops cause h)))

  give_up-Backed : Triple Backed (give_up env) (λ _. Backed) Failed
  unfolding give_up
  give_up-Backed = finish-Backed env _ _ _

  recover-Backed :
      (cause : Thrown) → Triple (Kept Anything) (recover env cause) (λ _. Backed) Failed
  unfolding recover recover_undecided
  recover-Backed cause = Triple-get _ λ w.
      Triple-branch _
        (λ decided.
          Triple-weaken (complete_decision-Backed env)
            (λ s p. (p.0.0, ap (λ (t : World). is_some t.job.decision) p.1 ∙ decided)) (λ a s p. p)
            (λ e s p. p))
        λ _.
          Triple-weaken
            (Triple-catching (recovery-Backed _ _ w.job.snapshot w.job.operations cause refl) (
              unless_journal-Backed env _
                λ e. Triple-weaken give_up-Backed (λ s p. p.0) (λ a s q. q) (λ e s q. q)))
            (λ s p. (p.0.0, p.0.1, ap (λ (t : World). t.job.operations) p.1)) (λ a s q. q)
            (λ e s q. q)

  take_backup-Step : Step env (take_backup env)
  unfolding take_backup
  take_backup-Step = Triple-then (call-Step env backup refl) (
      Triple-get _ λ w.
        Triple-then {Q = Kept Anything}
          (Triple-modify _ λ s p. (p.0.0, Agrees-of_same s.journal s.job _ refl refl p.0.1, tt))
          (call-Step env _ refl))

  start_validation-Step : Step env (start_validation env)
  unfolding start_validation
  start_validation-Step = Triple-then (call-Step env _ refl) (call-Step env _ refl)

  attempt-Backed : Triple (Kept Anything) (attempt env) (λ _. Backed) Failed
  unfolding attempt prepare_and_stop switch_over verify_and_commit
  attempt-Backed =
      Triple-then
        (Triple-then (call-Step env _ refl) (
          Triple-then (operation-Step env _ _ (call-Step env _ refl)) (
            Triple-then (phase-Step env _) (
              Triple-then (operation-Step env _ _ (call-Step env _ refl))
                (operation-Step env _ _ (call-Step env _ refl))))))
        (Triple-then
          (Triple-then (phase-Step env _) (
            Triple-then (operation-Step env _ _ take_backup-Step) (
              Triple-then (phase-Step env _) (
                Triple-then (operation-Step env _ _ (call-Step env _ refl))
                  (operation-Step env _ _ start_validation-Step)))))
          (Triple-then (phase-Step env _) (
            Triple-then (operation-Step env _ _ (call-Step env _ refl)) (
              Triple-then (phase-Step env _) (
                Triple-then (operation-Step env _ _ (call-Step env _ refl)) (
                  Triple-then (phase-Step env _) (
                    Triple-then (operation-Step env _ _ (call-Step env _ refl)) (
                      Triple-then (decide-IsDecided commit_decided)
                        (complete_decision-Backed env)))))))))

  execute-Backed : Triple (Kept Anything) (execute env) (λ _. Backed) Failed
  unfolding execute
  execute-Backed = Triple-then (Triple-modify _ λ w p. (p.0, p.2)) (
      Triple-then (save_job-Kept env Anything (λ w now a. tt))
        (Triple-catching attempt-Backed (unless_journal-Backed env _ recover-Backed)))

  resume-Backed :
      (r : JobRecord)
      → Triple (λ w. Kept Anything w × (w.job ≡ r)) (resume env r) (λ _. Backed) Failed
  unfolding resume
  resume-Backed r =
      Triple-branch _ (λ _. Triple-pure tt λ w p. p.0.0)
        λ _.
          Triple-branch _
            (λ decided.
              Triple-weaken (complete_decision-Backed env)
                (λ s p. (p.0.0, ap (λ (t : JobRecord). is_some t.decision) p.1 ∙ decided))
                (λ a s q. q) (λ e s q. q))
            λ _.
              Triple-weaken {P = Kept Anything}
                (Triple-branch _ (λ _. recover-Backed _) λ _. execute-Backed) (λ s p. p.0)
                (λ a s q. q) (λ e s q. q)

  adopt-Kept :
      (o : Option JobRecord)
      → Triple (λ w. Backed w × (w.journal ≡ o)) (adopt o) (λ _. Kept Anything) (λ _. Backed)
  adopt-Kept none = Triple-throw _ λ w p. p.0
  adopt-Kept (some r) = Triple-modify _ λ w p. (p.0, rw p.1 (refl, refl), tt)

  load-Kept : Triple Backed (load env) (λ _. Kept Anything) (λ _. Backed)
  unfolding load
  load-Kept =
      Triple-then
        (perform-Triple env {Q = Backed} read_job (λ w p. ground arith) (λ e w p. ground arith))
        (Triple-get _ λ w.
          Triple-weaken (adopt-Kept w.journal) (λ s p. (p.0, ap (λ (t : World). t.journal) p.1))
            (λ a s q. q) (λ e s q. q))

  run-Backed_triple : Triple Backed (run env) (λ _. Backed) (λ _. Backed)
  unfolding run
  run-Backed_triple = Triple-then load-Kept (
      Triple-get _ λ w.
        Triple-weaken (resume-Backed w.job) (λ s p. (p.0, ap (λ (t : World). t.job) p.1))
          (λ a s q. q) (Backed-of_Failed env))

Backed-state :
    (r : Result Halt (Unit {0}) × World) → After (λ _. Backed) (λ _. Backed) r → Backed r.1
Backed-state (ok a, s) q = q
Backed-state (err e, s) q = q

-- If the maintenance fence was lifted so far only when the journal on disk held a decision or no mark
-- of a begun switch, the same is true of every call after any number of further runs, whatever fails
-- and wherever a run dies.
pub runs-Backed : (envs : List Env) (w : World) → Backed w → Backed (runs envs w)
unfolding runs
runs-Backed [] w h = h
runs-Backed (env ∷ envs) w h =
    runs-Backed envs (run env w).1 (Backed-state (run env w) ((run-Backed_triple env).holds w h))
