-- ===== src/Updater/Worker/Ending.antt =====
-- How a run ends: with a task that is settled in the journal, or with a journal that cannot be
-- written, or with the death of the process.
use rustdesk_console.Common.{
  String, ◌≡◌, refl, ap, ◌∙◌, Bool, true, false, ◌||◌, Option, none, some,
}
use rustdesk_console.Common.Effects.{
  Result, ok, err, Triple, After, Triple-then, Triple-modify, Triple-get, Triple-catching,
  Triple-weaken, Triple-throw, Triple-pure, Triple-branch,
}
use rustdesk_console.Updater.Contracts.{
  JobRecord, JobStatus, Thrown, update_error, journal_error, other_error, failed,
}
use rustdesk_console.Updater.Store.{terminal, is_terminal_status}
use rustdesk_console.Updater.Worker.Machine.{World, Env, Halt, thrown, crashed, logged, read_job}
use rustdesk_console.Updater.Worker.Machine.Rules.{perform-Triple, save_job-Triple, stamp-Triple}
use rustdesk_console.Updater.Worker.{
  W, finish, reopen, complete_decision, unless_journal, resume, load, run, adopt, conclude,
  repair_later, give_up, conclude_recovery, recovery, recover, attempt, execute, recover_undecided,
  verify_and_commit, is_recovery_required,
}

abbrev pub is_settled : JobRecord → Bool
is_settled r = terminal r || is_recovery_required r.view.status

abbrev pub settles : JobStatus → Bool
settles s = is_terminal_status s || is_recovery_required s

abbrev pub IsSettled : Option JobRecord → Type 0
IsSettled none = ⊥
IsSettled (some r) = is_settled r ≡ true

abbrev pub SettledOnDisk : World → Type 0
SettledOnDisk w = IsSettled w.journal

abbrev Trivial : World → Type 0
Trivial w = Unit {0}

-- The errors that no handler of the worker sees.
abbrev Unhandled : Halt → World → Type 0
Unhandled crashed w = Unit
Unhandled (thrown journal_error) w = Unit
Unhandled (thrown (update_error e)) w = ⊥
Unhandled (thrown other_error) w = ⊥

abbrev Settling : W → Type 0
Settling m = Triple Trivial m (λ _. SettledOnDisk) Unhandled

-- A step whose outcome does not matter, since what follows or a handler settles the task.
any-Triple : (m : W) → Triple Trivial m (λ _. Trivial) (λ _. Trivial)
any-Triple m = record { holds = λ w p. either (m w) }
  where
    either : (r : Result Halt (Unit {0}) × World) → After (λ _. Trivial) (λ _. Trivial) r
    either (ok a, w) = tt
    either (err e, w) = tt

module _ (env : Env) where
  finish-Settling :
      (status : JobStatus) (code message : String)
      → settles status ≡ true
      → Settling (finish env status code message)
  unfolding finish
  finish-Settling status code message h =
      Triple-then {Q = λ w. settles w.job.view.status ≡ true} (stamp-Triple env _ λ w now p. h)
        (save_job-Triple env (λ w p. p) (λ w k p. tt) (λ w k p. tt) λ w now p. p)

  unless_journal-Settling :
      (h : Thrown → W)
      → ((e : Thrown) → Settling (h e))
      → (e : Halt) → Settling (unless_journal h e)
  unfolding unless_journal
  unless_journal-Settling h k crashed = Triple-throw crashed (λ w p. tt)
  unless_journal-Settling h k (thrown journal_error) = Triple-throw _ (λ w p. tt)
  unless_journal-Settling h k (thrown (update_error e)) = k (update_error e)
  unless_journal-Settling h k (thrown other_error) = k other_error

  Settles : W → Type 0
  Settles m = Triple Trivial m (λ _. SettledOnDisk) (λ _. Trivial)

  loosen : {m : W} → Settling m → Triple Trivial m (λ _. SettledOnDisk) (λ _. Trivial)
  loosen t = Triple-weaken t (λ s p. p) (λ a s q. q) (λ e s q. tt)

  conclude-Settling : (restored : Bool) → Settling (conclude env restored)
  unfolding conclude
  conclude-Settling true = finish-Settling _ _ _ refl
  conclude-Settling false = finish-Settling _ _ _ refl

  complete_decision-Settling : Settling (complete_decision env)
  unfolding complete_decision reopen repair_later
  complete_decision-Settling = Triple-get _ λ w.
      Triple-weaken {P = Trivial}
        (Triple-catching {R = λ _. Trivial}
          (Triple-then (any-Triple _) (
            Triple-then (any-Triple _) (
              Triple-then (any-Triple _)
                (Triple-then (any-Triple _) (loosen (conclude-Settling _))))))
          (unless_journal-Settling _ λ e. finish-Settling _ _ _ refl))
        (λ s p. tt) (λ a s q. q) (λ e s q. q)

  conclude_recovery-Settles :
      (switched : Bool) (cause : Thrown)
      → Triple Trivial (conclude_recovery env switched cause) (λ _. SettledOnDisk) (λ _. Trivial)
  unfolding conclude_recovery
  conclude_recovery-Settles true cause =
      Triple-then (any-Triple _) (loosen complete_decision-Settling)
  conclude_recovery-Settles false cause =
      Triple-then (any-Triple _) (loosen (finish-Settling failed _ _ refl))

  recover-Settling : (cause : Thrown) → Settling (recover env cause)
  unfolding recover recover_undecided recovery give_up
  recover-Settling cause = Triple-get _ λ w.
      Triple-weaken {P = Trivial}
        (Triple-branch _ (λ _. complete_decision-Settling)
          λ _.
            Triple-catching {R = λ _. Trivial}
              (Triple-then (any-Triple _) (
                Triple-then (any-Triple _)
                  (Triple-then (any-Triple _) (conclude_recovery-Settles _ cause))))
              (unless_journal-Settling _ λ e. finish-Settling _ _ _ refl))
        (λ s p. tt) (λ a s q. q) (λ e s q. q)

  attempt-Settles : Triple Trivial (attempt env) (λ _. SettledOnDisk) (λ _. Trivial)
  unfolding attempt verify_and_commit
  attempt-Settles = Triple-then (any-Triple _) (
      Triple-then (any-Triple _) (
        Triple-then (any-Triple _) (
          Triple-then (any-Triple _) (
            Triple-then (any-Triple _) (
              Triple-then (any-Triple _) (
                Triple-then (any-Triple _) (
                  Triple-then (any-Triple _)
                    (Triple-then (any-Triple _) (loosen complete_decision-Settling)))))))))

  execute-Settling : Settling (execute env)
  unfolding execute
  execute-Settling = Triple-then {Q = Trivial} (Triple-modify _ λ w p. tt) (
      Triple-then {Q = Trivial}
        (save_job-Triple env (λ w p. tt) (λ w k p. tt) (λ w k p. tt) λ w now p. tt)
        (Triple-catching attempt-Settles (unless_journal-Settling _ recover-Settling)))

  resume-Settling :
      (r : JobRecord)
      → Triple (λ w. w.journal ≡ some r) (resume env r) (λ _. SettledOnDisk) Unhandled
  unfolding resume
  resume-Settling r =
      Triple-branch _ (λ settled. Triple-pure tt λ w p. rw p settled)
        λ _.
          Triple-weaken {P = Trivial}
            (Triple-branch _ (λ _. complete_decision-Settling)
              λ _. Triple-branch _ (λ _. recover-Settling _) λ _. execute-Settling)
            (λ s p. tt) (λ a s q. q) (λ e s q. q)

-- A run that returns has settled the task on disk. One that throws has lost its journal or its
-- process, or could not read the task and has done nothing else.
abbrev pub Threw : World → Halt → World → Type 0
Threw w crashed w' = Unit
Threw w (thrown journal_error) w' = Unit
Threw w (thrown (update_error e)) w' = w' ≡ logged read_job w
Threw w (thrown other_error) w' = w' ≡ logged read_job w

Threw-of_read : (w : World) (e : Halt) (w' : World) → w' ≡ logged read_job w → Threw w e w'
Threw-of_read w crashed w' h = tt
Threw-of_read w (thrown journal_error) w' h = tt
Threw-of_read w (thrown (update_error e)) w' h = h
Threw-of_read w (thrown other_error) w' h = h

Threw-of_Unhandled : (w : World) (e : Halt) (w' : World) → Unhandled e w' → Threw w e w'
Threw-of_Unhandled w crashed w' h = tt
Threw-of_Unhandled w (thrown journal_error) w' h = tt
Threw-of_Unhandled w (thrown (update_error e)) w' h = absurd h
Threw-of_Unhandled w (thrown other_error) w' h = absurd h

module _ (env : Env) (w : World) where
  adopt-reads :
      (o : Option JobRecord)
      → Triple
          (λ s. (s ≡ logged read_job w) × (s.journal ≡ o))
          (adopt o)
          (λ _ s. s.journal ≡ some s.job)
          (Threw w)
  adopt-reads none = Triple-throw _ λ s p. p.0
  adopt-reads (some r) = Triple-modify _ λ s p. p.1

  load-reads : Triple (λ s. s ≡ w) (load env) (λ _ s. s.journal ≡ some s.job) (Threw w)
  unfolding load
  load-reads =
      Triple-then
        (perform-Triple env {Q = λ s. s ≡ logged read_job w} read_job
          (λ s p. ap (logged read_job) p) λ e s p. Threw-of_read w e _ (ap (logged read_job) p))
        (Triple-get _ λ t.
          Triple-weaken (adopt-reads t.journal) (λ s p. (p.0, ap (λ (u : World). u.journal) p.1))
            (λ a s q. q) (λ e s q. q))

  -- In every environment and from every state, a run either returns and leaves a settled task on disk
  -- (succeeded, failed, rolled back, or marked for recovery), or ends by the death of the process or
  -- by the error of the journal, or throws another error, and then it has done nothing but try to
  -- read the task.
  pub run_settles : After (λ _. SettledOnDisk) (Threw w) (run env w)
  unfolding run
  run_settles =
      (Triple-then load-reads (
          Triple-get _ λ t.
            Triple-weaken (resume-Settling env t.job)
              (λ s p. p.0 ∙ ap (λ (u : World). some u.job) p.1) (λ a s q. q)
              (Threw-of_Unhandled w))).holds
        w refl
