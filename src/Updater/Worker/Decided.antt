-- ===== src/Updater/Worker/Decided.antt =====
-- A decision that the journal holds is final: what a run does once the task is decided.
use rustdesk_console.Common.{
  String, ◌≡◌, refl, ap, sym, ◌∙◌, Bool, true, false, not, Option, none, some, List, [], ◌∷◌, all,
  arith,
}
use rustdesk_console.Common.Effects.{
  Result, ok, err, Triple, After, Triple-then, Triple-modify, Triple-get, Triple-catching,
  Triple-weaken, Triple-throw, Triple-pure, Triple-branch,
}
use rustdesk_console.Updater.Contracts.{
  JobRecord, JobStatus, Decision, Thrown, update_error, journal_error, other_error,
}
use rustdesk_console.Updater.Worker.Machine.{
  World, Env, Event, Halt, thrown, crashed, Call, perform, observe, verify, write_maintenance,
  restore_data, switch_applications, restore_deployment, backup, read_job, save_job,
}
use rustdesk_console.Updater.Worker.Machine.Rules.{perform-Triple, save_job-Triple, stamp-Triple}
use rustdesk_console.Updater.Worker.{
  W, finish, reopen, complete_decision, unless_journal, resume, load, run, adopt, is_restore,
  conclude, repair_later, runs,
}

abbrev pub decision_of : Option JobRecord → Option Decision
decision_of none = none
decision_of (some r) = r.decision

-- The calls that switch, overwrite or snapshot what the business has written.
abbrev pub touches_business : Call → Bool
touches_business (restore_data s) = true
touches_business switch_applications = true
touches_business restore_deployment = true
touches_business backup = true
touches_business _ = false

abbrev pub is_peaceful : Event → Bool
is_peaceful e = not (touches_business e.call)

abbrev pub DecidedOnDisk : Decision → World → Type 0
DecidedOnDisk d w = (decision_of w.journal ≡ some d) × (all is_peaceful w.trace ≡ true)

abbrev pub Decided : Decision → World → Type 0
Decided d w =
    (decision_of w.journal ≡ some d) × (all is_peaceful w.trace ≡ true) × (w.job.decision ≡ some d)

abbrev Keeps : Decision → W → Type 0
Keeps d m = Triple (Decided d) m (λ _. Decided d) (λ _. Decided d)

module _ (env : Env) (d : Decision) where
  perform-Keeps : (c : Call) → touches_business c ≡ false → Keeps d (perform env c)
  perform-Keeps c h = perform-Triple env c (λ w p. ground arith) (λ e w p. ground arith)

  save_job-Keeps : Keeps d (save_job env)
  save_job-Keeps =
      save_job-Triple env (λ w p. ground arith) (λ w k p. ground arith) (λ w k p. ground arith)
        (λ w now p. p)

  finish-Keeps :
      (status : JobStatus) (code message : String) → Keeps d (finish env status code message)
  unfolding finish
  finish-Keeps status code message = Triple-then (stamp-Triple env _ λ w now p. p) save_job-Keeps

  conclude-Keeps : (restored : Bool) → Keeps d (conclude env restored)
  unfolding conclude
  conclude-Keeps true = finish-Keeps _ _ _
  conclude-Keeps false = finish-Keeps _ _ _

  reopen-Keeps : (restored : Bool) → Keeps d (reopen env restored)
  unfolding reopen
  reopen-Keeps restored = Triple-then save_job-Keeps (
      Triple-then (perform-Keeps (verify restored) refl) (
        Triple-then (perform-Keeps (write_maintenance false true) refl) (
          Triple-then (perform-Keeps (observe "business_reopened") refl)
            (conclude-Keeps restored))))

  repair_later-Keeps : Keeps d (repair_later env)
  unfolding repair_later
  repair_later-Keeps = finish-Keeps _ _ _

  unless_journal-Keeps :
      (h : Thrown → W) → ((e : Thrown) → Keeps d (h e)) → (e : Halt) → Keeps d (unless_journal h e)
  unfolding unless_journal
  unless_journal-Keeps h k crashed = Triple-throw crashed (λ w p. p)
  unless_journal-Keeps h k (thrown journal_error) = Triple-throw _ (λ w p. p)
  unless_journal-Keeps h k (thrown (update_error e)) = k (update_error e)
  unless_journal-Keeps h k (thrown other_error) = k other_error

  complete_decision-Keeps : Keeps d (complete_decision env)
  unfolding complete_decision
  complete_decision-Keeps = Triple-get _ λ w.
      Triple-weaken
        (Triple-catching (reopen-Keeps (is_restore w.job.decision))
          (unless_journal-Keeps _ λ e. repair_later-Keeps))
        (λ s p. p.0) (λ a s q. q) (λ e s q. q)

  resume-Keeps : (r : JobRecord) → r.decision ≡ some d → Keeps d (resume env r)
  unfolding resume
  resume-Keeps r h =
      Triple-branch _ (λ _. Triple-pure tt λ w p. p)
        λ _. Triple-branch _ (λ _. complete_decision-Keeps) λ undecided. absurd (ground arith)

  adopt-Decides :
      (o : Option JobRecord)
      → Triple
          (λ w. DecidedOnDisk d w × (w.journal ≡ o))
          (adopt o)
          (λ _. Decided d)
          (λ _. DecidedOnDisk d)
  adopt-Decides none = Triple-throw _ (λ w p. p.0)
  adopt-Decides (some r) = Triple-modify _ λ w p. ground arith

  load-Decides : Triple (DecidedOnDisk d) (load env) (λ _. Decided d) (λ _. DecidedOnDisk d)
  unfolding load
  load-Decides =
      Triple-then
        (perform-Triple env {Q = DecidedOnDisk d} read_job (λ w p. ground arith)
          λ e w p. ground arith)
        (Triple-get _ λ w.
          Triple-weaken (adopt-Decides w.journal) (λ s p. (p.0, ap (λ (t : World). t.journal) p.1))
            (λ a s q. q) λ e s q. q)

  run-Decides : Triple (DecidedOnDisk d) (run env) (λ _. DecidedOnDisk d) (λ _. DecidedOnDisk d)
  unfolding run
  run-Decides = Triple-then load-Decides (
      Triple-get _ λ w. record {
        holds = λ s p. after (resume env w.job s) (
            (resume-Keeps w.job (ap (λ (t : World). t.job.decision) (sym p.1) ∙ p.0.2)).holds s
              p.0);
      })
    where
      after :
          (r : Result Halt (Unit {0}) × World)
          → After (λ _. Decided d) (λ _. Decided d) r
          → After (λ _. DecidedOnDisk d) (λ _. DecidedOnDisk d) r
      after (ok a, s) q = (q.0, q.1)
      after (err e, s) q = (q.0, q.1)

After-state :
    {d : Decision} (r : Result Halt (Unit {0}) × World)
    → After (λ _. DecidedOnDisk d) (λ _. DecidedOnDisk d) r
    → DecidedOnDisk d r.1
After-state (ok a, s) q = q
After-state (err e, s) q = q

-- From a state whose journal holds a decision, and in whose calls so far nothing was switched, backed
-- up or restored, any number of runs keep that decision in the journal, and still none of their
-- calls switches, backs up or restores anything, whatever fails and wherever the process dies.
pub runs-DecidedOnDisk :
    (d : Decision) (envs : List Env) (w : World) → DecidedOnDisk d w → DecidedOnDisk d (runs envs w)
unfolding runs
runs-DecidedOnDisk d [] w h = h
runs-DecidedOnDisk d (env ∷ envs) w h =
    runs-DecidedOnDisk d envs (run env w).1
      (After-state (run env w) ((run-Decides env d).holds w h))
