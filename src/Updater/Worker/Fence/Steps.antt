-- ===== src/Updater/Worker/Fence/Steps.antt =====
-- The steps that keep the fence: what they assume of the journal, and what they leave in it.
use rustdesk_console.Common.{
  ℕ, String, ◌≡◌, refl, ◌∙◌, Bool, true, false, not, ◌||◌, Option, none, some, List, all, arith,
}
use rustdesk_console.Common.Effects.{
  modify, ◌>>◌, Triple, Triple-then, Triple-modify, Triple-get, Triple-catching, Triple-weaken,
  Triple-throw,
}
use rustdesk_console.Updater.Contracts.{
  JobRecord, JobStatus, JobPhase, Thrown, update_error, journal_error, other_error, Mark,
}
use rustdesk_console.Updater.Worker.Machine.{
  World, Env, Event, Halt, thrown, crashed, Call, perform, observe, verify, write_maintenance,
  is_some, save_job, mark_of, touch, set_phase, logged,
}
use rustdesk_console.Updater.Worker.Machine.Rules.{perform-Triple, save_job-Triple, stamp-Triple}
use rustdesk_console.Updater.Worker.Decided.{decision_of}
use rustdesk_console.Updater.Worker.{
  W, finish, reopen, complete_decision, unless_journal, is_restore, conclude, repair_later,
  operation, phase,
}

abbrev pub switch_mark : Option JobRecord → Option Mark
switch_mark none = none
switch_mark (some r) = mark_of "switch" r.operations

abbrev pub lifts_fence : Call → Bool
lifts_fence (write_maintenance false allow_start) = true
lifts_fence _ = false

-- A call that lifts the fence finds in the journal a decision, or no sign of a switch.
abbrev pub is_backed : Event → Bool
is_backed e =
    not (lifts_fence e.call)
    || (is_some (decision_of e.journal) || not (is_some (switch_mark e.journal)))

abbrev pub Backed : World → Type 0
Backed w = all is_backed w.trace ≡ true

-- The journal and the record in memory agree on what the recovery depends on.
abbrev pub Agrees : Option JobRecord → JobRecord → Type 0
Agrees none r = ⊥
Agrees (some j) r = (j.decision ≡ r.decision) × (j.operations ≡ r.operations)

pub Agrees-of_same :
    (j : Option JobRecord) (r r' : JobRecord)
    → r.decision ≡ r'.decision
    → r.operations ≡ r'.operations
    → Agrees j r
    → Agrees j r'
Agrees-of_same none r r' d o a = a
Agrees-of_same (some j) r r' d o (e, f) = (e ∙ d, f ∙ o)

abbrev pub Kept : (JobRecord → Type 0) → World → Type 0
Kept Φ w = Backed w × Agrees w.journal w.job × Φ w.job

abbrev pub Anything : JobRecord → Type 0
Anything r = Unit {0}

abbrev pub IsDecided : JobRecord → Type 0
IsDecided r = is_some r.decision ≡ true

abbrev pub HasOperations : List (String × Mark) → JobRecord → Type 0
HasOperations ops r = r.operations ≡ ops

-- After an error that a handler will see, journal and memory still agree.
abbrev pub Failed : Halt → World → Type 0
Failed crashed w = Backed w
Failed (thrown journal_error) w = Backed w
Failed (thrown (update_error e)) w = Kept Anything w
Failed (thrown other_error) w = Kept Anything w

pub Failed-of_Kept : (e : Halt) (w : World) → Backed w → Agrees w.journal w.job → Failed e w
Failed-of_Kept crashed w b a = b
Failed-of_Kept (thrown journal_error) w b a = b
Failed-of_Kept (thrown (update_error e)) w b a = (b, a, tt)
Failed-of_Kept (thrown other_error) w b a = (b, a, tt)

module _ (env : Env) where
  pub perform-Kept :
      (Φ : JobRecord → Type 0) (c : Call)
      → lifts_fence c ≡ false
      → Triple (Kept Φ) (perform env c) (λ _. Kept Φ) Failed
  perform-Kept Φ c h =
      perform-Triple env c (λ w p. (ground arith, p.1, p.2))
        λ e w p. Failed-of_Kept e _ (ground arith) p.1

  pub lift-Kept :
      (Φ : JobRecord → Type 0)
      → ((r : JobRecord)
          → Φ r
          → (is_some r.decision || not (is_some (mark_of "switch" r.operations))) ≡ true)
      → Triple (Kept Φ) (perform env (write_maintenance false true)) (λ _. Kept Φ) Failed
  lift-Kept Φ h =
      perform-Triple env _ (λ w p. (backed w p, p.1, p.2))
        λ e w p. Failed-of_Kept e _ (backed w p) p.1
    where
      from_journal :
          (j : Option JobRecord) (r : JobRecord)
          → Agrees j r
          → (is_some r.decision || not (is_some (mark_of "switch" r.operations))) ≡ true
          → (is_some (decision_of j) || not (is_some (switch_mark j))) ≡ true
      from_journal none r a k = absurd a
      from_journal (some j) r (d, o) k = rw (d, o) k

      backed : (w : World) → Kept Φ w → Backed (logged (write_maintenance false true) w)
      backed w p = ground (arith, from_journal w.journal w.job p.1 (h w.job p.2), p.0)

  pub save_job-Kept :
      (Φ : JobRecord → Type 0)
      → ((w : World) (now : ℕ) → Φ w.job → Φ (touch now w).job)
      → Triple (λ w. Backed w × Φ w.job) (save_job env) (λ _. Kept Φ) Failed
  save_job-Kept Φ h =
      save_job-Triple env (λ w p. (ground arith, (refl, refl), p.1)) (λ w k p. ground arith)
        (λ w k p. ground arith) λ w now p. (p.0, h w now p.1)

  -- The state in which the next step of an attempt starts.
  abbrev pub Step : W → Type 0
  Step m = Triple (Kept Anything) m (λ _. Kept Anything) Failed

  pub call-Step : (c : Call) → lifts_fence c ≡ false → Step (perform env c)
  call-Step c h = perform-Kept Anything c h

  pub assign_and_save-Step :
      (Φ : JobRecord → Type 0) (f : World → World)
      → ((w : World) → Backed w → Backed (f w))
      → ((w : World) → Φ w.job → Φ (f w).job)
      → ((w : World) (now : ℕ) → Φ w.job → Φ (touch now w).job)
      → Triple (Kept Φ) (modify f >> save_job env) (λ _. Kept Φ) Failed
  assign_and_save-Step Φ f h k t =
      Triple-then (Triple-modify f λ w p. (h w p.0, k w p.2)) (save_job-Kept Φ t)

  pub phase-Kept :
      (Φ : JobRecord → Type 0) (p : JobPhase)
      → ((w : World) → Φ w.job → Φ (set_phase p w).job)
      → ((w : World) (now : ℕ) → Φ w.job → Φ (touch now w).job)
      → Triple (Kept Φ) (phase env p) (λ _. Kept Φ) Failed
  unfolding phase
  phase-Kept Φ p k t = assign_and_save-Step Φ _ (λ w b. b) k t

  pub phase-Step : (p : JobPhase) → Step (phase env p)
  phase-Step p = phase-Kept Anything p (λ w a. tt) (λ w now a. tt)

  pub operation-Step : (key : String) (action : W) → Step action → Step (operation env key action)
  unfolding operation
  operation-Step key action h = Triple-then (Triple-modify _ λ w p. (p.0, p.2)) (
      Triple-then (save_job-Kept Anything (λ w now a. tt)) (
        Triple-then (call-Step (observe _) refl) (
          Triple-then h (
            Triple-then (Triple-modify _ λ w p. (p.0, p.2)) (
              Triple-then (save_job-Kept Anything (λ w now a. tt)) (call-Step (observe _) refl))))))

  -- A task that ends does not need the two to agree any more.
  pub finish-Backed :
      (status : JobStatus) (code message : String)
      → Triple Backed (finish env status code message) (λ _. Backed) Failed
  unfolding finish
  finish-Backed status code message = Triple-then {Q = Backed} (stamp-Triple env _ λ w now p. p) (
      save_job-Triple env (λ w p. ground arith) (λ w k p. ground arith) (λ w k p. ground arith)
        λ w now p. p)

  pub Backed-of_Failed : (e : Halt) (w : World) → Failed e w → Backed w
  Backed-of_Failed crashed w p = p
  Backed-of_Failed (thrown journal_error) w p = p
  Backed-of_Failed (thrown (update_error e)) w p = p.0
  Backed-of_Failed (thrown other_error) w p = p.0

  pub unless_journal-Backed :
      (h : Thrown → W)
      → ((e : Thrown) → Triple (Kept Anything) (h e) (λ _. Backed) Failed)
      → (e : Halt) → Triple (Failed e) (unless_journal h e) (λ _. Backed) Failed
  unfolding unless_journal
  unless_journal-Backed h k crashed = Triple-throw crashed (λ w p. p)
  unless_journal-Backed h k (thrown journal_error) = Triple-throw _ (λ w p. p)
  unless_journal-Backed h k (thrown (update_error e)) = k (update_error e)
  unless_journal-Backed h k (thrown other_error) = k other_error

  pub finish-Backed-Kept :
      (Φ : JobRecord → Type 0) (status : JobStatus) (code message : String)
      → Triple (Kept Φ) (finish env status code message) (λ _. Backed) Failed
  unfolding finish
  finish-Backed-Kept Φ status code message = Triple-then (stamp-Triple env _ λ w now p. (p.0, tt)) (
      Triple-weaken (save_job-Kept Anything (λ w now a. tt)) (λ s p. p) (λ a s p. p.0) (λ e s p. p))

  pub conclude-Backed :
      (restored : Bool) → Triple (Kept IsDecided) (conclude env restored) (λ _. Backed) Failed
  unfolding conclude
  conclude-Backed true = finish-Backed-Kept IsDecided _ _ _
  conclude-Backed false = finish-Backed-Kept IsDecided _ _ _

  pub IsDecided-backs :
      (r : JobRecord)
      → IsDecided r
      → (is_some r.decision || not (is_some (mark_of "switch" r.operations))) ≡ true
  IsDecided-backs r h = rw h

  pub reopen-Backed :
      (restored : Bool)
      → Triple (λ w. Backed w × IsDecided w.job) (reopen env restored) (λ _. Backed) Failed
  unfolding reopen
  reopen-Backed restored = Triple-then (save_job-Kept IsDecided (λ w now a. a)) (
      Triple-then (perform-Kept IsDecided (verify restored) refl) (
        Triple-then (lift-Kept IsDecided IsDecided-backs)
          (Triple-then (perform-Kept IsDecided (observe _) refl) (conclude-Backed restored))))

  pub complete_decision-Backed :
      Triple (λ w. Backed w × IsDecided w.job) (complete_decision env) (λ _. Backed) Failed
  unfolding complete_decision repair_later
  complete_decision-Backed = Triple-get _ λ w.
      Triple-weaken
        (Triple-catching (reopen-Backed (is_restore w.job.decision)) (
          unless_journal-Backed _
            λ e. Triple-weaken (finish-Backed _ _ _) (λ s p. p.0) (λ a s q. q) (λ e s q. q)))
        (λ s p. p.0) (λ a s q. q) (λ e s q. q)
  -- The journal has the decision that memory is about to have.
