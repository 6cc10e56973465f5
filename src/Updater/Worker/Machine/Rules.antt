-- ===== src/Updater/Worker/Machine/Rules.antt =====
-- What the calls of the worker keep: from what holds when a call is entered in the trace.
use rustdesk_console.Common.{ℕ, Bool}
use rustdesk_console.Common.Effects.{get, ◌>>=◌, After, Triple}
use rustdesk_console.Updater.Contracts.{JobRecord, journal_error}
use rustdesk_console.Updater.Worker.Machine.{
  World, Env, Outcome, returns, throws, dies, Halt, thrown, crashed, Call, save, logged, answer,
  perform, saved, if_persisted, answer_save, write_job, touch, stamp, save_job,
}

answer-After :
    (Q : World → Type 0) (R : Halt → World → Type 0) (o : Outcome) (w : World)
    → Q w
    → ((e : Halt) → R e w)
    → After (λ _. Q) R (answer o w)
answer-After Q R returns w q r = q
answer-After Q R (throws e) w q r = r (thrown e)
answer-After Q R dies w q r = r crashed

answer_save-After :
    (Q : World → Type 0) (R : Halt → World → Type 0) (o : Outcome) (kept : Bool) (r : JobRecord)
    (w : World)
    → Q (saved r w)
    → ((k : Bool) → R (thrown journal_error) (if_persisted k r w))
    → ((k : Bool) → R crashed (if_persisted k r w))
    → After (λ _. Q) R (answer_save o kept r w)
answer_save-After Q R returns kept r w q j c = q
answer_save-After Q R (throws e) kept r w q j c = j kept
answer_save-After Q R dies kept r w q j c = c kept

module _ (env : Env) {P Q : World → Type 0} {R : Halt → World → Type 0} where
  pub perform-Triple :
      (c : Call)
      → ((w : World) → P w → Q (logged c w))
      → ((e : Halt) (w : World) → P w → R e (logged c w))
      → Triple P (perform env c) (λ _. Q) R
  unfolding perform
  perform-Triple c keep fail = record {
    holds = λ w p. answer-After Q R (env.outcome (logged c w).trace) _ (keep w p) (λ e. fail e w p);
  }

  pub write_job-Triple :
      (r : JobRecord)
      → ((w : World) → P w → Q (saved r (logged (save r) w)))
      → ((w : World) (k : Bool)
          → P w
          → R (thrown journal_error) (if_persisted k r (logged (save r) w)))
      → ((w : World) (k : Bool) → P w → R crashed (if_persisted k r (logged (save r) w)))
      → Triple P (write_job env r) (λ _. Q) R
  unfolding write_job
  write_job-Triple r keep fail die = record {
    holds = λ w p.
        answer_save-After Q R (env.outcome (logged (save r) w).trace)
          (env.persisted (logged (save r) w).trace) r _ (keep w p) (λ k. fail w k p)
          (λ k. die w k p);
  }

  -- The record that is written is the one in memory, with a new time.
  pub save_job-Triple :
      ((w : World) → P w → Q (saved w.job (logged (save w.job) w)))
      → ((w : World) (k : Bool)
          → P w
          → R (thrown journal_error) (if_persisted k w.job (logged (save w.job) w)))
      → ((w : World) (k : Bool) → P w → R crashed (if_persisted k w.job (logged (save w.job) w)))
      → ((w : World) (now : ℕ) → P w → P (touch now w))
      → Triple P (save_job env) (λ _. Q) R
  unfolding save_job stamp write_job ◌>>=◌ get
  save_job-Triple keep fail die touched = record {
    holds = λ w p.
        let w' = touch (env.clock w.trace) w in
        let p' = touched w (env.clock w.trace) p in
        answer_save-After Q R (env.outcome (logged (save w'.job) w').trace)
          (env.persisted (logged (save w'.job) w').trace) w'.job _ (keep w' p') (λ k. fail w' k p')
          (λ k. die w' k p');
  }

  pub stamp-Triple :
      (f : ℕ → World → World)
      → ((w : World) (now : ℕ) → P w → Q (f now w))
      → Triple P (stamp env f) (λ _. Q) R
  unfolding stamp
  stamp-Triple f h = record { holds = λ w p. h w (env.clock w.trace) p }
