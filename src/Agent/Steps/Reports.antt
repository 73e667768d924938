-- ===== src/Agent/Steps/Reports.antt =====
-- What the loop of RunBuild reports, and that nothing of it is lost.
pub mod Settled
pub mod Served
use cirrus_cli.Prelude.{
  ℕ, suc, String, Bool, true, false, not, ◌||◌, ◌≡◌, refl, ◌≢◌, Option, none, some, List, [], ◌∷◌,
  ◌++◌, if◌then◌else◌, Bool-cases, Option-cases, inl, inr, arith, sym, ap, ◌∙◌, append_assoc,
  append-nil, subst,
}
use cirrus_cli.Executor.Rpc.{Status, executing, failed, completed, skipped, CommandResult}
use cirrus_cli.Agent.UpdateBatcher.{
  UpdateBatcher, queue, flush, flush-false, IsBalanced, queue-IsBalanced, flush-IsBalanced,
}
use cirrus_cli.Agent.Environment.{Items}
use cirrus_cli.Agent.Steps.{
  Answer, Step, Executor, StepResult, Loop, should_run_step, perform_step, queue_update,
  flush_updates, status_after, turn, run_steps,
}

-- what became of a command
pub data Verdict : Type 0 where
  skips completes fails : Verdict

-- the updates that report it
abbrev pub report_of : Step → Verdict → List CommandResult
report_of c skips = (record { name = c.name; status = skipped }) ∷ []
report_of c completes =
    (record { name = c.name; status = executing })
    ∷ (record { name = c.name; status = completed })
    ∷ []
report_of c fails =
    (record { name = c.name; status = executing })
    ∷ (record { name = c.name; status = failed })
    ∷ []

unfoldable pub reports : List (Step × Verdict) → List CommandResult
reports [] = []
reports ((c, v) ∷ vs) = report_of c v ++ reports vs

abbrev pub is_fail : Verdict → Bool
is_fail fails = true
is_fail _ = false

abbrev pub any_fails : List (Step × Verdict) → Bool
any_fails [] = false
any_fails ((c, v) ∷ vs) = is_fail v || any_fails vs

abbrev pub steps_of : List (Step × Verdict) → List Step
steps_of [] = []
steps_of ((c, v) ∷ vs) = c ∷ steps_of vs

abbrev pub IsLossless : Loop → Type 0
IsLossless l = IsBalanced l.batcher l.sent

-- one or more turns have come to these verdicts
pub record Ran (l l' : Loop) (vs : List (Step × Verdict)) : Type 0 where
  pub history : l'.batcher.update_history ≡ l.batcher.update_history ++ reports vs
  pub failure : l'.failed_once ≡ (l.failed_once || any_fails vs)
  pub lossless : IsLossless l → IsLossless l'

flush_updates-history :
    (b : Bool) (l : Loop) → (flush_updates b l).batcher.update_history ≡ l.batcher.update_history
unfolding flush_updates flush
flush_updates-history b l = ground arith

flush_updates-IsLossless : (b : Bool) (l : Loop) → IsLossless l → IsLossless (flush_updates b l)
unfolding flush_updates
flush_updates-IsLossless true l h = flush-IsBalanced l.batcher l.sent h
flush_updates-IsLossless false l h =
    subst (λ b. IsBalanced b l.sent) (sym (flush-false l.batcher)) h

queue_update-IsLossless :
    (n : String) (s : Status) (l : Loop) → IsLossless l → IsLossless (queue_update n s l)
queue_update-IsLossless n s l h =
    queue-IsBalanced (record { name = n; status = s }) l.batcher l.sent h

queue_update-history :
    (n : String) (s : Status) (l : Loop)
    → (queue_update n s l).batcher.update_history
      ≡ l.batcher.update_history ++ (record { name = n; status = s }) ∷ []
unfolding queue
queue_update-history n s l = refl

Ran-nil : (l : Loop) → Ran l l []
unfolding reports
Ran-nil l = record {
  history = sym (append-nil l.batcher.update_history);
  failure = ground arith;
  lossless = λ h. h;
}

Ran-cons :
    (l l' l'' : Loop) (c : Step) (v : Verdict) (vs : List (Step × Verdict))
    → Ran l l' ((c, v) ∷ [])
    → Ran l' l'' vs
    → Ran l l'' ((c, v) ∷ vs)
unfolding reports
Ran-cons l l' l'' c v vs r s = record {
  history =
      s.history
      ∙ ap (λ h. h ++ reports vs) r.history
      ∙ ap (λ h. (l.batcher.update_history ++ h) ++ reports vs) (append-nil (report_of c v))
      ∙ append_assoc l.batcher.update_history (report_of c v) (reports vs);
  failure = ground (arith, r.failure, s.failure);
  lossless = λ h. s.lossless (r.lossless h);
}

module _ (expand : Items → Items) where
  turn-skip :
      (a : Answer) (c : Step) (l : Loop)
      → should_run_step c.execution_behaviour l.failed_once a.timed_out ≡ false
      → turn expand a c l ≡ (queue_update c.name skipped l, true)
  unfolding turn
  turn-skip a c l h = rw (h, turn) refl

  -- the loop within a turn, between the flush and the step
  abbrev begun : Answer → Step → Loop → Loop
  begun a c l = flush_updates a.accepts (queue_update c.name executing l)

  turn-exit :
      (a : Answer) (c : Step) (l : Loop)
      → should_run_step c.execution_behaviour l.failed_once a.timed_out ≡ true
      → (perform_step expand a c (begun a c l).executor).1 ≡ none
      → (turn expand a c l).1 ≡ false
  unfolding turn
  turn-exit a c l h e = rw (h, turn, e) refl

  turn-run :
      (a : Answer) (c : Step) (l : Loop) (r : StepResult)
      → should_run_step c.execution_behaviour l.failed_once a.timed_out ≡ true
      → (perform_step expand a c (begun a c l).executor).1 ≡ some r
      → (turn expand a c l).0
        ≡ queue_update c.name (status_after r) (record (begun a c l) {
          executor = (perform_step expand a c (begun a c l).executor).0;
          failed_once = if r.success then (begun a c l).failed_once else true;
        })
  unfolding turn
  turn-run a c l r h e = rw (h, turn, e) refl

  skipped_turn : (c : Step) (l : Loop) → Ran l (queue_update c.name skipped l) ((c, skips) ∷ [])
  unfolding reports
  skipped_turn c l = record {
    history = queue_update-history c.name skipped l;
    failure = ground arith;
    lossless = queue_update-IsLossless c.name skipped l;
  }

  abbrev verdict : StepResult → Verdict
  verdict r = if r.success then completes else fails

  abbrev ended : Answer → Step → Loop → Executor → Bool → Loop
  ended a c l e b = queue_update c.name (if b then completed else failed) (record (begun a c l) {
    executor = e;
    failed_once = if b then (begun a c l).failed_once else true;
  })

  ended-history :
      (a : Answer) (c : Step) (l : Loop) (e : Executor) (b : Bool)
      → (ended a c l e b).batcher.update_history
        ≡ l.batcher.update_history
          ++ ((record { name = c.name; status = executing })
              ∷ (record { name = c.name; status = if b then completed else failed })
              ∷ [])
  ended-history a c l e b =
      queue_update-history c.name (if b then completed else failed) (begun a c l)
      ∙ ap (λ h. h ++ (record { name = c.name; status = if b then completed else failed }) ∷ [])
          (flush_updates-history a.accepts (queue_update c.name executing l)
            ∙ queue_update-history c.name executing l)
      ∙ append_assoc l.batcher.update_history ((record { name = c.name; status = executing }) ∷ [])
          ((record { name = c.name; status = if b then completed else failed }) ∷ [])

  ended-IsLossless :
      (a : Answer) (c : Step) (l : Loop) (e : Executor) (b : Bool)
      → IsLossless l
      → IsLossless (ended a c l e b)
  ended-IsLossless a c l e b h =
      queue_update-IsLossless c.name (if b then completed else failed) (begun a c l) (
        flush_updates-IsLossless a.accepts (queue_update c.name executing l)
          (queue_update-IsLossless c.name executing l h))

  begun-failed_once : (a : Answer) (c : Step) (l : Loop) → (begun a c l).failed_once ≡ l.failed_once
  unfolding flush_updates
  begun-failed_once a c l = refl

  run_turn_at :
      (a : Answer) (c : Step) (l : Loop) (e : Executor) (b : Bool)
      → Ran l (ended a c l e b) ((c, if b then completes else fails) ∷ [])
  unfolding reports
  run_turn_at a c l e true = record {
    history = ended-history a c l e true;
    failure = ground (arith, begun-failed_once a c l);
    lossless = ended-IsLossless a c l e true;
  }
  run_turn_at a c l e false = record {
    history = ended-history a c l e false;
    failure = ground arith;
    lossless = ended-IsLossless a c l e false;
  }

  run_turn :
      (a : Answer) (c : Step) (l : Loop) (r : StepResult) (e : Executor)
      → Ran l
          (queue_update c.name (status_after r) (record (begun a c l) {
            executor = e;
            failed_once = if r.success then (begun a c l).failed_once else true;
          }))
          ((c, verdict r) ∷ [])
  run_turn a c l r e = run_turn_at a c l e r.success

  turn-Ran :
      (a : Answer) (c : Step) (l : Loop)
      → (turn expand a c l).1 ≡ true
      → (v : Verdict) × Ran l (turn expand a c l).0 ((c, v) ∷ [])
  turn-Ran a c l goes_on =
      elim (Bool-cases (should_run_step c.execution_behaviour l.failed_once a.timed_out)) [
        | inr h ↦ (
          skips,
          subst (λ (x : Loop × Bool). Ran l x.0 ((c, skips) ∷ [])) (sym (turn-skip a c l h))
              (skipped_turn c l),
        )
        | inl h ↦ elim (Option-cases (perform_step expand a c (begun a c l).executor).1) [
          | inl e ↦ absurd (differs (sym (turn-exit a c l h e) ∙ goes_on))
          | inr (r, e) ↦ (
            verdict r,
            subst (λ (x : Loop). Ran l x ((c, verdict r) ∷ [])) (sym (turn-run a c l r h e))
                (run_turn a c l r _),
          )
        ]
      ]
    where
      differs : ◌≡◌ {A = Bool} false true → ⊥
      differs k = ground arith

  -- a loop that goes to its end comes to a verdict on each command
  pub run_steps-Ran :
      (answers : ℕ → Answer) (i : ℕ) (cs : List Step) (l : Loop)
      → (run_steps expand answers i cs l).1 ≡ true
      → (vs : List (Step × Verdict)) × (steps_of vs ≡ cs)
        × Ran l (run_steps expand answers i cs l).0 vs
  unfolding run_steps
  run_steps-Ran answers i [] l h = ([], refl, Ran-nil l)
  run_steps-Ran answers i (c ∷ cs) l h = elim (Bool-cases (turn expand (answers i) c l).1) [
    | inr e ↦ absurd (differs (sym (rest e) ∙ h))
    | inl e ↦
        let l' = (turn expand (answers i) c l).0 in
        let (v, r) = turn-Ran (answers i) c l e in
        let (vs, p, s) = run_steps-Ran answers (suc i) cs l' (rw (e, run_steps) at h) in
        ((c, v) ∷ vs, ap (λ x. c ∷ x) p, rw (e, run_steps) (Ran-cons l l' _ c v vs r s))
  ]
    where
      rest :
          (turn expand (answers i) c l).1 ≡ false
          → (run_steps expand answers i (c ∷ cs) l).1 ≡ false
      rest e = rw (e, run_steps) refl

      differs : ◌≡◌ {A = Bool} false true → ⊥
      differs k = ground arith
