-- ===== src/Executor/Run/Single.antt =====
-- What one turn of Executor.Run does to the task that it runs.
use cirrus_cli.Prelude.{
  ◌≡◌, refl, ◌≢◌, ◌⊎◌, inl, inr, Option, none, some, List, [], ◌∷◌, Option-cases, Bool-cases, arith,
}
use cirrus_cli.Build.{
  TaskStatus, new, succeeded, failed, timed_out, skipped, Task, task_status, set_status,
}
use cirrus_cli.Executor.Rpc.{CommandResult, report_updates}
use cirrus_cli.Executor.Run.{
  Error, RunError, no_heartbeats, task_deadline, unsupported_instance, failure, Attempt, Runner,
  is_misplaced, receive, after_run, verdict, or_close, run_instance, run_single_task,
}

-- what a run leaves alone
pub record SameTask (t u : Task) : Type 0 where
  pub same_id : u.id ≡ t.id
  pub same_required : u.required_ids ≡ t.required_ids
  pub same_instance : u.instance_of ≡ t.instance_of

abbrev pub IsGreen : TaskStatus → Type 0
IsGreen s = (s ≡ succeeded) ⊎ (s ≡ skipped)

receive-SameTask : (batches : List (List CommandResult)) (t : Task) → SameTask t (receive batches t)
unfolding receive
receive-SameTask [] t = record { same_id = refl; same_required = refl; same_instance = refl }
receive-SameTask (us ∷ batches) t =
    let s = receive-SameTask batches (record t { commands = (report_updates us t.commands).0 }) in
    record { same_id = s.same_id; same_required = s.same_required; same_instance = s.same_instance }

after_run-SameTask :
    (e : Option RunError) (t u : Task) → SameTask t u → SameTask t (after_run e u).0
after_run-SameTask none t u s = s
after_run-SameTask (some no_heartbeats) t u s = ground arith
after_run-SameTask (some task_deadline) t u s = ground arith
after_run-SameTask (some unsupported_instance) t u s = ground arith
after_run-SameTask (some (failure e)) t u s = s

run_instance-SameTask : (a : Attempt) (t : Task) → SameTask t (run_instance a t).0
unfolding run_instance
run_instance-SameTask a t =
    ground
      (arith, after_run-SameTask a.run_error t (receive a.reports t) (receive-SameTask a.reports t))

-- A run changes neither the ID of its task, nor what it requires, nor its instance.
pub run_single_task-SameTask :
    (r : Runner) (tasks : List Task) (a : Attempt) (t : Task)
    → SameTask t (run_single_task r tasks a t).0
unfolding run_single_task
run_single_task-SameTask r tasks a t = ground (arith, run_instance-SameTask a t)

verdict-none : (s : TaskStatus) → verdict s ≡ none → IsGreen s
verdict-none succeeded h = inl refl
verdict-none skipped h = inr refl
verdict-none new h = cc
verdict-none failed h = cc
verdict-none timed_out h = cc

pub set_status_lem : (s : TaskStatus) (t : Task) → s ≢ new → task_status (set_status s t) ≡ s
unfolding task_status
set_status_lem new t h = absurd (h refl)
set_status_lem succeeded t h = refl
set_status_lem failed t h = refl
set_status_lem timed_out t h = refl
set_status_lem skipped t h = refl

or_close-none : (s : TaskStatus) (c : Option Error) → or_close (verdict s) c ≡ none → IsGreen s
or_close-none s c h = verdict-none s (ground arith)

run_instance-IsGreen :
    (a : Attempt) (t : Task)
    → (run_instance a t).1 ≡ none
    → IsGreen (task_status (run_instance a t).0)
unfolding run_instance
run_instance-IsGreen a t h = elim (Option-cases (after_run a.run_error (receive a.reports t)).1) [
  | inl e ↦ rw (e, run_instance) (or_close-none _ a.close_error (ground (arith, e)))
  | inr (x, e) ↦ absurd (ground (arith, e))
]

-- A run that returns no error leaves its task succeeded or skipped.
pub run_single_task-IsGreen :
    (r : Runner) (tasks : List Task) (a : Attempt) (t : Task)
    → (run_single_task r tasks a t).1 ≡ none
    → IsGreen (task_status (run_single_task r tasks a t).0)
unfolding run_single_task
run_single_task-IsGreen r tasks a t h = elim (Bool-cases (is_misplaced r tasks t)) [
  | inl e ↦ rw e (inr (set_status_lem skipped t (λ p. cc)))
  | inr e ↦ elim (Option-cases a.start_error) [
    | inl n ↦ rw (e, n) (run_instance-IsGreen a t (ground (arith, e, n)))
    | inr (x, n) ↦ absurd (ground (arith, e, n))
  ]
]
