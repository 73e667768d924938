-- ===== src/Executor/Run/Loop.antt =====
-- The loop of Executor.Run ends, and keeps what every turn keeps.
use cirrus_cli.Prelude.{
  ℕ, zero, suc, ◌<◌, true, false, ◌≡◌, ◌≢◌, ◌⊎◌, inl, inr, Option, none, some, List, All, In,
  Option-cases, Bool-cases, arith, All-In, All-map, if◌then◌else◌, ◌==◌, Outcome, returns,
}
use cirrus_cli.Build.{new, failed, Task, task_status, set_status, get_task, get_next_task}
use cirrus_cli.Build.Next.{IsResolved, IsClosed, IsReady, IsBest, get_next_task-IsBest}
use cirrus_cli.Executor.Rpc.{replace_task}
use cirrus_cli.Executor.Run.{
  Error, Attempt, Runner, Ending, finished, run_single_task, run_task, run, or_first,
}
use cirrus_cli.Executor.Run.Single.{
  SameTask, IsGreen, set_status_lem, run_single_task-SameTask, run_single_task-IsGreen,
}
use cirrus_cli.Executor.Run.Tasks.{
  Distinct, count_new, get_task-In, get_task-replace, Distinct-replace, All-replace,
  count_new-replace,
}

-- IDs are distinct, and every required ID names a task of the build
pub record IsWellFormed (tasks : List Task) : Type 0 where
  pub distinct : Distinct tasks
  pub closed : IsClosed tasks tasks

module _ (r : Runner) (attempt : List Task → Task → Attempt) where
  -- the task as a turn leaves it
  pub outcome_of : List Task → Task → Task
  outcome_of tasks t = elim (run_single_task r tasks (attempt tasks t) t).1 [
    | none ↦ (run_single_task r tasks (attempt tasks t) t).0
    | some e ↦ set_status failed (run_single_task r tasks (attempt tasks t) t).0
  ]

  module _ (tasks : List Task) (first : Option Error) (t : Task) where
    run_task-replace :
        (run_task r attempt tasks first t).0 ≡ replace_task t.id (outcome_of tasks t) tasks
    unfolding run_task outcome_of
    run_task-replace = ground arith

    pub outcome_of-SameTask : SameTask t (outcome_of tasks t)
    unfolding outcome_of
    outcome_of-SameTask = ground (arith, run_single_task-SameTask r tasks (attempt tasks t) t)

    outcome_of-IsGreen :
        (run_single_task r tasks (attempt tasks t) t).1 ≡ none
        → IsGreen (task_status (outcome_of tasks t))
    unfolding outcome_of
    outcome_of-IsGreen e =
        rw (e, outcome_of) (run_single_task-IsGreen r tasks (attempt tasks t) t e)

    outcome_of-failed :
        (x : Error)
        → (run_single_task r tasks (attempt tasks t) t).1 ≡ some x
        → task_status (outcome_of tasks t) ≡ failed
    unfolding outcome_of
    outcome_of-failed x e =
        rw (e, outcome_of)
          (set_status_lem failed (run_single_task r tasks (attempt tasks t) t).0 (λ p. cc))

    -- a turn without an error leaves its task green and firstErr alone; one with an error marks the
    -- task as failed
    pub first_after-cases :
        (((run_task r attempt tasks first t).1 ≡ first)
          × IsGreen (task_status (outcome_of tasks t)))
        ⊎ ((e : Error) × ((run_task r attempt tasks first t).1 ≡ or_first first e)
            × (task_status (outcome_of tasks t) ≡ failed))
    unfolding run_task
    first_after-cases = elim (Option-cases (run_single_task r tasks (attempt tasks t) t).1) [
      | inl e ↦ inl (ground arith, outcome_of-IsGreen e)
      | inr (x, e) ↦ inr (x, ground arith, outcome_of-failed x e)
    ]

    pub outcome_of-done : task_status (outcome_of tasks t) ≢ new
    outcome_of-done = ground (arith, first_after-cases)

  -- one turn, at a ready task of a well-formed build
  module _ (tasks : List Task) (t : Task) (wf : IsWellFormed tasks) (m : In t tasks)
      (ready : IsReady tasks t) where
    abbrev pub after : List Task
    after = replace_task t.id (outcome_of tasks t) tasks

    found : get_task t.id tasks ≡ some t
    found = get_task-In t tasks wf.distinct m

    lookup-after :
        (j : ℕ)
        → get_task j after ≡ (if t.id == j then some (outcome_of tasks t) else get_task j tasks)
    lookup-after j =
        get_task-replace t (outcome_of tasks t) (outcome_of-SameTask tasks none t).same_id j tasks
          found

    -- what was resolved stays resolved
    pub IsResolved-after : (j : ℕ) → IsResolved tasks j → IsResolved after j
    IsResolved-after j (u, e, n) = elim (Bool-cases (t.id == j)) [
      | inl p ↦ (outcome_of tasks t, rw (lookup-after j, p), outcome_of-done tasks none t)
      | inr p ↦ (u, rw (lookup-after j, p) e, n)
    ]

    present-after : (j : ℕ) → get_task j tasks ≢ none → get_task j after ≢ none
    present-after j h e = ground (arith, lookup-after j)

    -- a property of tasks that survives the turn, and that the turn's own task comes to have
    pub All-after :
        (P Q : Task → Type 0)
        → ((v : Task) → P v → Q v)
        → Q (outcome_of tasks t)
        → All P tasks
        → All Q after
    All-after P Q f q h = All-replace t (outcome_of tasks t) same Q tasks q (All-map P Q tasks f h)
      where
        same : (outcome_of tasks t).id ≡ t.id
        same = (outcome_of-SameTask tasks none t).same_id

    IsWellFormed-after : IsWellFormed after
    IsWellFormed-after = record {
      distinct = Distinct-replace t (outcome_of tasks t) s.same_id tasks wf.distinct;
      closed =
          All-after (λ v. All (λ j. get_task j tasks ≢ none) v.required_ids)
            (λ v. All (λ j. get_task j after ≢ none) v.required_ids) (λ v h. keep v.required_ids h)
            (keep (outcome_of tasks t).required_ids (
              rw s.same_required (
                All-In t (λ v. All (λ j. get_task j tasks ≢ none) v.required_ids) tasks wf.closed
                  m)))
            wf.closed;
    }
      where
        s : SameTask t (outcome_of tasks t)
        s = outcome_of-SameTask tasks none t

        keep :
            (js : List ℕ)
            → All (λ j. get_task j tasks ≢ none) js
            → All (λ j. get_task j after ≢ none) js
        keep js =
            All-map (λ j. get_task j tasks ≢ none) (λ j. get_task j after ≢ none) js present-after

    count_new-after : count_new after < count_new tasks
    count_new-after =
        count_new-replace t (outcome_of tasks t) (outcome_of-SameTask tasks none t).same_id tasks
          found ready.unstarted (outcome_of-done tasks none t)

  -- the error that a turn leaves in firstErr
  abbrev pub first_after : List Task → Option Error → Task → Option Error
  first_after tasks first t = (run_task r attempt tasks first t).1

  -- an error of some turn has told the loop to stop
  abbrev pub IsStopped : Type 0
  IsStopped =
      (tasks : List Task) × (first : Option Error) × (t : Task) × ((run_task r attempt tasks first
          t).2
        ≡ false)

  -- how the loop ends: P holds, and either nothing is ready or an error has stopped the loop
  abbrev pub Finishes : (List Task → Option Error → Type 0) → Ending → Type 0
  Finishes P ending =
      (tasks : List Task) × (e : Option Error) × (ending ≡ finished tasks e)
      × IsWellFormed tasks
      × P tasks e
      × (IsBest tasks tasks none ⊎ IsStopped)

  module _ (fuel : ℕ) (tasks : List Task) (first : Option Error) where
    abbrev next : Outcome (Option Task)
    next = get_next_task (record { tasks = tasks })

    run-end : next ≡ returns none → run r attempt (suc fuel) tasks first ≡ finished tasks first
    unfolding run
    run-end e = ground arith

    module _ (t : Task) (e : next ≡ returns (some t)) where
      run-stop :
          (run_task r attempt tasks first t).2 ≡ false
          → run r attempt (suc fuel) tasks first
            ≡ finished (replace_task t.id (outcome_of tasks t) tasks) (first_after tasks first t)
      unfolding run
      run-stop h = ground (arith, run_task-replace tasks first t)

      run-go :
          (run_task r attempt tasks first t).2 ≡ true
          → run r attempt (suc fuel) tasks first
            ≡ run r attempt fuel
                (replace_task t.id (outcome_of tasks t) tasks)
                (first_after tasks first t)
      unfolding run
      run-go h = ground (arith, run_task-replace tasks first t)

  -- what every turn keeps holds at the end, which is reached within the fuel
  pub run_rule :
      (P : List Task → Option Error → Type 0)
      → ((tasks : List Task) (first : Option Error) (t : Task)
          → IsWellFormed tasks
          → In t tasks
          → IsReady tasks t
          → P tasks first
          → P (replace_task t.id (outcome_of tasks t) tasks) (first_after tasks first t))
      → (fuel : ℕ) (tasks : List Task) (first : Option Error) → IsWellFormed tasks
      → count_new tasks < fuel
      → P tasks first
      → Finishes P (run r attempt fuel tasks first)
  run_rule P step zero tasks first wf c p = absurd (omega arith)
  run_rule P step (suc fuel) tasks first wf c p =
      let (o, e, best) = get_next_task-IsBest (record { tasks = tasks }) wf.closed in
      go o e best (run_rule P step fuel)
    where
      go :
          (o : Option Task)
          → next fuel tasks first ≡ returns o
          → IsBest tasks tasks o
          → ((tasks' : List Task) (first' : Option Error)
              → IsWellFormed tasks'
              → count_new tasks' < fuel
              → P tasks' first'
              → Finishes P (run r attempt fuel tasks' first'))
          → Finishes P (run r attempt (suc fuel) tasks first)
      go none e b ih = (tasks, first, run-end fuel tasks first e, wf, p, inl b)
      go (some t) e (m, ready, _) ih = elim (Bool-cases (run_task r attempt tasks first t).2) [
        | inl h ↦ rw (run-go fuel tasks first t e h) (
            ih (after tasks t wf m ready) (first_after tasks first t)
              (IsWellFormed-after tasks t wf m ready)
              (omega (arith, count_new-after tasks t wf m ready)) (step tasks first t wf m ready p))
        | inr h ↦ (
          after tasks t wf m ready,
          first_after tasks first t,
          run-stop fuel tasks first t e h,
          IsWellFormed-after tasks t wf m ready,
          step tasks first t wf m ready p,
          inr (tasks, first, t, h),
        )
      ]
