-- ===== src/Executor/Run/Complete.antt =====
-- What Executor.Run promises: it ends, it runs every task it can, it respects the dependencies, and its
-- error says whether some task failed.
use cirrus_cli.Prelude.{
  ℕ, zero, suc, ◌<◌, Bool, true, false, ◌≡◌, refl, ◌≢◌, ◌⊎◌, inl, inr, Option, none, some, List, [],
  ◌∷◌, All, In, subst, sym, ap, Option-cases, arith, All-In, All-map,
}
use cirrus_cli.Build.{new, failed, Task, task_status, get_task}
use cirrus_cli.Build.Next.{IsResolved, IsClosed, IsReady, IsBest}
use cirrus_cli.Executor.Rpc.{replace_task}
use cirrus_cli.Executor.Run.{
  Error, RunError, failure, Attempt, Runner, finished, run_single_task, run_task, run, stops,
}
use cirrus_cli.Executor.Run.Single.{SameTask, IsGreen}
use cirrus_cli.Executor.Run.Tasks.{
  count_new, In-get_task, get_task-In, In-replace_self, In-replace_ne,
}
use cirrus_cli.Executor.Run.Loop.{
  IsWellFormed, outcome_of, outcome_of-SameTask, first_after-cases, after, All-after,
  IsResolved-after, first_after, run_rule,
}

abbrev may_stop : Option Error → Bool
may_stop none = false
may_stop (some e) = stops e

abbrev run_may_stop : Option RunError → Bool
run_may_stop (some (failure e)) = stops e
run_may_stop _ = false

-- no error of the attempt comes from a cancelled context
pub record IsCalm (a : Attempt) : Type 0 where
  pub calm_start : may_stop a.start_error ≡ false
  pub calm_run : run_may_stop a.run_error ≡ false
  pub calm_close : may_stop a.close_error ≡ false

run_single_task-IsCalm :
    (r : Runner) (tasks : List Task) (a : Attempt) (t : Task)
    → IsCalm a
    → may_stop (run_single_task r tasks a t).1 ≡ false
unfolding run_single_task
run_single_task-IsCalm r tasks a t c = ground arith

-- a rank of the IDs that falls along every requirement, so that no task requires itself in the end
abbrev pub IsRanked : (ℕ → ℕ) → List Task → Type 0
IsRanked rank = All (λ t. All (λ j. rank j < rank t.id) t.required_ids)

module _ (rank : ℕ → ℕ) (tasks : List Task) (closed : IsClosed tasks tasks)
    (ranked : IsRanked rank tasks) (best : IsBest tasks tasks none) where
  none_new : (k : ℕ) (t : Task) → In t tasks → rank t.id < k → task_status t ≢ new
  none_new zero t m h = absurd (omega arith)
  none_new (suc k) t m h = λ n. best t m (record {
    unstarted = n;
    resolved =
        resolve t.required_ids
          (All-In t (λ v. All (λ j. get_task j tasks ≢ none) v.required_ids) tasks closed m)
          (All-In t (λ v. All (λ j. rank j < rank v.id) v.required_ids) tasks ranked m)
          (none_new k);
  })
    where
      resolve :
          (js : List ℕ)
          → All (λ j. get_task j tasks ≢ none) js
          → All (λ j. rank j < rank t.id) js
          → ((u : Task) → In u tasks → rank u.id < k → task_status u ≢ new)
          → All (IsResolved tasks) js
      resolve [] c p ih = tt
      resolve (j ∷ js) (c, cs) (p, ps) ih = elim (Option-cases (get_task j tasks)) [
        | inl e ↦ absurd (c e)
        | inr (u, e) ↦
            let (mu, same) = In-get_task j u tasks e in
            ((u, e, ih u mu (rw same (omega arith))), resolve js cs ps ih)
      ]

-- a task that was not yet run, or that ended well
abbrev pub IsNewOrGreen : Task → Type 0
IsNewOrGreen t = (task_status t ≡ new) ⊎ IsGreen (task_status t)

-- firstErr is nil as long as every task is new or ended well, and then some task has failed
abbrev pub IsVerdict : List Task → Option Error → Type 0
IsVerdict tasks none = All IsNewOrGreen tasks
IsVerdict tasks (some e) = (t : Task) × In t tasks × (task_status t ≡ failed)

-- a task as it was at the start, or one whose required tasks are all resolved
abbrev pub InOrder : List Task → List Task → Task → Type 0
InOrder start tasks v = In v start ⊎ All (IsResolved tasks) v.required_ids

module _ (r : Runner) (attempt : List Task → Task → Attempt) where
  run_task-goes_on :
      (tasks : List Task) (first : Option Error) (t : Task)
      → may_stop (run_single_task r tasks (attempt tasks t) t).1 ≡ false
      → (run_task r attempt tasks first t).2 ≡ true
  unfolding run_task
  run_task-goes_on tasks first t h = ground arith

  module _ (rank : ℕ → ℕ) (tasks : List Task) (wf : IsWellFormed tasks) where
    IsRanked-turn :
        (ts : List Task) (first : Option Error) (t : Task)
        → IsWellFormed ts
        → In t ts
        → IsReady ts t
        → IsRanked rank ts
        → IsRanked rank (replace_task t.id (outcome_of r attempt ts t) ts)
    IsRanked-turn ts first t w m ready h =
        All-after r attempt ts t w m ready P P (λ v p. p)
          (rw (s.same_id, s.same_required) (All-In t P ts h m)) h
      where
        P : Task → Type 0
        P v = All (λ j. rank j < rank v.id) v.required_ids

        s : SameTask t (outcome_of r attempt ts t)
        s = outcome_of-SameTask r attempt ts none t

    -- If the tasks have distinct IDs, every ID that one requires is that of a task, no ID requires itself
    -- in the end and no run is cancelled, Executor.Run ends without a panic, within as many turns as
    -- there are new tasks and one more, and leaves no task new.
    pub run_completes :
        (fuel : ℕ)
        → count_new tasks < fuel
        → IsRanked rank tasks
        → ((ts : List Task) (t : Task) → IsCalm (attempt ts t))
        → (ts : List Task) × (e : Option Error) × (run r attempt fuel tasks none ≡ finished ts e)
          × ((t : Task) → In t ts → task_status t ≢ new)
    run_completes fuel enough ranked calm =
        let (ts, e, ends, w, k, why) =
          run_rule r attempt (λ ts _. IsRanked rank ts) IsRanked-turn fuel tasks none wf enough
            ranked in
        (
          ts,
          e,
          ends,
          elim why [
            | inl best ↦ λ t m. none_new rank ts w.closed k best (suc (rank t.id)) t m (omega arith)
            | inr (us, first, t, h) ↦ absurd (
                cc (
                  h,
                  run_task-goes_on us first t
                      (run_single_task-IsCalm r us (attempt us t) t (calm us t)),
                ))
          ],
        )

  module _ (start : List Task) where
    InOrder-turn :
        (ts : List Task) (first : Option Error) (t : Task)
        → IsWellFormed ts
        → In t ts
        → IsReady ts t
        → All (InOrder start ts) ts
        → All
            (InOrder start (replace_task t.id (outcome_of r attempt ts t) ts))
            (replace_task t.id (outcome_of r attempt ts t) ts)
    InOrder-turn ts first t w m ready h =
        All-after r attempt ts t w m ready (InOrder start ts) (InOrder start ts') keep
          (inr (
            subst (All (IsResolved ts')) (sym s.same_required)
              (kept t.required_ids ready.resolved)))
          h
      where
        ts' : List Task
        ts' = after r attempt ts t w m ready

        s : SameTask t (outcome_of r attempt ts t)
        s = outcome_of-SameTask r attempt ts none t

        kept : (js : List ℕ) → All (IsResolved ts) js → All (IsResolved ts') js
        kept js =
            All-map (IsResolved ts) (IsResolved ts') js (IsResolved-after r attempt ts t w m ready)

        keep : (v : Task) → InOrder start ts v → InOrder start ts' v
        keep v (inl p) = inl p
        keep v (inr p) = inr (kept v.required_ids p)

    start-InOrder :
        (ts : List Task) → ((t : Task) → In t ts → In t start) → All (InOrder start start) ts
    start-InOrder [] f = tt
    start-InOrder (t ∷ ts) f = (inl (f t (inl refl)), start-InOrder ts (λ u m. f u (inr m)))

    -- If the tasks have distinct IDs and every ID that one requires is that of a task, Executor.Run ends
    -- without a panic, within as many turns as there are new tasks and one more, also when runs fail or
    -- are cancelled; each task is then as it was at the start, or every task that it requires has left
    -- the new state.
    pub run-InOrder :
        (fuel : ℕ)
        → IsWellFormed start
        → count_new start < fuel
        → (ts : List Task) × (e : Option Error) × (run r attempt fuel start none ≡ finished ts e)
          × All (InOrder start ts) ts
    run-InOrder fuel wf enough =
        let (ts, e, ends, _, k, _) =
          run_rule r attempt (λ ts _. All (InOrder start ts) ts) InOrder-turn fuel start none wf
            enough (start-InOrder start (λ t m. m)) in
        (ts, e, ends, k)

  module _ (ts : List Task) (t : Task) (w : IsWellFormed ts) (m : In t ts)
      (ready : IsReady ts t) where
    new_id : (v : Task) → In v ts → task_status v ≡ failed → v.id ≢ t.id
    new_id v n f e =
        let found : get_task v.id ts ≡ some v = get_task-In v ts w.distinct n in
        let found_t : get_task t.id ts ≡ some t = get_task-In t ts w.distinct m in
        ground (arith, ready.unstarted, ap (λ i. get_task i ts) e)

    IsVerdict-turn :
        (first : Option Error)
        → IsVerdict ts first
        → IsVerdict (after r attempt ts t w m ready) (first_after r attempt ts first t)
    IsVerdict-turn none h = elim (first_after-cases r attempt ts none t) [
      | inl (e, green) ↦
          rw e
            (All-after r attempt ts t w m ready IsNewOrGreen IsNewOrGreen (λ v p. p) (inr green) h)
      | inr (x, e, f) ↦ rw e (outcome_of r attempt ts t, here none, f)
    ]
      where
        here :
            (first : Option Error) → In (outcome_of r attempt ts t) (after r attempt ts t w m ready)
        here first =
            In-replace_self t (outcome_of r attempt ts t)
              (outcome_of-SameTask r attempt ts first t).same_id ts (get_task-In t ts w.distinct m)
    IsVerdict-turn (some x) (v, n, f) = elim (first_after-cases r attempt ts (some x) t) [
      | inl (e, _) ↦ rw e (v, there, f)
      | inr (y, e, _) ↦ rw e (v, there, f)
    ]
      where
        there : In v (after r attempt ts t w m ready)
        there =
            In-replace_ne t (outcome_of r attempt ts t)
              (outcome_of-SameTask r attempt ts none t).same_id v ts (new_id v n f) n

  -- If the tasks have distinct IDs, every ID that one requires is that of a task, and at the start each
  -- task is new, has succeeded or was skipped, Executor.Run ends without a panic, within as many
  -- turns as there are new tasks and one more. If its error is nil, each task is then new, has
  -- succeeded or was skipped, and if it is not nil, some task has failed.
  pub run-IsVerdict :
      (fuel : ℕ) (tasks : List Task)
      → IsWellFormed tasks
      → count_new tasks < fuel
      → All IsNewOrGreen tasks
      → (ts : List Task) × (e : Option Error) × (run r attempt fuel tasks none ≡ finished ts e)
        × IsVerdict ts e
  run-IsVerdict fuel tasks wf enough green =
      let (ts, e, ends, _, k, _) =
        run_rule r attempt IsVerdict
          (λ ts first t w m ready h. IsVerdict-turn ts t w m ready first h) fuel tasks none wf
          enough green in
      (ts, e, ends, k)
