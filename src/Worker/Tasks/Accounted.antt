-- ===== src/Worker/Tasks/Accounted.antt =====
-- internal/worker: what becomes of the tasks of a worker over its moves.
use cirrus_cli.Prelude.{
  ℕ, ◌+◌, ◌≤◌, String, Bool, false, Option, none, some, List, [], ◌∷◌, ◌≡◌, refl, ◌∙◌, sym, ap,
  arith, Outcome, returns, panics, ◌>>=◌, Option-cases, All, eq_refl, inl, inr,
}
use cirrus_cli.Worker.Api.{Api}
use cirrus_cli.Worker.Resources.{Amounts}
use cirrus_cli.Worker.Tasks.{
  Worker, AgentAwareTask, load, name_of, start_task, end_task, take_goroutine, stop_task,
  register_task_completions, new_worker, begin_task, get_instance, new_instance,
}
use cirrus_cli.Worker.Tasks.Moves.{
  Move, starts, creates_standby, ends, stops, registers, updates, step, run,
}
use cirrus_cli.Worker.Tasks.Invariant.{Invariant, listed, occurs, ids}
use cirrus_cli.Worker.Tasks.Safe.{IsSafe, IsAllowed, Safe}
use cirrus_cli.Worker.Tasks.Standby.{try_create_standby-Safe, update_standby-settings}
use cirrus_cli.Worker.Tasks.Acquired.{get_instance-Acquired, acquiring}
use cirrus_cli.Worker.Tasks.Conserved.{
  register-Invariant, start_task-Safe, start_task-new, start_task-old, stored, step-Safe, run-Safe,
  new_worker-Safe,
}

listed-at_most_one : {V : Type 0} (k : String) (m : List (String × V)) → listed k m ≤ 1
listed-at_most_one k m = ground arith

module _ (A : Api) where
  end_task-failures : (k : String) (w : Worker A) → (end_task A k w).failures ≡ w.failures
  unfolding end_task
  end_task-failures k w = elim (Option-cases (take_goroutine k w.running)) [
    | inl e ↦ rw (e, end_task) refl
    | inr (p, e) ↦ rw (e, end_task) refl
  ]

  stop_task-failures : (k : String) (w : Worker A) → (stop_task A k w).failures ≡ w.failures
  unfolding stop_task
  stop_task-failures k w = elim (Option-cases (load k w.tasks)) [
    | inl e ↦ rw (e, stop_task) refl
    | inr (p, e) ↦ rw (e, stop_task) refl
  ]

  abbrev failures_in : String → Worker A → Outcome (Worker A) → ℕ
  failures_in k w (returns v) = occurs k v.failures
  failures_in k w panics = occurs k w.failures

  begin_task-failures :
      (j k : String) (r : Worker A × Option ℕ)
      → occurs k (r.0).failures ≤ occurs k (begin_task A j r).failures
  unfolding begin_task occurs
  begin_task-failures j k (w, none) = ground arith
  begin_task-failures j k (w, some n) = ground arith

  start_task-failures :
      (k : String) (upstream : ℕ) (t : AgentAwareTask A) (answer : Bool) (w : Worker A)
      → Invariant A w
      → occurs k w.failures ≤ failures_in k w (start_task A upstream t answer w)
  start_task-failures k upstream t answer w h = elim (Option-cases (load (name_of A t) w.tasks)) [
    | inr (old, e) ↦
        omega (arith, ap (failures_in k w) (start_task-old A upstream t answer w old e))
    | inl e ↦
        let (r, d, a) =
          get_instance-Acquired A t.isolation answer (stored A upstream t w)
            (record { guarded = h.guarded; owned = h.owned }) in
        omega (
          arith,
          ap (failures_in k w) (start_task-new A upstream t answer w e),
          ap (λ o. failures_in k w (o >>= λ q. returns (begin_task A (name_of A t) q))) d,
          ap (occurs k) a.failures,
          begin_task-failures (name_of A t) k r,
        )
  ]

  module _ (resources : Option (Amounts A)) where
    step-failures :
        (k : String) (m : Move A) (w : Worker A)
        → Safe A resources w
        → occurs k w.failures ≤ failures_in k w (step A m w)
    unfolding step
    step-failures k (creates_standby c d) w s =
        let (r, e, _, f) = try_create_standby-Safe A resources c d w s in
        omega (arith, ap (λ o. failures_in k w (o >>= λ q. returns q.0)) e, ap (occurs k) f)
    step-failures k (starts upstream t answer) w s =
        start_task-failures k upstream t answer w s.invariant
    step-failures k (ends j) w s = omega (arith, ap (occurs k) (end_task-failures j w))
    step-failures k (stops j) w s = omega (arith, ap (occurs k) (stop_task-failures j w))
    step-failures k registers w s = unfold register_task_completions in omega arith
    step-failures k (updates p) w s =
        let (_, _, f) = update_standby-settings A p w in omega (arith, ap (occurs k) f)

    run-failures :
        (k : String) (ms : List (Move A)) (w v : Worker A)
        → All (IsAllowed A resources) ms
        → Safe A resources w
        → run A ms w ≡ returns v
        → occurs k w.failures ≤ occurs k v.failures
    unfolding run
    run-failures k [] w v a s e = omega (arith, ap (failures_in k w) e)
    run-failures k (m ∷ ms) w v (a, as') s e =
        let (u, d, t) = step-Safe A resources m w a s in
        omega (
          arith,
          step-failures k m w s,
          ap (failures_in k w) d,
          run-failures k ms u v as' t (sym (ap (λ o. o >>= run A ms) d) ∙ e),
        )

    -- Once startTask failed to get an instance for a task of a safe worker, that task stays in the map
    -- of the tasks whatever allowed moves follow, and no goroutine runs it and no ID of it is being
    -- sent.
    pub failed-stays :
        (k : String) (w : Worker A) (ms : List (Move A))
        → All (IsAllowed A resources) ms
        → Safe A resources w
        → 1 ≤ occurs k w.failures
        → (v : Worker A) × (run A ms w ≡ returns v)
          × (listed k v.tasks ≡ 1)
          × (occurs k (ids v.running) ≡ 0)
          × (occurs k v.completions ≡ 0)
    failed-stays k w ms a s f =
        let (v, e, t) = run-Safe A resources ms w a s in
        let g = t.invariant in
        let kept : 1 ≤ occurs k v.failures = omega (arith, f, run-failures k ms w v a s e) in
        let placed : occurs k (ids v.running) + occurs k v.completions + occurs k v.failures ≤ 1 =
          omega (arith, g.placed k, listed-at_most_one k v.tasks) in
        (
          v,
          e,
          omega (arith, kept, g.placed k, listed-at_most_one k v.tasks),
          omega (arith, kept, placed),
          omega (arith, kept, placed),
        )

  -- A new worker makes a sequence of moves without a panic, if the parameters of its standby instance
  -- and those of every UpdateStandby among the moves, where there are any, are of an isolation whose
  -- instances have Warmup, and come with resources that are not nil. At the end of it, every instance
  -- that was created is held exactly once, as the standby instance, by one goroutine of a task or
  -- among those closed; a standby instance has its parameters; and a task is in the map of the tasks
  -- exactly if one goroutine runs it, its ID is being sent to taskCompletions or startTask failed to
  -- get it an instance, and only one of these holds, once.
  pub run-conserves :
      (resources : Option (Amounts A)) (parameters : Option A.Parameters) (ms : List (Move A))
      → IsSafe A resources parameters
      → All (IsAllowed A resources) ms
      → (w : Worker A) × (run A ms (new_worker A resources parameters) ≡ returns w) × Invariant A w
  run-conserves resources parameters ms p a =
      let (v, e, s) =
        run-Safe A resources ms (new_worker A resources parameters) a
          (new_worker-Safe A resources parameters p) in
      (v, e, s.invariant)

  -- When the goroutines of all tasks have ended, registerTaskCompletions leaves exactly the tasks
  -- that startTask failed to get an instance for.
  pub registered-failures :
      (k : String) (w : Worker A)
      → Invariant A w
      → w.running ≡ []
      → listed k (register_task_completions A w).tasks ≡ occurs k w.failures
  unfolding register_task_completions occurs
  registered-failures k w h e =
      let g = register-Invariant A w h in omega (arith, g.placed k, ap (λ r. occurs k (ids r)) e)

  start_task-fails :
      (upstream : ℕ) (t : AgentAwareTask A) (w : Worker A)
      → load (name_of A t) w.tasks ≡ none
      → w.standby_instance ≡ none
      → start_task A upstream t false w
        ≡ returns (record (stored A upstream t w) { failures = name_of A t ∷ w.failures })
  unfolding get_instance begin_task new_instance
  start_task-fails upstream t w e d =
      start_task-new A upstream t false w e
      ∙ ap
          (λ o.
            acquiring A t.isolation false (stored A upstream t w) o w.standby_parameters >>= λ r.
            returns (begin_task A (name_of A t) r))
          d

  -- Of a safe worker without a standby instance: once it is sent a task that is not in the map of the
  -- tasks and persistentworker.New fails for it, that task stays in the map whatever allowed moves
  -- follow, which do not panic, and it has no goroutine and its ID is not being sent to
  -- taskCompletions. A worker is safe if it has the invariant, and the parameters of its standby
  -- instance, if any, are of an isolation whose instances have Warmup and come with resources that are
  -- not nil; moves are allowed if so are the parameters of every UpdateStandby.
  pub failed_start-stays :
      (resources : Option (Amounts A)) (upstream : ℕ) (t : AgentAwareTask A) (w : Worker A)
      → (ms : List (Move A)) → All (IsAllowed A resources) ms
      → Safe A resources w
      → load (name_of A t) w.tasks ≡ none
      → w.standby_instance ≡ none
      → (v : Worker A) × (run A (starts upstream t false ∷ ms) w ≡ returns v)
        × (listed (name_of A t) v.tasks ≡ 1)
        × (occurs (name_of A t) (ids v.running) ≡ 0)
        × (occurs (name_of A t) v.completions ≡ 0)
  unfolding run step occurs
  failed_start-stays resources upstream t w ms a s e d =
      let k = name_of A t in
      let (u, p, q) = start_task-Safe A resources upstream t false w s in
      let failed : 1 ≤ occurs k u.failures =
        ground
          (arith, ap (failures_in k w) (sym p ∙ start_task-fails upstream t w e d), eq_refl k) in
      let (v, r, l, o, c) = failed-stays resources k u ms a q failed in
      (v, ap (λ o. o >>= run A ms) p ∙ r, l, o, c)
