-- ===== src/Worker/Tasks/Conserved.antt =====
-- internal/worker: every allowed move keeps the worker safe, and none panics.
use cirrus_cli.Prelude.{
  ℕ, ◌+◌, String, Bool, true, false, Option, none, some, List, [], ◌∷◌, if◌then◌else◌, str_eq, ◌≡◌,
  inl, inr, refl, arith, ◌==◌, eq_iff, Option-cases, ap, Outcome, returns, ◌>>=◌, ◌∙◌, All,
}
use cirrus_cli.Worker.Api.{Api}
use cirrus_cli.Worker.Resources.{Amounts}
use cirrus_cli.Worker.Tasks.{
  Worker, Task, AgentAwareTask, load, store, take_goroutine, get_instance, begin_task, name_of,
  start_task, end_task, stop_task, register_task_completions, new_worker,
}
use cirrus_cli.Worker.Tasks.Moves.{
  Move, creates_standby, starts, ends, stops, registers, updates, step, run,
}
use cirrus_cli.Worker.Tasks.Invariant.{
  times, occurs, ids, instances, listed, Invariant, load-store, listed-delete_all, listed-store_new,
}
use cirrus_cli.Worker.Tasks.Acquired.{Acquired, get_instance-Acquired}
use cirrus_cli.Worker.Tasks.Safe.{IsSafe, IsAllowed, Safe, keep-Safe}
use cirrus_cli.Worker.Tasks.Standby.{try_create_standby-Safe, update_standby-Safe}

pub take_goroutine-ids :
    (j k : String) (gs hs : List (String × ℕ)) (n : ℕ)
    → take_goroutine k gs ≡ some (hs, n)
    → occurs j (ids gs) ≡ (if str_eq k j then 1 else 0) + occurs j (ids hs)
unfolding take_goroutine occurs
take_goroutine-ids j k [] hs n h = ground arith
take_goroutine-ids j k ((i, m) ∷ gs) hs n h = elim (Option-cases (take_goroutine k gs)) [
  | inl e ↦ ground (arith, h, e, eq_iff i k, eq_iff i j, eq_iff k j)
  | inr ((fs, p), e) ↦
      ground (arith, h, e, take_goroutine-ids j k gs fs p e, eq_iff i k, eq_iff i j, eq_iff k j)
]

pub take_goroutine-instances :
    (i : ℕ) (k : String) (gs hs : List (String × ℕ)) (n : ℕ)
    → take_goroutine k gs ≡ some (hs, n)
    → times i (instances gs) ≡ (if n == i then 1 else 0) + times i (instances hs)
unfolding take_goroutine times
take_goroutine-instances i k [] hs n h = ground arith
take_goroutine-instances i k ((j, m) ∷ gs) hs n h = elim (Option-cases (take_goroutine k gs)) [
  | inl e ↦ ground (arith, h, e)
  | inr ((fs, p), e) ↦ ground (arith, h, e, take_goroutine-instances i k gs fs p e)
]

module _ (A : Api) where
  pub new_worker-Invariant :
      (resources : Option (Amounts A)) (parameters : Option A.Parameters)
      → Invariant A (new_worker A resources parameters)
  unfolding times occurs load
  new_worker-Invariant resources parameters = record {
    guarded = inl refl;
    owned = λ n. ground arith;
    placed = λ k. refl;
  }

  pub stop_task-Invariant :
      (k : String) (w : Worker A) → Invariant A w → Invariant A (stop_task A k w)
  unfolding stop_task
  stop_task-Invariant k w h = elim (Option-cases (load k w.tasks)) [
    | inl e ↦ rw (e, stop_task) h
    | inr (t, e) ↦
        rw (e, stop_task)
          (record {
            guarded = h.guarded;
            owned = h.owned;
            placed = λ j. ground (
              arith,
              h.placed j,
              load-store j k (record t { cancelled = true }) w.tasks,
              e,
              eq_iff k j,
            );
          })
  ]

  pub register-Invariant :
      (w : Worker A) → Invariant A w → Invariant A (register_task_completions A w)
  unfolding register_task_completions occurs
  register-Invariant w h = record {
    guarded = h.guarded;
    owned = h.owned;
    placed = λ k. ground (arith, h.placed k, listed-delete_all A k w.completions w.tasks);
  }

  end_task-Invariant : (k : String) (w : Worker A) → Invariant A w → Invariant A (end_task A k w)
  unfolding end_task occurs times
  end_task-Invariant k w h = elim (Option-cases (take_goroutine k w.running)) [
    | inl e ↦ rw (e, end_task) h
    | inr ((gs, n), e) ↦
        rw (e, end_task)
          (record {
            guarded = h.guarded;
            owned = λ i. omega (arith, h.owned i, take_goroutine-instances i k w.running gs n e);
            placed = λ j. omega (arith, h.placed j, take_goroutine-ids j k w.running gs n e);
          })
  ]

  -- the worker in which startTask looks for an instance
  abbrev pub stored : ℕ → AgentAwareTask A → Worker A → Worker A
  stored upstream t w = record w {
    tasks =
        store (name_of A t)
          (record { upstream = upstream; resources_to_use = t.resources; cancelled = false })
          w.tasks;
  }

  begin_task-Invariant :
      (upstream : ℕ) (t : AgentAwareTask A) (w : Worker A) (r : Worker A × Option ℕ)
      → Invariant A w
      → load (name_of A t) w.tasks ≡ none
      → Acquired A (stored upstream t w) r
      → Invariant A (begin_task A (name_of A t) r)
  unfolding begin_task times occurs
  begin_task-Invariant upstream t w (v, none) h e a = record {
    guarded = a.guarded;
    owned = λ n. omega (arith, a.owned n, ap (λ g. times n (instances g)) a.running);
    placed = λ k. omega (
      arith,
      h.placed k,
      ap (λ g. occurs k (ids g)) a.running,
      ap (occurs k) a.completions,
      ap (occurs k) a.failures,
      ap (listed k) a.tasks,
      listed-store_new k (name_of A t)
          (record { upstream = upstream; resources_to_use = t.resources; cancelled = false })
          w.tasks e,
    );
  }
  begin_task-Invariant upstream t w (v, some n) h e a = record {
    guarded = a.guarded;
    owned = λ n. omega (arith, a.owned n, ap (λ g. times n (instances g)) a.running);
    placed = λ k. omega (
      arith,
      h.placed k,
      ap (λ g. occurs k (ids g)) a.running,
      ap (occurs k) a.completions,
      ap (occurs k) a.failures,
      ap (listed k) a.tasks,
      listed-store_new k (name_of A t)
          (record { upstream = upstream; resources_to_use = t.resources; cancelled = false })
          w.tasks e,
    );
  }

  abbrev pub starting :
      ℕ → AgentAwareTask A → Bool → Worker A → Option (Task A) → Outcome (Worker A)
  starting upstream t answer w old = elim old [
    | some task ↦ returns w
    | none ↦ get_instance A t.isolation answer (stored upstream t w) >>= λ r.
        returns (begin_task A (name_of A t) r)
  ]

  pub start_task-new :
      (upstream : ℕ) (t : AgentAwareTask A) (answer : Bool) (w : Worker A)
      → load (name_of A t) w.tasks ≡ none
      → start_task A upstream t answer w ≡ starting upstream t answer w none
  unfolding start_task
  start_task-new upstream t answer w e = ap (starting upstream t answer w) e

  pub start_task-old :
      (upstream : ℕ) (t : AgentAwareTask A) (answer : Bool) (w : Worker A) (old : Task A)
      → load (name_of A t) w.tasks ≡ some old
      → start_task A upstream t answer w ≡ returns w
  unfolding start_task
  start_task-old upstream t answer w old e = ap (starting upstream t answer w) e

  begin_task-settings :
      (k : String) (r : Worker A × Option ℕ)
      → ((begin_task A k r).user_specified_resources ≡ (r.0).user_specified_resources)
        × ((begin_task A k r).standby_parameters ≡ (r.0).standby_parameters)
  unfolding begin_task
  begin_task-settings k (w, none) = (refl, refl)
  begin_task-settings k (w, some n) = (refl, refl)

  pub start_task-Safe :
      (resources : Option (Amounts A)) (upstream : ℕ) (t : AgentAwareTask A) (answer : Bool)
      → (w : Worker A) → Safe A resources w
      → (v : Worker A) × (start_task A upstream t answer w ≡ returns v) × Safe A resources v
  start_task-Safe resources upstream t answer w s =
      elim (Option-cases (load (name_of A t) w.tasks)) [
        | inl e ↦
            let h = s.invariant in
            let (r, d, a) =
              get_instance-Acquired A t.isolation answer (stored upstream t w)
                (record { guarded = h.guarded; owned = h.owned }) in
            let (same_resources, same_parameters) = begin_task-settings (name_of A t) r in
            (
              begin_task A (name_of A t) r,
              start_task-new upstream t answer w e
                  ∙ ap (λ o. o >>= λ q. returns (begin_task A (name_of A t) q)) d,
              keep-Safe A resources w (begin_task A (name_of A t) r) s
                  (begin_task-Invariant upstream t w r h e a) (same_resources ∙ a.resources)
                  (same_parameters ∙ a.parameters),
            )
        | inr (old, e) ↦ (w, start_task-old upstream t answer w old e, s)
      ]

  module _ (resources : Option (Amounts A)) where
    pub stop_task-Safe :
        (k : String) (w : Worker A) → Safe A resources w → Safe A resources (stop_task A k w)
    unfolding stop_task
    stop_task-Safe k w s =
        keep-Safe A resources w (stop_task A k w) s (stop_task-Invariant k w s.invariant)
          (ground arith) (ground arith)

    pub register-Safe :
        (w : Worker A) → Safe A resources w → Safe A resources (register_task_completions A w)
    unfolding register_task_completions
    register-Safe w s =
        keep-Safe A resources w (register_task_completions A w) s (register-Invariant w s.invariant)
          refl refl

    pub end_task-Safe :
        (k : String) (w : Worker A) → Safe A resources w → Safe A resources (end_task A k w)
    unfolding end_task
    end_task-Safe k w s =
        keep-Safe A resources w (end_task A k w) s (end_task-Invariant k w s.invariant)
          (ground arith) (ground arith)

    -- An allowed move made on a safe worker does not panic, and the worker after it is safe.
    pub step-Safe :
        (m : Move A) (w : Worker A)
        → IsAllowed A resources m
        → Safe A resources w
        → (v : Worker A) × (step A m w ≡ returns v) × Safe A resources v
    unfolding step
    step-Safe (creates_standby created warmed) w a s =
        let (r, e, t, _) = try_create_standby-Safe A resources created warmed w s in
        (r.0, ap (λ o. o >>= λ q. returns q.0) e, t)
    step-Safe (starts upstream t answer) w a s = start_task-Safe resources upstream t answer w s
    step-Safe (ends k) w a s = (_, refl, end_task-Safe k w s)
    step-Safe (stops k) w a s = (_, refl, stop_task-Safe k w s)
    step-Safe registers w a s = (_, refl, register-Safe w s)
    step-Safe (updates p) w a s = (_, refl, update_standby-Safe A resources p w a s)

    -- From a safe worker every sequence of allowed moves is made without a panic, and leaves it safe.
    pub run-Safe :
        (ms : List (Move A)) (w : Worker A)
        → All (IsAllowed A resources) ms
        → Safe A resources w
        → (v : Worker A) × (run A ms w ≡ returns v) × Safe A resources v
    unfolding run
    run-Safe [] w a s = (w, refl, s)
    run-Safe (m ∷ ms) w (a, as') s =
        let (u, e, t) = step-Safe m w a s in
        let (v, d, q) = run-Safe ms u as' t in (v, ap (λ o. o >>= run A ms) e ∙ d, q)

    pub new_worker-Safe :
        (parameters : Option A.Parameters)
        → IsSafe A resources parameters
        → Safe A resources (new_worker A resources parameters)
    new_worker-Safe parameters a = record {
      invariant = new_worker-Invariant resources parameters;
      same_resources = refl;
      parameters = a;
    }
