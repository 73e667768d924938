-- ===== src/Worker/Tasks/Acquired.antt =====
-- internal/worker/task.go: getInstance returns an instance that nothing else has.
use cirrus_cli.Prelude.{
  ℕ, ◌+◌, Bool, true, false, Option, none, some, if◌then◌else◌, ◌≡◌, ◌⊎◌, inl, inr, refl, arith,
  ◌==◌, ltb, Bool-cases, Option-cases, subst, ap, Outcome, returns, panics, ◌∙◌,
}
use cirrus_cli.Worker.Api.{Api}
use cirrus_cli.Worker.Tasks.{Worker, new_instance, get_instance, close}
use cirrus_cli.Worker.Tasks.Invariant.{times, one, instances}

module _ (A : Api) where
  -- what getInstance makes of a worker: the instance it returns is owned by nobody else
  pub record Acquired (w : Worker A) (r : Worker A × Option ℕ) : Type 0 where
    pub guarded :
        ((r.0).standby_instance ≡ none) ⊎ ((p : A.Parameters) × ((r.0).standby_parameters ≡ some p))
    pub owned :
        (n : ℕ)
        → times n (one (r.0).standby_instance)
            + times n (instances w.running)
            + times n (r.0).closed
            + times n (one r.1)
          ≡ (if ltb n (r.0).created then 1 else 0)
    pub tasks : (r.0).tasks ≡ w.tasks
    pub running : (r.0).running ≡ w.running
    pub completions : (r.0).completions ≡ w.completions
    pub failures : (r.0).failures ≡ w.failures
    pub resources : (r.0).user_specified_resources ≡ w.user_specified_resources
    pub parameters : (r.0).standby_parameters ≡ w.standby_parameters

  new_instance-Acquired :
      (answer : Bool) (w : Worker A)
      → w.standby_instance ≡ none
      → ((n : ℕ)
          → times n (instances w.running) + times n w.closed ≡ (if ltb n w.created then 1 else 0))
      → Acquired w (new_instance A answer w)
  unfolding new_instance times
  new_instance-Acquired true w e h = record {
    guarded = inl e;
    owned = λ n. rw (e) (ground (arith, h n));
    tasks = refl;
    running = refl;
    completions = refl;
    failures = refl;
    resources = refl;
    parameters = refl;
  }
  new_instance-Acquired false w e h = record {
    guarded = inl e;
    owned = λ n. rw (e) (ground (arith, h n));
    tasks = refl;
    running = refl;
    completions = refl;
    failures = refl;
    resources = refl;
    parameters = refl;
  }

  -- the parts of the invariant that are about instances
  pub record Sound (w : Worker A) : Type 0 where
    pub guarded :
        (w.standby_instance ≡ none) ⊎ ((p : A.Parameters) × (w.standby_parameters ≡ some p))
    pub owned :
        (n : ℕ)
        → times n (one w.standby_instance) + times n (instances w.running) + times n w.closed
          ≡ (if ltb n w.created then 1 else 0)

  abbrev pub acquiring :
      A.Isolation → Bool → Worker A → Option ℕ → Option A.Parameters → Outcome (Worker A × Option ℕ)
  acquiring isolation answer w standby parameters = elim standby [
    | none ↦ returns (new_instance A answer w)
    | some n ↦ elim parameters [
      | none ↦ panics
      | some p ↦
          if A.isolation_equal (A.isolation_of p) isolation
          then returns (record w { standby_instance = none }, some n)
          else returns (new_instance A answer (close A n (record w { standby_instance = none })))
    ]
  ]

  acquiring-some :
      (isolation : A.Isolation) (answer : Bool) (w : Worker A) (n : ℕ) (p : A.Parameters) (b : Bool)
      → w.standby_instance ≡ some n
      → w.standby_parameters ≡ some p
      → A.isolation_equal (A.isolation_of p) isolation ≡ b
      → get_instance A isolation answer w ≡ (
          if b
          then returns (record w { standby_instance = none }, some n)
          else returns (new_instance A answer (close A n (record w { standby_instance = none }))))
  unfolding get_instance
  acquiring-some isolation answer w n p b e d q =
      ap (λ o. acquiring isolation answer w o w.standby_parameters) e
      ∙ ap (λ o. acquiring isolation answer w (some n) o) d
      ∙ ap
          (λ c.
            if c
            then returns (record w { standby_instance = none }, some n)
            else returns (new_instance A answer (close A n (record w { standby_instance = none }))))
          q

  closed-Acquired :
      (w : Worker A) (n : ℕ) (r : Worker A × Option ℕ)
      → Acquired (close A n (record w { standby_instance = none })) r
      → Acquired w r
  closed-Acquired w n r a = record {
    guarded = a.guarded;
    owned = a.owned;
    tasks = a.tasks;
    running = a.running;
    completions = a.completions;
    failures = a.failures;
    resources = a.resources;
    parameters = a.parameters;
  }

  pub owned_none :
      (w : Worker A)
      → Sound w
      → w.standby_instance ≡ none
      → (i : ℕ)
      → times i (instances w.running) + times i w.closed ≡ (if ltb i w.created then 1 else 0)
  unfolding times
  owned_none w h e i = omega (
    arith,
    subst
        (λ o.
          times i (one o) + times i (instances w.running) + times i w.closed
          ≡ (if ltb i w.created then 1 else 0))
        e (h.owned i),
  )

  pub owned_some :
      (w : Worker A)
      → Sound w
      → (n : ℕ) → w.standby_instance ≡ some n
      → (i : ℕ)
      → (if n == i then 1 else 0) + times i (instances w.running) + times i w.closed
        ≡ (if ltb i w.created then 1 else 0)
  unfolding times
  owned_some w h n e i = omega (
    arith,
    subst
        (λ o.
          times i (one o) + times i (instances w.running) + times i w.closed
          ≡ (if ltb i w.created then 1 else 0))
        e (h.owned i),
  )

  pub get_instance-Acquired :
      (isolation : A.Isolation) (answer : Bool) (w : Worker A)
      → Sound w
      → (r : Worker A × Option ℕ) × (get_instance A isolation answer w ≡ returns r) × Acquired w r
  unfolding get_instance times
  get_instance-Acquired isolation answer w h = elim (Option-cases w.standby_instance) [
    | inl e ↦ (
      new_instance A answer w,
      ap (λ o. acquiring isolation answer w o w.standby_parameters) e,
      new_instance-Acquired answer w e (λ n. omega (arith, owned_none w h e n)),
    )
    | inr (n, e) ↦ elim h.guarded [
      | inl d ↦ ground (arith, e, d)
      | inr (p, d) ↦ elim (Bool-cases (A.isolation_equal (A.isolation_of p) isolation)) [
        | inl q ↦ (
          (record w { standby_instance = none }, some n),
          acquiring-some isolation answer w n p true e d q,
          record {
            guarded = inl refl;
            owned = λ i. ground (arith, owned_some w h n e i);
            tasks = refl;
            running = refl;
            completions = refl;
            failures = refl;
            resources = refl;
            parameters = refl;
          },
        )
        | inr q ↦ (
          new_instance A answer (close A n (record w { standby_instance = none })),
          acquiring-some isolation answer w n p false e d q,
          closed-Acquired w n _ (
              new_instance-Acquired answer (close A n (record w { standby_instance = none })) refl
                (λ i. ground (arith, owned_some w h n e i))),
        )
      ]
    ]
  ]
