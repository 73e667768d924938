-- ===== src/Worker/Tasks/Standby.antt =====
-- internal/worker/worker.go: the calls that change the standby instance keep a worker safe.
use cirrus_cli.Prelude.{
  ℕ, suc, Bool, true, false, Option, none, some, List, if◌then◌else◌, ◌≡◌, ◌≢◌, inl, inr, refl,
  arith, Option-cases, sym, subst, ap, ◌∙◌, Outcome, returns, panics, ◌>>=◌,
}
use cirrus_cli.Worker.Api.{Api}
use cirrus_cli.Worker.Resources.{Amounts, can_fit_resources, resources_not_in_use, over_tasks, fits}
use cirrus_cli.Worker.Tasks.{
  Worker, is_warmable, new_instance, warm_up, try_create_standby, same_parameters, update_standby,
  close, uses,
}
use cirrus_cli.Worker.Tasks.Safe.{IsSafe, Safe, keep-Safe}
use cirrus_cli.Worker.Tasks.Invariant.{times, Invariant}
use cirrus_cli.Worker.Tasks.Acquired.{owned_none, owned_some}

module _ (A : Api) (resources : Option (Amounts A)) where
  warming : A.Isolation → Bool → Worker A → ℕ → Bool → Outcome (Worker A × Bool)
  warming isolation warmed w n warmable =
      if warmable
      then (if warmed
          then returns (record w { standby_instance = some n }, true)
          else returns (close A n w, false))
      else panics

  warm_up-Safe :
      (isolation : A.Isolation) (created warmed : Bool) (w : Worker A) (p : A.Parameters)
      → Safe A resources w
      → w.standby_parameters ≡ some p
      → w.standby_instance ≡ none
      → is_warmable (A.type_of isolation) ≡ true
      → (r : Worker A × Bool) × (warm_up A isolation warmed (new_instance A created w) ≡ returns r)
        × Safe A resources r.0
        × ((r.0).failures ≡ w.failures)
  unfolding warm_up times new_instance warming
  warm_up-Safe isolation false warmed w p s d e g = ((w, false), refl, s, refl)
  warm_up-Safe isolation true true w p s d e g =
      let h = s.invariant in
      (
        _,
        ap (warming isolation true (record w { created = suc w.created }) w.created) g,
        keep-Safe A resources w _ s
            (record {
              guarded = inr (p, d);
              owned = λ n.
                  ground
                    (arith, owned_none A w (record { guarded = h.guarded; owned = h.owned }) e n);
              placed = h.placed;
            })
            refl refl,
        refl,
      )
  warm_up-Safe isolation true false w p s d e g =
      let h = s.invariant in
      (
        _,
        ap (warming isolation false (record w { created = suc w.created }) w.created) g,
        keep-Safe A resources w _ s
            (record {
              guarded = h.guarded;
              owned = λ n. ground (
                arith,
                h.owned n,
                owned_none A w (record { guarded = h.guarded; owned = h.owned }) e n,
              );
              placed = h.placed;
            })
            refl refl,
        refl,
      )

  can_fit_resources-returns :
      (tasks : List (Amounts A)) (wanted : Amounts A)
      → resources ≢ none
      → (fit : Bool) × (can_fit_resources A resources tasks wanted ≡ returns fit)
  unfolding can_fit_resources resources_not_in_use
  can_fit_resources-returns tasks wanted some_resources = elim (Option-cases resources) [
    | inl e ↦ absurd (some_resources e)
    | inr (total, e) ↦ (
      fits A (some (over_tasks A A.subtract tasks total)) wanted,
      ap (λ o. can_fit_resources A o tasks wanted) e,
    )
  ]

  abbrev creating :
      Bool → Bool → Worker A → Option A.Parameters → Option ℕ → Outcome (Worker A × Bool)
  creating created warmed w parameters standby = elim parameters [
    | none ↦ returns (w, true)
    | some p ↦ elim standby [
      | some n ↦ returns (w, true)
      | none ↦
          can_fit_resources A w.user_specified_resources (uses A w.tasks) (A.resources_of p)
          >>= λ fit.
              if fit
              then warm_up A (A.isolation_of p) warmed (new_instance A created w)
              else returns (w, true)
    ]
  ]

  creating_if :
      (fit created warmed : Bool) (w : Worker A) (p : A.Parameters)
      → Safe A resources w
      → w.standby_parameters ≡ some p
      → w.standby_instance ≡ none
      → is_warmable (A.type_of (A.isolation_of p)) ≡ true
      → (r : Worker A × Bool) × ((if fit
            then warm_up A (A.isolation_of p) warmed (new_instance A created w)
            else returns (w, true))
          ≡ returns r)
        × Safe A resources r.0
        × ((r.0).failures ≡ w.failures)
  creating_if true created warmed w p s d e g =
      warm_up-Safe (A.isolation_of p) created warmed w p s d e g
  creating_if false created warmed w p s d e g = ((w, true), refl, s, refl)

  -- tryCreateStandby of a safe worker returns, and leaves it safe
  pub try_create_standby-Safe :
      (created warmed : Bool) (w : Worker A)
      → Safe A resources w
      → (r : Worker A × Bool) × (try_create_standby A created warmed w ≡ returns r)
        × Safe A resources r.0
        × ((r.0).failures ≡ w.failures)
  unfolding try_create_standby
  try_create_standby-Safe created warmed w s = elim (Option-cases w.standby_parameters) [
    | inl e ↦ ((w, true), ap (λ o. creating created warmed w o w.standby_instance) e, s, refl)
    | inr (p, e) ↦ elim (Option-cases w.standby_instance) [
      | inr (n, d) ↦ (
        (w, true),
        ap (λ o. creating created warmed w o w.standby_instance) e
            ∙ ap (creating created warmed w (some p)) d,
        s,
        refl,
      )
      | inl d ↦
          let (some_resources, warmable) = subst (IsSafe A resources) e s.parameters in
          let (fit, f) =
            can_fit_resources-returns (uses A w.tasks) (A.resources_of p) some_resources in
          let (r, c, t, q) = creating_if fit created warmed w p s e d warmable in
          (
            r,
            ap (λ o. creating created warmed w o w.standby_instance) e
                ∙ ap (creating created warmed w (some p)) d
                ∙ ap
                    (λ o. can_fit_resources A o (uses A w.tasks) (A.resources_of p) >>= λ b.
                      if b
                      then warm_up A (A.isolation_of p) warmed (new_instance A created w)
                      else returns (w, true))
                    s.same_resources
                ∙ ap
                    (λ o. o >>= λ b.
                      if b
                      then warm_up A (A.isolation_of p) warmed (new_instance A created w)
                      else returns (w, true))
                    f
                ∙ c,
            t,
            q,
          )
    ]
  ]

module _ (A : Api) where
  abbrev updating : A.Parameters → Worker A → Option ℕ → Worker A
  updating p w standby =
      let kept = record w { standby_parameters = some p } in
      elim standby [
        | none ↦ kept
        | some n ↦
            if same_parameters A w.standby_parameters p
            then kept
            else close A n (record kept { standby_instance = none })
      ]

  updating_if :
      (same : Bool) (p : A.Parameters) (n : ℕ) (w : Worker A)
      → Invariant A w
      → w.standby_instance ≡ some n
      → Invariant A (
          let kept = record w { standby_parameters = some p } in
          if same then kept else close A n (record kept { standby_instance = none }))
  unfolding times
  updating_if true p n w h e = record {
    guarded = inr (p, refl);
    owned = h.owned;
    placed = h.placed;
  }
  updating_if false p n w h e = record {
    guarded = inl refl;
    owned =
        λ i. ground (arith, owned_some A w (record { guarded = h.guarded; owned = h.owned }) n e i);
    placed = h.placed;
  }

  update_standby-Invariant :
      (p : A.Parameters) (w : Worker A) → Invariant A w → Invariant A (update_standby A p w)
  unfolding update_standby
  update_standby-Invariant p w h = elim (Option-cases w.standby_instance) [
    | inl e ↦
        subst (λ o. Invariant A (updating p w o)) (sym e)
          (record { guarded = inl e; owned = h.owned; placed = h.placed })
    | inr (n, e) ↦
        subst (λ o. Invariant A (updating p w o)) (sym e)
          (updating_if (same_parameters A w.standby_parameters p) p n w h e)
  ]

  pub update_standby-settings :
      (p : A.Parameters) (w : Worker A)
      → ((update_standby A p w).user_specified_resources ≡ w.user_specified_resources)
        × ((update_standby A p w).standby_parameters ≡ some p)
        × ((update_standby A p w).failures ≡ w.failures)
  unfolding update_standby
  update_standby-settings p w = (ground arith, ground arith, ground arith)

  -- UpdateStandby with parameters that the worker may have leaves it safe
  pub update_standby-Safe :
      (resources : Option (Amounts A)) (p : A.Parameters) (w : Worker A)
      → IsSafe A resources (some p)
      → Safe A resources w
      → Safe A resources (update_standby A p w)
  update_standby-Safe resources p w a s =
      let (e, d, _) = update_standby-settings p w in
      record {
        invariant = update_standby-Invariant p w s.invariant;
        same_resources = e ∙ s.same_resources;
        parameters = subst (IsSafe A resources) (sym d) a;
      }
