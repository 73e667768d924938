-- ===== src/Worker/Resources/Fits.antt =====
-- internal/worker/task.go: what canFitResources answers, resource by resource.
use cirrus_cli.Prelude.{
  String, true, false, Option, none, some, List, [], ◌∷◌, ◌≡◌, ◌≢◌, ◌↔◌, ◌⊎◌, In, returns, panics,
  refl, ◌∙◌, ap, sym, All-map, arith, if◌then◌else◌, str_eq, eq_iff, All, Bool-cases, inl, inr,
}
use cirrus_cli.Worker.Api.{Api}
use cirrus_cli.Worker.Resources.{
  Amounts, amount, amount_in, assigns, change, change_all, over_tasks, resources_not_in_use, fits,
  can_fit_resources,
}

module _ (A : Api) (key : String) where
  -- a quantity after the uses of one resource by one task, and by all of them
  unfoldable pub charge : (A.Amount → A.Amount → A.Amount) → Amounts A → A.Amount → A.Amount
  charge op [] left = left
  charge op ((k, v) ∷ uses) left = charge op uses (if str_eq k key then op left v else left)

  unfoldable pub charge_all :
      (A.Amount → A.Amount → A.Amount) → List (Amounts A) → A.Amount → A.Amount
  unfolding charge
  charge_all op [] left = left
  charge_all op (uses ∷ tasks) left = charge_all op tasks (charge op uses left)

  amount-change :
      (f : A.Amount → A.Amount) (k : String) (m : Amounts A)
      → amount A key (change A f k m)
        ≡ (if str_eq k key then f (amount A key m) else amount A key m)
  unfolding amount change
  amount-change f k [] = refl
  amount-change f k ((j, v) ∷ m) =
      ground (arith, amount-change f k m, eq_iff j k, eq_iff k key, eq_iff j key)

  amount-change_all :
      (op : A.Amount → A.Amount → A.Amount) (uses m : Amounts A)
      → amount A key (change_all A op uses m) ≡ charge op uses (amount A key m)
  unfolding change_all charge
  amount-change_all op [] m = refl
  amount-change_all op ((k, v) ∷ uses) m =
      amount-change_all op uses (change A (λ old. op old v) k m)
      ∙ ap (charge op uses) (amount-change (λ old. op old v) k m)

  pub amount-over_tasks :
      (op : A.Amount → A.Amount → A.Amount) (tasks : List (Amounts A)) (m : Amounts A)
      → amount A key (over_tasks A op tasks m) ≡ charge_all op tasks (amount A key m)
  unfolding over_tasks charge_all
  amount-over_tasks op [] m = refl
  amount-over_tasks op (uses ∷ tasks) m =
      amount-over_tasks op tasks (change_all A op uses m)
      ∙ ap (charge_all op tasks) (amount-change_all op uses m)

  charge_all-empty :
      (op : A.Amount → A.Amount → A.Amount) (tasks : List (Amounts A)) (left : A.Amount)
      → All (λ us. us ≡ []) tasks
      → charge_all op tasks left ≡ left
  unfolding charge_all charge
  charge_all-empty op [] left h = refl
  charge_all-empty op (us ∷ tasks) left (e, h) =
      ap (λ l. charge_all op tasks (charge op l left)) e ∙ charge_all-empty op tasks left h

module _ (A : Api) where
  fits_iff :
      (left : Option (Amounts A)) (wanted : Amounts A)
      → (fits A left wanted ≡ true) ↔ All (λ w. A.less (amount_in A w.0 left) w.1 ≡ false) wanted
  unfolding fits
  fits_iff left [] = (λ e. tt, λ e. refl)
  fits_iff left ((k, v) ∷ wanted) =
      let (to, from) = fits_iff left wanted in
      elim (Bool-cases (A.less (amount_in A k left) v)) [
        | inl e ↦ rw e (λ h. cc, λ (h, _). cc)
        | inr e ↦ rw e (λ h. (refl, to h), λ (_, h). from h)
      ]

  assigns_iff :
      (tasks : List (Amounts A))
      → ((assigns A tasks ≡ true) × ((us : Amounts A) × In us tasks × (us ≢ [])))
        ⊎ ((assigns A tasks ≡ false) × All (λ us. us ≡ []) tasks)
  unfolding assigns
  assigns_iff [] = inr (refl, tt)
  assigns_iff ([] ∷ tasks) = elim (assigns_iff tasks) [
    | inl (e, (us, m, n)) ↦ inl (e, (us, inr m, n))
    | inr (e, h) ↦ inr (e, (refl, h))
  ]
  assigns_iff ((u ∷ us) ∷ tasks) = inl (refl, (u ∷ us, inl refl, λ e. ground (arith, e)))

  all_empty :
      (tasks : List (Amounts A)) (us : Amounts A) → All (λ u. u ≡ []) tasks → In us tasks → us ≡ []
  all_empty [] us h m = absurd m
  all_empty (u ∷ tasks) us (e, h) (inl p) = cc
  all_empty (u ∷ tasks) us (e, h) (inr m) = all_empty tasks us h m

  -- what canFitResources asks for: of every resource wanted, what is left after the uses of each task
  abbrev pub Suffices : Option (Amounts A) → List (Amounts A) → Amounts A → Type 0
  Suffices total tasks wanted =
      All (λ w. A.less (charge_all A w.0 A.subtract tasks (amount_in A w.0 total)) w.1 ≡ false)
        wanted

  fitting_iff :
      (total : Amounts A) (tasks : List (Amounts A)) (wanted : Amounts A)
      → (fits A (some (over_tasks A A.subtract tasks total)) wanted ≡ true)
        ↔ Suffices (some total) tasks wanted
  unfolding amount_in
  fitting_iff total tasks wanted =
      let (to, from) = fits_iff (some (over_tasks A A.subtract tasks total)) wanted in
      let same = λ (w : String × A.Amount).
        ap (λ a. A.less a w.1) (amount-over_tasks A w.0 A.subtract tasks total) in
      (
        λ h. All-map _ _ wanted (λ w e. sym (same w) ∙ e) (to h),
        λ h. from (All-map _ _ wanted (λ w e. same w ∙ e) h),
      )

  -- canFitResources panics if and only if the worker has no map of resources and some task has
  -- resources. It answers true if and only if it does not panic and, of every resource that is wanted,
  -- the quantity that the user specified (zero where there is none), less what each task uses of it in
  -- turn, is not less than what is wanted.
  pub can_fit_resources_iff :
      (total : Option (Amounts A)) (tasks : List (Amounts A)) (wanted : Amounts A)
      → ((can_fit_resources A total tasks wanted ≡ panics)
          ↔ ((total ≡ none) × ((us : Amounts A) × In us tasks × (us ≢ []))))
        × ((can_fit_resources A total tasks wanted ≡ returns true)
            ↔ (((total ≢ none) ⊎ All (λ us. us ≡ []) tasks) × Suffices total tasks wanted))
  unfolding can_fit_resources resources_not_in_use amount_in
  can_fit_resources_iff (some total) tasks wanted =
      let (to, from) = fitting_iff total tasks wanted in
      (
        (λ h. absurd (cc h), λ (e, _). absurd (cc e)),
        (λ h. (inl (λ e. cc e), to (cc h)), λ (_, h). cc (from h)),
      )
  can_fit_resources_iff none tasks wanted =
      let (to, from) = fits_iff none wanted in
      elim (assigns_iff tasks) [
        | inl (e, some_use) ↦
            let (us, m, n) = some_use in
            rw e (
              (λ h. (refl, some_use), λ h. refl),
              (
                λ h. absurd (cc h),
                λ (o, _). absurd (elim o [ inl d ↦ d refl | inr h ↦ n (all_empty tasks us h m) ]),
              ),
            )
        | inr (e, empty) ↦
            let same = λ (w : String × A.Amount).
              ap (λ a. A.less a w.1) (charge_all-empty A w.0 A.subtract tasks A.nothing empty) in
            rw e (
              (λ h. absurd (cc h), λ (_, (us, m, n)). absurd (n (all_empty tasks us empty m))),
              (
                λ h. (inr empty, All-map _ _ wanted (λ w d. same w ∙ d) (to (cc h))),
                λ (_, h). cc (from (All-map _ _ wanted (λ w d. sym (same w) ∙ d) h)),
              ),
            )
      ]
