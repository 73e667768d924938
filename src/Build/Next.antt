-- ===== src/Build/Next.antt =====
-- What Build.GetNextTask chooses, whatever the order in which the map is iterated.
use cirrus_cli.Prelude.{
  ℕ, ◌≤◌, ltb, In-append_left, In-append_right, ◌∙◌, In-append, append-nil, append_assoc, subst,
  sym, if◌then◌else◌, Bool, true, false, not, ◌++◌, ◌≡◌, refl, ◌≢◌, ◌↔◌, ap, inl, inr, List, [],
  ◌∷◌, Option, none, some, All, In, Bool-cases, Option-cases, arith, returns,
}
use cirrus_cli.Build.Defs.{
  new, Task, Build, is_new, task_status, get_task, has_unresolved, can_run, better, next_from,
  get_next_task,
}
use cirrus_cli.Build.Status.{is_new_iff}

-- the task that an ID names is no longer new
abbrev pub IsResolved : List Task → ℕ → Type 0
IsResolved tasks r = (t : Task) × (get_task r tasks ≡ some t) × (task_status t ≢ new)

-- every required ID names a task of the build
abbrev pub IsClosed : List Task → List Task → Type 0
IsClosed tasks = All (λ t. All (λ r. get_task r tasks ≢ none) t.required_ids)

pub record IsReady (tasks : List Task) (t : Task) : Type 0 where
  pub unstarted : task_status t ≡ new
  pub resolved : All (IsResolved tasks) t.required_ids

module _ (tasks : List Task) where
  has_unresolved-false→ :
      (rs : List ℕ) → has_unresolved tasks rs ≡ returns false → All (IsResolved tasks) rs
  unfolding has_unresolved
  has_unresolved-false→ [] h = tt
  has_unresolved-false→ (r ∷ rs) h = elim (Option-cases (get_task r tasks)) [
    | inl e ↦ absurd (ground arith)
    | inr (t, e) ↦ (
      (t, e, ground (arith, (is_new_iff (task_status t)).1)),
      has_unresolved-false→ rs (ground arith),
    )
  ]

  has_unresolved-false← :
      (rs : List ℕ) → All (IsResolved tasks) rs → has_unresolved tasks rs ≡ returns false
  unfolding has_unresolved
  has_unresolved-false← [] h = refl
  has_unresolved-false← (r ∷ rs) ((t, e, n), hs) =
      ground (arith, (is_new_iff (task_status t)).0, has_unresolved-false← rs hs)

  has_unresolved_total :
      (rs : List ℕ)
      → All (λ r. get_task r tasks ≢ none) rs
      → (b : Bool) × (has_unresolved tasks rs ≡ returns b)
  unfolding has_unresolved
  has_unresolved_total [] h = (false, refl)
  has_unresolved_total (r ∷ rs) (h, hs) = elim (Option-cases (get_task r tasks)) [
    | inl e ↦ absurd (h e)
    | inr (t, e) ↦ elim (Bool-cases (is_new (task_status t))) [
      | inl n ↦ (true, ground arith)
      | inr n ↦ let (b, p) = has_unresolved_total rs hs in (b, ground arith)
    ]
  ]

  module _ (t : Task) where
    can_run→IsReady : can_run tasks t ≡ returns true → IsReady tasks t
    unfolding can_run
    can_run→IsReady h = record {
      unstarted = ground (arith, (is_new_iff (task_status t)).0);
      resolved = has_unresolved-false→ t.required_ids (ground arith);
    }

    IsReady→can_run : IsReady tasks t → can_run tasks t ≡ returns true
    unfolding can_run
    IsReady→can_run h = rw (h.unstarted, has_unresolved-false← t.required_ids h.resolved)

    can_run_total :
        All (λ r. get_task r tasks ≢ none) t.required_ids
        → (b : Bool) × (can_run tasks t ≡ returns b)
    unfolding can_run
    can_run_total h = elim (Bool-cases (is_new (task_status t))) [
      | inl n ↦ let (b, p) = has_unresolved_total t.required_ids h in (not b, rw (n, p))
      | inr n ↦ (false, rw n)
    ]

-- the result so far is a ready task with the least ID among those seen
abbrev pub IsBest : List Task → List Task → Option Task → Type 0
IsBest tasks seen none = (t : Task) → In t seen → ¬ IsReady tasks t
IsBest tasks seen (some r) =
    In r seen × IsReady tasks r × ((t : Task) → In t seen → IsReady tasks t → r.id ≤ t.id)

module _ (tasks : List Task) where
  -- a bound that holds for the tasks seen, and for the next one if it is ready, holds for both
  bound_step :
      (n : ℕ) (seen : List Task) (t : Task)
      → ((u : Task) → In u seen → IsReady tasks u → n ≤ u.id)
      → (IsReady tasks t → n ≤ t.id)
      → (u : Task) → In u (seen ++ t ∷ [])
      → IsReady tasks u
      → n ≤ u.id
  bound_step n seen t h ht u m q = elim (In-append u seen (t ∷ []) m) [
    | inl p ↦ h u p q
    | inr (inl p) ↦ subst (λ (v : Task). n ≤ v.id) p (ht (subst (IsReady tasks) (sym p) q))
    | inr (inr p) ↦ absurd p
  ]

  not-IsReady : (t : Task) → can_run tasks t ≡ returns false → ¬ IsReady tasks t
  not-IsReady t e q = cc (IsReady→can_run tasks t q)

  IsBest-step :
      (seen : List Task) (t : Task) (result : Option Task) (b : Bool)
      → can_run tasks t ≡ returns b
      → IsBest tasks seen result
      → IsBest tasks (seen ++ t ∷ []) (if b then better t result else result)
  IsBest-step seen t none true e h = (
    In-append_right t seen (t ∷ []) (inl refl),
    can_run→IsReady tasks t e,
    bound_step t.id seen t (λ u p q. absurd (h u p q)) (λ _. omega arith),
  )
  IsBest-step seen t (some r) true e h = elim (Bool-cases (ltb t.id r.id)) [
    | inl less ↦ rw less (
      In-append_right t seen (t ∷ []) (inl refl),
      can_run→IsReady tasks t e,
      bound_step t.id seen t (λ u p q. let le = h.2 u p q in ground (arith, le)) (λ _. omega arith),
    )
    | inr more ↦
        rw more
          (In-append_left r seen (t ∷ []) h.0, h.1, bound_step r.id seen t h.2 (λ _. ground arith))
  ]
  IsBest-step seen t none false e h = λ u m. elim (In-append u seen (t ∷ []) m) [
    | inl p ↦ h u p
    | inr (inl p) ↦ λ q. not-IsReady t e (subst (IsReady tasks) (sym p) q)
    | inr (inr p) ↦ absurd p
  ]
  IsBest-step seen t (some r) false e h = (
    In-append_left r seen (t ∷ []) h.0,
    h.1,
    bound_step r.id seen t h.2 (λ q. absurd (not-IsReady t e q)),
  )

  next_from-IsBest :
      (order seen : List Task) (result : Option Task)
      → IsBest tasks seen result
      → IsClosed tasks order
      → (o : Option Task) × (next_from tasks order result ≡ returns o)
        × IsBest tasks (seen ++ order) o
  unfolding next_from
  next_from-IsBest [] seen result h c = (result, refl, rw append-nil h)
  next_from-IsBest (t ∷ order) seen result h (c, cs) =
      let (b, e) = can_run_total tasks t c in
      let (o, p, q) =
        next_from-IsBest order (seen ++ t ∷ []) (if b then better t result else result)
          (IsBest-step seen t result b e h) cs in
      (o, rw e p, rw append_assoc at q)

-- If every required ID names a task of the build, GetNextTask does not panic; it returns nil exactly
-- when no task is ready, and otherwise the ready task with the least ID.
pub get_next_task-IsBest :
    (b : Build)
    → IsClosed b.tasks b.tasks
    → (o : Option Task) × (get_next_task b ≡ returns o) × IsBest b.tasks b.tasks o
unfolding get_next_task
get_next_task-IsBest b c = next_from-IsBest b.tasks b.tasks [] none (λ t m. absurd m) c

-- tasks with one ID are one task
abbrev pub HasUniqueIds : List Task → Type 0
HasUniqueIds tasks = (t u : Task) → In t tasks → In u tasks → t.id ≡ u.id → t ≡ u

module _ (tasks order : List Task) (unique : HasUniqueIds tasks)
    (same : (t : Task) → In t order ↔ In t tasks) where
  IsBest-unique : (o p : Option Task) → IsBest tasks tasks o → IsBest tasks order p → o ≡ p
  IsBest-unique none none h k = refl
  IsBest-unique none (some r) h k = absurd (h r ((same r).0 k.0) k.1)
  IsBest-unique (some r) none h k = absurd (k r ((same r).1 h.0) h.1)
  IsBest-unique (some r) (some s) h k =
      let a = h.2 s ((same s).0 k.0) k.1 in
      let b = k.2 r ((same r).1 h.0) h.1 in
      ap some (unique r s h.0 ((same s).0 k.0) (omega (arith, a, b)))

  -- Go iterates over a map in any order. Whatever the order in which the tasks are visited, the loop
  -- of GetNextTask has the same result, if IDs are unique and every required ID names a task.
  pub next_from_any_order :
      IsClosed tasks tasks
      → IsClosed tasks order
      → next_from tasks order none ≡ get_next_task (record { tasks = tasks })
  next_from_any_order c k =
      let (o, e, h) = get_next_task-IsBest (record { tasks = tasks }) c in
      let (p, f, q) = next_from-IsBest tasks order [] none (λ t m. absurd m) k in
      f ∙ ap returns (sym (IsBest-unique o p h q)) ∙ sym e
