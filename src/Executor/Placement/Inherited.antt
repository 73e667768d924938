-- ===== src/Executor/Placement/Inherited.antt =====
-- What a prebuilt image inherits from the tasks that depend on it.
use cirrus_cli.Prelude.{
  ℕ, String, ◌≡◌, refl, ◌↔◌, ◌⊎◌, inl, inr, subst, sym, Bool, true, false, none, some, List, [],
  ◌∷◌, All, In, Bool-cases, Option-cases, arith, ◌∙◌, ap,
}
use cirrus_cli.Build.{Architecture, amd64, prebuilt, Task}
use cirrus_cli.Executor.Placement.{
  requires_task, container_arch, inherited_arch, inherited_os, is_windows, container_os, task_arch,
  task_os,
}

-- `other` requires the task with the given ID
abbrev pub DependsOn : ℕ → Task → Type 0
DependsOn id other = requires_task other.required_ids id ≡ true

abbrev pub AllDependents : (Task → Type 0) → ℕ → List Task → Type 0
AllDependents P id = All (λ o. DependsOn id o → P o)

abbrev pub HasDependent : ℕ → List Task → Type 0
HasDependent id tasks = (o : Task) × In o tasks × DependsOn id o

abbrev pub HasArch : Architecture → Task → Type 0
HasArch a o = container_arch o.instance_of ≡ some a

abbrev pub IsWindows : Task → Type 0
IsWindows o = is_windows (container_os o.instance_of) ≡ true

module _ (id : ℕ) (a : Architecture) where
  found→ :
      (tasks : List Task) (b : Architecture)
      → inherited_arch id tasks (some b) ≡ some a
      → (b ≡ a) × AllDependents (HasArch a) id tasks
  unfolding inherited_arch
  found→ [] b h = (ground arith, tt)
  found→ (o ∷ os) b h = ground (arith, found→ os b)

  found← :
      (tasks : List Task)
      → AllDependents (HasArch a) id tasks
      → inherited_arch id tasks (some a) ≡ some a
  unfolding inherited_arch
  found← [] h = refl
  found← (o ∷ os) (h, hs) = ground (arith, found← os hs, h)

  start→ :
      (tasks : List Task)
      → inherited_arch id tasks none ≡ some a
      → HasDependent id tasks × AllDependents (HasArch a) id tasks
  unfolding inherited_arch
  start→ [] h = cc
  start→ (o ∷ os) h = elim (Bool-cases (requires_task o.required_ids id)) [
    | inl e ↦ elim (Option-cases (container_arch o.instance_of)) [
      | inl n ↦ absurd (ground arith)
      | inr (b, n) ↦
          let (same, rest) = found→ os b (ground arith) in
          ((o, inl refl, e), (λ _. n ∙ ap some same, rest))
    ]
    | inr e ↦ let ((d, m, r), rest) = start→ os (ground arith) in ((d, inr m, r), (λ x. cc, rest))
  ]

  not_dependent : (o d : Task) → requires_task o.required_ids id ≡ false → o ≡ d → ¬ DependsOn id d
  not_dependent o d e p r = cc (e, subst (DependsOn id) (sym p) r)

  start← :
      (tasks : List Task)
      → HasDependent id tasks
      → AllDependents (HasArch a) id tasks
      → inherited_arch id tasks none ≡ some a
  unfolding inherited_arch
  start← [] (d, m, r) h = absurd m
  start← (o ∷ os) (d, m, r) (h, hs) = elim (Bool-cases (requires_task o.required_ids id)) [
    | inl e ↦ ground (arith, found← os hs, h)
    | inr e ↦ elim m [
      | inl p ↦ absurd (not_dependent o d e p r)
      | inr q ↦ ground (arith, start← os (d, q, r) hs)
    ]
  ]

module _ (id : ℕ) where
  os→ :
      (tasks : List Task) (w o : Bool)
      → inherited_os id tasks w o ≡ true
      → (o ≡ false) × ((w ≡ true) ⊎ HasDependent id tasks) × AllDependents IsWindows id tasks
  unfolding inherited_os
  os→ [] w o h = ground arith
  os→ (d ∷ ds) w o h = elim (Bool-cases (requires_task d.required_ids id)) [
    | inl e ↦
        let (clear, seen, rest) = os→ ds _ _ h in
        (ground (arith, clear), inr (d, inl refl, e), (λ _. ground (arith, clear), rest))
    | inr e ↦
        let (clear, seen, rest) = os→ ds _ _ h in
        (
          ground (arith, clear),
          elim seen [ inl p ↦ inl (ground arith) | inr (u, m, r) ↦ inr (u, inr m, r) ],
          (λ x. cc, rest),
        )
  ]

  os← :
      (tasks : List Task) (w : Bool)
      → (w ≡ true) ⊎ HasDependent id tasks
      → AllDependents IsWindows id tasks
      → inherited_os id tasks w false ≡ true
  unfolding inherited_os
  os← [] w (inl p) h = ground arith
  os← [] w (inr (d, m, r)) h = absurd m
  os← (d ∷ ds) w s (h, hs) = elim (Bool-cases (requires_task d.required_ids id)) [
    | inl e ↦ ground (arith, os← ds true (inl refl) hs, h e)
    | inr e ↦
        let later : (w ≡ true) ⊎ HasDependent id ds = elim s [
          | inl p ↦ inl p
          | inr (o, inl p, r) ↦ absurd (not_dependent id amd64 d o e p r)
          | inr (o, inr m, r) ↦ inr (o, m, r)
        ] in
        ground (arith, os← ds w later hs)
  ]

-- A prebuilt image needs an architecture exactly when some task depends on it and every task that
-- does is a container of that architecture.
pub task_arch-prebuilt_iff :
    (t : Task) (all_tasks : List Task) (a : Architecture)
    → t.instance_of ≡ prebuilt
    → (task_arch t all_tasks ≡ some a)
      ↔ (HasDependent t.id all_tasks × AllDependents (HasArch a) t.id all_tasks)
unfolding task_arch
task_arch-prebuilt_iff t ts a e =
    (λ h. start→ t.id a ts (ground (arith, e)), λ (d, h). rw e (start← t.id a ts d h))

-- A prebuilt image needs Windows exactly when some task depends on it and every task that does is a
-- Windows container; it never needs another OS.
pub task_os-prebuilt_iff :
    (t : Task) (all_tasks : List Task)
    → t.instance_of ≡ prebuilt
    → ((task_os t all_tasks ≡ some "windows")
        ↔ (HasDependent t.id all_tasks × AllDependents IsWindows t.id all_tasks))
      × ((os : String) → task_os t all_tasks ≡ some os → os ≡ "windows")
unfolding task_os
task_os-prebuilt_iff t ts e = (
  (
    λ h.
        let (_, seen, rest) = os→ t.id ts false false (ground (arith, e)) in
        (elim seen [ inl p ↦ absurd (cc) | inr d ↦ d ], rest),
    λ (d, h). rw (e, os← t.id ts false (inr d) h),
  ),
  λ os h. ground arith,
)
