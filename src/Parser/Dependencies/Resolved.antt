-- ===== src/Parser/Dependencies/Resolved.antt =====
-- The IDs that a task depends on are those of the tasks that it names.
use cirrus_cli.Prelude.{
  ℕ, String, Bool, true, false, ◌≡◌, refl, ◌↔◌, ◌⊎◌, inl, inr, List, [], ◌∷◌, ◌++◌, All, In,
  In-append, In-append_left, In-append_right, if◌then◌else◌, Bool-cases, arith, subst, sym, ap, ◌∙◌,
}
use cirrus_cli.Parser.Defs.{TaskLike}
use cirrus_cli.Parser.Dependencies.Sorted.{IsSorted, sort-IsSorted, In-sort_iff}
use cirrus_cli.Parser.Dependencies.{
  Issue, Error, Result, ok, err, overridden, missing, has_name, fallback_names, resolve_tasks,
  resolve_dependencies_shallow, ids_of, sort, resolve_names,
}
use cirrus_cli.Parser.Dependencies.Named.{IsNamed, In-ids_of→, In-ids_of←}

module _ (tasks : List TaskLike) (disabled : List String) where
  -- some of the names names a task with the ID
  abbrev pub IsNamedBy : List String → ℕ → Type 0
  IsNamedBy ns i = (n : String) × In n ns × IsNamed tasks n i

  -- a name that names no task is that of a task that only_if has disabled
  abbrev pub IsExcused : String → Type 0
  IsExcused n = (ids_of n tasks ≡ []) → has_name n disabled ≡ true

  abbrev Covers : List String → List ℕ → List ℕ → Type 0
  Covers ns before ids = (i : ℕ) → In i ids ↔ (In i before ⊎ IsNamedBy ns i)

  resolve_names-found :
      (name n : String) (ns : List String) (before : List ℕ) (issues : List Issue) (i : ℕ)
      (found : List ℕ)
      → ids_of n tasks ≡ i ∷ found
      → resolve_names tasks disabled name (n ∷ ns) before issues
        ≡ resolve_names tasks disabled name ns (before ++ i ∷ found) issues
  unfolding resolve_names
  resolve_names-found name n ns before issues i found e = rw (e, resolve_names) refl

  resolve_names-excused :
      (name n : String) (ns : List String) (before : List ℕ) (issues : List Issue)
      → ids_of n tasks ≡ []
      → has_name n disabled ≡ true
      → resolve_names tasks disabled name (n ∷ ns) before issues
        ≡ resolve_names tasks disabled name ns before
            (issues ++ (record { dependent = name; dependee = n }) ∷ [])
  unfolding resolve_names
  resolve_names-excused name n ns before issues e h = rw (e, resolve_names, h) refl

  resolve_names-fails :
      (name n : String) (ns : List String) (before : List ℕ) (issues : List Issue)
      → ids_of n tasks ≡ []
      → has_name n disabled ≡ false
      → resolve_names tasks disabled name (n ∷ ns) before issues ≡ (
          if has_name n (fallback_names tasks)
          then err (overridden name n)
          else err (missing name n))
  unfolding resolve_names
  resolve_names-fails name n ns before issues e h = rw (e, resolve_names, h) refl

  if-err :
      (b : Bool) (x y : Error) (r : List ℕ × List Issue) → ¬ (if b then err x else err y) ≡ ok r
  if-err true x y r h = ground arith
  if-err false x y r h = ground arith

  Covers-found :
      (n : String) (ns : List String) (before ids found : List ℕ)
      → ids_of n tasks ≡ found
      → Covers ns (before ++ found) ids
      → Covers (n ∷ ns) before ids
  Covers-found n ns before ids found e c i = (
    λ m. elim ((c i).0 m) [
      | inl k ↦ elim (In-append i before found k) [
        | inl p ↦ inl p
        | inr q ↦ inr (n, inl refl, In-ids_of→ n i tasks (subst (λ l. In i l) (sym e) q))
      ]
      | inr (n', k, w) ↦ inr (n', inr k, w)
    ],
    λ m. (c i).1 (elim m [
      | inl p ↦ inl (In-append_left i before found p)
      | inr (n', inl p, w) ↦ inl (
          In-append_right i before found (
            subst (λ l. In i l) e
              (In-ids_of← n i tasks (subst (λ x. IsNamed tasks x i) (sym p) w))))
      | inr (n', inr k, w) ↦ inr (n', k, w)
    ]),
  )

  abbrev ids_in : Result (List ℕ × List Issue) → List ℕ
  ids_in (ok r) = r.0
  ids_in (err e) = []

  append_nil : (is : List ℕ) → is ++ [] ≡ is
  append_nil [] = refl
  append_nil (i ∷ is) = ap (λ js. i ∷ js) (append_nil is)

  Covers-none :
      (n : String) (ns : List String) (before ids : List ℕ)
      → ids_of n tasks ≡ []
      → Covers ns before ids
      → Covers (n ∷ ns) before ids
  Covers-none n ns before ids e c =
      Covers-found n ns before ids [] e (subst (λ l. Covers ns l ids) (sym (append_nil before)) c)

  resolve_names-Covers :
      (name : String) (ns : List String) (before : List ℕ) (issues : List Issue) (ids : List ℕ)
      (issues' : List Issue)
      → resolve_names tasks disabled name ns before issues ≡ ok (ids, issues')
      → Covers ns before ids × All IsExcused ns
  unfolding resolve_names
  resolve_names-Covers name [] before issues ids issues' h = (
    λ i. (
      λ m. inl (subst (λ l. In i l) (sym (ap ids_in h)) m),
      λ m. elim m [ inl k ↦ subst (λ l. In i l) (ap ids_in h) k | inr (n, k, w) ↦ absurd k ],
    ),
    tt,
  )
  resolve_names-Covers name (n ∷ ns) before issues ids issues' h =
      go (ids_of n tasks) refl (λ b i. resolve_names-Covers name ns b i ids issues')
    where
      go :
          (found : List ℕ)
          → ids_of n tasks ≡ found
          → ((before' : List ℕ) (is : List Issue)
              → resolve_names tasks disabled name ns before' is ≡ ok (ids, issues')
              → Covers ns before' ids × All IsExcused ns)
          → Covers (n ∷ ns) before ids × All IsExcused (n ∷ ns)
      go [] e ih = elim (Bool-cases (has_name n disabled)) [
        | inl k ↦
            let more = issues ++ (record { dependent = name; dependee = n }) ∷ [] in
            let (c, x) =
              ih before more (sym (resolve_names-excused name n ns before issues e k) ∙ h) in
            (Covers-none n ns before ids e c, (λ _. k, x))
        | inr k ↦ absurd (
            if-err (has_name n (fallback_names tasks)) (overridden name n) (missing name n)
              (ids, issues') (sym (resolve_names-fails name n ns before issues e k) ∙ h))
      ]
      go (i ∷ found) e ih =
          let (c, x) =
            ih (before ++ i ∷ found) issues
              (sym (resolve_names-found name n ns before issues i found e) ∙ h) in
          (
            Covers-found n ns before ids (i ∷ found) e c,
            (λ none_found. ground (arith, e, none_found), x),
          )

  -- what resolveDependenciesShallow promises of a task: its sorted dependencies are the IDs of the tasks that it names
  abbrev pub IsResolved : TaskLike → TaskLike → Type 0
  IsResolved t u =
      (record t { depends_on_ids = u.depends_on_ids } ≡ u)
      × IsSorted u.depends_on_ids
      × ((i : ℕ) → In i u.depends_on_ids ↔ IsNamedBy t.depends_on_names i)
      × All IsExcused t.depends_on_names

  abbrev pub AllResolved : List TaskLike → List TaskLike → Type 0
  AllResolved [] us = us ≡ []
  AllResolved (t ∷ ts) [] = ⊥
  AllResolved (t ∷ ts) (u ∷ us) = IsResolved t u × AllResolved ts us

  -- a name of the task that names no task, and is not the name of a disabled one
  abbrev pub IsDangling : List String → Type 0
  IsDangling ns = (n : String) × In n ns × (ids_of n tasks ≡ []) × (has_name n disabled ≡ false)

  abbrev IsError : Result (List ℕ × List Issue) → Type 0
  IsError (ok r) = ⊥
  IsError (err e) = Unit

  resolve_names-IsDangling :
      (name : String) (ns : List String) (before : List ℕ) (issues : List Issue) (e : Error)
      → resolve_names tasks disabled name ns before issues ≡ err e
      → IsDangling ns
  unfolding resolve_names
  resolve_names-IsDangling name [] before issues e h = absurd (subst IsError (sym h) tt)
  resolve_names-IsDangling name (n ∷ ns) before issues e h =
      go (ids_of n tasks) refl (λ b i. resolve_names-IsDangling name ns b i e)
    where
      later : IsDangling ns → IsDangling (n ∷ ns)
      later (m, k, p, q) = (m, inr k, p, q)

      go :
          (found : List ℕ)
          → ids_of n tasks ≡ found
          → ((before' : List ℕ) (is : List Issue)
              → resolve_names tasks disabled name ns before' is ≡ err e
              → IsDangling ns)
          → IsDangling (n ∷ ns)
      go [] p ih = elim (Bool-cases (has_name n disabled)) [
        | inl k ↦ later (
            ih before (issues ++ (record { dependent = name; dependee = n }) ∷ [])
              (sym (resolve_names-excused name n ns before issues p k) ∙ h))
        | inr k ↦ (n, inl refl, p, k)
      ]
      go (i ∷ found) p ih = later (
          ih (before ++ i ∷ found) issues
            (sym (resolve_names-found name n ns before issues i found p) ∙ h))

  -- what resolveDependenciesShallow promises of its result
  abbrev pub IsOutcome : List TaskLike → Result (List TaskLike × List Issue) → Type 0
  IsOutcome ts (ok (us, issues)) = AllResolved ts us
  IsOutcome ts (err e) = (t : TaskLike) × In t ts × IsDangling t.depends_on_names

  resolve_tasks-IsOutcome :
      (ts : List TaskLike) (issues : List Issue)
      → IsOutcome ts (resolve_tasks tasks disabled ts issues)
  unfolding resolve_tasks
  resolve_tasks-IsOutcome [] issues = refl
  resolve_tasks-IsOutcome (t ∷ ts) issues =
      go (resolve_names tasks disabled t.name t.depends_on_names [] issues) refl
        (resolve_tasks-IsOutcome ts)
    where
      rest :
          (ids : List ℕ)
          → Covers t.depends_on_names [] ids × All IsExcused t.depends_on_names
          → (r : Result (List TaskLike × List Issue)) → IsOutcome ts r
          → IsOutcome (t ∷ ts) (elim r [
            | err e ↦ err e
            | ok (us, issues'') ↦ ok ((record t { depends_on_ids = sort ids }) ∷ us, issues'')
          ])
      rest ids (c, x) (ok (us, is)) o = (
        (
          refl,
          sort-IsSorted ids,
          λ i. (
            λ k. elim ((c i).0 ((In-sort_iff i ids).0 k)) [ inl m ↦ absurd m | inr w ↦ w ],
            λ w. (In-sort_iff i ids).1 ((c i).1 (inr w)),
          ),
          x,
        ),
        o,
      )
      rest ids (c, x) (err e) (u, k, d) = (u, inr k, d)

      go :
          (r : Result (List ℕ × List Issue))
          → resolve_names tasks disabled t.name t.depends_on_names [] issues ≡ r
          → ((is : List Issue) → IsOutcome ts (resolve_tasks tasks disabled ts is))
          → IsOutcome (t ∷ ts) (resolve_tasks tasks disabled (t ∷ ts) issues)
      go (ok (ids, is)) e ih =
          rw (e, resolve_tasks)
            (rest ids (resolve_names-Covers t.name t.depends_on_names [] issues ids is e)
              (resolve_tasks tasks disabled ts is) (ih is))
      go (err x) e ih =
          rw (e, resolve_tasks)
            (t, inl refl, resolve_names-IsDangling t.name t.depends_on_names [] issues x e)

-- On success, each task keeps all but its dependencies, which are sorted and are the IDs of the tasks of
-- the names that it depends on, and each of these names that no task has is that of a disabled task. On
-- an error, some task depends on a name that no task has, and that is not the name of a disabled task.
pub resolve_dependencies_shallow-IsOutcome :
    (tasks : List TaskLike) (disabled : List String)
    → IsOutcome tasks disabled tasks (resolve_dependencies_shallow tasks disabled)
unfolding resolve_dependencies_shallow
resolve_dependencies_shallow-IsOutcome tasks disabled =
    resolve_tasks-IsOutcome tasks disabled tasks []
