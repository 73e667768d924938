-- ===== src/Executor/TaskFilter/Total.antt =====
-- collectDependencies ends, also where dependencies are circular.
use cirrus_cli.Prelude.{
  ℕ, zero, suc, ◌+◌, ◌≤◌, ◌<◌, false, ◌≡◌, refl, inl, inr, Option, some, List, [], ◌∷◌, ◌++◌,
  length, In, Text, Bool-cases, Option-cases, arith, ap, if◌then◌else◌,
}
use cirrus_cli.Executor.TaskFilter.{
  Task, is_match, Filtered, or_no_match, task_by_id, is_visited, Collected, collect_all,
  collect_dependencies, match_with_dependencies, match_exact_task_with_dependencies,
}

-- how many tasks are not visited
count_unvisited : List Task → List ℕ → ℕ
count_unvisited [] vs = 0
count_unvisited (t ∷ ts) vs =
    (if is_visited t.local_group_id vs then 0 else 1) + count_unvisited ts vs

count_unvisited-le : (ts : List Task) (vs : List ℕ) → count_unvisited ts vs ≤ length ts
unfolding count_unvisited
count_unvisited-le [] vs = omega arith
count_unvisited-le (t ∷ ts) vs = ground (arith, count_unvisited-le ts vs)

count_unvisited-cons_le :
    (n : ℕ) (ts : List Task) (vs : List ℕ) → count_unvisited ts (n ∷ vs) ≤ count_unvisited ts vs
unfolding count_unvisited is_visited
count_unvisited-cons_le n [] vs = omega arith
count_unvisited-cons_le n (t ∷ ts) vs = ground (arith, count_unvisited-cons_le n ts vs)

count_unvisited-cons_lt :
    (t : Task) (ts : List Task) (vs : List ℕ)
    → In t ts
    → is_visited t.local_group_id vs ≡ false
    → count_unvisited ts (t.local_group_id ∷ vs) < count_unvisited ts vs
unfolding count_unvisited is_visited
count_unvisited-cons_lt t [] vs m h = absurd m
count_unvisited-cons_lt t (u ∷ us) vs (inl e) h =
    let same : u.local_group_id ≡ t.local_group_id = ap (λ (v : Task). v.local_group_id) e in
    ground (arith, count_unvisited-cons_le t.local_group_id us vs, ap (λ n. is_visited n vs) same)
count_unvisited-cons_lt t (u ∷ us) vs (inr m) h =
    ground (arith, count_unvisited-cons_lt t us vs m h)

In-task_by_id : (n : ℕ) (u : Task) (ts : List Task) → task_by_id n ts ≡ some u → In u ts
unfolding task_by_id
In-task_by_id n u [] h = cc
In-task_by_id n u (t ∷ ts) h = elim (Option-cases (task_by_id n ts)) [
  | inl e ↦ inl (ground (arith, e))
  | inr (v, e) ↦ inr (In-task_by_id n u ts (ground (arith, e)))
]

module _ (tasks : List Task) where
  -- a collection that ends, and forgets no visit
  abbrev Ends : Option Collected → Collected → Type 0
  Ends o c =
      (c' : Collected) × (o ≡ some c')
      × (count_unvisited tasks c'.visited ≤ count_unvisited tasks c.visited)

  collect_all-Ends :
      (rec : Task → Collected → Option Collected) (fuel : ℕ)
      → ((u : Task) (c : Collected)
          → In u tasks
          → count_unvisited tasks c.visited < fuel
          → Ends (rec u c) c)
      → (rs : List ℕ) (c : Collected) → count_unvisited tasks c.visited < fuel
      → Ends (collect_all tasks rec rs c) c
  unfolding collect_all
  collect_all-Ends rec fuel total [] c h = (c, refl, omega arith)
  collect_all-Ends rec fuel total (r ∷ rs) c h = elim (Option-cases (task_by_id r tasks)) [
    | inl e ↦
        let (c', p, q) = collect_all-Ends rec fuel total rs c h in (c', ground (arith, e, p), q)
    | inr (u, e) ↦
        let (d, p, q) = total u c (In-task_by_id r u tasks e) h in
        let (c', p', q') = collect_all-Ends rec fuel total rs d (omega arith) in
        (c', ground (arith, e, p, p'), omega arith)
  ]

  collect_dependencies-Ends :
      (fuel : ℕ) (t : Task) (c : Collected)
      → In t tasks
      → count_unvisited tasks c.visited < fuel
      → Ends (collect_dependencies tasks fuel t c) c
  unfolding collect_dependencies
  collect_dependencies-Ends zero t c m h = absurd (omega arith)
  collect_dependencies-Ends (suc fuel) t c m h =
      elim (Bool-cases (is_visited t.local_group_id c.visited)) [
        | inl e ↦ (c, ground (arith, e), omega arith)
        | inr e ↦
            let less = count_unvisited-cons_lt t tasks c.visited m e in
            let visit : Collected = record {
              visited = t.local_group_id ∷ c.visited;
              result = c.result ++ t ∷ [];
            } in
            let (c', p, q) =
              collect_all-Ends (collect_dependencies tasks fuel) fuel
                (collect_dependencies-Ends fuel) t.required_groups visit (omega arith) in
            (c', ground (arith, e, p), omega arith)
      ]

  match_with_dependencies_total :
      (desired : Text) (ts found : List Task)
      → ((t : Task) → In t ts → In t tasks)
      → (found' : List Task) × (match_with_dependencies tasks desired ts found ≡ some found')
  unfolding match_with_dependencies
  match_with_dependencies_total desired [] found f = (found, refl)
  match_with_dependencies_total desired (t ∷ ts) found f = elim (Bool-cases (is_match desired t)) [
    | inl e ↦
        let (c, p, _) =
          collect_dependencies-Ends (suc (length tasks)) t (record { visited = []; result = found })
            (f t (inl refl)) (omega (arith, count_unvisited-le tasks [])) in
        let (r, q) = match_with_dependencies_total desired ts c.result (λ u m. f u (inr m)) in
        (r, ground (arith, e, p, q))
    | inr e ↦
        let (r, q) = match_with_dependencies_total desired ts found (λ u m. f u (inr m)) in
        (r, ground (arith, e, q))
  ]

-- MatchExactTaskWithOptions with dependencies returns on every list of tasks, also where the
-- dependencies are circular: no chain of calls of collectDependencies is longer than the list of tasks.
pub match_exact_task_with_dependencies_total :
    (desired : Text) (tasks : List Task)
    → (r : Filtered) × (match_exact_task_with_dependencies desired tasks ≡ some r)
unfolding match_exact_task_with_dependencies
match_exact_task_with_dependencies_total desired tasks =
    let (found, e) = match_with_dependencies_total tasks desired tasks [] (λ t m. m) in
    (or_no_match found, ground (arith, e))
