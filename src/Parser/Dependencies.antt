-- ===== src/Parser/Dependencies.antt =====
-- pkg/parser/parser.go: resolveDependenciesShallow, from the names in depends_on to task IDs, and the
-- search for unbalanced only_if conditions.
pub mod Named
pub mod Resolved
pub mod Unbalanced
pub mod Sorted
use cirrus_cli.Prelude.{
  ℕ, String, Bool, true, false, not, ◌&&◌, ◌||◌, Option, none, some, List, [], ◌∷◌, ◌++◌, leb, ◌==◌,
  if◌then◌else◌, str_eq,
}
use cirrus_cli.Parser.Defs.{TaskLike}

-- registerUnbalancedOnlyIfIssue: the names of the dependent task and of the one that it depends on
pub record Issue : Type 0 where
  pub dependent : String
  pub dependee : String

-- the two errors: the name of the task is overridden by its name field, or there is no such task
pub data Error : Type 0 where
  overridden missing : String → String → Error

pub data Result {ℓ} (A : Type ℓ) : Type ℓ where
  ok : A → Result A
  err : Error → Result A

-- a set of names: fallbackNames, or disabledTaskNamesAndAliases
unfoldable pub has_name : String → List String → Bool
has_name n [] = false
has_name n (m ∷ ms) = if str_eq m n then true else has_name n ms

unfoldable pub fallback_names : List TaskLike → List String
fallback_names [] = []
fallback_names (t ∷ ts) = t.fallback_name ∷ fallback_names ts

abbrev pub is_called : String → TaskLike → Bool
is_called name t = str_eq t.name name || str_eq t.alias name

-- the innermost loop: the IDs of the tasks of that name or alias
unfoldable pub ids_of : String → List TaskLike → List ℕ
ids_of name [] = []
ids_of name (t ∷ ts) = let rest = ids_of name ts in if is_called name t then t.id ∷ rest else rest

-- sort.Slice on the IDs
unfoldable pub insert : ℕ → List ℕ → List ℕ
insert i [] = i ∷ []
insert i (j ∷ js) = if leb i j then i ∷ j ∷ js else j ∷ insert i js

unfoldable pub sort : List ℕ → List ℕ
unfolding insert
sort [] = []
sort (i ∷ is) = insert i (sort is)

module _ (tasks : List TaskLike) (disabled : List String) where
  -- the loop over DependsOnNames: dependsOnIDs and the issues so far
  unfoldable pub resolve_names :
      String → List String → List ℕ → List Issue → Result (List ℕ × List Issue)
  resolve_names task_name [] ids issues = ok (ids, issues)
  resolve_names task_name (n ∷ ns) ids issues = elim (ids_of n tasks) [
    | i ∷ found ↦ resolve_names task_name ns (ids ++ i ∷ found) issues
    | [] ↦ elim (has_name n disabled) [
      | true ↦
          resolve_names task_name ns ids
            (issues ++ (record { dependent = task_name; dependee = n }) ∷ [])
      | false ↦
          if has_name n (fallback_names tasks)
          then err (overridden task_name n)
          else err (missing task_name n)
    ]
  ]

  -- the loop over the tasks, with SetDependsOnIDs
  unfoldable pub resolve_tasks : List TaskLike → List Issue → Result (List TaskLike × List Issue)
  resolve_tasks [] issues = ok ([], issues)
  resolve_tasks (t ∷ ts) issues = elim (resolve_names t.name t.depends_on_names [] issues) [
    | err e ↦ err e
    | ok (ids, issues') ↦ elim (resolve_tasks ts issues') [
      | err e ↦ err e
      | ok (rest, issues'') ↦ ok ((record t { depends_on_ids = sort ids }) ∷ rest, issues'')
    ]
  ]

-- resolveDependenciesShallow
unfoldable pub resolve_dependencies_shallow :
    List TaskLike → List String → Result (List TaskLike × List Issue)
unfolding resolve_tasks
resolve_dependencies_shallow tasks disabled = resolve_tasks tasks disabled tasks []

-- the lookup in `idx`: a later task of one ID replaces an earlier one
unfoldable pub task_of : ℕ → List TaskLike → Option TaskLike
task_of i [] = none
task_of i (t ∷ ts) = elim (task_of i ts) [
  | some u ↦ some u
  | none ↦ if t.id == i then some t else none
]

-- the inner loop of searchForUnbalancedOnlyIfs
unfoldable pub unbalanced_in : List TaskLike → TaskLike → List ℕ → List Issue
unbalanced_in tasks t [] = []
unbalanced_in tasks t (i ∷ is) =
    let rest = unbalanced_in tasks t is in
    elim (task_of i tasks) [
      | none ↦ rest
      | some d ↦
          if not (str_eq d.only_if_expression "")
            && not (str_eq t.only_if_expression d.only_if_expression)
          then (record { dependent = t.name; dependee = d.name }) ∷ rest
          else rest
    ]

-- searchForUnbalancedOnlyIfs: the issues that it registers, over the tasks that are left
unfoldable pub search_unbalanced : List TaskLike → List TaskLike → List Issue
unfolding unbalanced_in task_of
search_unbalanced tasks [] = []
search_unbalanced tasks (t ∷ ts) =
    unbalanced_in tasks t t.depends_on_ids ++ search_unbalanced tasks ts
