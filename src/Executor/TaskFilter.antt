-- ===== src/Executor/TaskFilter.antt =====
-- internal/executor/taskfilter/taskfilter.go. Names and labels are ASCII.
pub mod Exact
pub mod Total
use cirrus_cli.Prelude.{
  ℕ, zero, suc, ◌+◌, Bool, true, false, not, ◌&&◌, ◌||◌, Option, none, some, List, [], ◌∷◌, ◌++◌,
  length, ◌==◌, if◌then◌else◌, Text, to_lower, has_prefix, after_prefix, is_blank, split,
  equal_fold,
}

-- api.Task, with the fields that the filter uses. `alias` is Metadata.Properties["alias"], empty if
-- there is no metadata or no alias; `unique_labels` is empty if there is no metadata.
pub record Task : Type 0 where
  pub local_group_id : ℕ
  pub name : Text
  pub alias : Text
  pub unique_labels : List Text
  pub required_groups : List ℕ

-- extractLabels: the loop that drops blank labels
unfoldable pub non_blank : List Text → List Text
non_blank [] = []
non_blank (l ∷ ls) = let rest = non_blank ls in if is_blank l then rest else l ∷ rest

abbrev pub extract_labels : Text → List Text
extract_labels s = non_blank (split 32 s)

-- the inner loop of containsAll
unfoldable pub has_label : List Text → Text → Bool
has_label [] desired = false
has_label (a ∷ as') desired = if equal_fold desired a then true else has_label as' desired

-- numMatchedLabels of containsAll
unfoldable pub num_matched : List Text → List Text → ℕ
num_matched actual [] = 0
num_matched actual (d ∷ ds) = (if has_label actual d then 1 else 0) + num_matched actual ds

-- containsAll
unfoldable pub contains_all : List Text → List Text → Bool
contains_all actual desired = num_matched actual desired == length desired

abbrev is_empty : Text → Bool
is_empty [] = true
is_empty (c ∷ s) = false

-- matchTask
unfoldable pub match_task : Text → Text → List Text → Bool
unfolding contains_all
match_task desired name_or_alias labels =
    if is_empty name_or_alias
    then false
    else if has_prefix (to_lower desired) (to_lower name_or_alias)
    then contains_all labels
        (extract_labels (after_prefix (to_lower desired) (to_lower name_or_alias)))
    else false

-- the test at the head of the loop of MatchExactTaskWithOptions
abbrev pub is_match : Text → Task → Bool
is_match desired t =
    match_task desired t.name t.unique_labels || match_task desired t.alias t.unique_labels

-- `task.RequiredGroups[:0]`
abbrev pub without_dependencies : Task → Task
without_dependencies t = record t { required_groups = [] }

-- nil with the tasks, or ErrNoMatch
pub data Filtered : Type 0 where
  matched : List Task → Filtered
  no_match : Filtered

abbrev pub or_no_match : List Task → Filtered
or_no_match [] = no_match
or_no_match (t ∷ ts) = matched (t ∷ ts)

unfoldable pub matching : Text → List Task → List Task
matching desired [] = []
matching desired (t ∷ ts) =
    let rest = matching desired ts in
    if is_match desired t then without_dependencies t ∷ rest else rest

-- MatchExactTask
unfoldable pub match_exact_task : Text → List Task → Filtered
match_exact_task desired tasks = or_no_match (matching desired tasks)

-- taskByID: a later task of one ID replaces an earlier one
unfoldable pub task_by_id : ℕ → List Task → Option Task
task_by_id id [] = none
task_by_id id (t ∷ ts) = elim (task_by_id id ts) [
  | some u ↦ some u
  | none ↦ if t.local_group_id == id then some t else none
]

unfoldable pub is_visited : ℕ → List ℕ → Bool
is_visited id [] = false
is_visited id (v ∷ vs) = if v == id then true else is_visited id vs

-- `visited` and `result` of collectDependencies
pub record Collected : Type 0 where
  pub visited : List ℕ
  pub result : List Task

module _ (tasks : List Task) where
  -- the loop of collectDependencies over RequiredGroups, with its recursive call as an argument
  unfoldable pub collect_all :
      (Task → Collected → Option Collected) → List ℕ → Collected → Option Collected
  collect_all rec [] c = some c
  collect_all rec (r ∷ rs) c = elim (task_by_id r tasks) [
    | none ↦ collect_all rec rs c
    | some dep ↦ elim (rec dep c) [ none ↦ none | some c' ↦ collect_all rec rs c' ]
  ]

  -- collectDependencies; `none` when the fuel runs out
  unfoldable pub collect_dependencies : ℕ → Task → Collected → Option Collected
  collect_dependencies zero t c = none
  collect_dependencies (suc fuel) t c =
      let rest =
        collect_all (collect_dependencies fuel) t.required_groups
          (record { visited = t.local_group_id ∷ c.visited; result = c.result ++ t ∷ [] }) in
      if is_visited t.local_group_id c.visited then some c else rest

  -- the loop of MatchExactTaskWithOptions that includes dependencies, with a new `visited` each time
  unfoldable pub match_with_dependencies : Text → List Task → List Task → Option (List Task)
  match_with_dependencies desired [] found = some found
  match_with_dependencies desired (t ∷ ts) found = elim (is_match desired t) [
    | false ↦ match_with_dependencies desired ts found
    | true ↦
        elim (collect_dependencies (suc (length tasks)) t
          (record { visited = []; result = found })) [
            | none ↦ none
            | some c ↦ match_with_dependencies desired ts c.result
          ]
  ]

-- MatchExactTaskWithOptions with its dependencies included
unfoldable pub match_exact_task_with_dependencies : Text → List Task → Option Filtered
match_exact_task_with_dependencies desired tasks =
    elim (match_with_dependencies tasks desired tasks []) [
      | none ↦ none
      | some found ↦ some (or_no_match found)
    ]
