-- ===== src/Parser/Pipeline.antt =====
-- pkg/parser/parser.go: the part of Parse from the tree to the tasks whose dependencies are checked:
-- parseTasks, resolveDependenciesShallow, validateDependenciesDeep and the search for unbalanced only_if
-- conditions, one after the other.
pub mod Checked
use cirrus_cli.Prelude.{ℕ, String, Option, none, some, List, [], ◌∷◌, ◌++◌}
use cirrus_cli.Parser.Defs.{TaskLike}
use cirrus_cli.Parser.Tree.{Node, Nodes}
use cirrus_cli.Parser.Tasks.{Kind, Parsed, Indexed, Parser, new_parser, parse_tasks}
use cirrus_cli.Parser.Dependencies.{
  Issue, Error, Result, ok, err, resolve_dependencies_shallow, search_unbalanced,
}
use cirrus_cli.Parser.Validate.{Validated, valid, unresolved, validate_dependencies_deep}

unfoldable pub likes : List Indexed → List TaskLike
likes [] = []
likes (t ∷ ts) = t.like ∷ likes ts

-- how this part of Parse ends: with one of three errors, without tasks, or with tasks; each with the issues.
-- `out_of_fuel` is the end of the fuel of validateDependenciesDeep.
pub data Ending : Type 0 where
  tasks_failed out_of_fuel : Ending
  dependencies_failed : Error → Ending
  dependencies_unresolved : List TaskLike → List String → Ending
  without_tasks : List Issue → Ending
  with_tasks : List TaskLike → List Issue → Ending

-- validateDependenciesDeep and searchForUnbalancedOnlyIfs
unfoldable pub check_deep : List TaskLike → List Issue → Ending
unfolding validate_dependencies_deep search_unbalanced
check_deep ts issues = elim (validate_dependencies_deep ts) [
  | none ↦ out_of_fuel
  | some v ↦ elim v [
    | valid ↦ with_tasks ts (issues ++ search_unbalanced ts ts)
    | unresolved names ↦ dependencies_unresolved ts names
  ]
]

-- the return without tasks, before validateDependenciesDeep
unfoldable pub check_resolved : Result (List TaskLike × List Issue) → Ending
unfolding check_deep
check_resolved (err e) = dependencies_failed e
check_resolved (ok ([], issues)) = without_tasks issues
check_resolved (ok (t ∷ ts, issues)) = check_deep (t ∷ ts) issues

-- Parse after parseTasks
unfoldable pub check_parsed : Parser × Option (List Indexed) → Ending
unfolding check_resolved resolve_dependencies_shallow likes
check_parsed (p, none) = tasks_failed
check_parsed (p, some ts) =
    check_resolved (resolve_dependencies_shallow (likes ts) p.disabled_task_names_and_aliases)

-- Parse from parseTasks on, of a new parser
unfoldable pub parse_tree : (Kind → Node → Option Parsed) → List Kind → Nodes → Ending
unfolding check_parsed parse_tasks
parse_tree parse_as order ns = check_parsed (parse_tasks parse_as order ns new_parser)
