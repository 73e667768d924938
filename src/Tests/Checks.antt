-- ===== src/Tests/Checks.antt =====
-- pkg/parser/validate.go on small lists of tasks and commands.
use cirrus_cli.Prelude.{ℕ, String, ◌≡◌, refl, ◌↔◌, In, none, some, [], ◌∷◌, arith}
use cirrus_cli.Parser.Defs.{TaskLike}
use cirrus_cli.Parser.Dependencies.{Issue, search_unbalanced, unbalanced_in, task_of}
use cirrus_cli.Parser.Dependencies.Unbalanced.{IsUnbalancedIn, In-search_unbalanced_iff}
use cirrus_cli.Parser.Validate.{
  Validated, valid, unresolved, validate_dependencies_deep, resolve, newly_satisfied, unsatisfied,
  all_satisfied, contains, remember, add,
}
use cirrus_cli.Parser.Validate.Commands
use cirrus_cli.Parser.Validate.Commands.{
  Command, script, validate_task, DistinctNames, validate_task-none_iff,
}
use cirrus_cli.Parser.Validate.Sound.{IsOrdered, validate_iff}

abbrev first : TaskLike
first = record {
  id = 0;
  name = "build";
  alias = "";
  fallback_name = "build";
  depends_on_names = [];
  depends_on_ids = [];
  only_if_expression = "";
}

abbrev second : TaskLike
second = record first { id = 1; name = "deploy"; depends_on_ids = 0 ∷ [] }

abbrev looped : TaskLike
looped = record second { depends_on_ids = 1 ∷ [] }

program : Unit {0}
unfolding validate_dependencies_deep resolve newly_satisfied unsatisfied all_satisfied contains
    remember add
program = tt

chain : validate_dependencies_deep (second ∷ first ∷ []) ≡ some valid
unfolding program
chain = refl

cycle : validate_dependencies_deep (looped ∷ first ∷ []) ≡ some (unresolved ("deploy" ∷ []))
unfolding program
cycle = refl

validate_iff_example :
    (v : Validated) × (validate_dependencies_deep (second ∷ first ∷ []) ≡ some v)
    × ((v ≡ valid) ↔ ((rank : ℕ → ℕ) × IsOrdered rank (second ∷ first ∷ [])))
validate_iff_example = validate_iff (second ∷ first ∷ []) (omega arith)

abbrev named : String → Command
named n = record { name = n; instruction = script }

same_names :
    validate_task (named "a" ∷ named "b" ∷ named "a" ∷ [])
    ≡ some (record { seen = script; again = script; name = "a" })
unfolding validate_task Commands.lookup
same_names = refl

validate_task-none_iff_example :
    (validate_task (named "a" ∷ named "b" ∷ []) ≡ none) ↔ DistinctNames (named "a" ∷ named "b" ∷ [])
validate_task-none_iff_example = validate_task-none_iff (named "a" ∷ named "b" ∷ [])

abbrev conditional : TaskLike
conditional = record first { only_if_expression = "$CIRRUS_BRANCH == 'master'" }

abbrev warning : Issue
warning = record { dependent = "deploy"; dependee = "build" }

unbalanced :
    search_unbalanced (second ∷ conditional ∷ []) (second ∷ conditional ∷ []) ≡ warning ∷ []
unfolding search_unbalanced unbalanced_in task_of
unbalanced = refl

In-search_unbalanced_iff_example :
    In warning (search_unbalanced (second ∷ conditional ∷ []) (second ∷ conditional ∷ [])) ↔ (
      (t : TaskLike) × In t (second ∷ conditional ∷ [])
      × IsUnbalancedIn (second ∷ conditional ∷ []) t t.depends_on_ids warning)
In-search_unbalanced_iff_example = In-search_unbalanced_iff (second ∷ conditional ∷ []) warning
