-- ===== src/Parser/Validate.antt =====
-- pkg/parser/validate.go: no two commands of one name, and dependencies that can all be satisfied.
pub mod Resolve
pub mod Invariant
pub mod Sound
pub mod Commands
use cirrus_cli.Prelude.{
  ℕ, zero, suc, ◌+◌, String, Bool, true, false, not, Option, none, some, List, [], ◌∷◌, map, length,
  ◌==◌, if◌then◌else◌, str_eq,
}
use cirrus_cli.Parser.Defs.{TaskLike}

-- a set of IDs, as the keys of `satisfiedIDs`
unfoldable pub contains : ℕ → List ℕ → Bool
contains id [] = false
contains id (x ∷ s) = if x == id then true else contains id s

unfoldable pub add : ℕ → List ℕ → List ℕ
add id s = if contains id s then s else id ∷ s

-- the loop over DependsOnIDs, with its break
unfoldable pub all_satisfied : List ℕ → List ℕ → Bool
all_satisfied s [] = true
all_satisfied s (d ∷ ds) = if contains d s then all_satisfied s ds else false

-- the tasks that are not in the set yet
unfoldable pub unsatisfied : List ℕ → List TaskLike → List TaskLike
unsatisfied s [] = []
unsatisfied s (t ∷ ts) = let rest = unsatisfied s ts in if contains t.id s then rest else t ∷ rest

-- those of them whose dependencies are in the set
unfoldable pub newly_satisfied : List ℕ → List TaskLike → List TaskLike
newly_satisfied s [] = []
newly_satisfied s (t ∷ ts) =
    let rest = newly_satisfied s ts in if all_satisfied s t.depends_on_ids then t ∷ rest else rest

unfoldable pub remember : List TaskLike → List ℕ → List ℕ
remember [] s = s
remember (t ∷ ts) s = remember ts (add t.id s)

-- the outer loop: it breaks when a turn satisfies nothing new; `none` when the fuel runs out
unfoldable pub resolve : ℕ → List TaskLike → List ℕ → Option (List ℕ)
resolve zero tasks s = none
resolve (suc fuel) tasks s = elim (newly_satisfied s (unsatisfied s tasks)) [
  | [] ↦ some s
  | t ∷ ts ↦ resolve fuel tasks (remember (t ∷ ts) s)
]

-- nil, or the names that the error lists
pub data Validated : Type 0 where
  valid : Validated
  unresolved : List String → Validated

-- validateDependenciesDeep; the outer loop makes a turn for each task at most, and one that ends it
unfoldable pub validate_dependencies_deep : List TaskLike → Option Validated
validate_dependencies_deep tasks = elim (resolve (suc (length tasks)) tasks []) [
  | none ↦ none
  | some s ↦ some (
      if length s == length tasks
      then valid
      else unresolved (map (λ (t : TaskLike). t.name) (unsatisfied s tasks)))
]
