-- ===== src/Worker/Resources.antt =====
-- internal/worker/task.go: the resources that the tasks of a worker use, and those that are left.
-- A map is an association list in some order of iteration, with one entry for a key; where it may be
-- nil it is an Option.
pub mod Fits
use cirrus_cli.Prelude.{
  String, Bool, true, false, Option, none, some, List, [], ◌∷◌, if◌then◌else◌, str_eq, Outcome,
  returns, panics, ◌>>=◌,
}
use cirrus_cli.Worker.Api.{Api}

module _ (A : Api) where
  abbrev pub Amounts : Type 0
  Amounts = List (String × A.Amount)

  -- m[key], the zero value where the key is missing
  unfoldable pub amount : String → Amounts → A.Amount
  amount key [] = A.nothing
  amount key ((k, v) ∷ m) = if str_eq k key then v else amount key m

  -- m[key], where m may be nil
  unfoldable pub amount_in : String → Option Amounts → A.Amount
  unfolding amount
  amount_in key none = A.nothing
  amount_in key (some m) = amount key m

  -- m[key] = f (m[key]), of a map that is not nil
  unfoldable pub change : (A.Amount → A.Amount) → String → Amounts → Amounts
  change f key [] = (key, f A.nothing) ∷ []
  change f key ((k, v) ∷ m) =
      let rest = change f key m in if str_eq k key then (k, f v) ∷ m else (k, v) ∷ rest

  -- the loop over the resources of one task
  unfoldable pub change_all : (A.Amount → A.Amount → A.Amount) → Amounts → Amounts → Amounts
  unfolding change
  change_all op [] result = result
  change_all op ((k, v) ∷ uses) result = change_all op uses (change (λ old. op old v) k result)

  -- the loop over the tasks, each with its resourcesToUse
  unfoldable pub over_tasks : (A.Amount → A.Amount → A.Amount) → List Amounts → Amounts → Amounts
  unfolding change_all
  over_tasks op [] result = result
  over_tasks op (uses ∷ tasks) result = over_tasks op tasks (change_all op uses result)

  -- whether the loops reach an assignment: some task has resources
  unfoldable pub assigns : List Amounts → Bool
  assigns [] = false
  assigns ([] ∷ tasks) = assigns tasks
  assigns ((first ∷ uses) ∷ tasks) = true

  -- resourcesNotInUse of a worker with `total`, the userSpecifiedResources; maps.Clone of a nil map is
  -- nil, and an assignment to an entry of it panics
  unfoldable pub resources_not_in_use : Option Amounts → List Amounts → Outcome (Option Amounts)
  unfolding over_tasks assigns
  resources_not_in_use (some total) tasks = returns (some (over_tasks A.subtract tasks total))
  resources_not_in_use none tasks = if assigns tasks then panics else returns none

  unfoldable pub resources_in_use : List Amounts → Amounts
  unfolding over_tasks
  resources_in_use tasks = over_tasks A.add tasks []

  -- the loop of canFitResources over the resources that are asked for
  unfoldable pub fits : Option Amounts → Amounts → Bool
  unfolding amount_in
  fits left [] = true
  fits left ((k, v) ∷ wanted) = if A.less (amount_in k left) v then false else fits left wanted

  unfoldable pub can_fit_resources : Option Amounts → List Amounts → Amounts → Outcome Bool
  unfolding fits resources_not_in_use
  can_fit_resources total tasks wanted =
      resources_not_in_use total tasks >>= λ left. returns (fits left wanted)
