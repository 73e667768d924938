-- ===== src/Worker/ResourceModifier.antt =====
-- internal/worker/resourcemodifier/resourcemodifier.go: which modifier a task gets.
-- Quantities of resources are float64 in the source; they enter as an argument, the type of
-- the quantities with its test `>`.
pub mod Acquire
use cirrus_cli.Prelude.{
  ℕ, zero, suc, ◌+◌, String, Bool, true, false, not, Option, none, some, List, [], ◌∷◌,
  if◌then◌else◌, str_eq,
}

module _ (Quantity : Type 0) (exceeds : Quantity → Quantity → Bool) where
  -- a map from the names of resources to quantities, in some order of iteration
  abbrev pub Resources : Type 0
  Resources = List (String × Quantity)

  unfoldable pub lookup : String → Resources → Option Quantity
  lookup k [] = none
  lookup k ((j, v) ∷ m) = if str_eq j k then some v else lookup k m

  -- Modifier.Matches: the loop over Match
  unfoldable pub matches : Resources → Resources → Bool
  matches [] requested = true
  matches ((k, limit) ∷ rest) requested = elim (lookup k requested) [
    | none ↦ false
    | some v ↦ if exceeds v limit then false else matches rest requested
  ]

  -- Modifier: Match, and whether its mutex is locked. Append is not read here.
  pub record Modifier : Type 0 where
    pub match_on : Resources
    pub locked : Bool

  -- Manager.Acquire: the index of the modifier that is returned, beside the modifiers after; TryLock
  -- succeeds if the modifier is not locked
  unfoldable pub acquire : Resources → List Modifier → List Modifier × Option ℕ
  acquire resources [] = ([], none)
  acquire resources (m ∷ ms) =
      let (rest, i) = acquire resources ms in
      let later : List Modifier × Option ℕ =
        (m ∷ rest, elim i [ none ↦ none | some n ↦ some (suc n) ]) in
      if matches m.match_on resources
      then (if m.locked then later else (record m { locked = true } ∷ ms, some 0))
      else later
