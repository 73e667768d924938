-- ===== src/Executor/TaskFilter/Exact.antt =====
-- Which tasks MatchExactTask lets through, and how labels are matched.
use cirrus_cli.Prelude.{
  ◌≤◌, ◌≢◌, has_prefix, after_prefix, to_lower, true, ◌≡◌, refl, ◌↔◌, ◌⊎◌, inl, inr, List, [], ◌∷◌,
  length, All, Text, Bool-cases, arith,
}
use cirrus_cli.Executor.TaskFilter.{Task, extract_labels, has_label, num_matched, contains_all}

num_matched-le : (actual ds : List Text) → num_matched actual ds ≤ length ds
unfolding num_matched
num_matched-le actual [] = omega arith
num_matched-le actual (d ∷ ds) = ground (arith, num_matched-le actual ds)

num_matched-All→ :
    (actual ds : List Text)
    → num_matched actual ds ≡ length ds
    → All (λ d. has_label actual d ≡ true) ds
unfolding num_matched
num_matched-All→ actual [] h = tt
num_matched-All→ actual (d ∷ ds) h = elim (Bool-cases (has_label actual d)) [
  | inl e ↦ (e, num_matched-All→ actual ds (ground arith))
  | inr e ↦ absurd (ground (arith, num_matched-le actual ds))
]

num_matched-All← :
    (actual ds : List Text)
    → All (λ d. has_label actual d ≡ true) ds
    → num_matched actual ds ≡ length ds
unfolding num_matched
num_matched-All← actual [] h = refl
num_matched-All← actual (d ∷ ds) h = ground (arith, num_matched-All← actual ds h.1)

-- containsAll counts the desired labels that some actual label equals, letter case aside, and is true
-- exactly when each of them has such a label.
pub contains_all_iff :
    (actual desired : List Text)
    → (contains_all actual desired ≡ true) ↔ All (λ d. has_label actual d ≡ true) desired
unfolding contains_all
contains_all_iff actual desired = (
  λ h. num_matched-All→ actual desired (ground arith),
  λ h. ground (arith, num_matched-All← actual desired h),
)

-- a task's name or alias begins with the desired one, letter case aside, and each of the labels that
-- follow it equals some label of the task
abbrev pub MatchesBy : Text → Text → List Text → Type 0
MatchesBy desired name labels =
    (name ≢ [])
    × (has_prefix (to_lower desired) (to_lower name) ≡ true)
    × All (λ d. has_label labels d ≡ true)
        (extract_labels (after_prefix (to_lower desired) (to_lower name)))

abbrev pub Matches : Text → Task → Type 0
Matches desired t =
    MatchesBy desired t.name t.unique_labels ⊎ MatchesBy desired t.alias t.unique_labels
