-- ===== src/Parser/Labels.antt =====
-- pkg/parser/labels.go: removeEmptyLabels and uniqueLabels. The labels of a task's instance are read from its
-- Protocol Buffers message by reflection, and `labels_of` stands for Parser.labels, which may fail.
pub mod Unique
use cirrus_cli.Prelude.{
  ℕ, suc, zero, ◌+◌, ◌≤◌, ◌<◌, String, Bool, true, false, not, ◌≡◌, refl, ◌≢◌, ◌↔◌, ◌⊎◌, inl, inr,
  Option, none, some, List, [], ◌∷◌, ◌++◌, All, In, ◌&&◌, length, ◌==◌, leb, if◌then◌else◌, str_eq,
  eq_iff, Bool-cases, Option-cases, arith, Text, text_eq,
}

-- removeEmptyLabels: `ends_in_colon` is the test by strings.HasSuffix
abbrev pub ends_in_colon : Text → Bool
ends_in_colon [] = false
ends_in_colon (c ∷ []) = c == b':'
ends_in_colon (c ∷ d ∷ s) = ends_in_colon (d ∷ s)

unfoldable pub remove_empty_labels : List Text → List Text
remove_empty_labels [] = []
remove_empty_labels (l ∷ ls) =
    let rest = remove_empty_labels ls in if ends_in_colon l then rest else l ∷ rest

-- strings.Compare s t <= 0, by bytes
unfoldable pub text_leb : Text → Text → Bool
text_leb [] t = true
text_leb (c ∷ s) [] = false
text_leb (c ∷ s) (d ∷ t) = let rest = text_leb s t in if c == d then rest else leb c d

-- sort.Strings
unfoldable pub insert_label : Text → List Text → List Text
insert_label l [] = l ∷ []
insert_label l (m ∷ ms) =
    let rest = insert_label l ms in if text_leb l m then l ∷ m ∷ ms else m ∷ rest

unfoldable pub sort_labels : List Text → List Text
sort_labels [] = []
sort_labels (l ∷ ls) = insert_label l (sort_labels ls)

-- how often a label occurs
unfoldable pub occurrences : Text → List Text → ℕ
occurrences l [] = 0
occurrences l (m ∷ ms) = (if text_eq m l then 1 else 0) + occurrences l ms

-- the count commonLabels[label] over the labels of the similarly named tasks
unfoldable pub count_label : Text → List (List Text) → ℕ
count_label l [] = 0
count_label l (ls ∷ lss) = occurrences l ls + count_label l lss

-- whether commonLabels has the label after the loop that deletes from it
unfoldable pub is_common : List (List Text) → Text → Bool
is_common lss l = not (count_label l lss == 0) && count_label l lss == length lss

-- keptLabels
unfoldable pub kept_labels : List (List Text) → List Text → List Text
kept_labels lss [] = []
kept_labels lss (l ∷ ls) =
    let rest = kept_labels lss ls in if is_common lss l then rest else l ∷ rest

module _ (T : Type 0) (name_of : T → String) (labels_of : T → Option (List Text)) where
  -- similarlyNamedTasks
  unfoldable pub similarly_named : T → List T → List T
  similarly_named t [] = []
  similarly_named t (u ∷ us) =
      let rest = similarly_named t us in if str_eq (name_of t) (name_of u) then u ∷ rest else rest

  -- the labels of each of them, or the error of labels
  unfoldable pub all_labels : List T → Option (List (List Text))
  all_labels [] = some []
  all_labels (u ∷ us) = elim (labels_of u) [
    | none ↦ none
    | some ls ↦ elim (all_labels us) [ none ↦ none | some lss ↦ some (ls ∷ lss) ]
  ]

  -- what follows the test on the number of similarly named tasks
  unfoldable pub labels_among : T → List T → Option (List Text)
  labels_among t similar = elim (all_labels similar) [
    | none ↦ none
    | some lss ↦ elim (labels_of t) [
      | none ↦ none
      | some ls ↦ some (sort_labels (kept_labels lss ls))
    ]
  ]

  -- uniqueLabels
  unfoldable pub unique_labels : T → List T → Option (List Text)
  unfolding labels_among similarly_named
  unique_labels t tasks =
      let similar = similarly_named t tasks in
      let among = labels_among t similar in if length similar == 1 then some [] else among
