-- ===== src/Parser/Labels/Unique.antt =====
-- Which labels uniqueLabels keeps.
use cirrus_cli.Prelude.{
  ◌≤◌, ◌<◌, String, Bool, true, false, ◌≡◌, refl, ◌≢◌, inl, inr, Option, some, List, [], ◌∷◌, All,
  In, length, Bool-cases, arith, Text, text_eq, text_eq-true, sym, ap, subst, ◌∙◌,
}
use cirrus_cli.Parser.Labels.{
  insert_label, sort_labels, occurrences, count_label, is_common, kept_labels, similarly_named,
  all_labels, labels_among, unique_labels,
}

module _ (l : Text) where
  occurrences-insert_label :
      (m : Text) (ms : List Text) → occurrences l (insert_label m ms) ≡ occurrences l (m ∷ ms)
  unfolding insert_label occurrences
  occurrences-insert_label m [] = refl
  occurrences-insert_label m (n ∷ ms) = ground (arith, occurrences-insert_label m ms)

  occurrences-sort_labels : (ms : List Text) → occurrences l (sort_labels ms) ≡ occurrences l ms
  unfolding sort_labels occurrences
  occurrences-sort_labels [] = refl
  occurrences-sort_labels (m ∷ ms) =
      ground (arith, occurrences-insert_label m (sort_labels ms), occurrences-sort_labels ms)

  module _ (lss : List (List Text)) where
    kept_labels-common :
        is_common lss l ≡ true → (ls : List Text) → occurrences l (kept_labels lss ls) ≡ 0
    unfolding kept_labels occurrences
    kept_labels-common h [] = refl
    kept_labels-common h (m ∷ ls) = elim (Bool-cases (is_common lss m)) [
      | inl e ↦ rw e (kept_labels-common h ls)
      | inr e ↦ elim (Bool-cases (text_eq m l)) [
        | inl q ↦ absurd (differs (sym e ∙ ap (is_common lss) (text_eq-true m l q) ∙ h))
        | inr q ↦ rw (e, q) (omega (arith, kept_labels-common h ls))
      ]
    ]
      where
        differs : ◌≡◌ {A = Bool} false true → ⊥
        differs k = ground arith

    kept_labels-rare :
        is_common lss l ≡ false
        → (ls : List Text) → occurrences l (kept_labels lss ls) ≡ occurrences l ls
    unfolding kept_labels occurrences
    kept_labels-rare h [] = refl
    kept_labels-rare h (m ∷ ls) = elim (Bool-cases (is_common lss m)) [
      | inr e ↦ rw e (ground (arith, kept_labels-rare h ls))
      | inl e ↦ elim (Bool-cases (text_eq m l)) [
        | inr q ↦ rw (e, q) (omega (arith, kept_labels-rare h ls))
        | inl q ↦ absurd (differs (sym e ∙ ap (is_common lss) (text_eq-true m l q) ∙ h))
      ]
    ]
      where
        differs : ◌≡◌ {A = Bool} true false → ⊥
        differs k = ground arith

  -- every task has the label, and has it once
  abbrev pub InEach : List (List Text) → Type 0
  InEach lss = All (λ ls. occurrences l ls ≡ 1) lss

  -- no task has the label twice
  abbrev pub AtMostOnce : List (List Text) → Type 0
  AtMostOnce lss = All (λ ls. occurrences l ls ≤ 1) lss

  count_label-InEach : (lss : List (List Text)) → InEach lss → count_label l lss ≡ length lss
  unfolding count_label
  count_label-InEach [] h = refl
  count_label-InEach (ls ∷ lss) h = omega (arith, h.0, count_label-InEach lss h.1)

  count_label-le : (lss : List (List Text)) → AtMostOnce lss → count_label l lss ≤ length lss
  unfolding count_label
  count_label-le [] h = omega arith
  count_label-le (ls ∷ lss) h = omega (arith, h.0, count_label-le lss h.1)

  -- some task lacks the label
  abbrev pub InNone : List (List Text) → Type 0
  InNone lss = (ls : List Text) × In ls lss × (occurrences l ls ≡ 0)

  count_label-lt :
      (lss : List (List Text)) → AtMostOnce lss → InNone lss → count_label l lss < length lss
  unfolding count_label
  count_label-lt [] h (ls, m, e) = absurd m
  count_label-lt (ls ∷ lss) h (ks, inl p, e) =
      omega (arith, count_label-le lss h.1, subst (λ x. occurrences l x ≡ 0) (sym p) e)
  count_label-lt (ls ∷ lss) h (ks, inr m, e) = omega (arith, h.0, count_label-lt lss h.1 (ks, m, e))

  is_common-InEach : (lss : List (List Text)) → lss ≢ [] → InEach lss → is_common lss l ≡ true
  unfolding is_common
  is_common-InEach [] z h = absurd (z refl)
  is_common-InEach (ls ∷ lss) z h = ground (arith, count_label-InEach (ls ∷ lss) h)

  is_common-InNone :
      (lss : List (List Text)) → AtMostOnce lss → InNone lss → is_common lss l ≡ false
  unfolding is_common
  is_common-InNone lss h n = ground (arith, count_label-lt lss h n)

module _ (T : Type 0) (name_of : T → String) (labels_of : T → Option (List Text)) where
  -- If several tasks of the list have the task's name, and their labels and its own can be read, then
  -- uniqueLabels succeeds; a label that each of them has once is dropped, and a label that one of them
  -- lacks, and that none of them has twice, is kept as often as the task has it.
  pub unique_labels-keeps :
      (t : T) (tasks : List T) (ls : List Text) (lss : List (List Text))
      → length (similarly_named T name_of labels_of t tasks) ≢ 1
      → lss ≢ []
      → all_labels T name_of labels_of (similarly_named T name_of labels_of t tasks) ≡ some lss
      → labels_of t ≡ some ls
      → (r : List Text) × (unique_labels T name_of labels_of t tasks ≡ some r)
        × ((l : Text) → InEach l lss → occurrences l r ≡ 0)
        × ((l : Text) → AtMostOnce l lss → InNone l lss → occurrences l r ≡ occurrences l ls)
  unfolding unique_labels labels_among
  unique_labels-keeps t tasks ls lss several z a e = (
    sort_labels (kept_labels lss ls),
    ground (arith, a, e, several),
    λ l h.
        occurrences-sort_labels l (kept_labels lss ls)
        ∙ kept_labels-common l lss (is_common-InEach l lss z h) ls,
    λ l h n.
        occurrences-sort_labels l (kept_labels lss ls)
        ∙ kept_labels-rare l lss (is_common-InNone l lss h n) ls,
  )
