-- ===== src/Parser/Dependencies/Unbalanced.antt =====
-- The issues that searchForUnbalancedOnlyIfs registers.
use cirrus_cli.Prelude.{
  ℕ, Bool, true, false, not, ◌&&◌, ◌≡◌, refl, ◌≢◌, ◌↔◌, ◌⊎◌, inl, inr, none, some, List, [], ◌∷◌,
  In, In-append, In-append_left, In-append_right, str_eq, eq_iff, Bool-cases, Option-cases, arith,
  sym, ap, subst, ◌∙◌,
}
use cirrus_cli.Parser.Defs.{TaskLike}
use cirrus_cli.Parser.Dependencies.{Issue, task_of, unbalanced_in, search_unbalanced}

abbrev pub issue : TaskLike → TaskLike → Issue
issue t d = record { dependent = t.name; dependee = d.name }

module _ (tasks : List TaskLike) where
  -- the task depends on another one, by its ID, that has a condition, and one that differs from its own
  abbrev pub IsUnbalanced : TaskLike → TaskLike → ℕ → Type 0
  IsUnbalanced t d i =
      (task_of i tasks ≡ some d)
      × (d.only_if_expression ≢ "")
      × (t.only_if_expression ≢ d.only_if_expression)

  abbrev pub IsUnbalancedIn : TaskLike → List ℕ → Issue → Type 0
  IsUnbalancedIn t is x =
      (i : ℕ) × In i is × ((d : TaskLike) × IsUnbalanced t d i × (issue t d ≡ x))

  abbrev differ : TaskLike → TaskLike → Bool
  differ t d =
      not (str_eq d.only_if_expression "") && not (str_eq t.only_if_expression d.only_if_expression)

  differ_iff :
      (t d : TaskLike)
      → (differ t d ≡ true)
        ↔ ((d.only_if_expression ≢ "") × (t.only_if_expression ≢ d.only_if_expression))
  differ_iff t d =
      ground
        (arith, eq_iff d.only_if_expression "", eq_iff t.only_if_expression d.only_if_expression)

  unbalanced_in-none :
      (t : TaskLike) (i : ℕ) (is : List ℕ)
      → task_of i tasks ≡ none
      → unbalanced_in tasks t (i ∷ is) ≡ unbalanced_in tasks t is
  unfolding unbalanced_in
  unbalanced_in-none t i is e = rw (e, unbalanced_in) refl

  unbalanced_in-issue :
      (t : TaskLike) (i : ℕ) (is : List ℕ) (d : TaskLike)
      → task_of i tasks ≡ some d
      → differ t d ≡ true
      → unbalanced_in tasks t (i ∷ is) ≡ issue t d ∷ unbalanced_in tasks t is
  unfolding unbalanced_in
  unbalanced_in-issue t i is d e h = rw (e, unbalanced_in, h) refl

  unbalanced_in-same :
      (t : TaskLike) (i : ℕ) (is : List ℕ) (d : TaskLike)
      → task_of i tasks ≡ some d
      → differ t d ≡ false
      → unbalanced_in tasks t (i ∷ is) ≡ unbalanced_in tasks t is
  unfolding unbalanced_in
  unbalanced_in-same t i is d e h = rw (e, unbalanced_in, h) refl

  unbalanced_in-nil : (t : TaskLike) → unbalanced_in tasks t [] ≡ []
  unfolding unbalanced_in
  unbalanced_in-nil t = refl

  later :
      (t : TaskLike) (i : ℕ) (is : List ℕ) (x : Issue)
      → IsUnbalancedIn t is x
      → IsUnbalancedIn t (i ∷ is) x
  later t i is x (j, m, w) = (j, inr m, w)

  In-unbalanced_in→ :
      (t : TaskLike) (is : List ℕ) (x : Issue)
      → In x (unbalanced_in tasks t is)
      → IsUnbalancedIn t is x
  In-unbalanced_in→ t [] x m = absurd (subst (λ l. In x l) (unbalanced_in-nil t) m)
  In-unbalanced_in→ t (i ∷ is) x m = elim (Option-cases (task_of i tasks)) [
    | inl e ↦
        later t i is x
          (In-unbalanced_in→ t is x (subst (λ l. In x l) (unbalanced_in-none t i is e) m))
    | inr (d, e) ↦ elim (Bool-cases (differ t d)) [
      | inr h ↦
          later t i is x
            (In-unbalanced_in→ t is x (subst (λ l. In x l) (unbalanced_in-same t i is d e h) m))
      | inl h ↦ elim (here d (subst (λ l. In x l) (unbalanced_in-issue t i is d e h) m)) [
        | inl p ↦ let (a, b) = (differ_iff t d).0 h in (i, inl refl, (d, (e, a, b), p))
        | inr k ↦ later t i is x (In-unbalanced_in→ t is x k)
      ]
    ]
  ]
    where
      here :
          (d : TaskLike)
          → In x (issue t d ∷ unbalanced_in tasks t is)
          → (issue t d ≡ x) ⊎ In x (unbalanced_in tasks t is)
      here d k = k

  In-unbalanced_in-keeps :
      (t : TaskLike) (i : ℕ) (is : List ℕ) (x : Issue)
      → In x (unbalanced_in tasks t is)
      → In x (unbalanced_in tasks t (i ∷ is))
  In-unbalanced_in-keeps t i is x m = elim (Option-cases (task_of i tasks)) [
    | inl e ↦ subst (λ l. In x l) (sym (unbalanced_in-none t i is e)) m
    | inr (d, e) ↦ elim (Bool-cases (differ t d)) [
      | inr h ↦ subst (λ l. In x l) (sym (unbalanced_in-same t i is d e h)) m
      | inl h ↦ subst (λ l. In x l) (sym (unbalanced_in-issue t i is d e h)) (inr m)
    ]
  ]

  In-unbalanced_in← :
      (t : TaskLike) (is : List ℕ) (x : Issue)
      → IsUnbalancedIn t is x
      → In x (unbalanced_in tasks t is)
  In-unbalanced_in← t [] x (i, m, w) = absurd m
  In-unbalanced_in← t (j ∷ is) x (i, inr m, w) =
      In-unbalanced_in-keeps t j is x (In-unbalanced_in← t is x (i, m, w))
  In-unbalanced_in← t (j ∷ is) x (i, inl p, (d, (e, a, b), q)) =
      subst (λ l. In x l)
        (sym (
          unbalanced_in-issue t j is d (ap (λ k. task_of k tasks) p ∙ e)
            ((differ_iff t d).1 (a, b))))
        (inl q)

  -- the search over some of the tasks
  In-search_iff :
      (ts : List TaskLike) (x : Issue)
      → In x (search_unbalanced tasks ts)
        ↔ ((t : TaskLike) × In t ts × IsUnbalancedIn t t.depends_on_ids x)
  unfolding search_unbalanced
  In-search_iff [] x = (λ m. absurd m, λ (t, m, w). absurd m)
  In-search_iff (t ∷ ts) x = (
    λ m.
        elim (In-append x (unbalanced_in tasks t t.depends_on_ids) (search_unbalanced tasks ts) m) [
          | inl k ↦ (t, inl refl, In-unbalanced_in→ t t.depends_on_ids x k)
          | inr k ↦ let (u, n, w) = (In-search_iff ts x).0 k in (u, inr n, w)
        ],
    λ (u, n, w). elim n [
      | inl p ↦
          In-append_left x (unbalanced_in tasks t t.depends_on_ids) (search_unbalanced tasks ts) (
            In-unbalanced_in← t t.depends_on_ids x
              (subst (λ (v : TaskLike). IsUnbalancedIn v v.depends_on_ids x) (sym p) w))
      | inr k ↦
          In-append_right x (unbalanced_in tasks t t.depends_on_ids) (search_unbalanced tasks ts)
            ((In-search_iff ts x).1 (u, k, w))
    ],
  )

-- An issue is registered exactly for a task and one that it depends on by ID, the last one of the list
-- with that ID, if the latter has an only_if condition and the former has not the same.
pub In-search_unbalanced_iff :
    (tasks : List TaskLike) (x : Issue)
    → In x (search_unbalanced tasks tasks)
      ↔ ((t : TaskLike) × In t tasks × IsUnbalancedIn tasks t t.depends_on_ids x)
In-search_unbalanced_iff tasks x = In-search_iff tasks tasks x
