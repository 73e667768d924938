-- ===== src/Parser/Pipeline/Checked.antt =====
-- pkg/parser/parser.go: what holds of the tasks that Parse goes on with.
use cirrus_cli.Prelude.{
  ℕ, suc, ◌≤◌, String, Option, none, some, List, [], ◌∷◌, ◌++◌, ◌≡◌, ◌≢◌, ◌↔◌, refl, ap, sym, subst,
  arith, All, All-map,
}
use cirrus_cli.Parser.Defs.{TaskLike}
use cirrus_cli.Parser.Tree.{Node, Nodes}
use cirrus_cli.Parser.Tasks.{Kind, Parsed, Indexed, Parser, new_parser, parse_tasks}
use cirrus_cli.Parser.Tasks.Numbers.{Numbered, Numbers, parse_tasks-Numbers}
use cirrus_cli.Parser.Dependencies.{
  Issue, Result, ok, err, search_unbalanced, resolve_dependencies_shallow,
}
use cirrus_cli.Parser.Dependencies.Resolved.{
  AllResolved, IsOutcome, resolve_dependencies_shallow-IsOutcome,
}
use cirrus_cli.Parser.Validate.{Validated, valid, unresolved}
use cirrus_cli.Parser.Validate.Resolve.{Distinct}
use cirrus_cli.Parser.Validate.Sound.{IsOrdered, validate_iff}
use cirrus_cli.Parser.Pipeline.{
  likes, Ending, out_of_fuel, dependencies_unresolved, with_tasks, check_deep, check_resolved,
  check_parsed, parse_tree,
}

Numbered-above :
    (a b index next : ℕ) (ts : List Indexed)
    → a ≤ b
    → Numbered b index next ts
    → All (λ (t : TaskLike). a ≤ t.id) (likes ts)
unfolding likes
Numbered-above a b index next [] h n = tt
Numbered-above a b index next (t ∷ ts) h (l, e, n) = (
  omega (arith, h, l),
  Numbered-above a (suc t.like.id) (suc index) next ts (omega (arith, h, l)) n,
)

likes-Distinct :
    (a index next : ℕ) (ts : List Indexed) → Numbered a index next ts → Distinct (likes ts)
unfolding likes
likes-Distinct a index next [] n = tt
likes-Distinct a index next (t ∷ ts) (l, e, n) = (
  All-map _ _ (likes ts) (λ u h same. omega (arith, h, same))
      (Numbered-above (suc t.like.id) (suc t.like.id) (suc index) next ts (omega arith) n),
  likes-Distinct (suc t.like.id) (suc index) next ts n,
)

module _ (tasks : List TaskLike) (disabled : List String) where
  AllResolved-All :
      (P : ℕ → Type 0) (ts us : List TaskLike)
      → AllResolved tasks disabled ts us
      → All (λ (t : TaskLike). P t.id) ts
      → All (λ (u : TaskLike). P u.id) us
  AllResolved-All P [] us r h = subst (All (λ (u : TaskLike). P u.id)) (sym r) tt
  AllResolved-All P (t ∷ ts) [] r h = absurd r
  AllResolved-All P (t ∷ ts) (u ∷ us) (r, rs) (h, hs) =
      (subst P (ap (λ (v : TaskLike). v.id) r.0) h, AllResolved-All P ts us rs hs)

  AllResolved-Distinct :
      (ts us : List TaskLike) → AllResolved tasks disabled ts us → Distinct ts → Distinct us
  AllResolved-Distinct [] us r h = subst Distinct (sym r) tt
  AllResolved-Distinct (t ∷ ts) [] r h = absurd r
  AllResolved-Distinct (t ∷ ts) (u ∷ us) (r, rs) (h, hs) = (
    subst (λ i. All (λ (v : TaskLike). i ≢ v.id) us) (ap (λ (v : TaskLike). v.id) r.0)
        (AllResolved-All (λ i. t.id ≢ i) ts us rs h),
    AllResolved-Distinct ts us rs hs,
  )

-- what an ending promises of the configuration
abbrev pub Promises : Ending → Type 0
Promises out_of_fuel = ⊥
Promises (with_tasks ts issues) = Distinct ts × ((rank : ℕ → ℕ) × IsOrdered rank ts)
Promises (dependencies_unresolved ts names) = ¬ ((rank : ℕ → ℕ) × IsOrdered rank ts)
Promises _ = Unit

abbrev ending : List TaskLike → List Issue → Option Validated → Ending
ending ts issues o = elim o [
  | none ↦ out_of_fuel
  | some v ↦ elim v [
    | valid ↦ with_tasks ts (issues ++ search_unbalanced ts ts)
    | unresolved names ↦ dependencies_unresolved ts names
  ]
]

ending-Promises :
    (ts : List TaskLike) (issues : List Issue) (v : Validated)
    → Distinct ts
    → (v ≡ valid) ↔ ((rank : ℕ → ℕ) × IsOrdered rank ts)
    → Promises (ending ts issues (some v))
ending-Promises ts issues valid d (to, from) = (d, to refl)
ending-Promises ts issues (unresolved names) d (to, from) = λ r. ground (arith, from r)

check_deep-Promises :
    (ts : List TaskLike) (issues : List Issue) → Distinct ts → Promises (check_deep ts issues)
unfolding check_deep
check_deep-Promises ts issues d =
    let (v, e, iff) = validate_iff ts d in
    subst (λ o. Promises (ending ts issues o)) (sym e) (ending-Promises ts issues v d iff)

check_resolved-Promises :
    (tasks : List TaskLike) (disabled : List String) (r : Result (List TaskLike × List Issue))
    → Distinct tasks
    → IsOutcome tasks disabled tasks r
    → Promises (check_resolved r)
unfolding check_resolved
check_resolved-Promises tasks disabled (err e) d o = tt
check_resolved-Promises tasks disabled (ok ([], issues)) d o = tt
check_resolved-Promises tasks disabled (ok (t ∷ ts, issues)) d o =
    check_deep-Promises (t ∷ ts) issues (AllResolved-Distinct tasks disabled tasks (t ∷ ts) o d)

check_parsed-Promises :
    (p : Parser) (r : Parser × Option (List Indexed)) → Numbers p r → Promises (check_parsed r)
unfolding check_parsed
check_parsed-Promises p (q, none) n = tt
check_parsed-Promises p (q, some ts) (a, b, n) =
    check_resolved-Promises (likes ts) q.disabled_task_names_and_aliases
      (resolve_dependencies_shallow (likes ts) q.disabled_task_names_and_aliases)
      (likes-Distinct p.id_numbering p.index_numbering q.id_numbering ts n)
      (resolve_dependencies_shallow-IsOutcome (likes ts) q.disabled_task_names_and_aliases)

-- Whatever the parsers of tasks answer for the nodes of a configuration, Parse always comes to an end with its
-- dependencies: if it goes on with tasks, their IDs are distinct and they can be ranked so that every
-- dependency is the ID of a task of lower rank, and if it reports unresolved dependencies, they cannot.
pub parse_tree-Promises :
    (parse_as : Kind → Node → Option Parsed) (order : List Kind) (ns : Nodes)
    → Promises (parse_tree parse_as order ns)
unfolding parse_tree
parse_tree-Promises parse_as order ns =
    check_parsed-Promises new_parser (parse_tasks parse_as order ns new_parser)
      (parse_tasks-Numbers parse_as order ns new_parser).0
