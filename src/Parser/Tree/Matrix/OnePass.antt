-- ===== src/Parser/Tree/Matrix/OnePass.antt =====
-- What one pass of the expansion does to a tree.
use cirrus_cli.Prelude.{
  ℕ, true, Option, none, some, List, [], ◌∷◌, ◌≡◌, ◌≢◌, refl, sym, subst, inl, inr,
}
use cirrus_cli.Parser.Tree.{Node, Nodes, name_of, deep_find_child}
use cirrus_cli.Parser.Tree.Matrix.{
  get_path, find_parent, replace_with, new_tasks, replace_task, Pass, expanded, no_expansion_done,
  panics, fails, not_under_task, is_expandable, single_pass,
}
use cirrus_cli.Parser.Tree.Matrix.Path.{
  get_path-deep_find_path, find_parent-Splits, Splits, some_injective, not_nil,
}
use cirrus_cli.Parser.Tree.Matrix.Fewer.{AllFewer, MakesFewer, new_tasks-MakesFewer}

-- the tree is changed at one node above the matrix that DeepFindChild finds, of the name of a task, into copies
-- with fewer matrices
abbrev pub Expands : Node → Node → Type 0
Expands tree tree' =
    (matrix : Node) × (above : List ℕ) × (below : List ℕ) × (task : Node) × (ts : Nodes)
    × (deep_find_child "matrix" tree ≡ some matrix)
    × (get_path above tree ≡ some task)
    × (get_path below task ≡ some matrix)
    × (is_expandable (name_of task) ≡ true)
    × (new_tasks below task matrix ≡ expanded ts)
    × (tree' ≡ replace_with above ts tree)
    × (above ≢ [])
    × (below ≢ [])
    × AllFewer task ts

-- what a pass may come to
abbrev pub IsPass : Node → Pass Node → Type 0
IsPass tree (expanded tree') = Expands tree tree'
IsPass tree no_expansion_done = deep_find_child "matrix" tree ≡ none
IsPass tree panics = is_expandable (name_of tree) ≡ true
IsPass tree (fails e) = (matrix : Node) × (deep_find_child "matrix" tree ≡ some matrix)

abbrev with_tasks : Node → List ℕ → Pass Nodes → Pass Node
with_tasks tree above q = elim q [
  | expanded ts ↦ replace_task above ts tree
  | no_expansion_done ↦ no_expansion_done
  | panics ↦ panics
  | fails e ↦ fails e
]

abbrev with_parent : Node → Option (List ℕ × List ℕ) → Pass Node
with_parent tree o = elim o [
  | none ↦ fails not_under_task
  | some (above, below) ↦ elim (get_path above tree) [
    | none ↦ no_expansion_done
    | some task ↦ elim (get_path below task) [
      | none ↦ no_expansion_done
      | some matrix ↦ with_tasks tree above (new_tasks below task matrix)
    ]
  ]
]

abbrev with_path : Node → Option (List ℕ) → Pass Node
with_path tree o = elim o [
  | none ↦ no_expansion_done
  | some p ↦ with_parent tree (find_parent (is_expandable) p tree)
]

with_tasks-IsPass :
    (tree matrix task : Node) (above below : List ℕ) (q : Pass Nodes)
    → deep_find_child "matrix" tree ≡ some matrix
    → get_path above tree ≡ some task
    → get_path below task ≡ some matrix
    → is_expandable (name_of task) ≡ true
    → new_tasks below task matrix ≡ q
    → below ≢ []
    → MakesFewer task q
    → IsPass tree (with_tasks tree above q)
unfolding get_path
with_tasks-IsPass tree matrix task above below no_expansion_done d a b t g z f = absurd f
with_tasks-IsPass tree matrix task above below panics d a b t g z f = absurd f
with_tasks-IsPass tree matrix task above below (fails e) d a b t g z f = (matrix, d)
with_tasks-IsPass tree matrix task [] below (expanded ts) d a b t g z f =
    subst (λ n. is_expandable (name_of n) ≡ true) (sym (some_injective a)) t
with_tasks-IsPass tree matrix task (i ∷ above) below (expanded ts) d a b t g z f =
    (matrix, i ∷ above, below, task, ts, d, a, b, t, g, refl, not_nil i above, z, f)

with_parent-IsPass :
    (tree matrix : Node) (p : List ℕ) (o : Option (List ℕ × List ℕ))
    → deep_find_child "matrix" tree ≡ some matrix
    → name_of matrix ≡ "matrix"
    → ((ab : List ℕ × List ℕ) → o ≡ some ab → Splits (is_expandable) p tree matrix ab)
    → IsPass tree (with_parent tree o)
with_parent-IsPass tree matrix p none d named s = (matrix, d)
with_parent-IsPass tree matrix p (some (above, below)) d named s =
    let (task, a, b, t, c, not_here) = s (above, below) refl in
    subst
      (λ o. IsPass tree (elim o [
        | none ↦ no_expansion_done
        | some k ↦ elim (get_path below k) [
          | none ↦ no_expansion_done
          | some m ↦ with_tasks tree above (new_tasks below k m)
        ]
      ]))
      (sym a)
      (subst
        (λ o. IsPass tree (elim o [
          | none ↦ no_expansion_done
          | some m ↦ with_tasks tree above (new_tasks below task m)
        ]))
        (sym b)
        (with_tasks-IsPass tree matrix task above below (new_tasks below task matrix) d a b t refl
          not_here (new_tasks-MakesFewer below task matrix not_here b named)))

-- One pass over a tree stops without a change only where DeepFindChild finds no matrix, fails only where there
-- is one, panics only where the root is a task, and otherwise replaces one task above the first matrix by the
-- copies of the switch over its value, of which each has fewer matrices than the task.
pub single_pass-IsPass : (tree : Node) → IsPass tree (single_pass tree)
unfolding single_pass
single_pass-IsPass tree = elim (get_path-deep_find_path "matrix" tree) [
  | inl (e, d) ↦ subst (λ o. IsPass tree (with_path tree o)) (sym e) d
  | inr (p, m, e, d, named, g) ↦
      subst (λ o. IsPass tree (with_path tree o)) (sym e)
        (with_parent-IsPass tree m p (find_parent (is_expandable) p tree) d named
          (λ ab h. find_parent-Splits (is_expandable) p tree m ab h g))
]
