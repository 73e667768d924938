-- ===== src/Parser/Tree/Matrix.antt =====
-- pkg/parser/modifier/matrix/matrix.go: the expansion of matrices, with pkg/parser/node/matrix.go: FindParent,
-- GetPath, DeepCopyWithReplacements, ReplaceWith. A place in a tree is the path of indices from its root, as
-- PathUpwardsUpto makes it.
pub mod Fewer
pub mod Path
pub mod OnePass
pub mod Weight
pub mod Copies
pub mod Loop
use cirrus_cli.Prelude.{
  ℕ, zero, suc, String, Bool, true, false, ◌||◌, Option, none, some, List, [], ◌∷◌, ◌++◌,
  if◌then◌else◌, str_eq,
}
use cirrus_cli.Parser.Suffix.{ends_with}
use cirrus_cli.Parser.Tree.{
  Value, map_value, list_value, no_value, scalar_value, Node, node, Nodes, nil, cons, name_of,
  children_of, is_map,
}

unfoldable pub append_nodes : Nodes → Nodes → Nodes
append_nodes nil ms = ms
append_nodes (cons n ns) ms = cons n (append_nodes ns ms)

unfoldable pub nth : ℕ → Nodes → Option Node
nth i nil = none
nth zero (cons n ns) = some n
nth (suc i) (cons n ns) = nth i ns

-- DeepFindChild, by the path to what it finds; its loop starts at an index
unfoldable mutual
  pub deep_find_path : String → Node → Option (List ℕ)
  deep_find_path name (node n v ns) = deep_find_path_in name ns

  pub deep_find_path_in : String → Nodes → Option (List ℕ)
  deep_find_path_in name nil = none
  deep_find_path_in name (cons n ns) = elim (str_eq (name_of n) name) [
    | true ↦ some (0 ∷ [])
    | false ↦ elim (deep_find_path name n) [
      | some p ↦ some (0 ∷ p)
      | none ↦ elim (deep_find_path_in name ns) [
        | some [] ↦ none
        | some (i ∷ p) ↦ some (suc i ∷ p)
        | none ↦ none
      ]
    ]
  ]

-- GetPath
unfoldable pub get_path : List ℕ → Node → Option Node
unfolding nth
get_path [] n = some n
get_path (i ∷ p) n = elim (nth i (children_of n)) [ none ↦ none | some m ↦ get_path p m ]

-- FindParent, from the node at a path: the path to the nearest node above it that satisfies the test, and the
-- rest of the path
unfoldable pub find_parent : (String → Bool) → List ℕ → Node → Option (List ℕ × List ℕ)
unfolding nth
find_parent test [] n = none
find_parent test (i ∷ p) n =
    let here : Option (List ℕ × List ℕ) = if test (name_of n) then some ([], i ∷ p) else none in
    elim (nth i (children_of n)) [
      | none ↦ here
      | some m ↦ elim (find_parent test p m) [
        | some (above, below) ↦ some (i ∷ above, below)
        | none ↦ here
      ]
    ]

-- the loop of ReplaceWith over the children of the parent, where the node to replace has an index
unfoldable pub replace_child : ℕ → Nodes → Nodes → Nodes
unfolding append_nodes
replace_child i with' nil = nil
replace_child zero with' (cons n ns) = append_nodes with' ns
replace_child (suc i) with' (cons n ns) = cons n (replace_child i with' ns)

-- ReplaceWith of the node at a path; the root has no parent
unfoldable mutual
  pub replace_with : List ℕ → Nodes → Node → Node
  replace_with [] with' n = n
  replace_with (i ∷ []) with' (node n v ns) = node n v (replace_child i with' ns)
  replace_with (i ∷ j ∷ p) with' (node n v ns) = node n v (replace_below i (j ∷ p) with' ns)

  pub replace_below : ℕ → List ℕ → Nodes → Nodes → Nodes
  replace_below i p with' nil = nil
  replace_below zero p with' (cons n ns) = cons (replace_with p with' n) ns
  replace_below (suc i) p with' (cons n ns) = cons n (replace_below i p with' ns)

-- the errors of singlePass, and errNoExpansionDone
pub data MatrixError : Type 0 where
  not_under_task not_a_map not_a_collection : MatrixError

pub data Pass {ℓ} (A : Type ℓ) : Type ℓ where
  expanded : A → Pass A
  no_expansion_done panics : Pass A
  fails : MatrixError → Pass A

-- the loops of singlePass over the children of a matrix: the copies of the task, by DeepCopyWithReplacements
unfoldable pub copies_by_child : List ℕ → Node → Nodes → Nodes
unfolding replace_with
copies_by_child below task nil = nil
copies_by_child below task (cons m ms) =
    cons (replace_with below (cons m nil) task) (copies_by_child below task ms)

unfoldable pub copies_by_item : List ℕ → Node → Nodes → Pass Nodes
unfolding replace_with
copies_by_item below task nil = expanded nil
copies_by_item below task (cons m ms) =
    let rest = copies_by_item below task ms in
    if is_map m
    then elim rest [
      | expanded ts ↦ expanded (cons (replace_with below (children_of m) task) ts)
      | no_expansion_done ↦ no_expansion_done
      | panics ↦ panics
      | fails e ↦ fails e
    ]
    else fails not_a_map

-- the switch of singlePass over the value of the matrix
unfoldable pub new_tasks : List ℕ → Node → Node → Pass Nodes
unfolding copies_by_child copies_by_item
new_tasks below task (node n map_value ms) = expanded (copies_by_child below task ms)
new_tasks below task (node n list_value ms) = copies_by_item below task ms
new_tasks below task (node n _ ms) = fails not_a_collection

-- ReplaceWith of the task, whose parent is not nil
abbrev pub replace_task : List ℕ → Nodes → Node → Pass Node
replace_task [] ts tree = panics
replace_task (i ∷ p) ts tree = expanded (replace_with (i ∷ p) ts tree)

abbrev pub is_expandable : String → Bool
is_expandable name =
    ends_with name "task" || ends_with name "docker_builder" || ends_with name "pipe"

-- singlePass
unfoldable pub single_pass : Node → Pass Node
unfolding ends_with deep_find_path find_parent get_path new_tasks replace_with
single_pass tree = elim (deep_find_path "matrix" tree) [
  | none ↦ no_expansion_done
  | some p ↦ elim (find_parent is_expandable p tree) [
    | none ↦ fails not_under_task
    | some (above, below) ↦ elim (get_path above tree) [
      | none ↦ no_expansion_done
      | some task ↦ elim (get_path below task) [
        | none ↦ no_expansion_done
        | some matrix ↦ elim (new_tasks below task matrix) [
          | expanded ts ↦ replace_task above ts tree
          | no_expansion_done ↦ no_expansion_done
          | panics ↦ panics
          | fails e ↦ fails e
        ]
      ]
    ]
  ]
]

-- ExpandMatrices, on fuel
unfoldable pub expand_matrices : ℕ → Node → Option (Pass Node)
unfolding single_pass
expand_matrices zero tree = none
expand_matrices (suc k) tree = elim (single_pass tree) [
  | expanded tree' ↦ expand_matrices k tree'
  | no_expansion_done ↦ some (expanded tree)
  | panics ↦ some panics
  | fails e ↦ some (fails e)
]
