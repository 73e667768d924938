-- ===== src/Parser/Tree/Matrix/Fewer.antt =====
-- Each copy of a task has fewer matrices than the task.
use cirrus_cli.Prelude.{
  ℕ, zero, suc, ◌+◌, ◌<◌, ◌≤◌, Bool, true, false, some, List, [], ◌∷◌, if◌then◌else◌, str_eq,
  eq_iff, arith, ◌≡◌, ◌≢◌, refl, sym, ap, subst, ◌∙◌, inl, inr, Option-cases,
}
use cirrus_cli.Parser.Tree.{
  Node, node, Nodes, nil, cons, name_of, children_of, is_map, map_value, list_value, scalar_value,
  no_value,
}
use cirrus_cli.Parser.Tree.Matrix.Path.{some_injective, not_none, get_path-below, get_path-none}
use cirrus_cli.Parser.Tree.Matrix.{
  nth, get_path, append_nodes, replace_child, replace_with, replace_below, copies_by_child,
  copies_by_item, new_tasks, Pass, expanded, no_expansion_done, panics, fails, not_a_map,
}

-- the matrices below a node, and those of a list of nodes, themselves included
unfoldable mutual
  pub matrices : Node → ℕ
  matrices (node n v ns) = matrices_in ns

  pub matrices_in : Nodes → ℕ
  matrices_in nil = 0
  matrices_in (cons n ns) =
      ((if str_eq (name_of n) "matrix" then 1 else 0) + matrices n) + matrices_in ns

abbrev own : Node → ℕ
own n = (if str_eq (name_of n) "matrix" then 1 else 0) + matrices n

matrices_in-append :
    (ns ms : Nodes) → matrices_in (append_nodes ns ms) ≡ matrices_in ns + matrices_in ms
unfolding append_nodes matrices
matrices_in-append nil ms = omega arith
matrices_in-append (cons n ns) ms = let rest = matrices_in-append ns ms in ground (arith, rest)

matrices-replace_child :
    (i : ℕ) (rs ns : Nodes) (m : Node)
    → nth i ns ≡ some m
    → matrices_in (replace_child i rs ns) + own m ≡ matrices_in ns + matrices_in rs
unfolding replace_child matrices nth
matrices-replace_child i rs nil m e = absurd (not_none e)
matrices-replace_child zero rs (cons n ns) m e =
    let same = ap own (some_injective e) in
    let sum = matrices_in-append rs ns in ground (arith, same, sum)
matrices-replace_child (suc i) rs (cons n ns) m e =
    let rest = matrices-replace_child i rs ns m e in ground (arith, rest)

pub name_of-replace_with :
    (p : List ℕ) (rs : Nodes) (n : Node) → name_of (replace_with p rs n) ≡ name_of n
unfolding replace_with
name_of-replace_with [] rs n = refl
name_of-replace_with (i ∷ []) rs (node n v ns) = refl
name_of-replace_with (i ∷ j ∷ p) rs (node n v ns) = refl

own-replace_with :
    (p : List ℕ) (rs : Nodes) (n m : Node)
    → matrices (replace_with p rs n) + own m ≡ matrices n + matrices_in rs
    → own (replace_with p rs n) + own m ≡ own n + matrices_in rs
own-replace_with p rs n m h = rw (name_of-replace_with p rs n) (ground (arith, h))

matrices-replace_below :
    (i : ℕ) (p : List ℕ) (rs ns : Nodes) (k m : Node)
    → nth i ns ≡ some k
    → matrices (replace_with p rs k) + own m ≡ matrices k + matrices_in rs
    → matrices_in (replace_below i p rs ns) + own m ≡ matrices_in ns + matrices_in rs
unfolding replace_with matrices nth
matrices-replace_below i p rs nil k m e f = absurd (not_none e)
matrices-replace_below zero p rs (cons n ns) k m e f =
    let here = own-replace_with p rs n m (
      subst (λ x. matrices (replace_with p rs x) + own m ≡ matrices x + matrices_in rs)
        (sym (some_injective e)) f) in
    ground (arith, here)
matrices-replace_below (suc i) p rs (cons n ns) k m e f =
    let rest = matrices-replace_below i p rs ns k m e f in ground (arith, rest)

matrices-replace_with :
    (i : ℕ) (p : List ℕ) (rs : Nodes) (n m : Node)
    → get_path (i ∷ p) n ≡ some m
    → matrices (replace_with (i ∷ p) rs n) + own m ≡ matrices n + matrices_in rs
unfolding replace_with matrices get_path nth
matrices-replace_with i [] rs (node n v ns) m e = elim (Option-cases (nth i ns)) [
  | inl d ↦ absurd (not_none (sym (get_path-none i [] (node n v ns) d) ∙ e))
  | inr (k, d) ↦
      matrices-replace_child i rs ns m (d ∙ sym (get_path-below i [] (node n v ns) k d) ∙ e)
]
matrices-replace_with i (j ∷ p) rs (node n v ns) m e =
    let rest = λ (k : Node). matrices-replace_with j p rs k m in
    elim (Option-cases (nth i ns)) [
      | inl d ↦ absurd (not_none (sym (get_path-none i (j ∷ p) (node n v ns) d) ∙ e))
      | inr (k, d) ↦
          matrices-replace_below i (j ∷ p) rs ns k m d
            (rest k (sym (get_path-below i (j ∷ p) (node n v ns) k d) ∙ e))
    ]

-- a matrix of a task, replaced by some of what is below it, leaves a task with fewer matrices
fewer :
    (below : List ℕ) (rs : Nodes) (task m : Node)
    → below ≢ []
    → get_path below task ≡ some m
    → name_of m ≡ "matrix"
    → matrices_in rs ≤ matrices m
    → matrices (replace_with below rs task) < matrices task
fewer [] rs task m h e d f = absurd (h refl)
fewer (i ∷ p) rs task m h e d f =
    let sum = matrices-replace_with i p rs task m e in
    let named = eq_iff (name_of m) "matrix" in ground (arith, sum, named, d, f)

-- all nodes of a list have fewer matrices than a node
abbrev pub AllFewer : Node → Nodes → Type 0
AllFewer task nil = Unit
AllFewer task (cons t ts) = (matrices t < matrices task) × AllFewer task ts

copies_by_child-AllFewer :
    (below : List ℕ) (task m : Node) (ms : Nodes)
    → below ≢ []
    → get_path below task ≡ some m
    → name_of m ≡ "matrix"
    → matrices_in ms ≤ matrices m
    → AllFewer task (copies_by_child below task ms)
unfolding copies_by_child matrices
copies_by_child-AllFewer below task m nil h e d f = tt
copies_by_child-AllFewer below task m (cons k ms) h e d f = (
  fewer below (cons k nil) task m h e d (ground (arith, f)),
  copies_by_child-AllFewer below task m ms h e d (ground (arith, f)),
)

matrices-children : (n : Node) → matrices_in (children_of n) ≡ matrices n
unfolding matrices
matrices-children (node n v ns) = refl

-- the same, of the copies that a pass makes, unless it fails
abbrev pub MakesFewer : Node → Pass Nodes → Type 0
MakesFewer task (expanded ts) = AllFewer task ts
MakesFewer task (fails e) = Unit
MakesFewer task _ = ⊥

abbrev pub item_step : Bool → Node → Pass Nodes → Pass Nodes
item_step b t rest =
    if b
    then elim rest [
      | expanded ts ↦ expanded (cons t ts)
      | no_expansion_done ↦ no_expansion_done
      | panics ↦ panics
      | fails e ↦ fails e
    ]
    else fails not_a_map

MakesFewer-step :
    (task t : Node) (b : Bool) (rest : Pass Nodes)
    → matrices t < matrices task
    → MakesFewer task rest
    → MakesFewer task (item_step b t rest)
MakesFewer-step task t true (expanded ts) h f = (h, f)
MakesFewer-step task t true no_expansion_done h f = absurd f
MakesFewer-step task t true panics h f = absurd f
MakesFewer-step task t true (fails e) h f = tt
MakesFewer-step task t false rest h f = tt

copies_by_item-MakesFewer :
    (below : List ℕ) (task m : Node) (ms : Nodes)
    → below ≢ []
    → get_path below task ≡ some m
    → name_of m ≡ "matrix"
    → matrices_in ms ≤ matrices m
    → MakesFewer task (copies_by_item below task ms)
unfolding copies_by_item matrices
copies_by_item-MakesFewer below task m nil h e d f = tt
copies_by_item-MakesFewer below task m (cons k ms) h e d f =
    let children = matrices-children k in
    MakesFewer-step task (replace_with below (children_of k) task) (is_map k)
      (copies_by_item below task ms)
      (fewer below (children_of k) task m h e d (ground (arith, f, children)))
      (copies_by_item-MakesFewer below task m ms h e d (ground (arith, f)))

pub new_tasks-MakesFewer :
    (below : List ℕ) (task m : Node)
    → below ≢ []
    → get_path below task ≡ some m
    → name_of m ≡ "matrix"
    → MakesFewer task (new_tasks below task m)
unfolding new_tasks matrices
new_tasks-MakesFewer below task (node n map_value ms) h e d =
    copies_by_child-AllFewer below task (node n map_value ms) ms h e d (ground arith)
new_tasks-MakesFewer below task (node n list_value ms) h e d =
    copies_by_item-MakesFewer below task (node n list_value ms) ms h e d (ground arith)
new_tasks-MakesFewer below task (node n (scalar_value s) ms) h e d = tt
new_tasks-MakesFewer below task (node n no_value ms) h e d = tt
