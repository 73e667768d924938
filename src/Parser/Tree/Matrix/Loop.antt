-- ===== src/Parser/Tree/Matrix/Loop.antt =====
-- The expansion of all matrices of a tree ends.
use cirrus_cli.Prelude.{
  ℕ, zero, suc, ◌<◌, true, false, none, some, ◌≡◌, refl, sym, ap, subst, ◌∙◌, arith,
}
use cirrus_cli.Parser.Tree.{Node, name_of, deep_find_child}
use cirrus_cli.Parser.Tree.Matrix.{
  Pass, expanded, no_expansion_done, panics, fails, is_expandable, single_pass, expand_matrices,
}
use cirrus_cli.Parser.Tree.Matrix.Fewer.{name_of-replace_with}
use cirrus_cli.Parser.Tree.Matrix.Weight.{weight, weight-replace_with}
use cirrus_cli.Parser.Tree.Matrix.Copies.{new_tasks_lighter}
use cirrus_cli.Parser.Tree.Matrix.OnePass.{Expands, IsPass, single_pass-IsPass}

differ : false ≡ true → ⊥
differ h = ground (arith, h)

abbrev pub weight_of : Node → ℕ
weight_of n = weight (is_expandable) n

expanded_lighter :
    (tree tree' : Node)
    → Expands tree tree'
    → (weight_of tree' < weight_of tree) × (name_of tree' ≡ name_of tree)
expanded_lighter tree tree' (matrix, above, below, task, ts, d, a, b, t, g, same, z, w, f) = (
  subst (λ x. weight_of x < weight_of tree) (sym same)
      (weight-replace_with (is_expandable) above ts tree task z a
        (new_tasks_lighter (is_expandable) below task matrix ts w b t g)),
  ap name_of same ∙ name_of-replace_with above ts tree,
)

-- the end of an expansion
abbrev pub IsDone : Pass Node → Type 0
IsDone (expanded tree) = deep_find_child "matrix" tree ≡ none
IsDone (fails e) = Unit
IsDone _ = ⊥

abbrev pub Ends : ℕ → Node → Type 0
Ends k tree = (r : Pass Node) × (expand_matrices k tree ≡ some r) × IsDone r

after_pass :
    (k : ℕ) (tree : Node) (q : Pass Node)
    → is_expandable (name_of tree) ≡ false
    → IsPass tree q
    → ((tree' : Node)
        → weight_of tree' < weight_of tree
        → is_expandable (name_of tree') ≡ false
        → Ends k tree')
    → (r : Pass Node) × ((elim q [
      | expanded tree' ↦ expand_matrices k tree'
      | no_expansion_done ↦ some (expanded tree)
      | panics ↦ some panics
      | fails e ↦ some (fails e)
    ])
        ≡ some r)
      × IsDone r
after_pass k tree (expanded tree') z h rest =
    let (less, named) = expanded_lighter tree tree' h in
    rest tree' less (ap (is_expandable) named ∙ z)
after_pass k tree no_expansion_done z h rest = (expanded tree, refl, h)
after_pass k tree panics z h rest = absurd (differ (sym z ∙ h))
after_pass k tree (fails e) z h rest = (fails e, refl, tt)

-- ExpandMatrices ends, within as many passes as the tree weighs and one more, on every tree whose root is not
-- called like a task; it does not panic, and unless it fails no matrix is left.
pub expand_matrices-Ends :
    (k : ℕ) (tree : Node) → weight_of tree < k → is_expandable (name_of tree) ≡ false → Ends k tree
unfolding expand_matrices
expand_matrices-Ends zero tree h z = ground (arith, h)
expand_matrices-Ends (suc k) tree h z =
    after_pass k tree (single_pass tree) z (single_pass-IsPass tree)
      (λ tree' less z'. expand_matrices-Ends k tree' (ground (arith, h, less)) z')
