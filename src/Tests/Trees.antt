-- ===== src/Tests/Trees.antt =====
-- pkg/parser/node and pkg/parser/modifier/matrix on small trees.
use cirrus_cli.Prelude.{arith, String, Bool, false, ◌≡◌, refl, some, []}
use cirrus_cli.Parser.Suffix.{ends_with}
use cirrus_cli.Parser.Tree.{Node, node, Nodes, nil, cons, map_value, scalar_value}
use cirrus_cli.Parser.Tree.Yaml.{Yaml, marshal, convert, converted}
use cirrus_cli.Parser.Tree.Yaml.RoundTrip.{IsPlain, convert-marshal}
use cirrus_cli.Parser.Tree.Matrix.{Pass, replace_child, single_pass, expand_matrices, expanded}
use cirrus_cli.Parser.Tree.Matrix.Loop.{IsDone, expand_matrices-Ends, weight_of}
use cirrus_cli.Parser.Tree.Matrix.Weight.{weight, growth, times}
use cirrus_cli.Parser.Tree.Matrix.OnePass.{IsPass, single_pass-IsPass}

abbrev leaf : String → String → Node
leaf n s = node n (scalar_value s) nil

-- `test_task` with a matrix of two images
abbrev tree : Node
tree = node "root" map_value (
    cons
      (node "test_task" map_value (
        cons (node "matrix" map_value (cons (leaf "a_image" "a") (cons (leaf "b_image" "b") nil)))
          (cons (leaf "script" "s") nil)))
      nil)

abbrev expanded_tree : Node
expanded_tree = node "root" map_value (
    cons (node "test_task" map_value (cons (leaf "a_image" "a") (cons (leaf "script" "s") nil))) (
      cons (node "test_task" map_value (cons (leaf "b_image" "b") (cons (leaf "script" "s") nil)))
        nil))

expansion : single_pass tree ≡ expanded expanded_tree
unfolding single_pass replace_child
expansion = refl

single_pass-IsPass_example : IsPass tree (single_pass tree)
single_pass-IsPass_example = single_pass-IsPass tree

abbrev tag : String → String
tag s = "!!str"

abbrev never : String → Bool
never s = false

convert-marshal_example :
    (y : Yaml) × (marshal tag tree ≡ some y) × (convert never [] "root" y ≡ converted tree)
unfolding IsPlain
convert-marshal_example =
    convert-marshal never tag (λ s. refl) tree [] (((refl, (refl, tt)), (refl, tt)), tt)

abbrev env : Nodes
env = cons (leaf "CI" "true") (cons (leaf "GO" "1") nil)

tree_weight : weight_of tree ≡ 66
unfolding weight growth times ends_with
tree_weight = refl

expand_matrices-Ends_example : (r : Pass Node) × (expand_matrices 67 tree ≡ some r) × IsDone r
unfolding ends_with
expand_matrices-Ends_example = expand_matrices-Ends 67 tree (ground (arith, tree_weight)) refl

all_expanded : expand_matrices 4 tree ≡ some (expanded expanded_tree)
unfolding expand_matrices replace_child
all_expanded = refl
