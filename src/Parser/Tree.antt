-- ===== src/Parser/Tree.antt =====
-- pkg/parser/node: the tree of a configuration (node.go, finder.go, matrix.go, accessor.go). A node's parent is
-- the node that holds it; lines and columns are left out.
pub mod Yaml
pub mod Matrix
use cirrus_cli.Prelude.{
  ℕ, String, Bool, true, false, ◌||◌, Option, none, some, List, [], ◌∷◌, ◌++◌, if◌then◌else◌,
  str_eq,
}

-- Node.Value; `no_value` is the nil interface
pub data Value : Type 0 where
  map_value list_value no_value : Value
  scalar_value : String → Value

-- Node
mutual
  pub data Node : Type 0 where
    node : String → Value → Nodes → Node

  pub data Nodes : Type 0 where
    nil : Nodes
    cons : Node → Nodes → Nodes

abbrev pub name_of : Node → String
name_of (node n v ns) = n

abbrev pub value_of : Node → Value
value_of (node n v ns) = v

abbrev pub children_of : Node → Nodes
children_of (node n v ns) = ns

-- append of a node to the children
unfoldable pub snoc : Nodes → Node → Nodes
snoc nil m = cons m nil
snoc (cons n ns) m = cons n (snoc ns m)

-- IsMap
abbrev pub is_map : Node → Bool
is_map (node n map_value ns) = true
is_map _ = false

abbrev is_nil : Nodes → Bool
is_nil nil = true
is_nil (cons n ns) = false

-- ValueIsEmpty
unfoldable pub value_is_empty : Node → Bool
value_is_empty (node n (scalar_value s) ns) = str_eq s ""
value_is_empty (node n no_value ns) = false
value_is_empty (node n _ ns) = is_nil ns

-- the loop of FindChild
unfoldable pub find_in : String → Nodes → Option Node
find_in name nil = none
find_in name (cons n ns) = if str_eq (name_of n) name then some n else find_in name ns

-- FindChild
abbrev pub find_child : String → Node → Option Node
find_child name n = find_in name (children_of n)

abbrev is_found : Option Node → Bool
is_found none = false
is_found (some n) = true

-- HasChild
abbrev pub has_child : String → Node → Bool
has_child name n = is_found (find_child name n)

-- DeepFindChild, and its loop over the children
unfoldable mutual
  pub deep_find_child : String → Node → Option Node
  deep_find_child name (node n v ns) = deep_find_in name ns

  pub deep_find_in : String → Nodes → Option Node
  deep_find_in name nil = none
  deep_find_in name (cons n ns) = elim (str_eq (name_of n) name) [
    | true ↦ some n
    | false ↦ elim (deep_find_child name n) [
      | some found ↦ some found
      | none ↦ deep_find_in name ns
    ]
  ]

module _ (is_exempt : String → Bool) where
  -- MergeFromMap: the loop over the children of the other node; `is_exempt` is the loop over mergeExemptions
  unfoldable pub merge_from_map : Nodes → Nodes → Nodes
  unfolding find_in snoc
  merge_from_map ns nil = ns
  merge_from_map ns (cons m ms) = elim (find_in (name_of m) ns) [
    | none ↦ merge_from_map (snoc ns m) ms
    | some _ ↦ if is_exempt (name_of m) then merge_from_map (snoc ns m) ms else merge_from_map ns ms
  ]

-- the error of an accessor, or its result
pub data Read {ℓ} (A : Type ℓ) : Type ℓ where
  reads : A → Read A
  parser_error : Read A

-- GetStringValue
abbrev pub get_string_value : Node → Read String
get_string_value (node n (scalar_value s) ns) = reads s
get_string_value _ = parser_error

-- the loop over list items that should be scalars
unfoldable pub scalars_in : Nodes → Read (List String)
scalars_in nil = reads []
scalars_in (cons n ns) = elim (get_string_value n) [
  | parser_error ↦ parser_error
  | reads s ↦ elim (scalars_in ns) [ parser_error ↦ parser_error | reads ss ↦ reads (s ∷ ss) ]
]

-- GetSliceOfStrings
abbrev pub get_slice_of_strings : Node → Read (List String)
get_slice_of_strings (node n list_value ns) = scalars_in ns
get_slice_of_strings _ = parser_error

-- GetSliceOfNonEmptyStrings
abbrev pub get_slice_of_non_empty_strings : Node → Read (List String)
get_slice_of_non_empty_strings (node n (scalar_value s) ns) = reads (s ∷ [])
get_slice_of_non_empty_strings n = get_slice_of_strings n
