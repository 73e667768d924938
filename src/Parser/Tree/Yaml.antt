-- ===== src/Parser/Tree/Yaml.antt =====
-- pkg/parser/node/yaml.go: from YAML nodes to the tree and back. The YAML nodes are those of the package yaml.v3;
-- its Node.SetString is an argument, by the tag that it sets. Lines and columns are left out.
pub mod RoundTrip
pub mod Merge
use cirrus_cli.Prelude.{
  ℕ, String, Bool, true, false, not, ◌&&◌, ◌||◌, Option, none, some, List, [], ◌∷◌, ◌++◌,
  if◌then◌else◌, str_eq,
}
use cirrus_cli.Parser.Tree.{
  Value, map_value, list_value, no_value, scalar_value, Node, node, Nodes, nil, cons, value_of,
  children_of, name_of, snoc, is_map, find_in, merge_from_map,
}

-- yaml.Node, each kind with what is read of it: a sequence or a mapping has its anchor, tag and contents, a scalar
-- its anchor, tag and value, and an alias, which has no tag, the anchor's name and the node that it stands for
mutual
  pub data Yaml : Type 0 where
    sequence mapping : String → String → Yamls → Yaml
    scalar : String → String → String → Yaml
    alias : String → Yaml → Yaml
    other_kind : Yaml

  pub data Yamls : Type 0 where
    end : Yamls
    item : Yaml → Yamls → Yamls

-- Tag
abbrev pub tag_of : Yaml → String
tag_of (sequence anchor tag ys) = tag
tag_of (mapping anchor tag ys) = tag
tag_of (scalar anchor tag value) = tag
tag_of _ = ""

-- Value, of a key
abbrev pub text_of : Yaml → String
text_of (scalar anchor tag value) = value
text_of (alias name y) = name
text_of _ = ""

-- Anchor
abbrev pub anchor_of : Yaml → String
anchor_of (sequence anchor tag ys) = anchor
anchor_of (mapping anchor tag ys) = anchor
anchor_of (scalar anchor tag value) = anchor
anchor_of _ = ""

abbrev is_alias : Yaml → Bool
is_alias (alias name y) = true
is_alias _ = false

abbrev is_sequence : Yaml → Bool
is_sequence (sequence anchor tag ys) = true
is_sequence _ = false

-- the errors of convert
pub data ConvertError : Type 0 where
  unbalanced_map key_not_string recursive_alias unexpected_kind bad_merge_key bad_merge_sequence :
      ConvertError

pub data Converted {ℓ} (A : Type ℓ) : Type ℓ where
  converted : A → Converted A
  fails : ConvertError → Converted A

unfoldable pub has_anchor : String → List String → Bool
has_anchor name [] = false
has_anchor name (a ∷ as') = if str_eq a name then true else has_anchor name as'

abbrev pub is_even : Yamls → Bool
is_even end = true
is_even (item y end) = false
is_even (item y (item z ys)) = is_even ys

module _ (is_exempt : String → Bool) where
  -- the loop of merge over the entries of a sequence
  unfoldable pub merge_entries : Nodes → Nodes → Converted Nodes
  unfolding merge_from_map
  merge_entries ns nil = converted ns
  merge_entries ns (cons m ms) =
      let rest = merge_entries (merge_from_map is_exempt ns (children_of m)) ms in
      if is_map m then rest else fails bad_merge_sequence

  -- merge, once its value is converted: the value and the children of the node after it. An alias to a mapping
  -- adds to the children, one to a sequence overwrites the node.
  unfoldable pub merge_value : Yaml → Value → Nodes → Node → Converted (Value × Nodes)
  unfolding merge_entries
  merge_value value v ns (node n w ms) =
      if is_alias value
      then elim w [
        | map_value ↦ converted (v, merge_from_map is_exempt ns ms)
        | list_value ↦ converted (list_value, ms)
        | no_value ↦ fails bad_merge_key
        | scalar_value s ↦ fails bad_merge_key
      ]
      else if is_sequence value
      then elim (merge_entries ns ms) [ fails e ↦ fails e | converted ks ↦ converted (v, ks) ]
      else converted (v, ns)

  -- convert, with its loops over the items of a sequence and over the pairs of a mapping; the list has the
  -- anchors of the nodes above
  unfoldable mutual
    pub convert : List String → String → Yaml → Converted Node
    convert above name (sequence anchor tag ys) = elim (convert_items (anchor ∷ above) ys) [
      | fails e ↦ fails e
      | converted ns ↦ converted (node name list_value ns)
    ]
    convert above name (mapping anchor tag ys) = elim (is_even ys) [
      | false ↦ fails unbalanced_map
      | true ↦ elim (convert_pairs (anchor ∷ above) map_value nil ys) [
        | fails e ↦ fails e
        | converted (v, ns) ↦ converted (node name v ns)
      ]
    ]
    convert above name (scalar anchor tag value) = converted (node name (scalar_value value) nil)
    convert above name (alias target y) = elim (has_anchor target above) [
      | true ↦ fails recursive_alias
      | false ↦ convert above name y
    ]
    convert above name other_kind = fails unexpected_kind

    pub convert_items : List String → Yamls → Converted Nodes
    convert_items above end = converted nil
    convert_items above (item y ys) = elim (str_eq (tag_of y) "!!null") [
      | true ↦ convert_items above ys
      | false ↦ elim (convert above "" y) [
        | fails e ↦ fails e
        | converted n ↦ elim (convert_items above ys) [
          | fails e ↦ fails e
          | converted ns ↦ converted (cons n ns)
        ]
      ]
    ]

    pub convert_pairs : List String → Value → Nodes → Yamls → Converted (Value × Nodes)
    convert_pairs above v ns end = converted (v, ns)
    convert_pairs above v ns (item key end) = converted (v, ns)
    convert_pairs above v ns (item key (item value ys)) = elim (str_eq (tag_of key) "!!merge") [
      | true ↦ elim (convert above "" value) [
        | fails e ↦ fails e
        | converted m ↦ elim (merge_value value v ns m) [
          | fails e ↦ fails e
          | converted (w, ks) ↦ convert_pairs above w ks ys
        ]
      ]
      | false ↦ elim (str_eq (tag_of key) "!!str") [
        | false ↦ fails key_not_string
        | true ↦ elim (convert above (text_of key) value) [
          | fails e ↦ fails e
          | converted m ↦ convert_pairs above v (snoc ns m) ys
        ]
      ]
    ]

module _ (string_tag : String → String) where
  -- yamlhelper.NewStringNode
  abbrev pub new_string_node : String → Yaml
  new_string_node s = scalar "" (string_tag s) s

  -- MarshalYAML; `none` for an unknown node type
  unfoldable mutual
    pub marshal : Node → Option Yaml
    marshal (node n map_value ns) = elim (marshal_pairs ns) [
      | none ↦ none
      | some ys ↦ some (mapping "" "!!map" ys)
    ]
    marshal (node n list_value ns) = elim (marshal_items ns) [
      | none ↦ none
      | some ys ↦ some (sequence "" "!!seq" ys)
    ]
    marshal (node n (scalar_value s) ns) = some (new_string_node s)
    marshal (node n no_value ns) = none

    pub marshal_pairs : Nodes → Option Yamls
    marshal_pairs nil = some end
    marshal_pairs (cons n ns) = elim (marshal n) [
      | none ↦ none
      | some y ↦ elim (marshal_pairs ns) [
        | none ↦ none
        | some ys ↦ some (item (new_string_node (name_of n)) (item y ys))
      ]
    ]

    pub marshal_items : Nodes → Option Yamls
    marshal_items nil = some end
    marshal_items (cons n ns) = elim (marshal n) [
      | none ↦ none
      | some y ↦ elim (marshal_items ns) [ none ↦ none | some ys ↦ some (item y ys) ]
    ]
