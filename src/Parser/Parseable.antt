-- ===== src/Parser/Parseable.antt =====
-- pkg/parser/parseable: DefaultParser, which hands the children of a node to its fields. What a field does
-- with a node is a call that changes some state and may fail. DeepFindCollectible, which merges the nodes of one
-- name over the parents of a node, enters as the argument `collect`.
pub mod Seen
pub mod Instances
use cirrus_cli.Prelude.{
  String, Bool, true, false, not, ◌&&◌, Option, none, some, List, [], ◌∷◌, if◌then◌else◌, str_eq,
}
use cirrus_cli.Parser.Tree.{
  Node, Nodes, nil, cons, name_of, children_of, is_map, value_is_empty, find_in,
}

-- the loop's test on `redefinitions`: whether a child of that name comes later
abbrev pub redefined : String → Nodes → Bool
redefined name later = elim (find_in name later) [ none ↦ false | some n ↦ true ]

unfoldable pub is_seen : String → List String → Bool
is_seen key [] = false
is_seen key (k ∷ ks) = if str_eq k key then true else is_seen key ks

module _ (State Error : Type 0) where
  -- nodeFunc, with the state after it also where it fails
  abbrev pub NodeFunc : Type 0
  NodeFunc = Node → State → State × Option Error

  -- Field: Matches and MapKey of its name, `required`, `repeatable` and `onFound`
  pub record Field : Type 0 where
    pub matches : String → Bool
    pub map_key : String
    pub required : Bool
    pub repeatable : Bool
    pub on_found : NodeFunc

  pub record CollectibleField : Type 0 where
    pub name : String
    pub defines_instance : Bool
    pub on_found : NodeFunc

  pub record DefaultParser : Type 0 where
    pub fields : List Field
    pub collectible_fields : List CollectibleField

  -- the error of a field, or that of a required field that was not set
  pub data ParseError : Type 0 where
    field_failed : Error → ParseError
    not_set : String → ParseError

  -- a result, or an error that ends Parse
  pub data Step (A : Type 0) : Type 0 where
    go_on : A → Step A
    stop : ParseError → Step A

  -- FindFieldByName
  unfoldable pub find_field_by_name : String → List Field → Option Field
  find_field_by_name name [] = none
  find_field_by_name name (f ∷ fs) = if f.matches name then some f else find_field_by_name name fs

  -- the loop over the ordinary fields: the keys of seenFields, the latest first
  unfoldable pub ordinary_fields :
      List Field → Nodes → List String → State → State × Step (List String)
  unfolding find_field_by_name find_in
  ordinary_fields fields nil seen s = (s, go_on seen)
  ordinary_fields fields (cons child later) seen s =
      elim (find_field_by_name (name_of child) fields) [
        | none ↦ ordinary_fields fields later seen s
        | some f ↦ elim (not f.repeatable && redefined (name_of child) later) [
          | true ↦ ordinary_fields fields later seen s
          | false ↦
              let (t, o) = f.on_found child s in
              elim o [
                | some e ↦ (t, stop (field_failed e))
                | none ↦ ordinary_fields fields later (f.map_key ∷ seen) t
              ]
        ]
      ]

  -- the loop that checks the required fields
  unfoldable pub required_fields : List Field → List String → Option ParseError
  unfolding is_seen
  required_fields [] seen = none
  required_fields (f ∷ fs) seen =
      if f.required && not (is_seen f.map_key seen)
      then some (not_set f.map_key)
      else required_fields fs seen

  -- the test of Parse after the loop over the collectible fields
  unfoldable pub check_delayed : State × Step (Option Error × Bool) → State × Step Unit
  check_delayed (s, stop e) = (s, stop e)
  check_delayed (s, go_on (some e, false)) = (s, stop (field_failed e))
  check_delayed (s, go_on (delayed, matched)) = (s, go_on tt)

  unfoldable pub collectible_of : String → List CollectibleField → Option CollectibleField
  collectible_of name [] = none
  collectible_of name (f ∷ fs) = if str_eq f.name name then some f else collectible_of name fs

  abbrev pub then_do :
      {A B : Type 0} → State × Step A → (A → State → State × Step B) → State × Step B
  then_do (s, stop e) f = (s, stop e)
  then_do (s, go_on a) f = f a s

  -- the end of Parse, after the loop over the ordinary fields
  unfoldable pub finish : List Field → State × Step (List String) → State × Option ParseError
  unfolding required_fields
  finish fields (s, stop e) = (s, some e)
  finish fields (s, go_on seen) = (s, required_fields fields seen)

  module _ (collect : String → Node → Option Node) (self : Node) where
    -- evaluateCollectible: the state, whether there were nodes, and the error
    unfoldable pub evaluate_collectible : CollectibleField → State → State × Bool × Option Error
    evaluate_collectible field s = elim (collect field.name self) [
      | none ↦ (s, false, none)
      | some children ↦ let (t, e) = field.on_found children s in (t, true, e)
    ]

    -- the loop over the collectible fields, with delayedError and atLeastOneInstanceMatched
    unfoldable pub collectible_loop :
        List CollectibleField → Option Error → Bool → State → State × Step (Option Error × Bool)
    unfolding evaluate_collectible
    collectible_loop [] delayed matched s = (s, go_on (delayed, matched))
    collectible_loop (f ∷ fs) delayed matched s =
        let (t, found, o) = evaluate_collectible f s in
        elim o [
          | none ↦
              collectible_loop fs delayed (if f.defines_instance && found then true else matched) t
          | some e ↦ elim f.defines_instance [
            | true ↦ collectible_loop fs (some e) matched t
            | false ↦ (t, stop (field_failed e))
          ]
        ]

    -- the loop that evaluates again the collectible fields that the node has children of
    unfoldable pub double_check : List CollectibleField → Nodes → State → State × Step Unit
    unfolding collectible_of evaluate_collectible
    double_check fields nil s = (s, go_on tt)
    double_check fields (cons child later) s = elim (collectible_of (name_of child) fields) [
      | none ↦ double_check fields later s
      | some f ↦
          let (t, found, o) = evaluate_collectible f s in
          elim o [ none ↦ double_check fields later t | some e ↦ (t, stop (field_failed e)) ]
    ]

    -- Parse
    unfoldable pub parse : DefaultParser → State → State × Option ParseError
    unfolding check_delayed collectible_loop double_check ordinary_fields finish
    parse parser s = finish parser.fields (
        then_do
          (then_do (check_delayed (collectible_loop parser.collectible_fields none false s))
            (λ u t. double_check parser.collectible_fields (children_of self) t))
          (λ u t. ordinary_fields parser.fields (children_of self) [] t))

-- the warning that Parse starts with, "expected a map"
unfoldable pub expected_map : Node → Bool
unfolding value_is_empty
expected_map n = not (is_map n) && not (value_is_empty n)
