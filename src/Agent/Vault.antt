-- ===== src/Agent/Vault.antt =====
-- internal/agent/executor/vaultunboxer/boxedvalue.go: values of the form VAULT[path selector args], as ASCII
-- texts, and the selection from what Vault returns. json.Marshal is an argument.
pub mod RoundTrip
use cirrus_cli.Prelude.{
  ℕ, Bool, true, false, not, ◌||◌, Option, none, some, List, [], ◌∷◌, ◌++◌, ◌==◌, if◌then◌else◌,
  Text, text_eq, has_prefix, after_prefix, split, split_from,
}

-- vaultPathArgs, in some order of iteration
abbrev pub PathArgs : Type 0
PathArgs = List (Text × List Text)

pub record BoxedValue : Type 0 where
  pub vault_path : Text
  pub vault_path_args : PathArgs
  pub data_path : List Text
  pub use_cache : Bool

-- the value, ErrNotABoxedValue, or ErrInvalidBoxedValue
pub data Unboxed : Type 0 where
  boxed : BoxedValue → Unboxed
  not_boxed invalid : Unboxed

abbrev pub prefix_normal : Text
prefix_normal = b'V' ∷ b'A' ∷ b'U' ∷ b'L' ∷ b'T' ∷ b'[' ∷ []

abbrev pub prefix_nocache : Text
prefix_nocache =
    b'V' ∷ b'A' ∷ b'U' ∷ b'L' ∷ b'T' ∷ b'_' ∷ b'N' ∷ b'O' ∷ b'C' ∷ b'A' ∷ b'C' ∷ b'H' ∷ b'E' ∷ b'['
    ∷ []

-- the text before its suffix "]", if it has it
unfoldable pub trim_suffix : Text → Option Text
trim_suffix [] = none
trim_suffix (c ∷ []) = if c == b']' then some [] else none
trim_suffix (c ∷ d ∷ s) = elim (trim_suffix (d ∷ s)) [ none ↦ none | some t ↦ some (c ∷ t) ]

-- strings.Contains s "="
unfoldable pub has_equals : Text → Bool
has_equals [] = false
has_equals (c ∷ s) = if c == b'=' then true else has_equals s

abbrev pub is_empty : Text → Bool
is_empty [] = true
is_empty (c ∷ s) = false

-- the loop over the selector's elements
unfoldable pub has_empty_element : List Text → Bool
has_empty_element [] = false
has_empty_element (e ∷ es) = if is_empty e then true else has_empty_element es

-- `vaultPathArgs[k] = append(vaultPathArgs[k], v)`
unfoldable pub add_arg : Text → Text → PathArgs → PathArgs
unfolding text_eq
add_arg k v [] = (k, v ∷ []) ∷ []
add_arg k v ((j, vs) ∷ m) =
    let rest = add_arg k v m in if text_eq j k then (j, vs ++ v ∷ []) ∷ m else (j, vs) ∷ rest

-- the two parts of an argument, if it is in the form A=B
abbrev pub arg_parts : List Text → Option (Text × Text)
arg_parts (k ∷ v ∷ []) = if is_empty k || is_empty v then none else some (k, v)
arg_parts _ = none

-- the loop over the arguments
unfoldable pub parse_args : List Text → PathArgs → Option PathArgs
unfolding split_from add_arg
parse_args [] m = some m
parse_args (a ∷ as') m = elim (arg_parts (split b'=' a)) [
  | none ↦ none
  | some (k, v) ↦ parse_args as' (add_arg k v m)
]

-- NewBoxedValue from the check of the selector's elements on
abbrev pub parse_selected : Bool → Text → List Text → List Text → Unboxed
parse_selected use_cache path elements args =
    if has_empty_element elements then invalid else elim (parse_args args []) [
      | none ↦ invalid
      | some m ↦ boxed (record {
        vault_path = path;
        vault_path_args = m;
        data_path = elements;
        use_cache = use_cache;
      })
    ]

-- NewBoxedValue from the split at spaces on
abbrev pub parse_parts : Bool → List Text → Unboxed
parse_parts use_cache (path ∷ selector ∷ args) =
    if has_equals selector
    then invalid
    else parse_selected use_cache path (split b'.' selector) args
parse_parts use_cache _ = invalid

-- NewBoxedValue from the test on the suffix on
abbrev pub parse_trimmed : Bool → Option Text → Unboxed
parse_trimmed use_cache none = not_boxed
parse_trimmed use_cache (some t) = parse_parts use_cache (split b' ' t)

-- NewBoxedValue
unfoldable pub new_boxed_value : Text → Unboxed
unfolding has_prefix after_prefix trim_suffix split_from has_equals has_empty_element parse_args
new_boxed_value s =
    if has_prefix s prefix_normal
    then parse_trimmed true (trim_suffix (after_prefix s prefix_normal))
    else if has_prefix s prefix_nocache
    then parse_trimmed false (trim_suffix (after_prefix s prefix_nocache))
    else not_boxed

-- the data that Vault returns: a string, a map from strings, or something else
mutual
  pub data Value : Type 0 where
    text_value : Text → Value
    map_value : Fields → Value
    other_value : Value

  pub data Fields : Type 0 where
    no_fields : Fields
    field : Text → Value → Fields → Fields

unfoldable pub field_of : Text → Fields → Option Value
unfolding text_eq
field_of k no_fields = none
field_of k (field j v fs) = if text_eq j k then some v else field_of k fs

-- the loop of Select
unfoldable pub descend : List Text → Value → Option Value
unfolding field_of
descend [] v = some v
descend (e ∷ es) (map_value fs) = elim (field_of e fs) [ none ↦ none | some v ↦ descend es v ]
descend (e ∷ es) _ = none

-- the type switch behind the loop; `marshal` is json.Marshal of a map, none on an error
abbrev pub selected : (Fields → Option Text) → Value → Option Text
selected marshal (text_value s) = some s
selected marshal (map_value fs) = marshal fs
selected marshal other_value = none

-- Select: the text, or ErrInvalidBoxedValue
unfoldable pub select : (Fields → Option Text) → BoxedValue → Value → Option Text
unfolding descend
select marshal b v = elim (descend b.data_path v) [ none ↦ none | some w ↦ selected marshal w ]
