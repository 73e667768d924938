-- ===== src/Parser/Expander.antt =====
-- pkg/parser/expander/expander.go: ExpandEnvironmentVariables. Texts are lists of bytes, and the map of
-- the environment is an association list with one entry for a key.
pub mod Passes
pub mod Keys
use cirrus_cli.Prelude.{
  ℕ, zero, suc, ◌-◌, Bool, true, false, not, List, [], ◌∷◌, ◌++◌, map, ltb, ◌==◌, if◌then◌else◌,
  Text, text_eq, has_prefix, length, text_less,
}

abbrev pub Env : Type 0
Env = List (Text × Text)

-- env[key]
unfoldable pub value_of : Text → Env → Text
value_of key [] = []
value_of key ((k, v) ∷ env) = if text_eq k key then v else value_of key env

-- strings.ReplaceAll, where `old` is not empty: `skip` counts the bytes left of an occurrence of it
unfoldable pub replace_from : Text → Text → ℕ → Text → Text
unfolding has_prefix
replace_from old new skip [] = []
replace_from old new (suc skip) (c ∷ s) = replace_from old new skip s
replace_from old new zero (c ∷ s) =
    let replaced = new ++ replace_from old new (length old - 1) s in
    let kept = c ∷ replace_from old new zero s in if has_prefix (c ∷ s) old then replaced else kept

abbrev pub replace_all : Text → Text → Text → Text
replace_all s old new = replace_from old new zero s

-- sort.Slice by !(a < b)
unfoldable pub insert : Text → List Text → List Text
insert k [] = k ∷ []
insert k (j ∷ js) = let rest = insert k js in if not (text_less k j) then k ∷ j ∷ js else j ∷ rest

unfoldable pub sorted_keys : Env → List Text
unfolding insert text_less
sorted_keys [] = []
sorted_keys ((k, v) ∷ env) = insert k (sorted_keys env)

-- the three replacements for a key: $key, ${key} and %key%
unfoldable pub expand_key : Text → Text → Text → Text
unfolding replace_from
expand_key key value s =
    replace_all
      (replace_all (replace_all s (b'$' ∷ key) value) (b'$' ∷ b'{' ∷ key ++ b'}' ∷ []) value)
      (b'%' ∷ key ++ b'%' ∷ []) value

-- the loop over the keys
unfoldable pub expand_pass : List Text → Env → Text → Text
unfolding expand_key value_of
expand_pass [] env s = s
expand_pass (k ∷ ks) env s = expand_pass ks env (expand_key k (value_of k env) s)

-- the outer loop, which ends when a pass changes nothing
unfoldable pub expand_loop : ℕ → List Text → Env → Text → Text
unfolding expand_pass text_eq
expand_loop zero keys env s = s
expand_loop (suc n) keys env s =
    let t = expand_pass keys env s in
    let rest = expand_loop n keys env t in if text_eq t s then t else rest

-- ExpandEnvironmentVariables, with maxExpansionIterations
unfoldable pub expand_environment_variables : Text → Env → Text
unfolding expand_loop sorted_keys
expand_environment_variables s env = expand_loop 10 (sorted_keys env) env s
