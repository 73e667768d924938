-- ===== src/Agent/Environment.antt =====
-- internal/agent/environment/environment.go: the environment of the commands and the values to be masked
-- in their logs. ExpandEnvironmentRecursively works by regular expressions and is an argument.
pub mod Masked
use cirrus_cli.Prelude.{
  ℕ, Bool, true, false, not, ◌&&◌, ◌||◌, ◌≡◌, refl, ◌≢◌, ◌⊎◌, inl, inr, Option, none, some, List,
  [], ◌∷◌, ◌++◌, In, In-append, All, In-append_left, In-append_right, if◌then◌else◌, Text, text_eq,
  Bool-cases, Option-cases, arith, subst, sym, ap, ◌↔◌,
}

-- a map from names to values, in some order of iteration
abbrev pub Items : Type 0
Items = List (Text × Text)

unfoldable pub get : Text → Items → Option Text
unfolding text_eq
get k [] = none
get k ((j, v) ∷ m) = if text_eq j k then some v else get k m

-- the assignment `m[k] = v`
unfoldable pub put : Text → Text → Items → Items
put k v [] = (k, v) ∷ []
put k v ((j, w) ∷ m) = let rest = put k v m in if text_eq j k then (j, v) ∷ m else (j, w) ∷ rest

pub record Environment : Type 0 where
  pub items : Items
  pub sensitive_values : List Text

-- strings.HasSuffix
unfoldable pub has_suffix : Text → Text → Bool
unfolding text_eq
has_suffix [] p = text_eq [] p
has_suffix (c ∷ s) p = if text_eq (c ∷ s) p then true else has_suffix s p

abbrev password : Text
password = b'_' ∷ b'P' ∷ b'A' ∷ b'S' ∷ b'S' ∷ b'W' ∷ b'O' ∷ b'R' ∷ b'D' ∷ []

abbrev secret : Text
secret = b'_' ∷ b'S' ∷ b'E' ∷ b'C' ∷ b'R' ∷ b'E' ∷ b'T' ∷ []

abbrev token : Text
token = b'_' ∷ b'T' ∷ b'O' ∷ b'K' ∷ b'E' ∷ b'N' ∷ []

abbrev access_key : Text
access_key = b'_' ∷ b'A' ∷ b'C' ∷ b'C' ∷ b'E' ∷ b'S' ∷ b'S' ∷ b'_' ∷ b'K' ∷ b'E' ∷ b'Y' ∷ []

abbrev secret_key : Text
secret_key = b'_' ∷ b'S' ∷ b'E' ∷ b'C' ∷ b'R' ∷ b'E' ∷ b'T' ∷ b'_' ∷ b'K' ∷ b'E' ∷ b'Y' ∷ []

unfoldable pub is_well_known_sensitive : Text → Bool
unfolding has_suffix
is_well_known_sensitive key =
    has_suffix key password
    || has_suffix key secret
    || has_suffix key token
    || has_suffix key access_key
    || has_suffix key secret_key

abbrev pub new_empty : Environment
new_empty = record { items = []; sensitive_values = [] }

-- the loop of AddSensitiveValues
unfoldable pub add_sensitive : List Text → List Text → List Text
add_sensitive old [] = old
add_sensitive old ([] ∷ vs) = add_sensitive old vs
add_sensitive old ((c ∷ v) ∷ vs) = add_sensitive (old ++ (c ∷ v) ∷ []) vs

-- AddSensitiveValues
unfoldable pub add_sensitive_values : List Text → Environment → Environment
add_sensitive_values vs env = record env {
  sensitive_values = add_sensitive env.sensitive_values vs;
}

-- Set
unfoldable pub set : Text → Text → Environment → Environment
set key value env =
    let env' : Environment = record env { items = put key value env.items } in
    if is_well_known_sensitive key then add_sensitive_values (value ∷ []) env' else env'

-- the two loops of Merge over the other environment
unfoldable pub put_all : Items → Items → Items
put_all [] m = m
put_all ((k, v) ∷ other) m = put_all other (put k v m)

unfoldable pub mask_all : Bool → Items → Environment → Environment
mask_all is_sensitive [] env = env
mask_all is_sensitive ((k, v) ∷ other) env =
    let masked = mask_all is_sensitive other (add_sensitive_values (v ∷ []) env) in
    let rest = mask_all is_sensitive other env in
    if is_sensitive || is_well_known_sensitive k then masked else rest

module _ (expand : Items → Items) where
  -- Merge
  unfoldable pub merge : Items → Bool → Environment → Environment
  merge [] is_sensitive env = env
  merge (kv ∷ other) is_sensitive env =
      mask_all is_sensitive (kv ∷ other)
        (record env { items = expand (put_all (kv ∷ other) env.items) })

  -- New
  unfoldable pub new_environment : Items → Environment
  new_environment items = merge items false new_empty
