-- ===== src/Agent/Vault/RoundTrip.antt =====
-- A boxed value that is written out is read back.
use cirrus_cli.Prelude.{
  ℕ, Bool, true, false, ◌≡◌, refl, ◌≢◌, some, List, [], ◌∷◌, ◌++◌, All, if◌then◌else◌, Text,
  text_eq, text_eq-true, text_eq_refl, ◌↔◌, inl, inr, subst, Bool-cases, split, split_from,
  has_prefix, after_prefix, All-map, arith, sym, ap, ◌∙◌, append_assoc, append-nil,
}
use cirrus_cli.Agent.Vault.{
  PathArgs, BoxedValue, boxed, prefix_normal, prefix_nocache, trim_suffix, has_equals,
  has_empty_element, add_arg, arg_parts, parse_args, parse_selected, parse_parts, parse_trimmed,
  new_boxed_value,
}

-- texts with a separator between each two
unfoldable pub join : ℕ → List Text → Text
join sep [] = []
join sep (w ∷ []) = w
join sep (w ∷ v ∷ ws) = w ++ sep ∷ join sep (v ∷ ws)

-- the byte does not occur in the text
abbrev pub Lacks : ℕ → Text → Type 0
Lacks b w = All (λ c. c ≢ b) w

split_from-Lacks :
    (sep : ℕ) (word w : Text) → Lacks sep w → split_from sep word w ≡ (word ++ w) ∷ []
unfolding split_from
split_from-Lacks sep word [] h = ap (λ l. l ∷ []) (sym (append-nil word))
split_from-Lacks sep word (c ∷ w) h =
    ground (arith, split_from-Lacks sep (word ++ c ∷ []) w h.1, append_assoc word (c ∷ []) w, h.0)

split_from-sep :
    (sep : ℕ) (word w rest : Text)
    → Lacks sep w
    → split_from sep word (w ++ sep ∷ rest) ≡ (word ++ w) ∷ split_from sep [] rest
unfolding split_from
split_from-sep sep word [] rest h = ground (arith, append-nil word)
split_from-sep sep word (c ∷ w) rest h =
    ground
      (arith, split_from-sep sep (word ++ c ∷ []) w rest h.1, append_assoc word (c ∷ []) w, h.0)

pub split-join :
    (sep : ℕ) (w : Text) (ws : List Text)
    → All (Lacks sep) (w ∷ ws)
    → split sep (join sep (w ∷ ws)) ≡ w ∷ ws
unfolding join
split-join sep w [] h = split_from-Lacks sep [] w h.0
split-join sep w (v ∷ ws) h =
    split_from-sep sep [] w (join sep (v ∷ ws)) h.0 ∙ ap (λ l. w ∷ l) (split-join sep v ws h.1)

Lacks-append : (b : ℕ) (v w : Text) → Lacks b v → Lacks b w → Lacks b (v ++ w)
Lacks-append b [] w h k = k
Lacks-append b (c ∷ v) w h k = (h.0, Lacks-append b v w h.1 k)

Lacks-join : (b sep : ℕ) (ws : List Text) → sep ≢ b → All (Lacks b) ws → Lacks b (join sep ws)
unfolding join
Lacks-join b sep [] d h = tt
Lacks-join b sep (w ∷ []) d h = h.0
Lacks-join b sep (w ∷ v ∷ ws) d h =
    Lacks-append b w (sep ∷ join sep (v ∷ ws)) h.0 (d, Lacks-join b sep (v ∷ ws) d h.1)

-- an element of a selector: not empty, and without a space, a dot or an equals sign
abbrev pub IsElement : Text → Type 0
IsElement e = (e ≢ []) × Lacks b' ' e × Lacks b'.' e × Lacks b'=' e

-- the key or the value of an argument: not empty, and without a space or an equals sign
abbrev pub IsWord : Text → Type 0
IsWord w = (w ≢ []) × Lacks b' ' w × Lacks b'=' w

abbrev pub IsArgument : Text × Text → Type 0
IsArgument (k, v) = IsWord k × IsWord v

-- the arguments as they are written, and as a map
abbrev pub write_args : List (Text × Text) → List Text
write_args [] = []
write_args ((k, v) ∷ as') = join b'=' (k ∷ v ∷ []) ∷ write_args as'

-- the map that the loop over the arguments fills
unfoldable group : List (Text × Text) → PathArgs → PathArgs
group [] m = m
group ((k, v) ∷ as') m = group as' (add_arg k v m)

-- the body of a boxed value
abbrev pub write_body : Text → List Text → List (Text × Text) → Text
write_body path selector as' = join b' ' (path ∷ join b'.' selector ∷ write_args as')

abbrev pub write : Bool → Text → List Text → List (Text × Text) → Text
write use_cache path selector as' =
    (if use_cache then prefix_normal else prefix_nocache)
    ++ (write_body path selector as' ++ b']' ∷ [])

trim_suffix-append : (s : Text) → trim_suffix (s ++ b']' ∷ []) ≡ some s
unfolding trim_suffix
trim_suffix-append [] = refl
trim_suffix-append (c ∷ []) = refl
trim_suffix-append (c ∷ d ∷ s) = rw (trim_suffix-append (d ∷ s)) refl

arg_parts-words : (k v : Text) → k ≢ [] → v ≢ [] → arg_parts (k ∷ v ∷ []) ≡ some (k, v)
arg_parts-words [] v h g = absurd (h refl)
arg_parts-words (c ∷ k) [] h g = absurd (g refl)
arg_parts-words (c ∷ k) (d ∷ v) h g = refl

parse_args-cons :
    (a k v : Text) (as' : List Text) (m : PathArgs)
    → arg_parts (split b'=' a) ≡ some (k, v)
    → parse_args (a ∷ as') m ≡ parse_args as' (add_arg k v m)
unfolding parse_args
parse_args-cons a k v as' m h = rw (parse_args, h) refl

parse_args-write_args :
    (as' : List (Text × Text)) (m : PathArgs)
    → All IsArgument as'
    → parse_args (write_args as') m ≡ some (group as' m)
unfolding group
parse_args-write_args [] m h = unfold parse_args in refl
parse_args-write_args ((k, v) ∷ as') m h =
    parse_args-cons (join b'=' (k ∷ v ∷ [])) k v (write_args as') m (
      ap arg_parts (split-join b'=' k (v ∷ []) (h.0.0.2, (h.0.1.2, tt)))
      ∙ arg_parts-words k v h.0.0.0 h.0.1.0)
    ∙ parse_args-write_args as' (add_arg k v m) h.1

has_equals-Lacks : (w : Text) → Lacks b'=' w → has_equals w ≡ false
unfolding has_equals
has_equals-Lacks [] h = refl
has_equals-Lacks (c ∷ w) h = ground (arith, has_equals-Lacks w h.1, h.0)

has_empty_element-none : (es : List Text) → All IsElement es → has_empty_element es ≡ false
unfolding has_empty_element
has_empty_element-none [] h = refl
has_empty_element-none ([] ∷ es) h = absurd (h.0.0 refl)
has_empty_element-none ((c ∷ e) ∷ es) h = has_empty_element-none es h.1

write_args-Lacks :
    (as' : List (Text × Text)) → All IsArgument as' → All (Lacks b' ') (write_args as')
unfolding join
write_args-Lacks [] h = tt
write_args-Lacks ((k, v) ∷ as') (((_, ks, _), (_, vs, _)), h) =
    (Lacks-append b' ' k (b'=' ∷ v) ks (ground arith, vs), write_args-Lacks as' h)

module _ (path e : Text) (es : List Text) (as' : List (Text × Text)) where
  abbrev value_of : Bool → BoxedValue
  value_of use_cache = record {
    vault_path = path;
    vault_path_args = group as' [];
    data_path = e ∷ es;
    use_cache = use_cache;
  }

  parse_parts-written :
      (use_cache : Bool)
      → All IsElement (e ∷ es)
      → All IsArgument as'
      → parse_parts use_cache (path ∷ join b'.' (e ∷ es) ∷ write_args as')
        ≡ boxed (value_of use_cache)
  parse_parts-written use_cache h k =
      rw
        (has_equals-Lacks (join b'.' (e ∷ es)) (
          Lacks-join b'=' b'.' (e ∷ es) (ground arith)
            (All-map IsElement (Lacks b'=') (e ∷ es) (λ w p. p.3) h)))
        (ap (λ l. parse_selected use_cache path l (write_args as'))
            (split-join b'.' e es (All-map IsElement (Lacks b'.') (e ∷ es) (λ w p. p.2) h))
          ∙ parse_selected-written)
    where
      parse_selected-written :
          parse_selected use_cache path (e ∷ es) (write_args as') ≡ boxed (value_of use_cache)
      parse_selected-written =
          rw (has_empty_element-none (e ∷ es) h, parse_args-write_args as' [] k) refl

  parse_trimmed-written :
      (use_cache : Bool)
      → Lacks b' ' path
      → All IsElement (e ∷ es)
      → All IsArgument as'
      → parse_trimmed use_cache (trim_suffix (write_body path (e ∷ es) as' ++ b']' ∷ []))
        ≡ boxed (value_of use_cache)
  parse_trimmed-written use_cache p h k =
      ap (parse_trimmed use_cache) (trim_suffix-append (write_body path (e ∷ es) as'))
      ∙ ap (parse_parts use_cache) (
          split-join b' ' path (join b'.' (e ∷ es) ∷ write_args as') (
            p,
            (
              Lacks-join b' ' b'.' (e ∷ es) (ground arith)
                  (All-map IsElement (Lacks b' ') (e ∷ es) (λ w q. q.1) h),
              write_args-Lacks as' k,
            ),
          ))
      ∙ parse_parts-written use_cache h k

  new_boxed_value-written :
      (use_cache : Bool)
      → Lacks b' ' path
      → All IsElement (e ∷ es)
      → All IsArgument as'
      → new_boxed_value (write use_cache path (e ∷ es) as') ≡ boxed (value_of use_cache)
  unfolding new_boxed_value has_prefix after_prefix
  new_boxed_value-written true p h k = parse_trimmed-written true p h k
  new_boxed_value-written false p h k = parse_trimmed-written false p h k

-- the values of a key in a map, none for a key that is missing, and among arguments as they are written
unfoldable pub values_in : Text → PathArgs → List Text
values_in k [] = []
values_in k ((j, vs) ∷ m) = if text_eq j k then vs else values_in k m

unfoldable pub values_for : Text → List (Text × Text) → List Text
values_for k [] = []
values_for k ((j, v) ∷ as') = let rest = values_for k as' in if text_eq j k then v ∷ rest else rest

text_eq_iff : (s t : Text) → (text_eq s t ≡ true) ↔ (s ≡ t)
text_eq_iff s t = (text_eq-true s t, λ e. subst (λ u. text_eq s u ≡ true) e (text_eq_refl s))

values_in-add_arg :
    (k j v : Text) (m : PathArgs)
    → values_in k (add_arg j v m) ≡ (if text_eq j k then values_in k m ++ v ∷ [] else values_in k m)
unfolding values_in add_arg
values_in-add_arg k j v [] = refl
values_in-add_arg k j v ((i, vs) ∷ m) =
    ground (arith, values_in-add_arg k j v m, text_eq_iff i j, text_eq_iff j k, text_eq_iff i k)

values_in-group :
    (k : Text) (as' : List (Text × Text)) (m : PathArgs)
    → values_in k (group as' m) ≡ values_in k m ++ values_for k as'
unfolding group values_for
values_in-group k [] m = sym (append-nil (values_in k m))
values_in-group k ((j, v) ∷ as') m =
    values_in-group k as' (add_arg j v m) ∙ elim (Bool-cases (text_eq j k)) [
      | inl e ↦
          rw (e, values_in-add_arg k j v m)
            (rw e (append_assoc (values_in k m) (v ∷ []) (values_for k as')))
      | inr e ↦ rw (e, values_in-add_arg k j v m) (rw e refl)
    ]

-- A boxed value that is written as its path, its selector's elements with dots between them, and its
-- arguments, comes back from NewBoxedValue with the same path, elements and use of the cache, and with
-- all values of each key in the order in which they are written, if the path has no space, and the
-- elements and the keys and values of the arguments are not empty and have none of the separators.
pub new_boxed_value-write :
    (path e : Text) (es : List Text) (as' : List (Text × Text)) (use_cache : Bool)
    → Lacks b' ' path
    → All IsElement (e ∷ es)
    → All IsArgument as'
    → (b : BoxedValue) × (new_boxed_value (write use_cache path (e ∷ es) as') ≡ boxed b)
      × (b.vault_path ≡ path)
      × (b.data_path ≡ e ∷ es)
      × (b.use_cache ≡ use_cache)
      × ((k : Text) → values_in k b.vault_path_args ≡ values_for k as')
unfolding values_in
new_boxed_value-write path e es as' use_cache p h k = (
  value_of path e es as' use_cache,
  new_boxed_value-written path e es as' use_cache p h k,
  refl,
  refl,
  refl,
  λ j. values_in-group j as' [],
)
