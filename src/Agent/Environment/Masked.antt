-- ===== src/Agent/Environment/Masked.antt =====
-- The values that Merge masks: those of the sensitive names, and no others.
use cirrus_cli.Prelude.{
  Bool, true, false, ◌||◌, ◌≡◌, ◌≢◌, ◌⊎◌, inl, inr, List, [], ◌∷◌, ◌++◌, In, In-append,
  In-append_left, In-append_right, Text, Bool-cases, arith, subst, sym, ap, ◌↔◌,
}
use cirrus_cli.Agent.Environment.{
  Items, Environment, is_well_known_sensitive, add_sensitive, add_sensitive_values, put_all,
  mask_all, merge,
}

module _ (v : Text) (v-nonempty : v ≢ []) where
  add_sensitive-keeps : (vs old : List Text) → In v old → In v (add_sensitive old vs)
  unfolding add_sensitive
  add_sensitive-keeps [] old m = m
  add_sensitive-keeps ([] ∷ vs) old m = add_sensitive-keeps vs old m
  add_sensitive-keeps ((c ∷ w) ∷ vs) old m =
      add_sensitive-keeps vs (old ++ (c ∷ w) ∷ []) (In-append_left v old ((c ∷ w) ∷ []) m)

  add_sensitive-adds : (vs old : List Text) → In v vs → In v (add_sensitive old vs)
  unfolding add_sensitive
  add_sensitive-adds [] old m = absurd m
  add_sensitive-adds ([] ∷ vs) old (inl e) = absurd (v-nonempty (sym e))
  add_sensitive-adds ([] ∷ vs) old (inr m) = add_sensitive-adds vs old m
  add_sensitive-adds ((c ∷ w) ∷ vs) old (inl e) =
      add_sensitive-keeps vs (old ++ (c ∷ w) ∷ []) (In-append_right v old ((c ∷ w) ∷ []) (inl e))
  add_sensitive-adds ((c ∷ w) ∷ vs) old (inr m) = add_sensitive-adds vs (old ++ (c ∷ w) ∷ []) m

  abbrev IsMasked : Environment → Type 0
  IsMasked env = In v env.sensitive_values

  add_sensitive_values-keeps :
      (vs : List Text) (env : Environment) → IsMasked env → IsMasked (add_sensitive_values vs env)
  unfolding add_sensitive_values
  add_sensitive_values-keeps vs env m = add_sensitive-keeps vs env.sensitive_values m

  add_sensitive_values-adds :
      (vs : List Text) (env : Environment) → In v vs → IsMasked (add_sensitive_values vs env)
  unfolding add_sensitive_values
  add_sensitive_values-adds vs env m = add_sensitive-adds vs env.sensitive_values m

  mask_all-keeps :
      (s : Bool) (other : Items) (env : Environment)
      → IsMasked env
      → IsMasked (mask_all s other env)
  unfolding mask_all
  mask_all-keeps s [] env m = m
  mask_all-keeps s ((k, w) ∷ other) env m = elim (Bool-cases (s || is_well_known_sensitive k)) [
    | inl e ↦ rw e (
        mask_all-keeps s other (add_sensitive_values (w ∷ []) env)
          (add_sensitive_values-keeps (w ∷ []) env m))
    | inr e ↦ rw e (mask_all-keeps s other env m)
  ]

  mask_all-adds :
      (s : Bool) (k : Text) (other : Items) (env : Environment)
      → (s || is_well_known_sensitive k) ≡ true
      → In (k, v) other
      → IsMasked (mask_all s other env)
  unfolding mask_all
  mask_all-adds s k [] env h m = absurd m
  mask_all-adds s k ((j, w) ∷ other) env h (inr m) =
      elim (Bool-cases (s || is_well_known_sensitive j)) [
        | inl e ↦ rw e (mask_all-adds s k other (add_sensitive_values (w ∷ []) env) h m)
        | inr e ↦ rw e (mask_all-adds s k other env h m)
      ]
  mask_all-adds s k ((j, w) ∷ other) env h (inl p) =
      rw (subst (λ x. (s || is_well_known_sensitive x) ≡ true) (sym (ap (λ q. q.0) p)) h) (
        mask_all-keeps s other (add_sensitive_values (w ∷ []) env)
          (add_sensitive_values-adds (w ∷ []) env (inl (ap (λ q. q.1) p))))

-- the value of a name that is masked
abbrev pub IsSecret : Bool → Items → Text → Type 0
IsSecret is_sensitive other v =
    (k : Text) × In (k, v) other × ((is_sensitive || is_well_known_sensitive k) ≡ true)

add_sensitive_one :
    (v w : Text) (env : Environment)
    → In v (add_sensitive_values (w ∷ []) env).sensitive_values
    → In v env.sensitive_values ⊎ ((w ≡ v) × v ≢ [])
unfolding add_sensitive_values add_sensitive
add_sensitive_one v [] env m = inl m
add_sensitive_one v (c ∷ w) env m = elim (In-append v env.sensitive_values ((c ∷ w) ∷ []) m) [
  | inl k ↦ inl k
  | inr (inl e) ↦ inr (e, λ z. ground (arith, e, z))
  | inr (inr k) ↦ absurd k
]

mask_all-only :
    (v : Text) (s : Bool) (other : Items) (env : Environment)
    → In v (mask_all s other env).sensitive_values
    → In v env.sensitive_values ⊎ (v ≢ [] × IsSecret s other v)
unfolding mask_all
mask_all-only v s [] env m = inl m
mask_all-only v s ((k, w) ∷ other) env m =
    go (Bool-cases (s || is_well_known_sensitive k)) (mask_all-only v s other)
  where
    later : v ≢ [] × IsSecret s other v → v ≢ [] × IsSecret s ((k, w) ∷ other) v
    later (z, (j, n, h)) = (z, (j, inr n, h))

    go :
        ((s || is_well_known_sensitive k) ≡ true) ⊎ ((s || is_well_known_sensitive k) ≡ false)
        → ((e : Environment)
            → In v (mask_all s other e).sensitive_values
            → In v e.sensitive_values ⊎ (v ≢ [] × IsSecret s other v))
        → In v env.sensitive_values ⊎ (v ≢ [] × IsSecret s ((k, w) ∷ other) v)
    go (inl e) ih = elim (ih (add_sensitive_values (w ∷ []) env) (rw e at m)) [
      | inr r ↦ inr (later r)
      | inl n ↦ elim (add_sensitive_one v w env n) [
        | inl o ↦ inl o
        | inr (p, z) ↦ inr (z, (k, inl (ap (λ x. (k, x)) p), e))
      ]
    ]
    go (inr e) ih = elim (ih env (rw e at m)) [ inl o ↦ inl o | inr r ↦ inr (later r) ]

-- After Merge, the values to be masked that are not empty are those that were before, and the values of
-- the merged names that are sensitive, or of all of them if the caller says so; whatever the expansion is.
pub merge-masks_iff :
    (expand : Items → Items) (other : Items) (is_sensitive : Bool) (env : Environment) (v : Text)
    → v ≢ []
    → In v (merge expand other is_sensitive env).sensitive_values
      ↔ (In v env.sensitive_values ⊎ IsSecret is_sensitive other v)
unfolding merge
merge-masks_iff expand [] s env v z =
    (λ m. inl m, λ m. elim m [ inl k ↦ k | inr (k, n, h) ↦ absurd n ])
merge-masks_iff expand (kv ∷ other) s env v z =
    let env' : Environment = record env { items = expand (put_all (kv ∷ other) env.items) } in
    (
      λ m. elim (mask_all-only v s (kv ∷ other) env' m) [ inl k ↦ inl k | inr (_, r) ↦ inr r ],
      λ m. elim m [
        | inl k ↦ mask_all-keeps v z s (kv ∷ other) env' k
        | inr (k, n, h) ↦ mask_all-adds v z s k (kv ∷ other) env' h n
      ],
    )
