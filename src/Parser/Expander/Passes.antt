-- ===== src/Parser/Expander/Passes.antt =====
-- pkg/parser/expander: leaving the loop early changes nothing, and a text without the characters that
-- begin a reference is left alone.
use cirrus_cli.Prelude.{
  ℕ, zero, suc, List, [], ◌∷◌, ◌++◌, ◌≡◌, ◌≢◌, inl, inr, refl, sym, ap, ◌∙◌, arith, Bool-cases,
  Text, text_eq, text_eq-true, has_prefix, All, All-map,
}
use cirrus_cli.Parser.Expander.{
  Env, value_of, replace_from, replace_all, sorted_keys, expand_key, expand_pass, expand_loop,
  expand_environment_variables,
}

-- n passes over the keys
unfoldable pub passes : ℕ → List Text → Env → Text → Text
unfolding expand_pass
passes zero keys env s = s
passes (suc n) keys env s = passes n keys env (expand_pass keys env s)

passes-fixed :
    (n : ℕ) (keys : List Text) (env : Env) (s : Text)
    → expand_pass keys env s ≡ s
    → passes n keys env s ≡ s
unfolding passes
passes-fixed zero keys env s e = refl
passes-fixed (suc n) keys env s e = ap (passes n keys env) e ∙ passes-fixed n keys env s e

expand_loop-passes :
    (n : ℕ) (keys : List Text) (env : Env) (s : Text)
    → expand_loop n keys env s ≡ passes n keys env s
unfolding expand_loop passes
expand_loop-passes zero keys env s = refl
expand_loop-passes (suc n) keys env s =
    let t = expand_pass keys env s in
    elim (Bool-cases (text_eq t s)) [
      | inl e ↦
          let same = text_eq-true t s e in
          rw (e) (same ∙ sym (ap (passes n keys env) same ∙ passes-fixed n keys env s same))
      | inr e ↦ rw (e) (expand_loop-passes n keys env t)
    ]

-- The expansion of a text is what ten passes over the sorted keys make of it, although the code
-- stops as soon as a pass changes nothing.
pub expand_environment_variables-passes :
    (s : Text) (env : Env) → expand_environment_variables s env ≡ passes 10 (sorted_keys env) env s
unfolding expand_environment_variables
expand_environment_variables-passes s env = expand_loop-passes 10 (sorted_keys env) env s

abbrev pub IsPlain : Text → Type 0
IsPlain s = All (λ c. (c ≢ b'$') × (c ≢ b'%')) s

replace_all-plain :
    (d : ℕ) (old new s : Text) → All (λ c. c ≢ d) s → replace_all s (d ∷ old) new ≡ s
unfolding replace_from has_prefix
replace_all-plain d old new [] h = refl
replace_all-plain d old new (c ∷ s) (h, hs) = ground (arith, h, replace_all-plain d old new s hs)

expand_key-plain : (key value s : Text) → IsPlain s → expand_key key value s ≡ s
unfolding expand_key
expand_key-plain key value s h =
    let dollar = All-map _ (λ c. c ≢ b'$') s (λ c p. p.0) h in
    let percent = All-map _ (λ c. c ≢ b'%') s (λ c p. p.1) h in
    let one = replace_all-plain b'$' key value s dollar in
    let two = replace_all-plain b'$' (b'{' ∷ key ++ b'}' ∷ []) value s dollar in
    let three = replace_all-plain b'%' (key ++ b'%' ∷ []) value s percent in
    ap
      (λ t.
        replace_all (replace_all t (b'$' ∷ b'{' ∷ key ++ b'}' ∷ []) value) (b'%' ∷ key ++ b'%' ∷ [])
          value)
      one
    ∙ ap (λ t. replace_all t (b'%' ∷ key ++ b'%' ∷ []) value) two
    ∙ three

expand_pass-plain :
    (keys : List Text) (env : Env) (s : Text) → IsPlain s → expand_pass keys env s ≡ s
unfolding expand_pass
expand_pass-plain [] env s h = refl
expand_pass-plain (k ∷ ks) env s h =
    ap (expand_pass ks env) (expand_key-plain k (value_of k env) s h) ∙ expand_pass-plain ks env s h

-- A text without `$` and `%` is expanded to itself.
pub expand_environment_variables-plain :
    (s : Text) (env : Env) → IsPlain s → expand_environment_variables s env ≡ s
expand_environment_variables-plain s env h =
    expand_environment_variables-passes s env
    ∙ passes-fixed 10 (sorted_keys env) env s (expand_pass-plain (sorted_keys env) env s h)
