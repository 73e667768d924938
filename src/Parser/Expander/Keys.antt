-- ===== src/Parser/Expander/Keys.antt =====
-- pkg/parser/expander: a key is expanded before every shorter key that it begins with, as $CIRRUS_BRANCH
-- is before $CIRRUS.
use cirrus_cli.Prelude.{
  ℕ, Bool, true, false, not, List, [], ◌∷◌, ◌++◌, ◌≡◌, ◌≢◌, inl, inr, refl, arith, Bool-cases, Text,
  All, if◌then◌else◌, text_less, All-map, subst, sym, ap,
}
use cirrus_cli.Parser.Expander.{Env, insert, sorted_keys}

text_less-longer : (k t : Text) (c : ℕ) → text_less k (k ++ c ∷ t) ≡ true
unfolding text_less
text_less-longer [] t c = refl
text_less-longer (d ∷ k) t c = ground (arith, text_less-longer k t c)

text_less_trans :
    (a b c : Text) → text_less a b ≡ false → text_less b c ≡ false → text_less a c ≡ false
unfolding text_less
text_less_trans a b [] h g = refl
text_less_trans a [] (z ∷ c) h g = ground (arith, g)
text_less_trans [] (y ∷ b) (z ∷ c) h g = ground (arith, h)
text_less_trans (x ∷ a) (y ∷ b) (z ∷ c) h g = ground (arith, h, g, text_less_trans a b c)

text_less_asym : (a b : Text) → text_less a b ≡ true → text_less b a ≡ false
unfolding text_less
text_less_asym a [] h = ground (arith, h)
text_less_asym [] (d ∷ b) h = refl
text_less_asym (c ∷ a) (d ∷ b) h = ground (arith, h, text_less_asym a b)

-- each key is followed by keys that are not above it
abbrev Descends : List Text → Type 0
Descends [] = Unit
Descends (k ∷ ks) = All (λ j. text_less k j ≡ false) ks × Descends ks

insert-All : (P : Text → Type 0) (k : Text) (ks : List Text) → P k → All P ks → All P (insert k ks)
unfolding insert
insert-All P k [] p h = (p, tt)
insert-All P k (j ∷ js) p (q, h) =
    let kept = λ (b : Bool). All P (if not b then k ∷ j ∷ js else j ∷ insert k js) in
    elim (Bool-cases (text_less k j)) [
      | inl e ↦ subst kept (sym e) (q, insert-All P k js p h)
      | inr e ↦ subst kept (sym e) (p, (q, h))
    ]

insert-Descends : (k : Text) (ks : List Text) → Descends ks → Descends (insert k ks)
unfolding insert
insert-Descends k [] h = (tt, tt)
insert-Descends k (j ∷ js) (h, hs) =
    let kept = λ (b : Bool). Descends (if not b then k ∷ j ∷ js else j ∷ insert k js) in
    elim (Bool-cases (text_less k j)) [
      | inl e ↦ subst kept (sym e) (
        insert-All (λ i. text_less j i ≡ false) k js (text_less_asym k j e) h,
        insert-Descends k js hs,
      )
      | inr e ↦
          subst kept (sym e) ((e, All-map _ _ js (λ i d. text_less_trans k j i e d) h), (h, hs))
    ]

sorted_keys-Descends : (env : Env) → Descends (sorted_keys env)
unfolding sorted_keys
sorted_keys-Descends [] = tt
sorted_keys-Descends ((k, v) ∷ env) = insert-Descends k (sorted_keys env) (sorted_keys-Descends env)

-- each key is followed by no longer key that begins with it
abbrev pub LongerFirst : List Text → Type 0
LongerFirst [] = Unit
LongerFirst (k ∷ ks) = All (λ j. (c : ℕ) (t : Text) → j ≢ k ++ c ∷ t) ks × LongerFirst ks

Descends-LongerFirst : (ks : List Text) → Descends ks → LongerFirst ks
Descends-LongerFirst [] h = tt
Descends-LongerFirst (k ∷ ks) (h, hs) = (
  All-map _ _ ks (λ j e c t same. ground (arith, e, ap (text_less k) same, text_less-longer k t c))
      h,
  Descends-LongerFirst ks hs,
)

-- Of the keys in the order in which they are expanded, none comes before a longer key that begins
-- with it.
pub sorted_keys-LongerFirst : (env : Env) → LongerFirst (sorted_keys env)
sorted_keys-LongerFirst env = Descends-LongerFirst (sorted_keys env) (sorted_keys-Descends env)
