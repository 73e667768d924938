-- ===== src/Agent/Logs/Masked.antt =====
-- What the masking leaves of the sensitive values.
use cirrus_cli.Prelude.{
  ℕ, zero, suc, ◌-◌, Bool, true, false, ◌≡◌, refl, ◌≢◌, some, List, [], ◌∷◌, ◌++◌, length, Text,
  has_prefix, All, In, arith, sym, ◌∙◌, Bool-cases, inl, inr, subst,
}
use cirrus_cli.Agent.Logs.{hidden, replace_all, mask, write_chunk}

-- the text does not occur
abbrev pub HasNo : Text → Text → Type 0
HasNo v [] = has_prefix [] v ≡ false
HasNo v (c ∷ s) = (has_prefix (c ∷ s) v ≡ false) × HasNo v s

-- no byte of the text is one of "HIDDEN-BY-CIRRUS-CI"
abbrev pub IsForeign : Text → Type 0
IsForeign v = All (λ c. All (λ b. b ≢ c) hidden) v

replace_all-hit :
    (v : Text) (c : ℕ) (s : Text)
    → has_prefix (c ∷ s) v ≡ true
    → replace_all v 0 (c ∷ s) ≡ hidden ++ replace_all v (length v - 1) s
unfolding replace_all
replace_all-hit v c s h = rw (replace_all, h) refl

replace_all-miss :
    (v : Text) (c : ℕ) (s : Text)
    → has_prefix (c ∷ s) v ≡ false
    → replace_all v 0 (c ∷ s) ≡ c ∷ replace_all v 0 s
unfolding replace_all
replace_all-miss v c s h = rw (replace_all, h) refl

replace_all-skip :
    (v : Text) (k c : ℕ) (s : Text) → replace_all v (suc k) (c ∷ s) ≡ replace_all v k s
unfolding replace_all
replace_all-skip v k c s = refl

differs : ◌≡◌ {A = Bool} false true → ⊥
differs k = ground arith

has_prefix-other : (c d : ℕ) (s p : Text) → c ≢ d → has_prefix (c ∷ s) (d ∷ p) ≡ false
unfolding has_prefix
has_prefix-other c d s p h = ground arith

has_prefix-cons :
    (c d : ℕ) (s t p : Text)
    → (has_prefix s p ≡ true → has_prefix t p ≡ true)
    → has_prefix (c ∷ s) (d ∷ p) ≡ true
    → has_prefix (c ∷ t) (d ∷ p) ≡ true
unfolding has_prefix
has_prefix-cons c d s t p f h = ground (arith, f)

-- a foreign prefix of the output is one of the input
has_prefix-replace_all :
    (v p s : Text) → IsForeign p → has_prefix (replace_all v 0 s) p ≡ true → has_prefix s p ≡ true
has_prefix-replace_all v [] [] f h = unfold has_prefix in refl
has_prefix-replace_all v [] (c ∷ s) f h = unfold has_prefix in refl
has_prefix-replace_all v (d ∷ p) [] f h = unfold replace_all in h
has_prefix-replace_all v (d ∷ p) (c ∷ s) f h = elim (Bool-cases (has_prefix (c ∷ s) v)) [
  | inl e ↦ absurd (
      differs (
        sym (has_prefix-other b'H' d _ p f.0.0)
        ∙ (subst (λ x. has_prefix x (d ∷ p) ≡ true) (replace_all-hit v c s e) h)))
  | inr e ↦
      has_prefix-cons c d (replace_all v 0 s) s p (has_prefix-replace_all v p s f.1)
        (subst (λ x. has_prefix x (d ∷ p) ≡ true) (replace_all-miss v c s e) h)
]

not-true : (b : Bool) → (b ≡ true → ⊥) → b ≡ false
not-true true h = absurd (h refl)
not-true false h = refl

module _ (v : Text) (d : ℕ) (p : Text) (foreign : IsForeign (d ∷ p)) where
  HasNo-append : (w t : Text) → All (λ b. b ≢ d) w → HasNo (d ∷ p) t → HasNo (d ∷ p) (w ++ t)
  HasNo-append [] t h n = n
  HasNo-append (b ∷ w) t h n = (has_prefix-other b d (w ++ t) p h.0, HasNo-append w t h.1 n)

  missed :
      (c : ℕ) (s : Text)
      → has_prefix (c ∷ s) (d ∷ p) ≡ false
      → has_prefix (c ∷ replace_all v 0 s) (d ∷ p) ≡ false
  missed c s h = not-true _ (λ k. differs (
      sym h
      ∙ has_prefix-cons c d (replace_all v 0 s) s p (has_prefix-replace_all v p s foreign.1) k))

  replace_all-keeps : (k : ℕ) (s : Text) → HasNo (d ∷ p) s → HasNo (d ∷ p) (replace_all v k s)
  replace_all-keeps k [] h = unfold replace_all in h
  replace_all-keeps (suc k) (c ∷ s) h =
      subst (HasNo (d ∷ p)) (sym (replace_all-skip v k c s)) (replace_all-keeps k s h.1)
  replace_all-keeps zero (c ∷ s) h =
      go (replace_all-keeps (length v - 1) s h.1) (replace_all-keeps zero s h.1)
    where
      go :
          HasNo (d ∷ p) (replace_all v (length v - 1) s)
          → HasNo (d ∷ p) (replace_all v zero s)
          → HasNo (d ∷ p) (replace_all v zero (c ∷ s))
      go cut whole = elim (Bool-cases (has_prefix (c ∷ s) v)) [
        | inl e ↦
            subst (HasNo (d ∷ p)) (sym (replace_all-hit v c s e))
              (HasNo-append hidden _ foreign.0 cut)
        | inr e ↦ subst (HasNo (d ∷ p)) (sym (replace_all-miss v c s e)) (missed c s h.0, whole)
      ]

module _ (d : ℕ) (p : Text) (foreign : IsForeign (d ∷ p)) where
  replace_all-removes : (k : ℕ) (s : Text) → HasNo (d ∷ p) (replace_all (d ∷ p) k s)
  replace_all-removes k [] = unfold replace_all has_prefix in refl
  replace_all-removes (suc k) (c ∷ s) =
      subst (HasNo (d ∷ p)) (sym (replace_all-skip (d ∷ p) k c s)) (replace_all-removes k s)
  replace_all-removes zero (c ∷ s) =
      go (replace_all-removes (length (d ∷ p) - 1) s) (replace_all-removes zero s)
    where
      go :
          HasNo (d ∷ p) (replace_all (d ∷ p) (length (d ∷ p) - 1) s)
          → HasNo (d ∷ p) (replace_all (d ∷ p) zero s)
          → HasNo (d ∷ p) (replace_all (d ∷ p) zero (c ∷ s))
      go cut whole = elim (Bool-cases (has_prefix (c ∷ s) (d ∷ p))) [
        | inl e ↦
            subst (HasNo (d ∷ p)) (sym (replace_all-hit (d ∷ p) c s e))
              (HasNo-append (d ∷ p) d p foreign hidden _ foreign.0 cut)
        | inr e ↦
            subst (HasNo (d ∷ p)) (sym (replace_all-miss (d ∷ p) c s e))
              (missed (d ∷ p) d p foreign c s e, whole)
      ]

  mask-keeps : (vs : List Text) (s : Text) → HasNo (d ∷ p) s → HasNo (d ∷ p) (mask vs s)
  unfolding mask
  mask-keeps [] s h = h
  mask-keeps (v ∷ vs) s h =
      mask-keeps vs (replace_all v 0 s) (replace_all-keeps v d p foreign 0 s h)

  mask-removes : (vs : List Text) (s : Text) → In (d ∷ p) vs → HasNo (d ∷ p) (mask vs s)
  unfolding mask
  mask-removes [] s m = absurd m
  mask-removes (v ∷ vs) s (inl e) =
      mask-keeps vs (replace_all v 0 s)
        (subst (λ x. HasNo (d ∷ p) (replace_all x 0 s)) (sym e) (replace_all-removes 0 s))
  mask-removes (v ∷ vs) s (inr m) = mask-removes vs (replace_all v 0 s) m

  -- A sensitive value that is not empty, and that shares no byte with "HIDDEN-BY-CIRRUS-CI", does not occur
  -- in a chunk that WriteChunk sends, whatever the other values are and in whichever order.
  pub write_chunk-HasNo :
      (vs : List Text) (c : ℕ) (s : Text)
      → In (d ∷ p) vs
      → (bytes : Text) × (write_chunk vs (c ∷ s) ≡ some bytes) × HasNo (d ∷ p) bytes
  unfolding write_chunk
  write_chunk-HasNo vs c s m = (mask vs (c ∷ s), refl, mask-removes vs (c ∷ s) m)
