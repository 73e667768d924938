-- ===== src/Parser/Validate/Resolve.antt =====
-- The loop of validateDependenciesDeep ends, and what holds of its set.
use cirrus_cli.Prelude.{
  ℕ, zero, suc, ◌≤◌, ◌<◌, true, false, ◌≡◌, refl, ◌≢◌, inl, inr, some, List, [], ◌∷◌, All, In,
  subst, sym, ap, length, Bool-cases, arith, if◌then◌else◌, ◌==◌,
}
use cirrus_cli.Parser.Defs.{TaskLike}
use cirrus_cli.Parser.Validate.{
  contains, add, all_satisfied, unsatisfied, newly_satisfied, remember, resolve,
}

pub contains-add :
    (i j : ℕ) (s : List ℕ) → contains j (add i s) ≡ (if i == j then true else contains j s)
unfolding add contains
contains-add i j s = ground (arith, ap (λ k. contains k s))

-- two places of the list hold two IDs
abbrev pub Distinct : List TaskLike → Type 0
Distinct [] = Unit
Distinct (t ∷ ts) = All (λ (u : TaskLike). t.id ≢ u.id) ts × Distinct ts

abbrev Includes : List ℕ → List ℕ → Type 0
Includes s s' = (j : ℕ) → contains j s ≡ true → contains j s' ≡ true

length-unsatisfied-le :
    (s s' : List ℕ) (ts : List TaskLike)
    → Includes s s'
    → length (unsatisfied s' ts) ≤ length (unsatisfied s ts)
unfolding unsatisfied
length-unsatisfied-le s s' [] f = omega arith
length-unsatisfied-le s s' (t ∷ ts) f = ground (arith, f t.id, length-unsatisfied-le s s' ts f)

length-unsatisfied-lt :
    (s s' : List ℕ) (t : TaskLike) (ts : List TaskLike)
    → Includes s s'
    → In t ts
    → contains t.id s ≡ false
    → contains t.id s' ≡ true
    → length (unsatisfied s' ts) < length (unsatisfied s ts)
unfolding unsatisfied
length-unsatisfied-lt s s' t [] f m a b = absurd m
length-unsatisfied-lt s s' t (u ∷ us) f (inl e) a b =
    let a' : contains u.id s ≡ false =
      subst (λ (v : TaskLike). contains v.id s ≡ false) (sym e) a in
    let b' : contains u.id s' ≡ true =
      subst (λ (v : TaskLike). contains v.id s' ≡ true) (sym e) b in
    ground (arith, length-unsatisfied-le s s' us f)
length-unsatisfied-lt s s' t (u ∷ us) f (inr m) a b =
    ground (arith, f u.id, length-unsatisfied-lt s s' t us f m a b)

Includes-remember : (ts : List TaskLike) (s : List ℕ) → Includes s (remember ts s)
unfolding remember
Includes-remember [] s j h = h
Includes-remember (t ∷ ts) s j h =
    Includes-remember ts (add t.id s) j (ground (arith, contains-add t.id j s))

module _ (s : List ℕ) (t : TaskLike) where
  In-unsatisfied→ :
      (ts : List TaskLike) → In t (unsatisfied s ts) → In t ts × (contains t.id s ≡ false)
  unfolding unsatisfied
  In-unsatisfied→ [] m = absurd m
  In-unsatisfied→ (u ∷ us) m = elim (Bool-cases (contains u.id s)) [
    | inl e ↦ let (n, p) = In-unsatisfied→ us (rw e at m) in (inr n, p)
    | inr e ↦ head u us e (rw e at m) (In-unsatisfied→ us)
  ]
    where
      head :
          (u : TaskLike) (us : List TaskLike)
          → contains u.id s ≡ false
          → In t (u ∷ unsatisfied s us)
          → (In t (unsatisfied s us) → In t us × (contains t.id s ≡ false))
          → In t (u ∷ us) × (contains t.id s ≡ false)
      head u us e (inl p) ih = (inl p, subst (λ (v : TaskLike). contains v.id s ≡ false) p e)
      head u us e (inr q) ih = let (n, f) = ih q in (inr n, f)

  pub In-unsatisfied← :
      (ts : List TaskLike) → In t ts → contains t.id s ≡ false → In t (unsatisfied s ts)
  unfolding unsatisfied
  In-unsatisfied← [] m h = absurd m
  In-unsatisfied← (u ∷ us) (inl p) h =
      rw (subst (λ (v : TaskLike). contains v.id s ≡ false) (sym p) h) (inl p)
  In-unsatisfied← (u ∷ us) (inr m) h = elim (Bool-cases (contains u.id s)) [
    | inl e ↦ rw e (In-unsatisfied← us m h)
    | inr e ↦ rw e (inr (In-unsatisfied← us m h))
  ]

  In-newly→ :
      (ts : List TaskLike)
      → In t (newly_satisfied s ts)
      → In t ts × (all_satisfied s t.depends_on_ids ≡ true)
  unfolding newly_satisfied
  In-newly→ [] m = absurd m
  In-newly→ (u ∷ us) m = elim (Bool-cases (all_satisfied s u.depends_on_ids)) [
    | inl e ↦ head u us e (rw e at m) (In-newly→ us)
    | inr e ↦ let (n, p) = In-newly→ us (rw e at m) in (inr n, p)
  ]
    where
      head :
          (u : TaskLike) (us : List TaskLike)
          → all_satisfied s u.depends_on_ids ≡ true
          → In t (u ∷ newly_satisfied s us)
          → (In t (newly_satisfied s us) → In t us × (all_satisfied s t.depends_on_ids ≡ true))
          → In t (u ∷ us) × (all_satisfied s t.depends_on_ids ≡ true)
      head u us e (inl p) ih =
          (inl p, subst (λ (v : TaskLike). all_satisfied s v.depends_on_ids ≡ true) p e)
      head u us e (inr q) ih = let (n, f) = ih q in (inr n, f)

  pub In-newly← :
      (ts : List TaskLike)
      → In t ts
      → all_satisfied s t.depends_on_ids ≡ true
      → In t (newly_satisfied s ts)
  unfolding newly_satisfied
  In-newly← [] m h = absurd m
  In-newly← (u ∷ us) (inl p) h =
      rw (subst (λ (v : TaskLike). all_satisfied s v.depends_on_ids ≡ true) (sym p) h) (inl p)
  In-newly← (u ∷ us) (inr m) h = elim (Bool-cases (all_satisfied s u.depends_on_ids)) [
    | inl e ↦ rw e (inr (In-newly← us m h))
    | inr e ↦ rw e (In-newly← us m h)
  ]

-- what a turn takes up
abbrev pub turn : List TaskLike → List ℕ → List TaskLike
turn tasks s = newly_satisfied s (unsatisfied s tasks)

-- a task that a turn takes up was not satisfied, and all its dependencies were
pub In-turn→ :
    (tasks : List TaskLike) (s : List ℕ) (t : TaskLike)
    → In t (turn tasks s)
    → In t tasks × (contains t.id s ≡ false) × (all_satisfied s t.depends_on_ids ≡ true)
In-turn→ tasks s t m =
    let (n, p) = In-newly→ s t (unsatisfied s tasks) m in
    let (k, q) = In-unsatisfied→ s t tasks n in (k, q, p)

module _ (tasks : List TaskLike) (P : List ℕ → Type 0)
    (step : (s : List ℕ) → P s → P (remember (turn tasks s) s)) where
  turn-lt :
      (s : List ℕ) (t : TaskLike) (ts : List TaskLike)
      → turn tasks s ≡ t ∷ ts
      → length (unsatisfied (remember (t ∷ ts) s) tasks) < length (unsatisfied s tasks)
  unfolding remember
  turn-lt s t ts e =
      let (m, out, _) = In-turn→ tasks s t (rw e (inl refl)) in
      length-unsatisfied-lt s (remember (t ∷ ts) s) t tasks (Includes-remember (t ∷ ts) s) m out
        (Includes-remember ts (add t.id s) t.id (ground (arith, contains-add t.id t.id s)))

  -- The loop ends at a set to which nothing can be added, and keeps what each turn keeps.
  pub resolve_rule :
      (fuel : ℕ) (s : List ℕ)
      → length (unsatisfied s tasks) < fuel
      → P s
      → (s' : List ℕ) × (resolve fuel tasks s ≡ some s') × (turn tasks s' ≡ []) × P s'
  unfolding resolve
  resolve_rule zero s c p = absurd (omega arith)
  resolve_rule (suc fuel) s c p = go (turn tasks s) refl (resolve_rule fuel)
    where
      go :
          (ts : List TaskLike)
          → turn tasks s ≡ ts
          → ((r : List ℕ)
              → length (unsatisfied r tasks) < fuel
              → P r
              → (s' : List ℕ) × (resolve fuel tasks r ≡ some s') × (turn tasks s' ≡ []) × P s')
          → (s' : List ℕ) × (resolve (suc fuel) tasks s ≡ some s') × (turn tasks s' ≡ []) × P s'
      go [] e ih = (s, ground (arith, e), e, p)
      go (t ∷ ts) e ih =
          let (s', r, d, q) =
            ih (remember (t ∷ ts) s) (omega (arith, turn-lt s t ts e)) (rw e at (step s p)) in
          (s', ground (arith, e, r), d, q)
