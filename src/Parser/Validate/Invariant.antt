-- ===== src/Parser/Validate/Invariant.antt =====
-- What holds of the set of satisfied IDs in every turn of validateDependenciesDeep.
use cirrus_cli.Prelude.{
  ℕ, suc, ◌+◌, ◌≤◌, true, false, ◌≡◌, refl, ◌≢◌, inl, inr, some, List, [], ◌∷◌, All, In, subst, sym,
  ap, length, Bool-cases, arith, if◌then◌else◌, ◌==◌,
}
use cirrus_cli.Parser.Defs.{TaskLike}
use cirrus_cli.Parser.Validate.{contains, add, all_satisfied, unsatisfied, remember, resolve}
use cirrus_cli.Parser.Validate.Resolve.{contains-add, Distinct, turn, In-turn→, resolve_rule}

all_satisfied_mono :
    (s s' : List ℕ) (ds : List ℕ)
    → ((j : ℕ) → contains j s ≡ true → contains j s' ≡ true)
    → all_satisfied s ds ≡ true
    → all_satisfied s' ds ≡ true
unfolding all_satisfied
all_satisfied_mono s s' [] f h = refl
all_satisfied_mono s s' (d ∷ ds) f h = ground (arith, f d, all_satisfied_mono s s' ds f)

-- where an ID stands in the set, counted from the first that was put in
unfoldable pub rank_in : List ℕ → ℕ → ℕ
rank_in [] d = 0
rank_in (x ∷ s) d = if x == d then suc (length s) else rank_in s d

pub rank_in-le : (s : List ℕ) (d : ℕ) → rank_in s d ≤ length s
unfolding rank_in
rank_in-le [] d = omega arith
rank_in-le (x ∷ s) d = ground (arith, rank_in-le s d)

-- each ID of the set is that of a task, whose dependencies went in before it
abbrev pub IsBuilt : List TaskLike → List ℕ → Type 0
IsBuilt tasks [] = Unit
IsBuilt tasks (x ∷ s) =
    ((t : TaskLike) × In t tasks × (t.id ≡ x) × (all_satisfied s t.depends_on_ids ≡ true))
    × (contains x s ≡ false)
    × IsBuilt tasks s

abbrev pub IsCounted : List TaskLike → List ℕ → Type 0
IsCounted tasks s = length s + length (unsatisfied s tasks) ≡ length tasks

pub absent :
    (n : ℕ) (ts : List TaskLike) (t : TaskLike)
    → All (λ (u : TaskLike). n ≢ u.id) ts
    → In t ts
    → n ≢ t.id
absent n [] t h m = absurd m
absent n (u ∷ us) t h (inl e) = ground (arith, h.0, ap (λ (v : TaskLike). v.id) e)
absent n (u ∷ us) t h (inr m) = absent n us t h.1 m

unsatisfied-add_absent :
    (x : ℕ) (s : List ℕ) (ts : List TaskLike)
    → All (λ (u : TaskLike). x ≢ u.id) ts
    → unsatisfied (add x s) ts ≡ unsatisfied s ts
unfolding unsatisfied
unsatisfied-add_absent x s [] h = refl
unsatisfied-add_absent x s (t ∷ ts) h =
    ground (arith, contains-add x t.id s, unsatisfied-add_absent x s ts h.1)

length-unsatisfied-add :
    (s : List ℕ) (t : TaskLike) (ts : List TaskLike)
    → Distinct ts
    → In t ts
    → contains t.id s ≡ false
    → length (unsatisfied (add t.id s) ts) + 1 ≡ length (unsatisfied s ts)
unfolding unsatisfied
length-unsatisfied-add s t [] d m h = absurd m
length-unsatisfied-add s t (u ∷ us) d (inl e) h =
    let h' : contains u.id s ≡ false =
      subst (λ (v : TaskLike). contains v.id s ≡ false) (sym e) h in
    subst
      (λ (v : TaskLike).
        length (unsatisfied (add v.id s) (u ∷ us)) + 1 ≡ length (unsatisfied s (u ∷ us)))
      e (ground (arith, contains-add u.id u.id s, unsatisfied-add_absent u.id s us d.0, h'))
length-unsatisfied-add s t (u ∷ us) d (inr m) h =
    ground (
      arith,
      absent u.id us t d.0 m,
      contains-add t.id u.id s,
      length-unsatisfied-add s t us d.1 m h,
    )

add-present : (x : ℕ) (s : List ℕ) → contains x s ≡ true → add x s ≡ s
unfolding add
add-present x s h = rw h

add-new : (x : ℕ) (s : List ℕ) → contains x s ≡ false → add x s ≡ x ∷ s
unfolding add
add-new x s h = rw h

unsatisfied-nil : (ts : List TaskLike) → length (unsatisfied [] ts) ≡ length ts
unfolding unsatisfied contains
unsatisfied-nil [] = refl
unsatisfied-nil (t ∷ ts) = ap suc (unsatisfied-nil ts)

module _ (tasks : List TaskLike) (distinct : Distinct tasks) where
  abbrev Inv : List ℕ → Type 0
  Inv s = IsBuilt tasks s × IsCounted tasks s

  Inv-add :
      (t : TaskLike) (s : List ℕ)
      → In t tasks
      → all_satisfied s t.depends_on_ids ≡ true
      → Inv s
      → Inv (add t.id s)
  Inv-add t s m d (b, c) = elim (Bool-cases (contains t.id s)) [
    | inl e ↦ rw (add-present t.id s e) (b, c)
    | inr e ↦
        let n = length-unsatisfied-add s t tasks distinct m e in
        rw (add-new t.id s e) (((t, m, refl, d), e, b), omega (arith, rw (add-new t.id s e) at n))
  ]

  Inv-remember :
      (ts : List TaskLike) (s₀ s : List ℕ)
      → ((t : TaskLike) → In t ts → In t tasks × (all_satisfied s₀ t.depends_on_ids ≡ true))
      → ((j : ℕ) → contains j s₀ ≡ true → contains j s ≡ true)
      → Inv s
      → Inv (remember ts s)
  unfolding remember
  Inv-remember [] s₀ s f g i = i
  Inv-remember (t ∷ ts) s₀ s f g i =
      let (m, d) = f t (inl refl) in
      Inv-remember ts s₀ (add t.id s) (λ u n. f u (inr n))
        (λ j h. ground (arith, contains-add t.id j s, g j h))
        (Inv-add t s m (all_satisfied_mono s₀ s t.depends_on_ids g d) i)

  Inv-turn : (s : List ℕ) → Inv s → Inv (remember (turn tasks s) s)
  Inv-turn s i =
      Inv-remember (turn tasks s) s s (λ t m. let (n, _, d) = In-turn→ tasks s t m in (n, d))
        (λ j h. h) i

  Inv-nil : Inv []
  Inv-nil = (tt, omega (arith, unsatisfied-nil tasks))

  pub resolved :
      (s : List ℕ) × (resolve (suc (length tasks)) tasks [] ≡ some s) × (turn tasks s ≡ []) × Inv s
  resolved =
      resolve_rule tasks Inv Inv-turn (suc (length tasks)) [] (omega (arith, unsatisfied-nil tasks))
        Inv-nil
