-- ===== src/Parser/Validate/Sound.antt =====
-- validateDependenciesDeep accepts exactly the dependencies that can be put in an order.
use cirrus_cli.Prelude.{
  ℕ, zero, suc, ◌<◌, true, false, ◌≡◌, refl, ◌↔◌, inl, inr, some, List, [], ◌∷◌, All, All-In,
  All-map, map, In, subst, sym, ap, ◌∙◌, length, Bool-cases, arith, if◌then◌else◌, ◌==◌,
}
use cirrus_cli.Parser.Defs.{TaskLike}
use cirrus_cli.Parser.Validate.{
  contains, all_satisfied, unsatisfied, Validated, valid, unresolved, validate_dependencies_deep,
}
use cirrus_cli.Parser.Validate.Resolve.{Distinct, In-unsatisfied←, In-newly←, turn}
use cirrus_cli.Parser.Validate.Invariant.{rank_in, rank_in-le, IsBuilt, IsCounted, absent, resolved}

-- a rank of the IDs under which each task comes after the tasks that it depends on
pub record IsOrdered (rank : ℕ → ℕ) (tasks : List TaskLike) : Type 0 where
  pub present :
      All
        (λ (t : TaskLike). All (λ d. (u : TaskLike) × In u tasks × (u.id ≡ d)) t.depends_on_ids)
        tasks
  pub falling : All (λ (t : TaskLike). All (λ d. rank d < rank t.id) t.depends_on_ids) tasks

same_task :
    (t u : TaskLike) (ts : List TaskLike) → Distinct ts → In t ts → In u ts → t.id ≡ u.id → t ≡ u
same_task t u [] d m n e = absurd m
same_task t u (v ∷ vs) d (inl p) (inl q) e = sym p ∙ q
same_task t u (v ∷ vs) d (inl p) (inr n) e =
    absurd (absent v.id vs u d.0 n (ap (λ (w : TaskLike). w.id) p ∙ e))
same_task t u (v ∷ vs) d (inr m) (inl q) e =
    absurd (absent v.id vs t d.0 m (ap (λ (w : TaskLike). w.id) q ∙ sym e))
same_task t u (v ∷ vs) d (inr m) (inr n) e = same_task t u vs d.1 m n e

all_satisfied-cons :
    (s : List ℕ) (d : ℕ) (ds : List ℕ)
    → contains d s ≡ true
    → all_satisfied s ds ≡ true
    → all_satisfied s (d ∷ ds) ≡ true
unfolding all_satisfied
all_satisfied-cons s d ds c h = rw c h

contains-tail :
    (x d : ℕ) (s : List ℕ) → (x == d) ≡ false → contains d (x ∷ s) ≡ true → contains d s ≡ true
unfolding contains
contains-tail x d s p h = ground arith

not-In_empty : (t : TaskLike) (ts : List TaskLike) → length ts ≡ 0 → ¬ In t ts
not-In_empty t [] e m = m
not-In_empty t (u ∷ us) e m = omega arith

All-of : {P : TaskLike → Type 0} (ts : List TaskLike) → ((t : TaskLike) → In t ts → P t) → All P ts
All-of [] f = tt
All-of (t ∷ ts) f = (f t (inl refl), All-of ts (λ u m. f u (inr m)))

unsatisfied-none :
    (s : List ℕ) (ts : List TaskLike)
    → ((t : TaskLike) → In t ts → contains t.id s ≡ true)
    → unsatisfied s ts ≡ []
unfolding unsatisfied
unsatisfied-none s [] f = refl
unsatisfied-none s (t ∷ ts) f = rw (f t (inl refl)) (unsatisfied-none s ts (λ u m. f u (inr m)))

module _ (tasks : List TaskLike) (distinct : Distinct tasks) where
  present_of :
      (s : List ℕ) (d : ℕ)
      → IsBuilt tasks s
      → contains d s ≡ true
      → (u : TaskLike) × In u tasks × (u.id ≡ d)
  unfolding contains
  present_of [] d b h = cc
  present_of (x ∷ s) d ((u, m, e, _), _, b) h = elim (Bool-cases (x == d)) [
    | inl p ↦ (u, m, ground (arith, e))
    | inr p ↦ present_of s d b (ground arith)
  ]

  -- what is in the set is ranked below the next ID that goes in
  weaken :
      (x n : ℕ) (s : List ℕ) (ds : List ℕ)
      → contains x s ≡ false
      → All (λ d. (contains d s ≡ true) × (rank_in s d < n)) ds
      → All (λ d. (contains d (x ∷ s) ≡ true) × (rank_in (x ∷ s) d < n)) ds
  unfolding contains rank_in
  weaken x n s [] h a = tt
  weaken x n s (d ∷ ds) h a = ground (arith, weaken x n s ds h a.1, ap (λ k. contains k s))

  weaken_rank :
      (x i : ℕ) (s : List ℕ) (ds : List ℕ)
      → contains x s ≡ false
      → (x == i) ≡ false
      → All (λ d. (contains d s ≡ true) × (rank_in s d < rank_in s i)) ds
      → All (λ d. (contains d (x ∷ s) ≡ true) × (rank_in (x ∷ s) d < rank_in (x ∷ s) i)) ds
  weaken_rank x i s ds h p a = let w = weaken x (rank_in s i) s ds h a in unfold rank_in in rw p w

  below-All :
      (s : List ℕ) (ds : List ℕ)
      → all_satisfied s ds ≡ true
      → All (λ d. (contains d s ≡ true) × (rank_in s d < suc (length s))) ds
  unfolding all_satisfied
  below-All s [] h = tt
  below-All s (d ∷ ds) h = ground (arith, rank_in-le s d, below-All s ds)

  ranked :
      (s : List ℕ) (t : TaskLike)
      → IsBuilt tasks s
      → In t tasks
      → contains t.id s ≡ true
      → All (λ d. (contains d s ≡ true) × (rank_in s d < rank_in s t.id)) t.depends_on_ids
  ranked [] t b m h = unfold contains in cc
  ranked (x ∷ s) t ((u, n, e, sat), out, b) m h = elim (Bool-cases (x == t.id)) [
    | inl p ↦
        let same : u ≡ t = same_task u t tasks distinct n m (ground (arith, e)) in
        unfold rank_in in
        rw p (
          weaken x (suc (length s)) s t.depends_on_ids out
            (below-All s t.depends_on_ids (rw same at sat)))
    | inr p ↦
        let before = ranked s t b m (contains-tail x t.id s p h) in
        weaken_rank x t.id s t.depends_on_ids out p before
  ]

  all_contained :
      (s : List ℕ)
      → length s ≡ length tasks
      → IsCounted tasks s
      → (t : TaskLike) → In t tasks
      → contains t.id s ≡ true
  all_contained s full c t m = elim (Bool-cases (contains t.id s)) [
    | inl e ↦ e
    | inr e ↦
        absurd (not-In_empty t (unsatisfied s tasks) (omega arith) (In-unsatisfied← s t tasks m e))
  ]

  IsOrdered-by :
      (s : List ℕ)
      → length s ≡ length tasks
      → IsBuilt tasks s
      → IsCounted tasks s
      → IsOrdered (rank_in s) tasks
  IsOrdered-by s full b c = record {
    present = All-of tasks (λ t m.
        All-map (λ d. (contains d s ≡ true) × (rank_in s d < rank_in s t.id))
          (λ d. (u : TaskLike) × In u tasks × (u.id ≡ d)) t.depends_on_ids
          (λ d h. present_of s d b h.0) (ranked s t b m (all_contained s full c t m)));
    falling = All-of tasks (λ t m.
        All-map (λ d. (contains d s ≡ true) × (rank_in s d < rank_in s t.id))
          (λ d. rank_in s d < rank_in s t.id) t.depends_on_ids (λ d h. h.1)
          (ranked s t b m (all_contained s full c t m)));
  }

  module _ (rank : ℕ → ℕ) (ordered : IsOrdered rank tasks) (s : List ℕ)
      (done : turn tasks s ≡ []) where
    reached : (k : ℕ) (t : TaskLike) → In t tasks → rank t.id < k → contains t.id s ≡ true
    reached zero t m h = absurd (omega arith)
    reached (suc k) t m h = elim (Bool-cases (contains t.id s)) [
      | inl e ↦ e
      | inr e ↦ absurd (
          subst (In t) done (
            In-newly← s t (unsatisfied s tasks) (In-unsatisfied← s t tasks m e) (
              satisfy t.depends_on_ids
                (All-In t
                  (λ (v : TaskLike).
                    All (λ d. (u : TaskLike) × In u tasks × (u.id ≡ d)) v.depends_on_ids)
                  tasks ordered.present m)
                (All-In t (λ (v : TaskLike). All (λ d. rank d < rank v.id) v.depends_on_ids) tasks
                  ordered.falling m)
                (reached k))))
    ]
      where
        satisfy :
            (ds : List ℕ)
            → All (λ d. (u : TaskLike) × In u tasks × (u.id ≡ d)) ds
            → All (λ d. rank d < rank t.id) ds
            → ((u : TaskLike) → In u tasks → rank u.id < k → contains u.id s ≡ true)
            → all_satisfied s ds ≡ true
        satisfy [] p f ih = unfold all_satisfied in refl
        satisfy (d ∷ ds) ((u, mu, e), p) (lt, f) ih =
            let c : contains d s ≡ true =
              subst (λ i. contains i s ≡ true) e (ih u mu (rw e (omega arith))) in
            all_satisfied-cons s d ds c (satisfy ds p f ih)

    nothing_left : unsatisfied s tasks ≡ []
    nothing_left = unsatisfied-none s tasks (λ t m. reached (suc (rank t.id)) t m (omega arith))

-- If the IDs are distinct, validateDependenciesDeep returns, and it returns nil exactly when the tasks
-- can be ranked so that every dependency is the ID of a task of lower rank: no dependency is missing
-- and none is circular.
pub validate_iff :
    (tasks : List TaskLike)
    → Distinct tasks
    → (v : Validated) × (validate_dependencies_deep tasks ≡ some v)
      × ((v ≡ valid) ↔ ((rank : ℕ → ℕ) × IsOrdered rank tasks))
unfolding validate_dependencies_deep
validate_iff tasks distinct =
    let (s, e, done, inv) = resolved tasks distinct in
    let (b, c) = inv in
    (
      if length s == length tasks
          then valid
          else unresolved (map (λ (t : TaskLike). t.name) (unsatisfied s tasks)),
      ground (arith, e),
      (
        λ h. (rank_in s, IsOrdered-by tasks distinct s (ground arith) b c),
        λ (rank, o). ground (arith, c, nothing_left tasks distinct rank o s done),
      ),
    )
