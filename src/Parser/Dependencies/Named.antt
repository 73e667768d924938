-- ===== src/Parser/Dependencies/Named.antt =====
-- pkg/parser/parser.go: the IDs of the tasks that have a name or an alias.
use cirrus_cli.Prelude.{
  ℕ, String, true, ◌≡◌, refl, ◌↔◌, ◌⊎◌, inl, inr, List, [], ◌∷◌, In, if◌then◌else◌, Bool-cases,
  str_eq, eq_iff, arith, subst, sym,
}
use cirrus_cli.Parser.Defs.{TaskLike}
use cirrus_cli.Parser.Dependencies.{is_called, ids_of}

-- a task that the code takes for one of the given name has the ID
abbrev IsCalled : List TaskLike → String → ℕ → Type 0
IsCalled tasks n i = (t : TaskLike) × In t tasks × (is_called n t ≡ true) × (t.id ≡ i)

In-ids_of-called→ : (n : String) (i : ℕ) (ts : List TaskLike) → In i (ids_of n ts) → IsCalled ts n i
unfolding ids_of
In-ids_of-called→ n i [] m = absurd m
In-ids_of-called→ n i (t ∷ ts) m = elim (Bool-cases (is_called n t)) [
  | inl e ↦ split e m (In-ids_of-called→ n i ts)
  | inr e ↦ let (u, k, h, p) = In-ids_of-called→ n i ts (rw e at m) in (u, inr k, h, p)
]
  where
    split :
        is_called n t ≡ true
        → In i (if is_called n t then t.id ∷ ids_of n ts else ids_of n ts)
        → (In i (ids_of n ts) → IsCalled ts n i)
        → IsCalled (t ∷ ts) n i
    split e k ih = elim (rest e k) [
      | inl p ↦ (t, inl refl, e, p)
      | inr q ↦ let (u, j, h, p) = ih q in (u, inr j, h, p)
    ]
      where
        rest :
            is_called n t ≡ true
            → In i (if is_called n t then t.id ∷ ids_of n ts else ids_of n ts)
            → (t.id ≡ i) ⊎ In i (ids_of n ts)
        rest e' k' = rw e' at k'

In-ids_of-called← : (n : String) (i : ℕ) (ts : List TaskLike) → IsCalled ts n i → In i (ids_of n ts)
unfolding ids_of
In-ids_of-called← n i [] (t, m, h, e) = absurd m
In-ids_of-called← n i (t ∷ ts) (u, inl p, h, e) =
    rw (subst (λ v. is_called n v ≡ true) (sym p) h)
      (inl (subst (λ (v : TaskLike). v.id ≡ i) (sym p) e))
In-ids_of-called← n i (t ∷ ts) (u, inr m, h, e) = elim (Bool-cases (is_called n t)) [
  | inl q ↦ rw q (inr (In-ids_of-called← n i ts (u, m, h, e)))
  | inr q ↦ rw q (In-ids_of-called← n i ts (u, m, h, e))
]

-- a task of the given name or alias has the ID
abbrev pub IsNamed : List TaskLike → String → ℕ → Type 0
IsNamed tasks n i = (t : TaskLike) × In t tasks × ((t.name ≡ n) ⊎ (t.alias ≡ n)) × (t.id ≡ i)

is_called_iff :
    (n : String) (t : TaskLike) → (is_called n t ≡ true) ↔ ((t.name ≡ n) ⊎ (t.alias ≡ n))
is_called_iff n t = (
  λ h. elim (Bool-cases (str_eq t.name n)) [
    | inl e ↦ inl ((eq_iff t.name n).0 e)
    | inr e ↦ inr ((eq_iff t.alias n).0 (rw e at h))
  ],
  λ o. elim o [
    | inl e ↦ ground (arith, (eq_iff t.name n).1 e)
    | inr e ↦ ground (arith, (eq_iff t.alias n).1 e)
  ],
)

pub In-ids_of→ : (n : String) (i : ℕ) (ts : List TaskLike) → In i (ids_of n ts) → IsNamed ts n i
In-ids_of→ n i ts m =
    let (t, k, h, e) = In-ids_of-called→ n i ts m in (t, k, (is_called_iff n t).0 h, e)

pub In-ids_of← : (n : String) (i : ℕ) (ts : List TaskLike) → IsNamed ts n i → In i (ids_of n ts)
In-ids_of← n i ts (t, k, h, e) = In-ids_of-called← n i ts (t, k, (is_called_iff n t).1 h, e)
