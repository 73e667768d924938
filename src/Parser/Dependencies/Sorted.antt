-- ===== src/Parser/Dependencies/Sorted.antt =====
-- The insertion sort of the dependencies' IDs: sorted, and of the same elements.
use cirrus_cli.Prelude.{
  ℕ, ◌≤◌, ◌≡◌, ◌↔◌, ◌⊎◌, inl, inr, List, [], ◌∷◌, All, In, leb, Bool-cases, arith,
}
use cirrus_cli.Parser.Dependencies.{insert, sort}

abbrev pub IsSorted : List ℕ → Type 0
IsSorted [] = Unit
IsSorted (i ∷ is) = All (λ j. i ≤ j) is × IsSorted is

All-insert : (n i : ℕ) (js : List ℕ) → n ≤ i → All (λ j. n ≤ j) js → All (λ j. n ≤ j) (insert i js)
unfolding insert
All-insert n i [] h a = (h, tt)
All-insert n i (j ∷ js) h a = ground (arith, All-insert n i js h a.1)

All-le_trans : (n m : ℕ) (js : List ℕ) → n ≤ m → All (λ j. m ≤ j) js → All (λ j. n ≤ j) js
All-le_trans n m [] h a = tt
All-le_trans n m (j ∷ js) h a = (omega (arith, a.0), All-le_trans n m js h a.1)

insert-IsSorted : (i : ℕ) (js : List ℕ) → IsSorted js → IsSorted (insert i js)
unfolding insert
insert-IsSorted i [] s = (tt, tt)
insert-IsSorted i (j ∷ js) s = elim (Bool-cases (leb i j)) [
  | inl e ↦ rw e ((ground arith, All-le_trans i j js (ground arith) s.0), s)
  | inr e ↦ rw e (All-insert j i js (ground arith) s.0, insert-IsSorted i js s.1)
]

pub sort-IsSorted : (is : List ℕ) → IsSorted (sort is)
unfolding sort
sort-IsSorted [] = tt
sort-IsSorted (i ∷ is) = insert-IsSorted i (sort is) (sort-IsSorted is)

In-insert_iff : (k i : ℕ) (js : List ℕ) → In k (insert i js) ↔ ((i ≡ k) ⊎ In k js)
unfolding insert
In-insert_iff k i [] = (λ m. m, λ m. m)
In-insert_iff k i (j ∷ js) = elim (Bool-cases (leb i j)) [
  | inl e ↦ rw e (λ m. m, λ m. m)
  | inr e ↦
      let (to, from) = In-insert_iff k i js in
      rw e (
        λ m. elim m [
          | inl p ↦ inr (inl p)
          | inr q ↦ elim (to q) [ inl r ↦ inl r | inr r ↦ inr (inr r) ]
        ],
        λ m. elim m [
          | inl p ↦ inr (from (inl p))
          | inr q ↦ elim q [ inl r ↦ inl r | inr r ↦ inr (from (inr r)) ]
        ],
      )
]

pub In-sort_iff : (k : ℕ) (is : List ℕ) → In k (sort is) ↔ In k is
unfolding sort
In-sort_iff k [] = (λ m. m, λ m. m)
In-sort_iff k (i ∷ is) =
    let (to, from) = In-sort_iff k is in
    let (split, join) = In-insert_iff k i (sort is) in
    (
      λ m. elim (split m) [ inl p ↦ inl p | inr q ↦ inr (to q) ],
      λ m. elim m [ inl p ↦ join (inl p) | inr q ↦ join (inr (from q)) ],
    )
