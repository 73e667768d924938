-- ===== src/Agent/CachePaths/Kept.antt =====
-- internal/agent/executor/cache.go: which folders DeduplicatePaths keeps.
use cirrus_cli.Prelude.{
  Bool, true, false, not, ◌||◌, List, [], ◌∷◌, ◌++◌, if◌then◌else◌, Text, text_less, contains_text,
  ◌≡◌, ◌⊎◌, ◌↔◌, inl, inr, refl, sym, ap, subst, arith, Bool-cases, In,
}
use cirrus_cli.Agent.CachePaths.{
  insert_path, sort_paths, is_empty, without_inner, deduplicate_paths,
}

In-insert_path : (p q : Text) (ps : List Text) → In q (p ∷ ps) ↔ In q (insert_path p ps)
unfolding insert_path
In-insert_path p q [] = (λ m. m, λ m. m)
In-insert_path p q (r ∷ rs) =
    let (to, from) = In-insert_path p q rs in
    let same =
      λ (b : Bool). In q (p ∷ r ∷ rs) ↔ In q (if b then r ∷ insert_path p rs else p ∷ r ∷ rs) in
    elim (Bool-cases (text_less r p)) [
      | inl e ↦ subst same (sym e) (
        λ m. elim m [
          | inl d ↦ inr (to (inl d))
          | inr (inl d) ↦ inl d
          | inr (inr n) ↦ inr (to (inr n))
        ],
        λ m. elim m [
          | inl d ↦ inr (inl d)
          | inr n ↦ elim (from n) [ inl d ↦ inl d | inr k ↦ inr (inr k) ]
        ],
      )
      | inr e ↦ subst same (sym e) (λ m. m, λ m. m)
    ]

In-sort_paths : (q : Text) (ps : List Text) → In q ps ↔ In q (sort_paths ps)
unfolding sort_paths
In-sort_paths q [] = (λ m. m, λ m. m)
In-sort_paths q (p ∷ ps) =
    let (to, from) = In-sort_paths q ps in
    let (put, taken) = In-insert_path p q (sort_paths ps) in
    (
      λ m. put (elim m [ inl e ↦ inl e | inr n ↦ inr (to n) ]),
      λ m. elim (taken m) [ inl e ↦ inl e | inr n ↦ inr (from n) ],
    )

-- a path that holds one of the kept ones, which is not empty, with a separator behind it
abbrev pub Covered : List Text → Text → Type 0
Covered kept p =
    (q : Text) × In q kept × (is_empty q ≡ false) × (contains_text p (q ++ b'/' ∷ []) ≡ true)

wider : (kept : List Text) (r p : Text) → Covered kept p → Covered (r ∷ kept) p
wider kept r p (q, m, e, d) = (q, inr m, e, d)

-- what the loop promises: it returns no other path, and one that it leaves out holds one that it keeps
abbrev Keeps : Text → List Text → List Text → Text → Type 0
Keeps previous ps kept p =
    (In p kept → In p ps) × (In p ps → In p kept ⊎ Covered (previous ∷ kept) p)

without_inner-Keeps :
    (previous : Text) (ps : List Text) (p : Text) → Keeps previous ps (without_inner previous ps) p
unfolding without_inner
without_inner-Keeps previous [] p = (λ m. m, λ m. absurd m)
without_inner-Keeps previous (q ∷ qs) p =
    let kept = λ (b : Bool).
      Keeps previous (q ∷ qs) (if b then q ∷ without_inner q qs else without_inner previous qs) p in
    elim (Bool-cases (is_empty previous || not (contains_text q (previous ++ b'/' ∷ [])))) [
      | inl e ↦
          let (from, to) = without_inner-Keeps q qs p in
          subst kept (sym e) (
            λ m. elim m [ inl d ↦ inl d | inr n ↦ inr (from n) ],
            λ m. elim m [
              | inl d ↦ inl (inl d)
              | inr n ↦ elim (to n) [
                | inl k ↦ inl (inr k)
                | inr c ↦ inr (wider (q ∷ without_inner q qs) previous p c)
              ]
            ],
          )
      | inr e ↦
          let (from, to) = without_inner-Keeps previous qs p in
          subst kept (sym e) (
            λ m. inr (from m),
            λ m. elim m [
              | inl d ↦ inr (
                previous,
                inl refl,
                ground (arith, e),
                subst (λ r. contains_text r (previous ++ b'/' ∷ []) ≡ true) d (ground (arith, e)),
              )
              | inr n ↦ to n
            ],
          )
    ]

-- DeduplicatePaths returns no path that it was not given, and a path that it leaves out holds one that
-- it returns, with a separator behind it, in some place.
pub deduplicate_paths-Covered :
    (paths : List Text) (p : Text)
    → (In p (deduplicate_paths paths) → In p paths)
      × (In p paths → In p (deduplicate_paths paths) ⊎ Covered (deduplicate_paths paths) p)
unfolding deduplicate_paths
deduplicate_paths-Covered paths p =
    let (from, to) = without_inner-Keeps [] (sort_paths paths) p in
    let (sorted, unsorted) = In-sort_paths p paths in
    (
      λ m. unsorted (from m),
      λ m. elim (to (sorted m)) [
        | inl k ↦ inl k
        | inr (q, inl d, e, c) ↦ ground (arith, e, ap is_empty d)
        | inr (q, inr k, e, c) ↦ inr (q, k, e, c)
      ],
    )
