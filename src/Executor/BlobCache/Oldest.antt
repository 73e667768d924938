-- ===== src/Executor/BlobCache/Oldest.antt =====
-- Which of the blobs with a prefix is found.
use cirrus_cli.Prelude.{
  ◌≤◌, ◌≡◌, refl, sym, ap, subst, ◌∙◌, ◌↔◌, Bool, true, false, not, ◌&&◌, List, [], ◌∷◌,
  if◌then◌else◌, Text, has_prefix, arith, Bool-cases, inl, inr, In, All, All-In,
}
use cirrus_cli.Executor.BlobCache.{
  Entry, Found, file, internal, blob_not_found, safe_mod_time, open_entry, first_with_prefix,
  find_by_prefix,
}

-- the entries are in the order of their modification times
abbrev pub IsByTime : List Entry → Type 0
IsByTime [] = Unit
IsByTime (e ∷ es) = All (λ f. safe_mod_time e ≤ safe_mod_time f) es × IsByTime es

abbrev pub is_match : Text → Entry → Bool
is_match prefix e = not e.is_dir && has_prefix e.name prefix

opened : (g e : Entry) → open_entry g ≡ file e → g ≡ e
opened g e h = elim (Bool-cases g.is_readable) [
  | inl r ↦
      file_injective (subst (λ b. ◌≡◌ {A = Found} (if b then file g else internal) (file e)) r h)
  | inr r ↦
      absurd
        (not_internal (subst (λ b. ◌≡◌ {A = Found} (if b then file g else internal) (file e)) r h))
]
  where
    file_injective : {a b : Entry} → file a ≡ file b → a ≡ b
    file_injective {a} d =
        ap (λ x. elim x as (λ y. Entry) [ file c ↦ c | blob_not_found ↦ a | internal ↦ a ]) d

    not_internal : internal ≡ file e → ⊥
    not_internal d = ground (arith, d)

-- an entry that matches, and that no other one that matches precedes in time
abbrev pub IsOldest : Text → List Entry → Entry → Type 0
IsOldest prefix es e =
    In e es
    × (is_match prefix e ≡ true)
    × ((f : Entry) → In f es → is_match prefix f ≡ true → safe_mod_time e ≤ safe_mod_time f)

first_with_prefix-here :
    (prefix : Text) (es : List Entry) (g : Entry)
    → All (λ f. safe_mod_time g ≤ safe_mod_time f) es
    → is_match prefix g ≡ true
    → IsOldest prefix (g ∷ es) g
first_with_prefix-here prefix es g s m = (
  inl refl,
  m,
  λ f i p. elim i [
    | inl d ↦ subst (λ x. safe_mod_time g ≤ safe_mod_time x) d (ground arith)
    | inr j ↦ All-In f (λ x. safe_mod_time g ≤ safe_mod_time x) es s j
  ],
)

first_with_prefix-later :
    (prefix : Text) (es : List Entry) (g e : Entry)
    → is_match prefix g ≡ false
    → IsOldest prefix es e
    → IsOldest prefix (g ∷ es) e
first_with_prefix-later prefix es g e m (i, p, o) = (
  inr i,
  p,
  λ f j q. elim j [
    | inl d ↦ absurd (differ (sym m ∙ ap (is_match prefix) d ∙ q))
    | inr k ↦ o f k q
  ],
)
  where
    differ : false ≡ true → ⊥
    differ d = ground (arith, d)

first_with_prefix-IsOldest :
    (prefix : Text) (es : List Entry) (e : Entry)
    → IsByTime es
    → first_with_prefix prefix es ≡ file e
    → IsOldest prefix es e
unfolding first_with_prefix
first_with_prefix-IsOldest prefix [] e s h = ground (arith, h)
first_with_prefix-IsOldest prefix (g ∷ es) e s h =
    let rest = first_with_prefix-IsOldest prefix es e s.1 in
    let holds = λ (b : Bool).
      ◌≡◌ {A = Found} (if b then open_entry g else first_with_prefix prefix es) (file e) in
    elim (Bool-cases (is_match prefix g)) [
      | inl m ↦
          subst (IsOldest prefix (g ∷ es)) (opened g e (subst holds m h))
            (first_with_prefix-here prefix es g s.0 m)
      | inr m ↦ first_with_prefix-later prefix es g e m (rest (subst holds m h))
    ]

-- FindByPrefix of entries that sort.Slice put in the order of its test returns a file of the directory with the
-- prefix, and no file there with the prefix was modified before it.
pub find_by_prefix-IsOldest :
    (sort : List Entry → List Entry) (prefix : Text) (dir : List Entry) (e : Entry)
    → IsByTime (sort dir)
    → ((f : Entry) → In f (sort dir) ↔ In f dir)
    → find_by_prefix sort prefix dir ≡ file e
    → IsOldest prefix dir e
find_by_prefix-IsOldest sort prefix dir e s same h =
    let (m, p, o) = first_with_prefix-IsOldest prefix (sort dir) e s h in
    ((same e).0 m, p, λ f i q. o f ((same f).1 i) q)
