-- ===== src/Parser/Tree/Matrix/Path.antt =====
-- The paths that one pass of the expansion takes lead to the nodes that it looks for.
use cirrus_cli.Prelude.{
  ℕ, suc, String, Bool, true, false, Option, none, some, List, [], ◌∷◌, ◌++◌, if◌then◌else◌, str_eq,
  eq_iff, arith, ◌≡◌, refl, sym, ap, subst, ◌∙◌, ◌⊎◌, inl, inr, Bool-cases, ◌≢◌, Option-cases,
}
use cirrus_cli.Parser.Tree.{
  Node, node, Nodes, nil, cons, name_of, children_of, deep_find_child, deep_find_in,
}
use cirrus_cli.Parser.Tree.Matrix.{nth, deep_find_path, deep_find_path_in, get_path, find_parent}

-- a search and its path find nothing, or the same node of the name, below a list of children
abbrev FindsIn : String → Nodes → Option (List ℕ) → Option Node → Type 0
FindsIn name ns o d =
    ((o ≡ none) × (d ≡ none))
    ⊎ ((i : ℕ) × (p : List ℕ) × (m : Node) × (o ≡ some (i ∷ p))
        × (d ≡ some m)
        × (name_of m ≡ name)
        × (elim (nth i ns) [ none ↦ none | some k ↦ get_path p k ] ≡ some m))

abbrev path_step : Bool → Option (List ℕ) → Option (List ℕ) → Option (List ℕ)
path_step b o r = elim b [
  | true ↦ some (0 ∷ [])
  | false ↦ elim o [
    | some p ↦ some (0 ∷ p)
    | none ↦ elim r [ some [] ↦ none | some (i ∷ p) ↦ some (suc i ∷ p) | none ↦ none ]
  ]
]

abbrev child_step : Bool → Node → Option Node → Option Node → Option Node
child_step b n d t = elim b [
  | true ↦ some n
  | false ↦ elim d [ some found ↦ some found | none ↦ t ]
]

FindsIn-step :
    (name : String) (n : Node) (ns : Nodes) (o r : Option (List ℕ)) (d t : Option Node)
    → FindsIn name (children_of n) o d
    → FindsIn name ns r t
    → FindsIn name
        (cons n ns)
        (path_step (str_eq (name_of n) name) o r)
        (child_step (str_eq (name_of n) name) n d t)
unfolding nth get_path
FindsIn-step name n ns o r d t f g = elim (Bool-cases (str_eq (name_of n) name)) [
  | inl e ↦ rw (e) (inr (0, [], n, refl, refl, ground (arith, e, eq_iff (name_of n) name), refl))
  | inr e ↦ rw (e) (elim f [
    | inr (i, p, m, eo, ed, em, eg) ↦ rw (eo, ed) (inr (0, i ∷ p, m, refl, refl, em, eg))
    | inl (eo, ed) ↦
        rw (eo, ed)
          (elim g [
            | inl (er, et) ↦ rw (er, et) (inl (refl, refl))
            | inr (i, p, m, er, et, em, eg) ↦ rw (er, et) (inr (suc i, p, m, refl, refl, em, eg))
          ])
  ])
]

mutual
  unfolding deep_find_path deep_find_child

  finds_in :
      (name : String) (ns : Nodes)
      → FindsIn name ns (deep_find_path_in name ns) (deep_find_in name ns)
  finds_in name nil = inl (refl, refl)
  finds_in name (cons n ns) =
      FindsIn-step name n ns (deep_find_path name n) (deep_find_path_in name ns)
        (deep_find_child name n) (deep_find_in name ns) (finds name n) (finds_in name ns)

  finds :
      (name : String) (n : Node)
      → FindsIn name (children_of n) (deep_find_path name n) (deep_find_child name n)
  finds name (node n v ns) = finds_in name ns

-- The path that leads a search finds nothing where DeepFindChild finds nothing, and leads by GetPath to the node
-- that DeepFindChild finds otherwise.
pub get_path-deep_find_path :
    (name : String) (n : Node)
    → ((deep_find_path name n ≡ none) × (deep_find_child name n ≡ none))
      ⊎ ((p : List ℕ) × (m : Node) × (deep_find_path name n ≡ some p)
          × (deep_find_child name n ≡ some m)
          × (name_of m ≡ name)
          × (get_path p n ≡ some m))
unfolding get_path
get_path-deep_find_path name n = elim (finds name n) [
  | inl h ↦ inl h
  | inr (i, p, m, eo, ed, em, eg) ↦ inr (i ∷ p, m, eo, ed, em, eg)
]

-- a path to a node, split at one above it that satisfies a test
abbrev pub Splits : (String → Bool) → List ℕ → Node → Node → List ℕ × List ℕ → Type 0
Splits test p n m (above, below) =
    (task : Node) × (get_path above n ≡ some task)
    × (get_path below task ≡ some m)
    × (test (name_of task) ≡ true)
    × (p ≡ above ++ below)
    × (below ≢ [])

pub some_injective {ℓ} : {A : Type ℓ} {a b : A} → some a ≡ some b → a ≡ b
some_injective {A = A} {a = a} h = ap (λ o. elim o as (λ x. A) [ none ↦ a | some c ↦ c ]) h

pub not_none {ℓ} : {A : Type ℓ} {a : A} → none ≡ some a → ⊥
not_none {A = A} h =
    subst (λ (o : Option A). elim o as (λ x. Type 0) [ none ↦ Unit {0} | some c ↦ ⊥ ]) h tt

pub not_nil : (i : ℕ) (p : List ℕ) → (i ∷ p) ≢ []
not_nil i p h = subst (λ (q : List ℕ). elim q as (λ x. Type 0) [ [] ↦ ⊥ | j ∷ r ↦ Unit {0} ]) h tt

here-Splits :
    (test : String → Bool) (i : ℕ) (p : List ℕ) (n m : Node) (ab : List ℕ × List ℕ)
    → get_path (i ∷ p) n ≡ some m
    → ◌≡◌ {A = Option (List ℕ × List ℕ)}
        (if test (name_of n) then some ([], i ∷ p) else none)
        (some ab)
    → Splits test (i ∷ p) n m ab
unfolding get_path
here-Splits test i p n m ab g h = elim (Bool-cases (test (name_of n))) [
  | inl e ↦
      subst (Splits test (i ∷ p) n m)
        (some_injective (
          subst
            (λ b.
              ◌≡◌ {A = Option (List ℕ × List ℕ)} (if b then some ([], i ∷ p) else none) (some ab))
            e h))
        (n, refl, g, e, refl, not_nil i p)
  | inr e ↦ absurd (
      not_none (
        subst
          (λ b. ◌≡◌ {A = Option (List ℕ × List ℕ)} (if b then some ([], i ∷ p) else none) (some ab))
          e h))
]

pub get_path-below :
    (i : ℕ) (p : List ℕ) (n k : Node)
    → nth i (children_of n) ≡ some k
    → get_path (i ∷ p) n ≡ get_path p k
unfolding get_path
get_path-below i p n k e =
    subst
      (λ o. ◌≡◌ {A = Option Node} (elim o [ none ↦ none | some j ↦ get_path p j ]) (get_path p k))
      (sym e) refl

pub get_path-none :
    (i : ℕ) (p : List ℕ) (n : Node) → nth i (children_of n) ≡ none → get_path (i ∷ p) n ≡ none
unfolding get_path
get_path-none i p n e =
    subst (λ o. ◌≡◌ {A = Option Node} (elim o [ none ↦ none | some j ↦ get_path p j ]) none) (sym e)
      refl

below-Splits :
    (test : String → Bool) (i : ℕ) (p : List ℕ) (n k m : Node) (ab : List ℕ × List ℕ)
    → nth i (children_of n) ≡ some k
    → Splits test p k m ab
    → Splits test (i ∷ p) n m (i ∷ ab.0, ab.1)
below-Splits test i p n k m (above, below) e (task, ga, gb, t, c, d) =
    (task, get_path-below i above n k e ∙ ga, gb, t, ap (λ q. i ∷ q) c, d)

pub find_parent-Splits :
    (test : String → Bool) (p : List ℕ) (n m : Node) (ab : List ℕ × List ℕ)
    → find_parent test p n ≡ some ab
    → get_path p n ≡ some m
    → Splits test p n m ab
unfolding find_parent get_path
find_parent-Splits test [] n m ab h g = absurd (not_none h)
find_parent-Splits test (i ∷ p) n m ab h g =
    let below = λ (k : Node). find_parent-Splits test p k m in
    let here : Option (List ℕ × List ℕ) = if test (name_of n) then some ([], i ∷ p) else none in
    let parent = λ (o : Option (List ℕ × List ℕ)).
      ◌≡◌ {A = Option (List ℕ × List ℕ)}
        (elim o [ some (above, below) ↦ some (i ∷ above, below) | none ↦ here ]) (some ab) in
    elim (Option-cases (nth i (children_of n))) [
      | inl e ↦ absurd (
          not_none (
            subst
              (λ o. ◌≡◌ {A = Option Node} (elim o [ none ↦ none | some k ↦ get_path p k ]) (some m))
              e g))
      | inr (k, e) ↦
          let gk =
            subst
              (λ o. ◌≡◌ {A = Option Node} (elim o [ none ↦ none | some j ↦ get_path p j ]) (some m))
              e g in
          let hk =
            subst
              (λ o.
                ◌≡◌ {A = Option (List ℕ × List ℕ)}
                  (elim o [
                    | none ↦ here
                    | some j ↦ elim (find_parent test p j) [
                      | some (above, below) ↦ some (i ∷ above, below)
                      | none ↦ here
                    ]
                  ])
                  (some ab))
              e h in
          elim (Option-cases (find_parent test p k)) [
            | inl none_there ↦ here-Splits test i p n m ab g (subst parent none_there hk)
            | inr (cd, there) ↦
                subst (Splits test (i ∷ p) n m) (some_injective (subst parent there hk))
                  (below-Splits test i p n k m cd e (below k cd there gk))
          ]
    ]
