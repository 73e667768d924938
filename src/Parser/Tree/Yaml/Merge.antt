-- ===== src/Parser/Tree/Yaml/Merge.antt =====
-- What a merge of two maps holds under each name.
use cirrus_cli.Prelude.{
  String, Bool, true, false, ◌≡◌, refl, Option, none, some, if◌then◌else◌, str_eq, eq_iff, arith,
  sym, ap, ◌∙◌, subst, Bool-cases, Option-cases, inl, inr,
}
use cirrus_cli.Parser.Tree.{Node, Nodes, nil, cons, name_of, snoc, find_in, merge_from_map}

-- the first of two children that may be there
abbrev pub or_else : Option Node → Option Node → Option Node
or_else none n = n
or_else (some m) n = some m

find_in-snoc :
    (k : String) (ns : Nodes) (m : Node)
    → find_in k (snoc ns m) ≡ or_else (find_in k ns) (find_in k (cons m nil))
unfolding find_in snoc
find_in-snoc k nil m = refl
find_in-snoc k (cons n ns) m = elim (Bool-cases (str_eq (name_of n) k)) [
  | inl e ↦ rw (e) refl
  | inr e ↦ rw (e) (find_in-snoc k ns m)
]

or_else_assoc : (a b c : Option Node) → or_else (or_else a b) c ≡ or_else a (or_else b c)
or_else_assoc none b c = refl
or_else_assoc (some n) b c = refl

same_name :
    (k : String) (ns : Nodes) (m n : Node)
    → str_eq (name_of m) k ≡ true
    → find_in (name_of m) ns ≡ some n
    → find_in k ns ≡ some n
same_name k ns m n h d =
    subst (λ x. find_in x ns ≡ some n) (ground (arith, h, eq_iff (name_of m) k)) d

other_name : (k : String) (m : Node) → str_eq (name_of m) k ≡ false → find_in k (cons m nil) ≡ none
unfolding find_in
other_name k m h = rw (h) refl

-- a child after one of its name is not found
or_else_shadowed :
    (k : String) (ns : Nodes) (m n : Node) (c : Option Node)
    → find_in (name_of m) ns ≡ some n
    → or_else (find_in k ns) (or_else (find_in k (cons m nil)) c) ≡ or_else (find_in k ns) c
or_else_shadowed k ns m n c e = elim (Bool-cases (str_eq (name_of m) k)) [
  | inl h ↦ rw (same_name k ns m n h e) refl
  | inr h ↦ rw (other_name k m h) refl
]

find_in-cons :
    (k : String) (m : Node) (ms : Nodes)
    → find_in k (cons m ms) ≡ or_else (find_in k (cons m nil)) (find_in k ms)
unfolding find_in
find_in-cons k m ms = elim (Bool-cases (str_eq (name_of m) k)) [
  | inl h ↦ rw (h) refl
  | inr h ↦ rw (h) refl
]

or_else-none : (n : Option Node) → n ≡ or_else n none
or_else-none none = refl
or_else-none (some n) = refl

module _ (is_exempt : String → Bool) where
  -- the nodes merged, by the child of the name that is there already
  abbrev choose : Nodes → Node → Nodes → Option Node → Nodes
  choose ns m ms found = elim found [
    | none ↦ merge_from_map is_exempt (snoc ns m) ms
    | some _ ↦
        if is_exempt (name_of m)
        then merge_from_map is_exempt (snoc ns m) ms
        else merge_from_map is_exempt ns ms
  ]

  if_added :
      (k : String) (ns : Nodes) (m : Node) (ms : Nodes)
      → find_in k (merge_from_map is_exempt (snoc ns m) ms)
        ≡ or_else (find_in k (snoc ns m)) (find_in k ms)
      → find_in k (merge_from_map is_exempt (snoc ns m) ms)
        ≡ or_else (find_in k ns) (find_in k (cons m ms))
  if_added k ns m ms hyp =
      hyp
      ∙ ap (λ x. or_else x (find_in k ms)) (find_in-snoc k ns m)
      ∙ or_else_assoc (find_in k ns) (find_in k (cons m nil)) (find_in k ms)
      ∙ sym (ap (or_else (find_in k ns)) (find_in-cons k m ms))

  if_kept :
      (k : String) (ns : Nodes) (m : Node) (ms : Nodes)
      → find_in k (merge_from_map is_exempt ns ms) ≡ or_else (find_in k ns) (find_in k ms)
      → (n : Node) → find_in (name_of m) ns ≡ some n
      → find_in k (merge_from_map is_exempt ns ms) ≡ or_else (find_in k ns) (find_in k (cons m ms))
  if_kept k ns m ms hyp n e =
      hyp
      ∙ sym (or_else_shadowed k ns m n (find_in k ms) e)
      ∙ sym (ap (or_else (find_in k ns)) (find_in-cons k m ms))

  -- A merge finds the same child as before it under each name that has one, and the other map's first child of
  -- that name under each name that has none.
  pub find_in-merge_from_map :
      (k : String) (ns ms : Nodes)
      → find_in k (merge_from_map is_exempt ns ms) ≡ or_else (find_in k ns) (find_in k ms)
  unfolding merge_from_map
  find_in-merge_from_map k ns nil = or_else-none (find_in k ns)
  find_in-merge_from_map k ns (cons m ms) =
      let added = if_added k ns m ms (find_in-merge_from_map k (snoc ns m) ms) in
      let kept = if_kept k ns m ms (find_in-merge_from_map k ns ms) in
      let holds = λ (c : Option Node).
        find_in k (choose ns m ms c) ≡ or_else (find_in k ns) (find_in k (cons m ms)) in
      elim (Option-cases (find_in (name_of m) ns)) [
        | inl e ↦ subst holds (sym e) added
        | inr (n, e) ↦ subst holds (sym e) (elim (Bool-cases (is_exempt (name_of m))) [
          | inl h ↦ rw (h) added
          | inr h ↦ rw (h) (kept n e)
        ])
      ]
