-- ===== src/Parser/Tasks/Sources.antt =====
-- pkg/parser/parser.go: the nodes that the tasks of parseTasks come from.
use cirrus_cli.Prelude.{
  Bool, true, false, Option, none, some, List, [], ◌∷◌, ◌++◌, if◌then◌else◌, ◌≡◌, inl, inr, refl,
  sym, subst, Bool-cases, Option-cases, All,
}
use cirrus_cli.Parser.Tree.{Node, Nodes, nil, cons, name_of}
use cirrus_cli.Parser.Tasks.{
  Kind, matches, Parsed, Indexed, Parser, warn, filter, indexed, final_name, parse_one, parse_kinds,
  parse_tasks, then_parse, append_to,
}

module _ (parse_as : Kind → Node → Option Parsed) where
  -- a task of this node: a parser that matches its name parsed it, and it is enabled
  abbrev pub IsOf : Node → Indexed → Type 0
  IsOf n t =
      (k : Kind) × (parsed : Parsed) × (matches k (name_of n) ≡ true)
      × (parse_as k n ≡ some parsed)
      × (parsed.enabled (final_name k (name_of n) parsed) ≡ some true)
      × (t.like.name ≡ final_name k (name_of n) parsed)
      × (t.like.alias ≡ parsed.alias)
      × (t.like.depends_on_names ≡ parsed.depends_on_names)

  -- the tasks of the first node, then those of the second one, and so on
  abbrev pub InNodes : Nodes → List Indexed → Type 0
  InNodes nil ts = ts ≡ []
  InNodes (cons n ns) ts =
      (mine : List Indexed) × (rest : List Indexed) × (ts ≡ mine ++ rest)
      × All (IsOf n) mine
      × InNodes ns rest

  abbrev AreOf : Node → Parser × Option (List Indexed) → Type 0
  AreOf n (q, none) = Unit
  AreOf n (q, some ts) = All (IsOf n) ts

  abbrev pub AreInNodes : Nodes → Parser × Option (List Indexed) → Type 0
  AreInNodes ns (q, none) = Unit
  AreInNodes ns (q, some ts) = InNodes ns ts

  filter-AreOf :
      (k : Kind) (n : Node) (t : Parsed) (p : Parser) (o : Option Bool)
      → matches k (name_of n) ≡ true
      → parse_as k n ≡ some t
      → t.enabled (final_name k (name_of n) t) ≡ o
      → AreOf n (filter k (name_of n) t p o)
  unfolding filter indexed
  filter-AreOf k n t p none m e d = tt
  filter-AreOf k n t p (some true) m e d = ((k, t, m, e, d, refl, refl, refl), tt)
  filter-AreOf k n t p (some false) m e d = tt

  parse_one-AreOf :
      (k : Kind) (n : Node) (p : Parser)
      → matches k (name_of n) ≡ true
      → AreOf n (parse_one parse_as k n p)
  unfolding parse_one
  parse_one-AreOf k n p m =
      let tried = λ (o : Option Parsed). AreOf n (elim o [
        | none ↦ (p, none)
        | some t ↦ filter k (name_of n) t p (t.enabled (final_name k (name_of n) t))
      ]) in
      elim (Option-cases (parse_as k n)) [
        | inl e ↦ subst tried (sym e) tt
        | inr (t, e) ↦
            subst tried (sym e)
              (filter-AreOf k n t p (t.enabled (final_name k (name_of n) t)) m e refl)
      ]

  append_to-AreOf :
      (n : Node) (ts : List Indexed) (r : Parser × Option (List Indexed))
      → All (IsOf n) ts
      → AreOf n r
      → AreOf n (append_to ts r)
  append_to-AreOf n ts (q, none) h g = tt
  append_to-AreOf n ts (q, some us) h g = All-append ts us h g
    where
      All-append :
          (ts us : List Indexed) → All (IsOf n) ts → All (IsOf n) us → All (IsOf n) (ts ++ us)
      All-append [] us h g = g
      All-append (t ∷ ts) us (e, h) g = (e, All-append ts us h g)

  then_parse-AreOf :
      (n : Node) (r : Parser × Option (List Indexed)) (f : Parser → Parser × Option (List Indexed))
      → AreOf n r
      → ((q : Parser) → AreOf n (f q))
      → AreOf n (then_parse r f)
  then_parse-AreOf n (q, none) f h g = tt
  then_parse-AreOf n (q, some ts) f h g = append_to-AreOf n ts (f q) h (g q)

  parse_kinds-AreOf :
      (ks : List Kind) (n : Node) (p : Parser) → AreOf n (parse_kinds parse_as ks n p)
  unfolding parse_kinds
  parse_kinds-AreOf [] n p = tt
  parse_kinds-AreOf (k ∷ ks) n p =
      let chosen = λ (b : Bool). AreOf n (
        if b
        then then_parse (parse_one parse_as k n p) (parse_kinds parse_as ks n)
        else parse_kinds parse_as ks n p) in
      elim (Bool-cases (matches k (name_of n))) [
        | inl e ↦ subst chosen (sym e) (
            then_parse-AreOf n (parse_one parse_as k n p) (parse_kinds parse_as ks n)
              (parse_one-AreOf k n p e) (parse_kinds-AreOf ks n))
        | inr e ↦ subst chosen (sym e) (parse_kinds-AreOf ks n p)
      ]

  append_to-AreInNodes :
      (n : Node) (ns : Nodes) (ts : List Indexed) (r : Parser × Option (List Indexed))
      → All (IsOf n) ts
      → AreInNodes ns r
      → AreInNodes (cons n ns) (append_to ts r)
  append_to-AreInNodes n ns ts (q, none) h g = tt
  append_to-AreInNodes n ns ts (q, some us) h g = (ts, us, refl, h, g)

  then_parse-AreInNodes :
      (n : Node) (ns : Nodes) (r : Parser × Option (List Indexed))
      → (f : Parser → Parser × Option (List Indexed)) → AreOf n r
      → ((q : Parser) → AreInNodes ns (f q))
      → AreInNodes (cons n ns) (then_parse r f)
  then_parse-AreInNodes n ns (q, none) f h g = tt
  then_parse-AreInNodes n ns (q, some ts) f h g = append_to-AreInNodes n ns ts (f q) h (g q)

  pub parse_tasks-AreInNodes :
      (order : List Kind) (ns : Nodes) (p : Parser)
      → AreInNodes ns (parse_tasks parse_as order ns p)
  unfolding parse_tasks
  parse_tasks-AreInNodes order nil p = refl
  parse_tasks-AreInNodes order (cons n ns) p =
      then_parse-AreInNodes n ns (parse_kinds parse_as order n (warn (name_of n) p))
        (parse_tasks parse_as order ns) (parse_kinds-AreOf order n (warn (name_of n) p))
        (parse_tasks-AreInNodes order ns)
