-- ===== src/Parser/Tasks/Numbers.antt =====
-- pkg/parser/parser.go: the IDs and indexes that parseTasks gives to tasks.
use cirrus_cli.Prelude.{
  ℕ, suc, ◌+◌, ◌≤◌, String, Bool, true, false, Option, none, some, List, [], ◌∷◌, ◌++◌,
  if◌then◌else◌, ◌≡◌, inl, inr, refl, sym, subst, arith, Bool-cases, Option-cases, length,
  length-append,
}
use cirrus_cli.Parser.Tree.{Node, Nodes, nil, cons, name_of}
use cirrus_cli.Parser.Tasks.Sources.{AreInNodes, parse_tasks-AreInNodes}
use cirrus_cli.Parser.Tasks.{
  Kind, matches, Parsed, Indexed, Parser, warn, filter, indexed, final_name, starts_with, parse_one,
  parse_kinds, parse_tasks, then_parse, append_to,
}

-- the IDs of tasks rise from one that is not below `first`, below `next`, and their indexes count up from `index`
abbrev pub Numbered : ℕ → ℕ → ℕ → List Indexed → Type 0
Numbered first index next [] = first ≤ next
Numbered first index next (t ∷ ts) =
    (first ≤ t.like.id)
    × (t.index_within_build ≡ index)
    × Numbered (suc t.like.id) (suc index) next ts

Numbered-≤ :
    (a b index next : ℕ) (ts : List Indexed)
    → a ≤ b
    → Numbered b index next ts
    → Numbered a index next ts
Numbered-≤ a b index next [] h n = omega (arith, h, n)
Numbered-≤ a b index next (t ∷ ts) h (l, e, n) = (omega (arith, h, l), e, n)

Numbered-append :
    (a index middle next : ℕ) (ts us : List Indexed)
    → Numbered a index middle ts
    → Numbered middle (index + length ts) next us
    → Numbered a index next (ts ++ us)
Numbered-append a index middle next [] us h g =
    Numbered-≤ a middle index next us h (subst (λ i. Numbered middle i next us) (omega arith) g)
Numbered-append a index middle next (t ∷ ts) us (l, e, h) g = (
  l,
  e,
  Numbered-append (suc t.like.id) (suc index) middle next ts us h
      (subst (λ i. Numbered middle i next us) (omega arith) g),
)

-- what a part of parseTasks does to the numbers of the parser p and to those of its tasks
abbrev pub Numbers : Parser → Parser × Option (List Indexed) → Type 0
Numbers p (q, none) = Unit
Numbers p (q, some ts) =
    (q.id_numbering + p.tasks_count_before_filtering
      ≡ p.id_numbering + q.tasks_count_before_filtering)
    × (q.index_numbering ≡ p.index_numbering + length ts)
    × Numbered p.id_numbering p.index_numbering q.id_numbering ts

filter-Numbers :
    (k : Kind) (name : String) (t : Parsed) (p : Parser) (o : Option Bool)
    → Numbers p (filter k name t p o)
unfolding filter indexed
filter-Numbers k name t p none = tt
filter-Numbers k name t p (some true) = (omega arith, omega arith, (omega arith, refl, omega arith))
filter-Numbers k name t p (some false) = (omega arith, omega arith, omega arith)

then_parse-Numbers :
    (p : Parser) (r : Parser × Option (List Indexed)) (f : Parser → Parser × Option (List Indexed))
    → Numbers p r
    → ((q : Parser) → Numbers q (f q))
    → Numbers p (then_parse r f)
then_parse-Numbers p (q, none) f h g = tt
then_parse-Numbers p (q, some ts) f h g = append-Numbers (f q) (g q)
  where
    append-Numbers : (s : Parser × Option (List Indexed)) → Numbers q s → Numbers p (append_to ts s)
    append-Numbers (s, none) n = tt
    append-Numbers (s, some us) (a, b, n) = (
      omega (arith, a, h.0),
      omega (arith, b, h.1, length-append ts us),
      Numbered-append p.id_numbering p.index_numbering q.id_numbering s.id_numbering ts us h.2
          (subst (λ i. Numbered q.id_numbering i s.id_numbering us) h.1 n),
    )

module _ (parse_as : Kind → Node → Option Parsed) where
  parse_one-Numbers : (k : Kind) (n : Node) (p : Parser) → Numbers p (parse_one parse_as k n p)
  unfolding parse_one
  parse_one-Numbers k n p =
      let tried = λ (o : Option Parsed). Numbers p (elim o [
        | none ↦ (p, none)
        | some t ↦ filter k (name_of n) t p (t.enabled (final_name k (name_of n) t))
      ]) in
      elim (Option-cases (parse_as k n)) [
        | inl e ↦ subst tried (sym e) tt
        | inr (t, e) ↦
            subst tried (sym e)
              (filter-Numbers k (name_of n) t p (t.enabled (final_name k (name_of n) t)))
      ]

  parse_kinds-Numbers :
      (ks : List Kind) (n : Node) (p : Parser) → Numbers p (parse_kinds parse_as ks n p)
  unfolding parse_kinds
  parse_kinds-Numbers [] n p = (omega arith, omega arith, omega arith)
  parse_kinds-Numbers (k ∷ ks) n p =
      let chosen = λ (b : Bool). Numbers p (
        if b
        then then_parse (parse_one parse_as k n p) (parse_kinds parse_as ks n)
        else parse_kinds parse_as ks n p) in
      elim (Bool-cases (matches k (name_of n))) [
        | inl e ↦
            subst chosen (sym e)
              (then_parse-Numbers p _ _ (parse_one-Numbers k n p) (parse_kinds-Numbers ks n))
        | inr e ↦ subst chosen (sym e) (parse_kinds-Numbers ks n p)
      ]

  same-Numbers :
      (name : String) (p : Parser) (r : Parser × Option (List Indexed))
      → Numbers (record p { warnings = name ∷ p.warnings }) r
      → Numbers p r
  same-Numbers name p (q, none) h = tt
  same-Numbers name p (q, some ts) h = h

  warn-Numbers :
      (name : String) (p : Parser) (r : Parser × Option (List Indexed))
      → Numbers (warn name p) r
      → Numbers p r
  unfolding warn
  warn-Numbers name p r h =
      let warned =
        λ (b : Bool). Numbers (if b then record p { warnings = name ∷ p.warnings } else p) r in
      elim (Bool-cases (starts_with name "task_")) [
        | inl e ↦ same-Numbers name p r (subst warned e h)
        | inr e ↦ subst warned e h
      ]

  parse_tasks-numbered :
      (order : List Kind) (ns : Nodes) (p : Parser) → Numbers p (parse_tasks parse_as order ns p)
  unfolding parse_tasks
  parse_tasks-numbered order nil p = (omega arith, omega arith, omega arith)
  parse_tasks-numbered order (cons n ns) p =
      then_parse-Numbers p (parse_kinds parse_as order n (warn (name_of n) p))
        (parse_tasks parse_as order ns)
        (warn-Numbers (name_of n) p (parse_kinds parse_as order n (warn (name_of n) p))
          (parse_kinds-Numbers order n (warn (name_of n) p)))
        (parse_tasks-numbered order ns)

  -- When parseTasks of any parser p returns tasks, it has taken as many task IDs as it has counted
  -- tasks before filtering and as many indexes as it returns tasks; the IDs of these rise from the
  -- numbering of p up to the one after, and their indexes are consecutive. The tasks stand in the
  -- order of the nodes that they come from: each has the name, alias and dependencies that a parser
  -- matching its node's name gave it, and is enabled.
  pub parse_tasks-Numbers :
      (order : List Kind) (ns : Nodes) (p : Parser)
      → Numbers p (parse_tasks parse_as order ns p)
        × AreInNodes parse_as ns (parse_tasks parse_as order ns p)
  parse_tasks-Numbers order ns p =
      (parse_tasks-numbered order ns p, parse_tasks-AreInNodes parse_as order ns p)
