-- ===== src/Parser/Tasks/Order.antt =====
-- pkg/parser/parser.go: parseTasks does not depend on the order in which the map of the parsers is
-- iterated, since a name matches one of them at most.
use Prim.Native.String.{[] as end_of_text, ◌∷◌ as character}
use cirrus_cli.Prelude.{
  ℕ, ◌+◌, String, Bool, true, false, Option, none, some, List, [], ◌∷◌, if◌then◌else◌, str_eq, ◌≡◌,
  ◌≢◌, ◌⊎◌, inl, inr, refl, sym, ap, ◌∙◌, subst, arith, Bool-cases, eq_iff, append-nil,
}
use cirrus_cli.Parser.Suffix.{ends_with}
use cirrus_cli.Parser.Tree.{Node, Nodes, nil, cons, name_of}
use cirrus_cli.Parser.Tasks.{
  Kind, task, docker_pipe, docker_builder, suffix_of, matches, Parsed, Indexed, Parser, warn,
  parse_one, parse_kinds, parse_tasks, then_parse, append_to,
}

-- the last character of a text
last_of : String → String
last_of end_of_text = ""
last_of (character c s) = let rest = last_of s in if str_eq s "" then character c "" else rest

ends_with-last_of :
    (s suffix : String)
    → str_eq "" suffix ≡ false
    → ends_with s suffix ≡ true
    → last_of s ≡ last_of suffix
unfolding ends_with last_of
ends_with-last_of end_of_text suffix h e = ground (arith, h, e)
ends_with-last_of (character c s) suffix h e = elim (Bool-cases (str_eq (character c s) suffix)) [
  | inl d ↦ ap last_of ((eq_iff (character c s) suffix).0 d)
  | inr d ↦
      let rest : ends_with s suffix ≡ true = ground (arith, e, d) in
      elim (Bool-cases (str_eq s "")) [
        | inl q ↦ ground (arith, h, subst (λ t. ends_with t suffix ≡ true) ((eq_iff s "").0 q) rest)
        | inr q ↦
            ap (λ (b : Bool). if b then character c "" else last_of s) q
            ∙ ends_with-last_of s suffix h rest
      ]
]

differ : (s t : String) → str_eq s t ≡ false → s ≢ t
differ s t e h = ground (arith, e, h, eq_iff s t)

suffix_of-last_of : (k j : Kind) → last_of (suffix_of k) ≡ last_of (suffix_of j) → k ≡ j
unfolding last_of
suffix_of-last_of task task h = refl
suffix_of-last_of task docker_pipe h = absurd (differ _ _ refl h)
suffix_of-last_of task docker_builder h = absurd (differ _ _ refl h)
suffix_of-last_of docker_pipe task h = absurd (differ _ _ refl h)
suffix_of-last_of docker_pipe docker_pipe h = refl
suffix_of-last_of docker_pipe docker_builder h = absurd (differ _ _ refl h)
suffix_of-last_of docker_builder task h = absurd (differ _ _ refl h)
suffix_of-last_of docker_builder docker_pipe h = absurd (differ _ _ refl h)
suffix_of-last_of docker_builder docker_builder h = refl

suffix_of-nonempty : (k : Kind) → str_eq "" (suffix_of k) ≡ false
suffix_of-nonempty task = refl
suffix_of-nonempty docker_pipe = refl
suffix_of-nonempty docker_builder = refl

matches_unique :
    (k j : Kind) (name : String) → matches k name ≡ true → matches j name ≡ true → k ≡ j
unfolding matches
matches_unique k j name h g = suffix_of-last_of k j (
    sym (ends_with-last_of name (suffix_of k) (suffix_of-nonempty k) h)
    ∙ ends_with-last_of name (suffix_of j) (suffix_of-nonempty j) g)

-- how often a kind is in an order
unfoldable pub is_kind : Kind → Kind → Bool
is_kind task task = true
is_kind docker_pipe docker_pipe = true
is_kind docker_builder docker_builder = true
is_kind _ _ = false

unfoldable pub kinds_of : Kind → List Kind → ℕ
unfolding is_kind
kinds_of k [] = 0
kinds_of k (j ∷ js) = (if is_kind j k then 1 else 0) + kinds_of k js

is_kind_refl : (k : Kind) → is_kind k k ≡ true
unfolding is_kind
is_kind_refl task = refl
is_kind_refl docker_pipe = refl
is_kind_refl docker_builder = refl

is_kind-true : (k j : Kind) → is_kind k j ≡ true → k ≡ j
unfolding is_kind
is_kind-true k j h = ground (arith, h)

module _ (parse_as : Kind → Node → Option Parsed) (n : Node) where
  -- without a kind that the name matches, nothing is parsed
  parse_kinds-none :
      (ks : List Kind) (p : Parser)
      → ((k : Kind) → matches k (name_of n) ≡ true → kinds_of k ks ≡ 0)
      → parse_kinds parse_as ks n p ≡ (p, some [])
  unfolding parse_kinds kinds_of
  parse_kinds-none [] p h = refl
  parse_kinds-none (k ∷ ks) p h = elim (Bool-cases (matches k (name_of n))) [
    | inl e ↦ ground (arith, h k e, is_kind_refl k)
    | inr e ↦
        ap
          (λ (b : Bool).
            if b
            then then_parse (parse_one parse_as k n p) (parse_kinds parse_as ks n)
            else parse_kinds parse_as ks n p)
          e
        ∙ parse_kinds-none ks p (λ j d. ground (arith, h j d))
  ]

  then_nothing :
      (r : Parser × Option (List Indexed)) (f : Parser → Parser × Option (List Indexed))
      → ((q : Parser) → f q ≡ (q, some []))
      → then_parse r f ≡ r
  then_nothing (q, none) f h = refl
  then_nothing (q, some ts) f h = ap (append_to ts) (h q) ∙ ap (λ us. (q, some us)) (append-nil ts)

  parse_kinds-once :
      (k : Kind) (ks : List Kind) (p : Parser)
      → matches k (name_of n) ≡ true
      → kinds_of k ks ≡ 1
      → parse_kinds parse_as ks n p ≡ parse_one parse_as k n p
  unfolding parse_kinds kinds_of
  parse_kinds-once k [] p e h = ground (arith, h)
  parse_kinds-once k (j ∷ js) p e h =
      let chosen = λ (b : Bool).
        if b
        then then_parse (parse_one parse_as j n p) (parse_kinds parse_as js n)
        else parse_kinds parse_as js n p in
      elim (Bool-cases (matches j (name_of n))) [
        | inl d ↦
            let same = matches_unique j k (name_of n) d e in
            let left : kinds_of k js ≡ 0 =
              ground (arith, h, subst (λ i. is_kind i k ≡ true) (sym same) (is_kind_refl k)) in
            ap chosen d
            ∙ then_nothing (parse_one parse_as j n p) (parse_kinds parse_as js n) (λ q.
              parse_kinds-none js q
                (λ i c. subst (λ l. kinds_of l js ≡ 0) (matches_unique k i (name_of n) e c) left))
            ∙ ap (λ i. parse_one parse_as i n p) same
        | inr d ↦
            ap chosen d
            ∙ parse_kinds-once k js p e (elim (Bool-cases (is_kind j k)) [
              | inl q ↦ ground (arith, d, e, is_kind-true j k q)
              | inr q ↦ ground (arith, h, q)
            ])
      ]

-- an order of iteration has every kind once
abbrev pub IsOrder : List Kind → Type 0
IsOrder ks = (k : Kind) → kinds_of k ks ≡ 1

matching :
    (name : String) → ((k : Kind) × (matches k name ≡ true)) ⊎ ((k : Kind) → matches k name ≡ false)
matching name = elim (Bool-cases (matches task name)) [
  | inl e ↦ inl (task, e)
  | inr e ↦ elim (Bool-cases (matches docker_pipe name)) [
    | inl d ↦ inl (docker_pipe, d)
    | inr d ↦ elim (Bool-cases (matches docker_builder name)) [
      | inl c ↦ inl (docker_builder, c)
      | inr c ↦ inr (λ k. elim k as (λ j. matches j name ≡ false) [
        | task ↦ e
        | docker_pipe ↦ d
        | docker_builder ↦ c
      ])
    ]
  ]
]

module _ (parse_as : Kind → Node → Option Parsed) where
  parse_kinds-order :
      (order other : List Kind) (n : Node) (p : Parser)
      → IsOrder order
      → IsOrder other
      → parse_kinds parse_as order n p ≡ parse_kinds parse_as other n p
  parse_kinds-order order other n p g h = elim (matching (name_of n)) [
    | inl (k, e) ↦
        parse_kinds-once parse_as n k order p e (g k)
        ∙ sym (parse_kinds-once parse_as n k other p e (h k))
    | inr none_matches ↦
        parse_kinds-none parse_as n order p (λ k e. ground (arith, e, none_matches k))
        ∙ sym (parse_kinds-none parse_as n other p (λ k e. ground (arith, e, none_matches k)))
  ]

  then_parse-ext :
      (r : Parser × Option (List Indexed)) (f g : Parser → Parser × Option (List Indexed))
      → ((q : Parser) → f q ≡ g q)
      → then_parse r f ≡ then_parse r g
  then_parse-ext (q, none) f g h = refl
  then_parse-ext (q, some ts) f g h = ap (append_to ts) (h q)

  -- In whatever order the map of the parsers is iterated, with every parser once, parseTasks leaves
  -- the same parser and returns the same tasks or error.
  pub parse_tasks-IsOrder :
      (order other : List Kind) (ns : Nodes) (p : Parser)
      → IsOrder order
      → IsOrder other
      → parse_tasks parse_as order ns p ≡ parse_tasks parse_as other ns p
  unfolding parse_tasks
  parse_tasks-IsOrder order other nil p g h = refl
  parse_tasks-IsOrder order other (cons n ns) p g h =
      ap (λ r. then_parse r (parse_tasks parse_as order ns))
        (parse_kinds-order order other n (warn (name_of n) p) g h)
      ∙ then_parse-ext (parse_kinds parse_as other n (warn (name_of n) p))
          (parse_tasks parse_as order ns) (parse_tasks parse_as other ns)
          (λ q. parse_tasks-IsOrder order other ns q g h)
