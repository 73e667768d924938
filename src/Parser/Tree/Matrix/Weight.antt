-- ===== src/Parser/Tree/Matrix/Weight.antt =====
-- A weight of trees, which is greater for a task than for all its copies together.
use cirrus_cli.Prelude.{
  ℕ, zero, suc, ◌+◌, leb, ◌<◌, ◌≤◌, String, Bool, some, List, [], ◌∷◌, if◌then◌else◌, arith, ◌≡◌,
  ◌≢◌, refl, sym, ap, subst, ◌∙◌, inl, inr, Option-cases, Bool-cases,
}
use cirrus_cli.Parser.Tree.{Node, node, Nodes, nil, cons, name_of, children_of}
use cirrus_cli.Parser.Tree.Matrix.Path.{some_injective, not_none, get_path-below, get_path-none}
use cirrus_cli.Parser.Tree.Matrix.Fewer.{name_of-replace_with}
use cirrus_cli.Parser.Tree.Matrix.{
  nth, get_path, append_nodes, replace_child, replace_with, replace_below,
}

unfoldable pub times : ℕ → ℕ → ℕ
times zero x = 0
times (suc k) x = x + times k x

-- more than n + 1 times its last value
unfoldable pub growth : ℕ → ℕ
growth zero = 1
growth (suc n) = suc (times (suc n) (growth n))

pub times-monotone : (k l x : ℕ) → k ≤ l → times k x ≤ times l x
unfolding times
times-monotone zero l x h = ground arith
times-monotone (suc k) zero x h = ground (arith, h)
times-monotone (suc k) (suc l) x h =
    let rest = times-monotone k l x (ground (arith, h)) in ground (arith, rest)

growth_positive : (n : ℕ) → 1 ≤ growth n
unfolding growth
growth_positive zero = ground arith
growth_positive (suc n) = ground arith

le-times : (k x : ℕ) → 1 ≤ x → k ≤ times k x
unfolding times
le-times zero x h = ground arith
le-times (suc k) x h = let rest = le-times k x h in ground (arith, rest, h)

lt-growth : (n : ℕ) → n < growth n
unfolding growth
lt-growth zero = ground arith
lt-growth (suc n) =
    let rest = le-times (suc n) (growth n) (growth_positive n) in ground (arith, rest)

growth_step : (n : ℕ) → growth n < growth (suc n)
unfolding growth times
growth_step n = ground arith

pub growth_monotone : (a b : ℕ) → a ≤ b → growth a ≤ growth b
growth_monotone a zero h = let same : a ≡ 0 = omega (arith, h) in rw (same) (ground arith)
growth_monotone a (suc b) h =
    let rest = growth_monotone a b in
    let step = growth_step b in
    elim (Bool-cases (leb a b)) [
      | inl e ↦ let below = rest (ground (arith, e)) in ground (arith, below, step)
      | inr e ↦ let same : a ≡ suc b = ground (arith, e, h) in rw (same) (ground arith)
    ]

growth_strict : (a b : ℕ) → a < b → growth a < growth b
growth_strict a b h =
    let up = growth_monotone (suc a) b h in let step = growth_step a in ground (arith, up, step)

module _ (is_task : String → Bool) where
  abbrev pub weigh : String → ℕ → ℕ
  weigh name n = if is_task name then growth n else suc n

  unfoldable mutual
    pub weight : Node → ℕ
    weight (node n v ns) = weigh n (weights ns)

    pub weights : Nodes → ℕ
    weights nil = 0
    weights (cons n ns) = weight n + weights ns

  weigh_monotone : (name : String) (a b : ℕ) → a < b → weigh name a < weigh name b
  weigh_monotone name a b h = elim (Bool-cases (is_task name)) [
    | inl e ↦ rw (e) (growth_strict a b h)
    | inr e ↦ rw (e) (ground (arith, h))
  ]

  pub lt-weigh : (name : String) (n : ℕ) → n < weigh name n
  lt-weigh name n = elim (Bool-cases (is_task name)) [
    | inl e ↦ rw (e) (lt-growth n)
    | inr e ↦ rw (e) (ground arith)
  ]

  pub weight_lem : (n : Node) → weight n ≡ weigh (name_of n) (weights (children_of n))
  unfolding weight
  weight_lem (node n v ns) = refl

  -- a node whose children weigh less
  weight_monotone :
      (n m : Node)
      → name_of m ≡ name_of n
      → weights (children_of m) < weights (children_of n)
      → weight m < weight n
  weight_monotone n m e h = rw (weight_lem n, weight_lem m, e) (weigh_monotone (name_of n) _ _ h)

  weights-append : (ns ms : Nodes) → weights (append_nodes ns ms) ≡ weights ns + weights ms
  unfolding append_nodes weight
  weights-append nil ms = omega arith
  weights-append (cons n ns) ms = let rest = weights-append ns ms in ground (arith, rest)

  weights-replace_child :
      (i : ℕ) (rs ns : Nodes) (m : Node)
      → nth i ns ≡ some m
      → weights (replace_child i rs ns) + weight m ≡ weights ns + weights rs
  unfolding replace_child weight nth
  weights-replace_child i rs nil m e = absurd (not_none e)
  weights-replace_child zero rs (cons n ns) m e =
      let same = ap weight (some_injective e) in
      let sum = weights-append rs ns in ground (arith, same, sum)
  weights-replace_child (suc i) rs (cons n ns) m e =
      let rest = weights-replace_child i rs ns m e in ground (arith, rest)

  weights-replace_below :
      (i : ℕ) (p : List ℕ) (rs ns : Nodes) (k : Node)
      → nth i ns ≡ some k
      → weight (replace_with p rs k) < weight k
      → weights (replace_below i p rs ns) < weights ns
  unfolding replace_with weight nth
  weights-replace_below i p rs nil k e f = absurd (not_none e)
  weights-replace_below zero p rs (cons n ns) k e f =
      let here = subst (λ x. weight (replace_with p rs x) < weight x) (sym (some_injective e)) f in
      ground (arith, here)
  weights-replace_below (suc i) p rs (cons n ns) k e f =
      let rest = weights-replace_below i p rs ns k e f in ground (arith, rest)

  -- the children of a node weigh less with a node below it replaced by lighter ones
  pub weights-replace_with :
      (i : ℕ) (p : List ℕ) (rs : Nodes) (n m : Node)
      → get_path (i ∷ p) n ≡ some m
      → weights rs < weight m
      → weights (children_of (replace_with (i ∷ p) rs n)) < weights (children_of n)
  unfolding replace_with get_path nth
  weights-replace_with i [] rs (node n v ns) m e h = elim (Option-cases (nth i ns)) [
    | inl d ↦ absurd (not_none (sym (get_path-none i [] (node n v ns) d) ∙ e))
    | inr (k, d) ↦
        let sum =
          weights-replace_child i rs ns m (d ∙ sym (get_path-below i [] (node n v ns) k d) ∙ e) in
        ground (arith, sum, h)
  ]
  weights-replace_with i (j ∷ p) rs (node n v ns) m e h =
      let rest = λ (k : Node). weights-replace_with j p rs k m in
      elim (Option-cases (nth i ns)) [
        | inl d ↦ absurd (not_none (sym (get_path-none i (j ∷ p) (node n v ns) d) ∙ e))
        | inr (k, d) ↦ weights-replace_below i (j ∷ p) rs ns k d (
            weight_monotone k (replace_with (j ∷ p) rs k) (name_of-replace_with (j ∷ p) rs k)
              (rest k (sym (get_path-below i (j ∷ p) (node n v ns) k d) ∙ e) h))
      ]

  pub weight-replace_with :
      (p : List ℕ) (rs : Nodes) (n m : Node)
      → p ≢ []
      → get_path p n ≡ some m
      → weights rs < weight m
      → weight (replace_with p rs n) < weight n
  weight-replace_with [] rs n m z e h = absurd (z refl)
  weight-replace_with (i ∷ p) rs n m z e h =
      weight_monotone n (replace_with (i ∷ p) rs n) (name_of-replace_with (i ∷ p) rs n)
        (weights-replace_with i p rs n m e h)
