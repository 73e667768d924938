-- ===== src/Parser/Tree/Matrix/Copies.antt =====
-- The copies of a task weigh less than the task.
use cirrus_cli.Prelude.{
  ℕ, zero, suc, ◌+◌, ◌-◌, ◌<◌, ◌≤◌, String, Bool, true, false, some, List, [], ◌∷◌, arith, ◌≡◌, ◌≢◌,
  refl, sym, ap, subst, ◌∙◌, inl, inr, Option-cases,
}
use cirrus_cli.Parser.Tree.{
  Node, node, Nodes, nil, cons, name_of, children_of, is_map, map_value, list_value, scalar_value,
  no_value,
}
use cirrus_cli.Parser.Tree.Matrix.Path.{some_injective, not_none, get_path-below, get_path-none}
use cirrus_cli.Parser.Tree.Matrix.Fewer.{name_of-replace_with, item_step}
use cirrus_cli.Parser.Tree.Matrix.Weight.{
  times, growth, weight, weights, weight_lem, weights-replace_with, times-monotone, growth_monotone,
  lt-weigh,
}
use cirrus_cli.Parser.Tree.Matrix.{
  nth, MatrixError, get_path, replace_with, copies_by_child, copies_by_item, new_tasks, Pass,
  expanded, no_expansion_done, panics, fails,
}

not_expanded : {e : MatrixError} {ts : Nodes} → ◌≡◌ {A = Pass Nodes} (fails e) (expanded ts) → ⊥
not_expanded h =
    subst
      (λ (q : Pass Nodes). elim q as (λ x. Type 0) [
        | expanded ts ↦ ⊥
        | no_expansion_done ↦ ⊥
        | panics ↦ ⊥
        | fails e ↦ Unit {0}
      ])
      h tt

module _ (is_task : String → Bool) where
  -- the number of nodes of a list
  abbrev count_of : Nodes → ℕ
  count_of nil = 0
  count_of (cons n ns) = suc (count_of ns)

  count_of-weights : (ns : Nodes) → count_of ns ≤ weights is_task ns
  unfolding weight
  count_of-weights nil = ground arith
  count_of-weights (cons n ns) =
      let rest = count_of-weights ns in
      let one = lt-weigh is_task (name_of n) (weights is_task (children_of n)) in
      let same = weight_lem is_task n in ground (arith, rest, one, same)

  -- what each copy may weigh
  abbrev limit : Node → ℕ
  limit task = growth (weights is_task (children_of task) - 1)

  copy_limited :
      (below : List ℕ) (rs : Nodes) (task m : Node)
      → below ≢ []
      → get_path below task ≡ some m
      → is_task (name_of task) ≡ true
      → weights is_task rs < weight is_task m
      → weight is_task (replace_with below rs task) ≤ limit task
  copy_limited [] rs task m z e t h = absurd (z refl)
  copy_limited (i ∷ p) rs task m z e t h =
      let less = weights-replace_with is_task i p rs task m e h in
      let up =
        growth_monotone (weights is_task (children_of (replace_with (i ∷ p) rs task)))
          (weights is_task (children_of task) - 1) (ground (arith, less)) in
      rw
        (weight_lem is_task (replace_with (i ∷ p) rs task), name_of-replace_with (i ∷ p) rs task, t)
        up

  copies_by_child_limited :
      (below : List ℕ) (task m : Node) (ms : Nodes)
      → below ≢ []
      → get_path below task ≡ some m
      → is_task (name_of task) ≡ true
      → weights is_task ms < weight is_task m
      → weights is_task (copies_by_child below task ms) ≤ times (count_of ms) (limit task)
  unfolding copies_by_child weight times
  copies_by_child_limited below task m nil z e t h = ground arith
  copies_by_child_limited below task m (cons k ms) z e t h =
      let rest = copies_by_child_limited below task m ms z e t (ground (arith, h)) in
      let here = copy_limited below (cons k nil) task m z e t (ground (arith, h)) in
      ground (arith, rest, here)

  -- the copies that are made, unless a pass fails, are limited
  abbrev IsLimited : ℕ → Pass Nodes → Type 0
  IsLimited bound (expanded ts) = weights is_task ts ≤ bound
  IsLimited bound _ = Unit

  IsLimited-step :
      (t : Node) (b : Bool) (rest : Pass Nodes) (x y : ℕ)
      → weight is_task t ≤ x
      → IsLimited y rest
      → IsLimited (x + y) (item_step b t rest)
  unfolding weight
  IsLimited-step t true (expanded ts) x y h f = ground (arith, h, f)
  IsLimited-step t true no_expansion_done x y h f = tt
  IsLimited-step t true panics x y h f = tt
  IsLimited-step t true (fails e) x y h f = tt
  IsLimited-step t false rest x y h f = tt

  children_lighter : (n : Node) → weights is_task (children_of n) < weight is_task n
  children_lighter n =
      rw (weight_lem is_task n) (lt-weigh is_task (name_of n) (weights is_task (children_of n)))

  copies_by_item-IsLimited :
      (below : List ℕ) (task m : Node) (ms : Nodes)
      → below ≢ []
      → get_path below task ≡ some m
      → is_task (name_of task) ≡ true
      → weights is_task ms < weight is_task m
      → IsLimited (times (count_of ms) (limit task)) (copies_by_item below task ms)
  unfolding copies_by_item weight times
  copies_by_item-IsLimited below task m nil z e t h = ground arith
  copies_by_item-IsLimited below task m (cons k ms) z e t h =
      let lighter = children_lighter k in
      IsLimited-step (replace_with below (children_of k) task) (is_map k)
        (copies_by_item below task ms) (limit task) (times (count_of ms) (limit task))
        (copy_limited below (children_of k) task m z e t (ground (arith, h, lighter)))
        (copies_by_item-IsLimited below task m ms z e t (ground (arith, h)))

  nth_lighter :
      (i : ℕ) (ns : Nodes) (k : Node) → nth i ns ≡ some k → weight is_task k ≤ weights is_task ns
  unfolding nth weight
  nth_lighter i nil k e = absurd (not_none e)
  nth_lighter zero (cons n ns) k e =
      let same = ap (weight is_task) (some_injective e) in ground (arith, same)
  nth_lighter (suc i) (cons n ns) k e = let rest = nth_lighter i ns k e in ground (arith, rest)

  below_lighter :
      (i : ℕ) (p : List ℕ) (n m : Node)
      → get_path (i ∷ p) n ≡ some m
      → weight is_task m ≤ weights is_task (children_of n)
  unfolding get_path
  below_lighter i [] n m e = elim (Option-cases (nth i (children_of n))) [
    | inl d ↦ absurd (not_none (sym (get_path-none i [] n d) ∙ e))
    | inr (k, d) ↦ nth_lighter i (children_of n) m (d ∙ sym (get_path-below i [] n k d) ∙ e)
  ]
  below_lighter i (j ∷ p) n m e =
      let rest = λ (k : Node). below_lighter j p k m in
      elim (Option-cases (nth i (children_of n))) [
        | inl d ↦ absurd (not_none (sym (get_path-none i (j ∷ p) n d) ∙ e))
        | inr (k, d) ↦
            let inner = rest k (sym (get_path-below i (j ∷ p) n k d) ∙ e) in
            let outer = nth_lighter i (children_of n) k d in
            let lighter = children_lighter k in ground (arith, inner, outer, lighter)
      ]

  times-lt : (k w : ℕ) → k ≤ w → 1 ≤ w → times k (growth (w - 1)) < growth w
  unfolding growth
  times-lt k zero h z = ground (arith, z)
  times-lt k (suc v) h z =
      let same : suc v - 1 ≡ v = omega arith in
      let more = times-monotone k (suc v) (growth v) h in rw (same) (ground (arith, more))

  limited_lighter :
      (i : ℕ) (p : List ℕ) (task m : Node) (ms ts : Nodes)
      → get_path (i ∷ p) task ≡ some m
      → is_task (name_of task) ≡ true
      → weights is_task ms < weight is_task m
      → weights is_task ts ≤ times (count_of ms) (limit task)
      → weights is_task ts < weight is_task task
  limited_lighter i p task m ms ts e t h f =
      let inside = below_lighter i p task m e in
      let few = count_of-weights ms in
      let total =
        times-lt (count_of ms) (weights is_task (children_of task)) (ground (arith, inside, few, h))
          (ground (arith, inside, h)) in
      rw (weight_lem is_task task, t) (ground (arith, f, total))

  -- the copies that a pass makes of a task weigh less than the task
  pub new_tasks_lighter :
      (below : List ℕ) (task m : Node) (ts : Nodes)
      → below ≢ []
      → get_path below task ≡ some m
      → is_task (name_of task) ≡ true
      → new_tasks below task m ≡ expanded ts
      → weights is_task ts < weight is_task task
  unfolding new_tasks
  new_tasks_lighter [] task m ts z e t h = absurd (z refl)
  new_tasks_lighter (i ∷ p) task (node n map_value ms) ts z e t h =
      limited_lighter i p task (node n map_value ms) ms ts e t
        (children_lighter (node n map_value ms))
        (subst (IsLimited (times (count_of ms) (limit task))) h (
          copies_by_child_limited (i ∷ p) task (node n map_value ms) ms z e t
            (children_lighter (node n map_value ms))))
  new_tasks_lighter (i ∷ p) task (node n list_value ms) ts z e t h =
      limited_lighter i p task (node n list_value ms) ms ts e t
        (children_lighter (node n list_value ms))
        (subst (IsLimited (times (count_of ms) (limit task))) h (
          copies_by_item-IsLimited (i ∷ p) task (node n list_value ms) ms z e t
            (children_lighter (node n list_value ms))))
  new_tasks_lighter (i ∷ p) task (node n (scalar_value s) ms) ts z e t h = absurd (not_expanded h)
  new_tasks_lighter (i ∷ p) task (node n no_value ms) ts z e t h = absurd (not_expanded h)
