-- ===== src/Agent/Steps/Bounds.antt =====
-- The commands that BoundedCommands picks.
use cirrus_cli.Prelude.{
  ℕ, suc, ◌+◌, ◌-◌, ◌≤◌, String, true, not, ◌&&◌, ◌≡◌, refl, ◌≢◌, List, [], ◌∷◌, ◌++◌, leb,
  if◌then◌else◌, str_eq, eq_iff, returns, panics, length, length-append, All, arith, sym, ap, ◌∙◌,
  append_assoc, append-nil,
}
use cirrus_cli.Agent.Steps.{Step, bounds_from, drop, take, slice, bounded_commands}

-- no two commands have one name
abbrev pub HasDistinctNames : List Step → Type 0
HasDistinctNames [] = Unit
HasDistinctNames (c ∷ cs) = All (λ (d : Step). c.name ≢ d.name) cs × HasDistinctNames cs

-- the index of the last command of a name from index i on, or else the given one
unfoldable pub scan : ℕ → String → List Step → ℕ → ℕ
scan i n [] l = l
scan i n (c ∷ cs) l = scan (suc i) n cs (if not (str_eq n "") && str_eq c.name n then i else l)

bounds_from_lem :
    (i : ℕ) (n m : String) (cs : List Step) (l r : ℕ)
    → bounds_from i n m cs l r ≡ (scan i n cs l, scan i m cs r)
unfolding bounds_from scan
bounds_from_lem i n m [] l r = refl
bounds_from_lem i n m (c ∷ cs) l r = bounds_from_lem (suc i) n m cs _ _

scan-empty : (i : ℕ) (cs : List Step) (l : ℕ) → scan i "" cs l ≡ l
unfolding scan
scan-empty i [] l = refl
scan-empty i (c ∷ cs) l = ground (arith, scan-empty (suc i) cs l)

scan-absent :
    (i : ℕ) (n : String) (cs : List Step) (l : ℕ)
    → All (λ (d : Step). n ≢ d.name) cs
    → scan i n cs l ≡ l
unfolding scan
scan-absent i n [] l h = refl
scan-absent i n (c ∷ cs) l h = ground (arith, scan-absent (suc i) n cs l h.1, eq_iff c.name n, h.0)

scan-found :
    (i : ℕ) (xs ys : List Step) (c : Step) (l : ℕ)
    → c.name ≢ ""
    → All (λ (d : Step). c.name ≢ d.name) ys
    → scan i c.name (xs ++ c ∷ ys) l ≡ i + length xs
unfolding scan
scan-found i [] ys c l z h =
    ground (arith, scan-absent (suc i) c.name ys i h, eq_iff c.name c.name, eq_iff c.name "")
scan-found i (x ∷ xs) ys c l z h = omega (
  arith,
  scan-found (suc i) xs ys c (if not (str_eq c.name "") && str_eq x.name c.name then i else l) z h,
)

drop-append : (xs ys : List Step) → drop (length xs) (xs ++ ys) ≡ ys
unfolding drop
drop-append [] ys = refl
drop-append (x ∷ xs) ys = drop-append xs ys

take-append : (xs ys : List Step) → take (length xs) (xs ++ ys) ≡ xs
unfolding take
take-append [] ys = refl
take-append (x ∷ xs) ys = ap (λ l. x ∷ l) (take-append xs ys)

slice-append :
    (xs ys zs : List Step) (l r : ℕ)
    → l ≡ length xs
    → r ≡ length xs + length ys
    → slice (xs ++ (ys ++ zs)) (l, r) ≡ returns ys
unfolding slice
slice-append xs ys zs l r p q =
    let ordered : leb l r ≡ true = ground (arith, p, q) in
    let width : r - l ≡ length ys = omega (arith, p, q) in
    rw (ordered, width, p, drop-append xs (ys ++ zs), take-append ys zs) refl

slice-end :
    (xs ys : List Step) (l r : ℕ)
    → l ≡ length xs
    → r ≡ length (xs ++ ys)
    → slice (xs ++ ys) (l, r) ≡ returns ys
slice-end xs ys l r p q =
    ap (λ zs. slice (xs ++ zs) (l, r)) (sym (append-nil ys))
    ∙ slice-append xs ys [] l r p (omega (arith, q, length-append xs ys))

slice-crossed : (cs : List Step) (l r : ℕ) → suc r ≤ l → slice cs (l, r) ≡ panics
unfolding slice
slice-crossed cs l r h = ground (arith, h)

behind :
    (c : Step) (xs ys : List Step)
    → HasDistinctNames (xs ++ c ∷ ys)
    → All (λ (d : Step). c.name ≢ d.name) ys
behind c [] ys h = h.0
behind c (x ∷ xs) ys h = behind c xs ys h.1

-- without names, BoundedCommands picks all commands
pub bounded_commands_all : (cs : List Step) → bounded_commands cs "" "" ≡ returns cs
unfolding bounded_commands
bounded_commands_all cs =
    ap (slice cs) (bounds_from_lem 0 "" "" cs 0 (length cs))
    ∙ slice-end [] cs _ _ (scan-empty 0 cs 0) (scan-empty 0 cs (length cs))

module _ (before mid after : List Step) (from to : Step) where
  abbrev pub all_steps : List Step
  all_steps = before ++ (from ∷ (mid ++ to ∷ after))

  scan-from :
      from.name ≢ "" → HasDistinctNames all_steps → scan 0 from.name all_steps 0 ≡ length before
  scan-from z h = omega (
    arith,
    scan-found 0 before (mid ++ to ∷ after) from 0 z (behind from before (mid ++ to ∷ after) h),
  )

  split_at_to : all_steps ≡ (before ++ from ∷ mid) ++ to ∷ after
  split_at_to = sym (append_assoc before (from ∷ mid) (to ∷ after))

  scan-to :
      (l : ℕ)
      → to.name ≢ ""
      → HasDistinctNames all_steps
      → scan 0 to.name all_steps l ≡ length before + length (from ∷ mid)
  scan-to l z h =
      ap (λ cs. scan 0 to.name cs l) split_at_to
      ∙ scan-found 0 (before ++ from ∷ mid) after to l z
          (behind to (before ++ from ∷ mid) after (rw split_at_to at h))
      ∙ omega (arith, length-append before (from ∷ mid))

  -- Of commands with distinct names, BoundedCommands picks those from the one name up to but not with the
  -- other, up to the end if there is no second name, and from the start if there is no first one; if the
  -- second name stands before the first, it panics.
  pub bounded_commands_range :
      from.name ≢ ""
      → to.name ≢ ""
      → HasDistinctNames all_steps
      → (bounded_commands all_steps from.name to.name ≡ returns (from ∷ mid))
        × (bounded_commands all_steps from.name "" ≡ returns (from ∷ (mid ++ to ∷ after)))
        × (bounded_commands all_steps "" to.name ≡ returns (before ++ from ∷ mid))
        × (bounded_commands all_steps to.name from.name ≡ panics)
  unfolding bounded_commands
  bounded_commands_range z w h = (
    ap (slice all_steps) (bounds_from_lem 0 from.name to.name all_steps 0 (length all_steps))
        ∙ slice-append before (from ∷ mid) (to ∷ after) _ _ (scan-from z h)
            (scan-to (length all_steps) w h),
    ap (slice all_steps) (bounds_from_lem 0 from.name "" all_steps 0 (length all_steps))
        ∙ slice-end before (from ∷ (mid ++ to ∷ after)) _ _ (scan-from z h)
            (scan-empty 0 all_steps (length all_steps)),
    ap (slice all_steps) (bounds_from_lem 0 "" to.name all_steps 0 (length all_steps))
        ∙ ap (λ cs. slice cs (scan 0 "" all_steps 0, scan 0 to.name all_steps (length all_steps)))
            split_at_to
        ∙ slice-append [] (before ++ from ∷ mid) (to ∷ after) _ _ (scan-empty 0 all_steps 0)
            (omega (arith, scan-to (length all_steps) w h, length-append before (from ∷ mid))),
    ap (slice all_steps) (bounds_from_lem 0 to.name from.name all_steps 0 (length all_steps))
        ∙ slice-crossed all_steps _ _ (omega (arith, scan-to 0 w h, scan-before)),
  )
    where
      scan-before : scan 0 from.name all_steps (length all_steps) ≡ length before
      scan-before = omega (
        arith,
        scan-found 0 before (mid ++ to ∷ after) from (length all_steps) z
            (behind from before (mid ++ to ∷ after) h),
      )
