-- ===== src/Worker/Poll/Interval.antt =====
-- internal/worker/worker.go: the interval of the polls is the shortest that an upstream asks for.
use cirrus_cli.Prelude.{
  ℕ, ◌≤◌, Bool, List, [], ◌∷◌, if◌then◌else◌, ◌≡◌, ◌⊎◌, inl, inr, refl, sym, subst, arith, ltb,
  Bool-cases, All, In,
}
use cirrus_cli.Worker.Poll.{least, poll_interval_seconds}

-- m is the least of a first number and the others
abbrev pub IsLeast : ℕ → ℕ → List ℕ → Type 0
IsLeast m first is = (m ≤ first) × All (λ i. m ≤ i) is × ((m ≡ first) ⊎ In m is)

least-IsLeast : (first : ℕ) (is : List ℕ) → IsLeast (least first is) first is
unfolding least
least-IsLeast first [] = (omega arith, tt, inl refl)
least-IsLeast first (i ∷ is) =
    let kept = λ (b : Bool). IsLeast (least (if b then i else first) is) first (i ∷ is) in
    elim (Bool-cases (ltb i first)) [
      | inl e ↦
          let (a, l, o) = least-IsLeast i is in
          subst kept (sym e)
            (ground (arith, a, e), (a, l), inr (elim o [ inl p ↦ inl (sym p) | inr q ↦ inr q ]))
      | inr e ↦
          let (a, l, o) = least-IsLeast first is in
          subst kept (sym e)
            (a, (ground (arith, a, e), l), elim o [ inl p ↦ inl p | inr q ↦ inr (inr q) ])
    ]

-- The worker waits between polls for the shortest of the intervals that its upstreams ask for, and
-- for math.MaxUint32 seconds if each asks for no less, or there are none.
pub poll_interval_seconds-IsLeast :
    (intervals : List ℕ) → IsLeast (poll_interval_seconds intervals) 4294967295 intervals
unfolding poll_interval_seconds
poll_interval_seconds-IsLeast intervals = least-IsLeast 4294967295 intervals
