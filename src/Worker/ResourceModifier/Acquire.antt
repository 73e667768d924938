-- ===== src/Worker/ResourceModifier/Acquire.antt =====
-- A modifier is given to one task at a time.
use cirrus_cli.Prelude.{
  suc, Bool, true, false, ◌≡◌, refl, ◌⊎◌, inl, inr, none, some, List, [], ◌∷◌, ◌++◌, not, ◌&&◌, ap,
  All, Bool-cases, arith, length,
}
use cirrus_cli.Worker.ResourceModifier.{Resources, matches, Modifier, acquire}

module _ (Quantity : Type 0) (exceeds : Quantity → Quantity → Bool)
    (resources : Resources Quantity exceeds) where
  abbrev pub is_free : Modifier Quantity exceeds → Bool
  is_free m = matches Quantity exceeds m.match_on resources && not m.locked

  -- the first free modifier of a list, with those before and behind it
  pub record FirstFree (ms : List (Modifier Quantity exceeds)) : Type 0 where
    pub before : List (Modifier Quantity exceeds)
    pub chosen : Modifier Quantity exceeds
    pub behind : List (Modifier Quantity exceeds)
    pub whole : ms ≡ before ++ chosen ∷ behind
    pub busy : All (λ m. is_free m ≡ false) before
    pub free : is_free chosen ≡ true

  abbrev pub locked_at :
      {ms : List (Modifier Quantity exceeds)} → FirstFree ms → List (Modifier Quantity exceeds)
  locked_at f = f.before ++ (record f.chosen { locked = true }) ∷ f.behind

  acquire-free :
      (m : Modifier Quantity exceeds) (ms : List (Modifier Quantity exceeds))
      → is_free m ≡ true
      → acquire Quantity exceeds resources (m ∷ ms) ≡ ((record m { locked = true }) ∷ ms, some 0)
  unfolding acquire
  acquire-free m ms h = ground arith

  acquire-busy :
      (m : Modifier Quantity exceeds) (ms : List (Modifier Quantity exceeds))
      → is_free m ≡ false
      → acquire Quantity exceeds resources (m ∷ ms) ≡ (
        m ∷ (acquire Quantity exceeds resources ms).0,
        elim (acquire Quantity exceeds resources ms).1 [ none ↦ none | some n ↦ some (suc n) ],
      )
  unfolding acquire
  acquire-busy m ms h = ground arith

  -- Acquire locks and returns the first modifier that matches the resources and is not locked, and
  -- leaves the others alone; it returns nil, and changes nothing, only if there is none.
  pub acquire-FirstFree :
      (ms : List (Modifier Quantity exceeds))
      → ((acquire Quantity exceeds resources ms ≡ (ms, none)) × All (λ m. is_free m ≡ false) ms)
        ⊎ ((f : FirstFree ms) × (acquire Quantity exceeds resources ms
              ≡ (locked_at f, some (length f.before))))
  acquire-FirstFree [] = inl (unfold acquire in refl, tt)
  acquire-FirstFree (m ∷ ms) = elim (Bool-cases (is_free m)) [
    | inl e ↦ inr (
      record { before = []; chosen = m; behind = ms; whole = refl; busy = tt; free = e },
      acquire-free m ms e,
    )
    | inr e ↦ elim (acquire-FirstFree ms) [
      | inl (p, q) ↦ inl (rw (acquire-busy, e, p), (e, q))
      | inr (f, p) ↦ inr (
        record {
          before = m ∷ f.before;
          chosen = f.chosen;
          behind = f.behind;
          whole = ap (◌∷◌ m) f.whole;
          busy = (e, f.busy);
          free = f.free;
        },
        rw (acquire-busy, e, p),
      )
    ]
  ]
