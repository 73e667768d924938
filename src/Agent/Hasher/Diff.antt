-- ===== src/Agent/Hasher/Diff.antt =====
-- DiffWithNewer says of each path how it differs between the two maps.
use cirrus_cli.Prelude.{
  String, ◌≡◌, refl, ◌↔◌, ◌⊎◌, inl, inr, Option, none, some, List, [], ◌∷◌, ◌++◌, In, In-append,
  In-append_left, In-append_right, if◌then◌else◌, str_eq, eq_iff, arith,
}
use cirrus_cli.Agent.Hasher.{
  DiffEntryType, created, modified, deleted, DiffEntry, FileHashes, lookup, changed, removed,
  diff_with_newer, IsMap,
}

lookup-here : (k p h : String) (m : FileHashes) → k ≡ p → lookup k ((p, h) ∷ m) ≡ some h
unfolding lookup
lookup-here k p h m e = ground (arith, eq_iff p k)

lookup-there :
    (k p h : String) (m : FileHashes) (g : String)
    → lookup p m ≡ none
    → lookup k m ≡ some g
    → lookup k ((p, h) ∷ m) ≡ some g
unfolding lookup
lookup-there k p h m g n l = ground (arith, eq_iff p k)

lookup-cases :
    (k p h : String) (m : FileHashes) (g : String)
    → lookup k ((p, h) ∷ m) ≡ some g
    → ((k ≡ p) × (h ≡ g)) ⊎ (lookup k m ≡ some g)
unfolding lookup
lookup-cases k p h m g l = ground (arith, eq_iff p k)

diff_with_newer_lem :
    (old newer : FileHashes) → diff_with_newer old newer ≡ changed old newer ++ removed old newer
unfolding diff_with_newer
diff_with_newer_lem old newer = refl

-- how a file differs, from its older and its newer hash
abbrev pub change_of : Option String → Option String → Option DiffEntryType
change_of none none = none
change_of none (some h) = some created
change_of (some g) none = some deleted
change_of (some g) (some h) = if str_eq h g then none else some modified

-- what one entry of the newer map adds to the result
head_of : String → Option DiffEntryType → List DiffEntry → List DiffEntry
head_of p none rest = rest
head_of p (some k) rest = (record { kind = k; path = p }) ∷ rest

module _ (d : DiffEntry) where
  In-head_of→ :
      (p : String) (c : Option DiffEntryType) (rest : List DiffEntry)
      → In d (head_of p c rest)
      → ((d.path ≡ p) × (c ≡ some d.kind)) ⊎ In d rest
  unfolding head_of
  In-head_of→ p none rest m = inr m
  In-head_of→ p (some k) rest (inl e) = inl (ground (arith, e), ground (arith, e))
  In-head_of→ p (some k) rest (inr m) = inr m

  In-head_of← :
      (p : String) (c : Option DiffEntryType) (rest : List DiffEntry)
      → ((d.path ≡ p) × (c ≡ some d.kind)) ⊎ In d rest
      → In d (head_of p c rest)
  unfolding head_of
  In-head_of← p none rest (inl h) = absurd (cc (h.1))
  In-head_of← p none rest (inr m) = m
  In-head_of← p (some k) rest (inl h) = inl (ground (arith, h.0, h.1))
  In-head_of← p (some k) rest (inr m) = inr m

changed-cons :
    (old newer : FileHashes) (p h : String)
    → changed old ((p, h) ∷ newer)
      ≡ head_of p (change_of (lookup p old) (some h)) (changed old newer)
unfolding changed head_of
changed-cons old newer p h = ground arith

abbrev deletion_of : Option String → Option DiffEntryType
deletion_of none = some deleted
deletion_of (some _) = none

removed-cons :
    (old newer : FileHashes) (p g : String)
    → removed ((p, g) ∷ old) newer ≡ head_of p (deletion_of (lookup p newer)) (removed old newer)
unfolding removed head_of
removed-cons old newer p g = ground arith

module _ (d : DiffEntry) where
  abbrev IsChanged : FileHashes → FileHashes → Type 0
  IsChanged old newer =
      (h : String) × (lookup d.path newer ≡ some h)
      × (change_of (lookup d.path old) (some h) ≡ some d.kind)

  In-changed→ :
      (old newer : FileHashes) → IsMap newer → In d (changed old newer) → IsChanged old newer
  In-changed→ old [] u m = absurd (unfold changed in m)
  In-changed→ old ((p, h) ∷ newer) u m =
      go
        (In-head_of→ d p (change_of (lookup p old) (some h)) (changed old newer)
          (rw changed-cons at m))
        (In-changed→ old newer u.1)
    where
      go :
          ((d.path ≡ p) × (change_of (lookup p old) (some h) ≡ some d.kind))
            ⊎ In d (changed old newer)
          → (In d (changed old newer) → IsChanged old newer)
          → IsChanged old ((p, h) ∷ newer)
      go (inl (e, c)) ih = (h, lookup-here d.path p h newer e, rw e c)
      go (inr n) ih = let (g, l, c) = ih n in (g, lookup-there d.path p h newer g u.0 l, c)

  In-changed← : (old newer : FileHashes) → IsChanged old newer → In d (changed old newer)
  In-changed← old [] (h, l, c) = absurd (unfold lookup in cc)
  In-changed← old ((p, h) ∷ newer) (g, l, c) = rw changed-cons (
      In-head_of← d p (change_of (lookup p old) (some h)) (changed old newer)
        (elim (lookup-cases d.path p h newer g l) [
          | inl (e, same) ↦ inl (e, rw (← e, same) c)
          | inr n ↦ inr (In-changed← old newer (g, n, c))
        ]))

  abbrev IsRemoved : FileHashes → FileHashes → Type 0
  IsRemoved old newer =
      (g : String) × (lookup d.path old ≡ some g)
      × (deletion_of (lookup d.path newer) ≡ some d.kind)

  In-removed→ :
      (old newer : FileHashes) → IsMap old → In d (removed old newer) → IsRemoved old newer
  In-removed→ [] newer u m = absurd (unfold removed in m)
  In-removed→ ((p, g) ∷ old) newer u m =
      go (In-head_of→ d p (deletion_of (lookup p newer)) (removed old newer) (rw removed-cons at m))
        (In-removed→ old newer u.1)
    where
      go :
          ((d.path ≡ p) × (deletion_of (lookup p newer) ≡ some d.kind)) ⊎ In d (removed old newer)
          → (In d (removed old newer) → IsRemoved old newer)
          → IsRemoved ((p, g) ∷ old) newer
      go (inl (e, c)) ih = (g, lookup-here d.path p g old e, rw e c)
      go (inr n) ih = let (h, l, c) = ih n in (h, lookup-there d.path p g old h u.0 l, c)

  In-removed← : (old newer : FileHashes) → IsRemoved old newer → In d (removed old newer)
  In-removed← [] newer (h, l, c) = absurd (unfold lookup in cc)
  In-removed← ((p, g) ∷ old) newer (h, l, c) = rw removed-cons (
      In-head_of← d p (deletion_of (lookup p newer)) (removed old newer)
        (elim (lookup-cases d.path p g old h l) [
          | inl (e, same) ↦ inl (e, rw (← e) c)
          | inr n ↦ inr (In-removed← old newer (h, n, c))
        ]))

  change_of-cases :
      (a b : Option String)
      → change_of a b ≡ some d.kind
      → ((h : String) × (b ≡ some h) × (change_of a (some h) ≡ some d.kind))
        ⊎ ((g : String) × (a ≡ some g) × (deletion_of b ≡ some d.kind))
  change_of-cases none none c = cc
  change_of-cases none (some h) c = inl (h, refl, c)
  change_of-cases (some g) none c = inr (g, refl, c)
  change_of-cases (some g) (some h) c = inl (h, refl, c)

  -- For two maps, DiffWithNewer lists a path as created, modified or deleted exactly when the path is
  -- in the newer map alone, in both with two hashes, or in the older map alone.
  pub In-diff_with_newer_iff :
      (old newer : FileHashes)
      → IsMap old
      → IsMap newer
      → In d (diff_with_newer old newer)
        ↔ (change_of (lookup d.path old) (lookup d.path newer) ≡ some d.kind)
  In-diff_with_newer_iff old newer u v = (
    λ m. elim (In-append d (changed old newer) (removed old newer) (rw diff_with_newer_lem at m)) [
      | inl n ↦ let (h, l, c) = In-changed→ old newer v n in rw l c
      | inr n ↦ let (g, l, c) = In-removed→ old newer u n in removed_change g l c
    ],
    λ c.
        rw diff_with_newer_lem (elim (change_of-cases (lookup d.path old) (lookup d.path newer) c) [
          | inl h ↦
              In-append_left d (changed old newer) (removed old newer) (In-changed← old newer h)
          | inr g ↦
              In-append_right d (changed old newer) (removed old newer) (In-removed← old newer g)
        ]),
  )
    where
      removed_change :
          (g : String)
          → lookup d.path old ≡ some g
          → deletion_of (lookup d.path newer) ≡ some d.kind
          → change_of (lookup d.path old) (lookup d.path newer) ≡ some d.kind
      removed_change g l c = ground (arith, l, c)
