-- ===== src/Agent/Hasher.antt =====
-- internal/agent/hasher/hasher.go: DiffWithNewer over the maps from paths to hashes. Walking a folder
-- and hashing a file are input and output.
pub mod Diff
use cirrus_cli.Prelude.{
  String, Bool, true, false, not, ◌≡◌, refl, ◌≢◌, ◌↔◌, ◌⊎◌, inl, inr, Option, none, some, List, [],
  ◌∷◌, ◌++◌, In, In-append, In-append_left, In-append_right, if◌then◌else◌, str_eq, eq_iff,
  Option-cases, Bool-cases, arith, subst, sym,
}

-- DiffEntryType
pub data DiffEntryType : Type 0 where
  created modified deleted : DiffEntryType

-- DiffEntry; `kind` is its Type
pub record DiffEntry : Type 0 where
  pub kind : DiffEntryType
  pub path : String

-- Hasher.fileHashes, in some order of iteration
abbrev pub FileHashes : Type 0
FileHashes = List (String × String)

unfoldable pub lookup : String → FileHashes → Option String
lookup p [] = none
lookup p ((q, h) ∷ m) = if str_eq q p then some h else lookup p m

-- the first loop of DiffWithNewer, over the newer hashes
unfoldable pub changed : FileHashes → FileHashes → List DiffEntry
changed old [] = []
changed old ((p, h) ∷ newer) =
    let rest = changed old newer in
    elim (lookup p old) [
      | none ↦ (record { kind = created; path = p }) ∷ rest
      | some g ↦ if str_eq h g then rest else (record { kind = modified; path = p }) ∷ rest
    ]

-- the second loop, over the older ones
unfoldable pub removed : FileHashes → FileHashes → List DiffEntry
removed [] newer = []
removed ((p, _) ∷ old) newer =
    let rest = removed old newer in
    elim (lookup p newer) [ none ↦ (record { kind = deleted; path = p }) ∷ rest | some _ ↦ rest ]

-- DiffWithNewer
unfoldable pub diff_with_newer : FileHashes → FileHashes → List DiffEntry
diff_with_newer old newer = changed old newer ++ removed old newer

-- no two entries of a map have one key
abbrev pub IsMap : FileHashes → Type 0
IsMap [] = Unit
IsMap ((p, _) ∷ m) = (lookup p m ≡ none) × IsMap m
