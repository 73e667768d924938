-- ===== src/Agent/CachePaths.antt =====
-- internal/agent/executor/cache.go: the folders of a cache, whose globs are expanded and of which those inside
-- others are left out, and the search for a cache by its name. doublestar.Glob enters as an
-- argument, none where it fails; paths are lists of bytes, with `/` as the separator.
pub mod Kept
use cirrus_cli.Prelude.{
  ℕ, Bool, true, false, not, ◌||◌, Option, none, some, List, [], ◌∷◌, ◌++◌, if◌then◌else◌, Text,
  text_eq, text_less, contains_text,
}

-- sort.Strings
unfoldable pub insert_path : Text → List Text → List Text
unfolding text_less
insert_path p [] = p ∷ []
insert_path p (q ∷ qs) =
    let rest = insert_path p qs in if text_less q p then q ∷ rest else p ∷ q ∷ qs

unfoldable pub sort_paths : List Text → List Text
unfolding insert_path
sort_paths [] = []
sort_paths (p ∷ ps) = insert_path p (sort_paths ps)

abbrev pub is_empty : Text → Bool
is_empty [] = true
is_empty (c ∷ s) = false

-- the loop of DeduplicatePaths, with `previous`
unfoldable pub without_inner : Text → List Text → List Text
unfolding contains_text
without_inner previous [] = []
without_inner previous (p ∷ ps) =
    let kept = p ∷ without_inner p ps in
    let dropped = without_inner previous ps in
    if is_empty previous || not (contains_text p (previous ++ b'/' ∷ [])) then kept else dropped

-- DeduplicatePaths
unfoldable pub deduplicate_paths : List Text → List Text
unfolding without_inner sort_paths
deduplicate_paths paths = without_inner [] (sort_paths paths)

-- pathLooksLikeGlob
unfoldable pub path_looks_like_glob : Text → Bool
unfolding contains_text
path_looks_like_glob path = contains_text path (b'*' ∷ [])

module _ (glob : Text → Option (List Text)) where
  -- the loop of expandAndDeduplicateGlobs
  unfoldable pub expand_globs : List Text → Option (List Text)
  unfolding path_looks_like_glob
  expand_globs [] = some []
  expand_globs (f ∷ fs) = elim (expand_globs fs) [
    | none ↦ none
    | some rest ↦
        if path_looks_like_glob f
        then elim (glob f) [ none ↦ none | some found ↦ some (found ++ rest) ]
        else some (f ∷ rest)
  ]

  -- expandAndDeduplicateGlobs, none where it returns a message
  unfoldable pub expand_and_deduplicate_globs : List Text → Option (List Text)
  unfolding expand_globs deduplicate_paths
  expand_and_deduplicate_globs folders = elim (expand_globs folders) [
    | none ↦ none
    | some paths ↦ some (deduplicate_paths paths)
  ]
