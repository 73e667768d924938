-- ===== src/Tests/Agents.antt =====
-- internal/agent on small inputs: words, environments, batches of updates and folders.
use cirrus_cli.Prelude.{
  ℕ, true, false, ◌≡◌, refl, ◌≢◌, List, [], ◌∷◌, Text, text_eq, returns, arith,
}
use cirrus_cli.Agent.Shellwords.{to_argv, scan}
use cirrus_cli.Agent.Shellwords.RoundTrip.{quote, escape, to_argv-quote}
use cirrus_cli.Agent.UpdateBatcher.{
  new, Use, queues, flushes, queue, flush, run, IsBalanced, run-IsBalanced,
}
use cirrus_cli.Agent.Hasher.{
  DiffEntry, created, modified, deleted, FileHashes, IsMap, diff_with_newer, changed, removed,
}
use cirrus_cli.Agent.Hasher
use cirrus_cli.Agent.Environment.{
  Items, new_empty, merge, is_well_known_sensitive, put, put_all, mask_all, add_sensitive_values,
  add_sensitive, has_suffix,
}

abbrev words : List (List ℕ)
words = (b'a' ∷ b' ' ∷ []) ∷ (b'"' ∷ []) ∷ []

shellwords : Unit {0}
unfolding to_argv scan
shellwords = tt

-- `a\ b c`
escaped_space :
    to_argv false (b'a' ∷ 92 ∷ b' ' ∷ b'b' ∷ b' ' ∷ b'c' ∷ [])
    ≡ returns ((b'a' ∷ b' ' ∷ b'b' ∷ []) ∷ (b'c' ∷ []) ∷ [])
unfolding shellwords
escaped_space = refl

quoted_words : quote words ≡ b'"' ∷ b'a' ∷ b' ' ∷ b'"' ∷ b' ' ∷ b'"' ∷ 92 ∷ b'"' ∷ b'"' ∷ []
unfolding quote escape
quoted_words = refl

to_argv-quote_example : to_argv false (quote words) ≡ returns words
to_argv-quote_example = to_argv-quote words

abbrev uses : List (Use ℕ)
uses = queues 1 ∷ flushes false ∷ queues 2 ∷ flushes true ∷ queues 3 ∷ []

batcher : Unit {0}
unfolding run queue flush
batcher = tt

batches :
    run uses new []
    ≡ (record { update_history = 1 ∷ 2 ∷ 3 ∷ []; unflushed_updates = 3 ∷ [] }, 1 ∷ 2 ∷ [])
unfolding batcher
batches = refl

run-IsBalanced_example : IsBalanced (run uses new []).0 (run uses new []).1
run-IsBalanced_example = run-IsBalanced uses new [] refl

abbrev older : FileHashes
older = ("a", "1") ∷ ("b", "2") ∷ []

abbrev newer : FileHashes
newer = ("b", "3") ∷ ("c", "4") ∷ []

abbrev entry : DiffEntry
entry = record { kind = created; path = "c" }

older-IsMap : IsMap older
unfolding Hasher.lookup
older-IsMap = (refl, (refl, tt))

newer-IsMap : IsMap newer
unfolding Hasher.lookup
newer-IsMap = (refl, (refl, tt))

folder :
    diff_with_newer older newer
    ≡ (record { kind = modified; path = "b" })
      ∷ entry
      ∷ (record { kind = deleted; path = "a" })
      ∷ []
unfolding diff_with_newer changed removed Hasher.lookup
folder = refl

abbrev expand : Items → Items
expand items = items

abbrev token : Text
token = b'A' ∷ b'_' ∷ b'T' ∷ b'O' ∷ b'K' ∷ b'E' ∷ b'N' ∷ []

abbrev secret : Text
secret = b'x' ∷ []

abbrev other : Items
other = (token, secret) ∷ (secret, token) ∷ []

environment : Unit {0}
unfolding merge put_all put mask_all add_sensitive_values add_sensitive is_well_known_sensitive
    has_suffix text_eq
environment = tt

masked : (merge expand other false new_empty).sensitive_values ≡ secret ∷ []
unfolding environment
masked = refl

secret-nonempty : secret ≢ []
secret-nonempty h = ground arith
