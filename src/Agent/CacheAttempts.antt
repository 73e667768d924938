-- ===== src/Agent/CacheAttempts.antt =====
-- internal/agent/executor/cacheattempts.go: what the agent reports of the caches that it tried to use.
-- A duration is its number of nanoseconds, and is not negative.
use cirrus_cli.Prelude.{
  ℕ, String, ◌≡◌, ◌≢◌, Option, none, some, List, [], ◌∷◌, if◌then◌else◌, str_eq, eq_iff, arith,
}

-- api.CacheRetrievalAttempt: its error, or its result. `hit` has the size and the durations of the download
-- and the extraction; `miss` has the size and the durations of archiving, upload and population.
pub data Attempt : Type 0 where
  attempt_error : String → Attempt
  hit : ℕ → ℕ → ℕ → Attempt
  miss : ℕ → ℕ → ℕ → ℕ → Attempt

-- CacheAttempts: the map from keys to attempts, in some order of iteration
abbrev pub CacheAttempts : Type 0
CacheAttempts = List (String × Attempt)

unfoldable pub find_attempt : String → CacheAttempts → Option Attempt
find_attempt key [] = none
find_attempt key ((k, a) ∷ attempts) = if str_eq k key then some a else find_attempt key attempts

unfoldable pub put_attempt : String → Attempt → CacheAttempts → CacheAttempts
put_attempt key a [] = (key, a) ∷ []
put_attempt key a ((k, b) ∷ attempts) =
    let rest = put_attempt key a attempts in
    if str_eq k key then (k, a) ∷ attempts else (k, b) ∷ rest

-- NewCacheAttempts
abbrev pub new_cache_attempts : CacheAttempts
new_cache_attempts = []

-- Failed
abbrev pub on_failed : String → String → CacheAttempts → CacheAttempts
on_failed key message attempts = put_attempt key (attempt_error message) attempts

-- Hit
abbrev pub on_hit : String → ℕ → ℕ → ℕ → CacheAttempts → CacheAttempts
on_hit key size downloaded_in extracted_in attempts =
    put_attempt key (hit size downloaded_in extracted_in) attempts

-- PopulatedIn
abbrev pub on_populated_in : String → ℕ → CacheAttempts → CacheAttempts
on_populated_in key populated_in attempts = put_attempt key (miss 0 0 0 populated_in) attempts

-- the attempt that Miss leaves: the time of population of an earlier miss is kept
abbrev pub missed : Option Attempt → ℕ → ℕ → ℕ → Attempt
missed (some (miss s a u populated_in)) size archived_in uploaded_in =
    miss size archived_in uploaded_in populated_in
missed _ size archived_in uploaded_in = miss size archived_in uploaded_in 0

-- Miss
unfoldable pub on_miss : String → ℕ → ℕ → ℕ → CacheAttempts → CacheAttempts
on_miss key size archived_in uploaded_in attempts =
    put_attempt key (missed (find_attempt key attempts) size archived_in uploaded_in) attempts

find_attempt-put_attempt :
    (key : String) (a : Attempt) (attempts : CacheAttempts)
    → find_attempt key (put_attempt key a attempts) ≡ some a
unfolding find_attempt put_attempt
find_attempt-put_attempt key a [] = ground (arith, eq_iff key key)
find_attempt-put_attempt key a ((k, b) ∷ attempts) =
    ground (arith, eq_iff k key, find_attempt-put_attempt key a attempts)

find_attempt-put_attempt-other :
    (key other : String) (a : Attempt) (attempts : CacheAttempts)
    → other ≢ key
    → find_attempt other (put_attempt key a attempts) ≡ find_attempt other attempts
unfolding find_attempt put_attempt
find_attempt-put_attempt-other key other a [] h = ground (arith, eq_iff key other)
find_attempt-put_attempt-other key other a ((k, b) ∷ attempts) h =
    ground
      (arith, eq_iff k key, eq_iff k other, find_attempt-put_attempt-other key other a attempts h)

-- A population that is followed by a miss of the same key is reported as one miss with all its numbers,
-- a hit of the key in between makes the time of the population be forgotten, and the attempts at other
-- keys stay as they were.
pub populated-missed :
    (key other : String) (populated size archived uploaded hit_size downloaded extracted : ℕ)
    (attempts : CacheAttempts)
    → other ≢ key
    → (find_attempt key
          (on_miss key size archived uploaded (on_populated_in key populated attempts))
        ≡ some (miss size archived uploaded populated))
      × (find_attempt key (
            on_miss key size archived uploaded
              (on_hit key hit_size downloaded extracted (on_populated_in key populated attempts)))
          ≡ some (miss size archived uploaded 0))
      × (find_attempt other
            (on_miss key size archived uploaded (on_populated_in key populated attempts))
          ≡ find_attempt other attempts)
unfolding on_miss
populated-missed key other populated size archived uploaded hit_size downloaded extracted attempts
      h =
    let populated_attempts = on_populated_in key populated attempts in
    let hit_attempts = on_hit key hit_size downloaded extracted populated_attempts in
    (
      rw (find_attempt-put_attempt key (miss 0 0 0 populated) attempts)
          (find_attempt-put_attempt key (miss size archived uploaded populated) populated_attempts),
      rw (find_attempt-put_attempt key (hit hit_size downloaded extracted) populated_attempts)
          (find_attempt-put_attempt key (miss size archived uploaded 0) hit_attempts),
      rw
          (find_attempt-put_attempt-other key other
            (missed (find_attempt key populated_attempts) size archived uploaded) populated_attempts
            h)
          (find_attempt-put_attempt-other key other (miss 0 0 0 populated) attempts h),
    )
