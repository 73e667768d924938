-- ===== src/Executor/BlobCache/Calls.antt =====
-- internal/executor/rpc/cache.go: the calls of the agent that write a blob and that ask for one (Write, CacheInfo),
-- once the task is authenticated and without the GitHub Actions cache.
pub mod Answered
use cirrus_cli.Prelude.{
  ℕ, ◌+◌, Bool, true, false, Option, none, some, List, [], ◌∷◌, ◌++◌, length, if◌then◌else◌, Text,
}
use cirrus_cli.Executor.BlobCache.{
  Entry, Found, file, blob_not_found, internal, safe_mod_time, find_by_prefix, PutOperation,
  write_blob, finalize, get, put,
}

-- bytestream.WriteRequest, with the fields that are read; `bytes` is its Data
pub record WriteRequest : Type 0 where
  pub resource_name : Text
  pub bytes : Text
  pub finish_write : Bool

-- the loop of Write once there is an operation, with bytesSaved
unfoldable pub write_requests : List WriteRequest → PutOperation → ℕ → PutOperation × ℕ
write_requests [] op saved = (op, saved)
write_requests (r ∷ rs) op saved =
    let rest = write_requests rs (write_blob r.bytes op) (saved + length r.bytes) in
    if r.finish_write then (write_blob r.bytes op, saved + length r.bytes) else rest

module _ (hash : Text → Text) where
  -- Write, until the stream ends: the directory, and CommittedSize unless nothing was sent
  unfoldable pub write : Text → ℕ → List WriteRequest → List Entry → List Entry × Option ℕ
  unfolding write_requests
  write tmp now [] dir = (dir, none)
  write tmp now (r ∷ rs) dir =
      let (op, during) = put hash tmp r.resource_name now dir in
      let (done, saved) = write_requests (r ∷ rs) op 0 in (finalize now done during, some saved)

-- CacheInfo, with fileInfo.ModTime as SafeModTime reads it; the error codes
pub data CacheInfo : Type 0 where
  info : Text → ℕ → ℕ → CacheInfo
  not_found no_file : CacheInfo

module _ (hash : Text → Text) (sort : List Entry → List Entry) where
  -- the loop over the prefixes: the last file and error, which are nil at first, and prefixMatch
  unfoldable pub find_by_prefixes : List Text → Option Found → List Entry → Option Found × Bool
  find_by_prefixes [] last dir = (last, false)
  find_by_prefixes (p ∷ ps) last dir = elim (find_by_prefix sort p dir) [
    | file e ↦ (some (file e), true)
    | blob_not_found ↦ find_by_prefixes ps (some blob_not_found) dir
    | internal ↦ find_by_prefixes ps (some internal) dir
  ]

  -- the first lookup, by the key, if there is one
  abbrev get_key : Text → List Entry → Option Found
  get_key [] dir = none
  get_key (c ∷ key) dir = some (get hash (c ∷ key) dir)

  -- the lookups of CacheInfo
  abbrev look_up : Option Found → List Text → List Entry → Option Found × Bool
  look_up (some (file e)) prefixes dir = (some (file e), false)
  look_up last prefixes dir = find_by_prefixes prefixes last dir

  -- the response; without a file and without an error, file.Stat fails
  abbrev answer : Text → Option Found × Bool → CacheInfo
  answer key (none, b) = no_file
  answer key (some (file e), b) =
      info (if b then e.name else key) (length e.contents) (safe_mod_time e)
  answer key (some blob_not_found, b) = not_found
  answer key (some internal, b) = not_found

  -- CacheInfo
  unfoldable pub cache_info : Text → List Text → List Entry → CacheInfo
  unfolding find_by_prefixes
  cache_info key prefixes dir = answer key (look_up (get_key key dir) prefixes dir)
