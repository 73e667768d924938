-- ===== src/Tests/Blobs.antt =====
-- internal/executor/cache, and the calls of the agent, on a directory of two blobs.
use cirrus_cli.Prelude.{
  ℕ, true, false, ◌≡◌, refl, ◌≢◌, inl, inr, some, List, [], ◌∷◌, Text, has_prefix, arith, text_eq,
  In,
}
use cirrus_cli.Executor.BlobCache.{
  Entry, file, blob_not_found, find_by_prefix, first_with_prefix, put, finalize, get, blob_path,
  contains_unsafe_char, remove,
}
use cirrus_cli.Executor.BlobCache.Calls.{WriteRequest, write}
use cirrus_cli.Executor.BlobCache.Stored.{get-put}

abbrev blob : Text → ℕ → Entry
blob n t = record { name = n; is_dir = false; mod_time = some t; is_readable = true; contents = n }

abbrev old_blob : Entry
old_blob = blob (b'g' ∷ b'1' ∷ []) 3

abbrev new_blob : Entry
new_blob = blob (b'g' ∷ b'2' ∷ []) 7

abbrev dir : List Entry
dir = new_blob ∷ old_blob ∷ []

abbrev by_time : List Entry → List Entry
by_time es = old_blob ∷ new_blob ∷ []

-- of two blobs with the prefix the older one is found
blob_lookup : find_by_prefix by_time (b'g' ∷ []) dir ≡ file old_blob
unfolding first_with_prefix has_prefix
blob_lookup = refl

swapped : (a b f : Entry) → In f (a ∷ b ∷ []) → In f (b ∷ a ∷ [])
swapped a b f (inl e) = inr (inl e)
swapped a b f (inr (inl e)) = inl e
swapped a b f (inr (inr e)) = absurd e

-- the hash of every key
abbrev hash : Text → Text
hash s = b'f' ∷ b'0' ∷ []

abbrev tmp : Text
tmp = b'.' ∷ b't' ∷ []

two_names : blob_path hash (b'k' ∷ []) ≢ blob_path hash (b'g' ∷ b'1' ∷ [])
unfolding contains_unsafe_char
two_names = ground arith

get-put_example :
    (get hash (b'k' ∷ []) (put hash tmp (b'k' ∷ []) 8 dir).1 ≡ get hash (b'k' ∷ []) dir)
    × (get hash (b'g' ∷ b'1' ∷ []) (put hash tmp (b'k' ∷ []) 8 dir).1
        ≡ get hash (b'g' ∷ b'1' ∷ []) dir)
    × (get hash (b'g' ∷ b'1' ∷ []) (
          finalize 9
            (record ((put hash tmp (b'k' ∷ []) 8 dir).0) { written = b'x' ∷ [] })
            (put hash tmp (b'k' ∷ []) 8 dir).1)
        ≡ get hash (b'g' ∷ b'1' ∷ []) dir)
unfolding contains_unsafe_char
get-put_example =
    get-put hash (λ s. refl) tmp (b'k' ∷ []) 8 9 (b'x' ∷ []) dir (b'g' ∷ b'1' ∷ []) refl two_names

abbrev request : Text → WriteRequest
request s = record { resource_name = b'g' ∷ b'/' ∷ []; bytes = s; finish_write = false }

-- no prefix of the key finds it there
hidden_key :
    find_by_prefix (λ es. es) (b'g' ∷ b'/' ∷ []) (write hash tmp 9 (request (b'x' ∷ []) ∷ []) []).0
    ≡ blob_not_found
unfolding write first_with_prefix has_prefix remove text_eq contains_unsafe_char
hidden_key = refl
