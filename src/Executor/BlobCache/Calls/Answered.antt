-- ===== src/Executor/BlobCache/Calls/Answered.antt =====
-- What the calls of the agent get, of what they wrote.
use cirrus_cli.Prelude.{
  ℕ, ◌+◌, ◌≡◌, refl, sym, ap, subst, ◌∙◌, true, false, Option, some, List, [], ◌∷◌, ◌++◌, length,
  length-append, append_assoc, append-nil, if◌then◌else◌, Text, text_eq_refl, arith, Bool-cases,
  inl, inr,
}
use cirrus_cli.Executor.BlobCache.{
  Entry, PutOperation, write_blob, put, finalize, blob_path, safe_mod_time, open_file, remove,
}
use cirrus_cli.Executor.BlobCache.Calls.{WriteRequest, write_requests, write, info, cache_info}

-- the bytes of a stream, up to the end that it announces
abbrev sent : List WriteRequest → Text
sent [] = []
sent (r ∷ rs) = let rest = sent rs in if r.finish_write then r.bytes else r.bytes ++ rest

zero_lem : (n : ℕ) → n + 0 ≡ n
zero_lem n = omega arith

zero_plus : (n : ℕ) → 0 + n ≡ n
zero_plus n = omega arith

plus_assoc : (a b c : ℕ) → (a + b) + c ≡ a + (b + c)
plus_assoc a b c = omega arith

regroup :
    (op : PutOperation) (b c : Text) (saved : ℕ)
    → ◌≡◌ {A = PutOperation × ℕ}
        (
          record (write_blob b op) { written = (op.written ++ b) ++ c },
          (saved + length b) + length c,
        )
        (record op { written = op.written ++ (b ++ c) }, saved + length (b ++ c))
regroup op b c saved =
    rw (append_assoc op.written b c, length-append b c, plus_assoc saved (length b) (length c)) refl

write_requests-sent :
    (rs : List WriteRequest) (op : PutOperation) (saved : ℕ)
    → write_requests rs op saved
      ≡ (record op { written = op.written ++ sent rs }, saved + length (sent rs))
unfolding write_requests
write_requests-sent [] op saved =
    subst (λ w. ◌≡◌ {A = PutOperation × ℕ} (op, saved) (record op { written = w }, saved + 0))
      (sym (append-nil op.written)) (rw (zero_lem saved) refl)
write_requests-sent (r ∷ rs) op saved =
    let rest = write_requests-sent rs (write_blob r.bytes op) (saved + length r.bytes) in
    elim (Bool-cases r.finish_write) [
      | inl e ↦ rw (e) refl
      | inr e ↦ rw (e) (rest ∙ regroup op r.bytes (sent rs) saved)
    ]

module _ (hash : Text → Text) where
  -- what a stream leaves in the directory, under the name of its first request
  abbrev stored : Text → ℕ → WriteRequest → List WriteRequest → List Entry → List Entry × Option ℕ
  stored tmp now r rs dir =
      let (op, during) = put hash tmp r.resource_name now dir in
      (finalize now (record op { written = sent (r ∷ rs) }) during, some (length (sent (r ∷ rs))))

  write-stored :
      (tmp : Text) (now : ℕ) (r : WriteRequest) (rs : List WriteRequest) (dir : List Entry)
      → write hash tmp now (r ∷ rs) dir ≡ stored tmp now r rs dir
  unfolding write
  write-stored tmp now r rs dir =
      let (op, during) = put hash tmp r.resource_name now dir in
      ap (λ (x : PutOperation × ℕ). (finalize now x.0 during, some x.1))
        (write_requests-sent (r ∷ rs) op 0)
      ∙ ap (λ (n : ℕ). (finalize now (record op { written = sent (r ∷ rs) }) during, some n))
          (zero_plus (length (sent (r ∷ rs))))

  cache_info-first :
      (sort : List Entry → List Entry) (e : Entry) (dir : List Entry) (c : ℕ) (key : Text)
      (prefixes : List Text)
      → e.name ≡ blob_path hash (c ∷ key)
      → e.is_readable ≡ true
      → cache_info hash sort (c ∷ key) prefixes (e ∷ dir)
        ≡ info (c ∷ key) (length e.contents) (safe_mod_time e)
  unfolding cache_info open_file
  cache_info-first sort e dir c key prefixes named readable =
      rw (named, text_eq_refl (blob_path hash (c ∷ key)), readable) refl

-- After a stream of uploads under a key that is not empty, CacheInfo finds the blob of that key, whatever the
-- prefixes, with the number of bytes sent and the time of the upload, and the upload is told the same number.
pub cache_info-write :
    (hash : Text → Text) (sort : List Entry → List Entry) (tmp : Text) (now : ℕ) (r : WriteRequest)
    (rs : List WriteRequest) (dir : List Entry) (c : ℕ) (key : Text) (prefixes : List Text)
    → r.resource_name ≡ c ∷ key
    → (cache_info hash sort (c ∷ key) prefixes ((write hash tmp now (r ∷ rs) dir).0)
        ≡ info (c ∷ key) (length (sent (r ∷ rs))) now)
      × ((write hash tmp now (r ∷ rs) dir).1 ≡ some (length (sent (r ∷ rs))))
cache_info-write hash sort tmp now r rs dir c key prefixes e =
    let blob : Entry = record {
      name = blob_path hash r.resource_name;
      is_dir = false;
      mod_time = some now;
      is_readable = true;
      contents = sent (r ∷ rs);
    } in
    subst
      (λ w.
        (cache_info hash sort (c ∷ key) prefixes w.0 ≡ info (c ∷ key) (length (sent (r ∷ rs))) now)
        × (w.1 ≡ some (length (sent (r ∷ rs)))))
      (sym (write-stored hash tmp now r rs dir))
      (
        cache_info-first hash sort blob
            (remove (blob_path hash r.resource_name)
              (remove tmp (put hash tmp r.resource_name now dir).1))
            c key prefixes (ap (blob_path hash) e) refl,
        refl,
      )
