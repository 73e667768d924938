-- ===== src/Executor/BlobCache/Stored.antt =====
-- What an upload leaves of the other blobs.
use cirrus_cli.Prelude.{
  ℕ, ◌≡◌, refl, sym, ap, ◌∙◌, ◌≢◌, true, false, List, [], ◌∷◌, Text, text_eq, text_eq-true, arith,
  Bool-cases, inl, inr,
}
use cirrus_cli.Executor.BlobCache.{
  Entry, contains_unsafe_char, open_file, remove, finalize, blob_path, get, put,
}

text_eq-false : (s t : Text) → s ≢ t → text_eq s t ≡ false
text_eq-false s t h = elim (Bool-cases (text_eq s t)) [
  | inl e ↦ absurd (h (text_eq-true s t e))
  | inr e ↦ e
]

open_file-other :
    (name : Text) (e : Entry) (dir : List Entry)
    → e.name ≢ name
    → open_file name (e ∷ dir) ≡ open_file name dir
unfolding open_file
open_file-other name e dir h = rw (text_eq-false e.name name h) refl

open_file-remove :
    (name other : Text) (dir : List Entry)
    → other ≢ name
    → open_file name (remove other dir) ≡ open_file name dir
unfolding open_file remove
open_file-remove name other [] h = refl
open_file-remove name other (e ∷ dir) h =
    let rest = open_file-remove name other dir h in
    elim (Bool-cases (text_eq e.name other)) [
      | inl d ↦ rw (d) (
          rest
          ∙ sym (open_file-other name e dir (λ same. h (sym (text_eq-true e.name other d) ∙ same))))
      | inr d ↦
          rw (d)
            (elim (Bool-cases (text_eq e.name name)) [ inl b ↦ rw (b) refl | inr b ↦ rw (b) rest ])
    ]

module _ (hash : Text → Text) (is_hex : (s : Text) → contains_unsafe_char (hash s) ≡ false) where
  blob_path-safe : (key : Text) → contains_unsafe_char (blob_path hash key) ≡ false
  blob_path-safe [] = is_hex []
  blob_path-safe (c ∷ key) = elim (Bool-cases (contains_unsafe_char (c ∷ key))) [
    | inl e ↦ rw (e) (is_hex (c ∷ key))
    | inr e ↦ rw (e) e
  ]

  differs : (tmp key : Text) → contains_unsafe_char tmp ≡ true → tmp ≢ blob_path hash key
  differs tmp key h e = ground (arith, h, blob_path-safe key, ap contains_unsafe_char e)

  -- An upload of a blob, whose temporary file has a name with a character that is not safe, changes nothing that
  -- Get finds before it is finalized, its own key included, and then nothing that Get finds under a key of
  -- another path, when hashes are made of safe characters.
  pub get-put :
      (tmp key : Text) (now later : ℕ) (written : Text) (dir : List Entry) (other : Text)
      → contains_unsafe_char tmp ≡ true
      → blob_path hash key ≢ blob_path hash other
      → (get hash key (put hash tmp key now dir).1 ≡ get hash key dir)
        × (get hash other (put hash tmp key now dir).1 ≡ get hash other dir)
        × (get hash other (
              finalize later
                (record ((put hash tmp key now dir).0) { written = written })
                (put hash tmp key now dir).1)
            ≡ get hash other dir)
  get-put tmp key now later written dir other h differ =
      let during = (put hash tmp key now dir).1 in
      let final = blob_path hash key in
      let name = blob_path hash other in
      (
        hidden final (differs tmp key h),
        hidden name (differs tmp other h),
        open_file-other name _ (remove final (remove tmp during)) differ
            ∙ open_file-remove name final (remove tmp during) differ
            ∙ open_file-remove name tmp during (differs tmp other h)
            ∙ hidden name (differs tmp other h),
      )
    where
      hidden :
          (name : Text)
          → tmp ≢ name
          → open_file name (put hash tmp key now dir).1 ≡ open_file name dir
      hidden name d = open_file-other name _ dir d
