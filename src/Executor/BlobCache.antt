-- ===== src/Executor/BlobCache.antt =====
-- internal/executor/cache (cache.go, putop.go): blobs in files of one directory. SHA-256, the name of a temporary
-- file and the order that sort.Slice makes are arguments. That the directory cannot be read, or that a file cannot
-- be made, written or renamed, is left out.
pub mod Stored
pub mod Oldest
pub mod Calls
use cirrus_cli.Prelude.{
  ℕ, suc, ◌+◌, Bool, true, false, not, ◌&&◌, ◌||◌, Option, none, some, List, [], ◌∷◌, ◌++◌, length,
  leb, ◌==◌, if◌then◌else◌, Text, text_eq, has_prefix,
}

-- os.DirEntry, with what its file holds; Info may fail, and so may opening the file
pub record Entry : Type 0 where
  pub name : Text
  pub is_dir : Bool
  pub mod_time : Option ℕ
  pub is_readable : Bool
  pub contents : Text

-- the files returned, ErrBlobNotFound and ErrInternal
pub data Found : Type 0 where
  file : Entry → Found
  blob_not_found internal : Found

-- SafeModTime
abbrev pub safe_mod_time : Entry → ℕ
safe_mod_time e = elim (e.mod_time) [ none ↦ 0 | some t ↦ t ]

abbrev is_between : ℕ → ℕ → ℕ → Bool
is_between low high c = leb low c && leb c high

-- isSafeChar
abbrev pub is_safe_char : ℕ → Bool
is_safe_char c =
    is_between b'0' b'9' c
    || is_between b'a' b'z' c
    || is_between b'A' b'Z' c
    || c == b'-'
    || c == b'_'

-- strings.IndexFunc of an unsafe character, compared with -1
unfoldable pub contains_unsafe_char : Text → Bool
contains_unsafe_char [] = false
contains_unsafe_char (c ∷ s) = if is_safe_char c then contains_unsafe_char s else true

-- needsSanitization
abbrev pub needs_sanitization : Text → Bool
needs_sanitization [] = true
needs_sanitization (c ∷ s) = contains_unsafe_char (c ∷ s)

-- os.OpenFile in the directory
abbrev pub open_entry : Entry → Found
open_entry e = if e.is_readable then file e else internal

unfoldable pub open_file : Text → List Entry → Found
open_file name [] = blob_not_found
open_file name (e ∷ dir) = if text_eq e.name name then open_entry e else open_file name dir

-- the loop of FindByPrefix
unfoldable pub first_with_prefix : Text → List Entry → Found
first_with_prefix prefix [] = blob_not_found
first_with_prefix prefix (e ∷ es) =
    if not e.is_dir && has_prefix e.name prefix then open_entry e else first_with_prefix prefix es

-- FindByPrefix, once the directory is read
abbrev pub find_by_prefix : (List Entry → List Entry) → Text → List Entry → Found
find_by_prefix sort prefix dir = first_with_prefix prefix (sort dir)

-- os.Remove, and what a rename takes away
unfoldable pub remove : Text → List Entry → List Entry
remove name [] = []
remove name (e ∷ dir) = if text_eq e.name name then remove name dir else e ∷ remove name dir

-- PutOperation; the bytes are in the writer's buffer or in the temporary file
pub record PutOperation : Type 0 where
  pub tmp_name : Text
  pub written : Text
  pub final_name : Text

-- PutOperation.Write
abbrev pub write_blob : Text → PutOperation → PutOperation
write_blob b op = record op { written = op.written ++ b }

-- Finalize, at a time: the temporary file takes the place of the blob
abbrev pub finalize : ℕ → PutOperation → List Entry → List Entry
finalize now op dir =
    (record {
      name = op.final_name;
      is_dir = false;
      mod_time = some now;
      is_readable = true;
      contents = op.written;
    })
    ∷ remove op.final_name (remove op.tmp_name dir)

module _ (hash : Text → Text) where
  -- blobPath, in the namespace's directory
  abbrev pub blob_path : Text → Text
  blob_path key = if needs_sanitization key then hash key else key

  -- Get
  abbrev pub get : Text → List Entry → Found
  get key dir = open_file (blob_path key) dir

  -- Put: the operation, and the directory with the temporary file
  abbrev pub put : Text → Text → ℕ → List Entry → PutOperation × List Entry
  put tmp key now dir = (
    record { tmp_name = tmp; written = []; final_name = blob_path key },
    (record { name = tmp; is_dir = false; mod_time = some now; is_readable = true; contents = [] })
        ∷ dir,
  )

  -- Delete
  abbrev pub delete : Text → List Entry → List Entry
  delete key dir = remove (blob_path key) dir
