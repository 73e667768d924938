-- ===== src/Executor/Artifacts.antt =====
-- internal/executor/rpc/artifacts.go and internal/executor/pathsafe: the upload of artifacts into files below a
-- directory. filepath.Join enters as an argument, as do the letters and numbers of Unicode; the
-- file system is an association list from paths to contents, and each call on it answers true where it succeeds.
pub mod Whole
use cirrus_cli.Prelude.{
  ℕ, Bool, true, false, not, ◌&&◌, ◌||◌, Option, none, some, List, [], ◌∷◌, ◌++◌, ◌==◌,
  if◌then◌else◌, Text, text_eq,
}

-- IsPathSafe on a Unix system, where a colon is allowed
unfoldable pub all_safe : (ℕ → Bool) → Text → Bool
all_safe is_letter_or_number [] = true
all_safe is_letter_or_number (c ∷ s) =
    let rest = all_safe is_letter_or_number s in
    if is_letter_or_number c || c == b'_' || c == b'-' || c == b' ' || c == b':'
    then rest
    else false

unfoldable pub is_path_safe : (ℕ → Bool) → Text → Bool
unfolding all_safe
is_path_safe is_letter_or_number [] = false
is_path_safe is_letter_or_number (c ∷ s) = all_safe is_letter_or_number (c ∷ s)

abbrev pub Files : Type 0
Files = List (Text × Text)

-- the contents of a file
unfoldable pub contents : Text → Files → Option Text
contents path [] = none
contents path ((p, s) ∷ files) = if text_eq p path then some s else contents path files

-- os.OpenFile with O_CREATE and O_TRUNC
unfoldable pub truncate : Text → Files → Files
truncate path files = (path, []) ∷ files

-- Write to a file that was opened with O_APPEND
unfoldable pub append_data : Text → Text → Files → Files
append_data path b [] = (path, b) ∷ []
append_data path b ((p, s) ∷ files) =
    let rest = append_data path b files in
    if text_eq p path then (p, s ++ b) ∷ files else (p, s) ∷ rest

-- ArtifactWriter, with the file system; `is_open` says whether currentFile is not nil
pub record Writer : Type 0 where
  pub base_dir : Text
  pub current_path : Text
  pub is_open : Bool
  pub files : Files

-- NewArtifactWriter
abbrev pub new_writer : Text → Files → Writer
new_writer base_dir files = record {
  base_dir = base_dir;
  current_path = [];
  is_open = false;
  files = files;
}

-- what the calls of WriteTo answer
pub record Answers : Type 0 where
  pub closed : Bool
  pub made : Bool
  pub opened : Bool
  pub written : Bool

-- an entry of the stream, or the error of Recv
pub data Entry : Type 0 where
  artifacts_upload : Text → Entry
  chunk : Text → Text → Answers → Entry
  receive_error : Entry

-- the write at the end of WriteTo; of a file that is nil it is an error
unfoldable pub write_data : Text → Answers → Writer → Writer × Bool
unfolding append_data
write_data b a w =
    if w.is_open && a.written
    then (record w { files = append_data w.current_path b w.files }, true)
    else (w, false)

-- the switch of WriteTo to another file
unfoldable pub switch_to : Text → Answers → Writer → Writer × Bool
unfolding truncate
switch_to path a w =
    if w.is_open && not a.closed || not a.made
    then (w, false)
    else (if a.opened
        then (record w { current_path = path; is_open = true; files = truncate path w.files }, true)
        else (record w { is_open = false }, false))

module _ (join : Text → Text → Text) where
  -- WriteTo; the Boolean is false where it returns an error
  unfoldable pub write_to : Text → Text → Answers → Writer → Writer × Bool
  unfolding write_data switch_to
  write_to name b a w =
      let path = join w.base_dir name in
      if text_eq w.current_path path
      then write_data b a w
      else let (v, ok) = switch_to path a w in if ok then write_data b a v else (v, false)

  module _ (is_letter_or_number : ℕ → Bool) where
    -- the loop of UploadArtifacts, with currentArtifactName
    unfoldable pub upload_loop : Text → List Entry → Writer → Writer × Bool
    unfolding write_to is_path_safe
    upload_loop name [] w = (w, true)
    upload_loop name (receive_error ∷ es) w = (w, false)
    upload_loop name (artifacts_upload n ∷ es) w = upload_loop n es w
    upload_loop name (chunk path b a ∷ es) w =
        if is_path_safe is_letter_or_number name
        then (let (v, ok) = write_to (join name path) b a w in
            if ok then upload_loop name es v else (v, false))
        else upload_loop name es w
