-- ===== src/Parser/Dockerfile.antt =====
-- pkg/parser/dockerfile.go: the hash of a Dockerfile with its arguments and the files that it copies. The file
-- system, the sums of MD5 and SHA-256 over a text, and LocalContextSourcePaths, none where it
-- fails, enter as arguments.
pub mod Visits
use Prim.Native.String.{◌++◌ as joined}
use cirrus_cli.Prelude.{
  ℕ, zero, suc, String, Bool, true, false, not, ◌&&◌, Option, none, some, List, [], ◌∷◌, ◌++◌, map,
  if◌then◌else◌, str_eq,
}
use cirrus_cli.Parser.Services.{Strings, sort_strings, joined_all}

-- what ReadDir returns: the names, syscall.ENOTDIR, or another error
pub data Read : Type 0 where
  names : List String → Read
  not_directory : Read
  read_failed : Read

pub record FileSystem : Type 0 where
  pub read_dir : String → Read
  pub get : String → Option String
  pub join : String → String → String

-- the callback of find: the files with their contents, in the order of the calls, and whether
-- find returned no error
abbrev pub Found : Type 0
Found = List (String × String) × Bool

abbrev pub call : String → String → Option Found → Option Found
call path contents none = none
call path contents (some (calls, ok)) = some ((path, contents) ∷ calls, ok)

module _ (fs : FileSystem) where
  -- find, over the queue `todo`; none when the fuel runs out
  unfoldable pub find : ℕ → List String → Option Found
  find fuel [] = some ([], true)
  find zero (path ∷ todo) = none
  find (suc fuel) (path ∷ todo) = elim (fs.read_dir path) [
    | read_failed ↦ some ([], false)
    | names ns ↦ find fuel (todo ++ map (fs.join path) ns)
    | not_directory ↦ elim (fs.get path) [
      | none ↦ some ([], false)
      | some contents ↦ call path contents (find fuel todo)
    ]
  ]

-- strings.Join with a comma and a space
unfoldable pub comma_separated : List String → String
comma_separated [] = ""
comma_separated (s ∷ []) = s
comma_separated (s ∷ t ∷ ts) = joined s (joined ", " (comma_separated (t ∷ ts)))

-- dockerArgumentsToString
unfoldable pub docker_arguments_to_string : Strings → String
unfolding comma_separated sort_strings
docker_arguments_to_string arguments =
    comma_separated (sort_strings (map (λ (a : String × String). joined a.0 a.1) arguments))

-- what both hashes are given first
unfoldable pub shallow : String → Strings → String → String
unfolding docker_arguments_to_string joined_all
shallow contents arguments arch = joined_all (
    contents
    ∷ docker_arguments_to_string arguments
    ∷ (if not (str_eq arch "") && not (str_eq arch "amd64") then arch else "")
    ∷ [])

unfoldable pub contents_of : List (String × String) → List String
contents_of [] = []
contents_of ((path, contents) ∷ calls) = contents ∷ contents_of calls

module _ (fs : FileSystem) (fuel : ℕ) where
  -- the loop over the paths that the Dockerfile copies: what the new hash is given; files found before
  -- an error count
  unfoldable pub sources : String → List String → Option (List String)
  unfolding find contents_of
  sources context [] = some []
  sources context (path ∷ paths) =
      let rest = sources context paths in
      elim (find fs fuel ((if str_eq context "" then path else fs.join context path) ∷ [])) [
        | none ↦ none
        | some found ↦ elim rest [ none ↦ none | some cs ↦ some (contents_of found.0 ++ cs) ]
      ]

  module _ (md5 sha256 : String → String)
      (source_paths : String → Strings → Option (List String)) where
    -- the hash by what was found: the old one where there was nothing
    unfoldable pub chosen_hash : String → Option (List String) → Option String
    unfolding joined_all
    chosen_hash start none = none
    chosen_hash start (some []) = some (md5 start)
    chosen_hash start (some (c ∷ cs)) = some (sha256 (joined start (joined_all (c ∷ cs))))

    -- calculateDockerfileHash of contents that were retrieved; none when the fuel runs out
    unfoldable pub calculate_dockerfile_hash : String → Strings → String → String → Option String
    unfolding sources chosen_hash shallow
    calculate_dockerfile_hash contents arguments context arch =
        elim (source_paths contents arguments) [
          | none ↦ some (md5 (shallow contents arguments arch))
          | some paths ↦ chosen_hash (shallow contents arguments arch) (sources context paths)
        ]
