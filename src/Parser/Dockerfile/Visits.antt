-- ===== src/Parser/Dockerfile/Visits.antt =====
-- pkg/parser/dockerfile.go: find visits every file of a directory once.
use cirrus_cli.Prelude.{
  ℕ, zero, suc, ◌+◌, ◌≤◌, String, true, ◌&&◌, Option, some, List, [], ◌∷◌, ◌++◌, map, if◌then◌else◌,
  str_eq, ◌≡◌, refl, sym, ap, ◌∙◌, arith,
}
use cirrus_cli.Parser.Dockerfile.{names, not_directory, FileSystem, Found, call, find}

-- a file or a directory with what is in it, each with its path; a directory lists the names as well
mutual
  pub data Entry : Type 0 where
    file : String → String → Entry
    directory : String → List String → Entries → Entry

  pub data Entries : Type 0 where
    nothing : Entries
    also : Entry → Entries → Entries

abbrev pub path_of : Entry → String
path_of (file path contents) = path
path_of (directory path ns es) = path

abbrev pub paths_of : Entries → List String
paths_of nothing = []
paths_of (also e es) = path_of e ∷ paths_of es

abbrev both : Entries → Entries → Entries
both nothing fs = fs
both (also e es) fs = also e (both es fs)

-- how many files and directories there are
unfoldable mutual
  pub size : Entry → ℕ
  size (file path contents) = 1
  size (directory path ns es) = suc (sizes es)

  pub sizes : Entries → ℕ
  sizes nothing = 0
  sizes (also e es) = size e + sizes es

-- how often a file of that path and those contents is among them, and among the calls
module _ (path contents : String) where
  abbrev is_it : String → String → ℕ
  is_it p c = if str_eq p path && str_eq c contents then 1 else 0

  mutual
    pub count : Entry → ℕ
    count (file p c) = is_it p c
    count (directory p ns es) = counts es

    pub counts : Entries → ℕ
    counts nothing = 0
    counts (also e es) = count e + counts es

  unfoldable pub visits : List (String × String) → ℕ
  visits [] = 0
  visits ((p, c) ∷ calls) = is_it p c + visits calls

  counts-both : (es fs : Entries) → counts (both es fs) ≡ counts es + counts fs
  unfolding counts
  counts-both nothing fs = omega arith
  counts-both (also e es) fs = omega (arith, counts-both es fs)

sizes-both : (es fs : Entries) → sizes (both es fs) ≡ sizes es + sizes fs
unfolding sizes
sizes-both nothing fs = omega arith
sizes-both (also e es) fs = omega (arith, sizes-both es fs)

paths_of-both : (es fs : Entries) → paths_of (both es fs) ≡ paths_of es ++ paths_of fs
paths_of-both nothing fs = refl
paths_of-both (also e es) fs = ap (λ ps. path_of e ∷ ps) (paths_of-both es fs)

module _ (fs : FileSystem) where
  -- the file system has these files and directories
  unfoldable mutual
    pub IsStored : Entry → Type 0
    IsStored (file path contents) =
        (fs.read_dir path ≡ not_directory) × (fs.get path ≡ some contents)
    IsStored (directory path ns es) =
        (fs.read_dir path ≡ names ns) × (map (fs.join path) ns ≡ paths_of es) × AreStored es

    pub AreStored : Entries → Type 0
    AreStored nothing = Unit
    AreStored (also e es) = IsStored e × AreStored es

  AreStored-both : (es ds : Entries) → AreStored es → AreStored ds → AreStored (both es ds)
  unfolding AreStored
  AreStored-both nothing ds h g = g
  AreStored-both (also e es) ds (h, hs) g = (h, AreStored-both es ds hs g)

  find-file :
      (fuel : ℕ) (path contents : String) (todo : List String)
      → fs.read_dir path ≡ not_directory
      → fs.get path ≡ some contents
      → find fs (suc fuel) (path ∷ todo) ≡ call path contents (find fs fuel todo)
  unfolding find
  find-file fuel path contents todo r g = ground (arith, r, g)

  find-directory :
      (fuel : ℕ) (path : String) (ns todo : List String)
      → fs.read_dir path ≡ names ns
      → find fs (suc fuel) (path ∷ todo) ≡ find fs fuel (todo ++ map (fs.join path) ns)
  unfolding find
  find-directory fuel path ns todo r = ground (arith, r)

  abbrev pub Visited : Entries → Option Found → Type 0
  Visited es o =
      (calls : List (String × String)) × (o ≡ some (calls, true))
      × ((path contents : String) → visits path contents calls ≡ counts path contents es)

  -- If the file system has some files and directories, of which the latter may be nested, find of their
  -- paths ends without an error, within as many steps as there are files and directories, and
  -- calls back for each file as often as it is there.
  pub find-Visited :
      (fuel : ℕ) (es : Entries)
      → AreStored es
      → sizes es ≤ fuel
      → Visited es (find fs fuel (paths_of es))
  unfolding find AreStored sizes visits counts
  find-Visited fuel nothing h l = ([], refl, λ p c. refl)
  find-Visited zero (also (file path contents) es) h l = ground (arith, l)
  find-Visited zero (also (directory path ns ds) es) h l = ground (arith, l)
  find-Visited (suc fuel) (also (file path contents) es) ((r, g), h) l =
      let (calls, e, v) = find-Visited fuel es h (omega (arith, l)) in
      (
        (path, contents) ∷ calls,
        find-file fuel path contents (paths_of es) r g ∙ ap (call path contents) e,
        λ p c. omega (arith, v p c),
      )
  find-Visited (suc fuel) (also (directory path ns ds) es) ((r, g, d), h) l =
      let (calls, e, v) =
        find-Visited fuel (both es ds) (AreStored-both es ds h d)
          (omega (arith, l, sizes-both es ds)) in
      (
        calls,
        find-directory fuel path ns (paths_of es) r
            ∙ ap (λ ps. find fs fuel (paths_of es ++ ps)) g
            ∙ sym (ap (find fs fuel) (paths_of-both es ds))
            ∙ e,
        λ p c. omega (arith, v p c, counts-both p c es ds),
      )
