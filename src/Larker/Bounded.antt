-- ===== src/Larker/Bounded.antt =====
-- pkg/larker/fs/git/bounded/bounded.go: a file system that counts files and bytes against its limits.
-- The file system behind it is go-billy's memfs, which is not of the repository: whether a call of it
-- succeeds, and how much it writes, are arguments.
pub mod Limits
use cirrus_cli.Prelude.{ℕ, ◌+◌, Bool, true, false, ◌&&◌, List, [], ◌∷◌, ltb, if◌then◌else◌}

-- FileSystem
pub record FileSystem : Type 0 where
  pub max_files : ℕ
  pub max_bytes : ℕ
  pub files_created : ℕ
  pub bytes_written : ℕ

-- NewFilesystem
unfoldable pub new_filesystem : ℕ → ℕ → FileSystem
new_filesystem max_bytes max_files = record {
  max_files = max_files;
  max_bytes = max_bytes;
  files_created = 0;
  bytes_written = 0;
}

-- what a call returns: nil, an error of the file system behind, or ErrExhausted
pub data Reply : Type 0 where
  done backend_error exhausted : Reply

-- moreFiles: whether it returns nil
abbrev pub more_files : ℕ → FileSystem → Bool
more_files n b = if ltb b.max_files (b.files_created + n) then false else true

-- moreBytes: whether it returns nil
abbrev pub more_bytes : ℕ → FileSystem → Bool
more_bytes n b = if ltb b.max_bytes (b.bytes_written + n) then false else true

abbrev reply_of : Bool → Reply
reply_of true = done
reply_of false = backend_error

-- OpenFile; `creates` is the test on O_CREATE, `succeeds` whether the file system behind opens the file
unfoldable pub open_file : Bool → Bool → FileSystem → FileSystem × Reply
open_file creates succeeds b =
    if more_files 1 b
    then (
      if succeeds && creates then record b { files_created = b.files_created + 1 } else b,
      reply_of succeeds,
    )
    else (b, exhausted)

-- Create: OpenFile with O_RDWR, O_CREATE and O_TRUNC
abbrev pub create : Bool → FileSystem → FileSystem × Reply
create = open_file true

-- Open: OpenFile with O_RDONLY
abbrev pub open_existing : Bool → FileSystem → FileSystem × Reply
open_existing = open_file false

-- MkdirAll
unfoldable pub mkdir_all : Bool → FileSystem → FileSystem × Reply
mkdir_all succeeds b =
    if more_files 1 b
    then (
      if succeeds then record b { files_created = b.files_created + 1 } else b,
      reply_of succeeds,
    )
    else (b, exhausted)

-- File.Write of `len` bytes, of which the file behind writes `n`
unfoldable pub write : ℕ → ℕ → Bool → FileSystem → FileSystem × Reply
write len n succeeds b =
    if more_bytes len b
    then (
      if succeeds then record b { bytes_written = b.bytes_written + n } else b,
      reply_of succeeds,
    )
    else (b, exhausted)

-- a call by the script, with what the file system behind answers
pub data Call : Type 0 where
  opens : Bool → Bool → Call
  makes_dir : Bool → Call
  writes : ℕ → ℕ → Bool → Call

unfoldable pub call : Call → FileSystem → FileSystem × Reply
unfolding open_file mkdir_all write
call (opens creates succeeds) b = open_file creates succeeds b
call (makes_dir succeeds) b = mkdir_all succeeds b
call (writes len n succeeds) b = write len n succeeds b

unfoldable pub calls : List Call → FileSystem → FileSystem
unfolding call
calls [] b = b
calls (c ∷ cs) b = calls cs (call c b).0
