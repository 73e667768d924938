-- ===== src/Larker/Bounded/Limits.antt =====
-- The counters never pass the limits, and a call that would pass one changes nothing.
use cirrus_cli.Prelude.{ℕ, ◌+◌, ◌≤◌, ◌<◌, Bool, ◌≡◌, refl, ◌↔◌, ◌∙◌, List, [], ◌∷◌, All, arith}
use cirrus_cli.Larker.Bounded.{
  FileSystem, new_filesystem, exhausted, open_file, mkdir_all, write, Call, opens, makes_dir,
  writes, call, calls,
}

pub record IsWithin (b : FileSystem) : Type 0 where
  pub files : b.files_created ≤ b.max_files
  pub bytes : b.bytes_written ≤ b.max_bytes

-- io.Writer's contract: a write reports no more bytes than it was given
abbrev pub IsHonest : Call → Type 0
IsHonest (writes len n _) = n ≤ len
IsHonest _ = Unit

call-IsWithin : (c : Call) (b : FileSystem) → IsHonest c → IsWithin b → IsWithin (call c b).0
unfolding call
call-IsWithin (opens creates succeeds) b h w = ground arith
call-IsWithin (makes_dir succeeds) b h w = ground arith
call-IsWithin (writes len n succeeds) b h w = ground arith

call-limits :
    (c : Call) (b : FileSystem)
    → ((call c b).0.max_files ≡ b.max_files) × ((call c b).0.max_bytes ≡ b.max_bytes)
unfolding call
call-limits (opens creates succeeds) b = ground arith
call-limits (makes_dir succeeds) b = ground arith
call-limits (writes len n succeeds) b = ground arith

calls-IsWithin :
    (cs : List Call) (b : FileSystem)
    → All IsHonest cs
    → IsWithin b
    → IsWithin (calls cs b)
      × ((calls cs b).max_files ≡ b.max_files)
      × ((calls cs b).max_bytes ≡ b.max_bytes)
unfolding calls
calls-IsWithin [] b h w = (w, refl, refl)
calls-IsWithin (c ∷ cs) b h w =
    let (within, f, n) = calls-IsWithin cs (call c b).0 h.1 (call-IsWithin c b h.0 w) in
    (within, f ∙ (call-limits c b).0, n ∙ (call-limits c b).1)

-- Whatever a script calls on a new file system, and whatever the file system behind answers, as long as
-- it reports no more bytes written than it was given, the counts of created files and of written bytes
-- stay within the limits.
pub calls_bounded :
    (max_bytes max_files : ℕ) (cs : List Call)
    → All IsHonest cs
    → ((calls cs (new_filesystem max_bytes max_files)).files_created ≤ max_files)
      × ((calls cs (new_filesystem max_bytes max_files)).bytes_written ≤ max_bytes)
unfolding new_filesystem
calls_bounded max_bytes max_files cs h =
    let (w, f, n) =
      calls-IsWithin cs (new_filesystem max_bytes max_files) h
        (record { files = omega arith; bytes = omega arith }) in
    (omega (arith, w.files, f), omega (arith, w.bytes, n))

-- Opening is refused exactly when the files created have reached the limit, also where the file is not
-- created; a write is refused exactly when it could pass the limit on bytes. What is refused changes
-- nothing.
pub exhausted_iff :
    (b : FileSystem) (creates succeeds : Bool) (len n : ℕ)
    → ((open_file creates succeeds b ≡ (b, exhausted)) ↔ (b.max_files ≤ b.files_created))
      × ((mkdir_all succeeds b ≡ (b, exhausted)) ↔ (b.max_files ≤ b.files_created))
      × ((write len n succeeds b ≡ (b, exhausted)) ↔ (b.max_bytes < b.bytes_written + len))
unfolding open_file mkdir_all write
exhausted_iff b creates succeeds len n = ground arith
