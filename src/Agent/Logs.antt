-- ===== src/Agent/Logs.antt =====
-- internal/agent/executor/logs.go: the bytes of a command's log on their way to the server. The clients, the
-- file of the stored output and the clock are outside; a timestamp is an argument.
pub mod Stamped
pub mod Masked
use cirrus_cli.Prelude.{
  ℕ, zero, suc, ◌+◌, ◌-◌, ◌<◌, Bool, true, false, Option, none, some, List, [], ◌∷◌, ◌++◌, length,
  ltb, ◌==◌, if◌then◌else◌, Text, has_prefix,
}

abbrev pub newline : ℕ
newline = 10

-- bytes.Count of newlines
unfoldable pub count_newlines : Text → ℕ
count_newlines [] = 0
count_newlines (c ∷ s) = (if c == newline then 1 else 0) + count_newlines s

-- bytes.HasSuffix of a newline
unfoldable pub ends_in_newline : Text → Bool
ends_in_newline [] = false
ends_in_newline (c ∷ []) = c == newline
ends_in_newline (c ∷ d ∷ s) = ends_in_newline (d ∷ s)

-- bytes.Replace of the first n newlines, by a newline with the prefix behind it
unfoldable pub replace_newlines : Text → ℕ → Text → Text
replace_newlines prefix n [] = []
replace_newlines prefix zero (c ∷ s) = c ∷ s
replace_newlines prefix (suc n) (c ∷ s) = elim (c == newline) [
  | true ↦ c ∷ (prefix ++ replace_newlines prefix n s)
  | false ↦ c ∷ replace_newlines prefix (suc n) s
]

-- WithTimestamps, with OweTimestamp before and after
unfoldable pub with_timestamps : Text → Text → Bool → Text × Bool
unfolding replace_newlines count_newlines ends_in_newline
with_timestamps prefix input owe =
    let ends = ends_in_newline input in
    let n = if ends then count_newlines input - 1 else count_newlines input in
    ((if owe then prefix else []) ++ replace_newlines prefix n input, ends)

-- LogUploader, with the fields that Write uses; the channel holds the chunks that are not read yet
pub record LogUploader : Type 0 where
  pub log_timestamps : Bool
  pub owe_timestamp : Bool
  pub closed : Bool
  pub logs_channel : List Text

-- Write; it answers with the length of the bytes
unfoldable pub write : Text → Text → LogUploader → LogUploader × ℕ
unfolding with_timestamps
write prefix [] u = (u, 0)
write prefix (c ∷ s) u =
    let stamped = with_timestamps prefix (c ∷ s) u.owe_timestamp in
    let bytes = if u.log_timestamps then stamped.0 else c ∷ s in
    (
      record u {
        owe_timestamp = if u.log_timestamps then stamped.1 else u.owe_timestamp;
        logs_channel = if u.closed then u.logs_channel else u.logs_channel ++ bytes ∷ [];
      },
      length (c ∷ s),
    )

-- the loop of ReadAvailableChunks over the chunks that are there, with what was read so far: what it
-- returns, and the chunks left; `closed` says that the channel is closed behind them
unfoldable pub read_chunks : ℕ → Bool → Text → List Text → (Text × Bool) × List Text
read_chunks max closed result [] = ((result, closed), [])
read_chunks max closed result (b ∷ bs) =
    let rest = read_chunks max closed (result ++ b) bs in
    if ltb max (length (result ++ b)) then ((result ++ b, false), bs) else rest

-- maxBytesPerInvocation
abbrev pub max_bytes_per_invocation : ℕ
max_bytes_per_invocation = 1048576

-- ReadAvailableChunks, from its first receive on; a closed and empty channel gives nil at once, and is
-- reported as finished only by the receive behind that
unfoldable pub read_available_chunks : Bool → List Text → (Text × Bool) × List Text
unfolding read_chunks
read_available_chunks closed [] = (([], closed), [])
read_available_chunks closed (b ∷ bs) = read_chunks max_bytes_per_invocation closed b bs

-- "HIDDEN-BY-CIRRUS-CI"
abbrev pub hidden : Text
hidden =
    b'H' ∷ b'I' ∷ b'D' ∷ b'D' ∷ b'E' ∷ b'N' ∷ b'-' ∷ b'B' ∷ b'Y' ∷ b'-' ∷ b'C' ∷ b'I' ∷ b'R' ∷ b'R'
    ∷ b'U' ∷ b'S' ∷ b'-' ∷ b'C' ∷ b'I' ∷ []

-- bytes.Replace of all occurrences of a text that is not empty, from the left; `skip` counts the bytes of
-- an occurrence that are still to be left out
unfoldable pub replace_all : Text → ℕ → Text → Text
replace_all old skip [] = []
replace_all old (suc skip) (c ∷ s) = replace_all old skip s
replace_all old zero (c ∷ s) = elim (has_prefix (c ∷ s) old) [
  | true ↦ hidden ++ replace_all old (length old - 1) s
  | false ↦ c ∷ replace_all old zero s
]

-- the loop of WriteChunk over the sensitive values
unfoldable pub mask : List Text → Text → Text
unfolding replace_all
mask [] bytes = bytes
mask (v ∷ vs) bytes = mask vs (replace_all v 0 bytes)

-- WriteChunk: the bytes that are stored and sent, if any
unfoldable pub write_chunk : List Text → Text → Option Text
unfolding mask
write_chunk values [] = none
write_chunk values (c ∷ s) = some (mask values (c ∷ s))
