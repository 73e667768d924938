-- ===== src/Agent/Shellwords.antt =====
-- internal/agent/shellwords/shellwords.go: ToArgv over the bytes of its argument.
pub mod RoundTrip
use cirrus_cli.Prelude.{
  ℕ, Bool, true, false, ◌&&◌, ◌||◌, not, List, [], ◌∷◌, ◌++◌, ◌==◌, if◌then◌else◌, Outcome, returns,
  panics,
}

pub data Mode : Type 0 where
  in_arg in_arg_quote out_of_arg : Mode

-- the variables of ToArgv: currentState, currentQuoteChar, currentArg and argv
pub record Lexer : Type 0 where
  pub mode : Mode
  pub quote_char : ℕ
  pub arg : List ℕ
  pub argv : List (List ℕ)

abbrev pub start : Lexer
start = record { mode = out_of_arg; quote_char = 0; arg = []; argv = [] }

abbrev pub is_quote : ℕ → Bool
is_quote c = c == b'"' || c == 39

abbrev pub is_escape : ℕ → Bool
is_escape c = c == 92

abbrev pub is_whitespace : ℕ → Bool
is_whitespace c = c == b' ' || c == 9

-- currentArg += c
abbrev pub push : ℕ → Lexer → Lexer
push c s = record s { arg = s.arg ++ c ∷ [] }

abbrev pub on_quote : ℕ → Lexer → Lexer
on_quote c s = elim s.mode [
  | out_of_arg ↦ record s { arg = []; mode = in_arg_quote; quote_char = c }
  | in_arg ↦ record s { mode = in_arg_quote; quote_char = c }
  | in_arg_quote ↦ if c == s.quote_char then record s { mode = in_arg } else push c s
]

abbrev pub on_whitespace : ℕ → Lexer → Lexer
on_whitespace c s = elim s.mode [
  | in_arg ↦ record s { argv = s.argv ++ s.arg ∷ []; mode = out_of_arg }
  | in_arg_quote ↦ push c s
  | out_of_arg ↦ s
]

abbrev pub on_other : ℕ → Lexer → Lexer
on_other c s = elim s.mode [ out_of_arg ↦ record s { arg = c ∷ []; mode = in_arg } | _ ↦ push c s ]

-- a byte that is no escape
abbrev pub plain : ℕ → Lexer → Lexer
plain c s =
    if is_quote c then on_quote c s else if is_whitespace c then on_whitespace c s else on_other c s

-- an escape outside of an argument begins one
abbrev pub open_arg : Lexer → Lexer
open_arg s = elim s.mode [ out_of_arg ↦ record s { arg = []; mode = in_arg } | _ ↦ s ]

-- The loop over the bytes. Elsewhere than on Windows an escape takes the next byte as it is, and
-- panics if there is none; on Windows it stands for itself, unless a double quote follows.
unfoldable pub scan : Bool → List ℕ → Lexer → Outcome Lexer
scan windows [] s = returns s
scan windows (c ∷ []) s = elim (is_escape c) [
  | false ↦ returns (plain c s)
  | true ↦ elim windows [ true ↦ returns (push c (open_arg s)) | false ↦ panics ]
]
scan windows (c ∷ d ∷ rest) s = elim (is_escape c) [
  | false ↦ scan windows (d ∷ rest) (plain c s)
  | true ↦ elim windows [
    | true ↦ scan windows (d ∷ rest) (if d == b'"' then open_arg s else push c (open_arg s))
    | false ↦ scan windows rest (push d (open_arg s))
  ]
]

-- what follows the loop
abbrev pub finish : Lexer → Outcome (List (List ℕ))
finish s = elim s.mode [
  | in_arg ↦ returns (s.argv ++ s.arg ∷ [])
  | in_arg_quote ↦ panics
  | out_of_arg ↦ returns s.argv
]

-- ToArgv; `windows` is the test on runtime.GOOS
unfoldable pub to_argv : Bool → List ℕ → Outcome (List (List ℕ))
unfolding scan
to_argv windows s = elim (scan windows s start) [ returns l ↦ finish l | panics ↦ panics ]
