-- ===== src/Agent/Shellwords/RoundTrip.antt =====
-- Words that are written between double quotes come back from ToArgv.
use cirrus_cli.Prelude.{
  ℕ, true, false, ◌||◌, ◌≡◌, refl, ap, ◌∙◌, List, [], ◌∷◌, ◌++◌, append_assoc, append-nil, ◌==◌,
  if◌then◌else◌, Outcome, returns, panics, Bool-cases, inl, inr, arith,
}
use cirrus_cli.Agent.Shellwords.{
  in_arg, in_arg_quote, out_of_arg, Lexer, is_escape, push, plain, open_arg, scan, finish, to_argv,
}

-- a backslash before each double quote and each backslash
unfoldable pub escape : List ℕ → List ℕ
escape [] = []
escape (c ∷ w) = let rest = escape w in if c == b'"' || c == 92 then 92 ∷ c ∷ rest else c ∷ rest

-- each word between double quotes, with a space between two words
unfoldable pub quote : List (List ℕ) → List ℕ
quote [] = []
quote (w ∷ []) = b'"' ∷ escape w ++ b'"' ∷ []
quote (w ∷ v ∷ ws) = b'"' ∷ escape w ++ b'"' ∷ b' ' ∷ quote (v ∷ ws)

scan-plain :
    (c : ℕ) (rest : List ℕ) (s : Lexer)
    → is_escape c ≡ false
    → scan false (c ∷ rest) s ≡ scan false rest (plain c s)
unfolding scan
scan-plain c [] s e = ground arith
scan-plain c (d ∷ rest) s e = ground arith

scan-escape :
    (c d : ℕ) (rest : List ℕ) (s : Lexer)
    → is_escape c ≡ true
    → scan false (c ∷ d ∷ rest) s ≡ scan false rest (push d (open_arg s))
unfolding scan
scan-escape c d rest s e = ground arith

-- the lexer inside of double quotes
abbrev quoted : List ℕ → List (List ℕ) → Lexer
quoted arg argv = record { mode = in_arg_quote; quote_char = b'"'; arg = arg; argv = argv }

abbrev unquoted : List ℕ → List (List ℕ) → Lexer
unquoted arg argv = record (quoted arg argv) { mode = in_arg }

plain-quoted :
    (c : ℕ) (arg : List ℕ) (argv : List (List ℕ))
    → (c == b'"' || c == 92) ≡ false
    → plain c (quoted arg argv) ≡ quoted (arg ++ c ∷ []) argv
plain-quoted c arg argv e = ground arith

scan-escape_word :
    (w rest arg : List ℕ) (argv : List (List ℕ))
    → scan false (escape w ++ b'"' ∷ rest) (quoted arg argv)
      ≡ scan false rest (unquoted (arg ++ w) argv)
unfolding escape
scan-escape_word [] rest arg argv = rw append-nil (scan-plain b'"' rest (quoted arg argv) refl)
scan-escape_word (c ∷ w) rest arg argv = elim (Bool-cases (c == b'"' || c == 92)) [
  | inl e ↦
      rw (e, ← append_assoc arg (c ∷ []) w)
        (scan-escape 92 c (escape w ++ b'"' ∷ rest) (quoted arg argv) refl
          ∙ scan-escape_word w rest (arg ++ c ∷ []) argv)
  | inr e ↦
      rw (e, ← append_assoc arg (c ∷ []) w)
        (scan-plain c (escape w ++ b'"' ∷ rest) (quoted arg argv) (ground arith)
          ∙ ap (scan false (escape w ++ b'"' ∷ rest)) (plain-quoted c arg argv e)
          ∙ scan-escape_word w rest (arg ++ c ∷ []) argv)
]

-- the lexer outside of an argument, with what the last argument left behind
abbrev outside : ℕ → List ℕ → List (List ℕ) → Lexer
outside q arg argv = record { mode = out_of_arg; quote_char = q; arg = arg; argv = argv }

abbrev complete : Outcome Lexer → Outcome (List (List ℕ))
complete o = elim o [ returns l ↦ finish l | panics ↦ panics ]

scan-word :
    (w rest : List ℕ) (q : ℕ) (arg : List ℕ) (argv : List (List ℕ))
    → scan false (b'"' ∷ escape w ++ b'"' ∷ rest) (outside q arg argv)
      ≡ scan false rest (unquoted w argv)
scan-word w rest q arg argv =
    scan-plain b'"' (escape w ++ b'"' ∷ rest) (outside q arg argv) refl
    ∙ scan-escape_word w rest [] argv

scan-quote :
    (ws : List (List ℕ)) (q : ℕ) (arg : List ℕ) (argv : List (List ℕ))
    → complete (scan false (quote ws) (outside q arg argv)) ≡ returns (argv ++ ws)
unfolding quote
scan-quote [] q arg argv = unfold scan in rw append-nil
scan-quote (w ∷ []) q arg argv = ap complete (scan-word w [] q arg argv) ∙ (unfold scan in refl)
scan-quote (w ∷ v ∷ ws) q arg argv =
    ap complete (
      scan-word w (b' ' ∷ quote (v ∷ ws)) q arg argv
      ∙ scan-plain b' ' (quote (v ∷ ws)) (unquoted w argv) refl)
    ∙ scan-quote (v ∷ ws) b'"' w (argv ++ w ∷ [])
    ∙ ap returns (append_assoc argv (w ∷ []) (v ∷ ws))

-- Elsewhere than on Windows, ToArgv does not panic on words that stand between double quotes, with a
-- backslash before each double quote and backslash and a space between two words, and returns them.
pub to_argv-quote : (ws : List (List ℕ)) → to_argv false (quote ws) ≡ returns ws
unfolding to_argv
to_argv-quote ws = scan-quote ws 0 [] []
