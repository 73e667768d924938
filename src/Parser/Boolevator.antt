-- ===== src/Parser/Boolevator.antt =====
-- pkg/parser/boolevator: the operators of the conditions, and the quotes around their texts. The package gval parses
-- and evaluates an expression; an operand is a text, or an error that a function returned.
-- regexp.MatchString enters as an argument, none where the expression does not compile.
pub mod Quotes
pub mod Laws
use cirrus_cli.Prelude.{
  ℕ, zero, suc, Bool, true, false, not, ◌&&◌, ◌||◌, Option, none, some, List, [], ◌∷◌, ◌++◌, ◌==◌,
  leb, if◌then◌else◌, Text, text_eq, has_prefix, length, contains_text,
}

abbrev pub true_text : Text
true_text = b't' ∷ b'r' ∷ b'u' ∷ b'e' ∷ []

abbrev pub false_text : Text
false_text = b'f' ∷ b'a' ∷ b'l' ∷ b's' ∷ b'e' ∷ []

-- strconv.FormatBool
abbrev pub format_bool : Bool → Text
format_bool true = true_text
format_bool false = false_text

abbrev pub is_one_of : Text → List Text → Bool
is_one_of s [] = false
is_one_of s (t ∷ ts) = text_eq s t || is_one_of s ts

-- strconv.ParseBool, none for its error
unfoldable pub parse_bool : Text → Option Bool
unfolding text_eq
parse_bool s =
    if is_one_of s (
      (b'1' ∷ [])
      ∷ (b't' ∷ [])
      ∷ (b'T' ∷ [])
      ∷ (b'T' ∷ b'R' ∷ b'U' ∷ b'E' ∷ [])
      ∷ true_text
      ∷ (b'T' ∷ b'r' ∷ b'u' ∷ b'e' ∷ [])
      ∷ [])
    then some true
    else (if is_one_of s (
          (b'0' ∷ [])
          ∷ (b'f' ∷ [])
          ∷ (b'F' ∷ [])
          ∷ (b'F' ∷ b'A' ∷ b'L' ∷ b'S' ∷ b'E' ∷ [])
          ∷ false_text
          ∷ (b'F' ∷ b'a' ∷ b'l' ∷ b's' ∷ b'e' ∷ [])
          ∷ [])
        then some false
        else none)

-- an operand: a text, or an error
pub data Operand : Type 0 where
  text : Text → Operand
  failure : Operand

-- what an operator returns
pub data Evaluated : Type 0 where
  value : Text → Evaluated
  error : Evaluated

abbrev pub or_error {ℓ} : {A : Type ℓ} → Option A → (A → Evaluated) → Evaluated
or_error none f = error
or_error (some a) f = f a

-- handleError, then the operator on two texts
abbrev pub handled : (Text → Text → Evaluated) → Operand → Operand → Evaluated
handled f (text a) (text b) = f a b
handled f (text a) failure = error
handled f failure b = error

-- opNot
unfoldable pub op_not : Operand → Evaluated
unfolding parse_bool
op_not failure = error
op_not (text a) = or_error (parse_bool a) (λ v. value (format_bool (not v)))

-- opIn
unfoldable pub op_in : Operand → Operand → Evaluated
unfolding contains_text
op_in = handled (λ a b. value (format_bool (contains_text b a)))

-- opAnd
unfoldable pub op_and : Operand → Operand → Evaluated
unfolding parse_bool
op_and = handled (λ a b.
    or_error (parse_bool a) (λ l. or_error (parse_bool b) (λ r. value (format_bool (l && r)))))

-- opOr
unfoldable pub op_or : Operand → Operand → Evaluated
unfolding parse_bool
op_or = handled (λ a b.
    or_error (parse_bool a) (λ l. or_error (parse_bool b) (λ r. value (format_bool (l || r)))))

-- opEquals
unfoldable pub op_equals : Operand → Operand → Evaluated
unfolding text_eq
op_equals = handled (λ a b. value (format_bool (text_eq a b)))

-- opNotEquals
unfoldable pub op_not_equals : Operand → Operand → Evaluated
unfolding text_eq
op_not_equals = handled (λ a b. value (format_bool (not (text_eq a b))))

-- PrepareRegexp
unfoldable pub prepare_regexp : Text → Text
prepare_regexp r =
    (b'(' ∷ b'?' ∷ b's' ∷ b')' ∷ b'(' ∷ b'?' ∷ b'i' ∷ b')' ∷ b'^' ∷ []) ++ r ++ b'$' ∷ []

module _ (match_string : Text → Text → Option Bool) where
  -- opRegexEquals
  unfoldable pub op_regex_equals : Operand → Operand → Evaluated
  unfolding prepare_regexp
  op_regex_equals =
      handled (λ a b. or_error (match_string (prepare_regexp b) a) (λ m. value (format_bool m)))

  -- opRegexNotEquals, which returns an empty text and no error where opRegexEquals fails
  unfoldable pub op_regex_not_equals : Operand → Operand → Evaluated
  unfolding op_regex_equals text_eq
  op_regex_not_equals = handled (λ a b. elim (op_regex_equals (text a) (text b)) [
    | value m ↦ value (format_bool (text_eq m false_text))
    | error ↦ value []
  ])

-- the last byte, and all but the last
abbrev pub last_byte : ℕ → Text → ℕ
last_byte c [] = c
last_byte c (d ∷ s) = last_byte d s

abbrev pub without_last : ℕ → Text → Text
without_last c [] = []
without_last c (d ∷ s) = c ∷ without_last d s

abbrev pub is_quote : ℕ → Bool
is_quote c = c == b'"' || c == b'\''

-- trimAllQuotes, with fuel for its recursion
unfoldable pub trim_quotes : ℕ → Text → Text
trim_quotes zero s = s
trim_quotes (suc fuel) [] = []
trim_quotes (suc fuel) (c ∷ []) = c ∷ []
trim_quotes (suc fuel) (c ∷ d ∷ s) =
    let inner = trim_quotes fuel (without_last d s) in
    if c == last_byte d s && is_quote c then inner else c ∷ d ∷ s

unfoldable pub trim_all_quotes : Text → Text
unfolding trim_quotes
trim_all_quotes s = trim_quotes (length s) s
