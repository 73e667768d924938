-- ===== src/Parser/Boolevator/Laws.antt =====
-- pkg/parser/boolevator: how the operators of the conditions are related.
use cirrus_cli.Prelude.{
  Bool, true, false, not, ◌&&◌, Option, none, some, ◌≡◌, ◌⊎◌, refl, sym, ap, inl, inr, Option-cases,
  Text, [], text_eq,
}
use cirrus_cli.Parser.Boolevator.{
  Operand, text, failure, Evaluated, value, error, parse_bool, op_not, op_and, op_or,
  op_regex_equals, op_regex_not_equals, prepare_regexp, format_bool, false_text, or_error,
}

-- the operand that a result is where it is an operand of another operator
unfoldable pub operand : Evaluated → Operand
operand (value t) = text t
operand error = failure

-- opNot and opAnd, on what ParseBool returns
abbrev negation : Option Bool → Evaluated
negation p = or_error p (λ v. value (format_bool (not v)))

abbrev conjunction : Option Bool → Option Bool → Evaluated
conjunction p q = or_error p (λ l. or_error q (λ r. value (format_bool (l && r))))

op_or-failure : (p : Option Bool) → op_or (operand (negation p)) failure ≡ error
unfolding op_or operand
op_or-failure none = refl
op_or-failure (some v) = refl

op_not-conjunction :
    (p q : Option Bool)
    → op_not (operand (conjunction p q)) ≡ op_or (operand (negation p)) (operand (negation q))
unfolding op_not op_or operand parse_bool text_eq
op_not-conjunction none q = refl
op_not-conjunction (some true) none = refl
op_not-conjunction (some false) none = refl
op_not-conjunction (some true) (some true) = refl
op_not-conjunction (some true) (some false) = refl
op_not-conjunction (some false) (some true) = refl
op_not-conjunction (some false) (some false) = refl

-- Whatever the operands, errors among them, the negation of a conjunction is the disjunction of the
-- negations: the answers are the same, or both are errors.
pub op_not-op_and :
    (a b : Operand)
    → op_not (operand (op_and a b)) ≡ op_or (operand (op_not a)) (operand (op_not b))
unfolding op_not op_and operand
op_not-op_and failure b = unfold op_or in refl
op_not-op_and (text a) failure = sym (op_or-failure (parse_bool a))
op_not-op_and (text a) (text b) = op_not-conjunction (parse_bool a) (parse_bool b)

abbrev contrary : Option Bool → Evaluated
contrary o = elim (or_error o (λ m. value (format_bool m))) [
  | value m ↦ value (format_bool (text_eq m false_text))
  | error ↦ value []
]

module _ (match_string : Text → Text → Option Bool) where
  -- On two texts `!=~` answers the contrary of `=~`; where the regular expression does not compile,
  -- `=~` is an error, and `!=~` returns an empty text and no error.
  pub op_regex_not_equals-text :
      (a b : Text)
      → ((m : Bool) × (op_regex_equals match_string (text a) (text b) ≡ value (format_bool m))
          × (op_regex_not_equals match_string (text a) (text b) ≡ value (format_bool (not m))))
        ⊎ ((match_string (prepare_regexp b) a ≡ none)
            × (op_regex_equals match_string (text a) (text b) ≡ error)
            × (op_regex_not_equals match_string (text a) (text b) ≡ value []))
  unfolding op_regex_equals op_regex_not_equals text_eq
  op_regex_not_equals-text a b = elim (Option-cases (match_string (prepare_regexp b) a)) [
    | inl e ↦ inr (e, rw (e) refl, ap contrary e)
    | inr (true, e) ↦ inl (true, rw (e) refl, ap contrary e)
    | inr (false, e) ↦ inl (false, rw (e) refl, ap contrary e)
  ]
