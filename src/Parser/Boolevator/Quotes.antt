-- ===== src/Parser/Boolevator/Quotes.antt =====
-- pkg/parser/boolevator: trimAllQuotes leaves no pair of quotes around a text.
use cirrus_cli.Prelude.{
  ℕ, zero, suc, ◌≤◌, Bool, false, ◌&&◌, [], ◌∷◌, ◌==◌, ◌≡◌, inl, inr, refl, sym, subst, arith,
  Bool-cases, if◌then◌else◌, Text, length,
}
use cirrus_cli.Parser.Boolevator.{last_byte, without_last, is_quote, trim_quotes, trim_all_quotes}

-- a text has a quote at both ends, and the same
unfoldable pub is_quoted : Text → Bool
is_quoted [] = false
is_quoted (c ∷ []) = false
is_quoted (c ∷ d ∷ s) = c == last_byte d s && is_quote c

length-without_last : (c : ℕ) (s : Text) → length (without_last c s) ≡ length s
length-without_last c [] = refl
length-without_last c (d ∷ s) = omega (arith, length-without_last d s)

trim_quotes-is_quoted :
    (fuel : ℕ) (s : Text) → length s ≤ fuel → is_quoted (trim_quotes fuel s) ≡ false
unfolding is_quoted trim_quotes
trim_quotes-is_quoted zero [] h = refl
trim_quotes-is_quoted zero (c ∷ s) h = ground (arith, h)
trim_quotes-is_quoted (suc fuel) [] h = refl
trim_quotes-is_quoted (suc fuel) (c ∷ []) h = refl
trim_quotes-is_quoted (suc fuel) (c ∷ d ∷ s) h =
    let shape = λ (b : Bool).
      is_quoted (if b then trim_quotes fuel (without_last d s) else c ∷ d ∷ s) ≡ false in
    elim (Bool-cases (c == last_byte d s && is_quote c)) [
      | inl e ↦ subst shape (sym e) (
          trim_quotes-is_quoted fuel (without_last d s) (omega (arith, h, length-without_last d s)))
      | inr e ↦ subst shape (sym e) e
    ]

-- What trimAllQuotes returns is not a text of two bytes or more that begins and ends with the same
-- quote; its recursion is as deep as it needs to be.
pub trim_all_quotes-is_quoted : (s : Text) → is_quoted (trim_all_quotes s) ≡ false
unfolding trim_all_quotes
trim_all_quotes-is_quoted s = trim_quotes-is_quoted (length s) s (omega arith)
