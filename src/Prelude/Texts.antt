-- ===== src/Prelude/Texts.antt =====
-- Texts as lists of ASCII bytes, with what the code uses of Go's strings package on them.
use Prim.Native.Nat.{ℕ, ◌+◌}
use mathlib.Core.Bool.{Bool, true, false, ◌&&◌, ◌||◌}
use mathlib.Core.List.{List, [], ◌∷◌, ◌++◌, map}
use mathlib.Core.Path.{◌≡◌, refl}
use native.Mathlib.Omega.{arith}
use cirrus_cli.Prelude.Tests.{==_refl, ltb, leb, ◌==◌, if◌then◌else◌}

abbrev pub Text : Type 0
Text = List ℕ

-- strings.ToLower
abbrev pub lower_byte : ℕ → ℕ
lower_byte c = if leb b'A' c && leb c b'Z' then c + 32 else c

unfoldable pub to_lower : Text → Text
to_lower = map lower_byte

unfoldable pub text_eq : Text → Text → Bool
text_eq [] [] = true
text_eq [] (d ∷ t) = false
text_eq (c ∷ s) [] = false
text_eq (c ∷ s) (d ∷ t) = if c == d then text_eq s t else false

pub text_eq-true : (s t : Text) → text_eq s t ≡ true → s ≡ t
unfolding text_eq
text_eq-true [] [] h = refl
text_eq-true [] (d ∷ t) h = ground arith
text_eq-true (c ∷ s) [] h = ground arith
text_eq-true (c ∷ s) (d ∷ t) h = ground (arith, text_eq-true s t)

pub text_eq_refl : (s : Text) → text_eq s s ≡ true
unfolding text_eq
text_eq_refl [] = refl
text_eq_refl (c ∷ s) = rw (==_refl c) (text_eq_refl s)

-- strings.HasPrefix s prefix
unfoldable pub has_prefix : Text → Text → Bool
has_prefix s [] = true
has_prefix [] (d ∷ p) = false
has_prefix (c ∷ s) (d ∷ p) = if c == d then has_prefix s p else false

-- strings.TrimPrefix, where the prefix is there
unfoldable pub after_prefix : Text → Text → Text
after_prefix s [] = s
after_prefix [] (d ∷ p) = []
after_prefix (c ∷ s) (d ∷ p) = after_prefix s p

abbrev pub is_space : ℕ → Bool
is_space c = c == 32 || leb 9 c && leb c 13

-- strings.TrimSpace s == ""
unfoldable pub is_blank : Text → Bool
is_blank [] = true
is_blank (c ∷ s) = if is_space c then is_blank s else false

-- strings.Split by one byte: `word` holds the bytes since the last separator
unfoldable pub split_from : ℕ → Text → Text → List Text
split_from sep word [] = word ∷ []
split_from sep word (c ∷ s) =
    let here = word ∷ split_from sep [] s in
    let there = split_from sep (word ++ c ∷ []) s in if c == sep then here else there

abbrev pub split : ℕ → Text → List Text
split sep s = split_from sep [] s

-- strings.EqualFold
unfoldable pub equal_fold : Text → Text → Bool
unfolding to_lower text_eq
equal_fold s t = text_eq (to_lower s) (to_lower t)

-- a < b
unfoldable pub text_less : Text → Text → Bool
text_less s [] = false
text_less [] (d ∷ t) = true
text_less (c ∷ s) (d ∷ t) =
    let rest = text_less s t in if ltb c d then true else if c == d then rest else false

-- strings.Contains
unfoldable pub contains_text : Text → Text → Bool
unfolding has_prefix
contains_text [] t = has_prefix [] t
contains_text (c ∷ s) t = has_prefix (c ∷ s) t || contains_text s t
