-- ===== src/Agent/Logs/Stamped.antt =====
-- Where the timestamps stand.
use cirrus_cli.Prelude.{
  ℕ, ◌≤◌, zero, suc, ◌-◌, Bool, true, false, ◌≡◌, refl, [], ◌∷◌, ◌++◌, ◌==◌, if◌then◌else◌, Text,
  arith, ap, sym, ◌∙◌, append_assoc,
}
use cirrus_cli.Agent.Logs.{
  newline, count_newlines, ends_in_newline, replace_newlines, with_timestamps,
}

-- byte by byte: a timestamp stands before the first byte of each line that is written
unfoldable pub stamp : Text → Text → Bool → Text × Bool
stamp prefix [] owe = ([], owe)
stamp prefix (c ∷ s) owe =
    let (rest, owe') = stamp prefix s (c == newline) in
    ((if owe then prefix else []) ++ c ∷ rest, owe')

-- the newlines that are followed by a byte
abbrev inner_newlines : Text → ℕ
inner_newlines s = if ends_in_newline s then count_newlines s - 1 else count_newlines s

ends_in_newline-count : (s : Text) → ends_in_newline s ≡ true → 1 ≤ count_newlines s
unfolding count_newlines ends_in_newline
ends_in_newline-count [] h = ground arith
ends_in_newline-count (c ∷ []) h = ground (arith, h)
ends_in_newline-count (c ∷ d ∷ s) h = ground (arith, ends_in_newline-count (d ∷ s) h)

inner_newlines-cons :
    (c d : ℕ) (s : Text)
    → inner_newlines (c ∷ d ∷ s)
      ≡ (if c == newline then suc (inner_newlines (d ∷ s)) else inner_newlines (d ∷ s))
unfolding count_newlines ends_in_newline
inner_newlines-cons c d s = ground (arith, ends_in_newline-count (d ∷ s))

abbrev unstamped : Text → Text → Text × Bool
unstamped prefix s = (replace_newlines prefix (inner_newlines s) s, ends_in_newline s)

stamp-owed :
    (prefix : Text) (c : ℕ) (s : Text)
    → stamp prefix (c ∷ s) true
      ≡ (prefix ++ (stamp prefix (c ∷ s) false).0, (stamp prefix (c ∷ s) false).1)
unfolding stamp
stamp-owed prefix c s = refl

replace_newlines-here :
    (prefix : Text) (c : ℕ) (n : ℕ) (s : Text)
    → (c == newline) ≡ true
    → replace_newlines prefix (suc n) (c ∷ s) ≡ c ∷ (prefix ++ replace_newlines prefix n s)
unfolding replace_newlines
replace_newlines-here prefix c n s h = rw (replace_newlines, h) refl

replace_newlines-past :
    (prefix : Text) (c : ℕ) (n : ℕ) (s : Text)
    → (c == newline) ≡ false
    → replace_newlines prefix n (c ∷ s) ≡ c ∷ replace_newlines prefix n s
unfolding replace_newlines
replace_newlines-past prefix c zero [] h = refl
replace_newlines-past prefix c zero (d ∷ s) h = refl
replace_newlines-past prefix c (suc n) s h = rw (replace_newlines, h) refl

stamp-cons :
    (prefix : Text) (c : ℕ) (s : Text) (b : Bool)
    → (c == newline) ≡ b
    → stamp prefix (c ∷ s) false ≡ (c ∷ (stamp prefix s b).0, (stamp prefix s b).1)
unfolding stamp
stamp-cons prefix c s b h = ap (λ x. (c ∷ (stamp prefix s x).0, (stamp prefix s x).1)) h

inner_newlines-one : (c : ℕ) → inner_newlines (c ∷ []) ≡ 0
unfolding count_newlines ends_in_newline
inner_newlines-one c = ground arith

unstamped-cons :
    (prefix : Text) (c d : ℕ) (s : Text) (n : ℕ)
    → inner_newlines (c ∷ d ∷ s) ≡ n
    → unstamped prefix (c ∷ d ∷ s)
      ≡ (replace_newlines prefix n (c ∷ d ∷ s), ends_in_newline (d ∷ s))
unfolding ends_in_newline
unstamped-cons prefix c d s n e =
    ap (λ m. (replace_newlines prefix m (c ∷ d ∷ s), ends_in_newline (d ∷ s))) e

unstamped-nil : (prefix : Text) → stamp prefix [] false ≡ unstamped prefix []
unfolding stamp replace_newlines ends_in_newline
unstamped-nil prefix = refl

unstamped-one : (prefix : Text) (c : ℕ) → stamp prefix (c ∷ []) false ≡ unstamped prefix (c ∷ [])
unfolding stamp replace_newlines ends_in_newline
unstamped-one prefix c =
    ap (λ n. (replace_newlines prefix n (c ∷ []), c == newline)) (sym (inner_newlines-one c))

unstamped_lem : (prefix s : Text) → stamp prefix s false ≡ unstamped prefix s
unstamped_lem prefix [] = unstamped-nil prefix
unstamped_lem prefix (c ∷ []) = unstamped-one prefix c
unstamped_lem prefix (c ∷ d ∷ s) = go (c == newline) refl (unstamped_lem prefix (d ∷ s))
  where
    inner :
        (b : Bool)
        → (c == newline) ≡ b
        → inner_newlines (c ∷ d ∷ s)
          ≡ (if b then suc (inner_newlines (d ∷ s)) else inner_newlines (d ∷ s))
    inner b h =
        inner_newlines-cons c d s
        ∙ ap (λ x. if x then suc (inner_newlines (d ∷ s)) else inner_newlines (d ∷ s)) h

    go :
        (b : Bool)
        → (c == newline) ≡ b
        → stamp prefix (d ∷ s) false ≡ unstamped prefix (d ∷ s)
        → stamp prefix (c ∷ d ∷ s) false ≡ unstamped prefix (c ∷ d ∷ s)
    go true h ih =
        stamp-cons prefix c (d ∷ s) true h
        ∙ ap (λ (p : Text × Bool). (c ∷ p.0, p.1)) (stamp-owed prefix d s)
        ∙ ap (λ (p : Text × Bool). (c ∷ (prefix ++ p.0), p.1)) ih
        ∙ ap (λ l. (l, ends_in_newline (d ∷ s)))
            (sym (replace_newlines-here prefix c (inner_newlines (d ∷ s)) (d ∷ s) h))
        ∙ sym (unstamped-cons prefix c d s (suc (inner_newlines (d ∷ s))) (inner true h))
    go false h ih =
        stamp-cons prefix c (d ∷ s) false h
        ∙ ap (λ (p : Text × Bool). (c ∷ p.0, p.1)) ih
        ∙ ap (λ l. (l, ends_in_newline (d ∷ s)))
            (sym (replace_newlines-past prefix c (inner_newlines (d ∷ s)) (d ∷ s) h))
        ∙ sym (unstamped-cons prefix c d s (inner_newlines (d ∷ s)) (inner false h))

with_timestamps-stamp :
    (prefix : Text) (c : ℕ) (s : Text) (owe : Bool)
    → with_timestamps prefix (c ∷ s) owe ≡ stamp prefix (c ∷ s) owe
unfolding with_timestamps
with_timestamps-stamp prefix c s true =
    ap (λ (p : Text × Bool). (prefix ++ p.0, p.1)) (sym (unstamped_lem prefix (c ∷ s)))
    ∙ sym (stamp-owed prefix c s)
with_timestamps-stamp prefix c s false = sym (unstamped_lem prefix (c ∷ s))

stamp-append :
    (prefix s t : Text) (owe : Bool)
    → stamp prefix (s ++ t) owe ≡ (
      (stamp prefix s owe).0 ++ (stamp prefix t (stamp prefix s owe).1).0,
      (stamp prefix t (stamp prefix s owe).1).1,
    )
unfolding stamp
stamp-append prefix [] t owe = refl
stamp-append prefix (c ∷ s) t owe =
    ap (λ (p : Text × Bool). ((if owe then prefix else []) ++ c ∷ p.0, p.1))
      (stamp-append prefix s t (c == newline))
    ∙ ap (λ l. (l, (stamp prefix t (stamp prefix s (c == newline)).1).1))
        (sym (append_assoc (if owe then prefix else []) (c ∷ (stamp prefix s (c == newline)).0) _))

-- WithTimestamps puts a timestamp before the first byte of each line, and of no line that is still empty;
-- and it does not matter how the log is cut into chunks that are not empty.
pub with_timestamps_chunks :
    (prefix : Text) (c d : ℕ) (s t : Text) (owe : Bool)
    → (with_timestamps prefix (c ∷ s) owe ≡ stamp prefix (c ∷ s) owe)
      × (with_timestamps prefix ((c ∷ s) ++ (d ∷ t)) owe ≡ (
        (with_timestamps prefix (c ∷ s) owe).0
            ++ (with_timestamps prefix (d ∷ t) (with_timestamps prefix (c ∷ s) owe).1).0,
        (with_timestamps prefix (d ∷ t) (with_timestamps prefix (c ∷ s) owe).1).1,
      ))
with_timestamps_chunks prefix c d s t owe = (
  with_timestamps-stamp prefix c s owe,
  rw
      (
        with_timestamps-stamp prefix c (s ++ d ∷ t) owe,
        with_timestamps-stamp prefix c s owe,
        with_timestamps-stamp prefix d t (stamp prefix (c ∷ s) owe).1,
      )
      (stamp-append prefix (c ∷ s) (d ∷ t) owe),
)
