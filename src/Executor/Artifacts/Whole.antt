-- ===== src/Executor/Artifacts/Whole.antt =====
-- internal/executor/rpc/artifacts.go: files that are uploaded one after the other are stored whole.
use cirrus_cli.Prelude.{
  Bool, true, false, ◌&&◌, none, some, List, [], ◌∷◌, ◌++◌, if◌then◌else◌, Text, text_eq,
  text_eq-true, text_eq_refl, ◌≡◌, ◌≢◌, refl, sym, ap, ◌∙◌, subst, arith, Bool-cases, inl, inr, All,
  append-nil, append_assoc, All-map,
}
use cirrus_cli.Executor.Artifacts.{
  Files, contents, truncate, append_data, Writer, Answers, write_data, switch_to, write_to,
}

text_eq_join :
    (q path p : Text) → text_eq q p ≡ true → text_eq path p ≡ true → text_eq q path ≡ true
text_eq_join q path p h g =
    subst (λ r. text_eq q r ≡ true) (text_eq-true q p h ∙ sym (text_eq-true path p g))
      (text_eq_refl q)

contents-append_data :
    (path p b : Text) (files : Files)
    → contents p (append_data path b files) ≡ (
        if text_eq path p
        then some (elim (contents path files) [ none ↦ b | some s ↦ s ++ b ])
        else contents p files)
unfolding contents append_data
contents-append_data path p b [] = refl
contents-append_data path p b ((q, s) ∷ files) =
    let rest = contents-append_data path p b files in
    elim (Bool-cases (text_eq q path)) [
      | inl e ↦ ground (arith, e, rest, ap (λ r. text_eq r p) (text_eq-true q path e))
      | inr e ↦ ground (arith, e, rest, text_eq_join q path p)
    ]

-- all chunks of a file that follow the first one
unfoldable write_all : (Text → Text → Text) → Text → List (Text × Answers) → Writer → Writer × Bool
unfolding write_to
write_all join name [] w = (w, true)
write_all join name ((b, a) ∷ bs) w =
    let (v, ok) = write_to join name b a w in if ok then write_all join name bs v else (v, false)

abbrev pub is_good : Answers → Bool
is_good a = a.closed && a.made && a.opened && a.written

-- the writer while it writes to a file
abbrev at : Text → Text → Files → Writer
at base path files = record { base_dir = base; current_path = path; is_open = true; files = files }

write_to-again :
    (join : Text → Text → Text) (base name b : Text) (a : Answers) (files : Files)
    → is_good a ≡ true
    → write_to join name b a (at base (join base name) files)
      ≡ (at base (join base name) (append_data (join base name) b files), true)
unfolding write_to write_data
write_to-again join base name b a files h = ground (arith, h, text_eq_refl (join base name))

write_to-other :
    (join : Text → Text → Text) (name b : Text) (a : Answers) (w : Writer)
    → is_good a ≡ true
    → text_eq w.current_path (join w.base_dir name) ≡ false
    → write_to join name b a w ≡ (
      at w.base_dir
          (join w.base_dir name)
          (append_data (join w.base_dir name) b (truncate (join w.base_dir name) w.files)),
      true,
    )
unfolding write_to write_data switch_to
write_to-other join name b a w h e = ground (arith, h, e)

-- the contents of a file after some chunks
abbrev pub all_data : List (Text × Answers) → Text
all_data [] = []
all_data ((b, a) ∷ bs) = b ++ all_data bs

abbrev append_all : Text → List (Text × Answers) → Files → Files
append_all path [] files = files
append_all path ((b, a) ∷ bs) files = append_all path bs (append_data path b files)

abbrev pub AllGood : List (Text × Answers) → Type 0
AllGood bs = All (λ (c : Text × Answers). is_good c.1 ≡ true) bs

write_all-again :
    (join : Text → Text → Text) (base name : Text) (bs : List (Text × Answers)) (files : Files)
    → AllGood bs
    → write_all join name bs (at base (join base name) files)
      ≡ (at base (join base name) (append_all (join base name) bs files), true)
unfolding write_all
write_all-again join base name [] files h = refl
write_all-again join base name ((b, a) ∷ bs) files (g, h) =
    ap (λ (r : Writer × Bool). if r.1 then write_all join name bs r.0 else (r.0, false))
      (write_to-again join base name b a files g)
    ∙ write_all-again join base name bs (append_data (join base name) b files) h

contents-append_all :
    (path p : Text) (bs : List (Text × Answers)) (files : Files) (s : Text)
    → contents path files ≡ some s
    → contents p (append_all path bs files)
      ≡ (if text_eq path p then some (s ++ all_data bs) else contents p files)
contents-append_all path p [] files s h = elim (Bool-cases (text_eq path p)) [
  | inl e ↦ ground (arith, e, h, ap (λ r. contents r files) (text_eq-true path p e), append-nil s)
  | inr e ↦ ground (arith, e)
]
contents-append_all path p ((b, a) ∷ bs) files s h =
    let appended : contents path (append_data path b files) ≡ some (s ++ b) =
      ground (arith, contents-append_data path path b files, text_eq_refl path, h) in
    let rest = contents-append_all path p bs (append_data path b files) (s ++ b) appended in
    ground (arith, rest, contents-append_data path p b files, append_assoc s b (all_data bs))

-- a file with its first chunk and the others
abbrev pub Upload : Type 0
Upload = Text × (Text × Answers) × List (Text × Answers)

abbrev pub data_of : Upload → Text
data_of (name, first, rest) = first.0 ++ all_data rest

abbrev pub chunks_of : Upload → List (Text × Answers)
chunks_of (name, first, rest) = first ∷ rest

write_file :
    (join : Text → Text → Text) (u : Upload) (w : Writer)
    → AllGood (chunks_of u)
    → text_eq w.current_path (join w.base_dir u.0) ≡ false
    → (files : Files) × (write_all join u.0 (chunks_of u) w
        ≡ (at w.base_dir (join w.base_dir u.0) files, true))
      × ((p : Text)
          → contents p files
            ≡ (if text_eq (join w.base_dir u.0) p then some (data_of u) else contents p w.files))
unfolding write_all contents truncate append_data
write_file join (name, (b, a), bs) w (g, h) e =
    let path = join w.base_dir name in
    (
      append_all path bs ((path, b) ∷ w.files),
      ap (λ (r : Writer × Bool). if r.1 then write_all join name bs r.0 else (r.0, false))
            (write_to-other join name b a w g e)
          ∙ ap
              (λ (c : Bool). write_all join name bs (
                at w.base_dir path
                  (if c then (path, b) ∷ w.files else (path, []) ∷ append_data path b w.files)))
              (text_eq_refl path)
          ∙ write_all-again join w.base_dir name bs ((path, b) ∷ w.files) h,
      λ p. ground (
        arith,
        contents-append_all path p bs ((path, b) ∷ w.files) b (ground (arith, text_eq_refl path)),
      ),
    )

text_eq-apart : (s t : Text) → s ≢ t → text_eq s t ≡ false
text_eq-apart s t h = ground (arith, h, text_eq-true s t)

-- files written one after the other
unfoldable pub write_files : (Text → Text → Text) → List Upload → Writer → Writer × Bool
unfolding write_all
write_files join [] w = (w, true)
write_files join (u ∷ us) w =
    let (v, ok) = write_all join u.0 (chunks_of u) w in
    if ok then write_files join us v else (v, false)

-- no two of the files have the same path
abbrev pub Apart : (Text → Text → Text) → Text → List Upload → Type 0
Apart join base [] = Unit
Apart join base (u ∷ us) =
    All (λ (v : Upload). join base u.0 ≢ join base v.0) us × Apart join base us

-- the files are stored whole, and no others are changed
abbrev pub Stored : (Text → Text → Text) → List Upload → Writer → Writer → Type 0
Stored join us w v =
    All (λ (u : Upload). contents (join w.base_dir u.0) v.files ≡ some (data_of u)) us
    × ((p : Text)
        → All (λ (u : Upload). join w.base_dir u.0 ≢ p) us
        → contents p v.files ≡ contents p w.files)

-- Of a writer that is not writing to one of some files with different paths: when their chunks are written, a
-- file after the other, and no call fails, each file holds all its chunks in their order, whatever
-- it held before, and every other file is as it was.
pub write_files-Stored :
    (join : Text → Text → Text) (us : List Upload) (w : Writer)
    → Apart join w.base_dir us
    → All (λ (u : Upload). w.current_path ≢ join w.base_dir u.0) us
    → All (λ (u : Upload). AllGood (chunks_of u)) us
    → (v : Writer) × (write_files join us w ≡ (v, true)) × Stored join us w v
unfolding write_files
write_files-Stored join [] w a c g = (w, refl, (tt, λ p h. refl))
write_files-Stored join (u ∷ us) w (apart, a) (c, cs) (g, gs) =
    let path = join w.base_dir u.0 in
    let (files, e, one) = write_file join u w g (text_eq-apart w.current_path path c) in
    let (v, d, (all, others)) = write_files-Stored join us (at w.base_dir path files) a apart gs in
    (
      v,
      ap (λ (r : Writer × Bool). if r.1 then write_files join us r.0 else (r.0, false)) e ∙ d,
      (
        (
          others path (All-map _ _ us (λ x n same. n (sym same)) apart)
              ∙ one path
              ∙ ground (arith, text_eq_refl path),
          all,
        ),
        λ p h. others p h.1 ∙ one p ∙ ground (arith, text_eq-apart path p h.0),
      ),
    )
