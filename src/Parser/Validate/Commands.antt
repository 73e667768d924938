-- ===== src/Parser/Validate/Commands.antt =====
-- pkg/parser/validate.go: validateTask, which refuses two commands of one name.
use cirrus_cli.Prelude.{
  String, ◌≡◌, refl, ◌≢◌, ◌↔◌, inl, inr, Option, none, some, List, [], ◌∷◌, All, Option-cases,
  arith, if◌then◌else◌, str_eq, eq_iff,
}

-- the types of instruction that commandInstructionType names
pub data Instruction : Type 0 where
  exit script background_script cache upload_cache clone file artifacts unknown : Instruction

-- api.Command, with the fields that validateTask reads
pub record Command : Type 0 where
  pub name : String
  pub instruction : Instruction

-- the error, with its designator: the two types of instruction, the command's name
pub record Duplicate : Type 0 where
  pub seen : Instruction
  pub again : Instruction
  pub name : String

-- alreadySeenNames
unfoldable pub lookup : String → List Command → Option Instruction
lookup name [] = none
lookup name (c ∷ cs) = if str_eq c.name name then some c.instruction else lookup name cs

-- the loop of validateTask, with the commands seen so far
unfoldable pub validate_from : List Command → List Command → Option Duplicate
validate_from seen [] = none
validate_from seen (c ∷ cs) = elim (lookup c.name seen) [
  | some i ↦ some (record { seen = i; again = c.instruction; name = c.name })
  | none ↦ validate_from (c ∷ seen) cs
]

-- validateTask: nil, or the error about the first command whose name was seen
unfoldable pub validate_task : List Command → Option Duplicate
unfolding validate_from
validate_task cs = validate_from [] cs

abbrev IsFresh : List Command → Command → Type 0
IsFresh seen c = All (λ (d : Command). d.name ≢ c.name) seen

-- no two places of the list hold one name
abbrev pub DistinctNames : List Command → Type 0
DistinctNames [] = Unit
DistinctNames (c ∷ cs) = All (λ (d : Command). c.name ≢ d.name) cs × DistinctNames cs

lookup-none_iff : (c : Command) (seen : List Command) → (lookup c.name seen ≡ none) ↔ IsFresh seen c
unfolding lookup
lookup-none_iff c [] = (λ _. tt, λ _. refl)
lookup-none_iff c (d ∷ ds) = (
  λ h. ground (arith, eq_iff d.name c.name, (lookup-none_iff c ds).0),
  λ h. ground (arith, eq_iff d.name c.name, (lookup-none_iff c ds).1),
)

All-IsFresh_swap :
    (c : Command) (cs : List Command) (seen : List Command)
    → All (λ d. IsFresh (c ∷ seen) d) cs
    → All (λ (d : Command). c.name ≢ d.name) cs × All (λ d. IsFresh seen d) cs
All-IsFresh_swap c [] seen h = (tt, tt)
All-IsFresh_swap c (d ∷ ds) seen h =
    let (p, q) = All-IsFresh_swap c ds seen h.1 in ((h.0.0, p), (h.0.1, q))

All-IsFresh_join :
    (c : Command) (cs : List Command) (seen : List Command)
    → All (λ (d : Command). c.name ≢ d.name) cs
    → All (λ d. IsFresh seen d) cs
    → All (λ d. IsFresh (c ∷ seen) d) cs
All-IsFresh_join c [] seen p q = tt
All-IsFresh_join c (d ∷ ds) seen (p, ps) (q, qs) = ((p, q), All-IsFresh_join c ds seen ps qs)

validate_from-none→ :
    (seen cs : List Command)
    → validate_from seen cs ≡ none
    → DistinctNames cs × All (λ d. IsFresh seen d) cs
unfolding validate_from
validate_from-none→ seen [] h = (tt, tt)
validate_from-none→ seen (c ∷ cs) h = elim (Option-cases (lookup c.name seen)) [
  | inl e ↦
      let (d, f) = validate_from-none→ (c ∷ seen) cs (ground (arith, e)) in
      let (p, q) = All-IsFresh_swap c cs seen f in ((p, d), ((lookup-none_iff c seen).0 e, q))
  | inr (i, e) ↦ absurd (ground (arith, e))
]

validate_from-none← :
    (seen cs : List Command)
    → DistinctNames cs
    → All (λ d. IsFresh seen d) cs
    → validate_from seen cs ≡ none
unfolding validate_from
validate_from-none← seen [] d f = refl
validate_from-none← seen (c ∷ cs) (p, d) (g, f) = ground (
  arith,
  (lookup-none_iff c seen).1 g,
  validate_from-none← (c ∷ seen) cs d (All-IsFresh_join c cs seen p f),
)

All-IsFresh_nil : (cs : List Command) → All (λ d. IsFresh [] d) cs
All-IsFresh_nil [] = tt
All-IsFresh_nil (c ∷ cs) = (tt, All-IsFresh_nil cs)

-- validateTask returns nil exactly when no two commands of the task have one name.
pub validate_task-none_iff : (cs : List Command) → (validate_task cs ≡ none) ↔ DistinctNames cs
unfolding validate_task
validate_task-none_iff cs =
    (λ h. (validate_from-none→ [] cs h).0, λ d. validate_from-none← [] cs d (All-IsFresh_nil cs))
