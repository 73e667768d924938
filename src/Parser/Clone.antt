-- ===== src/Parser/Clone.antt =====
-- pkg/parser/parser.go: ensureCloneInstruction, which puts a clone command in front of a task that has none.
use cirrus_cli.Prelude.{
  String, Bool, true, false, ◌≡◌, refl, inl, inr, Option, none, some, List, [], ◌∷◌, if◌then◌else◌,
  str_eq, eq_iff, ◌≢◌, ◌⊎◌, All, In, Option-cases, Bool-cases, arith,
}

-- a map from strings to strings, in some order of iteration; the nil map is the empty one
abbrev pub Properties : Type 0
Properties = List (String × String)

unfoldable pub property : String → Properties → Option String
property k [] = none
property k ((j, v) ∷ ps) = if str_eq j k then some v else property k ps

unfoldable pub delete : String → Properties → Properties
delete k [] = []
delete k ((j, v) ∷ ps) = let rest = delete k ps in if str_eq j k then rest else (j, v) ∷ rest

-- what the command does, when it is not the clone instruction
pub data Instruction : Type 0 where
  clone_instruction : Instruction
  script : List String → Instruction

pub record Command : Type 0 where
  pub name : String
  pub instruction : Instruction
  pub properties : Properties

unfoldable pub has_clone : List Command → Bool
has_clone [] = false
has_clone (c ∷ cs) = if str_eq c.name "clone" then true else has_clone cs

abbrev pub clone_command : Properties → Command
clone_command ps = record { name = "clone"; instruction = clone_instruction; properties = ps }

-- the clone command inherits the image of the first command, which loses it
unfoldable pub with_clone : List Command → List Command
with_clone [] = clone_command [] ∷ []
with_clone (c ∷ cs) = elim (property "image" c.properties) [
  | none ↦ clone_command [] ∷ c ∷ cs
  | some image ↦
      clone_command (("image", image) ∷ [])
      ∷ (record c { properties = delete "image" c.properties })
      ∷ cs
]

-- ensureCloneInstruction
unfoldable pub ensure_clone_instruction : List Command → List Command
ensure_clone_instruction cs = if has_clone cs then cs else with_clone cs

-- the image that the Docker Pipe starts with: that of the first command
abbrev pub first_image : List Command → Option String
first_image [] = none
first_image (c ∷ cs) = property "image" c.properties

-- the commands after the clone command that is put in front: of the properties of the first one, the
-- image is gone, and nothing else is changed
abbrev pub IsRest : List Command → List Command → Type 0
IsRest [] rest = rest ≡ []
IsRest (c ∷ cs) [] = ⊥
IsRest (c ∷ cs) (d ∷ rest) =
    (d.name ≡ c.name)
    × (d.instruction ≡ c.instruction)
    × ((k : String)
        → property k d.properties ≡ (if str_eq "image" k then none else property k c.properties))
    × (rest ≡ cs)

-- a clone command in front of the others, with the image of the first of them and no other property
abbrev pub IsCloned : List Command → List Command → Type 0
IsCloned cs [] = ⊥
IsCloned cs (d ∷ rest) =
    (d.name ≡ "clone")
    × (d.instruction ≡ clone_instruction)
    × ((k : String) → property k d.properties ≡ (if str_eq "image" k then first_image cs else none))
    × IsRest cs rest

-- the commands are as they were, if one has the name clone, or there is a clone command in front of
-- them
abbrev pub Ensures : List Command → List Command → Type 0
Ensures cs ds =
    (((c : Command) × In c cs × (c.name ≡ "clone")) × (ds ≡ cs))
    ⊎ (All (λ c. c.name ≢ "clone") cs × IsCloned cs ds)

has_clone_cases :
    (cs : List Command)
    → ((has_clone cs ≡ true) × ((c : Command) × In c cs × (c.name ≡ "clone")))
      ⊎ ((has_clone cs ≡ false) × All (λ c. c.name ≢ "clone") cs)
unfolding has_clone
has_clone_cases [] = inr (refl, tt)
has_clone_cases (c ∷ cs) = elim (Bool-cases (str_eq c.name "clone")) [
  | inl e ↦ inl (rw e refl, (c, inl refl, (eq_iff c.name "clone").0 e))
  | inr e ↦ elim (has_clone_cases cs) [
    | inl (f, (d, m, q)) ↦ inl (rw e f, (d, inr m, q))
    | inr (f, h) ↦ inr (rw e f, ((λ q. cc ((eq_iff c.name "clone").1 q, e)), h))
  ]
]

property-delete :
    (k j : String) (ps : Properties)
    → property k (delete j ps) ≡ (if str_eq j k then none else property k ps)
unfolding property delete
property-delete k j [] = ground arith
property-delete k j ((i, v) ∷ ps) =
    ground (arith, property-delete k j ps, eq_iff i j, eq_iff j k, eq_iff i k)

with_clone-has_clone : (cs : List Command) → has_clone (with_clone cs) ≡ true
unfolding has_clone with_clone
with_clone-has_clone [] = refl
with_clone-has_clone (c ∷ cs) = ground arith

with_clone-IsCloned : (cs : List Command) → IsCloned cs (with_clone cs)
unfolding with_clone property
with_clone-IsCloned [] = (refl, refl, (λ k. ground arith), refl)
with_clone-IsCloned (c ∷ cs) = elim (Option-cases (property "image" c.properties)) [
  | inl e ↦
      rw (e, with_clone)
        (
          refl,
          refl,
          (λ k. ground (arith, e)),
          (refl, refl, (λ k. ground (arith, e, eq_iff "image" k)), refl),
        )
  | inr (image, e) ↦
      rw (e, with_clone)
        (
          refl,
          refl,
          (λ k. ground (arith, e)),
          (refl, refl, (λ k. property-delete k "image" c.properties), refl),
        )
]

-- If some command has the name clone, the commands are left as they are. Otherwise a clone command
-- with the clone instruction is put in front of them, which has the image of the first one, if that
-- has an image, and no other property; the first one loses its image, and nothing else about it and
-- the others changes. A second call changes nothing.
pub ensure_clone_instruction-IsEnsured :
    (cs : List Command)
    → Ensures cs (ensure_clone_instruction cs)
      × (ensure_clone_instruction (ensure_clone_instruction cs) ≡ ensure_clone_instruction cs)
unfolding ensure_clone_instruction
ensure_clone_instruction-IsEnsured cs = elim (has_clone_cases cs) [
  | inl (e, found) ↦ (inl (found, rw e refl), ground (arith, e))
  | inr (e, missing) ↦
      rw e (inr (missing, with_clone-IsCloned cs), rw (with_clone-has_clone cs) refl)
]
