-- ===== src/Parser/Parseable/Instances.antt =====
-- pkg/parser/parseable: when Parse gives up on the collectible fields, of which those that define an
-- instance may fail as long as another one is there.
use cirrus_cli.Prelude.{
  String, Bool, true, false, not, ◌&&◌, ◌||◌, Option, none, some, List, [], ◌∷◌, if◌then◌else◌, ◌≡◌,
  refl, arith, Option-cases, inl, inr,
}
use cirrus_cli.Parser.Tree.{Node}
use cirrus_cli.Parser.Parseable.{
  CollectibleField, Step, go_on, stop, evaluate_collectible, collectible_loop, check_delayed,
}

abbrev is_error {ℓ} : {A : Type ℓ} → Option A → Bool
is_error none = false
is_error (some a) = true

unfoldable pub goes_on : {S E A : Type 0} → S × Step S E A → Bool
goes_on (s, go_on a) = true
goes_on (s, stop e) = false

module _ (State Error : Type 0) (collect : String → Node → Option Node) (self : Node) where
  -- what the collectible fields answer when each is evaluated in turn: whether the field defines an
  -- instance, whether there were nodes for it, and whether it failed
  unfoldable pub answers : List (CollectibleField State Error) → State → List (Bool × Bool × Bool)
  unfolding evaluate_collectible
  answers [] s = []
  answers (f ∷ fs) s =
      let (t, found, o) = evaluate_collectible State Error collect self f s in
      (f.defines_instance, found, is_error o) ∷ answers fs t

-- of such answers: whether a field that defines no instance failed, whether one that defines an
-- instance did, and whether one was there and did not fail
unfoldable pub other_failed : List (Bool × Bool × Bool) → Bool
other_failed [] = false
other_failed ((defines, found, failed) ∷ rest) = not defines && failed || other_failed rest

unfoldable pub instance_failed : List (Bool × Bool × Bool) → Bool
instance_failed [] = false
instance_failed ((defines, found, failed) ∷ rest) = defines && failed || instance_failed rest

unfoldable pub instance_matched : List (Bool × Bool × Bool) → Bool
instance_matched [] = false
instance_matched ((defines, found, failed) ∷ rest) =
    defines && (found && not failed) || instance_matched rest

module _ (State Error : Type 0) (collect : String → Node → Option Node) (self : Node) where
  loop-answers :
      (fs : List (CollectibleField State Error)) (delayed : Option Error) (matched : Bool)
      (s : State)
      → goes_on (
          check_delayed State Error
            (collectible_loop State Error collect self fs delayed matched s))
        ≡ (not (other_failed (answers State Error collect self fs s))
            && ((matched || instance_matched (answers State Error collect self fs s))
                || not
                    (is_error delayed || instance_failed (answers State Error collect self fs s))))
  unfolding goes_on check_delayed collectible_loop answers other_failed instance_failed
      instance_matched
  loop-answers [] none false s = refl
  loop-answers [] none true s = refl
  loop-answers [] (some e) false s = refl
  loop-answers [] (some e) true s = refl
  loop-answers (f ∷ fs) delayed matched s =
      let r = evaluate_collectible State Error collect self f s in
      elim (Option-cases r.2) [
        | inl e ↦ ground (
          arith,
          e,
          loop-answers fs delayed (if f.defines_instance && r.1 then true else matched) r.0,
        )
        | inr (x, e) ↦ ground (arith, e, loop-answers fs (some x) matched r.0)
      ]

  -- Parse goes on after its loop over the collectible fields if and only if no field that defines no
  -- instance failed, and some field that defines an instance was there and did not fail, or none
  -- that defines an instance failed.
  pub check_delayed-goes_on :
      (fs : List (CollectibleField State Error)) (s : State)
      → goes_on
          (check_delayed State Error (collectible_loop State Error collect self fs none false s))
        ≡ (not (other_failed (answers State Error collect self fs s))
            && (instance_matched (answers State Error collect self fs s)
                || not (instance_failed (answers State Error collect self fs s))))
  check_delayed-goes_on fs s = loop-answers fs none false s
