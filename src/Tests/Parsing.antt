-- ===== src/Tests/Parsing.antt =====
-- Wrapped tasks, cache attempts and labels on small inputs.
use cirrus_cli.Prelude.{
  ℕ, zero, suc, str_eq, ap, String, true, ◌≡◌, refl, ◌≢◌, Option, none, some, List, [], ◌∷◌, All,
  Text, arith, length, text_eq,
}
use cirrus_cli.Build.{on_success, other_instance, Instance}
use cirrus_cli.Build.Create.{
  ProtoTask, created, skipped_by_parser, remove_clone, is_integer, digits,
}
use cirrus_cli.Build.Create.Fresh.{IsAccepted}
use cirrus_cli.Parser.Labels.{
  similarly_named, all_labels, labels_among, unique_labels, occurrences, sort_labels, insert_label,
  text_leb, kept_labels, is_common, count_label,
}

abbrev new_instance : ProtoTask → Option Instance
new_instance p = some other_instance

abbrev parsed : ProtoTask
parsed = record {
  local_group_id = 0;
  required_groups = [];
  name = "test";
  status = created;
  timeout_in = some (b'9' ∷ b'0' ∷ []);
  commands =
      (record { name = "clone"; execution_behaviour = on_success })
      ∷ (record { name = "main"; execution_behaviour = on_success })
      ∷ [];
}

abbrev skipping : ProtoTask
skipping = record parsed { local_group_id = 1; status = skipped_by_parser; timeout_in = none }

timeout_is_integer : is_integer (b'9' ∷ b'0' ∷ []) ≡ true
unfolding is_integer digits
timeout_is_integer = refl

one_clone_removed :
    remove_clone parsed.commands ≡ (record { name = "main"; execution_behaviour = on_success }) ∷ []
unfolding remove_clone
one_clone_removed = refl

both-IsAccepted : All (IsAccepted new_instance) (parsed ∷ skipping ∷ [])
both-IsAccepted = (
  ((other_instance, refl), (rw timeout_is_integer refl), λ h. ground (arith, h)),
  (((other_instance, refl), refl, λ h. ground (arith, h)), tt),
)

b-differs : ◌≢◌ {A = String} "b" "a"
b-differs h = ground (arith, ap (λ s. str_eq s "a") h)

abbrev linux : Text
linux = b'l' ∷ []

abbrev windows : Text
windows = b'w' ∷ []

abbrev docker : Text
docker = b'd' ∷ []

-- a task by its number; the first two have a label of their own and share one
abbrev name_of : ℕ → String
name_of t = "test"

abbrev labels_of : ℕ → Option (List Text)
labels_of zero = some (linux ∷ docker ∷ [])
labels_of (suc t) = some (windows ∷ docker ∷ [])

labels : Unit {0}
unfolding unique_labels labels_among similarly_named all_labels sort_labels insert_label text_leb
    kept_labels is_common count_label occurrences text_eq
labels = tt

unique : unique_labels ℕ name_of labels_of 0 (0 ∷ 1 ∷ []) ≡ some (linux ∷ [])
unfolding labels
unique = refl

several : length (similarly_named ℕ name_of labels_of 0 (0 ∷ 1 ∷ [])) ≢ 1
unfolding similarly_named
several h = ground (arith, h)

read :
    all_labels ℕ name_of labels_of (similarly_named ℕ name_of labels_of 0 (0 ∷ 1 ∷ []))
    ≡ some ((linux ∷ docker ∷ []) ∷ (windows ∷ docker ∷ []) ∷ [])
unfolding similarly_named all_labels
read = refl

abbrev both : List (List Text)
both = (linux ∷ docker ∷ []) ∷ (windows ∷ docker ∷ []) ∷ []

both-nonempty : both ≢ []
both-nonempty h = ground (arith, h)
