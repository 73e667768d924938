-- ===== src/Tests/Filters.antt =====
-- Task filters, resource modifiers, the limits on a script's files and the names in depends_on, on small inputs.
use cirrus_cli.Prelude.{
  ℕ, Bool, true, false, ◌≡◌, refl, some, List, [], ◌∷◌, All, Text, ltb, to_lower, text_eq,
  has_prefix, after_prefix, is_blank, split_from, equal_fold, arith,
}
use cirrus_cli.Executor.TaskFilter
use cirrus_cli.Executor.TaskFilter.{
  Filtered, matched, or_no_match, extract_labels, non_blank, has_label, num_matched, contains_all,
  match_task, is_match, without_dependencies, matching, match_exact_task,
  match_exact_task_with_dependencies, match_with_dependencies, collect_dependencies, collect_all,
  task_by_id, is_visited,
}
use cirrus_cli.Executor.TaskFilter.Total.{match_exact_task_with_dependencies_total}
use cirrus_cli.Worker.ResourceModifier
use cirrus_cli.Worker.ResourceModifier.{Modifier, acquire, matches}
use cirrus_cli.Larker.Bounded.{
  FileSystem, Call, opens, makes_dir, writes, open_file, mkdir_all, write, call, calls,
  new_filesystem,
}
use cirrus_cli.Larker.Bounded.Limits.{IsHonest}
use cirrus_cli.Parser.Defs.{TaskLike}
use cirrus_cli.Parser.Clone
use cirrus_cli.Parser.Clone.{
  script, ensure_clone_instruction, with_clone, has_clone, clone_command, property, delete, Ensures,
  ensure_clone_instruction-IsEnsured,
}
use cirrus_cli.Parser.Dependencies.{resolve_dependencies_shallow, resolve_tasks, resolve_names}
use cirrus_cli.Parser.Dependencies
use cirrus_cli.Parser.Dependencies.Resolved.{IsOutcome, resolve_dependencies_shallow-IsOutcome}

abbrev test : Text
test = b't' ∷ b'e' ∷ b's' ∷ b't' ∷ []

abbrev lint : Text
lint = b'l' ∷ b'i' ∷ b'n' ∷ b't' ∷ []

abbrev linux : Text
linux = b'L' ∷ b'i' ∷ b'n' ∷ b'u' ∷ b'x' ∷ []

-- `test linux`
abbrev desired : Text
desired = b't' ∷ b'e' ∷ b's' ∷ b't' ∷ b' ' ∷ b'l' ∷ b'i' ∷ b'n' ∷ b'u' ∷ b'x' ∷ []

abbrev linting : TaskFilter.Task
linting = record {
  local_group_id = 0;
  name = lint;
  alias = [];
  unique_labels = [];
  required_groups = [];
}

abbrev testing : TaskFilter.Task
testing = record {
  local_group_id = 1;
  name = test;
  alias = [];
  unique_labels = linux ∷ [];
  required_groups = 0 ∷ [];
}

abbrev tasks : List TaskFilter.Task
tasks = linting ∷ testing ∷ []

filters : Unit {0}
unfolding match_exact_task matching match_task contains_all num_matched has_label non_blank to_lower
    text_eq has_prefix after_prefix is_blank split_from equal_fold
    match_exact_task_with_dependencies match_with_dependencies collect_dependencies collect_all
    task_by_id is_visited
filters = tt

by_labels : match_exact_task desired tasks ≡ matched (without_dependencies testing ∷ [])
unfolding filters
by_labels = refl

by_dependencies :
    match_exact_task_with_dependencies desired tasks ≡ some (matched (testing ∷ linting ∷ []))
unfolding filters
by_dependencies = refl

-- two tasks that require each other
abbrev circular : List TaskFilter.Task
circular = record linting { required_groups = 1 ∷ [] } ∷ testing ∷ []

match_exact_task_with_dependencies_total_example :
    (r : Filtered) × (match_exact_task_with_dependencies desired circular ≡ some r)
match_exact_task_with_dependencies_total_example =
    match_exact_task_with_dependencies_total desired circular

abbrev exceeds : ℕ → ℕ → Bool
exceeds a b = ltb b a

abbrev small : Modifier ℕ exceeds
small = record { match_on = ("cpu", 2) ∷ []; locked = false }

abbrev large : Modifier ℕ exceeds
large = record { match_on = ("cpu", 8) ∷ []; locked = false }

abbrev modifiers : List (Modifier ℕ exceeds)
modifiers = small ∷ large ∷ []

acquires :
    acquire ℕ exceeds (("cpu", 4) ∷ []) modifiers
    ≡ (small ∷ (record large { locked = true }) ∷ [], some 1)
unfolding acquire matches ResourceModifier.lookup
acquires = refl

abbrev script_calls : List Call
script_calls = opens true true ∷ writes 6 6 true ∷ writes 6 6 true ∷ makes_dir true ∷ []

limits :
    calls script_calls (new_filesystem 10 1)
    ≡ record { max_files = 1; max_bytes = 10; files_created = 1; bytes_written = 6 }
unfolding calls call new_filesystem open_file mkdir_all write
limits = refl

script_calls-IsHonest : All IsHonest script_calls
script_calls-IsHonest = (tt, (omega arith, (omega arith, (tt, tt))))

abbrev full : FileSystem
full = record { max_files = 1; max_bytes = 10; files_created = 1; bytes_written = 6 }

abbrev built : TaskLike
built = record {
  id = 3;
  name = "build";
  alias = "";
  fallback_name = "build";
  depends_on_names = [];
  depends_on_ids = [];
  only_if_expression = "";
}

abbrev deployed : TaskLike
deployed = record built { id = 0; name = "deploy"; depends_on_names = "build" ∷ "docs" ∷ [] }

resolved :
    resolve_dependencies_shallow (deployed ∷ built ∷ []) ("docs" ∷ [])
    ≡ Dependencies.ok (
      (record deployed { depends_on_ids = 3 ∷ [] }) ∷ built ∷ [],
      (record { dependent = "deploy"; dependee = "docs" }) ∷ [],
    )
unfolding resolve_dependencies_shallow resolve_tasks resolve_names Dependencies.ids_of
    Dependencies.has_name Dependencies.sort Dependencies.insert
resolved = refl

resolve_dependencies_shallow-IsOutcome_example :
    IsOutcome
      (deployed ∷ built ∷ [])
      ("docs" ∷ [])
      (deployed ∷ built ∷ [])
      (resolve_dependencies_shallow (deployed ∷ built ∷ []) ("docs" ∷ []))
resolve_dependencies_shallow-IsOutcome_example =
    resolve_dependencies_shallow-IsOutcome (deployed ∷ built ∷ []) ("docs" ∷ [])

abbrev piped : List Clone.Command
piped =
    record { name = "main"; instruction = script []; properties = ("image", "alpine") ∷ [] } ∷ []

cloned :
    ensure_clone_instruction piped
    ≡ clone_command (("image", "alpine") ∷ [])
      ∷ (record { name = "main"; instruction = script []; properties = [] })
      ∷ []
unfolding ensure_clone_instruction with_clone has_clone property delete
cloned = refl

ensure_clone_instruction-IsEnsured_example :
    Ensures piped (ensure_clone_instruction piped)
    × (ensure_clone_instruction (ensure_clone_instruction piped) ≡ ensure_clone_instruction piped)
ensure_clone_instruction-IsEnsured_example = ensure_clone_instruction-IsEnsured piped
