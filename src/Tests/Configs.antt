-- ===== src/Tests/Configs.antt =====
-- Tests of the parsers of configurations, of conditions and of the expansion of variables.
use cirrus_cli.Prelude.{
  if◌then◌else◌, ℕ, suc, String, Bool, true, false, not, ◌&&◌, ◌||◌, Option, none, some, List, [],
  ◌∷◌, ◌≡◌, ◌↔◌, refl, Text, All, str_eq, arith,
}
use cirrus_cli.Parser.Tree.{
  Node, node, Nodes, nil, cons, map_value, scalar_value, find_child, find_in,
}
use cirrus_cli.Parser.Parseable.{
  Field, CollectibleField, ordinary_fields, finish, go_on, collectible_loop, check_delayed,
}
use cirrus_cli.Parser.Parseable.Seen.{Sets, finish-Sets}
use cirrus_cli.Parser.Parseable.Instances.{
  answers, goes_on, other_failed, instance_failed, instance_matched, check_delayed-goes_on,
}
use cirrus_cli.Parser.Expander.{Env, expand_environment_variables, sorted_keys}
use cirrus_cli.Parser.Expander.Passes.{passes, expand_environment_variables-passes}
use cirrus_cli.Parser.Expander.Keys.{LongerFirst, sorted_keys-LongerFirst}
use cirrus_cli.Parser.Boolevator.{trim_all_quotes, text, value, op_and, true_text, false_text}
use cirrus_cli.Parser.Tasks.{
  Kind, task, docker_pipe, docker_builder, Parsed, new_parser, parse_tasks, first_group_or_default,
}
use cirrus_cli.Parser.Tasks.Order.{IsOrder, kinds_of, parse_tasks-IsOrder}
use cirrus_cli.Parser.Tasks.Sources.{AreInNodes}
use cirrus_cli.Parser.Tasks.Numbers.{Numbers, parse_tasks-Numbers}
use cirrus_cli.Parser.Services.{Container, ProtoTask, Services, container_instance, other_instance}
use cirrus_cli.Parser.Dockerfile.{
  Read, names, not_directory, FileSystem, find, docker_arguments_to_string,
}
use cirrus_cli.Parser.Dockerfile.Visits.{
  Entries, nothing, also, file, directory, sizes, AreStored, Visited, find-Visited,
}
use cirrus_cli.Parser.Pipeline.{parse_tree}
use cirrus_cli.Parser.Pipeline.Checked.{Promises, parse_tree-Promises}

abbrev leaf : String → String → Node
leaf name s = node name (scalar_value s) nil

abbrev children : Nodes
children = cons (leaf "script" "a") (cons (leaf "name" "b") (cons (leaf "script" "c") nil))

abbrev counts : Node → ℕ → ℕ × Option String
counts n s = (suc s, none)

abbrev script_field : Field ℕ String
script_field = record {
  matches = str_eq "script";
  map_key = "script";
  required = true;
  repeatable = false;
  on_found = counts;
}

-- the first of the two scripts is skipped
counted_once :
    ordinary_fields ℕ String (script_field ∷ []) children [] 0 ≡ (1, go_on ("script" ∷ []))
unfolding ordinary_fields
counted_once = refl

finish-Sets_example :
    ((finish ℕ String
        (script_field ∷ [])
        (ordinary_fields ℕ String (script_field ∷ []) children [] 0)).1
      ≡ none)
    ↔ All
        (λ (f : Field ℕ String).
          f.required ≡ true → Sets ℕ String (script_field ∷ []) f.map_key children)
        (script_field ∷ [])
finish-Sets_example =
    finish-Sets ℕ String (script_field ∷ []) children 0 1 ("script" ∷ []) counted_once

abbrev fails : Node → ℕ → ℕ × Option String
fails n s = (s, some "failed")

abbrev instances : List (CollectibleField ℕ String)
instances =
    (record { name = "container"; defines_instance = true; on_found = fails })
    ∷ (record { name = "macos"; defines_instance = true; on_found = counts })
    ∷ []

abbrev build_node : Node
build_node = node "task" map_value (cons (leaf "container" "x") (cons (leaf "macos" "y") nil))

-- one instance is enough
delayed :
    goes_on (
      check_delayed ℕ String
        (collectible_loop ℕ String find_child build_node instances none false 0))
    ≡ true
unfolding goes_on check_delayed collectible_loop find_in
delayed = refl

check_delayed-goes_on_example :
    goes_on (
      check_delayed ℕ String
        (collectible_loop ℕ String find_child build_node instances none false 0))
    ≡ (not (other_failed (answers ℕ String find_child build_node instances 0))
        && (instance_matched (answers ℕ String find_child build_node instances 0)
            || not (instance_failed (answers ℕ String find_child build_node instances 0))))
check_delayed-goes_on_example = check_delayed-goes_on ℕ String find_child build_node instances 0

abbrev env : Env
env = (b'C' ∷ b'I' ∷ [], b't' ∷ []) ∷ (b'C' ∷ b'I' ∷ b'_' ∷ b'B' ∷ [], b'm' ∷ []) ∷ []

abbrev reference : Text
reference = b'$' ∷ b'C' ∷ b'I' ∷ b'_' ∷ b'B' ∷ b' ' ∷ b'%' ∷ b'C' ∷ b'I' ∷ b'%' ∷ []

expanded : expand_environment_variables reference env ≡ b'm' ∷ b' ' ∷ b't' ∷ []
unfolding expand_environment_variables
expanded = refl

expand_environment_variables-passes_example :
    expand_environment_variables reference env ≡ passes 10 (sorted_keys env) env reference
expand_environment_variables-passes_example = expand_environment_variables-passes reference env

sorted_keys-LongerFirst_example : LongerFirst (sorted_keys env)
sorted_keys-LongerFirst_example = sorted_keys-LongerFirst env

abbrev quoted : Text
quoted = b'"' ∷ b'\'' ∷ b'a' ∷ b'\'' ∷ b'"' ∷ []

unquoted : trim_all_quotes quoted ≡ b'a' ∷ []
unfolding trim_all_quotes
unquoted = refl

anded : op_and (text true_text) (text (b'0' ∷ [])) ≡ value false_text
unfolding op_and
anded = refl

abbrev always : String → Option Bool
always name = some true

abbrev parse_as : Kind → Node → Option Parsed
parse_as k n = some (record {
  name = "";
  alias = "";
  depends_on_names = [];
  only_if_expression = "";
  enabled = always;
})

abbrev config : Nodes
config = cons (leaf "build_task" "") (cons (leaf "env" "") (cons (leaf "test_pipe" "") nil))

abbrev one_way : List Kind
one_way = task ∷ docker_pipe ∷ docker_builder ∷ []

abbrev other_way : List Kind
other_way = docker_builder ∷ docker_pipe ∷ task ∷ []

one_way-IsOrder : IsOrder one_way
unfolding kinds_of
one_way-IsOrder task = refl
one_way-IsOrder docker_pipe = refl
one_way-IsOrder docker_builder = refl

other_way-IsOrder : IsOrder other_way
unfolding kinds_of
other_way-IsOrder task = refl
other_way-IsOrder docker_pipe = refl
other_way-IsOrder docker_builder = refl

named : first_group_or_default task "build_task" "main" ≡ "build"
unfolding first_group_or_default
named = refl

unnamed : first_group_or_default task "task" "main" ≡ "main"
unfolding first_group_or_default
unnamed = refl

parse_tasks-IsOrder_example :
    parse_tasks parse_as one_way config new_parser
    ≡ parse_tasks parse_as other_way config new_parser
parse_tasks-IsOrder_example =
    parse_tasks-IsOrder parse_as one_way other_way config new_parser one_way-IsOrder
      other_way-IsOrder

parse_tasks-Numbers_example :
    Numbers new_parser (parse_tasks parse_as one_way config new_parser)
    × AreInNodes parse_as config (parse_tasks parse_as one_way config new_parser)
parse_tasks-Numbers_example = parse_tasks-Numbers parse_as one_way config new_parser

parse_tree-Promises_example : Promises (parse_tree parse_as one_way config)
parse_tree-Promises_example = parse_tree-Promises parse_as one_way config

abbrev digit : ℕ → String
digit n = "0"

abbrev image : Container
image = record {
  dockerfile = "Dockerfile";
  docker_arguments = ("A", "b") ∷ [];
  is_windows = false;
  image = "";
}

abbrev contained : ProtoTask
contained = record {
  name = "build";
  local_group_id = 0;
  required_groups = [];
  instance_of = container_instance image;
  commands = [];
  environment = [];
  properties = ("dockerfile_hash", "abc") ∷ [];
}

abbrev plain : ProtoTask
plain = record contained { instance_of = other_instance }

abbrev fresh : Services
fresh = record { id_numbering = 3; index_numbering = 3; service_tasks = [] }

-- two ways to pass arguments that are hashed as one text
same_arguments :
    docker_arguments_to_string (("A", "BC") ∷ []) ≡ docker_arguments_to_string (("AB", "C") ∷ [])
unfolding docker_arguments_to_string
same_arguments = refl

abbrev read_dir : String → Read
read_dir path = if str_eq path "src" then names ("src/a" ∷ "src/b" ∷ []) else not_directory

abbrev get_file : String → Option String
get_file path = some path

abbrev second_path : String → String → String
second_path parent path = path

abbrev two_files : FileSystem
two_files = record { read_dir = read_dir; get = get_file; join = second_path }

abbrev copied : Entries
copied =
    also
      (directory "src" ("src/a" ∷ "src/b" ∷ [])
        (also (file "src/a" "src/a") (also (file "src/b" "src/b") nothing)))
      nothing

copied-AreStored : AreStored two_files copied
unfolding AreStored
copied-AreStored = ((refl, refl, ((refl, refl), ((refl, refl), tt))), tt)

find-Visited_example : Visited two_files copied (find two_files 3 ("src" ∷ []))
find-Visited_example =
    find-Visited two_files 3 copied copied-AreStored (unfold sizes in omega arith)
