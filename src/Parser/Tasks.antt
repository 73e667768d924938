-- ===== src/Parser/Tasks.antt =====
-- pkg/parser/parser.go: parseTasks, which hands the top-level nodes of a configuration to the parsers of
-- tasks, names and numbers the tasks and leaves out those that only_if disables. The parsers of
-- pkg/parser/task enter as an argument; names of nodes have no line breaks.
pub mod Order
pub mod Sources
pub mod Numbers
use Prim.Native.String.{[] as end_of_text, ◌∷◌ as character}
use cirrus_cli.Prelude.{
  ℕ, suc, String, Bool, true, false, Option, none, some, List, [], ◌∷◌, ◌++◌, if◌then◌else◌, str_eq,
}
use cirrus_cli.Parser.Defs.{TaskLike}
use cirrus_cli.Parser.Suffix.{ends_with}
use cirrus_cli.Parser.Tree.{Node, Nodes, nil, cons, name_of}

-- the keys of Parser.parsers, each with the parser of its tasks
pub data Kind : Type 0 where
  task docker_pipe docker_builder : Kind

-- what stands behind the group in the regular expression of the key
abbrev pub suffix_of : Kind → String
suffix_of task = "task"
suffix_of docker_pipe = "pipe"
suffix_of docker_builder = "docker_builder"

-- RegexNameable.Matches
unfoldable pub matches : Kind → String → Bool
unfolding ends_with
matches k name = ends_with name (suffix_of k)

-- a text without a suffix that it ends with
unfoldable pub before : String → String → String
before suffix end_of_text = end_of_text
before suffix (character c s) =
    let rest = before suffix s in
    if str_eq (character c s) suffix then end_of_text else character c rest

-- strings.TrimSuffix
unfoldable pub trim_suffix : String → String → String
unfolding before ends_with
trim_suffix suffix s = if ends_with s suffix then before suffix s else s

-- RegexNameable.FirstGroupOrDefault, where the expression matches
unfoldable pub first_group_or_default : Kind → String → String → String
unfolding trim_suffix before
first_group_or_default k name default =
    let group = before (suffix_of k) name in
    if str_eq group "" then default else trim_suffix "_" group

-- what Parse of a task leaves in it: its name or "", and Enabled by CIRRUS_TASK_NAME, none for an error
pub record Parsed : Type 0 where
  pub name : String
  pub alias : String
  pub depends_on_names : List String
  pub only_if_expression : String
  pub enabled : String → Option Bool

-- a task with SetIndexWithinBuild
pub record Indexed : Type 0 where
  pub like : TaskLike
  pub index_within_build : ℕ

-- Parser, as far as parseTasks changes it; `warnings` are the nodes that were warned about
pub record Parser : Type 0 where
  pub id_numbering : ℕ
  pub index_numbering : ℕ
  pub tasks_count_before_filtering : ℕ
  pub disabled_task_names_and_aliases : List String
  pub warnings : List String

-- New
abbrev pub new_parser : Parser
new_parser = record {
  id_numbering = 0;
  index_numbering = 0;
  tasks_count_before_filtering = 0;
  disabled_task_names_and_aliases = [];
  warnings = [];
}

-- strings.HasPrefix
unfoldable pub starts_with : String → String → Bool
starts_with s end_of_text = true
starts_with end_of_text (character d t) = false
starts_with (character c s) (character d t) =
    let rest = starts_with s t in
    if str_eq (character c end_of_text) (character d end_of_text) then rest else false

-- the warning about names like task_build
unfoldable pub warn : String → Parser → Parser
unfolding starts_with
warn name p = if starts_with name "task_" then record p { warnings = name ∷ p.warnings } else p

-- the name after SetFallbackName and SetName
unfoldable pub final_name : Kind → String → Parsed → String
unfolding first_group_or_default
final_name k node_name t =
    if str_eq t.name "" then first_group_or_default k node_name "main" else t.name

-- the task that parseTasks appends
unfoldable pub indexed : Kind → String → Parsed → Parser → Indexed
unfolding first_group_or_default final_name
indexed k node_name t p = record {
  like = record {
    id = p.id_numbering;
    name = final_name k node_name t;
    alias = t.alias;
    fallback_name = first_group_or_default k node_name "main";
    depends_on_names = t.depends_on_names;
    depends_on_ids = [];
    only_if_expression = t.only_if_expression;
  };
  index_within_build = p.index_numbering;
}

-- NextTaskID, and the count of the task
abbrev pub counted : Parser → Parser
counted p = record p {
  id_numbering = suc p.id_numbering;
  tasks_count_before_filtering = suc p.tasks_count_before_filtering;
}

-- the end of the loop's body, by what Enabled answers: NextTaskLocalIndex, or the names of a
-- disabled task
unfoldable pub filter :
    Kind → String → Parsed → Parser → Option Bool → Parser × Option (List Indexed)
unfolding indexed final_name
filter k node_name t p none = (counted p, none)
filter k node_name t p (some true) = (
  record (counted p) { index_numbering = suc p.index_numbering },
  some (indexed k node_name t p ∷ []),
)
filter k node_name t p (some false) = (
  record (counted p) {
    disabled_task_names_and_aliases =
        t.alias ∷ final_name k node_name t ∷ p.disabled_task_names_and_aliases;
  },
  some [],
)

abbrev pub append_to :
    List Indexed → Parser × Option (List Indexed) → Parser × Option (List Indexed)
append_to ts (p, none) = (p, none)
append_to ts (p, some us) = (p, some (ts ++ us))

abbrev pub then_parse :
    Parser × Option (List Indexed)
    → (Parser → Parser × Option (List Indexed))
    → Parser × Option (List Indexed)
then_parse (p, none) f = (p, none)
then_parse (p, some ts) f = append_to ts (f p)

module _ (parse_as : Kind → Node → Option Parsed) where
  -- the body of the inner loop where the key matches; none is the error
  unfoldable pub parse_one : Kind → Node → Parser → Parser × Option (List Indexed)
  unfolding filter final_name
  parse_one k n p = elim (parse_as k n) [
    | none ↦ (p, none)
    | some t ↦ filter k (name_of n) t p (t.enabled (final_name k (name_of n) t))
  ]

  -- the inner loop over the parsers, in the order in which the map is iterated
  unfoldable pub parse_kinds : List Kind → Node → Parser → Parser × Option (List Indexed)
  unfolding parse_one matches
  parse_kinds [] n p = (p, some [])
  parse_kinds (k ∷ ks) n p =
      if matches k (name_of n)
      then then_parse (parse_one k n p) (parse_kinds ks n)
      else parse_kinds ks n p

  -- parseTasks, over the children of the root; `order` is that of the map of the parsers
  unfoldable pub parse_tasks : List Kind → Nodes → Parser → Parser × Option (List Indexed)
  unfolding parse_kinds warn
  parse_tasks order nil p = (p, some [])
  parse_tasks order (cons n ns) p =
      then_parse (parse_kinds order n (warn (name_of n) p)) (parse_tasks order ns)
