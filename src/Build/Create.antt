-- ===== src/Build/Create.antt =====
-- internal/executor/build: NewFromProto of task.go and New of build.go, which wrap the parsed tasks. The
-- instance that instance.NewFromProto makes of a task is an argument; timeouts and environments are left out.
pub mod Fresh
use cirrus_cli.Prelude.{
  ℕ, ◌+◌, ◌-◌, ◌*◌, String, Bool, true, false, ◌&&◌, ◌||◌, Option, none, some, List, [], ◌∷◌, map,
  leb, ltb, ◌==◌, if◌then◌else◌, str_eq, Text,
}
use cirrus_cli.Build.Defs.{
  TaskStatus, new, skipped, CommandStatus, undefined, ExecutionBehaviour, Command, Instance, Task,
  Build, set_status,
}

-- the api.Status of a parsed task, as NewFromProto reads it
pub data ProtoStatus : Type 0 where
  created skipped_by_parser other_status : ProtoStatus

-- api.Command
pub record ProtoCommand : Type 0 where
  pub name : String
  pub execution_behaviour : ExecutionBehaviour

-- api.Task; `timeout_in` is the property of the metadata, if there are any
pub record ProtoTask : Type 0 where
  pub local_group_id : ℕ
  pub required_groups : List ℕ
  pub name : String
  pub status : ProtoStatus
  pub timeout_in : Option Text
  pub commands : List ProtoCommand

-- the errors of NewFromProto, and those of filepath.Abs and cache.New
pub data CreateError : Type 0 where
  instance_failed bad_timeout unhandled_status bad_project_dir cache_failed : CreateError

pub data Created {ℓ} (A : Type ℓ) : Type ℓ where
  made : A → Created A
  fails : CreateError → Created A

-- the digits of strconv.Atoi: their value, if there is one
unfoldable pub digits : Text → ℕ → Option ℕ
digits [] n = some n
digits (c ∷ s) n =
    let rest = digits s (n * 10 + (c - b'0')) in if leb b'0' c && leb c b'9' then rest else none

abbrev pub in_range : Text → ℕ → Bool
in_range [] bound = false
in_range (c ∷ s) bound = elim (digits (c ∷ s) 0) [ none ↦ false | some n ↦ ltb n bound ]

-- strconv.Atoi: whether it succeeds, into an int of 64 bits
unfoldable pub is_integer : Text → Bool
unfolding digits
is_integer [] = false
is_integer (c ∷ s) =
    if c == b'-'
    then in_range s 9223372036854775809
    else if c == b'+'
    then in_range s 9223372036854775808
    else in_range (c ∷ s) 9223372036854775808

-- the loop that removes the first clone instruction
unfoldable pub remove_clone : List ProtoCommand → List ProtoCommand
remove_clone [] = []
remove_clone (c ∷ cs) = let rest = c ∷ remove_clone cs in if str_eq c.name "clone" then cs else rest

abbrev pub wrap_command : ProtoCommand → Command
wrap_command c = record {
  name = c.name;
  execution_behaviour = c.execution_behaviour;
  status = undefined;
}

unfoldable pub wrap_commands : List ProtoCommand → List Command
wrap_commands [] = []
wrap_commands (c ∷ cs) = wrap_command c ∷ wrap_commands cs

-- the test on "timeout_in"
abbrev pub timeout_fails : Option Text → Bool
timeout_fails none = false
timeout_fails (some s) = if is_integer s then false else true

-- the task that NewFromProto makes, before its status is set
abbrev pub wrap_task : ProtoTask → Instance → Task
wrap_task p i = record {
  id = p.local_group_id;
  required_ids = p.required_groups;
  name = p.name;
  status = new;
  instance_of = i;
  commands = wrap_commands (remove_clone p.commands);
}

abbrev pub with_status : ProtoStatus → Task → Created Task
with_status created t = made (set_status new t)
with_status skipped_by_parser t = made (set_status skipped t)
with_status other_status t = fails unhandled_status

-- the assignment to wrappedTasks[wrappedTask.ID]
unfoldable pub put_task : Task → List Task → List Task
put_task t [] = t ∷ []
put_task t (u ∷ us) = let rest = put_task t us in if u.id == t.id then t ∷ us else u ∷ rest

module _ (new_instance : ProtoTask → Option Instance) where
  -- NewFromProto
  unfoldable pub new_from_proto : ProtoTask → Created Task
  new_from_proto p = elim (new_instance p) [
    | none ↦ fails instance_failed
    | some i ↦
        if timeout_fails p.timeout_in
        then fails bad_timeout
        else with_status p.status (wrap_task p i)
  ]

  unfoldable pub wrap_tasks : List ProtoTask → List Task → Created (List Task)
  wrap_tasks [] wrapped = made wrapped
  wrap_tasks (p ∷ ps) wrapped = elim (new_from_proto p) [
    | fails e ↦ fails e
    | made t ↦ wrap_tasks ps (put_task t wrapped)
  ]

  -- New; the arguments tell whether filepath.Abs and cache.New fail
  unfoldable pub new_build : Bool → Bool → List ProtoTask → Created Build
  new_build abs_fails cache_fails ps =
      if abs_fails then fails bad_project_dir else elim (wrap_tasks ps []) [
        | fails e ↦ fails e
        | made tasks ↦ if cache_fails then fails cache_failed else made (record { tasks = tasks })
      ]

-- ProtoCommands
unfoldable pub proto_commands : List Command → List ProtoCommand
proto_commands [] = []
proto_commands (c ∷ cs) =
    (record { name = c.name; execution_behaviour = c.execution_behaviour }) ∷ proto_commands cs
