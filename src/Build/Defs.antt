-- ===== src/Build/Defs.antt =====
-- internal/executor/build: task.go, command.go, build.go, taskstatus and commandstatus. A status is
-- read under the task's own lock in the source, so each read is one step here.
use cirrus_cli.Prelude.{
  ℕ, String, Bool, true, false, ◌&&◌, not, Option, none, some, List, [], ◌∷◌, ltb, ◌==◌,
  if◌then◌else◌, str_eq, Outcome, returns, panics, ◌>>=◌,
}

-- taskstatus.Status
pub data TaskStatus : Type 0 where
  new succeeded failed timed_out skipped : TaskStatus

-- commandstatus.Status
pub data CommandStatus : Type 0 where
  undefined success failure : CommandStatus

-- api.Command_CommandExecutionBehavior
pub data ExecutionBehaviour : Type 0 where
  on_success on_failure on_timeout always : ExecutionBehaviour

-- Command, with the fields of `ProtoCommand` that the scheduling reads
pub record Command : Type 0 where
  pub name : String
  pub execution_behaviour : ExecutionBehaviour
  pub status : CommandStatus

-- api.Architecture
pub data Architecture : Type 0 where
  amd64 arm64 : Architecture

-- abstract.Instance: its dynamic type, with the fields that the placement reads. `container` has its
-- architecture, if one is set, and whether its platform is a *platform.WindowsPlatform; `other_instance`
-- stands for the types that no type switch of the executor names.
pub data Instance : Type 0 where
  container : Option Architecture → Bool → Instance
  freebsd prebuilt tart vetu parallels other_instance : Instance

pub record Task : Type 0 where
  pub id : ℕ
  pub required_ids : List ℕ
  pub name : String
  pub status : TaskStatus
  pub instance_of : Instance
  pub commands : List Command

-- Build: the map from IDs to tasks, in some order of iteration
pub record Build : Type 0 where
  pub tasks : List Task

abbrev pub is_undefined : CommandStatus → Bool
is_undefined undefined = true
is_undefined _ = false

abbrev pub is_failure : CommandStatus → Bool
is_failure failure = true
is_failure _ = false

abbrev pub is_new : TaskStatus → Bool
is_new new = true
is_new _ = false

unfoldable pub failed_at_least_once : List Command → Bool
failed_at_least_once [] = false
failed_at_least_once (c ∷ cs) = if is_failure c.status then true else failed_at_least_once cs

-- `shouldRun` of Task.Status
abbrev pub should_run : ExecutionBehaviour → Bool → Bool
should_run on_success failed_once = not failed_once
should_run on_failure failed_once = failed_once
should_run on_timeout failed_once = false
should_run always failed_once = true

-- the loop of Task.Status over the commands, and what follows it
unfoldable pub status_of : Bool → List Command → TaskStatus
status_of failed_once [] = if failed_once then failed else succeeded
status_of failed_once (c ∷ cs) =
    if is_undefined c.status && should_run c.execution_behaviour failed_once
    then new
    else status_of failed_once cs

-- Task.Status: a stored status other than New wins
unfoldable pub task_status : Task → TaskStatus
unfolding status_of failed_at_least_once
task_status t =
    if is_new t.status then status_of (failed_at_least_once t.commands) t.commands else t.status

-- Task.SetStatus
abbrev pub set_status : TaskStatus → Task → Task
set_status s t = record t { status = s }

-- Task.GetCommand
unfoldable pub get_command : String → List Command → Option Command
get_command name [] = none
get_command name (c ∷ cs) = if str_eq c.name name then some c else get_command name cs

-- Build.GetTask: nil on a missing ID
unfoldable pub get_task : ℕ → List Task → Option Task
get_task id [] = none
get_task id (t ∷ ts) = if t.id == id then some t else get_task id ts

-- Build.taskHasUnresolvedDependencies: `requiredTask.Status()` locks a mutex behind the pointer, and
-- panics on nil
unfoldable pub has_unresolved : List Task → List ℕ → Outcome Bool
has_unresolved tasks [] = returns false
has_unresolved tasks (r ∷ rs) = elim (get_task r tasks) [
  | none ↦ panics
  | some t ↦ elim (is_new (task_status t)) [ true ↦ returns true | false ↦ has_unresolved tasks rs ]
]

-- the test that keeps a task in the running, `!(Status() != New || taskHasUnresolvedDependencies)`
unfoldable pub can_run : List Task → Task → Outcome Bool
can_run tasks t =
    if is_new (task_status t)
    then (do unresolved ← has_unresolved tasks t.required_ids; returns (not unresolved))
    else returns false

-- `result == nil || task.ID < result.ID`
abbrev pub better : Task → Option Task → Option Task
better t none = some t
better t (some r) = if ltb t.id r.id then some t else some r

-- the loop of GetNextTask over the map, with `result` threaded through
unfoldable pub next_from : List Task → List Task → Option Task → Outcome (Option Task)
next_from tasks [] result = returns result
next_from tasks (t ∷ ts) result = do
  runs ← can_run tasks t
  next_from tasks ts (if runs then better t result else result)

-- Build.GetNextTask
unfoldable pub get_next_task : Build → Outcome (Option Task)
unfolding next_from
get_next_task b = next_from b.tasks b.tasks none
