-- ===== src/Tests/Builds.antt =====
-- internal/executor on a build of three tasks: `test` requires `lint` and the image of a Dockerfile.
use cirrus_cli.Prelude.{
  String, true, false, ◌≡◌, refl, ◌≢◌, ◌↔◌, inl, Option, none, some, List, [], ◌∷◌, All, In, arith,
  returns, panics,
}
use cirrus_cli.Build.{
  new, undefined, success, on_success, on_failure, Command, arm64, container, prebuilt, Task,
  task_status, get_task, get_command, next_from, get_next_task, has_unresolved, can_run,
}
use cirrus_cli.Build.Next.{
  IsClosed, IsBest, HasUniqueIds, get_next_task-IsBest, next_from_any_order,
}
use cirrus_cli.Build.Status.{IsPending, task_status-new_iff}
use cirrus_cli.Executor.Placement.{task_arch, task_os, requires_task, inherited_arch}
use cirrus_cli.Executor.Rpc.{
  Status, CommandResult, ok, report_updates, apply_update, Rpc, report_command_updates,
}
use cirrus_cli.Executor.Rpc.Reports.{
  status_in, last_reported, option_map, AllKnown, report_updates_known,
}
use cirrus_cli.Executor.Run.{Error, Attempt, Runner, finished, run, run_task, is_misplaced}
use cirrus_cli.Executor.Run.Tasks.{count_new}
use cirrus_cli.Executor.Run.Loop.{IsWellFormed}
use cirrus_cli.Executor.Run.Complete.{
  IsRanked, IsNewOrGreen, IsVerdict, InOrder, run_completes, run-InOrder, run-IsVerdict,
}

program : Unit {0}
unfolding task_status get_task get_command get_next_task can_run has_unresolved report_updates
    apply_update report_command_updates task_arch inherited_arch requires_task task_os run run_task
    is_misplaced count_new
program = tt

abbrev main_script : Command
main_script = record { name = "main"; execution_behaviour = on_success; status = undefined }

abbrev on_error : Command
on_error = record { name = "cleanup"; execution_behaviour = on_failure; status = undefined }

abbrev lint : Task
lint = record {
  id = 0;
  required_ids = [];
  name = "lint";
  status = new;
  instance_of = container none false;
  commands = main_script ∷ on_error ∷ [];
}

abbrev image : Task
image = record {
  id = 1;
  required_ids = [];
  name = "Prebuild Dockerfile";
  status = new;
  instance_of = prebuilt;
  commands = main_script ∷ [];
}

abbrev test : Task
test = record lint {
  id = 2;
  required_ids = 0 ∷ 1 ∷ [];
  name = "test";
  instance_of = container (some arm64) false;
}

abbrev tasks : List Task
tasks = test ∷ image ∷ lint ∷ []

abbrev done : Task
done = record lint { commands = (record main_script { status = success }) ∷ on_error ∷ [] }

first_task : get_next_task (record { tasks = tasks }) ≡ returns (some lint)
unfolding program
first_task = refl

dangling : get_next_task (record { tasks = (record test { required_ids = 7 ∷ [] }) ∷ [] }) ≡ panics
unfolding program
dangling = refl

tasks-IsClosed : IsClosed tasks tasks
unfolding get_task
tasks-IsClosed = ground arith

task_status-new_iff_example :
    (task_status done ≡ new)
    ↔ ((done.status ≡ new) × ((c : Command) × In c done.commands × IsPending done.commands c))
task_status-new_iff_example = task_status-new_iff done

get_next_task-IsBest_example :
    (o : Option Task) × (get_next_task (record { tasks = tasks }) ≡ returns o)
    × IsBest tasks tasks o
get_next_task-IsBest_example = get_next_task-IsBest (record { tasks = tasks }) tasks-IsClosed

abbrev visited : List Task
visited = lint ∷ test ∷ image ∷ []

unique : HasUniqueIds tasks
unique t u m n e = ground (arith, m, n, e)

same : (t : Task) → In t visited ↔ In t tasks
same t = (λ m. ground (arith, m), λ m. ground (arith, m))

visited-IsClosed : IsClosed tasks visited
unfolding get_task
visited-IsClosed = ground arith

next_from_any_order_example :
    next_from tasks visited none ≡ get_next_task (record { tasks = tasks })
next_from_any_order_example =
    next_from_any_order tasks visited unique same tasks-IsClosed visited-IsClosed

image_arch : task_arch image tasks ≡ some arm64
unfolding program
image_arch = refl

abbrev updates : List CommandResult
updates =
    (record { name = "main"; status = Status.executing })
    ∷ (record { name = "main"; status = Status.completed })
    ∷ []

updates-AllKnown : AllKnown updates lint.commands
unfolding get_command
updates-AllKnown = ground arith

report_updates_known_example :
    ((report_updates updates lint.commands).1 ≡ ok tt)
    × ((name : String)
        → status_in name (report_updates updates lint.commands).0
          ≡ option_map (last_reported name updates) (status_in name lint.commands))
report_updates_known_example = report_updates_known updates lint.commands updates-AllKnown

reported : (report_updates updates lint.commands).0 ≡ done.commands
unfolding program
reported = refl

abbrev stray : CommandResult
stray = record { name = "other"; status = Status.failed }

stray_absent : get_command "other" lint.commands ≡ none
unfolding get_command
stray_absent = refl

abbrev rpc : Rpc
rpc = record { tasks = tasks; client_secret = "secret" }

abbrev linux : Runner
linux = record {
  host = record { goarch = "arm64"; goos = "linux"; file_exists = λ path. true };
  running_windows_containers = false;
  qemu_available = true;
}

-- the first command of every task completes
abbrev attempt : List Task → Task → Attempt
attempt ts t = record {
  start_error = none;
  reports = updates ∷ [];
  run_error = none;
  close_error = none;
}

tasks-IsWellFormed : IsWellFormed tasks
tasks-IsWellFormed = record { distinct = omega arith; closed = tasks-IsClosed }

tasks-new : count_new tasks ≡ 3
unfolding program
tasks-new = refl

tasks-IsRanked : IsRanked (λ i. i) tasks
tasks-IsRanked = omega arith

run_completes_example :
    (ts : List Task) × (e : Option Error) × (run linux attempt 4 tasks none ≡ finished ts e)
    × ((t : Task) → In t ts → task_status t ≢ new)
run_completes_example =
    run_completes linux attempt (λ i. i) tasks tasks-IsWellFormed 4 (omega (arith, tasks-new))
      tasks-IsRanked (λ ts t. record { calm_start = refl; calm_run = refl; calm_close = refl })

run-InOrder_example :
    (ts : List Task) × (e : Option Error) × (run linux attempt 4 tasks none ≡ finished ts e)
    × All (InOrder tasks ts) ts
run-InOrder_example =
    run-InOrder linux attempt tasks 4 tasks-IsWellFormed (omega (arith, tasks-new))

tasks-IsNewOrGreen : All IsNewOrGreen tasks
unfolding program
tasks-IsNewOrGreen = (inl refl, (inl refl, (inl refl, tt)))

run-IsVerdict_example :
    (ts : List Task) × (e : Option Error) × (run linux attempt 4 tasks none ≡ finished ts e)
    × IsVerdict ts e
run-IsVerdict_example =
    run-IsVerdict linux attempt 4 tasks tasks-IsWellFormed (omega (arith, tasks-new))
      tasks-IsNewOrGreen
