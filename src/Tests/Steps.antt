-- ===== src/Tests/Steps.antt =====
-- internal/agent/executor on small inputs: the steps of a task, boxed values and logs.
use cirrus_cli.Prelude.{
  ℕ, zero, suc, String, str_eq, Bool, true, false, ◌≡◌, refl, ◌≢◌, inl, Option, none, some, List,
  [], ◌∷◌, Text, Outcome, returns, panics, arith, eq_iff, has_prefix,
}
use cirrus_cli.Build.{
  TaskStatus, undefined, on_success, always, Command, container, Task, task_status,
}
use cirrus_cli.Executor.Rpc.{CommandResult, executing, completed, failed, skipped}
use cirrus_cli.Agent.Steps.{
  Step, cirrus_env, script, exited, Answer, Executor, Loop, bounded_commands, perform_step, turn,
  run_build,
}
use cirrus_cli.Agent.Steps.Bounds.{bounded_commands_range}
use cirrus_cli.Agent.Steps.Reports.Settled.{receive_all}
use cirrus_cli.Agent.Steps.Reports.Served.{run_build_settles}
use cirrus_cli.Agent.UpdateBatcher.{queue, flush}
use cirrus_cli.Agent.Environment.{Items, merge, is_well_known_sensitive, put}
use cirrus_cli.Agent.Vault.{new_boxed_value, boxed}
use cirrus_cli.Agent.Vault.{BoxedValue}
use cirrus_cli.Agent.Vault.RoundTrip.{write, values_in, values_for, new_boxed_value-write}
use cirrus_cli.Agent.Logs.{with_timestamps, write_chunk}
use cirrus_cli.Agent.Logs.Masked.{HasNo, write_chunk-HasNo}

-- `lint`, `test`, and `clean`, which always runs
abbrev lint : Step
lint = record { name = "lint"; execution_behaviour = on_success; instruction = script }

abbrev test : Step
test = record { name = "test"; execution_behaviour = on_success; instruction = script }

abbrev clean : Step
clean = record { name = "clean"; execution_behaviour = always; instruction = script }

differ : (s t : String) → str_eq s t ≡ false → s ≢ t
differ s t h e = ground (arith, h, e, eq_iff s t)

bounded_commands_range_example :
    (bounded_commands (lint ∷ test ∷ clean ∷ []) "test" "clean" ≡ returns (test ∷ []))
    × (bounded_commands (lint ∷ test ∷ clean ∷ []) "test" "" ≡ returns (test ∷ clean ∷ []))
    × (bounded_commands (lint ∷ test ∷ clean ∷ []) "" "clean" ≡ returns (lint ∷ test ∷ []))
    × (bounded_commands (lint ∷ test ∷ clean ∷ []) "clean" "test" ≡ panics)
bounded_commands_range_example =
    bounded_commands_range (lint ∷ []) [] [] test clean (differ "test" "" refl)
      (differ "clean" "" refl)
      (
        (differ "lint" "test" refl, (differ "lint" "clean" refl, tt)),
        ((differ "test" "clean" refl, tt), (tt, tt)),
      )

-- each answer is good, but the script of the first step ends in a failure
abbrev answer : Bool → Answer
answer ok = record {
  timed_out = false;
  accepts = ok;
  log_opens = true;
  cirrus_env_path = some (b'e' ∷ []);
  succeeds = true;
  writes_file = true;
  script_end = exited ok false;
  starts = true;
  variables = [];
}

abbrev answers : ℕ → Answer
answers zero = answer false
answers (suc i) = answer true

abbrev agent : Executor
agent = record { env = record { items = []; sensitive_values = [] }; background_commands = [] }

abbrev same : Items → Items
same i = i

abbrev loop_of : Outcome (Loop × Bool) → Option Loop
loop_of panics = none
loop_of (returns (l, b)) = some l

abbrev command : String → Command
command n = record { name = n; execution_behaviour = always; status = undefined }

abbrev task : Task
task = record {
  id = 0;
  required_ids = [];
  name = "check";
  status = TaskStatus.new;
  instance_of = container none false;
  commands = command "lint" ∷ command "test" ∷ command "clean" ∷ [];
}

agent_run : Unit {0}
unfolding run_build turn perform_step queue flush merge
agent_run = tt

abbrev reports : List CommandResult
reports =
    (record { name = "lint"; status = executing })
    ∷ (record { name = "lint"; status = failed })
    ∷ (record { name = "test"; status = skipped })
    ∷ (record { name = "clean"; status = executing })
    ∷ (record { name = "clean"; status = completed })
    ∷ []

abbrev end : Loop
end = record {
  executor = record {
    env = record { items = (cirrus_env, b'e' ∷ []) ∷ []; sensitive_values = [] };
    background_commands = [];
  };
  failed_once = true;
  batcher = record { update_history = reports; unflushed_updates = [] };
  sent = reports;
}

agent_is_done :
    run_build same answers true (lint ∷ test ∷ clean ∷ []) "" "" agent false ≡ returns (end, true)
unfolding agent_run is_well_known_sensitive put
agent_is_done = refl

run_build_settles_example :
    task_status (record task { commands = receive_all (reports ∷ []) task.commands })
    ≡ TaskStatus.failed
run_build_settles_example =
    run_build_settles same answers (lint ∷ test ∷ clean ∷ []) agent end task (reports ∷ [])
      agent_is_done refl
      (
        refl,
        (differ "test" "lint" refl, (differ "clean" "lint" refl, tt)),
        (refl, (differ "clean" "test" refl, tt), (refl, tt, refl)),
      )
      refl

-- `v=3 w=1 v=4`
abbrev path_args : List (Text × Text)
path_args = (b'v' ∷ [], b'3' ∷ []) ∷ (b'w' ∷ [], b'1' ∷ []) ∷ (b'v' ∷ [], b'4' ∷ []) ∷ []

new_boxed_value-write_example :
    (b : BoxedValue) × (new_boxed_value
        (write true (b'k' ∷ b'v' ∷ []) ((b'd' ∷ []) ∷ (b'p' ∷ []) ∷ []) path_args)
      ≡ boxed b)
    × (b.vault_path ≡ b'k' ∷ b'v' ∷ [])
    × (b.data_path ≡ (b'd' ∷ []) ∷ (b'p' ∷ []) ∷ [])
    × (b.use_cache ≡ true)
    × ((k : Text) → values_in k b.vault_path_args ≡ values_for k path_args)
new_boxed_value-write_example =
    new_boxed_value-write (b'k' ∷ b'v' ∷ []) (b'd' ∷ []) ((b'p' ∷ []) ∷ []) path_args true
      (ground arith) (ground arith) (ground arith)

abbrev stamped : Text → Bool → Text × Bool
stamped s owe = with_timestamps (b'T' ∷ []) s owe

-- `pw` in `a pw`
write_chunk-HasNo_example :
    (bytes : Text) × (write_chunk ((b'p' ∷ b'w' ∷ []) ∷ []) (b'a' ∷ b' ' ∷ b'p' ∷ b'w' ∷ [])
      ≡ some bytes)
    × HasNo (b'p' ∷ b'w' ∷ []) bytes
write_chunk-HasNo_example =
    write_chunk-HasNo b'p' (b'w' ∷ []) (ground arith) ((b'p' ∷ b'w' ∷ []) ∷ []) b'a'
      (b' ' ∷ b'p' ∷ b'w' ∷ []) (inl refl)

-- a value that stands in two chunks is sent
split_secret :
    (write_chunk ((b'p' ∷ b'w' ∷ []) ∷ []) (b'p' ∷ []) ≡ some (b'p' ∷ []))
    × (write_chunk ((b'p' ∷ b'w' ∷ []) ∷ []) (b'w' ∷ []) ≡ some (b'w' ∷ []))
unfolding write_chunk has_prefix
split_secret = (refl, refl)
