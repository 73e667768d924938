-- ===== src/Tests/Workers.antt =====
-- Tests of the worker, of uploads and of the folders of caches.
use cirrus_cli.Prelude.{
  ℕ, ◌+◌, ◌-◌, String, true, false, Option, none, some, List, [], ◌∷◌, ◌++◌, ltb, ◌==◌, ◌≡◌, ◌↔◌,
  ◌⊎◌, inl, inr, refl, arith, returns, panics, ◌≢◌, if◌then◌else◌, Text, All, In, eq_iff, subst,
  str_eq, Bool-cases,
}
use cirrus_cli.Worker.Api.{Api, IsolationType, none_type, tart_type}
use cirrus_cli.Worker.Resources.{can_fit_resources}
use cirrus_cli.Worker.Resources.Fits.{Suffices, can_fit_resources_iff}
use cirrus_cli.Worker.Tasks.{
  Task, AgentAwareTask, Worker, is_warmable, new_worker, name_of, load, register_task_completions,
}
use cirrus_cli.Worker.Tasks.Moves.{Move, creates_standby, starts, ends, registers, updates, run}
use cirrus_cli.Worker.Tasks.Invariant.{Invariant, listed, occurs, ids, times}
use cirrus_cli.Worker.Tasks.Safe.{IsSafe, IsAllowed}
use cirrus_cli.Worker.Tasks.Conserved.{new_worker-Safe}
use cirrus_cli.Worker.Tasks.Accounted.{run-conserves, failed_start-stays, registered-failures}
use cirrus_cli.Worker.Poll.{Turn, run_worker, Upstream, PollResponse, poll_interval_seconds}
use cirrus_cli.Worker.Poll.Refined.{Runs, run_worker-Runs}
use cirrus_cli.Executor.Artifacts.{Writer, Answers, new_writer}
use cirrus_cli.Executor.Artifacts.Whole.{Upload, Stored, write_files, write_files-Stored}
use cirrus_cli.Agent.CachePaths.{deduplicate_paths}
use cirrus_cli.Agent.CachePaths.Kept.{Covered, deduplicate_paths-Covered}

abbrev parse_digit : String → Option ℕ
parse_digit s = none

-- the isolation 9 is that without isolation
abbrev type_of : ℕ → IsolationType
type_of n = if n == 9 then none_type else tart_type

abbrev api : Api
api = record {
  Amount = ℕ;
  nothing = 0;
  add = ◌+◌;
  subtract = ◌-◌;
  less = ltb;
  Number = ℕ;
  decimal = λ n. "7";
  parse_int = parse_digit;
  Isolation = ℕ;
  isolation_equal = ◌==◌;
  type_of = type_of;
  Parameters = ℕ;
  parameters_equal = ◌==◌;
  isolation_of = λ p. p;
  resources_of = λ p. ("cpu", 2) ∷ [];
}

abbrev total : Option (List (String × ℕ))
total = some (("cpu", 4) ∷ [])

total-given : total ≢ none
total-given e = cc e

tart_parameters : (p : ℕ) → (p == 9) ≡ false → IsSafe api total (some p)
unfolding is_warmable
tart_parameters p e = (total-given, ground (arith, e))

abbrev build_task : AgentAwareTask api
build_task = record {
  task_id = "build";
  old_task_id = 0;
  isolation = 1;
  resources = ("cpu", 1) ∷ [];
}

abbrev old_task : AgentAwareTask api
old_task = record { task_id = ""; old_task_id = 7; isolation = 2; resources = [] }

abbrev moves : List (Move api)
moves =
    updates 1
    ∷ creates_standby true true
    ∷ starts 0 build_task true
    ∷ starts 0 old_task false
    ∷ ends "build"
    ∷ registers
    ∷ []

-- the standby instance is given to the first task; the second one gets none, and stays
run_moves :
    run api moves (new_worker api total none)
    ≡ returns (record {
      user_specified_resources = total;
      tasks = ("7", record { upstream = 0; resources_to_use = []; cancelled = false }) ∷ [];
      running = [];
      completions = [];
      standby_parameters = some 1;
      standby_instance = none;
      created = 1;
      closed = 0 ∷ [];
      failures = "7" ∷ [];
    })
unfolding run
run_moves = refl

moves-IsAllowed : All (IsAllowed api total) moves
moves-IsAllowed = (tart_parameters 1 refl, (tt, (tt, (tt, (tt, (tt, tt))))))

run-conserves_example :
    (w : Worker api) × (run api moves (new_worker api total none) ≡ returns w) × Invariant api w
run-conserves_example = run-conserves api total none moves tt moves-IsAllowed

-- a standby instance without Warmup
no_warmup :
    run api (updates 9 ∷ creates_standby true true ∷ []) (new_worker api total none) ≡ panics
unfolding run
no_warmup = refl

-- a task with resources and a standby instance, on a worker without WithResources
no_resources :
    run api
      (starts 0 build_task true ∷ updates 1 ∷ creates_standby true true ∷ [])
      (new_worker api none none)
    ≡ panics
unfolding run
no_resources = refl

failed_start-stays_example :
    (v : Worker api) × (run api (starts 3 old_task false ∷ moves) (new_worker api total none)
      ≡ returns v)
    × (listed (name_of api old_task) v.tasks ≡ 1)
    × (occurs (name_of api old_task) (ids v.running) ≡ 0)
    × (occurs (name_of api old_task) v.completions ≡ 0)
failed_start-stays_example =
    failed_start-stays api total 3 old_task (new_worker api total none) moves moves-IsAllowed
      (new_worker-Safe api total none tt) (unfold load in refl) refl

abbrev waiting : Task api
waiting = record { upstream = 0; resources_to_use = []; cancelled = false }

abbrev ended : Worker api
ended = record {
  user_specified_resources = total;
  tasks = ("7", waiting) ∷ ("8", waiting) ∷ [];
  running = [];
  completions = "8" ∷ [];
  standby_parameters = none;
  standby_instance = none;
  created = 1;
  closed = 0 ∷ [];
  failures = "7" ∷ [];
}

ended-Invariant : Invariant api ended
unfolding occurs times load
ended-Invariant = record {
  guarded = inl refl;
  owned = λ n. ground arith;
  placed = λ k. elim (Bool-cases (str_eq "7" k)) [
    | inl e ↦
        subst (λ j. occurs j [] + occurs j ("8" ∷ []) + occurs j ("7" ∷ []) ≡ listed j ended.tasks)
          ((eq_iff "7" k).0 e) refl
    | inr e ↦ ground (arith, e)
  ];
}

registered-failures_example :
    listed "7" (register_task_completions api ended).tasks ≡ occurs "7" ("7" ∷ [])
registered-failures_example = registered-failures api "7" ended ended-Invariant refl

abbrev response : PollResponse api
response = record {
  tasks_to_stop = "build" ∷ [];
  old_task_ids_to_stop = 7 ∷ [];
  tasks_to_start = (build_task, true) ∷ (old_task, true) ∷ [];
  shutdown = false;
  updated_standby_instances = 5 ∷ [];
}

response-IsKind :
    (r : PollResponse api)
    → some response ≡ some r
    → All (λ p. IsSafe api total (some p)) r.updated_standby_instances
response-IsKind r e =
    let same : response ≡ r = cc e in
    subst
      (λ (q : PollResponse api). All (λ p. IsSafe api total (some p)) q.updated_standby_instances)
      same (tart_parameters 5 refl, tt)

abbrev upstream : Upstream api
upstream = record {
  number = 0;
  ended = "build" ∷ [];
  registered = true;
  server = λ r. some response;
}

abbrev turns : List (Turn api)
turns =
    (record { ended = []; created = true; warmed = true; upstreams = upstream ∷ []; done = false })
    ∷ (record {
      ended = "7" ∷ [];
      created = false;
      warmed = true;
      upstreams = upstream ∷ [];
      done = false;
    })
    ∷ []

run_worker-Runs_example :
    Runs api total
      (new_worker api total (some 1))
      (run_worker api turns (new_worker api total (some 1)))
run_worker-Runs_example =
    run_worker-Runs api total turns (new_worker api total (some 1))
      (((λ q r e. response-IsKind r e), tt), (((λ q r e. response-IsKind r e), tt), tt))
      (new_worker-Safe api total (some 1) (tart_parameters 1 refl))

abbrev no_map : Option (List (String × ℕ))
no_map = none

abbrev one_cpu : List (List (String × ℕ))
one_cpu = (("cpu", 1) ∷ []) ∷ []

fitting : can_fit_resources api total one_cpu (("cpu", 3) ∷ []) ≡ returns true
unfolding can_fit_resources
fitting = refl

can_fit_resources_iff_example :
    ((can_fit_resources api no_map one_cpu (("cpu", 3) ∷ []) ≡ panics)
      ↔ ((no_map ≡ none) × ((us : List (String × ℕ)) × In us one_cpu × (us ≢ []))))
    × ((can_fit_resources api no_map one_cpu (("cpu", 3) ∷ []) ≡ returns true) ↔ (
        ((no_map ≢ none) ⊎ All (λ us. us ≡ []) one_cpu)
        × Suffices api no_map one_cpu (("cpu", 3) ∷ [])))
can_fit_resources_iff_example = can_fit_resources_iff api no_map one_cpu (("cpu", 3) ∷ [])

shortest : poll_interval_seconds (10 ∷ 3 ∷ 7 ∷ []) ≡ 3
unfolding poll_interval_seconds
shortest = refl

abbrev join : Text → Text → Text
join a b = a ++ b'/' ∷ b

abbrev good : Answers
good = record { closed = true; made = true; opened = true; written = true }

abbrev uploads : List Upload
uploads =
    (b'a' ∷ [], (b'1' ∷ [], good), (b'2' ∷ [], good) ∷ []) ∷ (b'b' ∷ [], (b'3' ∷ [], good), []) ∷ []

abbrev stored : Writer
stored = new_writer (b'd' ∷ []) ((b'd' ∷ b'/' ∷ b'b' ∷ [], b'9' ∷ []) ∷ [])

write_files-Stored_example :
    (v : Writer) × (write_files join uploads stored ≡ (v, true)) × Stored join uploads stored v
write_files-Stored_example =
    write_files-Stored join uploads stored (((λ e. ground (arith, e)), tt), (tt, tt))
      ((λ e. ground (arith, e)), ((λ e. ground (arith, e)), tt))
      ((refl, (refl, tt)), ((refl, tt), tt))

abbrev folders : List Text
folders =
    (b'/' ∷ b'a' ∷ b'/' ∷ b'c' ∷ [])
    ∷ (b'/' ∷ b'b' ∷ b'/' ∷ b'a' ∷ b'/' ∷ b'c' ∷ [])
    ∷ (b'/' ∷ b'a' ∷ [])
    ∷ []

-- /b/a/c is left out beside /a, although it is not inside it
deduplicated : deduplicate_paths folders ≡ (b'/' ∷ b'a' ∷ []) ∷ []
unfolding deduplicate_paths
deduplicated = refl

deduplicate_paths-Covered_example :
    (In (b'/' ∷ b'a' ∷ []) (deduplicate_paths folders) → In (b'/' ∷ b'a' ∷ []) folders)
    × (In (b'/' ∷ b'a' ∷ []) folders
        → In (b'/' ∷ b'a' ∷ []) (deduplicate_paths folders)
          ⊎ Covered (deduplicate_paths folders) (b'/' ∷ b'a' ∷ []))
deduplicate_paths-Covered_example = deduplicate_paths-Covered folders (b'/' ∷ b'a' ∷ [])
