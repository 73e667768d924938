-- ===== src/Worker/Poll.antt =====
-- internal/worker/worker.go: a poll of the upstreams, what it reports and the moves it makes; the
-- pauses and the interval of the polls. Upstreams are numbered.
pub mod Reaches
pub mod Refined
pub mod Interval
use cirrus_cli.Prelude.{
  ℕ, suc, String, Bool, true, false, Option, none, some, List, [], ◌∷◌, ◌++◌, map, if◌then◌else◌,
  Outcome, returns, panics, ◌>>=◌, ◌==◌, ltb, ◌-◌,
}
use cirrus_cli.Worker.Api.{Api}
use cirrus_cli.Worker.Resources.{Amounts, resources_in_use}
use cirrus_cli.Worker.Tasks.{
  Worker, Task, AgentAwareTask, start_task, stop_task, register_task_completions, end_task,
  try_create_standby, update_standby, uses,
}

-- the error that a poll returns, if any
pub data PollError : Type 0 where
  standby_failed : PollError
  poll_failed : PollError
  err_shutdown : PollError

module _ (A : Api) where
  -- runningTasks, over the entries of the map
  unfoldable pub running_of : ℕ → List (String × Task A) → List String
  running_of upstream [] = []
  running_of upstream ((k, t) ∷ m) =
      let rest = running_of upstream m in if t.upstream == upstream then k ∷ rest else rest

  unfoldable pub running_tasks : ℕ → Worker A → List String
  unfolding running_of
  running_tasks upstream w = running_of upstream w.tasks

  -- the IDs that strconv.ParseInt accepts
  unfoldable pub parsed : List String → List A.Number
  parsed [] = []
  parsed (k ∷ ks) = let rest = parsed ks in elim (A.parse_int k) [ none ↦ rest | some n ↦ n ∷ rest ]

  unfoldable pub old_running_tasks : ℕ → Worker A → List A.Number
  unfolding parsed running_tasks
  old_running_tasks upstream w = parsed (running_tasks upstream w)

  -- api.PollRequest, without WorkerInfo and the age of the standby instance
  pub record PollRequest : Type 0 where
    pub running : List String
    pub old_running : List A.Number
    pub in_use : Amounts A
    pub available_standby : Option (Option A.Parameters)

  unfoldable pub poll_request : ℕ → Worker A → PollRequest
  unfolding running_tasks old_running_tasks resources_in_use uses
  poll_request upstream w = record {
    running = running_tasks upstream w;
    old_running = old_running_tasks upstream w;
    in_use = resources_in_use A (uses A w.tasks);
    available_standby = elim w.standby_instance [
      | none ↦ none
      | some n ↦ some w.standby_parameters
    ];
  }

  -- api.PollResponse; each task to start is beside the answer of persistentworker.New for it
  pub record PollResponse : Type 0 where
    pub tasks_to_stop : List String
    pub old_task_ids_to_stop : List A.Number
    pub tasks_to_start : List (AgentAwareTask A × Bool)
    pub shutdown : Bool
    pub updated_standby_instances : List A.Parameters

  unfoldable pub stop_tasks : List String → Worker A → Worker A
  unfolding stop_task
  stop_tasks [] w = w
  stop_tasks (k ∷ ks) w = stop_tasks ks (stop_task A k w)

  unfoldable pub start_tasks : ℕ → List (AgentAwareTask A × Bool) → Worker A → Outcome (Worker A)
  unfolding start_task
  start_tasks upstream [] w = returns w
  start_tasks upstream ((t, answer) ∷ ts) w =
      start_task A upstream t answer w >>= start_tasks upstream ts

  unfoldable pub update_first : List A.Parameters → Worker A → Worker A
  unfolding update_standby
  update_first [] w = w
  update_first (p ∷ ps) w = update_standby A p w

  -- pollSingleUpstream after Poll returned a response
  unfoldable pub follow : ℕ → PollResponse → Worker A → Outcome (Worker A × Option PollError)
  unfolding stop_tasks start_tasks update_first
  follow upstream response w =
      start_tasks upstream response.tasks_to_start (
        stop_tasks (map A.decimal response.old_task_ids_to_stop)
          (stop_tasks response.tasks_to_stop w))
      >>= λ v.
          if response.shutdown
          then returns (v, some err_shutdown)
          else returns (update_first response.updated_standby_instances v, none)

  -- pollSingleUpstream: `registered` answers Register, `server` answers Poll, none where it fails
  unfoldable pub poll_single_upstream :
      ℕ
      → Bool
      → (PollRequest → Option PollResponse)
      → Worker A
      → Outcome (Worker A × Option PollError)
  unfolding poll_request follow register_task_completions
  poll_single_upstream upstream false server w = returns (w, none)
  poll_single_upstream upstream true server w =
      let v = register_task_completions A w in
      elim (server (poll_request upstream v)) [
        | none ↦ returns (v, some poll_failed)
        | some response ↦ follow upstream response v
      ]

  -- goroutines of runTask that end
  unfoldable pub end_tasks : List String → Worker A → Worker A
  unfolding end_task
  end_tasks [] w = w
  end_tasks (k ∷ ks) w = end_tasks ks (end_task A k w)

  -- an upstream with its answers to Register and to Poll, and the tasks whose goroutine ends before it
  -- is polled, since the upstream before it was
  pub record Upstream : Type 0 where
    pub number : ℕ
    pub ended : List String
    pub registered : Bool
    pub server : PollRequest → Option PollResponse

  -- the loop of pollUpstreams, which ends at the first error; what goroutines do while an upstream is
  -- polled shows when the next one registers completions
  unfoldable pub poll_each : List Upstream → Worker A → Outcome (Worker A × Option PollError)
  unfolding poll_single_upstream end_tasks
  poll_each [] w = returns (w, none)
  poll_each (u ∷ us) w =
      poll_single_upstream u.number u.registered u.server (end_tasks u.ended w) >>= λ r. elim r.1 [
        | some e ↦ returns (r.0, some e)
        | none ↦ poll_each us r.0
      ]

  unfoldable pub poll_upstreams :
      Bool → Bool → List Upstream → Worker A → Outcome (Worker A × Option PollError)
  unfolding poll_each try_create_standby
  poll_upstreams created warmed upstreams w = try_create_standby A created warmed w >>= λ r.
      if r.1 then poll_each upstreams r.0 else returns (r.0, some standby_failed)

  -- a turn of the loop of Run: the tasks whose goroutine ends before it, since the turn before; what the standby instance and the upstreams answer, and whether the
  -- context is done before the next turn
  pub record Turn : Type 0 where
    pub ended : List String
    pub created : Bool
    pub warmed : Bool
    pub upstreams : List Upstream
    pub done : Bool

  -- the tests of the loop after a poll: whether Run returns
  unfoldable pub returns_after : Bool → Option PollError → Bool
  returns_after done (some err_shutdown) = true
  returns_after done (some standby_failed) = done
  returns_after done (some poll_failed) = done
  returns_after done none = done

  -- the loop of Run, over some turns; the Boolean is true where Run has returned, always with nil
  unfoldable pub run_worker : List Turn → Worker A → Outcome (Worker A × Bool)
  unfolding poll_upstreams returns_after end_tasks
  run_worker [] w = returns (w, false)
  run_worker (t ∷ ts) w =
      poll_upstreams t.created t.warmed t.upstreams (end_tasks t.ended w) >>= λ r.
      if returns_after t.done r.1 then returns (r.0, true) else run_worker ts r.0

-- pollIntervalSeconds, of the intervals of the upstreams, each a uint32: from math.MaxUint32
unfoldable pub least : ℕ → List ℕ → ℕ
least result [] = result
least result (i ∷ is) = least (if ltb i result then i else result) is

unfoldable pub poll_interval_seconds : List ℕ → ℕ
unfolding least
poll_interval_seconds intervals = least 4294967295 intervals
