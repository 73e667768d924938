-- ===== src/Worker/Tasks.antt =====
-- internal/worker/task.go and worker.go: the tasks of a worker and the instances they run on.
-- Instances are numbered in the order in which persistentworker.New returns them. A call of
-- persistentworker.New or of Warmup answers true where it returns no error.
pub mod Moves
pub mod Invariant
pub mod Safe
pub mod Acquired
pub mod Standby
pub mod Conserved
pub mod Accounted
use cirrus_cli.Prelude.{
  ℕ, suc, String, Bool, true, false, Option, none, some, List, [], ◌∷◌, ◌++◌, map, if◌then◌else◌,
  str_eq, Outcome, returns, panics, ◌>>=◌, ◌==◌, not,
}
use cirrus_cli.Worker.Api.{
  Api, IsolationType, none_type, parallels_type, container_type, tart_type, vetu_type, other_type,
}
use cirrus_cli.Worker.Resources.{Amounts, resources_in_use, can_fit_resources}

-- xsync.MapOf, keyed by texts: the entry that was stored last first
unfoldable pub load {ℓ} : {V : Type ℓ} → String → List (String × V) → Option V
load k [] = none
load k ((j, v) ∷ m) = if str_eq j k then some v else load k m

unfoldable pub delete {ℓ} : {V : Type ℓ} → String → List (String × V) → List (String × V)
delete k [] = []
delete k ((j, v) ∷ m) = let rest = delete k m in if str_eq j k then rest else (j, v) ∷ rest

unfoldable pub store {ℓ} : {V : Type ℓ} → String → V → List (String × V) → List (String × V)
unfolding delete
store k v m = (k, v) ∷ delete k m

-- the goroutines without the first one of task k, and the instance that one has
unfoldable pub take_goroutine : String → List (String × ℕ) → Option (List (String × ℕ) × ℕ)
take_goroutine k [] = none
take_goroutine k ((j, n) ∷ gs) =
    let rest = take_goroutine k gs in
    if str_eq j k
    then some (gs, n)
    else elim rest [ none ↦ none | some (hs, i) ↦ some ((j, n) ∷ hs, i) ]

-- whether the instance that persistentworker.New returns for this Type is an
-- abstract.WarmableInstance: of the packages under isolation, tart and vetu have the method Warmup
unfoldable pub is_warmable : IsolationType → Bool
is_warmable none_type = false
is_warmable parallels_type = false
is_warmable container_type = false
is_warmable tart_type = true
is_warmable vetu_type = true
is_warmable other_type = false

module _ (A : Api) where
  -- Task: `upstream` numbers the pointers to upstreams, `cancelled` says whether cancel was called
  pub record Task : Type 0 where
    pub upstream : ℕ
    pub resources_to_use : Amounts A
    pub cancelled : Bool

  -- api.PollResponse_AgentAwareTask, as far as startTask chooses by it
  pub record AgentAwareTask : Type 0 where
    pub task_id : String
    pub old_task_id : A.Number
    pub isolation : A.Isolation
    pub resources : Amounts A

  -- Worker: its tasks and standby instance; userSpecifiedResources may be nil; `running` are the goroutines of runTask with the
  -- instance each has, `completions` the IDs that goroutines are sending to taskCompletions,
  -- `created` and `closed` the instances created and closed so far, and `failures` the tasks
  -- that startTask reported by TaskFailed
  pub record Worker : Type 0 where
    pub user_specified_resources : Option (Amounts A)
    pub tasks : List (String × Task)
    pub running : List (String × ℕ)
    pub completions : List String
    pub standby_parameters : Option A.Parameters
    pub standby_instance : Option ℕ
    pub created : ℕ
    pub closed : List ℕ
    pub failures : List String

  -- New with the options WithResources and WithStandby, if they are given
  abbrev pub new_worker : Option (Amounts A) → Option A.Parameters → Worker
  new_worker resources parameters = record {
    user_specified_resources = resources;
    tasks = [];
    running = [];
    completions = [];
    standby_parameters = parameters;
    standby_instance = none;
    created = 0;
    closed = [];
    failures = [];
  }

  -- persistentworker.New
  unfoldable pub new_instance : Bool → Worker → Worker × Option ℕ
  new_instance true w = (record w { created = suc w.created }, some w.created)
  new_instance false w = (w, none)

  -- inst.Close; an error of it is only logged
  abbrev pub close : ℕ → Worker → Worker
  close n w = record w { closed = n ∷ w.closed }

  -- getInstance; worker.standbyParameters is read through a pointer, which may be nil
  unfoldable pub get_instance : A.Isolation → Bool → Worker → Outcome (Worker × Option ℕ)
  unfolding new_instance
  get_instance isolation answer w = elim w.standby_instance [
    | none ↦ returns (new_instance answer w)
    | some n ↦ elim w.standby_parameters [
      | none ↦ panics
      | some parameters ↦
          if A.isolation_equal (A.isolation_of parameters) isolation
          then returns (record w { standby_instance = none }, some n)
          else returns (new_instance answer (close n (record w { standby_instance = none })))
    ]
  ]

  unfoldable pub name_of : AgentAwareTask → String
  name_of t = if str_eq t.task_id "" then A.decimal t.old_task_id else t.task_id

  -- the end of startTask: `go worker.runTask`, or TaskFailed where there is no instance
  unfoldable pub begin_task : String → Worker × Option ℕ → Worker
  begin_task k (w, none) = record w { failures = k ∷ w.failures }
  begin_task k (w, some n) = record w { running = (k, n) ∷ w.running }

  unfoldable pub start_task : ℕ → AgentAwareTask → Bool → Worker → Outcome Worker
  unfolding load store get_instance name_of begin_task
  start_task upstream t answer w = elim (load (name_of t) w.tasks) [
    | some task ↦ returns w
    | none ↦
        get_instance t.isolation answer (record w {
          tasks =
              store (name_of t)
                (record { upstream = upstream; resources_to_use = t.resources; cancelled = false })
                w.tasks;
        })
        >>= λ r. returns (begin_task (name_of t) r)
  ]

  -- the deferred end of runTask, which is run on every path of it: the instance is closed, then the
  -- ID is sent
  unfoldable pub end_task : String → Worker → Worker
  unfolding take_goroutine
  end_task k w = elim (take_goroutine k w.running) [
    | none ↦ w
    | some (gs, n) ↦ close n (record w { running = gs; completions = k ∷ w.completions })
  ]

  unfoldable pub stop_task : String → Worker → Worker
  unfolding load store
  stop_task k w = elim (load k w.tasks) [
    | none ↦ w
    | some t ↦ record w { tasks = store k (record t { cancelled = true }) w.tasks }
  ]

  -- the loop of registerTaskCompletions over the IDs that can be received; the task is deleted where
  -- it is known, and a spurious ID is only logged
  unfoldable pub delete_all : List String → List (String × Task) → List (String × Task)
  unfolding load delete
  delete_all [] m = m
  delete_all (k ∷ ks) m = delete_all ks (elim (load k m) [ none ↦ m | some t ↦ delete k m ])

  unfoldable pub register_task_completions : Worker → Worker
  unfolding delete_all
  register_task_completions w = record w {
    tasks = delete_all w.completions w.tasks;
    completions = [];
  }

  -- the resourcesToUse of the tasks
  unfoldable pub uses : List (String × Task) → List (Amounts A)
  uses [] = []
  uses ((k, t) ∷ m) = t.resources_to_use ∷ uses m

  -- tryCreateStandby from the error of persistentworker.New on: `warmed` answers Warmup. The assertion
  -- standbyInstance.(abstract.WarmableInstance) panics on an instance without Warmup. An instance that
  -- fails to warm up is closed. The pulls of images before the warm-up only log their errors.
  unfoldable pub warm_up : A.Isolation → Bool → Worker × Option ℕ → Outcome (Worker × Bool)
  unfolding is_warmable
  warm_up isolation warmed (w, none) = returns (w, false)
  warm_up isolation warmed (w, some n) =
      if is_warmable (A.type_of isolation)
      then (if warmed
          then returns (record w { standby_instance = some n }, true)
          else returns (close n w, false))
      else panics

  -- tryCreateStandby; the Boolean is true where it returns nil
  unfoldable pub try_create_standby : Bool → Bool → Worker → Outcome (Worker × Bool)
  unfolding new_instance warm_up can_fit_resources uses
  try_create_standby created warmed w = elim w.standby_parameters [
    | none ↦ returns (w, true)
    | some parameters ↦ elim w.standby_instance [
      | some n ↦ returns (w, true)
      | none ↦
          can_fit_resources A w.user_specified_resources (uses w.tasks) (A.resources_of parameters)
          >>= λ fit.
              if fit
              then warm_up (A.isolation_of parameters) warmed (new_instance created w)
              else returns (w, true)
    ]
  ]

  -- proto.Equal of worker.standbyParameters, a pointer that may be nil, and parameters
  unfoldable pub same_parameters : Option A.Parameters → A.Parameters → Bool
  same_parameters none new = false
  same_parameters (some old) new = A.parameters_equal old new

  unfoldable pub update_standby : A.Parameters → Worker → Worker
  unfolding same_parameters
  update_standby parameters w =
      let kept = record w { standby_parameters = some parameters } in
      elim w.standby_instance [
        | none ↦ kept
        | some n ↦
            if same_parameters w.standby_parameters parameters
            then kept
            else close n (record kept { standby_instance = none })
      ]
