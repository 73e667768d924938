-- ===== src/Worker/Poll/Refined.antt =====
-- internal/worker/worker.go: the loop of Run and its polls are sequences of moves.
use cirrus_cli.Prelude.{
  ℕ, Bool, true, false, Option, none, some, List, [], ◌∷◌, map, if◌then◌else◌, ◌≡◌, refl, ap, ◌∙◌,
  Outcome, returns, ◌>>=◌, All,
}
use cirrus_cli.Worker.Api.{Api}
use cirrus_cli.Worker.Tasks.{Worker, register_task_completions}
use cirrus_cli.Worker.Tasks.Moves.{creates_standby, registers, step, run}
use cirrus_cli.Worker.Resources.{Amounts}
use cirrus_cli.Worker.Tasks.Safe.{IsSafe, Safe}
use cirrus_cli.Worker.Tasks.Conserved.{register-Safe}
use cirrus_cli.Worker.Tasks.Standby.{try_create_standby-Safe}
use cirrus_cli.Worker.Poll.{
  Turn, run_worker, returns_after, PollResponse, PollError, Upstream, stop_tasks, update_first,
  follow, poll_single_upstream, poll_request, poll_each, poll_upstreams, end_tasks, standby_failed,
  poll_failed, err_shutdown,
}
use cirrus_cli.Worker.Poll.Reaches.{
  IsKind, AreKind, Reaches, none-Reaches, then-Reaches, end_tasks-Reaches, stop_tasks-Reaches,
  start_tasks-Reaches, update_first-Reaches,
}

module _ (A : Api) (resources : Option (Amounts A)) where
  -- a poll of a worker returns, and makes moves
  abbrev pub Polls : Worker A → Outcome (Worker A × Option PollError) → Type 0
  Polls w o = (r : Worker A × Option PollError) × (o ≡ returns r) × Reaches A resources w r.0

  after-Polls :
      (w u : Worker A) (o : Outcome (Worker A × Option PollError))
      → Reaches A resources w u
      → Polls u o
      → Polls w o
  after-Polls w u o a (r, e, b) = (r, e, then-Reaches A resources w u r.0 a b)

  shutdown-Polls :
      (shutdown : Bool) (ps : List A.Parameters) (w : Worker A)
      → All (λ p. IsSafe A resources (some p)) ps
      → Safe A resources w
      → Polls w
          (if shutdown then returns (w, some err_shutdown) else returns (update_first A ps w, none))
  shutdown-Polls true ps w a h = (_, refl, none-Reaches A resources w h)
  shutdown-Polls false ps w a h = (_, refl, update_first-Reaches A resources ps w a h)

  follow-Polls :
      (upstream : ℕ) (response : PollResponse A) (w : Worker A)
      → All (λ p. IsSafe A resources (some p)) response.updated_standby_instances
      → Safe A resources w
      → Polls w (follow A upstream response w)
  unfolding follow
  follow-Polls upstream response w a h =
      let first = stop_tasks-Reaches A resources response.tasks_to_stop w h in
      let second =
        stop_tasks-Reaches A resources (map A.decimal response.old_task_ids_to_stop)
          (stop_tasks A response.tasks_to_stop w) first.sound in
      let (v, e, third) =
        start_tasks-Reaches A resources upstream response.tasks_to_start _ second.sound in
      let (r, d, fourth) =
        shutdown-Polls response.shutdown response.updated_standby_instances v a third.sound in
      (
        r,
        ap
              (λ o. o >>= λ u.
                if response.shutdown
                then returns (u, some err_shutdown)
                else returns (update_first A response.updated_standby_instances u, none))
              e
            ∙ d,
        then-Reaches A resources w _ _
            (then-Reaches A resources w _ _ (then-Reaches A resources w _ _ first second) third)
            fourth,
      )

  answered-Polls :
      (upstream : ℕ) (answer : Option (PollResponse A)) (w : Worker A)
      → ((response : PollResponse A)
          → answer ≡ some response
          → All (λ p. IsSafe A resources (some p)) response.updated_standby_instances)
      → Safe A resources w
      → Polls w (elim answer [
        | none ↦ returns (w, some poll_failed)
        | some response ↦ follow A upstream response w
      ])
  answered-Polls upstream none w a h = (_, refl, none-Reaches A resources w h)
  answered-Polls upstream (some response) w a h =
      follow-Polls upstream response w (a response refl) h

  poll_single_upstream-Polls :
      (u : Upstream A) (w : Worker A)
      → IsKind A resources u
      → Safe A resources w
      → Polls w (poll_single_upstream A u.number u.registered u.server w)
  unfolding poll_single_upstream run step
  poll_single_upstream-Polls u w a h = polled u.registered
    where
      polled : (registered : Bool) → Polls w (poll_single_upstream A u.number registered u.server w)
      polled false = (_, refl, none-Reaches A resources w h)
      polled true =
          let v = register_task_completions A w in
          let g = register-Safe A resources w h in
          after-Polls w v _
            (record { moves = registers ∷ []; made = refl; allowed = (tt, tt); sound = g })
            (answered-Polls u.number (u.server (poll_request A u.number v)) v
              (a (poll_request A u.number v)) g)

  abbrev next :
      List (Upstream A) → Worker A × Option PollError → Outcome (Worker A × Option PollError)
  next us r = elim r.1 [ some e ↦ returns (r.0, some e) | none ↦ poll_each A us r.0 ]

  next-Polls :
      (us : List (Upstream A)) (r : Worker A × Option PollError)
      → Safe A resources r.0
      → ((w : Worker A) → Safe A resources w → Polls w (poll_each A us w))
      → Polls r.0 (next us r)
  next-Polls us (w, some e) h ih = (_, refl, none-Reaches A resources w h)
  next-Polls us (w, none) h ih = ih w h

  poll_each-Polls :
      (us : List (Upstream A)) (w : Worker A)
      → All (IsKind A resources) us
      → Safe A resources w
      → Polls w (poll_each A us w)
  unfolding poll_each
  poll_each-Polls [] w a h = (_, refl, none-Reaches A resources w h)
  poll_each-Polls (u ∷ us) w (a, as') h =
      let ending = end_tasks-Reaches A resources u.ended w h in
      let (r, e, first) = poll_single_upstream-Polls u (end_tasks A u.ended w) a ending.sound in
      let (q, d, rest) = next-Polls us r first.sound (λ v g. poll_each-Polls us v as' g) in
      (
        q,
        ap (λ o. o >>= next us) e ∙ d,
        then-Reaches A resources w _ q.0 ending (then-Reaches A resources _ r.0 q.0 first rest),
      )

  tried-Polls :
      (us : List (Upstream A)) (r : Worker A × Bool)
      → All (IsKind A resources) us
      → Safe A resources r.0
      → Polls r.0 (if r.1 then poll_each A us r.0 else returns (r.0, some standby_failed))
  tried-Polls us (w, true) a h = poll_each-Polls us w a h
  tried-Polls us (w, false) a h = (_, refl, none-Reaches A resources w h)

  -- A poll by a safe worker of upstreams that answer with allowed parameters returns without a panic,
  -- and the worker after it is one that a sequence of allowed moves leads to, and safe.
  pub poll_upstreams-Polls :
      (created warmed : Bool) (us : List (Upstream A)) (w : Worker A)
      → All (IsKind A resources) us
      → Safe A resources w
      → Polls w (poll_upstreams A created warmed us w)
  unfolding poll_upstreams run step
  poll_upstreams-Polls created warmed us w a h =
      let (r, e, g, _) = try_create_standby-Safe A resources created warmed w h in
      let (q, d, rest) = tried-Polls us r a g in
      (
        q,
        ap (λ o. o >>= λ r. if r.1 then poll_each A us r.0 else returns (r.0, some standby_failed))
              e
            ∙ d,
        then-Reaches A resources w r.0 q.0
            (record {
              moves = creates_standby created warmed ∷ [];
              made = ap (λ o. o >>= (λ q. returns q.0) >>= run A []) e;
              allowed = (tt, tt);
              sound = g;
            })
            rest,
      )

  -- what the loop of Run promises: it makes moves, and does not panic
  abbrev pub Runs : Worker A → Outcome (Worker A × Bool) → Type 0
  Runs w o = (r : Worker A × Bool) × (o ≡ returns r) × Reaches A resources w r.0

  turn-Runs :
      (b : Bool) (u : Worker A) (o : Outcome (Worker A × Bool))
      → Safe A resources u
      → Runs u o
      → Runs u (if b then returns (u, true) else o)
  turn-Runs true u o h g = ((u, true), refl, none-Reaches A resources u h)
  turn-Runs false u o h g = g

  -- If no upstream answers Poll with parameters of a standby instance that lacks Warmup, or with any
  -- while the worker's resources are nil, Run of a safe worker does not panic in any turns of its
  -- loop, in which goroutines of tasks end between the polls, and the worker after them is safe and
  -- is one that a sequence of allowed moves leads to. A worker is safe if it has the invariant and
  -- its own parameters, if any, are such as the upstreams may answer with.
  pub run_worker-Runs :
      (ts : List (Turn A)) (w : Worker A)
      → All (AreKind A resources) ts
      → Safe A resources w
      → Runs w (run_worker A ts w)
  unfolding run_worker
  run_worker-Runs [] w a h = ((w, false), refl, none-Reaches A resources w h)
  run_worker-Runs (t ∷ ts) w (a, as') h =
      let ending = end_tasks-Reaches A resources t.ended w h in
      let (r, e, first) =
        poll_upstreams-Polls t.created t.warmed t.upstreams (end_tasks A t.ended w) a
          ending.sound in
      let (q, d, rest) =
        turn-Runs (returns_after A t.done r.1) r.0 (run_worker A ts r.0) first.sound
          (run_worker-Runs ts r.0 as' first.sound) in
      (
        q,
        ap
              (λ o. o >>= λ x.
                if returns_after A t.done x.1 then returns (x.0, true) else run_worker A ts x.0)
              e
            ∙ d,
        then-Reaches A resources w _ q.0 ending (then-Reaches A resources _ r.0 q.0 first rest),
      )
