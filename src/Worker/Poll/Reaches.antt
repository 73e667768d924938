-- ===== src/Worker/Poll/Reaches.antt =====
-- internal/worker/worker.go: what a poll does is a sequence of allowed moves.
use cirrus_cli.Prelude.{
  ℕ, String, Bool, Option, some, List, [], ◌∷◌, ◌++◌, ◌≡◌, refl, ap, ◌∙◌, Outcome, returns, panics,
  ◌>>=◌, All,
}
use cirrus_cli.Worker.Api.{Api}
use cirrus_cli.Worker.Tasks.{Worker, AgentAwareTask, end_task, stop_task}
use cirrus_cli.Worker.Tasks.Moves.{Move, starts, ends, stops, updates, step, run}
use cirrus_cli.Worker.Resources.{Amounts}
use cirrus_cli.Worker.Tasks.Safe.{IsSafe, Safe, IsAllowed}
use cirrus_cli.Worker.Tasks.Conserved.{start_task-Safe, stop_task-Safe, end_task-Safe}
use cirrus_cli.Worker.Tasks.Standby.{update_standby-Safe}
use cirrus_cli.Worker.Poll.{
  Turn, PollResponse, PollRequest, Upstream, stop_tasks, start_tasks, update_first, end_tasks,
}

module _ (A : Api) (resources : Option (Amounts A)) where
  -- an upstream answers Poll with allowed parameters only
  abbrev pub IsKind : Upstream A → Type 0
  IsKind u =
      (request : PollRequest A) (response : PollResponse A)
      → u.server request ≡ some response
      → All (λ p. IsSafe A resources (some p)) response.updated_standby_instances

  abbrev pub AreKind : Turn A → Type 0
  AreKind t = All IsKind t.upstreams

  -- the worker v is reached from w by allowed moves, and is safe
  pub record Reaches (w v : Worker A) : Type 0 where
    pub moves : List (Move A)
    pub made : run A moves w ≡ returns v
    pub allowed : All (IsAllowed A resources) moves
    pub sound : Safe A resources v

  pub none-Reaches : (w : Worker A) → Safe A resources w → Reaches w w
  unfolding run
  none-Reaches w h = record { moves = []; made = refl; allowed = tt; sound = h }

  bind_assoc :
      (o : Outcome (Worker A)) (f g h : Worker A → Outcome (Worker A))
      → ((w : Worker A) → f w ≡ (g w >>= h))
      → (o >>= f) ≡ (o >>= g >>= h)
  bind_assoc (returns w) f g h e = e w
  bind_assoc panics f g h e = refl

  run-append :
      (ms ns : List (Move A)) (w : Worker A) → run A (ms ++ ns) w ≡ (run A ms w >>= run A ns)
  unfolding run
  run-append [] ns w = refl
  run-append (m ∷ ms) ns w =
      bind_assoc (step A m w) (run A (ms ++ ns)) (run A ms) (run A ns) (run-append ms ns)

  append-All :
      (ms ns : List (Move A))
      → All (IsAllowed A resources) ms
      → All (IsAllowed A resources) ns
      → All (IsAllowed A resources) (ms ++ ns)
  append-All [] ns h g = g
  append-All (m ∷ ms) ns (a, h) g = (a, append-All ms ns h g)

  pub then-Reaches : (w u v : Worker A) → Reaches w u → Reaches u v → Reaches w v
  then-Reaches w u v a b = record {
    moves = a.moves ++ b.moves;
    made = run-append a.moves b.moves w ∙ ap (λ o. o >>= run A b.moves) a.made ∙ b.made;
    allowed = append-All a.moves b.moves a.allowed b.allowed;
    sound = b.sound;
  }

  stop_task-Reaches : (k : String) (w : Worker A) → Safe A resources w → Reaches w (stop_task A k w)
  unfolding run step
  stop_task-Reaches k w h = record {
    moves = stops k ∷ [];
    made = refl;
    allowed = (tt, tt);
    sound = stop_task-Safe A resources k w h;
  }

  pub end_tasks-Reaches :
      (ks : List String) (w : Worker A) → Safe A resources w → Reaches w (end_tasks A ks w)
  unfolding end_tasks run step
  end_tasks-Reaches [] w h = none-Reaches w h
  end_tasks-Reaches (k ∷ ks) w h =
      let g = end_task-Safe A resources k w h in
      then-Reaches w (end_task A k w) _
        (record { moves = ends k ∷ []; made = refl; allowed = (tt, tt); sound = g })
        (end_tasks-Reaches ks (end_task A k w) g)

  pub stop_tasks-Reaches :
      (ks : List String) (w : Worker A) → Safe A resources w → Reaches w (stop_tasks A ks w)
  unfolding stop_tasks
  stop_tasks-Reaches [] w h = none-Reaches w h
  stop_tasks-Reaches (k ∷ ks) w h =
      let first = stop_task-Reaches k w h in
      then-Reaches w _ _ first (stop_tasks-Reaches ks (stop_task A k w) first.sound)

  pub start_tasks-Reaches :
      (upstream : ℕ) (ts : List (AgentAwareTask A × Bool)) (w : Worker A)
      → Safe A resources w
      → (v : Worker A) × (start_tasks A upstream ts w ≡ returns v) × Reaches w v
  unfolding start_tasks run step
  start_tasks-Reaches upstream [] w h = (w, refl, none-Reaches w h)
  start_tasks-Reaches upstream ((t, answer) ∷ ts) w h =
      let (u, e, g) = start_task-Safe A resources upstream t answer w h in
      let first : Reaches w u = record {
        moves = starts upstream t answer ∷ [];
        made = ap (λ o. o >>= run A []) e;
        allowed = (tt, tt);
        sound = g;
      } in
      let (v, d, rest) = start_tasks-Reaches upstream ts u g in
      (v, ap (λ o. o >>= start_tasks A upstream ts) e ∙ d, then-Reaches w u v first rest)

  pub update_first-Reaches :
      (ps : List A.Parameters) (w : Worker A)
      → All (λ p. IsSafe A resources (some p)) ps
      → Safe A resources w
      → Reaches w (update_first A ps w)
  unfolding update_first run step
  update_first-Reaches [] w a h = none-Reaches w h
  update_first-Reaches (p ∷ ps) w (a, _) h = record {
    allowed = (a, tt);
    moves = updates p ∷ [];
    made = refl;
    sound = update_standby-Safe A resources p w a h;
  }
