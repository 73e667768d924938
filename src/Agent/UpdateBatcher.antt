-- ===== src/Agent/UpdateBatcher.antt =====
-- internal/agent/executor/updatebatcher/updatebatcher.go
use cirrus_cli.Prelude.{
  Bool, true, false, ◌≡◌, ap, sym, ◌∙◌, List, [], ◌∷◌, ◌++◌, append_assoc, append-nil,
  if◌then◌else◌, arith,
}

-- UpdateBatcher, over the type of the updates
pub record UpdateBatcher (U : Type 0) : Type 0 where
  pub update_history : List U
  pub unflushed_updates : List U

module _ {U : Type 0} where
  -- New
  abbrev pub new : UpdateBatcher U
  new = record { update_history = []; unflushed_updates = [] }

  -- Queue
  unfoldable pub queue : U → UpdateBatcher U → UpdateBatcher U
  queue u b = record {
    update_history = b.update_history ++ u ∷ [];
    unflushed_updates = b.unflushed_updates ++ u ∷ [];
  }

  -- Flush: the batch that ReportCommandUpdates is called with, if it is called, beside the batcher
  -- after; `accepted` says that the call returned no error
  unfoldable pub flush : Bool → UpdateBatcher U → UpdateBatcher U × List U
  flush accepted b = elim b.unflushed_updates [
    | [] ↦ (b, [])
    | u ∷ us ↦ (if accepted then record b { unflushed_updates = [] } else b, u ∷ us)
  ]

  -- History
  abbrev pub history : UpdateBatcher U → List U
  history b = b.update_history

-- a use of the batcher: an update is queued, or the batcher is flushed and the call accepted or not
pub data Use (U : Type 0) : Type 0 where
  queues : U → Use U
  flushes : Bool → Use U

module _ {U : Type 0} where
  -- the batcher after a sequence of uses, and what the accepted calls have delivered
  unfoldable pub run : List (Use U) → UpdateBatcher U → List U → UpdateBatcher U × List U
  unfolding queue flush
  run [] b sent = (b, sent)
  run (queues u ∷ uses) b sent = run uses (queue u b) sent
  run (flushes accepted ∷ uses) b sent =
      run uses (flush accepted b).0 (if accepted then sent ++ (flush accepted b).1 else sent)

  -- what was delivered and what is still unflushed make up the history
  abbrev pub IsBalanced : UpdateBatcher U → List U → Type 0
  IsBalanced b sent = sent ++ b.unflushed_updates ≡ b.update_history

  pub queue-IsBalanced :
      (u : U) (b : UpdateBatcher U) (sent : List U)
      → IsBalanced b sent
      → IsBalanced (queue u b) sent
  unfolding queue
  queue-IsBalanced u b sent h =
      sym (append_assoc sent b.unflushed_updates (u ∷ [])) ∙ ap (λ l. l ++ u ∷ []) h

  pub flush-true :
      (b : UpdateBatcher U)
      → flush true b ≡ (record b { unflushed_updates = [] }, b.unflushed_updates)
  unfolding flush
  flush-true b = ground arith

  pub flush-false : (b : UpdateBatcher U) → (flush false b).0 ≡ b
  unfolding flush
  flush-false b = ground arith

  pub flush-IsBalanced :
      (b : UpdateBatcher U) (sent : List U)
      → IsBalanced b sent
      → IsBalanced (flush true b).0 (sent ++ (flush true b).1)
  flush-IsBalanced b sent h = rw (flush-true, append-nil) h

  -- Whatever the uses, and whichever calls are accepted, what was delivered and what is still unflushed
  -- make up the history, in order: no update is lost, delivered twice or out of turn.
  pub run-IsBalanced :
      (uses : List (Use U)) (b : UpdateBatcher U) (sent : List U)
      → IsBalanced b sent
      → IsBalanced (run uses b sent).0 (run uses b sent).1
  unfolding run
  run-IsBalanced [] b sent h = h
  run-IsBalanced (queues u ∷ uses) b sent h =
      run-IsBalanced uses (queue u b) sent (queue-IsBalanced u b sent h)
  run-IsBalanced (flushes true ∷ uses) b sent h =
      run-IsBalanced uses (flush true b).0 (sent ++ (flush true b).1) (flush-IsBalanced b sent h)
  run-IsBalanced (flushes false ∷ uses) b sent h =
      run-IsBalanced uses (flush false b).0 sent (rw flush-false h)
