-- ===== src/Http/Server/Exits.antt =====
-- The threaded server, with its exits.
use fortai.Prelude.{
  ℕ, ◌≡◌, ◌∙◌, refl, Bool, true, false, not, ◌||◌, some, List, [], ◌∷◌, ◌++◌, ◌==◌, arith, if_rule,
}
use fortai.Ledger.{released, replay, replay-append}
use fortai.Http.Server.{
  listener, fds, workers, Event, Calls, started_workers, end_queue, serve, run_workers,
  drained_ready, queue_begun, queue_init_failed, arrays_begun, arrays_failed, run_queue,
  run_threads,
}
use fortai.Http.Server.Ownership.{rules, left, outcome, queue_held, replay-threads}

-- The run comes to what it must, with and without a listener.
abbrev pub Outcome : Bool → List Event × Bool → Type 0
Outcome b r = replay rules r.0 [] ≡ outcome b

module _ (o : Calls) where
  none_started :
      (b : Bool) → replay rules (end_queue ++ (released listener ∷ [])) (queue_held b) ≡ outcome b
  unfolding replay
  none_started true = refl
  none_started false = refl

  queue_begun-held :
      (b : Bool)
      → not (drained_ready o) ≡ false
      → replay rules (queue_begun o) (workers ∷ fds ∷ left b) ≡ some (queue_held b)
  unfolding replay
  queue_begun-held b d = ground arith

  queue_not_begun :
      (b : Bool)
      → replay rules (queue_begun o ++ queue_init_failed o) (workers ∷ fds ∷ left b) ≡ outcome b
  unfolding replay
  queue_not_begun true = ground arith
  queue_not_begun false = ground arith

  arrays_begun-held :
      (b : Bool)
      → (not o.fds_memory || not o.workers_memory) ≡ false
      → replay rules (arrays_begun o) (left b) ≡ some (workers ∷ fds ∷ left b)
  unfolding replay
  arrays_begun-held true d = ground arith
  arrays_begun-held false d = ground arith

  arrays_not_begun :
      (b : Bool) → replay rules (arrays_begun o ++ arrays_failed o) (left b) ≡ outcome b
  unfolding replay
  arrays_not_begun true = ground arith
  arrays_not_begun false = ground arith

module _ (o : Calls) (worker_count : ℕ) (b : Bool) (events : List Event) where
  run_workers-Outcome :
      replay rules events [] ≡ some (queue_held b) → Outcome b (run_workers o worker_count events)
  unfolding run_workers
  run_workers-Outcome e =
      let started = started_workers o.creates 0 worker_count in
      if_rule (Outcome b) (started == 0) (events ++ (end_queue ++ (released listener ∷ [])), false)
        (events ++ serve o started, true)
        (λ _. replay-append rules events _ [] (queue_held b) e ∙ none_started o b)
        (λ _. replay-append rules events _ [] (queue_held b) e ∙ replay-threads o started b)

module _ (o : Calls) (worker_count : ℕ) (b : Bool) (events : List Event) where
  run_queue-Outcome :
      replay rules events [] ≡ some (workers ∷ fds ∷ left b)
      → Outcome b (run_queue o worker_count events)
  unfolding run_queue
  run_queue-Outcome e =
      if_rule (Outcome b) (not (drained_ready o))
        (events ++ (queue_begun o ++ queue_init_failed o), false)
        (run_workers o worker_count (events ++ queue_begun o))
        (λ _. replay-append rules events _ [] (workers ∷ fds ∷ left b) e ∙ queue_not_begun o b)
        λ d.
          run_workers-Outcome o worker_count b (events ++ queue_begun o)
            (replay-append rules events _ [] (workers ∷ fds ∷ left b) e ∙ queue_begun-held o b d)

-- The threaded server gives everything back, if it has a listener; else it is out of order.
pub run_threads-Outcome :
    (o : Calls) (worker_count : ℕ) (b : Bool) (events : List Event)
    → replay rules events [] ≡ some (left b)
    → Outcome b (run_threads o worker_count events)
unfolding run_threads
run_threads-Outcome o worker_count b events e =
    if_rule (Outcome b) (not o.fds_memory || not o.workers_memory)
      (events ++ (arrays_begun o ++ arrays_failed o), false)
      (run_queue o worker_count (events ++ arrays_begun o))
      (λ _. replay-append rules events _ [] (left b) e ∙ arrays_not_begun o b)
      λ d.
        run_queue-Outcome o worker_count b (events ++ arrays_begun o)
          (replay-append rules events _ [] (left b) e ∙ arrays_begun-held o b d)
