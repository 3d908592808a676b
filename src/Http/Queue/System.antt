-- ===== src/Http/Queue/System.antt =====
-- The acceptor and the workers of src/server/fortai_http_server.c as a step relation over all their
-- interleavings.
use fortai.Prelude.{ℕ, suc, ◌≡◌, Bool, true, false, List, [], ◌∷◌, ◌++◌}
use fortai.Http.Queue.{
  Queue, init, pushes, refuses, push, takes, returns, take_client, finish_client, stop_queue,
}

-- The acceptor: at `accept`, at `fortai_queue_push` with a client, behind the loop, and joining.
pub data Acceptor : Type 0 where
  accepting leaving joining : Acceptor
  pushing : ℕ → Acceptor

-- The queue, `fortai_stop`, the threads, and the history: which clients were pushed and taken, in
-- order, and which were closed by a worker. Workers are alike, so it is enough to know how many
-- wait at the queue, how many have returned, and whom the others serve.
pub record System : Type 0 where
  pub queue : Queue
  pub stop : Bool
  pub acceptor : Acceptor
  pub idle : ℕ
  pub returned : ℕ
  pub serving : List ℕ
  pub pushed : List ℕ
  pub taken : List ℕ
  pub closed : List ℕ

-- `requested` is `worker_count`, which the ring is sized for, and `workers` the number of threads that
-- have started.
abbrev pub start : ℕ → ℕ → System
start requested workers = record {
  queue = init requested;
  stop = false;
  acceptor = accepting;
  idle = workers;
  returned = 0;
  serving = [];
  pushed = [];
  taken = [];
  closed = [];
}

pub data Step : System → System → Type 0 where
  -- SIGINT or SIGTERM
  signal : (s : System) → Step s (record s { stop = true })
  -- `accept` returns a client.
  accepts :
      (s : System) (fd : ℕ) → s.acceptor ≡ accepting → Step s (record s { acceptor = pushing fd })
  -- The loop ends: `fortai_stop` is seen, or `accept` fails.
  leaves : (s : System) → s.acceptor ≡ accepting → Step s (record s { acceptor = leaving })
  push_ends :
      (s : System) (fd : ℕ) (q : Queue)
      → s.acceptor ≡ pushing fd
      → push s.stop s.queue fd ≡ pushes q
      → Step s (record s { queue = q; acceptor = accepting; pushed = s.pushed ++ (fd ∷ []) })
  -- The acceptor closes the client itself, and leaves the loop.
  push_fails :
      (s : System) (fd : ℕ)
      → s.acceptor ≡ pushing fd
      → push s.stop s.queue fd ≡ refuses
      → Step s (record s { acceptor = leaving })
  stops :
      (s : System)
      → s.acceptor ≡ leaving
      → Step s (record s { queue = stop_queue s.queue; acceptor = joining })
  takes_one :
      (s : System) (n fd : ℕ) (q : Queue)
      → s.idle ≡ suc n
      → take_client s.queue ≡ takes fd q
      → Step s
          (record s { queue = q; idle = n; serving = fd ∷ s.serving; taken = s.taken ++ (fd ∷ []) })
  -- A worker has run `fortai_close_client`, and goes back to the queue.
  finishes :
      (s : System) (before : List ℕ) (fd : ℕ) (after : List ℕ)
      → s.serving ≡ before ++ (fd ∷ after)
      → Step s (record s {
        queue = finish_client s.queue;
        idle = suc s.idle;
        serving = before ++ after;
        closed = fd ∷ s.closed;
      })
  worker_returns :
      (s : System) (n : ℕ)
      → s.idle ≡ suc n
      → take_client s.queue ≡ returns
      → Step s (record s { idle = n; returned = suc s.returned })

pub data Reach (requested workers : ℕ) : System → Type 0 where
  begin : Reach requested workers (start requested workers)
  next : {s t : System} → Reach requested workers s → Step s t → Reach requested workers t
