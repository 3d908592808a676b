-- ===== src/Http/Tests/Threads.antt =====
-- Uses of the theorems on the threads, at a run with one worker and one client.
use fortai.Prelude.{◌≡◌, ◌<◌, ◌≤◌, refl, true, false, [], ◌∷◌, ◌++◌, length, arith}
use mathlib.Core.List.{Perm}
use fortai.Http.Queue.{init, zeros, push, take_client, finish_client, stop_queue}
use fortai.Http.Queue.Ring.{clients}
use fortai.Http.Queue.Threads.{
  System, start, Reach, begin, next, accepts, push_ends, leaves, stops, takes_one, finishes,
  worker_returns, queue_in_order, shutdown_drains, accepting, leaving, joining, pushing,
}

-- Client 7 is accepted and waits in the ring.
abbrev waiting : System
unfolding init zeros push
waiting = record (start 1 1) {
  queue = record (init 1) { fds = 7 ∷ zeros 15; tail = 1; count = 1 };
  pushed = 7 ∷ [];
}

waiting_reached : Reach 1 1 waiting
unfolding waiting init zeros push
waiting_reached =
    next (next begin (accepts (start 1 1) 7 refl))
      (push_ends (record (start 1 1) { acceptor = pushing 7 }) 7 waiting.queue refl refl)

in_order_example :
    (waiting.pushed ≡ waiting.taken ++ clients waiting.queue)
    × (waiting.queue.count ≤ waiting.queue.capacity)
    × (waiting.queue.head < length waiting.queue.fds)
    × (waiting.queue.tail < length waiting.queue.fds)
    × (waiting.queue.active ≡ length waiting.serving)
in_order_example = queue_in_order waiting_reached

-- The worker has served it, the queue has been stopped, and the worker has returned.
abbrev drained : System
unfolding init zeros
drained = record {
  queue = record (init 1) { fds = 7 ∷ zeros 15; head = 1; tail = 1; stopping = true };
  stop = false;
  acceptor = joining;
  idle = 0;
  returned = 1;
  serving = [];
  pushed = 7 ∷ [];
  taken = 7 ∷ [];
  closed = 7 ∷ [];
}

abbrev serving_it : System
unfolding init zeros
serving_it = record drained {
  queue = record (init 1) { fds = 7 ∷ zeros 15; head = 1; tail = 1; active = 1 };
  acceptor = accepting;
  returned = 0;
  serving = 7 ∷ [];
  closed = [];
}

drained_reached : Reach 1 1 drained
unfolding waiting serving_it drained init zeros push take_client finish_client stop_queue
drained_reached =
    next
      (next
        (next
          (next (next waiting_reached (takes_one waiting 0 7 serving_it.queue refl refl))
            (finishes serving_it [] 7 [] refl))
          (leaves
            (record serving_it {
              queue = finish_client serving_it.queue;
              idle = 1;
              serving = [];
              closed = 7 ∷ [];
            })
            refl))
        (stops
          (record serving_it {
            queue = finish_client serving_it.queue;
            idle = 1;
            serving = [];
            closed = 7 ∷ [];
            acceptor = leaving;
          })
          refl))
      (worker_returns (record drained { idle = 1; returned = 0 }) 0 refl refl)

drains_example : Perm drained.closed drained.pushed
unfolding drained
drains_example = shutdown_drains drained_reached (omega arith) refl

-- The queue has been stopped with client 7 in it, and the worker idle.
abbrev stopped : System
stopped = record waiting { queue = stop_queue waiting.queue; acceptor = joining }
