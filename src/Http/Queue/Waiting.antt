-- ===== src/Http/Queue/Waiting.antt =====
-- The waits of the workers in src/server/fortai_http_server.c: `System` lets a worker go on whenever
-- its condition holds and its client ends, and here it goes on only if it is awake and its client
-- does not hang.
use fortai.Prelude.{ℕ, suc, ◌-◌, ◌≤◌, ◌<◌, ◌≡◌, Bool, false}
use fortai.Http.Queue.{waits, take_client}
use fortai.Http.Queue.System.{
  System, start, Step, signal, accepts, leaves, push_ends, push_fails, stops, takes_one, finishes,
  worker_returns,
}

-- What a step asks of the workers and does to them: `k` of the idle workers sleep in
-- `pthread_cond_wait(&queue->available, ..)` before it, and `m` behind it. The signal of a push wakes
-- one or more, the broadcast of the shutdown wakes all, and only a worker that is awake takes a client
-- or returns. A client for which `hangs` says so keeps its worker in `fortai_close_client`: its
-- `recv` has no time limit.
abbrev pub Obeys : (ℕ → Bool) → {s t : System} → Step s t → ℕ → ℕ → Type 0
Obeys hangs (signal s) k m = m ≡ k
Obeys hangs (accepts s fd e) k m = m ≡ k
Obeys hangs (leaves s e) k m = m ≡ k
Obeys hangs (push_ends s fd q e p) k m = m ≤ k - 1
Obeys hangs (push_fails s fd e p) k m = m ≡ k
Obeys hangs (stops s e) k m = m ≡ 0
Obeys hangs (takes_one s n fd q i e) k m = (k ≤ n) × (m ≡ k)
Obeys hangs (finishes s before fd after e) k m = (hangs fd ≡ false) × (m ≡ k)
Obeys hangs (worker_returns s n i e) k m = (k ≤ n) × (m ≡ k)

-- A step of the system, a worker that goes to sleep, or one that wakes up by itself.
pub data Move (hangs : ℕ → Bool) : System → ℕ → System → ℕ → Type 0 where
  acts : {s t : System} {k m : ℕ} (st : Step s t) → Obeys hangs st k m → Move hangs s k t m
  sleeps :
      (s : System) (k : ℕ) → k < s.idle → take_client s.queue ≡ waits → Move hangs s k s (suc k)
  wakes : (s : System) (k : ℕ) → Move hangs s (suc k) s k

-- The states that the threads come to, with the number of sleeping workers.
pub data Runs (requested workers : ℕ) (hangs : ℕ → Bool) : System → ℕ → Type 0 where
  begins : Runs requested workers hangs (start requested workers) 0
  moves :
      {s t : System} {k m : ℕ}
      → Runs requested workers hangs s k
      → Move hangs s k t m
      → Runs requested workers hangs t m
