-- ===== src/Http/Queue/Shutdown.antt =====
-- The shutdown in src/server/fortai_http_server.c: `pthread_join` behind the accept loop ends.
use fortai.Prelude.{ℕ, ◌+◌, ◌*◌, ◌≡◌, Bool, true, false, List, length}
use fortai.Http.Queue.{Queue}
use fortai.Http.Queue.Threads.{System, Step, signal}
use fortai.Http.Queue.Waiting.{Move, acts}
use fortai.Http.Queue.Ring
use mathlib.Core.List.Perm

-- A signal changes nothing once the acceptor joins the workers, and may come at any time.
abbrev pub is_signal : {s t : System} → Step s t → Bool
is_signal (signal s) = true
is_signal _ = false

abbrev pub is_signal_move : {hangs : ℕ → Bool} {s t : System} {k m : ℕ} → Move hangs s k t m → Bool
is_signal_move (acts st o) = is_signal st
is_signal_move _ = false

-- Whatever the threads do from here, they come to a state with `P`: as long as there is none, some
-- thread can go on, and wherever one goes, the same holds there.
pub data Inevitable (hangs : ℕ → Bool) (P : System → Type 0) : System → ℕ → Type 0 where
  now : {s : System} {k : ℕ} → P s → Inevitable hangs P s k
  later :
      {s : System} {k : ℕ}
      → ((t : System) × (m : ℕ) × (mv : Move hangs s k t m) × (is_signal_move mv ≡ false))
      → ((t : System) (m : ℕ) (mv : Move hangs s k t m)
          → is_signal_move mv ≡ false
          → Inevitable hangs P t m)
      → Inevitable hangs P s k

-- What is left to do: for each client in the ring, for each that is served, and for each idle worker.
abbrev work : System → ℕ
work s = 2 * s.queue.count + 2 * length s.serving + s.idle
