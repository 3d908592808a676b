-- ===== src/Http/Queue.antt =====
-- The request queue of src/server/fortai_http_server.c and its threads: the acceptor, which pushes
-- clients, and the workers, which take and close them. The mutex makes each section under it one
-- step. Clients are numbered by the accept calls. Queue/System is the steps without the waits: a
-- thread may go on whenever its condition holds and its client ends, so that it has every
-- interleaving of the code and more, which is what the order and the loss of clients need.
-- Queue/Waiting adds which workers sleep, what wakes them, and which clients hang; the acceptor's
-- wait for room in the ring is not in it.
pub mod Ring
pub mod Shutdown
pub mod System
pub mod Threads
pub mod Waiting
use fortai.Prelude.{
  ℕ, zero, suc, ◌+◌, ◌-◌, ◌*◌, ◌%◌, ◌≤◌, ◌<◌, ◌≡◌, Bool, true, false, not, ◌&&◌, ◌||◌, Option, none,
  some, List, [], ◌∷◌, ◌++◌, ltb, ◌==◌, if◌then◌else◌, get_or, set,
}

-- `fortai_request_queue`, without the mutex and the conditions
pub record Queue : Type 0 where
  pub fds : List ℕ
  pub capacity : ℕ
  pub head : ℕ
  pub tail : ℕ
  pub count : ℕ
  pub active : ℕ
  pub stopping : Bool

-- `calloc`
unfoldable pub zeros : ℕ → List ℕ
zeros zero = []
zeros (suc n) = 0 ∷ zeros n

-- The queue as `fortai_http_transport_run` sets it up.
unfoldable pub init : ℕ → Queue
init worker_count = record {
  fds = zeros (if ltb (worker_count * 4) 16 then 16 else worker_count * 4);
  capacity = if ltb (worker_count * 4) 16 then 16 else worker_count * 4;
  head = 0;
  tail = 0;
  count = 0;
  active = 0;
  stopping = false;
}

-- What `fortai_queue_push` does when it gets the mutex.
pub data Pushed : Type 0 where
  waits refuses : Pushed
  pushes : Queue → Pushed

-- `fortai_queue_push(queue, fd)`; the flag is `fortai_stop`.
unfoldable pub push : Bool → Queue → ℕ → Pushed
push stop q fd =
    if q.count == q.capacity && (not q.stopping && not stop)
    then waits
    else if q.stopping || stop
    then refuses
    else pushes (record q {
      fds = set q.fds q.tail fd;
      tail = (q.tail + 1) % q.capacity;
      count = q.count + 1;
    })

-- What the first section of `fortai_http_worker` does.
pub data Taken : Type 0 where
  waits returns : Taken
  takes : ℕ → Queue → Taken

unfoldable pub take_client : Queue → Taken
take_client q =
    if q.count == 0 && not q.stopping
    then Taken.waits
    else if q.count == 0 && q.stopping
    then returns
    else takes (get_or q.fds q.head 0)
        (record q { head = (q.head + 1) % q.capacity; count = q.count - 1; active = q.active + 1 })

-- the second section, behind `fortai_close_client`
unfoldable pub finish_client : Queue → Queue
finish_client q = record q { active = q.active - 1 }

-- the shutdown section of `fortai_http_transport_run`
unfoldable pub stop_queue : Queue → Queue
stop_queue q = record q { stopping = true }
