-- ===== src/Http/Server.antt =====
-- The run of the server in src/server/fortai_http_server.c: `fortai_http_transport_run` and what it
-- calls, as the resources that are taken, used and released, in order. What the system's calls
-- return is the parameter `Calls`.
pub mod Exits
pub mod Lifetime
pub mod Ownership
pub mod Settings
use fortai.Prelude.{
  ℕ, zero, suc, ◌+◌, ◌-◌, Bool, true, false, not, ◌&&◌, ◌||◌, Option, none, some, List, [], ◌∷◌,
  ◌++◌, ltb, leb, ◌==◌, if◌then◌else◌, replicate,
}
use fortai.Ledger
use fortai.Ledger.{acquired, used, released, on}
use fortai.Libc.{Bytes, codes, str_eq}
use fortai.Libc.Environment.{Env}
use fortai.Http.Server.Settings.{parse_worker_count, parse_parallel_slots}

-- The sockets, the processes with the array of their ids, and what the threads of the queue share.
pub data Resource : Type 0 where
  listener client children child fds workers mutex available space drained thread : Resource

abbrev pub Event : Type 0
Event = Ledger.Event Resource

-- What `accept` does, and for a client whether `fortai_queue_push` takes it. Where the list of
-- these ends, the loop sees `fortai_stop`.
pub data Accepted : Type 0 where
  interrupted fails : Accepted
  arrives : Bool → Accepted

-- What the calls give, true for success. `resolves` is for `inet_pton` and `gethostbyname`, `bound`
-- for `bind` and `listen`; `forks` and `creates` are by the number of the child and of the thread.
pub record Calls : Type 0 where
  pub handlers : Bool
  pub socket : Bool
  pub resolves : Bytes → Bool
  pub bound : Bool
  pub slot_mode : Bool
  pub children_memory : Bool
  pub forks : ℕ → Bool
  pub slot_clients : List Accepted
  pub fds_memory : Bool
  pub workers_memory : Bool
  pub mutex_init : Bool
  pub available_init : Bool
  pub space_init : Bool
  pub drained_init : Bool
  pub creates : ℕ → Bool
  pub clients : List Accepted

-- `host == NULL || strcmp(host, "0.0.0.0") == 0 || strcmp(host, "*") == 0`
unfoldable pub is_any : Option Bytes → Bool
is_any none = true
is_any (some host) = str_eq host (codes "0.0.0.0") || str_eq host (codes "*")

abbrev pub has_address : Calls → Option Bytes → Bool
has_address o none = true
has_address o (some host) = is_any (some host) || o.resolves host

-- `fortai_open_listener`
unfoldable pub open_listener : Calls → Option Bytes → List Event × Bool
open_listener o host =
    if not o.socket
    then ([], false)
    else if not (has_address o host)
    then (acquired listener ∷ released listener ∷ [], false)
    else if not o.bound
    then (acquired listener ∷ released listener ∷ [], false)
    else (acquired listener ∷ [], true)

-- `fortai_process_accept_loop`, true for 0 and false for -1. `fortai_close_client` closes a client.
unfoldable pub process_accept_loop : List Accepted → List Event × Bool
process_accept_loop [] = ([], true)
process_accept_loop (interrupted ∷ rest) =
    let r = process_accept_loop rest in (used listener ∷ r.0, r.1)
process_accept_loop (fails ∷ rest) = (used listener ∷ [], false)
process_accept_loop (arrives queued ∷ rest) =
    let r = process_accept_loop rest in
    (used listener ∷ acquired client ∷ released client ∷ r.0, r.1)

-- The loop that forks, from child `i` on: how many children there are, and whether none failed.
unfoldable pub fork_loop : (ℕ → Bool) → ℕ → ℕ → ℕ × Bool
fork_loop forks i zero = (0, true)
fork_loop forks i (suc n) =
    let rest = fork_loop forks (i + 1) n in if forks i then (suc rest.0, rest.1) else (0, false)

-- 0, -1 and -2 of `fortai_run_cpu_process_slots`
pub data SlotsResult : Type 0 where
  stopped accept_failed unavailable : SlotsResult

-- behind the loop that forks: the signals to the children, and the waits for them
abbrev pub end_children : ℕ → List Event
end_children child_count =
    replicate child_count (used child)
    ++ (replicate child_count (released child) ++ (released children ∷ []))

-- `fortai_run_cpu_process_slots`, as the parent runs it
unfoldable pub run_cpu_process_slots : Calls → ℕ → List Event × SlotsResult
run_cpu_process_slots o slots =
    if leb slots 1
    then ([], unavailable)
    else if not o.children_memory
    then ([], unavailable)
    else let forked = fork_loop o.forks 1 (slots - 1) in
      let begun = acquired children ∷ replicate forked.0 (acquired child) in
      if not forked.1
      then (begun ++ end_children forked.0, unavailable)
      else let loop = process_accept_loop o.slot_clients in
        (begun ++ (loop.0 ++ end_children forked.0), if loop.1 then stopped else accept_failed)

-- The accept loop of the threaded server. A client that is pushed is closed by a worker.
unfoldable pub accept_loop : List Accepted → List Event
accept_loop [] = []
accept_loop (interrupted ∷ rest) = used listener ∷ accept_loop rest
accept_loop (fails ∷ rest) = used listener ∷ []
accept_loop (arrives true ∷ rest) = used listener ∷ used mutex ∷ used fds ∷ accept_loop rest
accept_loop (arrives false ∷ rest) =
    used listener ∷ acquired client ∷ used mutex ∷ released client ∷ []

-- `started_workers`, from thread `i` on
unfoldable pub started_workers : (ℕ → Bool) → ℕ → ℕ → ℕ
started_workers creates i zero = 0
started_workers creates i (suc n) =
    let rest = started_workers creates (i + 1) n in if creates i then suc rest else 0

-- how the mutex, the conditions and the two arrays are given back in a queue that was set up
abbrev pub end_queue : List Event
end_queue =
    released mutex
    ∷ released available
    ∷ released space
    ∷ released drained
    ∷ released fds
    ∷ released workers
    ∷ []

-- the accept loop between the starts and the joins of the threads
abbrev pub serve : Calls → ℕ → List Event
serve o started =
    replicate started (acquired thread)
    ++ (accept_loop o.clients
        ++ (released listener ∷ used mutex ∷ (replicate started (released thread) ++ end_queue)))

-- the part with the threads, true for 0 and false for -1
unfoldable pub run_workers : Calls → ℕ → List Event → List Event × Bool
run_workers o worker_count events =
    let started = started_workers o.creates 0 worker_count in
    if started == 0
    then (events ++ (end_queue ++ (released listener ∷ [])), false)
    else (events ++ serve o started, true)

-- `mutex_ready`, `available_ready`, `space_ready` and `drained_ready`
abbrev pub mutex_ready : Calls → Bool
mutex_ready o = o.mutex_init

abbrev pub available_ready : Calls → Bool
available_ready o = mutex_ready o && o.available_init

abbrev pub space_ready : Calls → Bool
space_ready o = available_ready o && o.space_init

abbrev pub drained_ready : Calls → Bool
drained_ready o = space_ready o && o.drained_init

abbrev pub queue_begun : Calls → List Event
queue_begun o =
    on (mutex_ready o) (acquired mutex)
    ++ (on (available_ready o) (acquired available)
        ++ (on (space_ready o) (acquired space) ++ on (drained_ready o) (acquired drained)))

-- `queue_init_failed`
abbrev pub queue_init_failed : Calls → List Event
queue_init_failed o =
    on (drained_ready o) (released drained)
    ++ (on (space_ready o) (released space)
        ++ (on (available_ready o) (released available)
            ++ (on (mutex_ready o) (released mutex)
                ++ (released fds ∷ released workers ∷ released listener ∷ []))))

-- the part with the mutex and the conditions
unfoldable pub run_queue : Calls → ℕ → List Event → List Event × Bool
run_queue o worker_count events =
    if not (drained_ready o)
    then (events ++ (queue_begun o ++ queue_init_failed o), false)
    else run_workers o worker_count (events ++ queue_begun o)

abbrev pub arrays_begun : Calls → List Event
arrays_begun o = on o.fds_memory (acquired fds) ++ on o.workers_memory (acquired workers)

-- `free(queue.fds)`, `free(workers)` and `close(listener)`
abbrev pub arrays_failed : Calls → List Event
arrays_failed o =
    on o.fds_memory (released fds)
    ++ (on o.workers_memory (released workers) ++ (released listener ∷ []))

-- the threaded server, from its two arrays on
unfoldable pub run_threads : Calls → ℕ → List Event → List Event × Bool
run_threads o worker_count events =
    if not o.fds_memory || not o.workers_memory
    then (events ++ (arrays_begun o ++ arrays_failed o), false)
    else run_queue o worker_count (events ++ arrays_begun o)

-- What becomes of the result of the process slots: with -2, the threads serve.
unfoldable pub after_slots : Calls → ℕ → List Event → SlotsResult → List Event × Bool
after_slots o worker_count events stopped = (events, true)
after_slots o worker_count events accept_failed = (events, false)
after_slots o worker_count events unavailable = run_threads o worker_count events

-- the part with process slots
unfoldable pub run_slots : Env → Calls → List Event → List Event × Bool
run_slots env o events =
    if not o.slot_mode
    then (events ++ (released listener ∷ []), false)
    else let slots = run_cpu_process_slots o (parse_parallel_slots env) in
      after_slots o (parse_worker_count env) (events ++ (slots.0 ++ (released listener ∷ [])))
        slots.1

-- the part with the listener
unfoldable pub run_with_listener : Env → Calls → Bool → List Event → List Event × Bool
run_with_listener env o cuda events =
    if not cuda && ltb 1 (parse_parallel_slots env)
    then run_slots env o events
    else run_threads o (parse_worker_count env) events

-- `fortai_http_transport_run`, true for 0 and false for -1; `cuda` is `cuda != 0`.
unfoldable pub transport_run : Env → Calls → Option Bytes → Bool → List Event × Bool
transport_run env o host cuda =
    if not o.handlers
    then ([], false)
    else let opened = open_listener o host in
      if not opened.1 then (opened.0, false) else run_with_listener env o cuda opened.0
