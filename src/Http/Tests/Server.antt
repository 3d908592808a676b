-- ===== src/Http/Tests/Server.antt =====
-- Uses of the theorems on the run of the server, at a run with four process slots.
use fortai.Prelude.{◌≡◌, not, ◌&&◌, true, false, some, none, [], ◌∷◌, if◌then◌else◌, ltb}
use fortai.Ledger.{replay}
use fortai.Libc.{codes, str_eq}
use fortai.Libc.Environment.{Env}
use fortai.Http.Server.{Calls, interrupted, fails, arrives, transport_run}
use fortai.Http.Server.Settings.{parse_parallel_slots}
use fortai.Http.Server.Ownership.{rules}
use fortai.Http.Server.Lifetime.{listens, falls_back, transport_run-IsBalanced}

abbrev four_slots : Env
unfolding str_eq
four_slots name = if str_eq name (codes "FORTAI_PARALLEL") then some (codes "4") else none

-- Every call succeeds; the parent serves a client, is interrupted, and sees `accept` fail.
abbrev all_succeed : Calls
all_succeed = record {
  handlers = true;
  socket = true;
  resolves = λ host. true;
  bound = true;
  slot_mode = true;
  children_memory = true;
  forks = λ i. true;
  slot_clients = arrives true ∷ interrupted ∷ fails ∷ [];
  fds_memory = true;
  workers_memory = true;
  mutex_init = true;
  available_init = true;
  space_init = true;
  drained_init = true;
  creates = λ i. true;
  clients = arrives true ∷ arrives false ∷ [];
}

run_example : replay rules (transport_run four_slots all_succeed none false).0 [] ≡ (
    if listens all_succeed none
      && (not false
          && (ltb 1 (parse_parallel_slots four_slots)
              && (true && falls_back all_succeed (parse_parallel_slots four_slots))))
    then none
    else some [])
run_example = transport_run-IsBalanced four_slots all_succeed none false
