-- ===== src/Http/Server/Settings.antt =====
-- The counts in the environment that src/server/fortai_http_server.c reads.
use fortai.Prelude.{ℕ, ◌*◌, ◌≤◌, not, ◌||◌, Option, none, some, [], ◌∷◌, ltb, if◌then◌else◌, arith}
use fortai.Libc.{Bytes, codes, case_eq}
use fortai.Libc.Environment.{Env, is_set, text}
use fortai.Libc.Numbers.{Number, no_number, number, strtol}
use fortai.Http.Queue.{init}

-- what `end` and the value say of a count, from 1 to 256
unfoldable pub count_value : Number → ℕ
count_value no_number = 1
count_value (number negative magnitude (c ∷ cs)) = 1
count_value (number negative magnitude []) =
    if negative || ltb magnitude 1 then 1 else if ltb 256 magnitude then 256 else magnitude

unfoldable pub parse_count : Option Bytes → ℕ
parse_count none = 1
parse_count (some []) = 1
parse_count (some (c ∷ cs)) = count_value (strtol (c ∷ cs))

-- `fortai_parse_worker_count`
unfoldable pub parse_worker_count : Env → ℕ
parse_worker_count env =
    let value = env (codes "FORTAI_THREADS_HTTP") in
    parse_count (
      if not (is_set value) || case_eq (text value) (codes "0")
      then env (codes "FORTAI_PARALLEL")
      else value)

-- `fortai_parse_parallel_slots`
unfoldable pub parse_parallel_slots : Env → ℕ
parse_parallel_slots env = parse_count (env (codes "FORTAI_PARALLEL"))

parse_count-range : (value : Option Bytes) → (1 ≤ parse_count value) × (parse_count value ≤ 256)
unfolding parse_count count_value
parse_count-range none = (omega arith, omega arith)
parse_count-range (some []) = (omega arith, omega arith)
parse_count-range (some (c ∷ cs)) = in_range (strtol (c ∷ cs))
  where
    in_range : (n : Number) → (1 ≤ count_value n) × (count_value n ≤ 256)
    in_range no_number = (omega arith, omega arith)
    in_range (number negative magnitude (c ∷ cs)) = (omega arith, omega arith)
    in_range (number negative magnitude []) = ground arith

-- Whatever the environment says, there are from 1 to 256 worker threads and from 1 to 256 process
-- slots, and the ring has room for four clients for each worker, for 16 at least and for 1024 at
-- most.
pub parse_worker_count-bounds :
    (env : Env)
    → (1 ≤ parse_worker_count env)
      × (parse_worker_count env ≤ 256)
      × (1 ≤ parse_parallel_slots env)
      × (parse_parallel_slots env ≤ 256)
      × (4 * parse_worker_count env ≤ (init (parse_worker_count env)).capacity)
      × (16 ≤ (init (parse_worker_count env)).capacity)
      × ((init (parse_worker_count env)).capacity ≤ 1024)
unfolding parse_worker_count parse_parallel_slots init
parse_worker_count-bounds env =
    let value = env (codes "FORTAI_THREADS_HTTP") in
    let other = env (codes "FORTAI_PARALLEL") in
    let chosen =
      parse_count-range
        (if not (is_set value) || case_eq (text value) (codes "0") then other else value) in
    let slots = parse_count-range other in ground (arith, chosen, slots)
