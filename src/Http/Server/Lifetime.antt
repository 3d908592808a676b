-- ===== src/Http/Server/Lifetime.antt =====
-- The whole run of the server, with its exits.
use fortai.Prelude.{
  ℕ, zero, suc, ◌+◌, ◌-◌, ◌≡◌, ◌∙◌, refl, ap, Bool, true, false, not, ◌&&◌, Option, none, some,
  List, [], ◌∷◌, ◌++◌, ltb, leb, if◌then◌else◌, replicate, arith, if_rule,
}
use fortai.Ledger.{acquired, released, replay, replay-append}
use fortai.Libc.{Bytes}
use fortai.Libc.Environment.{Env}
use fortai.Http.Server.Settings.{parse_worker_count, parse_parallel_slots}
use fortai.Http.Server.{
  listener, children, child, Event, Calls, has_address, open_listener, process_accept_loop,
  fork_loop, SlotsResult, stopped, accept_failed, unavailable, end_children, run_cpu_process_slots,
  run_threads, after_slots, run_slots, run_with_listener, transport_run,
}
use fortai.Http.Server.Ownership.{rules, outcome, replay-children, replay-slots_loop}
use fortai.Http.Server.Exits.{Outcome, run_threads-Outcome}

-- whether the children from number `i` on are all forked
unfoldable pub all_forked : (ℕ → Bool) → ℕ → ℕ → Bool
all_forked forks i zero = true
all_forked forks i (suc n) = forks i && all_forked forks (i + 1) n

fork_loop-all_forked : (forks : ℕ → Bool) (i n : ℕ) → (fork_loop forks i n).1 ≡ all_forked forks i n
unfolding fork_loop all_forked
fork_loop-all_forked forks i zero = refl
fork_loop-all_forked forks i (suc n) = ground (arith, fork_loop-all_forked forks (i + 1) n)

-- whether the run falls back from process slots, of which there are `slots`, to threads
unfoldable pub falls_back : Calls → ℕ → Bool
falls_back o slots = not (o.children_memory && all_forked o.forks 1 (slots - 1))

abbrev is_unavailable : SlotsResult → Bool
is_unavailable unavailable = true
is_unavailable _ = false

-- What the process slots come to: they give back what they take, and say whether threads must serve.
abbrev SlotsOutcome : Calls → ℕ → List Event × SlotsResult → Type 0
SlotsOutcome o slots r =
    (replay rules r.0 (listener ∷ []) ≡ some (listener ∷ []))
    × (is_unavailable r.1 ≡ falls_back o slots)

run_cpu_process_slots-Outcome :
    (o : Calls) (slots : ℕ)
    → leb slots 1 ≡ false
    → SlotsOutcome o slots (run_cpu_process_slots o slots)
unfolding run_cpu_process_slots falls_back replay
run_cpu_process_slots-Outcome o slots l =
    let forked = fork_loop o.forks 1 (slots - 1) in
    let begun = acquired children ∷ replicate forked.0 (acquired child) in
    let loop = process_accept_loop o.slot_clients in
    let served : List Event × SlotsResult =
      (begun ++ (loop.0 ++ end_children forked.0), if loop.1 then stopped else accept_failed) in
    let failed : List Event × SlotsResult = (begun ++ end_children forked.0, unavailable) in
    let all = fork_loop-all_forked o.forks 1 (slots - 1) in
    if_rule (SlotsOutcome o slots) (leb slots 1) ([], unavailable)
      (if not o.children_memory then ([], unavailable) else if not forked.1 then failed else served)
      (λ few. absurd (ground arith))
      λ _.
        if_rule (SlotsOutcome o slots) (not o.children_memory) ([], unavailable)
          (if not forked.1 then failed else served) (λ m. (refl, ground arith))
          λ m.
            if_rule (SlotsOutcome o slots) (not forked.1) failed served
              (λ f. (replay-children forked.0 [] refl, ground (arith, all)))
              λ f. (
                replay-children forked.0 loop.0 (replay-slots_loop forked.0 o.slot_clients),
                ground (arith, all),
              )

after_slots-Outcome :
    (o : Calls) (worker_count : ℕ) (events : List Event) (r : SlotsResult)
    → replay rules events [] ≡ some []
    → Outcome (not (is_unavailable r)) (after_slots o worker_count events r)
unfolding after_slots
after_slots-Outcome o worker_count events stopped e = e
after_slots-Outcome o worker_count events accept_failed e = e
after_slots-Outcome o worker_count events unavailable e =
    run_threads-Outcome o worker_count false events e

close_listener : replay rules (released listener ∷ []) (listener ∷ []) ≡ some []
unfolding replay
close_listener = refl

-- With a listener, the process slots that are not available close it, and the threads have none.
run_slots-Outcome :
    (env : Env) (o : Calls) (events : List Event)
    → leb (parse_parallel_slots env) 1 ≡ false
    → replay rules events [] ≡ some (listener ∷ [])
    → Outcome
        (not (o.slot_mode && falls_back o (parse_parallel_slots env)))
        (run_slots env o events)
unfolding run_slots
run_slots-Outcome env o events l e =
    let count = parse_parallel_slots env in
    let slots = run_cpu_process_slots o count in
    let (balanced, says) = run_cpu_process_slots-Outcome o count l in
    let closed : replay rules (events ++ (slots.0 ++ (released listener ∷ []))) [] ≡ some [] =
      replay-append rules events _ [] (listener ∷ []) e
      ∙ replay-append rules slots.0 _ (listener ∷ []) (listener ∷ []) balanced
      ∙ close_listener in
    if_rule (Outcome (not (o.slot_mode && falls_back o count))) (not o.slot_mode)
      (events ++ (released listener ∷ []), false)
      (after_slots o (parse_worker_count env) (events ++ (slots.0 ++ (released listener ∷ [])))
        slots.1)
      (λ m.
        replay-append rules events _ [] (listener ∷ []) e
        ∙ close_listener
        ∙ ap (λ b. outcome (not b)) {x = false} (ground arith))
      λ m.
        after_slots-Outcome o (parse_worker_count env) _ slots.1 closed
        ∙ ap (λ b. outcome (not b)) (says ∙ ground arith)

run_with_listener-Outcome :
    (env : Env) (o : Calls) (cuda : Bool) (events : List Event)
    → replay rules events [] ≡ some (listener ∷ [])
    → Outcome
        (not (
          not cuda
          && (ltb 1 (parse_parallel_slots env)
              && (o.slot_mode && falls_back o (parse_parallel_slots env)))))
        (run_with_listener env o cuda events)
unfolding run_with_listener
run_with_listener-Outcome env o cuda events e =
    let count = parse_parallel_slots env in
    let by_slots = o.slot_mode && falls_back o count in
    if_rule (Outcome (not (not cuda && (ltb 1 count && by_slots)))) (not cuda && ltb 1 count)
      (run_slots env o events) (run_threads o (parse_worker_count env) events)
      (λ t.
        run_slots-Outcome env o events (ground arith) e
        ∙ ap (λ b. outcome (not b)) {x = by_slots} (ground arith))
      λ t.
        run_threads-Outcome o (parse_worker_count env) true events e
        ∙ ap (λ b. outcome (not b)) {x = false} (ground arith)

open_listener-held :
    (o : Calls) (host : Option Bytes)
    → (replay rules (open_listener o host).0 []
        ≡ some (if (open_listener o host).1 then listener ∷ [] else []))
      × ((open_listener o host).1 ≡ (o.socket && (has_address o host && o.bound)))
unfolding open_listener replay
open_listener-held o host = ground arith

-- whether the listener is open when `fortai_http_transport_run` is about to serve
abbrev pub listens : Calls → Option Bytes → Bool
listens o host = o.handlers && (o.socket && (has_address o host && o.bound))

-- On every path through `fortai_http_transport_run`, whatever the calls return, what is taken is
-- given back once, and nothing is used before it is taken or after it is given back: the accept
-- loops have the listener, the signals go to children that were not waited for, and the queue is
-- there until every thread is joined. The one exception is that the process slots turn out not to
-- be available: then the threads accept on a listener that is closed, or close it again.
pub transport_run-IsBalanced :
    (env : Env) (o : Calls) (host : Option Bytes) (cuda : Bool)
    → replay rules (transport_run env o host cuda).0 [] ≡ (
        if listens o host
          && (not cuda
              && (ltb 1 (parse_parallel_slots env)
                  && (o.slot_mode && falls_back o (parse_parallel_slots env))))
        then none
        else some [])
unfolding transport_run
transport_run-IsBalanced env o host cuda =
    let opened = open_listener o host in
    let (held, as_said) = open_listener-held o host in
    let fallen =
      not cuda
      && (ltb 1 (parse_parallel_slots env)
          && (o.slot_mode && falls_back o (parse_parallel_slots env))) in
    let Balanced : List Event × Bool → Type 0 =
      λ r. replay rules r.0 [] ≡ (if listens o host && fallen then none else some []) in
    if_rule Balanced (not o.handlers) ([], false)
      (if not opened.1 then (opened.0, false) else run_with_listener env o cuda opened.0)
      (λ h. unfold replay in ground arith)
      λ h.
        if_rule Balanced (not opened.1) (opened.0, false) (run_with_listener env o cuda opened.0)
          (λ c. ground (arith, held, as_said))
          λ c.
            run_with_listener-Outcome env o cuda opened.0 (ground (arith, held))
            ∙ ground (arith, as_said)
