-- ===== src/Http/Server/Ownership.antt =====
-- What the run of the server takes is given back once, in an order that is safe.
use fortai.Prelude.{
  ℕ, zero, suc, ◌≡◌, ◌∙◌, refl, Bool, true, false, ◌&&◌, ◌||◌, Option, none, some, List, [], ◌∷◌,
  ◌++◌, ◌==◌, replicate, arith,
}
use fortai.Ledger.{
  Rules, acquired, used, released, holds, replay, replay-append, in_use_none, holds-replicate,
  without-replicate, replay-acquire_all, replay-use_all, replay-release_all,
}
use fortai.Http.Server.{
  Resource, listener, client, children, child, fds, workers, mutex, available, space, drained,
  thread, Event, Accepted, interrupted, fails, arrives, Calls, process_accept_loop, end_children,
  accept_loop, end_queue, serve,
}

-- A number for each resource.
abbrev index : Resource → ℕ
index listener = 0
index client = 1
index children = 2
index child = 3
index fds = 4
index workers = 5
index mutex = 6
index available = 7
index space = 8
index drained = 9
index thread = 10

abbrev same : Resource → Resource → Bool
same r s = index r == index s

-- The threads need the queue, and the children the array of their ids.
abbrev pub rules : Rules Resource
rules = record {
  same = same;
  shared = λ r. same r child || same r thread;
  needs = λ s r.
      (same s thread
        && (same r fds || (same r mutex || (same r available || (same r space || same r drained)))))
      || (same s child && same r children);
}

-- the listener, if it is open, and what then becomes of the run
abbrev pub left : Bool → List Resource
left true = listener ∷ []
left false = []

abbrev pub outcome : Bool → Option (List Resource)
outcome true = some []
outcome false = none

nothing_needs_client : (s : Resource) → rules.needs s client ≡ false
nothing_needs_client s = ground arith

nothing_needs_child : (s : Resource) → rules.needs s child ≡ false
nothing_needs_child s = ground arith

nothing_needs_thread : (s : Resource) → rules.needs s thread ≡ false
nothing_needs_thread s = ground arith

-- The loops leave what is held as it was.
replay-accept_loop :
    (cs : List Accepted) (held : List Resource)
    → holds rules listener held ≡ true
    → holds rules mutex held ≡ true
    → holds rules fds held ≡ true
    → holds rules client held ≡ false
    → replay rules (accept_loop cs) held ≡ some held
unfolding accept_loop replay
replay-accept_loop [] held l m f c = refl
replay-accept_loop (interrupted ∷ cs) held l m f c =
    ground (arith, replay-accept_loop cs held l m f c)
replay-accept_loop (fails ∷ cs) held l m f c = ground arith
replay-accept_loop (arrives true ∷ cs) held l m f c =
    ground (arith, replay-accept_loop cs held l m f c)
replay-accept_loop (arrives false ∷ cs) held l m f c =
    ground (arith, in_use_none rules client held nothing_needs_client)

replay-process_accept_loop :
    (cs : List Accepted) (held : List Resource)
    → holds rules listener held ≡ true
    → holds rules client held ≡ false
    → replay rules (process_accept_loop cs).0 held ≡ some held
unfolding process_accept_loop replay
replay-process_accept_loop [] held l c = refl
replay-process_accept_loop (interrupted ∷ cs) held l c =
    ground (arith, replay-process_accept_loop cs held l c)
replay-process_accept_loop (fails ∷ cs) held l c = ground arith
replay-process_accept_loop (arrives queued ∷ cs) held l c = ground (
  arith,
  in_use_none rules client held nothing_needs_client,
  replay-process_accept_loop cs held l c,
)

-- Without a listener the loop, or the close behind it, is out of order.
replay-no_listener :
    (cs : List Accepted) (es : List Event) (held : List Resource)
    → holds rules listener held ≡ false
    → replay rules (accept_loop cs ++ (released listener ∷ es)) held ≡ none
unfolding accept_loop replay
replay-no_listener [] es held l = ground arith
replay-no_listener (interrupted ∷ cs) es held l = ground arith
replay-no_listener (fails ∷ cs) es held l = ground arith
replay-no_listener (arrives true ∷ cs) es held l = ground arith
replay-no_listener (arrives false ∷ cs) es held l = ground arith

abbrev pub queue_held : Bool → List Resource
queue_held b = drained ∷ space ∷ available ∷ mutex ∷ workers ∷ fds ∷ left b

nothing_needs_listener : (s : Resource) → rules.needs s listener ≡ false
nothing_needs_listener s = ground arith

-- the end of the threaded server, with `n` threads
replay-end :
    (n : ℕ)
    → replay rules
        (released listener ∷ used mutex ∷ (replicate n (released thread) ++ end_queue))
        (replicate n thread ++ queue_held true)
      ≡ some []
unfolding replay
replay-end n = ground (
  arith,
  holds-replicate rules listener thread n (queue_held true) refl,
  without-replicate rules listener thread n (queue_held true) refl,
  in_use_none rules listener (replicate n thread ++ queue_held true) nothing_needs_listener,
  holds-replicate rules mutex thread n (queue_held false) refl,
  replay-release_all rules thread n end_queue (queue_held false) refl nothing_needs_thread,
)

-- the threaded server with `n` threads
pub replay-threads :
    (o : Calls) (n : ℕ) (b : Bool) → replay rules (serve o n) (queue_held b) ≡ outcome b
replay-threads o n true =
    let held = replicate n thread ++ queue_held true in
    replay-acquire_all rules thread n _ (queue_held true) refl
    ∙ replay-append rules (accept_loop o.clients) _ held held (
        replay-accept_loop o.clients held
          (holds-replicate rules listener thread n (queue_held true) refl)
          (holds-replicate rules mutex thread n (queue_held true) refl)
          (holds-replicate rules fds thread n (queue_held true) refl)
          (holds-replicate rules client thread n (queue_held true) refl))
    ∙ replay-end n
replay-threads o n false =
    replay-acquire_all rules thread n _ (queue_held false) refl
    ∙ replay-no_listener o.clients _ (replicate n thread ++ queue_held false)
        (holds-replicate rules listener thread n (queue_held false) refl)

abbrev children_held : ℕ → List Resource
children_held n = replicate n child ++ (children ∷ listener ∷ [])

-- The signals go to children that are there, and each of them is waited for.
replay-end_children :
    (n : ℕ) → replay rules (end_children n) (children_held n) ≡ some (listener ∷ [])
unfolding replay
replay-end_children zero = refl
replay-end_children (suc n) =
    replay-use_all rules child (suc n) _ (children_held (suc n)) refl
    ∙ replay-release_all rules child (suc n) (released children ∷ []) (children ∷ listener ∷ [])
        refl nothing_needs_child

-- the process slots with `n` children, and a listener
pub replay-children :
    (n : ℕ) (es : List Event)
    → replay rules es (children_held n) ≡ some (children_held n)
    → replay rules
        ((acquired children ∷ replicate n (acquired child)) ++ (es ++ end_children n))
        (listener ∷ [])
      ≡ some (listener ∷ [])
unfolding replay
replay-children n es e =
    replay-acquire_all rules child n (es ++ end_children n) (children ∷ listener ∷ []) refl
    ∙ replay-append rules es (end_children n) (children_held n) (children_held n) e
    ∙ replay-end_children n

pub replay-slots_loop :
    (n : ℕ) (cs : List Accepted)
    → replay rules (process_accept_loop cs).0 (children_held n) ≡ some (children_held n)
replay-slots_loop n cs =
    replay-process_accept_loop cs (children_held n)
      (holds-replicate rules listener child n (children ∷ listener ∷ []) refl)
      (holds-replicate rules client child n (children ∷ listener ∷ []) refl)
