-- ===== src/Http/Queue/Threads.antt =====
-- What holds in each state that the acceptor and the workers reach.
use fortai.Prelude.{
  ℕ, suc, ◌+◌, ◌≤◌, ◌<◌, ◌≡◌, ◌≢◌, refl, ap, sym, ◌∙◌, Bool, true, false, List, [], ◌∷◌, ◌++◌,
  length, append_assoc, append-nil, length-append, arith,
}
use mathlib.Core.List.{Perm, perm_middle}
use mathlib.Core.List.Perm
use mathlib.Core.Path.{subst₂}
use fortai.Http.Queue.{
  Queue, init, pushes, push, takes, returns, take_client, finish_client, stop_queue,
}
pub use fortai.Http.Queue.System.{
  Acceptor, accepting, leaving, joining, pushing, System, start, Step, signal, accepts, leaves,
  push_ends, push_fails, stops, takes_one, finishes, worker_returns, Reach, begin, next,
}
use fortai.Http.Queue.Ring.{
  IsValid, window, clients, init-IsValid, push-clients, take_client-clients, finish_client-clients,
  stop_queue-clients,
}

pub record Inv (workers : ℕ) (s : System) : Type 0 where
  pub valid : IsValid s.queue
  pub fifo : s.pushed ≡ s.taken ++ clients s.queue
  pub active_is : s.queue.active ≡ length s.serving
  pub all_workers : s.idle + s.returned + length s.serving ≡ workers
  pub once : Perm (s.closed ++ s.serving) s.taken
  pub stopped : s.returned ≢ 0 → (s.queue.stopping ≡ true) × (s.queue.count ≡ 0)

start-Inv : (requested workers : ℕ) → Inv workers (start requested workers)
unfolding init
start-Inv requested workers = record {
  valid = init-IsValid requested;
  fifo = refl;
  active_is = refl;
  all_workers = omega arith;
  once = Perm.refl [];
  stopped = λ n. absurd (n refl);
}

push_stopping :
    (stop : Bool) (q q' : Queue) (fd : ℕ)
    → push stop q fd ≡ pushes q'
    → (q.stopping ≡ false) × (q'.stopping ≡ q.stopping)
unfolding push
push_stopping stop q q' fd e = ground arith

pub take_count :
    (q q' : Queue) (fd : ℕ)
    → take_client q ≡ takes fd q'
    → (q.count ≢ 0) × (q'.stopping ≡ q.stopping)
unfolding take_client
take_count q q' fd e = ground arith

returns_empty : (q : Queue) → take_client q ≡ returns → (q.stopping ≡ true) × (q.count ≡ 0)
unfolding take_client
returns_empty q e = ground arith

perm_taken :
    (closed serving taken : List ℕ) (fd : ℕ)
    → Perm (closed ++ serving) taken
    → Perm (closed ++ (fd ∷ serving)) (taken ++ (fd ∷ []))
perm_taken closed serving taken fd p =
    Perm.trans (perm_middle closed serving)
      (Perm.trans (Perm.cons fd p) (Perm.symm (rw append-nil at (perm_middle {a = fd} taken []))))

perm_closed :
    (closed taken : List ℕ) (fd : ℕ) (before after : List ℕ)
    → Perm (closed ++ (before ++ (fd ∷ after))) taken
    → Perm ((fd ∷ closed) ++ (before ++ after)) taken
perm_closed closed taken fd before after p =
    Perm.trans
      (Perm.symm (
        Perm.trans (Perm.append_left closed (perm_middle before after))
          (perm_middle closed (before ++ after))))
      p

Step-Inv : {workers : ℕ} {s t : System} → Step s t → Inv workers s → Inv workers t
Step-Inv (signal s) v = record {
  valid = v.valid;
  fifo = v.fifo;
  active_is = v.active_is;
  all_workers = v.all_workers;
  once = v.once;
  stopped = v.stopped;
}
Step-Inv (accepts s fd e) v = record {
  valid = v.valid;
  fifo = v.fifo;
  active_is = v.active_is;
  all_workers = v.all_workers;
  once = v.once;
  stopped = v.stopped;
}
Step-Inv (leaves s e) v = record {
  valid = v.valid;
  fifo = v.fifo;
  active_is = v.active_is;
  all_workers = v.all_workers;
  once = v.once;
  stopped = v.stopped;
}
Step-Inv (push_ends s fd q e p) v =
    let (valid, appended, same) = push-clients s.stop s.queue q fd v.valid p in
    record {
      valid = valid;
      fifo = rw (appended, v.fifo) (append_assoc s.taken (clients s.queue) (fd ∷ []));
      active_is = same ∙ v.active_is;
      all_workers = v.all_workers;
      once = v.once;
      stopped = λ n. absurd (running (v.stopped n).0 (push_stopping s.stop s.queue q fd p).0);
    }
  where
    running : {b : Bool} → b ≡ true → b ≡ false → ⊥
    running h k = cc
Step-Inv (push_fails s fd e p) v = record {
  valid = v.valid;
  fifo = v.fifo;
  active_is = v.active_is;
  all_workers = v.all_workers;
  once = v.once;
  stopped = v.stopped;
}
Step-Inv (stops s e) v =
    let (valid, same) = stop_queue-clients s.queue v.valid in
    record {
      valid = valid;
      fifo = rw same v.fifo;
      active_is = unfold stop_queue in v.active_is;
      all_workers = v.all_workers;
      once = v.once;
      stopped = λ n. unfold stop_queue in (refl, (v.stopped n).1);
    }
Step-Inv (takes_one s n fd q i e) v =
    let (valid, first, one_more) = take_client-clients s.queue q fd v.valid e in
    record {
      valid = valid;
      fifo = v.fifo ∙ rw first (sym (append_assoc s.taken (fd ∷ []) (clients q)));
      active_is = omega (arith, one_more, v.active_is);
      all_workers = omega arith;
      once = perm_taken s.closed s.serving s.taken fd v.once;
      stopped = λ m. absurd ((take_count s.queue q fd e).0 (v.stopped m).1);
    }
Step-Inv (finishes s before fd after e) v =
    let (valid, same) = finish_client-clients s.queue v.valid in
    let fewer : length s.serving ≡ suc (length (before ++ after)) =
      ap length e
      ∙ omega (arith, length-append {0} before (fd ∷ after), length-append {0} before after) in
    record {
      valid = valid;
      fifo = rw same v.fifo;
      active_is = unfold finish_client in omega (arith, fewer, v.active_is);
      all_workers = omega (arith, fewer, v.all_workers);
      once = perm_closed s.closed s.taken fd before after (rw e at v.once);
      stopped = λ n. unfold finish_client in v.stopped n;
    }
Step-Inv (worker_returns s n i e) v = record {
  valid = v.valid;
  fifo = v.fifo;
  active_is = v.active_is;
  all_workers = omega arith;
  once = v.once;
  stopped = λ m. returns_empty s.queue e;
}

pub Reach-Inv : {requested workers : ℕ} {s : System} → Reach requested workers s → Inv workers s
Reach-Inv {requested} {workers} begin = start-Inv requested workers
Reach-Inv (next r st) = Step-Inv st (Reach-Inv r)

-- In every reachable state the clients taken so far, followed by those in the ring, are the
-- clients pushed, in the order of the pushes. The ring holds at most `capacity` clients, `head` and
-- `tail` are indices of `fds`, and `active` is the number of clients that workers serve.
pub queue_in_order :
    {requested workers : ℕ} {s : System}
    → Reach requested workers s
    → (s.pushed ≡ s.taken ++ clients s.queue)
      × (s.queue.count ≤ s.queue.capacity)
      × (s.queue.head < length s.queue.fds)
      × (s.queue.tail < length s.queue.fds)
      × (s.queue.active ≡ length s.serving)
queue_in_order {s} r =
    let v = Reach-Inv r in
    let valid = v.valid in (v.fifo, valid.count_in, omega arith, omega arith, v.active_is)

nil_of_length : (l : List ℕ) → length l ≡ 0 → l ≡ []
nil_of_length [] h = refl
nil_of_length (x ∷ l) h = absurd (omega arith)

-- When the last worker has returned, the shutdown has lost no client: each one that was pushed was
-- closed by a worker, and as often as it was pushed. The server has a worker at least.
pub shutdown_drains :
    {requested workers : ℕ} {s : System}
    → Reach requested workers s
    → 0 < workers
    → s.returned ≡ workers
    → Perm s.closed s.pushed
shutdown_drains {workers} {s} r pos done =
    let v = Reach-Inv r in
    let empty : clients s.queue ≡ [] =
      ap (window s.queue.fds s.queue.capacity s.queue.head) (v.stopped (omega arith)).1 in
    let nobody : s.serving ≡ [] = nil_of_length s.serving (omega (arith, v.all_workers)) in
    subst₂ (λ (a b : List ℕ). Perm a b)
      (ap (λ (l : List ℕ). s.closed ++ l) nobody ∙ append-nil s.closed)
      (sym (v.fifo ∙ ap (λ (l : List ℕ). s.taken ++ l) empty ∙ append-nil s.taken)) v.once
