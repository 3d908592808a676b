-- ===== src/Http/Queue/Ring.antt =====
-- The ring holds the pushed clients in order.
use fortai.Prelude.{
  ℕ, zero, suc, ◌+◌, ◌-◌, ◌*◌, ◌%◌, ◌≤◌, ◌<◌, ◌≡◌, ◌≢◌, refl, ap, sym, ◌∙◌, Bool, List, [], ◌∷◌,
  ◌++◌, ltb, if◌then◌else◌, get_or, set, length, length-set, get_or-set_self, get_or-set_ne, arith,
}
use mathlib.Core.Path.{ap₂}
use native.Mathlib.Nat.{mod-add-mod, mod-eq_of_lt}
use fortai.Http.Queue.{
  Queue, zeros, init, pushes, push, takes, take_client, finish_client, stop_queue,
}

-- The `n` clients from index `h` on, going round at the capacity.
abbrev pub window : List ℕ → ℕ → ℕ → ℕ → List ℕ
window fds capacity h zero = []
window fds capacity h (suc n) = get_or fds h 0 ∷ window fds capacity ((h + 1) % capacity) n

abbrev pub clients : Queue → List ℕ
clients q = window q.fds q.capacity q.head q.count

pub record IsValid (q : Queue) : Type 0 where
  pub storage : length q.fds ≡ q.capacity
  pub head_in : q.head < q.capacity
  pub count_in : q.count ≤ q.capacity
  pub tail_is : q.tail ≡ (q.head + q.count) % q.capacity

length-zeros : (n : ℕ) → length (zeros n) ≡ n
unfolding zeros
length-zeros zero = refl
length-zeros (suc n) = ap suc (length-zeros n)

pub init-IsValid : (workers : ℕ) → IsValid (init workers)
unfolding init
init-IsValid workers =
    ground (arith, length-zeros (if ltb (workers * 4) 16 then 16 else workers * 4))

-- The next index of the ring, from `n` places on.
step-mod : (h n c : ℕ) → ((h + 1) % c + n) % c ≡ (h + suc n) % c
step-mod h n c = mod-add-mod (h + 1) c n ∙ ap (λ (k : ℕ). k % c) (omega arith)

-- Fewer steps than the capacity do not come back to the start.
mod-ne : (h n c : ℕ) → h < c → suc n < c → (h + suc n) % c ≢ h
mod-ne h n c p q = grind arith

-- A write at the first free place, `n` places behind the head, appends to the window.
window-set :
    (n : ℕ) (fds : List ℕ) (c h i fd : ℕ)
    → length fds ≡ c
    → h < c
    → n < c
    → (h + n) % c ≡ i
    → window (set fds i fd) c h (suc n) ≡ window fds c h n ++ (fd ∷ [])
window-set zero fds c h i fd l p q e =
    let here : h ≡ i = sym (mod-eq_of_lt p) ∙ ap (λ (k : ℕ). k % c) (omega arith) ∙ e in
    ap (λ (x : ℕ). x ∷ [])
      (ap (λ (j : ℕ). get_or (set fds i fd) j 0) here ∙ get_or-set_self fds i fd 0 (omega arith))
window-set (suc n) fds c h i fd l p q e =
    ap₂ (λ (x : ℕ) (r : List ℕ). x ∷ r)
      (get_or-set_ne fds fd 0 (λ same. mod-ne h n c p q (e ∙ same)))
      (window-set n fds c ((h + 1) % c) i fd l (omega arith) (omega arith) (step-mod h n c ∙ e))

window_pos :
    (fds : List ℕ) (c h n : ℕ)
    → n ≢ 0
    → window fds c h n ≡ get_or fds h 0 ∷ window fds c ((h + 1) % c) (n - 1)
window_pos fds c h zero e = absurd (e refl)
window_pos fds c h (suc n) e =
    ap (λ (k : ℕ). get_or fds h 0 ∷ window fds c ((h + 1) % c) k) (omega arith)

-- A push into a valid ring appends the client, and keeps the ring valid.
pub push-clients :
    (stop : Bool) (q q' : Queue) (fd : ℕ)
    → IsValid q
    → push stop q fd ≡ pushes q'
    → IsValid q' × (clients q' ≡ clients q ++ (fd ∷ [])) × (q'.active ≡ q.active)
unfolding push
push-clients stop q q' fd v e = ground (
  arith,
  window-set q.count q.fds q.capacity q.head q.tail fd,
  length-set q.fds q.tail fd,
  step-mod q.head q.count q.capacity,
  mod-add-mod (q.head + q.count) q.capacity 1,
)

-- A worker takes the client that was pushed first, and keeps the ring valid.
pub take_client-clients :
    (q q' : Queue) (fd : ℕ)
    → IsValid q
    → take_client q ≡ takes fd q'
    → IsValid q' × (clients q ≡ fd ∷ clients q') × (q'.active ≡ q.active + 1)
unfolding take_client
take_client-clients q q' fd v e =
    ground
      (arith, window_pos q.fds q.capacity q.head q.count, step-mod q.head (q.count - 1) q.capacity)

pub finish_client-clients :
    (q : Queue) → IsValid q → IsValid (finish_client q) × (clients (finish_client q) ≡ clients q)
unfolding finish_client
finish_client-clients q v = (omega arith, refl)

pub stop_queue-clients :
    (q : Queue) → IsValid q → IsValid (stop_queue q) × (clients (stop_queue q) ≡ clients q)
unfolding stop_queue
stop_queue-clients q v = (omega arith, refl)
