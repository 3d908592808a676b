-- ===== src/Gpu/Context/Destroyed.antt =====
-- The loops of `fortai_cuda_q8_context_destroy` give back what a context owns, and nothing else.
use fortai.Prelude.{
  ℕ, zero, suc, ◌+◌, ◌≡◌, refl, Bool, true, false, ◌&&◌, Option, some, ltb, leb, arith, List, ◌++◌,
  [], ◌∷◌,
}
use fortai.Ledger.{released, on}
use fortai.Ledger.Track.{after_release, track, track-append}
use fortai.Gpu.Context.{
  Context, Event, Resource, handle, stream, start, stop, position, ready, graph, exec, row_stream,
  row_done, is_present, destroy_slots, destroy_rows, context_destroy,
}
use fortai.Gpu.Context.Owned.{same, owned}

-- The loop over the slots gives back the graphs that are there, from `slot` on.
slots-graph :
    (c : Context) (k n slot : ℕ)
    → slot + n ≡ 66
    → track same (graph k) (destroy_slots n slot c) (some (leb slot k && (ltb k 66 && c.graphs k)))
      ≡ some false
unfolding destroy_slots track
slots-graph c k zero slot e = ground arith
slots-graph c k (suc n) slot e = ground (arith, slots-graph c k n (suc slot) (omega arith))

slots-exec :
    (c : Context) (k n slot : ℕ)
    → slot + n ≡ 66
    → track same
        (exec k)
        (destroy_slots n slot c)
        (some (leb slot k && (ltb k 66 && c.graph_execs k)))
      ≡ some false
unfolding destroy_slots track
slots-exec c k zero slot e = ground arith
slots-exec c k (suc n) slot e = ground (arith, slots-exec c k n (suc slot) (omega arith))

slots-other :
    (c : Context) (r : Resource) (held : Option Bool) (n slot : ℕ)
    → ((k : ℕ) → same r (graph k) ≡ false)
    → ((k : ℕ) → same r (exec k) ≡ false)
    → track same r (destroy_slots n slot c) held ≡ held
unfolding destroy_slots track
slots-other c r held zero slot g e = refl
slots-other c r held (suc n) slot g e =
    ground (arith, slots-other c r held n (suc slot) g e, g slot, e slot)

-- The loop over the rows does the same for the events and the streams.
module _ (streams done : ℕ → Bool) where
  rows-stream :
      (k n row : ℕ)
      → row + n ≡ 32
      → track same
          (row_stream k)
          (destroy_rows n row streams done)
          (some (leb row k && (ltb k 32 && streams k)))
        ≡ some false
  unfolding destroy_rows track
  rows-stream k zero row e = ground arith
  rows-stream k (suc n) row e = ground (arith, rows-stream k n (suc row) (omega arith))

  rows-done :
      (k n row : ℕ)
      → row + n ≡ 32
      → track same
          (row_done k)
          (destroy_rows n row streams done)
          (some (leb row k && (ltb k 32 && done k)))
        ≡ some false
  unfolding destroy_rows track
  rows-done k zero row e = ground arith
  rows-done k (suc n) row e = ground (arith, rows-done k n (suc row) (omega arith))

  rows-other :
      (r : Resource) (held : Option Bool) (n row : ℕ)
      → ((k : ℕ) → same r (row_stream k) ≡ false)
      → ((k : ℕ) → same r (row_done k) ≡ false)
      → track same r (destroy_rows n row streams done) held ≡ held
  unfolding destroy_rows track
  rows-other r held zero row f g = refl
  rows-other r held (suc n) row f g =
      ground (arith, rows-other r held n (suc row) f g, f row, g row)

-- what the loop over the rows leaves, for any resource
abbrev pub without_rows : Resource → Bool → Bool
without_rows (row_stream k) held = false
without_rows (row_done k) held = false
without_rows r held = held

abbrev pub in_rows : (ℕ → Bool) → (ℕ → Bool) → Resource → Bool → Bool
in_rows streams done (row_stream k) held = ltb k 32 && streams k
in_rows streams done (row_done k) held = ltb k 32 && done k
in_rows streams done r held = held

pub destroy_rows_lem :
    (streams done : ℕ → Bool) (r : Resource) (held : Bool)
    → track same r (destroy_rows 32 0 streams done) (some (in_rows streams done r held))
      ≡ some (without_rows r held)
destroy_rows_lem streams done (row_stream k) held =
    ground (arith, rows-stream streams done k 32 0 refl)
destroy_rows_lem streams done (row_done k) held = ground (arith, rows-done streams done k 32 0 refl)
destroy_rows_lem streams done handle held =
    rows-other streams done handle (some held) 32 0 (λ k. refl) (λ k. refl)
destroy_rows_lem streams done stream held =
    rows-other streams done stream (some held) 32 0 (λ k. refl) (λ k. refl)
destroy_rows_lem streams done start held =
    rows-other streams done start (some held) 32 0 (λ k. refl) (λ k. refl)
destroy_rows_lem streams done stop held =
    rows-other streams done stop (some held) 32 0 (λ k. refl) (λ k. refl)
destroy_rows_lem streams done position held =
    rows-other streams done position (some held) 32 0 (λ k. refl) (λ k. refl)
destroy_rows_lem streams done ready held =
    rows-other streams done ready (some held) 32 0 (λ k. refl) (λ k. refl)
destroy_rows_lem streams done (graph j) held =
    rows-other streams done (graph j) (some held) 32 0 (λ k. refl) (λ k. refl)
destroy_rows_lem streams done (exec j) held =
    rows-other streams done (exec j) (some held) 32 0 (λ k. refl) (λ k. refl)

abbrev without_slots : Context → Resource → Bool
without_slots c (graph k) = false
without_slots c (exec k) = false
without_slots c r = owned c r

destroy_slots_lem :
    (c : Context) (r : Resource)
    → track same r (destroy_slots 66 0 c) (some (owned c r)) ≡ some (without_slots c r)
destroy_slots_lem c (graph k) = ground (arith, slots-graph c k 66 0 refl)
destroy_slots_lem c (exec k) = ground (arith, slots-exec c k 66 0 refl)
destroy_slots_lem c handle = slots-other c handle (some true) 66 0 (λ k. refl) (λ k. refl)
destroy_slots_lem c stream =
    slots-other c stream (some (owned c stream)) 66 0 (λ k. refl) (λ k. refl)
destroy_slots_lem c start = slots-other c start (some true) 66 0 (λ k. refl) (λ k. refl)
destroy_slots_lem c stop = slots-other c stop (some true) 66 0 (λ k. refl) (λ k. refl)
destroy_slots_lem c position = slots-other c position (some true) 66 0 (λ k. refl) (λ k. refl)
destroy_slots_lem c ready = slots-other c ready (some c.topk_ready) 66 0 (λ k. refl) (λ k. refl)
destroy_slots_lem c (row_stream j) =
    slots-other c (row_stream j) (some (owned c (row_stream j))) 66 0 (λ k. refl) (λ k. refl)
destroy_slots_lem c (row_done j) =
    slots-other c (row_done j) (some (owned c (row_done j))) 66 0 (λ k. refl) (λ k. refl)

-- what is left after the slots and the position
abbrev without_position : Context → Resource → Bool
without_position c position = false
without_position c r = without_slots c r

release_position :
    (c : Context) (r : Resource)
    → after_release (same r position) (some (without_slots c r))
      ≡ some (in_rows c.topk_streams c.topk_done r (without_position c r))
release_position c r = ground arith

abbrev last_events : Context → List Event
last_events c =
    on c.topk_ready (released ready)
    ++ (released start
        ∷ released stop
        ∷ (on (c.owns_stream && is_present c.stream_value) (released stream)
            ++ (released handle ∷ [])))

release_rest :
    (c : Context) (r : Resource)
    → track same r (last_events c) (some (without_rows r (without_position c r))) ≡ some false
unfolding track
release_rest c r = ground arith

release_rows :
    (c : Context) (r : Resource)
    → track same r
        (destroy_rows 32 0 c.topk_streams c.topk_done ++ last_events c)
        (some (in_rows c.topk_streams c.topk_done r (without_position c r)))
      ≡ some false
release_rows c r =
    rw (track-append, destroy_rows_lem c.topk_streams c.topk_done r (without_position c r))
      (release_rest c r)

-- Whatever a context owns, `fortai_cuda_q8_context_destroy` gives back, once.
pub context_destroy_lem :
    (c : Context) (r : Resource) → track same r (context_destroy c) (some (owned c r)) ≡ some false
unfolding context_destroy track
context_destroy_lem c r =
    rw (track-append, destroy_slots_lem c r, track, release_position c r) (release_rows c r)
