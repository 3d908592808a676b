-- ===== src/Gpu/Context/Prepared.antt =====
-- The streams and events of the top-k selection: all are there, or none.
use fortai.Prelude.{
  ℕ, zero, suc, ◌+◌, ◌≡◌, inl, inr, refl, Bool, true, false, ◌&&◌, ◌||◌, Option, some, ◌++◌, ltb,
  leb, Bool-cases, if_rule, arith,
}
use fortai.Ledger.{on, released, acquired}
use fortai.Ledger.Track.{track, track-append}
use fortai.Gpu.Context.{
  Context, Resource, ready, row_stream, row_done, destroy_rows, fail, put, none_set,
}
use fortai.Gpu.Context.Rows.{Creations, Made, create_rows, prepare_rows, make, settle}
use fortai.Gpu.Context.Owned.{same, owned}
use fortai.Gpu.Context.Destroyed.{in_rows, without_rows, destroy_rows_lem}
use fortai.Gpu.Context.Kept.{Keeps}

module _ (o : Creations) (k : ℕ) where
  create_rows-stream :
      (n row : ℕ) (streams done : ℕ → Bool)
      → row + n ≡ 32
      → leb row k && (ltb k 32 && streams k) ≡ false
      → track same
          (row_stream k)
          (create_rows o n row streams done).events
          (some (ltb k 32 && streams k))
        ≡ some (ltb k 32 && (create_rows o n row streams done).streams k)
  unfolding create_rows track
  create_rows-stream zero row streams done e f = refl
  create_rows-stream (suc n) row streams done e f = ground (
    arith,
    create_rows-stream n (suc row) (put row true streams) (put row true done) (omega arith)
        (ground arith),
  )

  create_rows-done :
      (n row : ℕ) (streams done : ℕ → Bool)
      → row + n ≡ 32
      → leb row k && (ltb k 32 && done k) ≡ false
      → track same
          (row_done k)
          (create_rows o n row streams done).events
          (some (ltb k 32 && done k))
        ≡ some (ltb k 32 && (create_rows o n row streams done).done k)
  unfolding create_rows track
  create_rows-done zero row streams done e f = refl
  create_rows-done (suc n) row streams done e f = ground (
    arith,
    create_rows-done n (suc row) (put row true streams) (put row true done) (omega arith)
        (ground arith),
  )

  -- Where no call fails, each row has its stream and its event.
  pub create_rows-all :
      (n row : ℕ) (streams done : ℕ → Bool)
      → row + n ≡ 32
      → ltb k 32 ≡ true
      → (leb row k || (streams k && done k)) ≡ true
      → (create_rows o n row streams done).all ≡ true
      → ((create_rows o n row streams done).streams k ≡ true)
        × ((create_rows o n row streams done).done k ≡ true)
  unfolding create_rows
  create_rows-all zero row streams done e i f a = ground arith
  create_rows-all (suc n) row streams done e i f a = ground (
    arith,
    create_rows-all n (suc row) (put row true streams) (put row true done) (omega arith) i
        (ground arith),
  )

create_rows-other :
    (o : Creations) (r : Resource) (held : Option Bool) (n row : ℕ) (streams done : ℕ → Bool)
    → ((k : ℕ) → same r (row_stream k) ≡ false)
    → ((k : ℕ) → same r (row_done k) ≡ false)
    → track same r (create_rows o n row streams done).events held ≡ held
unfolding create_rows track
create_rows-other o r held zero row streams done f g = refl
create_rows-other o r held (suc n) row streams done f g = ground (
  arith,
  create_rows-other o r held n (suc row) (put row true streams) (put row true done) f g,
  f row,
  g row,
)

-- The pointers of the slots and rows: a slot has both of its graphs or none, and the streams and
-- events of all rows are there exactly when the first event is.
pub record IsConsistent (c : Context) : Type 0 where
  pub slots : (k : ℕ) → ltb k 66 ≡ true → c.graphs k ≡ c.graph_execs k
  pub streams : (k : ℕ) → ltb k 32 ≡ true → c.topk_streams k ≡ c.topk_ready
  pub done : (k : ℕ) → ltb k 32 ≡ true → c.topk_done k ≡ c.topk_ready

module _ (o : Creations) (c : Context) (v : IsConsistent c) (absent : c.topk_ready ≡ false) where
  no_stream : (k : ℕ) → ltb k 32 && c.topk_streams k ≡ false
  no_stream k = elim (Bool-cases (ltb k 32)) [
    | inl b ↦ ground (arith, v.streams k b)
    | inr b ↦ ground arith
  ]

  no_done : (k : ℕ) → ltb k 32 && c.topk_done k ≡ false
  no_done k = elim (Bool-cases (ltb k 32)) [
    | inl b ↦ ground (arith, v.done k b)
    | inr b ↦ ground arith
  ]

  make_lem :
      (r : Resource) (held : Bool)
      → track same r (make o c).events (some (in_rows c.topk_streams c.topk_done r held))
        ≡ some (in_rows (make o c).streams (make o c).done r held)
  unfolding make track
  make_lem (row_stream k) held = ground (
    arith,
    create_rows-stream o k 32 0 c.topk_streams c.topk_done refl (ground (arith, no_stream k)),
  )
  make_lem (row_done k) held =
      ground (
        arith,
        create_rows-done o k 32 0 c.topk_streams c.topk_done refl (ground (arith, no_done k)),
      )
  make_lem r held = ground (
    arith,
    create_rows-other o r (some held) 32 0 c.topk_streams c.topk_done (λ (k : ℕ). ground arith)
        (λ (k : ℕ). ground arith),
  )

module _ (o : Creations) (made : Made) (c : Context) (r : Resource) (absent : c.topk_ready ≡ false)
    (tracked : (held : Bool)
      → track same r made.events (some (in_rows c.topk_streams c.topk_done r held))
        ≡ some (in_rows made.streams made.done r held)) where
  abbrev with_ready : Resource → Bool → Bool
  with_ready ready created = created
  with_ready s created = owned c s

  acquire_ready :
      (created : Bool)
      → track same r (on created (acquired ready)) (some (owned c r))
        ≡ some (in_rows c.topk_streams c.topk_done r (with_ready r created))
  unfolding track
  acquire_ready created = ground arith

  made_events :
      (created : Bool)
      → track same r (on created (acquired ready) ++ made.events) (some (owned c r))
        ≡ some (in_rows made.streams made.done r (with_ready r created))
  made_events created =
      rw (track-append, acquire_ready created, tracked (with_ready r created)) refl

  release_ready :
      (created : Bool)
      → track same r (on created (released ready)) (some (without_rows r (with_ready r created)))
        ≡ some (
            owned
              (record c { topk_ready = false; topk_streams = none_set; topk_done = none_set })
              r)
  unfolding track
  release_ready created = ground arith

  undone :
      (created : Bool)
      → track same r
          (on created (acquired ready)
            ++ (made.events
                ++ (destroy_rows 32 0 made.streams made.done ++ on created (released ready))))
          (some (owned c r))
        ≡ some (
            owned
              (record c { topk_ready = false; topk_streams = none_set; topk_done = none_set })
              r)
  undone created =
      rw
        (
          track-append,
          acquire_ready created,
          track-append,
          tracked (with_ready r created),
          track-append,
          destroy_rows_lem made.streams made.done r (with_ready r created),
        )
        (release_ready created)

  settle-Keeps : Keeps c (settle o made c) r
  unfolding settle fail
  settle-Keeps =
      if_rule (λ t. Keeps c t r) made.all _ _ (λ e. ground (arith, made_events true))
        λ e. ground (arith, undone o.has_ready)

-- The streams and events are made, or are given back again.
pub prepare_rows-Keeps :
    (o : Creations) (c : Context) (r : Resource) → IsConsistent c → Keeps c (prepare_rows o c) r
unfolding prepare_rows
prepare_rows-Keeps o c r v =
    if_rule (λ t. Keeps c t r) c.topk_ready _ _ (λ e. unfold track in refl)
      λ e. settle-Keeps o (make o c) c r e (make_lem o c v e r)
