-- ===== src/Gpu/Context/Rows.antt =====
-- How `fortai_cuda_qwen35_topk_rows_device` of backend/cuda/fortai_cuda_backend.cu creates the event
-- and the streams of the top-k selection, once for a context.
use fortai.Prelude.{ℕ, zero, suc, Bool, true, false, not, List, [], ◌∷◌, ◌++◌, if◌then◌else◌}
use fortai.Ledger.{acquired, released, on}
use fortai.Gpu.Context.{
  Context, Event, Result, ok, unchanged, fail, row_topk, put, none_set, destroy_rows, ready,
  row_stream, row_done,
}

-- what can be created, for each row
pub record Creations : Type 0 where
  pub has_ready : Bool
  pub has_stream : ℕ → Bool
  pub has_done : ℕ → Bool

-- what the loop has made so far, and whether the last call succeeded
pub record Made : Type 0 where
  pub events : List Event
  pub streams : ℕ → Bool
  pub done : ℕ → Bool
  pub all : Bool

-- the loop over the rows, `n` of them from `row` on
unfoldable pub create_rows : Creations → ℕ → ℕ → (ℕ → Bool) → (ℕ → Bool) → Made
create_rows o zero row streams done = record {
  events = [];
  streams = streams;
  done = done;
  all = true;
}
create_rows o (suc n) row streams done =
    let rest = create_rows o n (suc row) (put row true streams) (put row true done) in
    if not (o.has_stream row)
    then (record { events = []; streams = streams; done = done; all = false })
    else if not (o.has_done row)
    then (record {
      events = acquired (row_stream row) ∷ [];
      streams = put row true streams;
      done = done;
      all = false;
    })
    else record rest { events = acquired (row_stream row) ∷ acquired (row_done row) ∷ rest.events }

unfoldable pub make : Creations → Context → Made
make o c =
    if o.has_ready
    then create_rows o 32 0 c.topk_streams c.topk_done
    else record { events = []; streams = c.topk_streams; done = c.topk_done; all = false }

-- what is kept of it, and what is destroyed again if a call failed
unfoldable pub settle : Creations → Made → Context → Result
unfolding fail
settle o made c =
    if made.all
    then (record {
      events = acquired ready ∷ made.events;
      context = record c { topk_ready = true; topk_streams = made.streams; topk_done = made.done };
      status = ok;
    })
    else fail row_topk
        (on o.has_ready (acquired ready)
          ++ (made.events
              ++ (destroy_rows 32 0 made.streams made.done ++ on o.has_ready (released ready))))
        (record c { topk_ready = false; topk_streams = none_set; topk_done = none_set })

-- the whole `if (!context->impl.topk_ready)`
unfoldable pub prepare_rows : Creations → Context → Result
unfolding unchanged
prepare_rows o c = if c.topk_ready then unchanged c ok else settle o (make o c) c
