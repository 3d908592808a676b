-- ===== src/Gpu/Context/Borrowed.antt =====
-- The stream that a context of backend/cuda/fortai_cuda_backend.cu works on: its own, or one that it
-- was given by `fortai_cuda_q8_context_adopt_stream`.
use fortai.Prelude.{
  ℕ, ◌≡◌, ◌⊎◌, inl, inr, refl, Bool, true, false, not, ◌&&◌, ◌||◌, Option, none, some, List, [],
  ◌∷◌, if_rule, arith, ℤ, pos, negsuc, index_below,
}
use fortai.Libc.Environment.{Env}
use fortai.Ledger.Track.{track}
use fortai.Gpu.Context.{
  Context, Event, is_present, same_stream, Creation, Created, fails, creates, context_create,
  Result, Resource, set_position, synchronize, Handover, adopt_stream, fail, unchanged, new_context,
}
use fortai.Gpu.Context.Graphs.{
  begin_at, capture_begin_slot, Capture, end_at, capture_end_slot, launch_at, graph_launch_slot,
}
use fortai.Gpu.Context.Rows.{Creations, prepare_rows, settle}
use fortai.Gpu.Context.Owned.{same}
use fortai.Gpu.Context.Life.{
  Operation, sets_position, synchronizes, adopts, begins, ends, launches, prepares, perform, run,
  life, ArePaired, life-IsReleased,
}

-- One of the operations was given this stream to adopt.
abbrev pub IsAdopted : ℕ → List Operation → Type 0
IsAdopted b [] = ⊥
IsAdopted b (adopts o (some borrowed) ∷ ops) = (b ≡ borrowed) ⊎ IsAdopted b ops
IsAdopted b (op ∷ ops) = IsAdopted b ops

-- The stream is the context's own, which it has not destroyed, or one that it was lent.
abbrev pub HasStream : Option ℕ → (ℕ → Type 0) → Context → Type 0
HasStream own lent c =
    ((c.owns_stream ≡ true) × (c.stream_value ≡ own))
    ⊎ ((c.owns_stream ≡ false) × ((b : ℕ) × (c.stream_value ≡ some b) × lent b))

-- The other operations leave the stream alone.
set_position_stream :
    (copies : Bool) (value : ℤ) (c : Context)
    → ((set_position copies value c).context.owns_stream ≡ c.owns_stream)
      × ((set_position copies value c).context.stream_value ≡ c.stream_value)
unfolding set_position fail unchanged
set_position_stream copies (negsuc n) c = (refl, refl)
set_position_stream true (pos n) c = (refl, refl)
set_position_stream false (pos n) c = (refl, refl)

synchronize_stream :
    (succeeds : Bool) (c : Context)
    → ((synchronize succeeds c).context.owns_stream ≡ c.owns_stream)
      × ((synchronize succeeds c).context.stream_value ≡ c.stream_value)
unfolding synchronize fail unchanged
synchronize_stream true c = (refl, refl)
synchronize_stream false c = (refl, refl)

begin_at_stream :
    (succeeds : Bool) (slot : Option ℕ) (c : Context)
    → ((begin_at succeeds slot c).context.owns_stream ≡ c.owns_stream)
      × ((begin_at succeeds slot c).context.stream_value ≡ c.stream_value)
unfolding begin_at unchanged fail
begin_at_stream succeeds none c = (refl, refl)
begin_at_stream succeeds (some slot) c = ground arith

launch_at_stream :
    (succeeds : Bool) (slot : Option ℕ) (c : Context)
    → ((launch_at succeeds slot c).context.owns_stream ≡ c.owns_stream)
      × ((launch_at succeeds slot c).context.stream_value ≡ c.stream_value)
unfolding launch_at unchanged fail
launch_at_stream succeeds none c = (refl, refl)
launch_at_stream succeeds (some slot) c = ground arith

end_at_stream :
    (o : Capture) (slot : Option ℕ) (c : Context)
    → ((end_at o slot c).context.owns_stream ≡ c.owns_stream)
      × ((end_at o slot c).context.stream_value ≡ c.stream_value)
unfolding end_at unchanged fail
end_at_stream o none c = (refl, refl)
end_at_stream o (some slot) c = ground arith

prepare_rows_stream :
    (o : Creations) (c : Context)
    → ((prepare_rows o c).context.owns_stream ≡ c.owns_stream)
      × ((prepare_rows o c).context.stream_value ≡ c.stream_value)
unfolding prepare_rows settle fail unchanged
prepare_rows_stream o c = ground arith

IsAdopted-first :
    (b : ℕ) (op : Operation) (ops : List Operation) → IsAdopted b (op ∷ []) → IsAdopted b (op ∷ ops)
IsAdopted-first b (adopts o (some borrowed)) ops (inl e) = inl e
IsAdopted-first b (adopts o (some borrowed)) ops (inr m) = absurd m
IsAdopted-first b (adopts o none) ops m = absurd m
IsAdopted-first b (sets_position x y) ops m = absurd m
IsAdopted-first b (synchronizes x) ops m = absurd m
IsAdopted-first b (begins x y) ops m = absurd m
IsAdopted-first b (ends x y) ops m = absurd m
IsAdopted-first b (launches x y) ops m = absurd m
IsAdopted-first b (prepares x) ops m = absurd m

IsAdopted-later :
    (b : ℕ) (op : Operation) (ops : List Operation) → IsAdopted b ops → IsAdopted b (op ∷ ops)
IsAdopted-later b (adopts o (some borrowed)) ops m = inr m
IsAdopted-later b (adopts o none) ops m = m
IsAdopted-later b (sets_position x y) ops m = m
IsAdopted-later b (synchronizes x) ops m = m
IsAdopted-later b (begins x y) ops m = m
IsAdopted-later b (ends x y) ops m = m
IsAdopted-later b (launches x y) ops m = m
IsAdopted-later b (prepares x) ops m = m

module _ (own : Option ℕ) (lent : ℕ → Type 0) where
  leaves-HasStream :
      (c d : Context)
      → (d.owns_stream ≡ c.owns_stream) × (d.stream_value ≡ c.stream_value)
      → HasStream own lent c
      → HasStream own lent d
  leaves-HasStream c d e (inl h) = inl (rw (e.0, e.1) h)
  leaves-HasStream c d e (inr h) = inr (rw (e.0, e.1) h)

  adopt_stream-HasStream :
      (o : Handover) (borrowed : ℕ) (c : Context)
      → lent borrowed
      → HasStream own lent c
      → HasStream own lent (adopt_stream o (some borrowed) c).context
  unfolding adopt_stream unchanged
  adopt_stream-HasStream o borrowed c l h =
      let Has : Result → Type 0 = λ r. HasStream own lent r.context in
      if_rule Has (same_stream borrowed c.stream_value) _ _ (λ _. h)
        λ _.
          if_rule Has (not o.sets_device || (is_present c.stream_value && not o.synchronizes)) _ _
            (λ _. h)
            λ _.
              if_rule Has (c.owns_stream && is_present c.stream_value && not o.destroys) _ _
                (λ _. h) λ _. inr (refl, (borrowed, refl, l))

  perform-HasStream :
      (op : Operation) (c : Context)
      → ((b : ℕ) → IsAdopted b (op ∷ []) → lent b)
      → HasStream own lent c
      → HasStream own lent (perform op c).context
  unfolding perform capture_begin_slot capture_end_slot graph_launch_slot
  perform-HasStream (sets_position copies value) c l h =
      leaves-HasStream c (set_position copies value c).context (set_position_stream copies value c)
        h
  perform-HasStream (synchronizes succeeds) c l h =
      leaves-HasStream c (synchronize succeeds c).context (synchronize_stream succeeds c) h
  perform-HasStream (adopts o none) c l h = unfold adopt_stream unchanged in h
  perform-HasStream (adopts o (some borrowed)) c l h =
      adopt_stream-HasStream o borrowed c (l borrowed (inl refl)) h
  perform-HasStream (begins succeeds slot) c l h =
      leaves-HasStream c (begin_at succeeds (index_below 66 slot) c).context
        (begin_at_stream succeeds (index_below 66 slot) c) h
  perform-HasStream (ends o slot) c l h =
      leaves-HasStream c (end_at o (index_below 66 slot) c).context
        (end_at_stream o (index_below 66 slot) c) h
  perform-HasStream (launches succeeds slot) c l h =
      leaves-HasStream c (launch_at succeeds (index_below 66 slot) c).context
        (launch_at_stream succeeds (index_below 66 slot) c) h
  perform-HasStream (prepares o) c l h =
      leaves-HasStream c (prepare_rows o c).context (prepare_rows_stream o c) h

  run-HasStream :
      (ops : List Operation) (c : Context)
      → ((b : ℕ) → IsAdopted b ops → lent b)
      → HasStream own lent c
      → HasStream own lent (run ops c).1
  unfolding run
  run-HasStream [] c l h = h
  run-HasStream (op ∷ ops) c l h =
      run-HasStream ops (perform op c).context (λ b m. l b (IsAdopted-later b op ops m))
        (perform-HasStream op c (λ b m. l b (IsAdopted-first b op ops m)) h)

-- The stream of the context that a creation gives, behind any operations.
abbrev pub KeepsStream : Creation → List Operation → Created → Type 0
KeepsStream o ops (fails status) = Unit {0}
KeepsStream o ops (creates c) = HasStream o.new_stream (λ b. IsAdopted b ops) (run ops c).1

created-KeepsStream :
    (env : Env) (o : Creation) (device : ℤ) (ops : List Operation)
    → KeepsStream o ops (context_create env o device).1
unfolding context_create new_context
created-KeepsStream env o (negsuc device) ops = tt
created-KeepsStream env o (pos device) ops =
    let Keeps : List Event × Created → Type 0 = λ r. KeepsStream o ops r.1 in
    if_rule Keeps (not o.has_handle) _ _ (λ _. tt)
      λ _.
        if_rule Keeps (not o.has_properties) _ _ (λ _. tt)
          λ _.
            if_rule Keeps
              (not (o.sets_device && is_present o.new_stream && o.has_start && o.has_stop)) _ _
              (λ _. tt)
              λ _.
                if_rule Keeps (not (o.has_position && o.clears_position && o.synchronizes)) _ _
                  (λ _. tt)
                  λ _.
                    run-HasStream o.new_stream (λ b. IsAdopted b ops) ops (new_context env o device)
                      (λ b m. m) (inl (refl, refl))

-- A context is created, any operations follow, and it is destroyed if there is one. Whatever CUDA
-- returns, each of its resources (the memory of the context, its stream, its events, its position,
-- the graphs of its slots, the streams and events of its rows) is taken only while it is not held,
-- is given back only while it is, and is not held at the end; the position is written and a graph is
-- launched only while they are held. A capture has to end in a slot that has no graph. Behind the
-- operations, the stream that the context works on is its own, which it still owns, or, once it owns
-- none, one that an operation was given to adopt.
pub life-IsSafe :
    (env : Env) (o : Creation) (device : ℤ) (ops : List Operation) (r : Resource)
    → ArePaired ops (context_create env o device).1
    → (track same r (life env o device ops) (some false) ≡ some false)
      × KeepsStream o ops (context_create env o device).1
life-IsSafe env o device ops r p =
    (life-IsReleased env o device ops r p, created-KeepsStream env o device ops)
