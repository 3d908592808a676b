-- ===== src/Gpu/Context/Life.antt =====
-- The whole life of a context: it is created, used by any operations in any order, and destroyed.
use fortai.Prelude.{
  ℕ, ◌≡◌, refl, sym, ◌∙◌, Bool, true, false, Option, none, some, List, [], ◌∷◌, ◌++◌, ltb, arith, ℤ,
  pos, negsuc, index_below,
}
use fortai.Libc.Environment.{Env}
use fortai.Ledger.Track.{track, track-append}
use fortai.Gpu.Context.{
  Context, Creation, Created, fails, creates, context_create, Event, Result, Resource, set_position,
  synchronize, Handover, adopt_stream, unchanged, context_destroy,
}
use fortai.Gpu.Context.Graphs.{
  capture_begin_slot, Capture, capture_end_slot, end_at, graph_launch_slot, launch_at,
}
use fortai.Gpu.Context.Rows.{Creations, prepare_rows}
use fortai.Gpu.Context.Owned.{same, owned}
use fortai.Gpu.Context.Destroyed.{context_destroy_lem}
use fortai.Gpu.Context.Kept.{
  Keeps, created_owned, context_create-Keeps, set_position-Keeps, synchronize-Keeps,
  adopt_stream-Keeps, begin_at-Keeps, launch_at-Keeps, end_at-Keeps,
}
use fortai.Gpu.Context.Prepared.{IsConsistent, prepare_rows-Keeps}
use fortai.Gpu.Context.Consistent.{
  set_position-IsConsistent, synchronize-IsConsistent, adopt_stream-IsConsistent,
  begin_at-IsConsistent, launch_at-IsConsistent, end_at-IsConsistent, prepare_rows-IsConsistent,
  CreatedConsistent, context_create-IsConsistent,
}
use mathlib.Core.Path.{subst}

-- a call of one of the functions, with what CUDA returns
pub data Operation : Type 0 where
  sets_position : Bool → ℤ → Operation
  synchronizes : Bool → Operation
  adopts : Handover → Option ℕ → Operation
  begins : Bool → ℤ → Operation
  ends : Capture → ℤ → Operation
  launches : Bool → ℤ → Operation
  prepares : Creations → Operation

unfoldable pub perform : Operation → Context → Result
perform (sets_position copies value) c = set_position copies value c
perform (synchronizes succeeds) c = synchronize succeeds c
perform (adopts o borrowed) c = adopt_stream o borrowed c
perform (begins succeeds slot) c = capture_begin_slot succeeds slot c
perform (ends o slot) c = capture_end_slot o slot c
perform (launches succeeds slot) c = graph_launch_slot succeeds slot c
perform (prepares o) c = prepare_rows o c

unfoldable pub run : List Operation → Context → List Event × Context
run [] c = ([], c)
run (op ∷ ops) c =
    let t = perform op c in let rest = run ops t.context in (t.events ++ rest.0, rest.1)

abbrev lives_on : List Operation → Created → List Event
lives_on ops (fails status) = []
lives_on ops (creates c) = (run ops c).0 ++ context_destroy (run ops c).1

-- all events from the creation on, the destruction included if there is a context
unfoldable pub life : Env → Creation → ℤ → List Operation → List Event
life env o device ops =
    (context_create env o device).0 ++ lives_on ops (context_create env o device).1

-- A capture ends in a slot that has no graph: the one where it began.
abbrev pub IsFree : Option ℕ → Context → Type 0
IsFree none c = Unit {0}
IsFree (some slot) c = c.graphs slot ≡ false

abbrev pub IsPaired : Operation → Context → Type 0
IsPaired (ends o slot) c = IsFree (index_below 66 slot) c
IsPaired op c = Unit {0}

abbrev pub AllPaired : List Operation → Context → Type 0
AllPaired [] c = Unit {0}
AllPaired (op ∷ ops) c = IsPaired op c × AllPaired ops (perform op c).context

abbrev pub ArePaired : List Operation → Created → Type 0
ArePaired ops (fails status) = Unit {0}
ArePaired ops (creates c) = AllPaired ops c

perform-IsConsistent :
    (op : Operation) (c : Context) → IsConsistent c → IsConsistent (perform op c).context
unfolding perform capture_begin_slot capture_end_slot graph_launch_slot
perform-IsConsistent (sets_position copies value) c v = set_position-IsConsistent copies value c v
perform-IsConsistent (synchronizes succeeds) c v = synchronize-IsConsistent succeeds c v
perform-IsConsistent (adopts o borrowed) c v = adopt_stream-IsConsistent o borrowed c v
perform-IsConsistent (begins succeeds slot) c v =
    begin_at-IsConsistent succeeds (index_below 66 slot) c v
perform-IsConsistent (ends o slot) c v = end_at-IsConsistent o (index_below 66 slot) c v
perform-IsConsistent (launches succeeds slot) c v =
    launch_at-IsConsistent succeeds (index_below 66 slot) c v
perform-IsConsistent (prepares o) c v = prepare_rows-IsConsistent o c v

run_from-IsConsistent :
    (ops : List Operation) (c : Context) → IsConsistent c → IsConsistent (run ops c).1
unfolding run
run_from-IsConsistent [] c v = v
run_from-IsConsistent (op ∷ ops) c v =
    run_from-IsConsistent ops (perform op c).context (perform-IsConsistent op c v)

-- Whatever operations follow the creation of a context, in any order, with any arguments and any
-- results of CUDA: each of its slots has both a graph and its executable form or none of them, and
-- the streams and events of all rows of the top-k selection are there or none of them is.
pub run-IsConsistent :
    (env : Env) (o : Creation) (device : ℤ) (c : Context) (ops : List Operation)
    → (context_create env o device).1 ≡ creates c
    → IsConsistent (run ops c).1
run-IsConsistent env o device c ops e =
    run_from-IsConsistent ops c
      (subst CreatedConsistent e (context_create-IsConsistent env o device))

ends-Keeps :
    (o : Capture) (slot : Option ℕ) (c : Context) (r : Resource)
    → ((k : ℕ) → slot ≡ some k → ltb k 66 ≡ true)
    → IsConsistent c
    → IsFree slot c
    → Keeps c (end_at o slot c) r
ends-Keeps o none c r b v f = unfold end_at unchanged track in refl
ends-Keeps o (some slot) c r b v f =
    let inside = b slot refl in end_at-Keeps o slot c r inside f (sym (v.slots slot inside) ∙ f)

launches-Keeps :
    (succeeds : Bool) (slot : Option ℕ) (c : Context) (r : Resource)
    → ((k : ℕ) → slot ≡ some k → ltb k 66 ≡ true)
    → Keeps c (launch_at succeeds slot c) r
launches-Keeps succeeds none c r b = unfold launch_at unchanged track in refl
launches-Keeps succeeds (some slot) c r b = launch_at-Keeps succeeds slot c r (b slot refl)

index_below_lem :
    (bound : ℕ) (value : ℤ) (k : ℕ) → index_below bound value ≡ some k → ltb k bound ≡ true
index_below_lem bound (negsuc n) k e = ground arith
index_below_lem bound (pos n) k e = ground arith

perform-Keeps :
    (op : Operation) (c : Context) (r : Resource)
    → IsConsistent c
    → IsPaired op c
    → Keeps c (perform op c) r
unfolding perform capture_begin_slot capture_end_slot graph_launch_slot
perform-Keeps (sets_position copies value) c r v p = set_position-Keeps copies value c r
perform-Keeps (synchronizes succeeds) c r v p = synchronize-Keeps succeeds c r
perform-Keeps (adopts o borrowed) c r v p = adopt_stream-Keeps o borrowed c r
perform-Keeps (begins succeeds slot) c r v p = begin_at-Keeps succeeds (index_below 66 slot) c r
perform-Keeps (ends o slot) c r v p =
    ends-Keeps o (index_below 66 slot) c r (index_below_lem 66 slot) v p
perform-Keeps (launches succeeds slot) c r v p =
    launches-Keeps succeeds (index_below 66 slot) c r (index_below_lem 66 slot)
perform-Keeps (prepares o) c r v p = prepare_rows-Keeps o c r v

run-tracked :
    (ops : List Operation) (c : Context) (r : Resource)
    → IsConsistent c
    → AllPaired ops c
    → track same r (run ops c).0 (some (owned c r)) ≡ some (owned (run ops c).1 r)
unfolding run
run-tracked [] c r v p = unfold track in refl
run-tracked (op ∷ ops) c r v p =
    let kept : Keeps c (perform op c) r = perform-Keeps op c r v p.0 in
    rw (track-append, kept)
      (run-tracked ops (perform op c).context r (perform-IsConsistent op c v) p.1)

lives_on-tracked :
    (ops : List Operation) (created : Created) (r : Resource)
    → CreatedConsistent created
    → ArePaired ops created
    → track same r (lives_on ops created) (some (created_owned created r)) ≡ some false
lives_on-tracked ops (fails status) r v p = unfold track in refl
lives_on-tracked ops (creates c) r v p =
    rw (track-append, run-tracked ops c r v p) (context_destroy_lem (run ops c).1 r)

-- Each of the resources of a context is taken only while it is not held, is given back only while it
-- is, and is not held at the end of its life.
pub life-IsReleased :
    (env : Env) (o : Creation) (device : ℤ) (ops : List Operation) (r : Resource)
    → ArePaired ops (context_create env o device).1
    → track same r (life env o device ops) (some false) ≡ some false
unfolding life
life-IsReleased env o device ops r p =
    rw (track-append, context_create-Keeps env o device r)
      (lives_on-tracked ops (context_create env o device).1 r
        (context_create-IsConsistent env o device) p)
