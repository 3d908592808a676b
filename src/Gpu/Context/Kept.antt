-- ===== src/Gpu/Context/Kept.antt =====
-- Each operation's events take a context from what it owned to what it owns, and keep its slots and
-- rows consistent.
use fortai.Prelude.{ℕ, ◌≡◌, refl, Bool, true, false, Option, none, some, ltb, arith, ℤ, pos, negsuc}
use fortai.Libc.Environment.{Env}
use fortai.Ledger.Track.{track}
use fortai.Gpu.Context.{
  Context, Creation, Created, fails, creates, context_create, Result, Resource, graph, exec,
  set_position, synchronize, Handover, adopt_stream,
}
use fortai.Gpu.Context.Graphs.{begin_at, Capture, end_at, launch_at}
use fortai.Gpu.Context.Owned.{same, owned}

-- The events of an operation take the context from what it owned to what it owns.
abbrev pub Keeps : Context → Result → Resource → Type 0
Keeps c t r = track same r t.events (some (owned c r)) ≡ some (owned t.context r)

abbrev pub created_owned : Created → Resource → Bool
created_owned (fails status) r = false
created_owned (creates c) r = owned c r

pub context_create-Keeps :
    (env : Env) (o : Creation) (device : ℤ) (r : Resource)
    → track same r (context_create env o device).0 (some false)
      ≡ some (created_owned (context_create env o device).1 r)
unfolding context_create track
context_create-Keeps env o (negsuc device) r = refl
context_create-Keeps env o (pos device) r = ground arith

pub set_position-Keeps :
    (copies : Bool) (value : ℤ) (c : Context) (r : Resource)
    → Keeps c (set_position copies value c) r
unfolding set_position track
set_position-Keeps copies (negsuc n) c r = refl
set_position-Keeps true (pos n) c r = ground arith
set_position-Keeps false (pos n) c r = ground arith

pub synchronize-Keeps :
    (succeeds : Bool) (c : Context) (r : Resource) → Keeps c (synchronize succeeds c) r
unfolding synchronize track
synchronize-Keeps true c r = refl
synchronize-Keeps false c r = ground arith

pub adopt_stream-Keeps :
    (o : Handover) (borrowed : Option ℕ) (c : Context) (r : Resource)
    → Keeps c (adopt_stream o borrowed c) r
unfolding adopt_stream track
adopt_stream-Keeps o none c r = refl
adopt_stream-Keeps o (some borrowed) c r = ground arith

pub begin_at-Keeps :
    (begins : Bool) (slot : Option ℕ) (c : Context) (r : Resource)
    → Keeps c (begin_at begins slot c) r
unfolding begin_at track
begin_at-Keeps begins none c r = refl
begin_at-Keeps begins (some slot) c r = ground arith

pub launch_at-Keeps :
    (launches : Bool) (slot : ℕ) (c : Context) (r : Resource)
    → ltb slot 66 ≡ true
    → Keeps c (launch_at launches (some slot) c) r
unfolding launch_at track
launch_at-Keeps launches slot c r b = ground arith

-- A capture ends in a slot that is free.
pub end_at-Keeps :
    (o : Capture) (slot : ℕ) (c : Context) (r : Resource)
    → ltb slot 66 ≡ true
    → c.graphs slot ≡ false
    → c.graph_execs slot ≡ false
    → Keeps c (end_at o (some slot) c) r
unfolding end_at track
end_at-Keeps o slot c (graph k) b g e = ground arith
end_at-Keeps o slot c (exec k) b g e = ground arith
end_at-Keeps o slot c r b g e = ground arith
