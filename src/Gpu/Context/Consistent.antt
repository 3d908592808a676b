-- ===== src/Gpu/Context/Consistent.antt =====
-- Every operation keeps the slots and rows of a context consistent.
use fortai.Prelude.{
  ℕ, ◌≡◌, refl, Bool, true, false, not, List, ◌&&◌, Option, none, some, ltb, if_rule, arith, ℤ, pos,
  negsuc,
}
use fortai.Libc.Environment.{Env}
use fortai.Gpu.Context.{
  Context, Event, is_present, Creation, Created, fails, creates, context_create, set_position,
  synchronize, Handover, adopt_stream, fail, unchanged, new_context,
}
use fortai.Gpu.Context.Graphs.{begin_at, Capture, end_at, launch_at}
use fortai.Gpu.Context.Rows.{Creations, prepare_rows, settle, make}
use fortai.Gpu.Context.Prepared.{IsConsistent, create_rows-all}

module _ (c d : Context) (v : IsConsistent c) where
  -- an operation that leaves the slots and the rows alone
  leaves-IsConsistent :
      d.graphs ≡ c.graphs
      → d.graph_execs ≡ c.graph_execs
      → d.topk_streams ≡ c.topk_streams
      → d.topk_done ≡ c.topk_done
      → d.topk_ready ≡ c.topk_ready
      → IsConsistent d
  leaves-IsConsistent g e s t r = record {
    slots = λ k b. rw (g, e) (v.slots k b);
    streams = λ k b. rw (s, r) (v.streams k b);
    done = λ k b. rw (t, r) (v.done k b);
  }

pub set_position-IsConsistent :
    (copies : Bool) (value : ℤ) (c : Context)
    → IsConsistent c
    → IsConsistent (set_position copies value c).context
unfolding set_position fail unchanged
set_position-IsConsistent copies (negsuc n) c v = v
set_position-IsConsistent true (pos n) c v = leaves-IsConsistent c _ v refl refl refl refl refl
set_position-IsConsistent false (pos n) c v = leaves-IsConsistent c _ v refl refl refl refl refl

pub synchronize-IsConsistent :
    (succeeds : Bool) (c : Context) → IsConsistent c → IsConsistent (synchronize succeeds c).context
unfolding synchronize fail unchanged
synchronize-IsConsistent true c v = v
synchronize-IsConsistent false c v = leaves-IsConsistent c _ v refl refl refl refl refl

pub adopt_stream-IsConsistent :
    (o : Handover) (borrowed : Option ℕ) (c : Context)
    → IsConsistent c
    → IsConsistent (adopt_stream o borrowed c).context
unfolding adopt_stream unchanged
adopt_stream-IsConsistent o none c v = v
adopt_stream-IsConsistent o (some borrowed) c v =
    leaves-IsConsistent c (adopt_stream o (some borrowed) c).context v (ground arith) (ground arith)
      (ground arith) (ground arith) (ground arith)

pub begin_at-IsConsistent :
    (succeeds : Bool) (slot : Option ℕ) (c : Context)
    → IsConsistent c
    → IsConsistent (begin_at succeeds slot c).context
unfolding begin_at unchanged fail
begin_at-IsConsistent succeeds none c v = v
begin_at-IsConsistent succeeds (some slot) c v =
    leaves-IsConsistent c (begin_at succeeds (some slot) c).context v (ground arith) (ground arith)
      (ground arith) (ground arith) (ground arith)

pub launch_at-IsConsistent :
    (succeeds : Bool) (slot : Option ℕ) (c : Context)
    → IsConsistent c
    → IsConsistent (launch_at succeeds slot c).context
unfolding launch_at unchanged fail
launch_at-IsConsistent succeeds none c v = v
launch_at-IsConsistent succeeds (some slot) c v =
    leaves-IsConsistent c (launch_at succeeds (some slot) c).context v (ground arith) (ground arith)
      (ground arith) (ground arith) (ground arith)

pub end_at-IsConsistent :
    (o : Capture) (slot : Option ℕ) (c : Context)
    → IsConsistent c
    → IsConsistent (end_at o slot c).context
unfolding end_at unchanged fail
end_at-IsConsistent o none c v = v
end_at-IsConsistent o (some slot) c v = record {
  slots = λ k b. ground (arith, v.slots k b);
  streams = λ k b. ground (arith, v.streams k b);
  done = λ k b. ground (arith, v.done k b);
}

module _ (o : Creations) (c : Context) (v : IsConsistent c) where
  make-all :
      (k : ℕ)
      → ltb k 32 ≡ true
      → (make o c).all ≡ true
      → ((make o c).streams k ≡ true) × ((make o c).done k ≡ true)
  unfolding make
  make-all k b a =
      ground (arith, create_rows-all o k 32 0 c.topk_streams c.topk_done refl b (ground arith))

  pub prepare_rows-IsConsistent : IsConsistent (prepare_rows o c).context
  unfolding prepare_rows settle fail unchanged
  prepare_rows-IsConsistent = record {
    slots = λ k b. ground (arith, v.slots k b);
    streams = λ k b. ground (arith, v.streams k b, make-all k b);
    done = λ k b. ground (arith, v.done k b, make-all k b);
  }

-- A new context is consistent.
abbrev pub CreatedConsistent : Created → Type 0
CreatedConsistent (fails status) = Unit {0}
CreatedConsistent (creates c) = IsConsistent c

pub context_create-IsConsistent :
    (env : Env) (o : Creation) (device : ℤ) → CreatedConsistent (context_create env o device).1
unfolding context_create new_context
context_create-IsConsistent env o (negsuc device) = tt
context_create-IsConsistent env o (pos device) =
    let Consistent : List Event × Created → Type 0 = λ r. CreatedConsistent r.1 in
    if_rule Consistent (not o.has_handle) _ _ (λ _. tt)
      λ _.
        if_rule Consistent (not o.has_properties) _ _ (λ _. tt)
          λ _.
            if_rule Consistent
              (not (o.sets_device && is_present o.new_stream && o.has_start && o.has_stop)) _ _
              (λ _. tt)
              λ _.
                if_rule Consistent (not (o.has_position && o.clears_position && o.synchronizes)) _ _
                  (λ _. tt)
                  λ _. record { slots = λ k b. refl; streams = λ k b. refl; done = λ k b. refl }
