-- ===== src/Gpu/Context/Graphs.antt =====
-- The captured graphs of a context in backend/cuda/fortai_cuda_backend.cu, one for each slot.
use fortai.Prelude.{
  ℕ, Bool, true, false, not, ◌||◌, Option, none, some, [], ◌∷◌, ◌++◌, if◌then◌else◌, ℤ, pos,
  index_below,
}
use fortai.Ledger.{acquired, used, released, on}
use fortai.Gpu.Context.{
  Context, Result, ok, invalid, unchanged, fail, begin_capture, end_capture, launch_graph, put,
  graph, exec,
}

unfoldable pub begin_at : Bool → Option ℕ → Context → Result
unfolding fail unchanged
begin_at begins none c = unchanged c invalid
begin_at begins (some slot) c =
    if c.graphs slot || c.graph_execs slot
    then unchanged c invalid
    else if begins
    then unchanged c ok
    else fail begin_capture [] c

-- `fortai_cuda_q8_context_capture_begin_slot`
unfoldable pub capture_begin_slot : Bool → ℤ → Context → Result
unfolding begin_at
capture_begin_slot begins slot c = begin_at begins (index_below 66 slot) c

-- what the calls of `fortai_cuda_q8_context_capture_end_slot` give: a capture that ends well writes
-- its graph to the slot, and one that does not writes NULL
pub record Capture : Type 0 where
  pub ends : Bool
  pub instantiates : Bool

unfoldable pub end_at : Capture → Option ℕ → Context → Result
unfolding fail unchanged
end_at o none c = unchanged c invalid
end_at o (some slot) c =
    if not o.ends
    then fail end_capture (on (c.graph_execs slot) (released (exec slot)))
        (record c { graphs = put slot false c.graphs; graph_execs = put slot false c.graph_execs })
    else if not o.instantiates
    then fail end_capture
        (acquired (graph slot)
          ∷ (on (c.graph_execs slot) (released (exec slot)) ++ (released (graph slot) ∷ [])))
        (record c { graphs = put slot false c.graphs; graph_execs = put slot false c.graph_execs })
    else record {
      events = acquired (graph slot) ∷ acquired (exec slot) ∷ [];
      context = record c {
        graphs = put slot true c.graphs;
        graph_execs = put slot true c.graph_execs;
      };
      status = ok;
    }

-- `fortai_cuda_q8_context_capture_end_slot`
unfoldable pub capture_end_slot : Capture → ℤ → Context → Result
unfolding end_at
capture_end_slot o slot c = end_at o (index_below 66 slot) c

unfoldable pub launch_at : Bool → Option ℕ → Context → Result
unfolding fail unchanged
launch_at launches none c = unchanged c invalid
launch_at launches (some slot) c =
    if not (c.graph_execs slot)
    then unchanged c invalid
    else if launches
    then (record { events = used (exec slot) ∷ []; context = c; status = ok })
    else fail launch_graph (used (exec slot) ∷ []) c

-- `fortai_cuda_q8_context_graph_launch_slot`
unfoldable pub graph_launch_slot : Bool → ℤ → Context → Result
unfolding launch_at
graph_launch_slot launches slot c = launch_at launches (index_below 66 slot) c

-- `fortai_cuda_q8_context_capture_begin`, `fortai_cuda_q8_context_capture_end`,
-- `fortai_cuda_q8_context_graph_launch`
abbrev pub capture_begin : Bool → Context → Result
capture_begin begins c = capture_begin_slot begins (pos 0) c

abbrev pub capture_end : Capture → Context → Result
capture_end o c = capture_end_slot o (pos 0) c

abbrev pub graph_launch : Bool → Context → Result
graph_launch launches c = graph_launch_slot launches (pos 0) c
