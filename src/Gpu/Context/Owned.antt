-- ===== src/Gpu/Context/Owned.antt =====
-- What a context owns, and when two resources are the same one.
use fortai.Prelude.{Bool, true, false, ◌&&◌, ltb, ◌==◌}
use fortai.Gpu.Context.{
  Context, Resource, handle, stream, start, stop, position, ready, graph, exec, row_stream,
  row_done, is_present,
}

abbrev pub same : Resource → Resource → Bool
same handle handle = true
same stream stream = true
same start start = true
same stop stop = true
same position position = true
same ready ready = true
same (graph j) (graph k) = j == k
same (exec j) (exec k) = j == k
same (row_stream j) (row_stream k) = j == k
same (row_done j) (row_done k) = j == k
same r s = false

-- The pointers that are not NULL; of the arrays, in the places that they have.
abbrev pub owned : Context → Resource → Bool
owned c handle = true
owned c stream = c.owns_stream && is_present c.stream_value
owned c start = true
owned c stop = true
owned c position = true
owned c ready = c.topk_ready
owned c (graph k) = ltb k 66 && c.graphs k
owned c (exec k) = ltb k 66 && c.graph_execs k
owned c (row_stream k) = ltb k 32 && c.topk_streams k
owned c (row_done k) = ltb k 32 && c.topk_done k
