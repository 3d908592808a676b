-- ===== src/Gpu/Context.antt =====
-- A context of backend/cuda/fortai_cuda_backend.cu: its life, its stream, its captured graphs and the
-- streams and events of the top-k selection. What the calls of CUDA return is a parameter, true for
-- cudaSuccess. Each operation gives its events on the resources of CUDA: every creation and
-- destruction, and the uses of the position and of the executable graphs; the uses of the stream have
-- no events, since it may be borrowed (Context/Borrowed is about it). The scratch buffers are in
-- Gpu/Scratch.antt and have no events here.

pub mod Rows
pub mod Graphs
pub mod Owned
pub mod Destroyed
pub mod Kept
pub mod Prepared
pub mod Consistent
pub mod Life
pub mod Borrowed
pub mod Tests
use fortai.Prelude.{
  ℕ, zero, suc, ◌+◌, Bool, true, false, not, ◌&&◌, ◌||◌, Option, none, some, List, [], ◌∷◌, ◌++◌,
  leb, ◌==◌, if◌then◌else◌, ℤ, pos, negsuc, index_below,
}
use fortai.Libc.{Bytes, codes}
use fortai.Libc.Environment.{Env}
use fortai.Ledger
use fortai.Ledger.{acquired, used, released, on}

-- `handle` is the memory of the context itself, `stream` the stream that it creates. A slot has a
-- graph and its executable form, and a row of the top-k selection a stream and an event.
pub data Resource : Type 0 where
  handle stream start stop position ready : Resource
  graph exec row_stream row_done : ℕ → Resource

abbrev pub Event : Type 0
Event = Ledger.Event Resource

-- `FORTAI_CUDA_OK`, `FORTAI_CUDA_INVALID`, `FORTAI_CUDA_RUNTIME_ERROR`
pub data Status : Type 0 where
  ok invalid runtime_error : Status

-- the operation that the text of `fail` names
pub data Failure : Type 0 where
  set_device_position synchronize_context begin_capture end_capture launch_graph row_topk : Failure

-- The fields of `fortai_cuda_q8_context_impl` but its scratch buffers. Pointers are true where they
-- are not NULL. A stream is a number, none if it is NULL.
pub record Context : Type 0 where
  pub device : ℕ
  pub multiprocessor_count : ℕ
  pub mma_available : Bool
  pub stream_value : Option ℕ
  pub owns_stream : Bool
  pub position_value : ℕ
  pub graphs : ℕ → Bool
  pub graph_execs : ℕ → Bool
  pub topk_ready : Bool
  pub topk_streams : ℕ → Bool
  pub topk_done : ℕ → Bool
  pub error : Option Failure

-- what the calls of `fortai_cuda_q8_context_create` give
pub record Creation : Type 0 where
  pub has_handle : Bool
  pub has_properties : Bool
  pub major : ℕ
  pub processors : ℕ
  pub sets_device : Bool
  pub new_stream : Option ℕ
  pub has_start : Bool
  pub has_stop : Bool
  pub has_position : Bool
  pub clears_position : Bool
  pub synchronizes : Bool

pub data Created : Type 0 where
  fails : Status → Created
  creates : Context → Created

abbrev pub none_set : ℕ → Bool
none_set k = false

abbrev pub is_present : Option ℕ → Bool
is_present none = false
is_present (some value) = true

-- `disable_mma && disable_mma[0] == '0'`
abbrev pub is_disabled : Option Bytes → Bool
is_disabled none = false
is_disabled (some []) = false
is_disabled (some (c ∷ cs)) = c == b'0'

pub new_context : Env → Creation → ℕ → Context
new_context env o device = record {
  device = device;
  multiprocessor_count = o.processors;
  mma_available = leb 8 o.major && not (is_disabled (env (codes "FORTAI_CUDA_MMA")));
  stream_value = o.new_stream;
  owns_stream = true;
  position_value = 0;
  graphs = none_set;
  graph_execs = none_set;
  topk_ready = false;
  topk_streams = none_set;
  topk_done = none_set;
  error = none;
}

-- what is created of the stream and the two events, each only after the one before
stream_events : Creation → List Event
stream_events o =
    on (o.sets_device && is_present o.new_stream) (acquired stream)
    ++ on (o.sets_device && is_present o.new_stream && o.has_start) (acquired start)
    ++ on (o.sets_device && is_present o.new_stream && o.has_start && o.has_stop) (acquired stop)

-- and is destroyed when one of them fails
abandon_events : Creation → List Event
abandon_events o =
    on (o.sets_device && is_present o.new_stream) (released stream)
    ++ on (o.sets_device && is_present o.new_stream && o.has_start) (released start)
    ++ (released handle ∷ [])

-- `fortai_cuda_q8_context_create` with a `context` that is not NULL
unfoldable pub context_create : Env → Creation → ℤ → List Event × Created
unfolding new_context stream_events abandon_events
context_create env o (negsuc device) = ([], fails invalid)
context_create env o (pos device) =
    if not o.has_handle
    then ([], fails runtime_error)
    else if not o.has_properties
    then (acquired handle ∷ (released handle ∷ []), fails runtime_error)
    else if not (o.sets_device && is_present o.new_stream && o.has_start && o.has_stop)
    then ((acquired handle ∷ stream_events o) ++ abandon_events o, fails runtime_error)
    else if not (o.has_position && o.clears_position && o.synchronizes)
    then (
      acquired handle
          ∷ acquired stream
          ∷ acquired start
          ∷ acquired stop
          ∷ (on o.has_position (acquired position)
              ++ (on o.has_position (released position)
                  ++ (released start ∷ released stop ∷ released stream ∷ released handle ∷ []))),
      fails runtime_error,
    )
    else (
      acquired handle ∷ acquired stream ∷ acquired start ∷ acquired stop ∷ acquired position ∷ [],
      creates (new_context env o device),
    )

-- the loop of `fortai_cuda_q8_context_destroy` over the slots, `n` of them from `slot` on
unfoldable pub destroy_slots : ℕ → ℕ → Context → List Event
destroy_slots zero slot c = []
destroy_slots (suc n) slot c =
    on (c.graph_execs slot) (released (exec slot))
    ++ (on (c.graphs slot) (released (graph slot)) ++ destroy_slots n (suc slot) c)

-- and the one over the rows, also in `fortai_cuda_qwen35_topk_rows_device`
unfoldable pub destroy_rows : ℕ → ℕ → (ℕ → Bool) → (ℕ → Bool) → List Event
destroy_rows zero row streams done = []
destroy_rows (suc n) row streams done =
    on (done row) (released (row_done row))
    ++ (on (streams row) (released (row_stream row)) ++ destroy_rows n (suc row) streams done)

-- `fortai_cuda_q8_context_destroy`, which returns FORTAI_CUDA_OK
unfoldable pub context_destroy : Context → List Event
context_destroy c =
    destroy_slots 66 0 c
    ++ ((released position ∷ [])
        ++ (destroy_rows 32 0 c.topk_streams c.topk_done
            ++ (on c.topk_ready (released ready)
                ++ (released start
                    ∷ released stop
                    ∷ (on (c.owns_stream && is_present c.stream_value) (released stream)
                        ++ (released handle ∷ []))))))

pub record Result : Type 0 where
  pub events : List Event
  pub context : Context
  pub status : Status

unfoldable pub unchanged : Context → Status → Result
unchanged c status = record { events = []; context = c; status = status }

-- `fail`
unfoldable pub fail : Failure → List Event → Context → Result
fail f es c = record { events = es; context = record c { error = some f }; status = runtime_error }

-- `fortai_cuda_q8_context_set_position`
unfoldable pub set_position : Bool → ℤ → Context → Result
unfolding fail unchanged
set_position copies (negsuc n) c = unchanged c invalid
set_position copies (pos n) c =
    if copies
    then (record {
      events = used position ∷ [];
      context = record c { position_value = n };
      status = ok;
    })
    else fail set_device_position (used position ∷ []) c

-- `fortai_cuda_q8_context_synchronize`
unfoldable pub synchronize : Bool → Context → Result
unfolding fail unchanged
synchronize succeeds c = if succeeds then unchanged c ok else fail synchronize_context [] c

-- what the calls of `fortai_cuda_q8_context_adopt_stream` give
pub record Handover : Type 0 where
  pub sets_device : Bool
  pub synchronizes : Bool
  pub destroys : Bool

abbrev pub same_stream : ℕ → Option ℕ → Bool
same_stream borrowed none = false
same_stream borrowed (some value) = borrowed == value

-- `fortai_cuda_q8_context_adopt_stream`, none for a NULL stream
unfoldable pub adopt_stream : Handover → Option ℕ → Context → Result
unfolding unchanged
adopt_stream o none c = unchanged c invalid
adopt_stream o (some borrowed) c =
    if same_stream borrowed c.stream_value
    then unchanged c ok
    else if not o.sets_device || (is_present c.stream_value && not o.synchronizes)
    then unchanged c runtime_error
    else if c.owns_stream && is_present c.stream_value && not o.destroys
    then unchanged c runtime_error
    else record {
      events = on (c.owns_stream && is_present c.stream_value) (released stream);
      context = record c { stream_value = some borrowed; owns_stream = false };
      status = ok;
    }

-- the pointers with one of them changed
abbrev pub put : ℕ → Bool → (ℕ → Bool) → ℕ → Bool
put k value pointers j = if j == k then value else pointers j
