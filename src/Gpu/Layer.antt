-- ===== src/Gpu/Layer.antt =====
-- The layers of backend/cuda/fortai_cuda_backend.cu that keep a state on the device: how they are
-- created, with the sizes of their buffers, and destroyed. What the calls of CUDA return is a
-- parameter. A dimension that is not positive is 0, and no product of dimensions overflows an `int`.
pub mod AttentionLayer
pub mod RecurrentLayer
pub mod Reset
pub mod State
pub mod Life
pub mod Sizes
pub mod Tests
use fortai.Prelude.{
  ℕ, zero, suc, Bool, true, false, not, Option, none, some, List, [], ◌∷◌, ◌++◌, ◌==◌,
  if◌then◌else◌,
}
use fortai.Ledger
use fortai.Ledger.{acquired, released, on}
use fortai.Gpu.Context.{Status, ok, invalid, runtime_error, is_present}

-- the memory of the layer itself, and its buffers, numbered in the order in which they are freed
pub data Resource : Type 0 where
  handle : Resource
  buffer : ℕ → Resource

abbrev pub Event : Type 0
Event = Ledger.Event Resource

-- the bytes that each pointer has, none for NULL
abbrev pub Buffers : Type 0
Buffers = ℕ → Option ℕ

-- a call of `cudaMalloc` for a buffer, and one of `cudaMemcpyAsync` or `cudaMemsetAsync` that writes
-- so many bytes of it
pub data Call : Type 0 where
  allocate fill : ℕ → ℕ → Call

abbrev pub put : ℕ → Option ℕ → Buffers → Buffers
put k value buffers j = if j == k then value else buffers j

-- what a run of calls leaves: the events, the writes with the bytes that their buffer has, and the
-- buffers
pub record Run : Type 0 where
  pub events : List Event
  pub writes : List (Option ℕ × ℕ)
  pub buffers : Buffers
  pub succeeds : Bool

-- `if (error == cudaSuccess) error = ...` for each call; `succeeds` tells of each by its number
unfoldable pub run : (ℕ → Bool) → ℕ → List Call → Buffers → Run
run succeeds k [] buffers = record { events = []; writes = []; buffers = buffers; succeeds = true }
run succeeds k (allocate i bytes ∷ cs) buffers =
    let rest = run succeeds (suc k) cs (put i (some bytes) buffers) in
    if succeeds k
    then record rest { events = acquired (buffer i) ∷ rest.events }
    else record { events = []; writes = []; buffers = buffers; succeeds = false }
run succeeds k (fill i bytes ∷ cs) buffers =
    let rest = run succeeds (suc k) cs buffers in
    if succeeds k then record rest { writes = (buffers i, bytes) ∷ rest.writes } else record {
      events = [];
      writes = (buffers i, bytes) ∷ [];
      buffers = buffers;
      succeeds = false;
    }

-- `free_recurrent_device_buffers` and `free_attention_device_buffers`: `n` buffers from `i` on, where
-- `cudaFree` of NULL does nothing
unfoldable pub free_buffers : ℕ → ℕ → Buffers → List Event
free_buffers zero i buffers = []
free_buffers (suc n) i buffers =
    on (is_present (buffers i)) (released (buffer i)) ++ free_buffers n (suc i) buffers

abbrev pub no_buffers : Buffers
no_buffers i = none

-- what a creation leaves: a layer is its buffers
pub record Creation : Type 0 where
  pub events : List Event
  pub writes : List (Option ℕ × ℕ)
  pub layer : Option Buffers
  pub status : Status

-- Behind the guards: the memory of the layer, the calls, and what is freed if one of them fails.
unfoldable pub create : Bool → (ℕ → Bool) → ℕ → List Call → Creation
create has_handle succeeds count calls =
    let r = run succeeds 0 calls no_buffers in
    if not has_handle
    then (record { events = []; writes = []; layer = none; status = runtime_error })
    else if r.succeeds
    then (record {
      events = acquired handle ∷ r.events;
      writes = r.writes;
      layer = some r.buffers;
      status = ok;
    })
    else record {
      events =
          (acquired handle ∷ r.events)
          ++ (free_buffers count 0 r.buffers ++ (released handle ∷ []));
      writes = r.writes;
      layer = none;
      status = runtime_error;
    }

abbrev pub refuse : Creation
refuse = record { events = []; writes = []; layer = none; status = invalid }

-- `fortai_cuda_qwen35_recurrent_destroy` and `fortai_cuda_qwen35_attention_destroy`, also of NULL
unfoldable pub destroy : ℕ → Option Buffers → List Event
destroy count none = []
destroy count (some buffers) = free_buffers count 0 buffers ++ (released handle ∷ [])
