-- ===== src/Gpu/Products.antt =====
-- The Q8 products of backend/cuda/fortai_cuda_backend.cu: their guards, the scratch buffers they
-- reserve and the work they queue. What the calls of CUDA return is a parameter. Sizes in bytes are
-- of arrays that exist, so no `size_t` wraps.
pub mod Reserved
pub mod Fits
pub mod Calls
pub mod Many
pub mod Several
pub mod Errors
pub mod Tests
pub mod Bounds
use fortai.Prelude.{
  ℕ, zero, suc, ◌+◌, ◌*◌, Bool, true, false, not, ◌&&◌, ◌||◌, Option, none, some, List, [], ◌∷◌,
  ◌++◌, ltb, leb, ◌==◌, if◌then◌else◌,
}
use fortai.Gpu.Context.{Status, ok, invalid, runtime_error}
use fortai.Gpu.Scratch.{Outcome, Scratch, ensure_host_matvec, ensure_device_matvec, ensure_aux}
use fortai.Gpu.Access.{
  Place, raw, activation, output, aux, input, matrix, target, at, Work, copy, event, Step, check,
  ignore, chain,
}
use fortai.Gpu.Access.Kernels.{launch_q8, launch_quantize, launch_repack, launch_silu_product}

-- `fortai_cuda_q8_weights_impl`, whether its context is the one of the call, and whether
-- `device_data` is not NULL
pub record Weights : Type 0 where
  pub same_context : Bool
  pub has_data : Bool
  pub rows : ℕ
  pub blocks : ℕ

-- what a call leaves: the scratch buffers, the work it has queued, and its result
pub record Queued : Type 0 where
  pub scratch : Scratch
  pub work : List Work
  pub status : Status

pub refuse : Scratch → Queued
refuse s = record { scratch = s; work = []; status = invalid }

-- the scratch is reserved and the steps are queued, each while there is no error
unfoldable pub queue : (ℕ → Bool) → Scratch × Bool → List Step → Queued
queue succeeds reserved steps =
    let r = chain succeeds 0 steps in
    if reserved.1
    then (record { scratch = reserved.0; work = r.0; status = if r.1 then ok else runtime_error })
    else record { scratch = reserved.0; work = []; status = runtime_error }

-- what the calls that reserve scratch give
pub record Reserves : Type 0 where
  pub for_raw : Outcome
  pub for_activation : Outcome
  pub for_output : Outcome
  pub for_aux : Outcome

abbrev pub max : ℕ → ℕ → ℕ
max a b = if ltb a b then b else a

-- `ensure_host_matvec_scratch`
abbrev pub reserve_host : Reserves → Scratch → ℕ → ℕ → Scratch × Bool
reserve_host o s activation_bytes output_bytes =
    ensure_host_matvec o.for_raw o.for_activation o.for_output s activation_bytes output_bytes

abbrev pub resident_steps : Weights → List Step
resident_steps w =
    check (copy (at input 0 (w.blocks * 34)) raw 0)
    ∷ check (launch_repack w.blocks)
    ∷ check event
    ∷ check (launch_q8 (matrix 0) activation (target 0) 0 w.rows w.blocks)
    ∷ check event
    ∷ check event
    ∷ check event
    ∷ []

-- `fortai_cuda_q8_matvec_resident`; `present` tells that no pointer is NULL, here and below
unfoldable pub matvec_resident : Reserves → (ℕ → Bool) → Scratch → Bool → Weights → Queued
unfolding refuse
matvec_resident o succeeds s present w =
    if not present || not w.same_context
    then refuse s
    else queue succeeds (reserve_host o s (w.blocks * 34) (w.rows * 4)) (resident_steps w)

abbrev pub device_steps : Weights → List Step
device_steps w =
    check (launch_quantize input activation w.blocks)
    ∷ check (launch_q8 (matrix 0) activation (target 0) 0 w.rows w.blocks)
    ∷ []

-- `fortai_cuda_q8_matvec_device_f32`
unfoldable pub matvec_device_f32 : Reserves → (ℕ → Bool) → Scratch → Bool → Weights → ℕ → ℕ → Queued
unfolding refuse
matvec_device_f32 o succeeds s present w activation_elements output_elements =
    if not present
      || not w.same_context
      || not (activation_elements == w.blocks * 32)
      || ltb output_elements w.rows
    then refuse s
    else queue succeeds (ensure_device_matvec o.for_activation s activation_elements)
        (device_steps w)

abbrev pub pair_steps : Weights → Weights → List Step
pair_steps v w =
    check (launch_quantize input activation v.blocks)
    ∷ ignore (launch_q8 (matrix 0) activation (target 0) 0 v.rows v.blocks)
    ∷ check (launch_q8 (matrix 1) activation (target 1) 0 w.rows w.blocks)
    ∷ []

-- `fortai_cuda_q8_matvec_device_f32_pair`: the second launch is followed by the only look at errors
unfoldable pub matvec_device_f32_pair :
    Reserves → (ℕ → Bool) → Scratch → Bool → Weights → Weights → ℕ → ℕ → ℕ → Queued
unfolding refuse
matvec_device_f32_pair o succeeds s present v w activation_elements first_elements second_elements =
    if not present
      || not v.same_context
      || not w.same_context
      || not (activation_elements == v.blocks * 32)
      || not (v.blocks == w.blocks)
      || ltb first_elements v.rows
      || ltb second_elements w.rows
    then refuse s
    else queue succeeds (ensure_device_matvec o.for_activation s activation_elements)
        (pair_steps v w)

-- `validate_weights`, true for FORTAI_CUDA_OK, with pointers that are not NULL
abbrev pub are_valid : Weights → ℕ → ℕ → Bool
are_valid w activation_bytes output_bytes =
    w.has_data && leb (w.blocks * 34) activation_bytes && leb (w.rows * 4) output_bytes

abbrev pub host_steps : Weights → List Step
host_steps w =
    check event
    ∷ check (copy (at input 0 (w.blocks * 34)) raw 0)
    ∷ check (launch_repack w.blocks)
    ∷ check (launch_q8 (matrix 0) activation output 0 w.rows w.blocks)
    ∷ check (copy (at output 0 (w.rows * 4)) (target 0) 0)
    ∷ check event
    ∷ check event
    ∷ check event
    ∷ []

-- `fortai_cuda_q8_matvec_host`
unfoldable pub matvec_host : Reserves → (ℕ → Bool) → Scratch → Bool → Weights → ℕ → ℕ → Queued
unfolding refuse
matvec_host o succeeds s present w activation_bytes output_bytes =
    if not present || not w.same_context || not (are_valid w activation_bytes output_bytes)
    then refuse s
    else queue succeeds (reserve_host o s (w.blocks * 34) (w.rows * 4)) (host_steps w)

-- the conditions that the two functions of the FFN share
abbrev pub are_ffn : Weights → Weights → Weights → Bool
are_ffn gate up down =
    gate.same_context
    && up.same_context
    && down.same_context
    && gate.blocks == up.blocks
    && gate.rows == up.rows
    && gate.rows == down.blocks * 32
    && gate.has_data
    && up.has_data
    && down.has_data

-- the scratch of both: that of a product, and for wide matrices the auxiliary buffer
unfoldable pub reserve_ffn : Reserves → Scratch → Weights → Weights → Scratch × Bool
reserve_ffn o s gate down =
    let host =
      reserve_host o s (max (gate.blocks * 34) (down.blocks * 34))
        (max (gate.rows * 4) (down.rows * 4)) in
    if host.1 && leb 128 gate.blocks then ensure_aux o.for_aux host.0 (gate.rows * 4) else host

abbrev pub ffn_host_steps : Weights → Weights → Weights → List Step
ffn_host_steps gate up down =
    check event
    ∷ check (copy (at input 0 (gate.blocks * 34)) raw 0)
    ∷ check (launch_repack gate.blocks)
    ∷ check (launch_silu_product activation output gate.rows gate.blocks)
    ∷ check (launch_quantize output activation down.blocks)
    ∷ check (launch_q8 (matrix 2) activation output 0 down.rows down.blocks)
    ∷ check (copy (at output 0 (down.rows * 4)) (target 0) 0)
    ∷ check event
    ∷ check event
    ∷ check event
    ∷ []

-- `fortai_cuda_q8_ffn_host`
unfoldable pub ffn_host :
    Reserves → (ℕ → Bool) → Scratch → Bool → Weights → Weights → Weights → ℕ → ℕ → Queued
unfolding refuse
ffn_host o succeeds s present gate up down activation_bytes output_bytes =
    if not present
      || not (are_ffn gate up down)
      || ltb activation_bytes (gate.blocks * 34)
      || ltb output_bytes (down.rows * 4)
    then refuse s
    else queue succeeds (reserve_ffn o s gate down) (ffn_host_steps gate up down)

abbrev pub ffn_device_steps : Weights → Weights → Weights → List Step
ffn_device_steps gate up down =
    check (launch_quantize input activation gate.blocks)
    ∷ check (launch_silu_product activation output gate.rows gate.blocks)
    ∷ check (launch_quantize output activation down.blocks)
    ∷ check (launch_q8 (matrix 2) activation (target 0) 0 down.rows down.blocks)
    ∷ []

-- `fortai_cuda_q8_ffn_device`
unfoldable pub ffn_device :
    Reserves → (ℕ → Bool) → Scratch → Bool → Weights → Weights → Weights → ℕ → ℕ → Queued
unfolding refuse
ffn_device o succeeds s present gate up down activation_elements output_elements =
    if not present
      || not (are_ffn gate up down)
      || not (activation_elements == gate.blocks * 32)
      || ltb output_elements down.rows
    then refuse s
    else queue succeeds (reserve_ffn o s gate down) (ffn_device_steps gate up down)
