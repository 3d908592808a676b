-- ===== src/Gpu/Layer/RecurrentLayer.antt =====
-- The recurrent layers of backend/cuda/fortai_cuda_backend.cu: the guards of their creation and the
-- calls it makes.
use fortai.Prelude.{
  ℕ, ◌-◌, ◌*◌, ◌%◌, Bool, true, false, not, ◌&&◌, ◌||◌, List, [], ◌∷◌, ◌++◌, leb, ◌==◌,
  if◌then◌else◌,
}
use fortai.Gpu.Products.{Weights}
use fortai.Ledger.{acquired, released}
use fortai.Gpu.Layer.{handle, Call, allocate, fill, Creation, create, refuse}

-- the dimensions of a recurrent layer, the bytes of the arrays of the host, and whether the epsilon is
-- positive
pub record Recurrent : Type 0 where
  pub conv_size : ℕ
  pub conv_kernel : ℕ
  pub state_size : ℕ
  pub key_heads : ℕ
  pub value_heads : ℕ
  pub head_size : ℕ
  pub inner_size : ℕ
  pub conv_weight_bytes : ℕ
  pub ssm_a_bytes : ℕ
  pub ssm_dt_bytes : ℕ
  pub ssm_norm_bytes : ℕ
  pub positive_epsilon : Bool

abbrev pub has_shape : Recurrent → Bool
has_shape d =
    leb 1 d.conv_size
    && leb 2 d.conv_kernel
    && leb 1 d.state_size
    && leb 1 d.key_heads
    && leb 1 d.value_heads
    && leb 1 d.head_size
    && leb 1 d.inner_size
    && d.value_heads % d.key_heads == 0
    && d.value_heads * d.head_size == d.inner_size

abbrev pub has_arrays : Recurrent → Bool
has_arrays d =
    leb (d.conv_size * d.conv_kernel * 4) d.conv_weight_bytes
    && leb (d.value_heads * 4) d.ssm_a_bytes
    && leb (d.value_heads * 4) d.ssm_dt_bytes
    && leb (d.head_size * 4) d.ssm_norm_bytes

abbrev pub conv_bytes : Recurrent → ℕ
conv_bytes d = (d.conv_kernel - 1) * d.conv_size * 4

abbrev pub gdn_bytes : Recurrent → ℕ
gdn_bytes d = d.value_heads * d.head_size * d.head_size * 4

-- the buffers 0 to 9, which both creations have; `allocate_and_copy_float` is the first pair
abbrev pub state_calls : Recurrent → List Call
state_calls d =
    allocate 0 (d.conv_size * d.conv_kernel * 4)
    ∷ fill 0 (d.conv_size * d.conv_kernel * 4)
    ∷ allocate 1 (d.value_heads * 4)
    ∷ fill 1 (d.value_heads * 4)
    ∷ allocate 2 (d.value_heads * 4)
    ∷ fill 2 (d.value_heads * 4)
    ∷ allocate 3 (d.head_size * 4)
    ∷ fill 3 (d.head_size * 4)
    ∷ allocate 4 (conv_bytes d)
    ∷ allocate 5 (gdn_bytes d)
    ∷ allocate 6 (conv_bytes d)
    ∷ allocate 7 (gdn_bytes d)
    ∷ allocate 8 (conv_bytes d)
    ∷ allocate 9 (gdn_bytes d)
    ∷ []

-- the outputs of the products
abbrev pub output_calls : Recurrent → List Call
output_calls d =
    allocate 10 (d.conv_size * 4)
    ∷ allocate 11 (d.inner_size * 4)
    ∷ allocate 12 (d.value_heads * 4)
    ∷ allocate 13 (d.value_heads * 4)
    ∷ []

abbrev pub clear_calls : Recurrent → List Call
clear_calls d = allocate 14 (d.inner_size * 4) ∷ fill 4 (conv_bytes d) ∷ fill 5 (gdn_bytes d) ∷ []

abbrev pub are_ours : List Weights → Bool
are_ours [] = true
are_ours (w ∷ ws) = w.same_context && are_ours ws

-- `fortai_cuda_qwen35_recurrent_create`: `present` tells that no pointer is NULL, and the matrices
-- whether they are of the context of the call
unfoldable pub recurrent_create : Bool → (ℕ → Bool) → Bool → List Weights → Recurrent → Creation
recurrent_create has_handle succeeds present matrices d =
    if not present || not (has_shape d)
    then refuse
    else if not has_handle
    then create false succeeds 15 []
    else if not (are_ours matrices) || not (has_arrays d)
    then record refuse { events = acquired handle ∷ released handle ∷ [] }
    else create has_handle succeeds 15 (state_calls d ++ (output_calls d ++ clear_calls d))

-- `fortai_cuda_qwen35_recurrent_create_state`
unfoldable pub recurrent_create_state : Bool → (ℕ → Bool) → Bool → Recurrent → Creation
recurrent_create_state has_handle succeeds present d =
    if not present || not (has_shape d) || not d.positive_epsilon || not (has_arrays d)
    then refuse
    else create has_handle succeeds 15 (state_calls d ++ clear_calls d)
