-- ===== src/Gpu/Kernel/Arrays.antt =====
-- The element by element operations of backend/cuda/fortai_cuda_backend.cu on arrays of the device:
-- guards, grid and kernel of each.
use fortai.Prelude.{ℕ, ◌+◌, ◌*◌, Bool, not, ◌||◌, ltb, ◌==◌, if◌then◌else◌, ℤ, pos, negsuc}
use fortai.Gpu.Context.{Status, invalid}
use fortai.Gpu.Kernel.Launch.{Launch, start, pointwise, int_grid, unsigned_grid}

-- the arithmetic of `float` that the kernels use
pub record Floats (V : Type 0) : Type 0 where
  pub add : V → V → V
  pub multiply : V → V → V
  pub divide : V → V → V
  pub negate : V → V
  pub exp : V → V
  pub one : V

-- an array that is read: one apart, or the output itself
pub data Source (V : Type 0) : Type 0 where
  apart : (ℕ → V) → Source V
  output : Source V

abbrev pub read : {V : Type 0} → Source V → ℕ → V → V
read (apart values) t own = values t
read output t own = own

module _ {V : Type 0} (floats : Floats V) where
  -- `qwen_silu`
  abbrev pub silu : V → V
  silu x = floats.divide x (floats.add floats.one (floats.exp (floats.negate x)))

  -- the kernels `qwen_add_float` and `qwen_add_matrix`
  abbrev pub add_float : Source V → Source V → ℕ → ℕ → (ℕ → V) → ℕ → V
  add_float left right elements =
      pointwise elements (λ t own. floats.add (read left t own) (read right t own))

  -- the kernels `qwen_silu_product` and `qwen_silu_product_matrix`
  abbrev pub silu_product : Source V → ℕ → ℕ → (ℕ → V) → ℕ → V
  silu_product up elements =
      pointwise elements (λ t own. floats.multiply (silu own) (read up t own))

  -- `fortai_cuda_qwen35_add_device` and `fortai_cuda_qwen35_add_matrix_device`; `present` tells that
  -- no pointer is NULL
  unfoldable pub add_device : Launch → Bool → Source V → Source V → ℕ → (ℕ → V) → Status × (ℕ → V)
  add_device launch present left right elements out =
      if not present || elements == 0 || ltb 2147483647 elements
      then (invalid, out)
      else start launch (int_grid elements) (add_float left right elements) out

  -- `fortai_cuda_qwen35_silu_product_device` and
  -- `fortai_cuda_qwen35_silu_product_matrix_device`, where the gate is the output
  unfoldable pub silu_product_device : Launch → Bool → Source V → ℕ → (ℕ → V) → Status × (ℕ → V)
  silu_product_device launch present up elements gate =
      if not present || elements == 0 || ltb 2147483647 elements
      then (invalid, gate)
      else start launch (int_grid elements) (silu_product up elements) gate

-- the kernel `qwen_copy_column`
abbrev pub copy_column : {V : Type 0} → (ℕ → V) → ℕ → ℕ → ℕ → ℕ → (ℕ → V) → ℕ → V
copy_column input stride column elements = pointwise elements (λ t own. input (column * stride + t))

copy_column_at : {V : Type 0} → Launch → Bool → (ℕ → V) → ℕ → ℤ → ℕ → (ℕ → V) → Status × (ℕ → V)
copy_column_at launch present input stride (negsuc column) elements out = (invalid, out)
copy_column_at launch present input stride (pos column) elements out =
    if not present || stride == 0 || elements == 0 || ltb stride elements || ltb 2147483647 stride
    then (invalid, out)
    else start launch (int_grid elements) (copy_column input stride column elements) out

-- `fortai_cuda_qwen35_copy_column_device`
unfoldable pub copy_column_device :
    {V : Type 0} → Launch → Bool → (ℕ → V) → ℕ → ℤ → ℕ → (ℕ → V) → Status × (ℕ → V)
unfolding copy_column_at
copy_column_device launch present input stride column elements out =
    copy_column_at launch present input stride column elements out

-- the kernel `qwen_concat_float`
unfoldable pub concat_float : {V : Type 0} → (ℕ → V) → (ℕ → V) → ℕ → ℕ → (ℕ → V) → ℕ → V
concat_float first second elements t out i =
    if not (ltb t elements)
    then out i
    else if i == elements + t
    then second t
    else if i == t
    then first t
    else out i

-- `fortai_cuda_qwen35_concat_device`
unfoldable pub concat_device :
    {V : Type 0} → Launch → Bool → (ℕ → V) → (ℕ → V) → ℕ → (ℕ → V) → Status × (ℕ → V)
concat_device launch present first second elements out =
    if not present || elements == 0
    then (invalid, out)
    else start launch (unsigned_grid elements) (concat_float first second elements) out
