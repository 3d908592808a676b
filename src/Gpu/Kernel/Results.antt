-- ===== src/Gpu/Kernel/Results.antt =====
-- What the element by element operations of backend/cuda/fortai_cuda_backend.cu leave in the output.
use fortai.Prelude.{
  ℕ, ◌+◌, ◌-◌, ◌*◌, ◌≡◌, ◌≤◌, ◌<◌, ◌⊎◌, Bool, true, List, ltb, if◌then◌else◌, arith, pos,
}
use fortai.Gpu.Context.{Status, ok, runtime_error}
use fortai.Gpu.Kernel.{run, IsSchedule, IsLocal, run_lem}
use fortai.Gpu.Kernel.Launch.{
  Launch, start, start_lem, start-pointwise, is_grid, int_grid, int_grid_lem, unsigned_grid,
}
use fortai.Gpu.Kernel.Arrays.{
  Floats, Source, read, silu, add_device, silu_product_device, copy_column_device, concat_float,
  concat_device,
}

-- one of the operations, with its arguments
pub data Operation (V : Type 0) : Type 0 where
  add : Source V → Source V → ℕ → Operation V
  gate : Source V → ℕ → Operation V
  column : (ℕ → V) → ℕ → ℕ → ℕ → Operation V
  concat : (ℕ → V) → (ℕ → V) → ℕ → Operation V

-- the call, where no pointer is NULL
abbrev pub call : {V : Type 0} → Floats V → Launch → Operation V → (ℕ → V) → Status × (ℕ → V)
call floats launch (add left right elements) out =
    add_device floats launch true left right elements out
call floats launch (gate up elements) out = silu_product_device floats launch true up elements out
call floats launch (column input stride k elements) out =
    copy_column_device launch true input stride (pos k) elements out
call floats launch (concat first second elements) out =
    concat_device launch true first second elements out

-- What the output is to be: a sum, the gated product, a column of a matrix, or two arrays one after
-- the other; behind that it stays as it is.
abbrev pub result : {V : Type 0} → Floats V → Operation V → (ℕ → V) → ℕ → V
result floats (add left right elements) out i =
    if ltb i elements then floats.add (read left i (out i)) (read right i (out i)) else out i
result floats (gate up elements) out i =
    if ltb i elements then floats.multiply (silu floats (out i)) (read up i (out i)) else out i
result floats (column input stride k elements) out i =
    if ltb i elements then input (k * stride + i) else out i
result floats (concat first second elements) out i =
    if ltb i elements
    then first i
    else if ltb i (elements + elements)
    then second (i - elements)
    else out i

-- the sizes for which the number of threads does not wrap
abbrev pub IsInRange : {V : Type 0} → Operation V → Type 0
IsInRange (add left right elements) = (0 < elements) × (elements + 255 < 2147483648)
IsInRange (gate up elements) = (0 < elements) × (elements + 255 < 2147483648)
IsInRange (column input stride k elements) =
    (0 < elements) × (elements ≤ stride) × (stride + 255 < 2147483648)
IsInRange (concat first second elements) = (0 < elements) × (elements + 255 < 549755813888)

-- the number of threads that are started
abbrev pub threads : {V : Type 0} → Operation V → ℕ
threads (add left right elements) = int_grid elements * 256
threads (gate up elements) = int_grid elements * 256
threads (column input stride k elements) = int_grid elements * 256
threads (concat first second elements) = unsigned_grid elements * 256

-- the thread that writes an element of the two arrays
abbrev half_owner : ℕ → ℕ → ℕ
half_owner elements i = if ltb i elements then i else i - elements

concat_float-IsLocal :
    {V : Type 0} (first second : ℕ → V) (elements : ℕ)
    → IsLocal (half_owner elements) (concat_float first second elements)
unfolding concat_float
concat_float-IsLocal first second elements = record {
  elsewhere = λ t m c e. ground arith;
  own = λ t m m' same c e. ground (arith, same c e);
}

concat_at :
    {V : Type 0} (first second out : ℕ → V) (elements n : ℕ) (order : List ℕ) (i : ℕ)
    → elements ≤ n
    → IsSchedule n order
    → run (concat_float first second elements) order out i ≡ (
        if ltb i elements
        then first i
        else if ltb i (elements + elements)
        then second (i - elements)
        else out i)
unfolding concat_float
concat_at first second out elements n order i enough s =
    ground (arith, run_lem (concat_float-IsLocal first second elements) i n order out s)

unsigned_grid_lem :
    (elements : ℕ)
    → 0 < elements
    → elements + 255 < 549755813888
    → (is_grid (unsigned_grid elements) ≡ true) × (elements ≤ unsigned_grid elements * 256)
unsigned_grid_lem elements p b = ground arith

-- A call with pointers that are not NULL and sizes in range, whose launch succeeds: it returns
-- FORTAI_CUDA_OK, and the output is what it is to be, in whatever order the threads run, and also
-- where an input of a sum or a product is the output itself.
pub call-result :
    {V : Type 0} (floats : Floats V) (launch : Launch) (op : Operation V) (out : ℕ → V)
    → launch.succeeds ≡ true
    → IsInRange op
    → IsSchedule (threads op) launch.order
    → call floats launch op out ≡ (ok, result floats op out)
unfolding add_device silu_product_device copy_column_device concat_device
call-result floats launch (add left right elements) out l r s =
    let (grid, enough) = int_grid_lem elements r.0 r.1 in
    ground (
      arith,
      start-pointwise elements (λ t own. floats.add (read left t own) (read right t own)) launch
          (int_grid elements) out l grid enough s,
    )
call-result floats launch (gate up elements) out l r s =
    let (grid, enough) = int_grid_lem elements r.0 r.1 in
    ground (
      arith,
      start-pointwise elements (λ t own. floats.multiply (silu floats own) (read up t own)) launch
          (int_grid elements) out l grid enough s,
    )
call-result floats launch (column input stride k elements) out l r s =
    let (grid, enough) = int_grid_lem elements (omega (arith, r.0)) (omega (arith, r.1, r.2)) in
    ground (
      arith,
      start-pointwise elements (λ t own. input (k * stride + t)) launch (int_grid elements) out l
          grid enough s,
    )
call-result floats launch (concat first second elements) out l r s =
    let (grid, enough) = unsigned_grid_lem elements r.0 r.1 in
    ground (
      arith,
      start_lem (concat_float first second elements) launch (unsigned_grid elements)
          (result floats (concat first second elements) out) out l grid
          λ (i : ℕ).
            concat_at first second out elements (unsigned_grid elements * 256) launch.order i enough
              s,
    )

-- the call, whatever the pointers are
abbrev pub any_call :
    {V : Type 0} → Floats V → Launch → Bool → Operation V → (ℕ → V) → Status × (ℕ → V)
any_call floats launch present (add left right elements) out =
    add_device floats launch present left right elements out
any_call floats launch present (gate up elements) out =
    silu_product_device floats launch present up elements out
any_call floats launch present (column input stride k elements) out =
    copy_column_device launch present input stride (pos k) elements out
any_call floats launch present (concat first second elements) out =
    concat_device launch present first second elements out

-- A call that does not return FORTAI_CUDA_OK leaves the output as it was.
pub any_call-unchanged :
    {V : Type 0} (floats : Floats V) (launch : Launch) (present : Bool) (op : Operation V)
    (out : ℕ → V)
    → ((any_call floats launch present op out).0 ≡ ok)
      ⊎ ((any_call floats launch present op out).1 ≡ out)
unfolding add_device silu_product_device copy_column_device concat_device start
any_call-unchanged floats launch present (add left right elements) out = ground arith
any_call-unchanged floats launch present (gate up elements) out = ground arith
any_call-unchanged floats launch present (column input stride k elements) out = ground arith
any_call-unchanged floats launch present (concat first second elements) out = ground arith

-- The guard of a sum lets sizes up to 2^31 - 1 through. For the last 255 of them the number of blocks
-- wraps, and the launch is refused.
wrapped-add_device :
    {V : Type 0} (floats : Floats V) (launch : Launch) (left right : Source V) (elements : ℕ)
    (out : ℕ → V)
    → 2147483393 ≤ elements
    → elements ≤ 2147483647
    → add_device floats launch true left right elements out ≡ (runtime_error, out)
unfolding add_device start int_grid
wrapped-add_device floats launch left right elements out low high = ground arith
