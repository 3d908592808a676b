-- ===== src/Gpu/Kernel/Launch.antt =====
-- Launches of kernels in backend/cuda/fortai_cuda_backend.cu, and the kernels that give each
-- element of an array a new value.
use fortai.Prelude.{
  ℕ, ◌+◌, ◌-◌, ◌/◌, ◌%◌, ◌*◌, ◌≡◌, ◌≤◌, ◌<◌, not, refl, ap, Bool, true, false, ◌&&◌, List, ltb,
  ◌==◌, if◌then◌else◌, arith,
}
use mathlib.Core.Path.{fun_ext}
use fortai.Gpu.Context.{Status, ok, runtime_error}
use fortai.Gpu.Kernel.{run, IsSchedule, IsLocal, run_lem}

-- `(elements + 255) / 256` in `int`, as the number of blocks that CUDA is given: a sum that wraps is
-- negative, and so is its quotient, which is huge without its sign
unfoldable pub int_grid : ℕ → ℕ
int_grid elements =
    let sum = elements + 255 in
    if ltb sum 2147483648 then sum / 256 else 4294967296 - (4294967296 - sum) / 256

-- `static_cast<unsigned>((elements + 255) / 256)`
abbrev pub unsigned_grid : ℕ → ℕ
unsigned_grid elements = (elements + 255) / 256 % 4294967296

-- the order in which the threads of a launch run, and whether it has no other error
pub record Launch : Type 0 where
  pub order : List ℕ
  pub succeeds : Bool

-- A grid has at least one block, and at most 2^31 - 1.
abbrev pub is_grid : ℕ → Bool
is_grid blocks = ltb 0 blocks && ltb blocks 2147483648

module _ {C V : Type 0} where
  -- a launch and `cudaGetLastError`
  unfoldable pub start : Launch → ℕ → (ℕ → (C → V) → C → V) → (C → V) → Status × (C → V)
  start launch blocks body memory =
      if is_grid blocks && launch.succeeds
      then (ok, run body launch.order memory)
      else (runtime_error, memory)

module _ {C V : Type 0} (body : ℕ → (C → V) → C → V) (launch : Launch) (blocks : ℕ) where
  -- A launch with a grid in range, and no other error, runs its threads.
  pub start_lem :
      (result memory : C → V)
      → launch.succeeds ≡ true
      → is_grid blocks ≡ true
      → ((c : C) → run body launch.order memory c ≡ result c)
      → start launch blocks body memory ≡ (ok, result)
  unfolding start
  start_lem result memory l g same = rw (l, g) (ap (λ m. (ok, m)) (fun_ext same))

-- `if (index < elements) output[index] = value;`, where the value may depend on what the output has
-- there. Fewer than 2^31 threads run, so `index` is the number of the thread.
unfoldable pub pointwise : {V : Type 0} → ℕ → (ℕ → V → V) → ℕ → (ℕ → V) → ℕ → V
pointwise elements value t output i =
    if ltb t elements && i == t then value t (output t) else output i

module _ {V : Type 0} (elements : ℕ) (value : ℕ → V → V) where
  pointwise-IsLocal : IsLocal (λ i. i) (pointwise elements value)
  unfolding pointwise
  pointwise-IsLocal = record {
    elsewhere = λ t m c e. ground arith;
    own = λ t m m' same c e. ground (arith, same c e, same t refl);
  }

  -- the array with each element below `elements` replaced
  abbrev pub replaced : (ℕ → V) → ℕ → V
  replaced output i = if ltb i elements then value i (output i) else output i

  pointwise_at :
      (n : ℕ) (order : List ℕ) (output : ℕ → V) (i : ℕ)
      → ltb i elements && not (ltb i n) ≡ false
      → IsSchedule n order
      → run (pointwise elements value) order output i ≡ replaced output i
  unfolding pointwise
  pointwise_at n order output i e s = ground (arith, run_lem pointwise-IsLocal i n order output s)

  -- A launch with enough threads replaces them all, whatever the order.
  pub start-pointwise :
      (launch : Launch) (blocks : ℕ) (output : ℕ → V)
      → launch.succeeds ≡ true
      → is_grid blocks ≡ true
      → elements ≤ blocks * 256
      → IsSchedule (blocks * 256) launch.order
      → start launch blocks (pointwise elements value) output ≡ (ok, replaced output)
  start-pointwise launch blocks output l g enough s =
      start_lem (pointwise elements value) launch blocks (replaced output) output l g
        λ i. pointwise_at (blocks * 256) launch.order output i (ground arith) s

pub int_grid_lem :
    (elements : ℕ)
    → 0 < elements
    → elements + 255 < 2147483648
    → (is_grid (int_grid elements) ≡ true) × (elements ≤ int_grid elements * 256)
unfolding int_grid
int_grid_lem elements p b = ground arith
