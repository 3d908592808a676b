-- ===== src/Gpu/Kernel/Columns.antt =====
-- The operations of backend/cuda/fortai_cuda_backend.cu on matrices with a column for each token: two
-- of them joined, and the hidden states of the target shifted by one token.
use fortai.Prelude.{
  ℕ, zero, suc, Bool-cases, inl, inr, ◌+◌, ◌-◌, ◌/◌, ◌%◌, ◌*◌, ◌≡◌, ◌≤◌, ◌<◌, refl, Bool, true,
  false, not, ◌&&◌, ◌||◌, List, leb, ltb, ◌==◌, if◌then◌else◌, arith, ℤ, pos, negsuc,
}
use native.Mathlib.Nat.{lt-div-mul-add, mod-eq_of_lt, div-eq_of_lt, mul-le-mul_left}
use fortai.Gpu.Context.{Status, ok, invalid}
use fortai.Gpu.Kernel.{run, IsSchedule, IsLocal, run_lem, same-IsLocal}
use fortai.Gpu.Kernel.Launch.{Launch, start, start_lem, is_grid, unsigned_grid}

-- the kernel `qwen_concat_float_matrix`
unfoldable pub concat_float_matrix : {V : Type 0} → (ℕ → V) → (ℕ → V) → ℕ → ℕ → ℕ → (ℕ → V) → ℕ → V
concat_float_matrix first second hidden batch t out i =
    let row : ℕ = t / hidden in
    let column : ℕ = t - row * hidden in
    let output_base : ℕ = row * 2 * hidden in
    if leb (hidden * batch) t
    then out i
    else if i == output_base + hidden + column
    then second t
    else if i == output_base + column
    then first t
    else out i

concat_matrix_at :
    {V : Type 0} → Launch → Bool → (ℕ → V) → (ℕ → V) → ℕ → ℤ → (ℕ → V) → Status × (ℕ → V)
concat_matrix_at launch present first second hidden (negsuc batch) out = (invalid, out)
concat_matrix_at launch present first second hidden (pos batch) out =
    if not present || hidden == 0 || ltb 2147483647 hidden || batch == 0
    then (invalid, out)
    else start launch (unsigned_grid (hidden * batch))
        (concat_float_matrix first second hidden batch) out

-- `fortai_cuda_qwen35_concat_matrix_device`
unfoldable pub concat_matrix_device :
    {V : Type 0} → Launch → Bool → (ℕ → V) → (ℕ → V) → ℕ → ℤ → (ℕ → V) → Status × (ℕ → V)
unfolding concat_matrix_at
concat_matrix_device launch present first second hidden batch out =
    concat_matrix_at launch present first second hidden batch out

-- the two arrays that `fortai_cuda_qwen35_shift_target_hidden_device` writes
pub data Cell : Type 0 where
  pending output : ℕ → Cell

-- the kernel `qwen_shift_target_hidden`
unfoldable pub shift_target_hidden : {V : Type 0} → (ℕ → V) → ℕ → ℕ → ℕ → (Cell → V) → Cell → V
shift_target_hidden input hidden batch t memory (pending r) =
    if ltb t (hidden * batch) && (t / hidden == 0 && r == t % hidden)
    then input ((batch - 1) * hidden + t % hidden)
    else memory (pending r)
shift_target_hidden input hidden batch t memory (output i) =
    if leb (hidden * batch) t
    then memory (output i)
    else if t / hidden == 0
    then (if i == t % hidden then memory (pending (t % hidden)) else memory (output i))
    else if i == t
    then input (t - hidden)
    else memory (output i)

shift_at : {V : Type 0} → Launch → Bool → (ℕ → V) → ℕ → ℤ → (Cell → V) → Status × (Cell → V)
shift_at launch present input hidden (negsuc batch) memory = (invalid, memory)
shift_at launch present input hidden (pos batch) memory =
    if not present || hidden == 0 || ltb 2147483647 hidden || batch == 0
    then (invalid, memory)
    else start launch (unsigned_grid (hidden * batch)) (shift_target_hidden input hidden batch)
        memory

-- `fortai_cuda_qwen35_shift_target_hidden_device`
unfoldable pub shift_target_hidden_device :
    {V : Type 0} → Launch → Bool → (ℕ → V) → ℕ → ℤ → (Cell → V) → Status × (Cell → V)
unfolding shift_at
shift_target_hidden_device launch present input hidden batch memory =
    shift_at launch present input hidden batch memory

pub grid_lem :
    (elements : ℕ)
    → 0 < elements
    → elements + 255 < 2147483648
    → (is_grid (unsigned_grid elements) ≡ true) × (elements ≤ unsigned_grid elements * 256)
grid_lem elements p b = ground arith

abbrev cell_owner : Cell → ℕ
cell_owner (pending r) = r
cell_owner (output i) = i

not_first : (q t hidden : ℕ) → t < q * hidden + hidden → hidden ≤ t → (q == 0) ≡ false
not_first zero t hidden l h = absurd (omega (arith, l, h))
not_first (suc q) t hidden l h = ground arith

-- The threads of the first column are the first ones.
div_zero : (t hidden : ℕ) → 0 < hidden → (t / hidden == 0) ≡ ltb t hidden
div_zero t hidden p = elim (Bool-cases (ltb t hidden)) [
  | inl l ↦ rw (l, div-eq_of_lt {n = t} {m = hidden} (ground arith)) refl
  | inr g ↦ rw (g) (not_first (t / hidden) t hidden (lt-div-mul-add p) (ground arith))
]

shift_step : {V : Type 0} → (ℕ → V) → ℕ → ℕ → ℕ → (Cell → V) → Cell → V
shift_step input hidden batch t memory (pending r) =
    if ltb t (hidden * batch) && (ltb t hidden && r == t)
    then input ((batch - 1) * hidden + t)
    else memory (pending r)
shift_step input hidden batch t memory (output i) =
    if leb (hidden * batch) t
    then memory (output i)
    else if i == t
    then (if ltb t hidden then memory (pending t) else input (t - hidden))
    else memory (output i)

-- the kernel without its divisions
shift_target_hidden_lem :
    {V : Type 0} (input : ℕ → V) (hidden batch t : ℕ) (memory : Cell → V) (c : Cell)
    → 0 < hidden
    → shift_target_hidden input hidden batch t memory c ≡ shift_step input hidden batch t memory c
unfolding shift_target_hidden shift_step
shift_target_hidden_lem input hidden batch t memory (pending r) p =
    ground (arith, div_zero t hidden p, mod-eq_of_lt {n = t} {m = hidden})
shift_target_hidden_lem input hidden batch t memory (output i) p =
    ground (arith, div_zero t hidden p, mod-eq_of_lt {n = t} {m = hidden})

module _ {V : Type 0} (input : ℕ → V) (hidden batch : ℕ) where
  elsewhere :
      (t : ℕ) (m : Cell → V) (c : Cell)
      → (cell_owner c == t) ≡ false
      → shift_step input hidden batch t m c ≡ m c
  unfolding shift_step
  elsewhere t m (pending r) e = ground arith
  elsewhere t m (output i) e = ground arith

  own :
      (t : ℕ) (m m' : Cell → V)
      → ((d : Cell) → cell_owner d ≡ t → m d ≡ m' d)
      → (c : Cell) → cell_owner c ≡ t
      → shift_step input hidden batch t m c ≡ shift_step input hidden batch t m' c
  unfolding shift_step
  own t m m' same (pending r) e = ground (arith, same (pending r) e)
  own t m m' same (output i) e = ground (arith, same (output i) e, same (pending t) refl)

  shift-IsLocal : 0 < hidden → IsLocal cell_owner (shift_target_hidden input hidden batch)
  shift-IsLocal p =
      same-IsLocal (shift_step input hidden batch) (shift_target_hidden input hidden batch)
        (record { elsewhere = elsewhere; own = own })
        λ t m c. shift_target_hidden_lem input hidden batch t m c p

  -- What is to be left: the output has the pending column first and then the columns of the input
  -- without the last, which is pending now.
  abbrev pub shifted : (Cell → V) → Cell → V
  shifted memory (pending r) =
      if ltb r hidden then input ((batch - 1) * hidden + r) else memory (pending r)
  shifted memory (output i) =
      if leb (hidden * batch) i
      then memory (output i)
      else if ltb i hidden
      then memory (pending i)
      else input (i - hidden)

  shifted_at :
      (n : ℕ) (order : List ℕ) (memory : Cell → V) (c : Cell)
      → 0 < hidden
      → hidden ≤ hidden * batch
      → hidden * batch ≤ n
      → IsSchedule n order
      → run (shift_target_hidden input hidden batch) order memory c ≡ shifted memory c
  unfolding shift_step
  shifted_at n order memory (pending r) p one enough s = ground (
    arith,
    run_lem (shift-IsLocal p) (pending r) n order memory s,
    shift_target_hidden_lem input hidden batch r memory (pending r) p,
  )
  shifted_at n order memory (output i) p one enough s = ground (
    arith,
    run_lem (shift-IsLocal p) (output i) n order memory s,
    shift_target_hidden_lem input hidden batch i memory (output i) p,
  )

  -- With pointers that are not NULL, a batch, and a number of elements that does not wrap, the call
  -- `fortai_cuda_qwen35_shift_target_hidden_device` whose launch succeeds returns FORTAI_CUDA_OK, and in
  -- whatever order the threads run, the output is the pending column and behind it the columns of the
  -- input without the last one, which is pending afterwards. Nothing else changes.
  pub shift_target_hidden_device_lem :
      (launch : Launch) (memory : Cell → V)
      → launch.succeeds ≡ true
      → 0 < hidden
      → 0 < batch
      → hidden * batch + 255 < 2147483648
      → IsSchedule (unsigned_grid (hidden * batch) * 256) launch.order
      → shift_target_hidden_device launch true input hidden (pos batch) memory
        ≡ (ok, shifted memory)
  unfolding shift_target_hidden_device
  shift_target_hidden_device_lem launch memory l p q b s =
      let one : hidden ≤ hidden * batch = omega (arith, mul-le-mul_left hidden q) in
      let (grid, enough) = grid_lem (hidden * batch) (omega (arith, p, one)) b in
      ground (
        arith,
        start_lem (shift_target_hidden input hidden batch) launch (unsigned_grid (hidden * batch))
            (shifted memory) memory l grid
            λ (c : Cell).
              shifted_at (unsigned_grid (hidden * batch) * 256) launch.order memory c p one enough
                s,
      )
