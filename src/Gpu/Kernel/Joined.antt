-- ===== src/Gpu/Kernel/Joined.antt =====
-- Two matrices with a column for each token, joined by
-- `fortai_cuda_qwen35_concat_matrix_device` of backend/cuda/fortai_cuda_backend.cu.
use fortai.Prelude.{
  ℕ, suc, ◌+◌, ◌-◌, ◌/◌, ◌*◌, ◌≡◌, ◌≤◌, ◌<◌, refl, ◌∙◌, true, false, List, ltb, ◌==◌, if◌then◌else◌,
  arith, pos,
}
use native.Mathlib.Nat.{
  div-eq_of_lt-le, div-mul-le_self, lt-div-mul-add, mul-le-mul_left, mul_assoc, mul_comm,
}
use fortai.Gpu.Context.{ok}
use fortai.Gpu.Kernel.{run, IsSchedule, IsLocal, run_lem}
use fortai.Gpu.Kernel.Launch.{Launch, start, start_lem, unsigned_grid}
use fortai.Gpu.Kernel.Columns.{concat_float_matrix, concat_matrix_device, grid_lem}

-- the thread that writes an element of the joined matrix
joined_owner : ℕ → ℕ → ℕ
joined_owner hidden i =
    let row : ℕ = i / (2 * hidden) in
    let column : ℕ = i - row * (2 * hidden) in
    row * hidden + (if ltb column hidden then column else column - hidden)

joined_owner_lem :
    (row column hidden : ℕ)
    → column < 2 * hidden
    → joined_owner hidden (row * (2 * hidden) + column)
      ≡ row * hidden + (if ltb column hidden then column else column - hidden)
unfolding joined_owner
joined_owner_lem row column hidden c =
    let rest : row * (2 * hidden) + column - row * (2 * hidden) ≡ column = omega arith in
    let quotient : (row * (2 * hidden) + column) / (2 * hidden) ≡ row =
      div-eq_of_lt-le (2 * hidden) (omega arith) (omega (arith, c)) in
    rw (quotient, rest) refl

module _ (t hidden : ℕ) (p : 0 < hidden) where
  abbrev row_of : ℕ
  row_of = t / hidden

  abbrev column_of : ℕ
  column_of = t - row_of * hidden

  column_lem : (column_of < hidden) × (row_of * hidden + column_of ≡ t)
  column_lem = omega (arith, div-mul-le_self t hidden, lt-div-mul-add {a = t} p)

  first_owner : joined_owner hidden (row_of * 2 * hidden + column_of) ≡ t
  first_owner = rw (mul_assoc row_of 2 hidden) (
      joined_owner_lem row_of column_of hidden (omega (arith, column_lem))
      ∙ ground (arith, column_lem))

  second_owner : joined_owner hidden (row_of * 2 * hidden + hidden + column_of) ≡ t
  second_owner =
      let address : row_of * 2 * hidden + hidden + column_of
          ≡ row_of * (2 * hidden) + (hidden + column_of) =
        omega (arith, mul_assoc row_of 2 hidden) in
      rw address (
        joined_owner_lem row_of (hidden + column_of) hidden (omega (arith, column_lem))
        ∙ ground (arith, column_lem))

module _ {V : Type 0} (first second : ℕ → V) (hidden batch : ℕ) (p : 0 < hidden) where
  elsewhere :
      (t : ℕ) (m : ℕ → V) (i : ℕ)
      → (joined_owner hidden i == t) ≡ false
      → concat_float_matrix first second hidden batch t m i ≡ m i
  unfolding concat_float_matrix
  elsewhere t m i e = ground (arith, first_owner t hidden p, second_owner t hidden p)

  joined-IsLocal : IsLocal (joined_owner hidden) (concat_float_matrix first second hidden batch)
  unfolding concat_float_matrix
  joined-IsLocal = record {
    elsewhere = elsewhere;
    own = λ t m m' same i e. ground (arith, same i e);
  }

  module _ (row column : ℕ) (inside : row < batch) (below : column < hidden) where
    row_lem : (row * hidden + column) / hidden ≡ row
    row_lem = div-eq_of_lt-le hidden (omega arith) (omega (arith, below))

    thread_inside : row * hidden + column < hidden * batch
    thread_inside = omega (arith, mul-le-mul_left hidden inside, below, mul_comm hidden (suc row))

    -- what the thread of an element writes
    thread_first :
        (m : ℕ → V)
        → concat_float_matrix first second hidden batch
            (row * hidden + column)
            m
            (row * (2 * hidden) + column)
          ≡ first (row * hidden + column)
    unfolding concat_float_matrix
    thread_first m = rw (row_lem) (ground (arith, thread_inside, mul_assoc row 2 hidden))

    thread_second :
        (m : ℕ → V)
        → concat_float_matrix first second hidden batch
            (row * hidden + column)
            m
            (row * (2 * hidden) + (hidden + column))
          ≡ second (row * hidden + column)
    unfolding concat_float_matrix
    thread_second m = rw (row_lem) (ground (arith, thread_inside, mul_assoc row 2 hidden))

    owner_first : joined_owner hidden (row * (2 * hidden) + column) ≡ row * hidden + column
    owner_first = joined_owner_lem row column hidden (omega (arith, below)) ∙ ground (arith, below)

    owner_second :
        joined_owner hidden (row * (2 * hidden) + (hidden + column)) ≡ row * hidden + column
    owner_second =
        joined_owner_lem row (hidden + column) hidden (omega (arith, below)) ∙ ground (arith, below)

    module _ (n : ℕ) (order : List ℕ) (out : ℕ → V) (enough : hidden * batch ≤ n)
        (schedule : IsSchedule n order) where
      run_first :
          run
            (concat_float_matrix first second hidden batch)
            order
            out
            (row * (2 * hidden) + column)
          ≡ first (row * hidden + column)
      run_first =
          run_lem joined-IsLocal (row * (2 * hidden) + column) n order out schedule
          ∙ rw owner_first (ground (arith, thread_inside, enough, thread_first out))

      run_second :
          run
            (concat_float_matrix first second hidden batch)
            order
            out
            (row * (2 * hidden) + (hidden + column))
          ≡ second (row * hidden + column)
      run_second =
          run_lem joined-IsLocal (row * (2 * hidden) + (hidden + column)) n order out schedule
          ∙ rw owner_second (ground (arith, thread_inside, enough, thread_second out))

-- `fortai_cuda_qwen35_concat_matrix_device` with pointers that are not NULL and a number of elements
-- that does not wrap, whose launch succeeds: it returns FORTAI_CUDA_OK, and in whatever order the
-- threads run, the column of each token has the token's column of the first matrix and behind it that
-- of the second.
concat_matrix_device_lem :
    {V : Type 0} (first second : ℕ → V) (hidden batch : ℕ) (launch : Launch) (out : ℕ → V)
    (row column : ℕ)
    → row < batch
    → column < hidden
    → launch.succeeds ≡ true
    → hidden * batch + 255 < 2147483648
    → IsSchedule (unsigned_grid (hidden * batch) * 256) launch.order
    → let r = concat_matrix_device launch true first second hidden (pos batch) out in
      (r.0 ≡ ok)
      × (r.1 (row * (2 * hidden) + column) ≡ first (row * hidden + column))
      × (r.1 (row * (2 * hidden) + (hidden + column)) ≡ second (row * hidden + column))
unfolding concat_matrix_device
concat_matrix_device_lem first second hidden batch launch out row column inside below l b s =
    let p : 0 < hidden = omega (arith, below) in
    let one : hidden * 1 ≤ hidden * batch = mul-le-mul_left hidden (omega (arith, inside)) in
    let (grid, enough) = grid_lem (hidden * batch) (omega (arith, p, one)) b in
    let done : start launch (unsigned_grid (hidden * batch))
          (concat_float_matrix first second hidden batch) out
        ≡ (ok, run (concat_float_matrix first second hidden batch) launch.order out) =
      start_lem (concat_float_matrix first second hidden batch) launch
        (unsigned_grid (hidden * batch))
        (run (concat_float_matrix first second hidden batch) launch.order out) out l grid
        (λ i. refl) in
    let n = unsigned_grid (hidden * batch) * 256 in
    let one_half =
      run_first first second hidden batch p row column inside below n launch.order out enough s in
    let other_half =
      run_second first second hidden batch p row column inside below n launch.order out enough s in
    ground (arith, done, one_half, other_half)
