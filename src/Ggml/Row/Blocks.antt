-- ===== src/Ggml/Row/Blocks.antt =====
-- The loop over the blocks of a row sums what a loop over the decoded row does.
use fortai.Prelude.{
  ℕ, zero, suc, ◌+◌, ◌*◌, ◌≤◌, ◌<◌, ◌≡◌, refl, sym, ap, ◌∙◌, Option, none, some, arith,
}
use native.Mathlib.Nat.{mul-lt-mul_of_pos_right}
use fortai.Ggml.{Block, dequant_name}
use fortai.Ggml.Row.{Floats, Decoder, dot_values, dot_loop}

-- What libggml documents of a row: its blocks are decoded one by one, each from its own bytes.
abbrev pub IsBlockwise : {F : Type 0} → Block × Decoder F → Type 0
IsBlockwise (b, decode) =
    (input n k i : ℕ)
    → k < n
    → i < b.block_width
    → decode input (n * b.block_width) (k * b.block_width + i)
      ≡ decode (input + k * b.block_bytes) b.block_width i

abbrev pub width_of : Option Block → ℕ
width_of none = 1
width_of (some b) = b.block_width

pub width_of-bounds :
    (type : ℕ) → (0 < width_of (dequant_name type)) × (width_of (dequant_name type) ≤ 256)
unfolding dequant_name
width_of-bounds type = ground arith

module _ {F : Type 0} (floats : Floats F) (vector : ℕ → F) where
  dot_values-none :
      (row : ℕ → F) (n i : ℕ) (result : F)
      → n ≡ 0
      → dot_values floats row vector 0 n i result ≡ result
  unfolding dot_values
  dot_values-none row zero i result e = refl
  dot_values-none row (suc n) i result e = absurd (omega arith)

  -- A loop over the values is two loops.
  dot_values-add :
      (row : ℕ → F) (m n i : ℕ) (result : F)
      → dot_values floats row vector 0 (m + n) i result
        ≡ dot_values floats row vector 0 n (i + m) (dot_values floats row vector 0 m i result)
  unfolding dot_values
  dot_values-add row zero n i result = grind arith
  dot_values-add row (suc m) n i result =
      let next = floats.plus result (floats.times (row i) (vector (0 + i))) in
      let count : suc m + n ≡ suc (m + n) = omega arith in
      let place : suc i + m ≡ i + suc m = omega arith in
      ap (λ j. dot_values floats row vector 0 j i result) count
      ∙ dot_values-add row m n (suc i) next
      ∙ ap (λ j. dot_values floats row vector 0 n j (dot_values floats row vector 0 m (suc i) next))
          place

  -- A block's values are those of the row behind its offset.
  dot_values-block :
      (values row : ℕ → F) (offset n i : ℕ) (result : F)
      → ((j : ℕ) → j < i + n → values j ≡ row (offset + j))
      → dot_values floats values vector offset n i result
        ≡ dot_values floats row vector 0 n (offset + i) result
  unfolding dot_values
  dot_values-block values row offset zero i result same = refl
  dot_values-block values row offset (suc n) i result same =
      let step : ℕ → ℕ → F → F = λ j l v.
        dot_values floats row vector 0 n j (floats.plus result (floats.times v (vector l))) in
      dot_values-block values row offset n (suc i)
        (floats.plus result (floats.times (values i) (vector (offset + i))))
        (λ j h. same j (omega arith))
      ∙ ap (step (offset + suc i) (offset + i)) (same i (omega arith))
      ∙ ap (λ j. step j (offset + i) (row (offset + i))) (next offset i)
      ∙ ap (λ j. step (suc (offset + i)) j (row (offset + i))) (from_zero (offset + i))
    where
      next : (m n : ℕ) → m + suc n ≡ suc (m + n)
      next m n = omega arith

      from_zero : (m : ℕ) → m ≡ 0 + m
      from_zero m = omega arith

  module _ (b : Block) (decode : Decoder F) (input n : ℕ) (wide : 0 < b.block_width)
      (blockwise : IsBlockwise (b, decode)) where
    -- one round of the loop
    dot_values-decoded :
        (k : ℕ) (result : F)
        → k < n
        → dot_values floats
            (decode (input + k * b.block_bytes) b.block_width)
            vector
            (k * b.block_width)
            b.block_width
            0
            result
          ≡ dot_values floats
              (decode input (n * b.block_width))
              vector
              0
              b.block_width
              (k * b.block_width)
              result
    dot_values-decoded k result h =
        dot_values-block (decode (input + k * b.block_bytes) b.block_width)
          (decode input (n * b.block_width)) (k * b.block_width) b.block_width 0 result
          (λ j l. sym (blockwise input n k j h (omega arith)))
        ∙ ap
            (λ i.
              dot_values floats (decode input (n * b.block_width)) vector 0 b.block_width i result)
            (plus_zero (k * b.block_width))
      where
        plus_zero : (m : ℕ) → m + 0 ≡ m
        plus_zero m = omega arith

    -- `r` rounds, behind `k` blocks of the row
    pub dot_loop-rows :
        (fuel r k : ℕ) (result : F)
        → k + r ≡ n
        → r ≤ fuel
        → (dot_loop floats fuel b decode vector
            (n * b.block_width)
            (k * b.block_width)
            (input + k * b.block_bytes)
            result).value
          ≡ dot_values floats
              (decode input (n * b.block_width))
              vector
              0
              (r * b.block_width)
              (k * b.block_width)
              result
    unfolding dot_loop
    dot_loop-rows zero (suc r) k result e h = absurd (omega arith)
    dot_loop-rows zero zero k result e h = sym (
        dot_values-none (decode input (n * b.block_width)) (0 * b.block_width) (k * b.block_width)
          result (omega arith))
    dot_loop-rows (suc fuel) zero k result e h = ground (
      arith,
      ap (λ j. j * b.block_width) e,
      dot_values-none (decode input (n * b.block_width)) (0 * b.block_width) (k * b.block_width)
          result (omega arith),
    )
    dot_loop-rows (suc fuel) (suc r) k result e h =
        let width = n * b.block_width in
        let row = decode input width in
        let offset = k * b.block_width in
        let bytes = input + k * b.block_bytes in
        let values = decode bytes b.block_width in
        let after = dot_values floats values vector offset b.block_width 0 result in
        let loop : ℕ → ℕ → F =
          λ o a. (dot_loop floats fuel b decode vector width o a after).value in
        let sum : ℕ → F → F = λ o v. dot_values floats row vector 0 (r * b.block_width) o v in
        let same_loop : loop (offset + b.block_width) (bytes + b.block_bytes)
            ≡ loop (suc k * b.block_width) (input + suc k * b.block_bytes) =
          ap (λ o. loop o (bytes + b.block_bytes)) (next_block b.block_width k)
          ∙ ap (loop (suc k * b.block_width)) (next_bytes b.block_bytes) in
        let rest : loop (offset + b.block_width) (bytes + b.block_bytes)
            ≡ dot_values floats row vector 0 (suc r * b.block_width) offset result =
          same_loop
          ∙ dot_loop-rows fuel r (suc k) after (omega arith) (omega arith)
          ∙ ap (λ o. sum o after) (sym (next_block b.block_width k))
          ∙ ap (sum (offset + b.block_width)) (dot_values-decoded k result (omega arith))
          ∙ sym (dot_values-add row b.block_width (r * b.block_width) offset result)
          ∙ ap (λ m. dot_values floats row vector 0 m offset result) (block_more b.block_width r) in
        let fewer : offset < width = mul-lt-mul_of_pos_right (omega arith) wide in
        ground (arith, fewer, rest)
      where
        next_block : (w k : ℕ) → k * w + w ≡ suc k * w
        next_block w k = omega arith

        next_bytes : (w : ℕ) → input + k * w + w ≡ input + suc k * w
        next_bytes w = omega arith

        block_more : (w r : ℕ) → w + r * w ≡ suc r * w
        block_more w r = omega arith
