-- ===== src/Ggml/Row/Whole.antt =====
-- The dot product that decodes block by block is the dot product of the decoded row.
use fortai.Prelude.{
  ℕ, ◌+◌, ◌*◌, ◌/◌, ◌%◌, ◌≤◌, ◌<◌, ◌≡◌, refl, sym, ap, ◌∙◌, true, not, ◌||◌, Option, none, some, [],
  ◌==◌, if◌then◌else◌, arith,
}
use native.Mathlib.Nat.{le-mul_of_pos_right, mod-add-div'}
use mathlib.Core.Path.{subst}
use fortai.Ggml.{Block, dequant_name}
use fortai.Ggml.Row.{
  Floats, Decoder, Library, Dot, resolve, dequantize_row, dot_values, dot_loop, quant_dot,
}
use fortai.Ggml.Row.Blocks.{IsBlockwise, width_of, width_of-bounds, dot_loop-rows}

module _ {F : Type 0} (floats : Floats F) (vector : ℕ → F) where
  -- The whole loop, for a width of whole blocks.
  dot_loop-row :
      (b : Block) (decode : Decoder F) (input : ℕ)
      → 0 < b.block_width
      → IsBlockwise (b, decode)
      → (width : ℕ) (result : F) → width % b.block_width ≡ 0
      → (dot_loop floats width b decode vector width 0 input result).value
        ≡ dot_values floats (decode input width) vector 0 width 0 result
  dot_loop-row b decode input wide blockwise width result e =
      subst
        (λ w.
          (dot_loop floats w b decode vector w 0 input result).value
          ≡ dot_values floats (decode input w) vector 0 w 0 result)
        (omega (arith, mod-add-div' width b.block_width, e)) (by_count (width / b.block_width))
    where
      -- the same for a number of blocks
      by_count :
          (n : ℕ)
          → (dot_loop floats
              (n * b.block_width)
              b
              decode
              vector
              (n * b.block_width)
              0
              input
              result).value
            ≡ dot_values floats
                (decode input (n * b.block_width))
                vector
                0
                (n * b.block_width)
                0
                result
      by_count n =
          let width = n * b.block_width in
          let no_offset : 0 ≡ 0 * b.block_width = omega arith in
          let no_bytes : input ≡ input + 0 * b.block_bytes = omega arith in
          ap (λ o. (dot_loop floats width b decode vector width o input result).value) no_offset
          ∙ ap
              (λ a.
                (dot_loop floats width b decode vector width (0 * b.block_width) a result).value)
              no_bytes
          ∙ dot_loop-rows floats vector b decode input n wide blockwise width n 0 result
              (omega arith) (le-mul_of_pos_right n wide)
          ∙ ap (λ o. dot_values floats (decode input width) vector 0 width o result) (sym no_offset)

abbrev resolved_width : {F : Type 0} → Option (Block × Decoder F) → ℕ
resolved_width none = 1
resolved_width (some r) = r.0.block_width

resolve-bounds :
    {F : Type 0} (library : Library F) (type : ℕ)
    → (0 < resolved_width (resolve library type)) × (resolved_width (resolve library type) ≤ 256)
unfolding resolve
resolve-bounds none type = (omega arith, omega arith)
resolve-bounds {F} (some symbol) type = by_block (dequant_name type) (width_of-bounds type)
  where
    by_block :
        (o : Option Block)
        → (0 < width_of o) × (width_of o ≤ 256)
        → let r : Option (Block × Decoder F) = elim o as (λ _. Option (Block × Decoder F)) [
          | none ↦ none
          | some b ↦ elim (symbol b.name) as (λ _. Option (Block × Decoder F)) [
            | none ↦ none
            | some decode ↦ some (b, decode)
          ]
        ] in
          (0 < resolved_width r) × (resolved_width r ≤ 256)
    by_block none w = (omega arith, omega arith)
    by_block (some b) w = by_symbol (symbol b.name)
      where
        by_symbol :
            (o : Option (Decoder F))
            → let r : Option (Block × Decoder F) = elim o as (λ _. Option (Block × Decoder F)) [
              | none ↦ none
              | some decode ↦ some (b, decode)
            ] in
              (0 < resolved_width r) × (resolved_width r ≤ 256)
        by_symbol none = (omega arith, omega arith)
        by_symbol (some decode) = w

-- `fortai_ggml_quant_dot`, for a library that decodes the blocks of a row one by one: the result is the
-- sum, from left to right, of the products of what `fortai_ggml_dequantize_row` writes with the vector,
-- and it is 0 where that function refuses the row.
pub quant_dot-dequantize_row :
    {F : Type 0} (floats : Floats F) (library : Library F) (type input : ℕ) (vector : ℕ → F)
    (width : ℕ)
    → ((r : Block × Decoder F) → resolve library type ≡ some r → IsBlockwise r)
    → (quant_dot floats library type input (some vector) width).value
      ≡ (elim (dequantize_row library type input true width) as (λ _. F) [
        | none ↦ floats.zero_float
        | some row ↦ dot_values floats row vector 0 width 0 floats.zero_float
      ])
unfolding quant_dot dequantize_row
quant_dot-dequantize_row {F} floats library type input vector width blockwise =
    by_result (resolve library type) blockwise (resolve-bounds library type)
  where
    by_result :
        (o : Option (Block × Decoder F))
        → ((r : Block × Decoder F) → o ≡ some r → IsBlockwise r)
        → (0 < resolved_width o) × (resolved_width o ≤ 256)
        → (elim o as (λ _. Dot F) [
          | none ↦ record { value = floats.zero_float; decoded = [] }
          | some r ↦
              if input == 0 || width == 0 || not (width % r.0.block_width == 0)
              then (record { value = floats.zero_float; decoded = [] })
              else dot_loop floats width r.0 r.1 vector width 0 input floats.zero_float
        ]).value
          ≡ (elim (elim o as (λ _. Option (ℕ → F)) [
            | none ↦ none
            | some r ↦
                if input == 0 || not true || width == 0 || not (width % r.0.block_width == 0)
                then none
                else some (r.1 input width)
          ])
              as (λ _. F) [
                | none ↦ floats.zero_float
                | some row ↦ dot_values floats row vector 0 width 0 floats.zero_float
              ])
    by_result none k w = refl
    by_result (some (b, decode)) k w = ground (
      arith,
      dot_loop-row floats vector b decode input w.0 (k (b, decode) refl) width floats.zero_float,
    )
