-- ===== src/Ggml/Row.antt =====
-- The decoder of rows and the dot product of src/backend/cpu/fortai_ggml_quant.c, which decode blocks
-- by a function of libggml. The floats, and what that library has, are parameters; an address is 0 for
-- NULL, and a width that is not positive is 0.
pub mod Blocks
pub mod Bounds
pub mod Tests
pub mod Whole
use fortai.Prelude.{
  ℕ, zero, suc, ◌+◌, ◌%◌, Bool, true, false, not, ◌||◌, Option, none, some, List, [], ◌∷◌, ltb,
  ◌==◌, if◌then◌else◌,
}
use fortai.Libc.{Bytes}
use fortai.Ggml.{Block, dequant_name}

-- the zero, the sum and the product of the floats
pub record Floats (F : Type 0) : Type 0 where
  pub zero_float : F
  pub plus : F → F → F
  pub times : F → F → F

-- What a decoder writes: for the address of a row and its width, the value at each place.
abbrev pub Decoder : Type 0 → Type 0
Decoder F = ℕ → ℕ → ℕ → F

-- what `dlsym` finds in libggml, none if the library cannot be opened
abbrev pub Library : Type 0 → Type 0
Library F = Option (Bytes → Option (Decoder F))

-- A dot product, and the address and the width of each row that it has decoded.
pub record Dot (F : Type 0) : Type 0 where
  pub value : F
  pub decoded : List (ℕ × ℕ)

module _ {F : Type 0} where
  -- `fortai_resolve`
  unfoldable pub resolve : Library F → ℕ → Option (Block × Decoder F)
  resolve none type = none
  resolve (some symbol) type = elim (dequant_name type) as (λ _. Option (Block × Decoder F)) [
    | none ↦ none
    | some b ↦ elim (symbol b.name) as (λ _. Option (Block × Decoder F)) [
      | none ↦ none
      | some decode ↦ some (b, decode)
    ]
  ]

  -- `fortai_ggml_quant_available`
  unfoldable pub quant_available : Library F → ℕ → Bool
  quant_available library type = elim (resolve library type) as (λ _. Bool) [
    | none ↦ false
    | some r ↦ true
  ]

  -- `fortai_ggml_dequantize_row`: the row that is written, or none where it returns 1
  unfoldable pub dequantize_row : Library F → ℕ → ℕ → Bool → ℕ → Option (ℕ → F)
  dequantize_row library type input has_output width =
      elim (resolve library type) as (λ _. Option (ℕ → F)) [
        | none ↦ none
        | some r ↦
            if input == 0 || not has_output || width == 0 || not (width % r.0.block_width == 0)
            then none
            else some (r.1 input width)
      ]

  module _ (floats : Floats F) where
    -- the inner loop, for `n` places from `i` on
    unfoldable pub dot_values : (ℕ → F) → (ℕ → F) → ℕ → ℕ → ℕ → F → F
    dot_values values vector offset zero i result = result
    dot_values values vector offset (suc n) i result =
        dot_values values vector offset n (suc i)
          (floats.plus result (floats.times (values i) (vector (offset + i))))

    -- the loop over the blocks
    unfoldable pub dot_loop : ℕ → Block → Decoder F → (ℕ → F) → ℕ → ℕ → ℕ → F → Dot F
    dot_loop zero b decode vector width offset bytes result = record {
      value = result;
      decoded = [];
    }
    dot_loop (suc fuel) b decode vector width offset bytes result =
        let rest =
          dot_loop fuel b decode vector width (offset + b.block_width) (bytes + b.block_bytes)
            (dot_values (decode bytes b.block_width) vector offset b.block_width 0 result) in
        if ltb offset width
        then record rest { decoded = (bytes, b.block_width) ∷ rest.decoded }
        else record { value = result; decoded = [] }

    -- `fortai_ggml_quant_dot`
    unfoldable pub quant_dot : Library F → ℕ → ℕ → Option (ℕ → F) → ℕ → Dot F
    quant_dot library type input none width = record { value = floats.zero_float; decoded = [] }
    quant_dot library type input (some vector) width = elim (resolve library type) as (λ _. Dot F) [
      | none ↦ record { value = floats.zero_float; decoded = [] }
      | some r ↦
          if input == 0 || width == 0 || not (width % r.0.block_width == 0)
          then (record { value = floats.zero_float; decoded = [] })
          else dot_loop width r.0 r.1 vector width 0 input floats.zero_float
    ]
