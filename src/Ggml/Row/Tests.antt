-- ===== src/Ggml/Row/Tests.antt =====
-- Uses of the theorems on the rows, for a library whose values are sums of addresses and places.
use fortai.Prelude.{ℕ, ◌+◌, ◌*◌, ◌/◌, ◌%◌, ◌≡◌, refl, ap, true, Option, none, some, [], ◌∷◌, arith}
use mathlib.Core.Path.{subst}
use fortai.Libc.{codes}
use fortai.Ggml.{Block, dequant_name}
use fortai.Ggml.Row.{
  Floats, Decoder, Library, resolve, dequantize_row, dot_values, dot_loop, quant_dot,
}
use fortai.Ggml.Row.Blocks.{IsBlockwise}
use fortai.Ggml.Row.Whole.{quant_dot-dequantize_row}
use fortai.Ggml.Row.Bounds.{IsWithin, quant_dot-IsWithin}

abbrev numbers : Floats ℕ
numbers = record { zero_float = 0; plus = λ a b. a + b; times = λ a b. a * b }

-- blocks of 32 values in 18 bytes
abbrev decode_nl : Decoder ℕ
decode_nl address width i = address + i / 32 * 18 + i % 32

abbrev library : Library ℕ
library = some (λ name. some decode_nl)

abbrev block_nl : Block
block_nl = record { block_width = 32; block_bytes = 18; name = codes "dequantize_row_iq4_nl" }

decode_nl-IsBlockwise : IsBlockwise (block_nl, decode_nl)
decode_nl-IsBlockwise input n k i h l = omega arith

abbrev or_nl : Option (Block × Decoder ℕ) → Block × Decoder ℕ
or_nl none = (block_nl, decode_nl)
or_nl (some r) = r

library-IsBlockwise : (r : Block × Decoder ℕ) → resolve library 20 ≡ some r → IsBlockwise r
unfolding resolve dequant_name
library-IsBlockwise r e = subst IsBlockwise (ap or_nl e) decode_nl-IsBlockwise

two_blocks_example :
    (quant_dot numbers library 20 1000 (some (λ i. i + 1)) 64).value
    ≡ (elim (dequantize_row library 20 1000 true 64) as (λ _. ℕ) [
      | none ↦ 0
      | some row ↦ dot_values numbers row (λ i. i + 1) 0 64 0 0
    ])
two_blocks_example =
    quant_dot-dequantize_row numbers library 20 1000 (λ i. i + 1) 64 library-IsBlockwise

two_blocks_test :
    (quant_dot numbers library 20 1000 (some (λ i. i + 1)) 64).decoded
    ≡ (1000, 32) ∷ (1018, 32) ∷ []
unfolding quant_dot resolve dequant_name dot_loop
two_blocks_test = refl

array_example :
    IsWithin
      (dequant_name 20)
      1000
      64
      (quant_dot numbers library 20 1000 (some (λ i. i + 1)) 64).decoded
array_example = quant_dot-IsWithin numbers library 20 1000 (some (λ i. i + 1)) 64
