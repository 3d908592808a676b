-- ===== src/Ggml.antt =====
-- src/backend/cpu/fortai_ggml_quant.c: products of quantised matrices with vectors by libggml, with
-- a cache of the plans. Here: the formats, and which calls are refused.
pub mod Cache
pub mod Plan
pub mod Row
pub mod Tests
use fortai.Prelude.{
  ℕ, ◌-◌, ◌*◌, ◌/◌, ◌%◌, ◌^◌, Bool, true, false, not, ◌&&◌, ◌||◌, Option, none, some, List, [], ◌∷◌,
  ltb, leb, ◌==◌, if◌then◌else◌, length,
}
use fortai.Libc.{Bytes, codes}

-- A format's block: how many values it has, its bytes, and the name of its function.
pub record Block : Type 0 where
  pub block_width : ℕ
  pub block_bytes : ℕ
  pub name : Bytes

abbrev block : ℕ → ℕ → Bytes → Option Block
block width bytes name = some record { block_width = width; block_bytes = bytes; name = name }

-- `fortai_dequant_name`
unfoldable pub dequant_name : ℕ → Option Block
dequant_name type =
    if type == 11
    then block 256 110 (codes "dequantize_row_q3_K")
    else if type == 12
    then block 256 144 (codes "dequantize_row_q4_K")
    else if type == 13
    then block 256 176 (codes "dequantize_row_q5_K")
    else if type == 14
    then block 256 210 (codes "dequantize_row_q6_K")
    else if type == 20
    then block 32 18 (codes "dequantize_row_iq4_nl")
    else if type == 21
    then block 256 110 (codes "dequantize_row_iq3_s")
    else if type == 23
    then block 256 136 (codes "dequantize_row_iq4_xs")
    else none

-- A matrix of a call: its type, the address of its weights, 0 for NULL, their bytes, and its rows,
-- 0 if they are not positive.
pub record Matrix : Type 0 where
  pub type : ℕ
  pub weights_host : ℕ
  pub weight_bytes : ℕ
  pub rows : ℕ

-- `width % block_width == 0` and the product that must be `weight_bytes`, which wraps around
abbrev pub has_shape : Block → Matrix → ℕ → Bool
has_shape b m width =
    width % b.block_width == 0
    && ((width / b.block_width * b.block_bytes * m.rows) % 2 ^ 64 == m.weight_bytes)

-- the checks of a matrix in `fortai_ggml_quant_matvec` and `fortai_ggml_quant_matvec_group`
unfoldable pub matrix_accepted : Matrix → ℕ → Bool
matrix_accepted m width = elim (dequant_name m.type) [
  | none ↦ false
  | some b ↦ not (m.weights_host == 0) && (not (m.rows == 0) && has_shape b m width)
]

unfoldable pub all_accepted : List Matrix → ℕ → Bool
all_accepted [] width = true
all_accepted (m ∷ ms) width = matrix_accepted m width && all_accepted ms width

-- `FORTAI_GGML_GROUP_MAX`
abbrev pub group_max : ℕ
group_max = 3

-- the checks of `fortai_ggml_quant_matvec_group`; `vectors` is true if neither the activation nor
-- an output is NULL
unfoldable pub group_accepted : List Matrix → ℕ → Bool → Bool
group_accepted ms width vectors =
    not (ltb (length ms) 2 || (ltb group_max (length ms) || (not vectors || width == 0)))
    && all_accepted ms width

-- the checks of `fortai_ggml_quant_matvec`
unfoldable pub matvec_accepted : Matrix → ℕ → Bool → Bool
matvec_accepted m width vectors = vectors && (not (width == 0) && matrix_accepted m width)
