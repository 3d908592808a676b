-- ===== src/Gpu/Access/Kernels.antt =====
-- The kernels of the Q8 products in backend/cuda/fortai_cuda_backend.cu, as what each thread reads and
-- writes. A matrix has `rows * blocks` blocks of 34 bytes, an activation blocks of 36.
use fortai.Prelude.{
  ℕ, zero, suc, ◌+◌, ◌-◌, ◌*◌, ◌/◌, ◌%◌, ◌^◌, List, [], ◌∷◌, ◌++◌, ltb, leb, ◌==◌, ◌||◌,
  if◌then◌else◌,
}
use fortai.Gpu.Access.{Place, activation, raw, matrix, Access, at, Work}

-- `load_i32`
abbrev pub load_i32 : Place → ℕ → Access
load_i32 place offset = at place offset 4

-- `block_scale`
abbrev pub block_scale : Place → ℕ → Access
block_scale place offset = at place offset 2

-- An offset that the source computes in `int`: 32 bits with a sign, where one below 0 is added to a
-- pointer of 64 bits.
abbrev pub int_offset : ℕ → ℕ
int_offset n = if ltb (n % 2 ^ 32) (2 ^ 31) then n % 2 ^ 32 else n % 2 ^ 32 + (2 ^ 64 - 2 ^ 32)

-- an element of an array of `float`
abbrev pub float_at : Place → ℕ → Access
float_at place index = at place (index * 4) 4

-- the body of the loop of `q8_gemv_mmvq` over the blocks
abbrev pub gemv_block : Place → Place → ℕ → ℕ → ℕ → ℕ → List Access
gemv_block weights vector row blocks block kqs =
    let weight_block : ℕ = row * blocks * 34 + int_offset (block * 34) in
    let activation_block : ℕ = int_offset (block * 36) in
    load_i32 weights (weight_block + 2 + 4 * kqs)
    ∷ load_i32 vector (activation_block + 4 + 4 * kqs)
    ∷ load_i32 weights (weight_block + 2 + 4 * (kqs + 1))
    ∷ load_i32 vector (activation_block + 4 + 4 * (kqs + 1))
    ∷ block_scale weights weight_block
    ∷ block_scale vector activation_block
    ∷ []

-- `for (block = first; block < blocks; block += stride)`, on fuel
unfoldable pub each_block : (ℕ → List Access) → ℕ → ℕ → ℕ → ℕ → List Access
each_block body zero stride blocks block = []
each_block body (suc n) stride blocks block =
    let later = each_block body n stride blocks (block + stride) in
    if ltb block blocks then body block ++ later else []

-- `q8_gemv_mmvq`, with the output at an offset
unfoldable pub gemv_mmvq : Place → Place → Place → ℕ → ℕ → ℕ → ℕ → ℕ → List Access
gemv_mmvq weights vector out offset rows blocks row tid =
    if leb rows row
    then []
    else each_block (λ block. gemv_block weights vector row blocks block (2 * (tid % 4))) blocks 32
        blocks (tid / 4)
      ++ (if tid == 0 then at out (offset + row * 4) 4 ∷ [] else [])

-- `launch_q8`
abbrev pub launch_q8 : Place → Place → Place → ℕ → ℕ → ℕ → Work
launch_q8 weights vector out offset rows blocks = record {
  blocks = rows;
  threads = 128;
  accesses = gemv_mmvq weights vector out offset rows blocks;
}

-- `qwen_quantize_q8`: a thread reads the 32 floats of its block and writes its 36 bytes
unfoldable pub quantize_q8 : Place → Place → ℕ → ℕ → ℕ → List Access
quantize_q8 source out blocks block_index thread =
    let block : ℕ = block_index * 32 + thread in
    if leb blocks block
    then []
    else at source (int_offset (block * 32) * 4) (32 * 4)
      ∷ at out (int_offset (block * 36)) 2
      ∷ at out (int_offset (block * 36) + 2) 2
      ∷ at out (int_offset (block * 36) + 4) 32
      ∷ []

abbrev pub launch_quantize : Place → Place → ℕ → Work
launch_quantize source out blocks = record {
  blocks = (blocks + 31) / 32;
  threads = 32;
  accesses = quantize_q8 source out blocks;
}

-- `q8_repack_activation`
unfoldable pub repack_activation : ℕ → ℕ → ℕ → List Access
repack_activation blocks block lane =
    if leb blocks block || leb 32 lane
    then []
    else (if ltb lane 2
        then at activation (int_offset (block * 36) + lane) 1
          ∷ at raw (int_offset (block * 34) + lane) 1
          ∷ []
        else [])
      ++ (at activation (int_offset (block * 36) + 4 + lane) 1
          ∷ at raw (int_offset (block * 34) + 2 + lane) 1
          ∷ [])

-- `launch_q8_repack_activation`
abbrev pub launch_repack : ℕ → Work
launch_repack blocks = record { blocks = blocks; threads = 32; accesses = repack_activation blocks }

-- the loop body of `q8_gemv_silu_product_mmvq_four_warp` and of
-- `q8_gemv_silu_product_one_warp`, the words at `word` bytes behind the scales
abbrev pub silu_block : Place → ℕ → ℕ → ℕ → ℕ → List Access
silu_block vector row blocks block word =
    let row_block : ℕ = row * blocks * 34 + int_offset (block * 34) in
    load_i32 (matrix 0) (row_block + 2 + word)
    ∷ load_i32 (matrix 1) (row_block + 2 + word)
    ∷ load_i32 vector (int_offset (block * 36) + 4 + word)
    ∷ block_scale (matrix 0) row_block
    ∷ block_scale (matrix 1) row_block
    ∷ block_scale vector (int_offset (block * 36))
    ∷ []

-- `q8_gemv_silu_product_mmvq_four_warp`
unfoldable pub silu_four_warp : Place → Place → ℕ → ℕ → ℕ → ℕ → List Access
silu_four_warp vector out rows blocks row tid =
    if leb rows row
    then []
    else each_block
        (λ block.
          silu_block vector row blocks block (tid % 4 * 2 * 4)
          ++ silu_block vector row blocks block ((tid % 4 * 2 + 1) * 4))
        blocks 32 blocks (tid / 32 * 8 + tid % 32 / 4)
      ++ (if tid == 0 then float_at out row ∷ [] else [])

-- `q8_gemv_silu_product_one_warp`
unfoldable pub silu_one_warp : Place → Place → ℕ → ℕ → ℕ → ℕ → List Access
silu_one_warp vector out rows blocks row lane =
    if leb rows row
    then []
    else (if ltb lane 8
        then each_block (λ block. silu_block vector row blocks block (lane * 4)) blocks 1 blocks 0
        else [])
      ++ (if lane == 0 then float_at out row ∷ [] else [])

-- `launch_q8_silu_product`
unfoldable pub launch_silu_product : Place → Place → ℕ → ℕ → Work
launch_silu_product vector out rows blocks =
    if ltb blocks 32
    then (record { blocks = rows; threads = 32; accesses = silu_one_warp vector out rows blocks })
    else record { blocks = rows; threads = 128; accesses = silu_four_warp vector out rows blocks }
