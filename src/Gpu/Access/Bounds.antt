-- ===== src/Gpu/Access/Bounds.antt =====
-- Each kernel of the Q8 products stays inside its places.
use fortai.Prelude.{
  ℕ, zero, suc, ◌+◌, ◌*◌, ◌/◌, ◌%◌, ◌^◌, ◌≡◌, ◌≤◌, ◌<◌, List, [], ◌∷◌, ◌++◌, ltb, leb, ◌==◌,
  if◌then◌else◌, if_rule, arith, ltb→lt,
}
use native.Mathlib.Nat.{mul-le-mul_right}
use fortai.Gpu.Access.{Place, activation, raw, matrix, Access, at, AllFit, WorkFits, AllFit-append}
use fortai.Gpu.Access.Kernels.{
  int_offset, gemv_block, each_block, gemv_mmvq, launch_q8, quantize_q8, launch_quantize,
  repack_activation, launch_repack, silu_block, silu_four_warp, silu_one_warp, launch_silu_product,
}

module _ (room : Place → ℕ) where
  each_block-AllFit :
      (body : ℕ → List Access) (blocks n stride block : ℕ)
      → ((b : ℕ) → b < blocks → AllFit room (body b))
      → AllFit room (each_block body n stride blocks block)
  unfolding each_block
  each_block-AllFit body blocks zero stride block f = tt
  each_block-AllFit body blocks (suc n) stride block f =
      if_rule (AllFit room) (ltb block blocks) _ _
        (λ e.
          AllFit-append room (body block) (each_block body n stride blocks (block + stride))
            (f block (ltb→lt block blocks e))
            (each_block-AllFit body blocks n stride (block + stride) f))
        (λ e. tt)

  -- An offset in an activation that is small enough is what it is without a bound.
  int_offset_lem : (n : ℕ) → n < 2 ^ 31 → int_offset n ≡ n
  int_offset_lem n h = ground arith

  -- a block of a matrix
  block_room :
      (rows blocks row block : ℕ)
      → row < rows
      → block < blocks
      → row * blocks * 34 + block * 34 + 34 ≤ rows * blocks * 34
  block_room rows blocks row block r b = omega (arith, mul-le-mul_right blocks r, b)

  module _ (weights vector out : Place) (offset rows blocks : ℕ)
      (w : rows * blocks * 34 ≤ room weights)
      (v : (blocks * 36 ≤ room vector) × (blocks * 36 < 2 ^ 31))
      (o : offset + rows * 4 ≤ room out) where
    gemv_block-AllFit :
        (row block kqs : ℕ)
        → row < rows
        → block < blocks
        → kqs ≤ 6
        → AllFit room (gemv_block weights vector row blocks block kqs)
    gemv_block-AllFit row block kqs r b k =
        let inside = block_room rows blocks row block r b in
        rw
          (
            int_offset_lem (block * 34) (omega (arith, v.1, b)),
            int_offset_lem (block * 36) (omega (arith, v.1, b)),
          )
          (omega (arith, inside, w, v.0, b, k))

    pub launch_q8-WorkFits : WorkFits room (launch_q8 weights vector out offset rows blocks)
    unfolding gemv_mmvq
    launch_q8-WorkFits row tid r t =
        if_rule (AllFit room) (leb rows row) _ _ (λ e. tt)
          λ e.
            AllFit-append room
              (each_block (λ block. gemv_block weights vector row blocks block (2 * (tid % 4)))
                blocks 32 blocks (tid / 4))
              (if tid == 0 then at out (offset + row * 4) 4 ∷ [] else [])
              (each_block-AllFit
                (λ block. gemv_block weights vector row blocks block (2 * (tid % 4))) blocks blocks
                32 (tid / 4)
                (λ b below. gemv_block-AllFit row b (2 * (tid % 4)) r below (omega arith)))
              (if_rule (AllFit room) (tid == 0) _ _ (λ _. (omega (arith, o, r), tt)) (λ _. tt))

  pub launch_quantize-WorkFits :
      (source out : Place) (blocks : ℕ)
      → blocks * 128 ≤ room source
      → (blocks * 36 ≤ room out) × (blocks * 36 < 2 ^ 31)
      → WorkFits room (launch_quantize source out blocks)
  unfolding quantize_q8
  launch_quantize-WorkFits source out blocks s o block thread b t =
      if_rule (AllFit room) (leb blocks (block * 32 + thread)) _ _ (λ e. tt)
        λ e. ground (arith, s, o)

  pub launch_repack-WorkFits :
      (blocks : ℕ)
      → blocks * 34 ≤ room raw
      → (blocks * 36 ≤ room activation) × (blocks * 36 < 2 ^ 31)
      → WorkFits room (launch_repack blocks)
  unfolding repack_activation
  launch_repack-WorkFits blocks r a block lane b t = ground (arith, r, a)

  module _ (vector out : Place) (rows blocks : ℕ) (g : rows * blocks * 34 ≤ room (matrix 0))
      (u : rows * blocks * 34 ≤ room (matrix 1))
      (v : (blocks * 36 ≤ room vector) × (blocks * 36 < 2 ^ 31)) (o : rows * 4 ≤ room out) where
    silu_block-AllFit :
        (row block word : ℕ)
        → row < rows
        → block < blocks
        → word ≤ 28
        → AllFit room (silu_block vector row blocks block word)
    silu_block-AllFit row block word r b k =
        let inside = block_room rows blocks row block r b in
        rw
          (
            int_offset_lem (block * 34) (omega (arith, v.1, b)),
            int_offset_lem (block * 36) (omega (arith, v.1, b)),
          )
          (omega (arith, inside, g, u, v.0, b, k))

    silu_one_warp-AllFit :
        (row lane : ℕ) → row < rows → AllFit room (silu_one_warp vector out rows blocks row lane)
    unfolding silu_one_warp
    silu_one_warp-AllFit row lane r =
        if_rule (AllFit room) (leb rows row) _ _ (λ e. tt)
          λ e.
            AllFit-append room
              (if ltb lane 8
                then each_block (λ block. silu_block vector row blocks block (lane * 4)) blocks 1
                    blocks 0
                else [])
              (if lane == 0 then at out (row * 4) 4 ∷ [] else [])
              (if_rule (AllFit room) (ltb lane 8) _ _
                (λ l.
                  each_block-AllFit (λ block. silu_block vector row blocks block (lane * 4)) blocks
                    blocks 1 0
                    (λ b below.
                      silu_block-AllFit row b (lane * 4) r below (omega (arith, ltb→lt lane 8 l))))
                (λ _. tt))
              (if_rule (AllFit room) (lane == 0) _ _ (λ _. (omega (arith, o, r), tt)) (λ _. tt))

    silu_four_warp-AllFit :
        (row tid : ℕ) → row < rows → AllFit room (silu_four_warp vector out rows blocks row tid)
    unfolding silu_four_warp
    silu_four_warp-AllFit row tid r =
        let body : ℕ → List Access = λ block.
          silu_block vector row blocks block (tid % 4 * 2 * 4)
          ++ silu_block vector row blocks block ((tid % 4 * 2 + 1) * 4) in
        if_rule (AllFit room) (leb rows row) _ _ (λ e. tt)
          λ e.
            AllFit-append room (each_block body blocks 32 blocks (tid / 32 * 8 + tid % 32 / 4))
              (if tid == 0 then at out (row * 4) 4 ∷ [] else [])
              (each_block-AllFit body blocks blocks 32 (tid / 32 * 8 + tid % 32 / 4) (λ b below.
                AllFit-append room (silu_block vector row blocks b (tid % 4 * 2 * 4))
                  (silu_block vector row blocks b ((tid % 4 * 2 + 1) * 4))
                  (silu_block-AllFit row b (tid % 4 * 2 * 4) r below (omega arith))
                  (silu_block-AllFit row b ((tid % 4 * 2 + 1) * 4) r below (omega arith))))
              (if_rule (AllFit room) (tid == 0) _ _ (λ _. (omega (arith, o, r), tt)) (λ _. tt))

    pub launch_silu_product-WorkFits : WorkFits room (launch_silu_product vector out rows blocks)
    unfolding launch_silu_product
    launch_silu_product-WorkFits =
        if_rule (WorkFits room) (ltb blocks 32) _ _
          (λ _. λ row lane r _. silu_one_warp-AllFit row lane r)
          (λ _. λ row tid r _. silu_four_warp-AllFit row tid r)
