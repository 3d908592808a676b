-- ===== src/Gpu/Products/Reserved.antt =====
-- The room that the scratch buffers of a product have once they are reserved.
use fortai.Prelude.{ℕ, ◌*◌, ◌≤◌, ◌≡◌, ◌⊎◌, false, Option, none, some, arith}
use fortai.Gpu.Scratch.{
  Outcome, Scratch, grow, grow_checked, ensure_host_matvec, ensure_device_matvec, ensure_aux,
  padded, activation_blocks,
}
use fortai.Gpu.Scratch.Grow.{IsFilled}
use fortai.Gpu.Products.{Weights, Reserves, reserve_host, reserve_ffn, max}

-- the bytes that a pointer has
abbrev pub held : Option ℕ → ℕ
held none = 0
held (some size) = size

-- The buffers of the products, as long as no allocation has failed: without a buffer the count is 0.
abbrev pub IsSound : Scratch → Type 0
IsSound s =
    IsFilled s.raw.size s.raw.bytes
    × IsFilled s.activation.size s.activation.bytes
    × IsFilled s.output.size s.output.bytes

grow-held :
    (o : Outcome) (size : Option ℕ) (count bytes : ℕ)
    → IsFilled size count
    → ((grow o (record { size = size; bytes = count }) bytes).1 ≡ false)
      ⊎ (bytes ≤ held (grow o (record { size = size; bytes = count }) bytes).0.size)
unfolding grow
grow-held o none count bytes v = ground arith
grow-held o (some size) count bytes v = ground arith

grow_checked-held :
    (o : Outcome) (size : Option ℕ) (count bytes : ℕ)
    → IsFilled size count
    → ((grow_checked o (record { size = size; bytes = count }) bytes).1 ≡ false)
      ⊎ (bytes ≤ held (grow_checked o (record { size = size; bytes = count }) bytes).0.size)
unfolding grow_checked
grow_checked-held o none count bytes v = ground arith
grow_checked-held o (some size) count bytes v = ground arith

-- what a product may rely on
abbrev pub HasRoom : Scratch → ℕ → ℕ → Type 0
HasRoom s blocks output_bytes =
    (blocks * 34 ≤ held s.raw.size)
    × (blocks * 36 ≤ held s.activation.size)
    × (output_bytes ≤ held s.output.size)

pub reserve_host_lem :
    (o : Reserves) (s : Scratch) (blocks output_bytes : ℕ)
    → IsSound s
    → ((reserve_host o s (blocks * 34) output_bytes).1 ≡ false)
      ⊎ HasRoom (reserve_host o s (blocks * 34) output_bytes).0 blocks output_bytes
unfolding ensure_host_matvec
reserve_host_lem o s blocks output_bytes v = ground (
  arith,
  grow-held o.for_raw s.raw.size s.raw.bytes (blocks * 34) v.0,
  grow-held o.for_activation s.activation.size s.activation.bytes (padded (blocks * 34)) v.1,
  grow-held o.for_output s.output.size s.output.bytes output_bytes v.2,
)

pub reserve_device_lem :
    (o : Outcome) (s : Scratch) (blocks elements : ℕ)
    → elements ≡ blocks * 32
    → IsSound s
    → ((ensure_device_matvec o s elements).1 ≡ false)
      ⊎ (blocks * 36 ≤ held (ensure_device_matvec o s elements).0.activation.size)
unfolding ensure_device_matvec
reserve_device_lem o s blocks elements e v = ground (
  arith,
  e,
  grow_checked-held o s.activation.size s.activation.bytes (activation_blocks elements * 36) v.1,
)

max_lem : (a b : ℕ) → max (a * 34) (b * 34) ≡ max a b * 34
max_lem a b = ground arith

-- what the FFN may rely on
abbrev pub HasFfnRoom : Scratch → Weights → Weights → Type 0
HasFfnRoom s gate down =
    (gate.blocks * 34 ≤ held s.raw.size)
    × (gate.blocks * 36 ≤ held s.activation.size)
    × (down.blocks * 36 ≤ held s.activation.size)
    × (gate.rows * 4 ≤ held s.output.size)
    × (down.rows * 4 ≤ held s.output.size)

host_ffn_lem :
    (o : Reserves) (s : Scratch) (gate down : Weights)
    → IsSound s
    → ((reserve_host o s
          (max (gate.blocks * 34) (down.blocks * 34))
          (max (gate.rows * 4) (down.rows * 4))).1
        ≡ false)
      ⊎ HasFfnRoom
          (reserve_host o s
            (max (gate.blocks * 34) (down.blocks * 34))
            (max (gate.rows * 4) (down.rows * 4))).0
          gate
          down
host_ffn_lem o s gate down v = rw (max_lem gate.blocks down.blocks) (
    ground (
      arith,
      reserve_host_lem o s (max gate.blocks down.blocks) (max (gate.rows * 4) (down.rows * 4)) v,
    ))

pub reserve_ffn_lem :
    (o : Reserves) (s : Scratch) (gate down : Weights)
    → IsSound s
    → ((reserve_ffn o s gate down).1 ≡ false) ⊎ HasFfnRoom (reserve_ffn o s gate down).0 gate down
unfolding reserve_ffn ensure_aux
reserve_ffn_lem o s gate down v = ground (arith, host_ffn_lem o s gate down v)
