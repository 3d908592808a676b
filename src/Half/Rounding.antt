-- ===== src/Half/Rounding.antt =====
-- `float_to_half` rounds to the nearest half, to even on a tie.
use fortai.Prelude.{ℕ, ◌+◌, ◌-◌, ◌*◌, ◌/◌, ◌%◌, ◌^◌, ◌≤◌, ◌<◌, ◌≡◌, arith}
use fortai.Half.{round_shift, float_to_half}

round_shift_13 :
    (n : ℕ)
    → (round_shift n 13 * 8192 ≤ n + 4096)
      × (n ≤ round_shift n 13 * 8192 + 4096)
      × (n % 8192 ≡ 4096 → round_shift n 13 % 2 ≡ 0)
unfolding round_shift
round_shift_13 n = ground arith

sign_field :
    (s e f : ℕ) → s < 2 → e < 256 → f < 2 ^ 23 → (s * 2 ^ 31 + e * 2 ^ 23 + f) / 2 ^ 31 % 2 ≡ s
sign_field s e f hs he hf = omega arith

exponent_field :
    (s e f : ℕ) → s < 2 → e < 256 → f < 2 ^ 23 → (s * 2 ^ 31 + e * 2 ^ 23 + f) / 2 ^ 23 % 256 ≡ e
exponent_field s e f hs he hf = omega arith

fraction_field :
    (s e f : ℕ) → s < 2 → e < 256 → f < 2 ^ 23 → (s * 2 ^ 31 + e * 2 ^ 23 + f) % 2 ^ 23 ≡ f
fraction_field s e f hs he hf = omega arith

-- `float_to_half` on the fields of a float whose half is normal or infinite.
pub normal_case :
    (s e f : ℕ)
    → s < 2
    → 113 ≤ e
    → e ≤ 142
    → f < 2 ^ 23
    → float_to_half (s * 2 ^ 31 + e * 2 ^ 23 + f)
      ≡ s * 2 ^ 15 + ((e - 112) * 1024 + round_shift f 13)
unfolding float_to_half
normal_case s e f hs lo hi hf =
    rw
      (
        sign_field s e f hs (omega arith) hf,
        exponent_field s e f hs (omega arith) hf,
        fraction_field s e f hs (omega arith) hf,
      )
      (ground (arith, round_shift_13 f))

-- A float s * 2^31 + e * 2^23 + f whose magnitude is at least 2^-14 (e = 113) and below 2^16 (e =
-- 142) becomes the half of the same sign whose magnitude h, seen as a float with 13 more bits of
-- fraction, is nearest to it; on a tie the last bit of h is 0. A magnitude that rounds up past the
-- largest half becomes 31 * 2^10, infinity.
pub float_to_half-nearest :
    (s e f : ℕ)
    → s < 2
    → 113 ≤ e
    → e ≤ 142
    → f < 2 ^ 23
    → (h : ℕ) × (float_to_half (s * 2 ^ 31 + e * 2 ^ 23 + f) ≡ s * 2 ^ 15 + h)
      × (h * 2 ^ 13 ≤ (e - 112) * 2 ^ 23 + f + 2 ^ 12)
      × ((e - 112) * 2 ^ 23 + f ≤ h * 2 ^ 13 + 2 ^ 12)
      × (f % 2 ^ 13 ≡ 2 ^ 12 → h % 2 ≡ 0)
float_to_half-nearest s e f hs lo hi hf =
    let r = round_shift_13 f in
    (
      (e - 112) * 1024 + round_shift f 13,
      normal_case s e f hs lo hi hf,
      omega (arith, r.0, r.1),
      omega (arith, r.0, r.1),
      λ t. omega (arith, r.2 t),
    )
