-- ===== src/Half/Tests.antt =====
-- Tests of the conversions, and uses of their theorems.
use fortai.Prelude.{ℕ, ◌+◌, ◌-◌, ◌*◌, ◌%◌, ◌^◌, ◌≤◌, ◌≡◌, refl, arith}
use fortai.Half.{half_to_float, float_to_half, round_shift, normalize}
use fortai.Half.Rounding.{float_to_half-nearest}
use fortai.Half.RoundTrip.{float_to_half-half_to_float}

-- 1.0, and the least subnormal half
one_to_float : half_to_float 0x3c00 ≡ 0x3f80_0000
unfolding half_to_float
one_to_float = refl

least_to_float : half_to_float 1 ≡ 0x3380_0000
unfolding half_to_float normalize
least_to_float = refl

-- a tie, which goes to the even half
tie_to_half : float_to_half (127 * 2 ^ 23 + 3 * 2 ^ 12) ≡ 0x3c02
unfolding float_to_half round_shift
tie_to_half = refl

nearest_example :
    (h : ℕ) × (float_to_half (1 * 2 ^ 31 + 127 * 2 ^ 23 + 3 * 2 ^ 12) ≡ 1 * 2 ^ 15 + h)
    × (h * 2 ^ 13 ≤ (127 - 112) * 2 ^ 23 + 3 * 2 ^ 12 + 2 ^ 12)
    × ((127 - 112) * 2 ^ 23 + 3 * 2 ^ 12 ≤ h * 2 ^ 13 + 2 ^ 12)
    × (3 * 2 ^ 12 % 2 ^ 13 ≡ 2 ^ 12 → h % 2 ≡ 0)
nearest_example =
    float_to_half-nearest 1 127 (3 * 2 ^ 12) (omega arith) (omega arith) (omega arith) (omega arith)

-- a NaN with a payload
round_trip_example : float_to_half (half_to_float 0xfe37) ≡ 0xfe37
round_trip_example = float_to_half-half_to_float 0xfe37 (omega arith)
