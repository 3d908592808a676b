-- ===== src/Half.antt =====
-- The binary16 conversions of src/backend/cpu/fortai_q8_dot.c: `half_to_float` and
-- `float_to_half`. A float is its 32 bits and a half its 16 bits, as numbers. A shift right is a
-- quotient and a mask of low bits a remainder; the fields that `|` joins are disjoint, so that it
-- is a sum.
pub mod RoundTrip
pub mod Rounding
pub mod Tests
use fortai.Prelude.{
  ℕ, zero, suc, ◌+◌, ◌-◌, ◌*◌, ◌/◌, ◌%◌, ◌^◌, Bool, true, false, ◌&&◌, ◌||◌, ltb, ◌==◌,
  if◌then◌else◌,
}

-- The loop of `half_to_float`: `normalized` and `shift` when bit 10 is set.
unfoldable pub normalize : ℕ → ℕ → ℕ → ℕ × ℕ
normalize zero normalized shift = (normalized, shift)
normalize (suc fuel) normalized shift =
    let later = normalize fuel (normalized * 2) (shift + 1) in
    if normalized / 0x400 % 2 == 0 then later else (normalized, shift)

-- `half_to_float`; ten doublings bring any fraction to bit 10.
unfoldable pub half_to_float : ℕ → ℕ
half_to_float value =
    let sign = value / 2 ^ 15 % 2 * 2 ^ 31 in
    let exponent = value / 2 ^ 10 % 32 in
    let fraction = value % 2 ^ 10 in
    if exponent == 0
    then (if fraction == 0
        then sign
        else let (normalized, shift) = normalize 10 fraction 0 in
          sign + (113 - shift) * 2 ^ 23 + normalized % 0x400 * 2 ^ 13)
    else if exponent == 0x1f
    then sign + 0x7f80_0000 + fraction * 2 ^ 13
    else sign + (exponent + 112) * 2 ^ 23 + fraction * 2 ^ 13

-- `fraction >> shift`, rounded to the nearest, to even on a tie: the three lines that both branches
-- of `float_to_half` write out. The bit `halfway` is `1 << (shift - 1)`.
unfoldable pub round_shift : ℕ → ℕ → ℕ
round_shift fraction shift =
    let rounded = fraction / 2 ^ shift in
    let remainder = fraction % 2 ^ shift in
    let halfway = 2 ^ (shift - 1) in
    if ltb halfway remainder || (remainder == halfway && rounded % 2 == 1)
    then rounded + 1
    else rounded

-- `float_to_half`. The exponents are compared before the bias is taken off.
unfoldable pub float_to_half : ℕ → ℕ
float_to_half bits =
    let sign = bits / 2 ^ 31 % 2 * 2 ^ 15 in
    let exponent_bits = bits / 2 ^ 23 % 256 in
    let fraction = bits % 2 ^ 23 in
    if exponent_bits == 0xff
    then (if fraction == 0
        then sign + 0x7c00
        else sign + 0x7c00 + (if fraction / 2 ^ 13 == 0 then 1 else fraction / 2 ^ 13))
    else if exponent_bits == 0
    then sign
    else if ltb exponent_bits (127 - 14)
    then (if ltb exponent_bits (127 - 25)
        then sign
        else sign + round_shift (fraction + 2 ^ 23) (126 - exponent_bits))
    else if ltb (127 + 15) exponent_bits
    then sign + 0x7c00
    else let rounded = round_shift fraction 13 in
      if rounded == 0x400
      then (if ltb (127 + 15) (exponent_bits + 1)
          then sign + 0x7c00
          else sign + (exponent_bits + 1 - 112) * 2 ^ 10)
      else sign + (exponent_bits - 112) * 2 ^ 10 + rounded
