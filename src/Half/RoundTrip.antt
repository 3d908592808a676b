-- ===== src/Half/RoundTrip.antt =====
-- Every half survives the way through a float.
use fortai.Prelude.{
  ℕ, zero, suc, ◌+◌, ◌*◌, ◌/◌, ◌%◌, ◌^◌, ◌≤◌, ◌<◌, ◌≡◌, refl, Bool, true, ◌&&◌, ◌==◌, arith, ==_iff,
  Bool-cases, inl, inr,
}
use mathlib.Core.Path.{subst}
use fortai.Half.Rounding.{normal_case}
use fortai.Half.{normalize, round_shift, half_to_float, float_to_half}

-- The check, evaluated at each number under a bound.
passes_under : (ℕ → Bool) → ℕ → Bool
passes_under check zero = true
passes_under check (suc bound) = check bound && passes_under check bound

passes_under_lem :
    (check : ℕ → Bool) (bound v : ℕ) → v < bound → passes_under check bound ≡ true → check v ≡ true
unfolding passes_under
passes_under_lem check zero v below passed = absurd (omega arith)
passes_under_lem check (suc bound) v below passed = ground (arith, passes_under_lem check bound v)

survives : ℕ → Bool
unfolding half_to_float float_to_half normalize
survives v = float_to_half (half_to_float v) == v

-- The halves with exponent 0, of both signs.
small_table : passes_under (λ f. survives f && survives (0x8000 + f)) 1024 ≡ true
unfolding passes_under survives round_shift
small_table = refl

and_split : (a b : Bool) → (a && b) ≡ true → (a ≡ true) × (b ≡ true)
and_split a b h = ground arith

in_table : (f : ℕ) → f < 1024 → (survives f ≡ true) × (survives (0x8000 + f) ≡ true)
in_table f hf =
    and_split (survives f) (survives (0x8000 + f))
      (passes_under_lem (λ f. survives f && survives (0x8000 + f)) 1024 f hf small_table)

survives_eq : (v : ℕ) → survives v ≡ true → float_to_half (half_to_float v) ≡ v
unfolding survives
survives_eq v h = (==_iff (float_to_half (half_to_float v)) v).0 h

at_zero :
    (f : ℕ)
    → float_to_half (half_to_float f) ≡ f
    → float_to_half (half_to_float (0 * 2 ^ 15 + f)) ≡ 0 * 2 ^ 15 + f
at_zero f h = subst (λ w. float_to_half (half_to_float w) ≡ w) (no_sign f) h
  where
    no_sign : (f : ℕ) → f ≡ 0 * 2 ^ 15 + f
    no_sign f = omega arith

half_of_table :
    (s f : ℕ) → s < 2 → f < 1024 → float_to_half (half_to_float (s * 2 ^ 15 + f)) ≡ s * 2 ^ 15 + f
half_of_table zero f hs hf = at_zero f (survives_eq f (in_table f hf).0)
half_of_table (suc zero) f hs hf = survives_eq (0x8000 + f) (in_table f hf).1
half_of_table (suc (suc s)) f hs hf = absurd (omega arith)

round_shift_exact : (f : ℕ) → round_shift (f * 2 ^ 13) 13 ≡ f
unfolding round_shift
round_shift_exact f = ground arith

widened :
    (s e f : ℕ)
    → s < 2
    → 1 ≤ e
    → e < 31
    → f < 2 ^ 10
    → half_to_float (s * 2 ^ 15 + e * 2 ^ 10 + f) ≡ s * 2 ^ 31 + (e + 112) * 2 ^ 23 + f * 2 ^ 13
unfolding half_to_float
widened s e f hs lo hi hf = ground arith

half_of_infinity :
    (s f : ℕ)
    → s < 2
    → f < 2 ^ 10
    → float_to_half (half_to_float (s * 2 ^ 15 + 31 * 2 ^ 10 + f)) ≡ s * 2 ^ 15 + 31 * 2 ^ 10 + f
unfolding half_to_float float_to_half
half_of_infinity s f hs hf = ground arith

half_of_normal :
    (s e f : ℕ)
    → s < 2
    → 1 ≤ e
    → e < 31
    → f < 2 ^ 10
    → float_to_half (half_to_float (s * 2 ^ 15 + e * 2 ^ 10 + f)) ≡ s * 2 ^ 15 + e * 2 ^ 10 + f
half_of_normal s e f hs lo hi hf =
    rw
      (
        widened s e f hs lo hi hf,
        normal_case s (e + 112) (f * 2 ^ 13) hs (omega arith) (omega arith) (omega arith),
        round_shift_exact f,
      )
      (omega arith)

no_exponent : (s e f : ℕ) → e ≡ 0 → s * 2 ^ 15 + f ≡ s * 2 ^ 15 + e * 2 ^ 10 + f
no_exponent s e f h = omega arith

half_of_fields :
    (s e f : ℕ)
    → s < 2
    → e < 32
    → f < 2 ^ 10
    → float_to_half (half_to_float (s * 2 ^ 15 + e * 2 ^ 10 + f)) ≡ s * 2 ^ 15 + e * 2 ^ 10 + f
half_of_fields s e f hs he hf = elim (Bool-cases (e == 0)) [
  | inl h ↦
      subst (λ w. float_to_half (half_to_float w) ≡ w) (no_exponent s e f ((==_iff e 0).0 h))
        (half_of_table s f hs hf)
  | inr h ↦ elim (Bool-cases (e == 31)) [
    | inl k ↦ rw ((==_iff e 31).0 k) (half_of_infinity s f hs hf)
    | inr k ↦ half_of_normal s e f hs (ground arith) (ground arith) hf
  ]
]

-- Every half, the NaNs and the subnormal ones included, is what `float_to_half` makes of the float
-- that `half_to_float` makes of it.
pub float_to_half-half_to_float : (v : ℕ) → v < 2 ^ 16 → float_to_half (half_to_float v) ≡ v
float_to_half-half_to_float v h =
    subst (λ w. float_to_half (half_to_float w) ≡ w) (fields v)
      (half_of_fields (v / 2 ^ 15) (v / 2 ^ 10 % 32) (v % 2 ^ 10) (omega arith) (omega arith)
        (omega arith))
  where
    fields : (v : ℕ) → v / 2 ^ 15 * 2 ^ 15 + v / 2 ^ 10 % 32 * 2 ^ 10 + v % 2 ^ 10 ≡ v
    fields v = omega arith
