-- ===== src/Llama/Argmax.antt =====
-- `fortai_argmax_f32` finds the first maximum.
use fortai.Prelude.{
  ℕ, zero, suc, ◌+◌, ◌-◌, ◌<◌, ◌≡◌, Bool, true, false, arith, sym, ◌⊎◌, Bool-cases, inl, inr,
}
use mathlib.Core.Path.{subst}
use fortai.Llama.{Api, argmax_loop, argmax}

-- The `>` of floats that are no NaNs.
pub record IsGreater {V : Type 0} (gt : V → V → Bool) : Type 0 where
  pub irreflexive : (a : V) → gt a a ≡ false
  pub not_above : (a b c : V) → gt a b ≡ false → gt c b ≡ true → gt a c ≡ false
  -- what is above `b` is above what is not above `b`
  pub above : (a b c : V) → gt a b ≡ true → gt c b ≡ false → gt a c ≡ true

-- No value before `i` is greater than that of `best`, and those before `best` are less.
pub record IsFirst {V : Type 0} (gt : V → V → Bool) (values : ℕ → V) (i best : ℕ) : Type 0 where
  pub below : best < i
  pub greatest : (j : ℕ) → j < i → gt (values j) (values best) ≡ false
  pub first : (j : ℕ) → j < best → gt (values best) (values j) ≡ true

plus_zero : (i : ℕ) → i ≡ i + 0
plus_zero i = omega arith

plus_suc : (i fuel : ℕ) → (i + 1) + fuel ≡ i + suc fuel
plus_suc i fuel = omega arith

at_most : (j i : ℕ) → j < i + 1 → (j < i) ⊎ (j ≡ i)
at_most j i l = omega arith

module _ {C V : Type 0} (api : Api C V) (g : IsGreater api.gt) (values : ℕ → V) where
  keep :
      (i best : ℕ)
      → api.gt (values i) (values best) ≡ false
      → IsFirst api.gt values i best
      → IsFirst api.gt values (i + 1) best
  keep i best e f = record {
    below = omega (arith, f.below);
    greatest = λ j l. elim (at_most j i l) [
      | inl k ↦ f.greatest j k
      | inr k ↦ subst (λ x. api.gt (values x) (values best) ≡ false) (sym k) e
    ];
    first = f.first;
  }

  replace :
      (i best : ℕ)
      → api.gt (values i) (values best) ≡ true
      → IsFirst api.gt values i best
      → IsFirst api.gt values (i + 1) i
  replace i best e f = record {
    below = omega arith;
    greatest = λ j l. elim (at_most j i l) [
      | inl k ↦ g.not_above (values j) (values best) (values i) (f.greatest j k) e
      | inr k ↦ subst (λ x. api.gt (values x) (values i) ≡ false) (sym k) (g.irreflexive (values i))
    ];
    first = λ j l. g.above (values i) (values best) (values j) e (f.greatest j l);
  }

  argmax_loop-IsFirst :
      (fuel i best : ℕ) (total : V)
      → IsFirst api.gt values i best
      → IsFirst api.gt values (i + fuel) (argmax_loop api values fuel i best (values best) total).0
  unfolding argmax_loop
  argmax_loop-IsFirst zero i best total f =
      subst (λ n. IsFirst api.gt values n best) (plus_zero i) f
  argmax_loop-IsFirst (suc fuel) i best total f =
      elim (Bool-cases (api.gt (values i) (values best))) [
        | inl e ↦ rw e (
            subst
              (λ n.
                IsFirst api.gt values n
                  (argmax_loop api values fuel (i + 1) i (values i) (api.add total (values i))).0)
              (plus_suc i fuel)
              (argmax_loop-IsFirst fuel (i + 1) i (api.add total (values i)) (replace i best e f)))
        | inr e ↦ rw e (
            subst
              (λ n.
                IsFirst api.gt values n
                  (argmax_loop api values fuel (i + 1) best (values best)
                    (api.add total (values i))).0)
              (plus_suc i fuel)
              (argmax_loop-IsFirst fuel (i + 1) best (api.add total (values i)) (keep i best e f)))
      ]

  start : IsFirst api.gt values 1 0
  start = record {
    below = omega arith;
    greatest = λ j l.
        subst (λ x. api.gt (values x) (values 0) ≡ false) (zero_of j l) (g.irreflexive (values 0));
    first = λ j l. absurd (omega arith);
  }
    where
      zero_of : (j : ℕ) → j < 1 → 0 ≡ j
      zero_of j l = omega arith

-- On floats that are no NaNs, `fortai_argmax_f32` returns the index of the greatest of the values,
-- and the first index if several are equal to it, for every count but 0.
pub argmax-IsFirst :
    {C V : Type 0} (api : Api C V) (values : ℕ → V) (count : ℕ)
    → IsGreater api.gt
    → 0 < count
    → IsFirst api.gt values count (argmax api values count).0
unfolding argmax
argmax-IsFirst api values count g h =
    subst
      (λ n.
        IsFirst api.gt values n (argmax_loop api values (count - 1) 1 0 (values 0) (values 0)).0)
      (all_of count h)
      (argmax_loop-IsFirst api g values (count - 1) 1 0 (values 0) (start api g values))
  where
    all_of : (count : ℕ) → 0 < count → 1 + (count - 1) ≡ count
    all_of count h = omega arith
