-- ===== src/Gpu/Products/Bounds.antt =====
-- The work that a product queues stays inside the buffers.
use fortai.Prelude.{
  ℕ, ◌*◌, ◌^◌, ◌<◌, ◌≤◌, ◌≡◌, ◌⊎◌, inl, inr, refl, Bool, true, false, not, ◌||◌, List, ltb, ◌==◌,
  if_rule, arith,
}
use fortai.Gpu.Scratch.{Scratch, ensure_device_matvec}
use fortai.Gpu.Access.{Step, AllWorkFits, AllStepsFit, chain-AllWorkFits}
use fortai.Gpu.Products.{
  Weights, Queued, Reserves, queue, refuse, reserve_host, reserve_ffn, matvec_resident,
  matvec_device_f32, matvec_device_f32_pair, matvec_host, ffn_host, ffn_device, resident_steps,
  device_steps, pair_steps, host_steps, are_ffn, are_valid, ffn_host_steps, ffn_device_steps,
}
use fortai.Gpu.Products.Fits.{
  resident_steps-AllStepsFit, host_steps-AllStepsFit, device_steps-AllStepsFit,
  pair_steps-AllStepsFit, ffn_host_steps-AllStepsFit, ffn_device_steps-AllStepsFit,
}
use fortai.Gpu.Products.Calls.{
  Product, resident, device, pair, host, host_of_ffn, device_of_ffn, call, room,
}
use fortai.Gpu.Products.Reserved.{IsSound, reserve_host_lem, reserve_device_lem, reserve_ffn_lem}

-- A row of the matrix has fewer than 2^31 / 36 blocks, so that the int offsets of the kernels do not
-- wrap around.
abbrev IsNarrow : Weights → Type 0
IsNarrow w = w.blocks * 36 < 2 ^ 31

-- the rows of the matrices of a product
abbrev pub AllNarrow : Product → Type 0
AllNarrow (resident w) = IsNarrow w
AllNarrow (device w n m) = IsNarrow w
AllNarrow (pair v w n m k) = IsNarrow v
AllNarrow (host w n m) = IsNarrow w
AllNarrow (host_of_ffn gate up down n m) = IsNarrow gate × IsNarrow down
AllNarrow (device_of_ffn gate up down n m) = IsNarrow gate × IsNarrow down

abbrev Fits : Product → Queued → Type 0
Fits p q = AllWorkFits (room p q.scratch) q.work

refuse-Fits : (p : Product) (s : Scratch) → Fits p (refuse s)
unfolding refuse
refuse-Fits p s = tt

queue-Fits :
    (p : Product) (succeeds : ℕ → Bool) (reserved : Scratch × Bool) (steps : List Step)
    → (reserved.1 ≡ false) ⊎ AllStepsFit (room p reserved.0) steps
    → Fits p (queue succeeds reserved steps)
unfolding queue
queue-Fits p succeeds (s, false) steps f = tt
queue-Fits p succeeds (s, true) steps (inl e) = absurd (ground arith)
queue-Fits p succeeds (s, true) steps (inr f) = chain-AllWorkFits (room p s) succeeds 0 steps f

module _ (o : Reserves) (succeeds : ℕ → Bool) (s : Scratch) (present : Bool)
    (sound : IsSound s) where
  resident-Fits :
      (w : Weights) → IsNarrow w → Fits (resident w) (matvec_resident o succeeds s present w)
  unfolding matvec_resident
  resident-Fits w small =
      let p = resident w in
      let reserved = reserve_host o s (w.blocks * 34) (w.rows * 4) in
      if_rule (Fits p) (not present || not w.same_context) _ _ (λ _. refuse-Fits p s)
        λ _.
          queue-Fits p succeeds reserved (resident_steps w)
            (elim (reserve_host_lem o s w.blocks (w.rows * 4) sound) [
              | inl failed ↦ inl failed
              | inr (r, a, t) ↦ inr (
                  resident_steps-AllStepsFit (room p reserved.0) w (omega arith) (a, small)
                    (omega arith) r (omega arith))
            ])

  host-Fits :
      (w : Weights) (n m : ℕ)
      → IsNarrow w
      → Fits (host w n m) (matvec_host o succeeds s present w n m)
  unfolding matvec_host
  host-Fits w n m small =
      let p = host w n m in
      let reserved = reserve_host o s (w.blocks * 34) (w.rows * 4) in
      if_rule (Fits p) (not present || not w.same_context || not (are_valid w n m)) _ _
        (λ _. refuse-Fits p s)
        λ e.
          queue-Fits p succeeds reserved (host_steps w)
            (elim (reserve_host_lem o s w.blocks (w.rows * 4) sound) [
              | inl failed ↦ inl failed
              | inr (r, a, t) ↦
                  let (i, k) : (w.blocks * 34 ≤ n) × (w.rows * 4 ≤ m) = ground arith in
                  inr
                    (host_steps-AllStepsFit (room p reserved.0) w (omega arith) (a, small) i r t k)
            ])

  device-Fits :
      (w : Weights) (n m : ℕ)
      → IsNarrow w
      → Fits (device w n m) (matvec_device_f32 o succeeds s present w n m)
  unfolding matvec_device_f32
  device-Fits w n m small =
      let p = device w n m in
      let reserved = ensure_device_matvec o.for_activation s n in
      if_rule (Fits p)
        (not present || not w.same_context || not (n == w.blocks * 32) || ltb m w.rows) _ _
        (λ _. refuse-Fits p s)
        λ e.
          let (i, k) : (n ≡ w.blocks * 32) × (w.rows ≤ m) = ground arith in
          queue-Fits p succeeds reserved (device_steps w)
            (elim (reserve_device_lem o.for_activation s w.blocks n i sound) [
              | inl failed ↦ inl failed
              | inr a ↦ inr (
                  device_steps-AllStepsFit (room p reserved.0) w (omega arith) (a, small)
                    (omega (arith, i)) (omega (arith, k)))
            ])

  pair-Fits :
      (v w : Weights) (n m k : ℕ)
      → IsNarrow v
      → Fits (pair v w n m k) (matvec_device_f32_pair o succeeds s present v w n m k)
  unfolding matvec_device_f32_pair
  pair-Fits v w n m k small =
      let p = pair v w n m k in
      let reserved = ensure_device_matvec o.for_activation s n in
      if_rule (Fits p)
        (not present
          || not v.same_context
          || not w.same_context
          || not (n == v.blocks * 32)
          || not (v.blocks == w.blocks)
          || ltb m v.rows
          || ltb k w.rows)
        _ _ (λ _. refuse-Fits p s)
        λ e.
          let (i, same, t, u) : (n ≡ v.blocks * 32)
              × (v.blocks ≡ w.blocks)
              × (v.rows ≤ m)
              × (w.rows ≤ k) =
            ground arith in
          queue-Fits p succeeds reserved (pair_steps v w)
            (elim (reserve_device_lem o.for_activation s v.blocks n i sound) [
              | inl failed ↦ inl failed
              | inr a ↦ inr (
                  pair_steps-AllStepsFit (room p reserved.0) v (omega arith) (a, small) w same
                    (omega arith) (omega (arith, i)) (omega (arith, t)) (omega (arith, u)))
            ])

  module _ (gate up down : Weights) (n m : ℕ) (narrow : IsNarrow gate × IsNarrow down) where
    abbrev IsFfn : Type 0
    IsFfn = (gate.rows * gate.blocks ≡ up.rows * up.blocks) × (gate.rows ≡ down.blocks * 32)

    ffn_shape : are_ffn gate up down ≡ true → IsFfn
    ffn_shape e =
        let (b, r, j) : (gate.blocks ≡ up.blocks)
            × (gate.rows ≡ up.rows)
            × (gate.rows ≡ down.blocks * 32) =
          ground arith in
        (rw (b, r) refl, j)

    ffn_host-Fits :
        Fits (host_of_ffn gate up down n m) (ffn_host o succeeds s present gate up down n m)
    unfolding ffn_host
    ffn_host-Fits =
        let p = host_of_ffn gate up down n m in
        let reserved = reserve_ffn o s gate down in
        if_rule (Fits p)
          (not present
            || not (are_ffn gate up down)
            || ltb n (gate.blocks * 34)
            || ltb m (down.rows * 4))
          _ _ (λ _. refuse-Fits p s)
          λ e.
            let (shaped, i, t) : (are_ffn gate up down ≡ true)
                × (gate.blocks * 34 ≤ n)
                × (down.rows * 4 ≤ m) =
              ground arith in
            let (same, joined) = ffn_shape shaped in
            queue-Fits p succeeds reserved (ffn_host_steps gate up down)
              (elim (reserve_ffn_lem o s gate down sound) [
                | inl failed ↦ inl failed
                | inr (r, a, b, g, d) ↦ inr (
                    ffn_host_steps-AllStepsFit (room p reserved.0) gate up down same joined
                      (omega arith) (omega arith) (omega arith) (a, narrow.0) (b, narrow.1) g i r d
                      t)
              ])

    ffn_device-Fits :
        Fits (device_of_ffn gate up down n m) (ffn_device o succeeds s present gate up down n m)
    unfolding ffn_device
    ffn_device-Fits =
        let p = device_of_ffn gate up down n m in
        let reserved = reserve_ffn o s gate down in
        if_rule (Fits p)
          (not present
            || not (are_ffn gate up down)
            || not (n == gate.blocks * 32)
            || ltb m down.rows)
          _ _ (λ _. refuse-Fits p s)
          λ e.
            let (shaped, i, t) : (are_ffn gate up down ≡ true)
                × (n ≡ gate.blocks * 32)
                × (down.rows ≤ m) =
              ground arith in
            let (same, joined) = ffn_shape shaped in
            queue-Fits p succeeds reserved (ffn_device_steps gate up down)
              (elim (reserve_ffn_lem o s gate down sound) [
                | inl failed ↦ inl failed
                | inr (r, a, b, g, d) ↦ inr (
                    ffn_device_steps-AllStepsFit (room p reserved.0) gate up down same joined
                      (omega arith) (omega arith) (omega arith) (a, narrow.0) (b, narrow.1) g
                      (omega (arith, i)) (omega (arith, t)))
              ])

-- A product is called with any pointers and sizes, in a context in which no allocation of its scratch
-- has failed before. The matrices have the bytes of their rows, and the buffers of the caller those
-- that the call says; of the resident product, those of the matrix. A row has fewer than 2^31 / 36
-- blocks, so that the int offsets of the kernels do not wrap around. Whatever CUDA returns: every
-- thread of every kernel that is queued, and every copy, reads and writes only inside the matrices,
-- the scratch buffers, the activation and the outputs.
pub call-AllWorkFits :
    (o : Reserves) (succeeds : ℕ → Bool) (s : Scratch) (present : Bool) (p : Product)
    → IsSound s
    → AllNarrow p
    → AllWorkFits (room p (call o succeeds s present p).scratch) (call o succeeds s present p).work
unfolding call
call-AllWorkFits o succeeds s present (resident w) v small =
    resident-Fits o succeeds s present v w small
call-AllWorkFits o succeeds s present (device w n m) v small =
    device-Fits o succeeds s present v w n m small
call-AllWorkFits o succeeds s present (pair u w n m k) v small =
    pair-Fits o succeeds s present v u w n m k small
call-AllWorkFits o succeeds s present (host w n m) v small =
    host-Fits o succeeds s present v w n m small
call-AllWorkFits o succeeds s present (host_of_ffn gate up down n m) v small =
    ffn_host-Fits o succeeds s present v gate up down n m small
call-AllWorkFits o succeeds s present (device_of_ffn gate up down n m) v small =
    ffn_device-Fits o succeeds s present v gate up down n m small
