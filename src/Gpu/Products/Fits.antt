-- ===== src/Gpu/Products/Fits.antt =====
-- The steps of each product stay inside places that are large enough.
use fortai.Prelude.{ℕ, ◌*◌, ◌^◌, ◌≤◌, ◌<◌, ◌≡◌, arith}
use fortai.Gpu.Access.{
  Place, raw, activation, output, input, matrix, target, AllStepsFit, copy_all-WorkFits,
  event-WorkFits,
}
use fortai.Gpu.Access.Bounds.{
  launch_q8-WorkFits, launch_quantize-WorkFits, launch_repack-WorkFits,
  launch_silu_product-WorkFits,
}
use fortai.Gpu.Products.{
  Weights, resident_steps, device_steps, pair_steps, host_steps, ffn_host_steps, ffn_device_steps,
}

-- the bytes of a matrix, as it is uploaded
abbrev pub bytes_of : Weights → ℕ
bytes_of w = w.rows * w.blocks * 34

module _ (R : Place → ℕ) (w : Weights) (m : bytes_of w ≤ R (matrix 0))
    (a : (w.blocks * 36 ≤ R activation) × (w.blocks * 36 < 2 ^ 31)) where
  pub resident_steps-AllStepsFit :
      w.blocks * 34 ≤ R input
      → w.blocks * 34 ≤ R raw
      → w.rows * 4 ≤ R (target 0)
      → AllStepsFit R (resident_steps w)
  resident_steps-AllStepsFit i r t = (
    copy_all-WorkFits R input raw (w.blocks * 34) i r,
    (
      launch_repack-WorkFits R w.blocks r a,
      (
        event-WorkFits R,
        (
          launch_q8-WorkFits R (matrix 0) activation (target 0) 0 w.rows w.blocks m a
              (omega (arith, t)),
          (event-WorkFits R, (event-WorkFits R, (event-WorkFits R, tt))),
        ),
      ),
    ),
  )

  pub host_steps-AllStepsFit :
      w.blocks * 34 ≤ R input
      → w.blocks * 34 ≤ R raw
      → w.rows * 4 ≤ R output
      → w.rows * 4 ≤ R (target 0)
      → AllStepsFit R (host_steps w)
  host_steps-AllStepsFit i r o t = (
    event-WorkFits R,
    (
      copy_all-WorkFits R input raw (w.blocks * 34) i r,
      (
        launch_repack-WorkFits R w.blocks r a,
        (
          launch_q8-WorkFits R (matrix 0) activation output 0 w.rows w.blocks m a
              (omega (arith, o)),
          (
            copy_all-WorkFits R output (target 0) (w.rows * 4) o t,
            (event-WorkFits R, (event-WorkFits R, (event-WorkFits R, tt))),
          ),
        ),
      ),
    ),
  )

  pub device_steps-AllStepsFit :
      w.blocks * 128 ≤ R input → w.rows * 4 ≤ R (target 0) → AllStepsFit R (device_steps w)
  device_steps-AllStepsFit i t = (
    launch_quantize-WorkFits R input activation w.blocks i a,
    (
      launch_q8-WorkFits R (matrix 0) activation (target 0) 0 w.rows w.blocks m a
          (omega (arith, t)),
      tt,
    ),
  )

  pub pair_steps-AllStepsFit :
      (u : Weights)
      → w.blocks ≡ u.blocks
      → bytes_of u ≤ R (matrix 1)
      → w.blocks * 128 ≤ R input
      → w.rows * 4 ≤ R (target 0)
      → u.rows * 4 ≤ R (target 1)
      → AllStepsFit R (pair_steps w u)
  pair_steps-AllStepsFit u same n i t k =
      let second : (u.blocks * 36 ≤ R activation) × (u.blocks * 36 < 2 ^ 31) = rw (← same) a in
      (
        launch_quantize-WorkFits R input activation w.blocks i a,
        (
          launch_q8-WorkFits R (matrix 0) activation (target 0) 0 w.rows w.blocks m a
              (omega (arith, t)),
          (
            launch_q8-WorkFits R (matrix 1) activation (target 1) 0 u.rows u.blocks n second
                (omega (arith, k)),
            tt,
          ),
        ),
      )

-- The FFN: `gate` and `up` have the same shape, and the rows of `gate` are the columns of `down`.
module _ (R : Place → ℕ) (gate up down : Weights)
    (same : gate.rows * gate.blocks ≡ up.rows * up.blocks) (joined : gate.rows ≡ down.blocks * 32)
    (g : bytes_of gate ≤ R (matrix 0)) (u : bytes_of up ≤ R (matrix 1))
    (d : bytes_of down ≤ R (matrix 2))
    (a : (gate.blocks * 36 ≤ R activation) × (gate.blocks * 36 < 2 ^ 31))
    (b : (down.blocks * 36 ≤ R activation) × (down.blocks * 36 < 2 ^ 31))
    (o : gate.rows * 4 ≤ R output) where
  up_room : gate.rows * gate.blocks * 34 ≤ R (matrix 1)
  up_room = omega (arith, same, u)

  pub ffn_host_steps-AllStepsFit :
      gate.blocks * 34 ≤ R input
      → gate.blocks * 34 ≤ R raw
      → down.rows * 4 ≤ R output
      → down.rows * 4 ≤ R (target 0)
      → AllStepsFit R (ffn_host_steps gate up down)
  ffn_host_steps-AllStepsFit i r p t = (
    event-WorkFits R,
    (
      copy_all-WorkFits R input raw (gate.blocks * 34) i r,
      (
        launch_repack-WorkFits R gate.blocks r a,
        (
          launch_silu_product-WorkFits R activation output gate.rows gate.blocks g up_room a o,
          (
            launch_quantize-WorkFits R output activation down.blocks (omega (arith, joined, o)) b,
            (
              launch_q8-WorkFits R (matrix 2) activation output 0 down.rows down.blocks d b
                  (omega (arith, p)),
              (
                copy_all-WorkFits R output (target 0) (down.rows * 4) p t,
                (event-WorkFits R, (event-WorkFits R, (event-WorkFits R, tt))),
              ),
            ),
          ),
        ),
      ),
    ),
  )

  pub ffn_device_steps-AllStepsFit :
      gate.blocks * 128 ≤ R input
      → down.rows * 4 ≤ R (target 0)
      → AllStepsFit R (ffn_device_steps gate up down)
  ffn_device_steps-AllStepsFit i t = (
    launch_quantize-WorkFits R input activation gate.blocks i a,
    (
      launch_silu_product-WorkFits R activation output gate.rows gate.blocks g up_room a o,
      (
        launch_quantize-WorkFits R output activation down.blocks (omega (arith, joined, o)) b,
        (
          launch_q8-WorkFits R (matrix 2) activation (target 0) 0 down.rows down.blocks d b
              (omega (arith, t)),
          tt,
        ),
      ),
    ),
  )
