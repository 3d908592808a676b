-- ===== src/Gpu/Products/Several.antt =====
-- The work of several products stays inside the buffers.
use fortai.Prelude.{
  ℕ, suc, ◌+◌, ◌*◌, ◌^◌, ◌<◌, ◌≤◌, ◌≡◌, ◌⊎◌, inl, inr, Bool, true, false, not, ◌&&◌, ◌||◌, List, [],
  ◌∷◌, ◌++◌, if_rule, arith,
}
use fortai.Gpu.Scratch.{Scratch}
use fortai.Gpu.Access.{
  Place, raw, activation, output, aux, input, matrix, target, at, copy, Step, check, AllWorkFits,
  AllStepsFit, AllStepsFit-append, copy-WorkFits, copy_all-WorkFits, event-WorkFits,
  chain-AllWorkFits,
}
use fortai.Gpu.Access.Bounds.{launch_q8-WorkFits, launch_repack-WorkFits}
use fortai.Gpu.Products.{Reserves, Queued, reserve_host, queue, refuse}
use fortai.Gpu.Products.Fits.{bytes_of}
use fortai.Gpu.Products.Many.{
  Request, accepts_all, total_bytes, largest_bytes, grouped, copies, one_by_one, before_products,
  after_products, is_fused, products, reserved_bytes, matvec_host_many,
}
use fortai.Gpu.Products.Reserved.{held, IsSound, reserve_host_lem}

-- The matrices of the requests and their outputs have the bytes that the requests say.
abbrev pub AllGiven : (Place → ℕ) → ℕ → List Request → Type 0
AllGiven R k [] = Unit {0}
AllGiven R k (r ∷ rs) =
    (bytes_of r.weights ≤ R (matrix k)) × (r.output_bytes ≤ R (target k)) × AllGiven R (suc k) rs

module _ (R : Place → ℕ) (blocks bytes : ℕ)
    (a : (blocks * 36 ≤ R activation) × (blocks * 36 < 2 ^ 31)) where
  -- what the loop over the requests has checked
  accepted_lem :
      (r : Request) (rs : List Request)
      → accepts_all blocks bytes (r ∷ rs) ≡ true
      → (r.weights.blocks ≡ blocks)
        × (r.weights.rows * 4 ≤ r.output_bytes)
        × (accepts_all blocks bytes rs ≡ true)
  unfolding accepts_all
  accepted_lem r rs e = ground arith

  grouped-AllStepsFit :
      (combined : Bool) (k offset : ℕ) (rs : List Request)
      → accepts_all blocks bytes rs ≡ true
      → AllGiven R k rs
      → offset + total_bytes rs ≤ R output
      → AllStepsFit R (grouped combined k offset rs)
  unfolding grouped total_bytes
  grouped-AllStepsFit combined k offset [] e g o = tt
  grouped-AllStepsFit combined k offset (r ∷ rs) e g o =
      let (same, enough, later) = accepted_lem r rs e in
      (
        launch_q8-WorkFits R (matrix k) activation output offset r.weights.rows r.weights.blocks g.0
            (rw (same) a) (omega (arith, o)),
        grouped-AllStepsFit combined (suc k) (offset + r.weights.rows * 4) rs later g.2
            (omega (arith, o)),
      )

  copies-AllStepsFit :
      (k offset : ℕ) (rs : List Request)
      → accepts_all blocks bytes rs ≡ true
      → AllGiven R k rs
      → offset + total_bytes rs ≤ R output
      → AllStepsFit R (copies k offset rs)
  unfolding copies total_bytes
  copies-AllStepsFit k offset [] e g o = tt
  copies-AllStepsFit k offset (r ∷ rs) e g o =
      let (same, enough, later) = accepted_lem r rs e in
      (
        copy-WorkFits R (at output offset (r.weights.rows * 4)) (target k) 0 (omega (arith, o))
            (omega (arith, enough, g.1)),
        copies-AllStepsFit (suc k) (offset + r.weights.rows * 4) rs later g.2 (omega (arith, o)),
      )

  one_by_one-AllStepsFit :
      (k : ℕ) (rs : List Request)
      → accepts_all blocks bytes rs ≡ true
      → AllGiven R k rs
      → largest_bytes rs ≤ R output
      → AllStepsFit R (one_by_one k rs)
  unfolding one_by_one largest_bytes
  one_by_one-AllStepsFit k [] e g o = tt
  one_by_one-AllStepsFit k (r ∷ rs) e g o =
      let (same, enough, later) = accepted_lem r rs e in
      let (mine, others) : (r.weights.rows * 4 ≤ R output) × (largest_bytes rs ≤ R output) =
        ground arith in
      (
        launch_q8-WorkFits R (matrix k) activation output 0 r.weights.rows r.weights.blocks g.0
            (rw (same) a) (omega (arith, mine)),
        (
          copy_all-WorkFits R output (target k) (r.weights.rows * 4) mine
              (omega (arith, enough, g.1)),
          one_by_one-AllStepsFit (suc k) rs later g.2 others,
        ),
      )

  -- a combined output is target 0, and has room for all
  products-AllStepsFit :
      (fused combined : Bool) (rs : List Request)
      → accepts_all blocks bytes rs ≡ true
      → AllGiven R 0 rs
      → (combined ≡ false) ⊎ (total_bytes rs ≤ R (target 0))
      → reserved_bytes fused rs ≤ R output
      → AllStepsFit R (products fused combined rs)
  unfolding products
  products-AllStepsFit false combined rs e g c o = one_by_one-AllStepsFit 0 rs e g o
  products-AllStepsFit true true rs e g c o =
      AllStepsFit-append R (grouped true 0 0 rs)
        (check (copy (at output 0 (total_bytes rs)) (target 0) 0) ∷ [])
        (grouped-AllStepsFit true 0 0 rs e g (omega (arith, o)))
        (copy_all-WorkFits R output (target 0) (total_bytes rs) o (ground (arith, c)), tt)
  products-AllStepsFit true false rs e g c o =
      AllStepsFit-append R (grouped false 0 0 rs) (copies 0 0 rs)
        (grouped-AllStepsFit false 0 0 rs e g (omega (arith, o)))
        (copies-AllStepsFit 0 0 rs e g (omega (arith, o)))

  many-AllStepsFit :
      (fused combined : Bool) (rs : List Request)
      → accepts_all blocks bytes rs ≡ true
      → AllGiven R 0 rs
      → (combined ≡ false) ⊎ (total_bytes rs ≤ R (target 0))
      → reserved_bytes fused rs ≤ R output
      → blocks * 34 ≤ R input
      → blocks * 34 ≤ R raw
      → AllStepsFit R (before_products blocks ++ (products fused combined rs ++ after_products))
  many-AllStepsFit fused combined rs e g c o i r = (
    event-WorkFits R,
    (
      copy_all-WorkFits R input raw (blocks * 34) i r,
      (
        launch_repack-WorkFits R blocks r a,
        AllStepsFit-append R (products fused combined rs) after_products
            (products-AllStepsFit fused combined rs e g c o)
            (event-WorkFits R, (event-WorkFits R, (event-WorkFits R, tt))),
      ),
    ),
  )

-- the places of the caller, with the scratch buffers of a context
abbrev pub with_scratch : (Place → ℕ) → Scratch → Place → ℕ
with_scratch given s raw = held s.raw.size
with_scratch given s activation = held s.activation.size
with_scratch given s output = held s.output.size
with_scratch given s aux = held s.aux.size
with_scratch given s input = given input
with_scratch given s (matrix k) = given (matrix k)
with_scratch given s (target k) = given (target k)

given-AllGiven :
    (given : Place → ℕ) (s : Scratch) (k : ℕ) (rs : List Request)
    → AllGiven given k rs
    → AllGiven (with_scratch given s) k rs
given-AllGiven given s k [] g = tt
given-AllGiven given s k (r ∷ rs) g = (g.0, g.1, given-AllGiven given s (suc k) rs g.2)

queue-Fits :
    (given : Place → ℕ) (succeeds : ℕ → Bool) (reserved : Scratch × Bool) (steps : List Step)
    → (reserved.1 ≡ false) ⊎ AllStepsFit (with_scratch given reserved.0) steps
    → let q = queue succeeds reserved steps in AllWorkFits (with_scratch given q.scratch) q.work
unfolding queue
queue-Fits given succeeds (s, false) steps f = tt
queue-Fits given succeeds (s, true) steps (inl e) = absurd (ground arith)
queue-Fits given succeeds (s, true) steps (inr f) =
    chain-AllWorkFits (with_scratch given s) succeeds 0 steps f

first_enough :
    (blocks bytes : ℕ) (r : Request) (rs : List Request)
    → accepts_all blocks bytes (r ∷ rs) ≡ true
    → blocks * 34 ≤ bytes
unfolding accepts_all
first_enough blocks bytes r rs e =
    let (same, enough) : (r.weights.blocks ≡ blocks) × (r.weights.blocks * 34 ≤ bytes) =
      ground arith in
    omega (arith, same, enough)

-- A row of the first matrix has fewer than 2^31 / 36 blocks.
abbrev IsNarrow : List Request → Type 0
IsNarrow [] = Unit {0}
IsNarrow (first ∷ rest) = first.weights.blocks * 36 < 2 ^ 31

-- Several products are called with one activation, in a context in which no allocation of their
-- scratch has failed before. The matrices have the bytes of their rows, the outputs those that the
-- requests say, the activation those that the call says, and a combined output those of all rows. A row of the first
-- matrix has fewer than 2^31 / 36 blocks, so that the int offsets of the kernels do not wrap around.
-- Whatever CUDA returns, and whether the products are grouped or done one by one: every thread of
-- every kernel that is queued, and every copy, reads and writes only inside the matrices, the scratch
-- buffers, the activation and the outputs.
pub matvec_host_many-AllWorkFits :
    (o : Reserves) (succeeds : ℕ → Bool) (s : Scratch) (present : Bool) (rs : List Request)
    (activation_bytes : ℕ) (combined : Bool) (given : Place → ℕ)
    → IsSound s
    → IsNarrow rs
    → AllGiven given 0 rs
    → activation_bytes ≤ given input
    → (combined ≡ false) ⊎ (total_bytes rs ≤ given (target 0))
    → let q = matvec_host_many o succeeds s present rs activation_bytes combined in
      AllWorkFits (with_scratch given q.scratch) q.work
unfolding matvec_host_many refuse
matvec_host_many-AllWorkFits o succeeds s present [] n combined given v small g i c = tt
matvec_host_many-AllWorkFits o succeeds s present (first ∷ rest) n combined given v small g i c =
    let rs : List Request = first ∷ rest in
    let blocks = first.weights.blocks in
    let fused = is_fused blocks rs in
    let reserved = reserve_host o s (blocks * 34) (reserved_bytes fused rs) in
    if_rule (λ (q : Queued). AllWorkFits (with_scratch given q.scratch) q.work)
      (not present
        || not first.weights.has_data
        || combined && not fused
        || not (accepts_all blocks n rs))
      _ _ (λ _. tt)
      λ e.
        let accepted : accepts_all blocks n rs ≡ true = ground arith in
        queue-Fits given succeeds reserved
          (before_products blocks ++ (products fused combined rs ++ after_products))
          (elim (reserve_host_lem o s blocks (reserved_bytes fused rs) v) [
            | inl failed ↦ inl failed
            | inr (r, a, t) ↦ inr (
                many-AllStepsFit (with_scratch given reserved.0) blocks n (a, small) fused combined
                  rs accepted (given-AllGiven given reserved.0 0 rs g) c t
                  (omega (arith, i, first_enough blocks n first rest accepted)) r)
          ])
