-- ===== src/Gpu/Products/Many.antt =====
-- Several products with one activation: `matvec_host_many` of backend/cuda/fortai_cuda_backend.cu and
-- the functions that call it.
use fortai.Prelude.{
  ℕ, suc, ◌+◌, ◌*◌, Bool, true, false, not, ◌&&◌, ◌||◌, List, [], ◌∷◌, ◌++◌, ltb, leb, ◌==◌,
  if◌then◌else◌, length,
}
use fortai.Gpu.Scratch.{Scratch}
use fortai.Gpu.Access.{raw, activation, output, input, matrix, target, at, copy, event, Step, check}
use fortai.Gpu.Access.Kernels.{launch_q8, launch_repack}
use fortai.Gpu.Products.{Weights, Reserves, Queued, reserve_host, queue, refuse, max}

-- `host_matvec_request` with weights that are not NULL
pub record Request : Type 0 where
  pub weights : Weights
  pub has_output : Bool
  pub output_bytes : ℕ

-- what the loop over the requests refuses
abbrev pub accepts : ℕ → ℕ → Request → Bool
accepts blocks activation_bytes r =
    r.weights.same_context
    && r.weights.blocks == blocks
    && r.weights.has_data
    && r.has_output
    && leb (r.weights.blocks * 34) activation_bytes
    && leb (r.weights.rows * 4) r.output_bytes

unfoldable pub accepts_all : ℕ → ℕ → List Request → Bool
accepts_all blocks activation_bytes [] = true
accepts_all blocks activation_bytes (r ∷ rs) =
    accepts blocks activation_bytes r && accepts_all blocks activation_bytes rs

-- the bytes of the outputs: one behind the other, or the largest of them
unfoldable pub total_bytes : List Request → ℕ
total_bytes [] = 0
total_bytes (r ∷ rs) = r.weights.rows * 4 + total_bytes rs

unfoldable pub largest_bytes : List Request → ℕ
largest_bytes [] = 0
largest_bytes (r ∷ rs) = max (r.weights.rows * 4) (largest_bytes rs)

-- `launch_q8_grouped`, the outputs one behind the other from `offset` on. Only the last launch is
-- followed by a look at errors, which tells of all of them; with `combined` its result is lost.
unfoldable pub grouped : Bool → ℕ → ℕ → List Request → List Step
grouped combined k offset [] = []
grouped combined k offset (r ∷ rs) =
    record {
      work = launch_q8 (matrix k) activation output offset r.weights.rows r.weights.blocks;
      checked = not combined && length rs == 0;
    }
    ∷ grouped combined (suc k) (offset + r.weights.rows * 4) rs

-- the copies of the outputs
unfoldable pub copies : ℕ → ℕ → List Request → List Step
copies k offset [] = []
copies k offset (r ∷ rs) =
    check (copy (at output offset (r.weights.rows * 4)) (target k) 0)
    ∷ copies (suc k) (offset + r.weights.rows * 4) rs

-- the loop of the products that are not grouped
unfoldable pub one_by_one : ℕ → List Request → List Step
one_by_one k [] = []
one_by_one k (r ∷ rs) =
    check (launch_q8 (matrix k) activation output 0 r.weights.rows r.weights.blocks)
    ∷ check (copy (at output 0 (r.weights.rows * 4)) (target k) 0)
    ∷ one_by_one (suc k) rs

abbrev pub before_products : ℕ → List Step
before_products blocks =
    check event ∷ check (copy (at input 0 (blocks * 34)) raw 0) ∷ check (launch_repack blocks) ∷ []

abbrev pub after_products : List Step
after_products = check event ∷ check event ∷ check event ∷ []

-- `count <= 4 && first->blocks < 128`
abbrev pub is_fused : ℕ → List Request → Bool
is_fused blocks rs = leb (length rs) 4 && ltb blocks 128

-- what is queued between: a combined output is target 0
unfoldable pub products : Bool → Bool → List Request → List Step
products fused combined rs =
    if not fused
    then one_by_one 0 rs
    else if combined
    then grouped true 0 0 rs ++ (check (copy (at output 0 (total_bytes rs)) (target 0) 0) ∷ [])
    else grouped false 0 0 rs ++ copies 0 0 rs

abbrev pub reserved_bytes : Bool → List Request → ℕ
reserved_bytes fused rs = if fused then total_bytes rs else largest_bytes rs

-- `matvec_host_many` with at least one request
unfoldable pub matvec_host_many :
    Reserves → (ℕ → Bool) → Scratch → Bool → List Request → ℕ → Bool → Queued
matvec_host_many o succeeds s present [] activation_bytes combined = refuse s
matvec_host_many o succeeds s present (first ∷ rest) activation_bytes combined =
    let blocks = first.weights.blocks in
    let rs = first ∷ rest in
    let fused = is_fused blocks rs in
    if not present
      || not first.weights.has_data
      || combined && not fused
      || not (accepts_all blocks activation_bytes rs)
    then refuse s
    else queue succeeds (reserve_host o s (blocks * 34) (reserved_bytes fused rs))
        (before_products blocks ++ (products fused combined rs ++ after_products))

-- `fortai_cuda_q8_matvec_host_pair` and `fortai_cuda_q8_matvec_host_triplet`
abbrev pub matvec_host_pair :
    Reserves → (ℕ → Bool) → Scratch → Bool → Request → Request → ℕ → Queued
matvec_host_pair o succeeds s present a b activation_bytes =
    matvec_host_many o succeeds s present (a ∷ b ∷ []) activation_bytes false

abbrev pub matvec_host_triplet :
    Reserves → (ℕ → Bool) → Scratch → Bool → Request → Request → Request → ℕ → Queued
matvec_host_triplet o succeeds s present a b c activation_bytes =
    matvec_host_many o succeeds s present (a ∷ b ∷ c ∷ []) activation_bytes false

abbrev full_request : Weights → Request
full_request w = record { weights = w; has_output = true; output_bytes = w.rows * 4 }

-- `fortai_cuda_q8_matvec_host_triplet_contiguous`
unfoldable pub matvec_host_triplet_contiguous :
    Reserves → (ℕ → Bool) → Scratch → Bool → Weights → Weights → Weights → ℕ → ℕ → Queued
matvec_host_triplet_contiguous o succeeds s present u v w activation_bytes host_output_bytes =
    if not present || ltb host_output_bytes (u.rows * 4 + v.rows * 4 + w.rows * 4)
    then refuse s
    else matvec_host_many o succeeds s present
        (full_request u ∷ full_request v ∷ full_request w ∷ []) activation_bytes true
