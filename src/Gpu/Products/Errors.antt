-- ===== src/Gpu/Products/Errors.antt =====
-- What `fortai_cuda_q8_matvec_host_triplet_contiguous` of backend/cuda/fortai_cuda_backend.cu makes of
-- errors.
use fortai.Prelude.{ℕ, ◌≡◌, Bool, ◌&&◌, ◌||◌, leb, arith}
use fortai.Gpu.Scratch.{Scratch}
use fortai.Gpu.Access.{chain}
use fortai.Gpu.Products.{Weights, Reserves, queue}
use fortai.Gpu.Products.Many.{matvec_host_many, matvec_host_triplet_contiguous, grouped, products}

-- Three products with one combined output, by `fortai_cuda_q8_matvec_host_triplet_contiguous`, return
-- the status that they would return if their three launches, the steps 3 to 5, had succeeded, whatever
-- else succeeds or fails: the result of the copy behind them replaces their error.
pub triplet_contiguous-ignores :
    (o : Reserves) (succeeds : ℕ → Bool) (s : Scratch) (present : Bool) (u v w : Weights) (n m : ℕ)
    → (matvec_host_triplet_contiguous o succeeds s present u v w n m).status
      ≡ (matvec_host_triplet_contiguous o
          (λ k. succeeds k || leb 3 k && leb k 5)
          s
          present
          u
          v
          w
          n
          m).status
unfolding matvec_host_triplet_contiguous matvec_host_many products grouped queue chain
triplet_contiguous-ignores o succeeds s present u v w n m = ground arith
