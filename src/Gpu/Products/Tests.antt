-- ===== src/Gpu/Products/Tests.antt =====
-- Uses of the theorems on the products, the matrices and the buffers of the device.
use fortai.Prelude.{
  ℕ, ◌≡◌, refl, Bool, true, false, List, [], ◌∷◌, ◌==◌, not, arith, pos, ◌+◌, inl, ◌||◌, ◌&&◌, leb,
}
use fortai.Gpu.Context.{ok}
use fortai.Gpu.Scratch.{Outcome, no_scratch, ensure_host_matvec, grow}
use fortai.Gpu.Access.{Place, AllWorkFits, chain}
use fortai.Gpu.Products.{Weights, Reserves, queue}
use fortai.Gpu.Products.Calls.{Product, device_of_ffn, call, room}
use fortai.Gpu.Products.Bounds.{call-AllWorkFits}
use fortai.Gpu.Products.Several.{with_scratch, matvec_host_many-AllWorkFits}
use fortai.Gpu.Products.Many.{
  Request, matvec_host_many, matvec_host_triplet_contiguous, accepts_all, products, grouped,
  total_bytes,
}
use fortai.Gpu.Products.Errors.{triplet_contiguous-ignores}
use fortai.Gpu.Weights.{
  Upload, weights_upload, Memory, Download, device_buffer_upload, device_buffer_download,
}
use fortai.Gpu.Weights.Life.{IsKept, weights_upload-IsKept}

abbrev fine : Outcome
fine = record { frees = true; allocates = true }

abbrev reserves : Reserves
reserves = record { for_raw = fine; for_activation = fine; for_output = fine; for_aux = fine }

abbrev weights : ℕ → ℕ → Weights
weights rows blocks = record { same_context = true; has_data = true; rows = rows; blocks = blocks }

abbrev small_ffn : Product
small_ffn = device_of_ffn (weights 64 4) (weights 64 4) (weights 128 2) 128 128

-- The second launch fails.
abbrev second_fails : ℕ → Bool
second_fails k = not (k == 1)

ffn_example :
    AllWorkFits
      (room small_ffn (call reserves second_fails no_scratch true small_ffn).scratch)
      (call reserves second_fails no_scratch true small_ffn).work
ffn_example =
    call-AllWorkFits reserves second_fails no_scratch true small_ffn (refl, refl, refl)
      (omega arith, omega arith)

abbrev request : ℕ → Request
request rows = record { weights = weights rows 2; has_output = true; output_bytes = 1000 }

abbrev requests : List Request
requests = request 3 ∷ request 5 ∷ []

abbrev plenty : Place → ℕ
plenty p = 1000

several_example :
    AllWorkFits
      (with_scratch plenty
        (matvec_host_many reserves (λ k. true) no_scratch true requests 68 false).scratch)
      (matvec_host_many reserves (λ k. true) no_scratch true requests 68 false).work
several_example =
    matvec_host_many-AllWorkFits reserves (λ k. true) no_scratch true requests 68 false plenty
      (refl, refl, refl) (omega arith) (omega arith) (omega arith) (inl refl)

-- A launch fails, and the call returns FORTAI_CUDA_OK.
lost_error :
    (matvec_host_triplet_contiguous reserves
      (λ k. not (k == 4))
      no_scratch
      true
      (weights 1 2)
      (weights 1 2)
      (weights 1 2)
      68
      12).status
    ≡ ok
unfolding matvec_host_triplet_contiguous matvec_host_many accepts_all products grouped queue chain
    ensure_host_matvec grow total_bytes
lost_error = refl

ignores_example :
    (matvec_host_triplet_contiguous reserves
      (λ k. not (k == 4))
      no_scratch
      true
      (weights 1 2)
      (weights 1 2)
      (weights 1 2)
      68
      12).status
    ≡ (matvec_host_triplet_contiguous reserves
        (λ k. not (k == 4) || leb 3 k && leb k 5)
        no_scratch
        true
        (weights 1 2)
        (weights 1 2)
        (weights 1 2)
        68
        12).status
ignores_example =
    triplet_contiguous-ignores reserves (λ k. not (k == 4)) no_scratch true (weights 1 2)
      (weights 1 2) (weights 1 2) 68 12

abbrev no_copy : Upload
no_copy = record { has_handle = true; allocates = true; copies = false }

upload_example : IsKept 272 (pos 4) (pos 64) (weights_upload no_copy true 272 (pos 4) (pos 64))
upload_example = weights_upload-IsKept no_copy true 272 (pos 4) (pos 64)

abbrev sent : Memory
sent i = i + 10

abbrev nothing : Memory
nothing i = 0

abbrev downloaded : Download
downloaded =
    device_buffer_download fine true true true no_scratch nothing nothing
      (device_buffer_upload true true true sent nothing 3).1 3
