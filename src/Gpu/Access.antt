-- ===== src/Gpu/Access.antt =====
-- What the work that backend/cuda/fortai_cuda_backend.cu queues on a stream reads and writes: places
-- in device and host memory, an offset in bytes and a number of bytes. Shared memory is left out.
pub mod Kernels
pub mod Bounds
use fortai.Prelude.{
  ℕ, zero, suc, ◌+◌, ◌≤◌, ◌<◌, Bool, true, false, List, [], ◌∷◌, ◌++◌, ◌&&◌, not, if_rule,
  if◌then◌else◌, ◌≡◌, refl, arith,
}

-- The scratch buffers, the matrices by their number, the activation of the caller, and the outputs
-- of the caller by their number.
pub data Place : Type 0 where
  raw activation output aux input : Place
  matrix target : ℕ → Place

pub record Access : Type 0 where
  pub place : Place
  pub offset : ℕ
  pub bytes : ℕ

abbrev pub at : Place → ℕ → ℕ → Access
at place offset bytes = record { place = place; offset = offset; bytes = bytes }

-- A kernel on a grid of blocks with their threads, where a copy is a kernel of one thread.
pub record Work : Type 0 where
  pub blocks : ℕ
  pub threads : ℕ
  pub accesses : ℕ → ℕ → List Access

-- `cudaMemcpyAsync`
abbrev pub copy : Access → Place → ℕ → Work
copy from to offset = record {
  blocks = 1;
  threads = 1;
  accesses = λ block thread. from ∷ at to offset from.bytes ∷ [];
}

-- `cudaEventRecord`, `cudaEventSynchronize`, `cudaEventElapsedTime`
abbrev pub event : Work
event = record { blocks = 0; threads = 0; accesses = λ block thread. [] }

-- Work, and whether the code looks at its result.
pub record Step : Type 0 where
  pub work : Work
  pub checked : Bool

abbrev pub check : Work → Step
check work = record { work = work; checked = true }

abbrev pub ignore : Work → Step
ignore work = record { work = work; checked = false }

-- `if (error == cudaSuccess) error = ...` for each step: what is queued, and whether all succeeded.
-- `succeeds` tells of each step by its number.
unfoldable pub chain : (ℕ → Bool) → ℕ → List Step → List Work × Bool
chain succeeds k [] = ([], true)
chain succeeds k (s ∷ ss) =
    let rest = chain succeeds (suc k) ss in
    if s.checked && not (succeeds k) then (s.work ∷ [], false) else (s.work ∷ rest.0, rest.1)

-- The accesses lie in their places, which have so many bytes.
abbrev pub AllFit : (Place → ℕ) → List Access → Type 0
AllFit room [] = Unit {0}
AllFit room (a ∷ rest) = (a.offset + a.bytes ≤ room a.place) × AllFit room rest

-- Every thread of the work stays inside.
abbrev pub WorkFits : (Place → ℕ) → Work → Type 0
WorkFits room work =
    (block thread : ℕ)
    → block < work.blocks
    → thread < work.threads
    → AllFit room (work.accesses block thread)

abbrev pub AllWorkFits : (Place → ℕ) → List Work → Type 0
AllWorkFits room [] = Unit {0}
AllWorkFits room (w ∷ ws) = WorkFits room w × AllWorkFits room ws

abbrev pub AllStepsFit : (Place → ℕ) → List Step → Type 0
AllStepsFit room [] = Unit {0}
AllStepsFit room (s ∷ ss) = WorkFits room s.work × AllStepsFit room ss

module _ (room : Place → ℕ) where
  pub AllFit-append :
      (ws bs : List Access) → AllFit room ws → AllFit room bs → AllFit room (ws ++ bs)
  AllFit-append [] bs f g = g
  AllFit-append (a ∷ rest) bs f g = (f.0, AllFit-append rest bs f.1 g)

  pub AllStepsFit-append :
      (ws bs : List Step) → AllStepsFit room ws → AllStepsFit room bs → AllStepsFit room (ws ++ bs)
  AllStepsFit-append [] bs f g = g
  AllStepsFit-append (a ∷ rest) bs f g = (f.0, AllStepsFit-append rest bs f.1 g)

  -- What is queued of a chain stays inside if each of its steps does.
  pub chain-AllWorkFits :
      (succeeds : ℕ → Bool) (k : ℕ) (steps : List Step)
      → AllStepsFit room steps
      → AllWorkFits room (chain succeeds k steps).0
  unfolding chain
  chain-AllWorkFits succeeds k [] f = tt
  chain-AllWorkFits succeeds k (s ∷ ss) f =
      if_rule (λ (r : List Work × Bool). AllWorkFits room r.0) (s.checked && not (succeeds k)) _ _
        (λ e. (f.0, tt)) (λ e. (f.0, chain-AllWorkFits succeeds (suc k) ss f.1))

  pub copy-WorkFits :
      (from : Access) (to : Place) (offset : ℕ)
      → from.offset + from.bytes ≤ room from.place
      → offset + from.bytes ≤ room to
      → WorkFits room (copy from to offset)
  copy-WorkFits from to offset f g block thread b t = (f, (g, tt))

  -- A copy of all that is asked for, from the start of a place to the start of another.
  pub copy_all-WorkFits :
      (from to : Place) (bytes : ℕ)
      → bytes ≤ room from
      → bytes ≤ room to
      → WorkFits room (copy (at from 0 bytes) to 0)
  copy_all-WorkFits from to bytes f g =
      copy-WorkFits (at from 0 bytes) to 0 (omega (arith, f)) (omega (arith, g))

  pub event-WorkFits : WorkFits room event
  event-WorkFits block thread b t = tt
