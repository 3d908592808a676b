-- ===== src/Gpu/Kernel.antt =====
-- Kernels of backend/cuda/fortai_cuda_backend.cu as what each of their threads does, and what the
-- threads give together, whatever their order.
pub mod Launch
pub mod Arrays
pub mod Results
pub mod Columns
pub mod Joined
pub mod Tests
use fortai.Prelude.{
  ℕ, zero, suc, ◌+◌, ◌≡◌, refl, sym, ap, ◌∙◌, Bool, true, false, List, [], ◌∷◌, ◌==◌, ltb,
  Bool-cases, inl, inr, if◌then◌else◌, arith,
}

-- how often a thread is in an order
unfoldable pub count : ℕ → List ℕ → ℕ
count t [] = 0
count t (u ∷ us) = if t == u then suc (count t us) else count t us

-- An order of `n` threads: each of them once, and no other.
abbrev pub IsSchedule : ℕ → List ℕ → Type 0
IsSchedule n order = (t : ℕ) → count t order ≡ (if ltb t n then 1 else 0)

module _ {C V : Type 0} where
  -- the threads, one after the other, on a memory with a value at each cell
  unfoldable pub run : (ℕ → (C → V) → C → V) → List ℕ → (C → V) → C → V
  run body [] memory = memory
  run body (t ∷ ts) memory = run body ts (body t memory)

  -- Each cell has one thread that may write it, and what this thread writes depends only on its own
  -- cells.
  pub record IsLocal (owner : C → ℕ) (body : ℕ → (C → V) → C → V) : Type 0 where
    pub elsewhere : (t : ℕ) (m : C → V) (c : C) → (owner c == t) ≡ false → body t m c ≡ m c
    pub own :
        (t : ℕ) (m m' : C → V)
        → ((d : C) → owner d ≡ t → m d ≡ m' d)
        → (c : C) → owner c ≡ t
        → body t m c ≡ body t m' c

-- a body that does the same
pub same-IsLocal :
    {C V : Type 0} {owner : C → ℕ} (body body' : ℕ → (C → V) → C → V)
    → IsLocal owner body
    → ((t : ℕ) (m : C → V) (c : C) → body' t m c ≡ body t m c)
    → IsLocal owner body'
same-IsLocal body body' local same = record {
  elsewhere = λ t m c e. same t m c ∙ local.elsewhere t m c e;
  own = λ t m m' agree c e. same t m c ∙ (local.own t m m' agree c e ∙ sym (same t m' c));
}

==→eq : (a b : ℕ) → (a == b) ≡ true → a ≡ b
==→eq a b e = ground arith

module _ {C V : Type 0} {owner : C → ℕ} {body : ℕ → (C → V) → C → V} (local : IsLocal owner body)
    (c : C) where
  run_without : (order : List ℕ) (m : C → V) → count (owner c) order ≡ 0 → run body order m c ≡ m c
  unfolding run count
  run_without [] m e = refl
  run_without (t ∷ ts) m e = ground (arith, run_without ts (body t m), local.elsewhere t m c)

  run_once :
      (order : List ℕ) (m : C → V)
      → count (owner c) order ≡ 1
      → run body order m c ≡ body (owner c) m c
  unfolding run count
  run_once [] m e = ground arith
  run_once (t ∷ ts) m e = elim (Bool-cases (owner c == t)) [
    | inl here ↦
        run_without ts (body t m) (ground arith)
        ∙ ap (λ u. body u m c) (sym (==→eq (owner c) t here))
    | inr later ↦
        run_once ts (body t m) (ground arith)
        ∙ local.own (owner c) (body t m) m (λ d e'. local.elsewhere t m d (rw e' later)) c refl
  ]

  -- However the threads are ordered, a cell has in the end what its thread writes to the memory of the
  -- beginning, and what it had if there is no such thread.
  pub run_lem :
      (n : ℕ) (order : List ℕ) (m : C → V)
      → IsSchedule n order
      → run body order m c ≡ (if ltb (owner c) n then body (owner c) m c else m c)
  run_lem n order m schedule = elim (Bool-cases (ltb (owner c) n)) [
    | inl inside ↦ rw inside (run_once order m (schedule (owner c) ∙ ground arith))
    | inr outside ↦ rw outside (run_without order m (schedule (owner c) ∙ ground arith))
  ]
