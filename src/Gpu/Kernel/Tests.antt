-- ===== src/Gpu/Kernel/Tests.antt =====
-- Uses of the theorems on the kernels: small arrays, and threads that run backwards.
use fortai.Prelude.{ℕ, zero, suc, ◌≡◌, refl, true, List, [], ◌∷◌, arith, pos, ◌+◌}
use fortai.Gpu.Context.{ok}
use fortai.Gpu.Kernel.{count, IsSchedule}
use fortai.Gpu.Kernel.Launch.{Launch, int_grid}
use fortai.Gpu.Kernel.Arrays.{Floats, apart, output}
use fortai.Gpu.Kernel.Results.{add, call, result, call-result}
use fortai.Gpu.Kernel.Columns.{shift_target_hidden_device, shifted, shift_target_hidden_device_lem}

-- the threads below `n`, the last one first
unfoldable backwards : ℕ → List ℕ
backwards zero = []
backwards (suc n) = n ∷ backwards n

backwards-IsSchedule : (n : ℕ) → IsSchedule n (backwards n)
unfolding backwards count
backwards-IsSchedule zero t = ground arith
backwards-IsSchedule (suc n) t = ground (arith, backwards-IsSchedule n t)

abbrev launch_all : Launch
launch_all = record { order = backwards 256; succeeds = true }

-- numbers in place of `float`
abbrev numbers : Floats ℕ
numbers = record {
  add = λ a b. a + b;
  multiply = λ a b. a + b;
  divide = λ a b. a;
  negate = λ a. a;
  exp = λ a. a;
  one = 1;
}

call_example :
    call numbers launch_all (add output (apart (λ t. t)) 3) (λ i. 7)
    ≡ (ok, result numbers (add output (apart (λ t. t)) 3) (λ i. 7))
call_example =
    call-result numbers launch_all (add output (apart (λ t. t)) 3) (λ i. 7) refl (omega arith)
      (unfold int_grid in backwards-IsSchedule 256)

shift_example :
    shift_target_hidden_device launch_all true (λ i. i) 2 (pos 3) (λ c. 9)
    ≡ (ok, shifted (λ i. i) 2 3 (λ c. 9))
shift_example =
    shift_target_hidden_device_lem (λ i. i) 2 3 launch_all (λ c. 9) refl (omega arith) (omega arith)
      (omega arith) (backwards-IsSchedule 256)
