-- ===== src/Ggml/Tests.antt =====
-- Uses of the theorems on the caches and on plans. For the caches, a matrix is multiplied twice, the memory changes, and it is
-- multiplied again.
use fortai.Prelude.{false, some, ◌≡◌, refl, ℕ, ◌*◌, true, none, List, [], ◌∷◌, arith}
use fortai.Libc.Environment.{Env}
use fortai.Ggml.{Matrix}
use fortai.Ledger.{replay}
use fortai.Ggml.Plan.{Making, plan_make, plan_clear, group_plan_make, group_clear}
use fortai.Ggml.Plan.Ownership.{rules, life, left_behind, plans-IsBalanced}
use fortai.Ggml.Cache.{Outcomes, no_plans}
use fortai.Ggml.Cache.Reference.{Call, matvec, group, reload, AllCorrect, run-AllCorrect}

abbrev no_settings : Env
no_settings name = none

-- One row of a block of IQ4_NL.
abbrev one_row : Matrix
one_row = record { type = 20; weights_host = 4096; weight_bytes = 18; rows = 1 }

abbrev all_work : Outcomes
all_work = record { makes = true; computes = true; direct = true }

-- A toy in place of libggml: the weights are a number.
abbrev scaled : ℕ → ℕ → ℕ → ℕ → ℕ → ℕ
scaled type w rows width a = w * a

abbrev calls : List (Call ℕ ℕ)
calls =
    matvec all_work one_row 32 true 3
    ∷ matvec all_work one_row 32 true 4
    ∷ reload (λ p. 7)
    ∷ group all_work (one_row ∷ one_row ∷ []) 32 true 5
    ∷ []

calls_example :
    AllCorrect scaled no_settings (λ p. 2) (record { single = no_plans; group = no_plans }) calls
calls_example =
    run-AllCorrect scaled no_settings (λ p. 2) calls (omega arith, (omega arith, (omega arith, tt)))

-- Every call succeeds, but for the second context.
abbrev one_context : Making
one_context = record {
  libraries = true;
  has_context = true;
  has_weight_context = false;
  has_input = true;
  has_weight = λ i. true;
  has_output = λ i. true;
  has_graph = true;
  has_backend = true;
  has_buffer = true;
  has_repack = false;
  has_weight_buffer = true;
  has_repack_buffer = true;
  has_plain_buffer = true;
  can_free = true;
}

plans_example :
    (replay rules (life (plan_make one_context one_row) (plan_clear one_context)) []
      ≡ some (left_behind one_context))
    × (replay rules
          (life
            (group_plan_make one_context (one_row ∷ one_row ∷ []))
            (group_clear one_context (one_row ∷ one_row ∷ [])))
          []
        ≡ some (left_behind one_context))
plans_example = plans-IsBalanced one_context one_row (one_row ∷ one_row ∷ []) refl
