-- ===== src/Ggml/Cache.antt =====
-- The cache of plans in src/backend/cpu/fortai_ggml_quant.c. A plan holds a copy of the weights,
-- which libggml made when the plan was; the memory, what libggml computes and whether its calls
-- succeed are parameters.
pub mod Answers
pub mod Copies
pub mod Reference
use fortai.Prelude.{
  ℕ, zero, suc, ◌+◌, ◌*◌, ◌%◌, ◌^◌, Bool, true, false, not, ◌&&◌, ◌||◌, Option, none, some, List,
  [], ◌∷◌, ◌++◌, map, ltb, leb, ◌==◌, if◌then◌else◌, length,
}
use fortai.Libc.{Bytes, codes, str_eq}
use fortai.Libc.Environment.{Env}
use fortai.Ggml.{Matrix, matvec_accepted, group_accepted}

-- `fortai_ggml_cpu_plan` and `fortai_ggml_cpu_group_plan`: the matrices, one or more, each with what
-- its weight tensor holds, and the width.
pub record Plan (W : Type 0) : Type 0 where
  pub weights : List (Matrix × W)
  pub width : ℕ

-- An array of plans in use, and the bytes of their weights: `fortai_cpu_plans` with its counters,
-- or `fortai_cpu_group_plans` with its.
pub record Plans (W : Type 0) : Type 0 where
  pub plans : List (Plan W)
  pub bytes : ℕ

pub record State (W : Type 0) : Type 0 where
  pub single : Plans W
  pub group : Plans W

abbrev pub no_plans : {W : Type 0} → Plans W
no_plans = record { plans = []; bytes = 0 }

-- Whether a plan can be made, whether it can be computed, and whether the product can be computed
-- without a plan.
pub record Outcomes : Type 0 where
  pub makes : Bool
  pub computes : Bool
  pub direct : Bool

-- `disabled != NULL && strcmp(disabled, "0") == 0`
unfoldable pub disabled : Option Bytes → Bool
disabled none = false
disabled (some value) = str_eq value (codes "0")

abbrev pub same_matrix : Matrix → Matrix → Bool
same_matrix m n =
    m.type == n.type
    && (m.weights_host == n.weights_host && (m.weight_bytes == n.weight_bytes && m.rows == n.rows))

-- the comparison of a plan's matrices with those of a call, their number included
unfoldable pub same_matrices : {W : Type 0} → List (Matrix × W) → List Matrix → Bool
same_matrices [] [] = true
same_matrices [] (m ∷ ms) = false
same_matrices (p ∷ ps) [] = false
same_matrices (p ∷ ps) (m ∷ ms) = same_matrix p.0 m && same_matrices ps ms

-- the first plan that matches
unfoldable pub find_plan : {W : Type 0} → List (Plan W) → List Matrix → ℕ → Option (Plan W)
find_plan [] ms width = none
find_plan (p ∷ ps) ms width =
    if p.width == width && same_matrices p.weights ms then some p else find_plan ps ms width

-- the bytes of a call's weights, which wrap around
unfoldable pub total_bytes : List Matrix → ℕ
total_bytes [] = 0
total_bytes (m ∷ ms) = (m.weight_bytes + total_bytes ms) % 2 ^ 64

abbrev pub max_plans : ℕ
max_plans = 256

abbrev pub max_bytes : ℕ
max_bytes = 4 * 1024 * 1024 * 1024

module _ {W A B : Type 0} (product : ℕ → W → ℕ → ℕ → A → B) where
  -- the copies that a new plan gets
  abbrev pub copies : (ℕ → W) → List Matrix → List (Matrix × W)
  copies memory [] = []
  copies memory (m ∷ ms) = (m, memory m.weights_host) ∷ copies memory ms

  -- the outputs of a graph
  abbrev pub outputs : List (Matrix × W) → ℕ → A → List B
  outputs [] width activation = []
  outputs (p ∷ ps) width activation =
      product p.0.type p.1 p.0.rows width activation ∷ outputs ps width activation

  -- `fortai_cpu_plan_compute` and `fortai_cpu_group_plan_compute`
  unfoldable pub plan_compute : Outcomes → Plan W → A → Option (List B)
  plan_compute o plan activation =
      if o.computes then some (outputs plan.weights plan.width activation) else none

  -- the part of the caches behind the search
  unfoldable pub add_plan :
      (ℕ → W) → Plans W → Outcomes → List Matrix → ℕ → A → Plans W × Option (List B)
  add_plan memory c o ms width activation =
      if leb max_plans (length c.plans) || ltb max_bytes ((c.bytes + total_bytes ms) % 2 ^ 64)
      then (c, none)
      else if not o.makes
      then (c, none)
      else let plan : Plan W = record { weights = copies memory ms; width = width } in
        (
          record { plans = c.plans ++ (plan ∷ []); bytes = (c.bytes + total_bytes ms) % 2 ^ 64 },
          plan_compute o plan activation,
        )

  -- `fortai_cpu_plan_cached`, with one matrix, and `fortai_cpu_group_plan_cached`
  unfoldable pub plan_cached :
      Env → (ℕ → W) → Plans W → Outcomes → List Matrix → ℕ → A → Plans W × Option (List B)
  plan_cached env memory c o ms width activation =
      if disabled (env (codes "FORTAI_GGML_CPU_CACHE"))
      then (c, none)
      else elim (find_plan c.plans ms width) as (λ _. Plans W × Option (List B)) [
        | some plan ↦ (c, plan_compute o plan activation)
        | none ↦ add_plan memory c o ms width activation
      ]

  -- the product without a plan
  abbrev pub direct_product : (ℕ → W) → Outcomes → Matrix → ℕ → A → Option (List B)
  direct_product memory o m width activation =
      if o.direct then some (outputs (copies memory (m ∷ [])) width activation) else none

  abbrev pub or_direct : Option (List B) → Option (List B) → Option (List B)
  or_direct none direct = direct
  or_direct (some results) direct = some results

  -- `fortai_ggml_quant_matvec`: none for 1
  unfoldable pub quant_matvec :
      Env → (ℕ → W) → State W → Outcomes → Matrix → ℕ → Bool → A → State W × Option (List B)
  quant_matvec env memory s o m width vectors activation =
      if not (matvec_accepted m width vectors)
      then (s, none)
      else let r = plan_cached env memory s.single o (m ∷ []) width activation in
        (record s { single = r.0 }, or_direct r.1 (direct_product memory o m width activation))

  -- `fortai_ggml_quant_matvec_group`, and with it the calls for a pair and for a triplet
  unfoldable pub quant_matvec_group :
      Env → (ℕ → W) → State W → Outcomes → List Matrix → ℕ → Bool → A → State W × Option (List B)
  quant_matvec_group env memory s o ms width vectors activation =
      if disabled (env (codes "FORTAI_GGML_CPU_GROUP"))
      then (s, none)
      else if not (group_accepted ms width vectors)
      then (s, none)
      else let r = plan_cached env memory s.group o ms width activation in
        (record s { group = r.0 }, r.1)

-- `fortai_ggml_quant_cache_clear`; the library is there if a plan is.
unfoldable pub quant_cache_clear : {W : Type 0} → State W → State W
quant_cache_clear s = record { single = no_plans; group = no_plans }
