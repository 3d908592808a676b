-- ===== src/Ggml/Cache/Reference.antt =====
-- The cache against the products without it, over every sequence of calls.
use fortai.Prelude.{
  ℕ, ◌^◌, ◌≤◌, ◌<◌, ◌≡◌, ◌⊎◌, inl, refl, Bool, true, not, Option, none, some, List, [], ◌∷◌,
  if◌then◌else◌, length, arith, if_rule,
}
use fortai.Libc.{codes}
use fortai.Libc.Environment.{Env}
use fortai.Ggml.{Matrix, matvec_accepted, group_accepted}
use fortai.Ggml.Cache.{
  Plans, State, no_plans, Outcomes, disabled, max_plans, max_bytes, plan_cached, direct_product,
  or_direct, quant_matvec, quant_matvec_group, quant_cache_clear,
}
use fortai.Ggml.Cache.Copies.{exact_bytes, IsValid, no_plans-IsValid, plans_bytes}
use fortai.Ggml.Cache.Answers.{reference, plan_cached-IsCached}

-- The answer of a cache, or else the direct one.
or_direct_right :
    {W A B : Type 0} (product : ℕ → W → ℕ → ℕ → A → B) (r : Option (List B)) (right : List B)
    (direct accepted : Bool)
    → (r ≡ none) ⊎ (r ≡ some right)
    → accepted ≡ true
    → ((or_direct product r (if direct then some right else none) ≡ none)
        ⊎ (or_direct product r (if direct then some right else none) ≡ some right))
      × (or_direct product r (if direct then some right else none) ≡ (
          if accepted
          then if direct
            then some right
            else or_direct product r (if direct then some right else none)
          else none))
or_direct_right product none right direct accepted e t = ground arith
or_direct_right product (some x) right direct accepted e t = ground arith

-- The calls of a program. Before the memory of the weights changes, the cache is cleared.
pub data Call (W A : Type 0) : Type 0 where
  matvec : Outcomes → Matrix → ℕ → Bool → A → Call W A
  group : Outcomes → List Matrix → ℕ → Bool → A → Call W A
  reload : (ℕ → W) → Call W A

-- The weights of a call take less than half of the address space.
abbrev pub AllSized : {W A : Type 0} → List (Call W A) → Type 0
AllSized [] = Unit {0}
AllSized (matvec o m width vectors a ∷ calls) = (exact_bytes (m ∷ []) < 2 ^ 63) × AllSized calls
AllSized (group o ms width vectors a ∷ calls) = (exact_bytes ms < 2 ^ 63) × AllSized calls
AllSized (reload memory ∷ calls) = AllSized calls

-- A cache is in its limits, and its counter of bytes is right.
abbrev pub IsBounded : {W : Type 0} → (ℕ → W) → Plans W → Type 0
IsBounded memory c =
    (length c.plans ≤ max_plans) × (c.bytes ≡ plans_bytes memory c.plans) × (c.bytes ≤ max_bytes)

module _ {W A B : Type 0} (product : ℕ → W → ℕ → ℕ → A → B) (env : Env) where
  -- An answer is the product of what the memory holds, or there is none. A call that is not
  -- accepted gives none, and one that is accepted gives an answer if the product can be computed
  -- without a plan.
  abbrev pub IsProduct : (ℕ → W) → Outcomes → Matrix → ℕ → Bool → A → Option (List B) → Type 0
  IsProduct memory o m width vectors a r =
      ((r ≡ none) ⊎ (r ≡ some (reference product memory (m ∷ []) width a)))
      × (r ≡ (
          if matvec_accepted m width vectors
          then if o.direct then some (reference product memory (m ∷ []) width a) else r
          else none))

  abbrev pub IsGroupProduct : (ℕ → W) → List Matrix → ℕ → Bool → A → Option (List B) → Type 0
  IsGroupProduct memory ms width vectors a r =
      ((r ≡ none) ⊎ (r ≡ some (reference product memory ms width a)))
      × (r ≡ (if group_accepted ms width vectors then r else none))

  -- what holds of each answer in a run, and of the caches at its end
  abbrev pub AllCorrect : (ℕ → W) → State W → List (Call W A) → Type 0
  AllCorrect memory s [] = IsBounded memory s.single × IsBounded memory s.group
  AllCorrect memory s (matvec o m width vectors a ∷ calls) =
      let r = quant_matvec product env memory s o m width vectors a in
      IsProduct memory o m width vectors a r.1 × AllCorrect memory r.0 calls
  AllCorrect memory s (group o ms width vectors a ∷ calls) =
      let r = quant_matvec_group product env memory s o ms width vectors a in
      IsGroupProduct memory ms width vectors a r.1 × AllCorrect memory r.0 calls
  AllCorrect memory s (reload memory' ∷ calls) = AllCorrect memory' (quant_cache_clear s) calls

  abbrev BothValid : (ℕ → W) → State W → Type 0
  BothValid memory s = IsValid memory s.single × IsValid memory s.group

  quant_matvec-IsProduct :
      (memory : ℕ → W) (s : State W) (o : Outcomes) (m : Matrix) (width : ℕ) (vectors : Bool)
      (a : A)
      → BothValid memory s
      → exact_bytes (m ∷ []) < 2 ^ 63
      → BothValid memory (quant_matvec product env memory s o m width vectors a).0
        × IsProduct memory o m width vectors a
            (quant_matvec product env memory s o m width vectors a).1
  unfolding quant_matvec
  quant_matvec-IsProduct memory s o m width vectors a v b =
      let r = plan_cached product env memory s.single o (m ∷ []) width a in
      let (valid, right) =
        plan_cached-IsCached product memory env s.single o (m ∷ []) width a v.0 b in
      if_rule
        (λ (r : State W × Option (List B)).
          BothValid memory r.0 × IsProduct memory o m width vectors a r.1)
        (not (matvec_accepted m width vectors)) (s, none)
        (
          record s { single = r.0 },
          or_direct product r.1 (direct_product product memory o m width a),
        )
        (λ refused. (v, (inl refl, ground arith)))
        λ accepted. (
          (valid, v.1),
          or_direct_right product r.1 (reference product memory (m ∷ []) width a) o.direct
              (matvec_accepted m width vectors) right (ground arith),
        )

  quant_matvec_group-IsGroupProduct :
      (memory : ℕ → W) (s : State W) (o : Outcomes) (ms : List Matrix) (width : ℕ) (vectors : Bool)
      (a : A)
      → BothValid memory s
      → exact_bytes ms < 2 ^ 63
      → BothValid memory (quant_matvec_group product env memory s o ms width vectors a).0
        × IsGroupProduct memory ms width vectors a
            (quant_matvec_group product env memory s o ms width vectors a).1
  unfolding quant_matvec_group
  quant_matvec_group-IsGroupProduct memory s o ms width vectors a v b =
      let r = plan_cached product env memory s.group o ms width a in
      let (valid, right) = plan_cached-IsCached product memory env s.group o ms width a v.1 b in
      let P : State W × Option (List B) → Type 0 =
        λ r. BothValid memory r.0 × IsGroupProduct memory ms width vectors a r.1 in
      if_rule P (disabled (env (codes "FORTAI_GGML_CPU_GROUP"))) (s, none)
        (if not (group_accepted ms width vectors)
          then (s, none)
          else (record s { group = r.0 }, r.1))
        (λ off. (v, (inl refl, ground arith)))
        λ on.
          if_rule P (not (group_accepted ms width vectors)) (s, none)
            (record s { group = r.0 }, r.1) (λ refused. (v, (inl refl, ground arith)))
            λ accepted. ((v.0, valid), (right, ground arith))

  pub calls-AllCorrect :
      (memory : ℕ → W) (s : State W) (calls : List (Call W A))
      → BothValid memory s
      → AllSized calls
      → AllCorrect memory s calls
  unfolding quant_cache_clear
  calls-AllCorrect memory s [] v z =
      ((v.0.count_in, v.0.bytes_are, v.0.bytes_in), (v.1.count_in, v.1.bytes_are, v.1.bytes_in))
  calls-AllCorrect memory s (matvec o m width vectors a ∷ calls) v z =
      let (valid, right) = quant_matvec-IsProduct memory s o m width vectors a v z.0 in
      (right, calls-AllCorrect memory _ calls valid z.1)
  calls-AllCorrect memory s (group o ms width vectors a ∷ calls) v z =
      let (valid, right) = quant_matvec_group-IsGroupProduct memory s o ms width vectors a v z.0 in
      (right, calls-AllCorrect memory _ calls valid z.1)
  calls-AllCorrect memory s (reload memory' ∷ calls) v z =
      calls-AllCorrect memory' _ calls (no_plans-IsValid memory', no_plans-IsValid memory') z

-- In every run of the caches, from the empty ones on, an answer is what libggml computes from the
-- weights that the memory holds, never from weights of before, as long as the cache is cleared
-- before they change. A call that is not accepted gives none, and one for a single matrix that is
-- accepted gives an answer if the product can be computed without a plan, whatever the cache does.
-- At the end each cache has at most 256 plans, of 4 GiB together, and its counter is their sum. The
-- weights of a call take less than 2^63 bytes.
pub run-AllCorrect :
    {W A B : Type 0} (product : ℕ → W → ℕ → ℕ → A → B) (env : Env) (memory : ℕ → W)
    (calls : List (Call W A))
    → AllSized calls
    → AllCorrect product env memory (record { single = no_plans; group = no_plans }) calls
run-AllCorrect product env memory calls z =
    calls-AllCorrect product env memory _ calls (no_plans-IsValid memory, no_plans-IsValid memory) z
