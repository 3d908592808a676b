-- ===== src/Ggml/Cache/Copies.antt =====
-- What the plans of a cache hold.
use fortai.Prelude.{
  ℕ, ◌+◌, ◌^◌, ◌≤◌, ◌<◌, ◌≡◌, refl, ap, ◌∙◌, true, some, List, [], ◌∷◌, ◌++◌, length, arith,
}
use fortai.Ggml.{Matrix}
use fortai.Ggml.Cache.{
  Plan, Plans, no_plans, same_matrix, same_matrices, find_plan, total_bytes, max_plans, max_bytes,
  copies,
}

-- the bytes of a call's weights, without the wrap-around
abbrev pub exact_bytes : List Matrix → ℕ
exact_bytes [] = 0
exact_bytes (m ∷ ms) = m.weight_bytes + exact_bytes ms

pub total_bytes-exact_bytes :
    (ms : List Matrix) → exact_bytes ms < 2 ^ 63 → total_bytes ms ≡ exact_bytes ms
unfolding total_bytes
total_bytes-exact_bytes [] b = refl
total_bytes-exact_bytes (m ∷ ms) b = rw (total_bytes-exact_bytes ms (omega arith)) (grind arith)

same_matrix-eq : (m n : Matrix) → same_matrix m n ≡ true → m ≡ n
same_matrix-eq m n e = fields (ground arith) (ground arith) (ground arith) (ground arith)
  where
    fields :
        m.type ≡ n.type
        → m.weights_host ≡ n.weights_host
        → m.weight_bytes ≡ n.weight_bytes
        → m.rows ≡ n.rows
        → m ≡ n
    fields t h b r i = record { type = t i; weights_host = h i; weight_bytes = b i; rows = r i }

module _ {W : Type 0} (memory : ℕ → W) where
  -- Each copy is what the memory holds.
  abbrev pub AllCopied : List (Matrix × W) → Type 0
  AllCopied [] = Unit {0}
  AllCopied (p ∷ ps) = (p.1 ≡ memory p.0.weights_host) × AllCopied ps

  abbrev pub AllCurrent : List (Plan W) → Type 0
  AllCurrent [] = Unit {0}
  AllCurrent (p ∷ ps) = AllCopied p.weights × AllCurrent ps

  abbrev pub plan_bytes : List (Matrix × W) → ℕ
  plan_bytes [] = 0
  plan_bytes (p ∷ ps) = p.0.weight_bytes + plan_bytes ps

  abbrev pub plans_bytes : List (Plan W) → ℕ
  plans_bytes [] = 0
  plans_bytes (p ∷ ps) = plan_bytes p.weights + plans_bytes ps

  pub record IsValid (c : Plans W) : Type 0 where
    pub current : AllCurrent c.plans
    pub count_in : length c.plans ≤ max_plans
    pub bytes_are : c.bytes ≡ plans_bytes c.plans
    pub bytes_in : c.bytes ≤ max_bytes

  pub no_plans-IsValid : IsValid no_plans
  no_plans-IsValid = record {
    current = tt;
    count_in = omega arith;
    bytes_are = refl;
    bytes_in = omega arith;
  }

module _ {W A B : Type 0} (product : ℕ → W → ℕ → ℕ → A → B) (memory : ℕ → W) where
  abbrev pub taken : List Matrix → List (Matrix × W)
  taken ms = copies product memory ms

  pub copies-AllCopied : (ms : List Matrix) → AllCopied memory (taken ms)
  copies-AllCopied [] = tt
  copies-AllCopied (m ∷ ms) = (refl, copies-AllCopied ms)

  pub plan_bytes-copies : (ms : List Matrix) → plan_bytes memory (taken ms) ≡ exact_bytes ms
  plan_bytes-copies [] = refl
  plan_bytes-copies (m ∷ ms) = ap (λ n. m.weight_bytes + n) (plan_bytes-copies ms)

  pub AllCurrent-append :
      (ps : List (Plan W)) (p : Plan W)
      → AllCurrent memory ps
      → AllCopied memory p.weights
      → AllCurrent memory (ps ++ (p ∷ []))
  AllCurrent-append [] p h c = (c, tt)
  AllCurrent-append (q ∷ ps) p h c = (h.0, AllCurrent-append ps p h.1 c)

  pub plans_bytes-append :
      (ps : List (Plan W)) (p : Plan W)
      → plans_bytes memory (ps ++ (p ∷ [])) ≡ plans_bytes memory ps + plan_bytes memory p.weights
  plans_bytes-append [] p = omega arith
  plans_bytes-append (q ∷ ps) p = omega (arith, plans_bytes-append ps p)

  -- Copies of the same matrices are the same copies.
  same_matrices-copies :
      (ws : List (Matrix × W)) (ms : List Matrix)
      → AllCopied memory ws
      → same_matrices ws ms ≡ true
      → ws ≡ taken ms
  unfolding same_matrices
  same_matrices-copies [] [] c e = refl
  same_matrices-copies [] (m ∷ ms) c e = ground arith
  same_matrices-copies (w ∷ ws) [] c e = ground arith
  same_matrices-copies (w ∷ ws) (m ∷ ms) c e =
      let first : w.0 ≡ m = same_matrix-eq w.0 m (ground arith) in
      let rest = same_matrices-copies ws ms c.1 (ground arith) in
      λ i. ((first i, (c.0 ∙ ap (λ (n : Matrix). memory n.weights_host) first) i) ∷ rest i)

  pub find_plan-current :
      (ps : List (Plan W)) (ms : List Matrix) (width : ℕ) (p : Plan W)
      → AllCurrent memory ps
      → find_plan ps ms width ≡ some p
      → (p.weights ≡ taken ms) × (p.width ≡ width)
  unfolding find_plan
  find_plan-current [] ms width p h e = ground arith
  find_plan-current (q ∷ ps) ms width p h e =
      ground (arith, same_matrices-copies q.weights ms h.0, find_plan-current ps ms width p h.1)
