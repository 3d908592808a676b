-- ===== src/Llama/Speculation.antt =====
-- What the target makes of the drafts, for a target that keeps the contract of llama.cpp.
pub mod Drafts
pub mod Greedy
use fortai.Prelude.{
  ℕ, zero, suc, ◌+◌, ◌-◌, ◌≤◌, ◌<◌, ◌≡◌, refl, sym, ap, ◌∙◌, Bool, true, false, not, ◌&&◌, ◌||◌,
  Option, some, none, List, [], ◌∷◌, ◌++◌, ltb, leb, ◌==◌, if◌then◌else◌, length, take, arith,
  Bool-cases, inl, inr, ==_iff, append_assoc, append-nil,
}
use mathlib.Core.Path.{subst}
use fortai.Llama.{
  Row, last, row, Batch, Api, Handle, Contexts, Step, generates, Drafted, stops, drafts, Verified,
  rejects, accepts, numbered, argmax, one_token, also, draft_loop, one_more, verify_loop, finish,
  verify_drafts, decode_speculative,
}

-- What llama.cpp documents of a context and a causal model. `Holds c hist` says that the context
-- has evaluated the tokens `hist`, in this order, and `next` are the logits behind a history. A
-- batch that continues the history is evaluated; each of its rows has the logits behind its token;
-- and tokens behind a position can be removed.
pub record Causal {C V : Type 0} (api : Api C V) (next : List ℕ → ℕ → V)
    (Holds : C → List ℕ → Type 0) : Type 0 where
  pub decodes :
      (c : C) (hist : List ℕ) (t : ℕ) (ts : List ℕ)
      → Holds c hist
      → (api.decode c (record { embd = []; entries = numbered (length hist) (t ∷ ts) })).1 ≡ 0
  pub holds :
      (c : C) (hist : List ℕ) (t : ℕ) (ts : List ℕ)
      → Holds c hist
      → Holds
          (api.decode c (record { embd = []; entries = numbered (length hist) (t ∷ ts) })).0
          (hist ++ (t ∷ ts))
  pub rows :
      (c : C) (hist : List ℕ) (t : ℕ) (ts : List ℕ) (i : ℕ)
      → Holds c hist
      → i ≤ length ts
      → api.logits
          (api.decode c (record { embd = []; entries = numbered (length hist) (t ∷ ts) })).0
          (row i)
        ≡ some (next ((hist ++ (t ∷ [])) ++ take i ts))
  pub last_row :
      (c : C) (hist : List ℕ) (t : ℕ)
      → Holds c hist
      → api.logits
          (api.decode c (record { embd = []; entries = numbered (length hist) (t ∷ []) })).0
          last
        ≡ some (next (hist ++ (t ∷ [])))
  pub removes : (c : C) (hist : List ℕ) (k : ℕ) → Holds c hist → (api.memory_seq_rm c k).1 ≡ true
  pub removed :
      (c : C) (hist : List ℕ) (k : ℕ) → Holds c hist → Holds (api.memory_seq_rm c k).0 (take k hist)

-- Plain greedy decoding: `n` tokens behind a history.
abbrev pub greedy : {C V : Type 0} → Api C V → (List ℕ → ℕ → V) → ℕ → List ℕ → ℕ → List ℕ
greedy api next vocab hist zero = []
greedy api next vocab hist (suc n) =
    (argmax api (next hist) vocab).0
    ∷ greedy api next vocab (hist ++ ((argmax api (next hist) vocab).0 ∷ [])) n

-- What `verify_loop` finds behind the history `pre`.
pub data Accepted {C V : Type 0} (api : Api C V) (next : List ℕ → ℕ → V) (vocab : ℕ)
    (pre ds : List ℕ) (v : Verified V) : Type 0 where
  accepted :
      (n mismatch : ℕ) (sum : V)
      → v ≡ accepts n mismatch sum
      → n ≤ length ds
      → take n ds ++ (mismatch ∷ []) ≡ greedy api next vocab pre (suc n)
      → Accepted api next vocab pre ds v

module _ {C V : Type 0} (api : Api C V) (h : Handle) (target : C) where
  verify-end :
      (i : ℕ) (values : ℕ → V)
      → api.logits target (row i) ≡ some values
      → verify_loop api h target i []
        ≡ accepts 0 (argmax api values h.vocab).0 (argmax api values h.vocab).1
  unfolding verify_loop
  verify-end i values e = rw (e, verify_loop) refl

  verify-stop :
      (i d : ℕ) (ds : List ℕ) (values : ℕ → V)
      → api.logits target (row i) ≡ some values
      → ((argmax api values h.vocab).0 == d) ≡ false
      → verify_loop api h target i (d ∷ ds)
        ≡ accepts 0 (argmax api values h.vocab).0 (argmax api values h.vocab).1
  unfolding verify_loop
  verify-stop i d ds values e k = rw (e, verify_loop) (rw k refl)

  verify-more :
      (i d : ℕ) (ds : List ℕ) (values : ℕ → V)
      → api.logits target (row i) ≡ some values
      → ((argmax api values h.vocab).0 == d) ≡ true
      → verify_loop api h target i (d ∷ ds) ≡ one_more api (verify_loop api h target (i + 1) ds)
  unfolding verify_loop
  verify-more i d ds values e k = rw (e, verify_loop) (rw k refl)

-- Rows that stand behind `pre` and each beginning of the drafts.
abbrev pub HasRows : {C V : Type 0} → Api C V → (List ℕ → ℕ → V) → C → ℕ → List ℕ → List ℕ → Type 0
HasRows api next target i pre ds =
    (j : ℕ) → j ≤ length ds → api.logits target (row (i + j)) ≡ some (next (pre ++ take j ds))

first_row :
    {C V : Type 0} (api : Api C V) (next : List ℕ → ℕ → V) (target : C) (i : ℕ) (pre ds : List ℕ)
    → HasRows api next target i pre ds
    → api.logits target (row i) ≡ some (next pre)
first_row api next target i pre ds r =
    subst (λ k. api.logits target (row k) ≡ some (next pre)) (plus_zero i)
      (subst (λ l. api.logits target (row (i + 0)) ≡ some (next l)) (append-nil pre)
        (r 0 (omega arith)))
  where
    plus_zero : (i : ℕ) → i + 0 ≡ i
    plus_zero i = omega arith

later_rows :
    {C V : Type 0} (api : Api C V) (next : List ℕ → ℕ → V) (target : C) (i d : ℕ) (pre ds : List ℕ)
    → HasRows api next target i pre (d ∷ ds)
    → HasRows api next target (i + 1) (pre ++ (d ∷ [])) ds
later_rows api next target i d pre ds r j l =
    subst (λ k. api.logits target (row k) ≡ some (next ((pre ++ (d ∷ [])) ++ take j ds)))
      (plus_suc i j)
      (subst (λ p. api.logits target (row (i + suc j)) ≡ some (next p))
        (sym (append_assoc pre (d ∷ []) (take j ds))) (r (suc j) (omega arith)))
  where
    plus_suc : (i j : ℕ) → i + suc j ≡ i + 1 + j
    plus_suc i j = omega arith

pub verify_loop-Accepted :
    {C V : Type 0} (api : Api C V) (next : List ℕ → ℕ → V) (h : Handle) (target : C) (i : ℕ)
    (pre ds : List ℕ)
    → HasRows api next target i pre ds
    → Accepted api next h.vocab pre ds (verify_loop api h target i ds)
unfolding one_more
verify_loop-Accepted api next h target i pre [] r =
    accepted 0 (argmax api (next pre) h.vocab).0 (argmax api (next pre) h.vocab).1
      (verify-end api h target i (next pre) (first_row api next target i pre [] r)) (omega arith)
      refl
verify_loop-Accepted api next h target i pre (d ∷ ds) r =
    elim (Bool-cases ((argmax api (next pre) h.vocab).0 == d)) [
      | inr k ↦
          accepted 0 (argmax api (next pre) h.vocab).0 (argmax api (next pre) h.vocab).1
            (verify-stop api h target i d ds (next pre) (first_row api next target i pre (d ∷ ds) r)
              k)
            (omega arith) refl
      | inl k ↦
          elim (verify_loop-Accepted api next h target (i + 1) (pre ++ (d ∷ [])) ds
            (later_rows api next target i d pre ds r)) [
              | accepted n mismatch sum e l g ↦
                  accepted (suc n) mismatch sum
                    (verify-more api h target i d ds (next pre)
                        (first_row api next target i pre (d ∷ ds) r) k
                      ∙ ap (one_more api) e
                      ∙ ap (λ m. accepts m mismatch sum) (one_more_lem n))
                    (omega arith)
                    (ap (λ l. d ∷ l) g
                      ∙ ap (λ t. t ∷ greedy api next h.vocab (pre ++ (t ∷ [])) (suc n))
                          (sym ((==_iff (argmax api (next pre) h.vocab).0 d).0 k)))
            ]
    ]
  where
    one_more_lem : (n : ℕ) → n + 1 ≡ suc n
    one_more_lem n = omega arith
