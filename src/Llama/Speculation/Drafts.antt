-- ===== src/Llama/Speculation/Drafts.antt =====
-- The draft model's part of a speculative step.
use fortai.Prelude.{
  ℕ, zero, suc, ◌+◌, ◌≡◌, refl, ap, some, List, [], ◌∷◌, ◌++◌, length, arith, length-append,
}
use mathlib.Core.Path.{subst}
use fortai.Llama.{last, Api, Handle, Drafted, drafts, numbered, argmax, one_token, also, draft_loop}
use fortai.Llama.Speculation.{Causal}

-- Drafts, and a draft context that is as long as it should be.
pub data Proposed {C : Type 0} (Holds : C → List ℕ → Type 0) (m size : ℕ) (r : C × Drafted)
    : Type 0 where
  proposed :
      (ds hist : List ℕ)
      → r.1 ≡ drafts ds
      → length ds ≡ m
      → Holds r.0 hist
      → length hist ≡ size + m
      → Proposed Holds m size r

module _ {C V : Type 0} (api : Api C V) (h : Handle) where
  draft_loop-suc :
      (fuel : ℕ) (draft : C) (input position : ℕ) (values : ℕ → V)
      → (api.decode draft (one_token api input position)).1 ≡ 0
      → api.logits (api.decode draft (one_token api input position)).0 last ≡ some values
      → draft_loop api h (suc fuel) draft input position ≡ (
        (draft_loop api h fuel
            (api.decode draft (one_token api input position)).0
            (argmax api values h.draft_vocab).0
            (position + 1)).0,
        also api
            (argmax api values h.draft_vocab).0
            (draft_loop api h fuel
              (api.decode draft (one_token api input position)).0
              (argmax api values h.draft_vocab).0
              (position + 1)).1,
      )
  unfolding draft_loop
  draft_loop-suc fuel draft input position values d l = rw (d, l, draft_loop) refl

  module _ (next : List ℕ → ℕ → V) (Holds : C → List ℕ → Type 0)
      (causal : Causal api next Holds) where
    also-Proposed :
        (d m size : ℕ) (r : C × Drafted)
        → Proposed Holds m (size + 1) r
        → Proposed Holds (suc m) size (r.0, also api d r.1)
    unfolding also
    also-Proposed d m size r (proposed ds hist e l k n) =
        proposed (d ∷ ds) hist (ap (also api d) e) (omega arith) k (omega arith)

    pub draft_loop-Proposed :
        (m : ℕ) (draft : C) (hist : List ℕ) (input : ℕ)
        → Holds draft hist
        → Proposed Holds m (length hist) (draft_loop api h m draft input (length hist))
    unfolding draft_loop one_token numbered
    draft_loop-Proposed zero draft hist input k = proposed [] hist refl refl k (omega arith)
    draft_loop-Proposed (suc m) draft hist input k =
        let after = (api.decode draft (one_token api input (length hist))).0 in
        let values = next (hist ++ (input ∷ [])) in
        rw
          (draft_loop-suc m draft input (length hist) values (causal.decodes draft hist input [] k)
            (causal.last_row draft hist input k))
          (also-Proposed (argmax api values h.draft_vocab).0 m (length hist)
            (draft_loop api h m after (argmax api values h.draft_vocab).0 (length hist + 1))
            (subst
              (λ p.
                Proposed Holds m p (draft_loop api h m after (argmax api values h.draft_vocab).0 p))
              (length-append hist (input ∷ []))
              (draft_loop-Proposed m after (hist ++ (input ∷ []))
                (argmax api values h.draft_vocab).0 (causal.holds draft hist input [] k))))
