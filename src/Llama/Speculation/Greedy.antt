-- ===== src/Llama/Speculation/Greedy.antt =====
-- A speculative step generates what plain greedy steps do.
use fortai.Prelude.{
  ℕ, zero, suc, ◌+◌, ◌≤◌, ◌<◌, ◌≡◌, refl, sym, ap, ◌∙◌, true, false, ◌&&◌, some, List, [], ◌∷◌,
  ◌++◌, ltb, if◌then◌else◌, length, take, arith, Bool-cases, inl, inr, length-take,
  take_of_length-le,
}
use mathlib.Core.Path.{subst}
use fortai.Llama.{
  row, Api, Handle, Contexts, Step, generates, Drafted, drafts, Verified, accepts, numbered,
  draft_loop, verify_loop, finish, verify_drafts, decode_speculative,
}
use fortai.Llama.Speculation.{Causal, greedy, Accepted, accepted, verify_loop-Accepted}
use fortai.Llama.Speculation.Drafts.{Proposed, proposed, draft_loop-Proposed}

-- The result of a step at a history: `n` drafts were accepted, and the tokens are those of `n + 1`
-- greedy steps. The target has evaluated all of them but the last one. So has the draft context if
-- a draft was refused; if none was, it lacks the last draft.
pub record Generated {C V : Type 0} (api : Api C V) (next : List ℕ → ℕ → V)
    (Holds DraftHolds : C → List ℕ → Type 0) (h : Handle) (hist : List ℕ) (token : ℕ)
    (r : Contexts C × Step V) : Type 0 where
  pub n : ℕ
  pub tokens : List ℕ
  pub sum : V
  pub draft_hist : List ℕ
  pub result : r.1 ≡ generates tokens sum
  pub greedily : tokens ≡ greedy api next h.vocab (hist ++ (token ∷ [])) (suc n)
  pub fits : n ≤ h.spec_max
  pub target_holds : Holds r.0.target (hist ++ (token ∷ take n tokens))
  pub draft_holds : DraftHolds r.0.draft draft_hist
  pub length-draft_hist :
      length draft_hist ≡ length hist + (if ltb n h.spec_max then n + 1 else h.spec_max)

module _ {C V : Type 0} (api : Api C V) (h : Handle) (c : Contexts C) where
  finish-all :
      (position : ℕ) (ds : List ℕ) (n mismatch : ℕ) (sum : V)
      → ltb n h.spec_max ≡ false
      → finish api h c position ds (accepts n mismatch sum)
        ≡ (c, generates (take n ds ++ (mismatch ∷ [])) sum)
  unfolding finish
  finish-all position ds n mismatch sum e = rw e refl

  finish-some :
      (position : ℕ) (ds : List ℕ) (n mismatch : ℕ) (sum : V)
      → ltb n h.spec_max ≡ true
      → (api.memory_seq_rm c.target (position + n + 1)).1 ≡ true
      → (api.memory_seq_rm c.draft (position + n + 1)).1 ≡ true
      → finish api h c position ds (accepts n mismatch sum) ≡ (
        record c {
          target = (api.memory_seq_rm c.target (position + n + 1)).0;
          draft = (api.memory_seq_rm c.draft (position + n + 1)).0;
        },
        generates (take n ds ++ (mismatch ∷ [])) sum,
      )
  unfolding finish
  finish-some position ds n mismatch sum e t d = rw (e, t, d) refl

  verify_drafts-decoded :
      (token position : ℕ) (draft : C) (ds : List ℕ)
      → (api.decode c.target (record { embd = []; entries = numbered position (token ∷ ds) })).1 ≡ 0
      → verify_drafts api h c token position (draft, drafts ds)
        ≡ finish api h
            (record c {
              target =
                  (api.decode c.target
                    (record { embd = []; entries = numbered position (token ∷ ds) })).0;
              draft = draft;
            })
            position
            ds
            (verify_loop api h
              (api.decode c.target
                (record { embd = []; entries = numbered position (token ∷ ds) })).0
              0
              ds)
  unfolding verify_drafts
  verify_drafts-decoded token position draft ds e = rw e refl

  decode_speculative-drafts :
      (token position capacity : ℕ)
      → (h.mtp_enabled && h.has_mtp) ≡ false
      → h.spec_enabled ≡ true
      → h.has_draft ≡ true
      → h.has_seq_rm ≡ true
      → 0 < h.spec_max
      → h.spec_max + 1 ≤ capacity
      → position + h.spec_max + 1 ≤ h.max_context
      → decode_speculative api h c token position capacity
        ≡ verify_drafts api h c token position (draft_loop api h h.spec_max c.draft token position)
  unfolding decode_speculative
  decode_speculative-drafts token position capacity m s d r pos cap room = ground arith

take-append_more : (a l : List ℕ) (k : ℕ) → take (length a + k) (a ++ l) ≡ a ++ take k l
take-append_more [] l k = ap (λ j. take j l) (plus k)
  where
    plus : (k : ℕ) → 0 + k ≡ k
    plus k = omega arith
take-append_more (x ∷ a) l k =
    ap (λ j. take j (x ∷ (a ++ l))) (plus (length a) k) ∙ ap (λ t. x ∷ t) (take-append_more a l k)
  where
    plus : (m k : ℕ) → suc m + k ≡ suc (m + k)
    plus m k = omega arith

take-hist :
    (hist : List ℕ) (token : ℕ) (ds : List ℕ) (n : ℕ)
    → take (length hist + n + 1) (hist ++ (token ∷ ds)) ≡ hist ++ (token ∷ take n ds)
take-hist hist token ds n =
    ap (λ j. take j (hist ++ (token ∷ ds))) (plus (length hist) n)
    ∙ take-append_more hist (token ∷ ds) (suc n)
  where
    plus : (m n : ℕ) → m + n + 1 ≡ m + suc n
    plus m n = omega arith

take-take_one : (ds : List ℕ) (n m : ℕ) → n ≤ length ds → take n (take n ds ++ (m ∷ [])) ≡ take n ds
take-take_one ds zero m h = refl
take-take_one [] (suc n) m h = absurd (omega arith)
take-take_one (d ∷ ds) (suc n) m h = ap (λ t. d ∷ t) (take-take_one ds n m (omega arith))

module _ {C V : Type 0} (api : Api C V) (next draft_next : List ℕ → ℕ → V)
    (Holds DraftHolds : C → List ℕ → Type 0) (causal : Causal api next Holds)
    (draft_causal : Causal api draft_next DraftHolds) (h : Handle) (hist : List ℕ) (token : ℕ) where
  finish-Generated :
      (c : Contexts C) (ds draft_hist : List ℕ) (v : Verified V)
      → Holds c.target (hist ++ (token ∷ ds))
      → DraftHolds c.draft draft_hist
      → length draft_hist ≡ length hist + h.spec_max
      → length ds ≡ h.spec_max
      → Accepted api next h.vocab (hist ++ (token ∷ [])) ds v
      → Generated api next Holds DraftHolds h hist token (finish api h c (length hist) ds v)
  finish-Generated c ds draft_hist v k dk dl l (accepted n mismatch sum e m g) =
      elim (Bool-cases (ltb n h.spec_max)) [
        | inl less ↦
            subst (λ r. Generated api next Holds DraftHolds h hist token r)
              (sym (
                ap (finish api h c (length hist) ds) e
                ∙ finish-some api h c (length hist) ds n mismatch sum less
                    (causal.removes c.target (hist ++ (token ∷ ds)) (length hist + n + 1) k)
                    (draft_causal.removes c.draft draft_hist (length hist + n + 1) dk)))
              record {
                n = n;
                tokens = take n ds ++ (mismatch ∷ []);
                sum = sum;
                draft_hist = take (length hist + n + 1) draft_hist;
                result = refl;
                greedily = g;
                fits = omega arith;
                target_holds =
                    subst (λ l. Holds (api.memory_seq_rm c.target (length hist + n + 1)).0 l)
                      (take-hist hist token ds n
                        ∙ ap (λ t. hist ++ (token ∷ t)) (sym (take-take_one ds n mismatch m)))
                      (causal.removed c.target (hist ++ (token ∷ ds)) (length hist + n + 1) k);
                draft_holds = draft_causal.removed c.draft draft_hist (length hist + n + 1) dk;
                length-draft_hist = ground (arith, length-take (length hist + n + 1) draft_hist);
              }
        | inr full ↦
            subst (λ r. Generated api next Holds DraftHolds h hist token r)
              (sym (
                ap (finish api h c (length hist) ds) e
                ∙ finish-all api h c (length hist) ds n mismatch sum full))
              record {
                n = n;
                tokens = take n ds ++ (mismatch ∷ []);
                sum = sum;
                draft_hist = draft_hist;
                result = refl;
                greedily = g;
                fits = omega arith;
                target_holds =
                    subst (λ t. Holds c.target (hist ++ (token ∷ t)))
                      (sym (take-take_one ds n mismatch m ∙ take_of_length-le n ds (ground arith)))
                      k;
                draft_holds = dk;
                length-draft_hist = ground arith;
              }
      ]

  verified-Generated :
      (c : Contexts C) (r : C × Drafted)
      → Holds c.target hist
      → Proposed DraftHolds h.spec_max (length hist) r
      → Generated api next Holds DraftHolds h hist token
          (verify_drafts api h c token (length hist) r)
  verified-Generated c (draft, result) k (proposed ds draft_hist e l dk dl) =
      subst
        (λ d.
          Generated api next Holds DraftHolds h hist token
            (verify_drafts api h c token (length hist) (draft, d)))
        (sym e)
        (subst (λ r. Generated api next Holds DraftHolds h hist token r)
          (sym (
            verify_drafts-decoded api h c token (length hist) draft ds
              (causal.decodes c.target hist token ds k)))
          (finish-Generated
            (record c {
              target =
                  (api.decode c.target
                    (record { embd = []; entries = numbered (length hist) (token ∷ ds) })).0;
              draft = draft;
            })
            ds draft_hist
            (verify_loop api h
              (api.decode c.target
                (record { embd = []; entries = numbered (length hist) (token ∷ ds) })).0
              0 ds)
            (causal.holds c.target hist token ds k) dk dl l
            (verify_loop-Accepted api next h
              (api.decode c.target
                (record { embd = []; entries = numbered (length hist) (token ∷ ds) })).0
              0 (hist ++ (token ∷ [])) ds
              λ j m.
                subst
                  (λ i.
                    api.logits
                      (api.decode c.target
                        (record { embd = []; entries = numbered (length hist) (token ∷ ds) })).0
                      (row i)
                    ≡ some (next ((hist ++ (token ∷ [])) ++ take j ds)))
                  (from_zero j) (causal.rows c.target hist token ds j k m))))
    where
      from_zero : (j : ℕ) → j ≡ 0 + j
      from_zero j = omega arith

-- Speculation does not change what is generated. Speculation is on, with a draft context and
-- without the MTP head; `spec_max + 1` tokens fit into `capacity` and below `max_context`. Both
-- contexts keep the contract of llama.cpp, the target with the logits `next`, and have evaluated
-- as many tokens as the position says; the draft context may hold any tokens and follow any model.
-- Then the step succeeds, and returns `n + 1` tokens, at least one and at most `spec_max + 1`:
-- exactly those of `n + 1` greedy steps of the target. The target has then evaluated all of them
-- but the last one. The draft context is as long as the target's, unless all drafts were accepted:
-- then it is one token short.
pub decode_speculative-Generated :
    {C V : Type 0} (api : Api C V) (next draft_next : List ℕ → ℕ → V)
    (Holds DraftHolds : C → List ℕ → Type 0)
    → Causal api next Holds
    → Causal api draft_next DraftHolds
    → (h : Handle) (c : Contexts C) (hist draft_hist : List ℕ) (token capacity : ℕ)
    → Holds c.target hist
    → DraftHolds c.draft draft_hist
    → length draft_hist ≡ length hist
    → (h.mtp_enabled && h.has_mtp) ≡ false
    → h.spec_enabled ≡ true
    → h.has_draft ≡ true
    → h.has_seq_rm ≡ true
    → 0 < h.spec_max
    → h.spec_max + 1 ≤ capacity
    → length hist + h.spec_max + 1 ≤ h.max_context
    → Generated api next Holds DraftHolds h hist token
        (decode_speculative api h c token (length hist) capacity)
decode_speculative-Generated api next draft_next Holds DraftHolds causal draft_causal h c hist
      draft_hist token capacity k dk dl mtp spec draft rm pos cap room =
    subst (λ r. Generated api next Holds DraftHolds h hist token r)
      (sym (
        decode_speculative-drafts api h c token (length hist) capacity mtp spec draft rm pos cap
          room))
      (verified-Generated api next draft_next Holds DraftHolds causal draft_causal h hist token c
        (draft_loop api h h.spec_max c.draft token (length hist)) k
        (subst (λ p. Proposed DraftHolds h.spec_max p (draft_loop api h h.spec_max c.draft token p))
          dl
          (draft_loop-Proposed api h draft_next DraftHolds draft_causal h.spec_max c.draft
            draft_hist token dk)))
