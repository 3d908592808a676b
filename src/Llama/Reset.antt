-- ===== src/Llama/Reset.antt =====
-- `fortai_llama_fast_context_reset` of src/backend/cpu/fortai_llama_fast.c, which empties the contexts
-- for another conversation. The handle and its target context are not NULL.
use fortai.Prelude.{
  ℕ, ◌+◌, ◌≤◌, ◌≡◌, refl, Bool, true, false, not, ◌&&◌, List, [], if◌then◌else◌, arith, inl, inr,
  sym,
}
use mathlib.Core.Path.{subst}
use fortai.Libc.Environment.{Env}
use fortai.Llama.{Api, Handle, Contexts, decode_speculative}
use fortai.Llama.Speculation.{Causal}
use fortai.Llama.Speculation.Greedy.{Generated, decode_speculative-Generated}
use fortai.Llama.Context.{Outcomes, Owned, creates, context_create}
use fortai.Llama.Context.Readiness.{IsReady, IsDrafting, context_create-IsReady}

-- `llama_get_memory` and `llama_memory_clear`, and whether libllama has them.
pub record Memory (C : Type 0) : Type 0 where
  pub has_functions : Bool
  pub has_memory : C → Bool
  pub memory_clear : C → C

-- `fortai_llama_fast_context_reset`: the contexts, and the status
unfoldable pub context_reset : {C : Type 0} → Memory C → Handle → Contexts C → Contexts C × ℕ
context_reset memory h c =
    if not memory.has_functions
    then (c, 1)
    else if h.mtp_enabled
    then (
      record c {
        target = memory.memory_clear c.target;
        mtp = if h.has_mtp && memory.has_memory c.mtp then memory.memory_clear c.mtp else c.mtp;
      },
      0,
    )
    else (
      record c {
        target = memory.memory_clear c.target;
        draft = if h.spec_enabled && h.has_draft then memory.memory_clear c.draft else c.draft;
      },
      0,
    )

-- With a draft model, its context is emptied too.
reset_lem :
    {C : Type 0} (memory : Memory C) (h : Handle) (c : Contexts C)
    → memory.has_functions ≡ true
    → IsDrafting h
    → context_reset memory h c
      ≡ (record c { target = memory.memory_clear c.target; draft = memory.memory_clear c.draft }, 0)
unfolding context_reset
reset_lem memory h c f d = rw (f, d.mtp_off, d.on, d.drafts) refl

-- A handle that works with a draft model has been created as one.
created-IsDrafting :
    (context_size : ℕ) (h : Handle) (w : Owned)
    → IsReady context_size (creates h w)
    → h.spec_enabled ≡ true
    → h.mtp_enabled ≡ false
    → IsDrafting h × (h.max_context ≡ context_size)
created-IsDrafting context_size h w (inl mtp, v, m) s off = absurd (ground (arith, mtp.chosen))
created-IsDrafting context_size h w (inr (inl d), v, m) s off = (d, m)
created-IsDrafting context_size h w (inr (inr p), v, m) s off = absurd (ground (arith, p.off))

module _ {C V : Type 0} (api : Api C V) (memory : Memory C) (next draft_next : List ℕ → ℕ → V)
    (Holds DraftHolds : C → List ℕ → Type 0) (causal : Causal api next Holds)
    (draft_causal : Causal api draft_next DraftHolds) (has_functions : memory.has_functions ≡ true)
    (empties : (c : C) → Holds (memory.memory_clear c) [])
    (draft_empties : (c : C) → DraftHolds (memory.memory_clear c) []) where
  drafting-Generated :
      (h : Handle) (c : Contexts C) (token capacity : ℕ)
      → IsDrafting h
      → h.spec_max + 1 ≤ capacity
      → h.spec_max + 1 ≤ h.max_context
      → ((context_reset memory h c).1 ≡ 0)
        × Generated api next Holds DraftHolds h [] token
            (decode_speculative api h (context_reset memory h c).0 token 0 capacity)
  drafting-Generated h c token capacity d fits room =
      subst
        (λ (r : Contexts C × ℕ).
          (r.1 ≡ 0)
          × Generated api next Holds DraftHolds h [] token
              (decode_speculative api h r.0 token 0 capacity))
        (sym (reset_lem memory h c has_functions d))
        (
          refl,
          decode_speculative-Generated api next draft_next Holds DraftHolds causal draft_causal h
              (record c {
                target = memory.memory_clear c.target;
                draft = memory.memory_clear c.draft;
              })
              [] [] token capacity (empties c.target) (draft_empties c.draft) refl
              (ground (arith, d.mtp_off)) d.on d.drafts d.removes d.some_tokens fits
              (omega (arith, room)),
        )

-- The start of a conversation, on a handle that `fortai_llama_fast_context_create` has handed out with a
-- draft model and without an MTP head, whatever its contexts have evaluated before.
-- `fortai_llama_fast_context_reset` returns 0, and the next speculative step, at position 0, generates
-- the tokens of greedy steps of the target from an empty history. The contexts keep the contract of
-- llama.cpp, which clearing its memory is a part of; there is room for the drafts and one token more.
pub created_reset-Generated :
    {C V : Type 0} (api : Api C V) (memory : Memory C) (next draft_next : List ℕ → ℕ → V)
    (Holds DraftHolds : C → List ℕ → Type 0)
    → Causal api next Holds
    → Causal api draft_next DraftHolds
    → memory.has_functions ≡ true
    → ((c : C) → Holds (memory.memory_clear c) [])
    → ((c : C) → DraftHolds (memory.memory_clear c) [])
    → (env : Env) (o : Outcomes) (has_arguments : Bool) (context_size threads : ℕ) (h : Handle)
      (w : Owned) (c : Contexts C) (token capacity : ℕ)
    → (context_create env o has_arguments context_size threads).1 ≡ creates h w
    → h.spec_enabled ≡ true
    → h.mtp_enabled ≡ false
    → h.spec_max + 1 ≤ capacity
    → h.spec_max + 1 ≤ context_size
    → ((context_reset memory h c).1 ≡ 0)
      × Generated api next Holds DraftHolds h [] token
          (decode_speculative api h (context_reset memory h c).0 token 0 capacity)
created_reset-Generated api memory next draft_next Holds DraftHolds causal draft_causal functions
      empties draft_empties env o has_arguments context_size threads h w c token capacity e s off
      fits room =
    let (d, m) =
      created-IsDrafting context_size h w
        (subst (IsReady context_size) e
          (context_create-IsReady env o has_arguments context_size threads))
        s off in
    drafting-Generated api memory next draft_next Holds DraftHolds causal draft_causal functions
      empties draft_empties h c token capacity d fits (omega (arith, room, m))
