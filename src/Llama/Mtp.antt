-- ===== src/Llama/Mtp.antt =====
-- The step with the MTP head against the greedy step.
use fortai.Prelude.{
  ℕ, ◌<◌, ◌≡◌, refl, ap, true, false, not, ◌&&◌, ◌||◌, some, List, [], ◌∷◌, leb, ◌==◌,
  if◌then◌else◌, take, arith,
}
use fortai.Llama.{
  last, Batch, Api, Handle, Contexts, generates, argmax, one_token, decode_greedy, decode_mtp,
  decode_speculative,
}

same_token : (d t : ℕ) → (if d == t then d else t) ≡ t
same_token d t = ground arith

-- what is given to the head
abbrev pub mtp_batch : {V : Type 0} → Handle → List V → ℕ → ℕ → Batch V
mtp_batch h hidden token position = record {
  embd = take h.mtp_embd hidden;
  entries = (token, position) ∷ [];
}

module _ {C V : Type 0} (api : Api C V) (h : Handle) (c : Contexts C) (token position capacity : ℕ)
    (values draft_values : ℕ → V) (hidden : List V) where
  greedy_lem :
      leb h.max_context position ≡ false
      → (h.vocab == 0) ≡ false
      → (api.decode c.target (one_token api token position)).1 ≡ 0
      → api.logits (api.decode c.target (one_token api token position)).0 last ≡ some values
      → decode_greedy api h c.target token position ≡ (
        (api.decode c.target (one_token api token position)).0,
        generates ((argmax api values h.vocab).0 ∷ []) (argmax api values h.vocab).1,
      )
  unfolding decode_greedy
  greedy_lem p v d l = rw (p, d, l, v, decode_greedy) refl

  mtp_lem :
      (not h.has_nextn || (not h.has_mtp_batch || h.mtp_embd == 0)) ≡ false
      → (api.decode c.target (one_token api token position)).1 ≡ 0
      → api.logits (api.decode c.target (one_token api token position)).0 last ≡ some values
      → api.embeddings_nextn (api.decode c.target (one_token api token position)).0 ≡ some hidden
      → (api.decode c.mtp (mtp_batch h hidden token position)).1 ≡ 0
      → api.logits (api.decode c.mtp (mtp_batch h hidden token position)).0 last ≡ some draft_values
      → decode_mtp api h c token position ≡ (
        record c {
          target = (api.decode c.target (one_token api token position)).0;
          mtp = (api.decode c.mtp (mtp_batch h hidden token position)).0;
        },
        generates
            ((if (argmax api draft_values h.vocab).0 == (argmax api values h.vocab).0
                then (argmax api draft_values h.vocab).0
                else (argmax api values h.vocab).0)
              ∷ [])
            (argmax api values h.vocab).1,
      )
  unfolding decode_mtp
  mtp_lem ready d l e md ml = rw (ready, d, l, e, md, ml, decode_mtp) refl

  spec_lem :
      leb h.max_context position ≡ false
      → (capacity == 0) ≡ false
      → (h.mtp_enabled && h.has_mtp) ≡ true
      → decode_speculative api h c token position capacity ≡ decode_mtp api h c token position
  unfolding decode_speculative
  spec_lem p k m = rw (p, k, m) refl

-- With the MTP head a step generates the token that the greedy step generates, with the same sum of
-- logits, and leaves the target as the greedy step does: what the head proposes is never used. The
-- head is set up, the calls into llama.cpp succeed, the position is below the limit, and there is
-- room for a token.
pub decode_speculative-decode_greedy :
    {C V : Type 0} (api : Api C V) (h : Handle) (c : Contexts C) (token position capacity : ℕ)
    (values draft_values : ℕ → V) (hidden : List V)
    → position < h.max_context
    → 0 < capacity
    → 0 < h.vocab
    → (h.mtp_enabled && h.has_mtp) ≡ true
    → (h.has_nextn && h.has_mtp_batch) ≡ true
    → 0 < h.mtp_embd
    → (api.decode c.target (one_token api token position)).1 ≡ 0
    → api.logits (api.decode c.target (one_token api token position)).0 last ≡ some values
    → api.embeddings_nextn (api.decode c.target (one_token api token position)).0 ≡ some hidden
    → (api.decode c.mtp (mtp_batch h hidden token position)).1 ≡ 0
    → api.logits (api.decode c.mtp (mtp_batch h hidden token position)).0 last ≡ some draft_values
    → ((decode_speculative api h c token position capacity).1
        ≡ (decode_greedy api h c.target token position).1)
      × ((decode_speculative api h c token position capacity).0.target
          ≡ (decode_greedy api h c.target token position).0)
decode_speculative-decode_greedy api h c token position capacity values draft_values hidden p k v m
      ready size d l e md ml =
    rw
      (
        spec_lem api h c token position capacity values draft_values hidden (ground arith)
            (ground arith) m,
        mtp_lem api h c token position capacity values draft_values hidden (ground arith) d l e md
            ml,
        greedy_lem api h c token position capacity values draft_values hidden (ground arith)
            (ground arith) d l,
      )
      (
        ap (λ t. generates (t ∷ []) (argmax api values h.vocab).1)
            (same_token (argmax api draft_values h.vocab).0 (argmax api values h.vocab).0),
        refl,
      )
