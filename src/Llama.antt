-- ===== src/Llama.antt =====
-- Decoding in src/backend/cpu/fortai_llama_fast.c: `fortai_argmax_f32`, and
-- `fortai_llama_fast_context_decode_greedy` and `..._decode_speculative`. The calls into llama.cpp
-- are the parameter `Api`; a context is what `decode` changes. A token and a position are not
-- negative here, and the handle, its target context and the output pointers are not NULL; the
-- batches are filled anew for each call, so they are arguments of `decode` only.
pub mod Argmax
pub mod Context
pub mod Mtp
pub mod Reset
pub mod Library
pub mod Settings
pub mod Split
pub mod Speculation
pub mod Tests
use fortai.Prelude.{
  ℕ, zero, suc, ◌+◌, ◌-◌, ◌*◌, Bool, true, false, not, ◌&&◌, ◌||◌, Option, none, some, List, [],
  ◌∷◌, ◌++◌, ltb, leb, ◌==◌, if◌then◌else◌, length, take,
}

-- Which row `llama_get_logits_ith` is asked for: -1 is the last one.
pub data Row : Type 0 where
  last : Row
  row : ℕ → Row

-- `llama_batch`: the embedding, if there is one, and each token with its position; every entry is
-- in sequence 0 and asks for logits.
pub record Batch (V : Type 0) : Type 0 where
  pub embd : List V
  pub entries : List (ℕ × ℕ)

-- The functions of libllama that the handle holds, and the `>` and `+` of the floats. A status of
-- 0 is success; `memory_seq_rm` removes sequence 0 from a position on.
pub record Api (C V : Type 0) : Type 0 where
  pub decode : C → Batch V → C × ℕ
  pub logits : C → Row → Option (ℕ → V)
  pub embeddings_nextn : C → Option (List V)
  pub memory_seq_rm : C → ℕ → C × Bool
  pub gt : V → V → Bool
  pub add : V → V → V

-- What `fortai_llama_handle` says of the contexts; a `has_` field tells whether pointers are set.
pub record Handle : Type 0 where
  pub vocab : ℕ
  pub draft_vocab : ℕ
  pub max_context : ℕ
  pub spec_enabled : Bool
  pub spec_max : ℕ
  pub has_draft : Bool
  pub has_seq_rm : Bool
  pub mtp_enabled : Bool
  pub has_mtp : Bool
  pub has_nextn : Bool
  pub has_mtp_batch : Bool
  pub mtp_embd : ℕ

pub record Contexts (C : Type 0) : Type 0 where
  pub target : C
  pub draft : C
  pub mtp : C

-- The status that is returned, or 0 with the tokens and `*logit_sum`.
pub data Step (V : Type 0) : Type 0 where
  fails : ℕ → Step V
  generates : List ℕ → V → Step V

-- What the draft model proposes, or the status.
pub data Drafted : Type 0 where
  stops : ℕ → Drafted
  drafts : List ℕ → Drafted

-- How many drafts the target accepts, its own next token and `*logit_sum`, or the status.
pub data Verified (V : Type 0) : Type 0 where
  rejects : ℕ → Verified V
  accepts : ℕ → ℕ → V → Verified V

-- Each token with its position.
unfoldable pub numbered : ℕ → List ℕ → List (ℕ × ℕ)
numbered position [] = []
numbered position (t ∷ ts) = (t, position) ∷ numbered (position + 1) ts

module _ {C V : Type 0} (api : Api C V) where
  -- the loop of `fortai_argmax_f32`, from index `i` on
  unfoldable pub argmax_loop : (ℕ → V) → ℕ → ℕ → ℕ → V → V → ℕ × V
  argmax_loop values zero i best best_value total = (best, total)
  argmax_loop values (suc fuel) i best best_value total =
      if api.gt (values i) best_value
      then argmax_loop values fuel (i + 1) i (values i) (api.add total (values i))
      else argmax_loop values fuel (i + 1) best best_value (api.add total (values i))

  -- `fortai_argmax_f32`, the code without AVX2
  unfoldable pub argmax : (ℕ → V) → ℕ → ℕ × V
  argmax values count = argmax_loop values (count - 1) 1 0 (values 0) (values 0)

  unfoldable pub one_token : ℕ → ℕ → Batch V
  one_token token position = record { embd = []; entries = (token, position) ∷ [] }

  -- `fortai_llama_fast_context_decode_greedy`
  unfoldable pub decode_greedy : Handle → C → ℕ → ℕ → C × Step V
  decode_greedy h target token position =
      if leb h.max_context position
      then (target, fails 1)
      else let (after, status) = api.decode target (one_token token position) in
        (
          after,
          if not (status == 0) then fails 2 else elim (api.logits after last) [
            | none ↦ fails 3
            | some values ↦
                if h.vocab == 0
                then fails 3
                else let (next, sum) = argmax values h.vocab in generates (next ∷ []) sum
          ],
        )

  unfoldable pub also : ℕ → Drafted → Drafted
  also d (stops status) = stops status
  also d (drafts ds) = drafts (d ∷ ds)

  -- the loop over the draft model: `fuel` tokens, from the token `input` at `position` on
  unfoldable pub draft_loop : Handle → ℕ → C → ℕ → ℕ → C × Drafted
  draft_loop h zero draft input position = (draft, drafts [])
  draft_loop h (suc fuel) draft input position =
      let (after, status) = api.decode draft (one_token input position) in
      if not (status == 0) then (after, stops 3) else elim (api.logits after last) [
        | none ↦ (after, stops 4)
        | some values ↦
            let d = (argmax values h.draft_vocab).0 in
            let (end, rest) = draft_loop h fuel after d (position + 1) in (end, also d rest)
      ]

  unfoldable pub one_more : Verified V → Verified V
  one_more (rejects status) = rejects status
  one_more (accepts n mismatch sum) = accepts (n + 1) mismatch sum

  -- the loop over the target's rows from `i` on, and the row behind them if all are accepted
  unfoldable pub verify_loop : Handle → C → ℕ → List ℕ → Verified V
  verify_loop h target i [] = elim (api.logits target (row i)) [
    | none ↦ rejects 7
    | some values ↦ let (mismatch, sum) = argmax values h.vocab in accepts 0 mismatch sum
  ]
  verify_loop h target i (d ∷ ds) = elim (api.logits target (row i)) [
    | none ↦ rejects 6
    | some values ↦
        let (mismatch, sum) = argmax values h.vocab in
        if mismatch == d then one_more (verify_loop h target (i + 1) ds) else accepts 0 mismatch sum
  ]

  -- the draft head: `handle->mtp_enabled && handle->mtp_context != NULL`
  unfoldable pub decode_mtp : Handle → Contexts C → ℕ → ℕ → Contexts C × Step V
  decode_mtp h c token position =
      if not h.has_nextn || (not h.has_mtp_batch || h.mtp_embd == 0)
      then (c, fails 1)
      else let (target, status) = api.decode c.target (one_token token position) in
        if not (status == 0)
        then (record c { target = target }, fails 2)
        else elim (api.logits target last) [
          | none ↦ (record c { target = target }, fails 3)
          | some values ↦ elim (api.embeddings_nextn target) [
            | none ↦ (record c { target = target }, fails 3)
            | some hidden ↦
                let (target_token, sum) = argmax values h.vocab in
                let (mtp, mtp_status) =
                  api.decode c.mtp
                    (record { embd = take h.mtp_embd hidden; entries = (token, position) ∷ [] }) in
                (
                  record c { target = target; mtp = mtp },
                  if not (mtp_status == 0) then fails 4 else elim (api.logits mtp last) [
                    | none ↦ fails 5
                    | some draft_values ↦
                        let draft_token = (argmax draft_values h.vocab).0 in
                        generates
                          ((if draft_token == target_token then draft_token else target_token) ∷ [])
                          sum
                  ],
                )
          ]
        ]

  -- the last part: the rollback of what is not accepted, and the tokens
  unfoldable pub finish : Handle → Contexts C → ℕ → List ℕ → Verified V → Contexts C × Step V
  finish h c position ds (rejects status) = (c, fails status)
  finish h c position ds (accepts accepted mismatch sum) =
      if ltb accepted h.spec_max
      then (let (target, removed) = api.memory_seq_rm c.target (position + accepted + 1) in
          if not removed
          then (record c { target = target }, fails 8)
          else let (draft, draft_removed) = api.memory_seq_rm c.draft (position + accepted + 1) in
            (
              record c { target = target; draft = draft },
              if not draft_removed
                  then fails 9
                  else generates (take accepted ds ++ (mismatch ∷ [])) sum,
            ))
      else (c, generates (take accepted ds ++ (mismatch ∷ [])) sum)

  -- the target's batch behind the draft model's loop, and what follows
  unfoldable pub verify_drafts : Handle → Contexts C → ℕ → ℕ → C × Drafted → Contexts C × Step V
  verify_drafts h c token position (draft, stops status) =
      (record c { draft = draft }, fails status)
  verify_drafts h c token position (draft, drafts ds) =
      let (target, status) =
        api.decode c.target (record { embd = []; entries = numbered position (token ∷ ds) }) in
      if not (status == 0)
      then (record c { target = target; draft = draft }, fails 5)
      else finish h (record c { target = target; draft = draft }) position ds
          (verify_loop h target 0 ds)

  -- the plain step in place of a speculative one
  unfoldable pub greedy_instead : Contexts C → C × Step V → Contexts C × Step V
  greedy_instead c (target, fails status) = (record c { target = target }, fails 2)
  greedy_instead c (target, generates ts sum) = (record c { target = target }, generates ts sum)

  -- `fortai_llama_fast_context_decode_speculative`
  unfoldable pub decode_speculative : Handle → Contexts C → ℕ → ℕ → ℕ → Contexts C × Step V
  decode_speculative h c token position capacity =
      if leb h.max_context position || capacity == 0
      then (c, fails 1)
      else if h.mtp_enabled && h.has_mtp
      then decode_mtp h c token position
      else if not h.spec_enabled
          || (h.spec_max == 0
              || (not h.has_draft
                  || (not h.has_seq_rm
                      || (ltb capacity (h.spec_max + 1)
                          || ltb (h.max_context - position) (h.spec_max + 1)))))
      then greedy_instead c (decode_greedy h c.target token position)
      else verify_drafts h c token position (draft_loop h h.spec_max c.draft token position)
