-- ===== src/Llama/Tests.antt =====
-- Uses of the theorems on decoding, with a small model in place of llama.cpp: a context is the
-- tokens it has evaluated and those of the last batch, and the next token is the length of the
-- history modulo 3.
pub mod Loading
use fortai.Prelude.{
  ℕ, suc, ◌+◌, ◌%◌, ◌≡◌, refl, ap, ◌∙◌, true, false, Option, some, none, List, [], ◌∷◌, ◌++◌, ltb,
  ◌==◌, if◌then◌else◌, length, take, arith, append_assoc, append-nil,
}
use fortai.Llama.{
  Row, last, row, Api, Handle, Contexts, numbered, argmax, decode_speculative, decode_greedy,
  one_token,
}
use fortai.Llama.Mtp.{decode_speculative-decode_greedy}
use fortai.Llama.Argmax.{IsGreater, IsFirst, argmax-IsFirst}
use fortai.Llama.Context.{
  Owned, Created, fails, creates, target_owned, context_create, load_target, open_target,
  create_speculation, create_with_draft, create_draft, create_mtp,
}
use fortai.Libc.{str_eq, case_starts_with}
use fortai.Llama.Settings.{
  env3, draft_path, path_requests_mtp, requested_spec_max, names_mtp, case_contains, parse_int,
  int_value, parse_bool, parse_word,
}
use fortai.Libc.Numbers.{strtol}
use fortai.Llama.Context.Tests.{draft_env, all_succeed}
use fortai.Llama.Reset.{Memory, context_reset, created_reset-Generated}
use fortai.Llama.Speculation.{Causal}
use fortai.Llama.Speculation.Greedy.{Generated, decode_speculative-Generated}

abbrev Context : Type 0
Context = List ℕ × List ℕ

abbrev tokens_of : List (ℕ × ℕ) → List ℕ
tokens_of [] = []
tokens_of (e ∷ es) = e.0 ∷ tokens_of es

abbrev next_logits : List ℕ → ℕ → ℕ
next_logits hist token = if token == length hist % 3 then 1 else 0

abbrev row_of : Context → Row → Option (ℕ → ℕ)
row_of c last = some (next_logits (c.0 ++ c.1))
row_of c (row i) = some (next_logits (c.0 ++ take (suc i) c.1))

abbrev api : Api Context ℕ
api = record {
  decode = λ c b. ((c.0 ++ c.1, tokens_of b.entries), 0);
  logits = row_of;
  embeddings_nextn = λ c. none;
  memory_seq_rm = λ c k. ((take k (c.0 ++ c.1), []), true);
  gt = λ a b. ltb b a;
  add = λ a b. a + b;
}

abbrev Holds : Context → List ℕ → Type 0
Holds c hist = c.0 ++ c.1 ≡ hist

tokens_of-numbered : (position : ℕ) (ts : List ℕ) → tokens_of (numbered position ts) ≡ ts
unfolding numbered
tokens_of-numbered position [] = refl
tokens_of-numbered position (t ∷ ts) = ap (λ l. t ∷ l) (tokens_of-numbered (position + 1) ts)

causal : Causal api next_logits Holds
unfolding numbered
causal = record {
  decodes = λ c hist t ts k. refl;
  holds = λ c hist t ts k. rw (tokens_of-numbered (length hist) (t ∷ ts), k) refl;
  rows = λ c hist t ts i k l.
      rw (tokens_of-numbered (length hist + 1) ts, k, append_assoc hist (t ∷ []) (take i ts)) refl;
  last_row = λ c hist t k. rw k refl;
  removes = λ c hist n k. refl;
  removed = λ c hist n k. append-nil (take n (c.0 ++ c.1)) ∙ ap (λ l. take n l) k;
}

abbrev evaluated : List ℕ
evaluated = 5 ∷ 6 ∷ 7 ∷ []

abbrev handle : Handle
handle = record {
  vocab = 3;
  draft_vocab = 3;
  max_context = 64;
  spec_enabled = true;
  spec_max = 4;
  has_draft = true;
  has_seq_rm = true;
  mtp_enabled = false;
  has_mtp = false;
  has_nextn = false;
  has_mtp_batch = false;
  mtp_embd = 0;
}

-- the draft context holds other tokens than the target
abbrev contexts : Contexts Context
contexts = record { target = (5 ∷ 6 ∷ [], 7 ∷ []); draft = (1 ∷ 1 ∷ 1 ∷ [], []); mtp = ([], []) }

speculative_example :
    Generated api next_logits Holds Holds handle evaluated 2
      (decode_speculative api handle contexts 2 (length evaluated) 8)
speculative_example =
    decode_speculative-Generated api next_logits next_logits Holds Holds causal causal handle
      contexts evaluated (1 ∷ 1 ∷ 1 ∷ []) 2 8 refl refl refl refl refl refl refl (omega arith)
      (omega arith) (omega arith)

greater : IsGreater (λ (a b : ℕ). ltb b a)
greater = record {
  irreflexive = λ a. ground arith;
  not_above = λ a b c h k. ground arith;
  above = λ a b c h k. ground arith;
}

-- the small model with an MTP head, which proposes what it likes
abbrev mtp_api : Api Context ℕ
mtp_api = record api { embeddings_nextn = λ c. some (1 ∷ []) }

abbrev mtp_handle : Handle
mtp_handle = record handle {
  mtp_enabled = true;
  has_mtp = true;
  has_nextn = true;
  has_mtp_batch = true;
  mtp_embd = 1;
}

mtp_example :
    ((decode_speculative mtp_api mtp_handle contexts 2 3 8).1
      ≡ (decode_greedy mtp_api mtp_handle contexts.target 2 3).1)
    × ((decode_speculative mtp_api mtp_handle contexts 2 3 8).0.target
        ≡ (decode_greedy mtp_api mtp_handle contexts.target 2 3).0)
unfolding one_token
mtp_example =
    decode_speculative-decode_greedy mtp_api mtp_handle contexts 2 3 8
      (next_logits (5 ∷ 6 ∷ 7 ∷ 2 ∷ [])) (next_logits (2 ∷ [])) (1 ∷ []) (omega arith) (omega arith)
      (omega arith) refl refl (omega arith) refl refl refl refl refl

-- Clearing empties the toy's lists.
abbrev memory : Memory Context
memory = record { has_functions = true; has_memory = λ c. true; memory_clear = λ c. ([], []) }

abbrev handed_out : Created → Handle × Owned
handed_out (fails status) = (handle, target_owned false)
handed_out (creates h w) = (h, w)

abbrev draft_handle : Handle × Owned
draft_handle = handed_out (context_create draft_env all_succeed true 512 4).1

start_example :
    ((context_reset memory draft_handle.0 contexts).1 ≡ 0)
    × Generated api next_logits Holds Holds draft_handle.0 [] 2 (
        decode_speculative api draft_handle.0
          (context_reset memory draft_handle.0 contexts).0
          2
          0
          40)
unfolding context_create load_target open_target create_speculation create_with_draft create_draft
    create_mtp draft_path path_requests_mtp requested_spec_max str_eq env3 names_mtp case_contains
    parse_int int_value case_starts_with
start_example =
    created_reset-Generated api memory next_logits next_logits Holds Holds causal causal refl
      (λ c. refl) (λ c. refl) draft_env all_succeed true 512 4 draft_handle.0 draft_handle.1
      contexts 2 40 refl refl refl (omega arith) (omega arith)
