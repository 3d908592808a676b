-- ===== src/Llama/Context/Ownership.antt =====
-- Everything that is allocated for a context is released once, and in an order that is safe.
use fortai.Prelude.{
  ℕ, ◌≡◌, refl, sym, Bool, true, false, not, ◌&&◌, ◌||◌, none, some, List, [], ◌∷◌, ◌++◌, ◌==◌,
  if◌then◌else◌, arith, if_rule, Option-cases, inl, inr,
}
use mathlib.Core.Path.{subst}
use fortai.Libc.{Bytes}
use fortai.Libc.Environment.{Env}
use fortai.Ledger.{Rules, replay, acquired, released, on}
use fortai.Llama.{Handle}
use fortai.Llama.Settings.{draft_path, path_requests_mtp, requested_spec_max}
use fortai.Llama.Context.{
  Resource, handle_memory, model, context, batch, threadpool, path, draft_model, draft_context,
  draft_batch, mtp_context, mtp_batch, mtp_tokens, Event, Outcomes, context_destroy, Created, fails,
  creates, target_owned, target_handle, abandon, create_mtp, create_draft, create_with_draft,
  create_speculation, target_events, open_target, load_target, context_create,
}

-- A number for each resource.
abbrev index : Resource → ℕ
index handle_memory = 0
index model = 1
index context = 2
index batch = 3
index threadpool = 4
index path = 5
index draft_model = 6
index draft_context = 7
index draft_batch = 8
index mtp_context = 9
index mtp_batch = 10
index mtp_tokens = 11

abbrev same : Resource → Resource → Bool
same r s = index r == index s

-- Which resource needs `r`: a context its model, the target's context its thread pool, and the MTP
-- context the target's context.
abbrev needs : Resource → Resource → Bool
needs context r = same r model || same r threadpool
needs draft_context r = same r draft_model
needs mtp_context r = same r context || same r model
needs _ r = false

abbrev rules : Rules Resource
rules = record { same = same; shared = λ r. false; needs = needs }

-- The events of the whole life of a context: it is destroyed if it was created.
abbrev life : List Event × Created → List Event
life (es, fails status) = es
life (es, creates h w) = es ++ context_destroy w

-- What a whole life leaves behind: the embeddings of the MTP batch, if the memory for its tokens
-- was refused.
unfoldable pub left_behind : Outcomes → List Event × Created → List Resource
left_behind o (es, creates h w) = []
left_behind o (es, fails status) =
    if status == 6 && (took_embd es && not o.has_mtp_tokens) then mtp_batch ∷ [] else []
  where
    took_embd : List Event → Bool
    took_embd [] = false
    took_embd (acquired mtp_batch ∷ es) = true
    took_embd (e ∷ es) = took_embd es

-- A whole life leaves nothing else, and each of its events is in order.
abbrev pub IsBalanced : Outcomes → List Event × Created → Type 0
IsBalanced o r = replay rules (life r) [] ≡ some (left_behind o r)

-- the events of `context_create` up to the draft
abbrev loaded : Bool → List Event
loaded pool =
    acquired handle_memory
    ∷ acquired model
    ∷ acquired context
    ∷ acquired batch
    ∷ (on pool (acquired threadpool) ++ (acquired path ∷ []))

create_mtp-IsBalanced :
    (o : Outcomes) (h : Handle) (pool : Bool)
    → IsBalanced o (create_mtp o h (target_owned pool) (loaded pool))
unfolding create_mtp replay context_destroy left_behind
create_mtp-IsBalanced o h true = ground arith
create_mtp-IsBalanced o h false = ground arith

create_draft-IsBalanced :
    (o : Outcomes) (h : Handle) (pool : Bool)
    → IsBalanced o (create_draft o h (target_owned pool) (loaded pool))
unfolding create_draft replay context_destroy left_behind
create_draft-IsBalanced o h true = ground arith
create_draft-IsBalanced o h false = ground arith

target-IsBalanced :
    (o : Outcomes) (h : Handle) (pool : Bool)
    → IsBalanced o (loaded pool, creates h (target_owned pool))
unfolding replay context_destroy left_behind
target-IsBalanced o h true = refl
target-IsBalanced o h false = refl

abandon-IsBalanced :
    (o : Outcomes) (pool : Bool) → IsBalanced o (abandon 5 (target_owned pool) (loaded pool))
unfolding replay context_destroy left_behind
abandon-IsBalanced o true = refl
abandon-IsBalanced o false = refl

module _ (env : Env) (o : Outcomes) (h : Handle) (pool : Bool) where
  no_draft :
      draft_path env ≡ none
      → create_speculation env o h (target_owned pool) (loaded pool)
        ≡ (loaded pool, creates h (target_owned pool))
  unfolding create_speculation
  no_draft n = rw (n, create_speculation) refl

  with_draft :
      (file : Bytes)
      → draft_path env ≡ some file
      → create_speculation env o h (target_owned pool) (loaded pool)
        ≡ create_with_draft env o h (target_owned pool) (loaded pool) file
  unfolding create_speculation
  with_draft file f = rw (f, create_speculation) refl

  create_with_draft-IsBalanced :
      (file : Bytes)
      → IsBalanced o (create_with_draft env o h (target_owned pool) (loaded pool) file)
  unfolding create_with_draft
  create_with_draft-IsBalanced file =
      let h' = record h { spec_max = requested_spec_max env } in
      if_rule (IsBalanced o) (not o.seq_rm) (abandon 5 (target_owned pool) (loaded pool))
        (if path_requests_mtp env (some file)
          then create_mtp o h' (target_owned pool) (loaded pool)
          else create_draft o h' (target_owned pool) (loaded pool))
        (λ _. abandon-IsBalanced o pool)
        λ _.
          if_rule (IsBalanced o) (path_requests_mtp env (some file))
            (create_mtp o h' (target_owned pool) (loaded pool))
            (create_draft o h' (target_owned pool) (loaded pool))
            (λ _. create_mtp-IsBalanced o h' pool) (λ _. create_draft-IsBalanced o h' pool)

  create_speculation-IsBalanced :
      IsBalanced o (create_speculation env o h (target_owned pool) (loaded pool))
  create_speculation-IsBalanced = elim (Option-cases (draft_path env)) [
    | inl n ↦ subst (λ r. IsBalanced o r) (sym (no_draft n)) (target-IsBalanced o h pool)
    | inr (file, f) ↦
        subst (λ r. IsBalanced o r) (sym (with_draft file f)) (create_with_draft-IsBalanced file)
  ]

target_events-loaded :
    (o : Outcomes) (pool : Bool)
    → not (o.has_model && o.has_context && o.has_batch) ≡ false
    → (o.vocab_count == 0 || not o.has_path) ≡ false
    → loaded pool
      ≡ target_events o ++ on pool (acquired threadpool) ++ on o.has_path (acquired path)
target_events-loaded o pool e v = ground arith

nothing_held : (o : Outcomes) (status : ℕ) → IsBalanced o ([], fails status)
unfolding replay left_behind
nothing_held o status = ground arith

closed :
    (o : Outcomes) (pool named : Bool)
    → not (o.has_model && o.has_context && o.has_batch) ≡ false
    → IsBalanced o (
      (target_events o ++ on pool (acquired threadpool) ++ on named (acquired path))
          ++ (released batch ∷ released context ∷ [])
          ++ on pool (released threadpool)
          ++ (released model ∷ [])
          ++ on named (released path)
          ++ (released handle_memory ∷ []),
      fails 4,
    )
unfolding replay left_behind
closed o pool named e = ground arith

not_loaded :
    (o : Outcomes)
    → not (o.has_model && o.has_context && o.has_batch) ≡ true
    → IsBalanced o (
      target_events o
          ++ on (o.has_model && o.has_context) (released context)
          ++ on o.has_model (released model)
          ++ (released handle_memory ∷ []),
      fails 3,
    )
unfolding replay left_behind
not_loaded o e = ground arith

open_target-IsBalanced :
    (env : Env) (o : Outcomes) (context_size : ℕ)
    → not (o.has_model && o.has_context && o.has_batch) ≡ false
    → IsBalanced o (open_target env o context_size)
unfolding open_target
open_target-IsBalanced env o context_size e =
    let pool = o.pool_functions && o.has_pool in
    if_rule (IsBalanced o) (o.vocab_count == 0 || not o.has_path)
      (
        (target_events o ++ on pool (acquired threadpool) ++ on o.has_path (acquired path))
            ++ (released batch ∷ released context ∷ [])
            ++ on pool (released threadpool)
            ++ (released model ∷ [])
            ++ on o.has_path (released path)
            ++ (released handle_memory ∷ []),
        fails 4,
      )
      (create_speculation env o (target_handle o context_size) (target_owned pool)
        (target_events o ++ on pool (acquired threadpool) ++ on o.has_path (acquired path)))
      (λ _. closed o pool o.has_path e)
      λ v.
        subst
          (λ es.
            IsBalanced o
              (create_speculation env o (target_handle o context_size) (target_owned pool) es))
          (target_events-loaded o pool e v)
          (create_speculation-IsBalanced env o (target_handle o context_size) pool)

load_target-IsBalanced :
    (env : Env) (o : Outcomes) (context_size : ℕ) → IsBalanced o (load_target env o context_size)
unfolding load_target
load_target-IsBalanced env o context_size =
    if_rule (IsBalanced o) (not (o.has_model && o.has_context && o.has_batch))
      (
        target_events o
            ++ on (o.has_model && o.has_context) (released context)
            ++ on o.has_model (released model)
            ++ (released handle_memory ∷ []),
        fails 3,
      )
      (open_target env o context_size) (not_loaded o) (open_target-IsBalanced env o context_size)

-- On every path through `fortai_llama_fast_context_create`, whatever the calls return, and with
-- `fortai_llama_fast_context_destroy` behind it if it succeeds, each resource that is taken is
-- released once, none is released that is not held, and none while a context needs it. At the end
-- nothing is held, but for the embeddings of the MTP batch where the memory for its tokens was
-- refused.
pub context_create-IsBalanced :
    (env : Env) (o : Outcomes) (has_arguments : Bool) (context_size threads : ℕ)
    → IsBalanced o (context_create env o has_arguments context_size threads)
unfolding context_create
context_create-IsBalanced env o has_arguments context_size threads =
    if_rule (IsBalanced o) (not has_arguments || (context_size == 0 || threads == 0)) ([], fails 1)
      (if not o.library || not o.has_handle then ([], fails 2) else load_target env o context_size)
      (λ _. nothing_held o 1)
      λ _.
        if_rule (IsBalanced o) (not o.library || not o.has_handle) ([], fails 2)
          (load_target env o context_size) (λ _. nothing_held o 2)
          λ _. load_target-IsBalanced env o context_size
