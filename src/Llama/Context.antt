-- ===== src/Llama/Context.antt =====
-- The life of a context in src/backend/cpu/fortai_llama_fast.c: what
-- `fortai_llama_fast_context_create` and `fortai_llama_fast_context_destroy` allocate and release,
-- in order. What the allocations and the calls of llama.cpp return is the parameter `Outcomes`. The
-- calls that allocate nothing and whose result is not used (the parameters of the model and the
-- context, the threads, the warm-up) are left out.
pub mod Ownership
pub mod Readiness
pub mod Tests
use fortai.Prelude.{
  ℕ, zero, suc, ◌+◌, Bool, true, false, not, ◌&&◌, ◌||◌, Option, none, some, List, [], ◌∷◌, ◌++◌,
  ltb, ◌==◌, if◌then◌else◌,
}
use fortai.Libc.{Bytes}
use fortai.Libc.Environment.{Env}
use fortai.Ledger
use fortai.Ledger.{acquired, released, on}
use fortai.Llama.{Handle}
use fortai.Llama.Settings.{draft_path, path_requests_mtp, requested_spec_max}

pub data Resource : Type 0 where
  handle_memory model context batch threadpool path draft_model draft_context draft_batch : Resource
  mtp_context mtp_batch mtp_tokens : Resource

abbrev pub Event : Type 0
Event = Ledger.Event Resource

-- What the calls give, true for what is not NULL. `pool_functions` tells whether
-- `attach_threadpool` and the three functions of the pool are found, `nextn_functions` whether
-- `set_embeddings_nextn` and `get_embeddings_nextn` are, and `count_functions` whether
-- `layer_nextn_count` and `embd_out` are. A count that is not positive is 0. The batches are those of `llama_batch_init`, which gives
-- a whole batch or nothing.
pub record Outcomes : Type 0 where
  pub library : Bool
  pub has_handle : Bool
  pub has_model : Bool
  pub has_context : Bool
  pub has_batch : Bool
  pub pool_functions : Bool
  pub has_pool : Bool
  pub vocab_count : ℕ
  pub has_path : Bool
  pub seq_rm : Bool
  pub nextn_functions : Bool
  pub count_functions : Bool
  pub nextn_layers : ℕ
  pub has_mtp_context : Bool
  pub embd_out : ℕ
  pub has_mtp_embd : Bool
  pub has_mtp_tokens : Bool
  pub has_draft_model : Bool
  pub has_draft_context : Bool
  pub has_draft_batch : Bool
  pub draft_vocab_count : ℕ

-- The pointers of the handle, true for those that are not NULL. The MTP batch has its embeddings
-- from `llama_batch_init` and its tokens from `calloc`.
pub record Owned : Type 0 where
  pub owns_batch : Bool
  pub owns_draft_batch : Bool
  pub owns_mtp_embd : Bool
  pub owns_mtp_tokens : Bool
  pub owns_draft_context : Bool
  pub owns_mtp_context : Bool
  pub owns_draft_model : Bool
  pub owns_context : Bool
  pub owns_threadpool : Bool
  pub owns_model : Bool
  pub owns_path : Bool

-- `fortai_llama_fast_context_destroy`
unfoldable pub context_destroy : Owned → List Event
context_destroy w =
    on w.owns_batch (released batch)
    ++ on w.owns_draft_batch (released draft_batch)
    ++ on w.owns_mtp_tokens (released mtp_tokens)
    ++ on (w.owns_mtp_tokens && w.owns_mtp_embd) (released mtp_batch)
    ++ on w.owns_draft_context (released draft_context)
    ++ on w.owns_mtp_context (released mtp_context)
    ++ on w.owns_draft_model (released draft_model)
    ++ on w.owns_context (released context)
    ++ on w.owns_threadpool (released threadpool)
    ++ on w.owns_model (released model)
    ++ on w.owns_path (released path)
    ++ (released handle_memory ∷ [])

-- The status that is returned, or 0 with the handle.
pub data Created : Type 0 where
  fails : ℕ → Created
  creates : Handle → Owned → Created

-- the handle once the target is loaded
abbrev pub target_owned : Bool → Owned
target_owned pool = record {
  owns_batch = true;
  owns_draft_batch = false;
  owns_mtp_embd = false;
  owns_mtp_tokens = false;
  owns_draft_context = false;
  owns_mtp_context = false;
  owns_draft_model = false;
  owns_context = true;
  owns_threadpool = pool;
  owns_model = true;
  owns_path = true;
}

abbrev pub target_handle : Outcomes → ℕ → Handle
target_handle o context_size = record {
  vocab = o.vocab_count;
  draft_vocab = 0;
  max_context = context_size;
  spec_enabled = false;
  spec_max = 0;
  has_draft = false;
  has_seq_rm = o.seq_rm;
  mtp_enabled = false;
  has_mtp = false;
  has_nextn = o.nextn_functions;
  has_mtp_batch = false;
  mtp_embd = 0;
}

-- an exit through `fortai_llama_fast_context_destroy`
abbrev pub abandon : ℕ → Owned → List Event → List Event × Created
abandon status w events = (events ++ context_destroy w, fails status)

-- the branch for the MTP head
unfoldable pub create_mtp : Outcomes → Handle → Owned → List Event → List Event × Created
create_mtp o h w events =
    if not (o.nextn_functions && o.count_functions) || o.nextn_layers == 0
    then abandon 5 w events
    else let has_embd = o.has_mtp_context && (ltb 0 o.embd_out && o.has_mtp_embd) in
      let w' = record w {
        owns_mtp_context = o.has_mtp_context;
        owns_mtp_embd = has_embd;
        owns_mtp_tokens = o.has_mtp_tokens;
      } in
      let events' =
        events
        ++ on o.has_mtp_context (acquired mtp_context)
        ++ on has_embd (acquired mtp_batch)
        ++ on o.has_mtp_tokens (acquired mtp_tokens) in
      if not o.has_mtp_context || (not has_embd || not o.has_mtp_tokens)
      then abandon 6 w' events'
      else (
        events',
        creates
            (record h {
              mtp_enabled = true;
              spec_enabled = true;
              has_mtp = true;
              has_mtp_batch = true;
              mtp_embd = o.embd_out;
            })
            w',
      )

-- the branch for a draft model
unfoldable pub create_draft : Outcomes → Handle → Owned → List Event → List Event × Created
create_draft o h w events =
    let has_context = o.has_draft_model && o.has_draft_context in
    let has_batch = has_context && o.has_draft_batch in
    let w' = record w {
      owns_draft_model = o.has_draft_model;
      owns_draft_context = has_context;
      owns_draft_batch = has_batch;
    } in
    let events' =
      events
      ++ on o.has_draft_model (acquired draft_model)
      ++ on has_context (acquired draft_context)
      ++ on has_batch (acquired draft_batch) in
    if not has_batch
    then abandon 6 w' events'
    else if not (o.draft_vocab_count == h.vocab)
    then abandon 7 w' events'
    else (
      events',
      creates
          (record h { draft_vocab = o.draft_vocab_count; has_draft = true; spec_enabled = true })
          w',
    )

-- the part for a draft path
unfoldable pub create_with_draft :
    Env → Outcomes → Handle → Owned → List Event → Bytes → List Event × Created
create_with_draft env o h w events file =
    let h' = record h { spec_max = requested_spec_max env } in
    if not o.seq_rm
    then abandon 5 w events
    else if path_requests_mtp env (some file)
    then create_mtp o h' w events
    else create_draft o h' w events

-- the part behind the target, with what is held of it
unfoldable pub create_speculation :
    Env → Outcomes → Handle → Owned → List Event → List Event × Created
create_speculation env o h w events = elim (draft_path env) [
  | none ↦ (events, creates h w)
  | some file ↦ create_with_draft env o h w events file
]

-- what the target's allocations come to
abbrev pub target_events : Outcomes → List Event
target_events o =
    acquired handle_memory
    ∷ (on o.has_model (acquired model)
        ++ on (o.has_model && o.has_context) (acquired context)
        ++ on (o.has_model && o.has_context && o.has_batch) (acquired batch))

-- the exit with status 4, and what follows
unfoldable pub open_target : Env → Outcomes → ℕ → List Event × Created
open_target env o context_size =
    let pool = o.pool_functions && o.has_pool in
    let events =
      target_events o ++ on pool (acquired threadpool) ++ on o.has_path (acquired path) in
    if o.vocab_count == 0 || not o.has_path
    then (
      events
          ++ (released batch ∷ released context ∷ [])
          ++ on pool (released threadpool)
          ++ (released model ∷ [])
          ++ on o.has_path (released path)
          ++ (released handle_memory ∷ []),
      fails 4,
    )
    else create_speculation env o (target_handle o context_size) (target_owned pool) events

-- the exit with status 3, and what follows
unfoldable pub load_target : Env → Outcomes → ℕ → List Event × Created
load_target env o context_size =
    if not (o.has_model && o.has_context && o.has_batch)
    then (
      target_events o
          ++ on (o.has_model && o.has_context) (released context)
          ++ on o.has_model (released model)
          ++ (released handle_memory ∷ []),
      fails 3,
    )
    else open_target env o context_size

-- `fortai_llama_fast_context_create`; `has_arguments` is `path != NULL && out != NULL`, and the
-- sizes are 0 if they are not positive.
unfoldable pub context_create : Env → Outcomes → Bool → ℕ → ℕ → List Event × Created
context_create env o has_arguments context_size threads =
    if not has_arguments || (context_size == 0 || threads == 0)
    then ([], fails 1)
    else if not o.library || not o.has_handle
    then ([], fails 2)
    else load_target env o context_size
