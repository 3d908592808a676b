-- ===== src/Llama/Context/Readiness.antt =====
-- What a created context offers to the decoding steps.
use fortai.Prelude.{
  ℕ, ◌≤◌, ◌<◌, ◌≡◌, refl, Bool, true, false, not, ◌&&◌, ◌||◌, ◌⊎◌, Option, none, some, List, [],
  ◌∷◌, ◌++◌, ◌==◌, if◌then◌else◌, arith, if_rule, inr,
}
use fortai.Libc.{Bytes, codes}
use fortai.Libc.Numbers.{Number, no_number, number, strtol}
use fortai.Libc.Environment.{Env}
use fortai.Ledger.{acquired, released, on}
use fortai.Llama.{Handle}
use fortai.Llama.Settings.{
  env3, int_value, parse_int, draft_path, path_requests_mtp, requested_spec_max,
}
use fortai.Llama.Context.{
  threadpool, batch, context, model, path, handle_memory, Event, Outcomes, Owned, Created, fails,
  creates, target_owned, target_handle, abandon, create_mtp, create_draft, create_with_draft,
  create_speculation, target_events, open_target, load_target, context_create,
}

int_value-range :
    (n : Number) (fallback minimum maximum : ℕ)
    → minimum ≤ fallback
    → fallback ≤ maximum
    → (minimum ≤ int_value n fallback minimum maximum)
      × (int_value n fallback minimum maximum ≤ maximum)
unfolding int_value
int_value-range no_number fallback minimum maximum l h = (l, h)
int_value-range (number negative magnitude (d ∷ ds)) fallback minimum maximum l h = (l, h)
int_value-range (number negative magnitude []) fallback minimum maximum l h = ground arith

-- `fortai_parse_int` gives a number in its range, if the fallback is in it.
pub parse_int-range :
    (value : Option Bytes) (fallback minimum maximum : ℕ)
    → minimum ≤ fallback
    → fallback ≤ maximum
    → (minimum ≤ parse_int value fallback minimum maximum)
      × (parse_int value fallback minimum maximum ≤ maximum)
unfolding parse_int
parse_int-range none fallback minimum maximum l h = (l, h)
parse_int-range (some []) fallback minimum maximum l h = (l, h)
parse_int-range (some (c ∷ cs)) fallback minimum maximum l h =
    int_value-range (strtol (c ∷ cs)) fallback minimum maximum l h

-- The head proposes: what `decode_mtp` asks of the handle.
pub record IsMtp (h : Handle) : Type 0 where
  pub chosen : (h.mtp_enabled && h.has_mtp) ≡ true
  pub functions : (h.has_nextn && h.has_mtp_batch) ≡ true
  pub embedded : 0 < h.mtp_embd

-- The draft model proposes, no more tokens than the 32 of the array `draft_tokens`.
pub record IsDrafting (h : Handle) : Type 0 where
  pub mtp_off : h.mtp_enabled ≡ false
  pub on : h.spec_enabled ≡ true
  pub drafts : h.has_draft ≡ true
  pub removes : h.has_seq_rm ≡ true
  pub some_tokens : 0 < h.spec_max
  pub in_array : h.spec_max ≤ 32
  pub same_vocab : h.draft_vocab ≡ h.vocab

pub record IsPlain (h : Handle) : Type 0 where
  pub no_mtp : (h.mtp_enabled && h.has_mtp) ≡ false
  pub off : h.spec_enabled ≡ false

-- A handle works in one of the three ways, has a vocabulary, and the size that was asked for.
abbrev pub IsReady : ℕ → Created → Type 0
IsReady context_size (fails status) = Unit {0}
IsReady context_size (creates h w) =
    (IsMtp h ⊎ (IsDrafting h ⊎ IsPlain h)) × (0 < h.vocab) × (h.max_context ≡ context_size)

create_mtp-IsReady :
    (o : Outcomes) (context_size spec_max : ℕ) (w : Owned) (es : List Event)
    → 0 < o.vocab_count
    → IsReady context_size
        (create_mtp o (record (target_handle o context_size) { spec_max = spec_max }) w es).1
unfolding create_mtp
create_mtp-IsReady o context_size spec_max w es v = ground arith

create_draft-IsReady :
    (o : Outcomes) (context_size spec_max : ℕ) (w : Owned) (es : List Event)
    → 0 < o.vocab_count
    → 0 < spec_max
    → spec_max ≤ 32
    → o.seq_rm ≡ true
    → IsReady context_size
        (create_draft o (record (target_handle o context_size) { spec_max = spec_max }) w es).1
unfolding create_draft
create_draft-IsReady o context_size spec_max w es v p b r = ground arith

spec_max-range : (env : Env) → (1 ≤ requested_spec_max env) × (requested_spec_max env ≤ 32)
unfolding requested_spec_max
spec_max-range env =
    parse_int-range
      (env3 env (codes "FORTAI_SPEC_DRAFT_N_MAX") (codes "LLAMA_ARG_SPEC_DRAFT_N_MAX")
        (codes "LLAMACPP_SPEC_DRAFT_N_MAX"))
      2 1 32 (omega arith) (omega arith)

module _ (env : Env) (o : Outcomes) (context_size : ℕ) where
  abbrev Ready : List Event × Created → Type 0
  Ready r = IsReady context_size r.1

  create_with_draft-IsReady :
      (w : Owned) (es : List Event) (file : Bytes)
      → 0 < o.vocab_count
      → Ready (create_with_draft env o (target_handle o context_size) w es file)
  unfolding create_with_draft
  create_with_draft-IsReady w es file v =
      let h' = record (target_handle o context_size) { spec_max = requested_spec_max env } in
      let range = spec_max-range env in
      if_rule Ready (not o.seq_rm) (abandon 5 w es)
        (if path_requests_mtp env (some file) then create_mtp o h' w es else create_draft o h' w es)
        (λ _. tt)
        λ r.
          if_rule Ready (path_requests_mtp env (some file)) (create_mtp o h' w es)
            (create_draft o h' w es)
            (λ _. create_mtp-IsReady o context_size (requested_spec_max env) w es v)
            λ _.
              create_draft-IsReady o context_size (requested_spec_max env) w es v range.0 range.1
                (ground arith)

  create_speculation-IsReady :
      (w : Owned) (es : List Event)
      → 0 < o.vocab_count
      → Ready (create_speculation env o (target_handle o context_size) w es)
  unfolding create_speculation
  create_speculation-IsReady w es v = by_path (draft_path env)
    where
      by_path :
          (p : Option Bytes)
          → Ready (elim p as (λ _. List Event × Created) [
            | none ↦ (es, creates (target_handle o context_size) w)
            | some file ↦ create_with_draft env o (target_handle o context_size) w es file
          ])
      by_path none = (inr (inr record { no_mtp = refl; off = refl }), v, refl)
      by_path (some file) = create_with_draft-IsReady w es file v

  open_target-IsReady : Ready (open_target env o context_size)
  unfolding open_target
  open_target-IsReady =
      let pool = o.pool_functions && o.has_pool in
      let events =
        target_events o ++ on pool (acquired threadpool) ++ on o.has_path (acquired path) in
      if_rule Ready (o.vocab_count == 0 || not o.has_path)
        (
          events
              ++ (released batch ∷ released context ∷ [])
              ++ on pool (released threadpool)
              ++ (released model ∷ [])
              ++ on o.has_path (released path)
              ++ (released handle_memory ∷ []),
          fails 4,
        )
        (create_speculation env o (target_handle o context_size) (target_owned pool) events)
        (λ _. tt) λ v. create_speculation-IsReady (target_owned pool) events (ground arith)

  load_target-IsReady : Ready (load_target env o context_size)
  unfolding load_target
  load_target-IsReady =
      if_rule Ready (not (o.has_model && o.has_context && o.has_batch))
        (
          target_events o
              ++ on (o.has_model && o.has_context) (released context)
              ++ on o.has_model (released model)
              ++ (released handle_memory ∷ []),
          fails 3,
        )
        (open_target env o context_size) (λ _. tt) (λ _. open_target-IsReady)

-- A context that is created is ready for the decoding steps. It has a vocabulary and the size that
-- was asked for, and works in one of three ways: with an MTP head that is set up; with a draft
-- model of the same vocabulary, which proposes from 1 to 32 tokens at a time, as many as the array
-- `draft_tokens` holds; or without speculation.
pub context_create-IsReady :
    (env : Env) (o : Outcomes) (has_arguments : Bool) (context_size threads : ℕ)
    → IsReady context_size (context_create env o has_arguments context_size threads).1
unfolding context_create
context_create-IsReady env o has_arguments context_size threads =
    if_rule (λ r. IsReady context_size r.1)
      (not has_arguments || (context_size == 0 || threads == 0)) ([], fails 1)
      (if not o.library || not o.has_handle then ([], fails 2) else load_target env o context_size)
      (λ _. tt)
      λ _.
        if_rule (λ r. IsReady context_size r.1) (not o.library || not o.has_handle) ([], fails 2)
          (load_target env o context_size) (λ _. tt) λ _. load_target-IsReady env o context_size
