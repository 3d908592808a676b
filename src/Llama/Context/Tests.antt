-- ===== src/Llama/Context/Tests.antt =====
-- Uses of the theorems on the life of a context, with a draft model named in the environment.
use fortai.Prelude.{true, false, none, some, if◌then◌else◌}
use fortai.Libc.{codes, str_eq}
use fortai.Libc.Environment.{Env}
use fortai.Llama.Context.{Outcomes, context_create}
use fortai.Llama.Context.Ownership.{IsBalanced, context_create-IsBalanced}
use fortai.Llama.Context.Readiness.{IsReady, context_create-IsReady}

-- the environment of a process with a small draft model
abbrev pub draft_env : Env
unfolding str_eq
draft_env name =
    if str_eq name (codes "LLAMA_ARG_MODEL_DRAFT") then some (codes "small.gguf") else none

-- Every call succeeds, but for the batch of the draft model.
abbrev no_draft_batch : Outcomes
no_draft_batch = record {
  library = true;
  has_handle = true;
  has_model = true;
  has_context = true;
  has_batch = true;
  pool_functions = true;
  has_pool = true;
  vocab_count = 1000;
  has_path = true;
  seq_rm = true;
  nextn_functions = true;
  count_functions = true;
  nextn_layers = 1;
  has_mtp_context = true;
  embd_out = 64;
  has_mtp_embd = true;
  has_mtp_tokens = true;
  has_draft_model = true;
  has_draft_context = true;
  has_draft_batch = false;
  draft_vocab_count = 1000;
}

abbrev pub all_succeed : Outcomes
all_succeed = record no_draft_batch { has_draft_batch = true }

balanced_example : IsBalanced no_draft_batch (context_create draft_env no_draft_batch true 512 4)
balanced_example = context_create-IsBalanced draft_env no_draft_batch true 512 4

ready_example : IsReady 512 (context_create draft_env all_succeed true 512 4).1
ready_example = context_create-IsReady draft_env all_succeed true 512 4
