-- ===== src/Ggml/Plan.antt =====
-- The life of a plan in src/backend/cpu/fortai_ggml_quant.c: what `fortai_cpu_plan_make`,
-- `fortai_cpu_group_plan_make` and `fortai_ggml_quant_cache_clear` take from libggml and give back,
-- in order. What the calls return is the parameter `Making`. The backend is shared by all plans.
pub mod Ownership
use fortai.Prelude.{
  ℕ, suc, ◌%◌, ◌+◌, Bool, true, false, not, ◌&&◌, ◌||◌, List, [], ◌∷◌, ◌++◌, ltb, ◌==◌,
  if◌then◌else◌,
}
use fortai.Ledger
use fortai.Ledger.{acquired, used, released, on}
use fortai.Ggml.{Matrix}

-- The contexts of the graph and of the weights, and the buffers: that of the graph, and those of the
-- weights, of which a plan for one matrix has one, and a group one for each kind.
pub data Resource : Type 0 where
  context weight_context buffer weight_buffer repack_buffer plain_buffer : Resource

abbrev pub Event : Type 0
Event = Ledger.Event Resource

-- What the calls give, true for what is not NULL. `libraries` is for both libraries and the functions
-- that must be there, `has_repack` for the repack buffers' type and `alloc_buft`; `has_weight` and
-- `has_output` are by the number of the matrix.
pub record Making : Type 0 where
  pub libraries : Bool
  pub has_context : Bool
  pub has_weight_context : Bool
  pub has_input : Bool
  pub has_weight : ℕ → Bool
  pub has_output : ℕ → Bool
  pub has_graph : Bool
  pub has_backend : Bool
  pub has_buffer : Bool
  pub has_repack : Bool
  pub has_weight_buffer : Bool
  pub has_repack_buffer : Bool
  pub has_plain_buffer : Bool
  pub can_free : Bool

-- `fortai_repack_supported`
unfoldable pub repack_supported : ℕ → ℕ → Bool
repack_supported type rows = ltb 0 rows && (rows % 8 == 0 && (type == 12 || type == 20))

abbrev pub repacked : Making → Matrix → Bool
repacked o m = o.has_repack && repack_supported m.type m.rows

abbrev pub contexts_begun : Making → List Event
contexts_begun o =
    on o.has_context (acquired context) ++ on o.has_weight_context (acquired weight_context)

abbrev pub contexts_freed : List Event
contexts_freed = released context ∷ released weight_context ∷ []

-- `plan->buffer != NULL`, `plan->output[i] != NULL` and `plan->weight_buffer != NULL`
abbrev pub with_buffer : Making → Bool
with_buffer o = o.has_backend && o.has_buffer

abbrev pub with_output : Making → ℕ → Bool
with_output o i = o.has_weight i && (o.has_input && o.has_output i)

abbrev pub with_weight_buffer : Making → Matrix → Bool
with_weight_buffer o m =
    if repacked o m then o.has_weight_buffer else o.has_backend && o.has_weight_buffer

-- the buffers given back, if `ggml_backend_buffer_free` is there
abbrev pub plan_freed : Making → Bool → Bool → List Event
plan_freed o has_buffer has_weight_buffer =
    on (has_buffer && o.can_free) (released buffer)
    ++ (on (has_weight_buffer && o.can_free) (released weight_buffer) ++ contexts_freed)

-- `fortai_cpu_plan_make`, true for 0
unfoldable pub plan_make : Making → Matrix → List Event × Bool
plan_make o m =
    if not o.libraries
    then ([], false)
    else if not o.has_context || not o.has_weight_context
    then (contexts_begun o, false)
    else let begun =
        contexts_begun o
        ++ (on (with_buffer o) (acquired buffer)
            ++ on (with_weight_buffer o m) (acquired weight_buffer)) in
      if not (with_buffer o && (with_output o 0 && (o.has_graph && with_weight_buffer o m)))
      then (begun ++ plan_freed o (with_buffer o) (with_weight_buffer o m), false)
      else (begun ++ (used weight_buffer ∷ []), true)

-- what `fortai_ggml_quant_cache_clear` does with a plan
abbrev pub plan_clear : Making → List Event
plan_clear o = plan_freed o true true

-- `need_repack` and `need_plain`
unfoldable pub need_repack : Making → List Matrix → Bool
need_repack o [] = false
need_repack o (m ∷ ms) = repacked o m || need_repack o ms

unfoldable pub need_plain : Making → List Matrix → Bool
need_plain o [] = false
need_plain o (m ∷ ms) = not (repacked o m) || need_plain o ms

abbrev pub with_repack : Making → List Matrix → Bool
with_repack o ms = o.has_backend && (need_repack o ms && o.has_repack_buffer)

abbrev pub with_plain : Making → List Matrix → Bool
with_plain o ms = o.has_backend && (need_plain o ms && o.has_plain_buffer)

-- `buffers_ready`
abbrev pub buffers_ready : Making → List Matrix → Bool
buffers_ready o ms =
    o.has_backend
    && ((with_repack o ms || with_plain o ms)
        && ((with_repack o ms || not (need_repack o ms))
            && (with_plain o ms || not (need_plain o ms))))

-- whether no weight and no output is NULL, from number `i` on
unfoldable pub all_made : Making → ℕ → List Matrix → Bool
all_made o i [] = true
all_made o i (m ∷ ms) = with_output o i && all_made o (i + 1) ms

abbrev pub group_freed : Bool → Bool → Bool → List Event
group_freed has_buffer has_repack has_plain =
    on has_buffer (released buffer)
    ++ (on has_repack (released repack_buffer)
        ++ (on has_plain (released plain_buffer) ++ contexts_freed))

-- `fortai_cpu_group_plan_make`, which wants `buffer_free`, true for 0
unfoldable pub group_plan_make : Making → List Matrix → List Event × Bool
group_plan_make o ms =
    if not o.libraries || not o.can_free
    then ([], false)
    else if not o.has_context || not o.has_weight_context
    then (contexts_begun o, false)
    else let begun =
        contexts_begun o
        ++ (on (with_buffer o) (acquired buffer)
            ++ (on (with_repack o ms) (acquired repack_buffer)
                ++ on (with_plain o ms) (acquired plain_buffer))) in
      if not (with_buffer o && (buffers_ready o ms && (o.has_input && o.has_graph)))
        || not (all_made o 0 ms)
      then (begun ++ group_freed (with_buffer o) (with_repack o ms) (with_plain o ms), false)
      else (begun, true)

-- what `fortai_ggml_quant_cache_clear` does with a group
abbrev pub group_clear : Making → List Matrix → List Event
group_clear o ms = group_freed true (with_repack o ms) (with_plain o ms)
