-- ===== src/Gpu/Layer/Reset.antt =====
-- The functions of backend/cuda/fortai_cuda_backend.cu that clear the state of a layer, or put an
-- earlier one in its place.
use fortai.Prelude.{
  ℕ, suc, ◌*◌, Bool, true, not, ◌&&◌, Option, none, some, List, [], ◌∷◌, ◌++◌, ◌==◌, if◌then◌else◌,
}
use fortai.Gpu.Context.{Status, ok, invalid, runtime_error, is_present}
use fortai.Gpu.Layer.{Buffers}
use fortai.Gpu.Layer.RecurrentLayer.{Recurrent, conv_bytes, gdn_bytes}
use fortai.Gpu.Layer.AttentionLayer.{Attention, attention_cache_row_bytes, type_of}

-- what a function reads and writes on the device, with the bytes that each buffer has, and its result
pub record Outcome : Type 0 where
  pub accesses : List (Option ℕ × ℕ)
  pub status : Status

-- Two calls with what they read and write, where the second follows if the first succeeds.
unfoldable pub both : (ℕ → Bool) → Bool → List (Option ℕ × ℕ) → List (Option ℕ × ℕ) → Outcome
both succeeds synchronizes first second =
    if not (succeeds 0) then (record { accesses = first; status = runtime_error }) else record {
      accesses = first ++ second;
      status = if succeeds 1 && synchronizes then ok else runtime_error;
    }

-- `fortai_cuda_qwen35_recurrent_reset`; the third call waits for the stream
unfoldable pub recurrent_reset : (ℕ → Bool) → Recurrent → Option Buffers → Outcome
recurrent_reset succeeds d none = record { accesses = []; status = invalid }
recurrent_reset succeeds d (some buffers) =
    both succeeds (succeeds 2) ((buffers 4, conv_bytes d) ∷ []) ((buffers 5, gdn_bytes d) ∷ [])

-- `fortai_cuda_qwen35_recurrent_restore_first` from the buffers 6 and 7, and
-- `fortai_cuda_qwen35_recurrent_restore_second` from 8 and 9
unfoldable pub restore : ℕ → (ℕ → Bool) → Recurrent → Option Buffers → Outcome
restore i succeeds d none = record { accesses = []; status = invalid }
restore i succeeds d (some buffers) =
    if not (
      is_present (buffers 4)
      && is_present (buffers 5)
      && is_present (buffers i)
      && is_present (buffers (suc i)))
    then (record { accesses = []; status = invalid })
    else both succeeds true ((buffers 4, conv_bytes d) ∷ (buffers i, conv_bytes d) ∷ [])
        ((buffers 5, gdn_bytes d) ∷ (buffers (suc i), gdn_bytes d) ∷ [])

abbrev pub recurrent_restore_first : (ℕ → Bool) → Recurrent → Option Buffers → Outcome
recurrent_restore_first = restore 6

abbrev pub recurrent_restore_second : (ℕ → Bool) → Recurrent → Option Buffers → Outcome
recurrent_restore_second = restore 8

-- one of the caches of `fortai_cuda_qwen35_attention_reset`
abbrev pub cache_access : ℕ → ℕ → Option ℕ → ℕ → ℕ → Buffers → Option ℕ × ℕ
cache_access plain packed cache_type rows width buffers = (
  buffers (if type_of cache_type == 0 then plain else packed),
  rows * attention_cache_row_bytes (type_of cache_type) width,
)

-- `fortai_cuda_qwen35_attention_reset`
unfoldable pub attention_reset : (ℕ → Bool) → Attention → Option Buffers → Outcome
attention_reset succeeds d none = record { accesses = []; status = invalid }
attention_reset succeeds d (some buffers) =
    let rows = d.max_context * d.key_value_heads in
    both succeeds (succeeds 2) (cache_access 2 4 d.cache_key_type rows d.head_size buffers ∷ [])
      (cache_access 3 5 d.cache_value_type rows d.value_size buffers ∷ [])
