-- ===== src/Gpu/Layer/Tests.antt =====
-- Uses of the theorems on the layers.
use fortai.Prelude.{ℕ, ◌≡◌, refl, Bool, true, not, some, ◌==◌, ◌++◌}
use fortai.Gpu.Context.{Status, ok, runtime_error}
use fortai.Gpu.Layer.{buffer, create, run, Buffers, no_buffers}
use fortai.Gpu.Layer.AttentionLayer.{
  Attention, attention_cache_row_bytes, attention_create_state, cache_call, clear_cache,
  cache_calls, clear_cache_calls,
}
use fortai.Gpu.Layer.State.{Operates, created-Operates}
use fortai.Gpu.Layer.Life.{IsKept}
use fortai.Gpu.Layer.Sizes.{attention_state, created, created-IsKept}

-- keys of Q8 and values of float16
abbrev mixed_caches : Attention
mixed_caches = record {
  heads = 16;
  key_value_heads = 2;
  head_size = 256;
  value_size = 128;
  max_context = 4096;
  rope_dimension = some 64;
  positive_base = true;
  positive_epsilon = true;
  cache_key_type = some 1;
  cache_value_type = some 0;
  query_norm_bytes = 1024;
  key_norm_bytes = 1024;
}

-- The allocation of the cache of the values fails.
abbrev fifth_fails : ℕ → Bool
fifth_fails k = not (k == 5)

mixed_example : IsKept (buffer 4) 10 (created true fifth_fails true (attention_state mixed_caches))
mixed_example = created-IsKept true fifth_fails true (attention_state mixed_caches) (buffer 4)

row_test : attention_cache_row_bytes 2 256 ≡ 144
unfolding attention_cache_row_bytes
row_test = refl

abbrev status_of : Bool → (ℕ → Bool) → Status
status_of has_handle succeeds =
    (created has_handle succeeds true (attention_state mixed_caches)).status

status_test : status_of true (λ k. true) ≡ ok
unfolding attention_create_state create run cache_call clear_cache
status_test = refl

failed_status_test : status_of true fifth_fails ≡ runtime_error
unfolding attention_create_state create run cache_call clear_cache
failed_status_test = refl

abbrev mixed_buffers : Buffers
mixed_buffers =
    (run (λ k. true) 0 (cache_calls mixed_caches ++ clear_cache_calls mixed_caches)
      no_buffers).buffers

-- The second of the two caches is not cleared.
mixed_reset_example : Operates (λ k. not (k == 1)) (attention_state mixed_caches) mixed_buffers
unfolding attention_create_state create run cache_call clear_cache
mixed_reset_example =
    created-Operates true (λ k. true) (λ k. not (k == 1)) true (attention_state mixed_caches)
      mixed_buffers refl
