-- ===== src/Cuda/Qwen35.antt =====
-- The functions for the layers of the Qwen3.5 models of src/backend/cpu/fortai_cuda_stub.c. A constructor is a function, with the addresses
-- of its output parameters; the other parameters are not used.
use fortai.Prelude.{ℕ, [], ◌∷◌}
use fortai.Libc.{codes}
use fortai.Cuda.Effects.{Effect, succeeds, refuses, gives_text, row_addresses}

-- Lines 520 to 630: the vector operations.
pub data Vectors : Type 0 where
  qwen35_embedding_device qwen35_embedding_device_batch qwen35_copy_device qwen35_add_device
        qwen35_copy_column_device qwen35_add_matrix_device qwen35_rms_norm_device
        qwen35_rms_norm_matrix_device qwen35_silu_product_device qwen35_silu_product_matrix_device :
      Vectors

unfoldable pub vectors_effect : Vectors → Effect
vectors_effect qwen35_embedding_device = refuses []
vectors_effect qwen35_embedding_device_batch = refuses []
vectors_effect qwen35_copy_device = refuses []
vectors_effect qwen35_add_device = refuses []
vectors_effect qwen35_copy_column_device = refuses []
vectors_effect qwen35_add_matrix_device = refuses []
vectors_effect qwen35_rms_norm_device = refuses []
vectors_effect qwen35_rms_norm_matrix_device = refuses []
vectors_effect qwen35_silu_product_device = refuses []
vectors_effect qwen35_silu_product_matrix_device = refuses []

-- Lines 739 to 866: the recurrent layers.
pub data Recurrent : Type 0 where
  qwen35_recurrent_destroy qwen35_recurrent_reset qwen35_recurrent_run_device
        qwen35_recurrent_run_core_device qwen35_recurrent_run_core_device_batch
        qwen35_recurrent_restore_first qwen35_recurrent_restore_second :
      Recurrent
  qwen35_recurrent_create : ℕ → Recurrent
  qwen35_recurrent_create_state : ℕ → Recurrent
  qwen35_recurrent_run : ℕ → Recurrent

unfoldable pub recurrent_effect : Recurrent → Effect
recurrent_effect (qwen35_recurrent_create layer) = refuses (layer ∷ [])
recurrent_effect (qwen35_recurrent_create_state layer) = refuses (layer ∷ [])
recurrent_effect qwen35_recurrent_destroy = succeeds
recurrent_effect qwen35_recurrent_reset = refuses []
recurrent_effect (qwen35_recurrent_run elapsed_ms) = refuses (elapsed_ms ∷ [])
recurrent_effect qwen35_recurrent_run_device = refuses []
recurrent_effect qwen35_recurrent_run_core_device = refuses []
recurrent_effect qwen35_recurrent_run_core_device_batch = refuses []
recurrent_effect qwen35_recurrent_restore_first = refuses []
recurrent_effect qwen35_recurrent_restore_second = refuses []

-- Lines 868 to 1002: the attention layers and the choice of tokens.
pub data Attention : Type 0 where
  qwen35_attention_destroy qwen35_attention_reset qwen35_attention_run_device
        qwen35_attention_run_core_device qwen35_attention_run_core_device_batch
        qwen35_topk_rows_device :
      Attention
  qwen35_attention_create : ℕ → Attention
  qwen35_attention_create_state : ℕ → Attention
  qwen35_argmax_device : ℕ → Attention
  qwen35_argmax_rows_device : ℕ → ℕ → Attention

unfoldable pub attention_effect : Attention → Effect
attention_effect (qwen35_attention_create layer) = refuses (layer ∷ [])
attention_effect (qwen35_attention_create_state layer) = refuses (layer ∷ [])
attention_effect qwen35_attention_destroy = succeeds
attention_effect qwen35_attention_reset = refuses []
attention_effect qwen35_attention_run_device = refuses []
attention_effect qwen35_attention_run_core_device = refuses []
attention_effect qwen35_attention_run_core_device_batch = refuses []
attention_effect (qwen35_argmax_device host_index) = refuses (host_index ∷ [])
attention_effect (qwen35_argmax_rows_device host_indices rows) =
    refuses (row_addresses host_indices rows)
attention_effect qwen35_topk_rows_device = refuses []

-- Lines 1004 to 1032: the concatenations, and the error text.
pub data Joins : Type 0 where
  qwen35_concat_device qwen35_concat_matrix_device qwen35_shift_target_hidden_device q8_last_error :
      Joins

unfoldable pub joins_effect : Joins → Effect
joins_effect qwen35_concat_device = refuses []
joins_effect qwen35_concat_matrix_device = refuses []
joins_effect qwen35_shift_target_hidden_device = refuses []
joins_effect q8_last_error = gives_text (codes "CUDA backend is not linked")
