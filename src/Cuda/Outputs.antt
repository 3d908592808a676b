-- ===== src/Cuda/Outputs.antt =====
-- The output parameters of the functions of the CUDA interface, as the parameter lists of
-- src/backend/cpu/fortai_cuda_stub.c name them: what a caller expects to be written, whatever a body does.
use fortai.Prelude.{ℕ, List, [], ◌∷◌}
use fortai.Cuda.Effects.{row_addresses}
use fortai.Cuda.Q4.{
  Q4State, q4_context_create, q4_weights_upload, Q4Products, q4_matvec_host, q4_matvec_host_pair,
  q4_matvec_host_triplet,
}
use fortai.Cuda.Q8.{
  q8_ffn_device, Q8State, q8_context_create, memory_info, q8_weights_upload,
  q8_device_buffer_create, Q8Device, q8_matvec_resident, Q8Host, q8_matvec_host,
  q8_matvec_host_pair, q8_matvec_host_triplet, q8_matvec_host_triplet_contiguous, q8_ffn_host,
}
use fortai.Cuda.Qwen35.{
  Recurrent, qwen35_recurrent_create, qwen35_recurrent_create_state, qwen35_recurrent_run,
  Attention, qwen35_attention_create, qwen35_attention_create_state, qwen35_argmax_device,
  qwen35_argmax_rows_device,
}
use fortai.Cuda.{
  Call, q4_state_call, q4_products_call, q4_batches_call, q8_state_call, q8_device_call,
  q8_host_call, vectors_call, recurrent_call, attention_call, joins_call,
}

-- handles: `fortai_q4_context **context`, `fortai_q4_weights **weights`
abbrev pub q4_state_outputs : Q4State → List ℕ
q4_state_outputs (q4_context_create context) = context ∷ []
q4_state_outputs (q4_weights_upload weights) = weights ∷ []
q4_state_outputs _ = []

-- times: `float *elapsed_ms`
abbrev pub q4_products_outputs : Q4Products → List ℕ
q4_products_outputs (q4_matvec_host elapsed_ms) = elapsed_ms ∷ []
q4_products_outputs (q4_matvec_host_pair elapsed_ms) = elapsed_ms ∷ []
q4_products_outputs (q4_matvec_host_triplet elapsed_ms) = elapsed_ms ∷ []
q4_products_outputs _ = []

-- handles, and the sizes `size_t *free_bytes, size_t *total_bytes`
abbrev pub q8_state_outputs : Q8State → List ℕ
q8_state_outputs (q8_context_create context) = context ∷ []
q8_state_outputs (memory_info free_bytes total_bytes) = free_bytes ∷ total_bytes ∷ []
q8_state_outputs (q8_weights_upload weights) = weights ∷ []
q8_state_outputs (q8_device_buffer_create device_buffer) = device_buffer ∷ []
q8_state_outputs _ = []

abbrev pub q8_device_outputs : Q8Device → List ℕ
q8_device_outputs (q8_matvec_resident kernel_ms) = kernel_ms ∷ []
q8_device_outputs _ = []

abbrev pub q8_host_outputs : Q8Host → List ℕ
q8_host_outputs q8_ffn_device = []
q8_host_outputs (q8_matvec_host elapsed_ms) = elapsed_ms ∷ []
q8_host_outputs (q8_matvec_host_pair elapsed_ms) = elapsed_ms ∷ []
q8_host_outputs (q8_matvec_host_triplet elapsed_ms) = elapsed_ms ∷ []
q8_host_outputs (q8_matvec_host_triplet_contiguous elapsed_ms) = elapsed_ms ∷ []
q8_host_outputs (q8_ffn_host elapsed_ms) = elapsed_ms ∷ []

abbrev pub recurrent_outputs : Recurrent → List ℕ
recurrent_outputs (qwen35_recurrent_create layer) = layer ∷ []
recurrent_outputs (qwen35_recurrent_create_state layer) = layer ∷ []
recurrent_outputs (qwen35_recurrent_run elapsed_ms) = elapsed_ms ∷ []
recurrent_outputs _ = []

-- handles, `int *host_index`, and the entries of `int *host_indices`, one for each row
abbrev pub attention_outputs : Attention → List ℕ
attention_outputs (qwen35_attention_create layer) = layer ∷ []
attention_outputs (qwen35_attention_create_state layer) = layer ∷ []
attention_outputs (qwen35_argmax_device host_index) = host_index ∷ []
attention_outputs (qwen35_argmax_rows_device host_indices rows) = row_addresses host_indices rows
attention_outputs _ = []

-- the addresses that the arguments of a call give for results
unfoldable pub outputs : Call → List ℕ
outputs (q4_state_call c) = q4_state_outputs c
outputs (q4_products_call c) = q4_products_outputs c
outputs (q4_batches_call c) = []
outputs (q8_state_call c) = q8_state_outputs c
outputs (q8_device_call c) = q8_device_outputs c
outputs (q8_host_call c) = q8_host_outputs c
outputs (vectors_call c) = []
outputs (recurrent_call c) = recurrent_outputs c
outputs (attention_call c) = attention_outputs c
outputs (joins_call c) = []
