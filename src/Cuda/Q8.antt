-- ===== src/Cuda/Q8.antt =====
-- The Q8 functions of src/backend/cpu/fortai_cuda_stub.c. A constructor is a function, with the addresses
-- of its output parameters; the other parameters are not used.
use fortai.Prelude.{ℕ, [], ◌∷◌}
use fortai.Cuda.Effects.{Effect, succeeds, refuses, gives_null}

-- Lines 322 to 455: the contexts, weights and buffers of the Q8 backend.
pub data Q8State : Type 0 where
  q8_context_destroy q8_context_set_position q8_context_synchronize q8_context_stream
        q8_context_adopt_stream q8_context_capture_begin q8_context_capture_end
        q8_context_graph_launch q8_context_capture_begin_slot q8_context_capture_end_slot
        q8_context_graph_launch_slot q8_weights_destroy q8_device_buffer_destroy
        q8_device_buffer_upload q8_device_buffer_upload_ptr q8_device_buffer_download :
      Q8State
  q8_context_create : ℕ → Q8State
  memory_info : ℕ → ℕ → Q8State
  q8_weights_upload : ℕ → Q8State
  q8_device_buffer_create : ℕ → Q8State

unfoldable pub q8_state_effect : Q8State → Effect
q8_state_effect (q8_context_create context) = refuses (context ∷ [])
q8_state_effect (memory_info free_bytes total_bytes) = refuses (free_bytes ∷ total_bytes ∷ [])
q8_state_effect q8_context_destroy = succeeds
q8_state_effect q8_context_set_position = refuses []
q8_state_effect q8_context_synchronize = refuses []
q8_state_effect q8_context_stream = gives_null
q8_state_effect q8_context_adopt_stream = refuses []
q8_state_effect q8_context_capture_begin = refuses []
q8_state_effect q8_context_capture_end = refuses []
q8_state_effect q8_context_graph_launch = refuses []
q8_state_effect q8_context_capture_begin_slot = refuses []
q8_state_effect q8_context_capture_end_slot = refuses []
q8_state_effect q8_context_graph_launch_slot = refuses []
q8_state_effect (q8_weights_upload weights) = refuses (weights ∷ [])
q8_state_effect q8_weights_destroy = succeeds
q8_state_effect (q8_device_buffer_create device_buffer) = refuses (device_buffer ∷ [])
q8_state_effect q8_device_buffer_destroy = succeeds
q8_state_effect q8_device_buffer_upload = refuses []
q8_state_effect q8_device_buffer_upload_ptr = refuses []
q8_state_effect q8_device_buffer_download = refuses []

-- Lines 457 to 518: the products of the Q8 backend on the device.
pub data Q8Device : Type 0 where
  q8_matvec_device_f32 q8_matvec_device_f32_pair q8_reserve_matvec_scratch q8_matmul_device_f32 :
      Q8Device
  q8_matvec_resident : ℕ → Q8Device

unfoldable pub q8_device_effect : Q8Device → Effect
q8_device_effect (q8_matvec_resident kernel_ms) = refuses (kernel_ms ∷ [])
q8_device_effect q8_matvec_device_f32 = refuses []
q8_device_effect q8_matvec_device_f32_pair = refuses []
q8_device_effect q8_reserve_matvec_scratch = refuses []
q8_device_effect q8_matmul_device_f32 = refuses []

-- Lines 632 to 737: the products of the Q8 backend for the host.
pub data Q8Host : Type 0 where
  q8_ffn_device : Q8Host
  q8_matvec_host : ℕ → Q8Host
  q8_matvec_host_pair : ℕ → Q8Host
  q8_matvec_host_triplet : ℕ → Q8Host
  q8_matvec_host_triplet_contiguous : ℕ → Q8Host
  q8_ffn_host : ℕ → Q8Host

unfoldable pub q8_host_effect : Q8Host → Effect
q8_host_effect (q8_matvec_host elapsed_ms) = refuses (elapsed_ms ∷ [])
q8_host_effect (q8_matvec_host_pair elapsed_ms) = refuses (elapsed_ms ∷ [])
q8_host_effect (q8_matvec_host_triplet elapsed_ms) = refuses (elapsed_ms ∷ [])
q8_host_effect (q8_matvec_host_triplet_contiguous elapsed_ms) = refuses (elapsed_ms ∷ [])
q8_host_effect (q8_ffn_host elapsed_ms) = refuses (elapsed_ms ∷ [])
q8_host_effect q8_ffn_device = refuses []
