-- ===== src/Cuda/Q4.antt =====
-- The Q4 functions of src/backend/cpu/fortai_cuda_stub.c. A constructor is a function, with the addresses
-- of its output parameters; the other parameters are not used.
use fortai.Prelude.{ℕ, [], ◌∷◌}
use fortai.Cuda.Effects.{Effect, succeeds, refuses, gives_null}

-- Lines 14 to 77: the contexts and the weights of the Q4 backend.
pub data Q4State : Type 0 where
  q4_context_destroy q4_context_synchronize q4_context_transfer q4_context_stream
        q4_context_set_consumer_stream q4_weights_destroy :
      Q4State
  q4_context_create : ℕ → Q4State
  q4_weights_upload : ℕ → Q4State

unfoldable pub q4_state_effect : Q4State → Effect
q4_state_effect (q4_context_create context) = refuses (context ∷ [])
q4_state_effect q4_context_destroy = succeeds
q4_state_effect q4_context_synchronize = succeeds
q4_state_effect q4_context_transfer = refuses []
q4_state_effect q4_context_stream = gives_null
q4_state_effect q4_context_set_consumer_stream = refuses []
q4_state_effect (q4_weights_upload weights) = refuses (weights ∷ [])
q4_state_effect q4_weights_destroy = succeeds

-- Lines 79 to 207: the products of the Q4 backend.
pub data Q4Products : Type 0 where
  q4_matvec_device q4_matvec_device_swiglu q4_matvec_device_swiglu_remote_output
        q4_matvec_device_swiglu_down q4_matmul_device_swiglu_down_slot :
      Q4Products
  q4_matvec_host : ℕ → Q4Products
  q4_matvec_host_pair : ℕ → Q4Products
  q4_matvec_host_triplet : ℕ → Q4Products

unfoldable pub q4_products_effect : Q4Products → Effect
q4_products_effect (q4_matvec_host elapsed_ms) = refuses (elapsed_ms ∷ [])
q4_products_effect (q4_matvec_host_pair elapsed_ms) = refuses (elapsed_ms ∷ [])
q4_products_effect (q4_matvec_host_triplet elapsed_ms) = refuses (elapsed_ms ∷ [])
q4_products_effect q4_matvec_device = refuses []
q4_products_effect q4_matvec_device_swiglu = refuses []
q4_products_effect q4_matvec_device_swiglu_remote_output = refuses []
q4_products_effect q4_matvec_device_swiglu_down = refuses []
q4_products_effect q4_matmul_device_swiglu_down_slot = refuses []

-- Lines 209 to 320: the grouped products and the embeddings of the Q4 backend.
pub data Q4Batches : Type 0 where
  q4_matvec_device_group q4_matvec_device_quad q4_matmul_device_group q4_matmul_device_group_slot
        q4_matmul_device q4_matvec_device_group_remote_output q4_matvec_device_remote_input
        q4_embedding_device q4_embedding_device_batch q4_embedding_device_batch_slot :
      Q4Batches

unfoldable pub q4_batches_effect : Q4Batches → Effect
q4_batches_effect q4_matvec_device_group = refuses []
q4_batches_effect q4_matvec_device_quad = refuses []
q4_batches_effect q4_matmul_device_group = refuses []
q4_batches_effect q4_matmul_device_group_slot = refuses []
q4_batches_effect q4_matmul_device = refuses []
q4_batches_effect q4_matvec_device_group_remote_output = refuses []
q4_batches_effect q4_matvec_device_remote_input = refuses []
q4_batches_effect q4_embedding_device = refuses []
q4_batches_effect q4_embedding_device_batch = refuses []
q4_batches_effect q4_embedding_device_batch_slot = refuses []
