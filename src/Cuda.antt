-- ===== src/Cuda.antt =====
-- src/backend/cpu/fortai_cuda_stub.c: what the functions of the CUDA backend do in a build without
-- it. Each is a weak definition that the backend replaces.
pub mod Effects
pub mod Outputs
pub mod Q4
pub mod Q8
pub mod Qwen35
pub mod Safety
pub mod Tests
use fortai.Prelude.{ℕ, List, [], ◌∷◌}
use fortai.Cuda.Effects.{Store, Effect, Returned, perform}
use fortai.Cuda.Q4.{
  Q4State, q4_state_effect, Q4Products, q4_products_effect, Q4Batches, q4_batches_effect,
}
use fortai.Cuda.Q8.{Q8State, q8_state_effect, Q8Device, q8_device_effect, Q8Host, q8_host_effect}
use fortai.Cuda.Qwen35.{
  Vectors, vectors_effect, Recurrent, recurrent_effect, Attention, attention_effect, Joins,
  joins_effect,
}

-- A call of one of the functions.
pub data Call : Type 0 where
  q4_state_call : Q4State → Call
  q4_products_call : Q4Products → Call
  q4_batches_call : Q4Batches → Call
  q8_state_call : Q8State → Call
  q8_device_call : Q8Device → Call
  q8_host_call : Q8Host → Call
  vectors_call : Vectors → Call
  recurrent_call : Recurrent → Call
  attention_call : Attention → Call
  joins_call : Joins → Call

unfoldable pub effect : Call → Effect
unfolding q4_state_effect q4_products_effect q4_batches_effect q8_state_effect q8_device_effect
    q8_host_effect vectors_effect recurrent_effect attention_effect joins_effect
effect (q4_state_call c) = q4_state_effect c
effect (q4_products_call c) = q4_products_effect c
effect (q4_batches_call c) = q4_batches_effect c
effect (q8_state_call c) = q8_state_effect c
effect (q8_device_call c) = q8_device_effect c
effect (q8_host_call c) = q8_host_effect c
effect (vectors_call c) = vectors_effect c
effect (recurrent_call c) = recurrent_effect c
effect (attention_call c) = attention_effect c
effect (joins_call c) = joins_effect c

-- The store after some calls, in order.
unfoldable pub run_calls : List Call → Store → Store
run_calls [] store = store
run_calls (c ∷ cs) store = run_calls cs (perform (effect c) store).1
