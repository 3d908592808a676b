-- ===== src/Cuda/Tests.antt =====
-- Uses of the theorems on the stub, at concrete calls.
use fortai.Prelude.{List, [], ◌∷◌, ◌+◌}
use fortai.Cuda.Effects.{Store}
use fortai.Cuda.Q4.{q4_context_create}
use fortai.Cuda.Qwen35.{qwen35_argmax_rows_device}
use fortai.Cuda.{Call, q4_state_call, attention_call}

abbrev filled : Store
filled a = a + 100

abbrev some_calls : List Call
some_calls =
    q4_state_call (q4_context_create 8) ∷ attention_call (qwen35_argmax_rows_device 16 3) ∷ []
