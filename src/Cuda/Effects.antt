-- ===== src/Cuda/Effects.antt =====
-- What a function of src/backend/cpu/fortai_cuda_stub.c can do: clear its output parameters and
-- return an error, or return a constant. A store has a word at each address, and 0 stands for a
-- NULL pointer, for 0 and for 0.0f alike; an output parameter is an address, 0 if it is NULL.
use fortai.Prelude.{ℕ, zero, suc, ◌+◌, List, [], ◌∷◌, ◌==◌, if◌then◌else◌}
use fortai.Libc.{Bytes}

abbrev pub Store : Type 0
Store = ℕ → ℕ

-- `FORTAI_CUDA_OK`, `FORTAI_CUDA_RUNTIME_ERROR`, NULL or a text
pub data Returned : Type 0 where
  ok runtime_error null : Returned
  text_of : Bytes → Returned

pub data Effect : Type 0 where
  succeeds gives_null : Effect
  gives_text : Bytes → Effect
  -- `if (out) *out = 0;` for each output, and `return unavailable();`
  refuses : List ℕ → Effect

-- Each address that is not NULL is set to 0.
unfoldable pub clear : List ℕ → Store → Store
clear [] store = store
clear (out ∷ outs) store =
    clear outs (λ a. if out == 0 then store a else if a == out then 0 else store a)

-- the entries of an array of `rows` words, none if it is NULL
unfoldable pub row_addresses : ℕ → ℕ → List ℕ
row_addresses first zero = []
row_addresses first (suc rows) =
    let later = row_addresses (first + 1) rows in if first == 0 then [] else first ∷ later

unfoldable pub perform : Effect → Store → Returned × Store
perform succeeds store = (ok, store)
perform gives_null store = (null, store)
perform (gives_text t) store = (text_of t, store)
perform (refuses outs) store = (runtime_error, clear outs store)
