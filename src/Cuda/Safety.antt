-- ===== src/Cuda/Safety.antt =====
-- A build without the CUDA backend hands out no handle.
use fortai.Prelude.{ℕ, ◌≡◌, refl, List, [], ◌∷◌, ◌==◌, ◌⊎◌, inr, if◌then◌else◌, arith}
use fortai.Cuda.Effects.{Store, Effect, succeeds, gives_null, gives_text, refuses, clear, perform}
use fortai.Cuda.{Call, effect, run_calls}

-- the addresses that the effect clears
abbrev cleared : Effect → List ℕ
cleared succeeds = []
cleared gives_null = []
cleared (gives_text t) = []
cleared (refuses outs) = outs

-- The address is one of the list.
abbrev pub IsAmong : ℕ → List ℕ → Type 0
IsAmong a [] = ⊥
IsAmong a (out ∷ outs) = (a ≡ out) ⊎ IsAmong a outs

clear-keeps :
    (outs : List ℕ) (store : Store) (a : ℕ)
    → (clear outs store a ≡ 0) ⊎ (clear outs store a ≡ store a)
unfolding clear
clear-keeps [] store a = inr refl
clear-keeps (out ∷ outs) store a =
    ground (
      arith,
      clear-keeps outs (λ b. if out == 0 then store b else if b == out then 0 else store b) a,
    )

perform-keeps :
    (e : Effect) (store : Store) (a : ℕ)
    → ((perform e store).1 a ≡ 0) ⊎ ((perform e store).1 a ≡ store a)
unfolding perform
perform-keeps succeeds store a = inr refl
perform-keeps gives_null store a = inr refl
perform-keeps (gives_text t) store a = inr refl
perform-keeps (refuses outs) store a = clear-keeps outs store a

-- After any calls, in any order, a word of the store is what it was or 0: no call gives a handle, a
-- time or an index that was not there before.
pub run_calls-keeps :
    (calls : List Call) (store : Store) (a : ℕ)
    → (run_calls calls store a ≡ 0) ⊎ (run_calls calls store a ≡ store a)
unfolding run_calls
run_calls-keeps [] store a = inr refl
run_calls-keeps (c ∷ cs) store a =
    ground
      (arith, run_calls-keeps cs (perform (effect c) store).1 a, perform-keeps (effect c) store a)
