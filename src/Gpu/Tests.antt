-- ===== src/Gpu/Tests.antt =====
-- Uses of the theorem on scratch buffers: an allocation fails, and a smaller request follows.
use fortai.Prelude.{◌≡◌, refl, true, false, none, List, [], ◌∷◌}
use fortai.Gpu.Scratch.{Outcome, no_scratch, ensure_aux, grow}
use fortai.Gpu.Scratch.Room.{
  Request, aux, tokens, mmq_fixup, host_matvec, AllServed, requests-AllServed,
}

abbrev fine : Outcome
fine = record { frees = true; allocates = true }

abbrev out_of_memory : Outcome
out_of_memory = record { frees = true; allocates = false }

abbrev some_requests : List Request
some_requests =
    aux fine 100
    ∷ aux out_of_memory 200
    ∷ aux fine 50
    ∷ tokens fine 64
    ∷ mmq_fixup fine out_of_memory 10 20
    ∷ host_matvec fine fine fine 68 128
    ∷ []

requests_example : AllServed some_requests no_scratch
requests_example = requests-AllServed some_requests

-- The third request succeeds, and the pointer is NULL.
null_but_granted :
    (ensure_aux fine (ensure_aux out_of_memory (ensure_aux fine no_scratch 100).0 200).0 50).1
    ≡ true
unfolding ensure_aux grow
null_but_granted = refl

null_pointer :
    (ensure_aux fine
      (ensure_aux out_of_memory (ensure_aux fine no_scratch 100).0 200).0
      50).0.aux.size
    ≡ none
unfolding ensure_aux grow
null_pointer = refl
