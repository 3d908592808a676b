-- ===== src/Gpu/Context/Tests.antt =====
-- Uses of the theorems on the life of a CUDA context, and a capture that ends in the wrong slot.
use fortai.Prelude.{◌≡◌, refl, true, false, not, none, some, List, [], ◌∷◌, ◌==◌, pos}
use fortai.Libc.Environment.{Env}
use fortai.Ledger.Track.{track}
use fortai.Gpu.Context.{
  Context, Creation, creates, Handover, graph, context_create, unchanged, set_position, new_context,
  context_destroy, destroy_slots, destroy_rows,
}
use fortai.Gpu.Context.Graphs.{Capture, capture_begin_slot, capture_end_slot, begin_at, end_at}
use fortai.Gpu.Context.Rows.{Creations}
use fortai.Gpu.Context.Owned.{same}
use fortai.Gpu.Context.Prepared.{IsConsistent}
use fortai.Gpu.Context.Life.{
  Operation, sets_position, adopts, begins, ends, launches, prepares, perform, run, life, ArePaired,
  run-IsConsistent,
}
use fortai.Gpu.Context.Borrowed.{KeepsStream, life-IsSafe}

abbrev no_variables : Env
no_variables name = none

abbrev all_fine : Creation
all_fine = record {
  has_handle = true;
  has_properties = true;
  major = 12;
  processors = 36;
  sets_device = true;
  new_stream = some 7;
  has_start = true;
  has_stop = true;
  has_position = true;
  clears_position = true;
  synchronizes = true;
}

abbrev captured : Capture
captured = record { ends = true; instantiates = true }

abbrev no_ninth_stream : Creations
no_ninth_stream = record { has_ready = true; has_stream = λ k. not (k == 9); has_done = λ k. true }

abbrev handover : Handover
handover = record { sets_device = true; synchronizes = true; destroys = true }

abbrev some_operations : List Operation
some_operations =
    sets_position true (pos 5)
    ∷ begins true (pos 1)
    ∷ ends captured (pos 1)
    ∷ launches true (pos 1)
    ∷ prepares no_ninth_stream
    ∷ adopts handover (some 8)
    ∷ begins true (pos 66)
    ∷ []

operations_paired : ArePaired some_operations (context_create no_variables all_fine (pos 0)).1
unfolding context_create perform capture_begin_slot begin_at unchanged set_position
operations_paired = (tt, (tt, (refl, (tt, (tt, (tt, (tt, tt)))))))

life_example :
    (track same (graph 1) (life no_variables all_fine (pos 0) some_operations) (some false)
      ≡ some false)
    × KeepsStream all_fine some_operations (context_create no_variables all_fine (pos 0)).1
life_example = life-IsSafe no_variables all_fine (pos 0) some_operations (graph 1) operations_paired

abbrev first_context : Context
first_context = new_context no_variables all_fine 0

first_created : (context_create no_variables all_fine (pos 0)).1 ≡ creates first_context
unfolding context_create
first_created = refl

slots_example : IsConsistent (run some_operations first_context).1
slots_example =
    run-IsConsistent no_variables all_fine (pos 0) first_context some_operations first_created

-- A second capture that ends in the slot of the first leaves a graph behind.
wrong_slot :
    track same
      (graph 1)
      (life no_variables all_fine (pos 0) (
        begins true (pos 1)
        ∷ ends captured (pos 1)
        ∷ begins true (pos 2)
        ∷ ends captured (pos 1)
        ∷ []))
      (some false)
    ≡ none
unfolding life context_create run perform capture_begin_slot capture_end_slot begin_at end_at
    unchanged track context_destroy destroy_slots destroy_rows
wrong_slot = refl
