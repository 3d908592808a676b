-- ===== src/Gpu/Layer/State.antt =====
-- What the state of a created layer can be cleared and put back with.
use fortai.Prelude.{
  ℕ, suc, ◌*◌, ◌≡◌, refl, Bool, true, false, not, ◌&&◌, ◌||◌, Option, none, some, List, [], ◌∷◌,
  ◌++◌, if◌then◌else◌, arith, sym,
}
use mathlib.Core.Path.{subst}
use fortai.Gpu.Products.{Weights}
use fortai.Ledger.{acquired, released}
use fortai.Gpu.Context.{ok, runtime_error}
use fortai.Gpu.Layer.{
  handle, Buffers, Call, allocate, fill, put, run, no_buffers, Creation, create, refuse,
}
use fortai.Gpu.Layer.RecurrentLayer.{
  Recurrent, state_calls, output_calls, clear_calls, has_shape, has_arrays, are_ours,
  recurrent_create, recurrent_create_state,
}
use fortai.Gpu.Layer.AttentionLayer.{
  Attention, cache_calls, product_calls, clear_cache_calls, type_of, cache_call, clear_cache,
  is_attention, has_norms, are_matrices, attention_create, attention_create_state,
}
use fortai.Gpu.Layer.Life.{all_fit}
use fortai.Gpu.Layer.Sizes.{
  Layer, recurrent, recurrent_state, attention, attention_state, created, plain_cache,
}
use fortai.Gpu.Layer.Reset.{
  Outcome, both, recurrent_reset, restore, recurrent_restore_first, recurrent_restore_second,
  attention_reset,
}

-- the buffers that calls leave if all of them succeed
unfoldable final : List Call → Buffers → Buffers
final [] buffers = buffers
final (allocate i n ∷ cs) buffers = final cs (put i (some n) buffers)
final (fill i n ∷ cs) buffers = final cs buffers

run-final :
    (succeeds : ℕ → Bool) (m : ℕ) (cs : List Call) (buffers : Buffers)
    → (run succeeds m cs buffers).succeeds ≡ true
    → (run succeeds m cs buffers).buffers ≡ final cs buffers
unfolding run final
run-final succeeds m [] buffers e = refl
run-final succeeds m (allocate i n ∷ cs) buffers e =
    ground (arith, run-final succeeds (suc m) cs (put i (some n) buffers))
run-final succeeds m (fill i n ∷ cs) buffers e =
    ground (arith, run-final succeeds (suc m) cs buffers)

abbrev buffers_of : Option Buffers → Buffers
buffers_of none = no_buffers
buffers_of (some buffers) = buffers

create-final :
    (has_handle : Bool) (succeeds : ℕ → Bool) (count : ℕ) (cs : List Call) (buffers : Buffers)
    → (create has_handle succeeds count cs).layer ≡ some buffers
    → buffers ≡ final cs no_buffers
unfolding create
create-final false succeeds count cs buffers e = ground (arith, e)
create-final true succeeds count cs buffers e =
    ground (arith, e, run-final succeeds 0 cs no_buffers)

guarded-layer :
    (refused : Bool) (c : Creation) (buffers : Buffers)
    → (if refused then refuse else c).layer ≡ some buffers
    → c.layer ≡ some buffers
guarded-layer true c buffers e = ground (arith, e)
guarded-layer false c buffers e = e

recurrent-final :
    (has_handle : Bool) (succeeds : ℕ → Bool) (refused : Bool) (cs : List Call) (buffers : Buffers)
    → (if not has_handle
        then create false succeeds 15 []
        else if refused
        then record refuse { events = acquired handle ∷ released handle ∷ [] }
        else create has_handle succeeds 15 cs).layer
      ≡ some buffers
    → buffers ≡ final cs no_buffers
unfolding create
recurrent-final false succeeds refused cs buffers e = create-final false succeeds 15 cs buffers e
recurrent-final true succeeds true cs buffers e = ground (arith, e)
recurrent-final true succeeds false cs buffers e = create-final true succeeds 15 cs buffers e

-- FORTAI_CUDA_OK if no call of CUDA fails, and every access within its buffer.
abbrev pub Succeeds : Bool → Outcome → Type 0
Succeeds fine o = (all_fit o.accesses ≡ true) × (o.status ≡ (if fine then ok else runtime_error))

-- what holds for the buffers of a layer
abbrev pub Operates : (ℕ → Bool) → Layer → Buffers → Type 0
Operates succeeds (recurrent matrices d) buffers =
    Succeeds (succeeds 0 && succeeds 1 && succeeds 2) (recurrent_reset succeeds d (some buffers))
    × Succeeds (succeeds 0 && succeeds 1) (recurrent_restore_first succeeds d (some buffers))
    × Succeeds (succeeds 0 && succeeds 1) (recurrent_restore_second succeeds d (some buffers))
Operates succeeds (recurrent_state d) buffers =
    Succeeds (succeeds 0 && succeeds 1 && succeeds 2) (recurrent_reset succeeds d (some buffers))
    × Succeeds (succeeds 0 && succeeds 1) (recurrent_restore_first succeeds d (some buffers))
    × Succeeds (succeeds 0 && succeeds 1) (recurrent_restore_second succeeds d (some buffers))
Operates succeeds (attention query key value output d) buffers =
    Succeeds (succeeds 0 && succeeds 1 && succeeds 2) (attention_reset succeeds d (some buffers))
Operates succeeds (attention_state d) buffers =
    Succeeds (succeeds 0 && succeeds 1 && succeeds 2) (attention_reset succeeds d (some buffers))

recurrent-Operates :
    (succeeds : ℕ → Bool) (matrices : List Weights) (d : Recurrent)
    → Operates succeeds
        (recurrent matrices d)
        (final (state_calls d ++ (output_calls d ++ clear_calls d)) no_buffers)
unfolding final recurrent_reset restore both
recurrent-Operates succeeds matrices d =
    ((ground arith, ground arith), (ground arith, ground arith), (ground arith, ground arith))

recurrent_state-Operates :
    (succeeds : ℕ → Bool) (d : Recurrent)
    → Operates succeeds (recurrent_state d) (final (state_calls d ++ clear_calls d) no_buffers)
unfolding final recurrent_reset restore both
recurrent_state-Operates succeeds d =
    ((ground arith, ground arith), (ground arith, ground arith), (ground arith, ground arith))

attention-Operates :
    (succeeds : ℕ → Bool) (query key value output : Weights) (d : Attention)
    → Operates succeeds
        (attention query key value output d)
        (final (cache_calls d ++ (product_calls d ++ clear_cache_calls d)) no_buffers)
unfolding final attention_reset both cache_call clear_cache
attention-Operates succeeds query key value output d =
    let rows = d.max_context * d.key_value_heads in
    let k = plain_cache (type_of d.cache_key_type) rows d.head_size in
    let v = plain_cache (type_of d.cache_value_type) rows d.value_size in
    (ground (arith, k, v), ground arith)

attention_state-Operates :
    (succeeds : ℕ → Bool) (d : Attention)
    → Operates succeeds
        (attention_state d)
        (final (cache_calls d ++ clear_cache_calls d) no_buffers)
unfolding final attention_reset both cache_call clear_cache
attention_state-Operates succeeds d =
    let rows = d.max_context * d.key_value_heads in
    let k = plain_cache (type_of d.cache_key_type) rows d.head_size in
    let v = plain_cache (type_of d.cache_value_type) rows d.value_size in
    (ground (arith, k, v), ground arith)

-- A layer that one of the four functions has created, whatever its arguments are: its functions that
-- clear the state or put an earlier one back, `reset` and for a recurrent layer `restore_first` and
-- `restore_second`, read and write only within its buffers. They return FORTAI_CUDA_OK if no call of
-- CUDA fails, and FORTAI_CUDA_RUNTIME_ERROR otherwise.
pub created-Operates :
    (has_handle : Bool) (outcomes succeeds : ℕ → Bool) (present : Bool) (layer : Layer)
    (buffers : Buffers)
    → (created has_handle outcomes present layer).layer ≡ some buffers
    → Operates succeeds layer buffers
unfolding recurrent_create recurrent_create_state attention_create attention_create_state
created-Operates has_handle outcomes succeeds present (recurrent matrices d) buffers e =
    let calls = state_calls d ++ (output_calls d ++ clear_calls d) in
    let bad = not (are_ours matrices) || not (has_arrays d) in
    let g =
      guarded-layer (not present || not (has_shape d))
        (if not has_handle
          then create false outcomes 15 []
          else if bad
          then record refuse { events = acquired handle ∷ released handle ∷ [] }
          else create has_handle outcomes 15 calls)
        buffers e in
    subst (Operates succeeds (recurrent matrices d))
      (sym (recurrent-final has_handle outcomes bad calls buffers g))
      (recurrent-Operates succeeds matrices d)
created-Operates has_handle outcomes succeeds present (recurrent_state d) buffers e =
    let calls = state_calls d ++ clear_calls d in
    let g =
      guarded-layer
        (not present || not (has_shape d) || not d.positive_epsilon || not (has_arrays d))
        (create has_handle outcomes 15 calls) buffers e in
    subst (Operates succeeds (recurrent_state d))
      (sym (create-final has_handle outcomes 15 calls buffers g))
      (recurrent_state-Operates succeeds d)
created-Operates has_handle outcomes succeeds present (attention query key value output d) buffers
      e =
    let calls = cache_calls d ++ (product_calls d ++ clear_cache_calls d) in
    let g =
      guarded-layer
        (not present
          || not (is_attention d)
          || not (are_matrices d query key value output)
          || not (has_norms d))
        (create has_handle outcomes 10 calls) buffers e in
    subst (Operates succeeds (attention query key value output d))
      (sym (create-final has_handle outcomes 10 calls buffers g))
      (attention-Operates succeeds query key value output d)
created-Operates has_handle outcomes succeeds present (attention_state d) buffers e =
    let calls = cache_calls d ++ clear_cache_calls d in
    let g =
      guarded-layer (not present || not (is_attention d) || not (has_norms d))
        (create has_handle outcomes 10 calls) buffers e in
    subst (Operates succeeds (attention_state d))
      (sym (create-final has_handle outcomes 10 calls buffers g))
      (attention_state-Operates succeeds d)
