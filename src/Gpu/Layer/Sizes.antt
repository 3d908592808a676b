-- ===== src/Gpu/Layer/Sizes.antt =====
-- The buffers of the recurrent and the attention layers have the bytes that their creation writes.
use fortai.Prelude.{
  ℕ, ◌*◌, ◌≡◌, refl, ap, Bool, true, false, not, ◌||◌, List, [], ◌∷◌, ◌++◌, leb, if◌then◌else◌,
  arith,
}
use fortai.Gpu.Products.{Weights}
use fortai.Ledger.{acquired, released}
use fortai.Ledger.Track.{track}
use fortai.Gpu.Layer.{Resource, handle, buffer, destroy, Call, no_buffers, Creation, create, refuse}
use fortai.Gpu.Layer.RecurrentLayer.{
  Recurrent, state_calls, output_calls, clear_calls, has_shape, has_arrays, are_ours,
  recurrent_create, recurrent_create_state,
}
use fortai.Gpu.Layer.AttentionLayer.{
  attention_cache_row_bytes, Attention, cache_calls, product_calls, clear_cache_calls, type_of,
  cache_call, clear_cache, is_attention, has_norms, are_matrices, attention_create,
  attention_create_state,
}
use fortai.Gpu.Layer.Life.{are_sound, IsKept, refuse-IsKept, create-IsKept}

leb_refl : (n : ℕ) → leb n n ≡ true
leb_refl n = ground arith

recurrent-are_sound :
    (d : Recurrent)
    → are_sound 15 (state_calls d ++ (output_calls d ++ clear_calls d)) no_buffers ≡ true
unfolding are_sound
recurrent-are_sound d = ground arith

recurrent_state-are_sound :
    (d : Recurrent) → are_sound 15 (state_calls d ++ clear_calls d) no_buffers ≡ true
unfolding are_sound
recurrent_state-are_sound d = ground arith

plain_row : (width : ℕ) → attention_cache_row_bytes 0 width ≡ width * 2
unfolding attention_cache_row_bytes
plain_row width = refl

-- A cache of float16 has 2 bytes for each value.
pub plain_cache :
    (cache_type rows width : ℕ)
    → cache_type ≡ 0
    → rows * attention_cache_row_bytes cache_type width ≡ rows * width * 2
plain_cache cache_type rows width e = omega (
  arith,
  ap (λ t. rows * attention_cache_row_bytes t width) e,
  ap (λ bytes. rows * bytes) (plain_row width),
)

attention-are_sound :
    (d : Attention)
    → are_sound 10 (cache_calls d ++ (product_calls d ++ clear_cache_calls d)) no_buffers ≡ true
unfolding are_sound cache_call clear_cache
attention-are_sound d =
    let rows = d.max_context * d.key_value_heads in
    ground (
      arith,
      plain_cache (type_of d.cache_key_type) rows d.head_size,
      plain_cache (type_of d.cache_value_type) rows d.value_size,
    )

attention_state-are_sound :
    (d : Attention) → are_sound 10 (cache_calls d ++ clear_cache_calls d) no_buffers ≡ true
unfolding are_sound cache_call clear_cache
attention_state-are_sound d =
    let rows = d.max_context * d.key_value_heads in
    ground (
      arith,
      plain_cache (type_of d.cache_key_type) rows d.head_size,
      plain_cache (type_of d.cache_value_type) rows d.value_size,
    )

guarded-IsKept :
    (r : Resource) (count : ℕ) (refused : Bool) (c : Creation)
    → IsKept r count c
    → IsKept r count (if refused then refuse else c)
guarded-IsKept r count true c k = refuse-IsKept r count
guarded-IsKept r count false c k = k

-- The checks of `fortai_cuda_qwen35_recurrent_create` behind the memory of the layer.
checked-IsKept :
    (has_handle : Bool) (succeeds : ℕ → Bool) (r : Resource) (calls : List Call) (refused : Bool)
    → are_sound 15 calls no_buffers ≡ true
    → IsKept r 15 (
        if not has_handle
        then create false succeeds 15 []
        else if refused
        then record refuse { events = acquired handle ∷ released handle ∷ [] }
        else create has_handle succeeds 15 calls)
unfolding create destroy track
checked-IsKept false succeeds r calls refused s = (refl, refl, refl)
checked-IsKept true succeeds handle calls true s = (refl, refl, refl)
checked-IsKept true succeeds (buffer k) calls true s = (refl, refl, refl)
checked-IsKept true succeeds r calls false s = create-IsKept true succeeds r 15 calls s

-- a layer by the function that creates it, with its arguments
pub data Layer : Type 0 where
  recurrent : List Weights → Recurrent → Layer
  recurrent_state : Recurrent → Layer
  attention : Weights → Weights → Weights → Weights → Attention → Layer
  attention_state : Attention → Layer

abbrev pub buffer_count : Layer → ℕ
buffer_count (recurrent matrices d) = 15
buffer_count (recurrent_state d) = 15
buffer_count (attention query key value output d) = 10
buffer_count (attention_state d) = 10

abbrev pub created : Bool → (ℕ → Bool) → Bool → Layer → Creation
created has_handle succeeds present (recurrent matrices d) =
    recurrent_create has_handle succeeds present matrices d
created has_handle succeeds present (recurrent_state d) =
    recurrent_create_state has_handle succeeds present d
created has_handle succeeds present (attention query key value output d) =
    attention_create has_handle succeeds present query key value output d
created has_handle succeeds present (attention_state d) =
    attention_create_state has_handle succeeds present d

-- Each of the four functions that create a layer, with any arguments and whichever call of CUDA or of
-- the allocator fails, followed by the destruction of what it hands out: the memory of the layer and
-- each of its buffers is taken and given back in order, and none is left. Each copy and each clearing
-- on the device lies within the buffer that it writes, whatever type the caches have. A layer is handed
-- out exactly with FORTAI_CUDA_OK.
pub created-IsKept :
    (has_handle : Bool) (succeeds : ℕ → Bool) (present : Bool) (layer : Layer) (r : Resource)
    → IsKept r (buffer_count layer) (created has_handle succeeds present layer)
unfolding recurrent_create recurrent_create_state attention_create attention_create_state
created-IsKept has_handle succeeds present (recurrent matrices d) r =
    let calls = state_calls d ++ (output_calls d ++ clear_calls d) in
    let refused = not (are_ours matrices) || not (has_arrays d) in
    guarded-IsKept r 15 (not present || not (has_shape d))
      (if not has_handle
        then create false succeeds 15 []
        else if refused
        then record refuse { events = acquired handle ∷ released handle ∷ [] }
        else create has_handle succeeds 15 calls)
      (checked-IsKept has_handle succeeds r calls refused (recurrent-are_sound d))
created-IsKept has_handle succeeds present (recurrent_state d) r =
    guarded-IsKept r 15
      (not present || not (has_shape d) || not d.positive_epsilon || not (has_arrays d))
      (create has_handle succeeds 15 (state_calls d ++ clear_calls d))
      (create-IsKept has_handle succeeds r 15 (state_calls d ++ clear_calls d)
        (recurrent_state-are_sound d))
created-IsKept has_handle succeeds present (attention query key value output d) r =
    let calls = cache_calls d ++ (product_calls d ++ clear_cache_calls d) in
    guarded-IsKept r 10
      (not present
        || not (is_attention d)
        || not (are_matrices d query key value output)
        || not (has_norms d))
      (create has_handle succeeds 10 calls)
      (create-IsKept has_handle succeeds r 10 calls (attention-are_sound d))
created-IsKept has_handle succeeds present (attention_state d) r =
    let calls = cache_calls d ++ clear_cache_calls d in
    guarded-IsKept r 10 (not present || not (is_attention d) || not (has_norms d))
      (create has_handle succeeds 10 calls)
      (create-IsKept has_handle succeeds r 10 calls (attention_state-are_sound d))
