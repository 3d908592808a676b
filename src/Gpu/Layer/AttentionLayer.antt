-- ===== src/Gpu/Layer/AttentionLayer.antt =====
-- The attention layers of backend/cuda/fortai_cuda_backend.cu: the guards of their creation, the sizes
-- of their caches and the calls it makes.
use fortai.Prelude.{
  ℕ, ◌*◌, ◌/◌, ◌%◌, Bool, false, not, ◌&&◌, ◌||◌, Option, none, some, List, [], ◌∷◌, ◌++◌, leb,
  ◌==◌, if◌then◌else◌,
}
use fortai.Gpu.Products.{Weights}
use fortai.Gpu.Layer.{Call, allocate, fill, Creation, create, refuse}

-- `attention_cache_row_bytes`
unfoldable pub attention_cache_row_bytes : ℕ → ℕ → ℕ
attention_cache_row_bytes cache_type width =
    if cache_type == 1
    then width / 32 * 34
    else if cache_type == 2
    then width / 32 * 18
    else width * 2

-- the dimensions of an attention layer, none for a negative `rope_dimension`, and whether the base and
-- the epsilon are positive
pub record Attention : Type 0 where
  pub heads : ℕ
  pub key_value_heads : ℕ
  pub head_size : ℕ
  pub value_size : ℕ
  pub max_context : ℕ
  pub rope_dimension : Option ℕ
  pub positive_base : Bool
  pub positive_epsilon : Bool
  pub cache_key_type : Option ℕ
  pub cache_value_type : Option ℕ
  pub query_norm_bytes : ℕ
  pub key_norm_bytes : ℕ

abbrev pub is_rope : ℕ → Option ℕ → Bool
is_rope head_size none = false
is_rope head_size (some n) = n == 0 || leb n head_size && n % 2 == 0

-- a type of the cache, none for a negative number: float16, Q8 or Q4, of whole blocks
abbrev pub is_cache : ℕ → Option ℕ → Bool
is_cache width none = false
is_cache width (some t) = leb t 2 && (t == 0 || width % 32 == 0)

abbrev pub is_attention : Attention → Bool
is_attention d =
    leb 1 d.heads
    && leb 1 d.key_value_heads
    && leb 1 d.head_size
    && leb 1 d.value_size
    && leb 1 d.max_context
    && d.heads % d.key_value_heads == 0
    && is_rope d.head_size d.rope_dimension
    && d.positive_base
    && d.positive_epsilon
    && is_cache d.head_size d.cache_key_type
    && is_cache d.value_size d.cache_value_type

abbrev pub has_norms : Attention → Bool
has_norms d = leb (d.head_size * 4) d.query_norm_bytes && leb (d.head_size * 4) d.key_norm_bytes

abbrev pub type_of : Option ℕ → ℕ
type_of none = 0
type_of (some t) = t

-- one of the caches: the buffer `plain` for float16, and `packed` for the other types
unfoldable pub cache_call : ℕ → ℕ → ℕ → ℕ → ℕ → Call
cache_call plain packed cache_type rows width =
    if cache_type == 0
    then allocate plain (rows * width * 2)
    else allocate packed (rows * attention_cache_row_bytes cache_type width)

unfoldable pub clear_cache : ℕ → ℕ → ℕ → ℕ → ℕ → Call
clear_cache plain packed cache_type rows width =
    fill (if cache_type == 0 then plain else packed)
      (rows * attention_cache_row_bytes cache_type width)

-- the norms, 0 and 1, and the caches, 2 to 5
abbrev pub cache_calls : Attention → List Call
cache_calls d =
    allocate 0 (d.head_size * 4)
    ∷ fill 0 (d.head_size * 4)
    ∷ allocate 1 (d.head_size * 4)
    ∷ fill 1 (d.head_size * 4)
    ∷ cache_call 2 4 (type_of d.cache_key_type) (d.max_context * d.key_value_heads) d.head_size
    ∷ cache_call 3 5 (type_of d.cache_value_type) (d.max_context * d.key_value_heads) d.value_size
    ∷ []

abbrev pub product_calls : Attention → List Call
product_calls d =
    allocate 6 (d.heads * 2 * d.head_size * 4)
    ∷ allocate 7 (d.key_value_heads * d.head_size * 4)
    ∷ allocate 8 (d.key_value_heads * d.value_size * 4)
    ∷ allocate 9 (d.heads * d.value_size * 4)
    ∷ []

abbrev pub clear_cache_calls : Attention → List Call
clear_cache_calls d =
    clear_cache 2 4 (type_of d.cache_key_type) (d.max_context * d.key_value_heads) d.head_size
    ∷ clear_cache 3 5 (type_of d.cache_value_type) (d.max_context * d.key_value_heads) d.value_size
    ∷ []

-- the shapes of the matrices of the query, the keys, the values and the output
abbrev pub are_matrices : Attention → Weights → Weights → Weights → Weights → Bool
are_matrices d query key value output =
    query.same_context
    && key.same_context
    && value.same_context
    && output.same_context
    && query.rows == d.heads * 2 * d.head_size
    && key.rows == d.key_value_heads * d.head_size
    && value.rows == d.key_value_heads * d.value_size
    && output.blocks * 32 == d.heads * d.value_size

-- `fortai_cuda_qwen35_attention_create`
unfoldable pub attention_create :
    Bool → (ℕ → Bool) → Bool → Weights → Weights → Weights → Weights → Attention → Creation
attention_create has_handle succeeds present query key value output d =
    if not present
      || not (is_attention d)
      || not (are_matrices d query key value output)
      || not (has_norms d)
    then refuse
    else create has_handle succeeds 10 (cache_calls d ++ (product_calls d ++ clear_cache_calls d))

-- `fortai_cuda_qwen35_attention_create_state`
unfoldable pub attention_create_state : Bool → (ℕ → Bool) → Bool → Attention → Creation
attention_create_state has_handle succeeds present d =
    if not present || not (is_attention d) || not (has_norms d)
    then refuse
    else create has_handle succeeds 10 (cache_calls d ++ clear_cache_calls d)
