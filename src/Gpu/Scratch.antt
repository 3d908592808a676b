-- ===== src/Gpu/Scratch.antt =====
-- The scratch buffers of a context in backend/cuda/fortai_cuda_backend.cu, which grow on demand.
-- What the calls of CUDA return is a parameter. Sizes are of arrays that exist, so no size_t wraps.
pub mod Grow
pub mod Room
use fortai.Prelude.{
  ℕ, ◌+◌, ◌*◌, ◌/◌, ◌-◌, Bool, true, false, not, ◌&&◌, ◌||◌, Option, none, some, leb, if◌then◌else◌,
}

-- A buffer: the bytes that its pointer has, none for NULL, and the count of bytes beside it.
pub record Buffer : Type 0 where
  pub size : Option ℕ
  pub bytes : ℕ

-- Whether the buffer can be freed, the stream synchronised included where the code does that, and
-- whether one can be allocated.
pub record Outcome : Type 0 where
  pub frees : Bool
  pub allocates : Bool

abbrev pub is_allocated : Option ℕ → Bool
is_allocated none = false
is_allocated (some n) = true

-- a step of `ensure_host_matvec_scratch`, and `ensure_aux_scratch`: the count stays as it is where
-- the allocation fails
unfoldable pub grow : Outcome → Buffer → ℕ → Buffer × Bool
grow o b bytes =
    if leb bytes b.bytes
    then (b, true)
    else if not o.frees
    then (b, false)
    else if not o.allocates
    then (record { size = none; bytes = b.bytes }, false)
    else (record { size = some bytes; bytes = bytes }, true)

-- the others, which look at the pointer too and clear the count
unfoldable pub grow_checked : Outcome → Buffer → ℕ → Buffer × Bool
grow_checked o b bytes =
    if leb bytes b.bytes && is_allocated b.size
    then (b, true)
    else if not o.frees
    then (b, false)
    else if not o.allocates
    then (record { size = none; bytes = 0 }, false)
    else (record { size = some bytes; bytes = bytes }, true)

-- a step of `ensure_attention_f16_view` and `ensure_attention_fattn_scratch`: the new buffer is there
-- before the old one is freed
unfoldable pub grow_replacing : Outcome → Buffer → ℕ → Buffer × Bool
grow_replacing o b bytes =
    if leb bytes b.bytes
    then (b, true)
    else if not o.allocates || not o.frees
    then (b, false)
    else (record { size = some bytes; bytes = bytes }, true)

-- the buffers of the attention in `fortai_cuda_q8_context_impl`
pub record Views : Type 0 where
  pub key : Buffer
  pub value : Buffer
  pub mask : Buffer
  pub meta : Buffer

-- the buffers of `fortai_cuda_q8_context_impl`
pub record Scratch : Type 0 where
  pub raw : Buffer
  pub activation : Buffer
  pub output : Buffer
  pub aux : Buffer
  pub batched_activation : Buffer
  pub mmq_fixup : Buffer
  pub mmq_tiles : Buffer
  pub tokens : Buffer
  pub download : Buffer
  pub views : Views

abbrev pub empty : Buffer
empty = record { size = none; bytes = 0 }

-- a new context
abbrev pub no_scratch : Scratch
no_scratch = record {
  raw = empty;
  activation = empty;
  output = empty;
  aux = empty;
  batched_activation = empty;
  mmq_fixup = empty;
  mmq_tiles = empty;
  tokens = empty;
  download = empty;
  views = record { key = empty; value = empty; mask = empty; meta = empty };
}

abbrev pub padded : ℕ → ℕ
padded activation_bytes = activation_bytes / 34 * 36

-- `ensure_host_matvec_scratch`, true for cudaSuccess
unfoldable pub ensure_host_matvec : Outcome → Outcome → Outcome → Scratch → ℕ → ℕ → Scratch × Bool
ensure_host_matvec o p q s activation_bytes output_bytes =
    let raw = grow o s.raw activation_bytes in
    let activation = grow p s.activation (padded activation_bytes) in
    let output = grow q s.output output_bytes in
    if not raw.1
    then (record s { raw = raw.0 }, false)
    else if not activation.1
    then (record s { raw = raw.0; activation = activation.0 }, false)
    else (record s { raw = raw.0; activation = activation.0; output = output.0 }, output.1)

abbrev pub activation_blocks : ℕ → ℕ
activation_blocks elements = (elements + 32 - 1) / 32

-- `ensure_device_matvec_scratch`
unfoldable pub ensure_device_matvec : Outcome → Scratch → ℕ → Scratch × Bool
ensure_device_matvec o s elements =
    let r = grow_checked o s.activation (activation_blocks elements * 36) in
    (record s { activation = r.0 }, r.1)

-- `ensure_aux_scratch`
unfoldable pub ensure_aux : Outcome → Scratch → ℕ → Scratch × Bool
ensure_aux o s bytes = let r = grow o s.aux bytes in (record s { aux = r.0 }, r.1)

-- `ensure_batched_activation_scratch`
unfoldable pub ensure_batched_activation : Outcome → Scratch → ℕ → Scratch × Bool
ensure_batched_activation o s bytes =
    let r = grow_checked o s.batched_activation bytes in
    (record s { batched_activation = r.0 }, r.1)

-- `ensure_mmq_fixup_scratch`
unfoldable pub ensure_mmq_fixup : Outcome → Outcome → Scratch → ℕ → ℕ → Scratch × Bool
ensure_mmq_fixup o p s partial_bytes tile_bytes =
    let fixup = grow_checked o s.mmq_fixup partial_bytes in
    let tiles = grow_checked p s.mmq_tiles tile_bytes in
    if not fixup.1
    then (record s { mmq_fixup = fixup.0 }, false)
    else (record s { mmq_fixup = fixup.0; mmq_tiles = tiles.0 }, tiles.1)

-- `ensure_token_scratch`
unfoldable pub ensure_tokens : Outcome → Scratch → ℕ → Scratch × Bool
ensure_tokens o s bytes = let r = grow_checked o s.tokens bytes in (record s { tokens = r.0 }, r.1)

-- `ensure_download_host`
unfoldable pub ensure_download : Outcome → Scratch → ℕ → Scratch × Bool
ensure_download o s bytes =
    let r = grow_checked o s.download bytes in (record s { download = r.0 }, r.1)

-- `ensure_attention_f16_view`
unfoldable pub ensure_attention_view : Outcome → Outcome → Views → ℕ → ℕ → Views × Bool
ensure_attention_view o p w key_bytes value_bytes =
    let key = grow_replacing o w.key key_bytes in
    let value = grow_replacing p w.value value_bytes in
    if not key.1
    then (record w { key = key.0 }, false)
    else (record w { key = key.0; value = value.0 }, value.1)

-- `ensure_attention_fattn_scratch`
unfoldable pub ensure_attention_fattn : Outcome → Outcome → Views → ℕ → ℕ → Views × Bool
ensure_attention_fattn o p w mask_bytes meta_bytes =
    let mask = grow_replacing o w.mask mask_bytes in
    let meta = grow_replacing p w.meta meta_bytes in
    if not mask.1
    then (record w { mask = mask.0 }, false)
    else (record w { mask = mask.0; meta = meta.0 }, meta.1)
