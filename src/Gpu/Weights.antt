-- ===== src/Gpu/Weights.antt =====
-- The matrices of backend/cuda/fortai_cuda_backend.cu: how they are uploaded and destroyed, and the
-- buffers of the device that the caller asks for. What the calls of CUDA return is a parameter.
pub mod Life
use fortai.Prelude.{
  ℕ, ◌+◌, ◌*◌, ◌/◌, ◌%◌, Bool, true, false, not, ◌&&◌, ◌||◌, Option, none, some, List, [], ◌∷◌,
  ◌++◌, ltb, leb, ◌==◌, if◌then◌else◌, ℤ, pos, negsuc,
}
use fortai.Ledger
use fortai.Ledger.{acquired, used, released, on}
use fortai.Gpu.Context.{Status, ok, invalid, runtime_error}
use fortai.Gpu.Scratch.{Outcome, Scratch, ensure_download}
use fortai.Gpu.Products.{Weights}

-- the memory of the handle, and `device_data`
pub data Resource : Type 0 where
  handle device_data : Resource

abbrev pub Event : Type 0
Event = Ledger.Event Resource

-- what the calls of `fortai_cuda_q8_weights_upload` give
pub record Upload : Type 0 where
  pub has_handle : Bool
  pub allocates : Bool
  pub copies : Bool

-- what is left: the events, the bytes that are copied from the host, the matrix with its bytes on the
-- device, and the result
pub record Uploaded : Type 0 where
  pub events : List Event
  pub copied : ℕ
  pub weights : Option (Weights × ℕ)
  pub status : Status

pub refused : Status → Uploaded
refused status = record { events = []; copied = 0; weights = none; status = status }

pub upload_at : Upload → Bool → ℕ → ℕ → ℕ → Uploaded
unfolding refused
upload_at o present weight_bytes rows width =
    let blocks = width / 32 in
    let expected = rows * blocks * 34 in
    if not present || rows == 0 || width == 0 || not (width % 32 == 0) || ltb weight_bytes expected
    then refused invalid
    else if not o.has_handle
    then refused runtime_error
    else if not (o.allocates && o.copies)
    then (record {
      events =
          (acquired handle ∷ on o.allocates (acquired device_data))
          ++ (on o.allocates (released device_data) ++ (released handle ∷ []));
      copied = if o.allocates then expected else 0;
      weights = none;
      status = runtime_error;
    })
    else record {
      events = acquired handle ∷ acquired device_data ∷ [];
      copied = expected;
      weights =
          some (
            record { same_context = true; has_data = true; rows = rows; blocks = blocks },
            expected,
          );
      status = ok;
    }

-- `fortai_cuda_q8_weights_upload`
unfoldable pub weights_upload : Upload → Bool → ℕ → ℤ → ℤ → Uploaded
unfolding upload_at refused
weights_upload o present weight_bytes (negsuc rows) width = refused invalid
weights_upload o present weight_bytes (pos rows) (negsuc width) = refused invalid
weights_upload o present weight_bytes (pos rows) (pos width) =
    upload_at o present weight_bytes rows width

-- `fortai_cuda_q8_weights_destroy`, also of NULL, which returns FORTAI_CUDA_OK
unfoldable pub weights_destroy : Option (Weights × ℕ) → List Event
weights_destroy none = []
weights_destroy (some (w, bytes)) = on w.has_data (released device_data) ++ (released handle ∷ [])

-- a buffer of the device as the bytes in it, and an array of the host
abbrev pub Memory : Type 0
Memory = ℕ → ℕ

-- `cudaMemcpy` of `bytes` bytes
abbrev pub copied_over : ℕ → Memory → Memory → Memory
copied_over bytes source out i = if ltb i bytes then source i else out i

-- `fortai_cuda_q8_device_buffer_upload`: the copy, then the wait for it. A copy that is queued is
-- done at the latest when the stream is next waited for.
unfoldable pub device_buffer_upload : Bool → Bool → Bool → Memory → Memory → ℕ → Status × Memory
device_buffer_upload copies synchronizes present host device bytes =
    if not present || bytes == 0
    then (invalid, device)
    else if not copies
    then (runtime_error, device)
    else if not synchronizes
    then (runtime_error, copied_over bytes host device)
    else (ok, copied_over bytes host device)

-- what `fortai_cuda_q8_device_buffer_download` leaves
pub record Download : Type 0 where
  pub scratch : Scratch
  pub staging : Memory
  pub host : Memory
  pub status : Status

-- `fortai_cuda_q8_device_buffer_download`: by way of the staging buffer `download_host`
unfoldable pub device_buffer_download :
    Outcome → Bool → Bool → Bool → Scratch → Memory → Memory → Memory → ℕ → Download
device_buffer_download o copies synchronizes present s staging host device bytes =
    let reserved = ensure_download o s bytes in
    let staged = copied_over bytes device staging in
    if not present || bytes == 0
    then (record { scratch = s; staging = staging; host = host; status = invalid })
    else if not (reserved.1 && copies)
    then (record { scratch = reserved.0; staging = staging; host = host; status = runtime_error })
    else if not synchronizes
    then (record { scratch = reserved.0; staging = staged; host = host; status = runtime_error })
    else record {
      scratch = reserved.0;
      staging = staged;
      host = copied_over bytes staged host;
      status = ok;
    }
