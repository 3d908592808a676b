-- ===== src/Gpu/Weights/Life.antt =====
-- A matrix has the bytes that its shape needs, and gives back what it took.
use fortai.Prelude.{
  ℕ, ◌*◌, ◌/◌, ◌%◌, ◌≤◌, ◌<◌, ◌≡◌, refl, ap, Bool, true, false, not, ◌&&◌, ◌||◌, Option, none, some,
  [], ◌++◌, ltb, ◌==◌, if◌then◌else◌, ℤ, pos, negsuc, arith, if_rule,
}
use fortai.Ledger.{Rules, replay}
use fortai.Gpu.Context.{Status, ok, invalid, runtime_error}
use fortai.Gpu.Scratch.{Outcome, Scratch}
use fortai.Gpu.Products.{Weights}
use fortai.Gpu.Products.Fits.{bytes_of}
use fortai.Gpu.Weights.{
  Resource, handle, device_data, Upload, Uploaded, refused, upload_at, weights_upload,
  weights_destroy, Memory, Download, device_buffer_upload, device_buffer_download,
}

abbrev same : Resource → Resource → Bool
same handle handle = true
same device_data device_data = true
same r s = false

-- The handle is given back last.
abbrev needs : Resource → Resource → Bool
needs device_data handle = true
needs r s = false

abbrev rules : Rules Resource
rules = record { same = same; shared = λ r. false; needs = needs }

-- A matrix has a whole number of blocks in each row and all their bytes on the device.
abbrev IsWhole : ℕ → ℤ → ℤ → Option (Weights × ℕ) → Type 0
IsWhole weight_bytes rows width none = Unit {0}
IsWhole weight_bytes rows width (some (w, bytes)) =
    (rows ≡ pos w.rows)
    × (width ≡ pos (w.blocks * 32))
    × (0 < w.rows)
    × (0 < w.blocks)
    × (bytes ≡ bytes_of w)
    × (bytes ≤ weight_bytes)

whole_blocks : (width : ℕ) → width % 32 ≡ 0 → width ≡ width / 32 * 32
whole_blocks width e = omega (arith, e)

-- What is left of an upload: the matrix is whole, no more is copied than there is, and everything is
-- given back when the matrix is destroyed.
abbrev pub IsKept : ℕ → ℤ → ℤ → Uploaded → Type 0
IsKept weight_bytes rows width u =
    (replay rules (u.events ++ weights_destroy u.weights) [] ≡ some [])
    × (u.copied ≤ weight_bytes)
    × IsWhole weight_bytes rows width u.weights

refused-IsKept :
    (weight_bytes : ℕ) (rows width : ℤ) (status : Status)
    → IsKept weight_bytes rows width (refused status)
unfolding replay weights_destroy refused
refused-IsKept weight_bytes rows width status = (refl, omega arith, tt)

upload_at-IsKept :
    (o : Upload) (present : Bool) (weight_bytes rows width : ℕ)
    → IsKept weight_bytes (pos rows) (pos width) (upload_at o present weight_bytes rows width)
unfolding replay weights_destroy upload_at
upload_at-IsKept o present weight_bytes rows width =
    let Kept : Uploaded → Type 0 = IsKept weight_bytes (pos rows) (pos width) in
    let expected = rows * (width / 32) * 34 in
    if_rule Kept
      (not present || rows == 0 || width == 0 || not (width % 32 == 0) || ltb weight_bytes expected)
      _ _ (λ _. refused-IsKept weight_bytes (pos rows) (pos width) invalid)
      λ e.
        let (r, w, whole, enough) : (0 < rows)
            × (0 < width)
            × (width % 32 ≡ 0)
            × (expected ≤ weight_bytes) =
          ground arith in
        if_rule Kept (not o.has_handle) _ _
          (λ _. refused-IsKept weight_bytes (pos rows) (pos width) runtime_error)
          λ _.
            if_rule Kept (not (o.allocates && o.copies)) _ _
              (λ _. (ground arith, ground (arith, enough), tt))
              λ _. (
                refl,
                enough,
                (
                  refl,
                  ap pos (whole_blocks width whole),
                  r,
                  omega (arith, w, whole_blocks width whole),
                  refl,
                  enough,
                ),
              )

-- `fortai_cuda_q8_weights_upload`, with any arguments and whatever CUDA returns, and then
-- `fortai_cuda_q8_weights_destroy`: the handle and the memory of the device are each taken and given
-- back once, in order. No more bytes are read from the host than there are. A matrix that is handed out
-- has the rows and the columns that were asked for, more than 0 of both, in whole blocks of 32, and
-- exactly 34 bytes for each block.
pub weights_upload-IsKept :
    (o : Upload) (present : Bool) (weight_bytes : ℕ) (rows width : ℤ)
    → IsKept weight_bytes rows width (weights_upload o present weight_bytes rows width)
unfolding weights_upload
weights_upload-IsKept o present weight_bytes (negsuc rows) width =
    refused-IsKept weight_bytes (negsuc rows) width invalid
weights_upload-IsKept o present weight_bytes (pos rows) (negsuc width) =
    refused-IsKept weight_bytes (pos rows) (negsuc width) invalid
weights_upload-IsKept o present weight_bytes (pos rows) (pos width) =
    upload_at-IsKept o present weight_bytes rows width

-- An upload to a buffer of the device that returns FORTAI_CUDA_OK, and a download of it that does too:
-- the host has the bytes that it had sent, and what lies behind them is unchanged.
pub upload-download :
    (o : Outcome) (copies synchronizes copies' synchronizes' present present' : Bool) (s : Scratch)
    (sent received device staging : Memory) (bytes : ℕ)
    → (device_buffer_upload copies synchronizes present sent device bytes).0 ≡ ok
    → (d : Download)
    → device_buffer_download o copies' synchronizes' present' s staging received
        (device_buffer_upload copies synchronizes present sent device bytes).1
        bytes
      ≡ d
    → d.status ≡ ok
    → (i : ℕ) → d.host i ≡ (if ltb i bytes then sent i else received i)
unfolding device_buffer_upload device_buffer_download
upload-download o copies synchronizes copies' synchronizes' present present' s sent received device
      staging bytes u d e k i =
    ground (arith, ap (λ (r : Download). r.host i) e, ap (λ (r : Download). r.status) e)
