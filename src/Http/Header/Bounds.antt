-- ===== src/Http/Header/Bounds.antt =====
-- What `fortai_copy_header_value` can put into the caller's buffer.
use fortai.Prelude.{
  ℕ, zero, suc, ◌+◌, ◌-◌, ◌<◌, ◌≡◌, refl, false, ◌||◌, inl, inr, [], ◌∷◌, length, take, min, arith,
  length-take, Bool-cases, drop, Option-cases,
}
use fortai.Libc.{Bytes, has_char, strstr, crlf}
use fortai.Http.Header.{line_length, line_has_name, copied_value, header_loop, copy_header_value}

-- What holds of every copied value and of no value holds of the result.
header_loop_rule {ℓ} :
    (P : Bytes → Type ℓ) (name : Bytes) (capacity : ℕ)
    → P []
    → ((value : Bytes) → P (copied_value capacity value))
    → (fuel : ℕ) (cursor : Bytes) → P (header_loop fuel cursor name capacity)
unfolding header_loop
header_loop_rule P name capacity e f zero cursor = e
header_loop_rule P name capacity e f (suc fuel) [] = e
header_loop_rule P name capacity e f (suc fuel) (c ∷ cs) =
    elim (Bool-cases (line_has_name name (take (line_length (c ∷ cs)) (c ∷ cs)))) [
      | inl h ↦ rw h (f _)
      | inr h ↦ rw h (elim (Option-cases (strstr (c ∷ cs) crlf)) [
        | inl n ↦ rw n e
        | inr (i, n) ↦
            rw n
              (header_loop_rule P name capacity e f fuel (drop (line_length (c ∷ cs) + 2) (c ∷ cs)))
      ])
    ]

length-copied_value :
    (capacity : ℕ) (value : Bytes) → 0 < capacity → length (copied_value capacity value) < capacity
unfolding copied_value
length-copied_value capacity value h =
    ground (arith, length-take (min (length value) (capacity - 1)) value)

copied_value_one_line :
    (capacity : ℕ) (value : Bytes)
    → (has_char b'\r' (copied_value capacity value) ≡ false)
      × (has_char b'\n' (copied_value capacity value) ≡ false)
unfolding copied_value has_char
copied_value_one_line capacity value =
    elim (Bool-cases (has_char b'\r' copied || has_char b'\n' copied)) [
      | inl h ↦ rw h (refl, refl)
      | inr h ↦ rw h (ground arith)
    ]
  where
    copied : Bytes
    copied = take (min (length value) (capacity - 1)) value

length-copy_header_value :
    (request name : Bytes) (capacity : ℕ)
    → 0 < capacity
    → length (copy_header_value request name capacity) < capacity
unfolding copy_header_value
length-copy_header_value request name capacity h =
    header_loop_rule (λ v. length v < capacity) name capacity h
      (λ v. length-copied_value capacity v h) (suc (length request)) request

copy_header_value_one_line :
    (request name : Bytes) (capacity : ℕ)
    → (has_char b'\r' (copy_header_value request name capacity) ≡ false)
      × (has_char b'\n' (copy_header_value request name capacity) ≡ false)
unfolding copy_header_value has_char
copy_header_value_one_line request name capacity =
    header_loop_rule (λ v. (has_char b'\r' v ≡ false) × (has_char b'\n' v ≡ false)) name capacity
      (refl, refl) (copied_value_one_line capacity) (suc (length request)) request

-- For every request, name and capacity but 0: the value and its closing NUL fit into a buffer of
-- `capacity` bytes, and the value holds no CR and no LF.
pub copy_header_value-fits :
    (request name : Bytes) (capacity : ℕ)
    → 0 < capacity
    → (length (copy_header_value request name capacity) < capacity)
      × (has_char b'\r' (copy_header_value request name capacity) ≡ false)
      × (has_char b'\n' (copy_header_value request name capacity) ≡ false)
copy_header_value-fits request name capacity h =
    let (no_cr, no_lf) = copy_header_value_one_line request name capacity in
    (length-copy_header_value request name capacity h, no_cr, no_lf)
