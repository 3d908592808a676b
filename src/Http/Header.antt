-- ===== src/Http/Header.antt =====
-- `fortai_copy_header_value` of src/server/fortai_http_server.c. The request is the list of its
-- `request_length` bytes; the buffer holds a NUL behind them. `value` is returned as the list of
-- the bytes that are copied, so that the C function's result is its length.
pub mod Bounds
pub mod Lines
use fortai.Prelude.{
  ℕ, zero, suc, ◌+◌, ◌-◌, ◌≡◌, Bool, true, false, not, ◌&&◌, ◌||◌, Option, none, some, List, [],
  ◌∷◌, ltb, ◌==◌, if◌then◌else◌, length, take, drop, drop_while, get_elem?, min,
}
use fortai.Libc.{Bytes, crlf, is_blank, case_starts_with, strstr, trim_end, has_char}

-- `line_end - cursor`
unfoldable pub line_length : Bytes → ℕ
line_length cursor = elim (strstr cursor crlf) [ none ↦ length cursor | some i ↦ i ]

-- the test of a line for the header `name`
unfoldable pub line_has_name : Bytes → Bytes → Bool
line_has_name name line =
    ltb (length name) (length line)
    && case_starts_with line name
    && elim (get_elem? line (length name)) [ none ↦ false | some c ↦ c == b':' ]

-- the bytes [first, last) of a line with a header
unfoldable pub trimmed_value : Bytes → Bytes → Bytes
trimmed_value name line = trim_end is_blank (drop_while is_blank (drop (length name + 1) line))

-- the bytes copied into `value`, none if a line break is among them
unfoldable pub copied_value : ℕ → Bytes → Bytes
copied_value capacity value =
    let copied = take (min (length value) (capacity - 1)) value in
    if has_char b'\r' copied || has_char b'\n' copied then [] else copied

-- The loop over the lines. Each round drops a line and its CRLF, or ends.
unfoldable pub header_loop : ℕ → Bytes → Bytes → ℕ → Bytes
header_loop zero cursor name capacity = []
header_loop (suc fuel) [] name capacity = []
header_loop (suc fuel) (c ∷ cs) name capacity =
    let line = take (line_length (c ∷ cs)) (c ∷ cs) in
    let later = header_loop fuel (drop (line_length (c ∷ cs) + 2) (c ∷ cs)) name capacity in
    if line_has_name name line
    then copied_value capacity (trimmed_value name line)
    else elim (strstr (c ∷ cs) crlf) [ none ↦ [] | some i ↦ later ]

-- `fortai_copy_header_value(request, request_length, name, value, capacity)`
unfoldable pub copy_header_value : Bytes → Bytes → ℕ → Bytes
unfolding header_loop line_length line_has_name trimmed_value copied_value strstr trim_end has_char
    case_starts_with
copy_header_value request name capacity = header_loop (suc (length request)) request name capacity
