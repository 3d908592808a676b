-- ===== src/Http/Header/Lines.antt =====
-- `fortai_copy_header_value` on a request given as its lines.
use fortai.Prelude.{
  ℕ, zero, suc, ◌+◌, ◌<◌, ◌≡◌, refl, false, none, some, List, [], ◌∷◌, ◌++◌, if◌then◌else◌, length,
  take, drop, arith, length-append, take-length-append, append_assoc, ap, ◌∙◌, take_of_length-le,
}
use fortai.Libc.{Bytes, has_char, strstr, crlf}
use fortai.Http.Header.{
  line_length, line_has_name, trimmed_value, copied_value, header_loop, copy_header_value,
}

-- A line holds no CR and no NUL.
abbrev pub IsLine : Bytes → Type 0
IsLine l = (has_char b'\r' l ≡ false) × (has_char 0 l ≡ false)

abbrev pub AllLines : List Bytes → Type 0
AllLines [] = Unit {0}
AllLines (l ∷ ls) = IsLine l × AllLines ls

-- Every line ends in CRLF.
abbrev pub text_of : List Bytes → Bytes
text_of [] = []
text_of (l ∷ ls) = l ++ (crlf ++ text_of ls)

-- The first line with the name gives the value.
abbrev pub find_header : Bytes → ℕ → List Bytes → Bytes
find_header name capacity [] = []
find_header name capacity (l ∷ ls) =
    if line_has_name name l
    then copied_value capacity (trimmed_value name l)
    else find_header name capacity ls

pub strstr_line : (l r : Bytes) → IsLine l → strstr (l ++ (crlf ++ r)) crlf ≡ some (length l)
unfolding strstr has_char
strstr_line [] r h = refl
strstr_line (x ∷ l) r h = ground (arith, strstr_line l r)

pub strstr_no_line : (l : Bytes) → IsLine l → strstr l crlf ≡ none
unfolding strstr has_char
strstr_no_line [] h = refl
strstr_no_line (x ∷ l) h = ground (arith, strstr_no_line l)

-- One round of the loop, the empty request included.
header_loop-suc :
    (fuel : ℕ) (cursor name : Bytes) (capacity : ℕ)
    → header_loop (suc fuel) cursor name capacity ≡ (
        if line_has_name name (take (line_length cursor) cursor)
        then copied_value capacity (trimmed_value name (take (line_length cursor) cursor))
        else elim (strstr cursor crlf) [
          | none ↦ []
          | some i ↦ header_loop fuel (drop (line_length cursor + 2) cursor) name capacity
        ])
unfolding header_loop
header_loop-suc fuel [] name capacity = unfold line_has_name strstr line_length in ground arith
header_loop-suc fuel (c ∷ cs) name capacity = refl

line_length_line : (l r : Bytes) → IsLine l → line_length (l ++ (crlf ++ r)) ≡ length l
unfolding line_length
line_length_line l r h = rw (strstr_line l r h, line_length)

line_length_tail : (l : Bytes) → IsLine l → line_length l ≡ length l
unfolding line_length
line_length_tail l h = rw (strstr_no_line l h, line_length)

add-two_suc : (n : ℕ) → suc n + 2 ≡ suc (n + 2)
add-two_suc n = omega arith

pub drop_line : (l r : Bytes) → drop (length l + 2) (l ++ (crlf ++ r)) ≡ r
drop_line [] r = refl
drop_line (x ∷ l) r = rw (add-two_suc (length l)) (drop_line l r)

-- One round at the start of a line that a CRLF ends.
round_line :
    (fuel : ℕ) (l r name : Bytes) (capacity : ℕ)
    → IsLine l
    → header_loop (suc fuel) (l ++ (crlf ++ r)) name capacity ≡ (
        if line_has_name name l
        then copied_value capacity (trimmed_value name l)
        else header_loop fuel r name capacity)
round_line fuel l r name capacity h =
    header_loop-suc fuel (l ++ (crlf ++ r)) name capacity
    ∙ rw (
      line_length_line l r h,
      take-length-append l (crlf ++ r),
      strstr_line l r h,
      line_length_line l r h,
      drop_line l r,
    )

find_tail :
    (fuel : ℕ) (tail name : Bytes) (capacity : ℕ)
    → IsLine tail
    → header_loop (suc fuel) tail name capacity ≡ find_header name capacity (tail ∷ [])
find_tail fuel tail name capacity h =
    header_loop-suc fuel tail name capacity
    ∙ rw (
      line_length_tail tail h,
      take_of_length-le (length tail) tail (omega arith),
      strstr_no_line tail h,
    )

find_lines :
    (fuel : ℕ) (lines : List Bytes) (tail name : Bytes) (capacity : ℕ)
    → AllLines lines
    → IsLine tail
    → length (text_of lines ++ tail) < fuel
    → header_loop fuel (text_of lines ++ tail) name capacity
      ≡ find_header name capacity (lines ++ (tail ∷ []))
find_lines zero lines tail name capacity h ht m = absurd (omega arith)
find_lines (suc fuel) [] tail name capacity h ht m = find_tail fuel tail name capacity ht
find_lines (suc fuel) (l ∷ ls) tail name capacity h ht m =
    rw (append_assoc l (crlf ++ text_of ls) tail) (
      round_line fuel l (text_of ls ++ tail) name capacity h.0
      ∙ rw (find_lines fuel ls tail name capacity h.1 ht shorter))
  where
    shorter : length (text_of ls ++ tail) < fuel
    shorter = omega (
      arith,
      ap length (append_assoc l (crlf ++ text_of ls) tail),
      length-append {0} l (crlf ++ (text_of ls ++ tail)),
    )

-- On a request of CRLF-ended lines and a last piece with none, free of NUL and of other CRs,
-- `fortai_copy_header_value` returns the trimmed and cut value of the first line that has the
-- name. The lines behind the blank line, the body's, count as well.
pub copy_header_value-find_header :
    (lines : List Bytes) (tail name : Bytes) (capacity : ℕ)
    → AllLines lines
    → IsLine tail
    → copy_header_value (text_of lines ++ tail) name capacity
      ≡ find_header name capacity (lines ++ (tail ∷ []))
unfolding copy_header_value
copy_header_value-find_header lines tail name capacity h ht =
    find_lines (suc (length (text_of lines ++ tail))) lines tail name capacity h ht (omega arith)
