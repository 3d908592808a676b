-- ===== src/Http/Socket/Receive/Head.antt =====
-- What one round of `fortai_http_read_request` finds in the head of a request.
use fortai.Prelude.{
  ℕ, zero, suc, ◌+◌, ◌-◌, ◌≤◌, ◌<◌, ◌≡◌, ◌≢◌, refl, ◌∙◌, true, false, some, List, [], ◌∷◌, ◌++◌,
  length, take, drop, arith, append_assoc, length-append, drop_while, Bool-cases, inl, inr, ◌*◌,
  lt→ltb, le→ltb, leb, Option-cases, ltb, if◌then◌else◌,
}
use fortai.Libc.{
  Bytes, crlf, is_space, has_char, strstr, starts_with, case_starts_with, digits_value,
}
use fortai.Libc.Search.{strstr-append, strstr-le}
use fortai.Http.Header.Lines.{IsLine, text_of, strstr_line, drop_line}
use fortai.Http.Socket.{
  separator, max_request, line_value, length_loop, length_name, strtoull, signed_value, more,
  complete, examine,
}

-- A line of a head: not empty, and a "Content-Length:" has something behind it on its line.
abbrev pub IsHeadLine : Bytes → Type 0
IsHeadLine l =
    IsLine l
    × (l ≢ [])
    × (case_starts_with l length_name ≡ true → drop_while is_space (drop 15 l) ≢ [])

abbrev pub AllHeadLines : List Bytes → Type 0
AllHeadLines [] = Unit {0}
AllHeadLines (l ∷ ls) = IsHeadLine l × AllHeadLines ls

-- Where the last line ends.
abbrev pub head_end : Bytes → List Bytes → ℕ
head_end l [] = length l
head_end l (m ∷ ms) = length l + 2 + head_end m ms

-- What the lines make of `content_length`.
abbrev pub content_length : ℕ → List Bytes → ℕ
content_length found [] = found
content_length found (l ∷ ls) = content_length (line_value l found) ls

pub separator_line :
    (l r : Bytes) → IsLine l → strstr (l ++ (crlf ++ (crlf ++ r))) separator ≡ some (length l)
unfolding strstr starts_with has_char
separator_line [] r h = refl
separator_line (x ∷ l) r h = ground (arith, separator_line l r)

pub separator_later :
    (l : Bytes) (x : ℕ) (t : Bytes) (i : ℕ)
    → IsLine l
    → x ≢ b'\r'
    → strstr (x ∷ t) separator ≡ some i
    → strstr (l ++ (crlf ++ (x ∷ t))) separator ≡ some (length l + 2 + i)
unfolding strstr starts_with has_char
separator_later [] x t i h n e = ground arith
separator_later (y ∷ l) x t i h n e = ground (arith, separator_later l x t i)

line_head-ne : (x : ℕ) (m : Bytes) → IsLine (x ∷ m) → x ≢ b'\r'
unfolding has_char
line_head-ne x m h e = ground arith

-- The first separator stands where the last line ends.
strstr-separator :
    (l : Bytes) (ls : List Bytes) (r : Bytes)
    → AllHeadLines (l ∷ ls)
    → strstr (text_of (l ∷ ls) ++ (crlf ++ r)) separator ≡ some (head_end l ls)
strstr-separator l [] r h = rw (append_assoc l (crlf ++ []) (crlf ++ r)) (separator_line l r h.0.0)
strstr-separator l ([] ∷ ms) r h = absurd (h.1.0.1 refl)
strstr-separator l ((x ∷ m) ∷ ms) r h =
    rw (append_assoc l (crlf ++ text_of ((x ∷ m) ∷ ms)) (crlf ++ r)) (
      separator_later l x (m ++ (crlf ++ text_of ms) ++ (crlf ++ r)) (head_end (x ∷ m) ms) h.0.0
        (line_head-ne x m h.1.0.0) (strstr-separator (x ∷ m) ms r h.1))

case_starts_with-line :
    (l p t : Bytes)
    → has_char b'\r' p ≡ false
    → case_starts_with (l ++ (crlf ++ t)) p ≡ case_starts_with l p
unfolding case_starts_with has_char
case_starts_with-line l [] t h = refl
case_starts_with-line [] (y ∷ p) t h = ground arith
case_starts_with-line (x ∷ l) (y ∷ p) t h = ground (arith, case_starts_with-line l p t)

digits_value-line :
    (acc : ℕ) (l t : Bytes) → digits_value acc (l ++ (crlf ++ t)) ≡ digits_value acc l
unfolding digits_value
digits_value-line acc [] t = refl
digits_value-line acc (x ∷ l) t = ground (arith, digits_value-line (acc * 10 + (x - b'0')) l t)

drop_while_space-line :
    (v t : Bytes)
    → drop_while is_space v ≢ []
    → drop_while is_space (v ++ t) ≡ drop_while is_space v ++ t
drop_while_space-line [] t n = absurd (n refl)
drop_while_space-line (x ∷ v) t n = elim (Bool-cases (is_space x)) [
  | inl e ↦ rw e (drop_while_space-line v t (rw e at n))
  | inr e ↦ rw e
]

signed_value-line : (v t : Bytes) → v ≢ [] → signed_value (v ++ (crlf ++ t)) ≡ signed_value v
unfolding signed_value
signed_value-line [] t n = absurd (n refl)
signed_value-line (x ∷ v) t n = rw (digits_value-line 0 v t, digits_value-line 0 (x ∷ v) t)

strtoull-line :
    (v t : Bytes) → drop_while is_space v ≢ [] → strtoull (v ++ (crlf ++ t)) ≡ strtoull v
unfolding strtoull
strtoull-line v t n =
    rw (drop_while_space-line v (crlf ++ t) n) (signed_value-line (drop_while is_space v) t n)

drop-append_of_ne :
    (n : ℕ) (v t : Bytes) → drop_while is_space (drop n v) ≢ [] → drop n (v ++ t) ≡ drop n v ++ t
drop-append_of_ne zero v t h = refl
drop-append_of_ne (suc n) [] t h = absurd (h refl)
drop-append_of_ne (suc n) (x ∷ v) t h = drop-append_of_ne n v t h

-- What a line says does not depend on what follows it.
line_value-line :
    (l t : Bytes) (found : ℕ)
    → IsHeadLine l
    → line_value (l ++ (crlf ++ t)) found ≡ line_value l found
unfolding line_value has_char
line_value-line l t found h =
    rw (case_starts_with-line l length_name t refl)
      (elim (Bool-cases (case_starts_with l length_name)) [
        | inl e ↦
            rw (e, drop-append_of_ne 15 l (crlf ++ t) (h.2 e), strtoull-line (drop 15 l) t (h.2 e))
        | inr e ↦ rw e
      ])

positive : (l : Bytes) (n : ℕ) → l ≢ [] → length l ≤ n → ltb 0 n ≡ true
positive [] n h k = absurd (h refl)
positive (x ∷ l) n h k = lt→ltb 0 n (omega arith)

-- One round of the loop over the lines.
length_loop-line :
    (fuel : ℕ) (l t : Bytes) (left found : ℕ)
    → IsHeadLine l
    → length l ≤ left
    → length_loop (suc fuel) (l ++ (crlf ++ t)) left found
      ≡ length_loop fuel t (left - (length l + 2)) (line_value l found)
unfolding length_loop
length_loop-line fuel l t left found h k = rw (
  positive l left h.1 k,
  strstr_line l t h.0,
  le→ltb left (length l) k,
  drop_line l t,
  line_value-line l t found h,
  length_loop,
)

length_loop-zero : (fuel : ℕ) (t : Bytes) (found : ℕ) → length_loop fuel t 0 found ≡ found
unfolding length_loop
length_loop-zero zero t found = refl
length_loop-zero (suc fuel) t found = refl

-- The loop over the lines gives what the lines say.
length_loop-content_length :
    (fuel : ℕ) (l : Bytes) (ls : List Bytes) (r : Bytes) (found : ℕ)
    → AllHeadLines (l ∷ ls)
    → length ls < fuel
    → length_loop fuel (text_of (l ∷ ls) ++ (crlf ++ r)) (head_end l ls) found
      ≡ content_length found (l ∷ ls)
length_loop-content_length zero l ls r found h m = absurd (omega arith)
length_loop-content_length (suc fuel) l [] r found h m =
    rw (append_assoc l (crlf ++ []) (crlf ++ r)) (
      length_loop-line fuel l (crlf ++ r) (length l) found h.0 (omega arith)
      ∙ rw (left-zero (length l)) (length_loop-zero fuel (crlf ++ r) (line_value l found)))
  where
    left-zero : (n : ℕ) → n - (n + 2) ≡ 0
    left-zero n = omega arith
length_loop-content_length (suc fuel) l (m ∷ ms) r found h k =
    rw (append_assoc l (crlf ++ text_of (m ∷ ms)) (crlf ++ r)) (
      length_loop-line fuel l (text_of (m ∷ ms) ++ (crlf ++ r)) (head_end l (m ∷ ms)) found h.0
        (omega arith)
      ∙ rw (left-rest (length l) (head_end m ms))
          (length_loop-content_length fuel m ms r (line_value l found) h.1 (omega arith)))
  where
    left-rest : (a b : ℕ) → a + 2 + b - (a + 2) ≡ b
    left-rest a b = omega arith

pub length-text_of : (l : Bytes) (ls : List Bytes) → length (text_of (l ∷ ls)) ≡ head_end l ls + 2
length-text_of l [] = length-append l (crlf ++ [])
length-text_of l (m ∷ ms) =
    omega (arith, length-append {0} l (crlf ++ text_of (m ∷ ms)), length-text_of m ms)

lines-le : (l : Bytes) (ls : List Bytes) → length ls ≤ head_end l ls
lines-le l [] = omega arith
lines-le l (m ∷ ms) = omega (arith, lines-le m ms)

-- Once the head is in the buffer, a round ends the loop when the body is too, and goes on else.
pub examine_head :
    (l : Bytes) (ls : List Bytes) (r : Bytes) (found : ℕ)
    → AllHeadLines (l ∷ ls)
    → head_end l ls + 4 + content_length found (l ∷ ls) ≤ max_request
    → examine (text_of (l ∷ ls) ++ (crlf ++ r)) found ≡ (
        if leb
          (head_end l ls + 4 + content_length found (l ∷ ls))
          (length (text_of (l ∷ ls) ++ (crlf ++ r)))
        then complete (
            take
              (head_end l ls + 4 + content_length found (l ∷ ls))
              (text_of (l ∷ ls) ++ (crlf ++ r)))
        else more (content_length found (l ∷ ls)))
unfolding examine
examine_head l ls r found h m =
    rw
      (
        strstr-separator l ls r h,
        examine,
        length_loop-content_length (suc (length (text_of (l ∷ ls) ++ (crlf ++ r)))) l ls r found h (
            omega (
              arith,
              length-append {0} (text_of (l ∷ ls)) (crlf ++ r),
              length-text_of l ls,
              lines-le l ls,
            )),
      )
      (ground arith)

-- Before, it goes on with nothing new.
pub examine_partial :
    (l : Bytes) (ls : List Bytes) (part rest r : Bytes) (found : ℕ)
    → AllHeadLines (l ∷ ls)
    → part ++ rest ≡ text_of (l ∷ ls) ++ (crlf ++ r)
    → length part < head_end l ls + 4
    → examine part found ≡ more found
unfolding examine
examine_partial l ls part rest r found h e m = elim (Option-cases (strstr part separator)) [
  | inl n ↦ rw (n, examine)
  | inr (i, s) ↦
      let whole = rw e at (strstr-append part separator rest i (λ n. cc) s) in
      absurd (ground (arith, whole, strstr-separator l ls r h, strstr-le part separator i s))
]
