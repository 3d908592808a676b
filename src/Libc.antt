-- ===== src/Libc.antt =====
-- What the C sources use of the C library on byte strings. A C string is the list of its bytes
-- without the NUL; a buffer is the list of its bytes, and `c_str` is the string that it holds.
-- A pointer into a string is the suffix that it points at. The locale is "C".
pub mod Environment
pub mod Numbers
pub mod Search
pub mod Trim
use Prim.Native.Char.{code}
use Prim.Native.String.{String}
use fortai.Prelude.{
  ℕ, zero, suc, ◌+◌, ◌-◌, ◌*◌, ◌≡◌, Bool, true, false, not, ◌&&◌, ◌||◌, Option, none, some, List,
  [], ◌∷◌, ◌++◌, leb, ltb, ◌==◌, if◌then◌else◌, drop_while, take_while, length,
}

abbrev pub Bytes : Type 0
Bytes = List ℕ

-- The bytes of a text literal; every literal below is ASCII.
abbrev pub codes : String → Bytes
codes String.[] = []
codes (String.◌∷◌ c s) = code c ∷ codes s

-- The string in a buffer: it ends at the first NUL.
abbrev pub c_str : Bytes → Bytes
c_str = take_while (λ c. not (c == 0))

abbrev pub crlf : Bytes
crlf = b'\r' ∷ b'\n' ∷ []

-- ' ' and '\t', at which the sources trim
abbrev pub is_blank : ℕ → Bool
is_blank c = c == b' ' || c == b'\t'

-- `isspace`
abbrev pub is_space : ℕ → Bool
is_space c = c == b' ' || leb 9 c && leb c 13

-- `tolower`
abbrev pub to_lower : ℕ → ℕ
to_lower c = if leb b'A' c && leb c b'Z' then c + 32 else c

-- `strcmp(a, b) == 0`
unfoldable pub str_eq : Bytes → Bytes → Bool
str_eq [] [] = true
str_eq (x ∷ xs) (y ∷ ys) = x == y && str_eq xs ys
str_eq _ _ = false

-- `strcasecmp(a, b) == 0`
unfoldable pub case_eq : Bytes → Bytes → Bool
case_eq [] [] = true
case_eq (x ∷ xs) (y ∷ ys) = to_lower x == to_lower y && case_eq xs ys
case_eq _ _ = false

-- `strncmp(s, p, strlen(p)) == 0`, for a string or a buffer `s`
unfoldable pub starts_with : Bytes → Bytes → Bool
starts_with s [] = true
starts_with [] (y ∷ ys) = false
starts_with (x ∷ xs) (y ∷ ys) = x == y && starts_with xs ys

-- `strncasecmp(s, p, strlen(p)) == 0`
unfoldable pub case_starts_with : Bytes → Bytes → Bool
case_starts_with s [] = true
case_starts_with [] (y ∷ ys) = false
case_starts_with (x ∷ xs) (y ∷ ys) = to_lower x == to_lower y && case_starts_with xs ys

-- `strstr(s, p) - s` over the string in the buffer `s`: the search stops at a NUL.
unfoldable pub strstr : Bytes → Bytes → Option ℕ
unfolding starts_with
strstr [] p = if starts_with [] p then some 0 else none
strstr (x ∷ xs) p =
    let later = strstr xs p in
    if starts_with (x ∷ xs) p
    then some 0
    else if x == 0
    then none
    else elim later [ none ↦ none | some i ↦ some (suc i) ]

-- `memchr(s, c, n) - s`, with `s` the `n` bytes
unfoldable pub memchr : Bytes → ℕ → Option ℕ
memchr [] c = none
memchr (x ∷ xs) c =
    if x == c then some 0 else elim (memchr xs c) [ none ↦ none | some i ↦ some (suc i) ]

-- `strchr(s, c) != NULL` for a `c` other than NUL
unfoldable pub has_char : ℕ → Bytes → Bool
has_char c [] = false
has_char c (x ∷ xs) = x == c || has_char c xs

-- `while (last > first && p(last[-1])) last--`: what is left of the bytes [first, last)
unfoldable pub trim_end : (ℕ → Bool) → Bytes → Bytes
trim_end p [] = []
trim_end p (x ∷ xs) = elim (trim_end p xs) [ [] ↦ if p x then [] else x ∷ [] | y ∷ ys ↦ x ∷ y ∷ ys ]

abbrev pub is_digit : ℕ → Bool
is_digit c = leb b'0' c && leb c b'9'

-- The number that a run of decimal digits spells, going on from `acc`.
unfoldable pub digits_value : ℕ → Bytes → ℕ
digits_value acc [] = acc
digits_value acc (c ∷ cs) = if is_digit c then digits_value (acc * 10 + (c - b'0')) cs else acc
