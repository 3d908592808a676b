-- ===== src/Http/Keys.antt =====
-- The comma-separated lists of src/server/fortai_http_server.c: the API keys of
-- `fortai_key_equals`, the origins of `fortai_cors_origin_allowed`, and the key file of
-- `fortai_api_key_file_matches`. The arguments are C strings.
pub mod Split
pub mod File
use fortai.Prelude.{
  ℕ, zero, suc, ◌+◌, ◌-◌, Bool, true, false, not, ◌&&◌, ◌||◌, Option, none, some, List, [], ◌∷◌,
  ltb, ◌==◌, if◌then◌else◌, length, take, drop, drop_while, take_while,
}
use fortai.Libc.{
  Bytes, codes, is_blank, is_space, str_eq, case_eq, case_starts_with, strstr, trim_end, has_char,
  c_str,
}

-- ' ', '\t' and ',', which the loops skip before an entry
abbrev pub is_gap : ℕ → Bool
is_gap c = is_blank c || c == b','

-- what the loop of `fortai_key_equals` trims behind an entry
abbrev pub is_key_end : ℕ → Bool
is_key_end c = is_blank c || (c == b'\r' || c == b'\n')

abbrev pub not_comma : ℕ → Bool
not_comma c = not (c == b',')

-- `cursor = *last == ',' ? last + 1 : last`
abbrev pub next_entry : Bytes → Bytes
next_entry s = drop 1 (drop_while not_comma s)

-- The loop that both functions share: skip a gap, take the bytes before the next comma, trim them,
-- and test the entry.
unfoldable pub entry_loop : ℕ → (ℕ → Bool) → (Bytes → Bool) → Bytes → Bool
entry_loop zero is_end test cursor = false
entry_loop (suc fuel) is_end test [] = false
entry_loop (suc fuel) is_end test (c ∷ cs) =
    let start = drop_while is_gap (c ∷ cs) in
    let later = entry_loop fuel is_end test (next_entry start) in
    if test (trim_end is_end (take_while not_comma start)) then true else later

-- `fortai_key_equals(configured, candidate)`
unfoldable pub key_equals : Bytes → Bytes → Bool
unfolding entry_loop trim_end str_eq
key_equals configured candidate =
    entry_loop (suc (length configured)) is_key_end (λ entry. str_eq entry candidate) configured

-- the three names that the setting "localhost" admits
unfoldable pub is_local_origin : Bytes → Bool
unfolding strstr
is_local_origin origin = elim (strstr origin (codes "localhost")) [
  | some i ↦ true
  | none ↦ elim (strstr origin (codes "127.0.0.1")) [
    | some i ↦ true
    | none ↦ elim (strstr origin (codes "[::1]")) [ some i ↦ true | none ↦ false ]
  ]
]

-- `fortai_cors_origin_allowed(configured, origin)`; `origin` is never NULL.
unfoldable pub cors_origin_allowed : Bytes → Bytes → Bool
unfolding entry_loop trim_end str_eq case_eq is_local_origin
cors_origin_allowed configured [] = false
cors_origin_allowed configured (o ∷ os) =
    if str_eq configured (codes "*")
    then true
    else if case_eq configured (codes "localhost")
    then is_local_origin (o ∷ os)
    else entry_loop (suc (length configured)) is_blank (λ entry. case_eq entry (o ∷ os)) configured

-- the room of `char line[1024]` for `fgets`, less the NUL
abbrev pub line_room : ℕ
line_room = 1023

-- `fgets(line, 1 + room, file)`: the bytes up to a newline or the room, and what the file has left
unfoldable pub fgets : ℕ → Bytes → Bytes × Bytes
fgets zero file = ([], file)
fgets (suc room) [] = ([], [])
fgets (suc room) (c ∷ cs) =
    let (line, rest) = fgets room cs in if c == b'\n' then (c ∷ [], cs) else (c ∷ line, rest)

-- The test of a line from its first byte that is no space.
unfoldable pub entry_matches : Bytes → Bytes → Bool
unfolding trim_end str_eq
entry_matches candidate [] = false
entry_matches candidate (c ∷ cs) =
    if c == b'#' then false else str_eq (trim_end is_space (c ∷ cs)) candidate

-- One line of the key file: blank ends are cut, comments and empty lines are skipped.
unfoldable pub line_matches : Bytes → Bytes → Bool
unfolding entry_matches
line_matches candidate buffer = entry_matches candidate (drop_while is_space (c_str buffer))

unfoldable pub file_loop : ℕ → ℕ → Bytes → Bytes → Bool
file_loop zero room candidate file = false
file_loop (suc fuel) room candidate [] = false
file_loop (suc fuel) room candidate (c ∷ cs) =
    let later = file_loop fuel room candidate (fgets room (c ∷ cs)).1 in
    if line_matches candidate (fgets room (c ∷ cs)).0 then true else later

-- `fortai_api_key_file_matches`, on what `fopen` gives: nothing, or the bytes of the file
unfoldable pub api_key_file_matches : Option Bytes → Bytes → Bool
unfolding file_loop fgets line_matches
api_key_file_matches none candidate = false
api_key_file_matches (some file) candidate = file_loop (suc (length file)) line_room candidate file
