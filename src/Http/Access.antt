-- ===== src/Http/Access.antt =====
-- Which requests src/server/fortai_http_server.c lets through: `fortai_copy_request_path`,
-- `fortai_public_path`, `fortai_safe_env` and `fortai_authorized`. The environment is the function
-- that `getenv` reads, and the file system the one that `fopen` reads.
pub mod Path
pub mod Decision
use fortai.Prelude.{
  ℕ, zero, suc, ◌+◌, ◌-◌, Bool, true, false, not, ◌&&◌, ◌||◌, Option, none, some, List, [], ◌∷◌,
  ◌++◌, ltb, leb, ◌==◌, if◌then◌else◌, length, take, drop, drop_while, min, get_elem?,
}
use fortai.Libc.{
  Bytes, codes, c_str, is_blank, str_eq, case_eq, starts_with, case_starts_with, memchr, trim_end,
  has_char, crlf,
}
use fortai.Http.Header.{copy_header_value}
pub use fortai.Libc.Environment.{Env, is_set, text, or_else}
use fortai.Http.Keys.{key_equals, api_key_file_matches}

-- the bytes of the file at a path
abbrev pub Files : Type 0
Files = Bytes → Option Bytes

-- `fortai_safe_env(name, fallback)`
unfoldable pub safe_env : Env → Bytes → Bytes → Bytes
unfolding has_char
safe_env env name fallback =
    let value = env name in
    if not (is_set value)
    then fallback
    else if has_char b'\r' (text value) || has_char b'\n' (text value)
    then fallback
    else text value

-- the size of `char path[2048]`
abbrev pub path_size : ℕ
path_size = 2048

-- `if (query != NULL) last = query`
unfoldable pub cut_query : Bytes → Bytes
unfolding memchr
cut_query t = elim (memchr t b'?') [ none ↦ t | some q ↦ take q t ]

-- the target [first, last) of a request line, from the byte behind the method's space
unfoldable pub target : Bytes → Bytes
unfolding memchr cut_query
target first = elim (memchr first b' ') [ none ↦ [] | some n ↦ cut_query (take n first) ]

-- `fortai_copy_request_path`: the bytes copied into `path`; none stands for each `return 0` too.
unfoldable pub copy_request_path : Bytes → ℕ → Bytes
unfolding target
copy_request_path request capacity = elim (memchr request b' ') [
  | none ↦ []
  | some i ↦ let t = target (drop (i + 1) request) in take (min (length t) (capacity - 1)) t
]

-- `while (prefix_length > 1 && prefix[prefix_length - 1] == '/') prefix_length--`
unfoldable pub strip_slashes : Bytes → Bytes
unfolding trim_end
strip_slashes [] = []
strip_slashes (c ∷ cs) = c ∷ trim_end (λ b. b == b'/') cs

-- `normalized_prefix`; nothing where it has no room
unfoldable pub normalize_prefix : Bytes → Option Bytes
unfolding strip_slashes
normalize_prefix prefix =
    let stripped = strip_slashes prefix in
    if leb path_size (length prefix)
    then none
    else if starts_with prefix (codes "/")
    then some stripped
    else if leb path_size (length stripped + 1)
    then none
    else some (b'/' ∷ stripped)

-- the path behind the prefix: nothing if the prefix does not end at a '/' or at the end
unfoldable pub strip_prefix : Bytes → Bytes → Option Bytes
unfolding starts_with
strip_prefix prefix path =
    if starts_with path prefix
    then elim (drop (length prefix) path) [
      | [] ↦ some (codes "/")
      | c ∷ cs ↦ if c == b'/' then some (c ∷ cs) else none
    ]
    else none

-- the path as the tables below see it; nothing for the early `return 0`
unfoldable pub routed_path : Env → Bytes → Option Bytes
routed_path env path =
    let prefix = env (codes "FORTAI_API_PREFIX") in
    if not (is_set prefix) || str_eq (text prefix) (codes "/")
    then some path
    else elim (normalize_prefix (text prefix)) [ none ↦ none | some p ↦ strip_prefix p path ]

unfoldable pub one_of : (Bytes → Bytes → Bool) → Bytes → List Bytes → Bool
one_of eq s [] = false
one_of eq s (t ∷ ts) = eq s t || one_of eq s ts

abbrev pub public_paths : List Bytes
public_paths =
    codes "/"
    ∷ codes "/ui"
    ∷ codes "/index.html"
    ∷ codes "/health"
    ∷ codes "/v1/health"
    ∷ codes "/models"
    ∷ codes "/v1/models"
    ∷ []

abbrev pub asset_suffixes : List Bytes
asset_suffixes =
    codes ".html"
    ∷ codes ".css"
    ∷ codes ".js"
    ∷ codes ".json"
    ∷ codes ".svg"
    ∷ codes ".png"
    ∷ codes ".jpg"
    ∷ codes ".jpeg"
    ∷ codes ".ico"
    ∷ codes ".woff"
    ∷ codes ".woff2"
    ∷ codes ".ttf"
    ∷ []

-- `strrchr(path, '.')`: the suffix from the last dot
unfoldable pub last_dot : Bytes → Option Bytes
last_dot [] = none
last_dot (c ∷ cs) = elim (last_dot cs) [
  | some s ↦ some s
  | none ↦ if c == b'.' then some (c ∷ cs) else none
]

-- the tests of `fortai_public_path` once the path is known
unfoldable pub is_public : Env → Bytes → Bytes → Bool
unfolding one_of last_dot safe_env str_eq case_eq starts_with
is_public env request path =
    if one_of str_eq path public_paths
    then true
    else if not (starts_with request (codes "GET "))
        || str_eq (safe_env env (codes "FORTAI_STATIC_PATH") []) []
    then false
    else elim (last_dot path) [ none ↦ false | some dot ↦ one_of case_eq dot asset_suffixes ]

-- `fortai_public_path(request, request_length)`
unfoldable pub public_path : Env → Bytes → Bool
public_path env request = elim (copy_request_path request path_size) [
  | [] ↦ false
  | c ∷ cs ↦ elim (routed_path env (c_str (c ∷ cs))) [
    | none ↦ false
    | some path ↦ is_public env request path
  ]
]

-- the first of three variables that is set
unfoldable pub configured_keys : Env → Option Bytes
configured_keys env =
    or_else (or_else (env (codes "LLAMA_API_KEY")) (env (codes "FORTAI_API_KEY")))
      (env (codes "LLAMACPP_API_KEY"))

unfoldable pub key_file : Env → Option Bytes
key_file env =
    or_else (or_else (env (codes "FORTAI_API_KEY_FILE")) (env (codes "LLAMA_ARG_API_KEY_FILE")))
      (env (codes "LLAMACPP_API_KEY_FILE"))

-- the size of `char authorization[2048]`
abbrev pub authorization_size : ℕ
authorization_size = 2048

-- what `authorization` holds, none if neither header has a value
unfoldable pub authorization : Bytes → Bytes
authorization request =
    elim (copy_header_value request (codes "Authorization") authorization_size) [
      | [] ↦ copy_header_value request (codes "X-Api-Key") authorization_size
      | c ∷ cs ↦ c ∷ cs
    ]

-- the string `candidate`
unfoldable pub candidate_of : Bytes → Bytes
unfolding case_starts_with
candidate_of value =
    drop_while is_blank (if case_starts_with value (codes "Bearer ") then drop 7 value else value)

-- the tests on `candidate`, the first of which refuses an empty one
unfoldable pub candidate_accepted : Env → Files → Bytes → Bool
candidate_accepted env files [] = false
candidate_accepted env files (c ∷ cs) =
    if has_char b'\r' (c ∷ cs) || has_char b'\n' (c ∷ cs)
    then false
    else if is_set (configured_keys env) && key_equals (text (configured_keys env)) (c ∷ cs)
    then true
    else is_set (key_file env) && api_key_file_matches (files (text (key_file env))) (c ∷ cs)

-- `fortai_authorized(request, request_length)`
unfoldable pub authorized : Env → Files → Bytes → Bool
authorized env files request =
    if public_path env request
    then true
    else if not (is_set (configured_keys env)) && not (is_set (key_file env))
    then true
    else elim (authorization request) [
      | [] ↦ false
      | c ∷ cs ↦ candidate_accepted env files (candidate_of (c_str (c ∷ cs)))
    ]
