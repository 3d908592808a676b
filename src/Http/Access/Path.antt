-- ===== src/Http/Access/Path.antt =====
-- What `fortai_copy_request_path` reads of a request line, and what `fortai_public_path` makes of
-- the API prefix.
use fortai.Prelude.{
  ℕ, zero, suc, ◌+◌, ◌-◌, ◌<◌, ◌≡◌, ◌≢◌, refl, ◌∙◌, ap, Bool, false, some, [], ◌∷◌, ◌++◌, ◌==◌,
  length, take, arith, min, take_of_length-le, take-length-append, drop-length-append, append_assoc,
  append-nil, length-append, replicate, drop-length-suc-append,
}
use fortai.Libc.{Bytes, codes, str_eq, trim_end, has_char, starts_with}
use fortai.Libc.Search.{memchr-first, memchr-none, starts_with_self, c_str-eq, has_char-append}
use fortai.Libc.Trim.{trim_end-replicate, trim_end-cons_ne}
use fortai.Http.Access.{
  Env, path_size, cut_query, target, copy_request_path, strip_slashes, normalize_prefix,
  strip_prefix, routed_path, is_public, public_path,
}

-- What may stand between the path and the next space: nothing, or a query.
abbrev pub IsQuery : Bytes → Type 0
IsQuery [] = Unit {0}
IsQuery (c ∷ q) = (c ≡ b'?') × (has_char b' ' (c ∷ q) ≡ false)

-- `method path[?query] rest`
abbrev pub request_line : Bytes → Bytes → Bytes → Bytes → Bytes
request_line method path query rest = method ++ (b' ' ∷ (path ++ (query ++ (b' ' ∷ rest))))

cut_query_lem :
    (path query : Bytes)
    → has_char b'?' path ≡ false
    → IsQuery query
    → cut_query (path ++ query) ≡ path
unfolding cut_query
cut_query_lem path [] q h = rw append-nil (rw (memchr-none b'?' path q, cut_query))
cut_query_lem path (c ∷ query) q h =
    rw h.0 (rw (memchr-first b'?' path query q, cut_query) (take-length-append path (b'?' ∷ query)))

IsQuery-no_space : (query : Bytes) → IsQuery query → has_char b' ' query ≡ false
unfolding has_char
IsQuery-no_space [] h = refl
IsQuery-no_space (c ∷ query) h = h.1

target-space :
    (t rest : Bytes) → has_char b' ' t ≡ false → target (t ++ (b' ' ∷ rest)) ≡ cut_query t
unfolding target
target-space t rest h = rw (memchr-first b' ' t rest h, target, take-length-append t (b' ' ∷ rest))

target_lem :
    (path query rest : Bytes)
    → has_char b' ' path ≡ false
    → has_char b'?' path ≡ false
    → IsQuery query
    → target (path ++ (query ++ (b' ' ∷ rest))) ≡ path
target_lem path query rest s q h = rw (← append_assoc path query (b' ' ∷ rest)) (
    target-space (path ++ query) rest
      (has_char-append b' ' path query ∙ rw (s, IsQuery-no_space query h))
    ∙ cut_query_lem path query q h)

-- In "method path?query rest" the path is what stands between the method's space and the query or,
-- with no query, the next space, cut to the room of the buffer. Method and query hold no space,
-- and the path no space and no '?'.
pub copy_request_path-request_line :
    (method path query rest : Bytes) (capacity : ℕ)
    → has_char b' ' method ≡ false
    → has_char b' ' path ≡ false
    → has_char b'?' path ≡ false
    → IsQuery query
    → copy_request_path (request_line method path query rest) capacity
      ≡ take (min (length path) (capacity - 1)) path
unfolding copy_request_path
copy_request_path-request_line method path query rest capacity m s q h = rw (
  memchr-first b' ' method (path ++ (query ++ (b' ' ∷ rest))) m,
  copy_request_path,
  drop-length-suc-append method b' ' (path ++ (query ++ (b' ' ∷ rest))),
  target_lem path query rest s q h,
)

length-spelled : (cs : Bytes) (n : ℕ) → length (cs ++ replicate n b'/') ≡ length cs + n
length-spelled cs n = length-append {0} cs (replicate n b'/') ∙ rw (length-replicate n)
  where
    length-replicate : (n : ℕ) → length (replicate {A = ℕ} n b'/') ≡ n
    length-replicate zero = refl
    length-replicate (suc n) = ap suc (length-replicate n)

abbrev is_slash : ℕ → Bool
is_slash b = b == b'/'

strip_slashes-spelled :
    (c : ℕ) (cs : Bytes) (n : ℕ)
    → (c == b'/') ≡ false
    → trim_end is_slash cs ≡ cs
    → (strip_slashes ((c ∷ cs) ++ replicate n b'/') ≡ c ∷ cs)
      × (strip_slashes (b'/' ∷ ((c ∷ cs) ++ replicate n b'/')) ≡ b'/' ∷ c ∷ cs)
unfolding strip_slashes
strip_slashes-spelled c cs n h t =
    let e : trim_end is_slash (cs ++ replicate n b'/') ≡ cs =
      trim_end-replicate is_slash cs n b'/' refl ∙ t in
    (
      ap (λ x. c ∷ x) e,
      ap (λ x. b'/' ∷ x) (trim_end-cons_ne is_slash c (cs ++ replicate n b'/') cs h e),
    )

-- A prefix is the same in each of its spellings: with or without the first '/', and with any
-- number of '/' behind it, if it fits into the buffer. It is not empty and, without these, neither
-- begins nor ends in '/'.
pub normalize_prefix-spelled :
    (c : ℕ) (cs : Bytes) (n : ℕ)
    → (c == b'/') ≡ false
    → trim_end is_slash cs ≡ cs
    → length (c ∷ cs) + n < path_size - 1
    → (normalize_prefix ((c ∷ cs) ++ replicate n b'/') ≡ some (b'/' ∷ c ∷ cs))
      × (normalize_prefix (b'/' ∷ ((c ∷ cs) ++ replicate n b'/')) ≡ some (b'/' ∷ c ∷ cs))
unfolding normalize_prefix starts_with
normalize_prefix-spelled c cs n h t l =
    let e = strip_slashes-spelled c cs n h t in
    (ground (arith, e.0, length-spelled cs n), ground (arith, e.1, length-spelled cs n))

-- A path behind the prefix is the path that is looked up.
strip_prefix-append :
    (prefix path : Bytes) → strip_prefix prefix (prefix ++ (b'/' ∷ path)) ≡ some (b'/' ∷ path)
unfolding strip_prefix
strip_prefix-append prefix path =
    rw
      (starts_with_self prefix (b'/' ∷ path), strip_prefix, drop-length-append prefix (b'/' ∷ path))

public_path-routed :
    (env : Env) (request full path : Bytes)
    → copy_request_path request path_size ≡ full
    → full ≢ []
    → has_char 0 full ≡ false
    → routed_path env full ≡ some path
    → public_path env request ≡ is_public env request path
unfolding public_path
public_path-routed env request [] path e n z r = absurd (n refl)
public_path-routed env request (c ∷ cs) path e n z r =
    rw (e, public_path, c_str-eq (c ∷ cs) z, r, public_path)

routed_path-prefixed :
    (env : Env) (c : ℕ) (cs prefix path : Bytes)
    → env (codes "FORTAI_API_PREFIX") ≡ some (c ∷ cs)
    → str_eq (c ∷ cs) (codes "/") ≡ false
    → normalize_prefix (c ∷ cs) ≡ some prefix
    → routed_path env (prefix ++ (b'/' ∷ path)) ≡ some (b'/' ∷ path)
unfolding routed_path
routed_path-prefixed env c cs prefix path e r n = rw (e, r, n) (strip_prefix-append prefix path)

-- With an API prefix configured, a request for a path under the prefix is public exactly when the
-- tables list the path without the prefix; the path holds no space, '?' or NUL and fits into the
-- buffer, and a query makes no difference.
public_path-prefixed :
    (env : Env) (c : ℕ) (cs prefix method path query rest : Bytes)
    → env (codes "FORTAI_API_PREFIX") ≡ some (c ∷ cs)
    → str_eq (c ∷ cs) (codes "/") ≡ false
    → normalize_prefix (c ∷ cs) ≡ some prefix
    → has_char b' ' method ≡ false
    → has_char b' ' (prefix ++ (b'/' ∷ path)) ≡ false
    → has_char b'?' (prefix ++ (b'/' ∷ path)) ≡ false
    → has_char 0 (prefix ++ (b'/' ∷ path)) ≡ false
    → length (prefix ++ (b'/' ∷ path)) < path_size
    → IsQuery query
    → public_path env (request_line method (prefix ++ (b'/' ∷ path)) query rest)
      ≡ is_public env (request_line method (prefix ++ (b'/' ∷ path)) query rest) (b'/' ∷ path)
public_path-prefixed env c cs prefix method path query rest e r n m s q z l h =
    public_path-routed env (request_line method full query rest) full (b'/' ∷ path)
      (copy_request_path-request_line method full query rest path_size m s q h
        ∙ take_of_length-le (min (length full) (path_size - 1)) full (omega arith))
      (append-ne-nil prefix b'/' path) z (routed_path-prefixed env c cs prefix path e r n)
  where
    full : Bytes
    full = prefix ++ (b'/' ∷ path)

    append-ne-nil : (a : Bytes) (x : ℕ) (b : Bytes) → a ++ (x ∷ b) ≢ []
    append-ne-nil [] x b e = cc
    append-ne-nil (y ∷ a) x b e = cc
