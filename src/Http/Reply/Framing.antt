-- ===== src/Http/Reply/Framing.antt =====
-- Where the header of a response ends.
use fortai.Prelude.{
  ℕ, zero, suc, ◌+◌, ◌≡◌, ◌≢◌, refl, ap, ◌∙◌, Bool, true, false, ◌&&◌, ◌||◌, none, some, List, [],
  ◌∷◌, ◌++◌, if◌then◌else◌, length, length-append, take, ◌==◌, arith, append_assoc, Bool-cases, inl,
  inr,
}
use fortai.Libc.{Bytes, codes, crlf, has_char, strstr, starts_with}
use fortai.Libc.Search.{has_char-append}
use fortai.Http.Access.{Env, safe_env, is_set, text}
use fortai.Http.Keys.{cors_origin_allowed}
use fortai.Http.Socket.{separator}
use fortai.Http.Reply.Decimal.{decimal-AllDigits, has_char-AllDigits}
use fortai.Http.Reply.{
  reason, decimal, credentials, allow_origin, vary, status_lines, print_lines, header_text,
}
use fortai.Http.Socket.Receive.Head.{head_end, separator_line, separator_later}

-- A value of a header line: no CR, LF or NUL.
abbrev pub IsField : Bytes → Type 0
IsField v = (has_char b'\r' v ≡ false) × (has_char b'\n' v ≡ false) × (has_char 0 v ≡ false)

abbrev pub AllFields : List Bytes → Type 0
AllFields [] = Unit {0}
AllFields (l ∷ ls) = (IsField l × (l ≢ [])) × AllFields ls

IsField-append : (a b : Bytes) → IsField a → IsField b → IsField (a ++ b)
IsField-append a b h k = (
  has_char-append b'\r' a b ∙ rw (h.0, k.0),
  has_char-append b'\n' a b ∙ rw (h.1, k.1),
  has_char-append 0 a b ∙ rw (h.2, k.2),
)

-- The values of the environment are C strings.
abbrev pub IsCEnv : Env → Type 0
IsCEnv env = (name : Bytes) → has_char 0 (text (env name)) ≡ false

safe_env-IsField :
    (env : Env) (name fallback : Bytes)
    → IsCEnv env
    → IsField fallback
    → IsField (safe_env env name fallback)
unfolding safe_env
safe_env-IsField env name fallback e f = elim (Bool-cases (is_set (env name))) [
  | inr h ↦ rw h f
  | inl h ↦
      rw h
        (elim (Bool-cases (has_char b'\r' (text (env name)) || has_char b'\n' (text (env name)))) [
          | inl c ↦ rw c f
          | inr c ↦ rw c (ground arith, ground arith, e name)
        ])
]

if-IsField : (c : Bool) (a b : Bytes) → IsField a → IsField b → IsField (if c then a else b)
if-IsField true a b h k = h
if-IsField false a b h k = k

reason-IsField : (status : ℕ) → IsField (reason status)
unfolding reason has_char
reason-IsField status =
    if-IsField (status == 200) _ _ (refl, refl, refl)
      (if-IsField (status == 204) _ _ (refl, refl, refl)
        (if-IsField (status == 401) _ _ (refl, refl, refl)
          (if-IsField (status == 400) _ _ (refl, refl, refl)
            (if-IsField (status == 404) _ _ (refl, refl, refl)
              (if-IsField (status == 500) _ _ (refl, refl, refl) (refl, refl, refl))))))

decimal-IsField : (n : ℕ) → IsField (decimal n)
decimal-IsField n = (
  has_char-AllDigits b'\r' (decimal n) (omega arith) (decimal-AllDigits n),
  has_char-AllDigits b'\n' (decimal n) (omega arith) (decimal-AllDigits n),
  has_char-AllDigits 0 (decimal n) (omega arith) (decimal-AllDigits n),
)

no_separator_line :
    (l t : Bytes)
    → IsField l
    → starts_with t crlf ≡ false
    → strstr t separator ≡ none
    → strstr (l ++ (crlf ++ t)) separator ≡ none
unfolding strstr starts_with has_char
no_separator_line [] t h s e = ground arith
no_separator_line (x ∷ l) t h s e = ground (arith, no_separator_line l t)

field_head-ne : (x : ℕ) (l : Bytes) → IsField (x ∷ l) → x ≢ b'\r'
unfolding has_char
field_head-ne x l h e = ground arith

starts_with-field : (x : ℕ) (l t : Bytes) → IsField (x ∷ l) → starts_with (x ∷ t) crlf ≡ false
unfolding starts_with has_char
starts_with-field x l t h = ground arith

-- A list of lines with no empty one holds no separator.
strstr-no_separator : (ls : List Bytes) → AllFields ls → strstr (print_lines ls []) separator ≡ none
unfolding print_lines
strstr-no_separator [] h = unfold strstr starts_with in refl
strstr-no_separator (l ∷ []) h =
    no_separator_line l [] h.0.0 (unfold starts_with in refl) (unfold strstr starts_with in refl)
strstr-no_separator (l ∷ [] ∷ ms) h = absurd (h.1.0.1 refl)
strstr-no_separator (l ∷ (x ∷ m) ∷ ms) h =
    no_separator_line l (print_lines ((x ∷ m) ∷ ms) []) h.0.0
      (starts_with-field x m (m ++ (crlf ++ print_lines ms [])) h.1.0.0)
      (strstr-no_separator ((x ∷ m) ∷ ms) h.1)

-- An empty line behind the lines ends them: the first separator stands right before `rest`.
strstr-print_lines :
    (l : Bytes) (ls : List Bytes) (rest : Bytes)
    → AllFields (l ∷ ls)
    → (strstr (print_lines (l ∷ ls) (crlf ++ rest)) separator ≡ some (head_end l ls))
      × (length (print_lines (l ∷ ls) crlf) ≡ head_end l ls + 4)
unfolding print_lines
strstr-print_lines l [] rest h =
    (separator_line l rest (h.0.0.0, h.0.0.2), length-append l (crlf ++ crlf))
strstr-print_lines l ([] ∷ ms) rest h = absurd (h.1.0.1 refl)
strstr-print_lines l ((x ∷ m) ∷ ms) rest h =
    let (found, size) = strstr-print_lines (x ∷ m) ms rest h.1 in
    (
      separator_later l x (m ++ (crlf ++ print_lines ms (crlf ++ rest))) (head_end (x ∷ m) ms)
          (h.0.0.0, h.0.0.2) (field_head-ne x m h.1.0.0) found,
      omega (arith, size, length-append {0} l (crlf ++ print_lines ((x ∷ m) ∷ ms) crlf)),
    )

print_lines-append :
    (ls : List Bytes) (a b : Bytes) → print_lines ls a ++ b ≡ print_lines ls (a ++ b)
unfolding print_lines
print_lines-append [] a b = refl
print_lines-append (l ∷ ls) a b =
    append_assoc l (crlf ++ print_lines ls a) b
    ∙ ap (λ t. l ++ (crlf ++ t)) (print_lines-append ls a b)

print_lines-last :
    (ls : List Bytes) (l : Bytes) → print_lines (ls ++ (l ∷ [])) [] ≡ print_lines ls (l ++ crlf)
unfolding print_lines
print_lines-last [] l = refl
print_lines-last (k ∷ ls) l = ap (λ t. k ++ (crlf ++ t)) (print_lines-last ls l)

AllFields-append : (ls ms : List Bytes) → AllFields ls → AllFields ms → AllFields (ls ++ ms)
AllFields-append [] ms h k = k
AllFields-append (l ∷ ls) ms h k = (h.0, AllFields-append ls ms h.1 k)

has_char-take : (c n : ℕ) (v : Bytes) → has_char c v ≡ false → has_char c (take n v) ≡ false
unfolding has_char
has_char-take c zero v h = refl
has_char-take c (suc n) [] h = refl
has_char-take c (suc n) (x ∷ v) h = ground (arith, has_char-take c n v)

take-IsField : (n : ℕ) (v : Bytes) → IsField v → IsField (take n v)
take-IsField n v h =
    (has_char-take b'\r' n v h.0, has_char-take b'\n' n v h.1, has_char-take 0 n v h.2)

allow_origin-IsField :
    (env : Env) (origin : Bytes) → IsCEnv env → IsField origin → IsField (allow_origin env origin)
unfolding allow_origin
allow_origin-IsField env origin e o = take-IsField 511 _ (
    if-IsField
      (credentials env
        && cors_origin_allowed (safe_env env (codes "FORTAI_CORS_ORIGINS") (codes "*")) origin)
      _ _ o
      (safe_env-IsField env (codes "FORTAI_CORS_ORIGINS") (codes "*") e
        (unfold has_char in (refl, refl, refl))))

status_lines-AllFields :
    (env : Env) (status : ℕ) (mime : Bytes) (size : ℕ) (origin : Bytes)
    → IsCEnv env
    → IsField mime
    → IsField origin
    → AllFields (status_lines env status mime size origin)
unfolding status_lines has_char
status_lines-AllFields env status mime size origin e m o = (
  (
    IsField-append (decimal status) (b' ' ∷ reason status) (decimal-IsField status)
        (reason-IsField status),
    λ n. cc,
  ),
  (
    (m, λ n. cc),
    (
      (decimal-IsField size, λ n. cc),
      (
        ((refl, refl, refl), λ n. cc),
        (
          ((refl, refl, refl), λ n. cc),
          (
            (allow_origin-IsField env origin e o, λ n. cc),
            (
              (safe_env-IsField env _ _ e (refl, refl, refl), λ n. cc),
              (
                (safe_env-IsField env _ _ e (refl, refl, refl), λ n. cc),
                (
                  (if-IsField (credentials env) _ _ (refl, refl, refl) (refl, refl, refl), λ n. cc),
                  tt,
                ),
              ),
            ),
          ),
        ),
      ),
    ),
  ),
)

framed :
    (ls : List Bytes) (body : Bytes)
    → AllFields ls
    → ls ≢ []
    → (i : ℕ) × (strstr (print_lines ls crlf ++ body) separator ≡ some i)
      × (length (print_lines ls crlf) ≡ i + 4)
framed [] body h n = absurd (n refl)
framed (l ∷ ls) body h n =
    let (found, size) = strstr-print_lines l ls body h in
    (head_end l ls, rw (print_lines-append (l ∷ ls) crlf body) found, size)

status_lines-ne-nil :
    (env : Env) (status : ℕ) (mime : Bytes) (size : ℕ) (origin : Bytes)
    → status_lines env status mime size origin ≢ []
unfolding status_lines
status_lines-ne-nil env status mime size origin e = cc

-- A response to a request with no "Origin" is framed: the first empty line of header and body is
-- the last line of the header, so the body begins where the header ends. The values of the
-- environment are C strings, and the content type holds no CR, LF or NUL.
pub header_text_framed :
    (env : Env) (status : ℕ) (mime body : Bytes)
    → IsCEnv env
    → IsField mime
    → (i : ℕ) × (strstr (header_text env status mime (length body) [] ++ body) separator ≡ some i)
      × (length (header_text env status mime (length body) []) ≡ i + 4)
unfolding header_text vary
header_text_framed env status mime body e m =
    framed (status_lines env status mime (length body) []) body
      (status_lines-AllFields env status mime (length body) [] e m
        (unfold has_char in (refl, refl, refl)))
      (status_lines-ne-nil env status mime (length body) [])

-- A response to a request with an "Origin" is not: its header holds no empty line at all, since
-- the format ends after "Vary: Origin" and one CRLF. The values of the environment are C strings,
-- and content type and origin hold no CR, LF or NUL.
pub header_text_unframed :
    (env : Env) (status : ℕ) (mime : Bytes) (size : ℕ) (origin : Bytes)
    → IsCEnv env
    → IsField mime
    → IsField origin
    → origin ≢ []
    → strstr (header_text env status mime size origin) separator ≡ none
unfolding header_text vary
header_text_unframed env status mime size [] e m o n = absurd (n refl)
header_text_unframed env status mime size (c ∷ cs) e m o n =
    rw (← print_lines-last (status_lines env status mime size (c ∷ cs)) (codes "Vary: Origin")) (
      strstr-no_separator
        (status_lines env status mime size (c ∷ cs) ++ (codes "Vary: Origin" ∷ []))
        (AllFields-append (status_lines env status mime size (c ∷ cs)) (codes "Vary: Origin" ∷ [])
          (status_lines-AllFields env status mime size (c ∷ cs) e m o)
          (((unfold has_char in (refl, refl, refl)), λ n. cc), tt)))
