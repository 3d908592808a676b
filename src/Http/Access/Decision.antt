-- ===== src/Http/Access/Decision.antt =====
-- Which credentials `fortai_authorized` accepts.
use fortai.Prelude.{
  ℕ, ◌<◌, ◌≡◌, ◌≢◌, refl, ◌∙◌, append_assoc, true, false, ◌||◌, List, [], ◌∷◌, ◌++◌, length,
  drop_while, arith, min, take_of_length-le,
}
use fortai.Libc.{Bytes, codes, case_starts_with, is_blank, str_eq, trim_end, has_char}
use fortai.Libc.Search.{c_str-eq}
use fortai.Libc.Trim.{trim_end-append}
use fortai.Http.Header.{line_has_name, trimmed_value, copied_value, copy_header_value}
use fortai.Http.Header.Lines.{IsLine, AllLines, text_of, find_header, copy_header_value-find_header}
use fortai.Http.Keys.{is_key_end}
use fortai.Http.Keys.Split.{split_commas, any_entry, key_equals-any_entry}
use fortai.Http.Access.{
  Env, Files, is_set, text, public_path, configured_keys, key_file, authorization_size,
  authorization, candidate_of, candidate_accepted, authorized,
}

-- No line has the name.
abbrev pub HasNone : Bytes → List Bytes → Type 0
HasNone name [] = Unit {0}
HasNone name (l ∷ ls) = (line_has_name name l ≡ false) × HasNone name ls

find_header-HasNone :
    (name : Bytes) (capacity : ℕ) (ls : List Bytes)
    → HasNone name ls
    → find_header name capacity ls ≡ []
find_header-HasNone name capacity [] h = refl
find_header-HasNone name capacity (l ∷ ls) h = rw h.0 (find_header-HasNone name capacity ls h.1)

find_header-append :
    (name : Bytes) (capacity : ℕ) (ls : List Bytes) (l : Bytes) (rest : List Bytes)
    → HasNone name ls
    → line_has_name name l ≡ true
    → find_header name capacity (ls ++ (l ∷ rest)) ≡ copied_value capacity (trimmed_value name l)
find_header-append name capacity [] l rest h e = rw e
find_header-append name capacity (x ∷ ls) l rest h e =
    rw h.0 (find_header-append name capacity ls l rest h.1 e)

authorization-of_headers :
    (request : Bytes)
    → copy_header_value request (codes "Authorization") authorization_size ≡ []
    → copy_header_value request (codes "X-Api-Key") authorization_size ≡ []
    → authorization request ≡ []
unfolding authorization
authorization-of_headers request a x = rw (a, authorization) x

authorized_of_no_credential :
    (env : Env) (files : Files) (request : Bytes)
    → (is_set (configured_keys env) || is_set (key_file env)) ≡ true
    → public_path env request ≡ false
    → authorization request ≡ []
    → authorized env files request ≡ false
unfolding authorized
authorized_of_no_credential env files request c p e = ground arith

-- A request with no credential is refused, if a key or a key file is configured and the path is
-- not public: none of its lines, the body's included, names "Authorization" or "X-Api-Key", or
-- holds a CR or a NUL.
pub authorized_without_credential :
    (env : Env) (files : Files) (lines : List Bytes) (tail : Bytes)
    → AllLines lines
    → IsLine tail
    → HasNone (codes "Authorization") (lines ++ (tail ∷ []))
    → HasNone (codes "X-Api-Key") (lines ++ (tail ∷ []))
    → (is_set (configured_keys env) || is_set (key_file env)) ≡ true
    → public_path env (text_of lines ++ tail) ≡ false
    → authorized env files (text_of lines ++ tail) ≡ false
authorized_without_credential env files lines tail h ht na nx c p =
    authorized_of_no_credential env files (text_of lines ++ tail) c p (
      authorization-of_headers (text_of lines ++ tail) (none_of (codes "Authorization") na)
        (none_of (codes "X-Api-Key") nx))
  where
    none_of :
        (name : Bytes)
        → HasNone name (lines ++ (tail ∷ []))
        → copy_header_value (text_of lines ++ tail) name authorization_size ≡ []
    none_of name n =
        copy_header_value-find_header lines tail name authorization_size h ht
        ∙ find_header-HasNone name authorization_size (lines ++ (tail ∷ [])) n

-- A key as it is sent: not empty, ends in no ' ' or '\t', does not begin with one, holds no NUL,
-- CR or LF, and fits into the buffer.
abbrev pub IsSentKey : Bytes → Type 0
IsSentKey key =
    (key ≢ [])
    × (drop_while is_blank key ≡ key)
    × (trim_end is_blank key ≡ key)
    × (has_char 0 key ≡ false)
    × (has_char b'\r' key ≡ false)
    × (has_char b'\n' key ≡ false)
    × (length key < 2000)

abbrev pub bearer_line : Bytes → Bytes
bearer_line key = codes "Authorization: Bearer " ++ key

bearer_line_has_name :
    (key : Bytes) → line_has_name (codes "Authorization") (bearer_line key) ≡ true
unfolding line_has_name case_starts_with
bearer_line_has_name key = ground arith

trimmed_value-bearer_line :
    (key : Bytes)
    → IsSentKey key
    → trimmed_value (codes "Authorization") (bearer_line key) ≡ codes "Bearer " ++ key
unfolding trimmed_value
trimmed_value-bearer_line key k = trim_end-append is_blank (codes "Bearer ") key k.0 k.2

copied_value-bearer :
    (key : Bytes)
    → IsSentKey key
    → copied_value authorization_size (codes "Bearer " ++ key) ≡ codes "Bearer " ++ key
unfolding copied_value has_char
copied_value-bearer key k = ground (
  arith,
  take_of_length-le (min (length (codes "Bearer " ++ key)) 2047) (codes "Bearer " ++ key)
      (omega arith),
)

candidate_of-bearer : (key : Bytes) → IsSentKey key → candidate_of (codes "Bearer " ++ key) ≡ key
unfolding candidate_of case_starts_with
candidate_of-bearer key k = k.1

candidate_accepted-keys :
    (env : Env) (files : Files) (key : Bytes)
    → IsSentKey key
    → is_set (configured_keys env) ≡ true
    → is_set (key_file env) ≡ false
    → candidate_accepted env files key
      ≡ any_entry is_key_end (λ entry. str_eq entry key) (split_commas (text (configured_keys env)))
unfolding candidate_accepted
candidate_accepted-keys env files [] k c f = absurd (k.0 refl)
candidate_accepted-keys env files (x ∷ key) k c f =
    rw (k.4, k.5, c, f, key_equals-any_entry (text (configured_keys env)) (x ∷ key) k.0)
      (ground arith)

credential_of_bearer :
    (before after : List Bytes) (tail key : Bytes)
    → AllLines (before ++ (bearer_line key ∷ after))
    → IsLine tail
    → HasNone (codes "Authorization") before
    → IsSentKey key
    → copy_header_value
        (text_of (before ++ (bearer_line key ∷ after)) ++ tail)
        (codes "Authorization")
        authorization_size
      ≡ codes "Bearer " ++ key
credential_of_bearer before after tail key h ht n k =
    copy_header_value-find_header (before ++ (bearer_line key ∷ after)) tail (codes "Authorization")
      authorization_size h ht
    ∙ rw (append_assoc before (bearer_line key ∷ after) (tail ∷ [])) (
        find_header-append (codes "Authorization") authorization_size before (bearer_line key)
          (after ++ (tail ∷ [])) n (bearer_line_has_name key)
        ∙ rw (trimmed_value-bearer_line key k) (copied_value-bearer key k))

authorized_of_bearer :
    (env : Env) (files : Files) (request key : Bytes)
    → copy_header_value request (codes "Authorization") authorization_size ≡ codes "Bearer " ++ key
    → IsSentKey key
    → (is_set (configured_keys env) || is_set (key_file env)) ≡ true
    → public_path env request ≡ false
    → authorized env files request ≡ candidate_accepted env files key
unfolding authorized authorization
authorized_of_bearer env files request key e k c p =
    rw (p, e, c_str-eq (codes "Bearer " ++ key) (bearer_no_nul key k), candidate_of-bearer key k)
      (ground arith)
  where
    bearer_no_nul : (key : Bytes) → IsSentKey key → has_char 0 (codes "Bearer " ++ key) ≡ false
    bearer_no_nul key k = unfold has_char in k.3

-- A request for a path that is not public, whose first "Authorization" line is "Authorization:
-- Bearer <key>", is let through exactly when the key is among the comma-separated entries of the
-- configured keys, each cut of blanks; keys are configured and no key file is. The key is not
-- empty, is less than 2000 bytes, holds no CR, LF or NUL and neither begins nor ends in a blank,
-- and no line holds a CR or a NUL.
pub authorized-bearer :
    (env : Env) (files : Files) (before after : List Bytes) (tail key : Bytes)
    → AllLines (before ++ (bearer_line key ∷ after))
    → IsLine tail
    → HasNone (codes "Authorization") before
    → IsSentKey key
    → is_set (configured_keys env) ≡ true
    → is_set (key_file env) ≡ false
    → public_path env (text_of (before ++ (bearer_line key ∷ after)) ++ tail) ≡ false
    → authorized env files (text_of (before ++ (bearer_line key ∷ after)) ++ tail)
      ≡ any_entry is_key_end (λ entry. str_eq entry key) (split_commas (text (configured_keys env)))
authorized-bearer env files before after tail key h ht n k c f p =
    authorized_of_bearer env files (text_of (before ++ (bearer_line key ∷ after)) ++ tail) key
      (credential_of_bearer before after tail key h ht n k) k (rw c refl) p
    ∙ candidate_accepted-keys env files key k c f
