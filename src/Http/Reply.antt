-- ===== src/Http/Reply.antt =====
-- The responses of src/server/fortai_http_server.c: `fortai_http_reason`, `fortai_http_status` and
-- `fortai_dispatch_request`. The native handler, which src/server/fortai_native_http.f90
-- implements, is a parameter.
pub mod Framing
pub mod Decimal
pub mod Dispatch
use fortai.Prelude.{
  ℕ, zero, suc, ◌+◌, ◌-◌, ◌*◌, ◌/◌, ◌%◌, Bool, true, false, not, ◌&&◌, ◌||◌, Option, none, some,
  List, [], ◌∷◌, ◌++◌, ltb, leb, ◌==◌, if◌then◌else◌, length, take, min,
}
use fortai.Libc.{Bytes, codes, c_str, crlf, case_eq, case_starts_with}
use fortai.Http.Header.{copy_header_value}
use fortai.Http.Keys.{cors_origin_allowed}
use fortai.Http.Access.{Env, Files, safe_env, authorized}
use fortai.Http.Socket.{SendOutcome, send_all}

-- `fortai_http_reason(status)`
unfoldable pub reason : ℕ → Bytes
reason status =
    if status == 200
    then codes "OK"
    else if status == 204
    then codes "No Content"
    else if status == 401
    then codes "Unauthorized"
    else if status == 400
    then codes "Bad Request"
    else if status == 404
    then codes "Not Found"
    else if status == 500
    then codes "Internal Server Error"
    else codes "FortAI Response"

unfoldable pub decimal_loop : ℕ → ℕ → Bytes
decimal_loop zero n = []
decimal_loop (suc fuel) n =
    let front = decimal_loop fuel (n / 10) in
    if ltb n 10 then (n + b'0') ∷ [] else front ++ ((n % 10 + b'0') ∷ [])

-- "%d" and "%zu" of `snprintf`
unfoldable pub decimal : ℕ → Bytes
unfolding decimal_loop
decimal n = decimal_loop (suc n) n

-- `credentials`
unfoldable pub credentials : Env → Bool
unfolding case_eq safe_env
credentials env =
    let value = safe_env env (codes "FORTAI_CORS_CREDENTIALS") (codes "true") in
    not (case_eq value (codes "0"))
    && (not (case_eq value (codes "false")) && not (case_eq value (codes "off")))

-- the string in `char allow_origin[512]`
unfoldable pub allow_origin : Env → Bytes → Bytes
allow_origin env origin =
    let configured = safe_env env (codes "FORTAI_CORS_ORIGINS") (codes "*") in
    take 511
      (if credentials env && cors_origin_allowed configured origin then origin else configured)

-- `(origin != NULL && origin[0] != '\0') ? "Vary: Origin" : ""`
unfoldable pub vary : Bytes → Bytes
vary [] = []
vary (c ∷ cs) = codes "Vary: Origin"

-- The lines of the format string up to the credentials, each without its CRLF.
unfoldable pub status_lines : Env → ℕ → Bytes → ℕ → Bytes → List Bytes
status_lines env status mime size origin =
    (codes "HTTP/1.1 " ++ (decimal status ++ (b' ' ∷ reason status)))
    ∷ (codes "Content-Type: " ++ mime)
    ∷ (codes "Content-Length: " ++ decimal size)
    ∷ codes "Connection: close"
    ∷ codes "X-FortAI-Backend: fortai"
    ∷ (codes "Access-Control-Allow-Origin: " ++ allow_origin env origin)
    ∷ (codes "Access-Control-Allow-Methods: "
        ++ safe_env env (codes "FORTAI_CORS_METHODS") (codes "GET, POST, DELETE, OPTIONS"))
    ∷ (codes "Access-Control-Allow-Headers: "
        ++ safe_env env (codes "FORTAI_CORS_HEADERS") (codes "*"))
    ∷ (codes "Access-Control-Allow-Credentials: "
        ++ (if credentials env then codes "true" else codes "false"))
    ∷ []

-- Each "%s\r\n" of the format.
unfoldable pub print_lines : List Bytes → Bytes → Bytes
print_lines [] rest = rest
print_lines (l ∷ ls) rest = l ++ (crlf ++ print_lines ls rest)

-- what `snprintf` prints into `header`
unfoldable pub header_text : Env → ℕ → Bytes → ℕ → Bytes → Bytes
header_text env status mime size origin =
    print_lines (status_lines env status mime size origin) (vary origin ++ crlf)

-- the size of `char header[2048]`
abbrev pub header_size : ℕ
header_size = 2048

-- `fortai_http_status`: what reaches the wire and whether it returns 0, on the outcomes of the
-- `send` calls for the header and for the body. `origin` is the buffer of the request's origin.
unfoldable pub http_status :
    Env → ℕ → Bytes → Bytes → Bytes → List SendOutcome → List SendOutcome → Bytes × Bool
http_status env status mime body origin for_header for_body =
    let header = header_text env status mime (length body) (c_str origin) in
    if leb header_size (length header)
    then ([], false)
    else let (wire, sent) = send_all for_header header in
      if sent
      then (let (wire', sent') = send_all for_body body in (wire ++ wire', sent'))
      else (wire, false)

-- What the native handler returns: 0 with a status, a content type and a body; the negated room
-- that it wants; or another code.
pub data Handled : Type 0 where
  done : ℕ → Bytes → Bytes → Handled
  wants : ℕ → Handled
  fails : Handled

-- `fortai_native_http_handle` on a request and the room for the body. It has a state `S` of its
-- own, the model's.
abbrev pub Handler : Type 0 → Type 0
Handler S = S → Bytes → ℕ → S × Handled

abbrev pub initial_response : ℕ
initial_response = 64 * 1024

abbrev pub max_response : ℕ
max_response = 64 * 1024 * 1024

-- What a request leads to: a response, or `return -1` with none.
pub data Answer : Type 0 where
  respond : ℕ → Bytes → Bytes → Answer
  give_up : Answer

-- The `while (1)` around the native handler, on the outcomes of `realloc`, one for each round; nothing
-- if they run out.
unfoldable pub handle_loop :
    {S : Type 0} → Handler S → List Bool → S → Bytes → ℕ → S × Option Answer
handle_loop handler [] s request capacity = (s, none)
handle_loop handler (grows ∷ later) s request capacity =
    let (s', handled) = handler s request capacity in
    elim handled [
      | done status mime body ↦ (s', some (respond status mime body))
      | fails ↦ (s', some give_up)
      | wants n ↦ elim (leb n 0 || ltb max_response n || not grows) [
        | true ↦ (s', some give_up)
        | false ↦ handle_loop handler later s' request (n + 1)
      ]
    ]

abbrev pub unauthorized_body : Bytes
unauthorized_body =
    codes "{\"error\":{\"message\":\"unauthorized\",\"type\":\"authentication_error\"}}\n"

-- `fortai_dispatch_request` up to the response, on the outcomes of `malloc` and of the calls of
-- `realloc` in its loop.
unfoldable pub dispatch :
    {S : Type 0} → Env → Files → Handler S → List Bool → S → Bytes → S × Option Answer
dispatch env files handler [] s request = (s, none)
dispatch env files handler (allocates ∷ grows) s request =
    if not allocates
    then (s, some give_up)
    else if case_starts_with request (codes "OPTIONS ")
    then (s, some (respond 204 (codes "text/plain; charset=utf-8") []))
    else if not (authorized env files request)
    then (s, some (respond 401 (codes "application/json") unauthorized_body))
    else handle_loop handler grows s request initial_response

-- the buffer `origin`
unfoldable pub origin_of : Bytes → Bytes
unfolding copy_header_value
origin_of request = copy_header_value request (codes "Origin") 512

-- The whole of `fortai_dispatch_request`: what reaches the wire, and whether it returns 0.
unfoldable pub dispatch_request :
    {S : Type 0}
    → Env
    → Files
    → Handler S
    → List Bool
    → S
    → Bytes
    → List SendOutcome
    → List SendOutcome
    → S × Option (Bytes × Bool)
dispatch_request env files handler memory s request for_header for_body =
    let (s', answer) = dispatch env files handler memory s request in
    elim answer [
      | none ↦ (s', none)
      | some give_up ↦ (s', some ([], false))
      | some (respond status mime body) ↦
          (s', some (http_status env status mime body (origin_of request) for_header for_body))
    ]
