-- ===== src/Http/Client/Refusal.antt =====
-- A connection from its first byte to its last: what a client without a credential gets.
use fortai.Prelude.{
  ℕ, ◌+◌, ◌≤◌, ◌<◌, ◌≡◌, refl, ap, Bool, true, false, ◌||◌, Option, some, List, [], ◌∷◌, ◌++◌,
  length, append_assoc,
}
use fortai.Libc.{Bytes, has_char, codes, c_str, crlf, case_starts_with}
use fortai.Http.Header.Lines.{IsLine, AllLines, text_of}
use fortai.Http.Access.{Env, Files, is_set, configured_keys, key_file, public_path}
use fortai.Http.Access.Decision.{HasNone}
use fortai.Http.Socket.{SendOutcome, RecvOutcome, max_request, read_request}
use fortai.Http.Socket.Send.{Progresses, taking}
use fortai.Http.Socket.Receive.{read_request-well_formed}
use fortai.Http.Socket.Receive.Head.{AllHeadLines, head_end, content_length}
use fortai.Http.Socket.Receive.Rounds.{Arrives, giving}
use fortai.Http.Reply.{
  Handler, Answer, respond, dispatch, dispatch_request, origin_of, unauthorized_body, header_text,
  header_size, http_status,
}
use fortai.Http.Reply.Dispatch.{dispatch_without_credential, http_status_total}
use fortai.Http.Client.{close_client}

-- A request that is read and dispatched to a response is answered by it.
close_client-answers :
    {S : Type 0} (env : Env) (files : Files) (handler : Handler S) (memory : List Bool) (s s' : S)
    (outcomes : List RecvOutcome) (stream request : Bytes) (for_header for_body : List SendOutcome)
    (status : ℕ) (mime body wire : Bytes)
    → read_request outcomes stream ≡ some request
    → dispatch env files handler memory s request ≡ (s', some (respond status mime body))
    → http_status env status mime body (origin_of request) for_header for_body ≡ (wire, true)
    → close_client env files handler memory s outcomes stream for_header for_body ≡ (s', some wire)
unfolding close_client dispatch_request
close_client-answers {S} env files handler memory s s' outcomes stream request for_header for_body
      status mime body wire read dispatched sent =
    rw (read, close_client, dispatched, dispatch_request, sent)
      (ap (λ (r : S × Option Answer). (r.0, some wire)) dispatched)

text_of-append : (ls ms : List Bytes) → text_of (ls ++ ms) ≡ text_of ls ++ text_of ms
text_of-append [] ms = refl
text_of-append (l ∷ ls) ms =
    rw (text_of-append ls ms, append_assoc l (crlf ++ text_of ls) (text_of ms)) refl

AllHeadLines-AllLines : (ls : List Bytes) → AllHeadLines ls → AllLines (ls ++ ([] ∷ []))
unfolding has_char
AllHeadLines-AllLines [] h = ((refl, refl), tt)
AllHeadLines-AllLines (l ∷ ls) h = (h.0.0, AllHeadLines-AllLines ls h.1)

-- the request with its empty line among its lines
request_lines :
    (ls : List Bytes) (body : Bytes)
    → text_of (ls ++ ([] ∷ [])) ++ body ≡ text_of ls ++ (crlf ++ body)
request_lines ls body = rw (text_of-append ls ([] ∷ [])) (append_assoc (text_of ls) crlf body)

abbrev pub refusal : Env → Bytes → Bytes
refusal env request =
    header_text env 401 (codes "application/json") (length unauthorized_body)
      (c_str (origin_of request))

-- A whole connection of a client without a credential, where a key or a key file is configured.
-- Its request is well formed: its lines are not empty and hold no CR or NUL, a "Content-Length:"
-- has its value on its line, the body is as long as the lines say and holds no CR or NUL, and all
-- of it fits into the limit. None of its lines has the name "Authorization" or "X-Api-Key", it is
-- no OPTIONS request, and asks for no public path. Then however its bytes are cut into the results
-- of `recv`, whatever follows them, and however the response is cut into the calls of `send`, the
-- client gets the header of a 401 with the body of `unauthorized_body`, all of it and nothing else,
-- and the native handler does not run. The calls of `recv` and `send` do not fail, they are enough
-- for the bytes, the header fits into its buffer, and the `malloc` of the dispatch does not fail.
pub close_client-refusal :
    {S : Type 0} (env : Env) (files : Files) (handler : Handler S) (grows : List Bool) (s : S)
    (l : Bytes) (ls : List Bytes) (body rest : Bytes) (outcomes : List RecvOutcome)
    (for_header for_body : List SendOutcome)
    → AllHeadLines (l ∷ ls)
    → length body ≡ content_length 0 (l ∷ ls)
    → head_end l ls + 4 + length body ≤ max_request
    → IsLine body
    → HasNone (codes "Authorization") (((l ∷ ls) ++ ([] ∷ [])) ++ (body ∷ []))
    → HasNone (codes "X-Api-Key") (((l ∷ ls) ++ ([] ∷ [])) ++ (body ∷ []))
    → (is_set (configured_keys env) || is_set (key_file env)) ≡ true
    → public_path env (text_of (l ∷ ls) ++ (crlf ++ body)) ≡ false
    → case_starts_with (text_of (l ∷ ls) ++ (crlf ++ body)) (codes "OPTIONS ") ≡ false
    → Arrives outcomes
    → head_end l ls + 4 + length body ≤ giving outcomes
    → Progresses for_header
    → Progresses for_body
    → length (refusal env (text_of (l ∷ ls) ++ (crlf ++ body))) < header_size
    → length (refusal env (text_of (l ∷ ls) ++ (crlf ++ body))) ≤ taking for_header
    → length unauthorized_body ≤ taking for_body
    → close_client env files handler
        (true ∷ grows)
        s
        outcomes
        (text_of (l ∷ ls) ++ (crlf ++ (body ++ rest)))
        for_header
        for_body
      ≡ (s, some (refusal env (text_of (l ∷ ls) ++ (crlf ++ body)) ++ unauthorized_body))
close_client-refusal env files handler grows s l ls body rest outcomes for_header for_body head
      sized fits line na nx c p o arrives given ph pb small th tb =
    let request = text_of (l ∷ ls) ++ (crlf ++ body) in
    let same = request_lines (l ∷ ls) body in
    close_client-answers env files handler (true ∷ grows) s s outcomes _ request for_header for_body
      401 (codes "application/json") unauthorized_body _
      (read_request-well_formed l ls body rest head sized fits outcomes arrives given)
      (rw same at (
        dispatch_without_credential env files handler grows s ((l ∷ ls) ++ ([] ∷ [])) body
          (AllHeadLines-AllLines (l ∷ ls) head) line na nx c (rw same p) (rw same o)))
      (http_status_total env 401 (codes "application/json") unauthorized_body (origin_of request)
        for_header for_body small ph pb th tb)
