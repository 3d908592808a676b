-- ===== src/Http/Reply/Dispatch.antt =====
-- What `fortai_dispatch_request` makes of a request.
use fortai.Prelude.{
  ℕ, zero, suc, ◌+◌, ◌≤◌, ◌<◌, ◌≡◌, ap, ◌∙◌, Bool, not, true, false, ◌||◌, Option, some, List, [],
  ◌∷◌, ◌++◌, if◌then◌else◌, length, arith, Bool-cases, inl, inr, ltb, leb, lt→ltb, leb_of_lt,
}
use fortai.Libc.{Bytes, codes, c_str, case_starts_with}
use fortai.Http.Header.Lines.{IsLine, AllLines, text_of}
use fortai.Http.Access.{Env, Files, is_set, configured_keys, key_file, public_path}
use fortai.Http.Access.Decision.{HasNone, authorized_without_credential}
use fortai.Http.Socket.{SendOutcome}
use fortai.Http.Socket.Send.{Progresses, taking, send_all_total}
use fortai.Http.Reply.{
  Handler, Handled, done, wants, Answer, respond, handle_loop, dispatch, initial_response,
  max_response, unauthorized_body, header_text, header_size, http_status,
}

-- If a key or a key file is configured, a request that is no OPTIONS request, has no line with the
-- name "Authorization" or "X-Api-Key" and asks for no public path is answered by 401, and the
-- native handler does not run: its state is what it was. No line holds a CR or a NUL, and `malloc`
-- does not fail.
pub dispatch_without_credential :
    {S : Type 0} (env : Env) (files : Files) (handler : Handler S) (grows : List Bool) (s : S)
    (lines : List Bytes) (tail : Bytes)
    → AllLines lines
    → IsLine tail
    → HasNone (codes "Authorization") (lines ++ (tail ∷ []))
    → HasNone (codes "X-Api-Key") (lines ++ (tail ∷ []))
    → (is_set (configured_keys env) || is_set (key_file env)) ≡ true
    → public_path env (text_of lines ++ tail) ≡ false
    → case_starts_with (text_of lines ++ tail) (codes "OPTIONS ") ≡ false
    → dispatch env files handler (true ∷ grows) s (text_of lines ++ tail)
      ≡ (s, some (respond 401 (codes "application/json") unauthorized_body))
unfolding dispatch
dispatch_without_credential env files handler grows s lines tail h ht na nx c p o =
    rw (o, authorized_without_credential env files lines tail h ht na nx c p)

-- The handler's contract, `copy_result` of src/server/fortai_native_http.f90: each run comes to a
-- status, a body and the next state, whatever room it is given. With room for the body and a NUL it
-- returns the response, and else asks for that much. The content type fits into its buffer. Two runs
-- need not come to the same body.
pub record Contract {S : Type 0} (handler : Handler S) (request : Bytes) : Type 0 where
  pub status : S → ℕ
  pub mime : S → Bytes
  pub body : S → Bytes
  pub after : S → S
  pub runs :
      (s : S) (capacity : ℕ)
      → handler s request capacity ≡ (
        after s,
        if ltb (length (body s)) capacity
            then done (status s) (mime s) (body s)
            else wants (length (body s) + 1),
      )

-- the state after `k` runs
abbrev pub after_runs : {S : Type 0} → (S → S) → ℕ → S → S
after_runs after zero s = s
after_runs after (suc k) s = after_runs after k (after s)

-- From `s` and a buffer of this capacity, `k` runs refuse in turn, each asking for more than it is
-- given, and the one behind them has room.
abbrev pub Retries :
    {S : Type 0} {handler : Handler S} {request : Bytes}
    → Contract handler request
    → S
    → ℕ
    → ℕ
    → Type 0
Retries c s capacity zero = length (c.body s) < capacity
Retries c s capacity (suc k) =
    (capacity ≤ length (c.body s)) × Retries c (c.after s) (length (c.body s) + 1 + 1) k

-- calls of `realloc` that do not fail
abbrev pub all_grow : ℕ → List Bool
all_grow zero = []
all_grow (suc n) = true ∷ all_grow n

module _ {S : Type 0} (handler : Handler S) (request : Bytes) where
  loop-gives :
      (grows : Bool) (later : List Bool) (s s' : S) (capacity : ℕ) {status : ℕ} {mime body : Bytes}
      → handler s request capacity ≡ (s', done status mime body)
      → handle_loop handler (grows ∷ later) s request capacity
        ≡ (s', some (respond status mime body))
  unfolding handle_loop
  loop-gives grows later s s' capacity {status} {mime} {body} e =
      rw (e, handle_loop) (ap (λ (p : S × Handled). (p.0, some (respond status mime body))) e)

  loop-retries :
      (later : List Bool) (s s' : S) (capacity n : ℕ)
      → handler s request capacity ≡ (s', wants n)
      → (leb n 0 || ltb max_response n || not true) ≡ false
      → handle_loop handler (true ∷ later) s request capacity
        ≡ handle_loop handler later s' request (n + 1)
  unfolding handle_loop
  loop-retries later s s' capacity n e k =
      rw (e, k, handle_loop)
        (ap (λ (p : S × Handled). handle_loop handler later p.0 request (n + 1)) e)

module _ {S : Type 0} (handler : Handler S) (request : Bytes) (c : Contract handler request) where
  loop-done :
      (grows : Bool) (later : List Bool) (s : S) (capacity : ℕ)
      → length (c.body s) < capacity
      → handle_loop handler (grows ∷ later) s request capacity
        ≡ (c.after s, some (respond (c.status s) (c.mime s) (c.body s)))
  unfolding handle_loop
  loop-done grows later s capacity h =
      loop-gives handler request grows later s (c.after s) capacity
        (c.runs s capacity ∙ rw (lt→ltb (length (c.body s)) capacity h))

  loop-wants :
      (later : List Bool) (s : S) (capacity : ℕ)
      → capacity ≤ length (c.body s)
      → length (c.body s) + 1 ≤ max_response
      → handle_loop handler (true ∷ later) s request capacity
        ≡ handle_loop handler later (c.after s) request (length (c.body s) + 1 + 1)
  unfolding handle_loop
  loop-wants later s capacity h m =
      let refused : ltb (length (c.body s)) capacity ≡ false = ground arith in
      loop-retries handler request later s (c.after s) capacity (length (c.body s) + 1)
        (c.runs s capacity ∙ rw refused) (ground arith)

  -- the answer of run `k`
  abbrev pub answer_of : ℕ → S → S × Option Answer
  answer_of k s =
      let t = after_runs c.after k s in
      (c.after t, some (respond (c.status t) (c.mime t) (c.body t)))

  loop-answers :
      (limit : ℕ)
      → limit < max_response
      → ((s : S) → length (c.body s) ≤ limit)
      → (rounds : ℕ) (s : S) (capacity : ℕ) → limit < rounds + capacity
      → (k : ℕ) × (k ≤ rounds)
        × Retries c s capacity k
        × (handle_loop handler (all_grow (suc rounds)) s request capacity ≡ answer_of k s)
  loop-answers limit m bounded zero s capacity b =
      let fits : length (c.body s) < capacity = omega (arith, bounded s) in
      (0, omega arith, fits, loop-done true [] s capacity fits)
  loop-answers limit m bounded (suc rounds) s capacity b =
      elim (Bool-cases (ltb (length (c.body s)) capacity)) [
        | inl e ↦
            let fits : length (c.body s) < capacity = ground arith in
            (0, omega arith, fits, loop-done true (all_grow (suc rounds)) s capacity fits)
        | inr e' ↦
            let refused : capacity ≤ length (c.body s) = ground arith in
            let (k, few, retries, e) =
              loop-answers limit m bounded rounds (c.after s) (length (c.body s) + 1 + 1)
                (omega (arith, refused)) in
            (
              suc k,
              omega (arith, few),
              (refused, retries),
              loop-wants (all_grow (suc rounds)) s capacity refused (omega (arith, bounded s)) ∙ e,
            )
      ]

  -- The handler keeps its contract, no run comes to a body of more than `limit` bytes, which is below
  -- the limit of the server, and `realloc` does not fail. Then the loop ends, within as many retries as
  -- make up for `limit` above 64 KiB, with the status, the type and the body of the first run
  -- that has room for its body: each run before it got less room than its body needed, the first of
  -- them 64 KiB and each other one two bytes more than the body before it. The state is what that run
  -- leaves.
  pub handle_loop-Contract :
      (limit rounds : ℕ)
      → limit < max_response
      → ((s : S) → length (c.body s) ≤ limit)
      → limit < rounds + initial_response
      → (s : S)
      → (k : ℕ) × (k ≤ rounds)
        × Retries c s initial_response k
        × (handle_loop handler (all_grow (suc rounds)) s request initial_response ≡ answer_of k s)
  handle_loop-Contract limit rounds m bounded b s =
      loop-answers limit m bounded rounds s initial_response b

-- Where the header fits into its buffer, no call of `send` fails, and there is a call that takes
-- something for each byte, header and body reach the wire in full, and the result is 0.
pub http_status_total :
    (env : Env) (status : ℕ) (mime body origin : Bytes) (for_header for_body : List SendOutcome)
    → length (header_text env status mime (length body) (c_str origin)) < header_size
    → Progresses for_header
    → Progresses for_body
    → length (header_text env status mime (length body) (c_str origin)) ≤ taking for_header
    → length body ≤ taking for_body
    → http_status env status mime body origin for_header for_body
      ≡ (header_text env status mime (length body) (c_str origin) ++ body, true)
unfolding http_status
http_status_total env status mime body origin for_header for_body h p q m n = rw (
  leb_of_lt header_size (length (header_text env status mime (length body) (c_str origin))) h,
  send_all_total for_header (header_text env status mime (length body) (c_str origin)) p m,
  send_all_total for_body body q n,
)
