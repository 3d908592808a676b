-- ===== src/Http/Tests/Wire.antt =====
-- Uses of the theorems on sending, receiving and responding, at concrete inputs.
use fortai.Prelude.{
  ℕ, zero, suc, ◌+◌, ◌==◌, ◌≤◌, ◌≡◌, refl, true, none, some, List, [], ◌∷◌, ◌++◌, length, arith,
  if◌then◌else◌, ltb,
}
use fortai.Libc.{Bytes, codes, crlf, has_char, strstr, case_starts_with, digits_value}
use fortai.Http.Header.Lines.{text_of}
use fortai.Http.Access.{Env}
use fortai.Http.Socket.{
  SendOutcome, takes, retried, failed, send_all, RecvOutcome, gives, interrupted, read_request,
  separator, line_value, strtoull, signed_value,
}
use fortai.Http.Socket.Send.{Progresses, send_all_total}
use fortai.Http.Socket.Receive.Rounds.{Arrives}
use fortai.Http.Socket.Receive.{read_request-well_formed}
use fortai.Http.Reply.{header_text, Handler, done, wants, handle_loop, initial_response}
use fortai.Http.Reply.Framing.{header_text_framed, header_text_unframed}
use fortai.Http.Reply.Dispatch.{Contract, Retries, all_grow, answer_of, handle_loop-Contract}

abbrev some_failing : List SendOutcome
some_failing = takes 2 ∷ retried ∷ failed ∷ []

abbrev some_sends : List SendOutcome
some_sends = retried ∷ takes 3 ∷ retried ∷ takes 1 ∷ takes 5 ∷ []

send_total_example : send_all some_sends (codes "hey") ≡ (codes "hey", true)
send_total_example =
    send_all_total some_sends (codes "hey") (omega arith, (omega arith, (omega arith, tt)))
      (omega arith)

abbrev pub chunks : ℕ → List RecvOutcome
chunks zero = []
chunks (suc n) = gives 3 ∷ interrupted ∷ chunks n

pub chunks_arrive : (n : ℕ) → Arrives (chunks n)
chunks_arrive zero = tt
chunks_arrive (suc n) = (omega arith, chunks_arrive n)

read_example :
    read_request (chunks 40) (
      text_of (codes "POST / HTTP/1.1" ∷ codes "Content-Length: 2" ∷ [])
      ++ (crlf ++ (codes "{}" ++ codes "more")))
    ≡ some
        (text_of (codes "POST / HTTP/1.1" ∷ codes "Content-Length: 2" ∷ []) ++ (crlf ++ codes "{}"))
unfolding has_char line_value strtoull signed_value digits_value case_starts_with
read_example =
    read_request-well_formed (codes "POST / HTTP/1.1") (codes "Content-Length: 2" ∷ []) (codes "{}")
      (codes "more")
      (((refl, refl), (λ e. cc), λ e. cc), (((refl, refl), (λ e. cc), λ e n. cc), tt)) refl
      (omega arith) (chunks 40) (chunks_arrive 40) (omega arith)

abbrev empty_env : Env
empty_env name = none

framed_example :
    (i : ℕ) × (strstr
        (header_text empty_env 200 (codes "text/plain") (length (codes "hi")) [] ++ codes "hi")
        separator
      ≡ some i)
    × (length (header_text empty_env 200 (codes "text/plain") (length (codes "hi")) []) ≡ i + 4)
unfolding has_char
framed_example =
    header_text_framed empty_env 200 (codes "text/plain") (codes "hi") (λ name. refl)
      (refl, refl, refl)

unframed_example :
    strstr (header_text empty_env 200 (codes "text/plain") 2 (codes "http://a.test")) separator
    ≡ none
unfolding has_char
unframed_example =
    header_text_unframed empty_env 200 (codes "text/plain") 2 (codes "http://a.test") (λ name. refl)
      (refl, refl, refl) (refl, refl, refl) (λ e. cc)

abbrev filler : ℕ → Bytes
filler zero = []
filler (suc n) = b'a' ∷ filler n

length-filler : (n : ℕ) → length (filler n) ≡ n
length-filler zero = refl
length-filler (suc n) = omega (arith, length-filler n)

-- The first body is as long as the buffer, the second 3 bytes longer, so that it does not fit
-- either, and the others are short.
abbrev body_size : ℕ → ℕ
body_size s = if s == 0 then 65536 else if s == 1 then 65539 else 2

-- a handler that counts its runs
abbrev counting : Handler ℕ
counting s request capacity = (
  s + 1,
  if ltb (length (filler (body_size s))) capacity
      then done 200 (codes "text/plain") (filler (body_size s))
      else wants (length (filler (body_size s)) + 1),
)

abbrev counting_contract : Contract counting (codes "GET / ")
counting_contract = record {
  status = λ s. 200;
  mime = λ s. codes "text/plain";
  body = λ s. filler (body_size s);
  after = λ s. s + 1;
  runs = λ s capacity. refl;
}

counting_bounded : (s : ℕ) → length (filler (body_size s)) ≤ 65539
counting_bounded s = ground (arith, length-filler (body_size s))

handle_example :
    (k : ℕ) × (k ≤ 4)
    × Retries counting_contract 0 initial_response k
    × (handle_loop counting (all_grow 5) 0 (codes "GET / ") initial_response
        ≡ answer_of counting (codes "GET / ") counting_contract k 0)
handle_example =
    handle_loop-Contract counting (codes "GET / ") counting_contract 65539 4 (omega arith)
      counting_bounded (omega arith) 0

abbrev pub sends : ℕ → List SendOutcome
sends zero = []
sends (suc n) = takes 1000 ∷ sends n

pub sends_progress : (n : ℕ) → Progresses (sends n)
sends_progress zero = tt
sends_progress (suc n) = (omega arith, sends_progress n)
