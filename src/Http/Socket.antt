-- ===== src/Http/Socket.antt =====
-- The byte transfer of src/server/fortai_http_server.c: `fortai_send_all` over the outcomes of
-- `send`, and `fortai_http_read_request` over the outcomes of `recv`. The outcomes are chosen by
-- the kernel and the peer, so they are arguments; the allocations succeed.
pub mod Send
pub mod Receive
use fortai.Prelude.{
  ℕ, zero, suc, ◌+◌, ◌-◌, ◌*◌, ◌^◌, ◌%◌, Bool, true, false, not, ◌&&◌, ◌||◌, Option, none, some,
  List, [], ◌∷◌, ◌++◌, ltb, leb, ◌==◌, if◌then◌else◌, length, take, drop, drop_while, min,
}
use fortai.Libc.{
  Bytes, codes, crlf, is_space, is_digit, digits_value, strstr, starts_with, case_starts_with,
}

-- What one call of `send` does: it takes up to `n` of the bytes, is interrupted, or fails.
pub data SendOutcome : Type 0 where
  takes : ℕ → SendOutcome
  retried failed : SendOutcome

-- `fortai_send_all`: what reaches the wire, and whether it returns 0. An empty rest ends the loop;
-- no more outcomes stand for a connection that fails.
unfoldable pub send_all : List SendOutcome → Bytes → Bytes × Bool
send_all outcomes [] = ([], true)
send_all [] (c ∷ cs) = ([], false)
send_all (failed ∷ outcomes) (c ∷ cs) = ([], false)
send_all (retried ∷ outcomes) (c ∷ cs) = send_all outcomes (c ∷ cs)
send_all (takes zero ∷ outcomes) (c ∷ cs) = ([], false)
send_all (takes (suc n) ∷ outcomes) (c ∷ cs) =
    let (wire, sent) = send_all outcomes (drop n cs) in (c ∷ (take n cs ++ wire), sent)

abbrev pub max_request : ℕ
max_request = 16 * 1024 * 1024

abbrev pub initial_capacity : ℕ
initial_capacity = 65536

-- `"\r\n\r\n"`
abbrev pub separator : Bytes
separator = b'\r' ∷ b'\n' ∷ b'\r' ∷ b'\n' ∷ []

abbrev pub ullong_max : ℕ
ullong_max = 2 ^ 64 - 1

abbrev pub clamped : ℕ → ℕ
clamped n = min n ullong_max

-- modulo 2^64, if the number itself fits
abbrev pub negated : ℕ → ℕ
negated n = if leb n ullong_max then (2 ^ 64 - n) % 2 ^ 64 else ullong_max

-- from the first byte that is no white space: an optional sign, and digits
unfoldable pub signed_value : Bytes → ℕ
signed_value [] = 0
signed_value (c ∷ cs) =
    if c == b'+'
    then clamped (digits_value 0 cs)
    else if c == b'-'
    then negated (digits_value 0 cs)
    else clamped (digits_value 0 (c ∷ cs))

-- `strtoull(s, NULL, 10)`: too large a number gives the largest.
unfoldable pub strtoull : Bytes → ℕ
strtoull s = signed_value (drop_while is_space s)

-- `"Content-Length:"`
abbrev pub length_name : Bytes
length_name = codes "Content-Length:"

-- what a line makes of `content_length`
unfoldable pub line_value : Bytes → ℕ → ℕ
line_value line found = if case_starts_with line length_name then strtoull (drop 15 line) else found

-- The loop over the header lines, from `line` on, with `left` bytes before the separator.
unfoldable pub length_loop : ℕ → Bytes → ℕ → ℕ → ℕ
length_loop zero line left found = found
length_loop (suc fuel) line left found = elim (ltb 0 left) [
  | false ↦ found
  | true ↦ elim (strstr line crlf) [
    | none ↦ found
    | some i ↦ elim (ltb left i) [
      | true ↦ found
      | false ↦ length_loop fuel (drop (i + 2) line) (left - (i + 2)) (line_value line found)
    ]
  ]
]

-- What one call of `recv` does: it gives up to `n` of the bytes that the peer still sends, is
-- interrupted, or reports the end or an error.
pub data RecvOutcome : Type 0 where
  gives : ℕ → RecvOutcome
  interrupted ended : RecvOutcome

-- The buffer's capacity for the next call; nothing where it cannot grow.
unfoldable pub grow : ℕ → ℕ → Option ℕ
grow capacity used =
    let grown = min (capacity * 2) max_request in
    if not (capacity == used) then some capacity else if grown == capacity then none else some grown

-- What the loop knows after the bytes of a call are in the buffer.
pub data Progress : Type 0 where
  more : ℕ → Progress
  refused : Progress
  complete : Bytes → Progress

-- The part of a round behind `recv`: the separator, the length, the limit, and the end.
unfoldable pub examine : Bytes → ℕ → Progress
examine request found = elim (strstr request separator) [
  | none ↦ more found
  | some s ↦
      let content_length = length_loop (suc (length request)) request s found in
      let header_end = s + 4 in
      if ltb max_request content_length || ltb (max_request - content_length) header_end
      then refused
      else if leb (header_end + content_length) (length request)
      then complete (take (header_end + content_length) request)
      else more content_length
]

-- The loop of `fortai_http_read_request`: the request, or nothing for -1. `stream` is what the
-- peer still sends; `recv` gives at most the room that is asked for, and no byte at its end.
unfoldable pub read_loop : List RecvOutcome → Bytes → ℕ → Bytes → ℕ → Option Bytes
read_loop [] stream capacity request found = none
read_loop (o ∷ outcomes) stream capacity request found = elim (ltb (length request) max_request) [
  | false ↦ none
  | true ↦ elim (grow capacity (length request)) [
    | none ↦ none
    | some room ↦ elim o [
      | interrupted ↦ read_loop outcomes stream room request found
      | ended ↦ none
      | gives n ↦
          let k = min n (room - length request) in
          elim (take k stream) [
            | [] ↦ none
            | c ∷ cs ↦ elim (examine (request ++ (c ∷ cs)) found) [
              | refused ↦ none
              | complete r ↦ some r
              | more found' ↦ read_loop outcomes (drop k stream) room (request ++ (c ∷ cs)) found'
            ]
          ]
    ]
  ]
]

-- `fortai_http_read_request`
unfoldable pub read_request : List RecvOutcome → Bytes → Option Bytes
unfolding read_loop grow examine length_loop line_value strtoull signed_value digits_value strstr
    case_starts_with
read_request outcomes stream = read_loop outcomes stream initial_capacity [] 0
