-- ===== src/Http/Socket/Receive.antt =====
-- `fortai_http_read_request` on a well-formed request, however its bytes arrive.
pub mod Head
pub mod Rounds
use fortai.Prelude.{
  ℕ, zero, suc, ◌+◌, ◌-◌, ◌*◌, ◌≤◌, ◌<◌, ◌≡◌, ◌≢◌, ◌⊎◌, inl, inr, refl, ap, sym, ◌∙◌, Bool, true,
  false, Option, none, some, List, [], ◌∷◌, ◌++◌, length, take, drop, arith, append_assoc,
  length-append, drop-length-append, take-length-append, drop_while, ltb, leb, ◌==◌, if◌then◌else◌,
  min, lt→ltb, ltb→lt, ltb→le, leb_of_le, leb_of_lt, Bool-cases, take-append-drop, length-drop,
  length-take,
}
use fortai.Libc.{Bytes, crlf, case_starts_with}
use fortai.Http.Header.Lines.{text_of}
use fortai.Http.Socket.Receive.Head.{
  AllHeadLines, head_end, content_length, length-text_of, examine_head, examine_partial,
}
use fortai.Http.Socket.{
  max_request, initial_capacity, line_value, length_name, Progress, more, refused, complete,
  examine, grow, RecvOutcome, gives, interrupted, ended, read_loop, read_request,
}
use fortai.Http.Socket.Receive.Rounds.{
  content_length_again, content_length-cases, prefix-split, take-split, Arrives, giving, HasRoom,
  has_room, grow_room, IsCons, is_cons, take_pos, chunk_fits, read_loop-interrupted, read_loop-more,
  read_loop-complete,
}

module _ (l : Bytes) (ls : List Bytes) (body rest : Bytes) (h : AllHeadLines (l ∷ ls))
    (sized : length body ≡ content_length 0 (l ∷ ls))
    (fits : head_end l ls + 4 + length body ≤ max_request) where
  abbrev request_bytes : Bytes
  request_bytes = text_of (l ∷ ls) ++ (crlf ++ body)

  -- What stands behind the head of what has arrived.
  abbrev tail_of : Bytes → Bytes
  tail_of part = drop (length (text_of (l ∷ ls) ++ crlf)) part

  regroup : text_of (l ∷ ls) ++ (crlf ++ (body ++ rest)) ≡ request_bytes ++ rest
  regroup = sym (append_assoc (text_of (l ∷ ls)) (crlf ++ body) rest)

  length-head : length (text_of (l ∷ ls) ++ crlf) ≡ head_end l ls + 4
  length-head = omega (arith, length-append {0} (text_of (l ∷ ls)) crlf, length-text_of l ls)

  length-request : length request_bytes ≡ head_end l ls + 4 + length body
  length-request =
      omega (arith, length-append {0} (text_of (l ∷ ls)) (crlf ++ body), length-text_of l ls)

  part_is :
      (part later : Bytes)
      → part ++ later ≡ text_of (l ∷ ls) ++ (crlf ++ (body ++ rest))
      → head_end l ls + 4 ≤ length part
      → part ≡ text_of (l ∷ ls) ++ (crlf ++ tail_of part)
  part_is part later e m =
      prefix-split part later (text_of (l ∷ ls) ++ crlf) (body ++ rest)
        (e ∙ sym (append_assoc (text_of (l ∷ ls)) crlf (body ++ rest))) (omega (arith, length-head))
      ∙ append_assoc (text_of (l ∷ ls)) crlf (tail_of part)

  examine_enough :
      (part later : Bytes) (found : ℕ)
      → part ++ later ≡ text_of (l ∷ ls) ++ (crlf ++ (body ++ rest))
      → content_length found (l ∷ ls) ≡ length body
      → head_end l ls + 4 + length body ≤ length part
      → examine part found ≡ complete request_bytes
  examine_enough part later found e c m = rw (part_is part later e (omega arith)) (
      examine_head l ls (tail_of part) found h (omega arith)
      ∙ rw (← part_is part later e (omega arith), c, leb_of_le _ _ m)
          (ap complete (take-split _ part later request_bytes rest (e ∙ regroup) length-request m)))

  examine_short :
      (part later : Bytes) (found : ℕ)
      → part ++ later ≡ text_of (l ∷ ls) ++ (crlf ++ (body ++ rest))
      → content_length found (l ∷ ls) ≡ length body
      → length part < head_end l ls + 4 + length body
      → (f : ℕ) × (examine part found ≡ more f) × (content_length f (l ∷ ls) ≡ length body)
  examine_short part later found e c m = elim (Bool-cases (ltb (length part) (head_end l ls + 4))) [
    | inl early ↦
        (found, examine_partial l ls part later (body ++ rest) found h e (ltb→lt _ _ early), c)
    | inr late ↦ (
      content_length found (l ∷ ls),
      rw (part_is part later e (ltb→le _ _ late)) (
          examine_head l ls (tail_of part) found h (omega arith)
          ∙ rw (← part_is part later e (ltb→le _ _ late), c, leb_of_lt _ _ m)),
      content_length_again (l ∷ ls) found ∙ c,
    )
  ]

  length-stream :
      (stream request : Bytes)
      → request ++ stream ≡ text_of (l ∷ ls) ++ (crlf ++ (body ++ rest))
      → length request < head_end l ls + 4 + length body
      → 0 < length stream
  length-stream stream request e s = omega (
    arith,
    ap length (e ∙ regroup),
    length-append {0} request stream,
    length-append {0} request_bytes rest,
    length-request,
  )

  -- A round that gives some bytes, on what the later rounds do.
  read_loop-round :
      (os : List RecvOutcome) (stream request : Bytes) (n capacity room found x : ℕ) (xs : Bytes)
      → grow capacity (length request) ≡ some room
      → take (min n (room - length request)) stream ≡ x ∷ xs
      → request ++ stream ≡ text_of (l ∷ ls) ++ (crlf ++ (body ++ rest))
      → content_length found (l ∷ ls) ≡ length body
      → length request < head_end l ls + 4 + length body
      → ((f : ℕ)
          → (request ++ (x ∷ xs)) ++ drop (min n (room - length request)) stream
            ≡ text_of (l ∷ ls) ++ (crlf ++ (body ++ rest))
          → content_length f (l ∷ ls) ≡ length body
          → length (request ++ (x ∷ xs)) < head_end l ls + 4 + length body
          → read_loop os (drop (min n (room - length request)) stream) room (request ++ (x ∷ xs)) f
            ≡ some request_bytes)
      → read_loop (gives n ∷ os) stream capacity request found ≡ some request_bytes
  read_loop-round os stream request n capacity room found x xs roomy chunk e c short later =
      elim (Bool-cases (ltb (length (request ++ (x ∷ xs))) (head_end l ls + 4 + length body))) [
        | inl part ↦
            let (f, more_e, c') =
              examine_short (request ++ (x ∷ xs)) rest' found split c (ltb→lt _ _ part) in
            read_loop-more os stream request n capacity room found x xs small roomy chunk f more_e
            ∙ later f split c' (ltb→lt _ _ part)
        | inr all ↦
            read_loop-complete os stream request n capacity room found x xs small roomy chunk
              request_bytes
              (examine_enough (request ++ (x ∷ xs)) rest' found split c (ltb→le _ _ all))
      ]
    where
      rest' : Bytes
      rest' = drop (min n (room - length request)) stream

      small : ltb (length request) max_request ≡ true
      small = lt→ltb (length request) max_request (omega arith)

      split : (request ++ (x ∷ xs)) ++ rest' ≡ text_of (l ∷ ls) ++ (crlf ++ (body ++ rest))
      split =
          append_assoc request (x ∷ xs) rest'
          ∙ ap (λ (t : Bytes). request ++ t)
              (rw chunk at (take-append-drop (min n (room - length request)) stream))
          ∙ e

  read_loop_lem :
      (outcomes : List RecvOutcome) (stream request : Bytes) (capacity found : ℕ)
      → Arrives outcomes
      → request ++ stream ≡ text_of (l ∷ ls) ++ (crlf ++ (body ++ rest))
      → content_length found (l ∷ ls) ≡ length body
      → length request < head_end l ls + 4 + length body
      → length request ≤ capacity
      → 0 < capacity
      → capacity ≤ max_request
      → head_end l ls + 4 + length body ≤ length request + giving outcomes
      → read_loop outcomes stream capacity request found ≡ some request_bytes
  read_loop_lem [] stream request capacity found a e c short u p m g = absurd (omega arith)
  read_loop_lem (ended ∷ os) stream request capacity found a e c short u p m g = absurd a
  read_loop_lem (interrupted ∷ os) stream request capacity found a e c short u p m g =
      elim (grow_room capacity (length request) u p m (omega arith)) [
        | has_room room roomy below bound ↦
            read_loop-interrupted os stream request capacity room found
              (lt→ltb (length request) max_request (omega arith)) roomy
            ∙ read_loop_lem os stream request room found a e c short (omega arith) (omega arith)
                bound g
      ]
  read_loop_lem (gives n ∷ os) stream request capacity found a e c short u p m g =
      elim (grow_room capacity (length request) u p m (omega arith)) [
        | has_room room roomy below bound ↦
            elim (take_pos (min n (room - length request)) stream (omega arith)
              (length-stream stream request e short)) [
                | is_cons x xs chunk ↦
                    read_loop-round os stream request n capacity room found x xs roomy chunk e c
                      short
                      λ f e' c' short'.
                        read_loop_lem os (drop (min n (room - length request)) stream)
                          (request ++ (x ∷ xs)) room f a.1 e' c' short'
                          (chunk_fits (min n (room - length request)) stream request x xs room chunk
                            below (omega arith))
                          (omega arith) bound (omega (arith, length-append {0} request (x ∷ xs)))
              ]
      ]

  -- However the bytes of a well-formed request are cut into the results of `recv`, and whatever
  -- follows it on the connection, `fortai_http_read_request` returns exactly the request: its
  -- lines are not empty and hold no CR or NUL, a "Content-Length:" has its value on its line, the
  -- body has the length that the lines say, and all of it fits into the limit. The calls give at
  -- least a byte each, and are as many as the request has bytes; interruptions do no harm.
  pub read_request-well_formed :
      (outcomes : List RecvOutcome)
      → Arrives outcomes
      → head_end l ls + 4 + length body ≤ giving outcomes
      → read_request outcomes (text_of (l ∷ ls) ++ (crlf ++ (body ++ rest)))
        ≡ some (text_of (l ∷ ls) ++ (crlf ++ body))
  unfolding read_request
  read_request-well_formed outcomes a g =
      read_loop_lem outcomes (text_of (l ∷ ls) ++ (crlf ++ (body ++ rest))) [] initial_capacity 0 a
        refl (sym sized) (omega arith) (omega arith) (omega arith) (omega arith) (omega arith)
