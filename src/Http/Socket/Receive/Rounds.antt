-- ===== src/Http/Socket/Receive/Rounds.antt =====
-- The single rounds of `fortai_http_read_request`, and what its buffer holds between them.
use fortai.Prelude.{
  ℕ, zero, suc, ◌-◌, ◌*◌, ◌≤◌, ◌<◌, ◌≡◌, ◌⊎◌, inl, inr, refl, ap, ◌∙◌, true, some, List, [], ◌∷◌,
  ◌++◌, length, take, drop, arith, length-append, take-length-append, ltb, ◌==◌, min, Bool-cases,
  length-take,
}
use fortai.Libc.{Bytes, case_starts_with}
use fortai.Http.Socket.Receive.Head.{content_length}
use fortai.Http.Socket.{
  max_request, line_value, length_name, more, complete, examine, grow, RecvOutcome, gives,
  interrupted, ended, read_loop,
}

-- Either no line has the name, or what was found before does not matter.
pub content_length-cases :
    (ls : List Bytes)
    → ((f : ℕ) → content_length f ls ≡ f) ⊎ ((f g : ℕ) → content_length f ls ≡ content_length g ls)
unfolding line_value
content_length-cases [] = inl (λ f. refl)
content_length-cases (l ∷ ls) = elim (content_length-cases ls) [
  | inr const ↦ inr (λ f g. const (line_value l f) (line_value l g))
  | inl id ↦ elim (Bool-cases (case_starts_with l length_name)) [
    | inl e ↦ inr (λ f g. rw e)
    | inr e ↦ inl (λ f. id (line_value l f) ∙ rw e)
  ]
]

pub content_length_again :
    (ls : List Bytes) (f : ℕ) → content_length (content_length f ls) ls ≡ content_length f ls
content_length_again ls f = elim (content_length-cases ls) [
  | inl id ↦ id (content_length f ls)
  | inr const ↦ const (content_length f ls) f
]

-- The front of a split is the front of the other one, as far as it goes.
pub prefix-split :
    (a b c d : Bytes) → a ++ b ≡ c ++ d → length c ≤ length a → a ≡ c ++ drop (length c) a
prefix-split a b [] d e h = refl
prefix-split [] b (x ∷ c) d e h = absurd (omega arith)
prefix-split (y ∷ a) b (x ∷ c) d e h = ground (arith, prefix-split a b c d)

pub take-split :
    (n : ℕ) (a b c d : Bytes) → a ++ b ≡ c ++ d → length c ≡ n → n ≤ length a → take n a ≡ c
take-split n a b c d e l h =
    rw (← l, prefix-split a b c d e (omega arith)) (take-length-append c (drop (length c) a))

-- No end and no error, and each call that gives something gives a byte at least.
abbrev pub Arrives : List RecvOutcome → Type 0
Arrives [] = Unit {0}
Arrives (gives n ∷ os) = (1 ≤ n) × Arrives os
Arrives (interrupted ∷ os) = Arrives os
Arrives (ended ∷ os) = ⊥

abbrev pub giving : List RecvOutcome → ℕ
giving [] = 0
giving (gives n ∷ os) = suc (giving os)
giving (_ ∷ os) = giving os

-- There is room for the next call.
pub data HasRoom (capacity used : ℕ) : Type 0 where
  has_room :
      (room : ℕ)
      → grow capacity used ≡ some room
      → used < room
      → room ≤ max_request
      → HasRoom capacity used

pub grow_room :
    (capacity used : ℕ)
    → used ≤ capacity
    → 0 < capacity
    → capacity ≤ max_request
    → used < max_request
    → HasRoom capacity used
unfolding grow
grow_room capacity used h p m u = elim (Bool-cases (capacity == used)) [
  | inl e ↦ has_room (min (capacity * 2) max_request) (ground arith) (ground arith) (ground arith)
  | inr e ↦ has_room capacity (rw e) (ground arith) m
]

pub data IsCons (s : Bytes) : Type 0 where
  is_cons : (c : ℕ) (cs : Bytes) → s ≡ c ∷ cs → IsCons s

pub take_pos : (k : ℕ) (s : Bytes) → 0 < k → 0 < length s → IsCons (take k s)
take_pos zero s h p = absurd (omega arith)
take_pos (suc k) [] h p = absurd (omega arith)
take_pos (suc k) (c ∷ s) h p = is_cons c (take k s) refl

pub chunk_fits :
    (k : ℕ) (stream request : Bytes) (x : ℕ) (xs : Bytes) (room : ℕ)
    → take k stream ≡ x ∷ xs
    → length request < room
    → k ≤ room - length request
    → length (request ++ (x ∷ xs)) ≤ room
chunk_fits k stream request x xs room e b m =
    omega (arith, length-append {0} request (x ∷ xs), length-take {0} k stream, ap length e)

pub read_loop-interrupted :
    (os : List RecvOutcome) (stream request : Bytes) (capacity room found : ℕ)
    → ltb (length request) max_request ≡ true
    → grow capacity (length request) ≡ some room
    → read_loop (interrupted ∷ os) stream capacity request found
      ≡ read_loop os stream room request found
unfolding read_loop
read_loop-interrupted os stream request capacity room found s e = rw (s, e, read_loop)

-- One round that leaves the request unfinished, and one that ends it.
module _ (os : List RecvOutcome) (stream request : Bytes) (n capacity room found c : ℕ) (cs : Bytes)
    (small : ltb (length request) max_request ≡ true)
    (roomy : grow capacity (length request) ≡ some room)
    (chunk : take (min n (room - length request)) stream ≡ c ∷ cs) where
  pub read_loop-more :
      (f : ℕ)
      → examine (request ++ (c ∷ cs)) found ≡ more f
      → read_loop (gives n ∷ os) stream capacity request found
        ≡ read_loop os (drop (min n (room - length request)) stream) room (request ++ (c ∷ cs)) f
  unfolding read_loop
  read_loop-more f e = rw (small, roomy, chunk, e, read_loop)

  pub read_loop-complete :
      (r : Bytes)
      → examine (request ++ (c ∷ cs)) found ≡ complete r
      → read_loop (gives n ∷ os) stream capacity request found ≡ some r
  unfolding read_loop
  read_loop-complete r e = rw (small, roomy, chunk, e, read_loop)
