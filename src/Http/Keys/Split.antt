-- ===== src/Http/Keys/Split.antt =====
-- The entries of a comma-separated list, described by splitting at the commas.
use fortai.Prelude.{
  ℕ, zero, suc, ◌-◌, ◌≤◌, ◌<◌, ◌≡◌, ◌≢◌, refl, ◌∙◌, sym, Bool, true, false, ◌||◌, List, [], ◌∷◌,
  ◌==◌, if◌then◌else◌, length, drop, drop_while, take_while, arith, Bool-cases, inl, inr,
  length-drop_while-le, length-drop,
}
use fortai.Libc.{Bytes, codes, is_blank, str_eq, case_eq, trim_end}
use fortai.Http.Keys.{
  is_gap, is_key_end, not_comma, next_entry, entry_loop, key_equals, cors_origin_allowed,
}

push : ℕ → List Bytes → List Bytes
push c [] = (c ∷ []) ∷ []
push c (l ∷ ls) = (c ∷ l) ∷ ls

-- The pieces between the commas; there is always one.
unfoldable pub split_commas : Bytes → List Bytes
unfolding push
split_commas [] = [] ∷ []
split_commas (c ∷ cs) = if c == b',' then [] ∷ split_commas cs else push c (split_commas cs)

-- Some piece passes the test once its ends are trimmed.
unfoldable pub any_entry : (ℕ → Bool) → (Bytes → Bool) → List Bytes → Bool
any_entry is_end test [] = false
any_entry is_end test (l ∷ ls) =
    test (trim_end is_end (drop_while is_blank l)) || any_entry is_end test ls

split_blank :
    (c : ℕ) (cs : Bytes) → is_blank c ≡ true → split_commas (c ∷ cs) ≡ push c (split_commas cs)
unfolding split_commas
split_blank c cs h = ground arith

split_comma :
    (c : ℕ) (cs : Bytes) → (c == b',') ≡ true → split_commas (c ∷ cs) ≡ [] ∷ split_commas cs
unfolding split_commas
split_comma c cs h = rw h

-- the pieces behind the first one, from the comma on
tail_pieces : Bytes → List Bytes
tail_pieces [] = []
tail_pieces (x ∷ rest) = split_commas rest

split_shape :
    (s : Bytes) → split_commas s ≡ take_while not_comma s ∷ tail_pieces (drop_while not_comma s)
unfolding split_commas push tail_pieces
split_shape [] = refl
split_shape (c ∷ cs) = ground (arith, split_shape cs)

drop_while_entry :
    (s : Bytes)
    → drop_while is_blank (take_while not_comma (drop_while is_gap s))
      ≡ take_while not_comma (drop_while is_gap s)
drop_while_entry [] = refl
drop_while_entry (c ∷ cs) = ground (arith, drop_while_entry cs)

length-next_entry : (s : Bytes) → length (next_entry (drop_while is_gap s)) ≤ length s - 1
length-next_entry s = omega (
  arith,
  length-drop {0} 1 (drop_while not_comma (drop_while is_gap s)),
  length-drop_while-le {0} not_comma (drop_while is_gap s),
  length-drop_while-le {0} is_gap s,
)

if-or : (a b : Bool) → (if a then true else b) ≡ (a || b)
if-or true b = refl
if-or false b = refl

module _ (is_end : ℕ → Bool) (test : Bytes → Bool) (no_empty : test [] ≡ false) where
  any_entry-push_blank :
      (c : ℕ) (ls : List Bytes)
      → is_blank c ≡ true
      → any_entry is_end test (push c ls) ≡ any_entry is_end test ls
  unfolding any_entry push trim_end
  any_entry-push_blank c [] h = rw h (rw no_empty)
  any_entry-push_blank c (l ∷ ls) h = rw h

  any_entry-nil : (ls : List Bytes) → any_entry is_end test ([] ∷ ls) ≡ any_entry is_end test ls
  unfolding any_entry trim_end
  any_entry-nil ls = rw no_empty

  any_entry_gap :
      (s : Bytes)
      → any_entry is_end test (split_commas s)
        ≡ any_entry is_end test (split_commas (drop_while is_gap s))
  any_entry_gap [] = refl
  any_entry_gap (c ∷ cs) = elim (Bool-cases (is_blank c)) [
    | inl blank ↦
        rw (blank, split_blank c cs blank)
          (any_entry-push_blank c (split_commas cs) blank ∙ any_entry_gap cs)
    | inr other ↦ rw other (elim (Bool-cases (c == b',')) [
      | inl comma ↦
          rw (comma, split_comma c cs comma) (any_entry-nil (split_commas cs) ∙ any_entry_gap cs)
      | inr more ↦ rw more
    ])
  ]

  any_entry_empty : any_entry is_end test (split_commas []) ≡ false
  unfolding split_commas
  any_entry_empty = any_entry-nil [] ∙ (unfold any_entry in refl)

  any_entry-rest :
      (rest l : Bytes)
      → any_entry is_end test (l ∷ tail_pieces rest) ≡ (
          test (trim_end is_end (drop_while is_blank l))
          || any_entry is_end test (split_commas (drop 1 rest)))
  unfolding any_entry tail_pieces
  any_entry-rest [] l = rw any_entry_empty
  any_entry-rest (x ∷ rest) l = refl

  split_commas-cons :
      (s : Bytes)
      → any_entry is_end test (split_commas s) ≡ (
          test (trim_end is_end (drop_while is_blank (take_while not_comma s)))
          || any_entry is_end test (split_commas (next_entry s)))
  unfolding any_entry
  split_commas-cons s =
      rw (split_shape s) (any_entry-rest (drop_while not_comma s) (take_while not_comma s))

  -- With enough rounds the loop answers for the pieces.
  entry_loop-any_entry :
      (fuel : ℕ) (s : Bytes)
      → length s < fuel
      → entry_loop fuel is_end test s ≡ any_entry is_end test (split_commas s)
  unfolding entry_loop
  entry_loop-any_entry zero s h = absurd (omega arith)
  entry_loop-any_entry (suc fuel) [] h = sym (any_entry_empty)
  entry_loop-any_entry (suc fuel) (c ∷ cs) h =
      rw
        (
          drop_while_entry (c ∷ cs),
          entry_loop-any_entry fuel (next_entry (drop_while is_gap (c ∷ cs)))
              (omega (arith, length-next_entry (c ∷ cs))),
        )
        (if-or (test _) _)
      ∙ sym (any_entry_gap (c ∷ cs) ∙ split_commas-cons (drop_while is_gap (c ∷ cs)))

-- `fortai_key_equals` accepts a candidate that is not empty exactly when one of the pieces between
-- the commas of `configured`, cut of ' ' and '\t' in front and of ' ', '\t', CR and LF behind, is
-- the candidate.
pub key_equals-any_entry :
    (configured candidate : Bytes)
    → candidate ≢ []
    → key_equals configured candidate
      ≡ any_entry is_key_end (λ entry. str_eq entry candidate) (split_commas configured)
unfolding key_equals
key_equals-any_entry configured candidate h =
    entry_loop-any_entry is_key_end (λ entry. str_eq entry candidate) (nil-ne candidate h)
      (suc (length configured)) configured (omega arith)
  where
    nil-ne : (b : Bytes) → b ≢ [] → str_eq [] b ≡ false
    nil-ne [] n = absurd (n refl)
    nil-ne (x ∷ b) n = refl

-- A setting other than "*" and "localhost" admits an origin exactly when the origin is, up to the
-- case of letters, one of the pieces between the commas, cut of ' ' and '\t' at both ends.
pub cors_origin_allowed-any_entry :
    (configured : Bytes) (o : ℕ) (os : Bytes)
    → str_eq configured (codes "*") ≡ false
    → case_eq configured (codes "localhost") ≡ false
    → cors_origin_allowed configured (o ∷ os)
      ≡ any_entry is_blank (λ entry. case_eq entry (o ∷ os)) (split_commas configured)
unfolding cors_origin_allowed
cors_origin_allowed-any_entry configured o os h k =
    rw (h, k)
      (entry_loop-any_entry is_blank (λ entry. case_eq entry (o ∷ os)) refl
        (suc (length configured)) configured (omega arith))
