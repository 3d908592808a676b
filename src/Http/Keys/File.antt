-- ===== src/Http/Keys/File.antt =====
-- The key file, described by its lines.
use fortai.Prelude.{
  ℕ, zero, suc, ◌<◌, ◌≡◌, ◌⊎◌, refl, ◌∙◌, Bool, true, false, ◌||◌, some, List, [], ◌∷◌, ◌++◌,
  length, drop_while, arith, Bool-cases, inl, inr, length-append,
}
use mathlib.Core.Path.{subst}
use fortai.Libc.{Bytes, is_space, trim_end, has_char, c_str}
use fortai.Http.Keys.{
  line_room, fgets, entry_matches, line_matches, file_loop, api_key_file_matches,
}

abbrev pub newline : Bytes
newline = b'\n' ∷ []

-- A line that `fgets` reads in one call: no newline, no NUL, at most 1022 bytes.
abbrev pub IsFileLine : Bytes → Type 0
IsFileLine l = (has_char b'\n' l ≡ false) × (has_char 0 l ≡ false) × (length l < line_room)

abbrev pub AllFileLines : List Bytes → Type 0
AllFileLines [] = Unit {0}
AllFileLines (l ∷ ls) = IsFileLine l × AllFileLines ls

abbrev pub file_of : List Bytes → Bytes
file_of [] = []
file_of (l ∷ ls) = l ++ (newline ++ file_of ls)

-- Some line, without its newline, is the candidate once trimmed, and is no comment.
unfoldable any_line : Bytes → List Bytes → Bool
any_line candidate [] = false
any_line candidate (l ∷ ls) = line_matches candidate l || any_line candidate ls

fgets_line :
    (room : ℕ) (l r : Bytes)
    → has_char b'\n' l ≡ false
    → length l < room
    → fgets room (l ++ (newline ++ r)) ≡ (l ++ newline, r)
unfolding fgets has_char
fgets_line zero l r h k = absurd (omega arith)
fgets_line (suc room) [] r h k = refl
fgets_line (suc room) (c ∷ l) r h k = ground (arith, fgets_line room l r)

c_str-newline : (l : Bytes) → has_char 0 l ≡ false → c_str (l ++ newline) ≡ c_str l ++ newline
unfolding has_char
c_str-newline [] h = refl
c_str-newline (c ∷ l) h = ground (arith, c_str-newline l)

trim_end-newline : (l : Bytes) → trim_end is_space (l ++ newline) ≡ trim_end is_space l
unfolding trim_end
trim_end-newline [] = refl
trim_end-newline (c ∷ l) = rw (trim_end-newline l)

drop_while-newline :
    (l : Bytes)
    → ((drop_while is_space l ≡ []) × (drop_while is_space (l ++ newline) ≡ []))
      ⊎ ((c : ℕ) × (cs : Bytes) × (drop_while is_space l ≡ c ∷ cs)
          × (drop_while is_space (l ++ newline) ≡ c ∷ (cs ++ newline)))
drop_while-newline [] = inl (refl, refl)
drop_while-newline (c ∷ l) = elim (Bool-cases (is_space c)) [
  | inl h ↦ rw h (drop_while-newline l)
  | inr h ↦ inr (c, l, rw h, rw h)
]

entry_matches-newline :
    (candidate : Bytes) (c : ℕ) (cs : Bytes)
    → entry_matches candidate (c ∷ (cs ++ newline)) ≡ entry_matches candidate (c ∷ cs)
unfolding entry_matches
entry_matches-newline candidate c cs = rw (entry_matches, trim_end-newline (c ∷ cs))

-- The newline that `fgets` leaves in the buffer changes nothing.
line_matches-newline :
    (candidate l : Bytes)
    → has_char 0 l ≡ false
    → line_matches candidate (l ++ newline) ≡ line_matches candidate l
unfolding line_matches
line_matches-newline candidate l h = elim (drop_while-newline (c_str l)) [
  | inl (e, e') ↦ rw (line_matches, c_str-newline l h, e, e')
  | inr (c, cs, e, e') ↦
      rw (line_matches, c_str-newline l h, e, e') (entry_matches-newline candidate c cs)
]

-- One round of the loop, the empty file included.
file_loop-suc :
    (fuel room : ℕ) (candidate : Bytes) (c : ℕ) (cs : Bytes)
    → file_loop (suc fuel) room candidate (c ∷ cs) ≡ (
        line_matches candidate (fgets room (c ∷ cs)).0
        || file_loop fuel room candidate (fgets room (c ∷ cs)).1)
unfolding file_loop
file_loop-suc fuel room candidate c cs = ground arith

round_line :
    (fuel room : ℕ) (candidate l r : Bytes)
    → has_char b'\n' l ≡ false
    → has_char 0 l ≡ false
    → length l < room
    → file_loop (suc fuel) room candidate (l ++ (newline ++ r))
      ≡ (line_matches candidate l || file_loop fuel room candidate r)
round_line fuel room candidate [] r h z k =
    file_loop-suc fuel room candidate b'\n' r
    ∙ rw (fgets_line room [] r h k, line_matches-newline candidate [] z)
round_line fuel room candidate (c ∷ l) r h z k =
    file_loop-suc fuel room candidate c (l ++ (newline ++ r))
    ∙ rw (fgets_line room (c ∷ l) r h k, line_matches-newline candidate (c ∷ l) z)

file_loop-any_line :
    (fuel : ℕ) (candidate : Bytes) (lines : List Bytes)
    → AllFileLines lines
    → length (file_of lines) < fuel
    → file_loop fuel line_room candidate (file_of lines) ≡ any_line candidate lines
unfolding any_line
file_loop-any_line zero candidate lines h m = absurd (omega arith)
file_loop-any_line (suc fuel) candidate [] h m = unfold file_loop in refl
file_loop-any_line (suc fuel) candidate (l ∷ ls) h m =
    round_line fuel line_room candidate l (file_of ls) h.0.0 h.0.1 h.0.2
    ∙ rw (
        file_loop-any_line fuel candidate ls h.1
          (omega (arith, length-append {0} l (newline ++ file_of ls))))

-- On a key file of newline-ended lines, each of at most 1022 bytes and free of NUL, the candidate
-- is accepted exactly when some line is it, once cut of white space at both ends, and does not
-- begin with '#'.
api_key_file_matches-any_line :
    (candidate : Bytes) (lines : List Bytes)
    → AllFileLines lines
    → api_key_file_matches (some (file_of lines)) candidate ≡ any_line candidate lines
unfolding api_key_file_matches
api_key_file_matches-any_line candidate lines h =
    file_loop-any_line (suc (length (file_of lines))) candidate lines h (omega arith)

fgets_full : (l r : Bytes) → has_char b'\n' l ≡ false → fgets (length l) (l ++ r) ≡ (l, r)
unfolding fgets has_char
fgets_full [] r h = refl
fgets_full (c ∷ l) r h = ground (arith, fgets_full l r)

or-true : (b : Bool) → (b || true) ≡ true
or-true true = refl
or-true false = refl

-- A longer line is tested in pieces: behind 1023 bytes of a line, whatever they are, the rest of
-- the line is accepted as a key of its own, if it would be accepted as a line. It is shorter than
-- 1023 bytes, and holds no NUL.
api_key_file_matches-long_line :
    (l : Bytes) (candidate : Bytes)
    → length l ≡ line_room
    → has_char b'\n' l ≡ false
    → has_char b'\n' candidate ≡ false
    → has_char 0 candidate ≡ false
    → length candidate < line_room
    → line_matches candidate candidate ≡ true
    → api_key_file_matches (some (l ++ (candidate ++ newline))) candidate ≡ true
unfolding api_key_file_matches
api_key_file_matches-long_line [] candidate e h k z s m = absurd (omega arith)
api_key_file_matches-long_line (c ∷ l) candidate e h k z s m =
    file_loop-suc (suc (length (l ++ (candidate ++ newline)))) line_room candidate c
      (l ++ (candidate ++ newline))
    ∙ rw
        (
          first,
          round_line (length (l ++ (candidate ++ newline))) line_room candidate candidate [] k z s,
          m,
        )
        (or-true (line_matches candidate (c ∷ l)))
  where
    first : fgets line_room (c ∷ (l ++ (candidate ++ newline))) ≡ (c ∷ l, candidate ++ newline)
    first =
        subst (λ n. fgets n (c ∷ (l ++ (candidate ++ newline))) ≡ (c ∷ l, candidate ++ newline)) e
          (fgets_full (c ∷ l) (candidate ++ newline) h)
