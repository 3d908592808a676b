-- ===== src/Llama/Split.antt =====
-- `fortai_parse_tensor_split` of src/backend/cpu/fortai_llama_fast.c: the ratios of the devices.
-- `strtof` is a parameter; ratios are of a type of its own.
use fortai.Prelude.{
  ℕ, zero, suc, ◌≤◌, ◌≡◌, refl, ap, ◌∙◌, Bool, true, not, Option, none, some, List, [], ◌∷◌, ◌++◌,
  ◌==◌, if◌then◌else◌, length, arith,
}
use fortai.Libc.{Bytes}

-- `strtof`: the number and what stands behind it, or none if `end == value`; and `ratio > 0`.
pub record Floats (R : Type 0) : Type 0 where
  pub strtof : Bytes → Option (R × Bytes)
  pub is_positive : R → Bool

-- the places of `split`
abbrev pub max_ratios : ℕ
max_ratios = 16

-- the ratios found so far, and `value`; nothing for NULL
abbrev Found : Type 0 → Type 0
Found R = Option (List R × Bytes)

abbrev with_ratio : {R : Type 0} → R → Found R → Found R
with_ratio ratio none = none
with_ratio ratio (some (split, value)) = some (ratio ∷ split, value)

-- What follows a ratio: the end of the string, which leaves `value` as it is, or a comma and what
-- `again` makes of the rest.
abbrev behind_ratio : {R : Type 0} → (Bytes → Found R) → Bytes → R → Bytes → Found R
behind_ratio again value ratio [] = some (ratio ∷ [], value)
behind_ratio again value ratio (e ∷ es) =
    if not (e == b',') then none else with_ratio ratio (again es)

module _ {R : Type 0} (floats : Floats R) where
  -- the loop, with `room` places left
  unfoldable pub split_loop : ℕ → Bytes → Found R
  split_loop zero value = some ([], value)
  split_loop (suc room) [] = some ([], [])
  split_loop (suc room) (c ∷ cs) =
      let again : Bytes → Found R = λ value. split_loop room value in
      elim (floats.strtof (c ∷ cs)) as (λ _. Found R) [
        | none ↦ none
        | some r ↦
            if not (floats.is_positive r.0) then none else behind_ratio again (c ∷ cs) r.0 r.1
      ]

  -- `count == 0 || *value != '\0'`
  abbrev pub whole : Option (List R × Bytes) → Option (List R)
  whole none = none
  whole (some ([], value)) = none
  whole (some (r ∷ rs, [])) = some (r ∷ rs)
  whole (some (r ∷ rs, v ∷ vs)) = none

  -- `fortai_parse_tensor_split`
  unfoldable pub parse_tensor_split : Option Bytes → Option (List R)
  parse_tensor_split none = none
  parse_tensor_split (some []) = none
  parse_tensor_split (some (c ∷ cs)) = whole (split_loop max_ratios (c ∷ cs))

-- A numeral as `strtof` reads it, at the end of the string or before a comma.
pub record Numeral {R : Type 0} (floats : Floats R) : Type 0 where
  pub first : ℕ
  pub others : Bytes
  pub ratio : R
  pub is_positive : floats.is_positive ratio ≡ true
  pub at_end : floats.strtof (first ∷ others) ≡ some (ratio, [])
  pub at_comma :
      (rest : Bytes) → floats.strtof ((first ∷ others) ++ (b',' ∷ rest)) ≡ some (ratio, b',' ∷ rest)

module _ {R : Type 0} (floats : Floats R) where
  -- the numerals with commas between them
  abbrev pub listed : Numeral floats → List (Numeral floats) → Bytes
  listed n [] = n.first ∷ n.others
  listed n (m ∷ ms) = (n.first ∷ n.others) ++ (b',' ∷ listed m ms)

  -- the numerals, each with a comma behind it
  abbrev pub ended : List (Numeral floats) → Bytes
  ended [] = []
  ended (n ∷ ns) = (n.first ∷ n.others) ++ (b',' ∷ ended ns)

  abbrev pub ratios : List (Numeral floats) → List R
  ratios [] = []
  ratios (n ∷ ns) = n.ratio ∷ ratios ns

  split_loop-comma :
      (room : ℕ) (n : Numeral floats) (rest : Bytes)
      → split_loop floats (suc room) ((n.first ∷ n.others) ++ (b',' ∷ rest))
        ≡ with_ratio n.ratio (split_loop floats room rest)
  unfolding split_loop
  split_loop-comma room n rest = rw (n.at_comma rest, n.is_positive) refl

  split_loop-end :
      (room : ℕ) (n : Numeral floats)
      → split_loop floats (suc room) (n.first ∷ n.others) ≡ some (n.ratio ∷ [], n.first ∷ n.others)
  unfolding split_loop
  split_loop-end room n = rw (n.at_end, split_loop, n.is_positive) refl

  split_loop-ended :
      (room : ℕ) (ns : List (Numeral floats))
      → length ns ≤ room
      → split_loop floats room (ended ns) ≡ some (ratios ns, [])
  unfolding split_loop
  split_loop-ended zero [] l = refl
  split_loop-ended zero (n ∷ ns) l = absurd (omega arith)
  split_loop-ended (suc room) [] l = refl
  split_loop-ended (suc room) (n ∷ ns) l =
      split_loop-comma room n (ended ns)
      ∙ ap (λ r. with_ratio n.ratio r) (split_loop-ended room ns (omega arith))

  -- The last numeral is left in `value`.
  split_loop-listed :
      (room : ℕ) (n : Numeral floats) (ns : List (Numeral floats))
      → length (n ∷ ns) ≤ room
      → (v : ℕ) × (vs : Bytes) × (split_loop floats room (listed n ns)
          ≡ some (ratios (n ∷ ns), v ∷ vs))
  split_loop-listed zero n ns l = absurd (omega arith)
  split_loop-listed (suc room) n [] l = (n.first, n.others, split_loop-end room n)
  split_loop-listed (suc room) n (m ∷ ms) l =
      let (v, vs, e) = split_loop-listed room m ms (omega arith) in
      (v, vs, split_loop-comma room n (listed m ms) ∙ ap (λ r. with_ratio n.ratio r) e)

  listed_refused :
      (n : Numeral floats) (ns : List (Numeral floats))
      → length (n ∷ ns) ≤ max_ratios
      → parse_tensor_split floats (some (listed n ns)) ≡ none
  unfolding parse_tensor_split
  listed_refused n [] l = ap (λ r. whole floats r) (split_loop-listed max_ratios n [] l).2
  listed_refused n (m ∷ ms) l =
      ap (λ r. whole floats r) (split_loop-listed max_ratios n (m ∷ ms) l).2

  -- `fortai_parse_tensor_split` gives the ratios of up to 16 positive numerals if there is a comma
  -- behind each of them, the last one included. The same numerals with commas only between them,
  -- as in "0.5,0.5", give NULL.
  pub parse_tensor_split-commas :
      (n : Numeral floats) (ns : List (Numeral floats))
      → length (n ∷ ns) ≤ max_ratios
      → (parse_tensor_split floats (some (ended (n ∷ ns))) ≡ some (ratios (n ∷ ns)))
        × (parse_tensor_split floats (some (listed n ns)) ≡ none)
  unfolding parse_tensor_split
  parse_tensor_split-commas n ns l =
      (ap (λ r. whole floats r) (split_loop-ended max_ratios (n ∷ ns) l), listed_refused n ns l)
