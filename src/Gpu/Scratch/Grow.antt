-- ===== src/Gpu/Scratch/Grow.antt =====
-- What growing one buffer gives.
use fortai.Prelude.{ℕ, ◌≤◌, ◌≡◌, ◌⊎◌, inl, inr, refl, Bool, false, not, Option, none, some, arith}
use fortai.Gpu.Scratch.{Buffer, Outcome, grow_replacing, grow, grow_checked}

-- The count is no more than the buffer has, where there is one.
abbrev pub IsCounted : Option ℕ → ℕ → Type 0
IsCounted none bytes = Unit {0}
IsCounted (some size) bytes = bytes ≤ size

-- There is a buffer of that many bytes.
abbrev pub HasRoom : Option ℕ → ℕ → Type 0
HasRoom none bytes = ⊥
HasRoom (some size) bytes = bytes ≤ size

-- A request fails or gives room.
abbrev pub IsGranted : Buffer → ℕ → Bool → Type 0
IsGranted b bytes ok = (ok ≡ false) ⊎ HasRoom b.size bytes

-- A request fails or gives room, or the pointer is NULL.
abbrev pub IsGrantedOrNull : Buffer → ℕ → Bool → Type 0
IsGrantedOrNull b bytes ok = IsGranted b bytes ok ⊎ (b.size ≡ none)

pub grow_lem :
    (o : Outcome) (size : Option ℕ) (count bytes : ℕ)
    → IsCounted size count
    → IsCounted
        (grow o (record { size = size; bytes = count }) bytes).0.size
        (grow o (record { size = size; bytes = count }) bytes).0.bytes
      × IsGrantedOrNull
          (grow o (record { size = size; bytes = count }) bytes).0
          bytes
          (grow o (record { size = size; bytes = count }) bytes).1
unfolding grow
grow_lem o none count bytes v = ground arith
grow_lem o (some size) count bytes v = ground arith

pub grow_checked_lem :
    (o : Outcome) (size : Option ℕ) (count bytes : ℕ)
    → IsCounted size count
    → IsCounted
        (grow_checked o (record { size = size; bytes = count }) bytes).0.size
        (grow_checked o (record { size = size; bytes = count }) bytes).0.bytes
      × IsGranted
          (grow_checked o (record { size = size; bytes = count }) bytes).0
          bytes
          (grow_checked o (record { size = size; bytes = count }) bytes).1
unfolding grow_checked
grow_checked_lem o none count bytes v = ground arith
grow_checked_lem o (some size) count bytes v = ground arith

-- The count is 0 without a buffer, and else no more than the buffer has.
abbrev pub IsFilled : Option ℕ → ℕ → Type 0
IsFilled none bytes = bytes ≡ 0
IsFilled (some size) bytes = bytes ≤ size

-- A request fails, gives room, or is for nothing.
abbrev pub IsGrantedOrEmpty : Buffer → ℕ → Bool → Type 0
IsGrantedOrEmpty b bytes ok = IsGranted b bytes ok ⊎ (bytes ≡ 0)

grow_replacing_lem :
    (o : Outcome) (size : Option ℕ) (count bytes : ℕ)
    → IsFilled size count
    → IsFilled
        (grow_replacing o (record { size = size; bytes = count }) bytes).0.size
        (grow_replacing o (record { size = size; bytes = count }) bytes).0.bytes
      × IsGrantedOrEmpty
          (grow_replacing o (record { size = size; bytes = count }) bytes).0
          bytes
          (grow_replacing o (record { size = size; bytes = count }) bytes).1
unfolding grow_replacing
grow_replacing_lem o none count bytes v = ground arith
grow_replacing_lem o (some size) count bytes v = ground arith

-- What a part of a request gives holds for the request too, if the part does not fail.
pub carry_over :
    (b : Buffer) (bytes : ℕ) (ok ok' : Bool)
    → not ok ≡ false
    → IsGranted b bytes ok
    → IsGranted b bytes ok'
carry_over b bytes ok ok' t (inl f) = absurd (ground arith)
carry_over b bytes ok ok' t (inr room) = inr room

pub carry_or_null :
    (b : Buffer) (bytes : ℕ) (ok ok' : Bool)
    → not ok ≡ false
    → IsGrantedOrNull b bytes ok
    → IsGrantedOrNull b bytes ok'
carry_or_null b bytes ok ok' t (inl g) = inl (carry_over b bytes ok ok' t g)
carry_or_null b bytes ok ok' t (inr null) = inr null

carry_or_empty :
    (b : Buffer) (bytes : ℕ) (ok ok' : Bool)
    → not ok ≡ false
    → IsGrantedOrEmpty b bytes ok
    → IsGrantedOrEmpty b bytes ok'
carry_or_empty b bytes ok ok' t (inl g) = inl (carry_over b bytes ok ok' t g)
carry_or_empty b bytes ok ok' t (inr nothing) = inr nothing

-- both steps for a pair of buffers of the attention
module _ (o p : Outcome) (b c : Buffer) (bytes more : ℕ) (fb : IsFilled b.size b.bytes)
    (fc : IsFilled c.size c.bytes) where
  abbrev pub Pair : Buffer × (Buffer × Bool) → Type 0
  Pair r =
      IsFilled r.0.size r.0.bytes
      × IsFilled r.1.0.size r.1.0.bytes
      × IsGrantedOrEmpty r.0 bytes r.1.1
      × IsGrantedOrEmpty r.1.0 more r.1.1

  pub both_grow :
      not (grow_replacing o b bytes).1 ≡ false
      → Pair ((grow_replacing o b bytes).0, grow_replacing p c more)
  both_grow t =
      let (filled, granted) = grow_replacing_lem o b.size b.bytes bytes fb in
      let (filled', granted') = grow_replacing_lem p c.size c.bytes more fc in
      (
        filled,
        filled',
        carry_or_empty (grow_replacing o b bytes).0 bytes (grow_replacing o b bytes).1
            (grow_replacing p c more).1 t granted,
        granted',
      )

  pub one_grows : Pair ((grow_replacing o b bytes).0, (c, false))
  one_grows = ((grow_replacing_lem o b.size b.bytes bytes fb).0, fc, inl (inl refl), inl (inl refl))
