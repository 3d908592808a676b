-- ===== src/Libc/Trim.antt =====
-- Facts about trimming.
use fortai.Prelude.{
  zero, suc, replicate, true, ◌≢◌, ◌++◌, ℕ, ◌≤◌, ◌≡◌, refl, Bool, false, [], ◌∷◌, length, arith,
}
use fortai.Libc.{Bytes, trim_end, has_char}

pub length-trim_end-le : (p : ℕ → Bool) (xs : Bytes) → length (trim_end p xs) ≤ length xs
unfolding trim_end
length-trim_end-le p [] = omega arith
length-trim_end-le p (x ∷ xs) = ground (arith, length-trim_end-le p xs)

-- Trimming drops bytes and adds none.
pub has_char-trim_end :
    (c : ℕ) (p : ℕ → Bool) (xs : Bytes) → has_char c xs ≡ false → has_char c (trim_end p xs) ≡ false
unfolding trim_end has_char
has_char-trim_end c p [] h = refl
has_char-trim_end c p (x ∷ xs) h = ground (arith, has_char-trim_end c p xs)

trim_end-cons_self :
    (p : ℕ → Bool) (x : ℕ) (s : Bytes) → s ≢ [] → trim_end p s ≡ s → trim_end p (x ∷ s) ≡ x ∷ s
unfolding trim_end
trim_end-cons_self p x [] n h = absurd (n refl)
trim_end-cons_self p x (y ∷ s) n h = rw (h, trim_end)

-- Bytes in front of a trimmed string, if it is not empty, are no end to trim.
pub trim_end-append :
    (p : ℕ → Bool) (pre s : Bytes) → s ≢ [] → trim_end p s ≡ s → trim_end p (pre ++ s) ≡ pre ++ s
trim_end-append p [] s n h = h
trim_end-append p (x ∷ pre) s n h =
    trim_end-cons_self p x (pre ++ s) (append-ne-nil pre s n) (trim_end-append p pre s n h)
  where
    append-ne-nil : (pre s : Bytes) → s ≢ [] → pre ++ s ≢ []
    append-ne-nil [] s n e = n e
    append-ne-nil (x ∷ pre) s n e = cc

-- A run of bytes that are trimmed may as well be missing.
pub trim_end-replicate :
    (p : ℕ → Bool) (s : Bytes) (n b : ℕ)
    → p b ≡ true
    → trim_end p (s ++ replicate n b) ≡ trim_end p s
unfolding trim_end
trim_end-replicate p [] zero b h = refl
trim_end-replicate p [] (suc n) b h = rw (trim_end-replicate p [] n b h, trim_end, h)
trim_end-replicate p (x ∷ s) n b h = rw (trim_end-replicate p s n b h)

pub trim_end-cons_ne :
    (p : ℕ → Bool) (x : ℕ) (s t : Bytes)
    → p x ≡ false
    → trim_end p s ≡ t
    → trim_end p (x ∷ s) ≡ x ∷ t
unfolding trim_end
trim_end-cons_ne p x s [] h e = rw (e, trim_end, h)
trim_end-cons_ne p x s (y ∷ t) h e = rw (e, trim_end)
