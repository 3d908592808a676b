-- ===== src/Libc/Search.antt =====
-- Facts about the searches of the C library that the sources rely on.
use fortai.Prelude.{
  ◌≢◌, ◌||◌, none, false, ℕ, zero, suc, ◌+◌, ◌≤◌, ◌≡◌, refl, true, some, [], ◌∷◌, ◌++◌, length,
  arith, ◌↔◌,
}
use fortai.Libc.{Bytes, c_str, memchr, has_char, str_eq, starts_with, strstr}

pub str_eq_iff : (a b : Bytes) → (str_eq a b ≡ true) ↔ (a ≡ b)
unfolding str_eq
str_eq_iff (x ∷ a) (y ∷ b) = ground (arith, str_eq_iff a b)
str_eq_iff _ _ = ground arith

-- A match found in a prefix stays the first one, whatever is appended.
pub starts_with-append : (s p r : Bytes) → starts_with s p ≡ true → starts_with (s ++ r) p ≡ true
unfolding starts_with
starts_with-append s [] r h = refl
starts_with-append [] (y ∷ ys) r h = ground arith
starts_with-append (x ∷ xs) (y ∷ ys) r h = ground (arith, starts_with-append xs ys r)

-- With `length p ≤ length s` a test for a prefix reads no byte past `s`.
pub starts_with-append_of_le :
    (s p r : Bytes) → length p ≤ length s → starts_with (s ++ r) p ≡ starts_with s p
unfolding starts_with
starts_with-append_of_le s [] r h = refl
starts_with-append_of_le [] (y ∷ ys) r h = absurd (omega arith)
starts_with-append_of_le (x ∷ xs) (y ∷ ys) r h =
    ground (arith, starts_with-append_of_le xs ys r (omega arith))

pub length-le_of_starts_with : (s p : Bytes) → starts_with s p ≡ true → length p ≤ length s
unfolding starts_with
length-le_of_starts_with s [] h = omega arith
length-le_of_starts_with [] (y ∷ ys) h = ground arith
length-le_of_starts_with (x ∷ xs) (y ∷ ys) h = ground (arith, length-le_of_starts_with xs ys)

pub strstr-le : (s p : Bytes) (i : ℕ) → strstr s p ≡ some i → i + length p ≤ length s
unfolding strstr
strstr-le [] p i h = ground (arith, length-le_of_starts_with [] p)
strstr-le (x ∷ xs) p zero h = ground (arith, length-le_of_starts_with (x ∷ xs) p)
strstr-le (x ∷ xs) p (suc i) h = ground (arith, strstr-le xs p i)

pub memchr-first :
    (c : ℕ) (l r : Bytes) → has_char c l ≡ false → memchr (l ++ (c ∷ r)) c ≡ some (length l)
unfolding memchr has_char
memchr-first c [] r h = ground arith
memchr-first c (x ∷ l) r h = ground (arith, memchr-first c l r)

pub memchr-none : (c : ℕ) (l : Bytes) → has_char c l ≡ false → memchr l c ≡ none
unfolding memchr has_char
memchr-none c [] h = refl
memchr-none c (x ∷ l) h = ground (arith, memchr-none c l)

pub starts_with_self : (p r : Bytes) → starts_with (p ++ r) p ≡ true
unfolding starts_with
starts_with_self [] r = refl
starts_with_self (x ∷ p) r = ground (arith, starts_with_self p r)

pub c_str-eq : (s : Bytes) → has_char 0 s ≡ false → c_str s ≡ s
unfolding has_char
c_str-eq [] h = refl
c_str-eq (x ∷ s) h = ground (arith, c_str-eq s)

pub has_char-append : (c : ℕ) (a b : Bytes) → has_char c (a ++ b) ≡ (has_char c a || has_char c b)
unfolding has_char
has_char-append c [] b = refl
has_char-append c (x ∷ a) b = ground (arith, has_char-append c a b)

-- A search that succeeds in a part succeeds at the same place in the whole.
pub strstr-append :
    (s p r : Bytes) (i : ℕ) → p ≢ [] → strstr s p ≡ some i → strstr (s ++ r) p ≡ some i
unfolding strstr
strstr-append [] [] r i n h = absurd (n refl)
strstr-append [] (y ∷ p) r i n h = unfold starts_with in cc
strstr-append (x ∷ s) p r zero n h =
    ground (arith, strstr-le (x ∷ s) p 0 h, starts_with-append_of_le (x ∷ s) p r)
strstr-append (x ∷ s) p r (suc i) n h = ground (
  arith,
  strstr-le (x ∷ s) p (suc i) h,
  starts_with-append_of_le (x ∷ s) p r,
  strstr-append s p r i n,
)

-- A place that the whole has, with all its bytes in the part, is found in the part.
pub strstr-of_append :
    (s p r : Bytes) (i : ℕ)
    → strstr (s ++ r) p ≡ some i
    → i + length p ≤ length s
    → strstr s p ≡ some i
unfolding strstr
strstr-of_append [] [] r zero h l = unfold starts_with in refl
strstr-of_append [] (y ∷ p) r zero h l = absurd (omega arith)
strstr-of_append [] p r (suc i) h l = absurd (omega arith)
strstr-of_append (x ∷ s) p r zero h l = ground (arith, starts_with-append_of_le (x ∷ s) p r)
strstr-of_append (x ∷ s) p r (suc i) h l =
    ground (arith, starts_with-append_of_le (x ∷ s) p r, strstr-of_append s p r i)
