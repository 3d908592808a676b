-- ===== src/Http/Reply/Decimal.antt =====
-- The numbers that `fortai_http_status` prints.
use fortai.Prelude.{
  ℕ, zero, suc, ◌+◌, ◌-◌, ◌*◌, ◌/◌, ◌%◌, ◌≤◌, ◌<◌, ◌≡◌, refl, ◌∙◌, true, false, [], ◌∷◌, ◌++◌, ltb,
  arith, Bool-cases, inl, inr,
}
use fortai.Libc.{Bytes, codes, has_char, digits_value, is_digit, is_space, case_starts_with}
use fortai.Http.Socket.{strtoull, signed_value, line_value, ullong_max}
use fortai.Http.Reply.{decimal_loop, decimal}

abbrev pub AllDigits : Bytes → Type 0
AllDigits [] = Unit {0}
AllDigits (c ∷ cs) = (is_digit c ≡ true) × AllDigits cs

AllDigits-append : (a : Bytes) (d : ℕ) → AllDigits a → is_digit d ≡ true → AllDigits (a ++ (d ∷ []))
AllDigits-append [] d h e = (e, tt)
AllDigits-append (x ∷ a) d h e = (h.0, AllDigits-append a d h.1 e)

digits_value-append :
    (acc : ℕ) (a : Bytes) (d : ℕ)
    → AllDigits a
    → d < 10
    → digits_value acc (a ++ ((d + b'0') ∷ [])) ≡ digits_value acc a * 10 + d
unfolding digits_value
digits_value-append acc [] d h l = ground arith
digits_value-append acc (x ∷ a) d h l =
    rw (h.0) (digits_value-append (acc * 10 + (x - b'0')) a d h.1 l)

decimal_loop-AllDigits : (fuel n : ℕ) → AllDigits (decimal_loop fuel n)
unfolding decimal_loop
decimal_loop-AllDigits zero n = tt
decimal_loop-AllDigits (suc fuel) n = elim (Bool-cases (ltb n 10)) [
  | inl h ↦ rw h (ground arith, tt)
  | inr h ↦ rw h (
      AllDigits-append (decimal_loop fuel (n / 10)) (n % 10 + b'0')
        (decimal_loop-AllDigits fuel (n / 10)) (ground arith))
]

digits_value-decimal_loop : (fuel n : ℕ) → n < fuel → digits_value 0 (decimal_loop fuel n) ≡ n
unfolding decimal_loop
digits_value-decimal_loop zero n h = absurd (omega arith)
digits_value-decimal_loop (suc fuel) n h = elim (Bool-cases (ltb n 10)) [
  | inl e ↦ rw e (unfold digits_value in ground arith)
  | inr e ↦ rw e (
      digits_value-append 0 (decimal_loop fuel (n / 10)) (n % 10)
        (decimal_loop-AllDigits fuel (n / 10)) (omega arith)
      ∙ rw (digits_value-decimal_loop fuel (n / 10) (ground arith)) (omega arith))
]

pub decimal-AllDigits : (n : ℕ) → AllDigits (decimal n)
unfolding decimal
decimal-AllDigits n = decimal_loop-AllDigits (suc n) n

-- A decimal holds no byte below '0', so no CR, LF or NUL.
pub has_char-AllDigits : (c : ℕ) (s : Bytes) → c < b'0' → AllDigits s → has_char c s ≡ false
unfolding has_char
has_char-AllDigits c [] h d = refl
has_char-AllDigits c (x ∷ s) h d = ground (arith, has_char-AllDigits c s)

digit-not_space : (c : ℕ) → is_digit c ≡ true → is_space c ≡ false
digit-not_space c h = ground arith

signed_value-AllDigits :
    (s : Bytes) (n : ℕ)
    → AllDigits s
    → digits_value 0 s ≡ n
    → n ≤ ullong_max
    → strtoull (b' ' ∷ s) ≡ n
unfolding strtoull signed_value
signed_value-AllDigits [] n d e h = unfold digits_value in ground arith
signed_value-AllDigits (x ∷ s) n d e h = rw (digit-not_space x d.0) (ground arith)

-- The "Content-Length" line that the server prints for a length is read by its own reader as that
-- length, for every length below 2^64.
line_value-decimal :
    (n found : ℕ) → n ≤ ullong_max → line_value (codes "Content-Length: " ++ decimal n) found ≡ n
unfolding line_value case_starts_with decimal
line_value-decimal n found h =
    signed_value-AllDigits (decimal_loop (suc n) n) n (decimal_loop-AllDigits (suc n) n)
      (digits_value-decimal_loop (suc n) n (omega arith)) h
