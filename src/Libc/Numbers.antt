-- ===== src/Libc/Numbers.antt =====
-- `strtol` in base 10, as the sources use it.
use fortai.Prelude.{ℕ, Bool, true, false, [], ◌∷◌, ◌==◌, if◌then◌else◌, take_while, drop_while}
use fortai.Libc.{Bytes, is_space, is_digit, digits_value}

-- No digits, so that `end` is the string itself; or the sign, the magnitude and the bytes from
-- `end` on. A magnitude too large for a long is kept: the sources compare it with small limits.
pub data Number : Type 0 where
  no_number : Number
  number : Bool → ℕ → Bytes → Number

unfoldable pub unsigned : Bool → Bytes → Number
unsigned negative cs = elim (take_while is_digit cs) [
  | [] ↦ no_number
  | d ∷ ds ↦ number negative (digits_value 0 (d ∷ ds)) (drop_while is_digit cs)
]

unfoldable pub signed : Bytes → Number
signed [] = no_number
signed (c ∷ cs) =
    if c == b'+'
    then unsigned false cs
    else if c == b'-'
    then unsigned true cs
    else unsigned false (c ∷ cs)

unfoldable pub strtol : Bytes → Number
strtol s = signed (drop_while is_space s)
