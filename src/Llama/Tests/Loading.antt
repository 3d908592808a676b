-- ===== src/Llama/Tests/Loading.antt =====
-- Uses of the theorems on the library that is opened and on the ratios of the devices.
use fortai.Prelude.{
  ℕ, ◌≡◌, refl, not, Option, none, some, List, [], ◌∷◌, ltb, take_while, drop_while, arith,
}
use fortai.Libc.{Bytes, codes, str_eq, is_digit, digits_value}
use fortai.Libc.Environment.{Env}
use fortai.Llama.Library.{Loader}
use fortai.Llama.Split.{
  Floats, Numeral, ended, listed, ratios, parse_tensor_split, parse_tensor_split-commas,
}

abbrev no_settings : Env
no_settings name = none

-- "libllama.so.0" can be opened, and lacks `llama_decode`.
abbrev old_library : Loader
unfolding str_eq
old_library = record {
  opens = λ path. str_eq path (codes "libllama.so.0");
  has_symbol = λ path name. not (str_eq name (codes "llama_decode"));
}

-- whole numbers in place of floats
abbrev whole_number : Bytes → Bytes → Option (ℕ × Bytes)
whole_number [] rest = none
whole_number (d ∷ ds) rest = some (digits_value 0 (d ∷ ds), rest)

abbrev whole_numbers : Floats ℕ
whole_numbers = record {
  strtof = λ s. whole_number (take_while is_digit s) (drop_while is_digit s);
  is_positive = λ n. ltb 0 n;
}

abbrev one_two : List (Numeral whole_numbers)
unfolding digits_value
one_two =
    record {
      first = b'1';
      others = [];
      ratio = 1;
      is_positive = refl;
      at_end = refl;
      at_comma = λ rest. refl;
    }
    ∷ record {
      first = b'2';
      others = [];
      ratio = 2;
      is_positive = refl;
      at_end = refl;
      at_comma = λ rest. refl;
    }
    ∷ []

abbrev three : Numeral whole_numbers
unfolding digits_value
three = record {
  first = b'3';
  others = [];
  ratio = 3;
  is_positive = refl;
  at_end = refl;
  at_comma = λ rest. refl;
}

commas_example :
    (parse_tensor_split whole_numbers (some (ended whole_numbers (three ∷ one_two)))
      ≡ some (ratios whole_numbers (three ∷ one_two)))
    × (parse_tensor_split whole_numbers (some (listed whole_numbers three one_two)) ≡ none)
unfolding one_two
commas_example = parse_tensor_split-commas whole_numbers three one_two (omega arith)
