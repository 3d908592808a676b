-- ===== src/Llama/Settings.antt =====
-- The settings of src/backend/cpu/fortai_llama_fast.c: `fortai_env3` and the parsers of its values.
use fortai.Prelude.{
  ℕ, Bool, true, false, ◌||◌, Option, none, some, List, [], ◌∷◌, ltb, if◌then◌else◌,
}
use fortai.Libc.{Bytes, codes, case_eq, case_starts_with}
use fortai.Libc.Environment.{Env, is_set}
use fortai.Libc.Numbers.{Number, no_number, number, strtol}

-- `fortai_env3(fortai_name, llama_name, service_name)`: an empty variable counts as none.
unfoldable pub env3 : Env → Bytes → Bytes → Bytes → Option Bytes
env3 env fortai_name llama_name service_name =
    if is_set (env fortai_name)
    then env fortai_name
    else if is_set (env llama_name)
    then env llama_name
    else if is_set (env service_name)
    then env service_name
    else none

-- the first of the words that the value is, up to the case of letters
unfoldable pub word_value : {A : Type 0} → Bytes → List (Bytes × A) → A → A
word_value value [] fallback = fallback
word_value value ((w, a) ∷ ws) fallback =
    if case_eq value w then a else word_value value ws fallback

-- A parser gives the fallback for NULL and for "".
unfoldable pub parse_word : {A : Type 0} → List (Bytes × A) → Option Bytes → A → A
parse_word words none fallback = fallback
parse_word words (some []) fallback = fallback
parse_word words (some (c ∷ cs)) fallback = word_value (c ∷ cs) words fallback

-- `fortai_parse_bool`
unfoldable pub parse_bool : Option Bytes → Bool → Bool
parse_bool = parse_word (
    (codes "1", true)
    ∷ (codes "true", true)
    ∷ (codes "on", true)
    ∷ (codes "yes", true)
    ∷ (codes "0", false)
    ∷ (codes "false", false)
    ∷ (codes "off", false)
    ∷ (codes "no", false)
    ∷ [])

-- `LLAMA_FLASH_ATTN_TYPE_AUTO` (-1), 1 and 0
pub data FlashAttn : Type 0 where
  automatic enabled disabled : FlashAttn

-- `fortai_parse_flash_attn`
unfoldable pub parse_flash_attn : Option Bytes → FlashAttn → FlashAttn
parse_flash_attn = parse_word (
    (codes "auto", automatic)
    ∷ (codes "on", enabled)
    ∷ (codes "true", enabled)
    ∷ (codes "off", disabled)
    ∷ (codes "false", disabled)
    ∷ [])

-- `fortai_parse_cache_type`: the number of a type of GGML
unfoldable pub parse_cache_type : Option Bytes → ℕ → ℕ
parse_cache_type = parse_word (
    (codes "f32", 0)
    ∷ (codes "f16", 1)
    ∷ (codes "q4_0", 2)
    ∷ (codes "q4_1", 3)
    ∷ (codes "q5_0", 6)
    ∷ (codes "q5_1", 7)
    ∷ (codes "q8_0", 8)
    ∷ [])

-- the test of a number, for a minimum of 1 or more, which no negative number reaches
unfoldable pub int_value : Number → ℕ → ℕ → ℕ → ℕ
int_value no_number fallback minimum maximum = fallback
int_value (number negative magnitude (d ∷ ds)) fallback minimum maximum = fallback
int_value (number negative magnitude []) fallback minimum maximum =
    if negative || (ltb magnitude minimum || ltb maximum magnitude) then fallback else magnitude

-- `fortai_parse_int`
unfoldable pub parse_int : Option Bytes → ℕ → ℕ → ℕ → ℕ
parse_int none fallback minimum maximum = fallback
parse_int (some []) fallback minimum maximum = fallback
parse_int (some (c ∷ cs)) fallback minimum maximum =
    int_value (strtol (c ∷ cs)) fallback minimum maximum

-- `strcasestr(s, p) != NULL`, for a `p` that is not empty
unfoldable pub case_contains : Bytes → Bytes → Bool
case_contains [] p = false
case_contains (c ∷ cs) p = case_starts_with (c ∷ cs) p || case_contains cs p

-- `draft_path != NULL && strcasestr(draft_path, "mtp") != NULL`
unfoldable pub names_mtp : Option Bytes → Bool
names_mtp none = false
names_mtp (some path) = case_contains path (codes "mtp")

-- `fortai_path_requests_mtp`
unfoldable pub path_requests_mtp : Env → Option Bytes → Bool
path_requests_mtp env draft_path =
    elim (env3 env (codes "FORTAI_SPEC_TYPE") (codes "LLAMA_ARG_SPEC_TYPE")
      (codes "LLAMACPP_SPEC_TYPE")) [
        | none ↦ names_mtp draft_path
        | some value ↦ case_eq value (codes "draft-mtp") || names_mtp draft_path
      ]

-- `draft_path` and `requested_spec_max` of `fortai_llama_fast_context_create`
unfoldable pub draft_path : Env → Option Bytes
draft_path env =
    env3 env (codes "FORTAI_DRAFT_MODEL") (codes "LLAMA_ARG_MODEL_DRAFT")
      (codes "LLAMACPP_DRAFT_MODEL")

unfoldable pub requested_spec_max : Env → ℕ
requested_spec_max env =
    parse_int
      (env3 env (codes "FORTAI_SPEC_DRAFT_N_MAX") (codes "LLAMA_ARG_SPEC_DRAFT_N_MAX")
        (codes "LLAMACPP_SPEC_DRAFT_N_MAX"))
      2 1 32
