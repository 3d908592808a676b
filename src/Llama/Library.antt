-- ===== src/Llama/Library.antt =====
-- `fortai_open_llama` of src/backend/cpu/fortai_llama_fast.c: which library is opened, and what a
-- call returns. The dynamic loader is a parameter. The calls whose results are not used (the
-- dependencies, the log, `llama_backend_init`) are left out, as are the functions that may be absent.
use fortai.Prelude.{
  ℕ, zero, suc, ◌≡◌, refl, ap, Bool, true, false, ◌&&◌, Option, none, some, List, [], ◌∷◌, ◌++◌,
  leb, if◌then◌else◌, length, replicate,
}
use fortai.Libc.{Bytes, codes, has_char}
use fortai.Libc.Environment.{Env}

-- `dlopen(path) != NULL`, and `dlsym(library, name) != NULL` for the library of a path
pub record Loader : Type 0 where
  pub opens : Bytes → Bool
  pub has_symbol : Bytes → Bytes → Bool

-- `fortai_api_attempted`, and `fortai_api.library` as the path it was opened by
pub record Opened : Type 0 where
  pub attempted : Bool
  pub library : Option Bytes

-- `candidates`
abbrev pub candidates : Env → List (Option Bytes)
candidates env =
    env (codes "FORTAI_LLAMA_FAST_LIBRARY")
    ∷ some (codes "/home/ert/.local/llama.cpp-b10566-cuda/libllama.so.0")
    ∷ some (codes "/home/ert/.local/llama.cpp-upstream-main-650913862/libllama.so.0")
    ∷ some (codes "libllama.so.0")
    ∷ []

-- The path of the first candidate, which may be a name in the directory; nothing if it is too long
-- for `local_path`.
unfoldable pub in_directory : Option Bytes → Bytes → Option Bytes
in_directory none path = some path
in_directory (some []) path = some path
in_directory (some (d ∷ ds)) path =
    let joined = (d ∷ ds) ++ (b'/' ∷ path) in
    if has_char b'/' path then some path else if leb 1024 (length joined) then none else some joined

abbrev pub path_of : Env → Bool → Option Bytes → Option Bytes
path_of env is_override none = none
path_of env is_override (some []) = none
path_of env is_override (some (c ∷ cs)) =
    if is_override
    then in_directory (env (codes "FORTAI_LLAMA_FAST_LIBRARY_DIR")) (c ∷ cs)
    else some (c ∷ cs)

-- the loop over the candidates: the first one that can be opened
unfoldable pub open_loop : Loader → Env → Bool → List (Option Bytes) → Option Bytes
open_loop loader env is_override [] = none
open_loop loader env is_override (c ∷ cs) =
    let later = open_loop loader env false cs in
    elim (path_of env is_override c) as (λ _. Option Bytes) [
      | none ↦ later
      | some path ↦ if loader.opens path then some path else later
    ]

-- the functions that must be there
abbrev pub required : List Bytes
required =
    codes "llama_model_default_params"
    ∷ codes "llama_context_default_params"
    ∷ codes "llama_model_load_from_file"
    ∷ codes "llama_init_from_model"
    ∷ codes "llama_model_get_vocab"
    ∷ codes "llama_vocab_n_tokens"
    ∷ codes "llama_model_free"
    ∷ codes "llama_free"
    ∷ codes "llama_set_n_threads"
    ∷ codes "llama_batch_init"
    ∷ codes "llama_batch_free"
    ∷ codes "llama_decode"
    ∷ codes "llama_get_logits_ith"
    ∷ []

unfoldable pub has_all : Loader → Bytes → List Bytes → Bool
has_all loader path [] = true
has_all loader path (name ∷ names) = loader.has_symbol path name && has_all loader path names

-- what the first call makes of the library that it has opened
unfoldable pub checked : Loader → Option Bytes → Option Bytes
checked loader none = none
checked loader (some path) = if has_all loader path required then some path else none

-- `fortai_open_llama`: what it returns, and the static state
unfoldable pub open_llama : Loader → Env → Opened → Opened × Option Bytes
open_llama loader env s =
    if s.attempted
    then (s, s.library)
    else let library = open_loop loader env true (candidates env) in
      (record { attempted = true; library = library }, checked loader library)

-- what calls one after the other return
unfoldable pub open_often : Loader → Env → ℕ → Opened → List (Option Bytes)
open_often loader env zero s = []
open_often loader env (suc n) s =
    let r = open_llama loader env s in r.1 ∷ open_often loader env n r.0

open_often-attempted :
    (loader : Loader) (env : Env) (library : Option Bytes) (n : ℕ)
    → open_often loader env n (record { attempted = true; library = library }) ≡ replicate n library
unfolding open_often open_llama
open_often-attempted loader env library zero = refl
open_often-attempted loader env library (suc n) =
    ap (λ l. library ∷ l) (open_often-attempted loader env library n)

-- The first call of `fortai_open_llama` returns the first library of the candidates that can be
-- opened if all the required functions are in it, and else NULL. Every later call returns that
-- library without the check, so also one that the first call has refused.
pub open_llama-often :
    (loader : Loader) (env : Env) (n : ℕ)
    → open_often loader env (suc n) (record { attempted = false; library = none })
      ≡ checked loader (open_loop loader env true (candidates env))
        ∷ replicate n (open_loop loader env true (candidates env))
unfolding open_often open_llama
open_llama-often loader env n =
    ap (λ l. checked loader (open_loop loader env true (candidates env)) ∷ l)
      (open_often-attempted loader env (open_loop loader env true (candidates env)) n)
