-- ===== src/Http/Tests/Permits.antt =====
-- Uses of the theorems on the paths and the credentials, at concrete requests.
use fortai.Prelude.{
  true, ℕ, ◌+◌, ◌≡◌, refl, false, none, some, List, [], ◌∷◌, ◌++◌, arith, if◌then◌else◌,
}
use fortai.Libc.{
  Bytes, codes, has_char, str_eq, case_eq, starts_with, case_starts_with, trim_end, memchr,
}
use fortai.Http.Header.{line_has_name}
use fortai.Http.Header.Lines.{text_of}
use fortai.Http.Keys.{is_key_end}
use fortai.Http.Keys.Split.{any_entry, split_commas}
use fortai.Http.Access.{
  Env, Files, copy_request_path, public_path, is_public, authorized, configured_keys, key_file,
  text, one_of, cut_query, target, routed_path, safe_env, last_dot,
}
use fortai.Http.Access.Decision.{bearer_line, authorized_without_credential, authorized-bearer}
use fortai.Http.Reply.{Handler, fails, respond, unauthorized_body, dispatch}
use fortai.Http.Reply.Dispatch.{dispatch_without_credential}

-- a server with two keys
abbrev pub keys_env : Env
unfolding str_eq
keys_env name = if str_eq name (codes "LLAMA_API_KEY") then some (codes "alpha, beta") else none

abbrev pub no_files : Files
no_files path = none

abbrev plain_request : List Bytes
plain_request = codes "POST /v1/completions HTTP/1.1" ∷ codes "Host: fortai" ∷ [] ∷ []

refused_example : authorized keys_env no_files (text_of plain_request ++ codes "{}") ≡ false
unfolding has_char str_eq line_has_name case_starts_with configured_keys key_file public_path
    copy_request_path memchr cut_query target routed_path safe_env is_public one_of last_dot
    starts_with case_eq
refused_example =
    authorized_without_credential keys_env no_files plain_request (codes "{}")
      ((refl, refl), ((refl, refl), ((refl, refl), tt))) (refl, refl)
      (refl, (refl, (refl, (refl, tt)))) (refl, (refl, (refl, (refl, tt)))) refl refl

abbrev pub no_handler : Handler ℕ
no_handler s request capacity = (s + 1, fails)

dispatch_401_example :
    dispatch keys_env no_files no_handler (true ∷ []) 5 (text_of plain_request ++ codes "{}")
    ≡ (5, some (respond 401 (codes "application/json") unauthorized_body))
unfolding has_char str_eq line_has_name case_starts_with configured_keys key_file public_path
    copy_request_path memchr cut_query target routed_path safe_env is_public one_of last_dot
    starts_with case_eq
dispatch_401_example =
    dispatch_without_credential keys_env no_files no_handler [] 5 plain_request (codes "{}")
      ((refl, refl), ((refl, refl), ((refl, refl), tt))) (refl, refl)
      (refl, (refl, (refl, (refl, tt)))) (refl, (refl, (refl, (refl, tt)))) refl refl refl

abbrev before_key : List Bytes
before_key = codes "POST /v1/completions HTTP/1.1" ∷ codes "Host: fortai" ∷ []

abbrev after_key : List Bytes
after_key = codes "Accept: text/plain" ∷ [] ∷ []

bearer_example :
    authorized keys_env no_files
      (text_of (before_key ++ (bearer_line (codes "beta") ∷ after_key)) ++ codes "{}")
    ≡ any_entry is_key_end
        (λ entry. str_eq entry (codes "beta"))
        (split_commas (text (configured_keys keys_env)))
unfolding has_char str_eq line_has_name case_starts_with configured_keys key_file public_path
    copy_request_path memchr cut_query target routed_path safe_env is_public one_of last_dot
    starts_with case_eq trim_end
bearer_example =
    authorized-bearer keys_env no_files before_key after_key (codes "{}") (codes "beta")
      ((refl, refl), ((refl, refl), ((refl, refl), ((refl, refl), ((refl, refl), tt)))))
      (refl, refl) (refl, (refl, tt)) ((λ e. cc), refl, refl, refl, refl, refl, omega arith) refl
      refl refl
