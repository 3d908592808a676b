-- ===== src/Http/Tests.antt =====
-- Tests of the header, key and path code, and uses of its theorems at concrete inputs.
pub mod Permits
pub mod Wire
pub mod Client
pub mod Server
pub mod Threads
use fortai.Prelude.{◌≡◌, ◌<◌, refl, true, List, [], ◌∷◌, ◌++◌}
use fortai.Libc.{Bytes, codes, has_char, str_eq, case_starts_with, trim_end}
use fortai.Http.Header.{line_has_name, trimmed_value, copied_value, copy_header_value}
use fortai.Http.Header.Lines.{text_of, find_header, copy_header_value-find_header}
use fortai.Http.Keys.{is_key_end, key_equals, entry_loop}
use fortai.Http.Keys.Split.{any_entry, split_commas, key_equals-any_entry}
use fortai.Http.Access.{text}

abbrev request_head : List Bytes
request_head =
    codes "GET /v1/models HTTP/1.1" ∷ codes "Host: fortai" ∷ codes "Accept:  text/plain \t" ∷ []

finds_accept : find_header (codes "Accept") 64 request_head ≡ codes "text/plain"
unfolding line_has_name trimmed_value copied_value trim_end case_starts_with has_char
finds_accept = refl

copy_header_value_example :
    copy_header_value (text_of request_head ++ codes "body") (codes "Accept") 64
    ≡ find_header (codes "Accept") 64 (request_head ++ (codes "body" ∷ []))
unfolding has_char
copy_header_value_example =
    copy_header_value-find_header request_head (codes "body") (codes "Accept") 64
      ((refl, refl), ((refl, refl), ((refl, refl), tt))) (refl, refl)

key_equals_example :
    key_equals (codes "alpha, beta ,gamma") (codes "beta")
    ≡ any_entry is_key_end
        (λ entry. str_eq entry (codes "beta"))
        (split_commas (codes "alpha, beta ,gamma"))
key_equals_example = key_equals-any_entry (codes "alpha, beta ,gamma") (codes "beta") λ e. cc

accepts_beta : key_equals (codes "alpha, beta ,gamma") (codes "beta") ≡ true
unfolding key_equals entry_loop str_eq trim_end
accepts_beta = refl
