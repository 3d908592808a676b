-- ===== src/Http/Tests/Client.antt =====
-- Use of the theorem on a whole connection, at a request of two lines with a body of two bytes.
use fortai.Prelude.{true, ◌≡◌, refl, some, [], ◌∷◌, ◌++◌, arith}
use fortai.Libc.{
  Bytes, codes, crlf, has_char, case_starts_with, case_eq, digits_value, memchr, starts_with,
  str_eq, strstr, trim_end,
}
use fortai.Http.Header.{
  line_has_name, copy_header_value, header_loop, copied_value, trimmed_value, line_length,
}
use fortai.Http.Header.Lines.{text_of}
use fortai.Http.Keys.{cors_origin_allowed}
use fortai.Http.Access.{
  safe_env, configured_keys, key_file, public_path, copy_request_path, cut_query, target,
  routed_path, is_public, one_of, last_dot,
}
use fortai.Http.Socket.{line_value, strtoull, signed_value}
use fortai.Http.Reply.{
  unauthorized_body, header_text, decimal, status_lines, print_lines, decimal_loop, credentials,
  allow_origin, vary, reason, origin_of,
}
use fortai.Http.Client.{close_client}
use fortai.Http.Client.Refusal.{refusal, close_client-refusal}
use fortai.Http.Tests.Permits.{keys_env, no_files, no_handler}
use fortai.Http.Tests.Wire.{chunks, chunks_arrive, sends, sends_progress}

abbrev first_line : Bytes
first_line = codes "POST /v1 HTTP/1.1"

abbrev size_line : Bytes
size_line = codes "Content-Length: 2"

abbrev request : Bytes
request = text_of (first_line ∷ size_line ∷ []) ++ (crlf ++ codes "{}")

refusal_example :
    close_client keys_env no_files no_handler
      (true ∷ [])
      5
      (chunks 60)
      (text_of (first_line ∷ size_line ∷ []) ++ (crlf ++ (codes "{}" ++ codes "more")))
      (sends 500)
      (sends 100)
    ≡ (5, some (refusal keys_env request ++ unauthorized_body))
unfolding has_char str_eq line_has_name case_starts_with configured_keys key_file public_path
    copy_request_path memchr cut_query target routed_path safe_env is_public one_of last_dot
    starts_with case_eq line_value strtoull signed_value digits_value header_text status_lines
    print_lines decimal decimal_loop credentials allow_origin vary reason cors_origin_allowed
    origin_of copy_header_value header_loop line_length strstr copied_value trimmed_value trim_end
refusal_example =
    close_client-refusal keys_env no_files no_handler [] 5 first_line (size_line ∷ []) (codes "{}")
      (codes "more") (chunks 60) (sends 500) (sends 100)
      (((refl, refl), (λ e. cc), λ e. cc), (((refl, refl), (λ e. cc), λ e n. cc), tt)) refl
      (omega arith) (refl, refl) (refl, (refl, (refl, (refl, tt))))
      (refl, (refl, (refl, (refl, tt)))) refl refl refl (chunks_arrive 60) (omega arith)
      (sends_progress 500) (sends_progress 100) (omega arith) (omega arith) (omega arith)
