-- ===== src/Https/Tests.antt =====
-- Responses that are read, and the theorems about chunked bodies at concrete ones.
use abrt.Base.{◌≡◌, refl, List, [], ◌∷◌, some, none, Str, codes, starts_with}
use abrt.Https.{
  find_text, find_text_case, http_get_body, header_value, value_within, http_get_header_value,
  hex_digit, hex_value, skip_white, scan_hex, next_line, joined_body, malformed, out_of_bounds,
  split_chunk, read_chunk, join_loop, http_join_chunked,
}
use abrt.Https.Digits.{hex_char}
use abrt.Https.Chunks.{Chunk, encode}

abbrev message : Str
message = codes "HTTP/1.1 200 OK\r\nX-Task-Id: 12 \r\nEmpty: \r\nNone:\r\n\r\nbody"

http_get_header_value-message :
    (http_get_header_value message (codes "x-task-id") ≡ some (codes "12"))
    × (http_get_header_value message (codes "None") ≡ some [])
    × (http_get_header_value message (codes "Empty") ≡ some (codes "\r\nNone:\r\n\r\nbody"))
    × (http_get_header_value message (codes "body") ≡ none)
    × (http_get_body (λ s. s) message ≡ some (codes "body"))
unfolding http_get_header_value value_within header_value http_get_body find_text find_text_case
    starts_with
http_get_header_value-message = (refl, refl, refl, refl, refl)

http_join_chunked-bodies :
    (http_join_chunked (codes "3\r\nabc\r\na\r\n0123456789\r\n0\r\n\r\n") 0
      ≡ joined_body (codes "abc0123456789"))
    × (http_join_chunked (codes "ff\r\nabc\r\n") 0 ≡ out_of_bounds)
    × (http_join_chunked (codes "3") 0 ≡ malformed)
unfolding http_join_chunked join_loop read_chunk split_chunk next_line scan_hex hex_value hex_digit
    skip_white
http_join_chunked-bodies = (refl, refl, refl)

abbrev chunks : List Chunk
chunks =
    (record { size_digits = 0 ∷ 11 ∷ []; content = codes "abc\r\ndefghi" })
    ∷ (record { size_digits = 3 ∷ []; content = codes "xyz" })
    ∷ (record { size_digits = 0 ∷ []; content = [] })
    ∷ []

encode-chunks : encode chunks ≡ codes "0b\r\nabc\r\ndefghi\r\n3\r\nxyz\r\n0\r\n\r\n"
unfolding hex_char
encode-chunks = refl
