-- ===== src/Https.antt =====
-- src/plugins/https-utils.c: what the client of the retrace server reads in an HTTP response. A message
-- is a C string; a length that is passed for a body is not longer than the body.
pub mod Digits
pub mod Chunks
pub mod Tests
use abrt.Base.{
  ℕ, zero, suc, Bool, true, false, not, ◌&&◌, ◌||◌, List, [], ◌∷◌, ◌++◌, Option, none, some, ◌==◌,
  if◌then◌else◌, Str, codes, starts_with, ltb, leb, length, take, drop, ◌+◌, ◌-◌, ◌*◌, ◌%◌, map,
}
use abrt.Server.{to_lower}

-- `strstr`: the text from the first place of the other on
unfoldable pub find_text : Str → Str → Option Str
find_text part [] = if starts_with part [] then some [] else none
find_text part (c ∷ s) = if starts_with part (c ∷ s) then some (c ∷ s) else find_text part s

-- `strcasestr`
unfoldable pub find_text_case : Str → Str → Option Str
find_text_case part [] = if starts_with (map to_lower part) [] then some [] else none
find_text_case part (c ∷ s) =
    if starts_with (map to_lower part) (map to_lower (c ∷ s))
    then some (c ∷ s)
    else find_text_case part s

abbrev pub line_end : Str
line_end = codes "\r\n"

abbrev pub headers_end : Str
headers_end = codes "\r\n\r\n"

-- `trim` is libreport's `strtrimch(body, ' ')`.
unfoldable pub http_get_body : (Str → Str) → Str → Option Str
http_get_body trim message = elim (find_text headers_end message) [
  | none ↦ none
  | some found ↦ some (trim (drop 4 found))
]

abbrev pub skip_blanks : Str → ℕ × Str
skip_blanks [] = (0, [])
skip_blanks (c ∷ s) = if c == b' ' then ((skip_blanks s).0 + 1, (skip_blanks s).1) else (0, c ∷ s)

abbrev pub up_to_line_end : Str → Str
up_to_line_end [] = []
up_to_line_end (c ∷ s) = if (c == b'\r') || (c == b'\n') then [] else c ∷ up_to_line_end s

abbrev pub is_blank : Str → Bool
is_blank [] = true
is_blank (c ∷ s) = (c == b' ') && is_blank s

abbrev pub strip_right : Str → Str
strip_right [] = []
strip_right (c ∷ s) = if is_blank (c ∷ s) then [] else c ∷ strip_right s

-- An empty value behind spaces gets a negative length, with which `xstrndup` copies all that follows.
unfoldable pub header_value : ℕ → Str → Str
header_value spaces [] = []
header_value spaces (c ∷ s) =
    if (c == b'\r') || (c == b'\n')
    then (if spaces == 0 then [] else c ∷ s)
    else strip_right (up_to_line_end (c ∷ s))

unfoldable pub value_within : Str → Option Str → Option Str → Option Str
value_within search none found = none
value_within search (some end_of) none = none
value_within search (some end_of) (some header) =
    if ltb (length header) (length end_of)
    then none
    else let blanks = skip_blanks (drop (length search) header) in
      some (header_value blanks.0 blanks.1)

unfoldable pub http_get_header_value : Str → Str → Option Str
http_get_header_value message name =
    let search = line_end ++ (name ++ codes ":") in
    value_within search (find_text headers_end message) (find_text_case search message)

-- The digits of "%x"
unfoldable pub hex_digit : ℕ → Option ℕ
hex_digit c =
    if leb b'0' c && leb c b'9'
    then some (c - b'0')
    else if leb b'a' c && leb c b'f'
    then some (c - b'a' + 10)
    else if leb b'A' c && leb c b'F'
    then some (c - b'A' + 10)
    else none

unfoldable pub hex_value : Option ℕ → Str → Option ℕ
hex_value value [] = value
hex_value value (c ∷ s) = elim (hex_digit c) [
  | none ↦ value
  | some digit ↦ hex_value (some (match_value value * 16 + digit)) s
]
  where
    match_value : Option ℕ → ℕ
    match_value none = 0
    match_value (some n) = n

abbrev pub is_white : ℕ → Bool
is_white c = (c == b' ') || (leb 9 c && leb c 13)

unfoldable pub skip_white : Str → Str
skip_white [] = []
skip_white (c ∷ s) = if is_white c then skip_white s else c ∷ s

-- `sscanf(cursor, "%x", &len)` for a number without a sign or "0x"
unfoldable pub scan_hex : Str → Option ℕ
scan_hex s = elim (hex_value none (skip_white s)) [ none ↦ none | some n ↦ some (n % 4294967296) ]

-- What follows the next newline, and how far it is
unfoldable pub next_line : Str → Option (ℕ × Str)
next_line [] = none
next_line (c ∷ s) =
    if c == b'\n'
    then some (1, s)
    else elim (next_line s) [ none ↦ none | some (skipped, rest) ↦ some (skipped + 1, rest) ]

pub data Joined : Type 0 where
  joined_body : Str → Joined
  malformed : Joined
  out_of_bounds : Joined
  out_of_rounds : Joined

-- One chunk: the place and the text behind it, and the result
pub data Cut : Type 0 where
  ends : Joined → Cut
  goes_on : ℕ → Str → Str → Cut

unfoldable pub split_chunk : ℕ → ℕ → Str → Option (ℕ × Str) → Cut
split_chunk len place result none = ends malformed
split_chunk len place result (some (skipped, rest)) =
    if ltb (length rest) len
    then ends out_of_bounds
    else goes_on (place + skipped + len + 2) (drop (len + 2) rest) (result ++ take len rest)

unfoldable pub read_chunk : ℕ → Str → Str → Option ℕ → Cut
read_chunk place cursor result none = ends (joined_body result)
read_chunk place cursor result (some len) = split_chunk len place result (next_line cursor)

-- The loop of `http_join_chunked`; `fuel` bounds its rounds.
unfoldable pub join_loop : ℕ → ℕ → ℕ → Str → Str → Joined
join_loop zero blen place cursor result = out_of_rounds
join_loop (suc fuel) blen place cursor result =
    if not (ltb place blen)
    then joined_body result
    else elim (read_chunk place cursor result (scan_hex cursor)) [
      | ends end_of ↦ end_of
      | goes_on further rest more ↦ join_loop fuel blen further rest more
    ]

unfoldable pub http_join_chunked : Str → ℕ → Joined
http_join_chunked body bodylen =
    let blen = if ltb 0 bodylen then bodylen else length body in join_loop (blen + 1) blen 0 body []
