-- ===== src/Server.antt =====
-- src/daemon/abrt-server.c: what a client's request makes of its bytes. A table of problem data is an
-- association list. The checks of libreport on names and on values, and the bytes that each read gives,
-- are arguments.
pub mod Request
pub mod Body
pub mod Entries
pub mod Clean
pub mod Permitted
pub mod PostCreate
pub mod Fate
pub mod Notice
pub mod Creation
pub mod Owner
pub mod Tests
use abrt.Base.{
  ℕ, Bool, true, false, not, ◌&&◌, ◌||◌, List, [], ◌∷◌, ◌++◌, Option, none, some, ◌==◌,
  if◌then◌else◌, Str, codes, str_eq, starts_with, ltb, leb, length, drop, take, ◌+◌, ◌-◌, ◌*◌, map,
  zero, suc,
}

abbrev pub max_message_size : ℕ
max_message_size = 4194304

abbrev pub ProblemInfo : Type 0
ProblemInfo = List (Str × Str)

unfoldable pub info_insert : Str → Str → ProblemInfo → ProblemInfo
info_insert key value [] = (key, value) ∷ []
info_insert key value ((k, v) ∷ table) =
    if str_eq k key then (key, value) ∷ table else (k, v) ∷ info_insert key value table

unfoldable pub info_lookup : Str → ProblemInfo → Option Str
info_lookup key [] = none
info_lookup key ((k, v) ∷ table) = if str_eq k key then some v else info_lookup key table

-- `isalpha` for ASCII
abbrev pub is_alpha : ℕ → Bool
is_alpha c = (leb b'A' c && leb c b'Z') || (leb b'a' c && leb c b'z')

abbrev pub to_lower : ℕ → ℕ
to_lower c = if leb b'A' c && leb c b'Z' then c + 32 else c

unfoldable pub is_key : Str → Bool
is_key [] = true
is_key (c ∷ key) =
    if is_alpha c || (c == b'-') || (c == b'_') || (c == b' ') then is_key key else false

-- `str_is_correct_filename`, and `allowed_new_user_problem_entry` for the client's uid
pub record Policy : Type 0 where
  pub correct_filename : Str → Bool
  pub allowed_entry : Str → Str → Bool

unfoldable pub key_value_ok : Policy → Str → Str → Bool
key_value_ok policy key value =
    if not (is_key key)
    then false
    else if (str_eq key (codes "basename") || str_eq key (codes "type"))
        && not (policy.correct_filename value)
    then false
    else policy.allowed_entry key value

-- The text before the first `c`, and what follows it
unfoldable pub cut_at : ℕ → Str → Option (Str × Str)
cut_at c [] = none
cut_at c (x ∷ s) =
    if x == c
    then some ([], s)
    else elim (cut_at c s) [ none ↦ none | some (before, rest) ↦ some (x ∷ before, rest) ]

-- A buffer as a C string
unfoldable pub c_text : Str → Str
c_text s = elim (cut_at 0 s) [ none ↦ s | some (text, rest) ↦ text ]

pub store_pair : Policy → Option (Str × Str) → ProblemInfo → ProblemInfo
store_pair policy none table = table
store_pair policy (some (name, value)) table =
    let key = map to_lower name in
    if not (key_value_ok policy key value)
    then table
    else if str_eq key (codes "uid")
    then table
    else info_insert key value table

unfoldable pub process_message : Policy → ProblemInfo → Str → ProblemInfo
unfolding store_pair
process_message policy table message = store_pair policy (cut_at b'=' message) table

-- The inner loop of `perform_http_xact` over the buffer: `fuel` bounds the messages in it.
unfoldable pub process_lines : Policy → ℕ → ProblemInfo → Str → ProblemInfo × Str
process_lines policy zero table buffer = (table, buffer)
process_lines policy (suc fuel) table buffer = elim (cut_at 0 buffer) [
  | none ↦ (table, buffer)
  | some (line, rest) ↦ process_lines policy fuel (process_message policy table line) rest
]

pub data UrlType : Type 0 where
  creation_notification : UrlType
  creation_request : UrlType

pub lines_of : Policy → UrlType → ProblemInfo → Str → ProblemInfo × Str
lines_of policy creation_request table buffer = process_lines policy (length buffer) table buffer
lines_of policy creation_notification table buffer = (table, buffer)

-- The loop that reads the body; none where the program dies.
unfoldable pub read_body :
    Policy → UrlType → List Str → ℕ → ProblemInfo × Str → Option (ProblemInfo × Str)
unfolding lines_of
read_body policy url [] total (table, buffer) = some (lines_of policy url table buffer)
read_body policy url (bytes ∷ reads) total (table, buffer) =
    let so_far = lines_of policy url table buffer in
    let rest = read_body policy url reads (total + length bytes) (so_far.0, so_far.1 ++ bytes) in
    if ltb max_message_size (total + length bytes) then none else rest

-- What follows an empty line, if the text begins with one
unfoldable pub blank_line : Str → Option Str
blank_line [] = none
blank_line (c ∷ s) = if c == b'\n' then some s else if c == b'\r' then after_return s else none
  where
    after_return : Str → Option Str
    after_return [] = none
    after_return (c ∷ s) = if c == b'\n' then some s else none

-- The search for the end of the header from the place `index` on: the length of the header, and the
-- body so far.
unfoldable pub header_end : ℕ → Str → Option (ℕ × Str)
header_end index [] = none
header_end index (c ∷ s) =
    if c == b'\n'
    then elim (blank_line s) [
      | some body ↦ some (index + 1, body)
      | none ↦ header_end (index + 1) s
    ]
    else header_end (index + 1) s

-- Two of the bytes before the last read may belong to the end.
abbrev pub search_from : ℕ → ℕ
search_from len = if ltb 1 len then len - 2 else len

pub record Header : Type 0 where
  pub line : Str
  pub body_start : Option Str
  pub reads_left : List Str
  pub total_bytes : ℕ

-- The loop that reads the header; none where the program dies.
unfoldable pub read_header : List Str → Str → ℕ → Option Header
read_header [] buffer total =
    some (record { line = c_text buffer; body_start = none; reads_left = []; total_bytes = total })
read_header (bytes ∷ reads) buffer total =
    let data_read = buffer ++ bytes in
    let count = total + length bytes in
    let from = search_from (length buffer) in
    if ltb max_message_size count then none else elim (header_end from (drop from data_read)) [
      | some (len, body) ↦ some (record {
        line = c_text (take len data_read);
        body_start = some body;
        reads_left = reads;
        total_bytes = count;
      })
      | none ↦ read_header reads data_read count
    ]
