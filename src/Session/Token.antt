-- ===== src/Session/Token.antt =====
-- The tokens of a session: `p2s_tokens` as a map to the pointer that holds the time of expiry.
use abrt.Base.{
  ℕ, ◌+◌, ◌*◌, ◌/◌, ◌%◌, ◌^◌, Bool, true, false, List, [], ◌∷◌, map, Option, none, some, ltb, ◌==◌,
  if◌then◌else◌, Str, str_eq, codes, get_or, is_some,
}
use abrt.Session.Machine.{
  State, authorized, Session, Error, not_authorized, urandom_open, urandom_read, no_time,
}

abbrev pub Table : Type 0
Table = Str → Option ℕ

abbrev pub table_insert : Table → Str → ℕ → Table
table_insert t k v j = if str_eq k j then some v else t j

abbrev pub table_remove : Table → Str → Table
table_remove t k j = if str_eq k j then none else t j

-- `g_hash_table_lookup` as the code uses it: a stored null pointer reads as a missing key.
unfoldable pub expire_lookup : Table → Str → Option ℕ
expire_lookup t k = elim (t k) [ none ↦ none | some e ↦ if e == 0 then none else some e ]

-- `curtime > (time_t)GPOINTER_TO_INT(expire)`: the pointer is cut to a 32-bit `int`.
unfoldable pub is_expired : ℕ → ℕ → Bool
is_expired curtime expire =
    let low = expire % 2 ^ 32 in if ltb low (2 ^ 31) then ltb low curtime else true

abbrev pub alphabet : Str
alphabet = codes "ABCDEFGHIJKLMNOPQRSTUVWXYZabcdefghijklmnopqrstuvwxyz0123456789+/"

-- glibc's RAND_MAX
abbrev pub rand_max : ℕ
rand_max = 2147483647

-- `alphabet[(int)(strlen(alphabet) * (rand_r(&seed) / (double)RAND_MAX))]`; the division in double
-- precision never reaches the next 64th. The byte behind the alphabet is its NUL.
unfoldable pub token_byte : ℕ → ℕ
token_byte draw = get_or alphabet (64 * draw / rand_max) 0

-- What a C string of these bytes is: it ends at the first NUL.
unfoldable pub c_string : List ℕ → Str
c_string [] = []
c_string (c ∷ cs) = if c == 0 then [] else c ∷ c_string cs

-- /dev/urandom: it cannot be opened, the read is short, or the seed leads to these draws of `rand_r`.
pub data Urandom : Type 0 where
  no_open short_read : Urandom
  draws : List ℕ → Urandom

store_token : Session → Str → ℕ → Option ℕ → (Option Str × Option Error) × Session
store_token s token duration none = ((none, some no_time), s)
store_token s token duration (some curtime) =
    ((some token, none), record s { tokens = table_insert s.tokens token (curtime + duration) })

-- With the token cut where C would see it end.
generate_from : Urandom → Session → ℕ → Option ℕ → (Option Str × Option Error) × Session
generate_from no_open s duration time = ((none, some urandom_open), s)
generate_from short_read s duration time = ((none, some urandom_read), s)
generate_from (draws rs) s duration time =
    store_token s (c_string (map token_byte rs)) duration time

is_authorized_state : State → Bool
is_authorized_state authorized = true
is_authorized_state _ = false

unfoldable pub is_authorized : Session → Bool
unfolding is_authorized_state
is_authorized s = is_authorized_state s.state

-- The draws are those of the sixteen rounds of the loop.
unfoldable pub generate_token :
    Session → ℕ → Urandom → Option ℕ → (Option Str × Option Error) × Session
unfolding generate_from store_token is_authorized
generate_token s duration urandom time =
    if is_authorized s
    then generate_from urandom s (if duration == 0 then 5 else duration) time
    else ((none, some not_authorized), s)

-- `g_hash_table_remove(tokens, token) ? 0 : 1`
unfoldable pub revoke_token : Session → Str → ℕ × Session
revoke_token s token =
    (if is_some (s.tokens token) then 0 else 1, record s { tokens = table_remove s.tokens token })
