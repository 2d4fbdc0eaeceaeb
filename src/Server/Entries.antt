-- ===== src/Server/Entries.antt =====
-- The way of a client's entries into the table of the server.
use abrt.Base.{
  ℕ, zero, suc, ◌≡◌, refl, ap, ◌∙◌, true, false, List, [], ◌∷◌, ◌++◌, Option, none, some,
  if◌then◌else◌, Str, codes, str_eq, str_eq_iff, length, length-append, ◌≤◌, arith, All, map,
}
use abrt.Server.{
  max_message_size, ProblemInfo, info_insert, info_lookup, to_lower, Policy, key_value_ok, cut_at,
  store_pair, process_message, process_lines, creation_request, lines_of, read_body,
}
use abrt.Server.Body.{Lacks, joined, cut-append, process_cut, process_stays, read_body-joined}

abbrev pub Entry : Type 0
Entry = Str × Str

-- "KEY=value" and a NUL
abbrev pub message_of : Entry → Str
message_of (key, value) = key ++ b'=' ∷ value

abbrev pub encode : List Entry → Str
encode [] = []
encode (entry ∷ entries) = message_of entry ++ 0 ∷ encode entries

-- A text without NUL, a key without '=', and an entry that the server takes
pub record IsSendable (policy : Policy) (entry : Entry) : Type 0 where
  pub one_text : Lacks 0 (message_of entry)
  pub one_key : Lacks b'=' entry.0
  pub is_ok : key_value_ok policy (map to_lower entry.0) entry.1 ≡ true
  pub not_uid : str_eq (map to_lower entry.0) (codes "uid") ≡ false

-- The entries in the table one after the other
abbrev stored : List Entry → ProblemInfo → ProblemInfo
stored [] table = table
stored ((key, value) ∷ entries) table = stored entries (info_insert (map to_lower key) value table)

-- The value of the last entry whose key is this one in lower case, or else what was there before
unfoldable pub last_value : Str → List Entry → Option Str → Option Str
last_value key [] before = before
last_value key ((k, v) ∷ entries) before =
    last_value key entries (if str_eq (map to_lower k) key then some v else before)

pub lookup-insert :
    (key k v : Str) (table : ProblemInfo)
    → info_lookup key (info_insert k v table)
      ≡ (if str_eq k key then some v else info_lookup key table)
unfolding info_lookup info_insert
lookup-insert key k v [] = ground arith
lookup-insert key k v ((k', v') ∷ table) =
    ground
      (arith, lookup-insert key k v table, str_eq_iff k' k, str_eq_iff k' key, str_eq_iff k key)

lookup-stored :
    (key : Str) (entries : List Entry) (table : ProblemInfo)
    → info_lookup key (stored entries table) ≡ last_value key entries (info_lookup key table)
unfolding last_value
lookup-stored key [] table = refl
lookup-stored key ((k, v) ∷ entries) table =
    lookup-stored key entries (info_insert (map to_lower k) v table)
    ∙ ap (last_value key entries) (lookup-insert key (map to_lower k) v table)

process_message-stored :
    (policy : Policy) (entry : Entry) (table : ProblemInfo)
    → IsSendable policy entry
    → process_message policy table (message_of entry)
      ≡ info_insert (map to_lower entry.0) entry.1 table
unfolding process_message store_pair
process_message-stored policy entry table v =
    rw (cut-append b'=' entry.0 entry.1 v.one_key, v.is_ok, v.not_uid) refl

lines-stored :
    (policy : Policy) (entries : List Entry) (table : ProblemInfo) (n : ℕ)
    → All (IsSendable policy) entries
    → length (encode entries) ≤ n
    → process_lines policy n table (encode entries) ≡ (stored entries table, [])
lines-stored policy [] table n a h = process_stays policy n table [] (unfold cut_at in refl)
lines-stored policy (entry ∷ entries) table zero a h =
    ground (arith, h, length-append (message_of entry) (0 ∷ encode entries))
lines-stored policy (entry ∷ entries) table (suc n) a h =
    process_cut policy n table (encode (entry ∷ entries)) (message_of entry) (encode entries)
      (cut-append 0 (message_of entry) (encode entries) a.0.one_text)
    ∙ ap (λ t. process_lines policy n t (encode entries))
        (process_message-stored policy entry table a.0)
    ∙ lines-stored policy entries _ n a.1
        (ground (arith, h, length-append (message_of entry) (0 ∷ encode entries)))

-- When a client sends entries that the server takes, in messages that are not too long together, the
-- server reads all of them, however its reads cut them, and then its table has for each key the value
-- of the last entry with that key in lower case, and nothing else.
pub read_body-encode :
    (policy : Policy) (entries : List Entry) (reads : List Str)
    → All (IsSendable policy) entries
    → joined reads ≡ encode entries
    → length (encode entries) ≤ max_message_size
    → (table : ProblemInfo) × (read_body policy creation_request reads 0 ([], [])
        ≡ some (table, []))
      × ((key : Str) → info_lookup key table ≡ last_value key entries none)
read_body-encode policy entries reads a e h = (
  stored entries [],
  read_body-joined policy creation_request reads 0 [] [] (ground arith)
      ∙ rw e (
          unfold lines_of in
          rw (lines-stored policy entries [] (length (encode entries)) a (omega arith))
            (ground (arith, h))),
  λ key. lookup-stored key entries [] ∙ ap (last_value key entries) (unfold info_lookup in refl),
)
