-- ===== src/Server/Clean.antt =====
-- Which entries the table of a request can hold.
use abrt.Base.{
  ℕ, zero, suc, ◌≡◌, inl, inr, true, false, List, [], ◌∷◌, Option, none, some, Str, codes, str_eq,
  ltb, length, ◌+◌, All, Bool-cases, Option-cases, if_both, map,
}
use abrt.Server.{
  ProblemInfo, info_insert, to_lower, Policy, key_value_ok, cut_at, store_pair, process_message,
  process_lines, UrlType, creation_notification, creation_request, lines_of, read_body,
}
use abrt.Server.Body.{process_cut, process_stays}

-- Each entry is allowed by the policy, and none is the uid.
unfoldable pub IsClean : Policy → ProblemInfo → Type 0
IsClean policy =
    All
      (λ (e : Str × Str). (key_value_ok policy e.0 e.1 ≡ true) × (str_eq e.0 (codes "uid") ≡ false))

module _ (policy : Policy) where
  insert-IsClean :
      (key value : Str) (table : ProblemInfo)
      → key_value_ok policy key value ≡ true
      → str_eq key (codes "uid") ≡ false
      → IsClean policy table
      → IsClean policy (info_insert key value table)
  unfolding info_insert IsClean
  insert-IsClean key value [] ok other c = ((ok, other), tt)
  insert-IsClean key value ((k, v) ∷ table) ok other c =
      if_both (IsClean policy) (str_eq k key) ((ok, other), c.1)
        (c.0, insert-IsClean key value table ok other c.1)

  store-IsClean :
      (pair : Option (Str × Str)) (table : ProblemInfo)
      → IsClean policy table
      → IsClean policy (store_pair policy pair table)
  unfolding store_pair
  store-IsClean none table c = c
  store-IsClean (some (name, value)) table c =
      elim (Bool-cases (key_value_ok policy (map to_lower name) value)) [
        | inr bad ↦ rw bad c
        | inl ok ↦ rw ok (elim (Bool-cases (str_eq (map to_lower name) (codes "uid"))) [
          | inl uid ↦ rw uid c
          | inr other ↦ rw other (insert-IsClean (map to_lower name) value table ok other c)
        ])
      ]

  lines-IsClean :
      (n : ℕ) (table : ProblemInfo) (buffer : Str)
      → IsClean policy table
      → IsClean policy (process_lines policy n table buffer).0
  lines-IsClean zero table buffer c = unfold process_lines in c
  lines-IsClean (suc n) table buffer c = elim (Option-cases (cut_at 0 buffer)) [
    | inl e ↦ rw (process_stays policy (suc n) table buffer e) c
    | inr ((line, rest), e) ↦ rw (process_cut policy n table buffer line rest e) (
        lines-IsClean n _ rest (unfold process_message in store-IsClean (cut_at b'=' line) table c))
  ]

  lines_of-IsClean :
      (url : UrlType) (table : ProblemInfo) (buffer : Str)
      → IsClean policy table
      → IsClean policy (lines_of policy url table buffer).0
  unfolding lines_of
  lines_of-IsClean creation_request table buffer c = lines-IsClean (length buffer) table buffer c
  lines_of-IsClean creation_notification table buffer c = c

  unfoldable pub CleanBody : Option (ProblemInfo × Str) → Type 0
  CleanBody none = Unit
  CleanBody (some (table, buffer)) = IsClean policy table

  pub read_body-Clean :
      (url : UrlType) (reads : List Str) (total : ℕ) (table : ProblemInfo) (buffer : Str)
      → IsClean policy table
      → CleanBody (read_body policy url reads total (table, buffer))
  unfolding read_body CleanBody
  read_body-Clean url [] total table buffer c = lines_of-IsClean url table buffer c
  read_body-Clean url (bytes ∷ reads) total table buffer c =
      if_both CleanBody (ltb 4194304 (total + length bytes)) tt
        (read_body-Clean url reads (total + length bytes) _ _ (lines_of-IsClean url table buffer c))
