-- ===== src/Server/Body.antt =====
-- The body of a request: the table does not depend on how the reads cut it.
use abrt.Base.{
  ℕ, zero, suc, ◌≡◌, ◌≢◌, refl, sym, ap, ◌∙◌, subst, List, [], ◌∷◌, ◌++◌, Option, none, some, ◌==◌,
  if◌then◌else◌, Str, ltb, length, length-append, ◌+◌, ◌≤◌, ◌<◌, arith, All, Bool-cases,
  Option-cases, inl, inr, append_assoc, append-nil,
}
use abrt.Server.{
  max_message_size, ProblemInfo, Policy, cut_at, process_message, process_lines, UrlType,
  creation_notification, creation_request, lines_of, read_body,
}

abbrev pub joined : List Str → Str
joined [] = []
joined (bytes ∷ reads) = bytes ++ joined reads

abbrev pub Lacks : ℕ → Str → Type 0
Lacks c s = All (λ x. x ≢ c) s

-- What `cut_at` finds
abbrev Cut : ℕ → Str → Option (Str × Str) → Type 0
Cut c s none = Unit
Cut c s (some (before, rest)) = (s ≡ before ++ c ∷ rest) × Lacks c before

pub cut-append :
    (c : ℕ) (before rest : Str)
    → Lacks c before
    → cut_at c (before ++ c ∷ rest) ≡ some (before, rest)
unfolding cut_at
cut-append c [] rest h = ground arith
cut-append c (x ∷ before) rest h = rw (cut-append c before rest h.1) (ground (arith, h.0))

behind_head :
    (c x : ℕ) (s : Str) (o : Option (Str × Str))
    → x ≢ c
    → Cut c s o
    → Cut c (x ∷ s) (elim o [ none ↦ none | some (before, rest) ↦ some (x ∷ before, rest) ])
behind_head c x s none h t = tt
behind_head c x s (some (before, rest)) h (e, a) = (ap (λ r. x ∷ r) e, (h, a))

cut_at-Cut : (c : ℕ) (s : Str) → Cut c s (cut_at c s)
unfolding cut_at
cut_at-Cut c [] = tt
cut_at-Cut c (x ∷ s) = elim (Bool-cases (x == c)) [
  | inl e ↦ rw e (ground arith, tt)
  | inr e ↦ rw e (behind_head c x s (cut_at c s) (ground arith) (cut_at-Cut c s))
]

shorter : (c : ℕ) (s before rest : Str) → cut_at c s ≡ some (before, rest) → length rest < length s
shorter c s before rest h =
    let f = subst (Cut c s) h (cut_at-Cut c s) in
    rw f.0 (ground (arith, length-append before (c ∷ rest)))

cut_later :
    (c : ℕ) (s more before rest : Str)
    → cut_at c s ≡ some (before, rest)
    → cut_at c (s ++ more) ≡ some (before, rest ++ more)
cut_later c s more before rest h =
    let f = subst (Cut c s) h (cut_at-Cut c s) in
    rw (f.0, append_assoc before (c ∷ rest) more) (cut-append c before (rest ++ more) f.1)

module _ (policy : Policy) where
  pub process_cut :
      (fuel : ℕ) (table : ProblemInfo) (buffer line rest : Str)
      → cut_at 0 buffer ≡ some (line, rest)
      → process_lines policy (suc fuel) table buffer
        ≡ process_lines policy fuel (process_message policy table line) rest
  unfolding process_lines
  process_cut fuel table buffer line rest e = rw (process_lines, e) refl

  pub process_stays :
      (fuel : ℕ) (table : ProblemInfo) (buffer : Str)
      → cut_at 0 buffer ≡ none
      → process_lines policy fuel table buffer ≡ (table, buffer)
  unfolding process_lines
  process_stays zero table buffer e = refl
  process_stays (suc fuel) table buffer e = rw (process_lines, e) refl

  -- Any two amounts of fuel that are as long as the buffer give the same.
  process_lines-fuel :
      (n m : ℕ) (table : ProblemInfo) (buffer : Str)
      → length buffer ≤ n
      → length buffer ≤ m
      → process_lines policy n table buffer ≡ process_lines policy m table buffer
  process_lines-fuel zero m table buffer h k = elim (Option-cases (cut_at 0 buffer)) [
    | inl e ↦ process_stays zero table buffer e ∙ sym (process_stays m table buffer e)
    | inr ((line, rest), e) ↦ ground (arith, h, shorter 0 buffer line rest e)
  ]
  process_lines-fuel (suc n) zero table buffer h k = elim (Option-cases (cut_at 0 buffer)) [
    | inl e ↦ process_stays (suc n) table buffer e ∙ sym (process_stays zero table buffer e)
    | inr ((line, rest), e) ↦ ground (arith, k, shorter 0 buffer line rest e)
  ]
  process_lines-fuel (suc n) (suc m) table buffer h k = elim (Option-cases (cut_at 0 buffer)) [
    | inl e ↦ process_stays (suc n) table buffer e ∙ sym (process_stays (suc m) table buffer e)
    | inr ((line, rest), e) ↦
        process_cut n table buffer line rest e
        ∙ process_lines-fuel n m (process_message policy table line) rest
            (ground (arith, h, shorter 0 buffer line rest e))
            (ground (arith, k, shorter 0 buffer line rest e))
        ∙ sym (process_cut m table buffer line rest e)
  ]

  -- With as much fuel as there are bytes
  abbrev all_lines : ProblemInfo → Str → ProblemInfo × Str
  all_lines table buffer = process_lines policy (length buffer) table buffer

  all_lines_cut :
      (table : ProblemInfo) (buffer line rest : Str)
      → cut_at 0 buffer ≡ some (line, rest)
      → all_lines table buffer ≡ all_lines (process_message policy table line) rest
  all_lines_cut table buffer line rest e =
      process_lines-fuel (length buffer) (suc (length buffer)) table buffer (omega arith)
        (omega arith)
      ∙ process_cut (length buffer) table buffer line rest e
      ∙ process_lines-fuel (length buffer) (length rest) (process_message policy table line) rest
          (ground (arith, shorter 0 buffer line rest e)) (omega arith)

  -- Lines of a buffer and of what is added to it later
  process_lines-append :
      (n : ℕ) (table : ProblemInfo) (buffer more : Str)
      → length buffer ≤ n
      → all_lines table (buffer ++ more)
        ≡ all_lines
            (process_lines policy n table buffer).0
            ((process_lines policy n table buffer).1 ++ more)
  process_lines-append zero table buffer more h = unfold process_lines in refl
  process_lines-append (suc n) table buffer more h = elim (Option-cases (cut_at 0 buffer)) [
    | inl e ↦ rw (process_stays (suc n) table buffer e) refl
    | inr ((line, rest), e) ↦ rw (process_cut n table buffer line rest e) (
        all_lines_cut table (buffer ++ more) line (rest ++ more)
          (cut_later 0 buffer more line rest e)
        ∙ process_lines-append n (process_message policy table line) rest more
            (ground (arith, h, shorter 0 buffer line rest e)))
  ]

  lines_of-append :
      (url : UrlType) (table : ProblemInfo) (buffer more : Str)
      → lines_of policy url table (buffer ++ more)
        ≡ lines_of policy url
            (lines_of policy url table buffer).0
            ((lines_of policy url table buffer).1 ++ more)
  unfolding lines_of
  lines_of-append creation_request table buffer more =
      process_lines-append (length buffer) table buffer more (omega arith)
  lines_of-append creation_notification table buffer more = refl

  -- The body is read like one text, however the reads cut it: the program dies exactly if it is too
  -- long, and else the table and the rest of the buffer are those of the joined text.
  pub read_body-joined :
      (url : UrlType) (reads : List Str) (total : ℕ) (table : ProblemInfo) (buffer : Str)
      → total ≤ max_message_size
      → read_body policy url reads total (table, buffer) ≡ (
          if ltb max_message_size (total + length (joined reads))
          then none
          else some (lines_of policy url table (buffer ++ joined reads)))
  unfolding read_body
  read_body-joined url [] total table buffer h = rw (append-nil buffer) (ground (arith, h))
  read_body-joined url (bytes ∷ reads) total table buffer h =
      let same : lines_of policy url table (buffer ++ (bytes ++ joined reads))
          ≡ lines_of policy url (lines_of policy url table buffer).0
              ((lines_of policy url table buffer).1 ++ bytes ++ joined reads) =
        lines_of-append url table buffer (bytes ++ joined reads)
        ∙ ap (lines_of policy url (lines_of policy url table buffer).0)
            (sym (append_assoc (lines_of policy url table buffer).1 bytes (joined reads))) in
      let long = length-append bytes (joined reads) in
      elim (Bool-cases (ltb max_message_size (total + length bytes))) [
        | inl over ↦ ground (arith, over, long)
        | inr fits ↦
            rw
              (
                fits,
                read_body-joined url reads (total + length bytes)
                    (lines_of policy url table buffer).0
                    ((lines_of policy url table buffer).1 ++ bytes) (ground (arith, fits)),
              )
              (ground (arith, same, long))
      ]
