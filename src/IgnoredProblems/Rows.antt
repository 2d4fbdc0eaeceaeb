-- ===== src/IgnoredProblems/Rows.antt =====
-- The file of the ignored problems as a list of rows: what adding and removing do to the rows.
use abrt.Base.{
  ℕ, ◌≡◌, ◌≢◌, refl, sym, ap, ◌∙◌, inl, inr, true, false, ◌||◌, List, [], ◌∷◌, ◌++◌, none, some,
  if◌then◌else◌, Str, starts_with, length, take, ◌≤◌, zero, suc, arith, All, append_assoc,
  Bool-cases, ◌+◌, length-append,
}
use abrt.IgnoredProblems.{
  column, is_column, Problem, ignored_problems_eq, any_row, Files, file_contains, row_of, newline,
  append_row, add_row, copy_rows, Answers, replace_set, rewrite_set, remove_row,
}

abbrev pub Lacks : ℕ → Str → Type 0
Lacks c s = All (λ x. x ≢ c) s

-- The rows as `fprintf` and `full_write` leave them in the file
abbrev pub text_of : List Str → Str
text_of [] = []
text_of (row ∷ rows) = row ++ (newline ++ text_of rows)

-- What is asked of `xmalloc_fgetline`: it gives back rows without a newline.
abbrev pub Cuts : (Str → List Str) → Type 0
Cuts fgetlines = (rows : List Str) → All (Lacks b'\n') rows → fgetlines (text_of rows) ≡ rows

-- An id without a delimiter, and texts of one line
pub record IsPlain (p : Problem) : Type 0 where
  pub one_column : Lacks b';' p.problem_id
  pub one_line : Lacks b'\n' (row_of p)

column-append : (value rest : Str) → Lacks b';' value → column (value ++ b';' ∷ rest) ≡ value
unfolding column
column-append [] rest h = refl
column-append (c ∷ value) rest h = ground (arith, column-append value rest h.1, h.0)

starts_with_refl : (s : Str) → starts_with s s ≡ true
unfolding starts_with
starts_with_refl [] = refl
starts_with_refl (c ∷ s) = ground (arith, starts_with_refl s)

is_column_refl : (s : Str) → is_column s s ≡ true
is_column_refl s = rw (starts_with_refl s) (ground arith)

pub eq-row_of : (p : Problem) → Lacks b';' p.problem_id → ignored_problems_eq p (row_of p) ≡ true
unfolding ignored_problems_eq
eq-row_of p h = rw (column-append p.problem_id _ h, is_column_refl p.problem_id) refl

-- The rows after adding, and after removing
abbrev pub added : Problem → List Str → List Str
added p rows = if any_row p rows then rows else rows ++ row_of p ∷ []

unfoldable pub kept : Problem → List Str → List Str
kept p [] = []
kept p (row ∷ rows) = if ignored_problems_eq p row then kept p rows else row ∷ kept p rows

text_of-append :
    (rows : List Str) (row : Str) → text_of (rows ++ row ∷ []) ≡ text_of rows ++ (row ++ newline)
text_of-append [] row = refl
text_of-append (r ∷ rows) row =
    rw (text_of-append rows row) (sym (append_assoc r (newline ++ text_of rows) (row ++ newline)))

lines-append :
    (xs : List Str) (x : Str)
    → All (Lacks b'\n') xs
    → Lacks b'\n' x
    → All (Lacks b'\n') (xs ++ x ∷ [])
lines-append [] x a p = (p, tt)
lines-append (y ∷ xs) x a p = (a.0, lines-append xs x a.1 p)

pub any_row-append :
    (p : Problem) (rows : List Str) (row : Str)
    → any_row p (rows ++ row ∷ []) ≡ (any_row p rows || ignored_problems_eq p row)
unfolding any_row
any_row-append p [] row = ground arith
any_row-append p (r ∷ rows) row = ground (arith, any_row-append p rows row)

take_all : (s : Str) (n : ℕ) → length s ≤ n → take n s ≡ s
take_all [] zero h = refl
take_all [] (suc n) h = refl
take_all (c ∷ s) zero h = ground (arith, h)
take_all (c ∷ s) (suc n) h = ap (λ t. c ∷ t) (take_all s n (ground (arith, h)))

pub added-lines :
    (p : Problem) (rows : List Str)
    → IsPlain p
    → All (Lacks b'\n') rows
    → All (Lacks b'\n') (added p rows)
added-lines p rows h a = elim (Bool-cases (any_row p rows)) [
  | inl e ↦ rw e a
  | inr e ↦ rw e (lines-append rows (row_of p) a h.one_line)
]

any_row-kept : (p : Problem) (rows : List Str) → any_row p (kept p rows) ≡ false
unfolding any_row kept
any_row-kept p [] = refl
any_row-kept p (row ∷ rows) = ground (arith, any_row-kept p rows)

kept-same : (p : Problem) (rows : List Str) → any_row p rows ≡ false → kept p rows ≡ rows
unfolding any_row kept
kept-same p [] h = refl
kept-same p (row ∷ rows) h = ground (arith, kept-same p rows)

kept-append :
    (p : Problem) (rows : List Str) (row : Str)
    → ignored_problems_eq p row ≡ true
    → kept p (rows ++ row ∷ []) ≡ kept p rows
unfolding kept
kept-append p [] row h = ground (arith, h)
kept-append p (r ∷ rows) row h = ground (arith, kept-append p rows row h)

abbrev pub yes : Answers
yes = record {
  opens = true;
  made = true;
  writes = λ row. some (length row + 1);
  renames = true;
  unlinks = true;
}

pub take_whole : (row : Str) → take (length row + 1) (row ++ newline) ≡ row ++ newline
take_whole row =
    take_all (row ++ newline) (length row + 1) (omega (arith, length-append row newline))

pub copy_rows-kept :
    (p : Problem) (rows : List Str) → copy_rows yes.writes p rows ≡ (true, text_of (kept p rows))
unfolding copy_rows kept
copy_rows-kept p [] = refl
copy_rows-kept p (row ∷ rows) = elim (Bool-cases (ignored_problems_eq p row)) [
  | inl e ↦ rw e (copy_rows-kept p rows)
  | inr e ↦
      rw (e, copy_rows-kept p rows, take_whole row)
        (ap (λ t. (true, t)) (append_assoc row newline (text_of (kept p rows))))
]

-- The files with a list of these rows, and no temporary file
abbrev pub files_of : List Str → Files
files_of rows = record { ignored_set = some (text_of rows); temporary = none }

module _ (fgetlines : Str → List Str) (cuts : Cuts fgetlines) where
  pub file_contains-text_of :
      (p : Problem) (rows : List Str)
      → All (Lacks b'\n') rows
      → file_contains fgetlines p (some (text_of rows)) ≡ any_row p rows
  unfolding file_contains
  file_contains-text_of p rows a = ap (any_row p) (cuts rows a)

  -- On a file of whole rows, adding appends the row of the problem, unless a row matches the problem.
  add_row-added :
      (p : Problem) (rows : List Str) (written : ℕ)
      → All (Lacks b'\n') rows
      → length (row_of p ++ newline) ≤ written
      → add_row fgetlines true written p (files_of rows) ≡ files_of (added p rows)
  unfolding add_row append_row
  add_row-added p rows written a h =
      rw (file_contains-text_of p rows a) (elim (Bool-cases (any_row p rows)) [
        | inl e ↦ rw e refl
        | inr e ↦
            rw (e, take_all (row_of p ++ newline) written h, text_of-append rows (row_of p)) refl
      ])

  -- A problem that was added is contained, and each other problem is contained exactly if it was before
  -- or the new row matches it.
  contains-add_row :
      (p q : Problem) (rows : List Str) (written : ℕ)
      → IsPlain p
      → All (Lacks b'\n') rows
      → length (row_of p ++ newline) ≤ written
      → (file_contains fgetlines p (add_row fgetlines true written p (files_of rows)).ignored_set
          ≡ true)
        × (any_row p rows ≡ false
            → file_contains fgetlines q
                (add_row fgetlines true written p (files_of rows)).ignored_set
              ≡ (file_contains fgetlines q (some (text_of rows))
                  || ignored_problems_eq q (row_of p)))
  contains-add_row p q rows written plain a h =
      rw
        (
          add_row-added p rows written a h,
          file_contains-text_of p (added p rows) (added-lines p rows plain a),
          file_contains-text_of q (added p rows) (added-lines p rows plain a),
          file_contains-text_of q rows a,
        )
        (
          elim (Bool-cases (any_row p rows)) [
            | inl e ↦ rw e e
            | inr e ↦
                rw e (
                  any_row-append p rows (row_of p)
                  ∙ ground (arith, e, eq-row_of p plain.one_column))
          ],
          λ e. rw e (any_row-append q rows (row_of p)),
        )

  -- When every step succeeds, removing leaves the rows that do not match the problem, in their order,
  -- and the problem is not contained any more.
  remove_row-kept :
      (p : Problem) (rows : List Str)
      → All (Lacks b'\n') rows
      → (remove_row fgetlines yes p (files_of rows) ≡ files_of (kept p rows))
        × (any_row p (kept p rows) ≡ false)
  unfolding remove_row rewrite_set replace_set
  remove_row-kept p rows a = (
    rw (file_contains-text_of p rows a, cuts rows a)
        (elim (Bool-cases (any_row p rows)) [
          | inl e ↦ rw e (rw (copy_rows-kept p rows) refl)
          | inr e ↦ rw e (ap files_of (sym (kept-same p rows e)))
        ]),
    any_row-kept p rows,
  )

  -- Removing a problem that was not contained undoes adding it.
  pub remove_row-add_row :
      (p : Problem) (rows : List Str) (written : ℕ)
      → IsPlain p
      → All (Lacks b'\n') rows
      → length (row_of p ++ newline) ≤ written
      → file_contains fgetlines p (some (text_of rows)) ≡ false
      → remove_row fgetlines yes p (add_row fgetlines true written p (files_of rows))
        ≡ files_of rows
  remove_row-add_row p rows written plain a h new =
      let none_before = sym (file_contains-text_of p rows a) ∙ new in
      rw (add_row-added p rows written a h, none_before)
        ((remove_row-kept p (rows ++ row_of p ∷ [])
            (lines-append rows (row_of p) a plain.one_line)).0
          ∙ ap files_of (
              kept-append p rows (row_of p) (eq-row_of p plain.one_column)
              ∙ kept-same p rows none_before))
