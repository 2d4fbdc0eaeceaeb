-- ===== src/IgnoredProblems/Tests.antt =====
-- Runs on the list of ignored problems, and the theorems about it at concrete problems.
use abrt.Base.{
  ℕ, ◌≡◌, refl, Bool, true, false, List, [], ◌∷◌, ◌++◌, none, some, Str, codes, length, ◌≤◌, arith,
  All, starts_with, ◌==◌, if◌then◌else◌,
}
use abrt.IgnoredProblems.{
  second_column, third_column, column, columns_behind, Problem, ignored_problems_eq, any_row,
  file_contains, row_of, newline, append_row, add_row, copy_rows, Answers, remove_row, closed,
  texts, ignored_problems_add, ignored_problems_remove, ignored_problems_contains,
}
use abrt.IgnoredProblems.Rows.{Lacks, text_of, Cuts, IsPlain, files_of, yes, remove_row-add_row}

abbrev in_front : ℕ → List Str → List Str
in_front c [] = (c ∷ []) ∷ []
in_front c (line ∷ lines) = (c ∷ line) ∷ lines

-- A way to cut a text into lines, the last of which may lack its newline
abbrev cut_lines : Str → List Str
cut_lines [] = []
cut_lines (c ∷ text) = if c == b'\n' then [] ∷ cut_lines text else in_front c (cut_lines text)

cut_line :
    (row text : Str) → Lacks b'\n' row → cut_lines (row ++ (newline ++ text)) ≡ row ∷ cut_lines text
cut_line [] text h = refl
cut_line (c ∷ row) text h = rw (cut_line row text h.1) (ground (arith, h.0))

cut_lines-Cuts : Cuts cut_lines
cut_lines-Cuts [] a = refl
cut_lines-Cuts (row ∷ rows) a = rw (cut_line row (text_of rows) a.0, cut_lines-Cuts rows a.1) refl

abbrev oops : Problem
oops = record { problem_id = codes "/p/a"; uuid = some (codes "u1"); duphash = none }

abbrev other : Problem
other = record { problem_id = codes "/p/b"; uuid = some (codes "u1"); duphash = some (codes "d2") }

abbrev rows : List Str
rows = codes "/p/c;u3;d3" ∷ codes "/p/d" ∷ []

two_columns :
    (ignored_problems_eq other (row_of oops) ≡ true)
    × (ignored_problems_eq other (codes "/p/d") ≡ false)
    × (ignored_problems_eq other (codes "x;;d2;y") ≡ true)
unfolding ignored_problems_eq column columns_behind starts_with second_column third_column
two_columns = (refl, refl, refl)

runs :
    ((ignored_problems_add cut_lines true 100
        (codes "/p/a")
        (texts (some (codes "u1")) none)
        (files_of rows)).ignored_set
      ≡ some (codes "/p/c;u3;d3\n/p/d\n/p/a;u1;\n"))
    × (ignored_problems_contains cut_lines true (codes "/p/c") (texts none none) (files_of rows)
        ≡ true)
    × (ignored_problems_contains cut_lines true (codes "/p/c") closed (files_of rows) ≡ false)
    × ((ignored_problems_remove cut_lines yes (codes "/p/c") closed (files_of rows)).ignored_set
        ≡ some (codes "/p/d\n"))
unfolding ignored_problems_add ignored_problems_contains ignored_problems_remove add_row append_row
    file_contains any_row ignored_problems_eq column columns_behind starts_with remove_row copy_rows
    second_column third_column
runs = (refl, refl, refl, refl)

abbrev avoids : ℕ → Str → Bool
avoids c [] = true
avoids c (x ∷ s) = if x == c then false else avoids c s

avoids-Lacks : (c : ℕ) (s : Str) → avoids c s ≡ true → Lacks c s
avoids-Lacks c [] h = tt
avoids-Lacks c (x ∷ s) h = (ground (arith, h), avoids-Lacks c s (ground (arith, h)))

rows_lines : All (Lacks b'\n') rows
rows_lines =
    (avoids-Lacks b'\n' (codes "/p/c;u3;d3") refl, (avoids-Lacks b'\n' (codes "/p/d") refl, tt))

oops-IsPlain : IsPlain oops
oops-IsPlain = record {
  one_column = avoids-Lacks b';' oops.problem_id refl;
  one_line = avoids-Lacks b'\n' (row_of oops) refl;
}

oops_fits : length (row_of oops ++ newline) ≤ 100
oops_fits = omega arith

remove_row-add_row_example :
    remove_row cut_lines yes oops (add_row cut_lines true 100 oops (files_of rows)) ≡ files_of rows
remove_row-add_row_example =
    remove_row-add_row cut_lines cut_lines-Cuts oops rows 100 oops-IsPlain rows_lines oops_fits
      not_yet
  where
    not_yet : file_contains cut_lines oops (some (text_of rows)) ≡ false
    not_yet =
        unfold file_contains in
        unfold any_row in
        unfold ignored_problems_eq in
        unfold column in
        unfold columns_behind in
        unfold starts_with in unfold second_column in unfold third_column in refl

abbrev full_disk : Answers
full_disk = record yes { writes = λ row. if length row == 0 then some 1 else none; unlinks = false }

-- The row that is written in part replaces the list.
abbrev short_write : Answers
short_write = record yes { writes = λ _. some 3 }

remove_row-short_write :
    (remove_row cut_lines short_write
      (record oops { problem_id = codes "/p/c" })
      (files_of rows)).ignored_set
    ≡ some (codes "/p/")
unfolding remove_row file_contains any_row copy_rows ignored_problems_eq column columns_behind
    starts_with second_column third_column
remove_row-short_write = refl
