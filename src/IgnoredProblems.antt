-- ===== src/IgnoredProblems.antt =====
-- src/lib/ignored_problems.c: the list of the problems that nobody is told of. It is a file with a row
-- `id;uuid;duphash` for each. What opening, writing and renaming give, what is in the problem's
-- directory, and how libreport's `xmalloc_fgetline` cuts a text into lines are arguments.
pub mod Rows
pub mod Failures
pub mod Tests
use abrt.Base.{
  ℕ, Bool, true, false, ◌&&◌, ◌||◌, List, [], ◌∷◌, ◌++◌, Option, none, some, ◌==◌, if◌then◌else◌,
  Str, starts_with, length, take, ◌+◌,
}

-- The text up to `strchrnul(line, ';')`
unfoldable pub column : Str → Str
column [] = []
column (c ∷ line) = if c == b';' then [] else c ∷ column line

-- What follows the delimiter, or none at the end of the line
unfoldable pub columns_behind : Str → Option Str
columns_behind [] = none
columns_behind (c ∷ line) = if c == b';' then some line else columns_behind line

-- `strncmp(value, ignored, sz) == 0 && value[sz] == '\0'`
abbrev pub is_column : Str → Str → Bool
is_column value ignored = starts_with ignored value && (length value == length ignored)

-- The same after `value != NULL`
pub is_optional_column : Option Str → Str → Bool
is_optional_column none ignored = false
is_optional_column (some value) ignored = is_column value ignored

-- A problem as the functions get it
pub record Problem : Type 0 where
  pub problem_id : Str
  pub uuid : Option Str
  pub duphash : Option Str

pub third_column : Problem → Option Str → Bool
unfolding is_optional_column
third_column problem none = false
third_column problem (some line) = is_optional_column problem.duphash (column line)

pub second_column : Problem → Option Str → Bool
unfolding is_optional_column
second_column problem none = false
second_column problem (some line) =
    if is_optional_column problem.uuid (column line)
    then true
    else third_column problem (columns_behind line)

unfoldable pub ignored_problems_eq : Problem → Str → Bool
ignored_problems_eq problem line =
    if is_column problem.problem_id (column line)
    then true
    else second_column problem (columns_behind line)

unfoldable pub any_row : Problem → List Str → Bool
any_row problem [] = false
any_row problem (line ∷ lines) =
    if ignored_problems_eq problem line then true else any_row problem lines

-- The file of the list and the temporary file beside it
pub record Files : Type 0 where
  pub ignored_set : Option Str
  pub temporary : Option Str

-- `ignored_problems_file_contains` on the text that fopen gives, if any
unfoldable pub file_contains : (Str → List Str) → Problem → Option Str → Bool
file_contains fgetlines problem none = false
file_contains fgetlines problem (some text) = any_row problem (fgetlines text)

abbrev pub column_text : Option Str → Str
column_text none = []
column_text (some value) = value

-- "%s;%s;%s\n"
abbrev pub row_of : Problem → Str
row_of problem =
    problem.problem_id ++ b';' ∷ (column_text problem.uuid ++ b';' ∷ column_text problem.duphash)

abbrev pub newline : Str
newline = b'\n' ∷ []

-- The mode "a+" makes the file if there is none.
abbrev pub opened_append : Bool → Option Str → Option Str
opened_append false file = none
opened_append true none = some []
opened_append true (some text) = some text

abbrev pub or_else : Option Str → Option Str → Option Str
or_else none file = file
or_else (some text) file = some text

unfoldable pub append_row : ℕ → Problem → Option Str → Files → Files
append_row written problem none files = files
append_row written problem (some text) files = record files {
  ignored_set = some (text ++ take written (row_of problem ++ newline));
}

-- `opens` is whether fopen succeeds, `written` how many bytes of the row reach the file.
unfoldable pub add_row : (Str → List Str) → Bool → ℕ → Problem → Files → Files
add_row fgetlines opens written problem files =
    let fp = opened_append opens files.ignored_set in
    let opened = record files { ignored_set = or_else fp files.ignored_set } in
    if file_contains fgetlines problem fp then opened else append_row written problem fp opened

-- The loop over the original: whether it gets to the end, and what is written. `writes` is what
-- `full_write` gives for a row and its newline: how many bytes are written, or none if it is negative. A
-- row of which only a part is written counts as written.
unfoldable pub copy_rows : (Str → Option ℕ) → Problem → List Str → Bool × Str
copy_rows writes problem [] = (true, [])
copy_rows writes problem (line ∷ lines) =
    let rest = copy_rows writes problem lines in
    if ignored_problems_eq problem line then rest else elim (writes line) [
      | none ↦ (false, [])
      | some written ↦ (rest.0, take written (line ++ newline) ++ rest.1)
    ]

-- What the system answers to `ignored_problems_remove_row`
pub record Answers : Type 0 where
  pub opens : Bool
  pub made : Bool
  pub writes : Str → Option ℕ
  pub renames : Bool
  pub unlinks : Bool

abbrev pub opened_read : Bool → Option Str → Option Str
opened_read false file = none
opened_read true file = file

abbrev pub unlink_new : Bool → Str → Files → Files
unlink_new unlinks text files = record files { temporary = if unlinks then none else some text }

-- rename, or unlink of the temporary file
pub replace_set : Answers → Bool × Str → Files → Files
replace_set answers (false, text) files = unlink_new answers.unlinks text files
replace_set answers (true, text) files =
    if answers.renames
    then record files { ignored_set = some text; temporary = none }
    else unlink_new answers.unlinks text files

pub rewrite_set : (Str → List Str) → Answers → Problem → Option Str → Files → Files
unfolding replace_set
rewrite_set fgetlines answers problem none files = files
rewrite_set fgetlines answers problem (some text) files =
    if answers.made
    then replace_set answers (copy_rows answers.writes problem (fgetlines text)) files
    else files

unfoldable pub remove_row : (Str → List Str) → Answers → Problem → Files → Files
unfolding rewrite_set
remove_row fgetlines answers problem files =
    let orig_fp = opened_read answers.opens files.ignored_set in
    if file_contains fgetlines problem orig_fp
    then rewrite_set fgetlines answers problem orig_fp files
    else files

-- The texts `uuid` and `duphash` of the problem's directory; none where the directory cannot be opened
pub data Directory : Type 0 where
  closed : Directory
  texts : Option Str → Option Str → Directory

unfoldable pub ignored_problems_add : (Str → List Str) → Bool → ℕ → Str → Directory → Files → Files
ignored_problems_add fgetlines opens written problem_id closed files = files
ignored_problems_add fgetlines opens written problem_id (texts uuid duphash) files =
    add_row fgetlines opens written
      (record { problem_id = problem_id; uuid = uuid; duphash = duphash }) files

unfoldable pub ignored_problems_remove :
    (Str → List Str) → Answers → Str → Directory → Files → Files
ignored_problems_remove fgetlines answers problem_id closed files =
    remove_row fgetlines answers (record { problem_id = problem_id; uuid = none; duphash = none })
      files
ignored_problems_remove fgetlines answers problem_id (texts uuid duphash) files =
    remove_row fgetlines answers
      (record { problem_id = problem_id; uuid = uuid; duphash = duphash }) files

unfoldable pub ignored_problems_contains : (Str → List Str) → Bool → Str → Directory → Files → Bool
ignored_problems_contains fgetlines opens problem_id closed files = false
ignored_problems_contains fgetlines opens problem_id (texts uuid duphash) files =
    file_contains fgetlines (record { problem_id = problem_id; uuid = uuid; duphash = duphash })
      (opened_read opens files.ignored_set)
