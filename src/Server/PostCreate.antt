-- ===== src/Server/PostCreate.antt =====
-- src/daemon/abrt-server.c: the deletion of a problem directory, and the post-create run over a new
-- one. Of a directory the model has the count, the time and the last occurrence. The answers of
-- libreport and of the system, the signal of the daemon and the output and end of the event's process
-- are arguments.
use abrt.Base.{
  ℕ, Bool, true, false, not, ◌&&◌, ◌||◌, List, [], ◌∷◌, ◌++◌, Option, none, some, is_some, ◌==◌,
  if◌then◌else◌, Str, codes, str_eq, starts_with, length, drop, ◌+◌, ◌%◌,
}
use abrt.Base.Int.{ℤ, pos, negsuc}
use abrt.UploadWatch.{strrchr}

-- What the checks of `delete_path` give: whether dd_fdopendir and dd_delete succeed included
pub record DeleteAnswers : Type 0 where
  pub in_location : Bool
  pub permissions : Bool
  pub opened : Bool
  pub accessible : Bool
  pub is_directory : Bool
  pub reopened : Bool
  pub deleted : Bool

-- The answer, and whether the directory is deleted
unfoldable pub delete_path : DeleteAnswers → ℕ × Bool
delete_path answers =
    if not answers.in_location
    then (400, false)
    else if not answers.permissions
    then (400, false)
    else if not answers.opened
    then (400, false)
    else if not answers.accessible
    then (if not answers.is_directory then (404, false) else (403, false))
    else if answers.reopened
    then (if not answers.deleted then (400, false) else (0, true))
    else (0, false)

pub record ProblemDir : Type 0 where
  pub count : ℕ
  pub time : Option Str
  pub last_occurrence : Option Str

abbrev pub Store : Type 0
Store = Str → Option ProblemDir

abbrev pub store_put : Store → Str → Option ProblemDir → Store
store_put store path value other = if str_eq path other then value else store other

pub data Signal : Type 0 where
  sigusr1 : Signal
  sigint : Signal

pub data ChildEnd : Type 0 where
  exited : ℕ → ChildEnd
  killed : ℕ → ChildEnd

-- `wrote` is the result of fprintf, `output` what the process of the event has written, `waited` its
-- end, if waitpid gives it, `openable` whether dd_opendir succeeds on a directory that exists, and
-- `deletes` whether its deletion does.
pub record Outside : Type 0 where
  pub in_location : Bool
  pub permissions : Bool
  pub opened : Bool
  pub provoked : Bool
  pub debug_level : ℕ
  pub complete : Bool
  pub wrote : ℤ
  pub signal : Signal
  pub output : Str
  pub waited : Option ChildEnd
  pub openable : Str → Bool
  pub deletes : Str → Bool
  pub now : Str

-- The returned number, the response and the directories afterwards, and the events that were run
pub record Run : Type 0 where
  pub returned : ℕ
  pub code : ℕ
  pub message : Option Str
  pub store : Store
  pub events : List (Str × Str)

-- `wrote <= 0` after the conversion to size_t
abbrev pub is_failed_write : ℤ → Bool
is_failed_write (pos n) = n == 0
is_failed_write (negsuc n) = false

abbrev pub dup_prefix : Str
dup_prefix = codes "DUP_OF_DIR: "

-- One line of output, and the loop over the bytes; what follows the last newline is no line.
abbrev pub read_line : Option Str → Str → Option Str
read_line dup line =
    if starts_with dup_prefix line then some (drop (length dup_prefix) line) else dup

unfoldable pub dup_of_dir : Option Str → Str → Str → Option Str
dup_of_dir dup cmd_output [] = dup
dup_of_dir dup cmd_output (c ∷ output) =
    if c == b'\n'
    then dup_of_dir (read_line dup cmd_output) [] output
    else dup_of_dir dup (cmd_output ++ c ∷ []) output

unfoldable pub is_bad_end : ChildEnd → Option Str → Bool
is_bad_end (killed signo) dup = true
is_bad_end (exited status) dup = not (status == 0) && not (is_some dup)

unfoldable pub is_nonzero : ChildEnd → Bool
is_nonzero (killed signo) = true
is_nonzero (exited status) = not (status == 0)

abbrev pub end_of : Option ChildEnd → ChildEnd
end_of none = exited 0
end_of (some child_end) = child_end

unfoldable pub open_dir : Outside → Store → Str → Option ProblemDir
open_dir outside store path = if outside.openable path then store path else none

unfoldable pub time_of : Option ProblemDir → Option Str
time_of none = none
time_of (some dir) = dir.time

abbrev pub or_now : Str → Option Str → Str
or_now now none = now
or_now now (some time) = time

-- The new count, an unsigned long, and for another directory the last occurrence
unfoldable pub count_up : Outside → Store → Str → Str → ProblemDir → ProblemDir
unfolding open_dir time_of
count_up outside store dirname work_dir dd =
    let more = record dd { count = (dd.count + 1) % 18446744073709551616 } in
    if str_eq work_dir dirname then more else record more {
      last_occurrence = some (or_now outside.now (time_of (open_dir outside store dirname)));
    }

unfoldable pub update_count : Outside → Store → Str → Str → Bool → ProblemDir → ProblemDir
update_count outside store dirname work_dir is_dup dd =
    if is_dup || (dd.count == 0) then count_up outside store dirname work_dir dd else dd

abbrev pub refused_run : ℕ → Store → Run
refused_run code store = record {
  returned = code;
  code = code;
  message = none;
  store = store;
  events = [];
}

abbrev pub post_create_event : Str
post_create_event = codes "post-create"

-- `delete_dump_dir`, or `dd_delete`
abbrev pub delete_dump_dir : Outside → Str → Store → Store
delete_dump_dir outside path store =
    if outside.deletes path then store_put store path none else store

-- `delete_bad_dir`
abbrev pub delete_bad_dir : Outside → Str → Store → Run
delete_bad_dir outside dirname store = record {
  returned = 0;
  code = 403;
  message = none;
  store = delete_dump_dir outside dirname store;
  events = (post_create_event, dirname) ∷ [];
}

unfoldable pub with_work_dir : Outside → Store → Str → Bool → Option Str → Option ProblemDir → Run
with_work_dir outside store dirname nonzero dup none = delete_bad_dir outside dirname store
with_work_dir outside store dirname nonzero none (some dd) = record {
  returned = 0;
  code = 200;
  message = none;
  store = store_put store dirname (some (update_count outside store dirname dirname false dd));
  events = (post_create_event, dirname) ∷ (codes "notify", dirname) ∷ [];
}
with_work_dir outside store dirname nonzero (some first) (some dd) = record {
  returned = 0;
  code = 303;
  message = some first;
  store =
      delete_dump_dir outside dirname
        (store_put store first (some (update_count outside store dirname first nonzero dd)));
  events = (post_create_event, dirname) ∷ (codes "notify-dup", first) ∷ [];
}

abbrev pub work_dir_of : Str → Option Str → Str
work_dir_of dirname none = dirname
work_dir_of dirname (some first) = first

unfoldable pub after_event : Outside → Store → Str → ChildEnd → Option Str → Run
unfolding is_bad_end with_work_dir
after_event outside store dirname child_end dup =
    if is_bad_end child_end dup
    then delete_bad_dir outside dirname store
    else with_work_dir outside store dirname (is_nonzero child_end) dup
        (open_dir outside store (work_dir_of dirname dup))

unfoldable pub after_signal : Outside → Store → Str → Signal → Run
unfolding after_event
after_signal outside store dirname sigint = refused_run 413 store
after_signal outside store dirname sigusr1 =
    after_event outside store dirname (end_of outside.waited) (dup_of_dir none [] outside.output)

unfoldable pub run_post_create : Outside → Store → Str → Run
unfolding after_signal
run_post_create outside store dirname =
    if not outside.in_location
    then refused_run 400 store
    else if not outside.permissions
    then refused_run 400 store
    else if outside.opened && outside.provoked
    then record {
      returned = 400;
      code = 0;
      message = none;
      store = if outside.debug_level == 0 then delete_dump_dir outside dirname store else store;
      events = [];
    }
    else if outside.opened && outside.complete
    then refused_run 403 store
    else if is_failed_write outside.wrote
    then refused_run 503 store
    else after_signal outside store dirname outside.signal

-- The code that `main` prints, and the exit status
abbrev pub success_code : ℕ → ℕ
success_code r = if r == 0 then 200 else r

abbrev pub response_code : ℕ → ℕ → ℕ
response_code r code = if code == 0 then success_code r else code

-- The line that `emit_new_problem_signal` writes for `strrchr(dirname, '/') + 1`
abbrev pub behind_last : Option Str → Str
behind_last none = []
behind_last (some s) = drop 1 s

unfoldable pub notified_name : Str → Str
notified_name dirname = behind_last (strrchr dirname b'/')

abbrev pub announcement : Str → Str
announcement dirname = codes "NEW_PROBLEM_DETECTED: " ++ (notified_name dirname ++ codes "\n")
