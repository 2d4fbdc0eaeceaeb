-- ===== src/UploadWatch.antt =====
-- src/daemon/abrt-upload-watch.c: the bounded queue of uploaded archives and the pool of workers.
-- `fork` is an argument of what calls it: whether the child could be created. `os_children` is the
-- kernel's account of the children that `waitpid` has not returned yet.
pub mod Deferred
pub mod Invariant
pub mod Order
pub mod Tests
use abrt.Base.{
  ℕ, ◌+◌, ◌-◌, ◌*◌, ◌/◌, ◌%◌, Bool, true, false, not, ◌&&◌, List, [], ◌∷◌, ◌++◌, Option, none, some,
  ltb, ◌==◌, if◌then◌else◌, bit_and, Str, codes, str_eq,
}
use abrt.Base.Int.{ℤ, pos, negsuc, inc32, dec32, u32_mod}
use Deferred.{Queue, queue_push, queue_pop}

-- `log` lists the calls of `run_abrt_handle_upload`, the last one first, each with its fork's result.
pub record Process : Type 0 where
  pub upload_directory : Str
  pub children : ℕ
  pub max_children : ℕ
  pub queue : Queue
  pub quit : Bool
  pub os_children : ℕ
  pub log : List (Str × Bool)
  pub omitted : List Str

unfoldable pub run_abrt_handle_upload : Bool → Process → Str → Process
run_abrt_handle_upload forked proc name =
    let up = inc32 proc.children in
    if forked
    then record proc {
      children = up;
      os_children = proc.os_children + 1;
      log = (name, true) ∷ proc.log;
    }
    else record proc { children = dec32 up; log = (name, false) ∷ proc.log }

-- Behind `queue_push`: the archive is omitted when the queue has refused it.
defer : Process → Str → Queue × Bool → Process
defer proc name (queue, true) = record proc { queue = queue }
defer proc name (queue, false) = record proc { queue = queue; omitted = name ∷ proc.omitted }

unfoldable pub handle_new_path : Bool → Process → Str → Process
unfolding defer
handle_new_path forked proc name =
    if ltb proc.children proc.max_children
    then run_abrt_handle_upload forked proc name
    else defer proc name (queue_push proc.queue name)

unfoldable pub process_next_in_queue : Bool → Process → Process
process_next_in_queue forked proc = elim (queue_pop proc.queue) [
  | none ↦ proc
  | some (name, queue) ↦ run_abrt_handle_upload forked (record proc { queue = queue }) name
]

-- `waitpid` has returned a child: `--proc->children`.
abbrev pub freed : Process → Process
freed proc = record proc { os_children = proc.os_children - 1; children = dec32 proc.children }

-- `while (safe_waitpid(-1, NULL, WNOHANG) > 0)`: an entry of the list is a child that has exited,
-- with the result of the fork that may follow. With no child left `waitpid` fails.
unfoldable pub reap : List Bool → Process → Process
reap [] proc = proc
reap (forked ∷ exits) proc =
    let rest = reap exits (process_next_in_queue forked (freed proc)) in
    if proc.os_children == 0 then proc else rest

-- A byte read from the signal pipe; with SIGCHLD the children that have exited by then.
pub data Caught : Type 0 where
  sigusr1 : Caught
  sigchld : List Bool → Caught
  sigterm sigint : Caught

-- The loop over the bytes of one read. The result says whether glib keeps the event source.
unfoldable pub handle_signal_pipe_cb : List Caught → Process → Process × Bool
handle_signal_pipe_cb [] proc = (proc, true)
handle_signal_pipe_cb (sigusr1 ∷ signals) proc = handle_signal_pipe_cb signals proc
handle_signal_pipe_cb (sigchld exits ∷ signals) proc =
    handle_signal_pipe_cb signals (reap exits proc)
handle_signal_pipe_cb (_ ∷ signals) proc = (record proc { quit = true }, false)

-- `strrchr`: the suffix that begins with the last `c`
unfoldable pub strrchr : Str → ℕ → Option Str
strrchr [] c = none
strrchr (x ∷ s) c = elim (strrchr s c) [
  | some found ↦ some found
  | none ↦ if x == c then some (x ∷ s) else none
]

-- `ext && strcmp(ext + 1, "working") == 0`
pub is_working : Option Str → Bool
is_working (some (dot ∷ ext)) = str_eq ext (codes "working")
is_working _ = false

abbrev pub in_isdir : ℕ
in_isdir = 0x40000000

-- IN_CLOSE_WRITE | IN_MOVED_TO
abbrev pub in_file_done : ℕ
in_file_done = 0x88

unfoldable pub handle_inotify_cb : Bool → ℕ → Str → Process → Process
unfolding is_working
handle_inotify_cb forked mask name proc =
    if (bit_and mask in_isdir == 0) && not (bit_and mask in_file_done == 0)
    then (if is_working (strrchr name b'.') then proc else handle_new_path forked proc name)
    else proc

-- What the main loop dispatches.
pub data Event : Type 0 where
  inotify : Bool → ℕ → Str → Event
  signals : List Caught → Event

unfoldable pub dispatch : Event → Process → Process
dispatch (inotify forked mask name) proc = handle_inotify_cb forked mask name proc
dispatch (signals caught) proc = (handle_signal_pipe_cb caught proc).0

unfoldable pub main_loop : List Event → Process → Process
main_loop [] proc = proc
main_loop (e ∷ es) proc =
    let rest = main_loop es (dispatch e proc) in if proc.quit then proc else rest

-- 1024 * 1024 / FILENAME_MAX, with glibc's FILENAME_MAX of 4096
abbrev pub names_per_mib : ℕ
names_per_mib = 1024 * 1024 / 4096

abbrev pub uint_max : ℕ
uint_max = u32_mod - 1

-- The checks of `main` on -w and -c; `none` is `error_msg_and_die`.
unfoldable pub configure : Str → ℤ → ℤ → Option Process
configure dir (pos workers) (pos mib) =
    if workers == 0
    then none
    else if mib == 0
    then none
    else if ltb (uint_max / names_per_mib) mib
    then none
    else some (record {
      upload_directory = dir;
      children = 0;
      max_children = workers;
      queue = record { capacity = mib * names_per_mib % u32_mod; q = [] };
      quit = false;
      os_children = 0;
      log = [];
      omitted = [];
    })
configure dir _ _ = none
