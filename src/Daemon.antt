-- ===== src/Daemon.antt =====
-- src/daemon/abrtd.c: the abrt-server processes and the queue of those with a new problem, of which
-- one after the other is told by SIGUSR1 to run the post-create events. A process is its pid, as a
-- pointer to it. Whether a process can be told, and the largest directories that are found while the
-- dump location is too big, are arguments.
pub mod Queue
pub mod Cleaning
pub mod Exclusive
pub mod Clients
pub mod Idle
pub mod Tests
use abrt.Base.{
  ℕ, Bool, true, false, not, ◌&&◌, List, [], ◌∷◌, ◌++◌, Option, none, some, ◌==◌, if◌then◌else◌,
  Str, codes, str_eq, ltb, length, drop, starts_with, ◌||◌,
}
use abrt.Session.{find_task, list_remove}
use abrt.UploadWatch.{strrchr}

-- `s_processes` and `s_dir_queue`; `post_create` is the type AS_POST_CREATE, `stopped` what was sent
-- SIGINT. `accepting` says whether `channel_id_socket` watches the socket.
pub record Daemon : Type 0 where
  pub processes : List ℕ
  pub dir_queue : List ℕ
  pub post_create : ℕ → Bool
  pub dirname : ℕ → Option Str
  pub stopped : List ℕ
  pub accepting : Bool

abbrev pub max_client_count : ℕ
max_client_count = 10

abbrev pub put {ℓ} : {A : Type ℓ} → (ℕ → A) → ℕ → A → ℕ → A
put f pid value other = if pid == other then value else f other

-- The loop of `notify_next_post_create_process`; `told` is whether kill succeeds.
unfoldable pub notify_next : (ℕ → Bool) → List ℕ → Daemon → Daemon
notify_next told [] daemon = record daemon { dir_queue = [] }
notify_next told (n ∷ queue) daemon =
    let rest = notify_next told queue daemon in
    if daemon.post_create n
    then record daemon { dir_queue = n ∷ queue }
    else if told n
    then record daemon { dir_queue = n ∷ queue; post_create = put daemon.post_create n true }
    else rest

unfoldable pub has_dirname : Daemon → Str → ℕ → Bool
has_dirname daemon dir pid = elim (daemon.dirname pid) [ none ↦ false | some d ↦ str_eq d dir ]

-- `g_list_find_custom` and `g_list_delete_link`: the queue without the first process of this directory,
-- and that process.
unfoldable pub take_dirname : Daemon → Str → List ℕ → Option (ℕ × List ℕ)
take_dirname daemon dir [] = none
take_dirname daemon dir (n ∷ queue) =
    if has_dirname daemon dir n
    then some (n, queue)
    else elim (take_dirname daemon dir queue) [ none ↦ none | some (m, rest) ↦ some (m, n ∷ rest) ]

pub unprocessed : Option (ℕ × List ℕ) → Daemon → Daemon
unprocessed none daemon = daemon
unprocessed (some (removed, queue)) daemon = record daemon {
  dir_queue = queue;
  stopped = removed ∷ daemon.stopped;
}

-- The loop that deletes the largest directories. The result says whether the process still stands.
unfoldable pub clean_location : List Str → ℕ → Bool → Daemon → Bool × Daemon
unfolding unprocessed
clean_location [] proc stands daemon = (stands, daemon)
clean_location (worst ∷ dirs) proc stands daemon =
    if stands && has_dirname daemon worst proc
    then clean_location dirs proc false (record daemon { stopped = proc ∷ daemon.stopped })
    else clean_location dirs proc stands
        (unprocessed (take_dirname daemon worst daemon.dir_queue) daemon)

pub append_if : Bool × Daemon → ℕ → Daemon
append_if (true, daemon) proc = record daemon { dir_queue = daemon.dir_queue ++ proc ∷ [] }
append_if (false, daemon) proc = daemon

pub consider_processing : List ℕ → (ℕ → Bool) → Daemon → Daemon
consider_processing [] told daemon = notify_next told daemon.dir_queue daemon
consider_processing (running ∷ queue) told daemon = daemon

-- `full_path_ignored`: the directory of the running process, or else of the process itself. A queued
-- process has one.
unfoldable pub path_ignored : List ℕ → Daemon → ℕ → Option Str
path_ignored [] daemon proc = daemon.dirname proc
path_ignored (running ∷ queue) daemon proc = daemon.dirname running

pub behind_slash : Str → Option Str → Str
behind_slash path (some (slash ∷ name)) = name
behind_slash path _ = path

unfoldable pub ignored_name : Option Str → Str
unfolding behind_slash
ignored_name none = []
ignored_name (some path) = behind_slash path (strrchr path b'/')

-- `largest` gives the directories that `get_dirsize_find_largest_dir` finds one after the other while
-- the location is too big, for a name that it ignores: none if there is no limit.
unfoldable pub queue_post_create_process : (Str → List Str) → (ℕ → Bool) → Daemon → ℕ → Daemon
unfolding append_if consider_processing
queue_post_create_process largest told daemon proc = consider_processing daemon.dir_queue told (
    append_if
      (clean_location (largest (ignored_name (path_ignored daemon.dir_queue daemon proc))) proc true
        daemon)
      proc)

-- `free(proc->dirname)` and what goes with it, for a process that has a directory
pub out_of_queue : Option Str → Daemon → ℕ → Daemon
out_of_queue none daemon proc = daemon
out_of_queue (some dir) daemon proc = record daemon {
  dir_queue = list_remove daemon.dir_queue proc;
}

-- A line NEW_PROBLEM_DETECTED of a process, in `abrt_server_output_cb`
unfoldable pub new_problem_detected : (Str → List Str) → (ℕ → Bool) → Daemon → ℕ → Str → Daemon
unfolding out_of_queue
new_problem_detected largest told daemon proc dir =
    if not (find_task daemon.processes proc)
    then daemon
    else queue_post_create_process largest told
        (record (out_of_queue (daemon.dirname proc) daemon proc) {
          dirname = put daemon.dirname proc (some dir);
        })
        proc

abbrev pub detected_prefix : Str
detected_prefix = codes "NEW_PROBLEM_DETECTED: "

-- The loop of `abrt_server_output_cb` over lines, each without its end
unfoldable pub server_output : (Str → List Str) → (ℕ → Bool) → ℕ → List Str → Daemon → Daemon
server_output largest told proc [] daemon = daemon
server_output largest told proc (line ∷ lines) daemon =
    if starts_with detected_prefix line
    then server_output largest told proc lines
        (new_problem_detected largest told daemon proc (drop (length detected_prefix) line))
    else server_output largest told proc lines daemon

-- `abrt_server_output_cb` on the text that a process has written; `read_lines` are the calls of
-- g_io_channel_read_line.
unfoldable pub server_output_cb :
    (Str → List Str) → (Str → List Str) → (ℕ → Bool) → ℕ → Str → Daemon → Daemon
server_output_cb read_lines largest told proc output daemon =
    server_output largest told proc (read_lines output) daemon

-- With too many clients the watch on the socket is removed.
unfoldable pub add_server : Daemon → ℕ → Daemon
add_server daemon pid = record daemon {
  processes = daemon.processes ++ pid ∷ [];
  post_create = put daemon.post_create pid false;
  dirname = put daemon.dirname pid none;
  accepting = ltb (length (daemon.processes ++ pid ∷ [])) max_client_count && daemon.accepting;
}

-- The process is freed when it is out of the lists.
abbrev pub freed_server : Daemon → ℕ → Daemon
freed_server daemon pid = record daemon {
  processes = list_remove daemon.processes pid;
  post_create = put daemon.post_create pid false;
  dirname = put daemon.dirname pid none;
  dir_queue = list_remove daemon.dir_queue pid;
}

abbrev pub watch_socket : Daemon → Daemon
watch_socket daemon = record daemon {
  accepting = ltb (length daemon.processes) max_client_count || daemon.accepting;
}

unfoldable pub remove_server : (ℕ → Bool) → Daemon → ℕ → Daemon
remove_server told daemon pid =
    if not (find_task daemon.processes pid)
    then daemon
    else let gone = freed_server daemon pid in
      watch_socket (if daemon.post_create pid then notify_next told gone.dir_queue gone else gone)

-- `server_socket_cb`: the pid of the child, or none if accept or fork failed
unfoldable pub server_socket_cb : Option ℕ → Daemon → Daemon
server_socket_cb none daemon = daemon
server_socket_cb (some pid) daemon = add_server daemon pid

-- What waitpid tells of a child
pub data Waited : Type 0 where
  exited : ℕ → Waited
  traced : ℕ → Waited

-- The loop of `handle_signal_cb` on SIGCHLD
unfoldable pub handle_children : (ℕ → Bool) → List Waited → Daemon → Daemon
handle_children told [] daemon = daemon
handle_children told (exited cpid ∷ children) daemon =
    handle_children told children (remove_server told daemon cpid)
handle_children told (traced cpid ∷ children) daemon = handle_children told children daemon
