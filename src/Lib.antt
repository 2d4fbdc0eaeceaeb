-- ===== src/Lib.antt =====
-- Verification of the problem services of ABRT: the upload watcher, the Problems2 D-Bus service with
-- its entries, the daemon and its server process, the hook for cores, the watcher of cores in the
-- journal, the list of ignored problems, and the trimming of files.
--
-- The parts. `abrt-upload-watch` looks at a directory and starts a worker for each archive that
-- comes in, with a bounded queue for those that must wait. `abrt-dbus` offers the interface
-- Problems2: each client has a session, which polkit or the token of a peer session authorizes; a
-- session owns tasks, which are state machines around a thread; the task NewProblem stores a problem
-- in a temporary directory and has the daemon abrtd take it over or refuse it. The service knows the
-- users and their sessions, and limits how many problems a user may create and how fast. `abrtd` has
-- an abrt-server process for each client, and lets one at a time run the post-create events.
-- `abrt-server` reads a request, creates a problem directory from it, or runs the events over a
-- directory that is there. `abrt-hook-ccpp` is run by the kernel for a crash and may also write a
-- core file for the user. The list of ignored problems is a file that the applications share.
-- `abrt-dump-journal-core` saves the crashes that it finds in the journal, not too often for one
-- executable; `abrt-action-trim-files` deletes the worst files of a directory that has grown too
-- big.
--
-- The files.
--   Base              numbers, Booleans, lists, strings as lists of bytes, and the lemmas on them
--   UploadWatch       src/daemon/abrt-upload-watch.c: `struct process` is `Process`, and each
--                     function has the name of the C function; `reap` is the waitpid loop of
--                     `handle_signal_pipe_cb`, `main_loop` what glib dispatches, `configure` the
--                     checks of `main`. Deferred has the queue.
--   Session           src/dbus/abrt_problems2_session.c: Machine has the state and its changes, Token
--                     the tokens, Session itself the authorization of peers and the tasks; functions
--                     are named like the C ones without `abrt_p2_session_`.
--   Task              src/dbus/abrt_problems2_task.c and .h, likewise without `abrt_p2_task_`;
--                     Task.NewProblem is src/dbus/abrt_problems2_task_new_problem.c.
--   Service           src/dbus/abrt_problems2_service.c: the users, their sessions and limits; names
--                     without `abrt_p2_service_`. Throttle, Access and Quota have the theorems.
--   Daemon            src/daemon/abrtd.c: the processes and their queue. `notify_next` is
--                     `notify_next_post_create_process`, `queue_post_create_process` is
--                     `queue_post_craete_process`, `new_problem_detected` a line of
--                     `abrt_server_output_cb`, `add_server` and `remove_server` are
--                     `add_abrt_server_proc` and `remove_abrt_server_proc`.
--   JournalCore       src/plugins/abrt-dump-journal-core.c: `s_queue` and the functions on it, names
--                     without `abrt_journal_`; Ring has its laws, Throttle those of the watch.
--   TrimFiles         src/plugins/abrt-action-trim-files.c, with the names of the C functions.
--   IgnoredProblems   src/lib/ignored_problems.c: `add_row`, `remove_row` and `file_contains` are the
--                     functions of those names behind `ignored_problems_add`, `_remove` and
--                     `_contains`; Rows sees the file as rows, Failures the failed removal.
--   Server            src/daemon/abrt-server.c: the table and the reads of `perform_http_xact`;
--                     Request has the rest of it, PostCreate `delete_path` and `run_post_create`,
--                     Creation `create_problem_dir`, each with the names of the C functions.
--   Entry             src/dbus/abrt_problems2_entry.c: `save_in_dump_dir` is
--                     `abrt_p2_entry_save_elements_in_dump_dir`, and Reading has `read_elements`.
--   CoreHook          src/hooks/abrt-hook-ccpp.c: `expand_loop` is the loop of `open_user_core` over the
--                     name, `open_as_user` the rest of it; Decision has the tests of `main`.
--   Https             src/plugins/https-utils.c, with the names of the C functions.
--   RecentCrash       src/lib/check_recent_crash_file.c.
--
-- How they meet. Service takes its sessions from Session, and NewProblem its permission from
-- Service, as the answer `can_create` of its world. The class of NewProblem fills the virtual
-- functions of Task, and its theorems use those of Task through `IsTame`, the promise that a virtual
-- function keeps to its own data. A session gives up its tasks through Task (Session.Disposal).
-- GLib's GTask is the interface `GTask` (Task.Finish), with the documented answer for a cancelled
-- task as its law.
--
-- The server tells the daemon of a new directory by a line, which Server.Notice shows the daemon to
-- read back as the name that Daemon.Exclusive takes for granted; Server.Owner takes the table that
-- Server.Permitted finds clean.
--
-- Bounds and fuel. C integers that may wrap are natural numbers with the wrap written out: the
-- counter of children and the capacity of the queue modulo 2 ^ 32, the indexer of tasks likewise,
-- the expiry of a token cut to 32 bits, the tokens of a user modulo 2 ^ 32. The loops are over lists
-- of events, draws, sessions, reads and exits of children. The messages in a buffer are at most its
-- bytes. Sizes of files are natural numbers; a chunked body is read in at most as many rounds as it
-- has bytes, and a core pattern expanded in as many as it has characters, each with one more. The
-- search in the ring of JournalCore runs for as many rounds as there are slots, and `delete_files`
-- for 99 rounds, both as in the code.
--
-- Not modelled: memory management but for the references to tasks, the rounding of weights, logging,
-- the option parser, the transport of D-Bus values, and the parts named in the manifest. The outside
-- is an argument: the results of fork, the clock, /dev/urandom, polkit's answers, the thread of a
-- task, what the service and the daemon answer to NewProblem (`World`), how GLib cuts a text into
-- lines, what libreport writes, copies and deletes, what journald gives, and the trees that a scan
-- finds.
pub mod Base
pub mod UploadWatch
pub mod Session
pub mod Task
pub mod Service
pub mod Daemon
pub mod JournalCore
pub mod TrimFiles
pub mod IgnoredProblems
pub mod Server
pub mod Entry
pub mod CoreHook
pub mod Https
pub mod RecentCrash
