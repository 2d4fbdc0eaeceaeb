-- ===== src/Daemon/Tests.antt =====
-- Runs of the daemon, and the theorems about it at a concrete history.
use abrt.Base.{
  ℕ, ◌≡◌, refl, Bool, true, false, List, [], ◌∷◌, none, some, Str, codes, str_eq, str_eq_iff, arith,
  if◌then◌else◌, Bool-cases, inl, inr, starts_with,
}
use abrt.Session.{find_task, list_remove}
use abrt.UploadWatch.{strrchr}
use abrt.Daemon.Queue.{IsExclusive}
use abrt.Daemon.Exclusive.{
  IsIgnoring, Reach, nobody, connects, detects, child_signal, Reach-IsExclusive,
}
use abrt.Daemon.Clients.{IsLimited, Reach-IsLimited}
use abrt.Daemon.Idle.{
  Idle, on_socket, on_inotify, on_signal, touch, touches, start_idle_timeout, kill_idle_timeout,
}
use abrt.Daemon.{
  Daemon, exited, traced, notify_next, has_dirname, take_dirname, clean_location, path_ignored,
  ignored_name, queue_post_create_process, new_problem_detected, server_output, add_server,
  server_socket_cb, remove_server, handle_children,
}

abbrev started : Daemon
started = record {
  processes = [];
  dir_queue = [];
  post_create = λ _. false;
  dirname = λ _. none;
  stopped = [];
  accepting = true;
}

abbrev willing : ℕ → Bool
willing pid = true

abbrev first_dir : Str
first_dir = codes "one"

abbrev second_dir : Str
second_dir = codes "two"

abbrev third_dir : Str
third_dir = codes "three"

-- The location is never too big.
abbrev roomy : Str → List Str
roomy ignored = []

-- The second directory is found, unless it is ignored.
abbrev crowded : Str → List Str
crowded ignored = if str_eq second_dir ignored then [] else second_dir ∷ []

abbrev three_clients : Daemon
three_clients = add_server (add_server (add_server started 7) 8) 9

abbrev first_queued : Daemon
first_queued = new_problem_detected crowded willing three_clients 7 first_dir

abbrev both_queued : Daemon
both_queued = new_problem_detected roomy willing first_queued 8 second_dir

abbrev cleaned : Daemon
cleaned = new_problem_detected crowded willing both_queued 9 third_dir

both_queued_runs :
    (both_queued.dir_queue ≡ 7 ∷ 8 ∷ [])
    × (both_queued.post_create 7 ≡ true)
    × (both_queued.post_create 8 ≡ false)
    × ((remove_server willing both_queued 7).dir_queue ≡ 8 ∷ [])
    × ((remove_server willing both_queued 7).post_create 8 ≡ true)
unfolding new_problem_detected queue_post_create_process clean_location notify_next add_server
    find_task list_remove has_dirname take_dirname remove_server str_eq path_ignored ignored_name
    strrchr
both_queued_runs = (refl, refl, refl, refl, refl)

cleaned_runs :
    (cleaned.dir_queue ≡ 7 ∷ 9 ∷ [])
    × (cleaned.stopped ≡ 8 ∷ [])
    × ((new_problem_detected crowded willing first_queued 8 second_dir).dir_queue ≡ 7 ∷ [])
unfolding new_problem_detected queue_post_create_process clean_location notify_next add_server
    find_task list_remove has_dirname take_dirname str_eq path_ignored ignored_name strrchr
cleaned_runs = (refl, refl, refl)

server_output_runs :
    (server_output roomy willing 7
        (codes "hello" ∷ codes "NEW_PROBLEM_DETECTED: one" ∷ [])
        (server_socket_cb (some 7) started)).dirname
      7
    ≡ some first_dir
unfolding server_output server_socket_cb new_problem_detected queue_post_create_process
    clean_location notify_next add_server find_task list_remove has_dirname take_dirname str_eq
    path_ignored ignored_name strrchr starts_with
server_output_runs = refl

roomy-IsIgnoring : IsIgnoring roomy
roomy-IsIgnoring s = tt

crowded-IsIgnoring : IsIgnoring crowded
crowded-IsIgnoring s = elim (Bool-cases (str_eq second_dir s)) [
  | inl h ↦ rw h tt
  | inr h ↦ rw h (ground (arith, h, str_eq_iff second_dir s), tt)
]

no_names : (first_queued.dirname 8 ≡ none) × (both_queued.dirname 9 ≡ none)
unfolding new_problem_detected queue_post_create_process clean_location notify_next add_server
    find_task has_dirname take_dirname str_eq path_ignored ignored_name strrchr
no_names = (refl, refl)

abbrev history : Reach (handle_children willing (traced 9 ∷ exited 7 ∷ []) cleaned)
history = child_signal willing (traced 9 ∷ exited 7 ∷ []) (
    detects crowded willing 9 third_dir
      (detects roomy willing 8 second_dir
        (detects crowded willing 7 first_dir
          (connects 9 (connects 8 (connects 7 nobody refl fresh_7) watched_8 fresh_8) watched_9
            fresh_9)
          crowded-IsIgnoring refl no_name_7)
        roomy-IsIgnoring refl no_name_8)
      crowded-IsIgnoring refl no_name_9)
  where
    fresh_7 : find_task started.processes 7 ≡ false
    fresh_7 = unfold find_task in refl

    fresh_8 : find_task (add_server started 7).processes 8 ≡ false
    fresh_8 = unfold add_server in unfold find_task in refl

    fresh_9 : find_task (add_server (add_server started 7) 8).processes 9 ≡ false
    fresh_9 = unfold add_server in unfold find_task in refl

    watched_8 : (add_server started 7).accepting ≡ true
    watched_8 = unfold add_server in refl

    watched_9 : (add_server (add_server started 7) 8).accepting ≡ true
    watched_9 = unfold add_server in refl

    no_name_7 : three_clients.dirname 7 ≡ none
    no_name_7 = unfold add_server in refl

    no_name_8 : first_queued.dirname 8 ≡ none
    no_name_8 = no_names.0

    no_name_9 : both_queued.dirname 9 ≡ none
    no_name_9 = no_names.1

Reach-IsExclusive_example : IsExclusive (handle_children willing (traced 9 ∷ exited 7 ∷ []) cleaned)
Reach-IsExclusive_example = Reach-IsExclusive history

Reach-IsLimited_example : IsLimited (handle_children willing (traced 9 ∷ exited 7 ∷ []) cleaned)
Reach-IsLimited_example = Reach-IsLimited history

abbrev first_timer : Idle
first_timer = record { timeout = 30; timeout_src = 1; timers = 1 ∷ []; next_id = 2 }

touches-first_timer :
    (touches (on_socket ∷ on_signal ∷ on_inotify ∷ []) first_timer).timers ≡ 4 ∷ 2 ∷ []
unfolding touches touch start_idle_timeout kill_idle_timeout list_remove
touches-first_timer = refl
