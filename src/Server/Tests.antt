-- ===== src/Server/Tests.antt =====
-- Requests and runs of the server, and the theorems about it at concrete ones.
use abrt.Base.{
  ℕ, ◌≡◌, ◌≢◌, refl, Bool, true, false, List, [], ◌∷◌, ◌++◌, none, some, ◌==◌, if◌then◌else◌, Str,
  codes, str_eq, starts_with, length, ◌+◌, arith, All, ltb,
}
use abrt.Base.Int.{pos}
use abrt.UploadWatch.{strrchr}
use abrt.Daemon.{Daemon, server_output_cb, new_problem_detected}
use abrt.Daemon.Queue.{has_slash}
use abrt.Server.{
  max_message_size, ProblemInfo, info_insert, info_lookup, Policy, is_key, key_value_ok, cut_at,
  c_text, store_pair, process_message, process_lines, creation_request, lines_of, read_body,
  blank_line, header_end, read_header,
}
use abrt.Server.Body.{Lacks, joined, read_body-joined}
use abrt.Server.Entries.{Entry, encode, IsSendable, last_value, read_body-encode}
use abrt.Server.Clean.{IsClean}
use abrt.Server.Request.{
  Client, die, answer, delete_path_of, post_create_of, create_problem_dir_of, is_space, skip_spaces,
  digits, signed, pid_in_range, some_digits, convert_pid, with_namespace, with_pid, after_body,
  with_body, behind, delete_request, post_create_dir, creation, by_method, perform_header,
  perform_http_xact,
}
use abrt.Server.Permitted.{Permitted, Chosen, perform_http_xact-Permitted}
use abrt.Server.PostCreate.{
  Store, store_put, sigusr1, sigint, exited, killed, Outside, dup_of_dir, is_bad_end, is_nonzero,
  open_dir, time_of, count_up, update_count, with_work_dir, after_event, after_signal,
  run_post_create, notified_name, announcement,
}
use abrt.Server.Fate.{Fate, code_of, run_post_create-Fate}
use abrt.Server.Notice.{is_one_line, ReadsLines, output-announcement}
use abrt.Server.Creation.{
  Surroundings, NewDir, info_remove, elements_of, all_valid, Created, process_new,
  create_problem_dir,
}
use abrt.Server.Owner.{create_problem_dir-owner}

abbrev open_policy : Policy
open_policy = record { correct_filename = λ _. true; allowed_entry = λ _ _. true }

abbrev user : Client
user = record {
  client_uid = 1000;
  client_pid = 77;
  repeating_crash = λ _. false;
  same_pid_namespace = some true;
}

abbrev root : Client
root = record user { client_uid = 0 }

abbrev request : Str
request = codes "POST / HTTP/1.1\r\n\r\n"

abbrev entries : List Entry
entries =
    (codes "TYPE", codes "a")
    ∷ (codes "reason", codes "b")
    ∷ (codes "pid", codes "12")
    ∷ (codes "Reason", codes "c=d")
    ∷ []

abbrev table_got : ProblemInfo
table_got =
    (codes "type", codes "a") ∷ (codes "reason", codes "c=d") ∷ (codes "pid", codes "12") ∷ []

request_runs :
    (perform_http_xact open_policy user ((request ++ encode entries) ∷ [])
      ≡ create_problem_dir_of table_got 12)
    × (perform_http_xact open_policy root
          (codes "POST /creation_notification HTTP/1.1\r\n" ∷ codes "\r\n/p/a" ∷ [])
        ≡ post_create_of (codes "/p/a"))
    × (perform_http_xact open_policy user
          (codes "POST /creation_notification HTTP/1.1\r\n" ∷ codes "\r\n/p/a" ∷ [])
        ≡ answer 403)
    × (perform_http_xact open_policy user (codes "DELETE /p/a HTTP/1.1\n\n" ∷ [])
        ≡ delete_path_of (codes "/p/a"))
    × (perform_http_xact open_policy user (codes "GET /p/a HTTP/1.1\n\n" ∷ []) ≡ answer 400)
    × (perform_http_xact open_policy user (request ∷ []) ≡ die)
unfolding perform_http_xact perform_header by_method creation delete_request with_body after_body
    with_pid with_namespace convert_pid pid_in_range signed some_digits digits skip_spaces is_space
    behind read_header header_end blank_line read_body lines_of process_lines process_message
    store_pair cut_at c_text key_value_ok is_key info_insert info_lookup str_eq starts_with
request_runs = (refl, refl, refl, refl, refl, refl)

read_body-joined_example :
    read_body open_policy creation_request (codes "TYPE=a" ∷ (0 ∷ codes "x") ∷ []) 10 ([], []) ≡ (
      if ltb max_message_size (10 + length (joined (codes "TYPE=a" ∷ (0 ∷ codes "x") ∷ [])))
      then none
      else some (
          lines_of open_policy creation_request []
            ([] ++ joined (codes "TYPE=a" ∷ (0 ∷ codes "x") ∷ []))))
read_body-joined_example =
    read_body-joined open_policy creation_request (codes "TYPE=a" ∷ (0 ∷ codes "x") ∷ []) 10 [] []
      (omega arith)

abbrev avoids : ℕ → Str → Bool
avoids c [] = true
avoids c (x ∷ s) = if x == c then false else avoids c s

avoids-Lacks : (c : ℕ) (s : Str) → avoids c s ≡ true → Lacks c s
avoids-Lacks c [] h = tt
avoids-Lacks c (x ∷ s) h = (ground (arith, h), avoids-Lacks c s (ground (arith, h)))

abbrev two_entries : List Entry
two_entries = (codes "TYPE", codes "a") ∷ (codes "reason", codes "c=d") ∷ []

sendable : All (IsSendable open_policy) two_entries
sendable = (
  record {
    one_text = avoids-Lacks 0 (codes "TYPE=a") refl;
    one_key = avoids-Lacks b'=' (codes "TYPE") refl;
    is_ok = unfold key_value_ok in unfold is_key in unfold str_eq in refl;
    not_uid = unfold str_eq in refl;
  },
  (
    record {
      one_text = avoids-Lacks 0 (codes "reason=c=d") refl;
      one_key = avoids-Lacks b'=' (codes "reason") refl;
      is_ok = unfold key_value_ok in unfold is_key in unfold str_eq in refl;
      not_uid = unfold str_eq in refl;
    },
    tt,
  ),
)

read_body-encode_example :
    (table : ProblemInfo) × (read_body open_policy creation_request
        (codes "TYP" ∷ (codes "E=a" ++ 0 ∷ codes "reason=c") ∷ (codes "=d" ++ 0 ∷ []) ∷ [])
        0
        ([], [])
      ≡ some (table, []))
    × ((key : Str) → info_lookup key table ≡ last_value key two_entries none)
read_body-encode_example =
    read_body-encode open_policy two_entries
      (codes "TYP" ∷ (codes "E=a" ++ 0 ∷ codes "reason=c") ∷ (codes "=d" ++ 0 ∷ []) ∷ []) sendable
      refl (omega arith)

perform_http_xact-Permitted_example :
    Permitted open_policy user
      (perform_http_xact open_policy user ((request ++ encode entries) ∷ []))
    × ((path : Str)
        → post_create_dir
            (λ table pid. some (codes "/p/new"))
            (perform_http_xact open_policy user ((request ++ encode entries) ∷ []))
          ≡ some path
        → Chosen user
            (λ table pid. some (codes "/p/new"))
            path
            (perform_http_xact open_policy user ((request ++ encode entries) ∷ [])))
perform_http_xact-Permitted_example =
    perform_http_xact-Permitted open_policy user (λ table pid. some (codes "/p/new"))
      ((request ++ encode entries) ∷ [])

abbrev new_dir : Str
new_dir = codes "/a"

abbrev old_dir : Str
old_dir = codes "/b"

abbrev two_dirs : Store
two_dirs =
    store_put
      (store_put (λ _. none) old_dir
        (some (record { count = 3; time = some (codes "5"); last_occurrence = none })))
      new_dir (some (record { count = 0; time = some (codes "9"); last_occurrence = none }))

abbrev duplicate : Outside
duplicate = record {
  in_location = true;
  permissions = true;
  opened = true;
  provoked = false;
  debug_level = 0;
  complete = false;
  wrote = pos 29;
  signal = sigusr1;
  output = codes "looking\nDUP_OF_DIR: /b\n";
  waited = some (exited 1);
  openable = λ _. true;
  deletes = λ _. true;
  now = codes "100";
}

dup_of_dir-lines : dup_of_dir none [] (codes "x\nDUP_OF_DIR: /b\nrest") ≡ some (codes "/b")
unfolding dup_of_dir starts_with
dup_of_dir-lines = refl

merged_runs :
    (code_of (after_event duplicate two_dirs new_dir (exited 1) (some old_dir)) ≡ 303)
    × ((after_event duplicate two_dirs new_dir (exited 1) (some old_dir)).store new_dir ≡ none)
    × ((after_event duplicate two_dirs new_dir (exited 1) (some old_dir)).store old_dir
        ≡ some (record { count = 4; time = some (codes "5"); last_occurrence = some (codes "9") }))
unfolding after_event is_bad_end is_nonzero with_work_dir open_dir update_count count_up time_of
    str_eq
merged_runs = (refl, refl, refl)

answered_runs :
    (code_of (after_event duplicate two_dirs new_dir (exited 0) none) ≡ 200)
    × (code_of (after_event duplicate two_dirs new_dir (killed 9) (some old_dir)) ≡ 403)
    × (code_of (run_post_create (record duplicate { signal = sigint }) two_dirs new_dir) ≡ 413)
unfolding after_event is_bad_end is_nonzero with_work_dir open_dir update_count count_up time_of
    str_eq run_post_create after_signal
answered_runs = (refl, refl, refl)

run_post_create-Fate_example :
    Fate duplicate two_dirs new_dir (run_post_create duplicate two_dirs new_dir)
run_post_create-Fate_example = run_post_create-Fate duplicate two_dirs new_dir

abbrev daemon : Daemon
daemon = record {
  processes = 7 ∷ [];
  dir_queue = [];
  post_create = λ _. false;
  dirname = λ _. none;
  stopped = [];
  accepting = true;
}

notified_name-runs : notified_name new_dir ≡ codes "a"
unfolding notified_name strrchr
notified_name-runs = refl

abbrev in_front : ℕ → List Str → List Str
in_front c [] = (c ∷ []) ∷ []
in_front c (line ∷ lines) = (c ∷ line) ∷ lines

-- A way to cut a text into lines
abbrev cut_lines : Str → List Str
cut_lines [] = []
cut_lines (c ∷ text) = if c == b'\n' then [] ∷ cut_lines text else in_front c (cut_lines text)

cut_lines-ReadsLines : ReadsLines cut_lines
unfolding is_one_line
cut_lines-ReadsLines [] rest h = refl
cut_lines-ReadsLines (c ∷ line) rest h =
    rw (cut_lines-ReadsLines line rest (ground (arith, h))) (ground (arith, h))

notified_name-is_one_line : is_one_line (notified_name new_dir) ≡ true
unfolding is_one_line notified_name strrchr starts_with
notified_name-is_one_line = refl

output-announcement_example :
    (server_output_cb cut_lines (λ _. []) (λ _. true) 7 (announcement new_dir ++ codes "x\n") daemon
      ≡ server_output_cb cut_lines
          (λ _. [])
          (λ _. true)
          7
          (codes "x\n")
          (new_problem_detected (λ _. []) (λ _. true) daemon 7 (notified_name new_dir)))
    × (has_slash (notified_name new_dir) ≡ false)
output-announcement_example =
    output-announcement cut_lines (λ _. []) (λ _. true) 7 new_dir (codes "x\n") daemon
      cut_lines-ReadsLines notified_name-is_one_line

abbrev around : Surroundings
around = record {
  max_size = 100;
  low_space = false;
  location = codes "/p";
  date = codes "2016-01-01";
  pid_text = codes "12";
  uid_text = codes "1000";
  version = codes "2.8";
  created = true;
  explore_chroots = false;
  basic = λ _. (codes "uid", codes "0") ∷ [];
  proc = none;
  valid_name = λ _. true;
  renamed = true;
}

abbrev created_dir : NewDir
created_dir = record { path = codes "/p/a-2016-01-01-12"; elements = elements_of around table_got }

abbrev location : NewDir → Store
location dir =
    store_put two_dirs dir.path (some (record { count = 0; time = none; last_occurrence = none }))

abbrev created : Created
created = record {
  dir = created_dir;
  post_create = run_post_create duplicate (location created_dir) created_dir.path;
}

create_problem_dir-runs : create_problem_dir around location duplicate table_got ≡ some created
unfolding create_problem_dir process_new all_valid info_remove info_lookup str_eq
create_problem_dir-runs = refl

create_problem_dir-owner_example :
    (info_lookup (codes "uid") created_dir.elements ≡ some (codes "1000"))
    × ((key value : Str)
        → key ≢ codes "basename"
        → key ≢ codes "abrt_version"
        → info_lookup key table_got ≡ some value
        → info_lookup key created_dir.elements ≡ some value)
create_problem_dir-owner_example =
    create_problem_dir-owner open_policy around location duplicate table_got created clean
      create_problem_dir-runs
  where
    clean : IsClean open_policy table_got
    clean =
        unfold IsClean in
        unfold key_value_ok in
        unfold is_key in unfold str_eq in ((refl, refl), ((refl, refl), ((refl, refl), tt)))
