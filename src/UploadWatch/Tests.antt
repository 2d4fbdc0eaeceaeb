-- ===== src/UploadWatch/Tests.antt =====
-- Runs of the upload watcher, and the theorems about it at concrete inputs.
use abrt.Base.{◌≡◌, refl, true, false, List, [], ◌∷◌, some, none, Str, codes, arith, str_eq}
use abrt.Base.Int.{pos, inc32, dec32}
use abrt.UploadWatch.Deferred.{queue_push, queue_pop}
use abrt.UploadWatch.Invariant.{IsBounded, configure-main_loop}
use abrt.UploadWatch.Order.{line, IsBusy, arrived, main_loop-arrived}
use abrt.UploadWatch.{
  Process, run_abrt_handle_upload, handle_new_path, process_next_in_queue, reap, sigchld, sigusr1,
  handle_signal_pipe_cb, strrchr, handle_inotify_cb, Event, inotify, signals, dispatch, main_loop,
  configure,
}

abbrev first : Str
first = codes "a.tar"

abbrev second : Str
second = codes "b.tar"

abbrev started : Process
started = record {
  upload_directory = codes "/up";
  children = 0;
  max_children = 1;
  queue = record { capacity = 256; q = [] };
  quit = false;
  os_children = 0;
  log = [];
  omitted = [];
}

-- A file that is still being written has the suffix ".working".
abbrev history : List Event
history =
    inotify true 8 (codes "a.tar.working")
    ∷ inotify true 0x80 first
    ∷ inotify true 8 second
    ∷ signals (sigusr1 ∷ sigchld (true ∷ []) ∷ [])
    ∷ inotify true 8 first
    ∷ []

abbrev runs : Process
runs = record started {
  children = 1;
  os_children = 1;
  queue = record { capacity = 256; q = first ∷ [] };
  log = (second, true) ∷ (first, true) ∷ [];
}

configure-started : configure (codes "/up") (pos 1) (pos 1) ≡ some started
unfolding configure
configure-started = refl

configure_too_big : configure (codes "/up") (pos 1) (pos 16777216) ≡ none
unfolding configure
configure_too_big = refl

main_loop-runs : main_loop history started ≡ runs
unfolding main_loop dispatch handle_inotify_cb handle_new_path handle_signal_pipe_cb reap
    process_next_in_queue queue_push queue_pop run_abrt_handle_upload strrchr str_eq inc32 dec32
main_loop-runs = refl

configure-main_loop_example : IsBounded 1 256 (main_loop history started)
configure-main_loop_example =
    configure-main_loop (codes "/up") 1 1 history (omega arith) configure-started

main_loop-arrived_example :
    (line (main_loop history started) ≡ arrived history) × IsBusy (main_loop history started)
main_loop-arrived_example =
    main_loop-arrived (codes "/up") 1 1 history (omega arith) configure-started
      (refl, (refl, (refl, ((tt, ((refl, tt), tt)), (refl, tt))))) (ap_omitted main_loop-runs)
  where
    ap_omitted : main_loop history started ≡ runs → (main_loop history started).omitted ≡ []
    ap_omitted e = λ i. (e i).omitted
