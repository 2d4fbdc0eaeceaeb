-- ===== src/UploadWatch/Invariant.antt =====
-- The bounds that the loop keeps: on the workers, on the queue, and on the 32-bit counter.
use abrt.Base.{
  ℕ, ◌*◌, ◌≤◌, ◌<◌, ◌^◌, ◌≡◌, ap, inl, inr, Bool, true, false, List, [], ◌∷◌, some, arith, Str,
  length, length-append, Bool-cases, ◌==◌,
}
use abrt.Base.Int.{pos, inc32_lem, dec32_suc, dec32-inc32}
use abrt.UploadWatch.Deferred.{queue_push, queue_pop_cases}
use abrt.UploadWatch.{
  Process, run_abrt_handle_upload, handle_new_path, process_next_in_queue, reap, Caught, sigusr1,
  sigchld, sigterm, sigint, handle_signal_pipe_cb, handle_inotify_cb, Event, inotify, signals,
  dispatch, main_loop, configure,
}

-- With `workers` workers and a queue of `capacity` names: the counter is the number of children
-- that the kernel has, and both bounds hold.
pub record IsBounded (workers capacity : ℕ) (p : Process) : Type 0 where
  pub counted : p.children ≡ p.os_children
  pub pool : p.children ≤ workers
  pub pool_size : p.max_children ≡ workers
  pub small : workers < 2 ^ 31
  pub queue_fits : length p.queue.q ≤ capacity
  pub queue_size : p.queue.capacity ≡ capacity

module _ {workers capacity : ℕ} where
  pub run_abrt_handle_upload-IsBounded :
      (forked : Bool) (p : Process) (name : Str)
      → IsBounded workers capacity p
      → p.children < p.max_children
      → IsBounded workers capacity (run_abrt_handle_upload forked p name)
  unfolding run_abrt_handle_upload
  run_abrt_handle_upload-IsBounded true p name v h =
      rw (inc32_lem p.children (omega arith)) (omega arith)
  run_abrt_handle_upload-IsBounded false p name v h =
      rw (dec32-inc32 p.children (omega arith)) (omega arith)

  pub handle_new_path-IsBounded :
      (forked : Bool) (p : Process) (name : Str)
      → IsBounded workers capacity p
      → IsBounded workers capacity (handle_new_path forked p name)
  unfolding handle_new_path queue_push
  handle_new_path-IsBounded forked p name v =
      ground (arith, run_abrt_handle_upload-IsBounded forked p name v)

  pub process_next_in_queue-IsBounded :
      (forked : Bool) (p : Process)
      → IsBounded workers capacity p
      → p.children < p.max_children
      → IsBounded workers capacity (process_next_in_queue forked p)
  unfolding process_next_in_queue
  process_next_in_queue-IsBounded forked p v h = elim (queue_pop_cases p.queue) [
    | inl (_, e) ↦ rw (e, process_next_in_queue) v
    | inr (y, ys, s, e) ↦
        rw (e, process_next_in_queue)
          (run_abrt_handle_upload-IsBounded forked
            (record p { queue = record { capacity = p.queue.capacity; q = ys } }) y
            (omega (arith, v, ap length s, length-append ys (y ∷ []))) h)
  ]

  pub reap-IsBounded :
      (exits : List Bool) (p : Process)
      → IsBounded workers capacity p
      → IsBounded workers capacity (reap exits p)
  unfolding reap
  reap-IsBounded [] p v = v
  reap-IsBounded (forked ∷ exits) p v = elim (Bool-cases (p.os_children == 0)) [
    | inl none_left ↦ rw none_left v
    | inr more ↦ rw more (
        reap-IsBounded exits _ (
          process_next_in_queue-IsBounded forked _
            (rw (dec32_suc p.children (omega arith) (ground arith)) (ground arith))
            (rw (dec32_suc p.children (omega arith) (ground arith)) (ground arith))))
  ]

  handle_signal_pipe_cb-IsBounded :
      (caught : List Caught) (p : Process)
      → IsBounded workers capacity p
      → IsBounded workers capacity (handle_signal_pipe_cb caught p).0
  unfolding handle_signal_pipe_cb
  handle_signal_pipe_cb-IsBounded [] p v = v
  handle_signal_pipe_cb-IsBounded (sigusr1 ∷ cs) p v = handle_signal_pipe_cb-IsBounded cs p v
  handle_signal_pipe_cb-IsBounded (sigchld exits ∷ cs) p v =
      handle_signal_pipe_cb-IsBounded cs (reap exits p) (reap-IsBounded exits p v)
  handle_signal_pipe_cb-IsBounded (sigterm ∷ cs) p v = omega arith
  handle_signal_pipe_cb-IsBounded (sigint ∷ cs) p v = omega arith

  pub dispatch-IsBounded :
      (e : Event) (p : Process)
      → IsBounded workers capacity p
      → IsBounded workers capacity (dispatch e p)
  unfolding dispatch handle_inotify_cb
  dispatch-IsBounded (inotify forked mask name) p v =
      ground (arith, handle_new_path-IsBounded forked p name v)
  dispatch-IsBounded (signals caught) p v = handle_signal_pipe_cb-IsBounded caught p v

  pub main_loop-IsBounded :
      (es : List Event) (p : Process)
      → IsBounded workers capacity p
      → IsBounded workers capacity (main_loop es p)
  unfolding main_loop
  main_loop-IsBounded [] p v = v
  main_loop-IsBounded (e ∷ es) p v =
      ground (arith, v, main_loop-IsBounded es (dispatch e p) (dispatch-IsBounded e p v))

-- From a start that `main` accepts, whatever happens: never more workers than -w allows, never more
-- deferred names than 256 for each MiB of -c, and `children` is the number of live children.
pub configure-main_loop :
    (dir : Str) (workers mib : ℕ) (es : List Event) {p : Process}
    → workers < 2 ^ 31
    → configure dir (pos workers) (pos mib) ≡ some p
    → IsBounded workers (mib * 256) (main_loop es p)
unfolding configure
configure-main_loop dir workers mib es w e = main_loop-IsBounded es _ (ground arith)
