-- ===== src/UploadWatch/Order.antt =====
-- In what order the archives are handled, while no fork fails; and what a failed fork does.
use mathlib.Core.List.{concat-ne-nil}
use abrt.Base.{
  ℕ, ◌+◌, ◌<◌, ◌^◌, ◌≡◌, refl, sym, ap, ◌∙◌, ◌⊎◌, inl, inr, Bool, true, false, not, ◌&&◌, List, [],
  ◌∷◌, ◌++◌, map, append-nil, append_assoc, subst, some, arith, if◌then◌else◌, Str, Bool-cases,
  ◌==◌, bit_and, All,
}
use abrt.Base.Int.{pos, inc32, dec32, inc32_lem, dec32_suc}
use abrt.UploadWatch.Deferred.{queue_push, queue_pop_cases, queue_pop-append}
use abrt.UploadWatch.Invariant.{
  IsBounded, process_next_in_queue-IsBounded, reap-IsBounded, dispatch-IsBounded,
  configure-main_loop,
}
use abrt.UploadWatch.{
  Process, run_abrt_handle_upload, handle_new_path, process_next_in_queue, freed, reap, Caught,
  sigusr1, sigchld, sigterm, sigint, handle_signal_pipe_cb, handle_inotify_cb, Event, inotify,
  signals, dispatch, main_loop, configure, is_working, strrchr, in_isdir, in_file_done,
}

-- All names that were not omitted, the latest first: those deferred, then those handled.
abbrev pub line : Process → List Str
line p = p.queue.q ++ map (λ (e : Str × Bool). e.0) p.log

-- Nobody is deferred while a worker is free.
abbrev pub IsBusy : Process → Type 0
IsBusy p = (p.queue.q ≡ []) ⊎ (p.children ≡ p.max_children)

-- What an operation must keep, for the order of arrival to be the order of handling.
record Keeps (p q : Process) : Type 0 where
  busy : IsBusy q
  same_line : line q ≡ line p
  same_omitted : q.omitted ≡ p.omitted
  same_quit : q.quit ≡ p.quit

Keeps-trans : {p q r : Process} → Keeps p q → Keeps q r → Keeps p r
Keeps-trans k l = record {
  busy = l.busy;
  same_line = l.same_line ∙ k.same_line;
  same_omitted = l.same_omitted ∙ k.same_omitted;
  same_quit = l.same_quit ∙ k.same_quit;
}

Keeps-refl : (p : Process) → IsBusy p → Keeps p p
Keeps-refl p b = record { busy = b; same_line = refl; same_omitted = refl; same_quit = refl }

-- These names came in, the latest first, if none was omitted on the way.
record Takes (p : Process) (names : List Str) (q : Process) : Type 0 where
  busy : IsBusy q
  exact : q.omitted ≡ [] → (line q ≡ names ++ line p) × (p.omitted ≡ [])
  same_quit : q.quit ≡ p.quit

Takes-trans :
    {p q r : Process} {xs ys : List Str} → Takes p xs q → Takes q ys r → Takes p (ys ++ xs) r
Takes-trans {p} {xs = xs} {ys} k l = record {
  busy = l.busy;
  exact = λ o.
      let (later, o') = l.exact o in
      let (first, o'') = k.exact o' in
      (later ∙ ap (◌++◌ ys) first ∙ sym (append_assoc ys xs (line p)), o'');
  same_quit = l.same_quit ∙ k.same_quit;
}

module _ {workers capacity : ℕ} where
  handle_new_path-Takes :
      (p : Process) (name : Str)
      → IsBounded workers capacity p
      → IsBusy p
      → Takes p (name ∷ []) (handle_new_path true p name)
  unfolding handle_new_path queue_push run_abrt_handle_upload
  handle_new_path-Takes p name v b = record {
    busy = ground (arith, inc32_lem p.children);
    exact = ground arith;
    same_quit = ground arith;
  }

  process_next_in_queue-Keeps :
      (p : Process)
      → IsBounded workers capacity p
      → (p.queue.q ≡ []) ⊎ (p.children + 1 ≡ p.max_children)
      → Keeps p (process_next_in_queue true p)
  unfolding process_next_in_queue run_abrt_handle_upload
  process_next_in_queue-Keeps p v b = elim (queue_pop_cases p.queue) [
    | inl (q, e) ↦ rw (e, process_next_in_queue) (Keeps-refl p (inl q))
    | inr (y, ys, s, e) ↦
        rw (e, process_next_in_queue)
          (record {
            busy = elim b [
              | inl q ↦ absurd (concat-ne-nil y ys (sym s ∙ q))
              | inr h ↦ inr (omega (arith, inc32_lem p.children (omega arith)))
            ];
            same_line = rw s (sym (append_assoc ys (y ∷ []) _));
            same_omitted = refl;
            same_quit = refl;
          })
  ]

  -- One round of the loop over the exited children.
  exit-Keeps :
      (p : Process)
      → 0 < p.os_children
      → IsBounded workers capacity p
      → IsBusy p
      → IsBounded workers capacity (process_next_in_queue true (freed p))
        × Keeps p (process_next_in_queue true (freed p))
  exit-Keeps p some_left v b =
      let less = dec32_suc p.children (omega (arith, v)) (omega (arith, v)) in
      let v' : IsBounded workers capacity (freed p) = rw less (omega (arith, v)) in
      let k =
        process_next_in_queue-Keeps (freed p) v'
          (elim b [ inl q ↦ inl q | inr h ↦ inr (omega (arith, less, v)) ]) in
      (
        process_next_in_queue-IsBounded true (freed p) v' (rw less (omega (arith, v))),
        record {
          busy = k.busy;
          same_line = k.same_line;
          same_omitted = k.same_omitted;
          same_quit = k.same_quit;
        },
      )

  reap-Keeps :
      (exits : List Bool) (p : Process)
      → All (λ forked. forked ≡ true) exits
      → IsBounded workers capacity p
      → IsBusy p
      → Keeps p (reap exits p)
  unfolding reap
  reap-Keeps [] p a v b = Keeps-refl p b
  reap-Keeps (false ∷ exits) p a v b = cc
  reap-Keeps (true ∷ exits) p a v b = elim (Bool-cases (p.os_children == 0)) [
    | inl none_left ↦ rw none_left (Keeps-refl p b)
    | inr more ↦
        let (v', k) = exit-Keeps p (ground arith) v b in
        rw more (
          Keeps-trans {q = process_next_in_queue true (freed p)} k
            (reap-Keeps exits _ a.1 v' k.busy))
  ]

-- No fork fails, and nobody ends the program.
abbrev pub IsSmoothSignal : Caught → Type 0
IsSmoothSignal sigusr1 = Unit
IsSmoothSignal (sigchld exits) = All (λ forked. forked ≡ true) exits
IsSmoothSignal sigterm = ⊥
IsSmoothSignal sigint = ⊥

abbrev pub IsSmooth : Event → Type 0
IsSmooth (inotify forked mask name) = forked ≡ true
IsSmooth (signals caught) = All IsSmoothSignal caught

-- What inotify reports of finished uploads, the latest first.
abbrev pub arrival : Event → List Str
arrival (inotify forked mask name) =
    if (bit_and mask in_isdir == 0) && not (bit_and mask in_file_done == 0)
    then (if is_working (strrchr name b'.') then [] else name ∷ [])
    else []
arrival (signals caught) = []

abbrev pub arrived : List Event → List Str
arrived [] = []
arrived (e ∷ es) = arrived es ++ arrival e

module _ {workers capacity : ℕ} where
  handle_signal_pipe_cb-Keeps :
      (caught : List Caught) (p : Process)
      → All IsSmoothSignal caught
      → IsBounded workers capacity p
      → IsBusy p
      → Keeps p (handle_signal_pipe_cb caught p).0
  unfolding handle_signal_pipe_cb
  handle_signal_pipe_cb-Keeps [] p a v b = Keeps-refl p b
  handle_signal_pipe_cb-Keeps (sigusr1 ∷ cs) p a v b = handle_signal_pipe_cb-Keeps cs p a.1 v b
  handle_signal_pipe_cb-Keeps (sigchld exits ∷ cs) p a v b =
      let k = reap-Keeps exits p a.0 v b in
      Keeps-trans k
        (handle_signal_pipe_cb-Keeps cs (reap exits p) a.1 (reap-IsBounded exits p v) k.busy)
  handle_signal_pipe_cb-Keeps (sigterm ∷ cs) p a v b = absurd a.0
  handle_signal_pipe_cb-Keeps (sigint ∷ cs) p a v b = absurd a.0

  dispatch-Takes :
      (e : Event) (p : Process)
      → IsSmooth e
      → IsBounded workers capacity p
      → IsBusy p
      → Takes p (arrival e) (dispatch e p)
  unfolding dispatch handle_inotify_cb
  dispatch-Takes (inotify true mask name) p s v b = ground (arith, handle_new_path-Takes p name v b)
  dispatch-Takes (inotify false mask name) p s v b = cc
  dispatch-Takes (signals caught) p s v b =
      let k = handle_signal_pipe_cb-Keeps caught p s v b in
      record {
        busy = k.busy;
        exact = λ o. (k.same_line, sym k.same_omitted ∙ o);
        same_quit = k.same_quit;
      }

  main_loop-Takes :
      (es : List Event) (p : Process)
      → All IsSmooth es
      → IsBounded workers capacity p
      → IsBusy p
      → p.quit ≡ false
      → Takes p (arrived es) (main_loop es p)
  unfolding main_loop
  main_loop-Takes [] p s v b r = record { busy = b; exact = λ o. (refl, o); same_quit = refl }
  main_loop-Takes (e ∷ es) p s v b r =
      let first = dispatch-Takes e p s.0 v b in
      let next : main_loop (e ∷ es) p ≡ main_loop es (dispatch e p) = ground arith in
      subst (Takes p (arrived (e ∷ es))) (sym next) (
        Takes-trans first (
          main_loop-Takes es (dispatch e p) s.1 (dispatch-IsBounded e p v) first.busy
            (first.same_quit ∙ r)))

-- While forks succeed and no archive is omitted, archives are handled in the order in which they
-- came: those handled and, behind them, those deferred are those that arrived. An archive is only
-- deferred while every worker is busy.
pub main_loop-arrived :
    (dir : Str) (workers mib : ℕ) (es : List Event) {p : Process}
    → workers < 2 ^ 31
    → configure dir (pos workers) (pos mib) ≡ some p
    → All IsSmooth es
    → (main_loop es p).omitted ≡ []
    → (line (main_loop es p) ≡ arrived es) × IsBusy (main_loop es p)
unfolding configure main_loop
main_loop-arrived dir workers mib es {p} w e s o =
    let (q, l, r) = start in
    let t = main_loop-Takes es p s (configure-main_loop dir workers mib [] w e) (inl q) r in
    ((t.exact o).0 ∙ ap (◌++◌ (arrived es)) l ∙ append-nil _, t.busy)
  where
    start : (p.queue.q ≡ []) × (line p ≡ []) × (p.quit ≡ false)
    start = (ground arith, ground arith, ground arith)

reap_childless : (exits : List Bool) (p : Process) → p.os_children ≡ 0 → reap exits p ≡ p
unfolding reap
reap_childless [] p h = refl
reap_childless (forked ∷ exits) p h = ground arith

-- A fork that fails where a worker has just left starts nobody: with no other worker the archives
-- behind it stay deferred, and no exit of a child will ever come to start them.
reap_stalls :
    (p : Process) (name : Str) (deferred : List Str) (exits : List Bool)
    → p.queue.q ≡ deferred ++ name ∷ []
    → p.os_children ≡ 1
    → p.children ≡ 1
    → let stuck = reap (false ∷ []) p in
      (stuck.children ≡ 0)
      × (stuck.queue.q ≡ deferred)
      × (stuck.log ≡ (name, false) ∷ p.log)
      × (reap exits stuck ≡ stuck)
unfolding reap process_next_in_queue run_abrt_handle_upload dec32 inc32
reap_stalls p name deferred exits q o c =
    rw after (refl, refl, refl, reap_childless exits stuck refl)
  where
    stuck : Process
    stuck = record p {
      os_children = 0;
      children = 0;
      log = (name, false) ∷ p.log;
      queue = record { capacity = p.queue.capacity; q = deferred };
    }

    after : reap (false ∷ []) p ≡ stuck
    after = ground (arith, queue_pop-append p.queue deferred name q)
