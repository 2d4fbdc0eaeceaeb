-- ===== src/Task/Tests.antt =====
-- Runs of tasks, and the theorems about them at concrete inputs.
use abrt.Base.{◌+◌, ◌≡◌, refl, true, false, [], ◌∷◌, none, some, Str, codes, is_some, ◌⊎◌}
use abrt.Base.Int.{pos, negsuc}
use abrt.Task.Finish.{GTask, Verdict, finish_gtask-finish}
use abrt.Task.Moves.{starts, cancels, here, next, is_final, Moves, Reach-Moves}
use abrt.Task.NewProblem.Entry.{
  new_problem_class-IsTame, account, makes, KeepsEntry, run-account, cancelled_entry,
}
use abrt.Task.NewProblem.{
  deletes, destroys, completes, notifies, NewProblem, made, World, NewProblemTask,
  create_directory_task, run, after_create, with_entry, notify_phase, notify_directory_task,
  new_problem_class,
}
use abrt.Task.{
  running, canceled, TaskClass, new_task, finish, start, cancel, add_detail, set_response,
  is_cancelled, change_status, change_status_plain, finish_gtask,
}

abbrev entry : Str
entry = codes "/entry/1"

-- The daemon accepts the problem.
abbrev accepting : World
accepting = record {
  can_create = pos 5;
  saves = made (codes "/spool/1");
  registers = made entry;
  daemon = pos 200;
  lookup = none;
  delete_error = none;
  notify_error = none;
  cancelled_by_now = false;
}

-- It knows the problem already.
abbrev knowing : World
knowing = record accepting { daemon = pos 303; lookup = some (codes "/entry/0") }

abbrev storing : TaskClass NewProblem
storing = new_problem_class accepting

abbrev fresh : NewProblemTask
fresh = new_task (record { obj = none; wait_before_notify = false; effects = [] }) false

abbrev going : NewProblemTask
going = (start storing fresh).0

going_runs :
    (going.status ≡ running) × (going.cancellable ≡ some false) × (going.signals ≡ running ∷ [])
unfolding start new_task new_problem_class change_status change_status_plain
going_runs = (refl, refl, refl)

run-accepting :
    ((run accepting fresh).0.private.effects ≡ notifies entry ∷ completes entry ∷ [])
    × ((run accepting fresh).1 ≡ (pos 1, none))
unfolding run create_directory_task after_create with_entry notify_phase notify_directory_task
    new_task add_detail set_response
run-accepting = (refl, refl)

run-knowing :
    ((run knowing fresh).0.private.effects ≡ notifies (codes "/entry/0") ∷ destroys entry ∷ [])
    × ((run knowing fresh).1 ≡ (pos 3, none))
unfolding run create_directory_task after_create with_entry notify_phase notify_directory_task
    new_task add_detail set_response
run-knowing = (refl, refl)

run-account_example :
    (account (run knowing fresh).0 ≡ account fresh + makes knowing fresh)
    × (is_some (run knowing fresh).0.private.obj ≡ true → KeepsEntry (run knowing fresh).1.0)
run-account_example = run-account knowing fresh

abbrev glib : GTask
glib = record {
  propagate = λ cancelled code error. elim cancelled [
    | true ↦ (negsuc 0, some (codes "Operation was cancelled"))
    | false ↦ (code, error)
  ];
  propagate_cancelled = λ code error. (codes "Operation was cancelled", refl);
}

Reach-Moves_example : Moves going (cancel storing going).0
Reach-Moves_example =
    Reach-Moves storing (record { obj = none; wait_before_notify = false; effects = [] }) false
      (new_problem_class-IsTame accepting) (next here (starts fresh)) (cancels going)

abbrev over : NewProblemTask
over = (finish_gtask storing going (pos 1) none)

has_thread : is_some going.cancellable ≡ true
unfolding start new_task new_problem_class change_status change_status_plain
has_thread = refl

over_final : is_final over.status ≡ true
unfolding finish_gtask start new_task new_problem_class change_status change_status_plain
over_final = refl

finish_gtask-finish_example :
    (finish storing (finish_gtask storing going (pos 1) none)).1 ≡ Verdict going (pos 1) none
unfolding start new_task new_problem_class change_status change_status_plain
finish_gtask-finish_example =
    finish_gtask-finish storing (new_problem_class-IsTame accepting) going refl refl refl (pos 1)
      none

abbrev holding : NewProblemTask
holding = record going {
  private = record { obj = some entry; wait_before_notify = false; effects = [] };
}

cancelled_entry_example :
    let t' = (cancel storing holding).0 in
    let (code', error') = glib.propagate (is_cancelled t') (pos 2) none in
    let u = finish_gtask storing t' code' error' in
    (u.status ≡ canceled)
    × (u.private.obj ≡ none)
    × (((accepting.delete_error ≡ none) × (u.private.effects ≡ destroys entry ∷ deletes entry ∷ []))
        ⊎ ((is_some accepting.delete_error ≡ true) × (u.private.effects ≡ destroys entry ∷ [])))
unfolding start new_task new_problem_class change_status change_status_plain
cancelled_entry_example = cancelled_entry accepting glib holding entry (pos 2) none refl refl refl
