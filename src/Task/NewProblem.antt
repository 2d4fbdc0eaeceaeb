-- ===== src/Task/NewProblem.antt =====
-- src/dbus/abrt_problems2_task_new_problem.c: the task that stores a new problem in a temporary
-- directory and has the daemon process it. The service, the daemon and the file system answer
-- through `World`; what the task does to them is the list `effects`, the last one first.
pub mod Entry
use abrt.Base.{
  ℕ, zero, suc, ◌+◌, ◌≡◌, refl, Bool, true, false, List, [], ◌∷◌, Option, none, some, ◌==◌,
  if◌then◌else◌, Str, codes, is_some,
}
use abrt.Base.Int.{ℤ, pos, negsuc}
use abrt.Task.{Task, TaskClass, Details, add_detail, set_response, is_cancelled}

pub data Effect : Type 0 where
  deletes destroys completes notifies : Str → Effect

pub record NewProblem : Type 0 where
  pub obj : Option Str
  pub wait_before_notify : Bool
  pub effects : List Effect

-- An object path, or an error.
pub data Made : Type 0 where
  made : Str → Made
  not_made : Str → Made

-- The daemon's answer to a new path: a negative number when it cannot be reached.
pub record World : Type 0 where
  pub can_create : ℤ
  pub saves : Made
  pub registers : Made
  pub daemon : ℤ
  pub lookup : Option Str
  pub delete_error : Option Str
  pub notify_error : Option Str
  pub cancelled_by_now : Bool

abbrev pub NewProblemTask : Type 0
NewProblemTask = Task NewProblem

abbrev pub e2big : ℕ
e2big = 7

register : World → Made → Made
register w (not_made e) = not_made e
register w (made id) = w.registers

-- `abrt_p2_task_new_problem_create_directory_task`; -E2BIG is `negsuc (e2big - 1)`.
unfoldable pub create_directory_task : World → Made
unfolding register
create_directory_task w = elim w.can_create [
  | pos n ↦
      if n == 0
      then not_made (codes "Too many problems have been recently created")
      else register w w.saves
  | negsuc n ↦
      if n + 1 == e2big
      then not_made (codes "No more problems can be created")
      else not_made (codes "Failed to check NewProblem limits")
]

abbrev effect : NewProblemTask → Effect → NewProblemTask
effect t e = record t { private = record (t.private) { effects = e ∷ t.private.effects } }

abbrev forget : NewProblemTask → NewProblemTask
forget t = record t { private = record (t.private) { obj = none } }

-- `abrt_p2_entry_delete` and `abrt_p2_object_destroy`: the directory is deleted unless there is an error,
-- the object is destroyed in any case.
abbrev pub gone : Option Str → NewProblemTask → Str → NewProblemTask
gone none t path = forget (effect (effect t (deletes path)) (destroys path))
gone (some error) t path = forget (effect t (destroys path))

-- `abrt_p2_task_remove_temporary_entry`, the virtual function `cancel`
unfoldable pub remove_temporary_entry : World → NewProblemTask → NewProblemTask × Option Str
remove_temporary_entry w t = elim t.private.obj [
  | none ↦ (t, none)
  | some path ↦ (gone w.delete_error t path, w.delete_error)
]

-- A code, the new path and the error.
pub record Notified : Type 0 where
  pub code : ℤ
  pub new_path : Option Str
  pub error : Option Str

-- ABRT_P2_TASK_NEW_PROBLEM_ACCEPTED and the codes behind it
abbrev pub code_accepted : ℤ
code_accepted = pos 0

abbrev pub code_duplicate : ℤ
code_duplicate = pos 2

abbrev pub code_dropped : ℤ
code_dropped = pos 3

abbrev pub code_invalid_data : ℤ
code_invalid_data = pos 4

unreachable : World → NewProblemTask → Str → NewProblemTask × Notified
unreachable w t path = (
  gone w.delete_error t path,
  record {
    code = w.daemon;
    new_path = none;
    error = some (codes "Failed to notify the new problem directory");
  },
)

-- 303: the entry of the problem that the daemon has named
duplicate_of : World → NewProblemTask → Option Str → NewProblemTask × Notified
duplicate_of w t none = (t, record { code = negsuc 0; new_path = none; error = none })
duplicate_of w t (some known) = (
  effect t (notifies known),
  record { code = code_duplicate; new_path = some known; error = w.notify_error },
)

processed : World → NewProblemTask → Str → ℕ → NewProblemTask × Notified
unfolding duplicate_of
processed w t path r =
    if r == 303
    then duplicate_of w (forget (effect t (destroys path))) w.lookup
    else if r == 410
    then (
      forget (effect t (destroys path)),
      record { code = code_dropped; new_path = none; error = none },
    )
    else if r == 200
    then (
      effect (effect t (completes path)) (notifies path),
      record { code = code_accepted; new_path = some path; error = w.notify_error },
    )
    else (
      gone w.delete_error t path,
      record { code = code_invalid_data; new_path = none; error = w.delete_error },
    )

-- `abrt_p2_task_new_problem_notify_directory_task`
unfoldable pub notify_directory_task : World → NewProblemTask → Str → NewProblemTask × Notified
unfolding unreachable processed
notify_directory_task w t path = elim w.daemon [
  | negsuc n ↦ unreachable w t path
  | pos r ↦ processed w t path r
]

-- The code and the error that the thread returns.
abbrev pub Returned : Type 0
Returned = ℤ × Option Str

entry_response : Option Str → Details
entry_response none = []
entry_response (some path) = (codes "NewProblem.Entry", path) ∷ []

-- ABRT_P2_TASK_CODE_ERROR, or ABRT_P2_TASK_CODE_DONE and the code on top
unfoldable pub conclude : NewProblemTask × Notified → NewProblemTask × Returned
unfolding entry_response
conclude (t, n) = elim n.code [
  | negsuc m ↦ (t, (negsuc 0, n.error))
  | pos m ↦ (set_response t (entry_response n.new_path), (pos (m + 1), n.error))
]

unfoldable pub notify_phase : World → NewProblemTask → Str → NewProblemTask × Returned
unfolding conclude notify_directory_task
notify_phase w t path = conclude (notify_directory_task w t path)

-- The task once the temporary entry is made
unfoldable pub with_entry : NewProblemTask → Str → NewProblemTask
with_entry t path =
    let t' = add_detail t (codes "NewProblem.TemporaryEntry") path in
    record t' { private = record (t'.private) { obj = some path } }

-- `cancelled_by_now` is what `abrt_p2_task_is_cancelled` finds.
unfoldable pub after_create : World → NewProblemTask → Str → NewProblemTask × Returned
after_create w t path =
    let t' = with_entry t path in
    if w.cancelled_by_now
    then (t', (pos 2, none))
    else if t.private.wait_before_notify
    then (t', (pos 0, none))
    else notify_phase w t' path

unfoldable pub run_created : World → NewProblemTask → Made → NewProblemTask × Returned
unfolding after_create with_entry
run_created w t (not_made e) = (t, (negsuc 0, some e))
run_created w t (made path) = after_create w t path

-- `abrt_p2_task_new_problem_run`
unfoldable pub run : World → NewProblemTask → NewProblemTask × Returned
unfolding run_created create_directory_task
run w t = elim t.private.obj [
  | none ↦ run_created w t (create_directory_task w)
  | some path ↦ notify_phase w t path
]

-- The class of the task, in a given world.
unfoldable pub new_problem_class : World → TaskClass NewProblem
new_problem_class w = record {
  start = none;
  cancel = some (remove_temporary_entry w);
  finish = none;
}
