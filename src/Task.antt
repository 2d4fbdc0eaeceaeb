-- ===== src/Task.antt =====
-- src/dbus/abrt_problems2_task.c and its header: a task of the D-Bus service, which wraps a GTask.
-- `private` is what a subclass keeps. The thread's code and error, as `g_task_propagate_int` hands
-- them over, are arguments of the callback. `g_object_unref` is counted for autonomous tasks.
pub mod Changes
pub mod Moves
pub mod Finish
pub mod Autonomous
pub mod NewProblem
pub mod Tests
use abrt.Base.{
  ℕ, zero, suc, ◌+◌, ◌-◌, Bool, true, false, not, ◌&&◌, ◌||◌, List, [], ◌∷◌, Option, none, some,
  ◌==◌, if◌then◌else◌, Str, codes, str_eq, is_some,
}
use abrt.Base.Int.{ℤ, pos, negsuc}

pub data Status : Type 0 where
  new running stopped canceled failed done : Status

unfoldable pub same_status : Status → Status → Bool
same_status new new = true
same_status running running = true
same_status stopped stopped = true
same_status canceled canceled = true
same_status failed failed = true
same_status done done = true
same_status _ _ = false

-- GVariant dictionaries: key and value, a later entry of a key hides those before it.
abbrev pub Details : Type 0
Details = List (Str × Str)

pub record Task (σ : Type 0) : Type 0 where
  pub status : Status
  pub details : Details
  pub results : Option Details
  pub code : ℤ
  pub cancellable : Option Bool
  pub private : σ
  pub autonomous : Bool
  pub signals : List Status
  pub unrefs : ℕ

-- The virtual functions; `none` is a null pointer in the class.
pub record TaskClass (σ : Type 0) : Type 0 where
  pub start : Option (Task σ → Task σ × Option Str)
  pub cancel : Option (Task σ → Task σ × Option Str)
  pub finish : Option (Task σ → Task σ × Option Str)

is_canceled_status : Status → Bool
is_canceled_status canceled = true
is_canceled_status _ = false

abbrev cancellable_is_cancelled : Option Bool → Bool
cancellable_is_cancelled none = false
cancellable_is_cancelled (some b) = b

abbrev pub cannot_cancel : Str
cannot_cancel = codes "Task is not in the state that allows cancelling"

abbrev pub cannot_finish : Str
cannot_finish = codes "Cannot finalize undone task"

-- Result and code, or an error.
pub data Finished : Type 0 where
  finished : Details → ℤ → Finished
  unfinished : Str → Finished

abbrev or_empty : Option Details → Details
or_empty none = []
or_empty (some d) = d

pub is_over : Status → Bool
is_over done = true
is_over failed = true
is_over _ = false

abbrev pub cannot_start : Str
cannot_start = codes "Cannot start task that is not new or stopped"

pub may_start : Status → Bool
may_start new = true
may_start stopped = true
may_start _ = false

-- `negsuc 0` is ABRT_P2_TASK_CODE_ERROR.
unfoldable pub failure_message : ℕ → Option Str → Str
failure_message n (some e) = e
failure_message zero none = codes "Task failed"
failure_message (suc n) none = codes "Internal error: Invalid Task return code"

module _ {σ : Type 0} where
  unfoldable pub new_task : σ → Bool → Task σ
  new_task private autonomous = record {
    status = new;
    details = [];
    results = none;
    code = pos 0;
    cancellable = none;
    private = private;
    autonomous = autonomous;
    signals = [];
    unrefs = 0;
  }

  abbrev pub call_virtual : Option (Task σ → Task σ × Option Str) → Task σ → Task σ × Option Str
  call_virtual none t = (t, none)
  call_virtual (some f) t = f t

  unfoldable pub add_detail : Task σ → Str → Str → Task σ
  add_detail t key value = record t { details = (key, value) ∷ t.details }

  unfoldable pub set_response : Task σ → Details → Task σ
  set_response t response = record t { results = some response }

  unfoldable pub is_cancelled : Task σ → Bool
  unfolding is_canceled_status
  is_cancelled t = cancellable_is_cancelled t.cancellable || is_canceled_status t.status

  pub give_result : Task σ × Option Str → Task σ × Finished
  give_result (t, none) = (t, finished (or_empty t.results) t.code)
  give_result (t, some e) = (t, unfinished e)

  unfoldable pub finish : TaskClass σ → Task σ → Task σ × Finished
  unfolding give_result is_over
  finish c t =
      if is_over t.status
      then give_result (call_virtual c.finish t)
      else (t, unfinished cannot_finish)

  abbrev unref : Task σ → Task σ
  unref t = record t { unrefs = t.unrefs + 1 }

  -- `abrt_p2_task_autonomous_cb`, but for the case STOPPED
  pub unref_on : TaskClass σ → Status → Task σ → Task σ
  unref_on c new t = t
  unref_on c running t = t
  unref_on c stopped t = t
  unref_on c canceled t = unref t
  unref_on c failed t = unref (finish c t).0
  unref_on c done t = unref t

  -- A change to a status other than STOPPED, with what the callback of an autonomous task does.
  unfoldable pub change_status_plain : TaskClass σ → Task σ → Status → Task σ
  unfolding same_status unref_on
  change_status_plain c t status =
      if same_status t.status status
      then t
      else let changed = record t { status = status; signals = status ∷ t.signals } in
        if t.autonomous then unref_on c status changed else changed

  pub cancel_stopped : TaskClass σ → Task σ × Option Str → Task σ × Option Str
  cancel_stopped c (t, none) = (change_status_plain c t canceled, none)
  cancel_stopped c (t, some e) = (t, some e)

  pub cancel_in : TaskClass σ → Status → Task σ → Task σ × Option Str
  cancel_in c running t = (record t { cancellable = some true }, none)
  cancel_in c stopped t = cancel_stopped c (call_virtual c.cancel t)
  cancel_in c _ t = (t, some cannot_cancel)

  unfoldable pub cancel : TaskClass σ → Task σ → Task σ × Option Str
  unfolding cancel_in cancel_stopped
  cancel c t = if is_cancelled t then (t, none) else cancel_in c t.status t

  -- The case STOPPED of `abrt_p2_task_autonomous_cb`
  pub unref_on_error : Task σ × Option Str → Task σ
  unref_on_error (t, none) = t
  unref_on_error (t, some e) = unref t

  pub on_stopped : TaskClass σ → Task σ → Task σ
  unfolding unref_on_error
  on_stopped c t = if t.autonomous then unref_on_error (cancel c t) else t

  pub change_to : TaskClass σ → Task σ → Status → Task σ
  change_to c t stopped =
      if same_status t.status stopped
      then t
      else on_stopped c (record t { status = stopped; signals = stopped ∷ t.signals })
  change_to c t status = change_status_plain c t status

  -- `abrt_p2_task_change_status`
  unfoldable pub change_status : TaskClass σ → Task σ → Status → Task σ
  unfolding change_to on_stopped
  change_status c t status = change_to c t status

  pub run_in_thread : TaskClass σ → Task σ × Option Str → Task σ × Option Str
  run_in_thread c (t, some e) = (t, some e)
  run_in_thread c (t, none) =
      (change_status c (record t { cancellable = some false }) running, none)

  unfoldable pub start : TaskClass σ → Task σ → Task σ × Option Str
  unfolding run_in_thread may_start
  start c t =
      if may_start t.status
      then run_in_thread c (call_virtual c.start t)
      else (t, some cannot_start)

  pub fail_with : TaskClass σ → Task σ → Str → Task σ
  fail_with c t message =
      change_status c (set_response t ((codes "Error.Message", message) ∷ [])) failed

  -- The branches of the callback for a code below STOP
  pub ended_badly : TaskClass σ → Task σ → ℕ → Option Str → Task σ
  unfolding fail_with failure_message
  ended_badly c t n error =
      if is_cancelled t
      then change_status c (call_virtual c.cancel t).0 canceled
      else fail_with c t (failure_message n error)

  pub ended : TaskClass σ → Task σ → ℤ → Option Str → Task σ
  unfolding ended_badly
  ended c t (pos zero) error = change_status c t stopped
  ended c t (pos (suc n)) error = change_status c (record t { code = pos n }) done
  ended c t (negsuc n) error = ended_badly c t n error

  -- `abrt_p2_task_finish_gtask`
  unfoldable pub finish_gtask : TaskClass σ → Task σ → ℤ → Option Str → Task σ
  unfolding ended
  finish_gtask c t code error = record (ended c t code error) { cancellable = none }

  -- `abrt_p2_task_autonomous_run`
  unfoldable pub autonomous_run : TaskClass σ → Task σ → Task σ × Option Str
  unfolding start
  autonomous_run c t = start c (record t { autonomous = true })
