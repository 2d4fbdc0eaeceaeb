-- ===== src/Task/Finish.antt =====
-- What a client gets at the end of a run.
use abrt.Base.{
  ℕ, zero, suc, ◌≡◌, refl, ◌∙◌, inl, inr, Bool, true, false, [], ◌∷◌, Option, none, some,
  if◌then◌else◌, Str, codes, arith, Bool-cases,
}
use abrt.Base.Int.{ℤ, pos, negsuc}
use abrt.Task.Changes.{IsTame, call_virtual-SameBase}
use abrt.Task.{
  running, canceled, Task, TaskClass, call_virtual, is_cancelled, change_status_plain,
  change_status, Finished, finished, unfinished, cannot_finish, or_empty, finish, set_response,
  failure_message, cancel, finish_gtask,
}

-- `g_task_propagate_int`: by default a GTask whose cancellable is cancelled yields -1 and an error,
-- whatever its thread has returned.
pub record GTask : Type 0 where
  pub propagate : Bool → ℤ → Option Str → ℤ × Option Str
  pub propagate_cancelled :
      (code : ℤ) (error : Option Str) → (e : Str) × (propagate true code error ≡ (negsuc 0, some e))

-- What `finish` gives after the callback: the response and the code of a thread that was done; the
-- message of one that failed; an error after a stop, and after a cancellation.
abbrev pub Verdict : {σ : Type 0} → Task σ → ℤ → Option Str → Finished
Verdict t (pos zero) error = unfinished cannot_finish
Verdict t (pos (suc n)) error = finished (or_empty t.results) (pos n)
Verdict t (negsuc n) error =
    if is_cancelled t
    then unfinished cannot_finish
    else finished ((codes "Error.Message", failure_message n error) ∷ []) t.code

change_to_canceled :
    {σ : Type 0} (c : TaskClass σ) (t : Task σ)
    → (change_status_plain c t canceled).status ≡ canceled
unfolding change_status_plain
change_to_canceled c t = ground arith

module _ {σ : Type 0} (c : TaskClass σ) (h : IsTame c) (t : Task σ) (owned : t.autonomous ≡ false)
    (runs : t.status ≡ running) (plain : c.finish ≡ none) where
  cancelled-finish :
      (n : ℕ) (error : Option Str)
      → is_cancelled t ≡ true
      → (finish c (finish_gtask c t (negsuc n) error)).1 ≡ unfinished cannot_finish
  unfolding finish finish_gtask change_status change_status_plain
  cancelled-finish n error e =
      let b = call_virtual-SameBase c.cancel t h.tame_cancel in rw e (ground (arith, b))

  failed-finish :
      (n : ℕ) (error : Option Str)
      → is_cancelled t ≡ false
      → (finish c (finish_gtask c t (negsuc n) error)).1
        ≡ finished ((codes "Error.Message", failure_message n error) ∷ []) t.code
  unfolding finish finish_gtask change_status change_status_plain set_response
  failed-finish n error e = rw e (ground arith)

  -- What the owner of a task gets from `finish` after a run, for each code that the thread's end may
  -- carry: see `Verdict`.
  pub finish_gtask-finish :
      (code : ℤ) (error : Option Str)
      → (finish c (finish_gtask c t code error)).1 ≡ Verdict t code error
  unfolding finish finish_gtask change_status change_status_plain
  finish_gtask-finish (pos zero) error = ground arith
  finish_gtask-finish (pos (suc n)) error = ground arith
  finish_gtask-finish (negsuc n) error = elim (Bool-cases (is_cancelled t)) [
    | inl over ↦ cancelled-finish n error over ∙ rw over
    | inr going ↦ failed-finish n error going ∙ rw going
  ]

  asked : is_cancelled (cancel c t).0 ≡ true
  unfolding cancel is_cancelled
  asked = elim (Bool-cases (is_cancelled t)) [
    | inl over ↦ rw over over
    | inr going ↦ rw (going, runs) refl
  ]

  -- A running task that its owner cancels ends canceled, whatever its thread returns: also where the
  -- thread has returned DONE or STOP, since GLib then hands over an error.
  cancel-finish_gtask :
      (g : GTask) (code : ℤ) (error : Option Str)
      → let t' = (cancel c t).0 in
        let (code', error') = g.propagate (is_cancelled t') code error in
        (finish_gtask c t' code' error').status ≡ canceled
  unfolding finish_gtask change_status
  cancel-finish_gtask g code error =
      let (e, p) = g.propagate_cancelled code error in
      rw (asked, p, asked) (change_to_canceled c (call_virtual c.cancel (cancel c t).0).0)
