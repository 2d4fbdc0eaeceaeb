-- ===== src/Task/Autonomous.antt =====
-- Tasks that run on their own: nobody but the callback of their signal gives them up.
use abrt.Base.{
  zero, suc, ◌+◌, ◌≡◌, refl, ap, ◌∙◌, inl, inr, true, false, ◌||◌, ◌∷◌, Option, Str, arith,
  Bool-cases,
}
use abrt.Base.Int.{ℤ, pos, negsuc}
use abrt.Task.Changes.{IsTame, call_virtual-SameBase, finish-SameBase}
use abrt.Task.{
  Status, new, running, stopped, canceled, failed, done, same_status, Task, TaskClass, call_virtual,
  is_cancelled, change_status_plain, cancel, change_status, set_response, finish_gtask,
}

module _ {σ : Type 0} (c : TaskClass σ) (h : IsTame c) where
  -- A change from RUNNING to one of the final statuses.
  ends_released :
      (t : Task σ) (status : Status)
      → t.autonomous ≡ true
      → t.status ≡ running
      → (same_status status canceled || same_status status failed || same_status status done) ≡ true
      → (change_status c t status).unrefs ≡ t.unrefs + 1
  unfolding change_status change_status_plain
  ends_released t canceled a r q = ground arith
  ends_released t done a r q = ground arith
  ends_released t failed a r q =
      let u = record t { status = failed; signals = failed ∷ t.signals } in
      ground (arith, finish-SameBase c u h)
  ends_released t new a r q = ground arith
  ends_released t running a r q = ground arith
  ends_released t stopped a r q = ground arith

  -- Where the thread stops, the task is cancelled, and given up also if that fails.
  stopped_released :
      (t : Task σ)
      → t.autonomous ≡ true
      → t.status ≡ running
      → is_cancelled t ≡ false
      → (change_status c t stopped).unrefs ≡ t.unrefs + 1
  unfolding change_status cancel is_cancelled change_status_plain
  stopped_released t a r going =
      let u = record t { status = stopped; signals = stopped ∷ t.signals } in
      ground (arith, call_virtual-SameBase c.cancel u h.tame_cancel)

  -- An autonomous task whose thread has ended gives up its reference exactly once, whatever the end:
  -- done, stopped, failed or cancelled. Where it has been cancelled, its thread does not end with STOP.
  finish_gtask-unrefs :
      (t : Task σ) (code : ℤ) (error : Option Str)
      → t.autonomous ≡ true
      → t.status ≡ running
      → (code ≡ pos 0 → is_cancelled t ≡ false)
      → (finish_gtask c t code error).unrefs ≡ t.unrefs + 1
  unfolding finish_gtask set_response same_status
  finish_gtask-unrefs t (pos zero) error a r k = stopped_released t a r (k refl)
  finish_gtask-unrefs t (pos (suc n)) error a r k =
      ends_released (record t { code = pos n }) done a r refl
  finish_gtask-unrefs t (negsuc n) error a r k =
      let b = call_virtual-SameBase c.cancel t h.tame_cancel in
      elim (Bool-cases (is_cancelled t)) [
        | inl over ↦ rw over (
            ends_released (call_virtual c.cancel t).0 canceled (b.same_autonomous ∙ a)
              (b.same_status_field ∙ r) refl
            ∙ ap (λ m. m + 1) b.same_unrefs)
        | inr going ↦ rw going (ends_released _ failed a r refl)
      ]
