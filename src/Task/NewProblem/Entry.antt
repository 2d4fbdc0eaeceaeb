-- ===== src/Task/NewProblem/Entry.antt =====
-- What becomes of the temporary entries that the task makes.
use abrt.Base.{
  ℕ, suc, ◌+◌, ◌≡◌, refl, ◌⊎◌, inl, inr, true, false, List, [], ◌∷◌, Option, none, some, Str, arith,
  Bool-cases, is_some,
}
use abrt.Base.Int.{ℤ, pos}
use abrt.Task.Changes.{IsTame}
use abrt.Task.Finish.{GTask}
use abrt.Task.NewProblem.{
  Effect, deletes, destroys, completes, notifies, Made, made, not_made, World, NewProblemTask,
  create_directory_task, remove_temporary_entry, notify_phase, with_entry, after_create, run,
  new_problem_class,
}
use abrt.Task.{
  running, canceled, add_detail, set_response, is_cancelled, cancel, finish_gtask, change_status,
  change_status_plain,
}

-- The virtual function of the class spares the fields of the base class.
pub new_problem_class-IsTame : (w : World) → IsTame (new_problem_class w)
unfolding new_problem_class remove_temporary_entry
new_problem_class-IsTame w = record {
  tame_start = tt;
  tame_cancel = λ t. ground arith;
  tame_finish = tt;
}

abbrev destroyed : List Effect → ℕ
destroyed [] = 0
destroyed (destroys path ∷ es) = suc (destroyed es)
destroyed (deletes path ∷ es) = destroyed es
destroyed (completes path ∷ es) = destroyed es
destroyed (notifies path ∷ es) = destroyed es

abbrev held : Option Str → ℕ
held none = 0
held (some path) = 1

-- The entries that the task holds or has destroyed.
abbrev pub account : NewProblemTask → ℕ
account t = held t.private.obj + destroyed t.private.effects

-- How many entries a run makes.
abbrev pub makes : World → NewProblemTask → ℕ
makes w t = elim t.private.obj [
  | some path ↦ 0
  | none ↦ elim (create_directory_task w) [ made path ↦ 1 | not_made e ↦ 0 ]
]

-- ABRT_P2_TASK_CODE_STOP, _CANCELLED, and _DONE with ACCEPTED
abbrev pub KeepsEntry : ℤ → Type 0
KeepsEntry code = (code ≡ pos 0) ⊎ (code ≡ pos 2) ⊎ (code ≡ pos 1)

notify_phase-account :
    (w : World) (t : NewProblemTask) (path : Str)
    → t.private.obj ≡ some path
    → (account (notify_phase w t path).0 ≡ account t)
      × (is_some (notify_phase w t path).0.private.obj ≡ true
          → KeepsEntry (notify_phase w t path).1.0)
unfolding notify_phase set_response
notify_phase-account w t path h = (ground arith, λ e. ground arith)

with_entry_same :
    (t : NewProblemTask) (path : Str)
    → ((with_entry t path).private.obj ≡ some path)
      × ((with_entry t path).private.effects ≡ t.private.effects)
      × (is_cancelled (with_entry t path) ≡ is_cancelled t)
unfolding with_entry add_detail is_cancelled
with_entry_same t path = (refl, refl, refl)

after_create-account :
    (w : World) (t : NewProblemTask) (path : Str)
    → t.private.obj ≡ none
    → (account (after_create w t path).0 ≡ account t + 1)
      × (is_some (after_create w t path).0.private.obj ≡ true
          → KeepsEntry (after_create w t path).1.0)
unfolding after_create
after_create-account w t path h =
    let (o, e, _) = with_entry_same t path in
    let (n, k) = notify_phase-account w (with_entry t path) path o in
    (ground (arith, o, e, n), λ q. ground (arith, o, k))

-- A run accounts for every temporary entry: it makes one at most, and none while one is held; each is
-- destroyed once or still held. One is held only after a stop, after a cancellation, and after the
-- daemon has accepted the problem.
pub run-account :
    (w : World) (t : NewProblemTask)
    → (account (run w t).0 ≡ account t + makes w t)
      × (is_some (run w t).0.private.obj ≡ true → KeepsEntry (run w t).1.0)
unfolding run
run-account w t = step t.private.obj refl
  where
    Claim : Type 0
    Claim =
        (account (run w t).0 ≡ account t + makes w t)
        × (is_some (run w t).0.private.obj ≡ true → KeepsEntry (run w t).1.0)

    create : t.private.obj ≡ none → (m : Made) → create_directory_task w ≡ m → Claim
    create h (made path) e = ground (arith, after_create-account w t path)
    create h (not_made x) e = ground arith

    step : (o : Option Str) → t.private.obj ≡ o → Claim
    step none h = create h (create_directory_task w) refl
    step (some path) h = ground (arith, notify_phase-account w t path)

-- How a cancelled task ends when the thread returns this: the entry is off the bus, and off the disk as
-- well unless its deletion fails.
abbrev pub EndsWithout : World → GTask → NewProblemTask → Str → ℤ → Option Str → Type 0
EndsWithout w g t path code error =
    let c = new_problem_class w in
    let t' = (cancel c t).0 in
    let (code', error') = g.propagate (is_cancelled t') code error in
    let u = finish_gtask c t' code' error' in
    (u.status ≡ canceled)
    × (u.private.obj ≡ none)
    × (((w.delete_error ≡ none)
          × (u.private.effects ≡ destroys path ∷ deletes path ∷ t.private.effects))
        ⊎ ((is_some w.delete_error ≡ true)
            × (u.private.effects ≡ destroys path ∷ t.private.effects)))

-- A task of a client whose entry is made when its owner cancels it: whatever the thread then returns, if
-- it does nothing to the entry any more, the task ends canceled and without the entry, which is off the
-- bus, and off the disk as well unless its deletion fails.
pub cancelled_entry :
    (w : World) (g : GTask) (t : NewProblemTask) (path : Str) (code : ℤ) (error : Option Str)
    → t.autonomous ≡ false
    → t.status ≡ running
    → t.private.obj ≡ some path
    → EndsWithout w g t path code error
unfolding finish_gtask cancel is_cancelled change_status change_status_plain new_problem_class
    remove_temporary_entry
cancelled_entry w g t path code error owned runs has = by_error w.delete_error refl
  where
    by_error : (o : Option Str) → w.delete_error ≡ o → EndsWithout w g t path code error
    by_error none d =
        let (e, p) = g.propagate_cancelled code error in
        elim (Bool-cases (is_cancelled t)) [
          | inl over ↦ (ground (arith, p, d), ground (arith, p, d), inl (d, ground (arith, p, d)))
          | inr going ↦ (ground (arith, p, d), ground (arith, p, d), inl (d, ground (arith, p, d)))
        ]
    by_error (some x) d =
        let (e, p) = g.propagate_cancelled code error in
        elim (Bool-cases (is_cancelled t)) [
          | inl over ↦ (
            ground (arith, p, d),
            ground (arith, p, d),
            inr (ground (arith, d), ground (arith, p, d)),
          )
          | inr going ↦ (
            ground (arith, p, d),
            ground (arith, p, d),
            inr (ground (arith, d), ground (arith, p, d)),
          )
        ]
