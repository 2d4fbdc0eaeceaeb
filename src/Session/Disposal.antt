-- ===== src/Session/Disposal.antt =====
-- `abrt_p2_session_clean_tasks` and what it calls: a session that ends gives up its tasks. The tasks
-- are those of `p2s_tasks`, in order.
use abrt.Base.{
  ◌+◌, ◌≡◌, ◌≢◌, refl, ap, inl, inr, Bool, true, false, List, [], ◌∷◌, Option, none, some,
  if◌then◌else◌, Str, arith, Bool-cases, All,
}
use abrt.Base.Int.{ℤ}
use abrt.Task.Changes.{IsTame, call_virtual-SameBase}
use abrt.Task.Finish.{GTask}
use abrt.Task.{
  Status, new, running, stopped, canceled, failed, done, same_status, Task, TaskClass, is_cancelled,
  change_status, change_status_plain, cancel, finish_gtask,
}

module _ {σ : Type 0} (c : TaskClass σ) where
  abbrev unref : Task σ → Task σ
  unref t = record t { unrefs = t.unrefs + 1 }

  -- `none`: it aborts.
  pub dispose_task : Task σ → Status → Option (Task σ)
  dispose_task t stopped = some (unref (cancel c t).0)
  dispose_task t running = none
  dispose_task t status = some (unref t)

  -- The handler of the signal, for a task that was running
  pub delayed_dispose_task : Task σ → Status → Option (Task σ)
  delayed_dispose_task t running = none
  delayed_dispose_task t status = dispose_task t status

  pub disposed : Option (Task σ) → Option (Task σ × Bool)
  disposed none = none
  disposed (some t) = some (t, false)

  -- One round of the loop: the task, and whether the handler is connected.
  unfoldable pub clean_task : Task σ → Option (Task σ × Bool)
  unfolding disposed dispose_task
  clean_task t =
      if same_status t.status running
      then some ((cancel c t).0, true)
      else disposed (dispose_task t t.status)

  pub collect :
      Option (Task σ × Bool) → Option (List (Task σ × Bool)) → Option (List (Task σ × Bool))
  collect (some u) (some us) = some (u ∷ us)
  collect _ _ = none

  unfoldable pub clean_tasks : List (Task σ) → Option (List (Task σ × Bool))
  unfolding collect
  clean_tasks [] = some []
  clean_tasks (t ∷ tasks) = collect (clean_task t) (clean_tasks tasks)

  -- The task is given up once: at once, or when its thread has ended, whatever that returns.
  pub data Released (g : GTask) (t : Task σ) : Task σ × Bool → Type 0 where
    at_once : (u : Task σ) → u.unrefs ≡ t.unrefs + 1 → Released g t (u, false)
    later :
        (u : Task σ)
        → ((code : ℤ) (error : Option Str)
            → let (code', error') = g.propagate (is_cancelled u) code error in
              let v = finish_gtask c u code' error' in
              (w : Task σ) × (delayed_dispose_task v v.status ≡ some w) × (w.unrefs ≡ t.unrefs + 1))
        → Released g t (u, true)

  abbrev pub AllReleased : GTask → List (Task σ) → List (Task σ × Bool) → Type 0
  AllReleased g [] [] = Unit
  AllReleased g (t ∷ tasks) (u ∷ us) = Released g t u × AllReleased g tasks us
  AllReleased g _ _ = ⊥

  module _ (h : IsTame c) where
    cancel_stopped-unrefs :
        (t : Task σ) → t.autonomous ≡ false → t.status ≡ stopped → (cancel c t).0.unrefs ≡ t.unrefs
    unfolding cancel change_status_plain
    cancel_stopped-unrefs t a s = ground (arith, call_virtual-SameBase c.cancel t h.tame_cancel)

    idle :
        (t : Task σ)
        → t.autonomous ≡ false
        → (s : Status) → t.status ≡ s
        → s ≢ running
        → (u : Task σ) × (dispose_task t s ≡ some u) × (u.unrefs ≡ t.unrefs + 1)
    unfolding dispose_task
    idle t a stopped e n =
        (unref (cancel c t).0, refl, ap (λ k. k + 1) (cancel_stopped-unrefs t a e))
    idle t a running e n = absurd (n refl)
    idle t a new e n = (unref t, refl, refl)
    idle t a canceled e n = (unref t, refl, refl)
    idle t a failed e n = (unref t, refl, refl)
    idle t a done e n = (unref t, refl, refl)

    -- A running task that was cancelled ends canceled.
    cancelled_end :
        (g : GTask) (t : Task σ) (code : ℤ) (error : Option Str)
        → t.autonomous ≡ false
        → t.status ≡ running
        → let u = (cancel c t).0 in
          let (code', error') = g.propagate (is_cancelled u) code error in
          let v = finish_gtask c u code' error' in (v.status ≡ canceled) × (v.unrefs ≡ t.unrefs)
    unfolding cancel is_cancelled finish_gtask change_status change_status_plain
    cancelled_end g t code error a r =
        let (e, p) = g.propagate_cancelled code error in
        elim (Bool-cases (is_cancelled t)) [
          | inl over ↦ ground (arith, p, call_virtual-SameBase c.cancel t h.tame_cancel)
          | inr going ↦ ground (
            arith,
            p,
            call_virtual-SameBase c.cancel (record t { cancellable = some true }) h.tame_cancel,
          )
        ]

    delayed :
        (u v : Task σ)
        → v.status ≡ canceled
        → v.unrefs ≡ u.unrefs
        → (w : Task σ) × (delayed_dispose_task v v.status ≡ some w) × (w.unrefs ≡ u.unrefs + 1)
    unfolding delayed_dispose_task dispose_task
    delayed u v s n = (unref v, rw s refl, ap (λ k. k + 1) n)

    clean_task-Released :
        (g : GTask) (t : Task σ)
        → t.autonomous ≡ false
        → (u : Task σ × Bool) × (clean_task t ≡ some u) × Released g t u
    unfolding clean_task
    clean_task-Released g t a = elim (Bool-cases (same_status t.status running)) [
      | inl runs ↦ (
        ((cancel c t).0, true),
        rw runs refl,
        later (cancel c t).0 (λ code error.
            (let (s, n) = cancelled_end g t code error a (unfold same_status in ground arith) in
              delayed t _ s n)),
      )
      | inr still ↦
          (let (u, e, n) = idle t a t.status refl (unfold same_status in ground arith) in
            ((u, false), rw (still, e) (unfold disposed in refl), at_once u n))
    ]

    -- A session that cleans its tasks never aborts, and gives up each of them exactly once: those whose
    -- threads run are cancelled, and given up when these have ended, whatever they return.
    pub clean_tasks-AllReleased :
        (g : GTask) (tasks : List (Task σ))
        → All (λ t. t.autonomous ≡ false) tasks
        → (us : List (Task σ × Bool)) × (clean_tasks tasks ≡ some us) × AllReleased g tasks us
    unfolding clean_tasks collect
    clean_tasks-AllReleased g [] a = ([], refl, tt)
    clean_tasks-AllReleased g (t ∷ tasks) a =
        let (u, e, r) = clean_task-Released g t a.0 in
        let (us, es, rs) = clean_tasks-AllReleased g tasks a.1 in
        (u ∷ us, λ i. collect (e i) (es i), (r, rs))
