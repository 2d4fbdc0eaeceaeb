-- ===== src/Task/Changes.antt =====
-- What the functions that change a task's status do to the fields of the base class.
use abrt.Base.{
  ◌≡◌, refl, sym, ap, ◌∙◌, ◌⊎◌, inl, inr, Bool, true, false, List, [], ◌∷◌, Option, none, some,
  if◌then◌else◌, Str, arith, Bool-cases, if_both, is_some,
}
use abrt.Task.{
  Status, new, running, stopped, canceled, failed, same_status, Task, TaskClass, call_virtual,
  is_cancelled, unref_on, change_status_plain, cancel_in, cancel_stopped, cancel, on_stopped,
  unref_on_error, change_status, give_result, finish,
}

-- The status that a client knows from the signals, the last one first.
abbrev pub announced : List Status → Status
announced [] = new
announced (s ∷ ss) = s

same_status_eq : (a b : Status) → same_status a b ≡ true → a ≡ b
unfolding same_status
same_status_eq a b h = ground arith

module _ {σ : Type 0} where
  -- What only the base class writes.
  pub record SameBase (t u : Task σ) : Type 0 where
    pub same_status_field : u.status ≡ t.status
    pub same_cancellable : u.cancellable ≡ t.cancellable
    pub same_autonomous : u.autonomous ≡ t.autonomous
    pub same_signals : u.signals ≡ t.signals
    pub same_unrefs : u.unrefs ≡ t.unrefs

  abbrev pub Tame : Option (Task σ → Task σ × Option Str) → Type 0
  Tame none = Unit
  Tame (some f) = (t : Task σ) → SameBase t (f t).0

  -- The virtual functions keep to the private data, the details and the response.
  pub record IsTame (c : TaskClass σ) : Type 0 where
    pub tame_start : Tame c.start
    pub tame_cancel : Tame c.cancel
    pub tame_finish : Tame c.finish

  pub SameBase-refl : (t : Task σ) → SameBase t t
  SameBase-refl t = record {
    same_status_field = refl;
    same_cancellable = refl;
    same_autonomous = refl;
    same_signals = refl;
    same_unrefs = refl;
  }

  pub call_virtual-SameBase :
      (f : Option (Task σ → Task σ × Option Str)) (t : Task σ)
      → Tame f
      → SameBase t (call_virtual f t).0
  call_virtual-SameBase none t h = SameBase-refl t
  call_virtual-SameBase (some f) t h = h t

  -- From `t` the task has come to `status`, and said so.
  pub record Entered (t : Task σ) (status : Status) (u : Task σ) : Type 0 where
    pub at_status : u.status ≡ status
    pub at_cancellable : u.cancellable ≡ t.cancellable
    pub at_signal : announced u.signals ≡ status

  give_result-same : (r : Task σ × Option Str) → (give_result r).0 ≡ r.0
  unfolding give_result
  give_result-same (t, none) = refl
  give_result-same (t, some e) = refl

  pub finish-SameBase : (c : TaskClass σ) (t : Task σ) → IsTame c → SameBase t (finish c t).0
  unfolding finish
  finish-SameBase c t h = ground (
    arith,
    call_virtual-SameBase c.finish t h.tame_finish,
    give_result-same (call_virtual c.finish t),
  )

  pub unref_on-Entered :
      (c : TaskClass σ) (t : Task σ) (status : Status)
      → IsTame c
      → t.status ≡ status
      → announced t.signals ≡ status
      → Entered t status (unref_on c status t)
  unfolding unref_on
  unref_on-Entered c t failed h s a =
      let same = finish-SameBase c t h in
      record {
        at_status = same.same_status_field ∙ s;
        at_cancellable = same.same_cancellable;
        at_signal = ap announced same.same_signals ∙ a;
      }
  unref_on-Entered c t _ h s a = record { at_status = s; at_cancellable = refl; at_signal = a }

  change_status_plain-Entered :
      (c : TaskClass σ) (t : Task σ) (status : Status)
      → IsTame c
      → announced t.signals ≡ t.status
      → Entered t status (change_status_plain c t status)
  unfolding change_status_plain
  change_status_plain-Entered c t status h a = elim (Bool-cases (same_status t.status status)) [
    | inl same ↦ rw same (
        let e = same_status_eq t.status status same in
        record { at_status = e; at_cancellable = refl; at_signal = a ∙ e })
    | inr other ↦ rw other (step t.autonomous)
  ]
    where
      changed : Task σ
      changed = record t { status = status; signals = status ∷ t.signals }

      step : (b : Bool) → Entered t status (if b then unref_on c status changed else changed)
      step true =
          let e = unref_on-Entered c changed status h refl refl in
          record {
            at_status = e.at_status;
            at_cancellable = e.at_cancellable;
            at_signal = e.at_signal;
          }
      step false = record { at_status = refl; at_cancellable = refl; at_signal = refl }

  -- What `cancel` may do: ask a running thread to stop, or cancel a stopped task.
  pub record Cancels (t u : Task σ) : Type 0 where
    pub at_status : (u.status ≡ t.status) ⊎ ((t.status ≡ stopped) × (u.status ≡ canceled))
    pub at_cancellable : (u.cancellable ≡ t.cancellable) ⊎ (t.status ≡ running)
    pub at_some : t.status ≡ running → is_some u.cancellable ≡ true
    pub at_signal : announced u.signals ≡ u.status

  pub Cancels-SameBase :
      (t u : Task σ)
      → announced t.signals ≡ t.status
      → (t.status ≡ running → is_some t.cancellable ≡ true)
      → SameBase t u
      → Cancels t u
  Cancels-SameBase t u a r b = record {
    at_status = inl b.same_status_field;
    at_cancellable = inl b.same_cancellable;
    at_some = λ e. ap is_some b.same_cancellable ∙ r e;
    at_signal = ap announced b.same_signals ∙ a ∙ sym b.same_status_field;
  }

  cancel_in-Cancels :
      (c : TaskClass σ) (t : Task σ) (st : Status)
      → IsTame c
      → t.status ≡ st
      → announced t.signals ≡ t.status
      → (t.status ≡ running → is_some t.cancellable ≡ true)
      → Cancels t (cancel_in c st t).0
  unfolding cancel_in
  cancel_in-Cancels c t running h s a r = record {
    at_status = inl refl;
    at_cancellable = inr s;
    at_some = λ _. refl;
    at_signal = a;
  }
  cancel_in-Cancels c t stopped h s a r =
      step (call_virtual c.cancel t) (call_virtual-SameBase c.cancel t h.tame_cancel)
    where
      step : (v : Task σ × Option Str) → SameBase t v.0 → Cancels t (cancel_stopped c v).0
      step (u, some e) b = unfold cancel_stopped in Cancels-SameBase t u a r b
      step (u, none) b =
          let e =
            change_status_plain-Entered c u canceled h
              (ap announced b.same_signals ∙ a ∙ sym b.same_status_field) in
          unfold cancel_stopped in
          record {
            at_status = inr (s, e.at_status);
            at_cancellable = inl (e.at_cancellable ∙ b.same_cancellable);
            at_some = λ q. cc (q, s);
            at_signal = e.at_signal ∙ sym e.at_status;
          }
  cancel_in-Cancels c t _ h s a r = Cancels-SameBase t t a r (SameBase-refl t)

  pub cancel-Cancels :
      (c : TaskClass σ) (t : Task σ)
      → IsTame c
      → announced t.signals ≡ t.status
      → (t.status ≡ running → is_some t.cancellable ≡ true)
      → Cancels t (cancel c t).0
  unfolding cancel
  cancel-Cancels c t h a r = elim (Bool-cases (is_cancelled t)) [
    | inl over ↦ rw over (Cancels-SameBase t t a r (SameBase-refl t))
    | inr going ↦ rw going (cancel_in-Cancels c t t.status h refl a r)
  ]

  -- The end of a change to `status`; an autonomous task that is stopped is canceled at once.
  pub record Comes (t : Task σ) (status : Status) (u : Task σ) : Type 0 where
    pub at_status : (u.status ≡ status) ⊎ ((status ≡ stopped) × (u.status ≡ canceled))
    pub at_cancellable : u.cancellable ≡ t.cancellable
    pub at_signal : announced u.signals ≡ u.status

  unref_on_error-Comes :
      (t : Task σ) (v : Task σ × Option Str)
      → t.status ≡ stopped
      → Cancels t v.0
      → Comes t stopped (unref_on_error v)
  unfolding unref_on_error
  unref_on_error-Comes t (u, none) s k = ground (arith, k)
  unref_on_error-Comes t (u, some e) s k = ground (arith, k)

  on_stopped-Comes :
      (c : TaskClass σ) (t : Task σ)
      → IsTame c
      → t.status ≡ stopped
      → announced t.signals ≡ stopped
      → Comes t stopped (on_stopped c t)
  unfolding on_stopped
  on_stopped-Comes c t h s a =
      if_both (Comes t stopped) t.autonomous
        (unref_on_error-Comes t (cancel c t) s (cancel-Cancels c t h (a ∙ sym s) (λ r. cc (r, s))))
        (record { at_status = inl s; at_cancellable = refl; at_signal = a ∙ sym s })

  pub change_status-Comes :
      (c : TaskClass σ) (t : Task σ) (status : Status)
      → IsTame c
      → announced t.signals ≡ t.status
      → Comes t status (change_status c t status)
  unfolding change_status
  change_status-Comes c t stopped h a = elim (Bool-cases (same_status t.status stopped)) [
    | inl same ↦ rw same (record {
      at_status = inl (same_status_eq t.status stopped same);
      at_cancellable = refl;
      at_signal = a;
    })
    | inr other ↦ rw other (
        let o =
          on_stopped-Comes c (record t { status = stopped; signals = stopped ∷ t.signals }) h refl
            refl in
        record {
          at_status = o.at_status;
          at_cancellable = o.at_cancellable;
          at_signal = o.at_signal;
        })
  ]
  change_status-Comes c t status h a =
      let e = change_status_plain-Entered c t status h a in
      record {
        at_status = inl e.at_status;
        at_cancellable = e.at_cancellable;
        at_signal = e.at_signal ∙ sym e.at_status;
      }
