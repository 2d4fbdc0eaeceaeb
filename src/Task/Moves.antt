-- ===== src/Task/Moves.antt =====
-- The states of a task over time, whatever its owner, its thread and GLib do.
use abrt.Base.{
  zero, suc, ◌≡◌, ◌≢◌, refl, sym, ap, ◌∙◌, ◌⊎◌, inl, inr, Bool, true, false, Option, none, some,
  Str, arith, Bool-cases, if_both, is_some, subst,
}
use abrt.Base.Int.{ℤ, pos, negsuc}
use abrt.Task.{
  new_task, Status, new, running, stopped, canceled, failed, done, Task, TaskClass, call_virtual,
  is_cancelled, cancel, change_status, finish, may_start, run_in_thread, start, ended, set_response,
  finish_gtask,
}
use abrt.Task.Changes.{
  announced, SameBase, IsTame, SameBase-refl, call_virtual-SameBase, cancel-Cancels, Comes,
  change_status-Comes, finish-SameBase,
}

-- The moves that a task may make.
abbrev pub leads : Status → Status → Bool
leads new running = true
leads stopped running = true
leads stopped canceled = true
leads running stopped = true
leads running canceled = true
leads running failed = true
leads running done = true
leads _ _ = false

may_start-leads : (s : Status) → may_start s ≡ true → leads s running ≡ true
unfolding may_start
may_start-leads s h = ground arith

abbrev pub is_final : Status → Bool
is_final canceled = true
is_final failed = true
is_final done = true
is_final _ = false

stays : (a b d : Status) → is_final a ≡ true → b ≡ a → (d ≡ b) ⊎ (leads b d ≡ true) → d ≡ a
stays a b d f e m = ground arith

module _ {σ : Type 0} where
  -- GLib runs the callback of a GTask that `start` has made; its thread writes what `SameBase` spares.
  pub data Step (c : TaskClass σ) : Task σ → Task σ → Type 0 where
    starts : (t : Task σ) → Step c t (start c t).0
    cancels : (t : Task σ) → Step c t (cancel c t).0
    returns :
        (t : Task σ) (code : ℤ) (error : Option Str)
        → is_some t.cancellable ≡ true
        → Step c t (finish_gtask c t code error)
    finishes : (t : Task σ) → Step c t (finish c t).0
    works : (t u : Task σ) → SameBase t u → Step c t u

  pub data Reach (c : TaskClass σ) (t : Task σ) : Task σ → Type 0 where
    here : Reach c t t
    next : {u v : Task σ} → Reach c t u → Step c u v → Reach c t v

  -- The thread runs exactly while there is a cancellable, and clients know the status.
  pub record IsConsistent (t : Task σ) : Type 0 where
    pub has_thread : t.status ≡ running → is_some t.cancellable ≡ true
    pub has_status : is_some t.cancellable ≡ true → t.status ≡ running
    pub known : announced t.signals ≡ t.status

  pub record Moves (t u : Task σ) : Type 0 where
    pub consistent : IsConsistent u
    pub allowed : (u.status ≡ t.status) ⊎ (leads t.status u.status ≡ true)

  SameBase-Moves : (t u : Task σ) → IsConsistent t → SameBase t u → Moves t u
  SameBase-Moves t u v b = record {
    consistent = record {
      has_thread = λ e. ap is_some b.same_cancellable ∙ v.has_thread (sym b.same_status_field ∙ e);
      has_status =
          λ e. b.same_status_field ∙ v.has_status (sym (ap is_some b.same_cancellable) ∙ e);
      known = ap announced b.same_signals ∙ v.known ∙ sym b.same_status_field;
    };
    allowed = inl b.same_status_field;
  }

  cancel-Moves : (c : TaskClass σ) (t : Task σ) → IsTame c → IsConsistent t → Moves t (cancel c t).0
  cancel-Moves c t h v =
      let k = cancel-Cancels c t h v.known v.has_thread in
      record {
        consistent = record {
          has_thread = ground (arith, k, v);
          has_status = ground (arith, k, v);
          known = k.at_signal;
        };
        allowed = ground (arith, k, v);
      }

  -- A run is over.
  record Ends (u : Task σ) : Type 0 where
    over : leads running u.status ≡ true
    known : announced u.signals ≡ u.status
    no_thread : u.status ≢ running

  Comes-Ends :
      (t u : Task σ) (status : Status) → leads running status ≡ true → Comes t status u → Ends u
  Comes-Ends t u status l k = record {
    over = ground (arith, k);
    known = k.at_signal;
    no_thread = λ e. ground (arith, k);
  }

  changed-Ends :
      (c : TaskClass σ) (t : Task σ) (status : Status)
      → IsTame c
      → leads running status ≡ true
      → announced t.signals ≡ t.status
      → Ends (change_status c t status)
  changed-Ends c t status h l a =
      Comes-Ends t (change_status c t status) status l (change_status-Comes c t status h a)

  ended-Ends :
      (c : TaskClass σ) (t : Task σ) (code : ℤ) (error : Option Str)
      → IsTame c
      → announced t.signals ≡ t.status
      → Ends (ended c t code error)
  unfolding ended set_response
  ended-Ends c t (pos zero) error h a = changed-Ends c t stopped h refl a
  ended-Ends c t (pos (suc n)) error h a = changed-Ends c (record t { code = pos n }) done h refl a
  ended-Ends c t (negsuc n) error h a =
      let b = call_virtual-SameBase c.cancel t h.tame_cancel in
      if_both Ends (is_cancelled t)
        (changed-Ends c (call_virtual c.cancel t).0 canceled h refl
          (ap announced b.same_signals ∙ a ∙ sym b.same_status_field))
        (changed-Ends c _ failed h refl a)

  finish_gtask-Moves :
      (c : TaskClass σ) (t : Task σ) (code : ℤ) (error : Option Str)
      → IsTame c
      → IsConsistent t
      → t.status ≡ running
      → Moves t (finish_gtask c t code error)
  unfolding finish_gtask
  finish_gtask-Moves c t code error h v r =
      let e = ended-Ends c t code error h v.known in
      record {
        consistent = record {
          has_thread = λ q. absurd (e.no_thread q);
          has_status = λ q. cc;
          known = e.known;
        };
        allowed = inr (subst (λ st. leads st (ended c t code error).status ≡ true) (sym r) e.over);
      }

  start-Moves : (c : TaskClass σ) (t : Task σ) → IsTame c → IsConsistent t → Moves t (start c t).0
  unfolding start
  start-Moves c t h v = elim (Bool-cases (may_start t.status)) [
    | inl may ↦ rw may (
        run-Moves (call_virtual c.start t) (call_virtual-SameBase c.start t h.tame_start)
          (may_start-leads t.status may))
    | inr refused ↦ rw refused (SameBase-Moves t t v (SameBase-refl t))
  ]
    where
      run-Moves :
          (r : Task σ × Option Str)
          → SameBase t r.0
          → leads t.status running ≡ true
          → Moves t (run_in_thread c r).0
      run-Moves (u, some e) b l = unfold run_in_thread in SameBase-Moves t u v b
      run-Moves (u, none) b l =
          let k =
            change_status-Comes c (record u { cancellable = some false }) running h
              (ap announced b.same_signals ∙ v.known ∙ sym b.same_status_field) in
          let at : (change_status c (record u { cancellable = some false }) running).status
              ≡ running =
            ground (arith, k) in
          unfold run_in_thread in
          record {
            consistent = record {
              has_thread = λ _. ap is_some k.at_cancellable;
              has_status = λ _. at;
              known = k.at_signal;
            };
            allowed = inr (subst (λ st. leads t.status st ≡ true) (sym at) l);
          }

  pub Step-Moves :
      {c : TaskClass σ} {t u : Task σ} → IsTame c → Step c t u → IsConsistent t → Moves t u
  Step-Moves {c} h (starts t) v = start-Moves c t h v
  Step-Moves {c} h (cancels t) v = cancel-Moves c t h v
  Step-Moves {c} h (returns t code error q) v =
      finish_gtask-Moves c t code error h v (v.has_status q)
  Step-Moves {c} h (finishes t) v = SameBase-Moves t _ v (finish-SameBase c t h)
  Step-Moves h (works t u b) v = SameBase-Moves t u v b

  Reach-IsConsistent :
      {c : TaskClass σ} {t u : Task σ} → IsTame c → Reach c t u → IsConsistent t → IsConsistent u
  Reach-IsConsistent h here v = v
  Reach-IsConsistent h (next r st) v = (Step-Moves h st (Reach-IsConsistent h r v)).consistent

-- From its creation on, whatever is called in any order: a task moves only along `leads`, its thread
-- runs exactly while its status is RUNNING, and the signals tell its status.
pub Reach-Moves :
    {σ : Type 0} (c : TaskClass σ) (private : σ) (autonomous : Bool) {t u : Task σ}
    → IsTame c
    → Reach c (new_task private autonomous) t
    → Step c t u
    → Moves t u
unfolding new_task
Reach-Moves c private autonomous h r st =
    Step-Moves h st
      (Reach-IsConsistent h r (record { has_thread = λ e. cc; has_status = λ e. cc; known = refl }))

-- A task that is canceled, failed or done stays so for good.
Reach-final :
    {σ : Type 0} (c : TaskClass σ) {t u : Task σ}
    → IsTame c
    → IsConsistent t
    → is_final t.status ≡ true
    → Reach c t u
    → u.status ≡ t.status
Reach-final c h v f here = refl
Reach-final c {t} h v f (next {u = s} {v = u} r st) =
    let same = Reach-final c h v f r in
    let m = Step-Moves h st (Reach-IsConsistent h r v) in
    stays t.status s.status u.status f same m.allowed
