-- ===== src/Server/Fate.antt =====
-- What becomes of a new problem directory, of the others, and of the daemon's part in it.
use abrt.Base.{
  ℕ, ◌≡◌, ◌≢◌, refl, ◌∙◌, ◌⊎◌, inl, inr, Bool, true, false, not, ◌&&◌, [], Option, none, some, ◌==◌,
  if◌then◌else◌, Str, ◌+◌, ◌%◌, ◌^◌, ◌||◌, Bool-cases, str_eq, str_eq_iff, str_eq_refl, arith,
  if_both,
}
use abrt.Server.PostCreate.{
  ProblemDir, Store, store_put, Signal, sigusr1, sigint, Outside, Run, is_failed_write, dup_of_dir,
  is_bad_end, is_nonzero, end_of, open_dir, time_of, or_now, count_up, update_count,
  delete_dump_dir, with_work_dir, work_dir_of, after_event, after_signal, run_post_create,
  response_code,
}

abbrev pub code_of : Run → ℕ
code_of run = response_code run.returned run.code

-- How `work_dir` is counted for the new directory `dirname`: once more if that is a duplicate or if there
-- is no count yet, and then another directory gets the time of the new one, or else the current time, as
-- its last occurrence.
pub data Counting (outside : Outside) (store : Store) (dirname work_dir : Str) (is_dup : Bool)
    (dd after : ProblemDir) : Type 0 where
  counted_up :
      (is_dup ≡ true) ⊎ (dd.count ≡ 0)
      → after.count ≡ (dd.count + 1) % 2 ^ 64
      → after.time ≡ dd.time
      → (work_dir ≢ dirname
          → after.last_occurrence
            ≡ some (or_now outside.now (time_of (open_dir outside store dirname))))
      → Counting outside store dirname work_dir is_dup dd after
  as_it_was :
      is_dup ≡ false
      → dd.count ≢ 0
      → after ≡ dd
      → Counting outside store dirname work_dir is_dup dd after

abbrev pub Deleted : Outside → Store → Str → Run → Type 0
Deleted outside store dirname run =
    ((outside.deletes dirname ≡ true) × (run.store dirname ≡ none))
    ⊎ (outside.deletes dirname ≡ false)

-- What the answer says of the directory: it is left alone before any work, discarded, taken, or merged
-- into the one that it is a duplicate of. A deletion may fail.
pub data Fate (outside : Outside) (store : Store) (dirname : Str) (run : Run) : Type 0 where
  left_alone :
      code_of run ≢ 200
      → code_of run ≢ 303
      → run.store ≡ store
      → run.events ≡ []
      → Fate outside store dirname run
  discarded :
      (code_of run ≡ 400) ⊎ (code_of run ≡ 403)
      → Deleted outside store dirname run
      → Fate outside store dirname run
  taken :
      (dd after : ProblemDir)
      → code_of run ≡ 200
      → store dirname ≡ some dd
      → run.store dirname ≡ some after
      → Counting outside store dirname dirname false dd after
      → Fate outside store dirname run
  merged :
      (first : Str) (dd after : ProblemDir)
      → code_of run ≡ 303
      → run.message ≡ some first
      → Deleted outside store dirname run
      → store first ≡ some dd
      → (first ≢ dirname → run.store first ≡ some after)
      → Counting outside store dirname first (is_nonzero (end_of outside.waited)) dd after
      → Fate outside store dirname run

update_count-Counting :
    (outside : Outside) (store : Store) (dirname work_dir : Str) (is_dup : Bool) (dd : ProblemDir)
    → Counting outside store dirname work_dir is_dup dd
        (update_count outside store dirname work_dir is_dup dd)
unfolding update_count
update_count-Counting outside store dirname work_dir is_dup dd =
    elim (Bool-cases (is_dup || (dd.count == 0))) [
      | inl up ↦ rw up (elim (Bool-cases (str_eq work_dir dirname)) [
        | inl here ↦
            unfold count_up in
            rw here (
              counted_up (either up) refl refl
                (λ other. absurd (other ((str_eq_iff work_dir dirname).0 here))))
        | inr there ↦ unfold count_up in rw there (counted_up (either up) refl refl (λ other. refl))
      ])
      | inr down ↦ rw down (as_it_was (ground (arith, down)) (ground (arith, down)) refl)
    ]
  where
    either : (is_dup || (dd.count == 0)) ≡ true → (is_dup ≡ true) ⊎ (dd.count ≡ 0)
    either h = ground (arith, h)

put_here :
    (store : Store) (path : Str) (value : Option ProblemDir)
    → store_put store path value path ≡ value
put_here store path value = rw (str_eq_refl path) refl

put_there :
    (store : Store) (path other : Str) (value : Option ProblemDir)
    → other ≢ path
    → store_put store path value other ≡ store other
put_there store path other value h = ground (arith, str_eq_iff path other, h)

opened_exists :
    (outside : Outside) (store : Store) (path : Str) (dd : ProblemDir)
    → open_dir outside store path ≡ some dd
    → store path ≡ some dd
unfolding open_dir
opened_exists outside store path dd e = ground (arith, e)

module _ (outside : Outside) (store : Store) (dirname : Str) where
  delete-Deleted :
      (before : Store)
      → ((outside.deletes dirname ≡ true) × (delete_dump_dir outside dirname before dirname ≡ none))
        ⊎ (outside.deletes dirname ≡ false)
  delete-Deleted before = elim (Bool-cases (outside.deletes dirname)) [
    | inl d ↦ inl (d, rw d (put_here before dirname none))
    | inr d ↦ inr d
  ]

  delete_other :
      (before : Store) (other : Str)
      → other ≢ dirname
      → delete_dump_dir outside dirname before other ≡ before other
  delete_other before other h = elim (Bool-cases (outside.deletes dirname)) [
    | inl d ↦ rw d (put_there before dirname other none h)
    | inr d ↦ rw d refl
  ]

  work_dir-Fate :
      (dup : Option Str) (dd : Option ProblemDir)
      → open_dir outside store (work_dir_of dirname dup) ≡ dd
      → Fate outside store dirname
          (with_work_dir outside store dirname (is_nonzero (end_of outside.waited)) dup dd)
  unfolding with_work_dir
  work_dir-Fate dup none e = discarded (inr refl) (delete-Deleted store)
  work_dir-Fate none (some dd) e =
      taken dd (update_count outside store dirname dirname false dd) refl
        (opened_exists outside store dirname dd e) (put_here store dirname _)
        (update_count-Counting outside store dirname dirname false dd)
  work_dir-Fate (some first) (some dd) e =
      let is_dup = is_nonzero (end_of outside.waited) in
      let after = update_count outside store dirname first is_dup dd in
      let counted = store_put store first (some after) in
      merged first dd after refl refl (delete-Deleted counted)
        (opened_exists outside store first dd e)
        (λ h. delete_other counted first h ∙ put_here store first (some after))
        (update_count-Counting outside store dirname first is_dup dd)

  event-Fate :
      (dup : Option Str)
      → Fate outside store dirname (after_event outside store dirname (end_of outside.waited) dup)
  unfolding after_event
  event-Fate dup =
      if_both (Fate outside store dirname) (is_bad_end (end_of outside.waited) dup)
        (discarded (inr refl) (delete-Deleted store))
        (work_dir-Fate dup (open_dir outside store (work_dir_of dirname dup)) refl)

  signal-Fate :
      (signal : Signal) → Fate outside store dirname (after_signal outside store dirname signal)
  unfolding after_signal
  signal-Fate sigint = left_alone (ground arith) (ground arith) refl refl
  signal-Fate sigusr1 = event-Fate (dup_of_dir none [] outside.output)

  provoked-Fate :
      (b : Bool)
      → Fate outside store dirname (record {
        returned = 400;
        code = 0;
        message = none;
        store = if b then delete_dump_dir outside dirname store else store;
        events = [];
      })
  provoked-Fate true = discarded (inl refl) (delete-Deleted store)
  provoked-Fate false = left_alone (ground arith) (ground arith) refl refl

  -- The answer to a notification of a new problem directory tells its fate. With 200 it stays, and with
  -- 303 it is deleted, if it can be, in favour of the directory that the message names; the one that
  -- stays is counted once more if it has no count yet or if the event called the new one a duplicate by
  -- its end, and the other directory then gets the time of the new one as its last occurrence. With any
  -- other answer it is deleted, if it can be, or nothing was done at all.
  pub run_post_create-Fate : Fate outside store dirname (run_post_create outside store dirname)
  unfolding run_post_create
  run_post_create-Fate =
      if_both (Fate outside store dirname) (not outside.in_location)
        (left_alone (ground arith) (ground arith) refl refl)
        (if_both (Fate outside store dirname) (not outside.permissions)
          (left_alone (ground arith) (ground arith) refl refl)
          (if_both (Fate outside store dirname) (outside.opened && outside.provoked)
            (provoked-Fate (outside.debug_level == 0))
            (if_both (Fate outside store dirname) (outside.opened && outside.complete)
              (left_alone (ground arith) (ground arith) refl refl)
              (if_both (Fate outside store dirname) (is_failed_write outside.wrote)
                (left_alone (ground arith) (ground arith) refl refl)
                (signal-Fate outside.signal)))))
