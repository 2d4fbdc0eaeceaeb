-- ===== src/Daemon/Exclusive.antt =====
-- One process at a time runs the post-create events.
use abrt.Base.{
  ℕ, ◌≡◌, ◌≢◌, refl, sym, ap, subst, ◌⊎◌, inl, inr, Bool, true, false, List, [], ◌∷◌, ◌++◌, Option,
  none, some, Str, arith, Bool-cases, All,
}
use abrt.Session.{find_task}
use abrt.Daemon.{
  Daemon, Waited, exited, traced, put, clean_location, append_if, consider_processing, path_ignored,
  ignored_name, queue_post_create_process, out_of_queue, new_problem_detected, add_server,
  handle_children,
}
use abrt.Daemon.Queue.{
  has_slash, first, IsQueue, IsExclusive, find_task-append_only, append-Distinct, first_member,
  notify_next-IsExclusive, add_server-IsExclusive, not_both, remove_server-IsExclusive,
}
use abrt.Daemon.Cleaning.{
  IsServing, ignored_name-itself, clean_location-IsServing, clean_location-same,
}

no_member {ℓ} : {A : Type ℓ} (p : ℕ) → find_task [] p ≡ true → A
no_member p h = absurd (not_both h (unfold find_task in refl))

appended-IsQueue :
    {processes : List ℕ} {dirname : ℕ → Option Str} (queue : List ℕ) (proc : ℕ)
    → find_task queue proc ≡ false
    → find_task processes proc ≡ true
    → dirname proc ≢ none
    → IsQueue processes dirname queue
    → IsQueue processes dirname (queue ++ proc ∷ [])
appended-IsQueue {processes} {dirname} queue proc out live named v = record {
  distinct = append-Distinct queue proc v.distinct out;
  listed = λ p h. elim (find_task-append_only queue proc p h) [
    | inl old ↦ v.listed p old
    | inr same ↦ subst (λ x. find_task processes x ≡ true) (sym same) live
  ];
  named = λ p h. elim (find_task-append_only queue proc p h) [
    | inl old ↦ v.named p old
    | inr same ↦ subst (λ x. dirname x ≢ none) (sym same) named
  ];
}

first-append :
    (queue : List ℕ) (proc n : ℕ) → first queue ≡ some n → first (queue ++ proc ∷ []) ≡ some n
first-append [] proc n h = ground arith
first-append (x ∷ queue) proc n h = h

-- Behind a process at work, the new one waits.
append_if-IsExclusive :
    (r : Bool × Daemon) (n : ℕ) (s : Str) (proc : ℕ)
    → IsServing r.1 n s proc
    → IsExclusive (append_if r proc)
unfolding append_if
append_if-IsExclusive (false, d) n s proc v = v.exclusive
append_if-IsExclusive (true, d) n s proc v = record {
  leads = λ p h. first-append d.dir_queue proc p (v.exclusive.leads p h);
  working = inr (at_work d.dir_queue v.head v.exclusive.working);
  slash_free = v.exclusive.slash_free;
  queue = appended-IsQueue d.dir_queue proc v.outside v.live v.named v.exclusive.queue;
}
  where
    at_work :
        (queue : List ℕ)
        → first queue ≡ some n
        → (queue ≡ []) ⊎ ((p : ℕ) × (d.post_create p ≡ true))
        → (p : ℕ) × (d.post_create p ≡ true)
    at_work queue h (inr w) = w
    at_work [] h (inl e) = ground arith
    at_work (x ∷ queue) h (inl e) = ground arith

-- The search never finds the directory that it is told to ignore.
abbrev pub IsIgnoring : (Str → List Str) → Type 0
IsIgnoring largest = (s : Str) → All (λ worst. worst ≢ s) (largest s)

-- A process that is about to be queued.
record IsReady (d : Daemon) (proc : ℕ) (dir : Str) : Type 0 where
  exclusive : IsExclusive d
  directory : d.dirname proc ≡ some dir
  outside : find_task d.dir_queue proc ≡ false
  live : find_task d.processes proc ≡ true

named_of : {o : Option Str} {s : Str} → o ≡ some s → o ≢ none
named_of e z = ground arith

queued-IsExclusive :
    (largest : Str → List Str) (told : ℕ → Bool) (d : Daemon) (proc : ℕ) (dir : Str)
    → IsIgnoring largest
    → IsReady d proc dir
    → IsExclusive (queue_post_create_process largest told d proc)
unfolding queue_post_create_process
queued-IsExclusive largest told d proc dir ignoring v = by_queue d.dir_queue refl
  where
    dirs : List ℕ → List Str
    dirs q = largest (ignored_name (path_ignored q d proc))

    alone : d.dir_queue ≡ [] → (p : ℕ) → d.post_create p ≡ false
    alone e p = elim (Bool-cases (d.post_create p)) [
      | inr free ↦ free
      | inl at_work ↦ ground (arith, v.exclusive.leads p at_work, e)
    ]

    running :
        (n : ℕ) (q : List ℕ) (o : Option Str)
        → d.dir_queue ≡ n ∷ q
        → d.dirname n ≡ o
        → IsExclusive (append_if (clean_location (largest (ignored_name o)) proc true d) proc)
    running n q none e name =
        absurd (v.exclusive.queue.named n (first_member d.dir_queue n (ap first e)) name)
    running n q (some s) e name = append_if-IsExclusive _ n s proc (
        clean_location-IsServing _ d n s proc true
          (subst (λ x. All (λ worst. worst ≢ s) (largest x))
            (sym (ignored_name-itself s (v.exclusive.slash_free n s name))) (ignoring s))
          (record {
            exclusive = v.exclusive;
            head = ap first e;
            directory = name;
            outside = v.outside;
            live = v.live;
            named = named_of v.directory;
          }))

    by_queue :
        (q : List ℕ)
        → d.dir_queue ≡ q
        → IsExclusive
            (consider_processing q told (append_if (clean_location (dirs q) proc true d) proc))
    by_queue [] e =
        unfold consider_processing in
        unfold path_ignored in
        rw v.directory (
          rw
            (clean_location-same (largest (ignored_name (some dir))) proc dir d e v.directory (
              subst (λ x. All (λ worst. worst ≢ dir) (largest x))
                (sym (ignored_name-itself dir (v.exclusive.slash_free proc dir v.directory)))
                (ignoring dir)))
            (unfold append_if in
              notify_next-IsExclusive told (d.dir_queue ++ proc ∷ [])
                (record d { dir_queue = d.dir_queue ++ proc ∷ [] }) (alone e)
                (appended-IsQueue d.dir_queue proc v.outside v.live (named_of v.directory)
                  v.exclusive.queue)
                v.exclusive.slash_free))
    by_queue (n ∷ q) e =
        unfold consider_processing in unfold path_ignored in running n q (d.dirname n) e refl

detected-IsExclusive :
    (largest : Str → List Str) (told : ℕ → Bool) (d : Daemon) (proc : ℕ) (dir : Str)
    → IsIgnoring largest
    → has_slash dir ≡ false
    → d.dirname proc ≡ none
    → IsExclusive d
    → IsExclusive (new_problem_detected largest told d proc dir)
unfolding new_problem_detected out_of_queue
detected-IsExclusive largest told d proc dir ignoring slash new v =
    elim (Bool-cases (find_task d.processes proc)) [
      | inr gone ↦ rw gone v
      | inl live ↦ rw (live, new) (queued-IsExclusive largest told _ proc dir ignoring (ready live))
    ]
  where
    waiting : (p : ℕ) → find_task d.dir_queue p ≡ true → p ≢ proc
    waiting p h same = v.queue.named p h (subst (λ x. d.dirname x ≡ none) (sym same) new)

    ready :
        find_task d.processes proc ≡ true
        → IsReady (record d { dirname = put d.dirname proc (some dir) }) proc dir
    ready live = record {
      exclusive = record {
        leads = v.leads;
        working = v.working;
        slash_free = λ p s h. ground (arith, slash, v.slash_free p s);
        queue = record {
          distinct = v.queue.distinct;
          listed = v.queue.listed;
          named = λ p h. (let name = v.queue.named p h in ground (arith, name));
        };
      };
      directory = ground arith;
      outside = elim (Bool-cases (find_task d.dir_queue proc)) [
        | inr out ↦ out
        | inl there ↦ absurd (waiting proc there refl)
      ];
      live = live;
    }

children-IsExclusive :
    (told : ℕ → Bool) (children : List Waited) (d : Daemon)
    → IsExclusive d
    → IsExclusive (handle_children told children d)
unfolding handle_children
children-IsExclusive told [] d v = v
children-IsExclusive told (exited cpid ∷ children) d v =
    children-IsExclusive told children _ (remove_server-IsExclusive told d cpid v)
children-IsExclusive told (traced cpid ∷ children) d v = children-IsExclusive told children d v

-- What the daemon goes through: a client is accepted while the socket is watched, and the kernel gives
-- its process no pid of a live one; a process announces one directory by its name without a slash; the
-- search for the largest directory ignores the name that it is given; children end.
pub data Reach : Daemon → Type 0 where
  nobody : Reach (record {
    processes = [];
    dir_queue = [];
    post_create = λ _. false;
    dirname = λ _. none;
    stopped = [];
    accepting = true;
  })
  connects :
      {d : Daemon} (pid : ℕ)
      → Reach d
      → d.accepting ≡ true
      → find_task d.processes pid ≡ false
      → Reach (add_server d pid)
  detects :
      {d : Daemon} (largest : Str → List Str) (told : ℕ → Bool) (proc : ℕ) (dir : Str)
      → Reach d
      → IsIgnoring largest
      → has_slash dir ≡ false
      → d.dirname proc ≡ none
      → Reach (new_problem_detected largest told d proc dir)
  child_signal :
      {d : Daemon} (told : ℕ → Bool) (children : List Waited)
      → Reach d
      → Reach (handle_children told children d)

-- At any time a process that runs the post-create events is the first of the queue, so one at most
-- does; while processes wait in the queue, there is one that runs them; the queue holds live processes
-- that have named a directory, each once.
pub Reach-IsExclusive : {d : Daemon} → Reach d → IsExclusive d
Reach-IsExclusive nobody = record {
  leads = λ p h. ground (arith, h);
  working = inl refl;
  slash_free = λ p s h. ground (arith, h);
  queue = record { distinct = tt; listed = λ p h. no_member p h; named = λ p h. no_member p h };
}
Reach-IsExclusive (connects {d} pid r watched fresh) =
    add_server-IsExclusive d pid fresh (Reach-IsExclusive r)
Reach-IsExclusive (detects {d} largest told proc dir r ignoring slash new) =
    detected-IsExclusive largest told d proc dir ignoring slash new (Reach-IsExclusive r)
Reach-IsExclusive (child_signal {d} told children r) =
    children-IsExclusive told children d (Reach-IsExclusive r)
