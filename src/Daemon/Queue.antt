-- ===== src/Daemon/Queue.antt =====
-- The queue of the daemon: what its lists do, and how a process is told, is added and leaves.
use abrt.Base.{
  ℕ, ◌≡◌, ◌≢◌, refl, ap, ◌∙◌, subst, ◌⊎◌, inl, inr, Bool, true, false, not, List, [], ◌∷◌, ◌++◌,
  Option, none, some, ◌==◌, if◌then◌else◌, Str, arith, if_both,
}
use abrt.Session.{find_task, list_remove}
use abrt.Session.Owner.{Distinct, list_remove-Distinct}
use abrt.Daemon.{Daemon, put, notify_next, add_server, freed_server, watch_socket, remove_server}

abbrev pub has_slash : Str → Bool
has_slash [] = false
has_slash (c ∷ s) = if c == b'/' then true else has_slash s

abbrev pub first : List ℕ → Option ℕ
first [] = none
first (n ∷ queue) = some n

-- The queue holds live processes with a directory, each once.
pub record IsQueue (processes : List ℕ) (dirname : ℕ → Option Str) (queue : List ℕ) : Type 0 where
  pub distinct : Distinct queue
  pub listed : (p : ℕ) → find_task queue p ≡ true → find_task processes p ≡ true
  pub named : (p : ℕ) → find_task queue p ≡ true → dirname p ≢ none

-- A process at work is the first of the queue, so it is the only one.
pub record IsExclusive (d : Daemon) : Type 0 where
  pub leads : (p : ℕ) → d.post_create p ≡ true → first d.dir_queue ≡ some p
  pub working : (d.dir_queue ≡ []) ⊎ ((p : ℕ) × (d.post_create p ≡ true))
  pub slash_free : (p : ℕ) (s : Str) → d.dirname p ≡ some s → has_slash s ≡ false
  pub queue : IsQueue d.processes d.dirname d.dir_queue

pub first-list_remove :
    (queue : List ℕ) (p x : ℕ) → x ≢ p → first queue ≡ some x → first (list_remove queue p) ≡ some x
unfolding list_remove
first-list_remove [] p x h e = e
first-list_remove (n ∷ queue) p x h e = ground arith

pub first_member : (queue : List ℕ) (x : ℕ) → first queue ≡ some x → find_task queue x ≡ true
unfolding find_task
first_member [] x e = ground arith
first_member (n ∷ queue) x e = ground arith

pub member_removed :
    (queue : List ℕ) (m p : ℕ) → find_task (list_remove queue m) p ≡ true → find_task queue p ≡ true
unfolding find_task list_remove
member_removed [] m p h = h
member_removed (n ∷ queue) m p h = ground (arith, member_removed queue m p)

pub removed-IsQueue :
    {processes : List ℕ} {dirname : ℕ → Option Str} (queue : List ℕ) (m : ℕ)
    → IsQueue processes dirname queue
    → IsQueue processes dirname (list_remove queue m)
removed-IsQueue queue m v = record {
  distinct = list_remove-Distinct queue m v.distinct;
  listed = λ p h. v.listed p (member_removed queue m p h);
  named = λ p h. v.named p (member_removed queue m p h);
}

pub find_task-list_remove :
    (queue : List ℕ) (p x : ℕ) → x ≢ p → find_task (list_remove queue p) x ≡ find_task queue x
unfolding find_task list_remove
find_task-list_remove [] p x h = refl
find_task-list_remove (n ∷ queue) p x h = ground (arith, find_task-list_remove queue p x h)

pub find_task-append :
    (queue : List ℕ) (p x : ℕ)
    → (find_task queue x ≡ true) ⊎ (x ≡ p)
    → find_task (queue ++ p ∷ []) x ≡ true
unfolding find_task
find_task-append [] p x h = ground arith
find_task-append (n ∷ queue) p x h = ground (arith, find_task-append queue p x)

pub removed_gone :
    (queue : List ℕ) (p : ℕ) → Distinct queue → find_task (list_remove queue p) p ≡ false
unfolding find_task list_remove
removed_gone [] p d = refl
removed_gone (n ∷ queue) p d = ground (arith, d.0, removed_gone queue p d.1)

pub find_task-append_only :
    (queue : List ℕ) (p x : ℕ)
    → find_task (queue ++ p ∷ []) x ≡ true
    → (find_task queue x ≡ true) ⊎ (x ≡ p)
unfolding find_task
find_task-append_only [] p x h = ground arith
find_task-append_only (n ∷ queue) p x h = ground (arith, find_task-append_only queue p x)

pub append-Distinct :
    (queue : List ℕ) (p : ℕ)
    → Distinct queue
    → find_task queue p ≡ false
    → Distinct (queue ++ p ∷ [])
unfolding find_task
append-Distinct [] p d f = (refl, tt)
append-Distinct (n ∷ queue) p d f = (
  ground (arith, d.0, find_task-append_only queue p n),
  append-Distinct queue p d.1 (ground arith),
)

-- With nobody at work, one process at most is told.
pub notify_next-IsExclusive :
    (told : ℕ → Bool) (queue : List ℕ) (d : Daemon)
    → ((p : ℕ) → d.post_create p ≡ false)
    → IsQueue d.processes d.dirname queue
    → ((p : ℕ) (s : Str) → d.dirname p ≡ some s → has_slash s ≡ false)
    → IsExclusive (notify_next told queue d)
unfolding notify_next find_task
notify_next-IsExclusive told [] d idle v f = record {
  leads = λ p h. ground (arith, idle p);
  working = inl refl;
  slash_free = f;
  queue = v;
}
notify_next-IsExclusive told (n ∷ queue) d idle v f = rw (idle n) (
    if_both IsExclusive (told n)
      (record {
        leads = λ p h. ground (arith, idle p);
        working = inr (n, ground arith);
        slash_free = f;
        queue = v;
      })
      (notify_next-IsExclusive told queue d idle
        (record {
          distinct = v.distinct.1;
          listed = λ p h. v.listed p (ground arith);
          named = λ p h. v.named p (ground arith);
        })
        f))

pub add_server-IsExclusive :
    (d : Daemon) (pid : ℕ)
    → find_task d.processes pid ≡ false
    → IsExclusive d
    → IsExclusive (add_server d pid)
unfolding add_server
add_server-IsExclusive d pid fresh v = record {
  leads = λ p h. v.leads p (ground arith);
  working = elim v.working [
    | inl e ↦ inl e
    | inr (p, h) ↦
        (let live = v.queue.listed p (first_member d.dir_queue p (v.leads p h)) in
          inr (p, ground (arith, live, fresh, h)))
  ];
  slash_free = λ p s h. v.slash_free p s (ground arith);
  queue = record {
    distinct = v.queue.distinct;
    listed = λ p h. find_task-append d.processes pid p (inl (v.queue.listed p h));
    named = λ p h.
        (let live = v.queue.listed p h in
          let name = v.queue.named p h in ground (arith, live, fresh, name));
  };
}

pub not_both : {b : Bool} → b ≡ true → b ≡ false → ⊥
not_both h k = ground (arith, h, k)

pub freed_server-IsQueue :
    (d : Daemon) (pid : ℕ)
    → IsQueue d.processes d.dirname d.dir_queue
    → IsQueue (list_remove d.processes pid) (put d.dirname pid none) (list_remove d.dir_queue pid)
freed_server-IsQueue d pid v = record {
  distinct = list_remove-Distinct d.dir_queue pid v.distinct;
  listed = λ p h.
      (let n = other p h in
        find_task-list_remove d.processes pid p n
        ∙ v.listed p (member_removed d.dir_queue pid p h));
  named = λ p h.
      (let n = other p h in
        let name = v.named p (member_removed d.dir_queue pid p h) in ground (arith, n, name));
}
  where
    other : (p : ℕ) → find_task (list_remove d.dir_queue pid) p ≡ true → p ≢ pid
    other p h e =
        not_both (subst (λ x. find_task (list_remove d.dir_queue pid) x ≡ true) e h)
          (removed_gone d.dir_queue pid v.distinct)

watched-IsExclusive : (d : Daemon) → IsExclusive d → IsExclusive (watch_socket d)
watched-IsExclusive d v = record {
  leads = v.leads;
  working = v.working;
  slash_free = v.slash_free;
  queue = v.queue;
}

pub remove_server-IsExclusive :
    (told : ℕ → Bool) (d : Daemon) (pid : ℕ)
    → IsExclusive d
    → IsExclusive (remove_server told d pid)
unfolding remove_server
remove_server-IsExclusive told d pid v =
    if_both IsExclusive (not (find_task d.processes pid)) v
      (watched-IsExclusive _ (by_type (d.post_create pid) refl))
  where
    idle : (p : ℕ) → d.post_create pid ≡ true → put d.post_create pid false p ≡ false
    idle p working = ground (arith, v.leads p, v.leads pid)

    free : (p : ℕ) (s : Str) → put d.dirname pid none p ≡ some s → has_slash s ≡ false
    free p s h = v.slash_free p s (ground arith)

    still :
        d.post_create pid ≡ false
        → (d.dir_queue ≡ []) ⊎ ((p : ℕ) × (d.post_create p ≡ true))
        → (list_remove d.dir_queue pid ≡ []) ⊎ ((p : ℕ) × (put d.post_create pid false p ≡ true))
    still waiting (inl e) = inl (ap (λ q. list_remove q pid) e ∙ (unfold list_remove in refl))
    still waiting (inr (p, h)) = inr (p, ground (arith, h, waiting))

    by_type :
        (b : Bool)
        → d.post_create pid ≡ b
        → IsExclusive (
            if b
            then notify_next told (list_remove d.dir_queue pid) (freed_server d pid)
            else freed_server d pid)
    by_type true working =
        notify_next-IsExclusive told (list_remove d.dir_queue pid) (freed_server d pid)
          (λ p. idle p working) (freed_server-IsQueue d pid v.queue) free
    by_type false waiting = record {
      leads = λ p h.
          first-list_remove d.dir_queue pid p (ground (arith, h)) (v.leads p (ground (arith, h)));
      working = still waiting v.working;
      slash_free = free;
      queue = freed_server-IsQueue d pid v.queue;
    }
