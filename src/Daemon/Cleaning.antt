-- ===== src/Daemon/Cleaning.antt =====
-- The deletion of the largest directories: the process at work keeps its place, since the search
-- ignores its directory.
use abrt.Base.{
  ℕ, ◌≡◌, ◌≢◌, refl, sym, subst, ◌⊎◌, inl, inr, Bool, true, false, List, [], ◌∷◌, ◌&&◌, Option,
  none, some, Str, str_eq_iff, arith, Bool-cases, All, if_both,
}
use abrt.Session.{find_task, list_remove}
use abrt.UploadWatch.{strrchr}
use abrt.Daemon.{
  Daemon, has_dirname, take_dirname, unprocessed, clean_location, behind_slash, ignored_name,
}
use abrt.Daemon.Queue.{
  has_slash, first, IsExclusive, first-list_remove, removed-IsQueue, member_removed,
}

strrchr-none : (s : Str) → has_slash s ≡ false → strrchr s b'/' ≡ none
unfolding strrchr
strrchr-none [] h = refl
strrchr-none (c ∷ s) h = rw (strrchr-none s (ground arith)) (ground arith)

pub ignored_name-itself : (s : Str) → has_slash s ≡ false → ignored_name (some s) ≡ s
unfolding ignored_name behind_slash
ignored_name-itself s h = rw (strrchr-none s h) refl

pub unmatched :
    (d : Daemon) (worst s : Str) (p : ℕ)
    → d.dirname p ≡ some s
    → worst ≢ s
    → has_dirname d worst p ≡ false
unfolding has_dirname
unmatched d worst s p e h = rw (has_dirname, e) (ground (arith, str_eq_iff s worst))

-- What is left when the first process of a directory is taken out
abbrev Taken : Daemon → Str → List ℕ → Option (ℕ × List ℕ) → Type 0
Taken d worst queue none = Unit
Taken d worst queue (some (m, rest)) = (rest ≡ list_remove queue m) × (has_dirname d worst m ≡ true)

behind_head :
    (d : Daemon) (worst : Str) (n : ℕ) (queue : List ℕ) (o : Option (ℕ × List ℕ))
    → has_dirname d worst n ≡ false
    → Taken d worst queue o
    → Taken d worst (n ∷ queue) (elim o [ none ↦ none | some (m, rest) ↦ some (m, n ∷ rest) ])
unfolding list_remove
behind_head d worst n queue none h t = tt
behind_head d worst n queue (some (m, rest)) h (e, k) = (ground (arith, other, e), k)
  where
    other : n ≢ m
    other same = ground (arith, h, subst (λ x. has_dirname d worst x ≡ true) (sym same) k)

take_dirname-Taken :
    (d : Daemon) (worst : Str) (queue : List ℕ) → Taken d worst queue (take_dirname d worst queue)
unfolding take_dirname
take_dirname-Taken d worst [] = tt
take_dirname-Taken d worst (n ∷ queue) = elim (Bool-cases (has_dirname d worst n)) [
  | inl h ↦ rw h (unfold list_remove in ground arith, h)
  | inr h ↦ rw h (
      behind_head d worst n queue (take_dirname d worst queue) h (take_dirname-Taken d worst queue))
]

-- The process `n` is at work on the directory `s` while `proc` is about to be queued.
pub record IsServing (d : Daemon) (n : ℕ) (s : Str) (proc : ℕ) : Type 0 where
  pub exclusive : IsExclusive d
  pub head : first d.dir_queue ≡ some n
  pub directory : d.dirname n ≡ some s
  pub outside : find_task d.dir_queue proc ≡ false
  pub live : find_task d.processes proc ≡ true
  pub named : d.dirname proc ≢ none

stays_out :
    (queue : List ℕ) (m proc : ℕ)
    → find_task queue proc ≡ false
    → find_task (list_remove queue m) proc ≡ false
stays_out queue m proc h = elim (Bool-cases (find_task (list_remove queue m) proc)) [
  | inr out ↦ out
  | inl there ↦ ground (arith, h, member_removed queue m proc there)
]

still_working :
    (q r : List ℕ) (post : ℕ → Bool) (n : ℕ)
    → first q ≡ some n
    → (q ≡ []) ⊎ ((p : ℕ) × (post p ≡ true))
    → (r ≡ []) ⊎ ((p : ℕ) × (post p ≡ true))
still_working q r post n h (inr w) = inr w
still_working [] r post n h (inl e) = ground arith
still_working (x ∷ q) r post n h (inl e) = ground arith

unprocessed-IsServing :
    (d : Daemon) (worst : Str) (n : ℕ) (s : Str) (proc : ℕ) (o : Option (ℕ × List ℕ))
    → worst ≢ s
    → Taken d worst d.dir_queue o
    → IsServing d n s proc
    → IsServing (unprocessed o d) n s proc
unfolding unprocessed
unprocessed-IsServing d worst n s proc none h t v = v
unprocessed-IsServing d worst n s proc (some (m, rest)) h (e, k) v = rw e (record {
  exclusive = record {
    leads = λ p w. keeps p (v.exclusive.leads p w);
    working = still_working d.dir_queue _ d.post_create n v.head v.exclusive.working;
    slash_free = v.exclusive.slash_free;
    queue = removed-IsQueue d.dir_queue m v.exclusive.queue;
  };
  head = keeps n v.head;
  directory = v.directory;
  outside = stays_out d.dir_queue m proc v.outside;
  live = v.live;
  named = v.named;
})
  where
    keeps : (p : ℕ) → first d.dir_queue ≡ some p → first (list_remove d.dir_queue m) ≡ some p
    keeps p w = first-list_remove d.dir_queue m p other w
      where
        other : p ≢ m
        other same =
            (let at_head : n ≡ m = ground (arith, v.head, w, same) in
              let missed = unmatched d worst s n v.directory h in
              ground (arith, missed, subst (λ x. has_dirname d worst x ≡ true) (sym at_head) k))

stopped-IsServing :
    (d : Daemon) (n : ℕ) (s : Str) (proc : ℕ)
    → IsServing d n s proc
    → IsServing (record d { stopped = proc ∷ d.stopped }) n s proc
stopped-IsServing d n s proc v = record {
  exclusive = record {
    leads = v.exclusive.leads;
    working = v.exclusive.working;
    slash_free = v.exclusive.slash_free;
    queue = v.exclusive.queue;
  };
  head = v.head;
  directory = v.directory;
  outside = v.outside;
  live = v.live;
  named = v.named;
}

pub clean_location-IsServing :
    (dirs : List Str) (d : Daemon) (n : ℕ) (s : Str) (proc : ℕ) (stands : Bool)
    → All (λ worst. worst ≢ s) dirs
    → IsServing d n s proc
    → IsServing (clean_location dirs proc stands d).1 n s proc
unfolding clean_location
clean_location-IsServing [] d n s proc stands a v = v
clean_location-IsServing (worst ∷ dirs) d n s proc stands a v =
    if_both (λ (r : Bool × Daemon). IsServing r.1 n s proc) (stands && has_dirname d worst proc)
      (clean_location-IsServing dirs _ n s proc false a.1 (stopped-IsServing d n s proc v))
      (clean_location-IsServing dirs _ n s proc stands a.1 (
        unprocessed-IsServing d worst n s proc (take_dirname d worst d.dir_queue) a.0
          (take_dirname-Taken d worst d.dir_queue) v))

take_dirname-none :
    (d : Daemon) (worst : Str) (queue : List ℕ) → queue ≡ [] → take_dirname d worst queue ≡ none
take_dirname-none d worst queue e = rw e (unfold take_dirname in refl)

-- With an empty queue nothing is stopped, since the directory of the process itself is ignored.
pub clean_location-same :
    (dirs : List Str) (proc : ℕ) (s : Str) (d : Daemon)
    → d.dir_queue ≡ []
    → d.dirname proc ≡ some s
    → All (λ worst. worst ≢ s) dirs
    → clean_location dirs proc true d ≡ (true, d)
unfolding clean_location
clean_location-same [] proc s d e name a = refl
clean_location-same (worst ∷ dirs) proc s d e name a =
    rw (unmatched d worst s proc name a.0, take_dirname-none d worst d.dir_queue e)
      (unfold unprocessed in clean_location-same dirs proc s d e name a.1)
