-- ===== src/Session/Owner.antt =====
-- The tasks of a session and their numbers.
use abrt.Base.{
  ℕ, suc, ◌+◌, ◌≤◌, ◌<◌, ◌≡◌, refl, sym, subst, ◌⊎◌, inl, inr, true, false, List, [], ◌∷◌,
  if◌then◌else◌, arith, is_some,
}
use abrt.Session.Machine.{Session}
use abrt.Session.{no_index, find_task, add_task, list_remove, remove_task}

pub data TaskCall : Type 0 where
  adds removes : ℕ → TaskCall

abbrev pub task_step : TaskCall → Session → Session
task_step (adds t) s = (add_task s t).1
task_step (removes t) s = remove_task s t

abbrev pub task_run : List TaskCall → Session → Session
task_run [] s = s
task_run (c ∷ cs) s = task_run cs (task_step c s)

-- The numbers that the successful calls of `add_task` returned, in order.
abbrev pub task_indexes : List TaskCall → Session → List ℕ
task_indexes [] s = []
task_indexes (adds t ∷ cs) s =
    let rest = task_indexes cs (task_step (adds t) s) in
    if is_some (add_task s t).0.1 then rest else (add_task s t).0.0 ∷ rest
task_indexes (removes t ∷ cs) s = task_indexes cs (task_step (removes t) s)

-- Each number is above those before it, and none is the mark of an error.
abbrev pub Rising : ℕ → List ℕ → Type 0
Rising n [] = Unit
Rising n (x ∷ xs) = (n ≤ x) × (x < no_index) × Rising (suc x) xs

abbrev pub Distinct : List ℕ → Type 0
Distinct [] = Unit
Distinct (t ∷ ts) = (find_task ts t ≡ false) × Distinct ts

Rising-mono : (m n : ℕ) (xs : List ℕ) → m ≤ n → Rising n xs → Rising m xs
Rising-mono m n [] h r = tt
Rising-mono m n (x ∷ xs) h r = (omega arith, r.1, r.2)

find_task-list_remove :
    (ts : List ℕ) (t u : ℕ) → find_task ts u ≡ false → find_task (list_remove ts t) u ≡ false
unfolding find_task list_remove
find_task-list_remove [] t u h = refl
find_task-list_remove (x ∷ ts) t u h = ground (arith, find_task-list_remove ts t u)

pub list_remove-Distinct : (ts : List ℕ) (t : ℕ) → Distinct ts → Distinct (list_remove ts t)
unfolding list_remove
list_remove-Distinct [] t d = tt
list_remove-Distinct (x ∷ ts) t d =
    ground (arith, find_task-list_remove ts t x, list_remove-Distinct ts t d.1)

add_task-Distinct : (s : Session) (t : ℕ) → Distinct s.tasks → Distinct (add_task s t).1.tasks
unfolding add_task
add_task-Distinct s t d = ground arith

same_indexer : (s : Session) (t : ℕ) → (remove_task s t).task_indexer ≡ s.task_indexer
unfolding remove_task
same_indexer s t = refl

removed : (s : Session) (t : ℕ) → Distinct s.tasks → Distinct (remove_task s t).tasks
unfolding remove_task
removed s t d = list_remove-Distinct s.tasks t d

add_task_cases :
    (s : Session) (t : ℕ)
    → s.task_indexer < no_index
    → ((is_some (add_task s t).0.1 ≡ true) × ((add_task s t).1 ≡ s))
      ⊎ ((is_some (add_task s t).0.1 ≡ false)
          × ((add_task s t).0.0 ≡ s.task_indexer)
          × ((add_task s t).1.task_indexer ≡ s.task_indexer + 1)
          × (s.task_indexer + 1 < no_index))
unfolding add_task
add_task_cases s t h = ground arith

-- Through any history of calls no task is owned twice, and the numbers of the tasks rise from the
-- indexer on, below the mark of an error: no two tasks of a session ever share a number.
task_indexes-Rising :
    (cs : List TaskCall) (s : Session)
    → Distinct s.tasks
    → s.task_indexer < no_index
    → Rising s.task_indexer (task_indexes cs s) × Distinct (task_run cs s).tasks
task_indexes-Rising [] s d h = (tt, d)
task_indexes-Rising (adds t ∷ cs) s d h = elim (add_task_cases s t h) [
  | inl (refused, same) ↦ rw refused (
      subst (λ u. Rising s.task_indexer (task_indexes cs u) × Distinct (task_run cs u).tasks)
        (sym same) (task_indexes-Rising cs s d h))
  | inr (done, number, next, below) ↦
      let (r, d') =
        task_indexes-Rising cs (add_task s t).1 (add_task-Distinct s t d) (omega arith) in
      rw (done, number) ((omega arith, h, Rising-mono _ _ _ (omega arith) r), d')
]
task_indexes-Rising (removes t ∷ cs) s d h =
    subst
      (λ n.
        Rising n (task_indexes cs (remove_task s t))
        × Distinct (task_run cs (remove_task s t)).tasks)
      (same_indexer s t)
      (task_indexes-Rising cs (remove_task s t) (removed s t d)
        (subst (λ n. n < no_index) (sym (same_indexer s t)) h))
