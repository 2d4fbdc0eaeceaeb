-- ===== src/JournalCore/Throttle.antt =====
-- How often crashes of one executable are saved.
use abrt.Base.{
  ℕ, zero, suc, All, ◌+◌, ◌≤◌, ◌≡◌, ◌≢◌, refl, Bool, true, false, List, [], ◌∷◌, Option, none, some,
  Str, arith,
}
use abrt.JournalCore.Ring.{IsRing, get-update, update-IsRing}
use abrt.JournalCore.{
  Occurrence, OccurrenceQueue, executable_at, get_last_occurrence, saved, save, watch_cores,
  s_queue,
}

-- A crash: what the journal gives, the time, and whether the problem can be saved.
abbrev pub Crash : Type 0
Crash = Option Str × ℕ × Bool

abbrev pub watch : ℕ → List Crash → OccurrenceQueue → OccurrenceQueue
watch throttle [] q = q
watch throttle ((retrieved, current, saves) ∷ crashes) q =
    watch throttle crashes (watch_cores throttle q retrieved current saves).1

watch_cores-IsRing :
    (throttle : ℕ) (q : OccurrenceQueue) (retrieved : Option Str) (current : ℕ) (saves : Bool)
    → IsRing q
    → IsRing (watch_cores throttle q retrieved current saves).1
unfolding watch_cores
watch_cores-IsRing throttle q none current saves v = v
watch_cores-IsRing throttle q (some e) current true v =
    unfold save in ground (arith, update-IsRing q e current v)
watch_cores-IsRing throttle q (some e) current false v = unfold save in ground arith

watch-IsRing :
    (throttle : ℕ) (crashes : List Crash) (q : OccurrenceQueue)
    → IsRing q
    → IsRing (watch throttle crashes q)
watch-IsRing throttle [] q v = v
watch-IsRing throttle ((retrieved, current, saves) ∷ crashes) q v =
    watch-IsRing throttle crashes _ (watch_cores-IsRing throttle q retrieved current saves v)

empty_slots :
    (slots : List Occurrence)
    → All (λ o. o.executable ≡ none) slots
    → (i : ℕ) → executable_at slots i ≡ none
empty_slots [] a i = refl
empty_slots (o ∷ os) a zero = a.0
empty_slots (o ∷ os) a (suc i) = empty_slots os a.1 i

pub s_queue-IsRing : IsRing s_queue
s_queue-IsRing = record {
  sized = refl;
  has_slots = omega arith;
  in_range = λ h e. ground arith;
  fresh = λ e.
      empty_slots s_queue.occurrences
        (refl, (refl, (refl, (refl, (refl, (refl, (refl, (refl, tt))))))));
}

-- While the others crash, the executable never stands at the head of the ring, which the next new
-- executable takes.
abbrev pub IsKept : ℕ → Str → List Crash → OccurrenceQueue → Type 0
IsKept throttle e [] q = Unit
IsKept throttle e ((retrieved, current, saves) ∷ crashes) q =
    (retrieved ≢ some e)
    × ((h : ℕ) → q.head ≡ some h → executable_at q.occurrences h ≢ some e)
    × IsKept throttle e crashes (watch_cores throttle q retrieved current saves).1

-- A crash of an executable whose last one is the throttle's seconds back, or not remembered, is saved
-- if it can be, and remembered.
pub watch_cores-saves :
    (throttle : ℕ) (crashes : List Crash) (e : Str) (current : ℕ)
    → let q = watch throttle crashes s_queue in
      get_last_occurrence q e + throttle ≤ current
      → ((watch_cores throttle q (some e) current true).0 ≡ saved)
        × (get_last_occurrence (watch_cores throttle q (some e) current true).1 e ≡ current)
unfolding watch_cores save
watch_cores-saves throttle crashes e current h =
    let q = watch throttle crashes s_queue in
    let stored = get-update q (watch-IsRing throttle crashes s_queue s_queue-IsRing) e current in
    ground (arith, stored)
