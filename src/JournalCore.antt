-- ===== src/JournalCore.antt =====
-- src/plugins/abrt-dump-journal-core.c: the throttle of crashes found in the journal, with the ring of
-- the executables that crashed last. What journald and the problem database answer is an argument.
pub mod Search
pub mod Ring
pub mod Throttle
pub mod Tests
use abrt.Base.{
  ℕ, zero, suc, ◌+◌, ◌-◌, Bool, true, false, not, List, [], ◌∷◌, Option, none, some, ltb, leb, ◌==◌,
  if◌then◌else◌, Str, str_eq, get_elem?, set,
}

-- `struct last_occurrence`
pub record Occurrence : Type 0 where
  pub stamp : ℕ
  pub executable : Option Str

-- `none` is a head of -1.
pub record OccurrenceQueue : Type 0 where
  pub head : Option ℕ
  pub size : ℕ
  pub occurrences : List Occurrence

abbrev empty_slot : Occurrence
empty_slot = record { stamp = 0; executable = none }

-- `s_queue`
abbrev pub s_queue : OccurrenceQueue
s_queue = record {
  head = none;
  size = 8;
  occurrences =
      empty_slot ∷ empty_slot ∷ empty_slot ∷ empty_slot ∷ empty_slot ∷ empty_slot ∷ empty_slot
      ∷ empty_slot ∷ [];
}

-- `index-- == 0` with the wrap to the last index, and how the search starts from the head
unfoldable pub index_before : ℕ → ℕ → ℕ
index_before size index = if index == 0 then size - 1 else index - 1

abbrev pub executable_at : List Occurrence → ℕ → Option Str
executable_at slots index = elim (get_elem? slots index) [ none ↦ none | some o ↦ o.executable ]

abbrev pub stamp_at : List Occurrence → ℕ → ℕ
stamp_at slots index = elim (get_elem? slots index) [ none ↦ 0 | some o ↦ o.stamp ]

-- One round of the loop that both functions run, with what the rounds behind it give: a free slot ends
-- the loop, the executable is returned with its index.
unfoldable pub visit : Str → ℕ → Option Str → Option ℕ → Option ℕ
visit executable index none rest = none
visit executable index (some found) rest = if str_eq executable found then some index else rest

-- The loop, `rounds` times at most
unfoldable pub search : List Occurrence → ℕ → Str → ℕ → ℕ → Option ℕ
search slots size executable zero index = none
search slots size executable (suc rounds) index =
    visit executable index (executable_at slots index)
      (search slots size executable rounds (index_before size index))

pub stamp_of : List Occurrence → Option ℕ → ℕ
stamp_of slots none = 0
stamp_of slots (some index) = stamp_at slots index

unfoldable pub get_last_occurrence : OccurrenceQueue → Str → ℕ
unfolding stamp_of
get_last_occurrence queue executable = elim queue.head [
  | none ↦ 0
  | some head ↦
      stamp_of queue.occurrences
        (search queue.occurrences queue.size executable queue.size (index_before queue.size head))
]

-- `++s_queue.oq_head >= s_queue.oq_size`
pub head_after : ℕ → ℕ → ℕ
head_after size head = if leb size (head + 1) then 0 else head + 1

-- The part behind the loop
pub put_at_head : OccurrenceQueue → ℕ → Str → ℕ → OccurrenceQueue
unfolding head_after
put_at_head queue head executable ts = record queue {
  head = some (head_after queue.size head);
  occurrences = set queue.occurrences head (record { stamp = ts; executable = some executable });
}

-- A found entry gets the time; else the executable goes to the head.
pub stamp_or_put : OccurrenceQueue → ℕ → Str → ℕ → Option ℕ → OccurrenceQueue
unfolding put_at_head
stamp_or_put queue head executable ts none = put_at_head queue head executable ts
stamp_or_put queue head executable ts (some index) = record queue {
  occurrences =
      set queue.occurrences index
        (record { stamp = ts; executable = executable_at queue.occurrences index });
}

unfoldable pub update_occurrence : OccurrenceQueue → Str → ℕ → OccurrenceQueue
unfolding stamp_or_put put_at_head
update_occurrence queue executable ts = elim queue.head [
  | none ↦ put_at_head queue 0 executable ts
  | some head ↦
      stamp_or_put queue head executable ts
        (search queue.occurrences queue.size executable queue.size (index_before queue.size head))
]

-- What becomes of a crash. The program is taken to run with `g_verbose` at most 2, above which it aborts
-- in place of `in_past`.
pub data CrashOutcome : Type 0 where
  not_retrieved in_past throttled not_saved saved : CrashOutcome

pub save : OccurrenceQueue → Str → ℕ → Bool → CrashOutcome × OccurrenceQueue
save queue executable current true = (saved, update_occurrence queue executable current)
save queue executable current false = (not_saved, queue)

-- `abrt_journal_watch_cores`: `none` when the journal does not give a crash to save. `throttle` is
-- `awc_throttle` as the comparison with an `unsigned` takes it.
unfoldable pub watch_cores :
    ℕ → OccurrenceQueue → Option Str → ℕ → Bool → CrashOutcome × OccurrenceQueue
unfolding save
watch_cores throttle queue retrieved current saves = elim retrieved [
  | none ↦ (not_retrieved, queue)
  | some executable ↦
      let last = get_last_occurrence queue executable in
      if ltb current last
      then (in_past, queue)
      else if ltb (current - last) throttle
      then (throttled, queue)
      else save queue executable current saves
]
