-- ===== src/JournalCore/Tests.antt =====
-- Runs of the journal watcher, and the theorems about it at concrete inputs.
use abrt.Base.{
  ℕ, ◌≡◌, ◌≢◌, refl, ◌⊎◌, true, false, List, [], ◌∷◌, none, some, Str, codes, str_eq, arith,
}
use abrt.JournalCore.Ring.{get-update_other}
use abrt.JournalCore.Throttle.{Crash, watch, s_queue-IsRing, watch_cores-saves}
use abrt.JournalCore.{
  s_queue, get_last_occurrence, update_occurrence, executable_at, search, visit, index_before,
  saved, throttled, watch_cores,
}

abbrev bash : Str
bash = codes "/usr/bin/bash"

abbrev vim : Str
vim = codes "/usr/bin/vim"

abbrev crashes : List Crash
crashes =
    (some bash, 100, true)
    ∷ (some vim, 110, true)
    ∷ (none, 115, true)
    ∷ (some bash, 120, false)
    ∷ []

watch-crashes :
    (get_last_occurrence (watch 60 crashes s_queue) bash ≡ 100)
    × (get_last_occurrence (watch 60 crashes s_queue) vim ≡ 110)
    × ((watch_cores 60 (watch 60 crashes s_queue) (some bash) 159 true).0 ≡ throttled)
    × ((watch_cores 60 (watch 60 crashes s_queue) (some bash) 160 true).0 ≡ saved)
unfolding watch_cores get_last_occurrence update_occurrence search visit index_before str_eq
watch-crashes = (refl, refl, refl, refl)

abbrev others : List Crash
others = (some vim, 200, true) ∷ (none, 205, true) ∷ []

bash_long_ago : get_last_occurrence (watch 60 crashes s_queue) bash ≡ 100
unfolding watch_cores get_last_occurrence update_occurrence search visit index_before str_eq
bash_long_ago = refl

watch_cores-saves_example :
    let q = watch 60 crashes s_queue in
    ((watch_cores 60 q (some bash) 200 true).0 ≡ saved)
    × (get_last_occurrence (watch_cores 60 q (some bash) 200 true).1 bash ≡ 200)
watch_cores-saves_example = watch_cores-saves 60 crashes bash 200 (omega (arith, bash_long_ago))

get-update_other_example :
    (get_last_occurrence (update_occurrence s_queue bash 7) vim ≡ get_last_occurrence s_queue vim)
    ⊎ ((get_last_occurrence (update_occurrence s_queue bash 7) vim ≡ 0)
        × ((h : ℕ) → s_queue.head ≡ some h → executable_at s_queue.occurrences h ≡ some vim))
get-update_other_example = get-update_other s_queue s_queue-IsRing bash 7 vim differ
  where
    differ : bash ≢ vim
    differ e = ground (arith, e)
