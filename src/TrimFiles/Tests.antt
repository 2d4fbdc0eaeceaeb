-- ===== src/TrimFiles/Tests.antt =====
-- Runs of the trimming, and the theorems about it at concrete inputs.
use abrt.Base.{◌≡◌, refl, true, List, [], ◌∷◌, ◌++◌, Str, codes, str_eq, All}
use mathlib.Core.List.{Permᴰ}
use abrt.TrimFiles.Enough.{Trims, trim_round-Trims}
use abrt.TrimFiles.Preserve.{Spares, delete_files-Spares}
use abrt.TrimFiles.Walk.{victims, total_cost, get_dir_size-victims}
use abrt.TrimFiles.Worst.{last, sort_all, Sorted}
use abrt.TrimFiles.{
  max_victim_list_size, Nodes, file, dir, skipped, end_of_dir, entry, get_dir_size, is_preserved,
  weight_of, file_cost, insert_name_and_sizes, insert_sorted, delete_worst, reverse, Round,
  trim_round, delete_files,
}

abbrev concat_path : Str → Str → Str
concat_path dirname name = dirname ++ b'/' ∷ name

abbrev tmp : Str
tmp = codes "/tmp"

abbrev kept : List Str
kept = codes "/tmp/d/b" ∷ []

abbrev tree : Nodes
tree = entry (file (codes "a") 1000 0) (
    entry
      (dir (codes "d")
        (entry (file (codes "b") 9000 0) (entry (file (codes "c") 5000 0) end_of_dir)))
      (entry (skipped (codes "s")) end_of_dir))

abbrev round : Round
round = record { now = λ _. 600; tree = tree; unlinks = λ _. true }

-- The biggest file is preserved, the next one is enough.
delete_files-kept :
    delete_files concat_path kept 11000 tmp 99 (round ∷ []) [] ≡ (codes "/tmp/d/c", true) ∷ []
unfolding delete_files get_dir_size is_preserved weight_of file_cost insert_name_and_sizes
    insert_sorted delete_worst reverse str_eq
delete_files-kept = refl

delete_files-Spares_example :
    All (Spares kept) (delete_files concat_path kept 11000 tmp 99 (round ∷ []) [])
delete_files-Spares_example = delete_files-Spares kept concat_path 11000 tmp 99 (round ∷ []) [] tt

get_dir_size-victims_example :
    ((get_dir_size concat_path kept (λ _. 600) tmp tree (0, [])).0
      ≡ total_cost concat_path kept (λ _. 600) tree)
    × ((get_dir_size concat_path kept (λ _. 600) tmp tree (0, [])).1
        ≡ last max_victim_list_size (sort_all (victims concat_path kept (λ _. 600) tmp tree) []))
    × Sorted (sort_all (victims concat_path kept (λ _. 600) tmp tree) [])
    × Permᴰ
        (sort_all (victims concat_path kept (λ _. 600) tmp tree) [])
        (victims concat_path kept (λ _. 600) tmp tree)
get_dir_size-victims_example = get_dir_size-victims concat_path kept (λ _. 600) tmp tree

trim_round-Trims_example :
    let scan = get_dir_size concat_path kept (λ _. 600) tmp tree (0, []) in
    Trims (λ _. true) 11000 scan.0 scan.1 [] (trim_round (λ _. true) 11000 scan [])
trim_round-Trims_example =
    trim_round-Trims (λ _. true) 11000 concat_path kept (λ _. 600) tmp tree []
