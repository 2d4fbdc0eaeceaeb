-- ===== src/TrimFiles.antt =====
-- src/plugins/abrt-action-trim-files.c: the list of the worst files of a directory, and the loop that
-- deletes them. A weight is w = bytes * minutes, which is 1024 times the weight of the code; the
-- rounding of its `double` is not modelled. `concat_path_file` of libreport, the trees that the scans
-- find, the clock and the results of `unlink` are arguments.
pub mod Worst
pub mod Sorting
pub mod Walk
pub mod Preserve
pub mod Enough
pub mod Tests
use abrt.Base.{
  ℕ, zero, suc, ◌+◌, ◌-◌, ◌*◌, ◌/◌, Bool, true, false, not, ◌&&◌, ◌||◌, List, [], ◌∷◌, ◌++◌, Option,
  none, some, ltb, leb, if◌then◌else◌, Str, str_eq, length,
}

-- `struct name_and_size`
pub record NameAndSize : Type 0 where
  pub size : ℕ
  pub weight : ℕ
  pub name : Str

abbrev pub max_victim_list_size : ℕ
max_victim_list_size = 128

-- Where the walk over the list stops, the new one is inserted.
unfoldable pub insert_sorted : List NameAndSize → NameAndSize → List NameAndSize
insert_sorted [] ns = ns ∷ []
insert_sorted (cur ∷ list) ns =
    let rest = insert_sorted list ns in
    if ltb cur.weight ns.weight then cur ∷ rest else ns ∷ cur ∷ list

-- `cur != list`
pub passed_first : List NameAndSize → ℕ → Bool
passed_first [] weight = false
passed_first (first ∷ list) weight = ltb first.weight weight

pub delete_first : List NameAndSize → List NameAndSize
delete_first [] = []
delete_first (first ∷ list) = list

unfoldable pub insert_name_and_sizes : List NameAndSize → NameAndSize → List NameAndSize
unfolding passed_first delete_first
insert_name_and_sizes list ns =
    if passed_first list ns.weight || ltb (length list) max_victim_list_size
    then (if ltb max_victim_list_size (length list + 1)
        then delete_first (insert_sorted list ns)
        else insert_sorted list ns)
    else list

mutual
  -- An entry of a directory other than . and ..: `unreadable` is a directory that
  -- cannot be opened, `skipped` what cannot be examined or is no regular file, link or directory.
  pub data Node : Type 0 where
    file : Str → ℕ → ℕ → Node
    dir : Str → Nodes → Node
    unreadable : Str → Node
    skipped : Str → Node

  -- What `readdir` gives.
  pub data Nodes : Type 0 where
    end_of_dir : Nodes
    entry : Node → Nodes → Nodes

unfoldable pub is_preserved : List Str → Str → Bool
is_preserved [] fullname = false
is_preserved (name ∷ names) fullname =
    let rest = is_preserved names fullname in if str_eq fullname name then true else rest

-- `strlen(dent->d_name) + sizeof(stats)`
unfoldable pub file_cost : Str → ℕ → ℕ
file_cost name size = size + length name + 144

unfoldable pub weight_of : ℕ → ℕ → ℕ → ℕ
weight_of now mtime cost = let age = (now - mtime) / 60 in if ltb 1 age then cost * age else cost

-- The size so far, with the list of victims.
abbrev pub Scan : Type 0
Scan = ℕ × List NameAndSize

module _ (concat_path_file : Str → Str → Str) (preserve : List Str) (now : Str → ℕ) where
  pub add_file : Str → Str → ℕ → ℕ → Scan → Scan
  add_file dirname name size mtime (total, worst) =
      let fullname = concat_path_file dirname name in
      let cost = file_cost name size in
      (
        total + cost,
        if is_preserved preserve fullname
            then worst
            else insert_name_and_sizes worst (record {
              size = size;
              weight = weight_of (now dirname) mtime cost;
              name = fullname;
            }),
      )

  -- `get_dir_size` with a list of victims; its sum is carried along. `now` is the time when it comes to a
  -- directory.
  unfoldable pub get_dir_size : Str → Nodes → Scan → Scan
  unfolding add_file
  get_dir_size dirname end_of_dir scan = scan
  get_dir_size dirname (entry (file name size mtime) nodes) scan =
      get_dir_size dirname nodes (add_file dirname name size mtime scan)
  get_dir_size dirname (entry (unreadable name) nodes) scan = get_dir_size dirname nodes scan
  get_dir_size dirname (entry (dir name inner) nodes) scan =
      get_dir_size dirname nodes (get_dir_size (concat_path_file dirname name) inner scan)
  get_dir_size dirname (entry (skipped name) nodes) scan = get_dir_size dirname nodes scan

-- The calls of `unlink`, the last one first, each with its success.
abbrev pub Unlinked : Type 0
Unlinked = List (Str × Bool)

-- `while (worst_file_list && cur_size > cap_size)`
unfoldable pub delete_worst : (Str → Bool) → ℕ → List NameAndSize → ℕ → Unlinked → Unlinked
delete_worst unlink cap [] cur log = log
delete_worst unlink cap (ns ∷ worst) cur log =
    let rest =
      delete_worst unlink cap worst (if unlink ns.name then cur - ns.size else cur)
        ((ns.name, unlink ns.name) ∷ log) in
    if ltb cap cur then rest else log

unfoldable pub reverse : List NameAndSize → List NameAndSize
reverse [] = []
reverse (ns ∷ list) = reverse list ++ ns ∷ []

-- A round of `delete_files` after the scan; `none`: no more trimming.
unfoldable pub trim_round : (Str → Bool) → ℕ → Scan → Unlinked → Option Unlinked
trim_round unlink cap (cur, []) log = none
trim_round unlink cap (cur, ns ∷ worst) log =
    if leb cur cap then none else some (delete_worst unlink cap (reverse (ns ∷ worst)) cur log)

-- What a round meets: the time when each directory is read, the tree and the results of `unlink`.
pub record Round : Type 0 where
  pub now : Str → ℕ
  pub tree : Nodes
  pub unlinks : Str → Bool

-- The rounds of `delete_files`, of which there are 99 at most.
unfoldable pub delete_files :
    (Str → Str → Str) → List Str → ℕ → Str → ℕ → List Round → Unlinked → Unlinked
unfolding trim_round
delete_files concat_path_file preserve cap dirname zero rounds log = log
delete_files concat_path_file preserve cap dirname (suc count) [] log = log
delete_files concat_path_file preserve cap dirname (suc count) (r ∷ rounds) log =
    elim (trim_round r.unlinks cap
      (get_dir_size concat_path_file preserve r.now dirname r.tree (0, [])) log) [
        | none ↦ log
        | some more ↦ delete_files concat_path_file preserve cap dirname count rounds more
      ]
