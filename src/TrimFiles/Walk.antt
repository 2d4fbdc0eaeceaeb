-- ===== src/TrimFiles/Walk.antt =====
-- What a scan of a directory finds.
use abrt.Base.{
  ℕ, ◌+◌, ◌≡◌, refl, sym, ap, ◌∙◌, List, [], ◌∷◌, ◌++◌, if◌then◌else◌, Str, arith, Bool-cases, inl,
  inr,
}
use mathlib.Core.List.{Permᴰ}
use abrt.TrimFiles.Sorting.{sort_all-Perm}
use abrt.TrimFiles.Worst.{keep_all, sort_all, last, Sorted, keep_all-sort_all}
use abrt.TrimFiles.{
  NameAndSize, max_victim_list_size, insert_name_and_sizes, Nodes, file, dir, unreadable, skipped,
  end_of_dir, entry, is_preserved, file_cost, weight_of, Scan, add_file, get_dir_size,
}

pair : {a b : ℕ} {xs ys : List NameAndSize} → a ≡ b → xs ≡ ys → ◌≡◌ {A = Scan} (a, xs) (b, ys)
pair p q = λ i. (p i, q i)

module _ (concat_path_file : Str → Str → Str) (preserve : List Str) (now : Str → ℕ) where
  abbrev victim : Str → Str → ℕ → ℕ → List NameAndSize
  victim dirname name size mtime =
      let fullname = concat_path_file dirname name in
      if is_preserved preserve fullname
      then []
      else record {
        size = size;
        weight = weight_of (now dirname) mtime (file_cost name size);
        name = fullname;
      }
        ∷ []

  -- The files below the directory that are not preserved.
  abbrev pub victims : Str → Nodes → List NameAndSize
  victims dirname end_of_dir = []
  victims dirname (entry (file name size mtime) nodes) =
      victim dirname name size mtime ++ victims dirname nodes
  victims dirname (entry (dir name inner) nodes) =
      victims (concat_path_file dirname name) inner ++ victims dirname nodes
  victims dirname (entry (unreadable name) nodes) = victims dirname nodes
  victims dirname (entry (skipped name) nodes) = victims dirname nodes

  -- The size of all files below it.
  abbrev pub total_cost : Nodes → ℕ
  total_cost end_of_dir = 0
  total_cost (entry (file name size mtime) nodes) = file_cost name size + total_cost nodes
  total_cost (entry (dir name inner) nodes) = total_cost inner + total_cost nodes
  total_cost (entry (unreadable name) nodes) = total_cost nodes
  total_cost (entry (skipped name) nodes) = total_cost nodes

  keep_all-append :
      (xs ys list : List NameAndSize) → keep_all (xs ++ ys) list ≡ keep_all ys (keep_all xs list)
  keep_all-append [] ys list = refl
  keep_all-append (x ∷ xs) ys list = keep_all-append xs ys (insert_name_and_sizes list x)

  add_file-keep_all :
      (dirname name : Str) (size mtime total : ℕ) (worst : List NameAndSize)
      → add_file concat_path_file preserve now dirname name size mtime (total, worst)
        ≡ (total + file_cost name size, keep_all (victim dirname name size mtime) worst)
  unfolding add_file
  add_file-keep_all dirname name size mtime total worst =
      elim (Bool-cases (is_preserved preserve (concat_path_file dirname name))) [
        | inl kept ↦ rw kept refl
        | inr free ↦ rw free refl
      ]

  get_dir_size-keep_all :
      (dirname : Str) (nodes : Nodes) (total : ℕ) (worst : List NameAndSize)
      → get_dir_size concat_path_file preserve now dirname nodes (total, worst)
        ≡ (total + total_cost nodes, keep_all (victims dirname nodes) worst)
  unfolding get_dir_size
  get_dir_size-keep_all dirname end_of_dir total worst = ap (λ n. (n, worst)) (omega arith)
  get_dir_size-keep_all dirname (entry (file name size mtime) nodes) total worst =
      ap (get_dir_size concat_path_file preserve now dirname nodes)
        (add_file-keep_all dirname name size mtime total worst)
      ∙ get_dir_size-keep_all dirname nodes (total + file_cost name size)
          (keep_all (victim dirname name size mtime) worst)
      ∙ pair (omega arith)
          (sym (keep_all-append (victim dirname name size mtime) (victims dirname nodes) worst))
  get_dir_size-keep_all dirname (entry (dir name inner) nodes) total worst =
      ap (get_dir_size concat_path_file preserve now dirname nodes)
        (get_dir_size-keep_all (concat_path_file dirname name) inner total worst)
      ∙ get_dir_size-keep_all dirname nodes (total + total_cost inner)
          (keep_all (victims (concat_path_file dirname name) inner) worst)
      ∙ pair (omega arith) (
          sym (
            keep_all-append (victims (concat_path_file dirname name) inner) (victims dirname nodes)
              worst))
  get_dir_size-keep_all dirname (entry (unreadable name) nodes) total worst =
      get_dir_size-keep_all dirname nodes total worst
  get_dir_size-keep_all dirname (entry (skipped name) nodes) total worst =
      get_dir_size-keep_all dirname nodes total worst

  -- A scan yields the size of all files below the directory, and the 128 worst of those that are not
  -- preserved: the end of the list of all of them, with none lost, sorted by weight.
  pub get_dir_size-victims :
      (dirname : Str) (nodes : Nodes)
      → ((get_dir_size concat_path_file preserve now dirname nodes (0, [])).0 ≡ total_cost nodes)
        × ((get_dir_size concat_path_file preserve now dirname nodes (0, [])).1
            ≡ last max_victim_list_size (sort_all (victims dirname nodes) []))
        × Sorted (sort_all (victims dirname nodes) [])
        × Permᴰ (sort_all (victims dirname nodes) []) (victims dirname nodes)
  get_dir_size-victims dirname nodes =
      let scan = get_dir_size-keep_all dirname nodes 0 [] in
      let (kept, ordered) = keep_all-sort_all (victims dirname nodes) in
      (
        ap (λ s. s.0) scan ∙ (omega arith),
        ap (λ s. s.1) scan ∙ kept,
        ordered,
        sort_all-Perm (victims dirname nodes),
      )
