-- ===== src/TrimFiles/Preserve.antt =====
-- Which files are deleted.
use abrt.Base.{
  ℕ, zero, suc, ◌+◌, ◌≡◌, inl, inr, Bool, false, ◌||◌, List, [], ◌∷◌, ◌++◌, Option, none, some, ltb,
  leb, if_both, Str, Bool-cases, All, length,
}
use abrt.TrimFiles.{
  NameAndSize, max_victim_list_size, insert_sorted, passed_first, delete_first,
  insert_name_and_sizes, Nodes, file, dir, unreadable, skipped, end_of_dir, entry, is_preserved,
  Scan, add_file, get_dir_size, Unlinked, delete_worst, reverse, trim_round, Round, delete_files,
}

module _ (preserve : List Str) where
  abbrev Free : NameAndSize → Type 0
  Free ns = is_preserved preserve ns.name ≡ false

  abbrev pub Spares : Str × Bool → Type 0
  Spares (name, done) = is_preserved preserve name ≡ false

  insert_sorted-All :
      (list : List NameAndSize) (ns : NameAndSize)
      → Free ns
      → All Free list
      → All Free (insert_sorted list ns)
  unfolding insert_sorted
  insert_sorted-All [] ns f a = (f, tt)
  insert_sorted-All (cur ∷ list) ns f a =
      if_both (All Free) (ltb cur.weight ns.weight) (a.0, insert_sorted-All list ns f a.1) (f, a)

  delete_first-All : (list : List NameAndSize) → All Free list → All Free (delete_first list)
  unfolding delete_first
  delete_first-All [] a = tt
  delete_first-All (first ∷ list) a = a.1

  insert-All :
      (list : List NameAndSize) (ns : NameAndSize)
      → Free ns
      → All Free list
      → All Free (insert_name_and_sizes list ns)
  unfolding insert_name_and_sizes
  insert-All list ns f a =
      if_both (All Free) (passed_first list ns.weight || ltb (length list) max_victim_list_size)
        (if_both (All Free) (ltb max_victim_list_size (length list + 1))
          (delete_first-All (insert_sorted list ns) (insert_sorted-All list ns f a))
          (insert_sorted-All list ns f a))
        a

  add_file-All :
      (concat_path_file : Str → Str → Str) (now : Str → ℕ) (dirname name : Str) (size mtime : ℕ)
      (scan : Scan)
      → All Free scan.1
      → All Free (add_file concat_path_file preserve now dirname name size mtime scan).1
  unfolding add_file
  add_file-All concat_path_file now dirname name size mtime (total, worst) a =
      elim (Bool-cases (is_preserved preserve (concat_path_file dirname name))) [
        | inl kept ↦ rw kept a
        | inr free ↦ rw free (insert-All worst _ free a)
      ]

  get_dir_size-All :
      (concat_path_file : Str → Str → Str) (now : Str → ℕ) (dirname : Str) (nodes : Nodes)
      (scan : Scan)
      → All Free scan.1
      → All Free (get_dir_size concat_path_file preserve now dirname nodes scan).1
  unfolding get_dir_size
  get_dir_size-All cat now dirname end_of_dir scan a = a
  get_dir_size-All cat now dirname (entry (file name size mtime) nodes) scan a =
      get_dir_size-All cat now dirname nodes _ (add_file-All cat now dirname name size mtime scan a)
  get_dir_size-All cat now dirname (entry (dir name inner) nodes) scan a =
      get_dir_size-All cat now dirname nodes _
        (get_dir_size-All cat now (cat dirname name) inner scan a)
  get_dir_size-All cat now dirname (entry (unreadable name) nodes) scan a =
      get_dir_size-All cat now dirname nodes scan a
  get_dir_size-All cat now dirname (entry (skipped name) nodes) scan a =
      get_dir_size-All cat now dirname nodes scan a

  append-All : (xs ys : List NameAndSize) → All Free xs → All Free ys → All Free (xs ++ ys)
  append-All [] ys a b = b
  append-All (x ∷ xs) ys a b = (a.0, append-All xs ys a.1 b)

  reverse-All : (list : List NameAndSize) → All Free list → All Free (reverse list)
  unfolding reverse
  reverse-All [] a = tt
  reverse-All (ns ∷ list) a = append-All (reverse list) (ns ∷ []) (reverse-All list a.1) (a.0, tt)

  delete_worst-All :
      (unlink : Str → Bool) (cap : ℕ) (worst : List NameAndSize) (cur : ℕ) (log : Unlinked)
      → All Free worst
      → All Spares log
      → All Spares (delete_worst unlink cap worst cur log)
  unfolding delete_worst
  delete_worst-All unlink cap [] cur log a b = b
  delete_worst-All unlink cap (ns ∷ worst) cur log a b =
      if_both (All Spares) (ltb cap cur) (delete_worst-All unlink cap worst _ _ a.1 (a.0, b)) b

  abbrev AllOf : Option Unlinked → Type 0
  AllOf none = Unit
  AllOf (some log) = All Spares log

  trim_round-All :
      (unlink : Str → Bool) (cap : ℕ) (scan : Scan) (log : Unlinked)
      → All Free scan.1
      → All Spares log
      → AllOf (trim_round unlink cap scan log)
  unfolding trim_round
  trim_round-All unlink cap (cur, []) log a b = tt
  trim_round-All unlink cap (cur, ns ∷ worst) log a b =
      if_both AllOf (leb cur cap) tt
        (delete_worst-All unlink cap (reverse (ns ∷ worst)) cur log (reverse-All (ns ∷ worst) a) b)

  -- Whatever the directory looks like at each scan, and whatever can be unlinked: the program asks for no
  -- file to be deleted that it is told to preserve.
  pub delete_files-Spares :
      (concat_path_file : Str → Str → Str) (cap : ℕ) (dirname : Str) (count : ℕ)
      (rounds : List Round) (log : Unlinked)
      → All Spares log
      → All Spares (delete_files concat_path_file preserve cap dirname count rounds log)
  unfolding delete_files
  delete_files-Spares cat cap dirname zero rounds log b = b
  delete_files-Spares cat cap dirname (suc count) [] log b = b
  delete_files-Spares cat cap dirname (suc count) (r ∷ rounds) log b =
      let scan = get_dir_size cat preserve r.now dirname r.tree (0, []) in
      next (trim_round r.unlinks cap scan log)
        (trim_round-All r.unlinks cap scan log
          (get_dir_size-All cat r.now dirname r.tree (0, []) tt) b)
        (λ more l. delete_files-Spares cat cap dirname count rounds more l)
    where
      next :
          (o : Option Unlinked)
          → AllOf o
          → ((more : Unlinked)
              → All Spares more
              → All Spares (delete_files cat preserve cap dirname count rounds more))
          → All Spares (elim o [
            | none ↦ log
            | some more ↦ delete_files cat preserve cap dirname count rounds more
          ])
      next none l ih = b
      next (some more) l ih = ih more l
