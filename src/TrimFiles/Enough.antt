-- ===== src/TrimFiles/Enough.antt =====
-- Which files a round deletes, and when it stops.
use abrt.Base.{
  Option, none, some, All, leb, subst, sym, ℕ, ◌-◌, ◌≤◌, ◌<◌, ◌≡◌, refl, ap, ◌⊎◌, inl, inr, Bool,
  List, [], ◌∷◌, ◌++◌, ltb, if◌then◌else◌, Str, arith, Bool-cases,
}
use abrt.TrimFiles.{NameAndSize, Nodes, Unlinked, get_dir_size, delete_worst, reverse, trim_round}
use abrt.TrimFiles.Walk.{get_dir_size-victims}
use abrt.TrimFiles.Worst.{Least, Sorted, drop-Sorted}

abbrev Most : ℕ → List NameAndSize → Type 0
Most w list = All (λ ns. ns.weight ≤ w) list

abbrev Descending : List NameAndSize → Type 0
Descending [] = Unit
Descending (ns ∷ list) = Most ns.weight list × Descending list

Most-append :
    (w : ℕ) (list : List NameAndSize) (ns : NameAndSize)
    → Most w list
    → ns.weight ≤ w
    → Most w (list ++ ns ∷ [])
Most-append w [] ns a h = (h, tt)
Most-append w (x ∷ list) ns a h = (a.0, Most-append w list ns a.1 h)

Least-append :
    (w : ℕ) (list : List NameAndSize) (ns : NameAndSize)
    → Least w list
    → w ≤ ns.weight
    → Least w (list ++ ns ∷ [])
Least-append w [] ns a h = (h, tt)
Least-append w (x ∷ list) ns a h = (a.0, Least-append w list ns a.1 h)

Least-reverse : (w : ℕ) (list : List NameAndSize) → Least w list → Least w (reverse list)
unfolding reverse
Least-reverse w [] a = tt
Least-reverse w (x ∷ list) a = Least-append w (reverse list) x (Least-reverse w list a.1) a.0

Descending-append :
    (list : List NameAndSize) (ns : NameAndSize)
    → Descending list
    → Least ns.weight list
    → Descending (list ++ ns ∷ [])
Descending-append [] ns d a = (tt, tt)
Descending-append (x ∷ list) ns d a =
    (Most-append x.weight list ns d.0 a.0, Descending-append list ns d.1 a.1)

reverse-Descending : (list : List NameAndSize) → Sorted list → Descending (reverse list)
unfolding reverse
reverse-Descending [] s = tt
reverse-Descending (x ∷ list) s =
    Descending-append (reverse list) x (reverse-Descending list s.1)
      (Least-reverse x.weight list s.0)

Most-behind : (w : ℕ) (front back : List NameAndSize) → Most w (front ++ back) → Most w back
Most-behind w [] back a = a
Most-behind w (x ∷ front) back a = Most-behind w front back a.1

-- No file of the second list weighs more than one of the first.
abbrev pub Outweigh : List NameAndSize → List NameAndSize → Type 0
Outweigh done spared = All (λ d. All (λ s. s.weight ≤ d.weight) spared) done

Descending-Outweigh :
    (done spared : List NameAndSize) → Descending (done ++ spared) → Outweigh done spared
Descending-Outweigh [] spared d = tt
Descending-Outweigh (x ∷ done) spared d =
    (Most-behind x.weight done spared d.0, Descending-Outweigh done spared d.1)

module _ (unlink : Str → Bool) (cap : ℕ) where
  abbrev pub size_without : NameAndSize → ℕ → ℕ
  size_without ns cur = if unlink ns.name then cur - ns.size else cur

  abbrev pub size_after : List NameAndSize → ℕ → ℕ
  size_after [] cur = cur
  size_after (ns ∷ done) cur = size_after done (size_without ns cur)

  abbrev pub logged : List NameAndSize → Unlinked → Unlinked
  logged [] log = log
  logged (ns ∷ done) log = logged done ((ns.name, unlink ns.name) ∷ log)

  -- Each of these files was deleted while the size was still too big.
  abbrev pub WhileOver : List NameAndSize → ℕ → Type 0
  WhileOver [] cur = Unit
  WhileOver (ns ∷ done) cur = (cap < cur) × WhileOver done (size_without ns cur)

  -- What was done, and what was left alone.
  pub record Stops (worst : List NameAndSize) (cur : ℕ) (log after : Unlinked) : Type 0 where
    pub done : List NameAndSize
    pub spared : List NameAndSize
    pub split : worst ≡ done ++ spared
    pub in_log : after ≡ logged done log
    pub while_over : WhileOver done cur
    pub enough : (spared ≡ []) ⊎ (size_after done cur ≤ cap)

  delete_worst-Stops :
      (worst : List NameAndSize) (cur : ℕ) (log : Unlinked)
      → Stops worst cur log (delete_worst unlink cap worst cur log)
  unfolding delete_worst
  delete_worst-Stops [] cur log = record {
    done = [];
    spared = [];
    split = refl;
    in_log = refl;
    while_over = tt;
    enough = inl refl;
  }
  delete_worst-Stops (ns ∷ worst) cur log = elim (Bool-cases (ltb cap cur)) [
    | inl over ↦
        (let rest =
            delete_worst-Stops worst (size_without ns cur) ((ns.name, unlink ns.name) ∷ log) in
          rw over (record {
            done = ns ∷ rest.done;
            spared = rest.spared;
            split = ap (◌∷◌ ns) rest.split;
            in_log = rest.in_log;
            while_over = (ground arith, rest.while_over);
            enough = rest.enough;
          }))
    | inr fits ↦ rw fits (record {
      done = [];
      spared = ns ∷ worst;
      split = refl;
      in_log = refl;
      while_over = tt;
      enough = inr (ground arith);
    })
  ]

  -- The rounds end when there is no victim or the size is within the limit; else a round deletes files
  -- none of which weighs less than one that it spares.
  abbrev pub Trims : ℕ → List NameAndSize → Unlinked → Option Unlinked → Type 0
  Trims cur worst log none = (worst ≡ []) ⊎ (cur ≤ cap)
  Trims cur worst log (some after) =
      (cap < cur) × (stops : Stops (reverse worst) cur log after) × Outweigh stops.done stops.spared

  round-Trims :
      (cur : ℕ) (worst : List NameAndSize) (log : Unlinked)
      → Sorted worst
      → Trims cur worst log (trim_round unlink cap (cur, worst) log)
  unfolding trim_round
  round-Trims cur [] log s = inl refl
  round-Trims cur (ns ∷ worst) log s = elim (Bool-cases (leb cur cap)) [
    | inl fits ↦ rw fits (inr (ground arith))
    | inr over ↦
        (let stops = delete_worst-Stops (reverse (ns ∷ worst)) cur log in
          rw over (
            ground arith,
            stops,
            Descending-Outweigh stops.done stops.spared
                (subst Descending stops.split (reverse-Descending (ns ∷ worst) s)),
          ))
  ]

  -- A round after a scan deletes the victims of the scan from the heaviest one on, each while the size is
  -- over the limit: one is spared only when the size has come within it, and weighs no more than any that
  -- is deleted. No round follows when there is no victim or the size is within the limit.
  pub trim_round-Trims :
      (concat_path_file : Str → Str → Str) (preserve : List Str) (now : Str → ℕ) (dirname : Str)
      (nodes : Nodes) (log : Unlinked)
      → let scan = get_dir_size concat_path_file preserve now dirname nodes (0, []) in
        Trims scan.0 scan.1 log (trim_round unlink cap scan log)
  trim_round-Trims concat_path_file preserve now dirname nodes log =
      let scan = get_dir_size concat_path_file preserve now dirname nodes (0, []) in
      let (_, kept, ordered, _) =
        get_dir_size-victims concat_path_file preserve now dirname nodes in
      round-Trims scan.0 scan.1 log (subst Sorted (sym kept) (drop-Sorted _ _ ordered))
