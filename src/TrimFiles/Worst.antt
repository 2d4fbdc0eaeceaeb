-- ===== src/TrimFiles/Worst.antt =====
-- The list of victims holds the worst files, in order.
use abrt.Base.{
  ℕ, zero, suc, ◌+◌, ◌-◌, ◌≤◌, ◌≡◌, refl, sym, ap, ◌∙◌, inl, inr, true, false, ◌||◌, List, [], ◌∷◌,
  ltb, leb, arith, Bool-cases, length, drop,
}
use abrt.TrimFiles.{
  NameAndSize, max_victim_list_size, insert_sorted, passed_first, delete_first,
  insert_name_and_sizes,
}

abbrev pub Least : ℕ → List NameAndSize → Type 0
Least w [] = Unit
Least w (ns ∷ list) = (w ≤ ns.weight) × Least w list

abbrev pub Sorted : List NameAndSize → Type 0
Sorted [] = Unit
Sorted (ns ∷ list) = Least ns.weight list × Sorted list

-- The last `n`
abbrev pub last : ℕ → List NameAndSize → List NameAndSize
last n list = drop (length list - n) list

-- All files that were found, sorted, and the list that the code keeps.
abbrev pub sort_all : List NameAndSize → List NameAndSize → List NameAndSize
sort_all [] list = list
sort_all (ns ∷ found) list = sort_all found (insert_sorted list ns)

abbrev pub keep_all : List NameAndSize → List NameAndSize → List NameAndSize
keep_all [] list = list
keep_all (ns ∷ found) list = keep_all found (insert_name_and_sizes list ns)

Least-weaken : (v w : ℕ) (list : List NameAndSize) → v ≤ w → Least w list → Least v list
Least-weaken v w [] h a = tt
Least-weaken v w (ns ∷ list) h a = (omega (arith, a.0), Least-weaken v w list h a.1)

length-insert_sorted :
    (list : List NameAndSize) (ns : NameAndSize) → length (insert_sorted list ns) ≡ length list + 1
unfolding insert_sorted
length-insert_sorted [] ns = omega arith
length-insert_sorted (cur ∷ list) ns = ground (arith, length-insert_sorted list ns)

insert_sorted-Least :
    (w : ℕ) (list : List NameAndSize) (ns : NameAndSize)
    → w ≤ ns.weight
    → Least w list
    → Least w (insert_sorted list ns)
unfolding insert_sorted
insert_sorted-Least w [] ns h a = (h, tt)
insert_sorted-Least w (cur ∷ list) ns h a = ground (arith, insert_sorted-Least w list ns h a.1)

insert_sorted-Sorted :
    (list : List NameAndSize) (ns : NameAndSize) → Sorted list → Sorted (insert_sorted list ns)
unfolding insert_sorted
insert_sorted-Sorted [] ns s = (tt, tt)
insert_sorted-Sorted (cur ∷ list) ns s = elim (Bool-cases (ltb cur.weight ns.weight)) [
  | inl less ↦
      rw less (
        insert_sorted-Least cur.weight list ns (ground arith) s.0,
        insert_sorted-Sorted list ns s.1,
      )
  | inr more ↦
      rw more (((ground arith), Least-weaken ns.weight cur.weight list (ground arith) s.0), s)
]

pub drop-Sorted : (n : ℕ) (list : List NameAndSize) → Sorted list → Sorted (drop n list)
drop-Sorted zero list s = s
drop-Sorted (suc n) [] s = tt
drop-Sorted (suc n) (ns ∷ list) s = drop-Sorted n list s.1

drop-Least : (w n : ℕ) (list : List NameAndSize) → Least w list → Least w (drop n list)
drop-Least w zero list a = a
drop-Least w (suc n) [] a = tt
drop-Least w (suc n) (ns ∷ list) a = drop-Least w n list a.1

-- Below all others the new one comes first.
insert_sorted_below :
    (list : List NameAndSize) (ns : NameAndSize)
    → Least ns.weight list
    → insert_sorted list ns ≡ ns ∷ list
unfolding insert_sorted
insert_sorted_below [] ns a = refl
insert_sorted_below (cur ∷ list) ns a = ground (arith, a.0)

last_all : (n : ℕ) (list : List NameAndSize) → length list ≤ n → last n list ≡ list
last_all n list h = let e : length list - n ≡ 0 = omega arith in ap (λ k. drop k list) e

last_behind :
    (n : ℕ) (ns : NameAndSize) (list : List NameAndSize)
    → n ≤ length list
    → last n (ns ∷ list) ≡ last n list
last_behind n ns list h =
    let e : suc (length list) - n ≡ suc (length list - n) = omega arith in
    ap (λ k. drop k (ns ∷ list)) e

length-last : (n : ℕ) (list : List NameAndSize) → n ≤ length list → length (last n list) ≡ n
length-last n list h = length_dropped (length list - n) list (omega arith) ∙ (omega arith)
  where
    length_dropped :
        (k : ℕ) (xs : List NameAndSize) → k ≤ length xs → length (drop k xs) ≡ length xs - k
    length_dropped zero xs p = omega arith
    length_dropped (suc k) [] p = absurd (omega arith)
    length_dropped (suc k) (x ∷ xs) p = omega (arith, length_dropped k xs (omega arith))

-- What is not among the last `n` never comes back.
insert_last :
    (n : ℕ) (list : List NameAndSize) (ns : NameAndSize)
    → Sorted list
    → last n (insert_sorted (last n list) ns) ≡ last n (insert_sorted list ns)
insert_last n [] ns s = ap (λ l. last n (insert_sorted l ns)) (last_all n [] (omega arith))
insert_last n (cur ∷ list) ns s = elim (Bool-cases (leb n (length list))) [
  | inr few ↦ ap (λ l. last n (insert_sorted l ns)) (last_all n (cur ∷ list) (ground arith))
  | inl many ↦
      ap (λ l. last n (insert_sorted l ns)) (last_behind n cur list (ground arith))
      ∙ place (insert_last n list ns s.1) (ground arith)
]
  where
    place :
        last n (insert_sorted (last n list) ns) ≡ last n (insert_sorted list ns)
        → n ≤ length list
        → last n (insert_sorted (last n list) ns) ≡ last n (insert_sorted (cur ∷ list) ns)
    place ih many = elim (Bool-cases (ltb cur.weight ns.weight)) [
      | inl less ↦
          ih
          ∙ sym (
              ap (last n) (step_less less)
              ∙ last_behind n cur (insert_sorted list ns)
                  (omega (arith, length-insert_sorted list ns)))
      | inr more ↦
          ap (last n) (
            insert_sorted_below (last n list) ns (
              drop-Least ns.weight _ list
                (Least-weaken ns.weight cur.weight list (ground arith) s.0)))
          ∙ last_behind n ns (last n list) (omega (arith, length-last n list many))
          ∙ last_all n (last n list) (omega (arith, length-last n list many))
          ∙ sym (
              ap (last n) (step_more more)
              ∙ last_behind n ns (cur ∷ list) (omega arith)
              ∙ last_behind n cur list many)
    ]
      where
        step_less :
            ltb cur.weight ns.weight ≡ true
            → insert_sorted (cur ∷ list) ns ≡ cur ∷ insert_sorted list ns
        step_less h = unfold insert_sorted in rw h

        step_more :
            ltb cur.weight ns.weight ≡ false → insert_sorted (cur ∷ list) ns ≡ ns ∷ cur ∷ list
        step_more h = unfold insert_sorted in rw h

not_passed-Least :
    (list : List NameAndSize) (w : ℕ) → Sorted list → passed_first list w ≡ false → Least w list
unfolding passed_first
not_passed-Least [] w s h = tt
not_passed-Least (first ∷ list) w s h =
    (ground arith, Least-weaken w first.weight list (ground arith) s.0)

delete_first-last :
    (list : List NameAndSize)
    → length list ≡ max_victim_list_size + 1
    → delete_first list ≡ last max_victim_list_size list
unfolding delete_first
delete_first-last [] h = absurd (omega arith)
delete_first-last (first ∷ list) h = sym (
    last_behind max_victim_list_size first list (omega arith)
    ∙ last_all max_victim_list_size list (omega arith))

-- The list of the code holds the last ones of the full list.
insert_name_and_sizes-last :
    (list : List NameAndSize) (ns : NameAndSize)
    → Sorted list
    → length list ≤ max_victim_list_size
    → insert_name_and_sizes list ns ≡ last max_victim_list_size (insert_sorted list ns)
unfolding insert_name_and_sizes
insert_name_and_sizes-last list ns s h =
    let grown = length-insert_sorted list ns in
    elim (Bool-cases (passed_first list ns.weight || ltb (length list) max_victim_list_size)) [
      | inl takes ↦ rw takes (elim (Bool-cases (ltb max_victim_list_size (length list + 1))) [
        | inl over ↦ rw over (delete_first-last (insert_sorted list ns) (ground arith))
        | inr fits ↦
            rw fits (sym (last_all max_victim_list_size (insert_sorted list ns) (ground arith)))
      ])
      | inr full ↦ rw full (sym (least (ground arith) (ground arith)))
    ]
  where
    least :
        passed_first list ns.weight ≡ false
        → length list ≡ max_victim_list_size
        → last max_victim_list_size (insert_sorted list ns) ≡ list
    least low size =
        ap (last max_victim_list_size)
          (insert_sorted_below list ns (not_passed-Least list ns.weight s low))
        ∙ last_behind max_victim_list_size ns list (omega arith)
        ∙ last_all max_victim_list_size list (omega arith)

keep_all-last :
    (found list : List NameAndSize)
    → Sorted list
    → keep_all found (last max_victim_list_size list)
      ≡ last max_victim_list_size (sort_all found list)
keep_all-last [] list s = refl
keep_all-last (ns ∷ found) list s =
    ap (keep_all found) (
      insert_name_and_sizes-last (last max_victim_list_size list) ns (drop-Sorted _ list s) short
      ∙ insert_last max_victim_list_size list ns s)
    ∙ keep_all-last found (insert_sorted list ns) (insert_sorted-Sorted list ns s)
  where
    short : length (last max_victim_list_size list) ≤ max_victim_list_size
    short = length_rest (length list - max_victim_list_size) list (omega arith)
      where
        length_rest :
            (k : ℕ) (xs : List NameAndSize)
            → length xs ≤ k + max_victim_list_size
            → length (drop k xs) ≤ max_victim_list_size
        length_rest zero xs p = omega arith
        length_rest (suc k) [] p = omega arith
        length_rest (suc k) (x ∷ xs) p = length_rest k xs (omega arith)

-- However many files a scan finds, the list that the code keeps is that of the 128 worst, the worst one
-- last: the end of the list of all of them, sorted by weight.
pub keep_all-sort_all :
    (found : List NameAndSize)
    → (keep_all found [] ≡ last max_victim_list_size (sort_all found []))
      × Sorted (sort_all found [])
keep_all-sort_all found = (keep_all-last found [] tt, sorted found [] tt)
  where
    sorted : (xs list : List NameAndSize) → Sorted list → Sorted (sort_all xs list)
    sorted [] list s = s
    sorted (ns ∷ xs) list s = sorted xs (insert_sorted list ns) (insert_sorted-Sorted list ns s)
