-- ===== src/TrimFiles/Sorting.antt =====
-- Sorting the files loses none of them.
use abrt.Base.{refl, subst, List, [], ◌∷◌, ◌++◌, ltb, Bool-cases, inl, inr, append-nil}
use mathlib.Core.List.{Permᴰ}
use abrt.TrimFiles.Worst.{sort_all}
use abrt.TrimFiles.{NameAndSize, insert_sorted}

Perm-refl : (list : List NameAndSize) → Permᴰ list list
Perm-refl [] = Permᴰ.nil
Perm-refl (x ∷ list) = Permᴰ.cons refl (Perm-refl list)

middle-Perm : (xs ys : List NameAndSize) (x : NameAndSize) → Permᴰ (xs ++ x ∷ ys) (x ∷ xs ++ ys)
middle-Perm [] ys x = Perm-refl (x ∷ ys)
middle-Perm (y ∷ xs) ys x =
    Permᴰ.trans (Permᴰ.cons refl (middle-Perm xs ys x)) (Permᴰ.swap refl refl)

insert_sorted-Perm :
    (list : List NameAndSize) (ns : NameAndSize) → Permᴰ (insert_sorted list ns) (ns ∷ list)
unfolding insert_sorted
insert_sorted-Perm [] ns = Perm-refl (ns ∷ [])
insert_sorted-Perm (cur ∷ list) ns = elim (Bool-cases (ltb cur.weight ns.weight)) [
  | inl less ↦
      rw less (Permᴰ.trans (Permᴰ.cons refl (insert_sorted-Perm list ns)) (Permᴰ.swap refl refl))
  | inr more ↦ rw more (Perm-refl (ns ∷ cur ∷ list))
]

sort_all-append :
    (found list list' : List NameAndSize)
    → Permᴰ list list'
    → Permᴰ (sort_all found list) (found ++ list')
sort_all-append [] list list' p = p
sort_all-append (ns ∷ found) list list' p =
    Permᴰ.trans
      (sort_all-append found (insert_sorted list ns) (ns ∷ list')
        (Permᴰ.trans (insert_sorted-Perm list ns) (Permᴰ.cons refl p)))
      (middle-Perm found list' ns)

pub sort_all-Perm : (found : List NameAndSize) → Permᴰ (sort_all found []) found
sort_all-Perm found =
    subst (Permᴰ (sort_all found [])) (append-nil found) (sort_all-append found [] [] Permᴰ.nil)
