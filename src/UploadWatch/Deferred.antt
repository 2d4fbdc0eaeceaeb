-- ===== src/UploadWatch/Deferred.antt =====
-- `struct queue` of src/daemon/abrt-upload-watch.c: names enter at the head and leave at the tail.
use abrt.Base.{
  ℕ, ◌≡◌, refl, ap, ◌⊎◌, inl, inr, Bool, true, false, List, [], ◌∷◌, ◌++◌, Option, none, some, leb,
  if◌then◌else◌, Str, length, arith,
}

pub record Queue : Type 0 where
  pub capacity : ℕ
  pub q : List Str

unfoldable pub queue_push : Queue → Str → Queue × Bool
queue_push queue value =
    if leb queue.capacity (length queue.q)
    then (queue, false)
    else (record queue { q = value ∷ queue.q }, true)

-- `g_queue_pop_tail`
unfoldable pub pop_tail : List Str → Option (Str × List Str)
pop_tail [] = none
pop_tail (x ∷ xs) = elim (pop_tail xs) [ none ↦ some (x, []) | some (y, ys) ↦ some (y, x ∷ ys) ]

unfoldable pub queue_pop : Queue → Option (Str × Queue)
unfolding pop_tail
queue_pop queue = elim (pop_tail queue.q) [
  | none ↦ none
  | some (value, rest) ↦ some (value, record queue { q = rest })
]

-- What `pop_tail` splits off.
abbrev pub Splits : List Str → Option (Str × List Str) → Type 0
Splits xs none = xs ≡ []
Splits xs (some (y, ys)) = xs ≡ ys ++ y ∷ []

pub pop_tail-Splits : (xs : List Str) → Splits xs (pop_tail xs)
unfolding pop_tail
pop_tail-Splits [] = refl
pop_tail-Splits (x ∷ xs) = step (pop_tail xs) refl (pop_tail-Splits xs)
  where
    step :
        (r : Option (Str × List Str))
        → pop_tail xs ≡ r
        → Splits xs r
        → Splits (x ∷ xs) (elim r [ none ↦ some (x, []) | some (y, ys) ↦ some (y, x ∷ ys) ])
    step none e s = ap (◌∷◌ x) s
    step (some (y, ys)) e s = ap (◌∷◌ x) s

-- The two outcomes of `queue_pop`.
pub queue_pop_cases :
    (queue : Queue)
    → ((queue.q ≡ []) × (queue_pop queue ≡ none))
      ⊎ ((y : Str) × (ys : List Str) × (queue.q ≡ ys ++ y ∷ [])
          × (queue_pop queue ≡ some (y, record queue { q = ys })))
unfolding queue_pop
queue_pop_cases queue = step (pop_tail queue.q) refl (pop_tail-Splits queue.q)
  where
    step :
        (r : Option (Str × List Str))
        → pop_tail queue.q ≡ r
        → Splits queue.q r
        → ((queue.q ≡ []) × (queue_pop queue ≡ none))
          ⊎ ((y : Str) × (ys : List Str) × (queue.q ≡ ys ++ y ∷ [])
              × (queue_pop queue ≡ some (y, record queue { q = ys })))
    step none e s = inl (s, rw (e, queue_pop))
    step (some (y, ys)) e s = inr (y, ys, s, rw (e, queue_pop))

pub pop_tail-append : (ys : List Str) (y : Str) → pop_tail (ys ++ y ∷ []) ≡ some (y, ys)
unfolding pop_tail
pop_tail-append [] y = refl
pop_tail-append (x ∷ ys) y = rw (pop_tail-append ys y)

pub queue_pop-append :
    (queue : Queue) (ys : List Str) (y : Str)
    → queue.q ≡ ys ++ y ∷ []
    → queue_pop queue ≡ some (y, record queue { q = ys })
unfolding queue_pop
queue_pop-append queue ys y e = ground (arith, ap pop_tail e, pop_tail-append ys y)
