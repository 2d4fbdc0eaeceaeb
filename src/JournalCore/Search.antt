-- ===== src/JournalCore/Search.antt =====
-- The search in the ring.
use abrt.Base.{
  ℕ, zero, suc, ◌+◌, ◌-◌, ◌≤◌, ◌<◌, ◌≡◌, ◌≢◌, refl, sym, ap, ◌⊎◌, inl, inr, List, [], ◌∷◌, Option,
  none, some, leb, ◌==◌, if◌then◌else◌, Str, str_eq_iff, str_eq_refl, arith, Bool-cases, set,
  length, get_elem?-set_self, get_elem?-set_ne,
}
use abrt.JournalCore.{Occurrence, index_before, executable_at, stamp_at, visit, search, head_after}

pub executable_at-range :
    (slots : List Occurrence) (i : ℕ) {e : Str} → executable_at slots i ≡ some e → i < length slots
executable_at-range [] i h = ground arith
executable_at-range (o ∷ os) zero h = ground arith
executable_at-range (o ∷ os) (suc i) h = ground (arith, executable_at-range os i h)

module _ (size : ℕ) (e : Str) where
  pub search_hit :
      (slots : List Occurrence) (k i : ℕ) {j : ℕ}
      → search slots size e k i ≡ some j
      → executable_at slots j ≡ some e
  unfolding search visit
  search_hit slots zero i h = ground arith
  search_hit slots (suc k) i {j} h =
      step (executable_at slots i) refl (λ r. search_hit slots k (index_before size i) r)
    where
      step :
          (o : Option Str)
          → executable_at slots i ≡ o
          → (search slots size e k (index_before size i) ≡ some j → executable_at slots j ≡ some e)
          → executable_at slots j ≡ some e
      step none q ih = ground arith
      step (some found) q ih = ground (arith, str_eq_iff e found)

  pub search_empty :
      (slots : List Occurrence) (k i : ℕ)
      → ((j : ℕ) → executable_at slots j ≡ none)
      → search slots size e k i ≡ none
  unfolding search visit
  search_empty slots zero i h = refl
  search_empty slots (suc k) i h = rw (h i) refl

  -- Only the names matter.
  pub search_same :
      (slots slots' : List Occurrence) (k i : ℕ)
      → ((j : ℕ) → executable_at slots' j ≡ executable_at slots j)
      → search slots' size e k i ≡ search slots size e k i
  unfolding search
  search_same slots slots' zero i h = refl
  search_same slots slots' (suc k) i h =
      rw (h i, search_same slots slots' k (index_before size i) h)

  -- How many rounds until the search comes to `h`.
  abbrev pub distance : ℕ → ℕ → ℕ
  distance h i = if leb h i then i - h else i + size - h

  pub search_skip :
      (slots slots' : List Occurrence) (h k i : ℕ)
      → ((j : ℕ) → j ≢ h → executable_at slots' j ≡ executable_at slots j)
      → h < size
      → i < size
      → k ≤ distance h i
      → search slots' size e k i ≡ search slots size e k i
  unfolding search index_before
  search_skip slots slots' h zero i a p q d = refl
  search_skip slots slots' h (suc k) i a p q d = rw (
    a i (ground arith),
    search_skip slots slots' h k (index_before size i) a p (ground arith) (ground arith),
  )

  -- What one round more may find is what stands where it ends.
  pub search_last :
      (slots : List Occurrence) (h k i : ℕ)
      → h < size
      → i < size
      → distance h i ≡ k
      → (search slots size e (suc k) i ≡ search slots size e k i)
        ⊎ ((search slots size e k i ≡ none) × (executable_at slots h ≡ some e))
  unfolding search
  search_last slots h zero i p q d = at_end (executable_at slots i) refl (ground arith)
    where
      at_end :
          (o : Option Str)
          → executable_at slots i ≡ o
          → i ≡ h
          → (visit e i o none ≡ none)
            ⊎ ((◌≡◌ {A = Option ℕ} none none) × (executable_at slots h ≡ some e))
      at_end none c same = unfold visit in inl refl
      at_end (some found) c same = unfold visit in ground (arith, str_eq_iff e found)
  search_last slots h (suc k) i p q d = step (executable_at slots i) (
      search_last slots h k (index_before size i) p (unfold index_before in ground arith)
        (unfold index_before in ground arith))
    where
      step :
          (o : Option Str)
          → (search slots size e (suc k) (index_before size i)
              ≡ search slots size e k (index_before size i))
            ⊎ ((search slots size e k (index_before size i) ≡ none)
                × (executable_at slots h ≡ some e))
          → (visit e i o (search slots size e (suc k) (index_before size i))
              ≡ visit e i o (search slots size e k (index_before size i)))
            ⊎ ((visit e i o (search slots size e k (index_before size i)) ≡ none)
                × (executable_at slots h ≡ some e))
      step o (inl same) = inl (ap (visit e i o) same)
      step none (inr (missed, there)) = unfold visit in inl refl
      step (some found) (inr (missed, there)) = unfold visit in ground arith

module _ (slots : List Occurrence) (i : ℕ) (o : Occurrence) where
  pub executable_at_self : i < length slots → executable_at (set slots i o) i ≡ o.executable
  executable_at_self h = rw (executable_at, get_elem?-set_self slots i o h) refl

  pub stamp_at_self : i < length slots → stamp_at (set slots i o) i ≡ o.stamp
  stamp_at_self h = rw (stamp_at, get_elem?-set_self slots i o h) refl

  pub executable_at_other :
      (j : ℕ) → j ≢ i → executable_at (set slots i o) j ≡ executable_at slots j
  executable_at_other j h =
      rw (executable_at, executable_at, get_elem?-set_ne slots o (λ e. h (sym e))) refl

  pub stamp_at_other : (j : ℕ) → j ≢ i → stamp_at (set slots i o) j ≡ stamp_at slots j
  stamp_at_other j h = rw (stamp_at, stamp_at, get_elem?-set_ne slots o (λ e. h (sym e))) refl

abbrev pub restamp : List Occurrence → ℕ → ℕ → Occurrence
restamp slots i ts = record { stamp = ts; executable = executable_at slots i }

-- A stamp alone changes no name.
pub restamped :
    (slots : List Occurrence) (i ts j : ℕ) {e : Str}
    → executable_at slots i ≡ some e
    → executable_at (set slots i (restamp slots i ts)) j ≡ executable_at slots j
restamped slots i ts j there = elim (Bool-cases (j == i)) [
  | inl same ↦ at_self (ground arith)
  | inr other ↦ executable_at_other slots i _ j (ground arith)
]
  where
    at_self : j ≡ i → executable_at (set slots i (restamp slots i ts)) j ≡ executable_at slots j
    at_self q = rw q (executable_at_self slots i _ (executable_at-range slots i there))

pub index_before-head_after : (size h : ℕ) → h < size → index_before size (head_after size h) ≡ h
unfolding index_before head_after
index_before-head_after size h p = ground arith

pub same_name : (e : Str) (r : Option ℕ) (i : ℕ) → visit e i (some e) r ≡ some i
unfolding visit
same_name e r i = ground (arith, str_eq_refl e)

pub other_name : (e e2 : Str) (r : Option ℕ) (i : ℕ) → e ≢ e2 → visit e2 i (some e) r ≡ r
unfolding visit
other_name e e2 r i h = ground (arith, str_eq_iff e2 e)

pub search_first :
    (slots : List Occurrence) (size : ℕ) (e : Str) (n i : ℕ)
    → 0 < n
    → search slots size e n i
      ≡ visit e i (executable_at slots i) (search slots size e (n - 1) (index_before size i))
unfolding search
search_first slots size e zero i h = absurd (omega arith)
search_first slots size e (suc n) i h =
    ap (λ m. visit e i (executable_at slots i) (search slots size e m (index_before size i)))
      (omega arith)
