-- ===== src/JournalCore/Ring.antt =====
-- What the ring remembers.
use abrt.Base.{
  ℕ, suc, ◌-◌, ◌<◌, ◌≡◌, ◌≢◌, refl, sym, ap, ◌∙◌, ◌⊎◌, inl, inr, Option, none, some, Str, arith,
  set, length, length-set,
}
use abrt.JournalCore.{
  Occurrence, OccurrenceQueue, index_before, executable_at, visit, search, stamp_of,
  get_last_occurrence, head_after, put_at_head, stamp_or_put, update_occurrence,
}
use abrt.JournalCore.Search.{
  executable_at-range, search_hit, search_empty, search_same, search_skip, search_last,
  executable_at_self, stamp_at_self, executable_at_other, stamp_at_other, restamp, restamped,
  index_before-head_after, same_name, other_name, search_first,
}

pub record IsRing (q : OccurrenceQueue) : Type 0 where
  pub sized : length q.occurrences ≡ q.size
  pub has_slots : 0 < q.size
  pub in_range : (h : ℕ) → q.head ≡ some h → h < q.size
  pub fresh : q.head ≡ none → (i : ℕ) → executable_at q.occurrences i ≡ none

abbrev stamped : Str → ℕ → Occurrence
stamped e ts = record { stamp = ts; executable = some e }

module _ (q : OccurrenceQueue) (v : IsRing q) (h : ℕ) (p : h < q.size) (e : Str) (ts : ℕ) where
  name_at_head : executable_at (set q.occurrences h (stamped e ts)) h ≡ some e
  name_at_head = executable_at_self q.occurrences h _ (ground (arith, v.sized))

  put_get : get_last_occurrence (put_at_head q h e ts) e ≡ ts
  unfolding get_last_occurrence put_at_head stamp_of
  put_get =
      rw
        (
          index_before-head_after q.size h p,
          search_first (set q.occurrences h (stamped e ts)) q.size e q.size h v.has_slots,
          name_at_head,
          same_name e
              (search (set q.occurrences h (stamped e ts)) q.size e (q.size - 1)
                (index_before q.size h))
              h,
        )
        (stamp_at_self q.occurrences h (stamped e ts) (ground (arith, v.sized)))

  module _ (e2 : Str) (other : e ≢ e2) where
    old_stamp :
        (k i : ℕ) (r : Option ℕ)
        → search (set q.occurrences h (stamped e ts)) q.size e2 k i ≡ r
        → stamp_of (set q.occurrences h (stamped e ts)) r ≡ stamp_of q.occurrences r
    unfolding stamp_of
    old_stamp k i none c = refl
    old_stamp k i (some j) c = stamp_at_other q.occurrences h (stamped e ts) j (λ same.
        (let there = search_hit q.size e2 (set q.occurrences h (stamped e ts)) k i c in
          other (ground (arith, name_at_head, there, same))))

    searched :
        search (set q.occurrences h (stamped e ts)) q.size e2 q.size h
        ≡ search q.occurrences q.size e2 (q.size - 1) (index_before q.size h)
    searched =
        search_first (set q.occurrences h (stamped e ts)) q.size e2 q.size h v.has_slots
        ∙ ap
            (λ n. visit e2 h n (
              search (set q.occurrences h (stamped e ts)) q.size e2 (q.size - 1)
                (index_before q.size h)))
            name_at_head
        ∙ other_name e e2 _ h other
        ∙ search_skip q.size e2 q.occurrences (set q.occurrences h (stamped e ts)) h (q.size - 1)
            (index_before q.size h) (λ j n. executable_at_other q.occurrences h (stamped e ts) j n)
            p (unfold index_before in ground arith) (unfold index_before in ground arith)

    put_get_value :
        get_last_occurrence (put_at_head q h e ts) e2
        ≡ stamp_of q.occurrences
            (search q.occurrences q.size e2 (q.size - 1) (index_before q.size h))
    unfolding get_last_occurrence put_at_head
    put_get_value =
        rw (index_before-head_after q.size h p)
          (old_stamp q.size h _ refl ∙ ap (stamp_of q.occurrences) searched)

    put_other :
        (get_last_occurrence (put_at_head q h e ts) e2
          ≡ stamp_of q.occurrences (search q.occurrences q.size e2 q.size (index_before q.size h)))
        ⊎ ((get_last_occurrence (put_at_head q h e ts) e2 ≡ 0)
            × (executable_at q.occurrences h ≡ some e2))
    put_other =
        let size_eq : suc (q.size - 1) ≡ q.size = (let z = v.has_slots in omega arith) in
        elim (search_last q.size e2 q.occurrences h (q.size - 1) (index_before q.size h) p
          (unfold index_before in ground arith) (unfold index_before in ground arith)) [
            | inl same ↦ inl (
                put_get_value
                ∙ ap (stamp_of q.occurrences) (
                    sym same
                    ∙ ap (λ m. search q.occurrences q.size e2 m (index_before q.size h)) size_eq))
            | inr (missed, there) ↦ inr (
              put_get_value ∙ ap (stamp_of q.occurrences) missed ∙ (unfold stamp_of in refl),
              there,
            )
          ]

module _ (q : OccurrenceQueue) (v : IsRing q) (e : Str) (ts : ℕ) where
  found_get :
      (h j : ℕ)
      → h < q.size
      → search q.occurrences q.size e q.size (index_before q.size h) ≡ some j
      → q.head ≡ some h
      → get_last_occurrence (stamp_or_put q h e ts (some j)) e ≡ ts
  unfolding get_last_occurrence stamp_or_put stamp_of
  found_get h j p c r =
      let there = search_hit q.size e q.occurrences q.size (index_before q.size h) c in
      rw
        (
          r,
          search_same q.size e q.occurrences (set q.occurrences j (restamp q.occurrences j ts))
              q.size (index_before q.size h) (λ i. restamped q.occurrences j ts i there),
          c,
        )
        (stamp_at_self q.occurrences j (restamp q.occurrences j ts)
          (executable_at-range q.occurrences j there))

  -- What was stored last is what is found.
  pub get-update : get_last_occurrence (update_occurrence q e ts) e ≡ ts
  unfolding update_occurrence
  get-update = at_head q.head refl
    where
      at_head :
          (o : Option ℕ)
          → q.head ≡ o
          → get_last_occurrence
              (elim o [
                | none ↦ put_at_head q 0 e ts
                | some head ↦
                    stamp_or_put q head e ts
                      (search q.occurrences q.size e q.size (index_before q.size head))
              ])
              e
            ≡ ts
      at_head none r = put_get q v 0 v.has_slots e ts
      at_head (some h) r =
          by_search (search q.occurrences q.size e q.size (index_before q.size h)) refl
        where
          by_search :
              (o : Option ℕ)
              → search q.occurrences q.size e q.size (index_before q.size h) ≡ o
              → get_last_occurrence (stamp_or_put q h e ts o) e ≡ ts
          by_search none c = unfold stamp_or_put in put_get q v h (v.in_range h r) e ts
          by_search (some j) c = found_get h j (v.in_range h r) c r

  found_other :
      (h j : ℕ) (e2 : Str)
      → e ≢ e2
      → search q.occurrences q.size e q.size (index_before q.size h) ≡ some j
      → q.head ≡ some h
      → get_last_occurrence (stamp_or_put q h e ts (some j)) e2
        ≡ stamp_of q.occurrences (search q.occurrences q.size e2 q.size (index_before q.size h))
  unfolding get_last_occurrence stamp_or_put
  found_other h j e2 other c r =
      let there = search_hit q.size e q.occurrences q.size (index_before q.size h) c in
      rw
        (
          r,
          search_same q.size e2 q.occurrences (set q.occurrences j (restamp q.occurrences j ts))
              q.size (index_before q.size h) (λ i. restamped q.occurrences j ts i there),
        )
        (old (search q.occurrences q.size e2 q.size (index_before q.size h)) refl there)
    where
      old :
          (o : Option ℕ)
          → search q.occurrences q.size e2 q.size (index_before q.size h) ≡ o
          → executable_at q.occurrences j ≡ some e
          → stamp_of (set q.occurrences j (restamp q.occurrences j ts)) o ≡ stamp_of q.occurrences o
      old none d there = unfold stamp_of in refl
      old (some i) d there =
          unfold stamp_of in
          stamp_at_other q.occurrences j (restamp q.occurrences j ts) i (λ same.
            (let found = search_hit q.size e2 q.occurrences q.size (index_before q.size h) d in
              other (ground (arith, there, found, same))))

  -- The others keep their times; only one that stands at the head, the oldest, may be forgotten.
  pub get-update_other :
      (e2 : Str)
      → e ≢ e2
      → (get_last_occurrence (update_occurrence q e ts) e2 ≡ get_last_occurrence q e2)
        ⊎ ((get_last_occurrence (update_occurrence q e ts) e2 ≡ 0)
            × ((h : ℕ) → q.head ≡ some h → executable_at q.occurrences h ≡ some e2))
  unfolding update_occurrence get_last_occurrence
  get-update_other e2 other = at_head q.head refl
    where
      at_head :
          (o : Option ℕ)
          → q.head ≡ o
          → (get_last_occurrence
                (elim o [
                  | none ↦ put_at_head q 0 e ts
                  | some head ↦
                      stamp_or_put q head e ts
                        (search q.occurrences q.size e q.size (index_before q.size head))
                ])
                e2
              ≡ elim o [
                | none ↦ 0
                | some head ↦
                    stamp_of q.occurrences
                      (search q.occurrences q.size e2 q.size (index_before q.size head))
              ])
            ⊎ ((get_last_occurrence
                    (elim o [
                      | none ↦ put_at_head q 0 e ts
                      | some head ↦
                          stamp_or_put q head e ts
                            (search q.occurrences q.size e q.size (index_before q.size head))
                    ])
                    e2
                  ≡ 0)
                × ((h : ℕ) → o ≡ some h → executable_at q.occurrences h ≡ some e2))
      at_head none r = inl (
          put_get_value q v 0 v.has_slots e ts e2 other
          ∙ ap (stamp_of q.occurrences) (search_empty q.size e2 q.occurrences _ _ (v.fresh r))
          ∙ (unfold stamp_of in refl))
      at_head (some h) r =
          by_search (search q.occurrences q.size e q.size (index_before q.size h)) refl
        where
          by_search :
              (o : Option ℕ)
              → search q.occurrences q.size e q.size (index_before q.size h) ≡ o
              → (get_last_occurrence (stamp_or_put q h e ts o) e2
                  ≡ stamp_of q.occurrences
                      (search q.occurrences q.size e2 q.size (index_before q.size h)))
                ⊎ ((get_last_occurrence (stamp_or_put q h e ts o) e2 ≡ 0)
                    × ((i : ℕ) → some h ≡ some i → executable_at q.occurrences i ≡ some e2))
          by_search none c =
              unfold stamp_or_put in
              elim (put_other q v h (v.in_range h r) e ts e2 other) [
                | inl same ↦ inl same
                | inr (gone, there) ↦ inr (gone, λ i s. ground (arith, there))
              ]
          by_search (some j) c = inl (found_other h j e2 other c r)

pub update-IsRing :
    (q : OccurrenceQueue) (e : Str) (ts : ℕ) → IsRing q → IsRing (update_occurrence q e ts)
unfolding update_occurrence
update-IsRing q e ts v = at_head q.head refl
  where
    put : (h : ℕ) → h < q.size → IsRing (put_at_head q h e ts)
    put h p =
        unfold put_at_head in
        unfold head_after in
        record {
          sized = length-set q.occurrences h (stamped e ts) ∙ v.sized;
          has_slots = v.has_slots;
          in_range = λ i s. (let z = v.has_slots in ground arith);
          fresh = λ s. ground arith;
        }

    at_head :
        (o : Option ℕ)
        → q.head ≡ o
        → IsRing (elim o [
          | none ↦ put_at_head q 0 e ts
          | some head ↦
              stamp_or_put q head e ts
                (search q.occurrences q.size e q.size (index_before q.size head))
        ])
    at_head none r = put 0 v.has_slots
    at_head (some h) r = by_search (search q.occurrences q.size e q.size (index_before q.size h))
      where
        by_search : (o : Option ℕ) → IsRing (stamp_or_put q h e ts o)
        by_search none = unfold stamp_or_put in put h (v.in_range h r)
        by_search (some j) =
            unfold stamp_or_put in
            record {
              sized = length-set q.occurrences j (restamp q.occurrences j ts) ∙ v.sized;
              has_slots = v.has_slots;
              in_range = v.in_range;
              fresh = λ s. ground (arith, r, s);
            }
