-- ===== src/RecentCrash.antt =====
-- src/lib/check_recent_crash_file.c: the marker of the last crash, which the core hook and the server
-- ask whether a crash is a repeated one.
pub mod Tests
use abrt.Base.{
  ℕ, ◌≡◌, ◌≢◌, ◌↔◌, ◌⊎◌, refl, sym, ap, ◌∙◌, subst, Bool, true, false, not, ◌&&◌, List, [], ◌∷◌,
  ◌++◌, Option, none, some, ◌==◌, if◌then◌else◌, Str, str_eq, str_eq_iff, str_eq_refl, ltb, length,
  take, drop, ◌+◌, ◌-◌, ◌%◌, ◌≤◌, ◌<◌, arith, Bool-cases, inl, inr, if_both, if_with, zero, suc,
}

-- The content and the time of the last change
pub record Marker : Type 0 where
  pub content : Str
  pub mtime : ℕ

-- `(unsigned)(time(NULL) - sb.st_mtime)`, for times of 64 bits
abbrev pub age : ℕ → ℕ → ℕ
age now mtime = (now + 18446744073709551616 - mtime) % 4294967296

-- The comparison with the first `ex_len + 1` bytes of the file
abbrev pub is_same : Str → Str → Bool
is_same executable content =
    ltb 0 (length content) && str_eq executable (take (length executable + 1) content)

-- `written` is the result of write, none if it is negative.
pub overwritten : Str → ℕ → Option ℕ → Marker → Marker
overwritten executable now none marker = marker
overwritten executable now (some sz) marker = record { content = take sz executable; mtime = now }

-- The result, and the file. A new file has no content.
unfoldable pub check_recent_crash_file : Bool → ℕ → Option ℕ → Str → Marker → ℕ × Marker
unfolding overwritten
check_recent_crash_file opens now written executable marker =
    if not opens
    then (0, marker)
    else if not (length marker.content == 0)
        && ltb (age now marker.mtime) 20
        && is_same executable marker.content
    then (1, marker)
    else (0, overwritten executable now written marker)

take_whole : (s : Str) (n : ℕ) → length s ≤ n → take n s ≡ s
take_whole [] zero h = refl
take_whole [] (suc n) h = refl
take_whole (c ∷ s) zero h = ground (arith, h)
take_whole (c ∷ s) (suc n) h = ap (λ t. c ∷ t) (take_whole s n (ground (arith, h)))

fresh-marker :
    (now : ℕ) (executable : Str) (marker : Marker)
    → (check_recent_crash_file true now (some (length executable)) executable marker).0 ≡ 0
    → (check_recent_crash_file true now (some (length executable)) executable marker).1
      ≡ record { content = executable; mtime = now }
unfolding check_recent_crash_file overwritten
fresh-marker now executable marker =
    if_both (λ (r : ℕ × Marker). r.0 ≡ 0 → r.1 ≡ record { content = executable; mtime = now })
      (not (length marker.content == 0)
        && ltb (age now marker.mtime) 20
        && is_same executable marker.content)
      (λ h. ground (arith, h))
      (λ h.
        ap (λ s. record { content = s; mtime = now })
          (take_whole executable (length executable) (omega arith)))

take-same : (s t : Str) → take (length s + 1) t ≡ s → t ≡ s
take-same [] [] h = refl
take-same [] (c ∷ t) h = ground (arith, h)
take-same (c ∷ s) [] h = ground (arith, h)
take-same (c ∷ s) (d ∷ t) h =
    let tail : take (length s + 1) t ≡ s = ground (arith, h) in
    let head : d ≡ c = ground (arith, h) in λ i. head i ∷ take-same s t tail i

young : (now later : ℕ) → now ≤ later → later < now + 20 → ltb (age later now) 20 ≡ true
young now later h k =
    let same : age later now ≡ later - now = omega (arith, h, k) in ground (arith, same, h, k)

repeats :
    (now : ℕ) (written : Option ℕ) (executable : Str) (marker : Marker)
    → (check_recent_crash_file true now written executable marker).0 ≡ 1
    → is_same executable marker.content ≡ true
unfolding check_recent_crash_file
repeats now written executable marker =
    if_with (λ (r : ℕ × Marker). r.0 ≡ 1 → is_same executable marker.content ≡ true)
      (not (length marker.content == 0)
        && ltb (age now marker.mtime) 20
        && is_same executable marker.content)
      (λ t e. ground (arith, t)) (λ t e. ground (arith, e))

again :
    (now later : ℕ) (written : Option ℕ) (s : Str)
    → now ≤ later
    → later < now + 20
    → s ≢ []
    → (check_recent_crash_file true later written s (record { content = s; mtime = now })).0 ≡ 1
unfolding check_recent_crash_file
again now later written [] order soon h = absurd (h refl)
again now later written (c ∷ s) order soon h =
    rw
      (
        young now later order soon,
        take_whole (c ∷ s) (length (c ∷ s) + 1) (omega arith),
        str_eq_refl (c ∷ s),
      )
      (ground arith)

-- When a crash was not a repeated one and the marker was written, a crash within the next twenty
-- seconds is a repeated one exactly if it is of the same executable.
pub check-repeated :
    (now later : ℕ) (written : Option ℕ) (first second : Str) (marker : Marker)
    → first ≢ []
    → now ≤ later
    → later < now + 20
    → (check_recent_crash_file true now (some (length first)) first marker).0 ≡ 0
    → ((check_recent_crash_file true later written second
          (check_recent_crash_file true now (some (length first)) first marker).1).0
        ≡ 1)
      ↔ (second ≡ first)
check-repeated now later written first second marker some_first order soon fresh =
    rw (fresh-marker now first marker fresh) (by_same first some_first)
  where
    by_same :
        (s : Str)
        → s ≢ []
        → ((check_recent_crash_file true later written second
              (record { content = s; mtime = now })).0
            ≡ 1)
          ↔ (second ≡ s)
    by_same s h = (
      λ e. sym (
          take-same second s (
            sym (
              (str_eq_iff second (take (length second + 1) s)).0 (
                ground
                  (arith, repeats later written second (record { content = s; mtime = now }) e))))),
      λ e.
          subst
            (λ t.
              (check_recent_crash_file true later written t (record { content = s; mtime = now })).0
              ≡ 1)
            (sym e) (again now later written s order soon h),
    )
