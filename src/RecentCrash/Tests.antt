-- ===== src/RecentCrash/Tests.antt =====
-- Crashes after one another, and the theorem about them at concrete times.
use abrt.Base.{◌≡◌, ◌↔◌, refl, true, false, none, some, codes, str_eq, arith}
use abrt.RecentCrash.{Marker, check_recent_crash_file, check-repeated}

abbrev old : Marker
old = record { content = codes "/bin/a"; mtime = 100 }

check_recent_crash_file-old :
    (check_recent_crash_file true 119 (some 6) (codes "/bin/a") old ≡ (1, old))
    × (check_recent_crash_file true 120 (some 6) (codes "/bin/a") old
        ≡ (0, record { content = codes "/bin/a"; mtime = 120 }))
    × ((check_recent_crash_file true 110 (some 6) (codes "/bin/b") old).1.content ≡ codes "/bin/b")
    × ((check_recent_crash_file false 110 (some 6) (codes "/bin/a") old).0 ≡ 0)
unfolding check_recent_crash_file str_eq
check_recent_crash_file-old = (refl, refl, refl, refl)

check-repeated_example :
    ((check_recent_crash_file true 139 none
        (codes "/bin/b")
        (check_recent_crash_file true 120 (some 6) (codes "/bin/a") old).1).0
      ≡ 1)
    ↔ (codes "/bin/b" ≡ codes "/bin/a")
check-repeated_example =
    check-repeated 120 139 none (codes "/bin/a") (codes "/bin/b") old (ground arith) (omega arith)
      (omega arith) (unfold check_recent_crash_file in unfold str_eq in refl)
