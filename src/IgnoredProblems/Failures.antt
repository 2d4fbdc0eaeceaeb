-- ===== src/IgnoredProblems/Failures.antt =====
-- What is left of the list of ignored problems when a step of its change fails.
use abrt.Base.{
  ◌≡◌, refl, ap, ◌⊎◌, inl, inr, Bool, true, false, List, Option, none, some, Str, length, ◌+◌,
  Bool-cases,
}
use abrt.IgnoredProblems.{Problem, Files, Answers, unlink_new, replace_set}
use abrt.IgnoredProblems.Rows.{text_of, kept}

-- What is asked of `full_write`: it fails and writes nothing, or it writes a row whole.
abbrev pub WritesWhole : Answers → Type 0
WritesWhole answers =
    (row : Str) → (answers.writes row ≡ none) ⊎ (answers.writes row ≡ some (length row + 1))

abbrev Copied : Problem → List Str → Bool × Str → Type 0
Copied p rows (done, text) = done ≡ true → text ≡ text_of (kept p rows)

module _ (answers : Answers) (whole : WritesWhole answers) (p : Problem) where
  -- No temporary file stays but by a failing unlink, and the set is as before or has the rows that do not
  -- match.
  abbrev Outcome : (Str → List Str) → Option Str → Files → Type 0
  Outcome fgetlines before after =
      ((after.temporary ≡ none) ⊎ (answers.unlinks ≡ false))
      × ((after.ignored_set ≡ before)
          ⊎ ((text : Str) × (before ≡ some text)
              × (after.ignored_set ≡ some (text_of (kept p (fgetlines text))))))

  unlinked :
      (fgetlines : Str → List Str) (text : Str) (files : Files)
      → Outcome fgetlines files.ignored_set (unlink_new answers.unlinks text files)
  unlinked fgetlines text files = elim (Bool-cases answers.unlinks) [
    | inl u ↦ rw u (inl refl, inl refl)
    | inr u ↦ (inr u, inl refl)
  ]

  replaced :
      (fgetlines : Str → List Str) (text : Str) (c : Bool × Str) (files : Files)
      → Copied p (fgetlines text) c
      → files.ignored_set ≡ some text
      → Outcome fgetlines files.ignored_set (replace_set answers c files)
  unfolding replace_set
  replaced fgetlines text (false, rest) files c e = unlinked fgetlines rest files
  replaced fgetlines text (true, rest) files c e = elim (Bool-cases answers.renames) [
    | inl r ↦ rw r (inl refl, inr (text, e, ap some (c refl)))
    | inr r ↦ rw r (unlinked fgetlines rest files)
  ]
