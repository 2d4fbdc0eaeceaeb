-- ===== src/CoreHook/Identity.antt =====
-- Under whose identity the core file of a user is opened, and when it is emptied.
use abrt.Base.{
  ℕ, ◌≡◌, refl, Bool, true, false, not, ◌&&◌, ◌||◌, List, [], ◌∷◌, ◌++◌, Option, none, some,
  if◌then◌else◌, Str, arith, if_both, if_with,
}
use abrt.CoreHook.{
  Answers, Call, setegid, seteuid, open_file, truncate, UserCore, no_core, is_relative,
  is_sound_file, open_as_user, open_user_core,
}

-- The effective group and user
abbrev pub Ids : Type 0
Ids = ℕ × ℕ

abbrev pub after : Call → Ids → Ids
after (setegid gid) (group, user) = (gid, user)
after (seteuid uid) (group, user) = (group, uid)
after (open_file name) ids = ids
after truncate ids = ids

abbrev pub ids_after : List Call → Ids → Ids
ids_after [] ids = ids
ids_after (call ∷ calls) ids = ids_after calls (after call ids)

-- What has to hold when a call is made
abbrev pub IsFine : Answers → ℕ → ℕ → Bool → Call → Ids → Type 0
IsFine answers fsuid fsgid nonrelative (open_file name) ids =
    (ids ≡ (fsgid, fsuid)) × ((nonrelative && is_relative name) ≡ false)
IsFine answers fsuid fsgid nonrelative truncate ids = is_sound_file answers fsuid ≡ true
IsFine answers fsuid fsgid nonrelative _ ids = Unit

abbrev pub AllFine : Answers → ℕ → ℕ → Bool → List Call → Ids → Type 0
AllFine answers fsuid fsgid nonrelative [] ids = Unit
AllFine answers fsuid fsgid nonrelative (call ∷ calls) ids =
    IsFine answers fsuid fsgid nonrelative call ids
    × AllFine answers fsuid fsgid nonrelative calls (after call ids)

pub record IsGuarded (answers : Answers) (fsuid fsgid : ℕ) (nonrelative : Bool) (core : UserCore)
    : Type 0 where
  pub all_fine : AllFine answers fsuid fsgid nonrelative core.calls (0, 0)
  pub reverted : ids_after core.calls (0, 0) ≡ (0, 0)
  pub sound : core.opened ≡ true → is_sound_file answers fsuid ≡ true

module _ (answers : Answers) (fsuid fsgid : ℕ) (nonrelative : Bool) where
  as_user-IsGuarded :
      (name : Str) (enabled : Bool)
      → (nonrelative && is_relative name) ≡ false
      → IsGuarded answers fsuid fsgid nonrelative (open_as_user answers fsuid fsgid name enabled)
  unfolding open_as_user
  as_user-IsGuarded name enabled h = by_context (not enabled || answers.context_set)
    where
      opens : Bool → List Call
      opens tried =
          setegid fsgid
          ∷ seteuid fsuid
          ∷ (if tried
              then open_file name ∷ setegid 0 ∷ seteuid 0 ∷ []
              else setegid 0 ∷ seteuid 0 ∷ [])

      by_context :
          (tried : Bool)
          → IsGuarded answers fsuid fsgid nonrelative (
              if not (tried && answers.file_opened && (not enabled || answers.context_reset))
              then record { calls = opens tried; opened = false }
              else if not (is_sound_file answers fsuid)
              then record { calls = opens tried; opened = false }
              else record { calls = opens tried ++ truncate ∷ []; opened = answers.truncated })
      by_context false = record {
        all_fine = (tt, (tt, (tt, (tt, tt))));
        reverted = refl;
        sound = λ e. ground (arith, e);
      }
      by_context true =
          if_both (IsGuarded answers fsuid fsgid nonrelative)
            (not (true && answers.file_opened && (not enabled || answers.context_reset))) left_alone
            (if_with (IsGuarded answers fsuid fsgid nonrelative) (not (is_sound_file answers fsuid))
              (λ _. left_alone)
              (λ e.
                let sound : is_sound_file answers fsuid ≡ true = ground (arith, e) in
                record {
                  all_fine = (tt, (tt, ((refl, h), (tt, (tt, (sound, tt))))));
                  reverted = refl;
                  sound = λ _. sound;
                }))
        where
          left_alone :
              IsGuarded answers fsuid fsgid nonrelative
                (record { calls = opens true; opened = false })
          left_alone = record {
            all_fine = (tt, (tt, ((refl, h), (tt, (tt, tt)))));
            reverted = refl;
            sound = λ e. ground (arith, e);
          }

  none-IsGuarded : IsGuarded answers fsuid fsgid nonrelative no_core
  none-IsGuarded = record { all_fine = tt; reverted = refl; sound = λ e. ground (arith, e) }

  -- The core file of a user is opened with the effective user and group of the process, only by an
  -- absolute name where the policy for suid programs wants one, and it is emptied and used only if it is
  -- a regular file with one link that belongs to the user; the hook is root again at the end, whatever
  -- fails.
  pub open_user_core-IsGuarded :
      (name : Str)
      → IsGuarded answers fsuid fsgid nonrelative
          (open_user_core answers nonrelative fsuid fsgid name)
  unfolding open_user_core
  open_user_core-IsGuarded name =
      if_both (IsGuarded answers fsuid fsgid nonrelative) (not answers.cwd_opened) none-IsGuarded
        (by_selinux answers.selinux)
    where
      by_selinux :
          (o : Option Bool)
          → IsGuarded answers fsuid fsgid nonrelative (elim o [
            | none ↦ no_core
            | some enabled ↦
                if nonrelative && is_relative name
                then no_core
                else open_as_user answers fsuid fsgid name enabled
          ])
      by_selinux none = none-IsGuarded
      by_selinux (some enabled) =
          if_with (IsGuarded answers fsuid fsgid nonrelative) (nonrelative && is_relative name)
            (λ _. none-IsGuarded) (λ e. as_user-IsGuarded name enabled e)
