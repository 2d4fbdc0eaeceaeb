-- ===== src/CoreHook/Decision.antt =====
-- src/hooks/abrt-hook-ccpp.c: what `main` does with a crash.
use abrt.Base.{
  ℕ, Bool, true, false, not, ◌&&◌, ◌||◌, List, [], ◌∷◌, Option, none, some, ◌==◌, if◌then◌else◌,
  Str, codes, starts_with, leb, ltb, drop,
}
use abrt.UploadWatch.{strrchr}
use abrt.CoreHook.{is_path_ignored, is_user_allowed, is_user_in_allowed_group}

pub record Settings : Type 0 where
  pub debug_level : ℕ
  pub standalone_hook : Bool
  pub ignored_paths : List Str
  pub allowed_users : List Str
  pub allowed_groups : List Str
  pub max_crash_reports_size : ℕ

-- The crash, and what the system answers about it
pub record Crash : Type 0 where
  pub uid : ℕ
  pub executable : Option Str
  pub is_hook : Str → Bool
  pub recent : Bool
  pub fatal_signal : Bool
  pub daemon_ok : Bool
  pub low_space : Bool
  pub short_path : Bool
  pub fnmatch : Str → Str → Bool
  pub getpwnam : Str → Option ℕ
  pub getgrnam : Str → Option ℕ
  pub uid_in_group : ℕ → ℕ → Bool

-- Nothing, the core file of the user alone, a mere file for a crash of ABRT, or a problem directory
pub data Outcome : Type 0 where
  ignored : Outcome
  refused_user : Outcome
  user_core_only : Outcome
  abrt_core : Outcome
  problem_dir : Outcome

abbrev pub is_set : List Str → Bool
is_set [] = false
is_set (name ∷ names) = true

unfoldable pub is_allowed : Settings → Crash → Bool
is_allowed settings crash =
    if is_set settings.allowed_users || is_set settings.allowed_groups
    then is_user_allowed crash.getpwnam crash.uid settings.allowed_users
      || is_user_in_allowed_group crash.getgrnam crash.uid_in_group crash.uid
          settings.allowed_groups
    else true

unfoldable pub name_behind : Option Str → Option Str
name_behind none = none
name_behind (some s) = some (drop 1 s)

unfoldable pub begins_abrt : Option Str → Bool
begins_abrt none = false
begins_abrt (some name) = starts_with (codes "abrt") name

abbrev pub is_abrt_crash : Str → Bool
is_abrt_crash executable = begins_abrt (name_behind (strrchr executable b'/'))

unfoldable pub decide_executable : Settings → Crash → Str → Outcome
decide_executable settings crash executable =
    if is_path_ignored crash.fnmatch settings.ignored_paths executable
    then ignored
    else if crash.is_hook executable
    then (if leb 100 settings.debug_level then abrt_core else ignored)
    else if crash.recent
    then user_core_only
    else if is_abrt_crash executable && (settings.debug_level == 0)
    then ignored
    else if not crash.fatal_signal
    then user_core_only
    else if not settings.standalone_hook && not crash.daemon_ok
    then user_core_only
    else if not (is_allowed settings crash)
    then refused_user
    else if ltb 0 settings.max_crash_reports_size && crash.low_space
    then user_core_only
    else if is_abrt_crash executable
    then abrt_core
    else if not crash.short_path
    then user_core_only
    else problem_dir

unfoldable pub decide : Settings → Crash → Outcome
decide settings crash = elim crash.executable [
  | none ↦ user_core_only
  | some executable ↦ decide_executable settings crash executable
]

-- The file system user, and whether the name must be absolute: a suid program's core belongs to root
-- unless the policy is `unsafe`.
unfoldable pub core_owner : ℕ → ℕ → Bool → ℕ × Bool
core_owner uid tmp_fsuid unsafe =
    if tmp_fsuid == uid then (uid, false) else if unsafe then (tmp_fsuid, false) else (0, true)
