-- ===== src/CoreHook/Tests.antt =====
-- Patterns, core files and crashes, and the theorems about them at concrete ones.
use abrt.Base.{
  ◌≡◌, refl, true, false, List, [], ◌∷◌, none, some, Str, codes, str_eq, starts_with, arith,
  if◌then◌else◌,
}
use abrt.UploadWatch.{strrchr}
use abrt.CoreHook.{
  specifier_of, specifier_value, value_of, replaced, expand_at, expand_loop, core_name, expanded,
  null_used, Answers, setegid, seteuid, open_file, truncate, open_as_user, open_user_core,
  splice_entire_per_partes, is_path_ignored, is_user_allowed, is_user_in_allowed_group,
}
use abrt.CoreHook.Pattern.{expand, expand_loop-expand}
use abrt.CoreHook.Identity.{IsGuarded, open_user_core-IsGuarded}
use abrt.CoreHook.Decision.{
  Settings, Crash, ignored, refused_user, user_core_only, abrt_core, problem_dir, is_allowed,
  name_behind, begins_abrt, decide_executable, decide, core_owner,
}

-- What the hook is installed with: %s %c %p %u %g %t %P %I
abbrev values : List Str
values =
    codes "11"
    ∷ codes "0"
    ∷ codes "42"
    ∷ codes "1000"
    ∷ codes "100"
    ∷ codes "9"
    ∷ codes "43"
    ∷ codes "44"
    ∷ []

core_name-values :
    (core_name values false (codes "42") (codes "c.%p.%%.%x%") ≡ expanded (codes "c.42.%.%x%"))
    × (core_name values true (codes "42") (codes "core") ≡ expanded (codes "core.42"))
    × (core_name values true (codes "42") (codes "c.%e") ≡ expanded (codes "c.43"))
    × (core_name values true (codes "42") (codes "c.%i") ≡ null_used)
    × (core_name values true (codes "42") (codes "c.%P") ≡ expanded (codes "c.44"))
unfolding core_name expand_loop expand_at replaced value_of specifier_value specifier_of str_eq
core_name-values = (refl, refl, refl, refl, refl)

expand_loop-expand_example :
    expand_loop 8 values (codes "c.%p.%%") 0 ≡ expand values (codes "c.%p.%%")
expand_loop-expand_example = expand_loop-expand values 8 (codes "c.%p.%%") (omega arith)

abbrev good : Answers
good = record {
  cwd_opened = true;
  selinux = some true;
  context_set = true;
  context_reset = true;
  file_opened = true;
  regular = true;
  links = 1;
  owner = 1000;
  truncated = true;
}

open_user_core-good :
    ((open_user_core good false 1000 100 (codes "core")).calls
      ≡ setegid 100
        ∷ seteuid 1000
        ∷ open_file (codes "core")
        ∷ setegid 0
        ∷ seteuid 0
        ∷ truncate
        ∷ [])
    × ((open_user_core (record good { links = 2 }) false 1000 100 (codes "core")).opened ≡ false)
    × ((open_user_core good true 0 100 (codes "core")).calls ≡ [])
unfolding open_user_core open_as_user
open_user_core-good = (refl, refl, refl)

open_user_core-IsGuarded_example :
    IsGuarded good 1000 100 false (open_user_core good false 1000 100 (codes "core"))
open_user_core-IsGuarded_example = open_user_core-IsGuarded good 1000 100 false (codes "core")

splice_entire_per_partes-results :
    (splice_entire_per_partes (some 5 ∷ some 5 ∷ some 0 ∷ some 5 ∷ []) 0 65536 100 ≡ some 10)
    × (splice_entire_per_partes (some 5 ∷ some 5 ∷ some 5 ∷ []) 0 65536 10 ≡ some 10)
    × (splice_entire_per_partes (some 5 ∷ none ∷ []) 0 65536 100 ≡ none)
unfolding splice_entire_per_partes
splice_entire_per_partes-results = (refl, refl, refl)

abbrev settings : Settings
settings = record {
  debug_level = 0;
  standalone_hook = false;
  ignored_paths = codes "/usr/bin/ignored" ∷ [];
  allowed_users = codes "root" ∷ codes "ann" ∷ [];
  allowed_groups = [];
  max_crash_reports_size = 1000;
}

abbrev crash : Crash
crash = record {
  uid = 1000;
  executable = some (codes "/usr/bin/will");
  is_hook = λ _. false;
  recent = false;
  fatal_signal = true;
  daemon_ok = true;
  low_space = false;
  short_path = true;
  fnmatch = str_eq;
  getpwnam = λ name. if str_eq name (codes "ann") then some 1000 else none;
  getgrnam = λ _. none;
  uid_in_group = λ _ _. false;
}

decide-crash :
    (decide settings crash ≡ problem_dir)
    × (decide settings (record crash { uid = 1001 }) ≡ refused_user)
    × (decide settings (record crash { recent = true }) ≡ user_core_only)
    × (decide settings (record crash { executable = some (codes "/usr/bin/abrtd") }) ≡ ignored)
    × (decide
          (record settings { debug_level = 1 })
          (record crash { executable = some (codes "/usr/bin/abrtd") })
        ≡ abrt_core)
    × (core_owner 1000 0 false ≡ (0, true))
unfolding decide decide_executable is_path_ignored is_user_allowed is_user_in_allowed_group
    is_allowed name_behind begins_abrt strrchr str_eq starts_with core_owner
decide-crash = (refl, refl, refl, refl, refl, refl)
