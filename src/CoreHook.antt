-- ===== src/CoreHook.antt =====
-- src/hooks/abrt-hook-ccpp.c: the hook that the kernel runs for a crashed process. It opens the core
-- file of the user, and decides whether a crash is handled. The answers of the kernel, of libreport and
-- of the configuration are arguments.
pub mod Pattern
pub mod Identity
pub mod Decision
pub mod Tests
use abrt.Base.{
  ℕ, Bool, true, false, not, ◌&&◌, ◌||◌, List, [], ◌∷◌, ◌++◌, Option, none, some, is_some, ◌==◌,
  if◌then◌else◌, Str, codes, str_eq, starts_with, ltb, length, take, drop, get_elem?, ◌+◌, ◌-◌,
  zero, suc,
}

abbrev pub percent_specifiers : Str
percent_specifiers = codes "%scpugtePi"

-- `strchrnul(specifiers, c) - specifiers` for a `c` that is found
unfoldable pub specifier_of : ℕ → Str → Option ℕ
specifier_of c [] = none
specifier_of c (x ∷ s) =
    if x == c then some 0 else elim (specifier_of c s) [ none ↦ none | some n ↦ some (n + 1) ]

-- `percent_values[n]`: behind the values stands the null pointer that ends them.
abbrev pub nth_value : List Str → ℕ → Option Str
nth_value [] n = none
nth_value (v ∷ values) zero = some v
nth_value (v ∷ values) (suc n) = nth_value values n

-- What `%c` is replaced by: it is no specifier and stays, it has a value, or that is a null pointer.
pub data Replacement : Type 0 where
  verbatim : Replacement
  replacement : Str → Replacement
  null_value : Replacement

abbrev pub non_null : Option Str → Replacement
non_null none = null_value
non_null (some val) = replacement val

unfoldable pub specifier_value : List Str → Option ℕ → Replacement
specifier_value values none = verbatim
specifier_value values (some zero) = replacement (codes "%")
specifier_value values (some (suc n)) = non_null (nth_value values n)

-- The end of the pattern is none.
unfoldable pub value_of : List Str → Option ℕ → Replacement
unfolding specifier_value
value_of values none = verbatim
value_of values (some c) = specifier_value values (specifier_of c percent_specifiers)

-- The outcome of the loop: the text, or a null pointer that is passed to strlen
pub data Expansion : Type 0 where
  expanded : Str → Expansion
  null_used : Expansion
  out_of_rounds : Expansion

-- One round: the end, or the text and the index after a character that is copied, or after a specifier
-- that is replaced
pub data Step : Type 0 where
  ends : Expansion → Step
  goes_on : Str → ℕ → Step

unfoldable pub replaced : Str → ℕ → Replacement → Step
replaced name idx verbatim = goes_on name (idx + 1)
replaced name idx (replacement val) =
    goes_on (take idx name ++ (val ++ drop (idx + 2) name)) (idx + length val)
replaced name idx null_value = ends null_used

unfoldable pub expand_at : List Str → Str → ℕ → Option ℕ → Step
unfolding replaced
expand_at values name idx none = ends (expanded name)
expand_at values name idx (some c) =
    replaced name idx (if c == b'%' then value_of values (get_elem? name (idx + 1)) else verbatim)

-- The loop of `open_user_core` over `core_basename` from the index `idx` on. `fuel` bounds its rounds.
unfoldable pub expand_loop : ℕ → List Str → Str → ℕ → Expansion
unfolding expand_at
expand_loop zero values name idx = out_of_rounds
expand_loop (suc fuel) values name idx = elim (expand_at values name idx (get_elem? name idx)) [
  | ends end_of ↦ end_of
  | goes_on further place ↦ expand_loop fuel values further place
]

unfoldable pub core_name : List Str → Bool → Str → Str → Expansion
core_name values uses_pid pid_text basename =
    if str_eq basename (codes "core")
    then expanded (if uses_pid then basename ++ codes "." ++ pid_text else basename)
    else expand_loop (length basename + 1) values basename 0

-- What the calls of `open_user_core` give. `selinux` is none on an error, and else whether SELinux is
-- enabled.
pub record Answers : Type 0 where
  pub cwd_opened : Bool
  pub selinux : Option Bool
  pub context_set : Bool
  pub context_reset : Bool
  pub file_opened : Bool
  pub regular : Bool
  pub links : ℕ
  pub owner : ℕ
  pub truncated : Bool

-- What is done to the system
pub data Call : Type 0 where
  setegid : ℕ → Call
  seteuid : ℕ → Call
  open_file : Str → Call
  truncate : Call

pub record UserCore : Type 0 where
  pub calls : List Call
  pub opened : Bool

abbrev pub no_core : UserCore
no_core = record { calls = []; opened = false }

abbrev pub is_relative : Str → Bool
is_relative [] = true
is_relative (c ∷ name) = not (c == b'/')

abbrev pub is_sound_file : Answers → ℕ → Bool
is_sound_file answers fsuid = answers.regular && (answers.links == 1) && (answers.owner == fsuid)

-- From `xsetegid(fsgid)` to the end
unfoldable pub open_as_user : Answers → ℕ → ℕ → Str → Bool → UserCore
open_as_user answers fsuid fsgid name selinux_enabled =
    let tried = not selinux_enabled || answers.context_set in
    let calls =
      setegid fsgid
      ∷ seteuid fsuid
      ∷ (if tried
          then open_file name ∷ setegid 0 ∷ seteuid 0 ∷ []
          else setegid 0 ∷ seteuid 0 ∷ []) in
    if not (tried && answers.file_opened && (not selinux_enabled || answers.context_reset))
    then record { calls = calls; opened = false }
    else if not (is_sound_file answers fsuid)
    then record { calls = calls; opened = false }
    else record { calls = calls ++ truncate ∷ []; opened = answers.truncated }

unfoldable pub open_user_core : Answers → Bool → ℕ → ℕ → Str → UserCore
open_user_core answers need_nonrelative fsuid fsgid name =
    if not answers.cwd_opened then no_core else elim answers.selinux [
      | none ↦ no_core
      | some enabled ↦
          if need_nonrelative && is_relative name
          then no_core
          else open_as_user answers fsuid fsgid name enabled
    ]

-- `splice` for a number of bytes: a negative result is none.
unfoldable pub splice_entire_per_partes : List (Option ℕ) → ℕ → ℕ → ℕ → Option ℕ
splice_entire_per_partes [] bytes soft_limit size_limit = some bytes
splice_entire_per_partes (result ∷ results) bytes soft_limit size_limit =
    let hard_limit = size_limit - bytes in
    let soft = if ltb hard_limit soft_limit then hard_limit else soft_limit in
    if not (ltb bytes size_limit) then some bytes else elim result [
      | none ↦ none
      | some copied ↦
          if copied == 0
          then some bytes
          else splice_entire_per_partes results (bytes + copied) soft size_limit
    ]

unfoldable pub is_path_ignored : (Str → Str → Bool) → List Str → Str → Bool
is_path_ignored fnmatch [] path = false
is_path_ignored fnmatch (pattern_text ∷ patterns) path =
    if fnmatch pattern_text path then true else is_path_ignored fnmatch patterns path

unfoldable pub is_user_allowed : (Str → Option ℕ) → ℕ → List Str → Bool
is_user_allowed getpwnam uid [] = false
is_user_allowed getpwnam uid (username ∷ names) = elim (getpwnam username) [
  | none ↦ is_user_allowed getpwnam uid names
  | some pw_uid ↦ if pw_uid == uid then true else is_user_allowed getpwnam uid names
]

unfoldable pub is_user_in_allowed_group : (Str → Option ℕ) → (ℕ → ℕ → Bool) → ℕ → List Str → Bool
is_user_in_allowed_group getgrnam uid_in_group uid [] = false
is_user_in_allowed_group getgrnam uid_in_group uid (groupname ∷ names) = elim (getgrnam groupname) [
  | none ↦ is_user_in_allowed_group getgrnam uid_in_group uid names
  | some gid ↦
      if uid_in_group uid gid
      then true
      else is_user_in_allowed_group getgrnam uid_in_group uid names
]
