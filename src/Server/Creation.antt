-- ===== src/Server/Creation.antt =====
-- src/daemon/abrt-server.c: the creation of a problem directory from the table of a request, up to the
-- post-create run over it. The elements of the directory are a table as well; saving replaces. What
-- /proc, libreport and the configuration give is an argument.
use abrt.Base.{
  ℕ, Bool, true, false, not, ◌&&◌, [], ◌∷◌, ◌++◌, Option, none, some, is_some, if◌then◌else◌, Str,
  codes, str_eq, ltb,
}
use abrt.Server.{ProblemInfo, info_insert, info_lookup}
use abrt.Server.PostCreate.{Store, Outside, Run, run_post_create}

-- What is found of the process: its root directory, if it has its own, and the texts of /proc, none
-- where there is no text to save
pub record ProcDir : Type 0 where
  pub rootdir : Option Str
  pub cmdline : Option Str
  pub environ : Option Str
  pub cgroup : Option Str
  pub mountinfo : Option Str
  pub open_fds : Option Str
  pub namespaces : Option Str
  pub container_cmdline : Option Str

-- `basic` is what dd_create_basic_files saves with and without a root directory, `proc` none where the
-- process has no directory in /proc; `date`, `pid_text` and `uid_text` are the printed values, and
-- `valid_name` are the names that dd_save_text does not die of.
pub record Surroundings : Type 0 where
  pub max_size : ℕ
  pub low_space : Bool
  pub location : Str
  pub date : Str
  pub pid_text : Str
  pub uid_text : Str
  pub version : Str
  pub created : Bool
  pub explore_chroots : Bool
  pub basic : Bool → ProblemInfo
  pub proc : Option ProcDir
  pub valid_name : Str → Bool
  pub renamed : Bool

unfoldable pub info_remove : Str → ProblemInfo → ProblemInfo
info_remove key [] = []
info_remove key ((k, v) ∷ table) =
    if str_eq k key then info_remove key table else (k, v) ∷ info_remove key table

pub save_if : Str → Option Str → ProblemInfo → ProblemInfo
save_if name none elements = elements
save_if name (some text) elements = info_insert name text elements

-- A process with a root of its own is in a container if that is "/", and else in a chroot.
unfoldable pub save_root : ProcDir → Option Str → ProblemInfo → ProblemInfo
unfolding save_if
save_root proc none elements = elements
save_root proc (some rootdir) elements =
    if str_eq rootdir (codes "/")
    then save_if (codes "container_cmdline") proc.container_cmdline elements
    else info_insert (codes "rootdir") rootdir elements

unfoldable pub save_proc : Option ProcDir → ProblemInfo → ProblemInfo
unfolding save_if
save_proc none elements = elements
save_proc (some proc) elements = save_root proc proc.rootdir (
    save_if (codes "namespaces") proc.namespaces (
      save_if (codes "open_fds") proc.open_fds (
        save_if (codes "mountinfo") proc.mountinfo (
          save_if (codes "cgroup") proc.cgroup (
            save_if (codes "environ") proc.environ
              (save_if (codes "cmdline") proc.cmdline elements))))))

pub has_rootdir : Option ProcDir → Bool
has_rootdir none = false
has_rootdir (some proc) = is_some proc.rootdir

-- The loop over the hash table, in one of the orders that it may have
unfoldable pub save_all : ProblemInfo → ProblemInfo → ProblemInfo
save_all [] elements = elements
save_all ((key, value) ∷ table) elements = info_insert key value (save_all table elements)

abbrev pub or_type : Option Str → Option Str → Str
or_type (some base) kind = base
or_type none (some kind) = kind
or_type none none = []

-- The path without ".new"
abbrev pub final_path : Surroundings → Str → Str
final_path around base =
    around.location ++ codes "/" ++ base ++ codes "-" ++ around.date ++ codes "-" ++ around.pid_text

abbrev pub unfinished_path : Surroundings → Str → Str
unfinished_path around base = final_path around base ++ codes ".new"

pub record NewDir : Type 0 where
  pub path : Str
  pub elements : ProblemInfo

unfoldable pub elements_of : Surroundings → ProblemInfo → ProblemInfo
unfolding has_rootdir
elements_of around table = info_insert (codes "abrt_version") around.version (
    save_all (info_remove (codes "basename") table) (
      info_insert (codes "uid") around.uid_text
        (save_proc around.proc (around.basic (around.explore_chroots && has_rootdir around.proc)))))

unfoldable pub all_valid : (Str → Bool) → ProblemInfo → Bool
all_valid valid_name [] = true
all_valid valid_name ((key, value) ∷ table) = valid_name key && all_valid valid_name table

-- The new directory, and the post-create run over it
pub record Created : Type 0 where
  pub dir : NewDir
  pub post_create : Run

-- `location` gives the directories once the new one is there and the old ones are trimmed.
unfoldable pub process_new : (NewDir → Store) → Outside → NewDir → Created
process_new location outside dir = record {
  dir = dir;
  post_create = run_post_create outside (location dir) dir.path;
}

-- None where the program exits early: there is little space, the directory cannot be created, or a key
-- of the client is no name for an element.
unfoldable pub create_problem_dir :
    Surroundings → (NewDir → Store) → Outside → ProblemInfo → Option Created
create_problem_dir around location outside table =
    let base = or_type (info_lookup (codes "basename") table) (info_lookup (codes "type") table) in
    if ltb 0 around.max_size && around.low_space
    then none
    else if not around.created
    then none
    else if not (all_valid around.valid_name (info_remove (codes "basename") table))
    then none
    else some (
        process_new location outside (record {
          path = if around.renamed then final_path around base else unfinished_path around base;
          elements = elements_of around table;
        }))
