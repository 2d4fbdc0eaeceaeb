-- ===== src/Entry/Tests.antt =====
-- Elements that are saved, read and deleted, and the theorems about them at concrete directories.
use abrt.Base.{
  ◌==◌, none, ◌≡◌, refl, true, false, List, [], ◌∷◌, Option, some, if◌then◌else◌, Str, codes,
  str_eq, take, ◌≤◌, arith,
}
use abrt.Server.{ProblemInfo, info_insert, info_lookup}
use abrt.Entry.{
  Access, entry_new, entry_deleted, accessible_by_uid, entry_delete, delete_elements, open_dump_dir,
  Value, text, bytes, handle, unsupported, Limits, SaveFlags, Outside, save_data, copied,
  save_handle, save_value, save_found, save_element, save_elements, total_size, save_in_dump_dir,
}
use abrt.Server.Creation.{info_remove}
use abrt.Entry.Reading.{
  ReadFlags, Loaded, descriptor, string, read_fd, read_data, read_loaded, read_names, read_elements,
  answer_size, read_elements-bounds,
}

abbrev owner : Access
owner = record { opened = true; accessible = true; reopened = true; deletes = 0 }

entry_delete_runs :
    (entry_delete owner entry_new ≡ (0, entry_deleted))
    × (entry_delete owner entry_deleted ≡ (22, entry_deleted))
    × (entry_delete (record owner { accessible = false }) entry_new ≡ (13, entry_new))
    × (open_dump_dir (record owner { reopened = false }) ≡ false)
unfolding entry_delete open_dump_dir accessible_by_uid
entry_delete_runs = (refl, refl, refl, refl)

abbrev a_file : Str
a_file = codes "0123456789"

abbrev outside : Outside
outside = record {
  prohibited = λ name. str_eq name (codes "..");
  stat_error = λ _. 0;
  allowed_entry = λ _ _. true;
  post_create_condition = λ _. false;
  has_fd_list = true;
  has_fd = λ _. true;
  set_nonblock = λ _. true;
  copy_fd = λ fd size. if fd == 0 then some (take size a_file) else none;
  copy_error = λ fd. 5;
  copy_left = λ fd size. none;
}

abbrev permissive : SaveFlags
permissive = record {
  io_error_fatal = false;
  elements_count_limit_fatal = false;
  data_size_limit_fatal = false;
}

abbrev limits : Limits
limits = record { elements_count = 3; data_size = 10 }

abbrev dir : ProblemInfo
dir = (codes "a", codes "xy") ∷ []

abbrev elements : List (Str × Value)
elements =
    (codes "a", text (codes "abc"))
    ∷ (codes "b", text (codes "12345678"))
    ∷ (codes "c", handle 0)
    ∷ (codes "d", bytes (codes "1"))
    ∷ (codes "..", unsupported)
    ∷ []

save_in_dump_dir-elements : (save_in_dump_dir outside permissive limits elements dir).0 ≡ 13
unfolding save_in_dump_dir save_elements save_element save_found save_value save_handle copied
    save_data info_insert info_lookup str_eq
save_in_dump_dir-elements = refl

abbrev failing : List (Str × Value)
failing = (codes "b", handle 1) ∷ (codes "c", handle 1) ∷ []

-- A failed copy that leaves something behind is not counted: the directory is beyond its limit.
save_in_dump_dir-left :
    let disk = record outside { copy_left = λ fd size. some (take size a_file) } in
    total_size (save_in_dump_dir disk permissive limits failing dir).1.elements ≡ 18
unfolding save_in_dump_dir save_elements save_element save_found save_value save_handle copied
    save_data info_insert info_lookup str_eq
save_in_dump_dir-left = refl

abbrev all_types : ReadFlags
all_types = record {
  all_fd = false;
  only_text = false;
  only_big_text = false;
  only_binary = false;
  all_no_fd = false;
}

abbrev load : Str → Option Loaded
load name =
    if str_eq name (codes "core")
    then some (record {
      is_txt = false;
      is_big_txt = false;
      is_bin = true;
      content = [];
      whole = a_file;
      rewinds = true;
      sends = true;
    })
    else some (record {
      is_txt = true;
      is_big_txt = false;
      is_bin = false;
      content = name;
      whole = name;
      rewinds = true;
      sends = true;
    })

abbrev names : List Str
names = codes "core" ∷ codes "reason" ∷ codes "core" ∷ codes "executable" ∷ []

read_elements_runs :
    (read_elements all_types 6 1 true load names 0).1.answer
    ≡ (codes "core", descriptor 0) ∷ (codes "reason", string (codes "reason")) ∷ []
unfolding read_elements read_names read_loaded read_fd read_data str_eq
read_elements_runs = refl

read_elements-bounds_example :
    (answer_size (read_elements all_types 6 1 true load names 0).1.answer ≤ 6)
    × ((read_elements all_types 6 1 true load names 0).1.fds ≤ 1)
read_elements-bounds_example = read_elements-bounds all_types 6 1 true load names 0 (omega arith)

delete_elements-dir :
    delete_elements
      (λ name. str_eq name (codes ".."))
      (codes ".." ∷ codes "a" ∷ [])
      ((codes "b", codes "x") ∷ dir)
    ≡ (codes "b", codes "x") ∷ []
unfolding delete_elements info_remove str_eq
delete_elements-dir = refl
