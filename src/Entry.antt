-- ===== src/Entry.antt =====
-- src/dbus/abrt_problems2_entry.c: the elements of a problem on D-Bus. A dump directory is its elements
-- with their contents. What libreport and GLib answer about names, types, values and file descriptors
-- is an argument.
pub mod Items
pub mod Bounds
pub mod Reading
pub mod Tests
use abrt.Base.{
  ℕ, Bool, true, false, not, ◌&&◌, ◌||◌, List, [], ◌∷◌, ◌++◌, Option, none, some, ◌==◌,
  if◌then◌else◌, Str, ltb, leb, length, ◌+◌, ◌-◌,
}
use abrt.Server.{ProblemInfo, info_insert, info_lookup}
use abrt.Server.Creation.{info_remove}

pub data EntryState : Type 0 where
  entry_new : EntryState
  entry_complete : EntryState
  entry_deleted : EntryState

-- What opening a directory and asking whether the caller may access it give
pub record Access : Type 0 where
  pub opened : Bool
  pub accessible : Bool
  pub reopened : Bool
  pub deletes : ℕ

-- 0, or the number of the error: ENOTDIR, EACCES
unfoldable pub accessible_by_uid : Access → ℕ
accessible_by_uid access = if not access.opened then 20 else if access.accessible then 0 else 13

-- 0, or EINVAL, EWOULDBLOCK or the error of dd_delete
unfoldable pub entry_delete : Access → EntryState → ℕ × EntryState
entry_delete access entry_deleted =
    let ret = accessible_by_uid access in
    if not (ret == 0) then (ret, entry_deleted) else (22, entry_deleted)
entry_delete access state =
    let ret = accessible_by_uid access in
    if not (ret == 0)
    then (ret, state)
    else if not access.reopened
    then (11, state)
    else if not (access.deletes == 0)
    then (access.deletes, state)
    else (0, entry_deleted)

-- `open_dump_dir`: whether the caller gets the directory
unfoldable pub open_dump_dir : Access → Bool
open_dump_dir access = (accessible_by_uid access == 0) && access.reopened

pub data Value : Type 0 where
  text : Str → Value
  bytes : Str → Value
  handle : ℕ → Value
  unsupported : Value

pub record Limits : Type 0 where
  pub elements_count : ℕ
  pub data_size : ℕ

pub record SaveFlags : Type 0 where
  pub io_error_fatal : Bool
  pub elements_count_limit_fatal : Bool
  pub data_size_limit_fatal : Bool

-- `copy_fd` is what dd_copy_fd writes of a descriptor for a size limit, none if it fails with the error
-- `copy_error`, and then `copy_left` is what the item holds, none if it is as before; `stat_error` is the number of an error of dd_item_stat other than a missing item, and 0 if there is none.
pub record Outside : Type 0 where
  pub prohibited : Str → Bool
  pub stat_error : Str → ℕ
  pub allowed_entry : Str → Str → Bool
  pub post_create_condition : Str → Bool
  pub has_fd_list : Bool
  pub has_fd : ℕ → Bool
  pub set_nonblock : ℕ → Bool
  pub copy_fd : ℕ → ℕ → Option Str
  pub copy_error : ℕ → ℕ
  pub copy_left : ℕ → ℕ → Option Str

pub record Saving : Type 0 where
  pub elements : ProblemInfo
  pub dd_size : ℕ
  pub dd_items : ℕ

-- The loop goes on, or it ends with an error.
pub data Step : Type 0 where
  next : Saving → Step
  stop : ℕ → Saving → Step

abbrev pub io_error : SaveFlags → ℕ → Saving → Step
io_error flags code saving = if flags.io_error_fatal then stop code saving else next saving

abbrev pub size_of : Option Str → ℕ
size_of none = 0
size_of (some content) = length content

-- dd_save_binary, and the size from then on
abbrev pub put_item : Saving → Str → Str → ℕ → Saving
put_item saving name content base_size = record saving {
  elements = info_insert name content saving.elements;
  dd_size = base_size + length content;
}

-- A string or an array of bytes
unfoldable pub save_data : Outside → SaveFlags → Limits → Str → Str → ℕ → Saving → Step
save_data outside flags limits name content item_size saving =
    let base_size = saving.dd_size - item_size in
    if not (outside.allowed_entry name content)
    then stop 1 saving
    else if not (limits.data_size == 0)
        && ltb item_size (length content)
        && ltb limits.data_size (base_size + length content)
    then (if flags.data_size_limit_fatal then stop 27 saving else next saving)
    else next (put_item saving name content base_size)

-- What a failed copy leaves behind is not added to the size.
abbrev pub left_behind : Str → Option Str → Saving → Saving
left_behind name none saving = saving
left_behind name (some content) saving = record saving {
  elements = info_insert name content saving.elements;
}

unfoldable pub copied : SaveFlags → Str → ℕ → ℕ → ℕ → Option Str → Saving → Option Str → Step
copied flags name base_size max_size error left saving none =
    io_error flags error (left_behind name left saving)
copied flags name base_size max_size error left saving (some content) =
    let item = put_item saving name content base_size in
    if leb max_size (length content)
    then (if flags.data_size_limit_fatal
        then stop 27 item
        else next (record item { dd_size = base_size + max_size }))
    else next item

-- A file descriptor
unfoldable pub save_handle : Outside → SaveFlags → Limits → Str → ℕ → ℕ → Saving → Step
save_handle outside flags limits name fd item_size saving =
    let base_size = saving.dd_size - item_size in
    let max_size =
      if ltb limits.data_size base_size then item_size else limits.data_size - base_size in
    if not outside.has_fd_list
    then io_error flags 5 saving
    else if outside.post_create_condition name
    then stop 22 saving
    else if not (outside.has_fd fd)
    then io_error flags 5 saving
    else if not (outside.set_nonblock fd)
    then io_error flags 5 saving
    else copied flags name base_size max_size (outside.copy_error fd)
        (outside.copy_left fd max_size) saving (outside.copy_fd fd max_size)

unfoldable pub save_value : Outside → SaveFlags → Limits → Str → Value → ℕ → Saving → Step
save_value outside flags limits name (text content) size saving =
    save_data outside flags limits name content size saving
save_value outside flags limits name (bytes content) size saving =
    save_data outside flags limits name content size saving
save_value outside flags limits name (handle fd) size saving =
    save_handle outside flags limits name fd size saving
save_value outside flags limits name unsupported size saving = io_error flags 95 saving

-- With the item as dd_item_stat finds it
unfoldable pub save_found : Outside → SaveFlags → Limits → Str → Value → Option Str → Saving → Step
save_found outside flags limits name value none saving =
    if not (limits.elements_count == 0) && leb limits.elements_count saving.dd_items
    then (if flags.elements_count_limit_fatal then stop 7 saving else next saving)
    else save_value outside flags limits name value 0
        (record saving { dd_items = (saving.dd_items + 1) })
save_found outside flags limits name value (some item) saving =
    save_value outside flags limits name value (length item) saving

unfoldable pub save_element : Outside → SaveFlags → Limits → Str → Value → Saving → Step
save_element outside flags limits name value saving =
    if outside.prohibited name
    then stop 13 saving
    else if not (outside.stat_error name == 0)
    then io_error flags (outside.stat_error name) saving
    else save_found outside flags limits name value (info_lookup name saving.elements) saving

-- The loop: 0 or the number of the error, and the directory as it is then
unfoldable pub save_elements : Outside → SaveFlags → Limits → List (Str × Value) → Step → ℕ × Saving
save_elements outside flags limits elements (stop code saving) = (code, saving)
save_elements outside flags limits [] (next saving) = (0, saving)
save_elements outside flags limits ((name, value) ∷ elements) (next saving) =
    save_elements outside flags limits elements
      (save_element outside flags limits name value saving)

abbrev pub total_size : ProblemInfo → ℕ
total_size [] = 0
total_size ((name, content) ∷ elements) = length content + total_size elements

-- `save_elements_in_dump_dir`, once dd_compute_size and dd_get_items_count have succeeded
unfoldable pub save_in_dump_dir :
    Outside → SaveFlags → Limits → List (Str × Value) → ProblemInfo → ℕ × Saving
save_in_dump_dir outside flags limits elements dir =
    save_elements outside flags limits elements
      (next (record { elements = dir; dd_size = total_size dir; dd_items = length dir }))

-- `abrt_p2_entry_delete_elements`: dd_delete_item refuses a prohibited name.
unfoldable pub delete_elements : (Str → Bool) → List Str → ProblemInfo → ProblemInfo
delete_elements prohibited [] dir = dir
delete_elements prohibited (name ∷ names) dir =
    if prohibited name
    then delete_elements prohibited names dir
    else delete_elements prohibited names (info_remove name dir)
