-- ===== src/Entry/Reading.antt =====
-- src/dbus/abrt_problems2_entry.c: the reading of elements. The builder of the answer is the list of
-- what was added.
use abrt.Base.{
  ℕ, ◌≡◌, refl, Bool, true, false, not, ◌&&◌, ◌||◌, List, [], ◌∷◌, ◌++◌, Option, none, some, ◌==◌,
  if◌then◌else◌, Str, ltb, length, ◌+◌, ◌-◌, ◌≤◌, arith, if_both, if_with,
}

-- The bits of `flags`
pub record ReadFlags : Type 0 where
  pub all_fd : Bool
  pub only_text : Bool
  pub only_big_text : Bool
  pub only_binary : Bool
  pub all_no_fd : Bool

-- What problem_data_load_dump_dir_element gives: the bits of the type, the text of a text element, the
-- whole of the file, and whether the descriptor can be rewound and sent
pub record Loaded : Type 0 where
  pub is_txt : Bool
  pub is_big_txt : Bool
  pub is_bin : Bool
  pub content : Str
  pub whole : Str
  pub rewinds : Bool
  pub sends : Bool

pub data Item : Type 0 where
  descriptor : ℕ → Item
  binary : Str → Item
  string : Str → Item

pub record Reading : Type 0 where
  pub answer : List (Str × Item)
  pub loaded_size : ℕ
  pub fds : ℕ

abbrev pub maximum_array_length : ℕ
maximum_array_length = 67108864

abbrev pub is_other_type : ReadFlags → Loaded → Bool
is_other_type flags loaded =
    (flags.only_text && not loaded.is_txt)
    || (flags.only_big_text && not loaded.is_big_txt)
    || (flags.only_binary && not loaded.is_bin)

abbrev pub add_item : Reading → Str → Item → Reading
add_item reading name item = record reading { answer = reading.answer ++ (name, item) ∷ [] }

unfoldable pub read_fd : ℕ → Str → Loaded → Reading → Reading
read_fd max_unix_fds name loaded reading =
    if reading.fds == max_unix_fds
    then reading
    else if not loaded.sends
    then reading
    else record reading {
      answer = reading.answer ++ (name, descriptor reading.fds) ∷ [];
      fds = (reading.fds + 1);
    }

-- The check against ULONG_MAX cannot fail then.
unfoldable pub read_data : ℕ → Str → Loaded → Str → Reading → Reading
read_data max_size name loaded content reading =
    let size = length content in
    if ltb maximum_array_length size
    then reading
    else if ltb max_size size || ltb (max_size - size) reading.loaded_size
    then reading
    else record reading {
      answer =
          reading.answer ++ (name, if loaded.is_bin then binary content else string content) ∷ [];
      loaded_size = (reading.loaded_size + size);
    }

unfoldable pub read_loaded : ReadFlags → ℕ → ℕ → Str → Option Loaded → Reading → Reading
read_loaded flags max_size max_unix_fds name none reading = reading
read_loaded flags max_size max_unix_fds name (some loaded) reading =
    if is_other_type flags loaded
    then reading
    else if (flags.all_fd || not loaded.is_txt) && not loaded.rewinds
    then reading
    else if flags.all_fd || (not flags.all_no_fd && not loaded.is_txt)
    then read_fd max_unix_fds name loaded reading
    else read_data max_size name loaded (if loaded.is_txt then loaded.content else loaded.whole)
        reading

unfoldable pub read_names : ReadFlags → ℕ → ℕ → (Str → Option Loaded) → List Str → Reading → Reading
read_names flags max_size max_unix_fds load [] reading = reading
read_names flags max_size max_unix_fds load (name ∷ names) reading =
    read_names flags max_size max_unix_fds load names
      (read_loaded flags max_size max_unix_fds name (load name) reading)

pub data ReadError : Type 0 where
  invalid_args : ReadError
  no_access : ReadError

-- `abrt_p2_entry_read_elements`, with whether the caller gets the directory
unfoldable pub read_elements :
    ReadFlags → ℕ → ℕ → Bool → (Str → Option Loaded) → List Str → ℕ → Option ReadError × Reading
read_elements flags max_size max_unix_fds opened load names fds =
    let empty : Reading = record { answer = []; loaded_size = 0; fds = fds } in
    if flags.all_fd && flags.all_no_fd
    then (some invalid_args, empty)
    else if not opened
    then (some no_access, empty)
    else (none, read_names flags max_size max_unix_fds load names empty)

abbrev pub item_size : Item → ℕ
item_size (descriptor position) = 0
item_size (binary content) = length content
item_size (string content) = length content

abbrev pub answer_size : List (Str × Item) → ℕ
answer_size [] = 0
answer_size ((name, item) ∷ answer) = item_size item + answer_size answer

answer_size-append :
    (answer : List (Str × Item)) (name : Str) (item : Item)
    → answer_size (answer ++ (name, item) ∷ []) ≡ answer_size answer + item_size item
answer_size-append [] name item = omega arith
answer_size-append ((n, i) ∷ answer) name item = omega (arith, answer_size-append answer name item)

record IsWithin (max_size max_unix_fds : ℕ) (reading : Reading) : Type 0 where
  exact : answer_size reading.answer ≡ reading.loaded_size
  size_fits : reading.loaded_size ≤ max_size
  fds_fit : reading.fds ≤ max_unix_fds

module _ (flags : ReadFlags) (max_size max_unix_fds : ℕ) where
  fd-IsWithin :
      (name : Str) (loaded : Loaded) (reading : Reading)
      → IsWithin max_size max_unix_fds reading
      → IsWithin max_size max_unix_fds (read_fd max_unix_fds name loaded reading)
  unfolding read_fd
  fd-IsWithin name loaded reading v =
      if_with (IsWithin max_size max_unix_fds) (reading.fds == max_unix_fds) (λ _. v)
        (λ room. if_both (IsWithin max_size max_unix_fds) (not loaded.sends) v (record {
          exact =
              ground
                (arith, answer_size-append reading.answer name (descriptor reading.fds), v.exact);
          size_fits = v.size_fits;
          fds_fit = ground (arith, room, v.fds_fit);
        }))

  size-item :
      (b : Bool) (content : Str)
      → item_size (if b then binary content else string content) ≡ length content
  size-item true content = refl
  size-item false content = refl

  data-IsWithin :
      (name : Str) (loaded : Loaded) (content : Str) (reading : Reading)
      → IsWithin max_size max_unix_fds reading
      → IsWithin max_size max_unix_fds (read_data max_size name loaded content reading)
  unfolding read_data
  data-IsWithin name loaded content reading v =
      if_both (IsWithin max_size max_unix_fds) (ltb maximum_array_length (length content)) v (
        if_with (IsWithin max_size max_unix_fds)
          (ltb max_size (length content) || ltb (max_size - length content) reading.loaded_size)
          (λ _. v)
          (λ fits. record {
            exact = omega (
              arith,
              answer_size-append reading.answer name
                  (if loaded.is_bin then binary content else string content),
              size-item loaded.is_bin content,
              v.exact,
            );
            size_fits = ground (arith, fits, v.size_fits);
            fds_fit = v.fds_fit;
          }))

  loaded-IsWithin :
      (name : Str) (o : Option Loaded) (reading : Reading)
      → IsWithin max_size max_unix_fds reading
      → IsWithin max_size max_unix_fds (read_loaded flags max_size max_unix_fds name o reading)
  unfolding read_loaded
  loaded-IsWithin name none reading v = v
  loaded-IsWithin name (some loaded) reading v =
      if_both (IsWithin max_size max_unix_fds) (is_other_type flags loaded) v (
        if_both (IsWithin max_size max_unix_fds)
          ((flags.all_fd || not loaded.is_txt) && not loaded.rewinds) v
          (if_both (IsWithin max_size max_unix_fds)
            (flags.all_fd || (not flags.all_no_fd && not loaded.is_txt))
            (fd-IsWithin name loaded reading v)
            (data-IsWithin name loaded (if loaded.is_txt then loaded.content else loaded.whole)
              reading v)))

  names-IsWithin :
      (load : Str → Option Loaded) (names : List Str) (reading : Reading)
      → IsWithin max_size max_unix_fds reading
      → IsWithin max_size max_unix_fds (read_names flags max_size max_unix_fds load names reading)
  unfolding read_names
  names-IsWithin load [] reading v = v
  names-IsWithin load (name ∷ names) reading v =
      names-IsWithin load names _ (loaded-IsWithin name (load name) reading v)

-- Whatever is read, the data of an answer together are not longer than the size that the caller allows,
-- and the descriptors not more than the limit, if they were not before.
pub read_elements-bounds :
    (flags : ReadFlags) (max_size max_unix_fds : ℕ) (opened : Bool) (load : Str → Option Loaded)
    (names : List Str) (fds : ℕ)
    → fds ≤ max_unix_fds
    → (answer_size (read_elements flags max_size max_unix_fds opened load names fds).1.answer
        ≤ max_size)
      × ((read_elements flags max_size max_unix_fds opened load names fds).1.fds ≤ max_unix_fds)
unfolding read_elements
read_elements-bounds flags max_size max_unix_fds opened load names fds h =
    let empty : Reading = record { answer = []; loaded_size = 0; fds = fds } in
    let start : IsWithin max_size max_unix_fds empty = record {
      exact = refl;
      size_fits = omega arith;
      fds_fit = h;
    } in
    let v =
      if_both (λ (r : Option ReadError × Reading). IsWithin max_size max_unix_fds r.1)
        (flags.all_fd && flags.all_no_fd) start
        (if_both (λ (r : Option ReadError × Reading). IsWithin max_size max_unix_fds r.1)
          (not opened) start (names-IsWithin flags max_size max_unix_fds load names empty start)) in
    (ground (arith, v.exact, v.size_fits), v.fds_fit)
