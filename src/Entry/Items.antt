-- ===== src/Entry/Items.antt =====
-- One item is saved: what it adds to the size and to the number of the elements.
use abrt.Base.{
  ℕ, ◌≡◌, ◌≢◌, refl, inl, inr, not, ◌&&◌, [], ◌∷◌, Option, none, some, ◌==◌, if◌then◌else◌, Str,
  str_eq, ltb, leb, length, ◌+◌, ◌-◌, ◌≤◌, arith, Bool-cases, if_both, if_with,
}
use abrt.Server.{ProblemInfo, info_insert, info_lookup}
use abrt.Entry.{
  Value, text, bytes, handle, unsupported, Limits, SaveFlags, Outside, Saving, Step, next, stop,
  io_error, size_of, put_item, save_data, copied, save_handle, save_value, total_size,
}

total-insert :
    (name content : Str) (elements : ProblemInfo)
    → total_size (info_insert name content elements) + size_of (info_lookup name elements)
      ≡ total_size elements + length content
unfolding info_insert info_lookup
total-insert name content [] = omega arith
total-insert name content ((k, v) ∷ elements) = elim (Bool-cases (str_eq k name)) [
  | inl e ↦ rw e (omega arith)
  | inr e ↦ rw e (omega (arith, total-insert name content elements))
]

pub length-insert :
    (name content : Str) (elements : ProblemInfo)
    → length (info_insert name content elements) ≤ length elements + 1
unfolding info_insert
length-insert name content [] = omega arith
length-insert name content ((k, v) ∷ elements) = ground (arith, length-insert name content elements)

pub length-replace :
    (name content item : Str) (elements : ProblemInfo)
    → info_lookup name elements ≡ some item
    → length (info_insert name content elements) ≡ length elements
unfolding info_insert info_lookup
length-replace name content item [] h = ground (arith, h)
length-replace name content item ((k, v) ∷ elements) h =
    ground (arith, h, length-replace name content item elements)

size-total :
    (name : Str) (elements : ProblemInfo)
    → size_of (info_lookup name elements) ≤ total_size elements
unfolding info_lookup
size-total name [] = omega arith
size-total name ((k, v) ∷ elements) = ground (arith, size-total name elements)

-- The size that is kept is that of the elements, and both limits hold or were exceeded before.
pub record IsBounded (size_max count_max : ℕ) (saving : Saving) : Type 0 where
  pub exact : saving.dd_size ≡ total_size saving.elements
  pub size_fits : saving.dd_size ≤ size_max
  pub counted : length saving.elements ≤ saving.dd_items
  pub count_fits : saving.dd_items ≤ count_max

unfoldable pub StepBounded : ℕ → ℕ → Step → Type 0
StepBounded size_max count_max (next saving) = IsBounded size_max count_max saving
StepBounded size_max count_max (stop code saving) = IsBounded size_max count_max saving

-- What is asked of dd_copy_fd: it keeps to the size that it is given, and leaves the item as it was where
-- it fails.
pub record Copies (outside : Outside) : Type 0 where
  pub keeps :
      (fd size : ℕ) (content : Str) → outside.copy_fd fd size ≡ some content → length content ≤ size
  pub undoes : (fd size : ℕ) → outside.copy_fd fd size ≡ none → outside.copy_left fd size ≡ none

-- There is room for the item, which has this size so far.
pub record HasRoom (name : Str) (item_size : ℕ) (saving : Saving) : Type 0 where
  pub is_size : item_size ≡ size_of (info_lookup name saving.elements)
  pub one_more :
      (content : Str) → length (info_insert name content saving.elements) ≤ saving.dd_items

module _ (size_max count_max : ℕ) where
  put-IsBounded :
      (name content : Str) (item_size : ℕ) (saving : Saving)
      → IsBounded size_max count_max saving
      → HasRoom name item_size saving
      → saving.dd_size - item_size + length content ≤ size_max
      → IsBounded size_max count_max (put_item saving name content (saving.dd_size - item_size))
  put-IsBounded name content item_size saving v room fits = record {
    exact = ground (
      arith,
      total-insert name content saving.elements,
      size-total name saving.elements,
      v.exact,
      room.is_size,
    );
    size_fits = fits;
    counted = room.one_more content;
    count_fits = v.count_fits;
  }

  pub io-Bounded :
      (flags : SaveFlags) (code : ℕ) (saving : Saving)
      → IsBounded size_max count_max saving
      → StepBounded size_max count_max (io_error flags code saving)
  unfolding StepBounded
  io-Bounded flags code saving v = if_both (StepBounded size_max count_max) flags.io_error_fatal v v

module _ (outside : Outside) (flags : SaveFlags) (limits : Limits) (size_max count_max : ℕ)
    (copies : Copies outside) (sized : limits.data_size ≢ 0)
    (below : limits.data_size ≤ size_max) where
  data-Bounded :
      (name content : Str) (item_size : ℕ) (saving : Saving)
      → IsBounded size_max count_max saving
      → HasRoom name item_size saving
      → StepBounded size_max count_max
          (save_data outside flags limits name content item_size saving)
  unfolding save_data StepBounded
  data-Bounded name content item_size saving v room =
      if_both (StepBounded size_max count_max) (not (outside.allowed_entry name content)) v (
        if_with (StepBounded size_max count_max)
          (not (limits.data_size == 0)
            && ltb item_size (length content)
            && ltb limits.data_size (saving.dd_size - item_size + length content))
          (λ _. if_both (StepBounded size_max count_max) flags.data_size_limit_fatal v v)
          (λ fits. put-IsBounded size_max count_max name content item_size saving v room (
            ground (
              arith,
              fits,
              sized,
              below,
              v.size_fits,
              v.exact,
              room.is_size,
              size-total name saving.elements,
            ))))

  copied-Bounded :
      (name : Str) (item_size max_size error : ℕ) (left : Option Str) (saving : Saving)
      (r : Option Str)
      → IsBounded size_max count_max saving
      → HasRoom name item_size saving
      → (r ≡ none → left ≡ none)
      → ((content : Str) → r ≡ some content → length content ≤ max_size)
      → saving.dd_size - item_size + max_size ≤ size_max
      → StepBounded size_max count_max
          (copied flags name (saving.dd_size - item_size) max_size error left saving r)
  unfolding copied StepBounded
  copied-Bounded name item_size max_size error left saving none v room undone short fits =
      rw (undone refl) (unfold StepBounded in io-Bounded size_max count_max flags error saving v)
  copied-Bounded name item_size max_size error left saving (some content) v room undone short fits =
      let w =
        put-IsBounded size_max count_max name content item_size saving v room
          (ground (arith, short content refl)) in
      if_with (StepBounded size_max count_max) (leb max_size (length content))
        (λ full. if_both (StepBounded size_max count_max) flags.data_size_limit_fatal w (record {
          exact = ground (arith, w.exact, full, short content refl);
          size_fits = fits;
          counted = w.counted;
          count_fits = w.count_fits;
        }))
        (λ _. w)

  handle-Bounded :
      (name : Str) (fd item_size : ℕ) (saving : Saving)
      → IsBounded size_max count_max saving
      → HasRoom name item_size saving
      → StepBounded size_max count_max (save_handle outside flags limits name fd item_size saving)
  unfolding save_handle StepBounded
  handle-Bounded name fd item_size saving v room =
      let failed = io-Bounded size_max count_max flags 5 saving v in
      let max_size =
        if ltb limits.data_size (saving.dd_size - item_size)
        then item_size
        else limits.data_size - (saving.dd_size - item_size) in
      if_both (StepBounded size_max count_max) (not outside.has_fd_list) failed (
        if_both (StepBounded size_max count_max) (outside.post_create_condition name) v (
          if_both (StepBounded size_max count_max) (not (outside.has_fd fd)) failed (
            if_both (StepBounded size_max count_max) (not (outside.set_nonblock fd)) failed (
              unfold StepBounded in
              copied-Bounded name item_size max_size (outside.copy_error fd)
                (outside.copy_left fd max_size) saving (outside.copy_fd fd max_size) v room
                (copies.undoes fd max_size) (copies.keeps fd max_size)
                (ground (
                  arith,
                  below,
                  v.size_fits,
                  v.exact,
                  room.is_size,
                  size-total name saving.elements,
                ))))))

  pub value-Bounded :
      (name : Str) (value : Value) (item_size : ℕ) (saving : Saving)
      → IsBounded size_max count_max saving
      → HasRoom name item_size saving
      → StepBounded size_max count_max (save_value outside flags limits name value item_size saving)
  unfolding save_value
  value-Bounded name (text content) item_size saving v room =
      data-Bounded name content item_size saving v room
  value-Bounded name (bytes content) item_size saving v room =
      data-Bounded name content item_size saving v room
  value-Bounded name (handle fd) item_size saving v room =
      handle-Bounded name fd item_size saving v room
  value-Bounded name unsupported item_size saving v room =
      io-Bounded size_max count_max flags 95 saving v
