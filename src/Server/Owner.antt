-- ===== src/Server/Owner.antt =====
-- Whose problem a created directory says it is.
use abrt.Base.{
  ◌≡◌, ◌≢◌, refl, ◌∙◌, false, ◌&&◌, [], ◌∷◌, Option, none, some, if◌then◌else◌, Str, codes, str_eq,
  str_eq_iff, arith, Bool-cases, inl, inr, ltb,
}
use abrt.Server.{ProblemInfo, info_insert, info_lookup, Policy}
use abrt.Server.Clean.{IsClean}
use abrt.Server.Entries.{lookup-insert}
use abrt.Server.PostCreate.{Store, Outside}
use abrt.Server.Creation.{
  Surroundings, has_rootdir, info_remove, save_all, save_proc, NewDir, elements_of, all_valid,
  Created, process_new, create_problem_dir,
}

abbrev pub first_of {ℓ} : {A : Type ℓ} → Option A → Option A → Option A
first_of (some a) other = some a
first_of none other = other

lookup-save_all :
    (key : Str) (table elements : ProblemInfo)
    → info_lookup key (save_all table elements)
      ≡ first_of (info_lookup key table) (info_lookup key elements)
unfolding save_all info_lookup
lookup-save_all key [] elements = refl
lookup-save_all key ((k, v) ∷ table) elements =
    lookup-insert key k v (save_all table elements) ∙ elim (Bool-cases (str_eq k key)) [
      | inl e ↦ rw e refl
      | inr e ↦ rw e (lookup-save_all key table elements)
    ]

lookup-remove :
    (key gone : Str) (table : ProblemInfo)
    → key ≢ gone
    → info_lookup key (info_remove gone table) ≡ info_lookup key table
unfolding info_remove info_lookup
lookup-remove key gone [] h = refl
lookup-remove key gone ((k, v) ∷ table) h =
    ground (arith, lookup-remove key gone table h, str_eq_iff k gone, str_eq_iff k key, h)

lookup-uid :
    (policy : Policy) (table : ProblemInfo)
    → IsClean policy table
    → info_lookup (codes "uid") table ≡ none
unfolding info_lookup IsClean
lookup-uid policy [] c = refl
lookup-uid policy ((k, v) ∷ table) c = rw c.0.1 (lookup-uid policy table c.1)

lookup-elements_of :
    (around : Surroundings) (table : ProblemInfo) (key : Str)
    → key ≢ codes "basename"
    → str_eq (codes "abrt_version") key ≡ false
    → info_lookup key (elements_of around table)
      ≡ first_of (info_lookup key table) (
          if str_eq (codes "uid") key
          then some around.uid_text
          else info_lookup key (
              save_proc around.proc
                (around.basic (around.explore_chroots && has_rootdir around.proc))))
unfolding elements_of
lookup-elements_of around table key h k =
    lookup-insert key (codes "abrt_version") around.version _
    ∙ rw
        (
          k,
          lookup-save_all key (info_remove (codes "basename") table) (
              info_insert (codes "uid") around.uid_text (
                save_proc around.proc
                  (around.basic (around.explore_chroots && has_rootdir around.proc)))),
          lookup-remove key (codes "basename") table h,
          lookup-insert key (codes "uid") around.uid_text (
              save_proc around.proc
                (around.basic (around.explore_chroots && has_rootdir around.proc))),
        )
        refl

created-elements :
    (around : Surroundings) (location : NewDir → Store) (outside : Outside) (table : ProblemInfo)
    (created : Created)
    → create_problem_dir around location outside table ≡ some created
    → created.dir.elements ≡ elements_of around table
unfolding create_problem_dir process_new
created-elements around location outside table created e =
    elim (Bool-cases (ltb 0 around.max_size && around.low_space)) [
      | inl full ↦ ground (arith, full, e)
      | inr room ↦ elim (Bool-cases around.created) [
        | inr failed ↦ ground (arith, room, failed, e)
        | inl made ↦
            elim (Bool-cases (all_valid around.valid_name (info_remove (codes "basename") table))) [
              | inr bad ↦ ground (arith, room, made, bad, e)
              | inl good ↦ ground (arith, room, made, good, e)
            ]
      ]
    ]

-- In a directory that is created from clean entries, the uid is the one of the client, whatever the
-- client has sent and whatever was saved before; each other entry of the client but `basename` and
-- `abrt_version` stands in it with the client's value.
pub create_problem_dir-owner :
    (policy : Policy) (around : Surroundings) (location : NewDir → Store) (outside : Outside)
    (table : ProblemInfo) (created : Created)
    → IsClean policy table
    → create_problem_dir around location outside table ≡ some created
    → (info_lookup (codes "uid") created.dir.elements ≡ some around.uid_text)
      × ((key value : Str)
          → key ≢ codes "basename"
          → key ≢ codes "abrt_version"
          → info_lookup key table ≡ some value
          → info_lookup key created.dir.elements ≡ some value)
create_problem_dir-owner policy around location outside table created c e = (
  rw (created-elements around location outside table created e) (
      lookup-elements_of around table (codes "uid") (ground arith) (unfold str_eq in refl)
      ∙ rw (lookup-uid policy table c) (unfold str_eq in refl)),
  λ key value not_base not_version here.
      rw (created-elements around location outside table created e) (
        lookup-elements_of around table key not_base (other (codes "abrt_version") key not_version)
        ∙ rw here refl),
)
  where
    other : (a b : Str) → b ≢ a → str_eq a b ≡ false
    other a b h = ground (arith, str_eq_iff a b, h)
