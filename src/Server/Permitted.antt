-- ===== src/Server/Permitted.antt =====
-- What a request may bring about.
use abrt.Base.{
  ℕ, ◌≡◌, refl, ◌⊎◌, inl, inr, Bool, true, false, not, ◌&&◌, List, [], Option, none, some, ◌==◌,
  Str, codes, starts_with, drop, ◌≤◌, arith, Bool-cases, if_both,
}
use abrt.Server.{
  ProblemInfo, info_lookup, Policy, cut_at, UrlType, creation_notification, creation_request,
  Header, read_header,
}
use abrt.Server.Request.{
  Client, Action, die, answer, delete_path_of, post_create_of, create_problem_dir_of, convert_pid,
  is_data_missing, is_repeated, with_namespace, with_pid, after_body, with_body, behind,
  skip_non_whitespace, url_type, delete_request, creation, signed, skip_spaces, pid_in_range,
  by_method, perform_header, perform_http_xact, post_create_dir,
}
use abrt.Server.Clean.{IsClean, CleanBody, read_body-Clean}

-- A pid that the client has sent, within the bounds of unsigned, or the one of the client itself
pub data IsPid (client : Client) (table : ProblemInfo) (pid : ℕ) : Type 0 where
  pid_sent :
      convert_pid (info_lookup (codes "pid") table) ≡ some pid
      → 1 ≤ pid
      → pid ≤ 4294967295
      → IsPid client table pid
  pid_peer : pid ≡ client.client_pid → IsPid client table pid

abbrev pub Permitted : Policy → Client → Action → Type 0
Permitted policy client die = Unit
Permitted policy client (answer code) = (code ≡ 0) ⊎ ((code ≡ 400) ⊎ (code ≡ 403))
Permitted policy client (delete_path_of path) = Unit
Permitted policy client (post_create_of path) = client.client_uid ≡ 0
Permitted policy client (create_problem_dir_of table pid) =
    IsClean policy table
    × (is_data_missing table ≡ false)
    × (is_repeated client (info_lookup (codes "executable") table) ≡ false)
    × IsPid client table pid

-- Whose choice a directory to process is: the request names it and its client is root, or it is the new
-- one that is made from the request.
abbrev pub Chosen : Client → (ProblemInfo → ℕ → Option Str) → Str → Action → Type 0
Chosen client create path action =
    ((action ≡ post_create_of path) × (client.client_uid ≡ 0))
    ⊎ ((table : ProblemInfo) × (pid : ℕ) × (action ≡ create_problem_dir_of table pid)
        × (create table pid ≡ some path))

pid_in_range-bounds :
    (ret : Option ℕ) (pid : ℕ) → pid_in_range ret ≡ some pid → (1 ≤ pid) × (pid ≤ 4294967295)
unfolding pid_in_range
pid_in_range-bounds none pid e = ground (arith, e)
pid_in_range-bounds (some ret) pid e = ground (arith, e)

pid-bounds :
    (text : Option Str) (pid : ℕ) → convert_pid text ≡ some pid → (1 ≤ pid) × (pid ≤ 4294967295)
unfolding convert_pid
pid-bounds none pid e = ground (arith, e)
pid-bounds (some text) pid e = pid_in_range-bounds (signed (skip_spaces text)) pid e

module _ (policy : Policy) (client : Client) where
  Sure : Action → Type 0
  Sure action = Permitted policy client action

  create-Permitted :
      (table : ProblemInfo) (pid : ℕ) (same : Option Bool)
      → IsClean policy table
      → is_data_missing table ≡ false
      → is_repeated client (info_lookup (codes "executable") table) ≡ false
      → convert_pid (info_lookup (codes "pid") table) ≡ some pid
      → Sure (with_namespace client table pid same)
  unfolding with_namespace Sure
  create-Permitted table pid none c m r e = tt
  create-Permitted table pid (some true) c m r e =
      let b = pid-bounds (info_lookup (codes "pid") table) pid e in (c, m, r, pid_sent e b.0 b.1)
  create-Permitted table pid (some false) c m r e = (c, m, r, pid_peer refl)

  pid-Permitted :
      (table : ProblemInfo) (pid : Option ℕ)
      → IsClean policy table
      → is_data_missing table ≡ false
      → is_repeated client (info_lookup (codes "executable") table) ≡ false
      → convert_pid (info_lookup (codes "pid") table) ≡ pid
      → Sure (with_pid client table pid)
  unfolding with_pid Sure
  pid-Permitted table none c m r e = tt
  pid-Permitted table (some pid) c m r e =
      create-Permitted table pid client.same_pid_namespace c m r e

  body-Permitted :
      (url : UrlType) (body : Option (ProblemInfo × Str))
      → CleanBody policy body
      → Sure (after_body client url body)
  unfolding after_body CleanBody Sure
  body-Permitted url none c = tt
  body-Permitted creation_notification (some (table, buffer)) c =
      elim (Bool-cases (client.client_uid == 0)) [
        | inl root ↦ rw root (ground (arith, root))
        | inr other ↦ rw other (inr (inr refl))
      ]
  body-Permitted creation_request (some (table, buffer)) c =
      elim (Bool-cases (is_data_missing table)) [
        | inl missing ↦ rw missing tt
        | inr complete ↦
            elim (Bool-cases (is_repeated client (info_lookup (codes "executable") table))) [
              | inl repeated ↦ rw (complete, repeated) (inl refl)
              | inr fresh ↦
                  rw (complete, fresh)
                    (pid-Permitted table (convert_pid (info_lookup (codes "pid") table)) c complete
                      fresh refl)
            ]
      ]

  with_body-Permitted :
      (url : UrlType) (reads : List Str) (total : ℕ) (body : Option Str)
      → Sure (with_body policy client url reads total body)
  unfolding with_body Sure
  with_body-Permitted url reads total none = inr (inl refl)
  with_body-Permitted url reads total (some body) =
      body-Permitted url _ (read_body-Clean policy url reads total [] body (unfold IsClean in tt))

  delete-Permitted : (cut : Option (Str × Str)) → Sure (delete_request cut)
  unfolding delete_request Sure
  delete-Permitted none = inr (inl refl)
  delete-Permitted (some (path, rest)) =
      if_both (Permitted policy client) (not (starts_with (codes "HTTP/") rest)) (inr (inl refl)) tt

  creation-Permitted :
      (header : Header) (url : Option UrlType) → Sure (creation policy client header url)
  unfolding creation Sure
  creation-Permitted header none = inr (inl refl)
  creation-Permitted header (some url) =
      with_body-Permitted url header.reads_left header.total_bytes header.body_start

  header-Permitted : (header : Option Header) → Sure (perform_header policy client header)
  unfolding perform_header Sure
  header-Permitted none = tt
  header-Permitted (some header) = by_delete (behind (codes "DELETE ") header.line)
    where
      by_delete :
          (path : Option Str) → Permitted policy client (by_method policy client header path)
      by_delete (some path) = unfold by_method in unfold Sure in delete-Permitted (cut_at b' ' path)
      by_delete none =
          unfold by_method in
          if_both (Permitted policy client)
            (not (starts_with (codes "PUT ") header.line)
              && not (starts_with (codes "POST ") header.line))
            (inr (inl refl))
            (unfold Sure in
              creation-Permitted header (url_type (drop 1 (skip_non_whitespace header.line))))

  request-Permitted :
      (reads : List Str) → Permitted policy client (perform_http_xact policy client reads)
  unfolding perform_http_xact Sure
  request-Permitted reads = header-Permitted (read_header reads [] 0)

  action-Chosen :
      (create : ProblemInfo → ℕ → Option Str) (action : Action)
      → Permitted policy client action
      → (path : Str) → post_create_dir create action ≡ some path
      → Chosen client create path action
  unfolding post_create_dir
  action-Chosen create die p path e = ground (arith, e)
  action-Chosen create (answer code) p path e = ground (arith, e)
  action-Chosen create (delete_path_of other) p path e = ground (arith, e)
  action-Chosen create (post_create_of other) p path e = inl (cc e, p)
  action-Chosen create (create_problem_dir_of table pid) p path e = inr (table, pid, refl, e)

  -- Whatever a client sends: a directory that the request names is processed only for root, and every
  -- other directory that is processed is the one made from the request; a problem directory is created
  -- only from entries that the policy allows, without an uid, with a type and a reason, not for a
  -- repeated crash, and with a pid that was sent and fits or with the one of the client; and each other
  -- answer is a success, 400 or 403.
  pub perform_http_xact-Permitted :
      (create : ProblemInfo → ℕ → Option Str) (reads : List Str)
      → Permitted policy client (perform_http_xact policy client reads)
        × ((path : Str)
            → post_create_dir create (perform_http_xact policy client reads) ≡ some path
            → Chosen client create path (perform_http_xact policy client reads))
  perform_http_xact-Permitted create reads =
      let p = request-Permitted reads in
      (p, action-Chosen create (perform_http_xact policy client reads) p)
