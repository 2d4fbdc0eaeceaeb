-- ===== src/Session.antt =====
-- src/dbus/abrt_problems2_session.c: the D-Bus session of one client, its authorization by polkit
-- or by the token of a peer session, and the tasks that it owns.
-- A pointer to a `struct check_auth_cb_params` is its number in `requests`, which holds those that
-- polkit has still to answer. The current time, /dev/urandom and polkit's answers are arguments.
pub mod Machine
pub mod Token
pub mod Owner
pub mod Steps
pub mod Peers
pub mod Refines
pub mod Shape
pub mod Stale
pub mod Disposal
pub mod Tests
use abrt.Base.{
  ℕ, ◌+◌, Bool, true, false, not, ◌&&◌, List, [], ◌∷◌, Option, none, some, ltb, ◌==◌, if◌then◌else◌,
  Str, str_eq, set, get_elem?, ◌-◌, ◌%◌,
}
use abrt.Session.Machine.{
  State, initial, pending, authorized, Session, Error, Ret, failed, granted, accepted, is_pending,
  no_time, cannot_pass, owners_differ, no_such_token, token_expired, no_peer, invalid_parameters,
  too_many_tasks, task_owned, broken_session, grant_authorization, authorization_request_initialize,
}
use abrt.Session.Token.{Table, table_remove, expire_lookup, is_expired, is_authorized}

-- A returned code with the error that was set.
abbrev pub Reply : Type 0
Reply = Ret × Option Error

-- Both sessions as they are afterwards: the one that passes its authorization on, then its peer.
abbrev pub Both : Type 0
Both = Reply × Session × Session

pub check_time : Session → Session → Str → ℕ → Option ℕ → Both
check_time s peer token expire none = ((failed, some no_time), s, peer)
check_time s peer token expire (some curtime) =
    if is_expired curtime expire then ((failed, some token_expired), s, peer) else (
      (granted, none),
      record s { tokens = table_remove s.tokens token },
      grant_authorization peer,
    )

pub check_token : Session → Session → Str → Option ℕ → Option ℕ → Both
check_token s peer token none time = ((failed, some no_such_token), s, peer)
check_token s peer token (some expire) time = check_time s peer token expire time

unfoldable pub authorize_peer_with_token : Session → Session → Str → Option ℕ → Both
unfolding check_time check_token
authorize_peer_with_token s peer token time =
    if not (is_authorized s)
    then ((failed, some cannot_pass), s, peer)
    else if not (s.uid == peer.uid)
    then ((failed, some owners_differ), s, peer)
    else check_token s peer token (expire_lookup s.tokens token) time

-- The sessions of one user; a session is its place in the list, so that a peer may be itself.
abbrev pub Sessions : Type 0
Sessions = List Session

-- `g_list_find_custom` with `abrt_p2_session_cmp_caller`
unfoldable pub find_caller : Sessions → Str → Option (ℕ × Session)
find_caller [] bus = none
find_caller (s ∷ ss) bus =
    if str_eq s.caller bus
    then some (0, s)
    else elim (find_caller ss bus) [ none ↦ none | some (i, t) ↦ some (i + 1, t) ]

-- The keys of the argument of Authorize that the code reads.
pub record Parameters : Type 0 where
  pub peer_bus : Option Str
  pub peer_token : Option Str
  pub message : Option Str

pub with_peer : Sessions → ℕ → Session → Option (ℕ × Session) → Str → Option ℕ → Reply × Sessions
with_peer peers i s none token time = ((failed, some no_peer), peers)
with_peer peers i s (some (j, peer)) token time =
    let (reply, peer', s') = authorize_peer_with_token peer s token time in
    (reply, set (set peers j peer') i s')

pub begin_with :
    Option Str → Option Str → Option Str → Sessions → ℕ → Session → Option ℕ → Reply × Sessions
begin_with none none message peers i s time =
    ((accepted, none), set peers i (authorization_request_initialize s message))
begin_with (some bus) (some token) message peers i s time =
    with_peer peers i s (find_caller peers bus) token time
begin_with _ _ message peers i s time = ((failed, some invalid_parameters), peers)

pub authorize_from : State → Parameters → Sessions → ℕ → Session → Option ℕ → Reply × Sessions
authorize_from initial p peers i s time =
    begin_with p.peer_bus p.peer_token p.message peers i s time
authorize_from pending p peers i s time = ((is_pending, none), peers)
authorize_from authorized p peers i s time = ((granted, none), peers)

-- `abrt_p2_session_authorize` on session number `i`; there is no such session: `none`
unfoldable pub authorize : Parameters → Sessions → ℕ → Option ℕ → Option (Reply × Sessions)
unfolding with_peer begin_with authorize_from
authorize p peers i time = elim (get_elem? peers i) [
  | none ↦ none
  | some s ↦ some (authorize_from s.state p peers i s time)
]

-- 0 if the session belongs to this caller
unfoldable pub check_sanity : Session → Str → ℕ → Option Error
check_sanity s caller caller_uid =
    if str_eq s.caller caller && s.uid == caller_uid then none else some broken_session

-- `g_list_find`
unfoldable pub find_task : List ℕ → ℕ → Bool
find_task [] task = false
find_task (t ∷ ts) task = if t == task then true else find_task ts task

-- 0 if the session owns the task
unfoldable pub owns_task : Session → ℕ → ℕ
owns_task s task = if find_task s.tasks task then 0 else 1

-- UINT32_MAX, which stands for an error
abbrev pub no_index : ℕ
no_index = 4294967295

unfoldable pub add_task : Session → ℕ → (ℕ × Option Error) × Session
unfolding owns_task
add_task s task =
    if s.task_indexer == no_index - 1
    then ((no_index, some too_many_tasks), s)
    else if owns_task s task == 0
    then ((no_index, some task_owned), s)
    else (
      (s.task_indexer, none),
      record s { tasks = task ∷ s.tasks; task_indexer = (s.task_indexer + 1) % (no_index + 1) },
    )

-- `g_list_remove`: the first occurrence
unfoldable pub list_remove : List ℕ → ℕ → List ℕ
list_remove [] task = []
list_remove (t ∷ ts) task = if t == task then ts else t ∷ list_remove ts task

unfoldable pub remove_task : Session → ℕ → Session
remove_task s task = record s { tasks = list_remove s.tasks task }
