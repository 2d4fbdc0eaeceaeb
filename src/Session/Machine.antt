-- ===== src/Session/Machine.antt =====
-- The session object, its state changes with the signal of each, and the requests to polkit.
use abrt.Base.{
  ℕ, ◌+◌, Bool, true, false, List, [], ◌∷◌, Option, none, some, ◌==◌, if◌then◌else◌, Str,
}

pub data State : Type 0 where
  initial pending authorized : State

-- The signal AuthorizationChanged
pub data Changed : Type 0 where
  now_authorized now_pending now_not_authorized now_failed : Changed

-- `struct check_auth_cb_params`: whether its cancellable was cancelled, whether `session` still
-- points to the session, and the message of the dialog.
pub record Request : Type 0 where
  pub cancelled : Bool
  pub has_session : Bool
  pub message : Option Str

-- `signals` lists what was emitted, the last one first. `alive` falls when the object is finalized.
pub record Session : Type 0 where
  pub caller : Str
  pub uid : ℕ
  pub state : State
  pub tasks : List ℕ
  pub task_indexer : ℕ
  pub tokens : Str → Option ℕ
  pub auth_rq : Option ℕ
  pub requests : ℕ → Option Request
  pub next_request : ℕ
  pub signals : List Changed
  pub alive : Bool

pub data Error : Type 0 where
  not_authorized urandom_open urandom_read no_time : Error
  cannot_pass owners_differ no_such_token token_expired : Error
  no_peer invalid_parameters too_many_tasks task_owned broken_session : Error

-- AbrtP2SessionAuthRequestRet
pub data Ret : Type 0 where
  failed granted accepted is_pending : Ret

-- The signal for a change of state; `none` is the label `forgotten_state`.
unfoldable pub signal_of : State → State → Option Changed
signal_of initial pending = some now_pending
signal_of initial authorized = some now_authorized
signal_of pending authorized = some now_authorized
signal_of authorized initial = some now_not_authorized
signal_of pending initial = some now_failed
signal_of _ _ = none

same_state : State → State → Bool
same_state initial initial = true
same_state pending pending = true
same_state authorized authorized = true
same_state _ _ = false

emit : Option Changed → Session → Session
emit none s = s
emit (some c) s = record s { signals = c ∷ s.signals }

unfoldable pub change_state : Session → State → Session
unfolding same_state signal_of emit
change_state s new =
    if same_state s.state new then s else emit (signal_of s.state new) (record s { state = new })

abbrev pub put : (ℕ → Option Request) → ℕ → Option Request → ℕ → Option Request
put requests i r j = if i == j then r else requests j

abbrev cancelled : Option Request → Option Request
cancelled none = none
cancelled (some r) = some (record r { cancelled = true })

-- `g_cancellable_cancel(session->pv->p2s_auth_rq->cancellable)`. Without a request this would follow
-- a null pointer: the invariant of `Requests` excludes it.
unfoldable pub cancel_request : Session → Session
cancel_request s = elim s.auth_rq [
  | none ↦ s
  | some i ↦ record s { requests = put s.requests i (cancelled (s.requests i)) }
]

unfoldable pub revoke_from : State → Session → Session
revoke_from authorized s = change_state s initial
revoke_from pending s = change_state (cancel_request s) initial
revoke_from initial s = s

unfoldable pub revoke_authorization : Session → Session
unfolding revoke_from
revoke_authorization s = if s.uid == 0 then s else revoke_from s.state s

unfoldable pub grant_from : State → Session → Session
grant_from authorized s = s
grant_from pending s = change_state (cancel_request s) authorized
grant_from initial s = change_state s authorized

unfoldable pub grant_authorization : Session → Session
unfolding grant_from
grant_authorization s = grant_from s.state s

abbrev pub new_request : Option Str → Option Request
new_request message = some (record { cancelled = false; has_session = true; message = message })

abbrev pub registered : Session → Option Str → Session
registered s message = record s {
  auth_rq = some s.next_request;
  requests = put s.requests s.next_request (new_request message);
  next_request = s.next_request + 1;
}

-- `authorization_request_initialize`, up to the call of polkit, which answers later.
unfoldable pub authorization_request_initialize : Session → Option Str → Session
authorization_request_initialize s message = change_state (registered s message) pending

-- `check_authorization_callback` on the session that the request points to
unfoldable pub answered : Option Bool → Session → Session
answered (some true) s = record (change_state s authorized) { auth_rq = none }
answered _ s = record (change_state s initial) { auth_rq = none }

-- The callback for request `i`, with polkit's result: `none` is an error, `some b` whether the
-- subject is authorized. A request that points to a session that is gone has no effect on it.
unfoldable pub check_authorization_callback : ℕ → Option Bool → Session → Session
unfolding answered
check_authorization_callback i result s = elim (s.requests i) [
  | none ↦ s
  | some r ↦
      let freed = record s { requests = put s.requests i none } in
      if r.has_session then answered result freed else freed
]

unfoldable pub session_new : Str → ℕ → Session
session_new caller uid = record {
  caller = caller;
  uid = uid;
  state = if uid == 0 then authorized else initial;
  tasks = [];
  task_indexer = 0;
  tokens = λ _. none;
  auth_rq = none;
  requests = λ _. none;
  next_request = 0;
  signals = [];
  alive = true;
}

abbrev orphaned : Option Request → Option Request
orphaned none = none
orphaned (some r) = some (record r { has_session = false })

-- `abrt_p2_session_finalize`
unfoldable pub finalize : Session → Session
finalize s = elim s.auth_rq [
  | none ↦ record s { alive = false }
  | some i ↦ record s { alive = false; requests = put s.requests i (orphaned (s.requests i)) }
]
