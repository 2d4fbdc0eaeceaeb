-- ===== src/Session/Stale.antt =====
-- What the answer to a request does that the session has given up.
use abrt.Base.{ℕ, ◌<◌, ◌≡◌, ◌≢◌, true, Option, none, some, arith, Str}
use abrt.Session.Machine.{
  initial, pending, authorized, Request, Session, change_state, cancel_request, new_request,
  revoke_authorization, authorization_request_initialize, check_authorization_callback, finalize,
}

-- A client revokes its pending authorization and asks again, before polkit has answered the first
-- request. That answer, an error since the request was cancelled, puts the session back to the
-- initial state and makes it forget the second request, although polkit still has it: revoking then
-- cancels nothing, the session is authorized when the user agrees, and a session that is finalized
-- leaves the second request with a pointer to it.
pub stale_answer :
    (s : Session) (i : ℕ) (r : Request) (message : Option Str)
    → s.uid ≢ 0
    → s.state ≡ pending
    → s.auth_rq ≡ some i
    → s.requests i ≡ some r
    → r.has_session ≡ true
    → i < s.next_request
    → let again = authorization_request_initialize (revoke_authorization s) message in
      let t = check_authorization_callback i none again in
      (again.state ≡ pending)
      × (t.state ≡ initial)
      × (t.requests s.next_request ≡ new_request message)
      × (revoke_authorization t ≡ t)
      × ((check_authorization_callback s.next_request (some true) t).state ≡ authorized)
      × ((finalize t).requests s.next_request ≡ new_request message)
unfolding revoke_authorization authorization_request_initialize check_authorization_callback
    finalize cancel_request change_state
stale_answer s i r message u p q e h l = ground arith
