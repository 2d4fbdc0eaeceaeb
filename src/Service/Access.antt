-- ===== src/Service/Access.antt =====
-- Whom the service takes a caller for.
use abrt.Base.{
  ℕ, ◌<◌, ◌≡◌, ◌≢◌, refl, inl, inr, Bool, true, false, List, [], ◌∷◌, Option, none, some,
  if◌then◌else◌, Str, str_eq_iff, arith, Bool-cases, length,
}
use abrt.Session.Machine.{Session, session_new, authorized}
use abrt.Session.Token.{is_authorized}
use abrt.Session.{check_sanity}
use abrt.Service.Growth.{sessions_of}
use abrt.Service.{
  leave, not_registered, object_remove, session_object_destructor, UserInfo, Service, Got, got,
  refused, aborts, too_many, add_session, not_added, object_free, session_object_register,
  get_object, sane, get_or_register, get_session_for_caller, get_session_uid, uid_of, caller_uid,
}

-- What a caller may get: its own session, of its own user.
abbrev pub IsOwn : Str → ℕ → Got → Type 0
IsOwn caller uid (got session) = (session.caller ≡ caller) × (session.uid ≡ uid)
IsOwn caller uid _ = Unit

sane-IsOwn :
    (session : Session) (caller : Str) (uid : ℕ) → IsOwn caller uid (sane session caller uid)
unfolding sane check_sanity
sane-IsOwn session caller uid = ground (arith, str_eq_iff session.caller caller)

not_added-IsOwn :
    (service : Service) (o : Option Service) (caller : Str) (uid : ℕ)
    → IsOwn caller uid (not_added service o).0
unfolding not_added
not_added-IsOwn service none caller uid = tt
not_added-IsOwn service (some after) caller uid = tt

register-IsOwn :
    (registers : Bool) (service : Service) (path caller : Str) (uid : ℕ)
    → IsOwn caller uid (session_object_register registers service path caller uid).0
unfolding session_object_register add_session session_new
register-IsOwn registers service path caller uid =
    elim (Bool-cases (too_many (service.users uid) service.limit_clients)) [
      | inl full ↦ rw full tt
      | inr free ↦ rw free (added registers)
    ]
  where
    added :
        (b : Bool)
        → IsOwn caller uid
            (if b
              then add_session service path caller uid
              else not_added service (object_free service path (session_new caller uid))).0
    added true = (refl, refl)
    added false = not_added-IsOwn service _ caller uid

-- A caller gets a session of its own bus name and user or none at all, whatever paths the hash makes:
-- also where two callers fall on one path.
pub get_session_for_caller-IsOwn :
    (to_path : Str → Str) (registers : Bool) (service : Service) (caller : Str) (uid : ℕ)
    → IsOwn caller uid (get_session_for_caller to_path registers service caller uid).0
unfolding get_session_for_caller
get_session_for_caller-IsOwn to_path registers service caller uid =
    found (get_object service.objects (to_path caller))
  where
    found :
        (o : Option Session)
        → IsOwn caller uid (get_or_register o registers service (to_path caller) caller uid).0
    found none =
        unfold get_or_register in register-IsOwn registers service (to_path caller) caller uid
    found (some session) = unfold get_or_register in sane-IsOwn session caller uid

is_authorized_state : (s : Session) → is_authorized s ≡ true → s.state ≡ authorized
unfolding is_authorized
is_authorized_state s h = ground arith

uid_of-sane :
    (session : Session) (service : Service) (caller : Str) (real : ℕ)
    → real ≢ 0
    → (uid_of (sane session caller real, service)).0 ≡ some 0
    → (session.caller ≡ caller) × (session.uid ≡ real) × (session.state ≡ authorized)
unfolding sane check_sanity uid_of get_session_uid
uid_of-sane session service caller real h e =
    ground (arith, str_eq_iff session.caller caller, is_authorized_state session)

not_added-uid : (service : Service) (o : Option Service) → (uid_of (not_added service o)).0 ≡ none
unfolding not_added uid_of
not_added-uid service none = refl
not_added-uid service (some after) = refl

added-uid :
    (service : Service) (path caller : Str) (real : ℕ)
    → real ≢ 0
    → (uid_of (add_session service path caller real)).0 ≢ some 0
unfolding add_session uid_of get_session_uid session_new is_authorized
added-uid service path caller real h e = ground arith

registered-uid :
    (registers : Bool) (service : Service) (path caller : Str) (real : ℕ)
    → real ≢ 0
    → (uid_of (session_object_register registers service path caller real)).0 ≢ some 0
unfolding session_object_register uid_of
registered-uid registers service path caller real h e = ground (
  arith,
  added-uid service path caller real h,
  not_added-uid service (object_free service path (session_new caller real)),
)

-- The rights of root are given to a caller of another user only where its session, already known to
-- the service, belongs to that caller and user and is authorized.
pub caller_uid-root :
    (to_path : Str → Str) (registers : Bool) (service : Service) (caller : Str) (real : ℕ)
    → real ≢ 0
    → (caller_uid to_path registers service caller (some real)).0 ≡ some 0
    → (s : Session) × (get_object service.objects (to_path caller) ≡ some s)
      × (s.caller ≡ caller)
      × (s.uid ≡ real)
      × (s.state ≡ authorized)
unfolding caller_uid get_session_for_caller
caller_uid-root to_path registers service caller real h =
    found (get_object service.objects (to_path caller)) refl
  where
    found :
        (o : Option Session)
        → get_object service.objects (to_path caller) ≡ o
        → (uid_of (get_or_register o registers service (to_path caller) caller real)).0 ≡ some 0
        → (s : Session) × (o ≡ some s)
          × (s.caller ≡ caller)
          × (s.uid ≡ real)
          × (s.state ≡ authorized)
    found none q e = absurd (
        registered-uid registers service (to_path caller) caller real h
          (unfold get_or_register in e))
    found (some session) q e =
        let (c, u, a) = uid_of-sane session service caller real h (unfold get_or_register in e) in
        (session, refl, c, u, a)

left :
    (a b : Service) (uid : ℕ) (path : Str) (o : Option UserInfo)
    → ((sessions_of o ≡ 0) → (not_added a (leave b uid path o)).0 ≡ aborts)
      × (0 < sessions_of o → (not_added a (leave b uid path o)).0 ≡ refused not_registered)
unfolding leave not_added
left a b uid path none = ground arith
left a b uid path (some user) = by_sessions user.sessions refl
  where
    by_sessions :
        (ps : List Str)
        → user.sessions ≡ ps
        → ((length user.sessions ≡ 0) → (not_added a (leave b uid path (some user))).0 ≡ aborts)
          × (0 < length user.sessions
              → (not_added a (leave b uid path (some user))).0 ≡ refused not_registered)
    by_sessions [] e = unfold leave in unfold not_added in ground arith
    by_sessions (p ∷ ps) e = unfold leave in unfold not_added in ground arith

-- Where D-Bus refuses the session's object, the error reaches the caller only if its user has another
-- session; the first session of a user brings the process down.
pub failed_registration :
    (service : Service) (path caller : Str) (uid : ℕ)
    → too_many (service.users uid) service.limit_clients ≡ false
    → let r = session_object_register false service path caller uid in
      (sessions_of (service.users uid) ≡ 0 → r.0 ≡ aborts)
      × (0 < sessions_of (service.users uid) → r.0 ≡ refused not_registered)
unfolding session_object_register object_free session_object_destructor session_new
failed_registration service path caller uid free = rw free (
    left service (record service { objects = object_remove service.objects path }) uid path
      (service.users uid))
