-- ===== src/Service.antt =====
-- src/dbus/abrt_problems2_service.c: the users of the service, their sessions and their limits.
-- A session object is its path and the session; `to_path` is the hash that makes a path of a caller's
-- bus name. Whether D-Bus registers an object, what it says of a caller, and the clock are arguments.
pub mod Throttle
pub mod Access
pub mod Growth
pub mod Quota
pub mod Tests
use abrt.Base.{
  ℕ, zero, suc, ◌+◌, ◌-◌, ◌/◌, ◌%◌, ◌^◌, Bool, true, false, not, ◌&&◌, List, [], ◌∷◌, Option, none,
  some, ltb, leb, ◌==◌, if◌then◌else◌, Str, str_eq, length, is_some,
}
use abrt.Base.Int.{ℤ, pos, negsuc, u32_mod}
use abrt.Session.Machine.{Session, session_new}
use abrt.Session.Token.{is_authorized}
use abrt.Session.{check_sanity}

-- `struct user_info`; a session is its object's path.
pub record UserInfo : Type 0 where
  pub sessions : List Str
  pub problems : ℕ
  pub new_problems : ℕ
  pub new_problem_last : ℕ

pub data ClientSignal : Type 0 where
  new_client_connected all_clients_disconnected : ClientSignal

-- `signals` is what was emitted, the last one first.
pub record Service : Type 0 where
  pub users : ℕ → Option UserInfo
  pub objects : List (Str × Session)
  pub limit_clients : ℕ
  pub limit_elements : ℕ
  pub limit_data_size : ℕ
  pub limit_user_problems : ℕ
  pub throttling_magnitude : ℕ
  pub new_problems_batch : ℕ
  pub signals : List ClientSignal

abbrev pub user_info_new : UserInfo
user_info_new = record { sessions = []; problems = 0; new_problems = 0; new_problem_last = 0 }

unfoldable pub user_insert : Service → ℕ → UserInfo → Service
user_insert service uid user = record service {
  users = λ other. if uid == other then some user else service.users other;
}

-- `abrt_p2_service_user_lookup`, and `abrt_p2_service_user_new` where there is no user.
unfoldable pub user_or_new : Option UserInfo → UserInfo
user_or_new none = user_info_new
user_or_new (some user) = user

pub data Refusal : Type 0 where
  too_many_sessions not_registered broken : Refusal

-- What the caller gets; `aborts`: the process ends, by abort() or by following a null pointer.
pub data Got : Type 0 where
  got : Session → Got
  refused : Refusal → Got
  aborts : Got

-- `g_hash_table_remove(obj->p2o_type->objects, obj->p2o_path)`
pub object_remove : List (Str × Session) → Str → List (Str × Session)
object_remove [] path = []
object_remove ((p, session) ∷ objects) path =
    let rest = object_remove objects path in if str_eq p path then rest else (p, session) ∷ rest

-- `g_list_remove(user->sessions, session)`
pub session_remove : List Str → Str → List Str
session_remove [] path = []
session_remove (p ∷ ps) path = if str_eq p path then ps else p ∷ session_remove ps path

-- The signal when there is no client any more
pub all_disconnected : Service → Service
all_disconnected service = elim service.objects [
  | [] ↦ record service { signals = all_clients_disconnected ∷ service.signals }
  | _ ∷ _ ↦ service
]

pub leave : Service → ℕ → Str → Option UserInfo → Option Service
leave service uid path none = none
leave service uid path (some user) = elim user.sessions [
  | [] ↦ none
  | p ∷ ps ↦ some (
      all_disconnected
        (user_insert service uid (record user { sessions = session_remove (p ∷ ps) path })))
]

-- `session_object_destructor`; `none`: it aborts. The session, which ends here, is not kept. In the list
-- of its user it stands by its path, which no other registered session has, in place of its pointer.
unfoldable pub session_object_destructor : Service → Str → Session → Option Service
unfolding leave
session_object_destructor service path session =
    leave service session.uid path (service.users session.uid)

-- `abrt_p2_object_free` of a session object
unfoldable pub object_free : Service → Str → Session → Option Service
object_free service path session =
    session_object_destructor (record service { objects = object_remove service.objects path }) path
      session

pub too_many : Option UserInfo → ℕ → Bool
too_many none limit = false
too_many (some user) limit = leb limit (length user.sessions)

pub add_session : Service → Str → Str → ℕ → Got × Service
unfolding user_insert
add_session service path caller uid =
    let user = user_or_new (service.users uid) in
    let session = session_new caller uid in
    (
      got session,
      record (user_insert service uid (record user { sessions = path ∷ user.sessions })) {
        objects = (path, session) ∷ service.objects;
        signals = new_client_connected ∷ service.signals;
      },
    )

-- `abrt_p2_object_new` frees the object that D-Bus has not registered.
pub not_added : Service → Option Service → Got × Service
not_added before none = (aborts, before)
not_added before (some after) = (refused not_registered, after)

-- `registers` is whether D-Bus registers the object.
unfoldable pub session_object_register : Bool → Service → Str → Str → ℕ → Got × Service
unfolding add_session too_many not_added
session_object_register registers service path caller uid =
    if too_many (service.users uid) service.limit_clients
    then (refused too_many_sessions, service)
    else if registers
    then add_session service path caller uid
    else not_added service (object_free service path (session_new caller uid))

-- `problems2_object_type_get_object`
unfoldable pub get_object : List (Str × Session) → Str → Option Session
get_object [] path = none
get_object ((p, session) ∷ objects) path =
    if str_eq p path then some session else get_object objects path

pub sane : Session → Str → ℕ → Got
sane session caller uid = elim (check_sanity session caller uid) [
  | none ↦ got session
  | some error ↦ refused broken
]

pub get_or_register : Option Session → Bool → Service → Str → Str → ℕ → Got × Service
get_or_register none registers service path caller uid =
    session_object_register registers service path caller uid
get_or_register (some session) registers service path caller uid =
    (sane session caller uid, service)

unfoldable pub get_session_for_caller : (Str → Str) → Bool → Service → Str → ℕ → Got × Service
unfolding get_or_register sane
get_session_for_caller to_path registers service caller uid =
    get_or_register (get_object service.objects (to_path caller)) registers service (to_path caller)
      caller uid

-- `abrt_p2_service_get_session_uid`
unfoldable pub get_session_uid : Session → ℕ
get_session_uid session = if is_authorized session then 0 else session.uid

pub uid_of : Got × Service → Option ℕ × Service
uid_of (got session, service) = (some (get_session_uid session), service)
uid_of (refused r, service) = (none, service)
uid_of (aborts, service) = (none, service)

-- `none` is (uid_t)-1. `real` is `abrt_p2_service_caller_real_uid`.
unfoldable pub caller_uid : (Str → Str) → Bool → Service → Str → Option ℕ → Option ℕ × Service
unfolding uid_of
caller_uid to_path registers service caller none = (none, service)
caller_uid to_path registers service caller (some real) =
    uid_of (get_session_for_caller to_path registers service caller real)

-- `entry_object_destructor`: the entry alone is freed.
unfoldable pub entry_object_destructor : Service → Service
entry_object_destructor service = service

abbrev pub ulong_max : ℕ
ulong_max = 2 ^ 64 - 1

-- The user's part of `abrt_p2_service_register_entry`, for an entry of this owner; `none`: the
-- process gives up.
unfoldable pub register_entry : Service → ℕ → Option Service
register_entry service owner =
    let user = user_or_new (service.users owner) in
    if user.problems == ulong_max
    then none
    else some (user_insert service owner (record user { problems = user.problems + 1 }))

unfoldable pub user_problems_limit : Service → ℕ → ℕ
user_problems_limit service uid = if uid == 0 then 0 else service.limit_user_problems

unfoldable pub elements_limit : Service → ℕ → ℕ
elements_limit service uid = if uid == 0 then 0 else service.limit_elements

unfoldable pub data_size_limit : Service → ℕ → ℕ
data_size_limit service uid = if uid == 0 then 0 else service.limit_data_size

-- `user->new_problems` with what has come since the last problem; the sum is a 32-bit one.
unfoldable pub refill : ℕ → ℕ → ℕ → ℕ
refill npb tokens incr =
    if ltb npb incr
    then npb
    else let sum = (tokens + incr) % u32_mod in if ltb npb sum then npb else sum

-- An `unsigned` returned as `int`
unfoldable pub to_int : ℕ → ℤ
to_int n = if ltb n (2 ^ 31) then pos n else negsuc (u32_mod - 1 - n)

abbrev minus_e2big : ℤ
minus_e2big = negsuc 6

pub spend : Service → ℕ → UserInfo → ℕ → ℕ → ℤ × Service
spend service uid user current tokens =
    if tokens == 0 then (pos 0, user_insert service uid (record user { new_problems = 0 })) else (
      to_int tokens,
      user_insert service uid
          (record user { new_problems = tokens - 1; new_problem_last = current }),
    )

pub can_create_from : Service → ℕ → ℕ → Option UserInfo → ℤ × Service
unfolding spend
can_create_from service uid current none = (negsuc 0, service)
can_create_from service uid current (some user) =
    let upl = user_problems_limit service uid in
    if not (upl == 0) && leb upl user.problems
    then (minus_e2big, service)
    else if ltb current user.new_problem_last
    then (negsuc 0, service)
    else let incr = (current - user.new_problem_last) / 2 ^ service.throttling_magnitude in
      spend service uid user current (refill service.new_problems_batch user.new_problems incr)

pub can_create_at : Service → ℕ → Option ℕ → ℤ × Service
unfolding can_create_from
can_create_at service uid none = (negsuc 0, service)
can_create_at service uid (some current) = can_create_from service uid current (service.users uid)

unfoldable pub user_can_create_new_problem : Service → ℕ → Option ℕ → ℤ × Service
unfolding can_create_at
user_can_create_new_problem service uid time =
    if uid == 0 then (pos 1, service) else can_create_at service uid time
