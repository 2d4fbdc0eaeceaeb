-- ===== src/Service/Tests.antt =====
-- Runs of the service, and the theorems about it at concrete inputs.
use abrt.Base.{
  ℕ, Option, ◌+◌, ◌*◌, ◌^◌, ◌≤◌, ◌<◌, ◌==◌, ◌≡◌, refl, inr, true, false, List, [], ◌∷◌, none, some,
  if◌then◌else◌, Str, codes, str_eq, arith,
}
use abrt.Session.Machine.{Session, authorized, session_new}
use abrt.Session.Token.{is_authorized}
use abrt.Session.{check_sanity}
use abrt.Service.Access.{IsOwn, get_session_for_caller-IsOwn, caller_uid-root, failed_registration}
use abrt.Service.Growth.{sessions_of}
use abrt.Service.Quota.{Call, connects, deletes_entry, asks, serve, serve-sessions}
use abrt.Service.Throttle.{ask, allowed, ask-bound, can_create_in_time}
use abrt.Service.{
  UserInfo, Service, user_info_new, user_or_new, user_insert, aborts, refused, not_registered,
  get_object, get_session_for_caller, get_session_uid, too_many, caller_uid,
  session_object_register, user_can_create_new_problem, user_problems_limit, refill, to_int,
  entry_object_destructor,
}

-- The defaults of `abrt_p2_service_private_init`, but for a limit of two problems.
abbrev started : Service
started = record {
  users = λ _. none;
  objects = [];
  limit_clients = 5;
  limit_elements = 100;
  limit_data_size = 2145386496;
  limit_user_problems = 2;
  throttling_magnitude = 4;
  new_problems_batch = 10;
  signals = [];
}

abbrev paul : UserInfo
paul = record user_info_new { new_problems = 1; new_problem_last = 1000 }

abbrev known : Service
known = record started { users = λ uid. if uid == 1000 then some paul else none }

-- Within sixteen seconds there is one token, then none until the next has come.
ask-known : (ask 1000 (some 1003 ∷ some 1007 ∷ none ∷ some 1019 ∷ []) known).0 ≡ 2
unfolding user_can_create_new_problem user_insert user_problems_limit refill to_int
ask-known = refl

ask-bound_example :
    (v : UserInfo) × ((ask 1000 (some 1003 ∷ some 1007 ∷ []) known).1.users 1000 ≡ some v)
    × (((ask 1000 (some 1003 ∷ some 1007 ∷ []) known).0 + v.new_problems) * 2 ^ 4 + 1000
        ≤ 1 * 2 ^ 4 + v.new_problem_last)
ask-bound_example = ask-bound 1000 (some 1003 ∷ some 1007 ∷ []) known paul (omega arith) refl

can_create_in_time_example : allowed (user_can_create_new_problem known 1000 (some 1016)).0 ≡ 1
can_create_in_time_example =
    can_create_in_time 1000 1016 known paul (omega arith) refl (inr (omega arith)) (omega arith)
      (omega arith) (omega arith) (omega arith)

-- A hash that puts all callers on one path.
abbrev one_path : Str → Str
one_path caller = codes "/Session/0"

abbrev paul_bus : Str
paul_bus = codes ":1.7"

abbrev holder : Session
holder = record (session_new paul_bus 1000) { state = authorized }

abbrev serving : Service
serving = record known { objects = (codes "/Session/0", holder) ∷ [] }

get_session_for_caller-IsOwn_example :
    IsOwn paul_bus 1000 (get_session_for_caller one_path true serving paul_bus 1000).0
get_session_for_caller-IsOwn_example =
    get_session_for_caller-IsOwn one_path true serving paul_bus 1000

caller_uid-serving : (caller_uid one_path true serving paul_bus (some 1000)).0 ≡ some 0
unfolding caller_uid get_session_for_caller get_object str_eq check_sanity get_session_uid
    is_authorized session_new
caller_uid-serving = refl

caller_uid-root_example :
    (s : Session) × (get_object serving.objects (one_path paul_bus) ≡ some s)
    × (s.caller ≡ paul_bus)
    × (s.uid ≡ 1000)
    × (s.state ≡ authorized)
caller_uid-root_example =
    caller_uid-root one_path true serving paul_bus 1000 (omega arith) caller_uid-serving

failed_registration_example :
    let r = session_object_register false started (codes "/Session/0") paul_bus 1000 in
    (sessions_of (started.users 1000) ≡ 0 → r.0 ≡ aborts)
    × (0 < sessions_of (started.users 1000) → r.0 ≡ refused not_registered)
failed_registration_example = failed_registration started (codes "/Session/0") paul_bus 1000 free
  where
    free : too_many (started.users 1000) 5 ≡ false
    free = unfold too_many in refl

abbrev full_service : Service
full_service = record started {
  users = λ uid. if 1000 == uid then some (record user_info_new { problems = 2 }) else none;
}

abbrev more : List Call
more = connects true paul_bus 1000 ∷ deletes_entry ∷ asks 1000 (some 5000) ∷ []

abbrev service_or : Service → Option Service → Service
service_or other none = other
service_or other (some service) = service

-- With the session of the client, and with a problem less that it may create
abbrev served : Service
served = service_or full_service (serve one_path more full_service)

serve-more :
    (serve one_path more full_service ≡ some served) × (sessions_of (served.users 1000) ≡ 1)
unfolding user_can_create_new_problem user_problems_limit entry_object_destructor
    get_session_for_caller get_object session_object_register too_many user_insert user_or_new
serve-more = (refl, refl)

serve-sessions_example : sessions_of (served.users 1000) ≤ 5
serve-sessions_example =
    serve-sessions one_path more full_service (omega arith) few serve-more.0 1000
  where
    few : (uid : ℕ) → sessions_of (full_service.users uid) ≤ 5
    few uid = ground arith
