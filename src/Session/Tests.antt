-- ===== src/Session/Tests.antt =====
-- Runs of sessions, and the theorems about them at concrete inputs.
use abrt.Base.{
  ◌<◌, Bool, ℕ, ◌==◌, if◌then◌else◌, ◌≡◌, refl, true, false, List, [], ◌∷◌, map, Option, none, some,
  Str, codes, arith, str_eq,
}
use abrt.Session.Machine.{
  initial, pending, authorized, Session, failed, granted, new_request, session_new,
  authorization_request_initialize, check_authorization_callback, revoke_authorization,
  change_state, grant_authorization, finalize, now_pending, now_authorized,
}
use abrt.Session.Owner.{adds, removes, task_indexes}
use abrt.Session.Peers.{Outcome, authorize_peer_with_token-Outcome, token_text, token_once}
use abrt.Session.Refines.{Evolves, authorize-Evolves}
use abrt.Base.Int.{negsuc}
use abrt.Task.Changes.{IsTame, SameBase-refl}
use abrt.Task.Finish.{GTask}
use abrt.Task.{Task, TaskClass, new_task, running}
use abrt.Session.Disposal.{clean_tasks, AllReleased, clean_tasks-AllReleased}
use abrt.Session.Stale.{stale_answer}
use abrt.Session.Steps.{begins, answers, here, next, IsSound, Reach-IsSound}
use abrt.Session.Token.{
  table_remove, generate_token, draws, c_string, token_byte, expire_lookup, is_expired,
  is_authorized,
}
use abrt.Session.{
  Sessions, Parameters, authorize, authorize_peer_with_token, find_caller, find_task, add_task,
  remove_task, list_remove,
}

abbrev caller : Str
caller = codes ":1.5"

abbrev fresh : Session
fresh = session_new caller 1000

abbrev asking : Session
asking = authorization_request_initialize fresh none

abbrev agreed : Session
agreed = check_authorization_callback 0 (some true) asking

agreed_runs : (agreed.state ≡ authorized) × (agreed.signals ≡ now_authorized ∷ now_pending ∷ [])
unfolding check_authorization_callback authorization_request_initialize change_state session_new
agreed_runs = (refl, refl)

Reach-IsSound_example : IsSound 1000 agreed
Reach-IsSound_example =
    Reach-IsSound caller 1000
      (next (next here (begins fresh none alive start)) (answers asking 0 (some true)))
  where
    alive : fresh.alive ≡ true
    alive = unfold session_new in refl

    start : fresh.state ≡ initial
    start = unfold session_new in refl

abbrev root : Session
root = session_new (codes ":1.1") 0

abbrev other_root : Session
other_root = session_new (codes ":1.2") 0

abbrev sixteen : List ℕ
sixteen =
    0 ∷ 40000000 ∷ 80000000 ∷ 120000000 ∷ 160000000 ∷ 200000000 ∷ 240000000 ∷ 280000000 ∷ 320000000
    ∷ 360000000 ∷ 400000000 ∷ 440000000 ∷ 480000000 ∷ 520000000 ∷ 560000000 ∷ 2147483646 ∷ []

token_runs : c_string (map token_byte sixteen) ≡ codes "ABCDEFHIJKLNOPQ/"
unfolding c_string token_byte
token_runs = refl

authorize_peer_with_token-Outcome_example :
    Outcome root other_root
      (codes "T")
      (some 9)
      (authorize_peer_with_token root other_root (codes "T") (some 9))
authorize_peer_with_token-Outcome_example =
    authorize_peer_with_token-Outcome root other_root (codes "T") (some 9)

token_once_example :
    let (_, s') = generate_token root 0 (draws sixteen) (some 100) in
    let (reply, s'', peer') =
      authorize_peer_with_token s' other_root (token_text sixteen) (some 105) in
    (reply ≡ (granted, none))
    × (peer'.state ≡ authorized)
    × ((later : Option ℕ)
        → (authorize_peer_with_token s'' fresh (token_text sixteen) later).0.0 ≡ failed)
    × ((late : ℕ)
        → 105 < late
        → let (refusal, kept, spared) =
            authorize_peer_with_token s' other_root (token_text sixteen) (some late) in
          (refusal.0 ≡ failed) × (kept ≡ s') × (spared ≡ other_root))
unfolding session_new
token_once_example =
    token_once root other_root fresh 0 sixteen 100 refl (omega arith) 105 refl (omega arith)
      (omega arith)

abbrev busy : Session
busy = record fresh { tasks = 4 ∷ []; task_indexer = 1 }

task_indexes_run : task_indexes (adds 4 ∷ adds 5 ∷ removes 4 ∷ adds 4 ∷ []) busy ≡ 1 ∷ 2 ∷ []
unfolding add_task find_task remove_task list_remove
task_indexes_run = refl

abbrev first_request : Session
first_request = record fresh {
  state = pending;
  auth_rq = some 0;
  requests = λ i. if i == 0 then new_request none else none;
  next_request = 1;
}

stale_answer_example :
    let again = authorization_request_initialize (revoke_authorization first_request) none in
    let t = check_authorization_callback 0 none again in
    (again.state ≡ pending)
    × (t.state ≡ initial)
    × (t.requests 1 ≡ new_request none)
    × (revoke_authorization t ≡ t)
    × ((check_authorization_callback 1 (some true) t).state ≡ authorized)
    × ((finalize t).requests 1 ≡ new_request none)
unfolding session_new
stale_answer_example =
    stale_answer first_request 0 (record { cancelled = false; has_session = true; message = none })
      none (omega arith) refl refl refl refl (omega arith)

abbrev by_peer : Parameters
by_peer = record { peer_bus = some caller; peer_token = some (codes "T"); message = none }

abbrev passing : Session
passing = record agreed { tokens = λ _. some 77 }

abbrev joining : Session
joining = session_new (codes ":1.6") 1000

abbrev sessions : Sessions
sessions = joining ∷ passing ∷ []

abbrev joined : Sessions
joined =
    grant_authorization joining
    ∷ record passing { tokens = table_remove passing.tokens (codes "T") }
    ∷ []

authorize_runs : authorize by_peer sessions 0 (some 77) ≡ some ((granted, none), joined)
unfolding authorize authorize_peer_with_token find_caller str_eq session_new is_authorized
    check_authorization_callback authorization_request_initialize change_state expire_lookup
    is_expired
authorize_runs = refl

authorize-Evolves_example : Evolves sessions joined
unfolding session_new check_authorization_callback authorization_request_initialize change_state
authorize-Evolves_example =
    authorize-Evolves by_peer sessions joined 0 (some 77) (granted, none) (refl, (refl, tt))
      authorize_runs

abbrev plain : TaskClass ℕ
plain = record { start = none; cancel = some (λ t. (t, none)); finish = none }

abbrev waiting_task : Task ℕ
waiting_task = new_task 0 false

abbrev busy_task : Task ℕ
busy_task = record waiting_task { status = running; cancellable = some false }

plain-IsTame : IsTame plain
plain-IsTame = record { tame_start = tt; tame_cancel = λ t. SameBase-refl t; tame_finish = tt }

abbrev glib : GTask
glib = record {
  propagate = λ cancelled code error. elim cancelled [
    | true ↦ (negsuc 0, some (codes "cancelled"))
    | false ↦ (code, error)
  ];
  propagate_cancelled = λ code error. (codes "cancelled", refl);
}

clean_tasks-AllReleased_example :
    (us : List (Task ℕ × Bool)) × (clean_tasks plain (busy_task ∷ waiting_task ∷ []) ≡ some us)
    × AllReleased plain glib (busy_task ∷ waiting_task ∷ []) us
unfolding new_task
clean_tasks-AllReleased_example =
    clean_tasks-AllReleased plain plain-IsTame glib (busy_task ∷ waiting_task ∷ [])
      (refl, (refl, tt))
