-- ===== src/Service/Quota.antt =====
-- What the service counts for each user, over time.
use abrt.Base.{
  ℕ, ◌+◌, ◌-◌, ◌≤◌, ◌<◌, ◌≡◌, ◌≢◌, refl, sym, subst, inl, Bool, List, [], ◌∷◌, Option, none, some,
  ◌==◌, Str, arith, length, ltb, if_both,
}
use abrt.Base.Int.{ℤ}
use abrt.Session.Machine.{Session}
use abrt.Service.{
  UserInfo, Service, user_insert, user_or_new, Got, got, refused, aborts, object_free, get_object,
  get_session_for_caller, get_or_register, register_entry, entry_object_destructor,
  user_can_create_new_problem, can_create_at, can_create_from, user_problems_limit, spend,
  ulong_max,
}
use abrt.Service.Growth.{
  unless_aborts, problems_of, sessions_of, Grows, Leaves, Grows-refl, Grows-trans, changed-Grows,
  object_free-Leaves, old_problems, register-Grows,
}
use abrt.Service.Throttle.{allowed, other_than_root}

-- What happens to the service.
pub data Call : Type 0 where
  connects : Bool → Str → ℕ → Call
  disconnects : Str → Call
  registers_entry : ℕ → Call
  deletes_entry : Call
  asks : ℕ → Option ℕ → Call

abbrev free_object : Service → Str → Option Session → Option Service
free_object service path none = some service
free_object service path (some session) = object_free service path session

abbrev pub serve_one : (Str → Str) → Call → Service → Option Service
serve_one to_path (connects registers caller uid) service =
    unless_aborts (get_session_for_caller to_path registers service caller uid)
serve_one to_path (disconnects path) service =
    free_object service path (get_object service.objects path)
serve_one to_path (registers_entry owner) service = register_entry service owner
serve_one to_path deletes_entry service = some (entry_object_destructor service)
serve_one to_path (asks uid time) service = some (user_can_create_new_problem service uid time).1

-- `none`: the process has ended.
abbrev pub serve : (Str → Str) → List Call → Service → Option Service
serve to_path [] service = some service
serve to_path (call ∷ calls) service = elim (serve_one to_path call service) [
  | none ↦ none
  | some next ↦ serve to_path calls next
]

connects-Leaves :
    (to_path : Str → Str) (registers : Bool) (a : Service) (caller : Str) (uid : ℕ)
    → 0 < a.limit_clients
    → Leaves a (unless_aborts (get_session_for_caller to_path registers a caller uid))
unfolding get_session_for_caller
connects-Leaves to_path registers a caller uid p = found (get_object a.objects (to_path caller))
  where
    unchanged : (g : Got) → Leaves a (unless_aborts (g, a))
    unchanged (got s) = Grows-refl a
    unchanged (refused r) = Grows-refl a
    unchanged aborts = tt

    found :
        (o : Option Session)
        → Leaves a (unless_aborts (get_or_register o registers a (to_path caller) caller uid))
    found none = unfold get_or_register in register-Grows registers a (to_path caller) caller uid p
    found (some session) = unfold get_or_register in unchanged _

register_entry-Leaves : (a : Service) (owner : ℕ) → Leaves a (register_entry a owner)
unfolding register_entry user_insert
register_entry-Leaves a owner =
    let user = user_or_new (a.users owner) in
    let old = old_problems (a.users owner) in
    let same = old_sessions (a.users owner) in
    if_both (Leaves a) (user.problems == ulong_max) tt (
      changed-Grows a owner (record user { problems = user.problems + 1 }) a.objects a.signals
        (omega arith) (inl (omega arith)))
  where
    old_sessions : (o : Option UserInfo) → length (user_or_new o).sessions ≡ sessions_of o
    old_sessions none = unfold user_or_new in refl
    old_sessions (some user) = unfold user_or_new in refl

asks-Grows :
    (a : Service) (uid : ℕ) (time : Option ℕ) → Grows a (user_can_create_new_problem a uid time).1
unfolding user_can_create_new_problem
asks-Grows a uid time =
    if_both (λ (r : ℤ × Service). Grows a r.1) (uid == 0) (Grows-refl a) (at_time time)
  where
    spent :
        (user : UserInfo) (current tokens : ℕ)
        → a.users uid ≡ some user
        → Grows a (spend a uid user current tokens).1
    spent user current tokens e =
        unfold spend in
        if_both (λ (r : ℤ × Service). Grows a r.1) (tokens == 0)
          (unfold user_insert in
            changed-Grows a uid (record user { new_problems = 0 }) a.objects a.signals
              (ground arith) (inl (ground arith)))
          (unfold user_insert in
            changed-Grows a uid
              (record user { new_problems = tokens - 1; new_problem_last = current }) a.objects
              a.signals (ground arith) (inl (ground arith)))

    from :
        (current : ℕ) (o : Option UserInfo)
        → a.users uid ≡ o
        → Grows a (can_create_from a uid current o).1
    from current none e = unfold can_create_from in Grows-refl a
    from current (some user) e =
        unfold can_create_from in
        if_both (λ (r : ℤ × Service). Grows a r.1) _ (Grows-refl a)
          (if_both (λ (r : ℤ × Service). Grows a r.1) (ltb current user.new_problem_last)
            (Grows-refl a) (spent user current _ e))

    at_time : (t : Option ℕ) → Grows a (can_create_at a uid t).1
    at_time none = unfold can_create_at in Grows-refl a
    at_time (some current) = unfold can_create_at in from current (a.users uid) refl

serve_one-Leaves :
    (to_path : Str → Str) (call : Call) (a : Service)
    → 0 < a.limit_clients
    → Leaves a (serve_one to_path call a)
serve_one-Leaves to_path (connects registers caller uid) a p =
    connects-Leaves to_path registers a caller uid p
serve_one-Leaves to_path (disconnects path) a p = freed (get_object a.objects path)
  where
    freed : (o : Option Session) → Leaves a (free_object a path o)
    freed none = Grows-refl a
    freed (some session) = object_free-Leaves a path session
serve_one-Leaves to_path (registers_entry owner) a p = register_entry-Leaves a owner
serve_one-Leaves to_path deletes_entry a p = unfold entry_object_destructor in Grows-refl a
serve_one-Leaves to_path (asks uid time) a p = asks-Grows a uid time

serve-Grows :
    (to_path : Str → Str) (calls : List Call) (a : Service) {b : Service}
    → 0 < a.limit_clients
    → serve to_path calls a ≡ some b
    → Grows a b
serve-Grows to_path [] a {b} p e = subst (Grows a) (ground arith) (Grows-refl a)
serve-Grows to_path (call ∷ calls) a {b} p e =
    step (serve_one to_path call a) (serve_one-Leaves to_path call a p) refl
      (λ next q r. serve-Grows to_path calls next q r)
  where
    step :
        (o : Option Service)
        → Leaves a o
        → serve_one to_path call a ≡ o
        → ((next : Service)
            → 0 < next.limit_clients
            → serve to_path calls next ≡ some b
            → Grows next b)
        → Grows a b
    step none l q ih = absurd (ground arith)
    step (some next) l q ih =
        Grows-trans a next b l (ih next (subst (λ n. 0 < n) (sym l.same_limit) p) (ground arith))

-- Whatever clients connect, leave, register and ask: no user ever has more sessions open than the
-- limit, if that is at least one.
pub serve-sessions :
    (to_path : Str → Str) (calls : List Call) (a : Service) {b : Service}
    → 0 < a.limit_clients
    → ((uid : ℕ) → sessions_of (a.users uid) ≤ a.limit_clients)
    → serve to_path calls a ≡ some b
    → (uid : ℕ) → sessions_of (b.users uid) ≤ a.limit_clients
serve-sessions to_path calls a p fit e uid =
    (serve-Grows to_path calls a p e).sessions_fit uid (fit uid)

over_quota :
    (b : Service) (uid : ℕ) (time : Option ℕ)
    → uid ≢ 0
    → 0 < b.limit_user_problems
    → b.limit_user_problems ≤ problems_of (b.users uid)
    → allowed (user_can_create_new_problem b uid time).0 ≡ 0
unfolding user_can_create_new_problem
over_quota b uid time h p q = rw (other_than_root uid h) (at_time time)
  where
    from :
        (current : ℕ) (o : Option UserInfo)
        → b.users uid ≡ o
        → allowed (can_create_from b uid current o).0 ≡ 0
    from current none e = unfold can_create_from in refl
    from current (some user) e =
        unfold can_create_from in
        unfold user_problems_limit in ground (arith, other_than_root uid h)

    at_time : (t : Option ℕ) → allowed (can_create_at b uid t).0 ≡ 0
    at_time none = unfold can_create_at in refl
    at_time (some current) = unfold can_create_at in from current (b.users uid) refl

-- The count of a user's problems never falls, not even when entries are deleted: a user who has once
-- reached the limit may create no problem any more, as long as the service runs.
quota_stays :
    (to_path : Str → Str) (calls : List Call) (a : Service) {b : Service} (uid : ℕ)
    (time : Option ℕ)
    → 0 < a.limit_clients
    → uid ≢ 0
    → 0 < a.limit_user_problems
    → a.limit_user_problems ≤ problems_of (a.users uid)
    → serve to_path calls a ≡ some b
    → allowed (user_can_create_new_problem b uid time).0 ≡ 0
quota_stays to_path calls a {b} uid time c h p q e =
    let g = serve-Grows to_path calls a c e in
    let up = g.problems_up uid in
    let same = g.same_quota in over_quota b uid time h (omega arith) (omega arith)
