-- ===== src/Service/Throttle.antt =====
-- How often a user may create a problem.
use abrt.Base.{
  ℕ, zero, suc, ◌+◌, ◌-◌, ◌*◌, ◌/◌, ◌^◌, ◌<◌, ◌≤◌, ◌≡◌, ◌≢◌, refl, ◌∙◌, subst, ◌⊎◌, inl, inr, false,
  not, ◌&&◌, List, [], ◌∷◌, Option, none, some, ltb, leb, ◌==◌, arith, Bool-cases, if_both,
  suc_not_zero,
}
use abrt.Base.Int.{ℤ, pos, negsuc}
use native.Mathlib.Nat.{
  add-mul, zero-add, one-le-pow, le-div_iff_mul-le, mul-le-mul_right, div-mul-le_self,
}
use abrt.Service.{
  UserInfo, Service, user_insert, refill, to_int, spend, can_create_from, can_create_at,
  user_can_create_new_problem, user_problems_limit,
}

-- The problems that an answer allows.
abbrev pub allowed : ℤ → ℕ
allowed (pos (suc n)) = 1
allowed _ = 0

-- The user asks at these times; each answer that allows a problem counts.
abbrev pub ask : ℕ → List (Option ℕ) → Service → ℕ × Service
ask uid [] service = (0, service)
ask uid (time ∷ times) service =
    let (answer, next) = user_can_create_new_problem service uid time in
    let (count, last) = ask uid times next in (allowed answer + count, last)

refill_le : (npb tokens incr : ℕ) → refill npb tokens incr ≤ tokens + incr
unfolding refill
refill_le npb tokens incr = ground arith

-- From `u` to `v` the user got `count` problems: each costs a token, and a token comes with each
-- `period` that has passed.
record Pays (period count : ℕ) (u v : UserInfo) : Type 0 where
  later : u.new_problem_last ≤ v.new_problem_last
  paid :
      (count + v.new_problems) * period + u.new_problem_last
      ≤ u.new_problems * period + v.new_problem_last

Pays-trans : (d a b : ℕ) (u v w : UserInfo) → Pays d a u v → Pays d b v w → Pays d (a + b) u w
Pays-trans d a b u v w p q =
    let e1 = add-mul a v.new_problems d in
    let e2 = add-mul b w.new_problems d in
    let e3 = add-mul (a + b) w.new_problems d in
    let e4 = add-mul a b d in
    let p' = p.paid in
    let q' = q.paid in
    let p'' = p.later in let q'' = q.later in record { later = omega arith; paid = omega arith }

spent-Pays :
    (d incr count left current : ℕ) (u v : UserInfo)
    → incr * d ≤ current - u.new_problem_last
    → u.new_problem_last ≤ current
    → v.new_problem_last ≡ current
    → v.new_problems ≡ left
    → count + left ≤ u.new_problems + incr
    → Pays d count u v
spent-Pays d incr count left current u v i l e k h =
    let m = mul-le-mul_right d h in
    let e1 = add-mul u.new_problems incr d in
    record { later = omega arith; paid = rw (e, k) (omega arith) }

-- What one question does to the user.
record Asked (service : Service) (uid : ℕ) (u : UserInfo) (answer : ℤ) (next : Service)
    : Type 0 where
  user : UserInfo
  is_user : next.users uid ≡ some user
  same_magnitude : next.throttling_magnitude ≡ service.throttling_magnitude
  pays : Pays (2 ^ service.throttling_magnitude) (allowed answer) u user

-- What several questions do, with the problems that they allow.
record Charged (service : Service) (uid : ℕ) (u : UserInfo) (count : ℕ) (next : Service)
    : Type 0 where
  user : UserInfo
  is_user : next.users uid ≡ some user
  same_magnitude : next.throttling_magnitude ≡ service.throttling_magnitude
  pays : Pays (2 ^ service.throttling_magnitude) count u user

pub other_than_root : (uid : ℕ) → uid ≢ 0 → (uid == 0) ≡ false
other_than_root uid h = ground arith

Pays-refl : (d : ℕ) (u : UserInfo) → Pays d 0 u u
Pays-refl d u = record { later = omega arith; paid = rw (zero-add u.new_problems) (omega arith) }

unchanged :
    (service : Service) (uid : ℕ) (u : UserInfo) (answer : ℤ)
    → service.users uid ≡ some u
    → allowed answer ≡ 0
    → Asked service uid u answer service
unchanged service uid u answer e z = record {
  user = u;
  is_user = e;
  same_magnitude = refl;
  pays = rw z (Pays-refl _ u);
}

inserted :
    (service : Service) (uid : ℕ) (v : UserInfo) → (user_insert service uid v).users uid ≡ some v
unfolding user_insert
inserted service uid v = ground arith

allowed_le : (n : ℕ) → allowed (to_int n) ≤ 1
unfolding to_int
allowed_le n = ground arith

spend-Asked :
    (service : Service) (uid : ℕ) (u : UserInfo) (current incr tokens : ℕ)
    → service.users uid ≡ some u
    → u.new_problem_last ≤ current
    → incr * 2 ^ service.throttling_magnitude ≤ current - u.new_problem_last
    → tokens ≤ u.new_problems + incr
    → Asked service uid u
        (spend service uid u current tokens).0
        (spend service uid u current tokens).1
unfolding spend user_insert
spend-Asked service uid u current incr zero e l i t = record {
  user = record u { new_problems = 0 };
  is_user = inserted service uid _;
  same_magnitude = refl;
  pays = record { later = omega arith; paid = omega arith };
}
spend-Asked service uid u current incr (suc left) e l i t =
    let v = record u { new_problems = suc left - 1; new_problem_last = current } in
    let c = allowed_le (suc left) in
    rw (suc_not_zero left) (record {
      user = v;
      is_user = inserted service uid v;
      same_magnitude = refl;
      pays =
          spent-Pays (2 ^ service.throttling_magnitude) incr (allowed (to_int (suc left))) left
            current u v i l refl (omega arith) (omega arith);
    })

can_create-Asked :
    (service : Service) (uid : ℕ) (u : UserInfo) (time : Option ℕ)
    → service.users uid ≡ some u
    → Asked service uid u (can_create_at service uid time).0 (can_create_at service uid time).1
unfolding can_create_at
can_create-Asked service uid u none e = unchanged service uid u (negsuc 0) e refl
can_create-Asked service uid u (some current) e =
    let d = 2 ^ service.throttling_magnitude in
    let incr = (current - u.new_problem_last) / d in
    let over =
      not (user_problems_limit service uid == 0)
      && leb (user_problems_limit service uid) u.problems in
    rw e (
      unfold can_create_from in
      if_both (λ (r : ℤ × Service). Asked service uid u r.0 r.1) over
        (unchanged service uid u (negsuc 6) e refl)
        (elim (Bool-cases (ltb current u.new_problem_last)) [
          | inl past ↦ rw past (unchanged service uid u (negsuc 0) e refl)
          | inr now ↦ rw now (
              spend-Asked service uid u current incr
                (refill service.new_problems_batch u.new_problems incr) e (ground arith)
                (div-mul-le_self (current - u.new_problem_last) d)
                (refill_le service.new_problems_batch u.new_problems incr))
        ]))

ask-Asked :
    (uid : ℕ) (times : List (Option ℕ)) (service : Service) (u : UserInfo)
    → uid ≢ 0
    → service.users uid ≡ some u
    → Charged service uid u (ask uid times service).0 (ask uid times service).1
unfolding user_can_create_new_problem
ask-Asked uid [] service u h e = record {
  user = u;
  is_user = e;
  same_magnitude = refl;
  pays = Pays-refl _ u;
}
ask-Asked uid (time ∷ times) service u h e =
    let first = can_create-Asked service uid u time e in
    rw (other_than_root uid h) (
      let next = (can_create_at service uid time).1 in
      let rest = ask-Asked uid times next first.user h first.is_user in
      record {
        user = rest.user;
        is_user = rest.is_user;
        same_magnitude = rest.same_magnitude ∙ first.same_magnitude;
        pays = Pays-trans _ _ _ u first.user rest.user first.pays (
            subst (λ m. Pays (2 ^ m) (ask uid times next).0 first.user rest.user)
              first.same_magnitude rest.pays);
      })

-- Whatever the times at which a user asks, also when the clock goes back: the problems allowed, and
-- those still allowed at once, are at most what was allowed at once before and one for each
-- 2 ^ magnitude seconds between the first and the last problem. The user root is not limited.
pub ask-bound :
    (uid : ℕ) (times : List (Option ℕ)) (service : Service) (u : UserInfo)
    → uid ≢ 0
    → service.users uid ≡ some u
    → (v : UserInfo) × ((ask uid times service).1.users uid ≡ some v)
      × (((ask uid times service).0 + v.new_problems) * 2 ^ service.throttling_magnitude
            + u.new_problem_last
          ≤ u.new_problems * 2 ^ service.throttling_magnitude + v.new_problem_last)
unfolding user_can_create_new_problem
ask-bound uid times service u h e =
    let a = ask-Asked uid times service u h e in (a.user, a.is_user, a.pays.paid)

refill_some :
    (npb tokens incr : ℕ)
    → 0 < npb
    → npb < 2 ^ 31
    → tokens ≤ npb
    → 0 < incr
    → (0 < refill npb tokens incr) × (refill npb tokens incr ≤ npb)
unfolding refill
refill_some npb tokens incr p b t i = (ground arith, ground arith)

spend-allowed :
    (service : Service) (uid : ℕ) (u : UserInfo) (current tokens : ℕ)
    → 0 < tokens
    → tokens < 2 ^ 31
    → allowed (spend service uid u current tokens).0 ≡ 1
unfolding spend to_int
spend-allowed service uid u current tokens p b = ground arith

periods : (off magnitude : ℕ) → 2 ^ magnitude ≤ off → 0 < off / 2 ^ magnitude
periods off magnitude h =
    let positive = one-le-pow magnitude 2 (omega arith) in
    let enough = (le-div_iff_mul-le {x = 1} {y = off} positive).1 (omega arith) in omega arith

-- A user below the limit of problems, who waits 2 ^ magnitude seconds after the last one, may create
-- the next, if the batch is neither empty nor 2 ^ 31 or more and has not been lowered meanwhile.
pub can_create_in_time :
    (uid now : ℕ) (service : Service) (u : UserInfo)
    → uid ≢ 0
    → service.users uid ≡ some u
    → (service.limit_user_problems ≡ 0) ⊎ (u.problems < service.limit_user_problems)
    → u.new_problem_last + 2 ^ service.throttling_magnitude ≤ now
    → 0 < service.new_problems_batch
    → service.new_problems_batch < 2 ^ 31
    → u.new_problems ≤ service.new_problems_batch
    → allowed (user_can_create_new_problem service uid (some now)).0 ≡ 1
unfolding user_can_create_new_problem can_create_at can_create_from user_problems_limit
can_create_in_time uid now service u h e quota waited p b t =
    let incr = (now - u.new_problem_last) / 2 ^ service.throttling_magnitude in
    let (some_left, few) =
      refill_some service.new_problems_batch u.new_problems incr p b t
        (periods (now - u.new_problem_last) service.throttling_magnitude (omega arith)) in
    let spent =
      spend-allowed service uid u now (refill service.new_problems_batch u.new_problems incr)
        some_left (omega arith) in
    rw (other_than_root uid h, e, other_than_root uid h) (ground (arith, spent))
