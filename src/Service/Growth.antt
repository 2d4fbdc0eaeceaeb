-- ===== src/Service/Growth.antt =====
-- What an operation of the service does to the counts of its users.
use abrt.Base.{
  ℕ, ◌≤◌, ◌<◌, ◌≡◌, refl, ◌∙◌, ◌⊎◌, inl, inr, Bool, true, false, List, [], ◌∷◌, Option, none, some,
  ◌==◌, if◌then◌else◌, Str, arith, Bool-cases, length,
}
use abrt.Session.Machine.{Session, session_new}
use abrt.Service.{
  UserInfo, Service, ClientSignal, all_clients_disconnected, user_insert, user_or_new, Got, aborts,
  session_remove, object_remove, all_disconnected, leave, object_free, session_object_destructor,
  too_many, add_session, not_added, session_object_register,
}

abbrev pub unless_aborts : Got × Service → Option Service
unless_aborts (aborts, service) = none
unless_aborts (_, service) = some service

abbrev pub problems_of : Option UserInfo → ℕ
problems_of none = 0
problems_of (some user) = user.problems

abbrev pub sessions_of : Option UserInfo → ℕ
sessions_of none = 0
sessions_of (some user) = length user.sessions

pub record Grows (a b : Service) : Type 0 where
  pub problems_up : (uid : ℕ) → problems_of (a.users uid) ≤ problems_of (b.users uid)
  pub same_limit : b.limit_clients ≡ a.limit_clients
  pub same_quota : b.limit_user_problems ≡ a.limit_user_problems
  pub sessions_fit :
      (uid : ℕ)
      → sessions_of (a.users uid) ≤ a.limit_clients
      → sessions_of (b.users uid) ≤ a.limit_clients

pub Grows-refl : (a : Service) → Grows a a
Grows-refl a = record {
  problems_up = λ uid. omega arith;
  same_limit = refl;
  same_quota = refl;
  sessions_fit = λ uid h. h;
}

pub Grows-trans : (a b c : Service) → Grows a b → Grows b c → Grows a c
Grows-trans a b c g h = record {
  problems_up = λ uid. (let p = g.problems_up uid in let q = h.problems_up uid in omega arith);
  same_limit = h.same_limit ∙ g.same_limit;
  same_quota = h.same_quota ∙ g.same_quota;
  sessions_fit = λ uid fit.
      (let l = g.same_limit in
        let p = g.sessions_fit uid fit in let q = h.sessions_fit uid (omega arith) in omega arith);
}

-- One user changes.
pub changed-Grows :
    (a : Service) (uid : ℕ) (user : UserInfo) (objects : List (Str × Session))
    (signals : List ClientSignal)
    → problems_of (a.users uid) ≤ user.problems
    → (length user.sessions ≤ sessions_of (a.users uid)) ⊎ (length user.sessions ≤ a.limit_clients)
    → Grows a (record (user_insert a uid user) { objects = objects; signals = signals })
unfolding user_insert
changed-Grows a uid user objects signals p s = record {
  problems_up = λ other. up other;
  same_limit = refl;
  same_quota = refl;
  sessions_fit = λ other fit. fits other fit;
}
  where
    up :
        (other : ℕ)
        → problems_of (a.users other)
          ≤ problems_of (if uid == other then some user else a.users other)
    up other = ground arith

    fits :
        (other : ℕ)
        → sessions_of (a.users other) ≤ a.limit_clients
        → sessions_of (if uid == other then some user else a.users other) ≤ a.limit_clients
    fits other fit = ground arith

length-session_remove : (ps : List Str) (path : Str) → length (session_remove ps path) ≤ length ps
unfolding session_remove
length-session_remove [] path = omega arith
length-session_remove (p ∷ ps) path = ground (arith, length-session_remove ps path)

all_disconnected-Grows : (a b : Service) → Grows a b → Grows a (all_disconnected b)
unfolding all_disconnected
all_disconnected-Grows a b g = signalled b.objects
  where
    signalled :
        (os : List (Str × Session))
        → Grows a (elim os [
          | [] ↦ record b { signals = all_clients_disconnected ∷ b.signals }
          | _ ∷ _ ↦ b
        ])
    signalled [] = record {
      problems_up = g.problems_up;
      same_limit = g.same_limit;
      same_quota = g.same_quota;
      sessions_fit = g.sessions_fit;
    }
    signalled (o ∷ os) = g

-- What holds of the service that an operation leaves, if it does.
abbrev pub Leaves : Service → Option Service → Type 0
Leaves a none = Unit
Leaves a (some b) = Grows a b

leave-Leaves :
    (a : Service) (uid : ℕ) (path : Str) (o : Option UserInfo)
    → a.users uid ≡ o
    → Leaves a (leave a uid path o)
unfolding leave user_insert
leave-Leaves a uid path none e = tt
leave-Leaves a uid path (some user) e = step user.sessions refl
  where
    step :
        (ps : List Str)
        → user.sessions ≡ ps
        → Leaves a (elim ps [
          | [] ↦ none
          | p ∷ rest ↦ some (
              all_disconnected
                (user_insert a uid (record user { sessions = session_remove (p ∷ rest) path })))
        ])
    step [] q = tt
    step (p ∷ rest) q =
        let l = length-session_remove (p ∷ rest) path in
        all_disconnected-Grows a _ (
          changed-Grows a uid (record user { sessions = session_remove (p ∷ rest) path }) a.objects
            a.signals (ground arith) (inl (ground arith)))

pub object_free-Leaves :
    (a : Service) (path : Str) (session : Session) → Leaves a (object_free a path session)
unfolding object_free session_object_destructor
object_free-Leaves a path session =
    let b = record a { objects = object_remove a.objects path } in
    widen (leave b session.uid path (b.users session.uid))
      (leave-Leaves b session.uid path (b.users session.uid) refl)
  where
    widen :
        (o : Option Service)
        → Leaves (record a { objects = object_remove a.objects path }) o
        → Leaves a o
    widen none l = tt
    widen (some c) l = record {
      problems_up = l.problems_up;
      same_limit = l.same_limit;
      same_quota = l.same_quota;
      sessions_fit = l.sessions_fit;
    }

too_many_free :
    (o : Option UserInfo) (limit : ℕ)
    → 0 < limit
    → too_many o limit ≡ false
    → length (user_or_new o).sessions < limit
unfolding too_many user_or_new
too_many_free none limit p f = ground arith
too_many_free (some user) limit p f = ground arith

pub old_problems : (o : Option UserInfo) → problems_of o ≡ (user_or_new o).problems
unfolding user_or_new
old_problems none = refl
old_problems (some user) = refl

pub register-Grows :
    (registers : Bool) (a : Service) (path caller : Str) (uid : ℕ)
    → 0 < a.limit_clients
    → Leaves a (unless_aborts (session_object_register registers a path caller uid))
unfolding session_object_register add_session user_insert
register-Grows registers a path caller uid p =
    elim (Bool-cases (too_many (a.users uid) a.limit_clients)) [
      | inl full ↦ rw full (Grows-refl a)
      | inr free ↦ rw free (added registers free)
    ]
  where
    freed : (o : Option Service) → Leaves a o → Leaves a (unless_aborts (not_added a o))
    freed none l = unfold not_added in tt
    freed (some b) l = unfold not_added in l

    added :
        (b : Bool)
        → too_many (a.users uid) a.limit_clients ≡ false
        → Leaves a (
            unless_aborts (
              if b
              then add_session a path caller uid
              else not_added a (object_free a path (session_new caller uid))))
    added true free =
        let room = too_many_free (a.users uid) a.limit_clients p free in
        let old = old_problems (a.users uid) in
        changed-Grows a uid
          (record (user_or_new (a.users uid)) {
            sessions = path ∷ (user_or_new (a.users uid)).sessions;
          })
          _ _ (omega arith) (inr (ground arith))
    added false free =
        freed (object_free a path (session_new caller uid))
          (object_free-Leaves a path (session_new caller uid))
