-- ===== src/Session/Steps.antt =====
-- A session over time: what its owner, its peers, polkit and the service do to it, in any order.
use mathlib.Core.Path.{subst₂}
use abrt.Base.{
  ℕ, ◌≡◌, ◌≢◌, refl, sym, ap, subst, ◌∙◌, inl, inr, Bool, true, false, List, [], ◌∷◌, Option, none,
  some, ◌==◌, if◌then◌else◌, Str, arith, Bool-cases,
}
use abrt.Session.Machine.{
  State, initial, pending, authorized, Changed, now_authorized, now_pending, now_not_authorized,
  now_failed, Request, Session, change_state, cancel_request, revoke_authorization,
  grant_authorization, authorization_request_initialize, check_authorization_callback, session_new,
  finalize, put, registered, grant_from, revoke_from, answered,
}
use abrt.Session.Token.{Table}

-- One event in the life of a session. Authorization only begins, or comes from a peer, in the
-- initial state (see `authorize`); polkit may answer at any time, and even after the end.
pub data Step : Session → Session → Type 0 where
  begins :
      (s : Session) (message : Option Str)
      → s.alive ≡ true
      → s.state ≡ initial
      → Step s (authorization_request_initialize s message)
  passed_on : (s : Session) → s.alive ≡ true → s.state ≡ initial → Step s (grant_authorization s)
  revokes : (s : Session) → s.alive ≡ true → Step s (revoke_authorization s)
  answers :
      (s : Session) (i : ℕ) (result : Option Bool)
      → Step s (check_authorization_callback i result s)
  works :
      (s : Session) (tokens : Table) (tasks : List ℕ) (indexer : ℕ)
      → s.alive ≡ true
      → Step s (record s { tokens = tokens; tasks = tasks; task_indexer = indexer })
  closes : (s : Session) → s.alive ≡ true → Step s (finalize (revoke_authorization s))

pub data Reach (s : Session) : Session → Type 0 where
  here : Reach s s
  next : {t u : Session} → Reach s t → Step t u → Reach s u

-- The state that a client knows from the signals that it received, the last one first.
abbrev pub announced : State → List Changed → State
announced start [] = start
announced start (now_authorized ∷ cs) = authorized
announced start (now_pending ∷ cs) = pending
announced start (now_not_authorized ∷ cs) = initial
announced start (now_failed ∷ cs) = initial

abbrev pub start_state : ℕ → State
start_state uid = if uid == 0 then authorized else initial

-- The request that `p2s_auth_rq` points to waits for polkit, and was not cancelled.
abbrev pub Waits : Option ℕ → (ℕ → Option Request) → Type 0
Waits none requests = ⊥
Waits (some i) requests =
    (r : Request) × (requests i ≡ some r) × (r.cancelled ≡ false) × (r.has_session ≡ true)

pub record IsSound (uid : ℕ) (s : Session) : Type 0 where
  pub owner : s.uid ≡ uid
  pub view : announced (start_state uid) s.signals ≡ s.state
  pub waits : s.state ≡ pending → Waits s.auth_rq s.requests
  pub alone : uid ≡ 0 → (s.state ≡ authorized) × ((i : ℕ) → s.requests i ≡ none)

-- All that `change_state` does, but for the step from authorized to pending, which it calls a bug.
record Changes (s : Session) (new : State) (t : Session) : Type 0 where
  reached : t.state ≡ new
  same_uid : t.uid ≡ s.uid
  same_rq : t.auth_rq ≡ s.auth_rq
  same_requests : t.requests ≡ s.requests
  tells : (start : State) → announced start s.signals ≡ s.state → announced start t.signals ≡ new

change_state-Changes :
    (s : Session) (new : State)
    → (new ≡ pending → s.state ≡ initial)
    → Changes s new (change_state s new)
unfolding change_state
change_state-Changes s new h = record {
  reached = ground arith;
  same_uid = ground arith;
  same_rq = ground arith;
  same_requests = ground arith;
  tells = λ start e. ground arith;
}

cancel_request_same :
    (s : Session)
    → let t = cancel_request s in (t.state ≡ s.state) × (t.uid ≡ s.uid) × (t.signals ≡ s.signals)
unfolding cancel_request
cancel_request_same s = ground arith

-- What is needed before a state other than pending is entered.
record Before (uid : ℕ) (s : Session) : Type 0 where
  owner : s.uid ≡ uid
  view : announced (start_state uid) s.signals ≡ s.state
  no_requests : uid ≡ 0 → (i : ℕ) → s.requests i ≡ none

Waits-put :
    (rq : Option ℕ) (requests : ℕ → Option Request) (i : ℕ) (r : Request)
    → requests i ≡ some r
    → r.has_session ≡ false
    → Waits rq requests
    → Waits rq (put requests i none)
Waits-put none requests i r e h w = absurd w
Waits-put (some j) requests i r e h (r', e', c, h') = (r', ground (arith, ap requests), c, h')

revoke_from-settled : (s : Session) (st : State) → s.state ≡ st → (revoke_from st s).state ≢ pending
unfolding revoke_from
revoke_from-settled s initial h e = cc
revoke_from-settled s pending h e =
    cc ((change_state-Changes (cancel_request s) initial (λ p. cc)).reached)
revoke_from-settled s authorized h e = cc ((change_state-Changes s initial (λ p. cc)).reached)

module _ {uid : ℕ} where
  before : {s : Session} → IsSound uid s → Before uid s
  before v = record { owner = v.owner; view = v.view; no_requests = λ e. (v.alone e).1 }

  settle :
      (s : Session) (new : State)
      → Before uid s
      → new ≢ pending
      → (uid ≡ 0 → new ≡ authorized)
      → IsSound uid (change_state s new)
  settle s new b h k =
      let c = change_state-Changes s new (λ e. absurd (h e)) in
      record {
        owner = c.same_uid ∙ b.owner;
        view = c.tells (start_state uid) b.view ∙ sym c.reached;
        waits = λ e. absurd (h (sym c.reached ∙ e));
        alone = λ e. (
          c.reached ∙ k e,
          λ i. ap (λ (f : ℕ → Option Request). f i) c.same_requests ∙ b.no_requests e i,
        );
      }

  cancel_request-Before : (s : Session) → Before uid s → Before uid (cancel_request s)
  unfolding cancel_request
  cancel_request-Before s b =
      let (st, ow, sg) = cancel_request_same s in
      record {
        owner = ow ∙ b.owner;
        view = ap (announced (start_state uid)) sg ∙ b.view ∙ sym st;
        no_requests = λ e i. cancelled_none s.auth_rq refl e i;
      }
    where
      cancelled_none :
          (rq : Option ℕ)
          → s.auth_rq ≡ rq
          → uid ≡ 0
          → (i : ℕ) → (cancel_request s).requests i ≡ none
      cancelled_none none q e i = rw (q, cancel_request) (b.no_requests e i)
      cancelled_none (some j) q e i =
          rw (q, cancel_request) (ground (arith, b.no_requests e i, b.no_requests e j))

  not_root : {s : Session} → IsSound uid s → s.state ≢ authorized → uid ≢ 0
  not_root v h e = h (v.alone e).0

  begins-IsSound :
      (s : Session) (m : Option Str)
      → IsSound uid s
      → s.state ≡ initial
      → IsSound uid (authorization_request_initialize s m)
  unfolding authorization_request_initialize
  begins-IsSound s m v h =
      let c = change_state-Changes (registered s m) pending (λ _. h) in
      let other = not_root v (λ e. ground arith) in
      record {
        owner = c.same_uid ∙ v.owner;
        view = c.tells (start_state uid) v.view ∙ sym c.reached;
        waits = λ _. subst₂ Waits (sym c.same_rq) (sym c.same_requests) (
          record { cancelled = false; has_session = true; message = m },
          ground arith,
          refl,
          refl,
        );
        alone = λ e. absurd (other e);
      }

  passed_on-IsSound :
      (s : Session) → IsSound uid s → s.state ≡ initial → IsSound uid (grant_authorization s)
  unfolding grant_authorization
  passed_on-IsSound s v h =
      subst (λ st. IsSound uid (grant_from st s)) (sym h)
        (settle s authorized (before v) (λ e. cc) (λ _. refl))

  revoke_from-IsSound :
      (s : Session) (st : State)
      → IsSound uid s
      → s.state ≡ st
      → uid ≢ 0
      → IsSound uid (revoke_from st s)
  unfolding revoke_authorization
  revoke_from-IsSound s initial v h n = v
  revoke_from-IsSound s pending v h n =
      settle _ initial (cancel_request-Before s (before v)) (λ e. cc) (λ e. absurd (n e))
  revoke_from-IsSound s authorized v h n = settle s initial (before v) (λ e. cc) (λ e. absurd (n e))

  revoke_authorization-IsSound :
      (s : Session) → IsSound uid s → IsSound uid (revoke_authorization s)
  unfolding revoke_authorization
  revoke_authorization-IsSound s v = elim (Bool-cases (s.uid == 0)) [
    | inl root ↦ rw root v
    | inr other ↦ rw other (revoke_from-IsSound s s.state v refl (λ e. ground (arith, v.owner)))
  ]

  forget_rq :
      (t : Session) → IsSound uid t → t.state ≢ pending → IsSound uid (record t { auth_rq = none })
  forget_rq t v h = record {
    owner = v.owner;
    view = v.view;
    waits = λ e. absurd (h e);
    alone = v.alone;
  }

  answered-IsSound :
      (s : Session) (result : Option Bool)
      → Before uid s
      → uid ≢ 0
      → IsSound uid (answered result s)
  unfolding answered
  answered-IsSound s result b n = elim result as (λ r. IsSound uid (answered r s)) [
    | none ↦ ends initial (λ e. cc)
    | some false ↦ ends initial (λ e. cc)
    | some true ↦ ends authorized (λ e. cc)
  ]
    where
      ends :
          (new : State)
          → new ≢ pending
          → IsSound uid (record (change_state s new) { auth_rq = none })
      ends new h =
          let c = change_state-Changes s new (λ e. absurd (h e)) in
          forget_rq (change_state s new) (settle s new b h (λ e. absurd (n e)))
            (λ e. h (sym c.reached ∙ e))

  callback-IsSound :
      (s : Session) (i : ℕ) (result : Option Bool)
      → IsSound uid s
      → IsSound uid (check_authorization_callback i result s)
  unfolding check_authorization_callback
  callback-IsSound s i result v = step (s.requests i) refl
    where
      freed : Session
      freed = record s { requests = put s.requests i none }

      freed-Before : Before uid freed
      freed-Before = record {
        owner = v.owner;
        view = v.view;
        no_requests = λ e j. ground (arith, (v.alone e).1 j);
      }

      answer :
          (r : Request)
          → s.requests i ≡ some r
          → (b : Bool) → r.has_session ≡ b
          → IsSound uid (if b then answered result freed else freed)
      answer r e true h = answered-IsSound freed result freed-Before (λ u. cc (e, (v.alone u).1 i))
      answer r e false h = record {
        owner = v.owner;
        view = v.view;
        waits = λ p. Waits-put s.auth_rq s.requests i r e h (v.waits p);
        alone = λ u. ((v.alone u).0, freed-Before.no_requests u);
      }

      step :
          (r : Option Request)
          → s.requests i ≡ r
          → IsSound uid (check_authorization_callback i result s)
      step none e = rw (e, check_authorization_callback) v
      step (some r) e = rw (e, check_authorization_callback) (answer r e r.has_session refl)

  finalize-IsSound : (s : Session) → IsSound uid s → s.state ≢ pending → IsSound uid (finalize s)
  unfolding finalize
  finalize-IsSound s v h = step s.auth_rq refl
    where
      step : (rq : Option ℕ) → s.auth_rq ≡ rq → IsSound uid (finalize s)
      step none e =
          rw (e, finalize)
            (record { owner = v.owner; view = v.view; waits = λ p. absurd (h p); alone = v.alone })
      step (some i) e =
          rw (e, finalize)
            (record {
              owner = v.owner;
              view = v.view;
              waits = λ p. absurd (h p);
              alone = λ u. ((v.alone u).0, λ j. ground (arith, (v.alone u).1 j, (v.alone u).1 i));
            })

  revoke-settled : (s : Session) → IsSound uid s → (revoke_authorization s).state ≢ pending
  unfolding revoke_authorization
  revoke-settled s v = elim (Bool-cases (s.uid == 0)) [
    | inl root ↦ rw root (λ e. cc (e, (v.alone (ground (arith, v.owner))).0))
    | inr other ↦ rw other (revoke_from-settled s s.state refl)
  ]

  pub Step-IsSound : {s t : Session} → Step s t → IsSound uid s → IsSound uid t
  Step-IsSound (begins s m a h) v = begins-IsSound s m v h
  Step-IsSound (passed_on s a h) v = passed_on-IsSound s v h
  Step-IsSound (revokes s a) v = revoke_authorization-IsSound s v
  Step-IsSound (answers s i result) v = callback-IsSound s i result v
  Step-IsSound (works s tokens tasks indexer a) v = record {
    owner = v.owner;
    view = v.view;
    waits = v.waits;
    alone = v.alone;
  }
  Step-IsSound (closes s a) v =
      finalize-IsSound _ (revoke_authorization-IsSound s v) (revoke-settled s v)

  Reach-keeps : {s t : Session} → IsSound uid s → Reach s t → IsSound uid t
  Reach-keeps v here = v
  Reach-keeps v (next r st) = Step-IsSound st (Reach-keeps v r)

session_new-IsSound : (caller : Str) (uid : ℕ) → IsSound uid (session_new caller uid)
unfolding session_new
session_new-IsSound caller uid = record {
  owner = refl;
  view = refl;
  waits = λ e. ground arith;
  alone = λ e. (ground arith, λ i. refl);
}

-- Whatever happens to a session, in any order: who listens to its signals knows its state; while it
-- is pending, it points to a request that polkit has still to answer, that was not cancelled and
-- that points back to it (so `revoke` and `grant` follow no null pointer); and a session of root is
-- authorized all along, and never asks polkit.
pub Reach-IsSound :
    (caller : Str) (uid : ℕ) {t : Session} → Reach (session_new caller uid) t → IsSound uid t
Reach-IsSound caller uid = Reach-keeps (session_new-IsSound caller uid)
