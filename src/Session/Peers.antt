-- ===== src/Session/Peers.antt =====
-- A session that passes its authorization on to a peer by a token.
use abrt.Base.{
  ℕ, zero, suc, ◌+◌, ◌^◌, ◌≤◌, ◌<◌, ◌≡◌, ◌≢◌, refl, ap, ◌∙◌, ◌⊎◌, inl, inr, true, false, List, map,
  Option, none, some, ◌==◌, if◌then◌else◌, Str, arith, suc_not_zero, Bool-cases, str_eq_refl,
}
use abrt.Session.Machine.{
  authorized, Session, Error, Ret, failed, granted, no_time, cannot_pass, owners_differ,
  no_such_token, token_expired, grant_authorization, change_state,
}
use abrt.Session.Token.{
  table_insert, table_remove, expire_lookup, is_expired, is_authorized, generate_token, draws,
  c_string, token_byte,
}
use abrt.Session.{Both, check_time, check_token, authorize_peer_with_token}

-- What lets `s` authorize `peer` by `token` at the time `now`: the pointer `expire` was stored.
pub record MayPass (s peer : Session) (token : Str) (now expire : ℕ) : Type 0 where
  pub has_authorization : s.state ≡ authorized
  pub same_owner : s.uid ≡ peer.uid
  pub stored : s.tokens token ≡ some expire
  pub not_null : expire ≢ 0
  pub in_time : is_expired now expire ≡ false

-- The outcomes: the token is spent on the peer, or an error is set and nothing has changed.
abbrev pub Outcome : Session → Session → Str → Option ℕ → Both → Type 0
Outcome s peer token time (reply, s', peer') =
    ((now expire : ℕ) × (time ≡ some now)
      × MayPass s peer token now expire
      × (reply ≡ (granted, none))
      × (s' ≡ record s { tokens = table_remove s.tokens token })
      × (peer' ≡ grant_authorization peer))
    ⊎ ((e : Error) × (reply ≡ (failed, some e))
        × (s' ≡ s)
        × (peer' ≡ peer)
        × ((now expire : ℕ) → time ≡ some now → ¬ MayPass s peer token now expire))

pub grant-authorized : (s : Session) → (grant_authorization s).state ≡ authorized
unfolding grant_authorization change_state
grant-authorized s = ground arith

is_authorized_iff : (s : Session) → s.state ≡ authorized → is_authorized s ≡ true
unfolding is_authorized
is_authorized_iff s h = ground arith

authorized_of : (s : Session) → is_authorized s ≡ true → s.state ≡ authorized
unfolding is_authorized
authorized_of s h = ground arith

module _ (s peer : Session) (token : Str) (auth : s.state ≡ authorized)
    (same : s.uid ≡ peer.uid) where
  check_time-Outcome :
      (expire : ℕ) (time : Option ℕ)
      → s.tokens token ≡ some expire
      → expire ≢ 0
      → Outcome s peer token time (check_time s peer token expire time)
  unfolding check_time
  check_time-Outcome expire none st nz = inr (no_time, refl, refl, refl, λ now e t m. cc)
  check_time-Outcome expire (some now) st nz = elim (Bool-cases (is_expired now expire)) [
    | inl late ↦
        rw (late, check_time)
          (inr
            (token_expired, refl, refl, refl, λ now' e t m. cc (late, st, m.stored, m.in_time, t)))
    | inr fine ↦
        rw (fine, check_time)
          (inl (
            now,
            expire,
            refl,
            record {
              has_authorization = auth;
              same_owner = same;
              stored = st;
              not_null = nz;
              in_time = fine;
            },
            refl,
            refl,
            refl,
          ))
  ]

  check_token-Outcome :
      (time : Option ℕ)
      → Outcome s peer token time (check_token s peer token (expire_lookup s.tokens token) time)
  unfolding check_token expire_lookup
  check_token-Outcome time = step (s.tokens token) refl
    where
      step :
          (o : Option ℕ)
          → s.tokens token ≡ o
          → Outcome s peer token time (check_token s peer token (expire_lookup s.tokens token) time)
      step none e =
          rw (e, expire_lookup)
            (inr (no_such_token, refl, refl, refl, λ now x t m. cc (e, m.stored)))
      step (some zero) e =
          rw (e, expire_lookup)
            (inr (no_such_token, refl, refl, refl, λ now x t m. m.not_null (cc (e, m.stored))))
      step (some (suc n)) e =
          rw (e, expire_lookup, suc_not_zero n) (check_time-Outcome (suc n) time e (omega arith))

-- A peer is authorized exactly when the session is authorized itself, belongs to the same user and
-- holds the token with a time that has not passed; then the token is spent and nothing else of the
-- session changes. In every other case an error is set and both sessions are as they were.
pub authorize_peer_with_token-Outcome :
    (s peer : Session) (token : Str) (time : Option ℕ)
    → Outcome s peer token time (authorize_peer_with_token s peer token time)
unfolding authorize_peer_with_token
authorize_peer_with_token-Outcome s peer token time = elim (Bool-cases (is_authorized s)) [
  | inr no_auth ↦
      rw (no_auth, authorize_peer_with_token)
        (inr (
          cannot_pass,
          refl,
          refl,
          refl,
          λ now expire t m. cc (no_auth, is_authorized_iff s m.has_authorization),
        ))
  | inl auth ↦ elim (Bool-cases (s.uid == peer.uid)) [
    | inr other ↦
        rw (auth, other, authorize_peer_with_token)
          (inr (owners_differ, refl, refl, refl, λ now expire t m. ground (arith, m.same_owner)))
    | inl same ↦
        rw (auth, same, authorize_peer_with_token)
          (check_token-Outcome s peer token (authorized_of s auth) (ground arith) time)
  ]
]

-- The seconds for which a token lives: 5 where the client gives none.
abbrev pub lifetime : ℕ → ℕ
lifetime duration = if duration == 0 then 5 else duration

-- The text that a client gets for these draws.
abbrev pub token_text : List ℕ → Str
token_text rs = c_string (map token_byte rs)

module _ (s peer third : Session) (duration : ℕ) (rs : List ℕ) (made : ℕ)
    (auth : s.state ≡ authorized) (before_2038 : made + lifetime duration < 2 ^ 31) where
  abbrev token : Str
  token = token_text rs

  abbrev holder : Session
  holder = record s { tokens = table_insert s.tokens token (made + lifetime duration) }

  generate_token_lem :
      generate_token s duration (draws rs) (some made) ≡ ((some token, none), holder)
  unfolding generate_token
  generate_token_lem = rw (is_authorized_iff s auth, generate_token) refl

  holder-MayPass :
      (now : ℕ)
      → s.uid ≡ peer.uid
      → 0 < made
      → now ≤ made + lifetime duration
      → MayPass holder peer token now (made + lifetime duration)
  unfolding is_expired
  holder-MayPass now u p t = record {
    has_authorization = auth;
    same_owner = u;
    stored = rw (str_eq_refl token) refl;
    not_null = λ e. absurd (omega arith);
    in_time = ground arith;
  }

  late-spares :
      (late : ℕ)
      → made + lifetime duration < late
      → let (reply, s', peer') = authorize_peer_with_token holder peer token (some late) in
        (reply.0 ≡ failed) × (s' ≡ holder) × (peer' ≡ peer)
  unfolding is_expired
  late-spares late h = refused _ (authorize_peer_with_token-Outcome holder peer token (some late))
    where
      own : holder.tokens token ≡ some (made + lifetime duration)
      own = rw (str_eq_refl token) refl

      refused :
          (b : Both)
          → Outcome holder peer token (some late) b
          → (b.0.0 ≡ failed) × (b.1 ≡ holder) × (b.2 ≡ peer)
      refused b (inl (now, x, t, m, _, _, _)) =
          absurd (passed now x (cc (own, m.stored)) (cc t) m.in_time)
        where
          passed :
              (now x : ℕ)
              → some x ≡ some (made + lifetime duration)
              → some late ≡ some now
              → is_expired now x ≡ false
              → ⊥
          passed now x e t i = ground (arith, e, t, i, h, before_2038)
      refused b (inr (x, r, s', p', _)) = (ap (λ (q : Ret × Option Error). q.0) r, s', p')

  -- A token serves once and in its time: until its last second it authorizes a peer of the same user, and
  -- then it authorizes nobody any more; after that second it does not authorize the peer although it was
  -- not used, and both sessions are as they were.
  pub token_once :
      (now : ℕ)
      → s.uid ≡ peer.uid
      → 0 < made
      → now ≤ made + lifetime duration
      → let (_, s') = generate_token s duration (draws rs) (some made) in
        let (reply, s'', peer') = authorize_peer_with_token s' peer (token_text rs) (some now) in
        (reply ≡ (granted, none))
        × (peer'.state ≡ authorized)
        × ((later : Option ℕ)
            → (authorize_peer_with_token s'' third (token_text rs) later).0.0 ≡ failed)
        × ((late : ℕ)
            → made + lifetime duration < late
            → let (refusal, kept, spared) =
                authorize_peer_with_token s' peer (token_text rs) (some late) in
              (refusal.0 ≡ failed) × (kept ≡ s') × (spared ≡ peer))
  token_once now u p t = rw generate_token_lem (
      let used = spent _ (authorize_peer_with_token-Outcome holder peer token (some now)) in
      (used.0, used.1, used.2, late-spares))
    where
      gone :
          (h : Session)
          → h ≡ record holder { tokens = table_remove holder.tokens token }
          → (later : Option ℕ) (b : Both) → Outcome h third token later b
          → b.0.0 ≡ failed
      gone h e later b (inl (n, x, _, m, _, _, _)) =
          cc (m.stored, ap (λ (q : Session). q.tokens token) e, str_eq_refl token)
      gone h e later b (inr (x, r, _, _, _)) = ap (λ (q : Ret × Option Error). q.0) r

      spent :
          (b : Both)
          → Outcome holder peer token (some now) b
          → (b.0 ≡ (granted, none))
            × (b.2.state ≡ authorized)
            × ((later : Option ℕ) → (authorize_peer_with_token b.1 third token later).0.0 ≡ failed)
      spent b (inl (n, x, _, m, r, h, g)) = (
        r,
        ap (λ (q : Session). q.state) g ∙ grant-authorized peer,
        λ later. gone b.1 h later _ (authorize_peer_with_token-Outcome b.1 third token later),
      )
      spent b (inr (x, _, _, _, refused)) =
          absurd (refused now (made + lifetime duration) refl (holder-MayPass now u p t))
