-- ===== src/Session/Refines.antt =====
-- The method Authorize, on the list of a user's sessions, makes only the steps of `Steps`.
use native.Mathlib.Numerals.{add-one}
use abrt.Base.{
  ℕ, zero, suc, ◌+◌, ◌≡◌, ◌≢◌, refl, ap, ◌∙◌, subst, inl, inr, true, [], ◌∷◌, Option, none, some,
  Str, arith, set, get_elem?, All, get_elem?-set_ne,
}
use abrt.Session.Machine.{State, initial, pending, authorized, Session}
use abrt.Session.Peers.{authorize_peer_with_token-Outcome, Outcome}
use abrt.Session.Steps.{begins, passed_on, works, Reach, here, next}
use abrt.Session.{
  Both, Reply, authorize_peer_with_token, Sessions, find_caller, Parameters, with_peer, begin_with,
  authorize_from, authorize,
}

-- Each session of the second list is one of the first, some steps later.
abbrev pub Evolves : Sessions → Sessions → Type 0
Evolves [] [] = Unit
Evolves (s ∷ ss) (t ∷ ts) = Reach s t × Evolves ss ts
Evolves _ _ = ⊥

Evolves-refl : (ss : Sessions) → Evolves ss ss
Evolves-refl [] = tt
Evolves-refl (s ∷ ss) = (here, Evolves-refl ss)

Evolves-set :
    (ss : Sessions) (i : ℕ) (s t : Session)
    → get_elem? ss i ≡ some s
    → Reach s t
    → Evolves ss (set ss i t)
Evolves-set [] i s t e r = cc
Evolves-set (x ∷ ss) zero s t e r = (subst (λ y. Reach y t) (cc) r, Evolves-refl ss)
Evolves-set (x ∷ ss) (suc i) s t e r = (here, Evolves-set ss i s t e r)

Reach-trans : {s t u : Session} → Reach s t → Reach t u → Reach s u
Reach-trans r here = r
Reach-trans r (next r' st) = next (Reach-trans r r') st

Evolves-trans : (ss ts us : Sessions) → Evolves ss ts → Evolves ts us → Evolves ss us
Evolves-trans [] [] [] e f = tt
Evolves-trans (s ∷ ss) (t ∷ ts) (u ∷ us) e f = (Reach-trans e.0 f.0, Evolves-trans ss ts us e.1 f.1)
Evolves-trans [] [] (u ∷ us) e f = absurd f
Evolves-trans [] (t ∷ ts) us e f = absurd e
Evolves-trans (s ∷ ss) [] us e f = absurd e
Evolves-trans (s ∷ ss) (t ∷ ts) [] e f = absurd f

get_elem?-add_one :
    (s : Session) (ss : Sessions) (i : ℕ) → get_elem? (s ∷ ss) (i + 1) ≡ get_elem? ss i
get_elem?-add_one s ss i = rw add-one

find_caller-get_elem? :
    (ss : Sessions) (bus : Str) (j : ℕ) (peer : Session)
    → find_caller ss bus ≡ some (j, peer)
    → get_elem? ss j ≡ some peer
unfolding find_caller
find_caller-get_elem? [] bus j peer e = cc
find_caller-get_elem? (s ∷ ss) bus j peer e =
    step (find_caller ss bus) refl (find_caller-get_elem? ss bus)
  where
    step :
        (r : Option (ℕ × Session))
        → find_caller ss bus ≡ r
        → ((k : ℕ) (t : Session) → find_caller ss bus ≡ some (k, t) → get_elem? ss k ≡ some t)
        → get_elem? (s ∷ ss) j ≡ some peer
    step none q ih = ground arith
    step (some (k, t)) q ih = ground (arith, ih k t q, get_elem?-add_one s ss k)

abbrev pub Alive : Sessions → Type 0
Alive = All (λ s. s.alive ≡ true)

Alive-get_elem? :
    (ss : Sessions) (i : ℕ) (s : Session) → Alive ss → get_elem? ss i ≡ some s → s.alive ≡ true
Alive-get_elem? [] i s a e = cc
Alive-get_elem? (x ∷ ss) zero s a e = cc (a.0)
Alive-get_elem? (x ∷ ss) (suc i) s a e = Alive-get_elem? ss i s a.1 e

set_same : (ss : Sessions) (i : ℕ) (s : Session) → get_elem? ss i ≡ some s → set ss i s ≡ ss
set_same [] i s e = refl
set_same (x ∷ ss) zero s e = cc
set_same (x ∷ ss) (suc i) s e = ap (◌∷◌ x) (set_same ss i s e)

module _ (peers : Sessions) (i : ℕ) (s : Session) (at_i : get_elem? peers i ≡ some s) where
  with_peer-Evolves :
      (j : ℕ) (peer : Session) (token : Str) (time : Option ℕ)
      → Alive peers
      → s.state ≡ initial
      → get_elem? peers j ≡ some peer
      → Evolves peers (with_peer peers i s (some (j, peer)) token time).1
  unfolding with_peer
  with_peer-Evolves j peer token time a h at_j =
      outcome (authorize_peer_with_token peer s token time)
        (authorize_peer_with_token-Outcome peer s token time)
    where
      outcome :
          (b : Both) → Outcome peer s token time b → Evolves peers (set (set peers j b.1) i b.2)
      outcome b (inr (x, _, p, q, _)) =
          rw (p, q, set_same peers j peer at_j, set_same peers i s at_i) (Evolves-refl peers)
      outcome b (inl (n, x, _, m, _, p, q)) =
          let apart : j ≢ i = λ e. cc (m.has_authorization) in
          Evolves-trans peers (set peers j b.1) _
            (Evolves-set peers j peer b.1 at_j (
              rw p (
                next here (
                  works peer _ peer.tasks peer.task_indexer
                    (Alive-get_elem? peers j peer a at_j)))))
            (Evolves-set (set peers j b.1) i s b.2 (get_elem?-set_ne peers b.1 apart ∙ at_i)
              (rw q (next here (passed_on s (Alive-get_elem? peers i s a at_i) h))))

  begin_with-Evolves :
      (bus token message : Option Str) (time : Option ℕ)
      → Alive peers
      → s.state ≡ initial
      → Evolves peers (begin_with bus token message peers i s time).1
  unfolding begin_with
  begin_with-Evolves none none message time a h =
      Evolves-set peers i s _ at_i
        (next here (begins s message (Alive-get_elem? peers i s a at_i) h))
  begin_with-Evolves (some bus) (some token) message time a h = step (find_caller peers bus) refl
    where
      step :
          (r : Option (ℕ × Session))
          → find_caller peers bus ≡ r
          → Evolves peers (with_peer peers i s r token time).1
      step none e = unfold with_peer in Evolves-refl peers
      step (some (j, peer)) e =
          with_peer-Evolves j peer token time a h (find_caller-get_elem? peers bus j peer e)
  begin_with-Evolves none (some token) message time a h = Evolves-refl peers
  begin_with-Evolves (some bus) none message time a h = Evolves-refl peers

  authorize_from-Evolves :
      (st : State) (p : Parameters) (time : Option ℕ)
      → Alive peers
      → s.state ≡ st
      → Evolves peers (authorize_from st p peers i s time).1
  unfolding authorize_from
  authorize_from-Evolves initial p time a h =
      begin_with-Evolves p.peer_bus p.peer_token p.message time a h
  authorize_from-Evolves pending p time a h = Evolves-refl peers
  authorize_from-Evolves authorized p time a h = Evolves-refl peers

-- The method Authorize changes the sessions of a user by steps of `Step` alone, whatever its
-- parameters, and also where the named peer is the session itself. So what holds of every history of
-- steps holds of the service, as long as its sessions live.
pub authorize-Evolves :
    (p : Parameters) (peers peers' : Sessions) (i : ℕ) (time : Option ℕ) (reply : Reply)
    → Alive peers
    → authorize p peers i time ≡ some (reply, peers')
    → Evolves peers peers'
unfolding authorize
authorize-Evolves p peers peers' i time reply a e = step (get_elem? peers i) refl
  where
    step : (o : Option Session) → get_elem? peers i ≡ o → Evolves peers peers'
    step none q = ground arith
    step (some s) q =
        subst (Evolves peers) (ground arith)
          (authorize_from-Evolves peers i s q s.state p time a refl)
