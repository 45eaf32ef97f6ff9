-- ===== src/Decisions/Challenge/Refinement.antt =====
-- What the registry of `ChallengeService` (backend/app/decisions/challenge.py) promises: each id has
-- at most one challenge, which waits until it is answered, discarded or overdue. The order of the
-- entries is forgotten.
use continuous_auth.Common.{
  ℕ, ◌≡◌, refl, ap, sym, Option, none, some, List, [], ◌∷◌, String, same_text, if◌then◌else◌,
  lookup, lookup-store, lookup-remove, inl, inr,
}
use continuous_auth.Decisions.Challenge.Credential.{
  Crypto, ChallengeCredential, Reply, returned, raised,
}
use continuous_auth.Decisions.Challenge.Registry.{
  PendingChallenge, ResponseResult, is_open, is_overdue,
}
use continuous_auth.Decisions.Challenge.Service.{ChallengeService}
use continuous_auth.Decisions.Challenge.Prompts.{
  register, discard, expire_overdue, respond, find, resolve,
}
use continuous_auth.Decisions.Challenge.Ready.{IsReady, respond-cases}
use continuous_auth.Decisions.Challenge.Keys.{
  keep, find_id, store-IsKeyed, remove-IsKeyed, lookup-expire_overdue, expire_overdue-IsKeyed,
  find_id-overdue,
}

-- The abstract registry.
abbrev pub Book : Type 0
Book = String → Option PendingChallenge

abbrev pub book : ChallengeService → Book
book s j = lookup j s.pending

-- Calls of the service, with the clock readings and random texts of the call.
pub data Call : Type 0 where
  opened : PendingChallenge → Call
  answered : String → String → Option String → ℕ → String → Call
  discarded : String → Call
  swept : ℕ → Call

-- What a call answers; a sweep's tuple by ids.
pub data Answer : Type 0 where
  result_of : Reply ResponseResult → Answer
  expired_of : Book → Answer
  silent : Answer

module _ (c : Crypto) where
  abbrev pub call : Call → ChallengeService → Answer × ChallengeService
  call (opened p) s = (silent, (register p s).1)
  call (answered id answer token now nonce) s =
      let (r, s') = respond c id answer token now nonce s in (result_of r, s')
  call (discarded id) s = (silent, discard id s)
  call (swept now) s = let (ps, s') = expire_overdue now s in (expired_of (λ j. find_id j ps), s')

  abbrev pub run : List Call → ChallengeService → List Answer × ChallengeService
  run [] s = ([], s)
  run (m ∷ ms) s = let (a, s') = call m s in let (rest, s'') = run ms s' in (a ∷ rest, s'')

abbrev pub erase : String → Book → Book
erase id b j = if same_text id j then none else b j

module _ (c : Crypto) (k : ChallengeCredential) where
  abbrev answer_spec : String → String → ℕ → String → Reply PendingChallenge → Book → Answer × Book
  answer_spec id answer now nonce (raised e) b = (result_of (raised e), b)
  answer_spec id answer now nonce (returned p) b =
      (result_of (resolve c k p answer now nonce), erase id b)

  -- What a call does to the abstract registry, with a credential.
  abbrev pub call_spec : Call → Book → Answer × Book
  call_spec (opened p) b = (silent, λ j. if same_text p.decision_id j then some p else b j)
  call_spec (answered id answer token now nonce) b =
      answer_spec id answer now nonce (find token (b id)) b
  call_spec (discarded id) b = (silent, erase id b)
  call_spec (swept now) b =
      (expired_of (λ j. keep (is_overdue now) (b j)), λ j. keep (is_open now) (b j))

  abbrev pub run_spec : List Call → Book → List Answer × Book
  run_spec [] b = ([], b)
  run_spec (m ∷ ms) b =
      let (a, b') = call_spec m b in let (rest, b'') = run_spec ms b' in (a ∷ rest, b'')

pub call-IsReady :
    (c : Crypto) (k : ChallengeCredential) (m : Call) (s : ChallengeService)
    → IsReady k s
    → IsReady k (call c m s).1
unfolding register discard expire_overdue
call-IsReady c k (opened p) s v = record {
  loaded = v.loaded;
  credential = v.credential;
  keyed = store-IsKeyed p.decision_id p s.pending refl v.keyed;
}
call-IsReady c k (answered id answer token now nonce) s v =
    elim (respond-cases c k id answer token now nonce s v) [
      | inl (e, h, r) ↦ rw r v
      | inr (p, h, r) ↦ rw r (record {
        loaded = v.loaded;
        credential = v.credential;
        keyed = remove-IsKeyed id s.pending v.keyed;
      })
    ]
call-IsReady c k (discarded id) s v = record {
  loaded = v.loaded;
  credential = v.credential;
  keyed = remove-IsKeyed id s.pending v.keyed;
}
call-IsReady c k (swept now) s v = record {
  loaded = v.loaded;
  credential = v.credential;
  keyed = expire_overdue-IsKeyed now s.pending v.keyed;
}

erase_lem : (id : String) (s : ChallengeService) → book (discard id s) ≡ erase id (book s)
unfolding discard
erase_lem id s = λ i j. lookup-remove j id s.pending i

-- The detailed call does what the abstract one does.
pub call_refines :
    (c : Crypto) (k : ChallengeCredential) (m : Call) (s : ChallengeService)
    → IsReady k s
    → ((call c m s).0, book (call c m s).1) ≡ call_spec c k m (book s)
unfolding register discard expire_overdue
call_refines c k (opened p) s v = λ i. (silent, λ j. lookup-store j p.decision_id p s.pending i)
call_refines c k (answered id answer token now nonce) s v =
    elim (respond-cases c k id answer token now nonce s v) [
      | inl (e, h, r) ↦ rw r (rw h refl)
      | inr (p, h, r) ↦
          rw r (rw h (λ i. (result_of (resolve c k p answer now nonce), erase_lem id s i)))
    ]
call_refines c k (discarded id) s v = λ i. (silent, erase_lem id s i)
call_refines c k (swept now) s v = λ i. (
  expired_of (λ j. find_id-overdue now j s.pending v.keyed i),
  λ j. lookup-expire_overdue now j s.pending v.keyed i,
)

-- A run of calls on a service with a credential gives the answers of the abstract registry, and
-- leaves the challenges that the abstract registry has.
pub run_refines :
    (c : Crypto) (k : ChallengeCredential) (ms : List Call) (s : ChallengeService)
    → IsReady k s
    → ((run c ms s).0, book (run c ms s).1) ≡ run_spec c k ms (book s)
run_refines c k [] s v = refl
run_refines c k (m ∷ ms) s v = rw (sym (call_refines c k m s v)) (
    ap (λ (r : List Answer × Book). ((call c m s).0 ∷ r.0, r.1))
      (run_refines c k ms (call c m s).1 (call-IsReady c k m s v)))
