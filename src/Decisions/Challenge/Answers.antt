-- ===== src/Decisions/Challenge/Answers.antt =====
-- Answers to the challenges of backend/app/decisions/challenge.py.
use continuous_auth.Common.{
  ℕ, ◌≤◌, ◌≡◌, refl, ap, sym, ◌∙◌, inl, inr, true, false, Option, none, some, String, lookup,
  lookup-remove, eq_iff, arith, Bool-cases, Option-cases, ltb,
}
use continuous_auth.Decisions.Posture.{accepted}
use continuous_auth.Decisions.Challenge.Credential.{
  Crypto, ChallengeCredential, returned, raised, verify, unknown_challenge,
}
use continuous_auth.Decisions.Challenge.Registry.{PendingChallenge, ResponseResult}
use continuous_auth.Decisions.Challenge.Service.{ChallengeService, Result}
use continuous_auth.Decisions.Challenge.Prompts.{discard, respond, find, resolve, token_error}
use continuous_auth.Decisions.Challenge.Keys.{remove-IsKeyed}
use continuous_auth.Decisions.Challenge.Ready.{IsReady, require_credential_ready, respond-cases}

pub discard-IsReady :
    (k : ChallengeCredential) (id : String) (s : ChallengeService)
    → IsReady k s
    → IsReady k (discard id s)
unfolding discard
discard-IsReady k id s v = record {
  loaded = v.loaded;
  credential = v.credential;
  keyed = remove-IsKeyed id s.pending v.keyed;
}

gone : (id : String) (s : ChallengeService) → lookup id (discard id s).pending ≡ none
unfolding discard
gone id s = ground (arith, lookup-remove id id s.pending, eq_iff id id)

-- Nothing is pending for the id.
pub respond_unknown :
    (c : Crypto) (k : ChallengeCredential) (id answer : String) (token : Option String) (now : ℕ)
    (nonce : String) (s : ChallengeService)
    → IsReady k s
    → lookup id s.pending ≡ none
    → respond c id answer token now nonce s ≡ (raised unknown_challenge, s)
unfolding respond find
respond_unknown c k id answer token now nonce s v h =
    rw (require_credential_ready c k s v.loaded v.credential) (rw h refl)

-- A challenge is resolved at most once: when an answer to an id has got a result, right, wrong or
-- late, each further answer to this id is an unknown challenge and changes nothing.
pub respond_once :
    (c : Crypto) (k : ChallengeCredential) (id answer answer' : String)
    (token token' : Option String) (now now' : ℕ) (nonce nonce' : String) (s : ChallengeService)
    (r : ResponseResult)
    → IsReady k s
    → (respond c id answer token now nonce s).0 ≡ returned r
    → let s' = (respond c id answer token now nonce s).1 in
      respond c id answer' token' now' nonce' s' ≡ (raised unknown_challenge, s')
respond_once c k id answer answer' token token' now now' nonce nonce' s r v h =
    elim (respond-cases c k id answer token now nonce s v) [
      | inl (e, f, q) ↦ absurd (ground (arith, q))
      | inr (p, f, q) ↦ rw q (
          respond_unknown c k id answer' token' now' nonce' (discard id s)
            (discard-IsReady k id s v) (gone id s))
    ]

token_ok :
    (token : Option String) (o : Option PendingChallenge) (p : PendingChallenge)
    → find token o ≡ returned p
    → (o ≡ some p) × (token_error p.response_token token ≡ none)
unfolding find
token_ok token none p h = absurd (ground arith)
token_ok token (some q) p h = elim (Option-cases (token_error q.response_token token)) [
  | inl e ↦ ground (arith, e, h)
  | inr (x, e) ↦ absurd (ground (arith, e, h))
]

resolve_accepted :
    (c : Crypto) (k : ChallengeCredential) (p : PendingChallenge) (answer : String) (now : ℕ)
    (nonce : String) (r : ResponseResult)
    → resolve c k p answer now nonce ≡ returned r
    → r.outcome ≡ accepted
    → (r.challenge ≡ p) × (now ≤ p.expires_at) × (verify c k answer ≡ some true)
unfolding resolve
resolve_accepted c k p answer now nonce r h a = elim (Bool-cases (ltb p.expires_at now)) [
  | inl late ↦ absurd (ground (arith, h, a))
  | inr early ↦ elim (Option-cases (verify c k answer)) [
    | inl e ↦ absurd (ground (arith, h, a))
    | inr (true, e) ↦ ground (arith, h, a)
    | inr (false, e) ↦ absurd (ground (arith, h, a))
  ]
]

-- An answer is accepted only if its challenge was pending with the token that is given, if one is,
-- the deadline has not passed, and the answer is the one of the credential.
pub respond_accepted :
    (c : Crypto) (k : ChallengeCredential) (id answer : String) (token : Option String) (now : ℕ)
    (nonce : String) (s : ChallengeService) (r : ResponseResult)
    → IsReady k s
    → (respond c id answer token now nonce s).0 ≡ returned r
    → r.outcome ≡ accepted
    → (lookup id s.pending ≡ some r.challenge)
      × (token_error r.challenge.response_token token ≡ none)
      × (now ≤ r.challenge.expires_at)
      × (verify c k answer ≡ some true)
respond_accepted c k id answer token now nonce s r v h a =
    elim (respond-cases c k id answer token now nonce s v) [
      | inl (e, f, q) ↦ absurd (ground (arith, q))
      | inr (p, f, q) ↦
          let (same, early, right) =
            resolve_accepted c k p answer now nonce r
              (sym (ap (λ (x : Result ResponseResult). x.0) q) ∙ h) a in
          let (there, token) = token_ok token (lookup id s.pending) p f in
          rw same (there, token, early, right)
    ]
