-- ===== src/Decisions/Challenge/Ready.antt =====
-- backend/app/decisions/challenge.py: a service that has its credential in memory, and what an
-- answer does to it.
use continuous_auth.Common.{ℕ, ◌≡◌, refl, ◌⊎◌, inl, inr, true, Option, some, String, lookup, arith}
use continuous_auth.Decisions.Challenge.Credential.{
  Crypto, ChallengeCredential, ChallengeError, Reply, returned, raised,
}
use continuous_auth.Decisions.Challenge.Registry.{PendingChallenge}
use continuous_auth.Decisions.Challenge.Service.{ChallengeService, require_credential}
use continuous_auth.Decisions.Challenge.Prompts.{discard, respond, find, resolve}
use continuous_auth.Decisions.Challenge.Keys.{IsKeyed}

-- The service has this credential in memory, and a keyed registry.
pub record IsReady (k : ChallengeCredential) (s : ChallengeService) : Type 0 where
  pub loaded : s.loaded ≡ true
  pub credential : s.credential ≡ some k
  pub keyed : IsKeyed s.pending

pub require_credential_ready :
    (c : Crypto) (k : ChallengeCredential) (s : ChallengeService)
    → s.loaded ≡ true
    → s.credential ≡ some k
    → require_credential c s ≡ (returned k, s)
unfolding require_credential
require_credential_ready c k s l e = ground arith

pub Reply-cases :
    {A : Type 0} (r : Reply A)
    → ((e : ChallengeError) × (r ≡ raised e)) ⊎ ((a : A) × (r ≡ returned a))
Reply-cases (raised e) = inl (e, refl)
Reply-cases (returned a) = inr (a, refl)

-- An answer either raises before it takes a challenge out, or takes out the one that it names.
pub respond-cases :
    (c : Crypto) (k : ChallengeCredential) (id answer : String) (token : Option String) (now : ℕ)
    (nonce : String) (s : ChallengeService)
    → IsReady k s
    → ((e : ChallengeError) × (find token (lookup id s.pending) ≡ raised e)
        × (respond c id answer token now nonce s ≡ (raised e, s)))
      ⊎ ((p : PendingChallenge) × (find token (lookup id s.pending) ≡ returned p)
          × (respond c id answer token now nonce s
              ≡ (resolve c k p answer now nonce, discard id s)))
unfolding respond
respond-cases c k id answer token now nonce s v =
    rw (require_credential_ready c k s v.loaded v.credential)
      (elim (Reply-cases (find token (lookup id s.pending))) [
        | inl (e, h) ↦ inl (e, h, rw h refl)
        | inr (p, h) ↦ inr (p, h, rw h refl)
      ])
