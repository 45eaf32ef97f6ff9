-- ===== src/Decisions/Challenge/Prompts.antt =====
-- backend/app/decisions/challenge.py: how `ChallengeService` opens challenges and resolves them.
use continuous_auth.Common.{
  ℕ, ◌+◌, Bool, true, false, not, ◌||◌, Option, none, some, List, String, ltb, is_ascii, same_text,
  concat, if◌then◌else◌, lookup, store, remove,
}
use continuous_auth.Contracts.{DecisionAction, soft_challenge, reauth}
use continuous_auth.Decisions.Posture.{accepted, rejected, expired}
use continuous_auth.Decisions.Challenge.Credential.{
  Crypto, ChallengeCredential, ChallengeError, unknown_challenge, value_error, non_ascii_token,
  Reply, returned, raised, verify,
}
use continuous_auth.Decisions.Challenge.Registry.{
  PendingChallenge, ResponseResult, Registry, scheduled_prefix, recovery_prefix, outstanding,
}
use continuous_auth.Decisions.Challenge.Registry
use continuous_auth.Decisions.Challenge.Service.{
  EnforcementSettings, ChallengeService, Result, and_then, require_credential,
}

-- Who a challenge is put to.
pub record Subject : Type 0 where
  pub user_id : String
  pub session_id : String
  pub segment_id : String

-- `self._pending[pending.decision_id] = pending`
unfoldable pub register :
    PendingChallenge → ChallengeService → Reply PendingChallenge × ChallengeService
register p s = (returned p, record s { pending = store p.decision_id p s.pending })

unfoldable pub discard : String → ChallengeService → ChallengeService
discard decision_id s = record s { pending = remove decision_id s.pending }

-- `expire_overdue` and `pending` of the registry
unfoldable pub expire_overdue : ℕ → ChallengeService → List PendingChallenge × ChallengeService
unfolding Registry.expire_overdue
expire_overdue now s =
    let (overdue, left) = Registry.expire_overdue now s.pending in
    (overdue, record s { pending = left })

return_or_register :
    Option PendingChallenge → PendingChallenge → ChallengeService → Result PendingChallenge
unfolding register
return_or_register none p s = register p s
return_or_register (some existing) p s = (returned existing, s)

-- The check of a token, where one is given.
unfoldable pub token_error : String → Option String → Option ChallengeError
token_error expected none = none
token_error expected (some given) =
    if not (is_ascii expected) || not (is_ascii given)
    then some non_ascii_token
    else if same_text expected given
    then none
    else some unknown_challenge

-- `_pending.get`, and the check of the token
unfoldable pub find : Option String → Option PendingChallenge → Reply PendingChallenge
unfolding token_error
find token none = raised unknown_challenge
find token (some p) = elim (token_error p.response_token token) [
  | none ↦ returned p
  | some e ↦ raised e
]

-- The evidence is `challenge:<decision>:<random text>`.
judge : Option Bool → PendingChallenge → String → Reply ResponseResult
judge none p nonce = raised value_error
judge (some false) p nonce =
    returned (record { outcome = rejected; challenge = p; evidence_reference = none })
judge (some true) p nonce = returned (record {
  outcome = accepted;
  challenge = p;
  evidence_reference = some (concat "challenge:" (concat p.decision_id (concat ":" nonce)));
})

module _ (c : Crypto) (settings : EnforcementSettings) where
  challenge_for :
      String → DecisionAction → Subject → ChallengeCredential → ℕ → String → PendingChallenge
  challenge_for decision_id action who k now token = record {
    decision_id = decision_id;
    user_id = who.user_id;
    session_id = who.session_id;
    segment_id = who.segment_id;
    action = action;
    question = k.question;
    opened_at = now;
    expires_at = now + settings.challenge_timeout;
    response_token = token;
  }

  -- `open`, of a decision's id, action and subject
  unfoldable pub open_challenge :
      String → DecisionAction → Subject → ℕ → String → ChallengeService → Result PendingChallenge
  unfolding challenge_for require_credential register
  open_challenge decision_id action who now token s =
      and_then (require_credential c s)
        (λ k s'. register (challenge_for decision_id action who k now token) s')

  unfoldable pub open_scheduled :
      Subject → ℕ → String → String → ChallengeService → Result PendingChallenge
  unfolding challenge_for require_credential register
  open_scheduled who now id token s = and_then (require_credential c s) (λ k s'.
      register (challenge_for (concat scheduled_prefix id) soft_challenge who k now token) s')

  unfoldable pub open_reauthentication :
      Subject → ℕ → String → String → ChallengeService → Result PendingChallenge
  unfolding challenge_for require_credential return_or_register register outstanding
  open_reauthentication who now id token s = and_then (require_credential c s) (λ k s'.
      return_or_register (outstanding now s'.pending)
        (challenge_for (concat recovery_prefix id) reauth who k now token) s')

module _ (c : Crypto) where
  -- What follows when the challenge has been taken out of the registry.
  unfoldable pub resolve :
      ChallengeCredential → PendingChallenge → String → ℕ → String → Reply ResponseResult
  unfolding judge
  resolve k p answer now nonce =
      if ltb p.expires_at now
      then returned (record { outcome = expired; challenge = p; evidence_reference = none })
      else judge (verify c k answer) p nonce

  take_out :
      ChallengeCredential
      → String
      → String
      → ℕ
      → String
      → Reply PendingChallenge
      → ChallengeService
      → Result ResponseResult
  unfolding resolve discard
  take_out k decision_id answer now nonce (raised e) s = (raised e, s)
  take_out k decision_id answer now nonce (returned p) s =
      (resolve k p answer now nonce, discard decision_id s)

  unfoldable pub respond :
      String → String → Option String → ℕ → String → ChallengeService → Result ResponseResult
  unfolding take_out require_credential find resolve
  respond decision_id answer token now nonce s = and_then (require_credential c s) (λ k s'.
      take_out k decision_id answer now nonce (find token (lookup decision_id s'.pending)) s')
