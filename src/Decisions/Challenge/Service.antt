-- ===== src/Decisions/Challenge/Service.antt =====
-- backend/app/decisions/challenge.py: `ChallengeService`. The storage's slot for the credential
-- document (backend/app/storage/service.py) is a field of the state. Clock readings and the random
-- texts and salts are arguments. `configure` takes the lock twice, to read the credential and to keep
-- the new one; what it does before and after another call can come in between are functions of their
-- own, which it runs in a row.
use continuous_auth.Common.{
  ℕ, Bool, true, false, Option, none, some, List, [], String, ltb, is_blank, strip, text_length,
  same_text, if◌then◌else◌, is_some,
}
use continuous_auth.Decisions.Challenge.Credential.{
  Crypto, ChallengeCredential, ChallengeError, not_configured, already_configured,
  question_too_short, answer_too_short, answers_differ, wrong_current_answer, value_error,
  blank_document, Reply, returned, raised, verify, serialise, deserialise,
}
use continuous_auth.Decisions.Challenge.Registry.{Registry}

-- backend/app/decisions/config.py, as far as the service reads it; the timeout in
-- microseconds.
pub record EnforcementSettings : Type 0 where
  pub challenge_timeout : ℕ
  pub answer_hash_iterations : ℕ

pub record ChallengeService : Type 0 where
  pub document : Option String
  pub pending : Registry
  pub credential : Option ChallengeCredential
  pub loaded : Bool

unfoldable pub new_service : Option String → ChallengeService
new_service document = record {
  document = document;
  pending = [];
  credential = none;
  loaded = false;
}

-- A call's reply and the state it leaves.
abbrev pub Result : Type 0 → Type 0
Result A = Reply A × ChallengeService

-- What follows a call, unless the call raises.
abbrev pub and_then : {A B : Type 0} → Result A → (A → ChallengeService → Result B) → Result B
and_then (returned a, s) next = next a s
and_then (raised e, s) next = (raised e, s)

check_document : Option String → Reply (Option String)
check_document none = returned none
check_document (some document) =
    if is_blank document then raised blank_document else returned (some document)

-- `StorageService.security_challenge_document`
unfoldable pub security_challenge_document : ChallengeService → Reply (Option String)
unfolding check_document
security_challenge_document s = check_document s.document

-- `StorageService.set_security_challenge_document`
unfoldable pub set_security_challenge_document : String → ChallengeService → Result Unit
set_security_challenge_document document s =
    if is_blank document
    then (raised blank_document, s)
    else (returned tt, record s { document = some document })

question_of : Option ChallengeCredential → Option String
question_of none = none
question_of (some k) = some k.question

given_credential : Option ChallengeCredential → ChallengeService → Result ChallengeCredential
given_credential none s = (raised not_configured, s)
given_credential (some k) s = (returned k, s)

-- The checks of the texts that `configure` makes first.
unfoldable pub setup_error : String → String → String → Option ChallengeError
unfolding strip
setup_error question answer confirm_answer =
    if ltb (text_length (strip question)) 4
    then some question_too_short
    else if ltb (text_length answer) 4
    then some answer_too_short
    else if same_text answer confirm_answer
    then none
    else some answers_differ

verdict : Option Bool → Option ChallengeError
verdict none = some value_error
verdict (some true) = none
verdict (some false) = some wrong_current_answer

check_error : Option ChallengeError → ChallengeService → Result Unit → Result Unit
check_error none s next = next
check_error (some e) s next = (raised e, s)

module _ (c : Crypto) where
  keep_credential :
      Reply ChallengeCredential → ChallengeService → Result (Option ChallengeCredential)
  keep_credential (raised e) s = (raised e, s)
  keep_credential (returned k) s =
      (returned (some k), record s { credential = some k; loaded = true })

  load_credential : Reply (Option String) → ChallengeService → Result (Option ChallengeCredential)
  unfolding keep_credential
  load_credential (raised e) s = (raised e, s)
  load_credential (returned none) s = (returned none, record s { credential = none; loaded = true })
  load_credential (returned (some document)) s = keep_credential (deserialise c document) s

  -- `_credential_or_none`
  unfoldable pub credential_or_none : ChallengeService → Result (Option ChallengeCredential)
  unfolding load_credential security_challenge_document
  credential_or_none s =
      if s.loaded
      then (returned s.credential, s)
      else load_credential (security_challenge_document s) s

  unfoldable pub is_configured : ChallengeService → Result Bool
  unfolding credential_or_none
  is_configured s = and_then (credential_or_none s) (λ k s'. (returned (is_some k), s'))

  unfoldable pub question : ChallengeService → Result (Option String)
  unfolding credential_or_none question_of
  question s = and_then (credential_or_none s) (λ k s'. (returned (question_of k), s'))

  -- The credential, or `ChallengeNotConfigured`.
  unfoldable pub require_credential : ChallengeService → Result ChallengeCredential
  unfolding credential_or_none given_credential
  require_credential s = and_then (credential_or_none s) given_credential

  -- The check of a rotation: the answer of the credential that is replaced.
  unfoldable pub rotation_error : Option ChallengeCredential → Option String → Option ChallengeError
  unfolding verdict
  rotation_error none current_answer = none
  rotation_error (some existing) none = some already_configured
  rotation_error (some existing) (some answer) = verdict (verify c existing answer)

module _ (c : Crypto) where
  -- The checks of `configure`: the credential is read under the lock, which is released then.
  unfoldable pub configure_checks :
      String → String → String → Option String → ChallengeService → Result Unit
  unfolding setup_error rotation_error check_error credential_or_none
  configure_checks question answer confirm_answer current_answer s =
      check_error (setup_error question answer confirm_answer) s (
        and_then (credential_or_none c s) (λ existing s'.
          check_error (rotation_error c existing current_answer) s' (returned tt, s')))

module _ (c : Crypto) (settings : EnforcementSettings) where
  derived : String → List ℕ → Option (List ℕ) → Option ChallengeCredential
  derived question salt none = none
  derived question salt (some digest) = some (record {
    question = question;
    salt_hex = c.to_hex salt;
    digest_hex = c.to_hex digest;
    iterations = settings.answer_hash_iterations;
  })

  -- The credential that `configure` makes; none is a `ValueError`.
  unfoldable pub make_credential : String → String → List ℕ → Option ChallengeCredential
  unfolding derived
  make_credential question answer salt =
      derived question salt (c.derive answer salt settings.answer_hash_iterations)

  -- The end of `configure`, under the lock.
  unfoldable pub adopt_credential : ChallengeCredential → ChallengeService → Result Unit
  adopt_credential k s = (returned tt, record s { credential = some k; loaded = true })

  replace : Option ChallengeCredential → ChallengeService → Result Unit
  unfolding set_security_challenge_document adopt_credential
  replace none s = (raised value_error, s)
  replace (some k) s =
      and_then (set_security_challenge_document (serialise c k) s) (λ u s'. adopt_credential k s')

  -- What follows them: the new credential goes to the storage and, under the lock, into memory.
  unfoldable pub configure_credential : String → String → List ℕ → ChallengeService → Result Unit
  unfolding make_credential replace
  configure_credential question answer salt s =
      replace (make_credential (strip question) answer salt) s

  unfoldable pub configure :
      String → String → String → Option String → List ℕ → ChallengeService → Result Unit
  unfolding configure_checks configure_credential
  configure question answer confirm_answer current_answer salt s =
      and_then (configure_checks c question answer confirm_answer current_answer s)
        (λ u s'. configure_credential question answer salt s')
