-- ===== src/Decisions/Challenge/Credential.antt =====
-- backend/app/decisions/challenge.py: the stored credential. PBKDF2, the hexadecimal texts of bytes
-- and the JSON codec are the parameter `Crypto`; bytes are numbers.
use continuous_auth.Common.{
  ℕ, Bool, true, false, ◌&&◌, Option, none, some, List, [], ◌∷◌, String, ◌==◌, if◌then◌else◌,
}

-- The exceptions of the module, and those that its calls raise.
pub data ChallengeError : Type 0 where
  not_configured already_configured unknown_challenge : ChallengeError
  -- `InvalidChallengeSetup`
  question_too_short answer_too_short answers_differ wrong_current_answer : ChallengeError
  unsupported_version unreadable_document : ChallengeError
  -- `ValueError` of `bytes.fromhex` and `pbkdf2_hmac`
  value_error : ChallengeError
  -- `TypeError` of `hmac.compare_digest`
  non_ascii_token : ChallengeError
  -- of the storage: a stored document, or one to be stored, is blank
  blank_document : ChallengeError

pub data Reply {ℓ} (A : Type ℓ) : Type ℓ where
  returned : A → Reply A
  raised : ChallengeError → Reply A

-- The object that the codec writes.
pub record StoredDocument : Type 0 where
  pub version : ℕ
  pub question : String
  pub salt : String
  pub digest : String
  pub iterations : ℕ

pub record Crypto : Type 0 where
  -- `pbkdf2_hmac`: none is a `ValueError`
  pub derive : String → List ℕ → ℕ → Option (List ℕ)
  pub to_hex : List ℕ → String
  pub from_hex : String → Option (List ℕ)
  pub dumps : StoredDocument → String
  -- `json.loads`, and the five fields with their types: none where one of them raises
  pub loads : String → Option StoredDocument

pub record ChallengeCredential : Type 0 where
  pub question : String
  pub salt_hex : String
  pub digest_hex : String
  pub iterations : ℕ

-- `hmac.compare_digest` on bytes
unfoldable pub compare_digest : List ℕ → List ℕ → Bool
compare_digest [] [] = true
compare_digest [] (y ∷ ys) = false
compare_digest (x ∷ xs) [] = false
compare_digest (x ∷ xs) (y ∷ ys) = (x == y) && compare_digest xs ys

compare_with : Option (List ℕ) → List ℕ → Option Bool
compare_with none candidate = none
compare_with (some digest) candidate = some (compare_digest candidate digest)

module _ (c : Crypto) where
  derive_from : Option (List ℕ) → String → ℕ → Option (List ℕ)
  derive_from none answer iterations = none
  derive_from (some salt) answer iterations = c.derive answer salt iterations

  compare_candidate : Option (List ℕ) → String → Option Bool
  unfolding compare_with
  compare_candidate none digest_hex = none
  compare_candidate (some candidate) digest_hex = compare_with (c.from_hex digest_hex) candidate

  -- none is a `ValueError`
  unfoldable pub verify : ChallengeCredential → String → Option Bool
  unfolding compare_candidate derive_from compare_with
  verify k answer =
      compare_candidate (derive_from (c.from_hex k.salt_hex) answer k.iterations) k.digest_hex

  unfoldable pub serialise : ChallengeCredential → String
  serialise k = c.dumps (record {
    version = 1;
    question = k.question;
    salt = k.salt_hex;
    digest = k.digest_hex;
    iterations = k.iterations;
  })

  read_document : Option StoredDocument → Reply ChallengeCredential
  read_document none = raised unreadable_document
  read_document (some d) =
      if d.version == 1
      then returned (record {
        question = d.question;
        salt_hex = d.salt;
        digest_hex = d.digest;
        iterations = d.iterations;
      })
      else raised unsupported_version

  unfoldable pub deserialise : String → Reply ChallengeCredential
  unfolding read_document
  deserialise document = read_document (c.loads document)
