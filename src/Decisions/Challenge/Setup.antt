-- ===== src/Decisions/Challenge/Setup.antt =====
-- `configure` of backend/app/decisions/challenge.py: the first setup, rotation, and restarts.
use continuous_auth.Common.{
  ℕ, ◌≡◌, refl, inl, inr, true, false, Option, none, some, List, [], ◌∷◌, String, is_blank, strip,
  arith, Bool-cases, Option-cases,
}
use continuous_auth.Decisions.Challenge.Credential.{
  Crypto, StoredDocument, ChallengeCredential, returned, verify, serialise, deserialise,
  compare_digest,
}
use continuous_auth.Decisions.Challenge.Service.{
  EnforcementSettings, ChallengeService, new_service, credential_or_none, require_credential,
  configure, setup_error, rotation_error, make_credential, set_security_challenge_document,
}
use continuous_auth.Decisions.Challenge.Ready.{Reply-cases}

-- What `configure` has done when it returns: the texts passed their checks, the credential before it
-- was no obstacle, and the new one is in memory and in the storage.
pub record Configured (c : Crypto) (settings : EnforcementSettings)
    (question answer confirm_answer : String) (current_answer : Option String) (salt : List ℕ)
    (s s' : ChallengeService) : Type 0 where
  pub k : ChallengeCredential
  pub before : Option ChallengeCredential
  pub texts : setup_error question answer confirm_answer ≡ none
  pub loads : (credential_or_none c s).0 ≡ returned before
  pub rotates : rotation_error c before current_answer ≡ none
  pub made : make_credential c settings (strip question) answer salt ≡ some k
  pub not_blank : is_blank (serialise c k) ≡ false
  pub stored : s'.document ≡ some (serialise c k)
  pub credential : s'.credential ≡ some k
  pub loaded : s'.loaded ≡ true
  pub pending : s'.pending ≡ s.pending

module _ (c : Crypto) (settings : EnforcementSettings) where
  credential_or_none-pending :
      (s : ChallengeService)
      → ((credential_or_none c s).1.pending ≡ s.pending)
        × ((credential_or_none c s).1.document ≡ s.document)
  unfolding credential_or_none
  credential_or_none-pending s = elim (Bool-cases s.loaded) [
    | inl e ↦ ground arith
    | inr e ↦ elim (Option-cases s.document) [
      | inl d ↦ ground arith
      | inr (document, d) ↦ elim (Bool-cases (is_blank document)) [
        | inl b ↦ ground arith
        | inr b ↦ elim (Reply-cases (deserialise c document)) [
          | inl (x, r) ↦ ground arith
          | inr (k, r) ↦ ground arith
        ]
      ]
    ]
  ]

  pub configure_lem :
      (question answer confirm_answer : String) (current_answer : Option String) (salt : List ℕ)
      (s s' : ChallengeService)
      → configure c settings question answer confirm_answer current_answer salt s
        ≡ (returned tt, s')
      → Configured c settings question answer confirm_answer current_answer salt s s'
  unfolding configure set_security_challenge_document
  configure_lem question answer confirm_answer current_answer salt s s' h =
      elim (Option-cases (setup_error question answer confirm_answer)) [
        | inr (e, q) ↦ absurd (ground (arith, q, h))
        | inl texts ↦ elim (Reply-cases (credential_or_none c s).0) [
          | inl (e, q) ↦ absurd (ground (arith, q, h))
          | inr (before, loads) ↦ elim (Option-cases (rotation_error c before current_answer)) [
            | inr (e, q) ↦ absurd (ground (arith, q, h))
            | inl rotates ↦
                elim (Option-cases (make_credential c settings (strip question) answer salt)) [
                  | inl q ↦ absurd (ground (arith, q, h))
                  | inr (k, made) ↦ elim (Bool-cases (is_blank (serialise c k))) [
                    | inl q ↦ absurd (ground (arith, q, h))
                    | inr not_blank ↦ record {
                      k = k;
                      before = before;
                      texts = texts;
                      loads = loads;
                      rotates = rotates;
                      made = made;
                      not_blank = not_blank;
                      stored = ground (arith, h);
                      credential = ground (arith, h);
                      loaded = ground (arith, h);
                      pending = ground (arith, h, credential_or_none-pending s);
                    }
                  ]
                ]
          ]
        ]
      ]

-- A credential that is set up is replaced only by who knows its answer: where `configure` returns
-- and a credential was configured before, the current answer was given and is the right one.
pub configure_guarded :
    (c : Crypto) (settings : EnforcementSettings) (question answer confirm_answer : String)
    (current_answer : Option String) (salt : List ℕ) (s s' : ChallengeService)
    (existing : ChallengeCredential)
    → (credential_or_none c s).0 ≡ returned (some existing)
    → configure c settings question answer confirm_answer current_answer salt s ≡ (returned tt, s')
    → (current : String) × (current_answer ≡ some current) × (verify c existing current ≡ some true)
unfolding rotation_error
configure_guarded c settings question answer confirm_answer current_answer salt s s' existing e h =
    let d = configure_lem c settings question answer confirm_answer current_answer salt s s' h in
    elim (Option-cases current_answer) [
      | inl n ↦ absurd (ground (arith, e, d.loads, d.rotates, n))
      | inr (current, n) ↦ elim (Option-cases (verify c existing current)) [
        | inl q ↦ absurd (ground (arith, e, d.loads, d.rotates, n, q))
        | inr (false, q) ↦ absurd (ground (arith, e, d.loads, d.rotates, n, q))
        | inr (true, q) ↦ (current, n, q)
      ]
    ]

compare_digest_self : (xs : List ℕ) → compare_digest xs xs ≡ true
unfolding compare_digest
compare_digest_self [] = refl
compare_digest_self (x ∷ xs) = ground (arith, compare_digest_self xs)

module _ (c : Crypto) (unhexed : (bytes : List ℕ) → c.from_hex (c.to_hex bytes) ≡ some bytes)
    (decoded : (d : StoredDocument) → c.loads (c.dumps d) ≡ some d) where
  pub deserialise-serialise : (k : ChallengeCredential) → deserialise c (serialise c k) ≡ returned k
  unfolding deserialise serialise
  deserialise-serialise k =
      rw
        (decoded (record {
          version = 1;
          question = k.question;
          salt = k.salt_hex;
          digest = k.digest_hex;
          iterations = k.iterations;
        }))
        refl

  make_credential-verify :
      (settings : EnforcementSettings) (question answer : String) (salt : List ℕ)
      (k : ChallengeCredential)
      → make_credential c settings question answer salt ≡ some k
      → verify c k answer ≡ some true
  unfolding make_credential verify
  make_credential-verify settings question answer salt k h =
      elim (Option-cases (c.derive answer salt settings.answer_hash_iterations)) [
        | inl e ↦ absurd (ground (arith, e, h))
        | inr (digest, e) ↦
            ground (arith, e, h, unhexed salt, unhexed digest, compare_digest_self digest)
      ]

  -- What `configure` stores is what a service that starts again on the storage loads: it finds the
  -- same credential, and the answer that was set up verifies against it.
  pub configure_restart :
      (settings : EnforcementSettings) (question answer confirm_answer : String)
      (current_answer : Option String) (salt : List ℕ) (s s' : ChallengeService)
      → configure c settings question answer confirm_answer current_answer salt s
        ≡ (returned tt, s')
      → (k : ChallengeCredential) × (s'.credential ≡ some k)
        × (verify c k answer ≡ some true)
        × ((require_credential c (new_service s'.document)).0 ≡ returned k)
  unfolding require_credential new_service
  configure_restart settings question answer confirm_answer current_answer salt s s' h =
      let d = configure_lem c settings question answer confirm_answer current_answer salt s s' h in
      (
        d.k,
        d.credential,
        make_credential-verify settings (strip question) answer salt d.k d.made,
        rw d.stored (rw d.not_blank (rw (deserialise-serialise d.k) refl)),
      )
