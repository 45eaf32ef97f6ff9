-- ===== src/Decisions/Challenge/Openings.antt =====
-- backend/app/decisions/challenge.py: which of several pending challenges is shown, or returned to a
-- request to reauthenticate.
use continuous_auth.Common.{
  ℕ, ◌≤◌, ◌≡◌, ◌≢◌, refl, inl, inr, true, false, some, String, lookup, values, arith, Bool-cases,
  Option-cases, ◌⊎◌,
}
use continuous_auth.Decisions.Challenge.Credential.{Crypto, ChallengeCredential, returned}
use continuous_auth.Decisions.Challenge.Registry.{
  PendingChallenge, Registry, select, is_open, opened_before, outranked, pending_at,
  active_challenge, is_enforcement, outstanding, first_max, is_scheduled_challenge,
}
use continuous_auth.Decisions.Challenge.Service.{EnforcementSettings, ChallengeService}
use continuous_auth.Decisions.Challenge.Prompts.{Subject, open_reauthentication}
use continuous_auth.Decisions.Challenge.Keys.{IsKeyed}
use continuous_auth.Decisions.Challenge.Ready.{IsReady, require_credential_ready}
use continuous_auth.Decisions.Challenge.Selection.{
  selected, opened_before-IsOrder, outranked-IsOrder, select-All_back, All-values, first_max-none,
}

outranked-false :
    (p q : PendingChallenge)
    → outranked p q ≡ false
    → ((is_scheduled_challenge p.decision_id ≡ false)
        × (is_scheduled_challenge q.decision_id ≡ true))
      ⊎ ((is_scheduled_challenge p.decision_id ≡ is_scheduled_challenge q.decision_id)
          × (q.opened_at ≤ p.opened_at))
unfolding outranked
outranked-false p q h = elim (Bool-cases (is_scheduled_challenge p.decision_id)) [
  | inl a ↦ elim (Bool-cases (is_scheduled_challenge q.decision_id)) [
    | inl b ↦ inr (rw a (rw b refl), ground (arith, h, a, b))
    | inr b ↦ absurd (ground (arith, h, a, b))
  ]
  | inr a ↦ elim (Bool-cases (is_scheduled_challenge q.decision_id)) [
    | inl b ↦ inl (a, b)
    | inr b ↦ inr (rw a (rw b refl), ground (arith, h, a, b))
  ]
]

clash : true ≢ false
clash h = absurd (ground (arith, h))

-- The active challenge is pending and not overdue, and each other such challenge is a scheduled
-- prompt while it is none, or is of its kind and was not opened later.
pub active_challenge_first :
    (now : ℕ) (r : Registry) (p q : PendingChallenge) (j : String)
    → IsKeyed r
    → active_challenge now r ≡ some p
    → lookup j r ≡ some q
    → is_open now q ≡ true
    → (lookup p.decision_id r ≡ some p)
      × (is_open now p ≡ true)
      × (((is_scheduled_challenge p.decision_id ≡ false)
            × (is_scheduled_challenge q.decision_id ≡ true))
          ⊎ ((is_scheduled_challenge p.decision_id ≡ is_scheduled_challenge q.decision_id)
              × (q.opened_at ≤ p.opened_at)))
unfolding active_challenge pending_at
active_challenge_first now r p q j v h l t =
    let (there, opened, least) =
      selected outranked outranked-IsOrder (is_open now) r p q j v h l t in
    (there, opened, outranked-false p q least)

-- While an enforcement challenge is pending and not overdue, a request to reauthenticate changes
-- nothing, so that no deadline moves: it gets such a challenge, one that was opened last.
pub open_reauthentication_keeps :
    (c : Crypto) (settings : EnforcementSettings) (k : ChallengeCredential) (who : Subject)
    (now : ℕ) (id token : String) (s : ChallengeService) (q : PendingChallenge) (j : String)
    → IsReady k s
    → lookup j s.pending ≡ some q
    → is_enforcement now q ≡ true
    → (p : PendingChallenge) × (open_reauthentication c settings who now id token s
        ≡ (returned p, s))
      × (lookup p.decision_id s.pending ≡ some p)
      × (is_enforcement now p ≡ true)
      × (q.opened_at ≤ p.opened_at)
unfolding open_reauthentication outstanding
open_reauthentication_keeps c settings k who now id token s q j v l t =
    rw (require_credential_ready c k s v.loaded v.credential)
      (elim (Option-cases
        (first_max opened_before (select (is_enforcement now) (values s.pending)))) [
          | inl e ↦
              let none_passes =
                select-All_back (λ x. true ≡ false) (is_enforcement now) (values s.pending)
                  (first_max-none opened_before (select (is_enforcement now) (values s.pending))
                    e) in
              absurd (
                clash (
                  All-values (λ x. (is_enforcement now x ≡ true) → true ≡ false) j s.pending q
                    none_passes l t))
          | inr (p, e) ↦
              let (there, chosen, least) =
                selected opened_before opened_before-IsOrder (is_enforcement now) s.pending p q j
                  v.keyed e l t in
              (p, rw e refl, there, chosen, ground (arith, least))
        ])
