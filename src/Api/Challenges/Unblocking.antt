-- ===== src/Api/Challenges/Unblocking.antt =====
-- What lifts the block of a session, among the calls of backend/app/api/backend.py on challenges.
use continuous_auth.Common.{
  ℕ, ◌≤◌, ◌<◌, ◌≡◌, refl, ap, sym, subst, ◌∙◌, inl, inr, Bool, true, false, ◌&&◌, Option, none,
  some, List, String, lookup, arith, Bool-cases,
}
use continuous_auth.Decisions.Posture.{ResponseOutcome, accepted, is_accepted, is_reauth}
use continuous_auth.Decisions.Challenge.Credential.{
  Crypto, ChallengeCredential, Reply, returned, raised, verify,
}
use continuous_auth.Decisions.Challenge.Registry.{PendingChallenge, ResponseResult, is_open}
use continuous_auth.Decisions.Challenge.Prompts.{respond, expire_overdue, token_error}
use continuous_auth.Decisions.Challenge.Ready.{IsReady}
use continuous_auth.Decisions.Challenge.Keys.{keep, lookup-expire_overdue}
use continuous_auth.Decisions.Challenge.Refinement.{call-IsReady, swept as swept_call}
use continuous_auth.Decisions.Challenge.Service.{ChallengeService}
use continuous_auth.Decisions.Challenge.Answers.{respond_accepted}
use continuous_auth.Api.Challenges.{
  Wiring, Backend, observe_outcome, and_then, call_sink, record_response, sweep_all,
  recovery_sink_for, scheduled_sink_for, sweep_expired_challenges, settle, answer_with,
  respond_after, respond_to_challenge,
}
use continuous_auth.Api.Challenges.Sweep.{
  blocked, session_of, observe_outcome-blocked, call_sink-session_of, record_response-session_of,
  and_then-keeps, sweep_all-blocked, sweep_all-challenges,
}

-- The answer passes this challenge.
abbrev pub IsPassed :
    Crypto → ChallengeCredential → String → Option String → ℕ → PendingChallenge → Type 0
IsPassed c k answer token now p =
    (is_reauth p.action ≡ true)
    × (token_error p.response_token token ≡ none)
    × (now ≤ p.expires_at)
    × (verify c k answer ≡ some true)

both : (x : Bool) (o : ResponseOutcome) → x && is_accepted o ≡ true → (x ≡ true) × (o ≡ accepted)
both true accepted h = (refl, refl)
both x o h = absurd (ground (arith, h))

kept-open :
    (now : ℕ) (o : Option PendingChallenge) (p : PendingChallenge)
    → keep (is_open now) o ≡ some p
    → (o ≡ some p) × (now < p.expires_at)
kept-open now none p h = absurd (ground (arith, h))
kept-open now (some q) p h = elim (Bool-cases (is_open now q)) [
  | inl e ↦ ground (arith, h, e)
  | inr e ↦ absurd (ground (arith, h, e))
]

module _ {F W : Type 0} (digest : String → String) (make_id : ℕ → String)
    (wiring : Wiring F W) where
  settle-blocked :
      (r : ResponseResult) (later : ℕ) (b : Backend W)
      → blocked (session_of b) ≡ true
      → is_reauth r.challenge.action && is_accepted r.outcome ≡ false
      → blocked (session_of (settle digest make_id wiring r later b).1) ≡ true
  unfolding settle
  settle-blocked r later b h k =
      let p = r.challenge in
      let observed = observe_outcome p r.outcome later b in
      let recovery = recovery_sink_for wiring r in
      let scheduled = scheduled_sink_for wiring r in
      and_then-keeps (λ x. blocked (session_of x) ≡ true)
        (call_sink recovery p r.evidence_reference observed)
        (λ b'.
          and_then
            (record_response digest make_id wiring.enforcement p r.outcome r.evidence_reference
              later b')
            (call_sink scheduled p r.evidence_reference))
        (subst (λ s. blocked s ≡ true)
          (sym (call_sink-session_of recovery p r.evidence_reference observed))
          (observe_outcome-blocked p r.outcome later b h k))
        (λ b' h'.
          and_then-keeps (λ x. blocked (session_of x) ≡ true)
            (record_response digest make_id wiring.enforcement p r.outcome r.evidence_reference
              later b')
            (call_sink scheduled p r.evidence_reference)
            (subst (λ s. blocked s ≡ true)
              (sym (
                record_response-session_of digest make_id wiring.enforcement p r.outcome
                  r.evidence_reference later b'))
              h')
            (λ b'' h''.
              subst (λ s. blocked s ≡ true)
                (sym (call_sink-session_of scheduled p r.evidence_reference b'')) h''))

  answer_with_unblocks :
      (id : String) (token : Option String) (later : ℕ) (overdue : List PendingChallenge)
      (reply : Reply ResponseResult) (b : Backend W)
      → blocked (session_of b) ≡ true
      → blocked (session_of (answer_with digest make_id wiring id token later overdue reply b).1)
        ≡ false
      → (r : ResponseResult) × (reply ≡ returned r)
        × (is_reauth r.challenge.action && is_accepted r.outcome ≡ true)
  unfolding answer_with
  answer_with_unblocks id token later overdue (raised e) b h u = absurd (ground (arith, h, u))
  answer_with_unblocks id token later overdue (returned r) b h u =
      elim (Bool-cases (is_reauth r.challenge.action && is_accepted r.outcome)) [
        | inl e ↦ (r, refl, e)
        | inr e ↦ absurd (ground (arith, u, settle-blocked r later b h e))
      ]

  respond_after_unblocks :
      (c : Crypto) (k : ChallengeCredential) (id answer : String) (token : Option String)
      (now later : ℕ) (nonce : String) (overdue : List PendingChallenge) (r : Bool × Backend W)
      → IsReady k r.1.challenges
      → blocked (session_of r.1) ≡ true
      → blocked (
          session_of
            (respond_after digest make_id wiring c id answer token now later nonce overdue r).1)
        ≡ false
      → (p : PendingChallenge) × (lookup id r.1.challenges.pending ≡ some p)
        × IsPassed c k answer token now p
  unfolding respond_after
  respond_after_unblocks c k id answer token now later nonce overdue (false, b) v h u =
      absurd (ground (arith, h, u))
  respond_after_unblocks c k id answer token now later nonce overdue (true, b) v h u =
      let replied = respond c id answer token now nonce b.challenges in
      let (r, e, t) =
        answer_with_unblocks id token later overdue replied.0 (record b { challenges = replied.1 })
          h u in
      let (reauth, acc) = both (is_reauth r.challenge.action) r.outcome t in
      let (there, valid, early, right) =
        respond_accepted c k id answer token now nonce b.challenges r v e acc in
      (r.challenge, there, (reauth, valid, early, right))

  -- A blocked session is unblocked by an answer to a challenge only where the answer is the one of
  -- the credential, and the challenge is a REAUTH that was pending before the call, whose token is
  -- the one given, if one is, and whose deadline had not passed. The sweep of overdue challenges,
  -- wrong and late answers, soft challenges and scheduled prompts leave it blocked.
  pub respond_unblocks :
      (c : Crypto) (k : ChallengeCredential) (id answer : String) (token : Option String)
      (swept now later : ℕ) (nonce : String) (b : Backend W)
      → IsReady k b.challenges
      → blocked (session_of b) ≡ true
      → blocked (
          session_of
            (respond_to_challenge digest make_id wiring c id answer token swept now later nonce
              b).1)
        ≡ false
      → (p : PendingChallenge) × (lookup id b.challenges.pending ≡ some p)
        × (swept < p.expires_at)
        × IsPassed c k answer token now p
  unfolding respond_to_challenge sweep_expired_challenges expire_overdue
  respond_unblocks c k id answer token swept now later nonce b v h u =
      let ready = call-IsReady c k (swept_call swept) b.challenges v in
      let (overdue, left) = expire_overdue swept b.challenges in
      let begun = record b { challenges = left } in
      let r = sweep_all digest make_id wiring overdue later begun in
      let same = sweep_all-challenges digest make_id wiring left overdue later begun refl in
      let (p, there, passed) =
        respond_after_unblocks c k id answer token now later nonce overdue r
          (subst (IsReady k) (sym same) ready)
          (sweep_all-blocked digest make_id wiring overdue later begun h) u in
      let kept = ap (λ (s : ChallengeService). lookup id s.pending) (sym same) ∙ there in
      let (before, opened) =
        kept-open swept (lookup id b.challenges.pending) p
          (sym (lookup-expire_overdue swept id b.challenges.pending v.keyed) ∙ kept) in
      (p, before, opened, passed)
