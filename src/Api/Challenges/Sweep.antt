-- ===== src/Api/Challenges/Sweep.antt =====
-- What the steps of the calls on challenges (backend/app/api/backend.py) keep: a block of the
-- session, and the challenge service.
use continuous_auth.Common.{
  ℕ, ◌≡◌, refl, sym, subst, ◌∙◌, inl, inr, Bool, true, false, ◌&&◌, Option, none, some, List, [],
  ◌∷◌, String, arith, Bool-cases, Option-cases, if◌then◌else◌,
}
use continuous_auth.Contracts.{DecisionAction}
use continuous_auth.Decisions.Posture.{
  SessionState, ResponseOutcome, expired, is_accepted, is_reauth, is_blocking,
}
use continuous_auth.Decisions.Posture.Ladder.{outcome_call, call, call-blocking}
use continuous_auth.Decisions.Challenge.Registry.{
  PendingChallenge, is_scheduled_challenge, is_engine_decision,
}
use continuous_auth.Decisions.Challenge.Service.{ChallengeService}
use continuous_auth.Decisions.Enforcement.{Environment}
use continuous_auth.Decisions.Enforcement.Persistence.{record_challenge_response-session_state}
use continuous_auth.Api.Challenges.{
  AnchorRequest, Wiring, Backend, observe_outcome, and_then, call_sink, record_response, sweep_one,
  sweep_all, outcome_code, evidence_of,
}

-- Protected access is blocked; without a posture nothing is.
abbrev pub blocked : Option SessionState → Bool
blocked none = false
blocked (some s) = is_blocking s.posture

abbrev pub session_of : {W : Type 0} → Backend W → Option SessionState
session_of b = b.coordinator.session_state

module _ {W : Type 0} where
  -- No outcome but an accepted REAUTH lifts the block.
  pub observe_outcome-blocked :
      (p : PendingChallenge) (outcome : ResponseOutcome) (now : ℕ) (b : Backend W)
      → blocked (session_of b) ≡ true
      → is_reauth p.action && is_accepted outcome ≡ false
      → blocked (session_of (observe_outcome p outcome now b)) ≡ true
  unfolding observe_outcome call
  observe_outcome-blocked p outcome now b h k =
      elim (Bool-cases (is_scheduled_challenge p.decision_id)) [
        | inl e ↦ rw e h
        | inr e ↦ elim (Option-cases b.coordinator.session_state) [
          | inl n ↦ absurd (ground (arith, h, n))
          | inr (s, n) ↦ rw e (
              rw n (
                call-blocking (outcome_call p.decision_id p.action outcome now) s
                  (ground (arith, h, n)) k))
        ]
      ]

  pub call_sink-session_of :
      (sink : Option (AnchorRequest → W → Bool × W)) (p : PendingChallenge)
      (evidence : Option String) (b : Backend W)
      → session_of (call_sink sink p evidence b).1 ≡ session_of b
  unfolding call_sink
  call_sink-session_of none p evidence b = refl
  call_sink-session_of (some sink) p none b = refl
  call_sink-session_of (some sink) p (some proof) b = refl

  choose-keeps :
      (P : Backend W → Type 0) (t : Bool) (r r' : Bool × Backend W)
      → P r.1
      → P r'.1
      → P (if t then r else r').1
  choose-keeps P true r r' h h' = h
  choose-keeps P false r r' h h' = h'

  pub and_then-keeps :
      (P : Backend W → Type 0) (r : Bool × Backend W) (next : Backend W → Bool × Backend W)
      → P r.1
      → ((b : Backend W) → P b → P (next b).1)
      → P (and_then r next).1
  and_then-keeps P (true, b) next h k = k b h
  and_then-keeps P (false, b) next h k = h

  observe_outcome-challenges :
      (p : PendingChallenge) (outcome : ResponseOutcome) (now : ℕ) (b : Backend W)
      → (observe_outcome p outcome now b).challenges ≡ b.challenges
  unfolding observe_outcome
  observe_outcome-challenges p outcome now b =
      elim (Bool-cases (is_scheduled_challenge p.decision_id)) [
        | inl e ↦ rw e refl
        | inr e ↦ rw e refl
      ]

never_accepted : (a : DecisionAction) → is_reauth a && is_accepted expired ≡ false
never_accepted a = ground arith

module _ {F W : Type 0} (digest : String → String) (make_id : ℕ → String) where
  pub record_response-session_of :
      (env : Option (Environment F W)) (p : PendingChallenge) (outcome : ResponseOutcome)
      (evidence : Option String) (later : ℕ) (b : Backend W)
      → session_of (record_response digest make_id env p outcome evidence later b).1 ≡ session_of b
  unfolding record_response
  record_response-session_of none p outcome evidence later b = refl
  record_response-session_of (some env) p outcome evidence later b =
      elim (Bool-cases (is_engine_decision p.decision_id)) [
        | inl e ↦ rw e (
            record_challenge_response-session_state digest make_id env p.decision_id p.action
              (is_accepted outcome) (outcome_code outcome) evidence (evidence_of p later)
              b.coordinator)
        | inr e ↦ rw e refl
      ]

  record_response-challenges :
      (env : Option (Environment F W)) (p : PendingChallenge) (outcome : ResponseOutcome)
      (evidence : Option String) (later : ℕ) (b : Backend W)
      → (record_response digest make_id env p outcome evidence later b).1.challenges ≡ b.challenges
  unfolding record_response
  record_response-challenges none p outcome evidence later b = refl
  record_response-challenges (some env) p outcome evidence later b =
      elim (Bool-cases (is_engine_decision p.decision_id)) [ inl e ↦ rw e refl | inr e ↦ rw e refl ]

module _ {F W : Type 0} (digest : String → String) (make_id : ℕ → String)
    (wiring : Wiring F W) where
  sweep_one-blocked :
      (p : PendingChallenge) (later : ℕ) (b : Backend W)
      → blocked (session_of b) ≡ true
      → blocked (session_of (sweep_one digest make_id wiring p later b).1) ≡ true
  unfolding sweep_one
  sweep_one-blocked p later b h =
      let observed = observe_outcome p expired later b in
      choose-keeps (λ b'. blocked (session_of b') ≡ true) (is_scheduled_challenge p.decision_id)
        (true, b) (record_response digest make_id wiring.enforcement p expired none later observed)
        h
        (subst (λ s. blocked s ≡ true)
          (sym (
            record_response-session_of digest make_id wiring.enforcement p expired none later
              observed))
          (observe_outcome-blocked p expired later b h (never_accepted p.action)))

  -- Nor does it lift a block.
  pub sweep_all-blocked :
      (ps : List PendingChallenge) (later : ℕ) (b : Backend W)
      → blocked (session_of b) ≡ true
      → blocked (session_of (sweep_all digest make_id wiring ps later b).1) ≡ true
  unfolding sweep_all
  sweep_all-blocked [] later b h = h
  sweep_all-blocked (p ∷ ps) later b h =
      and_then-keeps (λ b'. blocked (session_of b') ≡ true)
        (sweep_one digest make_id wiring p later b) (sweep_all digest make_id wiring ps later)
        (sweep_one-blocked p later b h) (sweep_all-blocked ps later)

  sweep_one-challenges :
      (x : ChallengeService) (p : PendingChallenge) (later : ℕ) (b : Backend W)
      → b.challenges ≡ x
      → (sweep_one digest make_id wiring p later b).1.challenges ≡ x
  unfolding sweep_one
  sweep_one-challenges x p later b h =
      let observed = observe_outcome p expired later b in
      choose-keeps (λ b'. b'.challenges ≡ x) (is_scheduled_challenge p.decision_id) (true, b)
        (record_response digest make_id wiring.enforcement p expired none later observed) h
        (record_response-challenges digest make_id wiring.enforcement p expired none later observed
          ∙ observe_outcome-challenges p expired later b
          ∙ h)

  -- The escalation of overdue challenges does not touch the challenge service.
  pub sweep_all-challenges :
      (x : ChallengeService) (ps : List PendingChallenge) (later : ℕ) (b : Backend W)
      → b.challenges ≡ x
      → (sweep_all digest make_id wiring ps later b).1.challenges ≡ x
  unfolding sweep_all
  sweep_all-challenges x [] later b h = h
  sweep_all-challenges x (p ∷ ps) later b h =
      and_then-keeps (λ b'. b'.challenges ≡ x) (sweep_one digest make_id wiring p later b)
        (sweep_all digest make_id wiring ps later) (sweep_one-challenges x p later b h)
        (sweep_all-challenges x ps later)
