-- ===== src/Api/Challenges.antt =====
-- backend/app/api/backend.py: the calls of `SQLiteApiBackend` on challenges. The sinks of anchors and
-- the environment of the coordinator are what the backend is wired with; the posture stands in the
-- coordinator's state, where the coordinator shares it with the backend. A call reads the clock
-- several times: `swept` and `now` are the readings of the challenge service, `later` stands for those
-- of the posture and of the records.
pub mod Sweep
pub mod Unblocking
mod Tests
use continuous_auth.Common.{
  ℕ, Bool, true, false, not, ◌&&◌, Option, none, some, List, [], ◌∷◌, String, is_some, same_text,
  is_ascii, if◌then◌else◌,
}
use continuous_auth.Contracts.{DecisionAction}
use continuous_auth.Decisions.Posture
use continuous_auth.Decisions.Posture.{
  SessionState, ResponseOutcome, accepted, rejected, expired, is_accepted,
}
use continuous_auth.Decisions.Challenge.Credential.{
  Crypto, ChallengeError, unknown_challenge, value_error, non_ascii_token, blank_document, Reply,
  returned, raised,
}
use continuous_auth.Decisions.Challenge.Registry.{
  PendingChallenge, ResponseResult, is_scheduled_challenge, is_recovery_challenge,
  is_engine_decision,
}
use continuous_auth.Decisions.Challenge.Service.{ChallengeService}
use continuous_auth.Decisions.Challenge.Prompts
use continuous_auth.Decisions.Challenge.Prompts.{token_error}
use continuous_auth.Decisions.Enforcement.{Environment, EnforcementCoordinator}
use continuous_auth.Decisions.Enforcement.Actions.{Evidence, record_challenge_response}

-- What a sink of anchors is called with.
pub record AnchorRequest : Type 0 where
  pub decision_id : String
  pub session_id : String
  pub segment_id : String
  pub evidence_reference : String

-- A sink answers false where it raises. The recovery sink is not given the decision id.
pub record Wiring (F W : Type 0) : Type 0 where
  pub enforcement : Option (Environment F W)
  pub recovery_anchor_sink : Option (AnchorRequest → W → Bool × W)
  pub scheduled_anchor_sink : Option (AnchorRequest → W → Bool × W)

pub record Backend (W : Type 0) : Type 0 where
  pub challenges : ChallengeService
  pub coordinator : EnforcementCoordinator W

pub data ApiError : Type 0 where
  resource_not_found : ApiError
  resource_conflict : ChallengeError → ApiError
  -- an exception that the backend does not handle
  uncaught : ApiError

pub data ApiResult : Type 0 where
  ok : ResponseOutcome → ApiResult
  error : ApiError → ApiResult

-- `CHALLENGE_` and the outcome
abbrev pub outcome_code : ResponseOutcome → String
outcome_code accepted = "CHALLENGE_ACCEPTED"
outcome_code rejected = "CHALLENGE_REJECTED"
outcome_code expired = "CHALLENGE_EXPIRED"

observe : Option SessionState → PendingChallenge → ResponseOutcome → ℕ → Option SessionState
observe none p outcome now = none
observe (some s) p outcome now =
    some (Posture.observe_challenge_outcome p.decision_id p.action outcome now s).1

module _ {W : Type 0} where
  -- The posture learns of the outcome, unless the challenge is a scheduled prompt.
  unfoldable pub observe_outcome : PendingChallenge → ResponseOutcome → ℕ → Backend W → Backend W
  unfolding observe
  observe_outcome p outcome now b =
      let s = observe b.coordinator.session_state p outcome now in
      if is_scheduled_challenge p.decision_id
      then b
      else record b { coordinator = record b.coordinator { session_state = s } }

  -- What follows a call, unless it raised.
  abbrev pub and_then : Bool × Backend W → (Backend W → Bool × Backend W) → Bool × Backend W
  and_then (true, b) next = next b
  and_then (false, b) next = (false, b)

  -- A call of a sink, if there is one and there is evidence.
  unfoldable pub call_sink :
      Option (AnchorRequest → W → Bool × W)
      → PendingChallenge
      → Option String
      → Backend W
      → Bool × Backend W
  call_sink none p evidence b = (true, b)
  call_sink (some sink) p none b = (true, b)
  call_sink (some sink) p (some proof) b =
      let request : AnchorRequest = record {
        decision_id = p.decision_id;
        session_id = p.session_id;
        segment_id = p.segment_id;
        evidence_reference = proof;
      } in
      let (done, w) = sink request b.coordinator.world in
      (done, record b { coordinator = record b.coordinator { world = w } })

-- The subject of a challenge.
abbrev pub evidence_of : PendingChallenge → ℕ → Evidence
evidence_of p now = record {
  user_id = p.user_id;
  session_id = p.session_id;
  segment_id = some p.segment_id;
  evidence_reference = "";
  authenticated_at = now;
}

module _ {F W : Type 0} (digest : String → String) (make_id : ℕ → String) where
  -- `record_challenge_response`, if there is a coordinator and the decision has a row.
  unfoldable pub record_response :
      Option (Environment F W)
      → PendingChallenge
      → ResponseOutcome
      → Option String
      → ℕ
      → Backend W
      → Bool × Backend W
  unfolding record_challenge_response is_engine_decision
  record_response none p outcome evidence later b = (true, b)
  record_response (some env) p outcome evidence later b =
      let (o, c) =
        record_challenge_response digest make_id env p.decision_id p.action (is_accepted outcome)
          (outcome_code outcome) evidence (evidence_of p later) b.coordinator in
      if is_engine_decision p.decision_id
      then (is_some o, record b { coordinator = c })
      else (true, b)

module _ {F W : Type 0} (wiring : Wiring F W) where
  -- The sinks that an answer calls.
  unfoldable pub recovery_sink_for : ResponseResult → Option (AnchorRequest → W → Bool × W)
  unfolding is_recovery_challenge
  recovery_sink_for r =
      if is_accepted r.outcome && is_recovery_challenge r.challenge.decision_id
      then wiring.recovery_anchor_sink
      else none

  unfoldable pub scheduled_sink_for : ResponseResult → Option (AnchorRequest → W → Bool × W)
  unfolding is_scheduled_challenge
  scheduled_sink_for r =
      if is_accepted r.outcome && is_scheduled_challenge r.challenge.decision_id
      then wiring.scheduled_anchor_sink
      else none

module _ {F W : Type 0} (digest : String → String) (make_id : ℕ → String)
    (wiring : Wiring F W) where
  -- What the sweep does with one overdue challenge.
  unfoldable pub sweep_one : PendingChallenge → ℕ → Backend W → Bool × Backend W
  unfolding observe_outcome record_response
  sweep_one p later b =
      let swept =
        record_response digest make_id wiring.enforcement p expired none later
          (observe_outcome p expired later b) in
      if is_scheduled_challenge p.decision_id then (true, b) else swept

  -- The loop of the sweep; an exception leaves it.
  unfoldable pub sweep_all : List PendingChallenge → ℕ → Backend W → Bool × Backend W
  unfolding sweep_one
  sweep_all [] later b = (true, b)
  sweep_all (p ∷ ps) later b = and_then (sweep_one p later b) (sweep_all ps later)

  -- `sweep_expired_challenges`: its tuple, and whether it came to the end
  unfoldable pub sweep_expired_challenges :
      ℕ → ℕ → Backend W → List PendingChallenge × (Bool × Backend W)
  unfolding sweep_all
  sweep_expired_challenges swept later b =
      let (overdue, challenges) = Prompts.expire_overdue swept b.challenges in
      (overdue, sweep_all overdue later (record b { challenges = challenges }))

  -- What follows the answer: the posture, the anchors and the record.
  unfoldable pub settle : ResponseResult → ℕ → Backend W → Bool × Backend W
  unfolding observe_outcome call_sink record_response recovery_sink_for scheduled_sink_for
  settle r later b =
      let p = r.challenge in
      and_then
        (call_sink (recovery_sink_for wiring r) p r.evidence_reference
          (observe_outcome p r.outcome later b))
        (λ b'.
          and_then
            (record_response digest make_id wiring.enforcement p r.outcome r.evidence_reference
              later b')
            (call_sink (scheduled_sink_for wiring r) p r.evidence_reference))

  -- The answer of an id that is unknown: late, if the sweep has just taken its challenge out.
  unfoldable pub late_answer : String → Option String → List PendingChallenge → ApiResult
  unfolding token_error
  late_answer decision_id token [] = error resource_not_found
  late_answer decision_id token (p ∷ ps) =
      let rest = late_answer decision_id token ps in
      if same_text p.decision_id decision_id
      then elim (token_error p.response_token token) [
        | none ↦ ok expired
        | some unknown_challenge ↦ error resource_not_found
        | some e ↦ error uncaught
      ]
      else rest

  -- The handlers of the exceptions of `respond`.
  abbrev pub handle : ChallengeError → ApiResult → ApiResult
  handle unknown_challenge late = late
  handle value_error late = error uncaught
  handle non_ascii_token late = error uncaught
  handle blank_document late = error uncaught
  handle e late = error (resource_conflict e)

  -- What the handler makes of the service's reply.
  unfoldable pub answer_with :
      String
      → Option String
      → ℕ
      → List PendingChallenge
      → Reply ResponseResult
      → Backend W
      → ApiResult × Backend W
  unfolding settle late_answer
  answer_with decision_id token later overdue (raised e) b =
      (handle e (late_answer decision_id token overdue), b)
  answer_with decision_id token later overdue (returned r) b =
      let (done, b') = settle r later b in (if done then ok r.outcome else error uncaught, b')

  -- The handler after the sweep.
  unfoldable pub respond_after :
      Crypto
      → String
      → String
      → Option String
      → ℕ
      → ℕ
      → String
      → List PendingChallenge
      → Bool × Backend W
      → ApiResult × Backend W
  unfolding answer_with
  respond_after c decision_id answer token now later nonce overdue (false, b) = (error uncaught, b)
  respond_after c decision_id answer token now later nonce overdue (true, b) =
      let (reply, challenges) = Prompts.respond c decision_id answer token now nonce b.challenges in
      answer_with decision_id token later overdue reply (record b { challenges = challenges })

  unfoldable pub respond_to_challenge :
      Crypto
      → String
      → String
      → Option String
      → ℕ
      → ℕ
      → ℕ
      → String
      → Backend W
      → ApiResult × Backend W
  unfolding respond_after sweep_expired_challenges
  respond_to_challenge c decision_id answer token swept now later nonce b =
      let (overdue, r) = sweep_expired_challenges swept later b in
      respond_after c decision_id answer token now later nonce overdue r
