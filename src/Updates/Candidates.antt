-- ===== src/Updates/Candidates.antt =====
-- backend/app/updates/manager.py: candidates for promotion, and the gates that they pass. Times are
-- instants in microseconds; the texts that the source prints them as are read back unchanged.
use continuous_auth.Common.{
  ℕ, ◌+◌, ◌*◌, Bool, true, false, not, ◌&&◌, ◌||◌, Option, none, some, List, String, leb, is_blank,
  is_some, every, same_text, if◌then◌else◌,
}
use continuous_auth.Contracts.{RiskLevel, low, medium, high, unavailable}
use continuous_auth.Decisions.Enforcement.{VerificationAnchor, VerificationRecord}

-- protocol/generated/python/contracts.py
pub data CandidateDisposition : Type 0 where
  quarantined eligible rejected promoted invalidated : CandidateDisposition

pub record GateEvidence : Type 0 where
  pub g1_risk : Bool
  pub g2_verification : Bool
  pub g3_volume : Bool
  pub g4_continuity : Bool
  pub g5_quarantine : Bool
  pub g6_schedule : Bool

pub record UpdateCandidate : Type 0 where
  pub candidate_id : String
  pub user_id : String
  pub segment_id : String
  pub gate_evidence : GateEvidence
  pub verification_anchor : Option VerificationAnchor
  pub quarantined_at : ℕ
  pub incident_recorded : Bool
  pub disposition : CandidateDisposition
  pub reason_code : String
  pub audit_revision : ℕ

pub record UpdateManagerConfig (F : Type 0) : Type 0 where
  pub min_promotable_windows : ℕ
  pub quarantine_days : ℕ
  pub retraining_cadence_days : ℕ
  pub regression_tolerance : F
  pub retained_model_versions : ℕ

pub record SegmentEvidence : Type 0 where
  pub user_id : String
  pub session_id : String
  pub segment_id : String
  pub completed_at : ℕ
  pub risk_levels : List RiskLevel
  pub scored_windows : ℕ
  pub enforcement_triggered : Bool
  pub unexplained_gap : Bool
  pub verification : Option VerificationRecord

-- a time in days
abbrev pub days : ℕ → ℕ
days n = n * 86400000000

abbrev pub is_promoted : CandidateDisposition → Bool
is_promoted promoted = true
is_promoted quarantined = false
is_promoted eligible = false
is_promoted rejected = false
is_promoted invalidated = false

abbrev pub is_eligible : CandidateDisposition → Bool
is_eligible eligible = true
is_eligible quarantined = false
is_eligible rejected = false
is_eligible promoted = false
is_eligible invalidated = false

-- `level in (RiskLevel.LOW, RiskLevel.MEDIUM)`
abbrev pub is_calm : RiskLevel → Bool
is_calm low = true
is_calm medium = true
is_calm high = false
is_calm unavailable = false

-- The first four gates, and all six.
abbrev pub fundamental : GateEvidence → Bool
fundamental g = g.g1_risk && g.g2_verification && g.g3_volume && g.g4_continuity

abbrev pub all_gates : GateEvidence → Bool
all_gates g = fundamental g && g.g5_quarantine && g.g6_schedule

-- `verification.segment_id in (None, evidence.segment_id)`
abbrev pub of_segment : Option String → String → Bool
of_segment none segment_id = true
of_segment (some s) segment_id = same_text s segment_id

anchor_of : Option VerificationRecord → SegmentEvidence → Option VerificationAnchor
anchor_of none e = none
anchor_of (some v) e =
    if not (same_text v.user_id e.user_id)
      || not (same_text v.session_id e.session_id)
      || not (of_segment v.segment_id e.segment_id)
    then none
    else some v.anchor_type

-- `_verification_anchor`
unfoldable pub verification_anchor : SegmentEvidence → Option VerificationAnchor
unfolding anchor_of
verification_anchor e = anchor_of e.verification e

-- The guard of `reassess`.
abbrev pub is_settled : CandidateDisposition → Bool
is_settled rejected = true
is_settled invalidated = true
is_settled promoted = true
is_settled quarantined = false
is_settled eligible = false

module _ {F : Type 0} (config : UpdateManagerConfig F) where
  abbrev pub gates : SegmentEvidence → GateEvidence
  gates e = record {
    g1_risk = not e.enforcement_triggered && every is_calm e.risk_levels;
    g2_verification = is_some (verification_anchor e);
    g3_volume = leb config.min_promotable_windows e.scored_windows;
    g4_continuity = not e.unexplained_gap;
    g5_quarantine = false;
    g6_schedule = false;
  }

  -- `submit_segment`, with the id of the factory; the candidate is saved as it is answered
  unfoldable pub submit_segment : String → SegmentEvidence → UpdateCandidate
  submit_segment id e =
      let passed = fundamental (gates e) in
      record {
        candidate_id = id;
        user_id = e.user_id;
        segment_id = e.segment_id;
        gate_evidence = gates e;
        verification_anchor = verification_anchor e;
        quarantined_at = e.completed_at;
        incident_recorded = false;
        disposition = if passed then quarantined else rejected;
        reason_code = if passed then "QUARANTINE_STARTED" else "GATE_REJECTED";
        audit_revision = 1;
      }

  -- `reassess`: a settled candidate is answered as it is, and is not saved again
  unfoldable pub reassess : ℕ → Bool → UpdateCandidate → UpdateCandidate
  reassess now scheduled_run c =
      let g5 = leb (c.quarantined_at + days config.quarantine_days) now in
      let passes = fundamental c.gate_evidence && g5 && scheduled_run && not c.incident_recorded in
      let updated = record c {
        gate_evidence = record c.gate_evidence { g5_quarantine = g5; g6_schedule = scheduled_run };
        disposition = if passes then eligible else quarantined;
        reason_code = if passes then "ALL_GATES_PASSED" else "QUARANTINE_OR_SCHEDULE_PENDING";
        audit_revision = c.audit_revision + 1;
      } in
      if is_settled c.disposition then c else updated

-- `invalidate`; none is a `ValueError`
unfoldable pub invalidate : String → UpdateCandidate → Option UpdateCandidate
invalidate reason_code c =
    if is_blank reason_code
    then none
    else some (record c {
      incident_recorded = true;
      disposition = invalidated;
      reason_code = reason_code;
      audit_revision = c.audit_revision + 1;
    })
