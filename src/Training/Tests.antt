-- ===== src/Training/Tests.antt =====
-- Runs of the training gate of ml/training/gate.py.
use continuous_auth.Common.{◌≡◌, ◌↔◌, refl, true, false, none, List, [], ◌∷◌, All}
use continuous_auth.Contracts.{synthetic, pilot}
use continuous_auth.Updates.Candidates.{UpdateCandidate, promoted}
use continuous_auth.Training.Gate.{
  FeatureWindow, IsTrainable, require_promotion_gate, require_promotion_gate_lem,
}

abbrev candidate : UpdateCandidate
candidate = record {
  candidate_id = "c";
  user_id = "u";
  segment_id = "g";
  gate_evidence = record {
    g1_risk = true;
    g2_verification = true;
    g3_volume = true;
    g4_continuity = true;
    g5_quarantine = true;
    g6_schedule = true;
  };
  verification_anchor = none;
  quarantined_at = 3;
  incident_recorded = false;
  disposition = promoted;
  reason_code = "PROMOTED_FOR_SCHEDULED_RETRAINING";
  audit_revision = 3;
}

abbrev windows : List FeatureWindow
windows =
    record { user_id = "u"; segment_id = "g"; provenance = pilot }
    ∷ record { user_id = "u"; segment_id = "x"; provenance = synthetic }
    ∷ []

passes : require_promotion_gate "u" windows (("g", candidate) ∷ []) ≡ none
unfolding require_promotion_gate
passes = refl

require_promotion_gate_lem_example :
    (require_promotion_gate "u" windows (("g", candidate) ∷ []) ≡ none)
    ↔ All (IsTrainable "u" (("g", candidate) ∷ [])) windows
require_promotion_gate_lem_example = require_promotion_gate_lem "u" windows (("g", candidate) ∷ [])
