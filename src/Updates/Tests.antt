-- ===== src/Updates/Tests.antt =====
-- Runs of the update manager of backend/app/updates/manager.py, with whole numbers as floats.
use continuous_auth.Common.{
  is_blank, ℕ, ◌+◌, ◌-◌, ◌*◌, ◌/◌, ◌≡◌, ◌⊎◌, refl, true, false, Option, none, some, List, [], ◌∷◌,
  String, All, ltb, leb,
}
use continuous_auth.Contracts.{low, medium, high}
use continuous_auth.Risk.Assessment.{Floats}
use continuous_auth.Decisions.Enforcement.{VerificationRecord, a2_reauth}
use continuous_auth.Updates.Candidates.{
  UpdateCandidate, UpdateManagerConfig, SegmentEvidence, days, reassess, verification_anchor,
  submit_segment, invalidate,
}
use continuous_auth.Updates.Scheduled.{
  UpdateTables, CandidateBuild, schedule_due, run_scheduled, activated, train, promotable,
  reassess_all, candidates_for_user, begin_run, validate_build, conclude, validate, finish, promote,
  reject, save_all, save_candidate,
}
use continuous_auth.Updates.Gates.{passed}
use continuous_auth.Updates.Tables.{IsSound}
use continuous_auth.Updates.Activation.{Activates, IsPast, run_scheduled-activations}
use continuous_auth.Updates.Calls.{
  Call, submitted, reassessed, invalidated_for, run, run-IsSound, no_tables,
}

abbrev whole : Floats
whole = record {
  F = ℕ;
  zero = 0;
  one = 1;
  add = λ a b. a + b;
  sub = λ a b. a - b;
  mul = λ a b. a * b;
  div = λ a b. a / b;
  le = leb;
  lt = ltb;
}

abbrev config : UpdateManagerConfig ℕ
config = record {
  min_promotable_windows = 5;
  quarantine_days = 7;
  retraining_cadence_days = 14;
  regression_tolerance = 2;
  retained_model_versions = 2;
}

abbrev anchor : VerificationRecord
anchor = record {
  anchor_id = "a";
  user_id = "u";
  session_id = "s";
  segment_id = none;
  anchor_type = a2_reauth;
  evidence_reference = "e";
  authenticated_at = 3;
}

abbrev segment : SegmentEvidence
segment = record {
  user_id = "u";
  session_id = "s";
  segment_id = "g";
  completed_at = 10;
  risk_levels = low ∷ medium ∷ [];
  scored_windows = 6;
  enforcement_triggered = false;
  unexplained_gap = false;
  verification = some anchor;
}

abbrev builder : String → List UpdateCandidate → Option (CandidateBuild whole)
builder user_id cs = some (record {
  profile_version = "p2";
  keyboard_artifact_version = some "k2";
  mouse_artifact_version = none;
  aggregate_checksum = "c";
  baseline_metrics = record { false_rejection_rate = 5; false_acceptance_rate = some 5 };
  candidate_metrics = record { false_rejection_rate = 6; false_acceptance_rate = some 7 };
})

abbrev calls : List (Call whole config)
calls =
    submitted "c1" segment
    ∷ submitted "c2" (record segment { risk_levels = high ∷ [] })
    ∷ invalidated_for "c2" "INCIDENT"
    ∷ reassessed "c1" (days 8) true
    ∷ []

abbrev tables : UpdateTables
tables = run whole config calls no_tables

run-IsSound_example : IsSound (run whole config calls no_tables)
run-IsSound_example = run-IsSound whole config calls no_tables tt

tables-IsSound : IsSound tables
tables-IsSound = run-IsSound whole config calls no_tables tt

-- The eligible segment is promoted, and the profile activated.
activates : (run_scheduled whole config builder "r" "u" (days 8) tables).0.status ≡ some activated
unfolding run run_scheduled schedule_due train promotable reassess_all candidates_for_user begin_run
    reassess verification_anchor validate_build conclude validate finish promote reject save_all
    save_candidate submit_segment invalidate is_blank
activates = refl

run_scheduled-activations_example :
    let after = (run_scheduled whole config builder "r" "u" (days 8) tables).1.activations in
    (after ≡ tables.activations)
    ⊎ (All (IsPast "u" (days 8) (days 14)) tables.runs
        × ((cs : List UpdateCandidate) × All (λ c. passed c ≡ true) cs
            × Activates whole config builder "u" cs tables.activations after))
run_scheduled-activations_example =
    run_scheduled-activations whole config builder "r" "u" (days 8) tables tables-IsSound
