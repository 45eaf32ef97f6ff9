-- ===== src/Risk/Engine/Levels.antt =====
-- The risk level of backend/app/risk/engine.py from one window to the next.
use continuous_auth.Common.{
  ℕ, ◌≤◌, ◌<◌, ◌≡◌, ap, refl, ◌⊎◌, inl, inr, true, List, arith, if◌then◌else◌, length, count_if,
  every, push_bounded, length-push_bounded, String,
}
use continuous_auth.Contracts.{RiskLevel, is_high}
use continuous_auth.Risk.Assessment.{Floats, DecisionInput, adjust}
use continuous_auth.Decisions.Policy.{RiskSettings}
use continuous_auth.Risk.Engine.Emission.{RiskEngine, hold, failure_outcome, degrade}
use continuous_auth.Risk.Engine.Scoring.{rank, candidate_level, with_hysteresis, smooth}
use continuous_auth.Risk.Engine.Branches.{
  refusal, ignored, held, failed_open, assessed, after_process, stamped, degrade-Framed,
  component_recovered-Framed, process-Branch,
}
use continuous_auth.Risk.Engine.Process.{score_window, emit_scored}

module _ (fl : Floats) where
  open fl use {F, le, lt}

  -- The threshold of a level that is above LOW.
  abbrev pub threshold : RiskSettings F → RiskLevel → F
  threshold settings level =
      if is_high level then settings.risk.high_threshold else settings.risk.medium_threshold

  level-raised :
      (settings : RiskSettings F) (history : List F) (before after : RiskLevel)
      → after ≡ with_hysteresis fl settings history before (candidate_level fl settings history).0
      → rank before < rank after
      → settings.risk.breach_k ≤ count_if (le (threshold settings after)) history
  unfolding with_hysteresis candidate_level
  level-raised settings history before after e h = ground arith

  level-lowered :
      (settings : RiskSettings F) (history : List F) (before after : RiskLevel)
      → after ≡ with_hysteresis fl settings history before (candidate_level fl settings history).0
      → rank after < rank before
      → (settings.risk.breach_n ≤ length history)
        × (every (λ value. lt value (threshold settings before)) history ≡ true)
  unfolding with_hysteresis candidate_level
  level-lowered settings history before after e h = ground arith

  module _ (make_id : ℕ → String) where
    -- What a request makes of the history and of the level.
    process-scores :
        (request : DecisionInput F) (e : RiskEngine F)
        → let e' = after_process fl make_id request e in
          ((e'.history ≡ e.history) × (e'.risk_level ≡ e.risk_level))
          ⊎ ((v : F) × (e'.history ≡ push_bounded e.settings.risk.breach_n e.history v)
              × (e'.risk_level
                  ≡ with_hysteresis fl e.settings e'.history e.risk_level
                      (candidate_level fl e.settings e'.history).0))
    unfolding hold failure_outcome emit_scored score_window degrade
    process-scores request e = elim (process-Branch fl make_id request e) [
      | refusal x q ↦ inl (rw q (refl, refl))
      | ignored _ q ↦ inl (rw q (refl, refl))
      | held _ _ q ↦ inl (rw q (refl, refl))
      | failed_open d _ _ q ↦
          let (_, hist, _, lev, _, _) =
            degrade-Framed "RISK_INPUT_UNAVAILABLE" (stamped request e) in
          inl (rw q (hist, lev))
      | assessed fused k u _ _ q ↦
          let e1 = stamped request e in
          let (_, hist, smo, lev, sett, _) = component_recovered-Framed e1 in
          inr (
            smooth fl e.smoothed e.settings.risk.ewma_alpha (adjust fl request.context fused),
            rw (q, hist, smo, sett) refl,
            rw (q, hist, smo, lev, sett) refl,
          )
    ]

    -- The level is raised only on evidence: where a request raises it, at least `breach_k` of the
    -- smoothed scores kept are at or above the threshold of the new level.
    pub process-raises :
        (request : DecisionInput F) (e : RiskEngine F)
        → rank e.risk_level < rank (after_process fl make_id request e).risk_level
        → e.settings.risk.breach_k
          ≤ count_if
              (le (threshold e.settings (after_process fl make_id request e).risk_level))
              (after_process fl make_id request e).history
    process-raises request e h =
        let e' = after_process fl make_id request e in
        elim (process-scores request e) [
          | inl (_, same) ↦ absurd (omega (arith, rw same at h))
          | inr (v, _, new) ↦ level-raised e.settings e'.history e.risk_level e'.risk_level new h
        ]

    -- The level is lowered only by calm: where a request lowers it, the history of smoothed scores
    -- is full, and every score in it is below the threshold of the level that is left.
    process-lowers :
        (request : DecisionInput F) (e : RiskEngine F)
        → rank (after_process fl make_id request e).risk_level < rank e.risk_level
        → (e.settings.risk.breach_n ≤ length (after_process fl make_id request e).history)
          × (every
                (λ value. lt value (threshold e.settings e.risk_level))
                (after_process fl make_id request e).history
              ≡ true)
    process-lowers request e h =
        let e' = after_process fl make_id request e in
        elim (process-scores request e) [
          | inl (_, same) ↦ absurd (omega (arith, rw same at h))
          | inr (v, _, new) ↦ level-lowered e.settings e'.history e.risk_level e'.risk_level new h
        ]

    -- A request leaves the history of smoothed scores within `breach_n` if it found it so.
    process-bounded :
        (request : DecisionInput F) (e : RiskEngine F)
        → length e.history ≤ e.settings.risk.breach_n
        → length (after_process fl make_id request e).history ≤ e.settings.risk.breach_n
    process-bounded request e h = elim (process-scores request e) [
      | inl (same, _) ↦ rw same h
      | inr (v, new, _) ↦
          omega (arith, ap length new, length-push_bounded e.settings.risk.breach_n e.history v h)
    ]
