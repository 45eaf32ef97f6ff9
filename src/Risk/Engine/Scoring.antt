-- ===== src/Risk/Engine/Scoring.antt =====
-- backend/app/risk/engine.py: fusion, risk levels with their hysteresis, and smoothing.
use continuous_auth.Common.{
  ℕ, Option, none, some, List, [], ◌∷◌, ◌++◌, ltb, leb, if◌then◌else◌, length, count_if, every,
}
use continuous_auth.Contracts.{
  RiskLevel, low, medium, high, unavailable, is_high, ModalityScore, ScoreResult,
}
use continuous_auth.Risk.Assessment.{Floats}
use continuous_auth.Decisions.Policy.{RiskSettings}

-- `_RANK`, which has no entry for UNAVAILABLE: the engine's own level is never that.
abbrev pub rank : RiskLevel → ℕ
rank low = 0
rank medium = 1
rank high = 2
rank unavailable = 3

module _ (fl : Floats) where
  open fl use {F, zero, one, add, sub, mul, div, le, lt}

  abbrev pub weigh : ModalityScore F → F → List (F × F)
  weigh m weight =
      if m.available
      then elim (m.calibrated_score) [ none ↦ [] | some v ↦ (v, weight) ∷ [] ]
      else []

  abbrev pub total_weight : List (F × F) → F → F
  total_weight [] acc = acc
  total_weight ((_, w) ∷ ws) acc = total_weight ws (add acc w)

  abbrev pub weighted_sum : List (F × F) → F → F
  weighted_sum [] acc = acc
  weighted_sum ((v, w) ∷ ws) acc = weighted_sum ws (add acc (mul v w))

  unfoldable pub fuse : List (F × F) → ScoreResult F → RiskSettings F → Option (F × F × F)
  fuse [] score settings = none
  fuse (x ∷ xs) score settings =
      let total = total_weight (x ∷ xs) zero in
      if le total zero
      then none
      else some (
        div (weighted_sum (x ∷ xs) zero) total,
        if score.keyboard.available then div settings.risk.keyboard_weight total else zero,
        if score.mouse.available then div settings.risk.mouse_weight total else zero,
      )

  -- `_fusion`: the fused score and the two weights used; `none` is its `ValueError`.
  unfoldable pub fusion : ScoreResult F → RiskSettings F → Option (F × F × F)
  unfolding fuse
  fusion score settings =
      fuse
        (weigh score.keyboard settings.risk.keyboard_weight
          ++ weigh score.mouse settings.risk.mouse_weight)
        score settings

  -- `_candidate_level`
  unfoldable pub candidate_level : RiskSettings F → List F → RiskLevel × ℕ
  candidate_level settings history =
      let medium_count = count_if (le settings.risk.medium_threshold) history in
      let high_count = count_if (le settings.risk.high_threshold) history in
      if leb settings.risk.breach_k high_count
      then (high, high_count)
      else if leb settings.risk.breach_k medium_count
      then (medium, high_count)
      else (low, high_count)

  -- `_with_hysteresis`
  unfoldable pub with_hysteresis : RiskSettings F → List F → RiskLevel → RiskLevel → RiskLevel
  with_hysteresis settings history current candidate =
      let boundary =
        if is_high current then settings.risk.high_threshold else settings.risk.medium_threshold in
      if leb (rank current) (rank candidate)
      then candidate
      else if ltb (length history) settings.risk.breach_n
      then current
      else if every (λ value. lt value boundary) history
      then candidate
      else current

  abbrev pub smooth : Option F → F → F → F
  smooth none alpha adjusted = adjusted
  smooth (some previous) alpha adjusted = add (mul alpha adjusted) (mul (sub one alpha) previous)
