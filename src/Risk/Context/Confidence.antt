-- ===== src/Risk/Context/Confidence.antt =====
-- backend/app/risk/context.py: from the learned statistics to an assessment. `sqrt` is `math.sqrt`.
use text.Mathlib.Text.{◌==◌ as str_eq}
use continuous_auth.Common.{
  Bool, true, false, not, ◌||◌, Option, none, some, List, [], ◌∷◌, String, is_blank, if◌then◌else◌,
}
use continuous_auth.Contracts.{
  ConfidenceSource, bootstrap, empirical, neutral_fallback, multiplicative_damping,
  per_context_normalization,
}
use continuous_auth.Risk.Assessment.{Floats, ContextAssessment, is_normalizing}
use continuous_auth.Risk.Context.{
  ApplicationCategory, is_unknown, AppFocusShare, ContextConfig, EmpiricalStatistics,
  ConfidenceTrace, ContextConfidenceLayer, Answer, answer, raised, blank_user, same_key, get,
  max_of, min_of, majority, variance,
}

-- The variables of the loop in `assess`.
pub record Sums (F : Type 0) : Type 0 where
  pub blended : F
  pub empirical_coverage : F
  pub observed_evidence : F
  pub context_mean : F
  pub context_variance : F
  pub any_statistics : Bool

module _ (fl : Floats) (sqrt : fl.F → fl.F) where
  open fl use {F, zero, one, add, sub, mul, div, le, lt}

  abbrev pub standard_deviation : EmpiricalStatistics F → F
  standard_deviation s = sqrt (max_of fl (variance fl s) zero)

  -- `_build_assessment` with the baseline of the user.
  unfoldable pub build_with :
      Option (EmpiricalStatistics F)
      → ContextConfig F
      → F
      → ConfidenceSource
      → F
      → F
      → F
      → ContextAssessment F
  build_with base config confidence source coverage mean var =
      let damped : ContextAssessment F = record {
        confidence = confidence;
        source = source;
        mode = multiplicative_damping;
        context_location = none;
        context_scale = none;
        baseline_location = none;
        baseline_scale = none;
      } in
      elim base [
        | none ↦ damped
        | some b ↦
            if not (is_normalizing config.adjustment_mode)
              || lt coverage (majority fl)
              || lt b.weight config.min_empirical_observations
            then damped
            else record {
              confidence = confidence;
              source = source;
              mode = per_context_normalization;
              context_location = some mean;
              context_scale =
                  some (max_of fl (sqrt (max_of fl var zero)) config.normalization_min_scale);
              baseline_location = some b.mean;
              baseline_scale =
                  some (max_of fl (standard_deviation b) config.normalization_min_scale);
            }
      ]

  -- `_application_confidence`, with the statistics of the application.
  unfoldable pub application_confidence :
      ContextConfig F → AppFocusShare F → Option (EmpiricalStatistics F) → F × Bool
  application_confidence config share none =
      (max_of fl config.confidence_floor (config.bootstrap_weights share.category), false)
  application_confidence config share (some s) =
      if le config.min_empirical_observations s.weight
      then (
        max_of fl config.confidence_floor (sub one (mul config.variance_scale (variance fl s))),
        true,
      )
      else (max_of fl config.confidence_floor (config.bootstrap_weights share.category), false)

  -- One application in that loop, with its share of the total.
  unfoldable pub add_share :
      ContextConfig F → F → AppFocusShare F → Option (EmpiricalStatistics F) → Sums F → Sums F
  unfolding application_confidence
  add_share config total share none t =
      let (confidence, _) = application_confidence config share none in
      record t { blended = add t.blended (mul (div share.fraction total) confidence) }
  add_share config total share (some s) t =
      let (confidence, is_empirical) = application_confidence config share (some s) in
      let normalized = div share.fraction total in
      record {
        blended = add t.blended (mul normalized confidence);
        empirical_coverage =
            if is_empirical then add t.empirical_coverage normalized else t.empirical_coverage;
        observed_evidence = add t.observed_evidence s.weight;
        context_mean =
            if is_empirical then add t.context_mean (mul normalized s.mean) else t.context_mean;
        context_variance =
            if is_empirical
            then add t.context_variance (mul normalized (variance fl s))
            else t.context_variance;
        any_statistics = true;
      }

  abbrev pub add_shares :
      ContextConfidenceLayer F → String → F → List (AppFocusShare F) → Sums F → Sums F
  add_shares l user_id total [] t = t
  add_shares l user_id total (share ∷ shares) t =
      add_shares l user_id total shares
        (add_share l.config total share (get same_key (user_id, share.app_id) l.statistics) t)

  abbrev pub usable : List (AppFocusShare F) → List (AppFocusShare F)
  usable [] = []
  usable (share ∷ shares) =
      let rest = usable shares in if lt zero share.fraction then share ∷ rest else rest

  abbrev pub total_fraction : List (AppFocusShare F) → F → F
  total_fraction [] acc = acc
  total_fraction (share ∷ shares) acc = total_fraction shares (add acc share.fraction)

  abbrev pub source_of : Sums F → ApplicationCategory → ConfidenceSource
  source_of t dominant =
      if le (majority fl) t.empirical_coverage
      then empirical
      else if t.any_statistics || not (is_unknown dominant)
      then bootstrap
      else neutral_fallback

  -- `assess` where some focus is attributable.
  unfoldable pub assess_shares :
      String
      → List (AppFocusShare F)
      → F
      → ApplicationCategory
      → ContextConfidenceLayer F
      → ConfidenceTrace F
  assess_shares user_id shares total dominant l =
      let t = add_shares l user_id total shares (record {
        blended = zero;
        empirical_coverage = zero;
        observed_evidence = zero;
        context_mean = zero;
        context_variance = zero;
        any_statistics = false;
      }) in
      record {
        user_id = user_id;
        assessment =
            build_with (get str_eq user_id l.baselines) l.config
              (min_of fl one (max_of fl l.config.confidence_floor t.blended)) (source_of t dominant)
              t.empirical_coverage t.context_mean t.context_variance;
        dominant_category = dominant;
        observed_evidence = t.observed_evidence;
        empirical_coverage = t.empirical_coverage;
        genuine_score_variance =
            if lt zero t.empirical_coverage then some t.context_variance else none;
        bootstrap_confidence = l.config.bootstrap_weights dominant;
      }

  unfoldable pub neutral :
      String → ApplicationCategory → ContextConfidenceLayer F → ConfidenceTrace F
  neutral user_id dominant l = record {
    user_id = user_id;
    assessment = record {
      confidence = max_of fl l.config.confidence_floor (l.config.bootstrap_weights dominant);
      source = neutral_fallback;
      mode = multiplicative_damping;
      context_location = none;
      context_scale = none;
      baseline_location = none;
      baseline_scale = none;
    };
    dominant_category = dominant;
    observed_evidence = zero;
    empirical_coverage = zero;
    genuine_score_variance = none;
    bootstrap_confidence = l.config.bootstrap_weights dominant;
  }

  abbrev pub is_nil : List (AppFocusShare F) → Bool
  is_nil [] = true
  is_nil (_ ∷ _) = false

  unfoldable pub assess :
      String
      → List (AppFocusShare F)
      → ApplicationCategory
      → ContextConfidenceLayer F
      → Answer (ConfidenceTrace F)
  unfolding neutral assess_shares
  assess user_id shares dominant l =
      let kept = usable shares in
      let total = total_fraction kept zero in
      if is_blank user_id
      then raised blank_user
      else if is_nil kept || le total zero
      then answer (neutral user_id dominant l)
      else answer (assess_shares user_id kept total dominant l)
