-- ===== src/Risk/Context.antt =====
-- backend/app/risk/context.py: the confidence of a context, learned per application and user.
-- `is_finite` is `math.isfinite`; the dictionaries of the source are association lists. The keys of
-- the bootstrap weights are the categories, by their type.
pub mod Confidence
pub mod Isolation
mod Tests
use text.Mathlib.Text.{◌==◌ as str_eq}
use continuous_auth.Common.{
  ℕ, Bool, true, false, not, ◌&&◌, ◌||◌, Option, none, some, List, [], ◌∷◌, String, is_some,
  is_blank, ◌==◌, every, if◌then◌else◌,
}
use continuous_auth.Contracts.{
  ConfidenceSource, bootstrap, empirical, neutral_fallback, ContextAdjustmentMode,
  multiplicative_damping, per_context_normalization,
}
use continuous_auth.Risk.Assessment.{Floats, ContextAssessment, is_normalizing}

pub data ApplicationCategory : Type 0 where
  productivity browsing development creative gaming system unknown : ApplicationCategory

abbrev pub categories : List ApplicationCategory
categories = productivity ∷ browsing ∷ development ∷ creative ∷ gaming ∷ system ∷ unknown ∷ []

abbrev pub is_unknown : ApplicationCategory → Bool
is_unknown unknown = true
is_unknown _ = false

pub record AppFocusShare (F : Type 0) : Type 0 where
  pub app_id : ℕ
  pub category : ApplicationCategory
  pub fraction : F

pub record ContextConfig (F : Type 0) : Type 0 where
  pub confidence_floor : F
  -- an integer of the configuration, as the float that it is compared as
  pub min_empirical_observations : F
  pub bootstrap_weights : ApplicationCategory → F
  pub adjustment_mode : ContextAdjustmentMode
  pub variance_scale : F
  pub normalization_min_scale : F

pub record EmpiricalStatistics (F : Type 0) : Type 0 where
  pub weight : F
  pub mean : F
  pub m2 : F

pub record ConfidenceTrace (F : Type 0) : Type 0 where
  pub user_id : String
  pub assessment : ContextAssessment F
  pub dominant_category : ApplicationCategory
  pub observed_evidence : F
  pub empirical_coverage : F
  pub genuine_score_variance : Option F
  pub bootstrap_confidence : F

pub record ContextConfidenceLayer (F : Type 0) : Type 0 where
  pub config : ContextConfig F
  pub statistics : List ((String × ℕ) × EmpiricalStatistics F)
  pub baselines : List (String × EmpiricalStatistics F)
  pub learning_suspended : Bool

-- The messages of the `ValueError`s.
pub data ContextError : Type 0 where
  blank_user bad_score : ContextError

pub data Answer (A : Type 0) : Type 0 where
  answer : A → Answer A
  raised : ContextError → Answer A

abbrev pub same_key : String × ℕ → String × ℕ → Bool
same_key (u, a) (v, b) = str_eq u v && a == b

-- `dict.get` and the assignment to a key, under a test of equal keys.
module _ {K V : Type 0} (same : K → K → Bool) where
  abbrev pub get : K → List (K × V) → Option V
  get k [] = none
  get k ((j, v) ∷ d) = if same j k then some v else get k d

  abbrev pub put : K → V → List (K × V) → List (K × V)
  put k v [] = (k, v) ∷ []
  put k v ((j, w) ∷ d) = if same j k then (j, v) ∷ d else (j, w) ∷ put k v d

module _ (fl : Floats) where
  open fl use {F, zero, one, add, sub, mul, div, le, lt}

  -- Python's `max` and `min` of two: the first one, unless the second one is beyond it.
  abbrev pub max_of : F → F → F
  max_of a b = if lt a b then b else a

  abbrev pub min_of : F → F → F
  min_of a b = if lt b a then b else a

  -- `_EMPIRICAL_COVERAGE_MAJORITY`, which is 0.5
  abbrev pub majority : F
  majority = div one (add one one)

  -- `EmpiricalStatistics(0.0, 0.0, 0.0)`
  abbrev pub no_statistics : EmpiricalStatistics F
  no_statistics = record { weight = zero; mean = zero; m2 = zero }

  abbrev pub variance : EmpiricalStatistics F → F
  variance s = if lt zero s.weight then div s.m2 s.weight else zero

  abbrev pub update : F → F → EmpiricalStatistics F → EmpiricalStatistics F
  update value weight s =
      let total = add s.weight weight in
      let delta = sub value s.mean in
      let mean = add s.mean (mul (div weight total) delta) in
      if le total zero then s else record {
        weight = total;
        mean = mean;
        m2 = add s.m2 (mul (mul weight delta) (sub value mean));
      }

  -- The constructor raises a `ValueError` at a bootstrap weight below the floor.
  unfoldable pub new_layer : ContextConfig F → Option (ContextConfidenceLayer F)
  new_layer config =
      if every (λ c. not (lt (config.bootstrap_weights c) config.confidence_floor)) categories
      then some
          (record { config = config; statistics = []; baselines = []; learning_suspended = false })
      else none

  unfoldable pub suspend_learning : Bool → ContextConfidenceLayer F → ContextConfidenceLayer F
  suspend_learning enabled l = record l { learning_suspended = enabled }

  abbrev pub known : Option (EmpiricalStatistics F) → EmpiricalStatistics F
  known none = no_statistics
  known (some s) = s

  -- The loop of `observe_genuine` over the shares.
  abbrev pub learn_shares :
      String
      → F
      → List (AppFocusShare F)
      → List ((String × ℕ) × EmpiricalStatistics F)
      → List ((String × ℕ) × EmpiricalStatistics F)
  learn_shares user_id score [] stats = stats
  learn_shares user_id score (share ∷ shares) stats =
      if le share.fraction zero
      then learn_shares user_id score shares stats
      else learn_shares user_id score shares (
          put same_key (user_id, share.app_id)
            (update score share.fraction (known (get same_key (user_id, share.app_id) stats)))
            stats)

  unfoldable pub observe_genuine :
      (F → Bool)
      → String
      → List (AppFocusShare F)
      → F
      → ContextConfidenceLayer F
      → Answer (ContextConfidenceLayer F)
  observe_genuine is_finite user_id shares score l =
      if l.learning_suspended
      then answer l
      else if is_blank user_id
      then raised blank_user
      else if not (is_finite score) || not (le zero score && le score one)
      then raised bad_score
      else answer (record l {
        statistics = learn_shares user_id score shares l.statistics;
        baselines =
            put str_eq user_id (update score one (known (get str_eq user_id l.baselines)))
              l.baselines;
      })
