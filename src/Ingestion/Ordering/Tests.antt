-- ===== src/Ingestion/Ordering/Tests.antt =====
-- Runs of the tracker of backend/app/ingestion/ordering.py.
use continuous_auth.Common.{◌≡◌, refl, none, some, List, [], ◌∷◌}
use continuous_auth.Ingestion.Ordering.{SequenceTracker, gap_accepted, observe, remember}
use continuous_auth.Ingestion.Ordering.Invariant.{IsRising}
use continuous_auth.Ingestion.Ordering.Traces.{Observation, accepted_of, accepted_of-IsRising}

abbrev fresh : SequenceTracker
fresh = record {
  history_capacity = 2;
  recent = [];
  recent_set = [];
  expected = none;
  last_capture_us = none;
}

-- A gap of two, a repeated number, a late number and a time that goes back.
abbrev observations : List Observation
observations =
    (1, some 10) ∷ (4, some 20) ∷ (4, some 21) ∷ (2, some 22) ∷ (5, some 15) ∷ (6, some 30) ∷ []

observe_gap :
    (observe 4 (some 20) (observe 1 (some 10) fresh).0).1
    ≡ record { status = gap_accepted; missing_sequences = 2 }
unfolding observe remember
observe_gap = refl

accepted_numbers : accepted_of fresh observations ≡ 1 ∷ 4 ∷ 6 ∷ []
unfolding accepted_of observe remember
accepted_numbers = refl

accepted_of-IsRising_example : IsRising 0 (accepted_of fresh observations)
accepted_of-IsRising_example = accepted_of-IsRising fresh observations
