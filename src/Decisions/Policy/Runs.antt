-- ===== src/Decisions/Policy/Runs.antt =====
-- Runs of the policy of backend/app/decisions/policy.py.
use continuous_auth.Common.{ℕ, ◌≤◌, ◌≡◌, ◌⊎◌, Bool, true, List, [], ◌∷◌, arith, if◌then◌else◌}
use continuous_auth.Contracts.{RiskLevel, DecisionAction, soft_challenge, reauth, terminate}
use continuous_auth.Decisions.Policy.{
  RiskSettings, PolicyResult, DecisionPolicy, requested_action, decide,
}

-- A call of `decide`: the level, the count, the time and whether enforcement is enabled.
pub record Request : Type 0 where
  pub level : RiskLevel
  pub high_count : ℕ
  pub now : ℕ
  pub enabled : Bool

module _ {F : Type 0} (settings : RiskSettings F) where
  -- A decision that the policy applies was enabled, is emitted as it was requested for the level
  -- and the count, and is a soft challenge, a reauthentication or a termination.
  decide_applied :
      (level : RiskLevel) (high_count now : ℕ) (enabled : Bool) (p : DecisionPolicy)
      → (decide settings level high_count now enabled p).0.enforcement_applied ≡ true
      → let r = (decide settings level high_count now enabled p).0 in
        (enabled ≡ true)
        × (r.emitted ≡ r.requested)
        × (r.requested ≡ requested_action settings level high_count)
        × ((r.emitted ≡ soft_challenge) ⊎ ((r.emitted ≡ reauth) ⊎ (r.emitted ≡ terminate)))
  unfolding decide
  decide_applied level high_count now enabled p h = ground arith

-- The applied actions with their times, the last one first.
abbrev pub History : Type 0
History = List (DecisionAction × ℕ)

-- Requests come in the order of their times.
abbrev pub InOrder : ℕ → List Request → Type 0
InOrder start [] = Unit
InOrder start (r ∷ rs) = (start ≤ r.now) × InOrder r.now rs

unfoldable pub end_of : ℕ → List Request → ℕ
end_of start [] = start
end_of start (r ∷ rs) = end_of r.now rs

module _ {F : Type 0} (settings : RiskSettings F) where
  unfoldable pub record_applied : PolicyResult → ℕ → History → History
  record_applied r now h = if r.enforcement_applied then (r.emitted, now) ∷ h else h

  unfoldable pub run : List Request → History × DecisionPolicy → History × DecisionPolicy
  unfolding record_applied
  run [] s = s
  run (q ∷ qs) (h, p) =
      let (r, p') = decide settings q.level q.high_count q.now q.enabled p in
      run qs (record_applied r q.now h, p')
