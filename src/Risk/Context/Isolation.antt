-- ===== src/Risk/Context/Isolation.antt =====
-- What calls of backend/app/risk/context.py leave of the learned statistics.
use continuous_auth.Common.{◌≡◌, refl, Bool, true, false, List, [], ◌∷◌, String, arith}
use continuous_auth.Risk.Assessment.{Floats}
use continuous_auth.Risk.Context.Confidence.{assess}
use continuous_auth.Risk.Context.{
  ContextConfidenceLayer, AppFocusShare, ApplicationCategory, Answer, answer, raised,
  observe_genuine, suspend_learning,
}

-- A genuine score reported for a window: the user, the shares and the score.
pub record Observation (F : Type 0) : Type 0 where
  pub user_id : String
  pub shares : List (AppFocusShare F)
  pub score : F

module _ (fl : Floats) where
  open fl use {F}

  abbrev after :
      Answer (ContextConfidenceLayer F) → ContextConfidenceLayer F → ContextConfidenceLayer F
  after (answer l') l = l'
  after (raised _) l = l

  -- Reports in a row; a refused one leaves the layer.
  unfoldable pub observe_all :
      (F → Bool) → List (Observation F) → ContextConfidenceLayer F → ContextConfidenceLayer F
  observe_all is_finite [] l = l
  observe_all is_finite (o ∷ os) l =
      observe_all is_finite os (after (observe_genuine fl is_finite o.user_id o.shares o.score l) l)

  observe-suspended :
      (is_finite : F → Bool) (o : Observation F) (l : ContextConfidenceLayer F)
      → l.learning_suspended ≡ true
      → after (observe_genuine fl is_finite o.user_id o.shares o.score l) l ≡ l
  unfolding observe_genuine
  observe-suspended is_finite o l h = ground arith

  observe_all-suspended :
      (is_finite : F → Bool) (os : List (Observation F)) (l : ContextConfidenceLayer F)
      → l.learning_suspended ≡ true
      → observe_all is_finite os l ≡ l
  unfolding observe_all
  observe_all-suspended is_finite [] l h = refl
  observe_all-suspended is_finite (o ∷ os) l h =
      rw (observe-suspended is_finite o l h) (observe_all-suspended is_finite os l h)

  -- A drill leaves no trace: whatever scores are reported between suspending and resuming the
  -- learning, every later assessment is the one that a layer without these reports gives.
  pub assess-drill :
      (sqrt : F → F) (is_finite : F → Bool) (os : List (Observation F)) (user_id : String)
      (shares : List (AppFocusShare F)) (dominant : ApplicationCategory)
      (l : ContextConfidenceLayer F)
      → assess fl sqrt user_id shares dominant
          (suspend_learning fl false (observe_all is_finite os (suspend_learning fl true l)))
        ≡ assess fl sqrt user_id shares dominant (suspend_learning fl false l)
  unfolding suspend_learning
  assess-drill sqrt is_finite os user_id shares dominant l =
      rw (observe_all-suspended is_finite os (record l { learning_suspended = true }) refl) refl
