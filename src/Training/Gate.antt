-- ===== src/Training/Gate.antt =====
-- ml/training/gate.py: the last check before training, which the windows of a user must pass.
use continuous_auth.Common.{
  ◌≡◌, ◌⊎◌, ◌↔◌, inl, inr, refl, Bool, true, false, not, ◌||◌, Option, none, some, List, [], ◌∷◌,
  String, All, lookup, same_text, eq_iff, arith, Bool-cases, Option-cases, if◌then◌else◌,
}
use continuous_auth.Contracts.{DataProvenance, synthetic, public, team, pilot}
use continuous_auth.Updates.Candidates.{UpdateCandidate, is_promoted, all_gates}
use continuous_auth.Updates.Gates.{passed}

-- The fields of a FeatureWindow that the gate reads.
pub record FeatureWindow : Type 0 where
  pub user_id : String
  pub segment_id : String
  pub provenance : DataProvenance

pub data PromotionGateError : Type 0 where
  other_user no_evidence incomplete_evidence : PromotionGateError

abbrev pub is_development : DataProvenance → Bool
is_development synthetic = true
is_development public = true
is_development team = false
is_development pilot = false

abbrev pub incomplete : String → FeatureWindow → UpdateCandidate → Bool
incomplete user_id w c =
    not (same_text c.user_id user_id)
    || not (same_text c.segment_id w.segment_id)
    || not (is_promoted c.disposition)
    || c.incident_recorded
    || not (all_gates c.gate_evidence)

candidate_error : String → FeatureWindow → Option UpdateCandidate → Option PromotionGateError
candidate_error user_id w none = some no_evidence
candidate_error user_id w (some c) =
    if incomplete user_id w c then some incomplete_evidence else none

-- The body of the loop.
unfoldable pub window_error :
    String → List (String × UpdateCandidate) → FeatureWindow → Option PromotionGateError
unfolding candidate_error
window_error user_id candidates w =
    if not (same_text w.user_id user_id)
    then some other_user
    else if is_development w.provenance
    then none
    else candidate_error user_id w (lookup w.segment_id candidates)

-- `require_promotion_gate`: none where it raises nothing
unfoldable pub require_promotion_gate :
    String → List FeatureWindow → List (String × UpdateCandidate) → Option PromotionGateError
unfolding window_error
require_promotion_gate user_id [] candidates = none
require_promotion_gate user_id (w ∷ ws) candidates =
    let rest = require_promotion_gate user_id ws candidates in
    elim (window_error user_id candidates w) [ some e ↦ some e | none ↦ rest ]

-- A window of the user, of development data or of a segment that was promoted for this user.
abbrev pub IsTrainable : String → List (String × UpdateCandidate) → FeatureWindow → Type 0
IsTrainable user_id candidates w =
    (w.user_id ≡ user_id)
    × ((is_development w.provenance ≡ true)
        ⊎ ((c : UpdateCandidate) × (lookup w.segment_id candidates ≡ some c)
            × (c.user_id ≡ user_id)
            × (c.segment_id ≡ w.segment_id)
            × (passed c ≡ true)))

complete :
    (user_id : String) (w : FeatureWindow) (c : UpdateCandidate)
    → incomplete user_id w c ≡ false
    → (c.user_id ≡ user_id) × (c.segment_id ≡ w.segment_id) × (passed c ≡ true)
complete user_id w c h = elim (Bool-cases (same_text c.user_id user_id)) [
  | inr e ↦ absurd (ground (arith, h, e))
  | inl e ↦ elim (Bool-cases (same_text c.segment_id w.segment_id)) [
    | inr f ↦ absurd (ground (arith, h, e, f))
    | inl f ↦ (
      (eq_iff c.user_id user_id).0 e,
      (eq_iff c.segment_id w.segment_id).0 f,
      ground (arith, h, e, f),
    )
  ]
]

complete_back :
    (user_id : String) (w : FeatureWindow) (c : UpdateCandidate)
    → c.user_id ≡ user_id
    → c.segment_id ≡ w.segment_id
    → passed c ≡ true
    → incomplete user_id w c ≡ false
complete_back user_id w c u g p =
    ground (arith, (eq_iff c.user_id user_id).1 u, (eq_iff c.segment_id w.segment_id).1 g, p)

-- What the loop lets pass is trainable.
trainable :
    (user_id : String) (candidates : List (String × UpdateCandidate)) (w : FeatureWindow)
    → window_error user_id candidates w ≡ none
    → IsTrainable user_id candidates w
unfolding window_error
trainable user_id candidates w h = elim (Bool-cases (same_text w.user_id user_id)) [
  | inr e ↦ absurd (ground (arith, h, e))
  | inl e ↦ elim (Bool-cases (is_development w.provenance)) [
    | inl d ↦ ((eq_iff w.user_id user_id).0 e, inl d)
    | inr d ↦ elim (Option-cases (lookup w.segment_id candidates)) [
      | inl n ↦ absurd (ground (arith, h, e, d, n))
      | inr (c, n) ↦ elim (Bool-cases (incomplete user_id w c)) [
        | inl i ↦ absurd (ground (arith, h, e, d, n, i))
        | inr i ↦
            let (u, g, p) = complete user_id w c i in
            ((eq_iff w.user_id user_id).0 e, inr (c, n, u, g, p))
      ]
    ]
  ]
]

trainable_back :
    (user_id : String) (candidates : List (String × UpdateCandidate)) (w : FeatureWindow)
    → IsTrainable user_id candidates w
    → window_error user_id candidates w ≡ none
unfolding window_error
trainable_back user_id candidates w (own, inl d) = rw ((eq_iff w.user_id user_id).1 own) (rw d refl)
trainable_back user_id candidates w (own, inr (c, n, u, g, p)) =
    rw ((eq_iff w.user_id user_id).1 own) (elim (Bool-cases (is_development w.provenance)) [
      | inl d ↦ rw d refl
      | inr d ↦ rw d (rw n (rw (complete_back user_id w c u g p) refl))
    ])

-- The gate raises nothing exactly where every window is the user's own, and is development data or
-- comes from a segment with a candidate of this user that is promoted, has its six gates passed and
-- no incident.
pub require_promotion_gate_lem :
    (user_id : String) (ws : List FeatureWindow) (candidates : List (String × UpdateCandidate))
    → (require_promotion_gate user_id ws candidates ≡ none)
      ↔ All (IsTrainable user_id candidates) ws
unfolding require_promotion_gate
require_promotion_gate_lem user_id [] candidates = (λ h. tt, λ h. refl)
require_promotion_gate_lem user_id (w ∷ ws) candidates =
    let (forth, back) = require_promotion_gate_lem user_id ws candidates in
    elim (Option-cases (window_error user_id candidates w)) [
      | inl e ↦ (
        λ h. (trainable user_id candidates w e, forth (ground (arith, h, e))),
        λ a. rw (e, require_promotion_gate) (back a.1),
      )
      | inr (x, e) ↦ (
        λ h. absurd (ground (arith, h, e)),
        λ a. absurd (ground (arith, e, trainable_back user_id candidates w a.0)),
      )
    ]
