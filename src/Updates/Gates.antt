-- ===== src/Updates/Gates.antt =====
-- The promotion gates of backend/app/updates/manager.py: what the stored candidates keep, and what a
-- profile that is activated has behind it.
use continuous_auth.Common.{
  ℕ, ◌≡◌, inl, inr, Bool, true, not, ◌&&◌, ◌||◌, some, List, [], ◌∷◌, String, All, arith,
  Bool-cases, is_blank,
}
use continuous_auth.Updates.Candidates.{
  UpdateCandidate, UpdateManagerConfig, SegmentEvidence, is_promoted, is_eligible, all_gates,
  reassess, submit_segment, invalidate,
}
use continuous_auth.Updates.Scheduled.{promote, reject, promotable}

-- A candidate that is eligible or promoted has all its gates and no incident.
abbrev pub sound : UpdateCandidate → Bool
sound c =
    not (is_eligible c.disposition || is_promoted c.disposition)
    || (all_gates c.gate_evidence && not c.incident_recorded)

-- It is promoted, and sound.
abbrev pub passed : UpdateCandidate → Bool
passed c = is_promoted c.disposition && all_gates c.gate_evidence && not c.incident_recorded

abbrev pub AllSound : List UpdateCandidate → Type 0
AllSound = All (λ c. sound c ≡ true)

module _ {F : Type 0} (config : UpdateManagerConfig F) where
  pub reassess-sound :
      (now : ℕ) (scheduled : Bool) (c : UpdateCandidate)
      → sound c ≡ true
      → sound (reassess config now scheduled c) ≡ true
  unfolding reassess
  reassess-sound now scheduled c h = ground (arith, h)

  pub submit_segment-sound :
      (id : String) (e : SegmentEvidence) → sound (submit_segment config id e) ≡ true
  unfolding submit_segment
  submit_segment-sound id e = ground arith

pub promote-passed :
    (c : UpdateCandidate)
    → sound c ≡ true
    → is_eligible c.disposition || is_promoted c.disposition ≡ true
    → passed (promote c) ≡ true
unfolding promote
promote-passed c h k = ground (arith, h, k)

pub promotable-passed :
    (cs : List UpdateCandidate) → AllSound cs → All (λ c. passed c ≡ true) (promotable cs)
unfolding promotable
promotable-passed [] a = tt
promotable-passed (c ∷ cs) a =
    elim (Bool-cases (is_eligible c.disposition || is_promoted c.disposition)) [
      | inl e ↦ rw e (promote-passed c a.0 e, promotable-passed cs a.1)
      | inr e ↦ rw e (promotable-passed cs a.1)
    ]

pub passed-sound : (c : UpdateCandidate) → passed c ≡ true → sound c ≡ true
passed-sound c h = ground (arith, h)

pub reject-sound : (c : UpdateCandidate) → sound (reject c) ≡ true
unfolding reject
reject-sound c = ground arith

pub invalidate-sound :
    (reason : String) (c c' : UpdateCandidate) → invalidate reason c ≡ some c' → sound c' ≡ true
unfolding invalidate
invalidate-sound reason c c' h = elim (Bool-cases (is_blank reason)) [
  | inl e ↦ absurd (ground (arith, h, e))
  | inr e ↦ ground (arith, h, e)
]
