-- ===== src/Updates/Calls.antt =====
-- Runs of the calls of `UpdateManager` (backend/app/updates/manager.py).
use continuous_auth.Common.{
  ℕ, ◌≡◌, inl, inr, Bool, true, Option, none, some, List, [], ◌∷◌, String, All, values, lookup,
  arith, Option-cases, Bool-cases, same_text,
}
use continuous_auth.Risk.Assessment.{Floats}
use continuous_auth.Updates.Candidates.{
  UpdateCandidate, UpdateManagerConfig, SegmentEvidence, submit_segment, reassess, invalidate,
}
use continuous_auth.Updates.Scheduled.{UpdateTables, CandidateBuild, save_candidate, run_scheduled}
use continuous_auth.Updates.Gates.{sound, reassess-sound, submit_segment-sound, invalidate-sound}
use continuous_auth.Updates.Tables.{IsSound, save_candidate-IsSound, run_scheduled-IsSound}

abbrev pub no_tables : UpdateTables
no_tables = record { candidates = []; runs = []; activations = [] }

module _ (N : Floats) (config : UpdateManagerConfig N.F) where
  -- A segment with the id of the factory; a stored candidate with a time and whether the run is
  -- scheduled; a stored candidate with a reason; a scheduled run.
  pub data Call : Type 0 where
    submitted : String → SegmentEvidence → Call
    reassessed : String → ℕ → Bool → Call
    invalidated_for : String → String → Call
    scheduled :
        (String → List UpdateCandidate → Option (CandidateBuild N)) → String → String → ℕ → Call

  -- What is saved of a candidate.
  save_some : Option UpdateCandidate → UpdateTables → UpdateTables
  save_some none t = t
  save_some (some c) t = save_candidate c t

  reassess_stored : Option UpdateCandidate → ℕ → Bool → UpdateTables → UpdateTables
  reassess_stored none now scheduled_run t = t
  reassess_stored (some c) now scheduled_run t =
      save_candidate (reassess config now scheduled_run c) t

  invalidate_stored : Option UpdateCandidate → String → UpdateTables → UpdateTables
  invalidate_stored none reason t = t
  invalidate_stored (some c) reason t = save_some (invalidate reason c) t

  unfoldable pub call : Call → UpdateTables → UpdateTables
  unfolding reassess_stored invalidate_stored save_some
  call (submitted id e) t = save_candidate (submit_segment config id e) t
  call (reassessed id now scheduled_run) t =
      reassess_stored (lookup id t.candidates) now scheduled_run t
  call (invalidated_for id reason) t = invalidate_stored (lookup id t.candidates) reason t
  call (scheduled builder run_id user_id now) t =
      (run_scheduled N config builder run_id user_id now t).1

  unfoldable pub run : List Call → UpdateTables → UpdateTables
  unfolding call
  run [] t = t
  run (m ∷ ms) t = run ms (call m t)

  stored-sound :
      (id : String) (d : List (String × UpdateCandidate)) (c : UpdateCandidate)
      → All (λ x. sound x ≡ true) (values d)
      → lookup id d ≡ some c
      → sound c ≡ true
  stored-sound id [] c a h = absurd (ground (arith, h))
  stored-sound id ((k, x) ∷ d) c a h = elim (Bool-cases (same_text k id)) [
    | inl e ↦ ground (arith, h, e, a.0)
    | inr e ↦ stored-sound id d c a.1 (ground (arith, h, e))
  ]

  call-IsSound : (m : Call) (t : UpdateTables) → IsSound t → IsSound (call m t)
  unfolding call
  call-IsSound (submitted id e) t a =
      save_candidate-IsSound (submit_segment config id e) t (submit_segment-sound config id e) a
  call-IsSound (reassessed id now scheduled_run) t a =
      elim (Option-cases (lookup id t.candidates)) [
        | inl n ↦ rw n a
        | inr (c, n) ↦ rw n (
            save_candidate-IsSound (reassess config now scheduled_run c) t
              (reassess-sound config now scheduled_run c (stored-sound id t.candidates c a n)) a)
      ]
  call-IsSound (invalidated_for id reason) t a = elim (Option-cases (lookup id t.candidates)) [
    | inl n ↦ rw n a
    | inr (c, n) ↦ elim (Option-cases (invalidate reason c)) [
      | inl i ↦ rw n (rw i a)
      | inr (c', i) ↦ rw n (rw i (save_candidate-IsSound c' t (invalidate-sound reason c c' i) a))
    ]
  ]
  call-IsSound (scheduled builder run_id user_id now) t a =
      run_scheduled-IsSound N config builder run_id user_id now t a

  -- From sound tables on, such as the empty ones, whatever segments are submitted, reassessed and
  -- invalidated and whatever runs are scheduled: a stored candidate that is eligible or promoted has
  -- passed its six gates and has no incident.
  pub run-IsSound : (ms : List Call) (t : UpdateTables) → IsSound t → IsSound (run ms t)
  unfolding run
  run-IsSound [] t a = a
  run-IsSound (m ∷ ms) t a = run-IsSound ms (call m t) (call-IsSound m t a)
