-- ===== src/Updates/Tables.antt =====
-- The stored candidates of backend/app/updates/manager.py stay sound, whatever calls are made.
use continuous_auth.Common.{
  ℕ, ◌≡◌, refl, inl, inr, true, Option, none, some, List, [], ◌∷◌, map, String, All, values, store,
  Bool-cases, same_text,
}
use continuous_auth.Risk.Assessment.{Floats}
use continuous_auth.Updates.Candidates.{
  UpdateCandidate, UpdateManagerConfig, is_settled, reassess, days,
}
use continuous_auth.Updates.Scheduled.{
  UpdateTables, CandidateBuild, RunCode, RunStatus, ModelProfile, validation_passed, save_candidate,
  save_all, insert_ordered, rows_of, candidates_for_user, begin_run, finish, reject, promotable,
  reassess_all, validate, conclude, validate_build, train, run_scheduled, precedes, schedule_due,
}
use continuous_auth.Updates.Gates.{
  sound, passed, AllSound, reassess-sound, promotable-passed, passed-sound, reject-sound,
}

store-All :
    {V : Type 0} (P : V → Type 0) (k : String) (v : V) (d : List (String × V))
    → P v
    → All P (values d)
    → All P (values (store k v d))
store-All P k v [] p a = (p, tt)
store-All P k v ((j, w) ∷ d) p a = elim (Bool-cases (same_text j k)) [
  | inl e ↦ rw e (p, a.1)
  | inr e ↦ rw e (a.0, store-All P k v d p a.1)
]

insert_ordered-All :
    (P : UpdateCandidate → Type 0) (c : UpdateCandidate) (cs : List UpdateCandidate)
    → P c
    → All P cs
    → All P (insert_ordered c cs)
insert_ordered-All P c [] p a = (p, tt)
insert_ordered-All P c (d ∷ ds) p a = elim (Bool-cases (precedes d c)) [
  | inl e ↦ rw e (a.0, insert_ordered-All P c ds p a.1)
  | inr e ↦ rw e (p, (a.0, a.1))
]

rows_of-All :
    (P : UpdateCandidate → Type 0) (user_id : String) (cs : List UpdateCandidate)
    → All P cs
    → All P (rows_of user_id cs)
rows_of-All P user_id [] a = tt
rows_of-All P user_id (c ∷ cs) a = elim (Bool-cases (same_text c.user_id user_id)) [
  | inl e ↦ rw e (insert_ordered-All P c (rows_of user_id cs) a.0 (rows_of-All P user_id cs a.1))
  | inr e ↦ rw e (rows_of-All P user_id cs a.1)
]

-- All the stored candidates are sound.
abbrev pub IsSound : UpdateTables → Type 0
IsSound t = AllSound (values t.candidates)

pub save_candidate-IsSound :
    (c : UpdateCandidate) (t : UpdateTables)
    → sound c ≡ true
    → IsSound t
    → IsSound (save_candidate c t)
unfolding save_candidate
save_candidate-IsSound c t h a = store-All (λ x. sound x ≡ true) c.candidate_id c t.candidates h a

save_all-IsSound :
    (cs : List UpdateCandidate) (t : UpdateTables)
    → AllSound cs
    → IsSound t
    → IsSound (save_all cs t)
unfolding save_all
save_all-IsSound [] t h a = a
save_all-IsSound (c ∷ cs) t h a =
    save_all-IsSound cs (save_candidate c t) h.1 (save_candidate-IsSound c t h.0 a)

passed-AllSound : (cs : List UpdateCandidate) → All (λ c. passed c ≡ true) cs → AllSound cs
passed-AllSound [] a = tt
passed-AllSound (c ∷ cs) a = (passed-sound c a.0, passed-AllSound cs a.1)

rejected-AllSound : (cs : List UpdateCandidate) → AllSound (map reject cs)
rejected-AllSound [] = tt
rejected-AllSound (c ∷ cs) = (reject-sound c, rejected-AllSound cs)

module _ {F : Type 0} (config : UpdateManagerConfig F) where
  pub reassess_all-IsSound :
      (now : ℕ) (cs : List UpdateCandidate) (t : UpdateTables)
      → AllSound cs
      → IsSound t
      → AllSound (reassess_all config now cs t).0 × IsSound (reassess_all config now cs t).1
  unfolding reassess_all
  reassess_all-IsSound now [] t h a = (tt, a)
  reassess_all-IsSound now (c ∷ cs) t h a =
      let c' = reassess config now true c in
      let kept = reassess-sound config now true c h.0 in
      elim (Bool-cases (is_settled c.disposition)) [
        | inl e ↦
            let (rest, saved) = reassess_all-IsSound now cs t h.1 a in rw e ((kept, rest), saved)
        | inr e ↦
            let (rest, saved) =
              reassess_all-IsSound now cs (save_candidate c' t) h.1
                (save_candidate-IsSound c' t kept a) in
            rw e ((kept, rest), saved)
      ]

finish-candidates :
    (run_id : String) (status : RunStatus) (code : RunCode) (profile : Option ModelProfile)
    (t : UpdateTables)
    → (finish run_id status code profile t).1.candidates ≡ t.candidates
unfolding finish
finish-candidates run_id status code profile t = refl

module _ (N : Floats) (config : UpdateManagerConfig N.F) where
  conclude-IsSound :
      (run_id user_id : String) (now : ℕ) (cs : List UpdateCandidate) (build : CandidateBuild N)
      (code : RunCode) (t : UpdateTables)
      → IsSound t
      → IsSound (conclude N config run_id user_id now cs build code t).1
  unfolding conclude finish
  conclude-IsSound run_id user_id now cs build validation_passed t a = a
  conclude-IsSound run_id user_id now cs build code t a =
      save_all-IsSound (map reject cs) t (rejected-AllSound cs) a

  validate_build-IsSound :
      (run_id user_id : String) (now : ℕ) (cs : List UpdateCandidate)
      (build : Option (CandidateBuild N)) (t : UpdateTables)
      → IsSound t
      → IsSound (validate_build N config run_id user_id now cs build t).1
  unfolding validate_build finish
  validate_build-IsSound run_id user_id now cs none t a = a
  validate_build-IsSound run_id user_id now cs (some build) t a =
      conclude-IsSound run_id user_id now cs build (validate N config build) t a

  train-IsSound :
      (builder : String → List UpdateCandidate → Option (CandidateBuild N))
      (run_id user_id : String) (now : ℕ) (cs : List UpdateCandidate) (t : UpdateTables)
      → AllSound cs
      → IsSound t
      → IsSound (train N config builder run_id user_id now cs t).1
  unfolding train finish
  train-IsSound builder run_id user_id now [] t h a = a
  train-IsSound builder run_id user_id now (c ∷ cs) t h a =
      validate_build-IsSound run_id user_id now (c ∷ cs) (builder user_id (c ∷ cs))
        (save_all (c ∷ cs) t) (save_all-IsSound (c ∷ cs) t h a)

  candidates_for_user-AllSound :
      (user_id : String) (t : UpdateTables) → IsSound t → AllSound (candidates_for_user user_id t)
  unfolding candidates_for_user
  candidates_for_user-AllSound user_id t a =
      rows_of-All (λ x. sound x ≡ true) user_id (values t.candidates) a

  -- What a due run assesses.
  pub assessed-IsSound :
      (run_id user_id : String) (now : ℕ) (t : UpdateTables)
      → IsSound t
      → let begun = begin_run run_id user_id now t in
        let r = reassess_all config now (candidates_for_user user_id begun) begun in
        AllSound r.0 × IsSound r.1
  unfolding begin_run
  assessed-IsSound run_id user_id now t a =
      let begun = begin_run run_id user_id now t in
      reassess_all-IsSound config now (candidates_for_user user_id begun) begun
        (candidates_for_user-AllSound user_id begun a) a

  pub run_scheduled-IsSound :
      (builder : String → List UpdateCandidate → Option (CandidateBuild N))
      (run_id user_id : String) (now : ℕ) (t : UpdateTables)
      → IsSound t
      → IsSound (run_scheduled N config builder run_id user_id now t).1
  unfolding run_scheduled
  run_scheduled-IsSound builder run_id user_id now t a =
      let begun = begin_run run_id user_id now t in
      let (cs, t') = reassess_all config now (candidates_for_user user_id begun) begun in
      let (h, a') = assessed-IsSound run_id user_id now t a in
      elim (Bool-cases (schedule_due user_id now (days config.retraining_cadence_days) t.runs)) [
        | inl e ↦ rw e (
            train-IsSound builder run_id user_id now (promotable cs) t'
              (passed-AllSound (promotable cs) (promotable-passed cs h)) a')
        | inr e ↦ rw e a
      ]
